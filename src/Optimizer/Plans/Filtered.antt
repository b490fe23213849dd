-- ===== src/Optimizer/Plans/Filtered.antt =====
-- That PhysicalFilter (src/planner/physical/physical_filter_operator.cpp), with EvalPredicate
-- (src/include/executor/expression_evaluator.h) as its predicate, runs the filter of a plan.
use chicken_db.Base.{
  suc, ◌≡◌, sym, ap, ◌∙◌, ◌≢◌, inl, inr, Bool, false, Option, none, some, List, [], ◌∷◌,
  Option-cases, All, length, concat,
}
use chicken_db.Binder.Numbers.{Numbers}
use chicken_db.Binder.Expression.{BoundExpression}
use chicken_db.Executor.Eval.{eval_predicate}
use chicken_db.Executor.Filter.{drain}
use chicken_db.Executor.Filter.Kept.{where_true, AreDecided, drain-where_true}
use chicken_db.Optimizer.Pushdown.{LogicalPlan, filter_plan}
use chicken_db.Optimizer.Pushdown.Rows.{Engine, Row, chunk_of, places, truth_at, plan_rows}

module _ {N : Numbers} (E : Engine N) (e : BoundExpression N) where
  -- EvalPredicate at a row.
  abbrev pub evaluated : Row N → Option Bool
  evaluated row = eval_predicate e (chunk_of E.columns row) 0 (places 0 E.columns)

  rows-decided :
      (rows : List (Row N))
      → All (λ row. evaluated row ≢ none) rows
      → All (λ row. evaluated row ≡ some (truth_at E e row)) rows
  rows-decided [] h = tt
  rows-decided (row ∷ rows) h = (
    elim (Option-cases (evaluated row)) [
      | inl k ↦ absurd (h.0 k)
      | inr (b, k) ↦ k ∙ ap some (sym (ap (λ o. elim o [ none ↦ false | some x ↦ x ]) k))
    ],
    rows-decided rows h.1,
  )

  chunks-AreDecided :
      (chunks : List (List (Row N)))
      → All (λ chunk. All (λ row. evaluated row ≢ none) chunk) chunks
      → AreDecided evaluated (truth_at E e) chunks
  chunks-AreDecided [] h = tt
  chunks-AreDecided (chunk ∷ chunks) h = (rows-decided chunk h.0, chunks-AreDecided chunks h.1)

  -- On chunks that hold the rows of the child, where EvalPredicate throws at none of them, calls of
  -- `Next` come to an end within one more than the chunks, no chunk that they give is empty, and
  -- together these hold the rows that the filter of the plan has, in their order.
  pub filter_runs_plan :
      (child : LogicalPlan N) (chunks : List (List (Row N)))
      → concat chunks ≡ plan_rows E child
      → All (λ chunk. All (λ row. evaluated row ≢ none) chunk) chunks
      → (outs : List (List (Row N))) × ((drain evaluated (suc (length chunks)) chunks ≡ some outs)
          × ((concat outs ≡ plan_rows E (filter_plan (some e) child)) × All (λ out. out ≢ []) outs))
  unfolding plan_rows
  filter_runs_plan child chunks same h =
      let (outs, (d, (rows, filled))) =
        drain-where_true evaluated (truth_at E e) chunks (chunks-AreDecided chunks h) in
      (outs, (d, (rows ∙ ap (where_true (truth_at E e)) same, filled)))
