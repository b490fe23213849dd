-- ===== src/Optimizer/Pushdown/Hidden.antt =====
-- IS NULL and IS NOT NULL above a join: src/optimizer/rule/predicate_pushdown.cpp does not see the
-- column below them.
use chicken_db.Base.{ℕ, ◌≡◌, refl, none, some, List}
use chicken_db.Base.Eq.{nat_eq}
use chicken_db.Base.Dict.{lookup}
use chicken_db.Binder.Numbers.{Numbers}
use chicken_db.Binder.Expression.{UnaryOpType, column, unary}
use chicken_db.Executor.Chunk.{Chunk, ColMap}
use chicken_db.Executor.Eval.{eval, eval_predicate}
use chicken_db.Optimizer.Conjuncts.{split_and, combine_onto}
use chicken_db.Optimizer.Pushdown.{
  LogicalPlan, scan_plan, filter_plan, join_plan, pushdown_plan, collect_table_refs, apply,
}

-- A test for NULL of a column of the right table, above the join of two scans, is moved to the scan
-- of the left table, whatever `left_` and `right_` are; at every row of a chunk without that column
-- the evaluator throws.
pub null_test_misplaced :
    {N : Numbers} (op : UnaryOpType) (t u c : ℕ) (lk rk : List ℕ) (left_ right_ : LogicalPlan N)
    (chunk : Chunk N) (row : ℕ) (cols : ColMap)
    → lookup c cols ≡ none
    → (apply (
          filter_plan
            (some (unary op (column u c)))
            (join_plan left_ right_ lk rk (scan_plan t) (scan_plan u)))
        ≡ join_plan left_ right_ lk rk
            (filter_plan (some (unary op (column u c))) (scan_plan t))
            (scan_plan u))
      × (eval_predicate {N = N} (unary op (column u c)) chunk row cols ≡ none)
unfolding pushdown_plan collect_table_refs split_and combine_onto eval_predicate eval
null_test_misplaced op t u c lk rk left_ right_ chunk row cols h =
    (refl, rw (eval_predicate, eval, h) refl)
