-- ===== src/Optimizer/Pushdown/Rows.antt =====
-- The rows that a logical plan stands for, by which src/optimizer/rule/predicate_pushdown.cpp is
-- judged.
use chicken_db.Base.{
  ℕ, suc, ◌≡◌, Bool, true, false, ◌&&◌, Option, none, some, List, [], ◌∷◌, ◌++◌, if◌then◌else◌, All,
}
use chicken_db.Executor.Eval.{eval_predicate}
use chicken_db.Executor.Chunk.{Vector, Chunk, ColMap}
use chicken_db.Binder.Numbers.{KeepsZero, Numbers}
use chicken_db.Base.Eq.{◌==◌, nat_eq, contains}
use chicken_db.Binder.Expression.{BoundExpression, constant, column, binary, unary}
use chicken_db.Executor.Filter.Kept.{where_true}
use chicken_db.Executor.Join.Rows.{joined}
use chicken_db.Optimizer.Pushdown.{
  LogicalPlan, Plans, no_plan, scan_plan, filter_plan, project_plan, join_plan, other_plan,
  no_plans, and_plan, collect_scan_tables, all_in,
}

-- The columns that an expression has anywhere, by their ids.
unfoldable pub column_ids : {N : Numbers} → BoundExpression N → List ℕ
column_ids (constant v) = []
column_ids (column table c) = c ∷ []
column_ids (binary op l r) = column_ids l ++ column_ids r
column_ids (unary op e) = column_ids e

-- A row gives each column, whose ids are apart in all tables, a vector of one value.
abbrev pub Row : Numbers → Type 0
Row N = ℕ → Vector N

-- What runs a plan beside the evaluator: the table of each column, the columns of a chunk, the rows of
-- a table, the operators that no condition passes, and when the keys of two rows match.
pub record Engine (N : Numbers) : Type 0 where
  pub laws : KeepsZero N
  pub table_of : ℕ → ℕ
  pub columns : List ℕ
  pub scan_rows : ℕ → List (Row N)
  pub run_other : ℕ → List (List (Row N)) → List (Row N)
  pub keys_match : List ℕ → List ℕ → Row N → Row N → Bool

-- The columns of a row in the order of their ids, and where they are.
abbrev pub chunk_of : {N : Numbers} → List ℕ → Row N → Chunk N
chunk_of [] row = []
chunk_of (c ∷ ids) row = row c ∷ chunk_of ids row

abbrev pub places : ℕ → List ℕ → ColMap
places i [] = []
places i (c ∷ ids) = (c, i) ∷ places (suc i) ids

module _ {N : Numbers} (E : Engine N) where
  -- The evaluator finds the condition true; one that throws is not.
  abbrev pub truth_at : BoundExpression N → Row N → Bool
  truth_at e row = elim (eval_predicate e (chunk_of E.columns row) 0 (places 0 E.columns)) [
    | none ↦ false
    | some b ↦ b
  ]

  -- The columns of the left tables from the left row, and else from the right row.
  abbrev pub merged : List ℕ → Row N → Row N → Row N
  merged ts x y c = if contains (E.table_of c) ts then x c else y c

  abbrev pub filtered : Option (BoundExpression N) → List (Row N) → List (Row N)
  filtered none rows = rows
  filtered (some e) rows = where_true (truth_at e) rows

  -- A projection chooses columns to show, and keeps the rows.
  unfoldable mutual
    pub plan_rows : LogicalPlan N → List (Row N)
    plan_rows no_plan = []
    plan_rows (scan_plan t) = E.scan_rows t
    plan_rows (filter_plan c child) = filtered c (plan_rows child)
    plan_rows (project_plan x child) = plan_rows child
    plan_rows (join_plan left_ right_ lk rk l r) =
        joined (E.keys_match lk rk) (merged (collect_scan_tables l)) (plan_rows l) (plan_rows r)
    plan_rows (other_plan k children) = E.run_other k (all_rows children)

    pub all_rows : Plans N → List (List (Row N))
    all_rows no_plans = []
    all_rows (and_plan p ps) = plan_rows p ∷ all_rows ps

  -- Every predicate is true.
  abbrev pub holds : List (BoundExpression N) → Row N → Bool
  holds [] row = true
  holds (p ∷ preds) row = truth_at p row && holds preds row

  -- A column is of its table, and IS NULL and IS NOT NULL stand over no column, so that
  -- `collect_table_refs` misses none.
  abbrev pub is_plain : BoundExpression N → Bool
  is_plain (constant v) = true
  is_plain (column table c) = E.table_of c == table
  is_plain (binary op l r) = is_plain l && is_plain r
  is_plain (unary op e) = elim (column_ids e) [ [] ↦ true | c ∷ cs ↦ false ]

  abbrev pub ArePlain : List (BoundExpression N) → Type 0
  ArePlain preds = All (λ p. is_plain p ≡ true) preds

  abbrev pub IsPlain : Option (BoundExpression N) → Type 0
  IsPlain none = Unit
  IsPlain (some e) = is_plain e ≡ true

abbrev pub none_in : List ℕ → List ℕ → Bool
none_in others [] = true
none_in others (t ∷ ts) = let rest = none_in others ts in if contains t others then false else rest

module _ {N : Numbers} (E : Engine N) where
  -- Every condition is plain; the sides of a join have no table in common, and `left_` and `right_`,
  -- where they are there, scan tables of the left and of the right child.
  unfoldable mutual
    pub IsLinked : LogicalPlan N → Type 0
    IsLinked no_plan = Unit
    IsLinked (scan_plan t) = Unit
    IsLinked (filter_plan c child) = IsPlain E c × IsLinked child
    IsLinked (project_plan x child) = IsLinked child
    IsLinked (join_plan left_ right_ lk rk l r) =
        (all_in (collect_scan_tables l) (collect_scan_tables left_) ≡ true)
        × ((all_in (collect_scan_tables r) (collect_scan_tables right_) ≡ true)
            × ((none_in (collect_scan_tables l) (collect_scan_tables r) ≡ true)
                × (IsLinked l × IsLinked r)))
    IsLinked (other_plan k children) = AreLinked children

    pub AreLinked : Plans N → Type 0
    AreLinked no_plans = Unit
    AreLinked (and_plan p ps) = IsLinked p × AreLinked ps
