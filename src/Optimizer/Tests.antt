-- ===== src/Optimizer/Tests.antt =====
-- Concrete runs of the theorems on src/optimizer, on whole numbers in place of doubles.
use chicken_db.Base.{
  ℕ, ◌+◌, ◌*◌, ◌/◌, ◌≡◌, refl, ◌≢◌, true, not, none, some, List, [], ◌∷◌, arith, All, concat,
}
use chicken_db.Executor.Eval.{eval_predicate, eval}
use chicken_db.Executor.Filter.{drain}
use chicken_db.Optimizer.Plans.Filtered.{evaluated, filter_runs_plan}
use chicken_db.Executor.Chunk.{numbers, Chunk, ColMap}
use chicken_db.Optimizer.Pushdown.Rows.{Row, Engine, IsLinked, plan_rows}
use chicken_db.Optimizer.Plans.Meaning.{optimize_keeps_rows}
use chicken_db.Optimizer.Plans.{optimize}
use chicken_db.Binder.Expression.{
  unary, is_null, BoundExpression, column, binary, and_op, double_value, constant, int_value,
  add_op, gt_op,
}
use chicken_db.Optimizer.Pushdown.Hidden.{null_test_misplaced}
use chicken_db.Optimizer.Pushdown.{
  LogicalPlan, no_plan, scan_plan, filter_plan, project_plan, join_plan, apply, collect_scan_tables,
}
use chicken_db.Base.Eq.{nat_eq, ◌==◌}
use chicken_db.Optimizer.Conjuncts.Meaning.{split_combine}
use chicken_db.Optimizer.Conjuncts.{combine_and, split_and}
use chicken_db.Binder.Numbers.{KeepsZero, Numbers}
use chicken_db.Base.Dict.{lookup}
use chicken_db.Base.Int.{ℤ, pos, negsuc, int_beq, leb_ℤ, ltb_ℤ, int_eq}
use chicken_db.Optimizer.Folding.{fold_expr}
use chicken_db.Optimizer.Folding.Meaning.{eval-fold_expr}

abbrev whole : Numbers
whole = record {
  Double = ℤ;
  Float = ℤ;
  of_int = λ n. n;
  widen = λ n. n;
  add =
      λ a b. elim a [ pos m ↦ elim b [ pos n ↦ pos (m + n) | negsuc n ↦ negsuc n ] | negsuc m ↦ b ];
  sub = λ a b. a;
  mul =
      λ a b. elim a [ pos m ↦ elim b [ pos n ↦ pos (m * n) | negsuc n ↦ negsuc n ] | negsuc m ↦ b ];
  div = λ a b. a;
  gt = λ a b. ltb_ℤ b a;
  gte = λ a b. leb_ℤ b a;
  lt = ltb_ℤ;
  lte = leb_ℤ;
  same = int_beq;
  float_nonzero = λ f. not (f == pos 0);
}

-- `age > 1 + 2` on a column with the values 5 and 3.
abbrev older : BoundExpression whole
older =
    binary gt_op (column 7 0)
      (binary add_op (constant (int_value (pos 1))) (constant (int_value (pos 2))))

abbrev ages : Chunk whole
ages = record { cells = numbers (pos 5 ∷ pos 3 ∷ []); validity = true ∷ true ∷ [] } ∷ []

abbrev age_map : ColMap
age_map = (0, 0) ∷ []

older_folded : fold_expr whole older ≡ binary gt_op (column 7 0) (constant (double_value (pos 3)))
unfolding fold_expr
older_folded = refl

older_first : eval older ages 0 age_map ≡ some (pos 1)
unfolding eval lookup
older_first = refl

eval-fold_expr_example : eval (fold_expr whole older) ages 1 age_map ≡ eval older ages 1 age_map
eval-fold_expr_example = eval-fold_expr whole older ages 1 age_map

whole-KeepsZero : KeepsZero whole
whole-KeepsZero = record { of_int_nonzero = λ n. refl; widen_nonzero = λ f. refl }

-- `age > 1 + 2 AND (age > 1 + 2 AND 1)`.
abbrev nested : BoundExpression whole
nested = binary and_op older (binary and_op older (constant (int_value (pos 1))))

split_combine_example :
    (e : BoundExpression whole) × ((combine_and (split_and nested) ≡ some e)
      × (eval_predicate e ages 0 age_map ≡ eval_predicate nested ages 0 age_map))
split_combine_example = split_combine whole-KeepsZero ages 0 age_map nested

age_absent : lookup 4 age_map ≡ none
unfolding lookup
age_absent = refl

-- `WHERE a.x AND b.y > 1 + 2` over the join of tables 1 and 2, below a filter that is always true.
abbrev both_sides : LogicalPlan whole
both_sides = filter_plan (some (constant (int_value (pos 1)))) (
    project_plan 0 (
      filter_plan
        (some (
          binary and_op (column 1 10) (
            binary gt_op (column 2 20)
              (binary add_op (constant (int_value (pos 1))) (constant (int_value (pos 2)))))))
        (join_plan (scan_plan 1) (scan_plan 2) (10 ∷ []) (20 ∷ []) (scan_plan 1) (scan_plan 2))))

abbrev row_of : ℕ → Row whole
row_of n c = record { cells = numbers (pos n ∷ []); validity = true ∷ [] }

-- Columns have the number of their table in front; the row with the number `n` has `n` in each.
abbrev engine : Engine whole
engine = record {
  laws = whole-KeepsZero;
  table_of = λ c. c / 10;
  columns = 10 ∷ 20 ∷ [];
  scan_rows = λ t. row_of 0 ∷ row_of 4 ∷ [];
  run_other = λ k rows. [];
  keys_match = λ lk rk x y. true;
}

optimize_keeps_rows_example : plan_rows engine (optimize both_sides) ≡ plan_rows engine both_sides
unfolding IsLinked collect_scan_tables
optimize_keeps_rows_example =
    optimize_keeps_rows engine both_sides (refl, (refl, (refl, (refl, (refl, (tt, tt))))))

null_test_misplaced_example :
    (apply {N = whole} (
        filter_plan
          (some (unary is_null (column 9 4)))
          (join_plan no_plan no_plan (1 ∷ []) (1 ∷ []) (scan_plan 7) (scan_plan 9)))
      ≡ join_plan no_plan no_plan
          (1 ∷ [])
          (1 ∷ [])
          (filter_plan (some (unary is_null (column 9 4))) (scan_plan 7))
          (scan_plan 9))
    × (eval_predicate {N = whole} (unary is_null (column 9 4)) ages 0 age_map ≡ none)
null_test_misplaced_example =
    null_test_misplaced is_null 7 9 4 (1 ∷ []) (1 ∷ []) no_plan no_plan ages 0 age_map age_absent

-- `a.x > 3` over table 1, whose rows come in two chunks.
abbrev big : BoundExpression whole
big = binary gt_op (column 1 10) (constant (int_value (pos 3)))

abbrev row_chunks : List (List (Row whole))
row_chunks = (row_of 0 ∷ []) ∷ (row_of 4 ∷ []) ∷ []

none_thrown : All (λ chunk. All (λ row. evaluated engine big row ≢ none) chunk) row_chunks
unfolding eval_predicate eval lookup
none_thrown = (((λ z. ground (arith, z)), tt), (((λ z. ground (arith, z)), tt), tt))

filter_runs_plan_example :
    (outs : List (List (Row whole))) × ((drain (evaluated engine big) 3 row_chunks ≡ some outs)
      × ((concat outs ≡ plan_rows engine (filter_plan (some big) (scan_plan 1)))
          × All (λ out. out ≢ []) outs))
unfolding plan_rows
filter_runs_plan_example = filter_runs_plan engine big (scan_plan 1) row_chunks refl none_thrown
