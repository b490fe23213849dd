-- ===== src/Optimizer/Plans/Meaning.antt =====
-- That src/optimizer/optimizer.cpp keeps the rows of a plan.
use chicken_db.Base.{
  ◌≡◌, refl, sym, ap, ◌∙◌, subst, inl, inr, true, Option, none, some, List, ◌∷◌, ◌++◌, arith,
  Bool-cases, Option-cases,
}
use chicken_db.Binder.Numbers.{Numbers}
use chicken_db.Binder.Expression.{
  BinaryOpExpressionType, BoundExpression, constant, column, binary, unary,
}
use chicken_db.Executor.Join.Rows.{joined}
use chicken_db.Optimizer.Folding.{fold_expr, fold_pair, fold_constants}
use chicken_db.Optimizer.Plans.{fold_condition, is_true, fold_plan, fold_all, optimize}
use chicken_db.Optimizer.Pushdown.{
  LogicalPlan, Plans, no_plan, scan_plan, filter_plan, project_plan, join_plan, other_plan,
  no_plans, and_plan, collect_scan_tables, collect_all, all_in,
}
use chicken_db.Optimizer.Pushdown.Joined.{where_true-all, where_true-same}
use chicken_db.Optimizer.Pushdown.Meaning.{apply_keeps_rows}
use chicken_db.Optimizer.Pushdown.Rows.{
  Row, Engine, truth_at, merged, filtered, plan_rows, all_rows, is_plain, IsPlain, none_in,
  IsLinked, AreLinked,
}
use chicken_db.Optimizer.Pushdown.Truth.{truth-fold_expr, truth-constant}

module _ {N : Numbers} where
  mutual
    unfolding collect_scan_tables fold_plan

    tables-fold_plan :
        (plan : LogicalPlan N) → collect_scan_tables (fold_plan plan) ≡ collect_scan_tables plan
    tables-fold_plan no_plan = refl
    tables-fold_plan (scan_plan t) = refl
    tables-fold_plan (filter_plan c child) = elim (Bool-cases (is_true (fold_condition c))) [
      | inl e ↦ rw (collect_scan_tables, e) (tables-fold_plan child)
      | inr e ↦ rw (collect_scan_tables, e) (tables-fold_plan child)
    ]
    tables-fold_plan (project_plan x child) = tables-fold_plan child
    tables-fold_plan (join_plan left_ right_ lk rk l r) =
        λ i. tables-fold_plan l i ++ tables-fold_plan r i
    tables-fold_plan (other_plan k children) = tables-fold_all children

    tables-fold_all : (children : Plans N) → collect_all (fold_all children) ≡ collect_all children
    tables-fold_all no_plans = refl
    tables-fold_all (and_plan p ps) = λ i. tables-fold_plan p i ++ tables-fold_all ps i

module _ {N : Numbers} (E : Engine N) where
  is_plain-fold_pair :
      (op : BinaryOpExpressionType) (l r : BoundExpression N)
      → is_plain E l ≡ true
      → is_plain E r ≡ true
      → is_plain E (fold_pair N op l r) ≡ true
  is_plain-fold_pair op (constant a) (constant b) h k =
      elim (Option-cases (fold_constants N op a b)) [
        | inl e ↦ rw (fold_pair, e) refl
        | inr (v, e) ↦ rw (fold_pair, e) refl
      ]
  is_plain-fold_pair op _ _ h k = ground (arith, h, k)

  is_plain-fold_expr :
      (e : BoundExpression N) → is_plain E e ≡ true → is_plain E (fold_expr N e) ≡ true
  unfolding fold_expr
  is_plain-fold_expr (constant v) h = h
  is_plain-fold_expr (column t c) h = h
  is_plain-fold_expr (unary op e) h = h
  is_plain-fold_expr (binary op l r) h =
      is_plain-fold_pair op (fold_expr N l) (fold_expr N r)
        (is_plain-fold_expr l (ground (arith, h))) (is_plain-fold_expr r (ground (arith, h)))

  fold_condition-IsPlain :
      (c : Option (BoundExpression N)) → IsPlain E c → IsPlain E (fold_condition c)
  fold_condition-IsPlain none h = tt
  fold_condition-IsPlain (some e) h = is_plain-fold_expr e h

  mutual
    unfolding IsLinked fold_plan

    fold_plan-IsLinked : (plan : LogicalPlan N) → IsLinked E plan → IsLinked E (fold_plan plan)
    fold_plan-IsLinked no_plan h = tt
    fold_plan-IsLinked (scan_plan t) h = tt
    fold_plan-IsLinked (filter_plan c child) h = elim (Bool-cases (is_true (fold_condition c))) [
      | inl e ↦ rw (IsLinked, e) (fold_plan-IsLinked child h.1)
      | inr e ↦ rw (IsLinked, e) (fold_condition-IsPlain c h.0, fold_plan-IsLinked child h.1)
    ]
    fold_plan-IsLinked (project_plan x child) h = fold_plan-IsLinked child h
    fold_plan-IsLinked (join_plan left_ right_ lk rk l r) (a, (b, (d, (hl, hr)))) =
        let tl = sym (tables-fold_plan l) in
        let tr = sym (tables-fold_plan r) in
        (
          subst (λ ts. all_in ts (collect_scan_tables left_) ≡ true) tl a,
          (
            subst (λ ts. all_in ts (collect_scan_tables right_) ≡ true) tr b,
            (
              subst (λ ts. none_in (collect_scan_tables (fold_plan l)) ts ≡ true) tr
                  (subst (λ ts. none_in ts (collect_scan_tables r) ≡ true) tl d),
              (fold_plan-IsLinked l hl, fold_plan-IsLinked r hr),
            ),
          ),
        )
    fold_plan-IsLinked (other_plan k children) h = fold_all-AreLinked children h

    fold_all-AreLinked :
        (children : Plans N) → AreLinked E children → AreLinked E (fold_all children)
    fold_all-AreLinked no_plans h = tt
    fold_all-AreLinked (and_plan p ps) h = (fold_plan-IsLinked p h.0, fold_all-AreLinked ps h.1)

  filtered-fold :
      (c : Option (BoundExpression N)) (rows : List (Row N))
      → filtered E (fold_condition c) rows ≡ filtered E c rows
  filtered-fold none rows = refl
  filtered-fold (some e) rows =
      where_true-same (truth_at E (fold_expr N e)) (truth_at E e) rows (truth-fold_expr E e)

  filtered-true :
      (c : Option (BoundExpression N)) (rows : List (Row N))
      → is_true c ≡ true
      → filtered E c rows ≡ rows
  filtered-true none rows h = refl
  filtered-true (some e) rows h = where_true-all (truth_at E e) rows (λ x. truth-constant E e x h)

  mutual
    unfolding plan_rows fold_plan

    plan_rows-fold : (plan : LogicalPlan N) → plan_rows E (fold_plan plan) ≡ plan_rows E plan
    plan_rows-fold no_plan = refl
    plan_rows-fold (scan_plan t) = refl
    plan_rows-fold (filter_plan c child) =
        let same = ap (filtered E c) (plan_rows-fold child) in
        let folded = filtered-fold c (plan_rows E (fold_plan child)) in
        elim (Bool-cases (is_true (fold_condition c))) [
          | inl e ↦
              rw (plan_rows, e)
                (sym (filtered-true (fold_condition c) (plan_rows E (fold_plan child)) e)
                  ∙ (folded ∙ same))
          | inr e ↦ rw (plan_rows, e) (folded ∙ same)
        ]
    plan_rows-fold (project_plan x child) = plan_rows-fold child
    plan_rows-fold (join_plan left_ right_ lk rk l r) = λ i.
        joined (E.keys_match lk rk) (merged E (tables-fold_plan l i)) (plan_rows-fold l i)
          (plan_rows-fold r i)
    plan_rows-fold (other_plan k children) = ap (E.run_other k) (all_rows-fold children)

    all_rows-fold : (children : Plans N) → all_rows E (fold_all children) ≡ all_rows E children
    all_rows-fold no_plans = refl
    all_rows-fold (and_plan p ps) = λ i. plan_rows-fold p i ∷ all_rows-fold ps i

-- Where each condition names columns by their tables and has no IS NULL or IS NOT NULL over a column,
-- the two sides of each join have different tables, and a join's `left_` and `right_`, where they are
-- set, agree with its children, the optimizer gives a plan with the same rows in the same order. A
-- condition that throws at a row counts as not true there.
pub optimize_keeps_rows :
    {N : Numbers} (E : Engine N) (plan : LogicalPlan N)
    → IsLinked E plan
    → plan_rows E (optimize plan) ≡ plan_rows E plan
optimize_keeps_rows E plan h =
    apply_keeps_rows E (fold_plan plan) (fold_plan-IsLinked E plan h) ∙ plan_rows-fold E plan
