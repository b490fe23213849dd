-- ===== src/Optimizer/Pushdown/Meaning.antt =====
-- That src/optimizer/rule/predicate_pushdown.cpp keeps the rows of a plan.
use chicken_db.Base.{
  ◌≡◌, refl, sym, ap, ◌∙◌, true, ◌&&◌, Option, none, some, List, [], ◌∷◌, ◌++◌, arith,
}
use chicken_db.Optimizer.Pushdown.Rows.{
  truth_at, IsPlain, is_plain, Engine, Row, merged, filtered, plan_rows, all_rows, holds, ArePlain,
  IsLinked, AreLinked,
}
use chicken_db.Optimizer.Pushdown.Truth.{truth-and}
use chicken_db.Optimizer.Pushdown.Refs.{holds-sort_preds, sort_preds-ArePlain}
use chicken_db.Optimizer.Pushdown.{
  LogicalPlan, Plans, no_plan, scan_plan, filter_plan, project_plan, join_plan, other_plan,
  no_plans, and_plan, collect_scan_tables, collect_all, split_condition, wrap_with_filter,
  sort_preds, pushdown_plan, pushdown_all, apply,
}
use chicken_db.Optimizer.Conjuncts.{split_and, combine_onto}
use chicken_db.Executor.Join.Rows.{joined}
use chicken_db.Executor.Filter.Kept.{where_true}
use chicken_db.Binder.Expression.{BoundExpression, binary, and_op}
use chicken_db.Binder.Numbers.{Numbers}
use chicken_db.Optimizer.Pushdown.Joined.{
  where_true-all, where_true-same, where_true-twice, joined-kept,
}

module _ {N : Numbers} (E : Engine N) where
  holds-append :
      (ps qs : List (BoundExpression N)) (row : Row N)
      → holds E (ps ++ qs) row ≡ (holds E ps row && holds E qs row)
  holds-append [] qs row = refl
  holds-append (p ∷ ps) qs row = ground (arith, holds-append ps qs row)

  holds-split_and :
      (e : BoundExpression N) (row : Row N) → holds E (split_and e) row ≡ truth_at E e row
  unfolding split_and
  holds-split_and (binary and_op l r) row =
      holds-append (split_and l) (split_and r) row
      ∙ rw (holds-split_and l row, holds-split_and r row) (sym (truth-and E l r row))
  holds-split_and e row = ground arith

  truth-combine_onto :
      (result : BoundExpression N) (preds : List (BoundExpression N)) (row : Row N)
      → truth_at E (combine_onto result preds) row ≡ (truth_at E result row && holds E preds row)
  unfolding combine_onto
  truth-combine_onto result [] row = ground arith
  truth-combine_onto result (p ∷ preds) row =
      truth-combine_onto (binary and_op result p) preds row
      ∙ rw (truth-and E result p row) (ground arith)

  plan_rows-wrap :
      (plan : LogicalPlan N) (preds : List (BoundExpression N))
      → plan_rows E (wrap_with_filter plan preds) ≡ where_true (holds E preds) (plan_rows E plan)
  unfolding plan_rows
  plan_rows-wrap plan [] = sym (where_true-all (holds E []) (plan_rows E plan) (λ x. refl))
  plan_rows-wrap plan (p ∷ preds) =
      where_true-same (truth_at E (combine_onto p preds)) (holds E (p ∷ preds)) (plan_rows E plan)
        (λ row. truth-combine_onto p preds row)

  where_true-filtered :
      (extra : List (BoundExpression N)) (c : Option (BoundExpression N)) (rows : List (Row N))
      → where_true (holds E extra) (filtered E c rows)
        ≡ where_true (holds E (extra ++ split_condition c)) rows
  where_true-filtered extra none rows =
      where_true-same (holds E extra) (holds E (extra ++ [])) rows
        (λ row. sym (holds-append extra [] row ∙ ground arith))
  where_true-filtered extra (some e) rows =
      where_true-twice (holds E extra) (truth_at E e) rows
      ∙ where_true-same (λ row. holds E extra row && truth_at E e row)
          (holds E (extra ++ split_and e)) rows
          (λ row. sym (
            holds-append extra (split_and e) row
            ∙ ap (λ b. holds E extra row && b) (holds-split_and e row)))

module _ {N : Numbers} (E : Engine N) where
  ArePlain-append :
      (ps qs : List (BoundExpression N)) → ArePlain E ps → ArePlain E qs → ArePlain E (ps ++ qs)
  ArePlain-append [] qs a b = b
  ArePlain-append (p ∷ ps) qs a b = (a.0, ArePlain-append ps qs a.1 b)

  split_and-ArePlain : (e : BoundExpression N) → is_plain E e ≡ true → ArePlain E (split_and e)
  unfolding split_and
  split_and-ArePlain (binary and_op l r) h =
      ArePlain-append (split_and l) (split_and r) (split_and-ArePlain l (ground (arith, h)))
        (split_and-ArePlain r (ground (arith, h)))
  split_and-ArePlain e h = (h, tt)

  split_condition-ArePlain :
      (c : Option (BoundExpression N)) → IsPlain E c → ArePlain E (split_condition c)
  split_condition-ArePlain none h = tt
  split_condition-ArePlain (some e) h = split_and-ArePlain e h

module _ {N : Numbers} where
  collect_scan_tables-wrap :
      (plan : LogicalPlan N) (preds : List (BoundExpression N))
      → collect_scan_tables (wrap_with_filter plan preds) ≡ collect_scan_tables plan
  unfolding collect_scan_tables
  collect_scan_tables-wrap plan [] = refl
  collect_scan_tables-wrap plan (p ∷ preds) = refl

  mutual
    unfolding collect_scan_tables pushdown_plan

    tables-pushdown_plan :
        (plan : LogicalPlan N) (extra : List (BoundExpression N))
        → collect_scan_tables (pushdown_plan plan extra) ≡ collect_scan_tables plan
    tables-pushdown_plan no_plan extra = collect_scan_tables-wrap no_plan extra
    tables-pushdown_plan (scan_plan t) extra = collect_scan_tables-wrap (scan_plan t) extra
    tables-pushdown_plan (filter_plan c child) extra =
        tables-pushdown_plan child (extra ++ split_condition c)
    tables-pushdown_plan (project_plan x child) extra = tables-pushdown_plan child extra
    tables-pushdown_plan (join_plan left_ right_ lk rk l r) extra =
        let sides = sort_preds (collect_scan_tables left_) (collect_scan_tables right_) extra in
        collect_scan_tables-wrap
          (join_plan left_ right_ lk rk (pushdown_plan l sides.left_preds)
            (pushdown_plan r sides.right_preds))
          sides.remain_preds
        ∙ (λ i.
            tables-pushdown_plan l sides.left_preds i ++ tables-pushdown_plan r sides.right_preds i)
    tables-pushdown_plan (other_plan k children) extra =
        collect_scan_tables-wrap (other_plan k (pushdown_all children)) extra
        ∙ tables-pushdown_all children

    tables-pushdown_all :
        (children : Plans N) → collect_all (pushdown_all children) ≡ collect_all children
    tables-pushdown_all no_plans = refl
    tables-pushdown_all (and_plan p ps) =
        λ i. tables-pushdown_plan p [] i ++ tables-pushdown_all ps i

module _ {N : Numbers} (E : Engine N) where
  mutual
    unfolding plan_rows pushdown_plan IsLinked

    plan_rows-pushdown :
        (plan : LogicalPlan N) (extra : List (BoundExpression N))
        → IsLinked E plan
        → ArePlain E extra
        → plan_rows E (pushdown_plan plan extra) ≡ where_true (holds E extra) (plan_rows E plan)
    plan_rows-pushdown no_plan extra h a = plan_rows-wrap E no_plan extra
    plan_rows-pushdown (scan_plan t) extra h a = plan_rows-wrap E (scan_plan t) extra
    plan_rows-pushdown (filter_plan c child) extra h a =
        plan_rows-pushdown child (extra ++ split_condition c) h.1
          (ArePlain-append E extra (split_condition c) a (split_condition-ArePlain E c h.0))
        ∙ sym (where_true-filtered E extra c (plan_rows E child))
    plan_rows-pushdown (project_plan x child) extra h a = plan_rows-pushdown child extra h a
    plan_rows-pushdown (join_plan left_ right_ lk rk l r) extra
          (left_in, (right_in, (apart, (hl, hr)))) a =
        let lts = collect_scan_tables left_ in
        let rts = collect_scan_tables right_ in
        let tl = collect_scan_tables l in
        let tr = collect_scan_tables r in
        let sides = sort_preds lts rts extra in
        let plain = sort_preds-ArePlain E lts rts tl tr left_in right_in apart extra a in
        let l' = pushdown_plan l sides.left_preds in
        let r' = pushdown_plan r sides.right_preds in
        plan_rows-wrap E (join_plan left_ right_ lk rk l' r') sides.remain_preds
        ∙ ap (where_true (holds E sides.remain_preds)) (λ i.
          joined (E.keys_match lk rk) (merged E (tables-pushdown_plan l sides.left_preds i))
            (plan_rows-pushdown l sides.left_preds hl plain.0 i)
            (plan_rows-pushdown r sides.right_preds hr plain.1 i))
        ∙ sym (
            joined-kept (E.keys_match lk rk) (merged E tl) (holds E extra)
              (holds E sides.remain_preds) (holds E sides.left_preds) (holds E sides.right_preds)
              (λ x y. holds-sort_preds E lts rts tl tr left_in right_in apart extra x y a)
              (plan_rows E l) (plan_rows E r))
    plan_rows-pushdown (other_plan k children) extra h a =
        plan_rows-wrap E (other_plan k (pushdown_all children)) extra
        ∙ ap (λ rs. where_true (holds E extra) (E.run_other k rs)) (all_rows-pushdown children h)

    all_rows-pushdown :
        (children : Plans N)
        → AreLinked E children
        → all_rows E (pushdown_all children) ≡ all_rows E children
    all_rows-pushdown no_plans h = refl
    all_rows-pushdown (and_plan p ps) h = λ i.
        (plan_rows-pushdown p [] h.0 tt ∙ where_true-all (holds E []) (plan_rows E p) (λ x. refl)) i
        ∷ all_rows-pushdown ps h.1 i

-- Where no condition has an IS NULL or IS NOT NULL over a column, the two sides of each join have
-- different tables, and a join's `left_` and `right_`, where they are set, agree with its children,
-- the rule gives a plan with the same rows in the same order.
pub apply_keeps_rows :
    {N : Numbers} (E : Engine N) (plan : LogicalPlan N)
    → IsLinked E plan
    → plan_rows E (apply plan) ≡ plan_rows E plan
apply_keeps_rows E plan h =
    plan_rows-pushdown E plan [] h tt ∙ where_true-all (holds E []) (plan_rows E plan) (λ x. refl)
