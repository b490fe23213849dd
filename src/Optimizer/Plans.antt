-- ===== src/Optimizer/Plans.antt =====
-- src/optimizer/optimizer.cpp: the rules one after the other, and the walk of the first over a plan
-- (`ConstantFolding::Apply` of src/optimizer/rule/constant_folding.cpp).
pub mod Meaning
pub mod Filtered
use chicken_db.Base.{Bool, false, Option, none, some, if◌then◌else◌}
use chicken_db.Binder.Numbers.{Numbers}
use chicken_db.Binder.Expression.{BoundExpression}
use chicken_db.Optimizer.Folding.{fold_expr, is_constant_true}
use chicken_db.Optimizer.Pushdown.{
  LogicalPlan, Plans, no_plan, scan_plan, filter_plan, project_plan, join_plan, other_plan,
  no_plans, and_plan, apply,
}

module _ {N : Numbers} where
  -- A missing condition stays missing.
  abbrev pub fold_condition : Option (BoundExpression N) → Option (BoundExpression N)
  fold_condition none = none
  fold_condition (some e) = some (fold_expr N e)

  abbrev pub is_true : Option (BoundExpression N) → Bool
  is_true none = false
  is_true (some e) = is_constant_true N e

  -- A filter has one child, which takes its place where the condition is true. A join's `left_` and
  -- `right_` are not among the children.
  unfoldable mutual
    pub fold_plan : LogicalPlan N → LogicalPlan N
    fold_plan no_plan = no_plan
    fold_plan (scan_plan t) = scan_plan t
    fold_plan (filter_plan c child) =
        let folded = fold_plan child in
        if is_true (fold_condition c) then folded else filter_plan (fold_condition c) folded
    fold_plan (project_plan x child) = project_plan x (fold_plan child)
    fold_plan (join_plan left_ right_ lk rk l r) =
        join_plan left_ right_ lk rk (fold_plan l) (fold_plan r)
    fold_plan (other_plan k children) = other_plan k (fold_all children)

    pub fold_all : Plans N → Plans N
    fold_all no_plans = no_plans
    fold_all (and_plan p ps) = and_plan (fold_plan p) (fold_all ps)

  -- `Optimize`.
  abbrev pub optimize : LogicalPlan N → LogicalPlan N
  optimize plan = apply (fold_plan plan)
