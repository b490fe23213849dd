-- ===== src/Optimizer/Pushdown.antt =====
-- src/optimizer/rule/predicate_pushdown.cpp: conditions moved towards the scans of a logical plan
-- (src/include/planner/logical).
pub mod Rows
pub mod Truth
pub mod Refs
pub mod Joined
pub mod Meaning
pub mod Hidden
use chicken_db.Base.{ℕ, Bool, true, false, Option, none, some, List, [], ◌∷◌, ◌++◌, if◌then◌else◌}
use chicken_db.Base.Eq.{nat_eq, contains}
use chicken_db.Binder.Numbers.{Numbers}
use chicken_db.Binder.Expression.{BoundExpression, constant, column, binary, unary}
use chicken_db.Optimizer.Conjuncts.{split_and, combine_and}

-- A child that is not there is no plan. A projection and the operators that no condition passes
-- (`other`) are told apart by a number, which stands for what they have besides their children. A
-- join has two children, and two more plans `left_` and `right_` that only this rule reads.
mutual
  pub data LogicalPlan (N : Numbers) : Type 0 where
    no_plan : LogicalPlan N
    scan_plan : ℕ → LogicalPlan N
    filter_plan : Option (BoundExpression N) → LogicalPlan N → LogicalPlan N
    project_plan : ℕ → LogicalPlan N → LogicalPlan N
    join_plan :
        LogicalPlan N
        → LogicalPlan N
        → List ℕ
        → List ℕ
        → LogicalPlan N
        → LogicalPlan N
        → LogicalPlan N
    other_plan : ℕ → Plans N → LogicalPlan N

  pub data Plans (N : Numbers) : Type 0 where
    no_plans : Plans N
    and_plan : LogicalPlan N → Plans N → Plans N

abbrev pub all_in : List ℕ → List ℕ → Bool
all_in allowed [] = true
all_in allowed (t ∷ refs) =
    let rest = all_in allowed refs in if contains t allowed then rest else false

-- The predicates for the left, for the right and for above a join.
pub record Sides (N : Numbers) : Type 0 where
  pub left_preds : List (BoundExpression N)
  pub right_preds : List (BoundExpression N)
  pub remain_preds : List (BoundExpression N)

module _ {N : Numbers} where
  -- A missing condition has no parts.
  abbrev pub split_condition : Option (BoundExpression N) → List (BoundExpression N)
  split_condition none = []
  split_condition (some e) = split_and e

  unfoldable pub collect_table_refs : BoundExpression N → List ℕ → List ℕ
  collect_table_refs (column table col) out = if contains table out then out else out ++ table ∷ []
  collect_table_refs (binary op l r) out = collect_table_refs r (collect_table_refs l out)
  collect_table_refs (constant v) out = out
  collect_table_refs (unary op e) out = out

  abbrev pub only_refs : BoundExpression N → List ℕ → Bool
  only_refs e allowed = all_in allowed (collect_table_refs e [])

  abbrev pub wrap_with_filter : LogicalPlan N → List (BoundExpression N) → LogicalPlan N
  wrap_with_filter plan [] = plan
  wrap_with_filter plan (p ∷ preds) = filter_plan (combine_and (p ∷ preds)) plan

  -- The tables of the scans in `children_`; a join's `left_` and `right_` are not among them.
  unfoldable mutual
    pub collect_scan_tables : LogicalPlan N → List ℕ
    collect_scan_tables no_plan = []
    collect_scan_tables (scan_plan t) = t ∷ []
    collect_scan_tables (filter_plan c child) = collect_scan_tables child
    collect_scan_tables (project_plan x child) = collect_scan_tables child
    collect_scan_tables (join_plan left_ right_ lk rk l r) =
        collect_scan_tables l ++ collect_scan_tables r
    collect_scan_tables (other_plan k children) = collect_all children

    pub collect_all : Plans N → List ℕ
    collect_all no_plans = []
    collect_all (and_plan p ps) = collect_scan_tables p ++ collect_all ps

  abbrev pub sort_preds : List ℕ → List ℕ → List (BoundExpression N) → Sides N
  sort_preds lts rts [] = record { left_preds = []; right_preds = []; remain_preds = [] }
  sort_preds lts rts (p ∷ preds) =
      let rest = sort_preds lts rts preds in
      if only_refs p lts
      then record rest { left_preds = p ∷ rest.left_preds }
      else if only_refs p rts
      then record rest { right_preds = p ∷ rest.right_preds }
      else record rest { remain_preds = p ∷ rest.remain_preds }

  unfoldable mutual
    pub pushdown_plan : LogicalPlan N → List (BoundExpression N) → LogicalPlan N
    pushdown_plan no_plan extra = wrap_with_filter no_plan extra
    pushdown_plan (filter_plan c child) extra = pushdown_plan child (extra ++ split_condition c)
    pushdown_plan (project_plan x child) extra = project_plan x (pushdown_plan child extra)
    pushdown_plan (join_plan left_ right_ lk rk l r) extra =
        let sides = sort_preds (collect_scan_tables left_) (collect_scan_tables right_) extra in
        wrap_with_filter
          (join_plan left_ right_ lk rk (pushdown_plan l sides.left_preds)
            (pushdown_plan r sides.right_preds))
          sides.remain_preds
    pushdown_plan (scan_plan t) extra = wrap_with_filter (scan_plan t) extra
    pushdown_plan (other_plan k children) extra =
        wrap_with_filter (other_plan k (pushdown_all children)) extra

    pub pushdown_all : Plans N → Plans N
    pushdown_all no_plans = no_plans
    pushdown_all (and_plan p ps) = and_plan (pushdown_plan p []) (pushdown_all ps)

  -- `Apply`.
  abbrev pub apply : LogicalPlan N → LogicalPlan N
  apply plan = pushdown_plan plan []
