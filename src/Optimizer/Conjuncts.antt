-- ===== src/Optimizer/Conjuncts.antt =====
-- src/optimizer/rule/predicate_pushdown.cpp: conditions taken apart at AND and put together again.
pub mod Meaning
use chicken_db.Base.{Option, none, some, List, [], ◌∷◌, ◌++◌}
use chicken_db.Binder.Numbers.{Numbers}
use chicken_db.Binder.Expression.{BoundExpression, binary, and_op}

module _ {N : Numbers} where
  unfoldable pub split_and : BoundExpression N → List (BoundExpression N)
  split_and (binary and_op l r) = split_and l ++ split_and r
  split_and e = e ∷ []

  -- The loop of `CombineAnd`, from the result so far.
  unfoldable pub combine_onto : BoundExpression N → List (BoundExpression N) → BoundExpression N
  combine_onto result [] = result
  combine_onto result (p ∷ preds) = combine_onto (binary and_op result p) preds

  -- No predicates combine to the null pointer.
  abbrev pub combine_and : List (BoundExpression N) → Option (BoundExpression N)
  combine_and [] = none
  combine_and (p ∷ preds) = some (combine_onto p preds)
