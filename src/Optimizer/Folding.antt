-- ===== src/Optimizer/Folding.antt =====
-- src/optimizer/rule/constant_folding.cpp: constant subexpressions and constant conditions.
pub mod Meaning
use chicken_db.Base.{ℕ, Bool, true, false, not, Option, none, some, List, if◌then◌else◌}
use chicken_db.Base.Int.{pos, int_eq}
use chicken_db.Base.Eq.{nat_eq, ◌==◌}
use chicken_db.Binder.Numbers.{Numbers, nonzero, zero_double}
use chicken_db.Binder.Expression.{
  Value, BinaryOpExpressionType, gt_op, gte_op, lt_op, lte_op, add_op, sub_op, mul_op, dri_op,
  eq_op, ne_op, BoundExpression, constant, binary, int_value, string_value, float_value,
  double_value, int64_value,
}
use chicken_db.Executor.Eval.{string_same}

-- `Value(b ? 1 : 0)`.
abbrev pub int_truth : (N : Numbers) → Bool → Value N
int_truth N true = int_value (pos 1)
int_truth N false = int_value (pos 0)

abbrev pub to_double : (N : Numbers) → Value N → Option (N.Double)
to_double N (int_value n) = some (N.of_int n)
to_double N (double_value d) = some d
to_double N (float_value f) = some (N.widen f)
to_double N (int64_value n) = some (N.of_int n)
to_double N _ = none

abbrev pub fold_arithmetic :
    (N : Numbers) → BinaryOpExpressionType → N.Double → N.Double → Option (Value N)
fold_arithmetic N add_op l r = some (double_value (N.add l r))
fold_arithmetic N sub_op l r = some (double_value (N.sub l r))
fold_arithmetic N mul_op l r = some (double_value (N.mul l r))
fold_arithmetic N dri_op l r =
    if N.same r (zero_double N) then none else some (double_value (N.div l r))
fold_arithmetic N _ l r = none

abbrev pub fold_comparison :
    (N : Numbers) → BinaryOpExpressionType → N.Double → N.Double → Option (Value N)
fold_comparison N eq_op l r = some (int_truth N (N.same l r))
fold_comparison N ne_op l r = some (int_truth N (not (N.same l r)))
fold_comparison N gt_op l r = some (int_truth N (N.gt l r))
fold_comparison N gte_op l r = some (int_truth N (N.gte l r))
fold_comparison N lt_op l r = some (int_truth N (N.lt l r))
fold_comparison N lte_op l r = some (int_truth N (N.lte l r))
fold_comparison N _ l r = none

abbrev pub fold_string_comparison :
    (N : Numbers) → BinaryOpExpressionType → List ℕ → List ℕ → Option (Value N)
fold_string_comparison N eq_op l r = some (int_truth N (string_same l r))
fold_string_comparison N ne_op l r = some (int_truth N (not (string_same l r)))
fold_string_comparison N _ l r = none

-- The numeric attempt on two constants: arithmetic first, then comparison.
abbrev pub fold_numbers :
    (N : Numbers)
    → BinaryOpExpressionType
    → Option (N.Double)
    → Option (N.Double)
    → Option (Value N)
fold_numbers N op (some l) (some r) = elim (fold_arithmetic N op l r) [
  | none ↦ fold_comparison N op l r
  | some v ↦ some v
]
fold_numbers N op (some l) none = none
fold_numbers N op none r = none

abbrev pub fold_strings :
    (N : Numbers) → BinaryOpExpressionType → Value N → Value N → Option (Value N)
fold_strings N op (string_value l) (string_value r) = fold_string_comparison N op l r
fold_strings N op _ _ = none

abbrev pub fold_constants :
    (N : Numbers) → BinaryOpExpressionType → Value N → Value N → Option (Value N)
fold_constants N op a b = elim (fold_numbers N op (to_double N a) (to_double N b)) [
  | none ↦ fold_strings N op a b
  | some v ↦ some v
]

-- What becomes of a binary node whose operands are folded.
abbrev pub fold_pair :
    (N : Numbers)
    → BinaryOpExpressionType
    → BoundExpression N
    → BoundExpression N
    → BoundExpression N
fold_pair N op (constant a) (constant b) = elim (fold_constants N op a b) [
  | none ↦ binary op (constant a) (constant b)
  | some v ↦ constant v
]
fold_pair N op l r = binary op l r

unfoldable pub fold_expr : (N : Numbers) → BoundExpression N → BoundExpression N
fold_expr N (binary op l r) = fold_pair N op (fold_expr N l) (fold_expr N r)
fold_expr N e = e

unfoldable pub is_constant_true : (N : Numbers) → BoundExpression N → Bool
is_constant_true N (constant (int_value n)) = not (n == pos 0)
is_constant_true N (constant (int64_value n)) = not (n == pos 0)
is_constant_true N (constant (double_value d)) = nonzero N d
is_constant_true N (constant (float_value f)) = N.float_nonzero f
is_constant_true N _ = false
