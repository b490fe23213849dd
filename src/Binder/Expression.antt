-- ===== src/Binder/Expression.antt =====
-- src/include/binder/expression, src/include/common/value.h and src/include/common/enum: expressions
-- over bound columns. Operands are present, as the binder builds them.
use chicken_db.Base.{ℕ, List}
use chicken_db.Base.Int.{ℤ}
use chicken_db.Binder.Numbers.{Numbers}

-- The variant of `Value`. A string is the list of its bytes.
pub data Value (N : Numbers) : Type 0 where
  monostate : Value N
  int_value : ℤ → Value N
  char_value : ℤ → Value N
  string_value : List ℕ → Value N
  float_value : N.Float → Value N
  double_value : N.Double → Value N
  int64_value : ℤ → Value N

pub data BinaryOpExpressionType : Type 0 where
  and_op or_op gt_op gte_op lt_op lte_op add_op sub_op mul_op dri_op eq_op ne_op :
      BinaryOpExpressionType
  like_op not_like_op ilike_op in_op : BinaryOpExpressionType

pub data UnaryOpType : Type 0 where
  is_null non_null : UnaryOpType

pub data BoundExpression (N : Numbers) : Type 0 where
  constant : Value N → BoundExpression N
  column : ℕ → ℕ → BoundExpression N
  binary : BinaryOpExpressionType → BoundExpression N → BoundExpression N → BoundExpression N
  unary : UnaryOpType → BoundExpression N → BoundExpression N
