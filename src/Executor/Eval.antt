-- ===== src/Executor/Eval.antt =====
-- src/include/executor/expression_evaluator.h: the value of an expression at a row; `none` where the
-- source throws or reads beyond a column.
use chicken_db.Base.{
  ℕ, Bool, true, false, not, ◌&&◌, ◌||◌, Option, none, some, List, [], ◌∷◌, ltb, if◌then◌else◌,
  get_elem?,
}
use chicken_db.Base.Eq.{nat_eq, ◌==◌}
use chicken_db.Base.Dict.{lookup}
use chicken_db.Binder.Numbers.{Numbers, truth, nonzero}
use chicken_db.Binder.Expression.{
  Value, BinaryOpExpressionType, and_op, or_op, gt_op, gte_op, lt_op, lte_op, add_op, sub_op,
  mul_op, dri_op, eq_op, ne_op, like_op, not_like_op, ilike_op, in_op, UnaryOpType, is_null,
  non_null, BoundExpression, constant, column, binary, unary, monostate, int_value, char_value,
  string_value, float_value, double_value, int64_value,
}
use chicken_db.Executor.Chunk.{
  numbers, doubles, varchars, varchars2, Vector, is_var, get_string, Chunk, ColMap,
}
use chicken_db.Executor.Like.{like}

abbrev pub string_same : List ℕ → List ℕ → Bool
string_same [] [] = true
string_same (a ∷ s) (b ∷ t) = a == b && string_same s t
string_same _ _ = false

-- `<` of two strings: byte by byte, a prefix first.
abbrev pub string_lt : List ℕ → List ℕ → Bool
string_lt s [] = false
string_lt [] (b ∷ t) = true
string_lt (a ∷ s) (b ∷ t) = ltb a b || a == b && string_lt s t

abbrev pub compare_strings : BinaryOpExpressionType → List ℕ → List ℕ → Option Bool
compare_strings eq_op l r = some (string_same l r)
compare_strings ne_op l r = some (not (string_same l r))
compare_strings gt_op l r = some (string_lt r l)
compare_strings gte_op l r = some (not (string_lt l r))
compare_strings lt_op l r = some (string_lt l r)
compare_strings lte_op l r = some (not (string_lt r l))
compare_strings like_op l r = like l r false
compare_strings not_like_op l r = elim (like l r false) [ none ↦ none | some b ↦ some (not b) ]
compare_strings ilike_op l r = like l r true
compare_strings _ l r = none

-- The comparison of two operands, where both are strings.
abbrev pub compare_read :
    (N : Numbers) → BinaryOpExpressionType → Option (List ℕ) → Option (List ℕ) → Option (N.Double)
compare_read N op none r = none
compare_read N op (some l) none = none
compare_read N op (some l) (some r) = elim (compare_strings op l r) [
  | none ↦ none
  | some b ↦ some (truth N b)
]

-- The operators that look for strings among their operands.
abbrev pub may_compare_strings : BinaryOpExpressionType → Bool
may_compare_strings and_op = false
may_compare_strings or_op = false
may_compare_strings add_op = false
may_compare_strings sub_op = false
may_compare_strings mul_op = false
may_compare_strings dri_op = false
may_compare_strings in_op = false
may_compare_strings _ = true

abbrev pub eval_numbers :
    (N : Numbers) → BinaryOpExpressionType → N.Double → N.Double → Option (N.Double)
eval_numbers N and_op l r = some (truth N (nonzero N l && nonzero N r))
eval_numbers N or_op l r = some (truth N (nonzero N l || nonzero N r))
eval_numbers N gt_op l r = some (truth N (N.gt l r))
eval_numbers N gte_op l r = some (truth N (N.gte l r))
eval_numbers N lt_op l r = some (truth N (N.lt l r))
eval_numbers N lte_op l r = some (truth N (N.lte l r))
eval_numbers N eq_op l r = some (truth N (N.same l r))
eval_numbers N ne_op l r = some (truth N (not (N.same l r)))
eval_numbers N add_op l r = some (N.add l r)
eval_numbers N sub_op l r = some (N.sub l r)
eval_numbers N mul_op l r = some (N.mul l r)
eval_numbers N dri_op l r = some (N.div l r)
eval_numbers N _ l r = none

abbrev pub both_numbers :
    (N : Numbers)
    → BinaryOpExpressionType
    → Option (N.Double)
    → Option (N.Double)
    → Option (N.Double)
both_numbers N op none r = none
both_numbers N op (some l) none = none
both_numbers N op (some l) (some r) = eval_numbers N op l r

module _ {N : Numbers} where
  abbrev pub const_to_double : Value N → Option (N.Double)
  const_to_double monostate = none
  const_to_double (int_value n) = some (N.of_int n)
  const_to_double (char_value n) = some (N.of_int n)
  const_to_double (string_value s) = none
  const_to_double (float_value f) = some (N.widen f)
  const_to_double (double_value d) = some d
  const_to_double (int64_value n) = some (N.of_int n)

  abbrev pub column_value_to_double : Vector N → ℕ → Option (N.Double)
  column_value_to_double v row = elim v.cells [
    | numbers ns ↦ elim (get_elem? ns row) [ none ↦ none | some n ↦ some (N.of_int n) ]
    | doubles ds ↦ get_elem? ds row
    | varchars _ ↦ none
    | varchars2 _ ↦ none
  ]

  -- `chunk.GetColumn(col_map.find(id)->second)`.
  abbrev pub find_column : ℕ → Chunk N → ColMap → Option (Vector N)
  find_column id chunk cols = elim (lookup id cols) [ none ↦ none | some i ↦ get_elem? chunk i ]

  abbrev pub is_string_operand : BoundExpression N → Chunk N → ColMap → Bool
  is_string_operand (constant (string_value s)) chunk cols = true
  is_string_operand (constant v) chunk cols = false
  is_string_operand (column t c) chunk cols = elim (find_column c chunk cols) [
    | none ↦ false
    | some v ↦ is_var v
  ]
  is_string_operand (binary op l r) chunk cols = false
  is_string_operand (unary op e) chunk cols = false

  abbrev pub eval_string : BoundExpression N → Chunk N → ℕ → ColMap → Option (List ℕ)
  eval_string (constant (string_value s)) chunk row cols = some s
  eval_string (constant v) chunk row cols = none
  eval_string (column t c) chunk row cols = elim (find_column c chunk cols) [
    | none ↦ none
    | some v ↦ get_string v row
  ]
  eval_string (binary op l r) chunk row cols = none
  eval_string (unary op e) chunk row cols = none

  abbrev pub eval_string_comparison :
      BinaryOpExpressionType
      → BoundExpression N
      → BoundExpression N
      → Chunk N
      → ℕ
      → ColMap
      → Option (N.Double)
  eval_string_comparison op left right chunk row cols =
      compare_read N op (eval_string left chunk row cols) (eval_string right chunk row cols)

  abbrev pub eval_unary : UnaryOpType → BoundExpression N → Chunk N → ℕ → ColMap → Option (N.Double)
  eval_unary op (constant v) chunk row cols = none
  eval_unary op (binary o l r) chunk row cols = none
  eval_unary op (unary o e) chunk row cols = none
  eval_unary op (column t c) chunk row cols = elim (find_column c chunk cols) [
    | none ↦ none
    | some v ↦ elim (get_elem? v.validity row) [
      | none ↦ none
      | some valid ↦ elim op [
        | is_null ↦ some (truth N (not valid))
        | non_null ↦ some (truth N valid)
      ]
    ]
  ]

  unfoldable pub eval : BoundExpression N → Chunk N → ℕ → ColMap → Option (N.Double)
  eval (constant v) chunk row cols = const_to_double v
  eval (column t c) chunk row cols = elim (find_column c chunk cols) [
    | none ↦ none
    | some v ↦ column_value_to_double v row
  ]
  eval (unary op e) chunk row cols = eval_unary op e chunk row cols
  eval (binary op left right) chunk row cols =
      let l = eval left chunk row cols in
      let r = eval right chunk row cols in
      if may_compare_strings op
        && (is_string_operand left chunk cols || is_string_operand right chunk cols)
      then eval_string_comparison op left right chunk row cols
      else both_numbers N op l r

  unfoldable pub eval_predicate : BoundExpression N → Chunk N → ℕ → ColMap → Option Bool
  unfolding eval
  eval_predicate e chunk row cols = elim (eval e chunk row cols) [
    | none ↦ none
    | some v ↦ some (nonzero N v)
  ]
