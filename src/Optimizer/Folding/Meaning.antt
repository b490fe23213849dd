-- ===== src/Optimizer/Folding/Meaning.antt =====
-- That constant folding (src/optimizer/rule/constant_folding.cpp) keeps values and failures.
use chicken_db.Base.{
  ℕ, ◌≡◌, refl, ◌∙◌, subst, ◌⊎◌, inl, inr, Bool, true, false, not, Option, none, some, List, arith,
  Bool-cases,
}
use chicken_db.Base.Eq.{nat_eq}
use chicken_db.Base.Int.{int_eq}
use chicken_db.Binder.Numbers.{truth, Numbers, zero_double}
use chicken_db.Binder.Expression.{
  unary, column, int64_value, double_value, float_value, char_value, int_value, BoundExpression,
  Value, BinaryOpExpressionType, and_op, or_op, gt_op, gte_op, lt_op, lte_op, add_op, sub_op,
  mul_op, dri_op, eq_op, ne_op, like_op, not_like_op, ilike_op, in_op, constant, binary,
  string_value,
}
use chicken_db.Executor.Chunk.{Chunk, ColMap}
use chicken_db.Executor.Eval.{
  eval_string_comparison, may_compare_strings, string_same, eval, eval_string, is_string_operand,
  both_numbers,
}
use chicken_db.Optimizer.Folding.{
  fold_expr, fold_pair, fold_constants, to_double, fold_strings, fold_numbers,
  fold_string_comparison, int_truth,
}

module _ (N : Numbers) (chunk : Chunk N) (row : ℕ) (cols : ColMap) where
  abbrev ValueOf : Option (Value N) → Option (N.Double) → Type 0
  ValueOf none d = Unit
  ValueOf (some v) d =
      (eval (constant v) chunk row cols ≡ d)
      × ((is_string_operand (constant v) chunk cols ≡ false)
          × (eval_string (constant v) chunk row cols ≡ none))

  int_truth_value : (b : Bool) → ValueOf (some (int_truth N b)) (some (truth N b))
  unfolding eval
  int_truth_value true = (refl, (refl, refl))
  int_truth_value false = (refl, (refl, refl))

  fold_numbers_value :
      (op : BinaryOpExpressionType) (l r : Option (N.Double))
      → ValueOf (fold_numbers N op l r) (both_numbers N op l r)
  unfolding eval
  fold_numbers_value op none r = tt
  fold_numbers_value op (some l) none = tt
  fold_numbers_value add_op (some l) (some r) = (refl, (refl, refl))
  fold_numbers_value sub_op (some l) (some r) = (refl, (refl, refl))
  fold_numbers_value mul_op (some l) (some r) = (refl, (refl, refl))
  fold_numbers_value dri_op (some l) (some r) = elim (Bool-cases (N.same r (zero_double N))) [
    | inl e ↦ rw (ValueOf, e) tt
    | inr e ↦ rw (ValueOf, e) (refl, (refl, refl))
  ]
  fold_numbers_value eq_op (some l) (some r) = int_truth_value (N.same l r)
  fold_numbers_value ne_op (some l) (some r) = int_truth_value (not (N.same l r))
  fold_numbers_value gt_op (some l) (some r) = int_truth_value (N.gt l r)
  fold_numbers_value gte_op (some l) (some r) = int_truth_value (N.gte l r)
  fold_numbers_value lt_op (some l) (some r) = int_truth_value (N.lt l r)
  fold_numbers_value lte_op (some l) (some r) = int_truth_value (N.lte l r)
  fold_numbers_value and_op (some l) (some r) = tt
  fold_numbers_value or_op (some l) (some r) = tt
  fold_numbers_value like_op (some l) (some r) = tt
  fold_numbers_value not_like_op (some l) (some r) = tt
  fold_numbers_value ilike_op (some l) (some r) = tt
  fold_numbers_value in_op (some l) (some r) = tt

  fold_strings_value :
      (op : BinaryOpExpressionType) (s t : List ℕ)
      → ValueOf
          (fold_string_comparison N op s t)
          (eval (binary op (constant (string_value s)) (constant (string_value t))) chunk row cols)
  unfolding eval
  fold_strings_value eq_op s t = int_truth_value (string_same s t)
  fold_strings_value ne_op s t = int_truth_value (not (string_same s t))
  fold_strings_value _ s t = tt

  fold_strings_case :
      (op : BinaryOpExpressionType) (a b : Value N)
      → ValueOf (fold_strings N op a b) (eval (binary op (constant a) (constant b)) chunk row cols)
  fold_strings_case op (string_value s) (string_value t) = fold_strings_value op s t
  fold_strings_case op (string_value s) _ = tt
  fold_strings_case op _ b = tt

  numeric :
      (a : Value N)
      → (to_double N a ≡ none)
        ⊎ ((to_double N a ≡ eval (constant a) chunk row cols)
            × (is_string_operand (constant a) chunk cols ≡ false))
  unfolding eval
  numeric Value.monostate = inl refl
  numeric (int_value n) = inr (refl, refl)
  numeric (char_value n) = inl refl
  numeric (string_value s) = inl refl
  numeric (float_value f) = inr (refl, refl)
  numeric (double_value d) = inr (refl, refl)
  numeric (int64_value n) = inr (refl, refl)

  fold_numbers-none :
      (op : BinaryOpExpressionType) (l : Option (N.Double)) → fold_numbers N op l none ≡ none
  fold_numbers-none op none = refl
  fold_numbers-none op (some l) = refl

  eval-numbers :
      (op : BinaryOpExpressionType) (l r : BoundExpression N)
      → is_string_operand l chunk cols ≡ false
      → is_string_operand r chunk cols ≡ false
      → eval (binary op l r) chunk row cols
        ≡ both_numbers N op (eval l chunk row cols) (eval r chunk row cols)
  unfolding eval
  eval-numbers op l r p q = elim (Bool-cases (may_compare_strings op)) [
    | inl m ↦ rw (eval, m, p, q) refl
    | inr m ↦ rw (eval, m) refl
  ]

  fold_strings-none :
      (op : BinaryOpExpressionType) (a b : Value N)
      → is_string_operand (constant a) chunk cols ≡ false
      → fold_strings N op a b ≡ none
  fold_strings-none op (string_value s) b h = ground (arith, h)
  fold_strings-none op _ b h = refl

  numbers_first :
      (op : BinaryOpExpressionType) (a b : Value N) (o : Option (Value N)) (d : Option (N.Double))
      → is_string_operand (constant a) chunk cols ≡ false
      → ValueOf o d
      → ValueOf (elim o [ none ↦ fold_strings N op a b | some v ↦ some v ]) d
  numbers_first op a b none d h k = rw (ValueOf, fold_strings-none op a b h) tt
  numbers_first op a b (some v) d h k = k

  fold_constants_value :
      (op : BinaryOpExpressionType) (a b : Value N)
      → ValueOf
          (fold_constants N op a b)
          (eval (binary op (constant a) (constant b)) chunk row cols)
  fold_constants_value op a b = elim (numeric a) [
    | inl p ↦ rw (ValueOf, p) (fold_strings_case op a b)
    | inr p ↦ elim (numeric b) [
      | inl q ↦ rw (ValueOf, q, fold_numbers-none op (to_double N a)) (fold_strings_case op a b)
      | inr q ↦ rw (eval-numbers op (constant a) (constant b) p.1 q.1) (
          numbers_first op a b (fold_numbers N op (to_double N a) (to_double N b))
            (both_numbers N op (eval (constant a) chunk row cols)
              (eval (constant b) chunk row cols))
            p.1
            (subst
              (λ d.
                ValueOf (fold_numbers N op (to_double N a) (to_double N b))
                  (both_numbers N op d (eval (constant b) chunk row cols)))
              p.0
              (subst
                (λ d.
                  ValueOf (fold_numbers N op (to_double N a) (to_double N b))
                    (both_numbers N op (to_double N a) d))
                q.0 (fold_numbers_value op (to_double N a) (to_double N b)))))
    ]
  ]

  -- What stands in the place of an expression: the same value, and the same as an operand.
  Same : BoundExpression N → BoundExpression N → Type 0
  Same e f =
      (eval e chunk row cols ≡ eval f chunk row cols)
      × ((is_string_operand e chunk cols ≡ is_string_operand f chunk cols)
          × (eval_string e chunk row cols ≡ eval_string f chunk row cols))

  fold_pair-Same :
      (op : BinaryOpExpressionType) (l r : BoundExpression N)
      → Same (fold_pair N op l r) (binary op l r)
  unfolding Same
  fold_pair-Same op (constant a) (constant b) =
      (elim (fold_constants N op a b)
          as (λ o.
            ValueOf o (eval (binary op (constant a) (constant b)) chunk row cols)
            → Same (elim o [ none ↦ binary op (constant a) (constant b) | some v ↦ constant v ])
                (binary op (constant a) (constant b))) [
                  | none ↦ λ h. (refl, (refl, refl))
                  | some v ↦ λ h. h
                ])
        (fold_constants_value op a b)
  fold_pair-Same op _ r = (refl, (refl, refl))

  binary-Same :
      (op : BinaryOpExpressionType) (l l' r r' : BoundExpression N)
      → Same l l'
      → Same r r'
      → Same (binary op l r) (binary op l' r')
  unfolding Same eval
  binary-Same op l l' r r' h k =
      (rw (eval, eval_string_comparison, h.0, h.1.0, h.1.1, k.0, k.1.0, k.1.1) refl, (refl, refl))

  fold_expr-Same : (e : BoundExpression N) → Same (fold_expr N e) e
  unfolding fold_expr Same
  fold_expr-Same (constant v) = (refl, (refl, refl))
  fold_expr-Same (column t c) = (refl, (refl, refl))
  fold_expr-Same (unary op e) = (refl, (refl, refl))
  fold_expr-Same (binary op l r) =
      let p = fold_pair-Same op (fold_expr N l) (fold_expr N r) in
      let q =
        binary-Same op (fold_expr N l) l (fold_expr N r) r (fold_expr-Same l) (fold_expr-Same r) in
      (p.0 ∙ q.0, (p.1.0 ∙ q.1.0, p.1.1 ∙ q.1.1))

-- Folding an expression changes neither its value at any row of any chunk nor whether its
-- evaluation fails there.
pub eval-fold_expr :
    (N : Numbers) (e : BoundExpression N) (chunk : Chunk N) (row : ℕ) (cols : ColMap)
    → eval (fold_expr N e) chunk row cols ≡ eval e chunk row cols
unfolding Same
eval-fold_expr N e chunk row cols = (fold_expr-Same N chunk row cols e).0
