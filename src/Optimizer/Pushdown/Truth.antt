-- ===== src/Optimizer/Pushdown/Truth.antt =====
-- When a row makes a condition true: what src/include/executor/expression_evaluator.h says of it.
use chicken_db.Base.{
  ℕ, suc, ◌+◌, ◌≡◌, refl, sym, ap, ◌∙◌, ◌⊎◌, inl, inr, Bool, true, false, not, ◌&&◌, Option, none,
  some, List, [], ◌∷◌, arith, Bool-cases, get_elem?,
}
use chicken_db.Binder.Expression.{
  and_op, int_value, int64_value, double_value, float_value, is_null, non_null, UnaryOpType,
  string_value, Value, unary, BoundExpression, constant, column, binary,
}
use chicken_db.Executor.Eval.{
  eval_predicate, column_value_to_double, eval_unary, find_column, eval, eval_string,
  eval_string_comparison, is_string_operand,
}
use chicken_db.Optimizer.Pushdown.Rows.{truth_at, chunk_of, Row, Engine, column_ids, places}
use chicken_db.Optimizer.Folding.Meaning.{eval-fold_expr}
use chicken_db.Optimizer.Folding.{is_constant_true, fold_expr}
use chicken_db.Optimizer.Conjuncts.Meaning.{both, eval_predicate-and}
use chicken_db.Base.Dict.{lookup}
use chicken_db.Executor.Chunk.{is_var, get_string, Chunk, ColMap}
use chicken_db.Binder.Numbers.{nonzero, truth, Numbers}
use chicken_db.Base.Eq.{◌==◌, nat_eq, ==_iff, contains, contains-append}
use chicken_db.Base.Int.{int_eq}

-- Two chunks that have the same vector for each column of the expression.
module _ {N : Numbers} (chunk other : Chunk N) (row : ℕ) (cols : ColMap) where
  Agree : BoundExpression N → Type 0
  Agree e =
      (c : ℕ)
      → contains c (column_ids e) ≡ true
      → find_column c chunk cols ≡ find_column c other cols

  Alike : BoundExpression N → Type 0
  Alike e =
      (eval e chunk row cols ≡ eval e other row cols)
      × ((is_string_operand e chunk cols ≡ is_string_operand e other cols)
          × (eval_string e chunk row cols ≡ eval_string e other row cols))

  constant-Alike : (v : Value N) → Alike (constant v)
  unfolding Alike eval
  constant-Alike (string_value s) = (refl, (refl, refl))
  constant-Alike _ = (refl, (refl, refl))

  column-Alike :
      (t c : ℕ) → find_column c chunk cols ≡ find_column c other cols → Alike (column t c)
  unfolding Alike eval
  column-Alike t c h = (
    ap (λ o. elim o [ none ↦ none | some v ↦ column_value_to_double v row ]) h,
    (
      ap (λ o. elim o [ none ↦ false | some v ↦ is_var v ]) h,
      ap (λ o. elim o [ none ↦ none | some v ↦ get_string v row ]) h,
    ),
  )

  unary-Agree :
      (op : UnaryOpType) (e : BoundExpression N)
      → Agree e
      → eval_unary op e chunk row cols ≡ eval_unary op e other row cols
  unfolding Agree column_ids
  unary-Agree op (column t c) h =
      ap
        (λ o. elim o [
          | none ↦ none
          | some v ↦ elim (get_elem? v.validity row) [
            | none ↦ none
            | some valid ↦ elim op [
              | is_null ↦ some (truth N (not valid))
              | non_null ↦ some (truth N valid)
            ]
          ]
        ])
        (h c (ground (arith, ==_iff c c)))
  unary-Agree op _ h = refl

  Agree-Alike : (e : BoundExpression N) → Agree e → Alike e
  unfolding Agree Alike eval column_ids
  Agree-Alike (constant v) h = constant-Alike v
  Agree-Alike (column t c) h = column-Alike t c (h c (ground (arith, ==_iff c c)))
  Agree-Alike (unary op e) h = (unary-Agree op e h, (refl, refl))
  Agree-Alike (binary op l r) h =
      let a =
        Agree-Alike l
          (λ c k. h c (contains-append c (column_ids l) (column_ids r) ∙ ground (arith, k))) in
      let b =
        Agree-Alike r
          (λ c k. h c (contains-append c (column_ids l) (column_ids r) ∙ ground (arith, k))) in
      (rw (eval, eval_string_comparison, a.0, a.1.0, a.1.1, b.0, b.1.0, b.1.1) refl, (refl, refl))

  eval_predicate-Agree :
      (e : BoundExpression N)
      → Agree e
      → eval_predicate e chunk row cols ≡ eval_predicate e other row cols
  unfolding Alike eval_predicate
  eval_predicate-Agree e h =
      ap (λ o. elim o [ none ↦ none | some v ↦ some (nonzero N v) ]) (Agree-Alike e h).0

-- Where the column of a row is, if it is one of the chunk.
place :
    {N : Numbers} (i : ℕ) (ids : List ℕ) (c : ℕ)
    → (lookup c (places i ids) ≡ none)
      ⊎ ((k : ℕ) × ((lookup c (places i ids) ≡ some (i + k))
            × ((x : Row N) → get_elem? (chunk_of ids x) k ≡ some (x c))))
unfolding lookup
place i [] c = inl refl
place {N = N} i (d ∷ ids) c = elim (Bool-cases (d == c)) [
  | inl e ↦
      inr
        (0, (rw (lookup, e) (ap some (omega arith)), λ x. ap (λ j. some (x j)) ((==_iff d c).0 e)))
  | inr e ↦ elim (place {N = N} (suc i) ids c) [
    | inl h ↦ inl (rw (lookup, e) h)
    | inr (k, (h, g)) ↦ inr (suc k, (rw (lookup, e) (h ∙ ap some (omega arith)), g))
  ]
]

chunk_of-agree :
    {N : Numbers} (ids : List ℕ) (x y : Row N) (c : ℕ)
    → x c ≡ y c
    → find_column c (chunk_of ids x) (places 0 ids) ≡ find_column c (chunk_of ids y) (places 0 ids)
chunk_of-agree {N = N} ids x y c h = elim (place {N = N} 0 ids c) [
  | inl e ↦ rw (find_column, e) refl
  | inr (k, (e, g)) ↦
      let there : lookup c (places 0 ids) ≡ some k = e ∙ ap some (omega arith) in
      rw (find_column, there) (g x ∙ (ap some h ∙ sym (g y)))
]

abbrev succeeds : Option Bool → Bool
succeeds o = elim o [ none ↦ false | some b ↦ b ]

succeeds-both : (a b : Option Bool) → succeeds (both a b) ≡ (succeeds a && succeeds b)
succeeds-both none b = refl
succeeds-both (some a) none = ground arith
succeeds-both (some a) (some b) = refl

module _ {N : Numbers} (E : Engine N) where
  -- No condition looks at a column that it does not name.
  pub truth-agree :
      (e : BoundExpression N) (x y : Row N)
      → ((c : ℕ) → contains c (column_ids e) ≡ true → x c ≡ y c)
      → truth_at E e x ≡ truth_at E e y
  unfolding Agree
  truth-agree e x y h =
      ap (λ o. succeeds o)
        (eval_predicate-Agree (chunk_of E.columns x) (chunk_of E.columns y) 0 (places 0 E.columns) e
          (λ c k. chunk_of-agree E.columns x y c (h c k)))

  pub truth-and :
      (l r : BoundExpression N) (x : Row N)
      → truth_at E (binary and_op l r) x ≡ (truth_at E l x && truth_at E r x)
  truth-and l r x =
      let chunk = chunk_of E.columns x in
      let cols = places 0 E.columns in
      ap (λ o. succeeds o) (eval_predicate-and E.laws chunk 0 cols l r)
      ∙ succeeds-both (eval_predicate l chunk 0 cols) (eval_predicate r chunk 0 cols)

  pub truth-fold_expr :
      (e : BoundExpression N) (x : Row N) → truth_at E (fold_expr N e) x ≡ truth_at E e x
  unfolding eval_predicate
  truth-fold_expr e x =
      ap (λ o. succeeds (elim o [ none ↦ none | some v ↦ some (nonzero N v) ]))
        (eval-fold_expr N e (chunk_of E.columns x) 0 (places 0 E.columns))

  -- A condition that the optimizer finds true is true.
  pub truth-constant :
      (e : BoundExpression N) (x : Row N) → is_constant_true N e ≡ true → truth_at E e x ≡ true
  unfolding is_constant_true eval_predicate eval
  truth-constant (constant (int_value n)) x h = E.laws.of_int_nonzero n ∙ h
  truth-constant (constant (int64_value n)) x h = E.laws.of_int_nonzero n ∙ h
  truth-constant (constant (double_value d)) x h = h
  truth-constant (constant (float_value f)) x h = E.laws.widen_nonzero f ∙ h
  truth-constant _ x h = absurd (ground (arith, h))
