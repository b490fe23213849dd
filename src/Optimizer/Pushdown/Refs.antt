-- ===== src/Optimizer/Pushdown/Refs.antt =====
-- The tables that a condition refers to, and at which side of a join it is as true as above it
-- (src/optimizer/rule/predicate_pushdown.cpp).
use chicken_db.Base.{
  ℕ, ◌≡◌, refl, sym, ap, ◌∙◌, subst, inl, inr, true, false, ◌&&◌, List, [], ◌∷◌, arith, Bool-cases,
}
use chicken_db.Base.Eq.{nat_eq, contains, contains-append, ◌==◌, ==_iff}
use chicken_db.Binder.Numbers.{Numbers}
use chicken_db.Binder.Expression.{BoundExpression, constant, column, binary, unary}
use chicken_db.Optimizer.Pushdown.{all_in, collect_table_refs, only_refs, sort_preds}
use chicken_db.Optimizer.Pushdown.Truth.{truth-agree}
use chicken_db.Optimizer.Pushdown.Rows.{
  column_ids, truth_at, Engine, Row, merged, holds, is_plain, none_in, ArePlain,
}

all_in-contains :
    (allowed ts : List ℕ) (t : ℕ)
    → all_in allowed ts ≡ true
    → contains t ts ≡ true
    → contains t allowed ≡ true
all_in-contains allowed [] t h k = ground (arith, k)
all_in-contains allowed (x ∷ ts) t h k = elim (Bool-cases (contains x allowed)) [
  | inl e ↦ elim (Bool-cases (x == t)) [
    | inl f ↦ subst (λ z. contains z allowed ≡ true) ((==_iff x t).0 f) e
    | inr f ↦ all_in-contains allowed ts t (ground (arith, h, e)) (ground (arith, k, f))
  ]
  | inr e ↦ ground (arith, h, e)
]

none_in-contains :
    (others ts : List ℕ) (t : ℕ)
    → none_in others ts ≡ true
    → contains t ts ≡ true
    → contains t others ≡ false
none_in-contains others [] t h k = ground (arith, k)
none_in-contains others (x ∷ ts) t h k = elim (Bool-cases (contains x others)) [
  | inl e ↦ ground (arith, h, e)
  | inr e ↦ elim (Bool-cases (x == t)) [
    | inl f ↦ subst (λ z. contains z others ≡ false) ((==_iff x t).0 f) e
    | inr f ↦ none_in-contains others ts t (ground (arith, h, e)) (ground (arith, k, f))
  ]
]

no_tables :
    (ts : List ℕ) (t : ℕ)
    → (elim ts [ [] ↦ true | x ∷ xs ↦ false ]) ≡ true
    → contains t ts ≡ true
    → ⊥
no_tables [] t p h = ground (arith, h)
no_tables (x ∷ ts) t p h = ground (arith, p)

module _ {N : Numbers} where
  collect_table_refs-kept :
      (e : BoundExpression N) (out : List ℕ) (t : ℕ)
      → contains t out ≡ true
      → contains t (collect_table_refs e out) ≡ true
  unfolding collect_table_refs
  collect_table_refs-kept (constant v) out t h = h
  collect_table_refs-kept (column table col) out t h =
      ground (arith, h, contains-append t out (table ∷ []))
  collect_table_refs-kept (binary op l r) out t h =
      collect_table_refs-kept r (collect_table_refs l out) t (collect_table_refs-kept l out t h)
  collect_table_refs-kept (unary op e) out t h = h

module _ {N : Numbers} (E : Engine N) where
  collect_table_refs-all :
      (e : BoundExpression N) (out : List ℕ) (c : ℕ)
      → is_plain E e ≡ true
      → contains c (column_ids e) ≡ true
      → contains (E.table_of c) (collect_table_refs e out) ≡ true
  unfolding collect_table_refs column_ids
  collect_table_refs-all (constant v) out c p h = ground (arith, h)
  collect_table_refs-all (column table col) out c p h =
      subst (λ t. contains t (collect_table_refs {N = N} (column table col) out) ≡ true)
        (sym ((==_iff (E.table_of col) table).0 p)
          ∙ ap E.table_of ((==_iff col c).0 (ground (arith, h))))
        (ground (arith, contains-append table out (table ∷ []), ==_iff table table))
  collect_table_refs-all (binary op l r) out c p h = elim (Bool-cases (contains c (column_ids l))) [
    | inl e ↦
        collect_table_refs-kept r (collect_table_refs l out) (E.table_of c)
          (collect_table_refs-all l out c (ground (arith, p)) e)
    | inr e ↦
        collect_table_refs-all r (collect_table_refs l out) c (ground (arith, p))
          (ground (arith, h, e, contains-append c (column_ids l) (column_ids r)))
  ]
  collect_table_refs-all (unary op e) out c p h = absurd (no_tables (column_ids e) c p h)

  only_refs-contains :
      (p : BoundExpression N) (allowed : List ℕ) (c : ℕ)
      → is_plain E p ≡ true
      → only_refs p allowed ≡ true
      → contains c (column_ids p) ≡ true
      → contains (E.table_of c) allowed ≡ true
  only_refs-contains p allowed c h k m =
      all_in-contains allowed (collect_table_refs p []) (E.table_of c) k
        (collect_table_refs-all p [] c h m)

  truth-left :
      (p : BoundExpression N) (lts tl : List ℕ) (x y : Row N)
      → is_plain E p ≡ true
      → only_refs p lts ≡ true
      → all_in tl lts ≡ true
      → truth_at E p (merged E tl x y) ≡ truth_at E p x
  truth-left p lts tl x y h k a = truth-agree E p (merged E tl x y) x (λ c f.
      rw (merged, all_in-contains tl lts (E.table_of c) a (only_refs-contains p lts c h k f)) refl)

  truth-right :
      (p : BoundExpression N) (rts tl tr : List ℕ) (x y : Row N)
      → is_plain E p ≡ true
      → only_refs p rts ≡ true
      → all_in tr rts ≡ true
      → none_in tl tr ≡ true
      → truth_at E p (merged E tl x y) ≡ truth_at E p y
  truth-right p rts tl tr x y h k a d = truth-agree E p (merged E tl x y) y (λ c f.
      rw
        (
          merged,
          none_in-contains tl tr (E.table_of c) d
              (all_in-contains tr rts (E.table_of c) a (only_refs-contains p rts c h k f)),
        )
        refl)

  -- The predicates of a join, each where it is tested.
  module _ (lts rts tl tr : List ℕ) (left_in : all_in tl lts ≡ true)
      (right_in : all_in tr rts ≡ true) (apart : none_in tl tr ≡ true) where
    pub holds-sort_preds :
        (preds : List (BoundExpression N)) (x y : Row N)
        → ArePlain E preds
        → holds E preds (merged E tl x y) ≡ (
            holds E (sort_preds lts rts preds).left_preds x
            && (holds E (sort_preds lts rts preds).right_preds y
                && holds E (sort_preds lts rts preds).remain_preds (merged E tl x y)))
    holds-sort_preds [] x y a = refl
    holds-sort_preds (p ∷ preds) x y a =
        let rest = holds-sort_preds preds x y a.1 in
        elim (Bool-cases (only_refs p lts)) [
          | inl e ↦
              rw (sort_preds, holds, e, truth-left p lts tl x y a.0 e left_in, rest) (ground arith)
          | inr e ↦ elim (Bool-cases (only_refs p rts)) [
            | inl f ↦
                rw (sort_preds, holds, e, f, truth-right p rts tl tr x y a.0 f right_in apart, rest)
                  (ground arith)
            | inr f ↦ rw (sort_preds, holds, e, f, rest) (ground arith)
          ]
        ]

    pub sort_preds-ArePlain :
        (preds : List (BoundExpression N))
        → ArePlain E preds
        → ArePlain E (sort_preds lts rts preds).left_preds
          × ArePlain E (sort_preds lts rts preds).right_preds
    sort_preds-ArePlain [] a = (tt, tt)
    sort_preds-ArePlain (p ∷ preds) a =
        let rest = sort_preds-ArePlain preds a.1 in
        elim (Bool-cases (only_refs p lts)) [
          | inl e ↦ rw (sort_preds, e) ((a.0, rest.0), rest.1)
          | inr e ↦ elim (Bool-cases (only_refs p rts)) [
            | inl f ↦ rw (sort_preds, e, f) (rest.0, (a.0, rest.1))
            | inr f ↦ rw (sort_preds, e, f) rest
          ]
        ]
