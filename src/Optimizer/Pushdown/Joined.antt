-- ===== src/Optimizer/Pushdown/Joined.antt =====
-- Rows of a join that pass a test whose parts look at one side
-- (src/optimizer/rule/predicate_pushdown.cpp).
use chicken_db.Base.{
  ◌≡◌, refl, sym, ap, ◌∙◌, inl, inr, Bool, true, false, ◌&&◌, List, [], ◌∷◌, ◌++◌, Bool-cases,
}
use chicken_db.Executor.Filter.Kept.{where_true, where_true-append}
use chicken_db.Executor.Join.Rows.{joined, row_joined}

pub where_true-all :
    {A : Type 0} (p : A → Bool) (xs : List A) → ((x : A) → p x ≡ true) → where_true p xs ≡ xs
unfolding where_true
where_true-all p [] h = refl
where_true-all p (x ∷ xs) h = rw (h x) (ap (λ ys. x ∷ ys) (where_true-all p xs h))

pub where_true-same :
    {A : Type 0} (p q : A → Bool) (xs : List A)
    → ((x : A) → p x ≡ q x)
    → where_true p xs ≡ where_true q xs
where_true-same p q xs h = ap (λ f. where_true f xs) (λ i x. h x i)

pub where_true-twice :
    {A : Type 0} (p q : A → Bool) (xs : List A)
    → where_true p (where_true q xs) ≡ where_true (λ x. p x && q x) xs
unfolding where_true
where_true-twice p q [] = refl
where_true-twice p q (x ∷ xs) = elim (Bool-cases (q x)) [
  | inl e ↦ elim (Bool-cases (p x)) [
    | inl f ↦ rw (e, f) (ap (λ ys. x ∷ ys) (where_true-twice p q xs))
    | inr f ↦ rw (e, f) (where_true-twice p q xs)
  ]
  | inr e ↦ elim (Bool-cases (p x)) [
    | inl f ↦ rw (e, f) (where_true-twice p q xs)
    | inr f ↦ rw (e, f) (where_true-twice p q xs)
  ]
]

-- A test of joined rows that falls apart into tests of the sides and one above.
module _ {A B C : Type 0} (m : A → B → Bool) (emit : A → B → C) (whole above : C → Bool)
    (left : A → Bool) (right : B → Bool)
    (parts : (x : A) (y : B) → whole (emit x y) ≡ (left x && (right y && above (emit x y)))) where
  row-kept :
      (x : A) (ys : List B)
      → left x ≡ true
      → where_true whole (row_joined m emit x ys)
        ≡ where_true above (row_joined m emit x (where_true right ys))
  unfolding where_true
  row-kept x [] h = refl
  row-kept x (y ∷ ys) h = elim (Bool-cases (m x y)) [
    | inl e ↦ elim (Bool-cases (right y)) [
      | inl f ↦ elim (Bool-cases (above (emit x y))) [
        | inl g ↦
            rw (row_joined, e, f, parts x y, h, f, g, e, g)
              (ap (λ zs. emit x y ∷ zs) (row-kept x ys h))
        | inr g ↦ rw (row_joined, e, f, parts x y, h, f, g, e, g) (row-kept x ys h)
      ]
      | inr f ↦ rw (row_joined, e, f, parts x y, h, f) (row-kept x ys h)
    ]
    | inr e ↦ elim (Bool-cases (right y)) [
      | inl f ↦ rw (row_joined, e, f, e) (row-kept x ys h)
      | inr f ↦ rw (row_joined, e, f) (row-kept x ys h)
    ]
  ]

  row-dropped :
      (x : A) (ys : List B) → left x ≡ false → where_true whole (row_joined m emit x ys) ≡ []
  unfolding where_true
  row-dropped x [] h = refl
  row-dropped x (y ∷ ys) h = elim (Bool-cases (m x y)) [
    | inl e ↦ rw (row_joined, e, parts x y, h) (row-dropped x ys h)
    | inr e ↦ rw (row_joined, e) (row-dropped x ys h)
  ]

  pub joined-kept :
      (xs : List A) (ys : List B)
      → where_true whole (joined m emit xs ys)
        ≡ where_true above (joined m emit (where_true left xs) (where_true right ys))
  unfolding where_true
  joined-kept [] ys = refl
  joined-kept (x ∷ xs) ys =
      where_true-append whole (row_joined m emit x ys) (joined m emit xs ys)
      ∙ elim (Bool-cases (left x)) [
        | inl e ↦ rw e (
            ap (λ zs. zs ++ where_true whole (joined m emit xs ys)) (row-kept x ys e)
            ∙ ap (λ zs. where_true above (row_joined m emit x (where_true right ys)) ++ zs)
                (joined-kept xs ys)
            ∙ sym (
                where_true-append above (row_joined m emit x (where_true right ys))
                  (joined m emit (where_true left xs) (where_true right ys))))
        | inr e ↦ rw e (
            ap (λ zs. zs ++ where_true whole (joined m emit xs ys)) (row-dropped x ys e)
            ∙ joined-kept xs ys)
      ]
