-- ===== src/Executor/Join/Rows.antt =====
-- The rows that the pairs of a join stand for, whatever the order of the two sides.
use chicken_db.Base.{
  ℕ, suc, ◌+◌, ◌≡◌, refl, sym, ap, ◌∙◌, inl, inr, Bool, some, List, [], ◌∷◌, ◌++◌, map,
  append_assoc, arith, if◌then◌else◌, Bool-cases, get_elem?,
}
use chicken_db.Base.Shuffle.{
  Shuffle, done, keep, swap, chain, Shuffle-left, Shuffle-right, Shuffle-append, Shuffle-eq,
  Shuffle-comm,
}
use chicken_db.Executor.Join.Pairs.{scan, by_left}

map-append : {A B : Type 0} (f : A → B) (xs ys : List A) → map f (xs ++ ys) ≡ map f xs ++ map f ys
map-append f [] ys = refl
map-append f (x ∷ xs) ys = ap (λ zs. f x ∷ zs) (map-append f xs ys)

module _ {A B C : Type 0} (matches : A → B → Bool) (emit : A → B → C) where
  abbrev pub row_joined : A → List B → List C
  row_joined x [] = []
  row_joined x (y ∷ ys) =
      let rest = row_joined x ys in if matches x y then emit x y ∷ rest else rest

  -- Every row of the left with every row of the right that it matches.
  abbrev pub joined : List A → List B → List C
  joined [] ys = []
  joined (x ∷ xs) ys = row_joined x ys ++ joined xs ys

  scan-rows :
      (f : ℕ × ℕ → C) (x : A) (i j : ℕ) (ys : List B)
      → ((b : ℕ) (y : B) → get_elem? ys b ≡ some y → f (i, j + b) ≡ emit x y)
      → map f (scan matches x i j ys) ≡ row_joined x ys
  scan-rows f x i j [] h = refl
  scan-rows f x i j (y ∷ ys) h =
      let rest = scan-rows f x i (j + 1) ys (λ b z e.
        ap (λ k. f (i, k)) {x = j + 1 + b} {y = j + suc b} (omega arith) ∙ h (suc b) z e) in
      let here : f (i, j) ≡ emit x y =
        ap (λ k. f (i, k)) {x = j} {y = j + 0} (omega arith) ∙ h 0 y refl in
      elim (Bool-cases (matches x y)) [
        | inl e ↦ rw (scan, row_joined, e) (λ k. here k ∷ rest k)
        | inr e ↦ rw (scan, row_joined, e) rest
      ]

  pub by_left-rows :
      (f : ℕ × ℕ → C) (i : ℕ) (xs : List A) (j : ℕ) (ys : List B)
      → ((a : ℕ) (x : A) (b : ℕ) (y : B)
          → get_elem? xs a ≡ some x
          → get_elem? ys b ≡ some y
          → f (i + a, j + b) ≡ emit x y)
      → map f (by_left matches i xs j ys) ≡ joined xs ys
  by_left-rows f i [] j ys h = refl
  by_left-rows f i (x ∷ xs) j ys h =
      map-append f (scan matches x i j ys) (by_left matches (i + 1) xs j ys)
      ∙ ap (λ zs. zs ++ map f (by_left matches (i + 1) xs j ys))
          (scan-rows f x i j ys
            (λ b y e. ap (λ k. f (k, j + b)) {x = i} {y = i + 0} (omega arith) ∙ h 0 x b y refl e))
      ∙ ap (λ zs. row_joined x ys ++ zs)
          (by_left-rows f (i + 1) xs j ys (λ a z b y d e.
            ap (λ k. f (k, j + b)) {x = i + 1 + a} {y = i + suc a} (omega arith)
            ∙ h (suc a) z b y d e))

  abbrev one_joined : A → B → List C → List C
  one_joined x y rest = if matches x y then emit x y ∷ rest else rest

  one_joined-keep :
      (x : A) (y : B) (s t : List C) → Shuffle s t → Shuffle (one_joined x y s) (one_joined x y t)
  one_joined-keep x y s t h = elim (Bool-cases (matches x y)) [
    | inl e ↦ rw (one_joined, e) (keep (emit x y) h)
    | inr e ↦ rw (one_joined, e) h
  ]

  one_joined-swap :
      (x : A) (y z : B) (s : List C)
      → Shuffle (one_joined x y (one_joined x z s)) (one_joined x z (one_joined x y s))
  one_joined-swap x y z s = elim (Bool-cases (matches x y)) [
    | inl e ↦ elim (Bool-cases (matches x z)) [
      | inl f ↦ rw (one_joined, e, f) (swap (emit x y) (emit x z) s)
      | inr f ↦ rw (one_joined, e, f) (done (emit x y ∷ s))
    ]
    | inr e ↦ elim (Bool-cases (matches x z)) [
      | inl f ↦ rw (one_joined, e, f) (done (emit x z ∷ s))
      | inr f ↦ rw (one_joined, e, f) (done s)
    ]
  ]

  row_joined-Shuffle :
      (x : A) {ys zs : List B} → Shuffle ys zs → Shuffle (row_joined x ys) (row_joined x zs)
  row_joined-Shuffle x (done ys) = done (row_joined x ys)
  row_joined-Shuffle x (keep y {xs = ys} {ys = zs} h) =
      one_joined-keep x y (row_joined x ys) (row_joined x zs) (row_joined-Shuffle x h)
  row_joined-Shuffle x (swap y z ys) = one_joined-swap x y z (row_joined x ys)
  row_joined-Shuffle x (chain h k) = chain (row_joined-Shuffle x h) (row_joined-Shuffle x k)

  joined-right :
      (xs : List A) {ys zs : List B} → Shuffle ys zs → Shuffle (joined xs ys) (joined xs zs)
  joined-right [] h = done []
  joined-right (x ∷ xs) h = Shuffle-append (row_joined-Shuffle x h) (joined-right xs h)

  joined-left :
      {xs zs : List A} (ys : List B) → Shuffle xs zs → Shuffle (joined xs ys) (joined zs ys)
  joined-left ys (done xs) = done (joined xs ys)
  joined-left ys (keep x h) = Shuffle-left (row_joined x ys) (joined-left ys h)
  joined-left ys (swap x z xs) =
      let a = row_joined x ys in
      let b = row_joined z ys in
      let c = joined xs ys in
      chain (Shuffle-eq (sym (append_assoc a b c)))
        (chain (Shuffle-right c (Shuffle-comm a b)) (Shuffle-eq (append_assoc b a c)))
  joined-left ys (chain h k) = chain (joined-left ys h) (joined-left ys k)

  pub joined-Shuffle :
      {xs xs' : List A} {ys ys' : List B}
      → Shuffle xs xs'
      → Shuffle ys ys'
      → Shuffle (joined xs ys) (joined xs' ys')
  joined-Shuffle {xs' = xs'} {ys = ys} h k = chain (joined-left ys h) (joined-right xs' k)
