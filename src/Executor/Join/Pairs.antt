-- ===== src/Executor/Join/Pairs.antt =====
-- The matches of the joins of src/planner/physical/physical_join_operator.cpp as lists of pairs.
use chicken_db.Base.{
  ℕ, ◌+◌, ◌≡◌, refl, sym, ap, inl, inr, Bool, List, [], ◌∷◌, ◌++◌, map, append_assoc, if◌then◌else◌,
  Bool-cases,
}
use chicken_db.Base.Shuffle.{
  Shuffle, done, chain, Shuffle-left, Shuffle-right, Shuffle-eq, Shuffle-comm,
}

-- Any test of a row on the left against a row on the right.
module _ {A B : Type 0} (matches : A → B → Bool) where
  -- The rows of the left, from `l` on, that match a row of the right.
  abbrev pub partners : B → ℕ → List A → List ℕ
  partners y l [] = []
  partners y l (x ∷ xs) = let rest = partners y (l + 1) xs in if matches x y then l ∷ rest else rest

  abbrev pub scan : A → ℕ → ℕ → List B → List (ℕ × ℕ)
  scan x l r [] = []
  scan x l r (y ∷ ys) =
      let rest = scan x l (r + 1) ys in if matches x y then (l, r) ∷ rest else rest

  -- Left rows outside.
  abbrev pub by_left : ℕ → List A → ℕ → List B → List (ℕ × ℕ)
  by_left l [] r ys = []
  by_left l (x ∷ xs) r ys = scan x l r ys ++ by_left (l + 1) xs r ys

  -- Right rows outside.
  abbrev pub by_right : ℕ → List A → ℕ → List B → List (ℕ × ℕ)
  by_right l xs r [] = []
  by_right l xs r (y ∷ ys) = map (λ b. (b, r)) (partners y l xs) ++ by_right l xs (r + 1) ys

  pub no_right : (l : ℕ) (xs : List A) (r : ℕ) → by_left l xs r [] ≡ []
  no_right l [] r = refl
  no_right l (x ∷ xs) r = no_right (l + 1) xs r

  four_parts :
      {C : Type 0} (a b c d : List C) → Shuffle ((a ++ b) ++ (c ++ d)) ((a ++ c) ++ (b ++ d))
  four_parts a b c d = chain (Shuffle-eq (append_assoc a b (c ++ d))) (
      chain
        (Shuffle-left a (
          chain (Shuffle-eq (sym (append_assoc b c d)))
            (chain (Shuffle-right d (Shuffle-comm b c)) (Shuffle-eq (append_assoc c b d)))))
        (Shuffle-eq (sym (append_assoc a c (b ++ d)))))

  abbrev first_match : A → ℕ → ℕ → B → List (ℕ × ℕ)
  first_match x l r y = if matches x y then (l, r) ∷ [] else []

  scan-first :
      (x : A) (l r : ℕ) (y : B) (ys : List B)
      → scan x l r (y ∷ ys) ≡ first_match x l r y ++ scan x l (r + 1) ys
  scan-first x l r y ys = elim (Bool-cases (matches x y)) [
    | inl e ↦ rw (scan, e) refl
    | inr e ↦ rw (scan, e) refl
  ]

  partners-first :
      (x : A) (xs : List A) (l r : ℕ) (y : B)
      → map (λ b. (b, r)) (partners y l (x ∷ xs))
        ≡ first_match x l r y ++ map (λ b. (b, r)) (partners y (l + 1) xs)
  partners-first x xs l r y = elim (Bool-cases (matches x y)) [
    | inl e ↦ rw (partners, e) refl
    | inr e ↦ rw (partners, e) refl
  ]

  -- The first row of the right by itself.
  pub one_right :
      (l : ℕ) (xs : List A) (r : ℕ) (y : B) (ys : List B)
      → Shuffle
          (map (λ b. (b, r)) (partners y l xs) ++ by_left l xs (r + 1) ys)
          (by_left l xs r (y ∷ ys))
  one_right l [] r y ys = done []
  one_right l (x ∷ xs) r y ys =
      let first = first_match x l r y in
      let rest = map (λ b. (b, r)) (partners y (l + 1) xs) in
      let here = scan x l (r + 1) ys in
      let later = by_left (l + 1) xs (r + 1) ys in
      chain (Shuffle-eq (ap (λ ps. ps ++ (here ++ later)) (partners-first x xs l r y))) (
        chain (four_parts first rest here later) (
          chain (Shuffle-left (first ++ here) (one_right (l + 1) xs r y ys)) (
            Shuffle-eq
              (ap (λ ps. ps ++ by_left (l + 1) xs r (y ∷ ys)) (sym (scan-first x l r y ys))))))

  pub by_right-Shuffle :
      (l : ℕ) (xs : List A) (r : ℕ) (ys : List B) → Shuffle (by_right l xs r ys) (by_left l xs r ys)
  by_right-Shuffle l xs r [] = Shuffle-eq (sym (no_right l xs r))
  by_right-Shuffle l xs r (y ∷ ys) =
      chain (Shuffle-left (map (λ b. (b, r)) (partners y l xs)) (by_right-Shuffle l xs (r + 1) ys))
        (one_right l xs r y ys)
