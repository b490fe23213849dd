-- ===== src/Executor/Join/Blocks.antt =====
-- The merge of two sorted sides in PhysicalMergeJoin
-- (src/planner/physical/physical_join_operator.cpp), on any rows that a three-way test compares.
use chicken_db.Base.{
  ℕ, zero, suc, ◌+◌, ◌≡◌, refl, sym, ap, ◌∙◌, inl, inr, Bool, true, false, List, [], ◌∷◌, ◌++◌,
  append-nil, append_assoc, arith, if◌then◌else◌, Bool-cases, All, length, drop,
}
use chicken_db.Executor.Join.Pairs.{scan, by_left, partners}

-- What `key_cmp` returns: -1, 0 or 1.
pub data KeyOrder : Type 0 where
  key_before key_same key_after : KeyOrder

abbrev pub is_same : KeyOrder → Bool
is_same key_before = false
is_same key_same = true
is_same key_after = false

-- How many rows there are before the first that fails the test: `je - j` and `ie - i`.
abbrev pub run : {A : Type 0} → (A → Bool) → List A → ℕ
run p [] = 0
run p (x ∷ xs) = let later = run p xs in if p x then suc later else 0

-- The pairs of one left row with `m` right rows, and those of `n` left rows.
abbrev pub row_pairs : ℕ → ℕ → ℕ → List (ℕ × ℕ)
row_pairs i j zero = []
row_pairs i j (suc m) = (i, j) ∷ row_pairs i (j + 1) m

abbrev pub block_pairs : ℕ → ℕ → ℕ → ℕ → List (ℕ × ℕ)
block_pairs i zero j m = []
block_pairs i (suc n) j m = row_pairs i j m ++ block_pairs (i + 1) n j m

module _ {A B : Type 0} (cmp : A → B → KeyOrder) where
  -- The loop, on what is left of both sides from `i` and `j` on; each turn takes a row at least.
  abbrev pub merge : ℕ → ℕ → List A → ℕ → List B → List (ℕ × ℕ)
  merge zero i xs j ys = []
  merge (suc fuel) i [] j ys = []
  merge (suc fuel) i (x ∷ xs) j [] = []
  merge (suc fuel) i (x ∷ xs) j (y ∷ ys) = elim (cmp x y) [
    | key_before ↦ merge fuel (i + 1) xs j (y ∷ ys)
    | key_after ↦ merge fuel i (x ∷ xs) (j + 1) ys
    | key_same ↦
        let m = run (λ z. is_same (cmp x z)) (y ∷ ys) in
        let n = run (λ z. is_same (cmp z y)) (x ∷ xs) in
        block_pairs i n j m ++ merge fuel (i + n) (drop n (x ∷ xs)) (j + m) (drop m (y ∷ ys))
  ]

  abbrev pub same_rows : A → B → Bool
  same_rows x y = is_same (cmp x y)

  pub merge-before :
      (fuel i : ℕ) (x : A) (xs : List A) (j : ℕ) (y : B) (ys : List B)
      → cmp x y ≡ key_before
      → merge (suc fuel) i (x ∷ xs) j (y ∷ ys) ≡ merge fuel (i + 1) xs j (y ∷ ys)
  merge-before fuel i x xs j y ys e = rw (merge, e) refl

  pub merge-after :
      (fuel i : ℕ) (x : A) (xs : List A) (j : ℕ) (y : B) (ys : List B)
      → cmp x y ≡ key_after
      → merge (suc fuel) i (x ∷ xs) j (y ∷ ys) ≡ merge fuel i (x ∷ xs) (j + 1) ys
  merge-after fuel i x xs j y ys e = rw (merge, e) refl

  abbrev pub right_run : A → List B → ℕ
  right_run x ys = run (λ z. is_same (cmp x z)) ys

  abbrev pub left_run : B → List A → ℕ
  left_run y xs = run (λ z. is_same (cmp z y)) xs

  pub merge-same :
      (fuel i : ℕ) (x : A) (xs : List A) (j : ℕ) (y : B) (ys : List B)
      → cmp x y ≡ key_same
      → merge (suc fuel) i (x ∷ xs) j (y ∷ ys)
        ≡ block_pairs i (left_run y (x ∷ xs)) j (right_run x (y ∷ ys))
          ++ merge fuel
              (i + left_run y (x ∷ xs))
              (drop (left_run y (x ∷ xs)) (x ∷ xs))
              (j + right_run x (y ∷ ys))
              (drop (right_run x (y ∷ ys)) (y ∷ ys))
  merge-same fuel i x xs j y ys e = turn (cmp x y) e
    where
      turn :
          (c : KeyOrder)
          → c ≡ key_same
          → (elim c [
            | key_before ↦ merge fuel (i + 1) xs j (y ∷ ys)
            | key_after ↦ merge fuel i (x ∷ xs) (j + 1) ys
            | key_same ↦
                block_pairs i (left_run y (x ∷ xs)) j (right_run x (y ∷ ys))
                ++ merge fuel
                    (i + left_run y (x ∷ xs))
                    (drop (left_run y (x ∷ xs)) (x ∷ xs))
                    (j + right_run x (y ∷ ys))
                    (drop (right_run x (y ∷ ys)) (y ∷ ys))
          ])
            ≡ block_pairs i (left_run y (x ∷ xs)) j (right_run x (y ∷ ys))
              ++ merge fuel
                  (i + left_run y (x ∷ xs))
                  (drop (left_run y (x ∷ xs)) (x ∷ xs))
                  (j + right_run x (y ∷ ys))
                  (drop (right_run x (y ∷ ys)) (y ∷ ys))
      turn c h = rw h refl

  pub scan-none :
      (x : A) (i j : ℕ) (ys : List B)
      → All (λ y. same_rows x y ≡ false) ys
      → scan same_rows x i j ys ≡ []
  scan-none x i j [] a = refl
  scan-none x i j (y ∷ ys) a = rw (scan, a.0) (scan-none x i (j + 1) ys a.1)

  scan-All :
      (x : A) (i j : ℕ) (ys : List B)
      → All (λ y. same_rows x y ≡ true) ys
      → scan same_rows x i j ys ≡ row_pairs i j (length ys)
  scan-All x i j [] a = refl
  scan-All x i j (y ∷ ys) a = rw (scan, a.0) (ap (λ ps. (i, j) ∷ ps) (scan-All x i (j + 1) ys a.1))

  pub partners-none :
      (y : B) (i : ℕ) (xs : List A)
      → All (λ x. same_rows x y ≡ false) xs
      → partners same_rows y i xs ≡ []
  partners-none y i [] a = refl
  partners-none y i (x ∷ xs) a = rw (partners, a.0) (partners-none y (i + 1) xs a.1)

  scan-append :
      (x : A) (i j : ℕ) (ys zs : List B)
      → scan same_rows x i j (ys ++ zs)
        ≡ scan same_rows x i j ys ++ scan same_rows x i (j + length ys) zs
  scan-append x i j [] zs = ap (λ k. scan same_rows x i k zs) (omega arith)
  scan-append x i j (y ∷ ys) zs =
      let rest =
        scan-append x i (j + 1) ys zs
        ∙ ap (λ k. scan same_rows x i (j + 1) ys ++ scan same_rows x i k zs) {x = j + 1 + length ys}
            {y = j + suc (length ys)} (omega arith) in
      elim (Bool-cases (same_rows x y)) [
        | inl e ↦ rw (scan, e) (ap (λ ps. (i, j) ∷ ps) rest)
        | inr e ↦ rw (scan, e) rest
      ]

  by_left-append :
      (i : ℕ) (xs zs : List A) (j : ℕ) (ys : List B)
      → by_left same_rows i (xs ++ zs) j ys
        ≡ by_left same_rows i xs j ys ++ by_left same_rows (i + length xs) zs j ys
  by_left-append i [] zs j ys = ap (λ k. by_left same_rows k zs j ys) (omega arith)
  by_left-append i (x ∷ xs) zs j ys =
      ap (λ ps. scan same_rows x i j ys ++ ps)
        (by_left-append (i + 1) xs zs j ys
          ∙ ap (λ k. by_left same_rows (i + 1) xs j ys ++ by_left same_rows k zs j ys)
              {x = i + 1 + length xs} {y = i + suc (length xs)} (omega arith))
      ∙ sym (
          append_assoc (scan same_rows x i j ys) (by_left same_rows (i + 1) xs j ys)
            (by_left same_rows (i + suc (length xs)) zs j ys))

  -- Left rows that match all of the first right rows and none of the others.
  by_left-block :
      (i : ℕ) (xs : List A) (j : ℕ) (ys zs : List B)
      → All (λ x. All (λ y. same_rows x y ≡ true) ys) xs
      → All (λ x. All (λ y. same_rows x y ≡ false) zs) xs
      → by_left same_rows i xs j (ys ++ zs) ≡ block_pairs i (length xs) j (length ys)
  by_left-block i [] j ys zs a b = refl
  by_left-block i (x ∷ xs) j ys zs a b =
      ap (λ ps. ps ++ by_left same_rows (i + 1) xs j (ys ++ zs))
        (scan-append x i j ys zs
          ∙ ap (λ ps. scan same_rows x i j ys ++ ps) (scan-none x i (j + length ys) zs b.0)
          ∙ append-nil (scan same_rows x i j ys)
          ∙ scan-All x i j ys a.0)
      ∙ ap (λ ps. row_pairs i j (length ys) ++ ps) (by_left-block (i + 1) xs j ys zs a.1 b.1)

  -- Left rows that match none of the first right rows.
  by_left-skip :
      (i : ℕ) (xs : List A) (j : ℕ) (ys zs : List B)
      → All (λ x. All (λ y. same_rows x y ≡ false) ys) xs
      → by_left same_rows i xs j (ys ++ zs) ≡ by_left same_rows i xs (j + length ys) zs
  by_left-skip i [] j ys zs a = refl
  by_left-skip i (x ∷ xs) j ys zs a =
      ap (λ ps. ps ++ by_left same_rows (i + 1) xs j (ys ++ zs))
        (scan-append x i j ys zs
          ∙ ap (λ ps. ps ++ scan same_rows x i (j + length ys) zs) (scan-none x i j ys a.0))
      ∙ ap (λ ps. scan same_rows x i (j + length ys) zs ++ ps) (by_left-skip (i + 1) xs j ys zs a.1)

  -- One turn of the loop at equal keys.
  pub by_left-turn :
      (i : ℕ) (xs xs' : List A) (j : ℕ) (ys ys' : List B)
      → All (λ x. All (λ y. same_rows x y ≡ true) ys) xs
      → All (λ x. All (λ y. same_rows x y ≡ false) ys') xs
      → All (λ x. All (λ y. same_rows x y ≡ false) ys) xs'
      → by_left same_rows i (xs ++ xs') j (ys ++ ys')
        ≡ block_pairs i (length xs) j (length ys)
          ++ by_left same_rows (i + length xs) xs' (j + length ys) ys'
  by_left-turn i xs xs' j ys ys' a b c =
      by_left-append i xs xs' j (ys ++ ys')
      ∙ ap (λ ps. ps ++ by_left same_rows (i + length xs) xs' j (ys ++ ys'))
          (by_left-block i xs j ys ys' a b)
      ∙ ap (λ ps. block_pairs i (length xs) j (length ys) ++ ps)
          (by_left-skip (i + length xs) xs' j ys ys' c)
