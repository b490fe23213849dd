-- ===== src/Executor/Join/Merge.antt =====
-- That the merge of PhysicalMergeJoin (src/planner/physical/physical_join_operator.cpp) finds every
-- match of two sides that are sorted by their keys.
use chicken_db.Base.{
  ℕ, zero, suc, ◌+◌, ◌≤◌, ◌≡◌, refl, sym, ap, ◌∙◌, subst, inl, inr, true, false, List, [], ◌∷◌,
  ◌++◌, map, arith, Bool-cases, length, drop, take, take-drop, length-take, length-drop,
}
use chicken_db.Base.Shuffle.{Shuffle-left, Shuffle, done, chain, Shuffle-eq}
use chicken_db.Executor.Join.Blocks.{
  merge-before, merge-after, merge-same, left_run, right_run, block_pairs, by_left-turn, KeyOrder,
  key_same, is_same, merge, same_rows, scan-none, partners-none,
}
use chicken_db.Base.Order.{HasOrder, lt}
use chicken_db.Executor.Sort.StdSort.{InOrder}
use chicken_db.Executor.Join.Pairs.{by_left, no_right, one_right}
use chicken_db.Executor.Join.Runs.{
  All-weaken, InOrder-drop, above, after_at, before_at, below, is_same-flip, key_order, lt_le_trans,
  run-bound, run-later, run-positive, run-same, same_at, same_key,
}

module _ {A B K : Type 0} ⦃order : HasOrder K⦄ (kl : A → K) (kr : B → K) where
  abbrev pub cmp : A → B → KeyOrder
  cmp x y = key_order (kl x) (kr y)

  abbrev pub LeftSorted : List A → Type 0
  LeftSorted xs = InOrder (λ a b. lt (kl a) (kl b)) xs

  abbrev pub RightSorted : List B → Type 0
  RightSorted ys = InOrder (λ a b. lt (kr a) (kr b)) ys

  abbrev pub Merged : ℕ → Type 0
  Merged fuel =
      (i : ℕ) (xs : List A) (j : ℕ) (ys : List B)
      → length xs + length ys ≤ fuel
      → LeftSorted xs
      → RightSorted ys
      → Shuffle (merge cmp fuel i xs j ys) (by_left (same_rows cmp) i xs j ys)

  -- The left row is below all on the right.
  skip_left :
      (x : A) (xs : List A) (y : B) (ys : List B) (i j : ℕ)
      → lt (kl x) (kr y) ≡ true
      → RightSorted (y ∷ ys)
      → by_left (same_rows cmp) (i + 1) xs j (y ∷ ys)
        ≡ by_left (same_rows cmp) i (x ∷ xs) j (y ∷ ys)
  skip_left x xs y ys i j h o =
      ap (λ ps. ps ++ by_left (same_rows cmp) (i + 1) xs j (y ∷ ys))
        (sym (
          scan-none cmp x i j (y ∷ ys) (
            below (kl x) (kr y) h,
            All-weaken ys (λ z k. below (kl x) (kr z) (lt_le_trans (kl x) (kr y) (kr z) h k)) o.0,
          )))

  -- The right row is below all on the left.
  skip_right :
      (x : A) (xs : List A) (y : B) (ys : List B) (i j : ℕ)
      → lt (kr y) (kl x) ≡ true
      → LeftSorted (x ∷ xs)
      → Shuffle
          (by_left (same_rows cmp) i (x ∷ xs) (j + 1) ys)
          (by_left (same_rows cmp) i (x ∷ xs) j (y ∷ ys))
  skip_right x xs y ys i j h o =
      chain
        (Shuffle-eq (
          ap (λ ps. map (λ b. (b, j)) ps ++ by_left (same_rows cmp) i (x ∷ xs) (j + 1) ys)
            (sym (
              partners-none cmp y i (x ∷ xs) (
                above (kl x) (kr y) h,
                All-weaken xs (λ z k. above (kl z) (kr y) (lt_le_trans (kr y) (kl x) (kl z) h k))
                    o.0,
              )))))
        (one_right (same_rows cmp) i (x ∷ xs) j y ys)

  turn_shorter :
      (x : A) (xs : List A) (y : B) (ys : List B) (fuel : ℕ)
      → cmp x y ≡ key_same
      → length (x ∷ xs) + length (y ∷ ys) ≤ suc fuel
      → length (drop (left_run cmp y (x ∷ xs)) (x ∷ xs))
          + length (drop (right_run cmp x (y ∷ ys)) (y ∷ ys))
        ≤ fuel
  turn_shorter x xs y ys fuel same h =
      let n = left_run cmp y (x ∷ xs) in
      let m = right_run cmp x (y ∷ ys) in
      omega (
        arith,
        h,
        length-drop n (x ∷ xs),
        length-drop m (y ∷ ys),
        run-positive (λ z. is_same (cmp z y)) x xs (ap is_same same),
        run-positive (λ z. is_same (cmp x z)) y ys (ap is_same same),
      )

  -- The equal turn, with both sides cut where their runs end.
  parted_turn :
      (x : A) (xs : List A) (y : B) (ys : List B) (i j : ℕ)
      → lt (kl x) (kr y) ≡ false
      → lt (kr y) (kl x) ≡ false
      → LeftSorted (x ∷ xs)
      → RightSorted (y ∷ ys)
      → by_left
          (same_rows cmp)
          i
          (take (left_run cmp y (x ∷ xs)) (x ∷ xs) ++ drop (left_run cmp y (x ∷ xs)) (x ∷ xs))
          j
          (take (right_run cmp x (y ∷ ys)) (y ∷ ys) ++ drop (right_run cmp x (y ∷ ys)) (y ∷ ys))
        ≡ block_pairs i
            (length (take (left_run cmp y (x ∷ xs)) (x ∷ xs)))
            j
            (length (take (right_run cmp x (y ∷ ys)) (y ∷ ys)))
          ++ by_left
              (same_rows cmp)
              (i + length (take (left_run cmp y (x ∷ xs)) (x ∷ xs)))
              (drop (left_run cmp y (x ∷ xs)) (x ∷ xs))
              (j + length (take (right_run cmp x (y ∷ ys)) (y ∷ ys)))
              (drop (right_run cmp x (y ∷ ys)) (y ∷ ys))
  parted_turn x xs y ys i j e f o p =
      let k = order.before_total (kl x) (kr y) e f in
      let n = left_run cmp y (x ∷ xs) in
      let m = right_run cmp x (y ∷ ys) in
      let left_test = λ (z : A). is_same (cmp z y) in
      let right_test = λ (z : B). is_same (cmp x z) in
      let xs1 = take n (x ∷ xs) in
      let xs2 = drop n (x ∷ xs) in
      let ys1 = take m (y ∷ ys) in
      let ys2 = drop m (y ∷ ys) in
      let left_same = run-same kl left_test (kr y) (λ z. refl) (x ∷ xs) in
      let left_later =
        run-later kl left_test (kr y) (λ z. refl) (x ∷ xs) o
          (e, All-weaken xs (λ z h. subst (λ c. lt (kl z) c ≡ false) k h) o.0) in
      let flipped = λ (z : B). is_same-flip (kl x) (kr z) in
      let right_same = run-same kr right_test (kl x) flipped (y ∷ ys) in
      let right_later =
        run-later kr right_test (kl x) flipped (y ∷ ys) p
          (f, All-weaken ys (λ z h. subst (λ c. lt (kr z) c ≡ false) (sym k) h) p.0) in
      by_left-turn cmp i xs1 xs2 j ys1 ys2
        (All-weaken xs1
          (λ u s. All-weaken ys1 (λ v t. same_key (kl u) (kr v) (s ∙ sym k ∙ sym t)) right_same)
          left_same)
        (All-weaken xs1
          (λ u s.
            All-weaken ys2
              (λ v t. below (kl u) (kr v) (subst (λ c. lt c (kr v) ≡ true) (k ∙ sym s) t))
              right_later)
          left_same)
        (All-weaken xs2
          (λ u s.
            All-weaken ys1
              (λ v t. above (kl u) (kr v) (subst (λ c. lt c (kl u) ≡ true) (sym k ∙ sym t) s))
              right_same)
          left_later)

  equal_turn :
      (x : A) (xs : List A) (y : B) (ys : List B) (i j : ℕ)
      → lt (kl x) (kr y) ≡ false
      → lt (kr y) (kl x) ≡ false
      → LeftSorted (x ∷ xs)
      → RightSorted (y ∷ ys)
      → by_left (same_rows cmp) i (x ∷ xs) j (y ∷ ys)
        ≡ block_pairs i (left_run cmp y (x ∷ xs)) j (right_run cmp x (y ∷ ys))
          ++ by_left
              (same_rows cmp)
              (i + left_run cmp y (x ∷ xs))
              (drop (left_run cmp y (x ∷ xs)) (x ∷ xs))
              (j + right_run cmp x (y ∷ ys))
              (drop (right_run cmp x (y ∷ ys)) (y ∷ ys))
  equal_turn x xs y ys i j e f o p =
      let n = left_run cmp y (x ∷ xs) in
      let m = right_run cmp x (y ∷ ys) in
      let left_test = λ (z : A). is_same (cmp z y) in
      let right_test = λ (z : B). is_same (cmp x z) in
      let xs1 = take n (x ∷ xs) in
      let xs2 = drop n (x ∷ xs) in
      let ys1 = take m (y ∷ ys) in
      let ys2 = drop m (y ∷ ys) in
      let nl = length-take n (x ∷ xs) (run-bound left_test (x ∷ xs)) in
      let ml = length-take m (y ∷ ys) (run-bound right_test (y ∷ ys)) in
      ap (λ zs. by_left (same_rows cmp) i zs j (y ∷ ys)) (sym (take-drop n (x ∷ xs)))
      ∙ ap (λ zs. by_left (same_rows cmp) i (xs1 ++ xs2) j zs) (sym (take-drop m (y ∷ ys)))
      ∙ parted_turn x xs y ys i j e f o p
      ∙ ap
          (λ a.
            block_pairs i a j (length ys1)
            ++ by_left (same_rows cmp) (i + a) xs2 (j + length ys1) ys2)
          nl
      ∙ ap (λ b. block_pairs i n j b ++ by_left (same_rows cmp) (i + n) xs2 (j + b) ys2) ml

  pub merge-Shuffle : (fuel : ℕ) → Merged fuel
  merge-Shuffle zero i [] j ys h o p = done []
  merge-Shuffle zero i (x ∷ xs) j ys h o p = absurd (omega (arith, h))
  merge-Shuffle (suc fuel) i [] j ys h o p = done []
  merge-Shuffle (suc fuel) i (x ∷ xs) j [] h o p =
      Shuffle-eq (sym (no_right (same_rows cmp) i (x ∷ xs) j))
  merge-Shuffle (suc fuel) i (x ∷ xs) j (y ∷ ys) h o p = elim (Bool-cases (lt (kl x) (kr y))) [
    | inl e ↦ chain (Shuffle-eq (merge-before cmp fuel i x xs j y ys (before_at (kl x) (kr y) e))) (
        chain (merge-Shuffle fuel (i + 1) xs j (y ∷ ys) (omega (arith, h)) o.1 p)
          (Shuffle-eq (skip_left x xs y ys i j e p)))
    | inr e ↦ elim (Bool-cases (lt (kr y) (kl x))) [
      | inl f ↦
          chain (Shuffle-eq (merge-after cmp fuel i x xs j y ys (after_at (kl x) (kr y) e f))) (
            chain (merge-Shuffle fuel i (x ∷ xs) (j + 1) ys (omega (arith, h)) o p.1)
              (skip_right x xs y ys i j f o))
      | inr f ↦
          let n = left_run cmp y (x ∷ xs) in
          let m = right_run cmp x (y ∷ ys) in
          let same = same_at (kl x) (kr y) e f in
          let kept =
            merge-Shuffle fuel (i + n) (drop n (x ∷ xs)) (j + m) (drop m (y ∷ ys))
              (turn_shorter x xs y ys fuel same h) (InOrder-drop _ n (x ∷ xs) o)
              (InOrder-drop _ m (y ∷ ys) p) in
          chain (Shuffle-eq (merge-same cmp fuel i x xs j y ys same)) (
            chain (Shuffle-left (block_pairs i n j m) kept)
              (Shuffle-eq (sym (equal_turn x xs y ys i j e f o p))))
    ]
  ]
