-- ===== src/Executor/Sort/Insertion.antt =====
-- An insertion sort in the place of std::sort, for concrete runs of the operators of
-- src/planner/physical.
use chicken_db.Base.{
  ℕ, zero, suc, ◌≡◌, inl, inr, Bool, false, List, [], ◌∷◌, if◌then◌else◌, Bool-cases, All, drop,
  take,
}
use chicken_db.Base.Shuffle.{Shuffle, done, keep, swap, chain, Shuffle-All, Shuffle-flip}
use chicken_db.Executor.Sort.StdSort.{Sorter, InOrder, NotAfter, WeakOrder}

module _ {A : Type 0} (before : A → A → Bool) where
  pub insert : A → List A → List A
  insert x [] = x ∷ []
  insert x (y ∷ ys) = let later = insert x ys in if before y x then y ∷ later else x ∷ y ∷ ys

  pub insertion_sort : List A → List A
  insertion_sort [] = []
  insertion_sort (x ∷ xs) = insert x (insertion_sort xs)

  pub insert-Shuffle : (x : A) (ys : List A) → Shuffle (insert x ys) (x ∷ ys)
  unfolding insert
  insert-Shuffle x [] = done (x ∷ [])
  insert-Shuffle x (y ∷ ys) = elim (Bool-cases (before y x)) [
    | inl l ↦ rw (insert, l) (chain (keep y (insert-Shuffle x ys)) (swap y x ys))
    | inr l ↦ rw (insert, l) (done (x ∷ y ∷ ys))
  ]

  pub insertion_sort-Shuffle : (xs : List A) → Shuffle (insertion_sort xs) xs
  unfolding insertion_sort
  insertion_sort-Shuffle [] = done []
  insertion_sort-Shuffle (x ∷ xs) =
      chain (insert-Shuffle x (insertion_sort xs)) (keep x (insertion_sort-Shuffle xs))

  module _ (P : A → Type 0) (weak : WeakOrder P before) where
    later_rows :
        (x y : A) (ys : List A)
        → P x
        → P y
        → All P ys
        → before y x ≡ false
        → All (λ z. before z y ≡ false) ys
        → All (λ z. before z x ≡ false) ys
    later_rows x y [] p q a h b = tt
    later_rows x y (z ∷ ys) p q a h b =
        (weak.more_trans x y z p q a.0 h b.0, later_rows x y ys p q a.1 h b.1)

    insert-InOrder :
        (x : A) (ys : List A) → P x → All P ys → InOrder before ys → InOrder before (insert x ys)
    unfolding insert
    insert-InOrder x [] p a o = (tt, tt)
    insert-InOrder x (y ∷ ys) p a o = elim (Bool-cases (before y x)) [
      | inl l ↦
          rw (insert, l)
            (
              Shuffle-All (λ z. before z y ≡ false) (Shuffle-flip (insert-Shuffle x ys))
                  (weak.less_asym y x a.0 p l, o.0),
              insert-InOrder x ys p a.1 o.1,
            )
      | inr l ↦ rw (insert, l) ((l, later_rows x y ys p a.0 a.1 l o.0), o)
    ]

    pub insertion_sort-InOrder : (xs : List A) → All P xs → InOrder before (insertion_sort xs)
    unfolding insertion_sort
    insertion_sort-InOrder [] a = tt
    insertion_sort-InOrder (x ∷ xs) a =
        insert-InOrder x (insertion_sort xs) a.0
          (Shuffle-All P (Shuffle-flip (insertion_sort-Shuffle xs)) a.1)
          (insertion_sort-InOrder xs a.1)

  All-take-drop :
      (Q : A → Type 0) (n : ℕ) (xs : List A) → All Q xs → All Q (take n xs) × All Q (drop n xs)
  All-take-drop Q zero xs a = (tt, a)
  All-take-drop Q (suc n) [] a = (tt, tt)
  All-take-drop Q (suc n) (x ∷ xs) a =
      let rest = All-take-drop Q n xs a.1 in ((a.0, rest.0), rest.1)

  pub InOrder-take :
      (n : ℕ) (xs : List A)
      → InOrder before xs
      → InOrder before (take n xs) × NotAfter before (take n xs) (drop n xs)
  InOrder-take zero xs o = (tt, tt)
  InOrder-take (suc n) [] o = (tt, tt)
  InOrder-take (suc n) (x ∷ xs) o =
      let rest = InOrder-take n xs o.1 in
      let parts = All-take-drop (λ y. before y x ≡ false) n xs o.0 in
      ((parts.0, rest.0), (parts.1, rest.1))

abbrev pub insertion_sorter : (A : Type 0) → Sorter A
insertion_sorter A = record {
  sort = λ before xs. insertion_sort before xs;
  sort_perm = λ before xs. insertion_sort-Shuffle before xs;
  sort_InOrder = λ P before xs weak a. insertion_sort-InOrder before P weak xs a;
  partial_sort = λ n before xs. insertion_sort before xs;
  partial_sort_perm = λ n before xs. insertion_sort-Shuffle before xs;
  partial_sort_InOrder = λ P n before xs weak a.
      InOrder-take before n (insertion_sort before xs) (insertion_sort-InOrder before P weak xs a);
}
