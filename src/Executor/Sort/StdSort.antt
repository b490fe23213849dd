-- ===== src/Executor/Sort/StdSort.antt =====
-- std::sort and std::partial_sort as the operators of
-- src/planner/physical/physical_sort_operator.cpp rely on them: the order of equal rows is theirs.
use chicken_db.Base.{ℕ, ◌≡◌, Bool, true, false, List, [], ◌∷◌, All, drop, take}
use chicken_db.Base.Shuffle.{Shuffle}

module _ {A : Type 0} (less : A → A → Bool) where
  -- Nothing comes before an earlier element.
  abbrev pub InOrder : List A → Type 0
  InOrder [] = Unit
  InOrder (x ∷ xs) = All (λ y. less y x ≡ false) xs × InOrder xs

  -- No element of the second list comes before one of the first.
  abbrev pub NotAfter : List A → List A → Type 0
  NotAfter [] ys = Unit
  NotAfter (x ∷ xs) ys = All (λ y. less y x ≡ false) ys × NotAfter xs ys

-- `less` is a strict weak order of the elements with `P`.
pub record WeakOrder {A : Type 0} (P : A → Type 0) (less : A → A → Bool) : Type 0 where
  pub less_asym : (x y : A) → P x → P y → less x y ≡ true → less y x ≡ false
  pub less_trans :
      (x y z : A) → P x → P y → P z → less x y ≡ true → less y z ≡ true → less x z ≡ true
  pub more_trans :
      (x y z : A) → P x → P y → P z → less y x ≡ false → less z y ≡ false → less z x ≡ false

-- What a sort promises for the comparators that are strict weak orders of what is sorted.
pub record Sorter (A : Type 0) : Type 1 where
  pub sort : (A → A → Bool) → List A → List A
  pub sort_perm : (less : A → A → Bool) (xs : List A) → Shuffle (sort less xs) xs
  pub sort_InOrder :
      (P : A → Type 0) (less : A → A → Bool) (xs : List A)
      → WeakOrder P less
      → All P xs
      → InOrder less (sort less xs)
  pub partial_sort : ℕ → (A → A → Bool) → List A → List A
  pub partial_sort_perm :
      (n : ℕ) (less : A → A → Bool) (xs : List A) → Shuffle (partial_sort n less xs) xs
  pub partial_sort_InOrder :
      (P : A → Type 0) (n : ℕ) (less : A → A → Bool) (xs : List A)
      → WeakOrder P less
      → All P xs
      → InOrder less (take n (partial_sort n less xs))
        × NotAfter less (take n (partial_sort n less xs)) (drop n (partial_sort n less xs))
