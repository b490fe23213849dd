-- ===== src/Executor/Sort/Columns.antt =====
-- Which columns `Materialize` of src/planner/physical/physical_sort_operator.cpp sorts by.
use chicken_db.Base.{
  ℕ, suc, ◌+◌, ◌≡◌, refl, sym, ◌∙◌, subst, inl, inr, some, List, [], ◌∷◌, arith, Bool-cases,
  Option-cases, get_elem?,
}
use chicken_db.Base.Eq.{◌==◌, nat_eq}
use chicken_db.Executor.Sort.{Doubles, last_index, resolve}

-- The places, one by one, of columns with the ids.
abbrev pub Named : List ℕ → List ℕ → List ℕ → Type 0
Named ids [] [] = Unit
Named ids (id ∷ cols) (i ∷ is) = (get_elem? ids i ≡ some id) × Named ids cols is
Named ids _ _ = ⊥

module _ (N : Doubles) where
  last_index-get_elem? :
      (id n : ℕ) (ids : List ℕ) (j : ℕ)
      → last_index N id n ids ≡ some j
      → (k : ℕ) × (j ≡ n + k) × (get_elem? ids k ≡ some id)
  last_index-get_elem? id n [] j h = ground (arith, h)
  last_index-get_elem? id n (x ∷ ids) j h = elim (Option-cases (last_index N id (n + 1) ids)) [
    | inl e ↦ elim (Bool-cases (x == id)) [
      | inl same ↦ (0, ground (arith, h, e, same), ground (arith, same))
      | inr other ↦ ground (arith, h, e, other)
    ]
    | inr (i, e) ↦
        let (k, at, found) = last_index-get_elem? id (n + 1) ids i e in
        (suc k, ground (arith, h, e, at), found)
  ]

  pub resolve-Named : (ids cols is : List ℕ) → resolve N ids cols ≡ some is → Named ids cols is
  unfolding resolve
  resolve-Named ids [] [] h = tt
  resolve-Named ids [] (i ∷ is) h = ground (arith, h)
  resolve-Named ids (id ∷ cols) is h = elim (Option-cases (last_index N id 0 ids)) [
    | inl e ↦ ground (arith, resolve, h, e)
    | inr (i, e) ↦ elim (Option-cases (resolve N ids cols)) [
      | inl f ↦ ground (arith, resolve, h, e, f)
      | inr (rest, f) ↦
          let (k, at, found) = last_index-get_elem? id 0 ids i e in
          let place : k ≡ i = omega (arith, at) in
          let ends : some (i ∷ rest) ≡ some is = sym (rw (resolve, e, f) refl) ∙ h in
          let same : i ∷ rest ≡ is = ground (arith, ends) in
          subst (Named ids (id ∷ cols)) same
            (subst (λ n. get_elem? ids n ≡ some id) place found, resolve-Named ids cols rest f)
    ]
  ]
