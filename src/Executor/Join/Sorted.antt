-- ===== src/Executor/Join/Sorted.antt =====
-- The orders of PhysicalMergeJoin (src/planner/physical/physical_join_operator.cpp) as the order of
-- the key values.
use chicken_db.Base.{
  ℕ, ◌≡◌, refl, sym, subst, inl, inr, Bool, true, false, List, [], ◌∷◌, arith, Bool-cases, All,
  length,
}
use chicken_db.Base.Order.{HasOrder, lt, lt_asym, lex_lt, list_order}
use chicken_db.Executor.Sort.StdSort.{Sorter, InOrder, WeakOrder}
use chicken_db.Executor.Join.{JoinDoubles, DRow, key_vals, at}
use chicken_db.Executor.Join.Runs.{key_order}
use chicken_db.Executor.Join.MergeJoin.{less_by, key_cmp, lt_double}

module _ {A K : Type 0} ⦃order : HasOrder K⦄ (key : A → K) where
  no_more : (x y z : K) → lt y x ≡ false → lt z y ≡ false → lt z x ≡ false
  no_more x y z h k = elim (Bool-cases (lt z x)) [
    | inl e ↦ elim (Bool-cases (lt x y)) [
      | inl f ↦ ground (arith, k, order.before_trans z x y e f)
      | inr f ↦ ground (arith, k, subst (λ c. lt z c ≡ true) (order.before_total x y f h) e)
    ]
    | inr e ↦ e
  ]

  key-WeakOrder : WeakOrder (λ (x : A). Unit) (λ a b. lt (key a) (key b))
  key-WeakOrder = record {
    less_asym = λ x y p q h. lt_asym (key x) (key y) h;
    less_trans = λ x y z p q r h k. order.before_trans (key x) (key y) (key z) h k;
    more_trans = λ x y z p q r h k. no_more (key x) (key y) (key z) h k;
  }

  All-unit : (xs : List A) → All {0, 0} (λ x. Unit) xs
  All-unit [] = tt
  All-unit (x ∷ xs) = (tt, All-unit xs)

  pub sort-InOrder :
      (sorter : Sorter A) (less : A → A → Bool) (xs : List A)
      → less ≡ (λ a b. lt (key a) (key b))
      → InOrder (λ a b. lt (key a) (key b)) (sorter.sort less xs)
  sort-InOrder sorter less xs e =
      subst (λ f. InOrder f (sorter.sort less xs)) e
        (sorter.sort_InOrder (λ x. Unit) less xs
          (subst (WeakOrder (λ (x : A). Unit)) (sym e) key-WeakOrder) (All-unit xs))

module _ (N : JoinDoubles) where
  abbrev pub vals_order : HasOrder (List (N.doubles.Double))
  vals_order = list_order ⦃order = N.doubles.order⦄

  abbrev vals_lt : List (N.doubles.Double) → List (N.doubles.Double) → Bool
  vals_lt = lex_lt ⦃order = N.doubles.order⦄

  pub less_by-key_vals :
      (key_idx : List ℕ) (a b : DRow N)
      → less_by N key_idx a b ≡ vals_lt (key_vals N a key_idx) (key_vals N b key_idx)
  less_by-key_vals [] a b = refl
  less_by-key_vals (i ∷ key_idx) a b = ground (arith, less_by-key_vals key_idx a b)

  pub key_cmp-key_order :
      (a b : DRow N) (ak bk : List ℕ)
      → length ak ≡ length bk
      → key_cmp N a ak b bk ≡ key_order ⦃order = vals_order⦄ (key_vals N a ak) (key_vals N b bk)
  key_cmp-key_order a b [] [] h = refl
  key_cmp-key_order a b [] (j ∷ bk) h = absurd (omega (arith, h))
  key_cmp-key_order a b (i ∷ ak) [] h = absurd (omega (arith, h))
  key_cmp-key_order a b (i ∷ ak) (j ∷ bk) h =
      let rest = key_cmp-key_order a b ak bk (omega (arith, h)) in
      let x = at N a i in
      let y = at N b j in
      elim (Bool-cases (lt_double N x y)) [
        | inl e ↦ rw (key_cmp, key_order, e) refl
        | inr e ↦ elim (Bool-cases (lt_double N y x)) [
          | inl f ↦ rw (key_cmp, key_order, e, f) refl
          | inr f ↦ rw (key_cmp, key_order, e, f) rest
        ]
      ]
