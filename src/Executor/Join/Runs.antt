-- ===== src/Executor/Join/Runs.antt =====
-- Runs of equal keys among sorted rows (src/planner/physical/physical_join_operator.cpp).
use chicken_db.Base.{
  ℕ, zero, suc, ◌≤◌, ◌≡◌, refl, sym, ◌∙◌, subst, inl, inr, Bool, true, false, List, [], ◌∷◌, arith,
  if◌then◌else◌, Bool-cases, All, length, drop, take,
}
use chicken_db.Base.Order.{HasOrder, lt, lt_asym}
use chicken_db.Executor.Sort.StdSort.{InOrder}
use chicken_db.Executor.Join.Blocks.{KeyOrder, key_before, key_same, key_after, is_same, run}

pub All-weaken :
    {A : Type 0} {P Q : A → Type 0} (xs : List A) → ((x : A) → P x → Q x) → All P xs → All Q xs
All-weaken [] h a = tt
All-weaken (x ∷ xs) h a = (h x a.0, All-weaken xs h a.1)

pub InOrder-drop :
    {A : Type 0} (less : A → A → Bool) (n : ℕ) (xs : List A)
    → InOrder less xs
    → InOrder less (drop n xs)
InOrder-drop less zero xs a = a
InOrder-drop less (suc n) [] a = tt
InOrder-drop less (suc n) (x ∷ xs) a = InOrder-drop less n xs a.1

pub run-bound : {A : Type 0} (p : A → Bool) (xs : List A) → run p xs ≤ length xs
run-bound p [] = omega arith
run-bound p (x ∷ xs) = ground (arith, run-bound p xs)

pub run-positive :
    {A : Type 0} (p : A → Bool) (x : A) (xs : List A) → p x ≡ true → 1 ≤ run p (x ∷ xs)
run-positive p x xs h = rw (run, h) (omega arith)

module _ {K : Type 0} ⦃order : HasOrder K⦄ where
  -- `key_cmp` on keys.
  abbrev pub key_order : K → K → KeyOrder
  key_order a b = if lt a b then key_before else if lt b a then key_after else key_same

  pub same_keys : (a b : K) → is_same (key_order a b) ≡ true → a ≡ b
  same_keys a b h = ground (arith, h, order.before_total a b)

  pub same_key : (a b : K) → a ≡ b → is_same (key_order a b) ≡ true
  same_key a b e =
      subst (λ c. is_same (key_order a c) ≡ true) e (ground (arith, order.before_irrefl a))

  pub below : (a b : K) → lt a b ≡ true → is_same (key_order a b) ≡ false
  below a b h = rw h refl

  pub above : (a b : K) → lt b a ≡ true → is_same (key_order a b) ≡ false
  above a b h = ground (arith, h, lt_asym b a h)

  pub lt_le_trans : (a b c : K) → lt a b ≡ true → lt c b ≡ false → lt a c ≡ true
  lt_le_trans a b c h k = elim (Bool-cases (lt a c)) [
    | inl e ↦ e
    | inr e ↦ elim (Bool-cases (lt c a)) [
      | inl f ↦ ground (arith, k, order.before_trans c a b f h)
      | inr f ↦ ground (arith, k, subst (λ z. lt z b ≡ true) (order.before_total a c e f) h)
    ]
  ]

  pub lt_other : (a b : K) → lt b a ≡ false → is_same (key_order b a) ≡ false → lt a b ≡ true
  lt_other a b h k = ground (arith, h, k)

  pub before_at : (a b : K) → lt a b ≡ true → key_order a b ≡ key_before
  before_at a b h = rw h refl

  pub after_at : (a b : K) → lt a b ≡ false → lt b a ≡ true → key_order a b ≡ key_after
  after_at a b h k = rw (h, k) refl

  pub same_at : (a b : K) → lt a b ≡ false → lt b a ≡ false → key_order a b ≡ key_same
  same_at a b h k = rw (h, k) refl

  pub is_same-flip : (a b : K) → is_same (key_order a b) ≡ is_same (key_order b a)
  is_same-flip a b = ground (arith, lt_asym a b)

  -- A run among sorted rows, none of which is below the key.
  module _ {C : Type 0} (key : C → K) (p : C → Bool) (k : K)
      (test : (z : C) → p z ≡ is_same (key_order (key z) k)) where
    pub run-same : (xs : List C) → All (λ z. key z ≡ k) (take (run p xs) xs)
    run-same [] = tt
    run-same (x ∷ xs) = elim (Bool-cases (p x)) [
      | inl e ↦ rw (run, e) (same_keys (key x) k (sym (test x) ∙ e), run-same xs)
      | inr e ↦ rw (run, e) tt
    ]

    pub run-later :
        (xs : List C)
        → InOrder (λ a b. lt (key a) (key b)) xs
        → All (λ z. lt (key z) k ≡ false) xs
        → All (λ z. lt k (key z) ≡ true) (drop (run p xs) xs)
    run-later [] o a = tt
    run-later (x ∷ xs) o a = elim (Bool-cases (p x)) [
      | inl e ↦ rw (run, e) (run-later xs o.1 a.1)
      | inr e ↦
          let first = lt_other k (key x) a.0 (sym (test x) ∙ e) in
          rw (run, e) (first, All-weaken xs (λ z h. lt_le_trans k (key x) (key z) first h) o.0)
    ]
