-- ===== src/Executor/Like/Fuel.antt =====
-- That the loop of src/include/executor/like_matcher.h ends.
use chicken_db.Base.{
  ℕ, zero, suc, ◌+◌, ◌*◌, ◌≤◌, ◌<◌, ◌≡◌, refl, inl, inr, Bool, true, ◌||◌, Option, none, some, List,
  [], ◌∷◌, arith, Bool-cases, length,
}
use native.Mathlib.Nat.{mul-le-mul_right}
use chicken_db.Executor.Like.{Step, halts, goes, run, percent, underscore, char_eq}
use chicken_db.Executor.Like.Views.{View, view_step, retry}
use chicken_db.Base.Eq.{nat_eq, ◌==◌}

abbrev pub Star : Type 0
Star = Option (List ℕ × List ℕ)

abbrev pub at : List ℕ → List ℕ → Star → View
at t p star = record { text = t; pattern = p; star = star }

-- No list is longer than where it started, and the text at the mark holds the text left.
abbrev pub Fits : ℕ → View → Type 0
Fits m v =
    (length v.pattern ≤ m)
    × (elim v.star [ none ↦ Unit | some s ↦ (length (s.1) ≤ m) × (length v.text ≤ length (s.0)) ])

abbrev anchor : View → List ℕ
anchor v = elim v.star [ none ↦ v.text | some s ↦ s.0 ]

abbrev pub size : ℕ → View → ℕ
size m v = length (anchor v) * (m + 1) + length v.pattern

abbrev Smaller : ℕ → View → Step View → Type 0
Smaller m v (halts b) = Unit
Smaller m v (goes v') = Fits m v' × (size m v' < size m v)

retry-Smaller :
    (m c : ℕ) (t p : List ℕ) (star : Star)
    → Fits m (at (c ∷ t) p star)
    → Smaller m (at (c ∷ t) p star) (retry (at (c ∷ t) p star))
retry-Smaller m c t p none h = tt
retry-Smaller m c t p (some ([], q)) h = ground (arith, h)
retry-Smaller m c t p (some (d ∷ s, q)) h = ground (arith, h)

advance-Smaller :
    (m c a : ℕ) (t p : List ℕ) (star : Star)
    → Fits m (at (c ∷ t) (a ∷ p) star)
    → Smaller m (at (c ∷ t) (a ∷ p) star) (goes (at t p star))
advance-Smaller m c a t p none h = ground (arith, h)
advance-Smaller m c a t p (some s) h = ground (arith, h)

mark-Smaller :
    (m c a : ℕ) (t p : List ℕ) (star : Star)
    → Fits m (at (c ∷ t) (a ∷ p) star)
    → Smaller m (at (c ∷ t) (a ∷ p) star) (goes (at (c ∷ t) p (some (c ∷ t, p))))
mark-Smaller m c a t p none h = ground (arith, h)
mark-Smaller m c a t p (some s) h =
    let below = mul-le-mul_right (m + 1) (h.1.1) in ground (arith, h, below)

step-Smaller :
    (ci : Bool) (m : ℕ) (t p : List ℕ) (star : Star)
    → Fits m (at t p star)
    → Smaller m (at t p star) (view_step ci (at t p star))
unfolding view_step
step-Smaller ci m [] p star h = tt
step-Smaller ci m (c ∷ t) [] star h = retry-Smaller m c t [] star h
step-Smaller ci m (c ∷ t) (a ∷ p) star h = elim (Bool-cases (a == underscore || char_eq ci a c)) [
  | inl g ↦ rw g (advance-Smaller m c a t p star h)
  | inr g ↦ elim (Bool-cases (a == percent)) [
    | inl k ↦ rw (g, k) (mark-Smaller m c a t p star h)
    | inr k ↦ rw (g, k) (retry-Smaller m c t (a ∷ p) star h)
  ]
]

pub run_total :
    (ci : Bool) (m n : ℕ) (v : View)
    → Fits m v
    → size m v < n
    → (b : Bool) × (run (view_step ci) n v ≡ some b)
unfolding run
run_total ci m zero v h k = (true, ground (arith, k))
run_total ci m (suc n) v h k =
    (elim (view_step ci v)
        as (λ x.
          Smaller m v x
          → (b : Bool) × ((elim x [ halts b ↦ some b | goes v' ↦ run (view_step ci) n v' ])
              ≡ some b)) [
                | halts b ↦ λ s. (b, refl)
                | goes v' ↦ λ s. run_total ci m n v' s.0 (omega (arith, s.1, k))
              ])
      (step-Smaller ci m v.text v.pattern v.star h)
