-- ===== src/Executor/Like/Sound.antt =====
-- Each turn of the loop of src/include/executor/like_matcher.h against the meaning of LIKE: a later
-- answer of yes is an answer of yes now.
use chicken_db.Base.{
  ℕ, zero, suc, ◌≡◌, sym, subst, ◌⊎◌, inl, inr, Bool, true, ◌||◌, none, some, List, [], ◌∷◌, arith,
  Bool-cases, tail,
}
use chicken_db.Executor.Like.{Step, halts, goes, run, percent, underscore, char_eq, only_percent}
use chicken_db.Executor.Like.Views.{View, view_step, retry}
use chicken_db.Executor.Like.Fuel.{Star, at}
use chicken_db.Executor.Like.Matches.{Matches, done, any, same, skip, more}
use chicken_db.Base.Eq.{nat_eq, ◌==◌, ==_iff}

-- What is left matches, or the text matches if the last '%' takes more of it.
abbrev pub Later : Bool → Star → Type 0
Later ci none = ⊥
Later ci (some s) = Matches ci (tail (s.0)) (percent ∷ s.1)

abbrev pub Answer : Bool → View → Type 0
Answer ci v = Matches ci v.text v.pattern ⊎ Later ci v.star

-- That a step tells no lies: the answer that is given, or what is to be answered next, holds now.
abbrev Honest : Bool → View → Step View → Type 0
Honest ci v (halts b) = b ≡ true → Answer ci v
Honest ci v (goes v') = Answer ci v' → Answer ci v

pub Matches-tail :
    (ci : Bool) (t p : List ℕ) → Matches ci (tail t) (percent ∷ p) → Matches ci t (percent ∷ p)
Matches-tail ci [] p h = h
Matches-tail ci (c ∷ t) p h = more h

only_percent-Matches : (ci : Bool) (p : List ℕ) → only_percent p ≡ true → Matches ci [] p
only_percent-Matches ci [] h = done
only_percent-Matches ci (a ∷ p) h = elim (Bool-cases (a == percent)) [
  | inl e ↦
      subst (λ x. Matches ci [] (x ∷ p)) (sym ((==_iff a percent).0 e))
        (skip (only_percent-Matches ci p (ground (arith, h, e))))
  | inr e ↦ absurd (ground (arith, h, e))
]

retry-Honest : (ci : Bool) (v : View) → Honest ci v (retry v)
retry-Honest ci v =
    elim v.star
      as (λ star. Honest ci (at v.text v.pattern star) (retry (at v.text v.pattern star))) [
        | none ↦ λ h. absurd (ground (arith, h))
        | some s ↦ λ h. elim h [
          | inl now ↦ inr (skip now)
          | inr later ↦ inr (Matches-tail ci (tail (s.0)) (s.1) later)
        ]
      ]

Matches-one_char :
    (ci : Bool) (a c : ℕ) (t p : List ℕ)
    → (a == underscore || char_eq ci a c) ≡ true
    → Matches ci t p
    → Matches ci (c ∷ t) (a ∷ p)
Matches-one_char ci a c t p g h = elim (Bool-cases (a == underscore)) [
  | inl e ↦ subst (λ x. Matches ci (c ∷ t) (x ∷ p)) (sym ((==_iff a underscore).0 e)) (any h)
  | inr e ↦ same (ground (arith, g, e)) h
]

step-Honest :
    (ci : Bool) (t p : List ℕ) (star : Star) → Honest ci (at t p star) (view_step ci (at t p star))
unfolding view_step
step-Honest ci [] p star = λ h. inl (only_percent-Matches ci p h)
step-Honest ci (c ∷ t) [] star = retry-Honest ci (at (c ∷ t) [] star)
step-Honest ci (c ∷ t) (a ∷ p) star = elim (Bool-cases (a == underscore || char_eq ci a c)) [
  | inl g ↦
      rw g
        (λ h. elim h [ inl now ↦ inl (Matches-one_char ci a c t p g now) | inr later ↦ inr later ])
  | inr g ↦ elim (Bool-cases (a == percent)) [
    | inl k ↦
        rw (g, k)
          (λ h. inl (
            subst (λ x. Matches ci (c ∷ t) (x ∷ p)) (sym ((==_iff a percent).0 k))
              (elim h [ inl now ↦ skip now | inr later ↦ more later ])))
    | inr k ↦ rw (g, k) (retry-Honest ci (at (c ∷ t) (a ∷ p) star))
  ]
]

pub run_sound : (ci : Bool) (n : ℕ) (v : View) → run (view_step ci) n v ≡ some true → Answer ci v
unfolding run
run_sound ci zero v h = absurd (ground (arith, h))
run_sound ci (suc n) v h =
    (elim (view_step ci v)
        as (λ x.
          Honest ci v x
          → ((elim x [ halts b ↦ some b | goes v' ↦ run (view_step ci) n v' ]) ≡ some true)
          → Answer ci v) [
            | halts b ↦ λ s e. s (ground (arith, e))
            | goes v' ↦ λ s e. s (run_sound ci n v' e)
          ])
      (step-Honest ci v.text v.pattern v.star) h
