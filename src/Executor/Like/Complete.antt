-- ===== src/Executor/Like/Complete.antt =====
-- Each turn of the loop of src/include/executor/like_matcher.h against the meaning of LIKE: no match
-- is lost, in texts without '%'.
use chicken_db.Base.{
  ℕ, zero, suc, ◌≡◌, refl, subst, ◌⊎◌, inl, inr, Bool, true, false, ◌||◌, none, some, List, [], ◌∷◌,
  arith, Bool-cases, All, tail,
}
use chicken_db.Base.Eq.{==_iff, nat_eq, ◌==◌}
use chicken_db.Executor.Like.{goes, halts, run, Step, char_eq, underscore, only_percent, percent}
use chicken_db.Executor.Like.Fuel.{Star, at}
use chicken_db.Executor.Like.Views.{View, view_step, retry}
use chicken_db.Executor.Like.Sound.{Answer, Matches-tail}
use chicken_db.Executor.Like.Matches.{Matches, any, same, skip, more}

-- No character of the text is a '%'.
abbrev pub IsPlain : List ℕ → Type 0
IsPlain t = All (λ c. (c == percent) ≡ false) t

-- From the mark and the pattern after the star to what is left, one plain character at a time.
pub data Reach : List ℕ → List ℕ → List ℕ → List ℕ → Type 0 where
  here : {t p : List ℕ} → Reach t p t p
  after :
      {a c : ℕ} {m q t p : List ℕ}
      → (a == percent) ≡ false
      → Reach m q t p
      → Reach (c ∷ m) (a ∷ q) t p

Reach-one :
    {a c : ℕ} {m q t p : List ℕ}
    → (a == percent) ≡ false
    → Reach m q (c ∷ t) (a ∷ p)
    → Reach m q t p
Reach-one e here = after e here
Reach-one e (after f r) = after f (Reach-one e r)

-- A match that starts later goes on without its first character.
drop_first :
    (ci : Bool) (a : ℕ) (t p : List ℕ)
    → (a == percent) ≡ false
    → Matches ci t (a ∷ p)
    → Matches ci (tail t) p
drop_first ci a t p e (any h) = h
drop_first ci a t p e (same f h) = h
drop_first ci a t p e (skip h) = absurd (ground (arith, e))
drop_first ci a t p e (more h) = absurd (ground (arith, e))

drop_first_later :
    (ci : Bool) (a : ℕ) (t p : List ℕ)
    → (a == percent) ≡ false
    → Matches ci t (percent ∷ a ∷ p)
    → Matches ci (tail t) (percent ∷ p)
drop_first_later ci a t p e (same f h) = Matches-tail ci _ p (skip (drop_first ci a _ p e h))
drop_first_later ci a t p e (skip h) = skip (drop_first ci a t p e h)
drop_first_later ci a t p e (more h) = Matches-tail ci _ p (drop_first_later ci a _ p e h)

Reach-Matches :
    (ci : Bool) (m q t p : List ℕ)
    → Reach m q t p
    → Matches ci m (percent ∷ q)
    → Matches ci t (percent ∷ p)
Reach-Matches ci m q t p here h = h
Reach-Matches ci m q t p (after e r) h = Reach-Matches ci _ _ t p r (drop_first_later ci _ m _ e h)

-- In a plain text a '%' stands for no text, or takes a character.
split_percent :
    (ci : Bool) (t p : List ℕ)
    → IsPlain t
    → Matches ci t (percent ∷ p)
    → Matches ci t p ⊎ Matches ci (tail t) (percent ∷ p)
split_percent ci t p plain (same f h) = absurd (ground (arith, f, plain.0))
split_percent ci t p plain (skip h) = inl h
split_percent ci t p plain (more h) = inr h

-- Two '%' are one.
collapse :
    (ci : Bool) (t p : List ℕ)
    → Matches ci t (percent ∷ percent ∷ p)
    → IsPlain t
    → Matches ci t (percent ∷ p)
collapse ci t p (same f h) plain = absurd (ground (arith, f, plain.0))
collapse ci t p (skip h) plain = h
collapse ci t p (more h) plain = more (collapse ci _ p h plain.1)

Matches-only_percent : (ci : Bool) (p : List ℕ) → Matches ci [] p → only_percent p ≡ true
Matches-only_percent ci p Matches.done = refl
Matches-only_percent ci p (skip h) = Matches-only_percent ci _ h

not_empty : (ci : Bool) (c : ℕ) (t : List ℕ) → Matches ci (c ∷ t) [] → ⊥
not_empty ci c t h = elim h [ ]

not_first :
    (ci : Bool) (a c : ℕ) (t p : List ℕ)
    → (a == underscore || char_eq ci a c) ≡ false
    → (a == percent) ≡ false
    → Matches ci (c ∷ t) (a ∷ p)
    → ⊥
not_first ci a c t p g k (any h) = ground (arith, g)
not_first ci a c t p g k (same f h) = ground (arith, g, f)
not_first ci a c t p g k (skip h) = ground (arith, k)
not_first ci a c t p g k (more h) = ground (arith, k)

-- The text and the text at the mark are plain, and the mark leads to what is left.
abbrev pub Good : View → Type 0
Good v =
    IsPlain v.text
    × (elim v.star [ none ↦ Unit | some s ↦ IsPlain (s.0) × Reach (s.0) (s.1) v.text v.pattern ])

abbrev Kept : Bool → Step View → Type 0
Kept ci (halts b) = b ≡ true
Kept ci (goes v) = Good v × Answer ci v

IsPlain-tail : (t : List ℕ) → IsPlain t → IsPlain (tail t)
IsPlain-tail [] h = h
IsPlain-tail (c ∷ t) h = h.1

retry-Kept :
    (ci : Bool) (t p : List ℕ) (star : Star)
    → Good (at t p star)
    → (Matches ci t p → ⊥)
    → Answer ci (at t p star)
    → Kept ci (retry (at t p star))
retry-Kept ci t p star g none_now (inl now) = absurd (none_now now)
retry-Kept ci t p none g none_now (inr later) = absurd later
retry-Kept ci t p (some (m, q)) g none_now (inr later) =
    let plain = IsPlain-tail m g.1.0 in
    ((plain, (plain, here)), split_percent ci (tail m) q plain later)

finish-Kept :
    (ci : Bool) (p : List ℕ) (star : Star)
    → Good (at [] p star)
    → Answer ci (at [] p star)
    → only_percent p ≡ true
finish-Kept ci p star g (inl now) = Matches-only_percent ci p now
finish-Kept ci p none g (inr later) = absurd later
finish-Kept ci p (some (m, q)) g (inr later) =
    Matches-only_percent ci (percent ∷ p)
      (Reach-Matches ci m q [] p g.1.1 (Matches-tail ci m q later))

-- A '%' in the pattern: an older star is not needed any more.
mark-Answer :
    (ci : Bool) (t p : List ℕ) (star : Star)
    → Good (at t (percent ∷ p) star)
    → Answer ci (at t (percent ∷ p) star)
    → Answer ci (at t p (some (t, p)))
mark-Answer ci t p star g (inl now) = split_percent ci t p g.0 now
mark-Answer ci t p none g (inr later) = absurd later
mark-Answer ci t p (some (m, q)) g (inr later) =
    split_percent ci t p g.0
      (collapse ci t p (Reach-Matches ci m q t (percent ∷ p) g.1.1 (Matches-tail ci m q later)) g.0)

advance-Kept :
    (ci : Bool) (a c : ℕ) (t p : List ℕ) (star : Star)
    → (a == percent) ≡ false
    → Good (at (c ∷ t) (a ∷ p) star)
    → Answer ci (at (c ∷ t) (a ∷ p) star)
    → Kept ci (goes (at t p star))
advance-Kept ci a c t p none e g (inl now) = ((g.0.1, tt), inl (drop_first ci a (c ∷ t) p e now))
advance-Kept ci a c t p none e g (inr later) = absurd later
advance-Kept ci a c t p (some (m, q)) e g (inl now) =
    ((g.0.1, (g.1.0, Reach-one e g.1.1)), inl (drop_first ci a (c ∷ t) p e now))
advance-Kept ci a c t p (some (m, q)) e g (inr later) =
    ((g.0.1, (g.1.0, Reach-one e g.1.1)), inr later)

plain_differs :
    (ci : Bool) (a c : ℕ)
    → (c == percent) ≡ false
    → (a == underscore || char_eq ci a c) ≡ true
    → (a == percent) ≡ false
plain_differs ci a c e g = ground (arith, e, g)

step-Kept :
    (ci : Bool) (t p : List ℕ) (star : Star)
    → Good (at t p star)
    → Answer ci (at t p star)
    → Kept ci (view_step ci (at t p star))
unfolding view_step
step-Kept ci [] p star g h = finish-Kept ci p star g h
step-Kept ci (c ∷ t) [] star g h = retry-Kept ci (c ∷ t) [] star g (not_empty ci c t) h
step-Kept ci (c ∷ t) (a ∷ p) star g h = elim (Bool-cases (a == underscore || char_eq ci a c)) [
  | inl e ↦ rw e (advance-Kept ci a c t p star (plain_differs ci a c g.0.0 e) g h)
  | inr e ↦ elim (Bool-cases (a == percent)) [
    | inl k ↦
        let same_char = (==_iff a percent).0 k in
        rw (e, k)
          (
            (g.0, (g.0, here)),
            mark-Answer ci (c ∷ t) p star (subst (λ x. Good (at (c ∷ t) (x ∷ p) star)) same_char g)
                (subst (λ x. Answer ci (at (c ∷ t) (x ∷ p) star)) same_char h),
          )
    | inr k ↦ rw (e, k) (retry-Kept ci (c ∷ t) (a ∷ p) star g (not_first ci a c t p e k) h)
  ]
]

pub run_complete :
    (ci : Bool) (n : ℕ) (v : View) (b : Bool)
    → Good v
    → Answer ci v
    → run (view_step ci) n v ≡ some b
    → b ≡ true
unfolding run
run_complete ci zero v b g h r = absurd (ground (arith, r))
run_complete ci (suc n) v b g h r =
    (elim (view_step ci v)
        as (λ x.
          Kept ci x
          → ((elim x [ halts b' ↦ some b' | goes v' ↦ run (view_step ci) n v' ]) ≡ some b)
          → b ≡ true) [
            | halts b' ↦ λ k e. ground (arith, k, e)
            | goes v' ↦ λ k e. run_complete ci n v' b k.0 k.1 e
          ])
      (step-Kept ci v.text v.pattern v.star g h) r
