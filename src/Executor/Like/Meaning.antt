-- ===== src/Executor/Like/Meaning.antt =====
-- LIKE as a whole (src/include/executor/like_matcher.h).
use chicken_db.Base.{
  ℕ, suc, ◌+◌, ◌*◌, ◌≡◌, refl, sym, ap, ◌∙◌, subst, ◌↔◌, inl, inr, Bool, true, false, none, some,
  List, [], ◌∷◌, arith, length,
}
use chicken_db.Executor.Like.{like, start, step, fuel, percent, run}
use chicken_db.Executor.Like.Views.{view_step, view, step-view, run-map}
use chicken_db.Executor.Like.Fuel.{at, run_total}
use chicken_db.Executor.Like.Sound.{run_sound}
use chicken_db.Executor.Like.Complete.{IsPlain, run_complete}
use chicken_db.Executor.Like.Matches.{more, done, skip, Matches}
use chicken_db.Base.Eq.{nat_eq}

like-view :
    (text pattern : List ℕ) (ci : Bool)
    → like text pattern ci ≡ run (view_step ci) (fuel text pattern) (at text pattern none)
unfolding like
like-view text pattern ci =
    run-map (step ci text pattern) (view_step ci) (view text pattern) (step-view ci text pattern)
      (fuel text pattern) start

like_total : (text pattern : List ℕ) (ci : Bool) → (b : Bool) × (like text pattern ci ≡ some b)
like_total text pattern ci =
    let r =
      run_total ci (length pattern) (fuel text pattern) (at text pattern none) (omega arith, tt)
        (omega arith) in
    (r.0, like-view text pattern ci ∙ r.1)

-- What LIKE accepts, it accepts rightly, whatever the text.
pub like_sound :
    (text pattern : List ℕ) (ci : Bool) → like text pattern ci ≡ some true → Matches ci text pattern
like_sound text pattern ci h =
    elim (run_sound ci (fuel text pattern) (at text pattern none)
      (sym (like-view text pattern ci) ∙ h)) [ inl now ↦ now | inr later ↦ absurd later ]

-- On a text without '%' the matcher ends within its fuel and decides whether the text matches the
-- pattern, with or without regard to case.
pub like_decides :
    (text pattern : List ℕ) (ci : Bool)
    → IsPlain text
    → (b : Bool) × ((like text pattern ci ≡ some b) × ((b ≡ true) ↔ Matches ci text pattern))
like_decides text pattern ci plain =
    let r = like_total text pattern ci in
    (
      r.0,
      (
        r.1,
        (
          (λ e. like_sound text pattern ci (r.1 ∙ ap some e)),
          λ m.
              run_complete ci (fuel text pattern) (at text pattern none) r.0 (plain, tt) (inl m)
                (sym (like-view text pattern ci) ∙ r.1),
        ),
      ),
    )

two_turns :
    (n c : ℕ) (t : List ℕ) (ci : Bool)
    → run (view_step ci) (suc (suc n)) (at (percent ∷ c ∷ t) (percent ∷ []) none) ≡ some false
unfolding run view_step
two_turns n c t true = refl
two_turns n c t false = refl

any_text : (t : List ℕ) (ci : Bool) → Matches ci t (percent ∷ [])
any_text [] ci = skip done
any_text (c ∷ t) ci = more (any_text t ci)

-- A text that begins with '%' and is longer does not match the pattern '%', although '%' matches
-- every text: the matcher takes the two for equal characters and forgets that it met a star.
pub percent_lost :
    (c : ℕ) (t : List ℕ) (ci : Bool)
    → (like (percent ∷ c ∷ t) (percent ∷ []) ci ≡ some false)
      × Matches ci (percent ∷ c ∷ t) (percent ∷ [])
percent_lost c t ci = (
  like-view (percent ∷ c ∷ t) (percent ∷ []) ci
      ∙ subst (λ n. run (view_step ci) n (at (percent ∷ c ∷ t) (percent ∷ []) none) ≡ some false)
          (omega arith) (two_turns (length t * 2 + 4) c t ci),
  any_text (percent ∷ c ∷ t) ci,
)
