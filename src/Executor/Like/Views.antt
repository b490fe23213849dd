-- ===== src/Executor/Like/Views.antt =====
-- The loop of src/include/executor/like_matcher.h on what is left of the text and of the pattern,
-- in place of positions in them.
use chicken_db.Base.{
  ℕ, zero, suc, ◌+◌, ◌≡◌, refl, sym, inl, inr, Bool, false, ◌||◌, Option, none, some, List, [], ◌∷◌,
  if◌then◌else◌, Bool-cases, Option-cases, get_elem?, drop, drop-some, drop-none, tail, tail-drop,
}
use chicken_db.Executor.Like.{
  Cursor, Step, halts, goes, step, run, back, only_percent, percent, underscore, char_eq,
}
use chicken_db.Base.Eq.{nat_eq, ◌==◌}

-- What is left, and with a star the text at its mark and the pattern after it.
pub record View : Type 0 where
  pub text : List ℕ
  pub pattern : List ℕ
  pub star : Option (List ℕ × List ℕ)

abbrev pub view : List ℕ → List ℕ → Cursor → View
view text pattern s = record {
  text = drop s.ti text;
  pattern = drop s.pi pattern;
  star = elim s.star [ none ↦ none | some i ↦ some (drop s.mark text, drop (i + 1) pattern) ];
}

abbrev pub retry : View → Step View
retry v = elim v.star [
  | none ↦ halts false
  | some m ↦ goes (record { text = tail m.0; pattern = m.1; star = some (tail m.0, m.1) })
]

unfoldable pub view_step : Bool → View → Step View
view_step ci v = elim v.text [
  | [] ↦ halts (only_percent v.pattern)
  | c ∷ t ↦ elim v.pattern [
    | [] ↦ retry v
    | a ∷ p ↦
        if a == underscore || char_eq ci a c
        then goes (record v { text = t; pattern = p })
        else if a == percent
        then goes (record v { pattern = p; star = some (c ∷ t, p) })
        else retry v
  ]
]

abbrev map_step {ℓ κ} : {S : Type ℓ} {T : Type κ} → (S → T) → Step S → Step T
map_step f (halts b) = halts b
map_step f (goes s) = goes (f s)

module _ (ci : Bool) (text pattern : List ℕ) where
  back-view : (s : Cursor) → map_step (view text pattern) (back s) ≡ retry (view text pattern s)
  back-view s = elim (Option-cases s.star) [
    | inl e ↦ rw e refl
    | inr (i, e) ↦ rw (e, tail-drop s.mark text) refl
  ]

  pub step-view :
      (s : Cursor)
      → map_step (view text pattern) (step ci text pattern s) ≡ view_step ci (view text pattern s)
  unfolding step view_step
  step-view s = elim (Option-cases (get_elem? text s.ti)) [
    | inl e ↦ rw (step, view_step, e, drop-none s.ti text e) refl
    | inr (c, e) ↦ elim (Option-cases (get_elem? pattern s.pi)) [
      | inl f ↦
          rw (step, view_step, e, drop-some s.ti text c e, f, drop-none s.pi pattern f)
            (back-view s)
      | inr (a, f) ↦ elim (Bool-cases (a == underscore || char_eq ci a c)) [
        | inl g ↦
            rw (step, view_step, e, drop-some s.ti text c e, f, drop-some s.pi pattern a f, g) refl
        | inr g ↦ elim (Bool-cases (a == percent)) [
          | inl k ↦
              rw (step, view_step, e, drop-some s.ti text c e, f, drop-some s.pi pattern a f, g, k)
                (rw (drop-some s.ti text c e) refl)
          | inr k ↦
              rw (step, view_step, e, drop-some s.ti text c e, f, drop-some s.pi pattern a f, g, k)
                (back-view s)
        ]
      ]
    ]
  ]

-- Two machines whose steps agree give the same result.
pub run-map {ℓ κ} :
    {S : Type ℓ} {T : Type κ} (f : S → Step S) (g : T → Step T) (h : S → T)
    → ((s : S) → map_step h (f s) ≡ g (h s))
    → (n : ℕ) (s : S) → run f n s ≡ run g n (h s)
unfolding run
run-map f g h sim zero s = refl
run-map f g h sim (suc n) s =
    rw (run, sym (sim s))
      (elim (f s)
        as (λ x.
          (elim x [ halts b ↦ some b | goes s' ↦ run f n s' ])
          ≡ (elim (map_step h x) [ halts b ↦ some b | goes t ↦ run g n t ])) [
            | halts b ↦ refl
            | goes s' ↦ run-map f g h sim n s'
          ])
