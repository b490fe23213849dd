-- ===== src/Executor/Sort/External/Merge.antt =====
-- What the merge of sorted runs gives (src/planner/physical/physical_sort_operator.cpp).
use chicken_db.Base.{
  ℕ, zero, suc, ◌<◌, ◌≡◌, refl, sym, ap, ◌∙◌, subst, Bool, false, Option, none, some, List, [], ◌∷◌,
  arith, All, length, get_elem?, get_or, set, tail, concat,
}
use chicken_db.Executor.Sort.External.Best.{
  AllInOrder, Outcome, concat-set, get_or-some, Heads-All, find_best-Outcome,
}
use chicken_db.Executor.Sort.External.{find_best, advance, merge_runs}
use chicken_db.Base.Shuffle.{
  Shuffle-flip, keep, Shuffle-length, Shuffle-All, Shuffle, chain, Shuffle-eq,
}
use chicken_db.Executor.Sort.StdSort.{WeakOrder, InOrder}

module _ {A : Type 0} (P : A → Type 0) (before : A → A → Bool) (weak : WeakOrder P before) where
  set-InOrder :
      (readers : List (List A)) (j : ℕ) (x : A) (run : List A)
      → get_elem? readers j ≡ some (x ∷ run)
      → AllInOrder before readers
      → AllInOrder before (set readers j run)
  set-InOrder [] j x run h o = tt
  set-InOrder (r ∷ readers) zero x run h o =
      let same : r ≡ x ∷ run = ground (arith, h) in ((subst (InOrder before) same o.0).1, o.1)
  set-InOrder (r ∷ readers) (suc j) x run h o = (o.0, set-InOrder readers j x run h o.1)

  -- The merged rows.
  Merged : List (List A) → Option (List A) → Type 0
  Merged readers r =
      (out : List A) × (r ≡ some out) × Shuffle out (concat readers) × InOrder before out

  merge_runs-step :
      (fuel : ℕ) (readers : List (List A)) (best : Option (ℕ × A))
      → All P (concat readers)
      → AllInOrder before readers
      → length (concat readers) < suc fuel
      → Outcome P before weak readers 0 none best
      → ((next : List (List A))
          → All P (concat next)
          → AllInOrder before next
          → length (concat next) < fuel
          → Merged next (merge_runs before fuel next))
      → Merged readers (elim best [
        | none ↦ some []
        | some (i, x) ↦ elim (merge_runs before fuel (advance before i readers)) [
          | none ↦ none
          | some merged ↦ some (x ∷ merged)
        ]
      ])
  unfolding Merged
  merge_runs-step fuel readers none a o l e ih = ([], refl, Shuffle-eq (sym e), tt)
  merge_runs-step fuel readers (some (i, x)) a o l f ih =
      let place : i ≡ f.offset = omega (arith, f.place) in
      let moved = concat-set readers f.offset x f.run f.at in
      let next = set readers f.offset f.run in
      let same : advance before i readers ≡ next =
        ap (λ k. set readers k (tail (get_or readers k []))) place
        ∙ ap (λ r. set readers f.offset (tail r)) (get_or-some readers f.offset (x ∷ f.run) f.at) in
      let rest = Shuffle-All P moved a in
      let (out, e, s, order) =
        ih next rest.1 (set-InOrder readers f.offset x f.run f.at o)
          (omega (arith, l, Shuffle-length moved)) in
      let above =
        (Shuffle-All (λ z. before z x ≡ false) moved
          (Heads-All P before weak x readers rest.0 a o f.first)).1 in
      (
        x ∷ out,
        rw (same, e) refl,
        chain (keep x s) (Shuffle-flip moved),
        (Shuffle-All (λ z. before z x ≡ false) (Shuffle-flip s) above, order),
      )

  -- With fuel for each row, the merge of runs in order ends and gives their rows in order.
  pub merge_runs_lem :
      (fuel : ℕ) (readers : List (List A))
      → All P (concat readers)
      → AllInOrder before readers
      → length (concat readers) < fuel
      → (out : List A) × (merge_runs before fuel readers ≡ some out)
        × Shuffle out (concat readers)
        × InOrder before out
  unfolding Merged merge_runs
  merge_runs_lem zero readers a o l = absurd (omega (arith, l))
  merge_runs_lem (suc fuel) readers a o l =
      merge_runs-step fuel readers (find_best before readers 0 none) a o l
        (find_best-Outcome P before weak readers 0 none a tt) (λ next. merge_runs_lem fuel next)
