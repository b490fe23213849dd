-- ===== src/Buffer/Pool/Victims.antt =====
-- When `FindVictimFrame` of src/buffer/buffer_manager.cpp returns, and when it does not.
use chicken_db.Base.{
  ℕ, zero, suc, ◌-◌, ◌≤◌, ◌<◌, ◌≡◌, refl, ◌∙◌, subst, true, false, none, some, List, [], ◌∷◌, arith,
  All, length, get_elem?,
}
use chicken_db.Base.Eq.{nat_eq, ◌==◌}
use chicken_db.Buffer.Clock.{sweep, pin, evict, lru_max_pin}
use chicken_db.Buffer.Clock.Sweep.{IsLimited, evict_total}
use chicken_db.Buffer.Pool.{Pool, Frame, find_victim_frame, sweep_victim}

module _ {Data : Type 0} where
  pub get_elem?_below :
      (i : ℕ) (xs : List (Frame Data))
      → i < length xs
      → (f : Frame Data) × (get_elem? xs i ≡ some f)
  get_elem?_below i [] h = absurd (omega (arith, h))
  get_elem?_below zero (x ∷ xs) h = (x, refl)
  get_elem?_below (suc i) (x ∷ xs) h = get_elem?_below i xs (omega (arith, h))

  All-get_elem? :
      (P : Frame Data → Type 0) (i : ℕ) (xs : List (Frame Data)) (f : Frame Data)
      → All P xs
      → get_elem? xs i ≡ some f
      → P f
  All-get_elem? P i [] f h e = absurd (ground (arith, e))
  All-get_elem? P zero (x ∷ xs) f h e = subst (λ o. elim o [ none ↦ Unit | some y ↦ P y ]) e h.0
  All-get_elem? P (suc i) (x ∷ xs) f h e = All-get_elem? P i xs f h.1 e

  sweeps : (n : ℕ) (s : Pool Data) → s.free_list ≡ [] → find_victim_frame n s ≡ sweep_victim n s
  unfolding find_victim_frame
  sweeps n s free = simp (find_victim_frame, free)

  -- With a frame in the clock and no frame pinned, the search for a victim ends in its first round,
  -- at a frame of the pool.
  pub find_victim_total :
      (n : ℕ) (s : Pool Data)
      → s.free_list ≡ []
      → length s.counts ≡ length s.frames
      → 0 < length s.frames
      → IsLimited lru_max_pin s.counts
      → All (λ f. (f.pin_count == 0) ≡ true) s.frames
      → (i : ℕ) × ((s' : Pool Data) × ((find_victim_frame (suc n) s ≡ some (i, s'))
            × ((i < length s.frames) × (s'.frames ≡ s.frames))))
  unfolding sweep_victim
  find_victim_total n s free same_length filled limited unpinned =
      let (v, (counts, (e, below))) =
        evict_total 4 s.counts limited (omega (arith, same_length, filled)) in
      let below' : v < length s.frames = omega (arith, below, same_length) in
      let (f, g) = get_elem?_below v s.frames below' in
      let idle = All-get_elem? (λ f. (f.pin_count == 0) ≡ true) v s.frames f unpinned g in
      (
        v,
        (
          record s { counts = counts },
          (sweeps (suc n) s free ∙ rw (sweep_victim, e, g, idle) refl, (below', refl)),
        ),
      )

  sweep_victim_stuck :
      (n c : ℕ) (counts : List ℕ) (f : Frame Data) (frames : List (Frame Data)) (s : Pool Data)
      → s.frames ≡ f ∷ frames
      → s.counts ≡ c ∷ counts
      → c ≤ 1
      → (f.pin_count == 0) ≡ false
      → sweep_victim n s ≡ none
  unfolding sweep_victim evict
  sweep_victim_stuck zero c counts f frames s hf hc low pinned = refl
  sweep_victim_stuck (suc n) c counts f frames s hf hc low pinned =
      let down : c - 1 ≡ 0 = omega (arith, low) in
      let back : pin 0 ((sweep 0 s.counts).1) ≡ 1 ∷ counts = rw (hc, down) refl in
      rw (sweep_victim, hc, evict, down, hf, pinned)
        (sweep_victim_stuck n 1 counts f frames (record s { counts = pin 0 ((sweep 0 s.counts).1) })
          hf back (omega arith) pinned)

  -- Where the first frame is pinned and its count is at most 1, the search for a victim never ends,
  -- whatever the other frames are: each sweep stops at the first frame again.
  pub find_victim_stuck :
      (n c : ℕ) (counts : List ℕ) (f : Frame Data) (frames : List (Frame Data)) (s : Pool Data)
      → s.free_list ≡ []
      → s.frames ≡ f ∷ frames
      → s.counts ≡ c ∷ counts
      → c ≤ 1
      → (f.pin_count == 0) ≡ false
      → find_victim_frame n s ≡ none
  find_victim_stuck n c counts f frames s free hf hc low pinned =
      sweeps n s free ∙ (sweep_victim_stuck n c counts f frames s hf hc low pinned)
