-- ===== src/Buffer/Clock/Sweep.antt =====
-- The sweep of src/buffer/clock_sweep_lru.cpp ends at a frame that exists.
use chicken_db.Base.{
  ℕ, zero, suc, ◌+◌, ◌-◌, ◌≤◌, ◌<◌, ◌≡◌, refl, sym, subst, inl, inr, none, some, List, [], ◌∷◌,
  arith, Bool-cases, Option-cases, All, length,
}
use chicken_db.Base.Eq.{nat_eq, ◌==◌}
use chicken_db.Buffer.Clock.{sweep, evict}

-- No count is above `m`.
abbrev pub IsLimited : ℕ → List ℕ → Type 0
IsLimited m counts = All (λ c. c ≤ m) counts

length-sweep : (i : ℕ) (counts : List ℕ) → length ((sweep i counts).1) ≡ length counts
length-sweep i [] = refl
length-sweep i (c ∷ cs) = ground (arith, length-sweep (i + 1) cs)

sweep-some : (i v : ℕ) (counts : List ℕ) → (sweep i counts).0 ≡ some v → v < i + length counts
sweep-some i v [] h = ground (arith, h)
sweep-some i v (c ∷ cs) h = ground (arith, h, sweep-some (i + 1) v cs)

-- A pass that finds nothing has lowered every count.
sweep-IsLimited :
    (i m : ℕ) (counts : List ℕ)
    → (sweep i counts).0 ≡ none
    → IsLimited (suc m) counts
    → IsLimited m ((sweep i counts).1)
sweep-IsLimited i m [] h k = tt
sweep-IsLimited i m (c ∷ cs) h k = elim (Bool-cases ((c - 1) == 0)) [
  | inl e ↦ absurd (ground (arith, h, e))
  | inr e ↦ rw e (omega (arith, k.0), sweep-IsLimited (i + 1) m cs (ground (arith, h, e)) k.1)
]

sweep_first_low :
    (i : ℕ) (counts : List ℕ) → IsLimited 1 counts → 0 < length counts → (sweep i counts).0 ≡ some i
sweep_first_low i [] h k = absurd (omega (arith, k))
sweep_first_low i (c ∷ cs) h k = ground (arith, h.0)

-- What a run of the sweep gives: a frame of the clock.
abbrev pub Evicts : ℕ → List ℕ → Type 0
Evicts n counts =
    (v : ℕ) × ((counts' : List ℕ) × ((evict n counts ≡ some (v, counts')) × (v < length counts)))

pub evict_total :
    (m : ℕ) (counts : List ℕ) → IsLimited (suc m) counts → 0 < length counts → Evicts (suc m) counts
unfolding evict
evict_total zero counts h k =
    let e = sweep_first_low 0 counts h k in (0, ((sweep 0 counts).1, (rw (evict, e) refl, k)))
evict_total (suc m) counts h k = elim (Option-cases ((sweep 0 counts).0)) [
  | inr (v, e) ↦
      (v, ((sweep 0 counts).1, (rw (evict, e) refl, omega (arith, sweep-some 0 v counts e))))
  | inl e ↦
      let (v, (counts', (r, b))) =
        evict_total m ((sweep 0 counts).1) (sweep-IsLimited 0 (suc m) counts e h)
          (subst (λ n. 0 < n) (sym (length-sweep 0 counts)) k) in
      (v, (counts', (rw (evict, e) r, subst (λ n. v < n) (length-sweep 0 counts) b)))
]
