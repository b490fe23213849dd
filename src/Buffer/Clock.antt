-- ===== src/Buffer/Clock.antt =====
-- src/buffer/clock_sweep_lru.cpp: one use count per frame.
pub mod Sweep
use chicken_db.Base.{ℕ, zero, suc, ◌+◌, ◌-◌, Option, none, some, List, [], ◌∷◌, ltb, if◌then◌else◌}
use chicken_db.Base.Eq.{nat_eq, ◌==◌}

-- LRU_MAX_PIN of src/include/common/macro.h.
abbrev pub lru_max_pin : ℕ
lru_max_pin = 5

-- An assertion fails beyond the frames: nothing is pinned there.
abbrev pub pin : ℕ → List ℕ → List ℕ
pin i [] = []
pin zero (c ∷ cs) = (if ltb c lru_max_pin then c + 1 else c) ∷ cs
pin (suc i) (c ∷ cs) = c ∷ pin i cs

-- One pass of `Evict` from frame `i` on: every count goes down, up to the first that is 0 then.
abbrev pub sweep : ℕ → List ℕ → Option ℕ × List ℕ
sweep i [] = (none, [])
sweep i (c ∷ cs) =
    let (victim, swept) = sweep (i + 1) cs in
    if (c - 1) == 0 then (some i, (c - 1) ∷ cs) else (victim, (c - 1) ∷ swept)

-- The passes of `Evict` on fuel.
unfoldable pub evict : ℕ → List ℕ → Option (ℕ × List ℕ)
evict zero counts = none
evict (suc n) counts = elim (sweep 0 counts).0 [
  | some victim ↦ some (victim, (sweep 0 counts).1)
  | none ↦ evict n ((sweep 0 counts).1)
]

-- `Evict`: no count is above the limit, so as many passes end it.
abbrev pub evict_frame_id : List ℕ → Option (ℕ × List ℕ)
evict_frame_id counts = evict lru_max_pin counts
