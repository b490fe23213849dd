-- ===== src/Executor/Limit.antt =====
-- src/planner/physical/physical_limit_operator.cpp: LIMIT and OFFSET over chunks of rows.
pub mod Window
pub mod Drain
use chicken_db.Base.{
  ℕ, zero, suc, ◌+◌, true, false, Option, none, some, List, [], ◌∷◌, ◌++◌, ltb, leb, if◌then◌else◌,
  length,
}

-- How many rows have gone by, and how many of them were given out.
pub record Limit : Type 0 where
  pub seen : ℕ
  pub emitted : ℕ

abbrev pub init : Limit
init = record { seen = 0; emitted = 0 }

module _ {Row : Type 0} (start offset : ℕ) where
  -- The loop over the rows of a chunk from row `r` on: the rows taken, and the count after them.
  abbrev pub take_rows : ℕ → ℕ → ℕ → List Row → List Row × ℕ
  take_rows seen r emitted [] = ([], emitted)
  take_rows seen r emitted (x ∷ rows) = elim (ltb (seen + r) start) [
    | true ↦ take_rows seen (r + 1) emitted rows
    | false ↦ elim (leb offset emitted) [
      | true ↦ ([], emitted)
      | false ↦ let rest = take_rows seen (r + 1) (emitted + 1) rows in (x ∷ rest.0, rest.1)
    ]
  ]

  -- The loop of `Next` over the child's chunks: a chunk or the end, the chunks left, the state.
  abbrev pub pull : List (List Row) → Limit → Option (List Row) × (List (List Row) × Limit)
  pull [] s = (none, ([], s))
  pull (chunk ∷ chunks) s =
      let taken = take_rows s.seen 0 s.emitted chunk in
      let s' : Limit = record { seen = s.seen + length chunk; emitted = taken.1 } in
      elim taken.0 [
        | x ∷ out ↦ (some (x ∷ out), (chunks, s'))
        | [] ↦ elim (leb offset s'.emitted) [ true ↦ (none, (chunks, s')) | false ↦ pull chunks s' ]
      ]

  unfoldable pub next : List (List Row) → Limit → Option (List Row) × (List (List Row) × Limit)
  next chunks s = if leb offset s.emitted then (none, (chunks, s)) else pull chunks s

  -- What a caller gets that calls `Next` until it ends, on fuel.
  unfoldable pub drain : ℕ → List (List Row) → Limit → Option (List Row)
  unfolding next
  drain zero chunks s = none
  drain (suc n) chunks s = elim (next chunks s).0 [
    | none ↦ some []
    | some out ↦ elim (drain n ((next chunks s).1.0) ((next chunks s).1.1)) [
      | none ↦ none
      | some rest ↦ some (out ++ rest)
    ]
  ]
