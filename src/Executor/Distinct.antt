-- ===== src/Executor/Distinct.antt =====
-- src/planner/physical/physical_distinct_operator.cpp: the first row of each key, over chunks.
pub mod First
use chicken_db.Base.{ℕ, zero, suc, true, false, Option, none, some, List, [], ◌∷◌, ◌++◌}
use chicken_db.Base.Eq.{nat_eq, list_eq, contains}

-- `key` is the row's `RowKey`, and `seen` the set of the keys so far.
module _ {Row : Type 0} (key : Row → List ℕ) where
  -- The loop over the rows of a chunk: the rows with a new key, and the keys after them.
  abbrev pub take_new : List (List ℕ) → List Row → List Row × List (List ℕ)
  take_new seen [] = ([], seen)
  take_new seen (x ∷ rows) = elim (contains (key x) seen) [
    | true ↦ take_new seen rows
    | false ↦ let rest = take_new (key x ∷ seen) rows in (x ∷ rest.0, rest.1)
  ]

  -- `Next`: a chunk or the end, the chunks left, the keys.
  unfoldable pub next :
      List (List Row) → List (List ℕ) → Option (List Row) × (List (List Row) × List (List ℕ))
  next [] seen = (none, ([], seen))
  next (chunk ∷ chunks) seen =
      let taken = take_new seen chunk in
      elim taken.0 [ [] ↦ next chunks taken.1 | x ∷ out ↦ (some (x ∷ out), (chunks, taken.1)) ]

  -- What a caller gets that calls `Next` until it ends, on fuel.
  unfoldable pub drain : ℕ → List (List Row) → List (List ℕ) → Option (List Row)
  unfolding next
  drain zero chunks seen = none
  drain (suc n) chunks seen = elim (next chunks seen).0 [
    | none ↦ some []
    | some out ↦ elim (drain n ((next chunks seen).1.0) ((next chunks seen).1.1)) [
      | none ↦ none
      | some rest ↦ some (out ++ rest)
    ]
  ]
