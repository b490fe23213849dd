-- ===== src/Executor/Filter.antt =====
-- src/planner/physical/physical_filter_operator.cpp: WHERE over chunks of rows.
pub mod Kept
use chicken_db.Base.{ℕ, zero, suc, Bool, Option, none, some, List, [], ◌∷◌, if◌then◌else◌, ◌>>=◌}

-- The predicate of a row is `EvalPredicate` of Executor/Eval; none where it throws.
module _ {Row : Type 0} (eval_predicate : Row → Option Bool) where
  -- The loop over the rows of a chunk: those that it copies to the output.
  abbrev pub filter_rows : List Row → Option (List Row)
  filter_rows [] = some []
  filter_rows (r ∷ rows) = do
    keep ← eval_predicate r
    rest ← filter_rows rows
    some (if keep then r ∷ rest else rest)

  -- The loop of `Next` over the child's chunks: a chunk or the end, and the chunks left; none where
  -- a predicate throws.
  unfoldable pub next : List (List Row) → Option (Option (List Row) × List (List Row))
  next [] = some (none, [])
  next (chunk ∷ chunks) =
      let later = next chunks in
      elim (filter_rows chunk) [
        | none ↦ none
        | some [] ↦ later
        | some (r ∷ rows) ↦ some (some (r ∷ rows), chunks)
      ]

  -- The chunks that a caller gets who calls `Next` until it ends, on fuel; none where it throws or
  -- the fuel runs out.
  unfoldable pub drain : ℕ → List (List Row) → Option (List (List Row))
  unfolding next
  drain zero chunks = none
  drain (suc n) chunks = elim (next chunks) [
    | none ↦ none
    | some (none, rest) ↦ some []
    | some (some out, rest) ↦ elim (drain n rest) [ none ↦ none | some outs ↦ some (out ∷ outs) ]
  ]
