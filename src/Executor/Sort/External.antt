-- ===== src/Executor/Sort/External.antt =====
-- PhysicalExternalSort of src/planner/physical/physical_sort_operator.cpp: sorted runs in files, and
-- a merge of all runs. Files open, take and give back what is written.
pub mod Best
pub mod Merge
pub mod Runs
use chicken_db.Base.{
  ℕ, zero, suc, ◌+◌, Bool, false, ◌||◌, Option, none, some, List, [], ◌∷◌, ◌++◌, map, leb,
  if◌then◌else◌, length, get_or, set, tail,
}
use chicken_db.Executor.Sort.{
  Doubles, ColumnType, Field, RowChunk, Returned, thrown, nothing, Row, materialize, emit_rows,
  less, resolve,
}
use chicken_db.Executor.Sort.Rows.{is_varlen}
use chicken_db.Executor.Sort.StdSort.{Sorter}

module _ {A : Type 0} (before : A → A → Bool) where
  -- The first reader whose row no later one comes before; a reader at its end is not valid.
  unfoldable pub find_best : List (List A) → ℕ → Option (ℕ × A) → Option (ℕ × A)
  find_best [] i best = best
  find_best ([] ∷ readers) i best = find_best readers (i + 1) best
  find_best ((x ∷ run) ∷ readers) i none = find_best readers (i + 1) (some (i, x))
  find_best ((x ∷ run) ∷ readers) i (some (b, y)) =
      find_best readers (i + 1) (if before x y then some (i, x) else some (b, y))

  -- The reader goes on to its next row.
  abbrev pub advance : ℕ → List (List A) → List (List A)
  advance i readers = set readers i (tail (get_or readers i []))

  -- The merging loop on fuel.
  unfoldable pub merge_runs : ℕ → List (List A) → Option (List A)
  merge_runs zero readers = none
  merge_runs (suc fuel) readers = elim (find_best readers 0 none) [
    | none ↦ some []
    | some (i, x) ↦ elim (merge_runs fuel (advance i readers)) [
      | none ↦ none
      | some merged ↦ some (x ∷ merged)
    ]
  ]

  -- The loop that fills the buffer: at `run_rows` rows it is sorted and written as a run, and so is
  -- what is left at the end.
  unfoldable pub cut_runs : (List A → List A) → ℕ → List A → List A → List (List A)
  cut_runs sort run_rows [] [] = []
  cut_runs sort run_rows (b ∷ buf) [] = sort (b ∷ buf) ∷ []
  cut_runs sort run_rows buf (row ∷ rows) =
      let full = cut_runs sort run_rows [] rows in
      let more = cut_runs sort run_rows (buf ++ row ∷ []) rows in
      if leb run_rows (length (buf ++ row ∷ [])) then sort (buf ++ row ∷ []) ∷ full else more

-- `K_RUN_ROWS`.
abbrev pub k_run_rows : ℕ
k_run_rows = 4096

abbrev pub any_varlen : List ColumnType → Bool
any_varlen [] = false
any_varlen (t ∷ types) = is_varlen t || any_varlen types

module _ (N : Doubles) where
  -- A row in a file is its doubles: `WriteRun` and then `read_row`.
  abbrev pub file_row : Row N → Row N
  file_row cells = map (λ c. record { num = c.num; str = []; is_str = false }) cells

  unfoldable pub run_files :
      Sorter (Row N) → (Row N → Row N → Bool) → List (Row N) → List (List (Row N))
  run_files sorter before rows =
      map (map file_row) (cut_runs before (sorter.sort before) k_run_rows [] rows)

  -- The first `Next`. The loop of the merge ends when each row has been given.
  unfoldable pub external_sort :
      Sorter (Row N)
      → List ℕ
      → List Bool
      → List (RowChunk (Field (N.Double)))
      → Returned (List (List (Field (N.Double))))
  external_sort sorter cols desc [] = nothing
  external_sort sorter cols desc (chunk ∷ chunks) =
      let rows = materialize N (chunk ∷ chunks) in
      if any_varlen chunk.types then thrown else elim (resolve N chunk.col_ids cols) [
        | none ↦ thrown
        | some sort_idx ↦
            elim (merge_runs (less N sort_idx desc) (length rows + 1)
              (run_files sorter (less N sort_idx desc) rows)) [
                | none ↦ thrown
                | some merged ↦ emit_rows N chunk.types merged
              ]
      ]
