-- ===== src/Executor/Sort/Tests.antt =====
-- Concrete runs of the theorems on src/planner/physical/physical_sort_operator.cpp, with integers for
-- doubles and an insertion sort for std::sort.
use chicken_db.Base.{ℕ, min, ◌≡◌, refl, true, false, some, List, [], ◌∷◌, ◌++◌, arith, length}
use chicken_db.Executor.Sort.Insertion.{insertion_sorter}
use chicken_db.Executor.Sort.Integers.{ints}
use mathlib.Core.List.{Perm}
use chicken_db.Base.Int.{ℤ, pos}
use chicken_db.Executor.Sort.{
  number, double, int_value, double_value, RowChunk, Row, resolve, in_memory_sort, top_n, Field,
}
use chicken_db.Executor.Sort.StdSort.{InOrder, NotAfter}
use chicken_db.Executor.Sort.Rows.{CastsBack, all_rows, gives, no_nulls}
use chicken_db.Executor.Sort.Precedes.{precedes}
use chicken_db.Executor.Sort.Memory.{in_memory_sort_lem, top_n_lem}
use chicken_db.Executor.Sort.External.{external_sort}
use chicken_db.Executor.Sort.External.Runs.{external_sort_lem}
use chicken_db.Executor.Sort.Columns.{Named}

ints-CastsBack : CastsBack ints
ints-CastsBack = record { to_int-of_int = λ n h. refl; before-of_int = λ n m h k. refl }

-- An int column 7 and a double column 9; 2 rows and then 2.
abbrev row : ℕ → ℕ → List (Field ℤ)
row a b =
    record { stored = int_value (pos a); valid = true }
    ∷ record { stored = double_value (pos b); valid = true }
    ∷ []

-- A NULL in the double column, where 0 is stored.
abbrev with_null : ℕ → List (Field ℤ)
with_null a =
    record { stored = int_value (pos a); valid = true }
    ∷ record { stored = double_value (pos 0); valid = false }
    ∷ []

abbrev first : RowChunk (Field ℤ)
first = record { col_ids = 7 ∷ 9 ∷ []; types = number ∷ double ∷ []; rows = row 2 5 ∷ row 1 4 ∷ [] }

abbrev second : RowChunk (Field ℤ)
second = record {
  col_ids = 7 ∷ 9 ∷ [];
  types = number ∷ double ∷ [];
  rows = row 2 8 ∷ with_null 2 ∷ [];
}

-- By the int column, and in descending order by the other.
abbrev by_both : List ℕ
by_both = 7 ∷ 9 ∷ []

by_both-found : resolve ints (7 ∷ 9 ∷ []) by_both ≡ some (0 ∷ 1 ∷ [])
unfolding resolve
by_both-found = refl

in_memory_sort_lem_example :
    (out : List (List (Field ℤ))) × (in_memory_sort ints
        (insertion_sorter (Row ints))
        by_both
        (false ∷ true ∷ [])
        (first ∷ second ∷ [])
      ≡ gives ints out)
    × Perm out (no_nulls ints (all_rows ints (first ∷ second ∷ [])))
    × Named (7 ∷ 9 ∷ []) by_both (0 ∷ 1 ∷ [])
    × InOrder (precedes ints (0 ∷ 1 ∷ []) (false ∷ true ∷ [])) out
in_memory_sort_lem_example =
    in_memory_sort_lem ints ints-CastsBack (insertion_sorter (Row ints)) first (second ∷ []) by_both
      (0 ∷ 1 ∷ []) (false ∷ true ∷ []) by_both-found (omega arith)

top_n_lem_example :
    (out others : List (List (Field ℤ))) × (top_n ints
        (insertion_sorter (Row ints))
        2
        by_both
        (false ∷ true ∷ [])
        (first ∷ second ∷ [])
      ≡ gives ints out)
    × (length out ≡ min 2 (length (all_rows ints (first ∷ second ∷ []))))
    × Perm (out ++ others) (no_nulls ints (all_rows ints (first ∷ second ∷ [])))
    × Named (7 ∷ 9 ∷ []) by_both (0 ∷ 1 ∷ [])
    × InOrder (precedes ints (0 ∷ 1 ∷ []) (false ∷ true ∷ [])) out
    × NotAfter (precedes ints (0 ∷ 1 ∷ []) (false ∷ true ∷ [])) out others
top_n_lem_example =
    top_n_lem ints ints-CastsBack (insertion_sorter (Row ints)) 2 first (second ∷ []) by_both
      (0 ∷ 1 ∷ []) (false ∷ true ∷ []) by_both-found (omega arith)

external_sort_lem_example :
    (out : List (List (Field ℤ))) × (external_sort ints
        (insertion_sorter (Row ints))
        by_both
        (false ∷ true ∷ [])
        (first ∷ second ∷ [])
      ≡ gives ints out)
    × Perm out (no_nulls ints (all_rows ints (first ∷ second ∷ [])))
    × Named (7 ∷ 9 ∷ []) by_both (0 ∷ 1 ∷ [])
    × InOrder (precedes ints (0 ∷ 1 ∷ []) (false ∷ true ∷ [])) out
external_sort_lem_example =
    external_sort_lem ints ints-CastsBack (insertion_sorter (Row ints)) first (second ∷ []) by_both
      (0 ∷ 1 ∷ []) (false ∷ true ∷ []) refl by_both-found (omega arith)
