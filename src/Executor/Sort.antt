-- ===== src/Executor/Sort.antt =====
-- src/planner/physical/physical_sort_operator.cpp: ORDER BY in memory, for the first rows, and by
-- runs on disk.
pub mod StdSort
pub mod Order
pub mod Rows
pub mod Precedes
pub mod Columns
pub mod Memory
pub mod External
pub mod Insertion
pub mod Integers
mod Tests
use chicken_db.Base.{
  ℕ, ◌+◌, Bool, true, false, not, Option, none, some, List, [], ◌∷◌, ◌++◌, map, ltb, if◌then◌else◌,
  length, get_or, take, tail,
}
use chicken_db.Base.Int.{ℤ}
use chicken_db.Base.Eq.{◌==◌, nat_eq}
use chicken_db.Base.Order.{HasOrder, lt, nat_order, list_order}
use chicken_db.Executor.Sort.StdSort.{Sorter}

-- `double` as the operator uses it: compared, and cast from and to an int32_t. NaN is left out.
pub record Doubles : Type 1 where
  pub Double : Type 0
  pub order : HasOrder Double
  pub zero_double : Double
  pub of_int : ℤ → Double
  pub to_int : Double → ℤ

pub data ColumnType : Type 0 where
  number double varchar : ColumnType

-- What the storage of a column of each type has at a row.
pub data Value (D : Type 0) : Type 0 where
  int_value : ℤ → Value D
  double_value : D → Value D
  string_value : List ℕ → Value D

pub record SortCell (D : Type 0) : Type 0 where
  pub num : D
  pub str : List ℕ
  pub is_str : Bool

-- A place of a column: what is stored there, and the validity bit, which is not set for a NULL.
pub record Field (D : Type 0) : Type 0 where
  pub stored : Value D
  pub valid : Bool

-- The rows of a chunk below the ids of its columns.
pub record RowChunk (A : Type 0) : Type 0 where
  pub col_ids : List ℕ
  pub types : List ColumnType
  pub rows : List (List A)

-- What `Next` does: throw, give nothing, or give one chunk.
pub data Returned (A : Type 0) : Type 0 where
  thrown : Returned A
  nothing : Returned A
  returned : A → Returned A

-- `if (a < b) return !desc; if (a > b) return desc;` and what comes after.
abbrev pub compare_by : {K : Type 0} ⦃order : HasOrder K⦄ → K → K → Bool → Bool → Bool
compare_by a b desc later = if lt a b then not desc else if lt b a then desc else later

module _ (N : Doubles) where
  abbrev pub Row : Type 0
  Row = List (SortCell (N.Double))

  abbrev pub blank : SortCell (N.Double)
  blank = record { num = N.zero_double; str = []; is_str = false }

  abbrev pub stored_cell : Value (N.Double) → SortCell (N.Double)
  stored_cell (int_value n) = record { num = N.of_int n; str = []; is_str = false }
  stored_cell (double_value d) = record { num = d; str = []; is_str = false }
  stored_cell (string_value s) = record { num = N.zero_double; str = s; is_str = true }

  -- The validity bit is not read: the cell of a NULL is what is stored in its place.
  abbrev pub cell_of : Field (N.Double) → SortCell (N.Double)
  cell_of f = stored_cell f.stored

  -- A turn of the comparator's loop, and what the later columns say.
  abbrev pub compare_cells : SortCell (N.Double) → SortCell (N.Double) → Bool → Bool → Bool
  compare_cells a b desc later =
      if a.is_str
      then compare_by ⦃order = list_order⦄ a.str b.str desc later
      else compare_by ⦃order = N.order⦄ a.num b.num desc later

  -- `MakeComparator`: a column without a direction ascends.
  unfoldable pub less : List ℕ → List Bool → Row → Row → Bool
  less [] desc a b = false
  less (idx ∷ sort_idx) desc a b =
      compare_cells (get_or a idx blank) (get_or b idx blank) (get_or desc 0 false)
        (less sort_idx (tail desc) a b)

  -- `BuildColMap` and its `find`: the last column with the id.
  abbrev pub last_index : ℕ → ℕ → List ℕ → Option ℕ
  last_index id i [] = none
  last_index id i (x ∷ ids) = elim (last_index id (i + 1) ids) [
    | some j ↦ some j
    | none ↦ if x == id then some i else none
  ]

  unfoldable pub resolve : List ℕ → List ℕ → Option (List ℕ)
  resolve ids [] = some []
  resolve ids (cid ∷ sort_cols) = elim (last_index cid 0 ids) [
    | none ↦ none
    | some i ↦ elim (resolve ids sort_cols) [ none ↦ none | some is ↦ some (i ∷ is) ]
  ]

  abbrev pub cells_of : List (List (Field (N.Double))) → List Row
  cells_of rows = map (map cell_of) rows

  -- The rows of all chunks.
  unfoldable pub materialize : List (RowChunk (Field (N.Double))) → List Row
  materialize [] = []
  materialize (chunk ∷ chunks) = cells_of chunk.rows ++ materialize chunks

  -- What `EmitRows` stores for a cell, as the type of the column says.
  unfoldable pub value_of : ColumnType → SortCell (N.Double) → Value (N.Double)
  value_of number c = int_value (N.to_int c.num)
  value_of double c = double_value c.num
  value_of varchar c = string_value c.str

  -- `EmitRows` for a row: `Init` has set all validity bits, and none is cleared.
  unfoldable pub emit_row : List ColumnType → Row → List (Field (N.Double))
  emit_row (t ∷ types) (c ∷ cells) =
      record { stored = value_of t c; valid = true } ∷ emit_row types cells
  emit_row _ _ = []

  unfoldable pub emit_rows : List ColumnType → List Row → Returned (List (List (Field (N.Double))))
  emit_rows types [] = nothing
  emit_rows types (r ∷ rows) = returned (map (emit_row types) (r ∷ rows))

  -- The first `Next` of PhysicalInMemorySort.
  unfoldable pub in_memory_sort :
      Sorter Row
      → List ℕ
      → List Bool
      → List (RowChunk (Field (N.Double)))
      → Returned (List (List (Field (N.Double))))
  in_memory_sort sorter cols desc [] = nothing
  in_memory_sort sorter cols desc (chunk ∷ chunks) = elim (resolve chunk.col_ids cols) [
    | none ↦ thrown
    | some sort_idx ↦
        emit_rows chunk.types (sorter.sort (less sort_idx desc) (materialize (chunk ∷ chunks)))
  ]

  -- What PhysicalTopN keeps: `std::partial_sort` if there are more than `n` rows.
  unfoldable pub top_rows : Sorter Row → ℕ → (Row → Row → Bool) → List Row → List Row
  top_rows sorter n before rows =
      if ltb n (length rows)
      then take n (sorter.partial_sort n before rows)
      else sorter.sort before rows

  unfoldable pub top_n :
      Sorter Row
      → ℕ
      → List ℕ
      → List Bool
      → List (RowChunk (Field (N.Double)))
      → Returned (List (List (Field (N.Double))))
  top_n sorter n cols desc [] = nothing
  top_n sorter n cols desc (chunk ∷ chunks) = elim (resolve chunk.col_ids cols) [
    | none ↦ thrown
    | some sort_idx ↦
        emit_rows chunk.types
          (top_rows sorter n (less sort_idx desc) (materialize (chunk ∷ chunks)))
  ]
