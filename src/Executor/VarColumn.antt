-- ===== src/Executor/VarColumn.antt =====
-- src/include/executor/chunk.h: a column of strings in the Arrow layout.
pub mod Reads
use chicken_db.Base.{
  ℕ, zero, suc, ◌+◌, ◌-◌, ◌%◌, true, false, Option, none, some, List, [], ◌∷◌, ◌++◌, ltb, leb,
  length, get_elem?, set, drop, take,
}

-- The private state of a Vector of strings. An offset is an int32_t, here its residue below 2 ^ 32.
pub record VarColumn : Type 0 where
  pub offsets : List ℕ
  pub data_pool : List ℕ
  pub append_cursor : ℕ

abbrev pub zeros : ℕ → List ℕ
zeros zero = []
zeros (suc n) = 0 ∷ zeros n

-- `Init` for a type of strings.
abbrev pub init : ℕ → VarColumn
init capacity = record { offsets = 0 ∷ zeros capacity; data_pool = []; append_cursor = 0 }

-- The view of the pool from `begin` to `end`; none where the offsets leave the pool.
abbrev pub view : ℕ → ℕ → List ℕ → Option (List ℕ)
view begin end pool = elim (leb begin end) [
  | true ↦ elim (leb end (length pool)) [
    | true ↦ elim (ltb end 2147483648) [
      | true ↦ some (take (end - begin) (drop begin pool))
      | false ↦ none
    ]
    | false ↦ none
  ]
  | false ↦ none
]

abbrev pub get_string : VarColumn → ℕ → Option (List ℕ)
get_string v row = elim (get_elem? v.offsets row) [
  | none ↦ none
  | some begin ↦ elim (get_elem? v.offsets (row + 1)) [
    | none ↦ none
    | some end ↦ view begin end v.data_pool
  ]
]

-- `AppendString`, and the row it gives back.
abbrev pub append_string : List ℕ → VarColumn → VarColumn × ℕ
append_string s v =
    let row = v.append_cursor in
    let pool = v.data_pool ++ s in
    (
      record {
        offsets = set v.offsets (row + 1) (length pool % 4294967296);
        data_pool = pool;
        append_cursor = row + 1;
      },
      row,
    )

-- The rows appended in their order.
abbrev pub append_all : List (List ℕ) → VarColumn → VarColumn
append_all [] v = v
append_all (s ∷ ss) v = append_all ss (append_string s v).0
