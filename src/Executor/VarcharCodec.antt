-- ===== src/Executor/VarcharCodec.antt =====
-- src/include/executor/varchar_codec.h: a column of strings as one run of bytes, and
-- `SetVarColumn` of src/include/executor/chunk.h.
pub mod Offsets
pub mod RoundTrip
mod Tests
use chicken_db.Base.{
  ℕ, zero, suc, ◌+◌, ◌*◌, Option, none, some, List, [], ◌∷◌, ◌++◌, ltb, leb, if◌then◌else◌, ◌>>=◌,
  length, get_or, take,
}
use chicken_db.Buffer.Bytes.{le, from_le, load, store}
use chicken_db.Buffer.Page.{u32, u64}
use chicken_db.Buffer.Page.Build.{write_fields}
use chicken_db.Executor.VarColumn.{VarColumn, get_string, zeros}

-- The strings of `n` rows from `row` on; none where a row cannot be read.
abbrev pub read_rows : VarColumn → ℕ → ℕ → Option (List (List ℕ))
read_rows v row zero = some []
read_rows v row (suc n) = do s ← get_string v row; ss ← read_rows v (row + 1) n; some (s ∷ ss)

-- `local_offsets`, as the residues of its int32_t.
abbrev pub local_offsets : ℕ → List (List ℕ) → List ℕ
local_offsets c [] = c ∷ []
local_offsets c (s ∷ ss) = c ∷ local_offsets (u32 (c + length s)) ss

abbrev pub ints : List ℕ → List ℕ
ints [] = []
ints (x ∷ xs) = le 4 x ++ ints xs

-- An int32_t as a size_t: a negative one is very large.
abbrev pub to_size : ℕ → ℕ
to_size x = if ltb x 2147483648 then x else x + 18446744069414584320

-- `SerializeVarlenColumn`.
abbrev pub serialize_varlen_column : VarColumn → ℕ → ℕ → Option (List ℕ)
serialize_varlen_column v row_start cnt = do
  let n = u32 cnt
  strings ← read_rows v row_start n
  let offsets = local_offsets 0 strings
  let header_bytes = 4 + (n + 1) * 4
  let out = zeros (header_bytes + to_size (get_or offsets n 0))
  some (write_fields header_bytes strings (store 4 (ints offsets) (store 0 (le 4 n) out)))

abbrev pub read_ints : ℕ → ℕ → List ℕ → List ℕ
read_ints zero off raw = []
read_ints (suc n) off raw = from_le (load off 4 raw) ∷ read_ints n (off + 4) raw

-- The loop of `SetVarColumn`; what leaves the array is lost.
abbrev pub copy_into : List ℕ → List ℕ → List ℕ
copy_into [] ys = ys
copy_into (x ∷ xs) [] = []
copy_into (x ∷ xs) (y ∷ ys) = x ∷ copy_into xs ys

abbrev pub set_var_column : List ℕ → ℕ → List ℕ → VarColumn → VarColumn
set_var_column offsets n pool v = record {
  offsets = copy_into (take (n + 1) offsets) v.offsets;
  data_pool = pool;
  append_cursor = n;
}

-- `DeserializeVarlenColumn` after its loads: the assertions, and the column; none where one fails.
abbrev pub checked_column : ℕ → List ℕ → ℕ → List ℕ → VarColumn → Option VarColumn
checked_column n offsets data_len raw out =
    let cursor = 4 + (n + 1) * 4 in
    if leb 4 (length raw)
    then (if leb cursor (length raw)
        then (if leb (u64 (cursor + data_len)) (length raw)
            then some (set_var_column offsets n (load cursor data_len raw) out)
            else none)
        else none)
    else none

-- `DeserializeVarlenColumn` into `out`. In the source each load stands after its assertion.
abbrev pub deserialize_varlen_column : List ℕ → VarColumn → Option VarColumn
deserialize_varlen_column raw out =
    let n = from_le (load 0 4 raw) in
    let offsets = read_ints (n + 1) 4 raw in
    checked_column n offsets (to_size (get_or offsets n 0)) raw out
