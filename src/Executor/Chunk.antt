-- ===== src/Executor/Chunk.antt =====
-- src/include/executor/chunk.h: a batch of rows as one vector per column.
use chicken_db.Base.{ℕ, Bool, true, false, Option, none, List, get_elem?}
use chicken_db.Base.Int.{ℤ}
use chicken_db.Base.Dict.{Dict}
use chicken_db.Binder.Numbers.{Numbers}

-- The values of a column by its type: the flat array, or the strings that offsets and pool hold.
pub data Cells (N : Numbers) : Type 0 where
  numbers : List ℤ → Cells N
  doubles : List (N.Double) → Cells N
  varchars varchars2 : List (List ℕ) → Cells N

pub record Vector (N : Numbers) : Type 0 where
  pub cells : Cells N
  pub validity : List Bool

abbrev pub is_var : {N : Numbers} → Vector N → Bool
is_var v = elim v.cells [
  | numbers _ ↦ false
  | doubles _ ↦ false
  | varchars _ ↦ true
  | varchars2 _ ↦ true
]

-- `GetString`. A row that is not there has no string.
abbrev pub get_string : {N : Numbers} → Vector N → ℕ → Option (List ℕ)
get_string v row = elim v.cells [
  | numbers _ ↦ none
  | doubles _ ↦ none
  | varchars ss ↦ get_elem? ss row
  | varchars2 ss ↦ get_elem? ss row
]

abbrev pub Chunk : Numbers → Type 0
Chunk N = List (Vector N)

-- From the column's id to its place in the chunk.
abbrev pub ColMap : Type 0
ColMap = Dict ℕ ℕ
