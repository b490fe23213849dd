-- ===== src/Executor/RowKey.antt =====
-- `RowKey` of src/include/executor/chunk_util.h: a row as one string of bytes, by which DISTINCT and
-- grouping tell rows apart.
pub mod Injective
use chicken_db.Base.{ℕ, ◌/◌, ◌%◌, ◌<◌, ◌≡◌, Bool, true, false, List, [], ◌∷◌, ◌++◌, length}

-- The storage of a column: so many bytes per row, or strings.
pub data Storage : Type 0 where
  fixed : ℕ → Storage
  varlen : Storage

pub record Cell : Type 0 where
  pub valid : Bool
  pub bytes : List ℕ

-- The four bytes of a uint32_t, the lowest first, which drop what is beyond 32 bits.
abbrev pub len_bytes : ℕ → List ℕ
len_bytes n = n % 256 ∷ n / 256 % 256 ∷ n / 65536 % 256 ∷ n / 16777216 % 256 ∷ []

abbrev pub valid_byte : Bool → ℕ
valid_byte true = 1
valid_byte false = 0

abbrev pub cell_key : Storage → Cell → List ℕ
cell_key (fixed width) c = valid_byte c.valid ∷ c.bytes
cell_key varlen c = valid_byte c.valid ∷ len_bytes (length c.bytes) ++ c.bytes

unfoldable pub row_key : List Storage → List Cell → List ℕ
row_key (k ∷ ks) (c ∷ cs) = cell_key k c ++ row_key ks cs
row_key _ _ = []

-- A cell as its column holds it; the pool of a column is addressed by 32 bits.
abbrev pub Fits : Storage → Cell → Type 0
Fits (fixed width) c = length c.bytes ≡ width
Fits varlen c = length c.bytes < 4294967296

abbrev pub Conforms : List Storage → List Cell → Type 0
Conforms [] [] = Unit
Conforms (k ∷ ks) (c ∷ cs) = Fits k c × Conforms ks cs
Conforms [] (c ∷ cs) = ⊥
Conforms (k ∷ ks) [] = ⊥
