-- ===== src/Buffer/Page.antt =====
-- src/include/buffer/table_data_page.h and src/buffer/table_data_page.cpp: a page of table data,
-- with its header, the directory of its columns, their compressed data and their null bitmaps.
pub mod Build
pub mod Header
pub mod Layout
pub mod Parts
pub mod Reopen
mod Tests
use chicken_db.Base.{
  ℕ, zero, suc, ◌+◌, ◌-◌, ◌*◌, ◌/◌, ◌%◌, Bool, true, false, ◌&&◌, Option, none, some, List, [], ◌∷◌,
  nat_beq, if◌then◌else◌, get_elem?,
}
use Prim.Native.Nat.{bit_xor}
use chicken_db.Buffer.Bytes.{from_le, load}
use chicken_db.Buffer.Codec.{Zstd, codec_of, decompress}

abbrev pub page_size : ℕ
page_size = 262144

abbrev pub header_size : ℕ
header_size = 64

abbrev pub entry_size : ℕ
entry_size = 16

abbrev pub page_magic : ℕ
page_magic = 63

abbrev pub data_page : ℕ
data_page = 1

-- A fixed-width integer, signed or not, is its residue.
abbrev pub u16 : ℕ → ℕ
u16 n = n % 65536

abbrev pub u32 : ℕ → ℕ
u32 n = n % 4294967296

abbrev pub u64 : ℕ → ℕ
u64 n = n % 18446744073709551616

pub record ColDirEntry : Type 0 where
  pub col_id : ℕ
  pub data_offset : ℕ
  pub compressed_size : ℕ
  pub raw_size : ℕ

pub record PageHeader : Type 0 where
  pub magic : ℕ
  pub version : ℕ
  pub page_type : ℕ
  pub compression : ℕ
  pub page_id : ℕ
  pub num_rows : ℕ
  pub num_columns : ℕ
  pub col_dir_offset : ℕ
  pub data_offset : ℕ
  pub null_bitmap_offset : ℕ
  pub min_row_id : ℕ
  pub max_row_id : ℕ
  pub create_ts : ℕ
  pub checksum : ℕ

-- A null pointer for `validity` is none. The type of the column is left out: no code reads it.
pub record ColumnInput : Type 0 where
  pub col_id : ℕ
  pub raw : List ℕ
  pub raw_size : ℕ
  pub validity : Option (List ℕ)

-- The page in memory, with its number in the table.
pub record Page : Type 0 where
  pub page_no : ℕ
  pub bytes : List ℕ

pub record TableDataPage : Type 0 where
  pub header : PageHeader
  pub cols : List ColDirEntry
  pub page : Page

-- `InitHeader`.
abbrev pub init_header : List ℕ → PageHeader
init_header image = record {
  magic = from_le (load 0 4 image);
  version = from_le (load 4 2 image);
  page_type = from_le (load 6 1 image);
  compression = from_le (load 7 1 image);
  page_id = from_le (load 8 8 image);
  num_rows = from_le (load 16 4 image);
  num_columns = from_le (load 20 2 image);
  col_dir_offset = from_le (load 22 2 image);
  data_offset = from_le (load 24 4 image);
  null_bitmap_offset = from_le (load 28 4 image);
  min_row_id = from_le (load 32 8 image);
  max_row_id = from_le (load 40 8 image);
  create_ts = from_le (load 48 8 image);
  checksum = from_le (load 56 4 image);
}

-- `InitCols`: so many entries from `off` on.
abbrev pub init_cols : ℕ → ℕ → List ℕ → List ColDirEntry
init_cols zero off image = []
init_cols (suc n) off image =
    record {
      col_id = from_le (load off 4 image);
      data_offset = from_le (load (off + 4) 4 image);
      compressed_size = from_le (load (off + 8) 4 image);
      raw_size = from_le (load (off + 12) 4 image);
    }
    ∷ init_cols n (off + 16) image

abbrev pub is_data_header : PageHeader → Bool
is_data_header h = nat_beq h.magic page_magic && nat_beq h.page_type data_page

-- The test of `Init`: what is no page of data may count any columns.
abbrev pub read_cols : PageHeader → List ℕ → List ColDirEntry
read_cols h image = elim (is_data_header h) [
  | true ↦ init_cols h.num_columns h.col_dir_offset image
  | false ↦ []
]

-- The constructor, which reads the header and, on a data page, the directory. After it `inited`
-- is true for good.
abbrev pub open_page : Page → TableDataPage
open_page p =
    let h = init_header p.bytes in record { header = h; cols = read_cols h p.bytes; page = p }

abbrev pub is_data_page : TableDataPage → Bool
is_data_page t = is_data_header t.header

abbrev pub row_count : TableDataPage → ℕ
row_count t = t.header.num_rows

abbrev pub fnv_step : ℕ → ℕ → ℕ
fnv_step h b = u32 (bit_xor h b * 16777619)

abbrev pub fnv_loop : List ℕ → ℕ → ℕ
fnv_loop [] h = h
fnv_loop (b ∷ bs) h = fnv_loop bs (fnv_step h b)

-- `Fnv1a` over the bytes from `begin` to `end`.
abbrev pub fnv1a : List ℕ → ℕ → ℕ → ℕ
fnv1a image begin end = fnv_loop (load begin (end - begin) image) 2166136261

abbrev pub bitmap_bytes : ℕ → ℕ
bitmap_bytes num_rows = u32 (num_rows + 7) / 8

abbrev pub verify_checksum : TableDataPage → Bool
verify_checksum t =
    let h = t.header in
    let end = u32 (h.null_bitmap_offset + u32 (bitmap_bytes h.num_rows * h.num_columns)) in
    if nat_beq h.checksum 0 then true else nat_beq (fnv1a t.page.bytes header_size end) h.checksum

-- `GetColumnRaw`; none where `at` or the codec throws.
abbrev pub get_column_raw : Zstd → ℕ → TableDataPage → Option (List ℕ)
get_column_raw z i t = elim (get_elem? t.cols i) [
  | none ↦ none
  | some e ↦
      decompress z (codec_of t.header.compression)
        (load e.data_offset e.compressed_size t.page.bytes) e.raw_size
]

abbrev pub get_column_validity : ℕ → TableDataPage → List ℕ
get_column_validity i t =
    let n = bitmap_bytes t.header.num_rows in
    load (t.header.null_bitmap_offset + i * n) n t.page.bytes
