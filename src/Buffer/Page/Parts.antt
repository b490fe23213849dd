-- ===== src/Buffer/Page/Parts.antt =====
-- What is written to a page and read from it, part by part
-- (src/buffer/table_data_page.cpp).
use chicken_db.Base.{
  ℕ, zero, suc, ◌+◌, ◌*◌, ◌%◌, ◌≤◌, ◌<◌, ◌≡◌, refl, ap, ◌∙◌, subst, Bool, true, false, some, List,
  [], ◌∷◌, arith, ltb, nat_beq, if◌then◌else◌, All, length, get_elem?, concat,
}
use chicken_db.Buffer.Page.{
  page_size, get_column_raw, ColumnInput, ColDirEntry, PageHeader, Page, TableDataPage,
  bitmap_bytes, fnv_loop, fnv_step,
}
use chicken_db.Buffer.Codec.{decompress, codec_of, Zstd, CompressionType, none_codec, zstd, code}
use Prim.Native.Nat.{bit_xor}
use chicken_db.Buffer.Bytes.{load, store}
use chicken_db.Buffer.Page.Build.{
  build_dir, write_all, write_header, header_fields, last_row_id, write_columns, write_dir,
}
use chicken_db.Buffer.Page.Header.{header_bytes, dir_bytes, write_dir-concat, write_fields-concat}
use chicken_db.Buffer.Page.Layout.{BitmapsFit, bitmaps, write_bitmaps-concat, write_columns-concat}

-- The numbers that `BuildFromColumns` is given fit their types, and each column has the bytes that
-- it says: so many of data, and so many of the bitmap where there is one.
pub record IsInput (cols : List ColumnInput) (num_rows base ts : ℕ) (p : Page) : Type 0 where
  pub whole_page : length p.bytes ≡ 262144
  pub few_columns : length cols < 65536
  pub few_rows : num_rows < 4294967289
  pub small_page_no : p.page_no < 18446744073709551616
  pub small_base : base < 18446744073709551616
  pub small_ts : ts < 18446744073709551616
  pub small_columns : All (λ col. (col.col_id < 4294967296) × (col.raw_size < 4294967296)) cols
  pub raw_sizes : All (λ col. length col.raw ≡ col.raw_size) cols
  pub bitmap_sizes : BitmapsFit (bitmap_bytes num_rows) cols

-- The bytes that the compressed columns take in a page.
abbrev pub page_bytes : List ColumnInput → List (List ℕ) → ℕ → ℕ
page_bytes cols compressed num_rows =
    64 + length cols * 16 + length (concat compressed) + bitmap_bytes num_rows * length cols

pub fnv_loop-bound : (bs : List ℕ) (h : ℕ) → h < 4294967296 → fnv_loop bs h < 4294967296
fnv_loop-bound [] h l = l
fnv_loop-bound (b ∷ bs) h l = fnv_loop-bound bs (fnv_step h b) (mod_bound (bit_xor h b * 16777619))
  where
    mod_bound : (n : ℕ) → n % 4294967296 < 4294967296
    mod_bound n = omega arith

pub last_row_id-bound :
    (base n : ℕ) → base < 18446744073709551616 → last_row_id base n < 18446744073709551616
last_row_id-bound base zero h = h
last_row_id-bound base (suc n) h = omega arith

pub code-bound : (k : CompressionType) → code k < 256
code-bound none_codec = omega arith
code-bound zstd = omega arith

pub write_all-store :
    (h : PageHeader) (c : ℕ) (cols : List ColumnInput) (ss : List (List ℕ)) (image : List ℕ)
    → length ss ≡ length cols
    → c + length (concat ss) < 4294967296
    → BitmapsFit (bitmap_bytes h.num_rows) cols
    → write_all h (build_dir c cols ss) cols ss image
      ≡ store h.null_bitmap_offset (bitmaps (bitmap_bytes h.num_rows) cols) (
          store c
            (concat ss)
            (store 64 (dir_bytes (build_dir c cols ss)) (store 0 (header_bytes h) image)))
write_all-store h c cols ss image l k a =
    let dir = build_dir c cols ss in
    write_bitmaps-concat h.null_bitmap_offset (bitmap_bytes h.num_rows) cols
      (write_columns dir ss (write_dir 64 dir (write_header h image))) a
    ∙ ap (store h.null_bitmap_offset (bitmaps (bitmap_bytes h.num_rows) cols)) (
        write_columns-concat c cols ss (write_dir 64 dir (write_header h image)) l k
        ∙ ap (store c (concat ss)) (
            write_dir-concat 64 dir (write_header h image)
            ∙ ap (store 64 (dir_bytes dir)) (write_fields-concat 0 (header_fields h) image)))

pub if_false {ℓ} : {A : Type ℓ} (b : Bool) (x y : A) → b ≡ false → (if b then x else y) ≡ y
if_false b x y e = rw e refl

pub within : (n : ℕ) → n ≤ 262144 → ltb page_size n ≡ false
within n h = ground (arith, h)

pub checked : (a c : ℕ) → a ≡ c → (if nat_beq c 0 then true else nat_beq a c) ≡ true
checked a c e = ground (arith, e)

pub All-at {ℓ κ} :
    {A : Type ℓ} (P : A → Type κ) (xs : List A) (i : ℕ) (x : A)
    → All P xs
    → get_elem? xs i ≡ some x
    → P x
All-at P [] i x a e = ground (arith, e)
All-at P (y ∷ xs) zero x a e = subst P (ground (arith, e)) a.0
All-at P (y ∷ xs) (suc i) x a e = All-at P xs i x a.1 e

pub column-decompressed :
    (z : Zstd) (i : ℕ) (t : TableDataPage) (k : CompressionType) (s raw : List ℕ)
    (entry : ColDirEntry)
    → get_elem? t.cols i ≡ some entry
    → codec_of t.header.compression ≡ some k
    → load entry.data_offset entry.compressed_size t.page.bytes ≡ s
    → entry.raw_size ≡ length raw
    → decompress z (some k) s (length raw) ≡ some raw
    → get_column_raw z i t ≡ some raw
column-decompressed z i t k s raw entry at codec content size h =
    rw (get_column_raw, at, codec, content, size) h
