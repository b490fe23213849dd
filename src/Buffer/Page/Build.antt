-- ===== src/Buffer/Page/Build.antt =====
-- src/buffer/table_data_page.cpp: `WriteHeader` and `BuildFromColumns`.
use chicken_db.Base.{
  ℕ, zero, suc, ◌+◌, ◌*◌, Bool, true, false, Option, none, some, List, [], ◌∷◌, ltb, if◌then◌else◌,
  ◌>>=◌, length, take,
}
use chicken_db.Buffer.Bytes.{le, store}
use chicken_db.Buffer.Codec.{CompressionType, Zstd, code, compress}
use chicken_db.Buffer.Page.{
  page_size, header_size, entry_size, page_magic, data_page, u16, u32, u64, ColDirEntry, PageHeader,
  ColumnInput, TableDataPage, fnv1a, bitmap_bytes,
}

-- One `memcpy` after another, each where the one before has ended.
abbrev pub write_fields : ℕ → List (List ℕ) → List ℕ → List ℕ
write_fields off [] image = image
write_fields off (f ∷ fs) image = write_fields (off + length f) fs (store off f image)

abbrev pub header_fields : PageHeader → List (List ℕ)
header_fields h =
    le 4 h.magic
    ∷ le 2 h.version
    ∷ le 1 h.page_type
    ∷ le 1 h.compression
    ∷ le 8 h.page_id
    ∷ le 4 h.num_rows
    ∷ le 2 h.num_columns
    ∷ le 2 h.col_dir_offset
    ∷ le 4 h.data_offset
    ∷ le 4 h.null_bitmap_offset
    ∷ le 8 h.min_row_id
    ∷ le 8 h.max_row_id
    ∷ le 8 h.create_ts
    ∷ le 4 h.checksum
    ∷ []

-- `WriteHeader`.
abbrev pub write_header : PageHeader → List ℕ → List ℕ
write_header h image = write_fields 0 (header_fields h) image

-- The first loop of `BuildFromColumns`: the compressed columns; none where one throws.
abbrev pub compress_all : Zstd → CompressionType → List ColumnInput → Option (List (List ℕ))
compress_all z k [] = some []
compress_all z k (c ∷ cs) = do
  s ← compress z k (take c.raw_size c.raw)
  ss ← compress_all z k cs
  some (s ∷ ss)

-- The same loop: the directory.
abbrev pub build_dir : ℕ → List ColumnInput → List (List ℕ) → List ColDirEntry
build_dir cursor (c ∷ cs) (s ∷ ss) =
    record {
      col_id = c.col_id;
      data_offset = cursor;
      compressed_size = u32 (length s);
      raw_size = c.raw_size;
    }
    ∷ build_dir (u32 (cursor + u32 (length s))) cs ss
build_dir cursor _ _ = []

-- The same loop: where the data ends.
abbrev pub end_cursor : ℕ → List (List ℕ) → ℕ
end_cursor cursor [] = cursor
end_cursor cursor (s ∷ ss) = end_cursor (u32 (cursor + u32 (length s))) ss

abbrev pub entry_fields : ColDirEntry → List (List ℕ)
entry_fields e = le 4 e.col_id ∷ le 4 e.data_offset ∷ le 4 e.compressed_size ∷ le 4 e.raw_size ∷ []

abbrev pub write_dir : ℕ → List ColDirEntry → List ℕ → List ℕ
write_dir off [] image = image
write_dir off (e ∷ es) image = write_dir (off + 16) es (write_fields off (entry_fields e) image)

-- A column without bytes is skipped in the source, which a store of no bytes is as well.
abbrev pub write_columns : List ColDirEntry → List (List ℕ) → List ℕ → List ℕ
write_columns (e ∷ es) (s ∷ ss) image = write_columns es ss (store e.data_offset s image)
write_columns _ _ image = image

abbrev pub ones : ℕ → List ℕ
ones zero = []
ones (suc n) = 255 ∷ ones n

abbrev pub bitmap_of : ℕ → ColumnInput → List ℕ
bitmap_of n c = elim c.validity [ none ↦ ones n | some bits ↦ take n bits ]

-- The null bitmaps, from `dst` on, one after another.
abbrev pub write_bitmaps : ℕ → ℕ → List ColumnInput → List ℕ → List ℕ
write_bitmaps dst n [] image = image
write_bitmaps dst n (c ∷ cs) image = write_bitmaps (dst + n) n cs (store dst (bitmap_of n c) image)

abbrev pub last_row_id : ℕ → ℕ → ℕ
last_row_id base num_rows = elim num_rows [ zero ↦ base | suc n ↦ u64 (base + n) ]

abbrev pub new_header : ℕ → ℕ → ℕ → ℕ → ℕ → ℕ → ℕ → PageHeader
new_header page_no num_columns num_rows codec end base ts = record {
  magic = page_magic;
  version = 2;
  page_type = data_page;
  compression = codec;
  page_id = page_no;
  num_rows = num_rows;
  num_columns = num_columns;
  col_dir_offset = header_size;
  data_offset = u32 (header_size + num_columns * entry_size);
  null_bitmap_offset = end;
  min_row_id = base;
  max_row_id = last_row_id base num_rows;
  create_ts = ts;
  checksum = 0;
}

abbrev pub with_checksum : ℕ → PageHeader → PageHeader
with_checksum n h = record h { checksum = n }

-- What `BuildFromColumns` writes: all but the checksum.
abbrev pub write_all :
    PageHeader → List ColDirEntry → List ColumnInput → List (List ℕ) → List ℕ → List ℕ
write_all h dir used compressed image =
    write_bitmaps h.null_bitmap_offset (bitmap_bytes h.num_rows) used
      (write_columns dir compressed (write_dir header_size dir (write_header h image)))

-- `BuildFromColumns` after the compression: the page, and whether the columns fit it.
abbrev pub build_compressed :
    ℕ
    → List ColumnInput
    → List (List ℕ)
    → ℕ
    → CompressionType
    → ℕ
    → ℕ
    → TableDataPage
    → TableDataPage × Bool
build_compressed num_columns used compressed num_rows k base ts t =
    let begin = u32 (header_size + num_columns * entry_size) in
    let dir = build_dir begin used compressed in
    let end = end_cursor begin compressed in
    let size = u32 (end + u32 (bitmap_bytes num_rows * num_columns)) in
    let h = new_header t.page.page_no num_columns num_rows (code k) end base ts in
    let image = write_all h dir used compressed t.page.bytes in
    let h' = with_checksum (fnv1a image header_size size) h in
    if ltb page_size size then (t, false) else (
      record {
        header = h';
        cols = dir;
        page = record { page_no = t.page.page_no; bytes = write_header h' image };
      },
      true,
    )

-- `BuildFromColumns`; none where the compression throws.
abbrev pub build_from_columns :
    Zstd
    → List ColumnInput
    → ℕ
    → CompressionType
    → ℕ
    → ℕ
    → TableDataPage
    → Option (TableDataPage × Bool)
build_from_columns z cols num_rows k base ts t = do
  let num_columns = u16 (length cols)
  let used = take num_columns cols
  compressed ← compress_all z k used
  some (build_compressed num_columns used compressed num_rows k base ts t)
