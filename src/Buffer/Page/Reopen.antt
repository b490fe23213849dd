-- ===== src/Buffer/Page/Reopen.antt =====
-- What a page of src/buffer/table_data_page.cpp gives back after it was built.
use chicken_db.Base.{
  ℕ, ◌+◌, ◌-◌, ◌*◌, ◌≤◌, ◌≡◌, refl, sym, ap, ◌∙◌, subst, true, false, some, List, arith, ltb, ◌>>=◌,
  length, get_elem?, concat, take_all,
}
use chicken_db.Buffer.Page.{
  u16, page_size, row_count, is_data_page, init_cols, verify_checksum, get_column_validity,
  get_column_raw, read_cols, open_page, init_header, ColumnInput, ColDirEntry, PageHeader,
  TableDataPage, bitmap_bytes, u32, fnv1a, fnv_loop,
}
use chicken_db.Buffer.Page.Build.{
  build_compressed, build_from_columns, bitmap_of, build_dir, end_cursor, compress_all, write_all,
  write_header, new_header, with_checksum, header_fields,
}
use chicken_db.Buffer.Page.Layout.{
  column_entry, compress_all-column, build_dir-EntryFits, bitmap_placed, length-build_dir,
  compress_all-length, bitmaps, length-bitmaps, end_cursor-total,
}
use chicken_db.Buffer.Codec.{
  codec_of-code, decompress-compress, compress, Zstd, CompressionType, code, IsLossless,
}
use chicken_db.Buffer.Bytes.{four-Blocks, load-store_above, load, store, Blocks}
use chicken_db.Buffer.Page.Header.{
  init_cols-Holds, init_header-Holds, length-dir_bytes, HeaderFits, header_bytes, dir_bytes,
  write_fields-concat,
}
use chicken_db.Buffer.Page.Parts.{
  IsInput, page_bytes, fnv_loop-bound, last_row_id-bound, code-bound, write_all-store,
  column-decompressed, All-at, checked, within, if_false,
}

module _ (z : Zstd) (lossless : IsLossless z) (k : CompressionType) (cols : List ColumnInput)
    (num_rows base ts : ℕ) (t : TableDataPage) (ss : List (List ℕ))
    (input : IsInput cols num_rows base ts t.page) (made : compress_all z k cols ≡ some ss)
    (room : page_bytes cols ss num_rows ≤ 262144) where
  abbrev begin : ℕ
  begin = u32 (64 + length cols * 16)

  abbrev dir : List ColDirEntry
  dir = build_dir begin cols ss

  abbrev end : ℕ
  end = end_cursor begin ss

  abbrev size : ℕ
  size = u32 (end + u32 (bitmap_bytes num_rows * length cols))

  abbrev plain : PageHeader
  plain = new_header t.page.page_no (length cols) num_rows (code k) end base ts

  abbrev image : List ℕ
  image = write_all plain dir cols ss t.page.bytes

  abbrev head : PageHeader
  head = with_checksum (fnv1a image 64 size) plain

  abbrev built : TableDataPage
  built = record {
    header = head;
    cols = dir;
    page = record { page_no = t.page.page_no; bytes = write_header head image };
  }

  begin_at : begin ≡ 64 + length cols * 16
  begin_at = omega (arith, input.few_columns)

  end_at : end ≡ 64 + length cols * 16 + length (concat ss)
  end_at = end_cursor-total begin ss (omega (arith, begin_at, room)) ∙ omega (arith, begin_at)

  size_at : size ≡ page_bytes cols ss num_rows
  size_at = omega (arith, end_at, room)

  bits_length : length (bitmaps (bitmap_bytes num_rows) cols) ≡ bitmap_bytes num_rows * length cols
  bits_length = grind (arith, length-bitmaps (bitmap_bytes num_rows) cols input.bitmap_sizes)

  blocks :
      Blocks 64 begin end
        (header_bytes head)
        (dir_bytes dir)
        (concat ss)
        (bitmaps (bitmap_bytes num_rows) cols)
        built.page.bytes
  blocks =
      let lens = compress_all-length z k cols ss made in
      let dirs = length-dir_bytes dir in
      let rows = length-build_dir begin cols ss lens in
      subst
        (λ i.
          Blocks 64 begin end (header_bytes head) (dir_bytes dir) (concat ss)
            (bitmaps (bitmap_bytes num_rows) cols) i)
        (sym (
          write_fields-concat 0 (header_fields head) image
          ∙ ap (store 0 (header_bytes head)) (
              write_all-store plain begin cols ss t.page.bytes lens (omega (arith, begin_at, room))
                input.bitmap_sizes)))
        (four-Blocks 64 begin end (header_bytes plain) (header_bytes head) (dir_bytes dir)
          (concat ss) (bitmaps (bitmap_bytes num_rows) cols) t.page.bytes (omega arith)
          (omega (arith, dirs, rows, begin_at)) (omega (arith, begin_at, end_at))
          (omega (arith, end_at, bits_length, room, input.whole_page)))

  head_fits : HeaderFits head
  head_fits = record {
    fits_magic = omega arith;
    fits_version = omega arith;
    fits_page_type = omega arith;
    fits_compression = code-bound k;
    fits_page_id = input.small_page_no;
    fits_num_rows = omega (arith, input.few_rows);
    fits_num_columns = input.few_columns;
    fits_col_dir_offset = omega arith;
    fits_data_offset = omega (arith, begin_at, room);
    fits_null_bitmap_offset = omega (arith, end_at, room);
    fits_min_row_id = input.small_base;
    fits_max_row_id = last_row_id-bound base num_rows input.small_base;
    fits_create_ts = input.small_ts;
    fits_checksum = fnv_loop-bound (load 64 (size - 64) image) 2166136261 (omega arith);
  }

  header_again : init_header built.page.bytes ≡ head
  header_again = init_header-Holds head built.page.bytes head_fits blocks.holds_head

  cols_again : read_cols head built.page.bytes ≡ dir
  cols_again =
      let lens = compress_all-length z k cols ss made in
      ap (λ n. init_cols n 64 built.page.bytes) (sym (length-build_dir begin cols ss lens))
      ∙ init_cols-Holds 64 dir built.page.bytes
          (build_dir-EntryFits begin cols ss (omega (arith, begin_at, room)) input.small_columns)
          blocks.holds_dir

  built-open_page : open_page built.page ≡ built
  built-open_page =
      let cols_path = ap (λ h. read_cols h built.page.bytes) header_again ∙ cols_again in
      λ i. record { header = header_again i; cols = cols_path i; page = built.page }

  built-verify_checksum : verify_checksum built ≡ true
  built-verify_checksum =
      let kept : fnv1a built.page.bytes 64 size ≡ fnv1a image 64 size =
        ap (λ bs. fnv_loop bs 2166136261)
          (ap (load 64 (size - 64)) (write_fields-concat 0 (header_fields head) image)
            ∙ load-store_above 64 (size - 64) 0 (header_bytes head) image (omega arith)) in
      checked (fnv1a built.page.bytes 64 size) (fnv1a image 64 size) kept

  built-get_column_raw :
      (i : ℕ) (col : ColumnInput)
      → get_elem? cols i ≡ some col
      → get_column_raw z i built ≡ some col.raw
  built-get_column_raw i col e =
      let (s, (at, coded)) = compress_all-column z k cols ss i col made e in
      let placed =
        column_entry begin cols ss built.page.bytes i col s (omega (arith, begin_at, room))
          blocks.holds_cols e at in
      let exact = All-at (λ c. length c.raw ≡ c.raw_size) cols i col input.raw_sizes e in
      column-decompressed z i built k s col.raw placed.entry placed.entry_at (codec_of-code k)
        placed.entry_data (placed.entry_raw_size ∙ sym exact)
        (decompress-compress z k col.raw s lossless
          (ap (compress z k) (sym (take_all col.raw_size col.raw exact)) ∙ coded))

  built-get_column_validity :
      (i : ℕ) (col : ColumnInput)
      → get_elem? cols i ≡ some col
      → get_column_validity i built ≡ bitmap_of (bitmap_bytes num_rows) col
  built-get_column_validity i col e =
      bitmap_placed end (bitmap_bytes num_rows) cols built.page.bytes i col input.bitmap_sizes
        blocks.holds_bits e

  built-returned : build_from_columns z cols num_rows k base ts t ≡ some (built, true)
  built-returned =
      let build = λ (n : ℕ) (used : List ColumnInput) (made : List (List ℕ)).
        some (build_compressed n used made num_rows k base ts t) in
      let count : u16 (length cols) ≡ length cols = omega (arith, input.few_columns) in
      ap (λ used. compress_all z k used >>= build (u16 (length cols)) used)
        (take_all (u16 (length cols)) cols (sym count))
      ∙ ap (λ n. compress_all z k cols >>= build n cols) count
      ∙ ap (λ o. o >>= build (length cols) cols) made
      ∙ ap some (
          if_false (ltb page_size size) (t, false) (built, true)
            (within size (omega (arith, size_at, room))))

-- Columns that are well-formed, whose compression succeeds and which take at most the bytes of a
-- page, are written by `BuildFromColumns`, which answers true. The page that is opened again has
-- the state that was built, is a page of data, passes its checksum and has the number of rows that
-- was given; each column gives back its bytes and its bitmap, all ones where none was given.
pub build_from_columns-reopened :
    (z : Zstd) (k : CompressionType) (cols : List ColumnInput) (num_rows base ts : ℕ)
    (t : TableDataPage) (ss : List (List ℕ))
    → IsLossless z
    → IsInput cols num_rows base ts t.page
    → compress_all z k cols ≡ some ss
    → page_bytes cols ss num_rows ≤ 262144
    → (t' : TableDataPage) × ((build_from_columns z cols num_rows k base ts t ≡ some (t', true))
        × ((open_page t'.page ≡ t')
            × ((is_data_page t' ≡ true)
                × ((verify_checksum t' ≡ true)
                    × ((row_count t' ≡ num_rows)
                        × ((i : ℕ) (col : ColumnInput)
                            → get_elem? cols i ≡ some col
                            → (get_column_raw z i t' ≡ some col.raw)
                              × (get_column_validity i t'
                                  ≡ bitmap_of (bitmap_bytes num_rows) col)))))))
build_from_columns-reopened z k cols num_rows base ts t ss lossless input made room = (
  built z lossless k cols num_rows base ts t ss input made room,
  (
    built-returned z lossless k cols num_rows base ts t ss input made room,
    (
      built-open_page z lossless k cols num_rows base ts t ss input made room,
      (
        refl,
        (
          built-verify_checksum z lossless k cols num_rows base ts t ss input made room,
          (
            refl,
            λ i col e. (
              built-get_column_raw z lossless k cols num_rows base ts t ss input made room i col e,
              built-get_column_validity z lossless k cols num_rows base ts t ss input made room i
                  col e,
            ),
          ),
        ),
      ),
    ),
  ),
)
