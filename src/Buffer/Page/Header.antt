-- ===== src/Buffer/Page/Header.antt =====
-- src/buffer/table_data_page.cpp: `InitHeader` and `InitCols` against `WriteHeader` and the
-- directory that `BuildFromColumns` writes.
use chicken_db.Base.{
  ℕ, ◌+◌, ◌*◌, ◌≤◌, ◌<◌, ◌≡◌, refl, sym, ap, ◌∙◌, List, [], ◌∷◌, ◌++◌, arith, All, length, concat,
}
use chicken_db.Buffer.Bytes.{
  le, from_le, load, store, from_le-le, store-nil, store-append, Holds, load-Holds,
  Holds-append_left, Holds-append_right, bytes_bound,
}
use chicken_db.Buffer.Page.{PageHeader, ColDirEntry, init_header, init_cols}
use chicken_db.Buffer.Page.Build.{header_fields, write_fields, write_dir, entry_fields}

pub write_fields-concat :
    (off : ℕ) (fs : List (List ℕ)) (image : List ℕ)
    → write_fields off fs image ≡ store off (concat fs) image
write_fields-concat off [] image = sym (store-nil off image)
write_fields-concat off (f ∷ fs) image =
    write_fields-concat (off + length f) fs (store off f image)
    ∙ store-append off f (concat fs) image

-- Each field fits its width.
pub record HeaderFits (h : PageHeader) : Type 0 where
  pub fits_magic : h.magic < bytes_bound 4
  pub fits_version : h.version < bytes_bound 2
  pub fits_page_type : h.page_type < bytes_bound 1
  pub fits_compression : h.compression < bytes_bound 1
  pub fits_page_id : h.page_id < bytes_bound 8
  pub fits_num_rows : h.num_rows < bytes_bound 4
  pub fits_num_columns : h.num_columns < bytes_bound 2
  pub fits_col_dir_offset : h.col_dir_offset < bytes_bound 2
  pub fits_data_offset : h.data_offset < bytes_bound 4
  pub fits_null_bitmap_offset : h.null_bitmap_offset < bytes_bound 4
  pub fits_min_row_id : h.min_row_id < bytes_bound 8
  pub fits_max_row_id : h.max_row_id < bytes_bound 8
  pub fits_create_ts : h.create_ts < bytes_bound 8
  pub fits_checksum : h.checksum < bytes_bound 4

abbrev pub header_bytes : PageHeader → List ℕ
header_bytes h = concat (header_fields h)

-- A field of a record that stands at `off`.
pub field_at :
    (off k n w : ℕ) (bs image : List ℕ)
    → Holds off bs image
    → k + n ≤ length bs
    → load k n bs ≡ le n w
    → w < bytes_bound n
    → from_le (load (off + k) n image) ≡ w
field_at off k n w bs image h l e b =
    ap from_le (load-Holds off k n bs image h l ∙ e) ∙ from_le-le n w b

pub init_header-Holds :
    (h : PageHeader) (image : List ℕ)
    → HeaderFits h
    → Holds 0 (header_bytes h) image
    → init_header image ≡ h
init_header-Holds h image f holds =
    let at = λ (k n w : ℕ). field_at 0 k n w (header_bytes h) image holds in
    λ i. record {
      magic = at 0 4 h.magic (omega arith) refl f.fits_magic i;
      version = at 4 2 h.version (omega arith) refl f.fits_version i;
      page_type = at 6 1 h.page_type (omega arith) refl f.fits_page_type i;
      compression = at 7 1 h.compression (omega arith) refl f.fits_compression i;
      page_id = at 8 8 h.page_id (omega arith) refl f.fits_page_id i;
      num_rows = at 16 4 h.num_rows (omega arith) refl f.fits_num_rows i;
      num_columns = at 20 2 h.num_columns (omega arith) refl f.fits_num_columns i;
      col_dir_offset = at 22 2 h.col_dir_offset (omega arith) refl f.fits_col_dir_offset i;
      data_offset = at 24 4 h.data_offset (omega arith) refl f.fits_data_offset i;
      null_bitmap_offset =
          at 28 4 h.null_bitmap_offset (omega arith) refl f.fits_null_bitmap_offset i;
      min_row_id = at 32 8 h.min_row_id (omega arith) refl f.fits_min_row_id i;
      max_row_id = at 40 8 h.max_row_id (omega arith) refl f.fits_max_row_id i;
      create_ts = at 48 8 h.create_ts (omega arith) refl f.fits_create_ts i;
      checksum = at 56 4 h.checksum (omega arith) refl f.fits_checksum i;
    }

pub record EntryFits (e : ColDirEntry) : Type 0 where
  pub fits_col_id : e.col_id < bytes_bound 4
  pub fits_offset : e.data_offset < bytes_bound 4
  pub fits_compressed_size : e.compressed_size < bytes_bound 4
  pub fits_raw_size : e.raw_size < bytes_bound 4

abbrev pub entry_bytes : ColDirEntry → List ℕ
entry_bytes e = concat (entry_fields e)

abbrev pub dir_bytes : List ColDirEntry → List ℕ
dir_bytes [] = []
dir_bytes (e ∷ es) = entry_bytes e ++ dir_bytes es

pub length-dir_bytes : (es : List ColDirEntry) → length (dir_bytes es) ≡ length es * 16
length-dir_bytes [] = refl
length-dir_bytes (e ∷ es) = omega (arith, length-dir_bytes es)

pub write_dir-concat :
    (off : ℕ) (es : List ColDirEntry) (image : List ℕ)
    → write_dir off es image ≡ store off (dir_bytes es) image
write_dir-concat off [] image = sym (store-nil off image)
write_dir-concat off (e ∷ es) image =
    write_dir-concat (off + 16) es (write_fields off (entry_fields e) image)
    ∙ ap (store (off + 16) (dir_bytes es)) (write_fields-concat off (entry_fields e) image)
    ∙ store-append off (entry_bytes e) (dir_bytes es) image

init_cols-entry :
    (off : ℕ) (e : ColDirEntry) (image : List ℕ)
    → EntryFits e
    → Holds off (entry_bytes e) image
    → init_cols 1 off image ≡ e ∷ []
init_cols-entry off e image f holds =
    let at = λ (k n w : ℕ). field_at off k n w (entry_bytes e) image holds in
    λ i.
      record {
        col_id =
            (ap (λ o. from_le (load o 4 image)) {x = off} {y = off + 0} (omega arith)
                ∙ at 0 4 e.col_id (omega arith) refl f.fits_col_id)
              i;
        data_offset = at 4 4 e.data_offset (omega arith) refl f.fits_offset i;
        compressed_size = at 8 4 e.compressed_size (omega arith) refl f.fits_compressed_size i;
        raw_size = at 12 4 e.raw_size (omega arith) refl f.fits_raw_size i;
      }
      ∷ []

pub init_cols-Holds :
    (off : ℕ) (es : List ColDirEntry) (image : List ℕ)
    → All EntryFits es
    → Holds off (dir_bytes es) image
    → init_cols (length es) off image ≡ es
init_cols-Holds off [] image f holds = refl
init_cols-Holds off (e ∷ es) image f holds =
    let first =
      init_cols-entry off e image f.0
        (Holds-append_left off (entry_bytes e) (dir_bytes es) image holds) in
    let rest =
      init_cols-Holds (off + 16) es image f.1
        (Holds-append_right off (entry_bytes e) (dir_bytes es) image holds) in
    ap (λ xs. xs ++ init_cols (length es) (off + 16) image) first ∙ ap (λ xs. e ∷ xs) rest
