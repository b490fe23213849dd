-- ===== src/Buffer/Page/Tests.antt =====
-- Concrete runs of the theorems on src/buffer/table_data_page.cpp.
use chicken_db.Base.{ℕ, ◌≡◌, refl, true, none, some, List, [], ◌∷◌, arith, get_elem?}
use chicken_db.Buffer.Codec.{Zstd, zstd}
use chicken_db.Buffer.Page.{
  ColumnInput, Page, TableDataPage, bitmap_bytes, open_page, is_data_page, verify_checksum,
  row_count, get_column_raw, get_column_validity,
}
use chicken_db.Buffer.Page.Build.{bitmap_of, build_from_columns}
use chicken_db.Buffer.Page.Parts.{IsInput}
use chicken_db.Buffer.Page.Reopen.{build_from_columns-reopened}
use chicken_db.Executor.VarColumn.{zeros}
use chicken_db.Executor.VarColumn.Reads.{length-zeros}

-- A codec that puts a mark in front.
abbrev unmark : List ℕ → List ℕ
unmark [] = []
unmark (x ∷ xs) = xs

abbrev marked : Zstd
marked = record { zstd_compress = λ s. some (40 ∷ s); zstd_decompress = λ n s. some (unmark s) }

abbrev numbers : ColumnInput
numbers = record {
  col_id = 0;
  raw = 7 ∷ 0 ∷ 0 ∷ 0 ∷ 9 ∷ 0 ∷ 0 ∷ 0 ∷ [];
  raw_size = 8;
  validity = some (1 ∷ []);
}

abbrev flags : ColumnInput
flags = record { col_id = 1; raw = 1 ∷ 0 ∷ []; raw_size = 2; validity = none }

blank : List ℕ
blank = zeros 262144

abbrev fresh : Page
fresh = record { page_no = 3; bytes = blank }

blank-length : IsInput (numbers ∷ flags ∷ []) 2 10 5 fresh
unfolding blank
blank-length = record {
  whole_page = length-zeros 262144;
  few_columns = omega arith;
  few_rows = omega arith;
  small_page_no = omega arith;
  small_base = omega arith;
  small_ts = omega arith;
  small_columns = ((omega arith, omega arith), ((omega arith, omega arith), tt));
  raw_sizes = (refl, (refl, tt));
  bitmap_sizes = (refl, (refl, tt));
}

build_from_columns-reopened_example :
    (t' : TableDataPage) × ((build_from_columns marked
          (numbers ∷ flags ∷ [])
          2
          zstd
          10
          5
          (open_page fresh)
        ≡ some (t', true))
      × ((open_page t'.page ≡ t')
          × ((is_data_page t' ≡ true)
              × ((verify_checksum t' ≡ true)
                  × ((row_count t' ≡ 2)
                      × ((i : ℕ) (col : ColumnInput)
                          → get_elem? (numbers ∷ flags ∷ []) i ≡ some col
                          → (get_column_raw marked i t' ≡ some col.raw)
                            × (get_column_validity i t' ≡ bitmap_of (bitmap_bytes 2) col)))))))
build_from_columns-reopened_example =
    build_from_columns-reopened marked zstd (numbers ∷ flags ∷ []) 2 10 5 (open_page fresh)
      ((40 ∷ 7 ∷ 0 ∷ 0 ∷ 0 ∷ 9 ∷ 0 ∷ 0 ∷ 0 ∷ []) ∷ (40 ∷ 1 ∷ 0 ∷ []) ∷ [])
      (λ s c h. ground (arith, h)) blank-length refl (omega arith)
