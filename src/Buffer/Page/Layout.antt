-- ===== src/Buffer/Page/Layout.antt =====
-- Where `BuildFromColumns` of src/buffer/table_data_page.cpp puts the columns and their bitmaps.
use chicken_db.Base.{
  ℕ, zero, suc, ◌+◌, ◌*◌, ◌<◌, ◌≡◌, refl, sym, ap, ◌∙◌, subst, inl, inr, some, List, [], ◌∷◌, ◌++◌,
  arith, Option-cases, All, length, get_elem?, length-append, take, concat,
}
use chicken_db.Buffer.Bytes.{
  load, store, store-nil, store-append, Holds, Holds-append_left, Holds-append_right,
}
use chicken_db.Buffer.Codec.{Zstd, CompressionType, compress}
use chicken_db.Buffer.Page.{ColumnInput, ColDirEntry, u32}
use chicken_db.Buffer.Page.Build.{
  build_dir, end_cursor, write_columns, write_bitmaps, bitmap_of, compress_all,
}
use chicken_db.Buffer.Page.Header.{EntryFits}

pub end_cursor-total :
    (c : ℕ) (ss : List (List ℕ))
    → c + length (concat ss) < 4294967296
    → end_cursor c ss ≡ c + length (concat ss)
end_cursor-total c [] h = omega arith
end_cursor-total c (s ∷ ss) h =
    let grown = length-append s (concat ss) in
    end_cursor-total (u32 (c + u32 (length s))) ss (omega (arith, h, grown))
    ∙ omega (arith, h, grown)

pub length-build_dir :
    (c : ℕ) (cols : List ColumnInput) (ss : List (List ℕ))
    → length ss ≡ length cols
    → length (build_dir c cols ss) ≡ length cols
length-build_dir c [] [] h = refl
length-build_dir c [] (s ∷ ss) h = refl
length-build_dir c (x ∷ cols) [] h = absurd (omega (arith, h))
length-build_dir c (x ∷ cols) (s ∷ ss) h =
    ap suc (length-build_dir (u32 (c + u32 (length s))) cols ss (omega (arith, h)))

pub write_columns-concat :
    (c : ℕ) (cols : List ColumnInput) (ss : List (List ℕ)) (image : List ℕ)
    → length ss ≡ length cols
    → c + length (concat ss) < 4294967296
    → write_columns (build_dir c cols ss) ss image ≡ store c (concat ss) image
write_columns-concat c [] [] image l h = sym (store-nil c image)
write_columns-concat c [] (s ∷ ss) image l h = absurd (omega (arith, l))
write_columns-concat c (x ∷ cols) [] image l h = absurd (omega (arith, l))
write_columns-concat c (x ∷ cols) (s ∷ ss) image l h =
    let grown = length-append s (concat ss) in
    write_columns-concat (u32 (c + u32 (length s))) cols ss (store c s image) (omega (arith, l))
      (omega (arith, h, grown))
    ∙ ap (λ o. store o (concat ss) (store c s image)) {x = u32 (c + u32 (length s))}
        {y = c + length s} (omega (arith, h, grown))
    ∙ store-append c s (concat ss) image

-- The entry of a column, and its data where the entry says.
pub record Placed (c : ℕ) (cols : List ColumnInput) (ss : List (List ℕ)) (image : List ℕ) (i : ℕ)
    (col : ColumnInput) (s : List ℕ) : Type 0 where
  pub entry : ColDirEntry
  pub entry_at : get_elem? (build_dir c cols ss) i ≡ some entry
  pub entry_raw_size : entry.raw_size ≡ col.raw_size
  pub entry_data : load entry.data_offset entry.compressed_size image ≡ s

first_entry :
    (c : ℕ) (col : ColumnInput) (cols : List ColumnInput) (s : List ℕ) (ss : List (List ℕ))
    (image : List ℕ)
    → c + length (concat (s ∷ ss)) < 4294967296
    → Holds c (concat (s ∷ ss)) image
    → Placed c (col ∷ cols) (s ∷ ss) image 0 col s
first_entry c col cols s ss image h holds =
    let grown = length-append s (concat ss) in
    record {
      entry = record {
        col_id = col.col_id;
        data_offset = c;
        compressed_size = u32 (length s);
        raw_size = col.raw_size;
      };
      entry_at = refl;
      entry_raw_size = refl;
      entry_data =
          ap (λ n. load c n image) {x = u32 (length s)} {y = length s} (omega (arith, h, grown))
          ∙ Holds-append_left c s (concat ss) image holds;
    }

pub column_entry :
    (c : ℕ) (cols : List ColumnInput) (ss : List (List ℕ)) (image : List ℕ) (i : ℕ)
    (col : ColumnInput) (s : List ℕ)
    → c + length (concat ss) < 4294967296
    → Holds c (concat ss) image
    → get_elem? cols i ≡ some col
    → get_elem? ss i ≡ some s
    → Placed c cols ss image i col s
column_entry c [] ss image i col s h holds e f = ground (arith, e)
column_entry c (x ∷ cols) [] image i col s h holds e f = ground (arith, f)
column_entry c (x ∷ cols) (t ∷ ss) image zero col s h holds e f =
    subst (λ d. Placed c (x ∷ cols) (t ∷ ss) image 0 d s) (ground (arith, e))
      (subst (Placed c (x ∷ cols) (t ∷ ss) image 0 x) (ground (arith, f))
        (first_entry c x cols t ss image h holds))
column_entry c (x ∷ cols) (t ∷ ss) image (suc i) col s h holds e f =
    let grown = length-append t (concat ss) in
    let next : u32 (c + u32 (length t)) ≡ c + length t = omega (arith, h, grown) in
    let rest =
      column_entry (u32 (c + u32 (length t))) cols ss image i col s (omega (arith, h, grown))
        (ap (λ o. load o (length (concat ss)) image) next
          ∙ Holds-append_right c t (concat ss) image holds)
        e f in
    record {
      entry = rest.entry;
      entry_at = rest.entry_at;
      entry_raw_size = rest.entry_raw_size;
      entry_data = rest.entry_data;
    }

pub build_dir-EntryFits :
    (c : ℕ) (cols : List ColumnInput) (ss : List (List ℕ))
    → c + length (concat ss) < 4294967296
    → All (λ col. (col.col_id < 4294967296) × (col.raw_size < 4294967296)) cols
    → All EntryFits (build_dir c cols ss)
build_dir-EntryFits c [] ss h a = tt
build_dir-EntryFits c (x ∷ cols) [] h a = tt
build_dir-EntryFits c (x ∷ cols) (s ∷ ss) h a =
    let grown = length-append s (concat ss) in
    (
      record {
        fits_col_id = a.0.0;
        fits_offset = omega (arith, h);
        fits_compressed_size = omega arith;
        fits_raw_size = a.0.1;
      },
      build_dir-EntryFits (u32 (c + u32 (length s))) cols ss (omega (arith, h, grown)) a.1,
    )

-- All bitmaps, as they stand one after another.
abbrev pub bitmaps : ℕ → List ColumnInput → List ℕ
bitmaps n [] = []
bitmaps n (c ∷ cs) = bitmap_of n c ++ bitmaps n cs

abbrev pub BitmapsFit : ℕ → List ColumnInput → Type 0
BitmapsFit n cols = All (λ c. length (bitmap_of n c) ≡ n) cols

suc_times : (i n : ℕ) → suc i * n ≡ n + i * n
suc_times i n = grind arith

pub length-bitmaps :
    (n : ℕ) (cols : List ColumnInput)
    → BitmapsFit n cols
    → length (bitmaps n cols) ≡ length cols * n
length-bitmaps n [] a = omega arith
length-bitmaps n (c ∷ cs) a = omega (
  arith,
  length-append (bitmap_of n c) (bitmaps n cs),
  length-bitmaps n cs a.1,
  suc_times (length cs) n,
  a.0,
)

pub write_bitmaps-concat :
    (dst n : ℕ) (cols : List ColumnInput) (image : List ℕ)
    → BitmapsFit n cols
    → write_bitmaps dst n cols image ≡ store dst (bitmaps n cols) image
write_bitmaps-concat dst n [] image a = sym (store-nil dst image)
write_bitmaps-concat dst n (c ∷ cs) image a =
    write_bitmaps-concat (dst + n) n cs (store dst (bitmap_of n c) image) a.1
    ∙ ap (λ k. store (dst + k) (bitmaps n cs) (store dst (bitmap_of n c) image)) (sym a.0)
    ∙ store-append dst (bitmap_of n c) (bitmaps n cs) image

pub bitmap_placed :
    (dst n : ℕ) (cols : List ColumnInput) (image : List ℕ) (i : ℕ) (col : ColumnInput)
    → BitmapsFit n cols
    → Holds dst (bitmaps n cols) image
    → get_elem? cols i ≡ some col
    → load (dst + i * n) n image ≡ bitmap_of n col
bitmap_placed dst n [] image i col a holds e = ground (arith, e)
bitmap_placed dst n (c ∷ cs) image zero col a holds e =
    ap (λ o. load o n image) {x = dst + 0 * n} {y = dst} (omega arith)
    ∙ ap (λ k. load dst k image) (sym a.0)
    ∙ Holds-append_left dst (bitmap_of n c) (bitmaps n cs) image holds
    ∙ ground (arith, e)
bitmap_placed dst n (c ∷ cs) image (suc i) col a holds e =
    let rest =
      bitmap_placed (dst + length (bitmap_of n c)) n cs image i col a.1
        (Holds-append_right dst (bitmap_of n c) (bitmaps n cs) image holds) e in
    ap (λ o. load o n image) {x = dst + suc i * n} {y = dst + length (bitmap_of n c) + i * n}
      (omega (arith, suc_times i n, a.0))
    ∙ rest

compress_all-cons :
    (z : Zstd) (k : CompressionType) (c : ColumnInput) (cs : List ColumnInput) (ss : List (List ℕ))
    → compress_all z k (c ∷ cs) ≡ some ss
    → (s : List ℕ) × ((t : List (List ℕ)) × ((compress z k (take c.raw_size c.raw) ≡ some s)
          × ((compress_all z k cs ≡ some t) × (ss ≡ s ∷ t))))
compress_all-cons z k c cs ss h = elim (Option-cases (compress z k (take c.raw_size c.raw))) [
  | inl e ↦ ground (arith, h, e)
  | inr (s, e) ↦ elim (Option-cases (compress_all z k cs)) [
    | inl f ↦ ground (arith, h, e, f)
    | inr (t, f) ↦ (s, (t, (e, (f, ground (arith, h, e, f)))))
  ]
]

pub compress_all-length :
    (z : Zstd) (k : CompressionType) (cols : List ColumnInput) (ss : List (List ℕ))
    → compress_all z k cols ≡ some ss
    → length ss ≡ length cols
compress_all-length z k [] ss h = ground (arith, h)
compress_all-length z k (c ∷ cs) ss h =
    let (s, (t, (e, (f, q)))) = compress_all-cons z k c cs ss h in
    ap length q ∙ ap suc (compress_all-length z k cs t f)

-- What the compression gave for column `i`.
pub compress_all-column :
    (z : Zstd) (k : CompressionType) (cols : List ColumnInput) (ss : List (List ℕ)) (i : ℕ)
    (col : ColumnInput)
    → compress_all z k cols ≡ some ss
    → get_elem? cols i ≡ some col
    → (s : List ℕ) × ((get_elem? ss i ≡ some s)
        × (compress z k (take col.raw_size col.raw) ≡ some s))
compress_all-column z k [] ss i col h e = ground (arith, e)
compress_all-column z k (c ∷ cs) ss zero col h e =
    let (s, (t, (f, (g, q)))) = compress_all-cons z k c cs ss h in
    let same : c ≡ col = ground (arith, e) in
    (
      s,
      (ap (λ xs. get_elem? xs 0) q, ap (λ d. compress z k (take d.raw_size d.raw)) (sym same) ∙ f),
    )
compress_all-column z k (c ∷ cs) ss (suc i) col h e =
    let (s, (t, (f, (g, q)))) = compress_all-cons z k c cs ss h in
    let (u, (at, made)) = compress_all-column z k cs t i col g e in
    (u, (ap (λ xs. get_elem? xs (suc i)) q ∙ at, made))
