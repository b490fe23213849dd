-- ===== src/Executor/Sort/External/Runs.antt =====
-- What the sort by runs gives (src/planner/physical/physical_sort_operator.cpp).
use chicken_db.Base.{
  ℕ, ◌+◌, ◌≡◌, refl, sym, ap, ◌∙◌, subst, inl, inr, Bool, false, some, List, [], ◌∷◌, ◌++◌, map,
  append_assoc, arith, leb, Bool-cases, All, length, concat,
}
use chicken_db.Executor.Sort.{
  Doubles, ColumnType, number, double, varchar, Value, Field, int_value, double_value, string_value,
  RowChunk, Row, cell_of, materialize, emit_row, less, resolve, stored_cell,
}
use chicken_db.Executor.Sort.External.{
  cut_runs, run_files, file_row, any_varlen, external_sort, k_run_rows,
}
use chicken_db.Executor.Sort.External.Merge.{merge_runs_lem}
use chicken_db.Executor.Sort.Order.{Alike, less-WeakOrder}
use chicken_db.Executor.Sort.Rows.{
  CastsBack, Conforms, all_rows, materialize-cells_of, strings_of, All-Alike, IsRead, All-IsRead,
  emit-Shuffle, gives, emit_rows-gives, no_nulls, stored_cell-is_str,
}
use chicken_db.Executor.Sort.StdSort.{Sorter, InOrder}
use chicken_db.Base.Shuffle.{
  Shuffle, done, chain, Shuffle-All, Shuffle-flip, Shuffle-append, Shuffle-length, Shuffle-eq,
  Shuffle-perm,
}
use mathlib.Core.List.{Perm}
use chicken_db.Executor.Sort.Precedes.{precedes, InOrder-precedes, All-no_nulls}
use chicken_db.Executor.Sort.Columns.{Named, resolve-Named}

module _ {A : Type 0} (before : A → A → Bool) (sort : List A → List A)
    (sort_perm : (xs : List A) → Shuffle (sort xs) xs) where
  -- The runs have the rows, each as often.
  cut_runs-Shuffle :
      (run_rows : ℕ) (buf rows : List A)
      → Shuffle (concat (cut_runs before sort run_rows buf rows)) (buf ++ rows)
  unfolding cut_runs
  cut_runs-Shuffle run_rows [] [] = done []
  cut_runs-Shuffle run_rows (b ∷ buf) [] = Shuffle-append (sort_perm (b ∷ buf)) (done [])
  cut_runs-Shuffle run_rows buf (row ∷ rows) =
      let more = append_assoc buf (row ∷ []) rows in
      elim (Bool-cases (leb run_rows (length (buf ++ row ∷ [])))) [
        | inl l ↦ rw l (
            chain (Shuffle-append (sort_perm (buf ++ row ∷ [])) (cut_runs-Shuffle run_rows [] rows))
              (Shuffle-eq more))
        | inr l ↦ rw l (chain (cut_runs-Shuffle run_rows (buf ++ row ∷ []) rows) (Shuffle-eq more))
      ]

  All-append_parts : (Q : A → Type 0) (xs ys : List A) → All Q (xs ++ ys) → All Q xs × All Q ys
  All-append_parts Q [] ys a = (tt, a)
  All-append_parts Q (x ∷ xs) ys a =
      let rest = All-append_parts Q xs ys a.1 in ((a.0, rest.0), rest.1)

  module _ (P : A → Type 0)
      (sort_InOrder : (xs : List A) → All P xs → InOrder before (sort xs)) where
    cut_runs-InOrder :
        (run_rows : ℕ) (buf rows : List A)
        → All P (buf ++ rows)
        → All (InOrder before) (cut_runs before sort run_rows buf rows)
    unfolding cut_runs
    cut_runs-InOrder run_rows [] [] a = tt
    cut_runs-InOrder run_rows (b ∷ buf) [] a =
        (sort_InOrder (b ∷ buf) (All-append_parts P (b ∷ buf) [] a).0, tt)
    cut_runs-InOrder run_rows buf (row ∷ rows) a =
        let a' = subst (All P) (sym (append_assoc buf (row ∷ []) rows)) a in
        let parts = All-append_parts P (buf ++ row ∷ []) rows a' in
        elim (Bool-cases (leb run_rows (length (buf ++ row ∷ [])))) [
          | inl l ↦
              rw l
                (sort_InOrder (buf ++ row ∷ []) parts.0, cut_runs-InOrder run_rows [] rows parts.1)
          | inr l ↦ rw l (cut_runs-InOrder run_rows (buf ++ row ∷ []) rows a')
        ]

module _ (N : Doubles) where
  file_cell :
      (v : Value (N.Double))
      → (stored_cell N v).is_str ≡ false
      → record { num = (stored_cell N v).num; str = []; is_str = false } ≡ stored_cell N v
  file_cell (int_value n) h = refl
  file_cell (double_value d) h = refl
  file_cell (string_value s) h = ground (arith, h)

  file_row-cells :
      (types : List ColumnType) (row : List (Field (N.Double)))
      → any_varlen types ≡ false
      → Conforms N types row
      → file_row N (map (cell_of N) row) ≡ map (cell_of N) row
  file_row-cells [] [] h c = refl
  file_row-cells (number ∷ types) (f ∷ row) h c = λ i.
      file_cell f.stored (stored_cell-is_str N number f.stored c.0) i
      ∷ file_row-cells types row h c.1 i
  file_row-cells (double ∷ types) (f ∷ row) h c = λ i.
      file_cell f.stored (stored_cell-is_str N double f.stored c.0) i
      ∷ file_row-cells types row h c.1 i
  file_row-cells (varchar ∷ types) (f ∷ row) h c = ground (arith, h)
  file_row-cells [] (f ∷ row) h c = absurd c
  file_row-cells (t ∷ types) [] h c = absurd c

  file_row-IsRead :
      (casts : CastsBack N) (types : List ColumnType) (cells : Row N)
      → any_varlen types ≡ false
      → IsRead N casts types cells
      → file_row N cells ≡ cells
  file_row-IsRead casts types cells h r =
      ap (file_row N) r.2 ∙ file_row-cells types r.0 h r.1 ∙ sym r.2

  file_rows-IsRead :
      (casts : CastsBack N) (types : List ColumnType) (run : List (Row N))
      → any_varlen types ≡ false
      → All (IsRead N casts types) run
      → map (file_row N) run ≡ run
  file_rows-IsRead casts types [] h a = refl
  file_rows-IsRead casts types (r ∷ run) h a =
      λ i. file_row-IsRead casts types r h a.0 i ∷ file_rows-IsRead casts types run h a.1 i

  All-file_rows :
      (casts : CastsBack N) (types : List ColumnType) (runs : List (List (Row N)))
      → any_varlen types ≡ false
      → All (IsRead N casts types) (concat runs)
      → map (map (file_row N)) runs ≡ runs
  All-file_rows casts types [] h a = refl
  All-file_rows casts types (run ∷ runs) h a =
      let parts = split_read run (concat runs) a in
      λ i. file_rows-IsRead casts types run h parts.0 i ∷ All-file_rows casts types runs h parts.1 i
    where
      split_read :
          (xs ys : List (Row N))
          → All (IsRead N casts types) (xs ++ ys)
          → All (IsRead N casts types) xs × All (IsRead N casts types) ys
      split_read [] ys a = (tt, a)
      split_read (x ∷ xs) ys a = let rest = split_read xs ys a.1 in ((a.0, rest.0), rest.1)

module _ (N : Doubles) (casts : CastsBack N) (sorter : Sorter (Row N))
    (chunk : RowChunk (Field (N.Double))) (chunks : List (RowChunk (Field (N.Double))))
    (cols sort_idx : List ℕ) (desc : List Bool) (fixed : any_varlen chunk.types ≡ false)
    (found : resolve N chunk.col_ids cols ≡ some sort_idx)
    (typed : All (Conforms N chunk.types) (all_rows N (chunk ∷ chunks))) where
  -- Without columns of strings the sort by runs ends and gives the rows of its child, each as
  -- often, with the stored value in the place of each NULL, and none precedes an earlier one: in
  -- the first sort column in which two rows differ the smaller precedes, or the greater if the
  -- column descends. The sort columns are found in the first chunk, where they have the ids that
  -- ORDER BY names, the rows have values of its types stored, and a double holds every int32_t and
  -- keeps their order. std::sort keeps the promises of StdSort.
  pub external_sort_lem :
      (out : List (List (Field (N.Double)))) × (external_sort N sorter cols desc (chunk ∷ chunks)
        ≡ gives N out)
      × Perm out (no_nulls N (all_rows N (chunk ∷ chunks)))
      × Named chunk.col_ids cols sort_idx
      × InOrder (precedes N sort_idx desc) out
  unfolding external_sort run_files
  external_sort_lem =
      let before = less N sort_idx desc in
      let alike = Alike N (strings_of chunk.types) in
      let weak = less-WeakOrder N (strings_of chunk.types) sort_idx desc in
      let rows = materialize N (chunk ∷ chunks) in
      let cells = materialize-cells_of N (chunk ∷ chunks) in
      let all_alike =
        subst (All alike) (sym cells)
          (All-Alike N chunk.types (all_rows N (chunk ∷ chunks)) typed) in
      let runs = cut_runs before (sorter.sort before) k_run_rows [] rows in
      let moved =
        cut_runs-Shuffle before (sorter.sort before) (sorter.sort_perm before) k_run_rows [] rows in
      let read = Shuffle-All (IsRead N casts chunk.types) (Shuffle-flip moved) (
        subst (All (IsRead N casts chunk.types)) (sym cells)
          (All-IsRead N casts chunk.types (all_rows N (chunk ∷ chunks)) typed)) in
      let (merged, e, s, order) =
        merge_runs_lem alike before weak (length rows + 1) runs
          (Shuffle-All alike (Shuffle-flip moved) all_alike)
          (cut_runs-InOrder before (sorter.sort before) (sorter.sort_perm before) alike
            (λ xs a. sorter.sort_InOrder alike before xs weak a) k_run_rows [] rows all_alike)
          (omega (arith, Shuffle-length moved)) in
      let emitted =
        emit-Shuffle N casts chunk.types (all_rows N (chunk ∷ chunks)) merged typed
          (chain s (chain moved (Shuffle-eq cells))) in
      (
        map (emit_row N chunk.types) merged,
        rw (external_sort, fixed, found, All-file_rows N casts chunk.types runs fixed read, e)
            (emit_rows-gives N chunk.types merged),
        Shuffle-perm emitted.0,
        resolve-Named N chunk.col_ids cols sort_idx found,
        InOrder-precedes N casts chunk.types sort_idx desc (map (emit_row N chunk.types) merged)
            (Shuffle-All (Conforms N chunk.types) (Shuffle-flip emitted.0)
              (All-no_nulls N chunk.types (all_rows N (chunk ∷ chunks)) typed))
            (subst (InOrder before) (sym emitted.1) order),
      )
