-- ===== src/Executor/Sort/Memory.antt =====
-- What ORDER BY in memory and for the first rows give
-- (src/planner/physical/physical_sort_operator.cpp).
use chicken_db.Base.{
  ℕ, min, ◌≡◌, sym, ap, ◌∙◌, subst, inl, inr, Bool, some, List, [], ◌∷◌, ◌++◌, map, append-nil,
  arith, ltb, Bool-cases, All, length, drop, take-drop, length-take, length-map,
}
use mathlib.Core.List.{Perm}
use chicken_db.Base.Shuffle.{
  Shuffle-length, Shuffle, Shuffle-perm, Shuffle-eq, chain, Shuffle-All, Shuffle-flip,
}
use chicken_db.Executor.Sort.{
  cell_of, top_n, top_rows, Doubles, Field, RowChunk, Row, cells_of, materialize, emit_row, less,
  resolve, in_memory_sort,
}
use chicken_db.Executor.Sort.StdSort.{NotAfter, Sorter, InOrder}
use chicken_db.Executor.Sort.Order.{Alike, less-WeakOrder}
use chicken_db.Executor.Sort.Columns.{Named, resolve-Named}
use chicken_db.Executor.Sort.Rows.{
  emit-Shuffle_kept, CastsBack, Conforms, all_rows, materialize-cells_of, strings_of, All-Alike,
  emit-Shuffle, gives, emit_rows-gives, no_nulls,
}
use chicken_db.Executor.Sort.Precedes.{precedes, InOrder-precedes, NotAfter-precedes, All-no_nulls}

All-append_both :
    {A : Type 0} (P : A → Type 0) (xs ys : List A) → All P (xs ++ ys) → All P xs × All P ys
All-append_both P [] ys a = (tt, a)
All-append_both P (x ∷ xs) ys a = let rest = All-append_both P xs ys a.1 in ((a.0, rest.0), rest.1)

module _ (N : Doubles) (casts : CastsBack N) (sorter : Sorter (Row N))
    (chunk : RowChunk (Field (N.Double))) (chunks : List (RowChunk (Field (N.Double))))
    (cols sort_idx : List ℕ) (desc : List Bool)
    (found : resolve N chunk.col_ids cols ≡ some sort_idx)
    (typed : All (Conforms N chunk.types) (all_rows N (chunk ∷ chunks))) where
  -- ORDER BY in memory gives the rows of its child, each as often, with the stored value in the
  -- place of each NULL, and none precedes an earlier one: in the first sort column in which two
  -- rows differ, integers stand by size, doubles by their order and strings by their bytes, the
  -- smaller first in a column that ascends and the greater first in one that descends. The sort
  -- columns are found in the first chunk, where they have the ids that ORDER BY names, the rows
  -- have values of its types stored, and a double holds every int32_t and keeps their order.
  -- std::sort keeps the promises of StdSort.
  pub in_memory_sort_lem :
      (out : List (List (Field (N.Double)))) × (in_memory_sort N sorter cols desc (chunk ∷ chunks)
        ≡ gives N out)
      × Perm out (no_nulls N (all_rows N (chunk ∷ chunks)))
      × Named chunk.col_ids cols sort_idx
      × InOrder (precedes N sort_idx desc) out
  unfolding in_memory_sort
  in_memory_sort_lem =
      let cells = materialize-cells_of N (chunk ∷ chunks) in
      let sorted = sorter.sort (less N sort_idx desc) (materialize N (chunk ∷ chunks)) in
      let alike =
        subst (All (Alike N (strings_of chunk.types))) (sym cells)
          (All-Alike N chunk.types (all_rows N (chunk ∷ chunks)) typed) in
      let emitted = emit-Shuffle N casts chunk.types (all_rows N (chunk ∷ chunks)) sorted typed (
        chain (sorter.sort_perm (less N sort_idx desc) (materialize N (chunk ∷ chunks)))
          (Shuffle-eq cells)) in
      (
        map (emit_row N chunk.types) sorted,
        rw (in_memory_sort, found) (emit_rows-gives N chunk.types sorted),
        Shuffle-perm emitted.0,
        resolve-Named N chunk.col_ids cols sort_idx found,
        InOrder-precedes N casts chunk.types sort_idx desc (map (emit_row N chunk.types) sorted)
            (Shuffle-All (Conforms N chunk.types) (Shuffle-flip emitted.0)
              (All-no_nulls N chunk.types (all_rows N (chunk ∷ chunks)) typed))
            (subst (InOrder (less N sort_idx desc)) (sym emitted.1) (
              sorter.sort_InOrder (Alike N (strings_of chunk.types)) (less N sort_idx desc)
                (materialize N (chunk ∷ chunks))
                (less-WeakOrder N (strings_of chunk.types) sort_idx desc) alike)),
      )

module _ (N : Doubles) (casts : CastsBack N) (sorter : Sorter (Row N)) (n : ℕ)
    (chunk : RowChunk (Field (N.Double))) (chunks : List (RowChunk (Field (N.Double))))
    (cols sort_idx : List ℕ) (desc : List Bool)
    (found : resolve N chunk.col_ids cols ≡ some sort_idx)
    (typed : All (Conforms N chunk.types) (all_rows N (chunk ∷ chunks))) where
  -- What is kept of the rows, and the others.
  Kept : List (Row N) → List (Row N) → List (Row N) → Type 0
  Kept rows kept others =
      Shuffle (kept ++ others) rows
      × (length kept ≡ min n (length rows))
      × InOrder (less N sort_idx desc) kept
      × NotAfter (less N sort_idx desc) kept others

  NotAfter-nil : {A : Type 0} (before : A → A → Bool) (xs : List A) → NotAfter before xs []
  NotAfter-nil before [] = tt
  NotAfter-nil before (x ∷ xs) = (tt, NotAfter-nil before xs)

  top_rows-Kept :
      (rows : List (Row N))
      → All (Alike N (strings_of chunk.types)) rows
      → (others : List (Row N)) × Kept rows (top_rows N sorter n (less N sort_idx desc) rows) others
  unfolding top_rows Kept
  top_rows-Kept rows alike =
      let before = less N sort_idx desc in
      let weak = less-WeakOrder N (strings_of chunk.types) sort_idx desc in
      elim (Bool-cases (ltb n (length rows))) [
        | inl l ↦
            let all = sorter.partial_sort n before rows in
            let perm = sorter.partial_sort_perm n before rows in
            let order =
              sorter.partial_sort_InOrder (Alike N (strings_of chunk.types)) n before rows weak
                alike in
            rw (top_rows, l)
              (
                drop n all,
                (
                  chain (Shuffle-eq (take-drop n all)) perm,
                  ground (arith, l, length-take n all, Shuffle-length perm),
                  order.0,
                  order.1,
                ),
              )
        | inr l ↦
            let perm = sorter.sort_perm before rows in
            rw (top_rows, l)
              (
                [],
                (
                  chain (Shuffle-eq (append-nil (sorter.sort before rows))) perm,
                  ground (arith, l, Shuffle-length perm),
                  sorter.sort_InOrder (Alike N (strings_of chunk.types)) before rows weak alike,
                  NotAfter-nil before (sorter.sort before rows),
                ),
              )
      ]

  -- ORDER BY with LIMIT gives, as TopN, the first `n` rows or all if there are fewer: none precedes
  -- an earlier one, and together with some others, none of which precedes one of them, they are the
  -- rows of the child, each as often, with the stored value in the place of each NULL. In the first
  -- sort column in which two rows differ the smaller precedes, or the greater if the column
  -- descends. The sort columns are found in the first chunk, where they have the ids that ORDER BY
  -- names, the rows have values of its types stored, and a double holds every int32_t and keeps
  -- their order. std::sort and std::partial_sort keep the promises of StdSort.
  pub top_n_lem :
      (out others : List (List (Field (N.Double)))) × (top_n N sorter n cols desc (chunk ∷ chunks)
        ≡ gives N out)
      × (length out ≡ min n (length (all_rows N (chunk ∷ chunks))))
      × Perm (out ++ others) (no_nulls N (all_rows N (chunk ∷ chunks)))
      × Named chunk.col_ids cols sort_idx
      × InOrder (precedes N sort_idx desc) out
      × NotAfter (precedes N sort_idx desc) out others
  unfolding top_n Kept
  top_n_lem =
      let cells = materialize-cells_of N (chunk ∷ chunks) in
      let (others, kept) = top_rows-Kept (materialize N (chunk ∷ chunks)) (
        subst (All (Alike N (strings_of chunk.types))) (sym cells)
          (All-Alike N chunk.types (all_rows N (chunk ∷ chunks)) typed)) in
      let first = top_rows N sorter n (less N sort_idx desc) (materialize N (chunk ∷ chunks)) in
      let emitted =
        emit-Shuffle_kept N casts chunk.types (all_rows N (chunk ∷ chunks)) first others typed
          (chain kept.0 (Shuffle-eq cells)) in
      let out = map (emit_row N chunk.types) first in
      let rest = map (emit_row N chunk.types) others in
      let (out_typed, rest_typed) = All-append_both (Conforms N chunk.types) out rest (
        Shuffle-All (Conforms N chunk.types) (Shuffle-flip emitted.0)
          (All-no_nulls N chunk.types (all_rows N (chunk ∷ chunks)) typed)) in
      (
        out,
        rest,
        rw (top_n, found) (emit_rows-gives N chunk.types first),
        length-map (emit_row N chunk.types) first
            ∙ kept.1
            ∙ ap (λ xs. min n (length xs)) cells
            ∙ ap (min n) (length-map (map (cell_of N)) (all_rows N (chunk ∷ chunks))),
        Shuffle-perm emitted.0,
        resolve-Named N chunk.col_ids cols sort_idx found,
        InOrder-precedes N casts chunk.types sort_idx desc out out_typed
            (subst (InOrder (less N sort_idx desc)) (sym emitted.1) kept.2),
        NotAfter-precedes N casts chunk.types sort_idx desc out rest out_typed rest_typed (
            subst (λ xs. NotAfter (less N sort_idx desc) xs (cells_of N rest)) (sym emitted.1)
              (subst (NotAfter (less N sort_idx desc) first) (sym emitted.2) kept.3)),
      )
