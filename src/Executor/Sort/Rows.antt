-- ===== src/Executor/Sort/Rows.antt =====
-- Rows as src/planner/physical/physical_sort_operator.cpp takes them in and gives them out.
use chicken_db.Base.{
  ℕ, zero, suc, ◌<◌, ◌≡◌, refl, sym, ap, ◌∙◌, subst, Bool, true, false, List, [], ◌∷◌, ◌++◌, map,
  All, get_or,
}
use chicken_db.Base.Int.{ℤ, pos, negsuc, ltb_ℤ}
use chicken_db.Base.Order.{HasOrder}
use chicken_db.Base.Shuffle.{Shuffle-flip, Shuffle, Shuffle-All, Shuffle-map, Shuffle-eq, chain}
use chicken_db.Executor.Sort.{
  Doubles, ColumnType, number, double, varchar, Value, Field, stored_cell, int_value, double_value,
  string_value, RowChunk, Returned, nothing, returned, Row, cell_of, cells_of, materialize,
  value_of, emit_row, emit_rows,
}
use chicken_db.Executor.Sort.Order.{Alike}

abbrev pub IsInt32 : ℤ → Type 0
IsInt32 (pos n) = n < 2147483648
IsInt32 (negsuc n) = n < 2147483648

-- A double holds every int32_t, and they compare as doubles as they do as integers.
pub record CastsBack (N : Doubles) : Type 0 where
  pub to_int-of_int : (n : ℤ) → IsInt32 n → N.to_int (N.of_int n) ≡ n
  pub before-of_int :
      (n m : ℤ)
      → IsInt32 n
      → IsInt32 m
      → HasOrder.before N.order (N.of_int n) (N.of_int m) ≡ ltb_ℤ n m

abbrev pub is_varlen : ColumnType → Bool
is_varlen varchar = true
is_varlen _ = false

abbrev pub strings_of : List ColumnType → ℕ → Bool
strings_of types idx = get_or (map is_varlen types) idx false

module _ (N : Doubles) where
  abbrev pub Fits : ColumnType → Value (N.Double) → Type 0
  Fits number (int_value n) = IsInt32 n
  Fits double (double_value d) = Unit
  Fits varchar (string_value s) = Unit
  Fits _ _ = ⊥

  -- A row has a value of its type stored in each column, NULL or not.
  abbrev pub Conforms : List ColumnType → List (Field (N.Double)) → Type 0
  Conforms [] [] = Unit
  Conforms (t ∷ types) (v ∷ row) = Fits t v.stored × Conforms types row
  Conforms _ _ = ⊥

  -- The rows of all chunks.
  abbrev pub all_rows : List (RowChunk (Field (N.Double))) → List (List (Field (N.Double)))
  all_rows [] = []
  all_rows (chunk ∷ chunks) = chunk.rows ++ all_rows chunks

  -- The field with its validity bit set.
  abbrev pub no_null : Field (N.Double) → Field (N.Double)
  no_null f = record f { valid = true }

  -- The rows in which a NULL has become the value that is stored in its place.
  abbrev pub no_nulls : List (List (Field (N.Double))) → List (List (Field (N.Double)))
  no_nulls rows = map (map no_null) rows

  cells-no_null :
      (row : List (Field (N.Double))) → map (cell_of N) (map no_null row) ≡ map (cell_of N) row
  cells-no_null [] = refl
  cells-no_null (f ∷ row) = ap (λ cs. cell_of N f ∷ cs) (cells-no_null row)

  map-append_cells :
      (xs ys : List (List (Field (N.Double))))
      → cells_of N (xs ++ ys) ≡ cells_of N xs ++ cells_of N ys
  map-append_cells [] ys = refl
  map-append_cells (x ∷ xs) ys = ap (λ zs. map (cell_of N) x ∷ zs) (map-append_cells xs ys)

  pub materialize-cells_of :
      (chunks : List (RowChunk (Field (N.Double))))
      → materialize N chunks ≡ cells_of N (all_rows chunks)
  unfolding materialize
  materialize-cells_of [] = refl
  materialize-cells_of (chunk ∷ chunks) =
      ap (λ zs. cells_of N chunk.rows ++ zs) (materialize-cells_of chunks)
      ∙ sym (map-append_cells chunk.rows (all_rows chunks))

  pub stored_cell-is_str :
      (t : ColumnType) (v : Value (N.Double)) → Fits t v → (stored_cell N v).is_str ≡ is_varlen t
  stored_cell-is_str number (int_value n) f = refl
  stored_cell-is_str double (double_value d) f = refl
  stored_cell-is_str varchar (string_value s) f = refl
  stored_cell-is_str number (double_value d) f = elim f [ ]
  stored_cell-is_str number (string_value s) f = elim f [ ]
  stored_cell-is_str double (int_value n) f = elim f [ ]
  stored_cell-is_str double (string_value s) f = elim f [ ]
  stored_cell-is_str varchar (int_value n) f = elim f [ ]
  stored_cell-is_str varchar (double_value d) f = elim f [ ]

  Conforms-Alike :
      (types : List ColumnType) (row : List (Field (N.Double)))
      → Conforms types row
      → Alike N (strings_of types) (map (cell_of N) row)
  Conforms-Alike [] [] c idx = refl
  Conforms-Alike (t ∷ types) (v ∷ row) c zero = stored_cell-is_str t v.stored c.0
  Conforms-Alike (t ∷ types) (v ∷ row) c (suc idx) = Conforms-Alike types row c.1 idx
  Conforms-Alike [] (v ∷ row) c idx = elim c [ ]
  Conforms-Alike (t ∷ types) [] c idx = elim c [ ]

  pub All-Alike :
      (types : List ColumnType) (rows : List (List (Field (N.Double))))
      → All (Conforms types) rows
      → All (Alike N (strings_of types)) (cells_of N rows)
  All-Alike types [] a = tt
  All-Alike types (row ∷ rows) a = (Conforms-Alike types row a.0, All-Alike types rows a.1)

  module _ (casts : CastsBack N) where
    value_of-stored_cell :
        (t : ColumnType) (v : Value (N.Double)) → Fits t v → value_of N t (stored_cell N v) ≡ v
    unfolding value_of
    value_of-stored_cell number (int_value n) f = ap int_value (casts.to_int-of_int n f)
    value_of-stored_cell double (double_value d) f = refl
    value_of-stored_cell varchar (string_value s) f = refl
    value_of-stored_cell number (double_value d) f = elim f [ ]
    value_of-stored_cell number (string_value s) f = elim f [ ]
    value_of-stored_cell double (int_value n) f = elim f [ ]
    value_of-stored_cell double (string_value s) f = elim f [ ]
    value_of-stored_cell varchar (int_value n) f = elim f [ ]
    value_of-stored_cell varchar (double_value d) f = elim f [ ]

    emit_row-cells :
        (types : List ColumnType) (row : List (Field (N.Double)))
        → Conforms types row
        → emit_row N types (map (cell_of N) row) ≡ map no_null row
    unfolding emit_row
    emit_row-cells [] [] c = refl
    emit_row-cells (t ∷ types) (v ∷ row) c = λ i.
        record { stored = value_of-stored_cell t v.stored c.0 i; valid = true }
        ∷ emit_row-cells types row c.1 i
    emit_row-cells [] (v ∷ row) c = elim c [ ]
    emit_row-cells (t ∷ types) [] c = elim c [ ]

    -- Cells that were read from a row of the table.
    abbrev pub IsRead : List ColumnType → Row N → Type 0
    IsRead types cells =
        (row : List (Field (N.Double))) × Conforms types row × (cells ≡ map (cell_of N) row)

    pub All-IsRead :
        (types : List ColumnType) (rows : List (List (Field (N.Double))))
        → All (Conforms types) rows
        → All (IsRead types) (cells_of N rows)
    All-IsRead types [] a = tt
    All-IsRead types (row ∷ rows) a = ((row, a.0, refl), All-IsRead types rows a.1)

    emitted_back :
        (types : List ColumnType) (rows : List (List (Field (N.Double))))
        → All (Conforms types) rows
        → map (emit_row N types) (cells_of N rows) ≡ no_nulls rows
    emitted_back types [] a = refl
    emitted_back types (row ∷ rows) a =
        λ i. emit_row-cells types row a.0 i ∷ emitted_back types rows a.1 i

    read_again :
        (types : List ColumnType) (cells : Row N)
        → IsRead types cells
        → map (cell_of N) (emit_row N types cells) ≡ cells
    read_again types cells r =
        ap (λ c. map (cell_of N) (emit_row N types c)) r.2
        ∙ ap (map (cell_of N)) (emit_row-cells types r.0 r.1)
        ∙ cells-no_null r.0
        ∙ sym r.2

    All-read_again :
        (types : List ColumnType) (rows : List (Row N))
        → All (IsRead types) rows
        → cells_of N (map (emit_row N types) rows) ≡ rows
    All-read_again types [] a = refl
    All-read_again types (r ∷ rows) a =
        λ i. read_again types r a.0 i ∷ All-read_again types rows a.1 i

    -- What is given out of a rearrangement of the cells: the same rows, and the same cells again.
    pub emit-Shuffle :
        (types : List ColumnType) (rows : List (List (Field (N.Double)))) (sorted : List (Row N))
        → All (Conforms types) rows
        → Shuffle sorted (cells_of N rows)
        → Shuffle (map (emit_row N types) sorted) (no_nulls rows)
          × (cells_of N (map (emit_row N types) sorted) ≡ sorted)
    emit-Shuffle types rows sorted a s = (
      chain (Shuffle-map (emit_row N types) s) (Shuffle-eq (emitted_back types rows a)),
      All-read_again types sorted
          (Shuffle-All (IsRead types) (Shuffle-flip s) (All-IsRead types rows a)),
    )

    All-append-IsRead :
        (types : List ColumnType) (xs ys : List (Row N))
        → All (IsRead types) (xs ++ ys)
        → All (IsRead types) xs × All (IsRead types) ys
    All-append-IsRead types [] ys a = (tt, a)
    All-append-IsRead types (x ∷ xs) ys a =
        let rest = All-append-IsRead types xs ys a.1 in ((a.0, rest.0), rest.1)

    map-append_rows :
        (f : Row N → List (Field (N.Double))) (xs ys : List (Row N))
        → map f (xs ++ ys) ≡ map f xs ++ map f ys
    map-append_rows f [] ys = refl
    map-append_rows f (x ∷ xs) ys = ap (λ zs. f x ∷ zs) (map-append_rows f xs ys)

    -- The same where some of the rows are kept.
    pub emit-Shuffle_kept :
        (types : List ColumnType) (rows : List (List (Field (N.Double))))
        (kept others : List (Row N))
        → All (Conforms types) rows
        → Shuffle (kept ++ others) (cells_of N rows)
        → Shuffle (map (emit_row N types) kept ++ map (emit_row N types) others) (no_nulls rows)
          × (cells_of N (map (emit_row N types) kept) ≡ kept)
          × (cells_of N (map (emit_row N types) others) ≡ others)
    emit-Shuffle_kept types rows kept others a s =
        let read =
          All-append-IsRead types kept others
            (Shuffle-All (IsRead types) (Shuffle-flip s) (All-IsRead types rows a)) in
        (
          subst (λ xs. Shuffle xs (no_nulls rows)) (map-append_rows (emit_row N types) kept others)
              (emit-Shuffle types rows (kept ++ others) a s).0,
          All-read_again types kept read.0,
          All-read_again types others read.1,
        )

  -- `Next` gives nothing in place of an empty chunk.
  abbrev pub gives : List (List (Field (N.Double))) → Returned (List (List (Field (N.Double))))
  gives [] = nothing
  gives (r ∷ rows) = returned (r ∷ rows)

  pub emit_rows-gives :
      (types : List ColumnType) (rows : List (Row N))
      → emit_rows N types rows ≡ gives (map (emit_row N types) rows)
  unfolding emit_rows
  emit_rows-gives types [] = refl
  emit_rows-gives types (r ∷ rows) = refl
