-- ===== src/Executor/Sort/Precedes.antt =====
-- ORDER BY as its words say it, by which the comparator of
-- src/planner/physical/physical_sort_operator.cpp is judged.
use chicken_db.Base.{
  ℕ, zero, suc, ◌≡◌, refl, sym, ◌∙◌, Bool, true, false, not, ◌&&◌, ◌||◌, List, [], ◌∷◌, map, arith,
  if◌then◌else◌, All, get_or,
}
use chicken_db.Base.Int.{ltb_ℤ}
use chicken_db.Base.Order.{HasOrder, lt, list_order, nat_order, lt_asym}
use chicken_db.Executor.Sort.{
  Doubles, ColumnType, number, double, varchar, Value, int_value, double_value, string_value, Field,
  stored_cell, compare_cells, cell_of, cells_of, less, blank,
}
use chicken_db.Executor.Sort.Rows.{CastsBack, Fits, Conforms, no_null, no_nulls}
use chicken_db.Executor.Sort.StdSort.{InOrder, NotAfter}

module _ (N : Doubles) where
  -- Integers by their size, strings by their bytes.
  abbrev pub smaller : Value (N.Double) → Value (N.Double) → Bool
  smaller (int_value n) (int_value m) = ltb_ℤ n m
  smaller (double_value a) (double_value b) = lt ⦃order = N.order⦄ a b
  smaller (string_value s) (string_value t) = lt ⦃order = list_order⦄ s t
  smaller _ _ = false

  abbrev pub smaller_at : ℕ → List (Field (N.Double)) → List (Field (N.Double)) → Bool
  smaller_at zero (x ∷ xs) (y ∷ ys) = smaller x.stored y.stored
  smaller_at (suc i) (x ∷ xs) (y ∷ ys) = smaller_at i xs ys
  smaller_at _ _ _ = false

  -- Ascending, the smaller field stands first, and descending the greater.
  abbrev pub first_at : ℕ → Bool → List (Field (N.Double)) → List (Field (N.Double)) → Bool
  first_at i false a b = smaller_at i a b
  first_at i true a b = smaller_at i b a

  -- The first column in which one of the rows stands first decides; a missing direction ascends.
  abbrev pub precedes :
      List ℕ → List Bool → List (Field (N.Double)) → List (Field (N.Double)) → Bool
  precedes [] desc a b = false
  precedes (i ∷ is) [] a b =
      first_at i false a b || (not (first_at i false b a) && precedes is [] a b)
  precedes (i ∷ is) (d ∷ desc) a b =
      first_at i d a b || (not (first_at i d b a) && precedes is desc a b)

  module _ (casts : CastsBack N) where
    smaller-compare :
        (t : ColumnType) (u v : Value (N.Double)) (later : Bool) (d : Bool)
        → Fits N t u
        → Fits N t v
        → compare_cells N (stored_cell N u) (stored_cell N v) d later ≡ (
            if d
            then smaller v u || (not (smaller u v) && later)
            else smaller u v || (not (smaller v u) && later))
    smaller-compare number (int_value n) (int_value m) later d p q =
        ground (arith, casts.before-of_int n m p q, casts.before-of_int m n q p)
    smaller-compare double (double_value a) (double_value b) later d p q =
        ground (arith, lt_asym ⦃order = N.order⦄ a b)
    smaller-compare varchar (string_value s) (string_value t) later d p q =
        ground (arith, lt_asym ⦃order = list_order⦄ s t)
    smaller-compare number (int_value n) (double_value b) later d p q = elim q [ ]
    smaller-compare number (int_value n) (string_value t) later d p q = elim q [ ]
    smaller-compare number (double_value a) v later d p q = elim p [ ]
    smaller-compare number (string_value s) v later d p q = elim p [ ]
    smaller-compare double (int_value n) v later d p q = elim p [ ]
    smaller-compare double (double_value a) (int_value m) later d p q = elim q [ ]
    smaller-compare double (double_value a) (string_value t) later d p q = elim q [ ]
    smaller-compare double (string_value s) v later d p q = elim p [ ]
    smaller-compare varchar (int_value n) v later d p q = elim p [ ]
    smaller-compare varchar (double_value a) v later d p q = elim p [ ]
    smaller-compare varchar (string_value s) (int_value m) later d p q = elim q [ ]
    smaller-compare varchar (string_value s) (double_value b) later d p q = elim q [ ]

    column-compare :
        (types : List ColumnType) (i : ℕ) (a b : List (Field (N.Double))) (d later : Bool)
        → Conforms N types a
        → Conforms N types b
        → compare_cells N
            (get_or (map (cell_of N) a) i (blank N))
            (get_or (map (cell_of N) b) i (blank N))
            d
            later
          ≡ (if d
              then smaller_at i b a || (not (smaller_at i a b) && later)
              else smaller_at i a b || (not (smaller_at i b a) && later))
    column-compare [] zero [] [] d later p q =
        ground (arith, HasOrder.before_irrefl N.order N.zero_double)
    column-compare [] (suc i) [] [] d later p q =
        ground (arith, HasOrder.before_irrefl N.order N.zero_double)
    column-compare (t ∷ types) zero (x ∷ a) (y ∷ b) d later p q =
        smaller-compare t x.stored y.stored later d p.0 q.0
    column-compare (t ∷ types) (suc i) (x ∷ a) (y ∷ b) d later p q =
        column-compare types i a b d later p.1 q.1
    column-compare [] i (x ∷ a) b d later p q = elim p [ ]
    column-compare [] i [] (y ∷ b) d later p q = elim q [ ]
    column-compare (t ∷ types) i [] b d later p q = elim p [ ]
    column-compare (t ∷ types) i (x ∷ a) [] d later p q = elim q [ ]

    by_column :
        (types : List ColumnType) (i : ℕ) (a b : List (Field (N.Double))) (d later : Bool)
        → Conforms N types a
        → Conforms N types b
        → compare_cells N
            (get_or (map (cell_of N) a) i (blank N))
            (get_or (map (cell_of N) b) i (blank N))
            d
            later
          ≡ (first_at i d a b || (not (first_at i d b a) && later))
    by_column types i a b true later p q = column-compare types i a b true later p q
    by_column types i a b false later p q = column-compare types i a b false later p q

    -- The comparator decides as `precedes` does.
    less-precedes :
        (types : List ColumnType) (is : List ℕ) (desc : List Bool) (a b : List (Field (N.Double)))
        → Conforms N types a
        → Conforms N types b
        → less N is desc (map (cell_of N) a) (map (cell_of N) b) ≡ precedes is desc a b
    unfolding less
    less-precedes types [] desc a b p q = refl
    less-precedes types (i ∷ is) [] a b p q =
        rw (less-precedes types is [] a b p q)
          (by_column types i a b false (precedes is [] a b) p q)
    less-precedes types (i ∷ is) (d ∷ desc) a b p q =
        rw (less-precedes types is desc a b p q)
          (by_column types i a b d (precedes is desc a b) p q)

    module _ (types : List ColumnType) (is : List ℕ) (desc : List Bool) where
      All-precedes :
          (x : List (Field (N.Double))) (ys : List (List (Field (N.Double))))
          → Conforms N types x
          → All (Conforms N types) ys
          → All (λ y. less N is desc y (map (cell_of N) x) ≡ false) (cells_of N ys)
          → All (λ y. precedes is desc y x ≡ false) ys
      All-precedes x [] p q a = tt
      All-precedes x (y ∷ ys) p q a =
          (sym (less-precedes types is desc y x q.0 p) ∙ a.0, All-precedes x ys p q.1 a.1)

      pub InOrder-precedes :
          (xs : List (List (Field (N.Double))))
          → All (Conforms N types) xs
          → InOrder (less N is desc) (cells_of N xs)
          → InOrder (precedes is desc) xs
      InOrder-precedes [] p o = tt
      InOrder-precedes (x ∷ xs) p o = (All-precedes x xs p.0 p.1 o.0, InOrder-precedes xs p.1 o.1)

      pub NotAfter-precedes :
          (xs ys : List (List (Field (N.Double))))
          → All (Conforms N types) xs
          → All (Conforms N types) ys
          → NotAfter (less N is desc) (cells_of N xs) (cells_of N ys)
          → NotAfter (precedes is desc) xs ys
      NotAfter-precedes [] ys p q o = tt
      NotAfter-precedes (x ∷ xs) ys p q o =
          (All-precedes x ys p.0 q o.0, NotAfter-precedes xs ys p.1 q o.1)

  Conforms-no_null :
      (types : List ColumnType) (row : List (Field (N.Double)))
      → Conforms N types row
      → Conforms N types (map (no_null N) row)
  Conforms-no_null [] [] c = tt
  Conforms-no_null (t ∷ types) (v ∷ row) c = (c.0, Conforms-no_null types row c.1)
  Conforms-no_null [] (v ∷ row) c = elim c [ ]
  Conforms-no_null (t ∷ types) [] c = elim c [ ]

  pub All-no_nulls :
      (types : List ColumnType) (rows : List (List (Field (N.Double))))
      → All (Conforms N types) rows
      → All (Conforms N types) (no_nulls N rows)
  All-no_nulls types [] a = tt
  All-no_nulls types (row ∷ rows) a = (Conforms-no_null types row a.0, All-no_nulls types rows a.1)
