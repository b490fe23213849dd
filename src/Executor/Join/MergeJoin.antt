-- ===== src/Executor/Join/MergeJoin.antt =====
-- PhysicalMergeJoin of src/planner/physical/physical_join_operator.cpp.
use chicken_db.Base.{ℕ, ◌+◌, Bool, true, false, none, some, List, [], ◌∷◌, if◌then◌else◌, length}
use chicken_db.Executor.Sort.{Value, RowChunk, Returned, thrown}
use chicken_db.Base.Order.{HasOrder}
use chicken_db.Executor.Sort.StdSort.{Sorter}
use chicken_db.Executor.Join.{Value, JoinDoubles, DRow, JoinRows, Matches, materialize, output, at}
use chicken_db.Executor.Join.Blocks.{KeyOrder, key_before, key_same, key_after, merge}

module _ (N : JoinDoubles) where
  abbrev pub lt_double : N.doubles.Double → N.doubles.Double → Bool
  lt_double a b = HasOrder.before N.doubles.order a b

  -- `cmp`, the order of each side.
  abbrev pub less_by : List ℕ → DRow N → DRow N → Bool
  less_by [] a b = false
  less_by (i ∷ key_idx) a b =
      let later = less_by key_idx a b in
      if lt_double (at N a i) (at N b i)
      then true
      else if lt_double (at N b i) (at N a i)
      then false
      else later

  -- Where the right has fewer keys the source reads beyond them.
  abbrev pub key_cmp : DRow N → List ℕ → DRow N → List ℕ → KeyOrder
  key_cmp a (i ∷ ak) b (j ∷ bk) =
      let later = key_cmp a ak b bk in
      if lt_double (at N a i) (at N b j)
      then key_before
      else if lt_double (at N b j) (at N a i)
      then key_after
      else later
  key_cmp a [] b bk = key_same
  key_cmp a (i ∷ ak) b [] = key_same

  abbrev pub sorted_side : Sorter (DRow N) → JoinRows N → JoinRows N
  sorted_side sorter r = record r { rows = sorter.sort (less_by r.key_idx) r.rows }

  -- The fuel is the number of rows of both sides.
  abbrev pub by_merge : JoinRows N → JoinRows N → Matches
  by_merge left right =
      merge (λ x y. key_cmp x left.key_idx y right.key_idx) (length left.rows + length right.rows) 0
        left.rows 0 right.rows

  abbrev pub merge_output :
      Sorter (DRow N) → JoinRows N → JoinRows N → Returned (RowChunk (Value (N.doubles.Double)))
  merge_output sorter l r =
      let left = sorted_side sorter l in
      let right = sorted_side sorter r in output N left right (by_merge left right)

  -- The first `Next` of PhysicalMergeJoin.
  unfoldable pub merge_join :
      Sorter (DRow N)
      → List (RowChunk (Value (N.doubles.Double)))
      → List ℕ
      → List (RowChunk (Value (N.doubles.Double)))
      → List ℕ
      → Returned (RowChunk (Value (N.doubles.Double)))
  merge_join sorter lchunks lkeys rchunks rkeys = elim (materialize N lchunks lkeys) [
    | none ↦ thrown
    | some l ↦ elim (materialize N rchunks rkeys) [
      | none ↦ thrown
      | some r ↦ merge_output sorter l r
    ]
  ]
