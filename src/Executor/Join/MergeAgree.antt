-- ===== src/Executor/Join/MergeAgree.antt =====
-- The merge join of src/planner/physical/physical_join_operator.cpp against the nested loops.
use chicken_db.Base.{
  ℕ, zero, suc, ◌+◌, ◌<◌, ◌≡◌, refl, sym, ap, ◌∙◌, ◌⊎◌, inl, inr, Bool, some, List, [], ◌∷◌, ◌++◌,
  map, arith, Option-cases, length, get_elem?, get_or,
}
use chicken_db.Executor.Join.{
  Value, join_with, materialize, nested_loop_join, hash_join, index_nl_join, nested_matches,
  rows_of, JoinDoubles, DRow, JoinRows, Matches, output, by_loops, keys_equal, pair_row,
  emit_joined, key_vals,
}
use chicken_db.Executor.Join.Sorted.{less_by-key_vals, key_cmp-key_order, vals_order, sort-InOrder}
use chicken_db.Executor.Sort.StdSort.{Sorter}
use chicken_db.Executor.Sort.{RowChunk, Value}
use chicken_db.Executor.Join.Same.{
  SameRows, materialize-keys, hash_join-SameRows, index_nl_join-SameRows,
}
use chicken_db.Executor.Join.Keys.{HasKeyBytes, same_truth, vals_iff, keys_equal-key_vals}
use chicken_db.Executor.Join.Pairs.{no_right, by_left}
use chicken_db.Executor.Join.MergeJoin.{merge_join, by_merge, less_by, key_cmp, sorted_side}
use chicken_db.Base.Shuffle.{Shuffle-perm, Shuffle-length, Shuffle, chain, Shuffle-eq, Shuffle-map}
use chicken_db.Executor.Join.Agree.{nested_matches-by_left, by_left-agree}
use chicken_db.Executor.Join.Blocks.{merge, KeyOrder, same_rows}
use chicken_db.Executor.Join.Merge.{merge-Shuffle}
use chicken_db.Executor.Join.Runs.{key_order, same_keys, same_key}
use chicken_db.Executor.Join.Rows.{joined, by_left-rows, joined-Shuffle}

get_or-some :
    {A : Type 0} (xs : List A) (i : ℕ) (x d : A) → get_elem? xs i ≡ some x → get_or xs i d ≡ x
get_or-some [] i x d h = ground (arith, h)
get_or-some (y ∷ xs) zero x d h = ground (arith, h)
get_or-some (y ∷ xs) (suc i) x d h = get_or-some xs i x d h

no_rows : {A : Type 0} (xs : List A) {ys : List A} → Shuffle xs ys → ys ≡ [] → xs ≡ []
no_rows [] h e = refl
no_rows (x ∷ xs) h e = absurd (omega (arith, Shuffle-length h, ap length e))

merge-no_left :
    {A B : Type 0} (c : A → B → KeyOrder) (fuel i j : ℕ) (ys : List B) → merge c fuel i [] j ys ≡ []
merge-no_left c zero i j ys = refl
merge-no_left c (suc fuel) i j ys = refl

merge-no_right :
    {A B : Type 0} (c : A → B → KeyOrder) (fuel i : ℕ) (xs : List A) (j : ℕ)
    → merge c fuel i xs j [] ≡ []
merge-no_right c zero i xs j = refl
merge-no_right c (suc fuel) i [] j = refl
merge-no_right c (suc fuel) i (x ∷ xs) j = refl

module _ (N : JoinDoubles) (sorter : Sorter (DRow N)) where
  abbrev DVal : Type 0
  DVal = Value (N.doubles.Double)

  -- Outputs with the same columns and the same rows.
  outputs-SameRows :
      (l r l' r' : JoinRows N) (ms ns : Matches)
      → l.col_ids ++ r.col_ids ≡ l'.col_ids ++ r'.col_ids
      → l.types ++ r.types ≡ l'.types ++ r'.types
      → Shuffle (map (pair_row N l r) ms) (map (pair_row N l' r') ns)
      → SameRows (output N l r ms) (output N l' r' ns)
  unfolding SameRows
  outputs-SameRows l r l' r' [] [] d e h = tt
  outputs-SameRows l r l' r' [] (n ∷ ns) d e h = absurd (omega (arith, Shuffle-length h))
  outputs-SameRows l r l' r' (m ∷ ms) [] d e h = absurd (omega (arith, Shuffle-length h))
  outputs-SameRows l r l' r' (m ∷ ms) (n ∷ ns) d e h = (d, (e, Shuffle-perm h))

  usable :
      (lchunks : List (RowChunk (Value (N.doubles.Double)))) (lkeys : List ℕ)
      (rchunks : List (RowChunk (Value (N.doubles.Double)))) (rkeys : List ℕ) (l r : JoinRows N)
      → length lkeys ≡ length rkeys
      → materialize N lchunks lkeys ≡ some l
      → materialize N rchunks rkeys ≡ some r
      → (JoinRows.rows l ≡ [])
        ⊎ ((JoinRows.rows r ≡ []) ⊎ (length (JoinRows.key_idx l) ≡ length (JoinRows.key_idx r)))
  usable lchunks lkeys rchunks rkeys l r h e k = elim ((materialize-keys N lchunks lkeys l e).1) [
    | inl none_left ↦ inl none_left
    | inr lcount ↦ elim ((materialize-keys N rchunks rkeys r k).1) [
      | inl none_right ↦ inr (inl none_right)
      | inr rcount ↦ inr (inr (lcount ∙ h ∙ sym rcount))
    ]
  ]

  module _ (l r : JoinRows N) where
    abbrev left : JoinRows N
    left = sorted_side N sorter l

    abbrev right : JoinRows N
    right = sorted_side N sorter r

    abbrev equal_keys : DRow N → DRow N → Bool
    equal_keys x y = keys_equal N x l.key_idx y r.key_idx

    abbrev emit : DRow N → DRow N → List DVal
    emit x y = emit_joined N (l.types ++ r.types) (x ++ y)

    pair_row-emit :
        (s t : JoinRows N) (a : ℕ) (x : DRow N) (b : ℕ) (y : DRow N)
        → s.types ++ t.types ≡ l.types ++ r.types
        → get_elem? s.rows a ≡ some x
        → get_elem? t.rows b ≡ some y
        → pair_row N s t (0 + a, 0 + b) ≡ emit x y
    pair_row-emit s t a x b y e f g =
        ap (λ k. pair_row N s t (k, 0 + b)) {x = 0 + a} {y = a} (omega arith)
        ∙ ap (λ k. pair_row N s t (a, k)) {x = 0 + b} {y = b} (omega arith)
        ∙ (λ i.
            emit_joined N (e i) (get_or-some s.rows a x [] f i ++ get_or-some t.rows b y [] g i))

    loops_rows : map (pair_row N l r) (by_loops N l r) ≡ joined equal_keys emit l.rows r.rows
    loops_rows =
        ap (map (pair_row N l r)) (nested_matches-by_left N l.key_idx r.key_idx 0 l.rows r.rows)
        ∙ by_left-rows equal_keys emit (pair_row N l r) 0 l.rows 0 r.rows
            (λ a x b y f g. pair_row-emit l r a x b y refl f g)

    module _ (counts : length l.key_idx ≡ length r.key_idx) where
      abbrev vals_cmp : DRow N → DRow N → KeyOrder
      vals_cmp x y =
          key_order ⦃order = vals_order N⦄ (key_vals N x l.key_idx) (key_vals N y r.key_idx)

      same_rows-equal_keys : (x y : DRow N) → same_rows vals_cmp x y ≡ equal_keys x y
      same_rows-equal_keys x y =
          let xs = key_vals N x l.key_idx in
          let ys = key_vals N y r.key_idx in
          let vals = vals_iff N xs ys in
          same_truth (same_rows vals_cmp x y) _ (
            λ e. vals.1 (same_keys ⦃order = vals_order N⦄ xs ys e),
            λ e. same_key ⦃order = vals_order N⦄ xs ys (vals.0 e),
          )
          ∙ sym (keys_equal-key_vals N x y l.key_idx r.key_idx counts)

      merge_pairs : Shuffle (by_merge N left right) (by_left equal_keys 0 left.rows 0 right.rows)
      merge_pairs =
          let fuel = length left.rows + length right.rows in
          let as_vals : (λ x y. key_cmp N x l.key_idx y r.key_idx) ≡ vals_cmp =
            λ i x y. key_cmp-key_order N x y l.key_idx r.key_idx counts i in
          chain (Shuffle-eq (ap (λ c. merge c fuel 0 left.rows 0 right.rows) as_vals)) (
            chain
              (merge-Shuffle ⦃order = vals_order N⦄ (λ x. key_vals N x l.key_idx)
                (λ y. key_vals N y r.key_idx) fuel 0 left.rows 0 right.rows (omega arith)
                (sort-InOrder ⦃order = vals_order N⦄ (λ x. key_vals N x l.key_idx) sorter
                  (less_by N l.key_idx) l.rows (λ i a b. less_by-key_vals N l.key_idx a b i))
                (sort-InOrder ⦃order = vals_order N⦄ (λ x. key_vals N x r.key_idx) sorter
                  (less_by N r.key_idx) r.rows (λ i a b. less_by-key_vals N r.key_idx a b i)))
              (Shuffle-eq (
                by_left-agree (same_rows vals_cmp) equal_keys 0 left.rows 0 right.rows
                  same_rows-equal_keys)))

      merge_rows :
          Shuffle
            (map (pair_row N left right) (by_merge N left right))
            (map (pair_row N l r) (by_loops N l r))
      merge_rows = chain (Shuffle-map (pair_row N left right) merge_pairs) (
          chain
            (Shuffle-eq (
              by_left-rows equal_keys emit (pair_row N left right) 0 left.rows 0 right.rows
                (λ a x b y f g. pair_row-emit left right a x b y refl f g)))
            (chain
              (joined-Shuffle equal_keys emit (sorter.sort_perm (less_by N l.key_idx) l.rows)
                (sorter.sort_perm (less_by N r.key_idx) r.rows))
              (Shuffle-eq (sym loops_rows))))

    nothing_matched :
        by_merge N left right ≡ []
        → by_loops N l r ≡ []
        → Shuffle
            (map (pair_row N left right) (by_merge N left right))
            (map (pair_row N l r) (by_loops N l r))
    nothing_matched e f =
        Shuffle-eq (ap (map (pair_row N left right)) e ∙ ap (map (pair_row N l r)) (sym f))

    sides_agree :
        (l.rows ≡ []) ⊎ ((r.rows ≡ []) ⊎ (length l.key_idx ≡ length r.key_idx))
        → Shuffle
            (map (pair_row N left right) (by_merge N left right))
            (map (pair_row N l r) (by_loops N l r))
    sides_agree (inl e) =
        let c = λ (x y : DRow N). key_cmp N x l.key_idx y r.key_idx in
        let gone = no_rows left.rows (sorter.sort_perm (less_by N l.key_idx) l.rows) e in
        nothing_matched
          (ap (λ xs. merge c (length left.rows + length right.rows) 0 xs 0 right.rows) gone
            ∙ merge-no_left c (length left.rows + length right.rows) 0 0 right.rows)
          (ap (λ xs. nested_matches N l.key_idx 0 xs r.key_idx r.rows) e)
    sides_agree (inr (inl e)) =
        let c = λ (x y : DRow N). key_cmp N x l.key_idx y r.key_idx in
        let gone = no_rows right.rows (sorter.sort_perm (less_by N r.key_idx) r.rows) e in
        nothing_matched
          (ap (λ ys. merge c (length left.rows + length right.rows) 0 left.rows 0 ys) gone
            ∙ merge-no_right c (length left.rows + length right.rows) 0 left.rows 0)
          (ap (λ ys. nested_matches N l.key_idx 0 l.rows r.key_idx ys) e
            ∙ nested_matches-by_left N l.key_idx r.key_idx 0 l.rows []
            ∙ no_right equal_keys 0 l.rows 0)
    sides_agree (inr (inr counts)) = merge_rows counts

  merge_join-SameRows :
      (lchunks : List (RowChunk (Value (N.doubles.Double)))) (lkeys : List ℕ)
      (rchunks : List (RowChunk (Value (N.doubles.Double)))) (rkeys : List ℕ)
      → length lkeys ≡ length rkeys
      → SameRows
          (merge_join N sorter lchunks lkeys rchunks rkeys)
          (nested_loop_join N lchunks lkeys rchunks rkeys)
  unfolding merge_join nested_loop_join SameRows
  merge_join-SameRows lchunks lkeys rchunks rkeys h =
      elim (Option-cases (materialize N lchunks lkeys)) [
        | inl e ↦ rw (merge_join, nested_loop_join, join_with, e) tt
        | inr (l, e) ↦ elim (Option-cases (materialize N rchunks rkeys)) [
          | inl k ↦ rw (merge_join, nested_loop_join, join_with, e, k) tt
          | inr (r, k) ↦
              rw (merge_join, nested_loop_join, join_with, e, k)
                (outputs-SameRows (left l r) (right l r) l r (by_merge N (left l r) (right l r))
                  (by_loops N l r) refl refl
                  (sides_agree l r (usable lchunks lkeys rchunks rkeys l r h e k)))
        ]
      ]

-- Over as many keys on the left as on the right, fewer than 2 ^ 32 rows on the left, and where equal
-- doubles have equal bytes, the hash join, the index join and the merge join do what the nested loops
-- do: they throw where these throw, give nothing where these give nothing, and else the same columns
-- and the same rows, each as often.
pub joins_agree :
    (N : JoinDoubles) (sorter : Sorter (DRow N))
    (lchunks : List (RowChunk (Value (N.doubles.Double)))) (lkeys : List ℕ)
    (rchunks : List (RowChunk (Value (N.doubles.Double)))) (rkeys : List ℕ)
    → HasKeyBytes N
    → length lkeys ≡ length rkeys
    → length (rows_of N lchunks) < 4294967296
    → SameRows
        (hash_join N lchunks lkeys rchunks rkeys)
        (nested_loop_join N lchunks lkeys rchunks rkeys)
      × (SameRows
            (index_nl_join N lchunks lkeys rchunks rkeys)
            (nested_loop_join N lchunks lkeys rchunks rkeys)
          × SameRows
              (merge_join N sorter lchunks lkeys rchunks rkeys)
              (nested_loop_join N lchunks lkeys rchunks rkeys))
joins_agree N sorter lchunks lkeys rchunks rkeys laws h few = (
  hash_join-SameRows N lchunks lkeys rchunks rkeys laws h,
  (
    index_nl_join-SameRows N lchunks lkeys rchunks rkeys h few,
    merge_join-SameRows N sorter lchunks lkeys rchunks rkeys h,
  ),
)
