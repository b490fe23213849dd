-- ===== src/Executor/Join/Same.antt =====
-- The joins of src/planner/physical/physical_join_operator.cpp against the nested loops.
use chicken_db.Base.{
  ℕ, ◌<◌, ◌≡◌, refl, sym, ap, ◌∙◌, ◌⊎◌, inl, inr, Bool, none, some, List, [], ◌∷◌, arith,
  Bool-cases, Option-cases, length,
}
use chicken_db.Executor.Join.Agree.{
  nested_matches-by_left, probe_table-by_right, probe_index-by_right, key_found, index_found,
  by_left-agree,
}
use chicken_db.Base.Shuffle.{chain, Shuffle-eq, Shuffle, Shuffle-map, Shuffle-length, Shuffle-perm}
use chicken_db.Executor.Join.Pairs.{by_right-Shuffle, by_left, no_right}
use chicken_db.Executor.Join.Keys.{HasKeyBytes, keys_equal-key_of, keys_equal-index_key}
use chicken_db.Executor.Join.{
  Value, pair_row, DRow, by_loops, by_hash, by_index, nested_loop_join, hash_join, index_nl_join,
  has_varlen, key_of, rows_of, keys_equal, JoinDoubles, JoinRows, Matches, materialize, output,
  join_with,
}
use mathlib.Core.List.{Perm}
use chicken_db.Executor.Sort.{RowChunk, Returned, thrown, nothing, returned, resolve, last_index}

-- Two joins that both throw, both give nothing, or give chunks with the same columns and the same
-- rows, each as often.
unfoldable pub SameRows : {A : Type 0} → Returned (RowChunk A) → Returned (RowChunk A) → Type 0
SameRows thrown thrown = Unit
SameRows nothing nothing = Unit
SameRows (returned c) (returned d) =
    (c.col_ids ≡ d.col_ids) × ((c.types ≡ d.types) × Perm c.rows d.rows)
SameRows _ _ = ⊥

by_left-empty :
    {A B : Type 0} (m n : A → B → Bool) (xs : List A) (ys : List B)
    → (xs ≡ []) ⊎ ((ys ≡ []) ⊎ ((x : A) (y : B) → m x y ≡ n x y))
    → by_left m 0 xs 0 ys ≡ by_left n 0 xs 0 ys
by_left-empty m n xs ys (inl e) =
    ap (λ zs. by_left m 0 zs 0 ys) e ∙ ap (λ zs. by_left n 0 zs 0 ys) (sym e)
by_left-empty m n xs ys (inr (inl e)) =
    ap (λ zs. by_left m 0 xs 0 zs) e
    ∙ no_right m 0 xs 0
    ∙ sym (no_right n 0 xs 0)
    ∙ ap (λ zs. by_left n 0 xs 0 zs) (sym e)
by_left-empty m n xs ys (inr (inr h)) = by_left-agree m n 0 xs 0 ys h

some_injective : {A : Type 0} {x y : A} → some x ≡ some y → x ≡ y
some_injective {x} h = ap (λ o. elim o [ none ↦ x | some z ↦ z ]) h

no_result : {A : Type 0} {x : A} → none ≡ some x → ⊥
no_result h = ground (arith, h)

module _ (N : JoinDoubles) where
  output-SameRows :
      (left right : JoinRows N) (ms ns : Matches)
      → Shuffle ms ns
      → SameRows (output N left right ms) (output N left right ns)
  unfolding SameRows
  output-SameRows left right [] [] h = tt
  output-SameRows left right [] (n ∷ ns) h = absurd (omega (arith, Shuffle-length h))
  output-SameRows left right (m ∷ ms) [] h = absurd (omega (arith, Shuffle-length h))
  output-SameRows left right (m ∷ ms) (n ∷ ns) h =
      (refl, (refl, Shuffle-perm (Shuffle-map (pair_row N left right) h)))

  join_with-SameRows :
      (f g : JoinRows N → JoinRows N → Matches)
      (lchunks : List (RowChunk (Value (N.doubles.Double)))) (lkeys : List ℕ)
      (rchunks : List (RowChunk (Value (N.doubles.Double)))) (rkeys : List ℕ)
      → ((left right : JoinRows N)
          → materialize N lchunks lkeys ≡ some left
          → materialize N rchunks rkeys ≡ some right
          → Shuffle (f left right) (g left right))
      → SameRows
          (join_with N f lchunks lkeys rchunks rkeys)
          (join_with N g lchunks lkeys rchunks rkeys)
  unfolding SameRows
  join_with-SameRows f g lchunks lkeys rchunks rkeys h =
      elim (Option-cases (materialize N lchunks lkeys)) [
        | inl e ↦ rw (join_with, e) tt
        | inr (left, e) ↦ elim (Option-cases (materialize N rchunks rkeys)) [
          | inl k ↦ rw (join_with, e, k) tt
          | inr (right, k) ↦
              rw (join_with, e, k)
                (output-SameRows left right (f left right) (g left right) (h left right e k))
        ]
      ]

  resolve-length :
      (ids keys idx : List ℕ) → resolve N.doubles ids keys ≡ some idx → length idx ≡ length keys
  unfolding resolve
  resolve-length ids [] idx h = ground (arith, h)
  resolve-length ids (k ∷ keys) idx h = elim (Option-cases (last_index N.doubles k 0 ids)) [
    | inl e ↦ ground (arith, resolve, h, e)
    | inr (i, e) ↦ elim (Option-cases (resolve N.doubles ids keys)) [
      | inl f ↦ ground (arith, resolve, h, e, f)
      | inr (is, f) ↦ ground (arith, resolve, h, e, f, resolve-length ids keys is f)
    ]
  ]

  pub materialize-keys :
      (chunks : List (RowChunk (Value (N.doubles.Double)))) (keys : List ℕ) (r : JoinRows N)
      → materialize N chunks keys ≡ some r
      → (JoinRows.rows r ≡ rows_of N chunks)
        × ((JoinRows.rows r ≡ []) ⊎ (length (JoinRows.key_idx r) ≡ length keys))
  materialize-keys [] keys r h =
      let empty = ap JoinRows.rows (sym (some_injective h)) in (empty, inl empty)
  materialize-keys (chunk ∷ chunks) keys r h = elim (Bool-cases (has_varlen N chunk.types)) [
    | inl e ↦
        let refused : materialize N (chunk ∷ chunks) keys ≡ none = rw (materialize, e) refl in
        absurd (no_result (sym refused ∙ h))
    | inr e ↦ elim (Option-cases (resolve N.doubles chunk.col_ids keys)) [
      | inl f ↦
          let refused : materialize N (chunk ∷ chunks) keys ≡ none = rw (materialize, e, f) refl in
          absurd (no_result (sym refused ∙ h))
      | inr (idx, f) ↦
          let made : materialize N (chunk ∷ chunks) keys
              ≡ some (record {
                rows = rows_of N (chunk ∷ chunks);
                types = chunk.types;
                col_ids = chunk.col_ids;
                key_idx = idx;
              }) =
            rw (materialize, e, f) refl in
          let same = some_injective (sym h ∙ made) in
          (
            ap JoinRows.rows same,
            inr (
                ap (λ (j : JoinRows N). length (JoinRows.key_idx j)) same
                ∙ resolve-length chunk.col_ids keys idx f),
          )
    ]
  ]

  -- Each of the keys of a row is there, or there is no row.
  comparable :
      (lchunks : List (RowChunk (Value (N.doubles.Double)))) (lkeys : List ℕ)
      (rchunks : List (RowChunk (Value (N.doubles.Double)))) (rkeys : List ℕ)
      (left right : JoinRows N) (m : DRow N → DRow N → Bool)
      → length lkeys ≡ length rkeys
      → materialize N lchunks lkeys ≡ some left
      → materialize N rchunks rkeys ≡ some right
      → (length left.key_idx ≡ length right.key_idx
          → (x y : DRow N) → m x y ≡ keys_equal N x left.key_idx y right.key_idx)
      → by_left m 0 left.rows 0 right.rows ≡ by_loops N left right
  comparable lchunks lkeys rchunks rkeys left right m h e k same =
      let test = λ (x y : DRow N). keys_equal N x left.key_idx y right.key_idx in
      by_left-empty m test left.rows right.rows (elim ((materialize-keys lchunks lkeys left e).1) [
        | inl none_left ↦ inl none_left
        | inr lcount ↦ elim ((materialize-keys rchunks rkeys right k).1) [
          | inl none_right ↦ inr (inl none_right)
          | inr rcount ↦ inr (inr (same (lcount ∙ h ∙ sym rcount)))
        ]
      ])
      ∙ sym (nested_matches-by_left N left.key_idx right.key_idx 0 left.rows right.rows)

pub hash_join-SameRows :
    (N : JoinDoubles) (lchunks : List (RowChunk (Value (N.doubles.Double)))) (lkeys : List ℕ)
    (rchunks : List (RowChunk (Value (N.doubles.Double)))) (rkeys : List ℕ)
    → HasKeyBytes N
    → length lkeys ≡ length rkeys
    → SameRows
        (hash_join N lchunks lkeys rchunks rkeys)
        (nested_loop_join N lchunks lkeys rchunks rkeys)
unfolding hash_join nested_loop_join
hash_join-SameRows N lchunks lkeys rchunks rkeys laws h =
    join_with-SameRows N (by_hash N) (by_loops N) lchunks lkeys rchunks rkeys (λ left right e k.
      let found = λ (x y : DRow N). key_found N left.key_idx x (key_of N y right.key_idx) in
      chain (Shuffle-eq (probe_table-by_right N left.key_idx right.key_idx left.rows 0 right.rows))
        (chain (by_right-Shuffle found 0 left.rows 0 right.rows) (
          Shuffle-eq (
            comparable N lchunks lkeys rchunks rkeys left right found h e k
              (λ counts x y. keys_equal-key_of N laws x y left.key_idx right.key_idx counts)))))

pub index_nl_join-SameRows :
    (N : JoinDoubles) (lchunks : List (RowChunk (Value (N.doubles.Double)))) (lkeys : List ℕ)
    (rchunks : List (RowChunk (Value (N.doubles.Double)))) (rkeys : List ℕ)
    → length lkeys ≡ length rkeys
    → length (rows_of N lchunks) < 4294967296
    → SameRows
        (index_nl_join N lchunks lkeys rchunks rkeys)
        (nested_loop_join N lchunks lkeys rchunks rkeys)
unfolding index_nl_join nested_loop_join
index_nl_join-SameRows N lchunks lkeys rchunks rkeys h few =
    join_with-SameRows N (by_index N) (by_loops N) lchunks lkeys rchunks rkeys (λ left right e k.
      let found = λ (x y : DRow N). index_found N left.key_idx x right.key_idx y in
      chain
        (Shuffle-eq (
          probe_index-by_right N left.key_idx right.key_idx left.rows 0 right.rows
            (omega (arith, few, ap length (materialize-keys N lchunks lkeys left e).0))))
        (chain (by_right-Shuffle found 0 left.rows 0 right.rows) (
          Shuffle-eq (
            comparable N lchunks lkeys rchunks rkeys left right found h e k
              (λ counts x y. keys_equal-index_key N x y left.key_idx right.key_idx counts)))))
