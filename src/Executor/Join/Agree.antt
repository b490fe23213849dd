-- ===== src/Executor/Join/Agree.antt =====
-- That the joins of src/planner/physical/physical_join_operator.cpp give the same rows.
use chicken_db.Base.{
  ℕ, ◌+◌, ◌%◌, ◌<◌, ◌≡◌, refl, sym, ap, ◌∙◌, subst, inl, inr, Bool, true, false, List, [], ◌∷◌,
  ◌++◌, map, append-nil, append_assoc, arith, if◌then◌else◌, Bool-cases, length,
}
use chicken_db.Txn.Types.{Rid}
use chicken_db.Executor.Join.Pairs.{by_right, partners, scan, by_left}
use chicken_db.Executor.Join.{
  probe_table, index_key, join_index, key_eq, build_index, probe_index, JoinDoubles, DRow,
  keys_equal, key_of, scan_right, nested_matches, bucket, build_table,
}
use chicken_db.Base.Eq.{HasEq, ◌==◌, nat_eq, list_eq, ==_iff}
use chicken_db.Base.Int.{pos}
use chicken_db.Base.Dict.{Dict, lookup-insert}
use chicken_db.Base.Dict

pub partners-agree :
    {A B C : Type 0} (m : A → B → Bool) (n : A → C → Bool) (y : B) (z : C) (l : ℕ) (xs : List A)
    → ((x : A) → m x y ≡ n x z)
    → partners m y l xs ≡ partners n z l xs
partners-agree m n y z l [] h = refl
partners-agree m n y z l (x ∷ xs) h = rw (partners, h x, partners-agree m n y z (l + 1) xs h) refl

pub by_left-agree :
    {A B : Type 0} (m n : A → B → Bool) (l : ℕ) (xs : List A) (r : ℕ) (ys : List B)
    → ((x : A) (y : B) → m x y ≡ n x y)
    → by_left m l xs r ys ≡ by_left n l xs r ys
by_left-agree m n l xs r ys h = ap (λ f. by_left f l xs r ys) (λ i x y. h x y i)

later_or_not :
    {A : Type 0} (b : Bool) (old : List A) (x : A) (rest : List A)
    → (if b then old ++ x ∷ [] else old) ++ rest ≡ old ++ (if b then x ∷ rest else rest)
later_or_not true old x rest = append_assoc old (x ∷ []) rest
later_or_not false old x rest = refl

module _ (N : JoinDoubles) where
  scan_right-scan :
      (lkey rkey : List ℕ) (lrow : DRow N) (l r : ℕ) (rrows : List (DRow N))
      → scan_right N lrow lkey l rkey r rrows
        ≡ scan (λ x y. keys_equal N x lkey y rkey) lrow l r rrows
  scan_right-scan lkey rkey lrow l r [] = refl
  scan_right-scan lkey rkey lrow l r (y ∷ ys) =
      ap (λ rest. if keys_equal N lrow lkey y rkey then (l, r) ∷ rest else rest)
        (scan_right-scan lkey rkey lrow l (r + 1) ys)

  pub nested_matches-by_left :
      (lkey rkey : List ℕ) (l : ℕ) (lrows rrows : List (DRow N))
      → nested_matches N lkey l lrows rkey rrows
        ≡ by_left (λ x y. keys_equal N x lkey y rkey) l lrows 0 rrows
  nested_matches-by_left lkey rkey l [] rrows = refl
  nested_matches-by_left lkey rkey l (x ∷ xs) rrows =
      ap (λ ps. ps ++ nested_matches N lkey (l + 1) xs rkey rrows)
        (scan_right-scan lkey rkey x l 0 rrows)
      ∙ ap (λ ps. scan (λ x y. keys_equal N x lkey y rkey) x l 0 rrows ++ ps)
          (nested_matches-by_left lkey rkey (l + 1) xs rrows)

  abbrev pub key_found : List ℕ → DRow N → List ℕ → Bool
  key_found lkey row key = key_of N row lkey == key

  bucket-insert :
      (key k : List ℕ) (i : ℕ) (table : Dict (List ℕ) (List ℕ))
      → bucket N k (Dict.insert key (bucket N key table ++ i ∷ []) table)
        ≡ (if key == k then bucket N k table ++ i ∷ [] else bucket N k table)
  bucket-insert key k i table = elim (Bool-cases (key == k)) [
    | inl e ↦
        subst
          (λ x.
            bucket N x (Dict.insert key (bucket N key table ++ i ∷ []) table)
            ≡ (if key == x then bucket N x table ++ i ∷ [] else bucket N x table))
          ((==_iff key k).0 e)
          (rw
            (
              bucket,
              lookup-insert key key (bucket N key table ++ i ∷ []) table,
              (==_iff key key).1 refl,
            )
            refl)
    | inr e ↦ rw (bucket, lookup-insert key k (bucket N key table ++ i ∷ []) table, e) refl
  ]

  bucket-build_table :
      (lkey key : List ℕ) (i : ℕ) (rows : List (DRow N)) (table : Dict (List ℕ) (List ℕ))
      → bucket N key (build_table N lkey i rows table)
        ≡ bucket N key table ++ partners (key_found lkey) key i rows
  bucket-build_table lkey key i [] table = sym (append-nil (bucket N key table))
  bucket-build_table lkey key i (row ∷ rows) table =
      let k = key_of N row lkey in
      let next = Dict.insert k (bucket N k table ++ i ∷ []) table in
      bucket-build_table lkey key (i + 1) rows next
      ∙ ap (λ b. b ++ partners (key_found lkey) key (i + 1) rows) (bucket-insert k key i table)
      ∙ later_or_not (k == key) (bucket N key table) i (partners (key_found lkey) key (i + 1) rows)

  pub probe_table-by_right :
      (lkey rkey : List ℕ) (lrows : List (DRow N)) (r : ℕ) (rrows : List (DRow N))
      → probe_table N (build_table N lkey 0 lrows []) rkey r rrows
        ≡ by_right (λ x y. key_found lkey x (key_of N y rkey)) 0 lrows r rrows
  unfolding Dict.lookup
  probe_table-by_right lkey rkey lrows r [] = refl
  probe_table-by_right lkey rkey lrows r (y ∷ ys) =
      let table = build_table N lkey 0 lrows [] in
      let key = key_of N y rkey in
      let found : bucket N key table
          ≡ partners (λ x z. key_found lkey x (key_of N z rkey)) y 0 lrows =
        bucket-build_table lkey key 0 lrows []
        ∙ partners-agree (key_found lkey) (λ x z. key_found lkey x (key_of N z rkey)) key y 0 lrows
            (λ x. refl) in
      ap (λ bs. map (λ b. (b, r)) bs ++ probe_table N table rkey (r + 1) ys) found
      ∙ ap
          (λ ps.
            map (λ b. (b, r)) (partners (λ x z. key_found lkey x (key_of N z rkey)) y 0 lrows)
            ++ ps)
          (probe_table-by_right lkey rkey lrows (r + 1) ys)

  abbrev pub index_found : List ℕ → DRow N → List ℕ → DRow N → Bool
  index_found lkey x rkey y = HasEq.same (key_eq N) (index_key N x lkey) (index_key N y rkey)

  abbrev paired : ℕ → Rid → ℕ × ℕ
  paired r rid = (Rid.row_idx rid, r)

  map-append_one :
      (r : ℕ) (xs : List Rid) (rid : Rid)
      → map (paired r) (xs ++ rid ∷ []) ≡ map (paired r) xs ++ (rid.row_idx, r) ∷ []
  map-append_one r [] rid = refl
  map-append_one r (x ∷ xs) rid = ap (λ ps. paired r x ∷ ps) (map-append_one r xs rid)

  map-if :
      (b : Bool) (r : ℕ) (xs : List Rid) (rid : Rid) (l : ℕ)
      → rid.row_idx ≡ l
      → map (paired r) (if b then xs ++ rid ∷ [] else xs)
        ≡ (if b then map (paired r) xs ++ (l, r) ∷ [] else map (paired r) xs)
  map-if true r xs rid l h = map-append_one r xs rid ∙ ap (λ n. map (paired r) xs ++ (n, r) ∷ []) h
  map-if false r xs rid l h = refl

  abbrev with_right : ℕ → ℕ → ℕ × ℕ
  with_right r n = (n, r)

  map-partners :
      (b : Bool) (l r : ℕ) (rest : List ℕ)
      → map (with_right r) (if b then l ∷ rest else rest)
        ≡ (if b then (l, r) ∷ map (with_right r) rest else map (with_right r) rest)
  map-partners true l r rest = refl
  map-partners false l r rest = refl

  find-build_index :
      (lkey rkey : List ℕ) (y : DRow N) (l r : ℕ) (rows : List (DRow N)) (s : (join_index N).State)
      → l + length rows < 4294967296
      → map (paired r) ((join_index N).find (build_index N lkey l rows s) (index_key N y rkey))
        ≡ map (paired r) ((join_index N).find s (index_key N y rkey))
          ++ map (with_right r) (partners (λ x z. index_found lkey x rkey z) y l rows)
  find-build_index lkey rkey y l r [] s h =
      sym (append-nil (map (paired r) ((join_index N).find s (index_key N y rkey))))
  find-build_index lkey rkey y l r (row ∷ rows) s h =
      let rid : Rid = record { page_no = pos 0; row_idx = l % 4294967296 } in
      let k = index_key N row lkey in
      let j = index_key N y rkey in
      let rest = partners (λ x z. index_found lkey x rkey z) y (l + 1) rows in
      let b = index_found lkey row rkey y in
      let old = map (paired r) ((join_index N).find s j) in
      find-build_index lkey rkey y (l + 1) r rows ((join_index N).insert k rid s) (omega (arith, h))
      ∙ ap (λ rids. map (paired r) rids ++ map (with_right r) rest)
          ((join_index N).find-insert k j rid s)
      ∙ ap (λ ps. ps ++ map (with_right r) rest)
          (map-if b r ((join_index N).find s j) rid l (omega (arith, h)))
      ∙ later_or_not b old (l, r) (map (with_right r) rest)
      ∙ ap (λ ps. old ++ ps) (sym (map-partners b l r rest))

  pub probe_index-by_right :
      (lkey rkey : List ℕ) (lrows : List (DRow N)) (r : ℕ) (rrows : List (DRow N))
      → length lrows < 4294967296
      → probe_index N (build_index N lkey 0 lrows (join_index N).empty) rkey r rrows
        ≡ by_right (λ x y. index_found lkey x rkey y) 0 lrows r rrows
  probe_index-by_right lkey rkey lrows r [] h = refl
  probe_index-by_right lkey rkey lrows r (y ∷ ys) h =
      let s = build_index N lkey 0 lrows (join_index N).empty in
      let here : List (ℕ × ℕ) =
        map (λ b. (b, r)) (partners (λ x z. index_found lkey x rkey z) y 0 lrows) in
      ap (λ ps. ps ++ probe_index N s rkey (r + 1) ys)
        (find-build_index lkey rkey y 0 r lrows (join_index N).empty (omega (arith, h))
          ∙ ap (λ rids. map (paired r) rids ++ here)
              ((join_index N).find-empty (index_key N y rkey)))
      ∙ ap (λ ps. here ++ ps) (probe_index-by_right lkey rkey lrows (r + 1) ys h)
