-- ===== src/Index/BPlusTree/Maps.antt =====
-- That a leaf of src/index/b_plus_tree.cpp, sorted, does what an ordered map of buckets does.
use chicken_db.Base.{
  ◌≡◌, refl, sym, ap, ◌∙◌, inl, inr, true, false, none, List, [], ◌∷◌, ◌++◌, arith, Bool-cases,
  Option-cases,
}
use chicken_db.Base.Dict
use chicken_db.Base.SortedDict.{lookup-put, put, IsSorted, Above}
use chicken_db.Index.Buckets
use chicken_db.Base.Dict.{lookup, Dict}
use chicken_db.Base.Eq.{contains, ==_self, HasEq, ◌==◌}
use chicken_db.Base.Order.{lt_asym, HasOrder, lt}
use chicken_db.Index.BPlusTree.{put_back, leaf_find, leaf_insert, leaf_erase}
use chicken_db.Index.Interface.{remove_first}
use chicken_db.Txn.Types.{Rid, rid_eq}

module _ {K : Type 0} ⦃eq : HasEq K⦄ ⦃ord : HasOrder K⦄ where
  later_ne : (x y : K) → lt x y ≡ true → (y == x) ≡ false
  later_ne x y h = ground (arith, h, eq.same_iff y x, ord.before_irrefl x)

  lookup-Above : (key : K) (m : Dict K (List Rid)) → Above key m → lookup key m ≡ none
  unfolding lookup
  lookup-Above key [] h = refl
  lookup-Above key (entry ∷ rest) h =
      rw (lookup, later_ne key (entry.0) h.0) (lookup-Above key rest h.1)

  Above-le : (low key : K) (m : Dict K (List Rid)) → lt low key ≡ true → Above key m → Above low m
  Above-le low key [] h a = tt
  Above-le low key (entry ∷ rest) h a =
      (ord.before_trans low key (entry.0) h a.0, Above-le low key rest h a.1)

  -- In sorted entries the search from the left finds what the map has.
  pub leaf_find-lookup :
      (m : Dict K (List Rid)) (key : K) → IsSorted m → leaf_find m key ≡ Buckets.find m key
  unfolding leaf_find Buckets.find lookup
  leaf_find-lookup [] key h = refl
  leaf_find-lookup (entry ∷ rest) key h = elim (Bool-cases (lt (entry.0) key)) [
    | inl l ↦
        rw (leaf_find, Buckets.find, l, lookup)
          (ground (
            arith,
            leaf_find-lookup rest key h.1,
            l,
            eq.same_iff (entry.0) key,
            ord.before_irrefl key,
          ))
    | inr l ↦ elim (Bool-cases (entry.0 == key)) [
      | inl e ↦ rw (leaf_find, Buckets.find, l, e) refl
      | inr e ↦
          let up : lt key (entry.0) ≡ true =
            ground (arith, e, l, ord.before_total (entry.0) key, eq.same_iff (entry.0) key) in
          rw
            (
              leaf_find,
              Buckets.find,
              l,
              e,
              lookup-Above key rest (Above-le key (entry.0) rest up h.0),
            )
            refl
    ]
  ]

  find_skip :
      (entry : K × List Rid) (rest : Dict K (List Rid)) (key : K)
      → (entry.0 == key) ≡ false
      → Buckets.find (entry ∷ rest) key ≡ Buckets.find rest key
  unfolding Buckets.find lookup
  find_skip entry rest key e = rw (Buckets.find, e) refl

  find_here :
      (entry : K × List Rid) (rest : Dict K (List Rid)) (key : K)
      → (entry.0 == key) ≡ true
      → Buckets.find (entry ∷ rest) key ≡ entry.1
  unfolding Buckets.find lookup
  find_here entry rest key e = rw (Buckets.find, e) refl

  find-Above : (key : K) (m : Dict K (List Rid)) → Above key m → Buckets.find m key ≡ []
  unfolding Buckets.find
  find-Above key m h = rw (Buckets.find, lookup-Above key m h) refl

  -- The insertion that searches from the left is the map's.
  pub leaf_insert-insert :
      (m : Dict K (List Rid)) (key : K) (rid : Rid)
      → IsSorted m
      → leaf_insert key rid m ≡ Buckets.insert put lookup-put key rid m
  unfolding leaf_insert Buckets.insert put
  leaf_insert-insert [] key rid h = rw (find-Above key [] tt) refl
  leaf_insert-insert (entry ∷ rest) key rid h = elim (Bool-cases (lt (entry.0) key)) [
    | inl l ↦
        let apart : (entry.0 == key) ≡ false =
          ground (arith, l, eq.same_iff (entry.0) key, ord.before_irrefl key) in
        rw (leaf_insert, l, Buckets.insert, put, apart, lt_asym (entry.0) key l)
          (ap (λ xs. entry ∷ xs) (leaf_insert-insert rest key rid h.1)
            ∙ ap (λ rids. entry ∷ put key (rids ++ rid ∷ []) rest)
                (sym (find_skip entry rest key apart)))
    | inr l ↦ elim (Bool-cases (entry.0 == key)) [
      | inl e ↦
          rw (leaf_insert, l, e, Buckets.insert, find_here entry rest key e, put)
            (ap (λ k. (k, entry.1 ++ rid ∷ []) ∷ rest) ((eq.same_iff (entry.0) key).0 e))
      | inr e ↦
          let up : lt key (entry.0) ≡ true =
            ground (arith, e, l, ord.before_total (entry.0) key, eq.same_iff (entry.0) key) in
          rw
            (
              leaf_insert,
              l,
              e,
              Buckets.insert,
              find_skip entry rest key e,
              find-Above key rest (Above-le key (entry.0) rest up h.0),
              put,
              up,
            )
            refl
    ]
  ]

  erase-Above_absent : (key : K) (m : Dict K (List Rid)) → Above key m → Dict.erase key m ≡ m
  unfolding Dict.erase
  erase-Above_absent key [] h = refl
  erase-Above_absent key (entry ∷ rest) h =
      rw (Dict.erase, later_ne key (entry.0) h.0)
        (ap (λ xs. entry ∷ xs) (erase-Above_absent key rest h.1))

  put_back_skip :
      (entry : K × List Rid) (rest : Dict K (List Rid)) (key : K) (rids : List Rid)
      → lt (entry.0) key ≡ true
      → Buckets.put_back put lookup-put key rids (entry ∷ rest)
        ≡ entry ∷ Buckets.put_back put lookup-put key rids rest
  unfolding put Dict.erase
  put_back_skip entry rest key [] l =
      let apart : (entry.0 == key) ≡ false =
        ground (arith, l, eq.same_iff (entry.0) key, ord.before_irrefl key) in
      rw (Dict.erase, apart) refl
  put_back_skip entry rest key (r ∷ rids) l =
      let apart : (entry.0 == key) ≡ false =
        ground (arith, l, eq.same_iff (entry.0) key, ord.before_irrefl key) in
      rw (put, apart, lt_asym (entry.0) key l) refl

  put_back_here :
      (entry : K × List Rid) (rest : Dict K (List Rid)) (rids : List Rid)
      → Above (entry.0) rest
      → put_back (entry.0) rids rest ≡ Buckets.put_back put lookup-put (entry.0) rids (entry ∷ rest)
  unfolding put Dict.erase
  put_back_here entry rest [] h =
      rw (Dict.erase, ==_self (entry.0)) (sym (erase-Above_absent (entry.0) rest h))
  put_back_here entry rest (r ∷ rids) h = rw (put, ==_self (entry.0)) refl

  -- The erasure that searches from the left is the map's.
  pub leaf_erase-erase :
      (m : Dict K (List Rid)) (key : K) (rid : Rid)
      → IsSorted m
      → leaf_erase key rid m ≡ Buckets.erase put lookup-put key rid m
  unfolding leaf_erase Buckets.erase lookup
  leaf_erase-erase [] key rid h = refl
  leaf_erase-erase (entry ∷ rest) key rid h = elim (Bool-cases (lt (entry.0) key)) [
    | inl l ↦
        let apart : (entry.0 == key) ≡ false =
          ground (arith, l, eq.same_iff (entry.0) key, ord.before_irrefl key) in
        rw (leaf_erase, l, leaf_erase-erase rest key rid h.1)
          (erase_skip entry rest key rid l apart)
    | inr l ↦ elim (Bool-cases (entry.0 == key)) [
      | inl e ↦ elim (Bool-cases (contains rid (entry.1))) [
        | inl c ↦
            rw (leaf_erase, l, e, c, Buckets.erase)
              (ap (λ xs. (xs, true))
                (put_back_here entry rest (remove_first rid (entry.1)) h.0
                  ∙ ap
                      (λ k.
                        Buckets.put_back put lookup-put k (remove_first rid (entry.1))
                          (entry ∷ rest))
                      ((eq.same_iff (entry.0) key).0 e)))
        | inr c ↦ rw (leaf_erase, l, e, c, Buckets.erase) refl
      ]
      | inr e ↦
          let up : lt key (entry.0) ≡ true =
            ground (arith, e, l, ord.before_total (entry.0) key, eq.same_iff (entry.0) key) in
          rw
            (
              leaf_erase,
              l,
              e,
              Buckets.erase,
              lookup-Above key rest (Above-le key (entry.0) rest up h.0),
            )
            refl
    ]
  ]
    where
      erase_skip :
          (entry : K × List Rid) (rest : Dict K (List Rid)) (key : K) (rid : Rid)
          → lt (entry.0) key ≡ true
          → (entry.0 == key) ≡ false
          → (
            entry ∷ (Buckets.erase put lookup-put key rid rest).0,
            (Buckets.erase put lookup-put key rid rest).1,
          )
            ≡ Buckets.erase put lookup-put key rid (entry ∷ rest)
      erase_skip entry rest key rid l apart = elim (Option-cases (lookup key rest)) [
        | inl n ↦ rw (Buckets.erase, n, apart) refl
        | inr (rids, n) ↦
            ground (arith, n, apart, put_back_skip entry rest key (remove_first rid rids) l)
      ]
