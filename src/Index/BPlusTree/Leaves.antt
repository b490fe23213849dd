-- ===== src/Index/BPlusTree/Leaves.antt =====
-- The work of src/index/b_plus_tree.cpp inside one leaf, against the whole of the sorted entries.
use chicken_db.Base.{◌≡◌, refl, ap, Bool, true, false, List, [], ◌∷◌, ◌++◌, arith, All}
use chicken_db.Base.Dict.{Dict}
use chicken_db.Base.Eq.{HasEq, ◌==◌}
use chicken_db.Base.Order.{HasOrder, lt}
use chicken_db.Index.BPlusTree.{put_back, leaf_find, leaf_insert, leaf_erase}
use chicken_db.Index.Interface.{remove_first}
use chicken_db.Txn.Types.{Rid, rid_eq}

module _ {K : Type 0} ⦃eq : HasEq K⦄ ⦃ord : HasOrder K⦄ where
  abbrev pub Below : K → Dict K (List Rid) → Type 0
  Below sep m = All (λ entry. lt (entry.0) sep ≡ true) m

  abbrev pub AtLeast : K → Dict K (List Rid) → Type 0
  AtLeast sep m = All (λ entry. lt (entry.0) sep ≡ false) m

  -- What lies below a separator comes before a key that does not.
  pub before_key : (x sep key : K) → lt x sep ≡ true → lt key sep ≡ false → lt x key ≡ true
  before_key x sep key h k =
      ground (arith, h, k, ord.before_trans key x sep, ord.before_total x key)

  -- What does not lie below a separator comes after a key that does.
  pub after_key :
      (x sep key : K)
      → lt x sep ≡ false
      → lt key sep ≡ true
      → (lt x key ≡ false) × ((x == key) ≡ false)
  after_key x sep key h k = ground (arith, h, k, ord.before_trans x key sep, eq.same_iff x key)

  pub leaf_insert-right :
      (key sep : K) (rid : Rid) (xs ys : Dict K (List Rid))
      → lt key sep ≡ false
      → Below sep xs
      → leaf_insert key rid (xs ++ ys) ≡ xs ++ leaf_insert key rid ys
  unfolding leaf_insert
  leaf_insert-right key sep rid [] ys h b = refl
  leaf_insert-right key sep rid (x ∷ xs) ys h b =
      rw (leaf_insert, before_key (x.0) sep key b.0 h)
        (ap (λ m. x ∷ m) (leaf_insert-right key sep rid xs ys h b.1))

  pub leaf_insert-left :
      (key sep : K) (rid : Rid) (xs ys : Dict K (List Rid))
      → lt key sep ≡ true
      → AtLeast sep ys
      → leaf_insert key rid (xs ++ ys) ≡ leaf_insert key rid xs ++ ys
  unfolding leaf_insert
  leaf_insert-left key sep rid [] [] h b = refl
  leaf_insert-left key sep rid [] (y ∷ ys) h b =
      let after = after_key (y.0) sep key b.0 h in rw (leaf_insert, after.0, after.1) refl
  leaf_insert-left key sep rid (x ∷ xs) ys h b =
      ground (arith, leaf_insert-left key sep rid xs ys h b)

  pub leaf_find-right :
      (key sep : K) (xs ys : Dict K (List Rid))
      → lt key sep ≡ false
      → Below sep xs
      → leaf_find (xs ++ ys) key ≡ leaf_find ys key
  unfolding leaf_find
  leaf_find-right key sep [] ys h b = refl
  leaf_find-right key sep (x ∷ xs) ys h b =
      rw (leaf_find, before_key (x.0) sep key b.0 h) (leaf_find-right key sep xs ys h b.1)

  pub leaf_find-left :
      (key sep : K) (xs ys : Dict K (List Rid))
      → lt key sep ≡ true
      → AtLeast sep ys
      → leaf_find (xs ++ ys) key ≡ leaf_find xs key
  unfolding leaf_find
  leaf_find-left key sep [] [] h b = refl
  leaf_find-left key sep [] (y ∷ ys) h b =
      let after = after_key (y.0) sep key b.0 h in rw (leaf_find, after.0, after.1) refl
  leaf_find-left key sep (x ∷ xs) ys h b = ground (arith, leaf_find-left key sep xs ys h b)

  -- What an erasure leaves and answers.
  abbrev pub append_to : Dict K (List Rid) × Bool → Dict K (List Rid) → Dict K (List Rid) × Bool
  append_to out ys = (out.0 ++ ys, out.1)

  pub leaf_erase-right :
      (key sep : K) (rid : Rid) (xs ys : Dict K (List Rid))
      → lt key sep ≡ false
      → Below sep xs
      → leaf_erase key rid (xs ++ ys) ≡ (xs ++ (leaf_erase key rid ys).0, (leaf_erase key rid ys).1)
  unfolding leaf_erase
  leaf_erase-right key sep rid [] ys h b = refl
  leaf_erase-right key sep rid (x ∷ xs) ys h b =
      rw (leaf_erase, before_key (x.0) sep key b.0 h)
        (ap (λ out. (x ∷ out.0, out.1)) (leaf_erase-right key sep rid xs ys h b.1))

  put_back-append :
      (key : K) (rids : List Rid) (xs ys : Dict K (List Rid))
      → put_back key rids (xs ++ ys) ≡ put_back key rids xs ++ ys
  put_back-append key [] xs ys = refl
  put_back-append key (r ∷ rids) xs ys = refl

  pub leaf_erase-left :
      (key sep : K) (rid : Rid) (xs ys : Dict K (List Rid))
      → lt key sep ≡ true
      → AtLeast sep ys
      → leaf_erase key rid (xs ++ ys) ≡ append_to (leaf_erase key rid xs) ys
  unfolding leaf_erase
  leaf_erase-left key sep rid [] [] h b = refl
  leaf_erase-left key sep rid [] (y ∷ ys) h b =
      let after = after_key (y.0) sep key b.0 h in rw (leaf_erase, after.0, after.1) refl
  leaf_erase-left key sep rid (x ∷ xs) ys h b = ground (
    arith,
    leaf_erase-left key sep rid xs ys h b,
    put_back-append (x.0) (remove_first rid (x.1)) xs ys,
  )
