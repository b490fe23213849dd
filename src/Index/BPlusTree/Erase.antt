-- ===== src/Index/BPlusTree/Erase.antt =====
-- That an erasure from the tree of src/index/b_plus_tree.cpp is one from its sorted entries.
use chicken_db.Base.{
  ◌≡◌, refl, sym, ap, ◌∙◌, subst, inl, inr, ◌&&◌, List, [], ◌∷◌, ◌++◌, Bool-cases, All,
}
use chicken_db.Index.Bitmap.Range.{erase_rid-IsSorted}
use chicken_db.Base.Dict.{Dict}
use chicken_db.Base.SortedDict.{IsSorted}
use chicken_db.Base.Eq.{HasEq, ◌==◌, contains}
use chicken_db.Base.Order.{HasOrder, lt}
use chicken_db.Index.Interface.{remove_first}
use chicken_db.Index.BPlusTree.{
  Node, leaf, inner, Branches, last, branch, leaf_erase, put_back, erase, erase_child,
}
use chicken_db.Index.BPlusTree.Leaves.{leaf_erase-left, leaf_erase-right}
use chicken_db.Index.BPlusTree.Maps.{leaf_erase-erase}
use chicken_db.Index.BPlusTree.Ordered.{
  entries, child_entries, Each, EachChild, IsBefore, IsFrom, IsPast, IsOrdered, IsOrderedChild,
  All-entries, All-child_entries,
}
use chicken_db.Txn.Types.{Rid, rid_eq}

module _ {K : Type 0} ⦃eq : HasEq K⦄ ⦃ord : HasOrder K⦄ where
  All-put_back :
      (P : K → Type 0) (key : K) (rids : List Rid) (m : Dict K (List Rid))
      → P key
      → All (λ entry. P (entry.0)) m
      → All (λ entry. P (entry.0)) (put_back key rids m)
  All-put_back P key [] m p a = a
  All-put_back P key (r ∷ rids) m p a = (p, a)

  All-leaf_erase :
      (P : K → Type 0) (key : K) (rid : Rid) (m : Dict K (List Rid))
      → All (λ entry. P (entry.0)) m
      → All (λ entry. P (entry.0)) (leaf_erase key rid m).0
  unfolding leaf_erase
  All-leaf_erase P key rid [] a = tt
  All-leaf_erase P key rid (entry ∷ rest) a = elim (Bool-cases (lt (entry.0) key)) [
    | inl l ↦ rw (leaf_erase, l) (a.0, All-leaf_erase P key rid rest a.1)
    | inr l ↦ elim (Bool-cases (entry.0 == key && contains rid (entry.1))) [
      | inl e ↦
          rw (leaf_erase, l, e) (All-put_back P (entry.0) (remove_first rid (entry.1)) rest a.0 a.1)
      | inr e ↦ rw (leaf_erase, l, e) a
    ]
  ]

  leaf_erase-IsSorted :
      (key : K) (rid : Rid) (m : Dict K (List Rid)) → IsSorted m → IsSorted (leaf_erase key rid m).0
  leaf_erase-IsSorted key rid m h =
      subst (λ out. IsSorted (out.0)) (sym (leaf_erase-erase m key rid h))
        (erase_rid-IsSorted key rid m h)

module _ {K : Type 0} ⦃eq : HasEq K⦄ ⦃ord : HasOrder K⦄ (key : K) (rid : Rid) where
  mutual
    unfolding erase Each

    erase-Each : (P Q : K → Type 0) (t : Node K) → Each P Q t → Each P Q (erase key rid t).0
    erase-Each P Q (leaf es) a = All-leaf_erase P key rid es a
    erase-Each P Q (inner children) a = erase_child-Each P Q children a

    erase_child-Each :
        (P Q : K → Type 0) (children : Branches K)
        → EachChild P Q children
        → EachChild P Q (erase_child key rid children).0
    erase_child-Each P Q (last child) a = erase-Each P Q child a
    erase_child-Each P Q (branch child sep rest) a = elim (Bool-cases (lt key sep)) [
      | inl l ↦ rw (erase_child, l) (erase-Each P Q child a.0, a.1)
      | inr l ↦ rw (erase_child, l) (a.0, (a.1.0, erase_child-Each P Q rest a.1.1))
    ]

  mutual
    unfolding erase Each IsOrdered

    erase_node-IsOrdered : (t : Node K) → IsOrdered t → IsOrdered (erase key rid t).0
    erase_node-IsOrdered (leaf es) h = leaf_erase-IsSorted key rid es h
    erase_node-IsOrdered (inner children) h = erase_child-IsOrdered children h

    erase_child-IsOrdered :
        (children : Branches K)
        → IsOrderedChild children
        → IsOrderedChild (erase_child key rid children).0
    erase_child-IsOrdered (last child) h = erase_node-IsOrdered child h
    erase_child-IsOrdered (branch child sep rest) h = elim (Bool-cases (lt key sep)) [
      | inl l ↦
          rw (erase_child, l)
            (
              (erase-Each (IsBefore sep) (IsBefore sep) child h.0.0, h.0.1),
              (erase_node-IsOrdered child h.1.0, h.1.1),
            )
      | inr l ↦
          rw (erase_child, l)
            (
              (h.0.0, erase_child-Each (IsFrom sep) (IsPast sep) rest h.0.1),
              (h.1.0, erase_child-IsOrdered rest h.1.1),
            )
    ]

  mutual
    unfolding erase Each IsOrdered entries

    erase_node-entries :
        (t : Node K)
        → IsOrdered t
        → (entries (erase key rid t).0, (erase key rid t).1) ≡ leaf_erase key rid (entries t)
    erase_node-entries (leaf es) h = refl
    erase_node-entries (inner children) h = erase_child-entries children h

    erase_child-entries :
        (children : Branches K)
        → IsOrderedChild children
        → (child_entries (erase_child key rid children).0, (erase_child key rid children).1)
          ≡ leaf_erase key rid (child_entries children)
    erase_child-entries (last child) h = erase_node-entries child h
    erase_child-entries (branch child sep rest) h = elim (Bool-cases (lt key sep)) [
      | inl l ↦
          rw (erase_child, l)
            (ap (λ out. (out.0 ++ child_entries rest, out.1)) (erase_node-entries child h.1.0)
              ∙ sym (
                  leaf_erase-left key sep rid (entries child) (child_entries rest) l
                    (All-child_entries (IsFrom sep) (IsPast sep) rest h.0.1)))
      | inr l ↦
          rw (erase_child, l)
            (ap (λ out. (entries child ++ out.0, out.1)) (erase_child-entries rest h.1.1)
              ∙ sym (
                  leaf_erase-right key sep rid (entries child) (child_entries rest) l
                    (All-entries (IsBefore sep) (IsBefore sep) child h.0.0)))
    ]

  pub erase-IsOrdered : (root : Node K) → IsOrdered root → IsOrdered (erase key rid root).0
  erase-IsOrdered root h = erase_node-IsOrdered root h

  pub erase-entries :
      (root : Node K)
      → IsOrdered root
      → (entries (erase key rid root).0, (erase key rid root).1) ≡ leaf_erase key rid (entries root)
  erase-entries root h = erase_node-entries root h
