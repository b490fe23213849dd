-- ===== src/Index/BPlusTree/Insert.antt =====
-- That an insertion into the tree of src/index/b_plus_tree.cpp is one into its sorted entries.
use chicken_db.Base.{
  ℕ, ◌<◌, ◌≡◌, sym, ap, ◌∙◌, subst, inl, inr, List, [], ◌∷◌, ◌++◌, arith, Bool-cases, All,
}
use chicken_db.Base.Dict.{Dict}
use chicken_db.Base.SortedDict.{IsSorted, put-IsSorted}
use chicken_db.Base.Eq.{HasEq, ◌==◌}
use chicken_db.Base.Order.{HasOrder, lt}
use chicken_db.Index.Buckets
use chicken_db.Index.BPlusTree.{
  Node, leaf, inner, Branches, last, branch, leaf_insert, insert_node, insert_child, insert,
}
use chicken_db.Index.BPlusTree.Leaves.{leaf_insert-left, leaf_insert-right}
use chicken_db.Index.BPlusTree.Maps.{leaf_insert-insert}
use chicken_db.Index.BPlusTree.Ordered.{
  entries, child_entries, up_entries, Each, EachChild, EachUp, IsBefore, IsFrom, IsPast, IsOrdered,
  IsOrderedChild, IsOrderedUp, All-entries, All-child_entries,
}
use chicken_db.Index.BPlusTree.Split.{
  Rule, split_leaf-Each, split_leaf-IsOrderedUp, split_leaf-entries,
}
use chicken_db.Index.BPlusTree.Parent.{
  attach_last-IsOrderedChild, attach_last-entries, new_root-IsOrdered, new_root-entries, attach,
  attach-Each, attach-left, attach-right, joined-IsOrderedChild, joined-entries,
  insert_into_parent-Each, insert_into_parent-IsOrderedUp, insert_into_parent-entries,
}
use chicken_db.Txn.Types.{Rid, rid_eq}

module _ {K : Type 0} ⦃eq : HasEq K⦄ ⦃ord : HasOrder K⦄ where
  All-leaf_insert :
      (P : K → Type 0) (key : K) (rid : Rid) (m : Dict K (List Rid))
      → P key
      → All (λ entry. P (entry.0)) m
      → All (λ entry. P (entry.0)) (leaf_insert key rid m)
  unfolding leaf_insert
  All-leaf_insert P key rid [] p a = (p, tt)
  All-leaf_insert P key rid (entry ∷ rest) p a = elim (Bool-cases (lt (entry.0) key)) [
    | inl l ↦ rw (leaf_insert, l) (a.0, All-leaf_insert P key rid rest p a.1)
    | inr l ↦ elim (Bool-cases (entry.0 == key)) [
      | inl e ↦ rw (leaf_insert, l, e) a
      | inr e ↦ rw (leaf_insert, l, e) (p, a)
    ]
  ]

  pub leaf_insert-IsSorted :
      (key : K) (rid : Rid) (m : Dict K (List Rid)) → IsSorted m → IsSorted (leaf_insert key rid m)
  unfolding Buckets.insert
  leaf_insert-IsSorted key rid m h =
      rw (leaf_insert-insert m key rid h) (put-IsSorted key (Buckets.find m key ++ rid ∷ []) m h)

  rule-IsBefore : (sep : K) → Rule (IsBefore sep) (IsBefore sep)
  rule-IsBefore sep x y h l k = k

  rule-IsPast : (sep : K) → Rule (IsFrom sep) (IsPast sep)
  rule-IsPast sep x y h l k =
      ground (arith, h, l, k, ord.before_total x sep, ord.before_trans sep x y)

module _ {K : Type 0} ⦃eq : HasEq K⦄ ⦃ord : HasOrder K⦄ (order : ℕ) (pos : 0 < order) (key : K)
    (rid : Rid) where
  mutual
    unfolding insert_node Each IsOrdered

    pub insert_node-Each :
        (P Q : K → Type 0) (rule : Rule P Q) (p : P key) (t : Node K)
        → IsOrdered t
        → Each P Q t
        → Each P Q (insert_node order key rid t).0 × EachUp P Q (insert_node order key rid t).1
    insert_node-Each P Q rule p (leaf es) h a =
        split_leaf-Each P Q rule order (leaf_insert key rid es) pos
          (leaf_insert-IsSorted key rid es h) (All-leaf_insert P key rid es p a)
    insert_node-Each P Q rule p (inner children) h a =
        let each = insert_child-Each P Q rule p children h a in
        insert_into_parent-Each P Q order ((insert_child order key rid children).0)
          ((insert_child order key rid children).1) each.0 each.1

    pub insert_child-Each :
        (P Q : K → Type 0) (rule : Rule P Q) (p : P key) (children : Branches K)
        → IsOrderedChild children
        → EachChild P Q children
        → EachChild P Q (insert_child order key rid children).0
          × EachUp P Q (insert_child order key rid children).1
    insert_child-Each P Q rule p (last child) h a = insert_node-Each P Q rule p child h a
    insert_child-Each P Q rule p (branch child sep rest) h a = elim (Bool-cases (lt key sep)) [
      | inl l ↦
          let here = insert_node-Each P Q rule p child h.1.0 a.0 in
          rw (insert_child, l) ((here.0, a.1), here.1)
      | inr l ↦
          let later = insert_child-Each P Q rule p rest h.1.1 a.1.1 in
          rw (insert_child, l) ((a.0, (a.1.0, later.0)), later.1)
    ]

  mutual
    unfolding insert_node Each IsOrdered

    pub insert_node-IsOrderedUp :
        (t : Node K) → IsOrdered t → IsOrderedUp (insert_node order key rid t)
    insert_node-IsOrderedUp (leaf es) h =
        split_leaf-IsOrderedUp order (leaf_insert key rid es) (leaf_insert-IsSorted key rid es h)
    insert_node-IsOrderedUp (inner children) h =
        insert_into_parent-IsOrderedUp order ((insert_child order key rid children).0)
          ((insert_child order key rid children).1) (insert_child-IsOrderedChild children h)

    pub insert_child-IsOrderedChild :
        (children : Branches K)
        → IsOrderedChild children
        → IsOrderedChild (attach (insert_child order key rid children))
    insert_child-IsOrderedChild (last child) h =
        attach_last-IsOrderedChild ((insert_node order key rid child).0)
          ((insert_node order key rid child).1) (insert_node-IsOrderedUp child h)
    insert_child-IsOrderedChild (branch child sep rest) h = elim (Bool-cases (lt key sep)) [
      | inl l ↦
          let each =
            insert_node-Each (IsBefore sep) (IsBefore sep) (rule-IsBefore sep) l child h.1.0
              h.0.0 in
          let grown = insert_node order key rid child in
          rw (insert_child, l)
            (subst IsOrderedChild (sym (attach-left (grown.0) (grown.1) sep rest each.1)) (
              joined-IsOrderedChild (grown.0) (grown.1) sep rest each.0 each.1
                (insert_node-IsOrderedUp child h.1.0) h.0.1 h.1.1))
      | inr l ↦
          let each =
            insert_child-Each (IsFrom sep) (IsPast sep) (rule-IsPast sep) l rest h.1.1 h.0.1 in
          let later = insert_child order key rid rest in
          rw (insert_child, l)
            (subst IsOrderedChild (sym (attach-right child sep (later.0) (later.1) each.1)) (
              (h.0.0, attach-Each (IsFrom sep) (IsPast sep) (later.0) (later.1) each.0 each.1),
              (h.1.0, insert_child-IsOrderedChild rest h.1.1),
            ))
    ]

  mutual
    unfolding insert_node Each IsOrdered entries

    pub insert_node-entries :
        (t : Node K)
        → IsOrdered t
        → entries (insert_node order key rid t).0 ++ up_entries (insert_node order key rid t).1
          ≡ leaf_insert key rid (entries t)
    insert_node-entries (leaf es) h = split_leaf-entries order (leaf_insert key rid es)
    insert_node-entries (inner children) h =
        insert_into_parent-entries order ((insert_child order key rid children).0)
          ((insert_child order key rid children).1)
        ∙ insert_child-entries children h

    pub insert_child-entries :
        (children : Branches K)
        → IsOrderedChild children
        → child_entries (attach (insert_child order key rid children))
          ≡ leaf_insert key rid (child_entries children)
    insert_child-entries (last child) h =
        attach_last-entries ((insert_node order key rid child).0)
          ((insert_node order key rid child).1)
        ∙ insert_node-entries child h
    insert_child-entries (branch child sep rest) h = elim (Bool-cases (lt key sep)) [
      | inl l ↦
          let each =
            insert_node-Each (IsBefore sep) (IsBefore sep) (rule-IsBefore sep) l child h.1.0
              h.0.0 in
          let grown = insert_node order key rid child in
          rw (insert_child, l)
            (ap child_entries (attach-left (grown.0) (grown.1) sep rest each.1)
              ∙ joined-entries (grown.0) (grown.1) sep rest
              ∙ ap (λ xs. xs ++ child_entries rest) (insert_node-entries child h.1.0)
              ∙ sym (
                  leaf_insert-left key sep rid (entries child) (child_entries rest) l
                    (All-child_entries (IsFrom sep) (IsPast sep) rest h.0.1)))
      | inr l ↦
          let each =
            insert_child-Each (IsFrom sep) (IsPast sep) (rule-IsPast sep) l rest h.1.1 h.0.1 in
          let later = insert_child order key rid rest in
          rw (insert_child, l)
            (ap child_entries (attach-right child sep (later.0) (later.1) each.1)
              ∙ ap (λ xs. entries child ++ xs) (insert_child-entries rest h.1.1)
              ∙ sym (
                  leaf_insert-right key sep rid (entries child) (child_entries rest) l
                    (All-entries (IsBefore sep) (IsBefore sep) child h.0.0)))
    ]

  pub insert-IsOrdered : (root : Node K) → IsOrdered root → IsOrdered (insert order key rid root)
  unfolding insert
  insert-IsOrdered root h =
      new_root-IsOrdered ((insert_node order key rid root).0) ((insert_node order key rid root).1)
        (insert_node-IsOrderedUp root h)

  pub insert-entries :
      (root : Node K)
      → IsOrdered root
      → entries (insert order key rid root) ≡ leaf_insert key rid (entries root)
  unfolding insert
  insert-entries root h =
      new_root-entries ((insert_node order key rid root).0) ((insert_node order key rid root).1)
      ∙ insert_node-entries root h
