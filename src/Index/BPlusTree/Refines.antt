-- ===== src/Index/BPlusTree/Refines.antt =====
-- That the tree of src/index/b_plus_tree.cpp keeps the interface of src/include/index/index.h, and
-- answers as the ordered map of src/index/bitmap_index.cpp does.
use chicken_db.Base.{
  ℕ, ◌<◌, ◌≡◌, refl, ap, ◌∙◌, Bool, true, false, List, [], ◌∷◌, ◌++◌, arith, if◌then◌else◌,
}
use chicken_db.Base.Dict.{Dict}
use chicken_db.Base.SortedDict.{put, lookup-put, IsSorted, Above}
use chicken_db.Base.Eq.{HasEq, ◌==◌, contains}
use chicken_db.Base.Order.{HasOrder, lt}
use chicken_db.Index.Bitmap
use chicken_db.Index.Bitmap.{bitmap_index}
use chicken_db.Index.Buckets
use chicken_db.Index.Interface.{Index, IndexOp, insert_op, erase_op, run_index, remove_first}
use chicken_db.Index.BPlusTree.{
  leaf_find, find_leaf, Node, leaf, inner, Branches, last, branch, find, insert, erase, range,
  scan_all,
}
use chicken_db.Index.BPlusTree.Leaves.{Below, AtLeast}
use chicken_db.Index.BPlusTree.Maps.{leaf_find-lookup, leaf_insert-insert, leaf_erase-erase}
use chicken_db.Index.BPlusTree.Ordered.{
  entries, child_entries, IsBefore, IsFrom, IsPast, IsOrdered, IsOrderedChild, All-entries,
  All-child_entries,
}
use chicken_db.Index.BPlusTree.Insert.{insert-IsOrdered, insert-entries}
use chicken_db.Index.BPlusTree.Erase.{erase-IsOrdered, erase-entries}
use chicken_db.Index.BPlusTree.Queries.{find-entries, range-entries, scan_all-entries}
use chicken_db.Txn.Types.{Rid, rid_eq}

-- `new BPlusTreeIndex`.
abbrev pub empty : {K : Type 0} → Node K
empty = leaf []

pub empty-IsOrdered : (K : Type 0) ⦃eq : HasEq K⦄ ⦃ord : HasOrder K⦄ → IsOrdered {K = K} empty
unfolding IsOrdered
empty-IsOrdered K = tt

-- Trees in order.
abbrev pub OrderedTree : (K : Type 0) ⦃eq : HasEq K⦄ ⦃ord : HasOrder K⦄ → Type 0
OrderedTree K = (t : Node K) × IsOrdered t

module _ {K : Type 0} ⦃eq : HasEq K⦄ ⦃ord : HasOrder K⦄ where
  before_from : (x sep y : K) → lt x sep ≡ true → lt y sep ≡ false → lt x y ≡ true
  before_from x sep y h k = ground (arith, h, k, ord.before_trans y x sep, ord.before_total x y)

  Above-append :
      (x : K) (sep : K) (xs ys : Dict K (List Rid))
      → lt x sep ≡ true
      → Above x xs
      → AtLeast sep ys
      → Above x (xs ++ ys)
  Above-append x sep [] [] l a b = tt
  Above-append x sep [] (y ∷ ys) l a b =
      (before_from x sep (y.0) l b.0, Above-append x sep [] ys l tt b.1)
  Above-append x sep (z ∷ xs) ys l a b = (a.0, Above-append x sep xs ys l a.1 b)

  IsSorted-append :
      (sep : K) (xs ys : Dict K (List Rid))
      → IsSorted xs
      → IsSorted ys
      → Below sep xs
      → AtLeast sep ys
      → IsSorted (xs ++ ys)
  IsSorted-append sep [] ys h k b c = k
  IsSorted-append sep (x ∷ xs) ys h k b c =
      (Above-append (x.0) sep xs ys b.0 h.0 c, IsSorted-append sep xs ys h.1 k b.1 c)

  mutual
    unfolding IsOrdered entries

    entries-IsSorted : (t : Node K) → IsOrdered t → IsSorted (entries t)
    entries-IsSorted (leaf es) h = h
    entries-IsSorted (inner children) h = child_entries-IsSorted children h

    child_entries-IsSorted :
        (children : Branches K) → IsOrderedChild children → IsSorted (child_entries children)
    child_entries-IsSorted (last child) h = entries-IsSorted child h
    child_entries-IsSorted (branch child sep rest) h =
        IsSorted-append sep (entries child) (child_entries rest) (entries-IsSorted child h.1.0)
          (child_entries-IsSorted rest h.1.1)
          (All-entries (IsBefore sep) (IsBefore sep) child h.0.0)
          (All-child_entries (IsFrom sep) (IsPast sep) rest h.0.1)

  find-lookup : (t : Node K) (key : K) → IsOrdered t → find t key ≡ Buckets.find (entries t) key
  find-lookup t key h =
      find-entries t key h ∙ leaf_find-lookup (entries t) key (entries-IsSorted t h)

  erase-lookup :
      (key : K) (rid : Rid) (t : Node K)
      → IsOrdered t
      → (entries (erase key rid t).0, (erase key rid t).1)
        ≡ Buckets.erase put lookup-put key rid (entries t)
  erase-lookup key rid t h =
      erase-entries key rid t h ∙ leaf_erase-erase (entries t) key rid (entries-IsSorted t h)

  empty-entries : entries {K = K} empty ≡ []
  unfolding entries
  empty-entries = refl

module _ {K : Type 0} ⦃eq : HasEq K⦄ ⦃ord : HasOrder K⦄ (order : ℕ) (pos : 0 < order) where
  insert-lookup :
      (key : K) (rid : Rid) (t : Node K)
      → IsOrdered t
      → entries (insert order key rid t) ≡ Buckets.insert put lookup-put key rid (entries t)
  insert-lookup key rid t h =
      insert-entries order pos key rid t h
      ∙ leaf_insert-insert (entries t) key rid (entries-IsSorted t h)

  pub find-insert :
      (k j : K) (r : Rid) (s : OrderedTree K)
      → find (insert order k r (s.0)) j ≡ (if k == j then find (s.0) j ++ r ∷ [] else find (s.0) j)
  find-insert k j r s =
      find-lookup (insert order k r (s.0)) j (insert-IsOrdered order pos k r (s.0) s.1)
      ∙ ap (λ m. Buckets.find m j) (insert-lookup k r (s.0) s.1)
      ∙ Buckets.find-insert put lookup-put k j r (entries (s.0))
      ∙ rw (find-lookup (s.0) j s.1) refl

  pub find-erase :
      (k j : K) (r : Rid) (s : OrderedTree K)
      → find (erase k r (s.0)).0 j
        ≡ (if k == j then remove_first r (find (s.0) j) else find (s.0) j)
  find-erase k j r s =
      find-lookup ((erase k r (s.0)).0) j (erase-IsOrdered k r (s.0) s.1)
      ∙ ap (λ m. Buckets.find (m.0) j) (erase-lookup k r (s.0) s.1)
      ∙ Buckets.find-erase put lookup-put k j r (entries (s.0))
      ∙ rw (find-lookup (s.0) j s.1) refl

  pub erase_found :
      (k : K) (r : Rid) (s : OrderedTree K) → (erase k r (s.0)).1 ≡ contains r (find (s.0) k)
  erase_found k r s =
      ap (λ m. m.1) (erase-lookup k r (s.0) s.1)
      ∙ Buckets.found put lookup-put k r (entries (s.0))
      ∙ rw (find-lookup (s.0) k s.1) refl

  pub find-empty : (k : K) → find {K = K} empty k ≡ []
  unfolding find find_leaf leaf_find
  find-empty k = refl

  -- An index whose state is a tree in order.
  abbrev pub b_plus_index : Index K
  b_plus_index = record {
    State = OrderedTree K;
    empty = (empty, empty-IsOrdered K);
    insert = λ k r s. (insert order k r (s.0), insert-IsOrdered order pos k r (s.0) s.1);
    erase = λ k r s. (((erase k r (s.0)).0, erase-IsOrdered k r (s.0) s.1), (erase k r (s.0)).1);
    find = λ s k. find (s.0) k;
    find-empty = find-empty;
    find-insert = find-insert;
    find-erase = find-erase;
    erase_found = erase_found;
  }

  run-entries :
      (ops : List (IndexOp K)) (s : OrderedTree K) (m : Dict K (List Rid))
      → entries (s.0) ≡ m
      → (entries ((run_index b_plus_index ops s).0.0), (run_index b_plus_index ops s).1)
        ≡ run_index (bitmap_index K) ops m
  run-entries [] s m e = ap (λ x. (x, [])) e
  run-entries (insert_op k r ∷ ops) s m e =
      run-entries ops (b_plus_index.insert k r s) (Buckets.insert put lookup-put k r m)
        (insert-lookup k r (s.0) s.1 ∙ ap (Buckets.insert put lookup-put k r) e)
  run-entries (erase_op k r ∷ ops) s m e =
      let erased = erase-lookup k r (s.0) s.1 ∙ ap (Buckets.erase put lookup-put k r) e in
      let rest =
        run-entries ops ((b_plus_index.erase k r s).0) ((Buckets.erase put lookup-put k r m).0)
          (ap (λ x. x.0) erased) in
      λ i. ((rest i).0, (erased i).1 ∷ (rest i).1)

  -- The tree that the calls leave, and the answers of its erasures.
  abbrev pub run_tree : List (IndexOp K) → Node K × List Bool
  run_tree ops = let out = run_index b_plus_index ops (empty, empty-IsOrdered K) in (out.0.0, out.1)

  -- With an order of at least 1, after any insertions and erasures the tree's point queries, range
  -- queries, full scan and answers to erasures are those of a bitmap index after the same calls.
  pub tree_refines_map :
      (ops : List (IndexOp K)) (key lo hi : K)
      → let m = run_index (bitmap_index K) ops [] in
        let t = run_tree ops in
        (find (t.0) key ≡ Buckets.find (m.0) key)
        × ((range (t.0) lo hi ≡ Bitmap.range (m.0) lo hi)
            × ((scan_all (t.0) ≡ Bitmap.scan_all (m.0)) × (t.1 ≡ m.1)))
  tree_refines_map ops key lo hi =
      let out = run_index b_plus_index ops (empty, empty-IsOrdered K) in
      let e = run-entries ops (empty, empty-IsOrdered K) [] empty-entries in
      let same = ap (λ x. x.0) e in
      (
        find-lookup (out.0.0) key (out.0.1) ∙ ap (λ m. Buckets.find m key) same,
        (
          range-entries lo hi (out.0.0) (out.0.1) (entries-IsSorted (out.0.0) (out.0.1))
              ∙ ap (λ m. Bitmap.range m lo hi) same,
          (scan_all-entries (out.0.0) ∙ ap Bitmap.scan_all same, ap (λ x. x.1) e),
        ),
      )
