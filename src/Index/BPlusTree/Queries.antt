-- ===== src/Index/BPlusTree/Queries.antt =====
-- That the queries of src/index/b_plus_tree.cpp read the sorted entries.
use chicken_db.Base.{
  ◌≡◌, refl, sym, ap, ◌∙◌, inl, inr, Bool, true, false, List, [], ◌∷◌, ◌++◌, append-nil,
  append_assoc, arith, if◌then◌else◌, Bool-cases, concat,
}
use chicken_db.Base.Dict.{Dict}
use chicken_db.Base.SortedDict.{IsSorted, Above}
use chicken_db.Base.Eq.{HasEq}
use chicken_db.Base.Order.{HasOrder, lt}
use chicken_db.Index.Bitmap
use chicken_db.Index.Bitmap.{gt, collect_to, pairs}
use chicken_db.Index.BPlusTree.{
  Node, leaf, inner, Branches, last, branch, find_leaf, child_leaf, leaf_find, find, leaves,
  child_leaves, leaves_from, child_leaves_from, range_leaf, range_leaves, range, scan_leaf,
  scan_leaves, scan_all,
}
use chicken_db.Index.BPlusTree.Leaves.{Below, AtLeast, before_key, leaf_find-left, leaf_find-right}
use chicken_db.Index.BPlusTree.Ordered.{
  entries, child_entries, Each, IsBefore, IsFrom, IsPast, IsOrdered, IsOrderedChild, All-entries,
  All-child_entries, All-imp_entries,
}
use chicken_db.Txn.Types.{Rid, rid_eq}

concat-append : {A : Type 0} (xs ys : List (List A)) → concat (xs ++ ys) ≡ concat xs ++ concat ys
concat-append [] ys = refl
concat-append (x ∷ xs) ys =
    ap (λ zs. x ++ zs) (concat-append xs ys) ∙ sym (append_assoc x (concat xs) (concat ys))

module _ {K : Type 0} ⦃eq : HasEq K⦄ ⦃ord : HasOrder K⦄ where
  mutual
    unfolding find_leaf Each IsOrdered entries

    find_leaf-entries :
        (t : Node K) (key : K)
        → IsOrdered t
        → leaf_find (find_leaf t key) key ≡ leaf_find (entries t) key
    find_leaf-entries (leaf es) key h = refl
    find_leaf-entries (inner children) key h = child_leaf-entries children key h

    child_leaf-entries :
        (children : Branches K) (key : K)
        → IsOrderedChild children
        → leaf_find (child_leaf children key) key ≡ leaf_find (child_entries children) key
    child_leaf-entries (last child) key h = find_leaf-entries child key h
    child_leaf-entries (branch child sep rest) key h = elim (Bool-cases (lt key sep)) [
      | inl l ↦
          rw (child_leaf, l)
            (find_leaf-entries child key h.1.0
              ∙ sym (
                  leaf_find-left key sep (entries child) (child_entries rest) l
                    (All-child_entries (IsFrom sep) (IsPast sep) rest h.0.1)))
      | inr l ↦
          rw (child_leaf, l)
            (child_leaf-entries rest key h.1.1
              ∙ sym (
                  leaf_find-right key sep (entries child) (child_entries rest) l
                    (All-entries (IsBefore sep) (IsBefore sep) child h.0.0)))
    ]

  pub find-entries :
      (root : Node K) (key : K) → IsOrdered root → find root key ≡ leaf_find (entries root) key
  unfolding find
  find-entries root key h = find_leaf-entries root key h

  mutual
    unfolding leaves entries

    leaves-entries : (t : Node K) → concat (leaves t) ≡ entries t
    leaves-entries (leaf es) = append-nil es
    leaves-entries (inner children) = child_leaves-entries children

    child_leaves-entries :
        (children : Branches K) → concat (child_leaves children) ≡ child_entries children
    child_leaves-entries (last child) = leaves-entries child
    child_leaves-entries (branch child sep rest) =
        concat-append (leaves child) (child_leaves rest)
        ∙ ap (λ xs. xs ++ concat (child_leaves rest)) (leaves-entries child)
        ∙ ap (λ ys. entries child ++ ys) (child_leaves-entries rest)

  scan_leaf-append :
      (xs ys : Dict K (List Rid)) → scan_leaf (xs ++ ys) ≡ scan_leaf xs ++ scan_leaf ys
  unfolding scan_leaf
  scan_leaf-append [] ys = refl
  scan_leaf-append (x ∷ xs) ys =
      ap (λ zs. pairs (x.0) (x.1) ++ zs) (scan_leaf-append xs ys)
      ∙ sym (append_assoc (pairs (x.0) (x.1)) (scan_leaf xs) (scan_leaf ys))

  scan_leaves-concat : (ls : List (Dict K (List Rid))) → scan_leaves ls ≡ scan_leaf (concat ls)
  unfolding scan_leaves scan_leaf
  scan_leaves-concat [] = refl
  scan_leaves-concat (l ∷ ls) =
      ap (λ zs. scan_leaf l ++ zs) (scan_leaves-concat ls) ∙ sym (scan_leaf-append l (concat ls))

  scan_leaf-scan_all : (m : Dict K (List Rid)) → scan_leaf m ≡ Bitmap.scan_all m
  unfolding scan_leaf Bitmap.scan_all
  scan_leaf-scan_all [] = refl
  scan_leaf-scan_all (x ∷ m) = ap (λ zs. pairs (x.0) (x.1) ++ zs) (scan_leaf-scan_all m)

  pub scan_all-entries : (root : Node K) → scan_all root ≡ Bitmap.scan_all (entries root)
  unfolding scan_all
  scan_all-entries root =
      scan_leaves-concat (leaves root)
      ∙ ap scan_leaf (leaves-entries root)
      ∙ scan_leaf-scan_all (entries root)

module _ {K : Type 0} ⦃eq : HasEq K⦄ ⦃ord : HasOrder K⦄ (lo hi : K) where
  -- What follows counts only if no key above `hi` was met.
  abbrev then_range : List Rid × Bool → List Rid × Bool → List Rid × Bool
  then_range first second = if first.1 then first else (first.0 ++ second.0, second.1)

  range_leaf-append :
      (xs ys : Dict K (List Rid))
      → range_leaf lo hi (xs ++ ys) ≡ then_range (range_leaf lo hi xs) (range_leaf lo hi ys)
  unfolding range_leaf
  range_leaf-append [] ys = refl
  range_leaf-append (x ∷ xs) ys = elim (Bool-cases (lt (x.0) lo)) [
    | inl l ↦ rw (range_leaf, l) (range_leaf-append xs ys)
    | inr l ↦ elim (Bool-cases (gt (x.0) hi)) [
      | inl g ↦ rw (range_leaf, l, g) refl
      | inr g ↦
          rw (range_leaf, l, g, range_leaf-append xs ys)
            (prefixed (x.1) (range_leaf lo hi xs) (range_leaf lo hi ys))
    ]
  ]
    where
      prefixed :
          (rids : List Rid) (p q : List Rid × Bool)
          → (rids ++ (then_range p q).0, (then_range p q).1) ≡ then_range (rids ++ p.0, p.1) q
      prefixed rids (out, true) q = refl
      prefixed rids (out, false) q = ap (λ xs. (xs, q.1)) (sym (append_assoc rids out (q.0)))

  range_leaf-Below :
      (xs ys : Dict K (List Rid)) → Below lo xs → range_leaf lo hi (xs ++ ys) ≡ range_leaf lo hi ys
  unfolding range_leaf
  range_leaf-Below [] ys b = refl
  range_leaf-Below (x ∷ xs) ys b = rw (range_leaf, b.0) (range_leaf-Below xs ys b.1)

  range_leaves-concat :
      (ls : List (Dict K (List Rid))) → range_leaves lo hi ls ≡ (range_leaf lo hi (concat ls)).0
  unfolding range_leaves range_leaf
  range_leaves-concat [] = refl
  range_leaves-concat (l ∷ ls) = elim (Bool-cases ((range_leaf lo hi l).1)) [
    | inl s ↦ rw (range_leaves, s, range_leaf-append l (concat ls)) (rw s refl)
    | inr s ↦
        rw (range_leaves, s, range_leaf-append l (concat ls))
          (rw s (ap (λ xs. (range_leaf lo hi l).0 ++ xs) (range_leaves-concat ls)))
  ]

  mutual
    unfolding leaves_from Each IsOrdered entries

    leaves_from-entries :
        (t : Node K)
        → IsOrdered t
        → range_leaf lo hi (concat (leaves_from lo t)) ≡ range_leaf lo hi (entries t)
    leaves_from-entries (leaf es) h = ap (range_leaf lo hi) (append-nil es)
    leaves_from-entries (inner children) h = child_leaves_from-entries children h

    child_leaves_from-entries :
        (children : Branches K)
        → IsOrderedChild children
        → range_leaf lo hi (concat (child_leaves_from lo children))
          ≡ range_leaf lo hi (child_entries children)
    child_leaves_from-entries (last child) h = leaves_from-entries child h
    child_leaves_from-entries (branch child sep rest) h = elim (Bool-cases (lt lo sep)) [
      | inl l ↦
          rw (child_leaves_from, l)
            (ap (range_leaf lo hi) (concat-append (leaves_from lo child) (child_leaves rest))
              ∙ range_leaf-append (concat (leaves_from lo child)) (concat (child_leaves rest))
              ∙ ap (λ p. then_range p (range_leaf lo hi (concat (child_leaves rest))))
                  (leaves_from-entries child h.1.0)
              ∙ ap (λ es. then_range (range_leaf lo hi (entries child)) (range_leaf lo hi es))
                  (child_leaves-entries rest)
              ∙ sym (range_leaf-append (entries child) (child_entries rest)))
      | inr l ↦
          rw (child_leaves_from, l)
            (child_leaves_from-entries rest h.1.1
              ∙ sym (
                  range_leaf-Below (entries child) (child_entries rest) (
                    All-imp_entries (IsBefore sep) (IsBefore lo) (entries child)
                      (λ k b. before_key k sep lo b l)
                      (All-entries (IsBefore sep) (IsBefore sep) child h.0.0))))
    ]

  AtLeast-collect_to :
      (m : Dict K (List Rid)) → AtLeast lo m → (range_leaf lo hi m).0 ≡ collect_to hi m
  unfolding range_leaf
  AtLeast-collect_to [] a = refl
  AtLeast-collect_to (x ∷ m) a = elim (Bool-cases (gt (x.0) hi)) [
    | inl g ↦ rw (range_leaf, a.0, g) refl
    | inr g ↦ rw (range_leaf, a.0, g) (ap (λ xs. x.1 ++ xs) (AtLeast-collect_to m a.1))
  ]

  Above-AtLeast : (k : K) (m : Dict K (List Rid)) → lt k lo ≡ false → Above k m → AtLeast lo m
  Above-AtLeast k [] h a = tt
  Above-AtLeast k (x ∷ m) h a =
      (ground (arith, h, a.0, ord.before_trans k (x.0) lo), Above-AtLeast k m h a.1)

  range_leaf-range :
      (m : Dict K (List Rid)) → IsSorted m → (range_leaf lo hi m).0 ≡ Bitmap.range m lo hi
  unfolding range_leaf Bitmap.range
  range_leaf-range [] h = refl
  range_leaf-range (x ∷ m) h = elim (Bool-cases (lt (x.0) lo)) [
    | inl l ↦ rw (range_leaf, Bitmap.range, l) (range_leaf-range m h.1)
    | inr l ↦
        AtLeast-collect_to (x ∷ m) (l, Above-AtLeast (x.0) m l h.0) ∙ rw (Bitmap.range, l) refl
  ]

  pub range-entries :
      (root : Node K)
      → IsOrdered root
      → IsSorted (entries root)
      → range root lo hi ≡ Bitmap.range (entries root) lo hi
  unfolding range
  range-entries root h s =
      range_leaves-concat (leaves_from lo root)
      ∙ ap (λ p. p.0) (leaves_from-entries root h)
      ∙ range_leaf-range (entries root) s
