-- ===== src/Index/BPlusTree/Shape.antt =====
-- The shape of the tree of src/index/b_plus_tree.cpp: how full its nodes are, and how deep its leaves.
use chicken_db.Base.{
  ℕ, zero, suc, ◌+◌, ◌/◌, ◌≤◌, ◌<◌, ◌≡◌, refl, sym, ap, subst, inl, inr, Option, none, some, List,
  [], ◌∷◌, arith, ltb, Bool-cases, length, drop, length-take, length-drop,
}
use chicken_db.Base.Dict.{Dict}
use chicken_db.Base.Eq.{HasEq}
use chicken_db.Base.Order.{HasOrder, lt}
use chicken_db.Index.Interface.{IndexOp, insert_op, erase_op, run_index, remove_first}
use chicken_db.Index.BPlusTree.{
  Node, leaf, inner, Branches, last, branch, leaf_insert, leaf_sibling, split_leaf, size, cut,
  split_internal, add_branch, insert_into_parent, insert_node, insert_child, new_root, insert,
  put_back, leaf_erase, erase, erase_child,
}
use chicken_db.Index.BPlusTree.Refines.{OrderedTree, b_plus_index, run_tree, empty, empty-IsOrdered}
use chicken_db.Txn.Types.{Rid, rid_eq}

module _ {K : Type 0} (order : ℕ) where
  -- No node has more than `order` keys, and all leaves are `height` levels down.
  unfoldable mutual
    pub IsShaped : Node K → ℕ → Type 0
    IsShaped (leaf es) height = (length es ≤ order) × (height ≡ 0)
    IsShaped (inner children) height =
        (size children ≤ order) × ((below : ℕ) × (height ≡ suc below) × AreShaped children below)

    pub AreShaped : Branches K → ℕ → Type 0
    AreShaped (last child) height = IsShaped child height
    AreShaped (branch child sep rest) height = IsShaped child height × AreShaped rest height

  abbrev ShapedUp : Option (K × Node K) → ℕ → Type 0
  ShapedUp none height = Unit
  ShapedUp (some (up, right)) height = IsShaped right height

module _ {K : Type 0} ⦃eq : HasEq K⦄ ⦃ord : HasOrder K⦄ (order : ℕ) (pos : 0 < order) where
  length-leaf_insert :
      (key : K) (rid : Rid) (m : Dict K (List Rid)) → length (leaf_insert key rid m) ≤ length m + 1
  unfolding leaf_insert
  length-leaf_insert key rid [] = omega arith
  length-leaf_insert key rid (entry ∷ rest) = ground (arith, length-leaf_insert key rid rest)

  leaf_sibling-ShapedUp :
      (ys : Dict K (List Rid)) → length ys ≤ order → ShapedUp order (leaf_sibling ys) 0
  unfolding IsShaped
  leaf_sibling-ShapedUp [] l = tt
  leaf_sibling-ShapedUp (y ∷ ys) l = (l, refl)

  split_leaf-IsShaped :
      (es : Dict K (List Rid))
      → length es ≤ order + 1
      → IsShaped order (split_leaf order es).0 0 × ShapedUp order (split_leaf order es).1 0
  unfolding split_leaf IsShaped
  split_leaf-IsShaped es h = elim (Bool-cases (ltb order (length es))) [
    | inl l ↦
        rw (split_leaf, l)
          (
            (ground (arith, h, pos, length-take (length es / 2) es), refl),
            leaf_sibling-ShapedUp (drop (length es / 2) es)
                (ground (arith, h, pos, l, length-drop (length es / 2) es)),
          )
    | inr l ↦ rw (split_leaf, l) ((ground (arith, l), refl), tt)
  ]

  -- The left half keeps `n` separators, and the right half has the rest but one.
  cut-AreShaped :
      (n height : ℕ) (children : Branches K)
      → n < size children
      → size children ≤ order + suc n
      → AreShaped order children height
      → (size (cut n children).0 ≡ n)
        × (AreShaped order (cut n children).0 height
            × ShapedUp order (cut n children).1 (suc height))
  unfolding cut IsShaped
  cut-AreShaped n height (last child) l r a = absurd (omega (arith, l))
  cut-AreShaped zero height (branch child sep rest) l r a =
      (refl, (a.0, (omega (arith, r), (height, refl, a.1))))
  cut-AreShaped (suc n) height (branch child sep rest) l r a =
      let later = cut-AreShaped n height rest (omega (arith, l)) (omega (arith, r)) a.1 in
      (ap suc later.0, ((a.0, later.1.0), later.1.1))

  split_internal-IsShaped :
      (height : ℕ) (children : Branches K)
      → size children ≤ order + 1
      → AreShaped order children height
      → IsShaped order (split_internal order children).0 (suc height)
        × ShapedUp order (split_internal order children).1 (suc height)
  unfolding split_internal IsShaped
  split_internal-IsShaped height children h a = elim (Bool-cases (ltb order (size children))) [
    | inl l ↦
        let halves =
          cut-AreShaped (size children / 2) height children (ground (arith, l, pos))
            (omega (arith, h)) a in
        rw (split_internal, l)
          ((ground (arith, h, pos, halves.0), (height, refl, halves.1.0)), halves.1.1)
    | inr l ↦ rw (split_internal, l) ((ground (arith, l), (height, refl, a)), tt)
  ]

  size-add_branch :
      (up : K) (right : Node K) (children : Branches K)
      → size (add_branch up right children) ≡ size children + 1
  unfolding add_branch
  size-add_branch up right (last child) = omega arith
  size-add_branch up right (branch child sep rest) = ground (arith, size-add_branch up right rest)

  add_branch-AreShaped :
      (height : ℕ) (up : K) (right : Node K) (children : Branches K)
      → IsShaped order right height
      → AreShaped order children height
      → AreShaped order (add_branch up right children) height
  unfolding add_branch IsShaped
  add_branch-AreShaped height up right (last child) r a = (a, r)
  add_branch-AreShaped height up right (branch child sep rest) r a = elim (Bool-cases (lt up sep)) [
    | inl l ↦ rw (add_branch, l) (a.0, (r, a.1))
    | inr l ↦ rw (add_branch, l) (a.0, add_branch-AreShaped height up right rest r a.1)
  ]

  insert_into_parent-IsShaped :
      (height : ℕ) (children : Branches K) (o : Option (K × Node K))
      → size children ≤ order
      → AreShaped order children height
      → ShapedUp order o height
      → IsShaped order (insert_into_parent order (children, o)).0 (suc height)
        × ShapedUp order (insert_into_parent order (children, o)).1 (suc height)
  unfolding insert_into_parent IsShaped
  insert_into_parent-IsShaped height children none h a u = ((h, (height, refl, a)), tt)
  insert_into_parent-IsShaped height children (some (up, right)) h a u =
      split_internal-IsShaped height (add_branch up right children)
        (omega (arith, h, size-add_branch up right children))
        (add_branch-AreShaped height up right children u a)

  mutual
    unfolding insert_node IsShaped

    insert_node-IsShaped :
        (key : K) (rid : Rid) (t : Node K) (height : ℕ)
        → IsShaped order t height
        → IsShaped order (insert_node order key rid t).0 height
          × ShapedUp order (insert_node order key rid t).1 height
    insert_node-IsShaped key rid (leaf es) height a =
        subst
          (λ h.
            IsShaped order (split_leaf order (leaf_insert key rid es)).0 h
            × ShapedUp order (split_leaf order (leaf_insert key rid es)).1 h)
          (sym a.1)
          (split_leaf-IsShaped (leaf_insert key rid es)
            (omega (arith, a.0, length-leaf_insert key rid es)))
    insert_node-IsShaped key rid (inner children) height a =
        let grown = insert_child-AreShaped key rid children (a.1.0) (a.1.2) in
        subst
          (λ h.
            IsShaped order (insert_into_parent order (insert_child order key rid children)).0 h
            × ShapedUp order (insert_into_parent order (insert_child order key rid children)).1 h)
          (sym a.1.1)
          (insert_into_parent-IsShaped (a.1.0) ((insert_child order key rid children).0)
            ((insert_child order key rid children).1) (omega (arith, a.0, grown.0)) grown.1.0
            grown.1.1)

    insert_child-AreShaped :
        (key : K) (rid : Rid) (children : Branches K) (height : ℕ)
        → AreShaped order children height
        → (size (insert_child order key rid children).0 ≡ size children)
          × (AreShaped order (insert_child order key rid children).0 height
              × ShapedUp order (insert_child order key rid children).1 height)
    insert_child-AreShaped key rid (last child) height a =
        (refl, insert_node-IsShaped key rid child height a)
    insert_child-AreShaped key rid (branch child sep rest) height a =
        elim (Bool-cases (lt key sep)) [
          | inl l ↦
              let here = insert_node-IsShaped key rid child height a.0 in
              rw (insert_child, l) (refl, ((here.0, a.1), here.1))
          | inr l ↦
              let later = insert_child-AreShaped key rid rest height a.1 in
              rw (insert_child, l) (ap suc later.0, ((a.0, later.1.0), later.1.1))
        ]

  new_root-IsShaped :
      (height : ℕ) (left : Node K) (o : Option (K × Node K))
      → IsShaped order left height
      → ShapedUp order o height
      → (h : ℕ) × IsShaped order (new_root (left, o)) h
  unfolding new_root IsShaped
  new_root-IsShaped height left none a u = (height, a)
  new_root-IsShaped height left (some (up, right)) a u =
      (suc height, (omega (arith, pos), (height, refl, (a, u))))

  insert-IsShaped :
      (key : K) (rid : Rid) (t : Node K) (height : ℕ)
      → IsShaped order t height
      → (h : ℕ) × IsShaped order (insert order key rid t) h
  unfolding insert
  insert-IsShaped key rid t height a =
      let grown = insert_node-IsShaped key rid t height a in
      new_root-IsShaped height ((insert_node order key rid t).0) ((insert_node order key rid t).1)
        grown.0 grown.1

  length-put_back :
      (key : K) (rids : List Rid) (m : Dict K (List Rid))
      → length (put_back key rids m) ≤ length m + 1
  length-put_back key [] m = omega arith
  length-put_back key (r ∷ rids) m = omega arith

  length-leaf_erase :
      (key : K) (rid : Rid) (m : Dict K (List Rid)) → length (leaf_erase key rid m).0 ≤ length m
  unfolding leaf_erase
  length-leaf_erase key rid [] = omega arith
  length-leaf_erase key rid (entry ∷ rest) = ground (
    arith,
    length-leaf_erase key rid rest,
    length-put_back (entry.0) (remove_first rid (entry.1)) rest,
  )

  mutual
    unfolding erase IsShaped

    erase-IsShaped :
        (key : K) (rid : Rid) (t : Node K) (height : ℕ)
        → IsShaped order t height
        → IsShaped order (erase key rid t).0 height
    erase-IsShaped key rid (leaf es) height a =
        (omega (arith, a.0, length-leaf_erase key rid es), a.1)
    erase-IsShaped key rid (inner children) height a =
        let kids = erase_child-AreShaped key rid children (a.1.0) (a.1.2) in
        (omega (arith, a.0, kids.0), (a.1.0, a.1.1, kids.1))

    erase_child-AreShaped :
        (key : K) (rid : Rid) (children : Branches K) (height : ℕ)
        → AreShaped order children height
        → (size (erase_child key rid children).0 ≡ size children)
          × AreShaped order (erase_child key rid children).0 height
    erase_child-AreShaped key rid (last child) height a =
        (refl, erase-IsShaped key rid child height a)
    erase_child-AreShaped key rid (branch child sep rest) height a =
        elim (Bool-cases (lt key sep)) [
          | inl l ↦ rw (erase_child, l) (refl, (erase-IsShaped key rid child height a.0, a.1))
          | inr l ↦
              let later = erase_child-AreShaped key rid rest height a.1 in
              rw (erase_child, l) (ap suc later.0, (a.0, later.1))
        ]

  run-IsShaped :
      (ops : List (IndexOp K)) (s : OrderedTree K) (height : ℕ)
      → IsShaped order (s.0) height
      → (h : ℕ) × IsShaped order ((run_index (b_plus_index order pos) ops s).0.0) h
  run-IsShaped [] s height a = (height, a)
  run-IsShaped (insert_op k r ∷ ops) s height a =
      let (h, b) = insert-IsShaped k r (s.0) height a in
      run-IsShaped ops ((b_plus_index order pos).insert k r s) h b
  run-IsShaped (erase_op k r ∷ ops) s height a =
      run-IsShaped ops (((b_plus_index order pos).erase k r s).0) height
        (erase-IsShaped k r (s.0) height a)

  -- With an order of at least 1, after any insertions and erasures no node of the tree has more
  -- than `order` keys, and all its leaves stand at one height.
  pub run_tree-IsShaped :
      (ops : List (IndexOp K)) → (h : ℕ) × IsShaped order ((run_tree order pos ops).0) h
  unfolding IsShaped
  run_tree-IsShaped ops = run-IsShaped ops (empty, empty-IsOrdered K) 0 (omega arith, refl)
