-- ===== src/Index/BPlusTree.antt =====
-- src/index/b_plus_tree.cpp: the B+ tree in memory.
pub mod Leaves
pub mod Maps
pub mod Ordered
pub mod Split
pub mod Parent
pub mod Insert
pub mod Erase
pub mod Queries
pub mod Shape
pub mod Refines
use chicken_db.Base.{
  ℕ, zero, suc, ◌/◌, Bool, true, false, ◌&&◌, Option, none, some, List, [], ◌∷◌, ◌++◌, ltb,
  if◌then◌else◌, length, drop, take,
}
use chicken_db.Base.Dict.{Dict}
use chicken_db.Base.Eq.{HasEq, ◌==◌, contains}
use chicken_db.Base.Order.{HasOrder, lt}
use chicken_db.Index.Bitmap.{gt, pairs}
use chicken_db.Index.Interface.{remove_first}
use chicken_db.Txn.Types.{Rid, rid_eq}

-- A leaf has its keys and the rids under each. An inner node has its children and the separators
-- between them in turn, since `children_` is always one longer than `keys_`. A parent owns its
-- children, and `next_` leads through the leaves from left to right.
mutual
  pub data Node (K : Type 0) : Type 0 where
    leaf : Dict K (List Rid) → Node K
    inner : Branches K → Node K

  pub data Branches (K : Type 0) : Type 0 where
    last : Node K → Branches K
    branch : Node K → K → Branches K → Branches K

-- A node after an insertion, and its new right sibling with the key that goes up between them.
abbrev pub Grown : Type 0 → Type 0
Grown K = Node K × Option (K × Node K)

-- How many separators a node has.
abbrev pub size : {K : Type 0} → Branches K → ℕ
size (last child) = 0
size (branch child sep rest) = suc (size rest)

module _ {K : Type 0} ⦃eq : HasEq K⦄ ⦃ord : HasOrder K⦄ where
  -- `FindLeaf`: below the first separator that is above the key.
  unfoldable mutual
    pub find_leaf : Node K → K → Dict K (List Rid)
    find_leaf (leaf entries) key = entries
    find_leaf (inner children) key = child_leaf children key

    pub child_leaf : Branches K → K → Dict K (List Rid)
    child_leaf (last child) key = find_leaf child key
    child_leaf (branch child sep rest) key =
        let here = find_leaf child key in
        let later = child_leaf rest key in if lt key sep then here else later

  -- `lower_bound` in a leaf, and the rids if it is the key.
  unfoldable pub leaf_find : Dict K (List Rid) → K → List Rid
  leaf_find [] key = []
  leaf_find (entry ∷ rest) key =
      let later = leaf_find rest key in
      if lt (entry.0) key then later else if entry.0 == key then entry.1 else []

  unfoldable pub find : Node K → K → List Rid
  find root key = leaf_find (find_leaf root key) key

  -- `Insert` into a leaf: the rid goes to its key's, or a new key to its place.
  unfoldable pub leaf_insert : K → Rid → Dict K (List Rid) → Dict K (List Rid)
  leaf_insert key rid [] = (key, rid ∷ []) ∷ []
  leaf_insert key rid (entry ∷ rest) =
      let later = leaf_insert key rid rest in
      if lt (entry.0) key
      then entry ∷ later
      else if entry.0 == key
      then (entry.0, entry.1 ++ rid ∷ []) ∷ rest
      else (key, rid ∷ []) ∷ entry ∷ rest

  -- The key that goes up is the sibling's first.
  abbrev pub leaf_sibling : Dict K (List Rid) → Option (K × Node K)
  leaf_sibling [] = none
  leaf_sibling (entry ∷ rest) = some (entry.0, leaf (entry ∷ rest))

  -- A leaf with more than `order` keys is cut in the middle.
  unfoldable pub split_leaf : ℕ → Dict K (List Rid) → Grown K
  split_leaf order entries =
      let mid = length entries / 2 in
      if ltb order (length entries)
      then (leaf (take mid entries), leaf_sibling (drop mid entries))
      else (leaf entries, none)

  -- The first `n` separators with the children around them, the next separator, and what follows.
  unfoldable pub cut : ℕ → Branches K → Branches K × Option (K × Node K)
  cut n (last child) = (last child, none)
  cut zero (branch child sep rest) = (last child, some (sep, inner rest))
  cut (suc n) (branch child sep rest) =
      let later = cut n rest in (branch child sep (later.0), later.1)

  -- `SplitInternal`: the middle separator goes up.
  unfoldable pub split_internal : ℕ → Branches K → Grown K
  split_internal order children =
      let halves = cut (size children / 2) children in
      if ltb order (size children) then (inner (halves.0), halves.1) else (inner children, none)

  -- `InsertIntoParent` below the root: before the first separator above the key.
  unfoldable pub add_branch : K → Node K → Branches K → Branches K
  add_branch key right (last child) = branch child key (last right)
  add_branch key right (branch child sep rest) =
      let later = add_branch key right rest in
      if lt key sep then branch child key (branch right sep rest) else branch child sep later

  unfoldable pub insert_into_parent : ℕ → Branches K × Option (K × Node K) → Grown K
  insert_into_parent order (children, none) = (inner children, none)
  insert_into_parent order (children, some (key, right)) =
      split_internal order (add_branch key right children)

  -- `Insert` down to the leaf, and the splits on the way back.
  unfoldable mutual
    pub insert_node : ℕ → K → Rid → Node K → Grown K
    insert_node order key rid (leaf entries) = split_leaf order (leaf_insert key rid entries)
    insert_node order key rid (inner children) =
        insert_into_parent order (insert_child order key rid children)

    pub insert_child : ℕ → K → Rid → Branches K → Branches K × Option (K × Node K)
    insert_child order key rid (last child) =
        let grown = insert_node order key rid child in (last (grown.0), grown.1)
    insert_child order key rid (branch child sep rest) =
        let grown = insert_node order key rid child in
        let later = insert_child order key rid rest in
        if lt key sep
        then (branch (grown.0) sep rest, grown.1)
        else (branch child sep (later.0), later.1)

  -- `InsertIntoParent` at the root.
  unfoldable pub new_root : Grown K → Node K
  new_root (left, none) = left
  new_root (left, some (key, right)) = inner (branch left key (last right))

  unfoldable pub insert : ℕ → K → Rid → Node K → Node K
  insert order key rid root = new_root (insert_node order key rid root)

  -- `Erase` in a leaf. A key without rids goes.
  abbrev pub put_back : K → List Rid → Dict K (List Rid) → Dict K (List Rid)
  put_back key [] rest = rest
  put_back key (r ∷ rids) rest = (key, r ∷ rids) ∷ rest

  unfoldable pub leaf_erase : K → Rid → Dict K (List Rid) → Dict K (List Rid) × Bool
  leaf_erase key rid [] = ([], false)
  leaf_erase key rid (entry ∷ rest) =
      let later = leaf_erase key rid rest in
      if lt (entry.0) key
      then (entry ∷ later.0, later.1)
      else if entry.0 == key && contains rid (entry.1)
      then (put_back (entry.0) (remove_first rid (entry.1)) rest, true)
      else (entry ∷ rest, false)

  unfoldable mutual
    pub erase : K → Rid → Node K → Node K × Bool
    erase key rid (leaf entries) =
        let erased = leaf_erase key rid entries in (leaf (erased.0), erased.1)
    erase key rid (inner children) =
        let erased = erase_child key rid children in (inner (erased.0), erased.1)

    pub erase_child : K → Rid → Branches K → Branches K × Bool
    erase_child key rid (last child) =
        let erased = erase key rid child in (last (erased.0), erased.1)
    erase_child key rid (branch child sep rest) =
        let erased = erase key rid child in
        let later = erase_child key rid rest in
        if lt key sep
        then (branch (erased.0) sep rest, erased.1)
        else (branch child sep (later.0), later.1)

  -- The leaves in the order of `next_`, from the leftmost on.
  unfoldable mutual
    pub leaves : Node K → List (Dict K (List Rid))
    leaves (leaf entries) = entries ∷ []
    leaves (inner children) = child_leaves children

    pub child_leaves : Branches K → List (Dict K (List Rid))
    child_leaves (last child) = leaves child
    child_leaves (branch child sep rest) = leaves child ++ child_leaves rest

  -- The leaves in the order of `next_`, from the key's on.
  unfoldable mutual
    pub leaves_from : K → Node K → List (Dict K (List Rid))
    leaves_from key (leaf entries) = entries ∷ []
    leaves_from key (inner children) = child_leaves_from key children

    pub child_leaves_from : K → Branches K → List (Dict K (List Rid))
    child_leaves_from key (last child) = leaves_from key child
    child_leaves_from key (branch child sep rest) =
        let here = leaves_from key child in
        let later = child_leaves_from key rest in
        if lt key sep then here ++ child_leaves rest else later

  -- The loop of `Range` over a leaf: the rids found, and whether it has met a key above `hi`.
  unfoldable pub range_leaf : K → K → Dict K (List Rid) → List Rid × Bool
  range_leaf lo hi [] = ([], false)
  range_leaf lo hi (entry ∷ rest) =
      let later = range_leaf lo hi rest in
      if lt (entry.0) lo
      then later
      else if gt (entry.0) hi
      then ([], true)
      else (entry.1 ++ later.0, later.1)

  unfoldable pub range_leaves : K → K → List (Dict K (List Rid)) → List Rid
  range_leaves lo hi [] = []
  range_leaves lo hi (entries ∷ rest) =
      let out = range_leaf lo hi entries in
      let later = range_leaves lo hi rest in if out.1 then out.0 else out.0 ++ later

  unfoldable pub range : Node K → K → K → List Rid
  range root lo hi = range_leaves lo hi (leaves_from lo root)

  unfoldable pub scan_leaf : Dict K (List Rid) → List (K × Rid)
  scan_leaf [] = []
  scan_leaf (entry ∷ rest) = pairs (entry.0) (entry.1) ++ scan_leaf rest

  unfoldable pub scan_leaves : List (Dict K (List Rid)) → List (K × Rid)
  scan_leaves [] = []
  scan_leaves (entries ∷ rest) = scan_leaf entries ++ scan_leaves rest

  unfoldable pub scan_all : Node K → List (K × Rid)
  scan_all root = scan_leaves (leaves root)
