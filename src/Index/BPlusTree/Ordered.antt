-- ===== src/Index/BPlusTree/Ordered.antt =====
-- The search-tree order of src/index/b_plus_tree.cpp: what the separators promise.
use chicken_db.Base.{◌≡◌, true, false, Option, none, some, List, [], ◌∷◌, ◌++◌, All}
use chicken_db.Base.Dict.{Dict}
use chicken_db.Base.SortedDict.{IsSorted}
use chicken_db.Base.Eq.{HasEq}
use chicken_db.Base.Order.{HasOrder, lt}
use chicken_db.Index.BPlusTree.{Node, leaf, inner, Branches, last, branch}
use chicken_db.Txn.Types.{Rid, rid_eq}

module _ {K : Type 0} where
  -- All keys with their rids, from left to right.
  unfoldable mutual
    pub entries : Node K → Dict K (List Rid)
    entries (leaf es) = es
    entries (inner children) = child_entries children

    pub child_entries : Branches K → Dict K (List Rid)
    child_entries (last child) = entries child
    child_entries (branch child sep rest) = entries child ++ child_entries rest

  -- `P` of every key that a leaf holds, `Q` of every separator.
  unfoldable mutual
    pub Each : (K → Type 0) → (K → Type 0) → Node K → Type 0
    Each P Q (leaf es) = All (λ entry. P (entry.0)) es
    Each P Q (inner children) = EachChild P Q children

    pub EachChild : (K → Type 0) → (K → Type 0) → Branches K → Type 0
    EachChild P Q (last child) = Each P Q child
    EachChild P Q (branch child sep rest) = Each P Q child × (Q sep × EachChild P Q rest)

  -- The same of a new sibling and the key that goes up.
  abbrev pub EachUp : (K → Type 0) → (K → Type 0) → Option (K × Node K) → Type 0
  EachUp P Q none = Unit
  EachUp P Q (some (up, right)) = Q up × Each P Q right

  abbrev pub up_entries : Option (K × Node K) → Dict K (List Rid)
  up_entries none = []
  up_entries (some (up, right)) = entries right

  pub All-imp_entries :
      (P Q : K → Type 0) (m : Dict K (List Rid))
      → ((k : K) → P k → Q k)
      → All (λ entry. P (entry.0)) m
      → All (λ entry. Q (entry.0)) m
  All-imp_entries P Q [] f a = tt
  All-imp_entries P Q (entry ∷ rest) f a = (f (entry.0) a.0, All-imp_entries P Q rest f a.1)

  mutual
    unfolding Each

    pub Each-imp :
        (P Q P' Q' : K → Type 0) (f : (k : K) → P k → P' k) (g : (k : K) → Q k → Q' k) (t : Node K)
        → Each P Q t
        → Each P' Q' t
    Each-imp P Q P' Q' f g (leaf es) a = All-imp_entries P P' es f a
    Each-imp P Q P' Q' f g (inner children) a = EachChild-imp P Q P' Q' f g children a

    pub EachChild-imp :
        (P Q P' Q' : K → Type 0) (f : (k : K) → P k → P' k) (g : (k : K) → Q k → Q' k)
        (children : Branches K)
        → EachChild P Q children
        → EachChild P' Q' children
    EachChild-imp P Q P' Q' f g (last child) a = Each-imp P Q P' Q' f g child a
    EachChild-imp P Q P' Q' f g (branch child sep rest) a =
        (Each-imp P Q P' Q' f g child a.0, (g sep a.1.0, EachChild-imp P Q P' Q' f g rest a.1.1))

  pub All-append_entries :
      (P : K → Type 0) (xs ys : Dict K (List Rid))
      → All (λ entry. P (entry.0)) xs
      → All (λ entry. P (entry.0)) ys
      → All (λ entry. P (entry.0)) (xs ++ ys)
  All-append_entries P [] ys a b = b
  All-append_entries P (x ∷ xs) ys a b = (a.0, All-append_entries P xs ys a.1 b)

  mutual
    unfolding Each entries

    pub All-entries :
        (P Q : K → Type 0) (t : Node K) → Each P Q t → All (λ entry. P (entry.0)) (entries t)
    All-entries P Q (leaf es) a = a
    All-entries P Q (inner children) a = All-child_entries P Q children a

    pub All-child_entries :
        (P Q : K → Type 0) (children : Branches K)
        → EachChild P Q children
        → All (λ entry. P (entry.0)) (child_entries children)
    All-child_entries P Q (last child) a = All-entries P Q child a
    All-child_entries P Q (branch child sep rest) a =
        All-append_entries P (entries child) (child_entries rest) (All-entries P Q child a.0)
          (All-child_entries P Q rest a.1.1)

module _ {K : Type 0} ⦃ord : HasOrder K⦄ where
  abbrev pub IsBefore : K → K → Type 0
  IsBefore sep k = lt k sep ≡ true

  abbrev pub IsFrom : K → K → Type 0
  IsFrom sep k = lt k sep ≡ false

  abbrev pub IsPast : K → K → Type 0
  IsPast sep k = lt sep k ≡ true

module _ {K : Type 0} ⦃eq : HasEq K⦄ ⦃ord : HasOrder K⦄ where
  -- A separator is above all on its left. The keys on its right are not below it, and the
  -- separators there are above it.
  unfoldable mutual
    pub IsOrdered : Node K → Type 0
    IsOrdered (leaf es) = IsSorted es
    IsOrdered (inner children) = IsOrderedChild children

    pub IsOrderedChild : Branches K → Type 0
    IsOrderedChild (last child) = IsOrdered child
    IsOrderedChild (branch child sep rest) =
        (Each (IsBefore sep) (IsBefore sep) child × EachChild (IsFrom sep) (IsPast sep) rest)
        × (IsOrdered child × IsOrderedChild rest)

  abbrev pub IsOrderedUp : Node K × Option (K × Node K) → Type 0
  IsOrderedUp (left, none) = IsOrdered left
  IsOrderedUp (left, some (up, right)) =
      (Each (IsBefore up) (IsBefore up) left × Each (IsFrom up) (IsPast up) right)
      × (IsOrdered left × IsOrdered right)
