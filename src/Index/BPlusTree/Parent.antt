-- ===== src/Index/BPlusTree/Parent.antt =====
-- What `InsertIntoParent` of src/index/b_plus_tree.cpp keeps when a child was split.
use chicken_db.Base.{
  ℕ, ◌≡◌, refl, sym, ap, inl, inr, true, false, Option, none, some, ◌++◌, append-nil, append_assoc,
  arith, Bool-cases,
}
use chicken_db.Index.BPlusTree.Split.{
  split_internal-Each, split_internal-IsOrderedUp, split_internal-entries,
}
use chicken_db.Base.Eq.{HasEq}
use chicken_db.Base.Order.{HasOrder, lt, lt_asym}
use chicken_db.Index.BPlusTree.{
  new_root, last, branch, insert_into_parent, Node, Branches, add_branch,
}
use chicken_db.Index.BPlusTree.Ordered.{
  EachChild-imp, IsPast, IsBefore, EachChild, child_entries, IsOrderedChild, IsFrom, entries,
  up_entries, Each, EachUp, IsOrdered, IsOrderedUp,
}
use chicken_db.Txn.Types.{rid_eq}

module _ {K : Type 0} ⦃eq : HasEq K⦄ ⦃ord : HasOrder K⦄ where
  -- The children with a new sibling among them.
  abbrev pub attach : Branches K × Option (K × Node K) → Branches K
  attach (children, none) = children
  attach (children, some (up, right)) = add_branch up right children

  add_branch-Each :
      (P Q : K → Type 0) (up : K) (right : Node K) (children : Branches K)
      → Q up
      → Each P Q right
      → EachChild P Q children
      → EachChild P Q (add_branch up right children)
  unfolding add_branch Each
  add_branch-Each P Q up right (last child) u r a = (a, (u, r))
  add_branch-Each P Q up right (branch child sep rest) u r a = elim (Bool-cases (lt up sep)) [
    | inl l ↦ rw (add_branch, l) (a.0, (u, (r, a.1)))
    | inr l ↦ rw (add_branch, l) (a.0, (a.1.0, add_branch-Each P Q up right rest u r a.1.1))
  ]

  pub attach-Each :
      (P Q : K → Type 0) (children : Branches K) (o : Option (K × Node K))
      → EachChild P Q children
      → EachUp P Q o
      → EachChild P Q (attach (children, o))
  attach-Each P Q children none a u = a
  attach-Each P Q children (some (up, right)) a u = add_branch-Each P Q up right children u.0 u.1 a

  -- A sibling of a child left of a separator stays left of it, and one of a later child right.
  abbrev pub joined : Node K → Option (K × Node K) → K → Branches K → Branches K
  joined left none sep rest = branch left sep rest
  joined left (some (up, right)) sep rest = branch left up (branch right sep rest)

  pub attach-left :
      (left : Node K) (o : Option (K × Node K)) (sep : K) (rest : Branches K)
      → EachUp (IsBefore sep) (IsBefore sep) o
      → attach (branch left sep rest, o) ≡ joined left o sep rest
  unfolding add_branch
  attach-left left none sep rest u = refl
  attach-left left (some (up, right)) sep rest u = rw (add_branch, u.0) refl

  pub attach-right :
      (child : Node K) (sep : K) (later : Branches K) (o : Option (K × Node K))
      → EachUp (IsFrom sep) (IsPast sep) o
      → attach (branch child sep later, o) ≡ branch child sep (attach (later, o))
  unfolding add_branch
  attach-right child sep later none u = refl
  attach-right child sep later (some (up, right)) u = rw (add_branch, lt_asym sep up u.0) refl

  pub joined-IsOrderedChild :
      (left : Node K) (o : Option (K × Node K)) (sep : K) (rest : Branches K)
      → Each (IsBefore sep) (IsBefore sep) left
      → EachUp (IsBefore sep) (IsBefore sep) o
      → IsOrderedUp (left, o)
      → EachChild (IsFrom sep) (IsPast sep) rest
      → IsOrderedChild rest
      → IsOrderedChild (joined left o sep rest)
  unfolding IsOrdered Each
  joined-IsOrderedChild left none sep rest b u h a r = ((b, a), (h, r))
  joined-IsOrderedChild left (some (up, right)) sep rest b u h a r =
      let from = λ (k : K) (l : lt k sep ≡ false). from_trans k l in
      let past = λ (k : K) (l : lt sep k ≡ true). ord.before_trans up sep k u.0 l in
      (
        (
          h.0.0,
          (
            h.0.1,
            (u.0, EachChild-imp (IsFrom sep) (IsPast sep) (IsFrom up) (IsPast up) from past rest a),
          ),
        ),
        (h.1.0, ((u.1, a), (h.1.1, r))),
      )
    where
      from_trans : (k : K) → lt k sep ≡ false → lt k up ≡ false
      from_trans k l = ground (arith, l, u.0, ord.before_trans k up sep)

  pub joined-entries :
      (left : Node K) (o : Option (K × Node K)) (sep : K) (rest : Branches K)
      → child_entries (joined left o sep rest)
        ≡ (entries left ++ up_entries o) ++ child_entries rest
  unfolding entries
  joined-entries left none sep rest =
      ap (λ xs. xs ++ child_entries rest) (sym (append-nil (entries left)))
  joined-entries left (some (up, right)) sep rest =
      sym (append_assoc (entries left) (entries right) (child_entries rest))

  pub insert_into_parent-Each :
      (P Q : K → Type 0) (order : ℕ) (children : Branches K) (o : Option (K × Node K))
      → EachChild P Q children
      → EachUp P Q o
      → Each P Q (insert_into_parent order (children, o)).0
        × EachUp P Q (insert_into_parent order (children, o)).1
  unfolding insert_into_parent Each
  insert_into_parent-Each P Q order children none a u = (a, tt)
  insert_into_parent-Each P Q order children (some (up, right)) a u =
      split_internal-Each P Q order (add_branch up right children)
        (add_branch-Each P Q up right children u.0 u.1 a)

  pub insert_into_parent-IsOrderedUp :
      (order : ℕ) (children : Branches K) (o : Option (K × Node K))
      → IsOrderedChild (attach (children, o))
      → IsOrderedUp (insert_into_parent order (children, o))
  unfolding insert_into_parent IsOrdered
  insert_into_parent-IsOrderedUp order children none h = h
  insert_into_parent-IsOrderedUp order children (some (up, right)) h =
      split_internal-IsOrderedUp order (add_branch up right children) h

  pub insert_into_parent-entries :
      (order : ℕ) (children : Branches K) (o : Option (K × Node K))
      → entries (insert_into_parent order (children, o)).0
          ++ up_entries (insert_into_parent order (children, o)).1
        ≡ child_entries (attach (children, o))
  unfolding insert_into_parent entries
  insert_into_parent-entries order children none = append-nil (child_entries children)
  insert_into_parent-entries order children (some (up, right)) =
      split_internal-entries order (add_branch up right children)

  pub attach_last-IsOrderedChild :
      (left : Node K) (o : Option (K × Node K))
      → IsOrderedUp (left, o)
      → IsOrderedChild (attach (last left, o))
  unfolding add_branch IsOrdered Each
  attach_last-IsOrderedChild left none h = h
  attach_last-IsOrderedChild left (some (up, right)) h = h

  pub attach_last-entries :
      (left : Node K) (o : Option (K × Node K))
      → child_entries (attach (last left, o)) ≡ entries left ++ up_entries o
  unfolding add_branch entries
  attach_last-entries left none = sym (append-nil (entries left))
  attach_last-entries left (some (up, right)) = refl

  pub new_root-IsOrdered :
      (left : Node K) (o : Option (K × Node K))
      → IsOrderedUp (left, o)
      → IsOrdered (new_root (left, o))
  unfolding new_root IsOrdered Each
  new_root-IsOrdered left none h = h
  new_root-IsOrdered left (some (up, right)) h = h

  pub new_root-entries :
      (left : Node K) (o : Option (K × Node K))
      → entries (new_root (left, o)) ≡ entries left ++ up_entries o
  unfolding new_root entries
  new_root-entries left none = sym (append-nil (entries left))
  new_root-entries left (some (up, right)) = refl
