-- ===== src/Index/BPlusTree/Split.antt =====
-- What the splits of src/index/b_plus_tree.cpp keep: the entries, the order, and any property of
-- the keys.
use chicken_db.Base.{
  ℕ, zero, suc, ◌/◌, ◌<◌, ◌≡◌, refl, sym, ap, ◌∙◌, subst, inl, inr, true, Option, none, some, List,
  [], ◌∷◌, ◌++◌, append-nil, append_assoc, arith, ltb, Bool-cases, All, length, drop, take,
  take-drop, length-take,
}
use chicken_db.Base.Dict.{Dict}
use chicken_db.Base.SortedDict.{IsSorted, Above}
use chicken_db.Base.Eq.{HasEq}
use chicken_db.Base.Order.{HasOrder, lt, lt_asym}
use chicken_db.Index.BPlusTree.{
  size, last, branch, inner, cut, Node, Branches, split_internal, leaf, split_leaf, leaf_sibling,
}
use chicken_db.Index.BPlusTree.Leaves.{Below, AtLeast}
use chicken_db.Index.BPlusTree.Ordered.{
  Each-imp, IsPast, IsBefore, EachChild, child_entries, IsOrderedChild, IsFrom, entries, up_entries,
  Each, EachUp, IsOrdered, IsOrderedUp,
}
use chicken_db.Txn.Types.{Rid, rid_eq}

-- A key after one with `P` may separate.
abbrev pub Rule : {K : Type 0} ⦃ord : HasOrder K⦄ → (K → Type 0) → (K → Type 0) → Type 0
Rule {K} P Q = (x y : K) → P x → lt x y ≡ true → P y → Q y

module _ {K : Type 0} ⦃eq : HasEq K⦄ ⦃ord : HasOrder K⦄ where
  Above-append_left :
      (k : K) (xs ys : Dict K (List Rid)) → Above k (xs ++ ys) → Above k xs × Above k ys
  Above-append_left k [] ys h = (tt, h)
  Above-append_left k (x ∷ xs) ys h =
      let rest = Above-append_left k xs ys h.1 in ((h.0, rest.0), rest.1)

  IsSorted-append : (xs ys : Dict K (List Rid)) → IsSorted (xs ++ ys) → IsSorted xs × IsSorted ys
  IsSorted-append [] ys h = (tt, h)
  IsSorted-append (x ∷ xs) ys h =
      let rest = IsSorted-append xs ys h.1 in
      (((Above-append_left (x.0) xs ys h.0).0, rest.0), rest.1)

  Below-append :
      (xs : Dict K (List Rid)) (y : K × List Rid) (ys : Dict K (List Rid))
      → IsSorted (xs ++ y ∷ ys)
      → Below (y.0) xs
  Below-append [] y ys h = tt
  Below-append (x ∷ xs) y ys h =
      ((Above-append_left (x.0) xs (y ∷ ys) h.0).1.0, Below-append xs y ys h.1)

  Above-AtLeast : (k : K) (ys : Dict K (List Rid)) → Above k ys → AtLeast k ys
  Above-AtLeast k [] h = tt
  Above-AtLeast k (y ∷ ys) h = (lt_asym k (y.0) h.0, Above-AtLeast k ys h.1)

  leaf_sibling-IsOrderedUp :
      (xs ys : Dict K (List Rid)) → IsSorted (xs ++ ys) → IsOrderedUp (leaf xs, leaf_sibling ys)
  unfolding IsOrdered Each
  leaf_sibling-IsOrderedUp xs [] h = (IsSorted-append xs [] h).0
  leaf_sibling-IsOrderedUp xs (y ∷ ys) h =
      let parts = IsSorted-append xs (y ∷ ys) h in
      ((Below-append xs y ys h, (ord.before_irrefl (y.0), Above-AtLeast (y.0) ys parts.1.0)), parts)

  leaf_sibling-EachUp :
      (P Q : K → Type 0) (rule : Rule P Q) (xs ys : Dict K (List Rid))
      → 0 < length xs
      → IsSorted (xs ++ ys)
      → All (λ entry. P (entry.0)) (xs ++ ys)
      → All (λ entry. P (entry.0)) xs × EachUp P Q (leaf_sibling ys)
  unfolding Each
  leaf_sibling-EachUp P Q rule [] ys l h a = absurd (omega (arith, l))
  leaf_sibling-EachUp P Q rule (x ∷ xs) ys l h a = ((a.0, (all_parts xs ys a.1).0), up ys h a)
    where
      all_parts :
          (xs ys : Dict K (List Rid))
          → All (λ entry. P (entry.0)) (xs ++ ys)
          → All (λ entry. P (entry.0)) xs × All (λ entry. P (entry.0)) ys
      all_parts [] ys a = (tt, a)
      all_parts (x ∷ xs) ys a = ((a.0, (all_parts xs ys a.1).0), (all_parts xs ys a.1).1)

      up :
          (ys : Dict K (List Rid))
          → IsSorted (x ∷ xs ++ ys)
          → All (λ entry. P (entry.0)) (x ∷ xs ++ ys)
          → EachUp P Q (leaf_sibling ys)
      up [] h a = tt
      up (y ∷ ys) h a =
          let right = (all_parts xs (y ∷ ys) a.1).1 in
          (rule (x.0) (y.0) a.0 (Above-append_left (x.0) xs (y ∷ ys) h.0).1.0 right.0, right)

  pub split_leaf-IsOrderedUp :
      (order : ℕ) (es : Dict K (List Rid)) → IsSorted es → IsOrderedUp (split_leaf order es)
  unfolding split_leaf IsOrdered
  split_leaf-IsOrderedUp order es h = elim (Bool-cases (ltb order (length es))) [
    | inl l ↦
        rw (split_leaf, l)
          (leaf_sibling-IsOrderedUp (take (length es / 2) es) (drop (length es / 2) es)
            (subst IsSorted (sym (take-drop (length es / 2) es)) h))
    | inr l ↦ rw (split_leaf, l) h
  ]

  pub split_leaf-Each :
      (P Q : K → Type 0) (rule : Rule P Q) (order : ℕ) (es : Dict K (List Rid))
      → 0 < order
      → IsSorted es
      → All (λ entry. P (entry.0)) es
      → Each P Q (split_leaf order es).0 × EachUp P Q (split_leaf order es).1
  unfolding split_leaf Each
  split_leaf-Each P Q rule order es pos h a = elim (Bool-cases (ltb order (length es))) [
    | inl l ↦
        let whole = sym (take-drop (length es / 2) es) in
        rw (split_leaf, l)
          (leaf_sibling-EachUp P Q rule (take (length es / 2) es) (drop (length es / 2) es)
            (ground (arith, l, pos, length-take (length es / 2) es)) (subst IsSorted whole h)
            (subst (All (λ entry. P (entry.0))) whole a))
    | inr l ↦ rw (split_leaf, l) (a, tt)
  ]

  pub split_leaf-entries :
      (order : ℕ) (es : Dict K (List Rid))
      → entries (split_leaf order es).0 ++ up_entries (split_leaf order es).1 ≡ es
  unfolding split_leaf entries
  split_leaf-entries order es = elim (Bool-cases (ltb order (length es))) [
    | inl l ↦
        rw (split_leaf, l)
          (ap (λ ys. take (length es / 2) es ++ ys) (sibling (drop (length es / 2) es))
            ∙ take-drop (length es / 2) es)
    | inr l ↦ rw (split_leaf, l) (append-nil es)
  ]
    where
      sibling : (ys : Dict K (List Rid)) → up_entries (leaf_sibling ys) ≡ ys
      sibling [] = refl
      sibling (y ∷ ys) = refl

  cut-Each :
      (P Q : K → Type 0) (n : ℕ) (children : Branches K)
      → EachChild P Q children
      → EachChild P Q (cut n children).0 × EachUp P Q (cut n children).1
  unfolding cut Each
  cut-Each P Q n (last child) a = (a, tt)
  cut-Each P Q zero (branch child sep rest) a = (a.0, a.1)
  cut-Each P Q (suc n) (branch child sep rest) a =
      let later = cut-Each P Q n rest a.1.1 in ((a.0, (a.1.0, later.0)), later.1)

  pub split_internal-Each :
      (P Q : K → Type 0) (order : ℕ) (children : Branches K)
      → EachChild P Q children
      → Each P Q (split_internal order children).0 × EachUp P Q (split_internal order children).1
  unfolding split_internal Each
  split_internal-Each P Q order children a = elim (Bool-cases (ltb order (size children))) [
    | inl l ↦ rw (split_internal, l) (cut-Each P Q (size children / 2) children a)
    | inr l ↦ rw (split_internal, l) (a, tt)
  ]

  -- The halves of a cut, as the order wants them.
  abbrev IsOrderedCut : Branches K × Option (K × Node K) → Type 0
  IsOrderedCut (left, o) = IsOrderedUp (inner left, o)

  cut_suc :
      (child : Node K) (sep : K) (left : Branches K) (o : Option (K × Node K))
      → Each (IsBefore sep) (IsBefore sep) child
      → IsOrdered child
      → EachChild (IsFrom sep) (IsPast sep) left
      → EachUp (IsFrom sep) (IsPast sep) o
      → IsOrderedUp (inner left, o)
      → IsOrderedUp (inner (branch child sep left), o)
  unfolding IsOrdered Each
  cut_suc child sep left none b c e u h = ((b, e), (c, h))
  cut_suc child sep left (some (up, right)) b c e u h =
      let below = λ (k : K) (l : lt k sep ≡ true). ord.before_trans k sep up l u.0 in
      (
        (
          (
            Each-imp (IsBefore sep) (IsBefore sep) (IsBefore up) (IsBefore up) below below child b,
            (u.0, h.0.0),
          ),
          h.0.1,
        ),
        (((b, e), (c, h.1.0)), h.1.1),
      )

  cut-IsOrderedCut :
      (n : ℕ) (children : Branches K) → IsOrderedChild children → IsOrderedCut (cut n children)
  unfolding cut IsOrdered Each
  cut-IsOrderedCut n (last child) h = h
  cut-IsOrderedCut zero (branch child sep rest) h = h
  cut-IsOrderedCut (suc n) (branch child sep rest) h =
      let each = cut-Each (IsFrom sep) (IsPast sep) n rest h.0.1 in
      cut_suc child sep ((cut n rest).0) ((cut n rest).1) h.0.0 h.1.0 each.0 each.1
        (cut-IsOrderedCut n rest h.1.1)

  pub split_internal-IsOrderedUp :
      (order : ℕ) (children : Branches K)
      → IsOrderedChild children
      → IsOrderedUp (split_internal order children)
  unfolding split_internal IsOrdered
  split_internal-IsOrderedUp order children h = elim (Bool-cases (ltb order (size children))) [
    | inl l ↦ rw (split_internal, l) (cut-IsOrderedCut (size children / 2) children h)
    | inr l ↦ rw (split_internal, l) h
  ]

  cut-entries :
      (n : ℕ) (children : Branches K)
      → child_entries (cut n children).0 ++ up_entries (cut n children).1 ≡ child_entries children
  unfolding cut entries
  cut-entries n (last child) = append-nil (entries child)
  cut-entries zero (branch child sep rest) = refl
  cut-entries (suc n) (branch child sep rest) =
      append_assoc (entries child) (child_entries (cut n rest).0) (up_entries (cut n rest).1)
      ∙ ap (λ xs. entries child ++ xs) (cut-entries n rest)

  pub split_internal-entries :
      (order : ℕ) (children : Branches K)
      → entries (split_internal order children).0 ++ up_entries (split_internal order children).1
        ≡ child_entries children
  unfolding split_internal entries
  split_internal-entries order children = elim (Bool-cases (ltb order (size children))) [
    | inl l ↦ rw (split_internal, l) (cut-entries (size children / 2) children)
    | inr l ↦ rw (split_internal, l) (append-nil (child_entries children))
  ]
