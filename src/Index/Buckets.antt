-- ===== src/Index/Buckets.antt =====
-- What src/index/hash_index.cpp and src/index/bitmap_index.cpp share: a map from keys to the rids
-- under them, over any map with a `m[key] = value` that lookups respect.
use chicken_db.Base.{
  ◌≡◌, refl, sym, ap, ◌∙◌, subst, inl, inr, Bool, true, false, none, some, List, [], ◌∷◌, ◌++◌,
  arith, if◌then◌else◌, Bool-cases, Option-cases,
}
use chicken_db.Index.Interface.{Index, remove_first-absent, remove_first}
use chicken_db.Base.Eq.{==_self, HasEq, ◌==◌, contains}
use chicken_db.Base.Dict.{Dict, lookup, lookup-erase}
use chicken_db.Base.Dict
use chicken_db.Txn.Types.{Rid, rid_eq}

module _ {K : Type 0} ⦃eq : HasEq K⦄ where
  unfoldable pub find : Dict K (List Rid) → K → List Rid
  find s key = elim (lookup key s) [ none ↦ [] | some rids ↦ rids ]

module _ {K : Type 0} ⦃eq : HasEq K⦄ (put : K → List Rid → Dict K (List Rid) → Dict K (List Rid))
    (lookup-put : (key other : K) (val : List Rid) (m : Dict K (List Rid))
      → lookup other (put key val m) ≡ (if key == other then some val else lookup other m)) where
  unfoldable pub insert : K → Rid → Dict K (List Rid) → Dict K (List Rid)
  unfolding find
  insert key rid s = put key (find s key ++ rid ∷ []) s

  -- An entry that runs empty leaves the map.
  abbrev pub put_back : K → List Rid → Dict K (List Rid) → Dict K (List Rid)
  put_back key [] s = Dict.erase key s
  put_back key (r ∷ rids) s = put key (r ∷ rids) s

  unfoldable pub erase : K → Rid → Dict K (List Rid) → Dict K (List Rid) × Bool
  erase key rid s = elim (lookup key s) [
    | none ↦ (s, false)
    | some rids ↦
        if contains rid rids then (put_back key (remove_first rid rids) s, true) else (s, false)
  ]

  pub find-nothing : (k : K) → find [] k ≡ []
  unfolding find lookup
  find-nothing k = refl

  pub find-insert :
      (k j : K) (r : Rid) (s : Dict K (List Rid))
      → find (insert k r s) j ≡ (if k == j then find s j ++ r ∷ [] else find s j)
  unfolding find insert
  find-insert k j r s = elim (Bool-cases (k == j)) [
    | inl e ↦
        subst (λ x. find (insert k r s) x ≡ (if k == x then find s x ++ r ∷ [] else find s x))
          ((eq.same_iff k j).0 e)
          (rw (find, insert, lookup-put k k (find s k ++ r ∷ []) s, ==_self k) refl)
    | inr e ↦ rw (find, insert, lookup-put k j (find s k ++ r ∷ []) s, e) refl
  ]

  find-put_back :
      (k j : K) (rids : List Rid) (s : Dict K (List Rid))
      → find (put_back k rids s) j ≡ (if k == j then rids else find s j)
  unfolding find
  find-put_back k j [] s = ground (arith, lookup-erase k j s)
  find-put_back k j (r ∷ rids) s = ground (arith, lookup-put k j (r ∷ rids) s)

  unchanged :
      (k j : K) (rids : List Rid) (s : Dict K (List Rid))
      → find s k ≡ rids
      → find s j ≡ (if k == j then rids else find s j)
  unchanged k j rids s h = elim (Bool-cases (k == j)) [
    | inl e ↦ rw e (sym (ap (find s) ((eq.same_iff k j).0 e)) ∙ h)
    | inr e ↦ rw e refl
  ]

  find-some :
      (k : K) (rids : List Rid) (s : Dict K (List Rid)) → lookup k s ≡ some rids → find s k ≡ rids
  unfolding find
  find-some k rids s h = rw (find, h) refl

  find-none : (k : K) (s : Dict K (List Rid)) → lookup k s ≡ none → find s k ≡ []
  unfolding find
  find-none k s h = rw (find, h) refl

  -- What an erasure does to the rids under its key.
  Erased : K → Rid → K → Dict K (List Rid) → Dict K (List Rid) × Bool → Type 0
  Erased k r j s out =
      (find (out.0) j ≡ (if k == j then remove_first r (find s k) else find s j))
      × (out.1 ≡ contains r (find s k))

  erase-Erased : (k j : K) (r : Rid) (s : Dict K (List Rid)) → Erased k r j s (erase k r s)
  unfolding erase Erased
  erase-Erased k j r s = elim (Option-cases (lookup k s)) [
    | inl e ↦ rw (erase, e, find-none k s e) (unchanged k j [] s (find-none k s e), refl)
    | inr (rids, e) ↦ elim (Bool-cases (contains r rids)) [
      | inl c ↦
          rw (erase, e, c, find-some k rids s e) (find-put_back k j (remove_first r rids) s, sym c)
      | inr c ↦
          rw (erase, e, c, find-some k rids s e, remove_first-absent r rids c)
            (unchanged k j rids s (find-some k rids s e), sym c)
    ]
  ]

  pub find-erase :
      (k j : K) (r : Rid) (s : Dict K (List Rid))
      → find ((erase k r s).0) j ≡ (if k == j then remove_first r (find s j) else find s j)
  unfolding Erased
  find-erase k j r s = elim (Bool-cases (k == j)) [
    | inl e ↦ rw e (
        subst (λ x. find ((erase k r s).0) j ≡ remove_first r (find s x)) ((eq.same_iff k j).0 e)
          (subst
            (λ b. find ((erase k r s).0) j ≡ (if b then remove_first r (find s k) else find s j)) e
            (erase-Erased k j r s).0))
    | inr e ↦ rw e (
        subst (λ b. find ((erase k r s).0) j ≡ (if b then remove_first r (find s k) else find s j))
          e (erase-Erased k j r s).0)
  ]

  pub found : (k : K) (r : Rid) (s : Dict K (List Rid)) → (erase k r s).1 ≡ contains r (find s k)
  unfolding Erased
  found k r s = (erase-Erased k k r s).1

  -- These operations keep the laws of an index.
  abbrev pub bucket_index : Index K
  bucket_index = record {
    State = Dict K (List Rid);
    empty = [];
    insert = insert;
    erase = erase;
    find = find;
    find-empty = find-nothing;
    find-insert = find-insert;
    find-erase = find-erase;
    erase_found = found;
  }
