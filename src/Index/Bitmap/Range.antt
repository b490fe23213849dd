-- ===== src/Index/Bitmap/Range.antt =====
-- What the range query of src/index/bitmap_index.cpp finds.
use chicken_db.Base.{
  ◌≡◌, refl, sym, ◌∙◌, subst, ◌↔◌, inl, inr, Bool, true, false, ◌&&◌, ◌||◌, some, List, [], ◌∷◌,
  ◌++◌, arith, Bool-cases, Option-cases,
}
use chicken_db.Index.Interface.{IndexOp, insert_op, erase_op, run_index, remove_first}
use chicken_db.Index.Bitmap.{bitmap_index, range, gt}
use chicken_db.Base.SortedDict.{put, lookup-put, put-IsSorted, erase-IsSorted, IsSorted, Above}
use chicken_db.Index.Buckets.{insert, erase, put_back, find}
use chicken_db.Base.Eq.{contains-append, ◌==◌, ==_self, contains, HasEq}
use chicken_db.Base.Order.{HasOrder, lt}
use chicken_db.Base.Dict.{lookup, Dict}
use chicken_db.Txn.Types.{Rid, rid_eq}
use chicken_db.Index.Bitmap.Within.{within, rids_within, range-within}

or_true : (b : Bool) → (b || true) ≡ true
or_true true = refl
or_true false = refl

module _ {K : Type 0} ⦃eq : HasEq K⦄ ⦃order : HasOrder K⦄ where
  Above-lookup :
      (k j : K) (rids : List Rid) (m : Dict K (List Rid))
      → Above k m
      → lookup j m ≡ some rids
      → lt k j ≡ true
  unfolding lookup
  Above-lookup k j rids [] a h = ground (arith, h)
  Above-lookup k j rids (entry ∷ rest) a h = elim (Bool-cases (entry.0 == j)) [
    | inl e ↦ subst (λ x. lt k x ≡ true) ((eq.same_iff (entry.0) j).0 e) a.0
    | inr e ↦ Above-lookup k j rids rest a.1 (ground (arith, h, e))
  ]

  -- Some key from `lo` to `hi` has the rid.
  abbrev pub Holds : K → K → Rid → Dict K (List Rid) → Type 0
  Holds lo hi r m = (k : K) × ((within lo hi k ≡ true) × (contains r (find m k) ≡ true))

  find-head :
      (entry : K × List Rid) (rest : Dict K (List Rid)) → find (entry ∷ rest) (entry.0) ≡ entry.1
  unfolding find lookup
  find-head entry rest = rw (find, ==_self (entry.0)) refl

  find-tail :
      (entry : K × List Rid) (rest : Dict K (List Rid)) (k : K)
      → (entry.0 == k) ≡ false
      → find (entry ∷ rest) k ≡ find rest k
  unfolding find lookup
  find-tail entry rest k e = rw (find, e) refl

  find-Above :
      (entry : K × List Rid) (rest : Dict K (List Rid)) (k : K) (r : Rid)
      → Above (entry.0) rest
      → contains r (find rest k) ≡ true
      → contains r (find (entry ∷ rest) k) ≡ true
  unfolding find
  find-Above entry rest k r a h = elim (Option-cases (lookup k rest)) [
    | inl e ↦ absurd (ground (arith, h, e))
    | inr (rids, e) ↦
        let up = Above-lookup (entry.0) k rids rest a e in
        let apart : (entry.0 == k) ≡ false =
          ground (arith, up, eq.same_iff (entry.0) k, order.before_irrefl k) in
        rw (find-tail entry rest k apart) h
  ]

  contains-within :
      (lo hi : K) (r : Rid) (entry : K × List Rid) (rest : Dict K (List Rid))
      → contains r (rids_within lo hi (entry ∷ rest))
        ≡ (within lo hi (entry.0) && contains r (entry.1) || contains r (rids_within lo hi rest))
  contains-within lo hi r entry rest = elim (Bool-cases (within lo hi (entry.0))) [
    | inl w ↦ rw w (contains-append r (entry.1) (rids_within lo hi rest))
    | inr w ↦ rw w refl
  ]

  within-Holds :
      (lo hi : K) (r : Rid) (m : Dict K (List Rid))
      → IsSorted m
      → contains r (rids_within lo hi m) ≡ true
      → Holds lo hi r m
  within-Holds lo hi r [] h c = absurd (ground (arith, c))
  within-Holds lo hi r (entry ∷ rest) h c =
      let split = contains-within lo hi r entry rest in
      elim (Bool-cases (within lo hi (entry.0) && contains r (entry.1))) [
        | inl d ↦ (entry.0, (ground (arith, d), rw (find-head entry rest) (ground (arith, d))))
        | inr d ↦
            let (k, (w, found)) = within-Holds lo hi r rest h.1 (ground (arith, d, c, split)) in
            (k, (w, find-Above entry rest k r h.0 found))
      ]

  Holds-within :
      (lo hi k : K) (r : Rid) (m : Dict K (List Rid))
      → within lo hi k ≡ true
      → contains r (find m k) ≡ true
      → contains r (rids_within lo hi m) ≡ true
  unfolding find lookup
  Holds-within lo hi k r [] w c = absurd (ground (arith, c))
  Holds-within lo hi k r (entry ∷ rest) w c = elim (Bool-cases (entry.0 == k)) [
    | inl e ↦
        let same = sym ((eq.same_iff (entry.0) k).0 e) in
        let w' : within lo hi (entry.0) ≡ true = subst (λ x. within lo hi x ≡ true) same w in
        let c' : contains r (find (entry ∷ rest) (entry.0)) ≡ true =
          subst (λ x. contains r (find (entry ∷ rest) x) ≡ true) same c in
        let d : contains r (entry.1) ≡ true =
          subst (λ x. contains r x ≡ true) (find-head entry rest) c' in
        contains-within lo hi r entry rest ∙ rw (w', d) refl
    | inr e ↦
        let later =
          Holds-within lo hi k r rest w
            (subst (λ x. contains r x ≡ true) (find-tail entry rest k e) c) in
        contains-within lo hi r entry rest
        ∙ rw later (or_true (within lo hi (entry.0) && contains r (entry.1)))
  ]

  insert-IsSorted :
      (k : K) (r : Rid) (m : Dict K (List Rid))
      → IsSorted m
      → IsSorted (insert put lookup-put k r m)
  unfolding insert
  insert-IsSorted k r m h = put-IsSorted k (find m k ++ r ∷ []) m h

  put_back-IsSorted :
      (k : K) (rids : List Rid) (m : Dict K (List Rid))
      → IsSorted m
      → IsSorted (put_back put lookup-put k rids m)
  put_back-IsSorted k [] m h = erase-IsSorted k m h
  put_back-IsSorted k (r ∷ rids) m h = put-IsSorted k (r ∷ rids) m h

  pub erase_rid-IsSorted :
      (k : K) (r : Rid) (m : Dict K (List Rid))
      → IsSorted m
      → IsSorted ((erase put lookup-put k r m).0)
  unfolding erase
  erase_rid-IsSorted k r m h = elim (Option-cases (lookup k m)) [
    | inl e ↦ rw (erase, e) h
    | inr (rids, e) ↦ elim (Bool-cases (contains r rids)) [
      | inl c ↦ rw (erase, e, c) (put_back-IsSorted k (remove_first r rids) m h)
      | inr c ↦ rw (erase, e, c) h
    ]
  ]

  pub run-IsSorted :
      (ops : List (IndexOp K)) (m : Dict K (List Rid))
      → IsSorted m
      → IsSorted (run_index (bitmap_index K) ops m).0
  run-IsSorted [] m h = h
  run-IsSorted (insert_op k r ∷ ops) m h = run-IsSorted ops _ (insert-IsSorted k r m h)
  run-IsSorted (erase_op k r ∷ ops) m h = run-IsSorted ops _ (erase_rid-IsSorted k r m h)

  -- After any calls on a new bitmap index, a range query returns a rid exactly if a lookup of some
  -- key from `lo` to `hi`, both included, returns it.
  pub range_finds :
      (ops : List (IndexOp K)) (lo hi : K) (r : Rid)
      → let m = (run_index (bitmap_index K) ops []).0 in
        (contains r (range m lo hi) ≡ true)
        ↔ ((k : K) × ((lt k lo ≡ false) × ((gt k hi ≡ false) × (contains r (find m k) ≡ true))))
  range_finds ops lo hi r =
      let m = (run_index (bitmap_index K) ops []).0 in
      let sorted = run-IsSorted ops [] tt in
      let e = range-within lo hi m sorted in
      (
        (λ c.
            let (k, (w, found)) =
              within-Holds lo hi r m sorted (subst (λ x. contains r x ≡ true) e c) in
            (k, (ground (arith, w), (ground (arith, w), found)))),
        λ h.
            subst (λ x. contains r x ≡ true) (sym e)
              (Holds-within lo hi h.0 r m (ground (arith, h.1.0, h.1.1.0)) h.1.1.1),
      )
