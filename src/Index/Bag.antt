-- ===== src/Index/Bag.antt =====
-- What the indexes of src/include/index/index.h stand for: a bag of pairs of a key and a rid.
use chicken_db.Base.{
  ℕ, ◌+◌, ◌-◌, ◌≡◌, refl, sym, ap, ◌∙◌, subst, inl, inr, Bool, false, ◌&&◌, List, [], ◌∷◌, ◌++◌,
  arith, ltb, if◌then◌else◌, Bool-cases,
}
use chicken_db.Base.Eq.{HasEq, ◌==◌, contains}
use chicken_db.Base.Order.{HasOrder}
use chicken_db.Txn.Types.{Rid, rid_eq}
use chicken_db.Index.Interface.{Index, IndexOp, insert_op, erase_op, run_index, remove_first}
use chicken_db.Index.Buckets.{find}
use chicken_db.Index.Hash.{hash_index}
use chicken_db.Index.Bitmap.{bitmap_index}

-- How often a rid stands in a list.
abbrev pub count : Rid → List Rid → ℕ
count r [] = 0
count r (x ∷ xs) = if x == r then count r xs + 1 else count r xs

count-append :
    (r q : Rid) (xs : List Rid)
    → count q (xs ++ r ∷ []) ≡ (if r == q then count q xs + 1 else count q xs)
count-append r q [] = refl
count-append r q (x ∷ xs) = ground (arith, count-append r q xs)

contains-count : (r : Rid) (xs : List Rid) → contains r xs ≡ ltb 0 (count r xs)
contains-count r [] = refl
contains-count r (x ∷ xs) = ground (arith, contains-count r xs)

-- One of the copies goes, if there is one.
count-remove_first : (r : Rid) (xs : List Rid) → count r (remove_first r xs) ≡ count r xs - 1
count-remove_first r [] = refl
count-remove_first r (x ∷ xs) = ground (arith, count-remove_first r xs)

count-remove_other :
    (r q : Rid) (xs : List Rid) → r == q ≡ false → count q (remove_first r xs) ≡ count q xs
count-remove_other r q [] h = refl
count-remove_other r q (x ∷ xs) h = elim (Bool-cases (x == r)) [
  | inl e ↦
      let apart : x == q ≡ false =
        subst (λ y. y == q ≡ false) (sym ((rid_eq.same_iff x r).0 e)) h in
      rw (e, apart) refl
  | inr e ↦ ground (arith, e, count-remove_other r q xs h)
]

-- The number of copies of each pair.
abbrev pub Bag : Type 0 → Type 0
Bag K = K → Rid → ℕ

abbrev pub empty_bag : {K : Type 0} → Bag K
empty_bag k r = 0

module _ {K : Type 0} ⦃eq : HasEq K⦄ where
  abbrev pub one_more : K → Rid → Bag K → Bag K
  one_more k r b j q = if k == j && r == q then b j q + 1 else b j q

  abbrev pub one_less : K → Rid → Bag K → Bag K
  one_less k r b j q = if k == j && r == q then b j q - 1 else b j q

  -- The calls on a bag. An erasure answers whether there was a copy.
  abbrev pub run_bag : List (IndexOp K) → Bag K → Bag K × List Bool
  run_bag [] b = (b, [])
  run_bag (insert_op k r ∷ ops) b = run_bag ops (one_more k r b)
  run_bag (erase_op k r ∷ ops) b =
      let (end, answers) = run_bag ops (one_less k r b) in (end, ltb 0 (b k r) ∷ answers)

  -- An index that holds each pair as often as the bag.
  abbrev pub Holds : (I : Index K) → I.State → Bag K → Type 0
  Holds I s b = (k : K) (r : Rid) → count r (I.find s k) ≡ b k r

  Holds-insert :
      (I : Index K) (k : K) (r : Rid) (s : I.State) (b : Bag K)
      → Holds I s b
      → Holds I (I.insert k r s) (one_more k r b)
  Holds-insert I k r s b h j q = elim (Bool-cases (k == j)) [
    | inl e ↦ rw (I.find-insert k j r s, e) (ground (arith, h j q, count-append r q (I.find s j)))
    | inr e ↦ rw (I.find-insert k j r s, e) (h j q)
  ]

  Holds-erase :
      (I : Index K) (k : K) (r : Rid) (s : I.State) (b : Bag K)
      → Holds I s b
      → Holds I ((I.erase k r s).0) (one_less k r b)
  Holds-erase I k r s b h j q = elim (Bool-cases (k == j)) [
    | inl e ↦ elim (Bool-cases (r == q)) [
      | inl same ↦
          rw (I.find-erase k j r s, e, same)
            (subst (λ x. count x (remove_first r (I.find s j)) ≡ count x (I.find s j) - 1)
                ((rid_eq.same_iff r q).0 same) (count-remove_first r (I.find s j))
              ∙ ap (λ n. n - 1) (h j q))
      | inr differ ↦
          rw (I.find-erase k j r s, e, differ) (count-remove_other r q (I.find s j) differ ∙ h j q)
    ]
    | inr e ↦ rw (I.find-erase k j r s, e) (h j q)
  ]

  run_index-Holds :
      (I : Index K) (ops : List (IndexOp K)) (s : I.State) (b : Bag K)
      → Holds I s b
      → Holds I ((run_index I ops s).0) ((run_bag ops b).0)
        × ((run_index I ops s).1 ≡ (run_bag ops b).1)
  run_index-Holds I [] s b h = (h, refl)
  run_index-Holds I (insert_op k r ∷ ops) s b h =
      run_index-Holds I ops (I.insert k r s) (one_more k r b) (Holds-insert I k r s b h)
  run_index-Holds I (erase_op k r ∷ ops) s b h =
      let rest =
        run_index-Holds I ops ((I.erase k r s).0) (one_less k r b) (Holds-erase I k r s b h) in
      let first : (I.erase k r s).1 ≡ ltb 0 (b k r) =
        I.erase_found k r s ∙ contains-count r (I.find s k) ∙ rw (h k r) refl in
      (rest.0, λ i. first i ∷ rest.1 i)

  pub index_refines_bag :
      (I : Index K) (ops : List (IndexOp K))
      → Holds I ((run_index I ops I.empty).0) ((run_bag ops empty_bag).0)
        × ((run_index I ops I.empty).1 ≡ (run_bag ops empty_bag).1)
  index_refines_bag I ops =
      run_index-Holds I ops I.empty empty_bag (λ k r. rw (I.find-empty k) refl)

-- After any insertions and erasures on a new hash index and on a new bitmap index, a lookup returns
-- each rid as often as it was inserted under the key, less one for each of its erasures that found a
-- copy; an erasure answers whether it found one.
pub buckets_refine_bag :
    {K : Type 0} ⦃eq : HasEq K⦄ ⦃order : HasOrder K⦄ (ops : List (IndexOp K)) (k : K) (r : Rid)
    → let (bag, answers) = run_bag ops empty_bag in
      (count r (find ((run_index (hash_index K) ops []).0) k) ≡ bag k r)
      × ((run_index (hash_index K) ops []).1 ≡ answers)
      × (count r (find ((run_index (bitmap_index K) ops []).0) k) ≡ bag k r)
      × ((run_index (bitmap_index K) ops []).1 ≡ answers)
buckets_refine_bag {K = K} ops k r =
    let hashed = index_refines_bag (hash_index K) ops in
    let ordered = index_refines_bag (bitmap_index K) ops in
    (hashed.0 k r, hashed.1, ordered.0 k r, ordered.1)
