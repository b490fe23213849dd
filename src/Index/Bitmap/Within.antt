-- ===== src/Index/Bitmap/Within.antt =====
-- The range query of src/index/bitmap_index.cpp as a filter of the sorted entries.
use chicken_db.Base.{
  ◌≡◌, refl, sym, ◌∙◌, inl, inr, Bool, true, false, not, ◌&&◌, List, [], ◌∷◌, ◌++◌, arith,
  if◌then◌else◌, Bool-cases, All,
}
use chicken_db.Base.Eq.{HasEq}
use chicken_db.Base.Order.{HasOrder, lt, lt_asym}
use chicken_db.Base.Dict.{Dict}
use chicken_db.Base.SortedDict.{IsSorted, Above}
use chicken_db.Index.Bitmap.{range, collect_to, gt}
use chicken_db.Txn.Types.{Rid, rid_eq}

keep_none : (b : Bool) (rids : List Rid) → (if b && false then rids else []) ++ [] ≡ []
keep_none true rids = refl
keep_none false rids = refl

module _ {K : Type 0} ⦃eq : HasEq K⦄ ⦃order : HasOrder K⦄ where
  abbrev pub within : K → K → K → Bool
  within lo hi k = not (lt k lo) && not (gt k hi)

  -- The rids of the keys from `lo` to `hi`, entry by entry.
  abbrev pub rids_within : K → K → Dict K (List Rid) → List Rid
  rids_within lo hi [] = []
  rids_within lo hi (entry ∷ rest) =
      (if within lo hi (entry.0) then entry.1 else []) ++ rids_within lo hi rest

  gt_before : (k hi : K) → gt k hi ≡ true → lt hi k ≡ true
  gt_before k hi h = ground (arith, h, order.before_total k hi, eq.same_iff k hi)

  gt_later : (j k hi : K) → lt j k ≡ true → gt j hi ≡ true → gt k hi ≡ true
  gt_later j k hi l h =
      let up = order.before_trans hi j k (gt_before j hi h) l in
      rw (lt_asym hi k up) (ground (arith, eq.same_iff k hi, up, order.before_irrefl k))

  none_within :
      (lo hi k : K) (m : Dict K (List Rid)) → gt k hi ≡ true → Above k m → rids_within lo hi m ≡ []
  none_within lo hi k [] h a = refl
  none_within lo hi k (entry ∷ rest) h a =
      rw (gt_later k (entry.0) hi a.0 h, none_within lo hi k rest h a.1)
        (keep_none (not (lt (entry.0) lo)) (entry.1))

  collect_to-within :
      (lo hi : K) (m : Dict K (List Rid))
      → All (λ entry. lt (entry.0) lo ≡ false) m
      → IsSorted m
      → collect_to hi m ≡ rids_within lo hi m
  collect_to-within lo hi [] f h = refl
  collect_to-within lo hi (entry ∷ rest) f h = elim (Bool-cases (gt (entry.0) hi)) [
    | inl g ↦ rw (f.0, g) (sym (none_within lo hi (entry.0) rest g h.0))
    | inr g ↦ rw (f.0, g, collect_to-within lo hi rest f.1 h.1) refl
  ]

  Above-lower_bound :
      (lo k : K) (m : Dict K (List Rid))
      → lt k lo ≡ false
      → Above k m
      → All (λ entry. lt (entry.0) lo ≡ false) m
  Above-lower_bound lo k [] h a = tt
  Above-lower_bound lo k (entry ∷ rest) h a =
      (ground (arith, h, a.0, order.before_trans k (entry.0) lo), Above-lower_bound lo k rest h a.1)

  range-first :
      (lo hi : K) (entry : K × List Rid) (rest : Dict K (List Rid))
      → lt (entry.0) lo ≡ false
      → range (entry ∷ rest) lo hi ≡ collect_to hi (entry ∷ rest)
  unfolding range
  range-first lo hi entry rest l = rw (range, l) refl

  pub range-within :
      (lo hi : K) (m : Dict K (List Rid)) → IsSorted m → range m lo hi ≡ rids_within lo hi m
  unfolding range
  range-within lo hi [] h = refl
  range-within lo hi (entry ∷ rest) h = elim (Bool-cases (lt (entry.0) lo)) [
    | inl l ↦ rw (range, l) (range-within lo hi rest h.1)
    | inr l ↦
        range-first lo hi entry rest l
        ∙ collect_to-within lo hi (entry ∷ rest) (l, Above-lower_bound lo (entry.0) rest l h.0) h
  ]
