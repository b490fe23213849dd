-- ===== src/Index/Bitmap.antt =====
-- src/index/bitmap_index.cpp: buckets in the order of their keys, with range queries.
pub mod Within
pub mod Range
use chicken_db.Base.{Bool, not, ◌||◌, List, [], ◌∷◌, ◌++◌, if◌then◌else◌}
use chicken_db.Base.Eq.{HasEq, ◌==◌}
use chicken_db.Base.Order.{HasOrder, lt}
use chicken_db.Base.Dict.{Dict}
use chicken_db.Base.SortedDict.{put, lookup-put}
use chicken_db.Index.Interface.{Index}
use chicken_db.Index.Buckets.{bucket_index}
use chicken_db.Txn.Types.{Rid}

abbrev pub bitmap_index : (K : Type 0) ⦃eq : HasEq K⦄ ⦃order : HasOrder K⦄ → Index K
bitmap_index K = bucket_index put lookup-put

module _ {K : Type 0} ⦃eq : HasEq K⦄ ⦃order : HasOrder K⦄ where
  -- `operator>` of a key: `!(*this < o || *this == o)`.
  abbrev pub gt : K → K → Bool
  gt a b = not (lt a b || a == b)

  -- `lower_bound(lo)`: from the first key that is not before `lo` on.
  abbrev pub lower_bound : K → Dict K (List Rid) → Dict K (List Rid)
  lower_bound lo [] = []
  lower_bound lo (entry ∷ rest) =
      let later = lower_bound lo rest in if lt (entry.0) lo then later else entry ∷ rest

  -- The rids up to the first key above `hi`.
  abbrev pub collect_to : K → Dict K (List Rid) → List Rid
  collect_to hi [] = []
  collect_to hi (entry ∷ rest) =
      let later = collect_to hi rest in if gt (entry.0) hi then [] else entry.1 ++ later

  unfoldable pub range : Dict K (List Rid) → K → K → List Rid
  range m lo hi = collect_to hi (lower_bound lo m)

  -- Every pair of a key and a rid under it, in the order of the keys.
  abbrev pub pairs : K → List Rid → List (K × Rid)
  pairs key [] = []
  pairs key (r ∷ rids) = (key, r) ∷ pairs key rids

  unfoldable pub scan_all : Dict K (List Rid) → List (K × Rid)
  scan_all [] = []
  scan_all (entry ∷ rest) = pairs (entry.0) (entry.1) ++ scan_all rest
