-- ===== src/Index/Interface.antt =====
-- src/include/index/index.h: what every index promises. An index holds rids under keys, and the
-- same key and rid may stand in it more than once.
use chicken_db.Base.{◌≡◌, refl, Bool, false, List, [], ◌∷◌, ◌++◌, arith, if◌then◌else◌}
use chicken_db.Base.Eq.{HasEq, ◌==◌, contains}
use chicken_db.Txn.Types.{Rid, rid_eq}

-- `rids.erase(std::find(...))`: the first such rid goes.
abbrev pub remove_first : Rid → List Rid → List Rid
remove_first r [] = []
remove_first r (x ∷ xs) = let rest = remove_first r xs in if x == r then xs else x ∷ rest

pub remove_first-absent : (r : Rid) (xs : List Rid) → contains r xs ≡ false → remove_first r xs ≡ xs
remove_first-absent r [] h = refl
remove_first-absent r (x ∷ xs) h = ground (arith, h, remove_first-absent r xs)

pub record Index (K : Type 0) ⦃eq : HasEq K⦄ : Type 1 where
  pub State : Type 0
  pub empty : State
  pub insert : K → Rid → State → State
  pub erase : K → Rid → State → State × Bool
  pub find : State → K → List Rid
  pub find-empty : (k : K) → find empty k ≡ []
  pub find-insert :
      (k j : K) (r : Rid) (s : State)
      → find (insert k r s) j ≡ (if k == j then find s j ++ r ∷ [] else find s j)
  pub find-erase :
      (k j : K) (r : Rid) (s : State)
      → find ((erase k r s).0) j ≡ (if k == j then remove_first r (find s j) else find s j)
  -- The flag says whether there was something to erase.
  pub erase_found : (k : K) (r : Rid) (s : State) → (erase k r s).1 ≡ contains r (find s k)

pub data IndexOp (K : Type 0) : Type 0 where
  insert_op erase_op : K → Rid → IndexOp K

module _ {K : Type 0} ⦃eq : HasEq K⦄ where
  -- A client's calls in order, with the answers of the erasures.
  abbrev pub run_index : (I : Index K) → List (IndexOp K) → I.State → I.State × List Bool
  run_index I [] s = (s, [])
  run_index I (insert_op k r ∷ ops) s = run_index I ops (I.insert k r s)
  run_index I (erase_op k r ∷ ops) s =
      let (s', found) = I.erase k r s in
      let (end, answers) = run_index I ops s' in (end, found ∷ answers)
