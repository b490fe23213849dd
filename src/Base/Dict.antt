-- ===== src/Base/Dict.antt =====
-- std::unordered_map and std::map as association lists, with the laws that their clients use.
use mathlib.Core.Path.{◌≡◌, refl}
use mathlib.Core.Option.{Option, none, some}
use mathlib.Core.List.{List, [], ◌∷◌}
use native.Mathlib.Omega.{arith}
use chicken_db.Base.Tests.{if◌then◌else◌}
use chicken_db.Base.Eq.{HasEq, ◌==◌}

abbrev pub Dict {ℓ κ} : Type ℓ → Type κ → Type (ℓ ⊔ κ)
Dict K V = List (K × V)

module _ {ℓ κ} {K : Type ℓ} {V : Type κ} ⦃eq : HasEq K⦄ where
  -- `find`.
  unfoldable pub lookup : K → Dict K V → Option V
  lookup key [] = none
  lookup key (entry ∷ rest) = if entry.0 == key then some (entry.1) else lookup key rest

  -- `erase(key)`: keys are distinct in a map, and every entry of the key goes.
  unfoldable pub erase : K → Dict K V → Dict K V
  erase key [] = []
  erase key (entry ∷ rest) =
      let others = erase key rest in if entry.0 == key then others else entry ∷ others

  pub lookup-erase :
      (key other : K) (m : Dict K V)
      → lookup other (erase key m) ≡ (if key == other then none else lookup other m)
  unfolding lookup erase
  lookup-erase key other [] = ground arith
  lookup-erase key other ((head, val) ∷ rest) = ground (
    arith,
    eq.same_iff key other,
    eq.same_iff head key,
    eq.same_iff head other,
    lookup-erase key other rest,
  )

  -- `m[key] = val`.
  unfoldable pub insert : K → V → Dict K V → Dict K V
  insert key val [] = (key, val) ∷ []
  insert key val (entry ∷ rest) =
      let later = insert key val rest in if entry.0 == key then (key, val) ∷ rest else entry ∷ later

  pub lookup-insert :
      (key other : K) (val : V) (m : Dict K V)
      → lookup other (insert key val m) ≡ (if key == other then some val else lookup other m)
  unfolding lookup insert
  lookup-insert key other val [] = refl
  lookup-insert key other val ((head, old) ∷ rest) = ground (
    arith,
    eq.same_iff key other,
    eq.same_iff head key,
    eq.same_iff head other,
    lookup-insert key other val rest,
  )
