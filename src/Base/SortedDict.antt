-- ===== src/Base/SortedDict.antt =====
-- std::map as an association list in the order of its keys.
use mathlib.Core.Path.{subst, ◌≡◌, refl}
use mathlib.Core.Bool.{true}
use mathlib.Core.Option.{some}
use mathlib.Core.Logic.{inl, inr}
use mathlib.Core.List.{[], ◌∷◌}
use native.Mathlib.Omega.{arith}
use chicken_db.Base.Tests.{if◌then◌else◌, Bool-cases}
use chicken_db.Base.Lists.{All}
use chicken_db.Base.Eq.{HasEq, ◌==◌}
use chicken_db.Base.Order.{HasOrder, lt}
use chicken_db.Base.Dict.{Dict, lookup, erase}

module _ {ℓ κ} {K : Type ℓ} {V : Type κ} ⦃eq : HasEq K⦄ ⦃order : HasOrder K⦄ where
  -- `m[key] = val`.
  unfoldable pub put : K → V → Dict K V → Dict K V
  put key val [] = (key, val) ∷ []
  put key val (entry ∷ rest) =
      let later = put key val rest in
      if entry.0 == key
      then (key, val) ∷ rest
      else if lt key (entry.0)
      then (key, val) ∷ entry ∷ rest
      else entry ∷ later

  pub lookup-put :
      (key other : K) (val : V) (m : Dict K V)
      → lookup other (put key val m) ≡ (if key == other then some val else lookup other m)
  unfolding lookup put
  lookup-put key other val [] = refl
  lookup-put key other val ((head, old) ∷ rest) = ground (
    arith,
    eq.same_iff key other,
    eq.same_iff head key,
    eq.same_iff head other,
    lookup-put key other val rest,
  )

  abbrev pub Above : K → Dict K V → Type 0
  Above key m = All (λ entry. lt key (entry.0) ≡ true) m

  -- Every key comes before all later ones.
  abbrev pub IsSorted : Dict K V → Type 0
  IsSorted [] = Unit
  IsSorted (entry ∷ rest) = Above (entry.0) rest × IsSorted rest

  Above-trans : (low key : K) (m : Dict K V) → lt low key ≡ true → Above key m → Above low m
  Above-trans low key [] h k = tt
  Above-trans low key (entry ∷ rest) h k =
      (order.before_trans low key (entry.0) h k.0, Above-trans low key rest h k.1)

  put-Above :
      (low key : K) (val : V) (m : Dict K V)
      → lt low key ≡ true
      → Above low m
      → Above low (put key val m)
  unfolding put
  put-Above low key val [] h k = (h, tt)
  put-Above low key val (entry ∷ rest) h k = elim (Bool-cases (entry.0 == key)) [
    | inl e ↦ rw (put, e) (h, k.1)
    | inr e ↦ elim (Bool-cases (lt key (entry.0))) [
      | inl l ↦ rw (put, e, l) (h, k)
      | inr l ↦ rw (put, e, l) (k.0, put-Above low key val rest h k.1)
    ]
  ]

  pub put-IsSorted : (key : K) (val : V) (m : Dict K V) → IsSorted m → IsSorted (put key val m)
  unfolding put
  put-IsSorted key val [] h = (tt, tt)
  put-IsSorted key val (entry ∷ rest) h = elim (Bool-cases (entry.0 == key)) [
    | inl e ↦ rw (put, e) (subst (λ x. Above x rest) ((eq.same_iff (entry.0) key).0 e) h.0, h.1)
    | inr e ↦ elim (Bool-cases (lt key (entry.0))) [
      | inl l ↦ rw (put, e, l) ((l, Above-trans key (entry.0) rest l h.0), h)
      | inr l ↦
          let up : lt (entry.0) key ≡ true =
            ground (arith, e, l, order.before_total (entry.0) key, eq.same_iff (entry.0) key) in
          rw (put, e, l) (put-Above (entry.0) key val rest up h.0, put-IsSorted key val rest h.1)
    ]
  ]

  erase-Above : (low key : K) (m : Dict K V) → Above low m → Above low (erase key m)
  unfolding erase
  erase-Above low key [] h = tt
  erase-Above low key (entry ∷ rest) h = elim (Bool-cases (entry.0 == key)) [
    | inl e ↦ rw (erase, e) (erase-Above low key rest h.1)
    | inr e ↦ rw (erase, e) (h.0, erase-Above low key rest h.1)
  ]

  pub erase-IsSorted : (key : K) (m : Dict K V) → IsSorted m → IsSorted (erase key m)
  unfolding erase
  erase-IsSorted key [] h = tt
  erase-IsSorted key (entry ∷ rest) h = elim (Bool-cases (entry.0 == key)) [
    | inl e ↦ rw (erase, e) (erase-IsSorted key rest h.1)
    | inr e ↦ rw (erase, e) (erase-Above (entry.0) key rest h.0, erase-IsSorted key rest h.1)
  ]
