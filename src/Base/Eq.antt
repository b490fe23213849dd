-- ===== src/Base/Eq.antt =====
-- Boolean equality as an interface: the `operator==` that the source's containers rely on.
use mathlib.Core.Bool.{◌&&◌, Bool, true, false, ◌||◌}
use Prim.Native.Nat.{ℕ}
use mathlib.Core.Path.{◌≡◌, refl}
use mathlib.Core.Logic.{◌↔◌, ◌≢◌}
use mathlib.Core.List.{List, [], ◌∷◌, ◌++◌}
use native.Mathlib.Omega.{arith}
use chicken_db.Base.Tests.{nat_beq, nat_beq_iff}

pub record HasEq {ℓ} (K : Type ℓ) : Type ℓ where
  pub same : K → K → Bool
  pub same_iff : (x y : K) → (same x y ≡ true) ↔ (x ≡ y)

module _ {ℓ} {K : Type ℓ} ⦃eq : HasEq K⦄ where
  infix 50 ◌==◌
  abbrev pub ◌==◌ : K → K → Bool
  x == y = eq.same x y

  pub ==_iff : (x y : K) → ((x == y) ≡ true) ↔ (x ≡ y)
  ==_iff x y = eq.same_iff x y

  pub ==_self : (x : K) → (x == x) ≡ true
  ==_self x = (eq.same_iff x x).1 refl

  pub ==_ne : (x y : K) → x ≢ y → (x == y) ≡ false
  ==_ne x y h = ground (arith, eq.same_iff x y)

  -- std::find over a sequence, as a test.
  abbrev pub contains : K → List K → Bool
  contains k [] = false
  contains k (x ∷ xs) = x == k || contains k xs

  pub contains-append :
      (k : K) (xs ys : List K) → contains k (xs ++ ys) ≡ (contains k xs || contains k ys)
  contains-append k [] ys = refl
  contains-append k (x ∷ xs) ys = ground (arith, contains-append k xs ys)

instance abbrev pub nat_eq : HasEq ℕ
nat_eq = record { same = nat_beq; same_iff = nat_beq_iff }

module _ {ℓ} {K : Type ℓ} ⦃eq : HasEq K⦄ where
  -- `operator==` of vectors.
  abbrev pub list_same : List K → List K → Bool
  list_same [] [] = true
  list_same (x ∷ s) (y ∷ t) = x == y && list_same s t
  list_same _ _ = false

  pub list_same_iff : (s t : List K) → (list_same s t ≡ true) ↔ (s ≡ t)
  list_same_iff [] [] = (λ h. refl, λ h. refl)
  list_same_iff [] (y ∷ t) = ground arith
  list_same_iff (x ∷ s) [] = ground arith
  list_same_iff (x ∷ s) (y ∷ t) = ground (arith, eq.same_iff x y, list_same_iff s t)

  instance abbrev pub list_eq : HasEq (List K)
  list_eq = record { same = list_same; same_iff = list_same_iff }
