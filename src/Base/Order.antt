-- ===== src/Base/Order.antt =====
-- Strict orders as an interface: the `operator<` that ordered containers rely on.
use Prim.Native.Nat.{ℕ}
use mathlib.Core.Path.{◌≡◌, refl}
use mathlib.Core.Bool.{Bool, true, false, not, ◌&&◌, ◌||◌}
use mathlib.Core.List.{List, [], ◌∷◌}
use native.Mathlib.Omega.{arith}
use chicken_db.Base.Tests.{ltb}

pub record HasOrder {ℓ} (K : Type ℓ) : Type ℓ where
  pub before : K → K → Bool
  pub before_irrefl : (x : K) → before x x ≡ false
  pub before_trans : (x y z : K) → before x y ≡ true → before y z ≡ true → before x z ≡ true
  pub before_total : (x y : K) → before x y ≡ false → before y x ≡ false → x ≡ y

pub ltb_irrefl : (x : ℕ) → ltb x x ≡ false
ltb_irrefl x = ground arith

pub ltb_trans : (x y z : ℕ) → ltb x y ≡ true → ltb y z ≡ true → ltb x z ≡ true
ltb_trans x y z h k = ground (arith, h, k)

pub ltb_total : (x y : ℕ) → ltb x y ≡ false → ltb y x ≡ false → x ≡ y
ltb_total x y h k = ground (arith, h, k)

instance abbrev pub nat_order : HasOrder ℕ
nat_order = record {
  before = ltb;
  before_irrefl = ltb_irrefl;
  before_trans = ltb_trans;
  before_total = ltb_total;
}

module _ {ℓ} {K : Type ℓ} ⦃order : HasOrder K⦄ where
  abbrev pub lt : K → K → Bool
  lt x y = order.before x y

  pub lt_asym : (x y : K) → lt x y ≡ true → lt y x ≡ false
  lt_asym x y h = ground (arith, h, order.before_trans x y x, order.before_irrefl x)

  -- Element by element, a prefix first.
  abbrev pub lex_lt : List K → List K → Bool
  lex_lt s [] = false
  lex_lt [] (y ∷ t) = true
  lex_lt (x ∷ s) (y ∷ t) = lt x y || not (lt y x) && lex_lt s t

  pub lex_irrefl : (s : List K) → lex_lt s s ≡ false
  lex_irrefl [] = refl
  lex_irrefl (x ∷ s) = rw (order.before_irrefl x, lex_irrefl s) refl

  pub lex_trans : (s t u : List K) → lex_lt s t ≡ true → lex_lt t u ≡ true → lex_lt s u ≡ true
  lex_trans s t [] h k = k
  lex_trans s [] (z ∷ u) h k = ground (arith, h)
  lex_trans [] (y ∷ t) (z ∷ u) h k = refl
  lex_trans (x ∷ s) (y ∷ t) (z ∷ u) h k = ground (
    arith,
    h,
    k,
    lex_trans s t u,
    order.before_trans x y z,
    order.before_trans z x y,
    order.before_trans y z x,
    order.before_total x y,
    order.before_total y z,
  )

  pub lex_total : (s t : List K) → lex_lt s t ≡ false → lex_lt t s ≡ false → s ≡ t
  lex_total [] [] h k = refl
  lex_total [] (y ∷ t) h k = ground (arith, h)
  lex_total (x ∷ s) [] h k = ground (arith, k)
  lex_total (x ∷ s) (y ∷ t) h k = ground (arith, h, k, lex_total s t, order.before_total x y)

  instance abbrev pub list_order : HasOrder (List K)
  list_order = record {
    before = lex_lt;
    before_irrefl = lex_irrefl;
    before_trans = lex_trans;
    before_total = lex_total;
  }
