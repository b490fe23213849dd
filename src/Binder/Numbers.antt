-- ===== src/Binder/Numbers.antt =====
-- The floating-point numbers of the platform, which the source uses and does not define.
use chicken_db.Base.{◌≡◌, Bool, true, false, not}
use chicken_db.Base.Int.{ℤ, pos, int_eq}
use chicken_db.Base.Eq.{◌==◌}

-- `double` and `float` with the operators that the source applies to them.
pub record Numbers : Type 1 where
  pub Double : Type 0
  pub Float : Type 0
  pub of_int : ℤ → Double
  pub widen : Float → Double
  pub add : Double → Double → Double
  pub sub : Double → Double → Double
  pub mul : Double → Double → Double
  pub div : Double → Double → Double
  pub gt : Double → Double → Bool
  pub gte : Double → Double → Bool
  pub lt : Double → Double → Bool
  pub lte : Double → Double → Bool
  pub same : Double → Double → Bool
  -- `v != 0.0f`.
  pub float_nonzero : Float → Bool

-- The literals 0.0 and 1.0.
abbrev pub zero_double : (N : Numbers) → N.Double
zero_double N = N.of_int (pos 0)

abbrev pub one_double : (N : Numbers) → N.Double
one_double N = N.of_int (pos 1)

-- `b ? 1.0 : 0.0`.
abbrev pub truth : (N : Numbers) → Bool → N.Double
truth N true = one_double N
truth N false = zero_double N

-- `v != 0.0`.
abbrev pub nonzero : (N : Numbers) → N.Double → Bool
nonzero N v = not (N.same v (zero_double N))

-- Conversions to `double` keep what is zero and what is not.
pub record KeepsZero (N : Numbers) : Type 0 where
  pub of_int_nonzero : (n : ℤ) → nonzero N (N.of_int n) ≡ not (n == pos 0)
  pub widen_nonzero : (f : N.Float) → nonzero N (N.widen f) ≡ N.float_nonzero f
