-- ===== src/Executor/Sort/Integers.antt =====
-- Integers in the place of doubles, for concrete runs of the operators of src/planner/physical.
use chicken_db.Base.{◌≡◌, true, false, arith}
use chicken_db.Base.Int.{ℤ, pos, ltb_ℤ}
use chicken_db.Base.Order.{HasOrder}
use chicken_db.Executor.Sort.{Doubles}

pub int_irrefl : (a : ℤ) → ltb_ℤ a a ≡ false
int_irrefl a = ground arith

pub int_trans : (a b c : ℤ) → ltb_ℤ a b ≡ true → ltb_ℤ b c ≡ true → ltb_ℤ a c ≡ true
int_trans a b c h k = ground (arith, h, k)

pub int_total : (a b : ℤ) → ltb_ℤ a b ≡ false → ltb_ℤ b a ≡ false → a ≡ b
int_total a b h k = ground (arith, h, k)

abbrev pub int_order : HasOrder ℤ
int_order = record {
  before = ltb_ℤ;
  before_irrefl = int_irrefl;
  before_trans = int_trans;
  before_total = int_total;
}

abbrev pub ints : Doubles
ints = record {
  Double = ℤ;
  order = int_order;
  zero_double = pos 0;
  of_int = λ n. n;
  to_int = λ n. n;
}
