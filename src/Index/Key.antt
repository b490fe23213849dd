-- ===== src/Index/Key.antt =====
-- src/include/index/index_key.h: composite keys of numbers and strings, in order.
use chicken_db.Base.{ℕ, ◌≡◌, refl, ap, ◌↔◌, ◌⊎◌, Bool, true, false, List, arith}
use chicken_db.Base.Eq.{HasEq, ◌==◌, nat_eq, list_eq, list_same, list_same_iff}
use chicken_db.Base.Order.{
  nat_order, list_order, HasOrder, lt, lex_lt, lex_irrefl, lex_trans, lex_total,
}

-- A component has a number or a string: what its constructors take.
pub data IndexKeyVal (D : Type 0) : Type 0 where
  num : D → IndexKeyVal D
  str : List ℕ → IndexKeyVal D

abbrev pub IndexKey : Type 0 → Type 0
IndexKey D = List (IndexKeyVal D)

module _ {D : Type 0} ⦃double : HasOrder D⦄ where
  -- `operator<`.
  abbrev pub val_lt : IndexKeyVal D → IndexKeyVal D → Bool
  val_lt (num a) (num b) = lt a b
  val_lt (num a) (str t) = true
  val_lt (str s) (num b) = false
  val_lt (str s) (str t) = lex_lt s t

  pub val_irrefl : (a : IndexKeyVal D) → val_lt a a ≡ false
  val_irrefl (num a) = double.before_irrefl a
  val_irrefl (str s) = lex_irrefl s

  pub val_trans :
      (a b c : IndexKeyVal D) → val_lt a b ≡ true → val_lt b c ≡ true → val_lt a c ≡ true
  val_trans (num a) (num b) (num c) h k = double.before_trans a b c h k
  val_trans (num a) (num b) (str c) h k = refl
  val_trans (num a) (str b) (num c) h k = ground (arith, k)
  val_trans (num a) (str b) (str c) h k = refl
  val_trans (str a) (num b) c h k = ground (arith, h)
  val_trans (str a) (str b) (num c) h k = k
  val_trans (str a) (str b) (str c) h k = lex_trans a b c h k

  pub val_total : (a b : IndexKeyVal D) → val_lt a b ≡ false → val_lt b a ≡ false → a ≡ b
  val_total (num a) (num b) h k = ap num (double.before_total a b h k)
  val_total (num a) (str b) h k = ground (arith, h)
  val_total (str a) (num b) h k = ground (arith, k)
  val_total (str a) (str b) h k = ap str (lex_total a b h k)

  instance abbrev pub val_order : HasOrder (IndexKeyVal D)
  val_order = record {
    before = val_lt;
    before_irrefl = val_irrefl;
    before_trans = val_trans;
    before_total = val_total;
  }

module _ {D : Type 0} ⦃double : HasEq D⦄ where
  -- `operator==`.
  abbrev pub val_same : IndexKeyVal D → IndexKeyVal D → Bool
  val_same (num a) (num b) = a == b
  val_same (str s) (str t) = list_same s t
  val_same _ _ = false

  pub val_same_iff : (a b : IndexKeyVal D) → (val_same a b ≡ true) ↔ (a ≡ b)
  val_same_iff (num a) (num b) = ground (arith, double.same_iff a b)
  val_same_iff (str a) (str b) = ground (arith, list_same_iff a b)
  val_same_iff (num a) (str b) = ground arith
  val_same_iff (str a) (num b) = ground arith

  instance abbrev pub val_eq : HasEq (IndexKeyVal D)
  val_eq = record { same = val_same; same_iff = val_same_iff }

-- Any two keys compare in exactly one of three ways: the first before the second, both equal, or
-- the second before the first.
pub key_trichotomy :
    {D : Type 0} ⦃eq : HasEq D⦄ ⦃order : HasOrder D⦄ (a b : IndexKey D)
    → ((lt a b ≡ true) × (((a == b) ≡ false) × (lt b a ≡ false)))
      ⊎ (((lt a b ≡ false) × (((a == b) ≡ true) × (lt b a ≡ false)))
          ⊎ ((lt a b ≡ false) × (((a == b) ≡ false) × (lt b a ≡ true))))
key_trichotomy a b = ground (arith, lex_irrefl a, lex_trans a b a, lex_total a b, list_same_iff a b)
