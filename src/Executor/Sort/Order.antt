-- ===== src/Executor/Sort/Order.antt =====
-- That the comparator of src/planner/physical/physical_sort_operator.cpp is a strict weak order of
-- the rows of one table.
use chicken_db.Base.{
  ℕ, ◌≡◌, refl, sym, ap, ◌∙◌, Bool, true, false, List, [], ◌∷◌, arith, if◌then◌else◌, get_or, tail,
}
use chicken_db.Base.Order.{HasOrder, nat_order, list_order}
use chicken_db.Executor.Sort.StdSort.{WeakOrder}
use chicken_db.Executor.Sort.{less, blank, Row, SortCell, Doubles, compare_by}

module _ {K : Type 0} ⦃order : HasOrder K⦄ (x y z : K) (desc : Bool) where
  compare_asym :
      (l m : Bool)
      → (l ≡ true → m ≡ false)
      → compare_by x y desc l ≡ true
      → compare_by y x desc m ≡ false
  compare_asym l m f h = ground (
    arith,
    h,
    f,
    order.before_trans x y x,
    order.before_trans y x y,
    order.before_irrefl x,
    order.before_irrefl y,
  )

  compare_trans :
      (l m n : Bool)
      → (l ≡ true → m ≡ true → n ≡ true)
      → compare_by x y desc l ≡ true
      → compare_by y z desc m ≡ true
      → compare_by x z desc n ≡ true
  compare_trans l m n f h k = ground (
    arith,
    h,
    k,
    f,
    order.before_trans x y z,
    order.before_trans z y x,
    order.before_trans z x y,
    order.before_trans y z x,
    order.before_trans y x z,
    order.before_trans x z y,
    order.before_total x y,
    order.before_total y z,
  )

  compare_more :
      (l m n : Bool)
      → (l ≡ false → m ≡ false → n ≡ false)
      → compare_by y x desc l ≡ false
      → compare_by z y desc m ≡ false
      → compare_by z x desc n ≡ false
  compare_more l m n f h k = ground (
    arith,
    h,
    k,
    f,
    order.before_trans x y z,
    order.before_trans z y x,
    order.before_trans z x y,
    order.before_trans y z x,
    order.before_trans y x z,
    order.before_trans x z y,
    order.before_total x y,
    order.before_total y z,
  )

module _ (N : Doubles) where
  -- Rows with strings in the same columns.
  abbrev pub Alike : (ℕ → Bool) → Row N → Type 0
  Alike strings row = (idx : ℕ) → (get_or row idx (blank N)).is_str ≡ strings idx

  -- The comparison of two cells that both have a string, or both a number.
  abbrev by_kind : Bool → SortCell (N.Double) → SortCell (N.Double) → Bool → Bool → Bool
  by_kind k a b desc later =
      if k
      then compare_by ⦃order = list_order⦄ a.str b.str desc later
      else compare_by ⦃order = N.order⦄ a.num b.num desc later

  by_kind_asym :
      (k : Bool) (a b : SortCell (N.Double)) (desc l m : Bool)
      → (l ≡ true → m ≡ false)
      → by_kind k a b desc l ≡ true
      → by_kind k b a desc m ≡ false
  by_kind_asym true a b desc l m f h =
      compare_asym ⦃order = list_order⦄ a.str b.str b.str desc l m f h
  by_kind_asym false a b desc l m f h =
      compare_asym ⦃order = N.order⦄ a.num b.num b.num desc l m f h

  by_kind_trans :
      (k : Bool) (a b c : SortCell (N.Double)) (desc l m n : Bool)
      → (l ≡ true → m ≡ true → n ≡ true)
      → by_kind k a b desc l ≡ true
      → by_kind k b c desc m ≡ true
      → by_kind k a c desc n ≡ true
  by_kind_trans true a b c desc l m n f h g =
      compare_trans ⦃order = list_order⦄ a.str b.str c.str desc l m n f h g
  by_kind_trans false a b c desc l m n f h g =
      compare_trans ⦃order = N.order⦄ a.num b.num c.num desc l m n f h g

  by_kind_more :
      (k : Bool) (a b c : SortCell (N.Double)) (desc l m n : Bool)
      → (l ≡ false → m ≡ false → n ≡ false)
      → by_kind k b a desc l ≡ false
      → by_kind k c b desc m ≡ false
      → by_kind k c a desc n ≡ false
  by_kind_more true a b c desc l m n f h g =
      compare_more ⦃order = list_order⦄ a.str b.str c.str desc l m n f h g
  by_kind_more false a b c desc l m n f h g =
      compare_more ⦃order = N.order⦄ a.num b.num c.num desc l m n f h g

  module _ (strings : ℕ → Bool) where
    less-by_kind :
        (idx : ℕ) (is : List ℕ) (desc : List Bool) (a b : Row N)
        → Alike strings a
        → less N (idx ∷ is) desc a b
          ≡ by_kind
              (strings idx)
              (get_or a idx (blank N))
              (get_or b idx (blank N))
              (get_or desc 0 false)
              (less N is (tail desc) a b)
    unfolding less
    less-by_kind idx is desc a b p =
        ap
          (λ k.
            by_kind k (get_or a idx (blank N)) (get_or b idx (blank N)) (get_or desc 0 false)
              (less N is (tail desc) a b))
          (p idx)

    asym :
        (is : List ℕ) (desc : List Bool) (a b : Row N)
        → Alike strings a
        → Alike strings b
        → less N is desc a b ≡ true
        → less N is desc b a ≡ false
    unfolding less
    asym [] desc a b p q h = refl
    asym (idx ∷ is) desc a b p q h =
        less-by_kind idx is desc b a q
        ∙ by_kind_asym (strings idx) (get_or a idx (blank N)) (get_or b idx (blank N))
            (get_or desc 0 false) (less N is (tail desc) a b) (less N is (tail desc) b a)
            (asym is (tail desc) a b p q) (sym (less-by_kind idx is desc a b p) ∙ h)

    trans :
        (is : List ℕ) (desc : List Bool) (a b c : Row N)
        → Alike strings a
        → Alike strings b
        → less N is desc a b ≡ true
        → less N is desc b c ≡ true
        → less N is desc a c ≡ true
    unfolding less
    trans [] desc a b c p q h g = h
    trans (idx ∷ is) desc a b c p q h g =
        less-by_kind idx is desc a c p
        ∙ by_kind_trans (strings idx) (get_or a idx (blank N)) (get_or b idx (blank N))
            (get_or c idx (blank N)) (get_or desc 0 false) (less N is (tail desc) a b)
            (less N is (tail desc) b c) (less N is (tail desc) a c) (trans is (tail desc) a b c p q)
            (sym (less-by_kind idx is desc a b p) ∙ h) (sym (less-by_kind idx is desc b c q) ∙ g)

    more :
        (is : List ℕ) (desc : List Bool) (a b c : Row N)
        → Alike strings b
        → Alike strings c
        → less N is desc b a ≡ false
        → less N is desc c b ≡ false
        → less N is desc c a ≡ false
    unfolding less
    more [] desc a b c q r h g = refl
    more (idx ∷ is) desc a b c q r h g =
        less-by_kind idx is desc c a r
        ∙ by_kind_more (strings idx) (get_or a idx (blank N)) (get_or b idx (blank N))
            (get_or c idx (blank N)) (get_or desc 0 false) (less N is (tail desc) b a)
            (less N is (tail desc) c b) (less N is (tail desc) c a) (more is (tail desc) a b c q r)
            (sym (less-by_kind idx is desc b a q) ∙ h) (sym (less-by_kind idx is desc c b r) ∙ g)

  pub less-WeakOrder :
      (strings : ℕ → Bool) (sort_idx : List ℕ) (desc : List Bool)
      → WeakOrder (Alike strings) (less N sort_idx desc)
  less-WeakOrder strings sort_idx desc = record {
    less_asym = λ x y p q h. asym strings sort_idx desc x y p q h;
    less_trans = λ x y z p q r h k. trans strings sort_idx desc x y z p q h k;
    more_trans = λ x y z p q r h k. more strings sort_idx desc x y z q r h k;
  }
