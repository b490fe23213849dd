-- ===== src/Executor/Sort/External/Best.antt =====
-- Which reader the merge of src/planner/physical/physical_sort_operator.cpp takes a row from.
use chicken_db.Base.{
  ℕ, zero, suc, ◌+◌, ◌≡◌, refl, sym, ap, ◌∙◌, subst, ◌⊎◌, inl, inr, Bool, true, false, Option, none,
  some, List, [], ◌∷◌, ◌++◌, arith, Bool-cases, All, get_elem?, get_or, set, concat,
}
use chicken_db.Executor.Sort.External.{find_best}
use chicken_db.Base.Shuffle.{Shuffle-middle, Shuffle-left, chain, Shuffle-eq, Shuffle, Shuffle-All}
use chicken_db.Executor.Sort.StdSort.{WeakOrder, InOrder}

module _ {A : Type 0} where
  -- A run that gives its first row.
  pub concat-set :
      (readers : List (List A)) (j : ℕ) (x : A) (run : List A)
      → get_elem? readers j ≡ some (x ∷ run)
      → Shuffle (concat readers) (x ∷ concat (set readers j run))
  concat-set [] j x run h = ground (arith, h)
  concat-set (r ∷ readers) zero x run h = Shuffle-eq (ap (λ o. get_or_none o ++ concat readers) h)
    where
      get_or_none : Option (List A) → List A
      get_or_none none = []
      get_or_none (some xs) = xs
  concat-set (r ∷ readers) (suc j) x run h =
      chain (Shuffle-left r (concat-set readers j x run h))
        (Shuffle-middle x r (concat (set readers j run)))

  pub get_or-some :
      (readers : List (List A)) (j : ℕ) (r : List A)
      → get_elem? readers j ≡ some r
      → get_or readers j [] ≡ r
  get_or-some [] j r h = ground (arith, h)
  get_or-some (x ∷ readers) zero r h = ground (arith, h)
  get_or-some (x ∷ readers) (suc j) r h = get_or-some readers j r h

abbrev pub AllInOrder : {A : Type 0} → (A → A → Bool) → List (List A) → Type 0
AllInOrder before readers = All (InOrder before) readers

module _ {A : Type 0} (P : A → Type 0) (before : A → A → Bool) (weak : WeakOrder P before) where
  -- The row of no reader comes before `x`.
  abbrev pub Heads : A → List (List A) → Type 0
  Heads x [] = Unit
  Heads x ([] ∷ readers) = Heads x readers
  Heads x ((y ∷ run) ∷ readers) = (before y x ≡ false) × Heads x readers

  All-append_parts : (Q : A → Type 0) (xs ys : List A) → All Q (xs ++ ys) → All Q xs × All Q ys
  All-append_parts Q [] ys a = (tt, a)
  All-append_parts Q (x ∷ xs) ys a =
      let rest = All-append_parts Q xs ys a.1 in ((a.0, rest.0), rest.1)

  All-append_both : (Q : A → Type 0) (xs ys : List A) → All Q xs → All Q ys → All Q (xs ++ ys)
  All-append_both Q [] ys a b = b
  All-append_both Q (x ∷ xs) ys a b = (a.0, All-append_both Q xs ys a.1 b)

  not_before :
      (x y : A) (ys : List A)
      → P x
      → P y
      → All P ys
      → before y x ≡ false
      → All (λ z. before z y ≡ false) ys
      → All (λ z. before z x ≡ false) ys
  not_before x y [] p q a h b = tt
  not_before x y (z ∷ ys) p q a h b =
      (weak.more_trans x y z p q a.0 h b.0, not_before x y ys p q a.1 h b.1)

  pub Heads-All :
      (x : A) (readers : List (List A))
      → P x
      → All P (concat readers)
      → AllInOrder before readers
      → Heads x readers
      → All (λ z. before z x ≡ false) (concat readers)
  Heads-All x [] p a o h = tt
  Heads-All x ([] ∷ readers) p a o h = Heads-All x readers p a o.1 h
  Heads-All x ((y ∷ run) ∷ readers) p a o h =
      let parts = All-append_parts P run (concat readers) a.1 in
      (
        h.0,
        All-append_both (λ z. before z x ≡ false) run (concat readers)
            (not_before x y run p a.0 parts.0 h.0 o.0.0) (Heads-All x readers p parts.1 o.1 h.1),
      )

  pub record Found (readers : List (List A)) (i b : ℕ) (x : A) : Type 0 where
    pub offset : ℕ
    pub run : List A
    pub place : b ≡ i + offset
    pub at : get_elem? readers offset ≡ some (x ∷ run)
    pub first : Heads x readers

  abbrev pub Outcome : List (List A) → ℕ → Option (ℕ × A) → Option (ℕ × A) → Type 0
  Outcome readers i none none = concat readers ≡ []
  Outcome readers i (some best) none = ⊥
  Outcome readers i none (some (b, x)) = Found readers i b x
  Outcome readers i (some (c, y)) (some (b, x)) =
      ((c ≡ b) × ((y ≡ x) × Heads y readers)) ⊎ (Found readers i b x × (before x y ≡ true))

  shift :
      (r : List A) (readers : List (List A)) (i b : ℕ) (x : A)
      → Found readers (i + 1) b x
      → Heads x (r ∷ readers)
      → Found (r ∷ readers) i b x
  shift r readers i b x f h = record {
    offset = suc f.offset;
    run = f.run;
    place = omega (arith, f.place);
    at = f.at;
    first = h;
  }

  skip_empty :
      (readers : List (List A)) (i : ℕ) (best r : Option (ℕ × A))
      → Outcome readers (i + 1) best r
      → Outcome ([] ∷ readers) i best r
  skip_empty readers i none none o = o
  skip_empty readers i none (some (b, x)) o = shift [] readers i b x o o.first
  skip_empty readers i (some (c, y)) none o = o
  skip_empty readers i (some (c, y)) (some (b, x)) (inl same) = inl same
  skip_empty readers i (some (c, y)) (some (b, x)) (inr f) =
      inr (shift [] readers i b x f.0 f.0.first, f.1)

  irrefl : (x : A) → P x → before x x ≡ false
  irrefl x p = elim (Bool-cases (before x x)) [ inl t ↦ weak.less_asym x x p p t | inr f ↦ f ]

  -- The reader at hand is the best so far.
  take_head :
      (x : A) (run : List A) (readers : List (List A)) (i : ℕ) (r : Option (ℕ × A))
      → P x
      → ((b : ℕ) (z : A) → r ≡ some (b, z) → before z x ≡ true → before x z ≡ false)
      → Outcome readers (i + 1) (some (i, x)) r
      → (out : ℕ × A) × (r ≡ some out)
        × Found ((x ∷ run) ∷ readers) i (out.0) (out.1)
        × ((out.1 ≡ x) ⊎ (before (out.1) x ≡ true))
  take_head x run readers i none p asym o = absurd o
  take_head x run readers i (some (b, z)) p asym (inl same) = (
    (b, z),
    refl,
    record {
      offset = 0;
      run = run;
      place = omega (arith, same.0);
      at = ap (λ y. some (y ∷ run)) same.1.0;
      first = (
        subst (λ y. before x y ≡ false) same.1.0 (irrefl x p),
        subst (λ y. Heads y readers) same.1.0 same.1.1,
      );
    },
    inl (sym same.1.0),
  )
  take_head x run readers i (some (b, z)) p asym (inr f) =
      ((b, z), refl, shift (x ∷ run) readers i b z f.0 (asym b z refl f.1, f.0.first), inr f.1)

  at-P :
      (readers : List (List A)) (j : ℕ) (x : A) (run : List A)
      → All P (concat readers)
      → get_elem? readers j ≡ some (x ∷ run)
      → P x
  at-P readers j x run a h = (Shuffle-All P (concat-set readers j x run h) a).0

  asym_of :
      (x : A) (readers : List (List A)) (i : ℕ) (best r : Option (ℕ × A))
      → P x
      → All P (concat readers)
      → Outcome readers i best r
      → ((c : ℕ) (y : A) → best ≡ some (c, y) → y ≡ x)
      → (b : ℕ) (z : A) → r ≡ some (b, z)
      → before z x ≡ true
      → before x z ≡ false
  asym_of x readers i none none p a o s b z e t = ground (arith, e)
  asym_of x readers i (some best) none p a o s b z e t = absurd o
  asym_of x readers i none (some (b', z')) p a o s b z e t =
      let same : z' ≡ z = ground (arith, e) in
      weak.less_asym z x (subst P same (at-P readers o.offset z' o.run a o.at)) p t
  asym_of x readers i (some (c, y)) (some (b', z')) p a (inl q) s b z e t =
      let same : z' ≡ z = ground (arith, e) in
      weak.less_asym z x (subst P (sym (s c y refl) ∙ q.1.0 ∙ same) p) p t
  asym_of x readers i (some (c, y)) (some (b', z')) p a (inr f) s b z e t =
      let same : z' ≡ z = ground (arith, e) in
      weak.less_asym z x (subst P same (at-P readers f.0.offset z' f.0.run a f.0.at)) p t

  -- The reader at hand is not better.
  keep_best :
      (x y : A) (run : List A) (readers : List (List A)) (i c : ℕ) (r : Option (ℕ × A))
      → P x
      → P y
      → All P (concat readers)
      → before x y ≡ false
      → Outcome readers (i + 1) (some (c, y)) r
      → Outcome ((x ∷ run) ∷ readers) i (some (c, y)) r
  keep_best x y run readers i c none p q a h o = absurd o
  keep_best x y run readers i c (some (b, z)) p q a h (inl same) =
      inl (same.0, (same.1.0, (h, same.1.1)))
  keep_best x y run readers i c (some (b, z)) p q a h (inr f) =
      let pz = at-P readers f.0.offset z f.0.run a f.0.at in
      inr (
        shift (x ∷ run) readers i b z f.0
            (weak.more_trans z y x pz q p (weak.less_asym z y pz q f.1) h, f.0.first),
        f.1,
      )

  abbrev BestP : Option (ℕ × A) → Type 0
  BestP none = Unit
  BestP (some (c, y)) = P y

  pub find_best-Outcome :
      (readers : List (List A)) (i : ℕ) (best : Option (ℕ × A))
      → All P (concat readers)
      → BestP best
      → Outcome readers i best (find_best before readers i best)
  unfolding find_best
  find_best-Outcome [] i none a p = refl
  find_best-Outcome [] i (some (c, y)) a p = inl (refl, (refl, tt))
  find_best-Outcome ([] ∷ readers) i best a p =
      skip_empty readers i best (find_best before readers (i + 1) best)
        (find_best-Outcome readers (i + 1) best a p)
  find_best-Outcome ((x ∷ run) ∷ readers) i none a p =
      let rest = (All-append_parts P run (concat readers) a.1).1 in
      let later = find_best-Outcome readers (i + 1) (some (i, x)) rest a.0 in
      let r = find_best before readers (i + 1) (some (i, x)) in
      let (out, e, f, less) =
        take_head x run readers i r a.0
          (asym_of x readers (i + 1) (some (i, x)) r a.0 rest later (λ c y s. ground (arith, s)))
          later in
      subst (Outcome ((x ∷ run) ∷ readers) i none) (sym e) f
  find_best-Outcome ((x ∷ run) ∷ readers) i (some (c, y)) a p =
      let rest = (All-append_parts P run (concat readers) a.1).1 in
      elim (Bool-cases (before x y)) [
        | inl l ↦
            let later = find_best-Outcome readers (i + 1) (some (i, x)) rest a.0 in
            let r = find_best before readers (i + 1) (some (i, x)) in
            let (out, e, f, less) =
              take_head x run readers i r a.0
                (asym_of x readers (i + 1) (some (i, x)) r a.0 rest later
                  (λ c y s. ground (arith, s)))
                later in
            rw (find_best, l)
              (subst (Outcome ((x ∷ run) ∷ readers) i (some (c, y))) (sym e)
                (inr (f, better (out.1) x y a p l f.offset f.run f.at less)))
        | inr l ↦
            rw (find_best, l)
              (keep_best x y run readers i c (find_best before readers (i + 1) (some (c, y))) a.0 p
                rest l (find_best-Outcome readers (i + 1) (some (c, y)) rest p))
      ]
    where
      better :
          (z x y : A)
          → All P (concat ((x ∷ run) ∷ readers))
          → P y
          → before x y ≡ true
          → (j : ℕ) (r : List A) → get_elem? ((x ∷ run) ∷ readers) j ≡ some (z ∷ r)
          → ((z ≡ x) ⊎ (before z x ≡ true))
          → before z y ≡ true
      better z x y a p l j r h (inl same) = subst (λ w. before w y ≡ true) (sym same) l
      better z x y a p l j r h (inr up) =
          weak.less_trans z x y (at-P ((x ∷ run) ∷ readers) j z r a h) a.0 p up l
