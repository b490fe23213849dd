-- ===== src/Buffer/Pool/Touch.antt =====
-- Calls of src/buffer/buffer_manager.cpp that leave every page where it is.
use chicken_db.Base.{
  ℕ, zero, suc, ◌≡◌, refl, sym, ap, ◌∙◌, subst, inl, inr, false, Option, none, some, List, [], ◌∷◌,
  arith, Bool-cases, Option-cases, get_elem?, set, get_elem?-set_self, get_elem?-set_other,
}
use chicken_db.Buffer.Pool.{
  find_victim_frame, PageId, read_page, Frame, Pool, page_eq, sweep_victim,
}
use chicken_db.Base.Eq.{nat_eq, ◌==◌, ==_iff}
use chicken_db.Base.Dict.{Dict, lookup}
use chicken_db.Buffer.Clock.{pin, evict_frame_id}
use chicken_db.Buffer.Pool.Contents.{
  none-some, IsValid, Keeps, some_inj, set-cases, held-mapped, held-unmapped,
}

module _ {Data : Type 0} where
  abbrev pub retouched : ℕ → Frame Data → Pool Data → List ℕ → Dict ℕ (List Data) → ℕ → Pool Data
  retouched i g s counts disk dirty_count = record s {
    frames = set s.frames i g;
    counts = counts;
    disk = disk;
    dirty_count = dirty_count;
  }

  abbrev pub touched : ℕ → Frame Data → Pool Data → List ℕ → ℕ → Pool Data
  touched i g s counts dirty_count = retouched i g s counts s.disk dirty_count

  -- A frame with other counts, dirtier, or written to its file.
  module _ (i : ℕ) (f g : Frame Data) (s : Pool Data) (counts : List ℕ) (disk : Dict ℕ (List Data))
      (dirty_count : ℕ) (v : IsValid s) (h : get_elem? s.frames i ≡ some f) (page : g.page ≡ f.page)
      (content : g.content ≡ f.content)
      (kept : (q : PageId) (d : Data)
        → (f.page ≡ some q → ⊥)
        → read_page q s.disk ≡ some d
        → read_page q disk ≡ some d) where
    pub retouched-IsValid :
        ((q : PageId) → f.page ≡ some q → g.dirty ≡ false → read_page q disk ≡ some f.content)
        → IsValid (retouched i g s counts disk dirty_count)
    retouched-IsValid tidy = record {
      mapped = λ q j e.
          let (x, (at_j, r)) = v.mapped q j e in
          elim (Bool-cases (i == j)) [
            | inl same ↦
                let j_is = (==_iff i j).0 same in
                let x_is : f ≡ x =
                  some_inj (sym h ∙ subst (λ y. get_elem? s.frames y ≡ some x) (sym j_is) at_j) in
                (
                  g,
                  (
                    subst (λ y. get_elem? (set s.frames i g) y ≡ some g) j_is
                        (get_elem?-set_self s.frames i g f h),
                    page ∙ (ap (λ y. y.page) x_is ∙ r),
                  ),
                )
            | inr apart ↦
                (x, (get_elem?-set_other s.frames i j g (λ y. ground (arith, apart, y)) ∙ at_j, r))
          ];
      tabled = λ j x q e r. elim (set-cases s.frames i j g f x h e) [
        | inl both ↦
            subst (λ y. lookup q s.page_table ≡ some y) both.0
              (v.tabled i f q h (sym page ∙ (ap (λ y. y.page) both.1 ∙ r)))
        | inr (apart, e') ↦ v.tabled j x q e' r
      ];
      clean = λ j x q e r dirty. elim (set-cases s.frames i j g f x h e) [
        | inl both ↦
            tidy q (sym page ∙ (ap (λ y. y.page) both.1 ∙ r)) (ap (λ y. y.dirty) both.1 ∙ dirty)
            ∙ ap some (sym content ∙ ap (λ y. y.content) both.1)
        | inr (apart, e') ↦
            kept q x.content
              (λ p. apart (some_inj (sym (v.tabled i f q h p) ∙ v.tabled j x q e' r)))
              (v.clean j x q e' r dirty)
      ];
    }

    pub retouched-Keeps : Keeps s (retouched i g s counts disk dirty_count)
    retouched-Keeps q d k = elim (Option-cases (lookup q s.page_table)) [
      | inl missing ↦
          held-unmapped q (retouched i g s counts disk dirty_count) missing
          ∙ kept q d (λ p. none-some (sym missing ∙ v.tabled i f q h p))
              (sym (held-unmapped q s missing) ∙ k)
      | inr (j, present) ↦
          let (x, (at_j, r)) = v.mapped q j present in
          elim (Bool-cases (i == j)) [
            | inl same ↦
                let j_is = (==_iff i j).0 same in
                let x_is : f ≡ x =
                  some_inj (sym h ∙ subst (λ y. get_elem? s.frames y ≡ some x) (sym j_is) at_j) in
                held-mapped q j g (retouched i g s counts disk dirty_count) present (
                  subst (λ y. get_elem? (set s.frames i g) y ≡ some g) j_is
                    (get_elem?-set_self s.frames i g f h))
                ∙ (ap some (content ∙ ap (λ y. y.content) x_is)
                    ∙ (sym (held-mapped q j x s present at_j) ∙ k))
            | inr apart ↦
                held-mapped q j x (retouched i g s counts disk dirty_count) present
                  (get_elem?-set_other s.frames i j g (λ y. ground (arith, apart, y)) ∙ at_j)
                ∙ (sym (held-mapped q j x s present at_j) ∙ k)
          ]
    ]

  module _ (i : ℕ) (f g : Frame Data) (s : Pool Data) (counts : List ℕ) (dirty_count : ℕ)
      (v : IsValid s) (h : get_elem? s.frames i ≡ some f) (page : g.page ≡ f.page)
      (content : g.content ≡ f.content) where
    pub touched-IsValid :
        (g.dirty ≡ false → f.dirty ≡ false) → IsValid (touched i g s counts dirty_count)
    touched-IsValid tidy =
        retouched-IsValid i f g s counts s.disk dirty_count v h page content (λ q d _ k. k)
          (λ q p d. v.clean i f q h p (tidy d))

    pub touched-Keeps : Keeps s (touched i g s counts dirty_count)
    touched-Keeps =
        retouched-Keeps i f g s counts s.disk dirty_count v h page content (λ q d _ k. k)

  -- The search for a victim changes counts and the free list only.
  abbrev pub searched : Pool Data → List ℕ → List ℕ → Pool Data
  searched s counts free = record s { counts = counts; free_list = free }

  abbrev pub Searched : Pool Data → Option (ℕ × Pool Data) → Type 0
  Searched s none = Unit
  Searched s (some r) = (counts : List ℕ) × ((free : List ℕ) × (r.1 ≡ searched s counts free))

  sweep_victim-Searched :
      (n : ℕ) (s : Pool Data) (counts free : List ℕ)
      → Searched s (sweep_victim n (searched s counts free))
  unfolding sweep_victim
  sweep_victim-Searched zero s counts free = tt
  sweep_victim-Searched (suc n) s counts free = elim (Option-cases (evict_frame_id counts)) [
    | inl e ↦ rw (Searched, sweep_victim, e) tt
    | inr (r, e) ↦ elim (Option-cases (get_elem? s.frames (r.0))) [
      | inl h ↦ rw (Searched, sweep_victim, e, h) tt
      | inr (f, h) ↦ elim (Bool-cases (f.pin_count == 0)) [
        | inl p ↦ rw (Searched, sweep_victim, e, h, p) (r.1, (free, refl))
        | inr p ↦
            rw (Searched, sweep_victim, e, h, p) (sweep_victim-Searched n s (pin (r.0) (r.1)) free)
      ]
    ]
  ]

  pub find_victim-Searched : (n : ℕ) (s : Pool Data) → Searched s (find_victim_frame n s)
  unfolding find_victim_frame
  find_victim-Searched n s =
      (elim s.free_list
        as (λ l.
          Searched s (elim l [
            | [] ↦ sweep_victim n s
            | i ∷ rest ↦ some (i, record s { free_list = rest })
          ])) [
            | [] ↦ sweep_victim-Searched n s s.counts s.free_list
            | i ∷ rest ↦ (s.counts, (rest, refl))
          ])

  pub searched-IsValid :
      (s : Pool Data) (counts free : List ℕ) → IsValid s → IsValid (searched s counts free)
  searched-IsValid s counts free v = record {
    mapped = v.mapped;
    tabled = v.tabled;
    clean = v.clean;
  }
