-- ===== src/Buffer/Pool/Fetch.antt =====
-- `FetchPage` of src/buffer/buffer_manager.cpp gives the page its content and loses nothing.
use chicken_db.Base.{
  ℕ, ◌≡◌, refl, sym, ap, ◌∙◌, subst, inl, inr, Bool, false, none, some, Bool-cases, Option-cases,
  get_elem?, set, get_elem?-set_self, get_elem?-set_other,
}
use chicken_db.Buffer.Pool.Contents.{
  none-some, held, IsValid, some_inj, set-cases, held-mapped, held-unmapped,
}
use chicken_db.Base.Eq.{nat_eq, ◌==◌, ==_self, ==_iff, ==_ne}
use chicken_db.Base.Dict.{lookup, insert, lookup-insert}
use chicken_db.Buffer.Pool.{PageId, Frame, Pool, read_page, page_eq, install}

module _ {Data : Type 0} where
  -- Installing a page that the pool does not have into an empty frame.
  module _ (i : ℕ) (pid : PageId) (d : Data) (dirty : Bool) (s : Pool Data) (f : Frame Data)
      (v : IsValid s) (h : get_elem? s.frames i ≡ some f) (p : f.page ≡ none)
      (absent : lookup pid s.page_table ≡ none) where
    new_frame : Frame Data
    new_frame = record { page = some pid; content = d; pin_count = 1; dirty = dirty }

    mapped_elsewhere : (q : PageId) (j : ℕ) → lookup q s.page_table ≡ some j → i ≡ j → ⊥
    mapped_elsewhere q j e same =
        let (x, (at_j, r)) = v.mapped q j e in
        none-some (
          sym p
          ∙ (ap (λ y. y.page)
                (some_inj (sym h ∙ subst (λ y. get_elem? s.frames y ≡ some x) (sym same) at_j))
              ∙ r))

    pub install-IsValid :
        (dirty ≡ false → read_page pid s.disk ≡ some d) → IsValid (install i pid d dirty s)
    unfolding new_frame
    install-IsValid written = record {
      mapped = λ q j e. elim (Bool-cases (pid == q)) [
        | inl same ↦
            let j_is : i ≡ j =
              some_inj (sym (lookup-insert pid q i s.page_table ∙ rw same refl) ∙ e) in
            (
              new_frame,
              (
                subst (λ y. get_elem? (set s.frames i new_frame) y ≡ some new_frame) j_is
                    (get_elem?-set_self s.frames i new_frame f h),
                ap some ((==_iff pid q).0 same),
              ),
            )
        | inr apart ↦
            let e' : lookup q s.page_table ≡ some j =
              sym (lookup-insert pid q i s.page_table ∙ rw apart refl) ∙ e in
            let (x, (at_j, r)) = v.mapped q j e' in
            (x, (get_elem?-set_other s.frames i j new_frame (mapped_elsewhere q j e') ∙ at_j, r))
      ];
      tabled = λ j x q e r. elim (set-cases s.frames i j new_frame f x h e) [
        | inl both ↦
            let q_is : pid ≡ q = some_inj (ap (λ y. y.page) both.1 ∙ r) in
            subst (λ y. lookup y (insert pid i s.page_table) ≡ some j) q_is
              (lookup-insert pid pid i s.page_table ∙ rw (==_self pid) (ap some both.0))
        | inr (apart, e') ↦
            let there = v.tabled j x q e' r in
            let away : pid ≡ q → ⊥ = λ same.
              none-some
                (sym absent ∙ subst (λ y. lookup y s.page_table ≡ some j) (sym same) there) in
            lookup-insert pid q i s.page_table ∙ rw (==_ne pid q away) there
      ];
      clean = λ j x q e r tidy. elim (set-cases s.frames i j new_frame f x h e) [
        | inl both ↦
            let q_is : pid ≡ q = some_inj (ap (λ y. y.page) both.1 ∙ r) in
            let d_is : d ≡ x.content = ap (λ y. y.content) both.1 in
            let clean_d : dirty ≡ false = ap (λ y. y.dirty) both.1 ∙ tidy in
            subst (λ y. read_page y s.disk ≡ some x.content) q_is (written clean_d ∙ ap some d_is)
        | inr (apart, e') ↦ v.clean j x q e' r tidy
      ];
    }

    pub install-held :
        (q : PageId) (e : Data)
        → (pid ≡ q → e ≡ d)
        → held s q ≡ some e
        → held (install i pid d dirty s) q ≡ some e
    unfolding new_frame
    install-held q e same_content k = elim (Bool-cases (pid == q)) [
      | inl same ↦
          held-mapped q i new_frame (install i pid d dirty s)
            (lookup-insert pid q i s.page_table ∙ rw same refl)
            (get_elem?-set_self s.frames i new_frame f h)
          ∙ ap some (sym (same_content ((==_iff pid q).0 same)))
      | inr apart ↦ elim (Option-cases (lookup q s.page_table)) [
        | inl missing ↦
            held-unmapped q (install i pid d dirty s)
              (lookup-insert pid q i s.page_table ∙ rw (apart, missing) refl)
            ∙ (sym (held-unmapped q s missing) ∙ k)
        | inr (j, present) ↦
            let (x, (at_j, r)) = v.mapped q j present in
            held-mapped q j x (install i pid d dirty s)
              (lookup-insert pid q i s.page_table ∙ rw (apart, present) refl)
              (get_elem?-set_other s.frames i j new_frame (mapped_elsewhere q j present) ∙ at_j)
            ∙ (sym (held-mapped q j x s present at_j) ∙ k)
      ]
    ]
