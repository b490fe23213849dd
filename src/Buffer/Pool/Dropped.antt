-- ===== src/Buffer/Pool/Dropped.antt =====
-- `DeletePage` of src/buffer/buffer_manager.cpp.
use chicken_db.Base.{
  ◌-◌, ◌≡◌, refl, inl, inr, none, some, [], ◌∷◌, ◌++◌, arith, if◌then◌else◌, Bool-cases,
  Option-cases,
}
use chicken_db.Base.Eq.{nat_eq, ◌==◌}
use chicken_db.Base.Dict.{lookup, lookup-erase}
use chicken_db.Buffer.Pool.{PageId, Pool, page_eq, delete_page}
use chicken_db.Buffer.Pool.Contents.{held, IsValid}
use chicken_db.Buffer.Pool.Evict.{dropped-IsValid, dropped-held}

module _ {Data : Type 0} where
  -- What `DeletePage` leaves behind.
  pub record Dropped (pid : PageId) (s s' : Pool Data) : Type 0 where
    pub valid : IsValid s'
    pub keeps : (q : PageId) (d : Data) → (pid ≡ q → ⊥) → held s q ≡ some d → held s' q ≡ some d
    pub others : (q : PageId) → lookup q s.page_table ≡ none → lookup q s'.page_table ≡ none
    pub counters : s'.next_page_no ≡ s.next_page_no

  unchanged : (pid : PageId) (s : Pool Data) → IsValid s → Dropped pid s s
  unchanged pid s v = record {
    valid = v;
    keeps = λ q d away k. k;
    others = λ q l. l;
    counters = refl;
  }

  pub delete_page-Dropped :
      (pid : PageId) (s : Pool Data) → IsValid s → Dropped pid s ((delete_page pid s).0)
  unfolding delete_page
  delete_page-Dropped pid s v = elim (Option-cases (lookup pid s.page_table)) [
    | inl e ↦ rw (delete_page, e) (unchanged pid s v)
    | inr (i, e) ↦
        let (f, (h, p)) = v.mapped pid i e in
        elim (Bool-cases (f.pin_count == 0)) [
          | inr z ↦ rw (delete_page, e, h, z) (unchanged pid s v)
          | inl z ↦
              let free = s.free_list ++ i ∷ [] in
              let n = if f.dirty then s.dirty_count - 1 else s.dirty_count in
              rw (delete_page, e, h, z)
                (record {
                  valid = dropped-IsValid i f pid s.disk free n s v h p (λ q d away k. k);
                  keeps = dropped-held i f pid s.disk free n s v h p (λ q d away k. k);
                  others = λ q l. ground (arith, lookup-erase pid q s.page_table, l);
                  counters = refl;
                })
        ]
  ]
