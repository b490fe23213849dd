-- ===== src/Buffer/Pool/Flush.antt =====
-- `FlushPage` and `FlushDirtyUnpinned` of src/buffer/buffer_manager.cpp.
use chicken_db.Base.{
  ℕ, ◌-◌, ◌≡◌, refl, sym, ap, ◌∙◌, subst, inl, inr, true, false, ◌&&◌, some, List, [], ◌∷◌,
  if◌then◌else◌, Bool-cases, Option-cases, get_elem?,
}
use chicken_db.Base.Eq.{nat_eq, ◌==◌}
use chicken_db.Base.Dict.{lookup}
use chicken_db.Buffer.Pool.{
  candidates, flush_dirty_unpinned, flush_all, PageId, Frame, Pool, read_page, page_eq, flushed,
  flush_page, flush_candidate, write_page,
}
use chicken_db.Buffer.Pool.Touch.{retouched-IsValid, retouched-Keeps}
use chicken_db.Buffer.Pool.Disk.{read_page-write_page, write_page_kept}
use chicken_db.Buffer.Pool.Contents.{Kept, Kept-self, IsValid, Keeps, some_inj}

module _ {Data : Type 0} (zero_page : Data) where
  module _ (i : ℕ) (f : Frame Data) (pid : PageId) (s : Pool Data) (v : IsValid s)
      (h : get_elem? s.frames i ≡ some f) (p : f.page ≡ some pid) where
    flushed_kept :
        (q : PageId) (d : Data)
        → (f.page ≡ some q → ⊥)
        → read_page q s.disk ≡ some d
        → read_page q (write_page zero_page pid f.content s.disk) ≡ some d
    flushed_kept q d away =
        write_page_kept zero_page pid q f.content d s.disk (λ same. away (p ∙ ap some same))

    flushed-IsValid : IsValid (flushed zero_page i f pid s)
    flushed-IsValid =
        retouched-IsValid i f (record f { dirty = false }) s s.counts
          (write_page zero_page pid f.content s.disk)
          (if f.dirty then s.dirty_count - 1 else s.dirty_count) v h refl refl flushed_kept
          (λ q r _.
            subst (λ x. read_page x (write_page zero_page pid f.content s.disk) ≡ some f.content)
              (some_inj (sym p ∙ r)) (read_page-write_page zero_page pid f.content s.disk))

    flushed-Keeps : Keeps s (flushed zero_page i f pid s)
    flushed-Keeps =
        retouched-Keeps i f (record f { dirty = false }) s s.counts
          (write_page zero_page pid f.content s.disk)
          (if f.dirty then s.dirty_count - 1 else s.dirty_count) v h refl refl flushed_kept

    flushed-Kept : Kept s (flushed zero_page i f pid s)
    flushed-Kept = record {
      valid = flushed-IsValid;
      keeps = flushed-Keeps;
      same_table = refl;
      counters = refl;
    }

  -- Flushing a page of the pool answers yes, puts the content of its frame into its file, keeps
  -- the pool consistent and loses nothing.
  pub flush_page_writes :
      (pid : PageId) (i : ℕ) (f : Frame Data) (s : Pool Data)
      → IsValid s
      → lookup pid s.page_table ≡ some i
      → get_elem? s.frames i ≡ some f
      → ((flush_page zero_page pid s).1 ≡ true)
        × ((read_page pid (flush_page zero_page pid s).0.disk ≡ some f.content)
            × (IsValid ((flush_page zero_page pid s).0) × Keeps s ((flush_page zero_page pid s).0)))
  unfolding flush_page
  flush_page_writes pid i f s v e h =
      let (x, (at_i, r)) = v.mapped pid i e in
      let p : f.page ≡ some pid = ap (λ y. y.page) (some_inj (sym h ∙ at_i)) ∙ r in
      rw (flush_page, e, h)
        (
          refl,
          (
            read_page-write_page zero_page pid f.content s.disk,
            (flushed-IsValid i f pid s v h p, flushed-Keeps i f pid s v h p),
          ),
        )

  pub flush_page-Kept :
      (pid : PageId) (s : Pool Data) → IsValid s → Kept s ((flush_page zero_page pid s).0)
  unfolding flush_page
  flush_page-Kept pid s v = elim (Option-cases (lookup pid s.page_table)) [
    | inl e ↦ rw (flush_page, e) (Kept-self s v)
    | inr (i, e) ↦
        let (f, (h, p)) = v.mapped pid i e in rw (flush_page, e, h) (flushed-Kept i f pid s v h p)
  ]

  flush_candidate-Kept :
      (i : ℕ) (s : Pool Data) → IsValid s → Kept s (flush_candidate zero_page i s)
  flush_candidate-Kept i s v = elim (Option-cases (get_elem? s.frames i)) [
    | inl h ↦ rw (flush_candidate, h) (Kept-self s v)
    | inr (f, h) ↦ elim (Option-cases f.page) [
      | inl p ↦ rw (flush_candidate, h, p) (Kept-self s v)
      | inr (pid, p) ↦ elim (Bool-cases (f.dirty && f.pin_count == 0)) [
        | inl b ↦ rw (flush_candidate, h, p, b) (flushed-Kept i f pid s v h p)
        | inr b ↦ rw (flush_candidate, h, p, b) (Kept-self s v)
      ]
    ]
  ]

  flush_all-Kept : (is : List ℕ) (s : Pool Data) → IsValid s → Kept s (flush_all zero_page is s)
  flush_all-Kept [] s v = Kept-self s v
  flush_all-Kept (i ∷ is) s v =
      let first = flush_candidate-Kept i s v in
      let rest = flush_all-Kept is (flush_candidate zero_page i s) first.valid in
      record {
        valid = rest.valid;
        keeps = λ q d k. rest.keeps q d (first.keeps q d k);
        same_table = rest.same_table ∙ first.same_table;
        counters = rest.counters ∙ first.counters;
      }

  pub flush_dirty_unpinned-Kept :
      (s : Pool Data) → IsValid s → Kept s (flush_dirty_unpinned zero_page s)
  unfolding flush_dirty_unpinned
  flush_dirty_unpinned-Kept s v = flush_all-Kept (candidates zero_page s.page_table s.frames) s v
