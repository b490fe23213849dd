-- ===== src/Buffer/Pool/Evict.antt =====
-- `EvictFrame` of src/buffer/buffer_manager.cpp loses nothing.
use chicken_db.Base.{
  ℕ, ◌-◌, ◌≡◌, refl, sym, ap, ◌∙◌, subst, inl, inr, false, none, some, List, arith, if◌then◌else◌,
  Bool-cases, Option-cases, get_elem?, set, get_elem?-set_self, get_elem?-set_other,
}
use chicken_db.Buffer.Pool.Touch.{searched, searched-IsValid}
use chicken_db.Buffer.Pool.Contents.{
  held, none-some, Keeps, held-mapped, held-unmapped, IsValid, some_inj, set-cases,
}
use chicken_db.Base.Eq.{◌==◌, nat_eq, ==_iff, ==_ne}
use chicken_db.Base.Dict.{Dict, lookup, lookup-erase, erase}
use chicken_db.Buffer.Pool.{evict_frame, PageId, Frame, Pool, write_page, read_page, page_eq}
use chicken_db.Buffer.Pool.Disk.{read_page-write_page, write_page_kept}

erased :
    (old pid : PageId) (j : ℕ) (m : Dict PageId ℕ)
    → lookup pid (erase old m) ≡ some j
    → (old ≡ pid → ⊥) × (lookup pid m ≡ some j)
erased old pid j m h = ground (arith, h, lookup-erase old pid m, ==_iff old pid)

module _ {Data : Type 0} where
  -- After the eviction of a frame the invariant holds, the frame is empty, and nothing is lost.
  pub record Evicted (i : ℕ) (f : Frame Data) (s s' : Pool Data) : Type 0 where
    pub valid : IsValid s'
    pub keeps : Keeps s s'
    pub empty : Frame Data
    pub there : get_elem? s'.frames i ≡ some empty
    pub no_page_left : empty.page ≡ none
    pub absent : (q : PageId) → lookup q s.page_table ≡ none → lookup q s'.page_table ≡ none
    pub counters : s'.next_page_no ≡ s.next_page_no

  -- The pool without the page `old` of frame `i`, with other files that still hold the other pages.
  module _ (i : ℕ) (f : Frame Data) (old : PageId) (disk : Dict ℕ (List Data)) (free : List ℕ)
      (n : ℕ) (s : Pool Data) where
    abbrev emptied : Frame Data
    emptied = record f { page = none; dirty = false }

    abbrev pub dropped : Pool Data
    dropped = record s {
      frames = set s.frames i (record f { page = none; dirty = false });
      page_table = erase old s.page_table;
      free_list = free;
      disk = disk;
      dirty_count = n;
    }

    module _ (v : IsValid s) (h : get_elem? s.frames i ≡ some f) (p : f.page ≡ some old)
        (kept : (pid : PageId) (d : Data)
          → (old ≡ pid → ⊥)
          → read_page pid s.disk ≡ some d
          → read_page pid disk ≡ some d) where
      other :
          (j : ℕ) (x : Frame Data) (pid : PageId)
          → get_elem? s.frames j ≡ some x
          → x.page ≡ some pid
          → (i ≡ j → ⊥)
          → old ≡ pid
          → ⊥
      other j x pid e q apart same = apart (
          some_inj (
            sym (v.tabled i f old h p)
            ∙ subst (λ y. lookup y s.page_table ≡ some j) (sym same) (v.tabled j x pid e q)))

      elsewhere :
          (j : ℕ) (x : Frame Data) (pid : PageId)
          → get_elem? s.frames j ≡ some x
          → x.page ≡ some pid
          → (old ≡ pid → ⊥)
          → i ≡ j
          → ⊥
      elsewhere j x pid at_j q away same = away (
          some_inj (
            sym p
            ∙ (ap (λ y. y.page)
                  (some_inj (sym h ∙ subst (λ y. get_elem? s.frames y ≡ some x) (sym same) at_j))
                ∙ q)))

      pub dropped-IsValid : IsValid dropped
      dropped-IsValid = record {
        mapped = λ pid j e.
            let (away, e') = erased old pid j s.page_table e in
            let (x, (at_j, q)) = v.mapped pid j e' in
            (
              x,
              (get_elem?-set_other s.frames i j emptied (elsewhere j x pid at_j q away) ∙ at_j, q),
            );
        tabled = λ j x pid e q. elim (set-cases s.frames i j emptied f x h e) [
          | inl both ↦ absurd (none-some (ap (λ y. y.page) both.1 ∙ q))
          | inr (apart, e') ↦
              let away = other j x pid e' q apart in
              lookup-erase old pid s.page_table ∙ rw (==_ne old pid away) (v.tabled j x pid e' q)
        ];
        clean = λ j x pid e q tidy. elim (set-cases s.frames i j emptied f x h e) [
          | inl both ↦ absurd (none-some (ap (λ y. y.page) both.1 ∙ q))
          | inr (apart, e') ↦
              kept pid x.content (other j x pid e' q apart) (v.clean j x pid e' q tidy)
        ];
      }

      pub dropped-held :
          (pid : PageId) (d : Data)
          → (old ≡ pid → ⊥)
          → held s pid ≡ some d
          → held dropped pid ≡ some d
      dropped-held pid d away k =
          let e = lookup-erase old pid s.page_table ∙ rw (==_ne old pid away) refl in
          elim (Option-cases (lookup pid s.page_table)) [
            | inl absent ↦
                held-unmapped pid dropped (e ∙ absent)
                ∙ kept pid d away (sym (held-unmapped pid s absent) ∙ k)
            | inr (j, present) ↦
                let (x, (at_j, q)) = v.mapped pid j present in
                held-mapped pid j x dropped (e ∙ present)
                  (get_elem?-set_other s.frames i j emptied (elsewhere j x pid at_j q away) ∙ at_j)
                ∙ (sym (held-mapped pid j x s present at_j) ∙ k)
          ]

module _ {Data : Type 0} (zero_page : Data) where
  -- The files after the eviction of the page `old`.
  abbrev written : Frame Data → PageId → Dict ℕ (List Data) → Dict ℕ (List Data)
  written f old disk = if f.dirty then write_page zero_page old f.content disk else disk

  -- The pool after the eviction of the page `old` from frame `i`.
  abbrev evicted : ℕ → Frame Data → PageId → Pool Data → Pool Data
  evicted i f old s =
      dropped i f old (written f old s.disk) s.free_list
        (if f.dirty then s.dirty_count - 1 else s.dirty_count) s

  disk_kept :
      (f : Frame Data) (old pid : PageId) (d : Data) (disk : Dict ℕ (List Data))
      → (old ≡ pid → ⊥)
      → read_page pid disk ≡ some d
      → read_page pid (written f old disk) ≡ some d
  disk_kept f old pid d disk h k = elim (Bool-cases f.dirty) [
    | inl e ↦ rw e (write_page_kept zero_page old pid f.content d disk h k)
    | inr e ↦ rw e k
  ]

  -- The page is in its file afterwards.
  disk_written :
      (i : ℕ) (f : Frame Data) (old : PageId) (s : Pool Data)
      → IsValid s
      → get_elem? s.frames i ≡ some f
      → f.page ≡ some old
      → read_page old (written f old s.disk) ≡ some f.content
  disk_written i f old s v h p = elim (Bool-cases f.dirty) [
    | inl e ↦ rw e (read_page-write_page zero_page old f.content s.disk)
    | inr e ↦ rw e (v.clean i f old h p e)
  ]

  module _ (i : ℕ) (f : Frame Data) (old : PageId) (s : Pool Data) (v : IsValid s)
      (h : get_elem? s.frames i ≡ some f) (p : f.page ≡ some old) where
    evicted-IsValid : IsValid (evicted i f old s)
    evicted-IsValid =
        dropped-IsValid i f old (written f old s.disk) s.free_list
          (if f.dirty then s.dirty_count - 1 else s.dirty_count) s v h p
          (λ pid d. disk_kept f old pid d s.disk)

    evicted-Keeps : Keeps s (evicted i f old s)
    evicted-Keeps pid d k = elim (Bool-cases (old == pid)) [
      | inl same ↦
          let q = (==_iff old pid).0 same in
          let d_same : f.content ≡ d = some_inj (
            sym (held-mapped old i f s (v.tabled i f old h p) h)
            ∙ subst (λ x. held s x ≡ some d) (sym q) k) in
          held-unmapped pid (evicted i f old s) (lookup-erase old pid s.page_table ∙ rw same refl)
          ∙ subst (λ x. read_page x (evicted i f old s).disk ≡ some f.content) q
              (disk_written i f old s v h p)
          ∙ ap some d_same
      | inr apart ↦
          dropped-held i f old (written f old s.disk) s.free_list
            (if f.dirty then s.dirty_count - 1 else s.dirty_count) s v h p
            (λ q e. disk_kept f old q e s.disk) pid d
            (λ q. ground (arith, apart, ==_iff old pid, q)) k
    ]

  evict_frame-Evicted :
      (i : ℕ) (f : Frame Data) (s : Pool Data)
      → IsValid s
      → get_elem? s.frames i ≡ some f
      → Evicted i f s (evict_frame zero_page i f s)
  unfolding evict_frame
  evict_frame-Evicted i f s v h =
      (elim f.page
          as (λ page.
            f.page ≡ page → Evicted i f s (elim page [ none ↦ s | some old ↦ evicted i f old s ])) [
              | none ↦ λ p. record {
                valid = v;
                keeps = λ pid d k. k;
                empty = f;
                there = h;
                no_page_left = p;
                absent = λ q k. k;
                counters = refl;
              }
              | some old ↦ λ p. record {
                valid = evicted-IsValid i f old s v h p;
                keeps = evicted-Keeps i f old s v h p;
                empty = record f { page = none; dirty = false };
                there = get_elem?-set_self s.frames i (record f { page = none; dirty = false }) f h;
                no_page_left = refl;
                absent = λ q k. ground (arith, lookup-erase old q s.page_table, k);
                counters = refl;
              }
            ])
        refl

  -- Whatever the search for a victim did before.
  pub found-Evicted :
      (i : ℕ) (f : Frame Data) (s s1 : Pool Data) (counts free : List ℕ)
      → s1 ≡ searched s counts free
      → IsValid s
      → get_elem? s1.frames i ≡ some f
      → Evicted i f s (evict_frame zero_page i f s1)
  found-Evicted i f s s1 counts free same v h =
      let ev =
        subst (λ x. Evicted i f x (evict_frame zero_page i f s1)) same
          (evict_frame-Evicted i f s1 (subst IsValid (sym same) (searched-IsValid s counts free v))
            h) in
      record {
        valid = ev.valid;
        keeps = ev.keeps;
        empty = ev.empty;
        there = ev.there;
        no_page_left = ev.no_page_left;
        absent = ev.absent;
        counters = ev.counters;
      }
