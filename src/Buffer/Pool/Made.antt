-- ===== src/Buffer/Pool/Made.antt =====
-- `NewPage` of src/buffer/buffer_manager.cpp.
use chicken_db.Base.{
  ℕ, ◌+◌, ◌≡◌, refl, ap, ◌∙◌, subst, inl, inr, true, Option, none, some, arith, Option-cases,
  get_elem?, get_elem?-set_self,
}
use chicken_db.Buffer.Pool.Evict.{found-Evicted, Evicted}
use chicken_db.Base.Eq.{nat_eq, ==_ne, ==_self}
use chicken_db.Base.Dict.{Dict, lookup, insert, lookup-insert}
use chicken_db.Buffer.Pool.{
  evict_frame, PageId, Frame, Pool, page_eq, find_victim_frame, install, local_next, new_page,
}
use chicken_db.Buffer.Pool.Contents.{held, IsValid, held-mapped}
use chicken_db.Buffer.Pool.Fetch.{install-IsValid, install-held}
use chicken_db.Buffer.Pool.Touch.{Searched, find_victim-Searched}

module _ {Data : Type 0} where
  abbrev pub next_page : ℕ → Pool Data → PageId
  next_page table s = record { table_id = table; page_no = local_next table s.next_page_no }

  -- Numbers of pages and of dirty frames are not part of what the pool holds.
  pub renumbered-IsValid :
      (s : Pool Data) (numbers : Dict ℕ ℕ) (n : ℕ)
      → IsValid s
      → IsValid (record s { next_page_no = numbers; dirty_count = n })
  renumbered-IsValid s numbers n v = record {
    mapped = v.mapped;
    tabled = v.tabled;
    clean = v.clean;
  }

module _ {Data : Type 0} (zero_page : Data) where
  -- What `NewPage` leaves behind.
  pub record Made (table : ℕ) (s : Pool Data) (pid : PageId) (s' : Pool Data) : Type 0 where
    pub its_number : pid ≡ next_page table s
    pub valid : IsValid s'
    pub zeroed : held s' pid ≡ some zero_page
    pub keeps : (q : PageId) (d : Data) → (pid ≡ q → ⊥) → held s q ≡ some d → held s' q ≡ some d
    pub others :
        (q : PageId) → (pid ≡ q → ⊥) → lookup q s.page_table ≡ none → lookup q s'.page_table ≡ none
    pub counters :
        s'.next_page_no ≡ insert table (local_next table s.next_page_no + 1) s.next_page_no

  MadeResult : ℕ → Pool Data → Option (PageId × Pool Data) → Type 0
  MadeResult table s none = Unit
  MadeResult table s (some r) = Made table s (r.0) (r.1)

  Made-page :
      (table : ℕ) (i n : ℕ) (f : Frame Data) (s s2 : Pool Data)
      → lookup (next_page table s) s.page_table ≡ none
      → Evicted i f s s2
      → Made table s
          (next_page table s2)
          (record (install i (next_page table s2) zero_page true s2) {
            next_page_no = insert table (local_next table s2.next_page_no + 1) s2.next_page_no;
            dirty_count = n;
          })
  Made-page table i n f s s2 missing ev =
      let pid = next_page table s2 in
      let same : pid ≡ next_page table s =
        ap (λ m. record { table_id = table; page_no = local_next table m }) ev.counters in
      let gone : lookup pid s2.page_table ≡ none =
        ap (λ q. lookup q s2.page_table) same ∙ ev.absent (next_page table s) missing in
      let new_frame : Frame Data = record {
        page = some pid;
        content = zero_page;
        pin_count = 1;
        dirty = true;
      } in
      let there = get_elem?-set_self s2.frames i new_frame ev.empty ev.there in
      let numbers = insert table (local_next table s2.next_page_no + 1) s2.next_page_no in
      record {
        its_number = same;
        valid = renumbered-IsValid (install i pid zero_page true s2) numbers n (
            install-IsValid i pid zero_page true s2 ev.empty ev.valid ev.there ev.no_page_left gone
              (λ e. absurd (ground (arith, e))));
        zeroed =
            held-mapped pid i new_frame (install i pid zero_page true s2)
              (lookup-insert pid pid i s2.page_table ∙ rw (==_self pid) refl) there;
        keeps = λ q d away k.
            install-held i pid zero_page true s2 ev.empty ev.valid ev.there ev.no_page_left gone q d
              (λ e. absurd (away e)) (ev.keeps q d k);
        others =
            λ q away l. lookup-insert pid q i s2.page_table ∙ rw (==_ne pid q away) (ev.absent q l);
        counters = ap (λ m. insert table (local_next table m + 1) m) ev.counters;
      }

  new_page-MadeResult :
      (n table : ℕ) (s : Pool Data)
      → IsValid s
      → lookup (next_page table s) s.page_table ≡ none
      → MadeResult table s (new_page zero_page n table s)
  unfolding new_page MadeResult
  new_page-MadeResult n table s v missing = elim (Option-cases (find_victim_frame n s)) [
    | inl none_found ↦ rw (MadeResult, new_page, none_found) tt
    | inr (r, found) ↦
        let (counts, (free, same)) = subst (Searched s) found (find_victim-Searched n s) in
        elim (Option-cases (get_elem? (r.1).frames (r.0))) [
          | inl h ↦ rw (MadeResult, new_page, found, h) tt
          | inr (f, h) ↦
              rw (MadeResult, new_page, found, h)
                (Made-page table (r.0) _ f s (evict_frame zero_page (r.0) f (r.1)) missing
                  (found-Evicted zero_page (r.0) f s (r.1) counts free same v h))
        ]
  ]

  pub new_page-Made :
      (n table : ℕ) (s : Pool Data) (pid : PageId) (s' : Pool Data)
      → IsValid s
      → lookup (next_page table s) s.page_table ≡ none
      → new_page zero_page n table s ≡ some (pid, s')
      → Made table s pid s'
  unfolding MadeResult
  new_page-Made n table s pid s' v missing r =
      subst (MadeResult table s) r (new_page-MadeResult n table s v missing)
