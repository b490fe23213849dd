-- ===== src/Buffer/Pool/Calls.antt =====
-- The calls of src/buffer/buffer_manager.cpp on a pool that keeps its invariant.
use chicken_db.Base.{
  ℕ, ◌+◌, ◌-◌, ◌≡◌, refl, sym, ap, ◌∙◌, subst, inl, inr, Bool, true, false, not, ◌&&◌, Option, none,
  some, arith, if◌then◌else◌, Bool-cases, Option-cases, get_elem?, get_elem?-set_self,
}
use chicken_db.Buffer.Pool.{
  unpin_page, read_page, evict_frame, install, find_victim_frame, fetch_page, PageId, Frame, Pool,
  page_eq,
}
use chicken_db.Buffer.Pool.Fetch.{install-IsValid, install-held}
use chicken_db.Buffer.Pool.Evict.{Evicted, found-Evicted}
use chicken_db.Base.Eq.{nat_eq, ◌==◌, ==_ne}
use chicken_db.Base.Dict.{lookup, lookup-insert}
use chicken_db.Buffer.Clock.{pin}
use chicken_db.Buffer.Pool.Contents.{
  Kept, Kept-self, held, IsValid, Keeps, some_inj, held-mapped, held-unmapped,
}
use chicken_db.Buffer.Pool.Touch.{
  touched, touched-IsValid, touched-Keeps, Searched, find_victim-Searched,
}

unpinned_dirt : (is_dirty dirty : Bool) → (if is_dirty then true else dirty) ≡ false → dirty ≡ false
unpinned_dirt true dirty h = absurd (ground (arith, h))
unpinned_dirt false dirty h = h

module _ {Data : Type 0} where
  -- What a successful fetch leaves behind.
  pub record Fetched (pid : PageId) (d : Data) (s : Pool Data) (i : ℕ) (s' : Pool Data)
      : Type 0 where
    pub valid : IsValid s'
    pub keeps : Keeps s s'
    pub frame : Frame Data
    pub there : get_elem? s'.frames i ≡ some frame
    pub its_page : frame.page ≡ some pid
    pub its_content : frame.content ≡ d
    pub pinned : (frame.pin_count == 0) ≡ false
    pub others :
        (q : PageId) → (pid ≡ q → ⊥) → lookup q s.page_table ≡ none → lookup q s'.page_table ≡ none
    pub counters : s'.next_page_no ≡ s.next_page_no

  fetch_hit :
      (pid : PageId) (d : Data) (s : Pool Data) (i : ℕ) (f : Frame Data)
      → IsValid s
      → held s pid ≡ some d
      → lookup pid s.page_table ≡ some i
      → get_elem? s.frames i ≡ some f
      → f.page ≡ some pid
      → Fetched pid d s i
          (touched i (record f { pin_count = f.pin_count + 1 }) s (pin i s.counts) s.dirty_count)
  fetch_hit pid d s i f v k e h p =
      let g : Frame Data = record f { pin_count = f.pin_count + 1 } in
      record {
        valid = touched-IsValid i f g s (pin i s.counts) s.dirty_count v h refl refl (λ y. y);
        keeps = touched-Keeps i f g s (pin i s.counts) s.dirty_count v h refl refl;
        frame = g;
        there = get_elem?-set_self s.frames i g f h;
        its_page = p;
        its_content = some_inj (sym (held-mapped pid i f s e h) ∙ k);
        pinned = ground arith;
        others = λ q away l. l;
        counters = refl;
      }

  fetch_miss :
      (pid : PageId) (d old : Data) (i : ℕ) (f : Frame Data) (s s2 : Pool Data)
      → held s pid ≡ some d
      → lookup pid s.page_table ≡ none
      → Evicted i f s s2
      → Fetched pid d s i
          (install i pid (elim (read_page pid s2.disk) [ none ↦ old | some x ↦ x ]) false s2)
  fetch_miss pid d old i f s s2 k missing ev =
      let gone = ev.absent pid missing in
      let read : read_page pid s2.disk ≡ some d =
        sym (held-unmapped pid s2 gone) ∙ ev.keeps pid d k in
      let got : (elim (read_page pid s2.disk) [ none ↦ old | some x ↦ x ]) ≡ d =
        ap (λ o. elim o [ none ↦ old | some x ↦ x ]) read in
      subst (λ x. Fetched pid d s i (install i pid x false s2)) (sym got)
        (record {
          valid =
              install-IsValid i pid d false s2 ev.empty ev.valid ev.there ev.no_page_left gone
                (λ _. read);
          keeps = λ q e l.
              install-held i pid d false s2 ev.empty ev.valid ev.there ev.no_page_left gone q e
                (λ same. some_inj (
                  sym (ev.keeps q e l)
                  ∙ subst (λ x. held s2 x ≡ some d) same (held-unmapped pid s2 gone ∙ read)))
                (ev.keeps q e l);
          frame = record { page = some pid; content = d; pin_count = 1; dirty = false };
          there =
              get_elem?-set_self s2.frames i
                (record { page = some pid; content = d; pin_count = 1; dirty = false }) ev.empty
                ev.there;
          its_page = refl;
          its_content = refl;
          pinned = refl;
          others = λ q away l.
              lookup-insert pid q i s2.page_table ∙ rw (==_ne pid q away) (ev.absent q l);
          counters = ev.counters;
        })

module _ {Data : Type 0} where
  -- Unpinning a page, as dirty or not, keeps the pool consistent and loses no content.
  pub unpin_page-Kept :
      (pid : PageId) (is_dirty : Bool) (s : Pool Data)
      → IsValid s
      → Kept s ((unpin_page pid is_dirty s).0)
  unfolding unpin_page
  unpin_page-Kept pid is_dirty s v = elim (Option-cases (lookup pid s.page_table)) [
    | inl e ↦ rw (unpin_page, e) (Kept-self s v)
    | inr (i, e) ↦
        let (f, (h, p)) = v.mapped pid i e in
        elim (Bool-cases (f.pin_count == 0)) [
          | inl z ↦ rw (unpin_page, e, h, z) (Kept-self s v)
          | inr z ↦
              let g : Frame Data = record f {
                pin_count = f.pin_count - 1;
                dirty = if is_dirty then true else f.dirty;
              } in
              let n = if is_dirty && not f.dirty then s.dirty_count + 1 else s.dirty_count in
              rw (unpin_page, e, h, z)
                (record {
                  valid =
                      touched-IsValid i f g s s.counts n v h refl refl
                        (unpinned_dirt is_dirty f.dirty);
                  keeps = touched-Keeps i f g s s.counts n v h refl refl;
                  same_table = refl;
                  counters = refl;
                })
        ]
  ]

module _ {Data : Type 0} (zero_page : Data) where
  FetchResult : PageId → Data → Pool Data → Option (ℕ × Pool Data) → Type 0
  FetchResult pid d s none = Unit
  FetchResult pid d s (some r) = Fetched pid d s (r.0) (r.1)

  fetch_page-FetchResult :
      (n : ℕ) (pid : PageId) (d : Data) (s : Pool Data)
      → IsValid s
      → held s pid ≡ some d
      → FetchResult pid d s (fetch_page zero_page n pid s)
  unfolding fetch_page FetchResult
  fetch_page-FetchResult n pid d s v k = elim (Option-cases (lookup pid s.page_table)) [
    | inr (j, e) ↦
        let (f, (h, p)) = v.mapped pid j e in
        rw (FetchResult, fetch_page, e, h) (fetch_hit pid d s j f v k e h p)
    | inl e ↦ elim (Option-cases (find_victim_frame n s)) [
      | inl none_found ↦ rw (FetchResult, fetch_page, e, none_found) tt
      | inr (r, found) ↦
          let (counts, (free, same)) = subst (Searched s) found (find_victim-Searched n s) in
          elim (Option-cases (get_elem? (r.1).frames (r.0))) [
            | inl h ↦ rw (FetchResult, fetch_page, e, found, h) tt
            | inr (f, h) ↦
                rw (FetchResult, fetch_page, e, found, h)
                  (fetch_miss pid d f.content (r.0) f s (evict_frame zero_page (r.0) f (r.1)) k e
                    (found-Evicted zero_page (r.0) f s (r.1) counts free same v h))
          ]
    ]
  ]

  -- A fetch of a page that the pool or its file holds, when it returns, gives a pinned frame with
  -- that page and its content; the pool stays consistent, and every other page that was held is
  -- held with the same content, whatever was evicted for it.
  pub fetch_page-Fetched :
      (n : ℕ) (pid : PageId) (d : Data) (s : Pool Data) (i : ℕ) (s' : Pool Data)
      → IsValid s
      → held s pid ≡ some d
      → fetch_page zero_page n pid s ≡ some (i, s')
      → Fetched pid d s i s'
  unfolding FetchResult
  fetch_page-Fetched n pid d s i s' v k r =
      subst (FetchResult pid d s) r (fetch_page-FetchResult n pid d s v k)
