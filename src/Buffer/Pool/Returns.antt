-- ===== src/Buffer/Pool/Returns.antt =====
-- `FetchPage` of src/buffer/buffer_manager.cpp returns where no frame is pinned.
use chicken_db.Base.{
  ℕ, suc, ◌+◌, ◌<◌, ◌≡◌, refl, sym, subst, inl, inr, true, false, none, some, [], Option-cases, All,
  length, set,
}
use chicken_db.Base.Eq.{nat_eq, ◌==◌}
use chicken_db.Base.Dict.{lookup}
use chicken_db.Buffer.Clock.{pin, lru_max_pin}
use chicken_db.Buffer.Clock.Sweep.{IsLimited}
use chicken_db.Buffer.Pool.{PageId, page_eq, Pool, fetch_page, evict_frame, install, read_page}
use chicken_db.Buffer.Pool.Contents.{IsValid}
use chicken_db.Buffer.Pool.Victims.{find_victim_total, get_elem?_below}

-- On a consistent pool with at least one frame and none of them pinned or free, a fetch returns
-- after one sweep for a victim.
pub fetch_page_total :
    {Data : Type 0} (zero_page : Data) (n : ℕ) (pid : PageId) (s : Pool Data)
    → IsValid s
    → s.free_list ≡ []
    → length s.counts ≡ length s.frames
    → 0 < length s.frames
    → IsLimited lru_max_pin s.counts
    → All (λ f. (f.pin_count == 0) ≡ true) s.frames
    → (i : ℕ) × ((s' : Pool Data) × (fetch_page zero_page (suc n) pid s ≡ some (i, s')))
unfolding fetch_page
fetch_page_total zero_page n pid s v free same_length filled limited unpinned =
    elim (Option-cases (lookup pid s.page_table)) [
      | inr (j, e) ↦
          let (f, (h, p)) = v.mapped pid j e in
          (
            j,
            (
              record s {
                frames = set s.frames j (record f { pin_count = f.pin_count + 1 });
                counts = pin j s.counts;
              },
              rw (fetch_page, e, h) refl,
            ),
          )
      | inl e ↦
          let (i, (s1, (found, (below, same)))) =
            find_victim_total n s free same_length filled limited unpinned in
          let (f, h) = get_elem?_below i s1.frames (subst (λ xs. i < length xs) (sym same) below) in
          let s2 = evict_frame zero_page i f s1 in
          (
            i,
            (
              install i pid (elim (read_page pid s2.disk) [ none ↦ f.content | some d ↦ d ]) false
                  s2,
              rw (fetch_page, e, found, h) refl,
            ),
          )
    ]
