-- ===== src/Buffer/Pool.antt =====
-- src/buffer/buffer_manager.cpp: a fixed number of frames over the files of the tables. Each call
-- holds the manager's mutex, so runs alone.
pub mod Victims
pub mod Disk
pub mod Contents
pub mod Evict
pub mod Fetch
pub mod Touch
pub mod Calls
pub mod Returns
pub mod Flush
pub mod Made
pub mod Dropped
pub mod Steps
pub mod Restart
pub use chicken_db.Buffer.Frames.{
  PageId, page_same, page_same_iff, page_eq, Frame, Pool, table_pages, read_page, write_page,
}
unfoldable pub use chicken_db.Buffer.Frames.{write_at}
use chicken_db.Base.{
  ℕ, zero, suc, ◌+◌, ◌-◌, Bool, true, false, not, ◌&&◌, Option, none, some, List, [], ◌∷◌, ◌++◌,
  if◌then◌else◌, length, get_elem?, set,
}
use chicken_db.Base.Eq.{nat_eq, ◌==◌}
use chicken_db.Base.Dict.{Dict, lookup, insert, erase}
use chicken_db.Buffer.Clock.{pin, evict_frame_id}

-- The number that `NewPage` gives next: that of a table not seen before is 0.
abbrev pub local_next : ℕ → Dict ℕ ℕ → ℕ
local_next table numbers = elim (lookup table numbers) [ none ↦ 0 | some m ↦ m ]

module _ {Data : Type 0} where
  -- The loop of `FindVictimFrame` on fuel.
  unfoldable pub sweep_victim : ℕ → Pool Data → Option (ℕ × Pool Data)
  sweep_victim zero s = none
  sweep_victim (suc n) s = elim (evict_frame_id s.counts) [
    | none ↦ none
    | some (victim, counts) ↦ elim (get_elem? s.frames victim) [
      | none ↦ none
      | some f ↦ elim (f.pin_count == 0) [
        | true ↦ some (victim, record s { counts = counts })
        | false ↦ sweep_victim n (record s { counts = pin victim counts })
      ]
    ]
  ]

  unfoldable pub find_victim_frame : ℕ → Pool Data → Option (ℕ × Pool Data)
  unfolding sweep_victim
  find_victim_frame n s = elim s.free_list [
    | [] ↦ sweep_victim n s
    | i ∷ rest ↦ some (i, record s { free_list = rest })
  ]

  -- Put a page with its content into an empty frame, pinned once.
  abbrev pub install : ℕ → PageId → Data → Bool → Pool Data → Pool Data
  install i pid d dirty s = record s {
    frames = set s.frames i (record { page = some pid; content = d; pin_count = 1; dirty = dirty });
    page_table = insert pid i s.page_table;
    counts = pin i s.counts;
  }

  unfoldable pub unpin_page : PageId → Bool → Pool Data → Pool Data × Bool
  unpin_page pid is_dirty s = elim (lookup pid s.page_table) [
    | none ↦ (s, false)
    | some i ↦ elim (get_elem? s.frames i) [
      | none ↦ (s, false)
      | some f ↦ if f.pin_count == 0 then (s, false) else (
        record s {
          frames = set s.frames i (record f {
            pin_count = f.pin_count - 1;
            dirty = if is_dirty then true else f.dirty;
          });
          dirty_count = if is_dirty && not f.dirty then s.dirty_count + 1 else s.dirty_count;
        },
        true,
      )
    ]
  ]

  unfoldable pub delete_page : PageId → Pool Data → Pool Data × Bool
  delete_page pid s = elim (lookup pid s.page_table) [
    | none ↦ (s, true)
    | some i ↦ elim (get_elem? s.frames i) [
      | none ↦ (s, false)
      | some f ↦
          if f.pin_count == 0
          then (
            record s {
              frames = set s.frames i (record f { page = none; dirty = false });
              page_table = erase pid s.page_table;
              free_list = s.free_list ++ i ∷ [];
              dirty_count = if f.dirty then s.dirty_count - 1 else s.dirty_count;
            },
            true,
          )
          else (s, false)
    ]
  ]

module _ {Data : Type 0} (zero_page : Data) where
  -- Write a dirty frame back and forget its page.
  unfoldable pub evict_frame : ℕ → Frame Data → Pool Data → Pool Data
  evict_frame i f s = elim f.page [
    | none ↦ s
    | some old ↦ record s {
      frames = set s.frames i (record f { page = none; dirty = false });
      page_table = erase old s.page_table;
      disk = if f.dirty then write_page zero_page old f.content s.disk else s.disk;
      dirty_count = if f.dirty then s.dirty_count - 1 else s.dirty_count;
    }
  ]

  -- `FetchPage`: the frame that holds the page. A page that is not in its file keeps what the frame
  -- held before.
  unfoldable pub fetch_page : ℕ → PageId → Pool Data → Option (ℕ × Pool Data)
  unfolding find_victim_frame evict_frame
  fetch_page n pid s = elim (lookup pid s.page_table) [
    | some i ↦ elim (get_elem? s.frames i) [
      | none ↦ none
      | some f ↦ some (
        i,
        record s {
          frames = set s.frames i (record f { pin_count = f.pin_count + 1 });
          counts = pin i s.counts;
        },
      )
    ]
    | none ↦ elim (find_victim_frame n s) [
      | none ↦ none
      | some (i, s1) ↦ elim (get_elem? s1.frames i) [
        | none ↦ none
        | some f ↦
            let s2 = evict_frame i f s1 in
            let d : Data = elim (read_page pid s2.disk) [ none ↦ f.content | some d ↦ d ] in
            some (i, install i pid d false s2)
      ]
    ]
  ]

  -- Write the page of a frame to its file.
  abbrev pub flushed : ℕ → Frame Data → PageId → Pool Data → Pool Data
  flushed i f pid s = record s {
    frames = set s.frames i (record f { dirty = false });
    disk = write_page zero_page pid f.content s.disk;
    dirty_count = if f.dirty then s.dirty_count - 1 else s.dirty_count;
  }

  unfoldable pub flush_page : PageId → Pool Data → Pool Data × Bool
  flush_page pid s = elim (lookup pid s.page_table) [
    | none ↦ (s, false)
    | some i ↦ elim (get_elem? s.frames i) [
      | none ↦ (s, false)
      | some f ↦ (flushed i f pid s, true)
    ]
  ]

  -- The second loop's body of `FlushDirtyUnpinned`, which looks at the frame again.
  abbrev pub flush_candidate : ℕ → Pool Data → Pool Data
  flush_candidate i s = elim (get_elem? s.frames i) [
    | none ↦ s
    | some f ↦ elim f.page [
      | none ↦ s
      | some pid ↦ if f.dirty && f.pin_count == 0 then flushed i f pid s else s
    ]
  ]

  -- Its first loop: the frames that are dirty and not pinned.
  abbrev pub candidates : Dict PageId ℕ → List (Frame Data) → List ℕ
  candidates [] frames = []
  candidates (entry ∷ rest) frames =
      let later = candidates rest frames in
      elim (get_elem? frames (entry.1)) [
        | none ↦ later
        | some f ↦ if f.dirty && f.pin_count == 0 then entry.1 ∷ later else later
      ]

  abbrev pub flush_all : List ℕ → Pool Data → Pool Data
  flush_all [] s = s
  flush_all (i ∷ is) s = flush_all is (flush_candidate i s)

  -- With no other thread between the loops.
  unfoldable pub flush_dirty_unpinned : Pool Data → Pool Data
  flush_dirty_unpinned s = flush_all (candidates s.page_table s.frames) s

  -- `NewPage`: the table's next page, zeroed and dirty.
  unfoldable pub new_page : ℕ → ℕ → Pool Data → Option (PageId × Pool Data)
  unfolding find_victim_frame evict_frame
  new_page n table s = elim (find_victim_frame n s) [
    | none ↦ none
    | some (i, s1) ↦ elim (get_elem? s1.frames i) [
      | none ↦ none
      | some f ↦
          let s2 = evict_frame i f s1 in
          let next = local_next table s2.next_page_no in
          let pid : PageId = record { table_id = table; page_no = next } in
          let still_dirty : Bool = elim (get_elem? s2.frames i) [
            | none ↦ false
            | some g ↦ g.dirty
          ] in
          some (
            pid,
            record (install i pid zero_page true s2) {
              next_page_no = insert table (next + 1) s2.next_page_no;
              dirty_count = if still_dirty then s2.dirty_count else s2.dirty_count + 1;
            },
          )
    ]
  ]

abbrev pub replicate {ℓ} : {A : Type ℓ} → ℕ → A → List A
replicate zero x = []
replicate (suc n) x = x ∷ replicate n x

-- The numbers from `i` on.
abbrev pub up_from : ℕ → ℕ → List ℕ
up_from i zero = []
up_from i (suc n) = i ∷ up_from (i + 1) n

module _ {Data : Type 0} where
  -- The constructor: empty frames, all free.
  abbrev pub new_pool : ℕ → Data → Dict ℕ (List Data) → Pool Data
  new_pool capacity fresh disk = record {
    frames =
        replicate capacity (record { page = none; content = fresh; pin_count = 0; dirty = false });
    page_table = [];
    free_list = up_from 0 capacity;
    counts = replicate capacity 0;
    next_page_no = [];
    dirty_count = 0;
    disk = disk;
  }

module _ {Data : Type 0} where
  unfoldable pub init_next_page_no : ℕ → ℕ → Pool Data → Pool Data
  init_next_page_no table next s = record s { next_page_no = insert table next s.next_page_no }

  -- The counter, or else the pages of the file, whose size is a multiple of the page size.
  unfoldable pub get_page_count : ℕ → Pool Data → ℕ
  get_page_count table s = elim (lookup table s.next_page_no) [
    | none ↦ length (table_pages table s.disk)
    | some next ↦ next
  ]
