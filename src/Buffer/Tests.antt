-- ===== src/Buffer/Tests.antt =====
-- Concrete runs of the theorems on src/buffer.
use chicken_db.Base.{ℕ, ◌≡◌, refl, true, false, none, some, List, [], ◌∷◌, arith, length}
use chicken_db.Base.Eq.{nat_eq}
use chicken_db.Buffer.Pool.Steps.{
  IsNumbered, Step, Steps, numbers_set, fetched, unpinned, no_step, and_then, Lasting,
  steps-Lasting, new_pool-IsSound,
}
use chicken_db.Buffer.Pool.Restart.{first_page_lost}
use chicken_db.Buffer.Pool.{
  init_next_page_no, new_page, get_page_count, table_pages, unpin_page, PageId, Frame, Pool,
  new_pool, fetch_page, find_victim_frame, evict_frame, page_eq,
}
use chicken_db.Buffer.Pool.Returns.{fetch_page_total}
use chicken_db.Buffer.Pool.Calls.{unpin_page-Kept, Fetched, fetch_page-Fetched}
use chicken_db.Buffer.Pool.Contents.{IsValid, held, new_pool-IsValid}
use chicken_db.Base.Dict.{Dict, lookup, insert}
use chicken_db.Buffer.Pool.Victims.{find_victim_stuck}

abbrev page : PageId
page = record { table_id = 7; page_no = 1 }

abbrev files : Dict ℕ (List ℕ)
files = (7, 11 ∷ 12 ∷ []) ∷ []

abbrev bare : Frame ℕ
bare = record { page = none; content = 0; pin_count = 0; dirty = false }

abbrev filled : Frame ℕ
filled = record { page = some page; content = 12; pin_count = 1; dirty = false }

abbrev before : Pool ℕ
before = new_pool 2 0 files

abbrev after : Pool ℕ
after = record {
  frames = filled ∷ bare ∷ [];
  page_table = (page, 0) ∷ [];
  free_list = 1 ∷ [];
  counts = 1 ∷ 0 ∷ [];
  next_page_no = [];
  dirty_count = 0;
  disk = files;
}

fetch_after : fetch_page 0 3 page before ≡ some (0, after)
unfolding fetch_page find_victim_frame evict_frame lookup insert
fetch_after = refl

held_before : held before page ≡ some 12
unfolding lookup
held_before = refl

fetch_page-Fetched_example : Fetched page 12 before 0 after
fetch_page-Fetched_example =
    fetch_page-Fetched 0 3 page 12 before 0 after (new_pool-IsValid 2 0 files) held_before
      fetch_after

-- A pool of two frames, both in use: the first pinned, the second not.
abbrev first_pinned : Pool ℕ
first_pinned = record after {
  frames = filled ∷ record filled { pin_count = 0 } ∷ [];
  free_list = [];
  counts = 1 ∷ 1 ∷ [];
}

find_victim_stuck_example : find_victim_frame 100 first_pinned ≡ none
find_victim_stuck_example =
    find_victim_stuck 100 1 (1 ∷ []) filled (record filled { pin_count = 0 } ∷ []) first_pinned refl
      refl refl (omega arith) refl

abbrev one_frame : Pool ℕ
one_frame = record after { frames = filled ∷ []; free_list = []; counts = 1 ∷ [] }

one_fetched : fetch_page 0 1 page (new_pool 1 0 files) ≡ some (0, one_frame)
unfolding fetch_page find_victim_frame evict_frame lookup insert
one_fetched = refl

one_frame-IsValid : IsValid one_frame
unfolding lookup
one_frame-IsValid =
    (fetch_page-Fetched 0 1 page 12 (new_pool 1 0 files) 0 one_frame (new_pool-IsValid 1 0 files)
      held_before one_fetched).valid

abbrev one_idle : Pool ℕ
one_idle = record one_frame { frames = record filled { pin_count = 0 } ∷ [] }

one_idle-IsValid : IsValid one_idle
unfolding unpin_page lookup
one_idle-IsValid = (unpin_page-Kept page false one_frame one_frame-IsValid).valid

-- Another page of the same file takes the only frame.
fetch_page_total_example :
    (i : ℕ) × ((s' : Pool ℕ) × (fetch_page 0 1 (record { table_id = 7; page_no = 0 }) one_idle
        ≡ some (i, s')))
fetch_page_total_example =
    fetch_page_total 0 0 (record { table_id = 7; page_no = 0 }) one_idle one_idle-IsValid refl refl
      (omega arith) (omega arith, tt) (refl, tt)

page_mapped : lookup page one_frame.page_table ≡ some 0
unfolding lookup
page_mapped = refl

-- A pool of one frame: the table has two pages, the second is fetched, changed and written back.
abbrev numbered : Pool ℕ
numbered = record (new_pool 1 0 files) { next_page_no = (7, 2) ∷ [] }

abbrev opened : Pool ℕ
opened = record one_frame { next_page_no = (7, 2) ∷ [] }

numbered_fetched : fetch_page 0 1 page numbered ≡ some (0, opened)
unfolding fetch_page find_victim_frame evict_frame lookup insert
numbered_fetched = refl

page_numbered : IsNumbered page numbered
unfolding lookup
page_numbered = omega arith

numbered_held : held numbered page ≡ some 12
unfolding lookup
numbered_held = refl

numbers_start : Step 0 (new_pool 1 0 files) [] numbered
unfolding lookup insert init_next_page_no
numbers_start = numbers_set 7 2 (omega arith)

abbrev worked : Steps 0 (new_pool 1 0 files) [] ((unpin_page page true opened).0)
worked = and_then (new_pool 1 0 files) numbered _ [] [] numbers_start (
    and_then numbered opened _ [] []
      (fetched 1 page 12 0 opened page_numbered numbered_held numbered_fetched)
      (and_then opened _ _ [] [] (unpinned page true) (no_step _)))

steps-Lasting_example : Lasting 0 (new_pool 1 0 files) [] ((unpin_page page true opened).0)
steps-Lasting_example = steps-Lasting 0 (new_pool-IsSound 1 0 files) worked

abbrev zeroth : PageId
zeroth = record { table_id = 7; page_no = 0 }

-- The file has two pages, and nobody has set the number of the next.
abbrev remade : Pool ℕ
remade = record (new_pool 1 0 files) {
  frames = record { page = some zeroth; content = 0; pin_count = 1; dirty = true } ∷ [];
  page_table = (zeroth, 0) ∷ [];
  free_list = [];
  counts = 1 ∷ [];
  next_page_no = (7, 1) ∷ [];
  dirty_count = 1;
}

page_remade : new_page 0 1 7 (new_pool 1 0 files) ≡ some (zeroth, remade)
unfolding new_page find_victim_frame evict_frame lookup insert
page_remade = refl

no_number : lookup 7 (new_pool 1 0 files).next_page_no ≡ none
unfolding lookup
no_number = refl

no_page : lookup zeroth (new_pool 1 0 files).page_table ≡ none
unfolding lookup
no_page = refl

first_page_lost_example :
    (zeroth ≡ zeroth)
    × ((held remade zeroth ≡ some 0)
        × ((get_page_count 7 (new_pool 1 0 files) ≡ length (table_pages 7 files))
            × (get_page_count 7 remade ≡ 1)))
first_page_lost_example =
    first_page_lost 0 1 7 (new_pool 1 0 files) zeroth remade (new_pool-IsValid 1 0 files) no_number
      no_page page_remade
