-- ===== src/Buffer/Frames.antt =====
-- The state of src/buffer/buffer_manager.cpp, and the pages of files (src/disk/posix_disk_manager.cpp).
use chicken_db.Base.{
  ℕ, zero, suc, ◌≡◌, ◌↔◌, Bool, true, ◌&&◌, Option, none, some, List, [], ◌∷◌, arith, get_elem?,
}
use chicken_db.Base.Eq.{HasEq, nat_eq, ◌==◌}
use chicken_db.Base.Dict.{Dict, lookup, insert}

-- A valid page id; INVALID_PAGE_ID is `none` where an id may be missing.
pub record PageId : Type 0 where
  pub table_id : ℕ
  pub page_no : ℕ

abbrev pub page_same : PageId → PageId → Bool
page_same a b = a.table_id == b.table_id && a.page_no == b.page_no

pub page_same_iff : (a b : PageId) → (page_same a b ≡ true) ↔ (a ≡ b)
page_same_iff a b = ground arith

instance abbrev pub page_eq : HasEq PageId
page_eq = record { same = page_same; same_iff = page_same_iff }

pub record Frame (Data : Type 0) : Type 0 where
  pub page : Option PageId
  pub content : Data
  pub pin_count : ℕ
  pub dirty : Bool

-- The manager, with the files that its table manager opens.
pub record Pool (Data : Type 0) : Type 0 where
  pub frames : List (Frame Data)
  pub page_table : Dict PageId ℕ
  pub free_list : List ℕ
  pub counts : List ℕ
  pub next_page_no : Dict ℕ ℕ
  pub dirty_count : ℕ
  pub disk : Dict ℕ (List Data)

module _ {Data : Type 0} where
  abbrev pub table_pages : ℕ → Dict ℕ (List Data) → List Data
  table_pages table disk = elim (lookup table disk) [ none ↦ [] | some pages ↦ pages ]

  -- `ReadPage`: nothing is read beyond the end of the file.
  abbrev pub read_page : PageId → Dict ℕ (List Data) → Option Data
  read_page pid disk = get_elem? (table_pages pid.table_id disk) pid.page_no

module _ {Data : Type 0} (zero_page : Data) where
  -- pwrite of a page: the file grows, with zeros where nothing was written.
  unfoldable pub write_at : ℕ → Data → List Data → List Data
  write_at zero d [] = d ∷ []
  write_at (suc i) d [] = zero_page ∷ write_at i d []
  write_at zero d (x ∷ xs) = d ∷ xs
  write_at (suc i) d (x ∷ xs) = x ∷ write_at i d xs

  -- `WritePage` of the table's file.
  abbrev pub write_page : PageId → Data → Dict ℕ (List Data) → Dict ℕ (List Data)
  write_page pid d disk =
      insert pid.table_id (write_at pid.page_no d (table_pages pid.table_id disk)) disk
