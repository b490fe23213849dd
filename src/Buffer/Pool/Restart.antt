-- ===== src/Buffer/Pool/Restart.antt =====
-- `NewPage` of src/buffer/buffer_manager.cpp after a restart. Only the catalog calls
-- `InitNextPageNo`, so the other tables have no number then.
use chicken_db.Base.{ℕ, ◌+◌, ◌≡◌, refl, ap, ◌∙◌, subst, none, some, length}
use chicken_db.Base.Eq.{nat_eq, ==_self}
use chicken_db.Base.Dict.{lookup, lookup-insert}
use chicken_db.Buffer.Pool.{
  local_next, PageId, Pool, page_eq, table_pages, get_page_count, new_page,
}
use chicken_db.Buffer.Pool.Contents.{held, IsValid}
use chicken_db.Buffer.Pool.Made.{new_page-Made, next_page}

module _ {Data : Type 0} (zero_page : Data) where
  -- For a table that has no number yet and whose page 0 the pool does not hold, a new page, when
  -- `NewPage` returns, is page 0, with zeros, whatever the file of the table has there; and the table
  -- counts one page, where it counted those of its file before.
  pub first_page_lost :
      (n table : ℕ) (s : Pool Data) (pid : PageId) (s' : Pool Data)
      → IsValid s
      → lookup table s.next_page_no ≡ none
      → lookup (record { table_id = table; page_no = 0 }) s.page_table ≡ none
      → new_page zero_page n table s ≡ some (pid, s')
      → (pid ≡ record { table_id = table; page_no = 0 })
        × ((held s' (record { table_id = table; page_no = 0 }) ≡ some zero_page)
            × ((get_page_count table s ≡ length (table_pages table s.disk))
                × (get_page_count table s' ≡ 1)))
  unfolding get_page_count
  first_page_lost n table s pid s' v unseen missing r =
      let its : next_page table s ≡ record { table_id = table; page_no = 0 } =
        ap (λ o. record { table_id = table; page_no = elim o [ none ↦ 0 | some m ↦ m ] }) unseen in
      let made =
        new_page-Made zero_page n table s pid s' v (ap (λ q. lookup q s.page_table) its ∙ missing)
          r in
      let number : local_next table s.next_page_no + 1 ≡ 1 =
        ap (λ o. (elim o [ none ↦ 0 | some m ↦ m ]) + 1) unseen in
      let counted : lookup table s'.next_page_no ≡ some 1 =
        ap (lookup table) made.counters
        ∙ lookup-insert table table (local_next table s.next_page_no + 1) s.next_page_no
        ∙ rw (==_self table) (ap some number) in
      (
        made.its_number ∙ its,
        (
          subst (λ q. held s' q ≡ some zero_page) (made.its_number ∙ its) made.zeroed,
          (rw (get_page_count, unseen) refl, rw (get_page_count, counted) refl),
        ),
      )
