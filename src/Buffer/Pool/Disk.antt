-- ===== src/Buffer/Pool/Disk.antt =====
-- Reading back what src/disk/posix_disk_manager.cpp has written.
use chicken_db.Base.{
  ℕ, zero, suc, ◌≡◌, refl, sym, ap, ◌∙◌, subst, inl, inr, some, List, [], ◌∷◌, arith, if◌then◌else◌,
  Bool-cases, get_elem?,
}
use chicken_db.Base.Eq.{==_iff, nat_eq, ◌==◌, ==_self}
use chicken_db.Base.Dict.{insert, Dict, lookup-insert}
use chicken_db.Buffer.Pool.{PageId, write_at, write_page, read_page, table_pages, page_eq}

page_of : {a b : PageId} → a.table_id ≡ b.table_id → a.page_no ≡ b.page_no → a ≡ b
page_of p q = λ i. record { table_id = p i; page_no = q i }

module _ {Data : Type 0} (zero_page : Data) where
  get_elem?-write_at :
      (i : ℕ) (d : Data) (xs : List Data) → get_elem? (write_at zero_page i d xs) i ≡ some d
  unfolding write_at
  get_elem?-write_at zero d [] = refl
  get_elem?-write_at (suc i) d [] = get_elem?-write_at i d []
  get_elem?-write_at zero d (x ∷ xs) = refl
  get_elem?-write_at (suc i) d (x ∷ xs) = get_elem?-write_at i d xs

  write_at_kept :
      (i j : ℕ) (d e : Data) (xs : List Data)
      → (i ≡ j → ⊥)
      → get_elem? xs j ≡ some e
      → get_elem? (write_at zero_page i d xs) j ≡ some e
  unfolding write_at
  write_at_kept i j d e [] h k = absurd (ground (arith, k))
  write_at_kept zero zero d e (x ∷ xs) h k = absurd (h refl)
  write_at_kept zero (suc j) d e (x ∷ xs) h k = k
  write_at_kept (suc i) zero d e (x ∷ xs) h k = k
  write_at_kept (suc i) (suc j) d e (x ∷ xs) h k = write_at_kept i j d e xs (λ p. h (ap suc p)) k

  table_pages-insert :
      (t u : ℕ) (pages : List Data) (disk : Dict ℕ (List Data))
      → table_pages u (insert t pages disk) ≡ (if t == u then pages else table_pages u disk)
  table_pages-insert t u pages disk = elim (Bool-cases (t == u)) [
    | inl e ↦ rw (table_pages, lookup-insert t u pages disk, e) refl
    | inr e ↦ rw (table_pages, lookup-insert t u pages disk, e) refl
  ]

  pub read_page-write_page :
      (pid : PageId) (d : Data) (disk : Dict ℕ (List Data))
      → read_page pid (write_page zero_page pid d disk) ≡ some d
  read_page-write_page pid d disk =
      rw
        (
          table_pages-insert pid.table_id pid.table_id
              (write_at zero_page pid.page_no d (table_pages pid.table_id disk)) disk,
          ==_self pid.table_id,
        )
        (get_elem?-write_at pid.page_no d (table_pages pid.table_id disk))

  pub write_page_kept :
      (pid q : PageId) (d e : Data) (disk : Dict ℕ (List Data))
      → (pid ≡ q → ⊥)
      → read_page q disk ≡ some e
      → read_page q (write_page zero_page pid d disk) ≡ some e
  write_page_kept pid q d e disk h k =
      let pages = write_at zero_page pid.page_no d (table_pages pid.table_id disk) in
      let there = table_pages-insert pid.table_id q.table_id pages disk in
      elim (Bool-cases (pid.table_id == q.table_id)) [
        | inl e' ↦
            let same = (==_iff pid.table_id q.table_id).0 e' in
            let apart : pid.page_no ≡ q.page_no → ⊥ = λ p. h (page_of same p) in
            ap (λ xs. get_elem? xs q.page_no) (there ∙ rw e' refl)
            ∙ write_at_kept pid.page_no q.page_no d e (table_pages pid.table_id disk) apart
                (subst (λ t. get_elem? (table_pages t disk) q.page_no ≡ some e) (sym same) k)
        | inr e' ↦ ap (λ xs. get_elem? xs q.page_no) (there ∙ rw e' refl) ∙ k
      ]
