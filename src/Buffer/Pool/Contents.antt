-- ===== src/Buffer/Pool/Contents.antt =====
-- What a page holds, in the pool or in its file, and the invariant of the pool
-- (src/buffer/buffer_manager.cpp).
use chicken_db.Base.{
  ℕ, zero, suc, ◌≡◌, refl, sym, ap, ◌∙◌, subst, ◌⊎◌, inl, inr, false, Option, none, some, List,
  arith, Bool-cases, get_elem?, set, get_elem?-set_self, get_elem?-set_other,
}
use chicken_db.Buffer.Pool.{new_pool, replicate, PageId, Frame, Pool, read_page, page_eq}
use chicken_db.Base.Eq.{nat_eq, ◌==◌, ==_iff}
use chicken_db.Base.Dict.{Dict, lookup}

pub some_inj {ℓ} : {A : Type ℓ} {a b : A} → some a ≡ some b → a ≡ b
some_inj {a = a} e = ap (λ o. elim o [ none ↦ a | some x ↦ x ]) e

pub none-some {ℓ} : {A : Type ℓ} {a : A} → none ≡ some a → ⊥
none-some e = ground (arith, e)

module _ {Data : Type 0} where
  -- The content of a page: of its frame, or else of the file.
  abbrev pub held : Pool Data → PageId → Option Data
  held s pid = elim (lookup pid s.page_table) [
    | none ↦ read_page pid s.disk
    | some i ↦ elim (get_elem? s.frames i) [ none ↦ none | some f ↦ some f.content ]
  ]

  -- The page table and the frames agree, and a clean frame equals its page in the file.
  pub record IsValid (s : Pool Data) : Type 0 where
    pub mapped :
        (pid : PageId) (i : ℕ)
        → lookup pid s.page_table ≡ some i
        → (f : Frame Data) × ((get_elem? s.frames i ≡ some f) × (f.page ≡ some pid))
    pub tabled :
        (i : ℕ) (f : Frame Data) (pid : PageId)
        → get_elem? s.frames i ≡ some f
        → f.page ≡ some pid
        → lookup pid s.page_table ≡ some i
    pub clean :
        (i : ℕ) (f : Frame Data) (pid : PageId)
        → get_elem? s.frames i ≡ some f
        → f.page ≡ some pid
        → f.dirty ≡ false
        → read_page pid s.disk ≡ some f.content

  -- No content is lost.
  abbrev pub Keeps : Pool Data → Pool Data → Type 0
  Keeps s s' = (pid : PageId) (d : Data) → held s pid ≡ some d → held s' pid ≡ some d

  -- A call that leaves every page in its frame.
  pub record Kept (s s' : Pool Data) : Type 0 where
    pub valid : IsValid s'
    pub keeps : Keeps s s'
    pub same_table : s'.page_table ≡ s.page_table
    pub counters : s'.next_page_no ≡ s.next_page_no

  pub Kept-self : (s : Pool Data) → IsValid s → Kept s s
  Kept-self s v = record { valid = v; keeps = λ q d k. k; same_table = refl; counters = refl }

  -- A frame after a write of frame `i`: the one written, or another as before.
  pub set-cases :
      (xs : List (Frame Data)) (i j : ℕ) (v x g : Frame Data)
      → get_elem? xs i ≡ some x
      → get_elem? (set xs i v) j ≡ some g
      → ((i ≡ j) × (v ≡ g)) ⊎ ((i ≡ j → ⊥) × (get_elem? xs j ≡ some g))
  set-cases xs i j v x g h k = elim (Bool-cases (i == j)) [
    | inl e ↦
        let same = (==_iff i j).0 e in
        inl (
          same,
          some_inj (
              sym (get_elem?-set_self xs i v x h)
              ∙ subst (λ y. get_elem? (set xs i v) y ≡ some g) (sym same) k),
        )
    | inr e ↦
        let apart : i ≡ j → ⊥ = λ p. ground (arith, e, p) in
        inr (apart, sym (get_elem?-set_other xs i j v apart) ∙ k)
  ]

  pub held-mapped :
      (pid : PageId) (i : ℕ) (f : Frame Data) (s : Pool Data)
      → lookup pid s.page_table ≡ some i
      → get_elem? s.frames i ≡ some f
      → held s pid ≡ some f.content
  held-mapped pid i f s h k = simp (held, h, k)

  pub held-unmapped :
      (pid : PageId) (s : Pool Data)
      → lookup pid s.page_table ≡ none
      → held s pid ≡ read_page pid s.disk
  held-unmapped pid s h = simp (held, h)

  get_elem?-replicate :
      (n i : ℕ) (f g : Frame Data) → get_elem? (replicate n f) i ≡ some g → g.page ≡ f.page
  get_elem?-replicate zero i f g h = absurd (ground (arith, h))
  get_elem?-replicate (suc n) zero f g h = ap (λ x. x.page) (sym (some_inj h))
  get_elem?-replicate (suc n) (suc i) f g h = get_elem?-replicate n i f g h

  pub new_pool-IsValid :
      (capacity : ℕ) (fresh : Data) (disk : Dict ℕ (List Data))
      → IsValid (new_pool capacity fresh disk)
  unfolding lookup
  new_pool-IsValid capacity fresh disk =
      let bare : Frame Data = record {
        page = none;
        content = fresh;
        pin_count = 0;
        dirty = false;
      } in
      record {
        mapped = λ pid i e. absurd (none-some e);
        tabled =
            λ i f pid e p. absurd (none-some (sym (get_elem?-replicate capacity i bare f e) ∙ p));
        clean =
            λ i f pid e p d. absurd (none-some (sym (get_elem?-replicate capacity i bare f e) ∙ p));
      }
