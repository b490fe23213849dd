-- ===== src/Buffer/Pool/Steps.antt =====
-- Any sequence of the calls of src/buffer/buffer_manager.cpp.
use chicken_db.Base.{
  ℕ, ◌+◌, ◌≤◌, ◌<◌, ◌≡◌, refl, sym, ap, ◌∙◌, subst, ◌⊎◌, inl, inr, Bool, false, none, some, List,
  [], ◌∷◌, ◌++◌, arith, Bool-cases, Option-cases,
}
use chicken_db.Buffer.Pool.Made.{new_page-Made, renumbered-IsValid, next_page, Made}
use chicken_db.Buffer.Pool.Flush.{flush_page-Kept, flush_dirty_unpinned-Kept}
use chicken_db.Base.Eq.{contains-append, nat_eq, ==_self, ◌==◌, contains, ==_iff}
use chicken_db.Base.Dict.{Dict, lookup, insert, lookup-insert}
use chicken_db.Buffer.Pool.{
  new_pool, PageId, Pool, page_eq, local_next, fetch_page, unpin_page, flush_page,
  flush_dirty_unpinned, new_page, delete_page, init_next_page_no,
}
use chicken_db.Buffer.Pool.Contents.{new_pool-IsValid, held, IsValid, Kept, none-some}
use chicken_db.Buffer.Pool.Calls.{unpin_page-Kept, fetch_page-Fetched, Fetched}
use chicken_db.Buffer.Pool.Dropped.{delete_page-Dropped, Dropped}

module _ {Data : Type 0} where
  -- The page has a number below that of the table's next page.
  abbrev pub IsNumbered : PageId → Pool Data → Type 0
  IsNumbered q s = q.page_no < local_next q.table_id s.next_page_no

  -- The pool is consistent, and all of its pages are numbered.
  pub record IsSound (s : Pool Data) : Type 0 where
    pub valid : IsValid s
    pub numbered : (q : PageId) (j : ℕ) → lookup q s.page_table ≡ some j → IsNumbered q s

  -- Pages that come into the pool are numbered, and no number goes down.
  numbered_on :
      (s s' : Pool Data)
      → ((q : PageId) (j : ℕ) → lookup q s.page_table ≡ some j → IsNumbered q s)
      → ((t : ℕ) → local_next t s.next_page_no ≤ local_next t s'.next_page_no)
      → ((q : PageId)
          → lookup q s.page_table ≡ none
          → (lookup q s'.page_table ≡ none) ⊎ IsNumbered q s')
      → (q : PageId) (j : ℕ) → lookup q s'.page_table ≡ some j
      → IsNumbered q s'
  numbered_on s s' old up come q j e = elim (Option-cases (lookup q s.page_table)) [
    | inr (i, there) ↦ omega (arith, old q i there, up q.table_id)
    | inl missing ↦ elim (come q missing) [
      | inl gone ↦ absurd (none-some (sym gone ∙ e))
      | inr n ↦ n
    ]
  ]

  same_numbers :
      (s s' : Pool Data)
      → s'.next_page_no ≡ s.next_page_no
      → (t : ℕ) → local_next t s.next_page_no ≤ local_next t s'.next_page_no
  same_numbers s s' e t = omega (arith, ap (local_next t) e)

local_next-insert_self :
    (t next : ℕ) (numbers : Dict ℕ ℕ) → local_next t (insert t next numbers) ≡ next
local_next-insert_self t next numbers =
    rw (local_next, lookup-insert t t next numbers, ==_self t) refl

local_next-insert :
    (t u next : ℕ) (numbers : Dict ℕ ℕ)
    → local_next t numbers ≤ next
    → local_next u numbers ≤ local_next u (insert t next numbers)
local_next-insert t u next numbers h = elim (Bool-cases (t == u)) [
  | inl same ↦
      subst (λ x. local_next x numbers ≤ local_next x (insert t next numbers)) ((==_iff t u).0 same)
        (omega (arith, h, local_next-insert_self t next numbers))
  | inr apart ↦ rw (local_next, lookup-insert t u next numbers, apart) (omega arith)
]

module _ {Data : Type 0} where
  pub new_pool-IsSound :
      (capacity : ℕ) (fresh : Data) (disk : Dict ℕ (List Data))
      → IsSound (new_pool capacity fresh disk)
  unfolding lookup
  new_pool-IsSound capacity fresh disk = record {
    valid = new_pool-IsValid capacity fresh disk;
    numbered = λ q j e. absurd (none-some e);
  }

  unused_number :
      (table : ℕ) (s : Pool Data) → IsSound s → lookup (next_page table s) s.page_table ≡ none
  unused_number table s h = elim (Option-cases (lookup (next_page table s) s.page_table)) [
    | inl e ↦ e
    | inr (j, e) ↦ absurd (omega (arith, h.numbered (next_page table s) j e))
  ]

module _ {Data : Type 0} (zero_page : Data) where
  -- One call, with the pages that it makes or deletes. A fetch asks for a numbered page that the
  -- pool or its file holds, and `InitNextPageNo` sets no number back.
  pub data Step (s : Pool Data) : List PageId → Pool Data → Type 0 where
    fetched :
        (n : ℕ) (pid : PageId) (d : Data) (i : ℕ) (s' : Pool Data)
        → IsNumbered pid s
        → held s pid ≡ some d
        → fetch_page zero_page n pid s ≡ some (i, s')
        → Step s [] s'
    unpinned : (pid : PageId) (is_dirty : Bool) → Step s [] ((unpin_page pid is_dirty s).0)
    flushed_page : (pid : PageId) → Step s [] ((flush_page zero_page pid s).0)
    flushed_dirty : Step s [] (flush_dirty_unpinned zero_page s)
    made :
        (n table : ℕ) (pid : PageId) (s' : Pool Data)
        → new_page zero_page n table s ≡ some (pid, s')
        → Step s (pid ∷ []) s'
    deleted : (pid : PageId) → Step s (pid ∷ []) ((delete_page pid s).0)
    numbers_set :
        (table next : ℕ)
        → local_next table s.next_page_no ≤ next
        → Step s [] (init_next_page_no table next s)

  pub data Steps : Pool Data → List PageId → Pool Data → Type 0 where
    no_step : (s : Pool Data) → Steps s [] s
    and_then :
        (s s1 s2 : Pool Data) (ps qs : List PageId)
        → Step s ps s1
        → Steps s1 qs s2
        → Steps s (ps ++ qs) s2

  -- The pool after calls that made or deleted only `ps`.
  pub record Lasting (s : Pool Data) (ps : List PageId) (s' : Pool Data) : Type 0 where
    pub sound : IsSound s'
    pub lasts :
        (q : PageId) (d : Data) → contains q ps ≡ false → held s q ≡ some d → held s' q ≡ some d

  Kept-Lasting : (s s' : Pool Data) → IsSound s → Kept s s' → Lasting s [] s'
  Kept-Lasting s s' h k = record {
    sound = record {
      valid = k.valid;
      numbered =
          numbered_on s s' h.numbered (same_numbers s s' k.counters)
            (λ q missing. inl (ap (lookup q) k.same_table ∙ missing));
    };
    lasts = λ q d _. k.keeps q d;
  }

  Fetched-Lasting :
      (pid : PageId) (d : Data) (i : ℕ) (s s' : Pool Data)
      → IsSound s
      → IsNumbered pid s
      → Fetched pid d s i s'
      → Lasting s [] s'
  Fetched-Lasting pid d i s s' h n f = record {
    sound = record {
      valid = f.valid;
      numbered = numbered_on s s' h.numbered (same_numbers s s' f.counters) (λ q missing.
          elim (Bool-cases (pid == q)) [
            | inl same ↦ inr (
                subst (λ x. IsNumbered x s') ((==_iff pid q).0 same)
                  (omega (arith, n, same_numbers s s' f.counters pid.table_id)))
            | inr apart ↦ inl (f.others q (λ e. ground (arith, apart, ==_iff pid q, e)) missing)
          ]);
    };
    lasts = λ q e _. f.keeps q e;
  }

  Made-Lasting :
      (table : ℕ) (pid : PageId) (s s' : Pool Data)
      → IsSound s
      → Made zero_page table s pid s'
      → Lasting s (pid ∷ []) s'
  Made-Lasting table pid s s' h m =
      let next = local_next table s.next_page_no + 1 in
      record {
        sound = record {
          valid = m.valid;
          numbered =
              numbered_on s s' h.numbered
                (λ t.
                  subst (λ x. local_next t s.next_page_no ≤ local_next t x) (sym m.counters)
                    (local_next-insert table t next s.next_page_no (omega arith)))
                (λ q missing. elim (Bool-cases (pid == q)) [
                  | inl same ↦ inr (
                      subst (λ x. IsNumbered x s') (sym m.its_number ∙ (==_iff pid q).0 same)
                        (omega (
                          arith,
                          ap (local_next table) m.counters,
                          local_next-insert_self table next s.next_page_no,
                        )))
                  | inr apart ↦
                      inl (m.others q (λ e. ground (arith, apart, ==_iff pid q, e)) missing)
                ]);
        };
        lasts = λ q d away k. m.keeps q d (λ e. ground (arith, away, ==_iff q pid, sym e)) k;
      }

  Dropped-Lasting :
      (pid : PageId) (s s' : Pool Data) → IsSound s → Dropped pid s s' → Lasting s (pid ∷ []) s'
  Dropped-Lasting pid s s' h k = record {
    sound = record {
      valid = k.valid;
      numbered =
          numbered_on s s' h.numbered (same_numbers s s' k.counters)
            (λ q missing. inl (k.others q missing));
    };
    lasts = λ q d away. k.keeps q d (λ e. ground (arith, away, ==_iff q pid, sym e));
  }

  step-Lasting : {s s' : Pool Data} {ps : List PageId} → IsSound s → Step s ps s' → Lasting s ps s'
  unfolding init_next_page_no
  step-Lasting {s = s} {s' = s'} h (fetched n pid d i _ numbered k r) =
      Fetched-Lasting pid d i s s' h numbered
        (fetch_page-Fetched zero_page n pid d s i s' h.valid k r)
  step-Lasting {s = s} {s' = s'} h (unpinned pid is_dirty) =
      Kept-Lasting s s' h (unpin_page-Kept pid is_dirty s h.valid)
  step-Lasting {s = s} {s' = s'} h (flushed_page pid) =
      Kept-Lasting s s' h (flush_page-Kept zero_page pid s h.valid)
  step-Lasting {s = s} {s' = s'} h flushed_dirty =
      Kept-Lasting s s' h (flush_dirty_unpinned-Kept zero_page s h.valid)
  step-Lasting {s = s} {s' = s'} h (made n table pid _ r) =
      Made-Lasting table pid s s' h
        (new_page-Made zero_page n table s pid s' h.valid (unused_number table s h) r)
  step-Lasting {s = s} {s' = s'} h (deleted pid) =
      Dropped-Lasting pid s s' h (delete_page-Dropped pid s h.valid)
  step-Lasting {s = s} {s' = s'} h (numbers_set table next up) = record {
    sound = record {
      valid = renumbered-IsValid s (insert table next s.next_page_no) s.dirty_count h.valid;
      numbered =
          numbered_on s s' h.numbered (λ t. local_next-insert table t next s.next_page_no up)
            (λ q missing. inl missing);
    };
    lasts = λ q d _ k. k;
  }

  -- Whatever calls run on a pool that is consistent and has numbered pages only, where a fetch is of
  -- a numbered page that the pool or its file holds and no number is set back: the pool stays so,
  -- and every page that was held is held with the same content, unless it was made or deleted in
  -- between.
  pub steps-Lasting :
      {s s' : Pool Data} {ps : List PageId} → IsSound s → Steps s ps s' → Lasting s ps s'
  steps-Lasting h (no_step s) = record { sound = h; lasts = λ q d _ k. k }
  steps-Lasting h (and_then s s1 s' ps qs first rest) =
      let a = step-Lasting h first in
      let b = steps-Lasting a.sound rest in
      record {
        sound = b.sound;
        lasts = λ q d away k.
            b.lasts q d (ground (arith, away, contains-append q ps qs))
              (a.lasts q d (ground (arith, away, contains-append q ps qs)) k);
      }
