-- ===== src/Executor/Filter/Kept.antt =====
-- The rows that src/planner/physical/physical_filter_operator.cpp lets through.
use chicken_db.Base.{
  ℕ, zero, suc, ◌<◌, ◌≡◌, refl, sym, ap, ◌∙◌, ◌≢◌, ◌⊎◌, inl, inr, Bool, Option, none, some, List,
  [], ◌∷◌, ◌++◌, arith, if◌then◌else◌, ◌>>=◌, All, length, concat,
}
use chicken_db.Executor.Filter.{filter_rows, next, drain}

-- The rows for which the predicate is true.
unfoldable pub where_true : {Row : Type 0} → (Row → Bool) → List Row → List Row
where_true keep [] = []
where_true keep (r ∷ rows) = let rest = where_true keep rows in if keep r then r ∷ rest else rest

module _ {Row : Type 0} (keep : Row → Bool) where
  pub where_true-append :
      (xs ys : List Row) → where_true keep (xs ++ ys) ≡ where_true keep xs ++ where_true keep ys
  unfolding where_true
  where_true-append [] ys = refl
  where_true-append (x ∷ xs) ys = ground (arith, where_true-append xs ys)

module _ {Row : Type 0} (eval_predicate : Row → Option Bool) (keep : Row → Bool) where
  abbrev pub IsDecided : Row → Type 0
  IsDecided r = eval_predicate r ≡ some (keep r)

  abbrev pub AreDecided : List (List Row) → Type 0
  AreDecided chunks = All (λ chunk. All IsDecided chunk) chunks

  filter_rows-some :
      (rows : List Row)
      → All IsDecided rows
      → filter_rows eval_predicate rows ≡ some (where_true keep rows)
  unfolding where_true
  filter_rows-some [] d = refl
  filter_rows-some (r ∷ rows) d =
      ap
        (λ o. o >>= (λ b.
          filter_rows eval_predicate rows >>= (λ rest. some (if b then r ∷ rest else rest))))
        d.0
      ∙ ap (λ o. o >>= (λ rest. some (if keep r then r ∷ rest else rest)))
          (filter_rows-some rows d.1)

  -- The next chunk, and what comes after it.
  abbrev Pulled : List (List Row) → Type 0
  Pulled chunks =
      ((next eval_predicate chunks ≡ some (none, [])) × (where_true keep (concat chunks) ≡ []))
      ⊎ ((r : Row) × ((rows : List Row) × ((rest : List (List Row)) × ((next eval_predicate chunks
                  ≡ some (some (r ∷ rows), rest))
                × ((length rest < length chunks)
                    × ((where_true keep (concat chunks)
                          ≡ (r ∷ rows) ++ where_true keep (concat rest))
                        × AreDecided rest))))))

  next-Pulled : (chunks : List (List Row)) → AreDecided chunks → Pulled chunks
  unfolding next where_true
  next-Pulled [] d = inl (refl, refl)
  next-Pulled (chunk ∷ chunks) d =
      cases (where_true keep chunk) (filter_rows-some chunk d.0)
        (where_true-append keep chunk (concat chunks)) (next-Pulled chunks d.1)
    where
      cases :
          (out : List Row)
          → filter_rows eval_predicate chunk ≡ some out
          → where_true keep (chunk ++ concat chunks) ≡ out ++ where_true keep (concat chunks)
          → Pulled chunks
          → Pulled (chunk ∷ chunks)
      cases [] e h (inl (p, q)) = inl (rw (next, e) p, h ∙ q)
      cases [] e h (inr (r, (rows, (rest, (p, (q, (w, later))))))) =
          inr (r, (rows, (rest, (rw (next, e) p, (omega (arith, q), (h ∙ w, later))))))
      cases (r ∷ rows) e h p =
          inr (r, (rows, (chunks, (rw (next, e) refl, (omega arith, (h, d.1))))))

  drain_at :
      (n : ℕ) (chunks : List (List Row))
      → length chunks < n
      → AreDecided chunks
      → (outs : List (List Row)) × ((drain eval_predicate n chunks ≡ some outs)
          × ((concat outs ≡ where_true keep (concat chunks)) × All (λ out. out ≢ []) outs))
  unfolding drain
  drain_at zero chunks h d = absurd (omega (arith, h))
  drain_at (suc n) chunks h d = elim (next-Pulled chunks d) [
    | inl (p, q) ↦ ([], (rw (drain, p) refl, (sym q, tt)))
    | inr (r, (rows, (rest, (p, (q, (w, later)))))) ↦
        let (outs, (e, (f, filled))) = drain_at n rest (omega (arith, h, q)) later in
        (
          (r ∷ rows) ∷ outs,
          (
            rw (drain, p, e) refl,
            (ap (λ zs. (r ∷ rows) ++ zs) f ∙ sym w, ((λ z. ground (arith, z)), filled)),
          ),
        )
  ]

-- Where the predicate has a truth value for each of the rows, calls of `Next` come to an end within one
-- more than the chunks of the child; no chunk that they give is empty, and together these have the
-- rows for which the predicate is true, in their order.
pub drain-where_true :
    {Row : Type 0} (eval_predicate : Row → Option Bool) (keep : Row → Bool)
    (chunks : List (List Row))
    → AreDecided eval_predicate keep chunks
    → (outs : List (List Row)) × ((drain eval_predicate (suc (length chunks)) chunks ≡ some outs)
        × ((concat outs ≡ where_true keep (concat chunks)) × All (λ out. out ≢ []) outs))
drain-where_true eval_predicate keep chunks decided =
    drain_at eval_predicate keep (suc (length chunks)) chunks (omega arith) decided
