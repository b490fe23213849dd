-- ===== src/Executor/Distinct/First.antt =====
-- What DISTINCT (src/planner/physical/physical_distinct_operator.cpp) keeps, whatever the chunks.
use chicken_db.Base.{
  ℕ, zero, suc, ◌+◌, ◌<◌, ◌≡◌, refl, sym, ap, ◌∙◌, subst, inl, inr, true, false, ◌||◌, Option, none,
  some, List, [], ◌∷◌, ◌++◌, arith, Bool-cases, length, concat,
}
use chicken_db.Executor.Distinct.{next, drain, take_new}
use chicken_db.Executor.Limit.Drain.{List-cases}
use chicken_db.Base.Eq.{==_self, nat_eq, list_eq, contains, ◌==◌, ==_iff}

-- No key twice.
abbrev pub IsUnique : List (List ℕ) → Type 0
IsUnique [] = Unit
IsUnique (k ∷ ks) = (contains k ks ≡ false) × IsUnique ks

module _ {Row : Type 0} (key : Row → List ℕ) where
  abbrev pub keys : List Row → List (List ℕ)
  keys [] = []
  keys (x ∷ rows) = key x ∷ keys rows

  new_not_seen :
      (k : List ℕ) (seen : List (List ℕ)) (rows : List Row)
      → contains k seen ≡ true
      → contains k (keys ((take_new key seen rows).0)) ≡ false
  new_not_seen k seen [] h = refl
  new_not_seen k seen (x ∷ rows) h = elim (Bool-cases (contains (key x) seen)) [
    | inl e ↦ rw (take_new, e) (new_not_seen k seen rows h)
    | inr e ↦
        let rest = new_not_seen k (key x ∷ seen) rows (ground (arith, h)) in
        let apart : (key x == k) ≡ false =
          ground (arith, e, h, ap (λ y. contains y seen), ==_iff (key x) k) in
        rw (take_new, e, apart) rest
  ]

  take_new-IsUnique :
      (seen : List (List ℕ)) (rows : List Row) → IsUnique (keys ((take_new key seen rows).0))
  take_new-IsUnique seen [] = tt
  take_new-IsUnique seen (x ∷ rows) = elim (Bool-cases (contains (key x) seen)) [
    | inl e ↦ rw (take_new, e) (take_new-IsUnique seen rows)
    | inr e ↦
        rw (take_new, e)
          (
            new_not_seen (key x) (key x ∷ seen) rows (ground (arith, ==_self (key x))),
            take_new-IsUnique (key x ∷ seen) rows,
          )
  ]

  contains-take_new :
      (k : List ℕ) (seen : List (List ℕ)) (rows : List Row)
      → (contains k (keys ((take_new key seen rows).0)) || contains k seen)
        ≡ (contains k (keys rows) || contains k seen)
  contains-take_new k seen [] = refl
  contains-take_new k seen (x ∷ rows) = elim (Bool-cases (contains (key x) seen)) [
    | inl e ↦
        let old : (key x == k) ≡ true → contains k seen ≡ true =
          λ q. subst (λ y. contains y seen ≡ true) ((==_iff (key x) k).0 q) e in
        rw (take_new, e) (ground (arith, contains-take_new k seen rows, old))
    | inr e ↦ rw (take_new, e) (ground (arith, contains-take_new k (key x ∷ seen) rows))
  ]

  take_new-append :
      (seen : List (List ℕ)) (xs ys : List Row)
      → (take_new key seen (xs ++ ys)).0
        ≡ (take_new key seen xs).0 ++ (take_new key ((take_new key seen xs).1) ys).0
  take_new-append seen [] ys = refl
  take_new-append seen (x ∷ xs) ys = elim (Bool-cases (contains (key x) seen)) [
    | inl e ↦ rw (take_new, e) (take_new-append seen xs ys)
    | inr e ↦ rw (take_new, e) (ap (λ zs. x ∷ zs) (take_new-append (key x ∷ seen) xs ys))
  ]

  new_rows : List (List ℕ) → List (List Row) → List Row
  new_rows seen chunks = (take_new key seen (concat chunks)).0

  abbrev Given :
      List (List ℕ) → List (List Row) → Option (List Row) → List (List Row) × List (List ℕ) → Type 0
  Given seen chunks none rest = new_rows seen chunks ≡ []
  Given seen chunks (some out) rest =
      (new_rows seen chunks ≡ out ++ new_rows (rest.1) (rest.0)) × (length (rest.0) < length chunks)

  later-Given :
      (seen seen' : List (List ℕ)) (chunk : List Row) (chunks : List (List Row))
      (o : Option (List Row)) (rest : List (List Row) × List (List ℕ))
      → new_rows seen (chunk ∷ chunks) ≡ new_rows seen' chunks
      → Given seen' chunks o rest
      → Given seen (chunk ∷ chunks) o rest
  later-Given seen seen' chunk chunks none rest e h = e ∙ h
  later-Given seen seen' chunk chunks (some out) rest e h = (e ∙ h.0, omega (arith, h.1))

  next-Given :
      (chunks : List (List Row)) (seen : List (List ℕ))
      → Given seen chunks ((next key chunks seen).0) ((next key chunks seen).1)
  unfolding next new_rows
  next-Given [] seen = refl
  next-Given (chunk ∷ chunks) seen =
      let split = take_new-append seen chunk (concat chunks) in
      let seen' = (take_new key seen chunk).1 in
      elim (List-cases ((take_new key seen chunk).0)) [
        | inr (x, (out, e)) ↦
            rw (Given, next, e) (split ∙ ap (λ zs. zs ++ new_rows seen' chunks) e, omega arith)
        | inl e ↦
            rw (next, e)
              (later-Given seen seen' chunk chunks ((next key chunks seen').0)
                ((next key chunks seen').1) (split ∙ ap (λ zs. zs ++ new_rows seen' chunks) e)
                (next-Given chunks seen'))
      ]

  drain-new_rows :
      (n : ℕ) (chunks : List (List Row)) (seen : List (List ℕ))
      → length chunks < n
      → drain key n chunks seen ≡ some (new_rows seen chunks)
  unfolding drain
  drain-new_rows zero chunks seen h = absurd (omega (arith, h))
  drain-new_rows (suc n) chunks seen h =
      let rest = (next key chunks seen).1 in
      (elim ((next key chunks seen).0)
          as (λ o.
            Given seen chunks o rest
            → (elim o [
              | none ↦ some []
              | some out ↦ elim (drain key n (rest.0) (rest.1)) [
                | none ↦ none
                | some more ↦ some (out ++ more)
              ]
            ])
              ≡ some (new_rows seen chunks)) [
                | none ↦ λ p. ap some (sym p)
                | some out ↦ λ p.
                    rw (drain-new_rows n (rest.0) (rest.1) (omega (arith, h, p.1)))
                      (ap some (sym p.0))
              ])
        (next-Given chunks seen)

  -- Calling `Next` until it ends gives rows no two of which have the same key, and a key occurs
  -- among them exactly if it occurs among the rows of the child, however these are cut into chunks.
  pub distinct_rows :
      (chunks : List (List Row)) (k : List ℕ)
      → (out : List Row) × ((drain key (length chunks + 1) chunks [] ≡ some out)
          × (IsUnique (keys out) × (contains k (keys out) ≡ contains k (keys (concat chunks)))))
  unfolding new_rows
  distinct_rows chunks k = (
    new_rows [] chunks,
    (
      drain-new_rows (length chunks + 1) chunks [] (omega arith),
      (
        take_new-IsUnique [] (concat chunks),
        ground (arith, contains-take_new k [] (concat chunks)),
      ),
    ),
  )
