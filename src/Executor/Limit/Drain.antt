-- ===== src/Executor/Limit/Drain.antt =====
-- The calls of `Next` in src/planner/physical/physical_limit_operator.cpp, one after another.
use chicken_db.Base.{
  ℕ, zero, suc, ◌+◌, ◌-◌, ◌<◌, ◌≡◌, refl, sym, ap, ◌∙◌, ◌⊎◌, inl, inr, Option, none, some, List, [],
  ◌∷◌, ◌++◌, arith, leb, Bool-cases, length, drop, take, concat,
}
use chicken_db.Executor.Limit.Window.{
  window-append, take-zero, take-nil, drop-nil, take_rows-window, take_rows-count, window,
}
use chicken_db.Executor.Limit.{init, next, drain, Limit, take_rows, pull}

pub List-cases {ℓ} :
    {A : Type ℓ} (xs : List A) → (xs ≡ []) ⊎ ((x : A) × ((ys : List A) × (xs ≡ x ∷ ys)))
List-cases [] = inl refl
List-cases (x ∷ ys) = inr (x, (ys, refl))

module _ {Row : Type 0} (start offset : ℕ) where
  -- The rows that are still to come.
  abbrev expected : Limit → List (List Row) → List Row
  expected s chunks = take (offset - s.emitted) (drop (start - s.seen) (concat chunks))

  abbrev after_chunk : Limit → List Row → Limit
  after_chunk s chunk = record {
    seen = s.seen + length chunk;
    emitted = (take_rows start offset s.seen 0 s.emitted chunk).1;
  }

  expected-chunk :
      (s : Limit) (chunk : List Row) (chunks : List (List Row))
      → expected s (chunk ∷ chunks)
        ≡ (take_rows start offset s.seen 0 s.emitted chunk).0
          ++ expected (after_chunk s chunk) chunks
  expected-chunk s chunk chunks =
      let k = offset - s.emitted in
      let d = start - s.seen in
      let out = (take_rows start offset s.seen 0 s.emitted chunk).0 in
      let same : out ≡ take k (drop d chunk) =
        take_rows-window start offset s.seen 0 s.emitted chunk
        ∙ window k k (start - (s.seen + 0)) d chunk refl (omega arith) in
      let count = take_rows-count start offset s.seen 0 s.emitted chunk in
      window-append k d chunk (concat chunks)
      ∙ (ap (λ zs. zs ++ take (k - length zs) (drop (d - length chunk) (concat chunks))) (sym same)
          ∙ ap (λ zs. out ++ zs)
              (window (k - length out) (offset - (after_chunk s chunk).emitted) (d - length chunk)
                (start - (s.seen + length chunk)) (concat chunks) (omega (arith, count))
                (omega arith)))

  -- What a call gives: no more rows, or some of them before the others.
  abbrev Pulled : Limit → List (List Row) → Option (List Row) → List (List Row) × Limit → Type 0
  Pulled s chunks none rest = expected s chunks ≡ []
  Pulled s chunks (some out) rest =
      (expected s chunks ≡ out ++ expected (rest.1) (rest.0)) × (length (rest.0) < length chunks)

  later-Pulled :
      (s s' : Limit) (chunk : List Row) (chunks : List (List Row)) (o : Option (List Row))
      (rest : List (List Row) × Limit)
      → expected s (chunk ∷ chunks) ≡ expected s' chunks
      → Pulled s' chunks o rest
      → Pulled s (chunk ∷ chunks) o rest
  later-Pulled s s' chunk chunks none rest e h = e ∙ h
  later-Pulled s s' chunk chunks (some out) rest e h = (e ∙ h.0, omega (arith, h.1))

  pull-Pulled :
      (chunks : List (List Row)) (s : Limit)
      → Pulled s chunks ((pull start offset chunks s).0) ((pull start offset chunks s).1)
  pull-Pulled [] s =
      ap (take (offset - s.emitted)) (drop-nil (start - s.seen)) ∙ take-nil (offset - s.emitted)
  pull-Pulled (chunk ∷ chunks) s =
      let split = expected-chunk s chunk chunks in
      elim (List-cases ((take_rows start offset s.seen 0 s.emitted chunk).0)) [
        | inr (x, (out, e)) ↦
            rw (Pulled, pull, e)
              (split ∙ ap (λ zs. zs ++ expected (after_chunk s chunk) chunks) e, omega arith)
        | inl e ↦
            let same : expected s (chunk ∷ chunks) ≡ expected (after_chunk s chunk) chunks =
              split ∙ ap (λ zs. zs ++ expected (after_chunk s chunk) chunks) e in
            elim (Bool-cases (leb offset (after_chunk s chunk).emitted)) [
              | inl m ↦
                  rw (Pulled, pull, e, m)
                    (same
                      ∙ take-zero (offset - (after_chunk s chunk).emitted) _ (ground (arith, m)))
              | inr m ↦
                  rw (pull, e, m)
                    (later-Pulled s (after_chunk s chunk) chunk chunks
                      ((pull start offset chunks (after_chunk s chunk)).0)
                      ((pull start offset chunks (after_chunk s chunk)).1) same
                      (pull-Pulled chunks (after_chunk s chunk)))
            ]
      ]

  next-Pulled :
      (chunks : List (List Row)) (s : Limit)
      → Pulled s chunks ((next start offset chunks s).0) ((next start offset chunks s).1)
  unfolding next
  next-Pulled chunks s = elim (Bool-cases (leb offset s.emitted)) [
    | inl m ↦
        rw (Pulled, next, m)
          (take-zero (offset - s.emitted) (drop (start - s.seen) (concat chunks))
            (ground (arith, m)))
    | inr m ↦ rw (next, m) (pull-Pulled chunks s)
  ]

  drain-expected :
      (n : ℕ) (chunks : List (List Row)) (s : Limit)
      → length chunks < n
      → drain start offset n chunks s ≡ some (expected s chunks)
  unfolding drain
  drain-expected zero chunks s h = absurd (omega (arith, h))
  drain-expected (suc n) chunks s h =
      let rest = (next start offset chunks s).1 in
      (elim ((next start offset chunks s).0)
          as (λ o.
            Pulled s chunks o rest
            → (elim o [
              | none ↦ some []
              | some out ↦ elim (drain start offset n (rest.0) (rest.1)) [
                | none ↦ none
                | some more ↦ some (out ++ more)
              ]
            ])
              ≡ some (expected s chunks)) [
                | none ↦ λ p. ap some (sym p)
                | some out ↦ λ p.
                    rw (drain-expected n (rest.0) (rest.1) (omega (arith, h, p.1)))
                      (ap some (sym p.0))
              ])
        (next-Pulled chunks s)

-- Calling `Next` until it ends gives, chunk after chunk, the `offset` rows of the child that follow
-- its first `start` rows, however the child cuts its rows into chunks; one call more than there are
-- chunks is enough.
pub drain-window :
    {Row : Type 0} (start offset : ℕ) (chunks : List (List Row))
    → drain start offset (length chunks + 1) chunks init
      ≡ some (take offset (drop start (concat chunks)))
drain-window start offset chunks =
    drain-expected start offset (length chunks + 1) chunks init (omega arith)
    ∙ ap some
        (window (offset - 0) offset (start - 0) start (concat chunks) (omega arith) (omega arith))
