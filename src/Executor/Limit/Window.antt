-- ===== src/Executor/Limit/Window.antt =====
-- That LIMIT (src/planner/physical/physical_limit_operator.cpp) cuts one window out of the rows,
-- whatever the chunks.
use chicken_db.Base.{
  ℕ, zero, suc, ◌+◌, ◌-◌, ◌≡◌, refl, sym, ap, ◌∙◌, inl, inr, List, [], ◌∷◌, ◌++◌, arith, ltb, leb,
  Bool-cases, length, drop, take,
}
use chicken_db.Executor.Limit.{take_rows}

module _ {Row : Type 0} where
  pub take-zero : (n : ℕ) (xs : List Row) → n ≡ 0 → take n xs ≡ []
  take-zero n xs h = rw h refl

  pub take-nil : (n : ℕ) → take {A = Row} n [] ≡ []
  take-nil zero = refl
  take-nil (suc n) = refl

  pub drop-nil : (n : ℕ) → drop {A = Row} n [] ≡ []
  drop-nil zero = refl
  drop-nil (suc n) = refl

  pub window :
      (k k' d d' : ℕ) (xs : List Row) → k ≡ k' → d ≡ d' → take k (drop d xs) ≡ take k' (drop d' xs)
  window k k' d d' xs p q = λ i. take (p i) (drop (q i) xs)

  -- The window of `k` rows after the first `d`, of two lists in a row.
  pub window-append :
      (k d : ℕ) (xs ys : List Row)
      → take k (drop d (xs ++ ys))
        ≡ take k (drop d xs) ++ take (k - length (take k (drop d xs))) (drop (d - length xs) ys)
  window-append k d [] ys =
      rw (drop-nil d, take-nil k) (window k (k - 0) d (d - 0) ys (omega arith) (omega arith))
  window-append zero zero (x ∷ xs) ys = refl
  window-append (suc k) zero (x ∷ xs) ys =
      ap (λ zs. x ∷ zs)
        (window-append k 0 xs ys
          ∙ ap (λ zs. take k xs ++ zs)
              (window (k - length (take k xs)) (suc k - suc (length (take k xs))) (0 - length xs)
                (0 - suc (length xs)) ys (omega arith) (omega arith)))
  window-append k (suc d) (x ∷ xs) ys =
      window-append k d xs ys
      ∙ ap (λ zs. take k (drop d xs) ++ zs)
          (window (k - length (take k (drop d xs))) (k - length (take k (drop d xs)))
            (d - length xs) (suc d - suc (length xs)) ys refl (omega arith))

module _ {Row : Type 0} (start offset : ℕ) where
  pub take_rows-window :
      (seen r emitted : ℕ) (rows : List Row)
      → (take_rows start offset seen r emitted rows).0
        ≡ take (offset - emitted) (drop (start - (seen + r)) rows)
  take_rows-window seen r emitted [] =
      rw (drop-nil (start - (seen + r)), take-nil (offset - emitted)) refl
  take_rows-window seen r emitted (x ∷ rows) = elim (Bool-cases (ltb (seen + r) start)) [
    | inl l ↦
        rw (take_rows, l) (take_rows-window seen (r + 1) emitted rows)
        ∙ window (offset - emitted) (offset - emitted) (suc (start - (seen + (r + 1))))
            (start - (seen + r)) (x ∷ rows) refl (ground (arith, l))
    | inr l ↦ elim (Bool-cases (leb offset emitted)) [
      | inl m ↦
          rw (take_rows, l, m) refl
          ∙ sym (
              take-zero (offset - emitted) (drop (start - (seen + r)) (x ∷ rows))
                (ground (arith, m)))
      | inr m ↦
          rw (take_rows, l, m)
            (ap (λ zs. x ∷ zs)
              (take_rows-window seen (r + 1) (emitted + 1) rows
                ∙ window (offset - (emitted + 1)) (offset - (emitted + 1))
                    (start - (seen + (r + 1))) 0 rows refl (ground (arith, l))))
          ∙ window (suc (offset - (emitted + 1))) (offset - emitted) 0 (start - (seen + r))
              (x ∷ rows) (ground (arith, m)) (ground (arith, l))
    ]
  ]

  pub take_rows-count :
      (seen r emitted : ℕ) (rows : List Row)
      → (take_rows start offset seen r emitted rows).1
        ≡ emitted + length ((take_rows start offset seen r emitted rows).0)
  take_rows-count seen r emitted [] = omega arith
  take_rows-count seen r emitted (x ∷ rows) = elim (Bool-cases (ltb (seen + r) start)) [
    | inl l ↦ rw (take_rows, l) (take_rows-count seen (r + 1) emitted rows)
    | inr l ↦ elim (Bool-cases (leb offset emitted)) [
      | inl m ↦ rw (take_rows, l, m) (omega arith)
      | inr m ↦
          rw (take_rows, l, m) (omega (arith, take_rows-count seen (r + 1) (emitted + 1) rows))
    ]
  ]
