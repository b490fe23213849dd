-- ===== src/Executor/RowKey/Injective.antt =====
-- That the row keys of src/include/executor/chunk_util.h tell all rows apart.
use chicken_db.Base.{
  ℕ, ◌/◌, ◌%◌, ◌<◌, ◌≡◌, refl, sym, ap, ◌∙◌, Bool, true, false, List, [], ◌∷◌, ◌++◌, arith, length,
  tail,
}
use chicken_db.Executor.RowKey.{
  Storage, fixed, varlen, Cell, valid_byte, cell_key, row_key, Fits, Conforms,
}

abbrev head_or : ℕ → List ℕ → ℕ
head_or d [] = d
head_or d (x ∷ xs) = x

same_head : {x y : ℕ} {s t : List ℕ} → x ∷ s ≡ y ∷ t → x ≡ y
same_head {x = x} e = ap (head_or x) e

same_tail : {x y : ℕ} {s t : List ℕ} → x ∷ s ≡ y ∷ t → s ≡ t
same_tail e = ap tail e

pub append_cancel :
    (xs ys s t : List ℕ) → length xs ≡ length ys → xs ++ s ≡ ys ++ t → (xs ≡ ys) × (s ≡ t)
append_cancel [] [] s t l e = (refl, e)
append_cancel [] (y ∷ ys) s t l e = absurd (omega (arith, l))
append_cancel (x ∷ xs) [] s t l e = absurd (omega (arith, l))
append_cancel (x ∷ xs) (y ∷ ys) s t l e =
    let rest = append_cancel xs ys s t (omega (arith, l)) (same_tail e) in
    ((λ i. same_head e i ∷ rest.0 i), rest.1)

same_flag : (a b : Bool) → valid_byte a ≡ valid_byte b → a ≡ b
same_flag true true h = refl
same_flag false false h = refl
same_flag true false h = absurd (omega (arith, h))
same_flag false true h = absurd (omega (arith, h))

same_length :
    (n m : ℕ)
    → n < 4294967296
    → m < 4294967296
    → n % 256 ≡ m % 256
    → n / 256 % 256 ≡ m / 256 % 256
    → n / 65536 % 256 ≡ m / 65536 % 256
    → n / 16777216 % 256 ≡ m / 16777216 % 256
    → n ≡ m
same_length n m h k a b c d = omega (arith, h, k, a, b, c, d)

cell_key_cancel :
    (k : Storage) (c c' : Cell) (s t : List ℕ)
    → Fits k c
    → Fits k c'
    → cell_key k c ++ s ≡ cell_key k c' ++ t
    → (c ≡ c') × (s ≡ t)
cell_key_cancel (fixed width) c c' s t h h' e =
    let flag = same_flag c.valid c'.valid (same_head e) in
    let rest = append_cancel c.bytes c'.bytes s t (h ∙ sym h') (same_tail e) in
    ((λ i. record { valid = flag i; bytes = rest.0 i }), rest.1)
cell_key_cancel varlen c c' s t h h' e =
    let flag = same_flag c.valid c'.valid (same_head e) in
    let e1 = same_tail e in
    let e2 = same_tail e1 in
    let e3 = same_tail e2 in
    let e4 = same_tail e3 in
    let l =
      same_length (length c.bytes) (length c'.bytes) h h' (same_head e1) (same_head e2)
        (same_head e3) (same_head e4) in
    let rest = append_cancel c.bytes c'.bytes s t l (same_tail e4) in
    ((λ i. record { valid = flag i; bytes = rest.0 i }), rest.1)

-- Two rows of the same columns that have the same key are the same row.
pub row_key_injective :
    (ks : List Storage) (r r' : List Cell)
    → Conforms ks r
    → Conforms ks r'
    → row_key ks r ≡ row_key ks r'
    → r ≡ r'
unfolding row_key
row_key_injective [] [] [] h h' e = refl
row_key_injective [] [] (c ∷ r') h h' e = absurd h'
row_key_injective [] (c ∷ r) r' h h' e = absurd h
row_key_injective (k ∷ ks) [] r' h h' e = absurd h
row_key_injective (k ∷ ks) (c ∷ r) [] h h' e = absurd h'
row_key_injective (k ∷ ks) (c ∷ r) (c' ∷ r') h h' e =
    let both = cell_key_cancel k c c' (row_key ks r) (row_key ks r') h.0 h'.0 e in
    let rest = row_key_injective ks r r' h.1 h'.1 both.1 in λ i. both.0 i ∷ rest i
