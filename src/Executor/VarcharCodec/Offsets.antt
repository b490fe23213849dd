-- ===== src/Executor/VarcharCodec/Offsets.antt =====
-- The offsets of src/include/executor/varchar_codec.h and what stands between them.
use chicken_db.Base.{
  ℕ, zero, suc, ◌+◌, ◌*◌, ◌≤◌, ◌<◌, ◌≡◌, refl, ap, ◌∙◌, subst, inl, inr, some, List, [], ◌∷◌, arith,
  Option-cases, All, length, get_elem?, get_or, length-append, concat,
}
use chicken_db.Executor.VarcharCodec.{read_rows, copy_into, local_offsets, ints, to_size, read_ints}
use chicken_db.Buffer.Page.{u32}
use chicken_db.Executor.VarColumn.{get_string, VarColumn, zeros}
use chicken_db.Buffer.Bytes.{
  le, from_le, from_le-le, load, Holds, Holds-append_left, Holds-append_right,
}

pub length-ints : (xs : List ℕ) → length (ints xs) ≡ length xs * 4
length-ints [] = refl
length-ints (x ∷ xs) = omega (arith, length-ints xs)

pub length-local_offsets :
    (c : ℕ) (ss : List (List ℕ)) → length (local_offsets c ss) ≡ length ss + 1
length-local_offsets c [] = refl
length-local_offsets c (s ∷ ss) = omega (arith, length-local_offsets (u32 (c + length s)) ss)

pub local_offsets-small :
    (c : ℕ) (ss : List (List ℕ)) → c < 4294967296 → All (λ x. x < 4294967296) (local_offsets c ss)
local_offsets-small c [] h = (h, tt)
local_offsets-small c (s ∷ ss) h = (h, local_offsets-small (u32 (c + length s)) ss (omega arith))

pub read_ints-Holds :
    (off : ℕ) (xs raw : List ℕ)
    → All (λ x. x < 4294967296) xs
    → Holds off (ints xs) raw
    → read_ints (length xs) off raw ≡ xs
read_ints-Holds off [] raw a h = refl
read_ints-Holds off (x ∷ xs) raw a h =
    let first : from_le (load off 4 raw) ≡ x =
      ap from_le (Holds-append_left off (le 4 x) (ints xs) raw h) ∙ from_le-le 4 x a.0 in
    let rest =
      read_ints-Holds (off + 4) xs raw a.1 (Holds-append_right off (le 4 x) (ints xs) raw h) in
    ap (λ y. y ∷ read_ints (length xs) (off + 4) raw) first ∙ ap (λ ys. x ∷ ys) rest

pub last_offset :
    (c : ℕ) (ss : List (List ℕ))
    → c + length (concat ss) < 2147483648
    → get_or (local_offsets c ss) (length ss) 0 ≡ c + length (concat ss)
last_offset c [] h = omega arith
last_offset c (s ∷ ss) h =
    let grown = length-append s (concat ss) in
    last_offset (u32 (c + length s)) ss (omega (arith, h, grown)) ∙ omega (arith, h, grown)

-- Where the offsets say that a string is.
pub record Row (offsets pool : List ℕ) (limit i : ℕ) (s : List ℕ) : Type 0 where
  pub begin : ℕ
  pub begin_at : get_elem? offsets i ≡ some begin
  pub end_at : get_elem? offsets (suc i) ≡ some (begin + length s)
  pub text : load begin (length s) pool ≡ s
  pub inside : begin + length s ≤ limit

pub first_offset : (c : ℕ) (ss : List (List ℕ)) → get_elem? (local_offsets c ss) 0 ≡ some c
first_offset c [] = refl
first_offset c (s ∷ ss) = refl

pub local_offsets-Row :
    (c : ℕ) (ss : List (List ℕ)) (pool : List ℕ) (i : ℕ) (s : List ℕ)
    → c + length (concat ss) < 2147483648
    → Holds c (concat ss) pool
    → get_elem? ss i ≡ some s
    → Row (local_offsets c ss) pool (c + length (concat ss)) i s
local_offsets-Row c [] pool i s h holds e = ground (arith, e)
local_offsets-Row c (t ∷ ss) pool zero s h holds e =
    let grown = length-append t (concat ss) in
    let next : u32 (c + length t) ≡ c + length t = omega (arith, h, grown) in
    subst (Row (local_offsets c (t ∷ ss)) pool (c + length (concat (t ∷ ss))) 0) (ground (arith, e))
      (record {
        begin = c;
        begin_at = refl;
        end_at = first_offset (u32 (c + length t)) ss ∙ ap some next;
        text = Holds-append_left c t (concat ss) pool holds;
        inside = omega (arith, grown);
      })
local_offsets-Row c (t ∷ ss) pool (suc i) s h holds e =
    let grown = length-append t (concat ss) in
    let next : u32 (c + length t) ≡ c + length t = omega (arith, h, grown) in
    let rest =
      local_offsets-Row (u32 (c + length t)) ss pool i s (omega (arith, h, grown))
        (ap (λ o. load o (length (concat ss)) pool) next
          ∙ Holds-append_right c t (concat ss) pool holds)
        e in
    record {
      begin = rest.begin;
      begin_at = rest.begin_at;
      end_at = rest.end_at;
      text = rest.text;
      inside = omega (arith, rest.inside, next, grown);
    }

pub get_elem?-copy_into :
    (xs ys : List ℕ) (i x : ℕ)
    → length xs ≤ length ys
    → get_elem? xs i ≡ some x
    → get_elem? (copy_into xs ys) i ≡ some x
get_elem?-copy_into [] ys i x h e = ground (arith, e)
get_elem?-copy_into (y ∷ xs) [] i x h e = absurd (omega (arith, h))
get_elem?-copy_into (y ∷ xs) (z ∷ ys) zero x h e = e
get_elem?-copy_into (y ∷ xs) (z ∷ ys) (suc i) x h e =
    get_elem?-copy_into xs ys i x (omega (arith, h)) e

pub length-zeros : (n : ℕ) → length (zeros n) ≡ n
length-zeros zero = refl
length-zeros (suc n) = ap suc (length-zeros n)

pub read_rows-length :
    (v : VarColumn) (row n : ℕ) (ss : List (List ℕ)) → read_rows v row n ≡ some ss → length ss ≡ n
read_rows-length v row zero ss h = ground (arith, h)
read_rows-length v row (suc n) ss h = elim (Option-cases (get_string v row)) [
  | inl e ↦ ground (arith, h, e)
  | inr (s, e) ↦ elim (Option-cases (read_rows v (row + 1) n)) [
    | inl f ↦ ground (arith, h, e, f)
    | inr (t, f) ↦ ground (arith, h, e, f, read_rows-length v (row + 1) n t f)
  ]
]

pub to_size-small : (x : ℕ) → x < 2147483648 → to_size x ≡ x
to_size-small x h = ground (arith, h)
