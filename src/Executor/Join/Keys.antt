-- ===== src/Executor/Join/Keys.antt =====
-- The keys of the joins (src/include/executor/join_util.h): values, bytes and index keys.
use chicken_db.Base.{
  ℕ, ◌≡◌, refl, sym, ap, ◌∙◌, ◌↔◌, inl, inr, Bool, true, List, [], ◌∷◌, map, arith, Bool-cases,
  length, length-append, concat,
}
use chicken_db.Base.Eq.{HasEq, ◌==◌, nat_eq, list_eq, list_same, list_same_iff, ==_iff}
use chicken_db.Executor.Join.{
  JoinDoubles, DRow, keys_equal, key_vals, key_of, index_key, key_eq, at,
}
use chicken_db.Executor.RowKey.Injective.{append_cancel}
use chicken_db.Index.Key.{num, val_eq}

-- What the hash join relies on: doubles are equal exactly if their eight bytes are, which leaves out
-- a negative zero.
pub record HasKeyBytes (N : JoinDoubles) : Type 0 where
  pub bytes_length : (d : N.doubles.Double) → length (N.double_bytes d) ≡ 8
  pub bytes_injective : (c d : N.doubles.Double) → N.double_bytes c ≡ N.double_bytes d → c ≡ d

pub same_truth : (a b : Bool) → ((a ≡ true) ↔ (b ≡ true)) → a ≡ b
same_truth a b h = ground (arith, h)

concat-injective :
    {D : Type 0} (f : D → List ℕ) (xs ys : List D)
    → ((d : D) → length (f d) ≡ 8)
    → ((c d : D) → f c ≡ f d → c ≡ d)
    → concat (map f xs) ≡ concat (map f ys)
    → xs ≡ ys
concat-injective f [] [] h k e = refl
concat-injective f [] (y ∷ ys) h k e =
    absurd (omega (arith, ap length e, h y, length-append (f y) (concat (map f ys))))
concat-injective f (x ∷ xs) [] h k e =
    absurd (omega (arith, ap length e, h x, length-append (f x) (concat (map f xs))))
concat-injective f (x ∷ xs) (y ∷ ys) h k e =
    let (first, rest) =
      append_cancel (f x) (f y) (concat (map f xs)) (concat (map f ys)) (h x ∙ sym (h y)) e in
    λ i. k x y first i ∷ concat-injective f xs ys h k rest i

module _ (N : JoinDoubles) where
  abbrev pub vals_same : List (N.doubles.Double) → List (N.doubles.Double) → Bool
  vals_same = list_same ⦃eq = N.same_double⦄

  pub keys_equal-key_vals :
      (lrow rrow : DRow N) (lkey rkey : List ℕ)
      → length lkey ≡ length rkey
      → keys_equal N lrow lkey rrow rkey ≡ vals_same (key_vals N lrow lkey) (key_vals N rrow rkey)
  keys_equal-key_vals lrow rrow [] [] h = refl
  keys_equal-key_vals lrow rrow [] (j ∷ rkey) h = absurd (omega (arith, h))
  keys_equal-key_vals lrow rrow (i ∷ lkey) [] h = absurd (omega (arith, h))
  keys_equal-key_vals lrow rrow (i ∷ lkey) (j ∷ rkey) h =
      let rest = keys_equal-key_vals lrow rrow lkey rkey (omega (arith, h)) in
      elim (Bool-cases (HasEq.same N.same_double (at N lrow i) (at N rrow j))) [
        | inl e ↦ rw (keys_equal, list_same, e, rest) refl
        | inr e ↦ rw (keys_equal, list_same, e) refl
      ]

  pub vals_iff : (xs ys : List (N.doubles.Double)) → (vals_same xs ys ≡ true) ↔ (xs ≡ ys)
  vals_iff = list_same_iff ⦃eq = N.same_double⦄

  -- The bytes of the keys are the same exactly if the keys are equal.
  pub keys_equal-key_of :
      HasKeyBytes N
      → (lrow rrow : DRow N) (lkey rkey : List ℕ) → length lkey ≡ length rkey
      → (key_of N lrow lkey == key_of N rrow rkey) ≡ keys_equal N lrow lkey rrow rkey
  keys_equal-key_of laws lrow rrow lkey rkey h =
      let xs = key_vals N lrow lkey in
      let ys = key_vals N rrow rkey in
      let bytes = ==_iff (key_of N lrow lkey) (key_of N rrow rkey) in
      let vals = vals_iff xs ys in
      same_truth (key_of N lrow lkey == key_of N rrow rkey) (vals_same xs ys) (
        λ e. vals.1 (
            concat-injective N.double_bytes xs ys laws.bytes_length laws.bytes_injective
              (bytes.0 e)),
        λ e. bytes.1 (ap (λ zs. concat (map N.double_bytes zs)) (vals.0 e)),
      )
      ∙ sym (keys_equal-key_vals lrow rrow lkey rkey h)

  nums_same :
      (xs ys : List (N.doubles.Double))
      → HasEq.same (key_eq N) (map num xs) (map num ys) ≡ vals_same xs ys
  nums_same [] [] = refl
  nums_same [] (y ∷ ys) = refl
  nums_same (x ∷ xs) [] = refl
  nums_same (x ∷ xs) (y ∷ ys) = ground (arith, nums_same xs ys)

  pub keys_equal-index_key :
      (lrow rrow : DRow N) (lkey rkey : List ℕ)
      → length lkey ≡ length rkey
      → HasEq.same (key_eq N) (index_key N lrow lkey) (index_key N rrow rkey)
        ≡ keys_equal N lrow lkey rrow rkey
  keys_equal-index_key lrow rrow lkey rkey h =
      nums_same (key_vals N lrow lkey) (key_vals N rrow rkey)
      ∙ sym (keys_equal-key_vals lrow rrow lkey rkey h)
