-- ===== src/Base/Shuffle.antt =====
-- Rearrangements of a list, step by step: what a postcondition `permutation` of an algorithm gives.
use mathlib.Core.Path.{◌≡◌, refl, sym, ap, ◌∙◌, subst}
use mathlib.Core.List.{List, [], ◌∷◌, ◌++◌, map, Perm}
use mathlib.Core.List.Perm
use native.Mathlib.Omega.{arith}
use chicken_db.Base.Lists.{All, length}

pub data Shuffle {ℓ} {A : Type ℓ} : List A → List A → Type ℓ where
  done : (xs : List A) → Shuffle xs xs
  keep : (x : A) {xs ys : List A} → Shuffle xs ys → Shuffle (x ∷ xs) (x ∷ ys)
  swap : (x y : A) (xs : List A) → Shuffle (x ∷ y ∷ xs) (y ∷ x ∷ xs)
  chain : {xs ys zs : List A} → Shuffle xs ys → Shuffle ys zs → Shuffle xs zs

module _ {ℓ} {A : Type ℓ} where
  pub Shuffle-perm : {xs ys : List A} → Shuffle xs ys → Perm xs ys
  Shuffle-perm (done xs) = Perm.refl xs
  Shuffle-perm (keep x s) = Perm.cons x (Shuffle-perm s)
  Shuffle-perm (swap x y xs) = Perm.swap y x xs
  Shuffle-perm (chain s t) = Perm.trans (Shuffle-perm s) (Shuffle-perm t)

  pub Shuffle-flip : {xs ys : List A} → Shuffle xs ys → Shuffle ys xs
  Shuffle-flip (done xs) = done xs
  Shuffle-flip (keep x s) = keep x (Shuffle-flip s)
  Shuffle-flip (swap x y xs) = swap y x xs
  Shuffle-flip (chain s t) = chain (Shuffle-flip t) (Shuffle-flip s)

  pub Shuffle-All {κ} : (P : A → Type κ) {xs ys : List A} → Shuffle xs ys → All P xs → All P ys
  Shuffle-All P (done xs) a = a
  Shuffle-All P (keep x s) a = (a.0, Shuffle-All P s a.1)
  Shuffle-All P (swap x y xs) a = (a.1.0, (a.0, a.1.1))
  Shuffle-All P (chain s t) a = Shuffle-All P t (Shuffle-All P s a)

  pub Shuffle-map {κ} :
      {B : Type κ} (f : A → B) {xs ys : List A} → Shuffle xs ys → Shuffle (map f xs) (map f ys)
  Shuffle-map f (done xs) = done (map f xs)
  Shuffle-map f (keep x s) = keep (f x) (Shuffle-map f s)
  Shuffle-map f (swap x y xs) = swap (f x) (f y) (map f xs)
  Shuffle-map f (chain s t) = chain (Shuffle-map f s) (Shuffle-map f t)

  pub Shuffle-right : (zs : List A) {xs ys : List A} → Shuffle xs ys → Shuffle (xs ++ zs) (ys ++ zs)
  Shuffle-right zs (done xs) = done (xs ++ zs)
  Shuffle-right zs (keep x s) = keep x (Shuffle-right zs s)
  Shuffle-right zs (swap x y xs) = swap x y (xs ++ zs)
  Shuffle-right zs (chain s t) = chain (Shuffle-right zs s) (Shuffle-right zs t)

  pub Shuffle-left : (zs : List A) {xs ys : List A} → Shuffle xs ys → Shuffle (zs ++ xs) (zs ++ ys)
  Shuffle-left [] s = s
  Shuffle-left (z ∷ zs) s = keep z (Shuffle-left zs s)

  pub Shuffle-append :
      {xs ys zs ws : List A} → Shuffle xs ys → Shuffle zs ws → Shuffle (xs ++ zs) (ys ++ ws)
  Shuffle-append {ys = ys} {zs = zs} s t = chain (Shuffle-right zs s) (Shuffle-left ys t)

  pub Shuffle-eq : {xs ys : List A} → xs ≡ ys → Shuffle xs ys
  Shuffle-eq {xs = xs} e = subst (λ ys. Shuffle xs ys) e (done xs)

  -- An element moves to the front.
  pub Shuffle-middle : (x : A) (xs ys : List A) → Shuffle (xs ++ x ∷ ys) (x ∷ xs ++ ys)
  Shuffle-middle x [] ys = done (x ∷ ys)
  Shuffle-middle x (z ∷ xs) ys = chain (keep z (Shuffle-middle x xs ys)) (swap z x (xs ++ ys))

  pub Shuffle-comm : (xs ys : List A) → Shuffle (xs ++ ys) (ys ++ xs)
  Shuffle-comm [] ys = Shuffle-eq (sym (append_nil_right ys))
    where
      append_nil_right : (ys : List A) → ys ++ [] ≡ ys
      append_nil_right [] = refl
      append_nil_right (y ∷ ys) = ap (λ zs. y ∷ zs) (append_nil_right ys)
  Shuffle-comm (x ∷ xs) ys =
      chain (keep x (Shuffle-comm xs ys)) (Shuffle-flip (Shuffle-middle x ys xs))

  pub Shuffle-length : {xs ys : List A} → Shuffle xs ys → length xs ≡ length ys
  Shuffle-length (done xs) = refl
  Shuffle-length (keep x s) = omega (arith, Shuffle-length s)
  Shuffle-length (swap x y xs) = refl
  Shuffle-length (chain s t) = Shuffle-length s ∙ Shuffle-length t
