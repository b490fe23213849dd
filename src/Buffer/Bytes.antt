-- ===== src/Buffer/Bytes.antt =====
-- Bytes of a page: little-endian numbers, and the `memcpy` to and from an offset that
-- src/buffer/table_data_page.cpp and src/include/executor/varchar_codec.h are written with.
use chicken_db.Base.{
  ℕ, zero, suc, ◌+◌, ◌*◌, ◌/◌, ◌%◌, ◌≤◌, ◌<◌, ◌≡◌, refl, sym, ap, ◌∙◌, List, [], ◌∷◌, ◌++◌,
  append-nil, arith, length, length-append, drop, take,
}

-- The lowest `n` bytes of a number, the lowest first: a fixed-width integer in memory.
abbrev pub le : ℕ → ℕ → List ℕ
le zero w = []
le (suc n) w = w % 256 ∷ le n (w / 256)

abbrev pub from_le : List ℕ → ℕ
from_le [] = 0
from_le (b ∷ bs) = b + 256 * from_le bs

-- `memcpy` of `n` bytes at `off`. What lies outside the data is undefined in the source; here a
-- load there is short and a store there is lost.
abbrev pub load : ℕ → ℕ → List ℕ → List ℕ
load off n image = take n (drop off image)

abbrev pub store : ℕ → List ℕ → List ℕ → List ℕ
store off bs [] = []
store off [] (x ∷ image) = x ∷ image
store zero (b ∷ bs) (x ∷ image) = b ∷ store zero bs image
store (suc off) (b ∷ bs) (x ∷ image) = x ∷ store off (b ∷ bs) image

abbrev pub bytes_bound : ℕ → ℕ
bytes_bound zero = 1
bytes_bound (suc n) = 256 * bytes_bound n

pub from_le-le : (n w : ℕ) → w < bytes_bound n → from_le (le n w) ≡ w
from_le-le zero w h = omega (arith, h)
from_le-le (suc n) w h = omega (arith, h, from_le-le n (w / 256) (omega (arith, h)))

pub length-le : (n w : ℕ) → length (le n w) ≡ n
length-le zero w = refl
length-le (suc n) w = ap suc (length-le n (w / 256))

pub store-nil : (off : ℕ) (image : List ℕ) → store off [] image ≡ image
store-nil off [] = refl
store-nil off (x ∷ image) = refl

pub length-store : (off : ℕ) (bs image : List ℕ) → length (store off bs image) ≡ length image
length-store off bs [] = refl
length-store off [] (x ∷ image) = refl
length-store zero (b ∷ bs) (x ∷ image) = ap suc (length-store zero bs image)
length-store (suc off) (b ∷ bs) (x ∷ image) = ap suc (length-store off (b ∷ bs) image)

store-append_at :
    (off o : ℕ) (a b image : List ℕ)
    → o ≡ off + length a
    → store o b (store off a image) ≡ store off (a ++ b) image
store-append_at off o a b [] h = refl
store-append_at off o a [] (x ∷ image) h =
    store-nil o (store off a (x ∷ image)) ∙ ap (λ ys. store off ys (x ∷ image)) (sym (append-nil a))
store-append_at off o [] (z ∷ b) (x ∷ image) h =
    ap (λ i. store i (z ∷ b) (x ∷ image)) (omega (arith, h))
store-append_at zero zero (y ∷ a) (z ∷ b) (x ∷ image) h = absurd (omega (arith, h))
store-append_at zero (suc o) (y ∷ a) (z ∷ b) (x ∷ image) h =
    ap (λ ys. y ∷ ys) (store-append_at zero o a (z ∷ b) image (omega (arith, h)))
store-append_at (suc off) zero (y ∷ a) (z ∷ b) (x ∷ image) h = absurd (omega (arith, h))
store-append_at (suc off) (suc o) (y ∷ a) (z ∷ b) (x ∷ image) h =
    ap (λ ys. x ∷ ys) (store-append_at off o (y ∷ a) (z ∷ b) image (omega (arith, h)))

pub store-append :
    (off : ℕ) (a b image : List ℕ)
    → store (off + length a) b (store off a image) ≡ store off (a ++ b) image
store-append off a b image = store-append_at off (off + length a) a b image refl

-- `bs` stands in the data at `off`.
abbrev pub Holds : ℕ → List ℕ → List ℕ → Type 0
Holds off bs image = load off (length bs) image ≡ bs

pub load-store_below :
    (a n off : ℕ) (bs image : List ℕ) → a + n ≤ off → load a n (store off bs image) ≡ load a n image
load-store_below a zero off bs image h = refl
load-store_below a (suc n) off bs [] h = refl
load-store_below a (suc n) off [] (x ∷ image) h = refl
load-store_below a (suc n) zero (b ∷ bs) (x ∷ image) h = absurd (omega (arith, h))
load-store_below zero (suc n) (suc off) (b ∷ bs) (x ∷ image) h =
    ap (λ ys. x ∷ ys) (load-store_below zero n off (b ∷ bs) image (omega (arith, h)))
load-store_below (suc a) (suc n) (suc off) (b ∷ bs) (x ∷ image) h =
    load-store_below a (suc n) off (b ∷ bs) image (omega (arith, h))

drop-store :
    (a off : ℕ) (bs image : List ℕ)
    → off + length bs ≤ a
    → drop a (store off bs image) ≡ drop a image
drop-store a off bs [] h = refl
drop-store a off [] (x ∷ image) h = refl
drop-store zero zero (b ∷ bs) (x ∷ image) h = absurd (omega (arith, h))
drop-store (suc a) zero (b ∷ bs) (x ∷ image) h = drop-store a zero bs image (omega (arith, h))
drop-store zero (suc off) (b ∷ bs) (x ∷ image) h = absurd (omega (arith, h))
drop-store (suc a) (suc off) (b ∷ bs) (x ∷ image) h =
    drop-store a off (b ∷ bs) image (omega (arith, h))

pub load-store_above :
    (a n off : ℕ) (bs image : List ℕ)
    → off + length bs ≤ a
    → load a n (store off bs image) ≡ load a n image
load-store_above a n off bs image h = ap (take n) (drop-store a off bs image h)

pub Holds-store :
    (off : ℕ) (bs image : List ℕ)
    → off + length bs ≤ length image
    → Holds off bs (store off bs image)
Holds-store off [] image h = refl
Holds-store off (b ∷ bs) [] h = absurd (omega (arith, h))
Holds-store zero (b ∷ bs) (x ∷ image) h =
    ap (λ ys. b ∷ ys) (Holds-store zero bs image (omega (arith, h)))
Holds-store (suc off) (b ∷ bs) (x ∷ image) h = Holds-store off (b ∷ bs) image (omega (arith, h))

drop-twice_at : (a b c : ℕ) (xs : List ℕ) → c ≡ a + b → drop c xs ≡ drop b (drop a xs)
drop-twice_at zero b c xs h = ap (λ o. drop o xs) (omega (arith, h))
drop-twice_at (suc a) zero zero [] h = absurd (omega (arith, h))
drop-twice_at (suc a) (suc b) zero [] h = absurd (omega (arith, h))
drop-twice_at (suc a) zero (suc c) [] h = refl
drop-twice_at (suc a) (suc b) (suc c) [] h = refl
drop-twice_at (suc a) b zero (x ∷ xs) h = absurd (omega (arith, h))
drop-twice_at (suc a) b (suc c) (x ∷ xs) h = drop-twice_at a b c xs (omega (arith, h))

drop-twice : (a b : ℕ) (xs : List ℕ) → drop (a + b) xs ≡ drop b (drop a xs)
drop-twice a b xs = drop-twice_at a b (a + b) xs refl

load_take : (k n m : ℕ) (xs : List ℕ) → k + n ≤ m → take n (drop k (take m xs)) ≡ take n (drop k xs)
load_take k zero m xs h = refl
load_take k (suc n) zero xs h = absurd (omega (arith, h))
load_take k (suc n) (suc m) [] h = refl
load_take zero (suc n) (suc m) (x ∷ xs) h =
    ap (λ ys. x ∷ ys) (load_take zero n m xs (omega (arith, h)))
load_take (suc k) (suc n) (suc m) (x ∷ xs) h = load_take k (suc n) m xs (omega (arith, h))

-- A part of what stands there.
pub load-Holds :
    (off k n : ℕ) (bs image : List ℕ)
    → Holds off bs image
    → k + n ≤ length bs
    → load (off + k) n image ≡ load k n bs
load-Holds off k n bs image h l =
    ap (take n) (drop-twice off k image)
    ∙ sym (load_take k n (length bs) (drop off image) l)
    ∙ ap (λ ys. take n (drop k ys)) h

take-append : (xs ys : List ℕ) → take (length xs) (xs ++ ys) ≡ xs
take-append [] ys = refl
take-append (x ∷ xs) ys = ap (λ zs. x ∷ zs) (take-append xs ys)

load-append : (xs ys : List ℕ) → load (length xs) (length ys) (xs ++ ys) ≡ ys
load-append [] [] = refl
load-append [] (y ∷ ys) = ap (λ zs. y ∷ zs) (load-append [] ys)
load-append (x ∷ xs) ys = load-append xs ys

pub Holds-append_left :
    (off : ℕ) (xs ys image : List ℕ) → Holds off (xs ++ ys) image → Holds off xs image
Holds-append_left off xs ys image h =
    ap (λ o. load o (length xs) image) (omega arith)
    ∙ load-Holds off 0 (length xs) (xs ++ ys) image h (omega (arith, length-append xs ys))
    ∙ take-append xs ys

pub Holds-append_right :
    (off : ℕ) (xs ys image : List ℕ) → Holds off (xs ++ ys) image → Holds (off + length xs) ys image
Holds-append_right off xs ys image h =
    load-Holds off (length xs) (length ys) (xs ++ ys) image h (omega (arith, length-append xs ys))
    ∙ load-append xs ys

pub Holds-below :
    (a off : ℕ) (xs bs image : List ℕ)
    → Holds a xs image
    → a + length xs ≤ off
    → Holds a xs (store off bs image)
Holds-below a off xs bs image h l = load-store_below a (length xs) off bs image l ∙ h

pub Holds-above :
    (a off : ℕ) (xs bs image : List ℕ)
    → Holds a xs image
    → off + length bs ≤ a
    → Holds a xs (store off bs image)
Holds-above a off xs bs image h l = load-store_above a (length xs) off bs image l ∙ h

-- Four blocks that follow one another, the first written again at the end.
pub record Blocks (d c b : ℕ) (head dir cols bits image : List ℕ) : Type 0 where
  pub holds_head : Holds 0 head image
  pub holds_dir : Holds d dir image
  pub holds_cols : Holds c cols image
  pub holds_bits : Holds b bits image

pub four-Blocks :
    (d c b : ℕ) (first head dir cols bits image : List ℕ)
    → length head ≤ d
    → d + length dir ≤ c
    → c + length cols ≤ b
    → b + length bits ≤ length image
    → Blocks d c b head dir cols bits
        (store 0 head (store b bits (store c cols (store d dir (store 0 first image)))))
four-Blocks d c b first head dir cols bits image h1 h2 h3 h4 =
    let i1 = store 0 first image in
    let i2 = store d dir i1 in
    let i3 = store c cols i2 in
    let i4 = store b bits i3 in
    let l1 : length i1 ≡ length image = length-store 0 first image in
    let l2 : length i2 ≡ length image = length-store d dir i1 ∙ l1 in
    let l3 : length i3 ≡ length image = length-store c cols i2 ∙ l2 in
    let l4 : length i4 ≡ length image = length-store b bits i3 ∙ l3 in
    let dir2 = Holds-store d dir i1 (omega (arith, l1, h2, h3, h4)) in
    let dir3 = Holds-below d c dir cols i2 dir2 h2 in
    let dir4 = Holds-below d b dir bits i3 dir3 (omega (arith, h2, h3)) in
    let cols3 = Holds-store c cols i2 (omega (arith, l2, h3, h4)) in
    let cols4 = Holds-below c b cols bits i3 cols3 h3 in
    let bits4 = Holds-store b bits i3 (omega (arith, l3, h4)) in
    record {
      holds_head = Holds-store 0 head i4 (omega (arith, l4, h1, h2, h3, h4));
      holds_dir = Holds-above d 0 dir head i4 dir4 (omega (arith, h1));
      holds_cols = Holds-above c 0 cols head i4 cols4 (omega (arith, h1, h2));
      holds_bits = Holds-above b 0 bits head i4 bits4 (omega (arith, h1, h2, h3));
    }
