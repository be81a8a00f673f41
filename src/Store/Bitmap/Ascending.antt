-- ===== src/Store/Bitmap/Ascending.antt =====
-- Ascending lists are told apart by their members.
use mathlib.Core.Path.{ap₂}
use loggi.Prelude.{
  ℕ, zero, suc, ◌+◌, ◌<◌, ◌≡◌, refl, Bool, false, ◌&&◌, List, [], ◌∷◌, arith, leb, ltb, All, filter,
}
use loggi.Store.Bitmap.{elem, IsAscending}

All-lt-not-elem : (x y : ℕ) (ys : List ℕ) → All (λ z. y < z) ys → x < suc y → elem x ys ≡ false
All-lt-not-elem x y [] h lt = refl
All-lt-not-elem x y (z ∷ ys) h lt = ground (arith, All-lt-not-elem x y ys h.1 lt)

tail_ext :
    (x y : ℕ) (xs ys : List ℕ) (z : ℕ)
    → x ≡ y
    → All (λ w. x < w) xs
    → All (λ w. y < w) ys
    → elem z (x ∷ xs) ≡ elem z (y ∷ ys)
    → elem z xs ≡ elem z ys
tail_ext x y xs ys z e a b h = ground (arith, All-lt-not-elem z x xs a, All-lt-not-elem z y ys b)

pub ascending_ext :
    (xs ys : List ℕ) → IsAscending xs → IsAscending ys → ((x : ℕ) → elem x xs ≡ elem x ys) → xs ≡ ys
ascending_ext [] [] a b h = refl
ascending_ext [] (y ∷ ys) a b h = absurd (ground (arith, h y))
ascending_ext (x ∷ xs) [] a b h = absurd (ground (arith, h x))
ascending_ext (x ∷ xs) (y ∷ ys) a b h =
    let e : x ≡ y =
      ground (arith, h x, h y, All-lt-not-elem x y ys b.0, All-lt-not-elem y x xs a.0) in
    let tails : xs ≡ ys = ascending_ext xs ys a.1 b.1 (λ z. tail_ext x y xs ys z e a.0 b.0 (h z)) in
    ap₂ ◌∷◌ e tails

All-filter :
    (x : ℕ) (p : ℕ → Bool) (xs : List ℕ) → All (λ y. x < y) xs → All (λ y. x < y) (filter p xs)
All-filter x p [] h = tt
All-filter x p (y ∷ xs) h = ground (arith, All-filter x p xs h.1)

pub filter-IsAscending : (p : ℕ → Bool) (xs : List ℕ) → IsAscending xs → IsAscending (filter p xs)
filter-IsAscending p [] h = tt
filter-IsAscending p (x ∷ xs) h = ground (arith, All-filter x p xs h.0, filter-IsAscending p xs h.1)

pub elem-filter : (p : ℕ → Bool) (x : ℕ) (xs : List ℕ) → elem x (filter p xs) ≡ (p x && elem x xs)
elem-filter p x [] = ground arith
elem-filter p x (y ∷ xs) = ground (arith, elem-filter p x xs)

-- The numbers from `lo` on, `n` of them.
abbrev pub range : ℕ → ℕ → List ℕ
range lo zero = []
range lo (suc n) = lo ∷ range (suc lo) n

range-gt : (x lo n : ℕ) → x < lo → All (λ y. x < y) (range lo n)
range-gt x lo zero h = tt
range-gt x lo (suc n) h = (h, range-gt x (suc lo) n (omega arith))

pub range-IsAscending : (lo n : ℕ) → IsAscending (range lo n)
range-IsAscending lo zero = tt
range-IsAscending lo (suc n) = (range-gt lo (suc lo) n (omega arith), range-IsAscending (suc lo) n)

pub elem-range : (x lo n : ℕ) → elem x (range lo n) ≡ (leb lo x && ltb x (lo + n))
elem-range x lo zero = ground arith
elem-range x lo (suc n) = ground (arith, elem-range x (suc lo) n)
