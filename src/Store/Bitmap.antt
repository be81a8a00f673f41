-- ===== src/Store/Bitmap.antt =====
-- The interface of roaring bitmaps (a package outside the repository): sets of 32-bit numbers. The
-- laws say what each call answers by the members; a bitmap is iterated in ascending order.
pub mod Ascending
use loggi.Prelude.{ℕ, ◌≡◌, ◌<◌, Bool, false, ◌&&◌, ◌||◌, List, [], ◌∷◌, ◌==◌, leb, ltb, All}

abbrev pub elem : ℕ → List ℕ → Bool
elem x [] = false
elem x (y ∷ ys) = y == x || elem x ys

abbrev pub IsAscending : List ℕ → Type 0
IsAscending [] = Unit
IsAscending (x ∷ xs) = All (λ y. x < y) xs × IsAscending xs

pub record Roaring : Type 1 where
  pub Bitmap : Type 0
  pub new : Bitmap
  pub add : ℕ → Bitmap → Bitmap
  pub add_range : ℕ → ℕ → Bitmap → Bitmap
  pub contains : Bitmap → ℕ → Bool
  pub and_bitmap : Bitmap → Bitmap → Bitmap
  pub or_bitmap : Bitmap → Bitmap → Bitmap
  pub iterate : Bitmap → List ℕ
  pub contains-new : (x : ℕ) → contains new x ≡ false
  pub contains-add : (x y : ℕ) (b : Bitmap) → contains (add x b) y ≡ (x == y || contains b y)
  pub contains-add_range :
      (lo hi x : ℕ) (b : Bitmap)
      → contains (add_range lo hi b) x ≡ (leb lo x && ltb x hi || contains b x)
  pub contains-and :
      (a b : Bitmap) (x : ℕ) → contains (and_bitmap a b) x ≡ (contains a x && contains b x)
  pub contains-or :
      (a b : Bitmap) (x : ℕ) → contains (or_bitmap a b) x ≡ (contains a x || contains b x)
  pub elem-iterate : (x : ℕ) (b : Bitmap) → elem x (iterate b) ≡ contains b x
  pub iterate-IsAscending : (b : Bitmap) → IsAscending (iterate b)
