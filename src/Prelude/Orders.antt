-- ===== src/Prelude/Orders.antt =====
-- Reorderings of a list, such as the iteration orders of one Go map, and sort.SliceStable.
use mathlib.Core.Bool.{Bool, true, false}
use mathlib.Core.List.{List, [], ◌∷◌}
use mathlib.Core.Logic.{◌⊎◌, inl, inr}
use mathlib.Core.Path.{◌≡◌, refl, ap, ◌∙◌}
use native.Mathlib.Omega.{arith}
use loggi.Prelude.Lists.{All}

pub data Reordered {ℓ} {A : Type ℓ} : List A → List A → Type ℓ where
  same : {l : List A} → Reordered l l
  keep : {x : A} {l m : List A} → Reordered l m → Reordered (x ∷ l) (x ∷ m)
  swap : {x y : A} {l m : List A} → Reordered l m → Reordered (x ∷ y ∷ l) (y ∷ x ∷ m)
  then_by : {l m n : List A} → Reordered l m → Reordered m n → Reordered l n

module _ {ℓ} {A : Type ℓ} (less : A → A → Bool) where
  -- Before the first element that is not below it.
  abbrev pub insert_sorted : A → List A → List A
  insert_sorted x [] = x ∷ []
  insert_sorted x (y ∷ ys) = elim (less y x) [ true ↦ y ∷ insert_sorted x ys | false ↦ x ∷ y ∷ ys ]

  -- The one sorted list in which equal elements keep their order.
  abbrev pub sort_stable : List A → List A
  sort_stable [] = []
  sort_stable (x ∷ xs) = insert_sorted x (sort_stable xs)

-- A strict weak order, as sort wants of its test.
pub record IsLess {ℓ} {A : Type ℓ} (less : A → A → Bool) : Type ℓ where
  pub asym : (x y : A) → less x y ≡ true → less y x ≡ false
  pub above : (x y z : A) → less x z ≡ true → less x y ≡ false → less y z ≡ true

module _ {ℓ} {A : Type ℓ} (less : A → A → Bool) (o : IsLess less) where
  -- Two elements that the test tells apart may be inserted in either order.
  pub insert_sorted_comm :
      (x y : A) (l : List A)
      → (less x y ≡ true) ⊎ (less y x ≡ true)
      → insert_sorted less x (insert_sorted less y l)
        ≡ insert_sorted less y (insert_sorted less x l)
  insert_sorted_comm x y [] (inl h) = ground (arith, o.asym x y h)
  insert_sorted_comm x y [] (inr h) = ground (arith, o.asym y x h)
  insert_sorted_comm x y (z ∷ l) (inl h) = ground (
    arith,
    o.asym x y h,
    o.above x z y h,
    o.above z x y,
    o.asym z y,
    o.asym y z,
    o.asym z x,
    insert_sorted_comm x y l (inl h),
  )
  insert_sorted_comm x y (z ∷ l) (inr h) = ground (
    arith,
    o.asym y x h,
    o.above y z x h,
    o.above z y x,
    o.asym z y,
    o.asym y z,
    o.asym z x,
    insert_sorted_comm x y l (inr h),
  )

-- Every element stands in the relation to every later one.
abbrev pub Pairs {ℓ κ} : {A : Type ℓ} → (A → A → Type κ) → List A → Type κ
Pairs R [] = Unit
Pairs R (x ∷ xs) = All (R x) xs × Pairs R xs

module _ {ℓ κ} {A : Type ℓ} where
  pub All-Reordered : (P : A → Type κ) (l m : List A) → Reordered l m → All P l → All P m
  All-Reordered P l m same h = h
  All-Reordered P _ _ (keep {l = l} {m = m} r) (p, h) = (p, All-Reordered P l m r h)
  All-Reordered P _ _ (swap {l = l} {m = m} r) (p, (q, h)) = (q, (p, All-Reordered P l m r h))
  All-Reordered P l n (then_by {m = m} r s) h = All-Reordered P m n s (All-Reordered P l m r h)

  pub Pairs-Reordered :
      (R : A → A → Type κ)
      → ((x y : A) → R x y → R y x)
      → (l m : List A) → Reordered l m
      → Pairs R l
      → Pairs R m
  Pairs-Reordered R s l m same h = h
  Pairs-Reordered R s _ _ (keep {x = x} {l = l} {m = m} r) (p, h) =
      (All-Reordered (R x) l m r p, Pairs-Reordered R s l m r h)
  Pairs-Reordered R s _ _ (swap {x = x} {y = y} {l = l} {m = m} r) ((xy, p), (q, h)) = (
    (s x y xy, All-Reordered (R y) l m r q),
    (All-Reordered (R x) l m r p, Pairs-Reordered R s l m r h),
  )
  Pairs-Reordered R s l n (then_by {m = m} r t) h =
      Pairs-Reordered R s m n t (Pairs-Reordered R s l m r h)

module _ {ℓ} {A : Type ℓ} (less : A → A → Bool) (o : IsLess less) where
  abbrev Told : A → A → Type 0
  Told x y = (less x y ≡ true) ⊎ (less y x ≡ true)

  Told-sym : (x y : A) → Told x y → Told y x
  Told-sym x y (inl h) = inr h
  Told-sym x y (inr h) = inl h

  -- Sorting forgets the order of a list whose elements the test tells apart.
  pub sort_stable-Reordered :
      (l m : List A)
      → Reordered l m
      → Pairs (λ x y. (less x y ≡ true) ⊎ (less y x ≡ true)) l
      → sort_stable less l ≡ sort_stable less m
  sort_stable-Reordered l m same h = refl
  sort_stable-Reordered _ _ (keep {x = x} {l = l} {m = m} r) (p, h) =
      ap (insert_sorted less x) (sort_stable-Reordered l m r h)
  sort_stable-Reordered _ _ (swap {x = x} {y = y} {l = l} {m = m} r) ((xy, p), (q, h)) =
      ap (λ t. insert_sorted less x (insert_sorted less y t)) (sort_stable-Reordered l m r h)
      ∙ insert_sorted_comm less o x y (sort_stable less m) xy
  sort_stable-Reordered l n (then_by {m = m} r s) h =
      sort_stable-Reordered l m r h
      ∙ sort_stable-Reordered m n s (Pairs-Reordered Told Told-sym l m r h)
