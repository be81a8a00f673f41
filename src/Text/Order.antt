-- ===== src/Text/Order.antt =====
-- Go's `<` on strings is a strict linear order.
use loggi.Prelude.{
  ◌≡◌, ◌≢◌, refl, ◌⊎◌, inl, inr, true, false, [], ◌∷◌, arith, ◌==◌, IsLess, Bool-cases,
}
use loggi.Text.{Bytes, bytes_lt}

bytes_lt_asym : (s t : Bytes) → bytes_lt s t ≡ true → bytes_lt t s ≡ false
unfolding bytes_lt
bytes_lt_asym [] [] h = cc
bytes_lt_asym [] (d ∷ t) h = refl
bytes_lt_asym (c ∷ s) [] h = cc
bytes_lt_asym (c ∷ s) (d ∷ t) h = ground (arith, bytes_lt_asym s t)

bytes_lt_above : (s t u : Bytes) → bytes_lt s u ≡ true → bytes_lt s t ≡ false → bytes_lt t u ≡ true
unfolding bytes_lt
bytes_lt_above [] [] u h k = h
bytes_lt_above [] (d ∷ t) u h k = cc
bytes_lt_above (c ∷ s) t [] h k = cc
bytes_lt_above (c ∷ s) [] (e ∷ u) h k = refl
bytes_lt_above (c ∷ s) (d ∷ t) (e ∷ u) h k = ground (arith, bytes_lt_above s t u)

pub bytes_lt-IsLess : IsLess bytes_lt
bytes_lt-IsLess = record { asym = bytes_lt_asym; above = bytes_lt_above }

pub bytes_lt_total : (s t : Bytes) → s ≢ t → (bytes_lt s t ≡ true) ⊎ (bytes_lt t s ≡ true)
unfolding bytes_lt
bytes_lt_total [] [] n = absurd (n refl)
bytes_lt_total [] (d ∷ t) n = inl refl
bytes_lt_total (c ∷ s) [] n = inr refl
bytes_lt_total (c ∷ s) (d ∷ t) n = elim (Bool-cases (c == d)) [
  | inl p ↦
      let e : c ≡ d = ground arith in ground (arith, bytes_lt_total s t (λ q. n (rw (e, q) refl)))
  | inr p ↦ ground arith
]
