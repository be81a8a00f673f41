-- ===== src/Prelude/Entries.antt =====
-- What holds of every entry of a map, or of every two, through writes and deletions.
use mathlib.Core.List.{List, [], ◌∷◌}
use loggi.Prelude.Lists.{All}
use loggi.Prelude.Maps.{Eq, insert, delete}
use loggi.Prelude.Orders.{Pairs}
use loggi.Prelude.Tests.{if_cases}

module _ {ℓ κ ι} {K : Type ℓ} {V : Type κ} ⦃e : Eq K⦄ where
  pub All-insert :
      (P : K × V → Type ι) (k : K) (v : V) (m : List (K × V))
      → P (k, v)
      → All P m
      → All P (insert k v m)
  All-insert P k v [] p h = (p, tt)
  All-insert P k v ((j, w) ∷ m) p (q, h) =
      if_cases (All P) (e.beq j k) _ _ (λ _. (p, h)) λ _. (q, All-insert P k v m p h)

  pub All-delete : (P : K × V → Type ι) (k : K) (m : List (K × V)) → All P m → All P (delete k m)
  All-delete P k [] h = tt
  All-delete P k ((j, w) ∷ m) (p, h) =
      if_cases (All P) (e.beq j k) _ _ (λ _. All-delete P k m h) λ _. (p, All-delete P k m h)

  pub Pairs-delete :
      (R : K × V → K × V → Type ι) (k : K) (m : List (K × V)) → Pairs R m → Pairs R (delete k m)
  Pairs-delete R k [] h = tt
  Pairs-delete R k ((j, w) ∷ m) (p, h) =
      if_cases (Pairs R) (e.beq j k) _ _ (λ _. Pairs-delete R k m h)
        λ _. (All-delete (R (j, w)) k m p, Pairs-delete R k m h)
