-- ===== src/Server/Hub/Ticks.antt =====
-- What a tick does to the table.
use loggi.Prelude.{
  ℕ, ◌≤◌, ◌≡◌, ◌≢◌, refl, sym, ◌∙◌, inl, inr, false, List, [], ◌∷◌, nat_eq, arith, Option-cases,
  All, Pairs, All_mono,
}
use loggi.Text.{Bytes, bytes_eq}
use loggi.Source.Aliases.{Groups}
use loggi.Source.Levels.{Decoder}
use loggi.Detect.Recommend.{Floats}
use loggi.Server.Hub.{SourceRec, Sources, Hub}
use loggi.Server.Hub.Health.{finalize_recommendation, close_detectors, finalize_all, tick_stats}
use loggi.Server.Hub.Registry.{IsTable, IsHub, Tamer, clash, clash_left, clash_right}
use loggi.Server.Hub.Steps.{finalize-IsHub}
use loggi.Server.Hub.Calls.{Tamer-same}

module _ {Float : Type 0} (json : Decoder Float) (floats : Floats) (groups : Groups) where
  -- The records of the two tables differ in what the tables are not about.
  abbrev Alike : Sources → Sources → Type 0
  Alike [] [] = Unit
  Alike ((i, q) ∷ l) ((j, r) ∷ m) = (i ≡ j) × Tamer q r × Alike l m
  Alike [] (e ∷ m) = ⊥
  Alike (e ∷ l) [] = ⊥

  All-Alike :
      (P : ℕ × SourceRec → Type 0) (l m : Sources)
      → ((i j : ℕ) (q r : SourceRec) → i ≡ j → Tamer q r → P (j, r) → P (i, q))
      → Alike l m
      → All P m
      → All P l
  All-Alike P [] [] f a h = tt
  All-Alike P [] (e ∷ m) f a h = elim a [ ]
  All-Alike P (e ∷ l) [] f a h = elim a [ ]
  All-Alike P ((i, q) ∷ l) ((j, r) ∷ m) f (e, t, a) (p, h) =
      (f i j q r e t p, All-Alike P l m f a h)

  Pairs-Alike :
      (R : ℕ × SourceRec → ℕ × SourceRec → Type 0) (l m : Sources)
      → ((i j : ℕ) (q r : SourceRec) (x : ℕ × SourceRec)
          → i ≡ j
          → Tamer q r
          → R (j, r) x
          → R (i, q) x)
      → ((i j : ℕ) (q r : SourceRec) (x : ℕ × SourceRec)
          → i ≡ j
          → Tamer q r
          → R x (j, r)
          → R x (i, q))
      → Alike l m
      → Pairs R m
      → Pairs R l
  Pairs-Alike R [] [] f g a h = tt
  Pairs-Alike R [] (e ∷ m) f g a h = elim a [ ]
  Pairs-Alike R (e ∷ l) [] f g a h = elim a [ ]
  Pairs-Alike R ((i, q) ∷ l) ((j, r) ∷ m) f g (e, t, a) (p, h) = (
    All-Alike (R (i, q)) l m (λ i' j' q' r' e' t' k. g i' j' q' r' (i, q) e' t' k) a
        (All_mono _ _ m (λ (x : ℕ × SourceRec) (k : R (j, r) x). f i j q r x e t k) p),
    Pairs-Alike R l m f g a h,
  )

  Alike-IsTable : (n : ℕ) (l m : Sources) → Alike l m → IsTable n m → IsTable n l
  Alike-IsTable n l m a v = record {
    fresh = All-Alike _ l m (λ i j q r e t (h : j ≤ n). omega (arith, e, h)) a v.fresh;
    ids =
        Pairs-Alike (λ x y. x.0 ≢ y.0) l m (λ i j q r x e t h p. h (sym e ∙ p))
          (λ i j q r x e t h p. h (p ∙ e)) a v.ids;
    single =
        Pairs-Alike (λ x y. clash (x.1) (y.1) ≡ false) l m (λ i j q r x e t. clash_left q r (x.1) t)
          (λ i j q r x e t. clash_right q r (x.1) t) a v.single;
  }

  close_detectors-Alike :
      (now : ℕ) (m : Sources) → Alike ((close_detectors json floats groups now m).0) m
  unfolding close_detectors
  close_detectors-Alike now [] = tt
  close_detectors-Alike now ((id, r) ∷ m) =
      let rest = close_detectors-Alike now m in
      elim (Option-cases r.detector) [
        | inl e ↦ rw e (refl, Tamer-same _ _ refl refl refl, rest)
        | inr (d, e) ↦ rw e (refl, Tamer-same _ _ refl refl refl, rest)
      ]

  finalize_all-IsHub :
      (now : ℕ) (pending : List (ℕ × List Bytes)) (h : Hub)
      → IsHub h
      → IsHub (finalize_all json floats groups now pending h)
  unfolding finalize_all
  finalize_all-IsHub now [] h v = v
  finalize_all-IsHub now ((id, cols) ∷ pending) h v =
      finalize_all-IsHub now pending (finalize_recommendation now id cols h)
        (finalize-IsHub now id cols h v)

  pub tick_stats-IsHub : (now : ℕ) (h : Hub) → IsHub h → IsHub (tick_stats json floats groups now h)
  unfolding tick_stats
  tick_stats-IsHub now h v =
      finalize_all-IsHub now ((close_detectors json floats groups now h.srcs).1) _ (
        Alike-IsTable h.generated ((close_detectors json floats groups now h.srcs).0) h.srcs
          (close_detectors-Alike now h.srcs) v)
