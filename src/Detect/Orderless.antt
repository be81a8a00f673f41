-- ===== src/Detect/Orderless.antt =====
-- No iteration order of a Go map shows in the recommendation.
use mathlib.Core.Path.{fun_ext, ap₂}
use loggi.Prelude.{
  ℕ, ◌≡◌, ◌≢◌, refl, sym, ◌∙◌, ap, ◌⊎◌, inl, inr, true, false, not, ◌&&◌, [], ◌∷◌, ◌++◌, ◌==◌, take,
  filter, sort_stable, arith, Bool-cases, if_cases, Reordered, same, keep, swap, then_by, All,
  Pairs, ==_iff, IsLess, sort_stable-Reordered, true-ne-false,
}
use loggi.Text.{Bytes, bytes_eq}
use loggi.Text.Order.{bytes_lt-IsLess, bytes_lt_total}
use loggi.Source.Aliases.{Groups, alias_map, priorities}
use loggi.Source.Aliases.Members.{resolve-Reordered}
use loggi.Detect.Sampler.{FieldStat, Stats, Sampler}
use loggi.Detect.Recommend.{Floats, Cand, candidate, score, ranks_before, recommend, top_k}
use loggi.Detect.Ranking.{shows, others, eligible, logicals, recommend_lem}

-- The comparisons of floats other than NaN.
pub record IsOrdered (floats : Floats) : Type 0 where
  pub weak : IsLess floats.less
  pub same_iff :
      (x y : floats.F) → floats.same_value x y ≡ (not (floats.less x y) && not (floats.less y x))

abbrev pub DistinctKeys : Stats → Type 0
DistinctKeys fields = Pairs (λ e f. e.0 ≢ f.0) fields

module _ (floats : Floats) (o : IsOrdered floats) where
  ranks_before-asym :
      (n : ℕ) (a b : Cand floats)
      → ranks_before floats n a b ≡ true
      → ranks_before floats n b a ≡ false
  unfolding ranks_before
  ranks_before-asym n a b h =
      let x = score floats n a in
      let y = score floats n b in
      ground (
        arith,
        o.same_iff x y,
        o.same_iff y x,
        o.weak.asym x y,
        o.weak.asym y x,
        bytes_lt-IsLess.asym a.raw b.raw,
      )

  ranks_before-above :
      (n : ℕ) (a b c : Cand floats)
      → ranks_before floats n a c ≡ true
      → ranks_before floats n a b ≡ false
      → ranks_before floats n b c ≡ true
  unfolding ranks_before
  ranks_before-above n a b c h k =
      let x = score floats n a in
      let y = score floats n b in
      let z = score floats n c in
      ground (
        arith,
        o.same_iff x y,
        o.same_iff x z,
        o.same_iff y z,
        o.weak.asym x y,
        o.weak.asym y z,
        o.weak.asym x z,
        o.weak.above z y x,
        o.weak.above x y z,
        o.weak.above x z y,
        o.weak.above y x z,
        o.weak.above y z x,
        o.weak.above z x y,
        bytes_lt-IsLess.above a.raw b.raw c.raw,
      )

  ranks_before-IsLess : (n : ℕ) → IsLess (ranks_before floats n)
  ranks_before-IsLess n = record { asym = ranks_before-asym n; above = ranks_before-above n }

  ranks_before_total :
      (n : ℕ) (a b : Cand floats)
      → a.raw ≢ b.raw
      → (ranks_before floats n a b ≡ true) ⊎ (ranks_before floats n b a ≡ true)
  unfolding ranks_before
  ranks_before_total n a b h =
      let x = score floats n a in
      let y = score floats n b in
      ground (arith, o.same_iff x y, o.same_iff y x, bytes_lt_total a.raw b.raw h)

  abbrev Told : ℕ → Cand floats → Cand floats → Type 0
  Told n a b = (ranks_before floats n a b ≡ true) ⊎ (ranks_before floats n b a ≡ true)

  others-Told :
      (groups : Groups) (n : ℕ) (raw : Bytes) (fs : FieldStat) (fields : Stats)
      → All (λ f. raw ≢ f.0) fields
      → All (Told n (candidate floats groups n raw fs)) (others floats groups n fields)
  others-Told groups n raw fs [] h = tt
  others-Told groups n raw fs ((r, gs) ∷ fields) (ne, h) =
      let rest = others-Told groups n raw fs fields h in
      if_cases (All (Told n (candidate floats groups n raw fs)))
        (eligible floats (candidate floats groups n r gs) gs) _ _
        (λ p. (unfold candidate in ranks_before_total n _ _ ne, rest)) λ p. rest

  others-Pairs :
      (groups : Groups) (n : ℕ) (fields : Stats)
      → DistinctKeys fields
      → Pairs (Told n) (others floats groups n fields)
  others-Pairs groups n [] h = tt
  others-Pairs groups n ((raw, fs) ∷ fields) (p, h) =
      if_cases (Pairs (Told n)) (eligible floats (candidate floats groups n raw fs) fs) _ _
        (λ q. (others-Told groups n raw fs fields p, others-Pairs groups n fields h))
        λ q. others-Pairs groups n fields h

  others-Reordered :
      (groups : Groups) (n : ℕ) (l m : Stats)
      → Reordered l m
      → Reordered (others floats groups n l) (others floats groups n m)
  others-Reordered groups n l m same = same
  others-Reordered groups n _ _ (keep {x = (raw, fs)} {l = l} {m = m} r) =
      elim (Bool-cases (eligible floats (candidate floats groups n raw fs) fs)) [
        | inl p ↦ rw p (keep (others-Reordered groups n l m r))
        | inr p ↦ rw p (others-Reordered groups n l m r)
      ]
  others-Reordered groups n _ _ (swap {x = (raw, fs)} {y = (raw', fs')} {l = l} {m = m} r) =
      let ih = others-Reordered groups n l m r in
      elim (Bool-cases (eligible floats (candidate floats groups n raw fs) fs)) [
        | inl p ↦ elim (Bool-cases (eligible floats (candidate floats groups n raw' fs') fs')) [
          | inl q ↦ rw (p, q) (swap ih)
          | inr q ↦ rw (p, q) (keep ih)
        ]
        | inr p ↦ elim (Bool-cases (eligible floats (candidate floats groups n raw' fs') fs')) [
          | inl q ↦ rw (p, q) (keep ih)
          | inr q ↦ rw (p, q) ih
        ]
      ]
  others-Reordered groups n l k (then_by {m = m} r s) =
      then_by (others-Reordered groups n l m r) (others-Reordered groups n m k s)

  shows-Reordered :
      (groups : Groups) (n : ℕ) (l m : Stats) (p : Bytes)
      → Reordered l m
      → shows floats groups n l p ≡ shows floats groups n m p
  shows-Reordered groups n l m p same = refl
  shows-Reordered groups n _ _ p (keep {l = l} {m = m} r) =
      ground (arith, shows-Reordered groups n l m p r)
  shows-Reordered groups n _ _ p (swap {l = l} {m = m} r) =
      ground (arith, shows-Reordered groups n l m p r)
  shows-Reordered groups n l k p (then_by {m = m} r s) =
      shows-Reordered groups n l m p r ∙ shows-Reordered groups n m k p s

module _ (floats : Floats) (groups : Groups) (r : Reordered groups alias_map) where
  candidate-groups :
      (n : ℕ) (raw : Bytes) (fs : FieldStat)
      → candidate floats groups n raw fs ≡ candidate floats alias_map n raw fs
  unfolding candidate
  candidate-groups n raw fs = rw (resolve-Reordered groups raw r) refl

  shows-groups :
      (n : ℕ) (fields : Stats) (p : Bytes)
      → shows floats groups n fields p ≡ shows floats alias_map n fields p
  shows-groups n [] p = refl
  shows-groups n ((raw, fs) ∷ fields) p =
      simp (candidate-groups n raw fs, shows-groups n fields p) refl

  others-groups :
      (n : ℕ) (fields : Stats) → others floats groups n fields ≡ others floats alias_map n fields
  others-groups n [] = refl
  others-groups n ((raw, fs) ∷ fields) =
      simp (candidate-groups n raw fs, others-groups n fields) refl

-- The recommendation depends neither on the iteration order of the sampler's fields nor on that of
-- the alias groups, for fields with distinct keys.
pub recommend-Reordered :
    (floats : Floats) (groups : Groups) (s : Sampler) (fields : Stats)
    → IsOrdered floats
    → Reordered groups alias_map
    → Reordered s.fields fields
    → DistinctKeys s.fields
    → recommend floats groups s ≡ recommend floats alias_map (record s { fields = fields })
recommend-Reordered floats groups s fields o g r d = elim (Bool-cases (s.n == 0)) [
  | inl p ↦ unfold recommend in rw p refl
  | inr p ↦
      let ne : s.n ≢ 0 = λ e. true-ne-false (sym ((==_iff s.n 0).1 e) ∙ p) in
      recommend_lem floats groups s ne
      ∙ ap₂ (λ test ranked. take top_k (filter test priorities ++ logicals floats ranked))
          (fun_ext λ q.
            shows-groups floats groups g s.n s.fields q
            ∙ shows-Reordered floats o alias_map s.n s.fields fields q r)
          (ap (sort_stable (ranks_before floats s.n)) (others-groups floats groups g s.n s.fields)
            ∙ sort_stable-Reordered (ranks_before floats s.n) (ranks_before-IsLess floats o s.n) _ _
                (others-Reordered floats o alias_map s.n s.fields fields r)
                (others-Pairs floats o alias_map s.n s.fields d))
      ∙ sym (recommend_lem floats alias_map (record s { fields = fields }) ne)
]
