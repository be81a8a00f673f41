-- ===== src/Detect/Ranking.antt =====
-- What the recommendation is made of.
use loggi.Prelude.{
  ℕ, ◌≤◌, ◌≡◌, ◌≢◌, refl, sym, ◌∙◌, ap, subst, inl, inr, Bool, true, false, not, ◌&&◌, ◌||◌, none,
  some, List, [], ◌∷◌, ◌++◌, ◌==◌, ltb, leb, lookup, lookup-insert, if◌then◌else◌, length, take,
  filter, sort_stable, arith, Bool-cases, Option-cases, append_assoc, append-nil, length-append,
  take_of_le, take-append, length-filter-le,
}
use loggi.Text.{Bytes, str_eq, str_eq_iff, bytes_eq}
use loggi.Source.Aliases.{Groups, priorities}
use loggi.Detect.Sampler.{FieldStat, Stats, Sampler, max_depth}
use loggi.Detect.Recommend.{
  Floats, Cand, candidate, worth_column, keep_best, pick, pick_all, leading, ranks_before, fill,
  recommend, top_k,
}

module _ (floats : Floats) where
  open floats use {less, same_value, priority_presence}

  -- The field stands for a priority, and is present often enough.
  abbrev stands : Cand floats → Bool
  stands c = c.priority && not (less c.presence priority_presence)

  -- A field stands for this id.
  abbrev pub shows : Groups → ℕ → Stats → Bytes → Bool
  shows groups n [] p = false
  shows groups n ((raw, fs) ∷ fields) p =
      let c = candidate floats groups n raw fs in
      stands c && str_eq c.logical p || shows groups n fields p

  -- A field that is no priority, is not nested too deep and passes the filters.
  abbrev pub eligible : Cand floats → FieldStat → Bool
  eligible c fs = not c.priority && not (ltb max_depth fs.depth) && worth_column floats c fs

  abbrev pub others : Groups → ℕ → Stats → List (Cand floats)
  others groups n [] = []
  others groups n ((raw, fs) ∷ fields) =
      let c = candidate floats groups n raw fs in
      if eligible c fs then c ∷ others groups n fields else others groups n fields

  abbrev pub logicals : List (Cand floats) → List Bytes
  logicals [] = []
  logicals (c ∷ cs) = c.logical ∷ logicals cs

  abbrev in_best : Bytes → List (Bytes × Cand floats) → Bool
  in_best p best = elim (lookup p best) [ none ↦ false | some _ ↦ true ]

  in_best-keep_best :
      (c : Cand floats) (p : Bytes) (best : List (Bytes × Cand floats))
      → in_best p (keep_best floats c best) ≡ (str_eq c.logical p || in_best p best)
  unfolding keep_best
  in_best-keep_best c p best = elim (Option-cases (lookup c.logical best)) [
    | inl e ↦ ground (arith, e, lookup-insert c.logical p c best)
    | inr (prev, e) ↦ elim (Bool-cases (str_eq c.logical p)) [
      | inl q ↦
          let e' : lookup p best ≡ some prev =
            subst (λ t. lookup t best ≡ some prev) ((str_eq_iff c.logical p).0 q) e in
          ground (arith, e, e', q, lookup-insert c.logical p c best)
      | inr q ↦ ground (arith, e, q, lookup-insert c.logical p c best)
    ]
  ]

  pick-best :
      (groups : Groups) (n : ℕ) (raw : Bytes) (fs : FieldStat) (best : List (Bytes × Cand floats))
      (non_priority : List (Cand floats)) (p : Bytes)
      → in_best p ((pick floats groups n raw fs (best, non_priority)).0) ≡ (
          in_best p best
          || (stands (candidate floats groups n raw fs)
              && str_eq (candidate floats groups n raw fs).logical p))
  unfolding pick
  pick-best groups n raw fs best non_priority p =
      ground (arith, in_best-keep_best (candidate floats groups n raw fs) p best)

  pick-rest :
      (groups : Groups) (n : ℕ) (raw : Bytes) (fs : FieldStat) (best : List (Bytes × Cand floats))
      (non_priority : List (Cand floats))
      → (pick floats groups n raw fs (best, non_priority)).1
        ≡ non_priority
          ++ (if eligible (candidate floats groups n raw fs) fs
              then candidate floats groups n raw fs ∷ []
              else [])
  unfolding pick
  pick-rest groups n raw fs best non_priority = ground (arith, append-nil non_priority)

  others_step :
      (groups : Groups) (n : ℕ) (raw : Bytes) (fs : FieldStat) (fields : Stats)
      → others groups n ((raw, fs) ∷ fields)
        ≡ (if eligible (candidate floats groups n raw fs) fs
            then candidate floats groups n raw fs ∷ []
            else [])
          ++ others groups n fields
  others_step groups n raw fs fields = ground arith

  pick_all-rest :
      (groups : Groups) (n : ℕ) (fields : Stats)
      (acc : List (Bytes × Cand floats) × List (Cand floats))
      → (pick_all floats groups n fields acc).1 ≡ acc.1 ++ others groups n fields
  unfolding pick_all
  pick_all-rest groups n [] acc = sym (append-nil (acc.1))
  pick_all-rest groups n ((raw, fs) ∷ fields) acc =
      pick_all-rest groups n fields (pick floats groups n raw fs acc)
      ∙ ap (λ t. t ++ others groups n fields) (pick-rest groups n raw fs (acc.0) (acc.1))
      ∙ append_assoc (acc.1) _ _
      ∙ ap (◌++◌ (acc.1)) (sym (others_step groups n raw fs fields))

  pick_all-best :
      (groups : Groups) (n : ℕ) (fields : Stats)
      (acc : List (Bytes × Cand floats) × List (Cand floats)) (p : Bytes)
      → in_best p ((pick_all floats groups n fields acc).0)
        ≡ (in_best p (acc.0) || shows groups n fields p)
  unfolding pick_all
  pick_all-best groups n [] acc p = ground arith
  pick_all-best groups n ((raw, fs) ∷ fields) acc p = ground (
    arith,
    pick_all-best groups n fields (pick floats groups n raw fs acc) p,
    pick-best groups n raw fs (acc.0) (acc.1) p,
  )

  leading_lem :
      (test : Bytes → Bool) (ps : List Bytes) (best : List (Bytes × Cand floats))
      → ((p : Bytes) → in_best p best ≡ test p)
      → leading floats ps best ≡ filter test ps
  unfolding leading
  leading_lem test [] best h = refl
  leading_lem test (p ∷ ps) best h = ground (arith, h p, leading_lem test ps best h)

  fill_lem :
      (cs : List (Cand floats)) (out : List Bytes)
      → length out ≤ top_k
      → fill floats cs out ≡ take top_k (out ++ logicals cs)
  unfolding fill
  fill_lem [] out h = sym (ap (take top_k) (append-nil out) ∙ take_of_le top_k out h)
  fill_lem (c ∷ cs) out h = elim (Bool-cases (leb top_k (length out))) [
    | inl p ↦
        rw (p, fill)
          (sym (take-append top_k out (logicals (c ∷ cs)) (ground arith) ∙ take_of_le top_k out h))
    | inr p ↦
        rw (p, fill)
          (fill_lem cs (out ++ c.logical ∷ [])
              (ground (arith, length-append {0} out (c.logical ∷ [])))
            ∙ ap (take top_k) (append_assoc out (c.logical ∷ []) (logicals cs)))
  ]

  -- A recommendation holds the priorities that some field stands for, in their fixed order, then the
  -- ids of the other fields worth a column by rank; the first nine of these.
  pub recommend_lem :
      (groups : Groups) (s : Sampler)
      → s.n ≢ 0
      → recommend floats groups s
        ≡ take top_k (
            filter (shows groups s.n s.fields) priorities
            ++ logicals (sort_stable (ranks_before floats s.n) (others groups s.n s.fields)))
  unfolding recommend
  recommend_lem groups s h =
      let e : (s.n == 0) ≡ false = ground arith in
      let lead : leading floats priorities ((pick_all floats groups s.n s.fields ([], [])).0)
          ≡ filter (shows groups s.n s.fields) priorities =
        leading_lem _ priorities _ (pick_all-best groups s.n s.fields ([], [])) in
      rw (e, lead, pick_all-rest groups s.n s.fields ([], []))
        (fill_lem _ _ (few (shows groups s.n s.fields)))
    where
      few : (test : Bytes → Bool) → length (filter test priorities) ≤ top_k
      few test = unfold priorities in omega (arith, length-filter-le {0} test priorities)
