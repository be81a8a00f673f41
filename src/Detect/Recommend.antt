-- ===== src/Detect/Recommend.antt =====
-- The recommendation (Recommend and p95 of internal/coldetect/sampler.go). The arithmetic on floats and
-- the logarithm are the parameter `floats`; the iteration order of `s.fields` is the order of the list.
use loggi.Prelude.{
  ℕ, ◌*◌, ◌-◌, Bool, true, false, not, ◌&&◌, none, some, List, [], ◌∷◌, ◌++◌, ◌==◌, ltb, leb,
  lookup, insert, if◌then◌else◌, length, max, min, get_elem?, sort_stable, is_empty,
}
use loggi.Text.{Bytes, bytes_eq, bytes_lt}
use loggi.Source.Aliases.{Groups, resolve, is_priority, priorities}
use loggi.Detect.Sampler.{FieldStat, Stats, Sampler, max_depth}

abbrev pub min_distinct : ℕ
min_distinct = 2

abbrev pub max_val_len95 : ℕ
max_val_len95 = 120

abbrev pub top_k : ℕ
top_k = 9

-- float64 and package math; `ceil` is math.Ceil, converted to an int, of a number that is not negative.
pub record Floats : Type 1 where
  pub F : Type 0
  pub of_int : ℕ → F
  pub times : F → F → F
  pub over : F → F → F
  pub log : F → F
  pub ceil : F → ℕ
  pub less : F → F → Bool
  pub same_value : F → F → Bool
  pub priority_presence : F
  pub min_presence_ratio : F
  pub rank95 : F

-- sort.Ints, and the entry at an index in range.
unfoldable pub nth_or : ℕ → List ℕ → ℕ → ℕ
nth_or d l i = elim (get_elem? l i) [ none ↦ d | some x ↦ x ]

module _ (floats : Floats) where
  open floats use {
    F, of_int, times, over, log, ceil, less, same_value, priority_presence, min_presence_ratio,
    rank95,
  }

  unfoldable pub p95 : List ℕ → ℕ
  unfolding nth_or
  p95 vals =
      if is_empty vals
      then 0
      else (let cp = sort_stable ltb vals in
          let idx = max (ceil (times rank95 (of_int (length cp))) - 1) 0 in
          nth_or 0 cp (min idx (length cp - 1)))

  pub record Cand : Type 0 where
    pub raw : Bytes
    pub logical : Bytes
    pub presence : F
    pub distinct : ℕ
    pub val_len95 : ℕ
    pub priority : Bool

  -- The candidate of a field, and whether its logical id is a priority.
  unfoldable pub candidate : Groups → ℕ → Bytes → FieldStat → Cand
  unfolding p95
  candidate groups n raw fs =
      let logical = resolve groups raw in
      record {
        raw = raw;
        logical = if is_empty logical then b'@' ∷ raw else logical;
        presence = over (of_int fs.count) (of_int n);
        distinct = length fs.distinct;
        val_len95 = p95 fs.val_lens;
        priority = not (is_empty logical) && is_priority logical;
      }

  -- The filters of a field that is no priority.
  unfoldable pub worth_column : Cand → FieldStat → Bool
  worth_column c fs =
      not (less c.presence min_presence_ratio)
      && not (ltb c.distinct min_distinct)
      && not (ltb max_val_len95 c.val_len95)
      && not (ltb 0 c.distinct && leb c.distinct (fs.id_like * 2))

  -- The one candidate of a logical id that is kept.
  unfoldable pub keep_best : Cand → List (Bytes × Cand) → List (Bytes × Cand)
  keep_best c best = elim (lookup c.logical best) [
    | none ↦ insert c.logical c best
    | some prev ↦ if less prev.presence c.presence then insert c.logical c best else best
  ]

  -- One round of the first pass, on bestPerLogical and nonPriority.
  unfoldable pub pick :
      Groups
      → ℕ
      → Bytes
      → FieldStat
      → List (Bytes × Cand) × List Cand
      → List (Bytes × Cand) × List Cand
  unfolding candidate worth_column keep_best
  pick groups n raw fs (best, non_priority) =
      let c = candidate groups n raw fs in
      if not c.priority && ltb max_depth fs.depth
      then (best, non_priority)
      else if c.priority
      then if less c.presence priority_presence
        then (best, non_priority)
        else (keep_best c best, non_priority)
      else if worth_column c fs
      then (best, non_priority ++ c ∷ [])
      else (best, non_priority)

  unfoldable pub pick_all :
      Groups → ℕ → Stats → List (Bytes × Cand) × List Cand → List (Bytes × Cand) × List Cand
  unfolding pick
  pick_all groups n [] acc = acc
  pick_all groups n ((raw, fs) ∷ fields) acc = pick_all groups n fields (pick groups n raw fs acc)

  unfoldable pub leading : List Bytes → List (Bytes × Cand) → List Bytes
  leading [] best = []
  leading (p ∷ ps) best = elim (lookup p best) [
    | none ↦ leading ps best
    | some _ ↦ p ∷ leading ps best
  ]

  unfoldable pub score : ℕ → Cand → F
  score n c = times c.presence (log (over (of_int n) (of_int c.distinct)))

  -- The test of the sort.
  unfoldable pub ranks_before : ℕ → Cand → Cand → Bool
  unfolding score
  ranks_before n a b =
      if same_value (score n a) (score n b)
      then bytes_lt a.raw b.raw
      else less (score n b) (score n a)

  -- The last loop.
  unfoldable pub fill : List Cand → List Bytes → List Bytes
  fill [] out = out
  fill (c ∷ cs) out = elim (leb top_k (length out)) [
    | true ↦ out
    | false ↦ fill cs (out ++ c.logical ∷ [])
  ]

  unfoldable pub recommend : Groups → Sampler → List Bytes
  unfolding pick_all leading ranks_before fill
  recommend groups s =
      if s.n == 0
      then []
      else (let picked = pick_all groups s.n s.fields ([], []) in
          fill (sort_stable (ranks_before s.n) (picked.1)) (leading priorities (picked.0)))
