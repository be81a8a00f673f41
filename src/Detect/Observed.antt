-- ===== src/Detect/Observed.antt =====
-- What holds of a sampler after any rows.
use loggi.Prelude.{
  ℕ, zero, suc, ◌+◌, ◌-◌, ◌≤◌, inl, inr, List, [], ◌∷◌, ◌++◌, leb, arith, Bool-cases, Option-cases,
}
use loggi.Text.{Bytes, bytes_eq}
use loggi.Source.Levels.{Decoder, RawObject}
use loggi.Detect.Sampler.{
  Stats, Sampler, new, count_field, update_stat, add_value, fold_object, unwrap, fold_field,
  observe, max_depth,
}
use loggi.Detect.Bounds.{
  IsStats, count_field-IsCounted, add_value-IsStat, update_stat-IsStats, update_stat_twice,
}

fold_object-IsStats :
    (f : Bytes → Bytes → Stats → Stats) (o : RawObject) (m : Stats)
    → ((k v : Bytes) (m : Stats) → IsStats m → IsStats (f k v m))
    → IsStats m
    → IsStats (fold_object f o m)
unfolding fold_object
fold_object-IsStats f [] m keep h = h
fold_object-IsStats f ((k, v) ∷ o) m keep h = fold_object-IsStats f o (f k v m) keep (keep k v m h)

module _ {Float : Type 0} (json : Decoder Float) where
  open json use {raw_object}

  count-IsStats :
      (depth : ℕ) (key : Bytes) (m : Stats)
      → depth ≤ max_depth + 2
      → IsStats m
      → IsStats (update_stat (count_field depth) key m)
  count-IsStats depth key m h v =
      update_stat-IsStats (count_field depth) key m
        (λ fs w. (count_field-IsCounted depth fs h w).stat) v

  leaf-IsStats :
      (depth : ℕ) (key val : Bytes) (m : Stats)
      → depth ≤ max_depth + 2
      → IsStats m
      → IsStats (update_stat (add_value val) key (update_stat (count_field depth) key m))
  leaf-IsStats depth key val m h v =
      rw (update_stat_twice (add_value val) (count_field depth) key m) (
        update_stat-IsStats _ key m
          (λ fs w. add_value-IsStat val _ (count_field-IsCounted depth fs h w)) v)

  fold_field-IsStats :
      (levels : ℕ) (key raw : Bytes) (m : Stats)
      → IsStats m
      → IsStats (fold_field json levels key raw m)
  unfolding fold_field
  fold_field-IsStats zero key raw m v = leaf-IsStats (max_depth + 2) key _ m (omega arith) v
  fold_field-IsStats (suc levels) key raw m v =
      let leaf =
        leaf-IsStats (max_depth + 1 - levels) key ((unwrap json raw).0) m (omega arith) v in
      elim (Bool-cases ((unwrap json raw).1)) [
        | inl p ↦ elim (Option-cases (raw_object raw)) [
          | inl q ↦ rw (p, q, fold_field) leaf
          | inr (child, q) ↦
              rw (p, q, fold_field)
                (fold_object-IsStats _ child _
                  (λ ck cv n w. fold_field-IsStats levels (key ++ b'.' ∷ ck) cv n w)
                  (count-IsStats (max_depth + 1 - levels) key m (omega arith) v))
        ]
        | inr p ↦ rw (p, fold_field) leaf
      ]

  pub record IsSampler (s : Sampler) : Type 0 where
    pub within : s.n ≤ s.limit
    pub fields : IsStats s.fields

  new-IsSampler : (now limit timeout : ℕ) → IsSampler (new now limit timeout)
  unfolding new
  new-IsSampler now limit timeout = record {
    within = omega arith;
    fields = record { stats = tt; keys = tt };
  }

  -- A row keeps the number of rows within the limit, the keys distinct, and for each field at most 64
  -- different values, of which `id_like` are identifiers, with lengths between 1 and 256, no more
  -- lengths and values than occurrences, and a depth of at most 4.
  pub observe-IsSampler :
      (raw : Bytes) (s : Sampler) → IsSampler s → IsSampler ((observe json raw s).0)
  unfolding observe
  observe-IsSampler raw s v = elim (Bool-cases (leb s.limit s.n)) [
    | inl p ↦ rw p v
    | inr p ↦ elim (Option-cases (raw_object raw)) [
      | inl q ↦ rw (p, q) v
      | inr (o, q) ↦
          rw (p, q)
            (record {
              within = ground arith;
              fields =
                  fold_object-IsStats _ o s.fields
                    (λ k w m h. fold_field-IsStats (max_depth + 1) k w m h) v.fields;
            })
    ]
  ]

  -- The rows of a source.
  unfoldable pub observe_all : List Bytes → Sampler → Sampler
  observe_all [] s = s
  observe_all (raw ∷ rows) s = observe_all rows ((observe json raw s).0)

  observe_all-keeps :
      (rows : List Bytes) (s : Sampler) → IsSampler s → IsSampler (observe_all rows s)
  unfolding observe_all
  observe_all-keeps [] s v = v
  observe_all-keeps (raw ∷ rows) s v = observe_all-keeps rows _ (observe-IsSampler raw s v)

  -- These bounds hold of a new sampler after any rows.
  pub observe_all-IsSampler :
      (now limit timeout : ℕ) (rows : List Bytes)
      → IsSampler (observe_all rows (new now limit timeout))
  observe_all-IsSampler now limit timeout rows =
      observe_all-keeps rows _ (new-IsSampler now limit timeout)
