-- ===== src/Detect/Bounds.antt =====
-- The bounds of a field's statistics, and the keys of the sampler's map.
use loggi.Prelude.{
  All-insert, ℕ, ◌+◌, ◌≤◌, ◌<◌, ◌≡◌, ◌≢◌, refl, sym, subst, false, not, ◌&&◌, some, List, [], ◌∷◌,
  ◌++◌, ltb, lookup, insert, lookup-insert, length, length-append, min, filter, arith, if_cases,
  All, Pairs,
}
use loggi.Text.{Bytes, str_eq, str_eq_iff, bytes_eq}
use loggi.Source.Aliases.{has}
use loggi.Detect.Sampler.{
  FieldStat, Stats, looks_like_id, new_stat, stat_of, count_field, add_distinct, add_length,
  update_stat, add_value, distinct_cap, max_val_len, max_depth,
}

-- The bounds of one field's statistics.
pub record IsStat (fs : FieldStat) : Type 0 where
  pub few : length fs.distinct ≤ distinct_cap
  pub once : Pairs ◌≢◌ fs.distinct
  pub ids : fs.id_like ≡ length (filter looks_like_id fs.distinct)
  pub lens : All (λ l. (0 < l) × (l ≤ max_val_len)) fs.val_lens
  pub counted : (length fs.val_lens ≤ fs.count) × (length fs.distinct ≤ fs.count)
  pub shallow : fs.depth ≤ max_depth + 2

pub record IsStats (m : Stats) : Type 0 where
  pub stats : All (λ e. IsStat (e.1)) m
  pub keys : Pairs (λ e f. e.0 ≢ f.0) m

-- The statistics before the value of the row at hand is added.
pub record IsCounted (fs : FieldStat) : Type 0 where
  pub stat : IsStat fs
  pub room : (length fs.val_lens < fs.count) × (length fs.distinct < fs.count)

new_stat-IsStat : IsStat new_stat
unfolding new_stat
new_stat-IsStat = record {
  few = omega arith;
  once = tt;
  ids = refl;
  lens = tt;
  counted = (omega arith, omega arith);
  shallow = omega arith;
}

pub count_field-IsCounted :
    (depth : ℕ) (fs : FieldStat)
    → depth ≤ max_depth + 2
    → IsStat fs
    → IsCounted (count_field depth fs)
unfolding count_field
count_field-IsCounted depth fs h v = record {
  stat = record {
    few = v.few;
    once = v.once;
    ids = v.ids;
    lens = v.lens;
    counted = (omega (arith, v.counted.0), omega (arith, v.counted.1));
    shallow = omega (arith, v.shallow);
  };
  room = (omega (arith, v.counted.0), omega (arith, v.counted.1));
}

ne_of_has : (val : Bytes) (l : List Bytes) → has val l ≡ false → All (λ x. val ≢ x) l
unfolding has
ne_of_has val [] h = tt
ne_of_has val (x ∷ l) h =
    (λ e. ground (arith, (str_eq_iff x val).1 (sym e)), ne_of_has val l (ground arith))

-- `lens` and `length val_lens` are kept.
add_distinct-IsStat : (val : Bytes) (fs : FieldStat) → IsCounted fs → IsStat (add_distinct val fs)
unfolding add_distinct
add_distinct-IsStat val fs v =
    if_cases IsStat (not (has val fs.distinct) && ltb (length fs.distinct) distinct_cap) _ _
      (λ h. record {
        few = ground arith;
        once = (ne_of_has val fs.distinct (ground arith), v.stat.once);
        ids = ground (arith, v.stat.ids);
        lens = v.stat.lens;
        counted = (v.stat.counted.0, omega (arith, v.room.1));
        shallow = v.stat.shallow;
      })
      λ h. v.stat

add_distinct_rest :
    (val : Bytes) (fs : FieldStat)
    → ((add_distinct val fs).val_lens ≡ fs.val_lens) × ((add_distinct val fs).count ≡ fs.count)
unfolding add_distinct
add_distinct_rest val fs =
    if_cases (λ (g : FieldStat). (g.val_lens ≡ fs.val_lens) × (g.count ≡ fs.count)) _ _ _
      (λ h. (refl, refl)) λ h. (refl, refl)

All-append : {A : Type 0} (P : A → Type 0) (l m : List A) → All P l → All P m → All P (l ++ m)
All-append P [] m h k = k
All-append P (x ∷ l) m (p, h) k = (p, All-append P l m h k)

add_length-IsStat :
    (val : Bytes) (fs : FieldStat)
    → IsStat fs
    → length fs.val_lens < fs.count
    → IsStat (add_length val fs)
unfolding add_length
add_length-IsStat val fs v room =
    if_cases IsStat (ltb 0 (length val)) _ _
      (λ h. record {
        few = v.few;
        once = v.once;
        ids = v.ids;
        lens = All-append _ fs.val_lens _ v.lens ((ground arith, omega arith), tt);
        counted = (
          omega (arith, length-append {0} fs.val_lens (min (length val) max_val_len ∷ [])),
          v.counted.1,
        );
        shallow = v.shallow;
      })
      λ h. v

pub add_value-IsStat : (val : Bytes) (fs : FieldStat) → IsCounted fs → IsStat (add_value val fs)
unfolding add_value
add_value-IsStat val fs v =
    let (same_lens, same_count) = add_distinct_rest val fs in
    add_length-IsStat val _ (add_distinct-IsStat val fs v) (rw (same_lens, same_count) (v.room.0))

insert-keys :
    (k : Bytes) (fs : FieldStat) (m : Stats)
    → Pairs (λ e f. e.0 ≢ f.0) m
    → Pairs (λ e f. e.0 ≢ f.0) (insert k fs m)
insert-keys k fs [] h = (tt, tt)
insert-keys k fs ((j, gs) ∷ m) (p, h) =
    if_cases (Pairs (λ (e f : Bytes × FieldStat). e.0 ≢ f.0)) (str_eq j k) _ _
      (λ e. (subst (λ t. All (λ f. t ≢ f.0) m) ((str_eq_iff j k).0 e) p, h))
      λ e. (
        All-insert (λ f. j ≢ f.0) k fs m (λ q. ground (arith, (str_eq_iff j k).1 q)) p,
        insert-keys k fs m h,
      )

lookup-All :
    (P : FieldStat → Type 0) (k : Bytes) (m : Stats)
    → P new_stat
    → All (λ e. P (e.1)) m
    → P (stat_of (lookup k m))
unfolding stat_of
lookup-All P k [] d h = d
lookup-All P k ((j, gs) ∷ m) d (p, h) =
    if_cases (λ o. P (stat_of o)) (str_eq j k) _ _ (λ e. p) λ e. lookup-All P k m d h

pub update_stat-IsStats :
    (f : FieldStat → FieldStat) (k : Bytes) (m : Stats)
    → ((fs : FieldStat) → IsStat fs → IsStat (f fs))
    → IsStats m
    → IsStats (update_stat f k m)
unfolding update_stat
update_stat-IsStats f k m keep v = record {
  stats =
      All-insert (λ e. IsStat (e.1)) k _ m (keep _ (lookup-All IsStat k m new_stat-IsStat v.stats))
        v.stats;
  keys = insert-keys k _ m v.keys;
}

insert-insert :
    (k : Bytes) (fs gs : FieldStat) (m : Stats) → insert k gs (insert k fs m) ≡ insert k gs m
insert-insert k fs gs [] = ground (arith, (str_eq_iff k k).1 refl)
insert-insert k fs gs ((j, hs) ∷ m) =
    ground (arith, (str_eq_iff k k).1 refl, insert-insert k fs gs m)

-- Two updates of an entry are one.
pub update_stat_twice :
    (f g : FieldStat → FieldStat) (k : Bytes) (m : Stats)
    → update_stat f k (update_stat g k m) ≡ update_stat (λ fs. f (g fs)) k m
unfolding update_stat stat_of
update_stat_twice f g k m =
    let new : FieldStat = g (stat_of (lookup k m)) in
    let found : lookup k (insert k new m) ≡ some new =
      ground (arith, lookup-insert k k new m, (str_eq_iff k k).1 refl) in
    rw found (insert-insert k new (f new) m)
