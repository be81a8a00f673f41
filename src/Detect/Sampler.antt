-- ===== src/Detect/Sampler.antt =====
-- Observing rows (internal/coldetect/sampler.go). encoding/json is the parameter `json`; a Go map is an
-- association list, a set of texts the list of its elements. Times are numbers of nanoseconds.
use loggi.Prelude.{
  ℕ, zero, suc, ◌+◌, ◌-◌, Bool, true, false, not, ◌&&◌, ◌||◌, Option, none, some, List, [], ◌∷◌,
  ◌++◌, ◌==◌, ltb, leb, lookup, insert, if◌then◌else◌, length, max, min,
}
use loggi.Text.{Bytes, bytes_eq}
use loggi.Source.Levels.{Decoder, RawObject}
use loggi.Source.Aliases.{has}

abbrev pub default_limit : ℕ
default_limit = 150

-- 30 seconds
abbrev pub default_timeout : ℕ
default_timeout = 30_000_000_000

abbrev pub distinct_cap : ℕ
distinct_cap = 64

abbrev pub max_val_len : ℕ
max_val_len = 256

abbrev pub max_depth : ℕ
max_depth = 2

pub record FieldStat : Type 0 where
  pub count : ℕ
  pub distinct : List Bytes
  pub val_lens : List ℕ
  pub depth : ℕ
  pub id_like : ℕ

abbrev pub Stats : Type 0
Stats = List (Bytes × FieldStat)

pub record Sampler : Type 0 where
  pub limit : ℕ
  pub deadline : ℕ
  pub n : ℕ
  pub fields : Stats

-- A limit or a timeout of 0 stands for any that is not positive.
unfoldable pub new : ℕ → ℕ → ℕ → Sampler
new now limit timeout = record {
  limit = if limit == 0 then default_limit else limit;
  deadline = now + (if timeout == 0 then default_timeout else timeout);
  n = 0;
  fields = [];
}

unfoldable pub deadline_passed : ℕ → Sampler → Bool
deadline_passed now s = ltb s.deadline now

unfoldable pub id_digit : ℕ → Bool
id_digit c = leb b'0' c && leb c b'9'

unfoldable pub id_hex : ℕ → Bool
unfolding id_digit
id_hex c = id_digit c || leb b'a' c && leb c b'f' || leb b'A' c && leb c b'F'

-- The loop of looksLikeID: `none` where it returns false, or the two flags at its end.
unfoldable pub scan_id : Bool → Bool → Bytes → Option (Bool × Bool)
unfolding id_digit id_hex
scan_id all_digit all_hex [] = some (all_digit, all_hex)
scan_id all_digit all_hex (c ∷ v) =
    let digits = all_digit && id_digit c in
    let hex = all_hex && id_hex c in
    let rest = scan_id digits hex v in if not digits && not hex then none else rest

unfoldable pub looks_like_id : Bytes → Bool
unfolding scan_id
looks_like_id v = if ltb (length v) 12 then false else elim (scan_id true true v) [
  | none ↦ false
  | some (all_digit, all_hex) ↦ if all_digit then true else all_hex && leb 16 (length v)
]

unfoldable pub new_stat : FieldStat
new_stat = record { count = 0; distinct = []; val_lens = []; depth = 0; id_like = 0 }

unfoldable pub stat_of : Option FieldStat → FieldStat
unfolding new_stat
stat_of none = new_stat
stat_of (some fs) = fs

-- `fs.count++` and the depth
unfoldable pub count_field : ℕ → FieldStat → FieldStat
count_field depth fs = record fs { count = suc fs.count; depth = max fs.depth depth }

-- The distinct values.
unfoldable pub add_distinct : Bytes → FieldStat → FieldStat
unfolding looks_like_id has
add_distinct val fs =
    if not (has val fs.distinct) && ltb (length fs.distinct) distinct_cap
    then record fs {
      distinct = val ∷ fs.distinct;
      id_like = if looks_like_id val then suc fs.id_like else fs.id_like;
    }
    else fs

-- The lengths of the values.
unfoldable pub add_length : Bytes → FieldStat → FieldStat
add_length val fs =
    if ltb 0 (length val)
    then record fs { val_lens = fs.val_lens ++ min (length val) max_val_len ∷ [] }
    else fs

-- `fs` is a pointer to the entry of the map.
unfoldable pub update_stat : (FieldStat → FieldStat) → Bytes → Stats → Stats
unfolding stat_of
update_stat f key m = insert key (f (stat_of (lookup key m))) m

-- What a leaf's value adds.
unfoldable pub add_value : Bytes → FieldStat → FieldStat
unfolding add_distinct add_length
add_value val fs = add_length val (add_distinct val fs)

-- `for ck, cv := range child`, in the order of the list.
unfoldable pub fold_object : (Bytes → Bytes → Stats → Stats) → RawObject → Stats → Stats
fold_object f [] m = m
fold_object f ((k, v) ∷ o) m = fold_object f o (f k v m)

module _ {Float : Type 0} (json : Decoder Float) where
  open json use {raw_object, text}

  unfoldable pub unwrap : Bytes → Bytes × Bool
  unwrap [] = ([], false)
  unwrap (c ∷ raw) =
      if c == b'{'
      then ([], true)
      else if c == b'"'
      then elim (text (c ∷ raw)) [ none ↦ (c ∷ raw, false) | some s ↦ (s, false) ]
      else (c ∷ raw, false)

  -- `levels` counts the levels below: the depth is max_depth + 2 - levels, so that there are some
  -- exactly when depth <= max_depth + 1.
  unfoldable pub fold_field : ℕ → Bytes → Bytes → Stats → Stats
  unfolding update_stat count_field add_value unwrap fold_object
  fold_field zero key raw m =
      update_stat (add_value (unwrap raw).0) key (update_stat (count_field (max_depth + 2)) key m)
  fold_field (suc levels) key raw m =
      let counted = update_stat (count_field (max_depth + 1 - levels)) key m in
      elim ((unwrap raw).1) [
        | true ↦ elim (raw_object raw) [
          | some child ↦
              fold_object (λ ck cv. fold_field levels (key ++ b'.' ∷ ck) cv) child counted
          | none ↦ update_stat (add_value (unwrap raw).0) key counted
        ]
        | false ↦ update_stat (add_value (unwrap raw).0) key counted
      ]

  -- The sampler after the row, and whether it is done.
  unfoldable pub observe : Bytes → Sampler → Sampler × Bool
  unfolding fold_field fold_object
  observe raw s = if leb s.limit s.n then (s, true) else elim (raw_object raw) [
    | none ↦ (s, false)
    | some obj ↦
        let n = suc s.n in
        (
          record s {
            n = n;
            fields = fold_object (λ k v. fold_field (max_depth + 1) k v) obj s.fields;
          },
          leb s.limit n,
        )
  ]
