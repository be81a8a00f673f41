-- ===== src/Store/Ring/Ingest.antt =====
-- internal/store/store.go: Append, from a row of JSON or a line of text to the columns, the pairs of
-- rare keys and the payloads.
use Prim.Native.Nat.{bit_and}
use loggi.Prelude.{
  ℕ, ◌+◌, ◌*◌, Bool, true, false, not, ◌&&◌, Option, none, some, List, [], ◌∷◌, ◌++◌, ◌==◌, ltb,
  leb, if◌then◌else◌, length, get_elem?, list_eq, nat_eq, lookup, insert, is_empty, ◌>>=◌,
}
use loggi.Source.Levels.{RawObject, extract_level}
use loggi.Store.Blob.{BlobSlab, put}
use loggi.Store.Column.{new_column, put_at, set_f64}
use loggi.Store.Column.Write.{set_string}
use loggi.Store.Intern.{Interner, u32, intern}
use loggi.Store.Ring.{Engine, Ring, u64, evict_row}
use loggi.Store.Types.{ColumnKind, col_dict, col_f64}
use loggi.Text.{Bytes, codes, str_eq}

pub record AppendInput (Float : Type 0) : Type 0 where
  pub source_id : ℕ
  pub ts : Float
  pub json : Option Bytes
  pub text : Bytes
  pub ansi_blob : Bytes
  pub level : Bytes

abbrev pub large_string_threshold : ℕ
large_string_threshold = 256

abbrev pub promote_cnt_max : ℕ
promote_cnt_max = 1024

-- `len(raw) > 0 && raw[0] == '"'`
abbrev pub is_quoted : Bytes → Bool
is_quoted [] = false
is_quoted (c ∷ raw) = c == b'"'

-- The counters of keys, with a key counted once more unless it is one too many.
unfoldable pub tally : Bytes → List (Bytes × ℕ) → List (Bytes × ℕ)
tally key cnts = elim (lookup key cnts) [
  | some n ↦ insert key (u32 (n + 1)) cnts
  | none ↦ if ltb (length cnts) promote_cnt_max then insert key 1 cnts else cnts
]

abbrev pub count_of : Bytes → List (Bytes × ℕ) → ℕ
count_of key cnts = elim (lookup key cnts) [ none ↦ 0 | some n ↦ n ]

-- `rows >= 64 && uint64(cnt)*100 >= rows*uint64(promoteThresh*100) && cnt >= 32`
unfoldable pub is_promoted : ℕ → ℕ → Bool
is_promoted rows cnt = leb 64 rows && leb (u64 (rows * 50)) (u64 (cnt * 100)) && leb 32 cnt

module _ (e : Engine) where
  open e use {lib, roaring, hash, json}

  -- `s.hot[name].SetF64(idx, v)`
  unfoldable pub set_hot_f64 : Bytes → ℕ → lib.Float → Ring e → Option (Ring e)
  unfolding set_f64
  set_hot_f64 name idx v s = lookup name s.hot >>= λ c.
      set_f64 lib.Float lib.zero_float roaring idx v c >>= λ c'.
      some (record s { hot = insert name c' s.hot })

  -- `s.hot[name].SetString(idx, seq, str, s.intern)`
  unfoldable pub set_hot_string : Bytes → ℕ → ℕ → Bytes → Ring e → Option (Ring e)
  unfolding set_string
  set_hot_string name idx seq str s = lookup name s.hot >>= λ c.
      set_string lib.Float lib.zero_float roaring hash idx seq str c s.interner >>= λ r.
      some (record s { hot = insert name r.1.0 s.hot; interner = r.1.1 })

  -- The text of a raw value: a string's own, or else the raw bytes.
  unfoldable pub raw_text : Bytes → Bytes
  raw_text raw = if is_quoted raw then elim (json.text raw) [ none ↦ raw | some str ↦ str ] else raw

  -- setColumnFromRawLocked
  unfoldable pub set_column_from_raw : Bytes → ℕ → ℕ → Bytes → Ring e → Option (Ring e)
  unfolding set_hot_string raw_text
  set_column_from_raw name idx seq raw s = set_hot_string name idx seq (raw_text raw) s

  -- routeFieldToColumnLocked
  unfoldable pub route_field : ColumnKind → Bytes → ℕ → ℕ → Bytes → Ring e → Option (Ring e)
  unfolding set_hot_f64 set_column_from_raw
  route_field col_f64 name idx seq raw s = elim (json.float raw) [
    | none ↦ some s
    | some f ↦ set_hot_f64 name idx f s
  ]
  route_field _ name idx seq raw s = set_column_from_raw name idx seq raw s

  -- The value of a rare key: the id of its text or of its payload.
  unfoldable pub tail_value : Bytes → Interner → BlobSlab → Option (ℕ × Bool × Interner × BlobSlab)
  unfolding raw_text
  tail_value raw st b =
      if not (leb large_string_threshold (length raw)) && is_quoted raw
      then (intern hash (raw_text raw) st >>= λ v. some (v.0, false, v.1, b))
      else (put hash raw b >>= λ v. some (v.0, true, st, v.1))

  -- appendTailKVLocked
  unfoldable pub append_tail_kv : ℕ → Bytes → Bytes → Ring e → Option (Ring e)
  unfolding tail_value put_at
  append_tail_kv idx key raw s = intern hash key s.interner >>= λ k.
      tail_value raw k.1 s.blobs >>= λ v. get_elem? s.tail_kv idx >>= λ kvs.
      put_at idx (kvs ++ record { key_id = k.0; val_id = v.0; is_blob = v.1 } ∷ []) s.tail_kv
      >>= λ tail_kv. some (record s { interner = v.2; blobs = v.3; tail_kv = tail_kv })

  -- maybePromoteAndIngestLocked, for a key that has no column.
  unfoldable pub maybe_promote : ℕ → ℕ → Bytes → Bytes → Ring e → Option (Ring e)
  unfolding tally is_promoted route_field append_tail_kv
  maybe_promote idx seq key raw s =
      let s' : Ring e = record s { promo_cnt = tally key s.promo_cnt } in
      if is_promoted s'.rows_seen (count_of key s'.promo_cnt)
      then route_field col_dict key idx seq raw (record s' {
        hot = insert key (new_column lib.Float lib.zero_float roaring col_dict s'.cap) s'.hot;
      })
      else append_tail_kv idx key raw s'

  -- A field that is not a number `ts`.
  unfoldable pub ingest_other : ℕ → ℕ → Bytes → Bytes → Ring e → Option (Ring e)
  unfolding route_field maybe_promote
  ingest_other idx seq key raw s = elim (lookup key s.hot) [
    | some c ↦ route_field c.kind key idx seq raw s
    | none ↦ maybe_promote idx seq key raw s
  ]

  -- ingestFieldLocked
  unfoldable pub ingest_field : ℕ → ℕ → Bytes → Bytes → Ring e → Option (Ring e)
  unfolding ingest_other
  ingest_field idx seq key raw s =
      if str_eq key (codes "ts")
      then elim (json.float raw) [
        | some f ↦ set_hot_f64 (codes "ts") idx f s
        | none ↦ ingest_other idx seq key raw s
      ]
      else ingest_other idx seq key raw s

  unfoldable pub ingest_fields : ℕ → ℕ → RawObject → Ring e → Option (Ring e)
  unfolding ingest_field
  ingest_fields idx seq [] s = some s
  ingest_fields idx seq ((k, raw) ∷ obj) s =
      ingest_field idx seq k raw s >>= ingest_fields idx seq obj

  -- `if text != "" { s.hot[name].SetString(idx, seq, text, s.intern) }`
  unfoldable pub set_unless_empty : Bytes → ℕ → ℕ → Bytes → Ring e → Option (Ring e)
  unfolding set_hot_string
  set_unless_empty name idx seq text s =
      if is_empty text then some s else set_hot_string name idx seq text s

  unfoldable pub keep_ansi : ℕ → Bytes → Ring e → Option (Ring e)
  unfolding put_at
  keep_ansi idx ansi_bytes s =
      if is_empty ansi_bytes
      then some s
      else (put hash ansi_bytes s.blobs >>= λ b.
          put_at idx b.0 s.ansi >>= λ ansi. some (record s { blobs = b.1; ansi = ansi }))

  -- appendTextLocked
  unfoldable pub append_text : ℕ → ℕ → Bytes → Bytes → Bytes → Ring e → Option (Ring e)
  unfolding keep_ansi set_hot_string set_unless_empty put_at
  append_text idx seq line ansi_bytes level_hint s = put_at idx true s.text_mode >>= λ text_mode.
      keep_ansi idx ansi_bytes (record s { text_mode = text_mode }) >>= λ s'.
      set_hot_string (codes "msg") idx seq line s'
      >>= set_unless_empty (codes "level") idx seq level_hint

  -- appendJSONLocked
  unfoldable pub append_json : ℕ → ℕ → Bytes → Ring e → Option (Ring e)
  unfolding append_text ingest_fields set_unless_empty put_at
  append_json idx seq raw s = elim (json.raw_object raw) [
    | none ↦ append_text idx seq raw [] [] s
    | some obj ↦ put_at idx false s.text_mode >>= λ text_mode.
        ingest_fields idx seq obj (record s { text_mode = text_mode }) >>= λ s'.
        set_unless_empty (codes "level") idx seq (extract_level lib json obj) s' >>= λ s''.
        some (record s'' { rows_seen = u64 (s''.rows_seen + 1) })
  ]

  unfoldable pub append_line : ℕ → ℕ → AppendInput lib.Float → Ring e → Option (Ring e)
  unfolding append_json append_text
  append_line idx seq input s = elim input.json [
    | some raw ↦ append_json idx seq raw s
    | none ↦ append_text idx seq input.text input.ansi_blob input.level s
  ]

  -- The row of Append: `ts` is the time that the row is given.
  unfoldable pub append_row : ℕ → ℕ → lib.Float → AppendInput lib.Float → Ring e → Option (Ring e)
  unfolding evict_row set_hot_f64 append_line put_at
  append_row idx seq ts input s = evict_row e idx (record s { head = u64 (seq + 1) }) >>= λ s'.
      put_at idx input.source_id s'.source_id >>= λ source_id.
      set_hot_f64 (codes "ts") idx ts (record s' { source_id = source_id })
      >>= append_line idx seq input

  -- Append at the time `now`, with the sequence id that it returns
  unfoldable pub append : lib.Float → AppendInput lib.Float → Ring e → Option (ℕ × Ring e)
  unfolding append_row
  append now input s =
      let ts =
        if lib.float_le input.ts lib.zero_float && lib.float_le lib.zero_float input.ts
        then now
        else input.ts in
      if s.closed
      then some (0, s)
      else (append_row (bit_and s.head s.mask) s.head ts input s >>= λ s'. some (s.head, s'))
