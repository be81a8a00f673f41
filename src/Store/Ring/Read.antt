-- ===== src/Store/Ring/Read.antt =====
-- internal/store/store.go: the readers of a row (HotString, HotF64, SourceIDOfSeq, Materialize), and
-- Publish, which appends and tells the subscribers.
use Prim.Native.Nat.{bit_and}
use loggi.Prelude.{
  ℕ, Bool, true, false, ◌&&◌, ◌||◌, not, Option, none, some, List, [], ◌∷◌, ◌==◌, ltb, leb,
  if◌then◌else◌, get_elem?, list_eq, nat_eq, lookup, insert, is_empty, ◌>>=◌,
}
use loggi.Source.Levels.{RawObject}
use loggi.Store.Blob.{get_blob}
use loggi.Store.Column.{get_f64, get_string}
use loggi.Store.Intern.{get}
use loggi.Store.Ring.{Engine, KvPair, Col, Ring}
use loggi.Store.Ring.Ingest.{AppendInput, append}
use loggi.Store.Subscribers.{Registry, publish}
use loggi.Store.Types.{ColumnKind, MaterializedRow, col_f64}
use loggi.Text.{Bytes, codes, str_eq}

module _ (e : Engine) where
  open e use {lib, roaring, encoder}

  -- `seq < s.tail || seq >= s.head`
  abbrev pub is_gone : ℕ → Ring e → Bool
  is_gone seq s = ltb seq s.tail || leb s.head seq

  unfoldable pub source_id_of_seq : ℕ → Ring e → Option ℕ
  source_id_of_seq seq s =
      if is_gone seq s then some 0 else get_elem? s.source_id (bit_and seq s.mask)

  unfoldable pub hot_text : ColumnKind → ℕ → Col e → Ring e → Option Bytes
  hot_text col_f64 idx c s = some []
  hot_text _ idx c s = get_string lib.Float lib.zero_float roaring idx c s.interner

  unfoldable pub hot_string : ℕ → Bytes → Ring e → Option Bytes
  unfolding hot_text
  hot_string seq name s = if is_gone seq s then some [] else elim (lookup name s.hot) [
    | none ↦ some []
    | some c ↦ hot_text c.kind (bit_and seq s.mask) c s
  ]

  hot_float : ColumnKind → ℕ → Col e → Option (Option lib.Float)
  hot_float col_f64 idx c = get_f64 lib.Float lib.zero_float roaring idx c
  hot_float _ idx c = some none

  unfoldable pub hot_f64 : ℕ → Bytes → Ring e → Option (Option lib.Float)
  unfolding hot_float
  hot_f64 seq name s = if is_gone seq s then some none else elim (lookup name s.hot) [
    | none ↦ some none
    | some c ↦ hot_float c.kind (bit_and seq s.mask) c
  ]

  -- `if c := s.HotColumn(name); c != nil { ... = c.GetString(idx, s.intern) }`
  row_text : Bytes → ℕ → Ring e → Option Bytes
  row_text name idx s = elim (lookup name s.hot) [
    | none ↦ some []
    | some c ↦ get_string lib.Float lib.zero_float roaring idx c s.interner
  ]

  row_ts : ℕ → Ring e → Option lib.Float
  row_ts idx s = elim (lookup (codes "ts") s.hot) [
    | none ↦ some lib.zero_float
    | some c ↦ get_f64 lib.Float lib.zero_float roaring idx c >>= λ v.
        some (elim v [ none ↦ lib.zero_float | some f ↦ f ])
  ]

  -- The field of a column, if the row has one.
  column_field : ColumnKind → ℕ → Col e → Ring e → Option (Option Bytes)
  column_field col_f64 idx c s = get_f64 lib.Float lib.zero_float roaring idx c >>= λ v.
      some (elim v [ none ↦ none | some f ↦ some (encoder.encode_float f) ])
  column_field _ idx c s = get_string lib.Float lib.zero_float roaring idx c s.interner >>= λ v.
      some (if is_empty v then none else some (encoder.encode_text v))

  is_own_member : Bytes → Bool
  is_own_member name =
      str_eq name (codes "ts")
      || str_eq name (codes "level")
      || str_eq name (codes "service")
      || str_eq name (codes "msg")

  column_fields : ℕ → List (Bytes × Col e) → Ring e → RawObject → Option RawObject
  unfolding is_own_member column_field
  column_fields idx [] s fields = some fields
  column_fields idx ((name, c) ∷ cols) s fields = elim (is_own_member name) [
    | true ↦ column_fields idx cols s fields
    | false ↦ column_field c.kind idx c s >>= λ v. elim v [
      | none ↦ column_fields idx cols s fields
      | some raw ↦ column_fields idx cols s (insert name raw fields)
    ]
  ]

  kv_value : KvPair → Ring e → Option Bytes
  kv_value kv s =
      if kv.is_blob
      then some (get_blob s.blobs kv.val_id)
      else (get s.interner kv.val_id >>= λ v. some (encoder.encode_text v))

  kv_fields : List KvPair → Ring e → RawObject → Option RawObject
  unfolding kv_value
  kv_fields [] s fields = some fields
  kv_fields (kv ∷ kvs) s fields = get s.interner kv.key_id >>= λ key. elim (is_empty key) [
    | true ↦ kv_fields kvs s fields
    | false ↦ kv_value kv s >>= λ v. kv_fields kvs s (insert key v fields)
  ]

  row_ansi : Bool → ℕ → Ring e → Bytes
  row_ansi text a s = if text && not (a == 0) then get_blob s.blobs a else []

  -- The row at a ring index.
  materialize_row : ℕ → ℕ → Ring e → Option (MaterializedRow lib.Float)
  unfolding row_ts row_text row_ansi column_fields kv_fields
  materialize_row seq idx s = get_elem? s.source_id idx >>= λ source_id.
      get_elem? s.text_mode idx >>= λ text. row_ts idx s >>= λ ts.
      row_text (codes "level") idx s >>= λ level. row_text (codes "service") idx s >>= λ service.
      row_text (codes "msg") idx s >>= λ msg. get_elem? s.ansi idx >>= λ a.
      get_elem? s.tail_kv idx >>= λ kvs. column_fields idx s.hot s [] >>= λ fields.
      kv_fields kvs s fields >>= λ all. some (record {
        seq = seq;
        ts = ts;
        source_id = source_id;
        level = level;
        service = service;
        msg = msg;
        fields = if is_empty all then [] else encoder.encode_object all;
        ansi = row_ansi text a s;
        text = text;
      })

  -- Materialize; the inner `none` is nil.
  unfoldable pub materialize : ℕ → Ring e → Option (Option (MaterializedRow lib.Float))
  unfolding materialize_row
  materialize seq s =
      if is_gone seq s
      then some none
      else (materialize_row seq (bit_and seq s.mask) s >>= λ row. some (some row))

  -- Publish, on the ring and its subscribers
  unfoldable pub publish_row :
      lib.Float → AppendInput lib.Float → Ring e → Registry → Option (ℕ × Ring e × Registry)
  unfolding append publish
  publish_row now input s r = append e now input s >>= λ a. some (a.0, a.1, publish a.0 r)
