-- ===== src/Store/Ring.antt =====
-- internal/store/store.go: the ring of rows. Append and the readers lock the store for their whole
-- body, so each is one step on the record `Ring`; `none` is a panic. The packages that the store uses
-- are the fields of `Engine`. A map's iteration order is the order of the list, and a decoded JSON
-- object is the list of its members in the order in which the loop meets them.
pub mod Ingest
pub mod Read
pub mod Frame
pub mod Window
pub mod Blank
pub mod Lines
pub mod Broadcast
use Prim.Native.Nat.{bit_and, bit_or}
use loggi.Prelude.{
  ℕ, suc, ◌+◌, ◌-◌, ◌/◌, ◌%◌, ◌^◌, Bool, true, false, Option, none, some, List, [], ◌∷◌, ◌==◌, ltb,
  if◌then◌else◌, get_elem?, set, replicate, list_eq, nat_eq, insert, ◌>>=◌, map,
}
use loggi.Filter.Reader.{Library}
use loggi.Source.Levels.{Decoder, RawObject}
use loggi.Store.Bitmap.{Roaring}
use loggi.Store.Blob.{BlobSlab, new_blob_slab, release_blob}
use loggi.Store.Column.{Column, new_column, evict_at, set_f64, put_at}
use loggi.Store.Intern.{Interner, new_interner, release}
use loggi.Store.Types.{ColumnKind, col_dict, col_f64}
use loggi.Text.{Bytes, codes, str_eq}

-- json.Marshal.
pub record Encoder (Float : Type 0) : Type 0 where
  pub encode_text : Bytes → Bytes
  pub encode_float : Float → Bytes
  pub encode_object : RawObject → Bytes

-- The packages that the store uses: roaring bitmaps, xxhash, encoding/json and the strings of Go.
pub record Engine : Type 1 where
  pub lib : Library
  pub roaring : Roaring
  pub hash : Bytes → ℕ
  pub json : Decoder (Library.Float lib)
  pub encoder : Encoder (Library.Float lib)

pub record KvPair : Type 0 where
  pub key_id : ℕ
  pub val_id : ℕ
  pub is_blob : Bool

-- A uint64.
abbrev pub u64 : ℕ → ℕ
u64 n = n % 2 ^ 64

abbrev pub default_cap : ℕ
default_cap = 524288

-- `n |= n >> k`
abbrev pub smear : ℕ → ℕ → ℕ
smear k n = bit_or n (n / 2 ^ k)

unfoldable pub next_pow2 : ℕ → ℕ
next_pow2 n =
    if n == 0
    then 1
    else u64 (smear 32 (smear 16 (smear 8 (smear 4 (smear 2 (smear 1 (n - 1)))))) + 1)

abbrev pub well_known_hot_fields : List Bytes
well_known_hot_fields =
    codes "ts"
    ∷ codes "level"
    ∷ codes "service"
    ∷ codes "env"
    ∷ codes "version"
    ∷ codes "msg"
    ∷ codes "caller"
    ∷ codes "callerFunc"
    ∷ codes "trace_id"
    ∷ []

module _ (e : Engine) where
  open e use {lib, roaring}

  abbrev pub Col : Type 0
  Col = Column lib.Float lib.zero_float roaring

  pub record Ring : Type 0 where
    pub cap : ℕ
    pub mask : ℕ
    pub head : ℕ
    pub tail : ℕ
    pub hot : List (Bytes × Col)
    pub tail_kv : List (List KvPair)
    pub source_id : List ℕ
    pub text_mode : List Bool
    pub ansi : List ℕ
    pub interner : Interner
    pub blobs : BlobSlab
    pub promo_cnt : List (Bytes × ℕ)
    pub rows_seen : ℕ
    pub closed : Bool

  hot_kind : Bytes → ColumnKind
  hot_kind k = if str_eq k (codes "ts") then col_f64 else col_dict

  hot_columns : ℕ → List Bytes → List (Bytes × Col)
  unfolding hot_kind
  hot_columns cap [] = []
  hot_columns cap (k ∷ ks) =
      insert k (new_column lib.Float lib.zero_float roaring (hot_kind k) cap) (hot_columns cap ks)

  ring_of : ℕ → Ring
  unfolding hot_columns new_interner new_blob_slab
  ring_of cap = record {
    cap = cap;
    mask = cap - 1;
    head = 0;
    tail = 0;
    hot = hot_columns cap well_known_hot_fields;
    tail_kv = replicate cap [];
    source_id = replicate cap 0;
    text_mode = replicate cap false;
    ansi = replicate cap 0;
    interner = new_interner;
    blobs = new_blob_slab;
    promo_cnt = [];
    rows_seen = 0;
    closed = false;
  }

  -- New
  unfoldable pub new_ring : ℕ → Ring
  unfolding ring_of next_pow2
  new_ring cap = ring_of (next_pow2 (if cap == 0 then default_cap else cap))

  unfoldable pub evict_columns :
      ℕ → List (Bytes × Col) → Interner → Option (List (Bytes × Col) × Interner)
  unfolding evict_at
  evict_columns idx [] st = some ([], st)
  evict_columns idx ((k, c) ∷ cols) st = evict_at lib.Float lib.zero_float roaring idx c st >>= λ e.
      evict_columns idx cols e.1 >>= λ rest. some ((k, e.0) ∷ rest.0, rest.1)

  unfoldable pub release_kvs : List KvPair → Interner → BlobSlab → Interner × BlobSlab
  release_kvs [] st b = (st, b)
  release_kvs (kv ∷ kvs) st b =
      let st' = release kv.key_id st in
      if kv.is_blob
      then release_kvs kvs st' (release_blob kv.val_id b)
      else release_kvs kvs (release kv.val_id st') b

  -- evictRowLocked
  unfoldable pub evict_row : ℕ → Ring → Option Ring
  unfolding evict_columns release_kvs put_at
  evict_row idx s = evict_columns idx s.hot s.interner >>= λ cols.
      get_elem? s.tail_kv idx >>= λ kvs.
      let (st, blobs) = release_kvs kvs cols.1 s.blobs in
      put_at idx [] s.tail_kv >>= λ tail_kv. get_elem? s.ansi idx >>= λ a.
      put_at idx 0 s.ansi >>= λ ansi. put_at idx 0 s.source_id >>= λ source_id.
      put_at idx false s.text_mode >>= λ text_mode. some (record s {
        hot = cols.0;
        interner = st;
        blobs = if a == 0 then blobs else release_blob a blobs;
        tail_kv = tail_kv;
        ansi = ansi;
        source_id = source_id;
        text_mode = text_mode;
        tail = if ltb s.cap s.head then s.head - s.cap else s.tail;
      })

  unfoldable pub close : Ring → Ring
  close s = record s { closed = true }
