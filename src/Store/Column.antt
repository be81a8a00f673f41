-- ===== src/Store/Column.antt =====
-- internal/store/column.go: a column of the ring. A column is locked for the whole of each method, so
-- a method is one step on the column and the interner; `none` is a panic. The bits of `presence` are a
-- list of Booleans. A nil map is empty. The free list has its last entry first. The hash of texts (the
-- package xxhash), the bitmaps and the floats are parameters.
pub mod Write
pub mod Values
pub mod Places
pub mod Entries
pub mod Rows
use loggi.Prelude.{
  ℕ, zero, suc, ◌+◌, ◌-◌, ◌%◌, ◌^◌, Bool, true, false, not, ◌&&◌, ◌||◌, Option, none, some, List,
  [], ◌∷◌, ◌++◌, ◌==◌, ltb, leb, if◌then◌else◌, length, get_elem?, set, replicate, nat_eq, lookup,
  insert, delete, ◌>>=◌, is_empty,
}
use loggi.Store.Bitmap.{Roaring}
use loggi.Store.Intern.{Interner, u32, claim, get, retain, release, intern}
use loggi.Store.Types.{ColumnKind, col_dict, col_raw, col_f64}
use loggi.Text.{Bytes, str_eq}

pub record DictSlot : Type 0 where
  pub intern_id : ℕ
  pub hash : ℕ
  pub refs : ℕ
  pub live : Bool

abbrev pub dead_entry : DictSlot
dead_entry = record { intern_id = 0; hash = 0; refs = 0; live = false }

-- A write to a slice, which panics out of range.
unfoldable pub put_at : {A : Type 0} → ℕ → A → List A → Option (List A)
put_at idx v xs = elim (get_elem? xs idx) [ none ↦ none | some _ ↦ some (set xs idx v) ]

module _ (Float : Type 0) (zero_float : Float) (roaring : Roaring) where
  open roaring use {Bitmap, new, add}

  pub record Column : Type 0 where
    pub kind : ColumnKind
    pub ids : List ℕ
    pub floats : List Float
    pub presence : List Bool
    pub by_hash : List (ℕ × ℕ)
    pub dict : List DictSlot
    pub free : List ℕ
    pub bitmaps : List (ℕ × Bitmap)
    pub cardinality : ℕ
    pub max_dict : ℕ

  abbrev pub max_dict_default : ℕ
  max_dict_default = 16384

  unfoldable pub new_column : ColumnKind → ℕ → Column
  new_column kind cap = record {
    kind = kind;
    ids = elim kind [ col_f64 ↦ [] | _ ↦ replicate cap 0 ];
    floats = elim kind [ col_f64 ↦ replicate cap zero_float | _ ↦ [] ];
    presence = replicate cap false;
    by_hash = [];
    dict = elim kind [ col_dict ↦ dead_entry ∷ [] | _ ↦ [] ];
    free = [];
    bitmaps = [];
    cardinality = 0;
    max_dict = max_dict_default;
  }

  -- A column and the interner.
  abbrev pub Both : Type 0
  Both = Column × Interner

  -- The last row of a dictionary entry is gone.
  unfoldable pub drop_entry : ℕ → DictSlot → Column → Interner → Both
  drop_entry id s c st = (
    record c {
      by_hash = elim (lookup s.hash c.by_hash) [
        | none ↦ c.by_hash
        | some got ↦ if got == id then delete s.hash c.by_hash else c.by_hash
      ];
      bitmaps = delete id c.bitmaps;
      dict = set c.dict id (record s { refs = 0; live = false });
      cardinality = u32 (c.cardinality + (2 ^ 32 - 1));
      free = id ∷ c.free;
    },
    release s.intern_id st,
  )

  -- One row of a dictionary entry is gone.
  unfoldable pub release_entry : ℕ → DictSlot → Column → Interner → Both
  unfolding drop_entry
  release_entry id s c st =
      if s.refs == 0
      then (c, st)
      else if s.refs - 1 == 0
      then drop_entry id s c st
      else (record c { dict = set c.dict id (record s { refs = s.refs - 1 }) }, st)

  unfoldable pub release_id : ℕ → Column → Interner → Both
  unfolding release_entry
  release_id id c st =
      if id == 0
      then (c, st)
      else elim (get_elem? c.dict id) [ none ↦ (c, st) | some s ↦ release_entry id s c st ]

  unfoldable pub clear_row : ℕ → Column → Option Column
  unfolding put_at
  clear_row idx c = do
    presence ← put_at idx false c.presence
    some (record c { presence = presence })

  unfoldable pub evict_kind : ColumnKind → ℕ → Column → Interner → Option Both
  unfolding put_at release_id
  evict_kind col_dict idx c st = do
    id ← get_elem? c.ids idx
    let (c', st') = release_id id c st
    ids ← put_at idx 0 c'.ids
    some (record c' { ids = ids }, st')
  evict_kind col_raw idx c st = do
    id ← get_elem? c.ids idx
    ids ← put_at idx 0 c.ids
    some (record c { ids = ids }, release id st)
  evict_kind col_f64 idx c st = do
    floats ← put_at idx zero_float c.floats
    some (record c { floats = floats }, st)

  -- evictAtLocked
  unfoldable pub evict_at : ℕ → Column → Interner → Option Both
  unfolding clear_row evict_kind
  evict_at idx c st = do
    here ← get_elem? c.presence idx
    (if here
        then (evict_kind c.kind idx c st >>= λ e. clear_row idx e.0 >>= λ c'. some (c', e.1))
        else some (c, st))

  -- `c.ids[idx] = id; c.setPresent(idx)`
  unfoldable pub set_id : ℕ → ℕ → Column → Option Column
  unfolding put_at
  set_id idx id c = do
    ids ← put_at idx id c.ids
    presence ← put_at idx true c.presence
    some (record c { ids = ids; presence = presence })

  unfoldable pub set_f64 : ℕ → Float → Column → Option Column
  unfolding put_at
  set_f64 idx v c = do
    floats ← put_at idx v c.floats
    presence ← put_at idx true c.presence
    some (record c { floats = floats; presence = presence })

  unfoldable pub get_kind : ColumnKind → ℕ → Column → Interner → Option Bytes
  get_kind col_dict idx c st = do
    id ← get_elem? c.ids idx
    elim (get_elem? c.dict id) [ none ↦ some [] | some s ↦ get st s.intern_id ]
  get_kind col_raw idx c st = get_elem? c.ids idx >>= λ id. get st id
  get_kind col_f64 idx c st = some []

  unfoldable pub get_string : ℕ → Column → Interner → Option Bytes
  unfolding get_kind
  get_string idx c st = do
    here ← get_elem? c.presence idx
    if here then get_kind c.kind idx c st else some []

  unfoldable pub get_f64 : ℕ → Column → Option (Option Float)
  get_f64 idx c = do
    here ← get_elem? c.presence idx
    if here then (get_elem? c.floats idx >>= λ v. some (some v)) else some none

  -- BitmapForValue, for the hash of the value
  unfoldable pub bitmap_of_kind : ColumnKind → ℕ → Column → Option Bitmap
  bitmap_of_kind col_dict h c = lookup h c.by_hash >>= λ id. lookup id c.bitmaps
  bitmap_of_kind _ h c = none

  -- DistinctStrings, in the order in which the loop meets the bitmaps; `out` is what it has so far.
  unfoldable pub distinct_loop :
      ℕ
      → List (ℕ × Bitmap)
      → List (Bytes × Bitmap)
      → Column
      → Interner
      → Option (List (Bytes × Bitmap))
  distinct_loop limit [] out c st = some out
  distinct_loop limit ((id, bm) ∷ bms) out c st = elim (get_elem? c.dict id) [
    | none ↦ distinct_loop limit bms out c st
    | some s ↦ elim s.live [
      | false ↦ distinct_loop limit bms out c st
      | true ↦ elim (get st s.intern_id) [
        | none ↦ none
        | some v ↦ elim (ltb 0 limit && leb limit (suc (length out))) [
          | true ↦ some (out ++ (v, bm) ∷ [])
          | false ↦ distinct_loop limit bms (out ++ (v, bm) ∷ []) c st
        ]
      ]
    ]
  ]

  unfoldable pub distinct_strings : ℕ → Column → Interner → Option (List (Bytes × Bitmap))
  unfolding distinct_loop
  distinct_strings limit c st = elim c.kind [
    | col_dict ↦ distinct_loop limit c.bitmaps [] c st
    | _ ↦ some []
  ]

  module _ (hash : Bytes → ℕ) where
    unfoldable pub bitmap_for_value : Bytes → Column → Option Bitmap
    unfolding bitmap_of_kind
    bitmap_for_value s c = bitmap_of_kind c.kind (hash s) c
