-- ===== src/Store/Column/Write.antt =====
-- internal/store/column.go: SetString and the promotion of a column to raw ids.
use loggi.Prelude.{
  ℕ, zero, suc, ◌+◌, ◌-◌, Bool, true, false, not, ◌||◌, Option, none, some, List, [], ◌∷◌, ◌++◌,
  ◌==◌, ltb, if◌then◌else◌, length, get_elem?, set, nat_eq, lookup, insert, ◌>>=◌, is_empty,
}
use loggi.Store.Bitmap.{Roaring}
use loggi.Store.Intern.{Interner, u32, claim, get, retain, release, intern}
use loggi.Store.Types.{ColumnKind, col_dict, col_raw, col_f64}
use loggi.Text.{Bytes, str_eq}
use loggi.Store.Column.{DictSlot, Column, Both, put_at, set_id, evict_at}

module _ (Float : Type 0) (zero_float : Float) (roaring : Roaring) where
  open roaring use {Bitmap, new, add}

  abbrev Col : Type 0
  Col = Column Float zero_float roaring

  abbrev Change : Type 0
  Change = Both Float zero_float roaring

  unfoldable pub dict_equal : ℕ → Bytes → Col → Interner → Option Bool
  dict_equal id s c st = elim (get_elem? c.dict id) [
    | none ↦ some false
    | some sl ↦ if sl.live then (get st sl.intern_id >>= λ t. some (str_eq t s)) else some false
  ]

  -- `c.dict[id].refs++`
  unfoldable pub bump_entry : ℕ → Col → Option Col
  bump_entry id c = do
    s ← get_elem? c.dict id
    some (record c { dict = set c.dict id (record s { refs = u32 (s.refs + 1) }) })

  -- The id of a new entry: the last freed one, or the next.
  unfoldable pub place_entry : DictSlot → Col → Option (ℕ × Col)
  unfolding put_at
  place_entry s c = elim c.free [
    | [] ↦ some (u32 (length c.dict), record c { dict = c.dict ++ s ∷ [] })
    | id ∷ free ↦ put_at id s c.dict >>= λ dict. some (id, record c { dict = dict; free = free })
  ]

  -- `bm.Add(uint32(seq))` on the entry's bitmap, a new one if it has none.
  unfoldable pub index_row : ℕ → ℕ → Col → Col
  index_row id seq c = record c {
    bitmaps =
        insert id (add (u32 seq) (elim (lookup id c.bitmaps) [ none ↦ new | some bm ↦ bm ]))
          c.bitmaps;
  }

  unfoldable pub set_entry : ℕ → ℕ → ℕ → Col → Option Col
  unfolding set_id index_row
  set_entry idx seq id c = do
    c' ← set_id Float zero_float roaring idx id c
    some (index_row id seq c')

  -- A row of a dictionary entry is turned into one of the interner's ids.
  unfoldable pub promote_entry : ℕ → ℕ → DictSlot → Col → Interner → Option Change
  unfolding put_at
  promote_entry idx id s c st = do
    st' ← (if s.live then retain s.intern_id st else some st)
    ids ← put_at idx s.intern_id c.ids
    some (record c { ids = ids; dict = set c.dict id (record s { refs = s.refs - 1 }) }, st')

  -- The rows of promoteToRawLocked, `n` of them left.
  unfoldable pub promote_row : ℕ → Col → Interner → Option Change
  unfolding promote_entry
  promote_row idx c st = do
    here ← get_elem? c.presence idx
    id ← get_elem? c.ids idx
    (if not here || id == 0 then some (c, st) else elim (get_elem? c.dict id) [
      | none ↦ some (c, st)
      | some s ↦ promote_entry idx id s c st
    ])

  unfoldable pub promote_rows : ℕ → ℕ → Col → Interner → Option Change
  unfolding promote_row
  promote_rows zero idx c st = some (c, st)
  promote_rows (suc n) idx c st = promote_row idx c st >>= λ e. promote_rows n (suc idx) e.0 e.1

  unfoldable pub release_dict : List DictSlot → Interner → Interner
  release_dict [] st = st
  release_dict (s ∷ dict) st = release_dict dict (if s.live then release s.intern_id st else st)

  -- promoteToRawLocked, on a dictionary column
  unfoldable pub promote_to_raw : Col → Interner → Option Change
  unfolding promote_rows release_dict
  promote_to_raw c st = do
    (c', st') ← promote_rows (length c.ids) 0 c st
    some (
      record c' {
        kind = col_raw;
        by_hash = [];
        dict = [];
        free = [];
        bitmaps = [];
        cardinality = 0;
      },
      release_dict c'.dict st',
    )

  module _ (hash : Bytes → ℕ) where
    -- setRawLocked
    unfoldable pub set_raw : ℕ → Bytes → Col → Interner → Option (ℕ × Change)
    unfolding set_id
    set_raw idx s c st = do
      (id, st') ← intern hash s st
      c' ← set_id Float zero_float roaring idx id c
      some (id, (c', st'))

    -- A value that has no entry; with too many entries the column is promoted.
    unfoldable pub add_entry : ℕ → ℕ → Bytes → Col → Interner → Option (ℕ × Change)
    unfolding place_entry claim set_entry promote_to_raw set_raw
    add_entry idx seq s c st = do
      (intern_id, st') ← intern hash s st
      (id, c') ←
          place_entry (record { intern_id = intern_id; hash = hash s; refs = 1; live = true }) c
      let c'' : Col = record c' {
        by_hash = claim (hash s) id c'.by_hash;
        cardinality = u32 (c'.cardinality + 1);
      }
      (if ltb c''.max_dict c''.cardinality
          then (promote_to_raw c'' st' >>= λ e. set_raw idx s e.0 e.1)
          else (set_entry idx seq id c'' >>= λ d. some (id, (d, st'))))

    unfoldable pub set_dict : ℕ → ℕ → Bytes → Col → Interner → Option (ℕ × Change)
    unfolding dict_equal bump_entry set_entry add_entry
    set_dict idx seq s c st = elim (lookup (hash s) c.by_hash) [
      | none ↦ add_entry idx seq s c st
      | some id ↦ do
        same ← dict_equal id s c st
        (if same
            then (bump_entry id c >>= λ c'. set_entry idx seq id c' >>= λ c''. some (id, (c'', st)))
            else add_entry idx seq s c st)
    ]

    unfoldable pub set_kind : ColumnKind → ℕ → ℕ → Bytes → Col → Interner → Option (ℕ × Change)
    unfolding set_dict set_raw
    set_kind col_dict idx seq s c st = set_dict idx seq s c st
    set_kind col_raw idx seq s c st = set_raw idx s c st
    set_kind col_f64 idx seq s c st = some (0, (c, st))

    -- SetString, with the id that it returns
    unfoldable pub set_string : ℕ → ℕ → Bytes → Col → Interner → Option (ℕ × Change)
    unfolding evict_at set_kind
    set_string idx seq s c st = do
      (c', st') ← evict_at Float zero_float roaring idx c st
      (if is_empty s then some (0, (c', st')) else set_kind c'.kind idx seq s c' st')
