-- ===== src/Store/Column/Values.antt =====
-- internal/store/column.go: what the rows of a dictionary column read back after SetString.
use loggi.Prelude.{
  ℕ, ◌≡◌, ◌≢◌, refl, sym, ap, ◌∙◌, Bool, true, none, some, List, [], subst, get_elem?, set,
  get_elem?-set_self, get_elem?-set_ne, lt-length_of_get_elem?,
}
use loggi.Store.Bitmap.{Roaring}
use loggi.Store.Column.{Column, DictSlot, get_kind, get_string, set_id, put_at}
use loggi.Store.Column.Write.{set_entry, index_row}
use loggi.Store.Intern.{Interner, get}
use loggi.Store.Intern.Valid.{Holds, IsValid}
use loggi.Store.Intern.Texts.{get-Holds}
use loggi.Store.Types.{col_dict}
use loggi.Text.{Bytes}

-- A write in range.
pub put_at_lem :
    {A : Type 0} (idx : ℕ) (old v : A) (xs : List A)
    → get_elem? xs idx ≡ some old
    → put_at idx v xs ≡ some (set xs idx v)
unfolding put_at
put_at_lem idx old v xs h = rw (h, put_at) refl

module _ (Float : Type 0) (zero_float : Float) (roaring : Roaring) where
  -- A row of a dictionary column shows a text.
  pub record Shows (c : Column Float zero_float roaring) (st : Interner) (idx : ℕ) (t : Bytes)
      : Type 0 where
    pub kind : c.kind ≡ col_dict
    pub here : get_elem? c.presence idx ≡ some true
    pub id : ℕ
    pub at : get_elem? c.ids idx ≡ some id
    pub slot : DictSlot
    pub found : get_elem? c.dict id ≡ some slot
    pub live : slot.live ≡ true
    pub refs : ℕ
    pub text : Holds st slot.intern_id t refs

  pub get_string-Shows :
      (hash : Bytes → ℕ) (c : Column Float zero_float roaring) (st : Interner) (idx : ℕ) (t : Bytes)
      → IsValid hash st
      → Shows c st idx t
      → get_string Float zero_float roaring idx c st ≡ some t
  unfolding get_string
  get_string-Shows hash c st idx t v h =
      rw (h.here, get_string)
        (rw (h.kind, get_string)
          (rw (h.at, get_kind)
            (subst (λ o. (elim o [ none ↦ some [] | some x ↦ get st x.intern_id ]) ≡ some t)
              (sym h.found) (get-Holds hash st h.slot.intern_id t h.refs v h.text))))

  -- The entries that rows show keep their texts.
  pub record Keeps (c : Column Float zero_float roaring) (st : Interner)
      (c' : Column Float zero_float roaring) (st' : Interner) : Type 0 where
    pub kind : c'.kind ≡ c.kind
    pub ids : c'.ids ≡ c.ids
    pub presence : c'.presence ≡ c.presence
    pub rows :
        (k : ℕ) (x : DictSlot)
        → get_elem? c.dict k ≡ some x
        → x.live ≡ true
        → (y : DictSlot) × (get_elem? c'.dict k ≡ some y)
          × (y.live ≡ true)
          × (x.intern_id ≡ y.intern_id)
    pub texts : (j : ℕ) (t : Bytes) (r : ℕ) → Holds st j t r → (q : ℕ) × Holds st' j t q

  Shows-Keeps :
      (c c' d : Column Float zero_float roaring) (st st' : Interner) (j : ℕ) (t : Bytes)
      → Keeps c st c' st'
      → d.kind ≡ c'.kind
      → d.dict ≡ c'.dict
      → get_elem? d.ids j ≡ get_elem? c'.ids j
      → get_elem? d.presence j ≡ get_elem? c'.presence j
      → Shows c st j t
      → Shows d st' j t
  Shows-Keeps c c' d st st' j t k kind dict ids presence h =
      let (y, found, live, same) = k.rows h.id h.slot h.found h.live in
      let (q, text) = k.texts h.slot.intern_id t h.refs h.text in
      record {
        kind = kind ∙ k.kind ∙ h.kind;
        here = presence ∙ ap (λ xs. get_elem? xs j) k.presence ∙ h.here;
        id = h.id;
        at = ids ∙ ap (λ xs. get_elem? xs j) k.ids ∙ h.at;
        slot = y;
        found = ap (λ xs. get_elem? xs h.id) dict ∙ found;
        live = live;
        refs = q;
        text = subst (λ i. Holds st' i t q) same text;
      }

  -- The column after a row is given the entry `id`.
  abbrev pub with_row :
      ℕ → ℕ → ℕ → Column Float zero_float roaring → Column Float zero_float roaring
  with_row idx seq id c =
      index_row Float zero_float roaring id seq
        (record c { ids = set c.ids idx id; presence = set c.presence idx true })

  pub set_entry_lem :
      (c : Column Float zero_float roaring) (idx seq id w : ℕ) (b : Bool)
      → get_elem? c.ids idx ≡ some w
      → get_elem? c.presence idx ≡ some b
      → set_entry Float zero_float roaring idx seq id c ≡ some (with_row idx seq id c)
  unfolding set_entry set_id
  set_entry_lem c idx seq id w b e f =
      rw (put_at_lem idx w id c.ids e, set_entry)
        (rw (put_at_lem idx b true c.presence f, set_entry) refl)

  -- What SetString gives: the row shows the text, and all other rows show what they did.
  pub record Written (c : Column Float zero_float roaring) (st : Interner) (idx : ℕ) (t : Bytes)
      (c' : Column Float zero_float roaring) (st' : Interner) : Type 0 where
    pub shown : Shows c' st' idx t
    pub others : (j : ℕ) (u : Bytes) → j ≢ idx → Shows c st j u → Shows c' st' j u

  pub with_row-Written :
      (c c' : Column Float zero_float roaring) (st st' : Interner) (idx seq id w : ℕ) (b : Bool)
      (t : Bytes) (sl : DictSlot) (r : ℕ)
      → Keeps c st c' st'
      → c.kind ≡ col_dict
      → get_elem? c.ids idx ≡ some w
      → get_elem? c.presence idx ≡ some b
      → get_elem? c'.dict id ≡ some sl
      → sl.live ≡ true
      → Holds st' sl.intern_id t r
      → Written c st idx t (with_row idx seq id c') st'
  unfolding index_row
  with_row-Written c c' st st' idx seq id w b t sl r k kind e f found live text = record {
    shown = record {
      kind = k.kind ∙ kind;
      here =
          get_elem?-set_self c'.presence idx true
            (rw k.presence (lt-length_of_get_elem? c.presence idx b f));
      id = id;
      at = get_elem?-set_self c'.ids idx id (rw k.ids (lt-length_of_get_elem? c.ids idx w e));
      slot = sl;
      found = found;
      live = live;
      refs = r;
      text = text;
    };
    others = λ j u ne h.
        Shows-Keeps c c' (with_row idx seq id c') st st' j u k refl refl
          (get_elem?-set_ne c'.ids idx j id (λ p. ne (sym p)))
          (get_elem?-set_ne c'.presence idx j true (λ p. ne (sym p))) h;
  }
