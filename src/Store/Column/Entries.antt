-- ===== src/Store/Column/Entries.antt =====
-- internal/store/column.go: SetString on a dictionary column, for a text with an entry and without.
use mathlib.Core.Option.{some-injective}
use native.Mathlib.Decide.{ℕ_discrete}
use loggi.Prelude.{
  ℕ, suc, ◌+◌, ◌-◌, ◌^◌, ◌≡◌, ◌<◌, refl, sym, ap, subst, ◌∙◌, Bool, true, false, Option, some, ◌∷◌,
  ltb, length, get_elem?, set, All, arith, ◌>>=◌,
}
use loggi.Store.Bitmap.{Roaring}
use loggi.Store.Column.{Column, DictSlot, Both}
use loggi.Store.Column.Write.{bump_entry, index_row, add_entry, set_entry}
use loggi.Store.Column.Values.{Keeps, Written, with_row, with_row-Written, set_entry_lem}
use loggi.Store.Intern.{Interner, InternSlot, u32, claim}
use loggi.Store.Intern.Placed.{Fits}
use loggi.Store.Intern.Valid.{Holds, Distinct, IsValid, Writes, Writes-set}
use loggi.Store.Intern.Texts.{Interned, intern_lem}
use loggi.Store.Types.{col_dict}
use loggi.Text.{Bytes}
use loggi.Store.Column.Places.{IsSpare-Writes, off_spare, Placed, place_entry_lem, IsSpare}

module _ (Float : Type 0) (zero_float : Float) (roaring : Roaring) where
  -- A dictionary column and the interner agree: a live entry leads to a text in use, a free id to an
  -- entry that is not live.
  pub record IsSound (c : Column Float zero_float roaring) (st : Interner) : Type 0 where
    pub kind : c.kind ≡ col_dict
    pub entries :
        (id : ℕ) (sl : DictSlot)
        → get_elem? c.dict id ≡ some sl
        → sl.live ≡ true
        → (t : Bytes) × (r : ℕ) × Holds st sl.intern_id t r
    pub spare : All (IsSpare c.dict) c.free
    pub distinct : Distinct c.free

  module _ (hash : Bytes → ℕ) where
    -- What SetString comes to, on a row that is empty.
    abbrev pub Sets :
        Column Float zero_float roaring
        → Interner
        → ℕ
        → Bytes
        → Option (ℕ × Both Float zero_float roaring)
        → Type 0
    Sets c st idx t o =
        (id : ℕ) × (c' : Column Float zero_float roaring) × (st' : Interner) × (o
          ≡ some (id, (c', st')))
        × Written Float zero_float roaring c st idx t c' st'
        × IsSound c' st'
        × IsValid hash st'

    kept_texts :
        (st st' : Interner) (s : Bytes) (id : ℕ)
        → Interned hash st s id st'
        → (j : ℕ) (t : Bytes) (r : ℕ) → Holds st j t r
        → (q : ℕ) × Holds st' j t q
    kept_texts st st' s id (r, new, same, others, _) j t q h = elim (ℕ_discrete j id) [
      | no ne ↦ (q, others j t q ne h)
      | yes p ↦
          let h' : Holds st id t q = subst (λ i. Holds st i t q) p h in
          (
            suc r,
            subst (λ i. Holds st' i t (suc r)) (sym p)
                (subst (λ u. Holds st' id u (suc r)) (sym (same t q h').0) new),
          )
    ]

    pub add_entry_lem :
        (c : Column Float zero_float roaring) (st : Interner) (idx seq w : ℕ) (b : Bool) (x : ℕ)
        (s : Bytes)
        → IsSound c st
        → IsValid hash st
        → Fits st (x ∷ s)
        → ((id : ℕ) (sl : InternSlot) → get_elem? st.slots id ≡ some sl → sl.refs < 2 ^ 32 - 1)
        → length c.dict < 2 ^ 32
        → c.cardinality < c.max_dict
        → c.max_dict < 2 ^ 32
        → get_elem? c.ids idx ≡ some w
        → get_elem? c.presence idx ≡ some b
        → Sets c st idx (x ∷ s) (add_entry Float zero_float roaring hash idx seq (x ∷ s) c st)
    unfolding add_entry
    add_entry_lem c st idx seq w b x s ok v fits small dict_small room max_small e f =
        let (iid, st', interned, v', new) = intern_lem hash x s st v fits small in
        let sl : DictSlot = record {
          intern_id = iid;
          hash = hash (x ∷ s);
          refs = 1;
          live = true;
        } in
        let p : Placed Float zero_float roaring c sl =
          place_entry_lem Float zero_float roaring c sl c.free refl ok.spare ok.distinct
            dict_small in
        let c' : Column Float zero_float roaring = record c {
          dict = p.dict;
          free = p.free;
          by_hash = claim (hash (x ∷ s)) p.id c.by_hash;
          cardinality = u32 (c.cardinality + 1);
        } in
        let below : ltb c.max_dict (u32 (c.cardinality + 1)) ≡ false = ground arith in
        let k : Keeps Float zero_float roaring c st c' st' = record {
          kind = refl;
          ids = refl;
          presence = refl;
          rows = λ j y g live. (y, p.writes.others j (p.fresh j y g live) ∙ g, live, refl);
          texts = kept_texts st st' (x ∷ s) iid new;
        } in
        (
          p.id,
          with_row Float zero_float roaring idx seq p.id c',
          st',
          rw (interned, add_entry)
              (rw (p.placed, add_entry)
                (rw (below, add_entry)
                  (rw (set_entry_lem Float zero_float roaring c' idx seq p.id w b e f, add_entry)
                    refl))),
          with_row-Written Float zero_float roaring c c' st st' idx seq p.id w b (x ∷ s) sl
              (suc new.0) k ok.kind e f p.writes.at refl new.1,
          record {
            kind = ok.kind;
            entries = λ i y g live. elim (ℕ_discrete i p.id) [
              | yes same ↦
                  let eq : sl ≡ y =
                    some-injective sl y (sym p.writes.at ∙ ap (get_elem? p.dict) (sym same) ∙ g) in
                  (
                    x ∷ s,
                    suc new.0,
                    subst (λ (z : DictSlot). Holds st' z.intern_id (x ∷ s) (suc new.0)) eq new.1,
                  )
              | no ne ↦
                  let (t, r, h) = ok.entries i y (sym (p.writes.others i ne) ∙ g) live in
                  let (q, h') = k.texts y.intern_id t r h in (t, q, h')
            ];
            spare = p.spare;
            distinct = p.distinct;
          },
          v',
        )

    -- The entry of the index is the text's: one row more.
    pub hit_lem :
        (c : Column Float zero_float roaring) (st : Interner) (idx seq w : ℕ) (b : Bool) (s : Bytes)
        (id : ℕ) (sl : DictSlot) (r : ℕ)
        → IsSound c st
        → IsValid hash st
        → get_elem? c.dict id ≡ some sl
        → sl.live ≡ true
        → Holds st sl.intern_id s r
        → get_elem? c.ids idx ≡ some w
        → get_elem? c.presence idx ≡ some b
        → Sets c st idx s (
            bump_entry Float zero_float roaring id c >>= λ c'.
            set_entry Float zero_float roaring idx seq id c' >>= λ c''. some (id, (c'', st)))
    unfolding bump_entry index_row
    hit_lem c st idx seq w b s id sl r ok v found live text e f =
        let sl' : DictSlot = record sl { refs = u32 (sl.refs + 1) } in
        let c' : Column Float zero_float roaring = record c { dict = set c.dict id sl' } in
        let wr : Writes c.dict c'.dict id sl' = Writes-set c.dict id sl sl' found in
        let k : Keeps Float zero_float roaring c st c' st = record {
          kind = refl;
          ids = refl;
          presence = refl;
          rows = λ j y g on. elim (ℕ_discrete j id) [
            | no ne ↦ (y, wr.others j ne ∙ g, on, refl)
            | yes same ↦
                let eq : y ≡ sl =
                  some-injective y sl (sym g ∙ ap (get_elem? c.dict) same ∙ found) in
                (
                  sl',
                  ap (get_elem? c'.dict) same ∙ wr.at,
                  live,
                  ap (λ (z : DictSlot). z.intern_id) eq,
                )
          ];
          texts = λ j t q h. (q, h);
        } in
        (
          id,
          with_row Float zero_float roaring idx seq id c',
          st,
          rw (found, bump_entry)
              (rw (set_entry_lem Float zero_float roaring c' idx seq id w b e f) refl),
          with_row-Written Float zero_float roaring c c' st st idx seq id w b s sl' r k ok.kind e f
              wr.at live text,
          record {
            kind = ok.kind;
            entries = λ i y g on. elim (ℕ_discrete i id) [
              | no ne ↦ ok.entries i y (sym (wr.others i ne) ∙ g) on
              | yes same ↦
                  let eq : sl' ≡ y =
                    some-injective sl' y (sym wr.at ∙ ap (get_elem? c'.dict) (sym same) ∙ g) in
                  (s, r, subst (λ (z : DictSlot). Holds st z.intern_id s r) eq text)
            ];
            spare =
                IsSpare-Writes c.dict c'.dict id sl' c.free wr
                  (off_spare c.dict id sl c.free found live ok.spare) ok.spare;
            distinct = ok.distinct;
          },
          v,
        )
