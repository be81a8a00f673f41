-- ===== src/Store/Column/Rows.antt =====
-- internal/store/column.go: SetString on an empty row of a dictionary column.
use loggi.Prelude.{
  ℕ, ◌-◌, ◌^◌, ◌≡◌, ◌<◌, refl, subst, Bool, true, false, ◌⊎◌, ap, ◌∙◌, Bool-cases, inl, inr,
  Option-cases, some, ◌∷◌, length, get_elem?, lookup, nat_eq, ◌≢◌, sym, if◌then◌else◌, ◌>>=◌,
  Option,
}
use loggi.Store.Bitmap.{Roaring}
use loggi.Store.Column.{Column, Both, evict_at, get_string}
use loggi.Store.Column.Write.{
  set_entry, bump_entry, add_entry, set_dict, set_kind, set_string, dict_equal,
}
use loggi.Store.Column.Values.{Shows, get_string-Shows}
use loggi.Store.Column.Entries.{IsSound, Sets, add_entry_lem, hit_lem}
use loggi.Store.Intern.{Interner, InternSlot, get}
use loggi.Store.Intern.Placed.{Fits}
use loggi.Store.Intern.Valid.{Holds, IsValid}
use loggi.Store.Intern.Texts.{get-Holds}
use loggi.Text.{Bytes, str_eq, str_eq_iff}

-- A property of a branch whose test may panic and does not.
chosen :
    {A : Type 0} (P : Option A → Type 0) (d : Option Bool) (hit missed : Option A)
    → P missed
    → ((d ≡ some true) × P hit) ⊎ (d ≡ some false)
    → P (d >>= λ same. (if same then hit else missed))
chosen P d hit missed m (inl (e, g)) =
    subst (λ o. P (o >>= λ same. (if same then hit else missed))) (sym e) g
chosen P d hit missed m (inr e) =
    subst (λ o. P (o >>= λ same. (if same then hit else missed))) (sym e) m

module _ (Float : Type 0) (zero_float : Float) (roaring : Roaring) (hash : Bytes → ℕ) where
  -- The sizes at which a text is set: the row exists, and there is room for another entry.
  pub record HasRoom (c : Column Float zero_float roaring) (st : Interner) (idx : ℕ) (s : Bytes)
      : Type 0 where
    pub fits : Fits st s
    pub refs_small :
        (id : ℕ) (sl : InternSlot) → get_elem? st.slots id ≡ some sl → sl.refs < 2 ^ 32 - 1
    pub dict_small : length c.dict < 2 ^ 32
    pub room : c.cardinality < c.max_dict
    pub max_small : c.max_dict < 2 ^ 32
    pub old : ℕ
    pub row : get_elem? c.ids idx ≡ some old
    pub is_empty : get_elem? c.presence idx ≡ some false

  set_dict_lem :
      (c : Column Float zero_float roaring) (st : Interner) (idx seq x : ℕ) (s : Bytes)
      → IsSound Float zero_float roaring c st
      → IsValid hash st
      → HasRoom c st idx (x ∷ s)
      → Sets Float zero_float roaring hash c st idx
          (x ∷ s)
          (set_dict Float zero_float roaring hash idx seq (x ∷ s) c st)
  unfolding set_dict dict_equal
  set_dict_lem c st idx seq x s ok v h =
      let new : Sets Float zero_float roaring hash c st idx (x ∷ s)
          (add_entry Float zero_float roaring hash idx seq (x ∷ s) c st) =
        add_entry_lem Float zero_float roaring hash c st idx seq h.old false x s ok v h.fits
          h.refs_small h.dict_small h.room h.max_small h.row h.is_empty in
      let hit : ℕ → Option (ℕ × Both Float zero_float roaring) = λ id.
        (bump_entry Float zero_float roaring id c >>= λ c'.
        set_entry Float zero_float roaring idx seq id c' >>= λ c''. some (id, (c'', st))) in
      elim (Option-cases (lookup (hash (x ∷ s)) c.by_hash)) [
        | inl none_there ↦ rw (none_there, set_dict) new
        | inr (id, e) ↦
            rw (e, set_dict)
              (chosen (λ o. Sets Float zero_float roaring hash c st idx (x ∷ s) o)
                (dict_equal Float zero_float roaring id (x ∷ s) c st) (hit id)
                (add_entry Float zero_float roaring hash idx seq (x ∷ s) c st) new
                (elim (Option-cases (get_elem? c.dict id)) [
                  | inl off ↦ inr (rw (off, dict_equal) refl)
                  | inr (sl, found) ↦ elim (Bool-cases sl.live) [
                    | inr dead ↦ inr (rw (found, dict_equal) (rw (dead, dict_equal) refl))
                    | inl live ↦
                        let (t, r, text) = ok.entries id sl found live in
                        let got : get st sl.intern_id ≡ some t =
                          get-Holds hash st sl.intern_id t r v text in
                        let eq : dict_equal Float zero_float roaring id (x ∷ s) c st
                            ≡ some (str_eq t (x ∷ s)) =
                          rw (found, dict_equal)
                            (rw (live, dict_equal) (rw (got, dict_equal) refl)) in
                        elim (Bool-cases (str_eq t (x ∷ s))) [
                          | inr other ↦ inr (eq ∙ ap some other)
                          | inl same ↦ inl (
                            eq ∙ ap some same,
                            hit_lem Float zero_float roaring hash c st idx seq h.old false (x ∷ s)
                                id sl r ok v found live
                                (subst (λ u. Holds st sl.intern_id u r)
                                  ((str_eq_iff t (x ∷ s)).0 same) text)
                                h.row h.is_empty,
                          )
                        ]
                  ]
                ]))
      ]

  pub set_string_lem :
      (c : Column Float zero_float roaring) (st : Interner) (idx seq x : ℕ) (s : Bytes)
      → IsSound Float zero_float roaring c st
      → IsValid hash st
      → HasRoom c st idx (x ∷ s)
      → Sets Float zero_float roaring hash c st idx
          (x ∷ s)
          (set_string Float zero_float roaring hash idx seq (x ∷ s) c st)
  unfolding set_string evict_at
  set_string_lem c st idx seq x s ok v h =
      rw (h.is_empty, evict_at)
        (subst
          (λ k.
            Sets Float zero_float roaring hash c st idx (x ∷ s)
              (set_kind Float zero_float roaring hash k idx seq (x ∷ s) c st))
          (sym ok.kind) (set_dict_lem c st idx seq x s ok v h))

  -- SetString of a text that is not empty, on an empty row of a dictionary column with room for another
  -- entry, does not panic. GetString then gives the text for the row, and for every other row that showed
  -- a text that text; the column and the interner agree as before.
  pub get_string-set_string :
      (c : Column Float zero_float roaring) (st : Interner) (idx seq x : ℕ) (s : Bytes)
      → IsSound Float zero_float roaring c st
      → IsValid hash st
      → HasRoom c st idx (x ∷ s)
      → (id : ℕ) × (c' : Column Float zero_float roaring) × (st' : Interner) × (set_string Float
            zero_float roaring hash idx seq
            (x ∷ s)
            c
            st
          ≡ some (id, (c', st')))
        × (get_string Float zero_float roaring idx c' st' ≡ some (x ∷ s))
        × ((j : ℕ) (u : Bytes)
            → j ≢ idx
            → Shows Float zero_float roaring c st j u
            → get_string Float zero_float roaring j c' st' ≡ some u)
        × IsSound Float zero_float roaring c' st'
        × IsValid hash st'
  get_string-set_string c st idx seq x s ok v h =
      let (id, c', st', e, w, ok', v') = set_string_lem c st idx seq x s ok v h in
      (
        id,
        c',
        st',
        e,
        get_string-Shows Float zero_float roaring hash c' st' idx (x ∷ s) v' w.shown,
        (λ j u ne k.
            get_string-Shows Float zero_float roaring hash c' st' j u v' (w.others j u ne k)),
        ok',
        v',
      )
