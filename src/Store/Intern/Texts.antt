-- ===== src/Store/Intern/Texts.antt =====
-- Interning: the id leads to the text, and the texts and counts of all other ids stay.
use mathlib.Core.Option.{some-injective}
use native.Mathlib.Decide.{ℕ_discrete}
use loggi.Prelude.{
  ℕ, suc, ◌+◌, ◌-◌, ◌^◌, ◌<◌, ◌≡◌, ◌≢◌, refl, sym, ap, ◌∙◌, true, false, Bool-cases, inl, inr,
  Option-cases, some, none, subst, ◌⊎◌, List, ◌∷◌, arith, ◌==◌, length, get_elem?, set, nat_eq,
  lookup,
}
use loggi.Store.Arena.{read}
use loggi.Store.Intern.{InternSlot, Interner, dead_slot, u32, equal, get, bump, intern}
use loggi.Store.Intern.Valid.{
  Holds, Writes, Writes-set, IsValid, IsReadable, IsValid-Writes, All-IsFree-Writes, live-not-free,
}
use loggi.Text.{Bytes, str_eq, str_eq_iff}
use loggi.Store.Intern.Placed.{ne_of_length, nonzero, Holds-Writes, Fits, New, intern_new_at}

module _ (hash : Bytes → ℕ) where
  -- How often the id was referred to before: as the index says, if it leads to the text; never, if the
  -- text is not found by the index, and then the id is claimed where no text has the hash.
  abbrev pub Before : Interner → Bytes → ℕ → Interner → ℕ → Type 0
  Before st s id st' r =
      ((lookup (hash s) st.by_hash ≡ some id) × Holds st id s r)
      ⊎ ((r ≡ 0)
          × ((t : Bytes) (q : ℕ) → ¬ Holds st id t q)
          × ((j q : ℕ) → lookup (hash s) st.by_hash ≡ some j → ¬ Holds st j s q)
          × (lookup (hash s) st.by_hash ≡ none → lookup (hash s) st'.by_hash ≡ some id))

  -- What interning gives: the text at its id, once more referred to than before, and every other text
  -- and count as it was.
  abbrev pub Interned : Interner → Bytes → ℕ → Interner → Type 0
  Interned st s id st' =
      (r : ℕ) × Holds st' id s (suc r)
      × ((t : Bytes) (q : ℕ) → Holds st id t q → (t ≡ s) × (q ≡ r))
      × ((j : ℕ) (t : Bytes) (q : ℕ) → j ≢ id → Holds st j t q → Holds st' j t q)
      × Before st s id st' r

  Interned-New :
      (st : Interner) (s : Bytes) (id : ℕ) (st' : Interner)
      → New hash st s id st'
      → ((j q : ℕ) → lookup (hash s) st.by_hash ≡ some j → ¬ Holds st j s q)
      → Interned st s id st'
  Interned-New st s id st' (h, v, others, claimed) missing = (
    0,
    h,
    (λ t q k. absurd ((others id q t k).0 refl)),
    (λ j t q ne k. (others j q t k).1),
    inr (refl, (λ t q k. (others id q t k).0 refl), missing, claimed),
  )

  -- A slot holds one text, with one count.
  Holds-unique :
      (st : Interner) (id : ℕ) (sl : InternSlot) (s t : Bytes) (q : ℕ)
      → get_elem? st.slots id ≡ some sl
      → read st.arena sl.off sl.size ≡ some s
      → Holds st id t q
      → (t ≡ s) × (q ≡ sl.refs)
  Holds-unique st id sl s t q found text h =
      let same : h.slot ≡ sl = some-injective h.slot sl (sym h.found ∙ found) in
      (
        some-injective t s
            (sym h.text ∙ ap (λ (x : InternSlot). read st.arena x.off x.size) same ∙ text),
        sym h.count ∙ ap (λ (x : InternSlot). x.refs) same,
      )

  pub not_reserved :
      (st : Interner) (id : ℕ) (sl : InternSlot)
      → IsValid hash st
      → get_elem? st.slots id ≡ some sl
      → sl.live ≡ true
      → id ≢ 0
  not_reserved st id sl v found live = λ e.
      let same : dead_slot ≡ sl =
        some-injective dead_slot sl (sym v.reserved ∙ ap (get_elem? st.slots) (sym e) ∙ found) in
      let dead : false ≡ sl.live = ap (λ (x : InternSlot). x.live) same in cc (dead ∙ live)

  -- A write that keeps the hash of a live slot keeps the index in order.
  pub index_kept :
      (st : Interner) (id : ℕ) (sl sl' : InternSlot) (slots' : List InternSlot)
      → IsValid hash st
      → Writes st.slots slots' id sl'
      → get_elem? st.slots id ≡ some sl
      → sl'.live ≡ true
      → sl'.hash ≡ sl.hash
      → (h j : ℕ) → lookup h st.by_hash ≡ some j
      → (x : InternSlot) × (get_elem? slots' j ≡ some x) × (x.live ≡ true) × (x.hash ≡ h)
  index_kept st id sl sl' slots' v w found live hashed h j e =
      let (x, at, on, same) = v.indexed h j e in
      elim (ℕ_discrete j id) [
        | no ne ↦ (x, w.others j ne ∙ at, on, same)
        | yes p ↦
            let eq : sl ≡ x =
              some-injective sl x (sym found ∙ ap (get_elem? st.slots) (sym p) ∙ at) in
            (
              sl',
              ap (get_elem? slots') p ∙ w.at,
              live,
              hashed ∙ ap (λ (y : InternSlot). y.hash) eq ∙ same,
            )
      ]

  -- One more reference to a live slot.
  bump_lem :
      (st : Interner) (id : ℕ) (sl : InternSlot) (s : Bytes)
      → IsValid hash st
      → get_elem? st.slots id ≡ some sl
      → sl.live ≡ true
      → sl.refs < 2 ^ 32 - 1
      → read st.arena sl.off sl.size ≡ some s
      → lookup (hash s) st.by_hash ≡ some id
      → (st' : Interner) × (bump id st ≡ some st') × IsValid hash st' × Interned st s id st'
  unfolding bump
  bump_lem st id sl s v found live small text indexed =
      let word : u32 (sl.refs + 1) ≡ suc sl.refs = omega arith in
      let sl' : InternSlot = record sl { refs = u32 (sl.refs + 1) } in
      let slots' = set st.slots id sl' in
      let st' : Interner = record st { slots = slots' } in
      let w : Writes st.slots slots' id sl' = Writes-set st.slots id sl sl' found in
      let r : IsReadable hash st.arena sl = v.readable id sl found live in
      (
        st',
        rw (found, bump) refl,
        IsValid-Writes hash st st.by_hash slots' st.free st.arena id sl' v w
            (not_reserved st id sl v found live)
            (λ _. record {
              body = r.body;
              text = r.text;
              hashed = r.hashed;
              sized = r.sized;
              counted = rw word (omega arith);
            })
            (λ off n t e. e) (index_kept st id sl sl' slots' v w found live refl)
            (All-IsFree-Writes st.slots slots' id sl' st.free w
              (live-not-free st.slots id sl st.free found live v.unused) v.unused)
            v.distinct,
        (
          sl.refs,
          record { slot = sl'; found = w.at; live = live; text = text; count = word },
          (λ t q k. Holds-unique st id sl s t q found text k),
          (λ j t q ne k. Holds-Writes st st' id j sl' t q w (λ off n u e. e) ne k),
          inl (
            indexed,
            record { slot = sl; found = found; live = live; text = text; count = refl },
          ),
        ),
      )

  -- `equal` compares the text of a live slot.
  equal_lem :
      (st : Interner) (id : ℕ) (sl : InternSlot) (s : Bytes)
      → get_elem? st.slots id ≡ some sl
      → sl.live ≡ true
      → (r : IsReadable hash st.arena sl) → equal st id s ≡ some (str_eq r.body s)
  unfolding equal
  equal_lem st id sl s found live r = elim (Bool-cases (sl.size == length s)) [
    | inl same ↦ rw (found, equal) (rw (live, equal) (rw (same, equal) (rw (r.text, equal) refl)))
    | inr other ↦
        let no_match : str_eq r.body s ≡ false =
          ne_of_length r.body s (λ e. ground (arith, r.sized ∙ e)) in
        rw (found, equal) (rw (live, equal) (rw (other, equal) (ap some (sym no_match))))
  ]

  -- The entry of the index: the text is counted once more, or, on a collision, placed anew.
  intern_hit :
      (c : ℕ) (s : Bytes) (st : Interner) (id : ℕ)
      → IsValid hash st
      → Fits st (c ∷ s)
      → ((sl : InternSlot) → get_elem? st.slots id ≡ some sl → sl.refs < 2 ^ 32 - 1)
      → lookup (hash (c ∷ s)) st.by_hash ≡ some id
      → (i : ℕ) × (st' : Interner) × (intern hash (c ∷ s) st ≡ some (i, st'))
        × IsValid hash st'
        × Interned st (c ∷ s) i st'
  unfolding intern
  intern_hit c s st id v fits small e =
      let (sl, found, live, hashed) = v.indexed (hash (c ∷ s)) id e in
      let r = v.readable id sl found live in
      let eq = equal_lem st id sl (c ∷ s) found live r in
      elim (Bool-cases (str_eq r.body (c ∷ s))) [
        | inl same ↦
            let body : r.body ≡ c ∷ s = (str_eq_iff r.body (c ∷ s)).0 same in
            let (st', bumped, v', i) =
              bump_lem st id sl (c ∷ s) v found live (small sl found) (r.text ∙ ap some body) e in
            (
              id,
              st',
              rw (e, intern) (rw (eq, intern) (rw (same, intern) (rw (bumped, intern) refl))),
              v',
              i,
            )
        | inr other ↦
            let (i, st', placed, new) =
              intern_new_at hash (c ∷ s) st.by_hash st.slots st.free st.arena v fits in
            (
              i,
              st',
              rw (e, intern) (rw (eq, intern) (rw (other, intern) placed)),
              new.1,
              Interned-New st (c ∷ s) i st' new (λ j q at h.
                  let here : id ≡ j = some-injective id j (sym e ∙ at) in
                  let same : c ∷ s ≡ r.body =
                    (Holds-unique st id sl r.body (c ∷ s) q found r.text
                      (subst (λ k. Holds st k (c ∷ s) q) (sym here) h)).0 in
                  cc (other, (str_eq_iff r.body (c ∷ s)).1 (sym same))),
            )
      ]

  -- Interning a text that is not empty never panics and keeps the invariant, in a state of the invariant
  -- whose counts and sizes are below the bounds of the machine words. Where the index leads to the text,
  -- the id is that of the index and its count rises by one; otherwise the id was not in use, it leads to
  -- the text with the count 1, and the index leads to it if it led nowhere. The texts and counts of all
  -- other ids stay.
  pub intern_lem :
      (c : ℕ) (s : Bytes) (st : Interner)
      → IsValid hash st
      → Fits st (c ∷ s)
      → ((id : ℕ) (sl : InternSlot) → get_elem? st.slots id ≡ some sl → sl.refs < 2 ^ 32 - 1)
      → (id : ℕ) × (st' : Interner) × (intern hash (c ∷ s) st ≡ some (id, st'))
        × IsValid hash st'
        × Interned st (c ∷ s) id st'
  unfolding intern
  intern_lem c s st v fits small = elim (Option-cases (lookup (hash (c ∷ s)) st.by_hash)) [
    | inl e ↦
        let (id, st', placed, new) =
          intern_new_at hash (c ∷ s) st.by_hash st.slots st.free st.arena v fits in
        (
          id,
          st',
          rw (e, intern) placed,
          new.1,
          Interned-New st (c ∷ s) id st' new (λ j q at h. cc (e, at)),
        )
    | inr (id, e) ↦ intern_hit c s st id v fits (small id) e
  ]

  -- In a state of the invariant, Get of an id in use is its text.
  pub get-Holds :
      (st : Interner) (id : ℕ) (t : Bytes) (r : ℕ)
      → IsValid hash st
      → Holds st id t r
      → get st id ≡ some t
  unfolding get
  get-Holds st id t r v h =
      let pos : (id == 0) ≡ false = nonzero id (not_reserved st id h.slot v h.found h.live) in
      rw pos (rw (h.found, get) (rw (h.live, get) h.text))
