-- ===== src/Store/Intern/Release.antt =====
-- Releasing: one reference less, and the last one frees the slot.
use mathlib.Core.Option.{some-injective}
use loggi.Prelude.{
  ℕ, zero, suc, ◌-◌, ◌≡◌, ◌≢◌, refl, sym, ap, ◌∙◌, true, false, Bool-cases, inl, inr, Option-cases,
  none, some, List, [], ◌∷◌, arith, ◌==◌, if◌then◌else◌, get_elem?, set, nat_eq, lookup, delete,
  lookup-delete, All,
}
use loggi.Store.Arena.{read}
use loggi.Store.Intern.{InternSlot, Interner, get, drop_ref, release}
use loggi.Store.Intern.Placed.{Holds-Writes, nonzero}
use loggi.Store.Intern.Texts.{not_reserved, index_kept}
use loggi.Store.Intern.Valid.{
  Holds, IsFree, Writes, Writes-set, IsValid, IsReadable, IsValid-Writes, All-IsFree-Writes,
  live-not-free,
}
use loggi.Text.{Bytes}

-- The index without the entry that leads to the freed id.
abbrev unclaim : ℕ → ℕ → List (ℕ × ℕ) → List (ℕ × ℕ)
unclaim h id m = elim (lookup h m) [ none ↦ m | some got ↦ if got == id then delete h m else m ]

lookup-unclaim :
    (h id g j : ℕ) (m : List (ℕ × ℕ))
    → lookup g (unclaim h id m) ≡ some j
    → (lookup g m ≡ some j) × (h ≡ g → j ≢ id)
lookup-unclaim h id g j m e = elim (Option-cases (lookup h m)) [
  | inl absent ↦
      let e' : lookup g m ≡ some j = rw (absent, unclaim) at e in
      (e', (λ p q. cc (sym absent ∙ ap (λ k. lookup k m) p ∙ e')))
  | inr (got, present) ↦ elim (Bool-cases (got == id)) [
    | inl mine ↦
        let e' : lookup g (delete h m) ≡ some j =
          rw (mine, unclaim) at (rw (present, unclaim) at e) in
        elim (Bool-cases (h == g)) [
          | inl same ↦ absurd (ground (arith, lookup-delete h g m))
          | inr far ↦ (ground (arith, lookup-delete h g m), (λ p q. ground arith))
        ]
    | inr other ↦
        let e' : lookup g m ≡ some j = rw (other, unclaim) at (rw (present, unclaim) at e) in
        (
          e',
          (λ p q.
              let k : got ≡ j = some-injective got j (sym present ∙ ap (λ k. lookup k m) p ∙ e') in
              ground arith),
        )
  ]
]

module _ (hash : Bytes → ℕ) where
  -- The id is out of use and stands for no text.
  abbrev pub Freed : Interner → ℕ → Type 0
  Freed st id = (get st id ≡ some []) × IsFree st.slots id

  -- What is left of a text that had one reference more than `r`.
  abbrev pub Left : Interner → ℕ → Bytes → ℕ → Type 0
  Left st id s zero = Freed st id
  Left st id s (suc r) = Holds st id s (suc r)

  abbrev Others : Interner → ℕ → Interner → Type 0
  Others st id st' = (j : ℕ) (t : Bytes) (q : ℕ) → j ≢ id → Holds st j t q → Holds st' j t q

  get_dead :
      (st : Interner) (id : ℕ) (sl : InternSlot)
      → get_elem? st.slots id ≡ some sl
      → sl.live ≡ false
      → get st id ≡ some []
  unfolding get
  get_dead st id sl found dead = elim (Bool-cases (id == 0)) [
    | inl z ↦ rw (z, get) refl
    | inr nz ↦ rw (nz, get) (rw (found, get) (rw (dead, get) refl))
  ]

  drop_last :
      (st : Interner) (id : ℕ) (sl : InternSlot)
      → IsValid hash st
      → get_elem? st.slots id ≡ some sl
      → sl.live ≡ true
      → sl.refs ≡ 1
      → IsValid hash (drop_ref id sl st)
        × Freed (drop_ref id sl st) id
        × Others st id (drop_ref id sl st)
  unfolding drop_ref
  drop_last st id sl v found live one =
      let sl' : InternSlot = record sl { refs = 0; live = false } in
      let slots' = set st.slots id sl' in
      let st' : Interner = record st {
        by_hash = unclaim sl.hash id st.by_hash;
        slots = slots';
        free = id ∷ st.free;
      } in
      let w : Writes st.slots slots' id sl' = Writes-set st.slots id sl sl' found in
      let pos : id ≢ 0 = not_reserved hash st id sl v found live in
      let last : (sl.refs - 1 == 0) ≡ true = ground arith in
      let fresh : All (λ j. id ≢ j) st.free =
        live-not-free st.slots id sl st.free found live v.unused in
      rw (last, drop_ref)
        (
          IsValid-Writes hash st (unclaim sl.hash id st.by_hash) slots' (id ∷ st.free) st.arena id
              sl' v w pos (λ off. cc) (λ off n t e. e) index
              (
                (sl', w.at, refl, pos),
                All-IsFree-Writes st.slots slots' id sl' st.free w fresh v.unused,
              )
              (fresh, v.distinct),
          (get_dead st' id sl' w.at refl, (sl', w.at, refl, pos)),
          (λ j t q ne k. Holds-Writes st st' id j sl' t q w (λ off n u e. e) ne k),
        )
    where
      index :
          (g j : ℕ)
          → lookup g (unclaim sl.hash id st.by_hash) ≡ some j
          → (x : InternSlot) × (get_elem? (set st.slots id (record sl { refs = 0; live = false })) j
              ≡ some x)
            × (x.live ≡ true)
            × (x.hash ≡ g)
      index g j e =
          let (e', apart) = lookup-unclaim sl.hash id g j st.by_hash e in
          let (x, at, on, same) = v.indexed g j e' in
          let far : j ≢ id = λ p.
            let eq : sl ≡ x =
              some-injective sl x (sym found ∙ ap (get_elem? st.slots) (sym p) ∙ at) in
            apart (ap (λ (y : InternSlot). y.hash) eq ∙ same) p in
          let w = Writes-set st.slots id sl (record sl { refs = 0; live = false }) found in
          (x, w.others j far ∙ at, on, same)

  drop_one :
      (st : Interner) (id : ℕ) (sl : InternSlot) (s : Bytes) (r : ℕ)
      → IsValid hash st
      → get_elem? st.slots id ≡ some sl
      → sl.live ≡ true
      → sl.refs ≡ suc (suc r)
      → read st.arena sl.off sl.size ≡ some s
      → IsValid hash (drop_ref id sl st)
        × Holds (drop_ref id sl st) id s (suc r)
        × Others st id (drop_ref id sl st)
  unfolding drop_ref
  drop_one st id sl s r v found live many text =
      let sl' : InternSlot = record sl { refs = sl.refs - 1 } in
      let slots' = set st.slots id sl' in
      let st' : Interner = record st { slots = slots' } in
      let w : Writes st.slots slots' id sl' = Writes-set st.slots id sl sl' found in
      let some_left : (sl.refs - 1 == 0) ≡ false = ground arith in
      let c : IsReadable hash st.arena sl = v.readable id sl found live in
      rw (some_left, drop_ref)
        (
          IsValid-Writes hash st st.by_hash slots' st.free st.arena id sl' v w
              (not_reserved hash st id sl v found live)
              (λ _. record {
                body = c.body;
                text = c.text;
                hashed = c.hashed;
                sized = c.sized;
                counted = omega arith;
              })
              (λ off n t e. e) (index_kept hash st id sl sl' slots' v w found live refl)
              (All-IsFree-Writes st.slots slots' id sl' st.free w
                (live-not-free st.slots id sl st.free found live v.unused) v.unused)
              v.distinct,
          record { slot = sl'; found = w.at; live = live; text = text; count = omega arith },
          (λ j t q ne k. Holds-Writes st st' id j sl' t q w (λ off n u e. e) ne k),
        )

  -- Releasing an id in use keeps the invariant and takes one reference: the text stays as long as one
  -- is left, and with the last one the id is free and stands for no text. All other texts and counts
  -- stay.
  pub release_lem :
      (st : Interner) (id : ℕ) (s : Bytes) (r : ℕ)
      → IsValid hash st
      → Holds st id s (suc r)
      → IsValid hash (release id st)
        × Left (release id st) id s r
        × ((j : ℕ) (t : Bytes) (q : ℕ) → j ≢ id → Holds st j t q → Holds (release id st) j t q)
  unfolding release
  release_lem st id s zero v h =
      let pos : (id == 0) ≡ false = nonzero id (not_reserved hash st id h.slot v h.found h.live) in
      let any : (h.slot.refs == 0) ≡ false = ground (arith, h.count) in
      rw (pos, release)
        (rw (h.found, release)
          (rw (any, release) (drop_last st id h.slot v h.found h.live h.count)))
  release_lem st id s (suc r) v h =
      let pos : (id == 0) ≡ false = nonzero id (not_reserved hash st id h.slot v h.found h.live) in
      let any : (h.slot.refs == 0) ≡ false = ground (arith, h.count) in
      rw (pos, release)
        (rw (h.found, release)
          (rw (any, release) (drop_one st id h.slot s r v h.found h.live h.count h.text)))
