-- ===== src/Store/Intern/Placed.antt =====
-- A text that is placed in a slot of its own: the invariant stays, and so does what the other slots hold.
use mathlib.Core.Option.{some-injective}
use loggi.Prelude.{
  ℕ, ◌-◌, ◌^◌, ◌<◌, ◌≡◌, ◌≢◌, refl, sym, ap, ◌∙◌, true, false, Bool-cases, inl, inr, ◌⊎◌,
  Option-cases, some, none, List, [], ◌∷◌, ◌++◌, arith, ◌==◌, length, get_elem?,
  lt-length_of_get_elem?, set, nat_eq, lookup, insert, lookup-insert, All,
}
use loggi.Store.Arena.{Arena, append_str, read}
use loggi.Store.Arena.Reads.{append_str_size, read-append_str, read-append_str_keep}
use loggi.Store.Intern.{InternSlot, Interner, dead_slot, u32, claim, place, intern_new}
use loggi.Store.Intern.Valid.{
  Holds, IsFree, Distinct, Writes, Writes-set, Writes-snoc, IsValid, IsValid-Writes,
  All-IsFree-Writes,
}
use loggi.Text.{Bytes, str_eq, str_eq_iff}

pub ne_of_length : (s t : Bytes) → length s ≢ length t → str_eq s t ≡ false
ne_of_length s t h = elim (Bool-cases (str_eq s t)) [
  | inl same ↦ absurd (h (ap length ((str_eq_iff s t).0 same)))
  | inr other ↦ other
]

pub nonzero : (id : ℕ) → id ≢ 0 → (id == 0) ≡ false
nonzero id h = ground arith

-- A slot that is not written keeps its text and its count.
pub Holds-Writes :
    (st st' : Interner) (id j : ℕ) (sl : InternSlot) (t : Bytes) (r : ℕ)
    → Writes st.slots st'.slots id sl
    → ((off n : ℕ) (u : Bytes) → read st.arena off n ≡ some u → read st'.arena off n ≡ some u)
    → j ≢ id
    → Holds st j t r
    → Holds st' j t r
Holds-Writes st st' id j sl t r w keep ne h = record {
  slot = h.slot;
  found = w.others j ne ∙ h.found;
  live = h.live;
  text = keep h.slot.off h.slot.size t h.text;
  count = h.count;
}

-- What a claimed entry of the index says.
pub lookup-claim :
    (h id g j : ℕ) (m : List (ℕ × ℕ))
    → lookup g (claim h id m) ≡ some j
    → (lookup g m ≡ some j) ⊎ ((h ≡ g) × (id ≡ j))
unfolding claim
lookup-claim h id g j m e = elim (Option-cases (lookup h m)) [
  | inr (k, taken) ↦ inl (rw (taken, claim) at e)
  | inl free ↦
      let e' : lookup g (insert h id m) ≡ some j = rw (free, claim) at e in
      elim (Bool-cases (h == g)) [
        | inl same ↦ inr (ground (arith, lookup-insert h g id m))
        | inr other ↦ inl (ground (arith, lookup-insert h g id m))
      ]
]

claim_free : (h id : ℕ) (m : List (ℕ × ℕ)) → lookup h m ≡ none → lookup h (claim h id m) ≡ some id
unfolding claim
claim_free h id m e = rw (e, claim) (ground (arith, lookup-insert h h id m))

-- The sizes at which ids, offsets and lengths are what the machine words hold.
pub record Fits (st : Interner) (s : Bytes) : Type 0 where
  pub ids : length st.slots < 2 ^ 32
  pub chunks : length st.arena < 2 ^ 32 - 1
  pub bytes : length s < 2 ^ 32

module _ (hash : Bytes → ℕ) where
  -- What a new slot gives.
  abbrev pub New : Interner → Bytes → ℕ → Interner → Type 0
  New st s id st' =
      Holds st' id s 1
      × IsValid hash st'
      × ((j r : ℕ) (t : Bytes) → Holds st j t r → (j ≢ id) × Holds st' j t r)
      × (lookup (hash s) st.by_hash ≡ none → lookup (hash s) st'.by_hash ≡ some id)

  text_slot-New :
      (s : Bytes) (st : Interner) (id : ℕ) (slots : List InternSlot) (free : List ℕ)
      → IsValid hash st
      → Fits st s
      → let (off, size, arena) = append_str s st.arena in
        let sl : InternSlot = record {
          off = off;
          size = size;
          refs = 1;
          hash = hash s;
          live = true;
        } in
        Writes st.slots slots id sl
        → ((x : InternSlot) → get_elem? st.slots id ≡ some x → x.live ≡ false)
        → id ≢ 0
        → All (IsFree slots) free
        → Distinct free
        → New st s id (record {
          by_hash = claim (hash s) id st.by_hash;
          slots = slots;
          free = free;
          arena = arena;
        })
  text_slot-New s st id slots free v fits w dead ne unused distinct = (
    record { slot = sl; found = w.at; live = refl; text = readable; count = refl },
    IsValid-Writes hash st (claim (hash s) id st.by_hash) slots free arena id sl v w ne
        (λ _. record {
          body = s;
          text = readable;
          hashed = refl;
          sized = append_str_size s st.arena fits.bytes;
          counted = omega arith;
        })
        (read-append_str_keep s st.arena) index unused distinct,
    others,
    claim_free (hash s) id st.by_hash,
  )
    where
      arena : Arena
      arena = (append_str s st.arena).2

      sl : InternSlot
      sl = record {
        off = (append_str s st.arena).0;
        size = (append_str s st.arena).1;
        refs = 1;
        hash = hash s;
        live = true;
      }

      readable : read arena sl.off sl.size ≡ some s
      readable = read-append_str s st.arena fits.chunks fits.bytes

      not_new : (j : ℕ) (x : InternSlot) → get_elem? st.slots j ≡ some x → x.live ≡ true → j ≢ id
      not_new j x e live = λ p. cc (dead x (ap (get_elem? st.slots) (sym p) ∙ e), live)

      index :
          (g j : ℕ)
          → lookup g (claim (hash s) id st.by_hash) ≡ some j
          → (x : InternSlot) × (get_elem? slots j ≡ some x) × (x.live ≡ true) × (x.hash ≡ g)
      index g j e = elim (lookup-claim (hash s) id g j st.by_hash e) [
        | inl old ↦
            let (x, found, live, hashed) = v.indexed g j old in
            (x, w.others j (not_new j x found live) ∙ found, live, hashed)
        | inr (same, here) ↦ (sl, ap (get_elem? slots) (sym here) ∙ w.at, refl, same)
      ]

      others :
          (j r : ℕ) (t : Bytes)
          → Holds st j t r
          → (j ≢ id)
            × Holds
                (record {
                  by_hash = claim (hash s) id st.by_hash;
                  slots = slots;
                  free = free;
                  arena = arena;
                })
                j
                t
                r
      others j r t h =
          let far : j ≢ id = not_new j h.slot h.found h.live in
          (
            far,
            Holds-Writes st
                (record {
                  by_hash = claim (hash s) id st.by_hash;
                  slots = slots;
                  free = free;
                  arena = arena;
                })
                id j sl t r w (read-append_str_keep s st.arena) far h,
          )

  abbrev pub text_slot : Bytes → Arena → InternSlot
  text_slot s arena = record {
    off = (append_str s arena).0;
    size = (append_str s arena).1;
    refs = 1;
    hash = hash s;
    live = true;
  }

  -- A new slot is found: the last freed one, or one at the end of the table.
  pub intern_new_at :
      (s : Bytes) (by_hash : List (ℕ × ℕ)) (slots : List InternSlot) (free : List ℕ) (arena : Arena)
      → let st : Interner = record {
        by_hash = by_hash;
        slots = slots;
        free = free;
        arena = arena;
      } in
        IsValid hash st
        → Fits st s
        → (id : ℕ) × (st' : Interner) × (intern_new (hash s) s st ≡ some (id, st'))
          × New st s id st'
  unfolding intern_new
  intern_new_at s by_hash slots [] arena v fits =
      let st : Interner = record { by_hash = by_hash; slots = slots; free = []; arena = arena } in
      let n = length slots in
      let word : u32 n ≡ n = ground (arith, fits.ids) in
      let sl = text_slot s arena in
      (
        n,
        record {
          by_hash = claim (hash s) n by_hash;
          slots = slots ++ sl ∷ [];
          free = [];
          arena = (append_str s arena).2;
        },
        rw word refl,
        text_slot-New s st n (slots ++ sl ∷ []) [] v fits (Writes-snoc slots sl)
            (λ x e. absurd (omega (arith, lt-length_of_get_elem? slots n x e)))
            (λ e. omega (arith, lt-length_of_get_elem? slots 0 dead_slot v.reserved)) tt tt,
      )
  intern_new_at s by_hash slots (id ∷ free) arena v fits =
      let st : Interner = record {
        by_hash = by_hash;
        slots = slots;
        free = id ∷ free;
        arena = arena;
      } in
      let ((old, found, dead, pos), rest) = v.unused in
      let sl = text_slot s arena in
      let w : Writes slots (set slots id sl) id sl = Writes-set slots id old sl found in
      (
        id,
        record {
          by_hash = claim (hash s) id by_hash;
          slots = set slots id sl;
          free = free;
          arena = (append_str s arena).2;
        },
        rw (found, intern_new, place) refl,
        text_slot-New s st id (set slots id sl) free v fits w
            (λ x e.
              let same : old ≡ x = some-injective old x (sym found ∙ e) in
              sym (ap (λ y. y.live) same) ∙ dead)
            pos (All-IsFree-Writes slots (set slots id sl) id sl free w v.distinct.0 rest)
            v.distinct.1,
      )
