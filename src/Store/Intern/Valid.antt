-- ===== src/Store/Intern/Valid.antt =====
-- The invariant of the interner, and what each method does to the texts it holds.
use mathlib.Core.Option.{some-injective}
use native.Mathlib.Decide.{ℕ_discrete}
use loggi.Prelude.{
  ℕ, zero, suc, ◌<◌, ◌≡◌, ◌≢◌, refl, sym, ap, ◌∙◌, subst, Bool, true, false, Option, none, some,
  List, [], ◌∷◌, ◌++◌, arith, length, get_elem?, get_elem?-set_self, get_elem?-set_ne,
  get_elem?-append_last, lt-length_of_get_elem?, set, nat_eq, lookup, All,
}
use loggi.Store.Arena.{Arena, read}
use loggi.Store.Intern.{InternSlot, Interner, dead_slot, new_interner}
use loggi.Text.{Bytes}

-- What the slots hold: the text of an id that is in use, with its count.
pub record Holds (st : Interner) (id : ℕ) (t : Bytes) (refs : ℕ) : Type 0 where
  pub slot : InternSlot
  pub found : get_elem? st.slots id ≡ some slot
  pub live : slot.live ≡ true
  pub text : read st.arena slot.off slot.size ≡ some t
  pub count : slot.refs ≡ refs

-- An id that is ready for reuse.
abbrev pub IsFree : List InternSlot → ℕ → Type 0
IsFree slots id = (sl : InternSlot) × (get_elem? slots id ≡ some sl) × (sl.live ≡ false) × (id ≢ 0)

abbrev pub Distinct : List ℕ → Type 0
Distinct [] = Unit
Distinct (x ∷ xs) = All (λ y. x ≢ y) xs × Distinct xs

-- One slot of the table changes.
pub record Writes {A : Type 0} (slots slots' : List A) (id : ℕ) (sl : A) : Type 0 where
  pub at : get_elem? slots' id ≡ some sl
  pub others : (j : ℕ) → j ≢ id → get_elem? slots' j ≡ get_elem? slots j

pub Writes-set :
    {A : Type 0} (slots : List A) (id : ℕ) (old sl : A)
    → get_elem? slots id ≡ some old
    → Writes slots (set slots id sl) id sl
Writes-set slots id old sl h = record {
  at = get_elem?-set_self slots id sl (lt-length_of_get_elem? slots id old h);
  others = λ j ne. get_elem?-set_ne slots id j sl (λ e. ne (sym e));
}

get_elem?-snoc_ne :
    {A : Type 0} (slots : List A) (sl : A) (j : ℕ)
    → j ≢ length slots
    → get_elem? (slots ++ sl ∷ []) j ≡ get_elem? slots j
get_elem?-snoc_ne [] sl zero h = absurd (h refl)
get_elem?-snoc_ne [] sl (suc j) h = refl
get_elem?-snoc_ne (x ∷ slots) sl zero h = refl
get_elem?-snoc_ne (x ∷ slots) sl (suc j) h = get_elem?-snoc_ne slots sl j (λ e. h (ap suc e))

pub Writes-snoc :
    {A : Type 0} (slots : List A) (sl : A) → Writes slots (slots ++ sl ∷ []) (length slots) sl
Writes-snoc slots sl = record {
  at = get_elem?-append_last slots sl;
  others = get_elem?-snoc_ne slots sl;
}

IsFree-Writes :
    (slots slots' : List InternSlot) (id j : ℕ) (sl : InternSlot)
    → Writes slots slots' id sl
    → id ≢ j
    → IsFree slots j
    → IsFree slots' j
IsFree-Writes slots slots' id j sl w ne (old, e, dead, pos) =
    (old, w.others j (λ p. ne (sym p)) ∙ e, dead, pos)

pub All-IsFree-Writes :
    (slots slots' : List InternSlot) (id : ℕ) (sl : InternSlot) (free : List ℕ)
    → Writes slots slots' id sl
    → All (λ j. id ≢ j) free
    → All (IsFree slots) free
    → All (IsFree slots') free
All-IsFree-Writes slots slots' id sl [] w ne h = tt
All-IsFree-Writes slots slots' id sl (j ∷ free) w (ne, nes) (h, hs) =
    (IsFree-Writes slots slots' id j sl w ne h, All-IsFree-Writes slots slots' id sl free w nes hs)

-- A live slot is on no free list.
pub live-not-free :
    (slots : List InternSlot) (id : ℕ) (sl : InternSlot) (free : List ℕ)
    → get_elem? slots id ≡ some sl
    → sl.live ≡ true
    → All (IsFree slots) free
    → All (λ j. id ≢ j) free
live-not-free slots id sl [] e live h = tt
live-not-free slots id sl (j ∷ free) e live ((old, e', dead, pos), hs) = (
  (λ p.
      let same : some old ≡ some sl = sym e' ∙ ap (get_elem? slots) (sym p) ∙ e in
      cc (ap (λ o. live_of o) same)),
  live-not-free slots id sl free e live hs,
)
  where
    live_of : Option InternSlot → Bool
    live_of none = false
    live_of (some x) = x.live

module _ (hash : Bytes → ℕ) where
  -- The text of a live slot, of its hash and its length.
  pub record IsReadable (arena : Arena) (sl : InternSlot) : Type 0 where
    pub body : Bytes
    pub text : read arena sl.off sl.size ≡ some body
    pub hashed : sl.hash ≡ hash body
    pub sized : sl.size ≡ length body
    pub counted : 0 < sl.refs

  -- Id 0 stands for no text; a live slot has a readable text and is referred to; a hash leads to a
  -- live slot of that hash; free ids are unused and listed once.
  pub record IsValid (st : Interner) : Type 0 where
    pub reserved : get_elem? st.slots 0 ≡ some dead_slot
    pub readable :
        (id : ℕ) (sl : InternSlot)
        → get_elem? st.slots id ≡ some sl
        → sl.live ≡ true
        → IsReadable st.arena sl
    pub indexed :
        (h id : ℕ)
        → lookup h st.by_hash ≡ some id
        → (sl : InternSlot) × (get_elem? st.slots id ≡ some sl) × (sl.live ≡ true) × (sl.hash ≡ h)
    pub unused : All (IsFree st.slots) st.free
    pub distinct : Distinct st.free

  pub new_interner-IsValid : IsValid new_interner
  unfolding new_interner
  new_interner-IsValid = record {
    reserved = refl;
    readable = only_reserved;
    indexed = λ h id e. cc;
    unused = tt;
    distinct = tt;
  }
    where
      only_reserved :
          (id : ℕ) (sl : InternSlot)
          → get_elem? (dead_slot ∷ []) id ≡ some sl
          → sl.live ≡ true
          → IsReadable [] sl
      only_reserved zero sl e live = absurd (ground arith)
      only_reserved (suc id) sl e live = cc

  -- One write keeps the invariant where the new slot satisfies it and the index is in order.
  pub IsValid-Writes :
      (st : Interner) (by_hash : List (ℕ × ℕ)) (slots : List InternSlot) (free : List ℕ)
      (arena : Arena) (id : ℕ) (sl : InternSlot)
      → IsValid st
      → Writes st.slots slots id sl
      → id ≢ 0
      → (sl.live ≡ true → IsReadable arena sl)
      → ((off n : ℕ) (t : Bytes) → read st.arena off n ≡ some t → read arena off n ≡ some t)
      → ((h j : ℕ)
          → lookup h by_hash ≡ some j
          → (x : InternSlot) × (get_elem? slots j ≡ some x) × (x.live ≡ true) × (x.hash ≡ h))
      → All (IsFree slots) free
      → Distinct free
      → IsValid (record { by_hash = by_hash; slots = slots; free = free; arena = arena })
  IsValid-Writes st by_hash slots free arena id sl v w ne new keep index unused distinct = record {
    reserved = w.others 0 (λ e. ne (sym e)) ∙ v.reserved;
    readable = each;
    indexed = index;
    unused = unused;
    distinct = distinct;
  }
    where
      each :
          (j : ℕ) (x : InternSlot) → get_elem? slots j ≡ some x → x.live ≡ true → IsReadable arena x
      each j x e live = elim (ℕ_discrete j id) [
        | yes p ↦
            let same : sl ≡ x = some-injective sl x (sym w.at ∙ ap (get_elem? slots) (sym p) ∙ e) in
            subst (IsReadable arena) same (new (ap (λ y. y.live) same ∙ live))
        | no np ↦
            let r = v.readable j x (sym (w.others j np) ∙ e) live in
            record {
              body = r.body;
              text = keep x.off x.size r.body r.text;
              hashed = r.hashed;
              sized = r.sized;
              counted = r.counted;
            }
      ]
