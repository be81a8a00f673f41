-- ===== src/Store/Intern.antt =====
-- internal/store/intern.go: the interner, with the 64-bit hash of texts (the package xxhash) as a
-- parameter. A state is locked for the whole of each method, so a method is one step. `none` is a
-- panic. The free list has its last entry first.
pub mod Valid
pub mod Placed
pub mod Texts
pub mod Release
use loggi.Prelude.{
  ℕ, zero, suc, ◌+◌, ◌-◌, ◌%◌, ◌^◌, Bool, true, false, not, ◌||◌, ◌&&◌, Option, none, some, List,
  [], ◌∷◌, ◌++◌, ◌==◌, leb, if◌then◌else◌, length, get_elem?, set, nat_eq, lookup, insert, delete,
  ◌>>=◌,
}
use loggi.Store.Arena.{Arena, append_str, read}
use loggi.Text.{Bytes, str_eq}

pub record InternSlot : Type 0 where
  pub off : ℕ
  pub size : ℕ
  pub refs : ℕ
  pub hash : ℕ
  pub live : Bool

pub record Interner : Type 0 where
  pub by_hash : List (ℕ × ℕ)
  pub slots : List InternSlot
  pub free : List ℕ
  pub arena : Arena

abbrev pub dead_slot : InternSlot
dead_slot = record { off = 0; size = 0; refs = 0; hash = 0; live = false }

unfoldable pub new_interner : Interner
new_interner = record { by_hash = []; slots = dead_slot ∷ []; free = []; arena = [] }

-- A uint32.
abbrev pub u32 : ℕ → ℕ
u32 n = n % 2 ^ 32

unfoldable pub equal : Interner → ℕ → Bytes → Option Bool
equal st id s = elim (get_elem? st.slots id) [
  | none ↦ some false
  | some sl ↦
      if sl.live && sl.size == length s
      then (read st.arena sl.off sl.size >>= λ t. some (str_eq t s))
      else some false
]

-- Get
unfoldable pub get : Interner → ℕ → Option Bytes
get st id = if id == 0 then some [] else elim (get_elem? st.slots id) [
  | none ↦ some []
  | some sl ↦ if sl.live then read st.arena sl.off sl.size else some []
]

-- `if _, taken := in.byHash[h]; !taken { in.byHash[h] = id }`
unfoldable pub claim : ℕ → ℕ → List (ℕ × ℕ) → List (ℕ × ℕ)
claim h id m = elim (lookup h m) [ none ↦ insert h id m | some _ ↦ m ]

-- The id of a new slot: the last freed one, or the next. The state is left without that id.
unfoldable pub place : InternSlot → Interner → Option (ℕ × Interner)
place sl st = elim st.free [
  | [] ↦ some (u32 (length st.slots), record st { slots = st.slots ++ sl ∷ [] })
  | id ∷ free ↦ elim (get_elem? st.slots id) [
    | none ↦ none
    | some _ ↦ some (id, record st { slots = set st.slots id sl; free = free })
  ]
]

-- The body of Intern below the look-up.
unfoldable pub intern_new : ℕ → Bytes → Interner → Option (ℕ × Interner)
unfolding place claim
intern_new h s st = do
  let (off, size, arena) = append_str s st.arena
  let sl : InternSlot = record { off = off; size = size; refs = 1; hash = h; live = true }
  (id, st') ← place sl (record st { arena = arena })
  some (id, record st' { by_hash = claim h id st'.by_hash })

-- `in.slots[id].refs++`
unfoldable pub bump : ℕ → Interner → Option Interner
bump id st = do
  sl ← get_elem? st.slots id
  some (record st { slots = set st.slots id (record sl { refs = u32 (sl.refs + 1) }) })

unfoldable pub retain : ℕ → Interner → Option Interner
unfolding bump
retain id st = if id == 0 then some st else bump id st

-- The end of Release, for a slot whose count is above 0.
drop_ref : ℕ → InternSlot → Interner → Interner
drop_ref id sl st =
    if sl.refs - 1 == 0
    then record st {
      by_hash = elim (lookup sl.hash st.by_hash) [
        | none ↦ st.by_hash
        | some got ↦ if got == id then delete sl.hash st.by_hash else st.by_hash
      ];
      slots = set st.slots id (record sl { refs = 0; live = false });
      free = id ∷ st.free;
    }
    else record st { slots = set st.slots id (record sl { refs = sl.refs - 1 }) }

unfoldable pub release : ℕ → Interner → Interner
unfolding drop_ref
release id st = if id == 0 then st else elim (get_elem? st.slots id) [
  | none ↦ st
  | some sl ↦ if sl.refs == 0 then st else drop_ref id sl st
]

-- The live slots and the free ids, as Stats counts them.
unfoldable pub count_live : List InternSlot → ℕ
count_live [] = 0
count_live (sl ∷ slots) = if sl.live then suc (count_live slots) else count_live slots

unfoldable pub stats : Interner → ℕ × ℕ
unfolding count_live
stats st = (count_live st.slots, length st.free)

module _ (hash : Bytes → ℕ) where
  -- Intern
  unfoldable pub intern : Bytes → Interner → Option (ℕ × Interner)
  unfolding equal bump intern_new
  intern [] st = some (0, st)
  intern (c ∷ s) st =
      let h = hash (c ∷ s) in
      elim (lookup h st.by_hash) [
        | none ↦ intern_new h (c ∷ s) st
        | some id ↦ do
          same ← equal st id (c ∷ s)
          if same then (bump id st >>= λ st'. some (id, st')) else intern_new h (c ∷ s) st
      ]
