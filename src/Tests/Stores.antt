-- ===== src/Tests/Stores.antt =====
-- internal/store at concrete inputs.
use mathlib.Core.Option
use loggi.Prelude.{
  ℕ, zero, suc, ◌-◌, ◌^◌, ◌<◌, ◌≡◌, ◌≢◌, refl, ap, sym, subst, Bool, true, false, ◌||◌, Option,
  none, some, [], ◌∷◌, ◌==◌, arith, get_elem?, if◌then◌else◌, nat_eq, lookup,
}
use loggi.Text.{Bytes, codes}
use loggi.Store.Arena.{read}
use loggi.Store.Intern.{Interner, InternSlot, dead_slot, new_interner, intern, release}
use loggi.Store.Intern.Valid.{IsValid, IsReadable, Holds, new_interner-IsValid}
use loggi.Store.Intern.Texts.{Interned, intern_lem}
use loggi.Store.Intern.Release.{Left, release_lem}
use loggi.Store.Blob.{BlobSlab, dead_blob, new_blob_slab, put}
use loggi.Store.Blob.Payloads.{Stores, new_blob_slab-Reserved, put_lem}
use loggi.Store.Query.{RowTest, query_range, query_range_bitmap}
use loggi.Store.Query.Fast.{candidate_test, query_range_bitmap-query_range}
use loggi.Tests.Library.{Flags, flags, first_byte}

abbrev odd_rows : Flags
odd_rows = record { bound = 6; member = λ x. x == 1 || x == 3 || x == 5 }

abbrev not_three : RowTest
not_three seq = if seq == 3 then false else true

query_range_bitmap-query_range_example :
    query_range_bitmap flags 1 8 (some odd_rows) (some not_three) 0 0 2
    ≡ query_range 1 8 (candidate_test flags (some odd_rows) (some not_three)) 0 0 2
query_range_bitmap-query_range_example =
    query_range_bitmap-query_range flags 1 8 (some odd_rows) (some not_three) 0 0 2 (omega arith)

abbrev refs_of : ℕ → Option InternSlot → ℕ
refs_of d none = d
refs_of d (some sl) = sl.refs

pub new_interner-small :
    (id : ℕ) (sl : InternSlot) → get_elem? new_interner.slots id ≡ some sl → sl.refs < 2 ^ 32 - 1
unfolding new_interner
new_interner-small zero sl e = omega (arith, ap (refs_of 0) e)
new_interner-small (suc id) sl e = cc

intern_lem_example :
    (id : ℕ) × (st : Interner) × (intern first_byte (codes "msg") new_interner ≡ some (id, st))
    × IsValid first_byte st
    × Interned first_byte new_interner (codes "msg") id st
unfolding new_interner
intern_lem_example =
    intern_lem first_byte b'm' (codes "sg") new_interner (new_interner-IsValid first_byte)
      (record { ids = omega arith; chunks = omega arith; bytes = omega arith }) new_interner-small

put_lem_example : Stores (codes "stack") (put first_byte (codes "stack") new_blob_slab)
unfolding new_blob_slab
put_lem_example =
    put_lem first_byte b's' (codes "tack") new_blob_slab new_blob_slab-Reserved (omega arith)

-- `msg`, referred to twice.
abbrev msg_slot : InternSlot
msg_slot = record { off = 0; size = 3; refs = 2; hash = b'm'; live = true }

abbrev one_text : Interner
one_text = record {
  by_hash = (b'm', 1) ∷ [];
  slots = dead_slot ∷ msg_slot ∷ [];
  free = [];
  arena = codes "msg" ∷ [];
}

abbrev live_of : Option InternSlot → Bool
live_of none = false
live_of (some sl) = sl.live

one_text-IsReadable :
    (id : ℕ) (sl : InternSlot)
    → get_elem? one_text.slots id ≡ some sl
    → sl.live ≡ true
    → IsReadable first_byte one_text.arena sl
unfolding read
one_text-IsReadable zero sl e live = absurd (grind (arith, ap live_of e))
one_text-IsReadable (suc zero) sl e live =
    subst (IsReadable first_byte one_text.arena) (Option.some-injective msg_slot sl e) (record {
      body = codes "msg";
      text = refl;
      hashed = refl;
      sized = refl;
      counted = omega arith;
    })
one_text-IsReadable (suc (suc id)) sl e live = cc

one_text-indexed :
    (h id : ℕ)
    → lookup h one_text.by_hash ≡ some id
    → (sl : InternSlot) × (get_elem? one_text.slots id ≡ some sl) × (sl.live ≡ true) × (sl.hash ≡ h)
one_text-indexed h id e =
    let both : (1 ≡ id) × (b'm' ≡ h) = ground (arith, e) in
    (msg_slot, ap (get_elem? one_text.slots) (sym both.0), refl, both.1)

one_text-IsValid : IsValid first_byte one_text
one_text-IsValid = record {
  reserved = refl;
  readable = one_text-IsReadable;
  indexed = one_text-indexed;
  unused = tt;
  distinct = tt;
}

msg-Holds : Holds one_text 1 (codes "msg") 2
unfolding read
msg-Holds = record { slot = msg_slot; found = refl; live = refl; text = refl; count = refl }

release_lem_example :
    IsValid first_byte (release 1 one_text)
    × Left first_byte (release 1 one_text) 1 (codes "msg") 1
    × ((j : ℕ) (t : Bytes) (q : ℕ)
        → j ≢ 1
        → Holds one_text j t q
        → Holds (release 1 one_text) j t q)
release_lem_example = release_lem first_byte one_text 1 (codes "msg") 1 one_text-IsValid msg-Holds

-- One payload, referred to once.
abbrev one_blob : BlobSlab
one_blob = record {
  by_hash = (b's', 1) ∷ [];
  slots = dead_blob ∷ record { payload = codes "stack"; hash = b's'; refs = 1; live = true } ∷ [];
  free = [];
}
