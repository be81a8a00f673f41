-- ===== src/Store/Blob/Payloads.antt =====
-- The payloads that the slab gives back.
use loggi.Prelude.{
  ℕ, zero, suc, ◌+◌, ◌-◌, ◌==◌, ◌^◌, ◌≤◌, ◌<◌, ◌≡◌, refl, ◌∙◌, true, false, Option, none, some,
  List, [], ◌∷◌, ◌++◌, ◌&&◌, length, length-set, get_elem?, set, get_elem?_of_lt,
  get_elem?-set_self, get_elem?-append_last, nat_eq, lookup, if_cases, get_elem?-set_ne,
  get_elem?-append_left, lt-length_of_get_elem?, ◌>>=◌, All, arith, Option-cases, inl, inr,
}
use loggi.Store.Intern.{u32, claim}
use loggi.Store.Blob.{
  BlobSlot, BlobSlab, dead_blob, new_blob_slab, equal_blob, get_blob, bump_blob, place_blob,
  put_new, put, release_blob, drop_blob,
}
use loggi.Text.{Bytes, str_eq, str_eq_iff}

-- The slot 0 stays reserved: it is never live, and the ids to reuse are those of other slots.
pub record Reserved (st : BlobSlab) : Type 0 where
  pub reserved : get_elem? st.slots 0 ≡ some dead_blob
  pub free_ids : All (λ id. (0 < id) × (id < length st.slots)) st.free

pub new_blob_slab-Reserved : Reserved new_blob_slab
unfolding new_blob_slab
new_blob_slab-Reserved = record { reserved = refl; free_ids = tt }

get_blob_at :
    (st : BlobSlab) (id : ℕ) (sl : BlobSlot)
    → 0 < id
    → get_elem? st.slots id ≡ some sl
    → sl.live ≡ true
    → get_blob st id ≡ sl.payload
unfolding get_blob
get_blob_at st zero sl pos e live = absurd (omega arith)
get_blob_at st (suc id) sl pos e live = rw (e, get_blob) (rw live (ground arith))

All-longer :
    (slots more : List BlobSlot) (free : List ℕ)
    → length slots ≤ length more
    → All (λ id. (0 < id) × (id < length slots)) free
    → All (λ id. (0 < id) × (id < length more)) free
All-longer slots more [] h a = tt
All-longer slots more (id ∷ free) h (a, rest) =
    ((a.0, omega (arith, a.1)), All-longer slots more free h rest)

abbrev pub Stores : Bytes → Option (ℕ × BlobSlab) → Type 0
Stores d none = ⊥
Stores d (some (id, st)) = (0 < id) × (get_blob st id ≡ d) × Reserved st

u32_small : (n : ℕ) → n < 2 ^ 32 → u32 n ≡ n
u32_small n h = omega arith

put_new_at :
    (h : ℕ) (d : Bytes) (by_hash : List (ℕ × ℕ)) (slots : List BlobSlot) (free : List ℕ)
    → Reserved (record { by_hash = by_hash; slots = slots; free = free })
    → length slots < 2 ^ 32
    → Stores d (put_new h d (record { by_hash = by_hash; slots = slots; free = free }))
unfolding put_new place_blob
put_new_at h d by_hash slots [] ok room =
    let pos : 0 < length slots = lt-length_of_get_elem? slots 0 dead_blob ok.reserved in
    let sl : BlobSlot = record { payload = d; hash = h; refs = 1; live = true } in
    rw (u32_small (length slots) room) (
      pos,
      get_blob_at
          (record { by_hash = claim h (length slots) by_hash; slots = slots ++ sl ∷ []; free = [] })
          (length slots) sl pos (get_elem?-append_last slots sl) refl,
      record {
        reserved = get_elem?-append_left slots (sl ∷ []) 0 pos ∙ ok.reserved;
        free_ids = tt;
      },
    )
put_new_at h d by_hash slots (id ∷ free) ok room =
    let (old, e) = get_elem?_of_lt slots id ok.free_ids.0.1 in
    let sl : BlobSlot = record { payload = d; hash = h; refs = 1; live = true } in
    rw (e, put_new, place_blob)
      (
        ok.free_ids.0.0,
        get_blob_at (record { by_hash = claim h id by_hash; slots = set slots id sl; free = free })
            id sl ok.free_ids.0.0 (get_elem?-set_self slots id sl ok.free_ids.0.1) refl,
        record {
          reserved =
              get_elem?-set_ne slots id 0 sl (λ p. omega (arith, p, ok.free_ids.0.0)) ∙ ok.reserved;
          free_ids =
              All-longer slots (set slots id sl) free (omega (arith, length-set slots id sl))
                ok.free_ids.1;
        },
      )

put_new-Stores :
    (h : ℕ) (d : Bytes) (st : BlobSlab)
    → Reserved st
    → length st.slots < 2 ^ 32
    → Stores d (put_new h d st)
put_new-Stores h d st ok room = put_new_at h d st.by_hash st.slots st.free ok room

-- The id of an equal payload is that of a live slot, so not 0.
equal_blob-live :
    (st : BlobSlab) (id : ℕ) (d : Bytes)
    → Reserved st
    → equal_blob st id d ≡ true
    → (sl : BlobSlot) × (get_elem? st.slots id ≡ some sl)
      × (sl.live ≡ true)
      × (sl.payload ≡ d)
      × (0 < id)
unfolding equal_blob
equal_blob-live st zero d ok h = absurd (grind (arith, rw (ok.reserved, equal_blob) at h))
equal_blob-live st (suc id) d ok h = elim (Option-cases (get_elem? st.slots (suc id))) [
  | inl e ↦ absurd (grind (arith, rw (e, equal_blob) at h))
  | inr (sl, e) ↦
      let both : (sl.live && str_eq sl.payload d) ≡ true = rw (e, equal_blob) at h in
      (sl, e, ground (arith, both), (str_eq_iff sl.payload d).0 (ground (arith, both)), omega arith)
]

bump_blob-Stores :
    (st : BlobSlab) (id : ℕ) (d : Bytes)
    → Reserved st
    → equal_blob st id d ≡ true
    → Stores d (bump_blob id st >>= λ st'. some (id, st'))
unfolding bump_blob
bump_blob-Stores st id d ok h =
    let (sl, e, live, same, pos) = equal_blob-live st id d ok h in
    let new : BlobSlot = record sl { refs = u32 (sl.refs + 1) } in
    let bound : id < length st.slots = lt-length_of_get_elem? st.slots id sl e in
    rw (e, bump_blob)
      (
        pos,
        get_blob_at (record st { slots = set st.slots id new }) id new pos
              (get_elem?-set_self st.slots id new bound) live
            ∙ same,
        record {
          reserved = get_elem?-set_ne st.slots id 0 new (λ p. omega (arith, p, pos)) ∙ ok.reserved;
          free_ids =
              All-longer st.slots (set st.slots id new) st.free
                (omega (arith, length-set st.slots id new)) ok.free_ids;
        },
      )

-- A write to a slot other than 0 keeps slot 0 reserved.
Reserved-set :
    (st : BlobSlab) (id : ℕ) (sl : BlobSlot) (by_hash : List (ℕ × ℕ))
    → Reserved st
    → 0 < id
    → Reserved (record st { by_hash = by_hash; slots = set st.slots id sl })
Reserved-set st id sl by_hash ok pos = record {
  reserved = get_elem?-set_ne st.slots id 0 sl (λ p. omega (arith, p, pos)) ∙ ok.reserved;
  free_ids =
      All-longer st.slots (set st.slots id sl) st.free (omega (arith, length-set st.slots id sl))
        ok.free_ids;
}

drop_blob-Reserved :
    (st : BlobSlab) (id : ℕ) (sl : BlobSlot)
    → Reserved st
    → 0 < id
    → id < length st.slots
    → Reserved (drop_blob id sl st)
unfolding drop_blob
drop_blob-Reserved st id sl ok pos bound =
    if_cases Reserved (sl.refs - 1 == 0) _ _
      (λ _.
        let r =
          Reserved-set st id (record sl { payload = []; refs = 0; live = false }) st.by_hash ok
            pos in
        record {
          reserved = r.reserved;
          free_ids = (
            (
              pos,
              omega (
                arith,
                bound,
                length-set st.slots id (record sl { payload = []; refs = 0; live = false }),
              ),
            ),
            r.free_ids,
          );
        })
      λ _. Reserved-set st id (record sl { refs = sl.refs - 1 }) st.by_hash ok pos

-- Releasing any id, in use or not, keeps slot 0 reserved and gives no id to reuse but those of other
-- slots.
pub release_blob-Reserved : (id : ℕ) (st : BlobSlab) → Reserved st → Reserved (release_blob id st)
unfolding release_blob
release_blob-Reserved id st ok =
    if_cases Reserved (id == 0) _ _ (λ _. ok)
      λ pos. elim (Option-cases (get_elem? st.slots id)) [
        | inl e ↦ rw (e, release_blob) ok
        | inr (sl, e) ↦
            rw (e, release_blob)
              (if_cases Reserved (sl.refs == 0) _ _ (λ _. ok)
                λ _.
                  drop_blob-Reserved st id sl ok (ground arith)
                    (lt-length_of_get_elem? st.slots id sl e))
      ]

module _ (hash : Bytes → ℕ) where
  -- A payload that is not empty is put without a panic, even where its hash is taken by another
  -- payload: the id is not 0, the slab gives the payload back for it, and slot 0 stays reserved. The
  -- slab has fewer than 2³² slots and its slot 0 is reserved.
  pub put_lem :
      (c : ℕ) (d : Bytes) (st : BlobSlab)
      → Reserved st
      → length st.slots < 2 ^ 32
      → Stores (c ∷ d) (put hash (c ∷ d) st)
  unfolding put
  put_lem c d st ok room = elim (Option-cases (lookup (hash (c ∷ d)) st.by_hash)) [
    | inl e ↦ rw (e, put) (put_new-Stores (hash (c ∷ d)) (c ∷ d) st ok room)
    | inr (id, e) ↦
        rw (e, put)
          (if_cases (Stores (c ∷ d)) (equal_blob st id (c ∷ d)) _ _
            (λ h. bump_blob-Stores st id (c ∷ d) ok h)
            λ _. put_new-Stores (hash (c ∷ d)) (c ∷ d) st ok room)
  ]
