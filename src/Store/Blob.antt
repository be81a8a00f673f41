-- ===== src/Store/Blob.antt =====
-- internal/store/blob.go: the slab of large payloads, shared by content and counted, with the 64-bit
-- hash of payloads (the package xxhash) as a parameter. A state is locked for the whole of each
-- method, so a method is one step. `none` is a panic; a nil payload is the empty one. The free list
-- has its last entry first.
pub mod Payloads
use loggi.Prelude.{
  ℕ, suc, ◌+◌, ◌-◌, Bool, true, false, Option, none, some, List, [], ◌∷◌, ◌++◌, ◌==◌, ◌&&◌,
  if◌then◌else◌, length, get_elem?, set, nat_eq, lookup, delete, ◌>>=◌,
}
use loggi.Store.Intern.{u32, claim}
use loggi.Text.{Bytes, str_eq}

pub record BlobSlot : Type 0 where
  pub payload : Bytes
  pub hash : ℕ
  pub refs : ℕ
  pub live : Bool

pub record BlobSlab : Type 0 where
  pub by_hash : List (ℕ × ℕ)
  pub slots : List BlobSlot
  pub free : List ℕ

abbrev pub dead_blob : BlobSlot
dead_blob = record { payload = []; hash = 0; refs = 0; live = false }

unfoldable pub new_blob_slab : BlobSlab
new_blob_slab = record { by_hash = []; slots = dead_blob ∷ []; free = [] }

unfoldable pub equal_blob : BlobSlab → ℕ → Bytes → Bool
equal_blob st id d = elim (get_elem? st.slots id) [
  | none ↦ false
  | some sl ↦ sl.live && str_eq sl.payload d
]

unfoldable pub get_blob : BlobSlab → ℕ → Bytes
get_blob st id =
    if id == 0
    then []
    else elim (get_elem? st.slots id) [ none ↦ [] | some sl ↦ if sl.live then sl.payload else [] ]

-- `b.slots[id].refs++`
unfoldable pub bump_blob : ℕ → BlobSlab → Option BlobSlab
bump_blob id st = do
  sl ← get_elem? st.slots id
  some (record st { slots = set st.slots id (record sl { refs = u32 (sl.refs + 1) }) })

unfoldable pub retain_blob : ℕ → BlobSlab → Option BlobSlab
unfolding bump_blob
retain_blob id st = if id == 0 then some st else bump_blob id st

-- The id of a new slot: the last freed one, or the next. The state is left without that id.
unfoldable pub place_blob : BlobSlot → BlobSlab → Option (ℕ × BlobSlab)
place_blob sl st = elim st.free [
  | [] ↦ some (u32 (length st.slots), record st { slots = st.slots ++ sl ∷ [] })
  | id ∷ free ↦ elim (get_elem? st.slots id) [
    | none ↦ none
    | some _ ↦ some (id, record st { slots = set st.slots id sl; free = free })
  ]
]

-- The body of Put below the look-up.
unfoldable pub put_new : ℕ → Bytes → BlobSlab → Option (ℕ × BlobSlab)
unfolding place_blob claim
put_new h d st = do
  (id, st') ← place_blob (record { payload = d; hash = h; refs = 1; live = true }) st
  some (id, record st' { by_hash = claim h id st'.by_hash })

-- The end of Release, for a slot whose count is above 0.
unfoldable pub drop_blob : ℕ → BlobSlot → BlobSlab → BlobSlab
drop_blob id sl st =
    if sl.refs - 1 == 0
    then record st {
      by_hash = elim (lookup sl.hash st.by_hash) [
        | none ↦ st.by_hash
        | some got ↦ if got == id then delete sl.hash st.by_hash else st.by_hash
      ];
      slots = set st.slots id (record sl { payload = []; refs = 0; live = false });
      free = id ∷ st.free;
    }
    else record st { slots = set st.slots id (record sl { refs = sl.refs - 1 }) }

unfoldable pub release_blob : ℕ → BlobSlab → BlobSlab
unfolding drop_blob
release_blob id st = if id == 0 then st else elim (get_elem? st.slots id) [
  | none ↦ st
  | some sl ↦ if sl.refs == 0 then st else drop_blob id sl st
]

count_blobs : List BlobSlot → ℕ × ℕ
count_blobs [] = (0, 0)
count_blobs (sl ∷ slots) =
    let (live, bytes) = count_blobs slots in
    if sl.live then (suc live, length sl.payload + bytes) else (live, bytes)

-- Stats: the live slots, the free ids and the bytes of the live payloads.
unfoldable pub blob_stats : BlobSlab → ℕ × ℕ × ℕ
unfolding count_blobs
blob_stats st = let (live, bytes) = count_blobs st.slots in (live, length st.free, bytes)

module _ (hash : Bytes → ℕ) where
  unfoldable pub put : Bytes → BlobSlab → Option (ℕ × BlobSlab)
  unfolding equal_blob bump_blob put_new
  put [] st = some (0, st)
  put (c ∷ d) st =
      let h = hash (c ∷ d) in
      elim (lookup h st.by_hash) [
        | none ↦ put_new h (c ∷ d) st
        | some id ↦
            if equal_blob st id (c ∷ d)
            then (bump_blob id st >>= λ st'. some (id, st'))
            else put_new h (c ∷ d) st
      ]
