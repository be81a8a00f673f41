-- ===== src/Store/Query.antt =====
-- internal/store/store.go: QueryRange and QueryRangeBitmap. A filter is a test of sequence ids over
-- the store as it stands during the query, `none` for nil; `tail` and `head` are what Tail and Head
-- return. A `limit` of 0 stands for any limit that is not positive.
pub mod Range
pub mod Fast
use loggi.Prelude.{
  ℕ, zero, suc, ◌+◌, ◌-◌, Bool, true, false, not, ◌&&◌, Option, none, some, List, [], ◌∷◌, ◌++◌,
  ◌==◌, leb, ltb, if◌then◌else◌, length,
}
use loggi.Store.Bitmap.{Roaring}

abbrev pub RowTest : Type 0
RowTest = ℕ → Bool

-- `filter == nil || filter(seq)`
unfoldable pub passes : Option RowTest → RowTest
passes none seq = true
passes (some filter) seq = filter seq

-- `limit > 0 && len(out) >= limit`
unfoldable pub is_full : ℕ → List ℕ → Bool
is_full limit out = ltb 0 limit && leb limit (length out)

-- The loop over the sequence ids; `n` of them are left.
unfoldable pub scan_range : Option RowTest → ℕ → ℕ → ℕ → List ℕ → List ℕ
unfolding passes is_full
scan_range filter limit zero seq out = out
scan_range filter limit (suc n) seq out = elim (passes filter seq) [
  | false ↦ scan_range filter limit n (suc seq) out
  | true ↦ elim (is_full limit (out ++ seq ∷ [])) [
    | true ↦ out ++ seq ∷ []
    | false ↦ scan_range filter limit n (suc seq) (out ++ seq ∷ [])
  ]
]

-- The loop over what an iterator of a bitmap has left.
unfoldable pub scan_bitmap : Option RowTest → ℕ → ℕ → ℕ → List ℕ → List ℕ → List ℕ
unfolding passes is_full
scan_bitmap residual lo hi limit [] out = out
scan_bitmap residual lo hi limit (seq ∷ it) out = elim (ltb seq lo) [
  | true ↦ scan_bitmap residual lo hi limit it out
  | false ↦ elim (leb hi seq) [
    | true ↦ out
    | false ↦ elim (passes residual seq) [
      | false ↦ scan_bitmap residual lo hi limit it out
      | true ↦ elim (is_full limit (out ++ seq ∷ [])) [
        | true ↦ out ++ seq ∷ []
        | false ↦ scan_bitmap residual lo hi limit it (out ++ seq ∷ [])
      ]
    ]
  ]
]

abbrev pub or_head : ℕ → ℕ → ℕ
or_head head hi = if hi == 0 then head else hi

abbrev pub or_tail : ℕ → ℕ → ℕ
or_tail tail lo = if ltb lo tail then tail else lo

unfoldable pub query_range : ℕ → ℕ → Option RowTest → ℕ → ℕ → ℕ → List ℕ
unfolding scan_range
query_range tail head filter lo hi limit =
    scan_range filter limit (or_head head hi - or_tail tail lo) (or_tail tail lo) []

module _ (roaring : Roaring) where
  open roaring use {Bitmap, iterate, new, add_range}

  unfoldable pub query_range_bitmap : ℕ → ℕ → Option Bitmap → Option RowTest → ℕ → ℕ → ℕ → List ℕ
  unfolding scan_range scan_bitmap
  query_range_bitmap tail head candidates residual lo hi limit =
      if leb (or_head head hi) (or_tail tail lo) then [] else elim candidates [
        | none ↦ scan_range residual limit (or_head head hi - or_tail tail lo) (or_tail tail lo) []
        | some b ↦ scan_bitmap residual (or_tail tail lo) (or_head head hi) limit (iterate b) []
      ]

  unfoldable pub all_live : ℕ → ℕ → Bitmap
  all_live tail head = add_range tail head new
