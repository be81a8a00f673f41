-- ===== src/Server/Histogram.antt =====
-- internal/server/histogram.go: the counts of the live rows by bucket and level, with the store as it
-- stands during the call. The request's window and the reply are not modelled; `bucket_of` is the index
-- that the arithmetic of floats gives for a time, none for a negative one.
pub mod Words
pub mod Counts
use loggi.Prelude.{
  ℕ, zero, suc, ◌+◌, ◌-◌, ◌^◌, ◌≤◌, ◌<◌, ◌≡◌, refl, ap, ◌∙◌, Bool, true, false, ◌||◌, Option,
  Option-cases, Bool-cases, inl, inr, none, some, List, [], ◌∷◌, if◌then◌else◌, if_cases, length,
  get_elem?, set, length-set, lt-length_of_get_elem?, ltb, lt→ltb, filter, arith,
}
use loggi.Filter.Reader.{Library, Reader}
use loggi.Store.Bitmap.{Roaring}
use loggi.Store.Bitmap.Ascending.{range}
use loggi.Store.Intern.{u32}
use loggi.Store.Query.{RowTest, passes}
use loggi.Text.{Bytes, codes, str_eq}

pub record Cell : Type 0 where
  pub error : ℕ
  pub warn : ℕ
  pub info : ℕ
  pub debug : ℕ
  pub other : ℕ

-- One more row of a level.
unfoldable pub count_level : Bytes → Cell → Cell
count_level level c =
    if str_eq level (codes "error") || str_eq level (codes "fatal") || str_eq level (codes "panic")
    then record c { error = u32 (c.error + 1) }
    else if str_eq level (codes "warn") || str_eq level (codes "warning")
    then record c { warn = u32 (c.warn + 1) }
    else if str_eq level (codes "info") || str_eq level (codes "notice")
    then record c { info = u32 (c.info + 1) }
    else if str_eq level (codes "debug") || str_eq level (codes "trace")
    then record c { debug = u32 (c.debug + 1) }
    else record c { other = u32 (c.other + 1) }

module _ (lib : Library) (roaring : Roaring) (from to : Library.Float lib)
    (bucket_of : Library.Float lib → Option ℕ) where
  open lib use {Float, float_lt, float_le, to_lower}

  -- The cell of a row, if its time lies in the window and its filter passes it.
  unfoldable pub cell_of : Reader lib roaring → Option RowTest → ℕ → Option ℕ
  unfolding passes
  cell_of s fn seq = elim (s.hot_f64 seq (codes "ts")) [
    | none ↦ none
    | some ts ↦
        if float_lt ts from || float_le to ts
        then none
        else if passes fn seq
        then bucket_of ts
        else none
  ]

  -- A row of the loop.
  unfoldable pub count_row : Reader lib roaring → Option RowTest → ℕ → List Cell → List Cell
  unfolding cell_of count_level
  count_row s fn seq cells = elim (cell_of s fn seq) [
    | none ↦ cells
    | some i ↦ elim (get_elem? cells i) [
      | none ↦ cells
      | some c ↦ set cells i (count_level (to_lower (s.hot_string seq (codes "level"))) c)
    ]
  ]

  -- The loop, with `n` rows left.
  unfoldable pub count_rows : Reader lib roaring → Option RowTest → ℕ → ℕ → List Cell → List Cell
  unfolding count_row
  count_rows s fn zero seq cells = cells
  count_rows s fn (suc n) seq cells = count_rows s fn n (suc seq) (count_row s fn seq cells)
