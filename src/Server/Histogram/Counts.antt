-- ===== src/Server/Histogram/Counts.antt =====
-- The counts of the histogram of internal/server/histogram.go against the rows that belong to them.
use native.Mathlib.Decide.{ℕ_discrete}
use loggi.Prelude.{
  ℕ, zero, suc, ◌+◌, ◌-◌, ◌^◌, ◌≤◌, ◌<◌, ◌≡◌, refl, ap, subst, ◌∙◌, Bool, true, false, not, ◌||◌,
  ◌&&◌, Option, Option-cases, Bool-cases, inl, inr, none, some, List, ◌∷◌, ◌==◌, nat_eq,
  if◌then◌else◌, length, get_elem?, get_elem?-set_self, get_elem?-set_ne, set,
  lt-length_of_get_elem?, filter, arith,
}
use loggi.Filter.Reader.{Library, Reader}
use loggi.Server.Histogram.{Cell, count_level, cell_of, count_row, count_rows}
use loggi.Store.Bitmap.{Roaring}
use loggi.Store.Bitmap.Ascending.{range}
use loggi.Store.Query.{RowTest, passes}
use loggi.Text.{Bytes, codes}
use loggi.Server.Histogram.Words.{
  Group, count_of, named, total, count_level-counted_as, total-counted_as, count_of-count_level,
}

length-filter :
    (p : ℕ → Bool) (x : ℕ) (xs : List ℕ)
    → length (filter p (x ∷ xs)) ≡ (if p x then 1 else 0) + length (filter p xs)
length-filter p x xs = elim (Bool-cases (p x)) [
  | inl h ↦ rw (h, filter) (omega arith)
  | inr h ↦ rw (h, filter) (omega arith)
]

module _ (lib : Library) (roaring : Roaring) (from to : Library.Float lib)
    (bucket_of : Library.Float lib → Option ℕ) where
  open lib use {Float, float_lt, float_le, to_lower}

  -- A time of the window in bucket `i`.
  abbrev pub in_bucket : Option ℕ → ℕ → Bool
  in_bucket none i = false
  in_bucket (some j) i = j == i

  abbrev pub in_window : Option Float → ℕ → Bool
  in_window none i = false
  in_window (some ts) i =
      not (float_lt ts from) && not (float_le to ts) && in_bucket (bucket_of ts) i

  -- The rows of bucket `i` and of a group: the time is in the window and the bucket, the filter, if there
  -- is one, passes the row, and the level in lower case is named by the group.
  abbrev pub belongs : Reader lib roaring → Option RowTest → ℕ → Group → ℕ → Bool
  belongs s none i g seq =
      in_window (s.hot_f64 seq (codes "ts")) i
      && named g (to_lower (s.hot_string seq (codes "level")))
  belongs s (some f) i g seq =
      in_window (s.hot_f64 seq (codes "ts")) i
      && f seq
      && named g (to_lower (s.hot_string seq (codes "level")))

  abbrev cell : Reader lib roaring → Option RowTest → ℕ → Option ℕ
  cell = cell_of lib roaring from to bucket_of

  in_bucket-if :
      (a b c : Bool) (o : Option ℕ) (i : ℕ)
      → in_bucket (if a || b then none else if c then o else none) i
        ≡ (not a && not b && in_bucket o i && c)
  in_bucket-if a b c none i = ground arith
  in_bucket-if a b c (some j) i = ground arith

  in_bucket-cell_of :
      (s : Reader lib roaring) (fn : Option RowTest) (i seq : ℕ)
      → in_bucket (cell s fn seq) i ≡ (in_window (s.hot_f64 seq (codes "ts")) i && passes fn seq)
  unfolding cell_of
  in_bucket-cell_of s fn i seq = elim (Option-cases (s.hot_f64 seq (codes "ts"))) [
    | inl e ↦ rw (e, cell_of) refl
    | inr (ts, e) ↦
        rw (e, cell_of)
          (in_bucket-if (float_lt ts from) (float_le to ts) (passes fn seq) (bucket_of ts) i)
  ]

  abbrev level : Reader lib roaring → ℕ → Bytes
  level s seq = to_lower (s.hot_string seq (codes "level"))

  belongs-cell_of :
      (s : Reader lib roaring) (fn : Option RowTest) (i : ℕ) (g : Group) (seq : ℕ)
      → belongs s fn i g seq ≡ (in_bucket (cell s fn seq) i && named g (level s seq))
  unfolding passes
  belongs-cell_of s none i g seq = ground (arith, in_bucket-cell_of s none i seq)
  belongs-cell_of s (some f) i g seq = ground (arith, in_bucket-cell_of s (some f) i seq)

  -- What a row does to the cell of a bucket.
  abbrev Grown : Reader lib roaring → Option RowTest → ℕ → ℕ → Cell → Cell → Type 0
  Grown s fn seq i c d =
      (total d ≤ suc (total c))
      × ((g : Group) → count_of g d ≡ count_of g c + (if belongs s fn i g seq then 1 else 0))

  Grown-skipped :
      (s : Reader lib roaring) (fn : Option RowTest) (seq i : ℕ) (c : Cell)
      → in_bucket (cell s fn seq) i ≡ false
      → Grown s fn seq i c c
  Grown-skipped s fn seq i c h = (omega arith, λ g. ground (arith, belongs-cell_of s fn i g seq))

  Grown-counted :
      (s : Reader lib roaring) (fn : Option RowTest) (seq i : ℕ) (c : Cell)
      → total c < 2 ^ 32 - 1
      → in_bucket (cell s fn seq) i ≡ true
      → Grown s fn seq i c (count_level (level s seq) c)
  Grown-counted s fn seq i c small h =
      let same = count_level-counted_as (level s seq) c small in
      (
        omega (arith, ap total same, total-counted_as (level s seq) c),
        λ g.
            let e : belongs s fn i g seq ≡ named g (level s seq) =
              belongs-cell_of s fn i g seq ∙ ap (λ b. b && named g (level s seq)) h in
            rw e (count_of-count_level g (level s seq) c small),
      )

  count_row-Grown :
      (s : Reader lib roaring) (fn : Option RowTest) (seq i : ℕ) (cells : List Cell) (c : Cell)
      → get_elem? cells i ≡ some c
      → total c < 2 ^ 32 - 1
      → (d : Cell) × (get_elem? (count_row lib roaring from to bucket_of s fn seq cells) i ≡ some d)
        × Grown s fn seq i c d
  unfolding count_row
  count_row-Grown s fn seq i cells c found small = elim (Option-cases (cell s fn seq)) [
    | inl e ↦ (c, rw (e, count_row) found, Grown-skipped s fn seq i c (ap (λ o. in_bucket o i) e))
    | inr (j, e) ↦ elim (ℕ_discrete j i) [
      | yes p ↦
          let hit : in_bucket (cell s fn seq) i ≡ true =
            ap (λ o. in_bucket o i) e ∙ ground (arith, p) in
          let here : get_elem? cells j ≡ some c = ap (get_elem? cells) p ∙ found in
          (
            count_level (level s seq) c,
            rw (e, count_row)
                (rw (here, count_row)
                  (subst
                    (λ k.
                      get_elem? (set cells j (count_level (level s seq) c)) k
                      ≡ some (count_level (level s seq) c))
                    p (get_elem?-set_self cells j _ (lt-length_of_get_elem? cells j c here)))),
            Grown-counted s fn seq i c small hit,
          )
      | no ne ↦
          let miss : in_bucket (cell s fn seq) i ≡ false =
            ap (λ o. in_bucket o i) e ∙ ground (arith, ne) in
          (
            c,
            rw (e, count_row)
                (elim (Option-cases (get_elem? cells j)) [
                  | inl out ↦ rw (out, count_row) found
                  | inr (b, at) ↦ rw (at, count_row) (get_elem?-set_ne cells j i _ ne ∙ found)
                ]),
            Grown-skipped s fn seq i c miss,
          )
    ]
  ]

  -- Each count of the loop is what it was and the number of the rows of the loop that belong to it, for
  -- every cell and each of its five counts: the rows with a time in the window and in the cell's bucket
  -- that the filter, if there is one, passes, and whose level in lower case is one of the count's words,
  -- or, for the last count, none of the words of the others; where what the cell held and the number of
  -- rows together stay below the bound of the machine word.
  pub count_of-count_rows :
      (s : Reader lib roaring) (fn : Option RowTest) (n seq i : ℕ) (cells : List Cell) (c : Cell)
      → get_elem? cells i ≡ some c
      → total c + n < 2 ^ 32
      → (d : Cell) × (get_elem? (count_rows lib roaring from to bucket_of s fn n seq cells) i
          ≡ some d)
        × ((g : Group)
            → count_of g d ≡ count_of g c + length (filter (belongs s fn i g) (range seq n)))
  unfolding count_rows
  count_of-count_rows s fn zero seq i cells c found small = (c, found, λ g. omega arith)
  count_of-count_rows s fn (suc n) seq i cells c found small =
      let (d, here, (few, one)) = count_row-Grown s fn seq i cells c found (omega (arith, small)) in
      let (e, there, rest) =
        count_of-count_rows s fn n (suc seq) i
          (count_row lib roaring from to bucket_of s fn seq cells) d here
          (omega (arith, few, small)) in
      (
        e,
        there,
        λ g. omega (arith, rest g, one g, length-filter (belongs s fn i g) seq (range (suc seq) n)),
      )
