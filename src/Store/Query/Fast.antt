-- ===== src/Store/Query/Fast.antt =====
-- The bitmap query returns what the naive query returns for the conjunction of membership in the
-- bitmap and the residual test.
use loggi.Prelude.{
  ℕ, ◌+◌, ◌-◌, ◌%◌, ◌^◌, ◌≤◌, ◌≡◌, refl, sym, ap, ◌∙◌, Bool-cases, inl, inr, ◌&&◌, Option, none,
  some, arith, leb, ltb, ltb→lt, filter,
}
use loggi.Store.Bitmap.{Roaring}
use loggi.Store.Bitmap.Ascending.{
  range, ascending_ext, filter-IsAscending, elem-filter, range-IsAscending, elem-range,
}
use loggi.Store.Query.{RowTest, passes, or_head, or_tail, query_range, query_range_bitmap}
use loggi.Store.Query.Range.{up_to, in_window, scan_bitmap-up_to, scan_range-up_to}

module _ (roaring : Roaring) where
  open roaring use {Bitmap, contains, iterate, elem-iterate, iterate-IsAscending}

  -- What a plan asks of a row: membership in the candidates, and the residual test.
  abbrev pub candidate_test : Option Bitmap → Option RowTest → Option RowTest
  candidate_test none residual = residual
  candidate_test (some b) residual = some (λ seq. contains b (seq % 2 ^ 32) && passes residual seq)

  same_member :
      (b : Bitmap) (residual : Option RowTest) (lo hi x : ℕ)
      → hi ≤ 2 ^ 32
      → (in_window residual lo hi x && contains b x)
        ≡ (passes (candidate_test (some b) residual) x && (leb lo x && ltb x (lo + (hi - lo))))
  unfolding passes
  same_member b residual lo hi x h = elim (Bool-cases (ltb x hi)) [
    | inl lt ↦
        let small : x % 2 ^ 32 ≡ x = omega (arith, ltb→lt x hi lt) in
        rw small (ground (arith, ltb→lt x hi lt))
    | inr ge ↦ ground arith
  ]

  same_rows :
      (b : Bitmap) (residual : Option RowTest) (lo hi : ℕ)
      → hi ≤ 2 ^ 32
      → filter (in_window residual lo hi) (iterate b)
        ≡ filter (passes (candidate_test (some b) residual)) (range lo (hi - lo))
  same_rows b residual lo hi h =
      ascending_ext _ _ (filter-IsAscending _ _ (iterate-IsAscending b))
        (filter-IsAscending _ _ (range-IsAscending lo (hi - lo)))
        λ x.
          elem-filter (in_window residual lo hi) x (iterate b)
          ∙ ap (λ m. in_window residual lo hi x && m) (elem-iterate x b)
          ∙ same_member b residual lo hi x h
          ∙ sym (
              elem-filter (passes (candidate_test (some b) residual)) x (range lo (hi - lo))
              ∙ ap (λ m. passes (candidate_test (some b) residual) x && m)
                  (elem-range x lo (hi - lo)))

  -- Over a store that has given out at most 2 ^ 32 sequence ids the bitmap query returns the rows
  -- that the naive query returns for the conjunction of membership in the candidates and the residual
  -- test, in the same order and with the same limit.
  pub query_range_bitmap-query_range :
      (tail head : ℕ) (candidates : Option Bitmap) (residual : Option RowTest) (lo hi limit : ℕ)
      → or_head head hi ≤ 2 ^ 32
      → query_range_bitmap roaring tail head candidates residual lo hi limit
        ≡ query_range tail head (candidate_test candidates residual) lo hi limit
  unfolding query_range_bitmap query_range
  query_range_bitmap-query_range tail head none residual lo hi limit h =
      elim (Bool-cases (leb (or_head head hi) (or_tail tail lo))) [
        | inl over ↦
            let e : or_head head hi - or_tail tail lo ≡ 0 = ground arith in rw over (rw e refl)
        | inr live ↦ rw live refl
      ]
  query_range_bitmap-query_range tail head (some b) residual lo hi limit h =
      elim (Bool-cases (leb (or_head head hi) (or_tail tail lo))) [
        | inl over ↦
            let e : or_head head hi - or_tail tail lo ≡ 0 = ground arith in rw over (rw e refl)
        | inr live ↦ rw live (
            scan_bitmap-up_to residual (or_tail tail lo) (or_head head hi) limit (iterate b)
              (iterate-IsAscending b)
            ∙ ap (up_to limit) (same_rows b residual (or_tail tail lo) (or_head head hi) h)
            ∙ sym (
                scan_range-up_to (candidate_test (some b) residual) limit
                  (or_head head hi - or_tail tail lo) (or_tail tail lo)))
      ]
