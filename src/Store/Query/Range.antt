-- ===== src/Store/Query/Range.antt =====
-- What the two queries return, and that the bitmap query returns what the naive one does.
use loggi.Prelude.{
  ℕ, zero, suc, ◌-◌, ◌≤◌, ◌<◌, ◌≡◌, refl, sym, ◌∙◌, true, false, Bool-cases, inl, inr, ◌&&◌, Option,
  List, [], ◌∷◌, ◌++◌, append-nil, append_assoc, arith, leb, leb→le, ltb, length, length-append,
  take, filter, All,
}
use loggi.Store.Bitmap.{IsAscending}
use loggi.Store.Bitmap.Ascending.{range}
use loggi.Store.Query.{
  RowTest, passes, is_full, scan_range, scan_bitmap, or_head, or_tail, query_range,
}

-- The first `limit` entries, or all of them.
abbrev pub up_to : ℕ → List ℕ → List ℕ
up_to zero xs = xs
up_to (suc n) xs = take (suc n) xs

-- `out` is not yet full.
abbrev HasRoom : ℕ → List ℕ → Type 0
HasRoom zero out = Unit {0}
HasRoom (suc n) out = length out < suc n

-- What a loop returns that has collected `out` and meets `xs`.
abbrev rest_of : ℕ → List ℕ → List ℕ → List ℕ
rest_of zero out xs = out ++ xs
rest_of (suc n) out xs = out ++ take (suc n - length out) xs

take-nil : (n : ℕ) → take {A = ℕ} n [] ≡ []
take-nil zero = refl
take-nil (suc n) = refl

rest_of-nil : (limit : ℕ) (out : List ℕ) → rest_of limit out [] ≡ out
rest_of-nil zero out = append-nil out
rest_of-nil (suc n) out = rw take-nil (append-nil out)

length-snoc : (out : List ℕ) (x : ℕ) → length (out ++ x ∷ []) ≡ suc (length out)
length-snoc out x = omega (arith, length-append out (x ∷ []))

is_full_snoc : (n x : ℕ) (out : List ℕ) → is_full (suc n) (out ++ x ∷ []) ≡ leb n (length out)
unfolding is_full
is_full_snoc n x out = ground (arith, length-snoc out x)

HasRoom-snoc :
    (limit x : ℕ) (out : List ℕ)
    → is_full limit (out ++ x ∷ []) ≡ false
    → HasRoom limit (out ++ x ∷ [])
HasRoom-snoc zero x out h = tt
HasRoom-snoc (suc n) x out h = ground (arith, is_full_snoc n x out, length-snoc out x)

-- The last entry that fits.
rest_of_full :
    (limit x : ℕ) (out xs : List ℕ)
    → HasRoom limit out
    → is_full limit (out ++ x ∷ []) ≡ true
    → rest_of limit out (x ∷ xs) ≡ out ++ x ∷ []
unfolding is_full
rest_of_full zero x out xs h full = absurd (ground arith)
rest_of_full (suc n) x out xs h full =
    let e : suc n - length out ≡ 1 = ground (arith, length-snoc out x) in rw e

-- An entry after which there is room.
rest_of_more :
    (limit x : ℕ) (out xs : List ℕ)
    → HasRoom limit out
    → is_full limit (out ++ x ∷ []) ≡ false
    → rest_of limit out (x ∷ xs) ≡ rest_of limit (out ++ x ∷ []) xs
rest_of_more zero x out xs h full = sym (append_assoc out (x ∷ []) xs)
rest_of_more (suc n) x out xs h full =
    let e : suc n - length out ≡ suc (suc n - length (out ++ x ∷ [])) =
      ground (arith, is_full_snoc n x out, length-snoc out x) in
    rw e (sym (append_assoc out (x ∷ []) (take (suc n - length (out ++ x ∷ [])) xs)))

scan_range_lem :
    (test : Option RowTest) (limit n lo : ℕ) (out : List ℕ)
    → HasRoom limit out
    → scan_range test limit n lo out ≡ rest_of limit out (filter (passes test) (range lo n))
unfolding scan_range
scan_range_lem test limit zero lo out h = sym (rest_of-nil limit out)
scan_range_lem test limit (suc n) lo out h = elim (Bool-cases (passes test lo)) [
  | inr e ↦ rw (e, scan_range) (rw (e, filter) (scan_range_lem test limit n (suc lo) out h))
  | inl e ↦ elim (Bool-cases (is_full limit (out ++ lo ∷ []))) [
    | inl full ↦
        rw (e, scan_range)
          (rw (full, scan_range)
            (rw (e, filter)
              (sym (rest_of_full limit lo out (filter (passes test) (range (suc lo) n)) h full))))
    | inr more ↦
        rw (e, scan_range)
          (rw (more, scan_range)
            (rw (e, filter)
              (scan_range_lem test limit n (suc lo) (out ++ lo ∷ [])
                  (HasRoom-snoc limit lo out more)
                ∙ sym
                    (rest_of_more limit lo out (filter (passes test) (range (suc lo) n)) h more))))
  ]
]

-- What the bitmap loop keeps.
abbrev pub in_window : Option RowTest → ℕ → ℕ → RowTest
in_window test lo hi x = leb lo x && ltb x hi && passes test x

filter-past :
    (test : Option RowTest) (lo hi x : ℕ) (xs : List ℕ)
    → hi ≤ x
    → All (λ y. x < y) xs
    → filter (in_window test lo hi) xs ≡ []
filter-past test lo hi x [] le h = refl
filter-past test lo hi x (y ∷ xs) le h = ground (arith, filter-past test lo hi x xs le h.1)

scan_bitmap_lem :
    (test : Option RowTest) (lo hi limit : ℕ) (it out : List ℕ)
    → IsAscending it
    → HasRoom limit out
    → scan_bitmap test lo hi limit it out ≡ rest_of limit out (filter (in_window test lo hi) it)
unfolding scan_bitmap
scan_bitmap_lem test lo hi limit [] out a h = sym (rest_of-nil limit out)
scan_bitmap_lem test lo hi limit (x ∷ it) out a h = elim (Bool-cases (ltb x lo)) [
  | inl low ↦
      let e : in_window test lo hi x ≡ false = ground arith in
      rw (low, scan_bitmap) (rw (e, filter) (scan_bitmap_lem test lo hi limit it out a.1 h))
  | inr from ↦ elim (Bool-cases (leb hi x)) [
    | inl past ↦
        let e : filter (in_window test lo hi) (x ∷ it) ≡ [] =
          ground (arith, filter-past test lo hi x it (leb→le hi x past) a.0) in
        rw (from, scan_bitmap) (rw (past, scan_bitmap) (rw e (sym (rest_of-nil limit out))))
    | inr below ↦ elim (Bool-cases (passes test x)) [
      | inr e ↦
          let w : in_window test lo hi x ≡ false = ground arith in
          rw (from, scan_bitmap)
            (rw (below, scan_bitmap)
              (rw (e, scan_bitmap)
                (rw (w, filter) (scan_bitmap_lem test lo hi limit it out a.1 h))))
      | inl e ↦
          let w : in_window test lo hi x ≡ true = ground arith in
          elim (Bool-cases (is_full limit (out ++ x ∷ []))) [
            | inl full ↦
                rw (from, scan_bitmap)
                  (rw (below, scan_bitmap)
                    (rw (e, scan_bitmap)
                      (rw (full, scan_bitmap)
                        (rw (w, filter)
                          (sym (
                            rest_of_full limit x out (filter (in_window test lo hi) it) h full))))))
            | inr more ↦
                rw (from, scan_bitmap)
                  (rw (below, scan_bitmap)
                    (rw (e, scan_bitmap)
                      (rw (more, scan_bitmap)
                        (rw (w, filter)
                          (scan_bitmap_lem test lo hi limit it (out ++ x ∷ []) a.1
                              (HasRoom-snoc limit x out more)
                            ∙ sym (
                                rest_of_more limit x out (filter (in_window test lo hi) it) h
                                  more))))))
          ]
    ]
  ]
]

rest_of-up_to : (limit : ℕ) (xs : List ℕ) → rest_of limit [] xs ≡ up_to limit xs
rest_of-up_to zero xs = refl
rest_of-up_to (suc n) xs = let e : suc n - 0 ≡ suc n = omega arith in rw e

HasRoom-nil : (limit : ℕ) → HasRoom limit []
HasRoom-nil zero = tt
HasRoom-nil (suc n) = omega arith

pub scan_bitmap-up_to :
    (test : Option RowTest) (lo hi limit : ℕ) (it : List ℕ)
    → IsAscending it
    → scan_bitmap test lo hi limit it [] ≡ up_to limit (filter (in_window test lo hi) it)
scan_bitmap-up_to test lo hi limit it a =
    scan_bitmap_lem test lo hi limit it [] a (HasRoom-nil limit) ∙ rest_of-up_to limit _

pub scan_range-up_to :
    (test : Option RowTest) (limit n lo : ℕ)
    → scan_range test limit n lo [] ≡ up_to limit (filter (passes test) (range lo n))
scan_range-up_to test limit n lo =
    scan_range_lem test limit n lo [] (HasRoom-nil limit) ∙ rest_of-up_to limit _

-- The naive query returns the rows of the window, from the tail on, that the filter passes, in
-- order, the first `limit` of them if there is a limit.
pub query_range_lem :
    (tail head : ℕ) (test : Option RowTest) (lo hi limit : ℕ)
    → query_range tail head test lo hi limit
      ≡ up_to limit
          (filter (passes test) (range (or_tail tail lo) (or_head head hi - or_tail tail lo)))
unfolding query_range
query_range_lem tail head test lo hi limit =
    scan_range-up_to test limit (or_head head hi - or_tail tail lo) (or_tail tail lo)
