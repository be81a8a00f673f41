-- ===== src/Filter/Plan/Query.antt =====
-- A planned query returns the rows that the naive query returns for the compiled filter, as
-- internal/server asks them for the backlog of a subscription.
use mathlib.Core.Option
use loggi.Prelude.{
  ℕ, ◌-◌, ◌^◌, ◌≤◌, ◌<◌, ◌≡◌, refl, sym, ap, ◌∙◌, Bool, true, Option, none, some, List, [], ◌∷◌,
  arith, filter,
}
use loggi.Store.Bitmap.{Roaring, elem}
use loggi.Store.Bitmap.Ascending.{range, elem-range}
use loggi.Store.Query.{RowTest, passes, or_head, or_tail, query_range, query_range_bitmap}
use loggi.Store.Query.Fast.{candidate_test, query_range_bitmap-query_range}
use loggi.Store.Query.Range.{up_to, query_range_lem}
use loggi.Filter.Ast.{Node}
use loggi.Filter.Eval.{EvalFn, compile, wrap}
use loggi.Filter.Plan.{uint32, eval_parts, plan_eval, compile_plan}
use loggi.Filter.Plan.Sound.{IndexAgrees, compile_plan-compile_filter}
use loggi.Filter.Reader.{Library, Reader}

filter_congr :
    (p q : ℕ → Bool) (xs : List ℕ)
    → ((x : ℕ) → elem x xs ≡ true → p x ≡ q x)
    → filter p xs ≡ filter q xs
filter_congr p q [] h = refl
filter_congr p q (x ∷ xs) h =
    let first : p x ≡ q x = h x (ground arith) in
    let others : filter p xs ≡ filter q xs = filter_congr p q xs (λ y m. h y (ground arith)) in
    ground arith

module _ (lib : Library) (roaring : Roaring) where
  open lib use {Float, Regexp}
  open roaring use {Bitmap, contains}

  -- A residual test over the store as it stands.
  abbrev pub at_store : Reader lib roaring → Option (EvalFn lib roaring) → Option RowTest
  at_store s none = none
  at_store s (some f) = some (f s)

  parts_test :
      (s : Reader lib roaring) (c : Option Bitmap) (r : Option (EvalFn lib roaring))
      (f : EvalFn lib roaring) (seq : ℕ)
      → eval_parts lib roaring c r ≡ some f
      → passes (candidate_test roaring c (at_store s r)) seq ≡ f s seq
  unfolding eval_parts passes
  parts_test s none none f seq e = cc
  parts_test s none (some r) f seq e = ap (λ g. g s seq) (Option.some-injective _ _ e)
  parts_test s (some b) none f seq e =
      let k : contains b (uint32 seq) ≡ f s seq = ap (λ g. g s seq) (Option.some-injective _ _ e) in
      ground arith
  parts_test s (some b) (some r) f seq e = ap (λ g. g s seq) (Option.some-injective _ _ e)

  same_test :
      (s : Reader lib roaring) (n : Node Float Regexp) (seq : ℕ)
      → IndexAgrees lib roaring s seq n
      → let p = compile_plan lib roaring s (some n) in
        passes (candidate_test roaring p.candidates (at_store s p.residual)) seq
        ≡ passes (some (wrap lib roaring (compile lib roaring s n) s)) seq
  unfolding plan_eval passes
  same_test s n seq h =
      let p = compile_plan lib roaring s (some n) in
      let (f, e, v) = compile_plan-compile_filter lib roaring s n seq h in
      parts_test s p.candidates p.residual f seq e ∙ v

  in_live :
      (tail head lo hi x : ℕ)
      → elem x (range (or_tail tail lo) (or_head head hi - or_tail tail lo)) ≡ true
      → (tail ≤ x) × (x < or_head head hi)
  in_live tail head lo hi x m =
      ground (arith, elem-range x (or_tail tail lo) (or_head head hi - or_tail tail lo))

  -- The planned query of a filter returns the rows that the naive query returns for the compiled
  -- filter, provided that at most 2 ^ 32 ids were given out and that in the window the index of each
  -- hot dictionary column named by an equality of the filter agrees with the column's values.
  pub planned_query :
      (s : Reader lib roaring) (n : Node Float Regexp) (tail head lo hi limit : ℕ)
      → or_head head hi ≤ 2 ^ 32
      → ((seq : ℕ) → tail ≤ seq → seq < or_head head hi → IndexAgrees lib roaring s seq n)
      → let p = compile_plan lib roaring s (some n) in
        query_range_bitmap roaring tail head p.candidates (at_store s p.residual) lo hi limit
        ≡ query_range tail head (some (wrap lib roaring (compile lib roaring s n) s)) lo hi limit
  planned_query s n tail head lo hi limit small agrees =
      let p = compile_plan lib roaring s (some n) in
      let test = wrap lib roaring (compile lib roaring s n) s in
      query_range_bitmap-query_range roaring tail head p.candidates (at_store s p.residual) lo hi
        limit small
      ∙ query_range_lem tail head (candidate_test roaring p.candidates (at_store s p.residual)) lo
          hi limit
      ∙ ap (up_to limit) (
          filter_congr _ _ (range (or_tail tail lo) (or_head head hi - or_tail tail lo)) (λ x m.
            let (from, below) = in_live tail head lo hi x m in
            same_test s n x (agrees x from below)))
      ∙ sym (query_range_lem tail head (some test) lo hi limit)
