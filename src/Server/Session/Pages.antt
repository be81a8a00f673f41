-- ===== src/Server/Session/Pages.antt =====
-- internal/server/session.go: the backlog and the pages of the history are the matching rows, in order,
-- without a gap and without a repeat.
use loggi.Prelude.{
  ℕ, zero, suc, ◌+◌, ◌-◌, ◌^◌, ◌≤◌, ◌<◌, ◌≡◌, refl, sym, ap, ◌∙◌, subst, Bool, true, false,
  Bool-cases, inl, inr, some, List, [], ◌∷◌, ◌++◌, ◌==◌, leb, if_cases, arith, length, drop, filter,
  min,
}
use loggi.Filter.Ast.{Node}
use loggi.Filter.Eval.{compile, wrap}
use loggi.Filter.Plan.Query.{planned_query}
use loggi.Filter.Plan.Sound.{IndexAgrees}
use loggi.Filter.Reader.{Library, Reader}
use loggi.Server.Session.{last_of, Page, planned_rows, query_backlog, or_default, history_page}
use loggi.Store.Bitmap.{Roaring, elem}
use loggi.Store.Bitmap.Ascending.{range, elem-filter, elem-range}
use loggi.Store.Query.{RowTest, passes, or_head, or_tail}
use loggi.Store.Query.Range.{query_range_lem}

elem-append_here : (x : ℕ) (ys zs : List ℕ) → elem x (ys ++ x ∷ zs) ≡ true
elem-append_here x [] zs = ground arith
elem-append_here x (y ∷ ys) zs = ground (arith, elem-append_here x ys zs)

-- The rows of a filtered range lie in it.
filter-range_bounds :
    (p : RowTest) (t k x : ℕ) (ys zs : List ℕ)
    → filter p (range t k) ≡ ys ++ x ∷ zs
    → (t ≤ x) × (x < t + k)
filter-range_bounds p t k x ys zs e =
    let here : elem x (filter p (range t k)) ≡ true = ap (elem x) e ∙ elem-append_here x ys zs in
    let a = elem-filter p x (range t k) in let b = elem-range x t k in ground (arith, here, a, b)

-- The range up to a later row starts with its start.
range_next : (t x : ℕ) → suc t ≤ x → range t (x - t) ≡ t ∷ range (suc t) (x - suc t)
range_next t x h = let e : x - t ≡ suc (x - suc t) = omega arith in rw e refl

-- What a filtered range has before one of its rows is the filtered range up to that row.
filter-range_before :
    (p : RowTest) (t k x : ℕ) (ys zs : List ℕ)
    → filter p (range t k) ≡ ys ++ x ∷ zs
    → filter p (range t (x - t)) ≡ ys
filter-range_before p t zero x [] zs e = cc
filter-range_before p t zero x (y ∷ ys) zs e = cc
filter-range_before p t (suc k) x [] zs e = elim (Bool-cases (p t)) [
  | inl kept ↦
      let e' : t ∷ filter p (range (suc t) k) ≡ x ∷ zs = rw kept at e in
      let same : t ≡ x = cc e' in
      let none_left : x - t ≡ 0 = omega (arith, same) in rw none_left refl
  | inr out ↦
      let e' : filter p (range (suc t) k) ≡ x ∷ zs = rw out at e in
      rw (range_next t x (filter-range_bounds p (suc t) k x [] zs e').0)
        (rw (out, filter) (filter-range_before p (suc t) k x [] zs e'))
]
filter-range_before p t (suc k) x (y ∷ ys) zs e = elim (Bool-cases (p t)) [
  | inl kept ↦
      let e' : t ∷ filter p (range (suc t) k) ≡ y ∷ (ys ++ x ∷ zs) = rw kept at e in
      let first : t ≡ y = cc e' in
      let rest : filter p (range (suc t) k) ≡ ys ++ x ∷ zs = cc e' in
      rw (range_next t x (filter-range_bounds p (suc t) k x ys zs rest).0)
        (rw (kept, filter) (cc (first, filter-range_before p (suc t) k x ys zs rest)))
  | inr out ↦
      let e' : filter p (range (suc t) k) ≡ y ∷ (ys ++ x ∷ zs) = rw out at e in
      rw (range_next t x (filter-range_bounds p (suc t) k x (y ∷ ys) zs e').0)
        (rw (out, filter) (filter-range_before p (suc t) k x (y ∷ ys) zs e'))
]

last_of_nil : (n : ℕ) → last_of {A = ℕ} n [] ≡ []
unfolding last_of
last_of_nil n = ground arith

drop_all : (xs : List ℕ) → drop (length xs) xs ≡ []
drop_all [] = refl
drop_all (x ∷ xs) = drop_all xs

last_of_zero : (xs : List ℕ) → last_of 0 xs ≡ []
unfolding last_of
last_of_zero [] = refl
last_of_zero (x ∷ xs) =
    let more : leb (suc (length xs)) 0 ≡ false = ground arith in
    let rest : suc (length xs) - 0 ≡ suc (length xs) = omega arith in
    rw (more, last_of) (rw rest (drop_all xs))

abbrev page : List ℕ → Bool → Page
page seqs end = record { seqs = seqs; end = end }

-- The page of a history without rows.
empty_page : (n : ℕ) → page [] true ≡ page (last_of n []) (leb 0 n)
empty_page n = let full : leb 0 n ≡ true = ground arith in rw (last_of_nil n) (rw full refl)

module _ (lib : Library) (roaring : Roaring) where
  open lib use {Float, Regexp}

  -- The rows of the window up to `hi` that the compiled filter accepts.
  abbrev pub accepted : Reader lib roaring → Node Float Regexp → ℕ → ℕ → List ℕ
  accepted s node tail hi =
      filter (wrap lib roaring (compile lib roaring s node) s) (range tail (hi - tail))

  planned_rows_lem :
      (s : Reader lib roaring) (node : Node Float Regexp) (tail head hi : ℕ)
      → 0 < hi
      → hi ≤ head
      → head ≤ 2 ^ 32
      → ((seq : ℕ) → tail ≤ seq → seq < head → IndexAgrees lib roaring s seq node)
      → planned_rows lib roaring s (some node) tail head hi ≡ accepted s node tail hi
  unfolding planned_rows passes
  planned_rows_lem s node tail head hi pos below small agrees =
      let test = wrap lib roaring (compile lib roaring s node) s in
      let top : or_head head hi ≡ hi = ground arith in
      let low : or_tail tail tail ≡ tail = ground arith in
      planned_query lib roaring s node tail head tail hi 0 (rw top (omega arith))
        (λ seq from to. agrees seq from (omega (arith, top, to)))
      ∙ query_range_lem tail head (some test) tail hi 0
      ∙ ap (λ n. filter test (range n (or_head head hi - n))) low
      ∙ ap (λ n. filter test (range tail (n - tail))) top

  -- The backlog of a subscription: the last `limit` rows of the window that the compiled filter accepts,
  -- in ascending order, where the columns' indexes agree with their values in the window and at most
  -- 2^32 ids were given out.
  pub query_backlog_lem :
      (s : Reader lib roaring) (node : Node Float Regexp) (tail head limit : ℕ)
      → head ≤ 2 ^ 32
      → ((seq : ℕ) → tail ≤ seq → seq < head → IndexAgrees lib roaring s seq node)
      → query_backlog lib roaring s (some node) tail head limit
        ≡ last_of limit (accepted s node tail head)
  unfolding query_backlog
  query_backlog_lem s node tail head limit small agrees =
      let goal = λ (xs : List ℕ). xs ≡ last_of limit (accepted s node tail head) in
      if_cases goal (limit == 0) _ _
        (λ h.
          let z : limit ≡ 0 = ground arith in rw z (sym (last_of_zero (accepted s node tail head))))
        λ _.
          if_cases goal (leb head tail) _ _
            (λ h. let z : head - tail ≡ 0 = ground arith in rw z (sym (last_of_nil limit)))
            λ h.
              ap (last_of limit)
                (planned_rows_lem s node tail head head (ground arith) (omega arith) small agrees)

  -- A page of the history before a matching row: the last `limit` of the matching rows before it, or of
  -- the default number, and the mark for the end exactly if these are all.
  pub history_page_lem :
      (s : Reader lib roaring) (node : Node Float Regexp) (tail head limit x : ℕ) (ys zs : List ℕ)
      → head ≤ 2 ^ 32
      → ((seq : ℕ) → tail ≤ seq → seq < head → IndexAgrees lib roaring s seq node)
      → accepted s node tail head ≡ ys ++ x ∷ zs
      → history_page lib roaring s (some node) tail head x limit ≡ record {
        seqs = last_of (or_default 200 limit) ys;
        end = leb (length ys) (or_default 200 limit);
      }
  unfolding history_page
  history_page_lem s node tail head limit x ys zs small agrees e =
      let test = wrap lib roaring (compile lib roaring s node) s in
      let bounds = filter-range_bounds test tail (head - tail) x ys zs e in
      let before : accepted s node tail x ≡ ys =
        filter-range_before test tail (head - tail) x ys zs e in
      let top : min x head ≡ x = omega (arith, bounds) in
      let n = or_default 200 limit in
      let goal = λ (p : Page). p ≡ record { seqs = last_of n ys; end = leb (length ys) n } in
      rw top (
        if_cases goal (leb x tail) _ _
          (λ h.
            let z : x - tail ≡ 0 = ground arith in
            let none_before : [] ≡ ys = subst (λ k. filter test (range tail k) ≡ ys) z before in
            subst (λ rows. page [] true ≡ page (last_of n rows) (leb (length rows) n)) none_before
              (empty_page n))
          λ h.
            let rows : planned_rows lib roaring s (some node) tail head x ≡ ys =
              planned_rows_lem s node tail head x (ground arith) (omega (arith, bounds)) small
                agrees
              ∙ before in
            ap (λ all. record { seqs = last_of n all; end = leb (length all) n }) rows)
