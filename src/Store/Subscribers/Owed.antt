-- ===== src/Store/Subscribers/Owed.antt =====
-- The rows that a subscriber is owed: queued, or counted as a gap.
use loggi.Prelude.{
  ℕ, zero, suc, ◌+◌, ◌≤◌, ◌<◌, ◌≡◌, ◌∙◌, sym, ap, subst, true, false, Bool-cases, inl, inr, Option,
  List, [], ◌∷◌, ◌++◌, ◌||◌, append_assoc, ltb, if_cases, true-ne-false, length, length-append,
  arith,
}
use loggi.Store.Bitmap.{elem}
use loggi.Store.Query.{RowTest, passes}
use loggi.Store.Subscribers.{Subscriber, sub_chan_cap, deliver, offer, walk}
use loggi.Store.Subscribers.Counting.{offer-Offered}
use loggi.Store.Subscribers.Rows.{Rows, Rows-mono, Rows-snoc}

-- Of the rows from `start` up to `c` that the filter passes, each is in `rows` or in `lost`; `rows` has no
-- others, and `lost` none that is in `rows`.
pub record Covers (p : Option RowTest) (start c : ℕ) (rows lost : List ℕ) : Type 0 where
  pub every : (x : ℕ) → start ≤ x → x < c → passes p x ≡ true → (elem x rows || elem x lost) ≡ true
  pub only : (x : ℕ) → elem x rows ≡ true → (start ≤ x) × (x < c) × (passes p x ≡ true)
  pub apart : (x : ℕ) → elem x lost ≡ true → (start ≤ x) × (x < c) × (elem x rows ≡ false)

-- As many rows are lost as gaps are counted; each row is there once, in order.
pub record Owed (p : Option RowTest) (start c : ℕ) (rows : List ℕ) (gaps : ℕ) : Type 0 where
  pub lost : List ℕ
  pub covers : Covers p start c rows lost
  pub rows_ascending : Rows c rows
  pub lost_ascending : Rows c lost
  pub told : length lost ≡ gaps

elem-snoc : (x c : ℕ) (xs : List ℕ) → elem x (xs ++ c ∷ []) ≡ (elem x xs || elem x (c ∷ []))
elem-snoc x c [] = ground arith
elem-snoc x c (y ∷ xs) = ground (arith, elem-snoc x c xs)

module _ (p : Option RowTest) (start c : ℕ) where
  -- A row that the filter stops, one that is queued, and one that is lost.
  stopped :
      (rows lost : List ℕ)
      → passes p c ≡ false
      → Covers p start c rows lost
      → Covers p start (suc c) rows lost
  stopped rows lost h v = record {
    every = λ x from less pass. elim (Bool-cases (ltb x c)) [
      | inl below ↦ ground (arith, v.every x from)
      | inr not ↦ let e : x ≡ c = ground arith in cc (ap (passes p) e)
    ];
    only = λ x here. ground (arith, v.only x here);
    apart = λ x here. ground (arith, v.apart x here);
  }

  queued :
      (rows lost : List ℕ)
      → passes p c ≡ true
      → start ≤ c
      → Covers p start c rows lost
      → Covers p start (suc c) (rows ++ c ∷ []) lost
  queued rows lost h k v = record {
    every = λ x from less pass. ground (arith, elem-snoc x c rows, v.every x from);
    only = λ x here. elim (Bool-cases (elem x rows)) [
      | inl old ↦ ground (arith, v.only x old)
      | inr new ↦
          let e : x ≡ c = ground (arith, elem-snoc x c rows) in
          (omega arith, omega arith, ap (passes p) e ∙ h)
    ];
    apart = λ x here. ground (arith, v.apart x here, elem-snoc x c rows);
  }

  missed :
      (rows lost : List ℕ)
      → start ≤ c
      → Covers p start c rows lost
      → Covers p start (suc c) rows (lost ++ c ∷ [])
  missed rows lost k v = record {
    every = λ x from less pass. ground (arith, elem-snoc x c lost, v.every x from);
    only = λ x here. ground (arith, v.only x here);
    apart = λ x here. elim (Bool-cases (elem x lost)) [
      | inl old ↦ ground (arith, v.apart x old)
      | inr new ↦
          let e : x ≡ c = ground (arith, elem-snoc x c lost) in
          elim (Bool-cases (elem x rows)) [
            | inl there ↦ absurd (omega (arith, (v.only x there).1, e))
            | inr absent ↦ (omega arith, omega arith, absent)
          ]
    ];
  }

module _ (p : Option RowTest) (start : ℕ) (taken : List ℕ) (counted : ℕ) where
  -- What is owed of the rows up to `c`, with what the consumer has.
  abbrev pub OwedTo : ℕ → Subscriber → Type 0
  OwedTo c sub = Owed p start c (taken ++ sub.out) (counted + sub.dropped)

  deliver-OwedTo :
      (c : ℕ) (sub : Subscriber)
      → sub.dead ≡ false
      → passes p c ≡ true
      → start ≤ c
      → OwedTo c sub
      → OwedTo (suc c) (deliver c sub)
  unfolding deliver
  deliver-OwedTo c sub alive h k o =
      if_cases (OwedTo (suc c)) sub.dead _ _ (λ e. absurd (true-ne-false (sym e ∙ alive)))
        λ _.
          if_cases (OwedTo (suc c)) (ltb (length sub.out) sub_chan_cap) _ _
            (λ _. record {
              lost = o.lost;
              covers =
                  subst (λ rows. Covers p start (suc c) rows o.lost)
                    (append_assoc taken sub.out (c ∷ []))
                    (queued p start c (taken ++ sub.out) o.lost h k o.covers);
              rows_ascending =
                  subst (Rows (suc c)) (append_assoc taken sub.out (c ∷ []))
                    (Rows-snoc c (taken ++ sub.out) o.rows_ascending);
              lost_ascending = Rows-mono c (suc c) o.lost (omega arith) o.lost_ascending;
              told = o.told;
            })
            λ _. record {
              lost = o.lost ++ c ∷ [];
              covers = missed p start c (taken ++ sub.out) o.lost k o.covers;
              rows_ascending = Rows-mono c (suc c) _ (omega arith) o.rows_ascending;
              lost_ascending = Rows-snoc c o.lost o.lost_ascending;
              told = omega (arith, o.told, length-append {0} o.lost (c ∷ []));
            }

  pub offer-OwedTo :
      (c : ℕ) (sub : Subscriber)
      → sub.filter ≡ p
      → sub.dead ≡ false
      → start ≤ c
      → OwedTo c sub
      → OwedTo (suc c) (offer c sub)
  unfolding offer
  offer-OwedTo c sub f alive k o =
      if_cases (OwedTo (suc c)) (passes sub.filter c) _ _
        (λ h. deliver-OwedTo c sub alive (ap (λ q. passes q c) (sym f) ∙ h) k o)
        λ h. record {
          lost = o.lost;
          covers =
              stopped p start c (taken ++ sub.out) o.lost (ap (λ q. passes q c) (sym f) ∙ h)
                o.covers;
          rows_ascending = Rows-mono c (suc c) _ (omega arith) o.rows_ascending;
          lost_ascending = Rows-mono c (suc c) o.lost (omega arith) o.lost_ascending;
          told = o.told;
        }

  pub walk-OwedTo :
      (n c : ℕ) (sub : Subscriber)
      → sub.filter ≡ p
      → sub.dead ≡ false
      → start ≤ c
      → OwedTo c sub
      → OwedTo (c + n) (walk n c sub)
  unfolding walk
  walk-OwedTo zero c sub f alive k o = let e : c + 0 ≡ c = omega arith in rw e o
  walk-OwedTo (suc n) c sub f alive k o =
      let a = offer-Offered c sub in
      let e : suc c + n ≡ c + suc n = omega arith in
      subst (λ d. OwedTo d (walk n (suc c) (offer c sub))) e
        (walk-OwedTo n (suc c) (offer c sub) (a.filter_same ∙ f) (a.dead_same ∙ alive) (omega arith)
          (offer-OwedTo c sub f alive k o))

-- Rows that were evicted before they were offered.
pub evicted-Owed :
    (p : Option RowTest) (start : ℕ) (rows : List ℕ) (n c gaps : ℕ)
    → start ≤ c
    → Owed p start c rows gaps
    → Owed p start (c + n) rows (gaps + n)
evicted-Owed p start rows zero c gaps k o =
    let e : c + 0 ≡ c = omega arith in let e' : gaps + 0 ≡ gaps = omega arith in rw e (rw e' o)
evicted-Owed p start rows (suc n) c gaps k o =
    let e : suc c + n ≡ c + suc n = omega arith in
    let e' : suc gaps + n ≡ gaps + suc n = omega arith in
    subst (λ d. Owed p start d rows (gaps + suc n)) e
      (subst (Owed p start (suc c + n) rows) e' (
        evicted-Owed p start rows n (suc c) (suc gaps) (omega arith) (record {
          lost = o.lost ++ c ∷ [];
          covers = missed p start c rows o.lost k o.covers;
          rows_ascending = Rows-mono c (suc c) rows (omega arith) o.rows_ascending;
          lost_ascending = Rows-snoc c o.lost o.lost_ascending;
          told = omega (arith, o.told, length-append {0} o.lost (c ∷ []));
        })))
