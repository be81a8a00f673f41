-- ===== src/Store/Subscribers/Rows.antt =====
-- The rows that a subscriber gets, under the parts of publish and Resume.
use loggi.Prelude.{
  ℕ, suc, ◌≤◌, ◌<◌, ◌≡◌, ◌⊎◌, refl, sym, subst, List, [], ◌∷◌, ◌++◌, append_assoc, ltb, if_cases,
  Bool-cases, inl, inr, length, length-append, All, arith, ltb→lt,
}
use loggi.Store.Bitmap.{IsAscending}
use loggi.Store.Query.{passes}
use loggi.Store.Subscribers.{
  Subscriber, sub_chan_cap, deliver, offer, advance, count_evicted, resume_from,
}

-- In strictly ascending order, and below a row.
abbrev pub Rows : ℕ → List ℕ → Type 0
Rows c xs = IsAscending xs × All (λ x. x < c) xs

All-lt_mono : (c d : ℕ) (xs : List ℕ) → c ≤ d → All (λ x. x < c) xs → All (λ x. x < d) xs
All-lt_mono c d [] h a = tt
All-lt_mono c d (x ∷ xs) h (a, rest) = (omega arith, All-lt_mono c d xs h rest)

pub Rows-mono : (c d : ℕ) (xs : List ℕ) → c ≤ d → Rows c xs → Rows d xs
Rows-mono c d xs h r = (r.0, All-lt_mono c d xs h r.1)

All-lt-snoc :
    (y c : ℕ) (xs : List ℕ) → y < c → All (λ x. y < x) xs → All (λ x. y < x) (xs ++ c ∷ [])
All-lt-snoc y c [] h a = (h, tt)
All-lt-snoc y c (x ∷ xs) h a = (a.0, All-lt-snoc y c xs h a.1)

pub Rows-snoc : (c : ℕ) (xs : List ℕ) → Rows c xs → Rows (suc c) (xs ++ c ∷ [])
Rows-snoc c [] r = ((tt, tt), (omega arith, tt))
Rows-snoc c (x ∷ xs) r =
    let more = Rows-snoc c xs (r.0.1, r.1.1) in
    ((All-lt-snoc x c xs r.1.0 r.0.0, more.0), (omega (arith, r.1.0), more.1))

-- What is queued in addition keeps the order.
abbrev pub Queue : ℕ → List ℕ → Subscriber → Type 0
Queue c taken sub = Rows c (taken ++ sub.out) × (length sub.out ≤ sub_chan_cap)

pub deliver-Queue :
    (c : ℕ) (taken : List ℕ) (sub : Subscriber)
    → Queue c taken sub
    → Queue (suc c) taken (deliver c sub)
unfolding deliver
deliver-Queue c taken sub (r, room) =
    if_cases (Queue (suc c) taken) sub.dead _ _ (λ _. (Rows-mono c (suc c) _ (omega arith) r, room))
      λ _.
        if_cases (Queue (suc c) taken) (ltb (length sub.out) sub_chan_cap) _ _
          (λ h. (
            subst (Rows (suc c)) (append_assoc taken sub.out (c ∷ []))
                (Rows-snoc c (taken ++ sub.out) r),
            omega (arith, length-append sub.out (c ∷ []), ltb→lt (length sub.out) sub_chan_cap h),
          ))
          λ _. (Rows-mono c (suc c) _ (omega arith) r, room)

pub offer-Queue :
    (c : ℕ) (taken : List ℕ) (sub : Subscriber)
    → Queue c taken sub
    → Queue (suc c) taken (offer c sub)
unfolding offer
offer-Queue c taken sub q =
    if_cases (Queue (suc c) taken) (passes sub.filter c) _ _ (λ _. deliver-Queue c taken sub q)
      λ _. (Rows-mono c (suc c) _ (omega arith) q.0, q.1)

pub offer_cursor : (c : ℕ) (sub : Subscriber) → (offer c sub).cursor ≡ sub.cursor
unfolding offer deliver
offer_cursor c sub = ground arith

advance_lem :
    (c : ℕ) (sub : Subscriber)
    → ((advance c sub).out ≡ sub.out)
      × (c ≤ (advance c sub).cursor)
      × (sub.cursor ≤ (advance c sub).cursor)
      × (((advance c sub).cursor ≡ sub.cursor) ⊎ ((advance c sub).cursor ≡ c))
unfolding advance
advance_lem c sub = elim (Bool-cases (ltb sub.cursor c)) [
  | inl h ↦ rw h (refl, omega arith, omega (arith, ltb→lt sub.cursor c h), inr refl)
  | inr h ↦ rw h (refl, ground arith, omega arith, inl refl)
]

pub Queue-advance :
    (c : ℕ) (taken : List ℕ) (sub : Subscriber)
    → sub.cursor ≤ c
    → Queue c taken sub
    → Queue (advance c sub).cursor taken (advance c sub) × ((advance c sub).cursor ≡ c)
unfolding advance
Queue-advance c taken sub h q =
    let (same, up, mono, either) = advance_lem c sub in
    (
      (
        subst (λ o. Rows (advance c sub).cursor (taken ++ o)) (sym same) (Rows-mono c _ _ up q.0),
        rw same q.1,
      ),
      elim either [ inl e ↦ omega (arith, e, up, h) | inr e ↦ e ],
    )

pub count_evicted_same :
    (tail : ℕ) (sub : Subscriber)
    → ((count_evicted tail sub).out ≡ sub.out)
      × ((count_evicted tail sub).cursor ≡ sub.cursor)
      × ((count_evicted tail sub).paused ≡ sub.paused)
unfolding count_evicted
count_evicted_same tail sub = ground arith

pub resume_from_bounds :
    (head tail : ℕ) (sub : Subscriber)
    → sub.cursor ≤ head
    → tail ≤ head
    → (sub.cursor ≤ resume_from tail sub) × (resume_from tail sub ≤ head)
resume_from_bounds head tail sub h k = ground arith
