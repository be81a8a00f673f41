-- ===== src/Store/Subscribers/Resume.antt =====
-- The rows that Resume catches up on, and those that a subscriber misses: a row that is published
-- within Resume, and the rows before its first one.
use loggi.Prelude.{
  ℕ, zero, suc, Bool, List, ◌+◌, ◌-◌, ◌≤◌, ◌<◌, ◌≡◌, ◌∙◌, refl, sym, ap, true, false, none, [], ◌∷◌,
  ◌++◌, append-nil, append_assoc, if◌then◌else◌, if_cases, Bool-cases, true-ne-false, inl, inr,
  length, length-append, filter, arith, lt→ltb,
}
use loggi.Store.Bitmap.Ascending.{range}
use loggi.Store.Query.{passes}
use loggi.Store.Subscribers.{
  Subscriber, sub_chan_cap, deliver, offer, advance, publish_to, walk, count_evicted, resume_from,
  resume_walk, resume_end, resume_sub, new_subscriber,
}
use loggi.Store.Subscribers.Counting.{
  offer-Offered, walk-Offered, advance_lem, count_evicted_lem, count_evicted-eq, advance-eq,
}

pub offer_room :
    (c : ℕ) (sub : Subscriber)
    → sub.dead ≡ false
    → length sub.out < sub_chan_cap
    → offer c sub ≡ (if passes sub.filter c then record sub { out = sub.out ++ c ∷ [] } else sub)
unfolding offer deliver
offer_room c sub alive room = rw (alive, offer, deliver) (rw (lt→ltb _ _ room) refl)

-- Where there is room a walk queues the rows that pass.
walk_room :
    (n c : ℕ) (sub : Subscriber)
    → sub.dead ≡ false
    → length sub.out + n ≤ sub_chan_cap
    → walk n c sub ≡ record sub { out = sub.out ++ filter (passes sub.filter) (range c n) }
unfolding walk
walk_room zero c sub alive room = rw (append-nil sub.out) refl
walk_room (suc n) c sub alive room = elim (Bool-cases (passes sub.filter c)) [
  | inl h ↦
      let e = offer_room c sub alive (omega (arith, room)) in
      rw e (
        rw (h, filter)
          (walk_room n (suc c) (record sub { out = sub.out ++ c ∷ [] }) alive
              (omega (arith, room, length-append sub.out (c ∷ [])))
            ∙ ap (λ o. record sub { out = o })
                (append_assoc sub.out (c ∷ []) (filter (passes sub.filter) (range (suc c) n)))))
  | inr h ↦
      let e = offer_room c sub alive (omega (arith, room)) in
      rw e (rw (h, filter) (walk_room n (suc c) sub alive (omega (arith, room))))
]

publish_to_idle : (seq : ℕ) (sub : Subscriber) → sub.paused ≡ true → publish_to seq sub ≡ sub
unfolding publish_to
publish_to_idle seq sub h =
    if_cases (λ x. x ≡ sub) sub.dead _ _ (λ _. refl)
      λ _.
        if_cases (λ x. x ≡ sub) sub.paused _ _ (λ _. refl) λ k. absurd (true-ne-false (sym h ∙ k))

pub publish_to_cursor :
    (seq : ℕ) (sub : Subscriber)
    → sub.dead ≡ false
    → sub.paused ≡ false
    → sub.cursor ≤ seq
    → (publish_to seq sub).cursor ≡ suc seq
unfolding publish_to
publish_to_cursor seq sub alive live h =
    let ok = λ (x : Subscriber). x.cursor ≡ suc seq in
    if_cases ok sub.dead _ _ (λ k. absurd (true-ne-false (sym k ∙ alive)))
      λ _.
        if_cases ok sub.paused _ _ (λ k. absurd (true-ne-false (sym k ∙ live)))
          λ _.
            (advance_lem (suc seq) (offer seq sub)
              (omega (arith, (offer-Offered seq sub).cursor_same, h))).0

-- What the walk of Resume leaves alone, and where it brings the cursor.
resume_walk_lem :
    (head tail : ℕ) (sub : Subscriber)
    → sub.cursor ≤ head
    → ((resume_walk head tail sub).cursor ≡ head)
      × ((resume_walk head tail sub).dead ≡ sub.dead)
      × ((resume_walk head tail sub).paused ≡ sub.paused)
unfolding resume_walk
resume_walk_lem head tail sub h =
    let c = resume_from tail sub in
    let left = (count_evicted_lem tail sub).0 in
    let b = walk-Offered (head - c) c (count_evicted tail sub) in
    let (at, _, _, dead_same, paused_same) =
      advance_lem head (walk (head - c) c (count_evicted tail sub))
        (omega (arith, b.cursor_same, left.cursor_same, h)) in
    (at, dead_same ∙ b.dead_same ∙ left.dead_same, paused_same ∙ b.paused_same ∙ left.paused_same)

-- Resume catches up: where the channel has room for the rows up to the head, it queues, behind what is
-- queued, exactly those from the cursor on, or from the tail on if the cursor fell behind it, that the
-- filter passes; it counts the evicted ones as gaps, brings the cursor to the head and ends the pause.
pub resume_sub_lem :
    (head tail : ℕ) (sub : Subscriber)
    → sub.dead ≡ false
    → sub.cursor ≤ head
    → length sub.out + (head - resume_from tail sub) ≤ sub_chan_cap
    → resume_sub head tail sub ≡ record sub {
      out =
          sub.out
          ++ filter
              (passes sub.filter)
              (range (resume_from tail sub) (head - resume_from tail sub));
      dropped = sub.dropped + (resume_from tail sub - sub.cursor);
      cursor = head;
      paused = false;
    }
unfolding resume_sub resume_walk resume_end
resume_sub_lem head tail sub alive h room =
    let c = resume_from tail sub in
    let sub' : Subscriber = record sub { dropped = sub.dropped + (c - sub.cursor) } in
    ap (λ x. resume_end (advance head (walk (head - c) c x))) (count_evicted-eq tail sub)
    ∙ ap (λ x. resume_end (advance head x)) (walk_room (head - c) c sub' alive room)
    ∙ ap resume_end (
        advance-eq head
          (record sub' { out = sub.out ++ filter (passes sub.filter) (range c (head - c)) }) h)

range-snoc : (n c : ℕ) → range c (suc n) ≡ range c n ++ (c + n) ∷ []
range-snoc zero c = let e : c + 0 ≡ c = omega arith in rw e refl
range-snoc (suc n) c =
    let e : suc c + n ≡ c + suc n = omega arith in
    ap (λ xs. c ∷ xs) (range-snoc n (suc c) ∙ ap (λ d. range (suc c) n ++ d ∷ []) e)

filter-snoc :
    (f : ℕ → Bool) (x : ℕ) (xs : List ℕ)
    → f x ≡ true
    → filter f (xs ++ x ∷ []) ≡ filter f xs ++ x ∷ []
filter-snoc f x [] h = rw (h, filter) refl
filter-snoc f x (y ∷ xs) h = elim (Bool-cases (f y)) [
  | inl k ↦ rw (k, filter) (ap (λ t. y ∷ t) (filter-snoc f x xs h))
  | inr k ↦ rw (k, filter) (filter-snoc f x xs h)
]

length-filter-range : (f : ℕ → Bool) (n c : ℕ) → length (filter f (range c n)) ≤ n
length-filter-range f zero c = omega arith
length-filter-range f (suc n) c = ground (arith, length-filter-range f n (suc c))

publish_to_queues :
    (seq : ℕ) (sub : Subscriber)
    → sub.dead ≡ false
    → sub.paused ≡ false
    → passes sub.filter seq ≡ true
    → length sub.out < sub_chan_cap
    → (publish_to seq sub).out ≡ sub.out ++ seq ∷ []
unfolding publish_to advance offer deliver
publish_to_queues seq sub alive live pass room = ground (arith, lt→ltb _ _ room)

-- A row between its Append and its publish, when a whole Resume runs there, is queued twice: where the
-- subscriber is not dead, its cursor and the tail are not above the row, the channel has room and the
-- filter passes the row, Resume queues it as the last row below the head, and publish queues it again
-- right behind.
pub publish_to-resume_sub :
    (head tail : ℕ) (sub : Subscriber)
    → sub.dead ≡ false
    → sub.cursor ≤ head
    → tail ≤ head
    → passes sub.filter head ≡ true
    → length sub.out + (suc head - resume_from tail sub) < sub_chan_cap
    → let c = resume_from tail sub in
      (publish_to head (resume_sub (suc head) tail sub)).out
      ≡ ((sub.out ++ filter (passes sub.filter) (range c (head - c))) ++ head ∷ []) ++ head ∷ []
publish_to-resume_sub head tail sub alive h t pass room =
    let c = resume_from tail sub in
    let low : c ≤ head = ground arith in
    let more : suc head - c ≡ suc (head - c) = omega (arith, low) in
    let last : c + (head - c) ≡ head = omega (arith, low) in
    let rows = filter (passes sub.filter) (range c (head - c)) in
    let split : filter (passes sub.filter) (range c (suc head - c)) ≡ rows ++ head ∷ [] =
      ap (λ n. filter (passes sub.filter) (range c n)) more
      ∙ ap (filter (passes sub.filter)) (range-snoc (head - c) c)
      ∙ ap (λ x. filter (passes sub.filter) (range c (head - c) ++ x ∷ [])) last
      ∙ filter-snoc (passes sub.filter) head (range c (head - c)) pass in
    let queue : sub.out ++ filter (passes sub.filter) (range c (suc head - c))
        ≡ (sub.out ++ rows) ++ head ∷ [] =
      ap (λ x. sub.out ++ x) split ∙ sym (append_assoc sub.out rows (head ∷ [])) in
    let resumed = resume_sub_lem (suc head) tail sub alive (omega arith) (omega (arith, room)) in
    let few : length (filter (passes sub.filter) (range c (suc head - c))) ≤ suc head - c =
      length-filter-range (passes sub.filter) (suc head - c) c in
    ap (λ (x : Subscriber). (publish_to head x).out) resumed
    ∙ publish_to_queues head _ alive refl pass (
        omega (
          arith,
          room,
          few,
          length-append sub.out (filter (passes sub.filter) (range c (suc head - c))),
        ))
    ∙ ap (λ x. x ++ head ∷ []) queue

-- A row that is published between the walk of Resume and the end of the pause is lost: it is neither
-- queued nor counted as a gap, whatever the filter, and the next row that is published moves the cursor
-- past it.
pub publish_to-resume_walk :
    (head tail : ℕ) (sub : Subscriber)
    → sub.dead ≡ false
    → sub.paused ≡ true
    → sub.cursor ≤ head
    → (resume_end (publish_to head (resume_walk head tail sub)) ≡ resume_sub head tail sub)
      × ((publish_to (suc head) (resume_sub head tail sub)).cursor ≡ suc (suc head))
      × (resume_sub head tail sub).cursor ≡ head
unfolding resume_sub resume_end
publish_to-resume_walk head tail sub alive paused h =
    let (at, dead_same, paused_same) = resume_walk_lem head tail sub h in
    (
      ap resume_end (publish_to_idle head (resume_walk head tail sub) (paused_same ∙ paused)),
      publish_to_cursor (suc head) (resume_sub head tail sub) (dead_same ∙ alive) refl
          (omega (arith, at)),
      at,
    )

-- The first row published to a new subscriber with no filter is queued whatever row it asked to start
-- from, and its cursor moves past that row, so that earlier rows it asked for are neither queued nor
-- counted as gaps.
pub publish_to-new_subscriber :
    (id head from_seq : ℕ)
    → let sub = publish_to head (new_subscriber id head none from_seq) in
      (sub.out ≡ head ∷ []) × (sub.dropped ≡ 0) × (head < sub.cursor)
unfolding publish_to offer deliver passes advance new_subscriber
publish_to-new_subscriber id head from_seq = ground arith
