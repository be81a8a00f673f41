-- ===== src/Store/Subscribers/Counting.antt =====
-- What the parts of publish and Resume leave alone in a subscriber.
use loggi.Prelude.{ℕ, zero, suc, ◌+◌, ◌-◌, ◌≤◌, ◌≡◌, ◌∙◌, arith}
use loggi.Store.Subscribers.{Subscriber, deliver, offer, advance, walk, count_evicted, resume_from}

-- What offering rows leaves alone.
pub record Offered (sub sub' : Subscriber) : Type 0 where
  pub filter_same : sub'.filter ≡ sub.filter
  pub dead_same : sub'.dead ≡ sub.dead
  pub paused_same : sub'.paused ≡ sub.paused
  pub cursor_same : sub'.cursor ≡ sub.cursor

pub offer-Offered : (c : ℕ) (sub : Subscriber) → Offered sub (offer c sub)
unfolding offer deliver
offer-Offered c sub = ground arith

pub walk-Offered : (n c : ℕ) (sub : Subscriber) → Offered sub (walk n c sub)
unfolding walk
walk-Offered zero c sub = ground arith
walk-Offered (suc n) c sub =
    let a = offer-Offered c sub in
    let b = walk-Offered n (suc c) (offer c sub) in
    record {
      filter_same = b.filter_same ∙ a.filter_same;
      dead_same = b.dead_same ∙ a.dead_same;
      paused_same = b.paused_same ∙ a.paused_same;
      cursor_same = b.cursor_same ∙ a.cursor_same;
    }

pub advance_lem :
    (c : ℕ) (sub : Subscriber)
    → sub.cursor ≤ c
    → ((advance c sub).cursor ≡ c)
      × ((advance c sub).out ≡ sub.out)
      × ((advance c sub).filter ≡ sub.filter)
      × ((advance c sub).dead ≡ sub.dead)
      × ((advance c sub).paused ≡ sub.paused)
unfolding advance
advance_lem c sub h = ground arith

pub count_evicted_lem :
    (tail : ℕ) (sub : Subscriber)
    → Offered sub (count_evicted tail sub)
      × ((count_evicted tail sub).dropped ≡ sub.dropped + (resume_from tail sub - sub.cursor))
unfolding count_evicted
count_evicted_lem tail sub = ground arith

pub count_evicted-eq :
    (tail : ℕ) (sub : Subscriber)
    → count_evicted tail sub
      ≡ record sub { dropped = sub.dropped + (resume_from tail sub - sub.cursor) }
unfolding count_evicted
count_evicted-eq tail sub = ground arith

pub advance-eq :
    (c : ℕ) (sub : Subscriber) → sub.cursor ≤ c → advance c sub ≡ record sub { cursor = c }
unfolding advance
advance-eq c sub h = ground arith
