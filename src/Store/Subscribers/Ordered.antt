-- ===== src/Store/Subscribers/Ordered.antt =====
-- What a subscriber gets is in order, and its channel stays within its capacity.
use loggi.Prelude.{ℕ, ◌≤◌, ◌≡◌, true, List, ◌++◌, length}
use loggi.Store.Subscribers.{Subscriber, sub_chan_cap}
use loggi.Store.Subscribers.Live.{Loop, idle, at, Live}
use loggi.Store.Subscribers.Rows.{Rows}

-- Where a subscriber stands: what it gets is below its cursor, or, in Resume, below the row of the loop,
-- which starts at the cursor or above and ends below the published rows.
abbrev pub Stands : Loop → ℕ → Subscriber → List ℕ → Type 0
Stands idle done sub rows = Rows sub.cursor rows
Stands (at c h f) done sub rows =
    (sub.paused ≡ true) × (c ≤ h) × (h ≤ done) × (sub.cursor ≤ c) × Rows c rows

pub record IsOrdered (s : Live) : Type 0 where
  pub stands : Stands s.loop s.done s.sub (s.taken ++ s.sub.out)
  pub room : length s.sub.out ≤ sub_chan_cap
  pub cursor-le-done : s.sub.cursor ≤ s.done
  pub done-le-head : s.done ≤ s.head
  pub tail-le-head : s.tail ≤ s.head
