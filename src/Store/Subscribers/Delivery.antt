-- ===== src/Store/Subscribers/Delivery.antt =====
-- What a subscriber is owed among the steps of its goroutines: each row that its filter passes is queued
-- or counted as a gap, as long as Publish and Resume do not meet.
use loggi.Prelude.{ℕ, ◌+◌, ◌≤◌, ◌≡◌, true, false, Option, List, [], ◌∷◌, ◌++◌}
use loggi.Store.Query.{RowTest}
use loggi.Store.Subscribers.{resume_sub}
use loggi.Store.Subscribers.Live.{Live, appended, delivered}
use loggi.Store.Subscribers.Owed.{Owed}

-- The steps in which a Publish and a Resume run one after the other, and no filter is replaced.
pub data CalmStep : Live → Live → Type 0 where
  publish : (s : Live) → CalmStep s (delivered (appended s))
  pause : (s : Live) → CalmStep s (record s { sub = record s.sub { paused = true } })
  resume : (s : Live) → CalmStep s (record s { sub = resume_sub s.head s.tail s.sub })
  take_dropped :
      (s : Live)
      → CalmStep s
          (record s { counted = s.counted + s.sub.dropped; sub = record s.sub { dropped = 0 } })
  receive :
      (s : Live) (x : ℕ) (rest : List ℕ)
      → s.sub.out ≡ x ∷ rest
      → CalmStep s (record s { taken = s.taken ++ x ∷ []; sub = record s.sub { out = rest } })

pub data CalmReach (s : Live) : Live → Type 0 where
  here : CalmReach s s
  next : {t u : Live} → CalmReach s t → CalmStep t u → CalmReach s u

-- The subscriber lives and has its filter; it is owed the rows from `start` up to its cursor, and one
-- that is not paused is at the head.
record Accounts (p : Option RowTest) (start : ℕ) (s : Live) : Type 0 where
  pub same_filter : s.sub.filter ≡ p
  pub alive : s.sub.dead ≡ false
  pub owed : Owed p start s.sub.cursor (s.taken ++ s.sub.out) (s.counted + s.sub.dropped)
  pub caught_up : s.sub.paused ≡ false → s.sub.cursor ≡ s.head
  pub all_published : s.done ≡ s.head
  pub start-le-cursor : start ≤ s.sub.cursor
  pub cursor-le-head : s.sub.cursor ≤ s.head
  pub tail-le-head : s.tail ≤ s.head
