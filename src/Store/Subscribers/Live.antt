-- ===== src/Store/Subscribers/Live.antt =====
-- A subscriber of internal/store/store.go among the steps of publishers, of its consumer and of those who
-- pause and resume it.
use loggi.Prelude.{
  ℕ, suc, ◌+◌, ◌-◌, ◌<◌, ◌≡◌, true, Option, List, [], ◌∷◌, ◌++◌, ltb, if◌then◌else◌,
}
use loggi.Store.Query.{RowTest, passes}
use loggi.Store.Subscribers.{
  Subscriber, deliver, advance, publish_to, count_evicted, resume_from, resume_end, new_subscriber,
}

-- The loop of Resume: not running, or at a row, with the head and the filter that were read.
pub data Loop : Type 0 where
  idle : Loop
  at : ℕ → ℕ → Option RowTest → Loop

-- A store as a subscriber sees it, with what its consumer has received and the gaps it was told of. The
-- rows below `head` are appended, those below `done` are published.
pub record Live : Type 0 where
  pub head : ℕ
  pub done : ℕ
  pub tail : ℕ
  pub cap : ℕ
  pub sub : Subscriber
  pub loop : Loop
  pub taken : List ℕ
  pub counted : ℕ

-- The two halves of Publish: Append, as far as the window goes, and publish.
unfoldable pub appended : Live → Live
appended s = record s {
  head = suc s.head;
  tail = if ltb s.cap (suc s.head) then suc s.head - s.cap else s.tail;
}

unfoldable pub delivered : Live → Live
unfolding publish_to
delivered s = record s { done = suc s.done; sub = publish_to s.done s.sub }

-- Resume up to its loop, a round of the loop at row `c`, and what follows the loop.
unfoldable pub resume_begin : Live → Live
unfolding count_evicted
resume_begin s = record s {
  sub = count_evicted s.tail s.sub;
  loop = at (resume_from s.tail s.sub) s.head s.sub.filter;
}

unfoldable pub resume_row : ℕ → ℕ → Option RowTest → Live → Live
unfolding deliver passes
resume_row c h f s = record s {
  sub = if passes f c then deliver c s.sub else s.sub;
  loop = at (suc c) h f;
}

unfoldable pub resume_done : ℕ → Live → Live
unfolding advance resume_end
resume_done h s = record s { sub = resume_end (advance h s.sub); loop = idle }

-- The steps of the goroutines, in any order; what Resume reads before its loop it reads at once. A publisher appends and publishes under one lock, which
-- Resume does not take; here Resume begins on a paused subscriber, one at a time, and not between the
-- two halves of a Publish.
pub data Step : Live → Live → Type 0 where
  append : (s : Live) → s.done ≡ s.head → Step s (appended s)
  publish : (s : Live) → s.done < s.head → Step s (delivered s)
  pause : (s : Live) → Step s (record s { sub = record s.sub { paused = true } })
  begin :
      (s : Live) → s.sub.paused ≡ true → s.loop ≡ idle → s.done ≡ s.head → Step s (resume_begin s)
  round :
      (s : Live) (c h : ℕ) (f : Option RowTest)
      → s.loop ≡ at c h f
      → c < h
      → Step s (resume_row c h f s)
  finish : (s : Live) (h : ℕ) (f : Option RowTest) → s.loop ≡ at h h f → Step s (resume_done h s)
  set_filter :
      (s : Live) (f : Option RowTest) → Step s (record s { sub = record s.sub { filter = f } })
  unsubscribe : (s : Live) → Step s (record s { sub = record s.sub { dead = true } })
  take_dropped :
      (s : Live)
      → Step s
          (record s { counted = s.counted + s.sub.dropped; sub = record s.sub { dropped = 0 } })
  receive :
      (s : Live) (x : ℕ) (rest : List ℕ)
      → s.sub.out ≡ x ∷ rest
      → Step s (record s { taken = s.taken ++ x ∷ []; sub = record s.sub { out = rest } })

pub data Reach (s : Live) : Live → Type 0 where
  here : Reach s s
  next : {t u : Live} → Reach s t → Step t u → Reach s u

-- A new subscriber of a store with no Publish in progress.
unfoldable pub subscribed : ℕ → ℕ → ℕ → ℕ → Option RowTest → ℕ → Live
unfolding new_subscriber
subscribed head tail cap id filter from_seq = record {
  head = head;
  done = head;
  tail = tail;
  cap = cap;
  sub = new_subscriber id head filter from_seq;
  loop = idle;
  taken = [];
  counted = 0;
}
