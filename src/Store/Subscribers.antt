-- ===== src/Store/Subscribers.antt =====
-- internal/store/store.go: the subscribers, each function as one step; Live has Publish and Resume in
-- their parts, between which other goroutines act. A channel is the list of the events in it, the oldest
-- first; `done` is closed when `dead` is set. A counter stays below the bound of its machine word.
pub mod Live
pub mod Rows
pub mod Ordered
pub mod Counting
pub mod Owed
pub mod Delivery
pub mod Resume
use loggi.Prelude.{
  ℕ, zero, suc, ◌+◌, ◌-◌, Bool, true, false, not, Option, none, some, List, [], ◌∷◌, ◌++◌, ◌==◌,
  ltb, if◌then◌else◌, length, map, nat_eq, lookup, insert, delete,
}
use loggi.Store.Query.{RowTest, passes}

pub record Subscriber : Type 0 where
  pub id : ℕ
  pub cursor : ℕ
  pub filter : Option RowTest
  pub paused : Bool
  pub dead : Bool
  pub out : List ℕ
  pub dropped : ℕ

-- The subscribers of a store, and the last id given out.
pub record Registry : Type 0 where
  pub subs : List (ℕ × Subscriber)
  pub sub_id : ℕ

abbrev pub sub_chan_cap : ℕ
sub_chan_cap = 1024

-- deliver
unfoldable pub deliver : ℕ → Subscriber → Subscriber
deliver seq sub =
    if sub.dead
    then sub
    else if ltb (length sub.out) sub_chan_cap
    then record sub { out = sub.out ++ seq ∷ [] }
    else record sub { dropped = sub.dropped + 1 }

-- `if filter == nil || filter(c) { s.deliver(sub, c) }`
unfoldable pub offer : ℕ → Subscriber → Subscriber
unfolding deliver passes
offer seq sub = if passes sub.filter seq then deliver seq sub else sub

-- `if c > sub.cursor { sub.cursor = c }`
unfoldable pub advance : ℕ → Subscriber → Subscriber
advance c sub = if ltb sub.cursor c then record sub { cursor = c } else sub

-- What publish does for one subscriber.
unfoldable pub publish_to : ℕ → Subscriber → Subscriber
unfolding offer advance
publish_to seq sub =
    if sub.dead then sub else if sub.paused then sub else advance (suc seq) (offer seq sub)

-- The loop of Resume, with `n` rows left.
unfoldable pub walk : ℕ → ℕ → Subscriber → Subscriber
walk zero c sub = sub
walk (suc n) c sub = walk n (suc c) (offer c sub)

-- `if cur < tail { sub.dropped.Add(tail - cur) }`
unfoldable pub count_evicted : ℕ → Subscriber → Subscriber
count_evicted tail sub =
    if ltb sub.cursor tail then record sub { dropped = sub.dropped + (tail - sub.cursor) } else sub

abbrev pub resume_from : ℕ → Subscriber → ℕ
resume_from tail sub = if ltb sub.cursor tail then tail else sub.cursor

-- Resume up to the end of the pause, with the head and the tail that it has read.
unfoldable pub resume_walk : ℕ → ℕ → Subscriber → Subscriber
unfolding walk count_evicted advance
resume_walk head tail sub =
    advance head
      (walk (head - resume_from tail sub) (resume_from tail sub) (count_evicted tail sub))

unfoldable pub resume_end : Subscriber → Subscriber
resume_end sub = record sub { paused = false }

unfoldable pub resume_sub : ℕ → ℕ → Subscriber → Subscriber
unfolding resume_walk resume_end
resume_sub head tail sub = resume_end (resume_walk head tail sub)

unfoldable pub new_subscriber : ℕ → ℕ → Option RowTest → ℕ → Subscriber
new_subscriber id head filter from_seq = record {
  id = id;
  cursor = if from_seq == 0 then head else from_seq;
  filter = filter;
  paused = false;
  dead = false;
  out = [];
  dropped = 0;
}

-- Subscribe
unfoldable pub subscribe : ℕ → Option RowTest → ℕ → Registry → ℕ × Registry
unfolding new_subscriber
subscribe head filter from_seq r = (
  suc r.sub_id,
  record {
    subs = insert (suc r.sub_id) (new_subscriber (suc r.sub_id) head filter from_seq) r.subs;
    sub_id = suc r.sub_id;
  },
)

-- Unsubscribe. Who holds the subscriber sees `dead` and the closed channel.
unfoldable pub unsubscribe : ℕ → Registry → Option Subscriber × Registry
unsubscribe id r = elim (lookup id r.subs) [
  | none ↦ (none, record r { subs = delete id r.subs })
  | some sub ↦ (some (record sub { dead = true }), record r { subs = delete id r.subs })
]

-- The methods that act on the subscriber of an id, if there is one.
unfoldable pub on_subscriber : ℕ → (Subscriber → Subscriber) → Registry → Registry
on_subscriber id f r = elim (lookup id r.subs) [
  | none ↦ r
  | some sub ↦ record r { subs = insert id (f sub) r.subs }
]

unfoldable pub pause : ℕ → Registry → Registry
unfolding on_subscriber
pause id = on_subscriber id (λ sub. record sub { paused = true })

unfoldable pub resume : ℕ → ℕ → ℕ → Registry → Registry
unfolding on_subscriber resume_sub
resume head tail id = on_subscriber id (resume_sub head tail)

unfoldable pub set_filter : ℕ → Option RowTest → Registry → Registry
unfolding on_subscriber
set_filter id f = on_subscriber id (λ sub. record sub { filter = f })

unfoldable pub take_dropped : ℕ → Registry → ℕ × Registry
take_dropped id r = elim (lookup id r.subs) [
  | none ↦ (0, r)
  | some sub ↦ (sub.dropped, record r { subs = insert id (record sub { dropped = 0 }) r.subs })
]

-- publish
unfoldable pub publish : ℕ → Registry → Registry
unfolding publish_to
publish seq r = record r { subs = map (λ e. (e.0, publish_to seq e.1)) r.subs }
