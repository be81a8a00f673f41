-- ===== src/Server/Pump.antt =====
-- internal/server/session.go: the goroutine that sends a subscription's rows in batches (pumpSub). A turn
-- of its loop is a step, and so is a row that the store drops meanwhile; `sent` are the batches given to
-- sendEntries, with their gap. Unsubscribe takes the subscriber out of the store (`gone`) before it closes
-- `done`; TakeDropped then gives 0, and the count stays with the subscriber.
pub mod Batches
use loggi.Prelude.{
  ℕ, zero, suc, ◌+◌, ◌-◌, ◌≤◌, ◌<◌, ◌≡◌, refl, sym, ap, ◌∙◌, Bool, true, false, ◌&&◌, List, [], ◌∷◌,
  ◌++◌, append-nil, append_assoc, ◌==◌, leb, if◌then◌else◌, if_cases, length, length-append,
  is_empty, All, arith, Bool-cases, inl, inr,
}

abbrev pub batch_size : ℕ
batch_size = 100

pub record Pump : Type 0 where
  pub batch : List ℕ
  pub dropped : ℕ
  pub gone : Bool
  pub sent : List (List ℕ × ℕ)

unfoldable pub started : ℕ → Pump
started dropped = record { batch = []; dropped = dropped; gone = false; sent = [] }

-- What TakeDropped gives, and what it leaves of the count.
abbrev pub gap_of : Pump → ℕ
gap_of p = if p.gone then 0 else p.dropped

abbrev pub kept_of : Pump → ℕ
kept_of p = if p.gone then p.dropped else 0

unfoldable pub flush : Pump → Pump
flush p =
    if is_empty p.batch && gap_of p == 0
    then record p { dropped = kept_of p }
    else record p { batch = []; dropped = kept_of p; sent = p.sent ++ (p.batch, gap_of p) ∷ [] }

unfoldable pub take_event : ℕ → Pump → Pump
unfolding flush
take_event seq p =
    let q : Pump = record p { batch = p.batch ++ seq ∷ [] } in
    if leb batch_size (length q.batch) then flush q else q

-- What is left in the channel when the server shuts down.
unfoldable pub drain : List ℕ → Pump → Pump
unfolding take_event
drain [] p = p
drain (seq ∷ out) p = drain out (take_event seq p)

pub data Turn : Type 0 where
  event : ℕ → Turn
  ticker : Turn
  drops : Turn

unfoldable pub turn : Turn → Pump → Pump
unfolding take_event flush
turn (event seq) p = take_event seq p
turn ticker p = flush p
turn drops p = record p { dropped = suc p.dropped }

unfoldable pub turns : List Turn → Pump → Pump
unfolding turn
turns [] p = p
turns (t ∷ ts) p = turns ts (turn t p)

-- Unsubscribe, as far as the store's table goes.
unfoldable pub removed : Pump → Pump
removed p = record p { gone = true }

-- The two ends of the loop: `done` is closed, or the server shuts down with these rows left.
unfoldable pub cancelled : Pump → Pump
unfolding flush
cancelled p = flush p

unfoldable pub shut_down : List ℕ → Pump → Pump
unfolding drain flush
shut_down out p = flush (drain out p)
