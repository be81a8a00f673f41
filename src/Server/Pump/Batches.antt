-- ===== src/Server/Pump/Batches.antt =====
-- What the pump hands to sendEntries is what it received.
use loggi.Prelude.{
  ℕ, suc, ◌+◌, ◌≤◌, if◌then◌else◌, true, ◌<◌, ◌≡◌, refl, sym, ap, ◌∙◌, ◌&&◌, List, [], ◌∷◌, ◌++◌,
  append-nil, append_assoc, ◌==◌, leb, if_cases, length, length-append, is_empty, All, arith,
}
use loggi.Server.Pump.{
  batch_size, Pump, gap_of, kept_of, removed, started, flush, take_event, drain, Turn, event,
  ticker, drops, turn, turns, cancelled, shut_down,
}

-- The rows of the batches, their gaps, and the largest number of rows.
abbrev pub rows : List (List ℕ × ℕ) → List ℕ
rows [] = []
rows ((seqs, gap) ∷ sent) = seqs ++ rows sent

abbrev pub gaps : List (List ℕ × ℕ) → ℕ
gaps [] = 0
gaps ((seqs, gap) ∷ sent) = gap + gaps sent

abbrev pub Small : List (List ℕ × ℕ) → Type 0
Small sent = All (λ b. length (b.0) ≤ batch_size) sent

rows-append : (a b : List (List ℕ × ℕ)) → rows (a ++ b) ≡ rows a ++ rows b
rows-append [] b = refl
rows-append ((seqs, gap) ∷ a) b =
    ap (◌++◌ seqs) (rows-append a b) ∙ sym (append_assoc seqs (rows a) (rows b))

gaps-append : (a b : List (List ℕ × ℕ)) → gaps (a ++ b) ≡ gaps a + gaps b
gaps-append [] b = omega arith
gaps-append ((seqs, gap) ∷ a) b = omega (arith, gaps-append a b)

Small-append : (a b : List (List ℕ × ℕ)) → Small a → Small b → Small (a ++ b)
Small-append [] b h k = k
Small-append ((seqs, gap) ∷ a) b (p, h) k = (p, Small-append a b h k)

-- What the pump has sent and holds back.
abbrev pub taken : Pump → List ℕ
taken p = rows p.sent ++ p.batch

abbrev pub counted : Pump → ℕ
counted p = gaps p.sent + p.dropped

-- The batch at hand is not full, and none that was sent is over-full.
pub record IsPump (p : Pump) : Type 0 where
  pub room : length p.batch < batch_size
  pub small : Small p.sent

split_count : (p : Pump) → gap_of p + kept_of p ≡ p.dropped
split_count p = ground arith

empty_of : (l : List ℕ) → is_empty l ≡ true → l ≡ []
empty_of [] h = refl
empty_of (x ∷ l) h = cc

-- A flush sends what is there, whatever the size of the batch up to the limit; it tells of all gaps, or
-- of none once the subscriber is gone.
flush_lem :
    (p : Pump)
    → length p.batch ≤ batch_size
    → Small p.sent
    → (taken (flush p) ≡ taken p)
      × (counted (flush p) ≡ counted p)
      × ((flush p).batch ≡ [])
      × ((flush p).gone ≡ p.gone)
      × ((flush p).dropped ≡ kept_of p)
      × Small (flush p).sent
unfolding flush
flush_lem p h s =
    if_cases
      (λ (q : Pump).
        (taken q ≡ taken p)
        × (counted q ≡ counted p)
        × (q.batch ≡ [])
        × (q.gone ≡ p.gone)
        × (q.dropped ≡ kept_of p)
        × Small q.sent)
      (is_empty p.batch && gap_of p == 0) _ _
      (λ e.
        (refl, ground (arith, e, split_count p), empty_of p.batch (ground arith), refl, refl, s))
      λ e. (
        append-nil _
            ∙ rows-append p.sent ((p.batch, gap_of p) ∷ [])
            ∙ ap (λ t. rows p.sent ++ t) (append-nil p.batch),
        omega (arith, gaps-append p.sent ((p.batch, gap_of p) ∷ []), split_count p),
        refl,
        refl,
        refl,
        Small-append p.sent _ s (h, tt),
      )

take_event_lem :
    (seq : ℕ) (p : Pump)
    → IsPump p
    → (taken (take_event seq p) ≡ taken p ++ seq ∷ [])
      × (counted (take_event seq p) ≡ counted p)
      × ((take_event seq p).gone ≡ p.gone)
      × IsPump (take_event seq p)
unfolding take_event
take_event_lem seq p v =
    let q : Pump = record p { batch = p.batch ++ seq ∷ [] } in
    let grown = length-append {0} p.batch (seq ∷ []) in
    let (same_rows, same_gaps, emptied, still, _, few) =
      flush_lem q (omega (arith, grown, v.room)) v.small in
    let whole : taken q ≡ taken p ++ seq ∷ [] =
      sym (append_assoc (rows p.sent) p.batch (seq ∷ [])) in
    if_cases
      (λ (k : Pump).
        (taken k ≡ taken p ++ seq ∷ []) × (counted k ≡ counted p) × (k.gone ≡ p.gone) × IsPump k)
      (leb batch_size (length q.batch)) _ _
      (λ _. (
        same_rows ∙ whole,
        same_gaps,
        still,
        record { room = omega (arith, ap length emptied); small = few },
      ))
      λ h. (whole, refl, refl, record { room = ground (arith, h); small = v.small })

-- The rows that turns receive, and how many the store drops.
abbrev pub received : List Turn → List ℕ
received [] = []
received (event seq ∷ ts) = seq ∷ received ts
received (ticker ∷ ts) = received ts
received (drops ∷ ts) = received ts

abbrev pub lost : List Turn → ℕ
lost [] = 0
lost (event seq ∷ ts) = lost ts
lost (ticker ∷ ts) = lost ts
lost (drops ∷ ts) = suc (lost ts)

turns_lem :
    (ts : List Turn) (p : Pump)
    → IsPump p
    → (taken (turns ts p) ≡ taken p ++ received ts)
      × (counted (turns ts p) ≡ counted p + lost ts)
      × ((turns ts p).gone ≡ p.gone)
      × IsPump (turns ts p)
unfolding turns turn
turns_lem [] p v = (sym (append-nil (taken p)), omega arith, refl, v)
turns_lem (event seq ∷ ts) p v =
    let (one_row, one_gap, still, w) = take_event_lem seq p v in
    let (more, gap, same, u) = turns_lem ts (take_event seq p) w in
    (
      more ∙ ap (λ t. t ++ received ts) one_row ∙ append_assoc (taken p) (seq ∷ []) (received ts),
      omega (arith, gap, one_gap),
      same ∙ still,
      u,
    )
turns_lem (ticker ∷ ts) p v =
    let (same_rows, same_gaps, emptied, still, _, few) =
      flush_lem p (omega (arith, v.room)) v.small in
    let w : IsPump (flush p) = record { room = omega (arith, ap length emptied); small = few } in
    let (more, gap, same, u) = turns_lem ts (flush p) w in
    (more ∙ ap (λ t. t ++ received ts) same_rows, omega (arith, gap, same_gaps), same ∙ still, u)
turns_lem (drops ∷ ts) p v =
    let (more, gap, same, u) =
      turns_lem ts (record p { dropped = suc p.dropped })
        (record { room = v.room; small = v.small }) in
    (more, omega (arith, gap), same, u)

drain_lem :
    (out : List ℕ) (p : Pump)
    → IsPump p
    → (taken (drain out p) ≡ taken p ++ out)
      × (counted (drain out p) ≡ counted p)
      × ((drain out p).gone ≡ p.gone)
      × IsPump (drain out p)
unfolding drain
drain_lem [] p v = (sym (append-nil (taken p)), refl, refl, v)
drain_lem (seq ∷ out) p v =
    let (one_row, one_gap, still, w) = take_event_lem seq p v in
    let (more, gap, same, u) = drain_lem out (take_event seq p) w in
    (
      more ∙ ap (λ t. t ++ out) one_row ∙ append_assoc (taken p) (seq ∷ []) out,
      gap ∙ one_gap,
      same ∙ still,
      u,
    )

started-IsPump : (dropped : ℕ) → IsPump (started dropped)
unfolding started
started-IsPump dropped = record { room = omega arith; small = tt }

-- Every row is sent at the end, by a flush of a sound pump, and so is every gap, unless the subscriber is
-- gone: then the flush keeps the count.
flushed :
    (p : Pump)
    → IsPump p
    → (rows (flush p).sent ≡ taken p)
      × (gaps (flush p).sent + kept_of p ≡ counted p)
      × Small (flush p).sent
flushed p v =
    let (same_rows, same_gaps, emptied, _, left, few) =
      flush_lem p (omega (arith, v.room)) v.small in
    (
      sym (append-nil (rows (flush p).sent))
          ∙ ap (λ t. rows (flush p).sent ++ t) (sym emptied)
          ∙ same_rows,
      omega (arith, same_gaps, left),
      few,
    )

-- A pump whose subscriber is gone tells of no more gaps.
flush_gone : (p : Pump) → p.gone ≡ true → gaps (flush p).sent ≡ gaps p.sent
unfolding flush
flush_gone p g =
    if_cases (λ (q : Pump). gaps q.sent ≡ gaps p.sent) (is_empty p.batch && gap_of p == 0) _ _
      (λ _. refl) λ _. ground (arith, g, gaps-append p.sent ((p.batch, gap_of p) ∷ []))

take_event_gone : (seq : ℕ) (p : Pump) → p.gone ≡ true → gaps (take_event seq p).sent ≡ gaps p.sent
unfolding take_event
take_event_gone seq p g =
    let q : Pump = record p { batch = p.batch ++ seq ∷ [] } in
    if_cases (λ (k : Pump). gaps k.sent ≡ gaps p.sent) (leb batch_size (length q.batch)) _ _
      (λ _. flush_gone q g) λ _. refl

turns_gone :
    (ts : List Turn) (p : Pump) → IsPump p → p.gone ≡ true → gaps (turns ts p).sent ≡ gaps p.sent
unfolding turns turn
turns_gone [] p v g = refl
turns_gone (event seq ∷ ts) p v g =
    let (_, _, still, w) = take_event_lem seq p v in
    turns_gone ts (take_event seq p) w (still ∙ g) ∙ take_event_gone seq p g
turns_gone (ticker ∷ ts) p v g =
    let (_, _, emptied, still, _, few) = flush_lem p (omega (arith, v.room)) v.small in
    turns_gone ts (flush p) (record { room = omega (arith, ap length emptied); small = few })
      (still ∙ g)
    ∙ flush_gone p g
turns_gone (drops ∷ ts) p v g =
    turns_gone ts (record p { dropped = suc p.dropped }) (record { room = v.room; small = v.small })
      g

-- What a subscription's goroutine has handed to sendEntries when it ends. If the server shuts down before
-- Unsubscribe, it is every row received and every row left in the channel, in order and once, in batches
-- of at most 100, with gaps that add up to the rows dropped. If the subscription is cancelled, it is
-- every row received before and after Unsubscribe took the subscriber out of the store, likewise, but the
-- gaps are those told of before that moment: the ones left then and the rows dropped later are not told.
pub pump_lem :
    (before : ℕ) (ts us : List Turn) (out : List ℕ)
    → let p = turns ts (started before) in
      let q = turns us (removed p) in
      (rows (shut_down out p).sent ≡ received ts ++ out)
      × (gaps (shut_down out p).sent ≡ before + lost ts)
      × Small (shut_down out p).sent
      × (rows (cancelled q).sent ≡ received ts ++ received us)
      × (gaps (cancelled q).sent ≡ gaps p.sent)
      × (gaps p.sent + p.dropped ≡ before + lost ts)
      × Small (cancelled q).sent
unfolding cancelled shut_down started removed
pump_lem before ts us out =
    let p = turns ts (started before) in
    let (all, missed, here, v) = turns_lem ts (started before) (started-IsPump before) in
    let (more, same_missed, still, w) = drain_lem out p v in
    let (sent, gap, small) = flushed (drain out p) w in
    let r : IsPump (removed p) = record { room = v.room; small = v.small } in
    let (later, _, gone, u) = turns_lem us (removed p) r in
    let (sent', _, small') = flushed (turns us (removed p)) u in
    (
      sent ∙ more ∙ ap (λ t. t ++ out) all,
      omega (
        arith,
        gap,
        same_missed,
        missed,
        ap (λ b. if b then (drain out p).dropped else 0) (still ∙ here),
      ),
      small,
      sent' ∙ later ∙ ap (λ t. t ++ received us) all,
      flush_gone (turns us (removed p)) gone ∙ turns_gone us (removed p) r refl,
      omega (arith, missed),
      small',
    )
