-- ===== src/Store/Ring/Broadcast.antt =====
-- internal/store/store.go: Publish, the ring and its subscribers together.
use loggi.Prelude.{
  ℕ, suc, ◌-◌, ◌^◌, ◌≡◌, ◌≤◌, ◌<◌, refl, sym, ap, ◌∙◌, true, false, Option, none, some, List, [],
  ◌∷◌, ◌++◌, if◌then◌else◌, if_cases, arith, ◌>>=◌, lookup, nat_eq, map, ltb, length, true-ne-false,
  inl, inr, Eq, Bool-cases,
}
use mathlib.Core.Option.{some-injective}
use loggi.Store.Query.{RowTest, passes}
use loggi.Store.Ring.{Engine, Ring, close}
use loggi.Store.Ring.Ingest.{AppendInput, append}
use loggi.Store.Ring.Read.{publish_row}
use loggi.Store.Ring.Window.{IsWindow, append-IsWindow}
use loggi.Store.Subscribers.{
  Subscriber, Registry, sub_chan_cap, offer, advance, publish_to, publish,
}
use loggi.Store.Subscribers.Resume.{publish_to_cursor, offer_room}

-- publish acts on each subscriber in its place.
lookup-publish :
    (id seq : ℕ) (subs : List (ℕ × Subscriber)) (sub : Subscriber)
    → lookup id subs ≡ some sub
    → lookup id (map (λ e. (e.0, publish_to seq e.1)) subs) ≡ some (publish_to seq sub)
lookup-publish id seq [] sub h = cc
lookup-publish id seq ((j, x) ∷ subs) sub h = elim (Bool-cases (Eq.beq nat_eq j id)) [
  | inl same ↦
      let eq : x ≡ sub = some-injective x sub (rw same at h) in
      rw same (ap (λ y. some (publish_to seq y)) eq)
  | inr other ↦ rw other (lookup-publish id seq subs sub (rw other at h))
]

advance_out : (c : ℕ) (sub : Subscriber) → (advance c sub).out ≡ sub.out
unfolding advance
advance_out c sub =
    if_cases (λ (x : Subscriber). x.out ≡ sub.out) (ltb sub.cursor c) _ _ (λ _. refl) (λ _. refl)

-- Without a filter a row is queued where there is room.
publish_to_out :
    (seq : ℕ) (sub : Subscriber)
    → sub.dead ≡ false
    → sub.paused ≡ false
    → sub.filter ≡ none
    → length sub.out < sub_chan_cap
    → (publish_to seq sub).out ≡ sub.out ++ seq ∷ []
unfolding publish_to passes
publish_to_out seq sub alive awake unfiltered room =
    let queued : offer seq sub ≡ record sub { out = sub.out ++ seq ∷ [] } =
      offer_room seq sub alive room
      ∙ ap
          (λ (f : Option RowTest).
            if passes f seq then record sub { out = sub.out ++ seq ∷ [] } else sub)
          unfiltered in
    let ok = λ (x : Subscriber). x.out ≡ sub.out ++ seq ∷ [] in
    if_cases ok sub.dead _ _ (λ k. absurd (true-ne-false (sym k ∙ alive)))
      λ _.
        if_cases ok sub.paused _ _ (λ k. absurd (true-ne-false (sym k ∙ awake)))
          λ _. (advance_out (suc seq) (offer seq sub) ∙ ap (λ (x : Subscriber). x.out) queued)

module _ (e : Engine) where
  open e use {lib}

  append_closed :
      (now : lib.Float) (input : AppendInput lib.Float) (s : Ring e)
      → s.closed ≡ true
      → append e now input s ≡ some (0, s)
  unfolding append
  append_closed now input s h =
      if_cases (λ o. o ≡ some (0, s)) s.closed _ _ (λ _. refl)
        (λ k. absurd (true-ne-false (sym h ∙ k)))

  -- Where Append gives a row its id on a ring that is not closed, Publish does so too, and every
  -- subscriber that is neither dead nor paused and not ahead of the ring is then at the new head.
  pub publish_row_lem :
      (now : lib.Float) (input : AppendInput lib.Float) (s s' : Ring e) (r : Registry) (seq id : ℕ)
      (sub : Subscriber)
      → IsWindow e s
      → s.head < 2 ^ 64 - 1
      → s.closed ≡ false
      → append e now input s ≡ some (seq, s')
      → lookup id r.subs ≡ some sub
      → sub.dead ≡ false
      → sub.paused ≡ false
      → sub.cursor ≤ s.head
      → (r' : Registry) × (publish_row e now input s r ≡ some (seq, s', r'))
        × (sub' : Subscriber) × (lookup id r'.subs ≡ some sub')
        × (sub'.cursor ≡ s'.head)
  unfolding publish_row publish
  publish_row_lem now input s s' r seq id sub w small running p found alive awake upto =
      let (same_seq, head, _, _) = append-IsWindow e now input s s' seq w small running p in
      (
        publish seq r,
        ap (λ o. o >>= λ a. some (a.0, a.1, publish a.0 r)) p,
        publish_to seq sub,
        lookup-publish id seq r.subs sub found,
        publish_to_cursor seq sub alive awake (omega (arith, same_seq, upto))
            ∙ ap suc same_seq
            ∙ sym head,
      )

  -- Publish on a closed ring appends nothing, and yet a subscriber without a filter that is neither dead
  -- nor paused and has room is sent row 0, whatever it was sent before.
  pub publish_row_closed :
      (now : lib.Float) (input : AppendInput lib.Float) (s : Ring e) (r : Registry) (id : ℕ)
      (sub : Subscriber)
      → lookup id r.subs ≡ some sub
      → sub.dead ≡ false
      → sub.paused ≡ false
      → sub.filter ≡ none
      → length sub.out < sub_chan_cap
      → (r' : Registry) × (publish_row e now input (close e s) r ≡ some (0, close e s, r'))
        × (sub' : Subscriber) × (lookup id r'.subs ≡ some sub')
        × (sub'.out ≡ sub.out ++ 0 ∷ [])
  unfolding publish_row publish close
  publish_row_closed now input s r id sub found alive awake unfiltered room = (
    publish 0 r,
    ap (λ o. o >>= λ a. some (a.0, a.1, publish a.0 r)) (append_closed now input (close e s) refl),
    publish_to 0 sub,
    lookup-publish id 0 r.subs sub found,
    publish_to_out 0 sub alive awake unfiltered room,
  )
