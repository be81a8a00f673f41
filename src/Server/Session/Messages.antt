-- ===== src/Server/Session/Messages.antt =====
-- A session's messages keep its subscribers those of its map, and its end removes them.
use loggi.Prelude.{
  ℕ, suc, ◌<◌, ◌≡◌, refl, ◌∙◌, subst, inl, inr, true, false, ◌&&◌, ◌||◌, not, Option, some, List,
  [], ◌∷◌, ◌==◌, ==_iff, lookup, nat_eq, arith, Bool-cases, Option-cases, if_cases, All,
}
use loggi.Text.{Bytes}
use loggi.Filter.Ast.{Node}
use loggi.Filter.Eval.{compile_filter}
use loggi.Filter.Parser.{parse}
use loggi.Filter.Plan.Query.{at_store}
use loggi.Filter.Reader.{Library, Reader}
use loggi.Filter.Term.{ok, fail, out_of_fuel}
use loggi.Filter.Token.{Unicode}
use loggi.Server.Session.Dispatch.{
  SessionSub, Subs, Reply, Msg, subscribe_msg, unsubscribe_msg, pause_msg, resume_msg, filter_msg,
  history_msg, ping, Conn, write, unsubscribe_all, cleanup, subscribe_node, handle_subscribe,
  update_node, handle_update_filter, handle_history, on_sub, handle,
}
use loggi.Store.Bitmap.{Roaring}
use loggi.Store.Subscribers.{
  Subscriber, Registry, subscribe, unsubscribe, pause, resume, set_filter, on_subscriber, publish,
}
use loggi.Server.Session.Leaks.{
  registered, registered-unsubscribe, registered-publish, holds, IsClean, write-IsClean,
}
use loggi.Server.Session.Ends.{
  IsGiven, not_registered, unsubscribe_sub-IsClean, added, added-IsClean, on_subscriber-IsClean,
  replaced-IsClean,
}

module _ (lib : Library) (roaring : Roaring) (unicode : Unicode) where
  -- What happens while a session lives: a message of its client, with the store as it stands, and a row
  -- that is published.
  pub data Event : Type 0 where
    message : Reader lib roaring → (tail head : ℕ) → (ref : ℕ) → Msg lib roaring → Event
    row : (seq : ℕ) → Event

  pub after : Event → Conn lib roaring → Conn lib roaring
  after (message s tail head ref msg) c = handle lib roaring unicode s tail head ref msg c
  after (row seq) c = record c { registry = publish seq c.registry }

  pub session : List Event → Conn lib roaring → Conn lib roaring
  session [] c = c
  session (e ∷ es) c = session es (after e c)

  abbrev pub opened : Registry → Conn lib roaring
  opened r = record { subs = []; registry = r; replies = [] }

module _ (lib : Library) (roaring : Roaring) (unicode : Unicode) (before : Registry)
    (fresh : IsGiven before) where
  open lib use {Float, Regexp}

  abbrev Clean : Conn lib roaring → Type 0
  Clean c = IsClean lib roaring before c

  written : (m : Reply lib roaring) (c : Conn lib roaring) → Clean c → Clean (write lib roaring m c)
  written m c v = write-IsClean lib roaring before m c v

  module _ (s : Reader lib roaring) (tail head : ℕ) where
    subscribe_node-IsClean :
        (ref k : ℕ) (node : Option (Node Float Regexp)) (history_n from_seq : ℕ)
        (c : Conn lib roaring)
        → Clean c
        → Clean (subscribe_node lib roaring unicode s tail head ref k node history_n from_seq c)
    unfolding subscribe_node subscribe
    subscribe_node-IsClean ref k node history_n from_seq c v =
        let sub : SessionSub lib roaring = record {
          sub_id = k;
          store_id = suc c.registry.sub_id;
          node = node;
          history_n = history_n;
        } in
        let test = at_store lib roaring s (compile_filter lib roaring s node) in
        let w : Clean (added lib roaring before fresh k sub test head from_seq c) =
          added-IsClean lib roaring before fresh k sub test head from_seq c refl v in
        written _ _ (if_cases Clean (history_n == 0) _ _ (λ _. w) λ _. written _ _ w)

    handle_subscribe-IsClean :
        (ref k : ℕ) (text : Bytes) (history_n from_seq : ℕ) (c : Conn lib roaring)
        → Clean c
        → Clean (handle_subscribe lib roaring unicode s tail head ref k text history_n from_seq c)
    unfolding handle_subscribe
    handle_subscribe-IsClean ref k text history_n from_seq c v =
        elim (parse lib unicode text)
          as (λ p. Clean (elim p [
            | ok node ↦
                subscribe_node lib roaring unicode s tail head ref k node history_n from_seq c
            | fail e ↦ write lib roaring (Reply.bad_filter ref e) c
            | out_of_fuel ↦ c
          ])) [
            | ok node ↦ subscribe_node-IsClean ref k node history_n from_seq c v
            | fail e ↦ written _ c v
            | out_of_fuel ↦ v
          ]

    update_node-IsClean :
        (ref k : ℕ) (sub : SessionSub lib roaring) (node : Option (Node Float Regexp))
        (c : Conn lib roaring)
        → lookup k c.subs ≡ some sub
        → Clean c
        → Clean (update_node lib roaring unicode s tail head ref k sub node c)
    unfolding update_node set_filter
    update_node-IsClean ref k sub node c l v = written _ _ (
        written _ _ (
          on_subscriber-IsClean lib roaring before fresh sub.store_id _ _ (
            replaced-IsClean lib roaring before fresh k sub (record sub { node = node }) c l refl
              v)))

    handle_update_filter-IsClean :
        (ref k : ℕ) (text : Bytes) (c : Conn lib roaring)
        → Clean c
        → Clean (handle_update_filter lib roaring unicode s tail head ref k text c)
    unfolding handle_update_filter
    handle_update_filter-IsClean ref k text c v = elim (Option-cases (lookup k c.subs)) [
      | inl e ↦ rw (e, handle_update_filter) (written _ c v)
      | inr (sub, e) ↦
          rw (e, handle_update_filter)
            (elim (parse lib unicode text)
              as (λ p. Clean (elim p [
                | ok node ↦ update_node lib roaring unicode s tail head ref k sub node c
                | fail x ↦ write lib roaring (Reply.bad_filter ref x) c
                | out_of_fuel ↦ c
              ])) [
                | ok node ↦ update_node-IsClean ref k sub node c e v
                | fail x ↦ written _ c v
                | out_of_fuel ↦ v
              ])
    ]

    handle_history-IsClean :
        (ref k before_seq limit : ℕ) (c : Conn lib roaring)
        → Clean c
        → Clean (handle_history lib roaring unicode s tail head ref k before_seq limit c)
    unfolding handle_history
    handle_history-IsClean ref k before_seq limit c v = elim (Option-cases (lookup k c.subs)) [
      | inl e ↦ rw (e, handle_history) (written _ c v)
      | inr (sub, e) ↦ rw (e, handle_history) (written _ _ (written _ c v))
    ]

    on_sub-IsClean :
        (f : Subscriber → Subscriber) (k : ℕ) (c : Conn lib roaring)
        → Clean c
        → Clean (on_sub lib roaring unicode s tail head (λ id. on_subscriber id f) k c)
    unfolding on_sub
    on_sub-IsClean f k c v = elim (Option-cases (lookup k c.subs)) [
      | inl e ↦ rw (e, on_sub) v
      | inr (sub, e) ↦
          rw (e, on_sub) (on_subscriber-IsClean lib roaring before fresh sub.store_id f c v)
    ]

    handle-IsClean :
        (ref : ℕ) (msg : Msg lib roaring) (c : Conn lib roaring)
        → Clean c
        → Clean (handle lib roaring unicode s tail head ref msg c)
    unfolding handle pause resume
    handle-IsClean ref (subscribe_msg k text history_n from_seq) c v =
        handle_subscribe-IsClean ref k text history_n from_seq c v
    handle-IsClean ref (unsubscribe_msg k) c v =
        written _ _ (unsubscribe_sub-IsClean lib roaring before fresh k c v)
    handle-IsClean ref (pause_msg k) c v = written _ _ (on_sub-IsClean _ k c v)
    handle-IsClean ref (resume_msg k) c v = written _ _ (on_sub-IsClean _ k c v)
    handle-IsClean ref (filter_msg k text) c v = handle_update_filter-IsClean ref k text c v
    handle-IsClean ref (history_msg k before_seq limit) c v =
        handle_history-IsClean ref k before_seq limit c v
    handle-IsClean ref (ping nonce) c v = written _ c v

  row-IsClean :
      (seq : ℕ) (c : Conn lib roaring)
      → Clean c
      → Clean (record c { registry = publish seq c.registry })
  unfolding publish
  row-IsClean seq c v = record {
    subs = v.subs;
    since = v.since;
    own = v.own;
    given = v.given;
    store = λ id. registered-publish id seq c.registry.subs ∙ v.store id;
  }

  session-IsClean :
      (es : List (Event lib roaring unicode)) (c : Conn lib roaring)
      → Clean c
      → Clean (session lib roaring unicode es c)
  unfolding session after
  session-IsClean [] c v = v
  session-IsClean (message s tail head ref msg ∷ es) c v =
      session-IsClean es _ (handle-IsClean s tail head ref msg c v)
  session-IsClean (row seq ∷ es) c v = session-IsClean es _ (row-IsClean seq c v)

  registered-unsubscribe_all :
      (id : ℕ) (subs : Subs lib roaring) (r : Registry)
      → registered id (unsubscribe_all lib roaring subs r).subs
        ≡ (registered id r.subs && not (holds lib roaring id subs))
  unfolding unsubscribe_all
  registered-unsubscribe_all id [] r = ground arith
  registered-unsubscribe_all id ((k, sub) ∷ subs) r = ground (
    arith,
    registered-unsubscribe_all id subs ((unsubscribe sub.store_id r).1),
    registered-unsubscribe id sub.store_id r,
  )

  -- No id of the session was the store's before.
  holds_new :
      (id : ℕ) (subs : Subs lib roaring)
      → All (λ e. before.sub_id < (e.1).store_id) subs
      → holds lib roaring id subs ≡ true
      → registered id before.subs ≡ false
  holds_new id [] h p = cc
  holds_new id ((k, sub) ∷ subs) (lt, h) p = elim (Bool-cases (sub.store_id == id)) [
    | inl b ↦
        let e : sub.store_id ≡ id = (==_iff sub.store_id id).0 b in
        not_registered before.sub_id id before.subs fresh (subst (λ t. before.sub_id < t) e lt)
    | inr b ↦ holds_new id subs h (ground (arith, b))
  ]

  -- Over any messages of a client and any rows published meanwhile, the store has the subscribers that it
  -- had before the session and those that the session's map names; when the session ends, it has those from
  -- before, no more and no less.
  pub session-cleanup :
      (es : List (Event lib roaring unicode)) (id : ℕ)
      → let c = session lib roaring unicode es (opened lib roaring unicode before) in
        (registered id c.registry.subs ≡ (registered id before.subs || holds lib roaring id c.subs))
        × (registered id (cleanup lib roaring c).registry.subs ≡ registered id before.subs)
  unfolding cleanup
  session-cleanup es id =
      let c = session lib roaring unicode es (opened lib roaring unicode before) in
      let v : Clean c = session-IsClean es (opened lib roaring unicode before) start in
      (
        v.store id,
        ground (
          arith,
          v.store id,
          registered-unsubscribe_all id c.subs c.registry,
          holds_new id c.subs v.own,
        ),
      )
    where
      start : Clean (opened lib roaring unicode before)
      start = record {
        subs = record { keys = tt; ids = tt };
        since = omega arith;
        own = tt;
        given = tt;
        store = λ j. ground arith;
      }
