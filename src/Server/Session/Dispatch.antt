-- ===== src/Server/Session/Dispatch.antt =====
-- internal/server/session.go: the messages of a client about its subscriptions (handle), on the session's
-- map and the store's subscribers; each message is one step, with the store as it stands. The messages
-- about sources are those of the hub; a payload is always there.
use loggi.Prelude.{
  ℕ, Bool, Option, none, some, List, [], ◌∷◌, ◌++◌, ◌==◌, if◌then◌else◌, lookup, insert, delete,
  nat_eq,
}
use loggi.Text.{Bytes}
use loggi.Filter.Ast.{Node}
use loggi.Filter.Eval.{compile_filter}
use loggi.Filter.Parser.{parse}
use loggi.Filter.Plan.Query.{at_store}
use loggi.Filter.Reader.{Library, Reader}
use loggi.Filter.Term.{ParseError, ok, fail, out_of_fuel}
use loggi.Filter.Token.{Unicode}
use loggi.Server.Session.{query_backlog, history_page, entries, backfill}
use loggi.Store.Bitmap.{Roaring}
use loggi.Store.Types.{MaterializedRow}
use loggi.Store.Subscribers.{Registry, subscribe, unsubscribe, pause, resume, set_filter}

module _ (lib : Library) (roaring : Roaring) where
  open lib use {Float, Regexp}

  pub record SessionSub : Type 0 where
    pub sub_id : ℕ
    pub store_id : ℕ
    pub node : Option (Node Float Regexp)
    pub history_n : ℕ

  abbrev pub Subs : Type 0
  Subs = List (ℕ × SessionSub)

  -- What is written to the connection.
  pub data Reply : Type 0 where
    ack : ℕ → ℕ → Reply
    bad_filter : ℕ → ParseError → Reply
    no_sub : ℕ → Reply
    batch : ℕ → List (MaterializedRow Float) → Reply
    history_batch : ℕ → List (MaterializedRow Float) → Bool → Reply
    pong : ℕ → Reply

  -- The messages, each with its id.
  pub data Msg : Type 0 where
    subscribe_msg : (sub_id : ℕ) (filter : Bytes) (history_n from_seq : ℕ) → Msg
    unsubscribe_msg : (sub_id : ℕ) → Msg
    pause_msg : (sub_id : ℕ) → Msg
    resume_msg : (sub_id : ℕ) → Msg
    filter_msg : (sub_id : ℕ) (filter : Bytes) → Msg
    history_msg : (sub_id before_seq limit : ℕ) → Msg
    ping : (nonce : ℕ) → Msg

  pub record Conn : Type 0 where
    pub subs : Subs
    pub registry : Registry
    pub replies : List Reply

  unfoldable pub write : Reply → Conn → Conn
  write m c = record c { replies = c.replies ++ m ∷ [] }

  -- Unsubscribe of the store, for the subscription that had the id before.
  unfoldable pub drop_old : Option SessionSub → Registry → Registry
  drop_old none r = r
  drop_old (some old) r = (unsubscribe old.store_id r).1

  -- A session's map without its subscriptions at the end: cleanup.
  unfoldable pub unsubscribe_all : Subs → Registry → Registry
  unsubscribe_all [] r = r
  unsubscribe_all ((k, sub) ∷ subs) r = unsubscribe_all subs ((unsubscribe sub.store_id r).1)

  unfoldable pub cleanup : Conn → Conn
  unfolding unsubscribe_all
  cleanup c = record c { subs = []; registry = unsubscribe_all c.subs c.registry }

  unfoldable pub unsubscribe_sub : ℕ → Conn → Conn
  unfolding drop_old
  unsubscribe_sub sub_id c = record c {
    subs = delete sub_id c.subs;
    registry = drop_old (lookup sub_id c.subs) c.registry;
  }

  module _ (unicode : Unicode) (s : Reader lib roaring) (tail head : ℕ) where
    -- A parsed filter is registered, and its backlog sent; the sending of rows is a goroutine of its own.
    unfoldable pub subscribe_node : ℕ → ℕ → Option (Node Float Regexp) → ℕ → ℕ → Conn → Conn
    unfolding drop_old write
    subscribe_node ref sub_id node history_n from_seq c =
        let test = at_store lib roaring s (compile_filter lib roaring s node) in
        let (id, r) = subscribe head test from_seq c.registry in
        let sub : SessionSub = record {
          sub_id = sub_id;
          store_id = id;
          node = node;
          history_n = history_n;
        } in
        let added : Conn = record c {
          subs = insert sub_id sub c.subs;
          registry = drop_old (lookup sub_id c.subs) r;
        } in
        let sent =
          if history_n == 0
          then added
          else write
              (batch sub_id
                (entries lib roaring s (query_backlog lib roaring s node tail head history_n)))
              added in
        write (ack ref sub_id) sent

    unfoldable pub handle_subscribe : ℕ → ℕ → Bytes → ℕ → ℕ → Conn → Conn
    unfolding subscribe_node write
    handle_subscribe ref sub_id filter history_n from_seq c = elim (parse lib unicode filter) [
      | ok node ↦ subscribe_node ref sub_id node history_n from_seq c
      | fail e ↦ write (bad_filter ref e) c
      | out_of_fuel ↦ c
    ]

    unfoldable pub update_node : ℕ → ℕ → SessionSub → Option (Node Float Regexp) → Conn → Conn
    unfolding write
    update_node ref sub_id sub node c =
        let test = at_store lib roaring s (compile_filter lib roaring s node) in
        let changed : Conn = record c {
          subs = insert sub_id (record sub { node = node }) c.subs;
          registry = set_filter sub.store_id test c.registry;
        } in
        write (ack ref sub_id)
          (write (batch sub_id (backfill lib roaring s node tail head sub.history_n)) changed)

    unfoldable pub handle_update_filter : ℕ → ℕ → Bytes → Conn → Conn
    unfolding update_node write
    handle_update_filter ref sub_id filter c = elim (lookup sub_id c.subs) [
      | none ↦ write (no_sub ref) c
      | some sub ↦ elim (parse lib unicode filter) [
        | ok node ↦ update_node ref sub_id sub node c
        | fail e ↦ write (bad_filter ref e) c
        | out_of_fuel ↦ c
      ]
    ]

    unfoldable pub handle_history : ℕ → ℕ → ℕ → ℕ → Conn → Conn
    unfolding write
    handle_history ref sub_id before_seq limit c = elim (lookup sub_id c.subs) [
      | none ↦ write (no_sub ref) c
      | some sub ↦
          let page = history_page lib roaring s sub.node tail head before_seq limit in
          write (ack ref sub_id)
            (write (history_batch sub_id (entries lib roaring s page.seqs) page.end) c)
    ]

    -- Pause and Resume of the store, for a subscription that is there.
    unfoldable pub on_sub : (ℕ → Registry → Registry) → ℕ → Conn → Conn
    on_sub f sub_id c = elim (lookup sub_id c.subs) [
      | none ↦ c
      | some sub ↦ record c { registry = f sub.store_id c.registry }
    ]

    unfoldable pub handle : ℕ → Msg → Conn → Conn
    unfolding handle_subscribe unsubscribe_sub on_sub handle_update_filter handle_history write
    handle ref (subscribe_msg sub_id filter history_n from_seq) c =
        handle_subscribe ref sub_id filter history_n from_seq c
    handle ref (unsubscribe_msg sub_id) c = write (ack ref sub_id) (unsubscribe_sub sub_id c)
    handle ref (pause_msg sub_id) c = write (ack ref sub_id) (on_sub pause sub_id c)
    handle ref (resume_msg sub_id) c = write (ack ref sub_id) (on_sub (resume head tail) sub_id c)
    handle ref (filter_msg sub_id filter) c = handle_update_filter ref sub_id filter c
    handle ref (history_msg sub_id before_seq limit) c =
        handle_history ref sub_id before_seq limit c
    handle ref (ping nonce) c = write (pong nonce) c
