-- ===== src/Server/Session/Ends.antt =====
-- What the changes of a session's map do to the store's subscribers.
use loggi.Prelude.{
  All-insert, All-delete, Pairs-delete, ℕ, suc, ◌≤◌, ◌<◌, ◌≡◌, ◌≢◌, refl, sym, ◌∙◌, ap, subst, inl,
  inr, true, false, ◌||◌, Option, some, List, [], ◌∷◌, ◌==◌, All_mono, lookup, insert, delete,
  nat_eq, arith, Bool-cases, Option-cases, All,
}
use loggi.Filter.Reader.{Library}
use loggi.Server.Session.Dispatch.{SessionSub, Subs, Conn, drop_old, unsubscribe_sub}
use loggi.Store.Bitmap.{Roaring}
use loggi.Store.Query.{RowTest}
use loggi.Store.Subscribers.{Subscriber, Registry, subscribe, unsubscribe, on_subscriber}
use loggi.Server.Session.Leaks.{
  registered, registered-insert, registered-unsubscribe, registered-on_subscriber, holds, Entry,
  All-found, IsSubs, holds-delete, delete_missing, holds-insert, insert-IsSubs, IsClean,
}

pub unsubscribe-sub_id : (id : ℕ) (r : Registry) → ((unsubscribe id r).1).sub_id ≡ r.sub_id
unfolding unsubscribe
unsubscribe-sub_id id r = elim (Option-cases (lookup id r.subs)) [
  | inl e ↦ rw (e, unsubscribe) refl
  | inr (sub, e) ↦ rw (e, unsubscribe) refl
]

-- The ids of a registry are among those given out.
abbrev pub IsGiven : Registry → Type 0
IsGiven r = All (λ e. e.0 ≤ r.sub_id) r.subs

pub not_registered :
    (n id : ℕ) (subs : List (ℕ × Subscriber))
    → All (λ e. e.0 ≤ n) subs
    → n < id
    → registered id subs ≡ false
not_registered n id [] h lt = refl
not_registered n id ((j, t) ∷ subs) (le, h) lt =
    ground (arith, le, lt, not_registered n id subs h lt)

module _ (lib : Library) (roaring : Roaring) (before : Registry) (fresh : IsGiven before) where
  open lib use {Float, Regexp}

  pub unsubscribe_sub-IsClean :
      (k : ℕ) (c : Conn lib roaring)
      → IsClean lib roaring before c
      → IsClean lib roaring before (unsubscribe_sub lib roaring k c)
  unfolding unsubscribe_sub drop_old
  unsubscribe_sub-IsClean k c v = elim (Option-cases (lookup k c.subs)) [
    | inl e ↦
        rw (e, delete_missing lib roaring k c.subs e)
          (record { subs = v.subs; since = v.since; own = v.own; given = v.given; store = v.store })
    | inr (old, e) ↦
        let mine : before.sub_id < old.store_id =
          All-found lib roaring (λ x. before.sub_id < x.store_id) k old c.subs e v.own in
        let same_id = unsubscribe-sub_id old.store_id c.registry in
        rw (e, drop_old)
          (record {
            subs = record {
              keys = Pairs-delete _ k c.subs v.subs.keys;
              ids = Pairs-delete _ k c.subs v.subs.ids;
            };
            since = rw same_id v.since;
            own = All-delete _ k c.subs v.own;
            given = rw same_id (All-delete _ k c.subs v.given);
            store = λ id. ground (
              arith,
              registered-unsubscribe id old.store_id c.registry,
              holds-delete lib roaring id k old c.subs v.subs e,
              v.store id,
              not_registered before.sub_id old.store_id before.subs fresh mine,
              λ (q : old.store_id ≡ id). ap (λ t. registered t before.subs) q,
            );
          })
  ]

  -- The map and the registry after a new subscription has taken the place of the old one.
  abbrev pub added :
      ℕ → SessionSub lib roaring → Option RowTest → ℕ → ℕ → Conn lib roaring → Conn lib roaring
  added k sub test head from_seq c = record c {
    subs = insert k sub c.subs;
    registry = drop_old lib roaring (lookup k c.subs) ((subscribe head test from_seq c.registry).1);
  }

  registered-subscribe :
      (id head : ℕ) (test : Option RowTest) (from_seq : ℕ) (r : Registry)
      → registered id ((subscribe head test from_seq r).1).subs
        ≡ (suc r.sub_id == id || registered id r.subs)
  unfolding subscribe
  registered-subscribe id head test from_seq r = registered-insert id (suc r.sub_id) _ r.subs

  pub added-IsClean :
      (k : ℕ) (sub : SessionSub lib roaring) (test : Option RowTest) (head from_seq : ℕ)
      (c : Conn lib roaring)
      → sub.store_id ≡ suc c.registry.sub_id
      → IsClean lib roaring before c
      → IsClean lib roaring before (added k sub test head from_seq c)
  unfolding drop_old subscribe
  added-IsClean k sub test head from_seq c new v =
      let r = (subscribe head test from_seq c.registry).1 in
      let n = c.registry.sub_id in
      let apart : All (λ e. sub.store_id ≢ (e.1).store_id) c.subs =
        All_mono _ _ c.subs
          (λ (e : Entry lib roaring) (h : (e.1).store_id ≤ n) q. omega (arith, h, q, new))
          v.given in
      let subs' : IsSubs lib roaring (insert k sub c.subs) =
        insert-IsSubs lib roaring k sub c.subs (All-delete _ k c.subs apart) v.subs in
      let own' : All (λ e. before.sub_id < (e.1).store_id) (insert k sub c.subs) =
        All-insert (λ e. before.sub_id < (e.1).store_id) k sub c.subs (omega (arith, v.since, new))
          v.own in
      let given' : All (λ e. (e.1).store_id ≤ suc n) (insert k sub c.subs) =
        All-insert (λ e. (e.1).store_id ≤ suc n) k sub c.subs (omega (arith, new))
          (All_mono _ _ c.subs
            (λ (e : Entry lib roaring) (h : (e.1).store_id ≤ n). omega (arith, h)) v.given) in
      elim (Option-cases (lookup k c.subs)) [
        | inl e ↦
            rw (e, drop_old)
              (record {
                subs = subs';
                since = omega (arith, v.since);
                own = own';
                given = given';
                store = λ id. ground (
                  arith,
                  new,
                  registered-subscribe id head test from_seq c.registry,
                  holds-insert lib roaring id k sub c.subs v.subs,
                  ap (holds lib roaring id) (delete_missing lib roaring k c.subs e),
                  v.store id,
                );
              })
        | inr (old, e) ↦
            let below : old.store_id ≤ n =
              All-found lib roaring (λ x. x.store_id ≤ n) k old c.subs e v.given in
            let mine : before.sub_id < old.store_id =
              All-found lib roaring (λ x. before.sub_id < x.store_id) k old c.subs e v.own in
            let same_id = unsubscribe-sub_id old.store_id r in
            rw (e, drop_old)
              (record {
                subs = subs';
                since = rw same_id (omega (arith, v.since));
                own = own';
                given = rw same_id given';
                store = λ id. ground (
                  arith,
                  new,
                  below,
                  registered-subscribe id head test from_seq c.registry,
                  registered-unsubscribe id old.store_id r,
                  holds-insert lib roaring id k sub c.subs v.subs,
                  holds-delete lib roaring id k old c.subs v.subs e,
                  v.store id,
                  not_registered before.sub_id old.store_id before.subs fresh mine,
                  λ (q : old.store_id ≡ id). ap (λ t. registered t before.subs) q,
                );
              })
      ]

  -- An entry that is replaced by one of the same id in the store.
  others_apart :
      (k : ℕ) (old : SessionSub lib roaring) (subs : Subs lib roaring)
      → IsSubs lib roaring subs
      → lookup k subs ≡ some old
      → All (λ e. old.store_id ≢ (e.1).store_id) (delete k subs)
  others_apart k old [] v l = tt
  others_apart k old ((j, t) ∷ subs) v l = elim (Bool-cases (j == k)) [
    | inl b ↦
        let found : t ≡ old = ground (arith, b) in
        rw b (
          All-delete (λ e. old.store_id ≢ (e.1).store_id) k subs
            (subst (λ x. All (λ e. x.store_id ≢ (e.1).store_id) subs) found (v.ids.0)))
    | inr b ↦
        let l' : lookup k subs ≡ some old = ground (arith, b) in
        let ne : t.store_id ≢ old.store_id =
          All-found lib roaring (λ x. t.store_id ≢ x.store_id) k old subs l' (v.ids.0) in
        rw b
          (λ q. ne (sym q), others_apart k old subs (record { keys = v.keys.1; ids = v.ids.1 }) l')
  ]

  holds_found :
      (k : ℕ) (old : SessionSub lib roaring) (subs : Subs lib roaring)
      → lookup k subs ≡ some old
      → holds lib roaring old.store_id subs ≡ true
  holds_found k old [] l = cc
  holds_found k old ((j, t) ∷ subs) l = elim (Bool-cases (j == k)) [
    | inl b ↦ let found : t ≡ old = ground (arith, b) in rw found (ground arith)
    | inr b ↦ ground (arith, holds_found k old subs (ground (arith, b)))
  ]

  -- What acts on a subscriber of the store keeps the ids.
  pub on_subscriber-IsClean :
      (id : ℕ) (f : Subscriber → Subscriber) (c : Conn lib roaring)
      → IsClean lib roaring before c
      → IsClean lib roaring before (record c { registry = on_subscriber id f c.registry })
  on_subscriber-IsClean id f c v =
      let same_id : (on_subscriber id f c.registry).sub_id ≡ c.registry.sub_id =
        kept_id c.registry in
      record {
        subs = v.subs;
        since = rw same_id v.since;
        own = v.own;
        given = rw same_id v.given;
        store = λ j. registered-on_subscriber j id f c.registry ∙ v.store j;
      }
    where
      kept_id : (r : Registry) → (on_subscriber id f r).sub_id ≡ r.sub_id
      kept_id r = elim (Option-cases (lookup id r.subs)) [
        | inl e ↦ unfold on_subscriber in rw (e, on_subscriber) refl
        | inr (sub, e) ↦ unfold on_subscriber in rw (e, on_subscriber) refl
      ]

  pub replaced-IsClean :
      (k : ℕ) (old sub : SessionSub lib roaring) (c : Conn lib roaring)
      → lookup k c.subs ≡ some old
      → sub.store_id ≡ old.store_id
      → IsClean lib roaring before c
      → IsClean lib roaring before (record c { subs = insert k sub c.subs })
  replaced-IsClean k old sub c l e v = record {
    subs =
        insert-IsSubs lib roaring k sub c.subs (rw e (others_apart k old c.subs v.subs l)) v.subs;
    since = v.since;
    own =
        All-insert _ k sub c.subs
          (rw e (All-found lib roaring (λ x. before.sub_id < x.store_id) k old c.subs l v.own))
          v.own;
    given =
        All-insert _ k sub c.subs
          (rw e
            (All-found lib roaring (λ x. x.store_id ≤ c.registry.sub_id) k old c.subs l v.given))
          v.given;
    store = λ id. ground (
      arith,
      e,
      v.store id,
      holds-insert lib roaring id k sub c.subs v.subs,
      holds-delete lib roaring id k old c.subs v.subs l,
      holds_found k old c.subs l,
      λ (q : old.store_id ≡ id). ap (λ t. holds lib roaring t c.subs) q,
    );
  }
