-- ===== src/Server/Session/Leaks.antt =====
-- The store's subscribers of a session: those that its map names while it lives, and none after it ends.
use loggi.Prelude.{
  All-insert, ℕ, ◌≤◌, ◌<◌, ◌≡◌, ◌≢◌, refl, sym, ap, subst, inl, inr, Bool, true, false, ◌&&◌, ◌||◌,
  not, none, some, List, [], ◌∷◌, ◌==◌, ==_iff, lookup, insert, delete, nat_eq, arith, Bool-cases,
  Option-cases, All, Pairs, map,
}
use loggi.Filter.Reader.{Library}
use loggi.Server.Session.Dispatch.{SessionSub, Subs, Reply, Conn, write}
use loggi.Store.Bitmap.{Roaring}
use loggi.Store.Subscribers.{Subscriber, Registry, unsubscribe, on_subscriber, publish_to}

-- The store has a subscriber of this id.
abbrev pub registered : ℕ → List (ℕ × Subscriber) → Bool
registered id [] = false
registered id ((j, sub) ∷ subs) = j == id || registered id subs

pub registered-insert :
    (id j : ℕ) (sub : Subscriber) (subs : List (ℕ × Subscriber))
    → registered id (insert j sub subs) ≡ (j == id || registered id subs)
registered-insert id j sub [] = refl
registered-insert id j sub ((k, t) ∷ subs) = ground (arith, registered-insert id j sub subs)

registered-delete :
    (id j : ℕ) (subs : List (ℕ × Subscriber))
    → registered id (delete j subs) ≡ (registered id subs && not (j == id))
registered-delete id j [] = refl
registered-delete id j ((k, t) ∷ subs) = ground (arith, registered-delete id j subs)

pub registered-unsubscribe :
    (id j : ℕ) (r : Registry)
    → registered id ((unsubscribe j r).1).subs ≡ (registered id r.subs && not (j == id))
unfolding unsubscribe
registered-unsubscribe id j r = elim (Option-cases (lookup j r.subs)) [
  | inl e ↦ rw (e, unsubscribe) (registered-delete id j r.subs)
  | inr (sub, e) ↦ rw (e, unsubscribe) (registered-delete id j r.subs)
]

registered_of_lookup :
    (id : ℕ) (sub : Subscriber) (subs : List (ℕ × Subscriber))
    → lookup id subs ≡ some sub
    → registered id subs ≡ true
registered_of_lookup id sub [] h = cc
registered_of_lookup id sub ((k, t) ∷ subs) h = ground (arith, registered_of_lookup id sub subs)

pub registered-on_subscriber :
    (id j : ℕ) (f : Subscriber → Subscriber) (r : Registry)
    → registered id (on_subscriber j f r).subs ≡ registered id r.subs
unfolding on_subscriber
registered-on_subscriber id j f r = elim (Option-cases (lookup j r.subs)) [
  | inl e ↦ rw (e, on_subscriber) refl
  | inr (sub, e) ↦
      rw (e, on_subscriber)
        (ground (
          arith,
          registered-insert id j (f sub) r.subs,
          λ (q : j ≡ id).
              registered_of_lookup id sub r.subs (subst (λ t. lookup t r.subs ≡ some sub) q e),
        ))
]

pub registered-publish :
    (id seq : ℕ) (subs : List (ℕ × Subscriber))
    → registered id (map (λ e. (e.0, publish_to seq e.1)) subs) ≡ registered id subs
registered-publish id seq [] = refl
registered-publish id seq ((j, sub) ∷ subs) =
    ap (λ b. j == id || b) (registered-publish id seq subs)

module _ (lib : Library) (roaring : Roaring) where
  open lib use {Float, Regexp}

  -- A subscription of the session has this id in the store.
  abbrev pub holds : ℕ → Subs lib roaring → Bool
  holds id [] = false
  holds id ((k, sub) ∷ subs) = sub.store_id == id || holds id subs

  abbrev pub Entry : Type 0
  Entry = ℕ × SessionSub lib roaring

  delete_absent : (k : ℕ) (subs : Subs lib roaring) → All (λ e. k ≢ e.0) subs → delete k subs ≡ subs
  delete_absent k [] h = refl
  delete_absent k ((j, t) ∷ subs) (ne, h) = ground (arith, ne, delete_absent k subs h)

  holds_absent :
      (id : ℕ) (subs : Subs lib roaring)
      → All (λ e. id ≢ (e.1).store_id) subs
      → holds id subs ≡ false
  holds_absent id [] h = refl
  holds_absent id ((j, t) ∷ subs) (ne, h) = ground (arith, ne, holds_absent id subs h)

  pub All-found :
      (P : SessionSub lib roaring → Type 0) (k : ℕ) (old : SessionSub lib roaring)
      (subs : Subs lib roaring)
      → lookup k subs ≡ some old
      → All (λ e. P (e.1)) subs
      → P old
  All-found P k old [] h a = absurd (cc)
  All-found P k old ((j, t) ∷ subs) h (p, a) = elim (Bool-cases (j == k)) [
    | inl b ↦ let e : t ≡ old = ground (arith, b) in subst P e p
    | inr b ↦ All-found P k old subs (ground (arith, b)) a
  ]

  -- The keys of the map, and the ids that it names.
  pub record IsSubs (subs : Subs lib roaring) : Type 0 where
    pub keys : Pairs (λ e f. e.0 ≢ f.0) subs
    pub ids : Pairs (λ e f. (e.1).store_id ≢ (f.1).store_id) subs

  tail-IsSubs : (e : Entry) (subs : Subs lib roaring) → IsSubs (e ∷ subs) → IsSubs subs
  tail-IsSubs e subs v = record { keys = v.keys.1; ids = v.ids.1 }

  pub holds-delete :
      (id k : ℕ) (old : SessionSub lib roaring) (subs : Subs lib roaring)
      → IsSubs subs
      → lookup k subs ≡ some old
      → holds id (delete k subs) ≡ (holds id subs && not (old.store_id == id))
  holds-delete id k old [] v l = cc
  holds-delete id k old ((j, t) ∷ subs) v l = elim (Bool-cases (j == k)) [
    | inl b ↦
        let same_key : j ≡ k = (==_iff j k).0 b in
        let found : t ≡ old = ground (arith, b) in
        let gone : delete k subs ≡ subs =
          delete_absent k subs (subst (λ x. All (λ e. x ≢ e.0) subs) same_key (v.keys.0)) in
        rw (b, gone, ← found)
          (ground (
            arith,
            λ (q : t.store_id ≡ id).
                holds_absent id subs (subst (λ x. All (λ e. x ≢ (e.1).store_id) subs) q (v.ids.0)),
          ))
    | inr b ↦
        let l' : lookup k subs ≡ some old = ground (arith, b) in
        let ne : t.store_id ≢ old.store_id =
          All-found (λ x. t.store_id ≢ x.store_id) k old subs l' (v.ids.0) in
        ground (arith, b, ne, holds-delete id k old subs (tail-IsSubs (j, t) subs v) l')
  ]

  pub delete_missing :
      (k : ℕ) (subs : Subs lib roaring) → lookup k subs ≡ none → delete k subs ≡ subs
  delete_missing k [] h = refl
  delete_missing k ((j, t) ∷ subs) h = ground (arith, delete_missing k subs)

  pub holds-insert :
      (id k : ℕ) (sub : SessionSub lib roaring) (subs : Subs lib roaring)
      → IsSubs subs
      → holds id (insert k sub subs) ≡ (sub.store_id == id || holds id (delete k subs))
  holds-insert id k sub [] v = refl
  holds-insert id k sub ((j, t) ∷ subs) v = elim (Bool-cases (j == k)) [
    | inl b ↦
        let same_key : j ≡ k = (==_iff j k).0 b in
        let gone : delete k subs ≡ subs =
          delete_absent k subs (subst (λ x. All (λ e. x ≢ e.0) subs) same_key (v.keys.0)) in
        rw (b, gone) refl
    | inr b ↦ ground (arith, b, holds-insert id k sub subs (tail-IsSubs (j, t) subs v))
  ]

  -- A new id, or the id that the entry had.
  pub insert-IsSubs :
      (k : ℕ) (sub : SessionSub lib roaring) (subs : Subs lib roaring)
      → All (λ e. sub.store_id ≢ (e.1).store_id) (delete k subs)
      → IsSubs subs
      → IsSubs (insert k sub subs)
  insert-IsSubs k sub [] n v = record { keys = (tt, tt); ids = (tt, tt) }
  insert-IsSubs k sub ((j, t) ∷ subs) n v = elim (Bool-cases (j == k)) [
    | inl b ↦
        let same_key : j ≡ k = (==_iff j k).0 b in
        let apart = subst (λ x. All (λ e. x ≢ e.0) subs) same_key (v.keys.0) in
        let n' : All (λ e. sub.store_id ≢ (e.1).store_id) subs =
          subst (All (λ e. sub.store_id ≢ (e.1).store_id)) (delete_absent k subs apart)
            (rw b at n) in
        rw b (record { keys = (apart, v.keys.1); ids = (n', v.ids.1) })
    | inr b ↦
        let n' = rw b at n in
        let rest = insert-IsSubs k sub subs (n'.1) (tail-IsSubs (j, t) subs v) in
        rw b (record {
          keys = (
            All-insert (λ e. j ≢ e.0) k sub subs (λ q. ground (arith, b, q)) (v.keys.0),
            rest.keys,
          );
          ids = (
            All-insert (λ e. t.store_id ≢ (e.1).store_id) k sub subs (λ q. n'.0 (sym q)) (v.ids.0),
            rest.ids,
          );
        })
  ]

  -- The store has the subscribers that it had before the session, and those of the session's map.
  pub record IsClean (before : Registry) (c : Conn lib roaring) : Type 0 where
    pub subs : IsSubs c.subs
    pub since : before.sub_id ≤ c.registry.sub_id
    pub own : All (λ e. before.sub_id < (e.1).store_id) c.subs
    pub given : All (λ e. (e.1).store_id ≤ c.registry.sub_id) c.subs
    pub store :
        (id : ℕ) → registered id c.registry.subs ≡ (registered id before.subs || holds id c.subs)

  pub write-IsClean :
      (before : Registry) (m : Reply lib roaring) (c : Conn lib roaring)
      → IsClean before c
      → IsClean before (write lib roaring m c)
  unfolding write
  write-IsClean before m c v = record {
    subs = v.subs;
    since = v.since;
    own = v.own;
    given = v.given;
    store = v.store;
  }
