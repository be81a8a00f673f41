-- ===== src/Server/Hub/Registry.antt =====
-- The table of sources through the operations of a server.
use loggi.Prelude.{
  All-insert, All-delete, Pairs-delete, ℕ, suc, ◌≤◌, ◌≡◌, ◌≢◌, refl, subst, inl, inr, Bool, true,
  false, ◌&&◌, not, none, some, List, [], ◌∷◌, ◌++◌, lookup, insert, delete, nat_eq, arith,
  Bool-cases, All, Pairs, ◌==◌, ==_iff, All_mono,
}
use loggi.Text.{Bytes, str_eq, str_eq_iff, bytes_eq}
use loggi.Server.Hub.{SourceRec, Sources, Hub, kind_stdin, is_running, find_open_source}

-- Two running sources, not of stdin, that read the same thing.
abbrev pub clash : SourceRec → SourceRec → Bool
clash r q =
    is_running r.state
    && is_running q.state
    && (str_eq r.kind q.kind && str_eq r.name q.name && not (str_eq r.kind kind_stdin))

-- No id is still to be generated or stands twice, and no two running sources clash.
pub record IsTable (generated : ℕ) (srcs : Sources) : Type 0 where
  pub fresh : All (λ e. e.0 ≤ generated) srcs
  pub ids : Pairs (λ e f. e.0 ≢ f.0) srcs
  pub single : Pairs (λ e f. clash (e.1) (f.1) ≡ false) srcs

abbrev pub IsHub : Hub → Type 0
IsHub h = IsTable h.generated h.srcs

insert_fresh :
    (id : ℕ) (r : SourceRec) (m : Sources)
    → All (λ e. e.0 ≢ id) m
    → insert id r m ≡ m ++ (id, r) ∷ []
insert_fresh id r [] h = refl
insert_fresh id r ((j, q) ∷ m) (ne, h) = ground (arith, ne, insert_fresh id r m h)

module _ {A : Type 0} where
  All-snoc : (P : A → Type 0) (x : A) (m : List A) → All P m → P x → All P (m ++ x ∷ [])
  All-snoc P x [] h p = (p, tt)
  All-snoc P x (y ∷ m) (q, h) p = (q, All-snoc P x m h p)

  Pairs-snoc :
      (R : A → A → Type 0) (x : A) (m : List A)
      → Pairs R m
      → All (λ e. R e x) m
      → Pairs R (m ++ x ∷ [])
  Pairs-snoc R x [] h k = (tt, tt)
  Pairs-snoc R x (y ∷ m) (p, h) (q, k) = (All-snoc (R y) x m p q, Pairs-snoc R x m h k)

pub remove-IsTable : (n id : ℕ) (m : Sources) → IsTable n m → IsTable n (delete id m)
remove-IsTable n id m v = record {
  fresh = All-delete _ id m v.fresh;
  ids = Pairs-delete _ id m v.ids;
  single = Pairs-delete _ id m v.single;
}

-- An id that is not generated yet.
pub add-IsTable :
    (n : ℕ) (r : SourceRec) (m : Sources)
    → All (λ e. clash (e.1) r ≡ false) m
    → IsTable n m
    → IsTable (suc n) (insert (suc n) r m)
add-IsTable n r m c v =
    let ne : All (λ e. e.0 ≢ suc n) m =
      All_mono _ _ m (λ (e : ℕ × SourceRec) (h : e.0 ≤ n) q. omega (arith, h, q)) v.fresh in
    rw (insert_fresh (suc n) r m ne) (record {
      fresh =
          All-snoc (λ e. e.0 ≤ suc n) _ m
            (All_mono _ _ m (λ (e : ℕ × SourceRec) (h : e.0 ≤ n). omega (arith, h)) v.fresh)
            (omega arith);
      ids = Pairs-snoc _ _ m v.ids ne;
      single = Pairs-snoc _ _ m v.single c;
    })

pub skip-IsTable : (n : ℕ) (m : Sources) → IsTable n m → IsTable (suc n) m
skip-IsTable n m v = record {
  fresh = All_mono _ _ m (λ (e : ℕ × SourceRec) (h : e.0 ≤ n). omega (arith, h)) v.fresh;
  ids = v.ids;
  single = v.single;
}

-- The record of a source may change, if its kind and name stay and it does not start to run.
pub record Tamer (q r : SourceRec) : Type 0 where
  pub kind : q.kind ≡ r.kind
  pub name : q.name ≡ r.name
  pub state : is_running q.state ≡ true → is_running r.state ≡ true

pub clash_left : (q r t : SourceRec) → Tamer q r → clash r t ≡ false → clash q t ≡ false
clash_left q r t v h = rw (v.kind, v.name) (ground (arith, v.state))

pub clash_right : (q r t : SourceRec) → Tamer q r → clash t r ≡ false → clash t q ≡ false
clash_right q r t v h = rw (v.kind, v.name) (ground (arith, v.state))

pub All-lookup :
    (P : ℕ × SourceRec → Type 0) (id : ℕ) (r : SourceRec) (m : Sources)
    → lookup id m ≡ some r
    → All P m
    → P (id, r)
All-lookup P id r [] e h = absurd (cc)
All-lookup P id r ((j, t) ∷ m) e (p, h) = elim (Bool-cases (j == id)) [
  | inl b ↦
      let same_id : j ≡ id = (==_iff j id).0 b in
      let same_rec : t ≡ r = ground (arith, b) in
      subst (λ x. P (x, r)) same_id (subst (λ x. P (j, x)) same_rec p)
  | inr b ↦ All-lookup P id r m (ground (arith, b)) h
]

change-Pairs :
    (R : ℕ × SourceRec → ℕ × SourceRec → Type 0) (id : ℕ) (q r : SourceRec) (m : Sources)
    → ((e : ℕ × SourceRec) → R (id, r) e → R (id, q) e)
    → ((e : ℕ × SourceRec) → R e (id, r) → R e (id, q))
    → lookup id m ≡ some r
    → Pairs R m
    → Pairs R (insert id q m)
change-Pairs R id q r [] f g l h = absurd (cc)
change-Pairs R id q r ((j, t) ∷ m) f g l (p, h) = elim (Bool-cases (j == id)) [
  | inl b ↦
      let same_id : j ≡ id = (==_iff j id).0 b in
      let same_rec : t ≡ r = ground (arith, b) in
      let p' : All (R (id, r)) m =
        subst (λ x. All (R (x, r)) m) same_id (subst (λ x. All (R (j, x)) m) same_rec p) in
      rw b (All_mono _ _ m f p', h)
  | inr b ↦
      let l' : lookup id m ≡ some r = ground (arith, b) in
      rw b (
        All-insert (R (j, t)) id q m (g _ (All-lookup (R (j, t)) id r m l' p)) p,
        change-Pairs R id q r m f g l' h,
      )
]

pub change-IsTable :
    (n id : ℕ) (q r : SourceRec) (m : Sources)
    → lookup id m ≡ some r
    → Tamer q r
    → IsTable n m
    → IsTable n (insert id q m)
change-IsTable n id q r m l t v = record {
  fresh = All-insert _ id q m (All-lookup (λ e. e.0 ≤ n) id r m l v.fresh) v.fresh;
  ids = change-Pairs (λ e f. e.0 ≢ f.0) id q r m (λ e h. h) (λ e h. h) l v.ids;
  single =
      change-Pairs (λ e f. clash (e.1) (f.1) ≡ false) id q r m (λ e. clash_left q r (e.1) t)
        (λ e. clash_right q r (e.1) t) l v.single;
}

-- A new source clashes with none, if none of its kind and name runs.
pub find_none :
    (kind ident : Bytes) (r : SourceRec) (m : Sources)
    → r.kind ≡ kind
    → r.name ≡ ident
    → find_open_source kind ident m ≡ none
    → All (λ e. clash (e.1) r ≡ false) m
unfolding find_open_source
find_none kind ident r [] k n h = tt
find_none kind ident r ((j, q) ∷ m) k n h =
    (rw (k, n) (ground (arith, h)), find_none kind ident r m k n (ground (arith, h)))

pub stdin_clash :
    (r : SourceRec) (m : Sources) → r.kind ≡ kind_stdin → All (λ e. clash (e.1) r ≡ false) m
stdin_clash r [] k = tt
stdin_clash r ((j, q) ∷ m) k =
    (rw k (ground (arith, str_eq_iff q.kind kind_stdin)), stdin_clash r m k)
