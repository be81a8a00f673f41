-- ===== src/Store/Ring/Blank.antt =====
-- internal/store/store.go: the writes to a blank row.
use loggi.Prelude.{
  ℕ, ◌-◌, ◌≡◌, refl, ap, Bool, true, false, Option, some, List, [], ◌∷◌, ltb, if◌then◌else◌, ◌>>=◌,
  lookup, list_eq, nat_eq, insert, get_elem?, set, All,
}
use loggi.Store.Column.{set_f64, evict_at}
use loggi.Store.Column.Write.{set_string}
use loggi.Store.Column.Values.{put_at_lem}
use loggi.Store.Intern.{Interner}
use loggi.Store.Ring.{Engine, Ring, Col, evict_row, evict_columns}
use loggi.Store.Ring.Ingest.{set_hot_f64, set_hot_string}
use loggi.Text.{Bytes}

pub bind-some :
    {A B : Type 0} (m : Option A) (a : A) (f : A → Option B) → m ≡ some a → (m >>= f) ≡ f a
bind-some m a f p = ap (λ o. o >>= f) p

module _ (e : Engine) where
  open e use {lib, roaring, hash}

  -- A row that no column, no pair of a rare key and no payload holds.
  pub record IsBlank (idx : ℕ) (s : Ring e) : Type 0 where
    pub columns : All (λ c. get_elem? (c.1).presence idx ≡ some false) s.hot
    pub tail_kv : get_elem? s.tail_kv idx ≡ some []
    pub ansi : get_elem? s.ansi idx ≡ some 0
    pub old_source : ℕ
    pub source_id : get_elem? s.source_id idx ≡ some old_source
    pub old_mode : Bool
    pub text_mode : get_elem? s.text_mode idx ≡ some old_mode

  pub evict_columns_blank :
      (idx : ℕ) (cols : List (Bytes × Col e)) (st : Interner)
      → All (λ c. get_elem? (c.1).presence idx ≡ some false) cols
      → evict_columns e idx cols st ≡ some (cols, st)
  unfolding evict_columns evict_at
  evict_columns_blank idx [] st h = refl
  evict_columns_blank idx ((k, c) ∷ cols) st (h, hs) =
      rw (h, evict_at) (rw (evict_columns_blank idx cols st hs) refl)

  -- The ring once a blank row is cleared.
  abbrev pub cleared : ℕ → Ring e → Ring e
  cleared idx s = record s {
    tail_kv = set s.tail_kv idx [];
    ansi = set s.ansi idx 0;
    source_id = set s.source_id idx 0;
    text_mode = set s.text_mode idx false;
    tail = if ltb s.cap s.head then s.head - s.cap else s.tail;
  }

  pub evict_row_blank :
      (idx : ℕ) (s : Ring e) → IsBlank idx s → evict_row e idx s ≡ some (cleared idx s)
  unfolding evict_row
  evict_row_blank idx s h =
      rw (evict_columns_blank idx s.hot s.interner h.columns, evict_row)
        (rw (h.tail_kv, evict_row)
          (rw (put_at_lem idx [] [] s.tail_kv h.tail_kv, evict_row)
            (rw (h.ansi, evict_row)
              (rw (put_at_lem idx 0 0 s.ansi h.ansi, evict_row)
                (rw (put_at_lem idx h.old_source 0 s.source_id h.source_id, evict_row)
                  (rw (put_at_lem idx h.old_mode false s.text_mode h.text_mode, evict_row)
                    refl))))))

  pub set_hot_f64_lem :
      (name : Bytes) (idx : ℕ) (v w : lib.Float) (b : Bool) (c : Col e) (s : Ring e)
      → lookup name s.hot ≡ some c
      → get_elem? c.floats idx ≡ some w
      → get_elem? c.presence idx ≡ some b
      → set_hot_f64 e name idx v s
        ≡ some (record s {
          hot =
              insert name
                (record c { floats = set c.floats idx v; presence = set c.presence idx true })
                s.hot;
        })
  unfolding set_hot_f64
  set_hot_f64_lem name idx v w b c s found f p =
      rw (found, set_hot_f64)
        (rw (put_at_lem idx w v c.floats f, set_f64)
          (rw (put_at_lem idx b true c.presence p, set_f64) refl))

  pub set_hot_string_lem :
      (name : Bytes) (idx seq id : ℕ) (t : Bytes) (c c' : Col e) (st : Interner) (s : Ring e)
      → lookup name s.hot ≡ some c
      → set_string lib.Float lib.zero_float roaring hash idx seq t c s.interner
        ≡ some (id, (c', st))
      → set_hot_string e name idx seq t s
        ≡ some (record s { hot = insert name c' s.hot; interner = st })
  unfolding set_hot_string
  set_hot_string_lem name idx seq id t c c' st s found p =
      rw (found, set_hot_string) (rw (p, set_hot_string) refl)
