-- ===== src/Store/Ring/Frame.antt =====
-- internal/store/store.go: what the writes to a row leave alone, the window of live rows among it.
use loggi.Prelude.{
  ℕ, ◌+◌, ◌≡◌, refl, ◌∙◌, Bool, true, false, Option, none, some, [], ◌∷◌, if_cases, ◌>>=◌, lookup,
  list_eq, nat_eq, get_elem?, is_empty,
}
use loggi.Source.Levels.{RawObject, extract_level}
use loggi.Store.Blob.{put}
use loggi.Store.Column.{put_at, set_f64}
use loggi.Store.Column.Write.{set_string}
use loggi.Store.Intern.{intern}
use loggi.Store.Ring.{Engine, Ring, u64}
use loggi.Store.Ring.Ingest.{
  AppendInput, set_hot_f64, set_hot_string, set_column_from_raw, route_field, append_tail_kv,
  maybe_promote, ingest_other, ingest_field, ingest_fields, set_unless_empty, keep_ansi,
  append_text, append_json, append_line, tally, count_of, is_promoted, raw_text, tail_value,
}
use loggi.Store.Types.{ColumnKind, col_dict, col_raw, col_f64}
use loggi.Text.{Bytes, codes, str_eq}

-- What holds of the result of code that does not panic.
abbrev pub Ok : {A : Type 0} → (A → Type 0) → Option A → Type 0
Ok P none = Unit
Ok P (some a) = P a

pub Ok-any :
    {A B : Type 0} (P : B → Type 0) (m : Option A) (f : A → Option B)
    → ((a : A) → Ok P (f a))
    → Ok P (m >>= f)
Ok-any P none f h = tt
Ok-any P (some a) f h = h a

pub Ok-bind :
    {A B : Type 0} (P : A → Type 0) (Q : B → Type 0) (m : Option A) (f : A → Option B)
    → Ok P m
    → ((a : A) → P a → Ok Q (f a))
    → Ok Q (m >>= f)
Ok-bind P Q none f h k = tt
Ok-bind P Q (some a) f h k = k a h

pub Ok-weaken :
    {A : Type 0} (P Q : A → Type 0) (o : Option A) → ((a : A) → P a → Q a) → Ok P o → Ok Q o
Ok-weaken P Q none f h = tt
Ok-weaken P Q (some a) f h = f a h

module _ (e : Engine) where
  open e use {lib, roaring, hash, json}

  -- What the writes to a row leave alone.
  abbrev pub window : Ring e → ℕ × ℕ × ℕ × ℕ × Bool
  window s = (s.cap, s.mask, s.head, s.tail, s.closed)

  abbrev pub SameWindow : Ring e → Ring e → Type 0
  SameWindow s s' = window s' ≡ window s

  -- One write after another.
  pub Ok-then :
      (s : Ring e) (m : Option (Ring e)) (f : Ring e → Option (Ring e))
      → Ok (SameWindow s) m
      → ((t : Ring e) → Ok (SameWindow t) (f t))
      → Ok (SameWindow s) (m >>= f)
  Ok-then s m f h k =
      Ok-bind (SameWindow s) (SameWindow s) m f h
        (λ t p. Ok-weaken (SameWindow t) (SameWindow s) (f t) (λ u q. q ∙ p) (k t))

  pub set_hot_f64-SameWindow :
      (name : Bytes) (idx : ℕ) (v : lib.Float) (s : Ring e)
      → Ok (SameWindow s) (set_hot_f64 e name idx v s)
  unfolding set_hot_f64
  set_hot_f64-SameWindow name idx v s =
      Ok-any (SameWindow s) (lookup name s.hot) _ (λ c.
        Ok-any (SameWindow s) (set_f64 lib.Float lib.zero_float roaring idx v c) _ (λ c'. refl))

  pub set_hot_string-SameWindow :
      (name : Bytes) (idx seq : ℕ) (t : Bytes) (s : Ring e)
      → Ok (SameWindow s) (set_hot_string e name idx seq t s)
  unfolding set_hot_string
  set_hot_string-SameWindow name idx seq t s = Ok-any (SameWindow s) (lookup name s.hot) _ (λ c.
      Ok-any (SameWindow s)
        (set_string lib.Float lib.zero_float roaring hash idx seq t c s.interner) _ (λ r. refl))

  pub route_field-SameWindow :
      (k : ColumnKind) (name : Bytes) (idx seq : ℕ) (raw : Bytes) (s : Ring e)
      → Ok (SameWindow s) (route_field e k name idx seq raw s)
  unfolding route_field set_column_from_raw
  route_field-SameWindow col_f64 name idx seq raw s =
      elim (json.float raw)
        as (λ o.
          Ok (SameWindow s) (elim o [ none ↦ some s | some f ↦ set_hot_f64 e name idx f s ])) [
            | none ↦ refl
            | some f ↦ set_hot_f64-SameWindow name idx f s
          ]
  route_field-SameWindow col_dict name idx seq raw s =
      set_hot_string-SameWindow name idx seq (raw_text e raw) s
  route_field-SameWindow col_raw name idx seq raw s =
      set_hot_string-SameWindow name idx seq (raw_text e raw) s

  pub append_tail_kv-SameWindow :
      (idx : ℕ) (key raw : Bytes) (s : Ring e) → Ok (SameWindow s) (append_tail_kv e idx key raw s)
  unfolding append_tail_kv
  append_tail_kv-SameWindow idx key raw s =
      Ok-any (SameWindow s) (intern hash key s.interner) _ (λ k.
        Ok-any (SameWindow s) (tail_value e raw k.1 s.blobs) _ (λ v.
          Ok-any (SameWindow s) (get_elem? s.tail_kv idx) _
            (λ kvs. Ok-any (SameWindow s) (put_at idx _ s.tail_kv) _ (λ tail_kv. refl))))

  pub maybe_promote-SameWindow :
      (idx seq : ℕ) (key raw : Bytes) (s : Ring e)
      → Ok (SameWindow s) (maybe_promote e idx seq key raw s)
  unfolding maybe_promote
  maybe_promote-SameWindow idx seq key raw s =
      if_cases (Ok (SameWindow s)) (is_promoted s.rows_seen (count_of key (tally key s.promo_cnt)))
        _ _ (λ h. route_field-SameWindow col_dict key idx seq raw _)
        (λ h. append_tail_kv-SameWindow idx key raw _)

  pub ingest_other-SameWindow :
      (idx seq : ℕ) (key raw : Bytes) (s : Ring e)
      → Ok (SameWindow s) (ingest_other e idx seq key raw s)
  unfolding ingest_other
  ingest_other-SameWindow idx seq key raw s =
      elim (lookup key s.hot)
        as (λ o. Ok (SameWindow s) (elim o [
          | some c ↦ route_field e c.kind key idx seq raw s
          | none ↦ maybe_promote e idx seq key raw s
        ])) [
          | some c ↦ route_field-SameWindow c.kind key idx seq raw s
          | none ↦ maybe_promote-SameWindow idx seq key raw s
        ]

  pub ingest_field-SameWindow :
      (idx seq : ℕ) (key raw : Bytes) (s : Ring e)
      → Ok (SameWindow s) (ingest_field e idx seq key raw s)
  unfolding ingest_field
  ingest_field-SameWindow idx seq key raw s =
      if_cases (Ok (SameWindow s)) (str_eq key (codes "ts")) _ _
        (λ h.
          elim (json.float raw)
            as (λ o. Ok (SameWindow s) (elim o [
              | some f ↦ set_hot_f64 e (codes "ts") idx f s
              | none ↦ ingest_other e idx seq key raw s
            ])) [
              | some f ↦ set_hot_f64-SameWindow (codes "ts") idx f s
              | none ↦ ingest_other-SameWindow idx seq key raw s
            ])
        (λ h. ingest_other-SameWindow idx seq key raw s)

  pub ingest_fields-SameWindow :
      (idx seq : ℕ) (obj : RawObject) (s : Ring e)
      → Ok (SameWindow s) (ingest_fields e idx seq obj s)
  unfolding ingest_fields
  ingest_fields-SameWindow idx seq [] s = refl
  ingest_fields-SameWindow idx seq ((k, raw) ∷ obj) s =
      Ok-then s (ingest_field e idx seq k raw s) _ (ingest_field-SameWindow idx seq k raw s)
        (ingest_fields-SameWindow idx seq obj)

  pub set_unless_empty-SameWindow :
      (name : Bytes) (idx seq : ℕ) (t : Bytes) (s : Ring e)
      → Ok (SameWindow s) (set_unless_empty e name idx seq t s)
  unfolding set_unless_empty
  set_unless_empty-SameWindow name idx seq t s =
      if_cases (Ok (SameWindow s)) (is_empty t) _ _ (λ h. refl)
        (λ h. set_hot_string-SameWindow name idx seq t s)

  pub keep_ansi-SameWindow :
      (idx : ℕ) (ansi_bytes : Bytes) (s : Ring e) → Ok (SameWindow s) (keep_ansi e idx ansi_bytes s)
  unfolding keep_ansi
  keep_ansi-SameWindow idx ansi_bytes s =
      if_cases (Ok (SameWindow s)) (is_empty ansi_bytes) _ _ (λ h. refl)
        (λ h.
          Ok-any (SameWindow s) (put hash ansi_bytes s.blobs) _
            (λ b. Ok-any (SameWindow s) (put_at idx b.0 s.ansi) _ (λ ansi. refl)))

  pub append_text-SameWindow :
      (idx seq : ℕ) (line ansi_bytes level_hint : Bytes) (s : Ring e)
      → Ok (SameWindow s) (append_text e idx seq line ansi_bytes level_hint s)
  unfolding append_text
  append_text-SameWindow idx seq line ansi_bytes level_hint s =
      Ok-any (SameWindow s) (put_at idx true s.text_mode) _ (λ text_mode.
        Ok-then s (keep_ansi e idx ansi_bytes (record s { text_mode = text_mode })) _
          (keep_ansi-SameWindow idx ansi_bytes (record s { text_mode = text_mode }))
          (λ s'.
            Ok-then s' (set_hot_string e (codes "msg") idx seq line s') _
              (set_hot_string-SameWindow (codes "msg") idx seq line s')
              (set_unless_empty-SameWindow (codes "level") idx seq level_hint)))

  pub append_json-SameWindow :
      (idx seq : ℕ) (raw : Bytes) (s : Ring e) → Ok (SameWindow s) (append_json e idx seq raw s)
  unfolding append_json
  append_json-SameWindow idx seq raw s =
      elim (json.raw_object raw)
        as (λ o. Ok (SameWindow s) (elim o [
          | none ↦ append_text e idx seq raw [] [] s
          | some obj ↦ put_at idx false s.text_mode >>= λ text_mode.
              ingest_fields e idx seq obj (record s { text_mode = text_mode }) >>= λ s'.
              set_unless_empty e (codes "level") idx seq (extract_level lib json obj) s' >>= λ s''.
              some (record s'' { rows_seen = u64 (s''.rows_seen + 1) })
        ])) [
          | none ↦ append_text-SameWindow idx seq raw [] [] s
          | some obj ↦ Ok-any (SameWindow s) (put_at idx false s.text_mode) _ (λ text_mode.
              Ok-then s (ingest_fields e idx seq obj (record s { text_mode = text_mode })) _
                (ingest_fields-SameWindow idx seq obj (record s { text_mode = text_mode }))
                (λ s'.
                  Ok-then s'
                    (set_unless_empty e (codes "level") idx seq (extract_level lib json obj) s') _
                    (set_unless_empty-SameWindow (codes "level") idx seq
                      (extract_level lib json obj) s')
                    (λ s''. refl)))
        ]

  pub append_line-SameWindow :
      (idx seq : ℕ) (input : AppendInput lib.Float) (s : Ring e)
      → Ok (SameWindow s) (append_line e idx seq input s)
  unfolding append_line
  append_line-SameWindow idx seq input s =
      elim input.json
        as (λ o. Ok (SameWindow s) (elim o [
          | some raw ↦ append_json e idx seq raw s
          | none ↦ append_text e idx seq input.text input.ansi_blob input.level s
        ])) [
          | some raw ↦ append_json-SameWindow idx seq raw s
          | none ↦ append_text-SameWindow idx seq input.text input.ansi_blob input.level s
        ]
