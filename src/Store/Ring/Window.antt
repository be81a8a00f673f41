-- ===== src/Store/Ring/Window.antt =====
-- internal/store/store.go: the window of live rows that Append keeps.
use Prim.Native.Nat.{bit_and}
use loggi.Prelude.{
  ℕ, suc, ◌+◌, ◌-◌, ◌^◌, ◌≡◌, ◌<◌, refl, sym, ap, subst, ◌∙◌, false, Option, some, [], ltb,
  if◌then◌else◌, if_cases, arith, list_eq, nat_eq, get_elem?, true-ne-false,
}
use loggi.Store.Column.{put_at}
use loggi.Store.Ring.{Engine, Ring, u64, evict_row, evict_columns}
use loggi.Store.Ring.Ingest.{AppendInput, set_hot_f64, append_line, append_row, append}
use loggi.Text.{codes}
use loggi.Store.Ring.Frame.{
  Ok-any, Ok-bind, Ok-weaken, Ok-then, set_hot_f64-SameWindow, append_line-SameWindow, Ok, window,
  SameWindow,
}

module _ (e : Engine) where
  open e use {lib, roaring, hash, json}

  -- The window once a row is evicted.
  abbrev Evicted : Ring e → Ring e → Type 0
  Evicted s s' =
      window e s'
      ≡ (s.cap, s.mask, s.head, (if ltb s.cap s.head then s.head - s.cap else s.tail), s.closed)

  evict_row-Evicted : (idx : ℕ) (s : Ring e) → Ok (Evicted s) (evict_row e idx s)
  unfolding evict_row
  evict_row-Evicted idx s = Ok-any (Evicted s) (evict_columns e idx s.hot s.interner) _ (λ cols.
      Ok-any (Evicted s) (get_elem? s.tail_kv idx) _ (λ kvs.
        Ok-any (Evicted s) (put_at idx [] s.tail_kv) _ (λ tail_kv.
          Ok-any (Evicted s) (get_elem? s.ansi idx) _ (λ a.
            Ok-any (Evicted s) (put_at idx 0 s.ansi) _ (λ ansi.
              Ok-any (Evicted s) (put_at idx 0 s.source_id) _ (λ source_id.
                Ok-any (Evicted s) (put_at idx false s.text_mode) _ (λ text_mode. refl)))))))

  append_row-Evicted :
      (idx seq : ℕ) (ts : lib.Float) (input : AppendInput lib.Float) (s : Ring e)
      → Ok (Evicted (record s { head = u64 (seq + 1) })) (append_row e idx seq ts input s)
  unfolding append_row
  append_row-Evicted idx seq ts input s =
      let begun : Ring e = record s { head = u64 (seq + 1) } in
      Ok-bind (Evicted begun) (Evicted begun) (evict_row e idx begun) _
        (evict_row-Evicted idx begun)
        (λ s' p. Ok-any (Evicted begun) (put_at idx input.source_id s'.source_id) _ (λ source_id.
          let t : Ring e = record s' { source_id = source_id } in
          Ok-weaken (SameWindow e t) (Evicted begun) _ (λ u q. q ∙ p)
            (Ok-then e t (set_hot_f64 e (codes "ts") idx ts t) (append_line e idx seq input)
              (set_hot_f64-SameWindow e (codes "ts") idx ts t)
              (append_line-SameWindow e idx seq input))))

  -- The live rows are the last ones, as many as the ring holds.
  abbrev pub IsWindow : Ring e → Type 0
  IsWindow s = s.tail ≡ s.head - s.cap

  Ok-eq : {A : Type 0} (P : A → Type 0) (o : Option A) (a : A) → Ok P o → o ≡ some a → P a
  Ok-eq P o a h p = subst (Ok P) p h

  -- Append gives a row the next sequence id, whatever the row holds: afterwards the live rows are again
  -- the last ones, at most as many as the capacity, and the new one is among them if there is any room.
  pub append-IsWindow :
      (now : lib.Float) (input : AppendInput lib.Float) (s s' : Ring e) (seq : ℕ)
      → IsWindow s
      → s.head < 2 ^ 64 - 1
      → s.closed ≡ false
      → append e now input s ≡ some (seq, s')
      → (seq ≡ s.head) × (s'.head ≡ suc s.head) × (s'.cap ≡ s.cap) × IsWindow s'
  unfolding append
  append-IsWindow now input s s' seq w small running p =
      let begun : Ring e = record s { head = u64 (s.head + 1) } in
      let Q : ℕ × Ring e → Type 0 = λ r. (r.0 ≡ s.head) × Evicted begun r.1 in
      let ok : Ok Q (append e now input s) =
        if_cases (Ok Q) s.closed _ _ (λ h. absurd (true-ne-false (sym h ∙ running)))
          (λ h.
            Ok-bind (Evicted begun) Q (append_row e (bit_and s.head s.mask) s.head _ input s) _
              (append_row-Evicted (bit_and s.head s.mask) s.head _ input s) (λ t q. (refl, q))) in
      let (same_seq, q) = Ok-eq Q (append e now input s) (seq, s') ok p in
      let word : u64 (s.head + 1) ≡ suc s.head = omega arith in
      let head : s'.head ≡ suc s.head = ap (λ w. w.2) q ∙ word in
      let cap : s'.cap ≡ s.cap = ap (λ w. w.0) q in
      let tail : s'.tail ≡ (if ltb s.cap (suc s.head) then suc s.head - s.cap else s.tail) =
        ap (λ w. w.3) q ∙ ap (λ h. if ltb s.cap h then h - s.cap else s.tail) word in
      let kept : (if ltb s.cap (suc s.head) then suc s.head - s.cap else s.tail)
          ≡ suc s.head - s.cap =
        ground (arith, w) in
      (same_seq, head, cap, tail ∙ kept ∙ sym (rw head (rw cap refl)))
