-- ===== src/Store/Ring/Lines.antt =====
-- internal/store/store.go: a line of text, from Append to HotString, on a row that is blank.
use Prim.Native.Nat.{bit_and}
use loggi.Prelude.{
  ℕ, suc, ◌+◌, ◌-◌, ◌^◌, ◌≡◌, ◌<◌, refl, sym, subst, ◌∙◌, Bool, true, false, ◌&&◌, none, some, List,
  [], ◌∷◌, Option, length, if◌then◌else◌, if_cases, arith, lookup, list_eq, nat_eq, insert,
  lookup-insert, get_elem?, set, get_elem?-set_self, lt-length_of_get_elem?, true-ne-false,
}
use loggi.Store.Blob.{BlobSlab, put}
use loggi.Store.Blob.Payloads.{Stores, Reserved, put_lem}
use loggi.Store.Column.{put_at}
use loggi.Store.Column.Write.{set_string}
use loggi.Store.Column.Values.{put_at_lem, Shows, get_string-Shows}
use loggi.Store.Column.Entries.{IsSound}
use loggi.Store.Column.Rows.{HasRoom, set_string_lem}
use loggi.Store.Intern.{Interner}
use loggi.Store.Intern.Valid.{IsValid}
use loggi.Store.Ring.{Engine, Ring, Col, u64, evict_row}
use loggi.Store.Ring.Ingest.{
  AppendInput, set_hot_f64, set_hot_string, set_unless_empty, keep_ansi, append_text, append_line,
  append_row, append,
}
use loggi.Store.Ring.Read.{is_gone, hot_text, hot_string, source_id_of_seq}
use loggi.Store.Ring.Window.{IsWindow, append-IsWindow}
use loggi.Text.{Bytes, codes}
use loggi.Store.Ring.Blank.{
  bind-some, IsBlank, evict_row_blank, set_hot_f64_lem, set_hot_string_lem, cleared,
}

Stores-some :
    (d : Bytes) (o : Option (ℕ × BlobSlab)) → Stores d o → (r : ℕ × BlobSlab) × (o ≡ some r)
Stores-some d none h = absurd h
Stores-some d (some r) h = (r, refl)

module _ (e : Engine) where
  open e use {lib, roaring, hash}

  -- A line of text with its original bytes and without a level.
  abbrev pub line_input : ℕ → lib.Float → Bytes → Bytes → AppendInput lib.Float
  line_input source_id ts line ansi = record {
    source_id = source_id;
    ts = ts;
    json = none;
    text = line;
    ansi_blob = ansi;
    level = [];
  }

  -- The row is blank, and the columns of times and of messages take a value there.
  pub record TakesLine (s : Ring e) (line : Bytes) : Type 0 where
    pub running : s.closed ≡ false
    pub in_window : IsWindow e s
    pub small : s.head < 2 ^ 64 - 1
    pub room : 0 < s.cap
    pub is_blank : IsBlank e (bit_and s.head s.mask) s
    pub ts_col : Col e
    pub ts_found : lookup (codes "ts") s.hot ≡ some ts_col
    pub old_ts : lib.Float
    pub ts_cell : get_elem? ts_col.floats (bit_and s.head s.mask) ≡ some old_ts
    pub ts_empty : get_elem? ts_col.presence (bit_and s.head s.mask) ≡ some false
    pub msg_col : Col e
    pub msg_found : lookup (codes "msg") s.hot ≡ some msg_col
    pub msg_sound : IsSound lib.Float lib.zero_float roaring msg_col s.interner
    pub msg_room :
        HasRoom lib.Float lib.zero_float roaring hash msg_col s.interner
          (bit_and s.head s.mask)
          line
    pub texts : IsValid hash s.interner
    pub payloads : Reserved s.blobs
    pub payloads_small : length s.blobs.slots < 2 ^ 32

  -- The original bytes are kept beside the row.
  keep_ansi_lem :
      (idx w : ℕ) (ansi_bytes : Bytes) (s : Ring e)
      → Reserved s.blobs
      → length s.blobs.slots < 2 ^ 32
      → get_elem? s.ansi idx ≡ some w
      → (b : BlobSlab) × (xs : List ℕ) × (keep_ansi e idx ansi_bytes s
          ≡ some (record s { blobs = b; ansi = xs }))
  unfolding keep_ansi
  keep_ansi_lem idx w [] s ok small cell = (s.blobs, s.ansi, refl)
  keep_ansi_lem idx w (c ∷ d) s ok small cell =
      let (r, q) =
        Stores-some (c ∷ d) (put hash (c ∷ d) s.blobs) (put_lem hash c d s.blobs ok small) in
      (r.1, set s.ansi idx r.0, rw (q, keep_ansi) (rw (put_at_lem idx w r.0 s.ansi cell) refl))

  append_text_lem :
      (idx seq id : ℕ) (b : Bool) (line ansi_bytes : Bytes) (c c' : Col e) (st : Interner)
      (s : Ring e) (blobs : BlobSlab) (ansi : List ℕ)
      → get_elem? s.text_mode idx ≡ some b
      → lookup (codes "msg") s.hot ≡ some c
      → set_string lib.Float lib.zero_float roaring hash idx seq line c s.interner
        ≡ some (id, (c', st))
      → keep_ansi e idx ansi_bytes (record s { text_mode = set s.text_mode idx true })
        ≡ some (record s { text_mode = set s.text_mode idx true; blobs = blobs; ansi = ansi })
      → append_text e idx seq line ansi_bytes [] s
        ≡ some (record s {
          text_mode = set s.text_mode idx true;
          blobs = blobs;
          ansi = ansi;
          hot = insert (codes "msg") c' s.hot;
          interner = st;
        })
  unfolding append_text set_unless_empty
  append_text_lem idx seq id b line ansi_bytes c c' st s blobs ansi mode found p kept =
      let t : Ring e = record s {
        text_mode = set s.text_mode idx true;
        blobs = blobs;
        ansi = ansi;
      } in
      bind-some (put_at idx true s.text_mode) (set s.text_mode idx true) _
        (put_at_lem idx b true s.text_mode mode)
      ∙ bind-some (keep_ansi e idx ansi_bytes (record s { text_mode = set s.text_mode idx true })) t
          _ kept
      ∙ bind-some (set_hot_string e (codes "msg") idx seq line t)
          (record t { hot = insert (codes "msg") c' s.hot; interner = st })
          (set_unless_empty e (codes "level") idx seq [])
          (set_hot_string_lem e (codes "msg") idx seq id line c c' st t found p)

  -- What the readers look at, once the row is written.
  record HasLine (s s' : Ring e) (idx source_id : ℕ) (c' : Col e) (st : Interner) : Type 0 where
    pub msg : lookup (codes "msg") s'.hot ≡ some c'
    pub interner : s'.interner ≡ st
    pub mask : s'.mask ≡ s.mask
    pub source : get_elem? s'.source_id idx ≡ some source_id

  append_row_lem :
      (id source_id : ℕ) (given ts : lib.Float) (line ansi_bytes : Bytes) (c' : Col e)
      (st : Interner) (s : Ring e) (h : TakesLine s line)
      → set_string lib.Float lib.zero_float roaring hash
          (bit_and s.head s.mask)
          s.head
          line
          h.msg_col
          s.interner
        ≡ some (id, (c', st))
      → (s' : Ring e) × (append_row e
            (bit_and s.head s.mask)
            s.head
            ts
            (line_input source_id given line ansi_bytes)
            s
          ≡ some s')
        × HasLine s s' (bit_and s.head s.mask) source_id c' st
  unfolding append_row append_line
  append_row_lem id source_id given ts line ansi_bytes c' st s h p =
      let idx = bit_and s.head s.mask in
      let b = h.is_blank in
      let s0 : Ring e = record s { head = u64 (s.head + 1) } in
      let s1 : Ring e = cleared e idx s0 in
      let sources : List ℕ = set s1.source_id idx source_id in
      let s2 : Ring e = record s1 { source_id = sources } in
      let ts_col : Col e = record h.ts_col {
        floats = set h.ts_col.floats idx ts;
        presence = set h.ts_col.presence idx true;
      } in
      let s3 : Ring e = record s2 { hot = insert (codes "ts") ts_col s.hot } in
      let ansi_cell : get_elem? s3.ansi idx ≡ some 0 =
        get_elem?-set_self s.ansi idx 0 (lt-length_of_get_elem? s.ansi idx 0 b.ansi) in
      let (blobs, ansi, kept) =
        keep_ansi_lem idx 0 ansi_bytes (record s3 { text_mode = set s3.text_mode idx true })
          h.payloads h.payloads_small ansi_cell in
      let s4 : Ring e = record s3 {
        text_mode = set s3.text_mode idx true;
        blobs = blobs;
        ansi = ansi;
        hot = insert (codes "msg") c' s3.hot;
        interner = st;
      } in
      let blank : IsBlank e idx s0 = record {
        columns = b.columns;
        tail_kv = b.tail_kv;
        ansi = b.ansi;
        old_source = b.old_source;
        source_id = b.source_id;
        old_mode = b.old_mode;
        text_mode = b.text_mode;
      } in
      let source_cell : get_elem? s1.source_id idx ≡ some 0 =
        get_elem?-set_self s.source_id idx 0
          (lt-length_of_get_elem? s.source_id idx b.old_source b.source_id) in
      let mode_cell : get_elem? s3.text_mode idx ≡ some false =
        get_elem?-set_self s.text_mode idx false
          (lt-length_of_get_elem? s.text_mode idx b.old_mode b.text_mode) in
      let msg : lookup (codes "msg") s3.hot ≡ some h.msg_col =
        lookup-insert (codes "ts") (codes "msg") ts_col s.hot ∙ h.msg_found in
      (
        s4,
        bind-some (evict_row e idx s0) s1 _ (evict_row_blank e idx s0 blank)
            ∙ bind-some (put_at idx source_id s1.source_id) sources _
                (put_at_lem idx 0 source_id s1.source_id source_cell)
            ∙ bind-some (set_hot_f64 e (codes "ts") idx ts s2) s3 _ (
                set_hot_f64_lem e (codes "ts") idx ts h.old_ts false h.ts_col s2 h.ts_found
                  h.ts_cell h.ts_empty)
            ∙ append_text_lem idx s.head id false line ansi_bytes h.msg_col c' st s3 blobs ansi
                mode_cell msg p kept,
        record {
          msg = lookup-insert (codes "msg") (codes "msg") c' s3.hot;
          interner = refl;
          mask = refl;
          source =
              get_elem?-set_self s1.source_id idx source_id
                (lt-length_of_get_elem? s1.source_id idx 0 source_cell);
        },
      )

  -- A live row whose column of messages shows a text reads back as that text.
  hot_string_lem :
      (seq : ℕ) (t : Bytes) (c : Col e) (s : Ring e)
      → is_gone e seq s ≡ false
      → lookup (codes "msg") s.hot ≡ some c
      → IsValid hash s.interner
      → Shows lib.Float lib.zero_float roaring c s.interner (bit_and seq s.mask) t
      → hot_string e seq (codes "msg") s ≡ some t
  unfolding hot_string
  hot_string_lem seq t c s live found v h =
      rw (live, hot_string)
        (rw (found, hot_string)
          (subst (λ k. hot_text e k (bit_and seq s.mask) c s ≡ some t) (sym h.kind)
            (get_string-Shows lib.Float lib.zero_float roaring hash c s.interner
              (bit_and seq s.mask) t v h)))

  source_id_of_seq_lem :
      (seq n : ℕ) (s : Ring e)
      → is_gone e seq s ≡ false
      → get_elem? s.source_id (bit_and seq s.mask) ≡ some n
      → source_id_of_seq e seq s ≡ some n
  unfolding source_id_of_seq
  source_id_of_seq_lem seq n s live found = rw (live, source_id_of_seq) found

  new_row_live :
      (s s' : Ring e)
      → s'.head ≡ suc s.head
      → s'.cap ≡ s.cap
      → IsWindow e s'
      → 0 < s.cap
      → is_gone e s.head s' ≡ false
  new_row_live s s' head cap w room = ground (arith, head, cap, w)

  append_running :
      (now : lib.Float) (input : AppendInput lib.Float) (s s' : Ring e)
      → s.closed ≡ false
      → append_row e
          (bit_and s.head s.mask)
          s.head
          (if lib.float_le input.ts lib.zero_float && lib.float_le lib.zero_float input.ts
            then now
            else input.ts)
          input
          s
        ≡ some s'
      → append e now input s ≡ some (s.head, s')
  unfolding append
  append_running now input s s' running p =
      if_cases (λ o. o ≡ some (s.head, s')) s.closed _ _
        (λ h. absurd (true-ne-false (sym h ∙ running))) (λ h. bind-some _ s' _ p)

  -- A line of text that is not empty, with any original bytes and no level, appended to a ring that is not closed whose next row is blank: Append
  -- does not panic and returns the head; HotString of that id and `msg` is then the line, SourceIDOfSeq
  -- is the source, and the live rows are again the last ones.
  pub hot_string-append :
      (source_id : ℕ) (now ts : lib.Float) (x : ℕ) (line ansi_bytes : Bytes) (s : Ring e)
      → TakesLine s (x ∷ line)
      → (s' : Ring e) × (append e now (line_input source_id ts (x ∷ line) ansi_bytes) s
          ≡ some (s.head, s'))
        × (hot_string e s.head (codes "msg") s' ≡ some (x ∷ line))
        × (source_id_of_seq e s.head s' ≡ some source_id)
        × IsWindow e s'
  hot_string-append source_id now ts x line ansi_bytes s h =
      let idx = bit_and s.head s.mask in
      let (id, c', st, set_eq, w, sound, v) =
        set_string_lem lib.Float lib.zero_float roaring hash h.msg_col s.interner idx s.head x line
          h.msg_sound h.texts h.msg_room in
      let at : lib.Float =
        if lib.float_le ts lib.zero_float && lib.float_le lib.zero_float ts then now else ts in
      let (s', row_eq, k) =
        append_row_lem id source_id ts at (x ∷ line) ansi_bytes c' st s h set_eq in
      let app : append e now (line_input source_id ts (x ∷ line) ansi_bytes) s ≡ some (s.head, s') =
        append_running now (line_input source_id ts (x ∷ line) ansi_bytes) s s' h.running row_eq in
      let (_, head, cap, win) =
        append-IsWindow e now (line_input source_id ts (x ∷ line) ansi_bytes) s s' s.head
          h.in_window h.small h.running app in
      let live : is_gone e s.head s' ≡ false = new_row_live s s' head cap win h.room in
      (
        s',
        app,
        hot_string_lem s.head (x ∷ line) c' s' live k.msg (subst (IsValid hash) (sym k.interner) v)
            (subst
              (λ u. Shows lib.Float lib.zero_float roaring c' u (bit_and s.head s'.mask) (x ∷ line))
              (sym k.interner)
              (subst
                (λ m. Shows lib.Float lib.zero_float roaring c' st (bit_and s.head m) (x ∷ line))
                (sym k.mask) w.shown)),
        source_id_of_seq_lem s.head source_id s' live (
            subst (λ m. get_elem? s'.source_id (bit_and s.head m) ≡ some source_id) (sym k.mask)
              k.source),
        win,
      )
