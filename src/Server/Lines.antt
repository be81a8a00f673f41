-- ===== src/Server/Lines.antt =====
-- internal/server/server.go: processLine, from the bytes of a line to the published row. The counters
-- of lines, the mode of a source and the detection of columns are those of Server/Hub/Health.
use loggi.Prelude.{
  ℕ, ◌≡◌, sym, ap, ◌∙◌, Bool, true, false, ◌||◌, Option, none, some, List, [], ◌∷◌, ◌==◌,
  if◌then◌else◌, if_cases, lookup, list_eq, nat_eq, ◌>>=◌, true-ne-false,
}
use loggi.Filter.Reader.{Library}
use loggi.Server.Ansi.{strip_ansi}
use loggi.Server.Ansi.Stripped.{stripped}
use loggi.Source.Levels.{RawObject}
use loggi.Source.TextLine.{Patterns, parse_text_line}
use loggi.Store.Ring.{Engine, Ring}
use loggi.Store.Ring.Ingest.{AppendInput, append}
use loggi.Store.Ring.Lines.{line_input, TakesLine, hot_string-append}
use loggi.Store.Ring.Read.{hot_string, source_id_of_seq, publish_row}
use loggi.Store.Subscribers.{Registry, publish}
use loggi.Text.{Bytes, codes}

-- The first byte that is no blank is a brace, or there is none.
unfoldable pub starts_object : Bytes → Bool
starts_object [] = true
starts_object (c ∷ s) = elim (c == b' ' || c == b'\t') [
  | true ↦ starts_object s
  | false ↦ c == b'{'
]

has_any : List Bytes → RawObject → Bool
has_any [] v = false
has_any (k ∷ ks) v = elim (lookup k v) [ some _ ↦ true | none ↦ has_any ks v ]

abbrev json_keys : List Bytes
json_keys = codes "level" ∷ codes "msg" ∷ codes "ts" ∷ codes "message" ∷ codes "@timestamp" ∷ []

module _ (e : Engine) (patterns : Patterns (Library.Float (Engine.lib e))) where
  open e use {lib, json}

  unfoldable pub is_json_obj : Bytes → Bool
  unfolding starts_object has_any
  is_json_obj b =
      if starts_object b
      then elim (json.raw_object b) [ none ↦ false | some v ↦ has_any json_keys v ]
      else false

  -- The row that a line is published as.
  unfoldable pub row_input : ℕ → Bytes → AppendInput lib.Float
  unfolding is_json_obj strip_ansi parse_text_line
  row_input source_id b =
      if is_json_obj b
      then record {
        source_id = source_id;
        ts = lib.zero_float;
        json = some b;
        text = [];
        ansi_blob = [];
        level = [];
      }
      else (let (ansi, plain) = strip_ansi b in
          let (ts, lvl) = parse_text_line lib json patterns plain in
          record {
            source_id = source_id;
            ts = ts;
            json = none;
            text = plain;
            ansi_blob = ansi;
            level = lvl;
          })

  unfoldable pub process_line :
      lib.Float → ℕ → Bytes → Ring e → Registry → Option (ℕ × Ring e × Registry)
  unfolding row_input publish_row
  process_line now source_id b s r = publish_row e now (row_input source_id b) s r

  -- A line of text is published with its original bytes, without its escape sequences.
  row_input_lem :
      (source_id : ℕ) (b plain : Bytes)
      → is_json_obj b ≡ false
      → stripped b ≡ plain
      → (parse_text_line lib json patterns plain).1 ≡ []
      → row_input source_id b
        ≡ line_input e source_id (parse_text_line lib json patterns plain).0 plain b
  unfolding row_input strip_ansi
  row_input_lem source_id b plain text same no_level =
      let made : Bytes → Bytes → AppendInput lib.Float = λ t lvl. record {
        source_id = source_id;
        ts = (parse_text_line lib json patterns t).0;
        json = none;
        text = t;
        ansi_blob = b;
        level = lvl;
      } in
      if_cases (λ i. i ≡ line_input e source_id (parse_text_line lib json patterns plain).0 plain b)
        (is_json_obj b) _ _ (λ h. absurd (true-ne-false (sym h ∙ text)))
        (λ _.
          ap (λ t. made t (parse_text_line lib json patterns t).1) same ∙ ap (made plain) no_level)

  -- A line of text that shows no level and is not empty without its escape sequences, on a ring that takes
  -- it: it is published at the head, and HotString of that row and `msg` is the line without its escape
  -- sequences.
  pub hot_string-process_line :
      (now : lib.Float) (source_id x : ℕ) (b line : Bytes) (s : Ring e) (r : Registry)
      → is_json_obj b ≡ false
      → stripped b ≡ x ∷ line
      → (parse_text_line lib json patterns (x ∷ line)).1 ≡ []
      → TakesLine e s (x ∷ line)
      → (s' : Ring e) × (process_line now source_id b s r ≡ some (s.head, s', publish s.head r))
        × (hot_string e s.head (codes "msg") s' ≡ some (x ∷ line))
        × (source_id_of_seq e s.head s' ≡ some source_id)
  unfolding process_line publish_row
  hot_string-process_line now source_id x b line s r text same no_level h =
      let ts = (parse_text_line lib json patterns (x ∷ line)).0 in
      let (s', appended, read, from, _) = hot_string-append e source_id now ts x line b s h in
      (
        s',
        ap (λ i. append e now i s >>= λ a. some (a.0, a.1, publish a.0 r))
              (row_input_lem source_id b (x ∷ line) text same no_level)
            ∙ ap (λ o. o >>= λ a. some (a.0, a.1, publish a.0 r)) appended,
        read,
        from,
      )
