-- ===== src/Tests/Requests.antt =====
-- internal/server and the lines of internal/source at concrete inputs.
use loggi.Prelude.{
  get_elem?, ℕ, ◌+◌, ◌≡◌, refl, none, some, [], ◌∷◌, ◌++◌, leb, length, filter, arith,
}
use loggi.Filter.Reader.{Reader}
use loggi.Filter.Eval.{compile, wrap}
use loggi.Server.Ansi.{esc, strip_ansi}
use loggi.Server.Ansi.Stripped.{stripped, strip_ansi_lem}
use loggi.Server.Histogram.{Cell, count_rows}
use loggi.Server.Histogram.Words.{Group, count_of}
use loggi.Server.Histogram.Counts.{belongs, count_of-count_rows}
use loggi.Server.Lines.{is_json_obj, process_line, hot_string-process_line}
use loggi.Server.Session.{last_of, or_default, query_backlog, history_page}
use loggi.Server.Session.Pages.{accepted, query_backlog_lem, history_page_lem}
use loggi.Source.TextLine.{Patterns, parse_text_line}
use loggi.Tests.Filters.{three_rows, info_up, info_up-IndexAgrees}
use loggi.Tests.Library.{go, flags}
use loggi.Store.Bitmap.Ascending.{range}
use loggi.Store.Ring.{Ring}
use loggi.Store.Ring.Read.{hot_string, source_id_of_seq}
use loggi.Store.Subscribers.{publish}
use loggi.Tests.Rows.{engine, small_ring, one_reader, small_ring-TakesLine}
use loggi.Text.{Bytes, codes}

query_backlog_lem_example :
    query_backlog go flags three_rows (some info_up) 0 3 1
    ≡ last_of 1 (accepted go flags three_rows info_up 0 3)
query_backlog_lem_example =
    query_backlog_lem go flags three_rows info_up 0 3 1 (omega arith) info_up-IndexAgrees

two_accepted : accepted go flags three_rows info_up 0 3 ≡ 0 ∷ 2 ∷ []
unfolding wrap compile
two_accepted = refl

history_page_lem_example :
    history_page go flags three_rows (some info_up) 0 3 2 1
    ≡ record { seqs = last_of (or_default 200 1) (0 ∷ []); end = leb 1 (or_default 200 1) }
history_page_lem_example =
    history_page_lem go flags three_rows info_up 0 3 1 2 (0 ∷ []) [] (omega arith)
      info_up-IndexAgrees two_accepted

-- `E: ESC[31mred`
strip_ansi_lem_example :
    stripped (codes "E:" ++ (esc ∷ b'[' ∷ (codes "31" ++ (b'm' ∷ codes "red"))))
    ≡ codes "E:" ++ stripped (codes "red")
strip_ansi_lem_example =
    strip_ansi_lem (codes "E:") (codes "31") (codes "red") b'm'
      ((λ e. omega (arith, e)), ((λ e. omega (arith, e)), tt)) (refl, (refl, tt)) refl

-- Expressions that take the whole text for a word.
abbrev whole : Patterns ℕ
whole = record {
  full_ts = λ s. [];
  time_only = λ s. [];
  bracketed = λ s. [];
  words = λ s. s ∷ [];
  parse_zoned = λ l s. none;
  parse_local = λ l s. none;
  today_at = λ s. none;
}

abbrev red_up : Bytes
red_up = esc ∷ codes "[31mup"

hot_string-process_line_example :
    (s' : Ring engine) × (process_line engine whole 7 3 red_up small_ring one_reader
      ≡ some (small_ring.head, s', publish small_ring.head one_reader))
    × (hot_string engine small_ring.head (codes "msg") s' ≡ some (codes "up"))
    × (source_id_of_seq engine small_ring.head s' ≡ some 3)
unfolding is_json_obj strip_ansi parse_text_line
hot_string-process_line_example =
    hot_string-process_line engine whole 7 3 b'u' red_up (codes "p") small_ring one_reader refl refl
      refl small_ring-TakesLine

abbrev timed_rows : Reader go flags
timed_rows = record three_rows { hot_f64 = λ seq name. some seq }

abbrev no_rows : Cell
no_rows = record { error = 0; warn = 0; info = 0; debug = 0; other = 0 }

-- Three rows and two buckets of a second.
count_of-count_rows_example :
    (d : Cell) × (get_elem?
        (count_rows go flags 0 3 (λ t. some t) timed_rows none 3 0 (no_rows ∷ no_rows ∷ []))
        1
      ≡ some d)
    × ((g : Group)
        → count_of g d
          ≡ count_of g no_rows
            + length (filter (belongs go flags 0 3 (λ t. some t) timed_rows none 1 g) (range 0 3)))
count_of-count_rows_example =
    count_of-count_rows go flags 0 3 (λ t. some t) timed_rows none 3 0 1 (no_rows ∷ no_rows ∷ [])
      no_rows refl (omega arith)
