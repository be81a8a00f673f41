-- ===== src/Tests/Rows.antt =====
-- Columns and the ring of internal/store at concrete inputs.
use loggi.Prelude.{
  ℕ, zero, suc, ◌≡◌, ◌≢◌, refl, ap, true, false, none, some, [], ◌∷◌, ◌++◌, arith, get_elem?,
  lookup, list_eq, nat_eq,
}
use loggi.Store.Blob.{new_blob_slab}
use loggi.Store.Blob.Payloads.{new_blob_slab-Reserved}
use loggi.Store.Column.{Column, DictSlot, dead_entry, new_column, get_string}
use loggi.Store.Column.Write.{set_string}
use loggi.Store.Column.Values.{Shows}
use loggi.Store.Column.Entries.{IsSound}
use loggi.Store.Column.Places.{live_of}
use loggi.Store.Column.Rows.{HasRoom, get_string-set_string}
use loggi.Store.Intern.{Interner, new_interner}
use loggi.Store.Intern.Valid.{Holds, IsValid, new_interner-IsValid}
use loggi.Store.Ring.{Engine, Encoder, Ring, new_ring, close}
use loggi.Store.Ring.Ingest.{AppendInput, append}
use loggi.Store.Ring.Read.{hot_string, source_id_of_seq, publish_row}
use loggi.Store.Ring.Window.{IsWindow, append-IsWindow}
use loggi.Store.Ring.Blank.{IsBlank}
use loggi.Store.Ring.Lines.{line_input, TakesLine, hot_string-append}
use loggi.Store.Ring.Broadcast.{publish_row_lem, publish_row_closed}
use loggi.Store.Subscribers.{Subscriber, Registry}
use loggi.Store.Types.{col_dict, col_f64}
use loggi.Tests.Library.{flags, go, first_byte}
use loggi.Tests.Sources.{plain}
use loggi.Tests.Stores.{new_interner-small}
use loggi.Text.{Bytes, codes, str_eq}

abbrev marshal : Encoder ℕ
marshal = record {
  encode_text = λ s. b'"' ∷ s ++ b'"' ∷ [];
  encode_float = λ n. n ∷ [];
  encode_object = λ fields. [];
}

abbrev pub engine : Engine
engine = record { lib = go; roaring = flags; hash = first_byte; json = plain; encoder = marshal }

abbrev empty_column : Column ℕ 0 flags
empty_column = new_column ℕ 0 flags col_dict 2

empty_column-IsSound : IsSound ℕ 0 flags empty_column new_interner
unfolding new_column
empty_column-IsSound = record { kind = refl; entries = none_live; spare = tt; distinct = tt }
  where
    none_live :
        (id : ℕ) (sl : DictSlot)
        → get_elem? (dead_entry ∷ []) id ≡ some sl
        → sl.live ≡ true
        → (t : Bytes) × (r : ℕ) × Holds new_interner sl.intern_id t r
    none_live zero sl e live = absurd (cc (ap live_of e, live))
    none_live (suc id) sl e live = cc

empty_column-HasRoom : HasRoom ℕ 0 flags first_byte empty_column new_interner 0 (codes "up")
unfolding new_column new_interner
empty_column-HasRoom = record {
  fits = record { ids = omega arith; chunks = omega arith; bytes = omega arith };
  refs_small = new_interner-small;
  dict_small = omega arith;
  room = omega arith;
  max_small = omega arith;
  old = 0;
  row = refl;
  is_empty = refl;
}

get_string-set_string_example :
    (id : ℕ) × (c' : Column ℕ 0 flags) × (st' : Interner) × (set_string ℕ 0 flags first_byte 0 9
        (codes "up")
        empty_column
        new_interner
      ≡ some (id, (c', st')))
    × (get_string ℕ 0 flags 0 c' st' ≡ some (codes "up"))
    × ((j : ℕ) (u : Bytes)
        → j ≢ 0
        → Shows ℕ 0 flags empty_column new_interner j u
        → get_string ℕ 0 flags j c' st' ≡ some u)
    × IsSound ℕ 0 flags c' st'
    × IsValid first_byte st'
get_string-set_string_example =
    get_string-set_string ℕ 0 flags first_byte empty_column new_interner 0 9 b'u' (codes "p")
      empty_column-IsSound (new_interner-IsValid first_byte) empty_column-HasRoom

abbrev pub small_ring : Ring engine
small_ring = new_ring engine 2

small_ring-IsBlank : IsBlank engine 0 small_ring
unfolding new_ring new_column
small_ring-IsBlank = record {
  columns = (refl, (refl, (refl, (refl, (refl, (refl, (refl, (refl, (refl, tt)))))))));
  tail_kv = refl;
  ansi = refl;
  old_source = 0;
  source_id = refl;
  old_mode = false;
  text_mode = refl;
}

pub small_ring-TakesLine : TakesLine engine small_ring (codes "up")
unfolding new_ring new_column new_interner new_blob_slab str_eq
small_ring-TakesLine = record {
  running = refl;
  in_window = refl;
  small = omega arith;
  room = omega arith;
  is_blank = small_ring-IsBlank;
  ts_col = new_column ℕ 0 flags col_f64 2;
  ts_found = refl;
  old_ts = 0;
  ts_cell = refl;
  ts_empty = refl;
  msg_col = empty_column;
  msg_found = refl;
  msg_sound = empty_column-IsSound;
  msg_room = empty_column-HasRoom;
  texts = new_interner-IsValid first_byte;
  payloads = new_blob_slab-Reserved;
  payloads_small = omega arith;
}

hot_string-append_example :
    (s' : Ring engine) × (append engine 7
        (line_input engine 3 0 (codes "up") (codes "up\t"))
        small_ring
      ≡ some (0, s'))
    × (hot_string engine 0 (codes "msg") s' ≡ some (codes "up"))
    × (source_id_of_seq engine 0 s' ≡ some 3)
    × IsWindow engine s'
unfolding new_ring
hot_string-append_example =
    hot_string-append engine 3 7 0 b'u' (codes "p") (codes "up\t") small_ring small_ring-TakesLine

abbrev line : AppendInput ℕ
line = line_input engine 3 0 (codes "up") (codes "up\t")

-- The ring after a line.
abbrev after_line : Ring engine
after_line =
    (hot_string-append engine 3 7 0 b'u' (codes "p") (codes "up\t") small_ring
      small_ring-TakesLine).0

append-after_line : append engine 7 line small_ring ≡ some (small_ring.head, after_line)
append-after_line =
    (hot_string-append engine 3 7 0 b'u' (codes "p") (codes "up\t") small_ring
      small_ring-TakesLine).1

append-IsWindow_example :
    (small_ring.head ≡ small_ring.head)
    × (after_line.head ≡ suc small_ring.head)
    × (after_line.cap ≡ small_ring.cap)
    × IsWindow engine after_line
append-IsWindow_example =
    append-IsWindow engine 7 line small_ring after_line small_ring.head
      small_ring-TakesLine.in_window small_ring-TakesLine.small small_ring-TakesLine.running
      append-after_line

abbrev reader : Subscriber
reader = record {
  id = 1;
  cursor = 0;
  filter = none;
  paused = false;
  dead = false;
  out = [];
  dropped = 0;
}

abbrev pub one_reader : Registry
one_reader = record { subs = (1, reader) ∷ []; sub_id = 1 }

publish_row_lem_example :
    (r' : Registry) × (publish_row engine 7 line small_ring one_reader
      ≡ some (small_ring.head, after_line, r'))
    × (sub' : Subscriber) × (lookup 1 r'.subs ≡ some sub')
    × (sub'.cursor ≡ after_line.head)
unfolding new_ring
publish_row_lem_example =
    publish_row_lem engine 7 line small_ring after_line one_reader small_ring.head 1 reader
      small_ring-TakesLine.in_window small_ring-TakesLine.small small_ring-TakesLine.running
      append-after_line refl refl refl (omega arith)

publish_row_closed_example :
    (r' : Registry) × (publish_row engine 7 line (close engine small_ring) one_reader
      ≡ some (0, close engine small_ring, r'))
    × (sub' : Subscriber) × (lookup 1 r'.subs ≡ some sub')
    × (sub'.out ≡ 0 ∷ [])
publish_row_closed_example =
    publish_row_closed engine 7 line small_ring one_reader 1 reader refl refl refl refl
      (omega arith)
