-- ===== src/Server/Hub.antt =====
-- internal/server/server.go: the sources that a server runs (attach, find, add, remove), each call as one
-- step. What a source reads, its own close and the idle timer are not here; the user's configuration is a
-- list of preferences, `none` when it cannot be loaded. The iteration order of `s.srcs` is that of the
-- list; `docker` says whether the client of a container is made.
pub mod Profiles
pub mod Health
pub mod Registry
pub mod Steps
pub mod Calls
pub mod Ticks
pub mod Run
pub mod Overlay
pub mod Switches
pub mod Modes
use loggi.Prelude.{
  ℕ, suc, ◌+◌, Bool, true, false, ◌&&◌, not, Option, none, some, List, [], ◌∷◌, ◌++◌, if◌then◌else◌,
  lookup, insert, delete, nat_eq, is_empty,
}
use loggi.Text.{Bytes, codes, str_eq}
use loggi.Detect.Sampler.{Sampler, new}
use loggi.Detect.Detector.{SourcePref, lookup_source_pref}

pub data State : Type 0 where
  running closed failed : State

pub data Mode : Type 0 where
  json_mode text_mode : Mode

-- `detector` is `none` for nil; inside, `none` is a detector that has closed.
pub record SourceRec : Type 0 where
  pub kind : Bytes
  pub name : Bytes
  pub owner : Bytes
  pub mode : Option Mode
  pub state : State
  pub line_count : ℕ
  pub last_line_ns : ℕ
  pub detector : Option (Option Sampler)
  pub pinned_columns : List Bytes

-- `path` is the text under Args["path"], empty for none.
pub record SourceRef : Type 0 where
  pub kind : Bytes
  pub name : Bytes
  pub path : Bytes

pub record SourceEvent : Type 0 where
  pub source_id : ℕ
  pub kind : Bytes
  pub name : Bytes
  pub state : State
  pub mode : Option Mode
  pub columns : List Bytes

abbrev pub Sources : Type 0
Sources = List (ℕ × SourceRec)

-- `generated` is the last id of srcGen; `events` are the broadcasts, in order.
pub record Hub : Type 0 where
  pub srcs : Sources
  pub generated : ℕ
  pub profiles : List (Bytes × List SourceRef)
  pub active_profile : Bytes
  pub active_profile_sources : List SourceRef
  pub prefs : Option (List SourcePref)
  pub events : List SourceEvent

pub record Options : Type 0 where
  pub column_detect_limit : ℕ
  pub column_detect_timeout : ℕ
  pub docker : Bytes → Bool

abbrev pub kind_file : Bytes
kind_file = codes "file"

abbrev pub kind_stdin : Bytes
kind_stdin = codes "stdin"

abbrev pub kind_docker : Bytes
kind_docker = codes "docker"

abbrev pub is_running : State → Bool
is_running running = true
is_running closed = false
is_running failed = false

abbrev pub is_target : Bytes → Bytes → SourceRec → Bool
is_target kind ident r = str_eq r.kind kind && str_eq r.name ident

unfoldable pub find_open_source : Bytes → Bytes → Sources → Option ℕ
find_open_source kind ident [] = none
find_open_source kind ident ((id, r) ∷ srcs) =
    if is_running r.state && is_target kind ident r
    then some id
    else find_open_source kind ident srcs

unfoldable pub find_open_source_with_owner : Bytes → Bytes → Bytes → Sources → Option ℕ
find_open_source_with_owner kind ident owner [] = none
find_open_source_with_owner kind ident owner ((id, r) ∷ srcs) =
    if is_running r.state && str_eq r.owner owner && is_target kind ident r
    then some id
    else find_open_source_with_owner kind ident owner srcs

unfoldable pub broadcast_source_event : SourceEvent → Hub → Hub
broadcast_source_event ev h = record h { events = h.events ++ ev ∷ [] }

unfoldable pub state_event : ℕ → State → Option SourceRec → SourceEvent
state_event id state none = record {
  source_id = id;
  kind = [];
  name = [];
  state = state;
  mode = none;
  columns = [];
}
state_event id state (some r) = record {
  source_id = id;
  kind = r.kind;
  name = r.name;
  state = state;
  mode = r.mode;
  columns = [];
}

unfoldable pub broadcast_source_state : ℕ → State → Hub → Hub
unfolding broadcast_source_event state_event
broadcast_source_state id state h =
    broadcast_source_event (state_event id state (lookup id h.srcs)) h

unfoldable pub load_pref : Bytes → Bytes → Option (List SourcePref) → Option SourcePref
unfolding lookup_source_pref
load_pref kind name none = none
load_pref kind name (some prefs) = lookup_source_pref kind name prefs

unfoldable pub remove_source : ℕ → Hub → Option Hub
remove_source id h = elim (lookup id h.srcs) [
  | none ↦ none
  | some r ↦ some (record h { srcs = delete id h.srcs })
]

-- The record that attach makes.
abbrev pub new_rec : Bytes → Bytes → Bytes → SourceRec
new_rec kind name owner = record {
  kind = kind;
  name = name;
  owner = owner;
  mode = none;
  state = running;
  line_count = 0;
  last_line_ns = 0;
  detector = none;
  pinned_columns = [];
}

module _ (opts : Options) (now : ℕ) where
  open opts use {column_detect_limit, column_detect_timeout, docker}

  -- A source whose preference is locked gets its columns, another a detector.
  unfoldable pub with_columns : Option SourcePref → SourceRec → SourceRec
  unfolding new
  with_columns none r = record r {
    detector = some (some (new now column_detect_limit column_detect_timeout));
  }
  with_columns (some pref) r =
      if pref.locked
      then record r { pinned_columns = pref.columns }
      else record r { detector = some (some (new now column_detect_limit column_detect_timeout)) }

  unfoldable pub attach : ℕ → Bytes → Bytes → Bytes → Hub → Hub
  unfolding with_columns load_pref
  attach id kind name owner h =
      let pref = load_pref kind name h.prefs in
      record h { srcs = insert id (with_columns pref (new_rec kind name owner)) h.srcs }

  -- The server after the call, and the id of the source; `none` is an error.
  unfoldable pub add_file_source : Bytes → Bytes → Hub → Hub × Option ℕ
  unfolding find_open_source attach
  add_file_source path owner h = elim (find_open_source kind_file path h.srcs) [
    | some id ↦ (h, some id)
    | none ↦
        let id = suc h.generated in
        (attach id kind_file path owner (record h { generated = id }), some id)
  ]

  unfoldable pub add_stdin_source : Bytes → Hub → Hub × Option ℕ
  unfolding attach
  add_stdin_source name h =
      let id = suc h.generated in
      (attach id kind_stdin name [] (record h { generated = id }), some id)

  unfoldable pub add_docker_source : Bytes → Bytes → Hub → Hub × Option ℕ
  unfolding find_open_source attach
  add_docker_source name owner h = elim (find_open_source kind_docker name h.srcs) [
    | some id ↦ (h, some id)
    | none ↦
        let id = suc h.generated in
        let h' : Hub = record h { generated = id } in
        if docker name then (attach id kind_docker name owner h', some id) else (h', none)
  ]

  unfoldable pub start_source_ref : SourceRef → Bytes → Hub → Hub × Option ℕ
  unfolding add_file_source add_docker_source
  start_source_ref ref owner h =
      if str_eq ref.kind kind_file
      then (let path = if is_empty ref.path then ref.name else ref.path in
          if is_empty path then (h, none) else add_file_source path owner h)
      else if str_eq ref.kind kind_docker
      then if is_empty ref.name then (h, none) else add_docker_source ref.name owner h
      else (h, none)
