-- ===== src/Source/Levels.antt =====
-- internal/source/levels.go: the canonical level of a row. encoding/json and the truncation of floats
-- are parameters; a JSON object of raw values is an association list.
pub mod Canonical
use loggi.Prelude.{
  ℕ, Bool, true, false, not, Option, none, some, List, [], ◌∷◌, ◌++◌, ◌==◌, ltb, leb, lookup,
  nat_eq, is_empty, if◌then◌else◌, ◌&&◌, ◌||◌,
}
use loggi.Text.{Bytes, codes, str_eq, contains, bytes_eq}
use loggi.Filter.Reader.{Library, Json, Items, Fields, null, bool, num, str, arr, obj, end, field}
use loggi.Filter.Scalar.{lookup_field}

pub data ℤ : Type 0 where
  pos negsuc : ℕ → ℤ

abbrev pub RawObject : Type 0
RawObject = List (Bytes × Bytes)

-- json.Unmarshal into a map of raw values, a string, a map of any values and a float; `none` is an
-- error. `trunc` is the conversion of a float to an int.
pub record Decoder (Float : Type 0) : Type 0 where
  pub raw_object : Bytes → Option RawObject
  pub text : Bytes → Option Bytes
  pub any_object : Bytes → Option (Fields Float)
  pub float : Bytes → Option Float
  pub trunc : Float → ℤ

unfoldable pub string_levels : List (Bytes × Bytes)
string_levels =
    (codes "trace", codes "trace")
    ∷ (codes "verbose", codes "trace")
    ∷ (codes "finest", codes "trace")
    ∷ (codes "finer", codes "trace")
    ∷ (codes "t", codes "trace")
    ∷ (codes "debug", codes "debug")
    ∷ (codes "debg", codes "debug")
    ∷ (codes "fine", codes "debug")
    ∷ (codes "d", codes "debug")
    ∷ (codes "info", codes "info")
    ∷ (codes "information", codes "info")
    ∷ (codes "informational", codes "info")
    ∷ (codes "i", codes "info")
    ∷ (codes "notice", codes "notice")
    ∷ (codes "warn", codes "warn")
    ∷ (codes "warning", codes "warn")
    ∷ (codes "w", codes "warn")
    ∷ (codes "error", codes "error")
    ∷ (codes "err", codes "error")
    ∷ (codes "erro", codes "error")
    ∷ (codes "severe", codes "error")
    ∷ (codes "e", codes "error")
    ∷ (codes "fatal", codes "fatal")
    ∷ (codes "critical", codes "fatal")
    ∷ (codes "crit", codes "fatal")
    ∷ (codes "panic", codes "fatal")
    ∷ (codes "alert", codes "fatal")
    ∷ (codes "emerg", codes "fatal")
    ∷ (codes "emergency", codes "fatal")
    ∷ (codes "f", codes "fatal")
    ∷ []

-- AliasMap["level"] of internal/source/aliases.go
abbrev pub level_aliases : List Bytes
level_aliases =
    codes "level"
    ∷ codes "level_name"
    ∷ codes "log.level"
    ∷ codes "monolog_level"
    ∷ codes "level_value"
    ∷ codes "level_index"
    ∷ codes "severity"
    ∷ codes "level.name"
    ∷ codes "record.level.name"
    ∷ codes "record.level"
    ∷ []

-- The value of a map at a key, the empty text for a missing one.
unfoldable pub or_empty : Option Bytes → Bytes
or_empty none = []
or_empty (some v) = v

unfoldable pub bunyan_level : ℕ → Bytes
bunyan_level n =
    if ltb n 20
    then codes "trace"
    else if ltb n 30
    then codes "debug"
    else if ltb n 40
    then codes "info"
    else if ltb n 50
    then codes "warn"
    else if ltb n 60
    then codes "error"
    else codes "fatal"

unfoldable pub monolog_level : ℕ → Bytes
monolog_level n =
    if ltb n 200
    then codes "debug"
    else if ltb n 250
    then codes "info"
    else if ltb n 300
    then codes "notice"
    else if ltb n 400
    then codes "warn"
    else if ltb n 500
    then codes "error"
    else codes "fatal"

unfoldable pub logback_level : ℕ → Bytes
logback_level n =
    if ltb n 10000
    then codes "trace"
    else if ltb n 20000
    then codes "debug"
    else if ltb n 30000
    then codes "info"
    else if ltb n 40000
    then codes "warn"
    else codes "error"

unfoldable pub syslog_level : ℕ → Bytes
syslog_level n =
    if ltb n 3
    then codes "fatal"
    else if n == 3
    then codes "error"
    else if n == 4
    then codes "warn"
    else if n == 5
    then codes "notice"
    else if n == 6
    then codes "info"
    else if n == 7
    then codes "debug"
    else []

-- normalizeNumericLevel, behind the truncation.
unfoldable pub int_level : ℤ → Bytes
unfolding logback_level monolog_level bunyan_level syslog_level
int_level (pos n) =
    if leb 1000 n
    then logback_level n
    else if leb 100 n
    then monolog_level n
    else if leb 10 n
    then bunyan_level n
    else if leb n 7
    then syslog_level n
    else []
int_level (negsuc n) = []

-- strings.Split at the dots.
unfoldable pub split_dots : Bytes → Bytes × List Bytes
split_dots [] = ([], [])
split_dots (c ∷ s) =
    let (first, rest) = split_dots s in if c == b'.' then ([], first ∷ rest) else (c ∷ first, rest)

module _ (lib : Library) (json : Decoder (Library.Float lib)) where
  open lib use {Float, to_lower, trim_space}
  open json use {raw_object, text, any_object, float, trunc}

  unfoldable pub normalize_level : Bytes → Bytes
  unfolding or_empty
  normalize_level raw =
      let s = to_lower (trim_space raw) in
      if is_empty s then [] else or_empty (lookup s string_levels)

  unfoldable pub normalize_numeric_level : Float → Bytes
  unfolding int_level
  normalize_numeric_level f = int_level (trunc f)

  -- The name of an object that has a text there; otherwise `rest`.
  unfoldable pub name_or : Option (Json Float) → Bytes → Bytes
  unfolding normalize_level
  name_or (some (str name)) rest = normalize_level name
  name_or _ rest = rest

  -- NormalizeLevelAny; the decoder gives no int, int64 or json.Number.
  unfoldable mutual
    unfolding name_or normalize_level normalize_numeric_level lookup_field

    pub normalize_level_any : Json Float → Bytes
    normalize_level_any (str s) = normalize_level s
    normalize_level_any (num f) = normalize_numeric_level f
    normalize_level_any (obj m) = name_or (lookup_field (codes "name") m) (level_no m)
    normalize_level_any _ = []

    -- `x["no"]`
    pub level_no : Fields Float → Bytes
    level_no end = []
    level_no (field k v m) = if str_eq k (codes "no") then normalize_level_any v else level_no m

  unfoldable pub quoted_level : Option Bytes → Bytes
  unfolding normalize_level
  quoted_level none = []
  quoted_level (some s) = normalize_level s

  unfoldable pub object_level : Option (Fields Float) → Bytes
  object_level none = []
  object_level (some m) = normalize_level_any (obj m)

  unfoldable pub number_level : Option Float → Bytes
  unfolding normalize_numeric_level
  number_level none = []
  number_level (some f) = normalize_numeric_level f

  unfoldable pub normalize_raw : Bytes → Bytes
  unfolding quoted_level object_level number_level
  normalize_raw [] = []
  normalize_raw (c ∷ raw) =
      if c == b'"'
      then quoted_level (text (c ∷ raw))
      else if c == b'{'
      then object_level (any_object (c ∷ raw))
      else number_level (float (c ∷ raw))

  -- The segments behind the first one.
  unfoldable pub walk_raw : List Bytes → Bytes → Option Bytes
  walk_raw [] cur = some cur
  walk_raw (seg ∷ segs) cur = elim (raw_object cur) [
    | none ↦ none
    | some m ↦ elim (lookup seg m) [ none ↦ none | some next ↦ walk_raw segs next ]
  ]

  unfoldable pub lookup_raw : RawObject → Bytes → Option Bytes
  unfolding split_dots walk_raw contains
  lookup_raw m path = elim (lookup path m) [
    | some raw ↦ some raw
    | none ↦
        if not (contains path (codes "."))
        then none
        else (let (first, segs) = split_dots path in
            elim (lookup first m) [ none ↦ none | some cur ↦ walk_raw segs cur ])
  ]

  -- What a member adds to the loop of ExtractLevel; the empty text goes on to the next one.
  unfoldable pub member_level : Option Bytes → Bytes
  unfolding normalize_raw
  member_level none = []
  member_level (some raw) = normalize_raw raw

  unfoldable pub first_level : List Bytes → RawObject → Bytes
  unfolding lookup_raw member_level
  first_level [] m = []
  first_level (member ∷ members) m =
      let rest = first_level members m in
      let v = member_level (lookup_raw m member) in if is_empty v then rest else v

  unfoldable pub extract_level : RawObject → Bytes
  unfolding first_level
  extract_level m = first_level level_aliases m
