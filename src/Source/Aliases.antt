-- ===== src/Source/Aliases.antt =====
-- internal/source/aliases.go: the names that languages give to the same field. The iteration order of
-- the Go map is the order of the groups, an argument of what ranges over it.
pub mod Members
use loggi.Prelude.{Bool, true, false, Option, none, some, List, [], ◌∷◌, ◌||◌, lookup, insert}
use loggi.Text.{Bytes, codes, str_eq, bytes_eq}
use loggi.Source.Levels.{level_aliases, or_empty}

abbrev pub Groups : Type 0
Groups = List (Bytes × List Bytes)

unfoldable pub alias_map : Groups
alias_map =
    (
      codes "ts",
      codes "ts"
          ∷ codes "timestamp"
          ∷ codes "@timestamp"
          ∷ codes "time"
          ∷ codes "datetime"
          ∷ codes "fields.timestamp"
          ∷ codes "record.time.timestamp"
          ∷ [],
    )
    ∷ (
      codes "msg",
      codes "msg"
          ∷ codes "message"
          ∷ codes "event"
          ∷ codes "fields.message"
          ∷ codes "record.message"
          ∷ [],
    )
    ∷ (
      codes "caller",
      codes "caller"
          ∷ codes "callerFunc"
          ∷ codes "logger"
          ∷ codes "logger_name"
          ∷ codes "log.logger"
          ∷ codes "target"
          ∷ codes "module_path"
          ∷ codes "module"
          ∷ codes "channel"
          ∷ codes "progname"
          ∷ codes "record.function"
          ∷ codes "record.file.name"
          ∷ [],
    )
    ∷ (
      codes "service",
      codes "service"
          ∷ codes "application"
          ∷ codes "span.service"
          ∷ codes "mdc.service"
          ∷ codes "record.extra.service"
          ∷ [],
    )
    ∷ (codes "level", level_aliases)
    ∷ []

unfoldable pub priorities : List Bytes
priorities = codes "ts" ∷ codes "level" ∷ codes "msg" ∷ codes "service" ∷ codes "caller" ∷ []

-- slices.Contains
unfoldable pub has : Bytes → List Bytes → Bool
has s [] = false
has s (t ∷ ts) = str_eq t s || has s ts

unfoldable pub is_priority : Bytes → Bool
unfolding has priorities
is_priority logical = has logical priorities

-- `m[raw] = logical` for the members of one group
unfoldable pub add_members : Bytes → List Bytes → List (Bytes × Bytes) → List (Bytes × Bytes)
add_members logical [] m = m
add_members logical (raw ∷ raws) m = add_members logical raws (insert raw logical m)

-- The map that rawToLogical is initialised with, from the map `m`.
unfoldable pub invert : Groups → List (Bytes × Bytes) → List (Bytes × Bytes)
unfolding add_members
invert [] m = m
invert ((logical, members) ∷ groups) m = invert groups (add_members logical members m)

unfoldable pub resolve : Groups → Bytes → Bytes
unfolding invert or_empty
resolve groups raw = or_empty (lookup raw (invert groups []))

-- The empty list stands for nil.
unfoldable pub list_or_nil : Option (List Bytes) → List Bytes
list_or_nil none = []
list_or_nil (some l) = l

unfoldable pub members : Bytes → List Bytes
unfolding alias_map list_or_nil
members logical = list_or_nil (lookup logical alias_map)
