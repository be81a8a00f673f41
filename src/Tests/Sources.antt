-- ===== src/Tests/Sources.antt =====
-- internal/source at concrete inputs.
use loggi.Prelude.{ℕ, none, some, [], ◌∷◌, if◌then◌else◌}
use loggi.Text.{codes, str_eq, trim}
use loggi.Filter.Reader.{Fields}
use loggi.Source.Levels.{pos, Decoder, RawObject, extract_level}
use loggi.Source.Levels.Canonical.{IsLevel, extract_level-IsLevel}
use loggi.Tests.Library.{go, decimal}

abbrev pub plain : Decoder ℕ
plain = record {
  raw_object = λ s. none;
  text = λ s. some (trim b'"' s);
  any_object = λ s. some Fields.end;
  float = λ s. if str_eq s (codes "null") then some 0 else some (decimal s);
  trunc = pos;
}

-- A row of Monolog.
abbrev monolog_row : RawObject
monolog_row = (codes "level", codes "250") ∷ (codes "level_name", codes "\"NOTICE\"") ∷ []

abbrev null_row : RawObject
null_row = (codes "msg", codes "\"up\"") ∷ (codes "level", codes "null") ∷ []

extract_level-IsLevel_example : IsLevel (extract_level go plain monolog_row)
extract_level-IsLevel_example = extract_level-IsLevel go plain monolog_row
