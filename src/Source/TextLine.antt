-- ===== src/Source/TextLine.antt =====
-- internal/source/text_parse.go: the time and the level of a line of text. Regular expressions and the
-- parsing of times (packages regexp and time) are parameters.
use loggi.Prelude.{
  ℕ, Bool, true, false, ◌&&◌, Option, none, some, List, [], ◌∷◌, ltb, leb, if◌then◌else◌, if_cases,
  length, take, is_empty,
}
use loggi.Filter.Reader.{Library}
use loggi.Source.Levels.{Decoder, normalize_level}
use loggi.Source.Levels.Canonical.{IsLevel, empty-IsLevel, normalize_level-IsLevel}
use loggi.Text.{Bytes, codes}

-- The matches of the four expressions, the empty text for none, and the readers of times, which give
-- seconds: of a layout with a zone, of a layout in the local zone, and of a time of the current day.
pub record Patterns (Float : Type 0) : Type 0 where
  pub full_ts : Bytes → Bytes
  pub time_only : Bytes → Bytes
  pub bracketed : Bytes → List Bytes
  pub words : Bytes → List Bytes
  pub parse_zoned : Bytes → Bytes → Option Float
  pub parse_local : Bytes → Bytes → Option Float
  pub today_at : Bytes → Option Float

abbrev pub text_scan_limit : ℕ
text_scan_limit = 96

-- `head[:textScanLimit]`, or all of it
abbrev pub head_of : Bytes → Bytes
head_of line = if ltb text_scan_limit (length line) then take text_scan_limit line else line

abbrev pub full_text_layouts : List (Bytes × Bool)
full_text_layouts =
    (codes "2006-01-02T15:04:05Z07:00", true)
    ∷ (codes "2006-01-02T15:04:05Z0700", true)
    ∷ (codes "2006-01-02T15:04:05", false)
    ∷ (codes "2006-01-02 15:04:05Z07:00", true)
    ∷ (codes "2006-01-02 15:04:05Z0700", true)
    ∷ (codes "2006-01-02 15:04:05", false)
    ∷ []

unfoldable pub is_upper_alpha : Bytes → Bool
is_upper_alpha [] = true
is_upper_alpha (c ∷ s) = leb b'A' c && leb c b'Z' && is_upper_alpha s

module _ (lib : Library) (json : Decoder (Library.Float lib))
    (patterns : Patterns (Library.Float lib)) where
  open lib use {Float, zero_float}
  open patterns use {full_ts, time_only, bracketed, words, parse_zoned, parse_local, today_at}

  full_timestamp : List (Bytes × Bool) → Bytes → Option Float
  full_timestamp [] s = none
  full_timestamp ((layout, zoned) ∷ layouts) s =
      elim (if zoned then parse_zoned layout s else parse_local layout s) [
        | some t ↦ some t
        | none ↦ full_timestamp layouts s
      ]

  abbrev or_zero : Option Float → Float
  or_zero none = zero_float
  or_zero (some t) = t

  unfoldable pub parse_text_timestamp : Bytes → Float
  unfolding full_timestamp
  parse_text_timestamp line =
      let full = full_ts (head_of line) in
      let time = time_only (head_of line) in
      if is_empty full
      then (if is_empty time then zero_float else or_zero (today_at time))
      else or_zero (full_timestamp full_text_layouts full)

  -- The first of the texts that is a level.
  first_of : List Bytes → Bytes
  first_of [] = []
  first_of (m ∷ ms) =
      let lvl = normalize_level lib json m in
      elim (is_empty lvl) [ true ↦ first_of ms | false ↦ lvl ]

  -- The first of the words in upper case, of three letters or more, that is a level.
  first_word : List Bytes → Bytes
  unfolding is_upper_alpha
  first_word [] = []
  first_word (tok ∷ toks) = elim (leb 3 (length tok) && is_upper_alpha tok) [
    | false ↦ first_word toks
    | true ↦
        let lvl = normalize_level lib json tok in
        elim (is_empty lvl) [ true ↦ first_word toks | false ↦ lvl ]
  ]

  unfoldable pub parse_text_level : Bytes → Bytes
  unfolding first_of first_word
  parse_text_level line =
      let lvl = first_of (bracketed (head_of line)) in
      if is_empty lvl then first_word (words (head_of line)) else lvl

  unfoldable pub parse_text_line : Bytes → Float × Bytes
  unfolding parse_text_timestamp parse_text_level
  parse_text_line line = (parse_text_timestamp line, parse_text_level line)

  first_of-IsLevel : (ms : List Bytes) → IsLevel (first_of ms)
  unfolding first_of
  first_of-IsLevel [] = empty-IsLevel
  first_of-IsLevel (m ∷ ms) =
      elim (is_empty (normalize_level lib json m))
        as (λ b. IsLevel (elim b [ true ↦ first_of ms | false ↦ normalize_level lib json m ])) [
          | true ↦ first_of-IsLevel ms
          | false ↦ normalize_level-IsLevel lib json m
        ]

  first_word-IsLevel : (toks : List Bytes) → IsLevel (first_word toks)
  unfolding first_word
  first_word-IsLevel [] = empty-IsLevel
  first_word-IsLevel (tok ∷ toks) =
      elim (leb 3 (length tok) && is_upper_alpha tok)
        as (λ a. IsLevel (elim a [
          | false ↦ first_word toks
          | true ↦ elim (is_empty (normalize_level lib json tok)) [
            | true ↦ first_word toks
            | false ↦ normalize_level lib json tok
          ]
        ])) [
          | false ↦ first_word-IsLevel toks
          | true ↦
              elim (is_empty (normalize_level lib json tok))
                as (λ b.
                  IsLevel
                    (elim b [ true ↦ first_word toks | false ↦ normalize_level lib json tok ])) [
                      | true ↦ first_word-IsLevel toks
                      | false ↦ normalize_level-IsLevel lib json tok
                    ]
        ]

  -- The level of a line of text is empty or one of the seven words of the vocabulary, whatever the
  -- regular expressions match.
  pub parse_text_line-IsLevel : (line : Bytes) → IsLevel (parse_text_line line).1
  unfolding parse_text_line
  parse_text_line-IsLevel line =
      if_cases IsLevel (is_empty (first_of (bracketed (head_of line)))) _ _
        (λ _. first_word-IsLevel (words (head_of line)))
        (λ _. first_of-IsLevel (bracketed (head_of line)))
