-- ===== src/Filter/Scalar.antt =====
-- internal/filter/compile.go: comparisons of levels, texts and numbers, and the walk down a decoded
-- JSON value.
use loggi.Prelude.{
  ℕ, Bool, true, false, not, Option, none, some, List, [], ◌∷◌, leb, ltb, if◌then◌else◌,
}
use loggi.Text.{str_eq, Bytes, codes, trim, bytes_lt}
use loggi.Filter.Ast.{FieldPath}
use loggi.Filter.Reader.{Library, Json, Fields, bool, num, str, obj, end, field}

abbrev pub level_ordinals : List (Bytes × ℕ)
level_ordinals =
    (codes "trace", 0)
    ∷ (codes "debug", 1)
    ∷ (codes "info", 2)
    ∷ (codes "warn", 3)
    ∷ (codes "warning", 3)
    ∷ (codes "error", 4)
    ∷ (codes "fatal", 5)
    ∷ []

unfoldable pub cmp_int : ℕ → ℕ → Bytes → Bool
cmp_int a b op =
    if str_eq op (codes ">")
    then ltb b a
    else if str_eq op (codes ">=")
    then leb b a
    else if str_eq op (codes "<")
    then ltb a b
    else if str_eq op (codes "<=")
    then leb a b
    else false

unfoldable pub cmp_str : Bytes → Bytes → Bytes → Bool
unfolding bytes_lt
cmp_str a b op =
    if str_eq op (codes ">")
    then bytes_lt b a
    else if str_eq op (codes ">=")
    then not (bytes_lt a b)
    else if str_eq op (codes "<")
    then bytes_lt a b
    else if str_eq op (codes "<=")
    then not (bytes_lt b a)
    else false

unfoldable pub string_eq_ignoring_quotes : Bytes → Bytes → Bool
unfolding trim str_eq
string_eq_ignoring_quotes a b = str_eq (trim b'"' a) (trim b'"' b)

-- A decoded map with a key twice is not met: the decoder keeps the last value.
unfoldable pub lookup_field : {Float : Type 0} → Bytes → Fields Float → Option (Json Float)
lookup_field key end = none
lookup_field key (field k v fs) = if str_eq k key then some v else lookup_field key fs

-- The loop over the segments of a path, from the value reached so far.
unfoldable pub walk : {Float : Type 0} → FieldPath → Json Float → Option (Json Float)
unfolding lookup_field
walk [] cur = some cur
walk (seg ∷ path) (obj m) = elim (lookup_field seg m) [ none ↦ none | some next ↦ walk path next ]
walk (seg ∷ path) _ = none

module _ (lib : Library) where
  open lib use {Float, Regexp, float_lt, float_le, parse_float, format_float}

  unfoldable pub cmp_num : Float → Float → Bytes → Bool
  cmp_num f n op =
      if str_eq op (codes ">")
      then float_lt n f
      else if str_eq op (codes ">=")
      then float_le n f
      else if str_eq op (codes "<")
      then float_lt f n
      else if str_eq op (codes "<=")
      then float_le f n
      else false

  unfoldable pub format_scalar : Json Float → Bytes
  format_scalar (str x) = x
  format_scalar (num x) = format_float x
  format_scalar (bool true) = codes "true"
  format_scalar (bool false) = codes "false"
  format_scalar _ = []

  -- The last switch of materializeNumber.
  unfoldable pub scalar_number : Json Float → Option Float
  scalar_number (num x) = some x
  scalar_number (str x) = let (f, valid) = parse_float x in if valid then some f else none
  scalar_number _ = none
