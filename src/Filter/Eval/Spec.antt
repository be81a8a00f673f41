-- ===== src/Filter/Eval/Spec.antt =====
-- What a filter says of a row, read from the store with no memo.
use loggi.Prelude.{
  ℕ, Bool, true, false, not, ◌&&◌, ◌||◌, Option, none, some, List, [], ◌∷◌, if◌then◌else◌, is_empty,
  lookup,
}
use loggi.Store.Bitmap.{Roaring}
use loggi.Store.Types.{MaterializedRow}
use loggi.Text.{Bytes, codes, contains, str_eq, bytes_eq}
use loggi.Filter.Ast.{
  FieldPath, GlobPart, Node, and_node, or_node, not_node, eq_node, substr_node, exists_node,
  range_node, cmp_num_node, cmp_str_node, regex_node,
}
use loggi.Filter.Eval.{
  row_column, field_in_top, number_in_top, hot_number, eq_hot_test, range_test, cmp_num_test,
  level_test, is_level,
}
use loggi.Filter.Glob.{match_glob}
use loggi.Filter.Reader.{Library, Reader, Fields}
use loggi.Filter.Scalar.{level_ordinals, cmp_str}

module _ (lib : Library) (roaring : Roaring) where
  open lib use {Float, Regexp, match_string, to_lower, decode_fields}

  -- The decoded fields of a row.
  abbrev pub top_of : Option (MaterializedRow Float) → Option (Fields Float)
  top_of none = none
  top_of (some row) = if is_empty row.fields then none else decode_fields row.fields

  unfoldable pub row_value : FieldPath → Option (MaterializedRow Float) → Bytes
  row_value path none = []
  row_value (name ∷ []) (some row) = elim (row_column name row) [
    | some v ↦ v
    | none ↦ field_in_top lib roaring (name ∷ []) (top_of (some row))
  ]
  row_value path (some row) = field_in_top lib roaring path (top_of (some row))

  -- The text at a path: a synthetic `source`, a hot column, or what the row holds.
  unfoldable pub field_value : FieldPath → Reader lib roaring → ℕ → Bytes
  field_value (name ∷ []) s seq =
      if str_eq name (codes "source")
      then s.source_name (s.source_id_of_seq seq)
      else elim (s.hot_column name) [
        | some _ ↦ s.hot_string seq name
        | none ↦ row_value (name ∷ []) (s.materialize seq)
      ]
  field_value path s seq = row_value path (s.materialize seq)

  unfoldable pub number_value : FieldPath → Reader lib roaring → ℕ → Option Float
  number_value path s seq = elim (hot_number lib roaring path s seq) [
    | some v ↦ some v
    | none ↦ number_in_top lib roaring path (top_of (s.materialize seq))
  ]

  unfoldable pub eq_holds : Reader lib roaring → FieldPath → Bytes → Reader lib roaring → ℕ → Bool
  eq_holds s₀ (name ∷ []) needle s seq = elim (s₀.hot_column name) [
    | some _ ↦ eq_hot_test lib roaring needle (s.hot_string seq name)
    | none ↦ str_eq (field_value (name ∷ []) s seq) needle
  ]
  eq_holds s₀ path needle s seq = str_eq (field_value path s seq) needle

  unfoldable pub substr_holds :
      FieldPath → Bytes → Bool → Option (List GlobPart) → Reader lib roaring → ℕ → Bool
  substr_holds path needle exact (some parts) s seq = match_glob (field_value path s seq) parts
  substr_holds path [] exact none s seq = true
  substr_holds path (d ∷ needle) exact none s seq =
      let v = field_value path s seq in
      if exact then str_eq v (d ∷ needle) else contains v (d ∷ needle)

  unfoldable pub cmp_str_holds : FieldPath → Bytes → Bytes → Reader lib roaring → ℕ → Bool
  cmp_str_holds path op v s seq =
      if is_level lib roaring path
      then elim (lookup (to_lower v) level_ordinals) [
        | none ↦ false
        | some want ↦ level_test lib roaring op want (s.hot_string seq (codes "level"))
      ]
      else cmp_str (field_value path s seq) v op

  -- `s₀` is the store at compile time, `s` the store at the call.
  unfoldable pub holds : Reader lib roaring → Node Float Regexp → Reader lib roaring → ℕ → Bool
  holds s₀ (and_node l r) s seq = holds s₀ l s seq && holds s₀ r s seq
  holds s₀ (or_node l r) s seq = holds s₀ l s seq || holds s₀ r s seq
  holds s₀ (not_node x) s seq = not (holds s₀ x s seq)
  holds s₀ (eq_node path v) s seq = eq_holds s₀ path v s seq
  holds s₀ (substr_node path needle exact glob) s seq = substr_holds path needle exact glob s seq
  holds s₀ (exists_node path) s seq = not (is_empty (field_value path s seq))
  holds s₀ (range_node path lo hi) s seq = range_test lib roaring lo hi (number_value path s seq)
  holds s₀ (cmp_num_node path op n) s seq = cmp_num_test lib roaring op n (number_value path s seq)
  holds s₀ (cmp_str_node path op v) s seq = cmp_str_holds path op v s seq
  holds s₀ (regex_node path pattern flags re) s seq = match_string re (field_value path s seq)
