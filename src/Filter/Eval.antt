-- ===== src/Filter/Eval.antt =====
-- internal/filter/compile.go: evalCtx and the nodes compiled over it. The fields `s` and `seq` of
-- evalCtx never change and are arguments; `Ctx` is the memo. A compiled node runs over the store as
-- it stands when it is called; the store given to `compile` is the one at compile time.
pub mod Spec
pub mod Holds
pub mod Notice
use loggi.Prelude.{
  ℕ, Bool, true, false, not, ◌&&◌, ◌||◌, Option, none, some, List, [], ◌∷◌, if◌then◌else◌, is_empty,
  lookup,
}
use loggi.Text.{str_eq, bytes_eq, Bytes, codes, contains}
use loggi.Store.Bitmap.{Roaring}
use loggi.Store.Types.{MaterializedRow}
use loggi.Filter.Ast.{
  FieldPath, GlobPart, Node, and_node, or_node, not_node, eq_node, substr_node, exists_node,
  range_node, cmp_num_node, cmp_str_node, regex_node,
}
use loggi.Filter.Glob.{match_glob}
use loggi.Filter.Reader.{Library, Reader, Fields, obj}
use loggi.Filter.Scalar.{
  level_ordinals, cmp_int, cmp_str, string_eq_ignoring_quotes, walk, cmp_num, format_scalar,
  scalar_number,
}

pub record Ctx (Float : Type 0) : Type 0 where
  pub row : Option (MaterializedRow Float)
  pub row_fetched : Bool
  pub top : Option (Fields Float)
  pub top_decoded : Bool

abbrev pub fresh : {Float : Type 0} → Ctx Float
fresh = record { row = none; row_fetched = false; top = none; top_decoded = false }

-- The last switch of the fast path on a materialized row.
unfoldable pub row_column : {Float : Type 0} → Bytes → MaterializedRow Float → Option Bytes
row_column name row =
    if str_eq name (codes "level")
    then some row.level
    else if str_eq name (codes "service")
    then some row.service
    else if str_eq name (codes "msg")
    then some row.msg
    else none

module _ (lib : Library) (roaring : Roaring) where
  open lib use {Float, Regexp, float_le, match_string, to_lower, decode_fields}

  -- A computation that reads the store at `seq` and keeps the memo.
  abbrev pub Eval : Type 0 → Type 0
  Eval A = Reader lib roaring → ℕ → Ctx Float → A × Ctx Float

  infixl 1 ◌>>=◌
  abbrev pub ◌>>=◌ : {A B : Type 0} → Eval A → (A → Eval B) → Eval B
  ◌>>=◌ m f s seq c = let (a, c') = m s seq c in f a s seq c'

  abbrev pub pure : {A : Type 0} → A → Eval A
  pure a s seq c = (a, c)

  abbrev pub reader : {A : Type 0} → (Reader lib roaring → ℕ → A) → Eval A
  reader f s seq c = (f s seq, c)

  -- Row
  unfoldable pub ctx_row : Eval (Option (MaterializedRow Float))
  ctx_row s seq c =
      let r = s.materialize seq in
      if c.row_fetched then (c.row, c) else (r, record c { row = r; row_fetched = true })

  unfoldable pub decode_top : Option (MaterializedRow Float) → Eval (Option (Fields Float))
  decode_top none s seq c = (none, c)
  decode_top (some row) s seq c =
      let t = decode_fields row.fields in
      if is_empty row.fields then (none, c) else (t, record c { top = t })

  -- Top
  unfoldable pub ctx_top : Eval (Option (Fields Float))
  unfolding ctx_row decode_top
  ctx_top s seq c =
      if c.top_decoded
      then (c.top, c)
      else (ctx_row >>= decode_top) s seq (record c { top_decoded = true })

  -- The walk down the decoded tree, at the end of materializeField and of materializeNumber.
  unfoldable pub field_in_top : FieldPath → Option (Fields Float) → Bytes
  unfolding walk format_scalar
  field_in_top path none = []
  field_in_top path (some top) = elim (walk path (obj top)) [
    | none ↦ []
    | some v ↦ format_scalar lib v
  ]

  unfoldable pub number_in_top : FieldPath → Option (Fields Float) → Option Float
  unfolding walk scalar_number
  number_in_top path none = none
  number_in_top path (some top) = elim (walk path (obj top)) [
    | none ↦ none
    | some v ↦ scalar_number lib v
  ]

  -- From the materialized row on. A one-segment `source` was answered before.
  unfoldable pub field_in_row : FieldPath → Option (MaterializedRow Float) → Eval Bytes
  unfolding ctx_top field_in_top row_column
  field_in_row path none = pure []
  field_in_row (name ∷ []) (some row) = elim (row_column name row) [
    | some v ↦ pure v
    | none ↦ ctx_top >>= λ top. pure (field_in_top (name ∷ []) top)
  ]
  field_in_row path (some row) = ctx_top >>= λ top. pure (field_in_top path top)

  unfoldable pub materialize_field : FieldPath → Eval Bytes
  unfolding ctx_row field_in_row
  materialize_field (name ∷ []) s seq =
      if str_eq name (codes "source")
      then pure (s.source_name (s.source_id_of_seq seq)) s seq
      else elim (s.hot_column name) [
        | some _ ↦ pure (s.hot_string seq name) s seq
        | none ↦ (ctx_row >>= field_in_row (name ∷ [])) s seq
      ]
  materialize_field path s seq = (ctx_row >>= field_in_row path) s seq

  unfoldable pub number_in_row : FieldPath → Option (MaterializedRow Float) → Eval (Option Float)
  unfolding ctx_top number_in_top
  number_in_row path none = pure none
  number_in_row path (some row) =
      if is_empty row.fields then pure none else (ctx_top >>= λ top. pure (number_in_top path top))

  -- The float of a hot column, which answers before the row is read.
  unfoldable pub hot_number : FieldPath → Reader lib roaring → ℕ → Option Float
  hot_number (name ∷ []) s seq = elim (s.hot_column name) [
    | none ↦ none
    | some _ ↦ s.hot_f64 seq name
  ]
  hot_number path s seq = none

  unfoldable pub materialize_number : FieldPath → Eval (Option Float)
  unfolding ctx_row number_in_row hot_number
  materialize_number path s seq = elim (hot_number path s seq) [
    | some v ↦ pure (some v) s seq
    | none ↦ (ctx_row >>= number_in_row path) s seq
  ]

  -- The tests that the compiled nodes make on what they read.
  unfoldable pub eq_hot_test : Bytes → Bytes → Bool
  unfolding string_eq_ignoring_quotes
  eq_hot_test needle v = str_eq v needle || string_eq_ignoring_quotes v needle

  abbrev pub range_test : Float → Float → Option Float → Bool
  range_test lo hi none = false
  range_test lo hi (some f) = float_le lo f && float_le f hi

  abbrev pub cmp_num_test : Bytes → Float → Option Float → Bool
  cmp_num_test op n none = false
  cmp_num_test op n (some f) = cmp_num lib f n op

  abbrev pub level_test : Bytes → ℕ → Bytes → Bool
  level_test op want v = elim (lookup (to_lower v) level_ordinals) [
    | none ↦ false
    | some got ↦ cmp_int got want op
  ]

  -- `compileEq` looks the column up when it compiles.
  unfoldable pub compile_eq : Reader lib roaring → FieldPath → Bytes → Eval Bool
  unfolding materialize_field eq_hot_test
  compile_eq s₀ (name ∷ []) needle = elim (s₀.hot_column name) [
    | some _ ↦ reader (λ s seq. eq_hot_test needle (s.hot_string seq name))
    | none ↦ materialize_field (name ∷ []) >>= λ v. pure (str_eq v needle)
  ]
  compile_eq s₀ path needle = materialize_field path >>= λ v. pure (str_eq v needle)

  unfoldable pub compile_substr : FieldPath → Bytes → Bool → Option (List GlobPart) → Eval Bool
  unfolding materialize_field match_glob contains
  compile_substr path needle exact (some parts) =
      materialize_field path >>= λ v. pure (match_glob v parts)
  compile_substr path [] exact none = pure true
  compile_substr path (d ∷ needle) exact none = materialize_field path >>= λ v.
      pure (if exact then str_eq v (d ∷ needle) else contains v (d ∷ needle))

  unfoldable pub compile_exists : FieldPath → Eval Bool
  unfolding materialize_field
  compile_exists path = materialize_field path >>= λ v. pure (not (is_empty v))

  unfoldable pub compile_range : FieldPath → Float → Float → Eval Bool
  unfolding materialize_number
  compile_range path lo hi = materialize_number path >>= λ f. pure (range_test lo hi f)

  unfoldable pub compile_cmp_num : FieldPath → Bytes → Float → Eval Bool
  unfolding materialize_number cmp_num
  compile_cmp_num path op n = materialize_number path >>= λ f. pure (cmp_num_test op n f)

  unfoldable pub is_level : FieldPath → Bool
  is_level (name ∷ []) = str_eq name (codes "level")
  is_level _ = false

  unfoldable pub compile_cmp_str : FieldPath → Bytes → Bytes → Eval Bool
  unfolding materialize_field cmp_str cmp_int is_level
  compile_cmp_str path op v =
      if is_level path
      then elim (lookup (to_lower v) level_ordinals) [
        | none ↦ pure false
        | some want ↦ reader (λ s seq. level_test op want (s.hot_string seq (codes "level")))
      ]
      else (materialize_field path >>= λ w. pure (cmp_str w v op))

  -- The parser gives every such node its regular expression.
  unfoldable pub compile_regex : FieldPath → Regexp → Eval Bool
  unfolding materialize_field
  compile_regex path re = materialize_field path >>= λ v. pure (match_string re v)

  unfoldable pub compile : Reader lib roaring → Node Float Regexp → Eval Bool
  unfolding compile_eq compile_substr compile_exists compile_range compile_cmp_num compile_cmp_str
      compile_regex
  compile s₀ (and_node l r) =
      compile s₀ l >>= λ b. elim b [ true ↦ compile s₀ r | false ↦ pure false ]
  compile s₀ (or_node l r) =
      compile s₀ l >>= λ b. elim b [ true ↦ pure true | false ↦ compile s₀ r ]
  compile s₀ (not_node x) = compile s₀ x >>= λ b. pure (not b)
  compile s₀ (eq_node path v) = compile_eq s₀ path v
  compile s₀ (substr_node path needle exact glob) = compile_substr path needle exact glob
  compile s₀ (exists_node path) = compile_exists path
  compile s₀ (range_node path lo hi) = compile_range path lo hi
  compile s₀ (cmp_num_node path op n) = compile_cmp_num path op n
  compile s₀ (cmp_str_node path op v) = compile_cmp_str path op v
  compile s₀ (regex_node path pattern flags re) = compile_regex path re

  -- store.EvalFn: the store as it stands at the call, and a row.
  abbrev pub EvalFn : Type 0
  EvalFn = Reader lib roaring → ℕ → Bool

  unfoldable pub wrap : Eval Bool → EvalFn
  wrap n s seq = (n s seq fresh).0

  -- Compile, with `none` for a nil node and for a nil function.
  unfoldable pub compile_filter : Reader lib roaring → Option (Node Float Regexp) → Option EvalFn
  unfolding compile wrap
  compile_filter s₀ none = none
  compile_filter s₀ (some n) = some (wrap (compile s₀ n))
