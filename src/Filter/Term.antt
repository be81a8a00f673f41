-- ===== src/Filter/Term.antt =====
-- internal/filter/parser.go: the terms of a filter, read from the tokens that are left. An error is a
-- value; `out_of_fuel` belongs to the model.
pub mod Progress
use loggi.Prelude.{
  ℕ, zero, suc, ◌+◌, ◌*◌, Bool, true, false, not, ◌&&◌, ◌||◌, Option, none, some, List, [], ◌∷◌,
  ◌++◌, ◌==◌, if◌then◌else◌, is_empty, length, take, drop, reverse,
}
use loggi.Text.{Bytes, codes, contains, trim, trim_left}
use loggi.Filter.Ast.{
  FieldPath, GlobPart, Node, and_node, or_node, not_node, eq_node, substr_node, exists_node,
  range_node, cmp_num_node, cmp_str_node, regex_node,
}
use loggi.Filter.Reader.{Library}
use loggi.Filter.Token.{
  TokKind, t_ident, t_string, t_number, t_colon, t_dot, t_at, t_l_paren, t_r_paren, t_l_bracket,
  t_r_bracket, t_dot_dot, t_cmp, t_star, t_dash, t_and, t_or, t_not, Token, Unicode, is_opener,
}
use loggi.Filter.Tokenize.{tokenize, is_flag, run_of}

pub data ParseError : Type 0 where
  unexpected_end empty_term missing_paren no_value no_number no_dot_dot no_r_bracket : ParseError
  no_operand bad_operand : Bytes → ParseError
  unexpected_token : Bytes → ℕ → ParseError
  unexpected_value : Bytes → ParseError
  bad_regex : Bytes → Bytes → ParseError
  trailing : Bytes → ℕ → ParseError

pub data Parsed (A : Type 0) : Type 0 where
  ok : A → Parsed A
  fail : ParseError → Parsed A
  out_of_fuel : Parsed A

infixl 1 ◌>>=◌
abbrev pub ◌>>=◌ : {A B : Type 0} → Parsed A → (A → Parsed B) → Parsed B
ok a >>= f = f a
fail e >>= f = fail e
out_of_fuel >>= f = out_of_fuel

-- `tok[1:end]` and `tok[end:]` for the end found from behind, on the text reversed: the flags, and
-- what stands before them.
split_flags : Bytes → Bytes × Bytes
unfolding run_of is_flag
split_flags back = (reverse (take (run_of is_flag back) back), drop (run_of is_flag back) back)

-- strings.ReplaceAll(body, `\/`, `/`)
unescape_slash : Bytes → Bytes
unescape_slash [] = []
unescape_slash (c ∷ []) = c ∷ []
unescape_slash (c ∷ d ∷ s) = elim (c == 92 && d == b'/') [
  | true ↦ b'/' ∷ unescape_slash s
  | false ↦ c ∷ unescape_slash (d ∷ s)
]

split_body : Bytes → Bytes → Option (Bytes × Bytes)
unfolding unescape_slash
split_body flags [] = none
split_body flags (c ∷ body) = some (unescape_slash (reverse (c ∷ body)), flags)

split_closed : Bytes → Bytes → Option (Bytes × Bytes)
unfolding split_body
split_closed flags [] = none
split_closed flags (c ∷ body) = if c == b'/' then split_body flags body else none

-- splitRegexLiteral: the walk from the end stops in front of the opening slash.
unfoldable pub split_regex_literal : Bytes → Option (Bytes × Bytes)
unfolding split_flags split_closed
split_regex_literal [] = none
split_regex_literal (c ∷ tok) =
    if c == b'/'
    then (let (flags, rest) = split_flags (reverse tok) in split_closed flags rest)
    else none

module _ (lib : Library) where
  open lib use {Float, Regexp, compile_regexp}

  abbrev pub Tokens : Type 0
  Tokens = List (Token Float)

  abbrev pub Expr : Type 0
  Expr = Node Float Regexp

  -- What a parser has read, and the tokens that are left.
  abbrev pub Reads : Type 0
  Reads = Parsed (Expr × Tokens)

  -- compileRegexLiteral
  unfoldable pub compile_regex_literal : Bytes → Bytes → Option Regexp
  unfolding contains
  compile_regex_literal pattern flags =
      if contains flags (codes "g")
      then none
      else compile_regexp (if contains flags (codes "i") then codes "(?i)" ++ pattern else pattern)

  abbrev pub msg : FieldPath
  msg = codes "msg" ∷ []

  unfoldable pub is_kind_dot : TokKind → Bool
  is_kind_dot t_dot = true
  is_kind_dot _ = false

  unfoldable pub is_kind_ident : TokKind → Bool
  is_kind_ident t_ident = true
  is_kind_ident _ = false

  unfoldable pub is_kind_at : TokKind → Bool
  is_kind_at t_at = true
  is_kind_at _ = false

  unfoldable pub is_kind_colon : TokKind → Bool
  is_kind_colon t_colon = true
  is_kind_colon _ = false

  -- The segments behind the first one: a dot counts only in front of an identifier.
  unfoldable pub more_segments : Tokens → FieldPath × Tokens
  unfolding is_kind_dot is_kind_ident
  more_segments [] = ([], [])
  more_segments (d ∷ []) = ([], d ∷ [])
  more_segments (d ∷ s ∷ toks) = elim (is_kind_dot d.kind && is_kind_ident s.kind) [
    | true ↦ (s.text ∷ (more_segments toks).0, (more_segments toks).1)
    | false ↦ ([], d ∷ s ∷ toks)
  ]

  unfoldable pub first_segment : Tokens → FieldPath × Tokens
  unfolding more_segments is_kind_ident
  first_segment [] = ([], [])
  first_segment (t ∷ toks) =
      if is_kind_ident t.kind
      then (t.text ∷ (more_segments toks).0, (more_segments toks).1)
      else ([], t ∷ toks)

  -- parseFieldRef. Its caller drops the error, with which the path is nil and an `@` is passed over.
  unfoldable pub parse_field_ref : Tokens → FieldPath × Tokens
  unfolding first_segment is_kind_at
  parse_field_ref [] = ([], [])
  parse_field_ref (t ∷ toks) =
      if is_kind_at t.kind then first_segment toks else first_segment (t ∷ toks)

  unfoldable pub number_at : TokKind → Token Float → Tokens → Parsed (Float × Tokens)
  number_at t_number t toks = ok (t.num, toks)
  number_at _ t toks = fail no_number

  unfoldable pub expect_number : Tokens → Parsed (Float × Tokens)
  unfolding number_at
  expect_number [] = fail no_number
  expect_number (t ∷ toks) = number_at t.kind t toks

  unfoldable pub is_kind_dot_dot : TokKind → Bool
  is_kind_dot_dot t_dot_dot = true
  is_kind_dot_dot _ = false

  unfoldable pub is_kind_r_bracket : TokKind → Bool
  is_kind_r_bracket t_r_bracket = true
  is_kind_r_bracket _ = false

  unfoldable pub expect_dot_dot : Tokens → Parsed Tokens
  unfolding is_kind_dot_dot
  expect_dot_dot [] = fail no_dot_dot
  expect_dot_dot (t ∷ toks) = if is_kind_dot_dot t.kind then ok toks else fail no_dot_dot

  unfoldable pub expect_r_bracket : Tokens → Parsed Tokens
  unfolding is_kind_r_bracket
  expect_r_bracket [] = fail no_r_bracket
  expect_r_bracket (t ∷ toks) = if is_kind_r_bracket t.kind then ok toks else fail no_r_bracket

  -- `lo..hi]`, from behind the opening bracket.
  unfoldable pub range_value : FieldPath → Tokens → Reads
  range_value path toks = expect_number toks >>= λ lo. expect_dot_dot lo.1 >>= λ more.
      expect_number more >>= λ hi.
      expect_r_bracket hi.1 >>= λ rest. ok (range_node path lo.0 hi.0, rest)

  unfoldable pub cmp_operand : FieldPath → Bytes → TokKind → Token Float → Tokens → Reads
  cmp_operand path op t_number t toks = ok (cmp_num_node path op t.num, toks)
  cmp_operand path op t_ident t toks = ok (cmp_str_node path op t.text, toks)
  cmp_operand path op t_string t toks = ok (cmp_str_node path op t.text, toks)
  cmp_operand path op _ t toks = fail (bad_operand op)

  unfoldable pub cmp_value : FieldPath → Bytes → Tokens → Reads
  unfolding cmp_operand
  cmp_value path op [] = fail (no_operand op)
  cmp_value path op (t ∷ toks) = cmp_operand path op t.kind t toks

  unfoldable pub regex_value : FieldPath → Bytes × Bytes → Tokens → Reads
  unfolding compile_regex_literal
  regex_value path (pattern, flags) toks = elim (compile_regex_literal pattern flags) [
    | none ↦ fail (bad_regex pattern flags)
    | some re ↦ ok (regex_node path pattern flags re, toks)
  ]

  -- A needle between stars.
  unfoldable pub glob_value : FieldPath → Bytes → Tokens → Reads
  unfolding trim
  glob_value path text toks =
      if is_empty (trim b'*' text)
      then ok (exists_node path, toks)
      else ok (substr_node path (trim b'*' text) false none, toks)

  unfoldable pub star_value : FieldPath → Bytes → Tokens → Reads
  unfolding contains split_regex_literal regex_value glob_value
  star_value path text toks = elim (split_regex_literal text) [
    | some literal ↦ regex_value path literal toks
    | none ↦
        if contains text (codes "*")
        then glob_value path text toks
        else ok (eq_node path text, toks)
  ]

  unfoldable pub string_value : FieldPath → Bytes → Option (List GlobPart) → Tokens → Reads
  string_value path text none toks = ok (eq_node path text, toks)
  string_value path text (some parts) toks = ok (substr_node path [] false (some parts), toks)

  unfoldable pub value_of : FieldPath → TokKind → Token Float → Tokens → Reads
  unfolding range_value cmp_value star_value string_value
  value_of path t_l_bracket t toks = range_value path toks
  value_of path t_cmp t toks = cmp_value path t.text toks
  value_of path t_string t toks = string_value path t.text t.parts toks
  value_of path t_star t toks = star_value path t.text toks
  value_of path t_ident t toks = ok (eq_node path t.text, toks)
  value_of path t_number t toks = ok (eq_node path t.text, toks)
  value_of path _ t toks = fail (unexpected_value t.text)

  unfoldable pub parse_field_value : FieldPath → Tokens → Reads
  unfolding value_of
  parse_field_value path [] = fail no_value
  parse_field_value path (t ∷ toks) = value_of path t.kind t toks

  -- Behind a field reference: a colon and a value, or the first token is a bare word.
  unfoldable pub field_or_word : Token Float → Tokens → FieldPath × Tokens → Reads
  unfolding is_kind_colon
  field_or_word t toks (path, []) = ok (substr_node msg t.text false none, toks)
  field_or_word t toks (path, next ∷ rest) =
      if is_kind_colon next.kind
      then parse_field_value path rest
      else ok (substr_node msg t.text false none, toks)

  unfoldable pub term_string : Bytes → Option (List GlobPart) → Tokens → Reads
  term_string text none toks = ok (substr_node msg text true none, toks)
  term_string text (some parts) toks = ok (substr_node msg [] false (some parts), toks)

  unfoldable pub term_of : TokKind → Token Float → Tokens → Reads
  unfolding field_or_word parse_field_ref term_string trim
  term_of t_at t toks = field_or_word t toks (parse_field_ref (t ∷ toks))
  term_of t_ident t toks = field_or_word t toks (parse_field_ref (t ∷ toks))
  term_of t_string t toks = term_string t.text t.parts toks
  term_of t_star t toks = ok (substr_node msg (trim b'*' t.text) false none, toks)
  term_of t_number t toks = ok (substr_node msg t.text false none, toks)
  term_of _ t toks = fail (unexpected_token t.text t.pos)

  unfoldable pub parse_term : Tokens → Reads
  unfolding term_of
  parse_term [] = fail empty_term
  parse_term (t ∷ toks) = term_of t.kind t toks
