-- ===== src/Filter/Parser.antt =====
-- internal/filter/parser.go: recursive descent over the operators of a filter, on fuel.
pub mod Fuel
use loggi.Prelude.{
  ℕ, zero, suc, ◌+◌, ◌*◌, Bool, true, false, ◌||◌, Option, none, some, List, [], ◌∷◌, is_empty,
  if◌then◌else◌, length,
}
use loggi.Text.{Bytes}
use loggi.Filter.Ast.{Node, and_node, or_node, not_node}
use loggi.Filter.Reader.{Library}
use loggi.Filter.Term.{
  ParseError, unexpected_end, missing_paren, trailing, Parsed, ok, fail, out_of_fuel, ◌>>=◌, Tokens,
  Expr, Reads, parse_term,
}
use loggi.Filter.Token.{
  TokKind, t_l_paren, t_r_paren, t_dash, t_or, t_not, Token, Unicode, is_opener, is_and,
}
use loggi.Filter.Tokenize.{tokenize}

unfoldable pub is_or : TokKind → Bool
is_or t_or = true
is_or _ = false

unfoldable pub is_l_paren : TokKind → Bool
is_l_paren t_l_paren = true
is_l_paren _ = false

unfoldable pub is_r_paren : TokKind → Bool
is_r_paren t_r_paren = true
is_r_paren _ = false

unfoldable pub is_negation : TokKind → Bool
is_negation t_dash = true
is_negation t_not = true
is_negation _ = false

-- What the loop of parseAnd does at the tokens that are left: it stops in front of `rest`, or reads
-- one more operand there.
pub data AndStep (Float : Type 0) : Type 0 where
  stop : List (Token Float) → AndStep Float
  operand : List (Token Float) → AndStep Float

module _ (lib : Library) where
  open lib use {Float}

  after_and : Tokens lib → AndStep Float
  unfolding is_or is_r_paren
  after_and [] = stop []
  after_and (t ∷ toks) =
      if is_or t.kind || is_r_paren t.kind then stop (t ∷ toks) else operand (t ∷ toks)

  unfoldable pub and_step : Tokens lib → AndStep Float
  unfolding after_and is_and is_opener
  and_step [] = stop []
  and_step (t ∷ toks) =
      if is_and t.kind
      then after_and toks
      else if is_opener t.kind
      then operand (t ∷ toks)
      else stop (t ∷ toks)

  unfoldable pub close_paren : Expr lib × Tokens lib → Reads lib
  unfolding is_r_paren
  close_paren (n, []) = fail missing_paren
  close_paren (n, t ∷ toks) = if is_r_paren t.kind then ok (n, toks) else fail missing_paren

  unfoldable mutual
    unfolding is_or is_negation is_l_paren

    pub parse_or : ℕ → Tokens lib → Reads lib
    parse_or zero toks = out_of_fuel
    parse_or (suc f) toks = parse_and f toks >>= λ l. or_loop f l.0 l.1

    pub or_loop : ℕ → Expr lib → Tokens lib → Reads lib
    or_loop zero left toks = out_of_fuel
    or_loop (suc f) left [] = ok (left, [])
    or_loop (suc f) left (t ∷ toks) = elim (is_or t.kind) [
      | true ↦ parse_and f toks >>= λ r. or_loop f (or_node left r.0) r.1
      | false ↦ ok (left, t ∷ toks)
    ]

    pub parse_and : ℕ → Tokens lib → Reads lib
    parse_and zero toks = out_of_fuel
    parse_and (suc f) toks = parse_not f toks >>= λ l. and_loop f l.0 l.1

    pub and_loop : ℕ → Expr lib → Tokens lib → Reads lib
    and_loop zero left toks = out_of_fuel
    and_loop (suc f) left toks = elim (and_step toks) [
      | stop rest ↦ ok (left, rest)
      | operand rest ↦ parse_not f rest >>= λ r. and_loop f (and_node left r.0) r.1
    ]

    pub parse_not : ℕ → Tokens lib → Reads lib
    parse_not zero toks = out_of_fuel
    parse_not (suc f) [] = fail unexpected_end
    parse_not (suc f) (t ∷ toks) = elim (is_negation t.kind) [
      | true ↦ parse_atom f toks >>= λ x. ok (not_node x.0, x.1)
      | false ↦ parse_atom f (t ∷ toks)
    ]

    pub parse_atom : ℕ → Tokens lib → Reads lib
    parse_atom zero toks = out_of_fuel
    parse_atom (suc f) [] = fail unexpected_end
    parse_atom (suc f) (t ∷ toks) = elim (is_l_paren t.kind) [
      | true ↦ parse_or f toks >>= close_paren
      | false ↦ parse_term lib (t ∷ toks)
    ]

  all_read : Expr lib × Tokens lib → Parsed (Option (Expr lib))
  all_read (n, []) = ok (some n)
  all_read (n, t ∷ toks) = fail (trailing t.text t.pos)

  -- Four levels of calls read one token.
  abbrev pub enough : ℕ → ℕ
  enough n = 4 * n + 4

  unfoldable pub parse_tokens : Tokens lib → Parsed (Option (Expr lib))
  unfolding all_read
  parse_tokens toks = parse_or (enough (length toks)) toks >>= all_read

  -- Parse; the empty filter is `none`.
  unfoldable pub parse : Unicode → Bytes → Parsed (Option (Expr lib))
  parse unicode input =
      let s = Library.trim_space lib input in
      if is_empty s
      then ok none
      else elim (tokenize lib unicode s) [ none ↦ out_of_fuel | some toks ↦ parse_tokens toks ]
