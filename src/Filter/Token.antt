-- ===== src/Filter/Token.antt =====
-- internal/filter/parser.go: the tokens, and the tests on bytes and tokens that the tokenizer makes.
-- The runes of a text and their classes (package unicode) are parameters.
use loggi.Prelude.{
  ℕ, suc, Bool, true, false, not, ◌&&◌, ◌||◌, Option, List, [], ◌∷◌, ◌==◌, leb, is_empty,
}
use loggi.Text.{Bytes, codes, str_eq}
use loggi.Filter.Ast.{GlobPart}

pub data TokKind : Type 0 where
  t_ident t_string t_number t_colon t_dot t_at t_l_paren t_r_paren t_l_bracket t_r_bracket : TokKind
  t_dot_dot t_cmp t_star t_dash t_and t_or t_not : TokKind

-- `parts` is `none` for nil.
pub record Token (Float : Type 0) : Type 0 where
  pub kind : TokKind
  pub text : Bytes
  pub num : Float
  pub pos : ℕ
  pub parts : Option (List GlobPart)

-- `range` over a string, unicode.IsLetter and unicode.IsDigit.
pub record Unicode : Type 0 where
  pub runes : Bytes → List ℕ
  pub is_letter : ℕ → Bool
  pub is_decimal : ℕ → Bool

unfoldable pub is_closer : TokKind → Bool
is_closer t_ident = true
is_closer t_string = true
is_closer t_number = true
is_closer t_star = true
is_closer t_r_paren = true
is_closer t_r_bracket = true
is_closer _ = false

unfoldable pub is_opener : TokKind → Bool
is_opener t_ident = true
is_opener t_string = true
is_opener t_number = true
is_opener t_star = true
is_opener t_l_paren = true
is_opener t_at = true
is_opener t_dash = true
is_opener t_not = true
is_opener _ = false

unfoldable pub wants_value : TokKind → Bool
wants_value t_colon = true
wants_value t_l_bracket = true
wants_value t_dot_dot = true
wants_value t_cmp = true
wants_value _ = false

unfoldable pub is_and : TokKind → Bool
is_and t_and = true
is_and _ = false

-- `t.kind == tAnd && t.text == " "`
unfoldable pub is_synthetic : {Float : Type 0} → Token Float → Bool
unfolding is_and
is_synthetic t = is_and t.kind && str_eq t.text (codes " ")

-- The walk back over the tokens, the last one first.
unfoldable pub expecting_back : {Float : Type 0} → List (Token Float) → Bool
unfolding is_synthetic wants_value
expecting_back [] = false
expecting_back (t ∷ toks) = elim (is_synthetic t) [
  | true ↦ expecting_back toks
  | false ↦ wants_value t.kind
]

unfoldable pub is_space : ℕ → Bool
is_space c = c == b' ' || c == 9

unfoldable pub is_digit : ℕ → Bool
is_digit c = leb b'0' c && leb c b'9'

unfoldable pub is_ident_start : ℕ → Bool
is_ident_start c = c == b'_' || leb b'a' c && leb c b'z' || leb b'A' c && leb c b'Z'

unfoldable pub is_delim : ℕ → Bool
is_delim c =
    c == b'('
    || c == b')'
    || c == b':'
    || c == b'@'
    || c == b'['
    || c == b']'
    || c == b'"'
    || c == b'.'
    || c == b'>'
    || c == b'<'

-- The end of a glob run, as the number of bytes after the one it starts with.
unfoldable pub glob_run : Bytes → ℕ
unfolding is_space
glob_run [] = 0
glob_run (c ∷ s) = elim (is_space c || c == b'(' || c == b')' || c == b'"') [
  | true ↦ 0
  | false ↦ suc (glob_run s)
]

module _ (unicode : Unicode) where
  open unicode use {runes, is_letter, is_decimal}

  -- The loop over the runes; `first` is `i == 0`.
  ident_runes : Bool → List ℕ → Bool
  ident_runes first [] = true
  ident_runes first (r ∷ rs) = elim (r == b'_' || is_letter r || not first && is_decimal r) [
    | true ↦ ident_runes false rs
    | false ↦ false
  ]

  unfoldable pub is_ident : Bytes → Bool
  unfolding ident_runes
  is_ident s = not (is_empty s) && ident_runes true (runes s)
