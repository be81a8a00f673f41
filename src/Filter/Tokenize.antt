-- ===== src/Filter/Tokenize.antt =====
-- internal/filter/parser.go: the tokenizer. A round of its loop reads one token at the head of the
-- text that is left and says how many bytes it took; the loop runs on fuel.
pub mod Progress
use loggi.Prelude.{
  ℕ, zero, suc, ◌+◌, Bool, true, false, not, ◌&&◌, ◌||◌, Option, none, some, List, [], ◌∷◌, ◌++◌,
  ◌==◌, if◌then◌else◌, is_empty, length, take, drop, reverse,
}
use loggi.Text.{Bytes, codes, str_eq}
use loggi.Filter.Ast.{GlobPart, lit, wild}
use loggi.Filter.Reader.{Library}
use loggi.Filter.Token.{
  TokKind, t_ident, t_string, t_number, t_colon, t_dot, t_at, t_l_paren, t_r_paren, t_l_bracket,
  t_r_bracket, t_dot_dot, t_cmp, t_star, t_dash, t_and, t_or, t_not, Token, Unicode, is_closer,
  is_opener, is_synthetic, expecting_back, is_space, is_digit, is_ident_start, is_delim, glob_run,
  is_ident,
}

-- The length of the longest prefix of bytes that pass the test.
unfoldable pub run_of : (ℕ → Bool) → Bytes → ℕ
run_of p [] = 0
run_of p (c ∷ s) = elim (p c) [ true ↦ suc (run_of p s) | false ↦ 0 ]

unfoldable pub is_flag : ℕ → Bool
is_flag c = c == b'i' || c == b'g'

-- scanRegexLiteral, from behind the opening slash: the number of bytes to the end of the literal.
unfoldable pub scan_regex : Bytes → Option ℕ
unfolding is_space run_of is_flag
scan_regex [] = none
scan_regex (c ∷ []) = if not (is_space c) && c == b'/' then some 1 else none
scan_regex (c ∷ d ∷ s) = elim (is_space c) [
  | true ↦ none
  | false ↦ elim (c == 92) [
    | true ↦ elim (scan_regex s) [ none ↦ none | some n ↦ some (suc (suc n)) ]
    | false ↦ elim (c == b'/') [
      | true ↦ some (suc (run_of is_flag (d ∷ s)))
      | false ↦ elim (scan_regex (d ∷ s)) [ none ↦ none | some n ↦ some (suc n) ]
    ]
  ]
]

-- The digits of a number, with a dot where a digit follows.
unfoldable pub number_run : Bytes → ℕ
unfolding is_digit
number_run [] = 0
number_run (c ∷ []) = if is_digit c then 1 else 0
number_run (c ∷ d ∷ s) = elim (is_digit c || c == b'.' && not (d == b'.') && is_digit d) [
  | true ↦ suc (number_run (d ∷ s))
  | false ↦ 0
]

unfoldable pub is_digit_or_dot : ℕ → Bool
unfolding is_digit
is_digit_or_dot c = is_digit c || c == b'.'

-- The bytes of a word; in value position a dot inside it belongs to it.
unfoldable pub word_run : Bool → Bytes → ℕ
unfolding is_space is_delim
word_run in_val [] = 0
word_run in_val (c ∷ []) = if is_space c || is_delim c then 0 else 1
word_run in_val (c ∷ d ∷ s) =
    elim (not (is_space c)
      && (in_val && c == b'.' && not (d == b'.') && not (is_space d) || not (is_delim c))) [
        | true ↦ suc (word_run in_val (d ∷ s))
        | false ↦ 0
      ]

-- flushLit
unfoldable pub flush_lit : Bytes → List GlobPart → List GlobPart
flush_lit text parts = if is_empty text then parts else parts ++ lit text ∷ []

pub record Quoted : Type 0 where
  pub text : Bytes
  pub segment : Bytes
  pub parts : List GlobPart
  pub saw_wild : Bool
  pub used : ℕ

abbrev pub add_byte : ℕ → ℕ → Quoted → Quoted
add_byte n c q = record q {
  text = q.text ++ c ∷ [];
  segment = q.segment ++ c ∷ [];
  used = n + q.used;
}

abbrev pub add_wild : Quoted → Quoted
add_wild q = record q {
  text = q.text ++ b'*' ∷ [];
  segment = [];
  parts = flush_lit q.segment q.parts ++ wild ∷ [];
  saw_wild = true;
  used = 1 + q.used;
}

-- The loop over a quoted string, from behind the opening quote.
unfoldable pub quoted : Quoted → Bytes → Quoted
unfolding flush_lit
quoted q [] = q
quoted q (c ∷ []) =
    if c == b'"'
    then record q { used = 1 + q.used }
    else if c == b'*'
    then add_wild q
    else add_byte 1 c q
quoted q (c ∷ d ∷ s) = elim (c == b'"') [
  | true ↦ record q { used = 1 + q.used }
  | false ↦ elim (c == 92) [
    | true ↦ quoted (add_byte 2 d q) s
    | false ↦ elim (c == b'*') [
      | true ↦ quoted (add_wild q) (d ∷ s)
      | false ↦ quoted (add_byte 1 c q) (d ∷ s)
    ]
  ]
]

abbrev pub start_quoted : Quoted
start_quoted = record { text = []; segment = []; parts = []; saw_wild = false; used = 0 }

module _ (lib : Library) (unicode : Unicode) where
  open lib use {Float, parse_float, zero_float}

  abbrev pub simple : TokKind → Bytes → ℕ → Token Float
  simple kind text i = record { kind = kind; text = text; num = zero_float; pos = i; parts = none }

  -- A token and the number of bytes it took.
  abbrev pub Taken : Type 0
  Taken = Token Float × ℕ

  unfoldable pub number_token : Bytes → ℕ → ℕ → Taken
  number_token s n i = (
    record {
      kind = t_number;
      text = take n s;
      num = (parse_float (take n s)).0;
      pos = i;
      parts = none;
    },
    n,
  )

  unfoldable pub glob_token : Bytes → ℕ → Taken
  unfolding glob_run
  glob_token [] i = (simple t_star [] i, 0)
  glob_token (c ∷ s) i = (simple t_star (take (suc (glob_run s)) (c ∷ s)) i, suc (glob_run s))

  unfoldable pub bracket_token : Bytes → ℕ → Taken
  unfolding is_digit glob_token
  bracket_token (c ∷ d ∷ s) i =
      if is_digit d || d == b'-'
      then (simple t_l_bracket (codes "[") i, 1)
      else glob_token (c ∷ d ∷ s) i
  bracket_token s i = glob_token s i

  unfoldable pub dot_token : Bytes → ℕ → Taken
  dot_token (c ∷ d ∷ s) i =
      if d == b'.' then (simple t_dot_dot (codes "..") i, 2) else (simple t_dot (codes ".") i, 1)
  dot_token s i = (simple t_dot (codes ".") i, 1)

  unfoldable pub slash_token : Bool → Bytes → ℕ → Taken
  unfolding scan_regex glob_token
  slash_token in_val s i =
      if in_val
      then elim (scan_regex (drop 1 s)) [
        | some n ↦ (simple t_star (take (suc n) s) i, suc n)
        | none ↦ glob_token s i
      ]
      else glob_token s i

  unfoldable pub cmp_token : Bool → Bytes → ℕ → Taken
  unfolding is_digit is_ident_start glob_token
  cmp_token in_val (c ∷ d ∷ s) i =
      if in_val && (d == b'=' || is_digit d || is_ident_start d)
      then (if d == b'=' then (simple t_cmp (c ∷ d ∷ []) i, 2) else (simple t_cmp (c ∷ []) i, 1))
      else glob_token (c ∷ d ∷ s) i
  cmp_token in_val s i = glob_token s i

  unfoldable pub opens_term : ℕ → Bool
  unfolding is_ident_start
  opens_term d = is_ident_start d || d == b'(' || d == b'@' || d == b'"'

  unfoldable pub bang_token : Bytes → ℕ → Taken
  unfolding opens_term glob_token
  bang_token (c ∷ d ∷ s) i =
      if opens_term d then (simple t_dash (codes "!") i, 1) else glob_token (c ∷ d ∷ s) i
  bang_token s i = (simple t_dash (codes "!") i, 1)

  unfoldable pub dash_token : Bool → Bytes → ℕ → Taken
  unfolding is_digit opens_term glob_token number_token is_digit_or_dot run_of
  dash_token in_val (c ∷ d ∷ s) i =
      if is_digit d && in_val
      then number_token (c ∷ d ∷ s) (suc (run_of is_digit_or_dot (d ∷ s))) i
      else if opens_term d
      then (simple t_dash (codes "-") i, 1)
      else glob_token (c ∷ d ∷ s) i
  dash_token in_val s i = (simple t_dash (codes "-") i, 1)

  unfoldable pub string_token : Bytes → ℕ → Taken
  unfolding quoted flush_lit
  string_token s i =
      let q = quoted start_quoted (drop 1 s) in
      (
        record {
          kind = t_string;
          text = q.text;
          num = zero_float;
          pos = i;
          parts = if q.saw_wild then some (flush_lit q.segment q.parts) else none;
        },
        suc q.used,
      )

  unfoldable pub keyword : Bytes → TokKind
  unfolding is_ident
  keyword word =
      if str_eq word (codes "AND") || str_eq word (codes "and")
      then t_and
      else if str_eq word (codes "OR") || str_eq word (codes "or")
      then t_or
      else if str_eq word (codes "NOT") || str_eq word (codes "not")
      then t_not
      else if is_ident unicode word
      then t_ident
      else t_star

  unfoldable pub word_token : Bool → Bytes → ℕ → Taken
  unfolding word_run keyword
  word_token in_val s i = let n = word_run in_val s in (simple (keyword (take n s)) (take n s) i, n)

  -- One round at a text that is not empty, `c` its first byte; the bytes `/` and `\` are 47 and 92.
  unfoldable pub next_token : Bool → ℕ → Bytes → ℕ → Taken
  next_token in_val c s i =
      if is_space c
      then (simple t_and (codes " ") i, run_of is_space s)
      else if c == b'('
      then (simple t_l_paren (codes "(") i, 1)
      else if c == b')'
      then (simple t_r_paren (codes ")") i, 1)
      else if c == b':'
      then (simple t_colon (codes ":") i, 1)
      else if c == b'@'
      then (simple t_at (codes "@") i, 1)
      else if c == b'['
      then bracket_token s i
      else if c == b']'
      then (simple t_r_bracket (codes "]") i, 1)
      else if c == b'.'
      then dot_token s i
      else if c == b'/'
      then slash_token in_val s i
      else if c == b'>' || c == b'<'
      then cmp_token in_val s i
      else if c == b'!'
      then bang_token s i
      else if c == b'-'
      then dash_token in_val s i
      else if c == b'"'
      then string_token s i
      else if is_digit c
      then number_token s (number_run s) i
      else word_token in_val s i

  -- The loop; `back` are the tokens so far, the last one first. `none` is out of fuel.
  unfoldable pub token_loop : ℕ → List (Token Float) → Bytes → ℕ → Option (List (Token Float))
  token_loop fuel back [] i = some (reverse back)
  token_loop zero back (c ∷ s) i = none
  token_loop (suc fuel) back (c ∷ s) i =
      let (t, n) = next_token (expecting_back back) c (c ∷ s) i in
      token_loop fuel (t ∷ back) (drop n (c ∷ s)) (i + n)

  unfoldable pub keeps_and : Option (Token Float) → List (Token Float) → Bool
  unfolding is_closer is_opener
  keeps_and none rest = false
  keeps_and (some prev) [] = false
  keeps_and (some prev) (next ∷ rest) = is_closer prev.kind && is_opener next.kind

  -- The second loop; `prev` is the last token kept. It writes behind where it reads.
  unfoldable pub drop_synthetic : Option (Token Float) → List (Token Float) → List (Token Float)
  unfolding is_synthetic keeps_and
  drop_synthetic prev [] = []
  drop_synthetic prev (t ∷ toks) = elim (is_synthetic t && not (keeps_and prev toks)) [
    | true ↦ drop_synthetic prev toks
    | false ↦ t ∷ drop_synthetic (some t) toks
  ]

  unfoldable pub tokenize : Bytes → Option (List (Token Float))
  tokenize s = elim (token_loop (length s) [] s 0) [
    | none ↦ none
    | some toks ↦ some (drop_synthetic none toks)
  ]
