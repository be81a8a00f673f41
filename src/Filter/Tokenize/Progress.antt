-- ===== src/Filter/Tokenize/Progress.antt =====
-- Each round of the tokenizer takes at least one byte, so its loop ends.
use loggi.Prelude.{
  ℕ, zero, suc, ◌+◌, ◌≤◌, ◌<◌, ◌≡◌, refl, Bool, true, false, ◌||◌, none, some, List, [], ◌∷◌, ◌==◌,
  arith, if_cases, length, length-drop, drop, reverse,
}
use loggi.Text.{Bytes}
use loggi.Filter.Reader.{Library}
use loggi.Filter.Token.{Token, Unicode, is_space, is_digit, is_delim, expecting_back}
use loggi.Filter.Tokenize.{
  run_of, number_run, word_run, number_token, glob_token, bracket_token, dot_token, slash_token,
  cmp_token, bang_token, dash_token, string_token, word_token, next_token, token_loop,
  drop_synthetic, tokenize,
}

number_run_pos : (c : ℕ) (s : Bytes) → is_digit c ≡ true → 0 < number_run (c ∷ s)
unfolding number_run
number_run_pos c [] h = ground arith
number_run_pos c (d ∷ s) h = ground arith

word_run_pos :
    (in_val : Bool) (c : ℕ) (s : Bytes)
    → is_space c ≡ false
    → is_delim c ≡ false
    → 0 < word_run in_val (c ∷ s)
unfolding word_run
word_run_pos in_val c [] h k = ground arith
word_run_pos in_val c (d ∷ s) h k = ground arith

space_run_pos : (c : ℕ) (s : Bytes) → is_space c ≡ true → 0 < run_of is_space (c ∷ s)
unfolding run_of
space_run_pos c s h = ground arith

module _ (lib : Library) (unicode : Unicode) where
  open lib use {Float}

  glob_token_pos : (c : ℕ) (s : Bytes) (i : ℕ) → 0 < (glob_token lib unicode (c ∷ s) i).1
  unfolding glob_token
  glob_token_pos c s i = omega arith

  bracket_token_pos : (c : ℕ) (s : Bytes) (i : ℕ) → 0 < (bracket_token lib unicode (c ∷ s) i).1
  unfolding bracket_token
  bracket_token_pos c [] i = glob_token_pos c [] i
  bracket_token_pos c (d ∷ s) i = ground (arith, glob_token_pos c (d ∷ s) i)

  dot_token_pos : (c : ℕ) (s : Bytes) (i : ℕ) → 0 < (dot_token lib unicode (c ∷ s) i).1
  unfolding dot_token
  dot_token_pos c [] i = omega arith
  dot_token_pos c (d ∷ s) i = ground arith

  slash_token_pos :
      (in_val : Bool) (c : ℕ) (s : Bytes) (i : ℕ) → 0 < (slash_token lib unicode in_val (c ∷ s) i).1
  unfolding slash_token
  slash_token_pos in_val c s i = ground (arith, glob_token_pos c s i)

  cmp_token_pos :
      (in_val : Bool) (c : ℕ) (s : Bytes) (i : ℕ) → 0 < (cmp_token lib unicode in_val (c ∷ s) i).1
  unfolding cmp_token
  cmp_token_pos in_val c [] i = glob_token_pos c [] i
  cmp_token_pos in_val c (d ∷ s) i = ground (arith, glob_token_pos c (d ∷ s) i)

  bang_token_pos : (c : ℕ) (s : Bytes) (i : ℕ) → 0 < (bang_token lib unicode (c ∷ s) i).1
  unfolding bang_token
  bang_token_pos c [] i = omega arith
  bang_token_pos c (d ∷ s) i = ground (arith, glob_token_pos c (d ∷ s) i)

  dash_token_pos :
      (in_val : Bool) (c : ℕ) (s : Bytes) (i : ℕ) → 0 < (dash_token lib unicode in_val (c ∷ s) i).1
  unfolding dash_token
  dash_token_pos in_val c [] i = omega arith
  dash_token_pos in_val c (d ∷ s) i = ground (arith, glob_token_pos c (d ∷ s) i)

  string_token_pos : (s : Bytes) (i : ℕ) → 0 < (string_token lib unicode s i).1
  unfolding string_token
  string_token_pos s i = omega arith

  -- A byte that no branch above the last one takes is neither a space nor a delimiter.
  word_token_pos :
      (in_val : Bool) (c : ℕ) (s : Bytes) (i : ℕ)
      → is_space c ≡ false
      → is_delim c ≡ false
      → 0 < (word_token lib unicode in_val (c ∷ s) i).1
  unfolding word_token
  word_token_pos in_val c s i h k = word_run_pos in_val c s h k

  abbrev TookSome : Token Float × ℕ → Type 0
  TookSome t = 0 < t.1

  pub next_token_pos :
      (in_val : Bool) (c : ℕ) (s : Bytes) (i : ℕ)
      → 0 < (next_token lib unicode in_val c (c ∷ s) i).1
  unfolding next_token is_delim number_token
  next_token_pos in_val c s i = if_cases TookSome (is_space c) _ _ (space_run_pos c s) λ space.
      if_cases TookSome (c == b'(') _ _ (λ _. omega arith)
        λ l_paren.
          if_cases TookSome (c == b')') _ _ (λ _. omega arith)
            λ r_paren.
              if_cases TookSome (c == b':') _ _ (λ _. omega arith)
                λ colon.
                  if_cases TookSome (c == b'@') _ _ (λ _. omega arith)
                    λ at.
                      if_cases TookSome (c == b'[') _ _ (λ _. bracket_token_pos c s i)
                        λ l_bracket.
                          if_cases TookSome (c == b']') _ _ (λ _. omega arith)
                            λ r_bracket.
                              if_cases TookSome (c == b'.') _ _ (λ _. dot_token_pos c s i)
                                λ dot.
                                  if_cases TookSome (c == b'/') _ _
                                    (λ _. slash_token_pos in_val c s i)
                                    λ slash.
                                      if_cases TookSome (c == b'>' || c == b'<') _ _
                                        (λ _. cmp_token_pos in_val c s i)
                                        λ cmp.
                                          if_cases TookSome (c == b'!') _ _
                                            (λ _. bang_token_pos c s i)
                                            λ bang.
                                              if_cases TookSome (c == b'-') _ _
                                                (λ _. dash_token_pos in_val c s i)
                                                λ dash.
                                                  if_cases TookSome (c == b'"') _ _
                                                    (λ _. string_token_pos (c ∷ s) i)
                                                    λ quote.
                                                      if_cases TookSome (is_digit c) _ _
                                                        (number_run_pos c s)
                                                        λ digit.
                                                          word_token_pos in_val c s i space
                                                            (ground arith)

  -- With as much fuel as there are bytes left the loop ends.
  token_loop_total :
      (fuel : ℕ) (back : List (Token Float)) (s : Bytes) (i : ℕ)
      → length s ≤ fuel
      → (toks : List (Token Float)) × (token_loop lib unicode fuel back s i ≡ some toks)
  unfolding token_loop
  token_loop_total fuel back [] i h = (reverse back, refl)
  token_loop_total zero back (c ∷ s) i h = absurd (omega arith)
  token_loop_total (suc fuel) back (c ∷ s) i h =
      let (t, n) = next_token lib unicode (expecting_back back) c (c ∷ s) i in
      token_loop_total fuel (t ∷ back) (drop n (c ∷ s)) (i + n)
        (omega (arith, length-drop n (c ∷ s), next_token_pos (expecting_back back) c s i))

  -- The tokenizer gives tokens for every text: its loop ends, since each round takes a byte or more.
  pub tokenize_total :
      (s : Bytes) → (toks : List (Token Float)) × (tokenize lib unicode s ≡ some toks)
  unfolding tokenize
  tokenize_total s =
      let (toks, e) = token_loop_total (length s) [] s 0 (omega arith) in
      (drop_synthetic lib unicode none toks, rw (e, tokenize) refl)
