-- ===== src/Filter/Parser/Fuel.antt =====
-- The fuel of the parser: every parser of the block leaves less than it was given, so four levels of
-- calls for each token, and four more, are enough.
use loggi.Prelude.{
  ℕ, zero, suc, ◌+◌, ◌*◌, ◌≤◌, ◌≡◌, ◌≢◌, refl, ◌||◌, [], ◌∷◌, ◌⊎◌, inl, inr, Bool-cases, arith,
  if_cases, length, is_empty,
}
use loggi.Text.{Bytes}
use loggi.Filter.Ast.{or_node, and_node}
use loggi.Filter.Reader.{Library}
use loggi.Filter.Token.{Unicode, is_and, is_opener}
use loggi.Filter.Tokenize.Progress.{tokenize_total}
use loggi.Filter.Term.{out_of_fuel, Tokens, Expr}
use loggi.Filter.Term.Progress.{Ends, Ends-bind, Ends-mono, left, Leaves, parse_term-Leaves}
use loggi.Filter.Parser.{
  AndStep, stop, operand, is_or, is_l_paren, is_r_paren, is_negation, after_and, and_step,
  close_paren, parse_or, or_loop, parse_and, and_loop, parse_not, parse_atom, all_read,
  parse_tokens, parse,
}

module _ (lib : Library) where
  open lib use {Float}

  -- What a step of the loop of parseAnd leaves is no longer than what it was given.
  abbrev Within : ℕ → AndStep Float → Type 0
  Within n (stop rest) = length rest ≤ n
  Within n (operand rest) = length rest ≤ n

  after_and-Within : (toks : Tokens lib) → Within (length toks) (after_and lib toks)
  unfolding after_and
  after_and-Within [] = omega arith
  after_and-Within (t ∷ toks) =
      if_cases (Within (suc (length toks))) (is_or t.kind || is_r_paren t.kind) _ _
        (λ _. omega arith) λ _. omega arith

  Within-mono : (n : ℕ) (r : AndStep Float) → Within n r → Within (suc n) r
  Within-mono n (stop rest) h = omega arith
  Within-mono n (operand rest) h = omega arith

  and_step-Within : (toks : Tokens lib) → Within (length toks) (and_step lib toks)
  unfolding and_step
  and_step-Within [] = omega arith
  and_step-Within (t ∷ toks) =
      if_cases (Within (suc (length toks))) (is_and t.kind) _ _
        (λ _. Within-mono (length toks) (after_and lib toks) (after_and-Within toks))
        λ _.
          if_cases (Within (suc (length toks))) (is_opener t.kind) _ _ (λ _. omega arith)
            λ _. omega arith

  AndStep-cases :
      (r : AndStep Float)
      → ((rest : Tokens lib) × (r ≡ stop rest)) ⊎ ((rest : Tokens lib) × (r ≡ operand rest))
  AndStep-cases (stop rest) = inl (rest, refl)
  AndStep-cases (operand rest) = inr (rest, refl)

  close_paren-Leaves : (r : Expr lib × Tokens lib) → Leaves lib (length r.1) (close_paren lib r)
  unfolding close_paren
  close_paren-Leaves (n, []) = tt
  close_paren-Leaves (n, t ∷ toks) =
      if_cases (Leaves lib (suc (length toks))) (is_r_paren t.kind) _ _ (λ _. omega arith) λ _. tt

  mutual
    unfolding parse_or

    parse_or-Leaves :
        (f : ℕ) (toks : Tokens lib)
        → 4 * length toks + 4 ≤ f
        → Leaves lib (length toks) (parse_or lib f toks)
    parse_or-Leaves zero toks h = absurd (omega arith)
    parse_or-Leaves (suc f) toks h =
        Ends-bind (left lib) (left lib) (length toks) (length toks) (parse_and lib f toks) _
          (parse_and-Leaves f toks (omega arith))
          λ l k.
            Ends-mono (left lib) (suc (length l.1)) (length toks) (or_loop lib f l.0 l.1)
              (omega arith) (or_loop-Leaves f l.0 l.1 (omega arith))

    or_loop-Leaves :
        (f : ℕ) (n : Expr lib) (toks : Tokens lib)
        → 4 * length toks + 1 ≤ f
        → Leaves lib (suc (length toks)) (or_loop lib f n toks)
    or_loop-Leaves zero n toks h = absurd (omega arith)
    or_loop-Leaves (suc f) n [] h = omega arith
    or_loop-Leaves (suc f) n (t ∷ toks) h = elim (Bool-cases (is_or t.kind)) [
      | inl e ↦
          rw (e, or_loop)
            (Ends-bind (left lib) (left lib) (length toks) (suc (suc (length toks)))
              (parse_and lib f toks) _ (parse_and-Leaves f toks (omega arith))
              λ r k.
                Ends-mono (left lib) (suc (length r.1)) (suc (suc (length toks)))
                  (or_loop lib f (or_node n r.0) r.1) (omega arith)
                  (or_loop-Leaves f (or_node n r.0) r.1 (omega arith)))
      | inr e ↦ rw (e, or_loop) (omega arith)
    ]

    parse_and-Leaves :
        (f : ℕ) (toks : Tokens lib)
        → 4 * length toks + 3 ≤ f
        → Leaves lib (length toks) (parse_and lib f toks)
    parse_and-Leaves zero toks h = absurd (omega arith)
    parse_and-Leaves (suc f) toks h =
        Ends-bind (left lib) (left lib) (length toks) (length toks) (parse_not lib f toks) _
          (parse_not-Leaves f toks (omega arith))
          λ l k.
            Ends-mono (left lib) (suc (length l.1)) (length toks) (and_loop lib f l.0 l.1)
              (omega arith) (and_loop-Leaves f l.0 l.1 (omega arith))

    and_loop-Leaves :
        (f : ℕ) (n : Expr lib) (toks : Tokens lib)
        → 4 * length toks + 3 ≤ f
        → Leaves lib (suc (length toks)) (and_loop lib f n toks)
    and_loop-Leaves zero n toks h = absurd (omega arith)
    and_loop-Leaves (suc f) n toks h = elim (AndStep-cases (and_step lib toks)) [
      | inl (rest, e) ↦
          let within : Within (length toks) (stop rest) = rw e at (and_step-Within toks) in
          rw (e, and_loop) (omega arith)
      | inr (rest, e) ↦
          let within : Within (length toks) (operand rest) = rw e at (and_step-Within toks) in
          rw (e, and_loop)
            (Ends-bind (left lib) (left lib) (length rest) (suc (length toks))
              (parse_not lib f rest) _ (parse_not-Leaves f rest (omega arith))
              λ r k.
                Ends-mono (left lib) (suc (length r.1)) (suc (length toks))
                  (and_loop lib f (and_node n r.0) r.1) (omega arith)
                  (and_loop-Leaves f (and_node n r.0) r.1 (omega arith)))
    ]

    parse_not-Leaves :
        (f : ℕ) (toks : Tokens lib)
        → 4 * length toks + 2 ≤ f
        → Leaves lib (length toks) (parse_not lib f toks)
    parse_not-Leaves zero toks h = absurd (omega arith)
    parse_not-Leaves (suc f) [] h = tt
    parse_not-Leaves (suc f) (t ∷ toks) h = elim (Bool-cases (is_negation t.kind)) [
      | inl e ↦
          rw (e, parse_not)
            (Ends-bind (left lib) (left lib) (length toks) (suc (length toks))
              (parse_atom lib f toks) _ (parse_atom-Leaves f toks (omega arith)) λ x k. omega arith)
      | inr e ↦ rw (e, parse_not) (parse_atom-Leaves f (t ∷ toks) (omega arith))
    ]

    parse_atom-Leaves :
        (f : ℕ) (toks : Tokens lib)
        → 4 * length toks + 1 ≤ f
        → Leaves lib (length toks) (parse_atom lib f toks)
    parse_atom-Leaves zero toks h = absurd (omega arith)
    parse_atom-Leaves (suc f) [] h = tt
    parse_atom-Leaves (suc f) (t ∷ toks) h = elim (Bool-cases (is_l_paren t.kind)) [
      | inl e ↦
          rw (e, parse_atom)
            (Ends-bind (left lib) (left lib) (length toks) (suc (length toks)) (parse_or lib f toks)
              _ (parse_or-Leaves f toks (omega arith))
              λ r k.
                Ends-mono (left lib) (length r.1) (suc (length toks)) (close_paren lib r)
                  (omega arith) (close_paren-Leaves r))
      | inr e ↦ rw (e, parse_atom) (parse_term-Leaves lib t toks)
    ]

  all_read-Ends : (r : Expr lib × Tokens lib) → Ends (λ _. 0) 1 (all_read lib r)
  unfolding all_read
  all_read-Ends (n, []) = omega arith
  all_read-Ends (n, t ∷ toks) = tt

  pub parse_tokens-Ends : (toks : Tokens lib) → Ends (λ _. 0) 1 (parse_tokens lib toks)
  unfolding parse_tokens
  parse_tokens-Ends toks =
      Ends-bind (left lib) (λ _. 0) (length toks) 1 (parse_or lib (4 * length toks + 4) toks)
        (all_read lib) (parse_or-Leaves (4 * length toks + 4) toks (omega arith))
        λ r k. all_read-Ends r

  parse-Ends : (unicode : Unicode) (s : Bytes) → Ends (λ _. 0) 1 (parse lib unicode s)
  unfolding parse
  parse-Ends unicode s =
      let (toks, e) = tokenize_total lib unicode (Library.trim_space lib s) in
      if_cases (Ends (λ _. 0) 1) (is_empty (Library.trim_space lib s)) _ _ (λ _. omega arith)
        λ _. rw e (parse_tokens-Ends toks)

  -- The parser gives a filter or an error for every text: neither the tokenizer nor the descent runs
  -- out of fuel.
  pub parse_total : (unicode : Unicode) (s : Bytes) → parse lib unicode s ≢ out_of_fuel
  parse_total unicode s e = rw e at (parse-Ends unicode s)
