-- ===== src/Filter/Term/Progress.antt =====
-- What a parser leaves is shorter than what it was given; the terms need no fuel.
use loggi.Prelude.{
  ℕ, suc, ◌≤◌, ◌<◌, Option, none, some, List, [], ◌∷◌, Option-cases, inl, inr, arith, if_cases,
  length, is_empty,
}
use loggi.Text.{Bytes, codes, contains, trim}
use loggi.Filter.Ast.{FieldPath, GlobPart}
use loggi.Filter.Reader.{Library}
use loggi.Filter.Token.{Token, TokKind}
use loggi.Filter.Term.{
  Parsed, ok, fail, out_of_fuel, ◌>>=◌, Tokens, Reads, more_segments, first_segment,
  parse_field_ref, number_at, expect_number, expect_dot_dot, expect_r_bracket, range_value,
  cmp_operand, cmp_value, regex_value, glob_value, star_value, string_value, value_of,
  parse_field_value, field_or_word, term_string, term_of, parse_term, is_kind_dot_dot,
  is_kind_r_bracket, is_kind_colon, split_regex_literal, compile_regex_literal,
}

-- A result that is an error, or smaller than the bound: fuel has not run out.
abbrev pub Ends : {A : Type 0} → (A → ℕ) → ℕ → Parsed A → Type 0
Ends size n (ok a) = size a < n
Ends size n (fail e) = Unit
Ends size n out_of_fuel = ⊥

pub Ends-bind :
    {A B : Type 0} (size : A → ℕ) (size' : B → ℕ) (n m : ℕ) (r : Parsed A) (f : A → Parsed B)
    → Ends size n r
    → ((a : A) → size a < n → Ends size' m (f a))
    → Ends size' m (r >>= f)
Ends-bind size size' n m (ok a) f h k = k a h
Ends-bind size size' n m (fail e) f h k = tt
Ends-bind size size' n m out_of_fuel f h k = h

pub Ends-mono :
    {A : Type 0} (size : A → ℕ) (n m : ℕ) (r : Parsed A) → n ≤ m → Ends size n r → Ends size m r
Ends-mono size n m (ok a) h k = omega arith
Ends-mono size n m (fail e) h k = tt
Ends-mono size n m out_of_fuel h k = k

module _ (lib : Library) where
  abbrev pub left : {A : Type 0} → A × Tokens lib → ℕ
  left r = length r.1

  abbrev pub Leaves : ℕ → Reads lib → Type 0
  Leaves n r = Ends left n r

  length-more_segments : (toks : Tokens lib) → length (more_segments lib toks).1 ≤ length toks
  unfolding more_segments
  length-more_segments [] = omega arith
  length-more_segments (d ∷ []) = omega arith
  length-more_segments (d ∷ s ∷ toks) = ground (arith, length-more_segments toks)

  length-first_segment : (toks : Tokens lib) → length (first_segment lib toks).1 ≤ length toks
  unfolding first_segment
  length-first_segment [] = omega arith
  length-first_segment (t ∷ toks) = ground (arith, length-more_segments toks)

  length-parse_field_ref : (toks : Tokens lib) → length (parse_field_ref lib toks).1 ≤ length toks
  unfolding parse_field_ref
  length-parse_field_ref [] = omega arith
  length-parse_field_ref (t ∷ toks) =
      ground (arith, length-first_segment toks, length-first_segment (t ∷ toks))

  number_at-Ends :
      (k : TokKind) (t : Token (Library.Float lib)) (toks : Tokens lib)
      → Ends left (suc (length toks)) (number_at lib k t toks)
  unfolding number_at
  number_at-Ends TokKind.t_number t toks = omega arith
  number_at-Ends _ t toks = tt

  expect_number-Ends : (toks : Tokens lib) → Ends left (length toks) (expect_number lib toks)
  unfolding expect_number
  expect_number-Ends [] = tt
  expect_number-Ends (t ∷ toks) = number_at-Ends t.kind t toks

  expect_dot_dot-Ends : (toks : Tokens lib) → Ends length (length toks) (expect_dot_dot lib toks)
  unfolding expect_dot_dot
  expect_dot_dot-Ends [] = tt
  expect_dot_dot-Ends (t ∷ toks) =
      if_cases (Ends length (length (t ∷ toks))) (is_kind_dot_dot lib t.kind) _ _ (λ _. omega arith)
        λ _. tt

  expect_r_bracket-Ends :
      (toks : Tokens lib) → Ends length (length toks) (expect_r_bracket lib toks)
  unfolding expect_r_bracket
  expect_r_bracket-Ends [] = tt
  expect_r_bracket-Ends (t ∷ toks) =
      if_cases (Ends length (length (t ∷ toks))) (is_kind_r_bracket lib t.kind) _ _
        (λ _. omega arith) λ _. tt

  range_value-Leaves :
      (path : FieldPath) (toks : Tokens lib)
      → Leaves (suc (length toks)) (range_value lib path toks)
  unfolding range_value
  range_value-Leaves path toks =
      Ends-bind left left (length toks) (suc (length toks)) (expect_number lib toks) _
        (expect_number-Ends toks)
        λ lo h.
          Ends-bind length left (length lo.1) (suc (length toks)) (expect_dot_dot lib lo.1) _
            (expect_dot_dot-Ends lo.1)
            λ more k.
              Ends-bind left left (length more) (suc (length toks)) (expect_number lib more) _
                (expect_number-Ends more)
                λ hi l.
                  Ends-bind length left (length hi.1) (suc (length toks))
                    (expect_r_bracket lib hi.1) _ (expect_r_bracket-Ends hi.1) λ rest m. omega arith

  cmp_operand-Leaves :
      (path : FieldPath) (op : Bytes) (k : TokKind) (t : Token (Library.Float lib))
      (toks : Tokens lib)
      → Leaves (suc (length toks)) (cmp_operand lib path op k t toks)
  unfolding cmp_operand
  cmp_operand-Leaves path op TokKind.t_number t toks = omega arith
  cmp_operand-Leaves path op TokKind.t_ident t toks = omega arith
  cmp_operand-Leaves path op TokKind.t_string t toks = omega arith
  cmp_operand-Leaves path op _ t toks = tt

  cmp_value-Leaves :
      (path : FieldPath) (op : Bytes) (toks : Tokens lib)
      → Leaves (suc (length toks)) (cmp_value lib path op toks)
  unfolding cmp_value
  cmp_value-Leaves path op [] = tt
  cmp_value-Leaves path op (t ∷ toks) =
      Ends-mono left (suc (length toks)) (suc (suc (length toks)))
        (cmp_operand lib path op t.kind t toks) (omega arith)
        (cmp_operand-Leaves path op t.kind t toks)

  regex_value-Leaves :
      (path : FieldPath) (literal : Bytes × Bytes) (toks : Tokens lib)
      → Leaves (suc (length toks)) (regex_value lib path literal toks)
  unfolding regex_value
  regex_value-Leaves path (pattern, flags) toks =
      elim (Option-cases (compile_regex_literal lib pattern flags)) [
        | inl e ↦ rw (e, regex_value) tt
        | inr (re, e) ↦ rw (e, regex_value) (omega arith)
      ]

  glob_value-Leaves :
      (path : FieldPath) (text : Bytes) (toks : Tokens lib)
      → Leaves (suc (length toks)) (glob_value lib path text toks)
  unfolding glob_value
  glob_value-Leaves path text toks =
      if_cases (Leaves (suc (length toks))) (is_empty (trim b'*' text)) _ _ (λ _. omega arith)
        λ _. omega arith

  star_value-Leaves :
      (path : FieldPath) (text : Bytes) (toks : Tokens lib)
      → Leaves (suc (length toks)) (star_value lib path text toks)
  unfolding star_value
  star_value-Leaves path text toks = elim (Option-cases (split_regex_literal text)) [
    | inr (literal, e) ↦ rw (e, star_value) (regex_value-Leaves path literal toks)
    | inl e ↦
        rw (e, star_value)
          (if_cases (Leaves (suc (length toks))) (contains text (codes "*")) _ _
            (λ _. glob_value-Leaves path text toks) λ _. omega arith)
  ]

  string_value-Leaves :
      (path : FieldPath) (text : Bytes) (parts : Option (List GlobPart)) (toks : Tokens lib)
      → Leaves (suc (length toks)) (string_value lib path text parts toks)
  unfolding string_value
  string_value-Leaves path text none toks = omega arith
  string_value-Leaves path text (some parts) toks = omega arith

  value_of-Leaves :
      (path : FieldPath) (k : TokKind) (t : Token (Library.Float lib)) (toks : Tokens lib)
      → Leaves (suc (length toks)) (value_of lib path k t toks)
  unfolding value_of
  value_of-Leaves path TokKind.t_l_bracket t toks = range_value-Leaves path toks
  value_of-Leaves path TokKind.t_cmp t toks = cmp_value-Leaves path t.text toks
  value_of-Leaves path TokKind.t_string t toks = string_value-Leaves path t.text t.parts toks
  value_of-Leaves path TokKind.t_star t toks = star_value-Leaves path t.text toks
  value_of-Leaves path TokKind.t_ident t toks = omega arith
  value_of-Leaves path TokKind.t_number t toks = omega arith
  value_of-Leaves path _ t toks = tt

  parse_field_value-Leaves :
      (path : FieldPath) (toks : Tokens lib)
      → Leaves (suc (length toks)) (parse_field_value lib path toks)
  unfolding parse_field_value
  parse_field_value-Leaves path [] = tt
  parse_field_value-Leaves path (t ∷ toks) =
      Ends-mono left (suc (length toks)) (suc (suc (length toks))) (value_of lib path t.kind t toks)
        (omega arith) (value_of-Leaves path t.kind t toks)

  field_or_word-Leaves :
      (t : Token (Library.Float lib)) (toks : Tokens lib) (field : FieldPath × Tokens lib)
      → length field.1 ≤ suc (length toks)
      → Leaves (suc (length toks)) (field_or_word lib t toks field)
  unfolding field_or_word
  field_or_word-Leaves t toks (path, []) h = omega arith
  field_or_word-Leaves t toks (path, next ∷ rest) h =
      if_cases (Leaves (suc (length toks))) (is_kind_colon lib next.kind) _ _
        (λ _.
          Ends-mono left (suc (length rest)) (suc (length toks)) (parse_field_value lib path rest)
            (omega arith) (parse_field_value-Leaves path rest))
        λ _. omega arith

  term_string-Leaves :
      (text : Bytes) (parts : Option (List GlobPart)) (toks : Tokens lib)
      → Leaves (suc (length toks)) (term_string lib text parts toks)
  unfolding term_string
  term_string-Leaves text none toks = omega arith
  term_string-Leaves text (some parts) toks = omega arith

  term_of-Leaves :
      (k : TokKind) (t : Token (Library.Float lib)) (toks : Tokens lib)
      → Leaves (suc (length toks)) (term_of lib k t toks)
  unfolding term_of
  term_of-Leaves TokKind.t_at t toks =
      field_or_word-Leaves t toks (parse_field_ref lib (t ∷ toks))
        (length-parse_field_ref (t ∷ toks))
  term_of-Leaves TokKind.t_ident t toks =
      field_or_word-Leaves t toks (parse_field_ref lib (t ∷ toks))
        (length-parse_field_ref (t ∷ toks))
  term_of-Leaves TokKind.t_string t toks = term_string-Leaves t.text t.parts toks
  term_of-Leaves TokKind.t_star t toks = omega arith
  term_of-Leaves TokKind.t_number t toks = omega arith
  term_of-Leaves _ t toks = tt

  pub parse_term-Leaves :
      (t : Token (Library.Float lib)) (toks : Tokens lib)
      → Leaves (suc (length toks)) (parse_term lib (t ∷ toks))
  unfolding parse_term
  parse_term-Leaves t toks = term_of-Leaves t.kind t toks
