-- ===== src/Server/Ansi/Stripped.antt =====
-- internal/server/ansi.go: what stripANSI removes and what it leaves.
use loggi.Prelude.{
  ℕ, zero, suc, ◌≤◌, ◌≡◌, ◌≢◌, refl, ap, ◌∙◌, true, false, inl, inr, Option, Option-cases, none,
  some, [], ◌∷◌, ◌++◌, ◌==◌, if_cases, length, All, arith,
}
use mathlib.Core.Option.{some-injective}
use loggi.Server.Ansi.{
  esc, bel, after_backslash, after_terminator, is_final, skip_csi, skip_osc, escaped,
  after_introducer, strip_loop, strip_ansi,
}
use loggi.Text.{Bytes}

skip_csi-le : (s : Bytes) → length (skip_csi s) ≤ length s
unfolding skip_csi
skip_csi-le [] = omega arith
skip_csi-le (c ∷ s) =
    elim (is_final c) as (λ b. length (elim b [ true ↦ s | false ↦ skip_csi s ]) ≤ suc (length s)) [
      | true ↦ omega arith
      | false ↦ omega (arith, skip_csi-le s)
    ]

after_backslash-le : (s rest : Bytes) → after_backslash s ≡ some rest → length rest ≤ length s
after_backslash-le [] rest e = cc
after_backslash-le (c ∷ s) rest e = ground (arith, e)

skip_osc-le : (s : Bytes) → length (skip_osc s) ≤ length s
unfolding skip_osc
skip_osc-le [] = omega arith
skip_osc-le (c ∷ s) =
    let rest_le : (o : Option Bytes)
        → ((rest : Bytes) → o ≡ some rest → length rest ≤ length s)
        → length (elim o [ some rest ↦ rest | none ↦ skip_osc s ]) ≤ suc (length s) =
      λ o h.
        elim o
            as (λ o.
              ((rest : Bytes) → o ≡ some rest → length rest ≤ length s)
              → length (elim o [ some rest ↦ rest | none ↦ skip_osc s ]) ≤ suc (length s)) [
                | some rest ↦ λ h. omega (arith, h rest refl)
                | none ↦ λ h. omega (arith, skip_osc-le s)
              ]
          h in
    elim (c == bel)
      as (λ b.
        length (elim b [
          | true ↦ s
          | false ↦ elim (after_terminator c s) [ some rest ↦ rest | none ↦ skip_osc s ]
        ])
        ≤ suc (length s)) [
          | true ↦ omega arith
          | false ↦ rest_le (after_terminator c s) (
              if_cases (λ o. (rest : Bytes) → o ≡ some rest → length rest ≤ length s) (c == esc) _ _
                (λ _. after_backslash-le s) (λ _ rest e. cc))
        ]

after_introducer-le : (s rest : Bytes) → after_introducer s ≡ some rest → length rest ≤ length s
unfolding after_introducer
after_introducer-le [] rest = λ e. cc
after_introducer-le (d ∷ s) rest =
    if_cases (λ o. o ≡ some rest → length rest ≤ suc (length s)) (d == b'[') _ _
      (λ _ e. omega (arith, skip_csi-le s, ap length (some-injective _ _ e)))
      (λ _.
        if_cases (λ o. o ≡ some rest → length rest ≤ suc (length s)) (d == b']') _ _
          (λ _ e. omega (arith, skip_osc-le s, ap length (some-injective _ _ e))) (λ _ e. cc))

-- An escape sequence takes a byte or more.
escaped-le : (c : ℕ) (s rest : Bytes) → escaped c s ≡ some rest → length rest ≤ length s
unfolding escaped
escaped-le c s rest =
    if_cases (λ o. o ≡ some rest → length rest ≤ length s) (c == esc) _ _
      (λ _. after_introducer-le s rest) (λ _ e. cc)

-- Any fuel that is at least the length gives the same text.
strip_loop-fuel :
    (n m : ℕ) (s : Bytes) → length s ≤ n → length s ≤ m → strip_loop n s ≡ strip_loop m s
unfolding strip_loop
strip_loop-fuel zero zero [] h k = refl
strip_loop-fuel zero (suc m) [] h k = refl
strip_loop-fuel (suc n) zero [] h k = refl
strip_loop-fuel (suc n) (suc m) [] h k = refl
strip_loop-fuel zero m (c ∷ s) h k = absurd (omega arith)
strip_loop-fuel (suc n) zero (c ∷ s) h k = absurd (omega arith)
strip_loop-fuel (suc n) (suc m) (c ∷ s) h k = elim (Option-cases (escaped c s)) [
  | inl no_escape ↦
      rw (no_escape, strip_loop) (ap (◌∷◌ c) (strip_loop-fuel n m s (omega arith) (omega arith)))
  | inr (rest, e) ↦
      let shorter = escaped-le c s rest e in
      rw (e, strip_loop)
        (strip_loop-fuel n m rest (omega (arith, shorter)) (omega (arith, shorter)))
]

-- The text that is left.
abbrev pub stripped : Bytes → Bytes
stripped s = (strip_ansi s).1

stripped-escaped :
    (c : ℕ) (s rest : Bytes) → escaped c s ≡ some rest → stripped (c ∷ s) ≡ stripped rest
unfolding strip_ansi strip_loop
stripped-escaped c s rest e =
    rw (e, strip_loop)
      (strip_loop-fuel (length s) (length rest) rest (escaped-le c s rest e) (omega arith))

stripped-other : (c : ℕ) (s : Bytes) → escaped c s ≡ none → stripped (c ∷ s) ≡ c ∷ stripped s
unfolding strip_ansi strip_loop
stripped-other c s e = rw (e, strip_loop) refl

-- Bytes without ESC stay in front of what is left of the rest.
stripped-append : (p s : Bytes) → All (λ c. c ≢ esc) p → stripped (p ++ s) ≡ p ++ stripped s
unfolding escaped
stripped-append [] s h = refl
stripped-append (c ∷ p) s (ne, h) =
    let not_esc : (c == esc) ≡ false = ground arith in
    stripped-other c (p ++ s) (rw (not_esc, escaped) refl) ∙ ap (◌∷◌ c) (stripped-append p s h)

stripped_nil : stripped [] ≡ []
unfolding strip_ansi strip_loop
stripped_nil = refl

-- Bytes without ESC are left as they are.
stripped_plain : (s : Bytes) → All (λ c. c ≢ esc) s → stripped s ≡ s
unfolding escaped
stripped_plain [] h = stripped_nil
stripped_plain (c ∷ s) (ne, h) =
    let not_esc : (c == esc) ≡ false = ground arith in
    stripped-other c s (rw (not_esc, escaped) refl) ∙ ap (◌∷◌ c) (stripped_plain s h)

skip_csi-append :
    (params rest : Bytes) (f : ℕ)
    → All (λ c. is_final c ≡ false) params
    → is_final f ≡ true
    → skip_csi (params ++ (f ∷ rest)) ≡ rest
unfolding skip_csi
skip_csi-append [] rest f h final = rw (final, skip_csi) refl
skip_csi-append (c ∷ params) rest f (other, h) final =
    rw (other, skip_csi) (skip_csi-append params rest f h final)

-- A control sequence between bytes without ESC and any other text is removed, and only it: the bytes in
-- front of it stay, and what follows it is stripped as if it stood alone.
pub strip_ansi_lem :
    (p params rest : Bytes) (f : ℕ)
    → All (λ c. c ≢ esc) p
    → All (λ c. is_final c ≡ false) params
    → is_final f ≡ true
    → stripped (p ++ (esc ∷ b'[' ∷ (params ++ (f ∷ rest)))) ≡ p ++ stripped rest
unfolding escaped after_introducer
strip_ansi_lem p params rest f plain other final =
    stripped-append p (esc ∷ b'[' ∷ (params ++ (f ∷ rest))) plain
    ∙ ap (◌++◌ p) (
        stripped-escaped esc (b'[' ∷ (params ++ (f ∷ rest))) rest
          (ap some (skip_csi-append params rest f other final)))

-- An ESC in front of a control sequence hides the next one: of a text with two, what is left after
-- stripping begins with a control sequence again.
pub strip_ansi-nested :
    (rest : Bytes)
    → All (λ c. c ≢ esc) rest
    → stripped (esc ∷ esc ∷ b'[' ∷ b'm' ∷ b'[' ∷ rest) ≡ esc ∷ b'[' ∷ rest
unfolding escaped after_introducer skip_csi
strip_ansi-nested rest h =
    let inner : escaped esc (b'[' ∷ b'm' ∷ b'[' ∷ rest) ≡ some (b'[' ∷ rest) = refl in
    stripped-other esc (esc ∷ b'[' ∷ b'm' ∷ b'[' ∷ rest) refl
    ∙ ap (◌∷◌ esc) (
        stripped-escaped esc (b'[' ∷ b'm' ∷ b'[' ∷ rest) (b'[' ∷ rest) inner
        ∙ stripped_plain (b'[' ∷ rest) ((λ e. omega (arith, e)), h))
