-- ===== src/Text/Search.antt =====
-- Byte strings as lists of numbers: the literals, and HasPrefix, Index, Contains and Trim of Go's
-- package strings.
use Prim.Native.Char.{code}
use Prim.Native.String.{String}
use loggi.Prelude.{
  Eq, nat_eq, list_beq, list_beq_iff, ◌↔◌, inl, inr, Bool-cases, Option-cases, ℕ, suc, ◌≡◌, refl,
  sym, ap, ◌∙◌, Bool, true, false, ◌&&◌, ◌||◌, Option, none, some, List, [], ◌∷◌, ◌++◌,
  append_assoc, reverse, arith, ◌==◌, ltb, if◌then◌else◌, length, drop, drop-append,
  drop-append_self, length-append,
}

abbrev pub Bytes : Type 0
Bytes = List ℕ

-- The bytes of an ASCII literal.
abbrev pub codes : String → Bytes
codes String.[] = []
codes (String.◌∷◌ c s) = code c ∷ codes s

-- `==` on Go's strings.
unfoldable pub str_eq : Bytes → Bytes → Bool
str_eq s t = list_beq s t

pub str_eq_iff : (s t : Bytes) → (str_eq s t ≡ true) ↔ (s ≡ t)
unfolding str_eq
str_eq_iff s t = list_beq_iff s t

instance abbrev pub bytes_eq : Eq Bytes
bytes_eq = record { beq = str_eq; beq_iff = str_eq_iff }

-- strings.HasPrefix
unfoldable pub has_prefix : Bytes → Bytes → Bool
has_prefix s [] = true
has_prefix [] (c ∷ l) = false
has_prefix (d ∷ s) (c ∷ l) = d == c && has_prefix s l

-- strings.Index, with `none` for -1.
unfoldable pub index : Bytes → Bytes → Option ℕ
unfolding has_prefix
index [] l = if has_prefix [] l then some 0 else none
index (c ∷ s) l = elim (has_prefix (c ∷ s) l) [
  | true ↦ some 0
  | false ↦ elim (index s l) [ none ↦ none | some i ↦ some (suc i) ]
]

-- strings.Contains
unfoldable pub contains : Bytes → Bytes → Bool
unfolding index
contains s l = elim (index s l) [ none ↦ false | some _ ↦ true ]

unfoldable pub trim_left : ℕ → Bytes → Bytes
trim_left c [] = []
trim_left c (d ∷ s) = if d == c then trim_left c s else d ∷ s

-- strings.Trim with a cut set of one byte.
unfoldable pub trim : ℕ → Bytes → Bytes
unfolding trim_left
trim c s = reverse (trim_left c (reverse (trim_left c s)))

pub has_prefix-append : (l r : Bytes) → has_prefix (l ++ r) l ≡ true
unfolding has_prefix
has_prefix-append [] r = refl
has_prefix-append (c ∷ l) r = ground (arith, has_prefix-append l r)

pub eq_of_has_prefix : (s l : Bytes) → has_prefix s l ≡ true → s ≡ l ++ drop (length l) s
unfolding has_prefix
eq_of_has_prefix s [] h = refl
eq_of_has_prefix [] (c ∷ l) h = cc
eq_of_has_prefix (d ∷ s) (c ∷ l) h = ground (arith, eq_of_has_prefix s l)

-- Where `index` finds the text, the text stands.
pub eq_of_index :
    (s l : Bytes) (i : ℕ) → index s l ≡ some i → drop i s ≡ l ++ drop (length l) (drop i s)
unfolding index
eq_of_index [] [] i h = let e : i ≡ 0 = ground arith in rw e refl
eq_of_index [] (c ∷ l) i h = cc
eq_of_index (c ∷ s) l i h = elim (Bool-cases (has_prefix (c ∷ s) l)) [
  | inl p ↦ let e : i ≡ 0 = ground arith in rw e (eq_of_has_prefix (c ∷ s) l p)
  | inr p ↦ elim (Option-cases (index s l)) [
    | inl q ↦ absurd (ground arith)
    | inr (j, q) ↦ let e : i ≡ suc j = ground arith in rw e (eq_of_index s l j q)
  ]
]

-- `index` finds a text that stands in the string, and no later than it stands.
pub index_leftmost :
    (a l r : Bytes)
    → (i : ℕ) × (b : Bytes) × (index (a ++ (l ++ r)) l ≡ some i)
      × (drop (length l) (drop i (a ++ (l ++ r))) ≡ b ++ r)
unfolding index
index_leftmost [] [] [] = (0, [], refl, refl)
index_leftmost [] [] (c ∷ r) = (0, [], refl, refl)
index_leftmost [] (c ∷ l) r =
    (0, [], ground (arith, has_prefix-append (c ∷ l) r), drop-append_self (c ∷ l) r)
index_leftmost (c ∷ a) l r = elim (Bool-cases (has_prefix (c ∷ (a ++ (l ++ r))) l)) [
  | inl p ↦ (
    0,
    drop (length l) ((c ∷ a) ++ l),
    ground arith,
    ap (drop (length l)) (sym (append_assoc (c ∷ a) l r))
        ∙ drop-append (length l) ((c ∷ a) ++ l) r (omega (arith, length-append (c ∷ a) l)),
  )
  | inr p ↦
      let (i, b, found, rest) = index_leftmost a l r in (suc i, b, ground (arith, found), rest)
]

-- Go's `<` on strings.
unfoldable pub bytes_lt : Bytes → Bytes → Bool
bytes_lt s [] = false
bytes_lt [] (d ∷ t) = true
bytes_lt (c ∷ s) (d ∷ t) = ltb c d || c == d && bytes_lt s t
