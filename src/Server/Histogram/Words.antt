-- ===== src/Server/Histogram/Words.antt =====
-- The words of the levels that the histogram of internal/server/histogram.go counts together.
use loggi.Prelude.{
  ℕ, suc, ◌+◌, ◌-◌, ◌^◌, ◌<◌, ◌≡◌, refl, ap, ◌∙◌, Bool, true, false, not, ◌||◌, Bool-cases, inl,
  inr, List, [], ◌∷◌, ◌++◌, nat_eq, if◌then◌else◌, arith,
}
use loggi.Server.Histogram.{Cell, count_level}
use loggi.Store.Intern.{u32}
use loggi.Text.{Bytes, codes, str_eq, str_eq_iff}

-- The counts of a cell, and the words of each.
pub data Group : Type 0 where
  errors : Group
  warnings : Group
  infos : Group
  debugs : Group
  others : Group

abbrev pub count_of : Group → Cell → ℕ
count_of errors c = c.error
count_of warnings c = c.warn
count_of infos c = c.info
count_of debugs c = c.debug
count_of others c = c.other

abbrev pub words : Group → List Bytes
words errors = codes "error" ∷ codes "fatal" ∷ codes "panic" ∷ []
words warnings = codes "warn" ∷ codes "warning" ∷ []
words infos = codes "info" ∷ codes "notice" ∷ []
words debugs = codes "debug" ∷ codes "trace" ∷ []
words others = []

abbrev pub one_of : Bytes → List Bytes → Bool
one_of s [] = false
one_of s (w ∷ ws) = str_eq s w || one_of s ws

-- A level of the first four groups is one of their words; all else is of the last.
abbrev pub named : Group → Bytes → Bool
named others s = not (one_of s (words errors ++ words warnings ++ words infos ++ words debugs))
named g s = one_of s (words g)

abbrev pub total : Cell → ℕ
total c = c.error + c.warn + c.info + c.debug + c.other

abbrev shares : List Bytes → List Bytes → Bool
shares [] ws = false
shares (v ∷ vs) ws = one_of v ws || shares vs ws

-- A level is not in two lists of words that have none in common.
one_of-apart :
    (s : Bytes) (vs ws : List Bytes)
    → shares vs ws ≡ false
    → one_of s vs ≡ true
    → one_of s ws ≡ false
one_of-apart s [] ws h e = cc
one_of-apart s (v ∷ vs) ws h e = elim (Bool-cases (str_eq s v)) [
  | inl same ↦
      let eq : s ≡ v = (str_eq_iff s v).0 same in ap (λ x. one_of x ws) eq ∙ ground (arith, h)
  | inr other ↦ one_of-apart s vs ws (ground (arith, h)) (ground (arith, e, other))
]

-- Counting a level, by the tests on the lists of words.
pub counted_as : Bytes → Cell → Cell
counted_as s c =
    if one_of s (words errors)
    then record c { error = c.error + 1 }
    else if one_of s (words warnings)
    then record c { warn = c.warn + 1 }
    else if one_of s (words infos)
    then record c { info = c.info + 1 }
    else if one_of s (words debugs)
    then record c { debug = c.debug + 1 }
    else record c { other = c.other + 1 }

u32-suc : (n : ℕ) → n < 2 ^ 32 - 1 → u32 (n + 1) ≡ n + 1
u32-suc n h = omega arith

or_two : (a b : Bool) → (a || b) ≡ (a || (b || false))
or_two a b = ground arith

or_three : (a b c : Bool) → (a || b || c) ≡ (a || (b || (c || false)))
or_three a b c = ground arith

pub count_level-counted_as :
    (s : Bytes) (c : Cell) → total c < 2 ^ 32 - 1 → count_level s c ≡ counted_as s c
unfolding count_level counted_as
count_level-counted_as s c h =
    let e = u32-suc c.error (omega (arith, h)) in
    let w = u32-suc c.warn (omega (arith, h)) in
    let i = u32-suc c.info (omega (arith, h)) in
    let d = u32-suc c.debug (omega (arith, h)) in
    let o = u32-suc c.other (omega (arith, h)) in
    let es =
      or_three (str_eq s (codes "error")) (str_eq s (codes "fatal")) (str_eq s (codes "panic")) in
    let ws = or_two (str_eq s (codes "warn")) (str_eq s (codes "warning")) in
    let is = or_two (str_eq s (codes "info")) (str_eq s (codes "notice")) in
    let ds = or_two (str_eq s (codes "debug")) (str_eq s (codes "trace")) in
    rw (e, w, i, d, o, es, ws, is, ds) refl

one_of-append :
    (s : Bytes) (vs ws : List Bytes) → one_of s (vs ++ ws) ≡ (one_of s vs || one_of s ws)
one_of-append s [] ws = refl
one_of-append s (v ∷ vs) ws = ground (arith, one_of-append s vs ws)

count_of-counted_as :
    (g : Group) (s : Bytes) (c : Cell)
    → count_of g (counted_as s c) ≡ count_of g c + (if named g s then 1 else 0)
unfolding counted_as str_eq
count_of-counted_as errors s c = ground (arith)
count_of-counted_as warnings s c =
    ground (arith, one_of-apart s (words errors) (words warnings) refl)
count_of-counted_as infos s c = ground (
  arith,
  one_of-apart s (words errors) (words infos) refl,
  one_of-apart s (words warnings) (words infos) refl,
)
count_of-counted_as debugs s c = ground (
  arith,
  one_of-apart s (words errors) (words debugs) refl,
  one_of-apart s (words warnings) (words debugs) refl,
  one_of-apart s (words infos) (words debugs) refl,
)
count_of-counted_as others s c = ground arith

pub total-counted_as : (s : Bytes) (c : Cell) → total (counted_as s c) ≡ suc (total c)
unfolding counted_as
total-counted_as s c = ground arith

-- A row of a level adds one to the count of its group and to no other.
pub count_of-count_level :
    (g : Group) (s : Bytes) (c : Cell)
    → total c < 2 ^ 32 - 1
    → count_of g (count_level s c) ≡ count_of g c + (if named g s then 1 else 0)
count_of-count_level g s c h =
    ap (count_of g) (count_level-counted_as s c h) ∙ count_of-counted_as g s c
