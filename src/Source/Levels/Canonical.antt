-- ===== src/Source/Levels/Canonical.antt =====
-- The levels that the normalisation gives.
use loggi.Prelude.{
  ℕ, ◌≡◌, refl, sym, ap, ◌∙◌, subst, Bool, true, false, ◌&&◌, ◌||◌, Option, none, some, List, [],
  ◌∷◌, ◌==◌, leb, ltb, lookup, nat_eq, is_empty, if_cases, Bool-cases, inl, inr, All, arith,
}
use loggi.Text.{Bytes, codes, str_eq, str_eq_iff, bytes_eq}
use loggi.Filter.Reader.{Library, Json, Fields, num, str, obj, end, field}
use loggi.Filter.Scalar.{lookup_field}
use loggi.Source.Levels.{
  ℤ, pos, negsuc, Decoder, RawObject, string_levels, level_aliases, or_empty, bunyan_level,
  monolog_level, logback_level, syslog_level, int_level, normalize_level, normalize_numeric_level,
  name_or, normalize_level_any, level_no, quoted_level, object_level, number_level, normalize_raw,
  lookup_raw, member_level, first_level, extract_level,
}

abbrev pub one_of : Bytes → List Bytes → Bool
one_of v [] = false
one_of v (w ∷ ws) = str_eq v w || one_of v ws

-- The seven words of the vocabulary.
abbrev pub words : List Bytes
words =
    codes "trace"
    ∷ codes "debug"
    ∷ codes "info"
    ∷ codes "notice"
    ∷ codes "warn"
    ∷ codes "error"
    ∷ codes "fatal"
    ∷ []

-- A word of the vocabulary, or the empty text.
abbrev pub IsLevel : Bytes → Type 0
IsLevel v = one_of v ([] ∷ words) ≡ true

abbrev all_levels : List (Bytes × Bytes) → Bool
all_levels [] = true
all_levels (e ∷ m) = one_of e.1 ([] ∷ words) && all_levels m

pub empty-IsLevel : IsLevel []
unfolding str_eq
empty-IsLevel = refl

is_empty→nil : (s : Bytes) → is_empty s ≡ true → s ≡ []
is_empty→nil [] h = refl
is_empty→nil (c ∷ s) h = cc

both : (a b : Bool) → (a && b) ≡ true → (a ≡ true) × (b ≡ true)
both a b h = ground arith

or_empty-IsLevel :
    (s : Bytes) (m : List (Bytes × Bytes)) → all_levels m ≡ true → IsLevel (or_empty (lookup s m))
unfolding or_empty
or_empty-IsLevel s [] h = empty-IsLevel
or_empty-IsLevel s ((k, v) ∷ m) h =
    if_cases (λ o. IsLevel (or_empty o)) (str_eq k s) _ _ (λ _. (both _ _ h).0)
      λ _. or_empty-IsLevel s m (both _ _ h).1

bunyan_level-IsLevel : (n : ℕ) → IsLevel (bunyan_level n)
unfolding bunyan_level str_eq
bunyan_level-IsLevel n =
    if_cases IsLevel (ltb n 20) _ _ (λ _. refl)
      λ _.
        if_cases IsLevel (ltb n 30) _ _ (λ _. refl)
          λ _.
            if_cases IsLevel (ltb n 40) _ _ (λ _. refl)
              λ _.
                if_cases IsLevel (ltb n 50) _ _ (λ _. refl)
                  λ _. if_cases IsLevel (ltb n 60) _ _ (λ _. refl) λ _. refl

monolog_level-IsLevel : (n : ℕ) → IsLevel (monolog_level n)
unfolding monolog_level str_eq
monolog_level-IsLevel n =
    if_cases IsLevel (ltb n 200) _ _ (λ _. refl)
      λ _.
        if_cases IsLevel (ltb n 250) _ _ (λ _. refl)
          λ _.
            if_cases IsLevel (ltb n 300) _ _ (λ _. refl)
              λ _.
                if_cases IsLevel (ltb n 400) _ _ (λ _. refl)
                  λ _. if_cases IsLevel (ltb n 500) _ _ (λ _. refl) λ _. refl

logback_level-IsLevel : (n : ℕ) → IsLevel (logback_level n)
unfolding logback_level str_eq
logback_level-IsLevel n =
    if_cases IsLevel (ltb n 10000) _ _ (λ _. refl)
      λ _.
        if_cases IsLevel (ltb n 20000) _ _ (λ _. refl)
          λ _.
            if_cases IsLevel (ltb n 30000) _ _ (λ _. refl)
              λ _. if_cases IsLevel (ltb n 40000) _ _ (λ _. refl) λ _. refl

syslog_level-IsLevel : (n : ℕ) → IsLevel (syslog_level n)
unfolding syslog_level str_eq
syslog_level-IsLevel n =
    if_cases IsLevel (ltb n 3) _ _ (λ _. refl)
      λ _.
        if_cases IsLevel (n == 3) _ _ (λ _. refl)
          λ _.
            if_cases IsLevel (n == 4) _ _ (λ _. refl)
              λ _.
                if_cases IsLevel (n == 5) _ _ (λ _. refl)
                  λ _.
                    if_cases IsLevel (n == 6) _ _ (λ _. refl)
                      λ _. if_cases IsLevel (n == 7) _ _ (λ _. refl) λ _. refl

int_level-IsLevel : (n : ℤ) → IsLevel (int_level n)
unfolding int_level str_eq
int_level-IsLevel (pos n) =
    if_cases IsLevel (leb 1000 n) _ _ (λ _. logback_level-IsLevel n)
      λ _.
        if_cases IsLevel (leb 100 n) _ _ (λ _. monolog_level-IsLevel n)
          λ _.
            if_cases IsLevel (leb 10 n) _ _ (λ _. bunyan_level-IsLevel n)
              λ _. if_cases IsLevel (leb n 7) _ _ (λ _. syslog_level-IsLevel n) λ _. refl
int_level-IsLevel (negsuc n) = refl

module _ (lib : Library) (json : Decoder (Library.Float lib)) where
  open lib use {Float, to_lower, trim_space}

  pub normalize_level-IsLevel : (raw : Bytes) → IsLevel (normalize_level lib json raw)
  unfolding normalize_level string_levels str_eq
  normalize_level-IsLevel raw =
      if_cases IsLevel (is_empty (to_lower (trim_space raw))) _ _ (λ _. refl)
        λ _. or_empty-IsLevel (to_lower (trim_space raw)) string_levels refl

  name_or-IsLevel :
      (o : Option (Json Float)) (rest : Bytes) → IsLevel rest → IsLevel (name_or lib json o rest)
  unfolding name_or
  name_or-IsLevel (some (str name)) rest h = normalize_level-IsLevel name
  name_or-IsLevel _ rest h = h

  mutual
    unfolding normalize_level_any normalize_numeric_level

    any-IsLevel : (v : Json Float) → IsLevel (normalize_level_any lib json v)
    any-IsLevel (str s) = normalize_level-IsLevel s
    any-IsLevel (num f) = int_level-IsLevel (Decoder.trunc json f)
    any-IsLevel (obj m) =
        name_or-IsLevel (lookup_field (codes "name") m) (level_no lib json m) (no-IsLevel m)
    any-IsLevel _ = empty-IsLevel

    no-IsLevel : (m : Fields Float) → IsLevel (level_no lib json m)
    no-IsLevel end = empty-IsLevel
    no-IsLevel (field k v m) =
        if_cases IsLevel (str_eq k (codes "no")) _ _ (λ _. any-IsLevel v) λ _. no-IsLevel m

  quoted_level-IsLevel : (o : Option Bytes) → IsLevel (quoted_level lib json o)
  unfolding quoted_level
  quoted_level-IsLevel none = empty-IsLevel
  quoted_level-IsLevel (some s) = normalize_level-IsLevel s

  object_level-IsLevel : (o : Option (Fields Float)) → IsLevel (object_level lib json o)
  unfolding object_level
  object_level-IsLevel none = empty-IsLevel
  object_level-IsLevel (some m) = any-IsLevel (obj m)

  number_level-IsLevel : (o : Option Float) → IsLevel (number_level lib json o)
  unfolding number_level normalize_numeric_level
  number_level-IsLevel none = empty-IsLevel
  number_level-IsLevel (some f) = int_level-IsLevel (Decoder.trunc json f)

  normalize_raw-IsLevel : (raw : Bytes) → IsLevel (normalize_raw lib json raw)
  unfolding normalize_raw
  normalize_raw-IsLevel [] = empty-IsLevel
  normalize_raw-IsLevel (c ∷ raw) =
      if_cases IsLevel (c == b'"') _ _ (λ _. quoted_level-IsLevel (Decoder.text json (c ∷ raw)))
        λ _.
          if_cases IsLevel (c == b'{') _ _
            (λ _. object_level-IsLevel (Decoder.any_object json (c ∷ raw)))
            λ _. number_level-IsLevel (Decoder.float json (c ∷ raw))

  member_level-IsLevel : (o : Option Bytes) → IsLevel (member_level lib json o)
  unfolding member_level
  member_level-IsLevel none = empty-IsLevel
  member_level-IsLevel (some raw) = normalize_raw-IsLevel raw

  first_level-IsLevel :
      (members : List Bytes) (m : RawObject) → IsLevel (first_level lib json members m)
  unfolding first_level
  first_level-IsLevel [] m = empty-IsLevel
  first_level-IsLevel (member ∷ members) m =
      if_cases IsLevel (is_empty (member_level lib json (lookup_raw lib json m member))) _ _
        (λ _. first_level-IsLevel members m)
        λ _. member_level-IsLevel (lookup_raw lib json m member)

  -- Whatever the object holds and however its values decode, the level that is extracted is empty or
  -- one of the seven words of the vocabulary.
  pub extract_level-IsLevel : (m : RawObject) → IsLevel (extract_level lib json m)
  unfolding extract_level
  extract_level-IsLevel m = first_level-IsLevel level_aliases m

  abbrev Stays : Bytes → Type 0
  Stays w = or_empty (lookup w string_levels) ≡ w

  one_of-Stays : (v : Bytes) (ws : List Bytes) → All Stays ws → one_of v ws ≡ true → Stays v
  one_of-Stays v [] a h = cc
  one_of-Stays v (w ∷ ws) (a, rest) h = elim (Bool-cases (str_eq v w)) [
    | inl e ↦ subst Stays (sym ((str_eq_iff v w).0 e)) a
    | inr e ↦ one_of-Stays v ws rest (ground (arith, e, h))
  ]

  words-Stays : All Stays ([] ∷ words)
  unfolding or_empty string_levels str_eq
  words-Stays = (refl, (refl, (refl, (refl, (refl, (refl, (refl, (refl, tt))))))))

  level_again :
      (v : Bytes) → IsLevel v → to_lower (trim_space v) ≡ v → normalize_level lib json v ≡ v
  unfolding normalize_level
  level_again v h same =
      rw (same, normalize_level)
        (if_cases (λ w. w ≡ v) (is_empty v) _ _ (λ e. sym (is_empty→nil v e))
          λ _. one_of-Stays v ([] ∷ words) words-Stays h)

  -- Normalising twice is normalising once, where trimming and lower case leave the normal form alone.
  pub normalize_level-normalize_level :
      (raw : Bytes)
      → let v = normalize_level lib json raw in
        to_lower (trim_space v) ≡ v → normalize_level lib json v ≡ v
  normalize_level-normalize_level raw same =
      level_again (normalize_level lib json raw) (normalize_level-IsLevel raw) same

  -- The member `level` decides, if its value can be classified, whatever the other members hold; a
  -- numeric one also before a text in `level_name`.
  pub extract_level-normalize_raw :
      (m : RawObject) (raw : Bytes)
      → lookup (codes "level") m ≡ some raw
      → is_empty (normalize_raw lib json raw) ≡ false
      → extract_level lib json m ≡ normalize_raw lib json raw
  unfolding extract_level first_level lookup_raw member_level
  extract_level-normalize_raw m raw e h = rw (e, lookup_raw) (rw h refl)

  normalize_raw_null :
      (f : Float)
      → Decoder.float json (codes "null") ≡ some f
      → Decoder.trunc json f ≡ pos 0
      → normalize_raw lib json (codes "null") ≡ codes "fatal"
  unfolding normalize_raw number_level normalize_numeric_level int_level syslog_level
  normalize_raw_null f null_float zero_int = rw (null_float, number_level) (rw zero_int refl)

  -- A member `level` that is null gives the level `fatal`: decoding null into a float gives 0 without
  -- an error.
  pub extract_level_null :
      (m : RawObject) (f : Float)
      → lookup (codes "level") m ≡ some (codes "null")
      → Decoder.float json (codes "null") ≡ some f
      → Decoder.trunc json f ≡ pos 0
      → extract_level lib json m ≡ codes "fatal"
  extract_level_null m f e null_float zero_int =
      let v : normalize_raw lib json (codes "null") ≡ codes "fatal" =
        normalize_raw_null f null_float zero_int in
      extract_level-normalize_raw m (codes "null") e (ap is_empty v) ∙ v
