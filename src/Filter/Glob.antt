-- ===== src/Filter/Glob.antt =====
-- internal/filter/compile.go: matchGlob, against the texts that a pattern describes.
use loggi.Prelude.{
  ℕ, ◌≢◌, ◌≡◌, refl, sym, ap, ◌∙◌, subst, Bool, true, false, Bool-cases, inl, inr, Option-cases,
  none, some, List, [], ◌∷◌, ◌++◌, append-nil, append_assoc, arith, if◌then◌else◌, length, drop,
  take, is_empty, take-append-drop,
}
use loggi.Text.{
  Bytes, has_prefix, index, eq_of_has_prefix, eq_of_index, has_prefix-append, index_leftmost,
}
use loggi.Prelude.{drop-append_self}
use loggi.Filter.Ast.{GlobPart, lit, wild}

-- parts[len(parts)-1].Wild
unfoldable pub last_is_wild : List GlobPart → Bool
last_is_wild [] = false
last_is_wild (wild ∷ []) = true
last_is_wild (lit l ∷ []) = false
last_is_wild (p ∷ q ∷ ps) = last_is_wild (q ∷ ps)

-- The loop over `parts[idx:]` and `s[i:]`; `lw` is the test after the loop. The literal at the
-- start of the pattern is taken by the clause for an adjacent literal, which does the same.
unfoldable pub glob_loop : Bool → List GlobPart → Bytes → Bool
unfolding has_prefix index
glob_loop lw [] s = if lw then true else is_empty s
glob_loop lw (wild ∷ []) s = true
glob_loop lw (wild ∷ wild ∷ ps) s = glob_loop lw ps s
glob_loop lw (wild ∷ lit l ∷ ps) s = elim (index s l) [
  | none ↦ false
  | some pos ↦ glob_loop lw ps (drop (length l) (drop pos s))
]
glob_loop lw (lit l ∷ ps) s = elim (has_prefix s l) [
  | true ↦ glob_loop lw ps (drop (length l) s)
  | false ↦ false
]

unfoldable pub match_glob : Bytes → List GlobPart → Bool
unfolding last_is_wild glob_loop
match_glob s [] = is_empty s
match_glob s (p ∷ ps) = glob_loop (last_is_wild (p ∷ ps)) (p ∷ ps) s

-- What a pattern describes: the text is the concatenation of the literals, in order, with any text
-- in the place of each wild part.
abbrev pub GlobMatches : List GlobPart → Bytes → Type 0
GlobMatches [] s = s ≡ []
GlobMatches (lit l ∷ ps) s = (r : Bytes) × (s ≡ l ++ r) × GlobMatches ps r
GlobMatches (wild ∷ ps) s = (a : Bytes) × (r : Bytes) × (s ≡ a ++ r) × GlobMatches ps r

-- No two wild parts and no two literals side by side.
abbrev pub Alternates : List GlobPart → Type 0
Alternates (wild ∷ wild ∷ ps) = ⊥
Alternates (lit l ∷ lit m ∷ ps) = ⊥
Alternates (p ∷ q ∷ ps) = Alternates (q ∷ ps)
Alternates _ = Unit {0}

is_empty→eq : (s : Bytes) → is_empty s ≡ true → s ≡ []
is_empty→eq [] h = refl
is_empty→eq (c ∷ s) h = cc

loop_sound :
    (p : GlobPart) (ps : List GlobPart) (s : Bytes)
    → glob_loop (last_is_wild (p ∷ ps)) (p ∷ ps) s ≡ true
    → GlobMatches (p ∷ ps) s
unfolding glob_loop last_is_wild
loop_sound wild [] s h = (s, [], sym (append-nil s), refl)
loop_sound wild (wild ∷ []) s h = ([], s, refl, (s, [], sym (append-nil s), refl))
loop_sound wild (wild ∷ q ∷ ps) s h = ([], s, refl, ([], s, refl, loop_sound q ps s h))
loop_sound wild (lit l ∷ []) s h = elim (Option-cases (index s l)) [
  | inl q ↦ absurd (ground arith)
  | inr (i, q) ↦ (
    take i s,
    drop i s,
    sym (take-append-drop i s),
    (drop (length l) (drop i s), eq_of_index s l i q, is_empty→eq _ (ground arith)),
  )
]
loop_sound wild (lit l ∷ q ∷ ps) s h = elim (Option-cases (index s l)) [
  | inl e ↦ absurd (ground arith)
  | inr (i, e) ↦ (
    take i s,
    drop i s,
    sym (take-append-drop i s),
    (drop (length l) (drop i s), eq_of_index s l i e, loop_sound q ps _ (ground arith)),
  )
]
loop_sound (lit l) [] s h = elim (Bool-cases (has_prefix s l)) [
  | inl e ↦ (drop (length l) s, eq_of_has_prefix s l e, is_empty→eq _ (ground arith))
  | inr e ↦ absurd (ground arith)
]
loop_sound (lit l) (q ∷ ps) s h = elim (Bool-cases (has_prefix s l)) [
  | inl e ↦ (drop (length l) s, eq_of_has_prefix s l e, loop_sound q ps _ (ground arith))
  | inr e ↦ absurd (ground arith)
]

-- Whatever `match_glob` accepts is a text that the pattern describes.
pub match_glob_sound :
    (s : Bytes) (parts : List GlobPart) → match_glob s parts ≡ true → GlobMatches parts s
unfolding match_glob
match_glob_sound s [] h = is_empty→eq s h
match_glob_sound s (p ∷ ps) h = loop_sound p ps s h

-- A pattern that begins with a wild part takes more text in front.
absorb :
    (ps : List GlobPart) (b r : Bytes)
    → GlobMatches (wild ∷ ps) r
    → GlobMatches (wild ∷ ps) (b ++ r)
absorb ps b r (a, r', e, m) = (b ++ a, r', rw e (sym (append_assoc b a r')), m)

loop_complete :
    (ps : List GlobPart) (s : Bytes)
    → Alternates ps
    → last_is_wild ps ≡ true
    → GlobMatches ps s
    → glob_loop true ps s ≡ true
unfolding glob_loop last_is_wild
loop_complete [] s alt w m = cc
loop_complete (wild ∷ []) s alt w m = refl
loop_complete (wild ∷ wild ∷ ps) s alt w m = absurd alt
loop_complete (wild ∷ lit l ∷ []) s alt w m = cc
loop_complete (wild ∷ lit l ∷ lit k ∷ ps) s alt w m = absurd alt
loop_complete (wild ∷ lit l ∷ wild ∷ ps) s alt w (a, r, e, (r', e', m)) =
    let (i, b, found, rest) = index_leftmost a l r' in
    let split : s ≡ a ++ (l ++ r') = e ∙ ap (◌++◌ a) e' in
    rw split (
      rw (found, glob_loop)
        (rw rest (loop_complete (wild ∷ ps) (b ++ r') alt w (absorb ps b r' m))))
loop_complete (lit l ∷ []) s alt w m = cc
loop_complete (lit l ∷ lit k ∷ ps) s alt w m = absurd alt
loop_complete (lit l ∷ wild ∷ ps) s alt w (r, e, m) = rw e (
    rw (has_prefix-append l r, glob_loop)
      (rw (drop-append_self l r) (loop_complete (wild ∷ ps) r alt w m)))

-- A pattern of alternating parts that ends in a wild one is matched by every text that it
-- describes.
pub match_glob_complete :
    (s : Bytes) (parts : List GlobPart)
    → Alternates parts
    → last_is_wild parts ≡ true
    → GlobMatches parts s
    → match_glob s parts ≡ true
unfolding match_glob last_is_wild
match_glob_complete s [] alt w m = cc
match_glob_complete s (p ∷ ps) alt w m =
    subst (λ b. glob_loop b (p ∷ ps) s ≡ true) (sym w) (loop_complete (p ∷ ps) s alt w m)

is_empty-append : (d : Bytes) (c : ℕ) (l : Bytes) → is_empty (d ++ c ∷ l) ≡ false
is_empty-append [] c l = refl
is_empty-append (x ∷ d) c l = refl

-- The search for a literal takes its first occurrence also where the pattern ends: a text that has
-- the last literal twice is described by the pattern and refused.
pub match_glob-repeated :
    (c : ℕ) (l d : Bytes)
    → GlobMatches (wild ∷ lit (c ∷ l) ∷ []) ((c ∷ l) ++ (d ++ c ∷ l))
      × (match_glob ((c ∷ l) ++ (d ++ c ∷ l)) (wild ∷ lit (c ∷ l) ∷ []) ≡ false)
unfolding match_glob index
match_glob-repeated c l d = (
  ((c ∷ l) ++ d, c ∷ l, sym (append_assoc (c ∷ l) d (c ∷ l)), ([], sym (append-nil (c ∷ l)), refl)),
  rw (has_prefix-append (c ∷ l) (d ++ c ∷ l), glob_loop, index)
      (rw (drop-append_self (c ∷ l) (d ++ c ∷ l)) (is_empty-append d c l)),
)

-- Of two wild parts side by side both are skipped, so that the next literal has to follow at once.
pub match_glob-two_wilds :
    (a b : Bytes) (x c : ℕ)
    → x ≢ c
    → GlobMatches (lit a ∷ wild ∷ wild ∷ lit (c ∷ b) ∷ []) (a ++ x ∷ c ∷ b)
      × (match_glob (a ++ x ∷ c ∷ b) (lit a ∷ wild ∷ wild ∷ lit (c ∷ b) ∷ []) ≡ false)
unfolding match_glob has_prefix
match_glob-two_wilds a b x c h = (
  (x ∷ c ∷ b, refl, (x ∷ [], c ∷ b, refl, ([], c ∷ b, refl, ([], sym (append-nil (c ∷ b)), refl)))),
  rw (has_prefix-append a (x ∷ c ∷ b), glob_loop)
      (rw (drop-append_self a (x ∷ c ∷ b)) (ground arith)),
)
