-- ===== src/Server/Hub/Modes.antt =====
-- The mode of a source over the lines that it reads.
use loggi.Prelude.{
  ℕ, suc, ◌+◌, ◌≤◌, ◌≡◌, refl, ◌∙◌, ap, Bool, true, false, ◌||◌, Option, none, some, List, [], ◌∷◌,
  if◌then◌else◌, lookup, insert, lookup-insert, nat_eq, arith,
}
use loggi.Server.Hub.{Mode, json_mode, text_mode, SourceRec, Hub}
use loggi.Server.Hub.Health.{line_mode, next_mode, observe_mode}

-- The calls of observeMode for the lines of one source, and how many of them report a change.
pub observe_lines : ℕ → List Bool → Hub → Hub × ℕ
observe_lines id [] h = (h, 0)
observe_lines id (line_json ∷ lines) h =
    let (h', mode, changed) = observe_mode id line_json h in
    let (k, n) = observe_lines id lines h' in (k, if changed then suc n else n)

abbrev pub any_json : List Bool → Bool
any_json [] = false
any_json (line_json ∷ lines) = line_json || any_json lines

-- Whether the source is known to be JSON, and whether its mode is still to be set.
abbrev is_json : Option Mode → Bool
is_json none = false
is_json (some text_mode) = false
is_json (some json_mode) = true

abbrev unset : Option Mode → ℕ
unset none = 1
unset (some m) = 0

abbrev pub with_mode : Option Mode → SourceRec → SourceRec
with_mode m r = record r { mode = m }

-- The mode after the first line of those.
abbrev pub mode_after : Option Mode → List Bool → Option Mode
mode_after m [] = m
mode_after m (line_json ∷ lines) = some (line_mode (is_json m || any_json (line_json ∷ lines)))

next_mode_lem :
    (m : Option Mode) (line_json : Bool) (lines : List Bool)
    → mode_after (some (next_mode m line_json).0) lines ≡ mode_after m (line_json ∷ lines)
unfolding next_mode
next_mode_lem none true [] = refl
next_mode_lem none false [] = refl
next_mode_lem none true (b ∷ lines) = refl
next_mode_lem none false (b ∷ lines) = refl
next_mode_lem (some text_mode) true [] = refl
next_mode_lem (some text_mode) false [] = refl
next_mode_lem (some text_mode) true (b ∷ lines) = refl
next_mode_lem (some text_mode) false (b ∷ lines) = refl
next_mode_lem (some json_mode) line_json [] = refl
next_mode_lem (some json_mode) line_json (b ∷ lines) = refl

-- How often the mode may still change: at first, and from text to JSON.
abbrev changes_left : Option Mode → ℕ
changes_left none = 2
changes_left (some text_mode) = 1
changes_left (some json_mode) = 0

next_mode-changes :
    (m : Option Mode) (line_json : Bool)
    → (if (next_mode m line_json).1 then 1 else 0) + changes_left (some (next_mode m line_json).0)
      ≤ changes_left m
unfolding next_mode
next_mode-changes none true = omega arith
next_mode-changes none false = omega arith
next_mode-changes (some text_mode) true = omega arith
next_mode-changes (some text_mode) false = omega arith
next_mode-changes (some json_mode) line_json = omega arith

-- Over the lines of a source, its mode is JSON from the first line that is a JSON object on, and text
-- before; nothing else of its record changes, and at most two calls report a change.
pub observe_lines_lem :
    (id : ℕ) (lines : List Bool) (h : Hub) (r : SourceRec)
    → lookup id h.srcs ≡ some r
    → (lookup id ((observe_lines id lines h).0).srcs ≡ some (with_mode (mode_after r.mode lines) r))
      × ((observe_lines id lines h).1 ≤ changes_left r.mode)
unfolding observe_lines
observe_lines_lem id [] h r l = (l, omega arith)
observe_lines_lem id (b ∷ lines) h r l =
    let next = next_mode r.mode b in
    let q : SourceRec = record r { mode = some (next.0) } in
    let h' : Hub = record h { srcs = insert id q h.srcs } in
    let observed : observe_mode id b h ≡ (h', next.0, next.1) =
      unfold observe_mode in rw (l, observe_mode) refl in
    let at : lookup id h'.srcs ≡ some q = ground (arith, lookup-insert id id q h.srcs) in
    let (found, few) = observe_lines_lem id lines h' q at in
    rw observed (
      found ∙ ap (λ m. some (with_mode m r)) (next_mode_lem r.mode b lines),
      ground (arith, few, next_mode-changes r.mode b),
    )
