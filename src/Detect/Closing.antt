-- ===== src/Detect/Closing.antt =====
-- A detector over any sequence of rows and deadline checks.
use loggi.Prelude.{
  ℕ, suc, ◌+◌, ◌≤◌, ◌<◌, ◌≡◌, refl, inl, inr, true, false, ◌&&◌, Option, none, some, List, [], ◌∷◌,
  leb, if◌then◌else◌, arith, Bool-cases, Option-cases,
}
use loggi.Text.{Bytes, str_eq, str_eq_iff}
use loggi.Source.Aliases.{Groups}
use loggi.Source.Levels.{Decoder}
use loggi.Detect.Sampler.{Sampler, new, observe, deadline_passed}
use loggi.Detect.Recommend.{Floats}
use loggi.Detect.Detector.{
  Report, detector_observe, close_if_deadline, SourcePref, is_pref, lookup_source_pref,
  persist_source_pref,
}

-- A call of the detector.
pub data Call : Type 0 where
  row : Bytes → Call
  tick : ℕ → Call

module _ {Float : Type 0} (json : Decoder Float) (floats : Floats) (groups : Groups) where
  open json use {raw_object}

  abbrev pub call : Call → Option Sampler → Option Sampler × Report
  call (row raw) d = detector_observe json floats groups raw d
  call (tick now) d = close_if_deadline json floats groups now d

  abbrev pub run : List Call → Option Sampler → Option Sampler
  run [] d = d
  run (c ∷ cs) d = run cs ((call c d).0)

  -- The calls that report a recommendation.
  abbrev pub reports : List Call → Option Sampler → ℕ
  reports [] d = 0
  reports (c ∷ cs) d =
      let rest = reports cs ((call c d).0) in if (call c d).1.finished then suc rest else rest

  abbrev pub still_open : Option Sampler → ℕ
  still_open none = 0
  still_open (some s) = 1

  call-conserves :
      (c : Call) (d : Option Sampler)
      → (if (call c d).1.finished then 1 else 0) + still_open ((call c d).0) ≡ still_open d
  unfolding detector_observe close_if_deadline
  call-conserves (row raw) none = refl
  call-conserves (row raw) (some s) = ground arith
  call-conserves (tick now) none = refl
  call-conserves (tick now) (some s) = ground arith

  -- Over any calls an open detector reports exactly once if it has closed, and never while it is
  -- open; a closed one does not report again.
  pub reports_once :
      (cs : List Call) (d : Option Sampler) → reports cs d + still_open (run cs d) ≡ still_open d
  reports_once [] d = omega arith
  reports_once (c ∷ cs) d = ground (arith, call-conserves c d, reports_once cs ((call c d).0))

  -- The rows that decode as an object.
  abbrev pub decoded : List Call → ℕ
  decoded [] = 0
  decoded (tick now ∷ cs) = decoded cs
  decoded (row raw ∷ cs) =
      let rest = decoded cs in elim (raw_object raw) [ none ↦ rest | some o ↦ suc rest ]

  run_closed : (cs : List Call) → run cs none ≡ none
  unfolding detector_observe close_if_deadline
  run_closed [] = refl
  run_closed (row raw ∷ cs) = run_closed cs
  run_closed (tick now ∷ cs) = run_closed cs

  closes :
      (cs : List Call) (s : Sampler)
      → s.n < s.limit
      → s.limit ≤ s.n + decoded cs
      → run cs (some s) ≡ none
  unfolding detector_observe close_if_deadline observe
  closes [] s h k = absurd (omega arith)
  closes (tick now ∷ cs) s h k = elim (Bool-cases (deadline_passed now s)) [
    | inl p ↦ rw p (run_closed cs)
    | inr p ↦ rw p (closes cs s h k)
  ]
  closes (row raw ∷ cs) s h k =
      let going : leb s.limit s.n ≡ false = ground arith in
      elim (Option-cases (raw_object raw)) [
        | inl q ↦ rw (going, q) (closes cs s h (ground (arith, q)))
        | inr (o, q) ↦ elim (Bool-cases (leb s.limit (suc s.n))) [
          | inl r ↦ rw (going, q, r) (run_closed cs)
          | inr r ↦ rw (going, q, r) (closes cs _ (ground arith) (ground (arith, q)))
        ]
      ]

  -- A new detector has closed, and reported its recommendation once, when as many rows as its limit
  -- have decoded, whatever rows and deadline checks come between.
  pub reports_at_limit :
      (now limit timeout : ℕ) (cs : List Call)
      → (new now limit timeout).limit ≤ decoded cs
      → (run cs (some (new now limit timeout)) ≡ none)
        × (reports cs (some (new now limit timeout)) ≡ 1)
  reports_at_limit now limit timeout cs h =
      let closed =
        closes cs (new now limit timeout) (unfold new in ground arith)
          (unfold new in omega (arith, h)) in
      (closed, ground (arith, closed, reports_once cs (some (new now limit timeout))))

-- The preference that was persisted for a source is looked up again, locked; those of other sources are
-- as they were.
pub lookup-persist :
    (now : ℕ) (kind name kind' name' : Bytes) (cols : List Bytes) (prefs : List SourcePref)
    → lookup_source_pref kind' name' (persist_source_pref now kind name cols prefs) ≡ (
        if str_eq kind kind' && str_eq name name'
        then some
            (record { kind = kind; name = name; columns = cols; locked = true; detected_at = now })
        else lookup_source_pref kind' name' prefs)
unfolding lookup_source_pref persist_source_pref
lookup-persist now kind name kind' name' cols [] = refl
lookup-persist now kind name kind' name' cols (p ∷ prefs) =
    elim (Bool-cases (is_pref kind name p)) [
      | inl h ↦
          let k : p.kind ≡ kind = (str_eq_iff p.kind kind).0 (ground arith) in
          let n : p.name ≡ name = (str_eq_iff p.name name).0 (ground arith) in
          let written : record p { columns = cols; locked = true; detected_at = now } ≡ record {
            kind = kind;
            name = name;
            columns = cols;
            locked = true;
            detected_at = now;
          } =
            λ i. record {
              kind = k i;
              name = n i;
              columns = cols;
              locked = true;
              detected_at = now;
            } in
          let other : is_pref kind' name' p ≡ (str_eq kind kind' && str_eq name name') =
            λ i. str_eq (k i) kind' && str_eq (n i) name' in
          rw (h, written, other) (ground arith)
      | inr h ↦ ground (
        arith,
        lookup-persist now kind name kind' name' cols prefs,
        str_eq_iff kind kind',
        str_eq_iff name name',
        str_eq_iff p.kind kind,
        str_eq_iff p.name name,
        str_eq_iff p.kind kind',
        str_eq_iff p.name name',
      )
    ]
