-- ===== src/Server/Hub/Health.antt =====
-- internal/server/server.go and coldetect.go: what a line and a tick do to the record of their source, and
-- the recommendation that is persisted and broadcast. The rate of lines is not modelled.
use loggi.Prelude.{
  ℕ, suc, Bool, true, false, Option, none, some, List, [], ◌∷◌, if◌then◌else◌, lookup, insert,
  nat_eq, is_empty,
}
use loggi.Text.{Bytes}
use loggi.Source.Aliases.{Groups}
use loggi.Source.Levels.{Decoder}
use loggi.Detect.Recommend.{Floats}
use loggi.Detect.Detector.{Report, detector_observe, close_if_deadline, persist_source_pref}
use loggi.Server.Hub.{
  running, closed, failed, Mode, json_mode, text_mode, SourceRec, Sources, Hub,
  broadcast_source_event, broadcast_source_state,
}

abbrev pub line_mode : Bool → Mode
line_mode true = json_mode
line_mode false = text_mode

-- The mode after the line, and whether it changed; no other goroutine writes it in between.
unfoldable pub next_mode : Option Mode → Bool → Mode × Bool
next_mode none line_json = (line_mode line_json, true)
next_mode (some text_mode) true = (json_mode, true)
next_mode (some text_mode) false = (text_mode, false)
next_mode (some json_mode) line_json = (json_mode, false)

unfoldable pub observe_mode : ℕ → Bool → Hub → Hub × Mode × Bool
unfolding next_mode
observe_mode id line_json h = elim (lookup id h.srcs) [
  | none ↦ (h, line_mode line_json, false)
  | some r ↦
      let (mode, changed) = next_mode r.mode line_json in
      (record h { srcs = insert id (record r { mode = some mode }) h.srcs }, mode, changed)
]

unfoldable pub persist_pref : ℕ → Bytes → Bytes → List Bytes → Hub → Hub
unfolding persist_source_pref
persist_pref now kind name cols h = elim h.prefs [
  | none ↦ h
  | some prefs ↦ record h { prefs = some (persist_source_pref now kind name cols prefs) }
]

unfoldable pub finalize_recommendation : ℕ → ℕ → List Bytes → Hub → Hub
unfolding persist_pref broadcast_source_event
finalize_recommendation now id cols h = if is_empty cols then h else elim (lookup id h.srcs) [
  | none ↦ h
  | some r ↦
      let pinned : Hub = record h {
        srcs = insert id (record r { pinned_columns = cols }) h.srcs;
      } in
      broadcast_source_event
        (record {
          source_id = id;
          kind = r.kind;
          name = r.name;
          state = r.state;
          mode = r.mode;
          columns = cols;
        })
        (persist_pref now r.kind r.name cols pinned)
]

-- What the goroutine of attach does when the source's Run returns.
unfoldable pub source_ended : ℕ → Bool → Hub → Hub
unfolding broadcast_source_state
source_ended id ok h = elim (lookup id h.srcs) [
  | none ↦ h
  | some r ↦
      let state = if ok then closed else failed in
      broadcast_source_state id state
        (record h { srcs = insert id (record r { state = state }) h.srcs })
]

-- `s.lineCount`, `s.lastLineNs`
unfoldable pub count_line : ℕ → SourceRec → SourceRec
count_line now r = record r { line_count = suc r.line_count; last_line_ns = now }

unfoldable pub finish : ℕ → ℕ → Report → Hub → Hub
unfolding finalize_recommendation
finish now id report h = if report.finished then finalize_recommendation now id report.cols h else h

module _ {Float : Type 0} (json : Decoder Float) (floats : Floats) (groups : Groups) where
  -- The row goes to the detector if there is one and the line is a JSON object.
  unfoldable pub detect_line : ℕ → ℕ → Bytes → SourceRec → Hub → Hub
  unfolding detector_observe finish
  detect_line now id raw r h = elim r.detector [
    | none ↦ h
    | some d ↦
        let (d', report) = detector_observe json floats groups raw d in
        finish now id report
          (record h { srcs = insert id (record r { detector = some d' }) h.srcs })
  ]

  -- processLine past the publication of the row.
  unfoldable pub note_line : ℕ → ℕ → Bytes → Bool → Hub → Hub
  unfolding count_line detect_line
  note_line now id raw line_json h = elim (lookup id h.srcs) [
    | none ↦ h
    | some r ↦
        let counted = count_line now r in
        let h' : Hub = record h { srcs = insert id counted h.srcs } in
        if line_json then detect_line now id raw counted h' else h'
  ]

  -- The parts of processLine that are not about the store, in their order.
  unfoldable pub source_line : ℕ → ℕ → Bytes → Bool → Hub → Hub
  unfolding observe_mode note_line broadcast_source_state
  source_line now id raw line_json h =
      let (h', mode, just_set) = observe_mode id line_json h in
      let noted = note_line now id raw line_json h' in
      if just_set then broadcast_source_state id running noted else noted

  -- One round of tickStats: first the detectors of all sources, then their recommendations.
  unfoldable pub close_detectors : ℕ → Sources → Sources × List (ℕ × List Bytes)
  unfolding close_if_deadline
  close_detectors now [] = ([], [])
  close_detectors now ((id, r) ∷ srcs) =
      let (rest, pending) = close_detectors now srcs in
      elim r.detector [
        | none ↦ ((id, r) ∷ rest, pending)
        | some d ↦
            let (d', report) = close_if_deadline json floats groups now d in
            (
              (id, record r { detector = some d' }) ∷ rest,
              if report.finished then (id, report.cols) ∷ pending else pending,
            )
      ]

  unfoldable pub finalize_all : ℕ → List (ℕ × List Bytes) → Hub → Hub
  unfolding finalize_recommendation
  finalize_all now [] h = h
  finalize_all now ((id, cols) ∷ pending) h =
      finalize_all now pending (finalize_recommendation now id cols h)

  unfoldable pub tick_stats : ℕ → Hub → Hub
  unfolding close_detectors finalize_all
  tick_stats now h =
      let (srcs, pending) = close_detectors now h.srcs in
      finalize_all now pending (record h { srcs = srcs })
