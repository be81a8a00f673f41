-- ===== src/Server/Hub/Calls.antt =====
-- What lines and the ends of sources do to the table.
use loggi.Prelude.{
  ℕ, ◌≡◌, refl, inl, inr, Bool, true, false, some, if◌then◌else◌, lookup, insert, lookup-insert,
  nat_eq, arith, Option-cases, if_cases,
}
use loggi.Text.{Bytes, bytes_eq}
use loggi.Source.Aliases.{Groups}
use loggi.Source.Levels.{Decoder}
use loggi.Detect.Detector.{Report, detector_observe}
use loggi.Detect.Recommend.{Floats}
use loggi.Server.Hub.{
  closed, failed, SourceRec, Sources, Hub, is_running, broadcast_source_event,
  broadcast_source_state,
}
use loggi.Server.Hub.Health.{
  observe_mode, source_ended, count_line, finish, detect_line, note_line, source_line,
}
use loggi.Server.Hub.Registry.{IsHub, Tamer, change-IsTable}
use loggi.Server.Hub.Steps.{finalize-IsHub}

-- A record that differs in what the table is not about.
pub Tamer-same :
    (q r : SourceRec) → q.kind ≡ r.kind → q.name ≡ r.name → q.state ≡ r.state → Tamer q r
Tamer-same q r k n s = record { kind = k; name = n; state = λ p. rw (← s) p }

observe_mode-IsHub :
    (id : ℕ) (line_json : Bool) (h : Hub) → IsHub h → IsHub ((observe_mode id line_json h).0)
unfolding observe_mode
observe_mode-IsHub id line_json h v = elim (Option-cases (lookup id h.srcs)) [
  | inl l ↦ rw (l, observe_mode) v
  | inr (r, l) ↦
      rw (l, observe_mode)
        (change-IsTable h.generated id _ r h.srcs l (Tamer-same _ r refl refl refl) v)
]

pub source_ended-IsHub : (id : ℕ) (ok : Bool) (h : Hub) → IsHub h → IsHub (source_ended id ok h)
unfolding source_ended broadcast_source_state broadcast_source_event
source_ended-IsHub id ok h v = elim (Option-cases (lookup id h.srcs)) [
  | inl l ↦ rw (l, source_ended) v
  | inr (r, l) ↦
      rw (l, source_ended)
        (change-IsTable h.generated id _ r h.srcs l
          (record { kind = refl; name = refl; state = stopped ok r }) v)
]
  where
    stopped :
        (b : Bool) (r : SourceRec)
        → is_running (if b then closed else failed) ≡ true
        → is_running r.state ≡ true
    stopped true r p = cc
    stopped false r p = cc

finish-IsHub : (now id : ℕ) (report : Report) (h : Hub) → IsHub h → IsHub (finish now id report h)
unfolding finish
finish-IsHub now id report h v =
    if_cases IsHub report.finished _ _ (λ _. finalize-IsHub now id report.cols h v) λ _. v

lookup-insert_same : (id : ℕ) (q : SourceRec) (m : Sources) → lookup id (insert id q m) ≡ some q
lookup-insert_same id q m = ground (arith, lookup-insert id id q m)

module _ {Float : Type 0} (json : Decoder Float) (floats : Floats) (groups : Groups) where
  detect_line-IsHub :
      (now id : ℕ) (raw : Bytes) (r : SourceRec) (h : Hub)
      → lookup id h.srcs ≡ some r
      → IsHub h
      → IsHub (detect_line json floats groups now id raw r h)
  unfolding detect_line
  detect_line-IsHub now id raw r h l v = elim (Option-cases r.detector) [
    | inl e ↦ rw (e, detect_line) v
    | inr (d, e) ↦
        rw (e, detect_line)
          (finish-IsHub now id ((detector_observe json floats groups raw d).1) _
            (change-IsTable h.generated id _ r h.srcs l (Tamer-same _ r refl refl refl) v))
  ]

  note_line-IsHub :
      (now id : ℕ) (raw : Bytes) (line_json : Bool) (h : Hub)
      → IsHub h
      → IsHub (note_line json floats groups now id raw line_json h)
  unfolding note_line count_line
  note_line-IsHub now id raw line_json h v = elim (Option-cases (lookup id h.srcs)) [
    | inl l ↦ rw (l, note_line) v
    | inr (r, l) ↦
        let counted = count_line now r in
        let h' : Hub = record h { srcs = insert id counted h.srcs } in
        let w : IsHub h' =
          change-IsTable h.generated id counted r h.srcs l (Tamer-same counted r refl refl refl)
            v in
        rw (l, note_line)
          (if_cases IsHub line_json _ _
            (λ _. detect_line-IsHub now id raw counted h' (lookup-insert_same id counted h.srcs) w)
            λ _. w)
  ]

  pub source_line-IsHub :
      (now id : ℕ) (raw : Bytes) (line_json : Bool) (h : Hub)
      → IsHub h
      → IsHub (source_line json floats groups now id raw line_json h)
  unfolding source_line broadcast_source_state broadcast_source_event
  source_line-IsHub now id raw line_json h v =
      let w =
        note_line-IsHub now id raw line_json ((observe_mode id line_json h).0)
          (observe_mode-IsHub id line_json h v) in
      if_cases IsHub ((observe_mode id line_json h).2) _ _ (λ _. w) λ _. w
