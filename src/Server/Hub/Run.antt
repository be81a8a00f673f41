-- ===== src/Server/Hub/Run.antt =====
-- The calls of a server on its sources, in any sequence.
use loggi.Prelude.{
  ℕ, ◌≡◌, refl, subst, inl, inr, Bool, Option, none, some, List, [], ◌∷◌, lookup, nat_eq, is_empty,
  arith, Bool-cases, Option-cases,
}
use loggi.Text.{Bytes, bytes_eq}
use loggi.Source.Aliases.{Groups}
use loggi.Source.Levels.{Decoder}
use loggi.Detect.Recommend.{Floats}
use loggi.Server.Hub.{
  Hub, Options, remove_source, add_file_source, add_stdin_source, add_docker_source,
}
use loggi.Server.Hub.Profiles.{switch_to, activate_profile}
use loggi.Server.Hub.Health.{source_ended, source_line, tick_stats}
use loggi.Server.Hub.Registry.{IsHub}
use loggi.Server.Hub.Steps.{
  remove_source-IsHub, add_file_source-IsHub, add_stdin_source-IsHub, add_docker_source-IsHub,
  switch_to-IsHub,
}
use loggi.Server.Hub.Calls.{source_ended-IsHub, source_line-IsHub}
use loggi.Server.Hub.Ticks.{tick_stats-IsHub}

pub data Call : Type 0 where
  adds_file adds_stdin adds_docker activates : Bytes → Call
  removes : ℕ → Call
  ends : ℕ → Bool → Call
  reads : ℕ → Bytes → Bool → Call
  ticks : Call

-- A call that fails leaves the hub as it was.
abbrev or_as_before : Option Hub → Hub → Hub
or_as_before none h = h
or_as_before (some k) h = k

module _ {Float : Type 0} (json : Decoder Float) (floats : Floats) (groups : Groups)
    (opts : Options) where
  -- A call at a time.
  pub step : ℕ × Call → Hub → Hub
  step (now, adds_file path) h = (add_file_source opts now path [] h).0
  step (now, adds_stdin name) h = (add_stdin_source opts now name h).0
  step (now, adds_docker name) h = (add_docker_source opts now name [] h).0
  step (now, activates name) h = or_as_before (activate_profile opts now name h) h
  step (now, removes id) h = or_as_before (remove_source id h) h
  step (now, ends id ok) h = source_ended id ok h
  step (now, reads id raw line_json) h = source_line json floats groups now id raw line_json h
  step (now, ticks) h = tick_stats json floats groups now h

  pub run : List (ℕ × Call) → Hub → Hub
  run [] h = h
  run (c ∷ cs) h = run cs (step c h)

  or_as_before-IsHub :
      (o : Option Hub) (h : Hub)
      → ((k : Hub) → o ≡ some k → IsHub k)
      → IsHub h
      → IsHub (or_as_before o h)
  or_as_before-IsHub none h f v = v
  or_as_before-IsHub (some k) h f v = f k refl

  activate-IsHub :
      (now : ℕ) (name : Bytes) (h k : Hub)
      → activate_profile opts now name h ≡ some k
      → IsHub h
      → IsHub k
  unfolding activate_profile
  activate-IsHub now name h k e v = elim (Bool-cases (is_empty name)) [
    | inl p ↦
        let same_hub : switch_to opts now name [] h ≡ k = ground (arith, p) in
        subst IsHub same_hub (switch_to-IsHub opts now name [] h v)
    | inr p ↦ elim (Option-cases (lookup name h.profiles)) [
      | inl l ↦ absurd (ground (arith, p, l))
      | inr (refs, l) ↦
          let same_hub : switch_to opts now name refs h ≡ k = ground (arith, p, l) in
          subst IsHub same_hub (switch_to-IsHub opts now name refs h v)
    ]
  ]

  step-IsHub : (c : ℕ × Call) (h : Hub) → IsHub h → IsHub (step c h)
  unfolding step
  step-IsHub (now, adds_file path) h v = add_file_source-IsHub opts now path [] h v
  step-IsHub (now, adds_stdin name) h v = add_stdin_source-IsHub opts now name h v
  step-IsHub (now, adds_docker name) h v = add_docker_source-IsHub opts now name [] h v
  step-IsHub (now, activates name) h v =
      or_as_before-IsHub _ h (λ k e. activate-IsHub now name h k e v) v
  step-IsHub (now, removes id) h v =
      or_as_before-IsHub _ h (λ k e. remove_source-IsHub id h k e v) v
  step-IsHub (now, ends id ok) h v = source_ended-IsHub id ok h v
  step-IsHub (now, reads id raw line_json) h v =
      source_line-IsHub json floats groups now id raw line_json h v
  step-IsHub (now, ticks) h v = tick_stats-IsHub json floats groups now h v

  -- Over any calls of a server, one after the other, the ids of its sources stay different and no
  -- greater than the last one generated, and no two running sources, other than of stdin, have the
  -- same kind and name.
  pub run-IsHub : (cs : List (ℕ × Call)) (h : Hub) → IsHub h → IsHub (run cs h)
  unfolding run
  run-IsHub [] h v = v
  run-IsHub (c ∷ cs) h v = run-IsHub cs (step c h) (step-IsHub c h v)
