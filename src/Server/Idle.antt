-- ===== src/Server/Idle.antt =====
-- internal/server/server.go and session.go: the idle timer. What starts and ends a source or a session
-- changes the counts first and calls cancelIdle or maybeStartIdle after; other goroutines may act in
-- between. shouldIdle reads both counts at one moment; the lock of the timer makes each call one step.
use loggi.Prelude.{
  ℕ, suc, ◌-◌, ◌≤◌, ◌<◌, ◌≡◌, refl, ◌⊎◌, inl, inr, Bool, true, false, ◌&&◌, ◌==◌, if◌then◌else◌,
  if_cases, arith, Bool-cases, true-ne-false, sym, ◌∙◌,
}

-- `opened` counts the sources that run, `attaching` those whose attach has still to cancel the timer,
-- `connecting` the sessions that have; `leaving` counts the calls of maybeStartIdle that are to come,
-- `firing` those of idleFire that have taken the timer and not yet looked.
pub record Idle : Type 0 where
  pub opened : ℕ
  pub sessions : ℕ
  pub attaching : ℕ
  pub connecting : ℕ
  pub leaving : ℕ
  pub firing : ℕ
  pub timer : Bool
  pub down : Bool

unfoldable pub should_idle : Idle → Bool
should_idle s = s.opened == 0 && s.sessions == 0

-- armIdleLocked: a timer that is there stays.
unfoldable pub arm_idle : Idle → Idle
unfolding should_idle
arm_idle s = if s.timer then s else record s { timer = should_idle s }

unfoldable pub cancel_idle : Idle → Idle
cancel_idle s = record s { timer = false }

-- The second half of idleFire.
unfoldable pub look : Idle → Idle
unfolding should_idle
look s = if should_idle s then record s { down = true } else s

-- Start, before any source or session.
unfoldable pub start : Idle
unfolding arm_idle
start = arm_idle (record {
  opened = 0;
  sessions = 0;
  attaching = 0;
  connecting = 0;
  leaving = 0;
  firing = 0;
  timer = false;
  down = false;
})

-- A source ends or is removed only after its attach has cancelled the timer, a session after its own.
pub data Step : Idle → Idle → Type 0 where
  source_added :
      (s : Idle) → Step s (record s { opened = suc s.opened; attaching = suc s.attaching })
  attached :
      (s : Idle) → 0 < s.attaching → Step s (cancel_idle (record s { attaching = s.attaching - 1 }))
  source_gone :
      (s : Idle)
      → s.attaching < s.opened
      → Step s (record s { opened = s.opened - 1; leaving = suc s.leaving })
  session_added :
      (s : Idle) → Step s (record s { sessions = suc s.sessions; connecting = suc s.connecting })
  connected :
      (s : Idle)
      → 0 < s.connecting
      → Step s (cancel_idle (record s { connecting = s.connecting - 1 }))
  session_gone :
      (s : Idle)
      → s.connecting < s.sessions
      → Step s (record s { sessions = s.sessions - 1; leaving = suc s.leaving })
  left : (s : Idle) → 0 < s.leaving → Step s (arm_idle (record s { leaving = s.leaving - 1 }))
  fires : (s : Idle) → s.timer ≡ true → Step s (record s { timer = false; firing = suc s.firing })
  looks : (s : Idle) → 0 < s.firing → Step s (look (record s { firing = s.firing - 1 }))

pub data Reach : Idle → Type 0 where
  here : Reach start
  next : {s t : Idle} → Reach s → Step s t → Reach t

-- Something will shut the server down if it stays idle: it is down, a timer runs, or a call of
-- maybeStartIdle or idleFire is on its way.
abbrev pub Ends : Idle → Type 0
Ends s = (s.down ≡ true) ⊎ ((s.timer ≡ true) ⊎ ((0 < s.leaving) ⊎ (0 < s.firing)))

-- `Ends`, or the server is in use.
abbrev Covered : Idle → Type 0
Covered s = (should_idle s ≡ false) ⊎ Ends s

record IsIdle (s : Idle) : Type 0 where
  attach : s.attaching ≤ s.opened
  connect : s.connecting ≤ s.sessions
  covered : Covered s

start-IsIdle : IsIdle start
unfolding start
start-IsIdle = record {
  attach = omega arith;
  connect = omega arith;
  covered = inr (inr (inl refl));
}

Step-IsIdle : {s t : Idle} → Step s t → IsIdle s → IsIdle t
unfolding cancel_idle arm_idle look should_idle
Step-IsIdle (source_added s) v = record {
  attach = omega (arith, v.attach);
  connect = v.connect;
  covered = inl (ground arith);
}
Step-IsIdle (attached s p) v = record {
  attach = omega (arith, v.attach);
  connect = v.connect;
  covered = inl (ground (arith, p, v.attach));
}
Step-IsIdle (source_gone s p) v = record {
  attach = omega (arith, p);
  connect = v.connect;
  covered = inr (inr (inr (inl (omega arith))));
}
Step-IsIdle (session_added s) v = record {
  attach = v.attach;
  connect = omega (arith, v.connect);
  covered = inl (ground arith);
}
Step-IsIdle (connected s p) v = record {
  attach = v.attach;
  connect = omega (arith, v.connect);
  covered = inl (ground (arith, p, v.connect));
}
Step-IsIdle (session_gone s p) v = record {
  attach = v.attach;
  connect = omega (arith, p);
  covered = inr (inr (inr (inl (omega arith))));
}
Step-IsIdle (left s p) v =
    if_cases IsIdle s.timer _ _
      (λ t. record { attach = v.attach; connect = v.connect; covered = inr (inr (inl t)) })
      λ _. record {
        attach = v.attach;
        connect = v.connect;
        covered = elim (Bool-cases (s.opened == 0 && s.sessions == 0)) [
          | inl e ↦ inr (inr (inl e))
          | inr e ↦ inl e
        ];
      }
Step-IsIdle (fires s p) v = record {
  attach = v.attach;
  connect = v.connect;
  covered = inr (inr (inr (inr (omega arith))));
}
Step-IsIdle (looks s p) v =
    if_cases IsIdle (s.opened == 0 && s.sessions == 0) _ _
      (λ _. record { attach = v.attach; connect = v.connect; covered = inr (inl refl) })
      λ e. record { attach = v.attach; connect = v.connect; covered = inl e }

Reach-IsIdle : (s : Idle) → Reach s → IsIdle s
Reach-IsIdle _ here = start-IsIdle
Reach-IsIdle _ (next {s = s} r step) = Step-IsIdle step (Reach-IsIdle s r)

-- Whenever no source runs and no session is connected, whatever goroutines act in between, the server is
-- down, its timer runs, or a call of maybeStartIdle or idleFire is still to come; where no source ends
-- before its attach has cancelled the timer.
pub Reach-Ends : (s : Idle) → Reach s → should_idle s ≡ true → Ends s
Reach-Ends s r h = elim ((Reach-IsIdle s r).covered) [
  | inl e ↦ absurd (true-ne-false (sym h ∙ e))
  | inr e ↦ e
]
