-- ===== src/Tests/Servers.antt =====
-- The sources, sessions and pumps of internal/server at concrete inputs.
use mathlib.Core.Option
use loggi.Prelude.{
  Option, none, length, ◌<◌, subst, ℕ, ◌+◌, ◌≤◌, ◌≡◌, refl, true, false, some, List, [], ◌∷◌, ◌++◌,
  ◌||◌, lookup, nat_eq, arith, inr, sym, true-ne-false,
}
use loggi.Text.{Bytes, codes, str_eq, str_eq_iff}
use loggi.Source.Aliases.{alias_map}
use loggi.Server.Hub.{json_mode, SourceRec, SourceRef, Hub, Options, kind_file, new_rec}
use loggi.Server.Hub.Profiles.{switch_to, activate_profile}
use loggi.Server.Hub.Registry.{IsHub}
use loggi.Server.Hub.Run.{Call, adds_file, activates, reads, ticks, run, run-IsHub}
use loggi.Server.Hub.Overlay.{activate_profile-spares}
use loggi.Server.Hub.Switches.{activate_profile_twice, shared_source_stays}
use loggi.Server.Hub.Modes.{observe_lines, observe_lines_lem, with_mode}
use loggi.Server.Idle.{
  Idle, start, cancel_idle, arm_idle, should_idle, Step, Reach, Ends, Reach-Ends,
}
use loggi.Server.Pump.{started, Turn, event, ticker, drops, turns, removed, cancelled, shut_down}
use loggi.Server.Pump.Batches.{rows, gaps, Small, pump_lem}
use loggi.Server.Session.Dispatch.{subscribe_msg, unsubscribe_msg, cleanup}
use loggi.Server.Session.Leaks.{registered, holds}
use loggi.Server.Session.Messages.{Event, message, row, session, opened, session-cleanup}
use loggi.Tests.Columns.{hundredths, rows_json}
use loggi.Tests.Filters.{three_rows}
use loggi.Tests.Library.{go, flags, ascii}
use loggi.Tests.Rows.{one_reader}
use loggi.Wire.Frame.{put_uint32, write_frame, read_all, write_all, read_all-write_all}

abbrev opts : Options
opts = record { column_detect_limit = 2; column_detect_timeout = 5; docker = λ name. true }

abbrev a_log : SourceRef
a_log = record { kind = kind_file; name = codes "a.log"; path = [] }

-- A file that a user added, and one of the active profile.
abbrev manual : SourceRec
manual = new_rec kind_file (codes "b.log") []

abbrev of_profile : SourceRec
of_profile = new_rec kind_file (codes "a.log") (codes "profile:one")

abbrev hub : Hub
hub = record {
  srcs = (1, manual) ∷ (2, of_profile) ∷ [];
  generated = 2;
  profiles = (codes "one", a_log ∷ []) ∷ (codes "two", a_log ∷ []) ∷ [];
  active_profile = codes "one";
  active_profile_sources = a_log ∷ [];
  prefs = some [];
  events = [];
}

hub-IsHub : IsHub hub
unfolding str_eq
hub-IsHub = record {
  fresh = (omega arith, (omega arith, tt));
  ids = (((λ e. omega (arith, e)), tt), (tt, tt));
  single = ((refl, tt), (tt, tt));
}

abbrev calls : List (ℕ × Call)
calls =
    (1, adds_file (codes "a.log"))
    ∷ (2, activates (codes "two"))
    ∷ (3, reads 2 (codes "{}") true)
    ∷ (9, ticks)
    ∷ []

run-IsHub_example : IsHub (run rows_json hundredths alias_map opts calls hub)
run-IsHub_example = run-IsHub rows_json hundredths alias_map opts calls hub hub-IsHub

abbrev none_active : Hub
none_active = switch_to opts 3 [] [] hub

activate_profile-spares_example : lookup 1 none_active.srcs ≡ some manual
unfolding activate_profile
activate_profile-spares_example =
    activate_profile-spares opts 3 [] hub none_active 1 manual hub-IsHub (inr refl) refl refl refl

activate_profile_twice_example : activate_profile opts 4 [] none_active ≡ some none_active
unfolding activate_profile
activate_profile_twice_example = activate_profile_twice opts 3 4 [] hub none_active refl

abbrev two_active : Hub
two_active = switch_to opts 3 (codes "two") (a_log ∷ []) hub

abbrev left_over : Hub
left_over = switch_to opts 4 [] [] two_active

shared_source_stays_example :
    (lookup 2 left_over.srcs ≡ some of_profile)
    × (left_over.active_profile ≡ [])
    × (left_over.active_profile_sources ≡ [])
unfolding activate_profile str_eq
shared_source_stays_example =
    shared_source_stays opts 3 4 (codes "two") (a_log ∷ []) hub two_active left_over 2 of_profile
      hub-IsHub refl (λ e. true-ne-false (sym ((str_eq_iff (codes "one") (codes "two")).1 e))) refl
      refl (λ r h. h) refl refl refl

observe_lines_lem_example :
    (lookup 1 ((observe_lines 1 (false ∷ true ∷ false ∷ []) hub).0).srcs
      ≡ some (with_mode (some json_mode) manual))
    × ((observe_lines 1 (false ∷ true ∷ false ∷ []) hub).1 ≤ 2)
observe_lines_lem_example = observe_lines_lem 1 (false ∷ true ∷ false ∷ []) hub manual refl

abbrev some_turns : List Turn
some_turns = event 4 ∷ drops ∷ event 5 ∷ ticker ∷ event 7 ∷ []

pump_lem_example :
    let p = turns some_turns (started 1) in
    let q = turns some_turns (removed p) in
    (rows (shut_down (8 ∷ []) p).sent ≡ (4 ∷ 5 ∷ 7 ∷ []) ++ 8 ∷ [])
    × (gaps (shut_down (8 ∷ []) p).sent ≡ 1 + 1)
    × Small (shut_down (8 ∷ []) p).sent
    × (rows (cancelled q).sent ≡ (4 ∷ 5 ∷ 7 ∷ []) ++ 4 ∷ 5 ∷ 7 ∷ [])
    × (gaps (cancelled q).sent ≡ gaps p.sent)
    × (gaps p.sent + p.dropped ≡ 1 + 1)
    × Small (cancelled q).sent
pump_lem_example = pump_lem 1 some_turns some_turns (8 ∷ [])

-- A subscription is replaced by one with its id while a row is published.
abbrev two_subscriptions : List (Event go flags ascii)
two_subscriptions =
    message three_rows 0 3 1 (subscribe_msg 5 [] 0 0)
    ∷ row 3
    ∷ message three_rows 0 4 2 (subscribe_msg 5 [] 10 0)
    ∷ message three_rows 0 4 3 (subscribe_msg 6 [] 0 0)
    ∷ message three_rows 0 4 4 (unsubscribe_msg 6)
    ∷ []

session-cleanup_example :
    let c = session go flags ascii two_subscriptions (opened go flags ascii one_reader) in
    (registered 2 c.registry.subs ≡ (registered 2 one_reader.subs || holds go flags 2 c.subs))
    × (registered 2 (cleanup go flags c).registry.subs ≡ registered 2 one_reader.subs)
session-cleanup_example =
    session-cleanup go flags ascii one_reader (omega arith, tt) two_subscriptions 2

-- A session comes and goes.
abbrev after_session : Idle
after_session = record {
  opened = 0;
  sessions = 0;
  attaching = 0;
  connecting = 0;
  leaving = 1;
  firing = 0;
  timer = false;
  down = false;
}

after_session-Reach : Reach after_session
unfolding start cancel_idle arm_idle should_idle
after_session-Reach =
    Reach.next
      (Reach.next
        (Reach.next Reach.here
          (Step.session_added (record after_session { leaving = 0; timer = true })))
        (Step.connected
          (record after_session { sessions = 1; connecting = 1; leaving = 0; timer = true })
          (omega arith)))
      (Step.session_gone (record after_session { sessions = 1; leaving = 0 }) (omega arith))

Reach-Ends_example : Ends after_session
unfolding should_idle
Reach-Ends_example = Reach-Ends after_session after_session-Reach refl

-- The text of a message is the message.
abbrev as_text : Bytes → Option Bytes
as_text [] = none
as_text (c ∷ s) = some (c ∷ s)

undo : (v p : Bytes) → as_text v ≡ some p → ◌≡◌ {A = Option Bytes} (some p) (some v)
undo [] p e = cc
undo (c ∷ v) p e = sym e

some_bytes : (v p : Bytes) → as_text v ≡ some p → 0 < length p
some_bytes [] p e = absurd (cc)
some_bytes (c ∷ v) p e = subst (λ x. 0 < length x) (Option.some-injective _ _ e) (omega arith)

read_all-write_all_example :
    read_all as_text (λ s. some s) 2 (put_uint32 2 ++ codes "up" ++ (put_uint32 1 ++ codes "x"))
    ≡ codes "up" ∷ codes "x" ∷ []
unfolding write_frame write_all put_uint32
read_all-write_all_example =
    read_all-write_all as_text (λ s. some s) (codes "up" ∷ codes "x" ∷ []) _ undo some_bytes refl
