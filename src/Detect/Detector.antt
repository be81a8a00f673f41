-- ===== src/Detect/Detector.antt =====
-- internal/server/coldetect.go: the detector of a source and the preferences it is kept in. The lock is
-- held through each call, so that calls are steps; `none` for the sampler is nil, after it closed.
use loggi.Prelude.{ℕ, Bool, true, false, Option, none, some, List, [], ◌∷◌, ◌&&◌, if◌then◌else◌}
use loggi.Text.{Bytes, str_eq}
use loggi.Source.Aliases.{Groups}
use loggi.Source.Levels.{Decoder}
use loggi.Detect.Sampler.{Sampler, observe, deadline_passed}
use loggi.Detect.Recommend.{Floats, recommend}

-- What a call returns: (done, finished, cols).
pub record Report : Type 0 where
  pub done : Bool
  pub finished : Bool
  pub cols : List Bytes

module _ {Float : Type 0} (json : Decoder Float) (floats : Floats) (groups : Groups) where
  unfoldable pub detector_observe : Bytes → Option Sampler → Option Sampler × Report
  detector_observe raw none = (none, record { done = true; finished = false; cols = [] })
  detector_observe raw (some sampler) =
      let (s, done) = observe json raw sampler in
      if done
      then (none, record { done = true; finished = true; cols = recommend floats groups s })
      else (some s, record { done = false; finished = false; cols = [] })

  unfoldable pub close_if_deadline : ℕ → Option Sampler → Option Sampler × Report
  close_if_deadline now none = (none, record { done = false; finished = false; cols = [] })
  close_if_deadline now (some s) =
      if deadline_passed now s
      then (none, record { done = false; finished = true; cols = recommend floats groups s })
      else (some s, record { done = false; finished = false; cols = [] })

pub record SourcePref : Type 0 where
  pub kind : Bytes
  pub name : Bytes
  pub columns : List Bytes
  pub locked : Bool
  pub detected_at : ℕ

abbrev pub is_pref : Bytes → Bytes → SourcePref → Bool
is_pref kind name p = str_eq p.kind kind && str_eq p.name name

-- The loop of lookupSourcePref over the user's preferences.
unfoldable pub lookup_source_pref : Bytes → Bytes → List SourcePref → Option SourcePref
lookup_source_pref kind name [] = none
lookup_source_pref kind name (p ∷ prefs) =
    if is_pref kind name p then some p else lookup_source_pref kind name prefs

-- What persistSourcePref makes of the preferences.
unfoldable pub persist_source_pref :
    ℕ → Bytes → Bytes → List Bytes → List SourcePref → List SourcePref
persist_source_pref now kind name cols [] =
    record { kind = kind; name = name; columns = cols; locked = true; detected_at = now } ∷ []
persist_source_pref now kind name cols (p ∷ prefs) =
    if is_pref kind name p
    then record p { columns = cols; locked = true; detected_at = now } ∷ prefs
    else p ∷ persist_source_pref now kind name cols prefs
