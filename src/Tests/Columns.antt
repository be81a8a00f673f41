-- ===== src/Tests/Columns.antt =====
-- internal/coldetect and internal/source/aliases.go at concrete inputs.
use mathlib.Core.Logic.{◌↔◌}
use loggi.Prelude.{
  ℕ, ◌+◌, ◌*◌, ◌/◌, ◌≡◌, refl, true, some, none, List, [], ◌∷◌, ◌++◌, ◌==◌, ltb, take, filter,
  sort_stable, arith, IsLess, same, swap,
}
use loggi.Text.{Bytes, codes, str_eq, bytes_lt}
use loggi.Source.Aliases.{alias_map, resolve, members, has, priorities, is_priority}
use loggi.Source.Aliases.Members.{resolve_iff_member}
use loggi.Source.Levels.{Decoder}
use loggi.Detect.Sampler.{FieldStat, Stats, Sampler, new, observe}
use loggi.Detect.Observed.{IsSampler, observe_all, observe_all-IsSampler}
use loggi.Detect.Recommend.{Floats, recommend, ranks_before, top_k}
use loggi.Detect.Ranking.{shows, others, logicals, recommend_lem}
use loggi.Detect.Orderless.{IsOrdered, recommend-Reordered}
use loggi.Detect.Closing.{Call, row, tick, run, reports, reports_at_limit}
use loggi.Tests.Sources.{plain}

-- Hundredths in the place of floats.
abbrev pub hundredths : Floats
hundredths = record {
  F = ℕ;
  of_int = λ n. n * 100;
  times = λ a b. a * b / 100;
  over = λ a b. a * 100 / b;
  log = λ a. a;
  ceil = λ a. (a + 99) / 100;
  less = ltb;
  same_value = ◌==◌;
  priority_presence = 50;
  min_presence_ratio = 60;
  rank95 = 95;
}

ltb-IsLess : IsLess ltb
ltb-IsLess = record { asym = λ x y h. ground arith; above = λ x y z h k. ground arith }

hundredths-IsOrdered : IsOrdered hundredths
hundredths-IsOrdered = record { weak = ltb-IsLess; same_iff = λ x y. ground arith }

-- Every row is an object of a time and an application.
abbrev pub rows_json : Decoder ℕ
rows_json = record plain {
  raw_object = λ s. some ((codes "timestamp", codes "12") ∷ (codes "app", s) ∷ []);
}

abbrev time_stat : FieldStat
time_stat = record {
  count = 3;
  distinct = codes "12" ∷ [];
  val_lens = 2 ∷ 2 ∷ 2 ∷ [];
  depth = 1;
  id_like = 0;
}

abbrev app_stat : FieldStat
app_stat = record {
  count = 3;
  distinct = codes "b" ∷ codes "a" ∷ [];
  val_lens = 1 ∷ 1 ∷ 1 ∷ [];
  depth = 1;
  id_like = 0;
}

abbrev three_fields : Stats
three_fields = (codes "timestamp", time_stat) ∷ (codes "app", app_stat) ∷ []

abbrev turned_fields : Stats
turned_fields = (codes "app", app_stat) ∷ (codes "timestamp", time_stat) ∷ []

abbrev three_seen : Sampler
three_seen = record { limit = 150; deadline = 30; n = 3; fields = three_fields }

abbrev rows : List Bytes
rows = codes "a" ∷ codes "b" ∷ codes "a" ∷ []

observe_all-runs : (observe_all rows_json rows (new 0 0 0)).fields ≡ three_fields
unfolding observe_all observe new str_eq
observe_all-runs = refl

recommend-runs : recommend hundredths alias_map three_seen ≡ codes "ts" ∷ codes "@app" ∷ []
unfolding recommend resolve is_priority has bytes_lt str_eq alias_map
recommend-runs = refl

recommend_lem_example :
    recommend hundredths alias_map three_seen
    ≡ take top_k (
        filter (shows hundredths alias_map 3 three_fields) priorities
        ++ logicals hundredths
            (sort_stable (ranks_before hundredths 3) (others hundredths alias_map 3 three_fields)))
recommend_lem_example = recommend_lem hundredths alias_map three_seen (λ e. omega (arith, e))

recommend-Reordered_example :
    recommend hundredths alias_map three_seen
    ≡ recommend hundredths alias_map (record three_seen { fields = turned_fields })
recommend-Reordered_example =
    recommend-Reordered hundredths alias_map three_seen turned_fields hundredths-IsOrdered same
      (swap same) ((λ e. cc, tt), (tt, tt))

observe_all-IsSampler_example : IsSampler rows_json (observe_all rows_json rows (new 0 2 5))
observe_all-IsSampler_example = observe_all-IsSampler rows_json 0 2 5 rows

abbrev two_rows : List Call
two_rows = row (codes "a") ∷ tick 1 ∷ row (codes "b") ∷ row (codes "c") ∷ []

reports_at_limit_example :
    (run rows_json hundredths alias_map two_rows (some (new 0 2 5)) ≡ none)
    × (reports rows_json hundredths alias_map two_rows (some (new 0 2 5)) ≡ 1)
unfolding new
reports_at_limit_example =
    reports_at_limit rows_json hundredths alias_map 0 2 5 two_rows (omega arith)

resolve_iff_member_example :
    (resolve alias_map (codes "message") ≡ codes "msg")
    ↔ (has (codes "message") (members (codes "msg")) ≡ true)
resolve_iff_member_example =
    resolve_iff_member alias_map (codes "message") (codes "msg") same (λ e. cc)
