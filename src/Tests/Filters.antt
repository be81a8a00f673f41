-- ===== src/Tests/Filters.antt =====
-- internal/filter at concrete inputs: a store of three rows with the column `level` in its index.
use mathlib.Core.Option
use loggi.Prelude.{
  ℕ, zero, suc, ◌≤◌, ◌<◌, ◌≡◌, ◌≢◌, refl, sym, subst, ap, ◌∙◌, true, false, not, Option, none, some,
  List, [], ◌∷◌, ◌==◌, arith, if◌then◌else◌,
}
use loggi.Text.{Bytes, codes, str_eq}
use loggi.Store.Types.{col_dict, MaterializedRow}
use loggi.Store.Query.{query_range, query_range_bitmap}
use loggi.Filter.Ast.{GlobPart, lit, wild, Node, and_node, eq_node, substr_node}
use loggi.Filter.Eval.{EvalFn, compile, wrap, eq_hot_test}
use loggi.Filter.Eval.Spec.{holds, eq_holds}
use loggi.Filter.Eval.Holds.{wrap-compile}
use loggi.Filter.Glob.{match_glob, GlobMatches, match_glob_sound, match_glob_complete}
use loggi.Filter.Parser.{parse}
use loggi.Filter.Parser.Fuel.{parse_total}
use loggi.Filter.Plan.{uint32, plan_eval, compile_plan}
use loggi.Filter.Plan.Query.{at_store, planned_query}
use loggi.Filter.Plan.Sound.{IndexAgrees, compile_plan-compile_filter}
use loggi.Filter.Reader.{HotColumn, Reader}
use loggi.Filter.Term.{out_of_fuel}
use loggi.Tests.Library.{Flags, has, flags, go, ascii}

abbrev info : Bytes
info = codes "info"

abbrev level : List Bytes
level = codes "level" ∷ []

-- Row 1 has no level.
abbrev level_at : ℕ → Bytes → Bytes
level_at (suc zero) name = []
level_at seq name = info

abbrev info_rows : Flags
info_rows = record { bound = 3; member = λ x. not (x == 1) }

abbrev bitmap_of : Bytes → Option Flags
bitmap_of v = if str_eq v info then some info_rows else none

abbrev level_column : HotColumn go flags
level_column = record { kind = col_dict; bitmap_for_value = bitmap_of }

abbrev column_of : Bytes → Option (HotColumn go flags)
column_of name = if str_eq name (codes "level") then some level_column else none

abbrev row_of : ℕ → MaterializedRow ℕ
row_of seq = record {
  seq = seq;
  ts = 0;
  source_id = 1;
  level = level_at seq [];
  service = codes "api";
  msg = codes "up";
  fields = [];
  ansi = [];
  text = false;
}

abbrev pub three_rows : Reader go flags
three_rows = record {
  hot_column = column_of;
  hot_string = level_at;
  hot_f64 = λ seq name. none;
  materialize = λ seq. some (row_of seq);
  source_name = λ id. codes "app";
  source_id_of_seq = λ seq. 1;
}

-- `level:info up`
abbrev pub info_up : Node ℕ Bytes
info_up = and_node (eq_node level info) (substr_node (codes "msg" ∷ []) (codes "up") false none)

abbrev Agrees : ℕ → HotColumn go flags → Type 0
Agrees seq c =
    ((bm : Flags)
      → c.bitmap_for_value info ≡ some bm
      → has bm (uint32 seq) ≡ eq_hot_test go flags info (level_at seq (codes "level")))
    × (c.bitmap_for_value info ≡ none
        → c.kind ≡ col_dict
        → eq_hot_test go flags info (level_at seq (codes "level")) ≡ false)

-- The column answers with the rows of its value.
level_column_of :
    (seq : ℕ)
    → has info_rows (uint32 seq) ≡ eq_hot_test go flags info (level_at seq (codes "level"))
    → Agrees seq level_column
unfolding str_eq
level_column_of seq h = (
  (λ bm e. ap (λ b. has b (uint32 seq)) (sym (Option.some-injective info_rows bm e)) ∙ h),
  (λ e. cc),
)

level_column-Agrees : (seq : ℕ) → seq < 3 → Agrees seq level_column
unfolding eq_hot_test str_eq
level_column-Agrees zero h = level_column_of 0 refl
level_column-Agrees (suc zero) h = level_column_of 1 refl
level_column-Agrees (suc (suc zero)) h = level_column_of 2 refl
level_column-Agrees (suc (suc (suc n))) h = absurd (omega arith)

pub info_up-IndexAgrees :
    (seq : ℕ) → 0 ≤ seq → seq < 3 → IndexAgrees go flags three_rows seq info_up
unfolding eq_holds str_eq
info_up-IndexAgrees seq h k = (
  (λ c e. subst (Agrees seq) (Option.some-injective level_column c e) (level_column-Agrees seq k)),
  tt,
)

-- The rows that are not passed over: limit 1 of the rows 0 and 2.
planned_query_example :
    (query_range_bitmap flags 0 3
      (compile_plan go flags three_rows (some info_up)).candidates
      (at_store go flags three_rows (compile_plan go flags three_rows (some info_up)).residual)
      0
      0
      1)
    ≡ query_range 0 3 (some (wrap go flags (compile go flags three_rows info_up) three_rows)) 0 0 1
planned_query_example =
    planned_query go flags three_rows info_up 0 3 0 0 1 (omega arith) info_up-IndexAgrees

compile_plan-compile_filter_example :
    (f : EvalFn go flags) × (plan_eval go flags (compile_plan go flags three_rows (some info_up))
      ≡ some f)
    × (f three_rows 2 ≡ wrap go flags (compile go flags three_rows info_up) three_rows 2)
compile_plan-compile_filter_example =
    compile_plan-compile_filter go flags three_rows info_up 2
      (info_up-IndexAgrees 2 (omega arith) (omega arith))

wrap-compile_example :
    wrap go flags (compile go flags three_rows info_up) three_rows 2
    ≡ holds go flags three_rows info_up three_rows 2
wrap-compile_example = wrap-compile go flags three_rows info_up three_rows 2

-- `a*b*` on `axb!`
abbrev a_b : List GlobPart
a_b = lit (codes "a") ∷ wild ∷ lit (codes "b") ∷ wild ∷ []

match_glob_sound_example : GlobMatches a_b (codes "axb!")
unfolding match_glob
match_glob_sound_example = match_glob_sound (codes "axb!") a_b refl

match_glob_complete_example : match_glob (codes "axb!") a_b ≡ true
unfolding match_glob
match_glob_complete_example = match_glob_complete (codes "axb!") a_b tt refl (
  codes "xb!",
  refl,
  (codes "x", codes "b!", refl, (codes "!", refl, (codes "!", [], refl, refl))),
)

parse_total_example : parse go ascii (codes "-level:>=warn (a OR b*)") ≢ out_of_fuel
parse_total_example = parse_total go ascii (codes "-level:>=warn (a OR b*)")

abbrev noticed : Reader go flags
noticed = record three_rows { hot_string = λ seq name. codes "notice" }
