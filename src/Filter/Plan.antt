-- ===== src/Filter/Plan.antt =====
-- internal/filter/plan.go: query plans, a candidate bitmap and a residual test. `none` is a nil
-- bitmap or a nil function.
pub mod Sound
pub mod Query
use loggi.Prelude.{
  ℕ, ◌%◌, ◌^◌, Bool, true, false, not, ◌&&◌, ◌||◌, Option, none, some, List, [], ◌∷◌, if◌then◌else◌,
}
use loggi.Store.Bitmap.{Roaring}
use loggi.Store.Types.{ColumnKind, col_dict, col_raw, col_f64}
use loggi.Text.{Bytes}
use loggi.Filter.Ast.{FieldPath, Node, and_node, or_node, not_node, eq_node}
use loggi.Filter.Eval.{EvalFn, compile, wrap}
use loggi.Filter.Reader.{Library, HotColumn, Reader}

-- A uint32 conversion.
abbrev pub uint32 : ℕ → ℕ
uint32 seq = seq % 2 ^ 32

unfoldable pub is_dict : ColumnKind → Bool
is_dict col_dict = true
is_dict _ = false

module _ (lib : Library) (roaring : Roaring) where
  open lib use {Float, Regexp}
  open roaring use {Bitmap, new, contains, and_bitmap, or_bitmap}

  pub record Plan : Type 0 where
    pub candidates : Option Bitmap
    pub residual : Option (EvalFn lib roaring)

  eval_parts : Option Bitmap → Option (EvalFn lib roaring) → Option (EvalFn lib roaring)
  eval_parts none none = none
  eval_parts none (some res) = some res
  eval_parts (some bm) none = some (λ s seq. contains bm (uint32 seq))
  eval_parts (some bm) (some res) = some (λ s seq. contains bm (uint32 seq) && res s seq)

  -- Eval
  unfoldable pub plan_eval : Plan → Option (EvalFn lib roaring)
  unfolding eval_parts
  plan_eval p = eval_parts p.candidates p.residual

  unfoldable pub combine_and :
      Option (EvalFn lib roaring) → Option (EvalFn lib roaring) → Option (EvalFn lib roaring)
  combine_and none none = none
  combine_and none (some b) = some b
  combine_and (some a) none = some a
  combine_and (some a) (some b) = some (λ s seq. a s seq && b s seq)

  and_candidates : Option Bitmap → Option Bitmap → Option Bitmap
  and_candidates (some l) (some r) = some (and_bitmap l r)
  and_candidates (some l) none = some l
  and_candidates none (some r) = some r
  and_candidates none none = none

  unfoldable pub plan_and : Plan → Plan → Plan
  unfolding and_candidates combine_and
  plan_and l r = record {
    candidates = and_candidates l.candidates r.candidates;
    residual = combine_and l.residual r.residual;
  }

  -- A nil function of a side counts as a test that fails.
  asks : Option (EvalFn lib roaring) → EvalFn lib roaring
  asks none s seq = false
  asks (some f) s seq = f s seq

  or_residual : Plan → Plan → Plan
  unfolding plan_eval asks
  or_residual l r = record {
    candidates = none;
    residual = some (λ s seq. asks (plan_eval l) s seq || asks (plan_eval r) s seq);
  }

  or_parts :
      Plan
      → Plan
      → Option Bitmap
      → Option Bitmap
      → Option (EvalFn lib roaring)
      → Option (EvalFn lib roaring)
      → Plan
  unfolding or_residual
  or_parts l r (some a) (some b) none none = record {
    candidates = some (or_bitmap a b);
    residual = none;
  }
  or_parts l r _ _ _ _ = or_residual l r

  unfoldable pub plan_or : Plan → Plan → Plan
  unfolding or_parts
  plan_or l r = or_parts l r l.candidates r.candidates l.residual r.residual

  not_test : Option (EvalFn lib roaring) → EvalFn lib roaring
  not_test none s seq = false
  not_test (some inner) s seq = not (inner s seq)

  residual_plan : Reader lib roaring → Node Float Regexp → Plan
  residual_plan s₀ n = record {
    candidates = none;
    residual = some (wrap lib roaring (compile lib roaring s₀ n));
  }

  unfoldable pub plan_eq : Reader lib roaring → FieldPath → Bytes → Plan
  unfolding is_dict residual_plan
  plan_eq s₀ (name ∷ []) v = elim (s₀.hot_column name) [
    | none ↦ residual_plan s₀ (eq_node (name ∷ []) v)
    | some c ↦ elim (c.bitmap_for_value v) [
      | some bm ↦ record { candidates = some bm; residual = none }
      | none ↦
          if is_dict c.kind
          then record { candidates = some new; residual = none }
          else residual_plan s₀ (eq_node (name ∷ []) v)
    ]
  ]
  plan_eq s₀ path v = residual_plan s₀ (eq_node path v)

  unfoldable pub plan_node : Reader lib roaring → Node Float Regexp → Plan
  unfolding plan_and plan_or plan_eval not_test plan_eq residual_plan
  plan_node s₀ (and_node l r) = plan_and (plan_node s₀ l) (plan_node s₀ r)
  plan_node s₀ (or_node l r) = plan_or (plan_node s₀ l) (plan_node s₀ r)
  plan_node s₀ (not_node x) = record {
    candidates = none;
    residual = some (not_test (plan_eval (plan_node s₀ x)));
  }
  plan_node s₀ (eq_node path v) = plan_eq s₀ path v
  plan_node s₀ n = residual_plan s₀ n

  unfoldable pub compile_plan : Reader lib roaring → Option (Node Float Regexp) → Plan
  unfolding plan_node
  compile_plan s₀ none = record { candidates = none; residual = none }
  compile_plan s₀ (some n) = plan_node s₀ n
