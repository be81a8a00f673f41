-- ===== src/Filter/Plan/Sound.antt =====
-- A plan accepts the rows that the compiled filter accepts, where the index of each column agrees
-- with its values.
use loggi.Prelude.{
  ℕ, ◌≡◌, refl, sym, ap, ◌∙◌, Bool, true, false, not, ◌&&◌, ◌||◌, Option, none, some, Option-cases,
  inl, inr, ◌⊎◌, [], ◌∷◌, arith,
}
use loggi.Store.Bitmap.{Roaring}
use loggi.Store.Types.{ColumnKind, col_dict}
use loggi.Text.{Bytes, str_eq}
use loggi.Filter.Ast.{
  FieldPath, Node, and_node, or_node, not_node, eq_node, substr_node, exists_node, range_node,
  cmp_num_node, cmp_str_node, regex_node,
}
use loggi.Filter.Eval.{EvalFn, compile, wrap, eq_hot_test}
use loggi.Filter.Eval.Spec.{eq_holds, holds}
use loggi.Filter.Eval.Holds.{wrap-compile}
use loggi.Filter.Plan.{
  Plan, uint32, is_dict, eval_parts, plan_eval, combine_and, and_candidates, asks, or_parts,
  or_residual, not_test, residual_plan, plan_eq, plan_node, compile_plan,
}
use loggi.Filter.Reader.{Library, HotColumn, Reader}

kind_cases : (k : ColumnKind) → (k ≡ col_dict) ⊎ (is_dict k ≡ false)
unfolding is_dict
kind_cases col_dict = inl refl
kind_cases _ = inr refl

module _ (lib : Library) (roaring : Roaring) where
  open lib use {Float, Regexp}
  open roaring use {Bitmap, new, contains, contains-and, contains-or, contains-new}

  module _ (s : Reader lib roaring) (seq : ℕ) where
    -- The index of the column tells rows by their value: the bitmap of a value has the row exactly
    -- if the equality test accepts it, and a dictionary with no bitmap for a value has no such row.
    abbrev pub EqAgrees : FieldPath → Bytes → Type 0
    EqAgrees (name ∷ []) v =
        (c : HotColumn lib roaring)
        → s.hot_column name ≡ some c
        → ((bm : Bitmap)
            → c.bitmap_for_value v ≡ some bm
            → contains bm (uint32 seq) ≡ eq_holds lib roaring s (name ∷ []) v s seq)
          × (c.bitmap_for_value v ≡ none
              → c.kind ≡ col_dict
              → eq_holds lib roaring s (name ∷ []) v s seq ≡ false)
    EqAgrees path v = Unit {0}

    -- It does so for each equality of the filter.
    abbrev pub IndexAgrees : Node Float Regexp → Type 0
    IndexAgrees (and_node l r) = IndexAgrees l × IndexAgrees r
    IndexAgrees (or_node l r) = IndexAgrees l × IndexAgrees r
    IndexAgrees (not_node x) = IndexAgrees x
    IndexAgrees (eq_node path v) = EqAgrees path v
    IndexAgrees _ = Unit {0}

    -- The function is there and answers `b` on the row.
    abbrev Says : Option (EvalFn lib roaring) → Bool → Type 0
    Says none b = ⊥
    Says (some f) b = f s seq ≡ b

    parts_and :
        (c d : Option Bitmap) (a b : Option (EvalFn lib roaring)) (x y : Bool)
        → Says (eval_parts lib roaring c a) x
        → Says (eval_parts lib roaring d b) y
        → Says
            (eval_parts lib roaring (and_candidates lib roaring c d) (combine_and lib roaring a b))
            (x && y)
    unfolding eval_parts and_candidates combine_and
    parts_and none none none none x y h k = absurd h
    parts_and none none none (some g) x y h k = absurd h
    parts_and none none (some f) none x y h k = absurd k
    parts_and none none (some f) (some g) x y h k = ground arith
    parts_and none (some r) none none x y h k = absurd h
    parts_and none (some r) none (some g) x y h k = absurd h
    parts_and none (some r) (some f) none x y h k = ground arith
    parts_and none (some r) (some f) (some g) x y h k = ground arith
    parts_and (some l) none none none x y h k = absurd k
    parts_and (some l) none none (some g) x y h k = ground arith
    parts_and (some l) none (some f) none x y h k = absurd k
    parts_and (some l) none (some f) (some g) x y h k = ground arith
    parts_and (some l) (some r) none none x y h k = ground (arith, contains-and l r (uint32 seq))
    parts_and (some l) (some r) none (some g) x y h k =
        ground (arith, contains-and l r (uint32 seq))
    parts_and (some l) (some r) (some f) none x y h k =
        ground (arith, contains-and l r (uint32 seq))
    parts_and (some l) (some r) (some f) (some g) x y h k =
        ground (arith, contains-and l r (uint32 seq))

    asks-Says :
        (f : Option (EvalFn lib roaring)) (b : Bool) → Says f b → asks lib roaring f s seq ≡ b
    unfolding asks
    asks-Says none b h = absurd h
    asks-Says (some f) b h = h

    residual_or :
        (p q : Plan lib roaring) (x y : Bool)
        → Says (plan_eval lib roaring p) x
        → Says (plan_eval lib roaring q) y
        → Says (plan_eval lib roaring (or_residual lib roaring p q)) (x || y)
    unfolding plan_eval or_residual
    residual_or p q x y h k = cc (asks-Says _ x h, asks-Says _ y k)

    parts_or :
        (p q : Plan lib roaring) (c d : Option Bitmap) (a b : Option (EvalFn lib roaring))
        (x y : Bool)
        → Says (plan_eval lib roaring p) x
        → Says (plan_eval lib roaring q) y
        → Says (eval_parts lib roaring c a) x
        → Says (eval_parts lib roaring d b) y
        → Says (plan_eval lib roaring (or_parts lib roaring p q c d a b)) (x || y)
    unfolding plan_eval or_parts
    parts_or p q (some l) (some r) none none x y h k h' k' =
        ground (arith, contains-or l r (uint32 seq))
    parts_or p q _ _ _ _ x y h k h' k' = residual_or p q x y h k

    not-Says :
        (f : Option (EvalFn lib roaring)) (b : Bool)
        → Says f b
        → not_test lib roaring f s seq ≡ not b
    unfolding not_test
    not-Says none b h = absurd h
    not-Says (some f) b h = ap not h

    residual-Says :
        (n : Node Float Regexp)
        → Says (plan_eval lib roaring (residual_plan lib roaring s n)) (holds lib roaring s n s seq)
    unfolding plan_eval residual_plan
    residual-Says n = wrap-compile lib roaring s n s seq

    indexed-Says :
        (path : FieldPath) (v : Bytes) (bm : Bitmap)
        → contains bm (uint32 seq) ≡ eq_holds lib roaring s path v s seq
        → Says
            (plan_eval lib roaring (record { candidates = some bm; residual = none }))
            (holds lib roaring s (eq_node path v) s seq)
    unfolding plan_eval holds
    indexed-Says path v bm h = h

    empty-Says :
        (path : FieldPath) (v : Bytes)
        → eq_holds lib roaring s path v s seq ≡ false
        → Says
            (plan_eval lib roaring (record { candidates = some new; residual = none }))
            (holds lib roaring s (eq_node path v) s seq)
    unfolding plan_eval holds
    empty-Says path v h = contains-new (uint32 seq) ∙ sym h

    eq-Says :
        (path : FieldPath) (v : Bytes)
        → EqAgrees path v
        → Says
            (plan_eval lib roaring (plan_eq lib roaring s path v))
            (holds lib roaring s (eq_node path v) s seq)
    unfolding plan_eq
    eq-Says [] v h = residual-Says (eq_node [] v)
    eq-Says (a ∷ b ∷ path) v h = residual-Says (eq_node (a ∷ b ∷ path) v)
    eq-Says (name ∷ []) v h = elim (Option-cases (s.hot_column name)) [
      | inl e ↦ rw (e, plan_eq) (residual-Says (eq_node (name ∷ []) v))
      | inr (c, e) ↦ elim (Option-cases (c.bitmap_for_value v)) [
        | inr (bm, e') ↦
            rw (e, plan_eq) (rw (e', plan_eq) (indexed-Says (name ∷ []) v bm ((h c e).0 bm e')))
        | inl e' ↦ elim (kind_cases c.kind) [
          | inl k ↦
              rw (e, plan_eq)
                (rw (e', plan_eq) (rw (k, plan_eq) (empty-Says (name ∷ []) v ((h c e).1 e' k))))
          | inr k ↦
              rw (e, plan_eq)
                (rw (e', plan_eq) (rw (k, plan_eq) (residual-Says (eq_node (name ∷ []) v))))
        ]
      ]
    ]

    node-Says :
        (n : Node Float Regexp)
        → IndexAgrees n
        → Says (plan_eval lib roaring (plan_node lib roaring s n)) (holds lib roaring s n s seq)
    unfolding plan_node holds
    node-Says (and_node l r) (h, k) = parts_and _ _ _ _ _ _ (node-Says l h) (node-Says r k)
    node-Says (or_node l r) (h, k) =
        parts_or (plan_node lib roaring s l) (plan_node lib roaring s r) _ _ _ _ _ _ (node-Says l h)
          (node-Says r k) (node-Says l h) (node-Says r k)
    node-Says (not_node x) h = not-Says _ _ (node-Says x h)
    node-Says (eq_node path v) h = eq-Says path v h
    node-Says (substr_node path needle exact glob) h =
        residual-Says (substr_node path needle exact glob)
    node-Says (exists_node path) h = residual-Says (exists_node path)
    node-Says (range_node path lo hi) h = residual-Says (range_node path lo hi)
    node-Says (cmp_num_node path op n) h = residual-Says (cmp_num_node path op n)
    node-Says (cmp_str_node path op v) h = residual-Says (cmp_str_node path op v)
    node-Says (regex_node path pattern flags re) h =
        residual-Says (regex_node path pattern flags re)

  take_function :
      (s : Reader lib roaring) (seq : ℕ) (o : Option (EvalFn lib roaring)) (b : Bool)
      → Says s seq o b
      → {b' : Bool} → b' ≡ b
      → (f : EvalFn lib roaring) × (o ≡ some f) × (f s seq ≡ b')
  take_function s seq none b h e = absurd h
  take_function s seq (some f) b h e = (f, refl, h ∙ sym e)

  -- A plan accepts a row exactly if the compiled filter does, provided that the index of each hot
  -- dictionary column named by an equality of the filter agrees with the column's values at the row.
  -- The plan of a filter always has a test.
  pub compile_plan-compile_filter :
      (s : Reader lib roaring) (n : Node Float Regexp) (seq : ℕ)
      → IndexAgrees s seq n
      → (f : EvalFn lib roaring) × (plan_eval lib roaring (compile_plan lib roaring s (some n))
          ≡ some f)
        × (f s seq ≡ wrap lib roaring (compile lib roaring s n) s seq)
  unfolding compile_plan
  compile_plan-compile_filter s n seq h =
      take_function s seq _ _ (node-Says s seq n h) (wrap-compile lib roaring s n s seq)

  eq_holds_empty :
      (s : Reader lib roaring) (name : Bytes) (c : HotColumn lib roaring) (seq : ℕ)
      → s.hot_column name ≡ some c
      → s.hot_string seq name ≡ []
      → holds lib roaring s (eq_node (name ∷ []) []) s seq ≡ true
  unfolding holds eq_holds eq_hot_test str_eq
  eq_holds_empty s name c seq hot missing = rw (hot, eq_holds) (rw missing refl)

  plan_eq_empty :
      (s : Reader lib roaring) (name : Bytes) (c : HotColumn lib roaring)
      → s.hot_column name ≡ some c
      → c.kind ≡ col_dict
      → c.bitmap_for_value [] ≡ none
      → plan_eq lib roaring s (name ∷ []) [] ≡ record { candidates = some new; residual = none }
  unfolding plan_eq
  plan_eq_empty s name c hot dict absent =
      rw (hot, plan_eq) (rw (absent, plan_eq) (rw (dict, plan_eq)))

  -- An equality with the empty text on a hot dictionary column: the compiled filter accepts the rows
  -- that lack the field, and the plan accepts no row, since no dictionary has the empty text.
  pub compile_plan_empty :
      (s : Reader lib roaring) (name : Bytes) (c : HotColumn lib roaring) (seq : ℕ)
      → s.hot_column name ≡ some c
      → c.kind ≡ col_dict
      → c.bitmap_for_value [] ≡ none
      → s.hot_string seq name ≡ []
      → (wrap lib roaring (compile lib roaring s (eq_node (name ∷ []) [])) s seq ≡ true)
        × ((f : EvalFn lib roaring) × (plan_eval lib roaring
                (compile_plan lib roaring s (some (eq_node (name ∷ []) [])))
              ≡ some f)
            × (f s seq ≡ false))
  unfolding compile_plan plan_node plan_eval
  compile_plan_empty s name c seq hot dict absent missing = (
    wrap-compile lib roaring s (eq_node (name ∷ []) []) s seq
        ∙ eq_holds_empty s name c seq hot missing,
    (
      (λ s seq. contains new (uint32 seq)),
      ap (plan_eval lib roaring) (plan_eq_empty s name c hot dict absent),
      contains-new (uint32 seq),
    ),
  )
