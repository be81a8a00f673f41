-- ===== src/Filter/Eval/Holds.antt =====
-- A compiled filter answers what the filter says of the row: the memo does not show.
use loggi.Prelude.{
  ℕ, ◌≡◌, refl, sym, subst, Bool, true, false, not, Option, none, some, List, [], ◌∷◌, arith,
  if◌then◌else◌, is_empty,
}
use loggi.Store.Bitmap.{Roaring}
use loggi.Store.Types.{MaterializedRow}
use loggi.Text.{Bytes, contains, str_eq, bytes_eq}
use loggi.Filter.Ast.{
  FieldPath, GlobPart, Node, and_node, or_node, not_node, eq_node, substr_node, exists_node,
  range_node, cmp_num_node, cmp_str_node, regex_node,
}
use loggi.Filter.Eval.{
  Ctx, fresh, row_column, Eval, ◌>>=◌, pure, ctx_row, ctx_top, field_in_top, number_in_top,
  field_in_row, materialize_field, number_in_row, materialize_number, range_test, cmp_num_test,
  compile_eq, compile_substr, compile_cmp_str, compile, wrap,
}
use loggi.Filter.Glob.{match_glob}
use loggi.Filter.Reader.{Library, Reader, Fields}
use loggi.Filter.Scalar.{cmp_str}
use loggi.Filter.Eval.Spec.{
  top_of, row_value, field_value, number_value, eq_holds, substr_holds, cmp_str_holds, holds,
}

module _ (lib : Library) (roaring : Roaring) where
  open lib use {Float, Regexp, match_string, to_lower, decode_fields}

  module _ (s : Reader lib roaring) (seq : ℕ) where
    -- The memo holds lib roaring what a first read would give.
    record IsMemo (c : Ctx Float) : Type 0 where
      fetched : c.row_fetched ≡ true → c.row ≡ s.materialize seq
      decoded : c.top_decoded ≡ true → c.top ≡ top_of lib roaring (s.materialize seq)
      untouched : c.top_decoded ≡ false → c.top ≡ none

    -- The computation answers `v` whatever is memoised, and keeps the memo right.
    abbrev Answers : {A : Type 0} → Eval lib roaring A → A → Type 0
    Answers m v = (c : Ctx Float) → IsMemo c → ((m s seq c).0 ≡ v) × IsMemo (m s seq c).1

    Answers-pure : {A : Type 0} (a : A) → Answers (pure lib roaring a) a
    Answers-pure a c h = (refl, h)

    Answers-bind :
        {A B : Type 0} (m : Eval lib roaring A) (f : A → Eval lib roaring B) (a : A) (b : B)
        → Answers m a
        → Answers (f a) b
        → Answers (◌>>=◌ lib roaring m f) b
    Answers-bind m f a b hm hf c h =
        let c' = (m s seq c).1 in
        subst (λ x. ((f x s seq c').0 ≡ b) × IsMemo (f x s seq c').1) (sym (hm c h).0)
          (hf c' (hm c h).1)

    ctx_row_lem : Answers (ctx_row lib roaring) (s.materialize seq)
    unfolding ctx_row
    ctx_row_lem c h = ground arith

    ctx_top_lem : Answers (ctx_top lib roaring) (top_of lib roaring (s.materialize seq))
    unfolding ctx_top
    ctx_top_lem c h = ground arith

    Answers-map :
        {A B : Type 0} (m : Eval lib roaring A) (a : A) (f : A → B)
        → Answers m a
        → Answers (◌>>=◌ lib roaring m (λ x. pure lib roaring (f x))) (f a)
    Answers-map m a f h =
        Answers-bind m (λ x. pure lib roaring (f x)) a (f a) h (Answers-pure (f a))

    -- Both walks end in a read of the decoded fields.
    top_lem :
        {A : Type 0} (f : Option (Fields Float) → A) (row : Option (MaterializedRow Float))
        → s.materialize seq ≡ row
        → Answers
            (◌>>=◌ lib roaring (ctx_top lib roaring) (λ top. pure lib roaring (f top)))
            (f (top_of lib roaring row))
    top_lem f row e =
        Answers-map (ctx_top lib roaring) (top_of lib roaring row) f
          (subst (λ r. Answers (ctx_top lib roaring) (top_of lib roaring r)) e ctx_top_lem)

    field_in_row_lem :
        (path : FieldPath) (row : Option (MaterializedRow Float))
        → s.materialize seq ≡ row
        → Answers (field_in_row lib roaring path row) (row_value lib roaring path row)
    unfolding field_in_row row_value
    field_in_row_lem path none e = Answers-pure []
    field_in_row_lem [] (some row) e = top_lem (field_in_top lib roaring []) (some row) e
    field_in_row_lem (name ∷ []) (some row) e = go (row_column name row)
      where
        go :
            (o : Option Bytes)
            → Answers
                (elim o [
                  | some v ↦ pure lib roaring v
                  | none ↦
                      ◌>>=◌ lib roaring
                        (ctx_top lib roaring)
                        (λ top. pure lib roaring (field_in_top lib roaring (name ∷ []) top))
                ])
                (elim o [
                  | some v ↦ v
                  | none ↦ field_in_top lib roaring (name ∷ []) (top_of lib roaring (some row))
                ])
        go (some v) = Answers-pure v
        go none = top_lem (field_in_top lib roaring (name ∷ [])) (some row) e
    field_in_row_lem (a ∷ b ∷ path) (some row) e =
        top_lem (field_in_top lib roaring (a ∷ b ∷ path)) (some row) e

    -- Reading the row and going on from it.
    row_lem :
        {A : Type 0} (f : Option (MaterializedRow Float) → Eval lib roaring A) (v : A)
        → Answers (f (s.materialize seq)) v
        → Answers (◌>>=◌ lib roaring (ctx_row lib roaring) f) v
    row_lem f v h = Answers-bind (ctx_row lib roaring) f (s.materialize seq) v ctx_row_lem h

    materialize_field_lem :
        (path : FieldPath)
        → Answers (materialize_field lib roaring path) (field_value lib roaring path s seq)
    unfolding materialize_field field_value
    materialize_field_lem [] c h =
        row_lem (field_in_row lib roaring []) (row_value lib roaring [] (s.materialize seq))
          (field_in_row_lem [] (s.materialize seq) refl) c h
    materialize_field_lem (a ∷ b ∷ path) c h =
        row_lem (field_in_row lib roaring (a ∷ b ∷ path))
          (row_value lib roaring (a ∷ b ∷ path) (s.materialize seq))
          (field_in_row_lem (a ∷ b ∷ path) (s.materialize seq) refl) c h
    materialize_field_lem (name ∷ []) c h = ground (
      arith,
      row_lem (field_in_row lib roaring (name ∷ []))
          (row_value lib roaring (name ∷ []) (s.materialize seq))
          (field_in_row_lem (name ∷ []) (s.materialize seq) refl) c h,
    )

    number_in_row_lem :
        (path : FieldPath) (row : Option (MaterializedRow Float))
        → s.materialize seq ≡ row
        → Answers
            (number_in_row lib roaring path row)
            (number_in_top lib roaring path (top_of lib roaring row))
    unfolding number_in_row number_in_top
    number_in_row_lem path none e c h = Answers-pure none c h
    number_in_row_lem path (some row) e c h =
        ground (arith, top_lem (number_in_top lib roaring path) (some row) e c h)

    materialize_number_lem :
        (path : FieldPath)
        → Answers (materialize_number lib roaring path) (number_value lib roaring path s seq)
    unfolding materialize_number number_value
    materialize_number_lem path c h = ground (
      arith,
      row_lem (number_in_row lib roaring path)
          (number_in_top lib roaring path (top_of lib roaring (s.materialize seq)))
          (number_in_row_lem path (s.materialize seq) refl) c h,
    )

    compile_eq_lem :
        (s₀ : Reader lib roaring) (path : FieldPath) (v : Bytes)
        → Answers (compile_eq lib roaring s₀ path v) (eq_holds lib roaring s₀ path v s seq)
    unfolding compile_eq eq_holds
    compile_eq_lem s₀ [] v c h =
        Answers-map (materialize_field lib roaring []) (field_value lib roaring [] s seq)
          (λ w. str_eq w v) (materialize_field_lem []) c h
    compile_eq_lem s₀ (a ∷ b ∷ path) v c h =
        Answers-map (materialize_field lib roaring (a ∷ b ∷ path))
          (field_value lib roaring (a ∷ b ∷ path) s seq) (λ w. str_eq w v)
          (materialize_field_lem (a ∷ b ∷ path)) c h
    compile_eq_lem s₀ (name ∷ []) v c h = ground (
      arith,
      Answers-map (materialize_field lib roaring (name ∷ []))
          (field_value lib roaring (name ∷ []) s seq) (λ w. str_eq w v)
          (materialize_field_lem (name ∷ [])) c h,
    )

    compile_substr_lem :
        (path : FieldPath) (needle : Bytes) (exact : Bool) (glob : Option (List GlobPart))
        → Answers
            (compile_substr lib roaring path needle exact glob)
            (substr_holds lib roaring path needle exact glob s seq)
    unfolding compile_substr substr_holds
    compile_substr_lem path needle exact (some parts) =
        Answers-map (materialize_field lib roaring path) (field_value lib roaring path s seq)
          (λ v. match_glob v parts) (materialize_field_lem path)
    compile_substr_lem path [] exact none = Answers-pure true
    compile_substr_lem path (d ∷ needle) exact none =
        Answers-map (materialize_field lib roaring path) (field_value lib roaring path s seq)
          (λ v. if exact then str_eq v (d ∷ needle) else contains v (d ∷ needle))
          (materialize_field_lem path)

    compile_cmp_str_lem :
        (path : FieldPath) (op v : Bytes)
        → Answers
            (compile_cmp_str lib roaring path op v)
            (cmp_str_holds lib roaring path op v s seq)
    unfolding compile_cmp_str cmp_str_holds
    compile_cmp_str_lem path op v c h = ground (
      arith,
      Answers-map (materialize_field lib roaring path) (field_value lib roaring path s seq)
          (λ w. cmp_str w v op) (materialize_field_lem path) c h,
    )

    compile_lem :
        (s₀ : Reader lib roaring) (n : Node Float Regexp)
        → Answers (compile lib roaring s₀ n) (holds lib roaring s₀ n s seq)
    unfolding compile holds
    compile_lem s₀ (and_node l r) c h =
        let (el, h') = compile_lem s₀ l c h in
        ground (arith, compile_lem s₀ r (compile lib roaring s₀ l s seq c).1 h')
    compile_lem s₀ (or_node l r) c h =
        let (el, h') = compile_lem s₀ l c h in
        ground (arith, compile_lem s₀ r (compile lib roaring s₀ l s seq c).1 h')
    compile_lem s₀ (not_node x) c h =
        Answers-map (compile lib roaring s₀ x) (holds lib roaring s₀ x s seq) not (compile_lem s₀ x)
          c h
    compile_lem s₀ (eq_node path v) c h = compile_eq_lem s₀ path v c h
    compile_lem s₀ (substr_node path needle exact glob) c h =
        compile_substr_lem path needle exact glob c h
    compile_lem s₀ (exists_node path) c h =
        Answers-map (materialize_field lib roaring path) (field_value lib roaring path s seq)
          (λ v. not (is_empty v)) (materialize_field_lem path) c h
    compile_lem s₀ (range_node path lo hi) c h =
        Answers-map (materialize_number lib roaring path) (number_value lib roaring path s seq)
          (range_test lib roaring lo hi) (materialize_number_lem path) c h
    compile_lem s₀ (cmp_num_node path op n) c h =
        Answers-map (materialize_number lib roaring path) (number_value lib roaring path s seq)
          (cmp_num_test lib roaring op n) (materialize_number_lem path) c h
    compile_lem s₀ (cmp_str_node path op v) c h = compile_cmp_str_lem path op v c h
    compile_lem s₀ (regex_node path pattern flags re) c h =
        Answers-map (materialize_field lib roaring path) (field_value lib roaring path s seq)
          (match_string re) (materialize_field_lem path) c h

    fresh-IsMemo : IsMemo fresh
    fresh-IsMemo = ground arith

  -- A compiled filter answers what the filter says of the row: the row and its fields are read at
  -- most once and nothing of that shows.
  pub wrap-compile :
      (s₀ : Reader lib roaring) (n : Node Float Regexp) (s : Reader lib roaring) (seq : ℕ)
      → wrap lib roaring (compile lib roaring s₀ n) s seq ≡ holds lib roaring s₀ n s seq
  unfolding wrap
  wrap-compile s₀ n s seq = (compile_lem s seq s₀ n fresh (fresh-IsMemo s seq)).0
