-- ===== src/Filter/Eval/Notice.antt =====
-- The comparisons of levels and the level `notice` of internal/source/levels.go.
use loggi.Prelude.{◌≡◌, refl, ap, ℕ, ◌∙◌, false, Option, none, some, List, [], ◌∷◌, lookup}
use loggi.Store.Bitmap.{Roaring}
use loggi.Text.{Bytes, codes, str_eq, bytes_eq}
use loggi.Filter.Ast.{cmp_str_node}
use loggi.Filter.Eval.{compile, wrap, is_level, level_test}
use loggi.Filter.Eval.Holds.{wrap-compile}
use loggi.Filter.Eval.Spec.{holds, cmp_str_holds}
use loggi.Filter.Reader.{Library, Reader}
use loggi.Filter.Scalar.{level_ordinals}

module _ (lib : Library) (roaring : Roaring) where
  open lib use {to_lower}

  abbrev level_path : List Bytes
  level_path = codes "level" ∷ []

  notice_fails :
      (op : Bytes) (want : Option ℕ) (v : Bytes)
      → to_lower v ≡ codes "notice"
      → elim want [ none ↦ false | some w ↦ level_test lib roaring op w v ] ≡ false
  unfolding str_eq
  notice_fails op none v e = refl
  notice_fails op (some w) v e = rw e refl

  -- A row of level `notice`, which lower case leaves alone, fails every comparison of levels, whatever
  -- the operator and the level that it is compared with: `notice` has no ordinal.
  pub wrap-compile_notice :
      (s₀ s : Reader lib roaring) (seq : ℕ) (op v : Bytes)
      → s.hot_string seq (codes "level") ≡ codes "notice"
      → to_lower (codes "notice") ≡ codes "notice"
      → wrap lib roaring (compile lib roaring s₀ (cmp_str_node (codes "level" ∷ []) op v)) s seq
        ≡ false
  unfolding holds cmp_str_holds is_level str_eq
  wrap-compile_notice s₀ s seq op v h lower =
      wrap-compile lib roaring s₀ (cmp_str_node level_path op v) s seq
      ∙ notice_fails op (lookup (to_lower v) level_ordinals) (s.hot_string seq (codes "level"))
          (ap to_lower h ∙ lower)
