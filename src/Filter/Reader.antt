-- ===== src/Filter/Reader.antt =====
-- What internal/filter uses of Go's library and of the store: the interfaces that the compiler of
-- filters takes as parameters.
use loggi.Prelude.{ℕ, Bool, Option}
use loggi.Text.{Bytes}
use loggi.Store.Bitmap.{Roaring}
use loggi.Store.Types.{ColumnKind, MaterializedRow}

-- A decoded JSON value, as `any` holds it.
mutual
  pub data Json (Float : Type 0) : Type 0 where
    null : Json Float
    bool : Bool → Json Float
    num : Float → Json Float
    str : Bytes → Json Float
    arr : Items Float → Json Float
    obj : Fields Float → Json Float

  pub data Items (Float : Type 0) : Type 0 where
    nil : Items Float
    item : Json Float → Items Float → Items Float

  pub data Fields (Float : Type 0) : Type 0 where
    end : Fields Float
    field : Bytes → Json Float → Fields Float → Fields Float

-- strconv, regexp, strings and encoding/json. `parse_float` gives the value and whether the error
-- is nil; `zero_float` is the zero value; `decode_fields` gives the decoded map unless it is nil.
pub record Library : Type 1 where
  pub Float : Type 0
  pub Regexp : Type 0
  pub zero_float : Float
  pub float_lt : Float → Float → Bool
  pub float_le : Float → Float → Bool
  pub parse_float : Bytes → Float × Bool
  pub format_float : Float → Bytes
  pub compile_regexp : Bytes → Option Regexp
  pub match_string : Regexp → Bytes → Bool
  pub to_lower : Bytes → Bytes
  pub trim_space : Bytes → Bytes
  pub decode_fields : Bytes → Option (Fields Float)

module _ (lib : Library) (roaring : Roaring) where
  -- The methods of `*store.Column` that the planner calls.
  pub record HotColumn : Type 0 where
    pub kind : ColumnKind
    pub bitmap_for_value : Bytes → Option (Roaring.Bitmap roaring)

  -- The methods of `*store.Store` that a compiled filter calls, as they answer at one moment.
  pub record Reader : Type 0 where
    pub hot_column : Bytes → Option HotColumn
    pub hot_string : ℕ → Bytes → Bytes
    pub hot_f64 : ℕ → Bytes → Option (Library.Float lib)
    pub materialize : ℕ → Option (MaterializedRow (Library.Float lib))
    pub source_name : ℕ → Bytes
    pub source_id_of_seq : ℕ → ℕ
