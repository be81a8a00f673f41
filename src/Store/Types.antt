-- ===== src/Store/Types.antt =====
-- internal/store: the kinds of column, and the row that is handed to clients. Floats are a
-- parameter.
use loggi.Prelude.{ℕ, Bool}
use loggi.Text.{Bytes}

pub data ColumnKind : Type 0 where
  col_dict col_raw col_f64 : ColumnKind

-- A nil `Fields` is the empty text.
pub record MaterializedRow (Float : Type 0) : Type 0 where
  pub seq : ℕ
  pub ts : Float
  pub source_id : ℕ
  pub level : Bytes
  pub service : Bytes
  pub msg : Bytes
  pub fields : Bytes
  pub ansi : Bytes
  pub text : Bool
