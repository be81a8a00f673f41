-- ===== src/Server/Session.antt =====
-- internal/server/session.go: the rows that a session sends for a subscription (queryBacklog and
-- handleHistory), with the store as it stands during the call. A limit of 0 stands for any limit that
-- is not positive. A row is sent in the form that Materialize gives.
pub mod Pages
pub mod Dispatch
pub mod Leaks
pub mod Ends
pub mod Messages
use loggi.Prelude.{
  ℕ, ◌-◌, Bool, true, false, Option, none, some, List, [], ◌∷◌, ◌==◌, leb, if◌then◌else◌, length,
  drop, min,
}
use loggi.Filter.Ast.{Node}
use loggi.Filter.Plan.{compile_plan}
use loggi.Filter.Plan.Query.{at_store}
use loggi.Filter.Reader.{Library, Reader}
use loggi.Store.Bitmap.{Roaring}
use loggi.Store.Query.{query_range_bitmap}
use loggi.Store.Types.{MaterializedRow}

-- `all[len(all)-limit:]`, or all if there are no more
unfoldable pub last_of : {A : Type 0} → ℕ → List A → List A
last_of limit all = if leb (length all) limit then all else drop (length all - limit) all

-- The rows of a page, and whether there are no older ones.
pub record Page : Type 0 where
  pub seqs : List ℕ
  pub end : Bool

abbrev pub or_default : ℕ → ℕ → ℕ
or_default fallback limit = if limit == 0 then fallback else limit

-- A node is `none` for the nil node of the empty filter.
module _ (lib : Library) (roaring : Roaring) where
  open lib use {Float, Regexp}

  unfoldable pub planned_rows : Reader lib roaring → Option (Node Float Regexp) → ℕ → ℕ → ℕ → List ℕ
  planned_rows s node tail head hi =
      let plan = compile_plan lib roaring s node in
      query_range_bitmap roaring tail head plan.candidates (at_store lib roaring s plan.residual)
        tail hi 0

  unfoldable pub query_backlog :
      Reader lib roaring → Option (Node Float Regexp) → ℕ → ℕ → ℕ → List ℕ
  unfolding planned_rows last_of
  query_backlog s node tail head limit =
      if limit == 0
      then []
      else if leb head tail
      then []
      else last_of limit (planned_rows s node tail head head)

  -- The rows of handleHistory.
  unfoldable pub history_page :
      Reader lib roaring → Option (Node Float Regexp) → ℕ → ℕ → ℕ → ℕ → Page
  unfolding planned_rows last_of
  history_page s node tail head before_seq limit =
      let hi = min before_seq head in
      if leb hi tail
      then record { seqs = []; end = true }
      else (let all = planned_rows s node tail head hi in
          record {
            seqs = last_of (or_default 200 limit) all;
            end = leb (length all) (or_default 200 limit);
          })

  -- The rows that are still there when they are sent.
  unfoldable pub entries : Reader lib roaring → List ℕ → List (MaterializedRow Float)
  entries s [] = []
  entries s (seq ∷ seqs) =
      let rest = entries s seqs in elim (s.materialize seq) [ none ↦ rest | some row ↦ row ∷ rest ]

  -- The rows that handleUpdateFilter sends.
  unfoldable pub backfill :
      Reader lib roaring → Option (Node Float Regexp) → ℕ → ℕ → ℕ → List (MaterializedRow Float)
  unfolding query_backlog entries
  backfill s node tail head history_n =
      entries s (query_backlog s node tail head (or_default 300 history_n))
