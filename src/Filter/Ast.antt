-- ===== src/Filter/Ast.antt =====
-- internal/filter/ast.go: the nodes of a parsed filter, and their printed form. The floats and the
-- compiled regular expressions of Go's library are parameters.
use loggi.Prelude.{Bool, Option, List, [], ◌∷◌, ◌++◌}
use loggi.Text.{Bytes, codes}

-- A part with Wild = true is `wild`; its Lit is never set and never read.
pub data GlobPart : Type 0 where
  lit : Bytes → GlobPart
  wild : GlobPart

abbrev pub FieldPath : Type 0
FieldPath = List Bytes

-- `substr path needle exact glob`, with `none` for a nil glob.
pub data Node (Float Regexp : Type 0) : Type 0 where
  and_node or_node : Node Float Regexp → Node Float Regexp → Node Float Regexp
  not_node : Node Float Regexp → Node Float Regexp
  eq_node : FieldPath → Bytes → Node Float Regexp
  substr_node : FieldPath → Bytes → Bool → Option (List GlobPart) → Node Float Regexp
  exists_node : FieldPath → Node Float Regexp
  range_node : FieldPath → Float → Float → Node Float Regexp
  cmp_num_node : FieldPath → Bytes → Float → Node Float Regexp
  cmp_str_node : FieldPath → Bytes → Bytes → Node Float Regexp
  regex_node : FieldPath → Bytes → Bytes → Regexp → Node Float Regexp

join_rest : FieldPath → Bytes
join_rest [] = []
join_rest (p ∷ ps) = codes "." ++ (p ++ join_rest ps)

unfoldable pub join_path : FieldPath → Bytes
unfolding join_rest
join_path [] = []
join_path (p ∷ []) = p
join_path (p ∷ q ∷ ps) = codes "@" ++ (p ++ join_rest (q ∷ ps))

unfoldable pub glob_string : List GlobPart → Bytes
glob_string [] = []
glob_string (wild ∷ ps) = b'*' ∷ glob_string ps
glob_string (lit l ∷ ps) = l ++ glob_string ps

-- The methods named String.
unfoldable pub node_string : {F R : Type 0} → Node F R → Bytes
unfolding join_path glob_string
node_string (and_node l r) =
    codes "(" ++ (node_string l ++ (codes " AND " ++ (node_string r ++ codes ")")))
node_string (or_node l r) =
    codes "(" ++ (node_string l ++ (codes " OR " ++ (node_string r ++ codes ")")))
node_string (not_node x) = codes "NOT " ++ node_string x
node_string (eq_node p v) = join_path p ++ (codes ":" ++ v)
node_string (substr_node p needle exact (Option.some g)) =
    join_path p ++ (codes ":\"" ++ (glob_string g ++ codes "\""))
node_string (substr_node p needle exact Option.none) = join_path p ++ (codes ":~" ++ needle)
node_string (exists_node p) = join_path p ++ codes ":*"
node_string (range_node p lo hi) = join_path p ++ codes ":[range]"
node_string (cmp_num_node p op n) = join_path p ++ (codes ":" ++ op)
node_string (cmp_str_node p op v) = join_path p ++ (codes ":" ++ (op ++ v))
node_string (regex_node p pattern flags re) =
    join_path p ++ (codes ":/" ++ (pattern ++ (codes "/" ++ flags)))
