-- ===== src/Store/Arena.antt =====
-- internal/store/intern.go: the arena, a list of chunks to which texts are appended. `none` is a
-- panic; a read is checked against the length of its chunk.
pub mod Reads
use loggi.Prelude.{
  ℕ, ◌+◌, ◌-◌, ◌*◌, ◌/◌, ◌%◌, ◌^◌, Bool, Option, none, some, List, [], ◌∷◌, ◌++◌, ◌||◌, leb, ltb,
  if◌then◌else◌, length, get_elem?, take, drop, is_empty, ◌>>=◌,
}
use loggi.Text.{Bytes}

abbrev pub Arena : Type 0
Arena = List Bytes

abbrev pub arena_chunk : ℕ
arena_chunk = 65536

-- `c[pos:pos+n]`
unfoldable pub slice : Bytes → ℕ → ℕ → Option Bytes
slice c pos n = if leb (pos + n) (length c) then some (take n (drop pos c)) else none

unfoldable pub last_length : Arena → ℕ
last_length [] = 0
last_length (c ∷ []) = length c
last_length (c ∷ d ∷ a) = last_length (d ∷ a)

-- `a.chunks[idx] = append(cur, s...)` for the last chunk.
unfoldable pub append_last : Arena → Bytes → Arena
append_last [] s = []
append_last (c ∷ []) s = (c ++ s) ∷ []
append_last (c ∷ d ∷ a) s = c ∷ append_last (d ∷ a) s

-- The chunks among which the last one has room for `s`.
unfoldable pub with_room : Bytes → Arena → Arena
unfolding last_length
with_room s a = if is_empty a || ltb arena_chunk (last_length a + length s) then a ++ [] ∷ [] else a

-- `uint64(idx)<<32 | uint64(pos)`, for a position below 2 ^ 32.
unfoldable pub offset : ℕ → ℕ → ℕ
offset idx pos = idx * 2 ^ 32 % 2 ^ 64 + pos

-- The offset, the length as a uint32, and the arena.
unfoldable pub append_str : Bytes → Arena → ℕ × ℕ × Arena
append_str s a =
    if leb arena_chunk (length s)
    then (offset (length a) 0, length s % 2 ^ 32, a ++ s ∷ [])
    else let b = with_room s a in
      (offset (length b - 1) (last_length b), length s % 2 ^ 32, append_last b s)

unfoldable pub read : Arena → ℕ → ℕ → Option Bytes
unfolding slice
read a off n = do chunk ← get_elem? a (off / 2 ^ 32); slice chunk (off % 2 ^ 32) n
