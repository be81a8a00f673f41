-- ===== src/Server/Ansi.antt =====
-- internal/server/ansi.go: stripANSI, the text of a line without escape sequences. Its first result is
-- a copy of its argument. Each round of the loop takes a byte or more, so the length of the line is
-- fuel enough.
pub mod Stripped
use loggi.Prelude.{
  ℕ, zero, suc, Bool, true, false, ◌&&◌, Option, none, some, List, [], ◌∷◌, ◌==◌, leb,
  if◌then◌else◌, length,
}
use loggi.Text.{Bytes}

-- ESC and BEL.
abbrev pub esc : ℕ
esc = 0x1B

abbrev pub bel : ℕ
bel = 0x07

-- The last byte of a control sequence.
abbrev pub is_final : ℕ → Bool
is_final c = leb b'@' c && leb c b'~'

-- What follows a control sequence, after `ESC [`.
unfoldable pub skip_csi : Bytes → Bytes
skip_csi [] = []
skip_csi (c ∷ s) = elim (is_final c) [ true ↦ s | false ↦ skip_csi s ]

abbrev pub after_backslash : Bytes → Option Bytes
after_backslash [] = none
after_backslash (c ∷ s) = if c == b'\\' then some s else none

-- What follows `ESC \` at this byte.
abbrev pub after_terminator : ℕ → Bytes → Option Bytes
after_terminator c s = if c == esc then after_backslash s else none

-- What follows a command of the operating system, after `ESC ]`.
unfoldable pub skip_osc : Bytes → Bytes
skip_osc [] = []
skip_osc (c ∷ s) = elim (c == bel) [
  | true ↦ s
  | false ↦ elim (after_terminator c s) [ some rest ↦ rest | none ↦ skip_osc s ]
]

unfoldable pub after_introducer : Bytes → Option Bytes
unfolding skip_csi skip_osc
after_introducer [] = none
after_introducer (c ∷ s) =
    if c == b'[' then some (skip_csi s) else if c == b']' then some (skip_osc s) else none

-- What follows the escape sequence that begins with the byte `c`, if one does.
unfoldable pub escaped : ℕ → Bytes → Option Bytes
unfolding after_introducer
escaped c s = if c == esc then after_introducer s else none

unfoldable pub strip_loop : ℕ → Bytes → Bytes
unfolding escaped
strip_loop zero s = []
strip_loop (suc n) [] = []
strip_loop (suc n) (c ∷ s) = elim (escaped c s) [
  | some rest ↦ strip_loop n rest
  | none ↦ c ∷ strip_loop n s
]

unfoldable pub strip_ansi : Bytes → Bytes × Bytes
unfolding strip_loop
strip_ansi b = (b, strip_loop (length b) b)
