-- ===== src/Store/Arena/Reads.antt =====
-- What is appended can be read back, and what could be read before reads the same.
use loggi.Prelude.{
  ℕ, zero, suc, ◌+◌, ◌-◌, ◌/◌, ◌%◌, ◌^◌, ◌≤◌, ◌<◌, ◌≡◌, refl, sym, ap, ◌∙◌, Bool-cases, inl, inr,
  Option-cases, some, List, [], ◌∷◌, ◌++◌, ◌||◌, leb, leb→le, ltb, arith, length, length-append,
  length-drop, get_elem?, take, drop, is_empty, ◌>>=◌, drop-append, drop-append_self,
  take-append_self, append-nil,
}
use loggi.Text.{Bytes}
use loggi.Store.Arena.{
  Arena, arena_chunk, slice, last_length, append_last, with_room, offset, append_str, read,
}

take-append_left {ℓ} :
    {A : Type ℓ} (n : ℕ) (xs ys : List A) → n ≤ length xs → take n (xs ++ ys) ≡ take n xs
take-append_left zero xs ys h = refl
take-append_left (suc n) [] ys h = absurd (omega arith)
take-append_left (suc n) (x ∷ xs) ys h = ap (◌∷◌ x) (take-append_left n xs ys (omega arith))

slice-append :
    (c s : Bytes) (pos n : ℕ) (t : Bytes) → slice c pos n ≡ some t → slice (c ++ s) pos n ≡ some t
unfolding slice
slice-append c s pos n t h = elim (Bool-cases (leb (pos + n) (length c))) [
  | inr out ↦ absurd (ground arith)
  | inl inside ↦
      let e : take n (drop pos c ++ s) ≡ take n (drop pos c) =
        take-append_left n (drop pos c) s (omega (arith, length-drop pos c, leb→le _ _ inside)) in
      ground (arith, e, drop-append pos c s (omega (arith, leb→le _ _ inside)), length-append c s)
]

slice-end : (c s : Bytes) → slice (c ++ s) (length c) (length s) ≡ some s
unfolding slice
slice-end c s = ground (
  arith,
  drop-append_self c s,
  ap (take (length s)) (append-nil s) ∙ refl,
  ap (take (length s)) (sym (append-nil s)) ∙ take-append_self s [],
  length-append c s,
)

slice-whole : (s : Bytes) → slice s 0 (length s) ≡ some s
slice-whole s = slice-end [] s

-- A chunk of the arena after an append to the last one.
get_elem?-append_last :
    (a : Arena) (s : Bytes) (i : ℕ) (c : Bytes)
    → get_elem? a i ≡ some c
    → (d : Bytes) × (get_elem? (append_last a s) i ≡ some (c ++ d))
unfolding append_last
get_elem?-append_last [] s i c h = cc
get_elem?-append_last (b ∷ []) s zero c h = (s, ground arith)
get_elem?-append_last (b ∷ []) s (suc i) c h = cc
get_elem?-append_last (b ∷ d ∷ a) s zero c h = ([], ground (arith, append-nil c))
get_elem?-append_last (b ∷ d ∷ a) s (suc i) c h = get_elem?-append_last (d ∷ a) s i c h

get_elem?-append_last_end :
    (c : Bytes) (a : Arena) (s : Bytes)
    → (d : Bytes) × (get_elem? (append_last (c ∷ a) s) (length a) ≡ some (d ++ s))
      × (last_length (c ∷ a) ≡ length d)
unfolding append_last last_length
get_elem?-append_last_end c [] s = (c, refl, refl)
get_elem?-append_last_end c (d ∷ a) s = get_elem?-append_last_end d a s

offset_parts :
    (idx pos : ℕ)
    → idx < 2 ^ 32
    → pos < 2 ^ 32
    → (offset idx pos / 2 ^ 32 ≡ idx) × (offset idx pos % 2 ^ 32 ≡ pos)
unfolding offset
offset_parts idx pos h k = omega arith

read-lem :
    (a : Arena) (idx pos n : ℕ) (c s : Bytes)
    → idx < 2 ^ 32
    → pos < 2 ^ 32
    → get_elem? a idx ≡ some c
    → slice c pos n ≡ some s
    → read a (offset idx pos) n ≡ some s
unfolding read
read-lem a idx pos n c s h k e e' =
    let (quotient, remainder) = offset_parts idx pos h k in
    rw (quotient, remainder) (rw (e, ◌>>=◌) e')

last_length-snoc : (a : Arena) (c : Bytes) → last_length (a ++ c ∷ []) ≡ length c
unfolding last_length
last_length-snoc [] c = refl
last_length-snoc (d ∷ []) c = refl
last_length-snoc (d ∷ e ∷ a) c = last_length-snoc (e ∷ a) c

get_elem?-snoc {ℓ} : {A : Type ℓ} (a : List A) (c : A) → get_elem? (a ++ c ∷ []) (length a) ≡ some c
get_elem?-snoc [] c = refl
get_elem?-snoc (d ∷ a) c = get_elem?-snoc a c

get_elem?-left {ℓ} :
    {A : Type ℓ} (a b : List A) (i : ℕ) (c : A)
    → get_elem? a i ≡ some c
    → get_elem? (a ++ b) i ≡ some c
get_elem?-left [] b i c h = cc
get_elem?-left (d ∷ a) b zero c h = h
get_elem?-left (d ∷ a) b (suc i) c h = get_elem?-left a b i c h

-- Room is made for a text that is shorter than a chunk, by one chunk at most.
with_room_lem :
    (s : Bytes) (a : Arena)
    → length s < arena_chunk
    → (last_length (with_room s a) ≤ arena_chunk)
      × (0 < length (with_room s a))
      × (length (with_room s a) ≤ suc (length a))
unfolding with_room
with_room_lem s [] h = omega arith
with_room_lem s (c ∷ a) h =
    ground (arith, last_length-snoc (c ∷ a) [], length-append (c ∷ a) ([] ∷ []))

read_last :
    (b : Arena) (s : Bytes)
    → 0 < length b
    → length b ≤ 2 ^ 32
    → last_length b ≤ arena_chunk
    → read (append_last b s) (offset (length b - 1) (last_length b)) (length s) ≡ some s
read_last [] s h k l = absurd (omega arith)
read_last (c ∷ a) s h k l =
    let (d, found, len) = get_elem?-append_last_end c a s in
    let e : length (c ∷ a) - 1 ≡ length a = omega arith in
    rw e (
      rw len (
        read-lem (append_last (c ∷ a) s) (length a) (length d) (length s) (d ++ s) s (omega arith)
          (omega arith) found (slice-end d s)))

-- A text that was just appended is read at its offset, as long as the arena has fewer than 2 ^ 32
-- chunks and the text fewer than 2 ^ 32 bytes.
pub read-append_str :
    (s : Bytes) (a : Arena)
    → length a < 2 ^ 32 - 1
    → length s < 2 ^ 32
    → let (off, n, b) = append_str s a in read b off n ≡ some s
unfolding append_str
read-append_str s a h k = elim (Bool-cases (leb arena_chunk (length s))) [
  | inl big ↦
      rw (big, append_str)
        (let e : length s % 2 ^ 32 ≡ length s = omega arith in
          rw e (
            read-lem (a ++ s ∷ []) (length a) 0 (length s) s s (omega arith) (omega arith)
              (get_elem?-snoc a s) (slice-whole s)))
  | inr small ↦
      rw (small, append_str)
        (let e : length s % 2 ^ 32 ≡ length s = omega arith in
          let (room, any, more) = with_room_lem s a (ground arith) in
          rw e (read_last (with_room s a) s any (omega arith) room))
]

-- A chunk that was there is there, perhaps with more bytes at its end.
abbrev Extends : Arena → Arena → Type 0
Extends a b =
    (i : ℕ) (c : Bytes) → get_elem? a i ≡ some c → (d : Bytes) × (get_elem? b i ≡ some (c ++ d))

Extends-snoc : (a : Arena) (s : Bytes) → Extends a (a ++ s ∷ [])
Extends-snoc a s i c h = ([], rw append-nil (get_elem?-left a (s ∷ []) i c h))

Extends-with_room : (s : Bytes) (a : Arena) → Extends a (with_room s a)
unfolding with_room
Extends-with_room s a i c h =
    elim (Bool-cases (is_empty a || ltb arena_chunk (last_length a + length s))) [
      | inl e ↦ rw (e, with_room) (Extends-snoc a [] i c h)
      | inr e ↦ rw (e, with_room) ([], rw append-nil h)
    ]

read-Extends :
    (a b : Arena) (off n : ℕ) (t : Bytes)
    → Extends a b
    → read a off n ≡ some t
    → read b off n ≡ some t
unfolding read
read-Extends a b off n t x h = elim (Option-cases (get_elem? a (off / 2 ^ 32))) [
  | inl e ↦ absurd (ground arith)
  | inr (c, e) ↦
      let (d, e') = x (off / 2 ^ 32) c e in
      rw (e', ◌>>=◌) (slice-append c d (off % 2 ^ 32) n t (ground arith))
]

-- A text that could be read stays as it is.
pub read-append_str_keep :
    (s : Bytes) (a : Arena) (off n : ℕ) (t : Bytes)
    → read a off n ≡ some t
    → read (append_str s a).2 off n ≡ some t
unfolding append_str
read-append_str_keep s a off n t h = elim (Bool-cases (leb arena_chunk (length s))) [
  | inl big ↦ rw (big, append_str) (read-Extends a (a ++ s ∷ []) off n t (Extends-snoc a s) h)
  | inr small ↦
      rw (small, append_str)
        (read-Extends (with_room s a) (append_last (with_room s a) s) off n t
          (get_elem?-append_last (with_room s a) s)
          (read-Extends a (with_room s a) off n t (Extends-with_room s a) h))
]

pub append_str_size : (s : Bytes) (a : Arena) → length s < 2 ^ 32 → (append_str s a).1 ≡ length s
unfolding append_str
append_str_size s a h =
    let e : length s % 2 ^ 32 ≡ length s = omega arith in
    elim (Bool-cases (leb arena_chunk (length s))) [
      | inl big ↦ rw (big, append_str) e
      | inr small ↦ rw (small, append_str) e
    ]
