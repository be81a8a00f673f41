-- ===== src/Wire/Frame.antt =====
-- internal/frame/frame.go: Read and Write, on the bytes that are still to be read and those that were
-- written. encoding/json is the parameter `marshal`, `unmarshal`; the connection takes what is written.
use loggi.Prelude.{
  ℕ, zero, suc, ◌+◌, ◌*◌, ◌/◌, ◌%◌, ◌≤◌, ◌<◌, ◌≡◌, refl, ap, ◌∙◌, false, Option, none, some, List,
  [], ◌∷◌, ◌++◌, append_assoc, ◌==◌, ltb, if◌then◌else◌, length, take, drop, take-append_self,
  drop-append_self, length-append, Option-cases, Bool-cases, inl, inr, subst, arith,
}
use loggi.Text.{Bytes}

-- 64 << 20
abbrev pub max_frame : ℕ
max_frame = 67_108_864

-- binary.BigEndian.PutUint32 of uint32(n)
unfoldable pub put_uint32 : ℕ → Bytes
put_uint32 n = n / 16_777_216 % 256 ∷ n / 65_536 % 256 ∷ n / 256 % 256 ∷ n % 256 ∷ []

-- io.ReadFull; `none` is an error of a stream that ends too early.
unfoldable pub read_full : ℕ → Bytes → Option (Bytes × Bytes)
read_full n s = if ltb (length s) n then none else some (take n s, drop n s)

-- binary.BigEndian.Uint32
unfoldable pub uint32_of : Bytes → ℕ
uint32_of (a ∷ b ∷ c ∷ d ∷ s) = a * 16_777_216 + b * 65_536 + c * 256 + d
uint32_of s = 0

pub data FrameRead (V : Type 0) : Type 0 where
  value : V → Bytes → FrameRead V
  failed : FrameRead V

module _ {V : Type 0} (marshal : V → Option Bytes) (unmarshal : Bytes → Option V) where
  unfoldable pub read_payload : Option (Bytes × Bytes) → FrameRead V
  read_payload none = failed
  read_payload (some (buf, rest)) = elim (unmarshal buf) [ none ↦ failed | some v ↦ value v rest ]

  unfoldable pub read_body : ℕ → Bytes → FrameRead V
  unfolding read_full read_payload
  read_body n s =
      if n == 0 then failed else if ltb max_frame n then failed else read_payload (read_full n s)

  unfoldable pub read_after : Option (Bytes × Bytes) → FrameRead V
  unfolding read_body uint32_of
  read_after none = failed
  read_after (some (hdr, rest)) = read_body (uint32_of hdr) rest

  unfoldable pub read_frame : Bytes → FrameRead V
  unfolding read_full read_after
  read_frame s = read_after (read_full 4 s)

  -- `none` is an error, before anything is written.
  unfoldable pub write_frame : V → Option Bytes
  unfolding put_uint32
  write_frame v = elim (marshal v) [
    | none ↦ none
    | some payload ↦
        if ltb max_frame (length payload)
        then none
        else some (put_uint32 (length payload) ++ payload)
  ]

  read_full_append : (s rest : Bytes) → read_full (length s) (s ++ rest) ≡ some (s, rest)
  unfolding read_full
  read_full_append s rest =
      let fits : ltb (length (s ++ rest)) (length s) ≡ false =
        ground (arith, length-append {0} s rest) in
      rw (fits, take-append_self s rest, drop-append_self s rest) refl

  uint32_of-put_uint32 : (n : ℕ) → n ≤ max_frame → uint32_of (put_uint32 n) ≡ n
  unfolding uint32_of put_uint32
  uint32_of-put_uint32 n h = omega arith

  read_body-append :
      (v : V) (payload rest : Bytes)
      → 0 < length payload
      → ltb max_frame (length payload) ≡ false
      → unmarshal payload ≡ some v
      → read_body (length payload) (payload ++ rest) ≡ value v rest
  unfolding read_body read_payload
  read_body-append v payload rest pos fits decoded =
      let some_bytes : (length payload == 0) ≡ false = ground arith in
      rw (some_bytes, fits, read_full_append payload rest) (rw (decoded, read_payload) refl)

  read_frame-append :
      (v : V) (payload rest : Bytes)
      → 0 < length payload
      → ltb max_frame (length payload) ≡ false
      → unmarshal payload ≡ some v
      → read_frame (put_uint32 (length payload) ++ (payload ++ rest)) ≡ value v rest
  unfolding read_frame read_after put_uint32
  read_frame-append v payload rest pos fits decoded =
      let n = length payload in
      let header : read_full 4 (put_uint32 n ++ (payload ++ rest))
          ≡ some (put_uint32 n, payload ++ rest) =
        read_full_append (put_uint32 n) (payload ++ rest) in
      let size : uint32_of (put_uint32 n) ≡ n = uint32_of-put_uint32 n (ground arith) in
      ap read_after header
      ∙ ap (λ k. read_body k (payload ++ rest)) size
      ∙ read_body-append v payload rest pos fits decoded

  -- A message that can be written is read back, and what follows it in the stream is left for the next
  -- read, where the decoder undoes the encoder, which gives no empty text.
  pub read_frame-write_frame :
      (v : V) (sent rest : Bytes)
      → ((x : V) (payload : Bytes) → marshal x ≡ some payload → unmarshal payload ≡ some x)
      → ((x : V) (payload : Bytes) → marshal x ≡ some payload → 0 < length payload)
      → write_frame v ≡ some sent
      → read_frame (sent ++ rest) ≡ value v rest
  unfolding write_frame
  read_frame-write_frame v sent rest undo some_bytes e = elim (Option-cases (marshal v)) [
    | inl m ↦ absurd (ground (arith, m))
    | inr (payload, m) ↦ elim (Bool-cases (ltb max_frame (length payload))) [
      | inl big ↦ absurd (ground (arith, m, big))
      | inr fits ↦
          let made : put_uint32 (length payload) ++ payload ≡ sent = ground (arith, m, fits) in
          subst (λ (x : Bytes). read_frame (x ++ rest) ≡ value v rest) made
            (ap read_frame (append_assoc (put_uint32 (length payload)) payload rest)
              ∙ read_frame-append v payload rest (some_bytes v payload m) fits (undo v payload m))
    ]
  ]

  -- The messages of a stream, on fuel.
  unfoldable pub read_all : ℕ → Bytes → List V
  read_all zero s = []
  read_all (suc f) s = elim (read_frame s) [ value v rest ↦ v ∷ read_all f rest | failed ↦ [] ]

  unfoldable pub write_all : List V → Option Bytes
  write_all [] = some []
  write_all (v ∷ vs) = elim (write_frame v) [
    | none ↦ none
    | some sent ↦ elim (write_all vs) [ none ↦ none | some more ↦ some (sent ++ more) ]
  ]

  -- The messages that were written one after the other are read in that order, none is lost or split;
  -- where the decoder undoes the encoder, which gives no empty text.
  pub read_all-write_all :
      (vs : List V) (sent : Bytes)
      → ((x : V) (payload : Bytes) → marshal x ≡ some payload → unmarshal payload ≡ some x)
      → ((x : V) (payload : Bytes) → marshal x ≡ some payload → 0 < length payload)
      → write_all vs ≡ some sent
      → read_all (length vs) sent ≡ vs
  unfolding read_all write_all
  read_all-write_all [] sent undo some_bytes e = refl
  read_all-write_all (v ∷ vs) sent undo some_bytes e = elim (Option-cases (write_frame v)) [
    | inl w ↦ absurd (ground (arith, w))
    | inr (first, w) ↦ elim (Option-cases (write_all vs)) [
      | inl m ↦ absurd (ground (arith, w, m))
      | inr (more, m) ↦
          let made : first ++ more ≡ sent = ground (arith, w, m) in
          subst (λ (x : Bytes). read_all (suc (length vs)) x ≡ v ∷ vs) made
            (rw (read_frame-write_frame v first more undo some_bytes w, read_all)
              (ap (◌∷◌ v) (read_all-write_all vs more undo some_bytes m)))
    ]
  ]
