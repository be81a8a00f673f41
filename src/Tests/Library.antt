-- ===== src/Tests/Library.antt =====
-- Concrete libraries for the tests: sets of numbers below a bound for the bitmaps, numbers for the
-- floats, texts to search for in the place of regular expressions, bytes in the place of runes.
use loggi.Prelude.{
  ℕ, suc, ◌+◌, ◌-◌, ◌*◌, ◌≡◌, refl, Bool, true, false, ◌&&◌, ◌||◌, some, List, [], ◌∷◌, ◌==◌, leb,
  ltb, arith, filter, foldl,
}
use loggi.Store.Bitmap.{Roaring, elem}
use loggi.Store.Bitmap.Ascending.{
  range, filter-IsAscending, elem-filter, range-IsAscending, elem-range,
}
use loggi.Text.{Bytes, contains, trim}
use loggi.Filter.Reader.{Library, Fields}
use loggi.Filter.Token.{Unicode}

pub record Flags : Type 0 where
  pub bound : ℕ
  pub member : ℕ → Bool

abbrev pub has : Flags → ℕ → Bool
has b x = b.member x && (leb 0 x && ltb x (0 + b.bound))

abbrev pub flags_new : Flags
flags_new = record { bound = 0; member = λ x. false }

abbrev pub flags_add : ℕ → Flags → Flags
flags_add x b = record { bound = suc x + b.bound; member = λ y. x == y || has b y }

abbrev pub flags_add_range : ℕ → ℕ → Flags → Flags
flags_add_range lo hi b = record {
  bound = hi + b.bound;
  member = λ y. leb lo y && ltb y hi || has b y;
}

abbrev pub flags_and : Flags → Flags → Flags
flags_and a b = record { bound = a.bound; member = λ x. a.member x && has b x }

abbrev pub flags_or : Flags → Flags → Flags
flags_or a b = record { bound = a.bound + b.bound; member = λ x. has a x || has b x }

pub has-new : (x : ℕ) → has flags_new x ≡ false
has-new x = refl

pub has-add : (x y : ℕ) (b : Flags) → has (flags_add x b) y ≡ (x == y || has b y)
has-add x y b = ground arith

pub has-add_range :
    (lo hi x : ℕ) (b : Flags) → has (flags_add_range lo hi b) x ≡ (leb lo x && ltb x hi || has b x)
has-add_range lo hi x b = ground arith

pub has-and : (a b : Flags) (x : ℕ) → has (flags_and a b) x ≡ (has a x && has b x)
has-and a b x = ground arith

pub has-or : (a b : Flags) (x : ℕ) → has (flags_or a b) x ≡ (has a x || has b x)
has-or a b x = ground arith

abbrev pub flags_iterate : Flags → List ℕ
flags_iterate b = filter b.member (range 0 b.bound)

pub elem-flags_iterate : (x : ℕ) (b : Flags) → elem x (flags_iterate b) ≡ has b x
elem-flags_iterate x b =
    let e = elem-filter b.member x (range 0 b.bound) in
    let f = elem-range x 0 b.bound in ground (arith, e, f)

abbrev pub flags : Roaring
flags = record {
  Bitmap = Flags;
  new = flags_new;
  add = flags_add;
  add_range = flags_add_range;
  contains = has;
  and_bitmap = flags_and;
  or_bitmap = flags_or;
  iterate = flags_iterate;
  contains-new = has-new;
  contains-add = has-add;
  contains-add_range = has-add_range;
  contains-and = has-and;
  contains-or = has-or;
  elem-iterate = elem-flags_iterate;
  iterate-IsAscending =
      λ b. filter-IsAscending b.member (range 0 b.bound) (range-IsAscending 0 b.bound);
}

abbrev pub decimal : Bytes → ℕ
decimal s = foldl (λ n c. n * 10 + (c - 48)) 0 s

abbrev pub go : Library
go = record {
  Float = ℕ;
  Regexp = Bytes;
  zero_float = 0;
  float_lt = ltb;
  float_le = leb;
  parse_float = λ s. (decimal s, true);
  format_float = λ n. [];
  compile_regexp = λ s. some s;
  match_string = λ re s. contains s re;
  to_lower = λ s. s;
  trim_space = trim b' ';
  decode_fields = λ s. some Fields.end;
}

abbrev pub ascii : Unicode
ascii = record {
  runes = λ s. s;
  is_letter = λ c. leb b'a' c && leb c b'z';
  is_decimal = λ c. leb b'0' c && leb c b'9';
}

abbrev pub first_byte : Bytes → ℕ
first_byte [] = 0
first_byte (c ∷ s) = c
