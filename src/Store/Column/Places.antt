-- ===== src/Store/Column/Places.antt =====
-- internal/store/column.go: the entry of a dictionary that a new text gets.
use loggi.Prelude.{
  ℕ, ◌^◌, ◌≡◌, ◌≢◌, ◌<◌, refl, sym, ap, ◌∙◌, Bool, true, false, Option, none, some, List, [], ◌∷◌,
  ◌++◌, length, get_elem?, set, lt-length_of_get_elem?, All, arith,
}
use loggi.Store.Bitmap.{Roaring}
use loggi.Store.Column.{Column, DictSlot}
use loggi.Store.Column.Write.{place_entry}
use loggi.Store.Column.Values.{put_at_lem}
use loggi.Store.Intern.{u32}
use loggi.Store.Intern.Valid.{Distinct, Writes, Writes-set, Writes-snoc}

abbrev pub live_of : Option DictSlot → Bool
live_of none = false
live_of (some sl) = sl.live

-- An id of a column that is ready for reuse.
abbrev pub IsSpare : List DictSlot → ℕ → Type 0
IsSpare dict id = (sl : DictSlot) × (get_elem? dict id ≡ some sl) × (sl.live ≡ false)

pub IsSpare-Writes :
    (dict dict' : List DictSlot) (id : ℕ) (sl : DictSlot) (free : List ℕ)
    → Writes dict dict' id sl
    → All (λ j. id ≢ j) free
    → All (IsSpare dict) free
    → All (IsSpare dict') free
IsSpare-Writes dict dict' id sl [] w ne h = tt
IsSpare-Writes dict dict' id sl (j ∷ free) w (ne, nes) ((x, e, dead), h) =
    ((x, w.others j (λ p. ne (sym p)) ∙ e, dead), IsSpare-Writes dict dict' id sl free w nes h)

-- A live entry is not spare.
pub live-not-spare :
    (dict : List DictSlot) (k : ℕ) (x : DictSlot) (id : ℕ)
    → get_elem? dict k ≡ some x
    → x.live ≡ true
    → IsSpare dict id
    → k ≢ id
live-not-spare dict k x id e live (y, e', dead) = λ p.
    let same : some x ≡ some y = sym e ∙ ap (get_elem? dict) p ∙ e' in
    cc (ap live_of same, live, dead)

pub off_spare :
    (dict : List DictSlot) (id : ℕ) (sl : DictSlot) (free : List ℕ)
    → get_elem? dict id ≡ some sl
    → sl.live ≡ true
    → All (IsSpare dict) free
    → All (λ j. id ≢ j) free
off_spare dict id sl [] e live h = tt
off_spare dict id sl (j ∷ free) e live (h, hs) =
    (live-not-spare dict id sl j e live h, off_spare dict id sl free e live hs)

module _ (Float : Type 0) (zero_float : Float) (roaring : Roaring) where
  -- Where a new entry comes to lie: no live entry was there, and the rest of the dictionary stays.
  pub record Placed (c : Column Float zero_float roaring) (sl : DictSlot) : Type 0 where
    pub id : ℕ
    pub dict : List DictSlot
    pub free : List ℕ
    pub placed :
        place_entry Float zero_float roaring sl c ≡ some (id, record c { dict = dict; free = free })
    pub writes : Writes c.dict dict id sl
    pub fresh : (k : ℕ) (x : DictSlot) → get_elem? c.dict k ≡ some x → x.live ≡ true → k ≢ id
    pub spare : All (IsSpare dict) free
    pub distinct : Distinct free

  pub place_entry_lem :
      (c : Column Float zero_float roaring) (sl : DictSlot) (free : List ℕ)
      → c.free ≡ free
      → All (IsSpare c.dict) free
      → Distinct free
      → length c.dict < 2 ^ 32
      → Placed c sl
  unfolding place_entry
  place_entry_lem c sl [] e h d small = record {
    id = length c.dict;
    dict = c.dict ++ sl ∷ [];
    free = [];
    placed =
        let word : u32 (length c.dict) ≡ length c.dict = omega arith in
        rw (e, place_entry)
          (rw word
            (ap (λ fr. some (length c.dict, record c { dict = c.dict ++ sl ∷ []; free = fr })) e));
    writes = Writes-snoc c.dict sl;
    fresh = λ k x f live p. omega (arith, lt-length_of_get_elem? c.dict k x f, p);
    spare = tt;
    distinct = tt;
  }
  place_entry_lem c sl (id ∷ free) e ((old, f, dead), h) (ne, d) small = record {
    id = id;
    dict = set c.dict id sl;
    free = free;
    placed = rw (e, place_entry) (rw (put_at_lem id old sl c.dict f, place_entry) refl);
    writes = Writes-set c.dict id old sl f;
    fresh = λ k x g live. live-not-spare c.dict k x id g live (old, f, dead);
    spare =
        IsSpare-Writes c.dict (set c.dict id sl) id sl free (Writes-set c.dict id old sl f) ne h;
    distinct = d;
  }
