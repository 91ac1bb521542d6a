-- ===== src/Storage/Compress/Column/Rows.antt =====
-- The rows of a column of lib/storage/compress.c, as a reader, an encoder and a decoder see them.
use napastak.Base.{
  ℕ, zero, suc, ◌+◌, ◌/◌, ◌%◌, ◌^◌, ◌≤◌, ◌<◌, ◌≡◌, refl, String, false, Option, none, some, List,
  [], ◌∷◌, map, arith, length, replicate, take, get_or, get_elem?, All, Bool-cases, inl, inr,
  get_elem?-eq-get_or, nat_eq, string_eq, ap, ◌∙◌, sym,
}
use napastak.Storage.Batch.{
  ColType, int64, double, text, bool, null, decimal, date, timestamp, Values, words, strings,
  Bitmap, null_bit, null_bm_bytes, null_bm_bytes_exact, IsWord,
}
use napastak.Storage.Compress.Cells.{
  word_cells, text_cells, or_empty, length-word_cells, length-text_cells, get_or-word_cells,
  get_or-text_cells,
}
use napastak.Storage.Compress.Dict.{int_cells}
use napastak.Storage.Compress.Dict.Collect.{Holds}
use napastak.Storage.Compress.Delta.{Deltas, extend, sums_from, delta_encode, delta_decode}
use napastak.Storage.Compress.Delta.Roundtrip.{masked, delta_decode-delta_encode}
use napastak.Storage.Compress.Column.{copy_bitmap}

-- The values are of the kind that the type of the column says, and a word fits 64 bits.
abbrev pub HasType : ColType → Values → Type 0
HasType int64 (words vs) = All IsWord vs
HasType double (words vs) = All IsWord vs
HasType bool (words vs) = All IsWord vs
HasType text (strings vs) = Unit
HasType null (strings vs) = Unit
HasType decimal (strings vs) = Unit
HasType date (strings vs) = Unit
HasType timestamp (strings vs) = Unit
HasType _ _ = ⊥

-- What a reader sees in a row that is not null; a null `char *` reads as the empty text.
pub data Cell : Type 0 where
  word : ℕ → Cell
  string : String → Cell
  outside : Cell

abbrev pub word_cell : Option ℕ → Cell
word_cell none = outside
word_cell (some w) = word w

abbrev pub string_cell : Option (Option String) → Cell
string_cell none = outside
string_cell (some s) = string (or_empty s)

abbrev pub cell : Values → ℕ → Cell
cell (words vs) i = word_cell (get_elem? vs i)
cell (strings vs) i = string_cell (get_elem? vs i)

pub get_elem?-word_cells :
    (bm : Bitmap) (i : ℕ) (vs : List ℕ)
    → null_bit bm i ≡ false
    → i < length vs
    → get_elem? (word_cells bm 0 vs) i ≡ get_elem? vs i
get_elem?-word_cells bm i vs n h =
    get_elem?-eq-get_or (word_cells bm 0 vs) i 0 (omega (arith, length-word_cells bm 0 vs))
    ∙ ap some (get_or-word_cells bm 0 i i 0 vs (omega arith) h n)
    ∙ sym (get_elem?-eq-get_or vs i 0 h)

pub get_elem?-text_cells :
    (bm : Bitmap) (i : ℕ) (vs : List (Option String))
    → null_bit bm i ≡ false
    → i < length vs
    → get_elem? (text_cells bm 0 vs) i ≡ some (or_empty (get_or vs i none))
get_elem?-text_cells bm i vs n h =
    get_elem?-eq-get_or (text_cells bm 0 vs) i "" (omega (arith, length-text_cells bm 0 vs))
    ∙ ap some (get_or-text_cells bm 0 i i vs (omega arith) h n)

pub int_cells-IsWord :
    (bm : Bitmap) (i : ℕ) (vs : List ℕ) → All IsWord vs → All (Holds IsWord) (int_cells bm i vs)
unfolding int_cells
int_cells-IsWord bm i [] w = tt
int_cells-IsWord bm i (v ∷ vs) w = elim (Bool-cases (null_bit bm i)) [
  | inl n ↦ rw n (tt, int_cells-IsWord bm (i + 1) vs w.1)
  | inr n ↦ rw n (w.0, int_cells-IsWord bm (i + 1) vs w.1)
]

pub get_elem?-int_cells :
    (bm : Bitmap) (i k j : ℕ) (vs : List ℕ)
    → k ≡ i + j
    → j < length vs
    → null_bit bm k ≡ false
    → get_elem? (int_cells bm i vs) j ≡ some (some (get_or vs j 0))
unfolding int_cells
get_elem?-int_cells bm i k j [] e h n = elim h [ ]
get_elem?-int_cells bm i k zero (v ∷ vs) e h n =
    let e' : k ≡ i = omega arith in let n' = rw e' at n in rw n' refl
get_elem?-int_cells bm i k (suc j) (v ∷ vs) e h n =
    get_elem?-int_cells bm (i + 1) k j vs (omega arith) (omega arith) n

pub get_elem?-masked :
    (bm : Bitmap) (i k j : ℕ) (vs : List ℕ)
    → k ≡ i + j
    → null_bit bm k ≡ false
    → get_elem? (masked bm i vs) j ≡ get_elem? vs j
get_elem?-masked bm i k j [] e n = refl
get_elem?-masked bm i k zero (v ∷ vs) e n =
    let e' : k ≡ i = omega arith in let n' = rw e' at n in rw n' refl
get_elem?-masked bm i k (suc j) (v ∷ vs) e n = get_elem?-masked bm (i + 1) k j vs (omega arith) n

pub string_cell-map-some :
    (xs : List String) (i : ℕ) (s : String)
    → get_elem? xs i ≡ some s
    → string_cell (get_elem? (map some xs) i) ≡ string s
string_cell-map-some [] i s h = cc
string_cell-map-some (x ∷ xs) zero s h = cc
string_cell-map-some (x ∷ xs) (suc i) s h = string_cell-map-some xs i s h

get_or-take : (n i d : ℕ) (xs : List ℕ) → i < n → get_or (take n xs) i d ≡ get_or xs i d
get_or-take zero i d xs h = elim h [ ]
get_or-take (suc n) i d [] h = refl
get_or-take (suc n) zero d (x ∷ xs) h = refl
get_or-take (suc n) (suc i) d (x ∷ xs) h = get_or-take n i d xs (omega arith)

-- The copy of a bitmap has the bits of the rows of its column.
pub null_bit-copy_bitmap :
    (bm : Bitmap) (n i : ℕ) → n + 7 < 2 ^ 31 → i < n → null_bit (copy_bitmap n bm) i ≡ null_bit bm i
unfolding null_bit copy_bitmap
null_bit-copy_bitmap none n i small h = refl
null_bit-copy_bitmap (some bm) n i small h =
    rw (get_or-take (null_bm_bytes n) (i / 8) 0 bm (omega (arith, null_bm_bytes_exact n small)))
      refl

sums_from-copy_bitmap :
    (bm : Bitmap) (n i cur : ℕ) (ds : List ℕ)
    → n + 7 < 2 ^ 31
    → i + length ds ≤ n
    → sums_from (copy_bitmap n bm) i cur ds ≡ sums_from bm i cur ds
unfolding sums_from
sums_from-copy_bitmap bm n i cur [] small h = refl
sums_from-copy_bitmap bm n i cur (d ∷ ds) small h =
    let next : ℕ = (cur + extend d) % 2 ^ 64 in
    rw (
      null_bit-copy_bitmap bm n i small (omega arith),
      sums_from-copy_bitmap bm n (i + 1) cur ds small (omega arith),
      sums_from-copy_bitmap bm n (i + 1) next ds small (omega arith),
    )

length-sums_from :
    (bm : Bitmap) (i cur : ℕ) (ds : List ℕ) → length (sums_from bm i cur ds) ≡ length ds
unfolding sums_from
length-sums_from bm i cur [] = refl
length-sums_from bm i cur (d ∷ ds) =
    let next : ℕ = (cur + extend d) % 2 ^ 64 in
    ground (arith, length-sums_from bm (i + 1) cur ds, length-sums_from bm (i + 1) next ds)

length-masked : (bm : Bitmap) (i : ℕ) (vs : List ℕ) → length (masked bm i vs) ≡ length vs
length-masked bm i [] = refl
length-masked bm i (v ∷ vs) = ap suc (length-masked bm (i + 1) vs)

-- The decoder looks at the copy of the bitmap, the encoder at the caller's.
pub delta_decode-copy_bitmap :
    (bm : Bitmap) (vs : List ℕ) (c : Deltas)
    → length vs + 7 < 2 ^ 31
    → All IsWord vs
    → delta_encode bm vs ≡ some c
    → delta_decode (copy_bitmap (length vs) bm) (length vs) c ≡ masked bm 0 vs
unfolding delta_decode
delta_decode-copy_bitmap bm vs c small w e =
    let ds : List ℕ = elim c.deltas [ none ↦ replicate (length vs) 0 | some l ↦ l ] in
    let back : sums_from bm 0 c.base_value ds ≡ masked bm 0 vs =
      delta_decode-delta_encode bm vs c w e in
    sums_from-copy_bitmap bm (length vs) 0 c.base_value ds small
      (omega (arith, length-sums_from bm 0 c.base_value ds, length-masked bm 0 vs, ap length back))
    ∙ back
