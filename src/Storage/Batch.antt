-- ===== src/Storage/Batch.antt =====
-- Columns and batches of lib/storage/storage.h, and the null bitmaps of lib/storage/compress.c.
-- An `int64_t` and a `double` are bit patterns below 2 ^ 64; a `char *` is an optional text.
use mathlib.Core.Option
use napastak.Base.{
  [], ◌∷◌, take, get_elem?, ℕ, ◌+◌, ◌-◌, ◌≡◌, refl, arith, ltb, true, if◌then◌else◌, ◌/◌, ◌%◌, ◌^◌,
  ◌<◌, String, Bool, false, Option, none, some, List, [], ◌==◌, get_or, length,
}

pub data ColType : Type 0 where
  int64 double text bool null decimal date timestamp : ColType

-- What a `void *` of values points at: 8-byte words, or pointers to texts.
pub data Values : Type 0 where
  words : List ℕ → Values
  strings : List (Option String) → Values

abbrev pub Bitmap : Type 0
Bitmap = Option (List ℕ)

-- Bit `i`, least significant first; with no bitmap nothing is null.
unfoldable pub null_bit : Bitmap → ℕ → Bool
null_bit none i = false
null_bit (some bm) i = get_or bm (i / 8) 0 / 2 ^ (i % 8) % 2 == 1

-- An `int`, as the `size_t` that it becomes: the sum of an `int` past 2 ^ 31 wraps to a negative one,
-- which the division rounds towards 0.
unfoldable pub null_bm_bytes : ℕ → ℕ
null_bm_bytes nrows =
    if ltb (nrows + 7) (2 ^ 31) then (nrows + 7) / 8 else 2 ^ 64 - (2 ^ 32 - (nrows + 7)) / 8

pub null_bm_bytes_exact : (nrows : ℕ) → nrows + 7 < 2 ^ 31 → null_bm_bytes nrows ≡ (nrows + 7) / 8
unfolding null_bm_bytes
null_bm_bytes_exact nrows h =
    let y : ltb (nrows + 7) (2 ^ 31) ≡ true = ground (arith, h) in rw y refl

abbrev pub int64_min : ℕ
int64_min = 2 ^ 63

abbrev pub IsWord : ℕ → Type 0
IsWord w = w < 2 ^ 64

abbrev pub rows : Values → ℕ
rows (words vs) = length vs
rows (strings vs) = length vs

-- The rows of a column of each kind; the code reads a pointer only at its column's type.
abbrev pub word_rows : Values → List ℕ
word_rows (words vs) = vs
word_rows (strings vs) = []

abbrev pub string_rows : Values → List (Option String)
string_rows (words vs) = []
string_rows (strings vs) = vs

pub record ColDef : Type 0 where
  pub name : Option String
  pub type : ColType
  pub nullable : Bool

-- One column of a `ColBatch`: its bitmap and its values, either of which may be a null pointer.
pub record BatchColumn : Type 0 where
  pub null_bitmap : Bitmap
  pub values : Option Values

pub record ColBatch : Type 0 where
  pub nrows : ℕ
  pub schema : Option (List ColDef)
  pub columns : List BatchColumn

-- The type of column `c`; without a schema, or past its end, it is text.
unfoldable pub column_type : Option (List ColDef) → ℕ → ColType
column_type none c = text
column_type (some defs) c = elim (get_elem? defs c) [ none ↦ text | some d ↦ d.type ]

-- `memcpy` of `nrows` words, or a copy of each text, as the type says.
unfoldable pub copy_values : ColType → ℕ → Values → Values
copy_values int64 nrows vs = words (take nrows (word_rows vs))
copy_values bool nrows vs = words (take nrows (word_rows vs))
copy_values double nrows vs = words (take nrows (word_rows vs))
copy_values _ nrows vs = strings (take nrows (string_rows vs))

-- `colbatch_copy` of lib/storage/txn.c, from column `c` on.
unfoldable pub copy_columns : Option (List ColDef) → ℕ → ℕ → List BatchColumn → List BatchColumn
unfolding copy_values column_type null_bm_bytes
copy_columns schema nrows c [] = []
copy_columns schema nrows c (b ∷ bs) =
    record {
      null_bitmap = Option.map (take (null_bm_bytes nrows)) b.null_bitmap;
      values = Option.map (copy_values (column_type schema c) nrows) b.values;
    }
    ∷ copy_columns schema nrows (c + 1) bs

-- The columns of the copied schema keep the type, the flag and the name.
unfoldable pub copy_schema : List ColDef → List ColDef
copy_schema [] = []
copy_schema (d ∷ ds) =
    record { name = d.name; type = d.type; nullable = d.nullable } ∷ copy_schema ds

unfoldable pub colbatch_copy : ColBatch → ColBatch
unfolding copy_columns copy_schema
colbatch_copy b = record {
  nrows = b.nrows;
  schema = Option.map copy_schema b.schema;
  columns = copy_columns b.schema b.nrows 0 b.columns;
}
