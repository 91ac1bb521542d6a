-- ===== src/Storage/Txn/Copy.antt =====
-- `colbatch_copy` of lib/storage/txn.c: what a transaction keeps of a batch.
use mathlib.Core.Option
use napastak.Base.{
  ℕ, ◌+◌, ◌≡◌, refl, Option, none, some, List, [], ◌∷◌, arith, take, length, take_all, ap, ap₂,
}
use napastak.Storage.Batch.{
  ColType, int64, double, bool, Values, words, strings, rows, null_bm_bytes, ColDef, BatchColumn,
  ColBatch, column_type, copy_values, copy_columns, copy_schema, colbatch_copy,
}

-- Integers and doubles are words, all else is text.
abbrev pub Fits : ColType → Values → Type 0
Fits int64 (words vs) = Unit
Fits bool (words vs) = Unit
Fits double (words vs) = Unit
Fits int64 (strings vs) = ⊥
Fits bool (strings vs) = ⊥
Fits double (strings vs) = ⊥
Fits _ (strings vs) = Unit
Fits _ (words vs) = ⊥

abbrev pub BitmapFits : ℕ → Option (List ℕ) → Type 0
BitmapFits nrows none = Unit
BitmapFits nrows (some bm) = length bm ≡ null_bm_bytes nrows

abbrev pub ValuesFit : ColType → ℕ → Option Values → Type 0
ValuesFit type nrows none = Unit
ValuesFit type nrows (some vs) = Fits type vs × (rows vs ≡ nrows)

-- Each column from column `c` on holds `nrows` rows of the kind that the schema says.
abbrev pub ColumnsFit : Option (List ColDef) → ℕ → ℕ → List BatchColumn → Type 0
ColumnsFit schema nrows c [] = Unit
ColumnsFit schema nrows c (b ∷ bs) =
    BitmapFits nrows b.null_bitmap
    × ValuesFit (column_type schema c) nrows b.values
    × ColumnsFit schema nrows (c + 1) bs

copy_bitmap_all :
    (nrows : ℕ) (bm : Option (List ℕ))
    → BitmapFits nrows bm
    → Option.map (take (null_bm_bytes nrows)) bm ≡ bm
copy_bitmap_all nrows none h = refl
copy_bitmap_all nrows (some bm) h = ap some (take_all (null_bm_bytes nrows) bm (omega (arith, h)))

copy_values_all :
    (type : ColType) (nrows : ℕ) (vs : Values)
    → Fits type vs
    → rows vs ≡ nrows
    → copy_values type nrows vs ≡ vs
unfolding copy_values
copy_values_all int64 nrows (words vs) f h = ap words (take_all nrows vs (omega (arith, h)))
copy_values_all bool nrows (words vs) f h = ap words (take_all nrows vs (omega (arith, h)))
copy_values_all double nrows (words vs) f h = ap words (take_all nrows vs (omega (arith, h)))
copy_values_all int64 nrows (strings vs) f h = absurd f
copy_values_all bool nrows (strings vs) f h = absurd f
copy_values_all double nrows (strings vs) f h = absurd f
copy_values_all _ nrows (strings vs) f h = ap strings (take_all nrows vs (omega (arith, h)))
copy_values_all _ nrows (words vs) f h = absurd f

copy_value_all :
    (type : ColType) (nrows : ℕ) (v : Option Values)
    → ValuesFit type nrows v
    → Option.map (copy_values type nrows) v ≡ v
copy_value_all type nrows none h = refl
copy_value_all type nrows (some vs) h = ap some (copy_values_all type nrows vs h.0 h.1)

copy_columns_all :
    (schema : Option (List ColDef)) (nrows c : ℕ) (bs : List BatchColumn)
    → ColumnsFit schema nrows c bs
    → copy_columns schema nrows c bs ≡ bs
unfolding copy_columns
copy_columns_all schema nrows c [] h = refl
copy_columns_all schema nrows c (b ∷ bs) h = rw (
  copy_bitmap_all nrows b.null_bitmap h.0,
  copy_value_all (column_type schema c) nrows b.values h.1,
  copy_columns_all schema nrows (c + 1) bs h.2,
)

copy_schema_all : (ds : List ColDef) → copy_schema ds ≡ ds
unfolding copy_schema
copy_schema_all [] = refl
copy_schema_all (d ∷ ds) = ap (λ r. d ∷ r) (copy_schema_all ds)

-- The copy of a batch whose columns fit its number of rows and its schema is that batch.
pub colbatch_copy_all :
    (b : ColBatch) → ColumnsFit b.schema b.nrows 0 b.columns → colbatch_copy b ≡ b
unfolding colbatch_copy
colbatch_copy_all b h =
    ap₂
      (λ (s : Option (List ColDef)) (cs : List BatchColumn). record b { schema = s; columns = cs })
      (schema_all b.schema) (copy_columns_all b.schema b.nrows 0 b.columns h)
  where
    schema_all : (s : Option (List ColDef)) → Option.map copy_schema s ≡ s
    schema_all none = refl
    schema_all (some ds) = ap some (copy_schema_all ds)
