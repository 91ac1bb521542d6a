-- ===== src/Storage/Compress/Column/Batches.antt =====
-- `compress_batch` and `decompress_batch` of lib/storage/compress.c, column by column.
use napastak.Base.{
  ℕ, zero, suc, ◌+◌, ◌≤◌, ◌<◌, ◌≡◌, refl, sym, ◌∙◌, ltb, if◌then◌else◌, String, false, Option, some,
  List, [], ◌∷◌, arith, get_elem?, subst,
}
use napastak.Storage.Batch.{
  ColType, ColDef, ColBatch, BatchColumn, Values, Bitmap, rows, null_bit, column_type,
}
use napastak.Storage.Compress.Rle.{max_run}
use napastak.Storage.Compress.Choose.{Encoding, choose_encoding}
use napastak.Storage.Compress.Column.{
  pointed, compress_col, decompress_col, compress_columns, decompress_columns, compress_batch,
  decompress_batch, CompressedCol, CompressedBatch, original_size,
}
use napastak.Storage.Compress.Column.Rows.{HasType, cell}
use napastak.Storage.Compress.Column.Roundtrip.{decompress_col-compress_col, compress_col-some}

-- `out` shows in every row that is not null what the column `vs` with the bitmap `bm` does.
pub record Shows (vs : Values) (bm : Bitmap) (out : BatchColumn) : Type 0 where
  pub value :
      (i : ℕ) → i < rows vs → null_bit bm i ≡ false → cell (pointed out.values) i ≡ cell vs i
  pub present : (i : ℕ) → i < rows vs → null_bit bm i ≡ false → null_bit out.null_bitmap i ≡ false

module _ (vs : Values) (bm : Bitmap) where
  abbrev both : BatchColumn
  both = record { null_bitmap = bm; values = some vs }

  -- A compressed column shows what it was made from, once it is decompressed.
  Shows-compress_col :
      (type : ColType) (enc : Encoding) (c : CompressedCol)
      → HasType type vs
      → rows vs ≤ max_run
      → compress_col vs bm (rows vs) type enc ≡ some c
      → Shows vs bm
          (record { null_bitmap = (decompress_col c).1; values = some (decompress_col c).0 })
  Shows-compress_col type enc c t few made = record {
    value = λ i h p. (each i h p).0;
    present = λ i h p. (each i h p).1;
  }
    where
      each :
          (i : ℕ)
          → i < rows vs
          → null_bit bm i ≡ false
          → (cell (decompress_col c).0 i ≡ cell vs i) × (null_bit (decompress_col c).1 i ≡ false)
      each i h p =
          let (d, made_d, shows) = decompress_col-compress_col vs bm type enc i t few h p in
          let both_made : some d ≡ some c = sym made_d ∙ made in
          let one : d ≡ c = cc both_made in
          subst
            (λ x.
              (cell (decompress_col x).0 i ≡ cell vs i) × (null_bit (decompress_col x).1 i ≡ false))
            one shows

  abbrev Made : Option (List ColDef) → ℕ → ℕ → BatchColumn → CompressedCol → Type 0
  Made schema nrows c b col =
      let type = column_type schema c in
      compress_col (pointed b.values) b.null_bitmap nrows type
        (choose_encoding (pointed b.values) b.null_bitmap nrows type)
      ≡ some col

  Shows-Made :
      (schema : Option (List ColDef)) (nrows c k : ℕ) (b : BatchColumn) (col : CompressedCol)
      → nrows ≤ max_run
      → k ≡ c
      → b ≡ both
      → HasType (column_type schema k) vs
      → rows vs ≡ nrows
      → Made schema nrows c b col
      → Shows vs bm
          (record { null_bitmap = (decompress_col col).1; values = some (decompress_col col).0 })
  Shows-Made schema nrows c k b col few place same t n made =
      let here = subst (λ d. Made schema nrows c d col) same made in
      let sized = subst (λ m. Made schema m c both col) (sym n) here in
      let typed = subst (λ q. Made schema (rows vs) q both col) (sym place) sized in
      Shows-compress_col (column_type schema k) _ col t (omega (arith, n, few)) typed

compress_columns-some :
    (schema : Option (List ColDef)) (nrows c : ℕ) (bs : List BatchColumn)
    → nrows ≤ max_run
    → (cs : List CompressedCol) × (compress_columns schema nrows c bs ≡ some cs)
unfolding compress_columns
compress_columns-some schema nrows c [] few = ([], refl)
compress_columns-some schema nrows c (b ∷ bs) few =
    let (d, made) =
      compress_col-some (pointed b.values) b.null_bitmap nrows (column_type schema c)
        (choose_encoding (pointed b.values) b.null_bitmap nrows (column_type schema c)) few in
    let (cs, rest) = compress_columns-some schema nrows (c + 1) bs few in
    (d ∷ cs, rw (made, rest) refl)

module _ (vs : Values) (bm : Bitmap) where
  -- A column of a compressed batch, whatever the columns before it.
  decompress_columns-compress_columns :
      (schema : Option (List ColDef)) (nrows c j k : ℕ) (bs : List BatchColumn)
      → nrows ≤ max_run
      → k ≡ c + j
      → get_elem? bs j ≡ some (both vs bm)
      → HasType (column_type schema k) vs
      → rows vs ≡ nrows
      → (cs : List CompressedCol) × (compress_columns schema nrows c bs ≡ some cs)
        × (out : BatchColumn) × (get_elem? (decompress_columns cs) j ≡ some out)
        × Shows vs bm out
  unfolding decompress_columns compress_columns
  decompress_columns-compress_columns schema nrows c j k [] few e at t n = cc at
  decompress_columns-compress_columns schema nrows c (suc j) k (b ∷ bs) few e at t n =
      let (d, made) =
        compress_col-some (pointed b.values) b.null_bitmap nrows (column_type schema c)
          (choose_encoding (pointed b.values) b.null_bitmap nrows (column_type schema c)) few in
      let (cs, rest, out, got, shows) =
        decompress_columns-compress_columns schema nrows (c + 1) j k bs few (omega arith) at t n in
      (d ∷ cs, rw (made, rest) refl, out, got, shows)
  decompress_columns-compress_columns schema nrows c zero k (b ∷ bs) few e at t n =
      let (d, made) =
        compress_col-some (pointed b.values) b.null_bitmap nrows (column_type schema c)
          (choose_encoding (pointed b.values) b.null_bitmap nrows (column_type schema c)) few in
      let (cs, rest) = compress_columns-some schema nrows (c + 1) bs few in
      let same : b ≡ both vs bm = cc at in
      (
        d ∷ cs,
        rw (made, rest) refl,
        record { null_bitmap = (decompress_col d).1; values = some (decompress_col d).0 },
        refl,
        Shows-Made vs bm schema nrows c k b d few (omega (arith, e)) same t n made,
      )

-- A batch of at most 65535 rows is compressed within the arrays that are allocated, and comes back
-- with its schema and its number of rows, and each column in its place, with the encoding that the
-- code chooses for it, showing the values of all its rows that are not null.
pub decompress_batch-compress_batch :
    (strlen : String → ℕ) (b : ColBatch) (k : ℕ) (vs : Values) (bm : Bitmap)
    → b.nrows ≤ max_run
    → get_elem? b.columns k ≡ some (record { null_bitmap = bm; values = some vs })
    → HasType (column_type b.schema k) vs
    → rows vs ≡ b.nrows
    → (cb : CompressedBatch) × (compress_batch strlen b ≡ some cb)
      × (let out = decompress_batch cb in
          (out.schema ≡ b.schema)
          × (out.nrows ≡ b.nrows)
          × (c : BatchColumn) × (get_elem? out.columns k ≡ some c)
          × Shows vs bm c)
unfolding decompress_batch compress_batch
decompress_batch-compress_batch strlen b k vs bm few at t n =
    let (cs, made, c, got, shows) =
      decompress_columns-compress_columns vs bm b.schema b.nrows 0 k k b.columns few (omega arith)
        at t n in
    let orig = original_size strlen b.schema b.nrows 0 b.columns in
    let size = if ltb 0 orig then orig else 1 in
    (
      record {
        schema = b.schema;
        nrows = b.nrows;
        cols = cs;
        original_bytes = size;
        compressed_bytes = size;
      },
      rw made refl,
      (refl, refl, c, got, shows),
    )
