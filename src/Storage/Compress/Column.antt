-- ===== src/Storage/Compress/Column.antt =====
-- `compress_col`, `decompress_col`, `compress_batch` and `decompress_batch` of
-- lib/storage/compress.c.
pub mod Rows
pub mod Roundtrip
pub mod Loss
pub mod Batches
use mathlib.Core.Option
use napastak.Base.{
  ℕ, zero, suc, ◌+◌, ◌*◌, String, Bool, true, false, Option, none, some, List, [], ◌∷◌, map, length,
  take, nat_eq, string_eq, if◌then◌else◌, ltb,
}
use napastak.Storage.Batch.{
  ColType, int64, double, text, bool, Values, words, strings, rows, word_rows, string_rows, Bitmap,
  null_bm_bytes, ColDef, BatchColumn, ColBatch, column_type,
}
use napastak.Storage.Compress.Cells.{word_cells, text_cells}
use napastak.Storage.Compress.Rle.{Runs, rle_encode, rle_decode}
use napastak.Storage.Compress.Dict.{Dict, int_cells, dict_int, dict_text, dict_decode}
use napastak.Storage.Compress.Delta.{Deltas, delta_encode, delta_decode}
use napastak.Storage.Compress.Choose.{Encoding, plain, rle, dict, delta, choose_encoding}

-- The fields of `CompressedCol` that its `enc` makes active.
pub data Payload : Type 0 where
  plain_values : Values → Payload
  rle_words : Runs ℕ → Payload
  rle_texts : Runs String → Payload
  dict_words : Dict ℕ → Payload
  dict_texts : Dict String → Payload
  delta_words : Deltas → Payload

pub record CompressedCol : Type 0 where
  pub col_type : ColType
  pub nrows : ℕ
  pub null_bitmap : Bitmap
  pub payload : Payload

unfoldable pub copy_bitmap : ℕ → Bitmap → Bitmap
unfolding null_bm_bytes
copy_bitmap n none = none
copy_bitmap n (some bm) = some (take (null_bm_bytes n) bm)

-- `rc != 0` falls back to the plain values.
abbrev pub or_plain : {A : Type 0} → Values → (A → Payload) → Option A → Payload
or_plain vs f none = plain_values vs
or_plain vs f (some a) = f a

-- The cast of `values` follows the type of the column.
unfoldable pub rle_payload : ColType → Values → Bitmap → Option Payload
unfolding rle_encode word_cells text_cells
rle_payload int64 vs bm = Option.map rle_words (rle_encode (word_cells bm 0 (word_rows vs)))
rle_payload bool vs bm = Option.map rle_words (rle_encode (word_cells bm 0 (word_rows vs)))
rle_payload text vs bm = Option.map rle_texts (rle_encode (text_cells bm 0 (string_rows vs)))
rle_payload _ vs bm = some (plain_values vs)

unfoldable pub dict_payload : ColType → Values → Bitmap → Payload
unfolding dict_int dict_text int_cells text_cells
dict_payload int64 vs bm = or_plain vs dict_words (dict_int (int_cells bm 0 (word_rows vs)))
dict_payload bool vs bm = or_plain vs dict_words (dict_int (int_cells bm 0 (word_rows vs)))
dict_payload text vs bm = or_plain vs dict_texts (dict_text (text_cells bm 0 (string_rows vs)))
dict_payload _ vs bm = plain_values vs

unfoldable pub delta_payload : ColType → Values → Bitmap → Payload
unfolding delta_encode
delta_payload int64 vs bm = or_plain vs delta_words (delta_encode bm (word_rows vs))
delta_payload _ vs bm = plain_values vs

unfoldable pub payload_of : Encoding → ColType → Values → Bitmap → Option Payload
unfolding rle_payload dict_payload delta_payload
payload_of plain type vs bm = some (plain_values vs)
payload_of rle type vs bm = rle_payload type vs bm
payload_of dict type vs bm = some (dict_payload type vs bm)
payload_of delta type vs bm = some (delta_payload type vs bm)

-- The loops run over the first `n` rows.
abbrev pub first_rows : ℕ → Values → Values
first_rows n (words l) = words (take n l)
first_rows n (strings l) = strings (take n l)

-- `none` where runs are written past their arrays.
unfoldable pub compress_col : Values → Bitmap → ℕ → ColType → Encoding → Option CompressedCol
unfolding copy_bitmap payload_of
compress_col vs bm nrows type enc =
    Option.map
      (λ p. record {
        col_type = type;
        nrows = nrows;
        null_bitmap = copy_bitmap nrows bm;
        payload = p;
      })
      (payload_of enc type (first_rows nrows vs) bm)

unfoldable pub decompress_values : CompressedCol → Payload → Values
unfolding rle_decode dict_decode delta_decode
decompress_values c (plain_values vs) = vs
decompress_values c (rle_words r) = words (rle_decode r)
decompress_values c (rle_texts r) = strings (map some (rle_decode r))
decompress_values c (dict_words d) = words (dict_decode 0 d)
decompress_values c (dict_texts d) = strings (map some (dict_decode "" d))
decompress_values c (delta_words d) = words (delta_decode c.null_bitmap c.nrows d)

unfoldable pub decompress_col : CompressedCol → Values × Bitmap
unfolding decompress_values copy_bitmap
decompress_col c = (decompress_values c c.payload, copy_bitmap c.nrows c.null_bitmap)

-- `compressed_bytes` starts as the size before compression.
pub record CompressedBatch : Type 0 where
  pub schema : Option (List ColDef)
  pub nrows : ℕ
  pub cols : List CompressedCol
  pub original_bytes : ℕ
  pub compressed_bytes : ℕ

-- What a pointer to values points at; the code reads a null one only where there are no rows.
abbrev pub pointed : Option Values → Values
pointed none = words []
pointed (some vs) = vs

abbrev pub followed_by : {A : Type 0} → Option A → Option (List A) → Option (List A)
followed_by none l = none
followed_by (some a) none = none
followed_by (some a) (some l) = some (a ∷ l)

unfoldable pub compress_columns :
    Option (List ColDef) → ℕ → ℕ → List BatchColumn → Option (List CompressedCol)
unfolding compress_col choose_encoding column_type
compress_columns schema nrows c [] = some []
compress_columns schema nrows c (b ∷ bs) =
    let type = column_type schema c in
    let vs = pointed b.values in
    followed_by
      (compress_col vs b.null_bitmap nrows type (choose_encoding vs b.null_bitmap nrows type))
      (compress_columns schema nrows (c + 1) bs)

-- The bytes of a text with its closing zero; `strlen` is the C function.
unfoldable pub text_bytes : (String → ℕ) → List (Option String) → ℕ
text_bytes strlen [] = 0
text_bytes strlen (none ∷ vs) = 1 + text_bytes strlen vs
text_bytes strlen (some s ∷ vs) = strlen s + 1 + text_bytes strlen vs

-- A null pointer to texts counts one byte for each row.
unfoldable pub column_bytes : (String → ℕ) → ColType → ℕ → Option Values → ℕ
unfolding text_bytes
column_bytes strlen int64 nrows vs = nrows * 8
column_bytes strlen bool nrows vs = nrows * 8
column_bytes strlen double nrows vs = nrows * 8
column_bytes strlen _ nrows none = nrows
column_bytes strlen _ nrows (some vs) = text_bytes strlen (take nrows (string_rows vs))

unfoldable pub original_size : (String → ℕ) → Option (List ColDef) → ℕ → ℕ → List BatchColumn → ℕ
unfolding column_bytes column_type
original_size strlen schema nrows c [] = 0
original_size strlen schema nrows c (b ∷ bs) =
    column_bytes strlen (column_type schema c) nrows b.values
    + original_size strlen schema nrows (c + 1) bs

unfoldable pub compress_batch : (String → ℕ) → ColBatch → Option CompressedBatch
unfolding compress_columns original_size
compress_batch strlen b =
    let orig = original_size strlen b.schema b.nrows 0 b.columns in
    let size = if ltb 0 orig then orig else 1 in
    Option.map
      (λ cs. record {
        schema = b.schema;
        nrows = b.nrows;
        cols = cs;
        original_bytes = size;
        compressed_bytes = size;
      })
      (compress_columns b.schema b.nrows 0 b.columns)

unfoldable pub decompress_columns : List CompressedCol → List BatchColumn
unfolding decompress_col
decompress_columns [] = []
decompress_columns (c ∷ cs) =
    let (vs, bm) = decompress_col c in
    record { null_bitmap = bm; values = some vs } ∷ decompress_columns cs

unfoldable pub decompress_batch : CompressedBatch → ColBatch
unfolding decompress_columns
decompress_batch cb = record {
  nrows = cb.nrows;
  schema = cb.schema;
  columns = decompress_columns cb.cols;
}
