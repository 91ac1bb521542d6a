-- ===== src/Storage/Compress/Tests.antt =====
-- The code of lib/storage/compress.c on small columns.
use napastak.Base.{
  ℕ, suc, ◌-◌, ◌^◌, ◌≡◌, ◌≢◌, refl, String, true, false, Option, none, some, List, [], ◌∷◌, arith,
  replicate, length, get_elem?, All, nat_eq, string_eq,
}
use napastak.Storage.Batch.{
  int64, text, bool, words, strings, Bitmap, null_bit, IsWord, ColBatch, BatchColumn, column_type,
}
use napastak.Storage.Compress.Rle.{max_run, Runs, rle_encode, rle_decode}
use napastak.Storage.Compress.Rle.Roundtrip.{rle_decode-rle_encode}
use napastak.Storage.Compress.Sort.{insertion_sort}
use napastak.Storage.Compress.Dict.{Dict, dict_int, dict_text, dict_decode}
use napastak.Storage.Compress.Dict.Roundtrip.{dict_decode-dict_int}
use napastak.Storage.Compress.Delta.{Deltas, delta_encode}
use napastak.Storage.Compress.Choose.{dict, delta, choose_encoding}
use napastak.Storage.Compress.Choose.Laws.{choose_encoding-ne-delta}
use napastak.Storage.Compress.Column.{
  CompressedCol, CompressedBatch, compress_col, decompress_col, compress_batch, decompress_batch,
}
use napastak.Storage.Compress.Column.Rows.{HasType, cell}
use napastak.Storage.Compress.Column.Roundtrip.{decompress_col-compress_col}
use napastak.Storage.Compress.Column.Batches.{Shows, decompress_batch-compress_batch}
use napastak.Storage.Compress.Column.Loss.{decompress_col_loss}

abbrev numbers : List ℕ
numbers = 7 ∷ 7 ∷ (2 ^ 64 - 1) ∷ 9 ∷ []

-- Row 1 is null.
abbrev one_null : Bitmap
one_null = some (2 ∷ [])

rle_encode-numbers :
    rle_encode numbers ≡ some (record { nruns = 3; runs = (2, 7) ∷ (1, 2 ^ 64 - 1) ∷ (1, 9) ∷ [] })
unfolding rle_encode
rle_encode-numbers = refl

-- The pattern of -1 comes first.
insertion_sort-numbers : insertion_sort numbers ≡ (2 ^ 64 - 1) ∷ 7 ∷ 7 ∷ 9 ∷ []
unfolding insertion_sort
insertion_sort-numbers = refl

abbrev number_cells : List (Option ℕ)
number_cells = some 7 ∷ none ∷ some (2 ^ 64 - 1) ∷ []

abbrev number_dict : Dict ℕ
number_dict = record { values = (2 ^ 64 - 1) ∷ 7 ∷ []; is_u8 = true; codes = 1 ∷ 0 ∷ 0 ∷ [] }

dict_int-numbers : dict_int number_cells ≡ some number_dict
unfolding dict_int
dict_int-numbers = refl

abbrev names : List String
names = "b" ∷ "a" ∷ "b" ∷ []

abbrev name_dict : Dict String
name_dict = record { values = "b" ∷ "a" ∷ []; is_u8 = true; codes = 0 ∷ 1 ∷ 0 ∷ [] }

dict_text-names : dict_text names ≡ some name_dict
unfolding dict_text
dict_text-names = refl

abbrev number_deltas : Deltas
number_deltas = record { base_value = 7; deltas = some (0 ∷ 0 ∷ (2 ^ 32 - 8) ∷ 10 ∷ []) }

delta_encode-numbers : delta_encode one_null numbers ≡ some number_deltas
unfolding delta_encode null_bit
delta_encode-numbers = refl

numbers-IsWord : All IsWord numbers
numbers-IsWord = (omega arith, (omega arith, (omega arith, (omega arith, tt))))

-- Three times as long as a run may be: one run is counted and three are written.
rle_encode-outside : rle_encode (replicate {A = ℕ} 196605 7) ≡ none
unfolding rle_encode
rle_encode-outside = refl

rle_decode-rle_encode_example :
    (r : Runs ℕ) × (rle_encode numbers ≡ some r)
    × (length r.runs ≡ r.nruns)
    × (rle_decode r ≡ numbers)
rle_decode-rle_encode_example = rle_decode-rle_encode numbers (omega arith)

dict_decode-dict_int_example : get_elem? (dict_decode 0 number_dict) 2 ≡ some (2 ^ 64 - 1)
dict_decode-dict_int_example =
    dict_decode-dict_int number_cells number_dict 2 (2 ^ 64 - 1)
      (omega arith, (tt, (omega arith, tt))) dict_int-numbers refl

row_2_present : null_bit one_null 2 ≡ false
unfolding null_bit
row_2_present = refl

decompress_col-compress_col_example :
    (c : CompressedCol) × (compress_col (words numbers) one_null 4 int64 delta ≡ some c)
    × (let (out, bm) = decompress_col c in
        (cell out 2 ≡ cell (words numbers) 2) × (null_bit bm 2 ≡ false))
decompress_col-compress_col_example =
    decompress_col-compress_col (words numbers) one_null int64 delta 2 numbers-IsWord (omega arith)
      (omega arith) row_2_present

abbrev batch : ColBatch
batch = record {
  nrows = 4;
  schema = some (record { name = some "n"; type = int64; nullable = true } ∷ []);
  columns =
      record { null_bitmap = one_null; values = some (words numbers) }
      ∷ record {
        null_bitmap = none;
        values = some (strings (some "x" ∷ none ∷ some "x" ∷ some "x" ∷ []));
      }
      ∷ [];
}

first_type : HasType (column_type batch.schema 0) (words numbers)
unfolding column_type
first_type = numbers-IsWord

decompress_batch-compress_batch_example :
    (cb : CompressedBatch) × (compress_batch (λ s. 1) batch ≡ some cb)
    × (let out = decompress_batch cb in
        (out.schema ≡ batch.schema)
        × (out.nrows ≡ 4)
        × (c : BatchColumn) × (get_elem? out.columns 0 ≡ some c)
        × Shows (words numbers) one_null c)
decompress_batch-compress_batch_example =
    decompress_batch-compress_batch (λ s. 1) batch 0 (words numbers) one_null (omega arith) refl
      first_type refl

decompress_col_loss_example :
    let vs = words (replicate (suc max_run) 1) in
    (c : CompressedCol) × (compress_col vs none
        (suc max_run)
        bool
        (choose_encoding vs none (suc max_run) bool)
      ≡ some c)
    × ((decompress_col c).0 ≡ words (replicate max_run 1))
decompress_col_loss_example = decompress_col_loss 1 max_run (omega arith) (omega arith)

choose_encoding-ne-delta_example :
    (choose_encoding (words numbers) one_null 4 int64 ≡ dict)
    × (choose_encoding (words numbers) one_null 3 text ≢ delta)
choose_encoding-ne-delta_example = choose_encoding-ne-delta (words numbers) one_null 3 text
