-- ===== src/Storage/Compress/Serial/Tests.antt =====
-- Runs of the byte format of lib/storage/compress.c and instances of what is proved of it.
use napastak.Base.{
  ℕ, ◌+◌, ◌<◌, ◌≡◌, refl, String, string_eq, true, none, some, List, [], ◌∷◌, arith, length,
  if◌then◌else◌,
}
use napastak.Storage.Batch.{ColType, null_bm_bytes}
use napastak.Storage.Compress.Column.{Payload, CompressedCol, CompressedBatch}
use napastak.Storage.Compress.Serial.{
  le, concat, write_text, write_runs, write_dict, write_payload, write_bitmap, write_col,
  compressed_batch_serialize, compressed_batch_deserialize,
}
use napastak.Storage.Compress.Serial.Roundtrip.{
  IsColumn, IsBatch, bare, compressed_batch_deserialize-compressed_batch_serialize,
}
use napastak.Storage.Compress.Serial.Estimate.{
  ser_estimate, compressed_batch_serialize-ser_estimate,
}

-- Of the texts that occur, `a` has the byte 97 and the empty one none.
abbrev bytes_of : String → List ℕ
bytes_of s = if string_eq.beq s "a" then 97 ∷ [] else []

abbrev text_of : List ℕ → String
text_of [] = ""
text_of (b ∷ bs) = "a"

-- Two rows of integers with a dictionary and of texts with runs; the second integer is null.
abbrev numbers : CompressedCol
numbers = record {
  col_type = ColType.int64;
  nrows = 2;
  null_bitmap = some (2 ∷ []);
  payload = Payload.dict_words (record { values = 300 ∷ []; is_u8 = true; codes = 0 ∷ 0 ∷ [] });
}

abbrev texts : CompressedCol
texts = record {
  col_type = ColType.text;
  nrows = 2;
  null_bitmap = none;
  payload = Payload.rle_texts (record { nruns = 1; runs = (2, "a") ∷ [] });
}

abbrev batch : CompressedBatch
batch = record {
  schema = none;
  nrows = 2;
  cols = numbers ∷ texts ∷ [];
  original_bytes = 20;
  compressed_bytes = 20;
}

written :
    compressed_batch_serialize bytes_of text_of batch
    ≡ 68 ∷ 67 ∷ 77 ∷ 66 ∷ 1 ∷ 2 ∷ 0 ∷ 0 ∷ 0 ∷ 2 ∷ 0 ∷ 0 ∷ 0 ∷ 0 ∷ 2 ∷ 1 ∷ 1 ∷ 0 ∷ 0 ∷ 0 ∷ 2 ∷ 1 ∷ 0
      ∷ 0 ∷ 0 ∷ 1 ∷ 44 ∷ 1 ∷ 0 ∷ 0 ∷ 0 ∷ 0 ∷ 0 ∷ 0 ∷ 0 ∷ 0 ∷ 2 ∷ 1 ∷ 0 ∷ 1 ∷ 0 ∷ 0 ∷ 0 ∷ 2 ∷ 0 ∷ 1
      ∷ 0 ∷ 0 ∷ 0 ∷ 97 ∷ []
unfolding compressed_batch_serialize le concat write_col write_bitmap null_bm_bytes write_payload
    write_dict write_runs write_text
written = refl

numbers-IsColumn : IsColumn bytes_of text_of 2 numbers
unfolding null_bm_bytes
numbers-IsColumn = record {
  size = refl;
  bitmap = refl;
  payload =
      (refl, (omega arith, (omega arith, tt), omega arith, refl, (omega arith, (omega arith, tt))));
}

texts-IsColumn : IsColumn bytes_of text_of 2 texts
texts-IsColumn = record {
  size = refl;
  bitmap = tt;
  payload = (refl, (refl, omega arith, ((omega arith, (omega arith, refl)), tt)));
}

batch-IsBatch : IsBatch bytes_of text_of batch
batch-IsBatch = record {
  few = omega arith;
  short = omega arith;
  columns = (numbers-IsColumn, (texts-IsColumn, tt));
}

compressed_batch_deserialize-compressed_batch_serialize_example :
    compressed_batch_deserialize bytes_of text_of
      (compressed_batch_serialize bytes_of text_of batch)
    ≡ some (some (bare batch), [])
compressed_batch_deserialize-compressed_batch_serialize_example =
    compressed_batch_deserialize-compressed_batch_serialize bytes_of text_of batch batch-IsBatch
      (λ e. absurd (cc))

compressed_batch_serialize-ser_estimate_example :
    length (compressed_batch_serialize bytes_of text_of batch) + 64
    < ser_estimate bytes_of text_of batch
compressed_batch_serialize-ser_estimate_example =
    compressed_batch_serialize-ser_estimate bytes_of text_of refl batch
      (omega arith, (omega arith, tt))
