-- ===== src/Storage/Compress/Serial/Roundtrip.antt =====
-- A batch that `compressed_batch_serialize` of lib/storage/compress.c wrote, read again.
use mathlib.Core.Path.{subst}
use napastak.Base.{
  ℕ, suc, ◌+◌, ◌^◌, ◌≤◌, ◌<◌, ◌≡◌, ◌≢◌, refl, sym, ◌∙◌, ap, String, false, ◌||◌, none, some, List,
  [], ◌∷◌, ◌++◌, map, arith, length, All, ltb, leb,
}
use napastak.Storage.Batch.{Bitmap}
use napastak.Storage.Compress.Column.{Payload, CompressedCol, CompressedBatch}
use napastak.Storage.Compress.Serial.{
  pure, ◌>>=◌, le, concat, type_code, enc_code, has_nulls, write_col, read_col, read_cols,
  read_checked, magic, max_cols, read_batch, compressed_batch_serialize,
  compressed_batch_deserialize,
}
use napastak.Storage.Compress.Serial.Reading.{
  Reads, Reads-bind, Reads-map, Reads-le, Reads-raw, limit,
}
use napastak.Storage.Compress.Serial.Columns.{Reads-type, type_code_lt, IsBitmap, Reads-bitmap}
use napastak.Storage.Compress.Serial.Payloads.{IsPayload, filled_payload, Reads-payload, append_nil}

abbrev pub filled_col : CompressedCol → CompressedCol
filled_col c = record c { payload = filled_payload c.payload }

-- What is read of a batch: no schema, and no sizes.
abbrev pub bare : CompressedBatch → CompressedBatch
bare cb = record {
  schema = none;
  nrows = cb.nrows;
  cols = map filled_col cb.cols;
  original_bytes = 0;
  compressed_bytes = 0;
}

enc_code_lt : (p : Payload) → enc_code p < limit 1
enc_code_lt (Payload.plain_values vs) = omega arith
enc_code_lt (Payload.rle_words r) = omega arith
enc_code_lt (Payload.rle_texts r) = omega arith
enc_code_lt (Payload.dict_words d) = omega arith
enc_code_lt (Payload.dict_texts d) = omega arith
enc_code_lt (Payload.delta_words d) = omega arith

has_nulls_lt : (bm : Bitmap) → has_nulls bm < limit 1
has_nulls_lt none = omega arith
has_nulls_lt (some bm) = omega arith

module _ (bytes_of : String → List ℕ) (text_of : List ℕ → String) where
  -- A column of a batch of `nrows` rows that fits the format.
  pub record IsColumn (nrows : ℕ) (c : CompressedCol) : Type 0 where
    pub size : c.nrows ≡ nrows
    pub bitmap : IsBitmap c.nrows c.null_bitmap
    pub payload : IsPayload bytes_of text_of c.col_type c.nrows c.payload

  Reads-column :
      (c : CompressedCol)
      → c.nrows < 2 ^ 28
      → IsColumn c.nrows c
      → Reads (read_col bytes_of text_of c.nrows) (write_col bytes_of text_of c) (filled_col c)
  unfolding read_col write_col
  Reads-column c l h = Reads-bind _ (Reads-le 1 (type_code c.col_type) (type_code_lt c.col_type)) (
      Reads-bind _ (Reads-type c.col_type) (
        Reads-bind _ (Reads-le 1 (enc_code c.payload) (enc_code_lt c.payload)) (
          Reads-bind _ (Reads-le 1 (has_nulls c.null_bitmap) (has_nulls_lt c.null_bitmap)) (
            Reads-bind _ (Reads-bitmap c.nrows c.null_bitmap l h.bitmap) (
              Reads-map _
                (Reads-payload bytes_of text_of c.col_type c.nrows c.payload h.payload))))))

  read_cols-suc :
      (n nrows b : ℕ) (bs : List ℕ)
      → read_cols bytes_of text_of (suc n) nrows (b ∷ bs)
        ≡ (read_col bytes_of text_of nrows
              >>= (λ c. read_cols bytes_of text_of n nrows >>= (λ cs. pure (c ∷ cs))))
            (b ∷ bs)
  unfolding read_cols ◌>>=◌
  read_cols-suc n nrows b bs = refl

  read_cols-zero : (nrows : ℕ) (bs : List ℕ) → read_cols bytes_of text_of 0 nrows bs ≡ some ([], bs)
  unfolding read_cols
  read_cols-zero nrows bs = refl

  Reads-column_first :
      (n nrows : ℕ) (c : CompressedCol) (bs : List ℕ) (cs : List CompressedCol)
      → Reads
          (read_col bytes_of text_of nrows
            >>= (λ c. read_cols bytes_of text_of n nrows >>= (λ cs. pure (c ∷ cs))))
          (write_col bytes_of text_of c ++ bs)
          cs
      → Reads (read_cols bytes_of text_of (suc n) nrows) (write_col bytes_of text_of c ++ bs) cs
  unfolding write_col le
  Reads-column_first n nrows c bs cs h = record {
    run = λ rest. read_cols-suc n nrows _ _ ∙ h.run rest;
  }

  Reads-columns :
      (nrows : ℕ) (cs : List CompressedCol)
      → nrows < 2 ^ 28
      → All (IsColumn nrows) cs
      → Reads
          (read_cols bytes_of text_of (length cs) nrows)
          (concat (write_col bytes_of text_of) cs)
          (map filled_col cs)
  unfolding concat
  Reads-columns nrows [] l h = record { run = λ rest. read_cols-zero nrows rest }
  Reads-columns nrows (c ∷ cs) l h =
      Reads-column_first (length cs) nrows c (concat (write_col bytes_of text_of) cs)
        (map filled_col (c ∷ cs))
        (Reads-bind _
          (subst
            (λ n. Reads (read_col bytes_of text_of n) (write_col bytes_of text_of c) (filled_col c))
            h.0.size
            (Reads-column c (subst (λ n. n < 2 ^ 28) (sym h.0.size) l)
              (subst (λ n. IsColumn n c) (sym h.0.size) h.0)))
          (Reads-map _ (Reads-columns nrows cs l h.1)))

  -- The counts of a batch fit.
  pub record IsBatch (cb : CompressedBatch) : Type 0 where
    pub few : length cb.cols ≤ max_cols
    pub short : cb.nrows < 2 ^ 28
    pub columns : All (IsColumn cb.nrows) cb.cols

  Reads-checked :
      (cb : CompressedBatch)
      → IsBatch cb
      → Reads
          (read_checked bytes_of text_of (length cb.cols) cb.nrows)
          (concat (write_col bytes_of text_of) cb.cols)
          (some (bare cb))
  unfolding read_checked
  Reads-checked cb h =
      let passed : (ltb max_cols (length cb.cols) || leb (2 ^ 31) cb.nrows) ≡ false =
        ground (arith, h.few, h.short) in
      rw passed (Reads-map _ (Reads-columns cb.nrows cb.cols h.short h.columns))

  length-columns :
      (cs : List CompressedCol) → cs ≢ [] → 3 ≤ length (concat (write_col bytes_of text_of) cs)
  unfolding concat write_col le
  length-columns [] n = absurd (n refl)
  length-columns (c ∷ cs) n = omega arith

  length-serialize :
      (cb : CompressedBatch)
      → length (compressed_batch_serialize bytes_of text_of cb)
        ≡ 13 + length (concat (write_col bytes_of text_of) cb.cols)
  unfolding compressed_batch_serialize le
  length-serialize cb = omega arith

  long_enough :
      (cb : CompressedBatch)
      → cb.cols ≢ []
      → ltb (length (compressed_batch_serialize bytes_of text_of cb)) 14 ≡ false
  long_enough cb n = ground (arith, length-serialize cb, length-columns cb.cols n)

  Reads-batch :
      (cb : CompressedBatch)
      → IsBatch cb
      → Reads
          (read_batch bytes_of text_of)
          (compressed_batch_serialize bytes_of text_of cb)
          (some (bare cb))
  unfolding read_batch compressed_batch_serialize
  Reads-batch cb h = Reads-bind _ (Reads-raw magic) (
      Reads-bind _ (Reads-le 1 1 (omega arith)) (
        Reads-bind _ (Reads-le 4 (length cb.cols) (omega (arith, h.few)))
          (Reads-bind _ (Reads-le 4 cb.nrows (omega (arith, h.short))) (Reads-checked cb h))))

  -- What is serialised is read as it was: for a batch with a column, of at most 2048 columns and
  -- fewer than 2 ^ 28 rows, whose columns fit the format, and with texts that their bytes give back.
  -- The schema and the sizes are not kept, and a null text of a plain column becomes an empty one.
  pub compressed_batch_deserialize-compressed_batch_serialize :
      (cb : CompressedBatch)
      → IsBatch cb
      → cb.cols ≢ []
      → compressed_batch_deserialize bytes_of text_of
          (compressed_batch_serialize bytes_of text_of cb)
        ≡ some (some (bare cb), [])
  unfolding compressed_batch_deserialize
  compressed_batch_deserialize-compressed_batch_serialize cb h n =
      let bs = compressed_batch_serialize bytes_of text_of cb in
      rw (long_enough cb n)
        (ap (read_batch bytes_of text_of) (sym (append_nil bs)) ∙ (Reads-batch cb h).run [])

  -- A batch without columns is written in 13 bytes, which the reader refuses as too few.
  pub compressed_batch_deserialize-no_columns :
      (cb : CompressedBatch)
      → cb.cols ≡ []
      → (r : List ℕ) × (compressed_batch_deserialize bytes_of text_of
            (compressed_batch_serialize bytes_of text_of cb)
          ≡ some (none, r))
  unfolding compressed_batch_deserialize concat
  compressed_batch_deserialize-no_columns cb e =
      let bs = compressed_batch_serialize bytes_of text_of cb in
      let size : length bs ≡ 13 = rw (length-serialize cb, e) refl in (bs, rw size refl)
