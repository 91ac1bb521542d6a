-- ===== src/Storage/Compress/Serial.antt =====
-- The byte format "DCMB" of lib/storage/compress.c: `compressed_batch_serialize` and
-- `compressed_batch_deserialize`. A buffer is a list of bytes. The reader does not check how much is
-- left; a read past the end, a code that no enumeration has, and a product of `int`s that overflows
-- are `none` here.
pub mod Reading
pub mod Columns
pub mod Payloads
pub mod Roundtrip
pub mod Estimate
mod Tests
use napastak.Base.{
  ℕ, zero, suc, ◌+◌, ◌-◌, ◌*◌, ◌/◌, ◌%◌, ◌^◌, ◌≤◌, ◌<◌, String, Bool, true, false, not, ◌&&◌, ◌||◌,
  Option, none, some, List, [], ◌∷◌, ◌++◌, map, ltb, leb, ◌==◌, if◌then◌else◌, length, take,
  replicate, same,
}
use napastak.Storage.Batch.{
  ColType, int64, double, text, bool, null, decimal, date, timestamp, Values, words, strings,
  word_rows, string_rows, Bitmap, null_bm_bytes,
}
use napastak.Storage.Compress.Rle.{Runs}
use napastak.Storage.Compress.Dict.{Dict}
use napastak.Storage.Compress.Delta.{Deltas}
use napastak.Storage.Compress.Choose.{Encoding, plain, rle, dict, delta}
use napastak.Storage.Compress.Column.{
  Payload, plain_values, rle_words, rle_texts, dict_words, dict_texts, delta_words, CompressedCol,
  CompressedBatch,
}

abbrev pub max_cols : ℕ
max_cols = 2048

-- `w8`, `w16`, `w32` and `w64`: the lowest `k` bytes of a number, the lowest first.
unfoldable pub le : ℕ → ℕ → List ℕ
le zero v = []
le (suc k) v = (v % 256) ∷ le k (v / 256)

abbrev pub Reader : Type 0 → Type 0
Reader A = List ℕ → Option (A × List ℕ)

unfoldable pub pure : {A : Type 0} → A → Reader A
pure a bs = some (a, bs)

abbrev pub bound : {A B : Type 0} → (A → Reader B) → Option (A × List ℕ) → Option (B × List ℕ)
bound f none = none
bound f (some (a, rest)) = f a rest

infixl 20 ◌>>=◌
unfoldable pub ◌>>=◌ : {A B : Type 0} → Reader A → (A → Reader B) → Reader B
(r >>= f) bs = bound f (r bs)

-- `r8`, `r16`, `r32` and `r64`.
unfoldable pub read_le : ℕ → Reader ℕ
read_le zero bs = some (0, bs)
read_le (suc k) [] = none
read_le (suc k) (b ∷ bs) = bound (λ v rest. some (b + 256 * v, rest)) (read_le k bs)

-- `memcpy` of `n` bytes.
unfoldable pub raw : ℕ → Reader (List ℕ)
raw zero bs = some ([], bs)
raw (suc n) [] = none
raw (suc n) (b ∷ bs) = bound (λ s rest. some (b ∷ s, rest)) (raw n bs)

-- `r32` with a bound: a number of runs or values is an `int`, and a negative one asks the arena for
-- more than there is; the length of a text has one added to it as a `uint32_t`.
unfoldable pub read_below : ℕ → Reader ℕ
unfolding pure ◌>>=◌ read_le
read_below k = read_le 4 >>= (λ n. if ltb n k then pure n else (λ bs. none))

unfoldable pub many : {A : Type 0} → ℕ → Reader A → Reader (List A)
unfolding pure ◌>>=◌
many zero r = pure []
many (suc n) r = r >>= (λ a. many n r >>= (λ l. pure (a ∷ l)))

unfoldable pub concat : {A : Type 0} → (A → List ℕ) → List A → List ℕ
concat w [] = []
concat w (a ∷ l) = w a ++ concat w l

abbrev pub type_code : ColType → ℕ
type_code int64 = 0
type_code double = 1
type_code text = 2
type_code bool = 3
type_code null = 4
type_code decimal = 5
type_code date = 6
type_code timestamp = 7

unfoldable pub type_of : ℕ → Reader ColType
unfolding pure
type_of n =
    if n == 0
    then pure int64
    else if n == 1
    then pure double
    else if n == 2
    then pure text
    else if n == 3
    then pure bool
    else if n == 4
    then pure null
    else if n == 5
    then pure decimal
    else if n == 6
    then pure date
    else if n == 7
    then pure timestamp
    else (λ bs. none)

-- `enc` of a column, and its code.
abbrev pub enc_code : Payload → ℕ
enc_code (plain_values vs) = 0
enc_code (rle_words r) = 1
enc_code (rle_texts r) = 1
enc_code (dict_words d) = 2
enc_code (dict_texts d) = 2
enc_code (delta_words d) = 3

-- The types whose plain values are words, and those whose runs and dictionaries are.
abbrev pub is_plain_word : ColType → Bool
is_plain_word int64 = true
is_plain_word bool = true
is_plain_word double = true
is_plain_word _ = false

abbrev pub is_word_type : ColType → Bool
is_word_type int64 = true
is_word_type bool = true
is_word_type _ = false

abbrev pub flag : Bool → ℕ
flag true = 1
flag false = 0

abbrev pub write_run : {A : Type 0} → (A → List ℕ) → ℕ × A → List ℕ
write_run w (n, a) = le 2 n ++ w a

abbrev pub read_run : {A : Type 0} → Reader A → Reader (ℕ × A)
read_run r = read_le 2 >>= (λ n. r >>= (λ a. pure (n, a)))

unfoldable pub write_runs : {A : Type 0} → (A → List ℕ) → Runs A → List ℕ
unfolding le concat
write_runs w r = le 4 r.nruns ++ concat (write_run w) (take r.nruns r.runs)

unfoldable pub read_runs : {A : Type 0} → Reader A → Reader (Runs A)
unfolding pure ◌>>=◌ read_below read_le many
read_runs r =
    read_below (2 ^ 31)
    >>= (λ n. many n (read_run r) >>= (λ l. pure (record { nruns = n; runs = l })))

abbrev pub code_size : Bool → ℕ
code_size true = 1
code_size false = 2

unfoldable pub write_dict : {A : Type 0} → (A → List ℕ) → ℕ → Dict A → List ℕ
unfolding le concat
write_dict w nrows d =
    le 4 (length d.values)
    ++ (le 1 (flag d.is_u8)
        ++ (concat w d.values ++ concat (le (code_size d.is_u8)) (take nrows d.codes)))

-- `p += nrows * 2` is a product of `int`s.
unfoldable pub read_codes : Bool → ℕ → Reader (List ℕ)
unfolding read_le many
read_codes is_u8 nrows =
    if not is_u8 && leb (2 ^ 30) nrows then (λ bs. none) else many nrows (read_le (code_size is_u8))

unfoldable pub read_dict : {A : Type 0} → Reader A → ℕ → Reader (Dict A)
unfolding pure ◌>>=◌ read_below read_le many read_codes
read_dict r nrows = read_below (2 ^ 31) >>= (λ n. read_le 1 >>= (λ u. many n r >>= (λ vs.
    read_codes (not (u == 0)) nrows
    >>= (λ cs. pure (record { values = vs; is_u8 = not (u == 0); codes = cs })))))

unfoldable pub write_deltas : ℕ → Deltas → List ℕ
unfolding le concat
write_deltas nrows d =
    le 8 d.base_value ++ (elim d.deltas [ none ↦ [] | some l ↦ concat (le 4) (take nrows l) ])

unfoldable pub read_deltas : ℕ → Reader Deltas
unfolding pure ◌>>=◌ read_le many
read_deltas nrows =
    read_le 8
    >>= (λ b. many nrows (read_le 4) >>= (λ l. pure (record { base_value = b; deltas = some l })))

abbrev pub has_nulls : Bitmap → ℕ
has_nulls none = 0
has_nulls (some bm) = 1

unfoldable pub write_bitmap : ℕ → Bitmap → List ℕ
unfolding le null_bm_bytes
write_bitmap nrows none = []
write_bitmap nrows (some bm) = le 4 (null_bm_bytes nrows) ++ take (null_bm_bytes nrows) bm

unfoldable pub read_bitmap : ℕ → Reader Bitmap
unfolding pure ◌>>=◌ read_le raw
read_bitmap n = if n == 0 then pure none else read_le 4 >>= (λ k. raw k >>= (λ bm. pure (some bm)))

abbrev pub magic : List ℕ
magic = b'D' ∷ b'C' ∷ b'M' ∷ b'B' ∷ []

-- A column that `arena_calloc` left as it was.
abbrev pub zero_col : CompressedCol
zero_col = record {
  col_type = int64;
  nrows = 0;
  null_bitmap = none;
  payload = plain_values (words []);
}

-- `bytes_of` is the text behind a `char *`, without its closing zero, and `text_of` the copy of such.
module _ (bytes_of : String → List ℕ) (text_of : List ℕ → String) where
  unfoldable pub write_text : String → List ℕ
  unfolding le
  write_text s = le 4 (length (bytes_of s)) ++ bytes_of s

  -- A null pointer is written as an empty text.
  abbrev pub write_pointer : Option String → List ℕ
  write_pointer none = write_text ""
  write_pointer (some s) = write_text s

  unfoldable pub read_text : Reader String
  unfolding pure ◌>>=◌ read_below raw
  read_text = read_below (2 ^ 32 - 1) >>= (λ n. raw n >>= (λ s. pure (text_of s)))

  unfoldable pub write_plain : ColType → ℕ → Values → List ℕ
  unfolding le concat
  write_plain type nrows vs =
      if is_plain_word type
      then le 4 (nrows * 8) ++ concat (le 8) (take nrows (word_rows vs))
      else concat write_pointer (take nrows (string_rows vs))

  -- Bytes that make no whole word are passed over.
  unfoldable pub read_plain : ColType → ℕ → Reader Values
  unfolding pure ◌>>=◌ read_le many raw read_text
  read_plain type nrows =
      if is_plain_word type
      then read_le 4
        >>= (λ n. many (n / 8) (read_le 8) >>= (λ l. raw (n % 8) >>= (λ s. pure (words l))))
      else many nrows read_text >>= (λ l. pure (strings (map some l)))

  unfoldable pub write_payload : ColType → ℕ → Payload → List ℕ
  unfolding write_plain write_runs write_dict write_deltas
  write_payload type nrows (plain_values vs) = write_plain type nrows vs
  write_payload type nrows (rle_words r) = write_runs (le 8) r
  write_payload type nrows (rle_texts r) = write_runs write_text r
  write_payload type nrows (dict_words d) = write_dict (le 8) nrows d
  write_payload type nrows (dict_texts d) = write_dict write_text nrows d
  write_payload type nrows (delta_words d) = write_deltas nrows d

  unfoldable pub read_payload : ColType → ℕ → ℕ → Reader Payload
  unfolding pure ◌>>=◌ read_plain read_runs read_dict read_deltas read_text
  read_payload type nrows enc =
      if enc == 0
      then read_plain type nrows >>= (λ vs. pure (plain_values vs))
      else if enc == 1
      then (if is_word_type type
          then read_runs (read_le 8) >>= (λ r. pure (rle_words r))
          else read_runs read_text >>= (λ r. pure (rle_texts r)))
      else if enc == 2
      then (if is_word_type type
          then read_dict (read_le 8) nrows >>= (λ d. pure (dict_words d))
          else read_dict read_text nrows >>= (λ d. pure (dict_texts d)))
      else if enc == 3
      then read_deltas nrows >>= (λ d. pure (delta_words d))
      else (λ bs. none)

  unfoldable pub write_col : CompressedCol → List ℕ
  unfolding le write_bitmap write_payload
  write_col c =
      le 1 (type_code c.col_type)
      ++ (le 1 (enc_code c.payload)
          ++ (le 1 (has_nulls c.null_bitmap)
              ++ (write_bitmap c.nrows c.null_bitmap
                  ++ write_payload c.col_type c.nrows c.payload)))

  unfoldable pub read_col : ℕ → Reader CompressedCol
  unfolding pure ◌>>=◌ read_le type_of read_bitmap read_payload
  read_col nrows = read_le 1 >>= (λ t. type_of t >>= (λ type. read_le 1 >>= (λ enc.
      read_le 1 >>= (λ h. read_bitmap h >>= (λ bm. read_payload type nrows enc >>= (λ p.
        pure (record { col_type = type; nrows = nrows; null_bitmap = bm; payload = p })))))))

  unfoldable pub compressed_batch_serialize : CompressedBatch → List ℕ
  unfolding le concat write_col
  compressed_batch_serialize cb =
      magic ++ (le 1 1 ++ (le 4 (length cb.cols) ++ (le 4 cb.nrows ++ concat write_col cb.cols)))

  -- The columns, up to the end of the buffer.
  unfoldable pub read_cols : ℕ → ℕ → Reader (List CompressedCol)
  unfolding pure ◌>>=◌ read_col
  read_cols zero nrows bs = some ([], bs)
  read_cols (suc n) nrows [] = some (replicate (suc n) zero_col, [])
  read_cols (suc n) nrows (b ∷ bs) =
      bound (λ c. read_cols n nrows >>= (λ cs. pure (c ∷ cs))) (read_col nrows (b ∷ bs))

  -- A pointer that may be null, after a check of the counts as `int`s.
  unfoldable pub read_checked : ℕ → ℕ → Reader (Option CompressedBatch)
  unfolding pure ◌>>=◌ read_cols
  read_checked ncols nrows =
      if ltb max_cols ncols || leb (2 ^ 31) nrows
      then pure none
      else read_cols ncols nrows >>= (λ cs. pure (
          some (record {
            schema = none;
            nrows = nrows;
            cols = cs;
            original_bytes = 0;
            compressed_bytes = 0;
          })))

  -- From the magic bytes on; the version is read and not looked at.
  unfoldable pub read_batch : Reader (Option CompressedBatch)
  unfolding pure ◌>>=◌ raw read_le read_checked
  read_batch = raw 4 >>= (λ m.
      if same m magic
      then read_le 1
        >>= (λ v. read_le 4 >>= (λ ncols. read_le 4 >>= (λ nrows. read_checked ncols nrows)))
      else pure none)

  unfoldable pub compressed_batch_deserialize : Reader (Option CompressedBatch)
  unfolding read_batch
  compressed_batch_deserialize bs = if ltb (length bs) 14 then some (none, bs) else read_batch bs
