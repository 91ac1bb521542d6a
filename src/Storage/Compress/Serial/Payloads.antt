-- ===== src/Storage/Compress/Serial/Payloads.antt =====
-- What `compressed_batch_deserialize` of lib/storage/compress.c reads of the data of a column.
use mathlib.Core.Path.{subst}
use napastak.Base.{
  ℕ, ◌*◌, ◌^◌, ◌-◌, ◌/◌, ◌%◌, ◌<◌, ◌≡◌, refl, sym, ap, String, true, false, Option, none, some,
  List, [], ◌∷◌, ◌++◌, map, arith, length, take_all, All, All-mono,
}
use napastak.Storage.Batch.{ColType, Values, words, strings}
use napastak.Storage.Compress.Column.{
  Payload, plain_values, rle_words, rle_texts, dict_words, dict_texts, delta_words,
}
use napastak.Storage.Compress.Serial.{
  pure, ◌>>=◌, le, read_le, read_below, raw, many, concat, enc_code, is_plain_word, is_word_type,
  write_text, write_pointer, read_text, write_plain, read_plain, write_payload, read_payload,
}
use napastak.Storage.Compress.Serial.Reading.{
  Reads, Reads-bind, Reads-map, Reads-le, Reads-below, Reads-raw, Reads-many, Reads-as, limit,
  IsRuns, Reads-runs,
}
use napastak.Storage.Compress.Serial.Columns.{
  Reads-numbers, IsDict, Reads-dict, IsDeltas, Reads-deltas,
}

abbrev pub IsWord8 : ℕ → Type 0
IsWord8 v = v < limit 8

-- A null text comes back as an empty one.
abbrev pub filled : Option String → String
filled none = ""
filled (some s) = s

abbrev pub filled_values : Values → Values
filled_values (words l) = words l
filled_values (strings l) = strings (map some (map filled l))

abbrev pub filled_payload : Payload → Payload
filled_payload (plain_values vs) = plain_values (filled_values vs)
filled_payload (rle_words r) = rle_words r
filled_payload (rle_texts r) = rle_texts r
filled_payload (dict_words d) = dict_words d
filled_payload (dict_texts d) = dict_texts d
filled_payload (delta_words d) = delta_words d

pub append_nil : (l : List ℕ) → l ++ [] ≡ l
append_nil [] = refl
append_nil (x ∷ l) = ap (λ t. x ∷ t) (append_nil l)

module _ (bytes_of : String → List ℕ) (text_of : List ℕ → String) where
  -- A text that fits the format, and that its bytes give back.
  abbrev pub IsText : String → Type 0
  IsText s = (length (bytes_of s) < 2 ^ 32 - 1) × (text_of (bytes_of s) ≡ s)

  Reads-text :
      (s : String) → IsText s → Reads (read_text bytes_of text_of) (write_text bytes_of text_of s) s
  unfolding read_text write_text
  Reads-text s (l, e) =
      subst
        (Reads (read_below (2 ^ 32 - 1) >>= (λ n. raw n >>= (λ t. pure (text_of t))))
          (le 4 (length (bytes_of s)) ++ bytes_of s))
        e
        (Reads-bind (λ n. raw n >>= (λ t. pure (text_of t)))
          (Reads-below (2 ^ 32 - 1) (length (bytes_of s)) l (omega (arith, l)))
          (Reads-map text_of (Reads-raw (bytes_of s))))

  Reads-pointer :
      (o : Option String)
      → IsText (filled o)
      → Reads (read_text bytes_of text_of) (write_pointer bytes_of text_of o) (filled o)
  Reads-pointer none h = Reads-text "" h
  Reads-pointer (some s) h = Reads-text s h

  -- The values are those of the type, and one for each row.
  abbrev pub IsPlain : ColType → ℕ → Values → Type 0
  IsPlain type nrows (words l) =
      (is_plain_word type ≡ true) × (nrows ≡ length l) × (nrows * 8 < limit 4) × All IsWord8 l
  IsPlain type nrows (strings l) =
      (is_plain_word type ≡ false) × (nrows ≡ length l) × All (λ o. IsText (filled o)) l

  Reads-words :
      (nrows : ℕ) (l : List ℕ)
      → nrows ≡ length l
      → nrows * 8 < limit 4
      → All IsWord8 l
      → Reads
          (read_le 4
            >>= (λ n. many (n / 8) (read_le 8) >>= (λ l. raw (n % 8) >>= (λ s. pure (words l)))))
          (le 4 (nrows * 8) ++ (concat (le 8) l ++ []))
          (words l)
  Reads-words nrows l e b h =
      Reads-bind (λ n. many (n / 8) (read_le 8) >>= (λ l. raw (n % 8) >>= (λ s. pure (words l))))
        (Reads-le 4 (nrows * 8) b)
        (Reads-bind (λ l. raw (nrows * 8 % 8) >>= (λ s. pure (words l)))
          (Reads-numbers 8 (nrows * 8 / 8) l (omega (arith, e)) h)
          (Reads-map (λ s. words l)
            (subst (λ k. Reads (raw k) [] []) (omega arith) (Reads-raw []))))

  write_words_all :
      (type : ColType) (nrows : ℕ) (l : List ℕ)
      → is_plain_word type ≡ true
      → nrows ≡ length l
      → le 4 (nrows * 8) ++ (concat (le 8) l ++ [])
        ≡ write_plain bytes_of text_of type nrows (words l)
  unfolding write_plain
  write_words_all type nrows l y e =
      rw (y, append_nil (concat (le 8) l), take_all nrows l (omega (arith, e))) refl

  write_texts_all :
      (type : ColType) (nrows : ℕ) (l : List (Option String))
      → is_plain_word type ≡ false
      → nrows ≡ length l
      → concat (write_pointer bytes_of text_of) l
        ≡ write_plain bytes_of text_of type nrows (strings l)
  unfolding write_plain
  write_texts_all type nrows l n e = rw (n, take_all nrows l (omega (arith, e))) refl

  Reads-plain :
      (type : ColType) (nrows : ℕ) (vs : Values)
      → IsPlain type nrows vs
      → Reads
          (read_plain bytes_of text_of type nrows)
          (write_plain bytes_of text_of type nrows vs)
          (filled_values vs)
  unfolding read_plain
  Reads-plain type nrows (words l) (y, e, b, h) =
      Reads-as (write_words_all type nrows l y e) (rw y (Reads-words nrows l e b h))
  Reads-plain type nrows (strings l) (n, e, h) = Reads-as (write_texts_all type nrows l n e) (
      rw n (
        Reads-map (λ t. strings (map some t))
          (subst
            (λ k.
              Reads (many k (read_text bytes_of text_of))
                (concat (write_pointer bytes_of text_of) l) (map filled l))
            (sym e)
            (Reads-many (read_text bytes_of text_of) (write_pointer bytes_of text_of) filled l (
              All-mono (λ o. IsText (filled o))
                (λ o.
                  Reads (read_text bytes_of text_of) (write_pointer bytes_of text_of o) (filled o))
                Reads-pointer l h)))))

  -- The data of a column of a type, with `nrows` rows, that fits the format.
  abbrev pub IsPayload : ColType → ℕ → Payload → Type 0
  IsPayload type nrows (plain_values vs) = IsPlain type nrows vs
  IsPayload type nrows (rle_words r) = (is_word_type type ≡ true) × IsRuns IsWord8 r
  IsPayload type nrows (rle_texts r) = (is_word_type type ≡ false) × IsRuns IsText r
  IsPayload type nrows (dict_words d) = (is_word_type type ≡ true) × IsDict IsWord8 nrows d
  IsPayload type nrows (dict_texts d) = (is_word_type type ≡ false) × IsDict IsText nrows d
  IsPayload type nrows (delta_words d) = IsDeltas nrows d

  pub Reads-payload :
      (type : ColType) (nrows : ℕ) (p : Payload)
      → IsPayload type nrows p
      → Reads
          (read_payload bytes_of text_of type nrows (enc_code p))
          (write_payload bytes_of text_of type nrows p)
          (filled_payload p)
  unfolding read_payload write_payload
  Reads-payload type nrows (plain_values vs) h =
      Reads-map plain_values (Reads-plain type nrows vs h)
  Reads-payload type nrows (rle_words r) (y, h) =
      rw y (Reads-map rle_words (Reads-runs (read_le 8) (le 8) IsWord8 (Reads-le 8) r h))
  Reads-payload type nrows (rle_texts r) (n, h) = rw n (
      Reads-map rle_texts (
        Reads-runs (read_text bytes_of text_of) (write_text bytes_of text_of) IsText Reads-text r
          h))
  Reads-payload type nrows (dict_words d) (y, h) =
      rw y (Reads-map dict_words (Reads-dict (read_le 8) (le 8) IsWord8 (Reads-le 8) nrows d h))
  Reads-payload type nrows (dict_texts d) (n, h) = rw n (
      Reads-map dict_texts (
        Reads-dict (read_text bytes_of text_of) (write_text bytes_of text_of) IsText Reads-text
          nrows d h))
  Reads-payload type nrows (delta_words d) h = Reads-map delta_words (Reads-deltas nrows d h)
