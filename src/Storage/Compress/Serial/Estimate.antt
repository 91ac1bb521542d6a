-- ===== src/Storage/Compress/Serial/Estimate.antt =====
-- `ser_estimate` of lib/storage/compress.c, and what `compressed_batch_serialize` writes.
use native.Mathlib.Numerals.{unary_clauses}
use napastak.Base.{
  ℕ, zero, suc, ◌+◌, ◌*◌, ◌/◌, ◌≤◌, ◌<◌, ◌≡◌, refl, ap, String, Bool, true, false, Option, none,
  some, List, [], ◌∷◌, ◌++◌, arith, length, length-append, length-take, take, if◌then◌else◌,
  Bool-cases, inl, inr, All, ◌^◌,
}
use napastak.Storage.Batch.{ColType, Values, word_rows, string_rows, Bitmap, null_bm_bytes}
use napastak.Storage.Compress.Dict.{Dict}
use napastak.Storage.Compress.Delta.{Deltas}
use napastak.Storage.Compress.Column.{
  Payload, plain_values, rle_words, rle_texts, dict_words, dict_texts, delta_words, CompressedCol,
  CompressedBatch,
}
use napastak.Storage.Compress.Serial.{
  le, concat, is_plain_word, code_size, flag, write_run, write_runs, write_dict, write_deltas,
  write_text, write_pointer, write_plain, write_payload, write_bitmap, write_col,
  compressed_batch_serialize,
}

unfoldable pub total : {A : Type 0} → (A → ℕ) → List A → ℕ
total f [] = 0
total f (a ∷ l) = f a + total f l

length-le : (k v : ℕ) → length (le k v) ≡ k
unfolding le
length-le zero v = refl
length-le (suc k) v = ap suc (length-le k (v / 256))

length-concat :
    {A : Type 0} (w : A → List ℕ) (f : A → ℕ)
    → ((a : A) → length (w a) ≤ f a)
    → (l : List A) → length (concat w l) ≤ total f l
unfolding concat total
length-concat w f h [] = omega arith
length-concat w f h (a ∷ l) =
    omega (arith, length-append {0} (w a) (concat w l), h a, length-concat w f h l)

length-numbers : (k : ℕ) (l : List ℕ) → length (concat (le k) l) ≡ k * length l
unfolding concat
length-numbers k [] = omega arith
length-numbers k (v ∷ l) =
    let step : k * suc (length l) ≡ k * length l + k = simp unary_clauses (omega arith) in
    omega
      (arith, length-append {0} (le k v) (concat (le k) l), length-le k v, length-numbers k l, step)

length-taken : {A : Type 0} (n : ℕ) (l : List A) → length (take n l) ≤ n
length-taken n l = omega (arith, length-take n l)

length-codes :
    (b : Bool) (nrows : ℕ) (l : List ℕ)
    → length (concat (le (code_size b)) (take nrows l)) ≤ nrows * code_size b
length-codes true nrows l = omega (arith, length-numbers 1 (take nrows l), length-taken nrows l)
length-codes false nrows l = omega (arith, length-numbers 2 (take nrows l), length-taken nrows l)

length-runs : (l : List (ℕ × ℕ)) → length (concat (write_run (le 8)) l) ≡ 10 * length l
unfolding concat
length-runs [] = refl
length-runs ((n, v) ∷ l) = omega (
  arith,
  length-append {0} (le 2 n ++ le 8 v) (concat (write_run (le 8)) l),
  length-append {0} (le 2 n) (le 8 v),
  length-le 2 n,
  length-le 8 v,
  length-runs l,
)

unfoldable pub bitmap_estimate : ℕ → Bitmap → ℕ
unfolding null_bm_bytes
bitmap_estimate nrows none = 0
bitmap_estimate nrows (some bm) = 4 + null_bm_bytes nrows

length-deltas :
    (nrows : ℕ) (o : Option (List ℕ))
    → length (elim o as (λ x. List ℕ) [ none ↦ [] | some l ↦ concat (le 4) (take nrows l) ])
      ≤ nrows * 4
length-deltas nrows none = omega arith
length-deltas nrows (some l) = omega (arith, length-numbers 4 (take nrows l), length-taken nrows l)

length-write_bitmap :
    (nrows : ℕ) (bm : Bitmap) → length (write_bitmap nrows bm) ≤ bitmap_estimate nrows bm
unfolding write_bitmap bitmap_estimate
length-write_bitmap nrows none = omega arith
length-write_bitmap nrows (some bm) =
    let n = null_bm_bytes nrows in
    omega (arith, length-append {0} (le 4 n) (take n bm), length-le 4 n, length-taken n bm)

-- `strlen` is the number of bytes of a text.
module _ (bytes_of : String → List ℕ) (text_of : List ℕ → String) where
  abbrev pub pointer_size : Option String → ℕ
  pointer_size none = 4
  pointer_size (some s) = 4 + length (bytes_of s)

  abbrev pub text_size : String → ℕ
  text_size s = 4 + length (bytes_of s)

  abbrev pub run_size : ℕ × String → ℕ
  run_size (n, s) = 2 + 4 + length (bytes_of s)

  unfoldable pub payload_estimate : ColType → ℕ → Payload → ℕ
  unfolding total
  payload_estimate type nrows (plain_values vs) =
      if is_plain_word type then 4 + nrows * 8 else total pointer_size (take nrows (string_rows vs))
  payload_estimate type nrows (rle_words r) = 4 + r.nruns * (2 + 8)
  payload_estimate type nrows (rle_texts r) = 4 + total run_size (take r.nruns r.runs)
  payload_estimate type nrows (dict_words d) =
      4 + 1 + length d.values * 8 + nrows * code_size d.is_u8
  payload_estimate type nrows (dict_texts d) =
      4 + 1 + total text_size d.values + nrows * code_size d.is_u8
  payload_estimate type nrows (delta_words d) = 8 + nrows * 4

  abbrev pub col_estimate : CompressedCol → ℕ
  col_estimate c =
      3 + bitmap_estimate c.nrows c.null_bitmap + payload_estimate c.col_type c.nrows c.payload

  unfoldable pub ser_estimate : CompressedBatch → ℕ
  unfolding bitmap_estimate payload_estimate total
  ser_estimate cb = 14 + total col_estimate cb.cols + 64

  length-write_text : (s : String) → length (write_text bytes_of text_of s) ≡ text_size s
  unfolding write_text
  length-write_text s = omega (
    arith,
    length-append {0} (le 4 (length (bytes_of s))) (bytes_of s),
    length-le 4 (length (bytes_of s)),
  )

  length-write_pointer :
      bytes_of "" ≡ []
      → (o : Option String) → length (write_pointer bytes_of text_of o) ≤ pointer_size o
  length-write_pointer e none = omega (arith, length-write_text "", ap length e)
  length-write_pointer e (some s) = omega (arith, length-write_text s)

  length-write_plain :
      bytes_of "" ≡ []
      → (type : ColType) (nrows : ℕ) (vs : Values)
      → length (write_plain bytes_of text_of type nrows vs)
        ≤ payload_estimate type nrows (plain_values vs)
  unfolding write_plain payload_estimate
  length-write_plain e type nrows vs = elim (Bool-cases (is_plain_word type)) [
    | inl y ↦
        let l = take nrows (word_rows vs) in
        rw y (
          omega (
            arith,
            length-append {0} (le 4 (nrows * 8)) (concat (le 8) l),
            length-le 4 (nrows * 8),
            length-numbers 8 l,
            length-taken nrows (word_rows vs),
          ))
    | inr n ↦ rw n (
        length-concat (write_pointer bytes_of text_of) pointer_size (length-write_pointer e)
          (take nrows (string_rows vs)))
  ]

  length-write_run :
      (p : ℕ × String) → length (write_run (write_text bytes_of text_of) p) ≤ run_size p
  length-write_run (n, s) = omega (
    arith,
    length-append {0} (le 2 n) (write_text bytes_of text_of s),
    length-le 2 n,
    length-write_text s,
  )

  length-write_dict :
      {A : Type 0} (w : A → List ℕ) (k nrows : ℕ) (d : Dict A)
      → length (concat w d.values) ≤ k
      → length (write_dict w nrows d) ≤ 4 + 1 + k + nrows * code_size d.is_u8
  unfolding write_dict
  length-write_dict w k nrows d h =
      let codes = concat (le (code_size d.is_u8)) (take nrows d.codes) in
      omega (
        arith,
        h,
        length-append {0} (le 4 (length d.values))
            (le 1 (flag d.is_u8) ++ (concat w d.values ++ codes)),
        length-append {0} (le 1 (flag d.is_u8)) (concat w d.values ++ codes),
        length-append {0} (concat w d.values) codes,
        length-le 4 (length d.values),
        length-le 1 (flag d.is_u8),
        length-codes d.is_u8 nrows d.codes,
      )

  length-write_deltas : (nrows : ℕ) (d : Deltas) → length (write_deltas nrows d) ≤ 8 + nrows * 4
  unfolding write_deltas
  length-write_deltas nrows d = omega (arith, length-deltas nrows d.deltas)

  length-write_payload :
      bytes_of "" ≡ []
      → (type : ColType) (nrows : ℕ) (p : Payload)
      → length (write_payload bytes_of text_of type nrows p) ≤ payload_estimate type nrows p
  unfolding write_payload payload_estimate write_runs
  length-write_payload e type nrows (plain_values vs) = length-write_plain e type nrows vs
  length-write_payload e type nrows (rle_words r) =
      let l = take r.nruns r.runs in
      omega (
        arith,
        length-append {0} (le 4 r.nruns) (concat (write_run (le 8)) l),
        length-le 4 r.nruns,
        length-runs l,
        length-taken r.nruns r.runs,
      )
  length-write_payload e type nrows (rle_texts r) =
      let l = take r.nruns r.runs in
      omega (
        arith,
        length-append {0} (le 4 r.nruns) (concat (write_run (write_text bytes_of text_of)) l),
        length-le 4 r.nruns,
        length-concat (write_run (write_text bytes_of text_of)) run_size length-write_run l,
      )
  length-write_payload e type nrows (dict_words d) =
      length-write_dict (le 8) (length d.values * 8) nrows d
        (omega (arith, length-numbers 8 d.values))
  length-write_payload e type nrows (dict_texts d) =
      length-write_dict (write_text bytes_of text_of) (total text_size d.values) nrows d (
        length-concat (write_text bytes_of text_of) text_size
          (λ s. omega (arith, length-write_text s)) d.values)
  length-write_payload e type nrows (delta_words d) = length-write_deltas nrows d

  length-write_col :
      bytes_of "" ≡ []
      → (c : CompressedCol) → length (write_col bytes_of text_of c) ≤ col_estimate c
  unfolding write_col le
  length-write_col e c =
      let bm = write_bitmap c.nrows c.null_bitmap in
      let data_bytes = write_payload bytes_of text_of c.col_type c.nrows c.payload in
      omega (
        arith,
        length-append {0} bm data_bytes,
        length-write_bitmap c.nrows c.null_bitmap,
        length-write_payload e c.col_type c.nrows c.payload,
      )

  -- Where the empty text has no bytes, a batch whose columns have fewer than 2 ^ 28 rows each is not
  -- written past the end of the buffer that is allocated for it; more than 64 bytes of it stay free.
  pub compressed_batch_serialize-ser_estimate :
      bytes_of "" ≡ []
      → (cb : CompressedBatch) → All (λ c. c.nrows < 2 ^ 28) cb.cols
      → length (compressed_batch_serialize bytes_of text_of cb) + 64 < ser_estimate cb
  unfolding compressed_batch_serialize ser_estimate le
  compressed_batch_serialize-ser_estimate e cb few =
      omega (
        arith,
        length-concat (write_col bytes_of text_of) col_estimate (length-write_col e) cb.cols,
      )
