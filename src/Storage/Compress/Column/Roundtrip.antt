-- ===== src/Storage/Compress/Column/Roundtrip.antt =====
-- A column of lib/storage/compress.c that was compressed is decompressed to what it was.
use mathlib.Core.Option
use napastak.Base.{
  ℕ, ◌+◌, ◌^◌, some, take_all, length-take, Eq, string_eq, ◌≤◌, ◌<◌, ◌≡◌, refl, String, false,
  Option, none, List, arith, length, get_or, get_elem?, All, Option-cases, inl, inr,
  get_elem?-eq-get_or, ap, ap₂, ◌∙◌, sym, nat_eq,
}
use napastak.Storage.Batch.{
  ColType, int64, text, bool, Values, words, strings, word_rows, string_rows, rows, Bitmap,
  null_bit, IsWord,
}
use napastak.Storage.Compress.Cells.{
  word_cells, text_cells, length-word_cells, length-text_cells, or_empty,
}
use napastak.Storage.Compress.Rle.{max_run, Runs, rle_encode}
use napastak.Storage.Compress.Rle.Roundtrip.{rle_decode-rle_encode}
use napastak.Storage.Compress.Dict.{int_cells, dict_int, dict_text, dict_decode}
use napastak.Storage.Compress.Dict.Roundtrip.{dict_decode-dict_int, dict_decode-dict_text}
use napastak.Storage.Compress.Delta.{delta_encode, delta_decode}
use napastak.Storage.Compress.Delta.Roundtrip.{masked}
use napastak.Storage.Compress.Choose.{Encoding, plain, rle, dict, delta}
use napastak.Storage.Compress.Column.{
  CompressedCol, rle_payload, dict_payload, payload_of, compress_col, decompress_values,
  decompress_col, copy_bitmap, or_plain, Payload, plain_values, rle_words, rle_texts, first_rows,
  dict_words, delta_words,
}
use napastak.Storage.Compress.Column.Rows.{
  HasType, cell, word_cell, string_cell, string, get_elem?-word_cells, get_elem?-text_cells,
  int_cells-IsWord, get_elem?-int_cells, get_elem?-masked, string_cell-map-some,
  null_bit-copy_bitmap, delta_decode-copy_bitmap,
}

module _ (bm : Bitmap) (i : ℕ) (present : null_bit bm i ≡ false) where
  module _ (vs : List ℕ) (c : CompressedCol) (fits : All IsWord vs) (inside : i < length vs) where
    rle_words_cell :
        length vs ≤ max_run
        → (p : Payload) × (Option.map rle_words (rle_encode (word_cells bm 0 vs)) ≡ some p)
          × (cell (decompress_values c p) i ≡ cell (words vs) i)
    unfolding decompress_values
    rle_words_cell few =
        let (r, made, even, back) =
          rle_decode-rle_encode (word_cells bm 0 vs) (omega (arith, length-word_cells bm 0 vs)) in
        (
          rle_words r,
          rw made refl,
          rw back (ap word_cell (get_elem?-word_cells bm i vs present inside)),
        )

    dict_words_cell :
        cell (decompress_values c (or_plain (words vs) dict_words (dict_int (int_cells bm 0 vs)))) i
        ≡ cell (words vs) i
    unfolding decompress_values
    dict_words_cell = elim (Option-cases (dict_int (int_cells bm 0 vs))) [
      | inl failed ↦ rw failed refl
      | inr (d, made) ↦ rw made (
          ap word_cell (
            dict_decode-dict_int (int_cells bm 0 vs) d i (get_or vs i 0)
              (int_cells-IsWord bm 0 vs fits) made
              (get_elem?-int_cells bm 0 i i vs (omega arith) inside present)
            ∙ sym (get_elem?-eq-get_or vs i 0 inside)))
    ]

    delta_words_cell :
        length vs ≤ max_run
        → c.null_bitmap ≡ copy_bitmap (length vs) bm
        → c.nrows ≡ length vs
        → cell (decompress_values c (or_plain (words vs) delta_words (delta_encode bm vs))) i
          ≡ cell (words vs) i
    unfolding decompress_values
    delta_words_cell few b n = elim (Option-cases (delta_encode bm vs)) [
      | inl failed ↦ rw failed refl
      | inr (d, made) ↦
          let decoded : delta_decode c.null_bitmap c.nrows d ≡ masked bm 0 vs =
            ap₂ (λ (x : Bitmap) (m : ℕ). delta_decode x m d) b n
            ∙ delta_decode-copy_bitmap bm vs d (omega (arith, few)) fits made in
          rw made (
            ap (λ (t : List ℕ). word_cell (get_elem? t i)) decoded
            ∙ ap word_cell (get_elem?-masked bm 0 i i vs (omega arith) present))
    ]

  module _ (vs : List (Option String)) (inside : i < length vs) where
    string_here : string_cell (get_elem? vs i) ≡ string (or_empty (get_or vs i none))
    string_here = ap string_cell (get_elem?-eq-get_or vs i none inside)

    rle_texts_cell :
        (c : CompressedCol)
        → length vs ≤ max_run
        → (p : Payload) × (Option.map rle_texts (rle_encode (text_cells bm 0 vs)) ≡ some p)
          × (cell (decompress_values c p) i ≡ cell (strings vs) i)
    unfolding decompress_values
    rle_texts_cell c few =
        let (r, made, even, back) =
          rle_decode-rle_encode (text_cells bm 0 vs) (omega (arith, length-text_cells bm 0 vs)) in
        (
          rle_texts r,
          rw made refl,
          rw back (
              string_cell-map-some (text_cells bm 0 vs) i _
                (get_elem?-text_cells bm i vs present inside)
              ∙ sym string_here),
        )

    dict_texts_cell :
        (c : CompressedCol)
        → cell (decompress_values c (dict_payload text (strings vs) bm)) i ≡ cell (strings vs) i
    unfolding dict_payload decompress_values
    dict_texts_cell c = elim (Option-cases (dict_text (text_cells bm 0 vs))) [
      | inl failed ↦ rw failed refl
      | inr (d, made) ↦ rw made (
          string_cell-map-some (dict_decode "" d) i _ (
            dict_decode-dict_text (text_cells bm 0 vs) d i _ made
              (get_elem?-text_cells bm i vs present inside))
          ∙ sym string_here)
    ]

  abbrev Encodes : Option Payload → CompressedCol → Values → Type 0
  Encodes o c vs = (p : Payload) × (o ≡ some p) × (cell (decompress_values c p) i ≡ cell vs i)

  payload_cell :
      (vs : Values) (type : ColType) (enc : Encoding) (c : CompressedCol)
      → HasType type vs
      → rows vs ≤ max_run
      → i < rows vs
      → c.null_bitmap ≡ copy_bitmap (rows vs) bm
      → c.nrows ≡ rows vs
      → Encodes (payload_of enc type vs bm) c vs
  unfolding payload_of rle_payload decompress_values
  payload_cell vs type plain c t few inside b n = (_, refl, refl)
  payload_cell (words vs) int64 rle c t few inside b n = rle_words_cell vs c t inside few
  payload_cell (words vs) bool rle c t few inside b n = rle_words_cell vs c t inside few
  payload_cell (strings vs) text rle c t few inside b n = rle_texts_cell vs inside c few
  payload_cell (words vs) int64 dict c t few inside b n = (_, refl, dict_words_cell vs c t inside)
  payload_cell (words vs) bool dict c t few inside b n = (_, refl, dict_words_cell vs c t inside)
  payload_cell (strings vs) text dict c t few inside b n = (_, refl, dict_texts_cell vs inside c)
  payload_cell (words vs) int64 delta c t few inside b n =
      (_, refl, delta_words_cell vs c t inside few b n)
  payload_cell (strings vs) int64 e c t few inside b n = absurd t
  payload_cell (strings vs) bool e c t few inside b n = absurd t
  payload_cell (words vs) text e c t few inside b n = absurd t
  payload_cell vs _ rle c t few inside b n = (_, refl, refl)
  payload_cell vs _ dict c t few inside b n = (_, refl, refl)
  payload_cell vs _ delta c t few inside b n = (_, refl, refl)

first_rows_few : (n : ℕ) (vs : Values) → rows (first_rows n vs) ≤ n
first_rows_few n (words l) = omega (arith, length-take n l)
first_rows_few n (strings l) = omega (arith, length-take n l)

word_rows_few : (vs : Values) → length (word_rows vs) ≤ rows vs
word_rows_few (words l) = omega arith
word_rows_few (strings l) = omega arith

string_rows_few : (vs : Values) → length (string_rows vs) ≤ rows vs
string_rows_few (words l) = omega arith
string_rows_few (strings l) = omega arith

rle_some :
    {A : Type 0} ⦃e : Eq A⦄ (f : Runs A → Payload) (xs : List A)
    → length xs ≤ max_run
    → (p : Payload) × (Option.map f (rle_encode xs) ≡ some p)
rle_some f xs few = let (r, made, even, back) = rle_decode-rle_encode xs few in (f r, rw made refl)

payload_of-some :
    (enc : Encoding) (type : ColType) (vs : Values) (bm : Bitmap)
    → rows vs ≤ max_run
    → (p : Payload) × (payload_of enc type vs bm ≡ some p)
unfolding payload_of rle_payload
payload_of-some plain type vs bm few = (_, refl)
payload_of-some dict type vs bm few = (_, refl)
payload_of-some delta type vs bm few = (_, refl)
payload_of-some rle int64 vs bm few =
    rle_some rle_words (word_cells bm 0 (word_rows vs))
      (omega (arith, length-word_cells bm 0 (word_rows vs), word_rows_few vs))
payload_of-some rle bool vs bm few =
    rle_some rle_words (word_cells bm 0 (word_rows vs))
      (omega (arith, length-word_cells bm 0 (word_rows vs), word_rows_few vs))
payload_of-some rle text vs bm few =
    rle_some rle_texts (text_cells bm 0 (string_rows vs))
      (omega (arith, length-text_cells bm 0 (string_rows vs), string_rows_few vs))
payload_of-some rle _ vs bm few = (_, refl)

-- No column of at most 65535 rows is written past the arrays that are allocated for it.
pub compress_col-some :
    (vs : Values) (bm : Bitmap) (nrows : ℕ) (type : ColType) (enc : Encoding)
    → nrows ≤ max_run
    → (c : CompressedCol) × (compress_col vs bm nrows type enc ≡ some c)
unfolding compress_col
compress_col-some vs bm nrows type enc few =
    let (p, made) =
      payload_of-some enc type (first_rows nrows vs) bm (omega (arith, first_rows_few nrows vs)) in
    (
      record { col_type = type; nrows = nrows; null_bitmap = copy_bitmap nrows bm; payload = p },
      rw made refl,
    )

first_rows_all : (vs : Values) → first_rows (rows vs) vs ≡ vs
first_rows_all (words l) = ap words (take_all (length l) l (omega arith))
first_rows_all (strings l) = ap strings (take_all (length l) l (omega arith))

-- Whatever the encoding asked for, and whether or not it fell back to plain values, a column of at
-- most 65535 rows, with values of its type, is compressed within the arrays that are allocated, and a
-- row of it that is not null is decompressed to the value that was compressed (a null text pointer
-- to the empty text), and is still not null.
pub decompress_col-compress_col :
    (vs : Values) (bm : Bitmap) (type : ColType) (enc : Encoding) (i : ℕ)
    → HasType type vs
    → rows vs ≤ max_run
    → i < rows vs
    → null_bit bm i ≡ false
    → (c : CompressedCol) × (compress_col vs bm (rows vs) type enc ≡ some c)
      × (let (out, bm') = decompress_col c in (cell out i ≡ cell vs i) × (null_bit bm' i ≡ false))
unfolding decompress_col compress_col decompress_values
decompress_col-compress_col vs bm type enc i t few inside present =
    let (p, made, same) =
      payload_cell bm i present vs type enc
        (record {
          col_type = type;
          nrows = rows vs;
          null_bitmap = copy_bitmap (rows vs) bm;
          payload = plain_values vs;
        })
        t few inside refl refl in
    let small : rows vs + 7 < 2 ^ 31 = omega (arith, few) in
    (
      record {
        col_type = type;
        nrows = rows vs;
        null_bitmap = copy_bitmap (rows vs) bm;
        payload = p;
      },
      rw (first_rows_all vs, made) refl,
      (
        same,
        null_bit-copy_bitmap (copy_bitmap (rows vs) bm) (rows vs) i small inside
            ∙ null_bit-copy_bitmap bm (rows vs) i small inside
            ∙ present,
      ),
    )
