-- ===== src/Storage/Compress/Choose/Laws.antt =====
-- What `compress_choose_encoding` of lib/storage/compress.c can answer.
use napastak.Base.{
  ℕ, zero, suc, ◌≤◌, ◌≡◌, ◌≢◌, List, [], ◌∷◌, String, Option, ltb, if◌then◌else◌, arith, length,
  take, length-take, ◌+◌,
}
use napastak.Storage.Batch.{ColType, int64, text, Values, Bitmap, word_rows, string_rows}
use napastak.Storage.Compress.Sort.{insertion_sort}
use napastak.Storage.Compress.Sort.Order.{length-insertion_sort}
use napastak.Storage.Compress.Choose.{
  Encoding, dict, delta, non_null, changes, count_unique, sample_rows, choose_int, choose_text,
  choose_encoding,
}

length-non_null-le : (bm : Bitmap) (i : ℕ) (vs : List ℕ) → length (non_null bm i vs) ≤ length vs
unfolding non_null
length-non_null-le bm i [] = omega arith
length-non_null-le bm i (v ∷ vs) = ground (arith, length-non_null-le bm (i + 1) vs)

changes-le : (prev : ℕ) (xs : List ℕ) → changes prev xs ≤ length xs
unfolding changes
changes-le prev [] = omega arith
changes-le prev (x ∷ xs) = ground (arith, changes-le x xs)

count_unique-le : (xs : List ℕ) → count_unique xs ≤ length xs
unfolding count_unique
count_unique-le [] = omega arith
count_unique-le (x ∷ xs) = omega (arith, changes-le x xs)

abbrev pick : ℕ → Encoding → Encoding
pick uniq rest = if ltb uniq 256 then dict else if ltb uniq 65536 then dict else rest

pick_few : (uniq : ℕ) (rest : Encoding) → uniq ≤ 1000 → pick uniq rest ≡ dict
pick_few uniq rest h = ground arith

few_unique :
    (bm : Bitmap) (vs : List ℕ)
    → count_unique (insertion_sort (non_null bm 0 (take sample_rows vs))) ≤ 1000
few_unique bm vs =
    let sample : List ℕ = take sample_rows vs in
    let values : List ℕ = non_null bm 0 sample in
    omega (
      arith,
      count_unique-le (insertion_sort values),
      length-insertion_sort values,
      length-non_null-le bm 0 sample,
      length-take sample_rows vs,
    )

-- A sample of 1000 rows has fewer distinct values than the bound that the code compares them to.
choose_int-eq-dict : (bm : Bitmap) (vs : List ℕ) → choose_int bm vs ≡ dict
unfolding choose_int
choose_int-eq-dict bm vs = pick_few _ _ (few_unique bm vs)

choose_text-ne-delta : (vs : List (Option String)) → choose_text vs ≢ delta
unfolding choose_text
choose_text-ne-delta vs h = ground arith

-- An integer column that is not empty is always given the dictionary encoding, and no column of
-- any type is ever given the delta encoding.
pub choose_encoding-ne-delta :
    (vs : Values) (bm : Bitmap) (n : ℕ) (type : ColType)
    → (choose_encoding vs bm (suc n) int64 ≡ dict) × (choose_encoding vs bm n type ≢ delta)
unfolding choose_encoding
choose_encoding-ne-delta vs bm n type = (choose_int-eq-dict bm (word_rows vs), never n type)
  where
    never : (k : ℕ) (t : ColType) → choose_encoding vs bm k t ≢ delta
    never zero t h = cc
    never (suc k) int64 h = cc (choose_int-eq-dict bm (word_rows vs))
    never (suc k) text h = choose_text-ne-delta (string_rows vs) h
    never (suc k) _ h = cc
