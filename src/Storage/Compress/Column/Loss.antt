-- ===== src/Storage/Compress/Column/Loss.antt =====
-- Runs past the bound of a `uint16_t` in lib/storage/compress.c.
use mathlib.Core.Option
use napastak.Base.{
  Option, ℕ, suc, ◌+◌, ◌*◌, some, arith, length-replicate, take, take_all, ◌≤◌, ◌≡◌, refl, none,
  List, [], ◌∷◌, replicate, ap, ◌∙◌, nat_eq,
}
use napastak.Storage.Batch.{bool, words, null_bit}
use napastak.Storage.Compress.Cells.{word_cells}
use napastak.Storage.Compress.Rle.{max_run, Runs, rle_encode}
use napastak.Storage.Compress.Rle.Roundtrip.{rle_encode_overrun}
use napastak.Storage.Compress.Choose.{choose_encoding}
use napastak.Storage.Compress.Column.{
  CompressedCol, rle_words, compress_col, decompress_col, rle_payload, payload_of,
  decompress_values,
}

word_cells-none : (i : ℕ) (vs : List ℕ) → word_cells none i vs ≡ vs
unfolding word_cells null_bit
word_cells-none i [] = refl
word_cells-none i (v ∷ vs) = ap (λ t. v ∷ t) (word_cells-none (i + 1) vs)

-- A Boolean column with the same value in each of more than 65535 rows, and of at most 131070, is
-- compressed, with the encoding that the code chooses for it, within the arrays that are allocated,
-- and loses all its rows past the first 65535.
pub decompress_col_loss :
    (v k : ℕ)
    → max_run ≤ k
    → suc k ≤ 2 * max_run
    → let vs = words (replicate (suc k) v) in
      (c : CompressedCol) × (compress_col vs none
          (suc k)
          bool
          (choose_encoding vs none (suc k) bool)
        ≡ some c)
      × ((decompress_col c).0 ≡ words (replicate max_run v))
unfolding decompress_col compress_col choose_encoding payload_of rle_payload decompress_values
decompress_col_loss v k h top =
    let l : List ℕ = replicate (suc k) v in
    let (r, made, one, two, back) = rle_encode_overrun v k h top in
    let all : take (suc k) l ≡ l = take_all (suc k) l (omega (arith, length-replicate (suc k) v)) in
    let encoded : rle_encode (word_cells none 0 (take (suc k) l)) ≡ some r =
      ap rle_encode (word_cells-none 0 (take (suc k) l) ∙ all) ∙ made in
    (
      record { col_type = bool; nrows = suc k; null_bitmap = none; payload = rle_words r },
      ap
          (λ (o : Option (Runs ℕ)).
            Option.map
              (λ p. record { col_type = bool; nrows = suc k; null_bitmap = none; payload = p })
              (Option.map rle_words o))
          encoded,
      ap words back,
    )
