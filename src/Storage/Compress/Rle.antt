-- ===== src/Storage/Compress/Rle.antt =====
-- Run-length encoding: `compress_col_rle_int`, `compress_col_rle_text` and the ENC_RLE case of
-- `decompress_col` in lib/storage/compress.c. Both encoders are one function over an equality test.
pub mod Roundtrip
use napastak.Base.{
  ℕ, zero, suc, ◌+◌, ◌*◌, ◌/◌, ◌%◌, ◌^◌, ◌≤◌, ◌<◌, ◌≡◌, refl, sym, ap, ◌∙◌, ◌≢◌, Bool, true, false,
  ◌&&◌, Option, none, some, List, [], ◌∷◌, ◌++◌, arith, ltb, leb, if◌then◌else◌, Eq, length, take,
  replicate, length-append, length-replicate, take_all, Bool-cases, inl, inr, All,
}

-- The bound on a run, so that its length fits a `uint16_t`.
abbrev pub max_run : ℕ
max_run = 65535

-- `uint16_t`
abbrev pub u16 : ℕ → ℕ
u16 n = n % 2 ^ 16

-- The arrays `rle_counts` and `rle_values`, with the number of entries that was allocated.
pub record Runs {ℓ} (A : Type ℓ) : Type ℓ where
  pub nruns : ℕ
  pub runs : List (ℕ × A)

-- The arena rounds the size of an array up to 16 bytes, so `n` values of 8 bytes have room for an
-- even number of them, and there is room for at least as many counts of 2 bytes.
abbrev pub room : ℕ → ℕ
room n = (n + 1) / 2 * 2

abbrev pub in_room {ℓ} : {A : Type ℓ} → Runs A → Bool
in_room r = leb (length r.runs) (room r.nruns)

module _ {ℓ} {A : Type ℓ} ⦃e : Eq A⦄ where
  -- The first pass, inside a run of `v`: how many runs follow, this one included.
  unfoldable pub count_from : A → List A → ℕ
  count_from v [] = 1
  count_from v (x ∷ xs) =
      let same = count_from v xs in
      let other = suc (count_from x xs) in if e.beq x v then same else other

  unfoldable pub count_runs : List A → ℕ
  unfolding count_from
  count_runs [] = 0
  count_runs (x ∷ xs) = count_from x xs

  -- The second pass, `n` rows into a run of `v`.
  unfoldable pub runs_from : A → ℕ → List A → List (ℕ × A)
  runs_from v n [] = (u16 n, v) ∷ []
  runs_from v n (x ∷ xs) =
      let longer = runs_from v (n + 1) xs in
      let closed = (u16 n, v) ∷ runs_from x 1 xs in
      if ltb n max_run && e.beq x v then longer else closed

  -- The runs that the first pass counts, and those that the second writes.
  unfoldable pub passes : List A → Runs A
  unfolding count_runs runs_from
  passes [] = record { nruns = 0; runs = [] }
  passes (x ∷ xs) = record { nruns = count_runs (x ∷ xs); runs = runs_from x 1 xs }

  -- `none` where more is written than the arrays have room for: what memory then holds is not
  -- determined by the code.
  unfoldable pub rle_encode : List A → Option (Runs A)
  unfolding passes
  rle_encode xs = if in_room (passes xs) then some (passes xs) else none

-- The runs written out in order.
unfoldable pub expand {ℓ} : {A : Type ℓ} → List (ℕ × A) → List A
expand [] = []
expand ((n, v) ∷ r) = replicate n v ++ expand r

-- `for (r = 0; r < nruns; r++)` over the arrays.
unfoldable pub rle_decode {ℓ} : {A : Type ℓ} → Runs A → List A
unfolding expand
rle_decode r = expand (take r.nruns r.runs)
