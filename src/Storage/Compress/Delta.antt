-- ===== src/Storage/Compress/Delta.antt =====
-- Delta encoding: `compress_col_delta` and the ENC_DELTA case of `decompress_col` in
-- lib/storage/compress.c, on 64-bit patterns.
pub mod Roundtrip
use mathlib.Core.Option
use napastak.Base.{
  ℕ, zero, suc, ◌+◌, ◌-◌, ◌%◌, ◌^◌, Bool, ◌&&◌, Option, none, some, List, [], ◌∷◌, ltb,
  if◌then◌else◌, replicate, length,
}
use napastak.Storage.Batch.{Bitmap, null_bit}

-- `base_value` and `deltas`, whose pointer is null where no row has a value. A delta is the bit
-- pattern of an `int32_t`.
pub record Deltas : Type 0 where
  pub base_value : ℕ
  pub deltas : Option (List ℕ)

unfoldable pub first_value : Bitmap → ℕ → List ℕ → Option ℕ
first_value bm i [] = none
first_value bm i (v ∷ vs) = if null_bit bm i then first_value bm (i + 1) vs else some v

-- `vs[i] - prev`, and the test that it lies outside -0x7FFFFFFF .. 0x7FFFFFFF.
abbrev pub difference : ℕ → ℕ → ℕ
difference v prev = (v + 2 ^ 64 - prev) % 2 ^ 64

abbrev pub too_wide : ℕ → Bool
too_wide d = ltb 0x7fffffff d && ltb d (2 ^ 64 - 0x7fffffff)

unfoldable pub deltas_from : Bitmap → ℕ → ℕ → List ℕ → Option (List ℕ)
deltas_from bm i prev [] = some []
deltas_from bm i prev (v ∷ vs) =
    let skip = Option.map (λ ds. 0 ∷ ds) (deltas_from bm (i + 1) prev vs) in
    let keep = Option.map (λ ds. difference v prev % 2 ^ 32 ∷ ds) (deltas_from bm (i + 1) v vs) in
    if null_bit bm i then skip else if too_wide (difference v prev) then none else keep

-- `none` is the -1 of the code.
unfoldable pub delta_encode : Bitmap → List ℕ → Option Deltas
unfolding first_value deltas_from
delta_encode bm vs = elim (first_value bm 0 vs) [
  | none ↦ some (record { base_value = 0; deltas = none })
  | some base ↦
      Option.map (λ ds. record { base_value = base; deltas = some ds }) (deltas_from bm 0 base vs)
]

-- An `int32_t` added to an `int64_t` is sign-extended.
abbrev pub extend : ℕ → ℕ
extend d = if ltb d (2 ^ 31) then d else d + 2 ^ 64 - 2 ^ 32

unfoldable pub sums_from : Bitmap → ℕ → ℕ → List ℕ → List ℕ
sums_from bm i cur [] = []
sums_from bm i cur (d ∷ ds) =
    let next = (cur + extend d) % 2 ^ 64 in
    let null = 0 ∷ sums_from bm (i + 1) cur ds in
    let value = next ∷ sums_from bm (i + 1) next ds in if null_bit bm i then null else value

-- A null `deltas` counts as a zero in every row.
unfoldable pub delta_decode : Bitmap → ℕ → Deltas → List ℕ
unfolding sums_from
delta_decode bm nrows c =
    sums_from bm 0 c.base_value (elim c.deltas [ none ↦ replicate nrows 0 | some ds ↦ ds ])
