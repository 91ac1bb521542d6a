-- ===== src/Storage/Compress/Delta/Roundtrip.antt =====
-- Adding up the deltas of lib/storage/compress.c gives the values back.
use mathlib.Core.Option
use napastak.Base.{
  ℕ, ◌+◌, ◌%◌, ◌^◌, ◌≡◌, refl, false, none, some, List, [], ◌∷◌, arith, if◌then◌else◌, replicate,
  length, All, Bool-cases, Option-cases, inl, inr, ap, subst,
}
use napastak.Storage.Batch.{Bitmap, null_bit, IsWord}
use napastak.Storage.Compress.Delta.{
  Deltas, first_value, difference, too_wide, deltas_from, delta_encode, extend, sums_from,
  delta_decode,
}

-- The rows as the decoder leaves them: a null row holds 0.
abbrev pub masked : Bitmap → ℕ → List ℕ → List ℕ
masked bm i [] = []
masked bm i (v ∷ vs) = (if null_bit bm i then 0 else v) ∷ masked bm (i + 1) vs

-- A difference that passes the test is restored from its low 32 bits.
add_difference :
    (v prev : ℕ)
    → IsWord v
    → IsWord prev
    → too_wide (difference v prev) ≡ false
    → (prev + extend (difference v prev % 2 ^ 32)) % 2 ^ 64 ≡ v
add_difference v prev hv hp h = ground arith

sums_from-deltas_from :
    (bm : Bitmap) (i prev : ℕ) (vs ds : List ℕ)
    → IsWord prev
    → All IsWord vs
    → deltas_from bm i prev vs ≡ some ds
    → sums_from bm i prev ds ≡ masked bm i vs
unfolding deltas_from sums_from
sums_from-deltas_from bm i prev [] ds hp hv e =
    let nil : [] ≡ ds = cc in subst (λ t. sums_from bm i prev t ≡ []) nil refl
sums_from-deltas_from bm i prev (v ∷ vs) ds hp hv e = elim (Bool-cases (null_bit bm i)) [
  | inl n ↦
      let (r, got, eq) = (Option.map-eq-some_iff _ _).0 (rw n at e) in
      subst (λ t. sums_from bm i prev t ≡ masked bm i (v ∷ vs)) eq
        (rw n (ap (λ t. 0 ∷ t) (sums_from-deltas_from bm (i + 1) prev vs r hp hv.1 got)))
  | inr n ↦ elim (Bool-cases (too_wide (difference v prev))) [
    | inl wide ↦ cc (rw (n, wide) at e)
    | inr fits ↦
        let (r, got, eq) = (Option.map-eq-some_iff _ _).0 (rw (n, fits) at e) in
        let back = add_difference v prev hv.0 hp fits in
        subst (λ t. sums_from bm i prev t ≡ masked bm i (v ∷ vs)) eq
          (rw (n, back) (ap (λ t. v ∷ t) (sums_from-deltas_from bm (i + 1) v vs r hv.0 hv.1 got)))
  ]
]

-- Where no row has a value, every row is decoded to 0.
sums_from-replicate :
    (bm : Bitmap) (i cur : ℕ) (vs : List ℕ)
    → first_value bm i vs ≡ none
    → sums_from bm i cur (replicate (length vs) 0) ≡ masked bm i vs
unfolding first_value sums_from
sums_from-replicate bm i cur [] h = refl
sums_from-replicate bm i cur (v ∷ vs) h = elim (Bool-cases (null_bit bm i)) [
  | inl n ↦ rw n (ap (λ t. 0 ∷ t) (sums_from-replicate bm (i + 1) cur vs (rw n at h)))
  | inr n ↦ cc (rw n at h)
]

first_value-IsWord :
    (bm : Bitmap) (i v : ℕ) (vs : List ℕ) → All IsWord vs → first_value bm i vs ≡ some v → IsWord v
unfolding first_value
first_value-IsWord bm i v [] w h = cc
first_value-IsWord bm i v (x ∷ vs) w h = elim (Bool-cases (null_bit bm i)) [
  | inl n ↦ first_value-IsWord bm (i + 1) v vs w.1 (rw n at h)
  | inr n ↦ let same : x ≡ v = cc (rw n at h) in omega (arith, same, w.0)
]

-- A column of 64-bit values that the encoder accepts is decoded to its values, a null row to 0.
pub delta_decode-delta_encode :
    (bm : Bitmap) (vs : List ℕ) (c : Deltas)
    → All IsWord vs
    → delta_encode bm vs ≡ some c
    → delta_decode bm (length vs) c ≡ masked bm 0 vs
unfolding delta_encode delta_decode
delta_decode-delta_encode bm vs c w e = elim (Option-cases (first_value bm 0 vs)) [
  | inl nulls ↦
      let same : record { base_value = 0; deltas = none } ≡ c =
        cc (rw (nulls, delta_encode) at e) in
      subst (λ t. delta_decode bm (length vs) t ≡ masked bm 0 vs) same
        (sums_from-replicate bm 0 0 vs nulls)
  | inr (base, found) ↦
      let (ds, got, same) = (Option.map-eq-some_iff _ _).0 (rw (found, delta_encode) at e) in
      subst (λ t. delta_decode bm (length vs) t ≡ masked bm 0 vs) same
        (sums_from-deltas_from bm 0 base vs ds (first_value-IsWord bm 0 base vs w found) w got)
]
