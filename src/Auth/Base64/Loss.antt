-- ===== src/Auth/Base64/Loss.antt =====
-- Bytes that `base64url_encode` of lib/auth/auth.c does not tell apart.
use mathlib.Core.Option
use napastak.Base.{
  ℕ, zero, suc, ◌+◌, ◌*◌, ◌/◌, ◌<◌, ◌≡◌, refl, false, Option, none, some, List, [], ◌∷◌, ◌++◌,
  length, length-append, ltb, arith, ap, if◌then◌else◌,
}
use napastak.Auth.Base64.{triple, sextet_at, quad, encode_from, base64url_encode}

-- The last round of a text passes over the low six bits.
quad-eq-quad :
    (len a b c d : ℕ)
    → c < 256
    → d < 256
    → c / 64 ≡ d / 64
    → quad len len (triple a b c) ≡ quad len len (triple a b d)
unfolding quad
quad-eq-quad len a b c d hc hd e =
    let first : sextet_at 18 (triple a b c) ≡ sextet_at 18 (triple a b d) = omega (arith, e) in
    let second : sextet_at 12 (triple a b c) ≡ sextet_at 12 (triple a b d) = omega (arith, e) in
    let third : sextet_at 6 (triple a b c) ≡ sextet_at 6 (triple a b d) = omega (arith, e) in
    let no4 : ltb len len ≡ false = ground arith in rw (no4, first, second, third) refl

encode_from-collide :
    (out_len len i j k a b c d : ℕ) (xs : List ℕ)
    → c < 256
    → d < 256
    → c / 64 ≡ d / 64
    → length xs ≡ 3 * k
    → i + length xs + 3 ≡ len
    → encode_from out_len len i j (xs ++ a ∷ b ∷ c ∷ [])
      ≡ encode_from out_len len i j (xs ++ a ∷ b ∷ d ∷ [])
unfolding encode_from
encode_from-collide out_len len i j k a b c d [] hc hd e three all =
    let at_end : i + 3 ≡ len = omega arith in
    rw at_end (
      ap (λ (q : List ℕ). if ltb out_len (j + 4) then none else some (q ++ []))
        (quad-eq-quad len a b c d hc hd e))
encode_from-collide out_len len i j k a b c d (x ∷ []) hc hd e three all = absurd (omega arith)
encode_from-collide out_len len i j k a b c d (x ∷ y ∷ []) hc hd e three all = absurd (omega arith)
encode_from-collide out_len len i j zero a b c d (x ∷ y ∷ z ∷ xs) hc hd e three all =
    absurd (omega arith)
encode_from-collide out_len len i j (suc k) a b c d (x ∷ y ∷ z ∷ xs) hc hd e three all =
    let out = quad len (i + 3) (triple x y z) in
    ap (λ (r : Option (List ℕ)). if ltb out_len (j + 4) then none else Option.map (λ t. out ++ t) r)
      (encode_from-collide out_len len (i + 3) (j + length out) k a b c d xs hc hd e (omega arith)
        (omega arith))

-- Where the number of bytes is a multiple of three, two texts that differ only in the low six bits
-- of the last byte are encoded alike: the fourth letter of the last group is never written.
pub base64url_encode_collision :
    (xs : List ℕ) (k a b c d out_len : ℕ)
    → length xs ≡ 3 * k
    → c < 256
    → d < 256
    → c / 64 ≡ d / 64
    → base64url_encode (xs ++ a ∷ b ∷ c ∷ []) out_len
      ≡ base64url_encode (xs ++ a ∷ b ∷ d ∷ []) out_len
unfolding base64url_encode
base64url_encode_collision xs k a b c d out_len three hc hd e =
    let len : length (xs ++ a ∷ b ∷ d ∷ []) ≡ length (xs ++ a ∷ b ∷ c ∷ []) =
      omega (arith, length-append xs (a ∷ b ∷ c ∷ []), length-append xs (a ∷ b ∷ d ∷ [])) in
    rw len (
      encode_from-collide out_len (length (xs ++ a ∷ b ∷ c ∷ [])) 0 0 k a b c d xs hc hd e three
        (omega (arith, length-append xs (a ∷ b ∷ c ∷ []))))
