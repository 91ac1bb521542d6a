-- ===== src/Auth/Base64.antt =====
-- `base64url_encode` and `base64url_decode` of lib/auth/auth.c, on lists of bytes.
pub mod Alphabet
pub mod Roundtrip
pub mod Loss
mod Tests
use mathlib.Core.Option
use napastak.Base.{
  ℕ, zero, suc, ◌+◌, ◌-◌, ◌*◌, ◌/◌, ◌%◌, ◌^◌, Bool, true, false, ◌&&◌, Option, none, some, List, [],
  ◌∷◌, ◌++◌, ltb, leb, ◌==◌, if◌then◌else◌, length, take,
}

-- The table `b64` at a sextet: the letters, the digits, `-` and `_`.
unfoldable pub letter : ℕ → ℕ
letter s =
    if ltb s 26
    then s + 65
    else if ltb s 52
    then s + 71
    else if ltb s 62
    then s - 4
    else if s == 62
    then 45
    else 95

-- The table `b64d` at a byte: `+` and `/` stand for 62 and 63, and all that it does not know for 0.
unfoldable pub sextet : ℕ → ℕ
sextet c =
    if c == 43
    then 62
    else if c == 47
    then 63
    else if leb 48 c && leb c 57
    then c + 4
    else if leb 65 c && leb c 90
    then c - 65
    else if leb 97 c && leb c 122
    then c - 71
    else 0

-- `(octet_a << 16) | (octet_b << 8) | octet_c`, and the sextet that starts at bit `k`.
abbrev pub triple : ℕ → ℕ → ℕ → ℕ
triple a b c = a * 2 ^ 16 + b * 2 ^ 8 + c

abbrev pub sextet_at : ℕ → ℕ → ℕ
sextet_at k t = t / 2 ^ k % 64

-- What a round writes, `i` bytes of `len` read by then.
unfoldable pub quad : ℕ → ℕ → ℕ → List ℕ
unfolding letter
quad len i t =
    letter (sextet_at 18 t)
    ∷ letter (sextet_at 12 t)
    ∷ ((if ltb (i - 1) len then letter (sextet_at 6 t) ∷ [] else [])
        ++ (if ltb i len then letter (sextet_at 0 t) ∷ [] else []))

-- `out[j ..]` is written for the bytes from `i` on; `none` is the -1 of a buffer that is full.
unfoldable pub encode_from : ℕ → ℕ → ℕ → ℕ → List ℕ → Option (List ℕ)
unfolding quad
encode_from out_len len i j [] = some []
encode_from out_len len i j (a ∷ []) =
    let out = quad len (i + 1) (triple a 0 0) in if ltb out_len (j + 4) then none else some out
encode_from out_len len i j (a ∷ b ∷ []) =
    let out = quad len (i + 2) (triple a b 0) in if ltb out_len (j + 4) then none else some out
encode_from out_len len i j (a ∷ b ∷ c ∷ bs) =
    let out = quad len (i + 3) (triple a b c) in
    let rest = encode_from out_len len (i + 3) (j + length out) bs in
    if ltb out_len (j + 4) then none else Option.map (λ r. out ++ r) rest

unfoldable pub base64url_encode : List ℕ → ℕ → Option (List ℕ)
unfolding encode_from
base64url_encode bs out_len = encode_from out_len (length bs) 0 0 bs

abbrev pub value : ℕ → ℕ
value c = if c == 61 then 0 else sextet c

-- The three bytes of a round, as far as the buffer has room for them.
unfoldable pub bytes_of : ℕ → ℕ → ℕ → ℕ → ℕ → ℕ → List ℕ
unfolding sextet
bytes_of out_len j p q r s =
    let t = value p * 2 ^ 18 + value q * 2 ^ 12 + value r * 2 ^ 6 + value s in
    take (out_len - j) (t / 2 ^ 16 % 256 ∷ t / 2 ^ 8 % 256 ∷ t % 256 ∷ [])

-- A last round reads the closing zero and what lies beyond it, `past 0` and `past 1`.
unfoldable pub decode_from : (ℕ → ℕ) → ℕ → ℕ → List ℕ → List ℕ
unfolding bytes_of
decode_from past out_len j [] = []
decode_from past out_len j (p ∷ []) = bytes_of out_len j p 0 (past 0) (past 1)
decode_from past out_len j (p ∷ q ∷ []) = bytes_of out_len j p q 0 (past 0)
decode_from past out_len j (p ∷ q ∷ r ∷ []) = bytes_of out_len j p q r 0
decode_from past out_len j (p ∷ q ∷ r ∷ s ∷ cs) =
    let out = bytes_of out_len j p q r s in out ++ decode_from past out_len (j + length out) cs

unfoldable pub base64url_decode : (ℕ → ℕ) → List ℕ → ℕ → List ℕ
unfolding decode_from
base64url_decode past cs out_len = decode_from past out_len 0 cs
