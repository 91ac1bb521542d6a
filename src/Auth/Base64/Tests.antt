-- ===== src/Auth/Base64/Tests.antt =====
-- The base64url code of lib/auth/auth.c on short texts.
use napastak.Base.{ℕ, ◌≡◌, refl, some, List, [], ◌∷◌, arith}
use napastak.Auth.Base64.{base64url_encode, base64url_decode}
use napastak.Auth.Base64.Roundtrip.{base64url_decode-base64url_encode}

-- `{"a"`, and the letters `eyJhIgA`, the last of which is one too many.
abbrev text : List ℕ
text = 123 ∷ 34 ∷ 97 ∷ 34 ∷ []

base64url_encode-text : base64url_encode text 16 ≡ some (101 ∷ 121 ∷ 74 ∷ 104 ∷ 73 ∷ 103 ∷ 65 ∷ [])
unfolding base64url_encode
base64url_encode-text = refl

base64url_decode-base64url_encode_example :
    (cs : List ℕ) × (base64url_encode text 16 ≡ some cs)
    × (base64url_decode (λ k. 7) cs 8 ≡ 123 ∷ 34 ∷ 97 ∷ 34 ∷ 0 ∷ 0 ∷ [])
base64url_decode-base64url_encode_example =
    base64url_decode-base64url_encode (λ k. 7) text 16 8
      (omega arith, (omega arith, (omega arith, (omega arith, tt))))
      (
        (omega arith, omega arith, omega arith),
        omega arith,
        (omega arith, omega arith, omega arith),
      )
      (omega arith) (omega arith)
