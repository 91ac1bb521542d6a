-- ===== src/Auth/Base64/Alphabet.antt =====
-- One round of the base64url code in lib/auth/auth.c, there and back.
use napastak.Base.{ℕ, ◌+◌, ◌-◌, ◌*◌, ◌/◌, ◌%◌, ◌^◌, ◌≤◌, ◌<◌, ◌≡◌, refl, [], ◌∷◌, take_all, arith}
use napastak.Auth.Base64.{letter, value, sextet, triple, sextet_at, bytes_of}

-- A letter or a digit is decoded to its sextet.
pub value-letter : (s : ℕ) → s < 62 → value (letter s) ≡ s
unfolding letter sextet
value-letter s h = ground arith

-- The bytes of a round whose sextets add up to three bytes.
pub bytes_of_lem :
    (out_len j p q r s a b c : ℕ)
    → value p * 2 ^ 18 + value q * 2 ^ 12 + value r * 2 ^ 6 + value s ≡ triple a b c
    → a < 256
    → b < 256
    → c < 256
    → j + 3 ≤ out_len
    → bytes_of out_len j p q r s ≡ a ∷ b ∷ c ∷ []
unfolding bytes_of
bytes_of_lem out_len j p q r s a b c e ha hb hc h =
    let high : triple a b c / 2 ^ 16 % 256 ≡ a = omega arith in
    let middle : triple a b c / 2 ^ 8 % 256 ≡ b = omega arith in
    let low : triple a b c % 256 ≡ c = omega arith in
    rw (e, high, middle, low) (take_all (out_len - j) (a ∷ b ∷ c ∷ []) (omega arith))

-- The first three sextets of a round have a letter or a digit.
abbrev pub Three : ℕ → Type 0
Three t = (sextet_at 18 t < 62) × (sextet_at 12 t < 62) × (sextet_at 6 t < 62)

pub bytes_of-four :
    (out_len j a b c : ℕ)
    → a < 256
    → b < 256
    → c < 256
    → j + 3 ≤ out_len
    → Three (triple a b c)
    → sextet_at 0 (triple a b c) < 62
    → let t = triple a b c in
      bytes_of out_len j
        (letter (sextet_at 18 t))
        (letter (sextet_at 12 t))
        (letter (sextet_at 6 t))
        (letter (sextet_at 0 t))
      ≡ a ∷ b ∷ c ∷ []
bytes_of-four out_len j a b c ha hb hc h (p, q, r) s =
    let t : ℕ = triple a b c in
    bytes_of_lem out_len j _ _ _ _ a b c
      (rw
        (
          value-letter (sextet_at 18 t) p,
          value-letter (sextet_at 12 t) q,
          value-letter (sextet_at 6 t) r,
          value-letter (sextet_at 0 t) s,
        )
        (omega arith))
      ha hb hc h

-- Without a fourth letter the decoder reads the closing zero, and the low bits are lost.
pub bytes_of-Three :
    (out_len j a b c : ℕ)
    → a < 256
    → b < 256
    → c < 256
    → j + 3 ≤ out_len
    → Three (triple a b c)
    → let t = triple a b c in
      bytes_of out_len j
        (letter (sextet_at 18 t))
        (letter (sextet_at 12 t))
        (letter (sextet_at 6 t))
        0
      ≡ a ∷ b ∷ c / 64 * 64 ∷ []
bytes_of-Three out_len j a b c ha hb hc h (p, q, r) =
    let t : ℕ = triple a b c in
    let none_left : value 0 ≡ 0 = unfold sextet in refl in
    bytes_of_lem out_len j _ _ _ _ a b (c / 64 * 64)
      (rw
        (
          value-letter (sextet_at 18 t) p,
          value-letter (sextet_at 12 t) q,
          value-letter (sextet_at 6 t) r,
          none_left,
        )
        (omega arith))
      ha hb (omega arith) h
