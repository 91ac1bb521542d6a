-- ===== src/Auth/Base64/Roundtrip.antt =====
-- What `base64url_decode` of lib/auth/auth.c makes of the output of `base64url_encode`.
use mathlib.Core.List.{append-nil}
use napastak.Base.{
  ℕ, ◌+◌, ◌-◌, ◌*◌, ◌/◌, ◌≤◌, ◌<◌, ◌≡◌, refl, true, false, some, List, [], ◌∷◌, ◌++◌, length, ltb,
  arith, ap, All,
}
use napastak.Auth.Base64.{
  letter, triple, sextet_at, quad, encode_from, base64url_encode, decode_from, base64url_decode,
}
use napastak.Auth.Base64.Alphabet.{Three, bytes_of-four, bytes_of-Three}

-- No sextet is one of the two that the tables do not share.
abbrev pub Plain : List ℕ → Type 0
Plain [] = Unit
Plain (a ∷ []) = Three (triple a 0 0)
Plain (a ∷ b ∷ []) = Three (triple a b 0)
Plain (a ∷ b ∷ c ∷ []) = Three (triple a b c)
Plain (a ∷ b ∷ c ∷ d ∷ bs) =
    Three (triple a b c) × (sextet_at 0 (triple a b c) < 62) × Plain (d ∷ bs)

-- The last group is filled up with zeros, or, where it is full, loses the low bits of its last byte.
abbrev pub recovered : List ℕ → List ℕ
recovered [] = []
recovered (a ∷ []) = a ∷ 0 ∷ 0 ∷ []
recovered (a ∷ b ∷ []) = a ∷ b ∷ 0 ∷ []
recovered (a ∷ b ∷ c ∷ []) = a ∷ b ∷ c / 64 * 64 ∷ []
recovered (a ∷ b ∷ c ∷ d ∷ bs) = a ∷ b ∷ c ∷ recovered (d ∷ bs)

abbrev pub IsByte : ℕ → Type 0
IsByte b = b < 256

-- The last round writes three letters, and any other four.
quad_last :
    (len t : ℕ)
    → 1 ≤ len
    → quad len len t
      ≡ letter (sextet_at 18 t) ∷ letter (sextet_at 12 t) ∷ letter (sextet_at 6 t) ∷ []
unfolding quad
quad_last len t h =
    let yes3 : ltb (len - 1) len ≡ true = ground arith in
    let no4 : ltb len len ≡ false = ground arith in rw (yes3, no4) refl

abbrev four : ℕ → List ℕ
four t =
    letter (sextet_at 18 t)
    ∷ letter (sextet_at 12 t)
    ∷ letter (sextet_at 6 t)
    ∷ letter (sextet_at 0 t)
    ∷ []

not_less : (a b : ℕ) → a ≤ b → ltb b a ≡ false
not_less a b h = ground (arith, h)

module _ (past : ℕ → ℕ) (n m len : ℕ) where
  -- The code from byte `i` on, with `j` letters written and `k` bytes decoded.
  Decodes : ℕ → ℕ → ℕ → List ℕ → Type 0
  Decodes i j k bs =
      (cs : List ℕ) × (encode_from n len i j bs ≡ some cs)
      × (decode_from past m k cs ≡ recovered bs)

  -- A full last group.
  decode_last :
      (i j k a b c : ℕ)
      → (a < 256) × (b < 256) × (c < 256)
      → Three (triple a b c)
      → 1 ≤ len
      → k + 3 ≤ m
      → decode_from past m k (quad len len (triple a b c)) ≡ a ∷ b ∷ c / 64 * 64 ∷ []
  unfolding decode_from
  decode_last i j k a b c (ha, hb, hc) p e h =
      rw (quad_last len (triple a b c) e) (bytes_of-Three m k a b c ha hb hc h p)

  decode_from-encode_from :
      (i j k : ℕ) (bs : List ℕ)
      → All IsByte bs
      → Plain bs
      → i + length bs ≡ len
      → j + 4 * ((length bs + 2) / 3) ≤ n
      → k + length bs + 2 ≤ m
      → Decodes i j k bs
  unfolding encode_from decode_from Decodes
  decode_from-encode_from i j k [] w p e room h = ([], refl, refl)
  decode_from-encode_from i j k (a ∷ []) w p e room h =
      let fits = not_less (j + 4) n (omega (arith, room)) in
      let at_end : i + 1 ≡ len = omega arith in
      let zero_left : 0 / 64 * 64 ≡ 0 = omega arith in
      (
        quad len len (triple a 0 0),
        rw (fits, at_end) refl,
        decode_last i j k a 0 0 (w.0, omega arith, omega arith) p (omega arith) (omega arith),
      )
  decode_from-encode_from i j k (a ∷ b ∷ []) w p e room h =
      let fits = not_less (j + 4) n (omega (arith, room)) in
      let at_end : i + 2 ≡ len = omega arith in
      (
        quad len len (triple a b 0),
        rw (fits, at_end) refl,
        decode_last i j k a b 0 (w.0, w.1.0, omega arith) p (omega arith) (omega arith),
      )
  decode_from-encode_from i j k (a ∷ b ∷ c ∷ []) w p e room h =
      let fits = not_less (j + 4) n (omega (arith, room)) in
      let at_end : i + 3 ≡ len = omega arith in
      (
        quad len len (triple a b c),
        rw (fits, at_end) (ap some (append-nil (quad len len (triple a b c)))),
        decode_last i j k a b c (w.0, w.1.0, w.1.1.0) p (omega arith) (omega arith),
      )
  decode_from-encode_from i j k (a ∷ b ∷ c ∷ d ∷ bs) w p e room h =
      let fits = not_less (j + 4) n (omega (arith, room)) in
      let third : ltb (i + 3 - 1) len ≡ true = ground arith in
      let fourth : ltb (i + 3) len ≡ true = ground arith in
      let (cs, got, back) =
        decode_from-encode_from (i + 3) (j + 4) (k + 3) (d ∷ bs) w.1.1.1 p.2 (omega arith)
          (omega arith) (omega arith) in
      (
        four (triple a b c) ++ cs,
        rw (fits, third, fourth, got) refl,
        rw (bytes_of-four m k a b c w.0 w.1.0 w.1.1.0 (omega arith) p.0 p.1, back) refl,
      )

-- Bytes whose groups have no sextet 62 or 63 are encoded if the buffer has room for four letters in
-- each group, and decode into a buffer with two bytes more than they are to themselves, but for the
-- last group: zeros fill it up, and where it is full, its last byte loses its low six bits. What
-- lies in memory beyond the text has no influence.
pub base64url_decode-base64url_encode :
    (past : ℕ → ℕ) (bs : List ℕ) (n m : ℕ)
    → All IsByte bs
    → Plain bs
    → 4 * ((length bs + 2) / 3) ≤ n
    → length bs + 2 ≤ m
    → (cs : List ℕ) × (base64url_encode bs n ≡ some cs)
      × (base64url_decode past cs m ≡ recovered bs)
unfolding base64url_encode base64url_decode Decodes
base64url_decode-base64url_encode past bs n m w p room h =
    decode_from-encode_from past n m (length bs) 0 0 0 bs w p (omega arith) (omega arith)
      (omega arith)
