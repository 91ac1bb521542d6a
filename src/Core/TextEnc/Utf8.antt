-- ===== src/Core/TextEnc/Utf8.antt =====
-- What `put_utf8` of lib/core/textenc.c writes, `textenc_is_utf8` accepts.
use napastak.Base.{
  ℕ, ◌+◌, ◌*◌, ◌/◌, ◌%◌, ◌≤◌, ◌<◌, ◌≡◌, refl, true, false, ◌&&◌, List, ◌∷◌, ◌++◌, arith, ltb, leb,
  ◌==◌, length, Bool-cases, inl, inr,
}
use napastak.Core.TextEnc.{scan, is_bad, put_utf8}

-- The codes of characters: no surrogates.
pub record IsCode (cp : ℕ) : Type 0 where
  pub small : cp ≤ 0x10ffff
  pub proper : (leb 0xd800 cp && leb cp 0xdfff) ≡ false

scan-two :
    (cp : ℕ) (p : List ℕ)
    → 0x80 ≤ cp
    → cp < 0x800
    → scan 0 0 0 ((0xc0 + cp / 0x40) ∷ (0x80 + cp % 0x40) ∷ p) ≡ scan 0 0 0 p
unfolding scan
scan-two cp p l h =
    let ascii : ltb (0xc0 + cp / 0x40) 0x80 ≡ false = ground arith in
    let lead : ((0xc0 + cp / 0x40) / 0x20 == 6) ≡ true = ground arith in
    let cont : ((0x80 + cp % 0x40) / 0x40 == 2) ≡ true = ground arith in
    let code : (0xc0 + cp / 0x40) % 0x20 * 0x40 + (0x80 + cp % 0x40) % 0x40 ≡ cp = omega arith in
    let good : is_bad 1 cp ≡ false = ground arith in rw (ascii, lead, cont, code, good) refl

scan-three :
    (cp : ℕ) (p : List ℕ)
    → IsCode cp
    → 0x800 ≤ cp
    → cp < 0x10000
    → scan 0 0 0 ((0xe0 + cp / 0x1000) ∷ (0x80 + cp / 0x40 % 0x40) ∷ (0x80 + cp % 0x40) ∷ p)
      ≡ scan 0 0 0 p
unfolding scan
scan-three cp p k l h =
    let ascii : ltb (0xe0 + cp / 0x1000) 0x80 ≡ false = ground arith in
    let not_two : ((0xe0 + cp / 0x1000) / 0x20 == 6) ≡ false = ground arith in
    let lead : ((0xe0 + cp / 0x1000) / 0x10 == 14) ≡ true = ground arith in
    let second : ((0x80 + cp / 0x40 % 0x40) / 0x40 == 2) ≡ true = ground arith in
    let third : ((0x80 + cp % 0x40) / 0x40 == 2) ≡ true = ground arith in
    let code : ((0xe0 + cp / 0x1000) % 0x10 * 0x40 + (0x80 + cp / 0x40 % 0x40) % 0x40) * 0x40
          + (0x80 + cp % 0x40) % 0x40
        ≡ cp =
      omega arith in
    let good : is_bad 2 cp ≡ false = ground (arith, k.proper, k.small) in
    rw (ascii, not_two, lead, second, third, code, good) refl

scan-four :
    (cp : ℕ) (p : List ℕ)
    → IsCode cp
    → 0x10000 ≤ cp
    → scan 0 0 0 (
        (0xf0 + cp / 0x40000)
        ∷ (0x80 + cp / 0x1000 % 0x40)
        ∷ (0x80 + cp / 0x40 % 0x40)
        ∷ (0x80 + cp % 0x40)
        ∷ p)
      ≡ scan 0 0 0 p
unfolding scan
scan-four cp p k l =
    let top : cp / 0x40000 ≤ 4 = omega (arith, k.small) in
    let ascii : ltb (0xf0 + cp / 0x40000) 0x80 ≡ false = ground arith in
    let not_two : ((0xf0 + cp / 0x40000) / 0x20 == 6) ≡ false = ground (arith, top) in
    let not_three : ((0xf0 + cp / 0x40000) / 0x10 == 14) ≡ false = ground (arith, top) in
    let lead : ((0xf0 + cp / 0x40000) / 0x08 == 30) ≡ true = ground (arith, top) in
    let second : ((0x80 + cp / 0x1000 % 0x40) / 0x40 == 2) ≡ true = ground arith in
    let third : ((0x80 + cp / 0x40 % 0x40) / 0x40 == 2) ≡ true = ground arith in
    let fourth : ((0x80 + cp % 0x40) / 0x40 == 2) ≡ true = ground arith in
    let code : (((0xf0 + cp / 0x40000) % 0x08 * 0x40 + (0x80 + cp / 0x1000 % 0x40) % 0x40) * 0x40
              + (0x80 + cp / 0x40 % 0x40) % 0x40)
            * 0x40
          + (0x80 + cp % 0x40) % 0x40
        ≡ cp =
      omega (arith, k.small) in
    let good : is_bad 3 cp ≡ false = ground (arith, k.proper, k.small) in
    rw (ascii, not_two, not_three, lead, second, third, fourth, code, good) refl

pub scan-put_utf8 : (cp : ℕ) (p : List ℕ) → IsCode cp → scan 0 0 0 (put_utf8 cp ++ p) ≡ scan 0 0 0 p
unfolding scan put_utf8
scan-put_utf8 cp p k = elim (Bool-cases (ltb cp 0x80)) [
  | inl one ↦ rw one (rw one refl)
  | inr more ↦ elim (Bool-cases (ltb cp 0x800)) [
    | inl two ↦ rw (more, two) (scan-two cp p (ground arith) (ground arith))
    | inr more' ↦ elim (Bool-cases (ltb cp 0x10000)) [
      | inl three ↦ rw (more, more', three) (scan-three cp p k (ground arith) (ground arith))
      | inr four ↦ rw (more, more', four) (scan-four cp p k (ground arith))
    ]
  ]
]

pub length-put_utf8 : (cp : ℕ) → cp < 0x10000 → length (put_utf8 cp) ≤ 3
unfolding put_utf8
length-put_utf8 cp h = ground arith

pub length-put_utf8_all : (cp : ℕ) → length (put_utf8 cp) ≤ 4
unfolding put_utf8
length-put_utf8_all cp = ground arith
