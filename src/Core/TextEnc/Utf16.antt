-- ===== src/Core/TextEnc/Utf16.antt =====
-- The conversion of UTF-16 in lib/core/textenc.c.
use napastak.Base.{
  ℕ, ◌+◌, ◌*◌, ◌/◌, ◌%◌, ◌≤◌, ◌<◌, ◌≡◌, refl, Bool, true, false, not, ◌&&◌, List, [], ◌∷◌, ◌++◌,
  arith, ltb, leb, ◌==◌, if◌then◌else◌, length, length-append, All, Bool-cases, inl, inr, ap, ◌∙◌,
  sym,
}
use mathlib.Core.List.{append-nil}
use napastak.Core.TextEnc.{
  scan, is_bad, textenc_is_utf8, put_utf8, unit, is_high, is_low, combined, from_utf16,
}
use napastak.Core.TextEnc.Utf8.{IsCode, scan-put_utf8, length-put_utf8, length-put_utf8_all}

abbrev pub is_surrogate : ℕ → Bool
is_surrogate u = leb 0xd800 u && leb u 0xdfff

-- Each surrogate unit is the first or the second of a pair.
abbrev pub is_paired : Bool → List ℕ → Bool
is_paired little [] = true
is_paired little (a ∷ []) = true
is_paired little (a ∷ b ∷ []) = not (is_surrogate (unit little a b))
is_paired little (a ∷ b ∷ c ∷ []) = not (is_surrogate (unit little a b))
is_paired little (a ∷ b ∷ c ∷ d ∷ p) =
    if is_high (unit little a b) && is_low (unit little c d)
    then is_paired little p
    else if is_surrogate (unit little a b)
    then false
    else is_paired little (c ∷ d ∷ p)

scan-surrogate : (u : ℕ) (p : List ℕ) → is_surrogate u ≡ true → scan 0 0 0 (put_utf8 u ++ p) ≡ false
unfolding scan put_utf8
scan-surrogate u p h =
    let one : ltb u 0x80 ≡ false = ground arith in
    let two : ltb u 0x800 ≡ false = ground arith in
    let three : ltb u 0x10000 ≡ true = ground arith in
    let ascii : ltb (0xe0 + u / 0x1000) 0x80 ≡ false = ground arith in
    let not_two : ((0xe0 + u / 0x1000) / 0x20 == 6) ≡ false = ground arith in
    let lead : ((0xe0 + u / 0x1000) / 0x10 == 14) ≡ true = ground arith in
    let second : ((0x80 + u / 0x40 % 0x40) / 0x40 == 2) ≡ true = ground arith in
    let third : ((0x80 + u % 0x40) / 0x40 == 2) ≡ true = ground arith in
    let code : ((0xe0 + u / 0x1000) % 0x10 * 0x40 + (0x80 + u / 0x40 % 0x40) % 0x40) * 0x40
          + (0x80 + u % 0x40) % 0x40
        ≡ u =
      ground arith in
    let bad : is_bad 2 u ≡ true = ground arith in
    rw (one, two, three) (rw (ascii, not_two, lead, second, third, code, bad) refl)

unit-small : (little : Bool) (a b : ℕ) → a < 256 → b < 256 → unit little a b < 0x10000
unit-small true a b ha hb = omega arith
unit-small false a b ha hb = omega arith

-- One unit that is not paired.
scan-unit :
    (u : ℕ) (p : List ℕ)
    → u < 0x10000
    → scan 0 0 0 (put_utf8 u ++ p) ≡ (if is_surrogate u then false else scan 0 0 0 p)
scan-unit u p h = elim (Bool-cases (is_surrogate u)) [
  | inl y ↦ rw y (scan-surrogate u p y)
  | inr n ↦ rw n (scan-put_utf8 u p (record { small = omega arith; proper = n }))
]

combined-IsCode : (u lo : ℕ) → (is_high u && is_low lo) ≡ true → IsCode (combined u lo)
combined-IsCode u lo h = record { small = ground arith; proper = ground arith }

last_unit :
    (little : Bool) (a b : ℕ)
    → a < 256
    → b < 256
    → scan 0 0 0 (put_utf8 (unit little a b)) ≡ not (is_surrogate (unit little a b))
unfolding scan
last_unit little a b ha hb =
    ap (scan 0 0 0) (sym (append-nil (put_utf8 (unit little a b))))
    ∙ scan-unit (unit little a b) [] (unit-small little a b ha hb)
    ∙ ground arith

-- The conversion of a text in UTF-16 is valid UTF-8 exactly if every surrogate unit of it stands in
-- a pair.
pub textenc_is_utf8-from_utf16 :
    (little : Bool) (p : List ℕ)
    → All (λ b. b < 256) p
    → textenc_is_utf8 (from_utf16 little p) ≡ is_paired little p
unfolding textenc_is_utf8 from_utf16 scan
textenc_is_utf8-from_utf16 little [] w = refl
textenc_is_utf8-from_utf16 little (a ∷ []) w = refl
textenc_is_utf8-from_utf16 little (a ∷ b ∷ []) w = last_unit little a b w.0 w.1.0
textenc_is_utf8-from_utf16 little (a ∷ b ∷ c ∷ []) w = last_unit little a b w.0 w.1.0
textenc_is_utf8-from_utf16 little (a ∷ b ∷ c ∷ d ∷ p) w =
    elim (Bool-cases (is_high (unit little a b) && is_low (unit little c d))) [
      | inl pair ↦ rw pair (
          scan-put_utf8 (combined (unit little a b) (unit little c d)) (from_utf16 little p)
            (combined-IsCode (unit little a b) (unit little c d) pair)
          ∙ textenc_is_utf8-from_utf16 little p w.1.1.1.1)
      | inr single ↦ rw single (
          scan-unit (unit little a b) (from_utf16 little (c ∷ d ∷ p))
            (unit-small little a b w.0 w.1.0)
          ∙ ap (λ (t : Bool). if is_surrogate (unit little a b) then false else t)
              (textenc_is_utf8-from_utf16 little (c ∷ d ∷ p) w.1.1))
    ]

-- The two bytes for each byte that are allocated are enough, whatever the text.
pub length-from_utf16 :
    (little : Bool) (p : List ℕ)
    → All (λ b. b < 256) p
    → length (from_utf16 little p) ≤ 2 * length p
unfolding from_utf16
length-from_utf16 little [] w = omega arith
length-from_utf16 little (a ∷ []) w = omega arith
length-from_utf16 little (a ∷ b ∷ []) w =
    omega (arith, length-put_utf8 (unit little a b) (unit-small little a b w.0 w.1.0))
length-from_utf16 little (a ∷ b ∷ c ∷ []) w =
    omega (arith, length-put_utf8 (unit little a b) (unit-small little a b w.0 w.1.0))
length-from_utf16 little (a ∷ b ∷ c ∷ d ∷ p) w =
    let u = unit little a b in
    let both = combined u (unit little c d) in
    elim (Bool-cases (is_high u && is_low (unit little c d))) [
      | inl pair ↦ rw pair (
          omega (
            arith,
            length-append (put_utf8 both) (from_utf16 little p),
            length-put_utf8_all both,
            length-from_utf16 little p w.1.1.1.1,
          ))
      | inr single ↦ rw single (
          omega (
            arith,
            length-append (put_utf8 u) (from_utf16 little (c ∷ d ∷ p)),
            length-put_utf8 u (unit-small little a b w.0 w.1.0),
            length-from_utf16 little (c ∷ d ∷ p) w.1.1,
          ))
    ]
