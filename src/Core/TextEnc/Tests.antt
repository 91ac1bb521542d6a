-- ===== src/Core/TextEnc/Tests.antt =====
-- lib/core/textenc.c on short texts.
use napastak.Base.{
  ℕ, zero, suc, ◌≤◌, ◌<◌, ◌≡◌, refl, true, List, [], ◌∷◌, ◌++◌, arith, length, replicate,
  length-replicate, All,
}
use napastak.Core.TextEnc.{
  TextEnc, unknown, utf8, utf16le, windows_1251, dos_866, textenc_is_utf8, textenc_detect,
  textenc_to_utf8, converted, from_utf16,
}
use napastak.Core.TextEnc.Legacy.{is_866, converted-IsLegacy}
use napastak.Core.TextEnc.Utf16.{is_paired, textenc_is_utf8-from_utf16}
use napastak.Core.TextEnc.Detect.{Unmarked, IsLow, textenc_to_utf8_same, textenc_detect_cut}

-- A letter in CP866, with a byte of a frame.
abbrev frame : List ℕ
frame = 0x80 ∷ 0xc4 ∷ 65 ∷ []

-- The mark goes, the letter stays.
to_utf8-marked :
    ◌≡◌ {A = List ℕ × TextEnc}
      (textenc_to_utf8 (0xef ∷ 0xbb ∷ 0xbf ∷ 65 ∷ []) unknown)
      (65 ∷ [], utf8)
unfolding textenc_to_utf8
to_utf8-marked = refl

-- U+1F600 in two units.
to_utf8-pair :
    ◌≡◌ {A = List ℕ × TextEnc}
      (textenc_to_utf8 (0xff ∷ 0xfe ∷ 0x3d ∷ 0xd8 ∷ 0x00 ∷ 0xde ∷ []) unknown)
      (0xf0 ∷ 0x9f ∷ 0x98 ∷ 0x80 ∷ [], utf16le)
unfolding textenc_to_utf8
to_utf8-pair = refl

detect-word : textenc_detect (0xcf ∷ 0xf0 ∷ 0xe8 ∷ 0xe2 ∷ 0xe5 ∷ 0xf2 ∷ []) ≡ windows_1251
unfolding textenc_detect
detect-word = refl

converted-IsLegacy_example :
    (textenc_is_utf8 (converted dos_866 frame) ≡ true) × (length (converted dos_866 frame) ≤ 9)
converted-IsLegacy_example = converted-IsLegacy dos_866 frame is_866

-- A lone first half, then a letter.
abbrev lone : List ℕ
lone = 0x3d ∷ 0xd8 ∷ 65 ∷ 0 ∷ []

lone-bytes : All (λ b. b < 256) lone
lone-bytes = (omega arith, (omega arith, (omega arith, (omega arith, tt))))

textenc_is_utf8-from_utf16_example : textenc_is_utf8 (from_utf16 true lone) ≡ is_paired true lone
textenc_is_utf8-from_utf16_example = textenc_is_utf8-from_utf16 true lone lone-bytes

abbrev cyrillic : List ℕ
cyrillic = 0xd0 ∷ 0x90 ∷ []

cyrillic-Unmarked : Unmarked cyrillic
cyrillic-Unmarked = record { no_utf8 = refl; no_le = refl; no_be = refl }

cyrillic-is_utf8 : textenc_is_utf8 cyrillic ≡ true
unfolding textenc_is_utf8
cyrillic-is_utf8 = refl

textenc_to_utf8_same_example :
    ◌≡◌ {A = List ℕ × TextEnc} (textenc_to_utf8 cyrillic unknown) (cyrillic, utf8)
textenc_to_utf8_same_example =
    textenc_to_utf8_same cyrillic cyrillic-Unmarked (omega arith) cyrillic-is_utf8

replicate-All : (n : ℕ) → All IsLow (replicate n 97)
replicate-All zero = tt
replicate-All (suc n) = (omega arith, replicate-All n)

textenc_detect_cut_example :
    (textenc_is_utf8 ((97 ∷ replicate 65534 97) ++ cyrillic) ≡ true)
    × (textenc_detect ((97 ∷ replicate 65534 97) ++ 0xd0 ∷ 0x90 ∷ 65 ∷ []) ≡ windows_1251)
textenc_detect_cut_example =
    textenc_detect_cut 97 (replicate 65534 97) 0x90 (65 ∷ []) (omega arith, replicate-All 65534)
      (omega (arith, length-replicate {A = ℕ} 65534 97)) refl
