-- ===== src/Core/TextEnc/Detect.antt =====
-- What `textenc_to_utf8` of lib/core/textenc.c does to a text whose encoding it has to guess.
use napastak.Base.{
  ℕ, suc, ◌+◌, ◌*◌, ◌/◌, ◌%◌, ◌≤◌, ◌<◌, ◌≡◌, refl, true, false, List, [], ◌∷◌, ◌++◌, arith, ltb,
  leb, ◌==◌, length, take, take_all, All, Bool-cases, inl, inr, ap, ◌∙◌, subst,
}
use napastak.Core.TextEnc.{
  TextEnc, unknown, utf8, windows_1251, utf8_mark, utf16le_mark, utf16be_mark, scan, is_bad,
  textenc_is_utf8, enc_score, has_high, textenc_bom_len, textenc_detect, converted, textenc_to_utf8,
}
use napastak.Core.TextEnc.Tables.{cp1251, cp866, koi8r}

-- The text starts with none of the three marks.
pub record Unmarked (p : List ℕ) : Type 0 where
  pub no_utf8 : utf8_mark p ≡ false
  pub no_le : utf16le_mark p ≡ false
  pub no_be : utf16be_mark p ≡ false

-- Valid UTF-8 of at most 65536 bytes without a mark is taken for UTF-8 and left as it is.
pub textenc_to_utf8_same :
    (p : List ℕ)
    → Unmarked p
    → length p ≤ 65536
    → textenc_is_utf8 p ≡ true
    → ◌≡◌ {A = List ℕ × TextEnc} (textenc_to_utf8 p unknown) (p, utf8)
unfolding textenc_to_utf8 textenc_detect textenc_bom_len converted
textenc_to_utf8_same p u small valid =
    let all : take 65536 p ≡ p = take_all 65536 p small in
    elim (Bool-cases (has_high p)) [
      | inl y ↦ rw (u.no_utf8, u.no_le, u.no_be, all, y, valid) refl
      | inr n ↦ rw (u.no_utf8, u.no_le, u.no_be, all, n) refl
    ]

utf8_mark-low : (c : ℕ) (q : List ℕ) → c < 0x80 → utf8_mark (c ∷ q) ≡ false
utf8_mark-low c [] h = refl
utf8_mark-low c (b ∷ []) h = refl
utf8_mark-low c (b ∷ d ∷ q) h = ground arith

low-Unmarked : (c : ℕ) (q : List ℕ) → c < 0x80 → Unmarked (c ∷ q)
low-Unmarked c [] h = record { no_utf8 = refl; no_le = refl; no_be = refl }
low-Unmarked c (b ∷ q) h = record {
  no_utf8 = utf8_mark-low c (b ∷ q) h;
  no_le = ground arith;
  no_be = ground arith;
}

take-append-cons :
    (xs : List ℕ) (c : ℕ) (q : List ℕ) → take (suc (length xs)) (xs ++ c ∷ q) ≡ xs ++ c ∷ []
take-append-cons [] c q = refl
take-append-cons (x ∷ xs) c q = ap (λ t. x ∷ t) (take-append-cons xs c q)

-- A byte of ASCII.
abbrev pub IsLow : ℕ → Type 0
IsLow c = c < 0x80

-- What comes before the first byte that is not ASCII has no influence.
has_high-append : (xs q : List ℕ) → All IsLow xs → has_high (xs ++ q) ≡ has_high q
unfolding has_high
has_high-append [] q w = refl
has_high-append (x ∷ xs) q w =
    let low : leb 0x80 x ≡ false = ground (arith, w.0) in rw low (has_high-append xs q w.1)

scan-append : (xs q : List ℕ) → All IsLow xs → scan 0 0 0 (xs ++ q) ≡ scan 0 0 0 q
unfolding scan
scan-append [] q w = refl
scan-append (x ∷ xs) q w =
    let low : ltb x 0x80 ≡ true = ground (arith, w.0) in rw low (scan-append xs q w.1)

enc_score-append : (tbl xs q : List ℕ) → All IsLow xs → enc_score tbl (xs ++ q) ≡ enc_score tbl q
unfolding enc_score
enc_score-append tbl [] q w = refl
enc_score-append tbl (x ∷ xs) q w =
    let low : ltb x 0x80 ≡ true = ground (arith, w.0) in rw low (enc_score-append tbl xs q w.1)

detect_1251 :
    (p probe : List ℕ)
    → Unmarked p
    → take 65536 p ≡ probe
    → has_high probe ≡ true
    → textenc_is_utf8 probe ≡ false
    → ◌≡◌ {A = ℕ × ℕ} (enc_score cp1251 probe) (3, 0)
    → ◌≡◌ {A = ℕ × ℕ} (enc_score cp866 probe) (0, 3)
    → ◌≡◌ {A = ℕ × ℕ} (enc_score koi8r probe) (3, 0)
    → textenc_detect p ≡ windows_1251
unfolding textenc_detect
detect_1251 p probe u looked high invalid s1 s2 s3 =
    rw (u.no_utf8, u.no_le, u.no_be, looked, high, invalid, s1, s2, s3) refl

letter-valid : (c : ℕ) → (c / 0x40 == 2) ≡ true → scan 0 0 0 (0xd0 ∷ c ∷ []) ≡ true
unfolding scan
letter-valid c h =
    let good : is_bad 1 (16 * 0x40 + c % 0x40) ≡ false = ground arith in rw (h, good) refl

half-invalid : scan 0 0 0 (0xd0 ∷ []) ≡ false
unfolding scan
half-invalid = refl

half-high : has_high (0xd0 ∷ []) ≡ true
unfolding has_high
half-high = refl

half-score :
    (◌≡◌ {A = ℕ × ℕ} (enc_score cp1251 (0xd0 ∷ [])) (3, 0))
    × (◌≡◌ {A = ℕ × ℕ} (enc_score cp866 (0xd0 ∷ [])) (0, 3))
    × (◌≡◌ {A = ℕ × ℕ} (enc_score koi8r (0xd0 ∷ [])) (3, 0))
unfolding enc_score
half-score = (refl, refl, refl)

-- The first 65536 bytes are looked at for themselves, and they may break off inside a character:
-- 65535 bytes of ASCII and then a Cyrillic letter in UTF-8, whatever follows it, are taken for
-- Windows-1251, though the text up to there is valid UTF-8.
pub textenc_detect_cut :
    (x : ℕ) (xs : List ℕ) (c : ℕ) (q : List ℕ)
    → All IsLow (x ∷ xs)
    → length (x ∷ xs) ≡ 65535
    → (c / 0x40 == 2) ≡ true
    → (textenc_is_utf8 ((x ∷ xs) ++ 0xd0 ∷ c ∷ []) ≡ true)
      × (textenc_detect ((x ∷ xs) ++ 0xd0 ∷ c ∷ q) ≡ windows_1251)
unfolding textenc_is_utf8
textenc_detect_cut x xs c q w size next =
    let (s1, s2, s3) = half-score in
    let all : suc (length (x ∷ xs)) ≡ 65536 = omega (arith, size) in
    let half : List ℕ = (x ∷ xs) ++ 0xd0 ∷ [] in
    let looked : take 65536 ((x ∷ xs) ++ 0xd0 ∷ c ∷ q) ≡ half =
      subst (λ n. take n ((x ∷ xs) ++ 0xd0 ∷ c ∷ q) ≡ half) all
        (take-append-cons (x ∷ xs) 0xd0 (c ∷ q)) in
    (
      scan-append (x ∷ xs) (0xd0 ∷ c ∷ []) w ∙ letter-valid c next,
      detect_1251 ((x ∷ xs) ++ 0xd0 ∷ c ∷ q) half (low-Unmarked x _ w.0) looked
          (has_high-append (x ∷ xs) (0xd0 ∷ []) w ∙ half-high)
          (scan-append (x ∷ xs) (0xd0 ∷ []) w ∙ half-invalid)
          (enc_score-append cp1251 (x ∷ xs) (0xd0 ∷ []) w ∙ s1)
          (enc_score-append cp866 (x ∷ xs) (0xd0 ∷ []) w ∙ s2)
          (enc_score-append koi8r (x ∷ xs) (0xd0 ∷ []) w ∙ s3),
    )
