-- ===== src/Core/TextEnc/Legacy.antt =====
-- The conversion of one-byte encodings in lib/core/textenc.c.
use napastak.Base.{
  ℕ, zero, suc, ◌-◌, ◌*◌, ◌≤◌, ◌<◌, ◌≡◌, refl, Bool, true, false, not, ◌&&◌, List, [], ◌∷◌, arith,
  ltb, leb, ◌==◌, length, length-append, get_or, Bool-cases, inl, inr, ◌∙◌,
}
use napastak.Core.TextEnc.{
  scan, textenc_is_utf8, put_utf8, or_replacement, from_single_byte, TextEnc, windows_1251, dos_866,
  koi8_r, converted,
}
use napastak.Core.TextEnc.Tables.{cp1251, cp866, koi8r}
use napastak.Core.TextEnc.Utf8.{IsCode, scan-put_utf8, length-put_utf8}

-- Every entry of a table is a code of the basic plane and no surrogate.
abbrev pub proper_entries : List ℕ → Bool
proper_entries [] = true
proper_entries (u ∷ us) = ltb u 0x10000 && not (leb 0xd800 u && leb u 0xdfff) && proper_entries us

get_or-proper :
    (tbl : List ℕ) (i : ℕ)
    → proper_entries tbl ≡ true
    → (get_or tbl i 0 < 0x10000)
      × ((leb 0xd800 (get_or tbl i 0) && leb (get_or tbl i 0) 0xdfff) ≡ false)
get_or-proper [] i h = (omega arith, refl)
get_or-proper (u ∷ us) zero h = (ground arith, ground arith)
get_or-proper (u ∷ us) (suc i) h = get_or-proper us i (ground arith)

replacement-IsCode :
    (u : ℕ)
    → u < 0x10000
    → (leb 0xd800 u && leb u 0xdfff) ≡ false
    → IsCode (or_replacement u) × (or_replacement u < 0x10000)
replacement-IsCode u h p = elim (Bool-cases (u == 0)) [
  | inl y ↦ rw y (record { small = omega arith; proper = refl }, omega arith)
  | inr n ↦ rw n (record { small = omega arith; proper = p }, h)
]

module _ (tbl : List ℕ) (h : proper_entries tbl ≡ true) where
  scan-from_single_byte : (p : List ℕ) → scan 0 0 0 (from_single_byte tbl p) ≡ true
  unfolding from_single_byte scan
  scan-from_single_byte [] = refl
  scan-from_single_byte (c ∷ p) = elim (Bool-cases (ltb c 0x80)) [
    | inl low ↦ rw low (rw low (scan-from_single_byte p))
    | inr high ↦
        let (small, proper) = get_or-proper tbl (c - 0x80) h in
        let (code, bound) = replacement-IsCode (get_or tbl (c - 0x80) 0) small proper in
        rw high (
          scan-put_utf8 (or_replacement (get_or tbl (c - 0x80) 0)) (from_single_byte tbl p) code
          ∙ scan-from_single_byte p)
  ]

  length-from_single_byte : (p : List ℕ) → length (from_single_byte tbl p) ≤ 3 * length p
  unfolding from_single_byte
  length-from_single_byte [] = omega arith
  length-from_single_byte (c ∷ p) = elim (Bool-cases (ltb c 0x80)) [
    | inl low ↦ rw low (omega (arith, length-from_single_byte p))
    | inr high ↦
        let u = or_replacement (get_or tbl (c - 0x80) 0) in
        let (small, proper) = get_or-proper tbl (c - 0x80) h in
        let (code, bound) = replacement-IsCode (get_or tbl (c - 0x80) 0) small proper in
        rw high (
          omega (
            arith,
            length-append (put_utf8 u) (from_single_byte tbl p),
            length-put_utf8 u bound,
            length-from_single_byte p,
          ))
  ]

-- The encodings that a table converts.
pub data IsLegacy : TextEnc → Type 0 where
  is_1251 : IsLegacy windows_1251
  is_866 : IsLegacy dos_866
  is_koi8 : IsLegacy koi8_r

-- Any text whatever in Windows-1251, CP866 or KOI8-R is converted to valid UTF-8, in no more than
-- the three bytes for each byte that are allocated.
pub converted-IsLegacy :
    (e : TextEnc) (p : List ℕ)
    → IsLegacy e
    → (textenc_is_utf8 (converted e p) ≡ true) × (length (converted e p) ≤ 3 * length p)
unfolding converted textenc_is_utf8
converted-IsLegacy e p is_1251 =
    (scan-from_single_byte cp1251 refl p, length-from_single_byte cp1251 refl p)
converted-IsLegacy e p is_866 =
    (scan-from_single_byte cp866 refl p, length-from_single_byte cp866 refl p)
converted-IsLegacy e p is_koi8 =
    (scan-from_single_byte koi8r refl p, length-from_single_byte koi8r refl p)
