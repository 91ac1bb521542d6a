-- ===== src/Core/TextEnc.antt =====
-- Text encodings, lib/core/textenc.c, on lists of bytes.
pub mod Tables
pub mod Utf8
pub mod Legacy
pub mod Utf16
pub mod Detect
mod Tests
use napastak.Base.{
  ℕ, zero, suc, ◌+◌, ◌-◌, ◌*◌, ◌/◌, ◌%◌, ◌^◌, Bool, true, false, not, ◌&&◌, ◌||◌, Option, none,
  some, List, [], ◌∷◌, ◌++◌, ltb, leb, ◌==◌, if◌then◌else◌, length, take, drop, get_or,
}
use napastak.Core.TextEnc.Tables.{cp1251, cp866, koi8r}

pub data TextEnc : Type 0 where
  unknown utf8 utf16le utf16be windows_1251 dos_866 koi8_r : TextEnc

abbrev pub utf8_mark : List ℕ → Bool
utf8_mark (a ∷ b ∷ c ∷ p) = a == 0xef && b == 0xbb && c == 0xbf
utf8_mark _ = false

abbrev pub utf16le_mark : List ℕ → Bool
utf16le_mark (a ∷ b ∷ p) = a == 0xff && b == 0xfe
utf16le_mark _ = false

abbrev pub utf16be_mark : List ℕ → Bool
utf16be_mark (a ∷ b ∷ p) = a == 0xfe && b == 0xff
utf16be_mark _ = false

unfoldable pub textenc_bom_len : List ℕ → ℕ
textenc_bom_len p =
    if utf8_mark p then 3 else if utf16le_mark p then 2 else if utf16be_mark p then 2 else 0

-- The test at the end of a sequence of `extra` bytes after the first.
abbrev pub is_bad : ℕ → ℕ → Bool
is_bad extra cp =
    (extra == 1 && ltb cp 0x80)
    || (extra == 2 && ltb cp 0x800)
    || (extra == 3 && ltb cp 0x10000)
    || ltb 0x10ffff cp
    || (leb 0xd800 cp && leb cp 0xdfff)

-- The loop of `textenc_is_utf8`, inside a sequence of which `left` bytes are to come; a sequence
-- that breaks off is refused at its end. The masks are written as quotients and remainders.
unfoldable pub scan : ℕ → ℕ → ℕ → List ℕ → Bool
scan extra zero cp [] = true
scan extra (suc left) cp [] = false
scan extra zero cp (c ∷ p) =
    let ascii = scan 0 0 0 p in
    let two = scan 1 1 (c % 0x20) p in
    let three = scan 2 2 (c % 0x10) p in
    let four = scan 3 3 (c % 0x08) p in
    if ltb c 0x80
    then ascii
    else if c / 0x20 == 6
    then two
    else if c / 0x10 == 14
    then three
    else if c / 0x08 == 30
    then four
    else false
scan extra (suc zero) cp (c ∷ p) =
    let next = scan 0 0 0 p in
    let code = cp * 0x40 + c % 0x40 in
    if not (c / 0x40 == 2) then false else if is_bad extra code then false else next
scan extra (suc (suc left)) cp (c ∷ p) =
    let next = scan extra (suc left) (cp * 0x40 + c % 0x40) p in
    if not (c / 0x40 == 2) then false else next

unfoldable pub textenc_is_utf8 : List ℕ → Bool
unfolding scan
textenc_is_utf8 p = scan 0 0 0 p

-- What is added to a score and what is taken off it.
unfoldable pub enc_score : List ℕ → List ℕ → ℕ × ℕ
enc_score tbl [] = (0, 0)
enc_score tbl (c ∷ p) =
    let (plus, minus) = enc_score tbl p in
    let u = get_or tbl (c - 0x80) 0 in
    if ltb c 0x80
    then (plus, minus)
    else if u == 0
    then (plus, minus + 4)
    else if leb 0x410 u && leb u 0x44f
    then (plus + 3, minus)
    else if u == 0x401 || u == 0x451
    then (plus + 3, minus)
    else if leb 0x2500 u && leb u 0x25ff
    then (plus, minus + 3)
    else (plus, minus + 1)

abbrev pub at_least : ℕ × ℕ → ℕ × ℕ → Bool
at_least (p, m) (q, k) = leb (q + m) (p + k)

abbrev pub positive : ℕ × ℕ → Bool
positive (p, m) = ltb m p

unfoldable pub has_high : List ℕ → Bool
has_high [] = false
has_high (c ∷ p) = if leb 0x80 c then true else has_high p

unfoldable pub textenc_detect : List ℕ → TextEnc
unfolding has_high textenc_is_utf8 enc_score
textenc_detect p =
    let probe = take 65536 p in
    let s1251 = enc_score cp1251 probe in
    let s866 = enc_score cp866 probe in
    let skoi = enc_score koi8r probe in
    if utf8_mark p
    then utf8
    else if utf16le_mark p
    then utf16le
    else if utf16be_mark p
    then utf16be
    else if not (has_high probe)
    then utf8
    else if textenc_is_utf8 probe
    then utf8
    else if at_least s1251 s866 && at_least s1251 skoi
    then if positive s1251 then windows_1251 else unknown
    else if at_least s866 skoi
    then if positive s866 then dos_866 else unknown
    else if positive skoi
    then koi8_r
    else unknown

unfoldable pub put_utf8 : ℕ → List ℕ
put_utf8 cp =
    if ltb cp 0x80
    then cp ∷ []
    else if ltb cp 0x800
    then (0xc0 + cp / 0x40) ∷ (0x80 + cp % 0x40) ∷ []
    else if ltb cp 0x10000
    then (0xe0 + cp / 0x1000) ∷ (0x80 + cp / 0x40 % 0x40) ∷ (0x80 + cp % 0x40) ∷ []
    else (0xf0 + cp / 0x40000)
      ∷ (0x80 + cp / 0x1000 % 0x40)
      ∷ (0x80 + cp / 0x40 % 0x40)
      ∷ (0x80 + cp % 0x40)
      ∷ []

abbrev pub or_replacement : ℕ → ℕ
or_replacement u = if u == 0 then 0xfffd else u

unfoldable pub from_single_byte : List ℕ → List ℕ → List ℕ
unfolding put_utf8
from_single_byte tbl [] = []
from_single_byte tbl (c ∷ p) =
    let rest = from_single_byte tbl p in
    if ltb c 0x80 then c ∷ rest else put_utf8 (or_replacement (get_or tbl (c - 0x80) 0)) ++ rest

abbrev pub unit : Bool → ℕ → ℕ → ℕ
unit little a b = if little then a + b * 0x100 else a * 0x100 + b

abbrev pub is_high : ℕ → Bool
is_high u = leb 0xd800 u && leb u 0xdbff

abbrev pub is_low : ℕ → Bool
is_low u = leb 0xdc00 u && leb u 0xdfff

abbrev pub combined : ℕ → ℕ → ℕ
combined u lo = 0x10000 + (u - 0xd800) * 0x400 + (lo - 0xdc00)

unfoldable pub from_utf16 : Bool → List ℕ → List ℕ
unfolding put_utf8
from_utf16 little [] = []
from_utf16 little (a ∷ []) = []
from_utf16 little (a ∷ b ∷ []) = put_utf8 (unit little a b)
from_utf16 little (a ∷ b ∷ c ∷ []) = put_utf8 (unit little a b)
from_utf16 little (a ∷ b ∷ c ∷ d ∷ p) =
    let single = put_utf8 (unit little a b) ++ from_utf16 little (c ∷ d ∷ p) in
    let pair = put_utf8 (combined (unit little a b) (unit little c d)) ++ from_utf16 little p in
    if is_high (unit little a b) && is_low (unit little c d) then pair else single

abbrev pub chosen : List ℕ → TextEnc → TextEnc
chosen p unknown = textenc_detect p
chosen p e = e

unfoldable pub converted : TextEnc → List ℕ → List ℕ
unfolding from_single_byte from_utf16
converted windows_1251 p = from_single_byte cp1251 p
converted dos_866 p = from_single_byte cp866 p
converted koi8_r p = from_single_byte koi8r p
converted utf16le p = from_utf16 true p
converted utf16be p = from_utf16 false p
converted _ p = p

-- The text and the encoding that was used.
unfoldable pub textenc_to_utf8 : List ℕ → TextEnc → List ℕ × TextEnc
unfolding textenc_bom_len textenc_detect converted
textenc_to_utf8 p enc =
    let used = chosen p enc in (converted used (drop (textenc_bom_len p) p), used)
