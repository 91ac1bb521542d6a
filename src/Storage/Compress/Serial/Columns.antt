-- ===== src/Storage/Compress/Serial/Columns.antt =====
-- What `compressed_batch_deserialize` of lib/storage/compress.c reads of a column that was written.
use mathlib.Core.Path.{subst}
use napastak.Base.{
  ℕ, ◌^◌, ◌<◌, ◌≡◌, refl, sym, ap, Bool, true, false, not, none, some, List, [], ◌++◌, arith, leb,
  length, take, take_all, All, All-mono, ◌==◌,
}
use napastak.Storage.Batch.{
  ColType, int64, double, text, bool, null, decimal, date, timestamp, Bitmap, null_bm_bytes,
  null_bm_bytes_exact,
}
use napastak.Storage.Compress.Dict.{Dict}
use napastak.Storage.Compress.Delta.{Deltas}
use napastak.Storage.Compress.Serial.{
  Reader, pure, ◌>>=◌, le, read_le, raw, many, read_codes, concat, type_code, type_of, code_size,
  flag, write_dict, read_dict, write_deltas, read_deltas, has_nulls, write_bitmap, read_bitmap,
}
use napastak.Storage.Compress.Serial.Reading.{
  Reads, Reads-pure, Reads-bind, Reads-map, Reads-le, Reads-below, Reads-raw, Reads-many_same,
  Reads-as, limit,
}

flag-not : (b : Bool) → not (flag b == 0) ≡ b
flag-not true = refl
flag-not false = refl

flag_lt : (b : Bool) → flag b < limit 1
flag_lt true = omega arith
flag_lt false = omega arith

-- Numbers that fit `k` bytes are read one by one.
pub Reads-numbers :
    (k n : ℕ) (l : List ℕ)
    → n ≡ length l
    → All (λ v. v < limit k) l
    → Reads (many n (read_le k)) (concat (le k) l) l
Reads-numbers k n l e h =
    Reads-many_same (read_le k) (le k) n l e
      (All-mono (λ v. v < limit k) (λ v. Reads (read_le k) (le k v) v) (Reads-le k) l h)

Reads-codes :
    (b : Bool) (n : ℕ) (l : List ℕ)
    → n < 2 ^ 30
    → n ≡ length l
    → All (λ v. v < limit (code_size b)) l
    → Reads (read_codes b n) (concat (le (code_size b)) l) l
unfolding read_codes
Reads-codes true n l few e h = Reads-numbers 1 n l e h
Reads-codes false n l few e h =
    let no : leb (2 ^ 30) n ≡ false = ground (arith, few) in rw no (Reads-numbers 2 n l e h)

-- A dictionary that fits the format, with values that satisfy `P`.
abbrev pub IsDict : {A : Type 0} → (A → Type 0) → ℕ → Dict A → Type 0
IsDict P nrows d =
    (length d.values < 2 ^ 31)
    × All P d.values
    × (nrows < 2 ^ 30)
    × (nrows ≡ length d.codes)
    × All (λ v. v < limit (code_size d.is_u8)) d.codes

module _ {A : Type 0} (r : Reader A) (w : A → List ℕ) (P : A → Type 0)
    (each : (a : A) → P a → Reads r (w a) a) where
  dict_rest : ℕ → ℕ → Bool → Reader (Dict A)
  dict_rest n nrows b = many n r >>= (λ vs.
      read_codes b nrows >>= (λ cs. pure (record { values = vs; is_u8 = b; codes = cs })))

  Reads-dict_rest :
      (nrows : ℕ) (d : Dict A)
      → IsDict P nrows d
      → Reads
          (dict_rest (length d.values) nrows d.is_u8)
          (concat w d.values ++ concat (le (code_size d.is_u8)) (take nrows d.codes))
          d
  unfolding dict_rest
  Reads-dict_rest nrows d (l, v, few, e, c) =
      Reads-bind
        (λ vs.
          read_codes d.is_u8 nrows
          >>= (λ cs. pure (record { values = vs; is_u8 = d.is_u8; codes = cs })))
        (Reads-many_same r w (length d.values) d.values refl
          (All-mono P (λ a. Reads r (w a) a) each d.values v))
        (Reads-as
          (ap (concat (le (code_size d.is_u8))) (sym (take_all nrows d.codes (omega (arith, e)))))
          (Reads-map (λ cs. record { values = d.values; is_u8 = d.is_u8; codes = cs })
            (Reads-codes d.is_u8 nrows d.codes few e c)))

  pub Reads-dict :
      (nrows : ℕ) (d : Dict A)
      → IsDict P nrows d
      → Reads (read_dict r nrows) (write_dict w nrows d) d
  unfolding read_dict write_dict dict_rest
  Reads-dict nrows d h =
      Reads-bind (λ n. read_le 1 >>= (λ u. dict_rest n nrows (not (u == 0))))
        (Reads-below (2 ^ 31) (length d.values) h.0 (omega (arith, h.0)))
        (Reads-bind (λ u. dict_rest (length d.values) nrows (not (u == 0)))
          (Reads-le 1 (flag d.is_u8) (flag_lt d.is_u8))
          (subst
            (λ b.
              Reads (dict_rest (length d.values) nrows b)
                (concat w d.values ++ concat (le (code_size d.is_u8)) (take nrows d.codes)) d)
            (sym (flag-not d.is_u8)) (Reads-dict_rest nrows d h)))

abbrev pub IsDeltas : ℕ → Deltas → Type 0
IsDeltas nrows d =
    (d.base_value < limit 8)
    × ((l : List ℕ) × (d.deltas ≡ some l) × (nrows ≡ length l) × All (λ v. v < limit 4) l)

write_deltas_all :
    (nrows : ℕ) (d : Deltas) (l : List ℕ)
    → d.deltas ≡ some l
    → nrows ≡ length l
    → le 8 d.base_value ++ concat (le 4) l ≡ write_deltas nrows d
unfolding write_deltas
write_deltas_all nrows d l e n = rw (e, take_all nrows l (omega (arith, n))) refl

with_deltas :
    (d : Deltas) (l : List ℕ)
    → d.deltas ≡ some l
    → record { base_value = d.base_value; deltas = some l } ≡ d
with_deltas d l e = ap (λ o. record { base_value = d.base_value; deltas = o }) (sym e)

pub Reads-deltas :
    (nrows : ℕ) (d : Deltas) → IsDeltas nrows d → Reads (read_deltas nrows) (write_deltas nrows d) d
unfolding read_deltas
Reads-deltas nrows d (b, (l, e, n, h)) =
    subst (Reads (read_deltas nrows) (write_deltas nrows d)) (with_deltas d l e) (
      Reads-as (write_deltas_all nrows d l e n) (
        Reads-bind
          (λ b. many nrows (read_le 4) >>= (λ l. pure (record { base_value = b; deltas = some l })))
          (Reads-le 8 d.base_value b)
          (Reads-map (λ l. record { base_value = d.base_value; deltas = some l })
            (Reads-numbers 4 nrows l n h))))

pub Reads-type : (t : ColType) → Reads (type_of (type_code t)) [] t
unfolding type_of
Reads-type int64 = Reads-pure int64
Reads-type double = Reads-pure double
Reads-type text = Reads-pure text
Reads-type bool = Reads-pure bool
Reads-type null = Reads-pure null
Reads-type decimal = Reads-pure decimal
Reads-type date = Reads-pure date
Reads-type timestamp = Reads-pure timestamp

pub type_code_lt : (t : ColType) → type_code t < limit 1
type_code_lt int64 = omega arith
type_code_lt double = omega arith
type_code_lt text = omega arith
type_code_lt bool = omega arith
type_code_lt null = omega arith
type_code_lt decimal = omega arith
type_code_lt date = omega arith
type_code_lt timestamp = omega arith

abbrev pub IsBitmap : ℕ → Bitmap → Type 0
IsBitmap nrows none = Unit
IsBitmap nrows (some bm) = length bm ≡ null_bm_bytes nrows

null_bm_bytes_lt : (nrows : ℕ) → nrows < 2 ^ 28 → null_bm_bytes nrows < limit 4
null_bm_bytes_lt nrows h =
    let exact = null_bm_bytes_exact nrows (omega (arith, h)) in omega (arith, h, exact)

Reads-bitmap_some :
    (nrows : ℕ) (bm : List ℕ)
    → nrows < 2 ^ 28
    → length bm ≡ null_bm_bytes nrows
    → Reads
        (read_le 4 >>= (λ k. raw k >>= (λ b. pure (some b))))
        (le 4 (null_bm_bytes nrows) ++ take (null_bm_bytes nrows) bm)
        (some bm)
Reads-bitmap_some nrows bm l h =
    Reads-bind (λ k. raw k >>= (λ b. pure (some b)))
      (Reads-le 4 (null_bm_bytes nrows) (null_bm_bytes_lt nrows l))
      (Reads-map some (
        Reads-as (sym (take_all (null_bm_bytes nrows) bm (omega (arith, h))))
          (subst (λ n. Reads (raw n) bm bm) h (Reads-raw bm))))

pub Reads-bitmap :
    (nrows : ℕ) (bm : Bitmap)
    → nrows < 2 ^ 28
    → IsBitmap nrows bm
    → Reads (read_bitmap (has_nulls bm)) (write_bitmap nrows bm) bm
unfolding read_bitmap write_bitmap
Reads-bitmap nrows none l h = Reads-pure none
Reads-bitmap nrows (some bm) l h = Reads-bitmap_some nrows bm l h
