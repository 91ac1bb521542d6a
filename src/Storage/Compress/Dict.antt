-- ===== src/Storage/Compress/Dict.antt =====
-- Dictionary encoding: `compress_col_dict_int`, `compress_col_dict_text` and the ENC_DICT case of
-- `decompress_col` in lib/storage/compress.c.
pub mod Search
pub mod Collect
pub mod Roundtrip
use napastak.Base.{
  ℕ, zero, suc, ◌+◌, ◌-◌, ◌/◌, ◌%◌, ◌^◌, String, Bool, true, false, Option, none, some, List, [],
  ◌∷◌, ◌++◌, map, ltb, leb, ◌==◌, if◌then◌else◌, Eq, nat_eq, string_eq, length, get_or,
}
use napastak.Storage.Batch.{Bitmap, null_bit}
use napastak.Storage.Compress.Cells.{text_cells}
use napastak.Storage.Compress.Sort.{signed_lt, insertion_sort}

-- The bound on the dictionary, so that a code fits a `uint16_t`.
abbrev pub max_dict : ℕ
max_dict = 65535

-- `dict_values`, `dict_is_u8` and `dict_codes`; the length of `values` is `dict_size`.
pub record Dict {ℓ} (A : Type ℓ) : Type ℓ where
  pub values : List A
  pub is_u8 : Bool
  pub codes : List ℕ

-- The rows that the integer encoder looks at: it passes over a null row.
unfoldable pub int_cells : Bitmap → ℕ → List ℕ → List (Option ℕ)
int_cells bm i [] = []
int_cells bm i (v ∷ vs) = (if null_bit bm i then none else some v) ∷ int_cells bm (i + 1) vs

module _ {ℓ} {A : Type ℓ} ⦃e : Eq A⦄ where
  unfoldable pub contains : List A → A → Bool
  contains [] v = false
  contains (x ∷ xs) v = let rest = contains xs v in if e.beq x v then true else rest

  -- Gathers the distinct values in order of appearance; `none` when there are too many.
  unfoldable pub collect : List A → List (Option A) → Option (List A)
  unfolding contains
  collect uniq [] = some uniq
  collect uniq (none ∷ cs) = collect uniq cs
  collect uniq (some v ∷ cs) =
      let seen = collect uniq cs in
      let added = collect (uniq ++ v ∷ []) cs in
      if contains uniq v then seen else if leb max_dict (length uniq) then none else added

  -- The linear search of the text encoder, from code `j` on; it always finds a collected value.
  unfoldable pub linear_search : List A → A → ℕ → ℕ
  linear_search [] v j = j
  linear_search (x ∷ xs) v j =
      let rest = linear_search xs v (j + 1) in if e.beq x v then j else rest

-- The binary search of the integer encoder over `[lo, hi)`; the code's `hi` is one less than this
-- one. Each round leaves a smaller interval, so the dictionary's size is fuel enough.
unfoldable pub binary_search : ℕ → List ℕ → ℕ → ℕ → ℕ → ℕ
binary_search zero uniq v lo hi = 0
binary_search (suc fuel) uniq v lo hi =
    let m = (lo + hi - 1) / 2 in
    let right = binary_search fuel uniq v (m + 1) hi in
    let left = binary_search fuel uniq v lo m in
    if ltb lo hi
    then if get_or uniq m 0 == v then m else if signed_lt (get_or uniq m 0) v then right else left
    else 0

-- The width of a code, `uint8_t` or `uint16_t`.
unfoldable pub narrow : Bool → ℕ → ℕ
narrow true c = c % 2 ^ 8
narrow false c = c % 2 ^ 16

unfoldable pub code_cells {ℓ} : {A : Type ℓ} → Bool → (A → ℕ) → List (Option A) → List ℕ
unfolding narrow
code_cells u8 find [] = []
code_cells u8 find (none ∷ cs) = 0 ∷ code_cells u8 find cs
code_cells u8 find (some v ∷ cs) = narrow u8 (find v) ∷ code_cells u8 find cs

-- The sorted dictionary with a code for each row; `none` is the -1 of the code.
abbrev pub int_dict : List ℕ → List (Option ℕ) → Dict ℕ
int_dict uniq cs =
    let n = length uniq in
    record {
      values = uniq;
      is_u8 = leb n 256;
      codes = code_cells (leb n 256) (λ v. binary_search n uniq v 0 n) cs;
    }

unfoldable pub dict_int : List (Option ℕ) → Option (Dict ℕ)
unfolding collect insertion_sort binary_search code_cells
dict_int cs = elim (collect [] cs) [
  | none ↦ none
  | some uniq ↦ some (int_dict (insertion_sort uniq) cs)
]

abbrev pub text_dict : List String → List (Option String) → Dict String
text_dict uniq cs =
    let n = length uniq in
    record {
      values = uniq;
      is_u8 = leb n 256;
      codes = code_cells (leb n 256) (λ v. linear_search uniq v 0) cs;
    }

-- A null text is the empty text here, so every row has a value.
unfoldable pub dict_text : List String → Option (Dict String)
unfolding collect linear_search code_cells
dict_text cs =
    let cells = map some cs in
    elim (collect [] cells) [ none ↦ none | some uniq ↦ some (text_dict uniq cells) ]

-- `out[i] = dv[codes[i]]`; `d` stands for a read outside the dictionary.
unfoldable pub dict_decode {ℓ} : {A : Type ℓ} → A → Dict A → List A
dict_decode d c = map (λ k. get_or c.values k d) c.codes
