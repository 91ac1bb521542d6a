-- ===== src/Storage/Compress/Sort.antt =====
-- The insertion sort and the signed order of `int64_t`, both used by `compress_choose_encoding` and
-- by `compress_col_dict_int` in lib/storage/compress.c.
pub mod Order
use napastak.Base.{ℕ, ◌+◌, ◌%◌, ◌^◌, Bool, List, [], ◌∷◌, ltb, if◌then◌else◌}

-- The signed order on 64-bit patterns is the order of the patterns with the sign bit flipped.
abbrev pub bias : ℕ → ℕ
bias w = (w + 2 ^ 63) % 2 ^ 64

unfoldable pub signed_lt : ℕ → ℕ → Bool
signed_lt a b = ltb (bias a) (bias b)

-- The inner loop: the sorted part of the array stands with its last element first, and each
-- element above `k` moves one place on.
unfoldable pub shift_in : ℕ → List ℕ → List ℕ
shift_in k [] = k ∷ []
shift_in k (y ∷ ys) = if signed_lt k y then y ∷ shift_in k ys else k ∷ y ∷ ys

unfoldable pub rev_onto {ℓ} : {A : Type ℓ} → List A → List A → List A
rev_onto [] acc = acc
rev_onto (y ∷ ys) acc = rev_onto ys (y ∷ acc)

-- The outer loop, over the elements that are not sorted yet.
unfoldable pub sort_from : List ℕ → List ℕ → List ℕ
sort_from done [] = rev_onto done []
sort_from done (k ∷ ks) = sort_from (shift_in k done) ks

unfoldable pub insertion_sort : List ℕ → List ℕ
unfolding sort_from shift_in rev_onto signed_lt
insertion_sort xs = sort_from [] xs
