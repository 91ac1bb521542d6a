-- ===== src/Storage/Compress/Choose.antt =====
-- `compress_choose_encoding` of lib/storage/compress.c.
pub mod Laws
use napastak.Base.{
  ℕ, zero, suc, ◌+◌, ◌-◌, ◌/◌, ◌^◌, String, Bool, true, false, ◌&&◌, Option, none, some, List, [],
  ◌∷◌, ◌++◌, ltb, leb, ◌==◌, if◌then◌else◌, length, take, Eq, nat_eq, string_eq, not,
}
use napastak.Storage.Batch.{
  ColType, int64, double, text, bool, Values, Bitmap, null_bit, word_rows, string_rows,
}
use napastak.Storage.Compress.Cells.{or_empty}
use napastak.Storage.Compress.Sort.{insertion_sort}
use napastak.Storage.Compress.Delta.{difference, too_wide}
use napastak.Storage.Compress.Dict.{contains}

pub data Encoding : Type 0 where
  plain rle dict delta : Encoding

-- `tmp[0 .. sn)`: the values of the sample that are not null.
unfoldable pub non_null : Bitmap → ℕ → List ℕ → List ℕ
non_null bm i [] = []
non_null bm i (v ∷ vs) =
    let rest = non_null bm (i + 1) vs in if null_bit bm i then rest else v ∷ rest

-- One for each element that differs from the one before it.
unfoldable pub changes : ℕ → List ℕ → ℕ
changes prev [] = 0
changes prev (x ∷ xs) = let rest = changes x xs in if x == prev then rest else suc rest

unfoldable pub count_unique : List ℕ → ℕ
unfolding changes
count_unique [] = 0
count_unique (x ∷ xs) = suc (changes x xs)

-- The test that no two neighbours, both not null, are too far apart; `prev` stands in row `i - 1`.
unfoldable pub monotonic : Bitmap → ℕ → ℕ → List ℕ → Bool
monotonic bm i prev [] = true
monotonic bm i prev (v ∷ vs) =
    let rest = monotonic bm (i + 1) v vs in
    if not (null_bit bm i) && not (null_bit bm (i - 1)) && too_wide (difference v prev)
    then false
    else rest

unfoldable pub is_monotonic : Bitmap → List ℕ → Bool
unfolding monotonic
is_monotonic bm [] = true
is_monotonic bm (v ∷ vs) = monotonic bm 1 v vs

abbrev pub sample_rows : ℕ
sample_rows = 1000

unfoldable pub choose_int : Bitmap → List ℕ → Encoding
unfolding non_null count_unique insertion_sort is_monotonic
choose_int bm vs =
    let sample = take sample_rows vs in
    let uniq = count_unique (insertion_sort (non_null bm 0 sample)) in
    if ltb uniq 256
    then dict
    else if ltb uniq 65536
    then dict
    else if is_monotonic bm sample
    then delta
    else plain

-- The number of runs after the first row.
unfoldable pub text_changes : String → List String → ℕ
text_changes prev [] = 0
text_changes prev (x ∷ xs) =
    let rest = text_changes x xs in if string_eq.beq prev x then rest else suc rest

unfoldable pub text_runs : List String → ℕ
unfolding text_changes
text_runs [] = 1
text_runs (x ∷ xs) = suc (text_changes x xs)

-- The number of texts that were not among the at most 256 remembered before them.
unfoldable pub unseen : List String → List String → ℕ
unfolding contains
unseen seen [] = 0
unseen seen (s ∷ ss) =
    let old = unseen seen ss in
    let new = suc (unseen (if ltb (length seen) 256 then seen ++ s ∷ [] else seen) ss) in
    if contains seen s then old else new

or_empties : List (Option String) → List String
or_empties [] = []
or_empties (v ∷ vs) = or_empty v ∷ or_empties vs

unfoldable pub choose_text : List (Option String) → Encoding
unfolding text_runs unseen or_empties
choose_text vs =
    let sample = or_empties (take sample_rows vs) in
    if leb (text_runs sample) (length sample / 3)
    then rle
    else if ltb (unseen [] sample) 256
    then dict
    else plain

-- The number of rows is the length of the column.
unfoldable pub choose_encoding : Values → Bitmap → ℕ → ColType → Encoding
unfolding choose_int choose_text
choose_encoding vs bm zero type = plain
choose_encoding vs bm (suc n) double = plain
choose_encoding vs bm (suc n) bool = rle
choose_encoding vs bm (suc n) int64 = choose_int bm (word_rows vs)
choose_encoding vs bm (suc n) text = choose_text (string_rows vs)
choose_encoding vs bm (suc n) _ = plain
