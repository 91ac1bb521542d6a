-- ===== src/Storage/Compress/Cells.antt =====
-- How the encoders of lib/storage/compress.c read a row.
use napastak.Base.{
  ℕ, suc, ◌+◌, String, ◌≡◌, refl, ap, Option, none, some, List, [], ◌∷◌, if◌then◌else◌, length,
  get_or, zero, ◌<◌, false, arith,
}
use napastak.Storage.Batch.{Bitmap, null_bit, int64_min}

-- `null_bit(bm, i) ? INT64_MIN : vs[i]`, for every row from row `i` on.
unfoldable pub word_cells : Bitmap → ℕ → List ℕ → List ℕ
word_cells bm i [] = []
word_cells bm i (v ∷ vs) = (if null_bit bm i then int64_min else v) ∷ word_cells bm (i + 1) vs

abbrev pub or_empty : Option String → String
or_empty none = ""
or_empty (some s) = s

-- `(!null_bit(bm, i) && vs[i]) ? vs[i] : ""`, for every row from row `i` on.
unfoldable pub text_cells : Bitmap → ℕ → List (Option String) → List String
text_cells bm i [] = []
text_cells bm i (v ∷ vs) = (if null_bit bm i then "" else or_empty v) ∷ text_cells bm (i + 1) vs

pub length-word_cells :
    (bm : Bitmap) (i : ℕ) (vs : List ℕ) → length (word_cells bm i vs) ≡ length vs
unfolding word_cells
length-word_cells bm i [] = refl
length-word_cells bm i (v ∷ vs) = ap suc (length-word_cells bm (i + 1) vs)

pub length-text_cells :
    (bm : Bitmap) (i : ℕ) (vs : List (Option String)) → length (text_cells bm i vs) ≡ length vs
unfolding text_cells
length-text_cells bm i [] = refl
length-text_cells bm i (v ∷ vs) = ap suc (length-text_cells bm (i + 1) vs)

-- A row that is not null is read as it stands.
pub get_or-word_cells :
    (bm : Bitmap) (i k j d : ℕ) (vs : List ℕ)
    → k ≡ i + j
    → j < length vs
    → null_bit bm k ≡ false
    → get_or (word_cells bm i vs) j d ≡ get_or vs j d
unfolding word_cells
get_or-word_cells bm i k j d [] e h n = elim h [ ]
get_or-word_cells bm i k zero d (v ∷ vs) e h n =
    let e' : i ≡ k = omega arith in ground (arith, e', ap (null_bit bm) e')
get_or-word_cells bm i k (suc j) d (v ∷ vs) e h n =
    get_or-word_cells bm (i + 1) k j d vs (omega arith) (omega arith) n

pub get_or-text_cells :
    (bm : Bitmap) (i k j : ℕ) (vs : List (Option String))
    → k ≡ i + j
    → j < length vs
    → null_bit bm k ≡ false
    → get_or (text_cells bm i vs) j "" ≡ or_empty (get_or vs j none)
unfolding text_cells
get_or-text_cells bm i k j [] e h n = elim h [ ]
get_or-text_cells bm i k zero (v ∷ vs) e h n =
    let e' : i ≡ k = omega arith in ground (arith, ap (null_bit bm) e')
get_or-text_cells bm i k (suc j) (v ∷ vs) e h n =
    get_or-text_cells bm (i + 1) k j vs (omega arith) (omega arith) n
