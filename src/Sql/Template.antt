-- ===== src/Sql/Template.antt =====
-- The templates of lib/sql_template/sql_template.c. The arena's buffers are values here; a text is
-- the list of its bytes, none of which is 0.

pub mod Quote
pub mod Parts
use mathlib.Core.Option
use napastak.Base.{
  same, ℕ, zero, suc, ◌+◌, ◌≤◌, ◌<◌, Bool, true, false, not, ◌&&◌, ◌||◌, Option, none, some, List,
  [], ◌∷◌, ◌++◌, ltb, ◌==◌, if◌then◌else◌, length, drop, ◌-◌,
}

-- A quote in the text is doubled.
unfoldable pub doubled : List ℕ → List ℕ
doubled [] = []
doubled (c ∷ s) = if c == b'\'' then c ∷ c ∷ doubled s else c ∷ doubled s

-- A null text is the empty one.
unfoldable pub sql_quote_literal : Option (List ℕ) → List ℕ
unfolding doubled
sql_quote_literal none = b'\'' ∷ b'\'' ∷ []
sql_quote_literal (some s) = b'\'' ∷ doubled s ++ b'\'' ∷ []

-- A value of lib/core/json.c by the `type` that is asked for here; `null`, arrays and objects are
-- `other`. A number is the bit pattern of its double.
pub data Jval : Type 0 where
  number : ℕ → Jval
  boolean : Bool → Jval
  string : List ℕ → Jval
  other : Jval

-- `json_get` on the members of an object, the first with the key.
unfoldable pub json_get : List (List ℕ × Jval) → List ℕ → Option Jval
json_get [] key = none
json_get ((k, v) ∷ ps) key = let rest = json_get ps key in if same k key then some v else rest

unfoldable pub json_str : Jval → List ℕ
json_str (string s) = s
json_str _ = []

-- The name of a placeholder, of at most `n` bytes, and what follows it.
unfoldable pub read_name : ℕ → List ℕ → List ℕ × List ℕ
read_name zero q = ([], q)
read_name (suc n) [] = ([], [])
read_name (suc n) (c ∷ q) =
    let (a, b) = read_name n q in if c == b'}' then ([], c ∷ q) else (c ∷ a, b)

-- `if (*q == '}') q++`.
unfoldable pub skip_close : List ℕ → List ℕ
skip_close [] = []
skip_close (c ∷ q) = if c == b'}' then q else c ∷ q

abbrev pub raw_suffix : List ℕ
raw_suffix = b'_' ∷ b'r' ∷ b'a' ∷ b'w' ∷ []

unfoldable pub is_raw : List ℕ → Bool
is_raw name = ltb 4 (length name) && same (drop (length name - 4) name) raw_suffix

-- Why there is no text: a computed parameter without a resolver or one that the resolver refuses,
-- or a parameter that is not given.
pub data Refusal : Type 0 where
  no_context refused unresolved : List ℕ → Refusal

pub data Substituted : Type 0 where
  done : List ℕ → Substituted
  failed : Refusal → Substituted

abbrev pub prepend : List ℕ → Substituted → Substituted
prepend s (done t) = done (s ++ t)
prepend s (failed r) = failed r

-- What stands at byte `c` with `q` after it: a byte for the result, or a placeholder.
pub data Piece : Type 0 where
  literal : ℕ → List ℕ → Piece
  named : List ℕ → List ℕ → Piece

unfoldable pub piece : ℕ → List ℕ → Piece
unfolding read_name skip_close
piece c [] = if c == b'{' then named [] [] else literal c []
piece c (d ∷ q) =
    if not (c == b'{')
    then literal c (d ∷ q)
    else if d == b'{'
    then literal b'{' q
    else let (name, rest) = read_name 255 (d ∷ q) in named name (skip_close rest)

-- `format_double` is what `snprintf` prints for a number, `%lld` where it is integral and `%.17g`
-- where it is not.
module _ (format_double : ℕ → List ℕ) (params : Option (List (List ℕ × Jval)))
    (resolver : Option (List ℕ → Option (List ℕ))) where
  unfoldable pub value_of : List ℕ → Jval → List ℕ
  unfolding is_raw sql_quote_literal json_str
  value_of name (number n) = format_double n
  value_of name (boolean true) = b't' ∷ b'r' ∷ b'u' ∷ b'e' ∷ []
  value_of name (boolean false) = b'f' ∷ b'a' ∷ b'l' ∷ b's' ∷ b'e' ∷ []
  value_of name v = if is_raw name then json_str v else sql_quote_literal (some (json_str v))

  unfoldable pub computed : List ℕ → Substituted
  computed name = elim resolver [
    | none ↦ failed (no_context (b'@' ∷ name))
    | some f ↦ elim (f name) [ none ↦ failed (refused name) | some v ↦ done v ]
  ]

  unfoldable pub given : List ℕ → Substituted
  unfolding json_get value_of
  given name = elim params [
    | none ↦ failed (unresolved name)
    | some ps ↦ elim (json_get ps name) [
      | none ↦ failed (unresolved name)
      | some v ↦ done (value_of name v)
    ]
  ]

  unfoldable pub placeholder : List ℕ → Substituted
  unfolding computed given
  placeholder [] = given []
  placeholder (c ∷ name) = if c == b'@' then computed name else given (c ∷ name)

  -- The value of a placeholder, then the rest.
  abbrev pub then_rest : Substituted → Option Substituted → Option Substituted
  then_rest (failed r) rest = some (failed r)
  then_rest (done v) rest = Option.map (prepend v) rest

  -- A piece, with what `rest_from` makes of the rest.
  abbrev pub joined : Piece → (List ℕ → Option Substituted) → Option Substituted
  joined (literal c rest) rest_from = Option.map (prepend (c ∷ [])) (rest_from rest)
  joined (named name rest) rest_from = then_rest (placeholder name) (rest_from rest)

  -- The loop, for at most `n` bytes and placeholders; `none` where that is not enough.
  unfoldable pub substitute_from : ℕ → List ℕ → Option Substituted
  unfolding piece placeholder
  substitute_from zero q = none
  substitute_from (suc n) [] = some (done [])
  substitute_from (suc n) (c ∷ q) = joined (piece c q) (substitute_from n)

  unfoldable pub sql_substitute_params : List ℕ → Option Substituted
  unfolding substitute_from
  sql_substitute_params sql = substitute_from (suc (length sql)) sql
