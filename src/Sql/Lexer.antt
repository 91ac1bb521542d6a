-- ===== src/Sql/Lexer.antt =====
-- The lexer of lib/sql_parser/sql.c: `lex_next` on the bytes that are left. A token has the bytes
-- from its `start`; the number in it, by `strtod` or `strtoll`, is left to them.

pub mod Progress
use napastak.Base.{
  same, ℕ, zero, suc, ◌+◌, ◌-◌, ◌≤◌, ◌<◌, Bool, true, false, not, ◌&&◌, ◌||◌, Option, none, some,
  List, [], ◌∷◌, ◌++◌, map, ltb, leb, ◌==◌, if◌then◌else◌, length, take,
}
use napastak.Sql.Keywords.{TkType, keywords}

pub record Token : Type 0 where
  pub type : TkType
  pub text : List ℕ

abbrev pub token : TkType → Token
token t = record { type = t; text = [] }

unfoldable pub is_space : ℕ → Bool
is_space c = c == 32 || leb 9 c && leb c 13

unfoldable pub is_digit : ℕ → Bool
is_digit c = leb b'0' c && leb c b'9'

unfoldable pub is_lower : ℕ → Bool
is_lower c = leb b'a' c && leb c b'z'

unfoldable pub is_alpha : ℕ → Bool
unfolding is_lower
is_alpha c = is_lower c || leb b'A' c && leb c b'Z'

unfoldable pub is_word : ℕ → Bool
unfolding is_alpha is_digit
is_word c = is_alpha c || is_digit c || c == b'_'

unfoldable pub to_upper : ℕ → ℕ
unfolding is_lower
to_upper c = if is_lower c then c - 32 else c

-- What a loop `while (p(c)) pos++` passes over, and what it leaves.
unfoldable pub span : (ℕ → Bool) → List ℕ → List ℕ × List ℕ
span p [] = ([], [])
span p (c ∷ q) = let (a, b) = span p q in if p c then (c ∷ a, b) else ([], c ∷ q)

-- After a block comment has begun. One that does not end leaves the last byte of the text.
unfoldable pub block_comment : List ℕ → List ℕ
block_comment [] = []
block_comment (c ∷ []) = c ∷ []
block_comment (c ∷ d ∷ q) =
    let rest = block_comment (d ∷ q) in if c == b'*' && d == b'/' then q else rest

-- The rest after a closing mark, where there is one.
abbrev pub skip_one : List ℕ → List ℕ
skip_one [] = []
skip_one (c ∷ q) = q

-- The text of a string, with its quotes doubled as they stand, and what follows it; `pending` tells
-- that the last byte was a quote, which may close it or be the first of two.
unfoldable pub string_body : Bool → List ℕ → List ℕ × List ℕ
string_body pending [] = ([], [])
string_body false (c ∷ q) =
    let (a, b) = string_body (c == b'\'') q in if c == b'\'' then (a, b) else (c ∷ a, b)
string_body true (c ∷ q) =
    let (a, b) = string_body false q in if c == b'\'' then (b'\'' ∷ b'\'' ∷ a, b) else ([], c ∷ q)

-- The digits of a number, with one point at most: whether there was one, the text, the rest.
unfoldable pub number_part : Bool → List ℕ → Bool × List ℕ × List ℕ
unfolding is_digit
number_part has_dot [] = (has_dot, [], [])
number_part has_dot (c ∷ q) =
    let (h, a, b) = number_part (has_dot || c == b'.') q in
    if is_digit c || c == b'.' && not has_dot then (h, c ∷ a, b) else (has_dot, [], c ∷ q)

abbrev pub is_exp : ℕ → Bool
is_exp c = c == b'e' || c == b'E'

abbrev pub sign_part : List ℕ → List ℕ × List ℕ
sign_part [] = ([], [])
sign_part (c ∷ q) = if c == b'+' || c == b'-' then (c ∷ [], q) else ([], c ∷ q)

-- The exponent of a number, if there is one.
unfoldable pub exponent_part : List ℕ → Option (List ℕ × List ℕ)
unfolding span is_digit
exponent_part [] = none
exponent_part (c ∷ q) =
    let (s, r) = sign_part q in
    let (d, rest) = span is_digit r in if is_exp c then some (c ∷ s ++ d, rest) else none

unfoldable pub lex_number : List ℕ → Token × List ℕ
unfolding number_part exponent_part
lex_number q =
    let (h, a, b) = number_part false q in
    elim (exponent_part b) [
      | some (e, rest) ↦ (record { type = TkType.tk_num_float; text = a ++ e }, rest)
      | none ↦ (record { type = if h then TkType.tk_num_float else TkType.tk_num_int; text = a }, b)
    ]

unfoldable pub find_keyword : List ℕ → List (List ℕ × TkType) → TkType
find_keyword w [] = TkType.tk_ident
find_keyword w ((k, t) ∷ ks) = let rest = find_keyword w ks in if same k w then t else rest

-- A word of more than 127 bytes is looked up by its first 127.
unfoldable pub lex_word : List ℕ → Token × List ℕ
unfolding span is_word to_upper find_keyword keywords
lex_word q =
    let (w, rest) = span is_word q in
    (record { type = find_keyword (map to_upper (take 127 w)) keywords; text = w }, rest)

-- The tokens `<`, `<=` and their like: the one, the one with `=`, and for `<` the one with `>`.
abbrev pub with_eq : TkType → TkType → List ℕ → Token × List ℕ
with_eq t u [] = (token t, [])
with_eq t u (c ∷ q) = if c == b'=' then (token u, q) else (token t, c ∷ q)

abbrev pub less : List ℕ → Token × List ℕ
less [] = (token TkType.tk_lt, [])
less (c ∷ q) =
    if c == b'='
    then (token TkType.tk_le, q)
    else if c == b'>'
    then (token TkType.tk_ne, q)
    else (token TkType.tk_lt, c ∷ q)

abbrev pub bar : List ℕ → Token × List ℕ
bar [] = (token TkType.tk_error, [])
bar (c ∷ q) = if c == b'|' then (token TkType.tk_concat, q) else (token TkType.tk_error, c ∷ q)

unfoldable pub quoted_ident : ℕ → List ℕ → Token × List ℕ
unfolding span
quoted_ident close q =
    let (a, b) = span (λ c. not (c == close)) q in
    (record { type = TkType.tk_ident; text = a }, skip_one b)

unfoldable pub lex_string : List ℕ → Token × List ℕ
unfolding string_body
lex_string q = let (a, b) = string_body false q in (record { type = TkType.tk_string; text = a }, b)

-- The cases of the `switch` that end at once, and what follows it: byte `c` with `q` after it.
unfoldable pub lex_token : ℕ → List ℕ → Token × List ℕ
unfolding quoted_ident lex_string is_digit lex_number is_alpha lex_word
lex_token c q =
    if c == b'*'
    then (token TkType.tk_star, q)
    else if c == b','
    then (token TkType.tk_comma, q)
    else if c == b'.'
    then (token TkType.tk_dot, q)
    else if c == b'('
    then (token TkType.tk_lparen, q)
    else if c == b')'
    then (token TkType.tk_rparen, q)
    else if c == b'+'
    then (token TkType.tk_plus, q)
    else if c == b'-'
    then (token TkType.tk_minus, q)
    else if c == b'/'
    then (token TkType.tk_slash, q)
    else if c == b'%'
    then (token TkType.tk_percent, q)
    else if c == b';'
    then (token TkType.tk_semicolon, q)
    else if c == b'='
    then (token TkType.tk_eq, q)
    else if c == b'<'
    then less q
    else if c == b'>'
    then with_eq TkType.tk_gt TkType.tk_ge q
    else if c == b'!'
    then with_eq TkType.tk_error TkType.tk_ne q
    else if c == b'|'
    then bar q
    else if c == b'"' || c == b'`'
    then quoted_ident c q
    else if c == b'\''
    then lex_string q
    else if is_digit c
    then lex_number (c ∷ q)
    else if is_alpha c || c == b'_'
    then lex_word (c ∷ q)
    else (token TkType.tk_error, q)

-- A comment at byte `c`, and what is left after it.
unfoldable pub comment : ℕ → List ℕ → Option (List ℕ)
unfolding span block_comment
comment c [] = none
comment c (d ∷ q) =
    if c == b'-' && d == b'-'
    then some (span (λ e. not (e == 10)) (d ∷ q)).1
    else if c == b'/' && d == b'*'
    then some (block_comment q)
    else none

unfoldable pub skip_spaces : List ℕ → List ℕ
unfolding span is_space
skip_spaces q = (span is_space q).1

-- One round of `lex_next`: a token with the rest, or the rest after a comment.
pub data Round : Type 0 where
  found : Token × List ℕ → Round
  again : List ℕ → Round

unfoldable pub lex_at : List ℕ → Round
unfolding comment lex_token
lex_at [] = found (token TkType.tk_eof, [])
lex_at (c ∷ q) = elim (comment c q) [ none ↦ found (lex_token c q) | some rest ↦ again rest ]

-- `lex_next` with fewer than `n` comments before the token; `none` where there are more.
unfoldable pub lex_next : ℕ → List ℕ → Option (Token × List ℕ)
unfolding skip_spaces lex_at
lex_next zero q = none
lex_next (suc n) q = elim (lex_at (skip_spaces q)) [
  | found t ↦ some t
  | again rest ↦ lex_next n rest
]
