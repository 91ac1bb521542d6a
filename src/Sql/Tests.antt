-- ===== src/Sql/Tests.antt =====
-- Runs of lib/sql_template/sql_template.c and of the lexer of lib/sql_parser/sql.c, and instances of
-- what is proved of them.
use mathlib.Core.Option
use napastak.Base.{
  ℕ, ◌+◌, ◌<◌, ◌≡◌, ◌⊎◌, ◌↔◌, refl, Option, none, some, List, [], ◌∷◌, ◌++◌, arith, length,
}
use napastak.Sql.Keywords.{TkType, keywords}
use napastak.Sql.Lexer.{
  Token, token, is_space, is_digit, is_lower, is_alpha, is_word, to_upper, span, block_comment,
  number_part, exponent_part, lex_number, find_keyword, lex_word, lex_token, comment, skip_spaces,
  lex_at, lex_next,
}
use napastak.Sql.Lexer.Progress.{lex_next_lem}
use napastak.Sql.Template.{
  Jval, sql_quote_literal, doubled, placeholder, given, json_get, value_of, is_raw, json_str, piece,
  read_name, skip_close, done, substitute_from, sql_substitute_params, then_rest, prepend,
}
use napastak.Sql.Template.Quote.{Plain, lex_next-sql_quote_literal}
use napastak.Sql.Template.Parts.{sql_substitute_params-placeholder}

-- `-- a`, a new line, `Select 1.5e3`.
abbrev query : List ℕ
query =
    b'-' ∷ b'-' ∷ b'a' ∷ 10 ∷ b'S' ∷ b'e' ∷ b'l' ∷ b'e' ∷ b'c' ∷ b't' ∷ b' ' ∷ b'1' ∷ b'.' ∷ b'5'
    ∷ b'e' ∷ b'3' ∷ []

first_token :
    lex_next 2 query
    ≡ some (
      record { type = TkType.tk_select; text = b'S' ∷ b'e' ∷ b'l' ∷ b'e' ∷ b'c' ∷ b't' ∷ [] },
      b' ' ∷ b'1' ∷ b'.' ∷ b'5' ∷ b'e' ∷ b'3' ∷ [],
    )
unfolding lex_next skip_spaces span is_space lex_at comment lex_token is_digit is_alpha is_lower
    is_word lex_word to_upper find_keyword keywords
first_token = refl

second_token :
    lex_next 1 (b' ' ∷ b'1' ∷ b'.' ∷ b'5' ∷ b'e' ∷ b'3' ∷ [])
    ≡ some (record { type = TkType.tk_num_float; text = b'1' ∷ b'.' ∷ b'5' ∷ b'e' ∷ b'3' ∷ [] }, [])
unfolding lex_next skip_spaces span is_space lex_at comment lex_token is_digit lex_number
    number_part exponent_part
second_token = refl

-- A block comment that does not end leaves its last byte to be read.
open_comment : lex_next 2 (b'/' ∷ b'*' ∷ b'a' ∷ b'*' ∷ []) ≡ some (token TkType.tk_star, [])
unfolding lex_next skip_spaces span is_space lex_at comment block_comment lex_token
open_comment = refl

lex_next_lem_example :
    (t : Token × List ℕ) × (lex_next 17 query ≡ some t)
    × ((t ≡ (token TkType.tk_eof, [])) ⊎ (length t.1 < 16))
lex_next_lem_example = lex_next_lem 17 query (omega arith)

-- `d'x`
abbrev quoted : List ℕ
quoted = b'd' ∷ b'\'' ∷ b'x' ∷ []

lex_next-sql_quote_literal_example :
    (t : Token) × (lex_next 1 (sql_quote_literal (some quoted) ++ b';' ∷ []) ≡ some (t, b';' ∷ []))
    × (t.type ≡ TkType.tk_string)
    × ((t.text ≡ quoted) ↔ Plain quoted)
lex_next-sql_quote_literal_example =
    lex_next-sql_quote_literal quoted (b';' ∷ []) (λ e. omega (arith, e))

abbrev digits : ℕ → List ℕ
digits n = (48 + n) ∷ []

abbrev params : Option (List (List ℕ × Jval))
params = some ((b'a' ∷ [], Jval.string quoted) ∷ (b'b' ∷ [], Jval.number 5) ∷ [])

-- `x{a}y{b}`
substituted :
    sql_substitute_params digits params none
      (b'x' ∷ b'{' ∷ b'a' ∷ b'}' ∷ b'y' ∷ b'{' ∷ b'b' ∷ b'}' ∷ [])
    ≡ some (done (b'x' ∷ b'\'' ∷ b'd' ∷ b'\'' ∷ b'\'' ∷ b'x' ∷ b'\'' ∷ b'y' ∷ b'5' ∷ []))
unfolding sql_substitute_params substitute_from piece read_name skip_close placeholder given
    json_get value_of is_raw json_str sql_quote_literal doubled
substituted = refl

sql_substitute_params-placeholder_example :
    sql_substitute_params digits params none (b'x' ∷ b'{' ∷ b'a' ∷ b'}' ∷ b'y' ∷ [])
    ≡ Option.map (prepend (b'x' ∷ [])) (
        then_rest digits params none
          (placeholder digits params none (b'a' ∷ []))
          (sql_substitute_params digits params none (b'y' ∷ [])))
sql_substitute_params-placeholder_example =
    sql_substitute_params-placeholder digits params none (b'x' ∷ []) (b'a' ∷ []) (b'y' ∷ [])
      ((λ e. omega (arith, e)), tt)
      (omega arith, (((λ e. omega (arith, e)), (λ e. omega (arith, e))), tt))
