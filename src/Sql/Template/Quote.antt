-- ===== src/Sql/Template/Quote.antt =====
-- The literal that `sql_quote_literal` of lib/sql_template/sql_template.c writes, as `lex_next` of
-- lib/sql_parser/sql.c reads it.
use mathlib.Core.List.{append_assoc}
use napastak.Base.{
  ℕ, ◌≤◌, ◌≡◌, ◌≢◌, ◌↔◌, inl, inr, refl, ap, false, none, some, List, [], ◌∷◌, ◌++◌, ◌==◌, length,
  arith, Bool-cases, All,
}
use napastak.Sql.Keywords.{TkType}
use napastak.Sql.Lexer.{
  Token, is_space, span, string_body, lex_string, lex_token, comment, skip_spaces, lex_at, lex_next,
  found,
}
use napastak.Sql.Template.{doubled, sql_quote_literal}

-- No further quote at the front.
abbrev pub Unquoted : List ℕ → Type 0
Unquoted [] = Unit
Unquoted (c ∷ q) = c ≢ b'\''

string_body-doubled :
    (s rest : List ℕ)
    → Unquoted rest
    → string_body false (doubled s ++ b'\'' ∷ rest) ≡ (doubled s, rest)
unfolding string_body doubled
string_body-doubled [] [] h = refl
string_body-doubled [] (c ∷ q) h = ground arith
string_body-doubled (c ∷ s) rest h = let ih = string_body-doubled s rest h in ground (arith, ih)

comment-quote : (q : List ℕ) → comment b'\'' q ≡ none
unfolding comment
comment-quote [] = refl
comment-quote (d ∷ q) = refl

lex_at-quote : (q : List ℕ) → lex_at (b'\'' ∷ q) ≡ found (lex_string q)
unfolding lex_at lex_token
lex_at-quote q = rw (comment-quote q, lex_at) refl

lex_next-quote : (q : List ℕ) → lex_next 1 (b'\'' ∷ q) ≡ some (lex_string q)
unfolding lex_next skip_spaces span is_space
lex_next-quote q = rw (lex_at-quote q, lex_next) refl

length-doubled : (s : List ℕ) → length s ≤ length (doubled s)
unfolding doubled
length-doubled [] = omega arith
length-doubled (c ∷ s) = let h = length-doubled s in ground (arith, h)

-- Nothing in the text is a quote.
abbrev pub Plain : List ℕ → Type 0
Plain s = All (λ c. c ≢ b'\'') s

Plain-doubled : (s : List ℕ) → Plain s → doubled s ≡ s
unfolding doubled
Plain-doubled [] h = refl
Plain-doubled (c ∷ s) h =
    let other : (c == b'\'') ≡ false = ground (arith, h.0) in
    rw other (ap (λ t. c ∷ t) (Plain-doubled s h.1))

doubled-Plain : (s : List ℕ) → doubled s ≡ s → Plain s
unfolding doubled
doubled-Plain [] h = tt
doubled-Plain (c ∷ s) h = elim (Bool-cases (c == b'\'')) [
  | inl y ↦
      let same_text : c ∷ c ∷ doubled s ≡ c ∷ s = rw (y, doubled) at h in
      let lengths : length (c ∷ c ∷ doubled s) ≡ length (c ∷ s) = ap length same_text in
      absurd (omega (arith, lengths, length-doubled s))
  | inr n ↦
      let same_text : c ∷ doubled s ≡ c ∷ s = rw (n, doubled) at h in
      ((λ e. ground (arith, n, e)), doubled-Plain s (∷_inj same_text))
]
  where
    ∷_inj : c ∷ doubled s ≡ c ∷ s → doubled s ≡ s
    ∷_inj e = cc

-- Where no quote follows, the lexer reads the literal of a text up to its end as one string; the
-- text of this token is the text that was quoted exactly where that has no quote in it.
pub lex_next-sql_quote_literal :
    (s rest : List ℕ)
    → Unquoted rest
    → (t : Token) × (lex_next 1 (sql_quote_literal (some s) ++ rest) ≡ some (t, rest))
      × (t.type ≡ TkType.tk_string)
      × ((t.text ≡ s) ↔ Plain s)
unfolding lex_string sql_quote_literal
lex_next-sql_quote_literal s rest h = (
  record { type = TkType.tk_string; text = doubled s },
  rw (append_assoc (doubled s) (b'\'' ∷ []) rest, lex_next-quote (doubled s ++ b'\'' ∷ rest))
      (rw (string_body-doubled s rest h, lex_string) refl),
  refl,
  (doubled-Plain s, Plain-doubled s),
)
