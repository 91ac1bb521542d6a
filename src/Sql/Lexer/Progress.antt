-- ===== src/Sql/Lexer/Progress.antt =====
-- Each call of `lex_next` of lib/sql_parser/sql.c moves on.
use napastak.Base.{
  ℕ, zero, suc, ◌≤◌, ◌<◌, ◌≡◌, ◌⊎◌, inl, inr, refl, Bool, true, false, not, ◌||◌, Option, none,
  some, List, [], ◌∷◌, ◌++◌, ◌==◌, if◌then◌else◌, length, arith, Bool-cases, Option-cases,
}
use napastak.Sql.Keywords.{TkType}
use napastak.Sql.Lexer.{
  Token, token, is_space, is_digit, is_alpha, is_word, span, block_comment, skip_one, string_body,
  number_part, is_exp, sign_part, exponent_part, lex_number, lex_word, with_eq, less, bar,
  quoted_ident, lex_string, lex_token, comment, skip_spaces, found, again, lex_at, lex_next,
}

length-span : (p : ℕ → Bool) (q : List ℕ) → length (span p q).1 ≤ length q
unfolding span
length-span p [] = omega arith
length-span p (c ∷ q) = let h = length-span p q in ground (arith, h)

length-block_comment : (q : List ℕ) → length (block_comment q) ≤ length q
unfolding block_comment
length-block_comment [] = omega arith
length-block_comment (c ∷ []) = omega arith
length-block_comment (c ∷ d ∷ q) = let h = length-block_comment (d ∷ q) in ground (arith, h)

length-string_body : (b : Bool) (q : List ℕ) → length (string_body b q).1 ≤ length q
unfolding string_body
length-string_body b [] = omega arith
length-string_body false (c ∷ q) = let h = length-string_body (c == b'\'') q in ground (arith, h)
length-string_body true (c ∷ q) = let h = length-string_body false q in ground (arith, h)

length-number_part : (h : Bool) (q : List ℕ) → length (number_part h q).2 ≤ length q
unfolding number_part
length-number_part h [] = omega arith
length-number_part h (c ∷ q) = let r = length-number_part (h || c == b'.') q in ground (arith, r)

number_part-digit :
    (c : ℕ) (q : List ℕ) → is_digit c ≡ true → length (number_part false (c ∷ q)).2 ≤ length q
unfolding number_part
number_part-digit c q d =
    let r = length-number_part (false || c == b'.') q in rw d (ground (arith, r))

length-sign_part : (q : List ℕ) → length (sign_part q).1 ≤ length q
length-sign_part [] = omega arith
length-sign_part (c ∷ q) = ground arith

length-exponent_part :
    (q e rest : List ℕ) → exponent_part q ≡ some (e, rest) → length rest ≤ length q
unfolding exponent_part
length-exponent_part [] e rest h = absurd (ground arith)
length-exponent_part (c ∷ q) e rest h =
    let r = length-span is_digit (sign_part q).1 in
    let t = length-sign_part q in
    elim (Bool-cases (is_exp c)) [
      | inl y ↦
          let same_rest : some (
            c ∷ (sign_part q).0 ++ (span is_digit (sign_part q).1).0,
            (span is_digit (sign_part q).1).1,
          )
              ≡ some (e, rest) =
            rw (y, exponent_part) at h in
          let last : (span is_digit (sign_part q).1).1 ≡ rest = cc in
          rw (← last) (omega (arith, r, t))
      | inr n ↦
          let bad : ◌≡◌ {A = Option (List ℕ × List ℕ)} none (some (e, rest)) =
            rw (n, exponent_part) at h in
          absurd (cc)
    ]

length-skip_spaces : (q : List ℕ) → length (skip_spaces q) ≤ length q
unfolding skip_spaces
length-skip_spaces q = length-span is_space q

length-comment : (c : ℕ) (q rest : List ℕ) → comment c q ≡ some rest → length rest ≤ length q
unfolding comment
length-comment c [] rest h = absurd (ground arith)
length-comment c (d ∷ q) rest h =
    let a = length-span (λ e. not (e == 10)) (d ∷ q) in
    let b = length-block_comment q in ground (arith, a, b)

length-lex_number :
    (c : ℕ) (q : List ℕ) → is_digit c ≡ true → length (lex_number (c ∷ q)).1 ≤ length q
unfolding lex_number
length-lex_number c q d =
    let a = number_part-digit c q d in
    let b = (number_part false (c ∷ q)).2 in
    elim (Option-cases (exponent_part b)) [
      | inl n ↦ rw (n, lex_number) a
      | inr ((e, rest), y) ↦ rw (y, lex_number) (omega (arith, a, length-exponent_part b e rest y))
    ]

length-lex_word : (c : ℕ) (q : List ℕ) → is_word c ≡ true → length (lex_word (c ∷ q)).1 ≤ length q
unfolding lex_word span
length-lex_word c q w = rw w (length-span is_word q)

length-skip_one : (q : List ℕ) → length (skip_one q) ≤ length q
length-skip_one [] = omega arith
length-skip_one (c ∷ q) = omega arith

length-quoted_ident : (c : ℕ) (q : List ℕ) → length (quoted_ident c q).1 ≤ length q
unfolding quoted_ident
length-quoted_ident c q =
    let a = length-span (λ d. not (d == c)) q in
    omega (arith, a, length-skip_one (span (λ d. not (d == c)) q).1)

-- What a token leaves of the `n` bytes that follow its first.
record Leaves (n : ℕ) (t : Token × List ℕ) : Type 0 where
  pub bound : length t.1 ≤ n

Leaves-less : (q : List ℕ) → Leaves (length q) (less q)
Leaves-less [] = record { bound = omega arith }
Leaves-less (c ∷ q) = record { bound = ground arith }

Leaves-with_eq : (t u : TkType) (q : List ℕ) → Leaves (length q) (with_eq t u q)
Leaves-with_eq t u [] = record { bound = omega arith }
Leaves-with_eq t u (c ∷ q) = record { bound = ground arith }

Leaves-bar : (q : List ℕ) → Leaves (length q) (bar q)
Leaves-bar [] = record { bound = omega arith }
Leaves-bar (c ∷ q) = record { bound = ground arith }

Leaves-if :
    {n : ℕ} {t u : Token × List ℕ} (b : Bool)
    → (b ≡ true → Leaves n t)
    → Leaves n u
    → Leaves n (if b then t else u)
Leaves-if true f g = f refl
Leaves-if false f g = g

Leaves-now : (t : TkType) (q : List ℕ) → Leaves (length q) (token t, q)
Leaves-now t q = record { bound = omega arith }

Leaves-lex_token : (c : ℕ) (q : List ℕ) → Leaves (length q) (lex_token c q)
unfolding lex_token is_word lex_string
Leaves-lex_token c q =
    Leaves-if (c == b'*') (λ e. Leaves-now TkType.tk_star q)
      (Leaves-if (c == b',') (λ e. Leaves-now TkType.tk_comma q)
        (Leaves-if (c == b'.') (λ e. Leaves-now TkType.tk_dot q)
          (Leaves-if (c == b'(') (λ e. Leaves-now TkType.tk_lparen q)
            (Leaves-if (c == b')') (λ e. Leaves-now TkType.tk_rparen q)
              (Leaves-if (c == b'+') (λ e. Leaves-now TkType.tk_plus q)
                (Leaves-if (c == b'-') (λ e. Leaves-now TkType.tk_minus q)
                  (Leaves-if (c == b'/') (λ e. Leaves-now TkType.tk_slash q)
                    (Leaves-if (c == b'%') (λ e. Leaves-now TkType.tk_percent q)
                      (Leaves-if (c == b';') (λ e. Leaves-now TkType.tk_semicolon q)
                        (Leaves-if (c == b'=') (λ e. Leaves-now TkType.tk_eq q)
                          (Leaves-if (c == b'<') (λ e. Leaves-less q)
                            (Leaves-if (c == b'>') (λ e. Leaves-with_eq TkType.tk_gt TkType.tk_ge q)
                              (Leaves-if (c == b'!')
                                (λ e. Leaves-with_eq TkType.tk_error TkType.tk_ne q)
                                (Leaves-if (c == b'|') (λ e. Leaves-bar q)
                                  (Leaves-if (c == b'"' || c == b'`')
                                    (λ e. record { bound = length-quoted_ident c q })
                                    (Leaves-if (c == b'\'')
                                      (λ e. record { bound = length-string_body false q })
                                      (Leaves-if (is_digit c)
                                        (λ e. record { bound = length-lex_number c q e })
                                        (Leaves-if (is_alpha c || c == b'_')
                                          (λ e. record {
                                            bound = length-lex_word c q (ground (arith, e));
                                          })
                                          (Leaves-now TkType.tk_error q)))))))))))))))))))

-- A call on `q` ends with a token that moves on, or at the end of the text.
abbrev Ends : List ℕ → Option (Token × List ℕ) → Type 0
Ends q r =
    (t : Token × List ℕ) × (r ≡ some t)
    × ((t ≡ (token TkType.tk_eof, [])) ⊎ (length t.1 < length q))

Ends-longer :
    (q q' : List ℕ) (r : Option (Token × List ℕ)) → length q ≤ length q' → Ends q r → Ends q' r
Ends-longer q q' r h (t, e, inl a) = (t, e, inl a)
Ends-longer q q' r h (t, e, inr b) = (t, e, inr (omega arith))

Ends-at :
    (n : ℕ) (r : List ℕ)
    → length r < suc n
    → ((s : List ℕ) → length s < n → Ends s (lex_next n s))
    → Ends r (elim (lex_at r) [ found t ↦ some t | again rest ↦ lex_next n rest ])
unfolding lex_at
Ends-at n [] h f = ((token TkType.tk_eof, []), refl, inl refl)
Ends-at n (c ∷ q) h f = elim (Option-cases (comment c q)) [
  | inl no_comment ↦
      rw (no_comment, lex_at)
        (lex_token c q, refl, inr (omega (arith, (Leaves-lex_token c q).bound)))
  | inr (rest, y) ↦
      let b = length-comment c q rest y in
      rw (y, lex_at)
        (Ends-longer rest (c ∷ q) (lex_next n rest) (omega (arith, b))
          (f rest (omega (arith, b, h))))
]

-- With more rounds than the text has bytes `lex_next` gives a token, and it leaves less of the text
-- than it was given, or is the token at the end with nothing left.
pub lex_next_lem :
    (n : ℕ) (q : List ℕ)
    → length q < n
    → (t : Token × List ℕ) × (lex_next n q ≡ some t)
      × ((t ≡ (token TkType.tk_eof, [])) ⊎ (length t.1 < length q))
unfolding lex_next
lex_next_lem zero q h = absurd (omega (arith, h))
lex_next_lem (suc n) q h =
    let b = length-skip_spaces q in
    Ends-longer (skip_spaces q) q (lex_next (suc n) q) b
      (Ends-at n (skip_spaces q) (omega (arith, b, h)) (lex_next_lem n))
