-- ===== src/Sql/Template/Parts.antt =====
-- How the result of `sql_substitute_params` of lib/sql_template/sql_template.c is put together.
use mathlib.Core.List.{append_assoc}
use mathlib.Core.Option
use napastak.Base.{
  ℕ, zero, suc, ◌+◌, ◌≤◌, ◌<◌, ◌≡◌, ◌≢◌, inl, inr, refl, sym, ◌∙◌, ap, false, Option, none, some,
  List, [], ◌∷◌, ◌++◌, ◌==◌, length, length-append, arith, Bool-cases, All,
}
use napastak.Sql.Template.{
  Jval, Piece, literal, named, piece, read_name, skip_close, Substituted, done, failed, prepend,
  placeholder, then_rest, joined, substitute_from, sql_substitute_params,
}

length-read_name : (n : ℕ) (q : List ℕ) → length (read_name n q).1 ≤ length q
unfolding read_name
length-read_name zero q = omega arith
length-read_name (suc n) [] = omega arith
length-read_name (suc n) (c ∷ q) = let h = length-read_name n q in ground (arith, h)

length-skip_close : (q : List ℕ) → length (skip_close q) ≤ length q
unfolding skip_close
length-skip_close [] = omega arith
length-skip_close (c ∷ q) = ground arith

length-skip_name : (n : ℕ) (q : List ℕ) → length (skip_close (read_name n q).1) ≤ length q
length-skip_name n q = omega (arith, length-skip_close (read_name n q).1, length-read_name n q)

abbrev rest_of : Piece → List ℕ
rest_of (literal c rest) = rest
rest_of (named name rest) = rest

piece-rest : (c : ℕ) (q : List ℕ) → length (rest_of (piece c q)) ≤ length q
unfolding piece
piece-rest c [] = ground arith
piece-rest c (d ∷ q) = elim (Bool-cases (c == b'{')) [
  | inr n ↦ rw (n, piece) (omega arith)
  | inl y ↦ elim (Bool-cases (d == b'{')) [
    | inl z ↦ rw (y, z, piece) (omega arith)
    | inr m ↦ rw (y, m, piece) (length-skip_name 255 (d ∷ q))
  ]
]

-- A text without an opening brace.
abbrev pub Braceless : List ℕ → Type 0
Braceless s = All (λ c. c ≢ b'{') s

-- A name for a placeholder: without braces, and not too long.
abbrev pub IsName : List ℕ → Type 0
IsName name = (length name ≤ 255) × All (λ c. (c ≢ b'{') × (c ≢ b'}')) name

read_name-name :
    (n : ℕ) (name post : List ℕ)
    → length name ≤ n
    → All (λ c. (c ≢ b'{') × (c ≢ b'}')) name
    → read_name n (name ++ b'}' ∷ post) ≡ (name, b'}' ∷ post)
unfolding read_name
read_name-name zero [] post h a = refl
read_name-name zero (c ∷ name) post h a = absurd (omega (arith, h))
read_name-name (suc n) [] post h a = refl
read_name-name (suc n) (c ∷ name) post h a =
    let ih = read_name-name n name post (omega (arith, h)) a.1 in
    let other : (c == b'}') ≡ false = ground (arith, a.0.1) in rw (other, ih) refl

piece-named :
    (name post : List ℕ) → IsName name → piece b'{' (name ++ b'}' ∷ post) ≡ named name post
unfolding piece skip_close
piece-named [] post (l, a) =
    let e : read_name 255 (b'}' ∷ post) ≡ ([], b'}' ∷ post) = read_name-name 255 [] post l a in
    ap (λ (r : List ℕ × List ℕ). named r.0 (skip_close r.1)) e
piece-named (d ∷ name) post (l, a) =
    let other : (d == b'{') ≡ false = ground (arith, a.0.0) in
    rw (other, read_name-name 255 (d ∷ name) post l a, piece) refl

prepend-nil : (r : Option Substituted) → r ≡ Option.map (prepend []) r
prepend-nil none = refl
prepend-nil (some (done t)) = refl
prepend-nil (some (failed e)) = refl

piece-plain : (c : ℕ) (q : List ℕ) → c ≢ b'{' → piece c q ≡ literal c q
unfolding piece
piece-plain c [] h = ground arith
piece-plain c (d ∷ q) h = let n : (c == b'{') ≡ false = ground (arith, h) in rw (n, piece) refl

prepend-prepend :
    (s t : List ℕ) (r : Option Substituted)
    → Option.map (prepend s) (Option.map (prepend t) r) ≡ Option.map (prepend (s ++ t)) r
prepend-prepend s t none = refl
prepend-prepend s t (some (done u)) = ap (λ v. some (done v)) (sym (append_assoc s t u))
prepend-prepend s t (some (failed e)) = refl

module _ (format_double : ℕ → List ℕ) (params : Option (List (List ℕ × Jval)))
    (resolver : Option (List ℕ → Option (List ℕ))) where
  abbrev loop : ℕ → List ℕ → Option Substituted
  loop n q = substitute_from format_double params resolver n q

  joined-same :
      (x : Piece) (f g : List ℕ → Option Substituted)
      → f (rest_of x) ≡ g (rest_of x)
      → joined format_double params resolver x f ≡ joined format_double params resolver x g
  joined-same (literal d rest) f g e = ap (Option.map (prepend (d ∷ []))) e
  joined-same (named name rest) f g e =
      ap (then_rest format_double params resolver (placeholder format_double params resolver name))
        e

  -- More rounds than the text has bytes are enough, and more change nothing.
  loop_same : (n m : ℕ) (q : List ℕ) → length q < n → length q < m → loop n q ≡ loop m q
  unfolding substitute_from
  loop_same zero m q h k = absurd (omega (arith, h))
  loop_same (suc n) zero q h k = absurd (omega (arith, k))
  loop_same (suc n) (suc m) [] h k = refl
  loop_same (suc n) (suc m) (c ∷ q) h k =
      let b = piece-rest c q in
      joined-same (piece c q) (loop n) (loop m)
        (loop_same n m (rest_of (piece c q)) (omega (arith, b, h)) (omega (arith, b, k)))

  joined-some :
      (x : Piece) (f : List ℕ → Option Substituted)
      → (r : Substituted) × (f (rest_of x) ≡ some r)
      → (r : Substituted) × (joined format_double params resolver x f ≡ some r)
  joined-some (literal d rest) f (r, e) = (prepend (d ∷ []) r, rw e refl)
  joined-some (named name rest) f (r, e) =
      rest_ends (placeholder format_double params resolver name)
    where
      rest_ends :
          (v : Substituted)
          → (r : Substituted) × (then_rest format_double params resolver v (f rest) ≡ some r)
      rest_ends (failed x) = (failed x, refl)
      rest_ends (done v) = (prepend v r, rw e refl)

  -- More rounds than the text has bytes give a result: a text or a refusal.
  pub substitute_from_lem :
      (n : ℕ) (q : List ℕ)
      → length q < n
      → (r : Substituted) × (substitute_from format_double params resolver n q ≡ some r)
  unfolding substitute_from
  substitute_from_lem zero q h = absurd (omega (arith, h))
  substitute_from_lem (suc n) [] h = (done [], refl)
  substitute_from_lem (suc n) (c ∷ q) h =
      let b = piece-rest c q in
      joined-some (piece c q) (loop n)
        (substitute_from_lem n (rest_of (piece c q)) (omega (arith, b, h)))

  loop-plain :
      (n c : ℕ) (q : List ℕ)
      → c ≢ b'{'
      → loop (suc n) (c ∷ q) ≡ Option.map (prepend (c ∷ [])) (loop n q)
  unfolding substitute_from
  loop-plain n c q h =
      ap (λ (x : Piece). joined format_double params resolver x (loop n)) (piece-plain c q h)

  loop-named :
      (n : ℕ) (name post : List ℕ)
      → IsName name
      → loop (suc n) (b'{' ∷ name ++ b'}' ∷ post)
        ≡ then_rest format_double params resolver
            (placeholder format_double params resolver name)
            (loop n post)
  unfolding substitute_from
  loop-named n name post h =
      ap (λ (x : Piece). joined format_double params resolver x (loop n)) (piece-named name post h)

  -- Text up to an opening brace is copied.
  loop-Braceless :
      (s q : List ℕ) (n : ℕ)
      → Braceless s
      → loop (length s + n) (s ++ q) ≡ Option.map (prepend s) (loop n q)
  loop-Braceless [] q n h =
      prepend-nil (loop (0 + n) q) ∙ ap (λ k. Option.map (prepend []) (loop k q)) (omega arith)
  loop-Braceless (c ∷ s) q n h =
      let ih = loop-Braceless s q n h.1 in
      let one_more : suc (length s) + n ≡ suc (length s + n) = omega arith in
      rw one_more (
        loop-plain (length s + n) c (s ++ q) h.0
        ∙ ap (Option.map (prepend (c ∷ []))) ih
        ∙ prepend-prepend (c ∷ []) s (loop n q))

  -- The result for a text that begins without an opening brace, up to a placeholder, is that part as
  -- it stands, the value of the placeholder, and the result for the rest; it is a refusal where the
  -- placeholder or the rest is refused.
  pub sql_substitute_params-placeholder :
      (s name post : List ℕ)
      → Braceless s
      → IsName name
      → sql_substitute_params format_double params resolver (s ++ (b'{' ∷ name ++ b'}' ∷ post))
        ≡ Option.map (prepend s) (
            then_rest format_double params resolver
              (placeholder format_double params resolver name)
              (sql_substitute_params format_double params resolver post))
  unfolding sql_substitute_params
  sql_substitute_params-placeholder s name post h n =
      let tail = b'{' ∷ name ++ b'}' ∷ post in
      let k = suc (length name + suc (length post)) in
      loop_same (suc (length (s ++ tail))) (length s + suc k) (s ++ tail) (omega arith)
        (omega (arith, length-append {0} s tail, length-append {0} name (b'}' ∷ post)))
      ∙ loop-Braceless s tail (suc k) h
      ∙ ap (Option.map (prepend s)) (
          loop-named k name post n
          ∙ ap
              (then_rest format_double params resolver
                (placeholder format_double params resolver name))
              (loop_same k (suc (length post)) post (omega arith) (omega arith)))
