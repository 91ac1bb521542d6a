-- ===== src/Auth/Rbac/Substitute.antt =====
-- The loop of `rbac_row_filter` in lib/auth/rbac.c that puts the user's id into a filter.
use napastak.Base.{
  ℕ, zero, suc, ◌+◌, ◌≤◌, ◌<◌, ◌≡◌, refl, true, false, ◌||◌, List, [], ◌∷◌, ◌++◌, arith, ltb, ◌==◌,
  if◌then◌else◌, length, length-append, Bool-cases, inl, inr, ap, subst, sym, ◌∙◌,
}
use napastak.Auth.Rbac.{token, is_prefix, contains, limit, substitute, safe_user_id}

-- The text with every token replaced, from left to right: what the loop is meant to compute.
pub data Replaces (uid : List ℕ) : List ℕ → List ℕ → Type 0 where
  at_end : Replaces uid [] []
  at_token : {p out : List ℕ} → Replaces uid p out → Replaces uid (token ++ p) (uid ++ out)
  at_byte :
      {c : ℕ} {p out : List ℕ}
      → is_prefix token (c ∷ p) ≡ false
      → Replaces uid p out
      → Replaces uid (c ∷ p) (c ∷ out)

is_prefix-eq-append : (s p : List ℕ) → is_prefix s p ≡ true → (q : List ℕ) × (p ≡ s ++ q)
unfolding is_prefix
is_prefix-eq-append [] p h = (p, refl)
is_prefix-eq-append (c ∷ s) [] h = cc
is_prefix-eq-append (c ∷ s) (d ∷ p) h = elim (Bool-cases (c == d)) [
  | inl y ↦
      let (q, e) = is_prefix-eq-append s p (rw y at h) in
      let same : d ≡ c = ground arith in (q, rw (same, e) refl)
  | inr n ↦ cc (rw n at h)
]

-- The text has the token somewhere.
abbrev pub HasToken : List ℕ → Type 0
HasToken f = (a : List ℕ) × (b : List ℕ) × (f ≡ a ++ token ++ b)

is_prefix-append : (s q : List ℕ) → is_prefix s (s ++ q) ≡ true
unfolding is_prefix
is_prefix-append [] q = refl
is_prefix-append (c ∷ s) q = let y : (c == c) ≡ true = ground arith in rw y (is_prefix-append s q)

pub contains-HasToken : (f : List ℕ) → contains token f ≡ true → HasToken f
unfolding contains is_prefix
contains-HasToken [] h = cc h
contains-HasToken (c ∷ f) h = elim (Bool-cases (is_prefix token (c ∷ f))) [
  | inl y ↦ let (q, e) = is_prefix-eq-append token (c ∷ f) y in ([], q, e)
  | inr n ↦ let (a, b, e) = contains-HasToken f (rw n at h) in (c ∷ a, b, ap (λ t. c ∷ t) e)
]

contains-append : (a b : List ℕ) → contains token (a ++ token ++ b) ≡ true
unfolding contains
contains-append [] b = rw (is_prefix-append token b) refl
contains-append (c ∷ a) b = elim (Bool-cases (is_prefix token (c ∷ a ++ token ++ b))) [
  | inl y ↦ rw y refl
  | inr n ↦ rw n (contains-append a b)
]

pub HasToken-contains : (f : List ℕ) → contains token f ≡ false → HasToken f → ⊥
HasToken-contains f h (a, b, e) =
    let y : contains token f ≡ true = ap (contains token) e ∙ contains-append a b in cc (sym h ∙ y)

module _ (uid : List ℕ) where
  -- As long as the result stays below the limit of the buffer, the loop replaces every token.
  substitute-Replaces :
      (p out : List ℕ) (off : ℕ)
      → Replaces uid p out
      → off + length out < limit
      → substitute 0 uid p off ≡ out
  unfolding substitute
  substitute-Replaces p out off at_end h = refl
  substitute-Replaces p out off (at_token {p = q} {out = rest} r) h =
      let here : ltb off limit ≡ true = ground (arith, length-append uid rest) in
      let room : ltb (off + length uid) limit ≡ true = ground (arith, length-append uid rest) in
      rw (here, room)
        (ap (λ t. uid ++ t)
          (substitute-Replaces q rest (off + length uid) r (omega (arith, length-append uid rest))))
  substitute-Replaces p out off (at_byte {c} {p = q} {out = rest} n r) h =
      let here : ltb off limit ≡ true = ground arith in
      rw (here, n) (ap (λ t. c ∷ t) (substitute-Replaces q rest (off + 1) r (omega (arith, h))))

  length-substitute :
      (skip : ℕ) (p : List ℕ) (off : ℕ)
      → off ≤ limit
      → off + length (substitute skip uid p off) ≤ limit
  unfolding substitute
  length-substitute skip [] off h = omega arith
  length-substitute (suc skip) (c ∷ p) off h = length-substitute skip p off h
  length-substitute zero (c ∷ p) off h =
      let fits = length-substitute 8 p (off + length uid) in
      let dropped = length-substitute 8 p off in
      let copied = length-substitute 0 p (off + 1) in
      ground
        (arith, fits, dropped, copied, length-append uid (substitute 8 uid p (off + length uid)))

  -- Every text has a result, in which the tokens do not overlap.
  replacement : (n : ℕ) (p : List ℕ) → length p ≤ n → (out : List ℕ) × Replaces uid p out
  replacement n [] h = ([], at_end)
  replacement zero (c ∷ p) h = absurd (omega arith)
  replacement (suc n) (c ∷ p) h = elim (Bool-cases (is_prefix token (c ∷ p))) [
    | inl y ↦
        let (q, e) = is_prefix-eq-append token (c ∷ p) y in
        let short : length q ≤ n = omega (arith, ap length e, length-append token q) in
        let (out, r) = replacement n q short in
        (uid ++ out, subst (λ t. Replaces uid t (uid ++ out)) (sym e) (at_token r))
    | inr other ↦ let (out, r) = replacement n p (omega (arith, h)) in (c ∷ out, at_byte other r)
  ]

  -- Every filter has a text with each token replaced, from left to right, by the user's id. The
  -- loop writes that text if it has fewer than 1020 bytes, and for no filter more than 1020 bytes
  -- into its buffer of 1024.
  pub substitute_lem :
      (p : List ℕ)
      → (length (substitute 0 uid p 0) ≤ limit)
        × (out : List ℕ) × Replaces uid p out
        × (length out < limit → substitute 0 uid p 0 ≡ out)
  substitute_lem p =
      let (out, r) = replacement (length p) p (omega arith) in
      (
        omega (arith, length-substitute 0 p 0 (omega arith)),
        out,
        r,
        λ h. substitute-Replaces p out 0 r (omega (arith, h)),
      )

-- The text that fits the buffer, `off` bytes of it written: as the replaced one, but that an id that
-- would reach the limit is left out, and that nothing is written from the limit on.
pub data Fills (uid : List ℕ) : ℕ → List ℕ → List ℕ → Type 0 where
  used_up : {off : ℕ} → Fills uid off [] []
  full : {off : ℕ} {p : List ℕ} → limit ≤ off → Fills uid off p []
  put :
      {off : ℕ} {p out : List ℕ}
      → off + length uid < limit
      → Fills uid (off + length uid) p out
      → Fills uid off (token ++ p) (uid ++ out)
  left_out :
      {off : ℕ} {p out : List ℕ}
      → off < limit
      → limit ≤ off + length uid
      → Fills uid off p out
      → Fills uid off (token ++ p) out
  copied :
      {off c : ℕ} {p out : List ℕ}
      → off < limit
      → is_prefix token (c ∷ p) ≡ false
      → Fills uid (off + 1) p out
      → Fills uid off (c ∷ p) (c ∷ out)

module _ (uid : List ℕ) where
  pub ltb_less : (n m : ℕ) → ltb n m ≡ true → n < m
  ltb_less n m h = ground (arith, h)

  pub ltb_not : (n m : ℕ) → ltb n m ≡ false → m ≤ n
  ltb_not n m h = ground (arith, h)

  substitute-token :
      (q : List ℕ) (off : ℕ)
      → ltb off limit ≡ true
      → ((o : ℕ) → Fills uid o q (substitute 0 uid q o))
      → Fills uid off (token ++ q) (substitute 0 uid (token ++ q) off)
  unfolding substitute is_prefix
  substitute-token q off h rest = elim (Bool-cases (ltb (off + length uid) limit)) [
    | inl y ↦ rw (h, y) (put (ltb_less (off + length uid) limit y) (rest (off + length uid)))
    | inr n ↦
        rw (h, n) (left_out (ltb_less off limit h) (ltb_not (off + length uid) limit n) (rest off))
  ]

  pub substitute-Fills :
      (n : ℕ) (p : List ℕ) (off : ℕ) → length p ≤ n → Fills uid off p (substitute 0 uid p off)
  unfolding substitute
  substitute-Fills n [] off h = used_up
  substitute-Fills zero (c ∷ p) off h = absurd (omega arith)
  substitute-Fills (suc n) (c ∷ p) off h = elim (Bool-cases (ltb off limit)) [
    | inr f ↦ rw f (full (ltb_not off limit f))
    | inl y ↦ elim (Bool-cases (is_prefix token (c ∷ p))) [
      | inl t ↦
          let (q, e) = is_prefix-eq-append token (c ∷ p) t in
          let short : length q ≤ n = omega (arith, ap length e, length-append token q) in
          subst (λ t. Fills uid off t (substitute 0 uid t off)) (sym e)
            (substitute-token q off y (λ o. substitute-Fills n q o short))
      | inr f ↦
          rw (y, f)
            (copied (ltb_less off limit y) f (substitute-Fills n p (off + 1) (omega (arith, h))))
    ]
  ]

-- The bytes that `safe_user_id` looks for: quotes and backslashes.
abbrev pub specials : List ℕ → ℕ
specials [] = 0
specials (c ∷ cs) = if c == 39 || c == 92 then suc (specials cs) else specials cs

specials-append : (xs ys : List ℕ) → specials (xs ++ ys) ≡ specials xs + specials ys
specials-append [] ys = omega arith
specials-append (x ∷ xs) ys = ground (arith, specials-append xs ys)

pub specials-safe_user_id : (uid : List ℕ) → safe_user_id uid ≡ true → specials uid ≡ 0
unfolding safe_user_id
specials-safe_user_id [] h = refl
specials-safe_user_id (c ∷ cs) h = ground (arith, specials-safe_user_id cs)

pub specials-unsafe : (uid : List ℕ) → safe_user_id uid ≡ false → 0 < specials uid
unfolding safe_user_id
specials-unsafe [] h = cc h
specials-unsafe (c ∷ cs) h = ground (arith, specials-unsafe cs)

pub specials-substitute :
    (uid : List ℕ) (skip : ℕ) (p : List ℕ) (off : ℕ)
    → specials uid ≡ 0
    → specials (substitute skip uid p off) ≤ specials p
unfolding substitute
specials-substitute uid skip [] off h = omega arith
specials-substitute uid (suc skip) (c ∷ p) off h =
    ground (arith, specials-substitute uid skip p off h)
specials-substitute uid zero (c ∷ p) off h =
    let fits = specials-substitute uid 8 p (off + length uid) h in
    let dropped = specials-substitute uid 8 p off h in
    let copied = specials-substitute uid 0 p (off + 1) h in
    ground
      (arith, fits, dropped, copied, specials-append uid (substitute 8 uid p (off + length uid)))
