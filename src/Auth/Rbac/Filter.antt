-- ===== src/Auth/Rbac/Filter.antt =====
-- Which filter `rbac_row_filter` of lib/auth/rbac.c gives a user.
use napastak.Base.{
  ℕ, ◌≤◌, ◌<◌, ◌≡◌, subst, ltb, length, ◌∙◌, sym, ap, refl, Bool, true, false, not, Option, none,
  some, List, [], ◌∷◌, arith, inl, inr, Bool-cases, if◌then◌else◌,
}
use napastak.Auth.Rbac.{
  AuthRole, RbacStore, AuthClaims, PolicyRow, is_admin, matches, token, contains, safe_user_id,
  limit, substitute, filter_for, filter_rows, row_filter,
}
use napastak.Auth.Rbac.Substitute.{
  ltb_less, ltb_not, Fills, substitute-Fills, HasToken, contains-HasToken, HasToken-contains,
  Replaces, substitute_lem, specials, specials-substitute, specials-safe_user_id, specials-unsafe,
}

-- What a filter becomes, if there is one.
abbrev pub resolved : List ℕ → Option (List ℕ) → Option (List ℕ)
resolved uid none = none
resolved uid (some f) = filter_for uid f

abbrev answer : List ℕ → Option (List ℕ) → Option (List ℕ)
answer uid none = none
answer uid (some f) =
    if not (contains token f)
    then some f
    else if safe_user_id uid
    then some (substitute 0 uid f 0)
    else none

resolved-eq-answer : (uid : List ℕ) (o : Option (List ℕ)) → resolved uid o ≡ answer uid o
unfolding filter_for
resolved-eq-answer uid none = refl
resolved-eq-answer uid (some f) = elim (Bool-cases (contains token f)) [
  | inl y ↦ rw y refl
  | inr n ↦ rw n refl
]

-- What a user gets of a filter: nothing without one, a filter without the token as it is, and one
-- with the token according to the user's id. An id with a quote or a backslash gives nothing; any
-- other takes the place of every token, where that makes fewer than 1020 bytes; otherwise the text is
-- filled up to 1020 bytes at most, without the ids that would reach that limit.
pub data Answers (uid : List ℕ) : Option (List ℕ) → Option (List ℕ) → Type 0 where
  no_filter : Answers uid none none
  as_it_is : {f : List ℕ} → (HasToken f → ⊥) → Answers uid (some f) (some f)
  refused : {f : List ℕ} → HasToken f → 0 < specials uid → Answers uid (some f) none
  replaced :
      {f out : List ℕ}
      → HasToken f
      → specials uid ≡ 0
      → Replaces uid f out
      → length out < limit
      → Answers uid (some f) (some out)
  too_long :
      {f out text : List ℕ}
      → HasToken f
      → specials uid ≡ 0
      → Replaces uid f out
      → limit ≤ length out
      → length text ≤ limit
      → Fills uid 0 f text
      → Answers uid (some f) (some text)

written-Answers :
    (uid f : List ℕ)
    → HasToken f
    → specials uid ≡ 0
    → Answers uid (some f) (some (substitute 0 uid f 0))
written-Answers uid f has safe =
    let (bound, out, r, short) = substitute_lem uid f in
    elim (Bool-cases (ltb (length out) limit)) [
      | inl y ↦
          let small = ltb_less uid (length out) limit y in
          subst (λ t. Answers uid (some f) (some t)) (sym (short small)) (replaced has safe r small)
      | inr n ↦
          too_long has safe r (ltb_not uid (length out) limit n) bound
            (substitute-Fills uid (length f) f 0 (omega arith))
    ]

answer-Answers : (uid : List ℕ) (o : Option (List ℕ)) → Answers uid o (answer uid o)
answer-Answers uid none = no_filter
answer-Answers uid (some f) = elim (Bool-cases (contains token f)) [
  | inl y ↦ elim (Bool-cases (safe_user_id uid)) [
    | inl safe ↦
        rw (y, safe)
          (written-Answers uid f (contains-HasToken f y) (specials-safe_user_id uid safe))
    | inr unsafe ↦ rw (y, unsafe) (refused (contains-HasToken f y) (specials-unsafe uid unsafe))
  ]
  | inr n ↦ rw n (as_it_is (HasToken-contains f n))
]

specials-answer : (uid f out : List ℕ) → answer uid (some f) ≡ some out → specials out ≤ specials f
specials-answer uid f out h = elim (Bool-cases (contains token f)) [
  | inl y ↦ elim (Bool-cases (safe_user_id uid)) [
    | inl safe ↦
        let eq : some (substitute 0 uid f 0) ≡ some out = rw (y, safe) at h in
        let same : substitute 0 uid f 0 ≡ out = cc eq in
        rw (← same) (specials-substitute uid 0 f 0 (specials-safe_user_id uid safe))
    | inr unsafe ↦ cc (rw (y, unsafe) at h)
  ]
  | inr n ↦
      let eq : some f ≡ some out = rw n at h in let same : f ≡ out = cc eq in rw same (omega arith)
]

module _ (fnmatch : List ℕ → List ℕ → Bool) (table : Option (List ℕ)) where
  -- The filter of the first row that has one, not empty, and is about the table.
  abbrev pub first_filter : List PolicyRow → Option (List ℕ)
  first_filter [] = none
  first_filter (r ∷ rs) = elim r.row_filter [
    | none ↦ first_filter rs
    | some [] ↦ first_filter rs
    | some (c ∷ f) ↦ if matches fnmatch r.table_pattern table then some (c ∷ f) else first_filter rs
  ]

  filter_rows-first_filter :
      (uid : List ℕ) (rs : List PolicyRow)
      → filter_rows fnmatch uid table rs ≡ resolved uid (first_filter rs)
  unfolding filter_rows
  filter_rows-first_filter uid [] = refl
  filter_rows-first_filter uid (r ∷ rs) = by_filter (filter_rows-first_filter uid rs) r.row_filter
    where
      by_filter :
          filter_rows fnmatch uid table rs ≡ resolved uid (first_filter rs)
          → (o : Option (List ℕ))
          → elim o [
            | none ↦ filter_rows fnmatch uid table rs
            | some [] ↦ filter_rows fnmatch uid table rs
            | some (c ∷ f) ↦
                if matches fnmatch r.table_pattern table
                then filter_for uid (c ∷ f)
                else filter_rows fnmatch uid table rs
          ]
            ≡ resolved uid (elim o [
              | none ↦ first_filter rs
              | some [] ↦ first_filter rs
              | some (c ∷ f) ↦
                  if matches fnmatch r.table_pattern table then some (c ∷ f) else first_filter rs
            ])
      by_filter rest none = rest
      by_filter rest (some []) = rest
      by_filter rest (some (c ∷ f)) = elim (Bool-cases (matches fnmatch r.table_pattern table)) [
        | inl y ↦ rw y refl
        | inr n ↦ rw n rest
      ]

  module _ (select : AuthRole → Option (List PolicyRow)) (claims : AuthClaims)
      (rows : List PolicyRow) (s : RbacStore) (on : s.enabled ≡ true)
      (user : is_admin claims.role ≡ false) (got : select claims.role ≡ some rows) where
    row_filter-eq-answer :
        row_filter fnmatch (some s) select (some claims) table
        ≡ answer claims.user_id (first_filter rows)
    unfolding row_filter
    row_filter-eq-answer =
        rw (on, user, got)
          (filter_rows-first_filter claims.user_id rows
            ∙ resolved-eq-answer claims.user_id (first_filter rows))

    -- With the checks enabled, a client that is no administrator and whose query succeeds gets what
    -- the first filter that is not empty and about the table comes to: without the token
    -- `{user_id}` the filter as it is; with it and an id that has a quote or a backslash nothing;
    -- and with any other id the filter with the id in the place of every token, from left to right,
    -- where that has fewer than 1020 bytes. Where it has as many or more, the answer is a text of 1020
    -- bytes at most, which leaves out every id that would reach that limit and ends there. A client
    -- gets nothing where there is no such filter.
    pub row_filter_lem :
        Answers claims.user_id
          (first_filter rows)
          (row_filter fnmatch (some s) select (some claims) table)
    row_filter_lem =
        subst (Answers claims.user_id (first_filter rows)) (sym row_filter-eq-answer)
          (answer-Answers claims.user_id (first_filter rows))

    -- With the checks enabled, a client that is no administrator and whose query succeeds gets a
    -- condition with no more quotes and backslashes than the filter it is made from, the first that
    -- is not empty and about the table, whatever the user's id.
    pub specials-row_filter :
        (f out : List ℕ)
        → first_filter rows ≡ some f
        → row_filter fnmatch (some s) select (some claims) table ≡ some out
        → specials out ≤ specials f
    specials-row_filter f out first is =
        specials-answer claims.user_id f out
          (sym (ap (answer claims.user_id) first) ∙ sym row_filter-eq-answer ∙ is)

    -- With the checks enabled, for a client that is no administrator and whose query succeeds: where
    -- the first filter that is not empty and about the table has the token, and the user's id has a
    -- quote or a backslash, the answer is the null pointer, which the caller takes for no condition
    -- on the rows.
    pub row_filter_unsafe :
        (f : List ℕ)
        → first_filter rows ≡ some f
        → contains token f ≡ true
        → safe_user_id claims.user_id ≡ false
        → row_filter fnmatch (some s) select (some claims) table ≡ none
    row_filter_unsafe f first has unsafe =
        row_filter-eq-answer ∙ ap (answer claims.user_id) first ∙ rw (has, unsafe) refl
