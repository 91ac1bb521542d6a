-- ===== src/Auth/Rbac/Access.antt =====
-- Who is let through by `rbac_check` of lib/auth/rbac.c.
use napastak.Base.{
  ℕ, ◌≡◌, ◌↔◌, ◌⊎◌, inl, inr, refl, Bool, true, false, ◌&&◌, Option, none, some, List, [], ◌∷◌,
  arith, In, Bool-cases, Option-cases, subst,
}
use napastak.Auth.Rbac.{
  AuthRole, RbacAction, RbacStore, AuthClaims, PolicyRow, allows, matches, is_admin, check_rows,
  check,
}

module _ (fnmatch : List ℕ → List ℕ → Bool) (action : RbacAction) (table : Option (List ℕ)) where
  abbrev grants : PolicyRow → Bool
  grants r = matches fnmatch r.table_pattern table && allows r.allowed_actions action

  check_rows-In :
      (rs : List PolicyRow)
      → check_rows fnmatch action table rs ≡ true
      → (r : PolicyRow) × In r rs × (grants r ≡ true)
  unfolding check_rows
  check_rows-In [] h = cc
  check_rows-In (x ∷ rs) h = elim (Bool-cases (grants x)) [
    | inl y ↦ (x, inl refl, y)
    | inr n ↦ let (r, m, g) = check_rows-In rs (rw n at h) in (r, inr m, g)
  ]

  In-check_rows :
      (rs : List PolicyRow) (r : PolicyRow)
      → In r rs
      → grants r ≡ true
      → check_rows fnmatch action table rs ≡ true
  unfolding check_rows
  In-check_rows [] r m g = absurd m
  In-check_rows (x ∷ rs) r (inl e) g =
      let here : grants x ≡ true = subst (λ t. grants t ≡ true) e g in rw here refl
  In-check_rows (x ∷ rs) r (inr m) g = ground (arith, In-check_rows rs r m g)

module _ (fnmatch : List ℕ → List ℕ → Bool) (select : AuthRole → Option (List PolicyRow))
    (claims : AuthClaims) (action : RbacAction) (table : Option (List ℕ)) where
  -- The query for the role succeeds, and some row of its answer is about the table and has the bit.
  abbrev pub Granted : Type 0
  Granted =
      (rows : List PolicyRow) × (select claims.role ≡ some rows)
      × (r : PolicyRow) × In r rows
      × (matches fnmatch r.table_pattern table ≡ true)
      × (allows r.allowed_actions action ≡ true)

  check-Granted :
      (s : RbacStore)
      → s.enabled ≡ true
      → check fnmatch (some s) select (some claims) action table ≡ true
      → (is_admin claims.role ≡ true) ⊎ Granted
  unfolding check
  check-Granted s on h = elim (Bool-cases (is_admin claims.role)) [
    | inl y ↦ inl y
    | inr n ↦ elim (Option-cases (select claims.role)) [
      | inl failed ↦ cc (rw (on, n, failed) at h)
      | inr (rows, got) ↦
          let (r, m, g) = check_rows-In fnmatch action table rows (rw (on, n, got) at h) in
          inr (rows, got, r, m, ground arith, ground arith)
    ]
  ]

  Granted-check :
      (s : RbacStore)
      → s.enabled ≡ true
      → (is_admin claims.role ≡ true) ⊎ Granted
      → check fnmatch (some s) select (some claims) action table ≡ true
  unfolding check
  Granted-check s on (inl y) = rw (on, y) refl
  Granted-check s on (inr (rows, got, r, m, a, b)) = elim (Bool-cases (is_admin claims.role)) [
    | inl y ↦ rw (on, y) refl
    | inr n ↦ rw (on, n, got) (In-check_rows fnmatch action table rows r m (ground arith))
  ]

  -- With the checks enabled a client without claims is refused, and one with claims is let through
  -- exactly if it is an administrator, or the query for its role succeeds and some row of the
  -- answer, whichever its place, has a pattern that matches the table (or is `*`) and has the bit
  -- of the action.
  pub check_iff :
      (s : RbacStore)
      → s.enabled ≡ true
      → (check fnmatch (some s) select none action table ≡ false)
        × ((check fnmatch (some s) select (some claims) action table ≡ true)
            ↔ ((is_admin claims.role ≡ true) ⊎ Granted))
  unfolding check
  check_iff s on = (rw on refl, (check-Granted s on, Granted-check s on))
