-- ===== src/Auth/Rbac.antt =====
-- The checks of lib/auth/rbac.c. A `char *` is the list of its bytes. SQLite and `fnmatch` are
-- arguments: `select` answers a query with the rows of a role in the order of their ids, or with
-- `none` where it cannot be prepared.
pub mod Access
pub mod Substitute
pub mod Filter
mod Tests
use napastak.Base.{
  ℕ, zero, suc, ◌+◌, ◌/◌, ◌%◌, ◌^◌, Bool, true, false, not, ◌&&◌, ◌||◌, Option, none, some, List,
  [], ◌∷◌, ◌++◌, ltb, ◌==◌, if◌then◌else◌, length,
}

pub data AuthRole : Type 0 where
  admin analyst viewer : AuthRole

-- A flag of `RbacAction` by the bit that it sets.
pub data RbacAction : Type 0 where
  table_read table_write table_create table_drop : RbacAction
  pipeline_run pipeline_edit administer metrics_read : RbacAction

abbrev pub bit : RbacAction → ℕ
bit table_read = 0
bit table_write = 1
bit table_create = 2
bit table_drop = 3
bit pipeline_run = 4
bit pipeline_edit = 5
bit administer = 6
bit metrics_read = 7

-- `allowed & (uint32_t)action`
unfoldable pub allows : ℕ → RbacAction → Bool
allows allowed action = allowed / 2 ^ bit action % 2 == 1

pub record AuthClaims : Type 0 where
  pub user_id : List ℕ
  pub role : AuthRole

pub record RbacStore : Type 0 where
  pub enabled : Bool

-- The columns that the two queries read.
pub record PolicyRow : Type 0 where
  pub table_pattern : List ℕ
  pub allowed_actions : ℕ
  pub row_filter : Option (List ℕ)

abbrev pub star : List ℕ
star = 42 ∷ []

abbrev pub is_star : List ℕ → Bool
is_star (c ∷ []) = c == 42
is_star _ = false

-- `table_name ? table_name : "*"`
abbrev pub checked_name : Option (List ℕ) → List ℕ
checked_name none = star
checked_name (some name) = name

abbrev pub is_admin : AuthRole → Bool
is_admin admin = true
is_admin _ = false

-- `safe_user_id` for an id that is not a null pointer: no quote and no backslash.
unfoldable pub safe_user_id : List ℕ → Bool
safe_user_id [] = true
safe_user_id (c ∷ cs) = if c == 39 || c == 92 then false else safe_user_id cs

-- `{user_id}`
abbrev pub token : List ℕ
token = 123 ∷ 117 ∷ 115 ∷ 101 ∷ 114 ∷ 95 ∷ 105 ∷ 100 ∷ 125 ∷ []

-- `strncmp(p, s, strlen(s)) == 0`
unfoldable pub is_prefix : List ℕ → List ℕ → Bool
is_prefix [] p = true
is_prefix (c ∷ s) [] = false
is_prefix (c ∷ s) (d ∷ p) = if c == d then is_prefix s p else false

-- `strstr(p, s) != NULL`
unfoldable pub contains : List ℕ → List ℕ → Bool
unfolding is_prefix
contains s [] = is_prefix s []
contains s (d ∷ p) = let later = contains s p in if is_prefix s (d ∷ p) then true else later

abbrev pub limit : ℕ
limit = 1020

-- The loop over `p` with `off` bytes written. `p += 9` passes over a byte here and over 8 more in
-- the next rounds, which is what `skip` counts.
unfoldable pub substitute : ℕ → List ℕ → List ℕ → ℕ → List ℕ
unfolding is_prefix
substitute skip uid [] off = []
substitute (suc skip) uid (c ∷ p) off = substitute skip uid p off
substitute zero uid (c ∷ p) off =
    let fits = uid ++ substitute 8 uid p (off + length uid) in
    let dropped = substitute 8 uid p off in
    let copied = c ∷ substitute zero uid p (off + 1) in
    if ltb off limit
    then if is_prefix token (c ∷ p)
      then if ltb (off + length uid) limit then fits else dropped
      else copied
    else []

-- What a filter becomes for a user; `none` is the `break` with no result.
unfoldable pub filter_for : List ℕ → List ℕ → Option (List ℕ)
unfolding contains safe_user_id substitute
filter_for uid filter =
    if contains token filter
    then if safe_user_id uid then some (substitute 0 uid filter 0) else none
    else some filter

module _ (fnmatch : List ℕ → List ℕ → Bool) where
  abbrev pub matches : List ℕ → Option (List ℕ) → Bool
  matches pattern table = fnmatch pattern (checked_name table) || is_star pattern

  unfoldable pub check_rows : RbacAction → Option (List ℕ) → List PolicyRow → Bool
  unfolding allows
  check_rows action table [] = false
  check_rows action table (r ∷ rs) =
      if matches r.table_pattern table && allows r.allowed_actions action
      then true
      else check_rows action table rs

  -- An absent or empty filter is passed over, and so is a row for other tables.
  unfoldable pub filter_rows : List ℕ → Option (List ℕ) → List PolicyRow → Option (List ℕ)
  unfolding filter_for
  filter_rows uid table [] = none
  filter_rows uid table (r ∷ rs) =
      let rest = filter_rows uid table rs in
      elim r.row_filter [
        | none ↦ rest
        | some [] ↦ rest
        | some (c ∷ f) ↦ if matches r.table_pattern table then filter_for uid (c ∷ f) else rest
      ]

  -- `true` for the result 0.
  unfoldable pub check :
      Option RbacStore
      → (AuthRole → Option (List PolicyRow))
      → Option AuthClaims
      → RbacAction
      → Option (List ℕ)
      → Bool
  unfolding check_rows
  check none select claims action table = true
  check (some s) select none action table = not s.enabled
  check (some s) select (some claims) action table =
      if not s.enabled || is_admin claims.role
      then true
      else elim (select claims.role) [ none ↦ false | some rows ↦ check_rows action table rows ]

  -- `none` is the null pointer.
  unfoldable pub row_filter :
      Option RbacStore
      → (AuthRole → Option (List PolicyRow))
      → Option AuthClaims
      → Option (List ℕ)
      → Option (List ℕ)
  unfolding filter_rows
  row_filter none select claims table = none
  row_filter (some s) select none table = none
  row_filter (some s) select (some claims) table =
      if not s.enabled || is_admin claims.role then none else elim (select claims.role) [
        | none ↦ none
        | some rows ↦ filter_rows claims.user_id table rows
      ]
