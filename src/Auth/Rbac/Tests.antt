-- ===== src/Auth/Rbac/Tests.antt =====
-- The checks of lib/auth/rbac.c on two small policies.
use napastak.Base.{
  ℕ, ◌≤◌, ◌≡◌, ◌↔◌, ◌⊎◌, refl, Bool, true, false, Option, none, some, List, [], ◌∷◌, ◌++◌,
}
use napastak.Auth.Rbac.{
  AuthRole, admin, analyst, RbacStore, AuthClaims, PolicyRow, table_read, table_drop, check,
  row_filter, is_admin, token, contains, safe_user_id,
}
use napastak.Auth.Rbac.Access.{Granted, check_iff}
use napastak.Auth.Rbac.Substitute.{specials}
use napastak.Auth.Rbac.Filter.{first_filter, Answers, row_filter_lem, specials-row_filter}

-- A pattern that matches its own name only.
abbrev same : List ℕ → List ℕ → Bool
same [] [] = true
same (c ∷ cs) (d ∷ ds) = same cs ds
same _ _ = false

abbrev store : RbacStore
store = record { enabled = true }

abbrev ann : AuthClaims
ann = record { user_id = 97 ∷ 110 ∷ []; role = analyst }

-- Her id has a quote.
abbrev eve : AuthClaims
eve = record { user_id = 101 ∷ 39 ∷ []; role = analyst }

-- `u='{user_id}'`
abbrev owner : List ℕ
owner = 117 ∷ 61 ∷ 39 ∷ (token ++ 39 ∷ [])

abbrev policies : List PolicyRow
policies =
    record { table_pattern = 116 ∷ []; allowed_actions = 0; row_filter = some [] }
    ∷ record { table_pattern = 42 ∷ []; allowed_actions = 1; row_filter = some owner }
    ∷ []

abbrev select : AuthRole → Option (List PolicyRow)
select admin = none
select _ = some policies

abbrev table : Option (List ℕ)
table = some (116 ∷ [])

check-ann : check same (some store) select (some ann) table_read table ≡ true
unfolding check
check-ann = refl

check-ann_drop : check same (some store) select (some ann) table_drop table ≡ false
unfolding check
check-ann_drop = refl

row_filter-ann :
    row_filter same (some store) select (some ann) table ≡ some (117 ∷ 61 ∷ 39 ∷ 97 ∷ 110 ∷ 39 ∷ [])
unfolding row_filter
row_filter-ann = refl

contains-owner : contains token owner ≡ true
unfolding contains
contains-owner = refl

safe_user_id-eve : safe_user_id eve.user_id ≡ false
unfolding safe_user_id
safe_user_id-eve = refl

check_iff_example :
    (check same (some store) select none table_read table ≡ false)
    × ((check same (some store) select (some ann) table_read table ≡ true)
        ↔ ((is_admin analyst ≡ true) ⊎ Granted same select ann table_read table))
check_iff_example = check_iff same select ann table_read table store refl

row_filter_lem_example :
    Answers ann.user_id
      (first_filter same table policies)
      (row_filter same (some store) select (some ann) table)
row_filter_lem_example = row_filter_lem same table select ann policies store refl refl refl

specials-row_filter_example : specials (117 ∷ 61 ∷ 39 ∷ 97 ∷ 110 ∷ 39 ∷ []) ≤ specials owner
specials-row_filter_example =
    specials-row_filter same table select ann policies store refl refl refl owner _ refl
      row_filter-ann
