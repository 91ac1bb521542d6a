-- ===== src/Storage/Compress/Dict/Collect.antt =====
-- The dictionary that the encoders of lib/storage/compress.c gather, and the codes into it.
use napastak.Base.{
  ℕ, zero, suc, ◌+◌, ◌≤◌, ◌<◌, ◌≡◌, inl, inr, refl, sym, true, Option, none, some, List, [], ◌∷◌,
  ◌++◌, map, arith, leb, Eq, length, get_or, get_elem?, length-append, All, In, In-append_left,
  In-append_right, All-append, Bool-cases, subst,
}
use napastak.Storage.Compress.Dict.{max_dict, contains, collect, linear_search, narrow, code_cells}

-- The value of a row, where it has one, is in the dictionary.
abbrev pub Covered : {A : Type 0} → List A → Option A → Type 0
Covered d none = Unit
Covered d (some v) = In v d

-- A property of the values of the rows.
abbrev pub Holds : {A : Type 0} → (A → Type 0) → Option A → Type 0
Holds P none = Unit
Holds P (some v) = P v

module _ {A : Type 0} ⦃e : Eq A⦄ where
  contains-In : (xs : List A) (v : A) → contains xs v ≡ true → In v xs
  unfolding contains
  contains-In [] v h = cc
  contains-In (x ∷ xs) v h = elim (Bool-cases (e.beq x v)) [
    | inl t ↦ inl (sym ((e.beq_iff x v).0 t))
    | inr f ↦ inr (contains-In xs v (rw f at h))
  ]

  -- A gathered dictionary holds what was there before and the value of every row.
  pub collect-Covered :
      (uniq : List A) (cs : List (Option A)) (d : List A)
      → collect uniq cs ≡ some d
      → ((v : A) → In v uniq → In v d) × All (Covered d) cs
  unfolding collect
  collect-Covered uniq [] d h = let same : uniq ≡ d = cc in (λ v m. subst (λ t. In v t) same m, tt)
  collect-Covered uniq (none ∷ cs) d h =
      let (old, rest) = collect-Covered uniq cs d h in (old, (tt, rest))
  collect-Covered uniq (some v ∷ cs) d h = elim (Bool-cases (contains uniq v)) [
    | inl t ↦
        let (old, rest) = collect-Covered uniq cs d (rw t at h) in
        (old, (old v (contains-In uniq v t), rest))
    | inr f ↦
        let (old, rest) = collect-Covered (uniq ++ v ∷ []) cs d (ground arith) in
        (
          λ w m. old w (In-append_left w uniq (v ∷ []) m),
          (old v (In-append_right v uniq (v ∷ []) (inl refl)), rest),
        )
  ]

  -- It holds nothing else, and is no larger than its bound.
  pub collect-All :
      (P : A → Type 0) (uniq : List A) (cs : List (Option A)) (d : List A)
      → collect uniq cs ≡ some d
      → All P uniq
      → All (Holds P) cs
      → length uniq ≤ max_dict
      → All P d × (length d ≤ max_dict)
  unfolding collect
  collect-All P uniq [] d h u c l =
      let same : uniq ≡ d = cc in subst (λ t. All P t × (length t ≤ max_dict)) same (u, l)
  collect-All P uniq (none ∷ cs) d h u c l = collect-All P uniq cs d h u c.1 l
  collect-All P uniq (some v ∷ cs) d h u c l = elim (Bool-cases (contains uniq v)) [
    | inl t ↦ collect-All P uniq cs d (rw t at h) u c.1 l
    | inr f ↦
        collect-All P (uniq ++ v ∷ []) cs d (ground arith) (All-append P uniq (v ∷ []) u (c.0, tt))
          c.1 (ground (arith, length-append uniq (v ∷ [])))
  ]

  pub linear_search-get_or :
      (xs : List A) (v d : A) (j : ℕ)
      → In v xs
      → (k : ℕ) × (linear_search xs v j ≡ j + k) × (k < length xs) × (get_or xs k d ≡ v)
  unfolding linear_search
  linear_search-get_or [] v d j m = absurd m
  linear_search-get_or (x ∷ xs) v d j m = elim (Bool-cases (e.beq x v)) [
    | inl t ↦ (0, rw t (omega arith), omega arith, (e.beq_iff x v).0 t)
    | inr f ↦
        let later : In v xs = elim m [
          | inl p ↦ absurd (cc (f, (e.beq_iff x v).1 (sym p)))
          | inr q ↦ q
        ] in
        let (k, p, q, r) = linear_search-get_or xs v d (j + 1) later in
        (suc k, rw f (omega (arith, p)), omega arith, r)
  ]

-- A code below the dictionary's size keeps its value in the width that the size calls for.
pub narrow_fits : (n c : ℕ) → c < n → n ≤ max_dict → narrow (leb n 256) c ≡ c
unfolding narrow
narrow_fits n c h l = ground arith

-- A row with a value is decoded to it, if the search finds every value of the dictionary.
pub code_cells_decode :
    {A : Type 0} (dict : List A) (d : A) (find : A → ℕ) (cs : List (Option A)) (j : ℕ) (v : A)
    → length dict ≤ max_dict
    → ((w : A) → In w dict → (find w < length dict) × (get_or dict (find w) d ≡ w))
    → All (Covered dict) cs
    → get_elem? cs j ≡ some (some v)
    → get_elem? (map (λ k. get_or dict k d) (code_cells (leb (length dict) 256) find cs)) j ≡ some v
unfolding code_cells
code_cells_decode dict d find [] j v l f c h = cc
code_cells_decode dict d find (none ∷ cs) zero v l f c h = cc
code_cells_decode dict d find (none ∷ cs) (suc j) v l f c h =
    code_cells_decode dict d find cs j v l f c.1 h
code_cells_decode dict d find (some w ∷ cs) zero v l f c h =
    let (small, found) = f w c.0 in rw (narrow_fits (length dict) (find w) small l) (cc (found, h))
code_cells_decode dict d find (some w ∷ cs) (suc j) v l f c h =
    code_cells_decode dict d find cs j v l f c.1 h
