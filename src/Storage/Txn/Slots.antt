-- ===== src/Storage/Txn/Slots.antt =====
-- The pool of slots of lib/storage/txn.c: searching it, and writing to one slot.
use napastak.Base.{
  ℕ, zero, suc, ◌+◌, ◌<◌, ◌≡◌, refl, Bool, true, false, Option, none, some, List, [], ◌∷◌, arith,
  if◌then◌else◌, length, get_elem?, Bool-cases, inl, inr, ap,
}
use napastak.Storage.Txn.{Txn, index_from, modify}

-- The first slot that passes a test, and that at most one does.
abbrev pub first : (Txn → Bool) → List Txn → Option Txn
first p [] = none
first p (t ∷ ts) = if p t then some t else first p ts

abbrev pub AtMostOne : (Txn → Bool) → List Txn → Type 0
AtMostOne p [] = Unit
AtMostOne p (t ∷ ts) = (p t ≡ true → first p ts ≡ none) × AtMostOne p ts

pub length-modify : (j : ℕ) (f : Txn → Txn) (ts : List Txn) → length (modify j f ts) ≡ length ts
unfolding modify
length-modify zero f [] = refl
length-modify (suc j) f [] = refl
length-modify zero f (t ∷ ts) = refl
length-modify (suc j) f (t ∷ ts) = ap suc (length-modify j f ts)

pub get_elem?-modify :
    (j : ℕ) (f : Txn → Txn) (ts : List Txn) (t : Txn)
    → get_elem? ts j ≡ some t
    → get_elem? (modify j f ts) j ≡ some (f t)
unfolding modify
get_elem?-modify zero f [] t h = cc
get_elem?-modify (suc j) f [] t h = cc
get_elem?-modify zero f (u ∷ ts) t h = cc
get_elem?-modify (suc j) f (u ∷ ts) t h = get_elem?-modify j f ts t h

module _ (p : Txn → Bool) where
  pub index_from-none : (k : ℕ) (ts : List Txn) → index_from p k ts ≡ none → first p ts ≡ none
  unfolding index_from
  index_from-none k [] h = refl
  index_from-none k (t ∷ ts) h = ground (arith, index_from-none (k + 1) ts)

  pub index_from-some :
      (k i : ℕ) (ts : List Txn)
      → index_from p k ts ≡ some i
      → (j : ℕ) × (i ≡ k + j)
        × (j < length ts)
        × (t : Txn) × (get_elem? ts j ≡ some t)
        × (p t ≡ true)
        × (first p ts ≡ some t)
  unfolding index_from
  index_from-some k i [] h = cc
  index_from-some k i (t ∷ ts) h = elim (Bool-cases (p t)) [
    | inl y ↦
        let here : k ≡ i = cc (rw y at h) in
        (0, omega (arith, here), omega arith, t, refl, y, rw y refl)
    | inr n ↦
        let (j, e, l, u, got, yes', eq) = index_from-some (k + 1) i ts (rw n at h) in
        (suc j, omega (arith, e), omega arith, u, got, yes', rw n eq)
  ]

  -- The first slot that passes the test is written and still passes it.
  pub first-modify_hit :
      (k j : ℕ) (f : Txn → Txn) (ts : List Txn) (t : Txn)
      → index_from p k ts ≡ some (k + j)
      → get_elem? ts j ≡ some t
      → p (f t) ≡ true
      → first p (modify j f ts) ≡ some (f t)
  unfolding index_from modify
  first-modify_hit k zero f [] t h g y = cc
  first-modify_hit k (suc j) f [] t h g y = cc
  first-modify_hit k zero f (u ∷ ts) t h g y = let same : u ≡ t = cc in rw (same, y) refl
  first-modify_hit k (suc j) f (u ∷ ts) t h g y = elim (Bool-cases (p u)) [
    | inl yes' ↦
        let here : some k ≡ some (k + suc j) = rw yes' at h in
        let bad : k ≡ k + suc j = cc here in absurd (omega (arith, bad))
    | inr n ↦
        let e : k + suc j ≡ k + 1 + j = omega arith in
        rw n (first-modify_hit (k + 1) j f ts t (rw (n, e) at h) g y)
  ]

  pub first-some :
      (j : ℕ) (ts : List Txn) (t : Txn)
      → get_elem? ts j ≡ some t
      → p t ≡ true
      → first p ts ≡ none
      → ⊥
  first-some j [] t g y h = cc
  first-some zero (u ∷ ts) t g y h = let same : u ≡ t = cc in ground (arith, ap p same)
  first-some (suc j) (u ∷ ts) t g y h = ground (arith, first-some j ts t)

  module _ (f : Txn → Txn) where
    pub first-modify_other :
        (j : ℕ) (ts : List Txn) (t : Txn)
        → get_elem? ts j ≡ some t
        → p t ≡ false
        → p (f t) ≡ false
        → first p (modify j f ts) ≡ first p ts
    unfolding modify
    first-modify_other zero [] t g n m = refl
    first-modify_other (suc j) [] t g n m = refl
    first-modify_other zero (u ∷ ts) t g n m = let same : u ≡ t = cc in rw (same, n, m) refl
    first-modify_other (suc j) (u ∷ ts) t g n m = rw (first-modify_other j ts t g n m) refl

    first-modify_absent :
        (j : ℕ) (ts : List Txn) (t : Txn)
        → get_elem? ts j ≡ some t
        → first p ts ≡ none
        → p (f t) ≡ false
        → first p (modify j f ts) ≡ none
    unfolding modify
    first-modify_absent zero [] t g h n = refl
    first-modify_absent (suc j) [] t g h n = refl
    first-modify_absent zero (u ∷ ts) t g h n =
        let same : u ≡ t = cc in ground (arith, ap p same, ap (λ x. p (f x)) same)
    first-modify_absent (suc j) (u ∷ ts) t g h n = ground (arith, first-modify_absent j ts t)

    -- The only slot that passes the test is written and no longer passes it.
    pub first-modify_gone :
        (j : ℕ) (ts : List Txn) (t : Txn)
        → AtMostOne p ts
        → get_elem? ts j ≡ some t
        → p t ≡ true
        → p (f t) ≡ false
        → first p (modify j f ts) ≡ none
    unfolding modify
    first-modify_gone zero [] t a g y n = refl
    first-modify_gone (suc j) [] t a g y n = refl
    first-modify_gone zero (u ∷ ts) t a g y n =
        let same : u ≡ t = cc in rw (same, n) (a.0 (rw same y))
    first-modify_gone (suc j) (u ∷ ts) t a g y n = elim (Bool-cases (p u)) [
      | inl first_here ↦ absurd (first-some j ts t g y (a.0 first_here))
      | inr later ↦ rw later (first-modify_gone j ts t a.1 g y n)
    ]

    -- A slot is written so that it is the only one to pass the test.
    pub first-modify_new :
        (j : ℕ) (ts : List Txn) (t : Txn)
        → first p ts ≡ none
        → get_elem? ts j ≡ some t
        → p (f t) ≡ true
        → first p (modify j f ts) ≡ some (f t)
    unfolding modify
    first-modify_new zero [] t h g y = cc
    first-modify_new (suc j) [] t h g y = cc
    first-modify_new zero (u ∷ ts) t h g y = let same : u ≡ t = cc in rw (same, y) refl
    first-modify_new (suc j) (u ∷ ts) t h g y = ground (arith, first-modify_new j ts t)

    -- A slot that passes the test after a write passed it before.
    pub AtMostOne-modify_keep :
        (j : ℕ) (ts : List Txn) (t : Txn)
        → AtMostOne p ts
        → get_elem? ts j ≡ some t
        → (p (f t) ≡ true → p t ≡ true)
        → AtMostOne p (modify j f ts)
    unfolding modify
    AtMostOne-modify_keep zero [] t a g k = tt
    AtMostOne-modify_keep (suc j) [] t a g k = tt
    AtMostOne-modify_keep zero (u ∷ ts) t a g k =
        let same : u ≡ t = cc in (λ y. a.0 (rw same (k (rw (← same) y))), a.1)
    AtMostOne-modify_keep (suc j) (u ∷ ts) t a g k =
        (λ y. alone (a.0 y), AtMostOne-modify_keep j ts t a.1 g k)
      where
        alone : first p ts ≡ none → first p (modify j f ts) ≡ none
        alone none' = elim (Bool-cases (p (f t))) [
          | inl y ↦ absurd (first-some j ts t g (k y) none')
          | inr n ↦ first-modify_absent j ts t g none' n
        ]

    -- No slot passes the test before a write.
    pub AtMostOne-modify_new :
        (j : ℕ) (ts : List Txn) → AtMostOne p ts → first p ts ≡ none → AtMostOne p (modify j f ts)
    unfolding modify
    AtMostOne-modify_new zero [] a h = tt
    AtMostOne-modify_new (suc j) [] a h = tt
    AtMostOne-modify_new zero (u ∷ ts) a h = (λ y. ground arith, a.1)
    AtMostOne-modify_new (suc j) (u ∷ ts) a h =
        (λ y. ground arith, AtMostOne-modify_new j ts a.1 (ground arith))
