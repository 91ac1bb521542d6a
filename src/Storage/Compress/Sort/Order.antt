-- ===== src/Storage/Compress/Sort/Order.antt =====
-- The insertion sort of lib/storage/compress.c sorts, and keeps what is in the array.
use napastak.Base.{
  ℕ, zero, suc, ◌≤◌, ◌<◌, ◌≡◌, ◌⊎◌, refl, sym, ◌+◌, List, [], ◌∷◌, arith, length, get_or, All, In,
  All-mono, Bool-cases, inl, inr,
}
use napastak.Storage.Compress.Sort.{bias, signed_lt, shift_in, rev_onto, sort_from, insertion_sort}

-- Each element is at most those behind it; at least those behind it.
abbrev pub Ascending : List ℕ → Type 0
Ascending [] = Unit
Ascending (x ∷ xs) = All (λ z. bias x ≤ bias z) xs × Ascending xs

abbrev Descending : List ℕ → Type 0
Descending [] = Unit
Descending (x ∷ xs) = All (λ z. bias z ≤ bias x) xs × Descending xs

pub All-shift_in : (P : ℕ → Type 0) (k : ℕ) (ys : List ℕ) → P k → All P ys → All P (shift_in k ys)
unfolding shift_in
All-shift_in P k [] p h = (p, tt)
All-shift_in P k (y ∷ ys) p h = elim (Bool-cases (signed_lt k y)) [
  | inl t ↦ rw t (h.0, All-shift_in P k ys p h.1)
  | inr f ↦ rw f (p, h)
]

Descending-shift_in : (k : ℕ) (ys : List ℕ) → Descending ys → Descending (shift_in k ys)
unfolding shift_in
Descending-shift_in k [] h = (tt, tt)
Descending-shift_in k (y ∷ ys) h = elim (Bool-cases (signed_lt k y)) [
  | inl t ↦ rw t (
    All-shift_in (λ z. bias z ≤ bias y) k ys (unfold signed_lt in ground (arith, t)) h.0,
    Descending-shift_in k ys h.1,
  )
  | inr f ↦ rw f (
      let le : bias y ≤ bias k = unfold signed_lt in ground (arith, f) in
      ((le, All-mono _ _ (λ z p. omega arith) ys h.0), h))
]

All-and :
    {A : Type 0} (P Q : A → Type 0) (xs : List A) → All P xs → All Q xs → All (λ x. P x × Q x) xs
All-and P Q [] p q = tt
All-and P Q (x ∷ xs) p q = ((p.0, q.0), All-and P Q xs p.1 q.1)

pub All-rev_onto :
    (P : ℕ → Type 0) (ys acc : List ℕ) → All P ys → All P acc → All P (rev_onto ys acc)
unfolding rev_onto
All-rev_onto P [] acc h k = k
All-rev_onto P (y ∷ ys) acc h k = All-rev_onto P ys (y ∷ acc) h.1 (h.0, k)

Ascending-rev_onto :
    (ys acc : List ℕ)
    → Descending ys
    → Ascending acc
    → All (λ y. All (λ a. bias y ≤ bias a) acc) ys
    → Ascending (rev_onto ys acc)
unfolding rev_onto
Ascending-rev_onto [] acc d a h = a
Ascending-rev_onto (y ∷ ys) acc d a h =
    Ascending-rev_onto ys (y ∷ acc) d.1 (h.0, a) (All-and _ _ ys d.0 h.1)

All-unit : (xs : List ℕ) → All (λ y. Unit {0}) xs
All-unit [] = tt
All-unit (x ∷ xs) = (tt, All-unit xs)

Ascending-sort_from : (done xs : List ℕ) → Descending done → Ascending (sort_from done xs)
unfolding sort_from
Ascending-sort_from done [] d = Ascending-rev_onto done [] d tt (All-unit done)
Ascending-sort_from done (k ∷ ks) d =
    Ascending-sort_from (shift_in k done) ks (Descending-shift_in k done d)

pub All-sort_from :
    (P : ℕ → Type 0) (done xs : List ℕ) → All P done → All P xs → All P (sort_from done xs)
unfolding sort_from
All-sort_from P done [] d h = All-rev_onto P done [] d tt
All-sort_from P done (k ∷ ks) d h =
    All-sort_from P (shift_in k done) ks (All-shift_in P k done h.0 d) h.1

In-cons_swap :
    (a k y : ℕ) (ys zs : List ℕ) → (In a (k ∷ ys) → In a zs) → In a (k ∷ y ∷ ys) → In a (y ∷ zs)
In-cons_swap a k y ys zs f (inl e) = inr (f (inl e))
In-cons_swap a k y ys zs f (inr (inl e)) = inl e
In-cons_swap a k y ys zs f (inr (inr m)) = inr (f (inr m))

In-shift_in : (a k : ℕ) (ys : List ℕ) → In a (k ∷ ys) → In a (shift_in k ys)
unfolding shift_in
In-shift_in a k [] h = h
In-shift_in a k (y ∷ ys) h = elim (Bool-cases (signed_lt k y)) [
  | inl t ↦ rw t (In-cons_swap a k y ys (shift_in k ys) (In-shift_in a k ys) h)
  | inr f ↦ rw f h
]

In-rev_onto : (a : ℕ) (ys acc : List ℕ) → In a ys ⊎ In a acc → In a (rev_onto ys acc)
unfolding rev_onto
In-rev_onto a [] acc (inl h) = absurd h
In-rev_onto a [] acc (inr h) = h
In-rev_onto a (y ∷ ys) acc (inl (inl e)) = In-rev_onto a ys (y ∷ acc) (inr (inl e))
In-rev_onto a (y ∷ ys) acc (inl (inr m)) = In-rev_onto a ys (y ∷ acc) (inl m)
In-rev_onto a (y ∷ ys) acc (inr h) = In-rev_onto a ys (y ∷ acc) (inr (inr h))

In-sort_from : (a : ℕ) (done xs : List ℕ) → In a done ⊎ In a xs → In a (sort_from done xs)
unfolding sort_from
In-sort_from a done [] (inl h) = In-rev_onto a done [] (inl h)
In-sort_from a done [] (inr h) = absurd h
In-sort_from a done (k ∷ ks) (inl h) =
    In-sort_from a (shift_in k done) ks (inl (In-shift_in a k done (inr h)))
In-sort_from a done (k ∷ ks) (inr (inl e)) =
    In-sort_from a (shift_in k done) ks (inl (In-shift_in a k done (inl e)))
In-sort_from a done (k ∷ ks) (inr (inr m)) = In-sort_from a (shift_in k done) ks (inr m)

-- What the loops of a sort give: order, the elements, and any property of them.
pub Ascending-insertion_sort : (xs : List ℕ) → Ascending (insertion_sort xs)
unfolding insertion_sort
Ascending-insertion_sort xs = Ascending-sort_from [] xs tt

pub In-insertion_sort : (a : ℕ) (xs : List ℕ) → In a xs → In a (insertion_sort xs)
unfolding insertion_sort
In-insertion_sort a xs h = In-sort_from a [] xs (inr h)

pub All-insertion_sort : (P : ℕ → Type 0) (xs : List ℕ) → All P xs → All P (insertion_sort xs)
unfolding insertion_sort
All-insertion_sort P xs h = All-sort_from P [] xs tt h

length-shift_in : (k : ℕ) (ys : List ℕ) → length (shift_in k ys) ≡ suc (length ys)
unfolding shift_in
length-shift_in k [] = refl
length-shift_in k (y ∷ ys) = ground (arith, length-shift_in k ys)

length-rev_onto : (ys acc : List ℕ) → length (rev_onto ys acc) ≡ length ys + length acc
unfolding rev_onto
length-rev_onto [] acc = omega arith
length-rev_onto (y ∷ ys) acc = omega (arith, length-rev_onto ys (y ∷ acc))

length-sort_from : (done xs : List ℕ) → length (sort_from done xs) ≡ length done + length xs
unfolding sort_from
length-sort_from done [] = omega (arith, length-rev_onto done [])
length-sort_from done (k ∷ ks) =
    omega (arith, length-sort_from (shift_in k done) ks, length-shift_in k done)

pub length-insertion_sort : (xs : List ℕ) → length (insertion_sort xs) ≡ length xs
unfolding insertion_sort
length-insertion_sort xs = omega (arith, length-sort_from [] xs)

pub All-get_or :
    (P : ℕ → Type 0) (xs : List ℕ) (i d : ℕ) → All P xs → i < length xs → P (get_or xs i d)
All-get_or P [] i d h p = elim p [ ]
All-get_or P (x ∷ xs) zero d h p = h.0
All-get_or P (x ∷ xs) (suc i) d h p = All-get_or P xs i d h.1 (omega arith)

-- Order by index.
pub Ascending-get_or :
    (xs : List ℕ) (i j d : ℕ)
    → Ascending xs
    → i ≤ j
    → j < length xs
    → bias (get_or xs i d) ≤ bias (get_or xs j d)
Ascending-get_or [] i j d a h p = elim p [ ]
Ascending-get_or (x ∷ xs) zero zero d a h p = omega arith
Ascending-get_or (x ∷ xs) zero (suc j) d a h p =
    All-get_or (λ z. bias x ≤ bias z) xs j d a.0 (omega arith)
Ascending-get_or (x ∷ xs) (suc i) zero d a h p = absurd (omega arith)
Ascending-get_or (x ∷ xs) (suc i) (suc j) d a h p =
    Ascending-get_or xs i j d a.1 (omega arith) (omega arith)

pub In-get_or : (v d : ℕ) (xs : List ℕ) → In v xs → (i : ℕ) × (i < length xs) × (get_or xs i d ≡ v)
In-get_or v d [] m = absurd m
In-get_or v d (x ∷ xs) (inl e) = (0, omega arith, sym e)
In-get_or v d (x ∷ xs) (inr m) = let (i, p, q) = In-get_or v d xs m in (suc i, omega arith, q)
