-- ===== src/Cluster/Proto/Reading.antt =====
-- `write_all` and `read_all` of lib/cluster/proto.c over a socket that does its work in pieces.
use napastak.Base.{
  ℕ, zero, suc, ◌+◌, ◌-◌, ◌≤◌, ◌≡◌, refl, min, List, [], ◌∷◌, ◌++◌, arith, length, take, drop, ap,
}
use napastak.Cluster.Proto.{Answer, moved, interrupted, failed, success, write_all, read_all}

-- Answers that fail nowhere, and how many of them move a byte or more.
abbrev pub Flowing : List Answer → Type 0
Flowing [] = Unit
Flowing (moved zero ∷ qs) = ⊥
Flowing (moved (suc k) ∷ qs) = Flowing qs
Flowing (interrupted ∷ qs) = Flowing qs
Flowing (failed ∷ qs) = ⊥

abbrev pub moves : List Answer → ℕ
moves [] = 0
moves (moved k ∷ qs) = suc (moves qs)
moves (interrupted ∷ qs) = moves qs
moves (failed ∷ qs) = moves qs

take-drop : (n : ℕ) (xs : List ℕ) → take n xs ++ drop n xs ≡ xs
take-drop zero xs = refl
take-drop (suc n) [] = refl
take-drop (suc n) (x ∷ xs) = ap (λ t. x ∷ t) (take-drop n xs)

length-drop : (n : ℕ) (xs : List ℕ) → length (drop n xs) ≡ length xs - n
length-drop zero xs = omega arith
length-drop (suc n) [] = omega arith
length-drop (suc n) (x ∷ xs) = omega (arith, length-drop n xs)

take-append_le : (n : ℕ) (xs ys : List ℕ) → n ≤ length xs → take n (xs ++ ys) ≡ take n xs
take-append_le zero xs ys h = refl
take-append_le (suc n) [] ys h = absurd (omega arith)
take-append_le (suc n) (x ∷ xs) ys h = ap (λ t. x ∷ t) (take-append_le n xs ys (omega arith))

drop-append_le : (n : ℕ) (xs ys : List ℕ) → n ≤ length xs → drop n (xs ++ ys) ≡ drop n xs ++ ys
drop-append_le zero xs ys h = refl
drop-append_le (suc n) [] ys h = absurd (omega arith)
drop-append_le (suc n) (x ∷ xs) ys h = drop-append_le n xs ys (omega arith)

-- The answers that are left when `n` bytes have moved.
pub record Left (n : ℕ) (qs rest : List Answer) : Type 0 where
  pub flowing : Flowing rest
  pub enough : moves qs ≤ moves rest + n

-- All bytes are read, in their order and no more, however they are cut into pieces.
pub read_all_lem :
    (qs : List Answer) (n : ℕ) (xs st : List ℕ)
    → Flowing qs
    → length xs ≡ n
    → n ≤ moves qs
    → (rest : List Answer) × (read_all qs n (xs ++ st)
        ≡ record { bytes = xs; ending = success; answers = rest; stream = st })
      × Left n qs rest
unfolding read_all
read_all_lem qs zero [] st f l h = (qs, refl, record { flowing = f; enough = omega arith })
read_all_lem qs zero (x ∷ xs) st f l h = absurd (omega arith)
read_all_lem [] (suc n) xs st f l h = absurd (omega arith)
read_all_lem (interrupted ∷ qs) (suc n) xs st f l h =
    let (rest, eq, left) = read_all_lem qs (suc n) xs st f l h in
    (rest, eq, record { flowing = left.flowing; enough = left.enough })
read_all_lem (failed ∷ qs) (suc n) xs st f l h = absurd f
read_all_lem (moved zero ∷ qs) (suc n) xs st f l h = absurd f
read_all_lem (moved (suc k) ∷ qs) (suc n) xs st f l h =
    let m = min (suc k) (suc n) in
    let small : m ≤ length xs = omega arith in
    let (rest, eq, left) =
      read_all_lem qs (suc n - m) (drop m xs) st f (omega (arith, length-drop m xs))
        (omega arith) in
    (
      rest,
      rw (take-append_le m xs st small, drop-append_le m xs st small, eq)
          (ap
            (λ (bs : List ℕ). record { bytes = bs; ending = success; answers = rest; stream = st })
            (take-drop m xs)),
      record { flowing = left.flowing; enough = omega (arith, left.enough) },
    )

-- All bytes are written, in their order, however they are cut into pieces.
pub write_all_lem :
    (qs : List Answer) (bs : List ℕ)
    → Flowing qs
    → length bs ≤ moves qs
    → (rest : List Answer) × (write_all qs bs
        ≡ record { bytes = bs; ending = success; answers = rest })
      × Left (length bs) qs rest
unfolding write_all
write_all_lem qs [] f h = (qs, refl, record { flowing = f; enough = omega arith })
write_all_lem [] (b ∷ bs) f h = absurd (omega arith)
write_all_lem (interrupted ∷ qs) (b ∷ bs) f h =
    let (rest, eq, left) = write_all_lem qs (b ∷ bs) f h in
    (rest, eq, record { flowing = left.flowing; enough = left.enough })
write_all_lem (failed ∷ qs) (b ∷ bs) f h = absurd f
write_all_lem (moved zero ∷ qs) (b ∷ bs) f h = absurd f
write_all_lem (moved (suc k) ∷ qs) (b ∷ bs) f h =
    let short = length-drop k bs in
    let (rest, eq, left) = write_all_lem qs (drop k bs) f (omega (arith, short)) in
    (
      rest,
      rw eq (
          ap (λ (t : List ℕ). record { bytes = b ∷ t; ending = success; answers = rest })
            (take-drop k bs)),
      record { flowing = left.flowing; enough = omega (arith, left.enough, short) },
    )
