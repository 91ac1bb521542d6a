-- ===== src/Storage/Compress/Rle/Roundtrip.antt =====
-- What the decoder makes of the encoder's runs, in lib/storage/compress.c.
use napastak.Base.{
  ℕ, zero, suc, ◌+◌, ◌*◌, ◌≤◌, ◌<◌, ◌≡◌, refl, ap, ap₂, ◌∙◌, ◌&&◌, List, [], ◌∷◌, ◌++◌, arith, ltb,
  leb, true, some, Eq, length, length-replicate, replicate, take_all, Bool-cases, inl, inr,
}
use mathlib.Core.List.{append-nil}
use napastak.Storage.Compress.Rle.{
  max_run, count_from, runs_from, Runs, room, passes, rle_encode, expand, rle_decode,
}

replicate-append-cons {ℓ} :
    {A : Type ℓ} (n : ℕ) (v : A) (xs : List A) → replicate (suc n) v ++ xs ≡ replicate n v ++ v ∷ xs
replicate-append-cons zero v xs = refl
replicate-append-cons (suc n) v xs = ap (λ t. v ∷ t) (replicate-append-cons n v xs)

replicate-add-one-append {ℓ} :
    {A : Type ℓ} (n : ℕ) (v x : A) (xs : List A)
    → x ≡ v
    → replicate (n + 1) v ++ xs ≡ replicate n v ++ x ∷ xs
replicate-add-one-append n v x xs p =
    let s : n + 1 ≡ suc n = omega arith in rw (s, p) (replicate-append-cons n v xs)

leb_yes : (n m : ℕ) → n ≤ m → leb n m ≡ true
leb_yes n m h = ground (arith, h)

module _ {ℓ} {A : Type ℓ} ⦃e : Eq A⦄ where
  -- The runs written from row `n` of a run of `v` on stand for those rows and the rest.
  expand-runs_from :
      (v : A) (n : ℕ) (xs : List A) → n ≤ max_run → expand (runs_from v n xs) ≡ replicate n v ++ xs
  unfolding runs_from expand
  expand-runs_from v n [] h = ap (λ k. replicate k v ++ []) (omega arith)
  expand-runs_from v n (x ∷ xs) h = elim (Bool-cases (ltb n max_run && e.beq x v)) [
    | inl t ↦ rw t (
        expand-runs_from v (n + 1) xs (ground arith)
        ∙ replicate-add-one-append n v x xs ((e.beq_iff x v).0 (ground arith)))
    | inr f ↦
        rw f (ap₂ (λ k t. replicate k v ++ t) (omega arith) (expand-runs_from x 1 xs (omega arith)))
  ]

  -- With fewer rows than the bound on a run, the second pass writes as many runs as the first
  -- pass counted.
  length-runs_from :
      (v : A) (n : ℕ) (xs : List A)
      → n + length xs ≤ max_run
      → length (runs_from v n xs) ≡ count_from v xs
  unfolding runs_from count_from
  length-runs_from v n [] h = refl
  length-runs_from v n (x ∷ xs) h =
      ground (arith, length-runs_from v (n + 1) xs, length-runs_from x 1 xs)

  rle_decode-passes :
      (xs : List A)
      → length xs ≤ max_run
      → (length (passes xs).runs ≡ (passes xs).nruns) × (rle_decode (passes xs) ≡ xs)
  unfolding rle_decode passes
  rle_decode-passes [] h = (refl, refl)
  rle_decode-passes (x ∷ xs) h =
      let same = length-runs_from x 1 xs (omega arith) in
      (
        same,
        rw (← same, take_all (length (runs_from x 1 xs)) (runs_from x 1 xs) (omega arith))
            (expand-runs_from x 1 xs (omega arith)),
      )

  pub rle_encode-fits :
      (xs : List A)
      → length (passes xs).runs ≤ room (passes xs).nruns
      → rle_encode xs ≡ some (passes xs)
  unfolding rle_encode
  rle_encode-fits xs h = rw (leb_yes (length (passes xs).runs) (room (passes xs).nruns) h) refl

  -- A column of at most 65535 rows is encoded within the arrays that are allocated, as many runs
  -- being written as were counted, and comes back from its runs as it was.
  pub rle_decode-rle_encode :
      (xs : List A)
      → length xs ≤ max_run
      → (r : Runs A) × (rle_encode xs ≡ some r) × (length r.runs ≡ r.nruns) × (rle_decode r ≡ xs)
  rle_decode-rle_encode xs h =
      let (same, back) = rle_decode-passes xs h in
      (passes xs, rle_encode-fits xs (omega (arith, same)), same, back)

  -- The first `max_run` rows of a longer run close it, and another run starts.
  runs_from-replicate :
      (v : A) (k n : ℕ)
      → n ≤ max_run
      → max_run < n + k
      → (m : ℕ) × (max_run + 1 + m ≡ n + k)
        × (runs_from v n (replicate k v) ≡ (max_run, v) ∷ runs_from v 1 (replicate m v))
  unfolding runs_from
  runs_from-replicate v zero n h p = absurd (omega arith)
  runs_from-replicate v (suc k) n h p = elim (Bool-cases (ltb n max_run)) [
    | inl t ↦
        let (m, e, q) = runs_from-replicate v k (n + 1) (ground arith) (omega arith) in
        (m, omega (arith, e), rw (t, (e_refl v)) q)
    | inr f ↦
        rw f (k, ground arith, ap (λ c. (c, v) ∷ runs_from v 1 (replicate k v)) (ground arith))
  ]
    where
      e_refl : (w : A) → e.beq w w ≡ true
      e_refl w = (e.beq_iff w w).1 refl

  count_from-replicate : (v : A) (k : ℕ) → count_from v (replicate k v) ≡ 1
  unfolding count_from
  count_from-replicate v zero = refl
  count_from-replicate v (suc k) = rw ((e.beq_iff v v).1 refl) (count_from-replicate v k)

  -- A column of one repeated value that is longer than the bound on a run, and at most twice as
  -- long: one entry is counted, two are written, for which there is room, and decoding gives back
  -- only the first 65535 rows.
  pub rle_encode_overrun :
      (v : A) (k : ℕ)
      → max_run ≤ k
      → suc k ≤ 2 * max_run
      → (r : Runs A) × (rle_encode (replicate (suc k) v) ≡ some r)
        × (r.nruns ≡ 1)
        × (length r.runs ≡ 2)
        × (rle_decode r ≡ replicate max_run v)
  unfolding rle_decode passes
  rle_encode_overrun v k h top =
      let (m, size, eq) = runs_from-replicate v k 1 (omega arith) (omega arith) in
      let one = count_from-replicate v k in
      let last : length (runs_from v 1 (replicate m v)) ≡ 1 =
        length-runs_from v 1 (replicate m v) (omega (arith, size, top, length-replicate m v))
        ∙ count_from-replicate v m in
      let two : length (runs_from v 1 (replicate k v)) ≡ 2 = ap length eq ∙ ap suc last in
      (
        passes (replicate (suc k) v),
        rle_encode-fits (replicate (suc k) v) (rw (one, two) (omega arith)),
        one,
        two,
        rw (one, eq) (append-nil (replicate max_run v)),
      )
