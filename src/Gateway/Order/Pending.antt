-- ===== src/Gateway/Order/Pending.antt =====
-- The counters of `pipeline_topo_order` in src/gateway/api.c: `indeg[i]` is the number of entries of
-- step i that stand for a step not run yet.
use napastak.Base.{
  ℕ, zero, suc, ◌+◌, ◌-◌, ◌<◌, ◌≡◌, ◌≢◌, refl, Bool, true, false, not, ◌&&◌, ◌||◌, List, [], ◌∷◌,
  arith, ◌==◌, if◌then◌else◌, length, Bool-cases, inl, inr, ◌∙◌,
}
use napastak.Gateway.Order.{Node, is_edge, count_edges, init_from, mark, lower, relax}

-- Membership, as a test.
abbrev pub elem_of : ℕ → List ℕ → Bool
elem_of d [] = false
elem_of d (s ∷ seen) = d == s || elem_of d seen

abbrev pub pending : List ℕ → ℕ → ℕ → List ℕ → ℕ
pending seen n i [] = 0
pending seen n i (d ∷ ds) =
    if is_edge n i d && not (elem_of d seen) then suc (pending seen n i ds) else pending seen n i ds

-- The counters from step `i` on, with the steps of `seen` run.
abbrev pub Counted : List ℕ → ℕ → ℕ → List Node → Type 0
Counted seen n i [] = Unit
Counted seen n i (v ∷ vs) =
    (v.is_done ≡ false → v.indeg ≡ pending seen n i v.deps) × Counted seen n (i + 1) vs

-- Step `p` is done, if it is one of those from step `i` on.
abbrev pub Clear : ℕ → ℕ → List Node → Type 0
Clear p i [] = Unit
Clear p i (v ∷ vs) = (v.is_done ≡ false → i ≢ p) × Clear p (i + 1) vs

abbrev pub done_at : List Node → ℕ → Bool
done_at [] d = false
done_at (v ∷ vs) zero = v.is_done
done_at (v ∷ vs) (suc d) = done_at vs d

abbrev pub deps_at : List Node → ℕ → List ℕ
deps_at [] d = []
deps_at (v ∷ vs) zero = v.deps
deps_at (v ∷ vs) (suc d) = deps_at vs d

count_edges-eq-pending : (n i : ℕ) (ds : List ℕ) → count_edges n i ds ≡ pending [] n i ds
unfolding count_edges
count_edges-eq-pending n i [] = refl
count_edges-eq-pending n i (d ∷ ds) = ground (arith, count_edges-eq-pending n i ds)

pub Counted-init_from : (n i : ℕ) (steps : List (List ℕ)) → Counted [] n i (init_from n i steps)
unfolding init_from
Counted-init_from n i [] = tt
Counted-init_from n i (ds ∷ steps) =
    (λ h. count_edges-eq-pending n i ds, Counted-init_from n (i + 1) steps)

-- Taking step `p` off the counter of another step.
lower-pending :
    (seen : List ℕ) (n i p k : ℕ) (ds : List ℕ)
    → p < n
    → i ≢ p
    → elem_of p seen ≡ false
    → lower p ds (k + pending seen n i ds) ≡ k + pending (p ∷ seen) n i ds
unfolding lower
lower-pending seen n i p k [] h ne new = refl
lower-pending seen n i p k (d ∷ ds) h ne new = elim (Bool-cases (d == p)) [
  | inl y ↦
      let same : d ≡ p = ground arith in
      let counted : (is_edge n i p && not (elem_of p seen)) ≡ true = ground arith in
      let counter : k + suc (pending seen n i ds) - 1 ≡ k + pending seen n i ds = omega arith in
      let off : (is_edge n i p && not (elem_of p (p ∷ seen))) ≡ false = ground arith in
      let self : (p == p) ≡ true = ground arith in
      rw (same, counted, self, counter) (ground (arith, lower-pending seen n i p k ds h ne new))
  | inr other ↦ elim (Bool-cases (is_edge n i d && not (elem_of d seen))) [
    | inl y ↦
        let next : k + suc (pending seen n i ds) ≡ k + 1 + pending seen n i ds = omega arith in
        rw (other, y, next) (omega (arith, lower-pending seen n i p (k + 1) ds h ne new))
    | inr no_edge ↦ rw (other, no_edge) (lower-pending seen n i p k ds h ne new)
  ]
]

lower-pending_all :
    (seen : List ℕ) (n i p : ℕ) (ds : List ℕ)
    → p < n
    → i ≢ p
    → elem_of p seen ≡ false
    → lower p ds (pending seen n i ds) ≡ pending (p ∷ seen) n i ds
lower-pending_all seen n i p ds h ne new =
    let before : 0 + pending seen n i ds ≡ pending seen n i ds = omega arith in
    let after : 0 + pending (p ∷ seen) n i ds ≡ pending (p ∷ seen) n i ds = omega arith in
    rw (before, after) at (lower-pending seen n i p 0 ds h ne new)

pub Counted-mark :
    (seen : List ℕ) (n i j : ℕ) (vs : List Node)
    → Counted seen n i vs
    → Counted seen n i (mark j vs)
unfolding mark
Counted-mark seen n i j [] c = tt
Counted-mark seen n i zero (v ∷ vs) c = (λ h. cc, c.1)
Counted-mark seen n i (suc j) (v ∷ vs) c = (c.0, Counted-mark seen n (i + 1) j vs c.1)

Clear-above : (p i : ℕ) (vs : List Node) → p < i → Clear p i vs
Clear-above p i [] h = tt
Clear-above p i (v ∷ vs) h = (λ d e. omega (arith, e), Clear-above p (i + 1) vs (omega arith))

pub Clear-mark : (p i j : ℕ) (vs : List Node) → p ≡ i + j → Clear p i (mark j vs)
unfolding mark
Clear-mark p i j [] e = tt
Clear-mark p i zero (v ∷ vs) e = (λ h. cc, Clear-above p (i + 1) vs (omega arith))
Clear-mark p i (suc j) (v ∷ vs) e =
    (λ h q. omega (arith, q), Clear-mark p (i + 1) j vs (omega arith))

pub Counted-relax :
    (seen : List ℕ) (n p i : ℕ) (vs : List Node)
    → p < n
    → elem_of p seen ≡ false
    → Clear p i vs
    → Counted seen n i vs
    → Counted (p ∷ seen) n i (relax p vs)
unfolding relax
Counted-relax seen n p i [] h new q c = tt
Counted-relax seen n p i (v ∷ vs) h new q c =
    (here, Counted-relax seen n p (i + 1) vs h new q.1 c.1)
  where
    here :
        (if v.is_done then v else record v { indeg = lower p v.deps v.indeg }).is_done ≡ false
        → (if v.is_done then v else record v { indeg = lower p v.deps v.indeg }).indeg
          ≡ pending
              (p ∷ seen)
              n
              i
              (if v.is_done then v else record v { indeg = lower p v.deps v.indeg }).deps
    here = elim (Bool-cases v.is_done) [
      | inl y ↦ rw y (λ d. cc)
      | inr still ↦
          rw (still, c.0 still) (λ d. lower-pending_all seen n i p v.deps h (q.0 still) new)
    ]

pub done_at-relax : (p d : ℕ) (vs : List Node) → done_at (relax p vs) d ≡ done_at vs d
unfolding relax
done_at-relax p d [] = refl
done_at-relax p zero (v ∷ vs) = ground arith
done_at-relax p (suc d) (v ∷ vs) = done_at-relax p d vs

pub done_at-mark :
    (p d : ℕ) (vs : List Node) → p < length vs → done_at (mark p vs) d ≡ (d == p || done_at vs d)
unfolding mark
done_at-mark p d [] h = elim h [ ]
done_at-mark zero zero (v ∷ vs) h = refl
done_at-mark zero (suc d) (v ∷ vs) h = ground arith
done_at-mark (suc p) zero (v ∷ vs) h = ground arith
done_at-mark (suc p) (suc d) (v ∷ vs) h =
    let same : (suc d == suc p) ≡ (d == p) = ground arith in
    rw same (done_at-mark p d vs (omega arith))

deps_at-relax : (p d : ℕ) (vs : List Node) → deps_at (relax p vs) d ≡ deps_at vs d
unfolding relax
deps_at-relax p d [] = refl
deps_at-relax p zero (v ∷ vs) = elim (Bool-cases v.is_done) [
  | inl y ↦ rw y refl
  | inr n ↦ rw n refl
]
deps_at-relax p (suc d) (v ∷ vs) = deps_at-relax p d vs

deps_at-mark : (j d : ℕ) (vs : List Node) → deps_at (mark j vs) d ≡ deps_at vs d
unfolding mark
deps_at-mark j d [] = refl
deps_at-mark zero zero (v ∷ vs) = refl
deps_at-mark zero (suc d) (v ∷ vs) = refl
deps_at-mark (suc j) zero (v ∷ vs) = refl
deps_at-mark (suc j) (suc d) (v ∷ vs) = deps_at-mark j d vs

pub deps_at-advance : (p d : ℕ) (vs : List Node) → deps_at (relax p (mark p vs)) d ≡ deps_at vs d
deps_at-advance p d vs = deps_at-relax p d (mark p vs) ∙ deps_at-mark p d vs
