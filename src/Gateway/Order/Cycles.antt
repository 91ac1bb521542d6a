-- ===== src/Gateway/Order/Cycles.antt =====
-- The refusals of `pipeline_topo_order` in src/gateway/api.c.
use napastak.Base.{
  ℕ, zero, suc, ◌+◌, ◌≤◌, ◌<◌, ◌≡◌, ◌≢◌, refl, true, false, not, ◌&&◌, none, List, [], ◌∷◌, arith,
  length, Bool-cases, Option-cases, inl, inr, In, ◌∙◌, subst,
}
use napastak.Gateway.Order.{
  Node, is_edge, init_from, is_ready, pick_from, mark, relax, Outcome, ordered, cycle, preceded,
  emit, stuck_from, pipeline_topo_order,
}
use napastak.Gateway.Order.Pending.{elem_of, pending, Counted, done_at, deps_at}
use napastak.Gateway.Order.Soundness.{
  IsState, advance-IsState, undone, undone-advance, deps_of, undone-init_from, init_from-IsState,
}

-- Some entry of a step that waits stands for a step that is not done.
pending-pos :
    (seen : List ℕ) (n i : ℕ) (ds : List ℕ)
    → 0 < pending seen n i ds
    → (d : ℕ) × In d ds × (is_edge n i d ≡ true) × (elem_of d seen ≡ false)
pending-pos seen n i [] h = elim h [ ]
pending-pos seen n i (d ∷ ds) h = elim (Bool-cases (is_edge n i d && not (elem_of d seen))) [
  | inl y ↦ (d, inl refl, ground arith, ground arith)
  | inr other ↦ let (e, m, a, b) = pending-pos seen n i ds (rw other at h) in (e, inr m, a, b)
]

-- No step is ready: each that is not done waits.
pick_from-none :
    (seen : List ℕ) (n i j : ℕ) (vs : List Node)
    → Counted seen n i vs
    → pick_from i vs ≡ none
    → j < length vs
    → done_at vs j ≡ false
    → 0 < pending seen n (i + j) (deps_at vs j)
unfolding pick_from
pick_from-none seen n i j [] c h l d = elim l [ ]
pick_from-none seen n i zero (v ∷ vs) c h l d = elim (Bool-cases (is_ready v)) [
  | inl y ↦ cc (rw y at h)
  | inr other ↦
      let place : i + 0 ≡ i = omega arith in
      let counter : 0 < v.indeg = ground arith in rw place (omega (arith, counter, c.0 d))
]
pick_from-none seen n i (suc j) (v ∷ vs) c h l d = elim (Bool-cases (is_ready v)) [
  | inl y ↦ cc (rw y at h)
  | inr other ↦
      let place : i + suc j ≡ i + 1 + j = omega arith in
      rw place (pick_from-none seen n (i + 1) j vs c.1 (rw other at h) (omega arith) d)
]

In-stuck_from :
    (i j : ℕ) (vs : List Node) → j < length vs → done_at vs j ≡ false → In (i + j) (stuck_from i vs)
unfolding stuck_from
In-stuck_from i j [] l d = elim l [ ]
In-stuck_from i zero (v ∷ vs) l d = rw d (inl (omega arith))
In-stuck_from i (suc j) (v ∷ vs) l d =
    let there = In-stuck_from (i + 1) j vs (omega arith) d in
    let place : i + 1 + j ≡ i + suc j = omega arith in
    let there' : In (i + suc j) (stuck_from (i + 1) vs) = rw place at there in
    elim (Bool-cases v.is_done) [ inl y ↦ rw y there' | inr n ↦ rw n (inr there') ]

stuck_from-In :
    (i k : ℕ) (vs : List Node)
    → In k (stuck_from i vs)
    → (j : ℕ) × (k ≡ i + j) × (j < length vs) × (done_at vs j ≡ false)
unfolding stuck_from
stuck_from-In i k [] m = absurd m
stuck_from-In i k (v ∷ vs) m = elim (Bool-cases v.is_done) [
  | inl y ↦
      let (j, e, l, d) = stuck_from-In (i + 1) k vs (rw y at m) in
      (suc j, omega (arith, e), omega arith, d)
  | inr n ↦ later (stuck_from-In (i + 1) k vs) n (rw n at m)
]
  where
    later :
        (In k (stuck_from (i + 1) vs)
          → (j : ℕ) × (k ≡ i + 1 + j) × (j < length vs) × (done_at vs j ≡ false))
        → v.is_done ≡ false
        → In k (i ∷ stuck_from (i + 1) vs)
        → (j : ℕ) × (k ≡ i + j) × (j < length (v ∷ vs)) × (done_at (v ∷ vs) j ≡ false)
    later rest n (inl e) = (0, omega (arith, e), omega arith, n)
    later rest n (inr m') = let (j, e, l, d) = rest m' in (suc j, omega (arith, e), omega arith, d)

some_undone :
    (vs : List Node) (k : ℕ)
    → undone vs ≡ suc k
    → (j : ℕ) × (j < length vs) × (done_at vs j ≡ false)
some_undone [] k h = absurd (omega arith)
some_undone (v ∷ vs) k h = elim (Bool-cases v.is_done) [
  | inl y ↦ let (j, l, d) = some_undone vs k (rw y at h) in (suc j, omega arith, d)
  | inr n ↦ (0, omega arith, n)
]

preceded-cycle : (p : ℕ) (r : Outcome) (s : List ℕ) → preceded p r ≡ cycle s → r ≡ cycle s
preceded-cycle p (ordered o) s h = cc
preceded-cycle p (cycle s') s h = h

-- The steps of a refusal: there is one, and each waits for another of them.
pub record Stuck (deps : ℕ → List ℕ) (n : ℕ) (s : List ℕ) : Type 0 where
  pub somewhere : (i : ℕ) × In i s
  pub waits :
      (i : ℕ) → In i s → (i < n) × ((d : ℕ) × In d (deps i) × (is_edge n i d ≡ true) × In d s)

module _ (deps : ℕ → List ℕ) (n : ℕ) where
  stuck_from-Stuck :
      (seen : List ℕ) (vs : List Node) (k : ℕ)
      → IsState deps n seen vs
      → undone vs ≡ suc k
      → pick_from 0 vs ≡ none
      → Stuck deps n (stuck_from 0 vs)
  stuck_from-Stuck seen vs k s u h = record {
    somewhere = let (j, l, d) = some_undone vs k u in (0 + j, In-stuck_from 0 j vs l d);
    waits = waits;
  }
    where
      waits :
          (i : ℕ)
          → In i (stuck_from 0 vs)
          → (i < n) × ((d : ℕ) × In d (deps i) × (is_edge n i d ≡ true) × In d (stuck_from 0 vs))
      waits i m =
          let (j, e, l, free) = stuck_from-In 0 i vs m in
          let same : j ≡ i = omega (arith, e) in
          let left : 0 < pending seen n (0 + j) (deps_at vs j) =
            pick_from-none seen n 0 j vs s.counted h l free in
          let left' : 0 < pending seen n i (deps i) =
            subst (λ t. 0 < pending seen n i t) (s.same_deps i)
              (subst (λ t. 0 < pending seen n t (deps_at vs i)) (omega (arith, e))
                (subst (λ t. 0 < pending seen n (0 + j) (deps_at vs t)) same left)) in
          let (d, at_deps, edge, new) = pending-pos seen n i (deps i) left' in
          let inside : d < length vs = ground (arith, s.size) in
          let place : 0 + d ≡ d = omega arith in
          (
            omega (arith, l, s.size, same),
            (d, at_deps, edge, rw place at (In-stuck_from 0 d vs inside (s.agrees d ∙ new))),
          )

  emit-Stuck :
      (k : ℕ) (seen : List ℕ) (vs : List Node) (s : List ℕ)
      → IsState deps n seen vs
      → undone vs ≡ k
      → emit k vs ≡ cycle s
      → Stuck deps n s
  unfolding emit
  emit-Stuck zero seen vs s st u h = cc
  emit-Stuck (suc k) seen vs s st u h = elim (Option-cases (pick_from 0 vs)) [
    | inl stuck ↦
        let same : stuck_from 0 vs ≡ s = cc (rw (stuck, emit) at h) in
        subst (λ t. Stuck deps n t) same (stuck_from-Stuck seen vs k st u stuck)
    | inr (p, got) ↦
        emit-Stuck k (p ∷ seen) (relax p (mark p vs)) s (advance-IsState deps n seen vs p st got)
          (undone-advance deps n seen vs p k st got u) (preceded-cycle p _ s (rw (got, emit) at h))
  ]

  -- A step of a refusal has no place in an order by rank, whatever its rank.
  unranked :
      (s : List ℕ) (rank : ℕ → ℕ)
      → Stuck deps n s
      → ((i d : ℕ) → i < n → In d (deps i) → is_edge n i d ≡ true → rank d < rank i)
      → (m i : ℕ) → In i s
      → rank i ≤ m
      → ⊥
  unranked s rank st below zero i here h =
      let (inside, (d, at_deps, edge, there)) = st.waits i here in
      absurd (omega (arith, below i d inside at_deps edge))
  unranked s rank st below (suc m) i here h =
      let (inside, (d, at_deps, edge, there)) = st.waits i here in
      unranked s rank st below m d there (omega (arith, below i d inside at_deps edge))

-- A pipeline is refused only for a cycle: the message names at least one step, and each step that
-- it names depends on another step that it names.
pub pipeline_topo_order-Stuck :
    (steps : List (List ℕ)) (s : List ℕ)
    → pipeline_topo_order steps ≡ cycle s
    → Stuck (deps_of steps) (length steps) s
unfolding pipeline_topo_order
pipeline_topo_order-Stuck steps s h =
    emit-Stuck (deps_of steps) (length steps) (length steps) [] (init_from (length steps) 0 steps) s
      (init_from-IsState steps) (undone-init_from (length steps) 0 steps) h

-- A pipeline whose steps can be ranked, each above the steps that it depends on, is never refused.
pub pipeline_topo_order-ne-cycle :
    (steps : List (List ℕ)) (rank : ℕ → ℕ)
    → ((i d : ℕ)
        → i < length steps
        → In d (deps_of steps i)
        → is_edge (length steps) i d ≡ true
        → rank d < rank i)
    → (s : List ℕ) → pipeline_topo_order steps ≢ cycle s
pipeline_topo_order-ne-cycle steps rank below s h =
    let st = pipeline_topo_order-Stuck steps s h in
    let (i, m) = st.somewhere in
    unranked (deps_of steps) (length steps) s rank st below (rank i) i m (omega arith)
