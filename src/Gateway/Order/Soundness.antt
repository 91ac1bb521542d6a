-- ===== src/Gateway/Order/Soundness.antt =====
-- The order that `pipeline_topo_order` of src/gateway/api.c gives.
use napastak.Base.{
  ℕ, zero, suc, ◌+◌, ◌<◌, ◌≡◌, refl, true, false, not, ◌&&◌, ◌||◌, some, List, [], ◌∷◌, arith, ◌==◌,
  if◌then◌else◌, length, Bool-cases, Option-cases, inl, inr, All, In, ap, ◌∙◌, sym, subst,
}
use napastak.Gateway.Order.{
  Node, is_edge, init_from, is_ready, pick_from, mark, relax, Outcome, ordered, cycle, preceded,
  emit, pipeline_topo_order,
}
use napastak.Gateway.Order.Pending.{
  elem_of, pending, Counted, done_at, deps_at, Counted-init_from, Counted-mark, Clear-mark,
  Counted-relax, done_at-relax, done_at-mark, deps_at-advance,
}

-- An order of steps in which each is new and has all its dependencies before it; `seen` came first.
abbrev pub Respects : (ℕ → List ℕ) → ℕ → List ℕ → List ℕ → Type 0
Respects deps n seen [] = Unit
Respects deps n seen (p ∷ o) =
    (p < n)
    × (elem_of p seen ≡ false)
    × All (λ d. is_edge n p d ≡ true → elem_of d seen ≡ true) (deps p)
    × Respects deps n (p ∷ seen) o

pending-zero :
    (seen : List ℕ) (n i : ℕ) (ds : List ℕ)
    → pending seen n i ds ≡ 0
    → All (λ d. is_edge n i d ≡ true → elem_of d seen ≡ true) ds
pending-zero seen n i [] h = tt
pending-zero seen n i (d ∷ ds) h = elim (Bool-cases (is_edge n i d && not (elem_of d seen))) [
  | inl y ↦ let bad : suc (pending seen n i ds) ≡ 0 = rw y at h in absurd (omega (arith, bad))
  | inr other ↦ (λ e. ground arith, pending-zero seen n i ds (rw other at h))
]

-- The step that is picked has no counter left and is not done.
pick_from-some :
    (seen : List ℕ) (n i p : ℕ) (vs : List Node)
    → Counted seen n i vs
    → pick_from i vs ≡ some p
    → (j : ℕ) × (p ≡ i + j)
      × (j < length vs)
      × (done_at vs j ≡ false)
      × (pending seen n p (deps_at vs j) ≡ 0)
unfolding pick_from
pick_from-some seen n i p [] c h = cc
pick_from-some seen n i p (v ∷ vs) c h = elim (Bool-cases (is_ready v)) [
  | inl y ↦
      let here : i ≡ p = cc (rw y at h) in
      let undone : v.is_done ≡ false = ground arith in
      let counter : v.indeg ≡ 0 = ground arith in
      let left : pending seen n i v.deps ≡ 0 = sym (c.0 undone) ∙ counter in
      (0, omega (arith, here), omega arith, undone, rw (← here) left)
  | inr other ↦
      let (j, e, l, d, z) = pick_from-some seen n (i + 1) p vs c.1 (rw other at h) in
      (suc j, omega (arith, e), omega arith, d, z)
]

-- What `emit` knows of its nodes.
pub record IsState (deps : ℕ → List ℕ) (n : ℕ) (seen : List ℕ) (vs : List Node) : Type 0 where
  pub size : length vs ≡ n
  pub counted : Counted seen n 0 vs
  pub agrees : (d : ℕ) → done_at vs d ≡ elem_of d seen
  pub same_deps : (d : ℕ) → deps_at vs d ≡ deps d

length-mark : (j : ℕ) (vs : List Node) → length (mark j vs) ≡ length vs
unfolding mark
length-mark j [] = refl
length-mark zero (v ∷ vs) = refl
length-mark (suc j) (v ∷ vs) = ap suc (length-mark j vs)

length-relax : (p : ℕ) (vs : List Node) → length (relax p vs) ≡ length vs
unfolding relax
length-relax p [] = refl
length-relax p (v ∷ vs) = ap suc (length-relax p vs)

module _ (deps : ℕ → List ℕ) (n : ℕ) where
  -- The step that is picked may run next.
  record Pick (seen : List ℕ) (vs : List Node) (p : ℕ) : Type 0 where
    inside : p < n
    new : elem_of p seen ≡ false
    dependencies : All (λ d. is_edge n p d ≡ true → elem_of d seen ≡ true) (deps p)

  picked :
      (seen : List ℕ) (vs : List Node) (p : ℕ)
      → IsState deps n seen vs
      → pick_from 0 vs ≡ some p
      → Pick seen vs p
  picked seen vs p s h =
      let (j, e, l, undone, zero_left) = pick_from-some seen n 0 p vs s.counted h in
      let same : j ≡ p = omega (arith, e) in
      let left : pending seen n p (deps p) ≡ 0 =
        ap (pending seen n p) (sym (s.same_deps p))
        ∙ ap (λ k. pending seen n p (deps_at vs k)) (sym same)
        ∙ zero_left in
      record {
        inside = omega (arith, s.size);
        new = sym (s.agrees p) ∙ ap (done_at vs) (sym same) ∙ undone;
        dependencies = pending-zero seen n p (deps p) left;
      }

  pub advance-IsState :
      (seen : List ℕ) (vs : List Node) (p : ℕ)
      → IsState deps n seen vs
      → pick_from 0 vs ≡ some p
      → IsState deps n (p ∷ seen) (relax p (mark p vs))
  advance-IsState seen vs p s h =
      let k = picked seen vs p s h in
      record {
        size = length-relax p (mark p vs) ∙ length-mark p vs ∙ s.size;
        counted =
            Counted-relax seen n p 0 (mark p vs) k.inside k.new (Clear-mark p 0 p vs (omega arith))
              (Counted-mark seen n 0 p vs s.counted);
        agrees = λ d.
            done_at-relax p d (mark p vs)
            ∙ done_at-mark p d vs (omega (arith, k.inside, s.size))
            ∙ ap (λ b. d == p || b) (s.agrees d);
        same_deps = λ d. deps_at-advance p d vs ∙ s.same_deps d;
      }

-- Taking a step off the result of a call.
preceded-ordered :
    (p : ℕ) (r : Outcome) (o : List ℕ)
    → preceded p r ≡ ordered o
    → (o' : List ℕ) × (r ≡ ordered o') × (o ≡ p ∷ o')
preceded-ordered p (ordered o') o h = let same : p ∷ o' ≡ o = cc in (o', refl, sym same)
preceded-ordered p (cycle s) o h = cc

-- The steps that are not done.
abbrev pub undone : List Node → ℕ
undone [] = 0
undone (v ∷ vs) = if v.is_done then undone vs else suc (undone vs)

undone-relax : (p : ℕ) (vs : List Node) → undone (relax p vs) ≡ undone vs
unfolding relax
undone-relax p [] = refl
undone-relax p (v ∷ vs) = elim (Bool-cases v.is_done) [
  | inl y ↦ rw y (undone-relax p vs)
  | inr n ↦ rw n (ap suc (undone-relax p vs))
]

undone-mark :
    (p : ℕ) (vs : List Node)
    → p < length vs
    → done_at vs p ≡ false
    → undone vs ≡ suc (undone (mark p vs))
unfolding mark
undone-mark p [] h d = elim h [ ]
undone-mark zero (v ∷ vs) h d = rw d refl
undone-mark (suc p) (v ∷ vs) h d = ground (arith, undone-mark p vs)

undone-zero : (vs : List Node) (d : ℕ) → undone vs ≡ 0 → d < length vs → done_at vs d ≡ true
undone-zero [] d z h = elim h [ ]
undone-zero (v ∷ vs) zero z h = ground arith
undone-zero (v ∷ vs) (suc d) z h = ground (arith, undone-zero vs d)

module _ (deps : ℕ → List ℕ) (n : ℕ) where
  -- An order of what is left, if there is one: it respects the dependencies, and has every step.
  record Complete (seen o : List ℕ) : Type 0 where
    pub respects : Respects deps n seen o
    pub everything : (i : ℕ) → i < n → elem_of i seen ≡ false → In i o

  pub undone-advance :
      (seen : List ℕ) (vs : List Node) (p k : ℕ)
      → IsState deps n seen vs
      → pick_from 0 vs ≡ some p
      → undone vs ≡ suc k
      → undone (relax p (mark p vs)) ≡ k
  undone-advance seen vs p k s h u =
      let c = picked deps n seen vs p s h in
      let fresh : done_at vs p ≡ false = s.agrees p ∙ c.new in
      omega (
        arith,
        undone-relax p (mark p vs),
        undone-mark p vs (omega (arith, c.inside, s.size)) fresh,
        u,
      )

  emit-Complete :
      (k : ℕ) (seen : List ℕ) (vs : List Node) (o : List ℕ)
      → IsState deps n seen vs
      → undone vs ≡ k
      → emit k vs ≡ ordered o
      → Complete seen o
  unfolding emit
  emit-Complete zero seen vs o s u h =
      let nil : [] ≡ o = cc in
      subst (λ t. Complete seen t) nil
        (record {
          respects = tt;
          everything = λ i l fresh.
              let done : elem_of i seen ≡ true =
                sym (s.agrees i) ∙ undone-zero vs i u (omega (arith, s.size)) in
              cc (fresh, done);
        })
  emit-Complete (suc k) seen vs o s u h = elim (Option-cases (pick_from 0 vs)) [
    | inl stuck ↦ cc (rw (stuck, emit) at h)
    | inr (p, got) ↦
        let c = picked deps n seen vs p s got in
        let (o', rest, eq) = preceded-ordered p _ o (rw (got, emit) at h) in
        let tail =
          emit-Complete k (p ∷ seen) (relax p (mark p vs)) o'
            (advance-IsState deps n seen vs p s got) (undone-advance seen vs p k s got u) rest in
        subst (λ t. Complete seen t) (sym eq)
          (record {
            respects = (c.inside, c.new, c.dependencies, tail.respects);
            everything = λ i l fresh. elim (Bool-cases (i == p)) [
              | inl y ↦ inl (ground arith)
              | inr other ↦ inr (tail.everything i l (ground arith))
            ];
          })
  ]

-- The dependencies of a step, none past the last.
abbrev pub deps_of : List (List ℕ) → ℕ → List ℕ
deps_of [] d = []
deps_of (ds ∷ steps) zero = ds
deps_of (ds ∷ steps) (suc d) = deps_of steps d

deps_at-init_from :
    (n i d : ℕ) (steps : List (List ℕ)) → deps_at (init_from n i steps) d ≡ deps_of steps d
unfolding init_from
deps_at-init_from n i d [] = refl
deps_at-init_from n i zero (ds ∷ steps) = refl
deps_at-init_from n i (suc d) (ds ∷ steps) = deps_at-init_from n (i + 1) d steps

done_at-init_from : (n i d : ℕ) (steps : List (List ℕ)) → done_at (init_from n i steps) d ≡ false
unfolding init_from
done_at-init_from n i d [] = refl
done_at-init_from n i zero (ds ∷ steps) = refl
done_at-init_from n i (suc d) (ds ∷ steps) = done_at-init_from n (i + 1) d steps

length-init_from : (n i : ℕ) (steps : List (List ℕ)) → length (init_from n i steps) ≡ length steps
unfolding init_from
length-init_from n i [] = refl
length-init_from n i (ds ∷ steps) = ap suc (length-init_from n (i + 1) steps)

pub undone-init_from :
    (n i : ℕ) (steps : List (List ℕ)) → undone (init_from n i steps) ≡ length steps
unfolding init_from
undone-init_from n i [] = refl
undone-init_from n i (ds ∷ steps) = ap suc (undone-init_from n (i + 1) steps)

pub init_from-IsState :
    (steps : List (List ℕ))
    → IsState (deps_of steps) (length steps) [] (init_from (length steps) 0 steps)
init_from-IsState steps = record {
  size = length-init_from (length steps) 0 steps;
  counted = Counted-init_from (length steps) 0 steps;
  agrees = λ d. done_at-init_from (length steps) 0 d steps;
  same_deps = λ d. deps_at-init_from (length steps) 0 d steps;
}

-- An order that is given has every step once, and each step after all the steps that it depends on;
-- entries that stand for no other step count for nothing.
pub pipeline_topo_order-Respects :
    (steps : List (List ℕ)) (o : List ℕ)
    → pipeline_topo_order steps ≡ ordered o
    → Respects (deps_of steps) (length steps) [] o × ((i : ℕ) → i < length steps → In i o)
unfolding pipeline_topo_order
pipeline_topo_order-Respects steps o h =
    let c =
      emit-Complete (deps_of steps) (length steps) (length steps) []
        (init_from (length steps) 0 steps) o (init_from-IsState steps)
        (undone-init_from (length steps) 0 steps) h in
    (c.respects, λ i l. c.everything i l refl)
