-- ===== src/Gateway/Order.antt =====
-- `pipeline_topo_order` of src/gateway/api.c: the order in which the steps of a pipeline run. A
-- pipeline has at most 64 steps (MAX_STEPS), which the arrays of the function have room for.
pub mod Pending
pub mod Soundness
pub mod Cycles
mod Tests
use napastak.Base.{
  ℕ, zero, suc, ◌+◌, ◌-◌, Bool, true, false, not, ◌&&◌, Option, none, some, List, [], ◌∷◌, ltb,
  ◌==◌, if◌then◌else◌, length, get_elem?,
}

-- A step with its entries of `indeg` and `done_`. An index of `deps` is the 32-bit pattern of an
-- `int`: a negative one is above every index of a step.
pub record Node : Type 0 where
  pub deps : List ℕ
  pub indeg : ℕ
  pub is_done : Bool

-- `dep >= 0 && dep < n && dep != i`
abbrev pub is_edge : ℕ → ℕ → ℕ → Bool
is_edge n i dep = ltb dep n && not (dep == i)

unfoldable pub count_edges : ℕ → ℕ → List ℕ → ℕ
count_edges n i [] = 0
count_edges n i (d ∷ ds) = let rest = count_edges n i ds in if is_edge n i d then suc rest else rest

-- The first loop, from step `i` on.
unfoldable pub init_from : ℕ → ℕ → List (List ℕ) → List Node
unfolding count_edges
init_from n i [] = []
init_from n i (deps ∷ steps) =
    record { deps = deps; indeg = count_edges n i deps; is_done = false }
    ∷ init_from n (i + 1) steps

abbrev pub is_ready : Node → Bool
is_ready v = not v.is_done && v.indeg == 0

-- The lowest ready step, counted from `i`; `none` is a `pick` below 0.
unfoldable pub pick_from : ℕ → List Node → Option ℕ
pick_from i [] = none
pick_from i (v ∷ vs) = let rest = pick_from (i + 1) vs in if is_ready v then some i else rest

-- `done_[pick] = true`
unfoldable pub mark : ℕ → List Node → List Node
mark i [] = []
mark zero (v ∷ vs) = record v { is_done = true } ∷ vs
mark (suc i) (v ∷ vs) = v ∷ mark i vs

-- `indeg[i]--` for every entry of `deps` that is `pick`, but not below 0.
unfoldable pub lower : ℕ → List ℕ → ℕ → ℕ
lower pick [] k = k
lower pick (d ∷ ds) k = if d == pick then lower pick ds (k - 1) else lower pick ds k

unfoldable pub relax : ℕ → List Node → List Node
unfolding lower
relax pick [] = []
relax pick (v ∷ vs) =
    (if v.is_done then v else record v { indeg = lower pick v.deps v.indeg }) ∷ relax pick vs

-- The steps that the message of a cycle lists, counted from `i`.
unfoldable pub stuck_from : ℕ → List Node → List ℕ
stuck_from i [] = []
stuck_from i (v ∷ vs) = let rest = stuck_from (i + 1) vs in if v.is_done then rest else i ∷ rest

-- The result: the order, or -1 with the steps that the message names.
pub data Outcome : Type 0 where
  ordered : List ℕ → Outcome
  cycle : List ℕ → Outcome

abbrev pub preceded : ℕ → Outcome → Outcome
preceded pick (ordered o) = ordered (pick ∷ o)
preceded pick (cycle s) = cycle s

-- The main loop, for the given number of rounds.
unfoldable pub emit : ℕ → List Node → Outcome
unfolding pick_from mark relax stuck_from
emit zero vs = ordered []
emit (suc rounds) vs = elim (pick_from 0 vs) [
  | none ↦ cycle (stuck_from 0 vs)
  | some pick ↦ preceded pick (emit rounds (relax pick (mark pick vs)))
]

unfoldable pub pipeline_topo_order : List (List ℕ) → Outcome
unfolding emit init_from
pipeline_topo_order steps = emit (length steps) (init_from (length steps) 0 steps)
