-- ===== src/Gateway/Order/Tests.antt =====
-- `pipeline_topo_order` of src/gateway/api.c on small pipelines.
use napastak.Base.{
  ℕ, zero, suc, ◌-◌, ◌^◌, ◌<◌, ◌≡◌, ◌≢◌, refl, true, List, [], ◌∷◌, arith, In, inl, inr,
}
use napastak.Gateway.Order.{ordered, cycle, is_edge, pipeline_topo_order}
use napastak.Gateway.Order.Soundness.{Respects, deps_of, pipeline_topo_order-Respects}
use napastak.Gateway.Order.Cycles.{pipeline_topo_order-ne-cycle}

-- Step 0 merges the other two; one entry is -1 and one is past the end.
abbrev merge : List (List ℕ)
merge = (2 ∷ 1 ∷ []) ∷ ((2 ^ 32 - 1) ∷ []) ∷ (1 ∷ 9 ∷ []) ∷ []

order-merge : pipeline_topo_order merge ≡ ordered (1 ∷ 2 ∷ 0 ∷ [])
unfolding pipeline_topo_order
order-merge = refl

-- Steps 1 and 2 wait for each other.
abbrev ring : List (List ℕ)
ring = [] ∷ (2 ∷ []) ∷ (1 ∷ []) ∷ []

order-ring : pipeline_topo_order ring ≡ cycle (1 ∷ 2 ∷ [])
unfolding pipeline_topo_order
order-ring = refl

pipeline_topo_order-Respects_example :
    Respects (deps_of merge) 3 [] (1 ∷ 2 ∷ 0 ∷ []) × ((i : ℕ) → i < 3 → In i (1 ∷ 2 ∷ 0 ∷ []))
pipeline_topo_order-Respects_example =
    pipeline_topo_order-Respects merge (1 ∷ 2 ∷ 0 ∷ []) order-merge

-- A chain, ranked by the place of a step.
abbrev chain : List (List ℕ)
chain = [] ∷ (0 ∷ []) ∷ []

chain-below : (i d : ℕ) → i < 2 → In d (deps_of chain i) → is_edge 2 i d ≡ true → d < i
chain-below zero d h m e = absurd m
chain-below (suc zero) d h (inl q) e = omega (arith, q)
chain-below (suc zero) d h (inr m) e = absurd m
chain-below (suc (suc i)) d h m e = absurd (omega arith)

pipeline_topo_order-ne-cycle_example : pipeline_topo_order chain ≢ cycle (0 ∷ [])
pipeline_topo_order-ne-cycle_example =
    pipeline_topo_order-ne-cycle chain (λ i. i) chain-below (0 ∷ [])
