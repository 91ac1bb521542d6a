-- ===== src/Connector/Pool/Dead.antt =====
-- The slot that `conn_pool_acquire` of lib/connector/conn_pool.c opens again.
use napastak.Base.{
  ℕ, suc, ◌+◌, ◌<◌, ◌≡◌, refl, ◌∙◌, false, none, some, List, [], ◌∷◌, arith, length, inl, inr,
}
use mathlib.Core.Path.{subst}
use napastak.Connector.Slot.{PoolSlot, slot_free}
use napastak.Connector.Pool.{Scan, Visit, visit, scan_step, scan_from}
use napastak.Connector.Pool.Slots.{slot_at, Kept}

-- The slot that the scan keeps to be opened again is nobody's.
module _ (conn_id fp : List ℕ) (now : ℕ) where
  -- `dead_slot` tells of a slot of `r`, which begins at `i`.
  unfoldable pub DeadFrom : ℕ → Scan → Type 0
  DeadFrom i r =
      (k : ℕ)
      → r.hit ≡ none
      → r.dead_slot ≡ some k
      → (j : ℕ) × (k ≡ i + j) × (j < length r.slots) × ((slot_at r.slots j).leased ≡ false)

  visit-dead_leased : (s : PoolSlot) → visit conn_id fp s ≡ Visit.dead → s.leased ≡ false
  unfolding visit
  visit-dead_leased s e = ground arith

  shifted :
      (i : ℕ) (r r' : Scan) (s : PoolSlot)
      → r'.slots ≡ s ∷ r.slots
      → r'.hit ≡ r.hit
      → r'.dead_slot ≡ r.dead_slot
      → DeadFrom (i + 1) r
      → DeadFrom i r'
  unfolding DeadFrom
  shifted i r r' s es eh ed f k h d =
      let (j, e, b, l) = f k (cc) (cc) in
      (suc j, omega (arith, e), rw es (omega (arith, b)), rw es l)

  DeadFrom-step :
      (i : ℕ) (s : PoolSlot) (ss : List PoolSlot) (r : Scan)
      → DeadFrom (i + 1) r
      → (v : Visit) → visit conn_id fp s ≡ v
      → DeadFrom i (scan_step v now i s ss r)
  unfolding scan_step DeadFrom
  DeadFrom-step i s ss r f Visit.other e =
      shifted i r (scan_step Visit.other now i s ss r) s refl refl refl f
  DeadFrom-step i s ss r f Visit.stale e =
      shifted i r (scan_step Visit.stale now i s ss r) (slot_free s) refl refl refl f
  DeadFrom-step i s ss r f Visit.busy e =
      shifted i r (scan_step Visit.busy now i s ss r) s refl refl refl f
  DeadFrom-step i s ss r f Visit.live e = λ k h d. absurd (cc)
  DeadFrom-step i s ss r f Visit.dead e = λ k h d.
      let same_slot : i ≡ k = cc in
      (0, omega (arith, same_slot), omega arith, visit-dead_leased s e)

  pub scan_from-DeadFrom : (i : ℕ) (ss : List PoolSlot) → DeadFrom i (scan_from conn_id fp now i ss)
  unfolding scan_from DeadFrom
  scan_from-DeadFrom i [] = λ k h d. absurd (cc)
  scan_from-DeadFrom i (s ∷ ss) =
      DeadFrom-step i s ss (scan_from conn_id fp now (i + 1) ss) (scan_from-DeadFrom (i + 1) ss)
        (visit conn_id fp s) refl

pub Kept-trans : (s t u : PoolSlot) → Kept s t → Kept t u → Kept s u
unfolding slot_free
Kept-trans s t u (inl e) (inl f) = inl (f ∙ e)
Kept-trans s t u (inl e) (inr (l, f)) =
    inr (subst (λ (x : PoolSlot). x.leased ≡ false) e l, rw (f, e) refl)
Kept-trans s t u (inr (l, e)) (inl f) = inr (l, f ∙ e)
Kept-trans s t u (inr (l, e)) (inr (m, f)) = inr (l, rw (f, e) refl)
