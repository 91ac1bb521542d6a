-- ===== src/Connector/Pool/Slots.antt =====
-- Slots read by their index, and what the scan of `conn_pool_acquire` of
-- lib/connector/conn_pool.c does to each.
use napastak.Base.{
  ℕ, zero, suc, ◌+◌, ◌≤◌, ◌≡◌, ◌≢◌, ◌⊎◌, refl, true, false, some, List, [], ◌∷◌, arith, length, inl,
  inr, ap, ◌==◌, ◌&&◌, if◌then◌else◌, get_or, ltb, map,
}
use napastak.Connector.Slot.{PoolSlot, zero_slot, slot_free, modify}
use mathlib.Core.Path.{subst}
use napastak.Connector.Pool.{Scan, Visit, visit, scan_step, scan_from}

abbrev pub slot_at : List PoolSlot → ℕ → PoolSlot
slot_at ss j = get_or ss j zero_slot

pub slot_at-modify :
    (i : ℕ) (f : PoolSlot → PoolSlot) (ss : List PoolSlot) (j : ℕ)
    → slot_at (modify i f ss) j
      ≡ (if i == j && ltb j (length ss) then f (slot_at ss j) else slot_at ss j)
unfolding modify
slot_at-modify i f [] j = ground arith
slot_at-modify zero f (s ∷ ss) zero = ground arith
slot_at-modify zero f (s ∷ ss) (suc j) = ground arith
slot_at-modify (suc i) f (s ∷ ss) zero = ground arith
slot_at-modify (suc i) f (s ∷ ss) (suc j) = rw (slot_at-modify i f ss j) (ground arith)

-- A write changes no slot but the one it is for.
pub modify-slot :
    (i : ℕ) (f : PoolSlot → PoolSlot) (ss : List PoolSlot) (j : ℕ)
    → (((i ≡ j) → length ss ≤ j) × (slot_at (modify i f ss) j ≡ slot_at ss j))
      ⊎ ((i ≡ j) × (slot_at (modify i f ss) j ≡ f (slot_at ss j)))
unfolding modify
modify-slot i f [] j = inl ((λ e. omega arith), refl)
modify-slot zero f (s ∷ ss) zero = inr (refl, refl)
modify-slot zero f (s ∷ ss) (suc j) = inl ((λ e. absurd (omega (arith, e))), refl)
modify-slot (suc i) f (s ∷ ss) zero = inl ((λ e. absurd (omega (arith, e))), refl)
modify-slot (suc i) f (s ∷ ss) (suc j) = elim (modify-slot i f ss j) [
  | inl (n, e) ↦ inl ((λ k. omega (arith, n (omega (arith, k)))), e)
  | inr (e, g) ↦ inr (ap suc e, g)
]

pub length-modify :
    (i : ℕ) (f : PoolSlot → PoolSlot) (ss : List PoolSlot) → length (modify i f ss) ≡ length ss
unfolding modify
length-modify i f [] = refl
length-modify zero f (s ∷ ss) = refl
length-modify (suc i) f (s ∷ ss) = ap suc (length-modify i f ss)

pub slot_at-map :
    (f : PoolSlot → PoolSlot) (ss : List PoolSlot) (j : ℕ)
    → (slot_at (map f ss) j ≡ f (slot_at ss j))
      ⊎ ((slot_at (map f ss) j ≡ slot_at ss j) × (slot_at ss j ≡ zero_slot))
slot_at-map f [] j = inr (refl, refl)
slot_at-map f (s ∷ ss) zero = inl refl
slot_at-map f (s ∷ ss) (suc j) = slot_at-map f ss j

-- A session that nobody has may have been closed.
abbrev pub Kept : PoolSlot → PoolSlot → Type 0
Kept s s' = (s' ≡ s) ⊎ ((s.leased ≡ false) × (s' ≡ slot_free s))

next : (i j : ℕ) → i + 1 + j ≡ i + suc j
next i j = omega arith

module _ (conn_id fp : List ℕ) (now : ℕ) where
  hit-step :
      (i k : ℕ) (s : PoolSlot) (ss : List PoolSlot) (r : Scan) (v : Visit)
      → (r.hit ≡ some k → i + 1 ≤ k)
      → (scan_step v now i s ss r).hit ≡ some k
      → i ≤ k
  unfolding scan_step
  hit-step i k s ss r Visit.other f e = omega (arith, f e)
  hit-step i k s ss r Visit.stale f e = omega (arith, f e)
  hit-step i k s ss r Visit.busy f e = omega (arith, f e)
  hit-step i k s ss r Visit.live f e = ground arith
  hit-step i k s ss r Visit.dead f e = omega (arith, f e)

  pub hit-bound :
      (i : ℕ) (ss : List PoolSlot) (k : ℕ) → (scan_from conn_id fp now i ss).hit ≡ some k → i ≤ k
  unfolding scan_from
  hit-bound i [] k h = ground arith
  hit-bound i (s ∷ ss) k h =
      hit-step i k s ss (scan_from conn_id fp now (i + 1) ss) (visit conn_id fp s)
        (hit-bound (i + 1) ss k) h

  -- What becomes of slot `k`.
  abbrev pub Scanned : Scan → ℕ → PoolSlot → PoolSlot → Type 0
  Scanned r k s s' =
      ((r.hit ≡ some k)
        × (visit conn_id fp s ≡ Visit.live)
        × (s' ≡ record s { leased = true; last_used = now }))
      ⊎ ((r.hit ≢ some k) × Kept s s')

  visit-stale_leased : (s : PoolSlot) → visit conn_id fp s ≡ Visit.stale → s.leased ≡ false
  unfolding visit
  visit-stale_leased s e = ground arith

  Scanned-zero :
      (i : ℕ) (s : PoolSlot) (ss : List PoolSlot) (r : Scan)
      → ((k : ℕ) → r.hit ≡ some k → i + 1 ≤ k)
      → (v : Visit) → visit conn_id fp s ≡ v
      → Scanned (scan_step v now i s ss r) i s (slot_at (scan_step v now i s ss r).slots 0)
  unfolding scan_step
  Scanned-zero i s ss r f Visit.other e = inr ((λ h. absurd (omega (arith, f i h))), inl refl)
  Scanned-zero i s ss r f Visit.stale e =
      inr ((λ h. absurd (omega (arith, f i h))), inr (visit-stale_leased s e, refl))
  Scanned-zero i s ss r f Visit.busy e = inr ((λ h. absurd (omega (arith, f i h))), inl refl)
  Scanned-zero i s ss r f Visit.live e = inl (refl, e, refl)
  Scanned-zero i s ss r f Visit.dead e = inr ((λ h. absurd (omega (arith, f i h))), inl refl)

  Scanned-suc :
      (i j : ℕ) (s : PoolSlot) (ss : List PoolSlot) (r : Scan) (v : Visit)
      → Scanned r (i + 1 + j) (slot_at ss j) (slot_at r.slots j)
      → Scanned
          (scan_step v now i s ss r)
          (i + suc j)
          (slot_at ss j)
          (slot_at (scan_step v now i s ss r).slots (suc j))
  unfolding scan_step
  Scanned-suc i j s ss r Visit.other h =
      subst (λ t. Scanned r t (slot_at ss j) (slot_at r.slots j)) (next i j) h
  Scanned-suc i j s ss r Visit.stale h =
      subst (λ t. Scanned r t (slot_at ss j) (slot_at r.slots j)) (next i j) h
  Scanned-suc i j s ss r Visit.busy h =
      subst (λ t. Scanned r t (slot_at ss j) (slot_at r.slots j)) (next i j) h
  Scanned-suc i j s ss r Visit.live h = inr ((λ e. ground arith), inl refl)
  Scanned-suc i j s ss r Visit.dead h =
      subst (λ t. Scanned r t (slot_at ss j) (slot_at r.slots j)) (next i j) h

  pub scan_from-Scanned :
      (i : ℕ) (ss : List PoolSlot) (j : ℕ)
      → Scanned
          (scan_from conn_id fp now i ss)
          (i + j)
          (slot_at ss j)
          (slot_at (scan_from conn_id fp now i ss).slots j)
  unfolding scan_from
  scan_from-Scanned i [] j = inr ((λ h. ground arith), inl refl)
  scan_from-Scanned i (s ∷ ss) zero =
      let r = scan_from conn_id fp now (i + 1) ss in
      let v = visit conn_id fp s in
      subst
        (λ k. Scanned (scan_step v now i s ss r) k s (slot_at (scan_step v now i s ss r).slots 0))
        (omega arith) (Scanned-zero i s ss r (hit-bound (i + 1) ss) v refl)
  scan_from-Scanned i (s ∷ ss) (suc j) =
      Scanned-suc i j s ss (scan_from conn_id fp now (i + 1) ss) (visit conn_id fp s)
        (scan_from-Scanned (i + 1) ss j)
