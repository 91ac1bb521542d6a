-- ===== src/Connector/Pool/Exclusive.antt =====
-- One round of `conn_pool_acquire` of lib/connector/conn_pool.c, slot by slot.
use napastak.Base.{
  ℕ, ◌<◌, ◌≡◌, ◌≢◌, ◌⊎◌, refl, sym, ◌∙◌, true, false, List, arith, length, Bool-cases, Option-cases,
  inl, inr, ◌&&◌, get_or, ltb,
}
use mathlib.Core.Path.{subst}
use napastak.Connector.Slot.{PoolSlot, zero_slot, modify, reserved}
use napastak.Connector.Pool.{
  ConnPool, Scan, Visit, visit, scan_from, Acquire, acquire_round, acquire_new, acquire_dead,
  is_recent, after_scan, new_slot,
}
use napastak.Connector.Pool.Slots.{slot_at, modify-slot, Kept, Scanned, scan_from-Scanned}
use napastak.Connector.Pool.NewSlot.{new_slot-slot}
use napastak.Connector.Pool.Dead.{DeadFrom, scan_from-DeadFrom, Kept-trans}

module _ (p : ConnPool) (conn_id so_path fp : List ℕ) (now : ℕ) where
  -- What becomes of slot `j`, by the way the round ends.
  abbrev pub Acquired : Acquire → ℕ → PoolSlot → PoolSlot → Type 0
  Acquired a j s s' =
      ((a ≡ Acquire.granted j)
        × (visit conn_id fp s ≡ Visit.live)
        × (s' ≡ record s { leased = true; last_used = now }))
      ⊎ (((a ≡ Acquire.opens j)
            × ((s.used && s.leased) ≡ false)
            × ((t : PoolSlot) × Kept s t × (s' ≡ reserved conn_id so_path fp t)))
          ⊎ ((a ≢ Acquire.granted j) × (a ≢ Acquire.opens j) × Kept s s'))

  Kept-idle :
      (s t : PoolSlot) → Kept s t → (t.used && t.leased) ≡ false → (s.used && s.leased) ≡ false
  Kept-idle s t (inl e) f = subst (λ (x : PoolSlot). (x.used && x.leased) ≡ false) e f
  Kept-idle s t (inr (l, e)) f = ground arith

  -- A slot that is reserved, after a scan that found nothing.
  reserve-slot :
      (j k : ℕ) (s t : PoolSlot) (ts : List PoolSlot)
      → Kept s t
      → Kept t (slot_at ts j)
      → k < length ts
      → (k ≡ j → (t.used && t.leased) ≡ false)
      → Acquired (Acquire.opens k) j s (slot_at (modify k (reserved conn_id so_path fp) ts) j)
  reserve-slot j k s t ts a b l c = elim (modify-slot k (reserved conn_id so_path fp) ts j) [
    | inl (n, e) ↦ inr (
        inr (
          (λ q. absurd (cc)),
          (λ q. let same_slot : k ≡ j = cc in absurd (omega (arith, n same_slot, l, same_slot))),
          subst (Kept s) (sym e) (Kept-trans s t (slot_at ts j) a b),
        ))
    | inr (e, g) ↦ inr (
        inl
          (rw e refl, Kept-idle s t a (c e), (slot_at ts j, Kept-trans s t (slot_at ts j) a b, g)))
  ]

  waits-slot :
      (j : ℕ) (a : Acquire) (s t : PoolSlot)
      → a ≢ Acquire.granted j
      → a ≢ Acquire.opens j
      → Kept s t
      → Acquired a j s t
  waits-slot j a s t f g k = inr (inr (f, g, k))

  acquire_new-slot :
      (r : Scan) (j : ℕ) (s : PoolSlot)
      → Kept s (slot_at r.slots j)
      → Acquired
          (acquire_new p conn_id so_path fp r).1
          j
          s
          (slot_at (acquire_new p conn_id so_path fp r).0.slots j)
  unfolding acquire_new
  acquire_new-slot r j s k = elim (Bool-cases (ltb r.mine p.max_per_conn)) [
    | inl y ↦ elim (Option-cases (new_slot r.slots)) [
      | inl full ↦
          rw (y, full, acquire_new)
            (waits-slot j Acquire.waits s (slot_at r.slots j) (λ q. absurd (cc)) (λ q. absurd (cc))
              k)
      | inr ((i, ts), found) ↦
          let (l, u, m, keep) = new_slot-slot r.slots i ts found in
          rw (y, found, acquire_new)
            (reserve-slot j i s (slot_at r.slots j) ts k (keep j) (omega (arith, l, m)) (λ e.
              subst (λ x. ((slot_at r.slots x).used && (slot_at r.slots x).leased) ≡ false) e u))
    ]
    | inr n ↦
        rw (n, acquire_new)
          (waits-slot j Acquire.waits s (slot_at r.slots j) (λ q. absurd (cc)) (λ q. absurd (cc)) k)
  ]

  acquire_dead-slot :
      (r : Scan) (d j : ℕ) (s : PoolSlot)
      → d < length r.slots
      → (slot_at r.slots d).leased ≡ false
      → Kept s (slot_at r.slots j)
      → Acquired
          (acquire_dead p conn_id so_path fp now r d).1
          j
          s
          (slot_at (acquire_dead p conn_id so_path fp now r d).0.slots j)
  unfolding acquire_dead
  acquire_dead-slot r d j s l u k = elim (Bool-cases (is_recent now (get_or r.slots d zero_slot))) [
    | inl y ↦
        rw (y, acquire_dead)
          (waits-slot j (Acquire.failed (get_or r.slots d zero_slot).last_error) s
            (slot_at r.slots j) (λ q. absurd (cc)) (λ q. absurd (cc)) k)
    | inr n ↦
        rw (n, acquire_dead)
          (reserve-slot j d s (slot_at r.slots j) r.slots k (inl refl) l
            (λ e. ground (arith, e, u)))
  ]

  after_scan-slot :
      (r : Scan) (j : ℕ)
      → Scanned conn_id fp now r j (slot_at p.slots j) (slot_at r.slots j)
      → DeadFrom conn_id fp now 0 r
      → Acquired
          (after_scan p conn_id so_path fp now r).1
          j
          (slot_at p.slots j)
          (slot_at (after_scan p conn_id so_path fp now r).0.slots j)
  unfolding after_scan DeadFrom
  after_scan-slot r j (inl (h, v, e)) f = rw (h, after_scan) (inl (refl, v, e))
  after_scan-slot r j (inr (h, k)) f = elim (Option-cases r.hit) [
    | inr (i, y) ↦
        rw (y, after_scan)
          (waits-slot j (Acquire.granted i) (slot_at p.slots j) (slot_at r.slots j)
            (λ q. h (y ∙ (let same_slot : i ≡ j = cc in rw same_slot refl))) (λ q. absurd (cc)) k)
    | inl n ↦ elim (Option-cases r.dead_slot) [
      | inl m ↦ rw (n, m, after_scan) (acquire_new-slot r j (slot_at p.slots j) k)
      | inr (d, m) ↦
          let (x, e, b, l) = f d n m in
          let same_slot : x ≡ d = omega (arith, e) in
          rw (n, m, after_scan)
            (acquire_dead-slot r d j (slot_at p.slots j)
              (subst (λ t. t < length r.slots) same_slot b)
              (subst (λ t. (slot_at r.slots t).leased ≡ false) same_slot l) k)
    ]
  ]

  -- In one round a slot is leased only if nobody has it, at most one is, and a slot that somebody
  -- has is not touched.
  pub acquire_round-slot :
      (j : ℕ)
      → Acquired
          (acquire_round p conn_id so_path fp now).1
          j
          (slot_at p.slots j)
          (slot_at (acquire_round p conn_id so_path fp now).0.slots j)
  unfolding acquire_round
  acquire_round-slot j =
      after_scan-slot (scan_from conn_id fp now 0 p.slots) j
        (subst
          (λ t.
            Scanned conn_id fp now (scan_from conn_id fp now 0 p.slots) t (slot_at p.slots j)
              (slot_at (scan_from conn_id fp now 0 p.slots).slots j))
          (omega arith) (scan_from-Scanned conn_id fp now 0 p.slots j))
        (scan_from-DeadFrom conn_id fp now 0 p.slots)
