-- ===== src/Connector/Pool/Waits.antt =====
-- When `conn_pool_acquire` of lib/connector/conn_pool.c waits.
use napastak.Base.{
  ℕ, zero, suc, ◌+◌, ◌≤◌, ◌<◌, ◌≡◌, ◌≢◌, ◌⊎◌, refl, sym, ◌∙◌, true, false, not, ◌&&◌, Option, none,
  some, List, [], ◌∷◌, arith, length, Bool-cases, Option-cases, inl, inr, ap, get_or, ltb,
}
use mathlib.Core.Path.{subst}
use napastak.Connector.Slot.{PoolSlot, zero_slot, slot_free, modify}
use napastak.Connector.Pool.{
  ConnPool, Scan, Visit, visit, scan_step, scan_from, Acquire, acquire_round, acquire_new,
  acquire_dead, is_recent, after_scan, new_slot, free_from, victim_from, older,
}
use napastak.Connector.Pool.Slots.{slot_at, Kept, scan_from-Scanned}

abbrev pub is_busy : Visit → ℕ
is_busy Visit.busy = 1
is_busy _ = 0

-- The slots with a session of the connection in its present configuration that is out.
unfoldable pub busy_count : List ℕ → List ℕ → List PoolSlot → ℕ
busy_count conn_id fp [] = 0
busy_count conn_id fp (s ∷ ss) = is_busy (visit conn_id fp s) + busy_count conn_id fp ss

module _ (conn_id fp : List ℕ) (now : ℕ) where
  mine-step :
      (v : Visit) (i : ℕ) (s : PoolSlot) (ss : List PoolSlot) (r : Scan) (n : ℕ)
      → (r.hit ≡ none → r.dead_slot ≡ none → r.mine ≡ n)
      → (scan_step v now i s ss r).hit ≡ none
      → (scan_step v now i s ss r).dead_slot ≡ none
      → (scan_step v now i s ss r).mine ≡ is_busy v + n
  unfolding scan_step
  mine-step Visit.other i s ss r n f h d = omega (arith, f h d)
  mine-step Visit.stale i s ss r n f h d = omega (arith, f h d)
  mine-step Visit.busy i s ss r n f h d = omega (arith, f h d)
  mine-step Visit.live i s ss r n f h d = absurd (cc)
  mine-step Visit.dead i s ss r n f h d = absurd (cc)

  scan_from-mine :
      (i : ℕ) (ss : List PoolSlot)
      → (scan_from conn_id fp now i ss).hit ≡ none
      → (scan_from conn_id fp now i ss).dead_slot ≡ none
      → (scan_from conn_id fp now i ss).mine ≡ busy_count conn_id fp ss
  unfolding scan_from busy_count
  scan_from-mine i [] h d = refl
  scan_from-mine i (s ∷ ss) h d =
      mine-step (visit conn_id fp s) i s ss (scan_from conn_id fp now (i + 1) ss)
        (busy_count conn_id fp ss) (scan_from-mine (i + 1) ss) h d

module _ (conn_id fp : List ℕ) (now : ℕ) where
  length-step :
      (v : Visit) (i : ℕ) (s : PoolSlot) (ss : List PoolSlot) (r : Scan)
      → length r.slots ≡ length ss
      → length (scan_step v now i s ss r).slots ≡ suc (length ss)
  unfolding scan_step
  length-step Visit.other i s ss r h = ap suc h
  length-step Visit.stale i s ss r h = ap suc h
  length-step Visit.busy i s ss r h = ap suc h
  length-step Visit.live i s ss r h = refl
  length-step Visit.dead i s ss r h = ap suc h

  length-scan_from :
      (i : ℕ) (ss : List PoolSlot) → length (scan_from conn_id fp now i ss).slots ≡ length ss
  unfolding scan_from
  length-scan_from i [] = refl
  length-scan_from i (s ∷ ss) =
      length-step (visit conn_id fp s) i s ss (scan_from conn_id fp now (i + 1) ss)
        (length-scan_from (i + 1) ss)

victim_from-some : (i v o : ℕ) (ss : List PoolSlot) → victim_from i (some (v, o)) ss ≢ none
unfolding victim_from older
victim_from-some i v o [] h = cc
victim_from-some i v o (s ∷ ss) h =
    elim (Bool-cases (s.used && not s.leased && ltb s.last_used o)) [
      | inl y ↦ victim_from-some (i + 1) i s.last_used ss (rw (y, older) at h)
      | inr n ↦ victim_from-some (i + 1) v o ss (rw (n, older) at h)
    ]

at_head :
    (s : PoolSlot) (ss : List PoolSlot) (j : ℕ)
    → j < suc (length ss)
    → (s.used && s.leased) ≡ true
    → ((k : ℕ) → k < length ss → ((slot_at ss k).used && (slot_at ss k).leased) ≡ true)
    → ((slot_at (s ∷ ss) j).used && (slot_at (s ∷ ss) j).leased) ≡ true
at_head s ss zero l h f = h
at_head s ss (suc j) l h f = f j (omega (arith, l))

-- With no slot free and none to evict, each is out.
all_out :
    (i : ℕ) (ss : List PoolSlot)
    → free_from i ss ≡ none
    → victim_from i none ss ≡ none
    → (j : ℕ) → j < length ss
    → ((slot_at ss j).used && (slot_at ss j).leased) ≡ true
unfolding free_from victim_from older
all_out i [] f v j l = absurd (omega (arith, l))
all_out i (s ∷ ss) f v j l = elim (Bool-cases s.used) [
  | inr n ↦ absurd (let bad : ◌≡◌ {A = Option ℕ} (some i) none = rw n at f in cc)
  | inl y ↦ elim (Bool-cases s.leased) [
    | inr n ↦ absurd (victim_from-some (i + 1) i s.last_used ss (rw (y, n, older) at v))
    | inl z ↦
        at_head s ss j l (ground (arith, y, z))
          (all_out (i + 1) ss (rw y at f) (rw (y, z, older) at v))
  ]
]

new_slot-none :
    (ss : List PoolSlot)
    → new_slot ss ≡ none
    → (free_from 0 ss ≡ none) × (victim_from 0 none ss ≡ none)
unfolding new_slot
new_slot-none ss h = elim (Option-cases (free_from 0 ss)) [
  | inr (k, found) ↦
      let bad : ◌≡◌ {A = Option (ℕ × List PoolSlot)} (some (k, ss)) none =
        rw (found, new_slot) at h in
      absurd (cc)
  | inl full ↦ elim (Option-cases (victim_from 0 none ss)) [
    | inl lost ↦ (full, lost)
    | inr ((v, o), found) ↦
        let bad : ◌≡◌ {A = Option (ℕ × List PoolSlot)} (some (v, modify v slot_free ss)) none =
          rw (full, found, new_slot) at h in
        absurd (cc)
  ]
]

Kept-out : (s t : PoolSlot) → Kept s t → (t.used && t.leased) ≡ true → (s.used && s.leased) ≡ true
unfolding slot_free
Kept-out s t (inl e) f = subst (λ (x : PoolSlot). (x.used && x.leased) ≡ true) e f
Kept-out s t (inr (l, e)) f = absurd (let bad : false ≡ true = rw e at f in cc)

module _ (p : ConnPool) (conn_id so_path fp : List ℕ) (now : ℕ) where
  new-waits :
      (r : Scan)
      → (acquire_new p conn_id so_path fp r).1 ≡ Acquire.waits
      → (p.max_per_conn ≤ r.mine)
        ⊎ ((j : ℕ)
            → j < length r.slots
            → ((slot_at r.slots j).used && (slot_at r.slots j).leased) ≡ true)
  unfolding acquire_new
  new-waits r h = elim (Bool-cases (ltb r.mine p.max_per_conn)) [
    | inr n ↦ inl (ground arith)
    | inl y ↦ elim (Option-cases (new_slot r.slots)) [
      | inl full ↦ let (f, v) = new_slot-none r.slots full in inr (all_out 0 r.slots f v)
      | inr ((i, ts), found) ↦
          let bad : Acquire.opens i ≡ Acquire.waits = rw (y, found, acquire_new) at h in absurd (cc)
    ]
  ]

  dead-waits : (r : Scan) (d : ℕ) → (acquire_dead p conn_id so_path fp now r d).1 ≢ Acquire.waits
  unfolding acquire_dead
  dead-waits r d h = elim (Bool-cases (is_recent now (get_or r.slots d zero_slot))) [
    | inl y ↦
        let bad : Acquire.failed (get_or r.slots d zero_slot).last_error ≡ Acquire.waits =
          rw (y, acquire_dead) at h in
        cc
    | inr n ↦ let bad : Acquire.opens d ≡ Acquire.waits = rw (n, acquire_dead) at h in cc
  ]

  scan-waits :
      (r : Scan)
      → (after_scan p conn_id so_path fp now r).1 ≡ Acquire.waits
      → (r.hit ≡ none)
        × (r.dead_slot ≡ none)
        × ((acquire_new p conn_id so_path fp r).1 ≡ Acquire.waits)
  unfolding after_scan
  scan-waits r h = elim (Option-cases r.hit) [
    | inr (i, y) ↦
        let bad : Acquire.granted i ≡ Acquire.waits = rw (y, after_scan) at h in absurd (cc)
    | inl n ↦ elim (Option-cases r.dead_slot) [
      | inr (d, y) ↦ absurd (dead-waits r d (rw (n, y, after_scan) at h))
      | inl m ↦ (n, m, (rw (n, m, after_scan) at h))
    ]
  ]

  scanned-out :
      (j : ℕ)
      → let r = scan_from conn_id fp now 0 p.slots in
        r.hit ≡ none
        → ((slot_at r.slots j).used && (slot_at r.slots j).leased) ≡ true
        → ((slot_at p.slots j).used && (slot_at p.slots j).leased) ≡ true
  scanned-out j n h = elim (scan_from-Scanned conn_id fp now 0 p.slots j) [
    | inl (y, v, e) ↦ absurd (let bad : ◌≡◌ {A = Option ℕ} none (some (0 + j)) = sym n ∙ y in cc)
    | inr (y, k) ↦
        Kept-out (slot_at p.slots j) (slot_at (scan_from conn_id fp now 0 p.slots).slots j) k h
  ]

  -- A round of the acquisition waits only if the connection has as many sessions out as it may have,
  -- in its present configuration, or all the slots of the pool are out.
  pub acquire_round-waits :
      (acquire_round p conn_id so_path fp now).1 ≡ Acquire.waits
      → (p.max_per_conn ≤ busy_count conn_id fp p.slots)
        ⊎ ((j : ℕ)
            → j < length p.slots
            → ((slot_at p.slots j).used && (slot_at p.slots j).leased) ≡ true)
  unfolding acquire_round
  acquire_round-waits h =
      let r = scan_from conn_id fp now 0 p.slots in
      let (n, m, w) = scan-waits r h in
      elim (new-waits r w) [
        | inl l ↦ inl (omega (arith, l, scan_from-mine conn_id fp now 0 p.slots n m))
        | inr f ↦ inr (λ j l.
            scanned-out j n (f j (omega (arith, l, length-scan_from conn_id fp now 0 p.slots))))
      ]
