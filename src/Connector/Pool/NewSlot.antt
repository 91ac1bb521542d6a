-- ===== src/Connector/Pool/NewSlot.antt =====
-- The slot that `conn_pool_acquire` of lib/connector/conn_pool.c takes for one more session.
use napastak.Base.{
  ℕ, suc, ◌+◌, ◌<◌, ◌≡◌, ◌⊎◌, refl, false, Option, none, some, List, [], ◌∷◌, arith, length,
  Bool-cases, Option-cases, inl, inr, ◌&&◌, ltb, not,
}
use mathlib.Core.Path.{subst}
use napastak.Connector.Slot.{PoolSlot, slot_free, modify}
use napastak.Connector.Pool.{new_slot, free_from, victim_from, older}
use napastak.Connector.Pool.Slots.{slot_at, modify-slot, length-modify, Kept}

-- The slot that `free_from` gives is not in use.
free_from-slot :
    (i : ℕ) (ss : List PoolSlot) (k : ℕ)
    → free_from i ss ≡ some k
    → (j : ℕ) × (k ≡ i + j) × (j < length ss) × ((slot_at ss j).used ≡ false)
unfolding free_from
free_from-slot i [] k h = absurd (ground arith)
free_from-slot i (s ∷ ss) k h = elim (Bool-cases s.used) [
  | inl y ↦
      let (j, e, l, u) = free_from-slot (i + 1) ss k (rw y at h) in
      (suc j, omega (arith, e), omega (arith, l), u)
  | inr n ↦ (0, ground arith, omega arith, n)
]

older-none :
    (i : ℕ) (s : PoolSlot) (k t : ℕ) → older i s none ≡ some (k, t) → (k ≡ i) × (s.leased ≡ false)
unfolding older
older-none i s k t h = ground arith

older-some :
    (i : ℕ) (s : PoolSlot) (v o k t : ℕ)
    → older i s (some (v, o)) ≡ some (k, t)
    → (k ≡ v) ⊎ ((k ≡ i) × (s.leased ≡ false))
unfolding older
older-some i s v o k t h = elim (Bool-cases (s.used && not s.leased && ltb s.last_used o)) [
  | inl y ↦ inr (ground arith, ground arith)
  | inr n ↦ inl (ground arith)
]

older-slot :
    (i : ℕ) (s : PoolSlot) (o : Option (ℕ × ℕ)) (ss : List PoolSlot) (k t : ℕ)
    → older i s o ≡ some (k, t)
    → ((u : ℕ) × (o ≡ some (k, u)))
      ⊎ ((j : ℕ) × (k ≡ i + j) × (j < length (s ∷ ss)) × ((slot_at (s ∷ ss) j).leased ≡ false))
older-slot i s none ss k t h =
    let (e, f) = older-none i s k t h in inr (0, omega (arith, e), omega arith, f)
older-slot i s (some (v, o)) ss k t h = elim (older-some i s v o k t h) [
  | inl e ↦ inl (o, rw e refl)
  | inr (e, f) ↦ inr (0, omega (arith, e), omega arith, f)
]

-- The slot that `victim_from` gives, if it is not the one it starts from, is nobody's.
victim_from-slot :
    (i : ℕ) (o : Option (ℕ × ℕ)) (ss : List PoolSlot) (k t : ℕ)
    → victim_from i o ss ≡ some (k, t)
    → ((u : ℕ) × (o ≡ some (k, u)))
      ⊎ ((j : ℕ) × (k ≡ i + j) × (j < length ss) × ((slot_at ss j).leased ≡ false))
unfolding victim_from
victim_from-slot i o [] k t h = inl (t, h)
victim_from-slot i o (s ∷ ss) k t h = elim (victim_from-slot (i + 1) (older i s o) ss k t h) [
  | inl (u, e) ↦ older-slot i s o ss k u e
  | inr (j, e, l, f) ↦ inr (suc j, omega (arith, e), omega (arith, l), f)
]

new_slot-cases :
    (ss : List PoolSlot) (i : ℕ) (ss' : List PoolSlot)
    → new_slot ss ≡ some (i, ss')
    → ((free_from 0 ss ≡ some i) × (ss' ≡ ss))
      ⊎ ((o : ℕ) × (victim_from 0 none ss ≡ some (i, o)) × (ss' ≡ modify i slot_free ss))
unfolding new_slot
new_slot-cases ss i ss' h = elim (Option-cases (free_from 0 ss)) [
  | inr (k, found) ↦
      let e : some (k, ss) ≡ some (i, ss') = rw (found, new_slot) at h in inl (rw found (cc), cc)
  | inl full ↦ elim (Option-cases (victim_from 0 none ss)) [
    | inl lost ↦ let e : none ≡ some (i, ss') = rw (full, lost, new_slot) at h in absurd (cc)
    | inr ((v, o), found) ↦
        let e : some (v, modify v slot_free ss) ≡ some (i, ss') = rw (full, found, new_slot) at h in
        let same_slot : v ≡ i = cc in inr (o, rw found (rw same_slot refl), rw (← same_slot) (cc))
  ]
]

-- The slot that is given for a new session is in range and nobody's, and no other slot changes but
-- by an eviction.
pub new_slot-slot :
    (ss : List PoolSlot) (i : ℕ) (ss' : List PoolSlot)
    → new_slot ss ≡ some (i, ss')
    → (i < length ss)
      × (((slot_at ss i).used && (slot_at ss i).leased) ≡ false)
      × (length ss' ≡ length ss)
      × ((j : ℕ) → Kept (slot_at ss j) (slot_at ss' j))
new_slot-slot ss i ss' h = elim (new_slot-cases ss i ss' h) [
  | inl (found, e) ↦
      let (j, k, l, u) = free_from-slot 0 ss i found in
      let same_slot : i ≡ j = omega (arith, k) in
      (rw same_slot l, rw (same_slot, u) refl, rw e refl, λ m. inl (rw e refl))
  | inr (o, found, e) ↦ elim (victim_from-slot 0 none ss i o found) [
    | inl (u, n) ↦ absurd (cc)
    | inr (j, k, l, u) ↦
        let same_slot : i ≡ j = omega (arith, k) in
        (
          rw same_slot l,
          ground (arith, same_slot, u),
          rw (e, length-modify) refl,
          λ m. elim (modify-slot i slot_free ss m) [
            | inl (n, q) ↦ inl (rw e q)
            | inr (q, g) ↦
                inr (
                  subst (λ t. (slot_at ss t).leased ≡ false) (omega (arith, q, same_slot)) u,
                  rw e g,
                )
          ],
        )
  ]
]
