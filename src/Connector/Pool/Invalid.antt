-- ===== src/Connector/Pool/Invalid.antt =====
-- What becomes of a session of lib/connector/conn_pool.c whose connection is changed or deleted.
use napastak.Base.{
  same, ℕ, zero, suc, ◌+◌, ◌/◌, ◌%◌, ◌<◌, ◌≡◌, refl, ◌∙◌, Bool, true, false, none, List, [], ◌∷◌,
  arith, length, inl, inr, if◌then◌else◌, ltb, length-append,
}
use napastak.Connector.Slot.{
  PoolSlot, slot_free, slot_close, modify, is_empty, cfg_fingerprint, fnv, hex_digits,
}
use napastak.Connector.Pool.{
  ConnPool, conn_pool_release, conn_pool_invalidate, tick_end, released, invalidated, pinged,
}
use napastak.Connector.Pool.World.{World}
use napastak.Connector.Pool.Slots.{slot_at, modify-slot, slot_at-map}

length-hex_digits : (n h : ℕ) → length (hex_digits n h) ≡ n
unfolding hex_digits
length-hex_digits zero h = refl
length-hex_digits (suc n) h = omega (
  arith,
  length-append {0} (hex_digits n (h / 16))
      ((if ltb (h % 16) 10 then 48 + h % 16 else 87 + h % 16) ∷ []),
  length-hex_digits n (h / 16),
)

pub length-cfg_fingerprint : (cfg : List ℕ) → length (cfg_fingerprint cfg) ≡ 16
unfolding cfg_fingerprint
length-cfg_fingerprint cfg = length-hex_digits 16 (fnv 1469598103934665603 cfg)

in_use : (ss : List PoolSlot) (i : ℕ) → (slot_at ss i).used ≡ true → i < length ss
in_use [] i h = absurd (cc)
in_use (s ∷ ss) zero h = omega arith
in_use (s ∷ ss) (suc i) h = omega (arith, in_use ss i h)

module _ (p : ConnPool) (conn_id : List ℕ) (i : ℕ) where
  -- Slot `i` is out, with a session of the connection.
  pub record IsOut : Type 0 where
    pub named : is_empty conn_id ≡ false
    pub used : (slot_at p.slots i).used ≡ true
    pub leased : (slot_at p.slots i).leased ≡ true
    pub ours : same (slot_at p.slots i).conn_id conn_id ≡ true

  invalidate-slot :
      IsOut
      → slot_at (conn_pool_invalidate p conn_id).slots i ≡ record (slot_at p.slots i) { fp = [] }
  unfolding conn_pool_invalidate invalidated
  invalidate-slot h =
      rw (h.named, conn_pool_invalidate)
        (elim (slot_at-map (invalidated conn_id) p.slots i) [
          | inl e ↦ e ∙ (rw (h.used, h.leased, h.ours, invalidated) refl)
          | inr (e, z) ↦ absurd (let u : false ≡ true = rw z at h.used in cc)
        ])

  invalidate-in_range : IsOut → i < length (conn_pool_invalidate p conn_id).slots
  invalidate-in_range h =
      in_use (conn_pool_invalidate p conn_id).slots i (rw (invalidate-slot h) h.used)

write-slot :
    (i : ℕ) (f : PoolSlot → PoolSlot) (ss : List PoolSlot)
    → i < length ss
    → slot_at (modify i f ss) i ≡ f (slot_at ss i)
write-slot i f ss l = elim (modify-slot i f ss i) [
  | inl (n, e) ↦ absurd (omega (arith, n refl, l))
  | inr (n, e) ↦ e
]

-- A session that is out when its connection is invalidated is closed when it comes back, whether the
-- thread that had it calls it healthy or not, and its slot is free.
pub release-invalidate :
    (p : ConnPool) (conn_id : List ℕ) (i : ℕ) (healthy : Bool) (now : ℕ)
    → IsOut p conn_id i
    → let s = slot_at (conn_pool_release (conn_pool_invalidate p conn_id) i healthy now).slots i in
      (s.used ≡ false) × (s.leased ≡ false) × (s.inst ≡ none)
unfolding conn_pool_release released slot_free slot_close
release-invalidate p conn_id i healthy now h =
    let q = conn_pool_invalidate p conn_id in
    let e = write-slot i (released healthy now) q.slots (invalidate-in_range p conn_id i h) in
    rw (e, invalidate-slot p conn_id i h) (refl, refl, refl)

-- A session that the keepalive pings when its connection is invalidated is kept, where the ping
-- succeeds: its slot stays in use with the instance and with no fingerprint, and it is not out.
tick_end-invalidate :
    (p : ConnPool) (conn_id : List ℕ) (i : ℕ) (why : List ℕ) (now : ℕ)
    → IsOut p conn_id i
    → let s = slot_at (tick_end (conn_pool_invalidate p conn_id) i 0 why now).slots i in
      (s.used ≡ true) × (s.leased ≡ false) × (s.inst ≡ (slot_at p.slots i).inst) × (s.fp ≡ [])
unfolding tick_end pinged
tick_end-invalidate p conn_id i why now h =
    let q = conn_pool_invalidate p conn_id in
    let e = write-slot i (pinged 0 why now) q.slots (invalidate-in_range p conn_id i h) in
    rw (e, invalidate-slot p conn_id i h) (h.used, refl, refl, refl)
