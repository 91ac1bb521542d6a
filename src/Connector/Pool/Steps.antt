-- ===== src/Connector/Pool/Steps.antt =====
-- Every step of the threads keeps the slots of lib/connector/conn_pool.c in one pair of hands.
use napastak.Base.{
  ℕ, zero, suc, ◌+◌, ◌≤◌, ◌<◌, ◌≡◌, refl, sym, Bool, true, Option, none, some, List, ◌∷◌, arith,
  length, Bool-cases, inl, inr, ap, ◌==◌, if◌then◌else◌, get_or, replicate,
}
use mathlib.Core.Path.{subst}
use napastak.Connector.Slot.{
  PoolSlot, zero_slot, slot_free, slot_close, slot_open, slot_opened, modify, has, is_empty,
  cfg_fingerprint,
}
use napastak.Connector.Pool.{
  ConnPool, acquire_round, conn_pool_create, conn_pool_acquire, conn_pool_release,
  conn_pool_invalidate, conn_lease_inst, tick_start, tick_end, released, invalidated, pinged,
  is_idle, with_slots, pool_max_slots,
}
use napastak.Connector.Pool.Slots.{slot_at, slot_at-map}
use napastak.Connector.Pool.Exclusive.{acquire_round-slot}
use napastak.Connector.Pool.World.{
  created, stepped, acquires, opens_slot, releases, invalidates, tick_starts, tick_ends, World, bit,
  count, remove, acquired, opened, Step, Reach,
}
use napastak.Connector.Pool.Held.{
  Held, HeldAt, count-remove, Held-moved, counted, uncounted, acquired-HeldAt, Held-in_range,
  Held-modify, Held-opened, released-flags, pinged-flags, Held-left, idle_in_range, Held-pinging,
  count-given, bit_le, counted_if, uncounted_if,
}

-- A slot that a thread gives back, or keeps as a lease where `ok`.
module _ (w : World) (i j : ℕ) (h : HeldAt w j) where
  opened-HeldAt :
      (s : PoolSlot) (ok : Bool)
      → 0 < count i w.opens
      → i < length w.pool.slots
      → Held (slot_opened (s, ok)) 0 (bit ok)
      → HeldAt (opened w i (s, ok)) j
  unfolding opened
  opened-HeldAt s ok n c g =
      let taken = count-remove i w.opens j n in
      let given = count-given ok i w.leases j in
      Held-modify w.pool.slots i (λ t. slot_opened (s, ok)) j (count j w.opens)
        (count j w.leases + count j w.pings) (count j (remove i w.opens))
        (count j (if ok then i ∷ w.leases else w.leases) + count j w.pings) h
        (λ e. (omega (arith, taken, uncounted i j e), omega (arith, given, uncounted_if ok i j e)))
        (λ e.
          let n' : 0 < count j w.opens = subst (λ t. 0 < count t w.opens) e n in
          Held-moved g refl
            (omega
              (arith, taken, counted i j e, n', h.leased, bit_le (slot_at w.pool.slots j).leased))
            (omega (
              arith,
              given,
              counted_if ok i j e,
              n',
              h.leased,
              bit_le (slot_at w.pool.slots j).leased,
            )))
        c

  released-HeldAt :
      (healthy : Bool) (now : ℕ)
      → 0 < count i w.leases
      → i < length w.pool.slots
      → HeldAt
          (record w { pool = conn_pool_release w.pool i healthy now; leases = remove i w.leases })
          j
  unfolding conn_pool_release
  released-HeldAt healthy now n c =
      let taken = count-remove i w.leases j n in
      Held-modify w.pool.slots i (released healthy now) j (count j w.opens)
        (count j w.leases + count j w.pings) (count j w.opens)
        (count j (remove i w.leases) + count j w.pings) h
        (λ e. (refl, omega (arith, taken, uncounted i j e)))
        (λ e.
          let n' : 0 < count j w.leases = subst (λ t. 0 < count t w.leases) e n in
          Held-moved
            (Held-left (slot_at w.pool.slots j) (released healthy now (slot_at w.pool.slots j))
              (count j w.opens) (count j w.leases + count j w.pings) (omega (arith, n')) h
              (released-flags healthy now (slot_at w.pool.slots j)))
            refl (omega (arith, n', h.leased, bit_le (slot_at w.pool.slots j).leased))
            (omega
              (arith, taken, counted i j e, n', h.leased, bit_le (slot_at w.pool.slots j).leased)))
        c

  pinged-HeldAt :
      (rc : ℕ) (why : List ℕ) (now : ℕ)
      → 0 < count i w.pings
      → i < length w.pool.slots
      → HeldAt (record w { pool = tick_end w.pool i rc why now; pings = remove i w.pings }) j
  unfolding tick_end
  pinged-HeldAt rc why now n c =
      let taken = count-remove i w.pings j n in
      Held-modify w.pool.slots i (pinged rc why now) j (count j w.opens)
        (count j w.leases + count j w.pings) (count j w.opens)
        (count j w.leases + count j (remove i w.pings)) h
        (λ e. (refl, omega (arith, taken, uncounted i j e)))
        (λ e.
          let n' : 0 < count j w.pings = subst (λ t. 0 < count t w.pings) e n in
          Held-moved
            (Held-left (slot_at w.pool.slots j) (pinged rc why now (slot_at w.pool.slots j))
              (count j w.opens) (count j w.leases + count j w.pings) (omega (arith, n')) h
              (pinged-flags rc why now (slot_at w.pool.slots j)))
            refl (omega (arith, n', h.leased, bit_le (slot_at w.pool.slots j).leased))
            (omega
              (arith, taken, counted i j e, n', h.leased, bit_le (slot_at w.pool.slots j).leased)))
        c

  tick_start-HeldAt :
      (t : ℕ) (p : ConnPool)
      → tick_start w.pool t i ≡ some p
      → HeldAt (record w { pool = p; pings = i ∷ w.pings }) j
  unfolding tick_start count
  tick_start-HeldAt t p e =
      elim (Bool-cases (is_idle w.pool.idle_ping_sec t (get_or w.pool.slots i zero_slot))) [
        | inr n ↦
            let bad : ◌≡◌ {A = Option ConnPool} none (some p) = rw (n, tick_start) at e in
            absurd (cc)
        | inl y ↦
            let f : PoolSlot → PoolSlot = λ s. record s { leased = true } in
            let same_pool : some (with_slots w.pool (modify i f w.pool.slots)) ≡ some p =
              rw (y, tick_start) at e in
            let c = idle_in_range w.pool.idle_ping_sec t w.pool.slots i y in
            let same_p : with_slots w.pool (modify i f w.pool.slots) ≡ p = cc in
            let same_slots : p.slots ≡ modify i f w.pool.slots =
              sym (ap (λ (q : ConnPool). q.slots) same_p) in
            rw same_slots (
              Held-modify w.pool.slots i f j (count j w.opens) (count j w.leases + count j w.pings)
                (count j w.opens) (count j w.leases + (bit (i == j) + count j w.pings)) h
                (λ k. (refl, omega (arith, uncounted i j k)))
                (λ k.
                  Held-moved
                    (Held-pinging w.pool.idle_ping_sec t (slot_at w.pool.slots j) (count j w.opens)
                      (count j w.leases + count j w.pings)
                      (subst (λ x. is_idle w.pool.idle_ping_sec t (slot_at w.pool.slots x) ≡ true) k
                        y)
                      h)
                    refl refl (omega (arith, counted i j k)))
                c)
      ]

invalidated-Held :
    (conn_id : List ℕ) (s : PoolSlot) (o l : ℕ) → Held s o l → Held (invalidated conn_id s) o l
unfolding invalidated slot_free slot_close
invalidated-Held conn_id s o l h = record {
  leased = ground (arith, h.leased);
  opening = ground (arith, h.opening);
  used = λ q. ground (arith, h.used);
  live = λ q r. ground (arith, h.live);
}

invalidated-HeldAt :
    (w : World) (conn_id : List ℕ) (j : ℕ)
    → HeldAt w j
    → HeldAt (record w { pool = conn_pool_invalidate w.pool conn_id }) j
unfolding conn_pool_invalidate
invalidated-HeldAt w conn_id j h = elim (Bool-cases (is_empty conn_id)) [
  | inl y ↦ rw (y, conn_pool_invalidate) h
  | inr n ↦
      rw (n, conn_pool_invalidate)
        (elim (slot_at-map (invalidated conn_id) w.pool.slots j) [
          | inl e ↦
              Held-moved
                (invalidated-Held conn_id (slot_at w.pool.slots j) (count j w.opens)
                  (count j w.leases + count j w.pings) h)
                e refl refl
          | inr (e, z) ↦ Held-moved h e refl refl
        ])
]

Step-HeldAt : (w w' : World) → Step w w' → ((j : ℕ) → HeldAt w j) → (j : ℕ) → HeldAt w' j
unfolding conn_pool_acquire acquired conn_pool_invalidate
Step-HeldAt w w' (acquires conn_id so_path cfg unset now) h j =
    elim (Bool-cases (is_empty conn_id)) [
      | inl y ↦ rw (y, conn_pool_acquire) (h j)
      | inr n ↦
          rw (n, conn_pool_acquire)
            (let r = acquire_round w.pool conn_id so_path (cfg_fingerprint cfg) now in
              acquired-HeldAt conn_id so_path (cfg_fingerprint cfg) now w.pool w r.1 r.0 j
                (acquire_round-slot w.pool conn_id so_path (cfg_fingerprint cfg) now j) (h j))
    ]
Step-HeldAt w w' (opens_slot i conn_id so_path cfg fp verify unable now a n) h j =
    opened-HeldAt w i j (h j)
      (slot_open conn_id so_path cfg fp verify unable now a (slot_at w.pool.slots i)).0
      (slot_open conn_id so_path cfg fp verify unable now a (slot_at w.pool.slots i)).1 n
      (Held-in_range w.pool.slots i (count i w.opens) (count i w.leases + count i w.pings) (h i)
        (omega arith))
      (Held-opened conn_id so_path cfg fp verify unable now a (slot_at w.pool.slots i)
        (count i w.opens) (count i w.leases + count i w.pings) n (h i))
Step-HeldAt w w' (releases i healthy now n) h j = released-HeldAt w i j (h j) healthy now n (
    Held-in_range w.pool.slots i (count i w.opens) (count i w.leases + count i w.pings) (h i)
      (omega arith))
Step-HeldAt w w' (invalidates conn_id) h j = invalidated-HeldAt w conn_id j (h j)
Step-HeldAt w w' (tick_starts t i p e) h j = tick_start-HeldAt w i j (h j) t p e
Step-HeldAt w w' (tick_ends i rc why now n) h j = pinged-HeldAt w i j (h j) rc why now n (
    Held-in_range w.pool.slots i (count i w.opens) (count i w.leases + count i w.pings) (h i)
      (omega arith))

created-HeldAt : (n : ℕ) (j : ℕ) → Held (slot_at (replicate n zero_slot) j) 0 0
created-HeldAt zero j = record {
  leased = refl;
  opening = refl;
  used = λ q. absurd (cc);
  live = λ q r. absurd (cc);
}
created-HeldAt (suc n) zero = record {
  leased = refl;
  opening = refl;
  used = λ q. absurd (cc);
  live = λ q r. absurd (cc);
}
created-HeldAt (suc n) (suc j) = created-HeldAt n j

Reach-HeldAt : {w : World} → Reach w → (j : ℕ) → HeldAt w j
unfolding conn_pool_create count
Reach-HeldAt (created max_per_conn idle_ping_sec) j = created-HeldAt pool_max_slots j
Reach-HeldAt (stepped {w} {w'} r s) j = Step-HeldAt w w' s (Reach-HeldAt r) j

-- However the critical sections of the threads follow one another, a slot is in the hands of at most
-- one of them: of those that open a session, that have one on lease, and the keepalive. A thread with
-- a lease finds an instance in its slot.
pub Reach-Exclusive :
    (w : World)
    → Reach w
    → (j : ℕ)
    → (count j w.opens + (count j w.leases + count j w.pings) ≤ 1)
      × (0 < count j w.leases → has (conn_lease_inst w.pool j) ≡ true)
unfolding conn_lease_inst
Reach-Exclusive w r j =
    let h = Reach-HeldAt r j in
    (
      omega (arith, h.leased, bit_le (slot_at w.pool.slots j).leased),
      λ n.
          h.live (ground (arith, h.leased, bit_le (slot_at w.pool.slots j).leased))
            (ground (arith, h.leased, h.opening)),
    )
