-- ===== src/Connector/Pool/Tests.antt =====
-- Runs of lib/connector/conn_pool.c and instances of what is proved of it.
use napastak.Base.{
  ℕ, ◌+◌, ◌≤◌, ◌<◌, ◌≡◌, ◌⊎◌, refl, true, false, ◌&&◌, none, some, List, [], ◌∷◌, arith,
}
use napastak.Connector.Slot.{
  PoolSlot, Attempt, has, cfg_fingerprint, fnv, hex_digits, slot_open, slot_opened, modify,
}
use napastak.Connector.Pool.{
  ConnPool, State, visit, Acquire, conn_pool_create, conn_pool_acquire, conn_pool_invalidate,
  conn_pool_release, conn_lease_inst, conn_pool_status, conn_pool_destroy, tick_start,
  acquire_round, after_scan, acquire_new, new_slot, free_from, scan_from, scan_step, gather,
  count_busy, is_idle,
}
use napastak.Connector.Pool.Slots.{slot_at}
use napastak.Connector.Pool.World.{
  World, Reach, created, stepped, acquires, opens_slot, acquired, opened, count,
}
use napastak.Connector.Pool.Steps.{Reach-Exclusive}
use napastak.Connector.Pool.Invalid.{IsOut, release-invalidate}
use napastak.Connector.Pool.Waits.{busy_count, acquire_round-waits}

abbrev conn : List ℕ
conn = 99 ∷ 49 ∷ []

abbrev so : List ℕ
so = 47 ∷ 120 ∷ []

abbrev cfg : List ℕ
cfg = 123 ∷ 125 ∷ []

-- The pool of one session for each connection, at the start.
abbrev start : World
start = record { pool = conn_pool_create 1 60; opens = []; leases = []; pings = [] }

abbrev opening : World
opening = acquired start (conn_pool_acquire start.pool conn so cfg [] 100)

abbrev out : World
out = opened opening 0 (
    slot_open conn so cfg (cfg_fingerprint cfg) true [] 101 (Attempt.loaded 7 0 [])
      (slot_at opening.pool.slots 0))

fingerprint_of :
    cfg_fingerprint cfg
    ≡ 57 ∷ 98 ∷ 102 ∷ 54 ∷ 53 ∷ 101 ∷ 48 ∷ 48 ∷ 99 ∷ 54 ∷ 57 ∷ 57 ∷ 102 ∷ 100 ∷ 97 ∷ 102 ∷ []
unfolding cfg_fingerprint fnv hex_digits
fingerprint_of = refl

opening-opens : opening.opens ≡ 0 ∷ []
unfolding acquired conn_pool_create conn_pool_acquire acquire_round scan_from after_scan acquire_new
    new_slot free_from cfg_fingerprint fnv hex_digits
opening-opens = refl

-- A second thread waits for the one session of the connection.
second_waits : (conn_pool_acquire out.pool conn so cfg [] 102).1 ≡ Acquire.waits
unfolding acquired opened conn_pool_create conn_pool_acquire acquire_round scan_from scan_step visit
    after_scan acquire_new new_slot free_from cfg_fingerprint fnv hex_digits slot_open slot_opened
    modify
second_waits = refl

status-out : (conn_pool_status out.pool conn).1 ≡ State.ok
unfolding acquired opened conn_pool_create conn_pool_acquire acquire_round scan_from scan_step visit
    after_scan acquire_new new_slot free_from cfg_fingerprint fnv hex_digits slot_open slot_opened
    modify conn_pool_status gather
status-out = refl

out-Reach : Reach out
unfolding count acquired conn_pool_create conn_pool_acquire acquire_round scan_from after_scan
    acquire_new new_slot free_from cfg_fingerprint fnv hex_digits
out-Reach = stepped (stepped (created 1 60) (acquires conn so cfg [] 100)) (
    opens_slot 0 conn so cfg (cfg_fingerprint cfg) true [] 101 (Attempt.loaded 7 0 [])
      (omega arith))

Reach-Exclusive_example :
    (count 0 out.opens + (count 0 out.leases + count 0 out.pings) ≤ 1)
    × (0 < count 0 out.leases → has (conn_lease_inst out.pool 0) ≡ true)
Reach-Exclusive_example = Reach-Exclusive out out-Reach 0

-- A session of the connection that a thread has.
abbrev held : PoolSlot
held = record {
  used = true;
  leased = true;
  opening = false;
  conn_id = conn;
  so_path = so;
  fp = cfg_fingerprint cfg;
  cfg = some cfg;
  inst = some 7;
  has_arena = true;
  last_used = 101;
  last_ok = 101;
  last_error = [];
}

abbrev holding : ConnPool
holding = record { slots = held ∷ []; max_per_conn = 1; idle_ping_sec = 60 }

holding-IsOut : IsOut holding conn 0
holding-IsOut = record { named = refl; used = refl; leased = refl; ours = refl }

release-invalidate_example :
    let s = slot_at (conn_pool_release (conn_pool_invalidate holding conn) 0 true 200).slots 0 in
    (s.used ≡ false) × (s.leased ≡ false) × (s.inst ≡ none)
release-invalidate_example = release-invalidate holding conn 0 true 200 holding-IsOut

abbrev busy_opening : World
busy_opening = record {
  pool = record holding { slots = record held { opening = true; inst = none } ∷ [] };
  opens = 0 ∷ [];
  leases = [];
  pings = [];
}

waiting : (acquire_round holding conn so (cfg_fingerprint cfg) 102).1 ≡ Acquire.waits
unfolding acquire_round scan_from scan_step visit after_scan acquire_new cfg_fingerprint fnv
    hex_digits
waiting = refl

acquire_round-waits_example :
    (1 ≤ busy_count conn (cfg_fingerprint cfg) holding.slots)
    ⊎ ((j : ℕ)
        → j < 1
        → ((slot_at holding.slots j).used && (slot_at holding.slots j).leased) ≡ true)
acquire_round-waits_example = acquire_round-waits holding conn so (cfg_fingerprint cfg) 102 waiting

-- The pool is not taken down while the session is out.
destroy_later : conn_pool_destroy holding ≡ none
unfolding conn_pool_destroy count_busy
destroy_later = refl

-- The keepalive leaves it alone, too.
ping_later : tick_start holding 1000 0 ≡ none
unfolding tick_start is_idle
ping_later = refl
