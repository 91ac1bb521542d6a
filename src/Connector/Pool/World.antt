-- ===== src/Connector/Pool/World.antt =====
-- Threads at work on one pool of lib/connector/conn_pool.c, their critical sections in any order.
use napastak.Base.{ℕ, ◌+◌, ◌<◌, ◌≡◌, Bool, true, false, some, List, [], ◌∷◌, ◌==◌, if◌then◌else◌}
use napastak.Connector.Slot.{PoolSlot, Attempt, slot_open, slot_opened, modify}
use napastak.Connector.Pool.{
  ConnPool, Acquire, conn_pool_create, conn_pool_acquire, conn_pool_release, conn_pool_invalidate,
  tick_start, tick_end, with_slots,
}
use napastak.Connector.Pool.Slots.{slot_at}

-- The slots that some thread opens, has on lease, or pings.
pub record World : Type 0 where
  pub pool : ConnPool
  pub opens : List ℕ
  pub leases : List ℕ
  pub pings : List ℕ

abbrev pub bit : Bool → ℕ
bit true = 1
bit false = 0

unfoldable pub count : ℕ → List ℕ → ℕ
count j [] = 0
count j (i ∷ is) = bit (i == j) + count j is

unfoldable pub remove : ℕ → List ℕ → List ℕ
remove j [] = []
remove j (i ∷ is) = let rest = remove j is in if i == j then is else i ∷ rest

-- What a thread has after its round of `conn_pool_acquire`.
unfoldable pub acquired : World → ConnPool × Acquire → World
acquired w (p, Acquire.granted i) = record w { pool = p; leases = i ∷ w.leases }
acquired w (p, Acquire.opens i) = record w { pool = p; opens = i ∷ w.opens }
acquired w (p, Acquire.failed e) = record w { pool = p }
acquired w (p, Acquire.waits) = record w { pool = p }

-- The end of `slot_open_unlocked` by the thread that opens slot `i`.
unfoldable pub opened : World → ℕ → PoolSlot × Bool → World
unfolding modify slot_opened remove
opened w i (s, ok) = record w {
  pool = with_slots w.pool (modify i (λ t. slot_opened (s, ok)) w.pool.slots);
  opens = remove i w.opens;
  leases = if ok then i ∷ w.leases else w.leases;
}

-- A step of one thread, whatever its arguments and the answers it gets. The writes of `slot_open`,
-- which runs without the mutex, are made together, just before the critical section that ends it.
pub data Step (w : World) : World → Type 0 where
  acquires :
      (conn_id so_path cfg unset : List ℕ) (now : ℕ)
      → Step w (acquired w (conn_pool_acquire w.pool conn_id so_path cfg unset now))
  opens_slot :
      (i : ℕ) (conn_id so_path cfg fp : List ℕ) (verify : Bool) (unable : List ℕ) (now : ℕ)
      (a : Attempt)
      → 0 < count i w.opens
      → Step w (
          opened w i
            (slot_open conn_id so_path cfg fp verify unable now a (slot_at w.pool.slots i)))
  releases :
      (i : ℕ) (healthy : Bool) (now : ℕ)
      → 0 < count i w.leases
      → Step w
          (record w { pool = conn_pool_release w.pool i healthy now; leases = remove i w.leases })
  invalidates :
      (conn_id : List ℕ) → Step w (record w { pool = conn_pool_invalidate w.pool conn_id })
  tick_starts :
      (t i : ℕ) (p : ConnPool)
      → tick_start w.pool t i ≡ some p
      → Step w (record w { pool = p; pings = i ∷ w.pings })
  tick_ends :
      (i rc : ℕ) (why : List ℕ) (now : ℕ)
      → 0 < count i w.pings
      → Step w (record w { pool = tick_end w.pool i rc why now; pings = remove i w.pings })

pub data Reach : World → Type 0 where
  created :
      (max_per_conn idle_ping_sec : ℕ)
      → Reach (record {
        pool = conn_pool_create max_per_conn idle_ping_sec;
        opens = [];
        leases = [];
        pings = [];
      })
  stepped : {w w' : World} → Reach w → Step w w' → Reach w'
