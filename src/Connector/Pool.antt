-- ===== src/Connector/Pool.antt =====
-- The pool of sessions, lib/connector/conn_pool.c. A function here is one critical section of
-- `p->mu`.
pub mod Slots
pub mod NewSlot
pub mod Dead
pub mod Exclusive
pub mod World
pub mod Held
pub mod Steps
pub mod Invalid
pub mod Waits
mod Tests
use napastak.Base.{
  same, ℕ, zero, suc, ◌+◌, ◌-◌, ◌*◌, ◌/◌, ◌%◌, ◌^◌, Bool, true, false, not, ◌&&◌, ◌||◌, Option,
  none, some, List, [], ◌∷◌, ◌++◌, map, ltb, leb, ◌==◌, if◌then◌else◌, length, take, replicate,
  get_elem?, get_or,
}
use napastak.Connector.Slot.{
  PoolSlot, is_empty, has, cfg_fingerprint, slot_close, slot_free, zero_slot, message, reserved,
  modify,
}

abbrev pub pool_max_slots : ℕ
pool_max_slots = 64

pub record ConnPool : Type 0 where
  pub slots : List PoolSlot
  pub max_per_conn : ℕ
  pub idle_ping_sec : ℕ

-- A setting that is not positive gets its default; 0 stands for every such one.
unfoldable pub conn_pool_create : ℕ → ℕ → ConnPool
conn_pool_create max_per_conn idle_ping_sec = record {
  slots = replicate pool_max_slots zero_slot;
  max_per_conn = if ltb 0 max_per_conn then max_per_conn else 4;
  idle_ping_sec = if ltb 0 idle_ping_sec then idle_ping_sec else 60;
}

unfoldable pub count_busy : List PoolSlot → ℕ
count_busy [] = 0
count_busy (s ∷ ss) = (if s.used && s.leased then 1 else 0) + count_busy ss

abbrev pub freed_if_used : PoolSlot → PoolSlot
freed_if_used s = if s.used then slot_free s else s

-- One round of the wait of `conn_pool_destroy`: `none` while a session is out.
unfoldable pub conn_pool_destroy : ConnPool → Option ConnPool
unfolding count_busy slot_free
conn_pool_destroy p =
    if count_busy p.slots == 0 then some (record p { slots = map freed_if_used p.slots }) else none

-- What the scan of `conn_pool_acquire` makes of a slot.
pub data Visit : Type 0 where
  other stale busy live dead : Visit

unfoldable pub visit : List ℕ → List ℕ → PoolSlot → Visit
visit conn_id fp s =
    if not s.used || not (same s.conn_id conn_id)
    then other
    else if not (same s.fp fp)
    then if s.leased then other else stale
    else if s.leased
    then busy
    else if has s.inst
    then live
    else dead

pub record Scan : Type 0 where
  pub slots : List PoolSlot
  pub mine : ℕ
  pub dead_slot : Option ℕ
  pub hit : Option ℕ

abbrev pub is_hit : Scan → Bool
is_hit r = has r.hit

-- The scan at slot `i` with the slots `ss` after it, where `r` is the scan of those. It ends at a
-- hit, after which `mine` and `dead_slot` are not used.
unfoldable pub scan_step : Visit → ℕ → ℕ → PoolSlot → List PoolSlot → Scan → Scan
unfolding slot_free
scan_step other now i s ss r = record r { slots = s ∷ r.slots }
scan_step stale now i s ss r = record r { slots = slot_free s ∷ r.slots }
scan_step busy now i s ss r = record r { slots = s ∷ r.slots; mine = r.mine + 1 }
scan_step live now i s ss r = record {
  slots = record s { leased = true; last_used = now } ∷ ss;
  mine = 1;
  dead_slot = none;
  hit = some i;
}
scan_step dead now i s ss r = record r {
  slots = s ∷ r.slots;
  mine = r.mine + 1;
  dead_slot = some i;
}

unfoldable pub scan_from : List ℕ → List ℕ → ℕ → ℕ → List PoolSlot → Scan
unfolding visit scan_step
scan_from conn_id fp now i [] = record { slots = []; mine = 0; dead_slot = none; hit = none }
scan_from conn_id fp now i (s ∷ ss) =
    scan_step (visit conn_id fp s) now i s ss (scan_from conn_id fp now (i + 1) ss)

unfoldable pub free_from : ℕ → List PoolSlot → Option ℕ
free_from i [] = none
free_from i (s ∷ ss) = let rest = free_from (i + 1) ss in if s.used then rest else some i

-- `victim` with `oldest`, after a look at slot `i`.
unfoldable pub older : ℕ → PoolSlot → Option (ℕ × ℕ) → Option (ℕ × ℕ)
older i s none = if s.used && not s.leased then some (i, s.last_used) else none
older i s (some (v, oldest)) =
    if s.used && not s.leased && ltb s.last_used oldest
    then some (i, s.last_used)
    else some (v, oldest)

unfoldable pub victim_from : ℕ → Option (ℕ × ℕ) → List PoolSlot → Option (ℕ × ℕ)
unfolding older
victim_from i o [] = o
victim_from i o (s ∷ ss) = victim_from (i + 1) (older i s o) ss

-- How one round of the loop of `conn_pool_acquire` ends: a lease of a live session, a recent error,
-- a slot that is reserved to be opened, or the wait.
pub data Acquire : Type 0 where
  granted : ℕ → Acquire
  failed : List ℕ → Acquire
  opens : ℕ → Acquire
  waits : Acquire

-- A slot for one more session, after the eviction of the oldest that is idle where all are used.
unfoldable pub new_slot : List PoolSlot → Option (ℕ × List PoolSlot)
unfolding free_from victim_from modify slot_free
new_slot ss = elim (free_from 0 ss) [
  | some i ↦ some (i, ss)
  | none ↦ elim (victim_from 0 none ss) [
    | none ↦ none
    | some (v, oldest) ↦ some (v, modify v slot_free ss)
  ]
]

abbrev pub with_slots : ConnPool → List PoolSlot → ConnPool
with_slots p ss = record p { slots = ss }

-- What follows a scan without a hit and without a slot to reopen.
unfoldable pub acquire_new : ConnPool → List ℕ → List ℕ → List ℕ → Scan → ConnPool × Acquire
unfolding new_slot modify
acquire_new p conn_id so_path fp r =
    if ltb r.mine p.max_per_conn
    then elim (new_slot r.slots) [
      | none ↦ (with_slots p r.slots, waits)
      | some (i, ss) ↦ (with_slots p (modify i (reserved conn_id so_path fp) ss), opens i)
    ]
    else (with_slots p r.slots, waits)

-- The last opening of the slot failed less than five seconds ago.
unfoldable pub is_recent : ℕ → PoolSlot → Bool
is_recent now s = not (is_empty s.last_error) && ltb (now - s.last_used) 5

unfoldable pub acquire_dead :
    ConnPool → List ℕ → List ℕ → List ℕ → ℕ → Scan → ℕ → ConnPool × Acquire
unfolding modify is_recent
acquire_dead p conn_id so_path fp now r d =
    let s = get_or r.slots d zero_slot in
    if is_recent now s
    then (with_slots p r.slots, failed s.last_error)
    else (with_slots p (modify d (reserved conn_id so_path fp) r.slots), opens d)

unfoldable pub after_scan : ConnPool → List ℕ → List ℕ → List ℕ → ℕ → Scan → ConnPool × Acquire
unfolding acquire_dead acquire_new
after_scan p conn_id so_path fp now r = elim r.hit [
  | some i ↦ (with_slots p r.slots, granted i)
  | none ↦ elim r.dead_slot [
    | some d ↦ acquire_dead p conn_id so_path fp now r d
    | none ↦ acquire_new p conn_id so_path fp r
  ]
]

unfoldable pub acquire_round : ConnPool → List ℕ → List ℕ → List ℕ → ℕ → ConnPool × Acquire
unfolding scan_from after_scan
acquire_round p conn_id so_path fp now =
    after_scan p conn_id so_path fp now (scan_from conn_id fp now 0 p.slots)

-- One round of `conn_pool_acquire`: from its start, or from a wake of its wait, up to the release
-- of the mutex. An empty id is refused with the message `unset`.
unfoldable pub conn_pool_acquire :
    ConnPool → List ℕ → List ℕ → List ℕ → List ℕ → ℕ → ConnPool × Acquire
unfolding cfg_fingerprint acquire_round
conn_pool_acquire p conn_id so_path cfg unset now =
    if is_empty conn_id
    then (p, failed unset)
    else acquire_round p conn_id so_path (cfg_fingerprint cfg) now

unfoldable pub conn_lease_inst : ConnPool → ℕ → Option ℕ
conn_lease_inst p i = (get_or p.slots i zero_slot).inst

unfoldable pub released : Bool → ℕ → PoolSlot → PoolSlot
unfolding slot_free
released healthy now s =
    if is_empty s.fp
    then slot_free (record s { leased = false; last_used = now })
    else if healthy
    then record s { leased = false; last_used = now; last_ok = now; last_error = [] }
    else slot_free (record s { leased = false; last_used = now })

unfoldable pub conn_pool_release : ConnPool → ℕ → Bool → ℕ → ConnPool
unfolding released modify
conn_pool_release p i healthy now = with_slots p (modify i (released healthy now) p.slots)

unfoldable pub invalidated : List ℕ → PoolSlot → PoolSlot
unfolding slot_free
invalidated conn_id s =
    if not s.used || not (same s.conn_id conn_id)
    then s
    else if s.leased
    then record s { fp = [] }
    else slot_free s

unfoldable pub conn_pool_invalidate : ConnPool → List ℕ → ConnPool
unfolding invalidated
conn_pool_invalidate p conn_id =
    if is_empty conn_id then p else with_slots p (map (invalidated conn_id) p.slots)

-- The first critical section of `conn_pool_tick` for a slot: whether it is to be pinged.
unfoldable pub is_idle : ℕ → ℕ → PoolSlot → Bool
is_idle idle_ping_sec t s =
    s.used && not s.leased && has s.inst && leb idle_ping_sec (t - s.last_used)

unfoldable pub tick_start : ConnPool → ℕ → ℕ → Option ConnPool
unfolding is_idle modify
tick_start p t i =
    if is_idle p.idle_ping_sec t (get_or p.slots i zero_slot)
    then some (with_slots p (modify i (λ s. record s { leased = true }) p.slots))
    else none

-- And the second, with the result of `ping` and the reason for it.
unfoldable pub pinged : ℕ → List ℕ → ℕ → PoolSlot → PoolSlot
unfolding slot_close
pinged rc why now s =
    if rc == 0
    then record s { leased = false; last_ok = now; last_used = now; last_error = [] }
    else record (slot_close (record s { leased = false })) {
      last_error = message why;
      last_used = now;
    }

unfoldable pub tick_end : ConnPool → ℕ → ℕ → List ℕ → ℕ → ConnPool
unfolding pinged modify
tick_end p i rc why now = with_slots p (modify i (pinged rc why now) p.slots)

pub data State : Type 0 where
  idle ok error : State

-- `best_ok` and the rest of what `conn_pool_status` gathers.
pub record Gathered : Type 0 where
  pub count : ℕ
  pub best_ok : ℕ
  pub err : Option (List ℕ)
  pub seen : Bool
  pub connecting : Bool

-- The slots from the last to the first: the first error is the one that stays.
unfoldable pub gather : List ℕ → List PoolSlot → Gathered
gather conn_id [] = record { count = 0; best_ok = 0; err = none; seen = false; connecting = false }
gather conn_id (s ∷ ss) =
    let g = gather conn_id ss in
    if not s.used || not (same s.conn_id conn_id) then g else record {
      count = (if has s.inst then 1 else 0) + g.count;
      best_ok = if ltb g.best_ok s.last_ok then s.last_ok else g.best_ok;
      err =
          if not (has s.inst) && not s.opening && not (is_empty s.last_error)
          then some s.last_error
          else g.err;
      seen = true;
      connecting = s.opening || g.connecting;
    }

abbrev pub is_some : Option (List ℕ) → Bool
is_some none = false
is_some (some a) = true

unfoldable pub conn_pool_status : ConnPool → List ℕ → ℕ × State × ℕ × Option (List ℕ)
unfolding gather
conn_pool_status p conn_id =
    if is_empty conn_id
    then (0, idle, 0, none)
    else let g = gather conn_id p.slots in
      (
        g.count,
        (if ltb 0 g.count
            then ok
            else if g.connecting
            then idle
            else if g.seen && is_some g.err
            then error
            else idle),
        g.best_ok,
        g.err,
      )
