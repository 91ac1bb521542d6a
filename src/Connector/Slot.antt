-- ===== src/Connector/Slot.antt =====
-- A slot of the pool of sessions, lib/connector/conn_pool.c: its texts, the fingerprint of a
-- configuration, closing, opening and freeing.
use napastak.Base.{
  ℕ, zero, suc, ◌+◌, ◌*◌, ◌/◌, ◌%◌, ◌^◌, Bool, true, false, not, ◌&&◌, Option, none, some, List, [],
  ◌∷◌, ◌++◌, ltb, ◌==◌, if◌then◌else◌, take,
}
use Prim.Native.Nat.{bit_xor}

-- `inst` names the instance of the connector; `has_arena` tells a null `arena`, `cfg` is in it.
pub record PoolSlot : Type 0 where
  pub used : Bool
  pub leased : Bool
  pub opening : Bool
  pub conn_id : List ℕ
  pub so_path : List ℕ
  pub fp : List ℕ
  pub cfg : Option (List ℕ)
  pub inst : Option ℕ
  pub has_arena : Bool
  pub last_used : ℕ
  pub last_ok : ℕ
  pub last_error : List ℕ

abbrev pub is_empty : List ℕ → Bool
is_empty [] = true
is_empty (a ∷ s) = false

abbrev pub has : Option ℕ → Bool
has none = false
has (some i) = true

unfoldable pub fnv : ℕ → List ℕ → ℕ
fnv h [] = h
fnv h (p ∷ s) = fnv (bit_xor h p * 1099511628211 % 2 ^ 64) s

-- `%016llx`: the digits of `h`, lowest last, padded with zeros.
unfoldable pub hex_digits : ℕ → ℕ → List ℕ
hex_digits zero h = []
hex_digits (suc n) h =
    hex_digits n (h / 16) ++ (if ltb (h % 16) 10 then 48 + h % 16 else 87 + h % 16) ∷ []

unfoldable pub cfg_fingerprint : List ℕ → List ℕ
unfolding fnv hex_digits
cfg_fingerprint s = hex_digits 16 (fnv 1469598103934665603 s)

unfoldable pub slot_close : PoolSlot → PoolSlot
slot_close s = record s { inst = none; has_arena = false; cfg = none }

unfoldable pub slot_free : PoolSlot → PoolSlot
unfolding slot_close
slot_free s = record (slot_close s) {
  used = false;
  leased = false;
  conn_id = [];
  fp = [];
  last_error = [];
}

abbrev pub zero_slot : PoolSlot
zero_slot = record {
  used = false;
  leased = false;
  opening = false;
  conn_id = [];
  so_path = [];
  fp = [];
  cfg = none;
  inst = none;
  has_arena = false;
  last_used = 0;
  last_ok = 0;
  last_error = [];
}

-- What the plugin answers while a session is opened: no arena, `connector_load` null, or an
-- instance with the result of its `ping` (0 where it has none) and the reason it gives.
pub data Attempt : Type 0 where
  no_arena not_loaded : Attempt
  loaded : ℕ → ℕ → List ℕ → Attempt

-- A text kept in 256 bytes.
abbrev pub message : List ℕ → List ℕ
message s = take 255 s

-- The slot that is being opened is written as it was when it was reserved, whatever it holds now.
abbrev pub rewritten : List ℕ → List ℕ → List ℕ → List ℕ → ℕ → PoolSlot → PoolSlot
rewritten conn_id so_path cfg fp now s = record s {
  conn_id = take 63 conn_id;
  so_path = take 511 so_path;
  fp = take 63 fp;
  used = true;
  last_used = now;
  has_arena = true;
  cfg = some cfg;
}

abbrev pub opened_ok : ℕ → PoolSlot → PoolSlot
opened_ok i s = record s { inst = some i; last_ok = s.last_used; last_error = [] }

abbrev pub opened_fail : List ℕ → PoolSlot → PoolSlot
opened_fail err s = record s {
  inst = none;
  has_arena = false;
  cfg = none;
  last_error = message err;
}

unfoldable pub slot_open :
    List ℕ → List ℕ → List ℕ → List ℕ → Bool → List ℕ → ℕ → Attempt → PoolSlot → PoolSlot × Bool
slot_open conn_id so_path cfg fp verify unable now no_arena s =
    (record s { has_arena = false }, false)
slot_open conn_id so_path cfg fp verify unable now not_loaded s =
    (opened_fail unable (rewritten conn_id so_path cfg fp now s), false)
slot_open conn_id so_path cfg fp verify unable now (loaded i rc why) s =
    if verify && not (rc == 0)
    then (opened_fail why (rewritten conn_id so_path cfg fp now s), false)
    else (opened_ok i (rewritten conn_id so_path cfg fp now s), true)

-- The part of `slot_open_unlocked` before it releases the mutex.
abbrev pub reserved : List ℕ → List ℕ → List ℕ → PoolSlot → PoolSlot
reserved conn_id so_path fp s = record s {
  conn_id = take 63 conn_id;
  so_path = take 511 so_path;
  fp = take 63 fp;
  used = true;
  leased = true;
  opening = true;
}

-- And the part after it takes the mutex again.
unfoldable pub slot_opened : PoolSlot × Bool → PoolSlot
slot_opened (s, ok) = record s { opening = false; leased = s.leased && ok }

-- An assignment through a pointer to slot `i`.
unfoldable pub modify : ℕ → (PoolSlot → PoolSlot) → List PoolSlot → List PoolSlot
modify i f [] = []
modify zero f (s ∷ ss) = f s ∷ ss
modify (suc i) f (s ∷ ss) = s ∷ modify i f ss
