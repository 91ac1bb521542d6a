-- ===== src/Storage/Txn.antt =====
-- The transaction manager, lib/storage/txn.c. Each function holds `tm->mu` from its first to its
-- last access, but for `txn_commit`, which is two critical sections with the callbacks between.
pub mod Slots
pub mod Lifecycle
pub mod Release
pub mod Buffer
pub mod Commit
pub mod Race
pub mod Timeout
pub mod Copy
pub mod Steps
mod Tests
use napastak.Base.{
  ℕ, zero, suc, ◌+◌, ◌-◌, ◌%◌, ◌^◌, Bool, true, false, not, ◌&&◌, ◌||◌, Option, none, some, List,
  [], ◌∷◌, ◌++◌, ltb, leb, ◌==◌, if◌then◌else◌, length, take, replicate, get_elem?,
}
use napastak.Storage.Batch.{ColBatch, colbatch_copy}

abbrev pub txn_max_active : ℕ
txn_max_active = 64

abbrev pub txn_max_entries : ℕ
txn_max_entries = 4096

abbrev pub txn_id_none : ℕ
txn_id_none = 0

pub data TxnStatus : Type 0 where
  active committed aborted : TxnStatus

-- The fields of a `TxnEntry` that its `op` uses.
pub data Operation : Type 0 where
  insert : ColBatch → Operation
  delete : ℕ → Operation
  update : ℕ → Option (List ℕ) → Operation

pub record TxnEntry : Type 0 where
  pub table : List ℕ
  pub op : Operation

-- `nentries` is the length of `entries`; `has_arena` tells a null `arena`.
pub record Txn : Type 0 where
  pub id : ℕ
  pub status : TxnStatus
  pub begin_ts : ℕ
  pub entries : List TxnEntry
  pub has_arena : Bool

pub record TxnManager : Type 0 where
  pub txns : List Txn
  pub next_id : ℕ

-- A slot after `calloc` or `memset`; `TXN_ACTIVE` is 0.
abbrev pub empty_slot : Txn
empty_slot = record {
  id = txn_id_none;
  status = active;
  begin_ts = 0;
  entries = [];
  has_arena = false;
}

unfoldable pub create : TxnManager
create = record { txns = replicate txn_max_active empty_slot; next_id = 1 }

abbrev pub is_active : TxnStatus → Bool
is_active active = true
is_active _ = false

abbrev pub holds : ℕ → Txn → Bool
holds id t = t.id == id && is_active t.status

abbrev pub is_free : Txn → Bool
is_free t = t.id == txn_id_none || not (is_active t.status)

-- The index of the first slot that passes a test, counted from `i`.
unfoldable pub index_from : (Txn → Bool) → ℕ → List Txn → Option ℕ
index_from p i [] = none
index_from p i (t ∷ ts) = let rest = index_from p (i + 1) ts in if p t then some i else rest

unfoldable pub find_slot : TxnManager → ℕ → Option ℕ
unfolding index_from
find_slot tm id = index_from (holds id) 0 tm.txns

unfoldable pub find_free_slot : TxnManager → Option ℕ
unfolding index_from
find_free_slot tm = index_from is_free 0 tm.txns

-- An assignment through a pointer to slot `i`.
unfoldable pub modify : ℕ → (Txn → Txn) → List Txn → List Txn
modify i f [] = []
modify zero f (t ∷ ts) = f t ∷ ts
modify (suc i) f (t ∷ ts) = t ∷ modify i f ts

abbrev pub at_slot : TxnManager → ℕ → (Txn → Txn) → TxnManager
at_slot tm i f = record tm { txns = modify i f tm.txns }

abbrev pub started : ℕ → ℕ → Txn
started id now = record { id = id; status = active; begin_ts = now; entries = []; has_arena = true }

-- The id is the result, `txn_id_none` with no slot free; `now` is the clock's answer.
unfoldable pub begin : TxnManager → ℕ → TxnManager × ℕ
unfolding find_free_slot modify
begin tm now = elim (find_free_slot tm) [
  | none ↦ (tm, txn_id_none)
  | some i ↦ (
    record {
      txns = modify i (λ t. started tm.next_id now) tm.txns;
      next_id = (tm.next_id + 1) % 2 ^ 64;
    },
    tm.next_id,
  )
]

-- A slot that is given back with the status `s`.
abbrev pub freed : TxnStatus → Txn → Txn
freed s t = record t { status = s; has_arena = false; entries = []; id = txn_id_none }

-- `true` for the result 0, `false` for -1.
unfoldable pub rollback : TxnManager → ℕ → TxnManager × Bool
unfolding find_slot modify
rollback tm id = if id == txn_id_none then (tm, false) else elim (find_slot tm id) [
  | none ↦ (tm, false)
  | some i ↦ (at_slot tm i (freed aborted), true)
]

unfoldable pub find : TxnManager → ℕ → Option Txn
unfolding find_slot
find tm id =
    if id == txn_id_none
    then none
    else elim (find_slot tm id) [ none ↦ none | some i ↦ get_elem? tm.txns i ]

-- `strncpy` into `char table[128]`, whose last byte stays 0.
abbrev pub table_name : List ℕ → List ℕ
table_name name = take 127 name

abbrev pub appended : TxnEntry → Txn → Txn
appended e t = record t { entries = t.entries ++ e ∷ [] }

-- The three `txn_buffer_` functions differ in the entry only.
unfoldable pub buffer : TxnManager → ℕ → List ℕ → Operation → TxnManager × Bool
unfolding find_slot modify
buffer tm id table op = if id == txn_id_none then (tm, false) else elim (find_slot tm id) [
  | none ↦ (tm, false)
  | some i ↦ elim (get_elem? tm.txns i) [
    | none ↦ (tm, false)
    | some t ↦
        if leb txn_max_entries (length t.entries)
        then (tm, false)
        else (at_slot tm i (appended (record { table = table_name table; op = op })), true)
  ]
]

unfoldable pub buffer_insert : TxnManager → ℕ → List ℕ → ColBatch → TxnManager × Bool
unfolding buffer colbatch_copy
buffer_insert tm id table batch = buffer tm id table (insert (colbatch_copy batch))

unfoldable pub buffer_delete : TxnManager → ℕ → List ℕ → ℕ → TxnManager × Bool
unfolding buffer
buffer_delete tm id table orig_offset = buffer tm id table (delete orig_offset)

-- A new row that is null or empty is not stored.
abbrev pub stored_csv : Option (List ℕ) → Option (List ℕ)
stored_csv none = none
stored_csv (some []) = none
stored_csv (some csv) = some csv

unfoldable pub buffer_update : TxnManager → ℕ → List ℕ → ℕ → Option (List ℕ) → TxnManager × Bool
unfolding buffer
buffer_update tm id table orig_offset csv = buffer tm id table (update orig_offset (stored_csv csv))

-- The first critical section of `txn_commit`: the slot is marked, and its index and entries are
-- kept for the second part.
unfoldable pub commit_start : TxnManager → ℕ → Option (ℕ × List TxnEntry × TxnManager)
unfolding find_slot modify
commit_start tm id = if id == txn_id_none then none else elim (find_slot tm id) [
  | none ↦ none
  | some i ↦ elim (get_elem? tm.txns i) [
    | none ↦ none
    | some t ↦ some (i, t.entries, at_slot tm i (λ u. record u { status = committed }))
  ]
]

module _ {S : Type 0} (fn : TxnEntry → S → S × ℕ) where
  -- The callbacks, up to the first that does not return 0.
  unfoldable pub apply_entries : List TxnEntry → S → S × ℕ
  apply_entries [] s = (s, 0)
  apply_entries (e ∷ es) s =
      let (s', rc) = fn e s in let rest = apply_entries es s' in if rc == 0 then rest else (s', rc)

-- The second critical section. The status stays as it is.
unfoldable pub commit_finish : TxnManager → ℕ → TxnManager
unfolding modify
commit_finish tm i =
    at_slot tm i (λ t. record t { has_arena = false; entries = []; id = txn_id_none })

-- What follows the first critical section; `none` is the -1 of its guards.
unfoldable pub commit_rest :
    {S : Type 0}
    → (TxnEntry → S → S × ℕ)
    → TxnManager
    → S
    → Option (ℕ × List TxnEntry × TxnManager)
    → TxnManager × S × Option ℕ
unfolding apply_entries commit_finish
commit_rest fn tm s none = (tm, s, none)
commit_rest fn tm s (some (i, es, tm')) =
    let (s', rc) = apply_entries fn es s in (commit_finish tm' i, s', some rc)

-- `txn_commit` with no other call between its two critical sections.
unfoldable pub commit :
    {S : Type 0} → (TxnEntry → S → S × ℕ) → TxnManager → ℕ → S → TxnManager × S × Option ℕ
unfolding commit_start commit_rest
commit fn tm id s = commit_rest fn tm s (commit_start tm id)

-- The test of `txn_manager_timeout_check` on one slot.
abbrev pub is_expired : ℕ → ℕ → Txn → Bool
is_expired now timeout t =
    is_active t.status && not (t.id == txn_id_none) && ltb (t.begin_ts + timeout) now

unfoldable pub expire_slots : ℕ → ℕ → List Txn → List Txn
expire_slots now timeout [] = []
expire_slots now timeout (t ∷ ts) =
    (if is_expired now timeout t then freed aborted t else t) ∷ expire_slots now timeout ts

unfoldable pub timeout_check : TxnManager → ℕ → ℕ → TxnManager
unfolding expire_slots
timeout_check tm now timeout =
    if timeout == 0 then tm else record tm { txns = expire_slots now timeout tm.txns }
