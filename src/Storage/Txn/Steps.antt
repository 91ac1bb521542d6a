-- ===== src/Storage/Txn/Steps.antt =====
-- Any sequence of calls of lib/storage/txn.c, each run to its end before the next begins.
use napastak.Base.{ℕ, ◌+◌, ◌<◌, ◌^◌, List}
use napastak.Storage.Txn.{
  TxnManager, TxnEntry, Operation, create, begin, rollback, buffer, commit, timeout_check,
}
use napastak.Storage.Txn.Lifecycle.{IsValid, create-IsValid, begin-IsValid}
use napastak.Storage.Txn.Release.{rollback-IsValid}
use napastak.Storage.Txn.Buffer.{buffer-IsValid}
use napastak.Storage.Txn.Commit.{commit-IsValid}
use napastak.Storage.Txn.Timeout.{timeout_check-IsValid}

-- One call, whatever its arguments; the 64-bit counter does not wrap.
pub data Step (tm : TxnManager) : TxnManager → Type 1 where
  begins : (now : ℕ) → tm.next_id + 1 < 2 ^ 64 → Step tm (begin tm now).0
  rolls_back : (id : ℕ) → Step tm (rollback tm id).0
  buffers : (id : ℕ) (table : List ℕ) (op : Operation) → Step tm (buffer tm id table op).0
  commits :
      {S : Type 0} (fn : TxnEntry → S → S × ℕ) (id : ℕ) (s : S) → Step tm (commit fn tm id s).0
  expires : (now timeout : ℕ) → Step tm (timeout_check tm now timeout)

pub data Reach : TxnManager → Type 1 where
  created : Reach create
  stepped : {tm tm' : TxnManager} → Reach tm → Step tm tm' → Reach tm'

Step-IsValid : {tm tm' : TxnManager} → Step tm tm' → IsValid tm → IsValid tm'
Step-IsValid {tm} (begins now room) v = begin-IsValid tm now v room
Step-IsValid {tm} (rolls_back id) v = rollback-IsValid tm id v
Step-IsValid {tm} (buffers id table op) v = buffer-IsValid tm id table op v
Step-IsValid {tm} (commits fn id s) v = commit-IsValid fn tm id s v
Step-IsValid {tm} (expires now timeout) v = timeout_check-IsValid tm now timeout v

-- Every pool that calls can lead to, from a new one, each run to its end before the next and as long
-- as the 64-bit counter does not wrap, has 64 slots, holds no id twice, and has given out no id that
-- is not below its counter.
pub Reach-IsValid : {tm : TxnManager} → Reach tm → IsValid tm
Reach-IsValid created = create-IsValid
Reach-IsValid (stepped r s) = Step-IsValid s (Reach-IsValid r)
