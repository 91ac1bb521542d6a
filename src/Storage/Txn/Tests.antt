-- ===== src/Storage/Txn/Tests.antt =====
-- The code of lib/storage/txn.c on small pools.
use napastak.Base.{
  ℕ, zero, suc, ◌+◌, ◌≤◌, ◌<◌, ◌^◌, ◌≡◌, refl, true, none, some, List, [], ◌∷◌, arith, ◌==◌,
  if◌then◌else◌, get_elem?, Option-cases, inl, inr, nat_eq,
}
use napastak.Storage.Batch.{int64, words, ColBatch, colbatch_copy, null_bm_bytes, column_type}
use napastak.Storage.Txn.{
  Txn, TxnManager, TxnEntry, delete, active, create, find_free_slot, at_slot, started, begin,
  rollback, find, buffer, commit, commit_finish, timeout_check,
}
use napastak.Storage.Txn.Lifecycle.{IsValid, Located, create-IsValid, begin-IsValid, find-begin}
use napastak.Storage.Txn.Release.{find-rollback, is_some}
use napastak.Storage.Txn.Buffer.{find-buffer, accepts, buffered, buffer-IsValid}
use napastak.Storage.Txn.Commit.{find-commit, commit_partial, Commits, done, next, marked}
use napastak.Storage.Txn.Race.{begin_during_commit}
use napastak.Storage.Txn.Timeout.{find-timeout_check, kept}
use napastak.Storage.Txn.Copy.{colbatch_copy_all}
use napastak.Storage.Txn.Steps.{created, stepped, begins, rolls_back, Reach-IsValid}

-- Transaction 1 was started at time 5.
abbrev one : TxnManager
one = (begin create 5).0

one-IsValid : IsValid one
one-IsValid = begin-IsValid create 5 create-IsValid (unfold create in omega arith)

find-one : find one 1 ≡ some (started 1 5)
unfolding find begin create
find-one = refl

find-begin_example :
    (find one (begin one 6).1 ≡ none)
    × (find (begin one 6).0 1
        ≡ (if 1 == (begin one 6).1 then some (started (begin one 6).1 6) else find one 1))
unfolding begin create
find-begin_example = find-begin one 6 1 one-IsValid (λ h. omega (arith, h))

-- Transactions started one after another, all at time 0.
unfoldable fill : ℕ → TxnManager
unfolding create begin
fill zero = create
fill (suc n) = (begin (fill n) 0).0

next_id-begin :
    (tm : TxnManager) → tm.next_id + 1 < 2 ^ 64 → (begin tm 0).0.next_id ≤ tm.next_id + 1
unfolding begin
next_id-begin tm h = elim (Option-cases (find_free_slot tm)) [
  | inl full ↦ rw (full, begin) (omega arith)
  | inr (i, found) ↦ rw (found, begin) (omega arith)
]

fill-IsValid : (n : ℕ) → n ≤ 64 → IsValid (fill n) × ((fill n).next_id ≤ n + 1)
unfolding fill create
fill-IsValid zero h = (create-IsValid, omega arith)
fill-IsValid (suc n) h =
    let (v, few) = fill-IsValid n (omega arith) in
    (
      begin-IsValid (fill n) 0 v (omega (arith, few)),
      omega (arith, few, next_id-begin (fill n) (omega (arith, few))),
    )

find-rollback_example :
    ((rollback one 1).1 ≡ is_some (find one 1))
    × (find (rollback one 1).0 1 ≡ (if 1 == 1 then none else find one 1))
find-rollback_example = find-rollback one 1 1 one-IsValid

abbrev users : List ℕ
users = 117 ∷ 115 ∷ []

find-buffer_example :
    ((buffer one 1 users (delete 40)).1 ≡ accepts (find one 1))
    × (find (buffer one 1 users (delete 40)).0 1
        ≡ (if 1 == 1 then buffered users (delete 40) (find one 1) else find one 1))
find-buffer_example = find-buffer one 1 1 users (delete 40)

find-timeout_check_example : find (timeout_check one 100 30) 1 ≡ kept 100 30 (find one 1)
find-timeout_check_example = find-timeout_check one 100 30 1 one-IsValid

-- The state counts the calls; the second call fails with code 3.
abbrev counting : TxnEntry → ℕ → ℕ × ℕ
counting e zero = (1, 0)
counting e (suc n) = (suc n + 10, 3)

find-commit_example :
    let (tm', s', rc) = commit counting one 1 0 in
    Commits counting (find one 1) 0 (s', rc) × (find tm' 1 ≡ (if 1 == 1 then none else find one 1))
find-commit_example = find-commit counting one 1 1 0 one-IsValid

-- Three rows to delete.
abbrev del : ℕ → TxnEntry
del n = record { table = users; op = delete n }

abbrev three_txn : Txn
three_txn = record {
  id = 1;
  status = active;
  begin_ts = 5;
  entries = del 1 ∷ del 2 ∷ del 3 ∷ [];
  has_arena = true;
}

abbrev three_calls : TxnManager
three_calls =
    (buffer (buffer (buffer one 1 users (delete 1)).0 1 users (delete 2)).0 1 users (delete 3)).0

three_calls-IsValid : IsValid three_calls
three_calls-IsValid =
    buffer-IsValid _ 1 users (delete 3)
      (buffer-IsValid _ 1 users (delete 2) (buffer-IsValid one 1 users (delete 1) one-IsValid))

find-three : find three_calls 1 ≡ some three_txn
unfolding find begin create buffer
find-three = refl

commit_partial_example :
    let (tm', s', rc) = commit counting three_calls 1 0 in
    (s' ≡ 11) × (rc ≡ some 3) × (find tm' 1 ≡ none)
commit_partial_example =
    commit_partial counting three_calls 1 2 0 1 11 three_txn (del 1 ∷ []) (del 3 ∷ []) (del 2)
      three_calls-IsValid find-three refl (next refl (done 1)) refl

one_located : Located one 1
unfolding begin create find
one_located = record {
  slot = 0;
  txn = started 1 5;
  proper = λ h. omega (arith, h);
  found = refl;
  got = refl;
  here = refl;
  seen = refl;
}

begin_during_commit_example :
    let (tm', new) = begin (at_slot one one_located.slot marked) 9 in
    (get_elem? tm'.txns one_located.slot ≡ some (started new 9))
    × (find tm' new ≡ some (started new 9))
    × (find (commit_finish tm' one_located.slot) new ≡ none)
unfolding begin create find_free_slot one_located
begin_during_commit_example = begin_during_commit one 1 9 one_located one-IsValid refl

abbrev batch : ColBatch
batch = record {
  nrows = 2;
  schema = some (record { name = some "n"; type = int64; nullable = true } ∷ []);
  columns = record { null_bitmap = some (1 ∷ []); values = some (words (0 ∷ 8 ∷ [])) } ∷ [];
}

colbatch_copy_all_example : colbatch_copy batch ≡ batch
unfolding null_bm_bytes column_type
colbatch_copy_all_example = colbatch_copy_all batch (refl, (tt, refl), tt)

Reach-IsValid_example : IsValid (rollback one 1).0
Reach-IsValid_example =
    Reach-IsValid
      (stepped (stepped created (begins 5 (unfold create in omega arith))) (rolls_back 1))
