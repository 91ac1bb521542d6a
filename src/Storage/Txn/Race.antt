-- ===== src/Storage/Txn/Race.antt =====
-- Another thread between the critical sections of `txn_commit` of lib/storage/txn.c.
use napastak.Base.{
  ℕ, ◌+◌, ◌≤◌, ◌%◌, ◌^◌, Bool-cases, inl, inr, ◌≡◌, true, false, none, some, arith, get_elem?, ◌==◌,
  ◌∙◌,
}
use napastak.Storage.Txn.{
  Txn, TxnManager, txn_id_none, started, holds, modify, at_slot, find, find_free_slot, begin,
  commit_finish,
}
use napastak.Storage.Txn.Slots.{
  first-some, get_elem?-modify, AtMostOne-modify_keep, AtMostOne-modify_new, first-modify_gone,
  first-modify_other, length-modify,
}
use napastak.Storage.Txn.Lifecycle.{IsValid, Located, find-eq-first, begin-some, find-begin_found}
use napastak.Storage.Txn.Commit.{marked, emptied}

-- The pool after the first critical section is a valid one.
marked-IsValid :
    (tm : TxnManager) (id : ℕ) (l : Located tm id) → IsValid tm → IsValid (at_slot tm l.slot marked)
marked-IsValid tm id l v = record {
  size = length-modify l.slot marked tm.txns ∙ v.size;
  counter = v.counter;
  fresh = λ j h.
      first-modify_other (holds j) marked l.slot tm.txns l.txn l.got (below j h) (ground arith)
      ∙ v.fresh j h;
  unique = λ j n.
      AtMostOne-modify_keep (holds j) marked l.slot tm.txns l.txn (v.unique j n) l.got
        (λ bad. ground arith);
}
  where
    below : (j : ℕ) → tm.next_id ≤ j → holds j l.txn ≡ false
    below j h = elim (Bool-cases (holds j l.txn)) [
      | inl y ↦ absurd (first-some (holds j) l.slot tm.txns l.txn l.got y (v.fresh j h))
      | inr n ↦ n
    ]

module _ (tm : TxnManager) (slot now : ℕ) (t : Txn) (v : IsValid tm)
    (got : get_elem? tm.txns slot ≡ some t) where
  -- The pool after a `txn_begin` that was given `slot`.
  abbrev after : TxnManager
  after = record {
    txns = modify slot (λ u. started tm.next_id now) tm.txns;
    next_id = (tm.next_id + 1) % 2 ^ 64;
  }

  here_after : get_elem? after.txns slot ≡ some (started tm.next_id now)
  here_after = get_elem?-modify slot (λ u. started tm.next_id now) tm.txns t got

  lost_after : find (commit_finish after slot) tm.next_id ≡ none
  unfolding commit_finish
  lost_after =
      let new : ℕ = tm.next_id in
      let proper : (new == txn_id_none) ≡ false = ground (arith, v.counter) in
      find-eq-first (commit_finish after slot) new
      ∙ rw proper (
          first-modify_gone (holds new) emptied slot after.txns (started new now)
            (AtMostOne-modify_new (holds new) (λ u. started new now) slot tm.txns
              (v.unique new (ground (arith, v.counter))) (v.fresh new (omega arith)))
            here_after (ground arith) (ground arith))

-- If in a valid pool the slot of a transaction whose commit is under way is the first that `find_free_slot` takes
-- for free, then a `txn_begin` at this moment is given that very slot, which then
-- has no entries for the commit to go on with, and when the commit ends, the new transaction is lost.
pub begin_during_commit :
    (tm : TxnManager) (id now : ℕ) (l : Located tm id)
    → IsValid tm
    → find_free_slot (at_slot tm l.slot marked) ≡ some l.slot
    → let (tm', new) = begin (at_slot tm l.slot marked) now in
      (get_elem? tm'.txns l.slot ≡ some (started new now))
      × (find tm' new ≡ some (started new now))
      × (find (commit_finish tm' l.slot) new ≡ none)
begin_during_commit tm id now l v free =
    let tm1 : TxnManager = at_slot tm l.slot marked in
    let v1 : IsValid tm1 = marked-IsValid tm id l v in
    let got1 = get_elem?-modify l.slot marked tm.txns l.txn l.got in
    let seen = find-begin_found tm1 now v1 l.slot free tm.next_id in
    let same : (tm.next_id == tm.next_id) ≡ true = ground arith in
    let seen' : find (begin tm1 now).0 tm.next_id ≡ some (started tm.next_id now) =
      rw same at seen in
    rw (begin-some tm1 now l.slot free) (
      here_after tm1 l.slot now (marked l.txn) v1 got1,
      rw (begin-some tm1 now l.slot free) at seen',
      lost_after tm1 l.slot now (marked l.txn) v1 got1,
    )
