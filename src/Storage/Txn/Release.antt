-- ===== src/Storage/Txn/Release.antt =====
-- How lib/storage/txn.c gives slots back: `txn_rollback` and `txn_manager_timeout_check`.
use napastak.Base.{
  ℕ, ◌≡◌, ◌≢◌, refl, Bool, true, false, Option, none, some, arith, if◌then◌else◌, Bool-cases, inl,
  inr, ◌==◌, ◌∙◌,
}
use napastak.Storage.Txn.{
  Txn, TxnManager, aborted, txn_id_none, holds, find_slot, modify, at_slot, freed, rollback, find,
}
use napastak.Storage.Txn.Slots.{
  first, length-modify, first-modify_other, first-modify_gone, AtMostOne-modify_keep,
}
use napastak.Storage.Txn.Lifecycle.{
  IsValid, find-eq-first, find_slot-some, Located, Refused, improper, missing, find-Refused,
  find-cases,
}

-- A write that takes the id away from a slot.
module _ (f : Txn → Txn) (clears : (t : Txn) → (f t).id ≡ txn_id_none) where
  first-clear :
      (tm : TxnManager) (id i : ℕ)
      → IsValid tm
      → id ≢ txn_id_none
      → find_slot tm id ≡ some i
      → (j : ℕ) → j ≢ txn_id_none
      → first (holds j) (modify i f tm.txns) ≡ (if j == id then none else first (holds j) tm.txns)
  first-clear tm id i v n found j m =
      let (t, got, here, eq) = find_slot-some tm id i found in
      elim (Bool-cases (j == id)) [
        | inl y ↦ rw y (
            first-modify_gone (holds j) f i tm.txns t (v.unique j m) got (ground arith)
              (ground (arith, clears t)))
        | inr y ↦ rw y (
            first-modify_other (holds j) f i tm.txns t got (ground arith)
              (ground (arith, clears t)))
      ]

  -- The id is gone, every other id finds what it found.
  pub find-clear :
      (tm : TxnManager) (id i : ℕ)
      → IsValid tm
      → id ≢ txn_id_none
      → find_slot tm id ≡ some i
      → (j : ℕ) → find (at_slot tm i f) j ≡ (if j == id then none else find tm j)
  find-clear tm id i v n found j = elim (Bool-cases (j == txn_id_none)) [
    | inl y ↦ rw (find-eq-first, find-eq-first tm j, y) (ground arith)
    | inr y ↦
        rw (find-eq-first, find-eq-first tm j, y) (first-clear tm id i v n found j (ground arith))
  ]

  pub clear-IsValid :
      (tm : TxnManager) (id i : ℕ)
      → IsValid tm
      → id ≢ txn_id_none
      → find_slot tm id ≡ some i
      → IsValid (at_slot tm i f)
  clear-IsValid tm id i v n found = record {
    size = length-modify i f tm.txns ∙ v.size;
    counter = v.counter;
    fresh = λ j h.
        first-clear tm id i v n found j (omega (arith, v.counter)) ∙ ground (arith, v.fresh j);
    unique = λ j m.
        let (t, got, here, eq) = find_slot-some tm id i found in
        AtMostOne-modify_keep (holds j) f i tm.txns t (v.unique j m) got
          (λ bad. ground (arith, clears t));
  }

rollback-located :
    (tm : TxnManager) (id : ℕ) (l : Located tm id)
    → rollback tm id ≡ (at_slot tm l.slot (freed aborted), true)
unfolding rollback
rollback-located tm id l =
    let off : (id == txn_id_none) ≡ false = ground (arith, l.proper) in
    rw (off, l.found, rollback) refl

rollback-Refused : (tm : TxnManager) (id : ℕ) → Refused tm id → rollback tm id ≡ (tm, false)
unfolding rollback
rollback-Refused tm id (improper h) = rw h refl
rollback-Refused tm id (missing n h) = rw (n, h, rollback) refl

abbrev pub is_some : {A : Type 0} → Option A → Bool
is_some none = false
is_some (some a) = true

-- In a valid pool a rollback succeeds exactly when the id finds a transaction; afterwards the id
-- finds none, and every other id finds what it found.
pub find-rollback :
    (tm : TxnManager) (id j : ℕ)
    → IsValid tm
    → ((rollback tm id).1 ≡ is_some (find tm id))
      × (find (rollback tm id).0 j ≡ (if j == id then none else find tm j))
find-rollback tm id j v = elim (find-cases tm id) [
  | inl l ↦ (
    rw (rollback-located tm id l, l.seen) refl,
    rw (rollback-located tm id l)
        (find-clear (freed aborted) (λ t. refl) tm id l.slot v l.proper l.found j),
  )
  | inr r ↦ (
    rw (rollback-Refused tm id r, find-Refused tm id r) refl,
    rw (rollback-Refused tm id r) (gone r),
  )
]
  where
    gone : Refused tm id → find tm j ≡ (if j == id then none else find tm j)
    gone r = elim (Bool-cases (j == id)) [
      | inl y ↦ let same : j ≡ id = ground arith in rw (y, same) (find-Refused tm id r)
      | inr n ↦ rw n refl
    ]

pub rollback-IsValid : (tm : TxnManager) (id : ℕ) → IsValid tm → IsValid (rollback tm id).0
rollback-IsValid tm id v = elim (find-cases tm id) [
  | inl l ↦
      rw (rollback-located tm id l)
        (clear-IsValid (freed aborted) (λ t. refl) tm id l.slot v l.proper l.found)
  | inr r ↦ rw (rollback-Refused tm id r) v
]
