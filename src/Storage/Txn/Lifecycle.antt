-- ===== src/Storage/Txn/Lifecycle.antt =====
-- What `txn_begin`, `txn_find`, `txn_rollback` and the `txn_buffer_` functions of lib/storage/txn.c
-- do to the transactions that a client can find, and the invariant of the pool.
use napastak.Base.{
  ℕ, zero, suc, ◌+◌, ◌%◌, ◌^◌, ◌≤◌, ◌<◌, ◌≡◌, ◌≢◌, ◌⊎◌, refl, Bool, true, false, none, some, List,
  [], ◌∷◌, arith, if◌then◌else◌, length, get_elem?, Bool-cases, Option-cases, inl, inr, All, ap,
  ◌==◌, ◌∙◌, replicate,
}
use napastak.Storage.Txn.{
  Txn, TxnManager, txn_id_none, txn_max_active, empty_slot, create, holds, is_free, index_from,
  find_slot, find_free_slot, modify, started, begin, find,
}
use napastak.Storage.Txn.Slots.{
  first, AtMostOne, length-modify, index_from-none, index_from-some, first-modify_other,
  first-modify_new, AtMostOne-modify_keep, AtMostOne-modify_new,
}

-- The pool has its size, no id is given out twice, and no id is ahead of the counter.
pub record IsValid (tm : TxnManager) : Type 0 where
  pub size : length tm.txns ≡ txn_max_active
  pub counter : 0 < tm.next_id
  pub fresh : (id : ℕ) → tm.next_id ≤ id → first (holds id) tm.txns ≡ none
  pub unique : (id : ℕ) → id ≢ txn_id_none → AtMostOne (holds id) tm.txns

-- Finding a transaction is finding the first slot that holds it.
pub find-eq-first :
    (tm : TxnManager) (id : ℕ)
    → find tm id ≡ (if id == txn_id_none then none else first (holds id) tm.txns)
unfolding find
find-eq-first tm id = elim (Option-cases (index_from (holds id) 0 tm.txns)) [
  | inl missing ↦ rw (missing, index_from-none (holds id) 0 tm.txns missing) refl
  | inr (i, found) ↦
      let (j, e, l, t, got, y, eq) = index_from-some (holds id) 0 i tm.txns found in
      let same : i ≡ j = omega (arith, e) in rw (found, eq, same, got) refl
]

-- The slot that `find_slot` gives holds the transaction that `find` gives.
pub find_slot-some :
    (tm : TxnManager) (id i : ℕ)
    → find_slot tm id ≡ some i
    → (t : Txn) × (get_elem? tm.txns i ≡ some t)
      × (holds id t ≡ true)
      × (first (holds id) tm.txns ≡ some t)
unfolding find_slot
find_slot-some tm id i h =
    let (j, e, l, t, got, y, eq) = index_from-some (holds id) 0 i tm.txns h in
    let same : i ≡ j = omega (arith, e) in (t, rw same got, y, eq)

pub begin-some :
    (tm : TxnManager) (now i : ℕ)
    → find_free_slot tm ≡ some i
    → begin tm now ≡ (
      record {
        txns = modify i (λ t. started tm.next_id now) tm.txns;
        next_id = (tm.next_id + 1) % 2 ^ 64;
      },
      tm.next_id,
    )
unfolding begin
begin-some tm now i h = rw (h, begin) refl

begin-none :
    (tm : TxnManager) (now : ℕ) → find_free_slot tm ≡ none → begin tm now ≡ (tm, txn_id_none)
unfolding begin
begin-none tm now h = rw (h, begin) refl

-- The slot that `find_free_slot` gives is free.
find_free_slot-some :
    (tm : TxnManager) (i : ℕ)
    → find_free_slot tm ≡ some i
    → (t : Txn) × (get_elem? tm.txns i ≡ some t) × (is_free t ≡ true)
unfolding find_free_slot
find_free_slot-some tm i h =
    let (j, e, l, t, got, y, eq) = index_from-some is_free 0 i tm.txns h in
    let same : i ≡ j = omega (arith, e) in (t, rw same got, y)

not-holds_free : (id : ℕ) (t : Txn) → is_free t ≡ true → id ≢ txn_id_none → holds id t ≡ false
not-holds_free id t h n = ground arith

holds-started : (id j now : ℕ) → holds j (started id now) ≡ (id == j)
holds-started id j now = ground arith

module _ (tm : TxnManager) (now : ℕ) (v : IsValid tm) where
  first-begin :
      (i : ℕ)
      → find_free_slot tm ≡ some i
      → (j : ℕ) → j ≢ txn_id_none
      → first (holds j) (modify i (λ t. started tm.next_id now) tm.txns)
        ≡ (if j == tm.next_id then some (started tm.next_id now) else first (holds j) tm.txns)
  first-begin i h j n =
      let (t, got, free) = find_free_slot-some tm i h in
      let f : Txn → Txn = λ u. started tm.next_id now in
      elim (Bool-cases (j == tm.next_id)) [
        | inl y ↦
            rw y (
              first-modify_new (holds j) f i tm.txns t (v.fresh j (ground arith)) got
                (ground arith))
        | inr y ↦ rw y (
            first-modify_other (holds j) f i tm.txns t got (not-holds_free j t free n)
              (ground arith))
      ]

  pub find-begin_found :
      (i : ℕ)
      → find_free_slot tm ≡ some i
      → (j : ℕ)
      → find (begin tm now).0 j
        ≡ (if j == tm.next_id then some (started tm.next_id now) else find tm j)
  find-begin_found i h j = elim (Bool-cases (j == txn_id_none)) [
    | inl y ↦
        rw (begin-some tm now i h, find-eq-first, find-eq-first tm j, y) (ground (arith, v.counter))
    | inr y ↦
        rw (begin-some tm now i h, find-eq-first, find-eq-first tm j, y)
          (first-begin i h j (ground arith))
  ]

-- Where a valid pool gives out an id, it was not in use; it then names a started transaction with no entries,
-- and every other id finds what it found before.
pub find-begin :
    (tm : TxnManager) (now j : ℕ)
    → IsValid tm
    → (begin tm now).1 ≢ txn_id_none
    → (find tm (begin tm now).1 ≡ none)
      × (find (begin tm now).0 j
          ≡ (if j == (begin tm now).1 then some (started (begin tm now).1 now) else find tm j))
find-begin tm now j v n = elim (Option-cases (find_free_slot tm)) [
  | inl full ↦ absurd (n (ap (λ (p : TxnManager × ℕ). p.1) (begin-none tm now full)))
  | inr (i, found) ↦
      let id_eq : (begin tm now).1 ≡ tm.next_id =
        ap (λ (p : TxnManager × ℕ). p.1) (begin-some tm now i found) in
      (
        rw (id_eq, find-eq-first, v.fresh tm.next_id (omega arith)) (ground arith),
        rw id_eq (find-begin_found tm now v i found j),
      )
]

not-free : (p : Txn → Bool) (ts : List Txn) → first p ts ≡ none → All (λ t. p t ≡ false) ts
not-free p [] h = tt
not-free p (t ∷ ts) h = (ground arith, not-free p ts (ground arith))

-- A valid pool refuses an id only if no slot is free, and then nothing changes.
pub begin_refused :
    (tm : TxnManager) (now : ℕ)
    → IsValid tm
    → (begin tm now).1 ≡ txn_id_none
    → ((begin tm now).0 ≡ tm) × All (λ t. is_free t ≡ false) tm.txns
begin_refused tm now v h = elim (Option-cases (find_free_slot tm)) [
  | inl full ↦ (
    ap (λ (p : TxnManager × ℕ). p.0) (begin-none tm now full),
    not-free is_free tm.txns (index_from-none is_free 0 tm.txns (unfold find_free_slot in full)),
  )
  | inr (i, found) ↦
      let id_eq : (begin tm now).1 ≡ tm.next_id =
        ap (λ (p : TxnManager × ℕ). p.1) (begin-some tm now i found) in
      absurd (omega (arith, id_eq, v.counter))
]

-- `txn_begin` keeps the invariant as long as the 64-bit counter does not wrap.
pub begin-IsValid :
    (tm : TxnManager) (now : ℕ) → IsValid tm → tm.next_id + 1 < 2 ^ 64 → IsValid (begin tm now).0
begin-IsValid tm now v room = elim (Option-cases (find_free_slot tm)) [
  | inl full ↦ rw (begin-none tm now full) v
  | inr (i, found) ↦ rw (begin-some tm now i found) (record {
    size = length-modify i (λ t. started tm.next_id now) tm.txns ∙ v.size;
    counter = omega arith;
    fresh = λ id h. first-begin tm now v i found id (omega (arith, v.counter)) ∙ above id h;
    unique = λ id n. alone i found id n;
  })
]
  where
    above :
        (id : ℕ)
        → (tm.next_id + 1) % 2 ^ 64 ≤ id
        → (if id == tm.next_id then some (started tm.next_id now) else first (holds id) tm.txns)
          ≡ none
    above id h = ground (arith, v.fresh id)

    alone :
        (i : ℕ)
        → find_free_slot tm ≡ some i
        → (id : ℕ) → id ≢ txn_id_none
        → AtMostOne (holds id) (modify i (λ t. started tm.next_id now) tm.txns)
    alone i found id n =
        let (t, got, free) = find_free_slot-some tm i found in
        elim (Bool-cases (id == tm.next_id)) [
          | inl y ↦
              AtMostOne-modify_new (holds id) _ i tm.txns (v.unique id n)
                (v.fresh id (ground arith))
          | inr y ↦
              AtMostOne-modify_keep (holds id) _ i tm.txns t (v.unique id n) got
                (λ bad. ground arith)
        ]

first-empty : (id n : ℕ) → id ≢ txn_id_none → first (holds id) (replicate n empty_slot) ≡ none
first-empty id zero h = refl
first-empty id (suc n) h = ground (arith, first-empty id n h)

pub create-IsValid : IsValid create
unfolding create
create-IsValid = record {
  size = refl;
  counter = omega arith;
  fresh = λ id h. first-empty id txn_max_active (omega arith);
  unique = λ id n. alone id n txn_max_active;
}
  where
    alone : (id : ℕ) → id ≢ txn_id_none → (k : ℕ) → AtMostOne (holds id) (replicate k empty_slot)
    alone id n zero = tt
    alone id n (suc k) = (λ y. first-empty id k n, alone id n k)

-- An id that a client gives is held by a slot, or every function refuses it.
pub record Located (tm : TxnManager) (id : ℕ) : Type 0 where
  pub slot : ℕ
  pub txn : Txn
  pub proper : id ≢ txn_id_none
  pub found : find_slot tm id ≡ some slot
  pub got : get_elem? tm.txns slot ≡ some txn
  pub here : holds id txn ≡ true
  pub seen : find tm id ≡ some txn

pub data Refused (tm : TxnManager) (id : ℕ) : Type 0 where
  improper : (id == txn_id_none) ≡ true → Refused tm id
  missing : (id == txn_id_none) ≡ false → find_slot tm id ≡ none → Refused tm id

pub find-Refused : (tm : TxnManager) (id : ℕ) → Refused tm id → find tm id ≡ none
unfolding find
find-Refused tm id (improper h) = rw h refl
find-Refused tm id (missing n h) = rw (n, h) refl

pub find-cases : (tm : TxnManager) (id : ℕ) → Located tm id ⊎ Refused tm id
find-cases tm id = elim (Bool-cases (id == txn_id_none)) [
  | inl y ↦ inr (improper y)
  | inr n ↦ elim (Option-cases (find_slot tm id)) [
    | inl none' ↦ inr (missing n none')
    | inr (i, f) ↦
        let (t, g, h, eq) = find_slot-some tm id i f in
        inl (record {
          slot = i;
          txn = t;
          proper = ground arith;
          found = f;
          got = g;
          here = h;
          seen = find-eq-first tm id ∙ rw n eq;
        })
  ]
]
