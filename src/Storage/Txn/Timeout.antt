-- ===== src/Storage/Txn/Timeout.antt =====
-- `txn_manager_timeout_check` of lib/storage/txn.c.
use napastak.Base.{
  ℕ, ◌+◌, ◌≡◌, ◌≢◌, refl, true, false, not, ◌&&◌, Option, none, some, List, [], ◌∷◌, arith,
  if◌then◌else◌, length, Bool-cases, inl, inr, ltb, ◌==◌, ◌∙◌, ap, suc,
}
use napastak.Storage.Txn.{
  Txn, TxnManager, aborted, txn_id_none, holds, freed, find, is_expired, expire_slots,
  timeout_check,
}
use napastak.Storage.Txn.Slots.{first, AtMostOne}
use napastak.Storage.Txn.Lifecycle.{IsValid, find-eq-first}

-- A transaction stays if it is not too old.
abbrev pub kept : ℕ → ℕ → Option Txn → Option Txn
kept now timeout none = none
kept now timeout (some t) =
    if not (timeout == 0) && ltb (t.begin_ts + timeout) now then none else some t

module _ (now timeout j : ℕ) (proper : j ≢ txn_id_none) where
  abbrev expire : Txn → Txn
  expire t = if is_expired now timeout t then freed aborted t else t

  expire-holds : (t : Txn) → holds j t ≡ false → holds j (expire t) ≡ false
  expire-holds t h = ground (arith, proper)

  expire_slots-none :
      (ts : List Txn)
      → first (holds j) ts ≡ none
      → first (holds j) (expire_slots now timeout ts) ≡ none
  unfolding expire_slots
  expire_slots-none [] h = refl
  expire_slots-none (t ∷ ts) h = elim (Bool-cases (holds j t)) [
    | inl y ↦ cc (rw y at h)
    | inr n ↦ rw (expire-holds t n) (expire_slots-none ts (rw n at h))
  ]

  first-expire_slots :
      (ts : List Txn)
      → AtMostOne (holds j) ts
      → (timeout == 0) ≡ false
      → first (holds j) (expire_slots now timeout ts) ≡ kept now timeout (first (holds j) ts)
  unfolding expire_slots
  first-expire_slots [] a z = refl
  first-expire_slots (t ∷ ts) a z = elim (Bool-cases (holds j t)) [
    | inl y ↦ elim (Bool-cases (ltb (t.begin_ts + timeout) now)) [
      | inl old ↦
          let gone : is_expired now timeout t ≡ true = ground (arith, proper) in
          rw (gone, y, z, old) (ground (arith, proper, expire_slots-none ts (a.0 y)))
      | inr young ↦
          let stays : is_expired now timeout t ≡ false = ground arith in
          rw (stays, y, z, young) refl
    ]
    | inr n ↦ rw (expire-holds t n, n) (first-expire_slots ts a.1 z)
  ]

-- In a valid pool, after the check an id finds its transaction exactly if that was found before and
-- is no more than `timeout` seconds old, or the timeout is 0.
pub find-timeout_check :
    (tm : TxnManager) (now timeout j : ℕ)
    → IsValid tm
    → find (timeout_check tm now timeout) j ≡ kept now timeout (find tm j)
unfolding timeout_check
find-timeout_check tm now timeout j v = elim (Bool-cases (timeout == 0)) [
  | inl z ↦ rw z (same z (find tm j))
  | inr z ↦ elim (Bool-cases (j == txn_id_none)) [
    | inl y ↦
        rw (z, find-eq-first tm j, y)
          (find-eq-first (record tm { txns = expire_slots now timeout tm.txns }) j ∙ rw y refl)
    | inr n ↦
        let proper : j ≢ txn_id_none = ground arith in
        rw (z, find-eq-first tm j, n)
          (find-eq-first (record tm { txns = expire_slots now timeout tm.txns }) j
            ∙ rw n (first-expire_slots now timeout j proper tm.txns (v.unique j proper) z))
  ]
]
  where
    same : (timeout == 0) ≡ true → (o : Option Txn) → o ≡ kept now timeout o
    same z none = refl
    same z (some t) = rw z refl

length-expire_slots :
    (now timeout : ℕ) (ts : List Txn) → length (expire_slots now timeout ts) ≡ length ts
unfolding expire_slots
length-expire_slots now timeout [] = refl
length-expire_slots now timeout (t ∷ ts) = ap suc (length-expire_slots now timeout ts)

AtMostOne-expire_slots :
    (now timeout j : ℕ) (ts : List Txn)
    → j ≢ txn_id_none
    → AtMostOne (holds j) ts
    → AtMostOne (holds j) (expire_slots now timeout ts)
unfolding expire_slots
AtMostOne-expire_slots now timeout j [] n a = tt
AtMostOne-expire_slots now timeout j (t ∷ ts) n a = (
  λ y. expire_slots-none now timeout j n ts (a.0 (ground (arith, n))),
  AtMostOne-expire_slots now timeout j ts n a.1,
)

pub timeout_check-IsValid :
    (tm : TxnManager) (now timeout : ℕ) → IsValid tm → IsValid (timeout_check tm now timeout)
unfolding timeout_check
timeout_check-IsValid tm now timeout v = elim (Bool-cases (timeout == 0)) [
  | inl z ↦ rw z v
  | inr z ↦ rw z (record {
    size = length-expire_slots now timeout tm.txns ∙ v.size;
    counter = v.counter;
    fresh = λ j h. expire_slots-none now timeout j (omega (arith, v.counter)) tm.txns (v.fresh j h);
    unique = λ j n. AtMostOne-expire_slots now timeout j tm.txns n (v.unique j n);
  })
]
