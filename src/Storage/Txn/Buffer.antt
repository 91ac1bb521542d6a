-- ===== src/Storage/Txn/Buffer.antt =====
-- The `txn_buffer_` functions of lib/storage/txn.c.
use napastak.Base.{
  ℕ, ◌≤◌, ◌≡◌, refl, Bool, true, false, not, Option, none, some, List, arith, if◌then◌else◌, length,
  Bool-cases, inl, inr, ap, leb, ◌==◌, ◌∙◌,
}
use napastak.Storage.Txn.{
  Txn, TxnManager, TxnEntry, Operation, txn_id_none, txn_max_entries, holds, find_slot, modify,
  at_slot, find, table_name, appended, buffer,
}
use napastak.Storage.Txn.Slots.{
  first, first-some, length-modify, first-modify_hit, first-modify_other, AtMostOne-modify_keep,
}
use napastak.Storage.Txn.Lifecycle.{
  IsValid, Located, Refused, improper, missing, find-Refused, find-cases, find-eq-first,
}

abbrev pub entry : List ℕ → Operation → TxnEntry
entry table op = record { table = table_name table; op = op }

abbrev pub is_full : Txn → Bool
is_full t = leb txn_max_entries (length t.entries)

buffer-full :
    (tm : TxnManager) (id : ℕ) (table : List ℕ) (op : Operation) (l : Located tm id)
    → is_full l.txn ≡ true
    → buffer tm id table op ≡ (tm, false)
unfolding buffer
buffer-full tm id table op l full =
    let off : (id == txn_id_none) ≡ false = ground (arith, l.proper) in
    rw (off, l.found, buffer, l.got, full) refl

buffer-room :
    (tm : TxnManager) (id : ℕ) (table : List ℕ) (op : Operation) (l : Located tm id)
    → is_full l.txn ≡ false
    → buffer tm id table op ≡ (at_slot tm l.slot (appended (entry table op)), true)
unfolding buffer
buffer-room tm id table op l room =
    let off : (id == txn_id_none) ≡ false = ground (arith, l.proper) in
    rw (off, l.found, buffer, l.got, room) refl

buffer-Refused :
    (tm : TxnManager) (id : ℕ) (table : List ℕ) (op : Operation)
    → Refused tm id
    → buffer tm id table op ≡ (tm, false)
unfolding buffer
buffer-Refused tm id table op (improper h) = rw h refl
buffer-Refused tm id table op (missing n h) = rw (n, buffer, h) refl

find-appended :
    (tm : TxnManager) (id j : ℕ) (e : TxnEntry) (l : Located tm id)
    → find (at_slot tm l.slot (appended e)) j
      ≡ (if j == id then some (appended e l.txn) else find tm j)
find-appended tm id j e l = elim (Bool-cases (j == txn_id_none)) [
  | inl y ↦
      rw (find-eq-first (at_slot tm l.slot (appended e)) j, find-eq-first tm j, y)
        (ground (arith, l.proper))
  | inr n ↦ rw (find-eq-first (at_slot tm l.slot (appended e)) j, find-eq-first tm j, n) written
]
  where
    written :
        first (holds j) (modify l.slot (appended e) tm.txns)
        ≡ (if j == id then some (appended e l.txn) else first (holds j) tm.txns)
    written = elim (Bool-cases (j == id)) [
      | inl y ↦
          let same : j ≡ id = ground arith in
          rw (y, same)
            (first-modify_hit (holds id) 0 l.slot (appended e) tm.txns l.txn
              (unfold find_slot in l.found ∙ ap some (omega arith)) l.got l.here)
      | inr n ↦ rw n (
          first-modify_other (holds j) (appended e) l.slot tm.txns l.txn l.got
            (ground (arith, l.here)) (ground (arith, l.here)))
    ]

-- What buffering an operation makes of the transaction that the id finds.
abbrev pub buffered : List ℕ → Operation → Option Txn → Option Txn
buffered table op none = none
buffered table op (some t) = some (if is_full t then t else appended (entry table op) t)

abbrev pub accepts : Option Txn → Bool
accepts none = false
accepts (some t) = not (is_full t)

-- Buffering succeeds exactly when the id finds a transaction with fewer than 4096 entries; the
-- entry, its table name cut to 127 bytes, then stands last in that transaction; no other changes.
pub find-buffer :
    (tm : TxnManager) (id j : ℕ) (table : List ℕ) (op : Operation)
    → ((buffer tm id table op).1 ≡ accepts (find tm id))
      × (find (buffer tm id table op).0 j
          ≡ (if j == id then buffered table op (find tm id) else find tm j))
find-buffer tm id j table op = elim (find-cases tm id) [
  | inl l ↦ elim (Bool-cases (is_full l.txn)) [
    | inl full ↦ (
      rw (buffer-full tm id table op l full, l.seen, full) refl,
      rw (buffer-full tm id table op l full, l.seen, full) (kept l),
    )
    | inr room ↦ (
      rw (buffer-room tm id table op l room, l.seen, room) refl,
      rw (buffer-room tm id table op l room, l.seen, room)
          (find-appended tm id j (entry table op) l),
    )
  ]
  | inr r ↦ (
    rw (buffer-Refused tm id table op r, find-Refused tm id r) refl,
    rw (buffer-Refused tm id table op r, find-Refused tm id r) (gone r),
  )
]
  where
    kept : (l : Located tm id) → find tm j ≡ (if j == id then some l.txn else find tm j)
    kept l = elim (Bool-cases (j == id)) [
      | inl y ↦ let same : j ≡ id = ground arith in rw (y, same) l.seen
      | inr n ↦ rw n refl
    ]

    gone : Refused tm id → find tm j ≡ (if j == id then none else find tm j)
    gone r = elim (Bool-cases (j == id)) [
      | inl y ↦ let same : j ≡ id = ground arith in rw (y, same) (find-Refused tm id r)
      | inr n ↦ rw n refl
    ]

pub buffer-IsValid :
    (tm : TxnManager) (id : ℕ) (table : List ℕ) (op : Operation)
    → IsValid tm
    → IsValid (buffer tm id table op).0
buffer-IsValid tm id table op v = elim (find-cases tm id) [
  | inl l ↦ elim (Bool-cases (is_full l.txn)) [
    | inl full ↦ rw (buffer-full tm id table op l full) v
    | inr room ↦ rw (buffer-room tm id table op l room) (kept l)
  ]
  | inr r ↦ rw (buffer-Refused tm id table op r) v
]
  where
    kept : (l : Located tm id) → IsValid (at_slot tm l.slot (appended (entry table op)))
    kept l = record {
      size = length-modify l.slot (appended (entry table op)) tm.txns ∙ v.size;
      counter = v.counter;
      fresh = λ j h.
          first-modify_other (holds j) (appended (entry table op)) l.slot tm.txns l.txn l.got
            (below l j h) (below l j h)
          ∙ v.fresh j h;
      unique = λ j n.
          AtMostOne-modify_keep (holds j) (appended (entry table op)) l.slot tm.txns l.txn
            (v.unique j n) l.got (λ y. y);
    }
      where
        below : (l : Located tm id) (j : ℕ) → tm.next_id ≤ j → holds j l.txn ≡ false
        below l j h = elim (Bool-cases (holds j l.txn)) [
          | inl y ↦ absurd (first-some (holds j) l.slot tm.txns l.txn l.got y (v.fresh j h))
          | inr n ↦ n
        ]
