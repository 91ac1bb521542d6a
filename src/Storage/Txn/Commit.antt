-- ===== src/Storage/Txn/Commit.antt =====
-- `txn_commit` of lib/storage/txn.c, with no other call between its critical sections.
use napastak.Base.{
  ℕ, zero, suc, ◌≡◌, refl, sym, subst, false, Option, none, some, List, [], ◌∷◌, ◌++◌, arith,
  if◌then◌else◌, inl, inr, Bool-cases, ==_iff, ap, ◌==◌, ◌∙◌,
}
use napastak.Storage.Txn.{
  Txn, TxnManager, TxnEntry, committed, txn_id_none, modify, at_slot, find, commit_start,
  apply_entries, commit, commit_rest,
}
use napastak.Storage.Txn.Lifecycle.{
  IsValid, Located, Refused, improper, missing, find-Refused, find-cases,
}
use napastak.Storage.Txn.Release.{find-clear, clear-IsValid}

modify-modify :
    (i : ℕ) (f g : Txn → Txn) (ts : List Txn)
    → modify i g (modify i f ts) ≡ modify i (λ t. g (f t)) ts
unfolding modify
modify-modify zero f g [] = refl
modify-modify (suc i) f g [] = refl
modify-modify zero f g (t ∷ ts) = refl
modify-modify (suc i) f g (t ∷ ts) = ap (λ r. t ∷ r) (modify-modify i f g ts)

abbrev pub marked : Txn → Txn
marked t = record t { status = committed }

abbrev pub emptied : Txn → Txn
emptied t = record t { has_arena = false; entries = []; id = txn_id_none }

pub commit_start-located :
    (tm : TxnManager) (id : ℕ) (l : Located tm id)
    → commit_start tm id ≡ some (l.slot, l.txn.entries, at_slot tm l.slot marked)
unfolding commit_start
commit_start-located tm id l =
    let off : (id == txn_id_none) ≡ false = ground (arith, l.proper) in
    rw (off, commit_start, l.found, l.got) refl

commit_start-Refused : (tm : TxnManager) (id : ℕ) → Refused tm id → commit_start tm id ≡ none
unfolding commit_start
commit_start-Refused tm id (improper h) = rw h refl
commit_start-Refused tm id (missing n h) = rw (n, commit_start, h) refl

module _ {S : Type 0} (fn : TxnEntry → S → S × ℕ) where
  commit-located :
      (tm : TxnManager) (id : ℕ) (l : Located tm id) (s : S)
      → commit fn tm id s ≡ (
        at_slot tm l.slot (λ t. emptied (marked t)),
        (apply_entries fn l.txn.entries s).0,
        some (apply_entries fn l.txn.entries s).1,
      )
  unfolding commit
  commit-located tm id l s =
      ap (commit_rest fn tm s) (commit_start-located tm id l)
      ∙ ap
          (λ (ts : List Txn). (
            record tm { txns = ts },
            (apply_entries fn l.txn.entries s).0,
            some (apply_entries fn l.txn.entries s).1,
          ))
          (modify-modify l.slot marked emptied tm.txns)

  commit-Refused :
      (tm : TxnManager) (id : ℕ) (s : S) → Refused tm id → commit fn tm id s ≡ (tm, s, none)
  unfolding commit
  commit-Refused tm id s r = ap (commit_rest fn tm s) (commit_start-Refused tm id r)

  -- What the callbacks make of a transaction, if there is one.
  abbrev outcome : Option Txn → S → S × Option ℕ
  outcome none s = (s, none)
  outcome (some t) s = ((apply_entries fn t.entries s).0, some (apply_entries fn t.entries s).1)

  find-commit-outcome :
      (tm : TxnManager) (id j : ℕ) (s : S)
      → IsValid tm
      → let (tm', s', rc) = commit fn tm id s in
        (◌≡◌ {A = S × Option ℕ} (s', rc) (outcome (find tm id) s))
        × (find tm' j ≡ (if j == id then none else find tm j))
  find-commit-outcome tm id j s v = elim (find-cases tm id) [
    | inl l ↦ (
      rw (commit-located tm id l s, l.seen) refl,
      rw (commit-located tm id l s)
          (find-clear (λ t. emptied (marked t)) (λ t. refl) tm id l.slot v l.proper l.found j),
    )
    | inr r ↦ (
      rw (commit-Refused tm id s r, find-Refused tm id r) refl,
      rw (commit-Refused tm id s r) (gone r),
    )
  ]
    where
      gone : Refused tm id → find tm j ≡ (if j == id then none else find tm j)
      gone r = elim (Bool-cases (j == id)) [
        | inl y ↦ let same : j ≡ id = ground arith in rw (y, same) (find-Refused tm id r)
        | inr n ↦ rw n refl
      ]

  -- The callback over entries in order, from one state to another with the code that results: up
  -- to the first that does not return 0.
  pub data Ran : List TxnEntry → S → S → ℕ → Type 0 where
    ended : (s : S) → Ran [] s s 0
    went_on :
        {e : TxnEntry} {es : List TxnEntry} {s u t : S} {rc : ℕ}
        → fn e s ≡ (u, 0)
        → Ran es u t rc
        → Ran (e ∷ es) s t rc
    failed :
        {e : TxnEntry} {es : List TxnEntry} {s u : S} {code : ℕ}
        → fn e s ≡ (u, suc code)
        → Ran (e ∷ es) s u (suc code)

  Ran-first :
      (e : TxnEntry) (es : List TxnEntry) (s : S)
      → ((u : S) → Ran es u (apply_entries fn es u).0 (apply_entries fn es u).1)
      → (r : S × ℕ) → fn e s ≡ r
      → Ran
          (e ∷ es)
          s
          (if r.1 == 0 then apply_entries fn es r.0 else r).0
          (if r.1 == 0 then apply_entries fn es r.0 else r).1
  Ran-first e es s ih (u, zero) h = went_on h (ih u)
  Ran-first e es s ih (u, suc code) h =
      let fails : (suc code == 0) ≡ false = ground arith in rw fails (failed h)

  apply_entries-Ran :
      (es : List TxnEntry) (s : S) → Ran es s (apply_entries fn es s).0 (apply_entries fn es s).1
  unfolding apply_entries
  apply_entries-Ran [] s = ended s
  apply_entries-Ran (e ∷ es) s = Ran-first e es s (λ u. apply_entries-Ran es u) (fn e s) refl

  -- What a commit does to the state of the callbacks, and what it returns: nothing and -1 where
  -- there is no transaction, and else what the callbacks make of its entries.
  abbrev pub Commits : Option Txn → S → S × Option ℕ → Type 0
  Commits none s (s', rc) = (s' ≡ s) × (rc ≡ none)
  Commits (some t) s (s', rc) = (code : ℕ) × (rc ≡ some code) × Ran t.entries s s' code

  outcome-Commits : (o : Option Txn) (s : S) → Commits o s (outcome o s)
  outcome-Commits none s = (refl, refl)
  outcome-Commits (some t) s =
      ((apply_entries fn t.entries s).1, refl, apply_entries-Ran t.entries s)

  -- A commit in a valid pool, with no other call in between, runs the callback over the
  -- entries of the transaction in order, up to the first that does not return 0, and returns its
  -- code, or 0 if there is none; whatever that code, the id then finds nothing, and every other id
  -- finds what it found. With no such transaction it returns -1, the callback is not run, and every
  -- id finds what it found.
  pub find-commit :
      (tm : TxnManager) (id j : ℕ) (s : S)
      → IsValid tm
      → let (tm', s', rc) = commit fn tm id s in
        Commits (find tm id) s (s', rc) × (find tm' j ≡ (if j == id then none else find tm j))
  find-commit tm id j s v =
      let (result, gone) = find-commit-outcome tm id j s v in
      (subst (Commits (find tm id) s) (sym result) (outcome-Commits (find tm id) s), gone)

  pub commit-IsValid :
      (tm : TxnManager) (id : ℕ) (s : S) → IsValid tm → IsValid (commit fn tm id s).0
  commit-IsValid tm id s v = elim (find-cases tm id) [
    | inl l ↦
        rw (commit-located tm id l s)
          (clear-IsValid (λ t. emptied (marked t)) (λ t. refl) tm id l.slot v l.proper l.found)
    | inr r ↦ rw (commit-Refused tm id s r) v
  ]

  -- Entries that succeed one after another, from one state to another.
  pub data Applies : List TxnEntry → S → S → Type 0 where
    done : (s : S) → Applies [] s s
    next :
        {e : TxnEntry} {es : List TxnEntry} {s u t : S}
        → fn e s ≡ (u, 0)
        → Applies es u t
        → Applies (e ∷ es) s t

  apply_entries-Applies :
      {es : List TxnEntry} {s u : S} (rest : List TxnEntry)
      → Applies es s u
      → apply_entries fn (es ++ rest) s ≡ apply_entries fn rest u
  unfolding apply_entries
  apply_entries-Applies rest (done s) = refl
  apply_entries-Applies rest (next {e} {es} {s} {u} {t} ok more) =
      rw ok (apply_entries-Applies rest more)

  -- A commit in a valid pool is not atomic: where the callback fails on an entry, what the entries before it did stays done, with
  -- what the failing callback left, and the transaction is gone, so that it cannot be rolled back.
  pub commit_partial :
      (tm : TxnManager) (id code : ℕ) (s u w : S) (t : Txn) (before after : List TxnEntry)
      (e : TxnEntry)
      → IsValid tm
      → find tm id ≡ some t
      → t.entries ≡ before ++ e ∷ after
      → Applies before s u
      → fn e u ≡ (w, suc code)
      → let (tm', s', rc) = commit fn tm id s in
        (s' ≡ w) × (rc ≡ some (suc code)) × (find tm' id ≡ none)
  unfolding apply_entries
  commit_partial tm id code s u w t before after e v seen shape ok bad =
      let (result, gone) = find-commit-outcome tm id id s v in
      let run : apply_entries fn t.entries s ≡ (w, suc code) =
        let fails : (suc code == 0) ≡ false = ground arith in
        rw (shape, apply_entries-Applies (e ∷ after) ok, bad, fails) refl in
      let whole : ◌≡◌ {A = S × Option ℕ} ((commit fn tm id s).1, (commit fn tm id s).2)
          (w, some (suc code)) =
        result ∙ rw (seen, run) refl in
      (
        ap (λ (p : S × Option ℕ). p.0) whole,
        ap (λ (p : S × Option ℕ). p.1) whole,
        gone ∙ rw ((==_iff id id).1 refl) refl,
      )
