-- ===== src/Connector/Pool/Held.antt =====
-- What the holders of a slot of lib/connector/conn_pool.c know of it, and what each step leaves.
use napastak.Base.{
  ℕ, zero, suc, ◌+◌, ◌≤◌, ◌<◌, ◌≡◌, ◌≢◌, refl, sym, Bool, true, false, not, ◌&&◌, List, [], ◌∷◌,
  arith, length, Bool-cases, inl, inr, ap, ◌==◌, if◌then◌else◌,
}
use mathlib.Core.Path.{subst}
use napastak.Connector.Slot.{
  PoolSlot, Attempt, slot_free, slot_close, slot_open, slot_opened, modify, has, reserved,
}
use napastak.Connector.Pool.{ConnPool, Visit, visit, Acquire, released, pinged, is_idle}
use napastak.Connector.Pool.Slots.{slot_at, modify-slot, Kept}
use napastak.Connector.Pool.Exclusive.{Acquired}
use napastak.Connector.Pool.World.{World, bit, count, remove, acquired}

-- A slot with `o` threads that open it and `l` that lease or ping it.
pub record Held (s : PoolSlot) (o l : ℕ) : Type 0 where
  pub leased : o + l ≡ bit s.leased
  pub opening : o ≡ bit s.opening
  pub used : s.leased ≡ true → s.used ≡ true
  pub live : s.leased ≡ true → s.opening ≡ false → has s.inst ≡ true

abbrev pub HeldAt : World → ℕ → Type 0
HeldAt w j = Held (slot_at w.pool.slots j) (count j w.opens) (count j w.leases + count j w.pings)

pub count-remove :
    (i : ℕ) (is : List ℕ) (j : ℕ)
    → 0 < count i is
    → count j (remove i is) + bit (i == j) ≡ count j is
unfolding count remove
count-remove i [] j h = absurd (omega arith)
count-remove i (k ∷ is) j h = elim (Bool-cases (k == i)) [
  | inl y ↦ ground arith
  | inr n ↦ let rest = count-remove i is j (ground arith) in ground arith
]

pub Held-moved :
    {s s' : PoolSlot} {o o' l l' : ℕ} → Held s o l → s' ≡ s → o' ≡ o → l' ≡ l → Held s' o' l'
Held-moved {s} {s'} {o} {o'} {l} {l'} h es eo el =
    subst (λ x. Held x o' l') (sym es)
      (subst (λ x. Held s x l') (sym eo) (subst (λ x. Held s o x) (sym el) h))

pub counted : (i j : ℕ) → i ≡ j → bit (i == j) ≡ 1
counted i j e = ground arith

pub uncounted : (i j : ℕ) → i ≢ j → bit (i == j) ≡ 0
uncounted i j e = ground arith

Held-Kept : (s s' : PoolSlot) (o l : ℕ) → Kept s s' → Held s o l → Held s' o l
unfolding slot_free
Held-Kept s s' o l (inl e) h = subst (λ x. Held x o l) (sym e) h
Held-Kept s s' o l (inr (n, e)) h =
    subst (λ x. Held x o l) (sym e)
      (record {
        leased = ground (arith, h.leased);
        opening = ground (arith, h.opening);
        used = λ q. absurd (cc);
        live = λ q. absurd (cc);
      })

module _ (conn_id so_path fp : List ℕ) (now : ℕ) where
  visit-live :
      (s : PoolSlot)
      → visit conn_id fp s ≡ Visit.live
      → (s.leased ≡ false) × (s.used ≡ true) × (has s.inst ≡ true)
  unfolding visit
  visit-live s h = (ground arith, ground arith, ground arith)

  Held-granted :
      (s : PoolSlot) (o l : ℕ)
      → visit conn_id fp s ≡ Visit.live
      → Held s o l
      → Held (record s { leased = true; last_used = now }) o (1 + l)
  Held-granted s o l v h =
      let (n, u, i) = visit-live s v in
      record {
        leased = ground (arith, n, h.leased);
        opening = h.opening;
        used = λ q. u;
        live = λ q r. i;
      }

  Held-reserved :
      (s t : PoolSlot) (o l : ℕ)
      → (s.used && s.leased) ≡ false
      → Held s o l
      → Held (reserved conn_id so_path fp t) (1 + o) l
  Held-reserved s t o l n h = record {
    leased = ground (arith, n, h.leased, h.used);
    opening = ground (arith, n, h.leased, h.used);
    used = λ q. refl;
    live = λ q r. absurd (cc);
  }

  pub acquired-HeldAt :
      (p : ConnPool) (w : World) (a : Acquire) (p' : ConnPool) (j : ℕ)
      → Acquired p conn_id so_path fp now a j (slot_at w.pool.slots j) (slot_at p'.slots j)
      → HeldAt w j
      → HeldAt (acquired w (p', a)) j
  unfolding acquired count
  acquired-HeldAt p w (Acquire.granted i) p' j (inl (e, v, f)) h =
      let same_slot : i ≡ j = cc in
      Held-moved
        (Held-granted (slot_at w.pool.slots j) (count j w.opens)
          (count j w.leases + count j w.pings) v h)
        f refl (omega (arith, counted i j same_slot))
  acquired-HeldAt p w (Acquire.opens i) p' j (inl (e, v, f)) h = absurd (cc)
  acquired-HeldAt p w (Acquire.failed m) p' j (inl (e, v, f)) h = absurd (cc)
  acquired-HeldAt p w Acquire.waits p' j (inl (e, v, f)) h = absurd (cc)
  acquired-HeldAt p w (Acquire.granted i) p' j (inr (inl (e, v, f))) h = absurd (cc)
  acquired-HeldAt p w (Acquire.opens i) p' j (inr (inl (e, v, (t, k, f)))) h =
      let same_slot : i ≡ j = cc in
      Held-moved
        (Held-reserved (slot_at w.pool.slots j) t (count j w.opens)
          (count j w.leases + count j w.pings) v h)
        f (omega (arith, counted i j same_slot)) refl
  acquired-HeldAt p w (Acquire.failed m) p' j (inr (inl (e, v, f))) h = absurd (cc)
  acquired-HeldAt p w Acquire.waits p' j (inr (inl (e, v, f))) h = absurd (cc)
  acquired-HeldAt p w (Acquire.granted i) p' j (inr (inr (e, v, f))) h =
      Held-moved
        (Held-Kept (slot_at w.pool.slots j) (slot_at p'.slots j) (count j w.opens)
          (count j w.leases + count j w.pings) f h)
        refl refl (omega (arith, uncounted i j (λ q. e (ap Acquire.granted q))))
  acquired-HeldAt p w (Acquire.opens i) p' j (inr (inr (e, v, f))) h =
      Held-moved
        (Held-Kept (slot_at w.pool.slots j) (slot_at p'.slots j) (count j w.opens)
          (count j w.leases + count j w.pings) f h)
        refl (omega (arith, uncounted i j (λ q. v (ap Acquire.opens q)))) refl
  acquired-HeldAt p w (Acquire.failed m) p' j (inr (inr (e, v, f))) h =
      Held-Kept (slot_at w.pool.slots j) (slot_at p'.slots j) (count j w.opens)
        (count j w.leases + count j w.pings) f h
  acquired-HeldAt p w Acquire.waits p' j (inr (inr (e, v, f))) h =
      Held-Kept (slot_at w.pool.slots j) (slot_at p'.slots j) (count j w.opens)
        (count j w.leases + count j w.pings) f h

in_range : (ss : List PoolSlot) (i : ℕ) → (slot_at ss i).leased ≡ true → i < length ss
in_range [] i h = absurd (cc)
in_range (s ∷ ss) zero h = omega arith
in_range (s ∷ ss) (suc i) h = omega (arith, in_range ss i h)

pub Held-in_range :
    (ss : List PoolSlot) (i o l : ℕ) → Held (slot_at ss i) o l → 0 < o + l → i < length ss
Held-in_range ss i o l h n = in_range ss i (ground (arith, h.leased))

-- A slot that is written by its only holder.
module _ (ss : List PoolSlot) (i : ℕ) (f : PoolSlot → PoolSlot) where
  pub Held-modify :
      (j o l o' l' : ℕ)
      → Held (slot_at ss j) o l
      → (i ≢ j → (o' ≡ o) × (l' ≡ l))
      → (i ≡ j → Held (f (slot_at ss j)) o' l')
      → i < length ss
      → Held (slot_at (modify i f ss) j) o' l'
  Held-modify j o l o' l' h a b c = elim (modify-slot i f ss j) [
    | inl (n, e) ↦ let (p, q) = a (λ k. absurd (omega (arith, n k, c, k))) in Held-moved h e p q
    | inr (k, e) ↦ Held-moved (b k) e refl refl
  ]

pub Held-opened :
    (conn_id so_path cfg fp : List ℕ) (verify : Bool) (unable : List ℕ) (now : ℕ) (a : Attempt)
    (s : PoolSlot) (o l : ℕ)
    → 0 < o
    → Held s o l
    → let r = slot_open conn_id so_path cfg fp verify unable now a s in
      Held (slot_opened r) 0 (bit r.1)
unfolding slot_open slot_opened
Held-opened conn_id so_path cfg fp verify unable now Attempt.no_arena s o l n h = record {
  leased = ground arith;
  opening = refl;
  used = λ q. ground arith;
  live = λ q r. ground arith;
}
Held-opened conn_id so_path cfg fp verify unable now Attempt.not_loaded s o l n h = record {
  leased = ground arith;
  opening = refl;
  used = λ q. refl;
  live = λ q r. ground arith;
}
Held-opened conn_id so_path cfg fp verify unable now (Attempt.loaded i rc why) s o l n h =
    elim (Bool-cases (verify && not (rc == 0))) [
      | inl y ↦
          rw (y, slot_open)
            (record {
              leased = ground arith;
              opening = refl;
              used = λ q. refl;
              live = λ q r. ground arith;
            })
      | inr y ↦
          rw (y, slot_open)
            (record {
              leased = ground (arith, h.leased);
              opening = refl;
              used = λ q. refl;
              live = λ q r. refl;
            })
    ]

pub released-flags :
    (healthy : Bool) (now : ℕ) (s : PoolSlot)
    → ((released healthy now s).leased ≡ false) × ((released healthy now s).opening ≡ s.opening)
unfolding released slot_free slot_close
released-flags healthy now s = (ground arith, ground arith)

pub pinged-flags :
    (rc : ℕ) (why : List ℕ) (now : ℕ) (s : PoolSlot)
    → ((pinged rc why now s).leased ≡ false) × ((pinged rc why now s).opening ≡ s.opening)
unfolding pinged slot_close
pinged-flags rc why now s = (ground arith, ground arith)

-- A slot that its holder gives back.
pub Held-left :
    (s s' : PoolSlot) (o l : ℕ)
    → 0 < l
    → Held s o l
    → (s'.leased ≡ false) × (s'.opening ≡ s.opening)
    → Held s' 0 0
Held-left s s' o l n h (a, b) =
    let idle : s.opening ≡ false = ground (arith, h.leased, h.opening) in
    record {
      leased = rw a refl;
      opening = rw (b, idle) refl;
      used = λ q. absurd (cc);
      live = λ q r. absurd (cc);
    }

pub idle_in_range :
    (g t : ℕ) (ss : List PoolSlot) (i : ℕ) → is_idle g t (slot_at ss i) ≡ true → i < length ss
unfolding is_idle
idle_in_range g t [] i h = absurd (cc)
idle_in_range g t (s ∷ ss) zero h = omega arith
idle_in_range g t (s ∷ ss) (suc i) h = omega (arith, idle_in_range g t ss i h)

pub Held-pinging :
    (g t : ℕ) (s : PoolSlot) (o l : ℕ)
    → is_idle g t s ≡ true
    → Held s o l
    → Held (record s { leased = true }) o (1 + l)
unfolding is_idle
Held-pinging g t s o l y h = record {
  leased = ground (arith, h.leased);
  opening = h.opening;
  used = λ q. ground arith;
  live = λ q r. ground arith;
}

pub count-given :
    (b : Bool) (i : ℕ) (is : List ℕ) (j : ℕ)
    → count j (if b then i ∷ is else is) ≡ bit (b && (i == j)) + count j is
unfolding count
count-given true i is j = refl
count-given false i is j = omega arith

pub bit_le : (b : Bool) → bit b ≤ 1
bit_le true = omega arith
bit_le false = omega arith

pub counted_if : (b : Bool) (i j : ℕ) → i ≡ j → bit (b && (i == j)) ≡ bit b
counted_if true i j e = counted i j e
counted_if false i j e = refl

pub uncounted_if : (b : Bool) (i j : ℕ) → i ≢ j → bit (b && (i == j)) ≡ 0
uncounted_if true i j e = uncounted i j e
uncounted_if false i j e = refl
