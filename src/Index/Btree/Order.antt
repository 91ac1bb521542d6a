-- ===== src/Index/Btree/Order.antt =====
-- The order of the entries in a page of lib/index/btree.c, and what a search finds.
use napastak.Base.{
  ℕ, ◌≤◌, ◌<◌, ◌≡◌, inl, inr, refl, sym, ap, true, false, List, [], ◌∷◌, arith, ◌==◌, if◌then◌else◌,
  Bool-cases,
}
use napastak.Storage.Compress.Sort.{bias}
use napastak.Index.Btree.{key_le, insert_after, scan_leaf}

-- No key of the list is less than `k`.
abbrev pub AtLeast : ℕ → List (ℕ × ℕ) → Type 0
AtLeast k [] = Unit
AtLeast k ((j, v) ∷ l) = (bias k ≤ bias j) × AtLeast k l

abbrev pub IsOrdered : List (ℕ × ℕ) → Type 0
IsOrdered [] = Unit
IsOrdered ((k, v) ∷ l) = AtLeast k l × IsOrdered l

AtLeast-weaker : (j k : ℕ) (l : List (ℕ × ℕ)) → bias j ≤ bias k → AtLeast k l → AtLeast j l
AtLeast-weaker j k [] h a = tt
AtLeast-weaker j k ((i, v) ∷ l) h a = (omega (arith, h, a.0), AtLeast-weaker j k l h a.1)

key_le_iff : (j k : ℕ) → key_le j k ≡ true → bias j ≤ bias k
unfolding key_le
key_le_iff j k h = ground (arith, h)

pub key_le_not : (j k : ℕ) → key_le j k ≡ false → bias k < bias j
unfolding key_le
key_le_not j k h = ground (arith, h)

AtLeast-insert_after :
    (j k v : ℕ) (l : List (ℕ × ℕ))
    → bias j ≤ bias k
    → AtLeast j l
    → AtLeast j (insert_after (k, v) l)
unfolding insert_after
AtLeast-insert_after j k v [] h a = (h, tt)
AtLeast-insert_after j k v ((i, u) ∷ l) h a = elim (Bool-cases (key_le i k)) [
  | inl y ↦ rw y (a.0, AtLeast-insert_after j k v l h a.1)
  | inr n ↦ rw n (h, (a.0, a.1))
]

pub insert_after-IsOrdered :
    (k v : ℕ) (l : List (ℕ × ℕ)) → IsOrdered l → IsOrdered (insert_after (k, v) l)
unfolding insert_after
insert_after-IsOrdered k v [] o = (tt, tt)
insert_after-IsOrdered k v ((i, u) ∷ l) o = elim (Bool-cases (key_le i k)) [
  | inl y ↦
      rw y (AtLeast-insert_after i k v l (key_le_iff i k y) o.0, insert_after-IsOrdered k v l o.1)
  | inr n ↦
      let h = key_le_not i k n in
      rw n ((omega (arith, h), AtLeast-weaker k i l (omega (arith, h)) o.0), (o.0, o.1))
]

-- The offsets of a key, in the order of the list.
unfoldable pub matching : ℕ → List (ℕ × ℕ) → List ℕ
matching k [] = []
matching k ((j, v) ∷ l) = if bias j == bias k then v ∷ matching k l else matching k l

pub matching-above :
    (k j : ℕ) (l : List (ℕ × ℕ)) → bias k < bias j → AtLeast j l → matching k l ≡ []
unfolding matching
matching-above k j [] h a = refl
matching-above k j ((i, v) ∷ l) h a =
    let other : (bias i == bias k) ≡ false = ground (arith, h, a.0) in
    rw other (matching-above k j l h a.1)

pub scan_leaf-matching :
    (k : ℕ) (l : List (ℕ × ℕ)) → IsOrdered l → (scan_leaf k k l).0 ≡ matching k l
unfolding scan_leaf matching
scan_leaf-matching k [] o = refl
scan_leaf-matching k ((j, v) ∷ l) o = elim (Bool-cases (key_le j k)) [
  | inr n ↦
      let h = key_le_not j k n in
      let other : (bias j == bias k) ≡ false = ground (arith, h) in
      rw (n, other) (sym (matching-above k j l h o.0))
  | inl y ↦
      let h = key_le_iff j k y in
      let ih = scan_leaf-matching k l o.1 in
      elim (Bool-cases (key_le k j)) [
        | inl z ↦
            let same_key : (bias j == bias k) ≡ true = ground (arith, h, key_le_iff k j z) in
            rw (y, z, same_key) (ap (λ t. v ∷ t) ih)
        | inr m ↦
            let other : (bias j == bias k) ≡ false = ground (arith, h, key_le_not k j m) in
            rw (y, m, other) ih
      ]
]
