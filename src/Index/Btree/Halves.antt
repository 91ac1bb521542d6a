-- ===== src/Index/Btree/Halves.antt =====
-- What `leaf_ins` of lib/index/btree.c leaves in the leaf and in the new one.
use napastak.Base.{ℕ, suc, ◌≤◌, ◌≡◌, inl, inr, refl, ap, List, [], ◌∷◌, ◌++◌, length, Bool-cases}
use napastak.Storage.Compress.Sort.{bias}
use napastak.Index.Btree.{Split, kept, halves, leaf_max, key_le, insert_after}
use napastak.Index.Btree.Order.{AtLeast}

-- A list cut at `n`: the parts make up the list, and the first has `n` entries.
abbrev CutsAt : ℕ → List (ℕ × ℕ) → Split → Type 0
CutsAt n l (kept r) = (r ≡ l) × (length l ≤ n)
CutsAt n l (halves a m b) = (a ++ m ∷ b ≡ l) × (length a ≡ n)

pub length-insert_after :
    (k v : ℕ) (l : List (ℕ × ℕ)) → length (insert_after (k, v) l) ≡ suc (length l)
unfolding insert_after
length-insert_after k v [] = refl
length-insert_after k v ((j, u) ∷ l) = elim (Bool-cases (key_le j k)) [
  | inl y ↦ rw y (ap suc (length-insert_after k v l))
  | inr n ↦ rw n refl
]

-- No key of the list is greater than `k`.
abbrev pub AtMost : ℕ → List (ℕ × ℕ) → Type 0
AtMost k [] = Unit
AtMost k ((j, v) ∷ l) = (bias j ≤ bias k) × AtMost k l

-- The entries `l` in one leaf, or in two of 128 and 128 with the first key of the second between
-- them.
abbrev pub LeafHolds : List (ℕ × ℕ) → Split → Type 0
LeafHolds l (kept r) = (r ≡ l) × (length r ≤ leaf_max)
LeafHolds l (halves a m b) =
    (a ++ m ∷ b ≡ l) × (length a ≡ 128) × (length b ≡ 127) × AtMost m.0 a × AtLeast m.0 b
