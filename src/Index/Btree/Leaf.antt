-- ===== src/Index/Btree/Leaf.antt =====
-- The tree of lib/index/btree.c while its root is a leaf: what is put in is found again.
use mathlib.Core.List.{append-nil, append_assoc}
use napastak.Base.{
  ℕ, zero, suc, ◌+◌, ◌≤◌, ◌<◌, ◌≡◌, inl, inr, refl, sym, ◌∙◌, ap, Bool, true, false, Option, none,
  some, List, [], ◌∷◌, ◌++◌, arith, ltb, ◌==◌, if◌then◌else◌, length, take, take_all, Bool-cases,
}
use napastak.Storage.Compress.Sort.{bias}
use napastak.Index.Btree.{
  header, leaf, Btree, leaf_max, bt_max_offsets, key_le, insert_after, leaf_ins, store_leaf,
  do_insert, grow_root, btree_insert, find_leaf_ge, scan_leaf, scan_chain, btree_range,
  btree_lookup, btree_create,
}
use napastak.Index.Btree.Order.{
  IsOrdered, insert_after-IsOrdered, matching, matching-above, scan_leaf-matching, key_le_not,
}
use napastak.Index.Btree.Halves.{length-insert_after}

same_bias : (j k : ℕ) → (bias j == bias k) ≡ true → bias j ≡ bias k
same_bias j k h = ground (arith, h)

matching-insert_after :
    (k j v : ℕ) (l : List (ℕ × ℕ))
    → IsOrdered l
    → matching k (insert_after (j, v) l) ≡ matching k l ++ matching k ((j, v) ∷ [])
unfolding matching insert_after
matching-insert_after k j v [] o = refl
matching-insert_after k j v ((i, u) ∷ l) o = elim (Bool-cases (key_le i j)) [
  | inl y ↦ rw y (elim (Bool-cases (bias i == bias k)) [
    | inl e ↦ rw e (ap (λ t. u ∷ t) (matching-insert_after k j v l o.1))
    | inr e ↦ rw e (matching-insert_after k j v l o.1)
  ])
  | inr n ↦
      let h = key_le_not i j n in
      rw n (elim (Bool-cases (bias j == bias k)) [
        | inl e ↦
            let other : (bias i == bias k) ≡ false = ground (arith, h, e) in
            let none_left = matching-above k i l (omega (arith, h, same_bias j k e)) o.0 in
            rw (e, other, none_left) refl
        | inr e ↦ rw e (sym (append-nil (matching k ((i, u) ∷ l))))
      ])
]

-- Insertion of pairs one after another, with descents of at most `n` levels.
unfoldable pub insert_all : ℕ → Btree → List (ℕ × ℕ) → Option Btree
insert_all n t [] = some t
insert_all n t ((k, v) ∷ ps) = elim (btree_insert n t k v) [
  | none ↦ none
  | some u ↦ insert_all n u ps
]

abbrev one_leaf : List (ℕ × ℕ) → ℕ → Btree
one_leaf l c = record { pages = header ∷ leaf l none ∷ []; root = 1; nkeys = c }

btree_insert-one_leaf :
    (n k v : ℕ) (l : List (ℕ × ℕ)) (c : ℕ)
    → length l < leaf_max
    → btree_insert (suc n) (one_leaf l c) k v ≡ some (one_leaf (insert_after (k, v) l) (c + 1))
unfolding btree_insert do_insert leaf_ins store_leaf grow_root
btree_insert-one_leaf n k v l c h =
    let y : ltb (length l) 255 ≡ true = ground (arith, h) in rw y refl

scan_chain-none : (n : ℕ) (t : Btree) (lo hi : ℕ) → scan_chain n t lo hi none ≡ []
unfolding scan_chain
scan_chain-none zero t lo hi = refl
scan_chain-none (suc n) t lo hi = refl

matching-length : (k : ℕ) (l : List (ℕ × ℕ)) → length (matching k l) ≤ length l
unfolding matching
matching-length k [] = omega arith
matching-length k ((j, v) ∷ l) = elim (Bool-cases (bias j == bias k)) [
  | inl y ↦ rw y (omega (arith, matching-length k l))
  | inr n ↦ rw n (omega (arith, matching-length k l))
]

take_found :
    (n : ℕ) (a rest : List ℕ) (b : Bool)
    → rest ≡ []
    → length a ≤ n
    → take n (if b then a else a ++ rest) ≡ a
take_found n a rest true e h = take_all n a h
take_found n a rest false e h = rw e (ap (take n) (append-nil a) ∙ take_all n a h)

found_size : (k : ℕ) (l : List (ℕ × ℕ)) → IsOrdered l → length (scan_leaf k k l).0 ≤ length l
found_size k l o = rw (scan_leaf-matching k l o) (matching-length k l)

btree_lookup-one_leaf :
    (n k : ℕ) (l : List (ℕ × ℕ)) (c : ℕ)
    → length l ≤ leaf_max
    → IsOrdered l
    → (c == 0) ≡ false
    → btree_lookup (suc n) (one_leaf l c) k ≡ matching k l
unfolding btree_lookup btree_range find_leaf_ge scan_chain
btree_lookup-one_leaf n k l c h o z =
    rw z (
      take_found bt_max_offsets (scan_leaf k k l).0 (scan_chain n (one_leaf l c) k k none)
        (scan_leaf k k l).1 (scan_chain-none n (one_leaf l c) k k)
        (omega (arith, h, matching-length k l, found_size k l o)))
    ∙ scan_leaf-matching k l o

insert_all-step :
    (n k v : ℕ) (t u : Btree) (ps : List (ℕ × ℕ))
    → btree_insert n t k v ≡ some u
    → insert_all n t ((k, v) ∷ ps) ≡ insert_all n u ps
unfolding insert_all
insert_all-step n k v t u ps e = rw (e, insert_all) refl

unfoldable pub lookup_in : ℕ → ℕ → Option Btree → Option (List ℕ)
lookup_in n key none = none
lookup_in n key (some t) = some (btree_lookup n t key)

matching_one :
    (k j v : ℕ) (ps : List (ℕ × ℕ))
    → matching k ((j, v) ∷ ps) ≡ matching k ((j, v) ∷ []) ++ matching k ps
unfolding matching
matching_one k j v ps = elim (Bool-cases (bias j == bias k)) [
  | inl y ↦ rw y refl
  | inr n ↦ rw n refl
]

insert_all-one_leaf :
    (n m k : ℕ) (ps l : List (ℕ × ℕ)) (c : ℕ)
    → IsOrdered l
    → length l + length ps ≤ leaf_max
    → (c == 0) ≡ false
    → lookup_in (suc m) k (insert_all (suc n) (one_leaf l c) ps)
      ≡ some (matching k l ++ matching k ps)
unfolding insert_all lookup_in matching
insert_all-one_leaf n m k [] l c o h z =
    ap some (btree_lookup-one_leaf m k l c (omega (arith, h)) o z ∙ sym (append-nil (matching k l)))
insert_all-one_leaf n m k ((j, v) ∷ ps) l c o h z =
    let here = btree_insert-one_leaf n j v l c (omega (arith, h)) in
    let size = length-insert_after j v l in
    let ih =
      insert_all-one_leaf n m k ps (insert_after (j, v) l) (c + 1) (insert_after-IsOrdered j v l o)
        (omega (arith, size, h)) (ground (arith)) in
    ap (lookup_in (suc m) k) (insert_all-step (suc n) j v (one_leaf l c) _ ps here)
    ∙ ih
    ∙ ap some (
        ap (λ x. x ++ matching k ps) (matching-insert_after k j v l o)
        ∙ append_assoc (matching k l) (matching k ((j, v) ∷ [])) (matching k ps)
        ∙ ap (λ x. matching k l ++ x) (sym (matching_one k j v ps)))

-- Pairs of a key and an offset, 255 at most, put one after another into a new tree are all taken,
-- with any number of levels allowed, and `btree_lookup` of a key then gives the offsets that were
-- put in with that key, in the order in which they were put in.
pub btree_lookup-insert_all :
    (n m key : ℕ) (ps : List (ℕ × ℕ))
    → length ps ≤ leaf_max
    → lookup_in (suc m) key (insert_all (suc n) btree_create ps) ≡ some (matching key ps)
unfolding insert_all lookup_in matching btree_create btree_lookup btree_range insert_after
btree_lookup-insert_all n m key [] h = refl
btree_lookup-insert_all n m key ((j, v) ∷ ps) h =
    let here = btree_insert-one_leaf n j v [] 0 (omega arith) in
    ap (lookup_in (suc m) key) (insert_all-step (suc n) j v (one_leaf [] 0) _ ps here)
    ∙ insert_all-one_leaf n m key ps ((j, v) ∷ []) 1 (tt, tt) (omega (arith, h)) refl
    ∙ ap some (sym (matching_one key j v ps))
