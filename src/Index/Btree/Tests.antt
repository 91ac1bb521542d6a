-- ===== src/Index/Btree/Tests.antt =====
-- Runs of the tree of lib/index/btree.c.
use napastak.Base.{ℕ, replicate, ◌≡◌, refl, some, List, [], ◌∷◌, ◌++◌, arith}
use napastak.Index.Btree.{kept, int_ins, btree_create, btree_insert, btree_lookup}
use napastak.Index.Btree.Order.{matching}
use napastak.Index.Btree.Leaf.{insert_all, lookup_in, btree_lookup-insert_all}

abbrev some_pairs : List (ℕ × ℕ)
some_pairs = (5, 10) ∷ (18446744073709551615, 20) ∷ (5, 30) ∷ (2, 40) ∷ (5, 50) ∷ []

btree_lookup-insert_all_example :
    lookup_in 1 5 (insert_all 1 btree_create some_pairs) ≡ some (matching 5 some_pairs)
btree_lookup-insert_all_example = btree_lookup-insert_all 0 0 5 some_pairs (omega arith)

found : lookup_in 1 5 (insert_all 1 btree_create some_pairs) ≡ some (10 ∷ 30 ∷ 50 ∷ [])
unfolding lookup_in insert_all btree_create btree_lookup btree_insert
found = refl

abbrev ordered_leaf : List (ℕ × ℕ)
ordered_leaf = (3, 1) ∷ (4, 2) ∷ (9, 3) ∷ []

-- A child that splits at a key equal to the one behind it: the new child, which stands between the
-- two in the chain of the leaves, comes behind both.
equal_separators : int_ins 7 4 ((7, 3) ∷ []) ≡ kept ((7, 3) ∷ (7, 4) ∷ [])
unfolding int_ins
equal_separators = refl

-- The insertions that lead there: 256 entries of one key, 128 of a lesser one and one of a greater.
abbrev lossy : List (ℕ × ℕ)
lossy = replicate 256 (7, 70) ++ replicate 128 (3, 30) ++ (9, 90) ∷ []

-- Of the 256 entries of the key, the lookup finds the 128 before the greater one.
lost_offsets : lookup_in 5 7 (insert_all 5 btree_create lossy) ≡ some (replicate 128 70)
unfolding lookup_in insert_all btree_create btree_lookup btree_insert
lost_offsets = refl
