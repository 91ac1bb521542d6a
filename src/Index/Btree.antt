-- ===== src/Index/Btree.antt =====
-- The B+ tree of lib/index/btree.c. A page is a value, and the file is the list of its pages, the
-- header at place 0; reading and writing a page do not fail. A key is the bit pattern of an
-- `int64_t`, compared as one.
pub mod Order
pub mod Halves
pub mod Leaf
pub mod Tests
use napastak.Base.{
  ℕ, zero, suc, ◌+◌, ◌*◌, ◌/◌, ◌≤◌, ◌<◌, Bool, true, false, not, ◌&&◌, Option, none, some, List, [],
  ◌∷◌, ◌++◌, map, ltb, leb, ◌==◌, if◌then◌else◌, length, take, drop, get_elem?, set,
}
use napastak.Storage.Compress.Sort.{bias}

abbrev pub leaf_max : ℕ
leaf_max = 255

abbrev pub int_max : ℕ
int_max = 340

abbrev pub bt_max_offsets : ℕ
bt_max_offsets = 131072

-- A leaf has its entries (a key and an offset) and the number of the next leaf; an internal page has
-- its first child, and each key with the child after it.
pub data Page : Type 0 where
  header : Page
  leaf : List (ℕ × ℕ) → Option ℕ → Page
  internal : ℕ → List (ℕ × ℕ) → Page

pub record Btree : Type 0 where
  pub pages : List Page
  pub root : ℕ
  pub nkeys : ℕ

unfoldable pub key_le : ℕ → ℕ → Bool
key_le a b = leb (bias a) (bias b)

-- A key with what belongs to it goes behind all keys that are not greater.
unfoldable pub insert_after : ℕ × ℕ → List (ℕ × ℕ) → List (ℕ × ℕ)
unfolding key_le
insert_after e [] = e ∷ []
insert_after (k, v) ((j, u) ∷ l) =
    let rest = insert_after (k, v) l in if key_le j k then (j, u) ∷ rest else (k, v) ∷ (j, u) ∷ l

-- What becomes of the content of a page: it stays one, or is split at a key.
pub data Split : Type 0 where
  kept : List (ℕ × ℕ) → Split
  halves : List (ℕ × ℕ) → ℕ × ℕ → List (ℕ × ℕ) → Split

unfoldable pub behind : ℕ × ℕ → Split → Split
behind e (kept r) = kept (e ∷ r)
behind e (halves a m b) = halves (e ∷ a) m b

-- The entry at which a list is cut, with what comes before and after it.
unfoldable pub cut : ℕ → List (ℕ × ℕ) → Split
unfolding behind
cut n [] = kept []
cut zero (e ∷ l) = halves [] e l
cut (suc n) (e ∷ l) = behind e (cut n l)

-- The entries of a leaf; the key of a split is that of the first entry on the right.
unfoldable pub leaf_ins : ℕ → ℕ → List (ℕ × ℕ) → Split
unfolding insert_after cut
leaf_ins key off l =
    if ltb (length l) leaf_max
    then kept (insert_after (key, off) l)
    else cut ((leaf_max + 1) / 2) (insert_after (key, off) l)

-- The keys of an internal page; the middle one moves up, and its child is the first on the right.
unfoldable pub int_ins : ℕ → ℕ → List (ℕ × ℕ) → Split
unfolding insert_after cut
int_ins key rc l =
    if ltb (length l) int_max
    then kept (insert_after (key, rc) l)
    else cut ((length l + 1) / 2) (insert_after (key, rc) l)

abbrev pub write : Btree → ℕ → Page → Btree
write t pg p = record t { pages = set t.pages pg p }

-- `alloc_pg` and the write of the new page.
abbrev pub add_page : Btree → Page → Btree
add_page t p = record t { pages = t.pages ++ p ∷ [] }

-- A key and a page that the page above has to take in, or none.
abbrev pub Up : Type 0
Up = Option (ℕ × ℕ)

unfoldable pub store_leaf : Btree → ℕ → Option ℕ → Split → Btree × Up
store_leaf t pg next (kept l) = (write t pg (leaf l next), none)
store_leaf t pg next (halves a (k, v) b) =
    let rno = length t.pages in
    (write (add_page t (leaf ((k, v) ∷ b) next)) pg (leaf a (some rno)), some (k, rno))

unfoldable pub store_internal : Btree → ℕ → ℕ → Split → Btree × Up
store_internal t pg first (kept l) = (write t pg (internal first l), none)
store_internal t pg first (halves a (k, c) b) =
    let rno = length t.pages in
    (add_page (write t pg (internal first a)) (internal c b), some (k, rno))

-- The child for a key on the way down: behind all keys that are not greater.
unfoldable pub child_for : ℕ → ℕ → List (ℕ × ℕ) → ℕ
unfolding key_le
child_for key c [] = c
child_for key c ((j, d) ∷ l) = let rest = child_for key d l in if key_le j key then rest else c

-- With the key of the child's split into the page, which is read again.
unfoldable pub after_child : ℕ → Btree × Up → Option (Btree × Up)
unfolding int_ins store_internal
after_child pg (t, none) = some (t, none)
after_child pg (t, some (k, rc)) = elim (get_elem? t.pages pg) [
  | some (internal first l) ↦ some (store_internal t pg first (int_ins k rc l))
  | _ ↦ none
]

-- Down at most `n` levels; `none` where the tree is deeper, or a number is not that of a page.
unfoldable pub do_insert : ℕ → Btree → ℕ → ℕ → ℕ → Option (Btree × Up)
unfolding leaf_ins store_leaf child_for after_child
do_insert zero t pg key off = none
do_insert (suc n) t pg key off = elim (get_elem? t.pages pg) [
  | none ↦ none
  | some header ↦ none
  | some (leaf l next) ↦ some (store_leaf t pg next (leaf_ins key off l))
  | some (internal first l) ↦ elim (do_insert n t (child_for key first l) key off) [
    | none ↦ none
    | some r ↦ after_child pg r
  ]
]

abbrev pub one_more : Btree → Btree
one_more t = record t { nkeys = t.nkeys + 1 }

unfoldable pub grow_root : Btree × Up → Btree
grow_root (t, none) = one_more t
grow_root (t, some (k, rno)) =
    one_more (record (add_page t (internal t.root ((k, rno) ∷ []))) { root = length t.pages })

unfoldable pub btree_insert : ℕ → Btree → ℕ → ℕ → Option Btree
unfolding do_insert grow_root
btree_insert n t key off = elim (do_insert n t t.root key off) [
  | none ↦ none
  | some r ↦ some (grow_root r)
]

-- The child for a search: behind all keys that are less.
unfoldable pub child_ge : ℕ → ℕ → List (ℕ × ℕ) → ℕ
unfolding key_le
child_ge target c [] = c
child_ge target c ((j, d) ∷ l) =
    let rest = child_ge target d l in if not (key_le target j) then rest else c

unfoldable pub find_leaf_ge : ℕ → Btree → ℕ → ℕ → Option ℕ
unfolding child_ge
find_leaf_ge zero t pg target = none
find_leaf_ge (suc n) t pg target = elim (get_elem? t.pages pg) [
  | none ↦ none
  | some header ↦ none
  | some (leaf l next) ↦ some pg
  | some (internal first l) ↦ find_leaf_ge n t (child_ge target first l) target
]

-- The entries of a leaf from `lo` on up to the first above `hi`, and whether there was one.
unfoldable pub scan_leaf : ℕ → ℕ → List (ℕ × ℕ) → List ℕ × Bool
unfolding key_le
scan_leaf lo hi [] = ([], false)
scan_leaf lo hi ((k, v) ∷ l) =
    let (a, stop) = scan_leaf lo hi l in
    if not (key_le k hi) then ([], true) else if key_le lo k then (v ∷ a, stop) else (a, stop)

-- Along the chain of at most `n` leaves.
unfoldable pub scan_chain : ℕ → Btree → ℕ → ℕ → Option ℕ → List ℕ
unfolding scan_leaf
scan_chain zero t lo hi pg = []
scan_chain (suc n) t lo hi none = []
scan_chain (suc n) t lo hi (some pg) = elim (get_elem? t.pages pg) [
  | some (leaf l next) ↦
      let (a, stop) = scan_leaf lo hi l in
      let rest = scan_chain n t lo hi next in if stop then a else a ++ rest
  | _ ↦ []
]

-- The buffer takes `bt_max_offsets` offsets.
unfoldable pub btree_range : ℕ → Btree → ℕ → ℕ → List ℕ
unfolding find_leaf_ge scan_chain
btree_range n t lo hi = if t.nkeys == 0 then [] else elim (find_leaf_ge n t t.root lo) [
  | none ↦ []
  | some pg ↦ take bt_max_offsets (scan_chain n t lo hi (some pg))
]

unfoldable pub btree_lookup : ℕ → Btree → ℕ → List ℕ
unfolding btree_range
btree_lookup n t key = btree_range n t key key

unfoldable pub btree_create : Btree
btree_create = record { pages = header ∷ leaf [] none ∷ []; root = 1; nkeys = 0 }
