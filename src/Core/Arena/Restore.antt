-- ===== src/Core/Arena/Restore.antt =====
-- Going back to a mark of lib/core/arena.c after any allocations.
use napastak.Base.{
  ℕ, ◌≡◌, ◌≢◌, inl, inr, refl, ap, false, Option, none, some, List, [], ◌∷◌, ◌++◌, arith, All, ◌==◌,
  Bool-cases, ==_refl,
}
use napastak.Core.Arena.{
  ArenaBlock, Arena, block_new, rounded, fits, bump, new_cap, alloc_new, alloc_rounded, arena_alloc,
  mark_of, restored, arena_mark, arena_restore,
}

-- Requests, each with what `malloc` would answer for it.
unfoldable pub alloc_all : List (Option ℕ × ℕ) → Arena → Arena
unfolding arena_alloc
alloc_all [] a = a
alloc_all ((malloc, sz) ∷ rs) a = alloc_all rs (arena_alloc malloc a sz).0

-- `malloc` does not answer with the address of the block of the mark.
abbrev pub Elsewhere : ℕ → Option ℕ × ℕ → Type 0
Elsewhere base r = r.0 ≢ some base

-- The chain is the block of the mark, filled further, under blocks that are none of its address.
pub record IsAbove (b : ArenaBlock) (bs : List ArenaBlock) (now : List ArenaBlock) : Type 0 where
  pub above : List ArenaBlock
  pub used : ℕ
  pub shape : now ≡ above ++ record b { used = used } ∷ bs
  pub apart : All (λ (c : ArenaBlock). c.base ≢ b.base) above

restored-above :
    (b : ArenaBlock) (bs above : List ArenaBlock) (used : ℕ)
    → All (λ (c : ArenaBlock). c.base ≢ b.base) above
    → restored (mark_of (b ∷ bs)) (above ++ record b { used = used } ∷ bs) ≡ b ∷ bs
unfolding restored
restored-above b bs [] used h = rw (==_refl b.base) refl
restored-above b bs (c ∷ above) used h =
    let ih = restored-above b bs above used h.1 in
    let other : (c.base == b.base) ≡ false = ground (arith, h.0) in rw other ih

-- A block that is filled further keeps its place.
IsAbove-bump :
    (b : ArenaBlock) (bs : List ArenaBlock) (c : ArenaBlock) (cs : List ArenaBlock) (sz : ℕ)
    (above : List ArenaBlock) (used : ℕ)
    → c ∷ cs ≡ above ++ record b { used = used } ∷ bs
    → All (λ (d : ArenaBlock). d.base ≢ b.base) above
    → IsAbove b bs (bump c sz ∷ cs)
unfolding bump
IsAbove-bump b bs c cs sz [] used e h =
    let same_block : c ≡ record b { used = used } = cc in
    let same_rest : cs ≡ bs = cc in
    record {
      above = [];
      used = (bump c sz).used;
      shape = rw (same_rest, same_block) refl;
      apart = tt;
    }
IsAbove-bump b bs c cs sz (d ∷ above) used e h =
    let same_block : c ≡ d = cc in
    let same_rest : cs ≡ above ++ record b { used = used } ∷ bs = cc in
    record {
      above = bump c sz ∷ above;
      used = used;
      shape = rw same_rest refl;
      apart = (rw same_block h.0, h.1);
    }

module _ (a : Arena) (sz : ℕ) (b : ArenaBlock) (bs : List ArenaBlock) where
  IsAbove-new :
      (malloc : Option ℕ)
      → malloc ≢ some b.base
      → IsAbove b bs a.blocks
      → IsAbove b bs (alloc_new malloc a sz).0.blocks
  unfolding alloc_new block_new bump
  IsAbove-new none e h = h
  IsAbove-new (some base) e h = record {
    above = bump (record { base = base; cap = new_cap sz; used = 0 }) sz ∷ h.above;
    used = h.used;
    shape = rw h.shape refl;
    apart = ((λ q. e (ap some q)), h.apart);
  }

  IsAbove-rounded :
      (malloc : Option ℕ) (now : List ArenaBlock)
      → malloc ≢ some b.base
      → a.blocks ≡ now
      → IsAbove b bs now
      → IsAbove b bs (alloc_rounded malloc a now sz).0.blocks
  unfolding alloc_rounded
  IsAbove-rounded malloc [] e s h = IsAbove-new malloc e (rw s h)
  IsAbove-rounded malloc (c ∷ cs) e s h = elim (Bool-cases (fits c sz)) [
    | inl y ↦ rw y (IsAbove-bump b bs c cs sz h.above h.used h.shape h.apart)
    | inr n ↦ rw n (IsAbove-new malloc e (rw s h))
  ]

IsAbove-alloc_all :
    (rs : List (Option ℕ × ℕ)) (a : Arena) (b : ArenaBlock) (bs : List ArenaBlock)
    → All (Elsewhere b.base) rs
    → IsAbove b bs a.blocks
    → IsAbove b bs (alloc_all rs a).blocks
unfolding alloc_all arena_alloc
IsAbove-alloc_all [] a b bs e h = h
IsAbove-alloc_all ((malloc, sz) ∷ rs) a b bs e h =
    IsAbove-alloc_all rs (arena_alloc malloc a sz).0 b bs e.1
      (IsAbove-rounded a (rounded sz) b bs malloc a.blocks e.0 refl h)

-- Where `malloc` never answers with the address of the block that was on top, going back to a mark
-- gives the blocks that were there when it was taken, each filled as it was, whatever was allocated
-- since.
pub arena_restore-arena_mark :
    (rs : List (Option ℕ × ℕ)) (a : Arena) (b : ArenaBlock) (bs : List ArenaBlock)
    → a.blocks ≡ b ∷ bs
    → All (Elsewhere b.base) rs
    → (arena_restore (alloc_all rs a) (arena_mark a)).blocks ≡ a.blocks
unfolding arena_restore arena_mark
arena_restore-arena_mark rs a b bs s e =
    let start : IsAbove b bs a.blocks = record {
      above = [];
      used = b.used;
      shape = s;
      apart = tt;
    } in
    let h = IsAbove-alloc_all rs a b bs e start in
    rw (h.shape, s) (restored-above b bs h.above h.used h.apart)
