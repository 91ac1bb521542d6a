-- ===== src/Core/Arena.antt =====
-- The arena of lib/core/arena.c. An address and a `size_t` are numbers below 2 ^ 64, with their
-- wrap-around; what is stored in the memory is not part of it.
pub mod Bounds
pub mod Restore
mod Tests
use napastak.Base.{
  ℕ, zero, suc, ◌+◌, ◌-◌, ◌*◌, ◌/◌, ◌%◌, ◌^◌, ◌≤◌, ◌<◌, Bool, true, false, not, ◌&&◌, Option, none,
  some, List, [], ◌∷◌, ltb, leb, ◌==◌, if◌then◌else◌,
}

abbrev pub arena_default_block : ℕ
arena_default_block = 65536

abbrev pub arena_align : ℕ
arena_align = 16

-- `base` is the address of `data`; it names the block.
pub record ArenaBlock : Type 0 where
  pub base : ℕ
  pub cap : ℕ
  pub used : ℕ

-- The blocks from the top down by `prev`.
pub record Arena : Type 0 where
  pub blocks : List ArenaBlock
  pub total_allocated : ℕ
  pub total_wasted : ℕ

-- `& ~(a - 1)` for the one alignment that is used.
unfoldable pub align_up : ℕ → ℕ
align_up n = (n + (arena_align - 1)) % 2 ^ 64 / arena_align * arena_align

-- What `malloc` answers: the address of the block's `data`, or null.
unfoldable pub block_new : Option ℕ → ℕ → Option ArenaBlock
block_new none cap = none
block_new (some base) cap = some (record { base = base; cap = cap; used = 0 })

unfoldable pub arena_create : Option ℕ → ℕ → Option Arena
unfolding block_new
arena_create malloc sz = elim (block_new malloc (if sz == 0 then arena_default_block else sz)) [
  | none ↦ none
  | some b ↦ some (record { blocks = b ∷ []; total_allocated = 0; total_wasted = 0 })
]

-- The offset in a block of the next address that is aligned.
unfoldable pub aligned_offset : ArenaBlock → ℕ
unfolding align_up
aligned_offset b = (align_up ((b.base + b.used) % 2 ^ 64) + 2 ^ 64 - b.base) % 2 ^ 64

-- The size that is taken for `sz` bytes.
unfoldable pub rounded : ℕ → ℕ
unfolding align_up
rounded sz = align_up (if sz == 0 then 1 else sz)

-- The capacity of a block for `sz` bytes, which are rounded already.
unfoldable pub new_cap : ℕ → ℕ
new_cap sz =
    ((if ltb arena_default_block sz then sz * 2 % 2 ^ 64 else arena_default_block) + arena_align)
    % 2 ^ 64

unfoldable pub fits : ArenaBlock → ℕ → Bool
unfolding aligned_offset
fits b sz = leb ((aligned_offset b + sz) % 2 ^ 64) b.cap

-- `sz` bytes of the block, from `aligned_offset` on.
unfoldable pub bump : ArenaBlock → ℕ → ArenaBlock
unfolding aligned_offset
bump b sz = record b { used = (aligned_offset b + sz) % 2 ^ 64 }

unfoldable pub bumped_address : ArenaBlock → ℕ
unfolding aligned_offset
bumped_address b = (b.base + aligned_offset b) % 2 ^ 64

abbrev pub wasted : List ArenaBlock → ℕ
wasted [] = 0
wasted (b ∷ bs) = (b.cap + 2 ^ 64 - b.used) % 2 ^ 64

-- The slow path of `arena_alloc`, for a size that is rounded; the loss is counted even where
-- `malloc` gives nothing.
unfoldable pub alloc_new : Option ℕ → Arena → ℕ → Arena × Option ℕ
unfolding block_new new_cap bump bumped_address
alloc_new malloc a sz =
    let lost = (a.total_wasted + wasted a.blocks) % 2 ^ 64 in
    elim (block_new malloc (new_cap sz)) [
      | none ↦ (record a { total_wasted = lost }, none)
      | some b ↦ (
        record {
          blocks = bump b sz ∷ a.blocks;
          total_allocated = (a.total_allocated + sz) % 2 ^ 64;
          total_wasted = lost;
        },
        some (bumped_address b),
      )
    ]

unfoldable pub alloc_rounded : Option ℕ → Arena → List ArenaBlock → ℕ → Arena × Option ℕ
unfolding fits bump bumped_address alloc_new
alloc_rounded malloc a [] sz = alloc_new malloc a sz
alloc_rounded malloc a (b ∷ bs) sz =
    if fits b sz
    then (
      record a { blocks = bump b sz ∷ bs; total_allocated = (a.total_allocated + sz) % 2 ^ 64 },
      some (bumped_address b),
    )
    else alloc_new malloc a sz

unfoldable pub arena_alloc : Option ℕ → Arena → ℕ → Arena × Option ℕ
unfolding rounded alloc_rounded
arena_alloc malloc a sz = alloc_rounded malloc a a.blocks (rounded sz)

-- The first block of the arena, at the bottom of the chain.
unfoldable pub bottom : List ArenaBlock → List ArenaBlock
bottom [] = []
bottom (b ∷ []) = record b { used = 0 } ∷ []
bottom (b ∷ c ∷ bs) = bottom (c ∷ bs)

unfoldable pub arena_reset : Arena → Arena
unfolding bottom
arena_reset a = record { blocks = bottom a.blocks; total_allocated = 0; total_wasted = 0 }

-- A null `block` is `none`.
pub record ArenaMark : Type 0 where
  pub block : Option ℕ
  pub used : ℕ

abbrev pub mark_of : List ArenaBlock → ArenaMark
mark_of [] = record { block = none; used = 0 }
mark_of (b ∷ bs) = record { block = some b.base; used = b.used }

unfoldable pub arena_mark : Arena → ArenaMark
arena_mark a = mark_of a.blocks

abbrev pub is_at : Option ℕ → ArenaBlock → Bool
is_at none b = false
is_at (some base) b = b.base == base

-- The blocks above the mark's are freed; where it is not in the chain, all are.
unfoldable pub restored : ArenaMark → List ArenaBlock → List ArenaBlock
restored m [] = []
restored m (b ∷ bs) =
    let rest = restored m bs in if is_at m.block b then record b { used = m.used } ∷ bs else rest

unfoldable pub arena_restore : Arena → ArenaMark → Arena
unfolding restored
arena_restore a m = record a { blocks = restored m a.blocks }
