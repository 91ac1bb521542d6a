-- ===== src/Core/Arena/Tests.antt =====
-- Runs of lib/core/arena.c and instances of what is proved of it.
use napastak.Base.{ℕ, ◌-◌, ◌^◌, ◌≡◌, refl, none, some, [], ◌∷◌, arith}
use napastak.Core.Arena.{
  ArenaBlock, Arena, align_up, aligned_offset, rounded, new_cap, fits, bump, bumped_address,
  alloc_rounded, arena_alloc, arena_mark, arena_restore, arena_reset, bottom,
}
use napastak.Core.Arena.Bounds.{IsSound, Allocated, fresh, arena_alloc-Allocated}
use napastak.Core.Arena.Restore.{alloc_all, arena_restore-arena_mark}

-- A header of 24 bytes at a multiple of 16 puts `data` at 8 more than one.
abbrev first : ArenaBlock
first = record { base = 1000024; cap = 100; used = 40 }

abbrev small : Arena
small = record { blocks = first ∷ []; total_allocated = 40; total_wasted = 0 }

-- The ten bytes begin at the next multiple of 16, 1000064, and take sixteen.
in_place : arena_alloc none small 10 ≡ (
  record {
    blocks = record { base = 1000024; cap = 100; used = 56 } ∷ [];
    total_allocated = 56;
    total_wasted = 0;
  },
  some 1000064,
)
unfolding arena_alloc rounded align_up alloc_rounded fits aligned_offset bump bumped_address
in_place = refl

-- A size that is rounded past the last address is taken for 0.
too_large : (arena_alloc none small (2 ^ 64 - 1)).1 ≡ some 1000064
unfolding arena_alloc rounded align_up alloc_rounded fits aligned_offset bump bumped_address
too_large = refl

first-IsSound : IsSound first
first-IsSound = record { space = omega arith; filled = omega arith; small = omega arith }

fresh-IsSound : IsSound (fresh 2000024 small 70 (omega arith))
unfolding rounded align_up new_cap
fresh-IsSound = record { space = omega arith; filled = omega arith; small = omega arith }

arena_alloc-Allocated_example :
    (p : ℕ) × ((arena_alloc (some 2000024) small 70).1 ≡ some p)
    × Allocated small.blocks (arena_alloc (some 2000024) small 70).0.blocks 70 p
arena_alloc-Allocated_example =
    arena_alloc-Allocated 2000024 small 70 (omega arith) (first-IsSound, tt) fresh-IsSound

arena_restore-arena_mark_example :
    (arena_restore
      (alloc_all ((none, 8) ∷ (some 2000024, 70) ∷ []) small)
      (arena_mark small)).blocks
    ≡ first ∷ []
arena_restore-arena_mark_example =
    arena_restore-arena_mark ((none, 8) ∷ (some 2000024, 70) ∷ []) small first [] refl
      ((λ e. absurd (cc)), ((λ e. absurd (ground (arith, e))), tt))

reset_small : (arena_reset small).blocks ≡ record { base = 1000024; cap = 100; used = 0 } ∷ []
unfolding arena_reset bottom
reset_small = refl
