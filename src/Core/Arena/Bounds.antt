-- ===== src/Core/Arena/Bounds.antt =====
-- What `arena_alloc` of lib/core/arena.c gives: where it lies, and what it leaves alone.
use napastak.Base.{
  ℕ, ◌+◌, ◌-◌, ◌*◌, ◌%◌, ◌^◌, ◌≤◌, ◌<◌, ◌≡◌, ◌⊎◌, inl, inr, refl, true, some, List, [], ◌∷◌, arith,
  All, ltb, ◌==◌, Bool-cases, ==_iff, leb→le,
}
use napastak.Core.Arena.{
  ArenaBlock, Arena, align_up, block_new, aligned_offset, rounded, new_cap, fits, bump,
  bumped_address, alloc_new, alloc_rounded, arena_alloc, arena_default_block,
}

-- A block that lies in the address space, with a margin of one alignment, of at most half its size,
-- and filled up to `used`.
pub record IsSound (b : ArenaBlock) : Type 0 where
  pub space : b.base + b.cap + 16 ≤ 2 ^ 64
  pub filled : b.used ≤ b.cap
  pub small : b.cap ≤ 2 ^ 63

align_up-bounds :
    (n : ℕ) → n + 15 < 2 ^ 64 → (n ≤ align_up n) × (align_up n ≤ n + 15) × (align_up n % 16 ≡ 0)
unfolding align_up
align_up-bounds n h = (omega arith, omega arith, omega arith)

rounded-bounds : (sz : ℕ) → sz ≤ 2 ^ 61 → (sz ≤ rounded sz) × (rounded sz ≤ sz + 16)
unfolding rounded
rounded-bounds sz h = elim (Bool-cases (sz == 0)) [
  | inl y ↦ rw y (
      let (a, b, c) = align_up-bounds 1 (omega arith) in
      (omega (arith, a, (==_iff sz 0).0 y), omega (arith, b)))
  | inr n ↦ rw n (let (a, b, c) = align_up-bounds sz (omega (arith, h)) in (a, omega (arith, b)))
]

wrapped : (base n : ℕ) → base ≤ n → n % 16 ≡ 0 → (base + (n - base)) % 16 ≡ 0
wrapped base n h e = omega (arith, h, e)

aligned_offset-bounds :
    (b : ArenaBlock)
    → IsSound b
    → (b.used ≤ aligned_offset b)
      × (aligned_offset b ≤ b.used + 15)
      × ((b.base + aligned_offset b) % 16 ≡ 0)
unfolding aligned_offset
aligned_offset-bounds b h =
    let small : (b.base + b.used) % 2 ^ 64 ≡ b.base + b.used = omega (arith, h.space, h.filled) in
    let (x, y, z) = align_up-bounds (b.base + b.used) (omega (arith, h.space, h.filled)) in
    let offset : (align_up (b.base + b.used) + 2 ^ 64 - b.base) % 2 ^ 64
        ≡ align_up (b.base + b.used) - b.base =
      omega (arith, x, y, h.space, h.filled) in
    rw (small, offset)
      (
        omega (arith, x),
        omega (arith, y),
        wrapped b.base (align_up (b.base + b.used)) (omega (arith, x)) z,
      )

-- A size that is taken from a block.
bump-bounds :
    (b : ArenaBlock) (sz : ℕ)
    → IsSound b
    → aligned_offset b + sz ≤ b.cap
    → (bumped_address b % 16 ≡ 0)
      × (b.base + b.used ≤ bumped_address b)
      × (bumped_address b + sz ≤ b.base + (bump b sz).used)
      × ((bump b sz).used ≤ b.cap)
unfolding bump bumped_address
bump-bounds b sz h f =
    let (x, y, z) = aligned_offset-bounds b h in
    let address : (b.base + aligned_offset b) % 2 ^ 64 ≡ b.base + aligned_offset b =
      omega (arith, h.space, f) in
    let offset : (aligned_offset b + sz) % 2 ^ 64 ≡ aligned_offset b + sz =
      omega (arith, h.space, f) in
    rw (address, offset) (z, omega (arith, x), omega arith, f)

fits_iff :
    (b : ArenaBlock) (sz : ℕ)
    → IsSound b
    → sz ≤ 2 ^ 62
    → fits b sz ≡ true
    → aligned_offset b + sz ≤ b.cap
unfolding fits
fits_iff b sz h l y =
    let (a, c, d) = aligned_offset-bounds b h in
    let e : (aligned_offset b + sz) % 2 ^ 64 ≡ aligned_offset b + sz =
      omega (arith, c, h.filled, h.small, l) in
    let f : (aligned_offset b + sz) % 2 ^ 64 ≤ b.cap =
      leb→le ((aligned_offset b + sz) % 2 ^ 64) b.cap y in
    omega (arith, e, f)

new_cap-bounds : (sz : ℕ) → sz ≤ 2 ^ 62 → (sz + 16 ≤ new_cap sz) × (new_cap sz ≤ 2 * sz + 65552)
unfolding new_cap
new_cap-bounds sz h = elim (Bool-cases (ltb arena_default_block sz)) [
  | inl y ↦ rw y (omega arith, omega arith)
  | inr n ↦ rw n (ground arith)
]

-- `sz` bytes at the address `p`, in the top block: aligned, inside what is in use, and either behind
-- what was in use before of the same block, or in a block of their own.
pub record Allocated (old new : List ArenaBlock) (sz p : ℕ) : Type 0 where
  pub top : ArenaBlock
  pub rest : List ArenaBlock
  pub shape : new ≡ top ∷ rest
  pub aligned : p % 16 ≡ 0
  pub inside : (top.base ≤ p) × (p + sz ≤ top.base + top.used) × (top.used ≤ top.cap)
  pub apart :
      ((b : ArenaBlock) × (old ≡ b ∷ rest)
        × (top ≡ record b { used = top.used })
        × (b.base + b.used ≤ p))
      ⊎ (rest ≡ old)

module _ (base : ℕ) (a : Arena) (sz : ℕ) (l : sz ≤ 2 ^ 61) where
  abbrev pub fresh : ArenaBlock
  fresh = record { base = base; cap = new_cap (rounded sz); used = 0 }

  Allocated-new :
      IsSound fresh
      → (p : ℕ) × ((alloc_new (some base) a (rounded sz)).1 ≡ some p)
        × Allocated a.blocks (alloc_new (some base) a (rounded sz)).0.blocks sz p
  unfolding alloc_new block_new bump
  Allocated-new h =
      let (x, y) = rounded-bounds sz l in
      let (u, v) = new_cap-bounds (rounded sz) (omega (arith, y, l)) in
      let (q, r, t) = aligned_offset-bounds fresh h in
      let (c, d, e, f) = bump-bounds fresh (rounded sz) h (omega (arith, u, r)) in
      (
        bumped_address fresh,
        refl,
        record {
          top = bump fresh (rounded sz);
          rest = a.blocks;
          shape = refl;
          aligned = c;
          inside = (omega (arith, d), omega (arith, x, e), f);
          apart = inr refl;
        },
      )

  Allocated-bump :
      (b : ArenaBlock) (bs : List ArenaBlock)
      → IsSound b
      → a.blocks ≡ b ∷ bs
      → fits b (rounded sz) ≡ true
      → Allocated a.blocks (bump b (rounded sz) ∷ bs) sz (bumped_address b)
  unfolding bump
  Allocated-bump b bs h s y =
      let (x, z) = rounded-bounds sz l in
      let (c, d, e, f) =
        bump-bounds b (rounded sz) h (fits_iff b (rounded sz) h (omega (arith, z, l)) y) in
      record {
        top = bump b (rounded sz);
        rest = bs;
        shape = refl;
        aligned = c;
        inside = (omega (arith, d), omega (arith, x, e), f);
        apart = inl (b, s, refl, d);
      }

  alloc-blocks :
      (bs : List ArenaBlock)
      → a.blocks ≡ bs
      → All IsSound bs
      → IsSound fresh
      → (p : ℕ) × ((alloc_rounded (some base) a bs (rounded sz)).1 ≡ some p)
        × Allocated a.blocks (alloc_rounded (some base) a bs (rounded sz)).0.blocks sz p
  unfolding alloc_rounded
  alloc-blocks [] s h f = Allocated-new f
  alloc-blocks (b ∷ bs) s h f = elim (Bool-cases (fits b (rounded sz))) [
    | inr n ↦ rw n (Allocated-new f)
    | inl y ↦ rw y (bumped_address b, refl, Allocated-bump b bs h.0 s y)
  ]

  -- Where all blocks are sound, and so is the one that `malloc` would give, a request of up to 2 ^ 61
  -- bytes gets an address that is a multiple of 16 and from which on that many bytes lie in what is in
  -- use of the top block. They begin behind what was in use of this block before, with the blocks
  -- below unchanged, or the block is new and all others are as they were.
  pub arena_alloc-Allocated :
      All IsSound a.blocks
      → IsSound fresh
      → (p : ℕ) × ((arena_alloc (some base) a sz).1 ≡ some p)
        × Allocated a.blocks (arena_alloc (some base) a sz).0.blocks sz p
  unfolding arena_alloc
  arena_alloc-Allocated h f = alloc-blocks a.blocks refl h f
