-- ===== src/Cache/Allocator/Sizing.antt =====
-- `blocks_needed` of edgerag/cache/allocator.py: the rounding that the block tables rest on.
use edgerag.Prelude.{ℕ, ◌+◌, ◌<◌, ◌-◌, ◌≤◌, ◌/◌, ◌*◌, arith, pos, ◌≡◌, ok, ◌↔◌, refl}
use edgerag.Cache.Allocator.{blocks_needed, Allocator}

-- The number of blocks that the code computes.
abbrev pub ceil_blocks : ℕ → ℕ → ℕ
ceil_blocks n size = (n + size - 1) / size

pub ceil_blocks_upper : (n size : ℕ) → 0 < size → n ≤ ceil_blocks n size * size
ceil_blocks_upper n size h = grind arith

pub ceil_blocks_least : (n size k : ℕ) → 0 < size → n ≤ k * size → ceil_blocks n size ≤ k
ceil_blocks_least n size k h l = grind arith

pub ceil_blocks_lower : (n size : ℕ) → 0 < size → ceil_blocks n size * size < n + size
ceil_blocks_lower n size h = grind arith

pub ceil_blocks_mono : (m n size : ℕ) → m ≤ n → ceil_blocks m size ≤ ceil_blocks n size
ceil_blocks_mono m n size h = grind arith

-- `blocks_needed(n)` is the least number of blocks that hold `n` tokens: it returns normally, and a
-- number of blocks has room for `n` tokens exactly if it is no smaller than the result.
pub blocks_needed_least :
    (a : Allocator) (n : ℕ)
    → 0 < a.block_size
    → (m : ℕ) × (blocks_needed (pos n) a ≡ ok m) × ((k : ℕ) → (n ≤ k * a.block_size) ↔ (m ≤ k))
unfolding blocks_needed
blocks_needed_least a n h = (
  ceil_blocks n a.block_size,
  refl,
  λ k. (
    ceil_blocks_least n a.block_size k h,
    λ l. grind (arith, ceil_blocks_upper n a.block_size h),
  ),
)
