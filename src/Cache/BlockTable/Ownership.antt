-- ===== src/Cache/BlockTable/Ownership.antt =====
-- Who holds the blocks of the pool, seen from one table.
use edgerag.Cache.Allocator.{refs, Stats}
use edgerag.Cache.Allocator.Invariant.{IsWellFormed, IsWellFormed-stats}
use edgerag.Cache.BlockTable.{View, capacity}
use edgerag.Prelude.{◌<◌, ℕ, length, ◌≡◌, ◌≤◌, ◌+◌}
use edgerag.Prelude.Counting.{occ}
use edgerag.Cache.Allocator.Sizing.{ceil_blocks, ceil_blocks_upper, ceil_blocks_lower}

-- The pool is well formed, each of its counts is the number of references that this table and all
-- the `others` hold, and the table lists no block twice.
pub record IsOwned (others : ℕ → ℕ) (v : View) : Type 0 where
  pub well_formed : IsWellFormed v.pool
  pub counts : (b : ℕ) → refs v.pool b ≡ occ b v.table.blocks + others b
  pub once : (b : ℕ) → occ b v.table.blocks ≤ 1

-- The table holds exactly the blocks that its tokens fill, and no spare one.
abbrev pub IsExact : View → Type 0
IsExact v = length v.table.blocks ≡ ceil_blocks v.table.num_tokens v.pool.block_size

-- An exact table has room for its tokens, and less than a block to spare.
pub IsExact-slack :
    (v : View)
    → 0 < v.pool.block_size
    → IsExact v
    → (v.table.num_tokens ≤ capacity v) × (capacity v < v.table.num_tokens + v.pool.block_size)
IsExact-slack v h e = (
  rw e (ceil_blocks_upper v.table.num_tokens v.pool.block_size h),
  rw e (ceil_blocks_lower v.table.num_tokens v.pool.block_size h),
)

pub IsOwned-tokens :
    (others : ℕ → ℕ) (v : View) (n : ℕ)
    → IsOwned others v
    → IsOwned others (record v { table = record v.table { num_tokens = n } })
IsOwned-tokens others v n o = record {
  well_formed = o.well_formed;
  counts = o.counts;
  once = o.once;
}

pub IsOwned-stats :
    (others : ℕ → ℕ) (v : View) (s : Stats)
    → IsOwned others v
    → IsOwned others (record v { pool = record v.pool { stats = s } })
IsOwned-stats others v s o = record {
  well_formed = IsWellFormed-stats v.pool s o.well_formed;
  counts = o.counts;
  once = o.once;
}
