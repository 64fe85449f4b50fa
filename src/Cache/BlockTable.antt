-- ===== src/Cache/BlockTable.antt =====
-- edgerag/cache/block_table.py: the map from a sequence's positions to physical blocks.
-- The Python object holds a reference to the allocator that it shares with the other tables; here a
-- method runs on a `View`, one table together with that allocator.
pub mod Locate
pub mod Ownership
pub mod Growth
pub mod Unshare
pub mod Writes
pub mod Sharing
pub mod Calls
use edgerag.Prelude.{
  ℕ, ◌+◌, List, [], Action, length, ℤ, ◌+ℤ◌, Option, ◌*◌, sub_ℕ, Result, if◌then◌else◌, get_elem?,
  negsuc, ◌==◌, err, ok, index_error, none, some, pos, ltb, set, ◌/◌, ◌%◌, ◌>>=◌, get, ◌>>◌, modify,
  lift, ◌++◌, leb, pos_part, pure, ◌-◌,
}
use edgerag.Cache.Allocator.{Allocator}
use edgerag.Cache.Allocator

pub record BlockTable : Type 0 where
  pub blocks : List ℕ
  pub num_tokens : ℕ

pub record View : Type 0 where
  pub pool : Allocator
  pub table : BlockTable

abbrev pub empty_table : BlockTable
empty_table = record { blocks = []; num_tokens = 0 }

-- A method of the allocator, called from a method of the table.
abbrev pub on_pool : {A : Type 0} → Action Allocator A → Action View A
on_pool m v = let (r, p) = m v.pool in (r, record v { pool = p })

abbrev pub set_blocks : List ℕ → View → View
set_blocks bs v = record v { table = record v.table { blocks = bs } }

abbrev pub capacity : View → ℕ
capacity v = length v.table.blocks * v.pool.block_size

-- `capacity - num_tokens`, which Python lets fall below zero.
abbrev pub slack : View → ℤ
slack v = sub_ℕ (capacity v) v.table.num_tokens

-- `self.blocks[i]`
abbrev pub block_at : List ℕ → ℕ → Result ℕ
block_at bs i = elim (get_elem? bs i) [ none ↦ err index_error | some b ↦ ok b ]

unfoldable pub locate : ℤ → View → Result (ℕ × ℕ)
locate (negsuc _) v = err index_error
locate (pos p) v =
    if ltb p v.table.num_tokens
    then (elim (block_at v.table.blocks (p / v.pool.block_size)) [
      | ok b ↦ ok (b, p % v.pool.block_size)
      | err e ↦ err e
    ])
    else err index_error

-- The part of `ensure_capacity` that allocates.
unfoldable pub grow_by : ℕ → Action View (List ℕ)
grow_by n = do
  fresh ← on_pool (Allocator.allocate (pos n))
  modify (λ v. set_blocks (v.table.blocks ++ fresh) v)
  pure fresh

unfoldable pub ensure_capacity : ℤ → Action View (List ℕ)
unfolding grow_by
ensure_capacity n_tokens = do
  v ← get
  needed ← lift (Allocator.blocks_needed n_tokens v.pool)
  if leb needed (length v.table.blocks) then pure [] else grow_by (needed - length v.table.blocks)

-- A negative sum raises in `ensure_capacity`, so the new length is the sum.
unfoldable pub append : ℤ → Action View (List ℕ)
unfolding ensure_capacity ◌+ℤ◌
append n_tokens = do
  v ← get
  fresh ← ensure_capacity (pos v.table.num_tokens +ℤ n_tokens)
  modify (λ w. record w {
    table = record w.table { num_tokens = pos_part (pos v.table.num_tokens +ℤ n_tokens) };
  })
  pure fresh

abbrev pub count_fork : Allocator → Allocator
count_fork a = record a { stats = record a.stats { forks = a.stats.forks + 1 } }

-- Returns the table of the new sequence.
unfoldable pub fork : Action View BlockTable
fork = do
  v ← get
  on_pool (Allocator.incref v.table.blocks)
  modify (λ w. record w { pool = count_fork w.pool })
  pure (record { blocks = v.table.blocks; num_tokens = v.table.num_tokens })

-- What `unshare` does with the block that it got.
unfoldable pub replace_block : ℕ → ℕ → ℕ → Action View (Option (ℕ × ℕ))
replace_block i old new v =
    if new == old
    then (ok none, v)
    else (ok (some (old, new)), set_blocks (set v.table.blocks i new) v)

unfoldable pub unshare : ℕ → Action View (Option (ℕ × ℕ))
unfolding replace_block
unshare i = do
  v ← get
  old ← lift (block_at v.table.blocks i)
  new ← on_pool (Allocator.copy_on_write old)
  replace_block i old new

pub record Writable : Type 0 where
  pub block : ℕ
  pub offset : ℕ
  pub copied : Option (ℕ × ℕ)

-- The positions are those from 0 on: a negative one, which Python counts from the end, is left out.
unfoldable pub writable_block_for : ℕ → Action View Writable
unfolding unshare
writable_block_for position = do
  v ← get
  copied ← unshare (position / v.pool.block_size)
  w ← get
  b ← lift (block_at w.table.blocks (position / v.pool.block_size))
  pure (record { block = b; offset = position % v.pool.block_size; copied = copied })

unfoldable pub free : Action View ℕ
free = do
  v ← get
  reclaimed ← on_pool (Allocator.free v.table.blocks)
  modify (λ w. record w { table = empty_table })
  pure reclaimed
