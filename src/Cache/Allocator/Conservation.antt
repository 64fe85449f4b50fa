-- ===== src/Cache/Allocator/Conservation.antt =====
-- No block is lost: the free ones and those with a holder make up the pool.
use edgerag.Prelude.{ℕ, ◌+◌, ◌==◌, ◌≡◌, if◌then◌else◌, arith, ◌∙◌}
use edgerag.Prelude.Counting.{
  occ, sum_below, sum_below-occ, sum_below-add, sum_below-congr, sum_below-one, sum_below-zero,
}
use edgerag.Cache.Allocator.{Allocator, num_free, refs}
use edgerag.Cache.Allocator.Invariant.{IsWellFormed, free_list-InRange}

abbrev live_mark : Allocator → ℕ → ℕ
live_mark a b = if refs a b == 0 then 0 else 1

-- How many blocks of the pool have a holder.
pub live_blocks : Allocator → ℕ
live_blocks a = sum_below a.num_blocks (live_mark a)

-- In a well formed pool the free list and the blocks with a holder add up to the whole pool.
pub num_free-add-live_blocks :
    (a : Allocator) → IsWellFormed a → num_free a + live_blocks a ≡ a.num_blocks
unfolding live_blocks
num_free-add-live_blocks a wf =
    let free : ℕ → ℕ = λ b. occ b a.free_list in
    omega (
      arith,
      sum_below-occ a.num_blocks a.free_list (free_list-InRange a wf),
      sum_below-add a.num_blocks free (live_mark a),
      sum_below-congr a.num_blocks (λ b. free b + live_mark a b) (λ b. 1)
          (λ b l. ground (arith, wf.marked b)),
      sum_below-one a.num_blocks,
    )

-- A pool whose counts are all zero has no live block.
pub live_blocks_none : (a : Allocator) → ((b : ℕ) → refs a b ≡ 0) → live_blocks a ≡ 0
unfolding live_blocks
live_blocks_none a h =
    sum_below-congr a.num_blocks (live_mark a) (λ b. 0) (λ b l. ground (arith, h b))
    ∙ sum_below-zero a.num_blocks
