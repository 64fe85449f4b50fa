-- ===== src/Cache/Allocator/Fresh.antt =====
-- `BlockAllocator.__init__` of edgerag/cache/allocator.py.
use edgerag.Prelude.{
  ℕ, ℤ, ◌<◌, ◌≡◌, length, replicate, length-replicate, if◌then◌else◌, suc, err, ap, arith, ltb,
  value_error, get_or-replicate, ◌≤ℤ◌, zero, ◌+◌, refl, pos, ◌⊎◌, ok, negsuc, inl, inr,
}
use edgerag.Cache.Allocator.{Allocator, refs, num_free, init, count_up, no_stats}
use edgerag.Cache.Allocator.Invariant.{IsWellFormed}
use edgerag.Prelude.Counting.{occ, occ-nil, occ-cons}

occ-count_up :
    (b from n : ℕ)
    → occ b (count_up from n) ≡ (if ltb b from then 0 else if ltb b (from + n) then 1 else 0)
occ-count_up b from zero = ground (arith, occ-nil b)
occ-count_up b from (suc n) =
    ground (arith, occ-cons b from (count_up (suc from) n), occ-count_up b (suc from) n)

length-count_up : (from n : ℕ) → length (count_up from n) ≡ n
length-count_up from zero = refl
length-count_up from (suc n) = ap suc (length-count_up (suc from) n)

-- The pool that the constructor builds.
abbrev pub fresh_pool : ℕ → ℕ → Allocator
fresh_pool n size = record {
  num_blocks = n;
  block_size = size;
  refcounts = replicate n 0;
  free_list = count_up 0 n;
  stats = no_stats;
}

pub fresh_pool-IsWellFormed : (n size : ℕ) → 0 < size → IsWellFormed (fresh_pool n size)
fresh_pool-IsWellFormed n size h = record {
  positive = h;
  sized = length-replicate n 0;
  marked = λ b. ground (arith, occ-count_up b 0 n, get_or-replicate {A = ℕ} n b 0);
}

-- The constructor rejects a size that is not positive by ValueError. For positive sizes it returns a
-- well formed pool in which every block is free and none has a holder.
pub init_lem :
    (n size : ℤ)
    → ((init n size ≡ err value_error) × ((n ≤ℤ pos 0) ⊎ (size ≤ℤ pos 0)))
      ⊎ ((a : Allocator) × (init n size ≡ ok a)
          × IsWellFormed a
          × (pos a.num_blocks ≡ n)
          × (pos a.block_size ≡ size)
          × (num_free a ≡ a.num_blocks)
          × ((b : ℕ) → refs a b ≡ 0))
unfolding init
init_lem (negsuc n) size = inl (refl, inl (omega arith))
init_lem (pos n) (negsuc size) = inl (refl, inr (omega arith))
init_lem (pos zero) (pos size) = inl (ground arith, inl (omega arith))
init_lem (pos (suc n)) (pos zero) = inl (ground arith, inr (omega arith))
init_lem (pos (suc n)) (pos (suc size)) = inr (
  fresh_pool (suc n) (suc size),
  ground arith,
  fresh_pool-IsWellFormed (suc n) (suc size) (omega arith),
  refl,
  refl,
  length-count_up 0 (suc n),
  λ b. get_or-replicate (suc n) b 0,
)
