-- ===== src/Cache/Prefix/Pinned.antt =====
-- The references that the cache of edgerag/cache/prefix.py owns.
use edgerag.Prelude.{ℕ, Option, ◌≡◌, arith, List, ◌+◌, some, ◌≤◌, ◌<◌}
use edgerag.Cache.Allocator.{Allocator, refs}
use edgerag.Cache.Allocator.Invariant.{IsWellFormed}
use edgerag.Cache.Prefix.{PrefixCache, Entry, find_entry, num_cached, init}
use edgerag.Cache.Prefix.Entries.{keys, entry_blocks, remove_entry-counts}
use edgerag.Prelude.Counting.{occ, occ-nil, eq_mark_self}

-- The pool is well formed, every count is the number of references that the entries and the holders
-- `outside` the cache have, no key stands twice, and there are no more entries than allowed.
pub record IsPinned (outside : ℕ → ℕ) (s : PrefixCache) : Type 0 where
  pub well_formed : IsWellFormed s.pool
  pub counts : (b : ℕ) → refs s.pool b ≡ occ b (entry_blocks s.entries) + outside b
  pub distinct : (k : ℕ) → occ k (keys s.entries) ≤ 1
  pub bounded : num_cached s ≤ s.max_blocks

pub init-IsPinned :
    (a : Allocator) (max_blocks : Option ℕ) → IsWellFormed a → IsPinned (refs a) (init a max_blocks)
unfolding init
init-IsPinned a max_blocks wf = record {
  well_formed = wf;
  counts = λ b. omega (arith, occ-nil b);
  distinct = λ k. omega (arith, occ-nil k);
  bounded = omega arith;
}

pub find_entry-occ :
    (h b : ℕ) (es : List Entry) → find_entry h es ≡ some b → 0 < occ b (entry_blocks es)
find_entry-occ h b es e = omega (arith, (remove_entry-counts h b b h es e).0, eq_mark_self b)
