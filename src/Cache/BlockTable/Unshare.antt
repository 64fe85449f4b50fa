-- ===== src/Cache/BlockTable/Unshare.antt =====
-- `unshare` of edgerag/cache/block_table.py: a private copy of a shared block.
use edgerag.Prelude.{
  ℕ, get_or, ◌<◌, length, set, ◌≡◌, arith, and_then, ok, none, ◌⊎◌, some, err, out_of_blocks, inl,
  ◌∙◌, eqb_refl, inr, ◌==◌, false,
}
use edgerag.Prelude.Counting.{occ-get_or, occ-set}
use edgerag.Cache.Allocator.{Allocator, refs, num_free}
use edgerag.Cache.Allocator.Split.{Replaced, copy_on_write_lem}
use edgerag.Cache.BlockTable.{View, replace_block, unshare, set_blocks}
use edgerag.Cache.BlockTable.Ownership.{IsOwned}
use edgerag.Cache.BlockTable.Growth.{out_of_memory}
use edgerag.Cache.BlockTable.Locate.{block_at_ok}
use edgerag.Cache.Allocator

-- The entry `i` of the table.
abbrev pub entry : View → ℕ → ℕ
entry v i = get_or v.table.blocks i 0

unshare_at :
    (v : View) (i : ℕ)
    → i < length v.table.blocks
    → unshare i v
      ≡ and_then
          (Allocator.copy_on_write (entry v i) v.pool).0
          (λ new. replace_block i (entry v i) new)
          (record v { pool = (Allocator.copy_on_write (entry v i) v.pool).1 })
unfolding unshare
unshare_at v i h = rw (block_at_ok v.table.blocks i h)

-- The view after the entry `i` was replaced by `new` in the table, and in the pool `a'`.
abbrev pub swapped : View → ℕ → ℕ → Allocator → View
swapped v i new a' = set_blocks (set v.table.blocks i new) (record v { pool = a' })

module _ (others : ℕ → ℕ) (v : View) (i : ℕ) (o : IsOwned others v)
    (inside : i < length v.table.blocks) where
  entry_live : 0 < refs v.pool (entry v i)
  entry_live = omega (arith, o.counts (entry v i), occ-get_or v.table.blocks i inside)

  swapped-IsOwned :
      (new : ℕ) (a' : Allocator)
      → Replaced v.pool (entry v i) new a'
      → IsOwned others (swapped v i new a')
  swapped-IsOwned new a' r = record {
    well_formed = r.well_formed;
    counts = λ b. omega (arith, r.counts b, o.counts b, occ-set v.table.blocks i new b inside);
    once = λ b.
        ground (arith, o.once b, o.counts new, r.was_free, occ-set v.table.blocks i new b inside);
  }

  others_shared : 1 < refs v.pool (entry v i) → 0 < others (entry v i)
  others_shared h = omega (arith, o.counts (entry v i), o.once (entry v i))

  others_exclusive : refs v.pool (entry v i) ≡ 1 → others (entry v i) ≡ 0
  others_exclusive h = omega (arith, o.counts (entry v i), occ-get_or v.table.blocks i inside)

-- `unshare(i)` of an entry of the table. If no other table or cache entry holds the block, nothing
-- changes and None is returned. If one does and a block is free, the entry gets a block that nobody
-- held, the old and the new id are returned, and every count of the pool is still the number of
-- references held. If one does and no block is free, OutOfBlocksError is raised and the table is as
-- before.
pub unshare_lem :
    (others : ℕ → ℕ) (v : View) (i : ℕ)
    → IsOwned others v
    → i < length v.table.blocks
    → ((others (entry v i) ≡ 0) × (unshare i v ≡ (ok none, v)))
      ⊎ ((0 < others (entry v i))
          × ((new : ℕ) × (a' : Allocator) × (unshare i v
                ≡ (ok (some (entry v i, new)), swapped v i new a'))
              × (refs v.pool new ≡ 0)
              × (a'.block_size ≡ v.pool.block_size)
              × IsOwned others (swapped v i new a')))
      ⊎ ((0 < others (entry v i))
          × (num_free v.pool ≡ 0)
          × (unshare i v ≡ (err out_of_blocks, out_of_memory v)))
unfolding replace_block
unshare_lem others v i o inside =
    elim (copy_on_write_lem v.pool (entry v i) o.well_formed (entry_live others v i o inside)) [
      | inl (one, e) ↦ inl (
        others_exclusive others v i o inside one,
        unshare_at v i inside ∙ rw e (rw (eqb_refl (entry v i))),
      )
      | inr (inl (shared, _, (new, a', e, r, _))) ↦
          let differs : (new == entry v i) ≡ false = ground (arith, r.was_free) in
          inr (
            inl (
              others_shared others v i o inside shared,
              (
                new,
                a',
                unshare_at v i inside ∙ rw e (rw differs),
                r.was_free,
                r.shape.same_size,
                swapped-IsOwned others v i o inside new a' r,
              ),
            ))
      | inr (inr (shared, full, e)) ↦
          inr (inr (others_shared others v i o inside shared, full, unshare_at v i inside ∙ rw e))
    ]
