-- ===== src/Cache/BlockTable/Writes.antt =====
-- `writable_block_for` of edgerag/cache/block_table.py: the one entry point for writes.
use edgerag.Prelude.{
  ℕ, get_or, ◌<◌, length, set, ◌≡◌, arith, ok, none, ◌⊎◌, some, err, out_of_blocks, inl, eqb_refl,
  inr, ◌/◌, ◌%◌, Option, ◌≢◌, length-set, get_or-set, refl,
}
use edgerag.Prelude.Counting.{occ-get_or, occ-set, occ, eq_mark_self}
use edgerag.Cache.Allocator.{Allocator, refs, num_free}
use edgerag.Cache.BlockTable.{View, unshare, Writable, writable_block_for}
use edgerag.Cache.BlockTable.Ownership.{IsOwned}
use edgerag.Cache.BlockTable.Growth.{out_of_memory}
use edgerag.Cache.BlockTable.Locate.{block_at_ok}
use edgerag.Cache.BlockTable.Unshare.{entry, swapped, unshare_lem}

-- What `writable_block_for` hands to the writer, in the view that it leaves.
pub record Exclusive (others : ℕ → ℕ) (v : View) (p : ℕ) (w : Writable) (v' : View) : Type 0 where
  pub offset : w.offset ≡ p % v.pool.block_size
  pub mapped : entry v' (p / v.pool.block_size) ≡ w.block
  pub unread : others w.block ≡ 0
  pub one_holder : refs v'.pool w.block ≡ 1
  pub kept : (j : ℕ) → j ≢ p / v.pool.block_size → entry v' j ≡ entry v j
  pub tokens : v'.table.num_tokens ≡ v.table.num_tokens
  pub entries : length v'.table.blocks ≡ length v.table.blocks
  pub owned : IsOwned others v'

module _ (others : ℕ → ℕ) (v : View) (p : ℕ) (o : IsOwned others v)
    (inside : p / v.pool.block_size < length v.table.blocks) where
  abbrev slot : ℕ
  slot = p / v.pool.block_size

  writable_same :
      unshare slot v ≡ (ok none, v)
      → writable_block_for p v
        ≡ (ok (record { block = entry v slot; offset = p % v.pool.block_size; copied = none }), v)
  unfolding writable_block_for
  writable_same e = rw (e, block_at_ok v.table.blocks slot inside)

  writable_copied :
      (new : ℕ) (a' : Allocator)
      → unshare slot v ≡ (ok (some (entry v slot, new)), swapped v slot new a')
      → writable_block_for p v ≡ (
        ok (record {
          block = new;
          offset = p % v.pool.block_size;
          copied = some (entry v slot, new);
        }),
        swapped v slot new a',
      )
  unfolding writable_block_for
  writable_copied new a' e = rw (
    e,
    block_at_ok (set v.table.blocks slot new) slot (rw (length-set v.table.blocks slot new) inside),
    get_or-set v.table.blocks slot slot new 0 inside,
    eqb_refl slot,
  )

  Exclusive-same :
      others (entry v slot) ≡ 0
      → Exclusive others v p
          (record { block = entry v slot; offset = p % v.pool.block_size; copied = none })
          v
  Exclusive-same h = record {
    offset = refl;
    mapped = refl;
    unread = h;
    one_holder = omega (
      arith,
      o.counts (entry v slot),
      o.once (entry v slot),
      occ-get_or v.table.blocks slot inside,
    );
    kept = λ j _. refl;
    tokens = refl;
    entries = refl;
    owned = o;
  }

  Exclusive-copied :
      (new : ℕ) (a' : Allocator) (copied : Option (ℕ × ℕ))
      → refs v.pool new ≡ 0
      → IsOwned others (swapped v slot new a')
      → Exclusive others v p
          (record { block = new; offset = p % v.pool.block_size; copied = copied })
          (swapped v slot new a')
  Exclusive-copied new a' copied was_free owned =
      let mapped : get_or (set v.table.blocks slot new) slot 0 ≡ new =
        ground (arith, get_or-set v.table.blocks slot slot new 0 inside) in
      let unread : others new ≡ 0 = omega (arith, o.counts new) in
      record {
        offset = refl;
        mapped = mapped;
        unread = unread;
        one_holder = omega (
          arith,
          owned.counts new,
          owned.once new,
          occ-set v.table.blocks slot new new inside,
          o.counts new,
          occ_new,
        );
        kept = λ j h. ground (arith, get_or-set v.table.blocks slot j new 0 inside);
        tokens = refl;
        entries = length-set v.table.blocks slot new;
        owned = owned;
      }
    where
      occ_new : 0 < occ new (set v.table.blocks slot new)
      occ_new = ground (
        arith,
        occ-set v.table.blocks slot new new inside,
        eq_mark_self new,
        o.once new,
        o.counts new,
        o.counts (entry v slot),
        occ-get_or v.table.blocks slot inside,
        was_free,
      )

-- `writable_block_for(p)` for a position whose block the table has. If it returns normally, the
-- block that it names is the table's own for that position, this table is its only holder, no other
-- table or cache entry lists it, every other entry of the table is as before, and every count of the
-- pool is still the number of references held. It raises only if the block is shared and no block is
-- free; then it raises OutOfBlocksError and the table is as before.
pub writable_block_for_lem :
    (others : ℕ → ℕ) (v : View) (p : ℕ)
    → IsOwned others v
    → p / v.pool.block_size < length v.table.blocks
    → ((w : Writable) × (v' : View) × (writable_block_for p v ≡ (ok w, v'))
        × Exclusive others v p w v')
      ⊎ ((0 < others (entry v (p / v.pool.block_size)))
          × (num_free v.pool ≡ 0)
          × (writable_block_for p v ≡ (err out_of_blocks, out_of_memory v)))
unfolding writable_block_for
writable_block_for_lem others v p o inside =
    elim (unshare_lem others v (p / v.pool.block_size) o inside) [
      | inl (unread, e) ↦
          inl (_, v, writable_same others v p o inside e, Exclusive-same others v p o inside unread)
      | inr (inl (_, (new, a', e, was_free, _, owned))) ↦ inl (
        _,
        _,
        writable_copied others v p o inside new a' e,
        Exclusive-copied others v p o inside new a' _ was_free owned,
      )
      | inr (inr (shared, full, e)) ↦ inr (shared, full, rw e)
    ]
