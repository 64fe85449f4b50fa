-- ===== src/Cache/BlockTable/Sharing.antt =====
-- `fork` and `free` of edgerag/cache/block_table.py.
use edgerag.Prelude.{List, ℕ, arith, ◌+◌, ◌≡◌, ◌∷◌, ok, []}
use edgerag.Cache.Allocator.{Allocator, num_free}
use edgerag.Cache.Allocator.Invariant.{Held, IsWellFormed-stats}
use edgerag.Cache.Allocator.Incref.{incref_adds, AllLive}
use edgerag.Cache.Allocator.Free.{free_releases}
use edgerag.Cache.BlockTable.{View, BlockTable, empty_table, fork, free, count_fork, ◌+◌}
use edgerag.Cache.BlockTable.Ownership.{IsOwned}
use edgerag.Prelude.Counting.{occ, occ-cons, occ-nil, eq_mark_self}

AllLive-Held : (a : Allocator) (bs : List ℕ) → Held a bs → AllLive a bs
AllLive-Held a [] h = tt
AllLive-Held a (b ∷ bs) h = (
  omega (arith, h b, occ-cons b b bs, eq_mark_self b),
  AllLive-Held a bs (λ c. omega (arith, h c, occ-cons c b bs)),
)

IsOwned-Held : (others : ℕ → ℕ) (v : View) → IsOwned others v → Held v.pool v.table.blocks
IsOwned-Held others v o b = omega (arith, o.counts b)

-- The references that a table adds to those of the others.
abbrev pub with_table : (ℕ → ℕ) → BlockTable → ℕ → ℕ
with_table others t b = others b + occ b t.blocks

-- `fork` always returns normally: the new table maps the same positions to the same blocks, the old
-- table is as before, no block is taken from the pool, and with the new table among the holders
-- every count is still the number of references held, seen from either of the two tables.
pub fork_lem :
    (others : ℕ → ℕ) (v : View)
    → IsOwned others v
    → (a' : Allocator) × (fork v ≡ (ok v.table, record v { pool = a' }))
      × (num_free a' ≡ num_free v.pool)
      × (a'.block_size ≡ v.pool.block_size)
      × IsOwned (with_table others v.table) (record v { pool = a' })
unfolding fork
fork_lem others v o =
    let (a', e, g, same_free) =
      incref_adds v.pool v.table.blocks o.well_formed
        (AllLive-Held v.pool v.table.blocks (IsOwned-Held others v o)) in
    (
      count_fork a',
      rw e,
      same_free,
      g.shape.same_size,
      record {
        well_formed = IsWellFormed-stats a' (count_fork a').stats g.well_formed;
        counts = λ b. omega (arith, g.counts b, o.counts b);
        once = o.once;
      },
    )

-- `free` always returns normally: the table is empty afterwards, the counts of the pool are exactly
-- the references of the others, and as many blocks went back to the free list as it returns.
pub free_lem :
    (others : ℕ → ℕ) (v : View)
    → IsOwned others v
    → (r : ℕ) × (a' : Allocator) × (free v ≡ (ok r, record { pool = a'; table = empty_table }))
      × (num_free a' ≡ num_free v.pool + r)
      × (a'.block_size ≡ v.pool.block_size)
      × IsOwned others (record { pool = a'; table = empty_table })
unfolding free
free_lem others v o =
    let (r, a', e, f) =
      free_releases v.pool v.table.blocks o.well_formed (IsOwned-Held others v o) in
    (
      r,
      a',
      rw e,
      f.reclaimed,
      f.loses.shape.same_size,
      record {
        well_formed = f.loses.well_formed;
        counts = λ b. omega (arith, f.loses.counts b, o.counts b, occ-nil b);
        once = λ b. omega (arith, occ-nil b);
      },
    )
