-- ===== src/Cache/Tests.antt =====
-- The theorems at small inputs, and runs of the code that can be followed in the source.
use edgerag.Prelude.{
  ℕ, ◌∷◌, ◌≢◌, ◌≡◌, List, ◌+◌, ◌<◌, pos, [], some, ok, ◌*◌, arith, ◌⊎◌, ◌↔◌, get_or, err, refl,
  out_of_blocks, Error, index_error, ◌<ℤ◌, ◌≤ℤ◌,
}
use edgerag.Cache.Allocator.{Allocator, num_free, refs}
use edgerag.Cache.BlockTable.{
  View, Writable, writable_block_for, locate, fork, append, unshare, empty_table,
}
use edgerag.Cache.Samples.{
  pool4, first_view, shared, others, shared-IsConsistent, three_tokens, init-pool4, appended,
  shared-Reach, first_view-IsOwned, filled-Reach,
}
use edgerag.Cache.Allocator.Invariant.{IsWellFormed, Held, free_list-InRange, Gains}
use edgerag.Cache.Sequences.{IsConsistent, Step, calls, next, closes}
use edgerag.Cache.BlockTable.Calls.{perform, frees}
use edgerag.Cache.Allocator.Incref.{AllLive, incref_atomic}
use edgerag.Cache.Sequences.Isolation.{write_isolated}
use edgerag.Cache.Sequences.Reachable.{reachable_no_leak, reachable-IsConsistent}
use edgerag.Cache.BlockTable.Writes.{Exclusive, writable_block_for_lem}
use edgerag.Cache.BlockTable.Ownership.{IsExact, IsOwned}
use edgerag.Cache.Allocator.Free.{Freed, free_releases, free_decides}
use edgerag.Cache.Allocator.Allocate.{Granted, allocate_grants}
use edgerag.Cache.Allocator.Check.{check_invariants_misses_foreign, check_invariants_iff}
use edgerag.Cache.Allocator.Split.{Replaced, copy_on_write_lem}
use edgerag.Cache.BlockTable.Growth.{out_of_memory, missing, append_lem}
use edgerag.Cache.BlockTable.Sharing.{with_table, fork_lem}
use edgerag.Cache.BlockTable.Locate.{locate_lem}
use edgerag.Cache.Allocator
use edgerag.Cache.BlockTable

shared-IsWellFormed : IsWellFormed shared
shared-IsWellFormed = shared-IsConsistent.well_formed

reachable-IsConsistent_example : IsConsistent shared (three_tokens ∷ three_tokens ∷ [])
reachable-IsConsistent_example =
    reachable-IsConsistent (pos 4) (pos 2) pool4
      (record { pool = shared; tables = three_tokens ∷ three_tokens ∷ [] }) init-pool4 shared-Reach

-- Position 2 of the first sequence lies in the shared block 1, which is copied to block 2.
abbrev written : View
written = record {
  pool = record {
    num_blocks = 4;
    block_size = 2;
    refcounts = 2 ∷ 1 ∷ 1 ∷ 0 ∷ [];
    free_list = 3 ∷ [];
    stats = record shared.stats { allocations = 3; copy_on_writes = 1; peak_used_blocks = 3 };
  };
  table = record { blocks = 0 ∷ 2 ∷ []; num_tokens = 3 };
}

abbrev copied_block : Writable
copied_block = record { block = 2; offset = 0; copied = some (1, 2) }

writes_shared : writable_block_for 2 first_view ≡ (ok copied_block, written)
unfolding writable_block_for Allocator.copy_on_write
writes_shared = refl

reads_other : locate (pos 2) (record { pool = written.pool; table = three_tokens }) ≡ ok (1, 0)
unfolding locate
reads_other = refl

write_isolated_example : ◌≢◌ {A = ℕ} 1 2
write_isolated_example =
    write_isolated (pos 4) (pos 2) pool4
      (record { pool = shared; tables = three_tokens ∷ three_tokens ∷ [] }) [] (three_tokens ∷ [])
      three_tokens 2 copied_block written [] [] three_tokens (pos 2) 1 0 init-pool4 shared-Reach
      refl writes_shared refl reads_other

emptied :
    Step
      (record { pool = appended; tables = three_tokens ∷ [] })
      (record {
        pool = record {
          num_blocks = 4;
          block_size = 2;
          refcounts = 0 ∷ 0 ∷ 0 ∷ 0 ∷ [];
          free_list = 1 ∷ 0 ∷ 2 ∷ 3 ∷ [];
          stats = record appended.stats { frees = 2 };
        };
        tables = empty_table ∷ [];
      })
unfolding perform BlockTable.free Allocator.free
emptied = calls frees [] [] three_tokens refl refl refl

reachable_no_leak_example : ◌≡◌ {A = ℕ} 4 4
reachable_no_leak_example =
    reachable_no_leak (pos 4) (pos 2) pool4 _ init-pool4
      (next (next filled-Reach emptied) (closes [] [] empty_table refl refl refl)) refl

writable_block_for_lem_example :
    ((w : Writable) × (v' : View) × (writable_block_for 2 first_view ≡ (ok w, v'))
      × Exclusive others first_view 2 w v')
    ⊎ ((0 < others 1)
        × ◌≡◌ {A = ℕ} 2 0
        × (writable_block_for 2 first_view ≡ (err out_of_blocks, out_of_memory first_view)))
writable_block_for_lem_example =
    writable_block_for_lem others first_view 2 first_view-IsOwned (omega arith)

append_lem_example :
    ((fresh : List ℕ) × (v' : View) × (append (pos 2) first_view ≡ (ok fresh, v'))
      × (v'.table.num_tokens ≡ 5)
      × (v'.table.blocks ≡ 0 ∷ 1 ∷ fresh)
      × IsExact v'
      × IsOwned others v')
    ⊎ ((2 < missing first_view 5)
        × (append (pos 2) first_view ≡ (err out_of_blocks, out_of_memory first_view))
        × IsOwned others (out_of_memory first_view))
append_lem_example = append_lem others first_view 2 first_view-IsOwned refl

fork_lem_example :
    (a' : Allocator) × (fork first_view
      ≡ (ok three_tokens, record { pool = a'; table = three_tokens }))
    × (num_free a' ≡ 2)
    × (a'.block_size ≡ 2)
    × IsOwned (with_table others three_tokens) (record { pool = a'; table = three_tokens })
fork_lem_example = fork_lem others first_view first_view-IsOwned

shared-Held : Held shared (0 ∷ 1 ∷ [])
shared-Held b = omega (arith, first_view-IsOwned.counts b)

free_releases_example :
    (r : ℕ) × (a' : Allocator) × (Allocator.free (0 ∷ 1 ∷ []) shared ≡ (ok r, a'))
    × Freed shared (0 ∷ 1 ∷ []) r a'
free_releases_example = free_releases shared (0 ∷ 1 ∷ []) shared-IsWellFormed shared-Held

free_decides_example :
    (Held shared (0 ∷ 3 ∷ [])
      × ((r : ℕ) × (a' : Allocator) × (Allocator.free (0 ∷ 3 ∷ []) shared ≡ (ok r, a'))
          × IsWellFormed a'))
    ⊎ ((¬ Held shared (0 ∷ 3 ∷ []))
        × ((e : Error) × (a' : Allocator) × (Allocator.free (0 ∷ 3 ∷ []) shared ≡ (err e, a'))
            × IsWellFormed a'))
free_decides_example = free_decides shared (0 ∷ 3 ∷ []) shared-IsWellFormed

allocate_grants_example :
    (bs : List ℕ) × (a' : Allocator) × (Allocator.allocate (pos 2) shared ≡ (ok bs, a'))
    × Granted shared 2 bs a'
allocate_grants_example = allocate_grants shared 2 shared-IsWellFormed (omega arith)

copy_on_write_lem_example :
    (◌≡◌ {A = ℕ} 2 1 × (Allocator.copy_on_write 1 shared ≡ (ok 1, shared)))
    ⊎ ((1 < 2)
        × (0 < 2)
        × ((new : ℕ) × (a' : Allocator) × (Allocator.copy_on_write 1 shared ≡ (ok new, a'))
            × Replaced shared 1 new a'
            × (num_free a' + 1 ≡ 2)))
    ⊎ ((1 < 2)
        × ◌≡◌ {A = ℕ} 2 0
        × (Allocator.copy_on_write 1 shared ≡ (
          err out_of_blocks,
          record shared { stats = record shared.stats { oom_events = 1 } },
        )))
copy_on_write_lem_example = copy_on_write_lem shared 1 shared-IsWellFormed (omega arith)

incref_atomic_example :
    (AllLive shared (0 ∷ 3 ∷ [])
      × ((a' : Allocator) × (Allocator.incref (0 ∷ 3 ∷ []) shared ≡ (ok tt, a'))
          × Gains shared (0 ∷ 3 ∷ []) a'
          × (num_free a' ≡ 2)))
    ⊎ ((¬ AllLive shared (0 ∷ 3 ∷ []))
        × ((e : Error) × (Allocator.incref (0 ∷ 3 ∷ []) shared ≡ (err e, shared))))
incref_atomic_example = incref_atomic shared (0 ∷ 3 ∷ []) shared-IsWellFormed

check_invariants_iff_example :
    (Allocator.check_invariants shared ≡ (ok tt, shared)) ↔ IsWellFormed shared
check_invariants_iff_example =
    check_invariants_iff shared (omega arith) refl (free_list-InRange shared shared-IsWellFormed)

check_invariants_misses_foreign_example :
    let stray = record shared { free_list = 9 ∷ 2 ∷ 3 ∷ [] } in
    (Allocator.check_invariants stray ≡ (ok tt, stray)) × ¬ IsWellFormed stray
check_invariants_misses_foreign_example =
    check_invariants_misses_foreign shared 9 shared-IsWellFormed (omega arith)

locate_lem_example :
    ((n : ℕ) × (pos 2 ≡ pos n)
      × (n < 3)
      × ((i : ℕ) × (offset : ℕ) × (i < 2)
          × (offset < 2)
          × (i * 2 + offset ≡ n)
          × (locate (pos 2) first_view ≡ ok (get_or (0 ∷ 1 ∷ []) i 0, offset))))
    ⊎ (((pos 2 <ℤ pos 0) ⊎ (pos 3 ≤ℤ pos 2)) × (locate (pos 2) first_view ≡ err index_error))
locate_lem_example = locate_lem first_view (pos 2) (omega arith) (omega arith)
