-- ===== src/Cache/Samples.antt =====
-- A small pool and a short history on it, for the tests.
use edgerag.Prelude.{ℕ, pos, ◌∷◌, ◌≡◌, ok, [], refl}
use edgerag.Cache.Allocator.{Allocator, init, no_stats}
use edgerag.Cache.Allocator.Fresh.{fresh_pool}
use edgerag.Cache.BlockTable.{BlockTable, View, empty_table, fork, append}
use edgerag.Cache.BlockTable.Calls.{perform, appends}
use edgerag.Cache.Sequences.{
  Step, Reach, IsConsistent, rest, IsConsistent→IsOwned, opens, calls, forks, next, here,
}
use edgerag.Cache.Sequences.Reachable.{start, reachable-IsConsistent}
use edgerag.Cache.BlockTable.Ownership.{IsOwned}
use edgerag.Cache.Allocator
use edgerag.Cache.BlockTable

-- Four blocks of two tokens.
abbrev pub pool4 : Allocator
pool4 = fresh_pool 4 2

pub init-pool4 : init (pos 4) (pos 2) ≡ ok pool4
unfolding init
init-pool4 = refl

program : Unit {0}
unfolding perform append BlockTable.free Allocator.allocate Allocator.blocks_needed fork
    Allocator.incref Allocator.free BlockTable.writable_block_for Allocator.copy_on_write
program = tt

-- Three tokens in the blocks 0 and 1.
abbrev pub three_tokens : BlockTable
three_tokens = record { blocks = 0 ∷ 1 ∷ []; num_tokens = 3 }

abbrev pub appended : Allocator
appended = record {
  num_blocks = 4;
  block_size = 2;
  refcounts = 1 ∷ 1 ∷ 0 ∷ 0 ∷ [];
  free_list = 2 ∷ 3 ∷ [];
  stats = record no_stats { allocations = 2; peak_used_blocks = 2 };
}

-- Two sequences share both blocks.
abbrev pub shared : Allocator
shared = record {
  num_blocks = 4;
  block_size = 2;
  refcounts = 2 ∷ 2 ∷ 0 ∷ 0 ∷ [];
  free_list = 2 ∷ 3 ∷ [];
  stats = record no_stats { allocations = 2; peak_used_blocks = 2; forks = 1 };
}

opened : Step (start pool4) (record { pool = pool4; tables = empty_table ∷ [] })
opened = opens refl

filled :
    Step
      (record { pool = pool4; tables = empty_table ∷ [] })
      (record { pool = appended; tables = three_tokens ∷ [] })
unfolding program
filled = calls (appends (pos 3)) [] [] empty_table refl refl refl

pub fork-appended :
    fork (record { pool = appended; table = three_tokens })
    ≡ (ok three_tokens, record { pool = shared; table = three_tokens })
unfolding program
fork-appended = refl

forked :
    Step
      (record { pool = appended; tables = three_tokens ∷ [] })
      (record { pool = shared; tables = three_tokens ∷ three_tokens ∷ [] })
forked =
    forks [] [] three_tokens three_tokens (record { pool = shared; table = three_tokens }) refl
      fork-appended refl refl

pub filled-Reach : Reach (start pool4) (record { pool = appended; tables = three_tokens ∷ [] })
filled-Reach = next (next here opened) filled

pub shared-Reach :
    Reach (start pool4) (record { pool = shared; tables = three_tokens ∷ three_tokens ∷ [] })
shared-Reach = next filled-Reach forked

pub shared-IsConsistent : IsConsistent shared (three_tokens ∷ three_tokens ∷ [])
shared-IsConsistent = reachable-IsConsistent (pos 4) (pos 2) pool4 _ init-pool4 shared-Reach

-- The first of the two sequences, and the references of the second.
abbrev pub first_view : View
first_view = record { pool = shared; table = three_tokens }

abbrev pub others : ℕ → ℕ
others = rest [] (three_tokens ∷ [])

pub first_view-IsOwned : IsOwned others first_view
first_view-IsOwned =
    IsConsistent→IsOwned shared [] (three_tokens ∷ []) three_tokens shared-IsConsistent
