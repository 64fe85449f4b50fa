-- ===== src/Cache/StoreTests.antt =====
-- The paged and the contiguous cache at a small input: three tokens of two layers, in the blocks 0
-- and 1, which a second sequence shares.
use edgerag.Cache.Paged.Pass.{appended, forward_layers, AllOfLength, Holds}
use edgerag.Prelude.{
  ◌∷◌, List, ℕ, ◌*◌, [], ◌+◌, ◌≡◌, arith, ok, err, out_of_blocks, refl, ◌⊎◌, ◌<◌, runtime_error,
  take, ◌≤◌, if◌then◌else◌, ◌==◌, some, none,
}
use edgerag.Cache.Samples.{first_view, others, first_view-IsOwned}
use edgerag.Cache.Paged.{Paged, seq_len, paged_update}
use edgerag.Cache.Naive.{Naive}
use edgerag.Cache.Naive.Agreement.{Agree, paged_refines_naive}
use edgerag.Cache.Paged.Gather.{contents}
use edgerag.Cache.Paged.Update.{SameHistory, IsShort}
use edgerag.Cache.BlockTable.Ownership.{IsOwned, IsExact}
use edgerag.Cache.Naive.Pass.{naive_layers}
use edgerag.Cache.Paged.Whole.{forward_lem}
use edgerag.Cache.Preemption.{select_victims, SwappedSequence, Preemptor, swap_in, swap}
use edgerag.Cache.Preemption.Victims.{names, held_by, select_victims_lem}
use edgerag.Cache.Allocator.Fresh.{fresh_pool, fresh_pool-IsWellFormed}
use edgerag.Cache.Allocator.Invariant.{IsWellFormed}
use edgerag.Cache.Allocator.{num_free}
use edgerag.Cache.Preemption.Mismatch.{swap_in_mismatch}
use edgerag.Cache.BlockTable
use edgerag.Cache.Allocator

-- The cell of position p in layer l is 100 * l + p.
abbrev paged : Paged ℕ
paged = record {
  view = first_view;
  arena = λ l b o. 100 * l + (2 * b + o);
  first_layer = 3;
  n_pool_layers = 2;
  pending_tokens = 0;
}

abbrev contiguous : Naive ℕ
contiguous = record { cells = λ l p. 100 * l + p; n_layers = 2; max_seq_len = 8; seq_len = 3 }

-- What the two layers return for one new token.
abbrev returned : List (List ℕ)
returned = (0 ∷ 1 ∷ 2 ∷ 7 ∷ []) ∷ (100 ∷ 101 ∷ 102 ∷ 8 ∷ []) ∷ []

appended-returned : appended (λ l. contents l paged) 0 ((7 ∷ []) ∷ (8 ∷ []) ∷ []) ≡ returned
appended-returned = refl

runs_paged :
    (s' : Paged ℕ) × (forward_layers 3 ((7 ∷ []) ∷ (8 ∷ []) ∷ []) paged ≡ (ok returned, s'))
unfolding forward_layers BlockTable.append Allocator.copy_on_write paged_update
    Allocator.blocks_needed BlockTable.unshare
runs_paged = (_, refl)

one_token : AllOfLength {A = ℕ} 1 ((7 ∷ []) ∷ (8 ∷ []) ∷ [])
one_token = (refl, (refl, tt))

agree : Agree paged contiguous
agree = record { layers = refl; length_same = refl; rows_same = λ l inside. refl }

forward_lem_example :
    ((s' : Paged ℕ) × (forward_layers 3 ((7 ∷ []) ∷ (8 ∷ []) ∷ []) paged ≡ (ok returned, s'))
      × Holds s' 0 returned
      × (seq_len s' ≡ 4)
      × (s'.n_pool_layers ≡ 2)
      × IsOwned others s'.view
      × IsExact s'.view
      × ((l b o : ℕ) → 0 < others b → s'.arena l b o ≡ 100 * l + (2 * b + o)))
    ⊎ ((s' : Paged ℕ) × (forward_layers 3 ((7 ∷ []) ∷ (8 ∷ []) ∷ []) paged
          ≡ (err out_of_blocks, s'))
        × IsShort others 1 paged
        × SameHistory others paged s')
forward_lem_example =
    forward_lem others 1 (7 ∷ []) ((8 ∷ []) ∷ []) paged first_view-IsOwned refl one_token
      (omega arith)

paged_refines_naive_example :
    ((s' : Paged ℕ) × (forward_layers 3 ((7 ∷ []) ∷ (8 ∷ []) ∷ []) paged ≡ (err out_of_blocks, s'))
      × IsShort others 1 paged
      × SameHistory others paged s')
    ⊎ ((s' : Paged ℕ) × (m' : Naive ℕ) × (hs : List (List ℕ)) × (forward_layers 3
            ((7 ∷ []) ∷ (8 ∷ []) ∷ [])
            paged
          ≡ (ok hs, s'))
        × (naive_layers 0 ((7 ∷ []) ∷ (8 ∷ []) ∷ []) contiguous ≡ (ok hs, m'))
        × (hs ≡ returned)
        × Agree s' m'
        × IsOwned others s'.view
        × IsExact s'.view)
paged_refines_naive_example =
    paged_refines_naive others 1 (7 ∷ []) ((8 ∷ []) ∷ []) paged contiguous first_view-IsOwned refl
      agree one_token refl (omega arith)

-- Requests 1 to 3 hold two blocks each; three blocks are needed.
abbrev newest_first : List (ℕ × ℕ)
newest_first = (3, 2) ∷ (2, 2) ∷ (1, 2) ∷ []

select_victims_lem_example :
    (n : ℕ) × (select_victims ((1, 2) ∷ (2, 2) ∷ (3, 2) ∷ []) 3 ≡ names (take n newest_first))
    × ((3 ≤ held_by (take n newest_first)) ⊎ (take n newest_first ≡ newest_first))
    × ((k : ℕ) → k < n → held_by (take k newest_first) < 3)
select_victims_lem_example = select_victims_lem ((1, 2) ∷ (2, 2) ∷ (3, 2) ∷ []) 3

abbrev swapped_two : SwappedSequence ℕ
swapped_two = record { num_tokens = 4; heads = 3; layers = ((1 ∷ 2 ∷ []) ∷ (3 ∷ 4 ∷ []) ∷ []) ∷ [] }

-- Three heads, and a sequence of two blocks that was swapped out.
abbrev swapping : Preemptor ℕ
swapping = record {
  pool = fresh_pool 4 2;
  policy = swap;
  swapped = λ k. if 7 == k then some swapped_two else none;
  stats = record {
    preemptions = 1;
    swaps_out = 1;
    swaps_in = 0;
    recomputes = 0;
    rejects = 0;
    bytes_swapped = 0;
    blocks_reclaimed = 2;
  };
  arena = λ l b o. 0;
  n_layers = 1;
  n_heads = 3;
  head_bytes = 2;
}

swap_in_mismatch_example :
    (a : Allocator.Allocator) × (swap_in 7 swapping
      ≡ (err runtime_error, record swapping { pool = a }))
    × IsWellFormed a
    × (num_free a + 3 ≡ 4)
swap_in_mismatch_example =
    swap_in_mismatch 7 4 3 (1 ∷ 2 ∷ []) (3 ∷ 4 ∷ []) [] [] swapping refl
      (λ e. absurd (omega (arith, e))) (fresh_pool-IsWellFormed 4 2 (omega arith)) (omega arith)
