-- ===== src/Cache/Preemption.antt =====
-- edgerag/cache/preemption.py: whom to evict, and the swap of a sequence to host memory and back. A
-- cell stands for the key and the value of one token in one layer, over all heads. A swapped tensor has
-- the shape (kv heads, blocks, slots, head dimension); its blocks are the lists of cells here, and its
-- first axis is `heads`. The two pools have one shape, so what the code asks of the keys holds for the
-- values; `head_bytes` is the size of one head of one key. Pinning the host memory is left out.
pub mod Victims
pub mod Mismatch
use edgerag.Cache.Allocator
use edgerag.Cache.Paged.{Arena, cells_from, put}
use edgerag.Cache.Allocator.{Allocator, release}
use edgerag.Prelude.{
  ℕ, Action, List, Option, Bool, ◌∷◌, [], Result, ◌+◌, if◌then◌else◌, pure, none, true, suc, length,
  err, ◌==◌, not, leb, ◌>>◌, ◌>>=◌, ltb, index_error, ok, key_error, value_error, zero, ◌&&◌, ◌*◌,
  modify, runtime_error, pos, some, lift, throw,
}
use mathlib.Core.List.{reverse}

pub data PreemptionPolicy : Type 0 where
  swap recompute reject : PreemptionPolicy

-- Layer, block, slot.
pub record SwappedSequence (A : Type 0) : Type 0 where
  pub num_tokens : ℕ
  pub heads : ℕ
  pub layers : List (List (List A))

pub record PreemptionStats : Type 0 where
  pub preemptions : ℕ
  pub swaps_out : ℕ
  pub swaps_in : ℕ
  pub recomputes : ℕ
  pub rejects : ℕ
  pub bytes_swapped : ℕ
  pub blocks_reclaimed : ℕ

-- The preemptor, beside the arena that the methods are handed.
pub record Preemptor (A : Type 0) : Type 0 where
  pub pool : Allocator
  pub policy : PreemptionPolicy
  pub swapped : ℕ → Option (SwappedSequence A)
  pub stats : PreemptionStats
  pub arena : Arena A
  pub n_layers : ℕ
  pub n_heads : ℕ
  pub head_bytes : ℕ

abbrev pub all_in_range : ℕ → List ℕ → Bool
all_in_range n [] = true
all_in_range n (b ∷ bs) = ltb b n && all_in_range n bs

module _ {A : Type 0} where
  abbrev pub on_allocator : {B : Type 0} → Action Allocator B → Action (Preemptor A) B
  on_allocator m s = let (r, p) = m s.pool in (r, record s { pool = p })

  abbrev pub layer_blocks : Arena A → ℕ → ℕ → List ℕ → List (List A)
  layer_blocks arena l size [] = []
  layer_blocks arena l size (b ∷ bs) = cells_from arena l b 0 size ∷ layer_blocks arena l size bs

  -- `[pool[:, blocks] for pool in pools]`, from layer `l` on.
  abbrev pub copy_layers : Arena A → ℕ → ℕ → ℕ → List ℕ → List (List (List A))
  copy_layers arena l zero size blocks = []
  copy_layers arena l (suc n) size blocks =
      layer_blocks arena l size blocks ∷ copy_layers arena (l + 1) n size blocks

  abbrev pub total_cells : List (List A) → ℕ
  total_cells [] = 0
  total_cells (cells ∷ rest) = length cells + total_cells rest

  -- `nbytes`: an empty list of layers has no first one.
  unfoldable pub swapped_nbytes : ℕ → SwappedSequence A → Result ℕ
  swapped_nbytes head_bytes r = elim r.layers [
    | [] ↦ err index_error
    | first ∷ _ ↦ ok (2 * (r.heads * total_cells first * head_bytes) * length r.layers)
  ]

  abbrev pub keep : ℕ → Option (SwappedSequence A) → Preemptor A → Preemptor A
  keep request entry s = record s { swapped = λ k. if request == k then entry else s.swapped k }

  abbrev pub count_out : Preemptor A → Preemptor A
  count_out s = record s {
    stats = record s.stats {
      preemptions = s.stats.preemptions + 1;
      swaps_out = s.stats.swaps_out + 1;
    };
  }

  abbrev pub count_bytes : ℕ → ℕ → Preemptor A → Preemptor A
  count_bytes bytes reclaimed s = record s {
    stats = record s.stats {
      bytes_swapped = s.stats.bytes_swapped + bytes;
      blocks_reclaimed = s.stats.blocks_reclaimed + reclaimed;
    };
  }

  unfoldable pub swap_out : ℕ → List ℕ → ℕ → Action (Preemptor A) (SwappedSequence A)
  unfolding swapped_nbytes
  swap_out request blocks num_tokens s =
      if not (all_in_range s.pool.num_blocks blocks)
      then (err index_error, s)
      else (let r : SwappedSequence A = record {
        num_tokens = num_tokens;
        heads = s.n_heads;
        layers = copy_layers s.arena 0 s.n_layers s.pool.block_size blocks;
      } in
          (do
            modify (keep request (some r))
            reclaimed ← on_allocator (Allocator.free blocks)
            modify count_out
            bytes ← lift (swapped_nbytes s.head_bytes r)
            modify (count_bytes bytes reclaimed)
            pure r)
            s)

  -- `pool[:, blocks] = tensor` for one block of cells.
  abbrev pub put_cells : ℕ → ℕ → ℕ → List A → Arena A → Arena A
  put_cells l b o [] arena = arena
  put_cells l b o (a ∷ cells) arena = put_cells l b (o + 1) cells (put l (b, o) a arena)

  abbrev pub put_blocks : ℕ → List ℕ → List (List A) → Arena A → Arena A
  put_blocks l [] stored arena = arena
  put_blocks l (b ∷ bs) [] arena = arena
  put_blocks l (b ∷ bs) (cells ∷ stored) arena =
      put_blocks l bs stored (put_cells l b 0 cells arena)

  -- One block is assigned to each of the blocks.
  abbrev pub put_same : ℕ → List ℕ → List A → Arena A → Arena A
  put_same l [] cells arena = arena
  put_same l (b ∷ bs) cells arena = put_same l bs cells (put_cells l b 0 cells arena)

  -- The assignment for one layer: the number of blocks has to fit, or to be one.
  unfoldable pub restore_layer : ℕ → List ℕ → List (List A) → Action (Preemptor A) (Unit {0})
  restore_layer l blocks stored s =
      if length stored == length blocks
      then (ok tt, record s { arena = put_blocks l blocks stored s.arena })
      else elim stored [
        | [] ↦ (err runtime_error, s)
        | cells ∷ more ↦ elim more [
          | [] ↦ (ok tt, record s { arena = put_same l blocks cells s.arena })
          | _ ∷ _ ↦ (err runtime_error, s)
        ]
      ]

  unfoldable pub restore_layers :
      ℕ → List ℕ → List (List (List A)) → Action (Preemptor A) (Unit {0})
  unfolding restore_layer
  restore_layers l blocks [] = pure tt
  restore_layers l blocks (stored ∷ rest) = do
    restore_layer l blocks stored
    restore_layers (l + 1) blocks rest

  abbrev pub count_in : ℕ → Preemptor A → Preemptor A
  count_in bytes s = record s {
    stats = record s.stats {
      swaps_in = s.stats.swaps_in + 1;
      bytes_swapped = s.stats.bytes_swapped + bytes;
    };
  }

  -- Behind the lookup. The number of blocks is the first axis of the first layer's tensor.
  unfoldable pub restore : ℕ → SwappedSequence A → Action (Preemptor A) (List ℕ × ℕ)
  unfolding restore_layers swapped_nbytes
  restore request r s = elim r.layers [
    | [] ↦ (err index_error, s)
    | _ ∷ _ ↦
        (do
          blocks ← on_allocator (Allocator.allocate (pos r.heads))
          restore_layers 0 blocks r.layers
          modify (keep request none)
          bytes ← lift (swapped_nbytes s.head_bytes r)
          modify (count_in bytes)
          pure (blocks, r.num_tokens))
          s
  ]

  -- `self.swapped.get(request_id)`
  unfoldable pub restore_found : ℕ → Option (SwappedSequence A) → Action (Preemptor A) (List ℕ × ℕ)
  unfolding restore
  restore_found request none = throw key_error
  restore_found request (some r) = restore request r

  unfoldable pub swap_in : ℕ → Action (Preemptor A) (List ℕ × ℕ)
  unfolding restore_found
  swap_in request s = restore_found request (s.swapped request) s

  abbrev pub count_dropped : ℕ → Preemptor A → Preemptor A
  count_dropped reclaimed s =
      let t = record s.stats {
        preemptions = s.stats.preemptions + 1;
        blocks_reclaimed = s.stats.blocks_reclaimed + reclaimed;
      } in
      record s {
        stats = elim s.policy [
          | recompute ↦ record t { recomputes = t.recomputes + 1 }
          | _ ↦ record t { rejects = t.rejects + 1 }
        ];
      }

  -- `preempt`, with or without the pools. Behind a swap it returns `len(record.keys[0])`.
  unfoldable pub preempt : ℕ → List ℕ → ℕ → Bool → Action (Preemptor A) ℕ
  unfolding swap_out
  preempt request blocks num_tokens has_pools s = elim s.policy [
    | swap ↦
        if has_pools
        then (do r ← swap_out request blocks num_tokens; pure r.heads) s
        else (err value_error, s)
    | _ ↦
        (do
          reclaimed ← on_allocator (Allocator.free blocks)
          modify (count_dropped reclaimed)
          pure reclaimed)
          s
  ]

-- The loop of `select_victims`, over the candidates from the newest on.
abbrev pub choose : ℕ → ℕ → List (ℕ × ℕ) → List ℕ
choose blocks_needed freed [] = []
choose blocks_needed freed ((request, held) ∷ rest) =
    if leb blocks_needed freed then [] else request ∷ choose blocks_needed (freed + held) rest

unfoldable pub select_victims : List (ℕ × ℕ) → ℕ → List ℕ
select_victims candidates blocks_needed = choose blocks_needed 0 (reverse candidates)
