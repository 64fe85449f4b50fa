-- ===== src/Cache/Paged.antt =====
-- edgerag/cache/paged.py: the keys and values of one sequence, in the blocks of its table.
-- A cell stands for the key and the value of one token in one layer, over all heads: the code writes,
-- copies and reads the two pools by the same calls at the same places. A pool tensor of a layer maps
-- a block and a slot to a cell. `n_pool_layers` is `len(key_pool)`.
pub mod Tabulate
pub mod Gather
pub mod Write
pub mod Private
pub mod Update
pub mod Layer
pub mod Pass
pub mod Whole
use edgerag.Cache.Allocator.{Allocator}
use edgerag.Cache.BlockTable.{View, BlockTable}
use edgerag.Prelude.{
  ℕ, Action, List, Result, if◌then◌else◌, pure, ok, [], ◌∷◌, take, ◌>>=◌, ◌>>◌, leb, ◌==◌, suc, ◌+◌,
  ◌-◌, ◌/◌, ◌++◌, err, modify, get, not, ◌*◌, none, ltb, ◌&&◌, some, ◌%◌, pos, lift,
  not_implemented, zero, index_error, length,
}
use edgerag.Cache.Allocator
use edgerag.Cache.BlockTable

-- One more than the last block of the range; Python's floor division gives -1 for an empty range at
-- the start.
abbrev pub range_end : ℕ → ℕ → ℕ → ℕ
range_end start n size = if start + n == 0 then 0 else (start + n - 1) / size + 1

-- `block_ids[positions // block_size]` and `positions % block_size`, for `n` positions from `p` on.
-- An index out of range raises, before anything is written.
abbrev pub slots : List ℕ → ℕ → ℕ → ℕ → Result (List (ℕ × ℕ))
slots blocks size zero p = ok []
slots blocks size (suc n) p = elim (BlockTable.block_at blocks (p / size)) [
  | err e ↦ err e
  | ok b ↦ elim (slots blocks size n (p + 1)) [
    | err e ↦ err e
    | ok rest ↦ ok ((b, p % size) ∷ rest)
  ]
]

module _ (A : Type 0) where
  -- Layer, block, slot.
  abbrev pub Arena : Type 0
  Arena = ℕ → ℕ → ℕ → A

  pub record Paged : Type 0 where
    pub view : View
    pub arena : Arena
    pub first_layer : ℕ
    pub n_pool_layers : ℕ
    pub pending_tokens : ℕ

module _ {A : Type 0} where
  -- A method of the table, called from a method of the cache.
  abbrev pub on_table : {B : Type 0} → Action View B → Action (Paged A) B
  on_table m s = let (r, v) = m s.view in (r, record s { view = v })

  abbrev pub seq_len : Paged A → ℕ
  seq_len s = s.view.table.num_tokens

  -- `key_pool[self._pool_index(layer_idx)]`: a negative index counts from the end, as in Python.
  unfoldable pub pool_index : ℕ → Paged A → Result ℕ
  pool_index layer s =
      if leb s.first_layer layer
      then if ltb (layer - s.first_layer) s.n_pool_layers
        then ok (layer - s.first_layer)
        else err index_error
      else if leb (s.first_layer - layer) s.n_pool_layers
      then ok (s.n_pool_layers - (s.first_layer - layer))
      else err index_error

  -- `pool[layer][:, new].copy_(pool[layer][:, old])` for every layer of the pool.
  abbrev pub copy_block : ℕ → ℕ → Paged A → Paged A
  copy_block old new s = record s {
    arena = λ l b o. if b == new && ltb l s.n_pool_layers then s.arena l old o else s.arena l b o;
  }

  -- The body of the loop of `_unshare_write_range`.
  unfoldable pub unshare_copy : ℕ → Action (Paged A) (Unit {0})
  unshare_copy logical = do
    copied ← on_table (BlockTable.unshare logical)
    elim copied [ none ↦ pure tt | some (old, new) ↦ modify (copy_block old new) ]

  -- The loop of `_unshare_write_range`, for `count` blocks from `logical` on.
  unfoldable pub unshare_loop : ℕ → ℕ → Action (Paged A) (Unit {0})
  unfolding unshare_copy
  unshare_loop zero logical = pure tt
  unshare_loop (suc count) logical = do unshare_copy logical; unshare_loop count (logical + 1)

  unfoldable pub unshare_write_range : ℕ → ℕ → Action (Paged A) (Unit {0})
  unfolding unshare_loop
  unshare_write_range start n s = elim s.view.table.blocks [
    | [] ↦ (ok tt, s)
    | _ ∷ _ ↦
        let size = s.view.pool.block_size in
        unshare_loop (range_end start n size - start / size) (start / size) s
  ]

  -- One cell of the pool of one layer.
  abbrev pub put : ℕ → ℕ × ℕ → A → Arena A → Arena A
  put l at a arena = λ l' b' o'. if l' == l && (b' == at.0 && o' == at.1) then a else arena l' b' o'

  -- `pool[:, block_of, offset_of] = source[0]`
  abbrev pub put_all : ℕ → List (ℕ × ℕ) → List A → Arena A → Arena A
  put_all l [] rows arena = arena
  put_all l (at ∷ ats) [] arena = arena
  put_all l (at ∷ ats) (a ∷ rows) arena = put_all l ats rows (put l at a arena)

  -- `_write`: the rows from position `start` on.
  unfoldable pub write : ℕ → List A → ℕ → Action (Paged A) (Unit {0})
  write l rows start s =
      elim (slots s.view.table.blocks s.view.pool.block_size (length rows) start) [
        | err e ↦ (err e, s)
        | ok ats ↦ (ok tt, record s { arena = put_all l ats rows s.arena })
      ]

  -- The cells of one block: `pool[:, block]`.
  abbrev pub cells_from : Arena A → ℕ → ℕ → ℕ → ℕ → List A
  cells_from arena l b o zero = []
  cells_from arena l b o (suc n) = arena l b o ∷ cells_from arena l b (o + 1) n

  abbrev pub flatten : Arena A → ℕ → ℕ → List ℕ → List A
  flatten arena l size [] = []
  flatten arena l size (b ∷ bs) = cells_from arena l b 0 size ++ flatten arena l size bs

  -- `_gather_pool`: the blocks one after the other, cut to the length of the sequence.
  unfoldable pub gather_pool : ℕ → Paged A → List A
  gather_pool l s = take (seq_len s) (flatten s.arena l s.view.pool.block_size s.view.table.blocks)

  unfoldable pub gather : ℕ → Paged A → Result (List A)
  unfolding pool_index gather_pool
  gather layer s = elim s.view.table.blocks [
    | [] ↦ ok []
    | _ ∷ _ ↦ elim (pool_index layer s) [ err e ↦ err e | ok l ↦ ok (gather_pool l s) ]
  ]

  -- The part of `update` that the first layer runs, once for all layers.
  unfoldable pub begin_update : ℕ → Action (Paged A) (Unit {0})
  unfolding unshare_write_range
  begin_update n = do
    modify (λ s. record s { pending_tokens = n })
    on_table (BlockTable.append (pos n))
    s ← get
    unshare_write_range (seq_len s - n) n

  -- The part of `update` that every layer runs. The subtraction stops at 0: the source's first position
  -- is negative only after `free` without `reset`, where the table is empty, and any row then raises
  -- IndexError on both sides.
  unfoldable pub write_layer : List A → ℕ → Action (Paged A) (List A)
  unfolding write gather
  write_layer rows layer = do
    s ← get
    l ← lift (pool_index layer s)
    write l rows (seq_len s - s.pending_tokens)
    t ← get
    lift (gather layer t)

  -- `update` of a key and a value with the first axis `batch` and the rows of their first entry.
  unfoldable pub paged_update : ℕ → List A → ℕ → Action (Paged A) (List A)
  unfolding begin_update write_layer
  paged_update batch rows layer s =
      if not (batch == 1)
      then (err not_implemented, s)
      else (if layer == s.first_layer
          then (do begin_update (length rows); write_layer rows layer) s
          else write_layer rows layer s)

  -- `fork`: the table of the new cache, which has the same arena and no pending tokens.
  unfoldable pub paged_fork : Action (Paged A) BlockTable
  paged_fork = on_table BlockTable.fork

  unfoldable pub paged_free : Action (Paged A) ℕ
  paged_free = on_table BlockTable.free

  -- `reset`; the result of `free` is dropped.
  unfoldable pub reset : Action (Paged A) (Unit {0})
  unfolding paged_free
  reset = do paged_free; modify (λ s. record s { pending_tokens = 0 })

  -- `nbytes` for the two dimensions of the model and the size of a number.
  unfoldable pub nbytes : ℕ → ℕ → ℕ → Paged A → ℕ
  nbytes n_kv_heads head_dim itemsize s =
      let per_block = s.view.pool.block_size * n_kv_heads * head_dim in
      2 * length s.view.table.blocks * per_block * itemsize * s.n_pool_layers

  -- `used_bytes` of a cache that reserves `reserved` bytes.
  unfoldable pub used_bytes : ℕ → Paged A → ℕ
  used_bytes reserved s = elim s.view.table.blocks [
    | [] ↦ 0
    | _ ∷ _ ↦ reserved * seq_len s / BlockTable.capacity s.view
  ]
