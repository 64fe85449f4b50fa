-- ===== src/Cache/BlockTable/Locate.antt =====
-- `locate` of edgerag/cache/block_table.py: which positions can be read, and where they lie.
use edgerag.Cache.BlockTable.{View, block_at, locate, capacity}
use edgerag.Prelude.{
  ◌≤◌, List, ℕ, ◌<◌, ◌*◌, ◌%◌, ◌/◌, length, ◌≡◌, arith, ◌+◌, ok, pos, get_or, ◌∷◌, ◌⊎◌, suc, err,
  [], index_error, range_cases, zero, inl, refl, lt→ltb, inr, negsuc, ℤ, ◌<ℤ◌, ◌≤ℤ◌,
}

-- The table has room for its tokens.
abbrev pub IsCovered : View → Type 0
IsCovered v = v.table.num_tokens ≤ capacity v

pub block_at_ok : (bs : List ℕ) (i : ℕ) → i < length bs → block_at bs i ≡ ok (get_or bs i 0)
block_at_ok [] i h = absurd (omega arith)
block_at_ok (b ∷ bs) zero h = refl
block_at_ok (b ∷ bs) (suc i) h = block_at_ok bs i (omega arith)

div_lt : (p n size : ℕ) → 0 < size → p < n * size → p / size < n
div_lt p n size h l = grind arith

mod_lt : (p size : ℕ) → 0 < size → p % size < size
mod_lt p size h = grind arith

-- The written positions of a table.
locate_written :
    (v : View) (n : ℕ)
    → IsCovered v
    → 0 < v.pool.block_size
    → n < v.table.num_tokens
    → (i : ℕ) × (offset : ℕ) × (i < length v.table.blocks)
      × (offset < v.pool.block_size)
      × (i * v.pool.block_size + offset ≡ n)
      × (locate (pos n) v ≡ ok (get_or v.table.blocks i 0, offset))
unfolding locate
locate_written v n covered positive written =
    let size = v.pool.block_size in
    let inside : n / size < length v.table.blocks =
      div_lt n (length v.table.blocks) size positive (omega arith) in
    (
      n / size,
      n % size,
      inside,
      mod_lt n size positive,
      grind arith,
      rw (lt→ltb n v.table.num_tokens written, block_at_ok v.table.blocks (n / size) inside),
    )

locate_beyond : (v : View) (n : ℕ) → v.table.num_tokens ≤ n → locate (pos n) v ≡ err index_error
unfolding locate
locate_beyond v n beyond = ground arith

locate_negative : (v : View) (m : ℕ) → locate (negsuc m) v ≡ err index_error
unfolding locate
locate_negative v m = refl

-- In a table with room for its tokens, `locate` answers at exactly the written positions: there it
-- returns an entry of the table and an offset inside the block that put the position together again,
-- and at every other position, negative ones included, it raises IndexError.
pub locate_lem :
    (v : View) (p : ℤ)
    → IsCovered v
    → 0 < v.pool.block_size
    → ((n : ℕ) × (p ≡ pos n)
        × (n < v.table.num_tokens)
        × ((i : ℕ) × (offset : ℕ) × (i < length v.table.blocks)
            × (offset < v.pool.block_size)
            × (i * v.pool.block_size + offset ≡ n)
            × (locate p v ≡ ok (get_or v.table.blocks i 0, offset))))
      ⊎ (((p <ℤ pos 0) ⊎ (pos v.table.num_tokens ≤ℤ p)) × (locate p v ≡ err index_error))
locate_lem v (negsuc m) covered positive = inr (inl (omega arith), locate_negative v m)
locate_lem v (pos n) covered positive = elim (range_cases n v.table.num_tokens) [
  | inl written ↦ inl (n, refl, written, locate_written v n covered positive written)
  | inr beyond ↦ inr (inr (omega arith), locate_beyond v n beyond)
]

-- Two written positions of one table lie at the same entry and offset only if they are the same.
pub locate_slot_injective :
    (p q size : ℕ) → 0 < size → p / size ≡ q / size → p % size ≡ q % size → p ≡ q
locate_slot_injective p q size h e f = grind arith

pub block_at_err : (bs : List ℕ) (i : ℕ) → length bs ≤ i → block_at bs i ≡ err index_error
block_at_err [] i h = refl
block_at_err (b ∷ bs) zero h = absurd (omega arith)
block_at_err (b ∷ bs) (suc i) h = block_at_err bs i (omega arith)
