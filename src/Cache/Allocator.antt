-- ===== src/Cache/Allocator.antt =====
-- edgerag/cache/allocator.py: the pool of physical blocks, a free list and reference counts.
-- The head of `free_list` is the end of the Python list, where the code pops and appends. Block ids
-- are natural numbers, as `list(range(...))` makes them; counts that the code tests for a sign are ℤ.
pub mod Invariant
pub mod Fresh
pub mod Allocate
pub mod Free
pub mod Incref
pub mod Split
pub mod Conservation
pub mod Check
pub mod Sizing
use edgerag.Prelude.{
  ℕ, zero, suc, ◌+◌, ◌-◌, ◌*◌, ◌/◌, max, ℤ, pos, negsuc, pos_part, sub_ℕ, ◌+ℤ◌, eqb_ℤ, Bool, true,
  false, not, ◌&&◌, ◌||◌, List, [], ◌∷◌, ◌++◌, length, get_or, set, take, drop, replicate, ltb, leb,
  ◌==◌, if◌then◌else◌, Result, ok, err, Action, pure, throw, lift, get, modify, guard, ◌>>=◌, ◌>>◌,
  value_error, allocator_error, out_of_blocks, double_free, index_error,
}

pub record Stats : Type 0 where
  pub allocations : ℕ
  pub frees : ℕ
  pub forks : ℕ
  pub copy_on_writes : ℕ
  pub peak_used_blocks : ℕ
  pub oom_events : ℕ

pub record Allocator : Type 0 where
  pub num_blocks : ℕ
  pub block_size : ℕ
  pub refcounts : List ℕ
  pub free_list : List ℕ
  pub stats : Stats

abbrev pub no_stats : Stats
no_stats = record {
  allocations = 0;
  frees = 0;
  forks = 0;
  copy_on_writes = 0;
  peak_used_blocks = 0;
  oom_events = 0;
}

-- `from`, `from + 1`, and so on: `range(num_blocks - 1, -1, -1)` read from its end.
abbrev pub count_up : ℕ → ℕ → List ℕ
count_up from zero = []
count_up from (suc n) = from ∷ count_up (suc from) n

unfoldable pub init : ℤ → ℤ → Result Allocator
init (negsuc _) _ = err value_error
init (pos n) (negsuc _) = err value_error
init (pos n) (pos size) =
    if leb n 0
    then err value_error
    else if leb size 0
    then err value_error
    else ok (record {
      num_blocks = n;
      block_size = size;
      refcounts = replicate n 0;
      free_list = count_up 0 n;
      stats = no_stats;
    })

abbrev pub num_free : Allocator → ℕ
num_free a = length a.free_list

abbrev pub num_used : Allocator → ℤ
num_used a = sub_ℕ a.num_blocks (num_free a)

-- The count that the code reads at a valid id.
abbrev pub refs : Allocator → ℕ → ℕ
refs a b = get_or a.refcounts b 0

-- `refcount(block)`: the list is indexed with no check before it.
unfoldable pub refcount : ℕ → Allocator → Result ℕ
refcount b a = if ltb b (length a.refcounts) then ok (refs a b) else err index_error

abbrev pub set_refs : Allocator → ℕ → ℕ → Allocator
set_refs a b n = record a { refcounts = set a.refcounts b n }

unfoldable pub validate : ℕ → Action Allocator (Unit {0})
validate b a = guard (ltb b a.num_blocks) allocator_error a

-- `for block in blocks: self._refcount[block] = 1`
unfoldable pub set_ones : List ℕ → List ℕ → List ℕ
set_ones [] counts = counts
set_ones (b ∷ bs) counts = set_ones bs (set counts b 1)

-- The part of `allocate` behind its guards.
unfoldable pub take_blocks : ℕ → Allocator → List ℕ × Allocator
unfolding set_ones
take_blocks n a =
    let blocks = take n a.free_list in
    let taken = record a {
      free_list = drop n a.free_list;
      refcounts = set_ones blocks a.refcounts;
    } in
    let counted = record a.stats {
      allocations = a.stats.allocations + n;
      peak_used_blocks = max a.stats.peak_used_blocks (pos_part (num_used taken));
    } in
    (blocks, record taken { stats = counted })

unfoldable pub allocate : ℤ → Action Allocator (List ℕ)
unfolding take_blocks
allocate (negsuc _) a = (err value_error, a)
allocate (pos n) a =
    if n == 0
    then (ok [], a)
    else if ltb (num_free a) n
    then (
      err out_of_blocks,
      record a { stats = record a.stats { oom_events = a.stats.oom_events + 1 } },
    )
    else (ok (take_blocks n a).0, (take_blocks n a).1)

-- `if self._refcount[block] == 0` behind the decrement in `free`: 1 if the block is reclaimed.
unfoldable pub reclaim : ℕ → Action Allocator ℕ
reclaim b a = if refs a b == 0 then (ok 1, record a { free_list = b ∷ a.free_list }) else (ok 0, a)

-- The body of the loop of `free`.
unfoldable pub release : ℕ → Action Allocator ℕ
unfolding validate reclaim
release b = do
  validate b
  a ← get
  guard (not (refs a b == 0)) double_free
  modify (λ s. set_refs s b (refs s b - 1))
  reclaim b

unfoldable pub release_each : List ℕ → Action Allocator ℕ
unfolding release
release_each [] = pure 0
release_each (b ∷ bs) = do reclaimed ← release b; more ← release_each bs; pure (reclaimed + more)

unfoldable pub free : List ℕ → Action Allocator ℕ
unfolding release_each
free blocks = do
  reclaimed ← release_each blocks
  modify (λ a. record a { stats = record a.stats { frees = a.stats.frees + length blocks } })
  pure reclaimed

-- The first loop of `incref`, which only looks.
unfoldable pub check_held : List ℕ → Action Allocator (Unit {0})
unfolding validate
check_held [] = pure tt
check_held (b ∷ bs) = do
  validate b
  a ← get
  guard (not (refs a b == 0)) allocator_error
  check_held bs

unfoldable pub add_refs : List ℕ → Allocator → Allocator
add_refs [] a = a
add_refs (b ∷ bs) a = add_refs bs (set_refs a b (refs a b + 1))

unfoldable pub incref : List ℕ → Action Allocator (Unit {0})
unfolding check_held add_refs
incref blocks = do check_held blocks; modify (add_refs blocks)

unfoldable pub is_shared : ℕ → Action Allocator Bool
unfolding validate
is_shared b = do validate b; a ← get; pure (ltb 1 (refs a b))

-- `[0]` of a list that the code knows is not empty.
unfoldable pub first_of_list : List ℕ → Action Allocator ℕ
first_of_list [] = throw index_error
first_of_list (b ∷ _) = pure b

-- A shared block: a fresh one in its place, and one reference fewer.
unfoldable pub split_block : ℕ → Action Allocator ℕ
unfolding allocate first_of_list
split_block b = do
  blocks ← allocate (pos 1)
  new_block ← first_of_list blocks
  modify (λ a. set_refs a b (refs a b - 1))
  modify (λ a. record a { stats = record a.stats { copy_on_writes = a.stats.copy_on_writes + 1 } })
  pure new_block

unfoldable pub copy_on_write : ℕ → Action Allocator ℕ
unfolding validate split_block
copy_on_write b = do
  validate b
  a ← get
  guard (not (refs a b == 0)) allocator_error
  if refs a b == 1 then pure b else split_block b

unfoldable pub blocks_needed : ℤ → Allocator → Result ℕ
blocks_needed (negsuc _) a = err value_error
blocks_needed (pos n) a = ok ((n + a.block_size - 1) / a.block_size)

abbrev pub contains : ℕ → List ℕ → Bool
contains b [] = false
contains b (x ∷ xs) = x == b || contains b xs

-- `set(blocks)`, as a list with no repetition.
abbrev pub distinct : List ℕ → List ℕ
distinct [] = []
distinct (x ∷ xs) = if contains x xs then distinct xs else x ∷ distinct xs

-- The loop of `check_invariants` over the ids below `n`; it stops at the first bad block.
unfoldable pub check_blocks : ℕ → ℕ → Action Allocator (Unit {0})
check_blocks from zero = pure tt
check_blocks from (suc n) = do
  a ← get
  guard (not (contains from a.free_list && not (refs a from == 0))) allocator_error
  guard (not (not (contains from a.free_list) && leb (refs a from) 0)) allocator_error
  check_blocks (suc from) n

-- `self.num_used + self.num_free == self.num_blocks`
unfoldable pub conserved : Allocator → Bool
unfolding ◌+ℤ◌
conserved a = eqb_ℤ (num_used a +ℤ pos (num_free a)) (pos a.num_blocks)

unfoldable pub check_invariants : Action Allocator (Unit {0})
unfolding check_blocks conserved
check_invariants = do
  a ← get
  guard (length (distinct a.free_list) == length a.free_list) allocator_error
  check_blocks 0 a.num_blocks
  guard (conserved a) allocator_error
