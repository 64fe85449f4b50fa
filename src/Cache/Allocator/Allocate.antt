-- ===== src/Cache/Allocator/Allocate.antt =====
-- `allocate` of edgerag/cache/allocator.py: all or nothing.
use edgerag.Prelude.{
  ℕ, zero, suc, ◌+◌, ◌-◌, ◌≤◌, ◌<◌, ◌≡◌, refl, pos, List, length, ok, err, out_of_blocks, arith,
  length-take, length-drop, [],
}
use edgerag.Prelude.Counting.{occ, occ-nil}
use edgerag.Cache.Allocator.{Allocator, num_free, take_blocks, allocate}
use edgerag.Cache.Allocator.Invariant.{
  IsWellFormed, SameShape, Gains, free_mark, take_blocks-refs, take_blocks-free,
  take_blocks-IsWellFormed,
}

take_blocks-Gains :
    (a : Allocator) (n : ℕ) → IsWellFormed a → Gains a (take_blocks n a).0 (take_blocks n a).1
take_blocks-Gains a n wf = record {
  well_formed = take_blocks-IsWellFormed a wf n;
  shape = same_shape;
  counts = take_blocks-refs a wf n;
}
  where
    same_shape : SameShape a (take_blocks n a).1
    same_shape = unfold take_blocks in record { same_blocks = refl; same_size = refl }

length-take_blocks : (a : Allocator) (n : ℕ) → n ≤ num_free a → length (take_blocks n a).0 ≡ n
unfolding take_blocks
length-take_blocks a n h = omega (arith, length-take n a.free_list)

num_free-take_blocks : (a : Allocator) (n : ℕ) → num_free (take_blocks n a).1 ≡ num_free a - n
unfolding take_blocks
num_free-take_blocks a n = length-drop n a.free_list

-- What a successful allocation of `n` blocks returns and leaves behind.
pub record Granted (a : Allocator) (n : ℕ) (bs : List ℕ) (a' : Allocator) : Type 0 where
  pub size : length bs ≡ n
  pub fresh : (b : ℕ) → occ b bs ≤ free_mark a b
  pub gains : Gains a bs a'
  pub free_left : num_free a' + n ≡ num_free a

Granted-zero : (a : Allocator) → IsWellFormed a → Granted a 0 [] a
Granted-zero a wf = record {
  size = refl;
  fresh = λ b. omega (arith, occ-nil b);
  gains = record {
    well_formed = wf;
    shape = record { same_blocks = refl; same_size = refl };
    counts = λ b. omega (arith, occ-nil b);
  };
  free_left = omega arith;
}

take_blocks-Granted :
    (a : Allocator) (n : ℕ)
    → IsWellFormed a
    → n ≤ num_free a
    → Granted a n (take_blocks n a).0 (take_blocks n a).1
take_blocks-Granted a n wf h = record {
  size = length-take_blocks a n h;
  fresh = take_blocks-free a wf n;
  gains = take_blocks-Gains a n wf;
  free_left = omega (arith, num_free-take_blocks a n);
}

-- From a well formed pool with at least `n` free blocks, `allocate` returns `n` distinct blocks that
-- nobody held, gives each exactly one reference and changes no other count; the free list is `n`
-- blocks shorter, and the pool stays well formed.
pub allocate_grants :
    (a : Allocator) (n : ℕ)
    → IsWellFormed a
    → n ≤ num_free a
    → (bs : List ℕ) × (a' : Allocator) × (allocate (pos n) a ≡ (ok bs, a')) × Granted a n bs a'
unfolding allocate
allocate_grants a zero wf h = ([], a, ground arith, Granted-zero a wf)
allocate_grants a (suc n) wf h = (
  (take_blocks (suc n) a).0,
  (take_blocks (suc n) a).1,
  ground arith,
  take_blocks-Granted a (suc n) wf h,
)

-- With fewer free blocks `allocate` raises OutOfBlocksError; it hands out nothing and changes no
-- more than the counter of such events.
pub allocate_refuses :
    (a : Allocator) (n : ℕ)
    → num_free a < n
    → allocate (pos n) a ≡ (
      err out_of_blocks,
      record a { stats = record a.stats { oom_events = a.stats.oom_events + 1 } },
    )
unfolding allocate
allocate_refuses a n h = ground arith
