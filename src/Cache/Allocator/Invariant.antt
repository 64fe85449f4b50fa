-- ===== src/Cache/Allocator/Invariant.antt =====
-- When an allocator is well formed, and what its loops do to the counts.
use edgerag.Prelude.{
  ℕ, ◌+◌, ◌≤◌, ◌<◌, ◌≡◌, refl, sym, ◌∙◌, ap, List, [], ◌∷◌, length, get_or, set, take, drop, ltb,
  ◌==◌, if◌then◌else◌, arith, get_or-set, length-set, take-append-drop, get_or-out_of_range,
}
use edgerag.Prelude.Counting.{occ, occ-append, occ-cons, occ-nil}
use edgerag.Cache.Allocator.{Allocator, refs, set_ones, take_blocks, Stats}

-- 1 for a block that has to be in the free list: a block of the pool with no holder.
abbrev pub free_mark : Allocator → ℕ → ℕ
free_mark a b = if ltb b a.num_blocks then (if refs a b == 0 then 1 else 0) else 0

-- There is one count for each block, and the free list holds exactly the blocks of the pool whose
-- count is zero, each once.
pub record IsWellFormed (a : Allocator) : Type 0 where
  pub positive : 0 < a.block_size
  pub sized : length a.refcounts ≡ a.num_blocks
  pub marked : (b : ℕ) → occ b a.free_list ≡ free_mark a b

-- No operation changes the size of the pool or of a block.
pub record SameShape (a a' : Allocator) : Type 0 where
  pub same_blocks : a'.num_blocks ≡ a.num_blocks
  pub same_size : a'.block_size ≡ a.block_size

pub length-set_ones : (bs counts : List ℕ) → length (set_ones bs counts) ≡ length counts
unfolding set_ones
length-set_ones [] counts = refl
length-set_ones (b ∷ bs) counts = length-set_ones bs (set counts b 1) ∙ length-set counts b 1

-- The ids in a list are those of an array of this length.
abbrev pub InRange : ℕ → List ℕ → Type 0
InRange n bs = (b : ℕ) → n ≤ b → occ b bs ≡ 0

pub InRange-head : (n x : ℕ) (bs : List ℕ) → InRange n (x ∷ bs) → x < n
InRange-head n x bs h = ground (arith, h x, occ-cons x x bs)

pub InRange-tail : (n x : ℕ) (bs : List ℕ) → InRange n (x ∷ bs) → InRange n bs
InRange-tail n x bs h b l = omega (arith, h b l, occ-cons b x bs)

pub get_or-set_ones :
    (bs counts : List ℕ) (b : ℕ)
    → InRange (length counts) bs
    → get_or (set_ones bs counts) b 0 ≡ (if occ b bs == 0 then get_or counts b 0 else 1)
unfolding set_ones
get_or-set_ones [] counts b h = ground (arith, occ-nil b)
get_or-set_ones (x ∷ bs) counts b h = ground (
  arith,
  get_or-set_ones bs (set counts x 1) b
      (λ c l. InRange-tail (length counts) x bs h c (omega (arith, length-set counts x 1))),
  get_or-set counts x b 1 0 (InRange-head (length counts) x bs h),
  occ-cons b x bs,
)

module _ (a : Allocator) (wf : IsWellFormed a) where
  pub free_list-InRange : InRange a.num_blocks a.free_list
  free_list-InRange b l = ground (arith, wf.marked b)

  occ-take-drop :
      (n b : ℕ) → occ b a.free_list ≡ occ b (take n a.free_list) + occ b (drop n a.free_list)
  occ-take-drop n b =
      ap (occ b) (sym (take-append-drop n a.free_list))
      ∙ occ-append b (take n a.free_list) (drop n a.free_list)

  take-InRange : (n : ℕ) → InRange (length a.refcounts) (take n a.free_list)
  take-InRange n b l = omega (arith, occ-take-drop n b, free_list-InRange b, wf.sized)

  -- Each block handed out was free, is handed out once, and has one holder afterwards.
  pub take_blocks-refs :
      (n b : ℕ) → refs (take_blocks n a).1 b ≡ refs a b + occ b (take_blocks n a).0
  unfolding take_blocks
  take_blocks-refs n b = ground (
    arith,
    get_or-set_ones (take n a.free_list) a.refcounts b (take-InRange n),
    occ-take-drop n b,
    wf.marked b,
  )

  pub take_blocks-free : (n b : ℕ) → occ b (take_blocks n a).0 ≤ free_mark a b
  unfolding take_blocks
  take_blocks-free n b = omega (arith, occ-take-drop n b, wf.marked b)

  pub take_blocks-IsWellFormed : (n : ℕ) → IsWellFormed (take_blocks n a).1
  unfolding take_blocks
  take_blocks-IsWellFormed n = record {
    positive = wf.positive;
    sized = length-set_ones (take n a.free_list) a.refcounts ∙ wf.sized;
    marked = λ b. ground (
      arith,
      get_or-set_ones (take n a.free_list) a.refcounts b (take-InRange n),
      occ-take-drop n b,
      wf.marked b,
    );
  }

-- A block with a holder is a block of the pool.
pub refs-in_range : (a : Allocator) → IsWellFormed a → (b : ℕ) → 0 < refs a b → b < a.num_blocks
refs-in_range a wf b h = ground (arith, get_or-out_of_range a.refcounts b 0, wf.sized)

-- `bs` are blocks that somebody holds, each at most as often as it is counted.
abbrev pub Held : Allocator → List ℕ → Type 0
Held a bs = (b : ℕ) → occ b bs ≤ refs a b

-- The counts of `a'` are those of `a` with one more reference for each entry of `bs`.
pub record Gains (a : Allocator) (bs : List ℕ) (a' : Allocator) : Type 0 where
  pub well_formed : IsWellFormed a'
  pub shape : SameShape a a'
  pub counts : (b : ℕ) → refs a' b ≡ refs a b + occ b bs

-- The counts of `a'` are those of `a` with one reference fewer for each entry of `bs`.
pub record Loses (a : Allocator) (bs : List ℕ) (a' : Allocator) : Type 0 where
  pub well_formed : IsWellFormed a'
  pub shape : SameShape a a'
  pub counts : (b : ℕ) → refs a' b + occ b bs ≡ refs a b

-- The statistics have no part in it.
pub IsWellFormed-stats :
    (a : Allocator) (s : Stats) → IsWellFormed a → IsWellFormed (record a { stats = s })
IsWellFormed-stats a s wf = record { positive = wf.positive; sized = wf.sized; marked = wf.marked }
