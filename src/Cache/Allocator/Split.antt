-- ===== src/Cache/Allocator/Split.antt =====
-- `copy_on_write` of edgerag/cache/allocator.py: a shared block is replaced by a fresh one.
use edgerag.Prelude.{
  ℕ, ◌+◌, ◌<◌, ◌≡◌, length-set, arith, ◌⊎◌, get_or-set, inl, inr, ◌∙◌, ◌-◌, ◌∷◌, subst, refl, List,
  length, ok, err, out_of_blocks, [],
}
use edgerag.Prelude.Counting.{eq_mark, occ-cons, occ-nil, eq_mark_self}
use edgerag.Cache.Allocator.{
  Allocator, num_free, refs, set_refs, validate, first_of_list, split_block, copy_on_write, Stats,
}
use edgerag.Cache.Allocator.Invariant.{IsWellFormed, SameShape, refs-in_range, IsWellFormed-stats}
use edgerag.Cache.Allocator.Allocate.{Granted, allocate_grants, allocate_refuses}

-- One reference fewer to a block that keeps another.
module _ (a : Allocator) (wf : IsWellFormed a) (b : ℕ) (shared : 1 < refs a b) where
  abbrev lowered : Allocator
  lowered = set_refs a b (refs a b - 1)

  lowered-refs : (c : ℕ) → refs lowered c + eq_mark b c ≡ refs a c
  lowered-refs c = ground (arith, get_or-set a.refcounts b c (refs a b - 1) 0 in_counts)
    where
      in_counts : b < length a.refcounts
      in_counts = omega (arith, refs-in_range a wf b (omega arith), wf.sized)

  lowered-IsWellFormed : IsWellFormed lowered
  lowered-IsWellFormed = record {
    positive = wf.positive;
    sized = length-set a.refcounts b (refs a b - 1) ∙ wf.sized;
    marked = λ c. ground (arith, wf.marked c, lowered-refs c);
  }

-- What the split of the block `b` returns and leaves behind: `new` was free, it has one holder now,
-- and `b` has one holder fewer.
pub record Replaced (a : Allocator) (b new : ℕ) (a' : Allocator) : Type 0 where
  pub well_formed : IsWellFormed a'
  pub shape : SameShape a a'
  pub was_free : refs a new ≡ 0
  pub in_pool : new < a.num_blocks
  pub counts : (c : ℕ) → refs a' c + eq_mark b c ≡ refs a c + eq_mark new c

single : (xs : List ℕ) → length xs ≡ 1 → (x : ℕ) × (xs ≡ x ∷ [])
single [] h = absurd (omega arith)
single (x ∷ []) h = (x, refl)
single (x ∷ y ∷ xs) h = absurd (omega arith)

module _ (a : Allocator) (wf : IsWellFormed a) (b new : ℕ) (a' : Allocator)
    (granted : Granted a 1 (new ∷ []) a') where
  granted_counts : (c : ℕ) → refs a' c ≡ refs a c + eq_mark new c
  granted_counts c = omega (arith, granted.gains.counts c, occ-cons c new [], occ-nil c)

  granted_free : (refs a new ≡ 0) × (new < a.num_blocks)
  granted_free =
      ground (arith, granted.fresh new, occ-cons new new [], occ-nil new, eq_mark_self new)

  Replaced-lowered :
      (s : Stats) (shared : 1 < refs a b)
      → Replaced a b new (record (set_refs a' b (refs a' b - 1)) { stats = s })
  Replaced-lowered s shared =
      let still : 1 < refs a' b = omega (arith, granted_counts b) in
      record {
        well_formed =
            IsWellFormed-stats _ s (lowered-IsWellFormed a' granted.gains.well_formed b still);
        shape = record {
          same_blocks = granted.gains.shape.same_blocks;
          same_size = granted.gains.shape.same_size;
        };
        was_free = granted_free.0;
        in_pool = granted_free.1;
        counts = λ c. lowered-refs a' granted.gains.well_formed b still c ∙ granted_counts c;
      }

-- A block with one holder is returned as it is, and nothing changes.
copy_on_write_exclusive :
    (a : Allocator) (b : ℕ) → IsWellFormed a → refs a b ≡ 1 → copy_on_write b a ≡ (ok b, a)
unfolding copy_on_write validate
copy_on_write_exclusive a b wf h = ground (arith, refs-in_range a wf b)

copy_on_write_shared :
    (a : Allocator) (b : ℕ) → IsWellFormed a → 1 < refs a b → copy_on_write b a ≡ split_block b a
unfolding copy_on_write validate
copy_on_write_shared a b wf h = ground (arith, refs-in_range a wf b)

split_block_runs :
    (a : Allocator) (b : ℕ)
    → IsWellFormed a
    → 1 < refs a b
    → 0 < num_free a
    → (new : ℕ) × (a' : Allocator) × (split_block b a ≡ (ok new, a'))
      × Replaced a b new a'
      × (num_free a' + 1 ≡ num_free a)
unfolding split_block first_of_list
split_block_runs a b wf shared room =
    let (bs, a', e, g) = allocate_grants a 1 wf (omega arith) in
    let (new, one) = single bs g.size in
    let g' : Granted a 1 (new ∷ []) a' = subst (λ xs. Granted a 1 xs a') one g in
    let after = record (set_refs a' b (refs a' b - 1)) {
      stats = record a'.stats { copy_on_writes = a'.stats.copy_on_writes + 1 };
    } in
    (new, after, rw (e, one), Replaced-lowered a wf b new a' g' after.stats shared, g'.free_left)

-- `copy_on_write` of a block with a holder: if that is the only one, the block itself is returned
-- and nothing changes. If it is shared and a block is free, a block that was free takes its place:
-- the new block has one reference, the old one has one fewer, and no other count changes. If it is
-- shared and no block is free, OutOfBlocksError is raised and only the counter of such events moves.
pub copy_on_write_lem :
    (a : Allocator) (b : ℕ)
    → IsWellFormed a
    → 0 < refs a b
    → ((refs a b ≡ 1) × (copy_on_write b a ≡ (ok b, a)))
      ⊎ ((1 < refs a b)
          × (0 < num_free a)
          × ((new : ℕ) × (a' : Allocator) × (copy_on_write b a ≡ (ok new, a'))
              × Replaced a b new a'
              × (num_free a' + 1 ≡ num_free a)))
      ⊎ ((1 < refs a b)
          × (num_free a ≡ 0)
          × (copy_on_write b a ≡ (
            err out_of_blocks,
            record a { stats = record a.stats { oom_events = a.stats.oom_events + 1 } },
          )))
unfolding split_block
copy_on_write_lem a b wf live = elim (split_cases (refs a b) (num_free a) live) [
  | inl one ↦ inl (one, copy_on_write_exclusive a b wf one)
  | inr (inl (shared, room)) ↦
      let (new, a', e, r, left) = split_block_runs a b wf shared room in
      inr (inl (shared, room, (new, a', copy_on_write_shared a b wf shared ∙ e, r, left)))
  | inr (inr (shared, full)) ↦ inr (
      inr (
        shared,
        full,
        copy_on_write_shared a b wf shared ∙ rw (allocate_refuses a 1 (omega arith)),
      ))
]
  where
    split_cases : (n k : ℕ) → 0 < n → (n ≡ 1) ⊎ ((1 < n) × (0 < k)) ⊎ ((1 < n) × (k ≡ 0))
    split_cases n k h = ground arith
