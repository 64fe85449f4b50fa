-- ===== src/Sched/Scheduler/SelfEviction.antt =====
-- `try_allocate` of edgerag/sched/scheduler.py, called for the newest running request.
use edgerag.Cache.Allocator.{num_free, refs, Allocator}
use edgerag.Sched.Scheduler.State.{Scheduler, update}
use edgerag.Sched.Scheduler.Pressure.{
  preempt_to_free, preempt_all, append_left, grow_cache, tokens_with, candidates, preempt_one,
  try_allocate, except_oom,
}
use edgerag.Sched.Scheduler.Queues.{IsOrderly, IsOrderly-pool}
use edgerag.Sched.Scheduler.Backing.{IsBacked, cache_refs-remove, cache_blocks}
use edgerag.Sched.Scheduler.Requeue.{preempt_one-Requeued}
use edgerag.Sched.Scheduler.Eviction.{preempt_all-Evicted, Evicted-cons, candidates-running}
use edgerag.Prelude.Counting.{occ, occ-cons, eq_mark, eq_mark_self, occ-reverse, occ-append}
use mathlib.Core.List.{reverse, reverse-append}
use edgerag.Prelude.{
  ℕ, List, ◌≡◌, ◌++◌, ◌∷◌, [], ◌<◌, ok, none, ap, ◌∙◌, ◌+◌, arith, leb, false, some, ◌-◌, err, sym,
  eqb_refl, out_of_blocks, inl, inr, refl, attribute_error, pos, ◌>>=◌, get, lift,
}
use edgerag.Cache.BlockTable.{BlockTable, View}
use edgerag.Cache.BlockTable.Growth.{out_of_memory, missing, ensure_capacity_lem}
use edgerag.Cache.BlockTable.Ownership.{IsOwned}
use edgerag.Sched.Scheduler.Tokens.{changed-IsBacked, changed-IsOrderly, running_state}
use edgerag.Cache.Allocator.Invariant.{IsWellFormed-stats}
use edgerag.Cache.Allocator.Sizing.{ceil_blocks}
use edgerag.Cache.Allocator

preempt_first_run :
    (needed r : ℕ) (rest victims : List ℕ) (s t s' : Scheduler)
    → candidates s.requests s.running ≡ s.running
    → reverse s.running ≡ r ∷ reverse rest
    → leb needed (num_free s.pool) ≡ false
    → preempt_one r s ≡ (ok tt, t)
    → preempt_all needed (reverse rest) t ≡ (ok victims, s')
    → preempt_to_free needed s ≡ (
      ok (r ∷ victims),
      record s' { waiting_queue = append_left (reverse (r ∷ victims)) s'.waiting_queue },
    )
unfolding preempt_to_free preempt_all
preempt_first_run needed r rest victims s t s' all order full first more =
    rw all (rw order (rw (full, preempt_all) (rw first (rw more refl))))

-- The newest running request is the first victim, and has no cache afterwards.
preempt_first :
    (outside : ℕ → ℕ) (needed r : ℕ) (rest : List ℕ) (s : Scheduler)
    → IsOrderly s
    → IsBacked outside s
    → s.running ≡ rest ++ r ∷ []
    → num_free s.pool < needed
    → (victims : List ℕ) × (s' : Scheduler) × (preempt_to_free needed s ≡ (ok victims, s'))
      × ((s'.requests r).cache ≡ none)
preempt_first outside needed r rest s o k newest short =
    let order : reverse s.running ≡ r ∷ reverse rest =
      ap reverse newest ∙ reverse-append rest (r ∷ []) in
    let count : (c : ℕ) → occ c s.running ≡ eq_mark r c + occ c (reverse rest) =
      λ c. omega (arith, occ-reverse c s.running, ap (occ c) order, occ-cons c r (reverse rest)) in
    let all = candidates-running s s.running o.runs in
    let full : leb needed (num_free s.pool) ≡ false = ground arith in
    let (t, first, q) =
      preempt_one-Requeued outside r s o k (omega (arith, count r, eq_mark_self r)) in
    let (victims, kept, s', more, _, _, _, e) =
      preempt_all-Evicted outside needed (reverse rest) t q.orderly q.backed
        (λ c. omega (arith, q.left c, count c)) in
    let both = Evicted-cons outside r victims s t s' q e in
    (
      r ∷ victims,
      record s' { waiting_queue = append_left (reverse (r ∷ victims)) s'.waiting_queue },
      preempt_first_run needed r rest victims s t s' all order full first more,
      ground (arith, both.caches r, occ-cons r r victims, eq_mark_self r),
    )

-- The view of the cache of `r`, and the scheduler after its growth has been refused.
abbrev pub view : Scheduler → BlockTable → View
view s t = record { pool = s.pool; table = t }

abbrev refused : ℕ → BlockTable → Scheduler → Scheduler
refused r t s = record s {
  pool = (out_of_memory (view s t)).pool;
  requests = update s.requests r (record (s.requests r) { cache = some t });
}

module _ (outside : ℕ → ℕ) (r n : ℕ) (s : Scheduler) (t : BlockTable) (o : IsOrderly s)
    (k : IsBacked outside s) (running : 0 < occ r s.running) (has : (s.requests r).cache ≡ some t)
    (short : num_free s.pool < missing (view s t) (t.num_tokens + n)) where
  others : ℕ → ℕ
  others b = refs s.pool b - occ b t.blocks

  view-IsOwned : IsOwned others (view s t)
  unfolding others
  view-IsOwned = record {
    well_formed = k.well_formed;
    counts = λ b. omega (
      arith,
      k.counts b,
      cache_refs-remove s.requests s.running r b running,
      ap (λ c. occ b (cache_blocks c)) has,
    );
    once = λ b. omega (arith, k.once r b, ap (λ c. occ b (cache_blocks c)) has);
  }

  grow_refused : grow_cache r n s ≡ (err out_of_blocks, refused r t s)
  unfolding grow_cache
  grow_refused = elim (ensure_capacity_lem others (view s t) (t.num_tokens + n) view-IsOwned) [
    | inl (fresh, v, e, g) ↦ absurd (omega (arith, g.left))
    | inr (_, e) ↦ rw (has, grow_cache) (rw e refl)
  ]

  refused-IsOrderly : IsOrderly (refused r t s)
  refused-IsOrderly =
      let q = record (s.requests r) { cache = some t } in
      IsOrderly-pool (record s { requests = update s.requests r q }) (refused r t s).pool s.stats
        (changed-IsOrderly s r q s.stats o running (running_state s r o running))

  refused-IsBacked : IsBacked outside (refused r t s)
  refused-IsBacked =
      let q = record (s.requests r) { cache = some t } in
      let k' = changed-IsBacked outside s r q s.stats k (sym has) in
      record {
        well_formed = IsWellFormed-stats s.pool (refused r t s).pool.stats k.well_formed;
        counts = k'.counts;
        once = k'.once;
      }

  tokens_refused : tokens_with r n (refused r t s) ≡ t.num_tokens + n
  tokens_refused = rw (eqb_refl r, tokens_with) refl

grow_without_cache :
    (r n : ℕ) (s : Scheduler)
    → (s.requests r).cache ≡ none
    → grow_cache r n s ≡ (err attribute_error, s)
unfolding grow_cache
grow_without_cache r n s e = rw (e, grow_cache) refl

try_allocate_run :
    (r n needed : ℕ) (t : BlockTable) (victims : List ℕ) (s s1 s2 : Scheduler)
    → (s.requests r).cache ≡ some t
    → grow_cache r n s ≡ (err out_of_blocks, s1)
    → Allocator.blocks_needed (pos (tokens_with r n s1)) s1.pool ≡ ok needed
    → preempt_to_free needed s1 ≡ (ok victims, s2)
    → grow_cache r n s2 ≡ (err attribute_error, s2)
    → try_allocate r n s ≡ (err attribute_error, s2)
unfolding try_allocate
try_allocate_run r n needed t victims s s1 s2 has first size evicted second =
    rw (has, try_allocate)
      (rw (first, except_oom)
        (rw (first, ◌>>=◌, get, lift)
          (rw (size, ◌>>=◌, get, lift) (rw evicted (rw (second, except_oom) (rw second refl))))))

needed_blocks :
    (m : ℕ) (a : Allocator) → Allocator.blocks_needed (pos m) a ≡ ok (ceil_blocks m a.block_size)
unfolding Allocator.blocks_needed
needed_blocks m a = refl

-- `try_allocate(request, n)` for the newest running request, which has a cache, when the pool lacks
-- blocks for `n` more tokens, in a scheduler whose queues are in order and whose pool is backed by
-- its holders: the request is itself the first victim, and the second attempt raises AttributeError,
-- since the request has no cache any more.
pub try_allocate_self :
    (outside : ℕ → ℕ) (r n : ℕ) (rest : List ℕ) (t : BlockTable) (s : Scheduler)
    → IsOrderly s
    → IsBacked outside s
    → s.running ≡ rest ++ r ∷ []
    → (s.requests r).cache ≡ some t
    → num_free s.pool < missing (view s t) (t.num_tokens + n)
    → (s' : Scheduler) × (try_allocate r n s ≡ (err attribute_error, s'))
      × ((s'.requests r).cache ≡ none)
try_allocate_self outside r n rest t s o k newest has short =
    let running : 0 < occ r s.running =
      omega
        (arith, ap (occ r) newest, occ-append r rest (r ∷ []), occ-cons r r [], eq_mark_self r) in
    let needed = ceil_blocks (t.num_tokens + n) s.pool.block_size in
    let (victims, s', evicted, gone) =
      preempt_first outside needed r rest (refused r t s)
        (refused-IsOrderly outside r n s t o k running has short)
        (refused-IsBacked outside r n s t o k running has short) newest (omega arith) in
    (
      s',
      try_allocate_run r n needed t victims s (refused r t s) s' has
          (grow_refused outside r n s t o k running has short)
          (ap (λ m. Allocator.blocks_needed (pos m) (refused r t s).pool)
              (tokens_refused outside r n s t o k running has short)
            ∙ needed_blocks (t.num_tokens + n) (refused r t s).pool)
          evicted (grow_without_cache r n s' gone),
      gone,
    )
