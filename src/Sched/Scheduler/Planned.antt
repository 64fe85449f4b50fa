-- ===== src/Sched/Scheduler/Planned.antt =====
-- edgerag/core/budget.py and edgerag/sched/scheduler.py together: what a plan's max_prompt_tokens means
-- for the scheduler that is built from it.
use edgerag.Core.Budget.{PoolPlan, max_prompt_tokens}
use edgerag.Cache.Allocator.Sizing.{ceil_blocks_least, ceil_blocks_upper, ceil_blocks}
use edgerag.Sched.Scheduler.State.{Scheduler, Batch, SchedulerStats}
use edgerag.Prelude.{
  ℕ, pos, List, ◌≡◌, ◌+◌, ok, ◌∷◌, ◌<◌, ◌≤◌, [], inl, inr, subst, ◌++◌, arith, ◌⊎◌, length, ◌*◌,
  Bool-cases, leb, ◌-◌,
}
use edgerag.Cache.Allocator.{Allocator, num_free}
use edgerag.Sched.Request.{prompt_len, prefilling}
use edgerag.Cache.Allocator.Invariant.{IsWellFormed}
use edgerag.Sched.Scheduler.Queues.{IsOrderly, state_of}
use edgerag.Cache.Allocator.Fresh.{init_lem}
use edgerag.Sched.Scheduler.Admission.{schedule}
use edgerag.Sched.Scheduler.Starvation.{schedule_times, AllEmpty, schedule-head, head_blocks_queue}
use edgerag.Cache.Allocator

-- A scheduler that was just built for the plan, with requests in its queue.
pub record IsBuiltFor (p : PoolPlan) (s : Scheduler) : Type 0 where
  pub built : Allocator.init (pos p.num_blocks) (pos p.block_size) ≡ ok s.pool
  pub same_reserve : s.config.cow_reserve_blocks ≡ p.reserve_blocks
  pub batch_limit : 0 < s.config.max_batch_size
  pub prefill_limit : 0 < s.config.max_prefills_per_step
  pub orderly : IsOrderly s
  pub idle : s.running ≡ []

-- All that a request may take: its prompt and what it may generate.
abbrev pub size_of : Scheduler → ℕ → ℕ
size_of s r = prompt_len (s.requests r) + (s.requests r).max_new_tokens

ceil_blocks_beyond : (n size k : ℕ) → 0 < size → k * size < n → k < ceil_blocks n size
ceil_blocks_beyond n size k h l = grind (arith, ceil_blocks_upper n size h)

built_pool :
    (n size : ℕ) (a : Allocator)
    → Allocator.init (pos n) (pos size) ≡ ok a
    → IsWellFormed a × (a.num_blocks ≡ n) × (a.block_size ≡ size) × (num_free a ≡ a.num_blocks)
built_pool n size a e = elim (init_lem (pos n) (pos size)) [
  | inl (refused, _) ↦ cc
  | inr (b, f, wf, blocks, each, free, _) ↦
      let same : b ≡ a = cc in
      subst
        (λ (x : Allocator).
          IsWellFormed x × (x.num_blocks ≡ n) × (x.block_size ≡ size) × (num_free x ≡ x.num_blocks))
        same (wf, ground (arith, blocks), ground (arith, each), free)
]

-- The first call of `schedule` on a scheduler that was built for a plan admits the request at the head
-- of the queue, where its prompt and what it may generate are at most `max_prompt_tokens` together.
-- Where they are more, the request and all that wait behind it wait for ever: no number of calls
-- admits anybody.
pub max_prompt_tokens_decides :
    (p : PoolPlan) (r : ℕ) (rest : List ℕ) (s : Scheduler)
    → IsBuiltFor p s
    → s.waiting_queue ≡ r ∷ rest
    → ((size_of s r ≤ max_prompt_tokens p)
        × ((more : List ℕ) × (b : Batch) × (s' : Scheduler) × (schedule s ≡ (ok b, s'))
            × (b.prefill ≡ r ∷ more)
            × (s'.running ≡ r ∷ more)
            × (state_of s' r ≡ prefilling)
            × (rest ≡ more ++ s'.waiting_queue)))
      ⊎ ((max_prompt_tokens p < size_of s r)
          × ((n : ℕ)
              → (bs : List Batch) × (t : SchedulerStats) × (schedule_times n s
                  ≡ (ok bs, record s { stats = t }))
                × (length bs ≡ n)
                × AllEmpty bs))
max_prompt_tokens_decides p r rest s o head =
    let (wf, blocks, each, free) = built_pool p.num_blocks p.block_size s.pool o.built in
    elim (Bool-cases (leb (size_of s r) (max_prompt_tokens p))) [
      | inl small ↦
          let least =
            ceil_blocks_least (size_of s r) s.pool.block_size (p.num_blocks - p.reserve_blocks)
              wf.positive (rw each (ground arith)) in
          inl (
            ground arith,
            schedule-head r rest s o.orderly head o.idle o.batch_limit o.prefill_limit
                (omega (arith, least, free, blocks, o.same_reserve)),
          )
      | inr large ↦ inr (
        ground arith,
        λ n.
            head_blocks_queue n r rest s
              (record {
                well_formed = wf;
                at_head = head;
                too_large = omega (
                  arith,
                  ceil_blocks_beyond (size_of s r) s.pool.block_size
                      (p.num_blocks - p.reserve_blocks) wf.positive (rw each (ground arith)),
                  blocks,
                  o.same_reserve,
                );
              })
              o.idle,
      )
    ]
