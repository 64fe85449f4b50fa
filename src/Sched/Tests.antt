-- ===== src/Sched/Tests.antt =====
-- The theorems on requests and the scheduler at small inputs.
use edgerag.Prelude.{
  ℕ, pos, ◌∷◌, ◌≡◌, ok, [], arith, List, ◌+◌, ◌≤◌, ◌++◌, ◌⊎◌, if◌then◌else◌, take, ◌==◌, none, err,
  value_error, ◌<ℤ◌, ◌+ℤ◌, attribute_error, refl, ◌<◌, length,
}
use edgerag.Sched.Samples.{
  sample, sample-IsOrderly, sample-IsBacked, started_request, fresh_request, sample_runs,
}
use edgerag.Sched.Scheduler.State.{Scheduler, Batch, SchedulerStats}
use edgerag.Sched.Request.Prefill.{prefill_rounds, concat, ChunksFit, prefill_rounds_lem}
use edgerag.Sched.Scheduler.Progress.{finish, on_prefill_chunk, on_token}
use edgerag.Sched.Scheduler.Pressure.{preempt_to_free, try_allocate}
use edgerag.Sched.Scheduler.Admission.{schedule}
use edgerag.Sched.Scheduler.Release.{Finished, finish_lem}
use mathlib.Core.List.{reverse}
use edgerag.Sched.Scheduler.Selection.{with_state, is_decoding, is_prefilling}
use edgerag.Cache.Allocator.{num_free}
use edgerag.Sched.Scheduler.Queues.{state_of, IsOrderly, places}
use edgerag.Sched.Scheduler.Tokens.{with_chunk, on_prefill_chunk_lem, after_token, on_token_lem}
use edgerag.Sched.Scheduler.Fifo.{Admitted, first_batch, schedule_lem}
use edgerag.Prelude.Counting.{occ, occ-cons, occ-nil}
use edgerag.Sched.Request.{waiting, prefilling}
use edgerag.Sched.Scheduler.Backing.{IsBacked}
use edgerag.Sched.Scheduler.Eviction.{preempt_to_free_lem, AllNeeded}
use edgerag.Sched.Scheduler.SelfEviction.{try_allocate_self}
use edgerag.Cache.Samples.{three_tokens, pool4, init-pool4}
use edgerag.Core.Budget.{PoolPlan, max_prompt_tokens}
use edgerag.Sched.Scheduler.Planned.{IsBuiltFor, max_prompt_tokens_decides}
use edgerag.Sched.Scheduler.Starvation.{schedule_times, AllEmpty}
use edgerag.Sched.Scheduler.StopRule.{IsLast}

prefill_rounds_lem_example :
    (chunks : List (List ℕ)) × (prefill_rounds 2 (pos 2) fresh_request
      ≡ (ok chunks, record fresh_request { prefill_offset = 3 }))
    × (concat chunks ≡ 5 ∷ 6 ∷ 7 ∷ [])
    × ChunksFit 2 chunks
prefill_rounds_lem_example =
    prefill_rounds_lem 2 2 fresh_request (omega arith) (omega arith) (omega arith)

schedule_lem_example :
    (more : List ℕ) × (b : Batch) × (s' : Scheduler) × (schedule sample ≡ (ok b, s'))
    × (b.decode ≡ with_state is_decoding sample (1 ∷ []))
    × (b.prefill ≡ take 2 (with_state is_prefilling sample (1 ∷ [])) ++ more)
    × Admitted sample (first_batch sample) more b s'
schedule_lem_example = schedule_lem sample sample-IsOrderly

finish_lem_example :
    (s' : Scheduler) × (finish 1 sample ≡ (ok tt, s')) × Finished (λ b. 0) 1 sample s'
finish_lem_example = finish_lem (λ b. 0) 1 sample sample-IsOrderly sample-IsBacked sample_runs

preempt_to_free_lem_example :
    (victims : List ℕ) × (kept : List ℕ) × (s' : Scheduler) × (preempt_to_free 3 sample
      ≡ (ok victims, s'))
    × (reverse (1 ∷ []) ≡ victims ++ kept)
    × ((kept ≡ []) ⊎ (3 ≤ num_free s'.pool))
    × AllNeeded (λ b. 0) 3 victims sample
    × (s'.waiting_queue ≡ victims ++ 0 ∷ [])
    × ((c : ℕ) → state_of s' c ≡ (if occ c victims == 0 then state_of sample c else waiting))
    × ((c : ℕ)
        → (s'.requests c).cache ≡ (if occ c victims == 0 then (sample.requests c).cache else none))
    × ((c : ℕ) → places s' c ≡ places sample c)
    × (2 ≤ num_free s'.pool)
    × IsOrderly s'
    × IsBacked (λ b. 0) s'
preempt_to_free_lem_example = preempt_to_free_lem (λ b. 0) 3 sample sample-IsOrderly sample-IsBacked

on_token_lem_example :
    (s' : Scheduler) × (on_token 1 9 sample ≡ (ok tt, s'))
    × ((s'.requests 1).generated_token_ids ≡ started_request.generated_token_ids ++ 9 ∷ [])
    × ((IsLast none started_request.max_new_tokens started_request.generated_token_ids 9
          × Finished (λ b. 0) 1 (after_token 1 9 sample) s')
        ⊎ ((¬ IsLast none started_request.max_new_tokens started_request.generated_token_ids 9)
            × (s' ≡ after_token 1 9 sample)))
    × IsOrderly s'
    × IsBacked (λ b. 0) s'
on_token_lem_example = on_token_lem (λ b. 0) 1 9 sample sample-IsOrderly sample-IsBacked sample_runs

on_prefill_chunk_lem_example :
    ((n : ℕ) × (s' : Scheduler) × (pos 1 ≡ pos n)
      × (2 + n ≤ 3)
      × (on_prefill_chunk 1 (pos 1) sample ≡ (ok tt, s'))
      × ((c : ℕ)
          → s'.requests c ≡ (if 1 == c then with_chunk n started_request else sample.requests c))
      × IsOrderly s'
      × IsBacked (λ b. 0) s')
    ⊎ ((s' : Scheduler) × (on_prefill_chunk 1 (pos 1) sample ≡ (err value_error, s'))
        × ((pos 1 <ℤ pos 0) ⊎ (pos 3 <ℤ pos 2 +ℤ pos 1))
        × ((c : ℕ) → s'.requests c ≡ sample.requests c)
        × IsOrderly s'
        × IsBacked (λ b. 0) s')
on_prefill_chunk_lem_example =
    on_prefill_chunk_lem (λ b. 0) 1 (pos 1) sample sample-IsOrderly sample-IsBacked sample_runs

-- Request 1 holds two blocks, two are free, and ten tokens need five.
try_allocate_self_example :
    (s' : Scheduler) × (try_allocate 1 7 sample ≡ (err attribute_error, s'))
    × ((s'.requests 1).cache ≡ none)
try_allocate_self_example =
    try_allocate_self (λ b. 0) 1 7 [] three_tokens sample sample-IsOrderly sample-IsBacked refl refl
      (omega arith)

-- Four blocks of two tokens, one of them in reserve.
abbrev small_plan : PoolPlan
small_plan = record {
  num_blocks = 4;
  block_size = 2;
  reserve_blocks = 1;
  budget_bytes = 100;
  weights_bytes = 30;
  activation_bytes = 20;
  kv_bytes_per_token = 6;
}

abbrev just_built : Scheduler
just_built = record sample {
  pool = pool4;
  config = record sample.config { cow_reserve_blocks = 1 };
  requests = λ r. fresh_request;
  running = [];
}

just_built-IsBuiltFor : IsBuiltFor small_plan just_built
just_built-IsBuiltFor = record {
  built = init-pool4;
  same_reserve = refl;
  batch_limit = omega arith;
  prefill_limit = omega arith;
  orderly = record {
    waits = λ r. ground (arith, occ-cons r 0 [], occ-nil r);
    runs = λ r. ground (arith, occ-nil r);
    ends = λ r. ground (arith, occ-nil r);
    fits = omega arith;
  };
  idle = refl;
}

max_prompt_tokens_decides_example :
    ((4 ≤ max_prompt_tokens small_plan)
      × ((more : List ℕ) × (b : Batch) × (s' : Scheduler) × (schedule just_built ≡ (ok b, s'))
          × (b.prefill ≡ 0 ∷ more)
          × (s'.running ≡ 0 ∷ more)
          × (state_of s' 0 ≡ prefilling)
          × ([] ≡ more ++ s'.waiting_queue)))
    ⊎ ((max_prompt_tokens small_plan < 4)
        × ((n : ℕ)
            → (bs : List Batch) × (t : SchedulerStats) × (schedule_times n just_built
                ≡ (ok bs, record just_built { stats = t }))
              × (length bs ≡ n)
              × AllEmpty bs))
max_prompt_tokens_decides_example =
    max_prompt_tokens_decides small_plan 0 [] just_built just_built-IsBuiltFor refl
