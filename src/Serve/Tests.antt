-- ===== src/Serve/Tests.antt =====
-- The engine at small inputs: an executor that raises, in a life of one request and in a round of two.
use edgerag.Prelude.{
  ◌-ℤ◌, ◌-ℤ◌, ◌≡◌, ℕ, err, [], ◌∷◌, ◌<◌, ok, arith, out_of_blocks, refl, runtime_error, ◌+◌, length,
  some, pos, none, ◌≤◌, ◌*◌,
}
use edgerag.Serve.Executor.Arena.{pool_bytes_lem}
use edgerag.Core.Spec.{ModelSpec, float16, kv_bytes_per_token}
use edgerag.Core.Budget.{PoolPlan, plan_pool_for_budget}
use edgerag.Cache.Paged.{Paged, nbytes}
use edgerag.Serve.Executor.{pool_bytes, Decoder, execute}
use edgerag.Cache.Samples.{three_tokens, appended}
use edgerag.Sched.Samples.{sample, fresh_request, sample-IsOrderly, sample-IsBacked}
use edgerag.Sched.Scheduler.State.{Scheduler, Batch, batch_requests}
use edgerag.Serve.Engine.{
  Executor, Engine, run_once, start, failed_event, run_step, alive, submit, raised, end_iteration,
  stop, StepOutput,
}
use edgerag.Serve.Engine.Reachable.{
  Life, new_engine, turn, life-StreamsHold, new, rounds, starts, submits,
}
use edgerag.Serve.Engine.Balance.{StreamsHold, done_count}
use edgerag.Sched.Scheduler.Queues.{IsOrderly}
use edgerag.Sched.Scheduler.Backing.{cache_refs, IsBacked}
use edgerag.Prelude.Counting.{occ, occ-nil, occ-cons}
use edgerag.Serve.Engine.Failing.{Failed}
use edgerag.Serve.Engine.Shutdown.{stop_lem}
use edgerag.Serve.Engine.FailedStep.{failed_step_lem}
use edgerag.Serve.Executor.Outputs.{Ends}
use edgerag.Serve.Executor.Batches.{Executed, execute_lem}
use edgerag.Core.Budget
use edgerag.Sched.Scheduler.Admission
use edgerag.Sched.Scheduler.Progress
use edgerag.Sched.Scheduler.State
use edgerag.Cache.Allocator
use edgerag.Cache.BlockTable

-- Out of memory, before anything is changed.
abbrev out_of_memory : Executor
out_of_memory b s = (err out_of_blocks, s)

abbrev idle_scheduler : Scheduler
idle_scheduler = record sample { requests = λ r. fresh_request; waiting_queue = []; running = [] }

abbrev started_engine : Engine
started_engine = record (new_engine idle_scheduler) { thread = alive }

abbrev submitted_engine : Engine
submitted_engine = record started_engine {
  engine_stats = record started_engine.engine_stats { submitted = 1 };
  inbox = 5 ∷ [];
}

program : Unit {0}
unfolding run_once Admission.schedule State.add_request Progress.finish Progress.end_step
    Allocator.blocks_needed start submit done_count occ
program = tt

submitted-Life : Life out_of_memory idle_scheduler submitted_engine
unfolding program
submitted-Life =
    turn (turn new (starts {s' = started_engine} refl))
      (submits {s = started_engine} {s' = submitted_engine} 5 refl refl)

-- The request was admitted, its execution raised, and its stream was told.
abbrev failed_engine : Engine
unfolding program
failed_engine = (run_once out_of_memory submitted_engine).1

tells_failure : failed_engine.events ≡ failed_event 5 (raised out_of_blocks) ∷ []
unfolding program failed_engine
tells_failure = refl

failed-Life : Life out_of_memory idle_scheduler failed_engine
unfolding program failed_engine
failed-Life = turn submitted-Life (rounds refl refl)

life-StreamsHold_example : StreamsHold failed_engine
life-StreamsHold_example = life-StreamsHold out_of_memory idle_scheduler failed_engine failed-Life

stop_lem_example :
    ((r : ℕ) → 0 < occ r [] → done_count r (stop submitted_engine).events ≡ 1)
    × ((r : ℕ) → occ r [] ≡ 0 → done_count r (stop submitted_engine).events ≡ done_count r [])
    × ((r : ℕ)
        → 0 < occ r (5 ∷ [])
        → (done_count r (stop submitted_engine).events ≡ 0)
          × (0 < occ r (stop submitted_engine).inbox))
    × ((stop submitted_engine).emitters ≡ [])
    × ((r : ℕ) → submit r (stop submitted_engine) ≡ (err runtime_error, stop submitted_engine))
stop_lem_example = stop_lem out_of_memory idle_scheduler submitted_engine submitted-Life refl

-- Request 1 runs and request 0 is admitted; only the second has a stream.
abbrev two_requests : Engine
two_requests = record (new_engine sample) { emitters = 0 ∷ []; thread = alive }

abbrev both_running : Scheduler
unfolding Admission.admit
both_running = Admission.admit 0 [] sample

abbrev both : Batch
both = record { step = 1; prefill = 1 ∷ 0 ∷ []; decode = [] }

schedules_both : Admission.schedule sample ≡ (ok both, both_running)
unfolding program both_running
schedules_both = refl

both-IsOrderly : IsOrderly both_running
unfolding both_running
both-IsOrderly = record {
  waits = λ r. ground (arith, occ-nil r);
  runs = λ r. ground (arith, occ-cons r 1 (0 ∷ []), occ-cons r 0 [], occ-nil r);
  ends = λ r. ground (arith, occ-nil r);
  fits = omega arith;
}

both-IsBacked : IsBacked (λ b. 0) both_running
unfolding both_running cache_refs
both-IsBacked = record {
  well_formed = sample-IsBacked.well_formed;
  counts = λ b. omega (arith, sample-IsBacked.counts b, occ-nil b);
  once = λ r b. ground (arith, sample-IsBacked.once r b, occ-nil b);
}

two_requests-StreamsHold : StreamsHold two_requests
unfolding done_count
two_requests-StreamsHold = record {
  once = λ r. ground (arith, occ-cons r 0 [], occ-nil r);
  last = tt;
}

failed_step_lem_example :
    (s' : Engine) × (run_step out_of_memory two_requests ≡ (ok tt, end_iteration s'))
    × Failed (λ b. 0) (batch_requests both) (record two_requests { scheduler = both_running }) s'
failed_step_lem_example =
    failed_step_lem (λ b. 0) out_of_memory two_requests both both_running both_running out_of_blocks
      two_requests-StreamsHold sample-IsOrderly schedules_both refl refl both-IsOrderly
      both-IsBacked refl

-- A decoder that answers 42 and records the tokens that it was given.
abbrev answers : Decoder
answers tokens v =
    (ok 42, record v { table = record v.table { num_tokens = v.table.num_tokens + length tokens } })

-- Request 1 has one of three prompt tokens left, request 0 all of its three; chunks are of two tokens.
executes_both :
    (out : StepOutput) × (u : Scheduler) × (execute answers 2 both both_running ≡ (ok out, u))
    × (out.prefilled 1 ≡ some (pos 1))
    × (out.tokens 1 ≡ some 42)
    × (out.prefilled 0 ≡ some (pos 2))
    × (out.tokens 0 ≡ none)
unfolding execute BlockTable.ensure_capacity Allocator.allocate Allocator.blocks_needed both_running
executes_both = (_, _, refl, refl, refl, refl, refl)

execute_lem_example :
    Ends (Executed 2 both both_running) both_running (execute answers 2 both both_running)
execute_lem_example = execute_lem answers 2 both both_running

-- Two layers of one head with three numbers: 24 bytes for a token in numbers of 16 bits.
abbrev small_spec : ModelSpec ℕ
small_spec = record {
  n_layers = 2;
  hidden_size = 3;
  n_q_heads = 1;
  n_kv_heads = 1;
  head_dim = 3;
  vocab_size = 10;
  max_position_embeddings = 16;
  rope_theta = 0;
  vision_layers = 0;
  vision_hidden = 0;
  vision_image_size = 0;
  vision_patch_size = 1;
  scale_factor = 1;
  image_token_id = 0;
  pad_token_id = pos 0;
  intermediate_size = 3;
}

-- 200 bytes are left for blocks of 48.
abbrev small_pool : PoolPlan
small_pool = record {
  num_blocks = 4;
  block_size = 2;
  reserve_blocks = 1;
  budget_bytes = 300;
  weights_bytes = 60;
  activation_bytes = 40;
  kv_bytes_per_token = 24;
}

plans_small :
    plan_pool_for_budget (kv_bytes_per_token float16 small_spec) 60 40 300 2 1 ≡ ok small_pool
unfolding plan_pool_for_budget kv_bytes_per_token ◌-ℤ◌
plans_small = refl

-- A cache with two blocks.
abbrev small_cache : Paged ℕ
small_cache = record {
  view = record { pool = appended; table = three_tokens };
  arena = λ l b o. 0;
  first_layer = 0;
  n_pool_layers = 2;
  pending_tokens = 0;
}

pool_bytes_lem_example :
    (n : ℕ) × (pool_bytes 2 small_spec appended ≡ ok n)
    × (n ≡ Budget.pool_bytes small_pool)
    × (60 + 40 + n ≤ 300)
    × (300 < 60 + 40 + n + 2 * kv_bytes_per_token float16 small_spec)
    × (nbytes 1 3 2 small_cache ≡ 2 * (2 * kv_bytes_per_token float16 small_spec))
pool_bytes_lem_example =
    pool_bytes_lem small_spec float16 60 40 300 2 1 small_pool small_cache (omega arith) plans_small
      refl refl refl
