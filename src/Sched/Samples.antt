-- ===== src/Sched/Samples.antt =====
-- A small scheduler for the tests: request 0 waits, request 1 runs with three tokens in its cache.
use edgerag.Prelude.{ℕ, pos, ◌∷◌, [], none, some, ◌==◌, if◌then◌else◌, arith, ◌<◌}
use edgerag.Cache.Samples.{appended, three_tokens, pool4, init-pool4, filled-Reach}
use edgerag.Cache.Sequences.{held, IsConsistent}
use edgerag.Cache.Sequences.Reachable.{reachable-IsConsistent}
use edgerag.Prelude.Counting.{occ-cons, occ-nil, occ}
use edgerag.Sched.Request.{Request, waiting, prefilling, finished}
use edgerag.Sched.Scheduler.State.{Scheduler}
use edgerag.Sched.Scheduler.Queues.{IsOrderly}
use edgerag.Sched.Scheduler.Backing.{IsBacked, cache_refs}

abbrev pub fresh_request : Request
fresh_request = record {
  prompt_token_ids = 5 ∷ 6 ∷ 7 ∷ [];
  max_new_tokens = 1;
  arrival_step = 0;
  state = waiting;
  prefill_offset = 0;
  generated_token_ids = [];
  cache = none;
  admitted_step = none;
  first_token_step = none;
  finished_step = none;
  preemptions = 0;
}

-- Two of three prompt tokens are processed.
abbrev pub started_request : Request
started_request = record fresh_request {
  state = prefilling;
  prefill_offset = 2;
  cache = some three_tokens;
  admitted_step = some 0;
}

abbrev pub sample_requests : ℕ → Request
sample_requests r =
    if r == 0
    then fresh_request
    else (if r == 1 then started_request else record fresh_request { state = finished })

abbrev pub sample : Scheduler
sample = record {
  pool = appended;
  config = record {
    max_batch_size = 2;
    prefill_chunk_size = 2;
    cow_reserve_blocks = 0;
    max_prefills_per_step = 2;
    eos_token_id = none;
  };
  requests = sample_requests;
  waiting_queue = 0 ∷ [];
  running = 1 ∷ [];
  finished_list = [];
  step_index = 1;
  stats = record {
    steps = 1;
    admitted = 1;
    finished_count = 0;
    rejected_count = 0;
    preempted = 0;
    prefill_chunks = 1;
    decode_steps = 0;
    admission_blocked = 0;
  };
}

pub sample-IsOrderly : IsOrderly sample
sample-IsOrderly = record {
  waits = λ r. ground (arith, occ-cons r 0 [], occ-nil r);
  runs = λ r. ground (arith, occ-cons r 1 [], occ-nil r);
  ends = λ r. ground (arith, occ-nil r);
  fits = omega arith;
}

appended-IsConsistent : IsConsistent appended (three_tokens ∷ [])
appended-IsConsistent = reachable-IsConsistent (pos 4) (pos 2) pool4 _ init-pool4 filled-Reach

pub sample-IsBacked : IsBacked (λ b. 0) sample
unfolding held cache_refs
sample-IsBacked = record {
  well_formed = appended-IsConsistent.well_formed;
  counts = λ b. omega (arith, appended-IsConsistent.counts b);
  once = λ r b. ground (arith, appended-IsConsistent.no_repeats.0 b, occ-nil b);
}

-- Request 1 runs.
pub sample_runs : 0 < occ 1 (1 ∷ [])
unfolding occ
sample_runs = omega arith
