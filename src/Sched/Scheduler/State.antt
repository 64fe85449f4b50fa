-- ===== src/Sched/Scheduler/State.antt =====
-- edgerag/sched/scheduler.py: the scheduler's state and its queue. A request is named by a number,
-- which stands for its object: `requests` is the heap of the objects, and the queues hold names.
use edgerag.Prelude.{
  ℕ, Option, List, if◌then◌else◌, ◌++◌, ◌-◌, Result, ◌+◌, ◌==◌, ◌∷◌, pos, [], Bool, length, true,
  ◌&&◌, not, false,
}
use edgerag.Cache.Allocator.{Allocator}
use edgerag.Sched.Request.{Request, waiting, prompt_len}
use edgerag.Cache.Allocator

abbrev pub is_nil : {A : Type 0} → List A → Bool
is_nil [] = true
is_nil (_ ∷ _) = false

pub record SchedulerConfig : Type 0 where
  pub max_batch_size : ℕ
  pub prefill_chunk_size : ℕ
  pub cow_reserve_blocks : ℕ
  pub max_prefills_per_step : ℕ
  pub eos_token_id : Option ℕ

pub record SchedulerStats : Type 0 where
  pub steps : ℕ
  pub admitted : ℕ
  pub finished_count : ℕ
  pub rejected_count : ℕ
  pub preempted : ℕ
  pub prefill_chunks : ℕ
  pub decode_steps : ℕ
  pub admission_blocked : ℕ

pub record Scheduler : Type 0 where
  pub pool : Allocator
  pub config : SchedulerConfig
  pub requests : ℕ → Request
  pub waiting_queue : List ℕ
  pub running : List ℕ
  pub finished_list : List ℕ
  pub step_index : ℕ
  pub stats : SchedulerStats

pub record Batch : Type 0 where
  pub step : ℕ
  pub prefill : List ℕ
  pub decode : List ℕ

abbrev pub batch_is_empty : Batch → Bool
batch_is_empty b = is_nil b.prefill && is_nil b.decode

abbrev pub batch_size : Batch → ℕ
batch_size b = length b.prefill + length b.decode

-- `batch.requests`
abbrev pub batch_requests : Batch → List ℕ
batch_requests b = b.prefill ++ b.decode

-- `bool(self.waiting or self.running)`
abbrev pub has_work : Scheduler → Bool
has_work s = not (is_nil s.waiting_queue && is_nil s.running)

-- An assignment to a field of the object `r`.
abbrev pub update : (ℕ → Request) → ℕ → Request → ℕ → Request
update requests r new k = if r == k then new else requests k

abbrev pub set_request : ℕ → Request → Scheduler → Scheduler
set_request r new s = record s { requests = update s.requests r new }

unfoldable pub add_request : ℕ → Scheduler → Scheduler
add_request r s =
    let queued = record (s.requests r) { arrival_step = s.step_index; state = waiting } in
    record s { requests = update s.requests r queued; waiting_queue = s.waiting_queue ++ r ∷ [] }

-- The subtraction stops at 0, as `max(0, ...)` does.
abbrev pub available_blocks : Scheduler → ℕ
available_blocks s = Allocator.num_free s.pool - s.config.cow_reserve_blocks

abbrev pub blocks_required : Request → Scheduler → Result ℕ
blocks_required q s = Allocator.blocks_needed (pos (prompt_len q + q.max_new_tokens)) s.pool

-- `self.running.remove(request)` behind `if request in self.running`.
abbrev pub remove : ℕ → List ℕ → List ℕ
remove r [] = []
remove r (x ∷ xs) = if x == r then xs else x ∷ remove r xs
