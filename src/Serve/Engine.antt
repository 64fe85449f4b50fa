-- ===== src/Serve/Engine.antt =====
-- edgerag/serve/engine.py: the worker thread of the engine, the queue into it and the streams out of
-- it. A number stands for a request and its request_id; the callback `emit` of a submission appends to
-- the log of events, which has the newest event first. The executor is a parameter: it runs a batch on
-- the scheduler's requests and pool and returns an output, or raises, and leaves them changed.
pub mod Balance
pub mod Streams
pub mod Reachable
pub mod Failing
pub mod FailedStep
pub mod Shutdown
use edgerag.Sched.Scheduler.Admission
use edgerag.Sched.Scheduler.Progress
use edgerag.Sched.Scheduler.State
use edgerag.Sched.Scheduler.State.{Batch, Scheduler, batch_requests}
use edgerag.Prelude.{
  Error, ℕ, Bool, Action, if◌then◌else◌, List, Option, ◌+◌, [], ℤ, true, ◌∷◌, false, some, none,
  pure, Result, ok, ◌>>=◌, ◌>>◌, ◌==◌, get, eqb_ℤ, modify, err, ◌++◌, pos, runtime_error,
}
use edgerag.Sched.Request.{ends_with_eos, is_terminal}

pub data FinishReason : Type 0 where
  stop_token length_limit : FinishReason

-- What an error text says: the exception of the executor, or that the engine was stopped.
pub data Failure : Type 0 where
  raised : Error → Failure
  engine_stopped : Failure

pub record TokenEvent : Type 0 where
  pub request_id : ℕ
  pub token_id : Option ℕ
  pub done : Bool
  pub error : Option Failure
  pub finish_reason : Option FinishReason

-- Both dictionaries, from the request's id.
pub record StepOutput : Type 0 where
  pub tokens : ℕ → Option ℕ
  pub prefilled : ℕ → Option ℤ

abbrev pub Executor : Type 0
Executor = Batch → Action Scheduler StepOutput

pub record EngineStats : Type 0 where
  pub submitted : ℕ
  pub completed : ℕ
  pub failed : ℕ
  pub engine_steps : ℕ

-- `_thread`: None, or a thread that runs or has ended by an exception.
pub data Thread : Type 0 where
  no_thread alive dead : Thread

pub record Engine : Type 0 where
  pub scheduler : Scheduler
  pub engine_stats : EngineStats
  pub inbox : List ℕ
  pub emitters : List ℕ
  pub thread : Thread
  pub events : List TokenEvent

abbrev pub is_running : Engine → Bool
is_running s = elim s.thread [ alive ↦ true | _ ↦ false ]

abbrev pub on_scheduler : {A : Type 0} → Action Scheduler A → Action Engine A
on_scheduler m s = let (r, t) = m s.scheduler in (r, record s { scheduler = t })

-- `self._emitters[r] = ...`
abbrev pub open_stream : ℕ → List ℕ → List ℕ
open_stream r [] = r ∷ []
open_stream r (x ∷ xs) = if x == r then x ∷ xs else x ∷ open_stream r xs

abbrev pub is_open : ℕ → List ℕ → Bool
is_open r [] = false
is_open r (x ∷ xs) = if x == r then true else is_open r xs

-- `_emit`, of an event for the request that it names.
unfoldable pub emit : TokenEvent → Engine → Engine
emit e s = record s { events = if is_open e.request_id s.emitters then e ∷ s.events else s.events }

abbrev pub token_event : ℕ → ℕ → TokenEvent
token_event r token = record {
  request_id = r;
  token_id = some token;
  done = false;
  error = none;
  finish_reason = none;
}

abbrev pub done_event : ℕ → FinishReason → TokenEvent
done_event r reason = record {
  request_id = r;
  token_id = none;
  done = true;
  error = none;
  finish_reason = some reason;
}

abbrev pub failed_event : ℕ → Failure → TokenEvent
failed_event r failure = record {
  request_id = r;
  token_id = none;
  done = true;
  error = some failure;
  finish_reason = none;
}

-- `self._emitters.pop(r, None)`
abbrev pub close_stream : ℕ → Engine → Engine
close_stream r s = record s { emitters = State.remove r s.emitters }

unfoldable pub finish_reason_of : ℕ → Engine → FinishReason
finish_reason_of r s =
    if ends_with_eos s.scheduler.config.eos_token_id (s.scheduler.requests r).generated_token_ids
    then stop_token
    else length_limit

unfoldable pub complete : ℕ → Engine → Engine
unfolding emit finish_reason_of
complete r s =
    let t = record s {
      engine_stats = record s.engine_stats { completed = s.engine_stats.completed + 1 };
    } in
    close_stream r (emit (done_event r (finish_reason_of r t)) t)

-- The end of `_fail`, behind the call of `finish`.
abbrev pub report_failure : ℕ → Failure → Engine → Engine
report_failure r failure s =
    let t = record s {
      engine_stats = record s.engine_stats { failed = s.engine_stats.failed + 1 };
    } in
    close_stream r (emit (failed_event r failure) t)

unfoldable pub fail : ℕ → Failure → Action Engine (Unit {0})
unfolding emit
fail r failure = do
  s ← get
  if is_terminal (s.scheduler.requests r) then pure tt else on_scheduler (Progress.finish r)
  modify (report_failure r failure)

unfoldable pub fail_all : List ℕ → Failure → Action Engine (Unit {0})
unfolding fail
fail_all [] failure = pure tt
fail_all (r ∷ rs) failure = do fail r failure; fail_all rs failure

-- `if consumed:`, for `output.prefilled.get(r, 0)`.
unfoldable pub record_prefill : Option ℤ → ℕ → Action Engine (Unit {0})
record_prefill none r = pure tt
record_prefill (some n) r =
    if eqb_ℤ n (pos 0) then pure tt else on_scheduler (Progress.on_prefill_chunk r n)

-- `if request.is_terminal: self._complete(request)`
unfoldable pub settle : ℕ → Action Engine (Unit {0})
unfolding complete
settle r s = (if is_terminal (s.scheduler.requests r) then modify (complete r) else pure tt) s

unfoldable pub record_token : Option ℕ → ℕ → Action Engine (Unit {0})
unfolding settle
record_token none r = pure tt
record_token (some token) r = do
  on_scheduler (Progress.on_token r token)
  modify (emit (token_event r token))
  settle r

-- The loop over the batch behind a successful execution.
unfoldable pub record_all : StepOutput → List ℕ → Action Engine (Unit {0})
unfolding record_prefill record_token
record_all output [] = pure tt
record_all output (r ∷ rs) = do
  record_prefill (output.prefilled r) r
  record_token (output.tokens r) r
  record_all output rs

-- `self.scheduler.end_step()` and `self.stats.steps += 1`
abbrev pub end_iteration : Engine → Engine
end_iteration s = record s {
  scheduler = Progress.end_step s.scheduler;
  engine_stats = record s.engine_stats { engine_steps = s.engine_stats.engine_steps + 1 };
}

-- `_step` behind the call of `execute`.
abbrev pub after_execute : Batch → Result StepOutput → Action Engine (Unit {0})
after_execute b (err e) = fail_all (batch_requests b) (raised e)
after_execute b (ok output) = record_all output (batch_requests b)

-- `_step` from the call of `execute` on.
unfoldable pub execute_batch : Executor → Batch → Action Engine (Unit {0})
unfolding fail_all record_all
execute_batch execute b s =
    let (result, t) = execute b s.scheduler in
    (do after_execute b result; modify end_iteration) (record s { scheduler = t })

unfoldable pub run_step : Executor → Action Engine (Unit {0})
unfolding execute_batch
run_step execute = do
  b ← on_scheduler Admission.schedule
  if State.batch_is_empty b then pure tt else execute_batch execute b

abbrev pub take_in : List ℕ → Engine → Engine
take_in [] s = s
take_in (r ∷ rs) s =
    take_in rs (record s {
      emitters = open_stream r s.emitters;
      scheduler = State.add_request r s.scheduler;
    })

unfoldable pub drain_inbox : Engine → Engine
drain_inbox s = take_in s.inbox (record s { inbox = [] })

-- One round of the loop of `_run`. An exception that escapes from it ends the thread.
unfoldable pub run_once : Executor → Action Engine (Unit {0})
unfolding drain_inbox run_step
run_once execute = do
  modify drain_inbox
  s ← get
  if State.has_work s.scheduler then run_step execute else pure tt

-- The loop of `_fail_everything_still_open`.
abbrev pub stop_events : List ℕ → List TokenEvent → List TokenEvent
stop_events [] log = log
stop_events (r ∷ rs) log = stop_events rs (failed_event r engine_stopped ∷ log)

unfoldable pub fail_everything_still_open : Engine → Engine
fail_everything_still_open s = record s { events = stop_events s.emitters s.events; emitters = [] }

unfoldable pub submit : ℕ → Action Engine (Unit {0})
submit r s =
    if is_running s
    then (
      ok tt,
      record s {
        engine_stats = record s.engine_stats { submitted = s.engine_stats.submitted + 1 };
        inbox = s.inbox ++ r ∷ [];
      },
    )
    else (err runtime_error, s)

unfoldable pub start : Action Engine (Unit {0})
start s = elim s.thread [
  | no_thread ↦ (ok tt, record s { thread = alive })
  | _ ↦ (err runtime_error, s)
]

-- `stop`, with a join that waits for the end of `_run`; what the loop does up to there is rounds of it
-- before. A thread that has ended is just forgotten.
unfoldable pub stop : Engine → Engine
unfolding fail_everything_still_open
stop s = elim s.thread [
  | alive ↦ record (fail_everything_still_open s) { thread = no_thread }
  | _ ↦ record s { thread = no_thread }
]
