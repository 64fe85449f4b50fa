-- ===== src/Serve/Engine/Streams.antt =====
-- The streams of edgerag/serve/engine.py: every method keeps them in order,
-- whatever the executor does.
use edgerag.Serve.Engine.Balance.{
  StreamsHold, closing-StreamsHold, emit-StreamsHold, IsBalanced, IsBalanced-move,
}
use edgerag.Sched.Scheduler.State.{remove, Batch, batch_requests, Scheduler}
use edgerag.Prelude.{
  ℕ, List, Action, Result, Bool, ◌≡◌, and_then, ◌>>=◌, if◌then◌else◌, ◌∷◌, false, true, ok, ◌+◌,
  err, [], pure, Option, subst, refl, ℤ, some, sym, modify, eqb_ℤ, pos, none, ◌>>◌,
}
use edgerag.Serve.Engine.{
  Engine, emit, fail, fail_all, Failure, is_terminal, on_scheduler, failed_event, record_prefill,
  record_token, record_all, run_step, take_in, run_once, complete, StepOutput, Executor,
  after_execute, token_event, drain_inbox, done_event, raised, finish_reason_of, report_failure,
  settle, execute_batch, end_iteration,
}
use edgerag.Sched.Scheduler.Progress
use edgerag.Sched.Scheduler.Admission
use edgerag.Sched.Scheduler.State

-- A method keeps a property of the object, whether it returns or raises.
abbrev pub Keeps : {S A : Type 0} → (S → Type 0) → Action S A → Type 0
Keeps P m = (s : _) → P s → P (m s).1

Keeps-result :
    {S A B : Type 0} (P : S → Type 0) (r : Result A) (f : A → Action S B) (s : S)
    → ((a : A) → Keeps P (f a))
    → P s
    → P (and_then r f s).1
Keeps-result P (ok a) f s k p = k a s p
Keeps-result P (err e) f s k p = p

Keeps-bind :
    {S A B : Type 0} (P : S → Type 0) (m : Action S A) (f : A → Action S B)
    → Keeps P m
    → ((a : A) → Keeps P (f a))
    → Keeps P (m >>= f)
Keeps-bind P m f k l s p = Keeps-result P (m s).0 f (m s).1 l (k s p)

Keeps-if :
    {S A : Type 0} (P : S → Type 0) (b : Bool) (m n : Action S A)
    → Keeps P m
    → Keeps P n
    → Keeps P (if b then m else n)
Keeps-if P true m n k l = k
Keeps-if P false m n k l = l

with_failure : Failure → Engine → Engine
with_failure failure s = record s {
  engine_stats = record s.engine_stats { failed = s.engine_stats.failed + 1 };
}

pub report_failure-StreamsHold :
    (r : ℕ) (failure : Failure) (s : Engine)
    → StreamsHold s
    → StreamsHold (report_failure r failure s)
unfolding with_failure
report_failure-StreamsHold r failure s h =
    closing-StreamsHold (failed_event r failure) (with_failure failure s) refl
      (record { once = h.once; last = h.last })

complete-StreamsHold : (r : ℕ) (s : Engine) → StreamsHold s → StreamsHold (complete r s)
unfolding complete
complete-StreamsHold r s h =
    let t = record s {
      engine_stats = record s.engine_stats { completed = s.engine_stats.completed + 1 };
    } in
    closing-StreamsHold (done_event r (finish_reason_of r t)) t refl
      (record { once = h.once; last = h.last })

-- The scheduler has no part in it.
on_scheduler-StreamsHold :
    {A : Type 0} (m : Action Scheduler A) → Keeps StreamsHold (on_scheduler m)
on_scheduler-StreamsHold m s h = record { once = h.once; last = h.last }

fail-StreamsHold : (r : ℕ) (failure : Failure) → Keeps StreamsHold (fail r failure)
unfolding fail
fail-StreamsHold r failure s =
    Keeps-bind StreamsHold
      (if is_terminal (s.scheduler.requests r) then pure tt else on_scheduler (Progress.finish r))
      (λ _. modify (report_failure r failure))
      (Keeps-if StreamsHold (is_terminal (s.scheduler.requests r)) (pure tt)
        (on_scheduler (Progress.finish r)) (λ t h. h)
        (on_scheduler-StreamsHold (Progress.finish r)))
      (λ _ t h. report_failure-StreamsHold r failure t h) s

pub fail_all-StreamsHold :
    (rs : List ℕ) (failure : Failure) → Keeps StreamsHold (fail_all rs failure)
unfolding fail_all
fail_all-StreamsHold [] failure = λ s h. h
fail_all-StreamsHold (r ∷ rs) failure =
    Keeps-bind StreamsHold (fail r failure) (λ _. fail_all rs failure) (fail-StreamsHold r failure)
      (λ _. fail_all-StreamsHold rs failure)

record_prefill-StreamsHold : (n : Option ℤ) (r : ℕ) → Keeps StreamsHold (record_prefill n r)
unfolding record_prefill
record_prefill-StreamsHold none r = λ s h. h
record_prefill-StreamsHold (some n) r =
    Keeps-if StreamsHold (eqb_ℤ n (pos 0)) (pure tt) (on_scheduler (Progress.on_prefill_chunk r n))
      (λ s h. h) (on_scheduler-StreamsHold (Progress.on_prefill_chunk r n))

-- The end of the loop's body: a request that has stopped is complete.
settle-StreamsHold : (r : ℕ) → Keeps StreamsHold (settle r)
unfolding settle
settle-StreamsHold r s =
    Keeps-if StreamsHold (is_terminal (s.scheduler.requests r)) (modify (complete r)) (pure tt)
      (complete-StreamsHold r) (λ t h. h) s

record_token-StreamsHold : (token : Option ℕ) (r : ℕ) → Keeps StreamsHold (record_token token r)
unfolding record_token
record_token-StreamsHold none r = λ s h. h
record_token-StreamsHold (some token) r =
    Keeps-bind StreamsHold (on_scheduler (Progress.on_token r token))
      (λ _. modify (emit (token_event r token)) >> settle r)
      (on_scheduler-StreamsHold (Progress.on_token r token))
      (λ _.
        Keeps-bind StreamsHold (modify (emit (token_event r token))) (λ _. settle r)
          (λ s h. emit-StreamsHold (token_event r token) s refl h) (λ _. settle-StreamsHold r))

record_all-StreamsHold :
    (output : StepOutput) (rs : List ℕ) → Keeps StreamsHold (record_all output rs)
unfolding record_all
record_all-StreamsHold output [] = λ s h. h
record_all-StreamsHold output (r ∷ rs) =
    Keeps-bind StreamsHold (record_prefill (output.prefilled r) r)
      (λ _. record_token (output.tokens r) r >> record_all output rs)
      (record_prefill-StreamsHold (output.prefilled r) r)
      (λ _.
        Keeps-bind StreamsHold (record_token (output.tokens r) r) (λ _. record_all output rs)
          (record_token-StreamsHold (output.tokens r) r) (λ _. record_all-StreamsHold output rs))

after_execute-StreamsHold :
    (b : Batch) (result : Result StepOutput) → Keeps StreamsHold (after_execute b result)
after_execute-StreamsHold b (err e) = fail_all-StreamsHold (batch_requests b) (raised e)
after_execute-StreamsHold b (ok output) = record_all-StreamsHold output (batch_requests b)

execute_batch-StreamsHold :
    (execute : Executor) (b : Batch) → Keeps StreamsHold (execute_batch execute b)
unfolding execute_batch
execute_batch-StreamsHold execute b s h =
    let t = record s { scheduler = (execute b s.scheduler).1 } in
    Keeps-bind StreamsHold (after_execute b (execute b s.scheduler).0) (λ _. modify end_iteration)
      (after_execute-StreamsHold b (execute b s.scheduler).0)
      (λ _ u k. record { once = k.once; last = k.last }) t (record { once = h.once; last = h.last })

run_step-StreamsHold : (execute : Executor) → Keeps StreamsHold (run_step execute)
unfolding run_step
run_step-StreamsHold execute =
    Keeps-bind StreamsHold (on_scheduler Admission.schedule)
      (λ b. if State.batch_is_empty b then pure tt else execute_batch execute b)
      (on_scheduler-StreamsHold Admission.schedule)
      (λ b.
        Keeps-if StreamsHold (State.batch_is_empty b) (pure tt) (execute_batch execute b) (λ s h. h)
          (execute_batch-StreamsHold execute b))

take_in-StreamsHold :
    (rs : List ℕ) (s : Engine)
    → s.inbox ≡ []
    → IsBalanced s.events rs s.emitters
    → StreamsHold (take_in rs s)
take_in-StreamsHold [] s e h = subst (λ inbox. IsBalanced s.events inbox s.emitters) (sym e) h
take_in-StreamsHold (r ∷ rs) s e h =
    take_in-StreamsHold rs _ e (IsBalanced-move r rs s.emitters s.events h)

drain_inbox-StreamsHold : (s : Engine) → StreamsHold s → StreamsHold (drain_inbox s)
unfolding drain_inbox
drain_inbox-StreamsHold s h =
    take_in-StreamsHold s.inbox (record s { inbox = [] }) refl
      (record { once = h.once; last = h.last })

pub run_once-StreamsHold : (execute : Executor) → Keeps StreamsHold (run_once execute)
unfolding run_once
run_once-StreamsHold execute s h =
    let t = drain_inbox s in
    Keeps-if StreamsHold (State.has_work t.scheduler) (run_step execute) (pure tt)
      (run_step-StreamsHold execute) (λ u k. k) t (drain_inbox-StreamsHold s h)
