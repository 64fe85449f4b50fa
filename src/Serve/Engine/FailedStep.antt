-- ===== src/Serve/Engine/FailedStep.antt =====
-- `_step` of edgerag/serve/engine.py where the executor raises.
use edgerag.Sched.Scheduler.Fifo.{schedule_lem}
use edgerag.Sched.Scheduler.State.{Scheduler, Batch, batch_requests}
use edgerag.Prelude.{
  ℕ, List, take, ◌≡◌, Error, ◌≤◌, ok, false, ◌+◌, ok_pair, err, arith, ◌∷◌, ap, subst, sym, [],
  take-append-drop, drop, refl,
}
use edgerag.Serve.Engine.{
  execute_batch, Executor, Engine, fail_all, raised, end_iteration, run_step,
}
use edgerag.Prelude.Counting.{occ, occ-nil, occ-append, occ-cons}
use edgerag.Sched.Scheduler.Queues.{IsOrderly}
use edgerag.Sched.Scheduler.Selection.{with_state, is_decoding, is_prefilling}
use edgerag.Serve.Engine.Balance.{StreamsHold}
use edgerag.Sched.Scheduler.Backing.{IsBacked}
use edgerag.Serve.Engine.Failing.{Failed, fail_all_lem}
use edgerag.Sched.Scheduler.Admission
use edgerag.Sched.Scheduler.State

occ-with_state :
    (c : ℕ) (s : Scheduler) (rs : List ℕ)
    → occ c (with_state is_decoding s rs) + occ c (with_state is_prefilling s rs) ≤ occ c rs
occ-with_state c s [] = omega (arith, occ-nil c)
occ-with_state c s (r ∷ rs) = ground (
  arith,
  occ-with_state c s rs,
  occ-cons c r rs,
  occ-cons c r (with_state is_decoding s rs),
  occ-cons c r (with_state is_prefilling s rs),
)

occ-take_le : (c n : ℕ) (xs : List ℕ) → occ c (take n xs) ≤ occ c xs
occ-take_le c n xs =
    omega (arith, ap (occ c) (take-append-drop n xs), occ-append c (take n xs) (drop n xs))

-- Whoever is in the batch runs.
batch-runs :
    (s t : Scheduler) (b : Batch)
    → IsOrderly s
    → Admission.schedule s ≡ (ok b, t)
    → (c : ℕ) → occ c (batch_requests b) ≤ occ c t.running
batch-runs s t b o e c =
    let (more, b', t', run, decodes, prefills, a) = schedule_lem s o in
    let (same_batch, same_state) = ok_pair b b' t t' e run in
    let asked = with_state is_prefilling s s.running in
    rw same_batch (
      rw same_state (
        omega (
          arith,
          occ-append c b'.prefill b'.decode,
          ap (occ c) decodes,
          ap (occ c) prefills,
          ap (occ c) a.started,
          occ-append c (take s.config.max_prefills_per_step asked) more,
          occ-append c s.running more,
          occ-take_le c s.config.max_prefills_per_step asked,
          occ-with_state c s s.running,
        )))

step_run :
    (execute : Executor) (s s' : Engine) (b : Batch) (t u : Scheduler) (e : Error)
    → Admission.schedule s.scheduler ≡ (ok b, t)
    → State.batch_is_empty b ≡ false
    → execute b t ≡ (err e, u)
    → fail_all (batch_requests b) (raised e) (record s { scheduler = u }) ≡ (ok tt, s')
    → run_step execute s ≡ (ok tt, end_iteration s')
unfolding run_step execute_batch
step_run execute s s' b t u e scheduled busy raises failed =
    rw scheduled (rw busy (rw raises (rw failed refl)))

-- A round of the engine whose executor raises, where the scheduler's queues are in order before it and
-- the executor, though it raises, leaves queues in order, counted blocks and the same running
-- requests: it returns normally. Every request of the batch is finished, its stream is told so, once,
-- and closed; every other request and every other stream is as the executor left it; the scheduler's
-- invariants hold, and its step has ended.
pub failed_step_lem :
    (outside : ℕ → ℕ) (execute : Executor) (s : Engine) (b : Batch) (t u : Scheduler) (e : Error)
    → StreamsHold s
    → IsOrderly s.scheduler
    → Admission.schedule s.scheduler ≡ (ok b, t)
    → State.batch_is_empty b ≡ false
    → execute b t ≡ (err e, u)
    → IsOrderly u
    → IsBacked outside u
    → u.running ≡ t.running
    → (s' : Engine) × (run_step execute s ≡ (ok tt, end_iteration s'))
      × Failed outside (batch_requests b) (record s { scheduler = u }) s'
failed_step_lem outside execute s b t u e h o scheduled busy raises o' k same =
    let runs = λ (c : ℕ).
      subst (λ (rs : List ℕ). occ c (batch_requests b) ≤ occ c rs) (sym same)
        (batch-runs s.scheduler t b o scheduled c) in
    let (s', run, q) =
      fail_all_lem outside (batch_requests b) (raised e) (record s { scheduler = u })
        (record { once = h.once; last = h.last }) o' k runs in
    (s', step_run execute s s' b t u e scheduled busy raises run, q)
