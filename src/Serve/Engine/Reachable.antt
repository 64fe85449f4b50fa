-- ===== src/Serve/Engine/Reachable.antt =====
-- The life of the engine of edgerag/serve/engine.py as a sequence of turns: what the event loop asks
-- for, and the rounds of the worker thread. A submission during a round counts as one behind it, since
-- the round does not look at the queue again.
use edgerag.Sched.Scheduler.State.{Scheduler}
use edgerag.Serve.Engine.{
  Engine, Executor, start, no_thread, submit, alive, run_once, dead, stop, Thread,
  fail_everything_still_open, is_running,
}
use edgerag.Prelude.{
  ℕ, [], ◌≡◌, ◌+◌, ok, Error, err, Bool-cases, Result, arith, subst, refl, inr, ap, inl,
}
use edgerag.Serve.Engine.Balance.{done_count, StreamsHold, stop_events-IsBalanced}
use edgerag.Prelude.Counting.{occ, occ-nil}
use edgerag.Serve.Engine.Streams.{run_once-StreamsHold}
use edgerag.Sched.Scheduler.Queues.{occ_snoc}

abbrev pub new_engine : Scheduler → Engine
new_engine s = record {
  scheduler = s;
  engine_stats = record { submitted = 0; completed = 0; failed = 0; engine_steps = 0 };
  inbox = [];
  emitters = [];
  thread = no_thread;
  events = [];
}

-- The id is not in use and was not used before.
abbrev pub IsFresh : ℕ → Engine → Type 0
IsFresh r s = done_count r s.events + occ r s.inbox + occ r s.emitters ≡ 0

pub data Turn (execute : Executor) : Engine → Engine → Type 0 where
  starts : {s s' : Engine} → start s ≡ (ok tt, s') → Turn execute s s'
  submits : {s s' : Engine} (r : ℕ) → IsFresh r s → submit r s ≡ (ok tt, s') → Turn execute s s'
  rounds : {s s' : Engine} → s.thread ≡ alive → run_once execute s ≡ (ok tt, s') → Turn execute s s'
  dies :
      {s s' : Engine} (e : Error)
      → s.thread ≡ alive
      → run_once execute s ≡ (err e, s')
      → Turn execute s (record s' { thread = dead })
  stops : {s : Engine} → Turn execute s (stop s)

pub data Life (execute : Executor) (s : Scheduler) : Engine → Type 0 where
  new : Life execute s (new_engine s)
  turn : {e e' : Engine} → Life execute s e → Turn execute e e' → Life execute s e'

start-StreamsHold :
    (t : Thread) (s : Engine) → s.thread ≡ t → StreamsHold s → StreamsHold (start s).1
unfolding start
start-StreamsHold no_thread s e h = rw e (record { once = h.once; last = h.last })
start-StreamsHold alive s e h = rw e h
start-StreamsHold dead s e h = rw e h

stop-StreamsHold : (t : Thread) (s : Engine) → s.thread ≡ t → StreamsHold s → StreamsHold (stop s)
unfolding stop fail_everything_still_open
stop-StreamsHold no_thread s e h = rw e (record { once = h.once; last = h.last })
stop-StreamsHold alive s e h = rw e (stop_events-IsBalanced s.emitters s.inbox s.events h)
stop-StreamsHold dead s e h = rw e (record { once = h.once; last = h.last })

submit-StreamsHold : (r : ℕ) (s : Engine) → IsFresh r s → StreamsHold s → StreamsHold (submit r s).1
unfolding submit
submit-StreamsHold r s fresh h = elim (Bool-cases (is_running s)) [
  | inr closed ↦ rw closed h
  | inl running ↦
      rw running (record {
        once = λ c. ground (arith, h.once c, fresh, occ_snoc c s.inbox r);
        last = h.last;
      })
]

after_call :
    {A : Type 0} {p : Result A × Engine} {r : Result A} (s : Engine)
    → p ≡ (r, s)
    → StreamsHold p.1
    → StreamsHold s
after_call s e h = subst StreamsHold (ap (λ (q : _). q.1) e) h

turn-StreamsHold :
    {execute : Executor} {s s' : Engine} → Turn execute s s' → StreamsHold s → StreamsHold s'
turn-StreamsHold (starts {s} {s'} e) h = after_call s' e (start-StreamsHold s.thread s refl h)
turn-StreamsHold (submits {s} {s'} r fresh e) h = after_call s' e (submit-StreamsHold r s fresh h)
turn-StreamsHold {execute} (rounds {s} {s'} a e) h =
    after_call s' e (run_once-StreamsHold execute s h)
turn-StreamsHold {execute} (dies {s} {s'} x a e) h =
    let k = after_call s' e (run_once-StreamsHold execute s h) in
    record { once = k.once; last = k.last }
turn-StreamsHold (stops {s}) h = stop-StreamsHold s.thread s refl h

-- In every life of an engine, whatever the executor returns, raises or does to the scheduler, where a
-- request is submitted only under an id that was not used before: every stream is told at most once
-- that it is over, and nothing behind that; and a stream that was told so is neither open nor waiting
-- in the queue.
pub life-StreamsHold :
    (execute : Executor) (s : Scheduler) (e : Engine) → Life execute s e → StreamsHold e
unfolding done_count
life-StreamsHold execute s e new = record { once = λ r. omega (arith, occ-nil r); last = tt }
life-StreamsHold execute s _ (turn {e = e₀} before t) =
    turn-StreamsHold t (life-StreamsHold execute s e₀ before)
