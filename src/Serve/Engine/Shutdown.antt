-- ===== src/Serve/Engine/Shutdown.antt =====
-- `stop` of edgerag/serve/engine.py: who is told.
use edgerag.Serve.Engine.Reachable.{Life, life-StreamsHold}
use edgerag.Serve.Engine.{
  stop, fail_everything_still_open, Engine, submit, Executor, alive, Scheduler, no_thread,
}
use edgerag.Prelude.{◌≡◌, ℕ, ◌<◌, [], err, runtime_error, arith, refl}
use edgerag.Prelude.Counting.{occ}
use edgerag.Serve.Engine.Balance.{done_count, done_count-stop_events}

stopped-alive :
    (s : Engine)
    → s.thread ≡ alive
    → stop s ≡ record (fail_everything_still_open s) { thread = no_thread }
unfolding stop
stopped-alive s e = rw e refl

-- In every life of an engine, `stop` of the running engine tells every open stream, once, that it is
-- over, and closes it, and tells nothing to any other. A request that was submitted and not yet taken
-- in stays in the queue and is told nothing; and another submission is refused by RuntimeError.
pub stop_lem :
    (execute : Executor) (s : Scheduler) (e : Engine)
    → Life execute s e
    → e.thread ≡ alive
    → ((r : ℕ) → 0 < occ r e.emitters → done_count r (stop e).events ≡ 1)
      × ((r : ℕ) → occ r e.emitters ≡ 0 → done_count r (stop e).events ≡ done_count r e.events)
      × ((r : ℕ)
          → 0 < occ r e.inbox
          → (done_count r (stop e).events ≡ 0) × (0 < occ r (stop e).inbox))
      × ((stop e).emitters ≡ [])
      × ((r : ℕ) → submit r (stop e) ≡ (err runtime_error, stop e))
unfolding fail_everything_still_open submit
stop_lem execute s e life up =
    let h = life-StreamsHold execute s e life in
    let told = λ (r : ℕ). done_count-stop_events r e.emitters e.events in
    rw (stopped-alive e up) (
      (λ r open_stream. omega (arith, told r, h.once r)),
      (λ r closed. omega (arith, told r)),
      (λ r waits. (omega (arith, told r, h.once r), waits)),
      refl,
      (λ r. refl),
    )
