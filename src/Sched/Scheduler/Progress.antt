-- ===== src/Sched/Scheduler/Progress.antt =====
-- edgerag/sched/scheduler.py: what the scheduler records of an executed batch, and rejection.
use edgerag.Prelude.{
  ℕ, if◌then◌else◌, ◌++◌, Result, ◌+◌, Action, ◌∷◌, some, ok, [], err, none, ℤ, ◌>>◌, ◌>>=◌, modify,
  pure, get,
}
use edgerag.Cache.BlockTable.{BlockTable, View}
use edgerag.Sched.Request.{
  Request, RequestState, waiting, prefilling, decoding, finished, rejected, append_token,
  prompt_len, is_preemptable, prefill_done,
}
use edgerag.Sched.Scheduler.State.{Scheduler, update, remove, set_request}
use edgerag.Sched.Request
use edgerag.Cache.BlockTable

-- The scheduler and the object `r` after a call of its cache's `free`. The cache is dropped where the
-- call returned.
abbrev pub freed : ℕ → Scheduler → Result ℕ × View → Result (Unit {0}) × Scheduler
freed r s (err e, v) = (
  err e,
  record s {
    pool = v.pool;
    requests = update s.requests r (record (s.requests r) { cache = some v.table });
  },
)
freed r s (ok _, v) = (
  ok tt,
  record s {
    pool = v.pool;
    requests = update s.requests r (record (s.requests r) { cache = none });
  },
)

-- `if request.cache is not None: request.cache.free(); request.cache = None`
unfoldable pub drop_cache : ℕ → Action Scheduler (Unit {0})
drop_cache r s = elim (s.requests r).cache [
  | none ↦ (ok tt, s)
  | some table ↦ freed r s (BlockTable.free (record { pool = s.pool; table = table }))
]

-- The end of `finish`, behind the release of the cache.
abbrev pub retire : ℕ → Scheduler → Scheduler
retire r s = record s {
  running = remove r s.running;
  finished_list = s.finished_list ++ r ∷ [];
  stats = record s.stats { finished_count = s.stats.finished_count + 1 };
}

unfoldable pub finish : ℕ → Action Scheduler (Unit {0})
unfolding drop_cache
finish r = do
  modify (λ s.
      set_request r (record (s.requests r) { state = finished; finished_step = some s.step_index })
        s)
  drop_cache r
  modify (retire r)

-- A method of the request `r`, called from a method of the scheduler.
abbrev pub on_request : {A : Type 0} → ℕ → Action Request A → Action Scheduler A
on_request r m s = let (result, q) = m (s.requests r) in (result, set_request r q s)

unfoldable pub on_prefill_chunk : ℕ → ℤ → Action Scheduler (Unit {0})
on_prefill_chunk r n_tokens = do
  on_request r (Request.advance_prefill n_tokens)
  modify (λ s. record s { stats = record s.stats { prefill_chunks = s.stats.prefill_chunks + 1 } })
  s ← get
  if prefill_done (s.requests r)
      then modify (λ t. set_request r (record (t.requests r) { state = decoding }) t)
      else pure tt

unfoldable pub on_token : ℕ → ℕ → Action Scheduler (Unit {0})
on_token r token_id = do
  modify (λ s. set_request r (append_token token_id s.step_index (s.requests r)) s)
  modify (λ s. record s { stats = record s.stats { decode_steps = s.stats.decode_steps + 1 } })
  s ← get
  if Request.should_stop s.config.eos_token_id (s.requests r) then finish r else pure tt

unfoldable pub end_step : Scheduler → Scheduler
end_step s = record s {
  step_index = s.step_index + 1;
  stats = record s.stats { steps = s.stats.steps + 1 };
}

unfoldable pub reject : ℕ → Scheduler → Scheduler
reject r s =
    let refused = record (s.requests r) { state = rejected; finished_step = some s.step_index } in
    record s {
      requests = update s.requests r refused;
      waiting_queue = remove r s.waiting_queue;
      finished_list = s.finished_list ++ r ∷ [];
      stats = record s.stats { rejected_count = s.stats.rejected_count + 1 };
    }
