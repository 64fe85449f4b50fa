-- ===== src/Serve/Executor/Undisturbed.antt =====
-- What a call of the executor of edgerag/serve/executor.py leaves alone.
use edgerag.Sched.Scheduler.State.{Scheduler, update, set_request}
use edgerag.Sched.Request.{Request}
use edgerag.Prelude.{
  ◌≡◌, ◌∙◌, ℕ, none, Option, Action, ap, refl, inl, some, Bool-cases, inr, ◌==◌, arith, slice, ◌∷◌,
  [],
}
use edgerag.Serve.Executor.{
  cache_for, on_cache, BlockTable, View, empty_table, given_cache, run_chunk, run_token, Decoder,
  forward, chunk_end, chunk_length,
}
use edgerag.Cache.Allocator.{Allocator}

-- A request without its cache.
abbrev pub bare : Request → Request
bare q = record q { cache = none }

-- Only the pool and the caches of requests may differ.
pub record Undisturbed (s u : Scheduler) : Type 0 where
  pub same_running : u.running ≡ s.running
  pub same_waiting : u.waiting_queue ≡ s.waiting_queue
  pub same_finished : u.finished_list ≡ s.finished_list
  pub same_config : u.config ≡ s.config
  pub same_requests : (c : ℕ) → bare (u.requests c) ≡ bare (s.requests c)

pub Undisturbed-refl : (s : Scheduler) → Undisturbed s s
Undisturbed-refl s = record {
  same_running = refl;
  same_waiting = refl;
  same_finished = refl;
  same_config = refl;
  same_requests = λ c. refl;
}

pub Undisturbed-trans : (s t u : Scheduler) → Undisturbed s t → Undisturbed t u → Undisturbed s u
Undisturbed-trans s t u h k = record {
  same_running = k.same_running ∙ h.same_running;
  same_waiting = k.same_waiting ∙ h.same_waiting;
  same_finished = k.same_finished ∙ h.same_finished;
  same_config = k.same_config ∙ h.same_config;
  same_requests = λ c. k.same_requests c ∙ h.same_requests c;
}

bare-update :
    (requests : ℕ → Request) (r c : ℕ) (table : Option BlockTable)
    → bare (update requests r (record (requests r) { cache = table }) c) ≡ bare (requests c)
bare-update requests r c table = elim (Bool-cases (r == c)) [
  | inr other ↦ rw other refl
  | inl same ↦ let e : r ≡ c = ground arith in rw same (ap (λ k. bare (requests k)) e)
]

set_cache-Undisturbed :
    (r : ℕ) (table : Option BlockTable) (pool : Allocator) (s : Scheduler)
    → Undisturbed s
        (set_request r (record (s.requests r) { cache = table }) (record s { pool = pool }))
set_cache-Undisturbed r table pool s = record {
  same_running = refl;
  same_waiting = refl;
  same_finished = refl;
  same_config = refl;
  same_requests = λ c. bare-update s.requests r c table;
}

given_cache-Undisturbed :
    (r : ℕ) (cache : Option BlockTable) (s : Scheduler) → Undisturbed s (given_cache r cache s)
given_cache-Undisturbed r none s = set_cache-Undisturbed r (some empty_table) s.pool s
given_cache-Undisturbed r (some table) s = Undisturbed-refl s

pub cache_for-Undisturbed : (r : ℕ) (s : Scheduler) → Undisturbed s (cache_for r s)
unfolding cache_for
cache_for-Undisturbed r s = given_cache-Undisturbed r (s.requests r).cache s

pub on_cache-Undisturbed :
    {A : Type 0} (r : ℕ) (m : Action View A) (s : Scheduler) → Undisturbed s (on_cache r m s).1
unfolding on_cache
on_cache-Undisturbed r m s = set_cache-Undisturbed r _ _ s

pub run_chunk-Undisturbed :
    (decoder : Decoder) (chunk_size r : ℕ) (s : Scheduler)
    → Undisturbed s (run_chunk decoder chunk_size r s).1
unfolding run_chunk
run_chunk-Undisturbed decoder chunk_size r s =
    let q = s.requests r in
    let tokens = slice q.prefill_offset (chunk_end chunk_size q) q.prompt_token_ids in
    on_cache-Undisturbed r (forward decoder (chunk_length chunk_size q) tokens) s

pub run_token-Undisturbed :
    (decoder : Decoder) (r : ℕ) (last : Option ℕ) (s : Scheduler)
    → Undisturbed s (run_token decoder r last s).1
unfolding run_token
run_token-Undisturbed decoder r none s = Undisturbed-refl s
run_token-Undisturbed decoder r (some last) s =
    on_cache-Undisturbed r (forward decoder 1 (last ∷ [])) s
