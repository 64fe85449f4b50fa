-- ===== src/Sched/Scheduler/Pressure.antt =====
-- edgerag/sched/scheduler.py: preemption and growth under pressure, for a scheduler that has no
-- preemptor, as the server builds it.
use edgerag.Prelude.{
  ℕ, true, false, List, if◌then◌else◌, ◌+◌, Bool, Action, ◌∷◌, pos, some, ok, [], err, none, leb,
  ◌>>◌, ◌>>=◌, modify, pure, get, attribute_error, lift, out_of_blocks,
}
use edgerag.Cache.Allocator.{Allocator}
use edgerag.Cache.BlockTable.{BlockTable, View}
use mathlib.Core.List.{reverse}
use edgerag.Sched.Request.{
  Request, RequestState, waiting, prefilling, decoding, finished, rejected, append_token,
  prompt_len, is_preemptable, prefill_done,
}
use edgerag.Sched.Scheduler.State.{Scheduler, update, remove}
use edgerag.Sched.Scheduler.Progress.{drop_cache}
use edgerag.Sched.Request
use edgerag.Cache.Allocator
use edgerag.Cache.BlockTable

-- The end of `_preempt_one`, behind the release of the cache.
abbrev pub requeue : ℕ → Scheduler → Scheduler
requeue r s =
    let marked = Request.mark_preempted (s.requests r) in
    let reset = record marked { state = waiting; cache = none; prefill_offset = 0 } in
    record s {
      requests = update s.requests r reset;
      running = remove r s.running;
      stats = record s.stats { preempted = s.stats.preempted + 1 };
    }

unfoldable pub preempt_one : ℕ → Action Scheduler (Unit {0})
unfolding drop_cache
preempt_one r = do drop_cache r; modify (requeue r)

-- `[r for r in self.running if r.state in PREEMPTABLE]`
unfoldable pub candidates : (ℕ → Request) → List ℕ → List ℕ
candidates requests [] = []
candidates requests (r ∷ rs) =
    if is_preemptable (requests r).state then r ∷ candidates requests rs else candidates requests rs

-- The loop over the candidates, newest first, with the victims so far.
unfoldable pub preempt_all : ℕ → List ℕ → Action Scheduler (List ℕ)
unfolding preempt_one
preempt_all blocks_needed [] s = (ok [], s)
preempt_all blocks_needed (r ∷ rs) s = elim (leb blocks_needed (Allocator.num_free s.pool)) [
  | true ↦ (ok [], s)
  | false ↦ (do preempt_one r; victims ← preempt_all blocks_needed rs; pure (r ∷ victims)) s
]

-- `for request in victims: self.waiting.appendleft(request)`
unfoldable pub append_left : List ℕ → List ℕ → List ℕ
append_left [] queue = queue
append_left (r ∷ rs) queue = append_left rs (r ∷ queue)

unfoldable pub preempt_to_free : ℕ → Action Scheduler (List ℕ)
unfolding candidates preempt_all append_left
preempt_to_free blocks_needed = do
  s ← get
  victims ← preempt_all blocks_needed (reverse (candidates s.requests s.running))
  modify (λ t. record t { waiting_queue = append_left (reverse victims) t.waiting_queue })
  pure victims

-- `request.cache.table.ensure_capacity(request.cache.seq_len + n_tokens)`
unfoldable pub grow_cache : ℕ → ℕ → Action Scheduler (Unit {0})
grow_cache r n_tokens s = elim (s.requests r).cache [
  | none ↦ (err attribute_error, s)
  | some table ↦
      let (result, v) =
        BlockTable.ensure_capacity (pos (table.num_tokens + n_tokens))
          (record { pool = s.pool; table = table }) in
      (
        elim result [ ok _ ↦ ok tt | err e ↦ err e ],
        record s {
          pool = v.pool;
          requests = update s.requests r (record (s.requests r) { cache = some v.table });
        },
      )
]

-- `try: body; return True` / `except OutOfBlocksError: handler`
abbrev pub except_oom : {S : Type 0} → Action S (Unit {0}) → Action S Bool → Action S Bool
except_oom body handler s =
    let (result, after) = body s in
    elim result [
      | ok _ ↦ (ok true, after)
      | err out_of_blocks ↦ handler after
      | err e ↦ (err e, after)
    ]

-- The length of the cache is read once: no step in between changes it while the cache is there.
abbrev pub tokens_with : ℕ → ℕ → Scheduler → ℕ
tokens_with r n_tokens s = elim (s.requests r).cache [
  | none ↦ n_tokens
  | some table ↦ table.num_tokens + n_tokens
]

unfoldable pub try_allocate : ℕ → ℕ → Action Scheduler Bool
unfolding grow_cache preempt_to_free
try_allocate r n_tokens s = elim (s.requests r).cache [
  | none ↦ (ok false, s)
  | some _ ↦
      except_oom (grow_cache r n_tokens)
        (do
          t ← get
          needed ← lift (Allocator.blocks_needed (pos (tokens_with r n_tokens t)) t.pool)
          preempt_to_free needed
          except_oom (grow_cache r n_tokens) (pure false))
        s
]
