-- ===== src/Sched/Scheduler/Admission.antt =====
-- `schedule` of edgerag/sched/scheduler.py: what runs in this iteration, and who is admitted.
use edgerag.Prelude.{
  ℕ, true, false, List, if◌then◌else◌, ◌++◌, ◌+◌, Bool, Action, ◌∷◌, some, ltb, ok, [], length, err,
  ◌&&◌,
}
use edgerag.Sched.Request.{prefilling, decoding}
use edgerag.Sched.Scheduler.State.{Scheduler, Batch, update, blocks_required, available_blocks}

-- The loop of `schedule` over the running requests, one request at a time.
unfoldable pub place_running : Scheduler → Batch → ℕ → Batch
place_running s b r = elim (s.requests r).state [
  | decoding ↦ record b { decode = b.decode ++ r ∷ [] }
  | prefilling ↦
      if ltb (length b.prefill) s.config.max_prefills_per_step
      then record b { prefill = b.prefill ++ r ∷ [] }
      else b
  | _ ↦ b
]

unfoldable pub place_all : Scheduler → List ℕ → Batch → Batch
unfolding place_running
place_all s [] b = b
place_all s (r ∷ rs) b = place_all s rs (place_running s b r)

-- The head of the waiting queue becomes a running request.
unfoldable pub admit : ℕ → List ℕ → Scheduler → Scheduler
admit r rest s =
    let started = record (s.requests r) { state = prefilling; admitted_step = some s.step_index } in
    record s {
      waiting_queue = rest;
      requests = update s.requests r started;
      running = s.running ++ r ∷ [];
      stats = record s.stats { admitted = s.stats.admitted + 1 };
    }

abbrev pub blocked : Scheduler → Scheduler
blocked s = record s {
  stats = record s.stats { admission_blocked = s.stats.admission_blocked + 1 };
}

-- The conditions of the admission loop but the first, that somebody waits.
abbrev pub has_room : Scheduler → Batch → Bool
has_room s b =
    ltb (length s.running) s.config.max_batch_size
    && ltb (length b.prefill) s.config.max_prefills_per_step

-- The admission loop, over the waiting queue.
unfoldable pub admit_all : List ℕ → Batch → Action Scheduler Batch
unfolding admit
admit_all [] b s = (ok b, s)
admit_all (r ∷ rest) b s = elim (has_room s b) [
  | false ↦ (ok b, s)
  | true ↦ elim (blocks_required (s.requests r) s) [
    | err e ↦ (err e, s)
    | ok needed ↦ elim (ltb (available_blocks s) needed) [
      | true ↦ (ok b, blocked s)
      | false ↦ admit_all rest (record b { prefill = b.prefill ++ r ∷ [] }) (admit r rest s)
    ]
  ]
]

unfoldable pub schedule : Action Scheduler Batch
unfolding place_all admit_all
schedule s =
    admit_all s.waiting_queue
      (place_all s s.running (record { step = s.step_index; prefill = []; decode = [] })) s
