-- ===== src/Sched/Scheduler/Starvation.antt =====
-- edgerag/sched/scheduler.py: which request at the head of the queue is admitted at all.
use edgerag.Sched.Scheduler.Fifo.{required, first_batch, admit_all-Admitted}
use edgerag.Sched.Scheduler.State.{
  Scheduler, SchedulerStats, Batch, available_blocks, batch_is_empty,
}
use edgerag.Prelude.{
  ℕ, List, ◌-◌, Action, ◌≡◌, ◌∷◌, ok, pure, [], ◌≤◌, ◌<◌, suc, length, arith, Bool-cases, true, ap,
  ◌>>=◌, zero, refl, inr, ◌++◌, inl, ltb, ◌∙◌, false, if◌then◌else◌, ◌==◌, eqb_refl,
}
use edgerag.Sched.Scheduler.Admission.{admit_all, schedule, place_all, has_room, blocked, admit}
use edgerag.Cache.Allocator.Invariant.{IsWellFormed}
use edgerag.Sched.Scheduler.Queues.{IsOrderly, state_of, admit-IsOrderly}
use edgerag.Cache.Allocator.Conservation.{num_free-add-live_blocks}
use edgerag.Sched.Request.{prefilling, RequestState}
use edgerag.Prelude.Counting.{occ}
use edgerag.Cache.Allocator

-- The blocks that admission can ever hand out.
abbrev pub admissible_blocks : Scheduler → ℕ
admissible_blocks s = s.pool.num_blocks - s.config.cow_reserve_blocks

available_le : (s : Scheduler) → IsWellFormed s.pool → available_blocks s ≤ admissible_blocks s
available_le s wf = omega (arith, num_free-add-live_blocks s.pool wf)

-- The head of the queue is too large for the pool behind the reserve.
pub record IsOversized (r : ℕ) (rest : List ℕ) (s : Scheduler) : Type 0 where
  pub well_formed : IsWellFormed s.pool
  pub at_head : s.waiting_queue ≡ r ∷ rest
  pub too_large : admissible_blocks s < required s r

IsOversized-stats :
    (r : ℕ) (rest : List ℕ) (s : Scheduler) (t : SchedulerStats)
    → IsOversized r rest s
    → IsOversized r rest (record s { stats = t })
IsOversized-stats r rest s t o = record {
  well_formed = o.well_formed;
  at_head = o.at_head;
  too_large = o.too_large;
}

admit_all-oversized :
    (r : ℕ) (rest : List ℕ) (b : Batch) (s : Scheduler)
    → available_blocks s < required s r
    → (t : SchedulerStats) × (admit_all (r ∷ rest) b s ≡ (ok b, record s { stats = t }))
unfolding admit_all Allocator.blocks_needed
admit_all-oversized r rest b s h = elim (Bool-cases (has_room s b)) [
  | inr none_left ↦ (s.stats, ground arith)
  | inl room ↦
      let tight : ltb (available_blocks s) (required s r) ≡ true = ground arith in
      ((blocked s).stats, ground arith)
]

schedule-oversized :
    (r : ℕ) (rest : List ℕ) (s : Scheduler)
    → IsOversized r rest s
    → (t : SchedulerStats) × (schedule s ≡ (ok (first_batch s), record s { stats = t }))
unfolding schedule
schedule-oversized r rest s o =
    let small = available_le s o.well_formed in
    let (t, run) = admit_all-oversized r rest (first_batch s) s (omega (arith, o.too_large)) in
    (t, ap (λ ws. admit_all ws (first_batch s) s) o.at_head ∙ run)

-- `schedule`, n times over with nothing in between, as the engine's loop does for empty batches.
unfoldable pub schedule_times : ℕ → Action Scheduler (List Batch)
schedule_times zero = pure []
schedule_times (suc n) = do b ← schedule; bs ← schedule_times n; pure (b ∷ bs)

abbrev pub AllEmpty : List Batch → Type 0
AllEmpty [] = Unit {0}
AllEmpty (b ∷ bs) = (batch_is_empty b ≡ true) × AllEmpty bs

first_batch-idle : (s : Scheduler) → s.running ≡ [] → batch_is_empty (first_batch s) ≡ true
unfolding place_all
first_batch-idle s idle = rw idle refl

-- Where nothing runs and the request at the head of the queue needs more blocks than the pool has
-- behind the copy-on-write reserve, `schedule` never makes progress: however often it is called, every
-- batch is empty, and the waiting queue stays as it is, whatever waits behind that request. Nothing
-- but the statistics changes.
pub head_blocks_queue :
    (n r : ℕ) (rest : List ℕ) (s : Scheduler)
    → IsOversized r rest s
    → s.running ≡ []
    → (bs : List Batch) × (t : SchedulerStats) × (schedule_times n s
        ≡ (ok bs, record s { stats = t }))
      × (length bs ≡ n)
      × AllEmpty bs
unfolding schedule_times
head_blocks_queue zero r rest s o idle = ([], s.stats, refl, refl, tt)
head_blocks_queue (suc n) r rest s o idle =
    let (t, run) = schedule-oversized r rest s o in
    let (bs, t', runs, count, all) =
      head_blocks_queue n r rest (record s { stats = t }) (IsOversized-stats r rest s t o) idle in
    (first_batch s ∷ bs, t', rw run (rw runs refl), ap suc count, (first_batch-idle s idle, all))

abbrev empty_batch : Scheduler → Batch
empty_batch s = record { step = s.step_index; prefill = []; decode = [] }

first_batch-empty : (s : Scheduler) → s.running ≡ [] → first_batch s ≡ empty_batch s
unfolding place_all
first_batch-empty s idle = ap (λ rs. place_all s rs (empty_batch s)) idle

admit_all-head :
    (r : ℕ) (rest : List ℕ) (b : Batch) (s : Scheduler)
    → has_room s b ≡ true
    → required s r ≤ available_blocks s
    → admit_all (r ∷ rest) b s
      ≡ admit_all rest (record b { prefill = b.prefill ++ r ∷ [] }) (admit r rest s)
unfolding admit_all Allocator.blocks_needed
admit_all-head r rest b s room fits =
    let loose : ltb (available_blocks s) (required s r) ≡ false = ground arith in ground arith

admitted_state :
    (r n : ℕ) (rest : List ℕ) (s : Scheduler) (state : RequestState)
    → state ≡ (if n == 0 then state_of (admit r rest s) r else prefilling)
    → state ≡ prefilling
unfolding admit
admitted_state r n rest s state e = ground (arith, e, eqb_refl r)

-- The head of the queue of a scheduler that runs nothing is admitted, if it fits.
pub schedule-head :
    (r : ℕ) (rest : List ℕ) (s : Scheduler)
    → IsOrderly s
    → s.waiting_queue ≡ r ∷ rest
    → s.running ≡ []
    → 0 < s.config.max_batch_size
    → 0 < s.config.max_prefills_per_step
    → required s r ≤ available_blocks s
    → (more : List ℕ) × (b : Batch) × (s' : Scheduler) × (schedule s ≡ (ok b, s'))
      × (b.prefill ≡ r ∷ more)
      × (s'.running ≡ r ∷ more)
      × (state_of s' r ≡ prefilling)
      × (rest ≡ more ++ s'.waiting_queue)
unfolding schedule admit
schedule-head r rest s o head idle batch_limit prefill_limit fits =
    let room : has_room s (empty_batch s) ≡ true =
      ground (arith, ap (λ (rs : List ℕ). length rs) idle) in
    let b₁ = record (empty_batch s) { prefill = r ∷ [] } in
    let (more, b, s', run, a) =
      admit_all-Admitted rest b₁ (admit r rest s)
        (admit-IsOrderly r rest s o head (omega (arith, ap (λ (rs : List ℕ). length rs) idle)))
        (unfold admit in refl) in
    (
      more,
      b,
      s',
      ap (λ ws. admit_all ws (first_batch s) s) head
          ∙ ap (λ first. admit_all (r ∷ rest) first s) (first_batch-empty s idle)
          ∙ admit_all-head r rest (empty_batch s) s room fits
          ∙ run,
      a.prefills,
      a.started ∙ ap (λ rs. (rs ++ r ∷ []) ++ more) idle,
      admitted_state r (occ r more) rest s (state_of s' r) (a.states r),
      a.queue,
    )
