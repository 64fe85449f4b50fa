-- ===== src/Sched/Scheduler/Fifo.antt =====
-- The admission loop of `schedule` in edgerag/sched/scheduler.py: in order of arrival, as far as
-- there is room, and no further than the first request that does not fit.
use edgerag.Prelude.{
  ℕ, false, List, ◌≡◌, ◌∷◌, [], ◌++◌, arith, ok, ◌+◌, ◌≤◌, ◌⊎◌, sym, inl, length, if◌then◌else◌,
  ◌<◌, ◌∙◌, inr, ◌==◌, ap, Bool-cases, ltb, refl, ltb→lt, take, ◌-◌,
}
use edgerag.Sched.Request.{prefilling, prompt_len}
use edgerag.Sched.Scheduler.State.{Scheduler, Batch, SchedulerStats, available_blocks}
use edgerag.Sched.Scheduler.Admission.{admit, admit_all, has_room, blocked, place_all, schedule}
use edgerag.Sched.Scheduler.Queues.{IsOrderly, admit-IsOrderly, state_of, IsOrderly-pool}
use edgerag.Cache.Allocator.Sizing.{ceil_blocks}
use mathlib.Core.List.{append-nil, append_assoc}
use edgerag.Prelude.Counting.{occ, occ-nil, occ-cons}
use edgerag.Sched.Scheduler.Selection.{
  with_state, is_decoding, is_prefilling, place_all-decode, place_all-prefill,
}
use edgerag.Cache.Allocator

-- The blocks that a request needs for its whole prompt and everything that it may generate.
abbrev pub required : Scheduler → ℕ → ℕ
required s r =
    ceil_blocks (prompt_len (s.requests r) + (s.requests r).max_new_tokens) s.pool.block_size

abbrev pub AllFit : Scheduler → List ℕ → Type 0
AllFit s [] = Unit {0}
AllFit s (r ∷ rs) = (required s r ≤ available_blocks s) × AllFit s rs

-- Why the admission loop ended.
abbrev pub Stopped : Scheduler → Batch → Type 0
Stopped s b =
    (s.waiting_queue ≡ [])
    ⊎ (s.config.max_batch_size ≤ length s.running)
    ⊎ (s.config.max_prefills_per_step ≤ length b.prefill)
    ⊎ ((r : ℕ) × (rest : List ℕ) × (s.waiting_queue ≡ r ∷ rest)
        × (available_blocks s < required s r))

-- From `s` and the batch `b` the requests `more` were admitted, which leaves `s'` and `b'`.
pub record Admitted (s : Scheduler) (b : Batch) (more : List ℕ) (b' : Batch) (s' : Scheduler)
    : Type 0 where
  pub queue : s.waiting_queue ≡ more ++ s'.waiting_queue
  pub started : s'.running ≡ s.running ++ more
  pub states : (r : ℕ) → state_of s' r ≡ (if occ r more == 0 then state_of s r else prefilling)
  pub same_ended : s'.finished_list ≡ s.finished_list
  pub same_pool : s'.pool ≡ s.pool
  pub same_config : s'.config ≡ s.config
  pub prefills : b'.prefill ≡ b.prefill ++ more
  pub decodes : b'.decode ≡ b.decode
  pub fit : AllFit s more
  pub stopped : Stopped s' b'
  pub orderly : IsOrderly s'

Admitted-none :
    (s s' : Scheduler) (b : Batch) (t : SchedulerStats)
    → IsOrderly s
    → s' ≡ record s { stats = t }
    → Stopped s b
    → Admitted s b [] b s'
Admitted-none s s' b t o e stop = rw e (record {
  queue = refl;
  started = sym (append-nil s.running);
  states = λ r. ground (arith, occ-nil r);
  same_ended = refl;
  same_pool = refl;
  same_config = refl;
  prefills = sym (append-nil b.prefill);
  decodes = refl;
  fit = tt;
  stopped = stop;
  orderly = IsOrderly-pool s s.pool t o;
})

required-admit :
    (r : ℕ) (rest : List ℕ) (s : Scheduler) (c : ℕ) → required (admit r rest s) c ≡ required s c
unfolding admit
required-admit r rest s c = ground arith

AllFit-admit :
    (r : ℕ) (rest : List ℕ) (s : Scheduler) (more : List ℕ)
    → AllFit (admit r rest s) more
    → AllFit s more
AllFit-admit r rest s [] h = tt
AllFit-admit r rest s (c ∷ more) h =
    (unfold admit in omega (arith, h.0, required-admit r rest s c), AllFit-admit r rest s more h.1)

module _ (r : ℕ) (rest : List ℕ) (s : Scheduler) (b : Batch) (head : s.waiting_queue ≡ r ∷ rest)
    (fits : required s r ≤ available_blocks s) where
  Admitted-cons :
      (more : List ℕ) (b' : Batch) (s' : Scheduler)
      → Admitted (admit r rest s) (record b { prefill = b.prefill ++ r ∷ [] }) more b' s'
      → Admitted s b (r ∷ more) b' s'
  unfolding admit
  Admitted-cons more b' s' a = record {
    queue = head ∙ ap (◌∷◌ r) a.queue;
    started = a.started ∙ append_assoc s.running (r ∷ []) more;
    states = λ c. ground (arith, a.states c, occ-cons c r more);
    same_ended = a.same_ended;
    same_pool = a.same_pool;
    same_config = a.same_config;
    prefills = a.prefills ∙ append_assoc b.prefill (r ∷ []) more;
    decodes = a.decodes;
    fit = (fits, AllFit-admit r rest s more a.fit);
    stopped = a.stopped;
    orderly = a.orderly;
  }

pub admit_all-Admitted :
    (ws : List ℕ) (b : Batch) (s : Scheduler)
    → IsOrderly s
    → s.waiting_queue ≡ ws
    → (more : List ℕ) × (b' : Batch) × (s' : Scheduler) × (admit_all ws b s ≡ (ok b', s'))
      × Admitted s b more b' s'
unfolding admit_all Allocator.blocks_needed
admit_all-Admitted [] b s o e = ([], b, s, refl, Admitted-none s s b s.stats o refl (inl e))
admit_all-Admitted (r ∷ rest) b s o e = elim (Bool-cases (has_room s b)) [
  | inl room ↦ elim (Bool-cases (ltb (available_blocks s) (required s r))) [
    | inl tight ↦ (
      [],
      b,
      blocked s,
      ground arith,
      Admitted-none s (blocked s) b (blocked s).stats o refl
          (inr (inr (inr (r, rest, e, ltb→lt (available_blocks s) (required s r) tight)))),
    )
    | inr loose ↦
        let b₁ = record b { prefill = b.prefill ++ r ∷ [] } in
        let (more, b', s', run, a) =
          admit_all-Admitted rest b₁ (admit r rest s) (admit-IsOrderly r rest s o e (ground arith))
            (unfold admit in refl) in
        (
          r ∷ more,
          b',
          s',
          ground (arith, run),
          Admitted-cons r rest s b e (ground arith) more b' s' a,
        )
  ]
  | inr none_left ↦
      ([], b, s, ground arith, Admitted-none s s b s.stats o refl (room_gone s b none_left))
]
  where
    room_gone : (s : Scheduler) (b : Batch) → has_room s b ≡ false → Stopped s b
    room_gone s b h = inr (elim (Bool-cases (ltb (length s.running) s.config.max_batch_size)) [
      | inl some_left ↦ inr (inl (ground arith))
      | inr full ↦ inl (ground arith)
    ])

-- The batch that the running requests fill.
abbrev pub first_batch : Scheduler → Batch
first_batch s = place_all s s.running (record { step = s.step_index; prefill = []; decode = [] })

-- `schedule` of a scheduler whose queues are in order always returns normally. Its batch decodes
-- exactly the running requests that are decoding, in their order, and prefills the first of those
-- that are prefilling, as many as the configuration allows, and the newly admitted ones. Those are
-- taken from the front of the waiting queue and appended to the running requests; each fits into the
-- blocks that are free behind the copy-on-write reserve; the loop stopped because nobody waits, or
-- a limit on the batch is met, or the next request does not fit. The queues are in order again, and
-- the pool, the configuration and the finished requests are as before.
pub schedule_lem :
    (s : Scheduler)
    → IsOrderly s
    → (more : List ℕ) × (b : Batch) × (s' : Scheduler) × (schedule s ≡ (ok b, s'))
      × (b.decode ≡ with_state is_decoding s s.running)
      × (b.prefill
          ≡ take s.config.max_prefills_per_step (with_state is_prefilling s s.running) ++ more)
      × Admitted s (first_batch s) more b s'
unfolding schedule
schedule_lem s o =
    let (more, b, s', e, a) = admit_all-Admitted s.waiting_queue (first_batch s) s o refl in
    let whole : s.config.max_prefills_per_step - 0 ≡ s.config.max_prefills_per_step = omega arith in
    let start : Batch = record { step = s.step_index; prefill = []; decode = [] } in
    (
      more,
      b,
      s',
      e,
      a.decodes ∙ place_all-decode s s.running start,
      a.prefills
          ∙ ap (λ xs. xs ++ more) (place_all-prefill s s.running start)
          ∙ ap (λ k. take k (with_state is_prefilling s s.running) ++ more) whole,
      a,
    )
