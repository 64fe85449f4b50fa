-- ===== src/Sched/Scheduler/Requeue.antt =====
-- `_preempt_one` of edgerag/sched/scheduler.py: a running request gives its blocks back and waits.
use edgerag.Prelude.{ℕ, ◌<◌, ◌≡◌, none, arith, ◌+◌, if◌then◌else◌, ◌≢◌, ok, ◌==◌, ap, ◌≤◌, length}
use edgerag.Cache.Allocator.{num_free}
use edgerag.Sched.Request.{waiting}
use edgerag.Sched.Scheduler.State.{Scheduler, remove}
use edgerag.Sched.Scheduler.Pressure.{preempt_one, requeue}
use edgerag.Sched.Scheduler.Queues.{IsOrderly, occ-remove, state_of, length-remove-le}
use edgerag.Sched.Scheduler.Backing.{
  IsBacked, Dropped, drop_cache-Dropped, cache_refs-remove, cache_refs-congr, cache_refs,
}
use edgerag.Prelude.Counting.{occ, eq_mark, occ-nil}
use edgerag.Sched.Request

-- What the preemption of a running request leaves. The request stands in no queue yet.
pub record Requeued (outside : ℕ → ℕ) (r : ℕ) (s s' : Scheduler) : Type 0 where
  pub orderly : IsOrderly s'
  pub backed : IsBacked outside s'
  pub reset :
      (state_of s' r ≡ waiting)
      × ((s'.requests r).cache ≡ none)
      × ((s'.requests r).prefill_offset ≡ 0)
      × ((s'.requests r).generated_token_ids ≡ (s.requests r).generated_token_ids)
  pub left : (c : ℕ) → occ c s'.running + eq_mark r c ≡ occ c s.running
  pub same_waiting : s'.waiting_queue ≡ s.waiting_queue
  pub same_finished : s'.finished_list ≡ s.finished_list
  pub others_same : (c : ℕ) → c ≢ r → s'.requests c ≡ s.requests c
  pub more_free : num_free s.pool ≤ num_free s'.pool

module _ (outside : ℕ → ℕ) (r : ℕ) (s : Scheduler) (o : IsOrderly s) (k : IsBacked outside s)
    (running : 0 < occ r s.running) (s' : Scheduler) (d : Dropped r s s') where
  running_once : occ r s.running ≡ 1
  running_once = ground (arith, o.runs r)

  requeue-left : (c : ℕ) → occ c (requeue r s').running + eq_mark r c ≡ occ c s.running
  requeue-left c = ground (
    arith,
    occ-remove r c s'.running,
    ap (occ c) d.same_running,
    ap (occ r) d.same_running,
    running_once,
  )

  requeue-states : (c : ℕ) → state_of (requeue r s') c ≡ (if r == c then waiting else state_of s c)
  unfolding Request.mark_preempted
  requeue-states c = ground (arith, d.objects c)

  requeue-caches :
      (c : ℕ) → ((requeue r s').requests c).cache ≡ (if r == c then none else (s.requests c).cache)
  unfolding Request.mark_preempted
  requeue-caches c = ground (arith, d.objects c)

  requeue-others : (c : ℕ) → c ≢ r → (requeue r s').requests c ≡ s.requests c
  unfolding Request.mark_preempted
  requeue-others c h = ground (arith, d.objects c)

  requeue-reset :
      (((requeue r s').requests r).prefill_offset ≡ 0)
      × (((requeue r s').requests r).generated_token_ids ≡ (s.requests r).generated_token_ids)
  unfolding Request.mark_preempted
  requeue-reset = ground (arith, d.objects r)

  requeue-IsOrderly : IsOrderly (requeue r s')
  requeue-IsOrderly = record {
    waits = λ c.
        ground (arith, requeue-states c, ap (occ c) d.same_waiting, o.waits c, o.waits r, o.runs r);
    runs = λ c. ground (arith, requeue-states c, requeue-left c, o.runs c, running_once);
    ends = λ c.
        ground (arith, requeue-states c, ap (occ c) d.same_finished, o.ends c, o.ends r, o.runs r);
    fits = omega (
      arith,
      length-remove-le r s'.running,
      ap length d.same_running,
      o.fits,
      ap (λ x. x.max_batch_size) d.same_config,
    );
  }

  requeue-IsBacked : IsBacked outside (requeue r s')
  requeue-IsBacked = record {
    well_formed = d.well_formed;
    counts = λ b. omega (
      arith,
      d.counts b,
      k.counts b,
      cache_refs-remove s.requests s.running r b running,
      cache_refs-congr (requeue r s').requests s.requests (remove r s'.running) b left_alone,
      ap (λ xs. cache_refs s.requests (remove r xs) b) d.same_running,
    );
    once = λ c b. ground (arith, requeue-caches c, k.once c b, occ-nil b);
  }
    where
      left_alone :
          (c : ℕ)
          → 0 < occ c (remove r s'.running)
          → ((requeue r s').requests c).cache ≡ (s.requests c).cache
      left_alone c h = ground (arith, requeue-caches c, requeue-left c, running_once)

-- `_preempt_one` of a running request always returns normally.
pub preempt_one-Requeued :
    (outside : ℕ → ℕ) (r : ℕ) (s : Scheduler)
    → IsOrderly s
    → IsBacked outside s
    → 0 < occ r s.running
    → (s' : Scheduler) × (preempt_one r s ≡ (ok tt, s')) × Requeued outside r s s'
unfolding preempt_one
preempt_one-Requeued outside r s o k running =
    let (t, e, d) = drop_cache-Dropped outside r s k running in
    (
      requeue r t,
      rw e,
      record {
        orderly = requeue-IsOrderly outside r s o k running t d;
        backed = requeue-IsBacked outside r s o k running t d;
        reset = (
          ground (arith, requeue-states outside r s o k running t d r),
          ground (arith, requeue-caches outside r s o k running t d r),
          (requeue-reset outside r s o k running t d).0,
          (requeue-reset outside r s o k running t d).1,
        );
        left = requeue-left outside r s o k running t d;
        same_waiting = d.same_waiting;
        same_finished = d.same_finished;
        others_same = requeue-others outside r s o k running t d;
        more_free = d.more_free;
      },
    )
