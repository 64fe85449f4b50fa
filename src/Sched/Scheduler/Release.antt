-- ===== src/Sched/Scheduler/Release.antt =====
-- `finish` of edgerag/sched/scheduler.py: a request leaves the running set and gives its blocks back.
use edgerag.Prelude.{
  ℕ, some, arith, ◌<◌, ◌≡◌, none, ◌+◌, if◌then◌else◌, ap, ok, ◌++◌, ◌==◌, ◌∷◌, [], length, ◌≢◌, ◌≤◌,
}
use edgerag.Cache.Allocator.{num_free}
use edgerag.Sched.Request.{finished}
use edgerag.Sched.Scheduler.State.{Scheduler, remove, set_request}
use edgerag.Sched.Scheduler.Progress.{finish, retire}
use edgerag.Sched.Scheduler.Queues.{
  IsOrderly, occ-remove, state_of, places, occ_snoc, length-remove-le,
}
use edgerag.Sched.Scheduler.Backing.{
  IsBacked, Dropped, drop_cache-Dropped, cache_refs-congr, cache_blocks, cache_refs-remove,
  cache_refs,
}
use edgerag.Prelude.Counting.{occ, eq_mark, eq_mark_self, occ-nil}

-- What the end of a running request leaves.
pub record Finished (outside : ℕ → ℕ) (r : ℕ) (s s' : Scheduler) : Type 0 where
  pub orderly : IsOrderly s'
  pub backed : IsBacked outside s'
  pub state : state_of s' r ≡ finished
  pub no_cache : (s'.requests r).cache ≡ none
  pub same_tokens : (s'.requests r).generated_token_ids ≡ (s.requests r).generated_token_ids
  pub gone : occ r s'.running ≡ 0
  pub listed : s'.finished_list ≡ s.finished_list ++ r ∷ []
  pub same_places : (c : ℕ) → places s' c ≡ places s c
  pub others_same : (c : ℕ) → c ≢ r → s'.requests c ≡ s.requests c
  pub more_free : num_free s.pool ≤ num_free s'.pool

module _ (outside : ℕ → ℕ) (r : ℕ) (s : Scheduler) where
  abbrev marked : Scheduler
  marked =
      set_request r (record (s.requests r) { state = finished; finished_step = some s.step_index })
        s

  marked-IsBacked : IsBacked outside s → IsBacked outside marked
  marked-IsBacked k = record {
    well_formed = k.well_formed;
    counts = λ b. omega (
      arith,
      k.counts b,
      cache_refs-congr marked.requests s.requests s.running b (λ c _. ground arith),
    );
    once = λ c b. ground (arith, k.once c b);
  }

  module _ (o : IsOrderly s) (k : IsBacked outside s) (running : 0 < occ r s.running)
      (s' : Scheduler) (d : Dropped r marked s') where
    running_once : occ r s.running ≡ 1
    running_once = ground (arith, o.runs r)

    only_running : (occ r s.waiting_queue ≡ 0) × (occ r s.finished_list ≡ 0)
    only_running = ground (arith, o.waits r, o.runs r, o.ends r)

    occ-running_left : (c : ℕ) → occ c (retire r s').running + eq_mark r c ≡ occ c s.running
    occ-running_left c = ground (
      arith,
      occ-remove r c s'.running,
      ap (occ c) d.same_running,
      ap (occ r) d.same_running,
      running_once,
    )

    retire-states : (c : ℕ) → state_of (retire r s') c ≡ (if r == c then finished else state_of s c)
    retire-states c = ground (arith, d.objects c)

    retire-IsOrderly : IsOrderly (retire r s')
    retire-IsOrderly = record {
      waits =
          λ c. ground (arith, retire-states c, ap (occ c) d.same_waiting, o.waits c, only_running);
      runs = λ c. ground (arith, retire-states c, occ-running_left c, o.runs c, running_once);
      ends = λ c. ground (
        arith,
        retire-states c,
        occ_snoc c s'.finished_list r,
        ap (occ c) d.same_finished,
        o.ends c,
        only_running,
      );
      fits = omega (
        arith,
        length-remove-le r s'.running,
        ap length d.same_running,
        o.fits,
        ap (λ x. x.max_batch_size) d.same_config,
      );
    }

    retire-places : (c : ℕ) → places (retire r s') c ≡ places s c
    retire-places c = omega (
      arith,
      occ-running_left c,
      occ_snoc c s'.finished_list r,
      ap (occ c) d.same_finished,
      ap (occ c) d.same_waiting,
    )

    retire-IsBacked : IsBacked outside (retire r s')
    retire-IsBacked = record {
      well_formed = d.well_formed;
      counts = λ b. omega (
        arith,
        d.counts b,
        k.counts b,
        cache_refs-remove s.requests s.running r b running,
        same_cache b,
        cache_refs-congr s'.requests s.requests (remove r s'.running) b left_alone,
        ap (λ xs. cache_refs s.requests (remove r xs) b) d.same_running,
      );
      once = λ c b. ground (arith, d.objects c, k.once c b, occ-nil b);
    }
      where
        same_cache :
            (b : ℕ)
            → occ b (cache_blocks (marked.requests r).cache)
              ≡ occ b (cache_blocks (s.requests r).cache)
        same_cache b = ground arith

        left_alone :
            (c : ℕ) → 0 < occ c (remove r s'.running) → (s'.requests c).cache ≡ (s.requests c).cache
        left_alone c h = ground (arith, d.objects c, occ-running_left c, running_once)

-- `finish` of a running request, in a scheduler whose queues are in order and whose pool is backed by
-- its holders, always returns normally: the request is finished, keeps its generated tokens, has no
-- cache, has left the running set and stands at the end of the finished list; the queues are in order, every request keeps its
-- one place, no other request changes, the blocks of its cache are given back so that the pool's
-- counts again are the references of the remaining holders, and no free block is lost.
pub finish_lem :
    (outside : ℕ → ℕ) (r : ℕ) (s : Scheduler)
    → IsOrderly s
    → IsBacked outside s
    → 0 < occ r s.running
    → (s' : Scheduler) × (finish r s ≡ (ok tt, s')) × Finished outside r s s'
unfolding finish
finish_lem outside r s o k running =
    let (t, e, d) =
      drop_cache-Dropped outside r (marked outside r s) (marked-IsBacked outside r s k) running in
    (
      retire r t,
      rw e,
      record {
        orderly = retire-IsOrderly outside r s o k running t d;
        backed = retire-IsBacked outside r s o k running t d;
        state = ground (arith, retire-states outside r s o k running t d r);
        no_cache = ground (arith, d.objects r);
        same_tokens = ground (arith, d.objects r);
        gone = omega (
          arith,
          occ-running_left outside r s o k running t d r,
          running_once outside r s o k running t d,
          eq_mark_self r,
        );
        listed = ap (λ xs. xs ++ r ∷ []) d.same_finished;
        same_places = retire-places outside r s o k running t d;
        others_same = λ c h. ground (arith, d.objects c);
        more_free = d.more_free;
      },
    )
