-- ===== src/Sched/Scheduler/Queues.antt =====
-- The queues of edgerag/sched/scheduler.py against the states of the requests in them.
use edgerag.Prelude.{
  ℕ, List, ◌≤◌, ◌+◌, length, ◌++◌, ◌≡◌, ◌-◌, arith, ◌∷◌, if◌then◌else◌, [], ◌<◌, ap, ◌==◌, ◌∙◌,
  length-append,
}
use edgerag.Sched.Request.{RequestState, waiting, prefilling, decoding, finished, rejected}
use edgerag.Sched.Scheduler.State.{Scheduler, SchedulerStats, remove}
use edgerag.Prelude.Counting.{occ, eq_mark, occ-cons, occ-nil, occ-append, eq_mark_self}
use edgerag.Cache.Allocator.{Allocator}
use edgerag.Sched.Scheduler.Admission.{admit}

-- 1 for a state in which a request may stand in the queue of that name, and 0 for every other.
abbrev pub waiting_mark : RequestState → ℕ
waiting_mark waiting = 1
waiting_mark _ = 0

abbrev pub running_mark : RequestState → ℕ
running_mark prefilling = 1
running_mark decoding = 1
running_mark _ = 0

abbrev pub ended_mark : RequestState → ℕ
ended_mark finished = 1
ended_mark rejected = 1
ended_mark _ = 0

abbrev pub state_of : Scheduler → ℕ → RequestState
state_of s r = (s.requests r).state

-- Every queue holds only requests in a state of that queue, each at most once, so no request stands
-- in two queues; and no more requests run than the configuration allows.
pub record IsOrderly (s : Scheduler) : Type 0 where
  pub waits : (r : ℕ) → occ r s.waiting_queue ≤ waiting_mark (state_of s r)
  pub runs : (r : ℕ) → occ r s.running ≤ running_mark (state_of s r)
  pub ends : (r : ℕ) → occ r s.finished_list ≤ ended_mark (state_of s r)
  pub fits : length s.running ≤ s.config.max_batch_size

-- How many places a request has in the three queues together.
abbrev pub places : Scheduler → ℕ → ℕ
places s r = occ r s.waiting_queue + occ r s.running + occ r s.finished_list

-- The statistics and the pool have no part in it.
pub IsOrderly-pool :
    (s : Scheduler) (p : Allocator) (t : SchedulerStats)
    → IsOrderly s
    → IsOrderly (record s { pool = p; stats = t })
IsOrderly-pool s p t o = record { waits = o.waits; runs = o.runs; ends = o.ends; fits = o.fits }

pub occ-remove :
    (r c : ℕ) (xs : List ℕ)
    → occ c (remove r xs) ≡ occ c xs - (if occ r xs == 0 then 0 else eq_mark r c)
occ-remove r c [] = ground (arith, occ-nil c, occ-nil r)
occ-remove r c (x ∷ xs) = ground (
  arith,
  occ-remove r c xs,
  occ-cons c x xs,
  occ-cons r x xs,
  occ-cons c x (remove r xs),
  eq_mark_self r,
)

pub length-remove-le : (r : ℕ) (xs : List ℕ) → length (remove r xs) ≤ length xs
length-remove-le r [] = omega arith
length-remove-le r (x ∷ xs) = ground (arith, length-remove-le r xs)

pub occ_snoc : (c : ℕ) (xs : List ℕ) (x : ℕ) → occ c (xs ++ x ∷ []) ≡ occ c xs + eq_mark x c
occ_snoc c xs x = omega (arith, occ-append c xs (x ∷ []), occ-cons c x [], occ-nil c)

-- A request that waits is admitted while there is room for it.
pub admit-IsOrderly :
    (r : ℕ) (rest : List ℕ) (s : Scheduler)
    → IsOrderly s
    → s.waiting_queue ≡ r ∷ rest
    → length s.running < s.config.max_batch_size
    → IsOrderly (admit r rest s)
unfolding admit
admit-IsOrderly r rest s o head room =
    let at_head = λ (c : ℕ). ap (occ c) head ∙ occ-cons c r rest in
    record {
      waits = λ c. ground (arith, o.waits c, o.waits r, at_head c, at_head r, eq_mark_self r);
      runs = λ c.
          ground (arith, o.runs c, o.waits r, at_head r, eq_mark_self r, occ_snoc c s.running r);
      ends = λ c. ground (arith, o.ends c, o.waits r, at_head r, eq_mark_self r);
      fits = omega (arith, length-append s.running (r ∷ []));
    }
