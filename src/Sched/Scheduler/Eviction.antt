-- ===== src/Sched/Scheduler/Eviction.antt =====
-- `preempt_to_free` of edgerag/sched/scheduler.py: the newest running requests make room.
use edgerag.Prelude.{
  ℕ, List, [], arith, ◌≡◌, ◌∷◌, ◌++◌, ◌+◌, if◌then◌else◌, ◌≤◌, ◌∙◌, ok, ◌==◌, ◌⊎◌, sym, ap, none,
  Bool-cases, inl, inr, leb, refl, leb→le, ◌<◌, length, suc, take, zero,
}
use mathlib.Core.List.{reverse, reverse-cons, reverse-reverse, append_assoc}
use edgerag.Cache.Allocator.{num_free}
use edgerag.Sched.Request.{waiting}
use edgerag.Sched.Scheduler.State.{Scheduler}
use edgerag.Sched.Scheduler.Pressure.{candidates, preempt_all, append_left, preempt_to_free}
use edgerag.Sched.Scheduler.Queues.{IsOrderly, places, state_of, running_mark}
use edgerag.Sched.Scheduler.Backing.{IsBacked}
use edgerag.Sched.Scheduler.Requeue.{Requeued, preempt_one-Requeued}
use edgerag.Prelude.Counting.{occ, occ-nil, occ-cons, occ-append, eq_mark_self, occ-reverse}

-- The eviction of `victims` one after the other.
pub record Evicted (outside : ℕ → ℕ) (victims : List ℕ) (s s' : Scheduler) : Type 0 where
  pub orderly : IsOrderly s'
  pub backed : IsBacked outside s'
  pub left : (c : ℕ) → occ c s'.running + occ c victims ≡ occ c s.running
  pub same_waiting : s'.waiting_queue ≡ s.waiting_queue
  pub same_finished : s'.finished_list ≡ s.finished_list
  pub states : (c : ℕ) → state_of s' c ≡ (if occ c victims == 0 then state_of s c else waiting)
  pub caches :
      (c : ℕ) → (s'.requests c).cache ≡ (if occ c victims == 0 then (s.requests c).cache else none)
  pub more_free : num_free s.pool ≤ num_free s'.pool

Evicted-nil :
    (outside : ℕ → ℕ) (s : Scheduler) → IsOrderly s → IsBacked outside s → Evicted outside [] s s
Evicted-nil outside s o k = record {
  orderly = o;
  backed = k;
  left = λ c. omega (arith, occ-nil c);
  same_waiting = refl;
  same_finished = refl;
  states = λ c. ground (arith, occ-nil c);
  caches = λ c. ground (arith, occ-nil c);
  more_free = omega arith;
}

module _ (outside : ℕ → ℕ) (r : ℕ) (victims : List ℕ) (s t s' : Scheduler)
    (q : Requeued outside r s t) (e : Evicted outside victims t s') where
  first_state : (c : ℕ) → state_of t c ≡ (if r == c then waiting else state_of s c)
  first_state c = elim (Bool-cases (r == c)) [
    | inl same ↦ let e : r ≡ c = ground arith in rw same (rw e at (q.reset.0))
    | inr other ↦ rw other (ap (λ x. x.state) (q.others_same c (λ e. ground arith)))
  ]

  first_cache : (c : ℕ) → (t.requests c).cache ≡ (if r == c then none else (s.requests c).cache)
  first_cache c = elim (Bool-cases (r == c)) [
    | inl same ↦ let e : r ≡ c = ground arith in rw same (rw e at (q.reset.1))
    | inr other ↦ rw other (ap (λ x. x.cache) (q.others_same c (λ e. ground arith)))
  ]

  pub Evicted-cons : Evicted outside (r ∷ victims) s s'
  Evicted-cons = record {
    orderly = e.orderly;
    backed = e.backed;
    left = λ c. omega (arith, e.left c, q.left c, occ-cons c r victims);
    same_waiting = e.same_waiting ∙ q.same_waiting;
    same_finished = e.same_finished ∙ q.same_finished;
    states = λ c. ground (arith, e.states c, first_state c, occ-cons c r victims);
    caches = λ c. ground (arith, e.caches c, first_cache c, occ-cons c r victims);
    more_free = omega (arith, q.more_free, e.more_free);
  }

-- The eviction of fewer of `victims`, from the first on, has not been enough.
abbrev pub AllNeeded : (outside : ℕ → ℕ) (needed : ℕ) (victims : List ℕ) (s : Scheduler) → Type 0
AllNeeded outside needed victims s =
    (k : ℕ)
    → k < length victims
    → (t : Scheduler) × Evicted outside (take k victims) s t × (num_free t.pool < needed)

AllNeeded-nil : (outside : ℕ → ℕ) (needed : ℕ) (s : Scheduler) → AllNeeded outside needed [] s
AllNeeded-nil outside needed s k h = absurd (omega arith)

AllNeeded-cons :
    (outside : ℕ → ℕ) (needed r : ℕ) (victims : List ℕ) (s t : Scheduler)
    → IsOrderly s
    → IsBacked outside s
    → num_free s.pool < needed
    → Requeued outside r s t
    → AllNeeded outside needed victims t
    → AllNeeded outside needed (r ∷ victims) s
AllNeeded-cons outside needed r victims s t o k short q all zero h =
    (s, Evicted-nil outside s o k, short)
AllNeeded-cons outside needed r victims s t o k short q all (suc n) h =
    let (u, e, less) = all n (omega arith) in
    (u, Evicted-cons outside r (take n victims) s t u q e, less)

pub preempt_all-Evicted :
    (outside : ℕ → ℕ) (needed : ℕ) (rs : List ℕ) (s : Scheduler)
    → IsOrderly s
    → IsBacked outside s
    → ((c : ℕ) → occ c rs ≤ occ c s.running)
    → (victims : List ℕ) × (kept : List ℕ) × (s' : Scheduler) × (preempt_all needed rs s
        ≡ (ok victims, s'))
      × (rs ≡ victims ++ kept)
      × ((kept ≡ []) ⊎ (needed ≤ num_free s'.pool))
      × AllNeeded outside needed victims s
      × Evicted outside victims s s'
unfolding preempt_all
preempt_all-Evicted outside needed [] s o k within =
    ([], [], s, refl, refl, inl refl, AllNeeded-nil outside needed s, Evicted-nil outside s o k)
preempt_all-Evicted outside needed (r ∷ rs) s o k within =
    elim (Bool-cases (leb needed (num_free s.pool))) [
      | inl enough ↦ (
        [],
        r ∷ rs,
        s,
        rw (enough, preempt_all),
        refl,
        inr (leb→le needed (num_free s.pool) enough),
        AllNeeded-nil outside needed s,
        Evicted-nil outside s o k,
      )
      | inr short ↦
          let runs : 0 < occ r s.running =
            omega (arith, within r, occ-cons r r rs, eq_mark_self r) in
          let (t, first, q) = preempt_one-Requeued outside r s o k runs in
          let (victims, kept, s', more, split, stop, all, e) =
            preempt_all-Evicted outside needed rs t q.orderly q.backed
              (λ c. omega (arith, within c, q.left c, occ-cons c r rs)) in
          (
            r ∷ victims,
            kept,
            s',
            rw (short, preempt_all) (rw first (rw more)),
            ap (◌∷◌ r) split,
            stop,
            AllNeeded-cons outside needed r victims s t o k (ground arith) q all,
            Evicted-cons outside r victims s t s' q e,
          )
    ]

-- In a scheduler whose queues are in order every running request can be preempted.
pub candidates-running :
    (s : Scheduler) (rs : List ℕ)
    → ((c : ℕ) → occ c rs ≤ running_mark (state_of s c))
    → candidates s.requests rs ≡ rs
unfolding candidates
candidates-running s [] h = refl
candidates-running s (r ∷ rs) h =
    let rest = candidates-running s rs (λ c. omega (arith, h c, occ-cons c r rs)) in
    ground (arith, rest, h r, occ-cons r r rs, eq_mark_self r)

append_left-eq : (rs queue : List ℕ) → append_left rs queue ≡ reverse rs ++ queue
unfolding append_left
append_left-eq [] queue = refl
append_left-eq (r ∷ rs) queue =
    append_left-eq rs (r ∷ queue)
    ∙ sym (append_assoc (reverse rs) (r ∷ []) queue)
    ∙ ap (λ xs. xs ++ queue) (sym (reverse-cons r rs))

front-IsOrderly :
    (outside : ℕ → ℕ) (victims : List ℕ) (s s' : Scheduler)
    → IsOrderly s
    → Evicted outside victims s s'
    → IsOrderly (record s' { waiting_queue = victims ++ s'.waiting_queue })
front-IsOrderly outside victims s s' o e = record {
  waits = λ c. ground (
    arith,
    e.states c,
    e.left c,
    o.runs c,
    o.waits c,
    occ-append c victims s'.waiting_queue,
    ap (occ c) e.same_waiting,
  );
  runs = e.orderly.runs;
  ends = e.orderly.ends;
  fits = e.orderly.fits;
}

-- `preempt_to_free(needed)`, in a scheduler whose queues are in order and whose pool is backed by its
-- holders, always returns normally. The victims are the most recently admitted of the running
-- requests, newest first, and it ends when `needed` blocks are free or nobody runs any more; it does
-- not end later: after the eviction of fewer of the victims, in that order, less than `needed` blocks
-- are free. The victims stand in front of the waiting queue, in the order of the result, they are waiting and have
-- no cache; the queues are in order, every request keeps its one place, no free block is lost, and
-- the counts of the pool again are the references of the remaining holders.
pub preempt_to_free_lem :
    (outside : ℕ → ℕ) (needed : ℕ) (s : Scheduler)
    → IsOrderly s
    → IsBacked outside s
    → (victims : List ℕ) × (kept : List ℕ) × (s' : Scheduler) × (preempt_to_free needed s
        ≡ (ok victims, s'))
      × (reverse s.running ≡ victims ++ kept)
      × ((kept ≡ []) ⊎ (needed ≤ num_free s'.pool))
      × AllNeeded outside needed victims s
      × (s'.waiting_queue ≡ victims ++ s.waiting_queue)
      × ((c : ℕ) → state_of s' c ≡ (if occ c victims == 0 then state_of s c else waiting))
      × ((c : ℕ)
          → (s'.requests c).cache ≡ (if occ c victims == 0 then (s.requests c).cache else none))
      × ((c : ℕ) → places s' c ≡ places s c)
      × (num_free s.pool ≤ num_free s'.pool)
      × IsOrderly s'
      × IsBacked outside s'
unfolding preempt_to_free
preempt_to_free_lem outside needed s o k =
    let all = candidates-running s s.running o.runs in
    let (victims, kept, t, run, split, stop, short, e) =
      preempt_all-Evicted outside needed (reverse s.running) s o k
        (λ c. omega (arith, occ-reverse c s.running)) in
    let front : append_left (reverse victims) t.waiting_queue ≡ victims ++ t.waiting_queue =
      append_left-eq (reverse victims) t.waiting_queue
      ∙ ap (λ xs. xs ++ t.waiting_queue) (reverse-reverse victims) in
    (
      victims,
      kept,
      record t { waiting_queue = victims ++ t.waiting_queue },
      rw all (rw run (rw front)),
      split,
      stop,
      short,
      ap (λ xs. victims ++ xs) e.same_waiting,
      e.states,
      e.caches,
      (λ c. omega (
        arith,
        occ-append c victims t.waiting_queue,
        ap (occ c) e.same_waiting,
        ap (occ c) e.same_finished,
        e.left c,
      )),
      e.more_free,
      front-IsOrderly outside victims s t o e,
      record { well_formed = e.backed.well_formed; counts = e.backed.counts; once = e.backed.once },
    )
