-- ===== src/Sched/Scheduler/Backing.antt =====
-- The blocks of the pool against the caches of the running requests.
use edgerag.Prelude.{
  ℕ, none, some, Option, List, ◌≡◌, ◌<◌, [], ◌∷◌, ◌+◌, if◌then◌else◌, arith, ◌≤◌, ap, ◌==◌, ok,
  Bool-cases, ◌-◌, refl, inl, inr,
}
use edgerag.Cache.Allocator.{refs, num_free}
use edgerag.Cache.Allocator.Invariant.{IsWellFormed}
use edgerag.Cache.BlockTable.{BlockTable}
use edgerag.Cache.BlockTable.Ownership.{IsOwned}
use edgerag.Cache.BlockTable.Sharing.{free_lem}
use edgerag.Sched.Request.{Request}
use edgerag.Sched.Scheduler.State.{Scheduler, update, remove}
use edgerag.Sched.Scheduler.Progress.{drop_cache}
use edgerag.Prelude.Counting.{occ, occ-nil, occ-cons, eq_mark_self}

abbrev pub cache_blocks : Option BlockTable → List ℕ
cache_blocks none = []
cache_blocks (some t) = t.blocks

-- How many references to a block the caches of the listed requests hold.
unfoldable pub cache_refs : (ℕ → Request) → List ℕ → ℕ → ℕ
cache_refs requests [] b = 0
cache_refs requests (r ∷ rs) b = occ b (cache_blocks (requests r).cache) + cache_refs requests rs b

-- The pool is well formed, every count is the number of references that the caches of the running
-- requests and the holders `outside` the scheduler have, and no cache lists a block twice.
pub record IsBacked (outside : ℕ → ℕ) (s : Scheduler) : Type 0 where
  pub well_formed : IsWellFormed s.pool
  pub counts : (b : ℕ) → refs s.pool b ≡ cache_refs s.requests s.running b + outside b
  pub once : (r b : ℕ) → occ b (cache_blocks (s.requests r).cache) ≤ 1

pub cache_refs-congr :
    (f g : ℕ → Request) (rs : List ℕ) (b : ℕ)
    → ((r : ℕ) → 0 < occ r rs → (f r).cache ≡ (g r).cache)
    → cache_refs f rs b ≡ cache_refs g rs b
unfolding cache_refs
cache_refs-congr f g [] b h = refl
cache_refs-congr f g (r ∷ rs) b h = omega (
  arith,
  ap (λ c. occ b (cache_blocks c)) (h r (omega (arith, occ-cons r r rs, eq_mark_self r))),
  cache_refs-congr f g rs b (λ c l. h c (omega (arith, occ-cons c r rs))),
)

pub cache_refs-remove :
    (f : ℕ → Request) (rs : List ℕ) (r b : ℕ)
    → 0 < occ r rs
    → cache_refs f rs b ≡ occ b (cache_blocks (f r).cache) + cache_refs f (remove r rs) b
unfolding cache_refs
cache_refs-remove f [] r b h = absurd (omega (arith, occ-nil r))
cache_refs-remove f (x ∷ rs) r b h = elim (Bool-cases (x == r)) [
  | inl same ↦
      let e : x ≡ r = ground arith in
      rw same (omega (arith, ap (λ k. occ b (cache_blocks (f k).cache)) e))
  | inr other ↦
      rw other (omega (arith, cache_refs-remove f rs r b (ground (arith, occ-cons r x rs))))
]

-- What the release of the cache of `r` leaves: `r` has no cache, no other field of any request has
-- changed, the queues stand as before, and the pool has at least as many free blocks.
pub record Dropped (r : ℕ) (s s' : Scheduler) : Type 0 where
  pub same_waiting : s'.waiting_queue ≡ s.waiting_queue
  pub same_running : s'.running ≡ s.running
  pub same_finished : s'.finished_list ≡ s.finished_list
  pub same_config : s'.config ≡ s.config
  pub same_step : s'.step_index ≡ s.step_index
  pub objects :
      (c : ℕ)
      → s'.requests c ≡ (if r == c then record (s.requests c) { cache = none } else s.requests c)
  pub well_formed : IsWellFormed s'.pool
  pub counts : (b : ℕ) → refs s'.pool b + occ b (cache_blocks (s.requests r).cache) ≡ refs s.pool b
  pub more_free : num_free s.pool ≤ num_free s'.pool

no_cache : (q : Request) → q.cache ≡ none → record q { cache = none } ≡ q
no_cache q e = ground arith

drop_cache_lem :
    (r : ℕ) (s : Scheduler) (cache : Option BlockTable)
    → (s.requests r).cache ≡ cache
    → IsWellFormed s.pool
    → ((b : ℕ) → occ b (cache_blocks cache) ≤ refs s.pool b)
    → ((b : ℕ) → occ b (cache_blocks cache) ≤ 1)
    → (s' : Scheduler) × (drop_cache r s ≡ (ok tt, s')) × Dropped r s s'
unfolding drop_cache
drop_cache_lem r s none e wf held once = (
  s,
  rw (e, drop_cache),
  record {
    same_waiting = refl;
    same_running = refl;
    same_finished = refl;
    same_config = refl;
    same_step = refl;
    objects = λ c. ground (arith, no_cache (s.requests r) e);
    well_formed = wf;
    counts = λ b. omega (arith, ap (λ k. occ b (cache_blocks k)) e, occ-nil b);
    more_free = omega arith;
  },
)
drop_cache_lem r s (some t) e wf held once =
    let others : ℕ → ℕ = λ b. refs s.pool b - occ b t.blocks in
    let o : IsOwned others (record { pool = s.pool; table = t }) = record {
      well_formed = wf;
      counts = λ b. omega (arith, held b);
      once = once;
    } in
    let (k, p, freed, count, _, after) = free_lem others (record { pool = s.pool; table = t }) o in
    (
      record s {
        pool = p;
        requests = update s.requests r (record (s.requests r) { cache = none });
      },
      rw (e, drop_cache) (rw freed),
      record {
        same_waiting = refl;
        same_running = refl;
        same_finished = refl;
        same_config = refl;
        same_step = refl;
        objects = λ c. ground arith;
        well_formed = after.well_formed;
        counts = λ b.
            omega (arith, after.counts b, occ-nil b, held b, ap (λ k. occ b (cache_blocks k)) e);
        more_free = omega arith;
      },
    )

-- A running request of a backed scheduler can always release its cache.
pub drop_cache-Dropped :
    (outside : ℕ → ℕ) (r : ℕ) (s : Scheduler)
    → IsBacked outside s
    → 0 < occ r s.running
    → (s' : Scheduler) × (drop_cache r s ≡ (ok tt, s')) × Dropped r s s'
drop_cache-Dropped outside r s k running =
    drop_cache_lem r s (s.requests r).cache refl k.well_formed
      (λ b. omega (arith, k.counts b, cache_refs-remove s.requests s.running r b running))
      (k.once r)
