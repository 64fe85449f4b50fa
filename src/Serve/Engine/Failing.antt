-- ===== src/Serve/Engine/Failing.antt =====
-- `_fail` of edgerag/serve/engine.py, for all requests of a batch whose execution raised.
use edgerag.Sched.Scheduler.Queues.{occ-remove, IsOrderly, state_of}
use edgerag.Prelude.{
  ℕ, List, ◌≡◌, ◌<◌, false, if◌then◌else◌, ◌+◌, Bool-cases, ok, ◌==◌, length, inl, inr, arith, refl,
  ◌≤◌, ◌∷◌, subst, ap, [], ◌∙◌,
}
use edgerag.Serve.Engine.{
  emit, fail, Failure, Engine, report_failure, Scheduler, is_terminal, is_open, fail_all,
}
use edgerag.Serve.Engine.Balance.{done_count, StreamsHold, is_open-occ}
use edgerag.Sched.Scheduler.Backing.{IsBacked}
use edgerag.Prelude.Counting.{occ, occ-nil, occ-cons, eq_mark_self}
use edgerag.Sched.Request.{finished, Request}
use edgerag.Sched.Scheduler.Release.{Finished, finish_lem}
use edgerag.Serve.Engine.Streams.{report_failure-StreamsHold}
use edgerag.Sched.Scheduler.Progress

-- What the failure of the requests `rs` leaves. Every one of them is finished; the streams of those
-- that have one are told so, once, and are closed; the scheduler's invariants hold, and no other
-- request and no other stream is touched.
pub record Failed (outside : ℕ → ℕ) (rs : List ℕ) (s s' : Engine) : Type 0 where
  pub orderly : IsOrderly s'.scheduler
  pub backed : IsBacked outside s'.scheduler
  pub ended : (r : ℕ) → 0 < occ r rs → state_of s'.scheduler r ≡ finished
  pub others_same : (r : ℕ) → occ r rs ≡ 0 → s'.scheduler.requests r ≡ s.scheduler.requests r
  pub told :
      (r : ℕ)
      → done_count r s'.events
        ≡ done_count r s.events + (if occ r rs == 0 then 0 else occ r s.emitters)
  pub streams : (r : ℕ) → occ r s'.emitters ≡ (if occ r rs == 0 then occ r s.emitters else 0)
  pub counted : s'.engine_stats.failed ≡ s.engine_stats.failed + length rs
  pub held : StreamsHold s'

-- The state before and behind one request's failure, but for the scheduler.
report_failure-emitters :
    (r c : ℕ) (failure : Failure) (s : Engine)
    → StreamsHold s
    → occ c (report_failure r failure s).emitters ≡ (if r == c then 0 else occ c s.emitters)
unfolding emit
report_failure-emitters r c failure s h = elim (Bool-cases (is_open r s.emitters)) [
  | inl o ↦
      ground (arith, h.once c, h.once r, is_open-occ r s.emitters, o, occ-remove r c s.emitters)
  | inr o ↦
      ground (arith, h.once c, h.once r, is_open-occ r s.emitters, o, occ-remove r c s.emitters)
]

report_failure-told :
    (r c : ℕ) (failure : Failure) (s : Engine)
    → StreamsHold s
    → done_count c (report_failure r failure s).events
      ≡ done_count c s.events + (if r == c then occ c s.emitters else 0)
unfolding emit done_count
report_failure-told r c failure s h = elim (Bool-cases (is_open r s.emitters)) [
  | inl o ↦ rw o (ground (arith, h.once c, h.once r, is_open-occ r s.emitters, o))
  | inr o ↦ rw o (ground (arith, h.once c, h.once r, is_open-occ r s.emitters, o))
]

fail_run :
    (r : ℕ) (failure : Failure) (s : Engine) (t : Scheduler)
    → is_terminal (s.scheduler.requests r) ≡ false
    → Progress.finish r s.scheduler ≡ (ok tt, t)
    → fail r failure s ≡ (ok tt, report_failure r failure (record s { scheduler = t }))
unfolding fail
fail_run r failure s t e f = rw e (rw f refl)

-- What is left of the batch still runs when one of its requests has ended.
still_running :
    (outside : ℕ → ℕ) (r : ℕ) (rs : List ℕ) (s t : Scheduler)
    → IsOrderly s
    → Finished outside r s t
    → ((c : ℕ) → occ c (r ∷ rs) ≤ occ c s.running)
    → (c : ℕ) → occ c rs ≤ occ c t.running
still_running outside r rs s t o f runs c = elim (Bool-cases (r == c)) [
  | inl same ↦
      let e : r ≡ c = ground arith in
      subst (λ x. occ x rs ≤ occ x t.running) e
        (ground (arith, runs r, o.runs r, occ-cons r r rs, eq_mark_self r))
  | inr other ↦
      let same_request = ap (λ (q : Request). q.state) (f.others_same c (ground arith)) in
      ground (
        arith,
        runs c,
        occ-cons c r rs,
        o.runs c,
        o.waits c,
        o.ends c,
        f.orderly.waits c,
        f.orderly.ends c,
        f.same_places c,
        same_request,
      )
]

running_not_terminal :
    (r : ℕ) (s : Scheduler) → IsOrderly s → 0 < occ r s.running → is_terminal (s.requests r) ≡ false
running_not_terminal r s o h = ground (arith, o.runs r)

running_le_one : (r : ℕ) (s : Scheduler) → IsOrderly s → occ r s.running ≤ 1
running_le_one r s o = ground (arith, o.runs r)

Failed-cons :
    (outside : ℕ → ℕ) (r : ℕ) (rs : List ℕ) (failure : Failure) (s : Engine) (t : Scheduler)
    (s' : Engine)
    → StreamsHold s
    → occ r rs ≡ 0
    → Finished outside r s.scheduler t
    → Failed outside rs (report_failure r failure (record s { scheduler = t })) s'
    → Failed outside (r ∷ rs) s s'
unfolding emit
Failed-cons outside r rs failure s t s' h fresh f q =
    let u = record s { scheduler = t } in
    let k : StreamsHold u = record { once = h.once; last = h.last } in
    record {
      orderly = q.orderly;
      backed = q.backed;
      ended = λ c l. elim (Bool-cases (r == c)) [
        | inl same ↦
            let e : r ≡ c = ground arith in
            subst (λ x. state_of s'.scheduler x ≡ finished) e
              (ap (λ (x : Request). x.state) (q.others_same r fresh) ∙ f.state)
        | inr other ↦ q.ended c (ground (arith, l, other, occ-cons c r rs))
      ];
      others_same = λ c l.
          q.others_same c (omega (arith, l, occ-cons c r rs))
          ∙ f.others_same c (ground (arith, l, occ-cons c r rs));
      told = λ c. ground (
        arith,
        q.told c,
        fresh,
        occ-cons c r rs,
        report_failure-told r c failure u k,
        report_failure-emitters r c failure u k,
      );
      streams = λ c.
          ground
            (arith, q.streams c, fresh, occ-cons c r rs, report_failure-emitters r c failure u k);
      counted = omega (arith, q.counted);
      held = q.held;
    }

-- The requests `rs` of a batch, which run, all fail by the same exception: the call returns normally.
pub fail_all_lem :
    (outside : ℕ → ℕ) (rs : List ℕ) (failure : Failure) (s : Engine)
    → StreamsHold s
    → IsOrderly s.scheduler
    → IsBacked outside s.scheduler
    → ((c : ℕ) → occ c rs ≤ occ c s.scheduler.running)
    → (s' : Engine) × (fail_all rs failure s ≡ (ok tt, s')) × Failed outside rs s s'
unfolding fail_all
fail_all_lem outside [] failure s h o k runs = (
  s,
  refl,
  record {
    orderly = o;
    backed = k;
    ended = λ r l. absurd (omega (arith, occ-nil r));
    others_same = λ r l. refl;
    told = λ r. ground (arith, occ-nil r);
    streams = λ r. ground (arith, occ-nil r);
    counted = omega arith;
    held = h;
  },
)
fail_all_lem outside (r ∷ rs) failure s h o k runs =
    let here : 0 < occ r s.scheduler.running =
      omega (arith, runs r, occ-cons r r rs, eq_mark_self r) in
    let (t, e, f) = finish_lem outside r s.scheduler o k here in
    let s₁ = report_failure r failure (record s { scheduler = t }) in
    let first = fail_run r failure s t (running_not_terminal r s.scheduler o here) e in
    let (s', rest, q) =
      fail_all_lem outside rs failure s₁
        (report_failure-StreamsHold r failure (record s { scheduler = t })
          (record { once = h.once; last = h.last }))
        f.orderly f.backed (still_running outside r rs s.scheduler t o f runs) in
    (
      s',
      rw first rest,
      Failed-cons outside r rs failure s t s' h
          (omega (
            arith,
            runs r,
            o.runs r,
            running_le_one r s.scheduler o,
            occ-cons r r rs,
            eq_mark_self r,
          ))
          f q,
    )
