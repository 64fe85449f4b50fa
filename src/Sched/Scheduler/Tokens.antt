-- ===== src/Sched/Scheduler/Tokens.antt =====
-- `on_prefill_chunk` and `on_token` of edgerag/sched/scheduler.py: the progress of a running request.
use edgerag.Prelude.{
  ℕ, ◌+◌, ◌≡◌, ◌<◌, ℤ, arith, false, true, if◌then◌else◌, ok, eqb_refl, leb, pos, refl, ◌⊎◌, ◌≤◌,
  ◌==◌, ◌∙◌, err, Bool-cases, value_error, inl, ◌<ℤ◌, inr, ◌+ℤ◌, negsuc, ltb, pos-add, ◌++◌, ◌∷◌,
  [],
}
use edgerag.Sched.Request.{
  Request, decoding, append_token, advance_prefill, prompt_len, last_is, ends_with_eos,
}
use edgerag.Sched.Scheduler.State.{Scheduler, update, SchedulerStats, set_request}
use edgerag.Sched.Scheduler.Progress.{on_token, on_prefill_chunk, finish}
use edgerag.Sched.Scheduler.Queues.{IsOrderly, state_of, running_mark}
use edgerag.Sched.Scheduler.Backing.{IsBacked, cache_refs-congr}
use edgerag.Sched.Scheduler.Release.{Finished, finish_lem}
use edgerag.Prelude.Counting.{occ}
use edgerag.Sched.Scheduler.StopRule.{with_token, IsLast, append_token-eq, should_stop-decides}
use edgerag.Sched.Request

-- A change of a running request that keeps it in a running state and keeps its cache.
pub changed-IsOrderly :
    (s : Scheduler) (r : ℕ) (q : Request) (t : SchedulerStats)
    → IsOrderly s
    → 0 < occ r s.running
    → running_mark q.state ≡ 1
    → IsOrderly (record s { requests = update s.requests r q; stats = t })
changed-IsOrderly s r q t o running stays = record {
  waits = λ c. ground (arith, o.waits c, o.waits r, o.runs r);
  runs = λ c. ground (arith, o.runs c);
  ends = λ c. ground (arith, o.ends c, o.ends r, o.runs r);
  fits = o.fits;
}

pub changed-IsBacked :
    (outside : ℕ → ℕ) (s : Scheduler) (r : ℕ) (q : Request) (t : SchedulerStats)
    → IsBacked outside s
    → q.cache ≡ (s.requests r).cache
    → IsBacked outside (record s { requests = update s.requests r q; stats = t })
changed-IsBacked outside s r q t k same = record {
  well_formed = k.well_formed;
  counts = λ b. omega (
    arith,
    k.counts b,
    cache_refs-congr (update s.requests r q) s.requests s.running b (λ c _. ground arith),
  );
  once = λ c b. ground (arith, k.once c b, k.once r b);
}

-- The scheduler after `r` got a token, before it looks whether to stop.
abbrev pub after_token : ℕ → ℕ → Scheduler → Scheduler
after_token r token_id s = record s {
  requests = update s.requests r (with_token r token_id s);
  stats = record s.stats { decode_steps = s.stats.decode_steps + 1 };
}

on_token_goes_on :
    (r token_id : ℕ) (s : Scheduler)
    → Request.should_stop s.config.eos_token_id (with_token r token_id s) ≡ false
    → on_token r token_id s ≡ (ok tt, after_token r token_id s)
unfolding on_token
on_token_goes_on r token_id s e = rw (append_token-eq r token_id s) (rw (eqb_refl r) (rw e refl))

on_token_stops :
    (r token_id : ℕ) (s : Scheduler)
    → Request.should_stop s.config.eos_token_id (with_token r token_id s) ≡ true
    → on_token r token_id s ≡ finish r (after_token r token_id s)
unfolding on_token
on_token_stops r token_id s e = rw (append_token-eq r token_id s) (rw (eqb_refl r) (rw e refl))

pub running_state :
    (s : Scheduler) (r : ℕ) → IsOrderly s → 0 < occ r s.running → running_mark (state_of s r) ≡ 1
running_state s r o h = ground (arith, o.runs r)

-- `on_token` of a running request, in a scheduler whose queues are in order and whose pool is backed
-- by its holders, always returns normally, and behind it the request has generated one token more,
-- the given one. If it now has as many as it may have, or the token is the end-of-sequence token, it
-- is finished and gives its blocks back; otherwise it goes on running, and nothing has changed but
-- its tokens, the step of its first token, if this is the first, and the count of decode steps. In
-- both cases the queues are in order and the pool is backed by its holders.
pub on_token_lem :
    (outside : ℕ → ℕ) (r token_id : ℕ) (s : Scheduler)
    → IsOrderly s
    → IsBacked outside s
    → 0 < occ r s.running
    → (s' : Scheduler) × (on_token r token_id s ≡ (ok tt, s'))
      × ((s'.requests r).generated_token_ids ≡ (s.requests r).generated_token_ids ++ token_id ∷ [])
      × ((IsLast s.config.eos_token_id
              (s.requests r).max_new_tokens
              (s.requests r).generated_token_ids
              token_id
            × Finished outside r (after_token r token_id s) s')
          ⊎ ((¬ IsLast s.config.eos_token_id
                (s.requests r).max_new_tokens
                (s.requests r).generated_token_ids
                token_id)
              × (s' ≡ after_token r token_id s)))
      × IsOrderly s'
      × IsBacked outside s'
on_token_lem outside r token_id s o k running =
    let q = with_token r token_id s in
    let t = after_token r token_id s in
    let o' : IsOrderly t =
      changed-IsOrderly s r q t.stats o running (running_state s r o running) in
    let k' : IsBacked outside t = changed-IsBacked outside s r q t.stats k refl in
    let here : (t.requests r).generated_token_ids ≡ q.generated_token_ids = rw (eqb_refl r) refl in
    elim (should_stop-decides r token_id s) [
      | inl (last, stop) ↦
          let (s', e, f) = finish_lem outside r t o' k' running in
          (
            s',
            on_token_stops r token_id s stop ∙ e,
            f.same_tokens ∙ here,
            inl (last, f),
            f.orderly,
            f.backed,
          )
      | inr (more, go) ↦ (t, on_token_goes_on r token_id s go, here, inr (more, refl), o', k')
    ]

-- The request after `n` more tokens of its prompt were processed.
abbrev pub with_chunk : ℕ → Request → Request
with_chunk n q = record q {
  prefill_offset = q.prefill_offset + n;
  state = if leb (prompt_len q) (q.prefill_offset + n) then decoding else q.state;
}

refused_chunk :
    (outside : ℕ → ℕ) (r : ℕ) (n_tokens : ℤ) (s : Scheduler)
    → IsOrderly s
    → IsBacked outside s
    → 0 < occ r s.running
    → advance_prefill n_tokens (s.requests r) ≡ (err value_error, s.requests r)
    → (on_prefill_chunk r n_tokens s ≡ (err value_error, set_request r (s.requests r) s))
      × ((c : ℕ) → (set_request r (s.requests r) s).requests c ≡ s.requests c)
      × IsOrderly (set_request r (s.requests r) s)
      × IsBacked outside (set_request r (s.requests r) s)
unfolding on_prefill_chunk
refused_chunk outside r n_tokens s o k running e = (
  rw e,
  (λ c. ground arith),
  changed-IsOrderly s r (s.requests r) s.stats o running (running_state s r o running),
  changed-IsBacked outside s r (s.requests r) s.stats k refl,
)

negative :
    (r m : ℕ) (s : Scheduler)
    → advance_prefill (negsuc m) (s.requests r) ≡ (err value_error, s.requests r)
unfolding advance_prefill
negative r m s = refl

too_long :
    (r n : ℕ) (s : Scheduler)
    → ltb (prompt_len (s.requests r)) ((s.requests r).prefill_offset + n) ≡ true
    → advance_prefill (pos n) (s.requests r) ≡ (err value_error, s.requests r)
unfolding advance_prefill
too_long r n s e = rw e

-- The request after `n` more tokens of its prompt, while it is still prefilling.
abbrev moved : ℕ → Request → Request
moved n q = record q { prefill_offset = q.prefill_offset + n }

abbrev after_chunk : ℕ → ℕ → Scheduler → Scheduler
after_chunk r n s = record s {
  requests = update s.requests r (moved n (s.requests r));
  stats = record s.stats { prefill_chunks = s.stats.prefill_chunks + 1 };
}

abbrev turned : ℕ → ℕ → Scheduler → Scheduler
turned r n s =
    set_request r (record ((after_chunk r n s).requests r) { state = decoding }) (after_chunk r n s)

chunk_turns :
    (r n : ℕ) (s : Scheduler)
    → ltb (prompt_len (s.requests r)) ((s.requests r).prefill_offset + n) ≡ false
    → leb (prompt_len (s.requests r)) ((s.requests r).prefill_offset + n) ≡ true
    → on_prefill_chunk r (pos n) s ≡ (ok tt, turned r n s)
unfolding on_prefill_chunk advance_prefill
chunk_turns r n s within e = rw within (rw (eqb_refl r) (rw e (rw (eqb_refl r))))

chunk_stays :
    (r n : ℕ) (s : Scheduler)
    → ltb (prompt_len (s.requests r)) ((s.requests r).prefill_offset + n) ≡ false
    → leb (prompt_len (s.requests r)) ((s.requests r).prefill_offset + n) ≡ false
    → on_prefill_chunk r (pos n) s ≡ (ok tt, after_chunk r n s)
unfolding on_prefill_chunk advance_prefill
chunk_stays r n s within e = rw within (rw (eqb_refl r) (rw e))

accepted_chunk :
    (outside : ℕ → ℕ) (r n : ℕ) (s : Scheduler)
    → IsOrderly s
    → IsBacked outside s
    → 0 < occ r s.running
    → ltb (prompt_len (s.requests r)) ((s.requests r).prefill_offset + n) ≡ false
    → (s' : Scheduler) × (on_prefill_chunk r (pos n) s ≡ (ok tt, s'))
      × ((c : ℕ) → s'.requests c ≡ (if r == c then with_chunk n (s.requests r) else s.requests c))
      × IsOrderly s'
      × IsBacked outside s'
accepted_chunk outside r n s o k running within =
    let t = after_chunk r n s in
    let q = moved n (s.requests r) in
    let d = record (t.requests r) { state = decoding } in
    let o' : IsOrderly t =
      changed-IsOrderly s r q t.stats o running (running_state s r o running) in
    let k' : IsBacked outside t = changed-IsBacked outside s r q t.stats k refl in
    elim (Bool-cases (leb (prompt_len (s.requests r)) ((s.requests r).prefill_offset + n))) [
      | inl end ↦ (
        turned r n s,
        chunk_turns r n s within end,
        (λ c. ground (arith, eqb_refl r)),
        changed-IsOrderly t r d t.stats o' running refl,
        changed-IsBacked outside t r d t.stats k' refl,
      )
      | inr more ↦ (t, chunk_stays r n s within more, (λ c. ground arith), o', k')
    ]

-- `on_prefill_chunk` of a running request. If the chunk lies in the prompt, it returns normally, the
-- offset advances by the chunk, and the request turns to decoding exactly if that was the end of the
-- prompt. If the chunk is negative or goes past the prompt, ValueError is raised and every request is
-- as before. In both cases the queues are in order and the pool is backed by its holders.
pub on_prefill_chunk_lem :
    (outside : ℕ → ℕ) (r : ℕ) (n_tokens : ℤ) (s : Scheduler)
    → IsOrderly s
    → IsBacked outside s
    → 0 < occ r s.running
    → ((n : ℕ) × (s' : Scheduler) × (n_tokens ≡ pos n)
        × ((s.requests r).prefill_offset + n ≤ prompt_len (s.requests r))
        × (on_prefill_chunk r n_tokens s ≡ (ok tt, s'))
        × ((c : ℕ) → s'.requests c ≡ (if r == c then with_chunk n (s.requests r) else s.requests c))
        × IsOrderly s'
        × IsBacked outside s')
      ⊎ ((s' : Scheduler) × (on_prefill_chunk r n_tokens s ≡ (err value_error, s'))
          × ((n_tokens <ℤ pos 0)
              ⊎ (pos (prompt_len (s.requests r)) <ℤ pos (s.requests r).prefill_offset +ℤ n_tokens))
          × ((c : ℕ) → s'.requests c ≡ s.requests c)
          × IsOrderly s'
          × IsBacked outside s')
on_prefill_chunk_lem outside r (negsuc m) s o k running =
    let (e, same, o', k') = refused_chunk outside r (negsuc m) s o k running (negative r m s) in
    inr (set_request r (s.requests r) s, e, inl (omega arith), same, o', k')
on_prefill_chunk_lem outside r (pos n) s o k running =
    elim (Bool-cases (ltb (prompt_len (s.requests r)) ((s.requests r).prefill_offset + n))) [
      | inl past ↦
          let (e, same, o', k') =
            refused_chunk outside r (pos n) s o k running (too_long r n s past) in
          let sum = pos-add (s.requests r).prefill_offset n in
          inr (set_request r (s.requests r) s, e, inr (rw sum (ground arith)), same, o', k')
      | inr within ↦
          let (s', e, same, o', k') = accepted_chunk outside r n s o k running within in
          inl (n, s', refl, ground arith, e, same, o', k')
    ]
