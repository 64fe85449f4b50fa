-- ===== src/Serve/Executor/Batches.antt =====
-- A whole batch of the executor of edgerag/serve/executor.py.
use edgerag.Serve.Executor.Prefills.{Prefilled, two_rounds, Ends-bind, Ends-map, prefill_all-Ends}
use edgerag.Serve.Executor.Undisturbed.{
  Undisturbed-refl, Undisturbed-trans, cache_for-Undisturbed, run_token-Undisturbed,
}
use edgerag.Prelude.{
  ℕ, List, ◌≡◌, [], if◌then◌else◌, ◌∷◌, Bool-cases, inr, true, ◌==◌, inl, arith, ◌∙◌, none, false,
  ap, refl, Result-cases, subst,
}
use edgerag.Sched.Scheduler.State.{Scheduler, Batch}
use edgerag.Serve.Executor.{
  prefill_all, decode_one, decode_all, execute, Decoder, assign_key, cache_for, no_output,
  last_token, run_token,
}
use edgerag.Serve.Engine.{StepOutput}
use edgerag.Serve.Executor.Outputs.{with_chunk_token, Ends, is_some, with_chunk_entry}
use edgerag.Prelude.Counting.{occ, occ-nil}

-- A token for one request of the decode list.
abbrev Token : ℕ → StepOutput → StepOutput → Type 0
Token r out out' = (token : ℕ) × (out' ≡ record out { tokens = assign_key r token out.tokens })

decode_one-Ends :
    (decoder : Decoder) (r : ℕ) (out : StepOutput) (s : Scheduler)
    → Ends (Token r out) s (decode_one decoder r out s)
unfolding decode_one
decode_one-Ends decoder r out s =
    let t = cache_for r s in
    let last = last_token (t.requests r).generated_token_ids in
    let u = (run_token decoder r last t).1 in
    let whole =
      Undisturbed-trans s t u (cache_for-Undisturbed r s)
        (run_token-Undisturbed decoder r last t) in
    elim (Result-cases (run_token decoder r last t).0) [
      | inr (e, failed) ↦ (u, whole, inl (e, rw failed refl))
      | inl (token, came) ↦ (
        u,
        whole,
        inr (record out { tokens = assign_key r token out.tokens }, rw came refl, (token, refl)),
      )
    ]

-- What the loop over the decoding requests adds.
pub record Decoded (rs : List ℕ) (out out' : StepOutput) : Type 0 where
  pub entries_same : (c : ℕ) → out'.prefilled c ≡ out.prefilled c
  pub all_tokens :
      (c : ℕ) → is_some (out'.tokens c) ≡ (if occ c rs == 0 then is_some (out.tokens c) else true)

Decoded-nil : (out : StepOutput) → Decoded [] out out
Decoded-nil out = record {
  entries_same = λ c. refl;
  all_tokens = λ c. let e : (occ c [] == 0) ≡ true = ground (arith, occ-nil c) in rw e refl;
}

Decoded-cons :
    (r token : ℕ) (rs : List ℕ) (out out' : StepOutput)
    → Decoded rs (record out { tokens = assign_key r token out.tokens }) out'
    → Decoded (r ∷ rs) out out'
Decoded-cons r token rs out out' d = record {
  entries_same = d.entries_same;
  all_tokens = λ c.
      two_rounds r c rs (λ _. true) (is_some (out.tokens c))
        (is_some (assign_key r token out.tokens c)) (is_some (out'.tokens c)) refl
        (elim (Bool-cases (r == c)) [ inl same ↦ rw same refl | inr other ↦ rw other refl ])
        (d.all_tokens c);
}

decode_all-Ends :
    (decoder : Decoder) (rs : List ℕ) (out : StepOutput) (s : Scheduler)
    → Ends (Decoded rs out) s (decode_all decoder rs out s)
unfolding decode_all
decode_all-Ends decoder [] out s = (s, Undisturbed-refl s, inr (out, refl, Decoded-nil out))
decode_all-Ends decoder (r ∷ rs) out s =
    Ends-bind (Token r out) (Decoded (r ∷ rs) out) s (decode_one decoder r out)
      (decode_all decoder rs) (decode_one-Ends decoder r out s)
      (λ t next h k.
        Ends-map (Decoded rs next) (Decoded (r ∷ rs) out) t (decode_all decoder rs next t)
          (λ out' q. Decoded-cons r k.0 rs out out' (subst (λ x. Decoded rs x out') k.1 q))
          (decode_all-Ends decoder rs next t))

-- The entry of a request in the output of a batch.
pub record Executed (chunk_size : ℕ) (b : Batch) (s : Scheduler) (out : StepOutput) : Type 0 where
  pub progress :
      (c : ℕ)
      → out.prefilled c
        ≡ (if occ c b.prefill == 0 then none else with_chunk_entry chunk_size (s.requests c) none)
  pub token :
      (c : ℕ)
      → is_some (out.tokens c) ≡ (
          if occ c b.decode == 0
          then (if occ c b.prefill == 0
              then false
              else with_chunk_token chunk_size (s.requests c) false)
          else true)

-- Whatever the decoder does, `execute` leaves the queues, the configuration and all of every request
-- but its cache as they were, also where it raises. If it returns, then the output has, for exactly
-- those requests of the prefill list that have prompt tokens left, the length of their next chunk:
-- `chunk_size` tokens, or fewer at the end of the prompt; and it has a token for every request of the
-- decode list, for those of the prefill list whose prompt ends with this chunk, and for no other.
pub execute_lem :
    (decoder : Decoder) (chunk_size : ℕ) (b : Batch) (s : Scheduler)
    → Ends (Executed chunk_size b s) s (execute decoder chunk_size b s)
unfolding execute
execute_lem decoder chunk_size b s =
    Ends-bind (Prefilled chunk_size b.prefill s no_output) (Executed chunk_size b s) s
      (prefill_all decoder chunk_size b.prefill no_output) (decode_all decoder b.decode)
      (prefill_all-Ends decoder chunk_size b.prefill no_output s)
      (λ t out h k.
        Ends-map (Decoded b.decode out) (Executed chunk_size b s) t
          (decode_all decoder b.decode out t)
          (λ out' d. record {
            progress = λ c. d.entries_same c ∙ k.entries c;
            token = λ c.
                d.all_tokens c ∙ ap (λ x. if occ c b.decode == 0 then x else true) (k.firsts c);
          })
          (decode_all-Ends decoder b.decode out t))
