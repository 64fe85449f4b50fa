-- ===== src/Serve/Executor/Outputs.antt =====
-- What a call of the executor of edgerag/serve/executor.py returns.
use edgerag.Prelude.{
  ℕ, Option, ◌≡◌, ℤ, Bool, if◌then◌else◌, false, ◌==◌, some, pos, leb, true, Bool-cases, none, inl,
  arith, ◌∙◌, inr, ap, refl, Result, Error, err, ◌⊎◌, ok, and_then, pure, sym, Result-cases, subst,
  eqb_refl, min, ◌-◌,
}
use edgerag.Sched.Request.{Request, prompt_len}
use edgerag.Sched.Scheduler.State.{Scheduler}
use edgerag.Serve.Engine.{StepOutput}
use edgerag.Serve.Executor.{
  chunk_length, chunk_end, prefill_one, Decoder, cache_for, chunk_output, run_chunk,
}
use edgerag.Serve.Executor.Undisturbed.{
  bare, Undisturbed, cache_for-Undisturbed, Undisturbed-trans, run_chunk-Undisturbed,
}

-- The tokens of the prompt that are not processed.
abbrev pub rest_of_prompt : Request → ℕ
rest_of_prompt q = prompt_len q - q.prefill_offset

-- What the chunk of a request makes of its entry in `prefilled`: `chunk_size` tokens, or the rest of
-- the prompt, if that is less. Where there is nothing to process, there is no entry.
abbrev pub with_chunk_entry : ℕ → Request → Option ℤ → Option ℤ
with_chunk_entry chunk_size q d =
    if min chunk_size (rest_of_prompt q) == 0
    then d
    else some (pos (min chunk_size (rest_of_prompt q)))

-- Whether the entry in `tokens` is there, which it is behind the chunk that is the whole rest.
abbrev pub with_chunk_token : ℕ → Request → Bool → Bool
with_chunk_token chunk_size q d =
    if min chunk_size (rest_of_prompt q) == 0
    then d
    else (if leb (rest_of_prompt q) chunk_size then true else d)

chunk_length-eq :
    (chunk_size : ℕ) (q : Request) → chunk_length chunk_size q ≡ min chunk_size (rest_of_prompt q)
chunk_length-eq chunk_size q = ground arith

is_last-eq :
    (chunk_size : ℕ) (q : Request)
    → (chunk_length chunk_size q == 0) ≡ false
    → leb (prompt_len q) (chunk_end chunk_size q) ≡ leb (rest_of_prompt q) chunk_size
is_last-eq chunk_size q busy = ground arith

abbrev pub is_some : Option ℕ → Bool
is_some none = false
is_some (some _) = true

-- How a call on the scheduler may end, where it leaves all but pool and caches alone.
abbrev pub Ends :
    (P : StepOutput → Type 0) (s : Scheduler) (run : Result StepOutput × Scheduler) → Type 0
Ends P s run =
    (u : Scheduler) × Undisturbed s u
    × (((e : Error) × (run ≡ (err e, u))) ⊎ ((out : StepOutput) × (run ≡ (ok out, u)) × P out))

same_length :
    (chunk_size : ℕ) (q q' : Request)
    → bare q ≡ bare q'
    → chunk_length chunk_size q ≡ chunk_length chunk_size q'
same_length chunk_size q q' e = ap (chunk_length chunk_size) e

prefill_one-skips :
    (decoder : Decoder) (chunk_size r : ℕ) (out : StepOutput) (s : Scheduler)
    → (chunk_length chunk_size ((cache_for r s).requests r) == 0) ≡ true
    → prefill_one decoder chunk_size r out s ≡ (ok out, cache_for r s)
unfolding prefill_one
prefill_one-skips decoder chunk_size r out s idle = rw idle refl

prefill_one-runs :
    (decoder : Decoder) (chunk_size r : ℕ) (out : StepOutput) (s : Scheduler) (result : Result ℕ)
    → (chunk_length chunk_size ((cache_for r s).requests r) == 0) ≡ false
    → (run_chunk decoder chunk_size r (cache_for r s)).0 ≡ result
    → prefill_one decoder chunk_size r out s
      ≡ and_then result
          (λ token. pure (chunk_output chunk_size r ((cache_for r s).requests r) token out))
          (run_chunk decoder chunk_size r (cache_for r s)).1
unfolding prefill_one
prefill_one-runs decoder chunk_size r out s result busy called = rw busy (rw called refl)

-- One request's chunk.
pub record Chunk (chunk_size r : ℕ) (s : Scheduler) (out out' : StepOutput) : Type 0 where
  pub entry :
      (c : ℕ)
      → out'.prefilled c ≡ (
          if r == c
          then with_chunk_entry chunk_size (s.requests c) (out.prefilled c)
          else out.prefilled c)
  pub first :
      (c : ℕ)
      → is_some (out'.tokens c) ≡ (
          if r == c
          then with_chunk_token chunk_size (s.requests c) (is_some (out.tokens c))
          else is_some (out.tokens c))

idle_entry :
    (chunk_size : ℕ) (q : Request) (d : Option ℤ)
    → (chunk_length chunk_size q == 0) ≡ true
    → d ≡ with_chunk_entry chunk_size q d
idle_entry chunk_size q d e = rw (ap (λ n. n == 0) (sym (chunk_length-eq chunk_size q)) ∙ e) refl

idle_token :
    (chunk_size : ℕ) (q : Request) (d : Bool)
    → (chunk_length chunk_size q == 0) ≡ true
    → d ≡ with_chunk_token chunk_size q d
idle_token chunk_size q d e = rw (ap (λ n. n == 0) (sym (chunk_length-eq chunk_size q)) ∙ e) refl

-- A statement about every key, from one about the key of the request.
at_key :
    {B : Type 0} (r c : ℕ) (E : ℕ → B → B) (f g : ℕ → B)
    → g r ≡ E r (f r)
    → ((r == c) ≡ false → g c ≡ f c)
    → g c ≡ (if r == c then E c (f c) else f c)
at_key r c E f g here elsewhere = elim (Bool-cases (r == c)) [
  | inl same ↦ let e : r ≡ c = ground arith in rw same (subst (λ k. g k ≡ E k (f k)) e here)
  | inr other ↦ rw other (elsewhere other)
]

Chunk-none :
    (chunk_size r : ℕ) (s : Scheduler) (out : StepOutput)
    → (chunk_length chunk_size (s.requests r) == 0) ≡ true
    → Chunk chunk_size r s out out
Chunk-none chunk_size r s out idle = record {
  entry = λ c.
      at_key r c (λ k. with_chunk_entry chunk_size (s.requests k)) out.prefilled out.prefilled
        (idle_entry chunk_size (s.requests r) (out.prefilled r) idle) (λ _. refl);
  first = λ c.
      at_key r c (λ k. with_chunk_token chunk_size (s.requests k)) (λ k. is_some (out.tokens k))
        (λ k. is_some (out.tokens k))
        (idle_token chunk_size (s.requests r) (is_some (out.tokens r)) idle) (λ _. refl);
}

chunk_entry :
    (chunk_size r token : ℕ) (q : Request) (out : StepOutput)
    → (chunk_length chunk_size q == 0) ≡ false
    → (chunk_output chunk_size r q token out).prefilled r
      ≡ with_chunk_entry chunk_size q (out.prefilled r)
chunk_entry chunk_size r token q out busy =
    rw (ap (λ n. n == 0) (sym (chunk_length-eq chunk_size q)) ∙ busy)
      (rw (eqb_refl r) (ap (λ n. some (pos n)) (chunk_length-eq chunk_size q)))

chunk_token :
    (chunk_size r token : ℕ) (q : Request) (out : StepOutput)
    → (chunk_length chunk_size q == 0) ≡ false
    → is_some ((chunk_output chunk_size r q token out).tokens r)
      ≡ with_chunk_token chunk_size q (is_some (out.tokens r))
chunk_token chunk_size r token q out busy =
    let busy' = ap (λ n. n == 0) (sym (chunk_length-eq chunk_size q)) ∙ busy in
    elim (Bool-cases (leb (prompt_len q) (chunk_end chunk_size q))) [
      | inl last ↦
          let last' = sym (is_last-eq chunk_size q busy) ∙ last in
          rw busy' (rw last (rw last' (rw (eqb_refl r) refl)))
      | inr more ↦
          let more' = sym (is_last-eq chunk_size q busy) ∙ more in
          rw busy' (rw more (rw more' refl))
    ]

chunk_token-elsewhere :
    (chunk_size r token c : ℕ) (q : Request) (out : StepOutput)
    → (r == c) ≡ false
    → is_some ((chunk_output chunk_size r q token out).tokens c) ≡ is_some (out.tokens c)
chunk_token-elsewhere chunk_size r token c q out other =
    elim (Bool-cases (leb (prompt_len q) (chunk_end chunk_size q))) [
      | inl last ↦ rw last (rw other refl)
      | inr more ↦ rw more refl
    ]

Chunk-some :
    (chunk_size r token : ℕ) (s : Scheduler) (q : Request) (out : StepOutput)
    → bare q ≡ bare (s.requests r)
    → (chunk_length chunk_size q == 0) ≡ false
    → Chunk chunk_size r s out (chunk_output chunk_size r q token out)
Chunk-some chunk_size r token s q out same busy =
    let new = chunk_output chunk_size r q token out in
    record {
      entry = λ c.
          at_key r c (λ k. with_chunk_entry chunk_size (s.requests k)) out.prefilled new.prefilled
            (chunk_entry chunk_size r token q out busy
              ∙ ap (λ x. with_chunk_entry chunk_size x (out.prefilled r)) same)
            (λ other. rw other refl);
      first = λ c.
          at_key r c (λ k. with_chunk_token chunk_size (s.requests k)) (λ k. is_some (out.tokens k))
            (λ k. is_some (new.tokens k))
            (chunk_token chunk_size r token q out busy
              ∙ ap (λ x. with_chunk_token chunk_size x (is_some (out.tokens r))) same)
            (λ other. chunk_token-elsewhere chunk_size r token c q out other);
    }

pub prefill_one-Ends :
    (decoder : Decoder) (chunk_size r : ℕ) (out : StepOutput) (s : Scheduler)
    → Ends (Chunk chunk_size r s out) s (prefill_one decoder chunk_size r out s)
prefill_one-Ends decoder chunk_size r out s =
    let t = cache_for r s in
    let start = cache_for-Undisturbed r s in
    let u = (run_chunk decoder chunk_size r t).1 in
    let whole = Undisturbed-trans s t u start (run_chunk-Undisturbed decoder chunk_size r t) in
    elim (Bool-cases (chunk_length chunk_size (t.requests r) == 0)) [
      | inl idle ↦
          let e = same_length chunk_size (t.requests r) (s.requests r) (start.same_requests r) in
          (
            t,
            start,
            inr (
              out,
              prefill_one-skips decoder chunk_size r out s idle,
              Chunk-none chunk_size r s out (ap (λ n. n == 0) (sym e) ∙ idle),
            ),
          )
      | inr busy ↦ elim (Result-cases (run_chunk decoder chunk_size r t).0) [
        | inr (x, failed) ↦
            (u, whole, inl (x, prefill_one-runs decoder chunk_size r out s (err x) busy failed))
        | inl (token, came) ↦ (
          u,
          whole,
          inr (
            chunk_output chunk_size r (t.requests r) token out,
            prefill_one-runs decoder chunk_size r out s (ok token) busy came,
            Chunk-some chunk_size r token s (t.requests r) out (start.same_requests r) busy,
          ),
        )
      ]
    ]
