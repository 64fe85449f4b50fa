-- ===== src/Serve/Executor/Prefills.antt =====
-- The prefilling requests of a batch, in the executor of edgerag/serve/executor.py.
use edgerag.Serve.Executor.Undisturbed.{Undisturbed, Undisturbed-refl, Undisturbed-trans}
use edgerag.Prelude.{
  ℕ, List, ◌≡◌, Option, Bool, [], ℤ, if◌then◌else◌, ◌∷◌, Bool-cases, inr, true, ◌==◌, inl, arith,
  ◌∙◌, false, leb, ap, refl, Result, Action, ◌>>=◌, and_then, min,
}
use edgerag.Sched.Request.{Request}
use edgerag.Sched.Scheduler.State.{Scheduler}
use edgerag.Serve.Executor.{prefill_all, Decoder, prefill_one}
use edgerag.Serve.Engine.{StepOutput}
use edgerag.Serve.Executor.Outputs.{
  Chunk, with_chunk_token, Ends, is_some, with_chunk_entry, prefill_one-Ends, rest_of_prompt,
}
use edgerag.Prelude.Counting.{occ, occ-nil, occ-cons}

-- An entry under `c` after the requests `r ∷ rs`, one after the other, each of which changes its own
-- entry by E, in a way that a second time does not add to.
pub two_rounds :
    {B : Type 0} (r c : ℕ) (rs : List ℕ) (E : B → B) (d y z : B)
    → E (E d) ≡ E d
    → y ≡ (if r == c then E d else d)
    → z ≡ (if occ c rs == 0 then y else E y)
    → z ≡ (if occ c (r ∷ rs) == 0 then d else E d)
two_rounds r c rs E d y z idem e f = elim (Bool-cases (r == c)) [
  | inl same ↦
      let g : (occ c (r ∷ rs) == 0) ≡ false = ground (arith, occ-cons c r rs) in
      let y' : y ≡ E d = e ∙ rw same refl in
      elim (Bool-cases (occ c rs == 0)) [
        | inl n ↦ f ∙ rw n (rw g y')
        | inr n ↦ f ∙ rw n (rw g (ap E y' ∙ idem))
      ]
  | inr other ↦
      let g : (occ c (r ∷ rs) == 0) ≡ (occ c rs == 0) = ground (arith, occ-cons c r rs) in
      let y' : y ≡ d = e ∙ rw other refl in
      f ∙ ap (λ v. if occ c rs == 0 then v else E v) y' ∙ rw g refl
]

pub record Prefilled (chunk_size : ℕ) (rs : List ℕ) (s : Scheduler) (out out' : StepOutput)
    : Type 0 where
  pub entries :
      (c : ℕ)
      → out'.prefilled c ≡ (
          if occ c rs == 0
          then out.prefilled c
          else with_chunk_entry chunk_size (s.requests c) (out.prefilled c))
  pub firsts :
      (c : ℕ)
      → is_some (out'.tokens c) ≡ (
          if occ c rs == 0
          then is_some (out.tokens c)
          else with_chunk_token chunk_size (s.requests c) (is_some (out.tokens c)))

with_chunk_entry_twice :
    (chunk_size : ℕ) (q : Request) (d : Option ℤ)
    → with_chunk_entry chunk_size q (with_chunk_entry chunk_size q d)
      ≡ with_chunk_entry chunk_size q d
with_chunk_entry_twice chunk_size q d = elim (Bool-cases (min chunk_size (rest_of_prompt q) == 0)) [
  | inl idle ↦ rw idle refl
  | inr busy ↦ rw busy refl
]

with_chunk_token_twice :
    (chunk_size : ℕ) (q : Request) (d : Bool)
    → with_chunk_token chunk_size q (with_chunk_token chunk_size q d)
      ≡ with_chunk_token chunk_size q d
with_chunk_token_twice chunk_size q d = elim (Bool-cases (min chunk_size (rest_of_prompt q) == 0)) [
  | inl idle ↦ rw idle refl
  | inr busy ↦ elim (Bool-cases (leb (rest_of_prompt q) chunk_size)) [
    | inl last ↦ rw busy (rw last refl)
    | inr more ↦ rw busy (rw more refl)
  ]
]

Prefilled-nil :
    (chunk_size : ℕ) (s : Scheduler) (out : StepOutput) → Prefilled chunk_size [] s out out
Prefilled-nil chunk_size s out = record {
  entries = λ c. let e : (occ c [] == 0) ≡ true = ground (arith, occ-nil c) in rw e refl;
  firsts = λ c. let e : (occ c [] == 0) ≡ true = ground (arith, occ-nil c) in rw e refl;
}

Prefilled-cons :
    (chunk_size r : ℕ) (rs : List ℕ) (s t : Scheduler) (out next out' : StepOutput)
    → Undisturbed s t
    → Chunk chunk_size r s out next
    → Prefilled chunk_size rs t next out'
    → Prefilled chunk_size (r ∷ rs) s out out'
Prefilled-cons chunk_size r rs s t out next out' h k q = record {
  entries = λ c.
      two_rounds r c rs (with_chunk_entry chunk_size (s.requests c)) (out.prefilled c)
        (next.prefilled c) (out'.prefilled c)
        (with_chunk_entry_twice chunk_size (s.requests c) (out.prefilled c)) (k.entry c)
        (q.entries c
          ∙ ap
              (λ x.
                if occ c rs == 0
                then next.prefilled c
                else with_chunk_entry chunk_size x (next.prefilled c))
              (h.same_requests c));
  firsts = λ c.
      two_rounds r c rs (with_chunk_token chunk_size (s.requests c)) (is_some (out.tokens c))
        (is_some (next.tokens c)) (is_some (out'.tokens c))
        (with_chunk_token_twice chunk_size (s.requests c) (is_some (out.tokens c))) (k.first c)
        (q.firsts c
          ∙ ap
              (λ x.
                if occ c rs == 0
                then is_some (next.tokens c)
                else with_chunk_token chunk_size x (is_some (next.tokens c)))
              (h.same_requests c));
}

module _ (P Q : StepOutput → Type 0) (s : Scheduler) where
  Ends-later :
      (t : Scheduler) (run run' : Result StepOutput × Scheduler)
      → Undisturbed s t
      → run' ≡ run
      → Ends Q t run
      → Ends Q s run'
  Ends-later t run run' h e (u, h', result) = (
    u,
    Undisturbed-trans s t u h h',
    elim result [
      | inl (x, failed) ↦ inl (x, e ∙ failed)
      | inr (out, came, q) ↦ inr (out, e ∙ came, q)
    ],
  )

  pub Ends-bind :
      (m : Action Scheduler StepOutput) (f : StepOutput → Action Scheduler StepOutput)
      → Ends P s (m s)
      → ((t : Scheduler) (out : StepOutput) → Undisturbed s t → P out → Ends Q t (f out t))
      → Ends Q s ((m >>= f) s)
  Ends-bind m f (t, h, result) k = elim result [
    | inl (x, failed) ↦ (t, h, inl (x, ap (λ p. and_then p.0 f p.1) failed))
    | inr (out, came, p) ↦
        Ends-later t (f out t) ((m >>= f) s) h (ap (λ p. and_then p.0 f p.1) came) (k t out h p)
  ]

module _ (P Q : StepOutput → Type 0) (s : Scheduler) (run : Result StepOutput × Scheduler) where
  pub Ends-map : ((out : StepOutput) → P out → Q out) → Ends P s run → Ends Q s run
  Ends-map f (u, h, result) = (
    u,
    h,
    elim result [ inl failed ↦ inl failed | inr (out, came, p) ↦ inr (out, came, f out p) ],
  )

pub prefill_all-Ends :
    (decoder : Decoder) (chunk_size : ℕ) (rs : List ℕ) (out : StepOutput) (s : Scheduler)
    → Ends (Prefilled chunk_size rs s out) s (prefill_all decoder chunk_size rs out s)
unfolding prefill_all
prefill_all-Ends decoder chunk_size [] out s =
    (s, Undisturbed-refl s, inr (out, refl, Prefilled-nil chunk_size s out))
prefill_all-Ends decoder chunk_size (r ∷ rs) out s =
    Ends-bind (Chunk chunk_size r s out) (Prefilled chunk_size (r ∷ rs) s out) s
      (prefill_one decoder chunk_size r out) (prefill_all decoder chunk_size rs)
      (prefill_one-Ends decoder chunk_size r out s)
      (λ t next h k.
        Ends-map (Prefilled chunk_size rs t next) (Prefilled chunk_size (r ∷ rs) s out) t
          (prefill_all decoder chunk_size rs next t)
          (λ out' q. Prefilled-cons chunk_size r rs s t out next out' h k q)
          (prefill_all-Ends decoder chunk_size rs next t))
