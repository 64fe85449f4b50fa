-- ===== src/Sched/Scheduler/StopRule.antt =====
-- `append_token` and `should_stop` of edgerag/sched/request.py, by what a request had before.
use edgerag.Prelude.{
  ℕ, Option, ◌++◌, ◌≡◌, List, some, ◌∷◌, Option-cases, ◌≤◌, true, [], inl, length, ◌⊎◌, none, inr,
  ◌+◌, ◌==◌, ◌≢◌, false, Bool-cases, length-append, refl, arith, leb, ap, sym, ◌∙◌,
}
use edgerag.Sched.Request.{Request, append_token, last_is, ends_with_eos}
use edgerag.Sched.Scheduler.State.{Scheduler}
use edgerag.Sched.Request

-- The first of a step that is there already and the present one.
pub first_step : Option ℕ → ℕ → ℕ
first_step none now = now
first_step (some step) now = step

-- The request after it got a token.
abbrev pub with_token : ℕ → ℕ → Scheduler → Request
with_token r token_id s = record (s.requests r) {
  generated_token_ids = (s.requests r).generated_token_ids ++ token_id ∷ [];
  first_token_step = some (first_step (s.requests r).first_token_step s.step_index);
}

pub append_token-eq :
    (r token_id : ℕ) (s : Scheduler)
    → append_token token_id s.step_index (s.requests r) ≡ with_token r token_id s
unfolding append_token first_step
append_token-eq r token_id s = elim (Option-cases (s.requests r).first_token_step) [
  | inl e ↦ rw e refl
  | inr (x, e) ↦ rw e refl
]

-- The rule for the end of a request that has `old` and gets `token_id`: it then has as many tokens as
-- it may have, or the token is the end-of-sequence token.
abbrev pub IsLast : Option ℕ → ℕ → List ℕ → ℕ → Type 0
IsLast eos limit old token_id = (limit ≤ length old + 1) ⊎ (eos ≡ some token_id)

last_is-snoc : (old : List ℕ) (token_id t : ℕ) → last_is (old ++ token_id ∷ []) t ≡ (token_id == t)
last_is-snoc [] token_id t = refl
last_is-snoc (x ∷ []) token_id t = refl
last_is-snoc (x ∷ y ∷ xs) token_id t = last_is-snoc (y ∷ xs) token_id t

ends_with_eos-snoc :
    (eos : Option ℕ) (old : List ℕ) (token_id : ℕ)
    → ((eos ≡ some token_id) × (ends_with_eos eos (old ++ token_id ∷ []) ≡ true))
      ⊎ ((eos ≢ some token_id) × (ends_with_eos eos (old ++ token_id ∷ []) ≡ false))
ends_with_eos-snoc none old token_id = inr ((λ e. absurd (cc e)), refl)
ends_with_eos-snoc (some t) old token_id = elim (Bool-cases (token_id == t)) [
  | inl same ↦
      let e : token_id ≡ t = ground arith in
      inl (ap some (sym e), last_is-snoc old token_id t ∙ same)
  | inr other ↦ inr (
    (λ e. let f : t ≡ token_id = cc e in absurd (ground arith)),
    last_is-snoc old token_id t ∙ other,
  )
]

-- `should_stop` after a token, by the rule.
pub should_stop-decides :
    (r token_id : ℕ) (s : Scheduler)
    → let q = s.requests r in
      let stops = Request.should_stop s.config.eos_token_id (with_token r token_id s) in
      (IsLast s.config.eos_token_id q.max_new_tokens q.generated_token_ids token_id
        × (stops ≡ true))
      ⊎ ((¬ IsLast s.config.eos_token_id q.max_new_tokens q.generated_token_ids token_id)
          × (stops ≡ false))
unfolding Request.should_stop
should_stop-decides r token_id s =
    let old = (s.requests r).generated_token_ids in
    let limit = (s.requests r).max_new_tokens in
    let longer : length (old ++ token_id ∷ []) ≡ length old + 1 =
      length-append old (token_id ∷ []) in
    elim (Bool-cases (leb limit (length (old ++ token_id ∷ [])))) [
      | inl full ↦ inl (inl (ground arith), rw full refl)
      | inr room ↦ elim (ends_with_eos-snoc s.config.eos_token_id old token_id) [
        | inl (last, e) ↦ inl (inr last, rw room e)
        | inr (other, e) ↦
            inr (
              (λ h. elim h [ inl least ↦ absurd (ground arith) | inr last ↦ other last ]),
              rw room e,
            )
      ]
    ]
