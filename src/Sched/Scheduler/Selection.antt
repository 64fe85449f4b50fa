-- ===== src/Sched/Scheduler/Selection.antt =====
-- Which running requests `schedule` of edgerag/sched/scheduler.py puts into the batch.
use edgerag.Prelude.{
  ℕ, Bool, List, true, ◌∷◌, length, ◌≤◌, ◌≡◌, false, if◌then◌else◌, ◌<◌, ◌++◌, [], take, sym, ◌-◌,
  suc, arith, ap, length-append, ◌∙◌, take-nil,
}
use edgerag.Sched.Request.{RequestState, prefilling, decoding}
use edgerag.Sched.Scheduler.State.{Scheduler, Batch}
use edgerag.Sched.Scheduler.Admission.{place_running, place_all}
use mathlib.Core.List.{append-nil, append_assoc}

abbrev pub is_decoding : RequestState → Bool
is_decoding decoding = true
is_decoding _ = false

abbrev pub is_prefilling : RequestState → Bool
is_prefilling prefilling = true
is_prefilling _ = false

-- The requests of the list whose state passes the test, in order.
abbrev pub with_state : (RequestState → Bool) → Scheduler → List ℕ → List ℕ
with_state test s [] = []
with_state test s (r ∷ rs) =
    if test (s.requests r).state then r ∷ with_state test s rs else with_state test s rs

take_snoc :
    (n : ℕ) (xs ys : List ℕ) (x : ℕ)
    → length xs < n
    → (xs ++ x ∷ []) ++ take (n - length (xs ++ x ∷ [])) ys ≡ xs ++ take (n - length xs) (x ∷ ys)
take_snoc n xs ys x h =
    let e : n - length xs ≡ suc (n - length (xs ++ x ∷ [])) =
      omega (arith, length-append xs (x ∷ [])) in
    append_assoc xs (x ∷ []) (take (n - length (xs ++ x ∷ [])) ys)
    ∙ ap (λ k. xs ++ take k (x ∷ ys)) (sym e)

take_full : (n : ℕ) (xs ys : List ℕ) → n ≤ length xs → xs ++ take (n - length xs) ys ≡ xs
take_full n xs ys h =
    let e : 0 ≡ n - length xs = omega arith in ap (λ k. xs ++ take k ys) (sym e) ∙ append-nil xs

pub place_all-decode :
    (s : Scheduler) (rs : List ℕ) (b : Batch)
    → (place_all s rs b).decode ≡ b.decode ++ with_state is_decoding s rs
unfolding place_all place_running
place_all-decode s [] b = sym (append-nil b.decode)
place_all-decode s (r ∷ rs) b = ground (
  arith,
  place_all-decode s rs (place_running s b r),
  append_assoc b.decode (r ∷ []) (with_state is_decoding s rs),
)

pub place_all-prefill :
    (s : Scheduler) (rs : List ℕ) (b : Batch)
    → (place_all s rs b).prefill
      ≡ b.prefill
        ++ take (s.config.max_prefills_per_step - length b.prefill) (with_state is_prefilling s rs)
unfolding place_all place_running
place_all-prefill s [] b =
    let n = s.config.max_prefills_per_step - length b.prefill in
    sym (ap (λ xs. b.prefill ++ xs) (take-nil n) ∙ append-nil b.prefill)
place_all-prefill s (r ∷ rs) b = ground (
  arith,
  place_all-prefill s rs (place_running s b r),
  take_snoc s.config.max_prefills_per_step b.prefill (with_state is_prefilling s rs) r,
  take_full s.config.max_prefills_per_step b.prefill (with_state is_prefilling s rs),
  take_full s.config.max_prefills_per_step b.prefill (r ∷ with_state is_prefilling s rs),
)
