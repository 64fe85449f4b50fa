-- ===== src/Sched/Request.antt =====
-- edgerag/sched/request.py: one generation request. `prompt_embeds`, a tensor that the scheduler only
-- hands on, is left out; the cache is the block table that `PagedKVCache.table` holds. Token counts
-- that the code tests for a sign are ℤ.
pub mod Prefill
use edgerag.Prelude.{
  ℕ, Bool, List, length, ◌+◌, ℤ, Option, none, true, leb, take, Result, Action, some, false,
  if◌then◌else◌, ◌-◌, negsuc, ◌++◌, ◌∷◌, sub_ℕ, drop, err, [], ◌==◌, value_error, pos, ok, ltb, min,
  slice,
}
use edgerag.Cache.BlockTable.{BlockTable}

pub data RequestState : Type 0 where
  waiting prefilling decoding swapped finished rejected : RequestState

-- `state in PREEMPTABLE`
abbrev pub is_preemptable : RequestState → Bool
is_preemptable prefilling = true
is_preemptable decoding = true
is_preemptable _ = false

-- `state in TERMINAL`
abbrev pub is_terminal_state : RequestState → Bool
is_terminal_state finished = true
is_terminal_state rejected = true
is_terminal_state _ = false

pub record Request : Type 0 where
  pub prompt_token_ids : List ℕ
  pub max_new_tokens : ℕ
  pub arrival_step : ℕ
  pub state : RequestState
  pub prefill_offset : ℕ
  pub generated_token_ids : List ℕ
  pub cache : Option BlockTable
  pub admitted_step : Option ℕ
  pub first_token_step : Option ℕ
  pub finished_step : Option ℕ
  pub preemptions : ℕ

abbrev pub prompt_len : Request → ℕ
prompt_len r = length r.prompt_token_ids

abbrev pub prefill_done : Request → Bool
prefill_done r = leb (prompt_len r) r.prefill_offset

abbrev pub num_generated : Request → ℕ
num_generated r = length r.generated_token_ids

abbrev pub total_tokens : Request → ℕ
total_tokens r = prompt_len r + num_generated r

abbrev pub is_terminal : Request → Bool
is_terminal r = is_terminal_state r.state

unfoldable pub next_prefill_chunk : ℤ → Request → Result (List ℕ)
next_prefill_chunk (negsuc _) r = err value_error
next_prefill_chunk (pos chunk_size) r =
    if leb chunk_size 0
    then err value_error
    else ok (
        slice r.prefill_offset (min (r.prefill_offset + chunk_size) (prompt_len r))
          r.prompt_token_ids)

unfoldable pub advance_prefill : ℤ → Action Request (Unit {0})
advance_prefill (negsuc _) r = (err value_error, r)
advance_prefill (pos n) r =
    if ltb (prompt_len r) (r.prefill_offset + n)
    then (err value_error, r)
    else (ok tt, record r { prefill_offset = r.prefill_offset + n })

unfoldable pub append_token : ℕ → ℕ → Request → Request
append_token token_id step r = record r {
  first_token_step = elim r.first_token_step [ none ↦ some step | some first ↦ some first ];
  generated_token_ids = r.generated_token_ids ++ token_id ∷ [];
}

abbrev pub last_is : List ℕ → ℕ → Bool
last_is [] t = false
last_is (x ∷ []) t = x == t
last_is (x ∷ y ∷ xs) t = last_is (y ∷ xs) t

-- The last generated token is the end-of-sequence token, if there is such a token at all.
abbrev pub ends_with_eos : Option ℕ → List ℕ → Bool
ends_with_eos none tokens = false
ends_with_eos (some eos) tokens = last_is tokens eos

unfoldable pub should_stop : Option ℕ → Request → Bool
should_stop eos r =
    if leb r.max_new_tokens (num_generated r) then true else ends_with_eos eos r.generated_token_ids

unfoldable pub mark_preempted : Request → Request
mark_preempted r = record r { state = swapped; preemptions = r.preemptions + 1 }

unfoldable pub reset_for_recompute : Request → Request
reset_for_recompute r = record r { prefill_offset = 0; cache = none; state = waiting }

-- `first_token_step - arrival_step`, once there is a first token.
unfoldable pub ttft_steps : Request → Option ℤ
ttft_steps r = elim r.first_token_step [
  | none ↦ none
  | some first ↦ some (sub_ℕ first r.arrival_step)
]
