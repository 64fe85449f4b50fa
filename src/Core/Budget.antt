-- ===== src/Core/Budget.antt =====
-- edgerag/core/budget.py: the size of the block pool that a memory budget leaves room for, and the
-- ledger of what the components take. `budget_bytes` is the budget of plan_pool_for_budget in bytes,
-- `int(budget_gib * GIB)`; the sizes in bytes are natural numbers.
pub mod Plan
use edgerag.Prelude.{
  ℕ, Bool, ℤ, List, ◌*◌, ◌+◌, leb, ◌-◌, pos, Result, ◌++◌, ◌∷◌, ◌/◌, negsuc, ◌-ℤ◌, [],
  if◌then◌else◌, err, ◌==◌, ok, memory_budget_exceeded, zero_division, ◌&&◌, ltb,
}

pub record PoolPlan : Type 0 where
  pub num_blocks : ℕ
  pub block_size : ℕ
  pub reserve_blocks : ℕ
  pub budget_bytes : ℕ
  pub weights_bytes : ℕ
  pub activation_bytes : ℕ
  pub kv_bytes_per_token : ℕ

abbrev pub pool_bytes : PoolPlan → ℕ
pool_bytes p = p.num_blocks * p.block_size * p.kv_bytes_per_token

abbrev pub total_bytes : PoolPlan → ℕ
total_bytes p = p.weights_bytes + p.activation_bytes + pool_bytes p

abbrev pub fits : PoolPlan → Bool
fits p = leb (total_bytes p) p.budget_bytes

-- The subtraction stops at 0, as `max(0, ...)` does.
abbrev pub max_prompt_tokens : PoolPlan → ℕ
max_prompt_tokens p = (p.num_blocks - p.reserve_blocks) * p.block_size

-- `a // b` for a positive `b`, rounded down.
abbrev pub floor_div_ℤ : ℤ → ℕ → ℤ
floor_div_ℤ (pos a) b = pos (a / b)
floor_div_ℤ (negsuc a) b = negsuc (a / b)

-- The plan for `num_blocks`, unless there is not one.
abbrev planned : ℤ → PoolPlan → Result PoolPlan
planned (negsuc _) p = err memory_budget_exceeded
planned (pos n) p = if ltb n 1 then err memory_budget_exceeded else ok (record p { num_blocks = n })

unfoldable pub plan_pool_for_budget : ℕ → ℕ → ℕ → ℕ → ℕ → ℕ → Result PoolPlan
plan_pool_for_budget kv_bytes weights activation budget block_size reserve =
    let spare = pos budget -ℤ pos weights -ℤ pos activation in
    let bytes_per_block = block_size * kv_bytes in
    if bytes_per_block == 0
    then err zero_division
    else planned (floor_div_ℤ spare bytes_per_block) (record {
      num_blocks = 0;
      block_size = block_size;
      reserve_blocks = reserve;
      budget_bytes = budget;
      weights_bytes = weights;
      activation_bytes = activation;
      kv_bytes_per_token = kv_bytes;
    })

-- An entry of the ledger: the component, by a number for its name, and its bytes.
pub record LedgerEntry : Type 0 where
  pub component : ℕ
  pub bytes : ℕ

pub record BudgetLedger : Type 0 where
  pub limit_bytes : ℕ
  pub entries : List LedgerEntry

unfoldable pub register : ℕ → ℕ → BudgetLedger → BudgetLedger
register component bytes s = record s {
  entries = s.entries ++ record { component = component; bytes = bytes } ∷ [];
}

-- The sum over the elements of a tensor list: `numel() * element_size()` of each.
abbrev pub sum_sizes : List (ℕ × ℕ) → ℕ
sum_sizes [] = 0
sum_sizes ((numel, element_size) ∷ rest) = numel * element_size + sum_sizes rest

-- `register_module`, of a module with these parameters and buffers.
unfoldable pub register_module : ℕ → List (ℕ × ℕ) → List (ℕ × ℕ) → BudgetLedger → BudgetLedger
unfolding register
register_module component parameters buffers s =
    register component (sum_sizes parameters + sum_sizes buffers) s

abbrev pub sum_bytes : List LedgerEntry → ℕ
sum_bytes [] = 0
sum_bytes (e ∷ rest) = e.bytes + sum_bytes rest

abbrev pub ledger_bytes : BudgetLedger → ℕ
ledger_bytes s = sum_bytes s.entries

-- `total_gib <= limit_gib`, with both in bytes.
abbrev pub within_budget : BudgetLedger → Bool
within_budget s = leb (ledger_bytes s) s.limit_bytes

-- `__exit__` of a MemoryBudget: the peak that was measured, the limit, whether it is strict, and
-- whether an exception is on its way.
abbrev pub exit_budget : ℕ → ℕ → Bool → Bool → Result (Unit {0})
exit_budget peak limit strict raising =
    if raising
    then ok tt
    else (if strict && ltb limit peak then err memory_budget_exceeded else ok tt)
