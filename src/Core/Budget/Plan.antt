-- ===== src/Core/Budget/Plan.antt =====
-- edgerag/core/budget.py: the plan is the largest pool within the budget.
use edgerag.Prelude.{
  ℕ, ◌-ℤ◌, ◌<◌, ◌*◌, ◌≡◌, ◌+◌, ◌/◌, err, memory_budget_exceeded, true, ◌⊎◌, false, ok, ◌≤◌, arith,
  ◌-◌, ℤ, pos, negsuc, ◌==◌, Bool-cases, leb, inr, inl, ltb, refl,
}
use edgerag.Core.Budget.{plan_pool_for_budget, PoolPlan, fits, pool_bytes}

-- A plan for `n` blocks of `size` bytes, of a budget that leaves `spare` bytes.
pub planned-largest :
    (p : PoolPlan) (spare : ℕ)
    → 0 < p.block_size * p.kv_bytes_per_token
    → p.weights_bytes + p.activation_bytes + spare ≡ p.budget_bytes
    → p.num_blocks ≡ spare / (p.block_size * p.kv_bytes_per_token)
    → (fits p ≡ true) × (fits (record p { num_blocks = p.num_blocks + 1 }) ≡ false)
planned-largest p spare h e f =
    let size = p.block_size * p.kv_bytes_per_token in
    let least : spare / size * size ≤ spare = grind arith in
    let most : spare < (spare / size + 1) * size = grind arith in
    let whole : pool_bytes p ≡ spare / size * size = rw f (grind arith) in
    let next : pool_bytes (record p { num_blocks = p.num_blocks + 1 }) ≡ (spare / size + 1) * size =
      rw f (grind arith) in
    (ground arith, ground arith)

abbrev left_over : ℕ → ℕ → ℕ → ℤ
left_over budget weights activation = pos budget -ℤ pos weights -ℤ pos activation

left_over-enough :
    (budget weights activation : ℕ)
    → weights + activation ≤ budget
    → left_over budget weights activation ≡ pos (budget - weights - activation)
unfolding ◌-ℤ◌
left_over-enough budget weights activation h = ground arith

left_over-short :
    (budget weights activation : ℕ)
    → budget < weights + activation
    → (n : ℕ) × (left_over budget weights activation ≡ negsuc n)
unfolding ◌-ℤ◌
left_over-short budget weights activation h = (weights + activation - budget - 1, ground arith)

below : (w a spare budget m : ℕ) → w + a + spare ≡ budget → m ≤ spare → w + a + m ≤ budget
below w a spare budget m e h = omega arith

above : (w a spare budget m : ℕ) → w + a + spare ≡ budget → spare < m → budget < w + a + m
above w a spare budget m e h = omega arith

-- Where a block takes any memory at all, `plan_pool_for_budget` either raises MemoryBudgetExceeded,
-- and then weights, activation and one block are above the budget; or it returns a plan with at least
-- one block that keeps the arguments: weights, activation and the blocks together are within the
-- budget, so that `fits` holds, and with one block more they would be above it.
pub plan_pool_for_budget_lem :
    (kv_bytes weights activation budget block_size reserve : ℕ)
    → 0 < block_size * kv_bytes
    → ((plan_pool_for_budget kv_bytes weights activation budget block_size reserve
          ≡ err memory_budget_exceeded)
        × (budget < weights + activation + block_size * kv_bytes))
      ⊎ ((p : PoolPlan) × (plan_pool_for_budget kv_bytes weights activation budget block_size
              reserve
            ≡ ok p)
          × (0 < p.num_blocks)
          × (p.block_size ≡ block_size)
          × (p.reserve_blocks ≡ reserve)
          × (p.budget_bytes ≡ budget)
          × (p.weights_bytes ≡ weights)
          × (p.activation_bytes ≡ activation)
          × (p.kv_bytes_per_token ≡ kv_bytes)
          × (weights + activation + p.num_blocks * (block_size * kv_bytes) ≤ budget)
          × (budget < weights + activation + (p.num_blocks + 1) * (block_size * kv_bytes))
          × (fits p ≡ true)
          × (fits (record p { num_blocks = p.num_blocks + 1 }) ≡ false))
unfolding plan_pool_for_budget
plan_pool_for_budget_lem kv_bytes weights activation budget block_size reserve h =
    let size = block_size * kv_bytes in
    let spare = budget - weights - activation in
    let d : (size == 0) ≡ false = ground arith in
    elim (Bool-cases (leb (weights + activation) budget)) [
      | inr short ↦
          let (n, e) = left_over-short budget weights activation (ground arith) in
          inl (rw d (rw e refl), ground arith)
      | inl enough ↦
          let e = left_over-enough budget weights activation (ground arith) in
          elim (Bool-cases (ltb spare size)) [
            | inl small ↦
                let f : ltb (spare / size) 1 ≡ true = grind arith in
                inl (rw d (rw e (rw f refl)), ground arith)
            | inr large ↦
                let f : ltb (spare / size) 1 ≡ false = grind arith in
                let p : PoolPlan = record {
                  num_blocks = spare / size;
                  block_size = block_size;
                  reserve_blocks = reserve;
                  budget_bytes = budget;
                  weights_bytes = weights;
                  activation_bytes = activation;
                  kv_bytes_per_token = kv_bytes;
                } in
                let least : spare / size * size ≤ spare = grind arith in
                let most : spare < (spare / size + 1) * size = grind arith in
                let (within, beyond) = planned-largest p spare h (ground arith) refl in
                inr (
                  p,
                  rw d (rw e (rw f refl)),
                  ground arith,
                  refl,
                  refl,
                  refl,
                  refl,
                  refl,
                  refl,
                  below weights activation spare budget (spare / size * size) (ground arith) least,
                  above weights activation spare budget ((spare / size + 1) * size) (ground arith)
                      most,
                  within,
                  beyond,
                )
          ]
    ]
