-- ===== src/Serve/Executor/Arena.antt =====
-- `pool_bytes` of edgerag/serve/executor.py against the budget of edgerag/core/budget.py.
use edgerag.Prelude.{
  ℕ, length, ◌<◌, ◌*◌, ◌≡◌, suc, arith, ok, ap, zero, refl, List, Result, ◌∙◌, zero_cases, ◌+◌, inr,
  ◌≤◌, inl, ◌==◌, true, sym,
}
use edgerag.Cache.Allocator.{Allocator}
use edgerag.Cache.Paged.{Paged, nbytes}
use edgerag.Core.Budget.{PoolPlan, plan_pool_for_budget}
use edgerag.Core.Budget.Plan.{plan_pool_for_budget_lem}
use edgerag.Core.Spec.{ModelSpec, Dtype, dtype_bytes, kv_bytes_per_token}
use edgerag.Serve.Executor.{pool_bytes, repeat, pool_shape, tensor_bytes, numel}
use edgerag.Core.Budget

length-repeat : {A : Type 0} (n : ℕ) (x : A) → length (repeat n x) ≡ n
length-repeat zero x = refl
length-repeat (suc n) x = ap suc (length-repeat n x)

-- The product of the dimensions, in the order of the tensors and in that of the plan.
reorder :
    (heads blocks size dim bytes layers : ℕ)
    → heads * (blocks * (size * (dim * 1))) * bytes * layers * 2
      ≡ blocks * (size * (2 * layers * heads * dim * bytes))
reorder heads blocks size dim bytes layers = grind arith

reorder_held :
    (heads held size dim bytes layers : ℕ)
    → 2 * held * (size * heads * dim) * bytes * layers
      ≡ held * (size * (2 * layers * heads * dim * bytes))
reorder_held heads held size dim bytes layers = grind arith

tensor_bytes-repeat :
    (n element_size : ℕ) (shape : List ℕ)
    → 0 < n
    → tensor_bytes element_size (repeat n shape) ≡ ok (numel shape * element_size * n * 2)
tensor_bytes-repeat zero element_size shape h = absurd (omega arith)
tensor_bytes-repeat (suc n) element_size shape h =
    ap (λ k. ok (numel shape * element_size * suc k * 2)) (length-repeat n shape)

ok_injective : {A : Type 0} (x y : A) → ◌≡◌ {A = Result A} (ok x) (ok y) → x ≡ y
ok_injective x y e = cc e

plan_bytes : (n size bytes : ℕ) → n * (size * bytes) ≡ n * size * bytes
plan_bytes n size bytes = grind arith

module _ {F : Type 0} (spec : ModelSpec F) (dtype : Dtype) where
  pool_bytes-kv_bytes_per_token :
      (a : Allocator)
      → 0 < spec.n_layers
      → pool_bytes (dtype_bytes dtype) spec a
        ≡ ok (a.num_blocks * (a.block_size * kv_bytes_per_token dtype spec))
  unfolding pool_bytes kv_bytes_per_token
  pool_bytes-kv_bytes_per_token a layers =
      tensor_bytes-repeat spec.n_layers (dtype_bytes dtype) (pool_shape spec a) layers
      ∙ ap ok (
          reorder spec.n_kv_heads a.num_blocks a.block_size spec.head_dim (dtype_bytes dtype)
            spec.n_layers)

  nbytes-kv_bytes_per_token :
      {A : Type 0} (c : Paged A)
      → c.n_pool_layers ≡ spec.n_layers
      → nbytes spec.n_kv_heads spec.head_dim (dtype_bytes dtype) c
        ≡ length c.view.table.blocks * (c.view.pool.block_size * kv_bytes_per_token dtype spec)
  unfolding nbytes kv_bytes_per_token
  nbytes-kv_bytes_per_token c all = rw all (
      reorder_held spec.n_kv_heads (length c.view.table.blocks) c.view.pool.block_size spec.head_dim
        (dtype_bytes dtype) spec.n_layers)

  no_plan :
      (weights activation budget block_size reserve : ℕ) (p : PoolPlan)
      → plan_pool_for_budget
          (kv_bytes_per_token dtype spec)
          weights
          activation
          budget
          block_size
          reserve
        ≡ ok p
      → 0 < block_size * kv_bytes_per_token dtype spec
  unfolding plan_pool_for_budget
  no_plan weights activation budget block_size reserve p e =
      elim (zero_cases (block_size * kv_bytes_per_token dtype spec)) [
        | inr h ↦ h
        | inl z ↦
            let d : (block_size * kv_bytes_per_token dtype spec == 0) ≡ true = ground arith in
            absurd (cc (rw d at e))
      ]

  -- Where a pool is planned for the bytes that the model specification counts for a token, and the
  -- executor of a model with at least one layer allocates its tensors for an allocator with the
  -- blocks of the plan, in numbers of the size that the specification counts: the tensors take what
  -- the plan says, so that weights, activation and the tensors are within the budget, and with one
  -- block more they would not be. A cache in these tensors reports for itself the bytes of one block of
  -- the plan for each block that it holds.
  pub pool_bytes_lem :
      {A : Type 0} (weights activation budget block_size reserve : ℕ) (p : PoolPlan) (c : Paged A)
      → 0 < spec.n_layers
      → plan_pool_for_budget
          (kv_bytes_per_token dtype spec)
          weights
          activation
          budget
          block_size
          reserve
        ≡ ok p
      → c.view.pool.num_blocks ≡ p.num_blocks
      → c.view.pool.block_size ≡ p.block_size
      → c.n_pool_layers ≡ spec.n_layers
      → (n : ℕ) × (pool_bytes (dtype_bytes dtype) spec c.view.pool ≡ ok n)
        × (n ≡ Budget.pool_bytes p)
        × (weights + activation + n ≤ budget)
        × (budget < weights + activation + n + block_size * kv_bytes_per_token dtype spec)
        × (nbytes spec.n_kv_heads spec.head_dim (dtype_bytes dtype) c
            ≡ length c.view.table.blocks * (block_size * kv_bytes_per_token dtype spec))
  pool_bytes_lem weights activation budget block_size reserve p c layers planned blocks size all =
      let per_token = kv_bytes_per_token dtype spec in
      let some = no_plan weights activation budget block_size reserve p planned in
      elim (plan_pool_for_budget_lem per_token weights activation budget block_size reserve some) [
        | inl (refused, _) ↦ absurd (cc (sym planned ∙ refused))
        | inr (p', e, _, same_size, _, _, _, _, same_bytes, within, beyond, _, _) ↦
            let same : p' ≡ p = ok_injective p' p (sym e ∙ planned) in
            let blocks' : c.view.pool.num_blocks ≡ p'.num_blocks =
              blocks ∙ ap (λ x. x.num_blocks) (sym same) in
            let size' : c.view.pool.block_size ≡ block_size =
              size ∙ ap (λ x. x.block_size) (sym same) ∙ same_size in
            let n = p'.num_blocks * (block_size * per_token) in
            let one_more : (p'.num_blocks + 1) * (block_size * per_token)
                ≡ n + block_size * per_token =
              grind arith in
            (
              n,
              pool_bytes-kv_bytes_per_token c.view.pool layers
                  ∙ ap (λ m. ok (m * (c.view.pool.block_size * per_token))) blocks'
                  ∙ ap (λ m. ok (p'.num_blocks * (m * per_token))) size',
              plan_bytes p'.num_blocks block_size per_token
                  ∙ ap (λ m. p'.num_blocks * m * per_token) (sym same_size)
                  ∙ ap (λ m. p'.num_blocks * p'.block_size * m) (sym same_bytes)
                  ∙ ap Budget.pool_bytes same,
              within,
              omega (arith, beyond, one_more),
              nbytes-kv_bytes_per_token c all
                  ∙ ap (λ m. length c.view.table.blocks * (m * per_token)) size',
            )
      ]
