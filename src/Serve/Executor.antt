-- ===== src/Serve/Executor.antt =====
-- edgerag/serve/executor.py: a scheduled batch, executed request by request. The decoder is a
-- parameter: from token ids, on the block table of one request and the pool, it returns the token with
-- the greatest logit at the last position, or raises; its own calls of the cache change the table and
-- the pool. Embeddings that come with a request are left out, as in the request.
pub mod Undisturbed
pub mod Outputs
pub mod Prefills
pub mod Batches
pub mod Arena
use edgerag.Cache.BlockTable
use edgerag.Prelude.{
  List, ℕ, Option, Action, if◌then◌else◌, none, min, ◌-◌, ◌==◌, pos, ◌∷◌, err, pure, ◌>>=◌, some,
  get, ◌+◌, leb, ok, runtime_error, [], slice, ◌>>◌, throw, suc, ◌*◌, zero, Result, index_error,
  length,
}
use edgerag.Serve.Engine.{StepOutput, on_scheduler, Executor}
use edgerag.Cache.BlockTable.{BlockTable, View, empty_table}
use edgerag.Sched.Scheduler.State.{Scheduler, set_request}
use edgerag.Sched.Request.{Request, prompt_len}
use edgerag.Core.Spec.{ModelSpec}
use edgerag.Cache.Allocator.{Allocator}

abbrev pub Decoder : Type 0
Decoder = List ℕ → Action View ℕ

abbrev pub given_cache : ℕ → Option BlockTable → Scheduler → Scheduler
given_cache r none s = set_request r (record (s.requests r) { cache = some empty_table }) s
given_cache r (some _) s = s

-- `_cache_for`: a request without a cache is given an empty one.
unfoldable pub cache_for : ℕ → Scheduler → Scheduler
cache_for r s = given_cache r (s.requests r).cache s

abbrev pub table_of : Option BlockTable → BlockTable
table_of none = empty_table
table_of (some t) = t

-- A call on the request's table and the pool; both are as it left them.
unfoldable pub on_cache : {A : Type 0} → ℕ → Action View A → Action Scheduler A
on_cache r m s =
    let (result, v) = m (record { pool = s.pool; table = table_of (s.requests r).cache }) in
    (
      result,
      set_request r (record (s.requests r) { cache = some v.table }) (record s { pool = v.pool }),
    )

-- `cache.table.ensure_capacity(cache.seq_len + n)` and the forward pass.
unfoldable pub forward : Decoder → ℕ → List ℕ → Action View ℕ
forward decoder n tokens = do
  v ← get
  BlockTable.ensure_capacity (pos (v.table.num_tokens + n))
  decoder tokens

abbrev pub chunk_end : ℕ → Request → ℕ
chunk_end chunk_size q = min (q.prefill_offset + chunk_size) (prompt_len q)

abbrev pub chunk_length : ℕ → Request → ℕ
chunk_length chunk_size q = chunk_end chunk_size q - q.prefill_offset

-- An assignment to a key of a dictionary.
abbrev pub assign_key : {A : Type 0} → ℕ → A → (ℕ → Option A) → ℕ → Option A
assign_key r a d k = if r == k then some a else d k

-- `output.prefilled[...] = n_tokens`, and the first token, if this is the last chunk.
abbrev pub chunk_output : ℕ → ℕ → Request → ℕ → StepOutput → StepOutput
chunk_output chunk_size r q token out = record {
  prefilled = assign_key r (pos (chunk_length chunk_size q)) out.prefilled;
  tokens =
      if leb (prompt_len q) (chunk_end chunk_size q)
      then assign_key r token out.tokens
      else out.tokens;
}

-- The next chunk of a request with a cache goes through the decoder.
unfoldable pub run_chunk : Decoder → ℕ → ℕ → Action Scheduler ℕ
unfolding on_cache forward
run_chunk decoder chunk_size r s =
    let q = s.requests r in
    let tokens = slice q.prefill_offset (chunk_end chunk_size q) q.prompt_token_ids in
    on_cache r (forward decoder (chunk_length chunk_size q) tokens) s

-- The body of the loop over the prefilling requests.
unfoldable pub prefill_one : Decoder → ℕ → ℕ → StepOutput → Action Scheduler StepOutput
unfolding cache_for run_chunk
prefill_one decoder chunk_size r out s =
    let t = cache_for r s in
    if chunk_length chunk_size (t.requests r) == 0
    then (ok out, t)
    else (do
      token ← run_chunk decoder chunk_size r
      pure (chunk_output chunk_size r (t.requests r) token out))
        t

abbrev pub last_token : List ℕ → Option ℕ
last_token [] = none
last_token (x ∷ []) = some x
last_token (x ∷ y ∷ xs) = last_token (y ∷ xs)

-- The last generated token of a request with a cache goes through the decoder. Without one,
-- RuntimeError is raised.
unfoldable pub run_token : Decoder → ℕ → Option ℕ → Action Scheduler ℕ
unfolding on_cache forward
run_token decoder r none = throw runtime_error
run_token decoder r (some last) = on_cache r (forward decoder 1 (last ∷ []))

-- The body of the loop over the decoding requests.
unfoldable pub decode_one : Decoder → ℕ → StepOutput → Action Scheduler StepOutput
unfolding cache_for run_token
decode_one decoder r out s =
    let t = cache_for r s in
    (do
      token ← run_token decoder r (last_token (t.requests r).generated_token_ids)
      pure (record out { tokens = assign_key r token out.tokens }))
      t

unfoldable pub prefill_all : Decoder → ℕ → List ℕ → StepOutput → Action Scheduler StepOutput
unfolding prefill_one
prefill_all decoder chunk_size [] out = pure out
prefill_all decoder chunk_size (r ∷ rs) out = do
  next ← prefill_one decoder chunk_size r out
  prefill_all decoder chunk_size rs next

unfoldable pub decode_all : Decoder → List ℕ → StepOutput → Action Scheduler StepOutput
unfolding decode_one
decode_all decoder [] out = pure out
decode_all decoder (r ∷ rs) out = do next ← decode_one decoder r out; decode_all decoder rs next

abbrev pub no_output : StepOutput
no_output = record { tokens = λ r. none; prefilled = λ r. none }

unfoldable pub execute : Decoder → ℕ → Executor
unfolding prefill_all decode_all
execute decoder chunk_size b = do
  out ← prefill_all decoder chunk_size b.prefill no_output
  decode_all decoder b.decode out

-- The shape of one of the tensors of the arena.
abbrev pub pool_shape : {F : Type 0} → ModelSpec F → Allocator → List ℕ
pool_shape spec a = spec.n_kv_heads ∷ a.num_blocks ∷ a.block_size ∷ spec.head_dim ∷ []

abbrev pub repeat : {A : Type 0} → ℕ → A → List A
repeat zero x = []
repeat (suc n) x = x ∷ repeat n x

-- The tensors of `key_pool`, one for each layer, by their shapes.
abbrev pub key_pool : {F : Type 0} → ModelSpec F → Allocator → List (List ℕ)
key_pool spec a = repeat spec.n_layers (pool_shape spec a)

-- `numel` of a tensor of a shape.
abbrev pub numel : List ℕ → ℕ
numel [] = 1
numel (n ∷ shape) = n * numel shape

-- `pool_bytes`, where a number of the arena takes `element_size` bytes: without a layer there is no
-- first tensor.
abbrev pub tensor_bytes : ℕ → List (List ℕ) → Result ℕ
tensor_bytes element_size [] = err index_error
tensor_bytes element_size (first ∷ rest) =
    ok (numel first * element_size * length (first ∷ rest) * 2)

unfoldable pub pool_bytes : {F : Type 0} → ℕ → ModelSpec F → Allocator → Result ℕ
pool_bytes element_size spec a = tensor_bytes element_size (key_pool spec a)
