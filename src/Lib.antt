-- ===== src/Lib.antt =====
-- edgerag serves a retrieval-augmented language model from a fixed amount of memory: the keys and
-- values of all sequences live in blocks of one preallocated pool, sequences share blocks until one
-- of them writes, and a scheduler decides in every iteration which requests run and who is admitted
-- or evicted. An engine runs the scheduler's batches on a thread of its own and streams the tokens out.
-- This development models the parts of it that decide about memory, order and delivery. Of the tensors
-- it models where the keys and values of a token are written, copied and read, and not their numbers.
--
-- Cache models edgerag/cache.
--   Cache.Allocator is BlockAllocator of edgerag/cache/allocator.py, one function per method; a loop
--   is a function on the list it runs through. Its children prove what the methods do: Invariant
--   (a well-formed pool), Fresh, Allocate, Free, Incref, Split (copy-on-write), Conservation, Check
--   (check_invariants) and Sizing.
--   Cache.BlockTable is BlockTable of edgerag/cache/block_table.py. A View is one table beside the
--   pool that it shares. Its children are Ownership (the pool's counts against one table and all
--   other holders), Locate, Growth, Unshare, Writes, Sharing and Calls.
--   Cache.Paged is PagedKVCache of edgerag/cache/paged.py. A cell stands for the key and the value of
--   one token in one layer, over all heads, since the code treats the two pools alike. Tabulate and
--   Gather say what a layer holds, Write and Private where a write goes, Update and Layer what one
--   call of update does, Pass and Whole what the calls of all layers do, in the order of the decoder.
--   Cache.Naive is NaiveKVCache of edgerag/cache/naive.py; Pass has the same calls on it, and Agreement
--   sets the two caches side by side.
--   Cache.Preemption is edgerag/cache/preemption.py: Victims has the choice of whom to evict, Mismatch
--   a swap that cannot be undone.
--   Cache.Prefix is PrefixCache of edgerag/cache/prefix.py: Entries and Pinned have its dictionary and
--   the references that it owns, Eviction, Clear, Lookup and Register its operations, Chaining
--   the keys of two prompts, and Roundtrip a lookup behind a register.
--   Cache.Sequences has all tables on one pool: a step opens a sequence, calls a method of one, forks
--   one, or forgets an empty one, a call that raises included.
-- Sched models edgerag/sched.
--   Sched.Request is edgerag/sched/request.py; Prefill has the loop that feeds a prompt in chunks.
--   Sched.Scheduler is edgerag/sched/scheduler.py: State, Admission (schedule), Progress
--   (on_prefill_chunk, on_token, finish, end_step, reject) and Pressure (preempt_to_free,
--   try_allocate); Queues and Backing are its invariants, and Selection, Fifo, Release, StopRule,
--   Tokens, Requeue, Eviction and SelfEviction prove what its operations do. Starvation has the
--   requests that are never admitted, and Planned the scheduler on a pool of a planned size.
-- Core models edgerag/core: Spec is ModelSpec of edgerag/core/spec.py; Budget is
-- edgerag/core/budget.py, with Plan on the planned pool; Quant is the packing of
-- edgerag/core/quant.py, with Packing on what unpacking restores.
-- Serve.Engine is InferenceEngine of edgerag/serve/engine.py: Balance and Streams follow the events of
-- each stream, Reachable has the engine's life as turns of the event loop and the worker thread,
-- Failing and FailedStep an executor that raises, Shutdown the end.
-- Serve.Executor is ModelExecutor of edgerag/serve/executor.py: Undisturbed has what it leaves alone,
-- Outputs one request, Prefills and Batches the whole batch, and Arena the tensors that hold the pool
-- and what they cost.
-- Bench.Metrics is the edit distance of bench/metrics.py; Edits has the scripts of edits that it counts,
-- and Distance its rows.
-- Prelude has what they share: tests on numbers, lists, integers, counted occurrences, and the monad
-- of methods.
--
-- A method is an Action: from the object's state to a result, which is a value or the exception that
-- was raised, and the state after it. A state that an exception leaves behind is kept. Arguments that
-- the code tests for a sign are integers; every other number is a natural number. The free list is
-- kept with the end of the Python list, where blocks are taken and put back, as its head. In the
-- scheduler a request is named by a number, the heap `requests` maps the name to the object, and the
-- queues hold names, so that a change of a request is seen in all of them. The scheduler has no
-- preemptor, as the server builds it, and the cache of a request is its block table.
--
-- The hash of the prefix cache, sha256 of a text, is a parameter: a function of the parent's digest,
-- which is absent for ROOT_HASH, and the tokens. Where the keys of two prompts are compared, it is
-- taken to have no collisions.
--
-- Every loop runs through a list or a range but two: prefill_rounds, the repeated calls of
-- next_prefill_chunk and advance_prefill until the prompt is done, takes a number of rounds, and n
-- rounds of chunks of c are enough where the rest of the prompt is no longer than n * c; and
-- schedule_times, for which every number of rounds is considered.
--
-- The executor of the engine is a parameter: a function of the batch that returns an output or raises
-- and may change the scheduler's requests and pool. The decoder of the executor is one: a function of
-- the tokens, on one table and the pool. Callbacks are a log of events. The paged cache
-- serves one sequence, as the code does: it raises NotImplementedError for a larger batch. The size of
-- a number of the arena, which torch reports, is a parameter.
--
-- Sizes in bytes are natural numbers, a budget in GiB stands as its bytes, and floats and texts that are
-- only passed on are left out.
--
-- Not modelled: the numbers in the tensors (the layers, the quantisation itself, pruning), which are
-- floating-point code over torch; the compressed, batched and fused forms of the cache; retrieval, the
-- web application, the other benchmarks and scripts; and the reports to_dict, utilization,
-- internal_fragmentation, kv_report and to_markdown.
pub mod Prelude
pub mod Cache
pub mod Sched
pub mod Core
pub mod Serve
pub mod Bench
