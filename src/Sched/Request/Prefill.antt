-- ===== src/Sched/Request/Prefill.antt =====
-- Chunked prefill of edgerag/sched/request.py: the slices handed out make up the prompt.
use edgerag.Prelude.{
  ℤ, ℕ, Action, List, pure, ◌>>=◌, get, [], lift, suc, ◌>>◌, pos, length, true, false, ok, ◌∷◌, ◌<◌,
  ◌≤◌, min, take, ◌≡◌, ◌++◌, ◌+◌, drop, arith, leb, ◌*◌, ◌-◌, length-take, ap, length-drop, sym,
  drop-drop, drop_all, ◌∙◌, range_cases, take-append-drop, inr, inl, zero,
}
use edgerag.Sched.Request.{Request, prompt_len, next_prefill_chunk, advance_prefill, prefill_done}

-- One round of prefill: the next chunk is computed, and only then is the offset advanced.
unfoldable pub prefill_round : ℤ → Action Request (List ℕ)
prefill_round chunk_size = do
  r ← get
  chunk ← lift (next_prefill_chunk chunk_size r)
  advance_prefill (pos (length chunk))
  pure chunk

-- The rounds up to the end of the prompt: the chunks in order, with a bound on their number.
unfoldable pub prefill_rounds : ℕ → ℤ → Action Request (List (List ℕ))
unfolding prefill_round
prefill_rounds zero chunk_size r = (ok [], r)
prefill_rounds (suc n) chunk_size r = elim (prefill_done r) [
  | true ↦ (ok [], r)
  | false ↦
      (do
        chunk ← prefill_round chunk_size
        chunks ← prefill_rounds n chunk_size
        pure (chunk ∷ chunks))
        r
]

abbrev pub concat {ℓ} : {A : Type ℓ} → List (List A) → List A
concat [] = []
concat (x ∷ xs) = x ++ concat xs

-- The chunks are not empty and no longer than asked for.
abbrev pub ChunksFit : ℕ → List (List ℕ) → Type 0
ChunksFit c [] = Unit {0}
ChunksFit c (x ∷ xs) = (0 < length x) × (length x ≤ c) × ChunksFit c xs

module _ (c : ℕ) (positive : 0 < c) (r : Request)
    (unfinished : r.prefill_offset < prompt_len r) where
  abbrev size : ℕ
  size = min (r.prefill_offset + c) (prompt_len r) - r.prefill_offset

  abbrev chunk : List ℕ
  chunk = take size (drop r.prefill_offset r.prompt_token_ids)

  length-chunk : length chunk ≡ size
  length-chunk = omega (
    arith,
    length-take size (drop r.prefill_offset r.prompt_token_ids),
    length-drop r.prefill_offset r.prompt_token_ids,
  )

  size_bounds : (0 < size) × (size ≤ c) × (r.prefill_offset + size ≤ prompt_len r)
  size_bounds = omega arith

  abbrev advanced : Request
  advanced = record r { prefill_offset = r.prefill_offset + size }

  prefill_round_runs : prefill_round (pos c) r ≡ (ok chunk, advanced)
  unfolding prefill_round next_prefill_chunk advance_prefill
  prefill_round_runs = ground (arith, length-chunk)

  chunk_continues :
      chunk ++ drop (r.prefill_offset + size) r.prompt_token_ids
      ≡ drop r.prefill_offset r.prompt_token_ids
  chunk_continues =
      ap (λ xs. chunk ++ xs) (sym (drop-drop size r.prefill_offset r.prompt_token_ids))
      ∙ take-append-drop size (drop r.prefill_offset r.prompt_token_ids)

  prefill_rounds_step :
      (n : ℕ) (chunks : List (List ℕ)) (r' : Request)
      → prefill_rounds n (pos c) advanced ≡ (ok chunks, r')
      → prefill_rounds (suc n) (pos c) r ≡ (ok (chunk ∷ chunks), r')
  unfolding prefill_rounds
  prefill_rounds_step n chunks r' e =
      let going : leb (prompt_len r) r.prefill_offset ≡ false = ground arith in
      rw (going, prefill_rounds) (rw prefill_round_runs (rw e))

-- With enough rounds, chunked prefill at a positive chunk size returns normally and ends exactly at
-- the end of the prompt: the chunks put together are the part of the prompt from the old offset on,
-- none is empty, none is longer than the chunk size, and of the request only the offset has changed.
pub prefill_rounds_lem :
    (n c : ℕ) (r : Request)
    → 0 < c
    → r.prefill_offset ≤ prompt_len r
    → prompt_len r ≤ r.prefill_offset + n * c
    → (chunks : List (List ℕ)) × (prefill_rounds n (pos c) r
        ≡ (ok chunks, record r { prefill_offset = prompt_len r }))
      × (concat chunks ≡ drop r.prefill_offset r.prompt_token_ids)
      × ChunksFit c chunks
unfolding prefill_rounds
prefill_rounds_lem zero c r h inside enough =
    ([], ground arith, sym (drop_all r.prefill_offset r.prompt_token_ids (omega arith)), tt)
prefill_rounds_lem (suc n) c r h inside enough =
    elim (range_cases r.prefill_offset (prompt_len r)) [
      | inr done ↦ ([], ground arith, sym (drop_all r.prefill_offset r.prompt_token_ids done), tt)
      | inl unfinished ↦
          let (chunks, e, whole, fit) =
            prefill_rounds_lem n c (advanced c h r unfinished) h (omega arith) (grind arith) in
          (
            chunk c h r unfinished ∷ chunks,
            prefill_rounds_step c h r unfinished n chunks _ e,
            ap (λ xs. chunk c h r unfinished ++ xs) whole ∙ chunk_continues c h r unfinished,
            (
              omega (arith, length-chunk c h r unfinished, size_bounds c h r unfinished),
              omega (arith, length-chunk c h r unfinished, size_bounds c h r unfinished),
              fit,
            ),
          )
    ]
