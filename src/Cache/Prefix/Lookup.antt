-- ===== src/Cache/Prefix/Lookup.antt =====
-- `lookup` of edgerag/cache/prefix.py against a search that moves nothing.
use edgerag.Prelude.{
  Option-cases, List, Option, ℕ, ◌≡◌, ◌≤◌, ◌<◌, inl, [], none, length, ok, inr, ◌*◌, refl, some,
  arith, ◌+◌, ap, ◌∙◌, sym, subst,
}
use edgerag.Cache.Allocator.{Allocator, refs, num_free}
use edgerag.Cache.Allocator.Invariant.{IsWellFormed, Gains}
use edgerag.Cache.Allocator.Incref.{AllLive, incref_adds}
use edgerag.Cache.Prefix.{
  PrefixCache, PrefixStats, Entry, find_entry, match_blocks, move_to_end, take_references, lookup,
  block_hashes, set_entries, count_lookup, ◌∷◌,
}
use edgerag.Cache.Prefix.Entries.{keys, entry_blocks, move_to_end-counts, find_entry-move_to_end}
use edgerag.Cache.Prefix.Pinned.{IsPinned, find_entry-occ}
use edgerag.Prelude.Counting.{occ, occ-nil}

-- The blocks that the entries have for the hashes, up to the first hash that is not there.
abbrev pub leading_blocks : List (ℕ × List ℕ) → List Entry → List ℕ
leading_blocks [] es = []
leading_blocks (h ∷ hs) es = elim (find_entry h.0 es) [
  | none ↦ []
  | some b ↦ b ∷ leading_blocks hs es
]

leading_blocks-miss :
    (h : ℕ × List ℕ) (hs : List (ℕ × List ℕ)) (es : List Entry)
    → find_entry h.0 es ≡ none
    → leading_blocks (h ∷ hs) es ≡ []
leading_blocks-miss h hs es e = rw (e, leading_blocks) refl

pub leading_blocks-hit :
    (h : ℕ × List ℕ) (b : ℕ) (hs : List (ℕ × List ℕ)) (es : List Entry)
    → find_entry h.0 es ≡ some b
    → leading_blocks (h ∷ hs) es ≡ b ∷ leading_blocks hs es
leading_blocks-hit h b hs es e = rw (e, leading_blocks) refl

match_miss :
    (h : ℕ × List ℕ) (hs : List (ℕ × List ℕ)) (es : List Entry)
    → find_entry h.0 es ≡ none
    → match_blocks (h ∷ hs) es ≡ ([], es)
unfolding match_blocks
match_miss h hs es e = rw (e, match_blocks) refl

match_hit :
    (h : ℕ × List ℕ) (b : ℕ) (hs : List (ℕ × List ℕ)) (es : List Entry)
    → find_entry h.0 es ≡ some b
    → match_blocks (h ∷ hs) es
      ≡ (let rest = match_blocks hs (move_to_end h.0 b es) in (b ∷ rest.0, rest.1))
unfolding match_blocks
match_hit h b hs es e = rw (e, match_blocks) refl

leading_blocks-congr :
    (hs : List (ℕ × List ℕ)) (es fs : List Entry)
    → ((k : ℕ) → find_entry k es ≡ find_entry k fs)
    → leading_blocks hs es ≡ leading_blocks hs fs
leading_blocks-congr [] es fs same = refl
leading_blocks-congr (h ∷ hs) es fs same =
    let rest = leading_blocks-congr hs es fs same in
    elim (Option-cases (find_entry h.0 es)) [
      | inl miss ↦
          leading_blocks-miss h hs es miss
          ∙ sym (leading_blocks-miss h hs fs (sym (same h.0) ∙ miss))
      | inr (b, hit) ↦
          leading_blocks-hit h b hs es hit
          ∙ ap (◌∷◌ b) rest
          ∙ sym (leading_blocks-hit h b hs fs (sym (same h.0) ∙ hit))
    ]

-- The entries after the loop of `lookup` are the same, in another order.
record SameEntries (es fs : List Entry) : Type 0 where
  same_blocks : (b : ℕ) → occ b (entry_blocks fs) ≡ occ b (entry_blocks es)
  same_keys : (k : ℕ) → occ k (keys fs) ≡ occ k (keys es)
  same_length : length fs ≡ length es
  same_found : (k : ℕ) → find_entry k fs ≡ find_entry k es

match_blocks_lem :
    (hs : List (ℕ × List ℕ)) (es : List Entry)
    → ((k : ℕ) → occ k (keys es) ≤ 1)
    → ((match_blocks hs es).0 ≡ leading_blocks hs es) × SameEntries es (match_blocks hs es).1
unfolding match_blocks
match_blocks_lem [] es once = (
  refl,
  record {
    same_blocks = λ b. refl;
    same_keys = λ k. refl;
    same_length = refl;
    same_found = λ k. refl;
  },
)
match_blocks_lem (h ∷ hs) es once = elim (Option-cases (find_entry h.0 es)) [
  | inl miss ↦
      subst (λ r. (r.0 ≡ leading_blocks (h ∷ hs) es) × SameEntries es r.1)
        (sym (match_miss h hs es miss))
        (
          sym (leading_blocks-miss h hs es miss),
          record {
            same_blocks = λ b. refl;
            same_keys = λ k. refl;
            same_length = refl;
            same_found = λ k. refl;
          },
        )
  | inr (b, hit) ↦
      let fs = move_to_end h.0 b es in
      let moved : (c k : ℕ)
          → (occ c (entry_blocks fs) ≡ occ c (entry_blocks es))
            × (occ k (keys fs) ≡ occ k (keys es))
            × (length fs ≡ length es) =
        λ c k. move_to_end-counts h.0 b c k es hit in
      let found : (k : ℕ) → find_entry k fs ≡ find_entry k es =
        λ k. find_entry-move_to_end h.0 b k es hit (once h.0) in
      let (run, same) = match_blocks_lem hs fs (λ k. omega (arith, once k, (moved 0 k).1)) in
      subst (λ r. (r.0 ≡ leading_blocks (h ∷ hs) es) × SameEntries es r.1)
        (sym (match_hit h b hs es hit))
        (
          ap (◌∷◌ b) (run ∙ leading_blocks-congr hs fs es found)
              ∙ sym (leading_blocks-hit h b hs es hit),
          record {
            same_blocks = λ c. same.same_blocks c ∙ (moved c 0).0;
            same_keys = λ k. same.same_keys k ∙ (moved 0 k).1;
            same_length = same.same_length ∙ (moved 0 0).2;
            same_found = λ k. same.same_found k ∙ found k;
          },
        )
]

leading_blocks-AllLive :
    (pool : Allocator) (hs : List (ℕ × List ℕ)) (es : List Entry)
    → ((b : ℕ) → 0 < occ b (entry_blocks es) → 0 < refs pool b)
    → AllLive pool (leading_blocks hs es)
leading_blocks-AllLive pool [] es live = tt
leading_blocks-AllLive pool (h ∷ hs) es live = elim (Option-cases (find_entry h.0 es)) [
  | inl miss ↦ rw (miss, leading_blocks) tt
  | inr (b, hit) ↦
      rw (hit, leading_blocks)
        (live b (find_entry-occ h.0 b es hit), leading_blocks-AllLive pool hs es live)
]

zero_times : (n : ℕ) → 0 ≡ 0 * n
zero_times n = omega arith

take_references_lem :
    (bs : List ℕ) (s : PrefixCache)
    → IsWellFormed s.pool
    → AllLive s.pool bs
    → (p : Allocator) × (t : PrefixStats) × (take_references bs s
        ≡ (ok (bs, length bs * s.pool.block_size), record s { pool = p; stats = t }))
      × Gains s.pool bs p
      × (num_free p ≡ num_free s.pool)
unfolding take_references
take_references_lem [] s wf live = (
  s.pool,
  s.stats,
  ap (λ n. (ok ([], n), s)) (zero_times s.pool.block_size),
  record {
    well_formed = wf;
    shape = record { same_blocks = refl; same_size = refl };
    counts = λ b. omega (arith, occ-nil b);
  },
  refl,
)
take_references_lem (b ∷ bs) s wf live =
    let (p, e, g, free) = incref_adds s.pool (b ∷ bs) wf live in
    (
      p,
      record s.stats {
        hits = s.stats.hits + 1;
        blocks_reused = s.stats.blocks_reused + length (b ∷ bs);
        tokens_reused = s.stats.tokens_reused + length (b ∷ bs) * p.block_size;
      },
      rw e refl,
      g,
      free,
    )

-- `lookup(token_ids)` of a cache that owns one reference for each of its entries always returns
-- normally. It returns the blocks that the entries have for the chained hashes of the prompt's full
-- blocks, up to the first hash without an entry, and the number of tokens in those blocks. The
-- caller gets one reference for each returned block, and the cache keeps its own; every later search
-- finds what it found before, and no block is taken from the pool.
pub lookup_lem :
    (chain_hash : Option ℕ → List ℕ → ℕ) (outside : ℕ → ℕ) (token_ids : List ℕ) (s : PrefixCache)
    → IsPinned outside s
    → let matched = leading_blocks (block_hashes chain_hash token_ids s) s.entries in
      (s' : PrefixCache) × (lookup chain_hash token_ids s
        ≡ (ok (matched, length matched * s.pool.block_size), s'))
      × IsPinned (λ b. outside b + occ b matched) s'
      × ((h : ℕ) → find_entry h s'.entries ≡ find_entry h s.entries)
      × (num_free s'.pool ≡ num_free s.pool)
unfolding lookup
lookup_lem chain_hash outside token_ids s k =
    let hs = block_hashes chain_hash token_ids s in
    let (run, same) = match_blocks_lem hs s.entries k.distinct in
    let live : AllLive s.pool (leading_blocks hs s.entries) =
      leading_blocks-AllLive s.pool hs s.entries (λ b l. omega (arith, k.counts b)) in
    let t = set_entries (match_blocks hs s.entries).1 (count_lookup s) in
    let (p, stats, e, g, free) =
      take_references_lem (leading_blocks hs s.entries) t k.well_formed live in
    (
      record t { pool = p; stats = stats },
      rw run e,
      record {
        well_formed = g.well_formed;
        counts = λ b. omega (arith, g.counts b, k.counts b, same.same_blocks b);
        distinct = λ c. omega (arith, k.distinct c, same.same_keys c);
        bounded = omega (arith, k.bounded, same.same_length);
      },
      same.same_found,
      free,
    )
