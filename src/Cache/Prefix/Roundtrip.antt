-- ===== src/Cache/Prefix/Roundtrip.antt =====
-- `register` and then `lookup` of edgerag/cache/prefix.py: a registered prompt is found.
use edgerag.Prelude.{
  Option-cases, List, leb, ℕ, Option, ◌<◌, ◌≡◌, length, inl, ◌+◌, ◌/◌, get_elem?, false, none, some,
  arith, ◌⊎◌, inr, ◌≤◌, ◌++◌, ◌∷◌, ok, suc, sym, ◌∙◌, ap, [], Bool-cases, eqb_refl, length-append,
  zero, refl, ◌==◌, subst, if◌then◌else◌,
}
use edgerag.Cache.Allocator.{refs}
use edgerag.Cache.Allocator.Incref.{incref_adds}
use edgerag.Cache.Prefix.{
  PrefixCache, Entry, find_entry, evict_loop, evict_if_needed, insert, register_loop, register,
  block_hashes, num_cached, hash_loop,
}
use edgerag.Cache.Prefix.Entries.{find_entry-snoc, find_entry-none}
use edgerag.Cache.Prefix.Pinned.{IsPinned}
use edgerag.Cache.Prefix.Lookup.{leading_blocks, leading_blocks-hit}
use edgerag.Cache.Prefix.Register.{get_elem?-live, add_entry_room, register_step, insert-IsPinned}
use edgerag.Prelude.Counting.{occ}

get_elem?-in_range : (xs : List ℕ) (i : ℕ) → i < length xs → (b : ℕ) × (get_elem? xs i ≡ some b)
get_elem?-in_range [] i h = absurd (omega arith)
get_elem?-in_range (x ∷ xs) zero h = (x, refl)
get_elem?-in_range (x ∷ xs) (suc i) h = get_elem?-in_range xs i (omega arith)

evict_loop-idle :
    (es : List Entry) (s : PrefixCache)
    → leb s.max_blocks (num_cached s) ≡ false
    → evict_loop es s ≡ (ok tt, s)
unfolding evict_loop
evict_loop-idle [] s e = refl
evict_loop-idle (x ∷ es) s e = rw (e, evict_loop) refl

evict_idle :
    (s : PrefixCache) → leb s.max_blocks (num_cached s) ≡ false → evict_if_needed s ≡ (ok tt, s)
unfolding evict_if_needed
evict_idle s e = evict_loop-idle s.entries s e

-- Every entry of `es` is found in `fs`.
abbrev pub Keeps : List Entry → List Entry → Type 0
Keeps es fs = (k : ℕ) → (find_entry k es ≡ none) ⊎ (find_entry k fs ≡ find_entry k es)

Keeps-trans : (es fs gs : List Entry) → Keeps es fs → Keeps fs gs → Keeps es gs
Keeps-trans es fs gs h h' k = elim (h k) [
  | inl missing ↦ inl missing
  | inr e ↦ elim (h' k) [ inl missing ↦ inl (sym e ∙ missing) | inr e' ↦ inr (e' ∙ e) ]
]

Keeps-found :
    (es fs : List Entry) (k b : ℕ)
    → Keeps es fs
    → find_entry k es ≡ some b
    → find_entry k fs ≡ some b
Keeps-found es fs k b h e = elim (h k) [
  | inl missing ↦ absurd (cc (sym missing ∙ e))
  | inr same ↦ same ∙ e
]

insert-Keeps :
    (h b : ℕ) (es : List Entry)
    → find_entry h es ≡ none
    → Keeps es (es ++ record { key = h; block = b } ∷ [])
insert-Keeps h b es new k = elim (Bool-cases (h == k)) [
  | inl same ↦ let e : h ≡ k = ground arith in inl (subst (λ x. find_entry x es ≡ none) e new)
  | inr other ↦ inr (find_entry-snoc h b k es new ∙ rw other refl)
]

insert-found :
    (h b : ℕ) (es : List Entry)
    → find_entry h es ≡ none
    → find_entry h (es ++ record { key = h; block = b } ∷ []) ≡ some b
insert-found h b es new = find_entry-snoc h b h es new ∙ rw (eqb_refl h) refl

found_length :
    (h : ℕ × List ℕ) (b : ℕ) (hs : List (ℕ × List ℕ)) (es : List Entry)
    → find_entry h.0 es ≡ some b
    → length (leading_blocks hs es) ≡ length hs
    → length (leading_blocks (h ∷ hs) es) ≡ length (h ∷ hs)
found_length h b hs es e rest = ap length (leading_blocks-hit h b hs es e) ∙ ap (λ n. suc n) rest

-- The block of the first hash of the list that is `k`, where the hash at `j` stands for the block at
-- `i + j`.
abbrev pub first_block : ℕ → List (ℕ × List ℕ) → List ℕ → ℕ → Option ℕ
first_block k [] blocks i = none
first_block k (h ∷ hs) blocks i =
    if h.0 == k then get_elem? blocks i else first_block k hs blocks (i + 1)

abbrev pub or_else : Option ℕ → Option ℕ → Option ℕ
or_else none d = d
or_else (some b) d = some b

first_block-cached :
    (k c i : ℕ) (h : ℕ × List ℕ) (hs : List (ℕ × List ℕ)) (blocks : List ℕ) (es : List Entry)
    → find_entry h.0 es ≡ some c
    → or_else (find_entry k es) (first_block k hs blocks (i + 1))
      ≡ or_else (find_entry k es) (first_block k (h ∷ hs) blocks i)
first_block-cached k c i h hs blocks es there = elim (Bool-cases (h.0 == k)) [
  | inl same ↦
      let e : find_entry k es ≡ some c =
        subst (λ x. find_entry x es ≡ some c) (ground arith) there in
      rw e refl
  | inr other ↦ rw other refl
]

first_block-new :
    (k b i : ℕ) (h : ℕ × List ℕ) (hs : List (ℕ × List ℕ)) (blocks : List ℕ) (es : List Entry)
    → find_entry h.0 es ≡ none
    → get_elem? blocks i ≡ some b
    → or_else
        (find_entry k (es ++ record { key = h.0; block = b } ∷ []))
        (first_block k hs blocks (i + 1))
      ≡ or_else (find_entry k es) (first_block k (h ∷ hs) blocks i)
first_block-new k b i h hs blocks es new here = elim (Bool-cases (h.0 == k)) [
  | inl same ↦
      let e : find_entry k es ≡ none = subst (λ x. find_entry x es ≡ none) (ground arith) new in
      rw (find_entry-snoc h.0 b k es new) (rw same (rw e (sym here)))
  | inr other ↦ rw (find_entry-snoc h.0 b k es new) (rw other refl)
]

or_else-none : (d : Option ℕ) → d ≡ or_else d none
or_else-none none = refl
or_else-none (some b) = refl

register_loop-found :
    (outside : ℕ → ℕ) (blocks : List ℕ) (i : ℕ) (hs : List (ℕ × List ℕ)) (s : PrefixCache)
    → ((c : ℕ) → 0 < occ c blocks → 0 < outside c)
    → IsPinned outside s
    → i + length hs ≤ length blocks
    → num_cached s + length hs ≤ s.max_blocks
    → (n : ℕ) × (s' : PrefixCache) × (register_loop blocks i hs s ≡ (ok n, s'))
      × Keeps s.entries s'.entries
      × ((k : ℕ)
          → find_entry k s'.entries ≡ or_else (find_entry k s.entries) (first_block k hs blocks i))
      × (length (leading_blocks hs s'.entries) ≡ length hs)
unfolding register_loop
register_loop-found outside blocks i [] s live k long room =
    (0, s, refl, (λ c. inr refl), (λ c. or_else-none (find_entry c s.entries)), refl)
register_loop-found outside blocks i (h ∷ hs) s live k long room =
    let (b, here) = get_elem?-in_range blocks i (omega arith) in
    elim (Option-cases (find_entry h.0 s.entries)) [
      | inr (c, there) ↦
          let (n, s', run, keeps, which, all) =
            register_loop-found outside blocks (i + 1) hs s live k (omega arith) (omega arith) in
          (
            n,
            s',
            rw (here, register_loop) (rw there run),
            keeps,
            (λ x. which x ∙ first_block-cached x c i h hs blocks s.entries there),
            found_length h c hs s'.entries (Keeps-found s.entries s'.entries h.0 c keeps there) all,
          )
      | inl new ↦
          let free : leb s.max_blocks (num_cached s) ≡ false = ground arith in
          let held : 0 < refs s.pool b =
            omega (arith, k.counts b, get_elem?-live outside blocks i b live here) in
          let (p, taken, g, _) = incref_adds s.pool (b ∷ []) k.well_formed (held, tt) in
          let u = insert h.0 b (record s { pool = p }) in
          let ku : IsPinned outside u =
            insert-IsPinned outside h.0 b s p k (omega arith) (find_entry-none h.0 s.entries new)
              g in
          let longer : num_cached u ≡ num_cached s + 1 =
            length-append s.entries (record { key = h.0; block = b } ∷ []) in
          let (n, s', run, keeps, which, all) =
            register_loop-found outside blocks (i + 1) hs u live ku (omega arith)
              (omega (arith, longer)) in
          (
            n + 1,
            s',
            register_step blocks i b (n + 1) h hs s s s' here new (evict_idle s free)
                (add_entry_room h.0 b (register_loop blocks (i + 1) hs) s p n s' free taken run),
            Keeps-trans s.entries u.entries s'.entries (insert-Keeps h.0 b s.entries new) keeps,
            (λ x. which x ∙ first_block-new x b i h hs blocks s.entries new here),
            found_length h b hs s'.entries
                (Keeps-found u.entries s'.entries h.0 b keeps (insert-found h.0 b s.entries new))
                all,
          )
    ]

length-hash_loop :
    (chain_hash : Option ℕ → List ℕ → ℕ) (token_ids : List ℕ) (size n i : ℕ) (parent : Option ℕ)
    → length (hash_loop chain_hash token_ids size n i parent) ≡ n
length-hash_loop chain_hash token_ids size zero i parent = refl
length-hash_loop chain_hash token_ids size (suc n) i parent =
    ap (λ k. suc k) (length-hash_loop chain_hash token_ids size n (i + 1) _)

length-block_hashes :
    (chain_hash : Option ℕ → List ℕ → ℕ) (token_ids : List ℕ) (s : PrefixCache)
    → length (block_hashes chain_hash token_ids s) ≡ length token_ids / s.pool.block_size
unfolding block_hashes
length-block_hashes chain_hash token_ids s =
    length-hash_loop chain_hash token_ids s.pool.block_size _ 0 none

-- After `register(token_ids, blocks)`, with a block that somebody outside holds for every full block
-- of the prompt, in a cache that owns one reference for each of its entries and has room for the
-- new ones, the whole prompt is cached: the leading run of hashes that the entries have is as long
-- as the prompt has full blocks. Every entry that was there is found as before, and every other
-- search finds the block at the place of the first hash of the prompt that is the key, if there is
-- one, and else nothing.
pub register_found :
    (chain_hash : Option ℕ → List ℕ → ℕ) (outside : ℕ → ℕ) (token_ids blocks : List ℕ)
    (s : PrefixCache)
    → ((c : ℕ) → 0 < occ c blocks → 0 < outside c)
    → IsPinned outside s
    → length token_ids / s.pool.block_size ≤ length blocks
    → num_cached s + length token_ids / s.pool.block_size ≤ s.max_blocks
    → (n : ℕ) × (s' : PrefixCache) × (register chain_hash token_ids blocks s ≡ (ok n, s'))
      × Keeps s.entries s'.entries
      × ((k : ℕ)
          → find_entry k s'.entries
            ≡ or_else
                (find_entry k s.entries)
                (first_block k (block_hashes chain_hash token_ids s) blocks 0))
      × (length (leading_blocks (block_hashes chain_hash token_ids s) s'.entries)
          ≡ length token_ids / s.pool.block_size)
unfolding register
register_found chain_hash outside token_ids blocks s live k long room =
    let count : length (block_hashes chain_hash token_ids s)
        ≡ length token_ids / s.pool.block_size =
      length-block_hashes chain_hash token_ids s in
    let (n, s', run, keeps, which, all) =
      register_loop-found outside blocks 0 (block_hashes chain_hash token_ids s) s live k
        (omega (arith, count)) (omega (arith, count)) in
    (n, s', run, keeps, which, all ∙ count)
