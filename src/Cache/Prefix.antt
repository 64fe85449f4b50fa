-- ===== src/Cache/Prefix.antt =====
-- edgerag/cache/prefix.py: blocks of earlier prompts, found again by the chained hash of their tokens.
-- The hash is a parameter: sha256 is not in the repository. A digest, a hexadecimal number, is that
-- number, and ROOT_HASH, which is no digest, is `none`. The ordered dictionary of entries is the list
-- of its items, the least recently used first.
pub mod Entries
pub mod Pinned
pub mod Eviction
pub mod Clear
pub mod Lookup
pub mod Register
pub mod Chaining
pub mod Roundtrip
mod Tests
use edgerag.Cache.Allocator.{Allocator}
use edgerag.Prelude.{
  ℕ, Option, Action, List, ◌+◌, length, none, ◌∷◌, ◌++◌, [], ok, ◌>>◌, max, if◌then◌else◌, suc, ◌/◌,
  some, modify, leb, get_elem?, ◌==◌, ◌*◌, false, ◌>>=◌, pure, get, zero, true, slice,
}
use edgerag.Cache.Allocator

pub record Entry : Type 0 where
  pub key : ℕ
  pub block : ℕ

pub record PrefixStats : Type 0 where
  pub lookups : ℕ
  pub hits : ℕ
  pub blocks_reused : ℕ
  pub tokens_reused : ℕ
  pub evictions : ℕ

pub record PrefixCache : Type 0 where
  pub pool : Allocator
  pub max_blocks : ℕ
  pub entries : List Entry
  pub stats : PrefixStats

unfoldable pub init : Allocator → Option ℕ → PrefixCache
init a max_blocks = record {
  pool = a;
  max_blocks = elim max_blocks [ none ↦ max 1 (a.num_blocks / 4) | some n ↦ n ];
  entries = [];
  stats = record { lookups = 0; hits = 0; blocks_reused = 0; tokens_reused = 0; evictions = 0 };
}

abbrev pub num_cached : PrefixCache → ℕ
num_cached s = length s.entries

-- A method of the allocator, called from a method of the cache.
abbrev pub on_pool : {A : Type 0} → Action Allocator A → Action PrefixCache A
on_pool m s = let (r, p) = m s.pool in (r, record s { pool = p })

abbrev pub set_entries : List Entry → PrefixCache → PrefixCache
set_entries es s = record s { entries = es }

-- `self._entries.get(key)`
abbrev pub find_entry : ℕ → List Entry → Option ℕ
find_entry h [] = none
find_entry h (e ∷ es) = if e.key == h then some e.block else find_entry h es

abbrev pub remove_entry : ℕ → List Entry → List Entry
remove_entry h [] = []
remove_entry h (e ∷ es) = if e.key == h then es else e ∷ remove_entry h es

-- `self._entries.move_to_end(key)`, for a key that is there with this block.
abbrev pub move_to_end : ℕ → ℕ → List Entry → List Entry
move_to_end h b es = remove_entry h es ++ record { key = h; block = b } ∷ []

module _ (chain_hash : Option ℕ → List ℕ → ℕ) where
  -- The loop of `block_hashes`, from block `i` on, for `n` more blocks.
  abbrev pub hash_loop : List ℕ → ℕ → ℕ → ℕ → Option ℕ → List (ℕ × List ℕ)
  hash_loop token_ids size zero i parent = []
  hash_loop token_ids size (suc n) i parent =
      let chunk = slice (i * size) ((i + 1) * size) token_ids in
      (chain_hash parent chunk, chunk)
      ∷ hash_loop token_ids size n (i + 1) (some (chain_hash parent chunk))

  unfoldable pub block_hashes : List ℕ → PrefixCache → List (ℕ × List ℕ)
  block_hashes token_ids s =
      hash_loop token_ids s.pool.block_size (length token_ids / s.pool.block_size) 0 none

-- The loop of `lookup`: the matched blocks, and the entries with the matched ones moved to the end.
unfoldable pub match_blocks : List (ℕ × List ℕ) → List Entry → List ℕ × List Entry
match_blocks [] es = ([], es)
match_blocks (h ∷ hs) es = elim (find_entry h.0 es) [
  | none ↦ ([], es)
  | some b ↦ let rest = match_blocks hs (move_to_end h.0 b es) in (b ∷ rest.0, rest.1)
]

-- The end of `lookup`, behind the loop.
unfoldable pub take_references : List ℕ → Action PrefixCache (List ℕ × ℕ)
take_references [] s = (ok ([], 0), s)
take_references (b ∷ bs) s =
    (do
      on_pool (Allocator.incref (b ∷ bs))
      modify (λ t. record t {
        stats = record t.stats {
          hits = t.stats.hits + 1;
          blocks_reused = t.stats.blocks_reused + length (b ∷ bs);
          tokens_reused = t.stats.tokens_reused + length (b ∷ bs) * t.pool.block_size;
        };
      })
      pure (b ∷ bs, length (b ∷ bs) * s.pool.block_size))
      s

abbrev pub count_lookup : PrefixCache → PrefixCache
count_lookup s = record s { stats = record s.stats { lookups = s.stats.lookups + 1 } }

unfoldable pub lookup : (Option ℕ → List ℕ → ℕ) → List ℕ → Action PrefixCache (List ℕ × ℕ)
unfolding block_hashes match_blocks take_references
lookup chain_hash token_ids s =
    let found = match_blocks (block_hashes chain_hash token_ids s) s.entries in
    take_references found.0 (set_entries found.1 (count_lookup s))

-- The loop of `_evict_if_needed`, over the entries.
unfoldable pub evict_loop : List Entry → Action PrefixCache (Unit {0})
evict_loop [] s = (ok tt, s)
evict_loop (e ∷ es) s = elim (leb s.max_blocks (num_cached s)) [
  | false ↦ (ok tt, s)
  | true ↦
      (do
        modify (set_entries es)
        on_pool (Allocator.free (e.block ∷ []))
        modify (λ t. record t { stats = record t.stats { evictions = t.stats.evictions + 1 } })
        evict_loop es)
        s
]

unfoldable pub evict_if_needed : Action PrefixCache (Unit {0})
unfolding evict_loop
evict_if_needed s = evict_loop s.entries s

-- `self._entries[key] = block`, for a key that is not there.
abbrev pub insert : ℕ → ℕ → PrefixCache → PrefixCache
insert h b s = set_entries (s.entries ++ record { key = h; block = b } ∷ []) s

-- The body of the loop of `register` behind the eviction, with the rest of the loop.
unfoldable pub add_entry : ℕ → ℕ → Action PrefixCache ℕ → Action PrefixCache ℕ
add_entry h b rest s = elim (leb s.max_blocks (num_cached s)) [
  | true ↦ (ok 0, s)
  | false ↦
      (do on_pool (Allocator.incref (b ∷ [])); modify (insert h b); added ← rest; pure (added + 1))
        s
]

-- The loop of `register`, from the hash with the number `i` on.
unfoldable pub register_loop : List ℕ → ℕ → List (ℕ × List ℕ) → Action PrefixCache ℕ
unfolding evict_if_needed add_entry
register_loop blocks i [] s = (ok 0, s)
register_loop blocks i (h ∷ hs) s = elim (get_elem? blocks i) [
  | none ↦ register_loop blocks (i + 1) hs s
  | some b ↦ elim (find_entry h.0 s.entries) [
    | some _ ↦ register_loop blocks (i + 1) hs s
    | none ↦ (do evict_if_needed; add_entry h.0 b (register_loop blocks (i + 1) hs)) s
  ]
]

unfoldable pub register : (Option ℕ → List ℕ → ℕ) → List ℕ → List ℕ → Action PrefixCache ℕ
unfolding block_hashes register_loop
register chain_hash token_ids blocks s =
    register_loop blocks 0 (block_hashes chain_hash token_ids s) s

unfoldable pub free_entries : List Entry → Action PrefixCache (Unit {0})
free_entries [] s = (ok tt, s)
free_entries (e ∷ es) s = (do on_pool (Allocator.free (e.block ∷ [])); free_entries es) s

unfoldable pub clear : Action PrefixCache (Unit {0})
unfolding free_entries
clear s = (do free_entries s.entries; modify (set_entries [])) s
