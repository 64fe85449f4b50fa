-- ===== src/Cache/Prefix/Tests.antt =====
-- The theorems on the prefix cache at a small input.
use edgerag.Cache.Prefix.Chaining.{block_hashes_lem, IsCollisionFree, tokens_of}
use edgerag.Cache.Samples.{shared, others, first_view-IsOwned}
use edgerag.Prelude.Counting.{occ, occ-nil, occ-cons}
use edgerag.Cache.Prefix.{PrefixCache, block_hashes, lookup, register, clear, find_entry, ◌∷◌}
use edgerag.Cache.Prefix.Pinned.{IsPinned}
use edgerag.Cache.Prefix.Lookup.{lookup_lem, leading_blocks}
use edgerag.Cache.Prefix.Register.{register_lem, Registered}
use edgerag.Cache.Prefix.Clear.{clear_lem}
use edgerag.Prelude.{
  ◌∷◌, arith, ◌≡◌, List, Option, ℕ, ◌+◌, some, [], ok, ◌<◌, ◌*◌, refl, length, none, ap, ◌↔◌, suc,
  get_elem?, ◌∙◌, ◌≤◌, zero,
}
use edgerag.Cache.Allocator.{refs, num_free}
use edgerag.Cache.Sequences.{held}
use edgerag.Cache.Prefix.Roundtrip.{Keeps, register_found, or_else, first_block}

abbrev sum : List ℕ → ℕ
sum [] = 0
sum (x ∷ xs) = x + sum xs

-- A hash for the tests.
abbrev digest : Option ℕ → List ℕ → ℕ
digest none xs = sum xs
digest (some h) xs = h * 100 + sum xs

-- The blocks 0 and 1 are cached for the prompt 5, 6, 7, 8, and a sequence holds both of them too.
abbrev cached : PrefixCache
cached = record {
  pool = shared;
  max_blocks = 2;
  entries = record { key = 11; block = 0 } ∷ record { key = 1115; block = 1 } ∷ [];
  stats = record { lookups = 0; hits = 0; blocks_reused = 0; tokens_reused = 0; evictions = 0 };
}

cached-IsPinned : IsPinned others cached
cached-IsPinned = record {
  well_formed = first_view-IsOwned.well_formed;
  counts = first_view-IsOwned.counts;
  distinct = λ k. ground (arith, occ-cons k 11 (1115 ∷ []), occ-cons k 1115 [], occ-nil k);
  bounded = omega arith;
}

prompt_hashes :
    block_hashes digest (5 ∷ 6 ∷ 7 ∷ 8 ∷ 9 ∷ []) cached ≡ (11, 5 ∷ 6 ∷ []) ∷ (1115, 7 ∷ 8 ∷ []) ∷ []
unfolding block_hashes
prompt_hashes = refl

lookup_lem_example :
    let matched =
      leading_blocks (block_hashes digest (5 ∷ 6 ∷ 7 ∷ 8 ∷ 9 ∷ []) cached) cached.entries in
    (s' : PrefixCache) × (lookup digest (5 ∷ 6 ∷ 7 ∷ 8 ∷ 9 ∷ []) cached
      ≡ (ok (matched, length matched * 2), s'))
    × IsPinned (λ b. others b + occ b matched) s'
    × ((h : ℕ) → find_entry h s'.entries ≡ find_entry h cached.entries)
    × (num_free s'.pool ≡ 2)
lookup_lem_example = lookup_lem digest others (5 ∷ 6 ∷ 7 ∷ 8 ∷ 9 ∷ []) cached cached-IsPinned

held_by_others : (c : ℕ) → 0 < occ c (0 ∷ 1 ∷ []) → 0 < others c
unfolding held
held_by_others c h = omega arith

-- The prompt has another second block, which makes the oldest entry go.
register_lem_example :
    (n : ℕ) × (s' : PrefixCache) × (register digest (5 ∷ 6 ∷ 7 ∷ 9 ∷ []) (0 ∷ 1 ∷ []) cached
      ≡ (ok n, s'))
    × Registered others cached s'
register_lem_example =
    register_lem digest others (5 ∷ 6 ∷ 7 ∷ 9 ∷ []) (0 ∷ 1 ∷ []) cached held_by_others
      cached-IsPinned

clear_lem_example :
    (s' : PrefixCache) × (clear cached ≡ (ok tt, s'))
    × (s'.entries ≡ [])
    × ((b : ℕ) → refs s'.pool b ≡ others b)
    × IsPinned others s'
clear_lem_example = clear_lem others cached cached-IsPinned

abbrev roomy : PrefixCache
roomy = record cached { max_blocks = 4 }

roomy-IsPinned : IsPinned others roomy
roomy-IsPinned = record {
  well_formed = cached-IsPinned.well_formed;
  counts = cached-IsPinned.counts;
  distinct = cached-IsPinned.distinct;
  bounded = omega arith;
}

register_found_example :
    (n : ℕ) × (s' : PrefixCache) × (register digest (5 ∷ 6 ∷ 7 ∷ 9 ∷ []) (0 ∷ 1 ∷ []) roomy
      ≡ (ok n, s'))
    × Keeps roomy.entries s'.entries
    × ((k : ℕ)
        → find_entry k s'.entries
          ≡ or_else
              (find_entry k roomy.entries)
              (first_block k (block_hashes digest (5 ∷ 6 ∷ 7 ∷ 9 ∷ []) roomy) (0 ∷ 1 ∷ []) 0))
    × (length (leading_blocks (block_hashes digest (5 ∷ 6 ∷ 7 ∷ 9 ∷ []) roomy) s'.entries) ≡ 2)
register_found_example =
    register_found digest others (5 ∷ 6 ∷ 7 ∷ 9 ∷ []) (0 ∷ 1 ∷ []) roomy held_by_others
      roomy-IsPinned (omega arith) (omega arith)

-- A hash without collisions: the number 2 ^ a * (2 * b + 1) for a pair, and pairs for a list.
abbrev pair : ℕ → ℕ → ℕ
pair zero b = 2 * b + 1
pair (suc a) b = 2 * pair a b

abbrev code : List ℕ → ℕ
code [] = 0
code (x ∷ xs) = pair x (code xs)

abbrev parent_code : Option ℕ → ℕ
parent_code none = 0
parent_code (some p) = p + 1

abbrev exact_hash : Option ℕ → List ℕ → ℕ
exact_hash p xs = pair (parent_code p) (code xs)

pair-injective : (a b c d : ℕ) → pair a b ≡ pair c d → (a ≡ c) × (b ≡ d)
pair-injective zero b zero d e = (refl, omega arith)
pair-injective zero b (suc c) d e = absurd (omega arith)
pair-injective (suc a) b zero d e = absurd (omega arith)
pair-injective (suc a) b (suc c) d e =
    let (first, second) = pair-injective a b c d (omega arith) in (ap suc first, second)

pair_positive : (a b : ℕ) → 0 < pair a b
pair_positive zero b = omega arith
pair_positive (suc a) b = omega (arith, pair_positive a b)

code-injective : (xs ys : List ℕ) → code xs ≡ code ys → xs ≡ ys
code-injective [] [] e = refl
code-injective [] (y ∷ ys) e = absurd (omega (arith, pair_positive y (code ys)))
code-injective (x ∷ xs) [] e = absurd (omega (arith, pair_positive x (code xs)))
code-injective (x ∷ xs) (y ∷ ys) e =
    let (first, rest) = pair-injective x (code xs) y (code ys) e in
    ap (λ z. z ∷ xs) first ∙ ap (λ zs. y ∷ zs) (code-injective xs ys rest)

parent_code-injective : (p q : Option ℕ) → parent_code p ≡ parent_code q → p ≡ q
parent_code-injective none none e = refl
parent_code-injective none (some q) e = absurd (omega arith)
parent_code-injective (some p) none e = absurd (omega arith)
parent_code-injective (some p) (some q) e = let same : p ≡ q = omega arith in ap some same

exact_hash-IsCollisionFree : IsCollisionFree exact_hash
exact_hash-IsCollisionFree p q xs ys e =
    let (parents, tokens) = pair-injective (parent_code p) (code xs) (parent_code q) (code ys) e in
    (parent_code-injective p q parents, code-injective xs ys tokens)

-- The second block of a prompt.
abbrev second_key : ℕ × List ℕ
second_key = (exact_hash (some (exact_hash none (0 ∷ 1 ∷ []))) (1 ∷ 0 ∷ []), 1 ∷ 0 ∷ [])

short_second : get_elem? (block_hashes exact_hash (0 ∷ 1 ∷ 1 ∷ 0 ∷ []) cached) 1 ≡ some second_key
unfolding block_hashes
short_second = refl

long_second :
    get_elem? (block_hashes exact_hash (0 ∷ 1 ∷ 1 ∷ 0 ∷ 1 ∷ []) cached) 1 ≡ some second_key
unfolding block_hashes
long_second = refl

block_hashes_lem_example : (second_key.0 ≡ second_key.0) ↔ (
    (◌≡◌ {A = ℕ} 1 1)
    × ((k : ℕ)
        → k ≤ 1
        → tokens_of 2 k (0 ∷ 1 ∷ 1 ∷ 0 ∷ []) ≡ tokens_of 2 k (0 ∷ 1 ∷ 1 ∷ 0 ∷ 1 ∷ [])))
block_hashes_lem_example =
    block_hashes_lem exact_hash (0 ∷ 1 ∷ 1 ∷ 0 ∷ []) (0 ∷ 1 ∷ 1 ∷ 0 ∷ 1 ∷ []) 1 1 second_key
      second_key cached exact_hash-IsCollisionFree short_second long_second
