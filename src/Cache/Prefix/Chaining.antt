-- ===== src/Cache/Prefix/Chaining.antt =====
-- `block_hashes` of edgerag/cache/prefix.py: what two keys that are equal say about the prompts.
use edgerag.Prelude.{
  ℕ, ◌≡◌, Option, List, ◌<◌, slice, some, none, get_elem?, ◌↔◌, ◌*◌, ◌+◌, suc, arith, ◌≤◌, zero,
  sym, ap, length, ◌∙◌, range_cases, ◌/◌, inl, refl, inr,
}
use edgerag.Cache.Prefix.{PrefixCache, block_hashes, hash_loop}

-- No two calls of the hash with different arguments have the same result.
abbrev pub IsCollisionFree : (Option ℕ → List ℕ → ℕ) → Type 0
IsCollisionFree chain_hash =
    (p q : Option ℕ) (xs ys : List ℕ) → chain_hash p xs ≡ chain_hash q ys → (p ≡ q) × (xs ≡ ys)

-- The tokens of the block `i` of a prompt.
abbrev pub tokens_of : ℕ → ℕ → List ℕ → List ℕ
tokens_of size i token_ids = slice (i * size) ((i + 1) * size) token_ids

plus_zero : (i : ℕ) → 0 + i ≡ i
plus_zero i = omega arith

some_injective : {A : Type 0} (x y : A) → ◌≡◌ {A = Option A} (some x) (some y) → x ≡ y
some_injective x y e = cc e

module _ (chain_hash : Option ℕ → List ℕ → ℕ) (size : ℕ) where
  -- The parent of the block `i`.
  abbrev parent_of : List ℕ → ℕ → Option ℕ
  parent_of token_ids zero = none
  parent_of token_ids (suc i) =
      some (chain_hash (parent_of token_ids i) (tokens_of size i token_ids))

  abbrev key_of : List ℕ → ℕ → ℕ
  key_of token_ids i = chain_hash (parent_of token_ids i) (tokens_of size i token_ids)

  next_parent :
      (token_ids : List ℕ) (i : ℕ) (parent : Option ℕ)
      → parent ≡ parent_of token_ids i
      → some (chain_hash parent (tokens_of size i token_ids)) ≡ parent_of token_ids (i + 1)
  next_parent token_ids i parent e =
      let next : suc i ≡ i + 1 = omega arith in
      ap (λ p. some (chain_hash p (tokens_of size i token_ids))) e ∙ ap (parent_of token_ids) next

  get_elem?-hash_loop :
      (token_ids : List ℕ) (n i j : ℕ) (parent : Option ℕ) (h : ℕ × List ℕ)
      → parent ≡ parent_of token_ids i
      → get_elem? (hash_loop chain_hash token_ids size n i parent) j ≡ some h
      → h.0 ≡ key_of token_ids (i + j)
  get_elem?-hash_loop token_ids zero i j parent h p e = absurd (cc e)
  get_elem?-hash_loop token_ids (suc n) i zero parent h p e =
      let chunk = tokens_of size i token_ids in
      let here : i ≡ i + 0 = omega arith in
      sym (ap (λ x. x.0) (some_injective (chain_hash parent chunk, chunk) h e))
      ∙ ap (λ q. chain_hash q chunk) p
      ∙ ap (key_of token_ids) here
  get_elem?-hash_loop token_ids (suc n) i (suc j) parent h p e =
      let there : i + 1 + j ≡ i + suc j = omega arith in
      get_elem?-hash_loop token_ids n (i + 1) j
        (some (chain_hash parent (tokens_of size i token_ids))) h (next_parent token_ids i parent p)
        e
      ∙ ap (key_of token_ids) there

  -- Equal tokens in all blocks before `i` make equal parents.
  same_parent :
      (xs ys : List ℕ) (i : ℕ)
      → ((k : ℕ) → k < i → tokens_of size k xs ≡ tokens_of size k ys)
      → parent_of xs i ≡ parent_of ys i
  same_parent xs ys zero same = refl
  same_parent xs ys (suc i) same =
      let before = same_parent xs ys i (λ k h. same k (omega arith)) in
      ap (λ p. some (chain_hash p (tokens_of size i xs))) before
      ∙ ap (λ c. some (chain_hash (parent_of ys i) c)) (same i (omega arith))

  module _ (free : IsCollisionFree chain_hash) (xs ys : List ℕ) where
    same_history :
        (i j : ℕ)
        → parent_of xs i ≡ parent_of ys j
        → (i ≡ j) × ((k : ℕ) → k < i → tokens_of size k xs ≡ tokens_of size k ys)
    same_history zero zero e = (refl, λ k h. absurd (omega arith))
    same_history zero (suc j) e = absurd (cc e)
    same_history (suc i) zero e = absurd (cc e)
    same_history (suc i) (suc j) e =
        let (parents, chunks) =
          free (parent_of xs i) (parent_of ys j) (tokens_of size i xs) (tokens_of size j ys)
            (some_injective (key_of xs i) (key_of ys j) e) in
        let (same, earlier) = same_history i j parents in
        (
          ap suc same,
          λ k h. elim (range_cases k i) [
            | inl before ↦ earlier k before
            | inr from ↦
                let last : k ≡ i = omega arith in
                ap (λ m. tokens_of size m xs) last
                ∙ chunks
                ∙ ap (λ m. tokens_of size m ys) (sym same ∙ sym last)
          ],
        )

-- If the hash has no collisions, then two blocks, of one prompt or of two, get the same key exactly if
-- they stand at the same place of their prompts, and these prompts have the same tokens in this block
-- and in every block before it.
pub block_hashes_lem :
    (chain_hash : Option ℕ → List ℕ → ℕ) (xs ys : List ℕ) (i j : ℕ) (h g : ℕ × List ℕ)
    (s : PrefixCache)
    → IsCollisionFree chain_hash
    → get_elem? (block_hashes chain_hash xs s) i ≡ some h
    → get_elem? (block_hashes chain_hash ys s) j ≡ some g
    → (h.0 ≡ g.0) ↔ (
        (i ≡ j)
        × ((k : ℕ) → k ≤ i → tokens_of s.pool.block_size k xs ≡ tokens_of s.pool.block_size k ys))
unfolding block_hashes
block_hashes_lem chain_hash xs ys i j h g s free first second =
    let size = s.pool.block_size in
    let n = length xs / size in
    let m = length ys / size in
    let a : h.0 ≡ key_of chain_hash size xs i =
      get_elem?-hash_loop chain_hash size xs n 0 i none h refl first
      ∙ ap (key_of chain_hash size xs) (plus_zero i) in
    let b : g.0 ≡ key_of chain_hash size ys j =
      get_elem?-hash_loop chain_hash size ys m 0 j none g refl second
      ∙ ap (key_of chain_hash size ys) (plus_zero j) in
    (
      (λ e.
          let (same, earlier) =
            same_history chain_hash size free xs ys (suc i) (suc j) (ap some (sym a ∙ e ∙ b)) in
          (omega (arith, same), λ k l. earlier k (omega arith))),
      (λ e.
          let keys =
            some_injective (key_of chain_hash size xs i) (key_of chain_hash size ys i)
              (same_parent chain_hash size xs ys (suc i) (λ k l. e.1 k (omega arith))) in
          a ∙ keys ∙ ap (key_of chain_hash size ys) e.0 ∙ sym b),
    )
