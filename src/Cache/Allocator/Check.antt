-- ===== src/Cache/Allocator/Check.antt =====
-- What `check_invariants` of edgerag/cache/allocator.py finds, and what it does not.
use edgerag.Prelude.{
  ℕ, ◌+◌, ◌<◌, ◌≤◌, ◌≡◌, arith, ◌⊎◌, [], zero, inl, refl, inr, ◌↔◌, ap, range_cases, List, ltb,
  length, ok, suc, true, eqb_refl,
}
use edgerag.Prelude.Counting.{occ, occ-nil, occ-cons}
use edgerag.Cache.Allocator.{
  Allocator, refs, contains, distinct, check_blocks, ◌∷◌, check_invariants, conserved,
}
use edgerag.Cache.Allocator.Invariant.{InRange, IsWellFormed}

contains-occ : (b : ℕ) (xs : List ℕ) → contains b xs ≡ ltb 0 (occ b xs)
contains-occ b [] = ground (arith, occ-nil b)
contains-occ b (x ∷ xs) = ground (arith, contains-occ b xs, occ-cons b x xs)

length-distinct-le : (xs : List ℕ) → length (distinct xs) ≤ length xs
length-distinct-le [] = omega arith
length-distinct-le (x ∷ xs) = ground (arith, length-distinct-le xs)

AtMostOnce : List ℕ → Type 0
AtMostOnce xs = (b : ℕ) → occ b xs ≤ 1

distinct-AtMostOnce : (xs : List ℕ) → length (distinct xs) ≡ length xs → (b : ℕ) → occ b xs ≤ 1
distinct-AtMostOnce [] h b = omega (arith, occ-nil b)
distinct-AtMostOnce (x ∷ xs) h b = ground (
  arith,
  occ-cons b x xs,
  contains-occ x xs,
  length-distinct-le xs,
  λ (e : length (distinct xs) ≡ length xs). distinct-AtMostOnce xs e b,
)

AtMostOnce-distinct : (xs : List ℕ) → ((b : ℕ) → occ b xs ≤ 1) → length (distinct xs) ≡ length xs
AtMostOnce-distinct [] h = refl
AtMostOnce-distinct (x ∷ xs) h =
    let rest = AtMostOnce-distinct xs (λ b. omega (arith, h b, occ-cons b x xs)) in
    ground (arith, rest, occ-cons x x xs, contains-occ x xs, h x)

-- The block `b` is in the free list exactly if nobody holds it.
abbrev Agrees : Allocator → ℕ → Type 0
Agrees a b = (0 < occ b a.free_list → refs a b ≡ 0) × (occ b a.free_list ≡ 0 → 0 < refs a b)

check_blocks_ok :
    (a : Allocator) (from n : ℕ)
    → ((b : ℕ) → from ≤ b → b < from + n → Agrees a b)
    → check_blocks from n a ≡ (ok tt, a)
unfolding check_blocks
check_blocks_ok a from zero h = refl
check_blocks_ok a from (suc n) h =
    let here = h from (omega arith) (omega arith) in
    let rest = check_blocks_ok a (suc from) n (λ b l u. h b (omega arith) (omega arith)) in
    ground (arith, here.0, here.1, rest, contains-occ from a.free_list)

check_blocks_state : (a : Allocator) (from n : ℕ) → (check_blocks from n a).1 ≡ a
unfolding check_blocks
check_blocks_state a from zero = refl
check_blocks_state a from (suc n) = ground (arith, check_blocks_state a (suc from) n)

check_blocks_sound :
    (a : Allocator) (from n : ℕ)
    → (check_blocks from n a).0 ≡ ok tt
    → (b : ℕ) → from ≤ b
    → b < from + n
    → Agrees a b
unfolding check_blocks
check_blocks_sound a from zero e b l u = absurd (omega arith)
check_blocks_sound a from (suc n) e b l u = elim (first_cases from b l) [
  | inl same ↦
      rw (← same) (
        ground (arith, contains-occ from a.free_list),
        ground (arith, contains-occ from a.free_list),
      )
  | inr later ↦ check_blocks_sound a (suc from) n (ground arith) b later (omega arith)
]
  where
    first_cases : (x y : ℕ) → x ≤ y → (x ≡ y) ⊎ (suc x ≤ y)
    first_cases x y h = omega arith

-- The last test of `check_invariants` compares the size of the pool with itself.
conserved_always : (a : Allocator) → conserved a ≡ true
unfolding conserved
conserved_always a = ground arith

check_invariants_ok :
    (a : Allocator)
    → ((b : ℕ) → occ b a.free_list ≤ 1)
    → ((b : ℕ) → b < a.num_blocks → Agrees a b)
    → check_invariants a ≡ (ok tt, a)
unfolding check_invariants
check_invariants_ok a once agrees = rw (
  AtMostOnce-distinct a.free_list once,
  eqb_refl (length a.free_list),
  check_blocks_ok a 0 a.num_blocks (λ b _ u. agrees b (omega arith)),
  conserved_always a,
)

check_invariants_finds :
    (a : Allocator)
    → (check_invariants a).0 ≡ ok tt
    → (length (distinct a.free_list) ≡ length a.free_list)
      × ((check_blocks 0 a.num_blocks a).0 ≡ ok tt)
unfolding check_invariants
check_invariants_finds a e = ground (arith, check_blocks_state a 0 a.num_blocks)

-- For a pool with one count for each block and no foreign id in its free list, `check_invariants`
-- passes exactly if the free list holds each block with count zero once and no other block. Where it
-- passes it changes nothing.
pub check_invariants_iff :
    (a : Allocator)
    → 0 < a.block_size
    → length a.refcounts ≡ a.num_blocks
    → InRange a.num_blocks a.free_list
    → (check_invariants a ≡ (ok tt, a)) ↔ IsWellFormed a
check_invariants_iff a positive sized in_range = (
  λ passed.
      let (once, agree) = check_invariants_finds a (ap (λ r. r.0) passed) in
      record {
        positive = positive;
        sized = sized;
        marked = λ b. elim (range_cases b a.num_blocks) [
          | inl inside ↦
              let agrees =
                check_blocks_sound a 0 a.num_blocks agree b (omega arith) (omega arith) in
              ground (arith, distinct-AtMostOnce a.free_list once b, agrees.0, agrees.1)
          | inr outside ↦ ground (arith, in_range b outside)
        ];
      },
  λ wf.
      check_invariants_ok a (λ b. ground (arith, wf.marked b))
        (λ b l. (ground (arith, wf.marked b), ground (arith, wf.marked b))),
)

-- A foreign id in the free list goes unseen: put in front of a well formed pool's free list, any id
-- that is no block of the pool passes `check_invariants`, and the pool is not well formed.
pub check_invariants_misses_foreign :
    (a : Allocator) (b : ℕ)
    → IsWellFormed a
    → a.num_blocks ≤ b
    → let stray = record a { free_list = b ∷ a.free_list } in
      (check_invariants stray ≡ (ok tt, stray)) × ¬ IsWellFormed stray
check_invariants_misses_foreign a b wf outside = (
  check_invariants_ok (record a { free_list = b ∷ a.free_list })
      (λ c. ground (arith, wf.marked c, wf.marked b, occ-cons c b a.free_list))
      (λ c l. (
        ground (arith, wf.marked c, occ-cons c b a.free_list),
        ground (arith, wf.marked c, occ-cons c b a.free_list),
      )),
  λ bad. ground (arith, bad.marked b, occ-cons b b a.free_list),
)
