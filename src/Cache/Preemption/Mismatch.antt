-- ===== src/Cache/Preemption/Mismatch.antt =====
-- `swap_in` of edgerag/cache/preemption.py where a sequence has another number of blocks than the model
-- has key-value heads.
use edgerag.Prelude.{
  ℕ, ◌∷◌, List, ◌≡◌, length, ◌==◌, pos, some, false, ◌≢◌, ok, err, ◌≤◌, runtime_error, refl, ◌+◌,
  arith,
}
use edgerag.Cache.Allocator.Allocate.{allocate_grants}
use edgerag.Cache.Preemption.{restore_layers, restore, swap_in, Preemptor}
use edgerag.Cache.Allocator.{Allocator, num_free}
use edgerag.Cache.Allocator.Invariant.{IsWellFormed}
use edgerag.Cache.Allocator

module _ {A : Type 0} where
  restore_layers-mismatch :
      (l : ℕ) (blocks : List ℕ) (x y : List A) (more : List (List A)) (rest : List (List (List A)))
      (s : Preemptor A)
      → (length (x ∷ y ∷ more) == length blocks) ≡ false
      → restore_layers l blocks ((x ∷ y ∷ more) ∷ rest) s ≡ (err runtime_error, s)
  unfolding restore_layers
  restore_layers-mismatch l blocks x y more rest s e = rw e refl

  restore-mismatch :
      (request n_tokens heads : ℕ) (blocks : List ℕ) (x y : List A) (more : List (List A))
      (rest : List (List (List A))) (s : Preemptor A) (a : Allocator)
      → Allocator.allocate (pos heads) s.pool ≡ (ok blocks, a)
      → restore_layers 0 blocks ((x ∷ y ∷ more) ∷ rest) (record s { pool = a })
        ≡ (err runtime_error, record s { pool = a })
      → restore request
          (record { num_tokens = n_tokens; heads = heads; layers = (x ∷ y ∷ more) ∷ rest })
          s
        ≡ (err runtime_error, record s { pool = a })
  unfolding restore
  restore-mismatch request n_tokens heads blocks x y more rest s a granted refused =
      rw granted (rw refused refl)

  -- A swapped sequence of two blocks or more, whose number is not that of the key-value heads: where
  -- the pool has as many free blocks as there are heads, `swap_in` raises RuntimeError. The sequence
  -- stays swapped, and the blocks that the call took are not given back, though nobody holds them: the
  -- pool has so many free blocks less.
  pub swap_in_mismatch :
      (request n_tokens heads : ℕ) (x y : List A) (more : List (List A))
      (rest : List (List (List A))) (s : Preemptor A)
      → s.swapped request
        ≡ some (record { num_tokens = n_tokens; heads = heads; layers = (x ∷ y ∷ more) ∷ rest })
      → length (x ∷ y ∷ more) ≢ heads
      → IsWellFormed s.pool
      → heads ≤ num_free s.pool
      → (a : Allocator) × (swap_in request s ≡ (err runtime_error, record s { pool = a }))
        × IsWellFormed a
        × (num_free a + heads ≡ num_free s.pool)
  unfolding swap_in
  swap_in_mismatch request n_tokens heads x y more rest s stored other wf room =
      let (blocks, a, granted, g) = allocate_grants s.pool heads wf room in
      let d : (length (x ∷ y ∷ more) == length blocks) ≡ false = ground (arith, g.size, other) in
      let refused = restore_layers-mismatch 0 blocks x y more rest (record s { pool = a }) d in
      (
        a,
        rw stored
            (restore-mismatch request n_tokens heads blocks x y more rest s a granted refused),
        g.gains.well_formed,
        g.free_left,
      )
