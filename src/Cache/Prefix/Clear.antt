-- ===== src/Cache/Prefix/Clear.antt =====
-- `clear` of edgerag/cache/prefix.py: every entry gives its reference back.
use edgerag.Prelude.{List, ℕ, ◌≤◌, ◌≡◌, ok, ◌+◌, [], arith, refl}
use edgerag.Cache.Allocator.{Allocator, refs}
use edgerag.Cache.Allocator.Invariant.{IsWellFormed}
use edgerag.Cache.Allocator.Free.{free_releases}
use edgerag.Cache.Prefix.{PrefixCache, Entry, free_entries, clear, ◌∷◌}
use edgerag.Cache.Prefix.Entries.{entry_blocks}
use edgerag.Cache.Prefix.Pinned.{IsPinned}
use edgerag.Prelude.Counting.{occ, occ-nil, occ-cons, eq_mark}

free_entries-Loses :
    (es : List Entry) (s : PrefixCache)
    → IsWellFormed s.pool
    → ((b : ℕ) → occ b (entry_blocks es) ≤ refs s.pool b)
    → (p : Allocator) × (free_entries es s ≡ (ok tt, record s { pool = p }))
      × IsWellFormed p
      × ((b : ℕ) → refs p b + occ b (entry_blocks es) ≡ refs s.pool b)
unfolding free_entries
free_entries-Loses [] s wf h = (s.pool, refl, wf, λ b. omega (arith, occ-nil b))
free_entries-Loses (e ∷ es) s wf h =
    let (r, p, freed, f) = free_releases s.pool (e.block ∷ []) wf (λ b.
      omega (arith, h b, occ-cons b e.block (entry_blocks es), occ-cons b e.block [], occ-nil b)) in
    let count : (b : ℕ) → refs p b + eq_mark e.block b ≡ refs s.pool b =
      λ b. omega (arith, f.loses.counts b, occ-cons b e.block [], occ-nil b) in
    let (p', run, wf', counts) =
      free_entries-Loses es (record s { pool = p }) f.loses.well_formed
        (λ b. omega (arith, h b, count b, occ-cons b e.block (entry_blocks es))) in
    (
      p',
      rw freed run,
      wf',
      λ b. omega (arith, count b, counts b, occ-cons b e.block (entry_blocks es)),
    )

-- `clear` of a cache that owns one reference for each of its entries always returns normally: no
-- entry is left, and every count of the pool is the number of references of the other holders.
pub clear_lem :
    (outside : ℕ → ℕ) (s : PrefixCache)
    → IsPinned outside s
    → (s' : PrefixCache) × (clear s ≡ (ok tt, s'))
      × (s'.entries ≡ [])
      × ((b : ℕ) → refs s'.pool b ≡ outside b)
      × IsPinned outside s'
unfolding clear
clear_lem outside s k =
    let (p, run, wf, counts) =
      free_entries-Loses s.entries s k.well_formed (λ b. omega (arith, k.counts b)) in
    let left : (b : ℕ) → refs p b ≡ outside b = λ b. omega (arith, counts b, k.counts b) in
    (
      record s { pool = p; entries = [] },
      rw run refl,
      refl,
      left,
      record {
        well_formed = wf;
        counts = λ b. omega (arith, left b, occ-nil b);
        distinct = λ c. omega (arith, occ-nil c);
        bounded = omega arith;
      },
    )
