-- ===== src/Cache/Prefix/Eviction.antt =====
-- `_evict_if_needed` of edgerag/cache/prefix.py: entries go, oldest first, and give their
-- references back.
use edgerag.Prelude.{
  ℕ, ◌≡◌, ◌<◌, List, ◌∷◌, [], ok, ◌⊎◌, arith, inl, ap, Bool-cases, ◌++◌, refl, leb, inr, ◌+◌,
  length, ◌∙◌,
}
use edgerag.Cache.Allocator.{Allocator, refs, num_free}
use edgerag.Cache.Allocator.Invariant.{IsWellFormed}
use edgerag.Cache.Allocator.Free.{free_releases, Freed}
use edgerag.Cache.Prefix.{PrefixCache, Entry, num_cached, evict_loop, evict_if_needed}
use edgerag.Cache.Prefix.Entries.{keys, entry_blocks}
use edgerag.Cache.Prefix.Pinned.{IsPinned}
use edgerag.Prelude.Counting.{occ, occ-nil, occ-cons}
use edgerag.Cache.Allocator

-- What the eviction leaves: some of the oldest entries are gone, and there is room for one more, or
-- nothing is left.
pub record Shrunk (outside : ℕ → ℕ) (s s' : PrefixCache) : Type 0 where
  pub pinned : IsPinned outside s'
  pub room : (s'.entries ≡ []) ⊎ (num_cached s' < s'.max_blocks)
  pub dropped : List Entry
  pub split : s.entries ≡ dropped ++ s'.entries
  pub same_max : s'.max_blocks ≡ s.max_blocks
  pub same_size : s'.pool.block_size ≡ s.pool.block_size

-- One reference of an entry can always be given back.
free_block :
    (a : Allocator) (b : ℕ)
    → IsWellFormed a
    → 0 < refs a b
    → (r : ℕ) × (a' : Allocator) × (Allocator.free (b ∷ []) a ≡ (ok r, a')) × Freed a (b ∷ []) r a'
free_block a b wf h = free_releases a (b ∷ []) wf (λ c. ground (arith, occ-cons c b [], occ-nil c))

module _ (outside : ℕ → ℕ) (s : PrefixCache) (e : Entry) (es : List Entry) (k : IsPinned outside s)
    (listed : s.entries ≡ e ∷ es) where
  first_held : 0 < refs s.pool e.block
  first_held = ground (
    arith,
    k.counts e.block,
    ap (λ xs. occ e.block (entry_blocks xs)) listed,
    occ-cons e.block e.block (entry_blocks es),
  )

evict_loop-Shrunk :
    (outside : ℕ → ℕ) (es : List Entry) (s : PrefixCache)
    → IsPinned outside s
    → s.entries ≡ es
    → (s' : PrefixCache) × (evict_loop es s ≡ (ok tt, s')) × Shrunk outside s s'
unfolding evict_loop
evict_loop-Shrunk outside [] s k listed = (
  s,
  refl,
  record {
    pinned = k;
    room = inl listed;
    dropped = [];
    split = refl;
    same_max = refl;
    same_size = refl;
  },
)
evict_loop-Shrunk outside (e ∷ es) s k listed =
    elim (Bool-cases (leb s.max_blocks (num_cached s))) [
      | inr room ↦ (
        s,
        rw (room, evict_loop) refl,
        record {
          pinned = k;
          room = inr (ground arith);
          dropped = [];
          split = refl;
          same_max = refl;
          same_size = refl;
        },
      )
      | inl full ↦
          let (r, p, freed, f) =
            free_block s.pool e.block k.well_formed (first_held outside s e es k listed) in
          let t : PrefixCache = record s {
            pool = p;
            entries = es;
            stats = record s.stats { evictions = s.stats.evictions + 1 };
          } in
          let kt : IsPinned outside t = record {
            well_formed = f.loses.well_formed;
            counts = λ b. omega (
              arith,
              f.loses.counts b,
              k.counts b,
              ap (λ xs. occ b (entry_blocks xs)) listed,
              occ-cons b e.block (entry_blocks es),
              occ-cons b e.block [],
              occ-nil b,
            );
            distinct = λ c. omega (
              arith,
              k.distinct c,
              ap (λ xs. occ c (keys xs)) listed,
              occ-cons c e.key (keys es),
            );
            bounded = omega (arith, k.bounded, ap length listed);
          } in
          let (s', run, q) = evict_loop-Shrunk outside es t kt refl in
          (
            s',
            rw (full, evict_loop) (rw freed run),
            record {
              pinned = q.pinned;
              room = q.room;
              dropped = e ∷ q.dropped;
              split = listed ∙ ap (◌∷◌ e) q.split;
              same_max = q.same_max;
              same_size = q.same_size ∙ f.loses.shape.same_size;
            },
          )
    ]

pub evict_if_needed-Shrunk :
    (outside : ℕ → ℕ) (s : PrefixCache)
    → IsPinned outside s
    → (s' : PrefixCache) × (evict_if_needed s ≡ (ok tt, s')) × Shrunk outside s s'
unfolding evict_if_needed
evict_if_needed-Shrunk outside s k = evict_loop-Shrunk outside s.entries s k refl
