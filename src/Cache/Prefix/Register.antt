-- ===== src/Cache/Prefix/Register.antt =====
-- `register` of edgerag/cache/prefix.py: the cache takes its own reference on each block it stores.
use edgerag.Prelude.{
  Option-cases, ℕ, Option, ◌≡◌, ◌<◌, List, ◌∙◌, ◌∷◌, refl, none, get_elem?, ok, arith, inl, [],
  some, ap, length-append, subst, ◌+◌, inr, suc, Bool-cases, zero, leb, Action, true, false,
}
use edgerag.Cache.Allocator.{Allocator, refs}
use edgerag.Cache.Allocator.Incref.{incref_adds}
use edgerag.Cache.Allocator.Invariant.{Gains}
use edgerag.Cache.Prefix.{
  PrefixCache, find_entry, insert, register_loop, register, block_hashes, num_cached, add_entry,
  evict_if_needed,
}
use edgerag.Cache.Prefix.Entries.{keys, keys-append, snoc-counts, find_entry-none}
use edgerag.Cache.Prefix.Pinned.{IsPinned}
use edgerag.Cache.Prefix.Eviction.{Shrunk, evict_if_needed-Shrunk}
use edgerag.Prelude.Counting.{occ, occ-nil, occ-cons, occ-append, eq_mark_self}
use edgerag.Cache.Allocator

-- An eviction brings no key in.
Shrunk-absent :
    (outside : ℕ → ℕ) (h : ℕ) (s t : PrefixCache)
    → Shrunk outside s t
    → find_entry h s.entries ≡ none
    → occ h (keys t.entries) ≡ 0
Shrunk-absent outside h s t q e = omega (
  arith,
  find_entry-none h s.entries e,
  ap (λ xs. occ h (keys xs)) q.split,
  ap (occ h) (keys-append q.dropped t.entries),
  occ-append h (keys q.dropped) (keys t.entries),
)

pub insert-IsPinned :
    (outside : ℕ → ℕ) (h b : ℕ) (t : PrefixCache) (p : Allocator)
    → IsPinned outside t
    → num_cached t < t.max_blocks
    → occ h (keys t.entries) ≡ 0
    → Gains t.pool (b ∷ []) p
    → IsPinned outside (insert h b (record t { pool = p }))
insert-IsPinned outside h b t p k room new g = record {
  well_formed = g.well_formed;
  counts = λ c. omega (
    arith,
    g.counts c,
    k.counts c,
    occ-cons c b [],
    occ-nil c,
    (snoc-counts h b c h t.entries).0,
  );
  distinct = λ c. ground (arith, k.distinct c, (snoc-counts h b c c t.entries).1, new);
  bounded = omega (arith, room, length-append t.entries (record { key = h; block = b } ∷ []));
}

-- What `register` and its loop leave.
pub record Registered (outside : ℕ → ℕ) (s s' : PrefixCache) : Type 0 where
  pub pinned : IsPinned outside s'
  pub same_max : s'.max_blocks ≡ s.max_blocks
  pub same_size : s'.pool.block_size ≡ s.pool.block_size

Registered-refl : (outside : ℕ → ℕ) (s : PrefixCache) → IsPinned outside s → Registered outside s s
Registered-refl outside s k = record { pinned = k; same_max = refl; same_size = refl }

Registered-trans :
    (outside : ℕ → ℕ) (s t u : PrefixCache)
    → t.max_blocks ≡ s.max_blocks
    → t.pool.block_size ≡ s.pool.block_size
    → Registered outside t u
    → Registered outside s u
Registered-trans outside s t u e e' q = record {
  pinned = q.pinned;
  same_max = q.same_max ∙ e;
  same_size = q.same_size ∙ e';
}

pub get_elem?-live :
    (outside : ℕ → ℕ) (blocks : List ℕ) (i b : ℕ)
    → ((c : ℕ) → 0 < occ c blocks → 0 < outside c)
    → get_elem? blocks i ≡ some b
    → 0 < outside b
get_elem?-live outside [] i b h e = absurd (cc e)
get_elem?-live outside (x ∷ xs) zero b h e =
    let same : x ≡ b = cc e in
    subst (λ y. 0 < outside y) same (h x (omega (arith, occ-cons x x xs, eq_mark_self x)))
get_elem?-live outside (x ∷ xs) (suc i) b h e =
    get_elem?-live outside xs i b (λ c l. h c (omega (arith, occ-cons c x xs))) e

add_entry_full :
    (h b : ℕ) (rest : Action PrefixCache ℕ) (t : PrefixCache)
    → leb t.max_blocks (num_cached t) ≡ true
    → add_entry h b rest t ≡ (ok 0, t)
unfolding add_entry
add_entry_full h b rest t e = rw (e, add_entry) refl

pub add_entry_room :
    (h b : ℕ) (rest : Action PrefixCache ℕ) (t : PrefixCache) (p : Allocator) (n : ℕ)
    (s' : PrefixCache)
    → leb t.max_blocks (num_cached t) ≡ false
    → Allocator.incref (b ∷ []) t.pool ≡ (ok tt, p)
    → rest (insert h b (record t { pool = p })) ≡ (ok n, s')
    → add_entry h b rest t ≡ (ok (n + 1), s')
unfolding add_entry
add_entry_room h b rest t p n s' e taken run = rw (e, add_entry) (rw taken (rw run refl))

pub register_step :
    (blocks : List ℕ) (i b n : ℕ) (h : ℕ × List ℕ) (hs : List (ℕ × List ℕ)) (s t s' : PrefixCache)
    → get_elem? blocks i ≡ some b
    → find_entry h.0 s.entries ≡ none
    → evict_if_needed s ≡ (ok tt, t)
    → add_entry h.0 b (register_loop blocks (i + 1) hs) t ≡ (ok n, s')
    → register_loop blocks i (h ∷ hs) s ≡ (ok n, s')
unfolding register_loop
register_step blocks i b n h hs s t s' here new evicted run =
    rw (here, register_loop) (rw new (rw evicted run))

register_loop-Registered :
    (outside : ℕ → ℕ) (blocks : List ℕ) (i : ℕ) (hs : List (ℕ × List ℕ)) (s : PrefixCache)
    → ((c : ℕ) → 0 < occ c blocks → 0 < outside c)
    → IsPinned outside s
    → (n : ℕ) × (s' : PrefixCache) × (register_loop blocks i hs s ≡ (ok n, s'))
      × Registered outside s s'
unfolding register_loop
register_loop-Registered outside blocks i [] s live k = (0, s, refl, Registered-refl outside s k)
register_loop-Registered outside blocks i (h ∷ hs) s live k =
    elim (Option-cases (get_elem? blocks i)) [
      | inl short ↦
          let (n, s', run, q) = register_loop-Registered outside blocks (i + 1) hs s live k in
          (n, s', rw (short, register_loop) run, q)
      | inr (b, here) ↦ elim (Option-cases (find_entry h.0 s.entries)) [
        | inr (c, there) ↦
            let (n, s', run, q) = register_loop-Registered outside blocks (i + 1) hs s live k in
            (n, s', rw (here, register_loop) (rw there run), q)
        | inl new ↦
            let (t, evicted, w) = evict_if_needed-Shrunk outside s k in
            elim (Bool-cases (leb t.max_blocks (num_cached t))) [
              | inl full ↦ (
                0,
                t,
                register_step blocks i b 0 h hs s t t here new evicted
                    (add_entry_full h.0 b (register_loop blocks (i + 1) hs) t full),
                Registered-trans outside s t t w.same_max w.same_size
                    (Registered-refl outside t w.pinned),
              )
              | inr room ↦
                  let held : 0 < refs t.pool b =
                    omega (arith, w.pinned.counts b, get_elem?-live outside blocks i b live here) in
                  let (p, taken, g, _) =
                    incref_adds t.pool (b ∷ []) w.pinned.well_formed (held, tt) in
                  let u = insert h.0 b (record t { pool = p }) in
                  let ku : IsPinned outside u =
                    insert-IsPinned outside h.0 b t p w.pinned (ground arith)
                      (Shrunk-absent outside h.0 s t w new) g in
                  let (n, s', run, q) =
                    register_loop-Registered outside blocks (i + 1) hs u live ku in
                  (
                    n + 1,
                    s',
                    register_step blocks i b (n + 1) h hs s t s' here new evicted (
                        add_entry_room h.0 b (register_loop blocks (i + 1) hs) t p n s' room taken
                          run),
                    Registered-trans outside s u s' w.same_max (g.shape.same_size ∙ w.same_size) q,
                  )
            ]
      ]
    ]

-- `register(token_ids, blocks)` of a cache that owns one reference for each of its entries, called
-- with blocks that somebody outside the cache holds, always returns normally, whatever it evicts:
-- the references of all holders outside are untouched, the cache again owns exactly one reference
-- for each of its entries, no key stands twice, and there are no more entries than allowed.
pub register_lem :
    (chain_hash : Option ℕ → List ℕ → ℕ) (outside : ℕ → ℕ) (token_ids blocks : List ℕ)
    (s : PrefixCache)
    → ((c : ℕ) → 0 < occ c blocks → 0 < outside c)
    → IsPinned outside s
    → (n : ℕ) × (s' : PrefixCache) × (register chain_hash token_ids blocks s ≡ (ok n, s'))
      × Registered outside s s'
unfolding register
register_lem chain_hash outside token_ids blocks s live k =
    register_loop-Registered outside blocks 0 (block_hashes chain_hash token_ids s) s live k
