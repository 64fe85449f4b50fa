-- ===== src/Cache/Paged/Private.antt =====
-- `_unshare_write_range` of edgerag/cache/paged.py: the written blocks become private, and every cell
-- that can be read keeps its value.
use edgerag.Prelude.{
  ℕ, ◌≡◌, ◌∙◌, ◌<◌, ◌+◌, arith, ◌≤◌, length, Bool-cases, length-set, eqb_refl, if◌then◌else◌, ◌==◌,
  refl, ok, get_or-set, false, inl, ◌⊎◌, inr, ltb, err, ap, true, out_of_blocks, suc, zero, subst,
}
use edgerag.Cache.Paged.{Paged, unshare_copy, unshare_loop, copy_block, ◌+◌}
use edgerag.Cache.Allocator.{Allocator, refs, num_free}
use edgerag.Cache.BlockTable.Ownership.{IsOwned, IsOwned-stats}
use edgerag.Cache.BlockTable.Growth.{out_of_memory}
use edgerag.Cache.BlockTable.Unshare.{entry, swapped, unshare_lem}
use edgerag.Prelude.Counting.{occ, occ-get_or}

-- The pool and the table are consistent still, as long as before, and no cell that the sequence or
-- another holder can read has changed.
pub record Kept {A : Type 0} (others : ℕ → ℕ) (s s' : Paged A) : Type 0 where
  pub owned : IsOwned others s'.view
  pub same_tokens : s'.view.table.num_tokens ≡ s.view.table.num_tokens
  pub same_count : length s'.view.table.blocks ≡ length s.view.table.blocks
  pub same_block_size : s'.view.pool.block_size ≡ s.view.pool.block_size
  pub same_first : s'.first_layer ≡ s.first_layer
  pub same_layers : s'.n_pool_layers ≡ s.n_pool_layers
  pub same_pending : s'.pending_tokens ≡ s.pending_tokens
  pub reads :
      (l i o : ℕ)
      → l < s.n_pool_layers
      → i < length s.view.table.blocks
      → s'.arena l (entry s'.view i) o ≡ s.arena l (entry s.view i) o
  pub shared : (l b o : ℕ) → 0 < others b → s'.arena l b o ≡ s.arena l b o
  pub stays_private :
      (i : ℕ)
      → i < length s.view.table.blocks
      → others (entry s.view i) ≡ 0
      → others (entry s'.view i) ≡ 0

module _ {A : Type 0} where
  pub Kept-refl : (others : ℕ → ℕ) (s : Paged A) → IsOwned others s.view → Kept others s s
  Kept-refl others s o = record {
    owned = o;
    same_tokens = refl;
    same_count = refl;
    same_block_size = refl;
    same_first = refl;
    same_layers = refl;
    same_pending = refl;
    reads = λ l i q _ _. refl;
    shared = λ l b q _. refl;
    stays_private = λ i _ h. h;
  }

  pub Kept-trans :
      (others : ℕ → ℕ) (s t u : Paged A) → Kept others s t → Kept others t u → Kept others s u
  Kept-trans others s t u k m = record {
    owned = m.owned;
    same_tokens = m.same_tokens ∙ k.same_tokens;
    same_count = m.same_count ∙ k.same_count;
    same_block_size = m.same_block_size ∙ k.same_block_size;
    same_first = m.same_first ∙ k.same_first;
    same_layers = m.same_layers ∙ k.same_layers;
    same_pending = m.same_pending ∙ k.same_pending;
    reads = λ l i q inside here.
        m.reads l i q (omega (arith, k.same_layers)) (omega (arith, k.same_count))
        ∙ k.reads l i q inside here;
    shared = λ l b q h. m.shared l b q h ∙ k.shared l b q h;
    stays_private =
        λ i here h. m.stays_private i (omega (arith, k.same_count)) (k.stays_private i here h);
  }

  -- A refused allocation only counts the event.
  refused-Kept :
      (others : ℕ → ℕ) (s : Paged A)
      → IsOwned others s.view
      → Kept others s (record s { view = out_of_memory s.view })
  refused-Kept others s o = record {
    owned = IsOwned-stats others s.view (out_of_memory s.view).pool.stats o;
    same_tokens = refl;
    same_count = refl;
    same_block_size = refl;
    same_first = refl;
    same_layers = refl;
    same_pending = refl;
    reads = λ l i q _ _. refl;
    shared = λ l b q _. refl;
    stays_private = λ i _ h. h;
  }

  module _ (others : ℕ → ℕ) (s : Paged A) (i new : ℕ) (a' : Allocator) (o : IsOwned others s.view)
      (inside : i < length s.view.table.blocks) (was_free : refs s.view.pool new ≡ 0)
      (same : a'.block_size ≡ s.view.pool.block_size)
      (o' : IsOwned others (swapped s.view i new a')) where
    abbrev copied : Paged A
    copied = copy_block (entry s.view i) new (record s { view = swapped s.view i new a' })

    copied_entry :
        (j : ℕ) → entry (swapped s.view i new a') j ≡ (if i == j then new else entry s.view j)
    copied_entry j = get_or-set s.view.table.blocks i j new 0 inside

    fresh : others new ≡ 0
    fresh = omega (arith, o.counts new)

    -- No entry of the table was the new block.
    not_new : (j : ℕ) → j < length s.view.table.blocks → (entry s.view j == new) ≡ false
    not_new j h = elim (Bool-cases (entry s.view j == new)) [
      | inr d ↦ d
      | inl d ↦
          let e : entry s.view j ≡ new = ground arith in
          absurd (
            omega (
              arith,
              o.counts new,
              occ-get_or s.view.table.blocks j h,
              ap (λ x. occ x s.view.table.blocks) e,
            ))
    ]

    copied-reads :
        (l j q : ℕ)
        → l < s.n_pool_layers
        → j < length s.view.table.blocks
        → copied.arena l (entry copied.view j) q ≡ s.arena l (entry s.view j) q
    copied-reads l j q low here = elim (Bool-cases (i == j)) [
      | inl d ↦
          let e : i ≡ j = ground arith in
          let at : entry copied.view j ≡ new = copied_entry j ∙ rw d refl in
          let below : ltb l s.n_pool_layers ≡ true = ground arith in
          rw at (rw (eqb_refl new) (rw below (rw e refl)))
      | inr d ↦
          let at : entry copied.view j ≡ entry s.view j = copied_entry j ∙ rw d refl in
          rw at (rw (not_new j here) refl)
    ]

    copied-Kept : Kept others s copied
    copied-Kept = record {
      owned = o';
      same_tokens = refl;
      same_count = length-set s.view.table.blocks i new;
      same_block_size = same;
      same_first = refl;
      same_layers = refl;
      same_pending = refl;
      reads = copied-reads;
      shared = λ l b q h. let d : (b == new) ≡ false = ground (arith, fresh) in rw d refl;
      stays_private = λ j here h. ground (arith, copied_entry j, fresh, h);
    }

    copied_private : others (entry copied.view i) ≡ 0
    copied_private = ground (arith, copied_entry i, eqb_refl i, fresh)

  unshare_copy-Kept :
      (others : ℕ → ℕ) (i : ℕ) (s : Paged A)
      → IsOwned others s.view
      → i < length s.view.table.blocks
      → (s' : Paged A) × Kept others s s'
        × (((unshare_copy i s ≡ (ok tt, s')) × (others (entry s'.view i) ≡ 0))
            ⊎ ((unshare_copy i s ≡ (err out_of_blocks, s'))
                × (0 < others (entry s.view i))
                × (num_free s.view.pool ≡ 0)))
  unfolding unshare_copy
  unshare_copy-Kept others i s o inside = elim (unshare_lem others s.view i o inside) [
    | inl (private, e) ↦ (s, Kept-refl others s o, inl (rw e refl, private))
    | inr (inl (_, (new, a', e, free, same, o'))) ↦ (
      copied others s i new a' o inside free same o',
      copied-Kept others s i new a' o inside free same o',
      inl (rw e refl, copied_private others s i new a' o inside free same o'),
    )
    | inr (inr (live, full, e)) ↦ (
      record s { view = out_of_memory s.view },
      refused-Kept others s o,
      inr (rw e refl, live, full),
    )
  ]

  -- A refused copy: an entry from `i` to `last` is shared, and if it is `i`, then no block was free.
  abbrev pub Refused : (others : ℕ → ℕ) (i last : ℕ) (s : Paged A) → Type 0
  Refused others i last s =
      (j : ℕ) × (i ≤ j)
      × (j < last)
      × (0 < others (entry s.view j))
      × ((j ≡ i) → num_free s.view.pool ≡ 0)

  Refused-later :
      (others : ℕ → ℕ) (i last : ℕ) (s t : Paged A)
      → Kept others s t
      → last ≤ length s.view.table.blocks
      → Refused others (i + 1) last t
      → Refused others i last s
  Refused-later others i last s t k inside (j, from, to, live, _) = (
    j,
    omega arith,
    to,
    ground (arith, k.stays_private j (omega arith)),
    λ e. absurd (omega arith),
  )

  pub unshare_loop-Kept :
      (others : ℕ → ℕ) (count i : ℕ) (s : Paged A)
      → IsOwned others s.view
      → i + count ≤ length s.view.table.blocks
      → (s' : Paged A) × Kept others s s'
        × (((unshare_loop count i s ≡ (ok tt, s'))
              × ((j : ℕ) → i ≤ j → j < i + count → others (entry s'.view j) ≡ 0))
            ⊎ ((unshare_loop count i s ≡ (err out_of_blocks, s')) × Refused others i (i + count) s))
  unfolding unshare_loop
  unshare_loop-Kept others zero i s o inside =
      (s, Kept-refl others s o, inl (refl, λ j from to. absurd (omega arith)))
  unshare_loop-Kept others (suc count) i s o inside =
      let (t, k, first) = unshare_copy-Kept others i s o (omega arith) in
      elim first [
        | inr (e, live, full) ↦
            (t, k, inr (rw e refl, (i, omega arith, omega arith, live, λ _. full)))
        | inl (e, private) ↦
            let (u, m, rest) =
              unshare_loop-Kept others count (i + 1) t k.owned (omega (arith, k.same_count)) in
            (
              u,
              Kept-trans others s t u k m,
              (elim rest [
                | inr (e', refused) ↦
                    let total : i + 1 + count ≡ i + suc count = omega arith in
                    inr (
                      rw e e',
                      Refused-later others i (i + suc count) s t k inside
                          (subst (λ m. Refused others (i + 1) m t) total refused),
                    )
                | inl (e', later) ↦ inl (
                  rw e e',
                  λ j from to. elim (Bool-cases (i == j)) [
                    | inl d ↦
                        let q : i ≡ j = ground arith in
                        rw⁻¹ q (m.stays_private i (omega (arith, k.same_count)) private)
                    | inr d ↦ later j (ground arith) (omega arith)
                  ],
                )
              ]),
            )
      ]
