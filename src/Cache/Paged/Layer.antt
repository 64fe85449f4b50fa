-- ===== src/Cache/Paged/Layer.antt =====
-- `update` of edgerag/cache/paged.py: the part that every layer runs.
use edgerag.Cache.Paged.Update.{Ready, fits_of_exact, none_fit}
use edgerag.Prelude.{
  ℕ, ◌≡◌, ◌≤◌, ◌+◌, ◌<◌, length, ◌*◌, ok, arith, List-cases, ◌-◌, List, inl, [], inr, ap, ◌∙◌, ◌∷◌,
  get_or, sym, ◌++◌, refl, if◌then◌else◌, ltb, lt→ltb, false, get_or-in_range,
}
use edgerag.Cache.Paged.{Paged, seq_len, ◌+◌, gather, pool_index, gather_pool, write_layer, write}
use edgerag.Cache.Paged.Tabulate.{tabulate, tabulate-append}
use edgerag.Cache.Paged.Gather.{read, contents, gather_pool-contents}
use edgerag.Cache.Paged.Write.{written, written_block, read-written}

module _ {A : Type 0} where
  no_contents : (l : ℕ) (s : Paged A) → seq_len s ≡ 0 → ok [] ≡ ok (contents l s)
  no_contents l s e =
      ap (λ n. ok (tabulate n (read s.arena l s.view.table.blocks s.view.pool.block_size))) (sym e)

  first_part :
      (start p : ℕ) (old : ℕ → A) (rows : List A) (a : A)
      → p < start
      → a ≡ (if ltb p start then old p else get_or rows (p - start) (old p))
      → a ≡ old p
  first_part start p old rows a h e = e ∙ rw (lt→ltb p start h) refl

  second_part :
      (start i : ℕ) (old : ℕ → A) (rows : List A) (a : A)
      → i < length rows
      → a ≡ (
          if ltb (start + i) start
          then old (start + i)
          else get_or rows (start + i - start) (old (start + i)))
      → a ≡ get_or rows i a
  second_part start i old rows a h e =
      let f : ltb (start + i) start ≡ false = ground arith in
      let g : start + i - start ≡ i = omega arith in
      e ∙ rw f (rw g (get_or-in_range rows i (old (start + i)) a h))

  -- The state after the rows of one layer were written.
  abbrev pub layer_written : ℕ → List A → ℕ → Paged A → Paged A
  layer_written l rows start s = record s {
    arena = written l s.view.table.blocks s.view.pool.block_size rows start s.arena;
  }

  gather_empty : (layer : ℕ) (s : Paged A) → s.view.table.blocks ≡ [] → gather layer s ≡ ok []
  unfolding gather
  gather_empty layer s e = simp (e, gather)

  gather_some :
      (layer l b : ℕ) (bs : List ℕ) (s : Paged A)
      → s.view.table.blocks ≡ b ∷ bs
      → pool_index layer s ≡ ok l
      → gather layer s ≡ ok (gather_pool l s)
  unfolding gather
  gather_some layer l b bs s some_block e = simp (some_block, gather, e)

  pub gather-contents :
      (layer l : ℕ) (s : Paged A)
      → 0 < s.view.pool.block_size
      → seq_len s ≤ length s.view.table.blocks * s.view.pool.block_size
      → pool_index layer s ≡ ok l
      → gather layer s ≡ ok (contents l s)
  gather-contents layer l s h fits e = elim (List-cases s.view.table.blocks) [
    | inl empty ↦
        let nothing : seq_len s ≡ 0 = omega (
          arith,
          none_fit s.view.pool.block_size 0 (seq_len s) s.view.table.blocks (omega (arith, fits))
              empty,
        ) in
        gather_empty layer s empty ∙ no_contents l s nothing
    | inr (b, bs, some_block) ↦
        gather_some layer l b bs s some_block e ∙ ap (λ xs. ok xs) (gather_pool-contents l s h fits)
  ]

  pub write_layer_run :
      (rows : List A) (layer l start : ℕ) (s : Paged A)
      → pool_index layer s ≡ ok l
      → seq_len s - s.pending_tokens ≡ start
      → write l rows start s ≡ (ok tt, layer_written l rows start s)
      → write_layer rows layer s
        ≡ (gather layer (layer_written l rows start s), layer_written l rows start s)
  unfolding write_layer
  write_layer_run rows layer l start s e from run =
      let begins : write l rows (seq_len s - s.pending_tokens) s
          ≡ (ok tt, layer_written l rows start s) =
        ap (λ m. write l rows m s) from ∙ run in
      rw e (rw begins refl)

  module _ (others : ℕ → ℕ) (start : ℕ) (rows : List A) (l : ℕ) (s : Paged A)
      (r : Ready others start (length rows) s) where
    pub room : start + length rows ≤ length s.view.table.blocks * s.view.pool.block_size
    room = omega (arith, r.tokens, fits_of_exact others s r.owned r.exact)

    pub layer_written-Ready : Ready others start (length rows) (layer_written l rows start s)
    layer_written-Ready = record {
      owned = r.owned;
      exact = r.exact;
      tokens = r.tokens;
      pending = r.pending;
      private = r.private;
    }

    pub layer_written-shared :
        (k b o : ℕ) → 0 < others b → (layer_written l rows start s).arena k b o ≡ s.arena k b o
    layer_written-shared k b o h =
        written_block l s.view.table.blocks s.view.pool.block_size rows start s.arena k b o
          (λ p from to e. omega (arith, r.private p from to, ap others e))

    pub layer_written-contents :
        contents l (layer_written l rows start s)
        ≡ tabulate start (read s.arena l s.view.table.blocks s.view.pool.block_size) ++ rows
    layer_written-contents =
        let t = layer_written l rows start s in
        let size = s.view.pool.block_size in
        let old = read s.arena l s.view.table.blocks size in
        let new = read t.arena l s.view.table.blocks size in
        let at : (p : ℕ)
            → p < start + length rows
            → new p ≡ (if ltb p start then old p else get_or rows (p - start) (old p)) =
          λ p inside.
            read-written l s.view.table.blocks size rows start p s.arena
              r.owned.well_formed.positive r.owned.once room (omega (arith, room)) in
        ap (λ n. tabulate n new) r.tokens
        ∙ tabulate-append start rows old new
            (λ p inside. first_part start p old rows (new p) inside (at p (omega arith)))
            (λ i inside.
              second_part start i old rows (new (start + i)) inside (at (start + i) (omega arith)))
