-- ===== src/Cache/Paged/Gather.antt =====
-- `gather` and `_write` of edgerag/cache/paged.py, position by position.
use edgerag.Prelude.{
  List, ℕ, get_or, ◌≡◌, ◌<◌, ◌/◌, ◌+◌, ◌∷◌, length, arith, ◌%◌, ◌*◌, suc, ap, ◌∙◌, refl, sym, zero,
  [], ◌≤◌,
}
use edgerag.Cache.Paged.{Arena, cells_from, flatten, Paged, gather_pool, seq_len}
use edgerag.Cache.Paged.Tabulate.{tabulate, tabulate-congr, tabulate_add, take-tabulate}

-- The block and the slot of a position.
abbrev pub spot : List ℕ → ℕ → ℕ → ℕ × ℕ
spot blocks size p = (get_or blocks (p / size) 0, p % size)

module _ {A : Type 0} where
  -- The cell of a layer at a position of the table.
  abbrev pub read : Arena A → ℕ → List ℕ → ℕ → ℕ → A
  read arena l blocks size p = arena l (spot blocks size p).0 (spot blocks size p).1

  cells_from-tabulate :
      (arena : Arena A) (l b o n : ℕ)
      → cells_from arena l b o n ≡ tabulate n (λ i. arena l b (o + i))
  cells_from-tabulate arena l b o zero = refl
  cells_from-tabulate arena l b o (suc n) =
      let first : arena l b o ≡ arena l b (o + 0) = ap (arena l b) (omega arith) in
      let rest : tabulate n (λ i. arena l b (o + 1 + i)) ≡ tabulate n (λ i. arena l b (o + suc i)) =
        tabulate-congr n (λ i. arena l b (o + 1 + i)) (λ i. arena l b (o + suc i))
          (λ i h. ap (arena l b) (omega arith)) in
      ap (◌∷◌ (arena l b o)) (cells_from-tabulate arena l b (o + 1) n ∙ rest)
      ∙ ap (λ a. a ∷ tabulate n (λ i. arena l b (o + suc i))) first

  first_block :
      (arena : Arena A) (l size b : ℕ) (bs : List ℕ) (i : ℕ)
      → i < size
      → arena l b (0 + i) ≡ read arena l (b ∷ bs) size i
  first_block arena l size b bs i inside =
      let e : i / size ≡ 0 = grind arith in
      let f : i % size ≡ 0 + i = grind arith in rw e (rw f refl)

  later_block :
      (arena : Arena A) (l size b : ℕ) (bs : List ℕ) (i : ℕ)
      → 0 < size
      → read arena l bs size i ≡ read arena l (b ∷ bs) size (size + i)
  later_block arena l size b bs i h =
      let e : (size + i) / size ≡ suc (i / size) = grind arith in
      let f : (size + i) % size ≡ i % size = grind arith in rw e (rw f refl)

  flatten-tabulate :
      (arena : Arena A) (l size : ℕ) (blocks : List ℕ)
      → 0 < size
      → flatten arena l size blocks ≡ tabulate (length blocks * size) (read arena l blocks size)
  flatten-tabulate arena l size [] h = let e : 0 * size ≡ 0 = omega arith in rw e refl
  flatten-tabulate arena l size (b ∷ bs) h =
      let count : suc (length bs) * size ≡ size + length bs * size = grind arith in
      let first : cells_from arena l b 0 size ≡ tabulate size (read arena l (b ∷ bs) size) =
        cells_from-tabulate arena l b 0 size
        ∙ tabulate-congr size (λ i. arena l b (0 + i)) (read arena l (b ∷ bs) size)
            (λ i inside. first_block arena l size b bs i inside) in
      let rest : flatten arena l size bs
          ≡ tabulate (length bs * size) (λ i. read arena l (b ∷ bs) size (size + i)) =
        flatten-tabulate arena l size bs h
        ∙ tabulate-congr (length bs * size) (read arena l bs size)
            (λ i. read arena l (b ∷ bs) size (size + i))
            (λ i inside. later_block arena l size b bs i h) in
      rw count (
        rw first
          (rw rest (sym (tabulate_add size (length bs * size) (read arena l (b ∷ bs) size)))))

  -- What a layer holds for the sequence: the cells at its positions, in order.
  abbrev pub contents : ℕ → Paged A → List A
  contents l s = tabulate (seq_len s) (read s.arena l s.view.table.blocks s.view.pool.block_size)

  -- The blocks are as many as the length needs, and the slack of the last one is cut off.
  pub gather_pool-contents :
      (l : ℕ) (s : Paged A)
      → 0 < s.view.pool.block_size
      → seq_len s ≤ length s.view.table.blocks * s.view.pool.block_size
      → gather_pool l s ≡ contents l s
  unfolding gather_pool
  gather_pool-contents l s h fits =
      let all = read s.arena l s.view.table.blocks s.view.pool.block_size in
      rw (flatten-tabulate s.arena l s.view.pool.block_size s.view.table.blocks h)
        (take-tabulate (seq_len s) (length s.view.table.blocks * s.view.pool.block_size) all fits)
