-- ===== src/Cache/Paged/Update.antt =====
-- `update` of edgerag/cache/paged.py: the two parts of one call.
use edgerag.Prelude.{
  ℕ, ◌≡◌, ◌≤◌, ◌+◌, ◌<◌, length, ◌*◌, ok, ◌/◌, ◌⊎◌, err, out_of_blocks, arith, List-cases, ◌-◌,
  List, inl, [], inr, ap, zero_cases, ◌∙◌, ◌∷◌, get_or, sym, ◌%◌, ◌++◌, length-append,
  get_or-append, Result, pos, refl, range_cases, subst,
}
use edgerag.Cache.Paged.{
  Paged, seq_len, range_end, unshare_write_range, unshare_loop, ◌+◌, Arena, begin_update,
}
use edgerag.Cache.Paged.Tabulate.{tabulate, tabulate-congr}
use edgerag.Cache.Paged.Gather.{read, spot, contents}
use edgerag.Cache.Paged.Private.{Kept, Kept-refl, unshare_loop-Kept, Refused}
use edgerag.Cache.BlockTable.Ownership.{IsOwned, IsExact, IsExact-slack}
use edgerag.Cache.BlockTable.Unshare.{entry}
use edgerag.Cache.BlockTable.{View}
use edgerag.Cache.Allocator.Sizing.{ceil_blocks}
use edgerag.Cache.BlockTable.Growth.{append_lem, out_of_memory, Appended, append-Appended, missing}
use edgerag.Cache.Paged.Write.{index_inside}
use mathlib.Core.List.{append-nil}
use edgerag.Cache.Allocator.{num_free}
use edgerag.Cache.BlockTable

-- Between the layers of one forward pass of `n` tokens: the table is as long as it will be, and the
-- positions from `start` on, which the layers still have to write, lie in blocks of this sequence
-- alone.
pub record Ready {A : Type 0} (others : ℕ → ℕ) (start n : ℕ) (s : Paged A) : Type 0 where
  pub owned : IsOwned others s.view
  pub exact : IsExact s.view
  pub tokens : seq_len s ≡ start + n
  pub pending : s.pending_tokens ≡ n
  pub private :
      (p : ℕ)
      → start ≤ p
      → p < start + n
      → others (spot s.view.table.blocks s.view.pool.block_size p).0 ≡ 0

-- No cell that was written for this sequence or belongs to another holder has changed.
pub record SameHistory {A : Type 0} (others : ℕ → ℕ) (s s' : Paged A) : Type 0 where
  pub owned : IsOwned others s'.view
  pub same_size : s'.view.pool.block_size ≡ s.view.pool.block_size
  pub same_first : s'.first_layer ≡ s.first_layer
  pub same_layers : s'.n_pool_layers ≡ s.n_pool_layers
  pub history :
      (l : ℕ)
      → l < s.n_pool_layers
      → tabulate (seq_len s) (read s'.arena l s'.view.table.blocks s'.view.pool.block_size)
        ≡ contents l s
  pub shared : (l b o : ℕ) → 0 < others b → s'.arena l b o ≡ s.arena l b o

div_le : (p q size : ℕ) → 0 < size → p ≤ q → p / size ≤ q / size
div_le p q size h l = grind arith

tail_only : (n size : ℕ) → 0 < size → ceil_blocks n size ≤ n / size + 1
tail_only n size h = grind arith

pub none_fit :
    (size start n : ℕ) (blocks : List ℕ)
    → start + n ≤ length blocks * size
    → blocks ≡ []
    → start + n ≤ 0
none_fit size start n blocks fits e =
    let z : length blocks ≡ 0 = ap length e in
    let f : length blocks * size ≡ 0 = rw z (omega arith) in omega (arith, f)

range_inside :
    (start n size count : ℕ)
    → 0 < size
    → start + n ≤ count * size
    → start / size + (range_end start n size - start / size) ≤ count
range_inside start n size count h fits = elim (zero_cases (start + n)) [
  | inl z ↦
      let e : start ≡ 0 = omega arith in
      let f : start / size ≡ 0 = rw e (grind arith) in ground (arith, z, f)
  | inr some ↦
      let last : (start + n - 1) / size < count = grind arith in
      let first : start / size ≤ count = grind arith in ground (arith, last, first)
]

in_range :
    (start n p size : ℕ)
    → 0 < size
    → start ≤ p
    → p < start + n
    → p / size < start / size + (range_end start n size - start / size)
in_range start n p size h from to =
    let last = div_le p (start + n - 1) size h (omega arith) in ground (arith, last)

private_spot :
    (others : ℕ → ℕ) (blocks : List ℕ) (size size' p : ℕ)
    → size' ≡ size
    → others (get_or blocks (p / size) 0) ≡ 0
    → others (spot blocks size' p).0 ≡ 0
private_spot others blocks size size' p e h = rw e h

module _ {A : Type 0} where
  pub fits_of_exact :
      (others : ℕ → ℕ) (s : Paged A)
      → IsOwned others s.view
      → IsExact s.view
      → seq_len s ≤ length s.view.table.blocks * s.view.pool.block_size
  fits_of_exact others s o x = (IsExact-slack s.view o.well_formed.positive x).0

  range_empty :
      (start n : ℕ) (s : Paged A)
      → s.view.table.blocks ≡ []
      → unshare_write_range start n s ≡ (ok tt, s)
  unfolding unshare_write_range
  range_empty start n s e = simp (e, unshare_write_range)

  range_runs :
      (start n : ℕ) (s : Paged A) (b : ℕ) (bs : List ℕ)
      → s.view.table.blocks ≡ b ∷ bs
      → unshare_write_range start n s
        ≡ unshare_loop
            (range_end start n s.view.pool.block_size - start / s.view.pool.block_size)
            (start / s.view.pool.block_size)
            s
  unfolding unshare_write_range
  range_runs start n s b bs e = simp (e, unshare_write_range)

  unshare_range-Kept :
      (others : ℕ → ℕ) (start n : ℕ) (s : Paged A)
      → IsOwned others s.view
      → start + n ≤ length s.view.table.blocks * s.view.pool.block_size
      → (s' : Paged A) × Kept others s s'
        × (((unshare_write_range start n s ≡ (ok tt, s'))
              × ((p : ℕ)
                  → start ≤ p
                  → p < start + n
                  → others (entry s'.view (p / s.view.pool.block_size)) ≡ 0))
            ⊎ ((unshare_write_range start n s ≡ (err out_of_blocks, s'))
                × Refused others (start / s.view.pool.block_size) (length s.view.table.blocks) s))
  unfolding unshare_write_range
  unshare_range-Kept others start n s o fits = elim (List-cases s.view.table.blocks) [
    | inl empty ↦ (
      s,
      Kept-refl others s o,
      inl (
        range_empty start n s empty,
        λ p from to.
            absurd (
              omega
                (arith, none_fit s.view.pool.block_size start n s.view.table.blocks fits empty)),
      ),
    )
    | inr (b, bs, some_block) ↦
        let size = s.view.pool.block_size in
        let first = start / size in
        let positive = o.well_formed.positive in
        let inside = range_inside start n size (length s.view.table.blocks) positive fits in
        let (t, k, run) =
          unshare_loop-Kept others (range_end start n size - first) first s o inside in
        (
          t,
          k,
          (elim run [
            | inr (e, (j, from, to, live, full)) ↦ inr (
              range_runs start n s b bs some_block ∙ e,
              (j, from, omega (arith, inside), live, full),
            )
            | inl (e, private) ↦ inl (
              range_runs start n s b bs some_block ∙ e,
              λ p from to.
                  private (p / size) (div_le start p size positive from)
                    (in_range start n p size positive from to),
            )
          ]),
        )
  ]

  read_same :
      (arena arena' : Arena A) (l size size' p : ℕ) (blocks blocks' : List ℕ)
      → size' ≡ size
      → arena' l (get_or blocks' (p / size) 0) (p % size)
        ≡ arena l (get_or blocks (p / size) 0) (p % size)
      → read arena' l blocks' size' p ≡ read arena l blocks size p
  read_same arena arena' l size size' p blocks blocks' e h = rw e h

  -- A table that has got blocks, and whose cells were kept since.
  SameHistory-Kept :
      (others : ℕ → ℕ) (s : Paged A) (v : View) (fresh : List ℕ) (n : ℕ) (t : Paged A)
      → IsOwned others s.view
      → IsExact s.view
      → v.table.blocks ≡ s.view.table.blocks ++ fresh
      → v.pool.block_size ≡ s.view.pool.block_size
      → Kept others (record s { view = v; pending_tokens = n }) t
      → SameHistory others s t
  SameHistory-Kept others s v fresh n t o x grown same k = record {
    owned = k.owned;
    same_size = k.same_block_size ∙ same;
    same_first = k.same_first;
    same_layers = k.same_layers;
    history = λ l low.
        tabulate-congr (seq_len s) (read t.arena l t.view.table.blocks t.view.pool.block_size)
          (read s.arena l s.view.table.blocks s.view.pool.block_size)
          (λ p inside.
            let size = s.view.pool.block_size in
            let i = p / size in
            let below : i < length s.view.table.blocks =
              index_inside p size (length s.view.table.blocks) o.well_formed.positive
                (omega (arith, fits_of_exact others s o x)) in
            let longer : i < length v.table.blocks =
              omega (arith, ap length grown, length-append s.view.table.blocks fresh) in
            let kept = k.reads l i (p % size) low longer in
            let at : get_or v.table.blocks i 0 ≡ get_or s.view.table.blocks i 0 =
              ap (λ xs. get_or xs i 0) grown ∙ get_or-append s.view.table.blocks fresh i 0 below in
            read_same s.arena t.arena l size t.view.pool.block_size p s.view.table.blocks
              t.view.table.blocks (k.same_block_size ∙ same)
              (kept ∙ ap (λ b. s.arena l b (p % size)) at));
    shared = k.shared;
  }

  IsExact-Kept :
      (others : ℕ → ℕ) (s t : Paged A) → IsExact s.view → Kept others s t → IsExact t.view
  IsExact-Kept others s t x k =
      k.same_count
      ∙ x
      ∙ ap (λ m. ceil_blocks m s.view.pool.block_size) (sym k.same_tokens)
      ∙ ap (λ m. ceil_blocks t.view.table.num_tokens m) (sym k.same_block_size)

  begin_run :
      (n start : ℕ) (fresh : List ℕ) (v : View) (r : Result (Unit {0})) (s t : Paged A)
      → BlockTable.append (pos n) s.view ≡ (ok fresh, v)
      → v.table.num_tokens - n ≡ start
      → unshare_write_range start n (record s { view = v; pending_tokens = n }) ≡ (r, t)
      → begin_update n s ≡ (r, t)
  unfolding begin_update
  begin_run n start fresh v r s t e from run =
      let s1 = record s { view = v; pending_tokens = n } in
      rw e (ap (λ m. unshare_write_range m n s1) from ∙ run)

  -- The pool has too few blocks for `n` more tokens: fewer than the table lacks, or just as many, while
  -- another holder has the block of the next token, so that one more would be needed for its copy.
  abbrev pub IsShort : (others : ℕ → ℕ) (n : ℕ) (s : Paged A) → Type 0
  IsShort others n s =
      (num_free s.view.pool < missing s.view (seq_len s + n))
      ⊎ ((num_free s.view.pool ≡ missing s.view (seq_len s + n))
          × (0 < others (entry s.view (seq_len s / s.view.pool.block_size))))

  -- Of the entries from the block of the next token on, an exact table had at most the first before
  -- it has grown.
  Refused-IsShort :
      (others : ℕ → ℕ) (n : ℕ) (fresh : List ℕ) (v : View) (s : Paged A)
      → IsOwned others s.view
      → IsExact s.view
      → v.table.blocks ≡ s.view.table.blocks ++ fresh
      → Appended others s.view n v
      → Refused others
          (seq_len s / s.view.pool.block_size)
          (length v.table.blocks)
          (record s { view = v; pending_tokens = n })
      → IsShort others n s
  Refused-IsShort others n fresh v s o x grown a (j, from, to, live, full) =
      let size = s.view.pool.block_size in
      let first = seq_len s / size in
      let old : j < length s.view.table.blocks = elim (range_cases j (length s.view.table.blocks)) [
        | inl h ↦ h
        | inr h ↦ absurd (omega (arith, a.private j h to))
      ] in
      let only : length s.view.table.blocks ≤ first + 1 =
        rw x (tail_only (seq_len s) size o.well_formed.positive) in
      let here : j ≡ first = omega (arith, old, only) in
      let same : get_or v.table.blocks j 0 ≡ get_or s.view.table.blocks j 0 =
        ap (λ xs. get_or xs j 0) grown ∙ get_or-append s.view.table.blocks fresh j 0 old in
      inr (
        omega (arith, full here, a.left),
        subst (λ i. 0 < others (entry s.view i)) here (subst (λ b. 0 < others b) same live),
      )

  -- The first part of a call on the first layer either makes room for `n` tokens, or raises, which it
  -- does only if the pool has too few blocks; what the sequence and the other holders had is as before
  -- in both cases.
  pub begin_update-Ready :
      (others : ℕ → ℕ) (n : ℕ) (s : Paged A)
      → IsOwned others s.view
      → IsExact s.view
      → (t : Paged A) × SameHistory others s t
        × (((begin_update n s ≡ (ok tt, t)) × Ready others (seq_len s) n t)
            ⊎ ((begin_update n s ≡ (err out_of_blocks, t)) × IsShort others n s))
  unfolding begin_update
  begin_update-Ready others n s o x = elim (append_lem others s.view n o x) [
    | inr (short, e, o') ↦
        let t = record s { view = out_of_memory s.view; pending_tokens = n } in
        (
          t,
          SameHistory-Kept others s (out_of_memory s.view) [] n t o x
              (sym (append-nil s.view.table.blocks)) refl (Kept-refl others t o'),
          inr (rw e refl, inl short),
        )
    | inl (fresh, v, e, longer, grown, x', o') ↦
        let s1 = record s { view = v; pending_tokens = n } in
        let a = append-Appended others s.view n fresh v o e in
        let from : seq_len s1 - n ≡ seq_len s = omega (arith, longer) in
        let (t, k, run) =
          unshare_range-Kept others (seq_len s) n s1 o'
            (omega (arith, longer, fits_of_exact others s1 o' x')) in
        (
          t,
          SameHistory-Kept others s v fresh n t o x grown a.same_size k,
          (elim run [
            | inr (e', refused) ↦ inr (
              begin_run n (seq_len s) fresh v (err out_of_blocks) s t e from e',
              Refused-IsShort others n fresh v s o x grown a (
                  subst (λ m. Refused others (seq_len s / m) (length v.table.blocks) s1) a.same_size
                    refused),
            )
            | inl (e', private) ↦ inl (
              begin_run n (seq_len s) fresh v (ok tt) s t e from e',
              record {
                owned = k.owned;
                exact = IsExact-Kept others s1 t x' k;
                tokens = k.same_tokens ∙ longer;
                pending = k.same_pending;
                private = λ p l h.
                    private_spot others t.view.table.blocks v.pool.block_size t.view.pool.block_size
                      p k.same_block_size (private p l h);
              },
            )
          ]),
        )
  ]
