-- ===== src/Cache/Sequences/Isolation.antt =====
-- A write of one sequence never lands in a block that another one reads.
use edgerag.Cache.Allocator.{Allocator, init}
use edgerag.Cache.BlockTable.{
  BlockTable, View, Writable, block_at, locate, writable_block_for, unshare,
}
use edgerag.Cache.BlockTable.Writes.{writable_block_for_lem}
use edgerag.Cache.Sequences.{
  Sequences, Reach, held, held-append, held-cons, occ, view, IsConsistent, IsConsistent→IsOwned,
  rest,
}
use edgerag.Cache.Sequences.Reachable.{start, reachable-IsConsistent}
use edgerag.Prelude.{
  ℤ, List, ℕ, ◌≡◌, ◌++◌, ◌∷◌, ok, ◌<◌, ◌/◌, negsuc, length, ◌≢◌, arith, pos, range_cases,
  Result-cases, inl, suc, ◌∙◌, inr, ap, ok_pair, [], sym, zero,
}
use edgerag.Prelude.Counting.{occ-cons, eq_mark_self}
use edgerag.Cache.BlockTable.Locate.{block_at_err}

block_at-occ : (bs : List ℕ) (i b : ℕ) → block_at bs i ≡ ok b → 0 < occ b bs
block_at-occ [] i b e = absurd (cc)
block_at-occ (x ∷ bs) zero b e = ground (arith, occ-cons b x bs, eq_mark_self b)
block_at-occ (x ∷ bs) (suc i) b e = omega (arith, occ-cons b x bs, block_at-occ bs i b e)

-- What `locate` returns is in the table.
locate-occ :
    (v : View) (z : ℤ) (b offset : ℕ) → locate z v ≡ ok (b, offset) → 0 < occ b v.table.blocks
unfolding locate
locate-occ v (negsuc q) b offset e = absurd (cc)
locate-occ v (pos q) b offset e =
    elim (Result-cases (block_at v.table.blocks (q / v.pool.block_size))) [
      | inl (c, found) ↦
          let same : c ≡ b = ground arith in
          block_at-occ v.table.blocks (q / v.pool.block_size) b (found ∙ ap ok same)
      | inr (x, missing) ↦ absurd (ground arith)
    ]

-- A write that returns normally was at a position whose block the table has.
writable-inside :
    (v v' : View) (p : ℕ) (w : Writable)
    → writable_block_for p v ≡ (ok w, v')
    → p / v.pool.block_size < length v.table.blocks
unfolding writable_block_for unshare
writable-inside v v' p w e = elim (range_cases (p / v.pool.block_size) (length v.table.blocks)) [
  | inl inside ↦ inside
  | inr outside ↦
      absurd (cc (rw (block_at_err v.table.blocks (p / v.pool.block_size) outside) at e))
]

held-member :
    (xs ys : List BlockTable) (u : BlockTable) (b : ℕ)
    → held (xs ++ u ∷ ys) b ≡ 0
    → occ b u.blocks ≡ 0
held-member xs ys u b h = omega (arith, held-append xs (u ∷ ys) b, held-cons u ys b)

-- After any history, whenever `writable_block_for` of one table returns a block, no position of any
-- other table is read from that block: `locate` of another table never names it.
pub write_isolated :
    (n size : ℤ) (a : Allocator) (s : Sequences) (before after : List BlockTable) (t : BlockTable)
    (p : ℕ) (w : Writable) (v' : View) (xs ys : List BlockTable) (u : BlockTable) (z : ℤ)
    (b offset : ℕ)
    → init n size ≡ ok a
    → Reach (start a) s
    → s.tables ≡ before ++ t ∷ after
    → writable_block_for p (view s t) ≡ (ok w, v')
    → before ++ after ≡ xs ++ u ∷ ys
    → locate z (record v' { table = u }) ≡ ok (b, offset)
    → b ≢ w.block
write_isolated n size a s before after t p w v' xs ys u z b offset e r split wrote other found
      same =
    let c = reachable-IsConsistent n size a s e r in
    let c' : IsConsistent s.pool (before ++ t ∷ after) = rw split at c in
    let o = IsConsistent→IsOwned s.pool before after t c' in
    let inside = writable-inside (view s t) v' p w wrote in
    elim (writable_block_for_lem (rest before after) (view s t) p o inside) [
      | inl (w', v'', e', x) ↦
          let (one, _) = ok_pair w w' v' v'' wrote e' in
          let unread : rest before after w.block ≡ 0 = rw one x.unread in
          let absent : occ w.block u.blocks ≡ 0 =
            held-member xs ys u w.block (
              ap (λ ts. held ts w.block) (sym other) ∙ held-append before after w.block ∙ unread) in
          omega (
            arith,
            locate-occ (record v' { table = u }) z b offset found,
            ap (λ k. occ k u.blocks) same,
          )
      | inr (_, _, e') ↦ cc (sym e' ∙ wrote)
    ]
