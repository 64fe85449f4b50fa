-- ===== src/Cache/Sequences/Reachable.antt =====
-- What holds after any history of calls on any number of tables.
use edgerag.Prelude.{List, ◌++◌, ◌∷◌, ◌≡◌, ok, sym, ◌∙◌, ok_pair, ℤ, arith, [], inl, ap, inr, subst}
use mathlib.Core.Path.{subst₂}
use edgerag.Cache.Allocator.{Allocator, num_free, init}
use edgerag.Cache.Allocator.Conservation.{num_free-add-live_blocks, live_blocks_none}
use edgerag.Cache.BlockTable.{BlockTable, View, fork, empty_table}
use edgerag.Cache.Sequences.{
  Sequences, Step, Reach, opens, calls, forks, closes, IsConsistent, ◌++◌, view,
  IsConsistent→IsOwned, fork_lem, rest, next, others-NoRepeats, held-cons, held-append,
  NoRepeats-append, held, IsOwned→IsConsistent, held-nil, perform-IsOwned, held-middle, occ, here,
}
use edgerag.Cache.Allocator.Fresh.{init_lem}
use edgerag.Prelude.Counting.{occ-nil}

-- The two tables that a fork leaves, put back among the others.
module _ (before after : List BlockTable) (t : BlockTable) (s : Sequences)
    (c : IsConsistent s.pool (before ++ t ∷ after)) where
  fork_keeps :
      (t' : BlockTable) (v : View)
      → fork (view s t) ≡ (ok t', v)
      → IsConsistent v.pool (before ++ v.table ∷ t' ∷ after)
  fork_keeps t' v e =
      let o = IsConsistent→IsOwned s.pool before after t c in
      let (a', e', _, _, o') = fork_lem (rest before after) (view s t) o in
      let (same, after_fork) = ok_pair t t' (record { pool = a'; table = t }) v e' e in
      let (n, m) = others-NoRepeats s.pool before after t c in
      subst₂ (λ u w. IsConsistent w.pool (before ++ w.table ∷ u ∷ after)) same after_fork
        (record {
          well_formed = o'.well_formed;
          counts = λ b. omega (
            arith,
            o'.counts b,
            held-append before (t ∷ t ∷ after) b,
            held-cons t (t ∷ after) b,
            held-cons t after b,
          );
          no_repeats = NoRepeats-append before (t ∷ t ∷ after) n (o.once, (o.once, m));
        })

-- One step keeps every count equal to the number of references held.
pub Step-IsConsistent :
    {s s' : Sequences} → Step s s' → IsConsistent s.pool s.tables → IsConsistent s'.pool s'.tables
Step-IsConsistent {s} {s'} (opens e) c = rw e (record {
  well_formed = c.well_formed;
  counts = λ b. omega (arith, c.counts b, held-cons empty_table s.tables b, occ-nil b);
  no_repeats = ((λ b. omega (arith, occ-nil b)), c.no_repeats);
})
Step-IsConsistent {s} {s'} (calls call before after t e ep et) c =
    let c' : IsConsistent s.pool (before ++ t ∷ after) = rw e at c in
    rw (ep, et)
      (IsOwned→IsConsistent _ before after _ (others-NoRepeats s.pool before after t c') (
        perform-IsOwned (rest before after) (view s t) call
          (IsConsistent→IsOwned s.pool before after t c')))
Step-IsConsistent {s} {s'} (forks before after t t' v e f ep et) c =
    let c' : IsConsistent s.pool (before ++ t ∷ after) = rw e at c in
    rw (ep, et) (fork_keeps before after t s c' t' v f)
Step-IsConsistent {s} {s'} (closes before after t e empty e') c =
    let c' : IsConsistent s.pool (before ++ t ∷ after) = rw e at c in
    let (n, m) = others-NoRepeats s.pool before after t c' in
    rw e' (record {
      well_formed = c'.well_formed;
      counts = λ b. omega (
        arith,
        c'.counts b,
        held-middle before after t b,
        held-append before after b,
        ap (occ b) empty,
        occ-nil b,
      );
      no_repeats = NoRepeats-append before after n m;
    })

pub Reach-IsConsistent :
    {s s' : Sequences} → IsConsistent s.pool s.tables → Reach s s' → IsConsistent s'.pool s'.tables
Reach-IsConsistent c here = c
Reach-IsConsistent c (next r st) = Step-IsConsistent st (Reach-IsConsistent c r)

-- A pool without tables, as the allocator's constructor leaves it.
abbrev pub start : Allocator → Sequences
start a = record { pool = a; tables = [] }

start-IsConsistent : (n size : ℤ) (a : Allocator) → init n size ≡ ok a → IsConsistent a []
start-IsConsistent n size a e = elim (init_lem n size) [
  | inl (bad, _) ↦ absurd (cc)
  | inr (a', good, wf, _, _, _, zero_refs) ↦
      let same : a' ≡ a = cc in
      subst (λ p. IsConsistent p []) same
        (record { well_formed = wf; counts = λ b. zero_refs b ∙ sym (held-nil b); no_repeats = tt })
]

-- After any history of appends, growths, writes, frees, forks, openings and closings of tables, with
-- any arguments and whatever raised on the way, the pool is well formed, the count of every block is
-- exactly the number of references that the tables hold, and no table lists a block twice.
pub reachable-IsConsistent :
    (n size : ℤ) (a : Allocator) (s : Sequences)
    → init n size ≡ ok a
    → Reach (start a) s
    → IsConsistent s.pool s.tables
reachable-IsConsistent n size a s e r = Reach-IsConsistent (start-IsConsistent n size a e) r

-- No history leaks a block: whenever all tables have been closed, the free list is as long as the
-- pool is large.
pub reachable_no_leak :
    (n size : ℤ) (a : Allocator) (s : Sequences)
    → init n size ≡ ok a
    → Reach (start a) s
    → s.tables ≡ []
    → num_free s.pool ≡ s.pool.num_blocks
reachable_no_leak n size a s e r none_left =
    let c = reachable-IsConsistent n size a s e r in
    omega (
      arith,
      num_free-add-live_blocks s.pool c.well_formed,
      live_blocks_none s.pool (λ b. c.counts b ∙ ap (λ ts. held ts b) none_left ∙ held-nil b),
    )
