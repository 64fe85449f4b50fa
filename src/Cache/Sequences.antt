-- ===== src/Cache/Sequences.antt =====
-- Many block tables over one allocator: edgerag/cache/block_table.py and allocator.py together, as
-- the paged cache uses them. Any table may be called at any time; forks make new tables.
pub mod Reachable
pub mod Isolation
use edgerag.Cache.Allocator.{Allocator, refs}
use edgerag.Cache.Allocator.Invariant.{IsWellFormed}
use edgerag.Cache.BlockTable.{BlockTable, View, empty_table, fork}
use edgerag.Cache.BlockTable.Calls.{Call, perform, perform-IsOwned}
use edgerag.Cache.BlockTable.Ownership.{IsOwned}
use edgerag.Cache.BlockTable.Sharing.{fork_lem}
use edgerag.Prelude.{List, ◌≡◌, ◌∷◌, ℕ, ◌++◌, ok, ◌+◌, arith, [], ◌≤◌, refl}
use edgerag.Prelude.Counting.{occ}

pub record Sequences : Type 0 where
  pub pool : Allocator
  pub tables : List BlockTable

abbrev pub view : Sequences → BlockTable → View
view s t = record { pool = s.pool; table = t }

-- A new sequence, a call of one table, a fork of one, and the end of one that holds nothing.
pub data Step (s s' : Sequences) : Type 0 where
  opens : s' ≡ record s { tables = empty_table ∷ s.tables } → Step s s'
  calls :
      (c : Call) (before after : List BlockTable) (t : BlockTable)
      → s.tables ≡ before ++ t ∷ after
      → s'.pool ≡ (perform c (view s t)).pool
      → s'.tables ≡ before ++ (perform c (view s t)).table ∷ after
      → Step s s'
  forks :
      (before after : List BlockTable) (t t' : BlockTable) (v : View)
      → s.tables ≡ before ++ t ∷ after
      → fork (view s t) ≡ (ok t', v)
      → s'.pool ≡ v.pool
      → s'.tables ≡ before ++ v.table ∷ t' ∷ after
      → Step s s'
  closes :
      (before after : List BlockTable) (t : BlockTable)
      → s.tables ≡ before ++ t ∷ after
      → t.blocks ≡ []
      → s' ≡ record s { tables = before ++ after }
      → Step s s'

pub data Reach (s : Sequences) : Sequences → Type 0 where
  here : Reach s s
  next : {t u : Sequences} → Reach s t → Step t u → Reach s u

-- How many references the tables hold.
unfoldable pub held : List BlockTable → ℕ → ℕ
held [] b = 0
held (t ∷ ts) b = occ b t.blocks + held ts b

pub held-nil : (b : ℕ) → held [] b ≡ 0
unfolding held
held-nil b = refl

pub held-cons :
    (t : BlockTable) (ts : List BlockTable) (b : ℕ) → held (t ∷ ts) b ≡ occ b t.blocks + held ts b
unfolding held
held-cons t ts b = refl

pub held-append : (xs ys : List BlockTable) (b : ℕ) → held (xs ++ ys) b ≡ held xs b + held ys b
unfolding held
held-append [] ys b = omega arith
held-append (x ∷ xs) ys b = omega (arith, held-append xs ys b)

abbrev pub NoRepeats : List BlockTable → Type 0
NoRepeats [] = Unit {0}
NoRepeats (t ∷ ts) = ((b : ℕ) → occ b t.blocks ≤ 1) × NoRepeats ts

NoRepeats-split : (xs ys : List BlockTable) → NoRepeats (xs ++ ys) → NoRepeats xs × NoRepeats ys
NoRepeats-split [] ys h = (tt, h)
NoRepeats-split (x ∷ xs) ys h = let (a, b) = NoRepeats-split xs ys h.1 in ((h.0, a), b)

pub NoRepeats-append :
    (xs ys : List BlockTable) → NoRepeats xs → NoRepeats ys → NoRepeats (xs ++ ys)
NoRepeats-append [] ys h k = k
NoRepeats-append (x ∷ xs) ys h k = (h.0, NoRepeats-append xs ys h.1 k)

-- The pool is well formed, each count is the number of references that the tables hold, and no table
-- lists a block twice.
pub record IsConsistent (pool : Allocator) (tables : List BlockTable) : Type 0 where
  pub well_formed : IsWellFormed pool
  pub counts : (b : ℕ) → refs pool b ≡ held tables b
  pub no_repeats : NoRepeats tables

-- The references of all tables but one.
abbrev pub rest : List BlockTable → List BlockTable → ℕ → ℕ
rest before after b = held before b + held after b

pub held-middle :
    (before after : List BlockTable) (t : BlockTable) (b : ℕ)
    → held (before ++ t ∷ after) b ≡ occ b t.blocks + rest before after b
unfolding held
held-middle before after t b = omega (arith, held-append before (t ∷ after) b)

module _ (pool : Allocator) (before after : List BlockTable) (t : BlockTable) where
  pub IsConsistent→IsOwned :
      IsConsistent pool (before ++ t ∷ after)
      → IsOwned (rest before after) (record { pool = pool; table = t })
  IsConsistent→IsOwned c = record {
    well_formed = c.well_formed;
    counts = λ b. omega (arith, c.counts b, held-middle before after t b);
    once = (NoRepeats-split before (t ∷ after) c.no_repeats).1.0;
  }

  pub others-NoRepeats :
      IsConsistent pool (before ++ t ∷ after) → NoRepeats before × NoRepeats after
  others-NoRepeats c = let (a, b) = NoRepeats-split before (t ∷ after) c.no_repeats in (a, b.1)

  pub IsOwned→IsConsistent :
      NoRepeats before × NoRepeats after
      → IsOwned (rest before after) (record { pool = pool; table = t })
      → IsConsistent pool (before ++ t ∷ after)
  IsOwned→IsConsistent n o = record {
    well_formed = o.well_formed;
    counts = λ b. omega (arith, o.counts b, held-middle before after t b);
    no_repeats = NoRepeats-append before (t ∷ after) n.0 (o.once, n.1);
  }
