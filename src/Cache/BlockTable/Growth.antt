-- ===== src/Cache/BlockTable/Growth.antt =====
-- `ensure_capacity` and `append` of edgerag/cache/block_table.py.
use edgerag.Prelude.{
  ℕ, ◌≤◌, List, [], ◌≡◌, ◌<◌, sym, ◌-◌, length, pos, ◌++◌, ok, err, arith, out_of_blocks, ◌⊎◌,
  range_cases, inr, refl, inl, subst, ◌∙◌, and_then, pos-add, length-append, ok_pair, ap, get_or,
  ◌∷◌, suc, zero,
}
use edgerag.Cache.Allocator.{Allocator, refs, num_free}
use edgerag.Cache.Allocator.Allocate.{Granted, allocate_grants, allocate_refuses}
use edgerag.Cache.BlockTable.{View, grow_by, ensure_capacity, append, ◌+◌, set_blocks}
use edgerag.Cache.BlockTable.Ownership.{IsOwned, IsExact, IsOwned-tokens, IsOwned-stats}
use edgerag.Cache.Allocator.Sizing.{ceil_blocks, ceil_blocks_mono}
use edgerag.Prelude.Counting.{occ-append, occ, occ-nil, occ-get_or}
use mathlib.Core.List.{append-nil}
use edgerag.Cache.Allocator

-- The view after a refused allocation: one more such event, and nothing else.
abbrev pub out_of_memory : View → View
out_of_memory v = record v {
  pool = record v.pool { stats = record v.pool.stats { oom_events = v.pool.stats.oom_events + 1 } };
}

-- What a table looks like when it has got `n` more blocks.
pub record Grown (others : ℕ → ℕ) (v : View) (n : ℕ) (fresh : List ℕ) (v' : View) : Type 0 where
  pub count : length fresh ≡ n
  pub blocks : v'.table.blocks ≡ v.table.blocks ++ fresh
  pub tokens : v'.table.num_tokens ≡ v.table.num_tokens
  pub same_size : v'.pool.block_size ≡ v.pool.block_size
  pub owned : IsOwned others v'
  pub left : num_free v'.pool + n ≡ num_free v.pool
  pub private : (b : ℕ) → 0 < occ b fresh → others b ≡ 0

-- How many blocks the table lacks for `n` tokens.
abbrev pub missing : View → ℕ → ℕ
missing v n = ceil_blocks n v.pool.block_size - length v.table.blocks

module _ (others : ℕ → ℕ) (v : View) (o : IsOwned others v) where
  Grown-Granted :
      (n : ℕ) (fresh : List ℕ) (a' : Allocator)
      → Granted v.pool n fresh a'
      → Grown others v n fresh (set_blocks (v.table.blocks ++ fresh) (record v { pool = a' }))
  Grown-Granted n fresh a' g = record {
    count = g.size;
    blocks = refl;
    tokens = refl;
    same_size = g.gains.shape.same_size;
    owned = record {
      well_formed = g.gains.well_formed;
      counts = λ b. omega (arith, g.gains.counts b, o.counts b, occ-append b v.table.blocks fresh);
      once =
          λ b. ground (arith, g.fresh b, o.counts b, o.once b, occ-append b v.table.blocks fresh);
    };
    left = g.free_left;
    private = λ b h. ground (arith, g.fresh b, o.counts b);
  }

  grow_by_grows :
      (n : ℕ)
      → n ≤ num_free v.pool
      → (fresh : List ℕ) × (v' : View) × (grow_by n v ≡ (ok fresh, v')) × Grown others v n fresh v'
  unfolding grow_by
  grow_by_grows n h =
      let (fresh, a', e, g) = allocate_grants v.pool n o.well_formed h in
      (
        fresh,
        set_blocks (v.table.blocks ++ fresh) (record v { pool = a' }),
        rw e,
        Grown-Granted n fresh a' g,
      )

  grow_by_refuses :
      (n : ℕ) → num_free v.pool < n → grow_by n v ≡ (err out_of_blocks, out_of_memory v)
  unfolding grow_by
  grow_by_refuses n h = rw (allocate_refuses v.pool n h)

  Grown-none : Grown others v 0 [] v
  Grown-none = record {
    count = refl;
    blocks = sym (append-nil v.table.blocks);
    tokens = refl;
    same_size = refl;
    owned = o;
    left = omega arith;
    private = λ b h. absurd (omega (arith, occ-nil b));
  }

  ensure_capacity_small :
      (n : ℕ)
      → ceil_blocks n v.pool.block_size ≤ length v.table.blocks
      → ensure_capacity (pos n) v ≡ (ok [], v)
  unfolding ensure_capacity Allocator.blocks_needed
  ensure_capacity_small n h = ground arith

  ensure_capacity_large :
      (n : ℕ)
      → length v.table.blocks < ceil_blocks n v.pool.block_size
      → ensure_capacity (pos n) v ≡ grow_by (missing v n) v
  unfolding ensure_capacity Allocator.blocks_needed
  ensure_capacity_large n h = ground arith

-- `ensure_capacity(n)` of a table whose counts are right: if the pool has the blocks that the table
-- lacks for `n` tokens, it gets exactly those, at the end of its list, and nothing else of the table
-- changes. If not, OutOfBlocksError is raised, the table is as before, and the pool counts the event.
-- In both cases every count of the pool still is the number of references held.
pub ensure_capacity_lem :
    (others : ℕ → ℕ) (v : View) (n : ℕ) (o : IsOwned others v)
    → ((fresh : List ℕ) × (v' : View) × (ensure_capacity (pos n) v ≡ (ok fresh, v'))
        × Grown others v (missing v n) fresh v')
      ⊎ ((num_free v.pool < missing v n)
          × (ensure_capacity (pos n) v ≡ (err out_of_blocks, out_of_memory v)))
ensure_capacity_lem others v n o =
    elim (range_cases (length v.table.blocks) (ceil_blocks n v.pool.block_size)) [
      | inr small ↦
          let none_missing : 0 ≡ missing v n = omega arith in
          inl (
            [],
            v,
            ensure_capacity_small others v o n small,
            subst (λ k. Grown others v k [] v) none_missing (Grown-none others v o),
          )
      | inl large ↦ elim (range_cases (num_free v.pool) (missing v n)) [
        | inl short ↦ inr (
          short,
          ensure_capacity_large others v o n large ∙ grow_by_refuses others v o (missing v n) short,
        )
        | inr room ↦
            let (fresh, v', e, g) = grow_by_grows others v o (missing v n) room in
            inl (fresh, v', ensure_capacity_large others v o n large ∙ e, g)
      ]
    ]

pub append_eq :
    (v : View) (n : ℕ)
    → append (pos n) v
      ≡ and_then
          (ensure_capacity (pos (v.table.num_tokens + n)) v).0
          (λ fresh w.
            (ok fresh, record w { table = record w.table { num_tokens = v.table.num_tokens + n } }))
          (ensure_capacity (pos (v.table.num_tokens + n)) v).1
unfolding append
append_eq v n = rw (pos-add v.table.num_tokens n)

-- `append(n)` of a table that holds exactly the blocks its tokens fill: if the pool has the blocks
-- that are missing for `n` more tokens, the table grows by `n` tokens and by those blocks, and again
-- holds exactly the blocks that its tokens fill. If not, OutOfBlocksError is raised and the table is
-- left exactly as it was. In both cases every count of the pool is the number of references held.
pub append_lem :
    (others : ℕ → ℕ) (v : View) (n : ℕ)
    → IsOwned others v
    → IsExact v
    → ((fresh : List ℕ) × (v' : View) × (append (pos n) v ≡ (ok fresh, v'))
        × (v'.table.num_tokens ≡ v.table.num_tokens + n)
        × (v'.table.blocks ≡ v.table.blocks ++ fresh)
        × IsExact v'
        × IsOwned others v')
      ⊎ ((num_free v.pool < missing v (v.table.num_tokens + n))
          × (append (pos n) v ≡ (err out_of_blocks, out_of_memory v))
          × IsOwned others (out_of_memory v))
append_lem others v n o exact = elim (ensure_capacity_lem others v (v.table.num_tokens + n) o) [
  | inl (fresh, w, e, g) ↦
      let total = v.table.num_tokens + n in
      let enough : length v.table.blocks ≤ ceil_blocks total v.pool.block_size =
        rw exact (ceil_blocks_mono v.table.num_tokens total v.pool.block_size (omega arith)) in
      inl (
        fresh,
        record w { table = record w.table { num_tokens = total } },
        append_eq v n ∙ rw e,
        refl,
        g.blocks,
        rw (g.blocks, g.same_size, length-append v.table.blocks fresh, g.count) (omega arith),
        IsOwned-tokens others w total g.owned,
      )
  | inr (short, e) ↦
      inr (short, append_eq v n ∙ rw e, IsOwned-stats others v (out_of_memory v).pool.stats o)
]

-- The blocks that a table has got are its own, and there are as many as it lacked.
pub record Appended (others : ℕ → ℕ) (v : View) (n : ℕ) (v' : View) : Type 0 where
  pub same_size : v'.pool.block_size ≡ v.pool.block_size
  pub left : num_free v'.pool + missing v (v.table.num_tokens + n) ≡ num_free v.pool
  pub private :
      (i : ℕ)
      → length v.table.blocks ≤ i
      → i < length v'.table.blocks
      → others (get_or v'.table.blocks i 0) ≡ 0

occ-get_or-later :
    (xs ys : List ℕ) (i : ℕ)
    → length xs ≤ i
    → i < length (xs ++ ys)
    → 0 < occ (get_or (xs ++ ys) i 0) ys
occ-get_or-later [] ys i from inside = occ-get_or ys i inside
occ-get_or-later (x ∷ xs) ys zero from inside = absurd (omega arith)
occ-get_or-later (x ∷ xs) ys (suc i) from inside =
    occ-get_or-later xs ys i (omega arith) (omega arith)

Grown-Appended :
    (others : ℕ → ℕ) (v : View) (n : ℕ) (fresh : List ℕ) (w : View)
    → Grown others v (missing v (v.table.num_tokens + n)) fresh w
    → Appended others v n
        (record w { table = record w.table { num_tokens = v.table.num_tokens + n } })
Grown-Appended others v n fresh w g = record {
  same_size = g.same_size;
  left = g.left;
  private = λ i from inside.
      subst (λ bs. others (get_or bs i 0) ≡ 0) (sym g.blocks)
        (g.private (get_or (v.table.blocks ++ fresh) i 0)
          (occ-get_or-later v.table.blocks fresh i from (omega (arith, ap length g.blocks))));
}

pub append-Appended :
    (others : ℕ → ℕ) (v : View) (n : ℕ) (fresh : List ℕ) (v' : View)
    → IsOwned others v
    → append (pos n) v ≡ (ok fresh, v')
    → Appended others v n v'
append-Appended others v n fresh v' o e =
    elim (ensure_capacity_lem others v (v.table.num_tokens + n) o) [
      | inl (got, w, grown, g) ↦
          let full = record w { table = record w.table { num_tokens = v.table.num_tokens + n } } in
          let run : append (pos n) v ≡ (ok got, full) = append_eq v n ∙ rw grown in
          let (_, same) = ok_pair got fresh full v' run e in
          subst (λ x. Appended others v n x) same (Grown-Appended others v n got w g)
      | inr (_, refused) ↦ absurd (cc (append_eq v n, refused, e))
    ]
