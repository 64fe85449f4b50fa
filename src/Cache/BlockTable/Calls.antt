-- ===== src/Cache/BlockTable/Calls.antt =====
-- Every call of a table, with any argument and on the raising paths too, keeps the counts right.
use edgerag.Cache.Allocator
use edgerag.Prelude.{ℤ, ℕ, range_cases, negsuc, pos, ◌+ℤ◌, ◌/◌, length, inl, Result-cases, inr}
use edgerag.Cache.Allocator.{Allocator}
use edgerag.Cache.BlockTable.{
  View, ensure_capacity, append, unshare, writable_block_for, free, pos_part,
}
use edgerag.Cache.BlockTable.Ownership.{IsOwned, IsOwned-stats, IsOwned-tokens}
use edgerag.Cache.BlockTable.Sharing.{free_lem}
use edgerag.Cache.BlockTable.Growth.{ensure_capacity_lem, out_of_memory}
use edgerag.Cache.BlockTable.Locate.{block_at_err}
use edgerag.Cache.BlockTable.Unshare.{unshare_lem}
use edgerag.Cache.BlockTable.Writes.{writable_block_for_lem}

pub data Call : Type 0 where
  appends ensures : ℤ → Call
  unshares writes : ℕ → Call
  frees : Call

-- The view after the call, whether it returned or raised.
unfoldable pub perform : Call → View → View
perform (appends n) v = (append n v).1
perform (ensures n) v = (ensure_capacity n v).1
perform (unshares i) v = (unshare i v).1
perform (writes p) v = (writable_block_for p v).1
perform frees v = (free v).1

module _ (others : ℕ → ℕ) (v : View) (o : IsOwned others v) where
  ensure_capacity-IsOwned : (n : ℤ) → IsOwned others (ensure_capacity n v).1
  ensure_capacity-IsOwned (negsuc n) = unfold ensure_capacity Allocator.blocks_needed in o
  ensure_capacity-IsOwned (pos n) = elim (ensure_capacity_lem others v n o) [
    | inl (fresh, w, e, g) ↦ rw e g.owned
    | inr (short, e) ↦ rw e (IsOwned-stats others v (out_of_memory v).pool.stats o)
  ]

  append-IsOwned : (n : ℤ) → IsOwned others (append n v).1
  unfolding append
  append-IsOwned n =
      let total = pos v.table.num_tokens +ℤ n in
      let grown = ensure_capacity-IsOwned total in
      elim (Result-cases (ensure_capacity total v).0) [
        | inl (fresh, e) ↦ rw e (IsOwned-tokens others _ (pos_part total) grown)
        | inr (x, e) ↦ rw e grown
      ]

  unshare-IsOwned : (i : ℕ) → IsOwned others (unshare i v).1
  unshare-IsOwned i = elim (range_cases i (length v.table.blocks)) [
    | inr outside ↦ unfold unshare in rw (block_at_err v.table.blocks i outside) o
    | inl inside ↦ elim (unshare_lem others v i o inside) [
      | inl (_, e) ↦ rw e o
      | inr (inl (_, (new, a', e, _, _, owned))) ↦ rw e owned
      | inr (inr (_, _, e)) ↦ rw e (IsOwned-stats others v (out_of_memory v).pool.stats o)
    ]
  ]

  writable-IsOwned : (p : ℕ) → IsOwned others (writable_block_for p v).1
  writable-IsOwned p = elim (range_cases (p / v.pool.block_size) (length v.table.blocks)) [
    | inr outside ↦
        unfold writable_block_for unshare in
        rw (block_at_err v.table.blocks (p / v.pool.block_size) outside) o
    | inl inside ↦ elim (writable_block_for_lem others v p o inside) [
      | inl (w, v', e, x) ↦ rw e x.owned
      | inr (_, _, e) ↦ rw e (IsOwned-stats others v (out_of_memory v).pool.stats o)
    ]
  ]

  free-IsOwned : IsOwned others (free v).1
  free-IsOwned = let (r, a', e, _, _, owned) = free_lem others v o in rw e owned

-- Whatever is called on a table and whether it returns or raises, the pool stays well formed, every
-- count stays the number of references held by this table and the others, and the table never lists
-- a block twice.
pub perform-IsOwned :
    (others : ℕ → ℕ) (v : View) (c : Call) → IsOwned others v → IsOwned others (perform c v)
unfolding perform
perform-IsOwned others v (appends n) o = append-IsOwned others v o n
perform-IsOwned others v (ensures n) o = ensure_capacity-IsOwned others v o n
perform-IsOwned others v (unshares i) o = unshare-IsOwned others v o i
perform-IsOwned others v (writes p) o = writable-IsOwned others v o p
perform-IsOwned others v frees o = free-IsOwned others v o
