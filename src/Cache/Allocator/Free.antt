-- ===== src/Cache/Allocator/Free.antt =====
-- `free` of edgerag/cache/allocator.py: one reference fewer for each block.
use edgerag.Prelude.{
  ℕ, ◌+◌, ◌-◌, ◌<◌, ◌≡◌, length, Result, ok, arith, get_or-set, length-set, ◌==◌, if◌then◌else◌,
  Error, ◌∙◌, and_then, zero_cases, refl, inl, inr, sym, and_then-pure, and_then-pure-ok, ap,
  Result-cases, err, List, [], ltb, double_free, allocator_error, pure, ◌⊎◌,
}
use edgerag.Prelude.Counting.{occ, eq_mark, occ-cons, occ-nil, eq_mark_self}
use edgerag.Cache.Allocator.{
  Allocator, num_free, refs, set_refs, validate, reclaim, release, release_each, ◌∷◌, free,
}
use edgerag.Cache.Allocator.Invariant.{IsWellFormed, free_mark, refs-in_range, Loses, Held}

-- The pool after a block that somebody holds has lost one reference.
abbrev dropped : ℕ → Allocator → Result ℕ × Allocator
dropped b a = reclaim b (set_refs a b (refs a b - 1))

module _ (a : Allocator) (wf : IsWellFormed a) (b : ℕ) (held : 0 < refs a b) where
  release_held : release b a ≡ dropped b a
  unfolding release validate
  release_held = ground (arith, refs-in_range a wf b held)

  dropped-refs : (c : ℕ) → refs (dropped b a).1 c + eq_mark b c ≡ refs a c
  unfolding reclaim
  dropped-refs c = ground (
    arith,
    get_or-set a.refcounts b c (refs a b - 1) 0 in_counts,
    get_or-set a.refcounts b b (refs a b - 1) 0 in_counts,
  )
    where
      in_counts : b < length a.refcounts
      in_counts = omega (arith, refs-in_range a wf b held, wf.sized)

  dropped-shape :
      ((dropped b a).1.num_blocks ≡ a.num_blocks)
      × ((dropped b a).1.block_size ≡ a.block_size)
      × (length (dropped b a).1.refcounts ≡ a.num_blocks)
  unfolding reclaim
  dropped-shape = ground (arith, length-set a.refcounts b (refs a b - 1), wf.sized)

  dropped-marked : (c : ℕ) → occ c (dropped b a).1.free_list ≡ free_mark (dropped b a).1 c
  unfolding reclaim
  dropped-marked c = ground (
    arith,
    get_or-set a.refcounts b c (refs a b - 1) 0 in_counts,
    get_or-set a.refcounts b b (refs a b - 1) 0 in_counts,
    occ-cons c b a.free_list,
    wf.marked c,
    refs-in_range a wf b held,
  )
    where
      in_counts : b < length a.refcounts
      in_counts = omega (arith, refs-in_range a wf b held, wf.sized)

  dropped-IsWellFormed : IsWellFormed (dropped b a).1
  dropped-IsWellFormed = record {
    positive = omega (arith, dropped-shape, wf.positive);
    sized = omega (arith, dropped-shape);
    marked = dropped-marked;
  }

  -- What the code counts for this block.
  abbrev back : ℕ
  back = if refs (set_refs a b (refs a b - 1)) b == 0 then 1 else 0

  dropped-back : ((dropped b a).0 ≡ ok back) × (num_free (dropped b a).1 ≡ num_free a + back)
  unfolding reclaim
  dropped-back = ground arith

-- Why a block that nobody holds cannot be freed.
abbrev pub unheld_error : Allocator → ℕ → Error
unheld_error a b = if ltb b a.num_blocks then double_free else allocator_error

release_unheld : (a : Allocator) (b : ℕ) → refs a b ≡ 0 → release b a ≡ (err (unheld_error a b), a)
unfolding release validate
release_unheld a b h = ground arith

-- What a successful `free` leaves behind, where `r` is what it returns.
pub record Freed (a : Allocator) (bs : List ℕ) (r : ℕ) (a' : Allocator) : Type 0 where
  pub loses : Loses a bs a'
  pub reclaimed : num_free a' ≡ num_free a + r

Freed-nil : (a : Allocator) → IsWellFormed a → Freed a [] 0 a
Freed-nil a wf = record {
  loses = record {
    well_formed = wf;
    shape = record { same_blocks = refl; same_size = refl };
    counts = λ b. omega (arith, occ-nil b);
  };
  reclaimed = omega arith;
}

module _ (a : Allocator) (wf : IsWellFormed a) (b : ℕ) (held : 0 < refs a b) where
  Freed-cons :
      (bs : List ℕ) (r : ℕ) (a' : Allocator)
      → Freed (dropped b a).1 bs r a'
      → Freed a (b ∷ bs) (back a wf b held + r) a'
  Freed-cons bs r a' f = record {
    loses = record {
      well_formed = f.loses.well_formed;
      shape = record {
        same_blocks = f.loses.shape.same_blocks ∙ (dropped-shape a wf b held).0;
        same_size = f.loses.shape.same_size ∙ (dropped-shape a wf b held).1;
      };
      counts = λ c. omega (arith, f.loses.counts c, dropped-refs a wf b held c, occ-cons c b bs);
    };
    reclaimed = omega (arith, f.reclaimed, dropped-back a wf b held);
  }

  Held-dropped : (bs : List ℕ) → Held a (b ∷ bs) → Held (dropped b a).1 bs
  Held-dropped bs h c = omega (arith, h c, dropped-refs a wf b held c, occ-cons c b bs)

  Held-cons : (bs : List ℕ) → Held (dropped b a).1 bs → Held a (b ∷ bs)
  Held-cons bs h c = omega (arith, h c, dropped-refs a wf b held c, occ-cons c b bs)

  -- The loop goes on with the rest of the list.
  release_each_step :
      (bs : List ℕ)
      → release_each (b ∷ bs) a
        ≡ and_then
            (release_each bs (dropped b a).1).0
            (λ more. pure (back a wf b held + more))
            (release_each bs (dropped b a).1).1
  unfolding release_each
  release_each_step bs = rw (release_held a wf b held) (rw ((dropped-back a wf b held).0))

release_each-Freed :
    (bs : List ℕ) (a : Allocator)
    → IsWellFormed a
    → Held a bs
    → (r : ℕ) × (a' : Allocator) × (release_each bs a ≡ (ok r, a')) × Freed a bs r a'
unfolding release_each
release_each-Freed [] a wf h = (0, a, refl, Freed-nil a wf)
release_each-Freed (b ∷ bs) a wf h =
    let held : 0 < refs a b = omega (arith, h b, occ-cons b b bs, eq_mark_self b) in
    let (r, a', e, f) =
      release_each-Freed bs (dropped b a).1 (dropped-IsWellFormed a wf b held)
        (Held-dropped a wf b held bs h) in
    (
      back a wf b held + r,
      a',
      release_each_step a wf b held bs ∙ rw e,
      Freed-cons a wf b held bs r a' f,
    )

release_each-IsWellFormed :
    (bs : List ℕ) (a : Allocator) → IsWellFormed a → IsWellFormed (release_each bs a).1
unfolding release_each
release_each-IsWellFormed [] a wf = wf
release_each-IsWellFormed (b ∷ bs) a wf = elim (zero_cases (refs a b)) [
  | inl none_left ↦ rw (release_unheld a b none_left) wf
  | inr held ↦
      let (r, after) = release_each bs (dropped b a).1 in
      rw (release_each_step a wf b held bs, and_then-pure r (λ n. back a wf b held + n) after)
        (release_each-IsWellFormed bs (dropped b a).1 (dropped-IsWellFormed a wf b held))
]

release_each_ok-Held :
    (bs : List ℕ) (a a' : Allocator) (r : ℕ)
    → IsWellFormed a
    → release_each bs a ≡ (ok r, a')
    → Held a bs
unfolding release_each
release_each_ok-Held [] a a' r wf e = λ b. omega (arith, occ-nil b)
release_each_ok-Held (b ∷ bs) a a' r wf e = elim (zero_cases (refs a b)) [
  | inl none_left ↦ absurd (cc (rw (release_unheld a b none_left) at e))
  | inr held ↦
      let (more, e', same, _) =
        and_then-pure-ok (release_each bs (dropped b a).1).0 _ _
          (sym (release_each_step a wf b held bs) ∙ e) in
      Held-cons a wf b held bs (
        release_each_ok-Held bs (dropped b a).1 _ more (dropped-IsWellFormed a wf b held)
          (ap (λ x. (x, (release_each bs (dropped b a).1).1)) e'))
]

-- If every block of the list is held as often as it is listed, `free` returns normally: each entry
-- takes one reference off its block, no other count changes, the pool stays well formed, and the
-- result is the number of blocks that went back to the free list.
pub free_releases :
    (a : Allocator) (bs : List ℕ)
    → IsWellFormed a
    → Held a bs
    → (r : ℕ) × (a' : Allocator) × (free bs a ≡ (ok r, a')) × Freed a bs r a'
unfolding free
free_releases a bs wf h =
    let (r, a', e, f) = release_each-Freed bs a wf h in
    (
      r,
      record a' { stats = record a'.stats { frees = a'.stats.frees + length bs } },
      rw e,
      record {
        loses = record {
          well_formed = record {
            positive = f.loses.well_formed.positive;
            sized = f.loses.well_formed.sized;
            marked = f.loses.well_formed.marked;
          };
          shape = record {
            same_blocks = f.loses.shape.same_blocks;
            same_size = f.loses.shape.same_size;
          };
          counts = f.loses.counts;
        };
        reclaimed = f.reclaimed;
      },
    )

free_ok-Held :
    (a : Allocator) (bs : List ℕ) (r : ℕ) (a' : Allocator)
    → IsWellFormed a
    → free bs a ≡ (ok r, a')
    → Held a bs
unfolding free
free_ok-Held a bs r a' wf e = elim (Result-cases (release_each bs a).0) [
  | inl (n, e') ↦ release_each_ok-Held bs a _ n wf (ap (λ x. (x, (release_each bs a).1)) e')
  | inr (x, e') ↦ absurd (cc (rw e' at e))
]

pub free-IsWellFormed : (a : Allocator) (bs : List ℕ) → IsWellFormed a → IsWellFormed (free bs a).1
unfolding free
free-IsWellFormed a bs wf =
    let rest = release_each-IsWellFormed bs a wf in
    elim (Result-cases (release_each bs a).0) [
      | inl (n, e) ↦
          rw e (record { positive = rest.positive; sized = rest.sized; marked = rest.marked })
      | inr (x, e) ↦ rw e rest
    ]

-- `free` on a well-formed pool raises exactly if some block is listed more often than it is held: a
-- block that is freed twice, or was never handed out, is never let through, and every other list is.
-- Where it raises, the pool is well formed still.
pub free_decides :
    (a : Allocator) (bs : List ℕ)
    → IsWellFormed a
    → (Held a bs × ((r : ℕ) × (a' : Allocator) × (free bs a ≡ (ok r, a')) × IsWellFormed a'))
      ⊎ ((¬ Held a bs)
          × ((e : Error) × (a' : Allocator) × (free bs a ≡ (err e, a')) × IsWellFormed a'))
free_decides a bs wf =
    let rest = free-IsWellFormed a bs wf in
    elim (Result-cases (free bs a).0) [
      | inl (r, e) ↦
          let run : free bs a ≡ (ok r, (free bs a).1) = ap (λ x. (x, (free bs a).1)) e in
          inl (free_ok-Held a bs r (free bs a).1 wf run, (r, (free bs a).1, run, rest))
      | inr (x, e) ↦
          let run : free bs a ≡ (err x, (free bs a).1) = ap (λ y. (y, (free bs a).1)) e in
          inr (
            (λ h.
                let (r, a', returned, _) = free_releases a bs wf h in absurd (cc (run, returned))),
            (x, (free bs a).1, run, rest),
          )
    ]
