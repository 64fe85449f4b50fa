-- ===== src/Cache/Allocator/Incref.antt =====
-- `incref` of edgerag/cache/allocator.py: one reference more for each block, or nothing at all.
use edgerag.Prelude.{
  ℕ, ◌+◌, ◌<◌, ◌≡◌, length-set, ◌⊎◌, arith, ◌∙◌, Error, get_or-set, Result-cases, inl, inr, [],
  refl, List, ok, length, err, ap, sym,
}
use edgerag.Prelude.Counting.{eq_mark, occ-nil, occ-cons}
use edgerag.Cache.Allocator.{
  Allocator, num_free, refs, set_refs, check_held, add_refs, incref, validate, ◌∷◌,
}
use edgerag.Cache.Allocator.Invariant.{IsWellFormed, Gains, refs-in_range}

-- Every block of the list has a holder.
abbrev pub AllLive : Allocator → List ℕ → Type 0
AllLive a [] = Unit {0}
AllLive a (b ∷ bs) = (0 < refs a b) × AllLive a bs

check_held_live :
    (a : Allocator) (bs : List ℕ) → IsWellFormed a → AllLive a bs → check_held bs a ≡ (ok tt, a)
unfolding check_held validate
check_held_live a [] wf h = refl
check_held_live a (b ∷ bs) wf h =
    ground (arith, refs-in_range a wf b h.0, check_held_live a bs wf h.1)

check_held_state : (a : Allocator) (bs : List ℕ) → (check_held bs a).1 ≡ a
unfolding check_held validate
check_held_state a [] = refl
check_held_state a (b ∷ bs) = ground (arith, check_held_state a bs)

check_held_ok : (a : Allocator) (bs : List ℕ) → (check_held bs a).0 ≡ ok tt → AllLive a bs
unfolding check_held validate
check_held_ok a [] h = tt
check_held_ok a (b ∷ bs) h = ground (arith, check_held_ok a bs)

-- One more reference to a block that has one.
module _ (a : Allocator) (wf : IsWellFormed a) (b : ℕ) (live : 0 < refs a b) where
  abbrev raised : Allocator
  raised = set_refs a b (refs a b + 1)

  raised-refs : (c : ℕ) → refs raised c ≡ refs a c + eq_mark b c
  raised-refs c = ground (arith, get_or-set a.refcounts b c (refs a b + 1) 0 in_counts)
    where
      in_counts : b < length a.refcounts
      in_counts = omega (arith, refs-in_range a wf b live, wf.sized)

  raised-IsWellFormed : IsWellFormed raised
  raised-IsWellFormed = record {
    positive = wf.positive;
    sized = length-set a.refcounts b (refs a b + 1) ∙ wf.sized;
    marked = λ c. ground (arith, wf.marked c, raised-refs c);
  }

  raised-AllLive : (bs : List ℕ) → AllLive a bs → AllLive raised bs
  raised-AllLive [] h = tt
  raised-AllLive (c ∷ bs) h = (omega (arith, h.0, raised-refs c), raised-AllLive bs h.1)

add_refs-Gains :
    (bs : List ℕ) (a : Allocator) → IsWellFormed a → AllLive a bs → Gains a bs (add_refs bs a)
unfolding add_refs
add_refs-Gains [] a wf h = record {
  well_formed = wf;
  shape = record { same_blocks = refl; same_size = refl };
  counts = λ c. omega (arith, occ-nil c);
}
add_refs-Gains (b ∷ bs) a wf h =
    let g =
      add_refs-Gains bs (raised a wf b h.0) (raised-IsWellFormed a wf b h.0)
        (raised-AllLive a wf b h.0 bs h.1) in
    record {
      well_formed = g.well_formed;
      shape = record { same_blocks = g.shape.same_blocks; same_size = g.shape.same_size };
      counts = λ c. omega (arith, g.counts c, raised-refs a wf b h.0 c, occ-cons c b bs);
    }

num_free-add_refs : (bs : List ℕ) (a : Allocator) → num_free (add_refs bs a) ≡ num_free a
unfolding add_refs
num_free-add_refs [] a = refl
num_free-add_refs (b ∷ bs) a = num_free-add_refs bs (set_refs a b (refs a b + 1))

-- If every block of the list has a holder, `incref` returns normally: each entry adds one reference
-- to its block, no other count changes, the pool stays well formed and the free list keeps its
-- length.
pub incref_adds :
    (a : Allocator) (bs : List ℕ)
    → IsWellFormed a
    → AllLive a bs
    → (a' : Allocator) × (incref bs a ≡ (ok tt, a')) × Gains a bs a' × (num_free a' ≡ num_free a)
unfolding incref
incref_adds a bs wf h = (
  add_refs bs a,
  rw (check_held_live a bs wf h),
  add_refs-Gains bs a wf h,
  num_free-add_refs bs a,
)

check_held_raises :
    (a : Allocator) (bs : List ℕ) (e : Error)
    → (check_held bs a).0 ≡ err e
    → incref bs a ≡ (err e, a)
unfolding incref
check_held_raises a bs e failed = rw (failed, check_held_state a bs)

check_held_dead :
    (a : Allocator) (bs : List ℕ) (e : Error)
    → IsWellFormed a
    → (check_held bs a).0 ≡ err e
    → ¬ AllLive a bs
check_held_dead a bs e wf failed live =
    absurd (cc (ap (λ p. p.0) (sym (check_held_live a bs wf live)) ∙ failed))

-- `incref` on a well-formed pool is atomic. If every block of the list has a holder, it returns
-- normally: each entry adds one reference to its block, no other count changes, the pool stays well
-- formed and the free list keeps its length. If some block has none, it raises, and the pool is as
-- before.
pub incref_atomic :
    (a : Allocator) (bs : List ℕ)
    → IsWellFormed a
    → (AllLive a bs
        × ((a' : Allocator) × (incref bs a ≡ (ok tt, a'))
            × Gains a bs a'
            × (num_free a' ≡ num_free a)))
      ⊎ ((¬ AllLive a bs) × ((e : Error) × (incref bs a ≡ (err e, a))))
incref_atomic a bs wf = elim (Result-cases (check_held bs a).0) [
  | inl (u, e) ↦ let live = check_held_ok a bs e in inl (live, incref_adds a bs wf live)
  | inr (x, e) ↦ inr (check_held_dead a bs x wf e, (x, check_held_raises a bs x e))
]
