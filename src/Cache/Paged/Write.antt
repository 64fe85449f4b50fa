-- ===== src/Cache/Paged/Write.antt =====
-- `_write` of edgerag/cache/paged.py: which cells it changes.
use edgerag.Prelude.{
  List, ℕ, ◌≤◌, ◌<◌, ◌≢◌, [], length, get_or, ◌≡◌, ◌*◌, ◌+◌, suc, arith, ◌/◌, ◌%◌, ◌∷◌, ok, zero,
  ◌==◌, ap, false, refl, sym, ◌∙◌, if◌then◌else◌, Bool-cases, ltb, inl, ◌-◌, inr, eqb_refl,
  range_cases, ◌&&◌, true,
}
use edgerag.Cache.Paged.{Arena, Paged, slots, put, put_all, write, ◌∷◌}
use edgerag.Cache.Paged.Gather.{spot, read}
use edgerag.Cache.BlockTable.Locate.{block_at_ok, locate_slot_injective}
use edgerag.Prelude.Counting.{occ, occ-cons, occ-get_or, eq_mark_self, eq_mark}

-- No block stands twice in the list, so an entry has only one index.
entry_injective :
    (blocks : List ℕ) (i j : ℕ)
    → ((b : ℕ) → occ b blocks ≤ 1)
    → i < length blocks
    → j < length blocks
    → get_or blocks i 0 ≡ get_or blocks j 0
    → i ≡ j
entry_injective [] i j once hi hj e = absurd (omega arith)
entry_injective (b ∷ bs) zero zero once hi hj e = refl
entry_injective (b ∷ bs) zero (suc j) once hi hj e = absurd (
    omega (
      arith,
      once (get_or bs j 0),
      occ-cons (get_or bs j 0) b bs,
      occ-get_or bs j (omega arith),
      ap (λ x. eq_mark x (get_or bs j 0)) e,
      eq_mark_self (get_or bs j 0),
    ))
entry_injective (b ∷ bs) (suc i) zero once hi hj e = absurd (
    omega (
      arith,
      once (get_or bs i 0),
      occ-cons (get_or bs i 0) b bs,
      occ-get_or bs i (omega arith),
      ap (λ x. eq_mark x (get_or bs i 0)) (sym e),
      eq_mark_self (get_or bs i 0),
    ))
entry_injective (b ∷ bs) (suc i) (suc j) once hi hj e = ap suc (
    entry_injective bs i j (λ c. omega (arith, once c, occ-cons c b bs)) (omega arith) (omega arith)
      e)

pub index_inside : (p size n : ℕ) → 0 < size → p < n * size → p / size < n
index_inside p size n h l = grind arith

spot_injective :
    (blocks : List ℕ) (size p q : ℕ)
    → 0 < size
    → ((b : ℕ) → occ b blocks ≤ 1)
    → p < length blocks * size
    → q < length blocks * size
    → (spot blocks size p).0 ≡ (spot blocks size q).0
    → p % size ≡ q % size
    → p ≡ q
spot_injective blocks size p q h once hp hq e f =
    locate_slot_injective p q size h
      (entry_injective blocks (p / size) (q / size) once (index_inside p size (length blocks) h hp)
        (index_inside q size (length blocks) h hq) e)
      f

-- The places of `n` positions from `p` on.
abbrev spots : List ℕ → ℕ → ℕ → ℕ → List (ℕ × ℕ)
spots blocks size zero p = []
spots blocks size (suc n) p = spot blocks size p ∷ spots blocks size n (p + 1)

slots-spots :
    (blocks : List ℕ) (size n p : ℕ)
    → 0 < size
    → p + n ≤ length blocks * size
    → slots blocks size n p ≡ ok (spots blocks size n p)
slots-spots blocks size zero p h fits = refl
slots-spots blocks size (suc n) p h fits =
    let here =
      block_at_ok blocks (p / size) (index_inside p size (length blocks) h (omega arith)) in
    let rest = slots-spots blocks size n (p + 1) h (omega arith) in
    rw (here, slots) (rw (rest, slots) refl)

elsewhere :
    (blocks : List ℕ) (size start p : ℕ)
    → ((spot blocks size p).0 ≡ (spot blocks size start).0 → p % size ≡ start % size → p ≡ start)
    → p == start ≡ false
    → ((spot blocks size p).0 == (spot blocks size start).0 && p % size == start % size) ≡ false
elsewhere blocks size start p same there =
    elim (Bool-cases ((spot blocks size p).0 == (spot blocks size start).0)) [
      | inr d ↦ rw d refl
      | inl d ↦ elim (Bool-cases (p % size == start % size)) [
        | inr d' ↦ rw d (rw d' refl)
        | inl d' ↦ let e : p ≡ start = same (ground arith) (ground arith) in absurd (ground arith)
      ]
    ]

module _ {A : Type 0} where
  -- The arena after the rows were written from `start` on.
  abbrev pub written : ℕ → List ℕ → ℕ → List A → ℕ → Arena A → Arena A
  written l blocks size rows start arena =
      put_all l (spots blocks size (length rows) start) rows arena

  pub write_ok :
      (l : ℕ) (rows : List A) (start : ℕ) (s : Paged A)
      → 0 < s.view.pool.block_size
      → start + length rows ≤ length s.view.table.blocks * s.view.pool.block_size
      → write l rows start s ≡ (
        ok tt,
        record s {
          arena = written l s.view.table.blocks s.view.pool.block_size rows start s.arena;
        },
      )
  unfolding write
  write_ok l rows start s h fits =
      rw (slots-spots s.view.table.blocks s.view.pool.block_size (length rows) start h fits, write)
        refl

  -- No other layer changes.
  pub written_layer :
      (l : ℕ) (blocks : List ℕ) (size : ℕ) (rows : List A) (start : ℕ) (arena : Arena A) (k b o : ℕ)
      → k ≢ l
      → written l blocks size rows start arena k b o ≡ arena k b o
  written_layer l blocks size [] start arena k b o h = refl
  written_layer l blocks size (a ∷ rows) start arena k b o h =
      let differs : k == l ≡ false = ground (arith, h) in
      written_layer l blocks size rows (start + 1) (put l (spot blocks size start) a arena) k b o h
      ∙ rw differs refl

  -- No block changes but those of the written positions.
  pub written_block :
      (l : ℕ) (blocks : List ℕ) (size : ℕ) (rows : List A) (start : ℕ) (arena : Arena A) (k b o : ℕ)
      → ((p : ℕ) → start ≤ p → p < start + length rows → (spot blocks size p).0 ≢ b)
      → written l blocks size rows start arena k b o ≡ arena k b o
  written_block l blocks size [] start arena k b o h = refl
  written_block l blocks size (a ∷ rows) start arena k b o h =
      let apart = h start (omega arith) (omega arith) in
      let differs : b == (spot blocks size start).0 ≡ false = ground (arith, apart) in
      let rest =
        written_block l blocks size rows (start + 1) (put l (spot blocks size start) a arena) k b o
          (λ p from to. h p (omega arith) (omega arith)) in
      rest ∙ ground (arith, apart)

  read-put :
      (l : ℕ) (blocks : List ℕ) (size start p : ℕ) (a : A) (arena : Arena A)
      → 0 < size
      → ((b : ℕ) → occ b blocks ≤ 1)
      → start < length blocks * size
      → p < length blocks * size
      → read (put l (spot blocks size start) a arena) l blocks size p
        ≡ (if p == start then a else read arena l blocks size p)
  read-put l blocks size start p a arena h once from inside =
      let same = spot_injective blocks size p start h once inside from in
      elim (Bool-cases (p == start)) [
        | inl here ↦ let e : p ≡ start = ground arith in rw here (rw e (ground arith))
        | inr there ↦
            rw there (rw (eqb_refl l) (rw (elsewhere blocks size start p same there) refl))
      ]

  -- A read after a write: the new rows from `start` on, and what was there before it and behind them.
  pub read-written :
      (l : ℕ) (blocks : List ℕ) (size : ℕ) (rows : List A) (start p : ℕ) (arena : Arena A)
      → 0 < size
      → ((b : ℕ) → occ b blocks ≤ 1)
      → start + length rows ≤ length blocks * size
      → p < length blocks * size
      → read (written l blocks size rows start arena) l blocks size p ≡ (
          if ltb p start
          then read arena l blocks size p
          else get_or rows (p - start) (read arena l blocks size p))
  read-written l blocks size [] start p arena h once fits inside = ground arith
  read-written l blocks size (a ∷ rows) start p arena h once fits inside =
      let next = put l (spot blocks size start) a arena in
      let rest = read-written l blocks size rows (start + 1) p next h once (omega arith) inside in
      let here = read-put l blocks size start p a arena h once (omega arith) inside in
      elim (range_cases p start) [
        | inl below ↦
            let f : ltb p start ≡ true = ground arith in
            let g : ltb p (start + 1) ≡ true = ground arith in
            let d : p == start ≡ false = ground arith in rw f (rest ∙ rw g (here ∙ rw d refl))
        | inr above ↦ elim (Bool-cases (p == start)) [
          | inl d ↦
              let f : ltb p start ≡ false = ground arith in
              let g : ltb p (start + 1) ≡ true = ground arith in
              let z : p - start ≡ 0 = ground arith in rw f (rest ∙ rw g (here ∙ rw d (rw z refl)))
          | inr d ↦
              let f : ltb p start ≡ false = ground arith in
              let g : ltb p (start + 1) ≡ false = ground arith in
              let z : p - start ≡ suc (p - (start + 1)) = ground arith in
              let kept : read next l blocks size p ≡ read arena l blocks size p =
                here ∙ rw d refl in
              rw f (rest ∙ rw g (rw kept (rw z refl)))
        ]
      ]
