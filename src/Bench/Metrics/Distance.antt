-- ===== src/Bench/Metrics/Distance.antt =====
-- The rows of `levenshtein` of bench/metrics.py against the edit scripts.
use edgerag.Prelude.{
  ℕ, List, ◌≡◌, ◌∷◌, ap, ◌≤◌, [], length, suc, ◌∙◌, ◌+◌, refl, arith, subst, Bool-cases, ltb, inl,
  inr,
}
use mathlib.Core.List.{reverse, reverse_aux, reverse-reverse}
use edgerag.Bench.Metrics.Edits.{
  distance, Edits, Edits-swap, Edits-reverse, distance-Edits, distance_least,
}
use edgerag.Bench.Metrics.{
  rows_from, levenshtein, ◌∷◌, fill_row, range_from, last_of, distance_rows,
}

-- The row of the distances of p to q and to q with a growing part of `bs` in front of it, as the
-- texts stand reversed.
row_behind : List ℕ → List ℕ → List ℕ → List ℕ
row_behind p q [] = []
row_behind p q (b ∷ bs) = distance p (b ∷ q) ∷ row_behind p (b ∷ q) bs

abbrev row_of : List ℕ → List ℕ → List ℕ → List ℕ
row_of p q bs = distance p q ∷ row_behind p q bs

fill_row-row_behind :
    (c : ℕ) (p q bs : List ℕ)
    → fill_row c (distance p q) (distance (c ∷ p) q) (row_behind p q bs) bs
      ≡ row_behind (c ∷ p) q bs
unfolding row_behind distance
fill_row-row_behind c p q [] = refl
fill_row-row_behind c p q (b ∷ bs) =
    ap (◌∷◌ (distance (c ∷ p) (b ∷ q))) (fill_row-row_behind c p (b ∷ q) bs)

range_from-row_behind :
    (k : ℕ) (q bs : List ℕ) → k ≡ length q + 1 → range_from k (length bs) ≡ row_behind [] q bs
unfolding row_behind distance
range_from-row_behind k q [] e = refl
range_from-row_behind k q (b ∷ bs) e =
    let f : k ≡ suc (length q) = omega arith in
    rw f (ap (◌∷◌ (suc (length q))) (range_from-row_behind (suc (length q) + 1) (b ∷ q) bs refl))

first_row : (bs : List ℕ) → range_from 0 (length bs + 1) ≡ row_of [] [] bs
unfolding distance
first_row bs =
    let e : length bs + 1 ≡ suc (length bs) = omega arith in
    rw e (ap (◌∷◌ 0) (range_from-row_behind 1 [] bs refl))

rows_from-row_of :
    (i : ℕ) (as' p bs : List ℕ)
    → i ≡ suc (length p)
    → rows_from i as' bs (row_of p [] bs) ≡ row_of (reverse_aux as' p) [] bs
unfolding rows_from
rows_from-row_of i [] p bs e = refl
rows_from-row_of i (c ∷ cs) p bs e =
    let first : i ≡ distance (c ∷ p) [] = unfold distance in e in
    let row : i ∷ fill_row c (distance p []) i (row_behind p [] bs) bs ≡ row_of (c ∷ p) [] bs =
      rw first (ap (◌∷◌ (distance (c ∷ p) [])) (fill_row-row_behind c p [] bs)) in
    rw row (rows_from-row_of (i + 1) cs (c ∷ p) bs (omega arith))

last_of-row_of : (p q bs : List ℕ) → last_of (row_of p q bs) ≡ distance p (reverse_aux bs q)
unfolding row_behind
last_of-row_of p q [] = refl
last_of-row_of p q (b ∷ bs) = last_of-row_of p (b ∷ q) bs

distance_rows-reverse : (a b : List ℕ) → distance_rows a b ≡ distance (reverse a) (reverse b)
distance_rows-reverse a b =
    ap (λ row. last_of (rows_from 1 a b row)) (first_row b)
    ∙ ap last_of (rows_from-row_of 1 a [] b refl)
    ∙ last_of-row_of (reverse a) [] b

-- What it means to be the edit distance of two texts: a script of that many edits turns the one into
-- the other, and no script has fewer.
pub record IsDistance (a b : List ℕ) (n : ℕ) : Type 0 where
  pub reached : Edits a b n
  pub least : (m : ℕ) → Edits a b m → n ≤ m

distance_rows-IsDistance : (a b : List ℕ) → IsDistance a b (distance_rows a b)
distance_rows-IsDistance a b = rw (distance_rows-reverse a b) (record {
  reached =
      subst (λ x. Edits x b n) (reverse-reverse a)
        (subst (λ y. Edits (reverse (reverse a)) y n) (reverse-reverse b)
          (Edits-reverse (distance-Edits (reverse a) (reverse b))));
  least = λ m e. distance_least (Edits-reverse e);
})
  where
    n : ℕ
    n = distance (reverse a) (reverse b)

IsDistance-swap : (a b : List ℕ) (n : ℕ) → IsDistance a b n → IsDistance b a n
IsDistance-swap a b n d = record {
  reached = Edits-swap d.reached;
  least = λ m e. d.least m (Edits-swap e);
}

-- For every two texts, `levenshtein` is the least number of edits (to replace, delete or insert one
-- character) that turn the first into the second, whichever of them is the longer one.
pub levenshtein-IsDistance : (a b : List ℕ) → IsDistance a b (levenshtein a b)
unfolding levenshtein
levenshtein-IsDistance a b = elim (Bool-cases (ltb (length a) (length b))) [
  | inl shorter ↦ rw shorter (IsDistance-swap b a _ (distance_rows-IsDistance b a))
  | inr longer ↦ rw longer (distance_rows-IsDistance a b)
]
