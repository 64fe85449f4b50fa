-- ===== src/Prelude/Counting.antt =====
-- Occurrences in a list and sums over a range: how the proofs say who holds which block.
use Prim.Native.Nat.{ℕ, zero, suc, ◌+◌, ◌≤◌, ◌<◌}
use mathlib.Core.Path.{◌≡◌, refl, ap}
use mathlib.Core.List.{List, [], ◌∷◌, ◌++◌, reverse, reverse-cons}
use native.Mathlib.Omega.{arith}
use edgerag.Prelude.Tests.{◌==◌, ltb, if◌then◌else◌}
use edgerag.Prelude.Lists.{length, set, get_or}

-- 1 where the test holds, and 0 elsewhere.
abbrev pub eq_mark : ℕ → ℕ → ℕ
eq_mark a b = if a == b then 1 else 0

-- How often a number occurs.
unfoldable pub occ : ℕ → List ℕ → ℕ
occ b [] = 0
occ b (x ∷ xs) = eq_mark x b + occ b xs

pub occ-nil : (b : ℕ) → occ b [] ≡ 0
unfolding occ
occ-nil b = refl

pub occ-cons : (b x : ℕ) (xs : List ℕ) → occ b (x ∷ xs) ≡ eq_mark x b + occ b xs
unfolding occ
occ-cons b x xs = refl

pub occ-append : (b : ℕ) (xs ys : List ℕ) → occ b (xs ++ ys) ≡ occ b xs + occ b ys
unfolding occ
occ-append b [] ys = omega arith
occ-append b (x ∷ xs) ys = omega (arith, occ-append b xs ys)

unfoldable pub sum_below : ℕ → (ℕ → ℕ) → ℕ
sum_below zero f = 0
sum_below (suc n) f = sum_below n f + f n

pub sum_below-congr :
    (n : ℕ) (f g : ℕ → ℕ) → ((b : ℕ) → b < n → f b ≡ g b) → sum_below n f ≡ sum_below n g
unfolding sum_below
sum_below-congr zero f g h = refl
sum_below-congr (suc n) f g h =
    omega (arith, sum_below-congr n f g (λ b l. h b (omega arith)), h n (omega arith))

pub sum_below-add :
    (n : ℕ) (f g : ℕ → ℕ) → sum_below n (λ b. f b + g b) ≡ sum_below n f + sum_below n g
unfolding sum_below
sum_below-add zero f g = omega arith
sum_below-add (suc n) f g = omega (arith, sum_below-add n f g)

pub sum_below-zero : (n : ℕ) → sum_below n (λ b. 0) ≡ 0
unfolding sum_below
sum_below-zero zero = refl
sum_below-zero (suc n) = omega (arith, sum_below-zero n)

pub sum_below-one : (n : ℕ) → sum_below n (λ b. 1) ≡ n
unfolding sum_below
sum_below-one zero = refl
sum_below-one (suc n) = omega (arith, sum_below-one n)

sum_below-mark : (n x : ℕ) → sum_below n (eq_mark x) ≡ (if ltb x n then 1 else 0)
unfolding sum_below
sum_below-mark zero x = ground arith
sum_below-mark (suc n) x = ground (arith, sum_below-mark n x)

-- A list of numbers below `n` is as long as their occurrences add up to.
pub sum_below-occ :
    (n : ℕ) (xs : List ℕ)
    → ((b : ℕ) → n ≤ b → occ b xs ≡ 0)
    → sum_below n (λ b. occ b xs) ≡ length xs
unfolding occ
sum_below-occ n [] h = sum_below-zero n
sum_below-occ n (x ∷ xs) h = omega (
  arith,
  sum_below-add n (eq_mark x) (λ b. occ b xs),
  sum_below-occ n xs (λ b l. omega (arith, h b l)),
  in_range,
)
  where
    in_range : sum_below n (eq_mark x) ≡ 1
    in_range = ground (arith, sum_below-mark n x, h x)

pub eq_mark_self : (b : ℕ) → eq_mark b b ≡ 1
eq_mark_self b = ground arith

-- A write puts one number in the place of another.
pub occ-set :
    (xs : List ℕ) (i v b : ℕ)
    → i < length xs
    → occ b (set xs i v) + eq_mark (get_or xs i 0) b ≡ occ b xs + eq_mark v b
unfolding occ
occ-set [] i v b h = absurd (omega arith)
occ-set (x ∷ xs) zero v b h = omega arith
occ-set (x ∷ xs) (suc i) v b h = omega (arith, occ-set xs i v b (omega arith))

-- An entry of a list occurs in it.
pub occ-get_or : (xs : List ℕ) (i : ℕ) → i < length xs → 0 < occ (get_or xs i 0) xs
unfolding occ
occ-get_or [] i h = absurd (omega arith)
occ-get_or (x ∷ xs) zero h = omega (arith, eq_mark_self x)
occ-get_or (x ∷ xs) (suc i) h = omega (arith, occ-get_or xs i (omega arith))

pub occ-reverse : (b : ℕ) (xs : List ℕ) → occ b (reverse xs) ≡ occ b xs
occ-reverse b [] = refl
occ-reverse b (x ∷ xs) = omega (
  arith,
  ap (occ b) (reverse-cons x xs),
  occ-append b (reverse xs) (x ∷ []),
  occ-cons b x [],
  occ-cons b x xs,
  occ-nil b,
  occ-reverse b xs,
)
