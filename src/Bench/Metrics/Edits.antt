-- ===== src/Bench/Metrics/Edits.antt =====
-- What the edit distance of bench/metrics.py means: scripts of edits, one character at a time.
use edgerag.Prelude.{
  ℕ, List, [], ◌++◌, ◌+◌, length, ◌≤◌, suc, ◌∷◌, subst, min, arith, ◌≡◌, Bool-cases, leb, ◌==◌, inl,
  inr,
}
use mathlib.Core.List.{reverse, reverse-cons, append-nil}
use edgerag.Bench.Metrics.{differs}

-- `Edits a b n`: n edits turn the text a into the text b.
pub data Edits : List ℕ → List ℕ → ℕ → Type 0 where
  done : Edits [] [] 0
  keep : {a b : List ℕ} {n : ℕ} (c : ℕ) → Edits a b n → Edits (c ∷ a) (c ∷ b) n
  replace : {a b : List ℕ} {n : ℕ} (c d : ℕ) → Edits a b n → Edits (c ∷ a) (d ∷ b) (suc n)
  delete : {a b : List ℕ} {n : ℕ} (c : ℕ) → Edits a b n → Edits (c ∷ a) b (suc n)
  insert : {a b : List ℕ} {n : ℕ} (d : ℕ) → Edits a b n → Edits a (d ∷ b) (suc n)

pub Edits-swap : {a b : List ℕ} {n : ℕ} → Edits a b n → Edits b a n
Edits-swap done = done
Edits-swap (keep c e) = keep c (Edits-swap e)
Edits-swap (replace c d e) = replace d c (Edits-swap e)
Edits-swap (delete c e) = insert c (Edits-swap e)
Edits-swap (insert d e) = delete d (Edits-swap e)

reindex : {a b : List ℕ} {m n : ℕ} → m ≡ n → Edits a b m → Edits a b n
reindex {a} {b} e x = subst (λ k. Edits a b k) e x

Edits-append :
    {a b a' b' : List ℕ} {m n : ℕ} → Edits a b m → Edits a' b' n → Edits (a ++ a') (b ++ b') (m + n)
Edits-append done f = reindex (omega arith) f
Edits-append (keep c e) f = keep c (Edits-append e f)
Edits-append (replace c d e) f = reindex (omega arith) (replace c d (Edits-append e f))
Edits-append (delete c e) f = reindex (omega arith) (delete c (Edits-append e f))
Edits-append (insert d e) f = reindex (omega arith) (insert d (Edits-append e f))

pub Edits-reverse : {a b : List ℕ} {n : ℕ} → Edits a b n → Edits (reverse a) (reverse b) n
Edits-reverse done = done
Edits-reverse (keep {a} {b} {n} c e) =
    rw (reverse-cons c a)
      (rw (reverse-cons c b) (reindex (omega arith) (Edits-append (Edits-reverse e) (keep c done))))
Edits-reverse (replace {a} {b} {n} c d e) = rw (reverse-cons c a) (
    rw (reverse-cons d b)
      (reindex (omega arith) (Edits-append (Edits-reverse e) (replace c d done))))
Edits-reverse (delete {a} {b} {n} c e) = rw (reverse-cons c a) (
    reindex (omega arith) (
      subst (λ t. Edits (reverse a ++ c ∷ []) t (n + 1)) (append-nil (reverse b))
        (Edits-append (Edits-reverse e) (delete c done))))
Edits-reverse (insert {a} {b} {n} d e) = rw (reverse-cons d b) (
    reindex (omega arith) (
      subst (λ t. Edits t (reverse b ++ d ∷ []) (n + 1)) (append-nil (reverse a))
        (Edits-append (Edits-reverse e) (insert d done))))

-- The distance by its recursion from the front: the last edit, seen from the end of the text, is the
-- first one here.
unfoldable pub distance : List ℕ → List ℕ → ℕ
distance [] b = length b
distance (c ∷ a) [] = suc (length a)
distance (c ∷ a) (d ∷ b) =
    let up = distance a (d ∷ b) in
    let left = distance (c ∷ a) b in
    let diagonal = distance a b in min (min (up + 1) (left + 1)) (diagonal + differs c d)

all_inserted : (b : List ℕ) → Edits [] b (length b)
all_inserted [] = done
all_inserted (d ∷ b) = insert d (all_inserted b)

all_deleted : (a : List ℕ) → Edits a [] (length a)
all_deleted [] = done
all_deleted (c ∷ a) = delete c (all_deleted a)

change : {a b : List ℕ} {n : ℕ} (c d : ℕ) → Edits a b n → Edits (c ∷ a) (d ∷ b) (n + differs c d)
change {a} {b} {n} c d e = elim (Bool-cases (c == d)) [
  | inl same ↦
      let f : c ≡ d = ground arith in
      rw same (subst (λ x. Edits (c ∷ a) (x ∷ b) (n + 0)) f (reindex (omega arith) (keep c e)))
  | inr other ↦ rw other (reindex (omega arith) (replace c d e))
]

min_of : (P : ℕ → Type 0) (x y : ℕ) → P x → P y → P (min x y)
min_of P x y p q = elim (Bool-cases (leb x y)) [
  | inl below ↦ let e : x ≡ min x y = ground arith in subst P e p
  | inr above ↦ let e : y ≡ min x y = ground arith in subst P e q
]

pub distance-Edits : (a b : List ℕ) → Edits a b (distance a b)
unfolding distance
distance-Edits [] b = all_inserted b
distance-Edits (c ∷ a) [] = all_deleted (c ∷ a)
distance-Edits (c ∷ a) (d ∷ b) =
    let script : ℕ → Type 0 = λ n. Edits (c ∷ a) (d ∷ b) n in
    min_of script _ _
      (min_of script _ _ (reindex (omega arith) (delete c (distance-Edits a (d ∷ b))))
        (reindex (omega arith) (insert d (distance-Edits (c ∷ a) b))))
      (change c d (distance-Edits a b))

distance_delete : (c : ℕ) (a b : List ℕ) → distance (c ∷ a) b ≤ distance a b + 1
unfolding distance
distance_delete c [] [] = omega arith
distance_delete c (d ∷ a) [] = omega arith
distance_delete c a (d ∷ b) = omega arith

distance_insert : (d : ℕ) (a b : List ℕ) → distance a (d ∷ b) ≤ distance a b + 1
unfolding distance
distance_insert d [] b = omega arith
distance_insert d (c ∷ a) b = omega arith

distance_change : (c d : ℕ) (a b : List ℕ) → distance (c ∷ a) (d ∷ b) ≤ distance a b + differs c d
unfolding distance
distance_change c d a b = ground arith

pub distance_least : {a b : List ℕ} {n : ℕ} → Edits a b n → distance a b ≤ n
distance_least done = unfold distance in omega arith
distance_least (keep {a} {b} {n} c e) = ground (arith, distance_change c c a b, distance_least e)
distance_least (replace {a} {b} {n} c d e) =
    ground (arith, distance_change c d a b, distance_least e)
distance_least (delete {a} {b} {n} c e) = omega (arith, distance_delete c a b, distance_least e)
distance_least (insert {a} {b} {n} d e) = omega (arith, distance_insert d a b, distance_least e)
