-- ===== src/Cache/Paged/Tabulate.antt =====
-- A list as the values of a function at 0, 1, 2 and so on.
use edgerag.Prelude.{
  ℕ, List, [], length, ◌<◌, ◌+◌, ◌≤◌, suc, ◌≡◌, take, ◌∷◌, ap, arith, ◌++◌, get_or, ◌∙◌, zero, refl,
}

module _ {A : Type 0} where
  abbrev pub tabulate : ℕ → (ℕ → A) → List A
  tabulate zero f = []
  tabulate (suc n) f = f 0 ∷ tabulate n (λ i. f (suc i))

  pub length-tabulate : (n : ℕ) (f : ℕ → A) → length (tabulate n f) ≡ n
  length-tabulate zero f = refl
  length-tabulate (suc n) f = ap suc (length-tabulate n (λ i. f (suc i)))

  pub tabulate-congr :
      (n : ℕ) (f g : ℕ → A) → ((i : ℕ) → i < n → f i ≡ g i) → tabulate n f ≡ tabulate n g
  tabulate-congr zero f g h = refl
  tabulate-congr (suc n) f g h =
      let rest =
        tabulate-congr n (λ i. f (suc i)) (λ i. g (suc i)) (λ i l. h (suc i) (omega arith)) in
      rw rest (ap (λ a. a ∷ tabulate n (λ i. g (suc i))) (h 0 (omega arith)))

  pub tabulate_add :
      (m n : ℕ) (f : ℕ → A) → tabulate (m + n) f ≡ tabulate m f ++ tabulate n (λ i. f (m + i))
  tabulate_add zero n f =
      let e : 0 + n ≡ n = omega arith in
      rw e (tabulate-congr n f (λ i. f (0 + i)) (λ i l. ap f (omega arith)))
  tabulate_add (suc m) n f =
      let e : suc m + n ≡ suc (m + n) = omega arith in
      rw e (
        ap (◌∷◌ (f 0)) (
          tabulate_add m n (λ i. f (suc i))
          ∙ ap (λ xs. tabulate m (λ i. f (suc i)) ++ xs)
              (tabulate-congr n (λ i. f (suc (m + i))) (λ i. f (suc m + i))
                (λ i l. ap f (omega arith)))))

  pub take-tabulate : (m n : ℕ) (f : ℕ → A) → m ≤ n → take m (tabulate n f) ≡ tabulate m f
  take-tabulate zero n f h = refl
  take-tabulate (suc m) zero f h = absurd (omega arith)
  take-tabulate (suc m) (suc n) f h =
      ap (◌∷◌ (f 0)) (take-tabulate m n (λ i. f (suc i)) (omega arith))

  -- A list is the values that it has.
  pub tabulate-get_or :
      (xs : List A) (f : ℕ → A)
      → ((i : ℕ) → i < length xs → f i ≡ get_or xs i (f i))
      → tabulate (length xs) f ≡ xs
  tabulate-get_or [] f h = refl
  tabulate-get_or (x ∷ xs) f h =
      let rest = tabulate-get_or xs (λ i. f (suc i)) (λ i l. h (suc i) (omega arith)) in
      rw rest (ap (λ a. a ∷ xs) (h 0 (omega arith)))

  -- A function that goes on where the list of its first values ends.
  pub tabulate-append :
      (n : ℕ) (xs : List A) (f g : ℕ → A)
      → ((i : ℕ) → i < n → g i ≡ f i)
      → ((i : ℕ) → i < length xs → g (n + i) ≡ get_or xs i (g (n + i)))
      → tabulate (n + length xs) g ≡ tabulate n f ++ xs
  tabulate-append n xs f g old new =
      tabulate_add n (length xs) g
      ∙ ap (λ ys. ys ++ tabulate (length xs) (λ i. g (n + i))) (tabulate-congr n g f old)
      ∙ ap (λ ys. tabulate n f ++ ys) (tabulate-get_or xs (λ i. g (n + i)) new)
