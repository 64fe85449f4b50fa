-- ===== src/Cache/Preemption/Victims.antt =====
-- `select_victims` of edgerag/cache/preemption.py: the newest, and no more than needed.
use edgerag.Prelude.{
  ◌∷◌, [], ℕ, List, ◌≡◌, take, ◌≤◌, ◌⊎◌, ◌+◌, ◌<◌, inr, arith, Bool-cases, inl, suc, zero, leb, ap,
  refl,
}
use edgerag.Cache.Preemption.{select_victims, choose, reverse}

abbrev pub names : List (ℕ × ℕ) → List ℕ
names [] = []
names ((request, _) ∷ rest) = request ∷ names rest

abbrev pub held_by : List (ℕ × ℕ) → ℕ
held_by [] = 0
held_by ((_, held) ∷ rest) = held + held_by rest

fewer_too_little :
    (blocks_needed freed request held n : ℕ) (rest : List (ℕ × ℕ))
    → freed < blocks_needed
    → ((k : ℕ) → k < n → freed + held + held_by (take k rest) < blocks_needed)
    → (k : ℕ) → k < suc n
    → freed + held_by (take k ((request, held) ∷ rest)) < blocks_needed
fewer_too_little blocks_needed freed request held n rest more least zero h = omega arith
fewer_too_little blocks_needed freed request held n rest more least (suc k) h =
    omega (arith, least k (omega arith))

choose_lem :
    (blocks_needed freed : ℕ) (cs : List (ℕ × ℕ))
    → (n : ℕ) × (choose blocks_needed freed cs ≡ names (take n cs))
      × ((blocks_needed ≤ freed + held_by (take n cs)) ⊎ (take n cs ≡ cs))
      × ((k : ℕ) → k < n → freed + held_by (take k cs) < blocks_needed)
choose_lem blocks_needed freed [] = (0, refl, inr refl, λ k h. absurd (omega arith))
choose_lem blocks_needed freed ((request, held) ∷ rest) =
    elim (Bool-cases (leb blocks_needed freed)) [
      | inl enough ↦ (0, rw enough refl, inl (ground arith), λ k h. absurd (omega arith))
      | inr more ↦
          let (n, e, ends, least) = choose_lem blocks_needed (freed + held) rest in
          (
            suc n,
            rw more (ap (◌∷◌ request) e),
            elim ends [
              | inl covered ↦ inl (omega (arith, covered))
              | inr all ↦ inr (ap (λ l. (request, held) ∷ l) all)
            ],
            fewer_too_little blocks_needed freed request held n rest (ground arith) least,
          )
    ]

-- The victims are the newest candidates, the newest first: as many of them as there have to be until
-- the blocks that they hold cover `blocks_needed`, and no fewer would do; all of them, where they hold
-- too little together.
pub select_victims_lem :
    (candidates : List (ℕ × ℕ)) (blocks_needed : ℕ)
    → (n : ℕ) × (select_victims candidates blocks_needed ≡ names (take n (reverse candidates)))
      × ((blocks_needed ≤ held_by (take n (reverse candidates)))
          ⊎ (take n (reverse candidates) ≡ reverse candidates))
      × ((k : ℕ) → k < n → held_by (take k (reverse candidates)) < blocks_needed)
unfolding select_victims
select_victims_lem candidates blocks_needed =
    let (n, e, ends, least) = choose_lem blocks_needed 0 (reverse candidates) in
    (
      n,
      e,
      elim ends [ inl covered ↦ inl (omega (arith, covered)) | inr all ↦ inr all ],
      λ k h. omega (arith, least k h),
    )
