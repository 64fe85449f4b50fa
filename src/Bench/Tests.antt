-- ===== src/Bench/Tests.antt =====
-- The edit distance at a small input: "flaw" and "lawn", by the places of their letters.
use edgerag.Bench.Metrics.{levenshtein}
use edgerag.Bench.Metrics.Distance.{IsDistance, levenshtein-IsDistance}
use edgerag.Prelude.{◌∷◌, [], ◌≡◌, refl}

flaw_lawn : levenshtein (6 ∷ 12 ∷ 1 ∷ 23 ∷ []) (12 ∷ 1 ∷ 23 ∷ 14 ∷ []) ≡ 2
unfolding levenshtein
flaw_lawn = refl

levenshtein-IsDistance_example :
    IsDistance
      (6 ∷ 12 ∷ 1 ∷ 23 ∷ [])
      (12 ∷ 1 ∷ 23 ∷ 14 ∷ [])
      (levenshtein (6 ∷ 12 ∷ 1 ∷ 23 ∷ []) (12 ∷ 1 ∷ 23 ∷ 14 ∷ []))
levenshtein-IsDistance_example =
    levenshtein-IsDistance (6 ∷ 12 ∷ 1 ∷ 23 ∷ []) (12 ∷ 1 ∷ 23 ∷ 14 ∷ [])
