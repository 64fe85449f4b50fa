-- ===== src/Bench/Metrics.antt =====
-- bench/metrics.py: the edit distance. A text is a list of characters, which are numbers.
pub mod Edits
pub mod Distance
use edgerag.Prelude.{ℕ, List, if◌then◌else◌, ◌∷◌, [], length, ◌==◌, min, ◌+◌, suc, ltb, zero}

-- `int(ca != cb)`
abbrev pub differs : ℕ → ℕ → ℕ
differs a b = if a == b then 0 else 1

-- The inner loop, which walks along the previous row: `diagonal` is previous[j - 1], the head of the
-- list previous[j], and `left` current[j - 1].
abbrev pub fill_row : ℕ → ℕ → ℕ → List ℕ → List ℕ → List ℕ
fill_row ca diagonal left [] bs = []
fill_row ca diagonal left (up ∷ row) [] = []
fill_row ca diagonal left (up ∷ row) (cb ∷ bs) =
    let cell = min (min (up + 1) (left + 1)) (diagonal + differs ca cb) in
    cell ∷ fill_row ca up cell row bs

-- `current`, from `[i]` on.
abbrev pub next_row : ℕ → ℕ → List ℕ → List ℕ → List ℕ
next_row i ca [] bs = []
next_row i ca (first ∷ row) bs = i ∷ fill_row ca first i row bs

-- The outer loop, from its i-th round on.
unfoldable pub rows_from : ℕ → List ℕ → List ℕ → List ℕ → List ℕ
rows_from i [] bs previous = previous
rows_from i (ca ∷ cs) bs previous = rows_from (i + 1) cs bs (next_row i ca previous bs)

-- `list(range(n))`, from `k` on.
abbrev pub range_from : ℕ → ℕ → List ℕ
range_from k zero = []
range_from k (suc n) = k ∷ range_from (k + 1) n

-- `previous[-1]` of a row.
abbrev pub last_of : List ℕ → ℕ
last_of [] = 0
last_of (x ∷ []) = x
last_of (x ∷ y ∷ xs) = last_of (y ∷ xs)

abbrev pub distance_rows : List ℕ → List ℕ → ℕ
distance_rows a b = last_of (rows_from 1 a b (range_from 0 (length b + 1)))

-- The shorter text runs along the row.
unfoldable pub levenshtein : List ℕ → List ℕ → ℕ
unfolding rows_from
levenshtein a b = if ltb (length a) (length b) then distance_rows b a else distance_rows a b
