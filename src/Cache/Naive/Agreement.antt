-- ===== src/Cache/Naive/Agreement.antt =====
-- edgerag/cache/paged.py against edgerag/cache/naive.py: one storage for the other.
use edgerag.Cache.Naive.{Naive}
use edgerag.Cache.Naive.Pass.{naive_layers, history, NaiveHolds, naive_layers-Passed}
use edgerag.Cache.Paged.{Paged, seq_len}
use edgerag.Cache.Paged.Gather.{contents}
use edgerag.Cache.Paged.Pass.{forward_layers, appended, AllOfLength, Holds, appended-congr}
use edgerag.Cache.Paged.Whole.{forward_lem}
use edgerag.Cache.Paged.Update.{SameHistory, IsShort}
use edgerag.Cache.BlockTable.Ownership.{IsOwned, IsExact}
use edgerag.Prelude.{
  ◌≡◌, ℕ, ◌<◌, List, ◌≤◌, ◌∷◌, length, ap, ◌+◌, arith, suc, err, Bool-cases, out_of_blocks, [], ◌⊎◌,
  ◌==◌, refl, inl, ok, subst, ◌∙◌, sym, inr,
}

module _ {A : Type 0} where
  -- The two caches have as many layers and tokens, and every layer holds the same rows.
  pub record Agree (s : Paged A) (m : Naive A) : Type 0 where
    pub layers : s.n_pool_layers ≡ m.n_layers
    pub length_same : seq_len s ≡ m.seq_len
    pub rows_same : (l : ℕ) → l < m.n_layers → contents l s ≡ history l m

  Holds-agree :
      (s : Paged A) (m : Naive A) (k l : ℕ) (hs : List (List A))
      → Holds s k hs
      → NaiveHolds m k hs
      → k ≤ l
      → l < k + length hs
      → contents l s ≡ history l m
  Holds-agree s m k l [] a b from to = absurd (omega arith)
  Holds-agree s m k l (h ∷ hs) a b from to = elim (Bool-cases (k == l)) [
    | inl here ↦
        let e : k ≡ l = ground arith in subst (λ x. contents x s ≡ history x m) e (a.0 ∙ sym b.0)
    | inr later ↦ Holds-agree s m (k + 1) l hs a.1 b.1 (ground arith) (omega arith)
  ]

  length-appended :
      (old : ℕ → List A) (k : ℕ) (rowss : List (List A))
      → length (appended old k rowss) ≡ length rowss
  length-appended old k [] = refl
  length-appended old k (rows ∷ rest) = ap suc (length-appended old (k + 1) rest)

  -- A forward pass of `n` tokens over all layers, on a paged cache and on a contiguous one that agree,
  -- where the contiguous one has room. Either the paged one raises OutOfBlocksError and keeps its
  -- history, and this happens only if the pool is short of blocks: fewer are free than the table lacks
  -- for the new tokens, or just as many and another holder has the block of the next token. Or both return the same list for every layer, what was
  -- there before with the new rows behind it, and the two agree again.
  pub paged_refines_naive :
      (others : ℕ → ℕ) (n : ℕ) (rows : List A) (rest : List (List A)) (s : Paged A) (m : Naive A)
      → IsOwned others s.view
      → IsExact s.view
      → Agree s m
      → AllOfLength n (rows ∷ rest)
      → length (rows ∷ rest) ≡ m.n_layers
      → m.seq_len + n ≤ m.max_seq_len
      → ((s' : Paged A) × (forward_layers s.first_layer (rows ∷ rest) s ≡ (err out_of_blocks, s'))
          × IsShort others n s
          × SameHistory others s s')
        ⊎ ((s' : Paged A) × (m' : Naive A) × (hs : List (List A)) × (forward_layers s.first_layer
                (rows ∷ rest)
                s
              ≡ (ok hs, s'))
            × (naive_layers 0 (rows ∷ rest) m ≡ (ok hs, m'))
            × (hs ≡ appended (λ l. history l m) 0 (rows ∷ rest))
            × Agree s' m'
            × IsOwned others s'.view
            × IsExact s'.view)
  paged_refines_naive others n rows rest s m o x g all count room =
      elim (forward_lem others n rows rest s o x all (omega (arith, count, g.layers))) [
        | inr failed ↦ inl failed
        | inl (s', run, holds, longer, same, o', x', _) ↦
            let (m', naive_run, q) =
              naive_layers-Passed n 0 rows rest m all room (omega (arith, count)) in
            let old = appended (λ l. contents l s) 0 (rows ∷ rest) in
            let new = appended (λ l. history l m) 0 (rows ∷ rest) in
            let equal : old ≡ new =
              appended-congr (λ l. contents l s) (λ l. history l m) 0 m.n_layers (rows ∷ rest)
                (λ l _ inside. g.rows_same l inside) (omega (arith, count)) in
            inr (
              s',
              m',
              new,
              run ∙ ap (λ hs. (ok hs, s')) equal,
              naive_run,
              refl,
              record {
                layers = omega (arith, same, g.layers, q.same_layers);
                length_same = omega (arith, longer, g.length_same, q.longer);
                rows_same = λ l inside.
                    Holds-agree s' m' 0 l new (subst (λ hs. Holds s' 0 hs) equal holds) q.holds
                      (omega arith)
                      (omega (
                        arith,
                        count,
                        q.same_layers,
                        length-appended (λ k. history k m) 0 (rows ∷ rest),
                      ));
              },
              o',
              x',
            )
      ]
