-- ===== src/Cache/Paged/Whole.antt =====
-- A whole forward pass on a cache of edgerag/cache/paged.py.
use edgerag.Prelude.{
  ℕ, ◌<◌, List, ◌+◌, length, ◌≡◌, ◌++◌, ok, subst, true, arith, ◌∙◌, ap, refl, ◌≤◌, ◌==◌, err,
  out_of_blocks, eqb_refl, ◌⊎◌, inr, inl,
}
use edgerag.Cache.Paged.{Paged, paged_update, ◌∷◌, seq_len, begin_update}
use edgerag.Cache.Paged.Gather.{contents}
use edgerag.Cache.Paged.Update.{Ready, SameHistory, begin_update-Ready, IsShort}
use edgerag.Cache.Paged.Layer.{layer_written, layer_written-Ready}
use edgerag.Cache.Paged.Pass.{
  forward_layers, appended, AllOfLength, Holds, before, layers_later, layers_from, write_layer_lem,
  appended-congr,
}
use edgerag.Cache.BlockTable.Ownership.{IsOwned, IsExact}

module _ {A : Type 0} where
  update_first :
      (others : ℕ → ℕ) (start n : ℕ) (rows : List A) (s t : Paged A)
      → begin_update (length rows) s ≡ (ok tt, t)
      → Ready others start n t
      → length rows ≡ n
      → t.first_layer ≡ s.first_layer
      → 0 < t.n_pool_layers
      → paged_update 1 rows (t.first_layer + 0) s
        ≡ (ok (before start t 0 ++ rows), layer_written 0 rows start t)
  unfolding paged_update
  update_first others start n rows s t begun r e same low =
      let d : (t.first_layer + 0 == s.first_layer) ≡ true = ground (arith, same) in
      rw d (rw begun (write_layer_lem others start 0 n rows t r e low))

  update_refused :
      (rows : List A) (s t : Paged A)
      → begin_update (length rows) s ≡ (err out_of_blocks, t)
      → paged_update 1 rows s.first_layer s ≡ (err out_of_blocks, t)
  unfolding paged_update
  update_refused rows s t e = rw (eqb_refl s.first_layer) (rw e refl)

  forward_refused :
      (rows : List A) (rest : List (List A)) (s t : Paged A)
      → paged_update 1 rows s.first_layer s ≡ (err out_of_blocks, t)
      → forward_layers s.first_layer (rows ∷ rest) s ≡ (err out_of_blocks, t)
  unfolding forward_layers
  forward_refused rows rest s t e = rw e refl

  -- A forward pass of `n` tokens over the layers of a cache whose table is exact and whose blocks are
  -- counted. Either every layer's call returns what the layer held before, with the new rows behind
  -- it, and the layers hold just that afterwards; the cache is longer by `n` tokens, exact and counted
  -- again, and no cell of a block that somebody else holds has changed. Or OutOfBlocksError is raised,
  -- which happens only if fewer blocks are free than the table lacks for the new tokens, or just as
  -- many and another holder has the block of the next token; then all that was written for this
  -- sequence or belongs to another holder is as before.
  pub forward_lem :
      (others : ℕ → ℕ) (n : ℕ) (rows : List A) (rest : List (List A)) (s : Paged A)
      → IsOwned others s.view
      → IsExact s.view
      → AllOfLength n (rows ∷ rest)
      → length (rows ∷ rest) ≤ s.n_pool_layers
      → ((s' : Paged A) × (forward_layers s.first_layer (rows ∷ rest) s
            ≡ (ok (appended (λ l. contents l s) 0 (rows ∷ rest)), s'))
          × Holds s' 0 (appended (λ l. contents l s) 0 (rows ∷ rest))
          × (seq_len s' ≡ seq_len s + n)
          × (s'.n_pool_layers ≡ s.n_pool_layers)
          × IsOwned others s'.view
          × IsExact s'.view
          × ((l b o : ℕ) → 0 < others b → s'.arena l b o ≡ s.arena l b o))
        ⊎ ((s' : Paged A) × (forward_layers s.first_layer (rows ∷ rest) s ≡ (err out_of_blocks, s'))
            × IsShort others n s
            × SameHistory others s s')
  forward_lem others n rows rest s o x all h =
      let (t, same, run) = begin_update-Ready others (length rows) s o x in
      elim run [
        | inr (e, short) ↦ inr (
          t,
          forward_refused rows rest s t (update_refused rows s t e),
          subst (λ m. IsShort others m s) all.0 short,
          same,
        )
        | inl (e, r0) ↦
            let r = subst (λ m. Ready others (seq_len s) m t) all.0 r0 in
            let start = seq_len s in
            let low : 0 < t.n_pool_layers = omega (arith, same.same_layers) in
            let fits : 0 + 1 + length rest ≤ t.n_pool_layers = omega (arith, same.same_layers) in
            let rt =
              subst (λ m. Ready others start m (layer_written 0 rows start t)) all.0
                (layer_written-Ready others start rows 0 t r0) in
            let first = update_first others start n rows s t e r all.0 same.same_first low in
            let later =
              layers_later others start 1 n rest (layer_written 0 rows start t) rt all.1
                (omega arith) (omega arith) in
            let (s', more, q) = layers_from others start 0 n rows rest s t r all fits first later in
            let agree : appended (before start t) 0 (rows ∷ rest)
                ≡ appended (λ l. contents l s) 0 (rows ∷ rest) =
              appended-congr (before start t) (λ l. contents l s) 0 s.n_pool_layers (rows ∷ rest)
                (λ l _ inside. same.history l inside) (omega arith) in
            let from : s.first_layer ≡ t.first_layer + 0 = omega (arith, same.same_first) in
            inl (
              s',
              ap (λ m. forward_layers m (rows ∷ rest) s) from ∙ more ∙ ap (λ hs. (ok hs, s')) agree,
              subst (λ hs. Holds s' 0 hs) agree q.holds,
              q.ready.tokens,
              q.layer_count ∙ same.same_layers,
              q.ready.owned,
              q.ready.exact,
              (λ l b p live. q.shared l b p live ∙ same.shared l b p live),
            )
      ]
