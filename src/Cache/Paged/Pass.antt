-- ===== src/Cache/Paged/Pass.antt =====
-- One forward pass over all layers of a cache of edgerag/cache/paged.py.
use edgerag.Prelude.{
  ℕ, ◌<◌, List, ◌+◌, Action, length, ◌≡◌, ◌++◌, pure, [], ◌>>=◌, ok, subst, leb, true, sym, arith,
  ◌∙◌, ◌-◌, lt→ltb, ap, refl, ◌≤◌, ◌==◌, false,
}
use edgerag.Cache.Paged.{Paged, pool_index, write_layer, paged_update, ◌∷◌, seq_len}
use edgerag.Cache.Paged.Tabulate.{tabulate, tabulate-congr}
use edgerag.Cache.Paged.Gather.{read, contents}
use edgerag.Cache.Paged.Write.{write_ok, written_layer}
use edgerag.Cache.Paged.Update.{Ready, fits_of_exact}
use edgerag.Cache.Paged.Layer.{
  layer_written, layer_written-Ready, layer_written-contents, write_layer_run, gather-contents,
  room, layer_written-shared,
}

module _ {A : Type 0} where
  -- The calls of `update` for one pass, from `layer` on: the rows of each layer, and what each returns.
  unfoldable pub forward_layers : ℕ → List (List A) → Action (Paged A) (List (List A))
  forward_layers layer [] = pure []
  forward_layers layer (rows ∷ rest) = do
    h ← paged_update 1 rows layer
    hs ← forward_layers (layer + 1) rest
    pure (h ∷ hs)

  -- Every layer's old contents with its new rows at the end.
  abbrev pub appended : (ℕ → List A) → ℕ → List (List A) → List (List A)
  appended old k [] = []
  appended old k (rows ∷ rest) = (old k ++ rows) ∷ appended old (k + 1) rest

  abbrev pub AllOfLength : ℕ → List (List A) → Type 0
  AllOfLength n [] = Unit {0}
  AllOfLength n (rows ∷ rest) = (length rows ≡ n) × AllOfLength n rest

  -- The layers from `k` on hold these lists.
  abbrev pub Holds : Paged A → ℕ → List (List A) → Type 0
  Holds s k [] = Unit {0}
  Holds s k (h ∷ hs) = (contents k s ≡ h) × Holds s (k + 1) hs

  pool_index_at :
      (k : ℕ) (s : Paged A) → k < s.n_pool_layers → pool_index (s.first_layer + k) s ≡ ok k
  unfolding pool_index
  pool_index_at k s h =
      let f : leb s.first_layer (s.first_layer + k) ≡ true = ground arith in
      let e : s.first_layer + k - s.first_layer ≡ k = omega arith in
      rw f (rw e (rw (lt→ltb k s.n_pool_layers h) refl))

  -- What a layer held before this pass.
  abbrev pub before : ℕ → Paged A → ℕ → List A
  before start s l = tabulate start (read s.arena l s.view.table.blocks s.view.pool.block_size)

  pub write_layer_lem :
      (others : ℕ → ℕ) (start k n : ℕ) (rows : List A) (s : Paged A)
      → Ready others start n s
      → length rows ≡ n
      → k < s.n_pool_layers
      → write_layer rows (s.first_layer + k) s
        ≡ (ok (before start s k ++ rows), layer_written k rows start s)
  write_layer_lem others start k n rows s r e low =
      let r' = subst (λ m. Ready others start m s) (sym e) r in
      let t = layer_written k rows start s in
      let at = pool_index_at k s low in
      let rt = layer_written-Ready others start rows k s r' in
      write_layer_run rows (s.first_layer + k) k start s at (omega (arith, r.tokens, r.pending))
        (write_ok k rows start s r.owned.well_formed.positive (room others start rows k s r'))
      ∙ ap (λ x. (x, t))
          (gather-contents (s.first_layer + k) k t rt.owned.well_formed.positive
              (fits_of_exact others t rt.owned rt.exact) (pool_index_at k t low)
            ∙ ap (λ xs. ok xs) (layer_written-contents others start rows k s r'))

  -- A call for a layer that is not the first.
  update_later :
      (others : ℕ → ℕ) (start k n : ℕ) (rows : List A) (s : Paged A)
      → Ready others start n s
      → length rows ≡ n
      → 0 < k
      → k < s.n_pool_layers
      → paged_update 1 rows (s.first_layer + k) s
        ≡ (ok (before start s k ++ rows), layer_written k rows start s)
  unfolding paged_update
  update_later others start k n rows s r e later low =
      let d : (s.first_layer + k == s.first_layer) ≡ false = ground arith in
      rw d (write_layer_lem others start k n rows s r e low)

  pub appended-congr :
      (old new : ℕ → List A) (k bound : ℕ) (rowss : List (List A))
      → ((l : ℕ) → k ≤ l → l < bound → old l ≡ new l)
      → k + length rowss ≤ bound
      → appended old k rowss ≡ appended new k rowss
  appended-congr old new k bound [] same h = refl
  appended-congr old new k bound (rows ∷ rest) same h =
      let tail =
        appended-congr old new (k + 1) bound rest (λ l from to. same l (omega arith) to)
          (omega arith) in
      rw tail
        (ap (λ xs. (xs ++ rows) ∷ appended new (k + 1) rest) (same k (omega arith) (omega arith)))

  -- What the rest of a pass leaves.
  pub record Passed (others : ℕ → ℕ) (start n k : ℕ) (hs : List (List A)) (s s' : Paged A)
      : Type 0 where
    pub ready : Ready others start n s'
    pub holds : Holds s' k hs
    pub lower : (l b o : ℕ) → l < k → s'.arena l b o ≡ s.arena l b o
    pub shared : (l b o : ℕ) → 0 < others b → s'.arena l b o ≡ s.arena l b o
    pub same_view : s'.view ≡ s.view
    pub layer_count : s'.n_pool_layers ≡ s.n_pool_layers

  contents_same :
      (l : ℕ) (s t : Paged A)
      → s.view ≡ t.view
      → ((b o : ℕ) → s.arena l b o ≡ t.arena l b o)
      → contents l s ≡ contents l t
  contents_same l s t e same =
      ap (λ v. tabulate v.table.num_tokens (read s.arena l v.table.blocks v.pool.block_size)) e
      ∙ tabulate-congr (seq_len t) (read s.arena l t.view.table.blocks t.view.pool.block_size)
          (read t.arena l t.view.table.blocks t.view.pool.block_size) (λ p _. same _ _)

  before_later :
      (start k l : ℕ) (rows : List A) (s : Paged A)
      → k < l
      → before start (layer_written k rows start s) l ≡ before start s l
  before_later start k l rows s h =
      let size = s.view.pool.block_size in
      tabulate-congr start (read (layer_written k rows start s).arena l s.view.table.blocks size)
        (read s.arena l s.view.table.blocks size)
        (λ p _.
          written_layer k s.view.table.blocks size rows start s.arena l _ _ (λ e. omega (arith, e)))

  -- One layer, and the layers behind it.
  Passed-cons :
      (others : ℕ → ℕ) (start k n : ℕ) (rows : List A) (rest : List (List A)) (s s' : Paged A)
      → Ready others start n s
      → length rows ≡ n
      → k + 1 + length rest ≤ s.n_pool_layers
      → Passed others start n
          (k + 1)
          (appended (before start (layer_written k rows start s)) (k + 1) rest)
          (layer_written k rows start s)
          s'
      → Passed others start n k (appended (before start s) k (rows ∷ rest)) s s'
  Passed-cons others start k n rows rest s s' r e h q =
      let t = layer_written k rows start s in
      let r' = subst (λ m. Ready others start m s) (sym e) r in
      let tail : appended (before start t) (k + 1) rest ≡ appended (before start s) (k + 1) rest =
        appended-congr (before start t) (before start s) (k + 1) (s.n_pool_layers) rest
          (λ l from _. before_later start k l rows s (omega arith)) h in
      record {
        ready = q.ready;
        holds = (
          contents_same k s' t q.same_view (λ b o. q.lower k b o (omega arith))
              ∙ layer_written-contents others start rows k s r',
          subst (λ hs. Holds s' (k + 1) hs) tail q.holds,
        );
        lower = λ l b o low.
            q.lower l b o (omega arith)
            ∙ written_layer k s.view.table.blocks s.view.pool.block_size rows start s.arena l b o
                (λ d. omega (arith, d));
        shared = λ l b o live.
            q.shared l b o live ∙ layer_written-shared others start rows k s r' l b o live;
        same_view = q.same_view;
        layer_count = q.layer_count;
      }

  forward_step :
      (layer : ℕ) (rows h : List A) (rest hs : List (List A)) (s t s' : Paged A)
      → paged_update 1 rows layer s ≡ (ok h, t)
      → forward_layers (layer + 1) rest t ≡ (ok hs, s')
      → forward_layers layer (rows ∷ rest) s ≡ (ok (h ∷ hs), s')
  unfolding forward_layers
  forward_step layer rows h rest hs s t s' first more = rw first (rw more refl)

  appended_tail :
      (start k : ℕ) (rows : List A) (rest : List (List A)) (s : Paged A)
      → k + 1 + length rest ≤ s.n_pool_layers
      → appended (before start (layer_written k rows start s)) (k + 1) rest
        ≡ appended (before start s) (k + 1) rest
  appended_tail start k rows rest s h =
      appended-congr (before start (layer_written k rows start s)) (before start s) (k + 1)
        s.n_pool_layers rest (λ l from _. before_later start k l rows s (omega arith)) h

  -- A layer that is written, and then the layers behind it.
  pub layers_from :
      (others : ℕ → ℕ) (start k n : ℕ) (rows : List A) (rest : List (List A)) (s0 s : Paged A)
      → Ready others start n s
      → AllOfLength n (rows ∷ rest)
      → k + 1 + length rest ≤ s.n_pool_layers
      → paged_update 1 rows (s.first_layer + k) s0
        ≡ (ok (before start s k ++ rows), layer_written k rows start s)
      → ((s' : Paged A) × (forward_layers
              (s.first_layer + (k + 1))
              rest
              (layer_written k rows start s)
            ≡ (ok (appended (before start (layer_written k rows start s)) (k + 1) rest), s'))
          × Passed others start n
              (k + 1)
              (appended (before start (layer_written k rows start s)) (k + 1) rest)
              (layer_written k rows start s)
              s')
      → (s' : Paged A) × (forward_layers (s.first_layer + k) (rows ∷ rest) s0
          ≡ (ok (appended (before start s) k (rows ∷ rest)), s'))
        × Passed others start n k (appended (before start s) k (rows ∷ rest)) s s'
  layers_from others start k n rows rest s0 s r all h first (s', more, q) =
      let t = layer_written k rows start s in
      let next : s.first_layer + (k + 1) ≡ s.first_layer + k + 1 = omega arith in
      let more' : forward_layers (s.first_layer + k + 1) rest t
          ≡ (ok (appended (before start s) (k + 1) rest), s') =
        ap (λ m. forward_layers m rest t) (sym next)
        ∙ more
        ∙ ap (λ hs. (ok hs, s')) (appended_tail start k rows rest s h) in
      (
        s',
        forward_step (s.first_layer + k) rows (before start s k ++ rows) rest
            (appended (before start s) (k + 1) rest) s0 t s' first more',
        Passed-cons others start k n rows rest s s' r all.0 h q,
      )

  pub layers_later :
      (others : ℕ → ℕ) (start k n : ℕ) (rowss : List (List A)) (s : Paged A)
      → Ready others start n s
      → AllOfLength n rowss
      → 0 < k
      → k + length rowss ≤ s.n_pool_layers
      → (s' : Paged A) × (forward_layers (s.first_layer + k) rowss s
          ≡ (ok (appended (before start s) k rowss), s'))
        × Passed others start n k (appended (before start s) k rowss) s s'
  unfolding forward_layers
  layers_later others start k n [] s r all later h = (
    s,
    refl,
    record {
      ready = r;
      holds = tt;
      lower = λ l b o _. refl;
      shared = λ l b o _. refl;
      same_view = refl;
      layer_count = refl;
    },
  )
  layers_later others start k n (rows ∷ rest) s r all later h =
      let r' = subst (λ m. Ready others start m s) (sym all.0) r in
      let rt =
        subst (λ m. Ready others start m (layer_written k rows start s)) all.0
          (layer_written-Ready others start rows k s r') in
      layers_from others start k n rows rest s s r all (omega arith)
        (update_later others start k n rows s r all.0 later (omega arith))
        (layers_later others start (k + 1) n rest (layer_written k rows start s) rt all.1
          (omega arith) (omega arith))
