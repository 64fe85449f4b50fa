-- ===== src/Cache/Naive/Pass.antt =====
-- One forward pass over all layers of the cache of edgerag/cache/naive.py.
use edgerag.Prelude.{
  ℕ, List, ◌+◌, ◌≢◌, Action, pure, ◌∷◌, ◌≡◌, length, ◌≤◌, ◌++◌, arith, [], ◌>>=◌, ◌<◌, ok, ◌∙◌, ◌-◌,
  refl, ltb, false, ap, leb, true, subst, ◌==◌, eqb_refl, get_or-in_range,
}
use edgerag.Cache.Naive.{Naive, assign, filled, naive_update, ◌+◌}
use edgerag.Cache.Paged.Tabulate.{tabulate, tabulate-congr, tabulate-append}
use edgerag.Cache.Paged.Pass.{appended, AllOfLength, appended-congr}

module _ {A : Type 0} where
  unfoldable pub naive_layers : ℕ → List (List A) → Action (Naive A) (List (List A))
  naive_layers layer [] = pure []
  naive_layers layer (rows ∷ rest) = do
    h ← naive_update rows layer
    hs ← naive_layers (layer + 1) rest
    pure (h ∷ hs)

  -- What a layer holds: its first `seq_len` cells.
  abbrev pub history : ℕ → Naive A → List A
  history l s = tabulate s.seq_len (s.cells l)

  abbrev pub NaiveHolds : Naive A → ℕ → List (List A) → Type 0
  NaiveHolds s k [] = Unit {0}
  NaiveHolds s k (h ∷ hs) = (history k s ≡ h) × NaiveHolds s (k + 1) hs

  abbrev assigned : ℕ → List A → Naive A → Naive A
  assigned layer rows s = record s { cells = assign layer s.seq_len rows s.cells }

  -- A call for a layer before the last one leaves the length alone.
  update_inner :
      (rows : List A) (layer : ℕ) (s : Naive A)
      → s.seq_len + length rows ≤ s.max_seq_len
      → layer + 1 < s.n_layers
      → naive_update rows layer s ≡ (
        ok (filled layer (s.seq_len + length rows) (assigned layer rows s)),
        assigned layer rows s,
      )
  unfolding naive_update
  update_inner rows layer s fits low =
      let f : ltb s.max_seq_len (s.seq_len + length rows) ≡ false = ground arith in
      let g : leb s.n_layers layer ≡ false = ground arith in
      let d : (layer == s.n_layers - 1) ≡ false = ground arith in rw f (rw g (rw d refl))

  update_last :
      (rows : List A) (layer : ℕ) (s : Naive A)
      → s.seq_len + length rows ≤ s.max_seq_len
      → layer + 1 ≡ s.n_layers
      → naive_update rows layer s ≡ (
        ok (filled layer (s.seq_len + length rows) (assigned layer rows s)),
        record (assigned layer rows s) { seq_len = s.seq_len + length rows },
      )
  unfolding naive_update
  update_last rows layer s fits low =
      let f : ltb s.max_seq_len (s.seq_len + length rows) ≡ false = ground arith in
      let g : leb s.n_layers layer ≡ false = ground arith in
      let d : (layer == s.n_layers - 1) ≡ true = ground arith in rw f (rw g (rw d refl))

  assigned_same :
      (rows : List A) (layer : ℕ) (s : Naive A)
      → tabulate (s.seq_len + length rows) ((assigned layer rows s).cells layer)
        ≡ history layer s ++ rows
  assigned_same rows layer s =
      tabulate-append s.seq_len rows (s.cells layer) ((assigned layer rows s).cells layer)
        (λ p inside. ground arith)
        (λ i inside.
          let e : s.seq_len + i - s.seq_len ≡ i = omega arith in
          let f : leb s.seq_len (s.seq_len + i) ≡ true = ground arith in
          rw (eqb_refl layer) (rw f (rw e (get_or-in_range rows i _ _ inside))))

  assigned_other :
      (rows : List A) (layer l p : ℕ) (s : Naive A)
      → l ≢ layer
      → (assigned layer rows s).cells l p ≡ s.cells l p
  assigned_other rows layer l p s h = ground (arith, h)

  history-assigned :
      (rows : List A) (layer l : ℕ) (s : Naive A)
      → l ≢ layer
      → history l (assigned layer rows s) ≡ history l s
  history-assigned rows layer l s h =
      tabulate-congr s.seq_len ((assigned layer rows s).cells l) (s.cells l)
        (λ p _. assigned_other rows layer l p s h)

  pub record NaivePassed (n k : ℕ) (hs : List (List A)) (s s' : Naive A) : Type 0 where
    pub longer : s'.seq_len ≡ s.seq_len + n
    pub same_layers : s'.n_layers ≡ s.n_layers
    pub same_max : s'.max_seq_len ≡ s.max_seq_len
    pub holds : NaiveHolds s' k hs
    pub lower : (l p : ℕ) → l < k → s'.cells l p ≡ s.cells l p

  naive_step :
      (layer : ℕ) (rows h : List A) (rest hs : List (List A)) (s t s' : Naive A)
      → naive_update rows layer s ≡ (ok h, t)
      → naive_layers (layer + 1) rest t ≡ (ok hs, s')
      → naive_layers layer (rows ∷ rest) s ≡ (ok (h ∷ hs), s')
  unfolding naive_layers
  naive_step layer rows h rest hs s t s' first more = rw first (rw more refl)

  -- A forward pass of the contiguous cache, from the layer `k` on.
  pub naive_layers-Passed :
      (n k : ℕ) (rows : List A) (rest : List (List A)) (s : Naive A)
      → AllOfLength n (rows ∷ rest)
      → s.seq_len + n ≤ s.max_seq_len
      → k + length (rows ∷ rest) ≡ s.n_layers
      → (s' : Naive A) × (naive_layers k (rows ∷ rest) s
          ≡ (ok (appended (λ l. history l s) k (rows ∷ rest)), s'))
        × NaivePassed n k (appended (λ l. history l s) k (rows ∷ rest)) s s'
  unfolding naive_layers
  naive_layers-Passed n k rows [] s all fits count =
      let full = assigned_same rows k s in
      let s' = record (assigned k rows s) { seq_len = s.seq_len + length rows } in
      (
        s',
        naive_step k rows (history k s ++ rows) [] [] s s' s'
            (update_last rows k s (omega (arith, all.0)) (omega arith) ∙ ap (λ h. (ok h, s')) full)
            refl,
        record {
          longer = omega (arith, all.0);
          same_layers = refl;
          same_max = refl;
          holds = (full, tt);
          lower = λ l p h. assigned_other rows k l p s (λ e. omega (arith, e));
        },
      )
  naive_layers-Passed n k rows (next ∷ rest) s all fits count =
      let t = assigned k rows s in
      let full = assigned_same rows k s in
      let (s', more, q) = naive_layers-Passed n (k + 1) next rest t all.1 fits (omega arith) in
      let tail : appended (λ l. history l t) (k + 1) (next ∷ rest)
          ≡ appended (λ l. history l s) (k + 1) (next ∷ rest) =
        appended-congr (λ l. history l t) (λ l. history l s) (k + 1) s.n_layers (next ∷ rest)
          (λ l from _. history-assigned rows k l s (λ e. omega (arith, e))) (omega arith) in
      let kept : history k s' ≡ tabulate (s.seq_len + length rows) (t.cells k) =
        ap (λ m. tabulate m (s'.cells k)) (omega (arith, q.longer, all.0))
        ∙ tabulate-congr (s.seq_len + length rows) (s'.cells k) (t.cells k)
            (λ p _. q.lower k p (omega arith)) in
      (
        s',
        naive_step k rows (history k s ++ rows) (next ∷ rest)
            (appended (λ l. history l s) (k + 1) (next ∷ rest)) s t s'
            (update_inner rows k s (omega (arith, all.0)) (omega arith) ∙ ap (λ h. (ok h, t)) full)
            (more ∙ ap (λ hs. (ok hs, s')) tail),
        record {
          longer = q.longer;
          same_layers = q.same_layers;
          same_max = q.same_max;
          holds = (kept ∙ full, subst (λ hs. NaiveHolds s' (k + 1) hs) tail q.holds);
          lower = λ l p h.
              q.lower l p (omega arith) ∙ assigned_other rows k l p s (λ e. omega (arith, e));
        },
      )
