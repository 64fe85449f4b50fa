-- ===== src/Cache/Naive.antt =====
-- edgerag/cache/naive.py: the contiguous cache that the paged one is compared with. A cell stands for
-- the key and the value of one position in one layer, over the batch and all heads.
pub mod Pass
pub mod Agreement
use edgerag.Cache.Paged.Tabulate.{tabulate}
use edgerag.Prelude.{
  ℕ, List, if◌then◌else◌, Action, ◌==◌, ◌+◌, ◌&&◌, length, leb, ltb, get_or, err, ◌-◌,
  runtime_error, index_error, ok,
}

pub record Naive (A : Type 0) : Type 0 where
  pub cells : ℕ → ℕ → A
  pub n_layers : ℕ
  pub max_seq_len : ℕ
  pub seq_len : ℕ

module _ {A : Type 0} where
  -- `keys[layer][:, :, start:end] = key`
  abbrev pub assign : ℕ → ℕ → List A → (ℕ → ℕ → A) → ℕ → ℕ → A
  assign layer start rows cells l p =
      if l == layer && leb start p then get_or rows (p - start) (cells l p) else cells l p

  -- `keys[layer][:, :, :end]`
  abbrev pub filled : ℕ → ℕ → Naive A → List A
  filled layer end s = tabulate end (s.cells layer)

  unfoldable pub naive_update : List A → ℕ → Action (Naive A) (List A)
  naive_update rows layer s =
      let end = s.seq_len + length rows in
      if ltb s.max_seq_len end
      then (err runtime_error, s)
      else (if leb s.n_layers layer
          then (err index_error, s)
          else let t = record s { cells = assign layer s.seq_len rows s.cells } in
            let u = if layer == s.n_layers - 1 then record t { seq_len = end } else t in
            (ok (filled layer end u), u))

  unfoldable pub naive_reset : Naive A → Naive A
  naive_reset s = record s { seq_len = 0 }
