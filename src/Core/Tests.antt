-- ===== src/Core/Tests.antt =====
-- The theorems on edgerag/core at small inputs. Floats, which nothing computes with, are ℕ here.
use edgerag.Core.Spec.{
  TextConfig, Config, ModelSpec, from_hf_config, visual_tokens_for, n_rep, dict,
}
use edgerag.Prelude.{
  ◌*◌, ℕ, ◌≡◌, some, true, negsuc, none, pos, ok, err, ◌∷◌, value_error, memory_budget_exceeded, [],
  refl, ◌<◌, ◌⊎◌, List, length, ◌+◌, false, arith, ◌≤◌,
}
use edgerag.Core.Budget.{plan_pool_for_budget, PoolPlan, fits}
use edgerag.Core.Quant.{pack_int4, unpack_int4}
use edgerag.Core.Quant.Packing.{unpack-pack_int4}
use edgerag.Core.Budget.Plan.{plan_pool_for_budget_lem}

-- Nine query heads in groups of three, as in the small checkpoints.
abbrev text : TextConfig ℕ
text = record {
  num_hidden_layers = 30;
  text_hidden_size = 576;
  num_attention_heads = 9;
  num_key_value_heads = some 3;
  text_head_dim = none;
  text_vocab_size = 49280;
  max_positions = some 8192;
  rope_parameters = dict (some 100000);
  direct_rope_theta = none;
  text_pad_token_id = some (pos 2);
  text_intermediate_size = 1536;
}

abbrev config : Config ℕ
config = record {
  text_config = text;
  vision_config = record {
    vision_hidden_layers = 12;
    vision_hidden_size = 768;
    image_size = 512;
    patch_size = 16;
  };
  config_scale_factor = some 4;
  config_image_token_id = 49190;
}

abbrev spec : ModelSpec ℕ
spec = record {
  n_layers = 30;
  hidden_size = 576;
  n_q_heads = 9;
  n_kv_heads = 3;
  head_dim = 64;
  vocab_size = 49280;
  max_position_embeddings = 8192;
  rope_theta = 100000;
  vision_layers = 12;
  vision_hidden = 768;
  vision_image_size = 512;
  vision_patch_size = 16;
  scale_factor = 4;
  image_token_id = 49190;
  pad_token_id = pos 2;
  intermediate_size = 1536;
}

reads_config : from_hf_config config ≡ ok spec
unfolding from_hf_config
reads_config = refl

-- A pad id of the composite configuration is outside the vocabulary.
rejects_pad :
    from_hf_config
      (record config { text_config = record text { text_pad_token_id = some (pos 128002) } })
    ≡ err value_error
unfolding from_hf_config
rejects_pad = refl

spec_tokens : visual_tokens_for 4 true spec ≡ ok 320
unfolding visual_tokens_for
spec_tokens = refl

n_rep-spec : n_rep spec ≡ ok 3
unfolding n_rep
n_rep-spec = refl

-- 100 bytes of budget, 30 of weights, 20 of activation: 50 bytes are left for blocks of 2 * 6 bytes.
plan_pool_for_budget_lem_example :
    ((plan_pool_for_budget 6 30 20 100 2 1 ≡ err memory_budget_exceeded) × (100 < 62))
    ⊎ ((p : PoolPlan) × (plan_pool_for_budget 6 30 20 100 2 1 ≡ ok p)
        × (0 < p.num_blocks)
        × (p.block_size ≡ 2)
        × (p.reserve_blocks ≡ 1)
        × (p.budget_bytes ≡ 100)
        × (p.weights_bytes ≡ 30)
        × (p.activation_bytes ≡ 20)
        × (p.kv_bytes_per_token ≡ 6)
        × (30 + 20 + p.num_blocks * (2 * 6) ≤ 100)
        × (100 < 30 + 20 + (p.num_blocks + 1) * (2 * 6))
        × (fits p ≡ true)
        × (fits (record p { num_blocks = p.num_blocks + 1 }) ≡ false))
plan_pool_for_budget_lem_example = plan_pool_for_budget_lem 6 30 20 100 2 1 (omega arith)

packs : pack_int4 (negsuc 7 ∷ pos 7 ∷ pos 0 ∷ negsuc 0 ∷ []) ≡ ok (240 ∷ 120 ∷ [])
unfolding pack_int4
packs = refl

unpack-pack_int4_example :
    ((◌≡◌ {A = ℕ} 0 1) × (pack_int4 (negsuc 7 ∷ pos 7 ∷ pos 0 ∷ negsuc 0 ∷ []) ≡ err value_error))
    ⊎ ((bytes : List ℕ) × (pack_int4 (negsuc 7 ∷ pos 7 ∷ pos 0 ∷ negsuc 0 ∷ []) ≡ ok bytes)
        × (length bytes * 2 ≡ 4)
        × (unpack_int4 bytes ≡ negsuc 7 ∷ pos 7 ∷ pos 0 ∷ negsuc 0 ∷ []))
unpack-pack_int4_example = unpack-pack_int4 (negsuc 7 ∷ pos 7 ∷ pos 0 ∷ negsuc 0 ∷ []) (
  (omega arith, omega arith),
  ((omega arith, omega arith), ((omega arith, omega arith), ((omega arith, omega arith), tt))),
)
