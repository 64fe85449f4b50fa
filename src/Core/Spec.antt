-- ===== src/Core/Spec.antt =====
-- edgerag/core/spec.py: the numbers of a model that decide about its memory. Texts and floats of the
-- configuration that are only passed on (model_id, model_type, hidden_act, rms_norm_eps) are left out;
-- F is the type of Python's floats.
use edgerag.Prelude.{
  ℕ, Option, Result, Bool, ℤ, if◌then◌else◌, some, err, ltb, ◌*◌, ◌+◌, none, ◌==◌, value_error, ok,
  not, ◌/◌, zero_division, ltb_ℤ, pos, ◌&&◌, ◌%◌,
}

pub data Dtype : Type 0 where
  float32 float16 bfloat16 int8 int4 : Dtype

abbrev pub dtype_bytes : Dtype → ℕ
dtype_bytes float32 = 4
dtype_bytes float16 = 2
dtype_bytes bfloat16 = 2
dtype_bytes int8 = 1
dtype_bytes int4 = 1

-- `text_config.rope_parameters`: absent or no dictionary, or a dictionary with the value under
-- "rope_theta", which may be missing or None.
pub data RopeParameters (F : Type 0) : Type 0 where
  no_dict : RopeParameters F
  dict : Option F → RopeParameters F

pub record TextConfig (F : Type 0) : Type 0 where
  pub num_hidden_layers : ℕ
  pub text_hidden_size : ℕ
  pub num_attention_heads : ℕ
  pub num_key_value_heads : Option ℕ
  pub text_head_dim : Option ℕ
  pub text_vocab_size : ℕ
  pub max_positions : Option ℕ
  pub rope_parameters : RopeParameters F
  pub direct_rope_theta : Option F
  pub text_pad_token_id : Option ℤ
  pub text_intermediate_size : ℕ

pub record VisionConfig : Type 0 where
  pub vision_hidden_layers : ℕ
  pub vision_hidden_size : ℕ
  pub image_size : ℕ
  pub patch_size : ℕ

pub record Config (F : Type 0) : Type 0 where
  pub text_config : TextConfig F
  pub vision_config : VisionConfig
  pub config_scale_factor : Option ℕ
  pub config_image_token_id : ℕ

pub record ModelSpec (F : Type 0) : Type 0 where
  pub n_layers : ℕ
  pub hidden_size : ℕ
  pub n_q_heads : ℕ
  pub n_kv_heads : ℕ
  pub head_dim : ℕ
  pub vocab_size : ℕ
  pub max_position_embeddings : ℕ
  pub rope_theta : F
  pub vision_layers : ℕ
  pub vision_hidden : ℕ
  pub vision_image_size : ℕ
  pub vision_patch_size : ℕ
  pub scale_factor : ℕ
  pub image_token_id : ℕ
  pub pad_token_id : ℤ
  pub intermediate_size : ℕ

-- `a // b`
unfoldable pub floor_div : ℕ → ℕ → Result ℕ
floor_div a b = if b == 0 then err zero_division else ok (a / b)

-- `getattr(config, name, default)`
abbrev pub or_default : Option ℕ → ℕ → ℕ
or_default none n = n
or_default (some m) n = m

-- `getattr(config, name, None) or fallback`: 0 counts as missing.
abbrev pub or_nonzero : Option ℕ → Result ℕ → Result ℕ
or_nonzero none r = r
or_nonzero (some m) r = if m == 0 then r else ok m

module _ {F : Type 0} where
  abbrev pub direct_theta : Option F → Result F
  direct_theta none = err value_error
  direct_theta (some theta) = ok theta

  unfoldable pub read_rope_theta : TextConfig F → Result F
  read_rope_theta txt = elim txt.rope_parameters [
    | no_dict ↦ direct_theta txt.direct_rope_theta
    | dict p ↦ elim p [ none ↦ direct_theta txt.direct_rope_theta | some theta ↦ ok theta ]
  ]

  -- `__post_init__`
  unfoldable pub post_init : ModelSpec F → Result (ModelSpec F)
  post_init s =
      if not (ltb_ℤ s.pad_token_id (pos 0)) && ltb_ℤ s.pad_token_id (pos s.vocab_size)
      then ok s
      else err value_error

  abbrev pub uses_gqa : ModelSpec F → Bool
  uses_gqa s = ltb s.n_kv_heads s.n_q_heads

  unfoldable pub n_rep : ModelSpec F → Result ℕ
  n_rep s =
      if s.n_kv_heads == 0
      then err zero_division
      else (if not (s.n_q_heads % s.n_kv_heads == 0)
          then err value_error
          else ok (s.n_q_heads / s.n_kv_heads))

  unfoldable pub kv_bytes_per_token : Dtype → ModelSpec F → ℕ
  kv_bytes_per_token dtype s = 2 * s.n_layers * s.n_kv_heads * s.head_dim * dtype_bytes dtype

  unfoldable pub kv_bytes : ℕ → ℕ → Dtype → ModelSpec F → ℕ
  unfolding kv_bytes_per_token
  kv_bytes seq_len batch dtype s = kv_bytes_per_token dtype s * seq_len * batch

  unfoldable pub patches_per_side : ModelSpec F → Result ℕ
  patches_per_side s = floor_div s.vision_image_size s.vision_patch_size

  unfoldable pub visual_tokens_per_subimage : ModelSpec F → Result ℕ
  unfolding patches_per_side floor_div
  visual_tokens_per_subimage s = elim (patches_per_side s) [
    | err e ↦ err e
    | ok side ↦ floor_div (side * side) (s.scale_factor * s.scale_factor)
  ]

  unfoldable pub visual_tokens_for : ℕ → Bool → ModelSpec F → Result ℕ
  unfolding visual_tokens_per_subimage
  visual_tokens_for n_subimages include_global s = elim (visual_tokens_per_subimage s) [
    | err e ↦ err e
    | ok tokens ↦ ok (tokens * (n_subimages + (if include_global then 1 else 0)))
  ]

  -- `from_hf_config`, in the order in which its expressions can raise.
  unfoldable pub from_hf_config : Config F → Result (ModelSpec F)
  unfolding read_rope_theta post_init floor_div
  from_hf_config config =
      let txt = config.text_config in
      let vis = config.vision_config in
      let n_q = txt.num_attention_heads in
      elim (or_nonzero txt.text_head_dim (floor_div txt.text_hidden_size n_q)) [
        | err e ↦ err e
        | ok dim ↦ elim (or_nonzero txt.num_key_value_heads (ok n_q)) [
          | err e ↦ err e
          | ok n_kv ↦ elim (read_rope_theta txt) [
            | err e ↦ err e
            | ok theta ↦ post_init (record {
              n_layers = txt.num_hidden_layers;
              hidden_size = txt.text_hidden_size;
              n_q_heads = n_q;
              n_kv_heads = n_kv;
              head_dim = dim;
              vocab_size = txt.text_vocab_size;
              max_position_embeddings = or_default txt.max_positions 8192;
              rope_theta = theta;
              vision_layers = vis.vision_hidden_layers;
              vision_hidden = vis.vision_hidden_size;
              vision_image_size = vis.image_size;
              vision_patch_size = vis.patch_size;
              scale_factor = or_default config.config_scale_factor 1;
              image_token_id = config.config_image_token_id;
              pad_token_id = elim txt.text_pad_token_id [ none ↦ pos 0 | some p ↦ p ];
              intermediate_size = txt.text_intermediate_size;
            })
          ]
        ]
      ]

unfoldable pub effective_weight_bytes : ℕ → Dtype → ℕ
effective_weight_bytes n_params int4 = (n_params + 1) / 2
effective_weight_bytes n_params dtype = n_params * dtype_bytes dtype
