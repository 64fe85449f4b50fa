-- ===== src/Core/Quant.antt =====
-- edgerag/core/quant.py: the configuration of the quantisation, and how signed codes of four bits are
-- packed two per byte, for one row of the tensor. A byte is a number below 256. The quantisation
-- itself is floating-point code.
pub mod Packing
use edgerag.Prelude.{
  ℤ, Result, ℕ, List, ◌-ℤ◌, if◌then◌else◌, pos, suc, ◌*◌, ◌∷◌, not, ◌==◌, min, max, ◌%◌, length,
  ◌/◌, [], ◌||◌, err, ◌+◌, ok, value_error, zero_division, negsuc, zero, ltb_ℤ, ◌-◌,
}

pub record QuantConfig : Type 0 where
  pub group_size : ℤ
  pub bits : ℕ

-- `__post_init__`
unfoldable pub quant_config : QuantConfig → Result QuantConfig
quant_config c =
    if not (c.bits == 4 || c.bits == 8)
    then err value_error
    else (if ltb_ℤ (pos 0) c.group_size then ok c else err value_error)

abbrev pub qmax : QuantConfig → ℕ
qmax c = if c.bits == 4 then 7 else 127

-- The groups of a row of `in_features` weights, behind the test of `quantize_groupwise`.
unfoldable pub group_count : ℕ → ℕ → Result ℕ
group_count in_features group_size =
    if group_size == 0
    then err zero_division
    else (if in_features % group_size == 0 then ok (in_features / group_size) else err value_error)

-- `(code + 8).clamp(0, 15)`
unfoldable pub biased : ℤ → ℕ
biased (pos n) = min (n + 8) 15
biased (negsuc n) = 8 - (n + 1)

-- `a | b` of numbers of w bits.
unfoldable pub bit_or : ℕ → ℕ → ℕ → ℕ
bit_or zero a b = 0
bit_or (suc w) a b = max (a % 2) (b % 2) + 2 * bit_or w (a / 2) (b / 2)

-- `a & b` of numbers of w bits.
unfoldable pub bit_and : ℕ → ℕ → ℕ → ℕ
bit_and zero a b = 0
bit_and (suc w) a b = min (a % 2) (b % 2) + 2 * bit_and w (a / 2) (b / 2)

-- `low | (high << 4)` in a byte.
unfoldable pub pack_byte : ℕ → ℕ → ℕ
unfolding bit_or
pack_byte low high = bit_or 8 low (high * 16 % 256)

-- The codes in pairs, as `biased[..., 0::2]` and `biased[..., 1::2]` take them.
unfoldable pub pack_pairs : List ℤ → List ℕ
unfolding pack_byte biased
pack_pairs [] = []
pack_pairs (low ∷ []) = []
pack_pairs (low ∷ high ∷ rest) = pack_byte (biased low) (biased high) ∷ pack_pairs rest

unfoldable pub pack_int4 : List ℤ → Result (List ℕ)
unfolding pack_pairs
pack_int4 codes = if length codes % 2 == 0 then ok (pack_pairs codes) else err value_error

abbrev pub low_code : ℕ → ℤ
low_code byte = pos (bit_and 8 byte 15) -ℤ pos 8

abbrev pub high_code : ℕ → ℤ
high_code byte = pos (bit_and 8 (byte / 16) 15) -ℤ pos 8

-- `unpack_int4` of a row with two codes per byte.
unfoldable pub unpack_int4 : List ℕ → List ℤ
unfolding bit_and ◌-ℤ◌
unpack_int4 [] = []
unpack_int4 (byte ∷ rest) = low_code byte ∷ high_code byte ∷ unpack_int4 rest
