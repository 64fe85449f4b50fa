-- ===== src/Core/Quant/Packing.antt =====
-- edgerag/core/quant.py: unpacking what was packed.
use edgerag.Prelude.{
  ℕ, ◌<◌, suc, ◌≡◌, ◌*◌, arith, ◌%◌, ◌+◌, ◌/◌, zero, ℤ, List, refl, negsuc, pos, ◌-ℤ◌, length, ◌≤ℤ◌,
  ap, [], err, ◌∙◌, value_error, ◌⊎◌, ok, Bool-cases, ◌==◌, inl, inr,
}
use edgerag.Core.Quant.{
  bit_or, bit_and, pack_byte, biased, unpack_int4, pack_pairs, pack_int4, ◌∷◌, low_code, high_code,
}

bit_or_even : (w a b : ℕ) → bit_or (suc w) a (b * 2) ≡ a % 2 + 2 * bit_or w (a / 2) b
unfolding bit_or
bit_or_even w a b =
    let e : b * 2 % 2 ≡ 0 = omega arith in
    let f : b * 2 / 2 ≡ b = omega arith in rw e (rw f (ground arith))

bit_or_zero : (b : ℕ) → b < 16 → bit_or 4 0 b ≡ b
unfolding bit_or
bit_or_zero b h = omega arith

bit_and_odd : (w a k : ℕ) → bit_and (suc w) a (k * 2 + 1) ≡ a % 2 + 2 * bit_and w (a / 2) k
unfolding bit_and
bit_and_odd w a k =
    let e : (k * 2 + 1) % 2 ≡ 1 = omega arith in
    let f : (k * 2 + 1) / 2 ≡ k = omega arith in rw e (rw f (ground arith))

bit_and_zero : (w a : ℕ) → bit_and w a 0 ≡ 0
unfolding bit_and
bit_and_zero zero a = refl
bit_and_zero (suc w) a = ground (arith, bit_and_zero w (a / 2))

bit_and_low : (a : ℕ) → bit_and 8 a 15 ≡ a % 16
bit_and_low a = omega (
  arith,
  bit_and_odd 7 a 7,
  bit_and_odd 6 (a / 2) 3,
  bit_and_odd 5 (a / 2 / 2) 1,
  bit_and_odd 4 (a / 2 / 2 / 2) 0,
  bit_and_zero 4 (a / 2 / 2 / 2 / 2),
)

or_steps :
    (low high : ℕ) → low < 16 → high < 16 → bit_or 8 low (high * 2 * 2 * 2 * 2) ≡ low + 16 * high
or_steps low high a b =
    let e : low / 2 / 2 / 2 / 2 ≡ 0 = omega arith in
    let f : bit_or 4 (low / 2 / 2 / 2 / 2) high ≡ high = rw e (bit_or_zero high b) in
    omega (
      arith,
      bit_or_even 7 low (high * 2 * 2 * 2),
      bit_or_even 6 (low / 2) (high * 2 * 2),
      bit_or_even 5 (low / 2 / 2) (high * 2),
      bit_or_even 4 (low / 2 / 2 / 2) high,
      f,
    )

pack_byte_lem : (low high : ℕ) → low < 16 → high < 16 → pack_byte low high ≡ low + 16 * high
unfolding pack_byte
pack_byte_lem low high a b =
    let e : high * 16 % 256 ≡ high * 2 * 2 * 2 * 2 = omega arith in rw e (or_steps low high a b)

-- A code of four bits, in the signed range.
abbrev pub IsCode : ℤ → Type 0
IsCode c = (negsuc 7 ≤ℤ c) × (c ≤ℤ pos 7)

abbrev pub AllCodes : List ℤ → Type 0
AllCodes [] = Unit {0}
AllCodes (c ∷ cs) = IsCode c × AllCodes cs

biased_low : (c : ℤ) → biased c < 16
unfolding biased
biased_low (pos n) = omega arith
biased_low (negsuc n) = omega arith

biased-back : (c : ℤ) → IsCode c → pos (biased c) -ℤ pos 8 ≡ c
unfolding biased ◌-ℤ◌
biased-back (pos n) h = ground arith
biased-back (negsuc n) h = ground arith

packed_pair :
    (low high : ℤ)
    → IsCode low
    → IsCode high
    → (low_code (pack_byte (biased low) (biased high)) ≡ low)
      × (high_code (pack_byte (biased low) (biased high)) ≡ high)
packed_pair low high a b =
    let byte = pack_byte (biased low) (biased high) in
    let value = pack_byte_lem (biased low) (biased high) (biased_low low) (biased_low high) in
    let e : bit_and 8 byte 15 ≡ biased low =
      omega (arith, bit_and_low byte, value, biased_low low, biased_low high) in
    let f : bit_and 8 (byte / 16) 15 ≡ biased high =
      omega (arith, bit_and_low (byte / 16), value, biased_low low, biased_low high) in
    (
      ap (λ n. pos n -ℤ pos 8) e ∙ biased-back low a,
      ap (λ n. pos n -ℤ pos 8) f ∙ biased-back high b,
    )

unpack-pack_pairs :
    (codes : List ℤ)
    → AllCodes codes
    → length codes % 2 ≡ 0
    → unpack_int4 (pack_pairs codes) ≡ codes
unfolding unpack_int4 pack_pairs
unpack-pack_pairs [] all even = refl
unpack-pack_pairs (low ∷ []) all even = absurd (omega arith)
unpack-pack_pairs (low ∷ high ∷ rest) (a, (b, all)) even =
    let (e, f) = packed_pair low high a b in
    rw e (rw f (ap (λ r. low ∷ high ∷ r) (unpack-pack_pairs rest all (omega arith))))

length-pack_pairs :
    (codes : List ℤ) → length codes % 2 ≡ 0 → length (pack_pairs codes) * 2 ≡ length codes
unfolding pack_pairs
length-pack_pairs [] even = refl
length-pack_pairs (low ∷ []) even = absurd (omega arith)
length-pack_pairs (low ∷ high ∷ rest) even = omega (arith, length-pack_pairs rest (omega arith))

-- Packing a row of codes from -8 to 7, of an even length, returns half as many bytes, from which
-- unpacking restores the codes. A row of an odd length is refused with a ValueError.
pub unpack-pack_int4 :
    (codes : List ℤ)
    → AllCodes codes
    → (length codes % 2 ≡ 1) × (pack_int4 codes ≡ err value_error)
      ⊎ ((bytes : List ℕ) × (pack_int4 codes ≡ ok bytes)
          × (length bytes * 2 ≡ length codes)
          × (unpack_int4 bytes ≡ codes))
unfolding pack_int4
unpack-pack_int4 codes all = elim (Bool-cases (length codes % 2 == 0)) [
  | inl even ↦ inr (
    pack_pairs codes,
    rw even refl,
    length-pack_pairs codes (ground arith),
    unpack-pack_pairs codes all (ground arith),
  )
  | inr odd ↦ inl (ground arith, rw odd refl)
]
