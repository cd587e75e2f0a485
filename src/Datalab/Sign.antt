-- ===== src/Datalab/Sign.antt =====
-- `tmin`, `negate`, `logicalNeg`, `conditional` and `allOddBits`.
use itu_operating_systems_an.Base.{
  ℕ, zero, suc, ◌^◌, ◌<◌, ◌≡◌, refl, arith, not32, add32, sign_cases, ones-bit_and, bit_or_zero,
  bit_or_zero_left, bit_and_zero_left, lnot, ◌==◌, if◌then◌else◌, ℤ, neg, signed32,
}
use itu_operating_systems_an.Datalab.{tmin, negate, logical_neg, conditional}

-- The negation of an integer in two's complement; the least one has none and stays.
abbrev pub negation : ℕ → ℤ
negation x = if x == tmin then signed32 x else neg (signed32 x)

-- `negate x` stands for minus the integer of `x`, but for the least one, which it leaves alone.
pub negate-signed32 : (x : ℕ) → x < 2 ^ 32 → signed32 (negate x) ≡ negation x
unfolding negate tmin
negate-signed32 zero h = refl
negate-signed32 (suc x) h = ground arith

-- `logicalNeg` is `!` on every word.
pub logical_neg-lnot : (x : ℕ) → x < 2 ^ 32 → logical_neg x ≡ lnot x
unfolding logical_neg
logical_neg-lnot zero h = refl
logical_neg-lnot (suc x) h =
    let minus = add32 (not32 (suc x)) 1 in
    ground (arith, sign_cases (suc x) h, sign_cases minus (omega arith))

-- `conditional` is `x ? y : z` on every word.
pub conditional_lem :
    (x y z : ℕ) → y < 2 ^ 32 → z < 2 ^ 32 → conditional x y z ≡ (if x == 0 then z else y)
unfolding conditional
conditional_lem x y z hy hz = ground (
  arith,
  bit_and_zero_left y,
  bit_and_zero_left z,
  ones-bit_and y hy,
  ones-bit_and z hz,
  bit_or_zero y,
  bit_or_zero_left z,
)
