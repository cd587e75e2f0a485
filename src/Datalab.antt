-- ===== src/Datalab.antt =====
-- 22-Lab1-datalab-bits.c: puzzles on 32-bit words. An `int` is its bit pattern, below 2 ^ 32; `+`
-- wraps and `>>` shifts the sign bit in, as on the machine of the lab.
pub mod Xor
pub mod Sign
pub mod Odd
pub mod Order
pub mod Width
pub mod Tests
use itu_operating_systems_an.Base.{ℕ, bit_and, bit_or, bit_xor, lnot, add32, not32, shl32, sar32}

unfoldable pub bit_xor_of : ℕ → ℕ → ℕ
bit_xor_of x y =
    let both_mask = not32 (bit_and x y) in
    let neither_mask = not32 (bit_and (not32 x) (not32 y)) in bit_and both_mask neither_mask

unfoldable pub tmin : ℕ
tmin = shl32 1 31

unfoldable pub all_odd_bits : ℕ → ℕ
all_odd_bits x =
    let pattern : ℕ = 170 in
    let mask =
      bit_and (bit_and (bit_and (bit_and pattern (sar32 x 24)) (sar32 x 16)) (sar32 x 8)) x in
    lnot (bit_xor mask pattern)

unfoldable pub negate : ℕ → ℕ
negate x = add32 (not32 x) 1

unfoldable pub conditional : ℕ → ℕ → ℕ → ℕ
conditional x y z =
    let normalised = lnot x in
    let mask = add32 (not32 normalised) 1 in bit_or (bit_and (not32 mask) y) (bit_and mask z)

unfoldable pub is_less_or_equal : ℕ → ℕ → ℕ
is_less_or_equal x y =
    let diff = add32 y (add32 (not32 x) 1) in
    let diff_is_negative = bit_and 1 (sar32 diff 31) in
    let is_less_than = lnot diff_is_negative in
    let is_different_sign = bit_and 1 (bit_xor (sar32 x 31) (sar32 y 31)) in
    let is_neg_and_pos = bit_and is_different_sign (sar32 x 31) in
    let is_pos_and_neg = bit_and is_different_sign (sar32 y 31) in
    bit_and (bit_or is_neg_and_pos is_less_than) (lnot is_pos_and_neg)

unfoldable pub logical_neg : ℕ → ℕ
logical_neg x =
    let truthy = bit_or (sar32 x 31) (sar32 (add32 (not32 x) 1) 31) in bit_and (not32 truthy) 1

-- the absolute value that `howManyBits` takes: `~x` of a negative `x`
unfoldable pub abs_bits : ℕ → ℕ
abs_bits x =
    let abs_mask = add32 (not32 (bit_and 1 (sar32 x 31))) 1 in
    bit_or (bit_and (not32 abs_mask) x) (bit_and abs_mask (not32 x))

-- `!!(abs >> chunk) << shift`: the bits that one round of `howManyBits` counts
unfoldable pub round_bits : ℕ → ℕ → ℕ → ℕ
round_bits abs chunk shift = shl32 (lnot (lnot (sar32 abs chunk))) shift

-- `abs >> res`: what the next round looks at
unfoldable pub shift_out : ℕ → ℕ → ℕ
shift_out abs res = sar32 abs res

unfoldable pub how_many_bits : ℕ → ℕ
how_many_bits x =
    let abs = abs_bits x in
    let res1 = round_bits abs 16 4 in
    let abs1 = shift_out abs res1 in
    let res2 = round_bits abs1 8 3 in
    let abs2 = shift_out abs1 res2 in
    let res3 = round_bits abs2 4 2 in
    let abs3 = shift_out abs2 res3 in
    let res4 = round_bits abs3 2 1 in
    let abs4 = shift_out abs3 res4 in
    let res5 = round_bits abs4 1 0 in
    let abs5 = shift_out abs4 res5 in
    let unsigned_bits_required =
      add32 (add32 (add32 (add32 (add32 res1 res2) res3) res4) res5) abs5 in
    add32 unsigned_bits_required 1
