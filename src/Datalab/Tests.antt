-- ===== src/Datalab/Tests.antt =====
-- The examples in the comments of bits.c, and the theorems at some of them.
use itu_operating_systems_an.Base.{◌^◌, ◌-◌, ◌≤◌, ◌≡◌, refl, arith, int_of, leb, signed32, leb_ℤ}
use itu_operating_systems_an.Datalab.{
  bit_xor_of, tmin, all_odd_bits, negate, conditional, is_less_or_equal, logical_neg, abs_bits,
  round_bits, shift_out, how_many_bits,
}
use itu_operating_systems_an.Datalab.Odd.{odd_bits_set, all_odd_bits_lem}
use itu_operating_systems_an.Datalab.Order.{is_less_or_equal-leb_ℤ}
use itu_operating_systems_an.Datalab.Width.{fits, how_many_bits-least}

comment_examples :
    (bit_xor_of 4 5 ≡ 1)
    × (all_odd_bits 0xfffffffd ≡ 0)
    × (all_odd_bits 0xaaaaaaaa ≡ 1)
    × (negate 1 ≡ 2 ^ 32 - 1)
    × (conditional 2 4 5 ≡ 4)
    × (is_less_or_equal 4 5 ≡ 1)
    × (logical_neg 3 ≡ 0)
    × (logical_neg 0 ≡ 1)
    × (tmin ≡ 0x80000000)
unfolding bit_xor_of all_odd_bits negate conditional is_less_or_equal logical_neg tmin
comment_examples = (refl, refl, refl, refl, refl, refl, refl, refl, refl)

how_many_bits_examples :
    (how_many_bits 12 ≡ 5)
    × (how_many_bits 298 ≡ 10)
    × (how_many_bits (2 ^ 32 - 5) ≡ 4)
    × (how_many_bits 0 ≡ 1)
    × (how_many_bits (2 ^ 32 - 1) ≡ 1)
    × (how_many_bits 0x80000000 ≡ 32)
unfolding how_many_bits abs_bits round_bits shift_out
how_many_bits_examples = (refl, refl, refl, refl, refl, refl)

all_odd_bits_lem_example : all_odd_bits 0xaaaaaaaa ≡ int_of (odd_bits_set 16 0xaaaaaaaa)
all_odd_bits_lem_example = all_odd_bits_lem 0xaaaaaaaa (omega arith)

is_less_or_equal-leb_ℤ_example :
    is_less_or_equal 0x80000000 5 ≡ int_of (leb_ℤ (signed32 0x80000000) (signed32 5))
is_less_or_equal-leb_ℤ_example = is_less_or_equal-leb_ℤ 0x80000000 5 (omega arith) (omega arith)

how_many_bits-least_example :
    (fits 10 298 ≡ leb (how_many_bits 298) 10) × (1 ≤ how_many_bits 298) × (how_many_bits 298 ≤ 32)
how_many_bits-least_example = how_many_bits-least 298 10 (omega arith) (omega arith)
