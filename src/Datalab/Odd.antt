-- ===== src/Datalab/Odd.antt =====
-- `allOddBits`.
use itu_operating_systems_an.Base.{
  ℕ, zero, suc, ◌/◌, ◌%◌, ◌^◌, ◌≤◌, ◌<◌, ◌≡◌, arith, Bool, true, ◌&&◌, bit_and, bit_xor, sar32, ◌∙◌,
  ap, bit_and_digit, bit_and-le, bit_xor_eq, bit_xor_self, lnot, int_of, ◌==◌, bit_and_zero_left,
}
use itu_operating_systems_an.Datalab.{all_odd_bits}

-- The odd-numbered bits of the lowest `2 * n` are all 1.
unfoldable pub odd_bits_set : ℕ → ℕ → Bool
odd_bits_set zero x = true
odd_bits_set (suc n) x = (x / 2 % 2 == 1) && odd_bits_set n (x / 4)

-- One byte passes the test of `allOddBits` when its four odd bits are 1.
byte_pattern : (a : ℕ) → (bit_and 170 a == 170) ≡ odd_bits_set 4 a
unfolding odd_bits_set
byte_pattern a = ground (
  arith,
  bit_and_digit 170 a,
  bit_and_digit 85 (a / 2),
  bit_and_digit 42 (a / 2 / 2),
  bit_and_digit 21 (a / 2 / 2 / 2),
  bit_and_digit 10 (a / 2 / 2 / 2 / 2),
  bit_and_digit 5 (a / 2 / 2 / 2 / 2 / 2),
  bit_and_digit 2 (a / 2 / 2 / 2 / 2 / 2 / 2),
  bit_and_digit 1 (a / 2 / 2 / 2 / 2 / 2 / 2 / 2),
  bit_and_zero_left (a / 2 / 2 / 2 / 2 / 2 / 2 / 2 / 2),
)

-- One more `&` keeps the pattern when it was there and the new word has it.
and_pattern : (p m b : ℕ) → m ≤ p → (bit_and m b == p) ≡ ((m == p) && (bit_and p b == p))
and_pattern p m b h = ground (arith, bit_and-le m b)

xor_test : (a b : ℕ) → lnot (bit_xor a b) ≡ int_of (a == b)
xor_test a b = ground (arith, bit_xor_eq a b, bit_xor_self a)

odd_byte :
    (n x : ℕ)
    → odd_bits_set (suc (suc (suc (suc n)))) x ≡ (odd_bits_set 4 x && odd_bits_set n (x / 256))
unfolding odd_bits_set
odd_byte n x = let e : x / 4 / 4 / 4 / 4 ≡ x / 256 = omega arith in rw e (ground arith)

-- the sign bits that `>>` shifts in stay out of the lowest byte
odd_mod : (x y : ℕ) → x % 256 ≡ y % 256 → odd_bits_set 4 x ≡ odd_bits_set 4 y
unfolding odd_bits_set
odd_mod x y e = ground arith

odd_bytes :
    (x : ℕ)
    → odd_bits_set 16 x ≡ (
        odd_bits_set 4 x
        && (odd_bits_set 4 (x / 256)
            && (odd_bits_set 4 (x / 256 / 256) && odd_bits_set 4 (x / 256 / 256 / 256))))
odd_bytes x =
    odd_byte 12 x
    ∙ ap (λ t. odd_bits_set 4 x && t)
        (odd_byte 8 (x / 256)
          ∙ ap (λ t. odd_bits_set 4 (x / 256) && t) (odd_byte 4 (x / 256 / 256)))

-- `allOddBits` is 1 when bits 1, 3, …, 31 are all 1, and 0 otherwise.
pub all_odd_bits_lem : (x : ℕ) → x < 2 ^ 32 → all_odd_bits x ≡ int_of (odd_bits_set 16 x)
unfolding all_odd_bits
all_odd_bits_lem x h =
    let a = sar32 x 24 in
    let b = sar32 x 16 in
    let c = sar32 x 8 in
    let m1 = bit_and 170 a in
    let m2 = bit_and m1 b in
    let m3 = bit_and m2 c in
    let l1 = bit_and-le 170 a in
    let l2 : m2 ≤ 170 = omega (arith, bit_and-le m1 b) in
    let l3 : m3 ≤ 170 = omega (arith, bit_and-le m2 c) in
    xor_test (bit_and m3 x) 170
    ∙ ap int_of (
        ground (
          arith,
          and_pattern 170 m3 x l3,
          and_pattern 170 m2 c l2,
          and_pattern 170 m1 b l1,
          byte_pattern a,
          byte_pattern b,
          byte_pattern c,
          byte_pattern x,
          odd_mod a (x / 256 / 256 / 256) (ground arith),
          odd_mod b (x / 256 / 256) (ground arith),
          odd_mod c (x / 256) (ground arith),
          odd_bytes x,
        ))
