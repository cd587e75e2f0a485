-- ===== src/Malloc/Block/Size.antt =====
-- Block sizes and headers as arithmetic.
use itu_operating_systems_an.Base.{
  ℕ, ◌+◌, ◌*◌, ◌/◌, ◌%◌, ◌^◌, ◌≤◌, ◌<◌, ◌≡◌, arith, bit_and_align, bit_and_one, bit_or_flag, leb,
  if◌then◌else◌,
}
use itu_operating_systems_an.Malloc.Block.{
  align, calc_block_size, min_block_size, make_header, size_of, flag_of,
}

pub align_lem : (n : ℕ) → n + 7 < 2 ^ 32 → align n ≡ (n + 7) / 8 * 8
unfolding align
align_lem n h = omega (arith, bit_and_align ((n + 7) % 2 ^ 32) (omega arith))

pub make_header_lem : (size a : ℕ) → size % 8 ≡ 0 → a < 2 → make_header size a ≡ size + a
unfolding make_header
make_header_lem size a h k = bit_or_flag size a (omega arith) k

pub size_of_lem : (v : ℕ) → v < 2 ^ 32 → size_of v ≡ v / 8 * 8
unfolding size_of
size_of_lem v h = bit_and_align v h

pub flag_of_lem : (v : ℕ) → flag_of v ≡ v % 2
unfolding flag_of
flag_of_lem v = bit_and_one v

-- A header made of a size below 2 ^ 32 that is a multiple of 8 and a flag of 0 or 1 gives both of
-- them back.
pub header_fields :
    (size a : ℕ)
    → size % 8 ≡ 0
    → size < 2 ^ 32
    → a < 2
    → (size_of (make_header size a) ≡ size) × (flag_of (make_header size a) ≡ a)
header_fields size a h l k =
    rw (make_header_lem size a h k)
      (omega (arith, size_of_lem (size + a) (omega arith)), omega (arith, flag_of_lem (size + a)))

-- For a positive request with `n + 15` below 2 ^ 32, the block size is a multiple of 8, at least the minimum,
-- and holds the request and 8 bytes of header and footer, with less than 8 bytes to spare.
pub calc_block_size_bounds :
    (n : ℕ)
    → 0 < n
    → n + 15 < 2 ^ 32
    → (calc_block_size n % 8 ≡ 0)
      × (min_block_size ≤ calc_block_size n)
      × (n + 8 ≤ calc_block_size n)
      × (calc_block_size n < n + 16)
unfolding calc_block_size
calc_block_size_bounds n p h = omega (arith, align_lem n (omega arith))

-- The largest 15 requests of 32 bits wrap round: the block size is 0 for the first 8 of them and 8
-- for the others, less than the smallest block.
pub calc_block_size_overflow :
    (n : ℕ)
    → 2 ^ 32 ≤ n + 15
    → n < 2 ^ 32
    → (calc_block_size n ≡ (if leb (n + 8) (2 ^ 32) then 0 else 8))
      × (calc_block_size n < min_block_size)
unfolding calc_block_size align
calc_block_size_overflow n h l =
    let low = bit_and_align ((n + 7) % 2 ^ 32) (omega arith) in
    (ground (arith, low), omega (arith, low))
