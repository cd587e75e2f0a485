-- ===== src/Malloc/Block.antt =====
-- The macros of mm.c: alignment, headers, and the blocks beside a block.
pub mod Size
use itu_operating_systems_an.Base.{
  ℕ, ◌-◌, ◌^◌, ◌≡◌, bit_and, bit_or, Bool, not, leb, ltb, ◌==◌, if◌then◌else◌, add32, sub32,
}
use itu_operating_systems_an.Malloc.Machine.{M, pure, ◌>>=◌, get_val}

abbrev pub wsize : ℕ
wsize = 4

abbrev pub dsize : ℕ
dsize = 8

abbrev pub chunksize : ℕ
chunksize = 2 ^ 12

-- `~0x7`
abbrev pub size_mask : ℕ
size_mask = 0xfffffff8

unfoldable pub align : ℕ → ℕ
align size = bit_and (add32 size 7) size_mask

unfoldable pub calc_block_size : ℕ → ℕ
unfolding align
calc_block_size data_size = add32 8 (align data_size)

abbrev pub min_block_size : ℕ
min_block_size = 16

unfoldable pub make_header : ℕ → ℕ → ℕ
make_header block_size is_allocated = bit_or block_size is_allocated

-- the two fields of a header or footer word
unfoldable pub size_of : ℕ → ℕ
size_of header = bit_and header size_mask

unfoldable pub flag_of : ℕ → ℕ
flag_of header = bit_and header 1

unfoldable pub get_size : ℕ → M ℕ
unfolding get_val size_of
get_size p = do v ← get_val p; pure (size_of v)

unfoldable pub is_allocated : ℕ → M ℕ
unfolding get_val flag_of
is_allocated p = do v ← get_val p; pure (flag_of v)

unfoldable pub is_free : ℕ → M Bool
unfolding is_allocated
is_free p = do a ← is_allocated p; pure (a == 0)

unfoldable pub get_header_ptr : ℕ → ℕ
get_header_ptr bp = sub32 bp wsize

unfoldable pub get_footer_ptr : ℕ → M ℕ
unfolding get_size get_header_ptr
get_footer_ptr bp = do size ← get_size (get_header_ptr bp); pure (sub32 (add32 bp size) dsize)

unfoldable pub get_next_block_ptr : ℕ → M ℕ
unfolding get_size get_header_ptr
get_next_block_ptr bp = do size ← get_size (get_header_ptr bp); pure (add32 bp size)

unfoldable pub get_prev_block_ptr : ℕ → M ℕ
unfolding get_size
get_prev_block_ptr bp = do size ← get_size (sub32 bp dsize); pure (sub32 bp size)

unfoldable pub get_next_free_block_ptr : ℕ → M ℕ
unfolding get_val
get_next_free_block_ptr bp = get_val bp

unfoldable pub get_prev_free_block_ptr : ℕ → M ℕ
unfolding get_val
get_prev_free_block_ptr bp = get_val (add32 bp wsize)
