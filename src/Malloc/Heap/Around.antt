-- ===== src/Malloc/Heap/Around.antt =====
-- A block between its two neighbours, and what `coalesce` reads of them.
use itu_operating_systems_an.Base.{ℕ, ◌+◌, ◌-◌, ◌%◌, ◌^◌, ◌≤◌, ◌<◌, ◌≡◌, true, arith}
use itu_operating_systems_an.Memlib.{Vm}
use itu_operating_systems_an.Malloc.Machine.{Machine, done}
use itu_operating_systems_an.Malloc.Block.{
  size_of, flag_of, get_size, is_allocated, is_free, get_header_ptr, get_footer_ptr,
  get_next_block_ptr, get_prev_block_ptr,
}
use itu_operating_systems_an.Malloc.Block.Size.{size_of_lem, flag_of_lem}

-- Where the block at `p` stands: `psize` bytes before it and `nsize` behind it belong to its
-- neighbours, the flags of which are `pa` and `na`.
pub record Spot (v : Vm) (psize pa p size nsize na : ℕ) : Type 0 where
  pub aligned : p % 8 ≡ 0
  pub whole_prev : psize % 8 ≡ 0
  pub whole : size % 8 ≡ 0
  pub whole_next : nsize % 8 ≡ 0
  pub least_prev : 8 ≤ psize
  pub least : 16 ≤ size
  pub flag_prev : pa < 2
  pub flag_next : na < 2
  pub free_prev : (pa ≡ 0) → 16 ≤ psize
  pub free_next : (na ≡ 0) → 16 ≤ nsize
  pub above : v.mem_start_brk + 8 + psize ≤ p
  pub below : p + size + nsize ≤ v.mem_max_addr
  pub limit : v.mem_max_addr < 2 ^ 32

-- The headers and footers next to the block that `coalesce` reads. Two more are apart, since they
-- change first: the header of the previous block and the footer of the block itself.
pub record Tags (w : ℕ → ℕ) (psize pa p size nsize na : ℕ) : Type 0 where
  pub prev_footer : w (p - 8) ≡ psize + pa
  pub header : w (p - 4) ≡ size
  pub next_header : w (p + size - 4) ≡ nsize + na
  pub next_footer : (na ≡ 0) → w (p + size + nsize - 8) ≡ nsize

pub record Ends (w : ℕ → ℕ) (psize pa p size : ℕ) : Type 0 where
  pub prev_header : w (p - psize - 4) ≡ psize + pa
  pub footer : w (p + size - 8) ≡ size

pub tag_size : (n a : ℕ) → n % 8 ≡ 0 → a < 2 → n + a < 2 ^ 32 → size_of (n + a) ≡ n
tag_size n a h k l = omega (arith, size_of_lem (n + a) l)

pub tag_flag : (n a : ℕ) → n % 8 ≡ 0 → a < 2 → flag_of (n + a) ≡ a
tag_flag n a h k = omega (arith, flag_of_lem (n + a))

module _ (s : Machine) (psize pa p size nsize na : ℕ) (sp : Spot s.vm psize pa p size nsize na)
    (t : Tags s.word psize pa p size nsize na) where
  pub next-run : get_next_block_ptr p s ≡ done (p + size) s
  unfolding get_next_block_ptr get_header_ptr get_size
  next-run = ground (arith, tag_size size 0 sp.whole (omega arith) (ground arith))

  pub prev-run : get_prev_block_ptr p s ≡ done (p - psize) s
  unfolding get_prev_block_ptr get_size
  prev-run = ground (arith, tag_size psize pa sp.whole_prev sp.flag_prev (ground arith))

  pub size-run : get_size (get_header_ptr p) s ≡ done size s
  unfolding get_size get_header_ptr
  size-run = ground (arith, tag_size size 0 sp.whole (omega arith) (ground arith))

  pub free-run : is_free (get_header_ptr p) s ≡ done true s
  unfolding is_free is_allocated get_header_ptr
  free-run = ground (arith, tag_flag size 0 sp.whole (omega arith))

  pub prev_footer-run : Ends s.word psize pa p size → get_footer_ptr (p - psize) s ≡ done (p - 8) s
  unfolding get_footer_ptr get_header_ptr get_size
  prev_footer-run e = ground (arith, tag_size psize pa sp.whole_prev sp.flag_prev (ground arith))

  pub prev_flag-run : is_allocated (p - 8) s ≡ done pa s
  unfolding is_allocated
  prev_flag-run = ground (arith, tag_flag psize pa sp.whole_prev sp.flag_prev)

  pub prev_size-run :
      Ends s.word psize pa p size → get_size (get_header_ptr (p - psize)) s ≡ done psize s
  unfolding get_size get_header_ptr
  prev_size-run e = ground (arith, tag_size psize pa sp.whole_prev sp.flag_prev (ground arith))

  pub next_flag-run : is_allocated (get_header_ptr (p + size)) s ≡ done na s
  unfolding is_allocated get_header_ptr
  next_flag-run = ground (arith, tag_flag nsize na sp.whole_next sp.flag_next)

  pub next_size-run : get_size (get_header_ptr (p + size)) s ≡ done nsize s
  unfolding get_size get_header_ptr
  next_size-run = ground (arith, tag_size nsize na sp.whole_next sp.flag_next (ground arith))

  pub next_footer-run : get_footer_ptr (p + size) s ≡ done (p + size + nsize - 8) s
  unfolding get_footer_ptr get_header_ptr get_size
  next_footer-run = ground (arith, tag_size nsize na sp.whole_next sp.flag_next (ground arith))

  pub next_footer_size-run : na ≡ 0 → get_size (p + size + nsize - 8) s ≡ done nsize s
  unfolding get_size
  next_footer_size-run h = ground (
    arith,
    t.next_footer h,
    sp.free_next h,
    tag_size nsize 0 sp.whole_next (omega arith) (ground arith),
  )
