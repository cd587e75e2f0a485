-- ===== src/Malloc/Heap/Headers.antt =====
-- What the header and the footer operations of mm.c read and write.
use itu_operating_systems_an.Base.{ℕ, ◌+◌, ◌-◌, ◌%◌, ◌^◌, ◌≤◌, ◌<◌, ◌≡◌, arith}
use itu_operating_systems_an.Malloc.Machine.{Machine, write, done}
use itu_operating_systems_an.Malloc.Block.{
  size_of, get_size, get_header_ptr, get_footer_ptr, get_next_block_ptr,
}
use itu_operating_systems_an.Malloc.Block.Size.{make_header_lem}
use itu_operating_systems_an.Malloc.Heap.{set_header, set_footer}

-- A block that lies in the storage: its header, and `size` bytes from the header on.
pub record IsBlock (s : Machine) (bp size : ℕ) : Type 0 where
  pub aligned : bp % 8 ≡ 0
  pub above : s.vm.mem_start_brk + 8 ≤ bp
  pub below : bp + size ≤ s.vm.mem_max_addr
  pub limit : s.vm.mem_max_addr < 2 ^ 32
  pub whole : size % 8 ≡ 0
  pub least : 16 ≤ size

module _ (s : Machine) (bp size : ℕ) (b : IsBlock s bp size) where
  pub get_size-block : get_size (get_header_ptr bp) s ≡ done (size_of (s.word (bp - 4))) s
  unfolding get_size get_header_ptr
  get_size-block = ground arith

  pub set_header-run :
      (n a : ℕ)
      → n % 8 ≡ 0
      → a < 2
      → set_header bp n a s ≡ done tt (record s { word = write s.word (bp - 4) (n + a) })
  unfolding set_header get_header_ptr
  set_header-run n a h k = ground (arith, make_header_lem n a h k)

  pub get_next_block-run :
      size_of (s.word (bp - 4)) ≡ size → get_next_block_ptr bp s ≡ done (bp + size) s
  unfolding get_next_block_ptr get_header_ptr get_size
  get_next_block-run h = ground arith

  pub set_footer-run :
      (n a : ℕ)
      → n % 8 ≡ 0
      → a < 2
      → size_of (s.word (bp - 4)) ≡ size
      → set_footer bp n a s ≡ done tt (record s { word = write s.word (bp + size - 8) (n + a) })
  unfolding set_footer get_footer_ptr get_header_ptr get_size
  set_footer-run n a h k e = ground (arith, make_header_lem n a h k)
