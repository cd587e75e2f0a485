-- ===== src/Malloc/Links.antt =====
-- The free list of mm.c: its two link words in each free block, and the operations on it.
pub mod Chain
pub mod Add
pub mod Remove
pub mod Fit
pub mod Delete
use itu_operating_systems_an.Base.{ℕ, zero, suc, ◌+◌, ◌-◌, leb, ◌==◌, if◌then◌else◌, add32}
use itu_operating_systems_an.Malloc.Machine.{
  Machine, M, out_of_fuel, pure, ◌>>=◌, ◌>>◌, null, set_val, get_free_list, set_free_list,
}
use itu_operating_systems_an.Malloc.Block.{
  wsize, get_header_ptr, get_size, get_next_free_block_ptr, get_prev_free_block_ptr,
}

unfoldable pub set_next_free_block_ptr : ℕ → ℕ → M (Unit {0})
unfolding set_val
set_next_free_block_ptr block_ptr next =
    if block_ptr == null then pure tt else set_val block_ptr next

unfoldable pub set_prev_free_block_ptr : ℕ → ℕ → M (Unit {0})
unfolding set_val
set_prev_free_block_ptr block_ptr next =
    if block_ptr == null then pure tt else set_val (add32 block_ptr wsize) next

unfoldable pub add_to_free_list : ℕ → M (Unit {0})
add_to_free_list block_ptr = do
  first ← get_free_list
  set_next_free_block_ptr block_ptr first
  set_prev_free_block_ptr first block_ptr
  set_prev_free_block_ptr block_ptr null
  set_free_list block_ptr

unfoldable pub unlink : ℕ → ℕ → M (Unit {0})
unlink prev next =
    if prev == null
    then (do set_prev_free_block_ptr next null; set_free_list next)
    else (do set_next_free_block_ptr prev next; set_prev_free_block_ptr next prev)

unfoldable pub remove_from_free_list : ℕ → M (Unit {0})
remove_from_free_list block_ptr = do
  prev ← get_prev_free_block_ptr block_ptr
  next ← get_next_free_block_ptr block_ptr
  unlink prev next

-- The loop of `find_fit`. A branch that is not taken is not run: the recursion is bound first.
unfoldable pub find_fit_from : ℕ → ℕ → ℕ → M ℕ
find_fit_from zero block_ptr size = λ s. out_of_fuel
find_fit_from (suc fuel) block_ptr size =
    let further = (do next ← get_next_free_block_ptr block_ptr; find_fit_from fuel next size) in
    if block_ptr == null then pure null else do
      block_size ← get_size (get_header_ptr block_ptr)
      if leb size block_size then pure block_ptr else further

-- Fuel: a word of the storage for each block of the list, and one round more for its end.
abbrev pub list_fuel : Machine → ℕ
list_fuel s = s.vm.mem_max_addr - s.vm.mem_start_brk + 1

unfoldable pub find_fit : ℕ → M ℕ
find_fit size = λ s. find_fit_from (list_fuel s) s.free_list size s
