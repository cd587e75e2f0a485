-- ===== src/Malloc/Tests.antt =====
-- Runs of the allocator on a small storage, and the theorems at a free list of three blocks.
use itu_operating_systems_an.Base.{
  leb, if◌then◌else◌, ℕ, ◌+◌, ◌^◌, ◌%◌, ◌<◌, ◌≤◌, ◌≡◌, refl, ◌⊎◌, false, inr, Option, none, some,
  [], ◌∷◌, arith, if◌then◌else◌, ◌==◌,
}
use itu_operating_systems_an.Memlib.{Vm, mem_sbrk}
use itu_operating_systems_an.Memlib.Brk.{IsVm, Extended, mem_sbrk-Extended}
use itu_operating_systems_an.Malloc.Machine.{
  Machine, M, Run, write, done, undefined, out_of_fuel, pure, ◌>>=◌, ◌>>◌, sbrk, memcpy,
}
use itu_operating_systems_an.Malloc.Block.{
  calc_block_size, min_block_size, make_header, size_of, get_size, is_allocated, is_free,
  get_header_ptr, get_footer_ptr, get_next_block_ptr, get_prev_block_ptr, get_next_free_block_ptr,
  get_prev_free_block_ptr,
}
use itu_operating_systems_an.Malloc.Block.Size.{calc_block_size_bounds, calc_block_size_overflow}
use itu_operating_systems_an.Malloc.Links.{
  set_next_free_block_ptr, set_prev_free_block_ptr, add_to_free_list, unlink, remove_from_free_list,
  find_fit_from, find_fit,
}
use itu_operating_systems_an.Malloc.Links.Chain.{IsFreeList, is_link}
use itu_operating_systems_an.Malloc.Links.Add.{Relinked, add_to_free_list-Relinked}
use itu_operating_systems_an.Malloc.Links.Remove.{remove_from_free_list-Relinked}
use itu_operating_systems_an.Malloc.Links.Fit.{FirstFit, find_fit-FirstFit}
use itu_operating_systems_an.Malloc.Check.{mm_check}
use itu_operating_systems_an.Malloc.Check.Sound.{verdict, all_free, mm_check-verdict}
use itu_operating_systems_an.Malloc.Heap.Headers.{IsBlock}
use itu_operating_systems_an.Malloc.Heap.Clear.{Clear}
use itu_operating_systems_an.Malloc.Heap.Split.{IsSplit, place-IsSplit}
use itu_operating_systems_an.Malloc.Heap.{
  set_header, set_footer, merge, detach, coalesce, extend_heap, place, mm_init, fit_or_extend,
  mm_malloc, mm_free, move_block, grow_or_move, mm_realloc,
}

abbrev small_vm : Vm
small_vm = record { mem_start_brk = 4096; mem_brk = 4096; mem_max_addr = 4096 + 2 ^ 16 }

abbrev fresh : Machine
fresh = record { vm = small_vm; word = λ p. 0; heap_ptr = 0; free_list = 0 }

abbrev result : {A : Type 0} → Run A → Option A
result (done a s) = some a
result undefined = none
result out_of_fuel = none

-- The first block lies behind 16 bytes of padding and prologue. The freed block is 104 bytes and
-- is not merged, and the moved block comes from the front of the free list.
session : M (ℕ × ℕ × ℕ × ℕ)
unfolding mm_init mm_malloc mm_free mm_realloc move_block grow_or_move fit_or_extend place
    extend_heap coalesce detach merge set_header set_footer find_fit find_fit_from
    remove_from_free_list unlink add_to_free_list set_next_free_block_ptr set_prev_free_block_ptr
    get_next_free_block_ptr get_prev_free_block_ptr get_prev_block_ptr get_next_block_ptr
    get_footer_ptr get_header_ptr is_free is_allocated get_size make_header calc_block_size sbrk
    memcpy mem_sbrk
session = do
  mm_init
  a ← mm_malloc 100
  b ← mm_malloc 24
  mm_free a
  c ← mm_malloc 5000
  b' ← mm_realloc b 40
  pure (a, b, c, b')

session_addresses : result (session fresh) ≡ some (4112, 4224, 4256, 9264)
unfolding session
session_addresses = refl

-- A storage with three free blocks, at 4112, 4160 and 4208, linked in this order.
abbrev three_words : ℕ → ℕ
three_words p =
    if p == 4112
    then 4160
    else if p == 4160
    then 4208
    else if p == 4164
    then 4112
    else if p == 4212
    then 4160
    else if p == 4108
    then 24
    else if p == 4156
    then 32
    else if p == 4204
    then 64
    else 0

abbrev three : Machine
three = record {
  vm = record small_vm { mem_brk = 8192 };
  word = three_words;
  heap_ptr = 4104;
  free_list = 4112;
}

three-IsFreeList : IsFreeList three (4112 ∷ 4160 ∷ 4208 ∷ [])
three-IsFreeList = record { nodes = ground arith; links = omega arith }

find_fit-FirstFit_example :
    (b : ℕ) × (find_fit 30 three ≡ done b three)
    × FirstFit three_words 30 (4112 ∷ 4160 ∷ 4208 ∷ []) b
find_fit-FirstFit_example = find_fit-FirstFit three 30 (4112 ∷ 4160 ∷ 4208 ∷ []) three-IsFreeList

add_to_free_list-Relinked_example :
    Relinked three
      (4256 ∷ 4112 ∷ 4160 ∷ 4208 ∷ [])
      (4256 ∷ 4112 ∷ 4160 ∷ 4208 ∷ [])
      (add_to_free_list 4256 three)
add_to_free_list-Relinked_example =
    add_to_free_list-Relinked three 4256 (4112 ∷ 4160 ∷ 4208 ∷ []) three-IsFreeList (omega arith)
      refl

remove_from_free_list-Relinked_example :
    Relinked three (4112 ∷ 4160 ∷ 4208 ∷ []) (4112 ∷ 4208 ∷ []) (remove_from_free_list 4160 three)
remove_from_free_list-Relinked_example =
    remove_from_free_list-Relinked three 4160 (4112 ∷ []) (4208 ∷ []) three-IsFreeList

three-IsVm : IsVm three.vm
three-IsVm = record { low = omega arith; high = omega arith; room = omega arith }

mm_check-verdict_example :
    mm_check three ≡ done (verdict (all_free three_words (4112 ∷ 4160 ∷ 4208 ∷ []))) three
mm_check-verdict_example =
    mm_check-verdict three (4112 ∷ 4160 ∷ 4208 ∷ []) three-IsFreeList three-IsVm (omega arith)

-- the same storage with a block of 64 bytes at 4256, which is not on the list
abbrev block : Machine
block = record three { word = write three_words 4252 64 }

block-IsFreeList : IsFreeList block (4112 ∷ 4160 ∷ 4208 ∷ [])
block-IsFreeList = record { nodes = ground arith; links = omega arith }

block-IsBlock : IsBlock block 4256 64
block-IsBlock = record {
  aligned = refl;
  above = omega arith;
  below = omega arith;
  limit = omega arith;
  whole = refl;
  least = omega arith;
}

block_size : size_of (block.word 4252) ≡ 64
unfolding size_of
block_size = refl

block-Clear : Clear 4256 64 (4112 ∷ 4160 ∷ 4208 ∷ [])
block-Clear a p q = ground arith

place-IsSplit_example :
    (t : Machine) × (place 4256 24 block ≡ done tt t)
    × IsFreeList t ((4256 + 24) ∷ 4112 ∷ 4160 ∷ 4208 ∷ [])
    × IsSplit t.word 4256 64 24
    × (t.vm ≡ block.vm)
    × ((a : ℕ)
        → (a + 4 < 4256) ⊎ (4256 + 64 ≤ a + 4)
        → is_link a (4112 ∷ 4160 ∷ 4208 ∷ []) ≡ false
        → t.word a ≡ block.word a)
    × ((a : ℕ) → 4256 ≤ a → a + 8 < 4256 + 24 → t.word a ≡ block.word a)
place-IsSplit_example =
    place-IsSplit block 4256 64 24 (4112 ∷ 4160 ∷ 4208 ∷ []) block-IsBlock block_size refl
      (omega arith) (omega arith) block-IsFreeList block-Clear

calc_block_size_bounds_example :
    (calc_block_size 100 % 8 ≡ 0)
    × (min_block_size ≤ calc_block_size 100)
    × (100 + 8 ≤ calc_block_size 100)
    × (calc_block_size 100 < 100 + 16)
calc_block_size_bounds_example = calc_block_size_bounds 100 (omega arith) (omega arith)

calc_block_size_overflow_example :
    (calc_block_size 0xffffffff ≡ (if leb (0xffffffff + 8) (2 ^ 32) then 0 else 8))
    × (calc_block_size 0xffffffff < min_block_size)
calc_block_size_overflow_example = calc_block_size_overflow 0xffffffff (omega arith) (omega arith)

small-IsVm : IsVm small_vm
small-IsVm = omega arith

mem_sbrk-Extended_example : Extended 64 small_vm (mem_sbrk 64 small_vm).0 (mem_sbrk 64 small_vm).1
mem_sbrk-Extended_example = mem_sbrk-Extended 64 small-IsVm (omega arith) (inr (omega arith))
