-- ===== src/Malloc/Tiling/Spent.antt =====
-- `mm_malloc` when no block fits and the storage is spent.
use itu_operating_systems_an.Base.{
  ℕ, ◌+◌, ◌*◌, ◌/◌, ◌^◌, ◌%◌, ◌≤◌, ◌<◌, ◌≡◌, refl, ◌⊎◌, true, false, List, arith, ◌==◌, inl, inr,
  if◌then◌else◌, subst,
}
use itu_operating_systems_an.Memlib.{minus_one, mem_sbrk}
use itu_operating_systems_an.Malloc.Machine.{Machine, done, undefined, null, sbrk}
use itu_operating_systems_an.Malloc.Block.{calc_block_size, get_prev_free_block_ptr}
use itu_operating_systems_an.Malloc.Block.Size.{calc_block_size_bounds}
use itu_operating_systems_an.Malloc.Links.{find_fit, remove_from_free_list}
use itu_operating_systems_an.Malloc.Links.Chain.{mem}
use itu_operating_systems_an.Malloc.Links.Fit.{size_at, find_fit-FirstFit}
use itu_operating_systems_an.Malloc.Heap.{extend_heap, fit_or_extend, mm_malloc}
use itu_operating_systems_an.Malloc.Tiling.{Block, IsHeap}
use itu_operating_systems_an.Malloc.Tiling.Search.{
  extension, extension_words, extend_instead, FirstFit-found,
}

extend_null_calls :
    (s : Machine) (words size : ℕ)
    → (if words % 2 == 0 then words * 4 % 2 ^ 32 else (words + 1) % 2 ^ 32 * 4 % 2 ^ 32) ≡ size
    → sbrk size s ≡ done minus_one s
    → extend_heap words s ≡ done null s
unfolding extend_heap
extend_null_calls s words size e1 e2 = rw e1 (rw e2 refl)

refused-run :
    (s : Machine) (size : ℕ)
    → s.vm.mem_brk + size < 2 ^ 32
    → s.vm.mem_max_addr < s.vm.mem_brk + size
    → sbrk size s ≡ done minus_one s
unfolding sbrk mem_sbrk
refused-run s size h k = ground arith

remove_null-run : (s : Machine) → 4 < s.vm.mem_start_brk → remove_from_free_list null s ≡ undefined
unfolding remove_from_free_list get_prev_free_block_ptr
remove_null-run s h = ground arith

malloc_calls :
    (s t : Machine) (n size p : ℕ)
    → (n == 0) ≡ false
    → calc_block_size n ≡ size
    → fit_or_extend size s ≡ done p t
    → remove_from_free_list p t ≡ undefined
    → mm_malloc n s ≡ undefined
unfolding mm_malloc
malloc_calls s t n size p e1 e2 e3 e4 = rw e1 (rw e2 (rw e3 (rw e4 refl)))

-- On a heap in a storage that does not start at address 0, for a positive request with `n + 15` below
-- 2 ^ 31, when each free block is smaller than the block the request takes, and the extension ends
-- behind the storage but below 2 ^ 32, `mm_malloc` does not return NULL: it goes on with the NULL of
-- `extend_heap` and accesses a word outside the storage.
pub mm_malloc-spent :
    (s : Machine) (n : ℕ) (before : List Block) (p : ℕ) (after : List Block) (xs : List ℕ)
    → IsHeap s before p after xs
    → 0 < s.vm.mem_start_brk
    → 0 < n
    → n + 15 < 2 ^ 31
    → ((a : ℕ) → mem a xs ≡ true → size_at s.word a < calc_block_size n)
    → s.vm.mem_max_addr < s.vm.mem_brk + extension (calc_block_size n)
    → s.vm.mem_brk + extension (calc_block_size n) < 2 ^ 32
    → mm_malloc n s ≡ undefined
mm_malloc-spent s n before p after xs h low positive small full out whole =
    let size = calc_block_size n in
    let (even, _, _, upper) = calc_block_size_bounds n positive (omega arith) in
    let (exact, pair, _, below) = extension_words size even (omega arith) in
    let (q, found, first) = find_fit-FirstFit s size xs h.list in
    let nothing : q ≡ 0 = none_found q (FirstFit-found s.word size q xs first) in
    let bytes : (if extension size / 4 % 2 == 0
          then extension size / 4 * 4 % 2 ^ 32
          else (extension size / 4 + 1) % 2 ^ 32 * 4 % 2 ^ 32)
        ≡ extension size =
      ground arith in
    let even_start = h.start in
    malloc_calls s s n size null (ground arith) refl
      (extend_instead s s size null (subst (λ b. find_fit size s ≡ done b s) nothing found) (
        extend_null_calls s (extension size / 4) (extension size) bytes
          (refused-run s (extension size) whole out)))
      (remove_null-run s (omega arith))
  where
    none_found :
        (q : ℕ) → (q ≡ 0) ⊎ ((mem q xs ≡ true) × (calc_block_size n ≤ size_at s.word q)) → q ≡ 0
    none_found q (inl e) = e
    none_found q (inr (i, k)) = absurd (omega (arith, full q i))
