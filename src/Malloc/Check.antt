-- ===== src/Malloc/Check.antt =====
-- `mm_check` of mm.c, which walks the free list and looks for what must not be there.
pub mod Sound
pub mod Clean
use itu_operating_systems_an.Base.{
  ℕ, zero, suc, ◌+◌, Bool, true, false, not, ◌&&◌, ◌||◌, Option, none, some, ltb, ◌==◌,
  if◌then◌else◌, int_of,
}
use itu_operating_systems_an.Memlib.{mem_heap_lo, mem_heap_hi}
use itu_operating_systems_an.Malloc.Machine.{
  M, pure, ◌>>=◌, ◌>>◌, null, out_of_fuel, get_val, get_free_list,
}
use itu_operating_systems_an.Malloc.Block.{
  is_allocated, is_free, get_header_ptr, get_next_free_block_ptr, get_prev_free_block_ptr,
}
use itu_operating_systems_an.Malloc.Links.{list_fuel}

-- The messages that go with the result -1. The block that is printed with one of them is left out.
pub data Problem : Type 0 where
  head_has_prev : Problem
  allocated_block : Problem
  next_outside : Problem
  prev_outside : Problem
  many_null_prev : Problem
  many_null_next : Problem

-- a pointer that is not NULL and not in the heap
unfoldable pub beyond : ℕ → M Bool
unfolding mem_heap_lo mem_heap_hi
beyond p = λ s. pure (not (p == null) && (ltb p (mem_heap_lo s.vm) || ltb (mem_heap_hi s.vm) p)) s

-- the two tests behind the loop; `none` is the result 0
abbrev pub counted : ℕ → ℕ → Option Problem
counted num_nil_prev num_nil_next =
    if ltb 1 num_nil_prev
    then some many_null_prev
    else if ltb 1 num_nil_next
    then some many_null_next
    else none

-- The loop. A branch that is not taken is not run: the recursion is bound first.
unfoldable pub check_from : ℕ → ℕ → ℕ → ℕ → M (Option Problem)
check_from zero block_ptr num_nil_prev num_nil_next = λ s. out_of_fuel
check_from (suc fuel) block_ptr num_nil_prev num_nil_next =
    let further : ℕ → ℕ → M (Option Problem) =
      λ a b. (do next ← get_val block_ptr; check_from fuel next a b) in
    if block_ptr == null then pure (counted num_nil_prev num_nil_next) else do
      allocated ← is_allocated (get_header_ptr block_ptr)
      if not (allocated == 0) then pure (some allocated_block) else do
        free ← is_free (get_header_ptr block_ptr)
        if not free then further num_nil_prev num_nil_next else do
          np ← get_next_free_block_ptr block_ptr
          pp ← get_prev_free_block_ptr block_ptr
          bad_np ← beyond np
          if bad_np then pure (some next_outside) else do
            bad_pp ← beyond pp
            if bad_pp
                then pure (some prev_outside)
                else further (num_nil_prev + int_of (pp == null))
                    (num_nil_next + int_of (np == null))

-- whether the first block has a previous one
unfoldable pub head_linked_back : M Bool
head_linked_back = do
  first ← get_free_list
  if first == null
      then pure false
      else (do pp ← get_prev_free_block_ptr first; pure (not (pp == null)))

unfoldable pub mm_check : M (Option Problem)
mm_check = do
  bad ← head_linked_back
  if bad
      then pure (some head_has_prev)
      else (do first ← get_free_list; λ s. check_from (list_fuel s) first 0 0 s)
