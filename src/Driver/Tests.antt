-- ===== src/Driver/Tests.antt =====
-- The range list at a small heap, and a trace replayed on the allocator of mm.c, which it finds valid.
use itu_operating_systems_an.Base.{
  ◌+◌, ◌^◌, ◌≡◌, ◌≤◌, ◌↔◌, inl, inr, refl, List, [], ◌∷◌, arith, ℕ, Bool, true, Option, none, some,
}
use itu_operating_systems_an.Memlib.{Vm, mem_heap_lo, mem_heap_hi, mem_sbrk, mem_reset_brk}
use itu_operating_systems_an.Driver.Ranges.{
  Range, assertion_failed, refused, added, not_aligned, outside_heap, overlaps_payload, add_range,
  touches_any, remove_range, clear_ranges,
}
use itu_operating_systems_an.Driver.Ranges.Disjoint.{
  IsRanges, IsHeap, payload, Fits, add_range_iff, remove_range-IsRanges, elsewhere,
}
use itu_operating_systems_an.Malloc.Machine.{Machine, sbrk, memcpy, store_byte, load_byte}
use itu_operating_systems_an.Malloc.Block.{
  calc_block_size, make_header, get_size, is_allocated, is_free, get_header_ptr, get_footer_ptr,
  get_next_block_ptr, get_prev_block_ptr, get_next_free_block_ptr, get_prev_free_block_ptr,
}
use itu_operating_systems_an.Malloc.Links.{
  set_next_free_block_ptr, set_prev_free_block_ptr, add_to_free_list, unlink, remove_from_free_list,
  find_fit_from, find_fit,
}
use itu_operating_systems_an.Driver.Trace.{
  Request, alloc, free, realloc, Replay, Outcome, D, done, exited, undefined, out_of_fuel, memset,
}
use itu_operating_systems_an.Driver.Valid.{
  eval_mm_valid, valid_requests, valid_request, valid_alloc, valid_realloc, valid_free, remember,
  preserved,
}
use itu_operating_systems_an.Malloc.Heap
use itu_operating_systems_an.Malloc.Block.Size.{calc_block_size_bounds}
use itu_operating_systems_an.Malloc.Tiling.Search.{extension}
use itu_operating_systems_an.Malloc.Tiling.Reach.{IsFresh}
use itu_operating_systems_an.Driver.Accept.{needed}
use itu_operating_systems_an.Driver.Accept.Package.{mm_package, eval_mm_valid-mm}

abbrev heap : Vm
heap = record { mem_start_brk = 4096; mem_brk = 8192; mem_max_addr = 4096 + 2 ^ 16 }

heap-IsHeap : IsHeap heap
heap-IsHeap = record {
  vm = record { low = omega arith; high = omega arith; room = omega arith };
  not_null = omega arith;
  small = omega arith;
}

abbrev two : List Range
two = record { lo = 4128; hi = 4143 } ∷ record { lo = 4112; hi = 4119 } ∷ []

two-IsRanges : IsRanges heap two
two-IsRanges = (
  record { aligned = refl; ordered = omega arith; low = omega arith; high = omega arith },
  (inl (inr (omega arith)), tt),
  (record { aligned = refl; ordered = omega arith; low = omega arith; high = omega arith }, tt, tt),
)

-- one answer of each kind; the last payload contains an older one, and is taken
answers :
    (add_range heap 4160 0 two ≡ assertion_failed)
    × (add_range heap 4161 8 two ≡ refused not_aligned)
    × (add_range heap 8184 16 two ≡ refused outside_heap)
    × (add_range heap 4136 64 two ≡ refused overlaps_payload)
    × (add_range heap 4160 8 two ≡ added (record { lo = 4160; hi = 4167 } ∷ two))
    × (add_range heap 4104 20 two ≡ added (record { lo = 4104; hi = 4123 } ∷ two))
unfolding add_range touches_any mem_heap_lo mem_heap_hi
answers = (refl, refl, refl, refl, refl, refl)

add_range_iff_example :
    (add_range heap 4160 8 two ≡ added (payload 4160 8 ∷ two)) ↔ Fits heap (payload 4160 8) two
add_range_iff_example =
    add_range_iff heap heap-IsHeap 4160 8 two two-IsRanges (omega arith) (omega arith) (omega arith)

taken : add_range heap 4160 8 two ≡ added (payload 4160 8 ∷ two)
unfolding add_range touches_any mem_heap_lo mem_heap_hi
taken = refl

remove_range-IsRanges_example :
    (remove_range 4128 two ≡ elsewhere 4128 two) × IsRanges heap (remove_range 4128 two)
remove_range-IsRanges_example = remove_range-IsRanges heap 4128 two two-IsRanges

abbrev trace : List Request
trace =
    record { type = alloc; index = 0; size = 20 }
    ∷ record { type = alloc; index = 1; size = 8 }
    ∷ record { type = realloc; index = 0; size = 28 }
    ∷ record { type = free; index = 1; size = 0 }
    ∷ []

abbrev fresh : Machine
fresh = record { vm = record heap { mem_brk = 4096 }; word = λ p. 0; heap_ptr = 0; free_list = 0 }

abbrev before : Replay
before = record { ranges = []; blocks = 0 ∷ 0 ∷ []; block_sizes = 0 ∷ 0 ∷ []; errors = 0 }

abbrev verdict : Outcome Bool → Option (Bool × List ℕ × List Range)
verdict (done ok d s) = some (ok, d.blocks, d.ranges)
verdict exited = none
verdict undefined = none
verdict out_of_fuel = none

replayed : D Bool
unfolding eval_mm_valid valid_requests valid_request valid_alloc valid_realloc valid_free remember
    preserved memset store_byte load_byte add_range touches_any remove_range clear_ranges
    Heap.mm_init Heap.mm_malloc Heap.mm_free Heap.mm_realloc Heap.move_block Heap.grow_or_move
    Heap.fit_or_extend Heap.place Heap.extend_heap Heap.coalesce Heap.detach Heap.merge
    Heap.set_header Heap.set_footer find_fit find_fit_from remove_from_free_list unlink
    add_to_free_list set_next_free_block_ptr set_prev_free_block_ptr get_next_free_block_ptr
    get_prev_free_block_ptr get_prev_block_ptr get_next_block_ptr get_footer_ptr get_header_ptr
    is_free is_allocated get_size make_header calc_block_size sbrk memcpy mem_sbrk mem_heap_lo
    mem_heap_hi mem_reset_brk
replayed = eval_mm_valid mm_package trace

replayed_lem :
    verdict (replayed before fresh)
    ≡ some (true, 4160 ∷ 4144 ∷ [], record { lo = 4160; hi = 4187 } ∷ [])
unfolding replayed
replayed_lem = refl

fresh-IsFresh : IsFresh (record fresh { vm = mem_reset_brk fresh.vm })
unfolding mem_reset_brk
fresh-IsFresh = record {
  vm = record { low = omega arith; high = omega arith; room = omega arith };
  unused = refl;
  aligned = refl;
  empty = refl;
  room = omega arith;
}

room_for_trace : 4096 + 4112 + needed (λ n. extension (calc_block_size n)) trace ≤ 4096 + 2 ^ 16
room_for_trace =
    let (_, _, _, a) = calc_block_size_bounds 20 (omega arith) (omega arith) in
    let (_, _, _, b) = calc_block_size_bounds 8 (omega arith) (omega arith) in
    let (_, _, _, c) = calc_block_size_bounds 28 (omega arith) (omega arith) in ground arith

eval_mm_valid-mm_example :
    (f : Replay) × (u : Machine) × (eval_mm_valid mm_package trace before fresh ≡ done true f u)
    × (f.errors ≡ before.errors)
eval_mm_valid-mm_example =
    eval_mm_valid-mm 2 trace before fresh refl refl (ground arith) fresh-IsFresh room_for_trace
