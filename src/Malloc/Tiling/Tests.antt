-- ===== src/Malloc/Tiling/Tests.antt =====
-- The theorems on heaps at a heap of three blocks.
use itu_operating_systems_an.Base.{
  ℕ, ◌+◌, ◌^◌, ◌≤◌, ◌≡◌, refl, true, false, none, List, [], ◌∷◌, arith, ◌==◌, if◌then◌else◌,
}
use itu_operating_systems_an.Memlib.{Vm}
use itu_operating_systems_an.Malloc.Machine.{Machine, done}
use itu_operating_systems_an.Malloc.Block.{calc_block_size}
use itu_operating_systems_an.Malloc.Block.Size.{calc_block_size_bounds}
use itu_operating_systems_an.Malloc.Heap.{
  coalesce, extend_heap, mm_init, mm_malloc, mm_free, mm_realloc,
}
use itu_operating_systems_an.Malloc.Tiling.{Block, IsHeap}
use itu_operating_systems_an.Malloc.Tiling.Move.{IsHeap-right}
use itu_operating_systems_an.Malloc.Tiling.Payload.{payload}
use itu_operating_systems_an.Malloc.Tiling.Free.{mm_free-IsHeap}
use itu_operating_systems_an.Malloc.Tiling.Join.{coalesce-IsHeap}
use itu_operating_systems_an.Malloc.Tiling.Extend.{extend_heap-IsHeap}
use itu_operating_systems_an.Malloc.Tiling.Search.{extension}
use itu_operating_systems_an.Malloc.Tiling.Allot.{Allotted, mm_malloc-IsHeap}
use itu_operating_systems_an.Malloc.Tiling.Resize.{Resized, mm_realloc-Resized}
use itu_operating_systems_an.Malloc.Tiling.Reach.{
  IsFresh, initialised, WholeHeap, Reachable-WholeHeap,
}
use itu_operating_systems_an.Malloc.Check.{mm_check}
use itu_operating_systems_an.Malloc.Check.Clean.{mm_check-Reachable}
use itu_operating_systems_an.Malloc.Tiling.Init.{mm_init-IsHeap}

abbrev free_block : ℕ → Block
free_block n = record { size = n; used = false }

abbrev used_block : ℕ → Block
used_block n = record { size = n; used = true }

abbrev storage : ℕ → Vm
storage brk = record { mem_start_brk = 4096; mem_brk = brk; mem_max_addr = 4096 + 2 ^ 16 }

-- Blocks of 16, 24 and 32 bytes at 4112, 4128 and 4152. The two outer ones are free, and the free
-- list is 4152, 4112. `tag` is the header and the footer of the middle one.
abbrev heap_words : ℕ → ℕ → ℕ
heap_words tag p =
    if p == 4100
    then 9
    else if p == 4104
    then 9
    else if p == 4108
    then 16
    else if p == 4116
    then 4152
    else if p == 4120
    then 16
    else if p == 4124
    then tag
    else if p == 4144
    then tag
    else if p == 4148
    then 32
    else if p == 4152
    then 4112
    else if p == 4176
    then 32
    else if p == 4180
    then 1
    else 0

abbrev heap : Machine
heap = record { vm = storage 4184; word = heap_words 25; heap_ptr = 4104; free_list = 4152 }

heap-IsHeap :
    IsHeap heap (free_block 16 ∷ []) 4128 (used_block 24 ∷ free_block 32 ∷ []) (4152 ∷ 4112 ∷ [])
heap-IsHeap = record {
  vm = record { low = omega arith; high = omega arith; room = omega arith };
  start = refl;
  prologue_header = refl;
  prologue_footer = refl;
  epilogue = refl;
  back = ground arith;
  front = ground arith;
  list = record { nodes = ground arith; links = ground arith };
  listed = λ a. ground arith;
}

mm_free-IsHeap_example :
    (t : Machine) × (ys : List ℕ) × (mm_free 4128 heap ≡ done tt t)
    × (t.vm ≡ heap.vm)
    × IsHeap t [] 4112 (free_block 72 ∷ []) (4112 ∷ ys)
    × ((a : ℕ)
        → payload a (free_block 16 ∷ []) 4128 (free_block 24 ∷ free_block 32 ∷ []) ≡ true
        → t.word a ≡ heap.word a)
mm_free-IsHeap_example =
    mm_free-IsHeap heap (free_block 16 ∷ []) 4128 (used_block 24) (free_block 32 ∷ [])
      (4152 ∷ 4112 ∷ []) heap-IsHeap refl

room_for_ten : 4184 + extension (calc_block_size 10) ≤ 4096 + 2 ^ 16
room_for_ten =
    let (_, _, _, upper) = calc_block_size_bounds 10 (omega arith) (omega arith) in ground arith

mm_malloc-IsHeap_example :
    (q : ℕ) × (t : Machine) × (mm_malloc 10 heap ≡ done q t)
    × Allotted heap (4152 ∷ 4112 ∷ []) (calc_block_size 10) q t
mm_malloc-IsHeap_example =
    mm_malloc-IsHeap heap 10 (omega arith) (omega arith) (free_block 16 ∷ []) 4128
      (used_block 24 ∷ free_block 32 ∷ []) (4152 ∷ 4112 ∷ []) heap-IsHeap (λ f. room_for_ten)

-- the heap seen from its end
end-IsHeap :
    IsHeap heap (free_block 32 ∷ used_block 24 ∷ free_block 16 ∷ []) 4184 [] (4152 ∷ 4112 ∷ [])
end-IsHeap =
    IsHeap-right heap (used_block 24 ∷ free_block 16 ∷ []) 4152 (free_block 32) []
      (4152 ∷ 4112 ∷ [])
      (IsHeap-right heap (free_block 16 ∷ []) 4128 (used_block 24) (free_block 32 ∷ [])
        (4152 ∷ 4112 ∷ []) heap-IsHeap)

extend_heap-IsHeap_example :
    (t : Machine) × (ys : List ℕ) × (extend_heap 1024 heap ≡ done 4152 t)
    × (t.vm ≡ storage 8280)
    × IsHeap t (used_block 24 ∷ free_block 16 ∷ []) 4152 (free_block 4128 ∷ []) (4152 ∷ ys)
    × ((a : ℕ)
        → payload a (free_block 32 ∷ used_block 24 ∷ free_block 16 ∷ []) 4184 [] ≡ true
        → t.word a ≡ heap.word a)
extend_heap-IsHeap_example =
    extend_heap-IsHeap heap (free_block 32 ∷ used_block 24 ∷ free_block 16 ∷ []) (4152 ∷ 4112 ∷ [])
      end-IsHeap 1024 refl (omega arith) (omega arith) (omega arith)

-- the same heap when the middle block is free and the first on the list, before `coalesce`
abbrev parted_words : ℕ → ℕ
parted_words p = if p == 4128 then 4152 else if p == 4156 then 4128 else heap_words 24 p

abbrev parted : Machine
parted = record heap { word = parted_words; free_list = 4128 }

parted-IsHeap :
    IsHeap parted
      (free_block 16 ∷ [])
      4128
      (free_block 24 ∷ free_block 32 ∷ [])
      (4128 ∷ 4152 ∷ 4112 ∷ [])
parted-IsHeap = record {
  vm = record { low = omega arith; high = omega arith; room = omega arith };
  start = refl;
  prologue_header = refl;
  prologue_footer = refl;
  epilogue = refl;
  back = ground arith;
  front = ground arith;
  list = record { nodes = ground arith; links = ground arith };
  listed = λ a. ground arith;
}

coalesce-IsHeap_example :
    (t : Machine) × (ys : List ℕ) × (coalesce 4128 parted ≡ done 4112 t)
    × (t.vm ≡ parted.vm)
    × IsHeap t [] 4112 (free_block 72 ∷ []) (4112 ∷ ys)
    × ((a : ℕ)
        → payload a (free_block 16 ∷ []) 4128 (free_block 24 ∷ free_block 32 ∷ []) ≡ true
        → t.word a ≡ parted.word a)
coalesce-IsHeap_example =
    coalesce-IsHeap parted (free_block 16 ∷ []) 4128 (free_block 24) (free_block 32 ∷ [])
      (4128 ∷ 4152 ∷ 4112 ∷ []) parted-IsHeap refl

larger_fits : calc_block_size 30 ≤ 24 + 32
larger_fits =
    let (_, _, _, upper) = calc_block_size_bounds 30 (omega arith) (omega arith) in omega arith

mm_realloc-Resized_example :
    (t : Machine) × (mm_realloc 4128 30 heap ≡ done 4128 t)
    × Resized heap
        (free_block 16 ∷ [])
        4128
        (used_block 24)
        (calc_block_size 30)
        t
        (free_block 32 ∷ [])
mm_realloc-Resized_example =
    mm_realloc-Resized heap (free_block 16 ∷ []) 4128 (used_block 24) (4152 ∷ 4112 ∷ []) 30
      (omega arith) (omega arith) (free_block 32 ∷ []) heap-IsHeap refl larger_fits

abbrev fresh : Machine
fresh = record { vm = storage 4096; word = λ p. 0; heap_ptr = 0; free_list = 0 }

mm_init-IsHeap_example :
    (t : Machine) × (mm_init fresh ≡ done true t)
    × (t.vm ≡ storage 8208)
    × IsHeap t [] 4112 (free_block 4096 ∷ []) (4112 ∷ [])
mm_init-IsHeap_example =
    mm_init-IsHeap fresh (record { low = omega arith; high = omega arith; room = omega arith }) refl
      refl refl (omega arith)

fresh-IsFresh : IsFresh fresh
fresh-IsFresh = record {
  vm = record { low = omega arith; high = omega arith; room = omega arith };
  unused = refl;
  aligned = refl;
  empty = refl;
  room = omega arith;
}

-- the state after `mm_init`
begun : (t : Machine) × (mm_init fresh ≡ done true t) × (t.vm ≡ storage 8208)
begun =
    let (t, run, same, heap_of) =
      mm_init-IsHeap fresh (record { low = omega arith; high = omega arith; room = omega arith })
        refl refl refl (omega arith) in
    (t, run, same)

Reachable-WholeHeap_example : WholeHeap begun.0
Reachable-WholeHeap_example = Reachable-WholeHeap begun.0 (initialised fresh-IsFresh begun.1)

mm_check-Reachable_example : mm_check begun.0 ≡ done none begun.0
mm_check-Reachable_example = mm_check-Reachable begun.0 (initialised fresh-IsFresh begun.1)
