-- ===== src/Malloc/View/Tests.antt =====
-- The theorems on tables at a heap of two blocks in use with a free one between them.
use itu_operating_systems_an.Base.{
  ℕ, ◌+◌, ◌^◌, ◌<◌, ◌≤◌, ◌≡◌, refl, true, false, [], ◌∷◌, arith, ◌==◌, if◌then◌else◌,
}
use itu_operating_systems_an.Malloc.Machine.{Machine, done, undefined}
use itu_operating_systems_an.Malloc.Block.{calc_block_size, size_of}
use itu_operating_systems_an.Malloc.Block.Size.{calc_block_size_bounds}
use itu_operating_systems_an.Malloc.Heap.{mm_malloc, mm_free, mm_realloc}
use itu_operating_systems_an.Malloc.Tiling.{Block, IsHeap}
use itu_operating_systems_an.Malloc.Tiling.Search.{extension}
use itu_operating_systems_an.Malloc.Tiling.Spent.{mm_malloc-spent}
use itu_operating_systems_an.Malloc.Links.Chain.{mem}
use itu_operating_systems_an.Malloc.Links.Fit.{size_at}
use itu_operating_systems_an.Malloc.View.{Holds, SamePayloads, SameStorage, assign}
use itu_operating_systems_an.Malloc.View.Alloc.{Served, mm_malloc-Served}
use itu_operating_systems_an.Malloc.View.Release.{mm_free-Holds}
use itu_operating_systems_an.Malloc.View.Resize.{Renewed}
use itu_operating_systems_an.Malloc.View.Renew.{mm_realloc-Renewed}

abbrev block : ℕ → Block
block n = record { size = n; used = true }

-- Blocks of 16, 24 and 32 bytes at 4112, 4128 and 4152, the first and the last in use and the middle
-- one free.
abbrev words : ℕ → ℕ
words p =
    if p == 4100
    then 9
    else if p == 4104
    then 9
    else if p == 4108
    then 17
    else if p == 4112
    then 77
    else if p == 4120
    then 17
    else if p == 4124
    then 24
    else if p == 4144
    then 24
    else if p == 4148
    then 33
    else if p == 4176
    then 33
    else if p == 4180
    then 1
    else 0

abbrev heap : Machine
heap = record {
  vm = record { mem_start_brk = 4096; mem_brk = 4184; mem_max_addr = 4096 + 2 ^ 16 };
  word = words;
  heap_ptr = 4104;
  free_list = 4128;
}

abbrev table : ℕ → ℕ
table a = if a == 4112 then 16 else if a == 4152 then 32 else 0

heap-Holds : Holds heap table
heap-Holds = record {
  row = block 16 ∷ record { size = 24; used = false } ∷ block 32 ∷ [];
  list = 4128 ∷ [];
  heap = record {
    vm = record { low = omega arith; high = omega arith; room = omega arith };
    start = refl;
    prologue_header = refl;
    prologue_footer = refl;
    epilogue = refl;
    back = refl;
    front = ground arith;
    list = record { nodes = ground arith; links = ground arith };
    listed = λ a. ground arith;
  };
  apart = ground arith;
  says = λ a. ground arith;
}

room_for : (n : ℕ) → 0 < n → n < 100 → 4184 + extension (calc_block_size n) ≤ 4096 + 2 ^ 16
room_for n h k = let (_, _, _, upper) = calc_block_size_bounds n h (omega arith) in ground arith

mm_malloc-Served_example :
    (q : ℕ) × (t : Machine) × (mm_malloc 10 heap ≡ done q t) × Served heap table 10 q t
mm_malloc-Served_example =
    mm_malloc-Served heap table heap-Holds 10 (omega arith) (omega arith)
      (room_for 10 (omega arith) (omega arith))

mm_free-Holds_example :
    (t : Machine) × (mm_free 4112 heap ≡ done tt t)
    × Holds t (assign table 4112 0)
    × SameStorage heap t 0
    × SamePayloads (assign table 4112 0) heap t
mm_free-Holds_example = mm_free-Holds heap table heap-Holds 4112 (omega arith)

-- The block in front and the free one behind it have 40 bytes, too few, so that the payload moves.
mm_realloc-Renewed_example :
    (q : ℕ) × (t : Machine) × (mm_realloc 4112 50 heap ≡ done q t) × Renewed heap table 4112 50 q t
mm_realloc-Renewed_example =
    mm_realloc-Renewed heap table heap-Holds 4112 (omega arith) 50 (omega arith) (omega arith)
      (room_for 50 (omega arith) (omega arith))

-- the same heap in a storage that ends behind it
abbrev spent : Machine
spent = record heap { vm = record { mem_start_brk = 4096; mem_brk = 4184; mem_max_addr = 4184 } }

spent-IsHeap :
    IsHeap spent [] 4112 (block 16 ∷ record { size = 24; used = false } ∷ block 32 ∷ []) (4128 ∷ [])
spent-IsHeap = record {
  vm = record { low = omega arith; high = omega arith; room = omega arith };
  start = refl;
  prologue_header = refl;
  prologue_footer = refl;
  epilogue = refl;
  back = refl;
  front = ground arith;
  list = record { nodes = ground arith; links = ground arith };
  listed = λ a. ground arith;
}

no_fit : (a : ℕ) → mem a (4128 ∷ []) ≡ true → size_at words a < calc_block_size 100
unfolding size_of
no_fit a h =
    let (_, _, enough, _) = calc_block_size_bounds 100 (omega arith) (omega arith) in
    let at : a ≡ 4128 = ground arith in rw at (omega (arith, enough))

no_room :
    (4184 < 4184 + extension (calc_block_size 100))
    × (4184 + extension (calc_block_size 100) < 2 ^ 32)
no_room =
    let (_, _, enough, upper) = calc_block_size_bounds 100 (omega arith) (omega arith) in
    ground arith

mm_malloc-spent_example : mm_malloc 100 spent ≡ undefined
mm_malloc-spent_example =
    mm_malloc-spent spent 100 [] 4112
      (block 16 ∷ record { size = 24; used = false } ∷ block 32 ∷ []) (4128 ∷ []) spent-IsHeap
      (omega arith) (omega arith) (omega arith) no_fit (no_room.0) (no_room.1)
