-- ===== src/Driver/Accept/Package.antt =====
-- mm.c keeps the contract of the driver.
use itu_operating_systems_an.Base.{
  ℕ, ◌+◌, ◌^◌, ◌≤◌, ◌<◌, ◌≡◌, refl, true, false, List, [], ◌∷◌, arith, length,
}
use itu_operating_systems_an.Memlib.{mem_reset_brk}
use itu_operating_systems_an.Malloc.Machine.{Machine, done}
use itu_operating_systems_an.Malloc.Bytes.{byte_at}
use itu_operating_systems_an.Malloc.Block.{calc_block_size}
use itu_operating_systems_an.Malloc.Heap
use itu_operating_systems_an.Malloc.Tiling.{Block, first_ptr}
use itu_operating_systems_an.Malloc.Tiling.Range.{IsHeap-bounds}
use itu_operating_systems_an.Malloc.Tiling.Init.{mm_init-IsHeap}
use itu_operating_systems_an.Malloc.Tiling.Reach.{IsFresh}
use itu_operating_systems_an.Malloc.Tiling.Search.{extension}
use itu_operating_systems_an.Malloc.View.{Holds, SameStorage, assign}
use itu_operating_systems_an.Malloc.View.Zipper.{Holds-apart, Holds-range}
use itu_operating_systems_an.Malloc.View.Alloc.{mm_malloc-Served}
use itu_operating_systems_an.Malloc.View.Release.{mm_free-Holds}
use itu_operating_systems_an.Malloc.View.Fill.{fill-Holds}
use itu_operating_systems_an.Malloc.View.Renew.{mm_realloc-Renewed}
use itu_operating_systems_an.Driver.Trace.{Allocator, Request, Replay, Outcome}
use itu_operating_systems_an.Driver.Trace
use itu_operating_systems_an.Driver.Valid.{eval_mm_valid}
use itu_operating_systems_an.Driver.Accept.{Contract, Gives, WellFormed, needed}
use itu_operating_systems_an.Driver.Accept.Whole.{eval_mm_valid-accepts}

-- the functions that the driver is linked with
abbrev pub mm_package : Allocator
mm_package = record {
  mm_init = Heap.mm_init;
  mm_malloc = Heap.mm_malloc;
  mm_free = Heap.mm_free;
  mm_realloc = Heap.mm_realloc;
}

mm_init-Holds :
    (s : Machine)
    → IsFresh s
    → (t : Machine) × (Heap.mm_init s ≡ done true t) × Holds t (λ x. 0) × SameStorage s t 4112
mm_init-Holds s f =
    let (t, run, vm, heap) = mm_init-IsHeap s f.vm f.unused f.aligned f.empty f.room in
    let b : Block = record { size = 4096; used = false } in
    (
      t,
      run,
      record {
        row = b ∷ [];
        list = (s.vm.mem_start_brk + 16) ∷ [];
        heap = rw vm heap;
        apart = (refl, tt);
        says = λ a. ground arith;
      },
      record {
        start = rw vm refl;
        end = rw vm refl;
        low = rw vm (omega (arith, f.unused));
        high = rw vm (omega (arith, f.unused));
      },
    )

resize-Gives :
    (s : Machine) (table : ℕ → ℕ) (v : Holds s table) (p : ℕ) (in_use : 0 < table p) (n : ℕ)
    (positive : 0 < n) (small : n + 15 < 2 ^ 31)
    (room : s.vm.mem_brk + extension (calc_block_size n) ≤ s.vm.mem_max_addr)
    → (q : ℕ) × (t : Machine) × (Heap.mm_realloc p n s ≡ done q t)
      × Gives Holds s (assign table p 0) n (extension (calc_block_size n)) q t
      × ((k : ℕ) → k < n → k + 8 < table p → byte_at t.word (q + k) ≡ byte_at s.word (p + k))
resize-Gives s table v p in_use n positive small room =
    let (q, t, run, r) = mm_realloc-Renewed s table v p in_use n positive small room in
    let place = r.place in
    (
      q,
      t,
      run,
      record {
        size = r.size;
        new = ground arith;
        enough = r.enough;
        holds = r.holds;
        storage = r.storage;
        contents = r.contents;
      },
      r.bytes,
    )

pub mm_contract : Contract mm_package
mm_contract = record {
  Heap = Holds;
  Ready = IsFresh;
  extra = λ n. extension (calc_block_size n);
  base = 4112;
  space = λ s table v.
      (let h = v.heap in
        let (_, _, _, end) = IsHeap-bounds s [] (first_ptr s.vm) v.row v.list h in
        (h.vm, omega (arith, h.start), omega arith));
  within = λ s table v x h.
      (let (low, high, _, even) = Holds-range s table v x h in (omega arith, high, even));
  apart = Holds-apart;
  fill = fill-Holds;
  init = mm_init-Holds;
  malloc = λ s table v n positive small room.
      (let (q, t, run, r) = mm_malloc-Served s table v n positive small room in
        (
          q,
          t,
          run,
          record {
            size = r.size;
            new = r.new;
            enough = r.enough;
            holds = r.holds;
            storage = r.storage;
            contents = r.contents;
          },
        ));
  release = mm_free-Holds;
  resize = resize-Gives;
}

-- On arrays of `m` elements, with an empty free list in mm.c, and a storage that starts at a multiple
-- of 8 and has room for 4112 bytes and for each request of the trace apart, `eval_mm_valid` with the
-- functions of mm.c returns 1 and counts no error, for a trace in which only indices that are not
-- live are allocated and only live ones freed or resized, with positive sizes whose sum with 15 is
-- below 2 ^ 31, and no resize of an index with a low byte of 128 or more.
pub eval_mm_valid-mm :
    (m : ℕ) (ops : List Request) (d : Replay) (s : Machine)
    → length d.blocks ≡ m
    → length d.block_sizes ≡ m
    → WellFormed m (λ i. false) ops
    → IsFresh (record s { vm = mem_reset_brk s.vm })
    → s.vm.mem_start_brk + 4112 + needed (λ n. extension (calc_block_size n)) ops
      ≤ s.vm.mem_max_addr
    → (f : Replay) × (u : Machine) × (eval_mm_valid mm_package ops d s ≡ Trace.done true f u)
      × (f.errors ≡ d.errors)
unfolding mm_contract
eval_mm_valid-mm m = eval_mm_valid-accepts mm_package mm_contract m
