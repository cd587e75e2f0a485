-- ===== src/Driver/Accept/Steps.antt =====
-- One request of a replay, on an allocator that keeps the contract.
use itu_operating_systems_an.Base.{
  ℕ, ◌+◌, ◌^◌, ◌%◌, ◌≤◌, ◌<◌, ◌≡◌, refl, sym, ap, ◌∙◌, Bool, true, false, ◌||◌, arith, ◌==◌,
  if◌then◌else◌, some, get_elem?,
}
use itu_operating_systems_an.Malloc.Machine
use itu_operating_systems_an.Malloc.Machine.{Machine, null}
use itu_operating_systems_an.Malloc.Bytes.{byte_at}
use itu_operating_systems_an.Malloc.View.{SamePayloads, SameStorage, assign}
use itu_operating_systems_an.Driver.Ranges.{remove_range}
use itu_operating_systems_an.Driver.Trace.{Request, alloc, free, realloc, Allocator, Replay, done}
use itu_operating_systems_an.Driver.Valid.{
  bytes_kept, preserved, valid_alloc, valid_realloc, valid_free,
}
use itu_operating_systems_an.Driver.Bytes.{preserved-run}
use itu_operating_systems_an.Driver.Accept.{Gives, Contract, extents, has, OwnsAll, Agrees}
use itu_operating_systems_an.Driver.Accept.Owned.{
  Owns-carry, OwnsAll-carry, drop, Dropped, drop-Dropped, has_ptr-differ,
}
use itu_operating_systems_an.Driver.Accept.Calls.{
  alloc_calls, realloc_calls, free_calls, kept_least, in_array, storage_after,
}
use itu_operating_systems_an.Driver.Accept.New.{span, Taken, taken}

-- the room that a request can take
abbrev pub room_of : (ℕ → ℕ) → Request → ℕ
room_of extra r = elim r.type [ alloc ↦ extra r.size | free ↦ 0 | realloc ↦ extra r.size ]

-- What one round of the loop leaves.
pub record Passed (Heap : Machine → (ℕ → ℕ) → Type 0) (m : ℕ) (live : ℕ → Bool) (more : ℕ)
    (s : Machine) (d after : Replay) (last : Machine) : Type 0 where
  pub agrees : Agrees Heap m live after last
  pub storage : SameStorage s last more
  pub errors : after.errors ≡ d.errors

module _ (a : Allocator) (c : Contract a) (m : ℕ) (live : ℕ → Bool) (d : Replay) (s : Machine)
    (g : Agrees c.Heap m live d s) (i : ℕ) where
  pub alloc_step :
      (n : ℕ)
      → (i < m) × (live i ≡ false) × (0 < n) × (n + 15 < 2 ^ 31)
      → s.vm.mem_brk + c.extra n ≤ s.vm.mem_max_addr
      → (f : Replay) × (u : Machine) × (valid_alloc a i n d s ≡ done true f u)
        × Passed c.Heap m (λ j. if j == i then true else live j) (c.extra n) s d f u
  alloc_step n (index, dead, positive, small) room =
      let (q, t, run, r) = c.malloc s g.table g.heap n positive small room in
      let owns =
        OwnsAll-carry d d s t g.table g.table g.entries g.owns
          (λ e h k o. Owns-carry d d s t g.table g.table e refl refl refl r.contents o) in
      let fresh : has i g.entries ≡ false = sym (g.indices i) ∙ dead in
      let k =
        taken a c s t g.table n (c.extra n) q r m i (λ j. if j == i then true else live j) d
          g.entries owns g.ranges fresh (λ j. ground (arith, g.indices j)) positive small index
          g.blocks g.block_sizes in
      let low = k.not_null in
      (
        k.stored,
        k.painted,
        alloc_calls a d k.checked k.stored s t k.painted i n q run (ground arith) k.check
            k.remembers,
        record {
          agrees = k.agrees;
          storage = storage_after s t k.painted (c.extra n) k.same_vm r.storage;
          errors = k.errors;
        },
      )

  -- the state once the entry of a live index is off the list
  module _ (x : Dropped d s g.table i g.entries) (t : Machine)
      (same : SamePayloads (assign g.table x.entry.ptr 0) s t) where
    abbrev without : Replay
    without = record d { ranges = remove_range x.entry.ptr d.ranges }

    others_own : OwnsAll without t (assign g.table x.entry.ptr 0) (drop i g.entries)
    others_own =
        let less = assign g.table x.entry.ptr 0 in
        OwnsAll-carry d without s t less less (drop i g.entries)
          (OwnsAll-carry d d s s g.table less (drop i g.entries) x.others (λ e h k o.
            (let other = has_ptr-differ e.ptr x.entry.ptr (drop i g.entries) k x.ptr_gone in
              Owns-carry d d s s g.table less e refl refl (ground arith) (λ y b l n. refl) o)))
          (λ e h k o. Owns-carry d without s t less less e refl refl refl same o)

    ranges_left : without.ranges ≡ extents (drop i g.entries)
    ranges_left = rw (g.ranges) x.ranges

    block_of : get_elem? d.blocks i ≡ some x.entry.ptr
    block_of = rw (x.index) at x.owned.block

    size_of : get_elem? d.block_sizes i ≡ some x.entry.size
    size_of = rw (x.index) at x.owned.block_size

    gone : has i (drop i g.entries) ≡ false
    gone = x.indices i ∙ ground arith

    index_bound : i < m
    index_bound = omega (arith, in_array d.blocks i x.entry.ptr block_of, g.blocks)

    indices_back :
        (j : ℕ) → (if j == i then true else live j) ≡ (j == i || has j (drop i g.entries))
    indices_back j = ground (arith, g.indices j, x.indices j)

    freed_Passed :
        c.Heap t (assign g.table x.entry.ptr 0)
        → SameStorage s t 0
        → Passed c.Heap m (λ j. if j == i then false else live j) 0 s d without t
    freed_Passed heap storage = record {
      agrees = record {
        table = assign g.table x.entry.ptr 0;
        entries = drop i g.entries;
        heap = heap;
        owns = others_own;
        ranges = ranges_left;
        indices = λ j. ground (arith, g.indices j, x.indices j);
        blocks = g.blocks;
        block_sizes = g.block_sizes;
      };
      storage = storage;
      errors = refl;
    }

    module _ (n q : ℕ) (positive : 0 < n) (small : n + 15 < 2 ^ 31) (low : i % 256 < 128)
        (run : a.mm_realloc x.entry.ptr n s ≡ Machine.done q t)
        (r : Gives c.Heap s (assign g.table x.entry.ptr 0) n (c.extra n) q t)
        (bytes : (k : ℕ)
          → k < n
          → k + 8 < g.table x.entry.ptr
          → byte_at t.word (q + k) ≡ byte_at s.word (x.entry.ptr + k)) where
      abbrev taken_block : Taken a c.Heap m i (λ j. if j == i then true else live j) without t n q
      taken_block =
          taken a c s t (assign g.table x.entry.ptr 0) n (c.extra n) q r m i
            (λ j. if j == i then true else live j) without (drop i g.entries) others_own ranges_left
            gone indices_back positive small index_bound g.blocks g.block_sizes

      kept_bytes : preserved q (i % 256) (bytes_kept n x.entry.size) t ≡ Machine.done true t
      kept_bytes =
          let (within_new, within_old) = kept_least n x.entry.size (omega arith) x.owned.small in
          preserved-run t q (i % 256) (bytes_kept n x.entry.size)
            (span a c s t (assign g.table x.entry.ptr 0) n (c.extra n) q r
              (bytes_kept n x.entry.size) within_new)
            low
            (λ k l.
              bytes k (omega arith) (omega (arith, x.owned.room))
              ∙ x.owned.bytes k (omega arith)
              ∙ ap (λ j. j % 256) x.index)

      moved_run : valid_realloc a i n d s ≡ done true taken_block.stored taken_block.painted
      moved_run =
          let k = taken_block in
          let not_null = k.not_null in
          realloc_calls a d k.checked k.stored s t k.painted i n x.entry.ptr q x.entry.size block_of
            run (ground arith) k.check (rw (k.sizes) size_of) kept_bytes k.remembers

      moved_Passed :
          Passed c.Heap m
            (λ j. if j == i then true else live j)
            (c.extra n)
            s
            d
            taken_block.stored
            taken_block.painted
      moved_Passed = record {
        agrees = taken_block.agrees;
        storage = storage_after s t taken_block.painted (c.extra n) taken_block.same_vm r.storage;
        errors = taken_block.errors;
      }

  module _ (alive : live i ≡ true) where
    dropped : Dropped d s g.table i g.entries
    dropped = drop-Dropped d s g.table i g.entries g.owns (sym (g.indices i) ∙ alive)

    in_table : 0 < g.table dropped.entry.ptr
    in_table = omega (arith, dropped.owned.room)

    pub free_step :
        (f : Replay) × (u : Machine) × (valid_free a i d s ≡ done true f u)
        × Passed c.Heap m (λ j. if j == i then false else live j) 0 s d f u
    free_step =
        let (t, run, heap, storage, same) = c.release s g.table g.heap dropped.entry.ptr in_table in
        (
          without dropped t same,
          t,
          free_calls a d s t i dropped.entry.ptr (block_of dropped t same) run,
          freed_Passed dropped t same heap storage,
        )

    pub realloc_step :
        (n : ℕ)
        → (i % 256 < 128) × (0 < n) × (n + 15 < 2 ^ 31)
        → s.vm.mem_brk + c.extra n ≤ s.vm.mem_max_addr
        → (f : Replay) × (u : Machine) × (valid_realloc a i n d s ≡ done true f u)
          × Passed c.Heap m (λ j. if j == i then true else live j) (c.extra n) s d f u
    realloc_step n (low, positive, small) room =
        let (q, t, run, r, bytes) =
          c.resize s g.table g.heap dropped.entry.ptr in_table n positive small room in
        (
          _,
          _,
          moved_run dropped t r.contents n q positive small low run r bytes,
          moved_Passed dropped t r.contents n q positive small low run r bytes,
        )
