-- ===== src/Malloc/Tiling/Mark.antt =====
-- A block of the heap: its words, and whether it is on the free list.
use itu_operating_systems_an.Base.{ℕ, ◌+◌, ◌-◌, ◌≡◌, true, false, not, List, ◌∷◌, arith, int_of}
use itu_operating_systems_an.Malloc.Machine.{Machine}
use itu_operating_systems_an.Malloc.Block.{size_of}
use itu_operating_systems_an.Malloc.Links.Chain.{mem, IsNode}
use itu_operating_systems_an.Malloc.Heap.Headers.{IsBlock}
use itu_operating_systems_an.Malloc.Heap.Around.{tag_size}
use itu_operating_systems_an.Malloc.Tiling.{Block, first_ptr, IsHeap}
use itu_operating_systems_an.Malloc.Tiling.Range.{free_at-range, free_back-range, IsHeap-bounds}
use itu_operating_systems_an.Malloc.Tiling.Move.{IsHeap-right}

module _ (s : Machine) (before : List Block) (p : ℕ) (b : Block) (after : List Block) (xs : List ℕ)
    (h : IsHeap s before p (b ∷ after) xs) where
  pub block-IsBlock : IsBlock s p b.size
  block-IsBlock =
      let (low, even, _, _) = IsHeap-bounds s before p (b ∷ after) xs h in
      let (_, _, high, _) =
        IsHeap-bounds s (b ∷ before) (p + b.size) after xs (IsHeap-right s before p b after xs h) in
      let v = h.vm in
      record {
        aligned = even;
        above = omega arith;
        below = omega (arith, v.high);
        limit = v.room;
        whole = h.front.0.0;
        least = h.front.0.1;
      }

  pub block-IsNode : IsNode s.vm p
  block-IsNode =
      let k = block-IsBlock in
      record {
        aligned = k.aligned;
        above = k.above;
        below = omega (arith, k.below, k.least);
        limit = k.limit;
      }

  -- the size in the header of the block
  pub block_size : size_of (s.word (p - 4)) ≡ b.size
  block_size =
      let k = block-IsBlock in
      let at : s.word (p - 4) ≡ b.size + int_of b.used = h.front.0.2 in
      rw at (tag_size b.size (int_of b.used) k.whole (ground arith) (ground arith))

  -- An allocated block is not on the free list, and a free one is.
  pub block-mem : mem p xs ≡ not b.used
  block-mem =
      let (low, even, _, _) = IsHeap-bounds s before p (b ∷ after) xs h in
      let k = h.front.0.1 in
      ground (
        arith,
        h.listed p,
        free_back-range s.word p (first_ptr s.vm) p before (omega (arith, h.start)) h.back,
        free_at-range s.word p (p + b.size) s.vm.mem_brk after h.front.1,
      )

  pub used-mem : b.used ≡ true → mem p xs ≡ false
  used-mem u = ground (arith, block-mem)
