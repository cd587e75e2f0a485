-- ===== src/Malloc/Tiling/Take.antt =====
-- A free block of a heap is taken off the list: to be given away, or to make the block before it
-- larger.
use itu_operating_systems_an.Base.{ℕ, ◌+◌, ◌-◌, ◌≡◌, ◌≢◌, true, false, ◌||◌, List, ◌∷◌, arith}
use itu_operating_systems_an.Malloc.Machine.{Machine, done, write}
use itu_operating_systems_an.Malloc.Block.{size_of}
use itu_operating_systems_an.Malloc.Links.{remove_from_free_list}
use itu_operating_systems_an.Malloc.Links.Chain.{mem, is_link}
use itu_operating_systems_an.Malloc.Links.Add.{Relinked}
use itu_operating_systems_an.Malloc.Links.Delete.{delete, is_link-delete, mem-delete, remove-delete}
use itu_operating_systems_an.Malloc.Heap.Clear.{IsFreeList-beside}
use itu_operating_systems_an.Malloc.Heap.Headers.{IsBlock}
use itu_operating_systems_an.Malloc.Tiling.{Block, free_at, free_back, first_ptr, IsHeap}
use itu_operating_systems_an.Malloc.Tiling.Range.{free_at-range, free_back-range, IsHeap-bounds}
use itu_operating_systems_an.Malloc.Tiling.Move.{IsHeap-right}
use itu_operating_systems_an.Malloc.Tiling.Frame.{edge_words}
use itu_operating_systems_an.Malloc.Tiling.Give.{Offered, IsBlock-vm}
use itu_operating_systems_an.Malloc.Heap.{set_header}
use itu_operating_systems_an.Malloc.Heap.Headers.{set_header-run}
use itu_operating_systems_an.Malloc.Heap.Around.{tag_size}
use itu_operating_systems_an.Malloc.Tiling.Mark.{block-IsBlock, block_size, block-mem}

-- which blocks are left on the list when the free block at `p` is taken off
module _ (s : Machine) (before : List Block) (p : ℕ) (b : Block) (after : List Block) (xs : List ℕ)
    (h : IsHeap s before p (b ∷ after) xs) (free : b.used ≡ false) where
  pub removed : Relinked s xs (delete p xs) (remove_from_free_list p s)
  removed = remove-delete s p xs h.list (ground (arith, block-mem s before p b after xs h))

  left_mem : (a : ℕ) → mem a (delete p xs) ≡ (free_back a p before || free_at a (p + b.size) after)
  left_mem a =
      let (low, even, _, _) = IsHeap-bounds s before p (b ∷ after) xs h in
      let k = h.front.0.1 in
      ground (
        arith,
        mem-delete s.vm a p xs h.list.nodes,
        h.listed a,
        free_back-range s.word a (first_ptr s.vm) p before (omega (arith, h.start)) h.back,
        free_at-range s.word a (p + b.size) s.vm.mem_brk after h.front.1,
      )

  -- the block, for `place`
  pub removed-Offered : Offered s removed.after before p b.size after xs (delete p xs)
  removed-Offered =
      let (_, hd) = edge_words s before p (b ∷ after) xs h in
      record {
        rest = b ∷ after;
        other = b ∷ before;
        start = h;
        end = IsHeap-right s before p b after xs h;
        block = block-IsBlock s before p b after xs h;
        same_vm = removed.same_vm;
        header = ground (arith, removed.beside (p - 4) hd, block_size s before p b after xs h);
        list = removed.list;
        listed = left_mem;
        fewer = λ a i. is_link-delete a p xs i;
        beside = λ a i j. removed.beside a i;
      }

-- the block before the free one, with a header over the two
module _ (s : Machine) (before : List Block) (p : ℕ) (b c : Block) (after : List Block)
    (xs : List ℕ) (h : IsHeap s before p (b ∷ c ∷ after) xs) (used : b.used ≡ true)
    (free : c.used ≡ false) where
  pub behind : IsHeap s (b ∷ before) (p + b.size) (c ∷ after) xs
  behind = IsHeap-right s before p b (c ∷ after) xs h

  abbrev pub widened : Machine
  widened =
      let t = (removed s (b ∷ before) (p + b.size) c after xs behind free).after in
      record t { word = write t.word (p - 4) (b.size + c.size + 1) }

  both-IsBlock : IsBlock s p (b.size + c.size)
  both-IsBlock =
      let k = block-IsBlock s before p b (c ∷ after) xs h in
      let m = block-IsBlock s (b ∷ before) (p + b.size) c after xs behind in
      record {
        aligned = k.aligned;
        above = k.above;
        below = omega (arith, m.below);
        limit = k.limit;
        whole = omega (arith, k.whole, m.whole);
        least = omega (arith, k.least);
      }

  pub widened-run :
      set_header p
        (b.size + c.size)
        1
        (removed s (b ∷ before) (p + b.size) c after xs behind free).after
      ≡ done tt widened
  widened-run =
      let r = removed s (b ∷ before) (p + b.size) c after xs behind free in
      let k = both-IsBlock in
      set_header-run r.after p (b.size + c.size)
        (IsBlock-vm s r.after p (b.size + c.size) r.same_vm k) (b.size + c.size) 1 k.whole
        (omega arith)

  pub widened_beside : (a : ℕ) → is_link a xs ≡ false → a ≢ p - 4 → widened.word a ≡ s.word a
  widened_beside a i j =
      let r = removed s (b ∷ before) (p + b.size) c after xs behind free in
      ground (arith, r.beside a i)

  pub widened-Offered :
      Offered s widened before p (b.size + c.size) after xs (delete (p + b.size) xs)
  widened-Offered =
      let r = removed s (b ∷ before) (p + b.size) c after xs behind free in
      let o = removed-Offered s (b ∷ before) (p + b.size) c after xs behind free in
      let k = both-IsBlock in
      let (_, hd) = edge_words s before p (b ∷ c ∷ after) xs h in
      let e : p + b.size + c.size ≡ p + (b.size + c.size) = omega arith in
      let back : p + b.size - b.size ≡ p = omega arith in
      let ys = delete (p + b.size) xs in
      let gone : is_link (p - 4) ys ≡ false = is_link-delete (p - 4) (p + b.size) xs hd in
      let size : size_of (b.size + c.size + 1) ≡ b.size + c.size =
        tag_size (b.size + c.size) 1 k.whole (omega arith) (ground arith) in
      record {
        rest = b ∷ c ∷ after;
        other = c ∷ b ∷ before;
        start = h;
        end = rw e at (IsHeap-right s (b ∷ before) (p + b.size) c after xs behind);
        block = k;
        same_vm = o.same_vm;
        header = ground (arith, size);
        list =
            IsFreeList-beside r.after widened.word ys (p - 4) (p - 4) r.list gone gone
              (λ a i j. ground arith);
        listed = λ a. ground (arith, o.listed a);
        fewer = o.fewer;
        beside = λ a i j. ground (arith, o.beside a i);
      }
