-- ===== src/Malloc/Tiling/Extend.antt =====
-- `extend_heap` on a heap.
use itu_operating_systems_an.Base.{
  ℕ, ◌+◌, ◌*◌, ◌^◌, ◌%◌, ◌≤◌, ◌<◌, ◌≡◌, refl, ◌∙◌, true, List, [], ◌∷◌, arith,
}
use itu_operating_systems_an.Malloc.Machine.{Machine, done}
use itu_operating_systems_an.Malloc.Heap.{extend_heap}
use itu_operating_systems_an.Malloc.Tiling.{Block, first_ptr, IsHeap}
use itu_operating_systems_an.Malloc.Tiling.Range.{IsHeap-bounds}
use itu_operating_systems_an.Malloc.Tiling.Payload.{payload, payload_back-range, payload_clear}
use itu_operating_systems_an.Malloc.Tiling.Coalesce.{past_free, joined_ptr, joined_block}
use itu_operating_systems_an.Malloc.Tiling.Join.{coalesce-IsHeap}
use itu_operating_systems_an.Malloc.Tiling.Grow.{
  grown, moved, words1, words2, with_epilogue, extend_calls, grown-Relinked, grown_returns,
  grown_beside, grown-IsHeap,
}

module _ (s : Machine) (row : List Block) (xs : List ℕ) (h : IsHeap s row s.vm.mem_brk [] xs)
    (words : ℕ) (pair : words % 2 ≡ 0) (least : 16 ≤ words * 4) (small : words * 4 < 2 ^ 31)
    (room : s.vm.mem_brk + words * 4 ≤ s.vm.mem_max_addr) where
  -- On a heap seen from its end, for an even number of words that makes at least 16 bytes, less than
  -- 2 ^ 31, and fits in the storage, `extend_heap` returns. The break has moved up by these bytes,
  -- which are one free block with the last block if that was free; the pointer returned is that
  -- block's, which is the first of the free list, the blocks before are the same, the state is a
  -- heap again, and no payload of an allocated block has changed.
  pub extend_heap-IsHeap :
      (t : Machine) × (ys : List ℕ) × (extend_heap words s ≡ done (joined_ptr row s.vm.mem_brk) t)
      × (t.vm ≡ record s.vm { mem_brk = s.vm.mem_brk + words * 4 })
      × IsHeap t
          (past_free row)
          (joined_ptr row s.vm.mem_brk)
          (joined_block row (words * 4) [] ∷ [])
          (joined_ptr row s.vm.mem_brk ∷ ys)
      × ((a : ℕ) → payload a row s.vm.mem_brk [] ≡ true → t.word a ≡ s.word a)
  extend_heap-IsHeap =
      let size = words * 4 in
      let even : size % 8 ≡ 0 = omega arith in
      let r = grown-Relinked s row xs h size even least small room in
      let g = grown-IsHeap s row xs h size even least small room in
      let new : Block = grown s row xs h size even least small room in
      let (e1, e2, e3, e4, e5, e6) = grown_returns s row xs h size even least small room in
      let (t, ys, run, same, heap, kept) =
        coalesce-IsHeap r.after row s.vm.mem_brk new [] (s.vm.mem_brk ∷ xs) g refl in
      let m = moved s row xs h size even least small room in
      let w1 = words1 s row xs h size even least small room in
      let w2 = words2 s row xs h size even least small room in
      let (low, _, _, _) = IsHeap-bounds s row s.vm.mem_brk [] xs h in
      (
        t,
        ys,
        extend_calls s m (record m { word = w1 }) (record m { word = w2 })
            (with_epilogue s row xs h size even least small room) r.after t words size s.vm.mem_brk
            (s.vm.mem_brk + size) (joined_ptr row s.vm.mem_brk) (ground arith) e1 e2 e3 e4 e5 e6
            r.returns run,
        same ∙ r.same_vm,
        heap,
        λ a i.
            (let u =
                payload_back-range s.word a (first_ptr s.vm) s.vm.mem_brk row
                  (omega (arith, h.start)) h.back in
              kept a (ground arith)
              ∙ grown_beside s row xs h size even least small room a
                  (payload_clear s row s.vm.mem_brk [] xs h a i) (ground arith) (ground arith)
              ∙ ground arith),
      )
