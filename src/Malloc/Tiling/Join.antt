-- ===== src/Malloc/Tiling/Join.antt =====
-- `coalesce` on a heap: what `Coalesce` says of the blocks, and what the run says of the words.
use itu_operating_systems_an.Base.{ℕ, ◌+◌, ◌≤◌, ◌≡◌, refl, ◌∙◌, true, false, List, [], ◌∷◌, arith}
use itu_operating_systems_an.Malloc.Machine.{Machine, done}
use itu_operating_systems_an.Malloc.Heap.{coalesce}
use itu_operating_systems_an.Malloc.Heap.Coalesce.{Coalesced, coalesce-Coalesced}
use itu_operating_systems_an.Malloc.Tiling.{Block, Tiled, first_ptr, IsHeap}
use itu_operating_systems_an.Malloc.Tiling.Range.{IsHeap-bounds}
use itu_operating_systems_an.Malloc.Tiling.Frame.{IsHeap-replace}
use itu_operating_systems_an.Malloc.Tiling.Payload.{
  payload, payload_at, payload_at-range, payload_back-range, payload_clear, payload_at-past_free,
  payload_back-past_free,
}
use itu_operating_systems_an.Malloc.Tiling.Near.{
  prev_size, prev_flag, next_size, next_flag, heap-Spot, heap-Tags, heap-Ends, heap-Listed,
}
use itu_operating_systems_an.Malloc.Tiling.Coalesce.{
  past_free, joined_ptr, left_list, joined_block, joined_listed, joined_end, joined_left,
  joined_right,
}

module _ (s : Machine) (before : List Block) (p : ℕ) (b : Block) (after : List Block) (xs : List ℕ)
    (h : IsHeap s before p (b ∷ after) xs) (free : b.used ≡ false) where
  abbrev q : ℕ
  q = joined_ptr before p

  abbrev whole : Block
  whole = joined_block before b.size after

  abbrev rest_list : List ℕ
  rest_list = left_list s before p b after xs h free

  coalesced : Coalesced s xs q whole.size rest_list (coalesce p s)
  coalesced =
      coalesce-Coalesced s xs (prev_size before) (prev_flag before) p b.size (next_size after)
        (next_flag after) (heap-Spot s p b xs before after h)
        (heap-Tags s p b xs before after h free) (heap-Ends s p b xs before after h free)
        (heap-Listed s p b xs before after h free)

  coalesced_kept :
      (a : ℕ) → payload a before p (b ∷ after) ≡ true → coalesced.after.word a ≡ s.word a
  coalesced_kept a m =
      let (rest, l) = joined_left s p b xs before after h in
      let (other, r) = joined_right s p b xs before after h in
      let e = joined_end s p b xs before after h in
      let i = payload_back-past_free a p before in
      let j : payload_at a (p + b.size) after ≡ payload_at a (q + whole.size) (past_free after) =
        rw e (payload_at-past_free a (p + b.size) after) in
      let u =
        payload_back-range s.word a (first_ptr s.vm) q (past_free before) (omega (arith, h.start))
          l.back in
      let v = payload_at-range s.word a (q + whole.size) s.vm.mem_brk (past_free after) r.front in
      let m1 : payload a before p (b ∷ after) ≡ true = m in
      let (low, _, _, _) = IsHeap-bounds s (past_free before) q rest xs l in
      let least : 16 ≤ whole.size = ground (arith, h.front.0.1) in
      coalesced.beside a (payload_clear s before p (b ∷ after) xs h a m) (ground arith)
        (ground arith)

  -- On a heap seen from a free block, `coalesce` returns, with no access outside the storage. The
  -- break is the same; the block and its free neighbours have become one free block, and the
  -- pointer returned is that block's; the blocks beyond are the same, the state is a heap again,
  -- and no payload of an allocated block has changed.
  pub coalesce-IsHeap :
      (t : Machine) × (ys : List ℕ) × (coalesce p s ≡ done q t)
      × (t.vm ≡ s.vm)
      × IsHeap t (past_free before) q (joined_block before b.size after ∷ past_free after) (q ∷ ys)
      × ((a : ℕ) → payload a before p (b ∷ after) ≡ true → t.word a ≡ s.word a)
  coalesce-IsHeap =
      let c = coalesced in
      let sp = heap-Spot s p b xs before after h in
      let (rest, l) = joined_left s p b xs before after h in
      let (other, r) = joined_right s p b xs before after h in
      let (low, even, _, _) = IsHeap-bounds s (past_free before) q rest xs l in
      let (_, end, _, _) = IsHeap-bounds s other (q + whole.size) (past_free after) xs r in
      let least : 16 ≤ whole.size = ground arith in
      let mid : Tiled c.after.word q (whole ∷ []) (q + whole.size) =
        ((omega arith, least, c.header ∙ ground arith, c.footer ∙ ground arith), refl) in
      (
        c.after,
        rest_list,
        c.returns,
        c.same_vm,
        IsHeap-replace s c.after (past_free before) q rest other whole.size (whole ∷ [])
            (past_free after) xs (q ∷ rest_list) l r c.same_vm mid
            (λ a k o. c.beside a k (ground arith) (ground arith)) c.list
            (joined_listed s before p b after xs h free),
        coalesced_kept,
      )
