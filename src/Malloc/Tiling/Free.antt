-- ===== src/Malloc/Tiling/Free.antt =====
-- `mm_free` on a heap.
use itu_operating_systems_an.Base.{
  ℕ, ◌+◌, ◌-◌, ◌≡◌, ◌≢◌, refl, ◌∙◌, true, false, List, [], ◌∷◌, arith,
}
use itu_operating_systems_an.Malloc.Machine.{Machine, done, write}
use itu_operating_systems_an.Malloc.Block.{size_of, get_size, get_header_ptr}
use itu_operating_systems_an.Malloc.Links.{add_to_free_list}
use itu_operating_systems_an.Malloc.Links.Chain.{is_link}
use itu_operating_systems_an.Malloc.Links.Add.{Relinked, add_to_free_list-Relinked}
use itu_operating_systems_an.Malloc.Heap.{set_header, set_footer, coalesce, mm_free}
use itu_operating_systems_an.Malloc.Tiling.{Block, Tiled, first_ptr, IsHeap}
use itu_operating_systems_an.Malloc.Tiling.Frame.{IsHeap-replace}
use itu_operating_systems_an.Malloc.Heap.Headers.{
  IsBlock, get_size-block, set_header-run, set_footer-run,
}
use itu_operating_systems_an.Malloc.Heap.Clear.{is_link-cons, IsFreeList-beside}
use itu_operating_systems_an.Malloc.Heap.Around.{tag_size}
use itu_operating_systems_an.Malloc.Tiling.Move.{IsHeap-right}
use itu_operating_systems_an.Malloc.Tiling.Frame.{edge_words}
use itu_operating_systems_an.Malloc.Tiling.Payload.{
  payload, payload_at-range, payload_back-range, payload_clear,
}
use itu_operating_systems_an.Malloc.Tiling.Mark.{block-IsBlock, block-IsNode, block_size, used-mem}
use itu_operating_systems_an.Malloc.Tiling.Coalesce.{past_free, joined_ptr, joined_block}
use itu_operating_systems_an.Malloc.Tiling.Join.{coalesce-IsHeap}

mm_free_calls :
    (s s1 s2 s3 t : Machine) (p size q : ℕ)
    → get_size (get_header_ptr p) s ≡ done size s
    → set_header p size 0 s ≡ done tt s1
    → set_footer p size 0 s1 ≡ done tt s2
    → add_to_free_list p s2 ≡ done tt s3
    → coalesce p s3 ≡ done q t
    → mm_free p s ≡ done tt t
unfolding mm_free
mm_free_calls s s1 s2 s3 t p size q e1 e2 e3 e4 e5 = rw e1 (rw e2 (rw e3 (rw e4 (rw e5 refl))))

module _ (s : Machine) (before : List Block) (p : ℕ) (b : Block) (after : List Block) (xs : List ℕ)
    (h : IsHeap s before p (b ∷ after) xs) (used : b.used ≡ true) where
  abbrev freed : Block
  freed = record { size = b.size; used = false }

  abbrev words1 : ℕ → ℕ
  words1 = write s.word (p - 4) (b.size + 0)

  abbrev words2 : ℕ → ℕ
  words2 = write words1 (p + b.size - 8) (b.size + 0)

  abbrev tagged : Machine
  tagged = record s { word = words2 }

  tag_words : (is_link (p - 4) xs ≡ false) × (is_link (p + b.size - 8) xs ≡ false)
  tag_words = (
    (edge_words s before p (b ∷ after) xs h).1,
    (edge_words s (b ∷ before) (p + b.size) after xs (IsHeap-right s before p b after xs h)).0,
  )

  tagged-Relinked : Relinked tagged (p ∷ xs) (p ∷ xs) (add_to_free_list p tagged)
  tagged-Relinked =
      let (hd, ft) = tag_words in
      add_to_free_list-Relinked tagged p xs
        (IsFreeList-beside s words2 xs (p - 4) (p + b.size - 8) h.list hd ft
          (λ a k l. ground arith))
        (block-IsNode s before p b after xs h) (used-mem s before p b after xs h used)

  tagged_returns :
      (get_size (get_header_ptr p) s ≡ done b.size s)
      × (set_header p b.size 0 s ≡ done tt (record s { word = words1 }))
      × (set_footer p b.size 0 (record s { word = words1 }) ≡ done tt tagged)
  tagged_returns =
      let k = block-IsBlock s before p b after xs h in
      let k1 : IsBlock (record s { word = words1 }) p b.size = record {
        aligned = k.aligned;
        above = k.above;
        below = k.below;
        limit = k.limit;
        whole = k.whole;
        least = k.least;
      } in
      let size : size_of (s.word (p - 4)) ≡ b.size = block_size s before p b after xs h in
      (
        rw size at (get_size-block s p b.size k),
        set_header-run s p b.size k b.size 0 k.whole (omega arith),
        set_footer-run (record s { word = words1 }) p b.size k1 b.size 0 k.whole (omega arith)
            (ground (arith, tag_size b.size 0 k.whole (omega arith))),
      )

  -- the heap in which the block is free, before `coalesce`
  freed-IsHeap : IsHeap tagged-Relinked.after before p (freed ∷ after) (p ∷ xs)
  freed-IsHeap =
      let r = tagged-Relinked in
      let k = block-IsBlock s before p b after xs h in
      let n = block-IsNode s before p b after xs h in
      let (hd, ft) = tag_words in
      let right = IsHeap-right s before p b after xs h in
      let put : (a : ℕ) → is_link a xs ≡ false → a ≢ p → a ≢ p + 4 → r.after.word a ≡ words2 a =
        λ a i j l. r.beside a (is_link-cons a p xs j l i) in
      let mid : Tiled r.after.word p (freed ∷ []) (p + b.size) = (
        (
          k.whole,
          k.least,
          put (p - 4) hd (ground arith) (ground arith) ∙ ground arith,
          put (p + b.size - 8) ft (ground arith) (ground arith) ∙ ground arith,
        ),
        refl,
      ) in
      IsHeap-replace s r.after before p (b ∷ after) (b ∷ before) b.size (freed ∷ []) after xs
        (p ∷ xs) h right r.same_vm mid
        (λ a i o. put a i (ground arith) (ground arith) ∙ ground arith) r.list
        (λ a. ground (arith, h.listed a))

  freed_kept :
      (a : ℕ) → payload a before p (freed ∷ after) ≡ true → tagged-Relinked.after.word a ≡ s.word a
  freed_kept a m =
      let r = tagged-Relinked in
      let k = block-IsBlock s before p b after xs h in
      let still : payload a before p (b ∷ after) ≡ true = ground arith in
      let clear = payload_clear s before p (b ∷ after) xs h a still in
      let u =
        payload_back-range s.word a (first_ptr s.vm) p before (omega (arith, h.start)) h.back in
      let v = payload_at-range s.word a (p + b.size) s.vm.mem_brk after h.front.1 in
      let low = k.above in
      let least = k.least in
      r.beside a (is_link-cons a p xs (ground arith) (ground arith) clear) ∙ ground arith

  -- On a heap seen from an allocated block, `mm_free` of its pointer returns, with no access outside
  -- the storage. The break is the same; the block and its free neighbours have become one free
  -- block, which is the first of the free list, the blocks beyond are the same, the state is a heap
  -- again, and no payload of another allocated block has changed.
  pub mm_free-IsHeap :
      (t : Machine) × (ys : List ℕ) × (mm_free p s ≡ done tt t)
      × (t.vm ≡ s.vm)
      × IsHeap t
          (past_free before)
          (joined_ptr before p)
          (joined_block before b.size after ∷ past_free after)
          (joined_ptr before p ∷ ys)
      × ((a : ℕ)
          → payload a before p (record b { used = false } ∷ after) ≡ true
          → t.word a ≡ s.word a)
  mm_free-IsHeap =
      let r = tagged-Relinked in
      let (e1, e2, e3) = tagged_returns in
      let (t, ys, run, same, g, kept) =
        coalesce-IsHeap r.after before p freed after (p ∷ xs) freed-IsHeap refl in
      (
        t,
        ys,
        mm_free_calls s (record s { word = words1 }) tagged r.after t p b.size (joined_ptr before p)
            e1 e2 e3 r.returns run,
        same ∙ r.same_vm,
        g,
        λ a m. kept a m ∙ freed_kept a m,
      )
