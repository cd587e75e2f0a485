-- ===== src/Malloc/View/Full.antt =====
-- `mm_realloc` when there is no room where the block is.
use itu_operating_systems_an.Base.{
  ℕ, ◌+◌, ◌<◌, ◌≡◌, refl, ◌∙◌, true, false, List, [], ◌∷◌, arith, ◌==◌, Bool-cases, inl, inr,
  if◌then◌else◌, leb, add32,
}
use itu_operating_systems_an.Malloc.Machine.{Machine, done, null}
use itu_operating_systems_an.Malloc.Block.{
  get_size, is_allocated, is_free, get_header_ptr, get_next_block_ptr, calc_block_size,
}
use itu_operating_systems_an.Malloc.Heap.{move_block, grow_or_move, mm_realloc}
use itu_operating_systems_an.Malloc.Heap.Headers.{get_size-block, get_next_block-run}
use itu_operating_systems_an.Malloc.Heap.Around.{tag_flag, tag_size}
use itu_operating_systems_an.Malloc.Tiling.{Block, IsHeap}
use itu_operating_systems_an.Malloc.Tiling.Near.{next_size, next_flag, heap-Spot, next_words}
use itu_operating_systems_an.Malloc.Tiling.Mark.{block-IsBlock, block_size}
use itu_operating_systems_an.Malloc.Tiling.Resize.{reach}

full_calls :
    (s : Machine) (p n cur next : ℕ)
    → (n == 0) ≡ false
    → (p == null) ≡ false
    → get_size (get_header_ptr p) s ≡ done cur s
    → leb (calc_block_size n) cur ≡ false
    → get_next_block_ptr p s ≡ done next s
    → is_free (get_header_ptr next) s ≡ done false s
    → mm_realloc p n s ≡ move_block p cur n s
unfolding mm_realloc grow_or_move
full_calls s p n cur next e1 e2 e3 e4 e5 e6 = rw e1 (rw e2 (rw e3 (rw e4 (rw e5 (rw e6 refl)))))

short_calls :
    (s : Machine) (p n cur next nsize : ℕ)
    → (n == 0) ≡ false
    → (p == null) ≡ false
    → get_size (get_header_ptr p) s ≡ done cur s
    → leb (calc_block_size n) cur ≡ false
    → get_next_block_ptr p s ≡ done next s
    → is_free (get_header_ptr next) s ≡ done true s
    → get_size (get_header_ptr next) s ≡ done nsize s
    → leb (calc_block_size n) (add32 cur nsize) ≡ false
    → mm_realloc p n s ≡ move_block p cur n s
unfolding mm_realloc grow_or_move
short_calls s p n cur next nsize e1 e2 e3 e4 e5 e6 e7 e8 =
    rw e1 (rw e2 (rw e3 (rw e4 (rw e5 (rw e6 (rw e7 (rw e8 refl)))))))

reach_cases :
    (b : Block) (after : List Block)
    → reach b after ≡ (if next_flag after == 0 then b.size + next_size after else b.size)
reach_cases b [] = refl
reach_cases b (c ∷ after) = ground arith

module _ (s : Machine) (before : List Block) (p : ℕ) (b : Block) (after : List Block) (xs : List ℕ)
    (h : IsHeap s before p (b ∷ after) xs) where
  next_is_free : is_free (get_header_ptr (p + b.size)) s ≡ done (next_flag after == 0) s
  unfolding is_free is_allocated get_header_ptr
  next_is_free =
      let sp = heap-Spot s p b xs before after h in
      let w = (next_words s p b xs before after h).0 in
      ground (
        arith,
        w,
        tag_flag (next_size after) (next_flag after) sp.whole_next sp.flag_next,
        sp.aligned,
        sp.whole,
        sp.least,
        sp.above,
        sp.below,
        sp.limit,
      )

  next_get_size : get_size (get_header_ptr (p + b.size)) s ≡ done (next_size after) s
  unfolding get_size get_header_ptr
  next_get_size =
      let sp = heap-Spot s p b xs before after h in
      let w = (next_words s p b xs before after h).0 in
      ground (
        arith,
        w,
        tag_size (next_size after) (next_flag after) sp.whole_next sp.flag_next
            (omega (arith, sp.below, sp.limit, sp.above, sp.flag_next)),
        sp.aligned,
        sp.whole,
        sp.least,
        sp.above,
        sp.below,
        sp.limit,
      )

  reach_next : reach b after ≡ (if next_flag after == 0 then b.size + next_size after else b.size)
  reach_next = reach_cases b after

  -- no room where the block is
  pub full_run :
      (n : ℕ)
      → 0 < n
      → reach b after < calc_block_size n
      → mm_realloc p n s ≡ move_block p b.size n s
  full_run n positive more =
      let k = block-IsBlock s before p b after xs h in
      let sp = heap-Spot s p b xs before after h in
      let at = block_size s before p b after xs h in
      let above = k.above in
      let own = rw at at (get_size-block s p b.size k) in
      let next = get_next_block-run s p b.size k at in
      elim (Bool-cases (next_flag after == 0)) [
        | inl free ↦
            short_calls s p n b.size (p + b.size) (next_size after) (ground arith) (ground arith)
              own (ground (arith, reach_next)) next (next_is_free ∙ rw free refl) next_get_size
              (ground (arith, reach_next, sp.below, sp.limit))
        | inr used ↦
            full_calls s p n b.size (p + b.size) (ground arith) (ground arith) own
              (ground (arith, reach_next)) next (next_is_free ∙ rw used refl)
      ]
