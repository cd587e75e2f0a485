-- ===== src/Malloc/Tiling/Resize.antt =====
-- `mm_realloc` on a heap, when the block stays where it is.
use itu_operating_systems_an.Base.{
  ℕ, ◌+◌, ◌-◌, ◌^◌, ◌≤◌, ◌<◌, ◌≡◌, refl, ◌∙◌, true, false, List, [], ◌∷◌, ◌++◌, arith, ◌==◌, ◌&&◌,
  Bool-cases, inl, inr, if◌then◌else◌, leb, add32,
}
use itu_operating_systems_an.Malloc.Machine.{Machine, done, null}
use itu_operating_systems_an.Malloc.Block.{
  get_size, is_allocated, is_free, get_header_ptr, get_next_block_ptr, calc_block_size,
}
use itu_operating_systems_an.Malloc.Block.Size.{calc_block_size_bounds}
use itu_operating_systems_an.Malloc.Links.{remove_from_free_list}
use itu_operating_systems_an.Malloc.Links.Delete.{delete}
use itu_operating_systems_an.Malloc.Heap.{set_header, place, grow_or_move, mm_realloc}
use itu_operating_systems_an.Malloc.Heap.Headers.{IsBlock, get_size-block, get_next_block-run}
use itu_operating_systems_an.Malloc.Heap.Around.{tag_flag}
use itu_operating_systems_an.Malloc.Tiling.{Block, first_ptr, IsHeap}
use itu_operating_systems_an.Malloc.Tiling.Mark.{block-IsBlock, block_size}
use itu_operating_systems_an.Malloc.Tiling.Payload.{
  payload, payload_at-range, payload_back-range, payload_clear,
}
use itu_operating_systems_an.Malloc.Tiling.Give.{placed, Given, give_lem}
use itu_operating_systems_an.Malloc.Tiling.Take.{
  removed, behind, widened, widened-run, widened_beside, widened-Offered,
}

same_calls :
    (s : Machine) (p n cur : ℕ)
    → (n == 0) ≡ false
    → (p == null) ≡ false
    → get_size (get_header_ptr p) s ≡ done cur s
    → leb (calc_block_size n) cur ≡ true
    → mm_realloc p n s ≡ done p s
unfolding mm_realloc
same_calls s p n cur e1 e2 e3 e4 = rw e1 (rw e2 (rw e3 (rw e4 refl)))

grow_calls :
    (s s1 s2 t : Machine) (p n cur next nsize both : ℕ)
    → (n == 0) ≡ false
    → (p == null) ≡ false
    → get_size (get_header_ptr p) s ≡ done cur s
    → leb (calc_block_size n) cur ≡ false
    → get_next_block_ptr p s ≡ done next s
    → is_free (get_header_ptr next) s ≡ done true s
    → get_size (get_header_ptr next) s ≡ done nsize s
    → add32 cur nsize ≡ both
    → leb (calc_block_size n) both ≡ true
    → remove_from_free_list next s ≡ done tt s1
    → set_header p both 1 s1 ≡ done tt s2
    → place p (calc_block_size n) s2 ≡ done tt t
    → mm_realloc p n s ≡ done p t
unfolding mm_realloc grow_or_move
grow_calls s s1 s2 t p n cur next nsize both e1 e2 e3 e4 e5 e6 e7 e8 e9 e10 e11 e12 =
    rw e1 (
      rw e2 (rw e3 (rw e4 (rw e5 (rw e6 (rw e7 (rw e8 (rw e9 (rw e10 (rw e11 (rw e12 refl)))))))))))

is_free-block :
    (s : Machine) (p size : ℕ)
    → IsBlock s p size
    → s.word (p - 4) ≡ size + 0
    → is_free (get_header_ptr p) s ≡ done true s
unfolding is_free is_allocated get_header_ptr
is_free-block s p size b h =
    ground
      (arith, tag_flag size 0 b.whole (omega arith), b.aligned, b.above, b.below, b.limit, b.least)

-- the bytes the block can have where it is: its own, and those of a free block behind it
abbrev pub reach : Block → List Block → ℕ
reach b [] = b.size
reach b (c ∷ after) = if c.used then b.size else b.size + c.size

-- What `mm_realloc` does to a block that stays where it is: nothing, or it takes in the free block
-- behind it, of which a rest of 16 bytes or more becomes a free block.
pub data Resized (s : Machine) (before : List Block) (p : ℕ) (b : Block) (size : ℕ) (t : Machine)
    : List Block → Type 0 where
  kept : {after : List Block} → size ≤ b.size → t ≡ s → Resized s before p b size t after
  grown :
      {c : Block} {after : List Block} {ys : List ℕ}
      → b.size < size
      → c.used ≡ false
      → t.vm ≡ s.vm
      → IsHeap t before p (placed size (b.size + c.size) ++ after) ys
      → ((a : ℕ) → payload a before p (b ∷ c ∷ after) ≡ true → t.word a ≡ s.word a)
      → Resized s before p b size t (c ∷ after)

module _ (s : Machine) (before : List Block) (p : ℕ) (b : Block) (xs : List ℕ) (n : ℕ)
    (positive : 0 < n) (small : n + 15 < 2 ^ 32) where
  abbrev size : ℕ
  size = calc_block_size n

  keep_case :
      (after : List Block)
      → IsHeap s before p (b ∷ after) xs
      → size ≤ b.size
      → mm_realloc p n s ≡ done p s
  keep_case after h fits =
      let k = block-IsBlock s before p b after xs h in
      let at = block_size s before p b after xs h in
      let above = k.above in
      same_calls s p n b.size (ground arith) (ground arith) (rw at at (get_size-block s p b.size k))
        (ground arith)

  module _ (c : Block) (after : List Block) (h : IsHeap s before p (b ∷ c ∷ after) xs)
      (used : b.used ≡ true) (free : c.used ≡ false) (more : b.size < size)
      (fits : size ≤ b.size + c.size) where
    given :
        Given s
          (widened s before p b c after xs h used free)
          before
          p
          (b.size + c.size)
          after
          xs
          size
    given =
        let (even, least, _, _) = calc_block_size_bounds n positive small in
        give_lem s (widened s before p b c after xs h used free) before p (b.size + c.size) after xs
          (delete (p + b.size) xs) (widened-Offered s before p b c after xs h used free) size even
          least fits

    grow_run : mm_realloc p n s ≡ done p given.last
    grow_run =
        let k = block-IsBlock s before p b (c ∷ after) xs h in
        let at = block_size s before p b (c ∷ after) xs h in
        let next = behind s before p b c after xs h used free in
        let m = block-IsBlock s (b ∷ before) (p + b.size) c after xs next in
        let size_next = block_size s (b ∷ before) (p + b.size) c after xs next in
        let above = k.above in
        let below = m.below in
        let limit = m.limit in
        grow_calls s (removed s (b ∷ before) (p + b.size) c after xs next free).after
          (widened s before p b c after xs h used free) given.last p n b.size (p + b.size) c.size
          (b.size + c.size) (ground arith) (ground arith) (rw at at (get_size-block s p b.size k))
          (ground arith) (get_next_block-run s p b.size k at)
          (is_free-block s (p + b.size) c.size m (next.front.0.2 ∙ ground arith))
          (rw size_next at (get_size-block s (p + b.size) c.size m)) (ground arith) (ground arith)
          (removed s (b ∷ before) (p + b.size) c after xs next free).returns
          (widened-run s before p b c after xs h used free) given.places

    given_kept : (a : ℕ) → payload a before p (b ∷ c ∷ after) ≡ true → given.last.word a ≡ s.word a
    given_kept a m =
        let even = h.start in
        let clear = payload_clear s before p (b ∷ c ∷ after) xs h a m in
        let next = behind s before p b c after xs h used free in
        let u = payload_back-range s.word a (first_ptr s.vm) p before (omega arith) h.back in
        let v = payload_at-range s.word a (p + b.size + c.size) s.vm.mem_brk after (next.front.1) in
        let low = h.front.0.1 in
        let above = (block-IsBlock s before p b (c ∷ after) xs h).above in
        elim (Bool-cases (leb p a && leb (a + 9) (p + b.size))) [
          | inl own ↦
              given.inside a (ground arith) (ground arith)
              ∙ widened_beside s before p b c after xs h used free a clear (ground arith)
          | inr other ↦ given.beside a clear (ground arith)
        ]

  grow_case :
      (after : List Block)
      → IsHeap s before p (b ∷ after) xs
      → b.used ≡ true
      → size ≤ reach b after
      → b.size < size
      → (t : Machine) × (mm_realloc p n s ≡ done p t) × Resized s before p b size t after
  grow_case [] h used fits more = absurd (omega arith)
  grow_case (c ∷ after) h used fits more =
      let free : c.used ≡ false = ground arith in
      let both : size ≤ b.size + c.size = ground arith in
      let g = given c after h used free more both in
      (
        g.last,
        grow_run c after h used free more both,
        grown more free g.same_vm g.heap (given_kept c after h used free more both),
      )

  -- On a heap seen from an allocated block, for a positive request with `n + 15` below 2 ^ 32 that
  -- fits in the block, or in the block and a free one behind it, `mm_realloc` of its pointer returns
  -- the same pointer, with no access outside the storage. If the request fits in the block the state
  -- is the same. Else the two blocks have become an allocated one, with a rest of 16 bytes or more
  -- as a free block; the break and the other blocks are the same, the state is a heap again, and no
  -- payload of an allocated block has changed, that of the block itself included.
  pub mm_realloc-Resized :
      (after : List Block)
      → IsHeap s before p (b ∷ after) xs
      → b.used ≡ true
      → size ≤ reach b after
      → (t : Machine) × (mm_realloc p n s ≡ done p t) × Resized s before p b size t after
  mm_realloc-Resized after h used fits = elim (Bool-cases (leb size b.size)) [
    | inl small_enough ↦
        let enough : size ≤ b.size = ground arith in (s, keep_case after h enough, kept enough refl)
    | inr larger ↦ grow_case after h used fits (ground arith)
  ]
