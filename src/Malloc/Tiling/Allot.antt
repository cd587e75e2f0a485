-- ===== src/Malloc/Tiling/Allot.antt =====
-- `mm_malloc` on a heap.
use itu_operating_systems_an.Base.{
  ℕ, ◌+◌, ◌/◌, ◌^◌, ◌%◌, ◌≤◌, ◌<◌, ◌≡◌, refl, subst, ◌∙◌, true, false, List, [], ◌∷◌, ◌++◌, arith,
  inl, inr,
}
use itu_operating_systems_an.Malloc.Machine.{Machine, done}
use itu_operating_systems_an.Malloc.Block.{calc_block_size}
use itu_operating_systems_an.Malloc.Block.Size.{calc_block_size_bounds}
use itu_operating_systems_an.Malloc.Links.{find_fit}
use itu_operating_systems_an.Malloc.Links.Fit.{FirstFit, find_fit-FirstFit}
use itu_operating_systems_an.Malloc.Heap.{fit_or_extend, mm_malloc}
use itu_operating_systems_an.Malloc.Tiling.{Block, first_ptr, IsHeap}
use itu_operating_systems_an.Malloc.Tiling.Range.{IsHeap-bounds}
use itu_operating_systems_an.Malloc.Tiling.Move.{IsHeap-at, IsHeap-forward}
use itu_operating_systems_an.Malloc.Tiling.Mark.{block_size}
use itu_operating_systems_an.Malloc.Tiling.Payload.{
  payload, payload_at-range, payload_back-range, payload_back-past_free, payload_clear,
}
use itu_operating_systems_an.Malloc.Tiling.Coalesce.{
  past_free, joined_ptr, joined_size, joined_block,
}
use itu_operating_systems_an.Malloc.Tiling.Give.{placed, Given, give_lem}
use itu_operating_systems_an.Malloc.Tiling.Take.{removed, removed-Offered}
use itu_operating_systems_an.Malloc.Tiling.Extend.{extend_heap-IsHeap}
use itu_operating_systems_an.Malloc.Tiling.Search.{
  fit_calls, extension, extension_words, extend_instead, mm_malloc_calls, FirstFit-found,
}

-- What `mm_malloc` does for a block size: the block `p` is the first of the free list that is large
-- enough, and the others stay as they are; or none is, and it stands at the end of a larger heap.
pub data Allotted (s : Machine) (xs : List ℕ) (size p : ℕ) (t : Machine) : Type 0 where
  fitted :
      (before : List Block) (b : Block) (after : List Block) (ys : List ℕ)
      → FirstFit s.word size xs p
      → IsHeap s before p (b ∷ after) xs
      → b.used ≡ false
      → size ≤ b.size
      → t.vm ≡ s.vm
      → IsHeap t before p (placed size b.size ++ after) ys
      → ((a : ℕ) → payload a before p (b ∷ after) ≡ true → t.word a ≡ s.word a)
      → Allotted s xs size p t
  extended :
      (row : List Block) (ys : List ℕ)
      → FirstFit s.word size xs 0
      → IsHeap s row s.vm.mem_brk [] xs
      → p ≡ joined_ptr row s.vm.mem_brk
      → t.vm ≡ record s.vm { mem_brk = s.vm.mem_brk + extension size }
      → IsHeap t (past_free row) p (placed size (joined_size row (extension size) []) ++ []) ys
      → ((a : ℕ) → payload a row s.vm.mem_brk [] ≡ true → t.word a ≡ s.word a)
      → Allotted s xs size p t

module _ (s : Machine) (before : List Block) (p : ℕ) (b : Block) (after : List Block) (xs : List ℕ)
    (h : IsHeap s before p (b ∷ after) xs) (free : b.used ≡ false) where
  pub taken :
      (size : ℕ)
      → size % 8 ≡ 0
      → 16 ≤ size
      → size ≤ b.size
      → Given s (removed s before p b after xs h free).after before p b.size after xs size
  taken size even least fits =
      give_lem s (removed s before p b after xs h free).after before p b.size after xs _
        (removed-Offered s before p b after xs h free) size even least fits

  pub taken_kept :
      (size : ℕ)
      (g : Given s (removed s before p b after xs h free).after before p b.size after xs size)
      (a : ℕ)
      → payload a before p (b ∷ after) ≡ true
      → g.last.word a ≡ s.word a
  taken_kept size g a m =
      let even = h.start in
      let u = payload_back-range s.word a (first_ptr s.vm) p before (omega arith) h.back in
      let v = payload_at-range s.word a (p + b.size) s.vm.mem_brk after h.front.1 in
      let w = h.front.0.1 in
      g.beside a (payload_clear s before p (b ∷ after) xs h a m) (ground arith)

module _ (s : Machine) (n : ℕ) (positive : 0 < n) (small : n + 15 < 2 ^ 31) where
  abbrev size : ℕ
  size = calc_block_size n

  fitted_case :
      (before : List Block) (p : ℕ) (b : Block) (after : List Block) (xs : List ℕ)
      → IsHeap s before p (b ∷ after) xs
      → b.used ≡ false
      → find_fit size s ≡ done p s
      → FirstFit s.word size xs p
      → size ≤ b.size
      → (t : Machine) × (mm_malloc n s ≡ done p t) × Allotted s xs size p t
  fitted_case before p b after xs h free found first fits =
      let (even, least, _, _) = calc_block_size_bounds n positive (omega arith) in
      let (low, _, _, _) = IsHeap-bounds s before p (b ∷ after) xs h in
      let r = removed s before p b after xs h free in
      let g = taken s before p b after xs h free size even least fits in
      (
        g.last,
        mm_malloc_calls s s r.after g.last n size p (ground arith) refl
            (fit_calls s size p found (ground arith)) r.returns g.places,
        fitted before b after g.left first h free fits g.same_vm g.heap
            (taken_kept s before p b after xs h free size g),
      )

  top_case :
      (t : Machine) (row : List Block) (xs ys : List ℕ)
      → IsHeap s row s.vm.mem_brk [] xs
      → FirstFit s.word size xs 0
      → fit_or_extend size s ≡ done (joined_ptr row s.vm.mem_brk) t
      → t.vm ≡ record s.vm { mem_brk = s.vm.mem_brk + extension size }
      → IsHeap t
          (past_free row)
          (joined_ptr row s.vm.mem_brk)
          (joined_block row (extension size) [] ∷ [])
          ys
      → ((a : ℕ) → payload a row s.vm.mem_brk [] ≡ true → t.word a ≡ s.word a)
      → (u : Machine) × (mm_malloc n s ≡ done (joined_ptr row s.vm.mem_brk) u)
        × Allotted s xs size (joined_ptr row s.vm.mem_brk) u
  top_case t row xs ys h first run same g kept =
      let (even, least, _, _) = calc_block_size_bounds n positive (omega arith) in
      let p = joined_ptr row s.vm.mem_brk in
      let b : Block = joined_block row (extension size) [] in
      let r = removed t (past_free row) p b [] ys g refl in
      let o = taken t (past_free row) p b [] ys g refl size even least (ground arith) in
      (
        o.last,
        mm_malloc_calls s t r.after o.last n size p (ground arith) refl run r.returns o.places,
        extended row o.left first h refl (o.same_vm ∙ same) o.heap λ a m.
            (let same_payload = payload_back-past_free a s.vm.mem_brk row in
              taken_kept t (past_free row) p b [] ys g refl size o a (ground arith) ∙ kept a m),
      )

  extended_case :
      (row : List Block) (xs : List ℕ)
      → IsHeap s row s.vm.mem_brk [] xs
      → find_fit size s ≡ done 0 s
      → FirstFit s.word size xs 0
      → s.vm.mem_brk + extension size ≤ s.vm.mem_max_addr
      → (t : Machine) × (mm_malloc n s ≡ done (joined_ptr row s.vm.mem_brk) t)
        × Allotted s xs size (joined_ptr row s.vm.mem_brk) t
  extended_case row xs h found first room =
      let (even, least, _, upper) = calc_block_size_bounds n positive (omega arith) in
      let (whole, pair, enough, below) = extension_words size even (omega arith) in
      let q = joined_ptr row s.vm.mem_brk in
      let (t, ys, run, same, g, kept) =
        extend_heap-IsHeap s row xs h (extension size / 4) pair enough below (omega arith) in
      top_case t row xs (q ∷ ys) h first (extend_instead s t size q found run) (rw whole at same)
        (rw whole at g) kept

  -- On a heap, for a positive request of `n` bytes with `n + 15` below 2 ^ 31, and with room for
  -- the extension when no free block is large enough, `mm_malloc` returns a block, with no access
  -- outside the storage. It is the first on the free list that is large enough, and then the break
  -- and the other blocks are the same; or none is, and it stands at the end of the heap, which is
  -- larger by the extension. It is marked allocated, with what is left of it a free block if
  -- that makes 16 bytes; the state is a heap again, and no payload of an allocated block has
  -- changed.
  pub mm_malloc-IsHeap :
      (before : List Block) (p : ℕ) (after : List Block) (xs : List ℕ)
      → IsHeap s before p after xs
      → (FirstFit s.word size xs 0 → s.vm.mem_brk + extension size ≤ s.vm.mem_max_addr)
      → (q : ℕ) × (t : Machine) × (mm_malloc n s ≡ done q t) × Allotted s xs size q t
  mm_malloc-IsHeap before p after xs h room =
      let (q, found, first) = find_fit-FirstFit s size xs h.list in
      elim (FirstFit-found s.word size q xs first) [
        | inl nothing ↦
            let (row, last) = IsHeap-forward s before p after xs h in
            let none : FirstFit s.word size xs 0 = subst (FirstFit s.word size xs) nothing first in
            let found0 : find_fit size s ≡ done 0 s = found ∙ rw nothing refl in
            let (t, run, made) = extended_case row xs last found0 none (room none) in
            (joined_ptr row s.vm.mem_brk, t, run, made)
        | inr (on_list, fits) ↦
            let (l, b, r, free, g) = IsHeap-at s q before p after xs h on_list in
            let enough : size ≤ b.size = ground (arith, block_size s l q b r xs g) in
            let (t, run, made) = fitted_case l q b r xs g free found first enough in
            (q, t, run, made)
      ]
