-- ===== src/Malloc/Check/Clean.antt =====
-- What `mm_check` says of the heaps that the allocator leaves.
use itu_operating_systems_an.Base.{
  ℕ, ◌+◌, ◌-◌, ◌<◌, ◌≡◌, refl, ◌∙◌, true, none, List, [], ◌∷◌, arith,
}
use itu_operating_systems_an.Malloc.Machine.{Machine, done}
use itu_operating_systems_an.Malloc.Block.{flag_of}
use itu_operating_systems_an.Malloc.Links.Chain.{mem}
use itu_operating_systems_an.Malloc.Heap.Around.{tag_flag}
use itu_operating_systems_an.Malloc.Check.{mm_check}
use itu_operating_systems_an.Malloc.Check.Sound.{Below, all_free, mm_check-verdict}
use itu_operating_systems_an.Malloc.Tiling.{Block, first_ptr, IsHeap}
use itu_operating_systems_an.Malloc.Tiling.Range.{IsHeap-bounds}
use itu_operating_systems_an.Malloc.Tiling.Move.{IsHeap-at, IsHeap-right}
use itu_operating_systems_an.Malloc.Tiling.Reach.{Reachable, Reachable-WholeHeap}

module _ (s : Machine) (before : List Block) (p : ℕ) (after : List Block) (xs : List ℕ)
    (h : IsHeap s before p after xs) where
  -- a block of the free list is below the break, and marked free
  listed_block : (x : ℕ) → mem x xs ≡ true → (x < s.vm.mem_brk) × (flag_of (s.word (x - 4)) ≡ 0)
  listed_block x m =
      let (l, b, r, free, g) = IsHeap-at s x before p after xs h m in
      let ((even, least, head, _), _) = g.front in
      let (_, _, high, _) =
        IsHeap-bounds s (b ∷ l) (x + b.size) r xs (IsHeap-right s l x b r xs g) in
      (omega arith, ground (arith, head, free, tag_flag b.size 0 even (omega arith)))

  listed_blocks :
      (ys : List ℕ)
      → ((x : ℕ) → mem x ys ≡ true → mem x xs ≡ true)
      → Below s.vm.mem_brk ys × (all_free s.word ys ≡ true)
  listed_blocks [] sub = (tt, refl)
  listed_blocks (y ∷ ys) sub =
      let here = listed_block y (sub y (ground arith)) in
      let (below, free) = listed_blocks ys (λ x m. sub x (ground arith)) in
      ((here.0, below), ground (arith, here.1, free))

  pub mm_check-IsHeap : mm_check s ≡ done none s
  mm_check-IsHeap =
      let (below, free) = listed_blocks xs (λ x m. m) in
      mm_check-verdict s xs h.list h.vm below ∙ rw free refl

-- In every reachable state `mm_check` returns 0, with no access outside the storage and no change.
pub mm_check-Reachable : (s : Machine) → Reachable s → mm_check s ≡ done none s
mm_check-Reachable s r =
    let (row, xs, h, a) = Reachable-WholeHeap s r in mm_check-IsHeap s [] (first_ptr s.vm) row xs h
