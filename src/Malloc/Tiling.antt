-- ===== src/Malloc/Tiling.antt =====
-- The heap of mm.c as a row of blocks, seen from a block pointer: the blocks before it, the nearest
-- first, and the blocks from it on.
pub mod Range
pub mod Move
pub mod Frame
pub mod Near
pub mod Mark
pub mod Payload
pub mod Coalesce
pub mod Join
pub mod Free
pub mod Give
pub mod Take
pub mod Grow
pub mod Extend
pub mod Search
pub mod Allot
pub mod Spent
pub mod Init
pub mod Resize
pub mod Settled
pub mod Reach
mod Tests
use itu_operating_systems_an.Base.{
  ℕ, ◌+◌, ◌-◌, ◌%◌, ◌≤◌, ◌<◌, ◌≡◌, Bool, true, false, not, ◌&&◌, ◌||◌, List, [], ◌∷◌, ◌==◌,
  if◌then◌else◌, int_of,
}
use itu_operating_systems_an.Memlib.{Vm}
use itu_operating_systems_an.Memlib.Brk.{IsVm}
use itu_operating_systems_an.Malloc.Machine.{Machine}
use itu_operating_systems_an.Malloc.Links.Chain.{mem, IsFreeList}

pub record Block : Type 0 where
  pub size : ℕ
  pub used : Bool

-- The header and the footer at `p` say the size and the flag of the block.
abbrev pub BlockAt : (ℕ → ℕ) → ℕ → Block → Type 0
BlockAt w p b =
    (b.size % 8 ≡ 0)
    × (16 ≤ b.size)
    × (w (p - 4) ≡ b.size + int_of b.used)
    × (w (p + b.size - 8) ≡ b.size + int_of b.used)

-- from `p` on the blocks follow one another up to `e`
abbrev pub Tiled : (ℕ → ℕ) → ℕ → List Block → ℕ → Type 0
Tiled w p [] e = p ≡ e
Tiled w p (b ∷ bs) e = BlockAt w p b × Tiled w (p + b.size) bs e

-- from `p` back the blocks follow one another down to `first`
abbrev pub TiledBack : (ℕ → ℕ) → ℕ → List Block → ℕ → Type 0
TiledBack w first [] p = p ≡ first
TiledBack w first (b ∷ bs) p =
    (b.size ≤ p) × BlockAt w (p - b.size) b × TiledBack w first bs (p - b.size)

-- whether a free block starts at `a`
abbrev pub free_at : ℕ → ℕ → List Block → Bool
free_at a p [] = false
free_at a p (b ∷ bs) = a == p && not b.used || free_at a (p + b.size) bs

abbrev pub free_back : ℕ → ℕ → List Block → Bool
free_back a p [] = false
free_back a p (b ∷ bs) = a == p - b.size && not b.used || free_back a (p - b.size) bs

-- the pointer of the first block, behind 4 bytes of padding and the prologue
abbrev pub first_ptr : Vm → ℕ
first_ptr v = v.mem_start_brk + 16

-- The heap: the prologue and the epilogue, the blocks between them, and the free list, on which
-- stand exactly the free blocks.
pub record IsHeap (s : Machine) (before : List Block) (p : ℕ) (after : List Block) (xs : List ℕ)
    : Type 0 where
  pub vm : IsVm s.vm
  pub start : s.vm.mem_start_brk % 8 ≡ 0
  pub prologue_header : s.word (s.vm.mem_start_brk + 4) ≡ 9
  pub prologue_footer : s.word (s.vm.mem_start_brk + 8) ≡ 9
  pub epilogue : s.word (s.vm.mem_brk - 4) ≡ 1
  pub back : TiledBack s.word (first_ptr s.vm) before p
  pub front : Tiled s.word p after s.vm.mem_brk
  pub list : IsFreeList s xs
  pub listed : (a : ℕ) → mem a xs ≡ (free_back a p before || free_at a p after)
