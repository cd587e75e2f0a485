-- ===== src/Malloc/View.antt =====
-- The heap as its callers see it: a table of the blocks in use.
pub mod Zipper
pub mod Alloc
pub mod Release
pub mod Fill
pub mod Full
pub mod Renew
pub mod Reuse
mod Tests
pub mod Resize
use itu_operating_systems_an.Base.{
  ℕ, ◌+◌, ◌-◌, ◌%◌, ◌≤◌, ◌<◌, ◌≡◌, refl, sym, ◌∙◌, subst, Bool, true, false, ◌&&◌, List, [], ◌∷◌,
  ◌++◌, arith, ◌==◌, Bool-cases, inl, inr, if◌then◌else◌, leb,
}
use itu_operating_systems_an.Malloc.Machine.{Machine}
use itu_operating_systems_an.Malloc.Tiling.{Block, Tiled, TiledBack, first_ptr, IsHeap}
use itu_operating_systems_an.Malloc.Tiling.Range.{Tiled-le, TiledBack-le, IsHeap-bounds}
use itu_operating_systems_an.Malloc.Tiling.Move.{IsHeap-right}
use itu_operating_systems_an.Malloc.Tiling.Payload.{payload_at, payload_back, payload}
use itu_operating_systems_an.Malloc.Tiling.Settled.{
  Apart, Settled, whole_row, Settled-row, row-Settled, IsHeap-row,
}

-- the size of the block in use at `a`, 0 if there is none
abbrev pub owned_at : ℕ → ℕ → List Block → ℕ
owned_at a p [] = 0
owned_at a p (b ∷ bs) =
    let rest = owned_at a (p + b.size) bs in if b.used && a == p then b.size else rest

abbrev pub owned_back : ℕ → ℕ → List Block → ℕ
owned_back a p [] = 0
owned_back a p (b ∷ bs) =
    let rest = owned_back a (p - b.size) bs in if b.used && a == p - b.size then b.size else rest

abbrev pub owned : ℕ → List Block → ℕ → List Block → ℕ
owned a before p after = owned_back a p before + owned_at a p after

-- The heap of the state has the blocks in use that the table says, and no two free neighbours.
pub record Holds (s : Machine) (table : ℕ → ℕ) : Type 0 where
  pub row : List Block
  pub list : List ℕ
  pub heap : IsHeap s [] (first_ptr s.vm) row list
  pub apart : Apart row
  pub says : (a : ℕ) → table a ≡ owned_at a (first_ptr s.vm) row

-- The words of the payloads of a table are the same in two states.
abbrev pub SamePayloads : (ℕ → ℕ) → Machine → Machine → Type 0
SamePayloads table s t = (x a : ℕ) → x ≤ a → a + 8 < x + table x → t.word a ≡ s.word a

module _ (w : ℕ → ℕ) where
  pub owned_at-range :
      (a p e : ℕ) (bs : List Block)
      → p % 8 ≡ 0
      → Tiled w p bs e
      → 0 < owned_at a p bs
      → (p ≤ a) × (a + owned_at a p bs ≤ e) × (16 ≤ owned_at a p bs) × (a % 8 ≡ 0)
  owned_at-range a p e [] l t h = absurd (omega arith)
  owned_at-range a p e (b ∷ bs) l (k, t) h =
      ground
        (arith, Tiled-le w (p + b.size) e bs t, owned_at-range a (p + b.size) e bs (omega arith) t)

  pub owned_back-range :
      (a f p : ℕ) (bs : List Block)
      → f % 8 ≡ 0
      → TiledBack w f bs p
      → 0 < owned_back a p bs
      → (f ≤ a) × (a + owned_back a p bs ≤ p)
  owned_back-range a f p [] l t h = absurd (omega arith)
  owned_back-range a f p (b ∷ bs) l (m, k, t) h =
      ground (arith, TiledBack-le w f (p - b.size) bs l t, owned_back-range a f (p - b.size) bs l t)

  -- the table does not depend on the pointer that the row is seen from
  pub owned_row :
      (a f p e : ℕ) (before after : List Block)
      → f % 8 ≡ 0
      → TiledBack w f before p
      → Tiled w p after e
      → owned_at a f (whole_row before after) ≡ owned a before p after
  owned_row a f p e [] after l t u = rw t (omega arith)
  owned_row a f p e (b ∷ before) after l (m, k, t) u =
      let same : p - b.size + b.size ≡ p = omega arith in
      let even = TiledBack-le w f (p - b.size) before l t in
      let ih = owned_row a f (p - b.size) e before (b ∷ after) l t (k, rw same u) in
      let u1 = owned_back-range a f (p - b.size) before l t in
      let u2 = owned_at-range a p e after (omega arith) u in ih ∙ ground arith

  -- A payload of the table is a payload of the row.
  pub owned_at-payload :
      (x a p e : ℕ) (bs : List Block)
      → Tiled w p bs e
      → x ≤ a
      → a + 8 < x + owned_at x p bs
      → payload_at a p bs ≡ true
  owned_at-payload x a p e [] t h k = absurd (omega arith)
  owned_at-payload x a p e (b ∷ bs) (m, t) h k =
      ground (arith, owned_at-payload x a (p + b.size) e bs t h)

  -- Two blocks of the table do not overlap.
  pub owned_at-apart :
      (x y p e : ℕ) (bs : List Block)
      → p % 8 ≡ 0
      → Tiled w p bs e
      → 0 < owned_at x p bs
      → 0 < owned_at y p bs
      → x < y
      → x + owned_at x p bs ≤ y
  owned_at-apart x y p e [] l t h k m = absurd (omega arith)
  owned_at-apart x y p e (b ∷ bs) l (n, t) h k m = ground (
    arith,
    owned_at-range x (p + b.size) e bs (omega arith) t,
    owned_at-range y (p + b.size) e bs (omega arith) t,
    owned_at-apart x y (p + b.size) e bs (omega arith) t,
  )

-- the table with another entry
abbrev pub assign : (ℕ → ℕ) → ℕ → ℕ → ℕ → ℕ
assign table q size a = if a == q then size else table a

-- The storage is the same, but for a break that has moved up by at most `more` bytes.
pub record SameStorage (s t : Machine) (more : ℕ) : Type 0 where
  pub start : t.vm.mem_start_brk ≡ s.vm.mem_start_brk
  pub end : t.vm.mem_max_addr ≡ s.vm.mem_max_addr
  pub low : s.vm.mem_brk ≤ t.vm.mem_brk
  pub high : t.vm.mem_brk ≤ s.vm.mem_brk + more
