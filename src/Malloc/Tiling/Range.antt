-- ===== src/Malloc/Tiling/Range.antt =====
-- Where the blocks of a row lie.
use itu_operating_systems_an.Base.{ℕ, ◌+◌, ◌-◌, ◌%◌, ◌≤◌, ◌≡◌, true, false, List, [], ◌∷◌, arith}
use itu_operating_systems_an.Malloc.Machine.{Machine}
use itu_operating_systems_an.Malloc.Links.Chain.{mem}
use itu_operating_systems_an.Malloc.Tiling.{
  Block, Tiled, TiledBack, free_at, free_back, first_ptr, IsHeap,
}

module _ (w : ℕ → ℕ) where
  pub Tiled-le : (p e : ℕ) (bs : List Block) → Tiled w p bs e → p ≤ e
  Tiled-le p e [] t = omega arith
  Tiled-le p e (b ∷ bs) (h, t) = omega (arith, Tiled-le (p + b.size) e bs t)

  pub Tiled-mod : (p e : ℕ) (bs : List Block) → p % 8 ≡ 0 → Tiled w p bs e → e % 8 ≡ 0
  Tiled-mod p e [] h t = omega arith
  Tiled-mod p e (b ∷ bs) h (k, t) = Tiled-mod (p + b.size) e bs (omega arith) t

  pub TiledBack-le :
      (f p : ℕ) (bs : List Block) → f % 8 ≡ 0 → TiledBack w f bs p → (f ≤ p) × (p % 8 ≡ 0)
  TiledBack-le f p [] h t = omega arith
  TiledBack-le f p (b ∷ bs) h (l, k, t) = omega (arith, TiledBack-le f (p - b.size) bs h t)

  pub free_at-range :
      (a p e : ℕ) (bs : List Block)
      → Tiled w p bs e
      → free_at a p bs ≡ true
      → (p ≤ a) × (a + 16 ≤ e)
  free_at-range a p e [] t h = cc
  free_at-range a p e (b ∷ bs) (k, t) h =
      ground (arith, Tiled-le (p + b.size) e bs t, free_at-range a (p + b.size) e bs t)

  pub free_back-range :
      (a f p : ℕ) (bs : List Block)
      → f % 8 ≡ 0
      → TiledBack w f bs p
      → free_back a p bs ≡ true
      → (f ≤ a) × (a + 16 ≤ p)
  free_back-range a f p [] l t h = cc
  free_back-range a f p (b ∷ bs) l (m, k, t) h =
      ground (arith, TiledBack-le f (p - b.size) bs l t, free_back-range a f (p - b.size) bs l t)

module _ (s : Machine) (before : List Block) (p : ℕ) (after : List Block) (xs : List ℕ)
    (h : IsHeap s before p after xs) where
  first_mod : first_ptr s.vm % 8 ≡ 0
  first_mod = omega (arith, h.start)

  -- where the pointer stands
  pub IsHeap-bounds :
      (first_ptr s.vm ≤ p) × (p % 8 ≡ 0) × (p ≤ s.vm.mem_brk) × (s.vm.mem_brk % 8 ≡ 0)
  IsHeap-bounds =
      let b = TiledBack-le s.word (first_ptr s.vm) p before first_mod h.back in
      (
        b.0,
        b.1,
        Tiled-le s.word p s.vm.mem_brk after h.front,
        Tiled-mod s.word p s.vm.mem_brk after b.1 h.front,
      )

  -- no free block starts where the footer before the pointer is
  pub edge : mem (p - 8) xs ≡ false
  edge =
      let b = IsHeap-bounds in
      ground (
        arith,
        h.listed (p - 8),
        free_back-range s.word (p - 8) (first_ptr s.vm) p before first_mod h.back,
        free_at-range s.word (p - 8) p s.vm.mem_brk after h.front,
      )
