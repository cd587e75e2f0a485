-- ===== src/Malloc/Tiling/Payload.antt =====
-- The payloads of the allocated blocks of a heap.
use itu_operating_systems_an.Base.{
  ℕ, ◌+◌, ◌-◌, ◌%◌, ◌≤◌, ◌<◌, ◌≡◌, ◌⊎◌, Bool, true, false, ◌&&◌, ◌||◌, List, [], ◌∷◌, arith, ◌==◌,
  Bool-cases, inl, inr, if◌then◌else◌, leb, ltb,
}
use itu_operating_systems_an.Malloc.Machine.{Machine}
use itu_operating_systems_an.Malloc.Links.Chain.{mem, is_link}
use itu_operating_systems_an.Malloc.Tiling.{
  Block, Tiled, TiledBack, free_at, free_back, first_ptr, IsHeap,
}
use itu_operating_systems_an.Malloc.Tiling.Range.{
  Tiled-le, TiledBack-le, free_at-range, free_back-range,
}
use itu_operating_systems_an.Malloc.Tiling.Give.{is_link-mem}
use itu_operating_systems_an.Malloc.Tiling.Near.{next_size, next_flag}
use itu_operating_systems_an.Malloc.Tiling.Coalesce.{past_free, joined_ptr}

-- whether the address `a` is in an allocated block, between its header and its footer
abbrev pub payload_at : ℕ → ℕ → List Block → Bool
payload_at a p [] = false
payload_at a p (b ∷ bs) =
    (b.used && (leb p a && ltb (a + 8) (p + b.size))) || payload_at a (p + b.size) bs

abbrev pub payload_back : ℕ → ℕ → List Block → Bool
payload_back a p [] = false
payload_back a p (b ∷ bs) =
    (b.used && (leb (p - b.size) a && ltb (a + 8) p)) || payload_back a (p - b.size) bs

module _ (w : ℕ → ℕ) where
  pub payload_at-range :
      (a p e : ℕ) (bs : List Block)
      → Tiled w p bs e
      → payload_at a p bs ≡ true
      → (p ≤ a) × (a + 8 < e)
  payload_at-range a p e [] t h = cc
  payload_at-range a p e (b ∷ bs) (k, t) h =
      ground (arith, Tiled-le w (p + b.size) e bs t, payload_at-range a (p + b.size) e bs t)

  pub payload_back-range :
      (a f p : ℕ) (bs : List Block)
      → f % 8 ≡ 0
      → TiledBack w f bs p
      → payload_back a p bs ≡ true
      → (f ≤ a) × (a + 8 < p)
  payload_back-range a f p [] l t h = cc
  payload_back-range a f p (b ∷ bs) l (m, k, t) h =
      ground
        (arith, TiledBack-le w f (p - b.size) bs l t, payload_back-range a f (p - b.size) bs l t)

  -- A free block is apart from the payloads.
  apart_at :
      (a x p e : ℕ) (bs : List Block)
      → Tiled w p bs e
      → payload_at a p bs ≡ true
      → free_at x p bs ≡ true
      → (a < x) ⊎ (x + 16 ≤ a)
  apart_at a x p e [] t h k = cc
  apart_at a x p e (b ∷ bs) (at, t) h k = elim (Bool-cases (payload_at a (p + b.size) bs)) [
    | inl i ↦ elim (Bool-cases (free_at x (p + b.size) bs)) [
      | inl j ↦ apart_at a x (p + b.size) e bs t i j
      | inr j ↦ inr (ground (arith, payload_at-range a (p + b.size) e bs t i))
    ]
    | inr i ↦ inl (ground (arith, free_at-range w x (p + b.size) e bs t))
  ]

  apart_back :
      (a x f p : ℕ) (bs : List Block)
      → f % 8 ≡ 0
      → TiledBack w f bs p
      → payload_back a p bs ≡ true
      → free_back x p bs ≡ true
      → (a < x) ⊎ (x + 16 ≤ a)
  apart_back a x f p [] l t h k = cc
  apart_back a x f p (b ∷ bs) l (m, at, t) h k =
      elim (Bool-cases (payload_back a (p - b.size) bs)) [
        | inl i ↦ elim (Bool-cases (free_back x (p - b.size) bs)) [
          | inl j ↦ apart_back a x f (p - b.size) bs l t i j
          | inr j ↦ inl (ground (arith, payload_back-range a f (p - b.size) bs l t i))
        ]
        | inr i ↦ inr (ground (arith, free_back-range w x f (p - b.size) bs l t))
      ]

abbrev pub payload : ℕ → List Block → ℕ → List Block → Bool
payload a before p after = payload_back a p before || payload_at a p after

module _ (s : Machine) (before : List Block) (p : ℕ) (after : List Block) (xs : List ℕ)
    (h : IsHeap s before p after xs) (a : ℕ) (in_use : payload a before p after ≡ true) where
  free_apart : (x : ℕ) → mem x xs ≡ true → (a < x) ⊎ (x + 16 ≤ a)
  free_apart x m =
      let even : first_ptr s.vm % 8 ≡ 0 = omega (arith, h.start) in
      let l = h.listed x in
      elim (Bool-cases (payload_back a p before)) [
        | inl i ↦ elim (Bool-cases (free_back x p before)) [
          | inl j ↦ apart_back s.word a x (first_ptr s.vm) p before even h.back i j
          | inr j ↦ inl (
              ground (
                arith,
                payload_back-range s.word a (first_ptr s.vm) p before even h.back i,
                free_at-range s.word x p s.vm.mem_brk after h.front,
              ))
        ]
        | inr i ↦ elim (Bool-cases (free_back x p before)) [
          | inl j ↦ inr (
              ground (
                arith,
                free_back-range s.word x (first_ptr s.vm) p before even h.back j,
                payload_at-range s.word a p s.vm.mem_brk after h.front,
              ))
          | inr j ↦ apart_at s.word a x p s.vm.mem_brk after h.front (ground arith) (ground arith)
        ]
      ]

  -- No link of the free list is in a payload.
  pub payload_clear : is_link a xs ≡ false
  payload_clear = elim (Bool-cases (is_link a xs)) [
    | inl m ↦ elim (is_link-mem a xs m) [
      | inl i ↦ ground (arith, free_apart a i)
      | inr i ↦ ground (arith, free_apart (a - 4) i.1)
    ]
    | inr m ↦ m
  ]

-- A free neighbour has no payload.
pub payload_back-past_free :
    (a p : ℕ) (before : List Block)
    → payload_back a p before ≡ payload_back a (joined_ptr before p) (past_free before)
payload_back-past_free a p [] = ground arith
payload_back-past_free a p (c ∷ before) = elim (Bool-cases c.used) [
  | inl used ↦ rw used (ground arith)
  | inr free ↦ rw free (ground arith)
]

pub payload_at-past_free :
    (a e : ℕ) (after : List Block)
    → payload_at a e after
      ≡ payload_at a (e + (if next_flag after == 0 then next_size after else 0)) (past_free after)
payload_at-past_free a e [] = ground arith
payload_at-past_free a e (c ∷ after) = elim (Bool-cases c.used) [
  | inl used ↦ ground arith
  | inr free ↦ ground arith
]
