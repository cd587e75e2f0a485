-- ===== src/Malloc/View/Fill.antt =====
-- Writes of a caller in the payload of a block in use.
use itu_operating_systems_an.Base.{
  ℕ, ◌+◌, ◌-◌, ◌≤◌, ◌<◌, ◌≡◌, ◌≢◌, refl, ◌∙◌, true, ◌⊎◌, List, [], ◌∷◌, arith, ◌==◌, Bool-cases,
  inl, inr,
}
use itu_operating_systems_an.Malloc.Machine.{Machine}
use itu_operating_systems_an.Malloc.Links.Chain.{mem, Linked-frame}
use itu_operating_systems_an.Malloc.Tiling.{Block, first_ptr, IsHeap}
use itu_operating_systems_an.Malloc.Tiling.Range.{IsHeap-bounds, free_at-range, free_back-range}
use itu_operating_systems_an.Malloc.Tiling.Move.{IsHeap-right}
use itu_operating_systems_an.Malloc.Tiling.Frame.{IsHeap-replace}
use itu_operating_systems_an.Malloc.View.{Holds, SamePayloads, assign}
use itu_operating_systems_an.Malloc.View.Zipper.{
  Holds-Found, zipper-Holds, zipper_says, zipper-Settled, Holds-apart,
}
use itu_operating_systems_an.Malloc.Bytes.{with_word}

-- The two memories differ at most in the payload of a block of `size` bytes at `p`.
abbrev pub WithinPayload : (ℕ → ℕ) → (ℕ → ℕ) → ℕ → ℕ → Type 0
WithinPayload w u p size = (a : ℕ) → (a < p) ⊎ (p + size ≤ a + 8) → u a ≡ w a

module _ (s : Machine) (before : List Block) (p : ℕ) (b : Block) (after : List Block) (xs : List ℕ)
    (h : IsHeap s before p (b ∷ after) xs) (used : b.used ≡ true) where
  -- a free block is not in the block in use
  free_apart : (a : ℕ) → mem a xs ≡ true → (a + 16 ≤ p) ⊎ (p + b.size ≤ a)
  free_apart a m =
      let even = h.start in
      let l = h.listed a in
      ground (
        arith,
        free_back-range s.word a (first_ptr s.vm) p before (omega (arith, h.start)) h.back,
        free_at-range s.word a (p + b.size) s.vm.mem_brk after h.front.1,
      )

  pub fill-IsHeap :
      (u : ℕ → ℕ) → WithinPayload s.word u p b.size → IsHeap (with_word s u) before p (b ∷ after) xs
  fill-IsHeap u same =
      let (even, least, head, foot) = h.front.0 in
      let (low, _, _, _) = IsHeap-bounds s before p (b ∷ after) xs h in
      IsHeap-replace s (with_word s u) before p (b ∷ after) (b ∷ before) b.size (b ∷ []) after xs xs
        h (IsHeap-right s before p b after xs h) refl
        (
          (
            even,
            least,
            same (p - 4) (inl (omega arith)) ∙ head,
            same (p + b.size - 8) (inr (omega arith)) ∙ foot,
          ),
          refl,
        )
        (λ a i j. same a (ground arith))
        (record {
          nodes = h.list.nodes;
          links = Linked-frame s.word u 0 s.free_list xs h.list.links (λ a m. (
            ground (arith, same a, free_apart a m),
            ground (arith, same (a + 4), free_apart a m),
          ));
        })
        h.listed

module _ (s : Machine) (table : ℕ → ℕ) (v : Holds s table) (p : ℕ) (in_use : 0 < table p)
    (u : ℕ → ℕ) (same : WithinPayload s.word u p (table p)) where
  -- Writes in the payload of a block in use leave a heap with the same table.
  pub fill-Holds : Holds (with_word s u) table
  fill-Holds =
      let f = Holds-Found s table v p in_use in
      let h = f.heap in
      zipper-Holds (with_word s u) f.before p (f.block ∷ f.after) v.list
        (fill-IsHeap s f.before p f.block f.after v.list h f.used u (rw (f.size) same)) table
        (zipper-Settled s f.before p (f.block ∷ f.after) v.list h table v)
        (zipper_says s f.before p (f.block ∷ f.after) v.list h table v)

  -- They change no other payload.
  pub fill-SamePayloads : SamePayloads (assign table p 0) s (with_word s u)
  fill-SamePayloads x a k l = elim (Bool-cases (x == p)) [
    | inl here ↦ absurd (ground arith)
    | inr other ↦
        let differ : x ≢ p = ground arith in
        let m : a + 8 < x + table x = ground arith in
        same a (
          ground (
            arith,
            Holds-apart s table v x p (omega arith) in_use,
            Holds-apart s table v p x in_use (omega arith),
          ))
  ]
