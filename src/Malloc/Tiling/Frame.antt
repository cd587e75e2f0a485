-- ===== src/Malloc/Tiling/Frame.antt =====
-- What a heap keeps when a stretch of it is laid out anew.
use itu_operating_systems_an.Base.{
  ℕ, ◌+◌, ◌-◌, ◌≤◌, ◌<◌, ◌≡◌, sym, subst, ◌∙◌, ◌⊎◌, false, ◌||◌, List, [], ◌∷◌, ◌++◌, arith, inl,
  inr,
}
use itu_operating_systems_an.Malloc.Machine.{Machine}
use itu_operating_systems_an.Malloc.Links.Chain.{mem, is_link, IsFreeList}
use itu_operating_systems_an.Malloc.Heap.Detach.{is_link-edge}
use itu_operating_systems_an.Malloc.Tiling.{
  Block, Tiled, TiledBack, free_at, free_back, first_ptr, IsHeap,
}
use itu_operating_systems_an.Malloc.Tiling.Range.{free_at-range, IsHeap-bounds, edge}
use itu_operating_systems_an.Malloc.Tiling.Move.{
  IsHeap-left, IsHeap-right, IsHeap-rewind, IsHeap-forward,
}

-- The words of the footer before the pointer and of the header at it are no links.
pub edge_words :
    (s : Machine) (before : List Block) (p : ℕ) (after : List Block) (xs : List ℕ)
    → IsHeap s before p after xs
    → (is_link (p - 8) xs ≡ false) × (is_link (p - 4) xs ≡ false)
edge_words s before p after xs h =
    let (l, m, _, _) = IsHeap-bounds s before p after xs h in
    is_link-edge s.vm p xs h.list.nodes m (omega arith) (edge s before p after xs h)

module _ (s : Machine) (xs : List ℕ) (u : ℕ → ℕ) where
  pub back_frame :
      (before : List Block) (p : ℕ) (after : List Block)
      → IsHeap s before p after xs
      → ((a : ℕ) → is_link a xs ≡ false → a + 8 ≤ p → u a ≡ s.word a)
      → TiledBack u (first_ptr s.vm) before p
  back_frame [] p after h same = h.back
  back_frame (b ∷ before) p after h same =
      let left = IsHeap-left s before p b after xs h in
      let (fits, (even, least, hd, ft), _) = h.back in
      let (foot, _) = edge_words s (b ∷ before) p after xs h in
      let (_, head) = edge_words s before (p - b.size) (b ∷ after) xs left in
      let e : p - b.size + b.size - 8 ≡ p - 8 = omega arith in
      let deep = IsHeap-bounds s before (p - b.size) (b ∷ after) xs left in
      (
        fits,
        (
          even,
          least,
          same (p - b.size - 4) head (omega arith) ∙ hd,
          rw e (same (p - 8) foot (omega arith) ∙ rw e at ft),
        ),
        back_frame before (p - b.size) (b ∷ after) left (λ a k l. same a k (omega arith)),
      )

  pub front_frame :
      (before : List Block) (p : ℕ) (after : List Block)
      → IsHeap s before p after xs
      → ((a : ℕ) → is_link a xs ≡ false → p ≤ a + 4 → a + 8 ≤ s.vm.mem_brk → u a ≡ s.word a)
      → Tiled u p after s.vm.mem_brk
  front_frame before p [] h same = h.front
  front_frame before p (b ∷ after) h same =
      let right = IsHeap-right s before p b after xs h in
      let ((even, least, hd, ft), _) = h.front in
      let (_, head) = edge_words s before p (b ∷ after) xs h in
      let (foot, _) = edge_words s (b ∷ before) (p + b.size) after xs right in
      let (low, _, _, _) = IsHeap-bounds s before p (b ∷ after) xs h in
      let (_, _, high, _) = IsHeap-bounds s (b ∷ before) (p + b.size) after xs right in
      (
        (
          even,
          least,
          same (p - 4) head (omega arith) (omega arith) ∙ hd,
          same (p + b.size - 8) foot (omega arith) (omega arith) ∙ ft,
        ),
        front_frame (b ∷ before) (p + b.size) after right (λ a k l m. same a k (omega arith) m),
      )

-- Neither the prologue nor the epilogue is a link.
pub sentinel_words :
    (s : Machine) (before : List Block) (p : ℕ) (after : List Block) (xs : List ℕ)
    → IsHeap s before p after xs
    → (is_link (s.vm.mem_start_brk + 4) xs ≡ false)
      × (is_link (s.vm.mem_start_brk + 8) xs ≡ false)
      × (is_link (s.vm.mem_brk - 4) xs ≡ false)
sentinel_words s before p after xs h =
    let (row, first) = IsHeap-rewind s before p after xs h in
    let (line, last) = IsHeap-forward s before p after xs h in
    let start = s.vm.mem_start_brk in
    let out : mem (start + 8 - 8) xs ≡ false = ground (
      arith,
      first.listed (start + 8 - 8),
      free_at-range s.word (start + 8 - 8) (start + 16) s.vm.mem_brk row first.front,
    ) in
    let low =
      is_link-edge s.vm (start + 8) xs h.list.nodes (omega (arith, h.start)) (omega arith) out in
    let e1 : start + 8 - 4 ≡ start + 4 = omega arith in
    let e2 : start + 16 - 8 ≡ start + 8 = omega arith in
    (
      rw e1 at low.1,
      rw e2 at ((edge_words s [] (start + 16) row xs first).0),
      (edge_words s line s.vm.mem_brk [] xs last).1,
    )

Tiled-append :
    (w : ℕ → ℕ) (p q e : ℕ) (bs cs : List Block)
    → Tiled w p bs q
    → Tiled w q cs e
    → Tiled w p (bs ++ cs) e
Tiled-append w p q e [] cs t u = subst (λ r. Tiled w r cs e) (sym t) u
Tiled-append w p q e (b ∷ bs) cs (k, t) u = (k, Tiled-append w (p + b.size) q e bs cs t u)

-- `total` bytes from `q` on laid out as the blocks `mid`, the same words elsewhere but links, and a
-- free list of the free blocks there are then.
pub IsHeap-replace :
    (s t : Machine) (before : List Block) (q : ℕ) (rest other : List Block) (total : ℕ)
    (mid after : List Block) (xs zs : List ℕ)
    → IsHeap s before q rest xs
    → IsHeap s other (q + total) after xs
    → t.vm ≡ s.vm
    → Tiled t.word q mid (q + total)
    → ((a : ℕ) → is_link a xs ≡ false → (a + 4 < q) ⊎ (q + total ≤ a + 4) → t.word a ≡ s.word a)
    → IsFreeList t zs
    → ((a : ℕ) → mem a zs ≡ (free_back a q before || free_at a q (mid ++ after)))
    → IsHeap t before q (mid ++ after) zs
IsHeap-replace s t before q rest other total mid after xs zs h g e m same l listed =
    let (l1, l2, l3) = sentinel_words s before q rest xs h in
    let (low, _, _, _) = IsHeap-bounds s before q rest xs h in
    let (_, _, high, _) = IsHeap-bounds s other (q + total) after xs g in
    let start = s.vm.mem_start_brk in
    record {
      vm = rw e h.vm;
      start = rw e h.start;
      prologue_header = rw e (same (start + 4) l1 (inl (omega arith)) ∙ h.prologue_header);
      prologue_footer = rw e (same (start + 8) l2 (inl (omega arith)) ∙ h.prologue_footer);
      epilogue = rw e (same (s.vm.mem_brk - 4) l3 (inr (omega arith)) ∙ h.epilogue);
      back = rw e (back_frame s xs t.word before q rest h (λ a k i. same a k (inl (omega arith))));
      front = rw e (
          Tiled-append t.word q (q + total) s.vm.mem_brk mid after m (
            front_frame s xs t.word other (q + total) after g
              (λ a k i j. same a k (inr (omega arith)))));
      list = l;
      listed = listed;
    }
