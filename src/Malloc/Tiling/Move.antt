-- ===== src/Malloc/Tiling/Move.antt =====
-- The same heap from another block pointer, and from a block of the free list.
use itu_operating_systems_an.Base.{
  ℕ, ◌+◌, ◌-◌, ◌≡◌, subst, true, false, not, ◌&&◌, List, [], ◌∷◌, arith, ◌==◌, Bool-cases, inl, inr,
}
use itu_operating_systems_an.Malloc.Machine.{Machine}
use itu_operating_systems_an.Malloc.Links.Chain.{mem}
use itu_operating_systems_an.Malloc.Tiling.{Block, free_at, first_ptr, IsHeap}

module _ (s : Machine) (before : List Block) (p : ℕ) (b : Block) (after : List Block)
    (xs : List ℕ) where
  pub IsHeap-right : IsHeap s before p (b ∷ after) xs → IsHeap s (b ∷ before) (p + b.size) after xs
  IsHeap-right h =
      let e : p + b.size - b.size ≡ p = omega arith in
      record {
        vm = h.vm;
        start = h.start;
        prologue_header = h.prologue_header;
        prologue_footer = h.prologue_footer;
        epilogue = h.epilogue;
        back = (omega arith, rw e (h.front.0), rw e (h.back));
        front = h.front.1;
        list = h.list;
        listed = λ a. rw e (ground (arith, h.listed a));
      }

  pub IsHeap-left : IsHeap s (b ∷ before) p after xs → IsHeap s before (p - b.size) (b ∷ after) xs
  IsHeap-left h =
      let l = h.back.0 in
      let e : p - b.size + b.size ≡ p = omega arith in
      record {
        vm = h.vm;
        start = h.start;
        prologue_header = h.prologue_header;
        prologue_footer = h.prologue_footer;
        epilogue = h.epilogue;
        back = h.back.2;
        front = (h.back.1, rw e (h.front));
        list = h.list;
        listed = λ a. rw e (ground (arith, h.listed a));
      }

-- the heap from its first block on
pub IsHeap-rewind :
    (s : Machine) (before : List Block) (p : ℕ) (after : List Block) (xs : List ℕ)
    → IsHeap s before p after xs
    → (row : List Block) × IsHeap s [] (first_ptr s.vm) row xs
IsHeap-rewind s [] p after xs h = (after, subst (λ q. IsHeap s [] q after xs) h.back h)
IsHeap-rewind s (b ∷ before) p after xs h =
    IsHeap-rewind s before (p - b.size) (b ∷ after) xs (IsHeap-left s before p b after xs h)

-- the heap from a free block
pub IsHeap-find :
    (s : Machine) (x : ℕ) (before : List Block) (p : ℕ) (after : List Block) (xs : List ℕ)
    → IsHeap s before p after xs
    → free_at x p after ≡ true
    → (l : List Block) × (b : Block) × (r : List Block) × (b.used ≡ false) × IsHeap s l x (b ∷ r) xs
IsHeap-find s x before p [] xs h e = cc
IsHeap-find s x before p (b ∷ after) xs h e = elim (Bool-cases (x == p && not b.used)) [
  | inl here ↦
      let at : p ≡ x = ground arith in
      (before, b, after, ground arith, subst (λ q. IsHeap s before q (b ∷ after) xs) at h)
  | inr there ↦
      IsHeap-find s x (b ∷ before) (p + b.size) after xs (IsHeap-right s before p b after xs h)
        (ground arith)
]

-- the heap from a block of the free list
pub IsHeap-at :
    (s : Machine) (x : ℕ) (before : List Block) (p : ℕ) (after : List Block) (xs : List ℕ)
    → IsHeap s before p after xs
    → mem x xs ≡ true
    → (l : List Block) × (b : Block) × (r : List Block) × (b.used ≡ false) × IsHeap s l x (b ∷ r) xs
IsHeap-at s x before p after xs h m =
    let (row, g) = IsHeap-rewind s before p after xs h in
    IsHeap-find s x [] (first_ptr s.vm) row xs g (ground (arith, g.listed x))

-- the heap up to its end
pub IsHeap-forward :
    (s : Machine) (before : List Block) (p : ℕ) (after : List Block) (xs : List ℕ)
    → IsHeap s before p after xs
    → (row : List Block) × IsHeap s row s.vm.mem_brk [] xs
IsHeap-forward s before p [] xs h = (before, subst (λ q. IsHeap s before q [] xs) h.front h)
IsHeap-forward s before p (b ∷ after) xs h =
    IsHeap-forward s (b ∷ before) (p + b.size) after xs (IsHeap-right s before p b after xs h)
