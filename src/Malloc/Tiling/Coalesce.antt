-- ===== src/Malloc/Tiling/Coalesce.antt =====
-- The blocks that `coalesce` makes one: the free block and its free neighbours.
use itu_operating_systems_an.Base.{
  ℕ, ◌+◌, ◌-◌, ◌≤◌, ◌≡◌, refl, sym, subst, ◌∙◌, Bool, true, false, not, ◌&&◌, ◌||◌, List, [], ◌∷◌,
  arith, ◌==◌, Bool-cases, inl, inr, if◌then◌else◌,
}
use itu_operating_systems_an.Malloc.Machine.{Machine}
use itu_operating_systems_an.Malloc.Links.Chain.{mem}
use itu_operating_systems_an.Malloc.Heap.Detach.{detached}
use itu_operating_systems_an.Malloc.Heap.Marked.{merged_ptr, merged_size}
use itu_operating_systems_an.Malloc.Heap.Coalesce.{mem-detached}
use itu_operating_systems_an.Malloc.Tiling.{Block, free_at, free_back, first_ptr, IsHeap}
use itu_operating_systems_an.Malloc.Tiling.Range.{free_at-range, free_back-range, IsHeap-bounds}
use itu_operating_systems_an.Malloc.Tiling.Move.{IsHeap-left, IsHeap-right}
use itu_operating_systems_an.Malloc.Tiling.Near.{
  prev_size, prev_flag, next_size, next_flag, heap-Spot,
}

-- the blocks beyond a free neighbour
abbrev pub past_free : List Block → List Block
past_free [] = []
past_free (c ∷ cs) = if c.used then c ∷ cs else cs

-- the free block after `coalesce`: its pointer and its size
abbrev pub joined_ptr : List Block → ℕ → ℕ
joined_ptr before p = merged_ptr (prev_size before) (prev_flag before) p

abbrev pub joined_size : List Block → ℕ → List Block → ℕ
joined_size before size after =
    merged_size (prev_size before) (prev_flag before) size (next_size after) (next_flag after)

abbrev pub joined_block : List Block → ℕ → List Block → Block
joined_block before size after = record { size = joined_size before size after; used = false }

pub IsHeap-cast :
    (s : Machine) (l l' : List Block) (p p' : ℕ) (r r' : List Block) (xs : List ℕ)
    → l ≡ l'
    → p ≡ p'
    → r ≡ r'
    → IsHeap s l p r xs
    → IsHeap s l' p' r' xs
IsHeap-cast s l l' p p' r r' xs e1 e2 e3 h =
    subst (λ a. IsHeap s a p' r' xs) e1
      (subst (λ a. IsHeap s l a r' xs) e2 (subst (λ a. IsHeap s l p a xs) e3 h))

module _ (s : Machine) (p : ℕ) (b : Block) (xs : List ℕ) where
  -- the heap from the pointer of the joined block, and from its end
  pub joined_left :
      (before after : List Block)
      → IsHeap s before p (b ∷ after) xs
      → (rest : List Block) × IsHeap s (past_free before) (joined_ptr before p) rest xs
  joined_left [] after h = (b ∷ after, h)
  joined_left (c ∷ before) after h = elim (Bool-cases c.used) [
    | inl used ↦ (
      b ∷ after,
      IsHeap-cast s (c ∷ before) (past_free (c ∷ before)) p (joined_ptr (c ∷ before) p) (b ∷ after)
          (b ∷ after) xs (ground arith) (ground arith) refl h,
    )
    | inr free ↦ (
      c ∷ b ∷ after,
      IsHeap-cast s before (past_free (c ∷ before)) (p - c.size) (joined_ptr (c ∷ before) p)
          (c ∷ b ∷ after) (c ∷ b ∷ after) xs (ground arith) (ground arith) refl
          (IsHeap-left s before p c (b ∷ after) xs h),
    )
  ]

  pub joined_end :
      (before after : List Block)
      → IsHeap s before p (b ∷ after) xs
      → joined_ptr before p + joined_size before b.size after
        ≡ p + b.size + (if next_flag after == 0 then next_size after else 0)
  joined_end [] after h = ground arith
  joined_end (c ∷ before) after h = let l = h.back.0 in ground arith

  pub joined_right :
      (before after : List Block)
      → IsHeap s before p (b ∷ after) xs
      → (other : List Block) × IsHeap s other
          (joined_ptr before p + joined_size before b.size after)
          (past_free after)
          xs
  joined_right before [] h =
      let e = joined_end before [] h in
      (
        b ∷ before,
        IsHeap-cast s (b ∷ before) (b ∷ before) (p + b.size)
            (joined_ptr before p + joined_size before b.size []) [] [] xs refl (omega arith) refl
            (IsHeap-right s before p b [] xs h),
      )
  joined_right before (c ∷ after) h =
      let e = joined_end before (c ∷ after) h in
      let right = IsHeap-right s before p b (c ∷ after) xs h in
      let end = joined_ptr before p + joined_size before b.size (c ∷ after) in
      elim (Bool-cases c.used) [
        | inl used ↦
            let at : p + b.size ≡ end = sym (e ∙ ground arith) in
            (
              b ∷ before,
              IsHeap-cast s (b ∷ before) (b ∷ before) (p + b.size) end (c ∷ after)
                  (past_free (c ∷ after)) xs refl at (ground arith) right,
            )
        | inr free ↦
            let at : p + b.size + c.size ≡ end = sym (e ∙ ground arith) in
            (
              c ∷ b ∷ before,
              IsHeap-cast s (c ∷ b ∷ before) (c ∷ b ∷ before) (p + b.size + c.size) end after
                  (past_free (c ∷ after)) xs refl at (ground arith)
                  (IsHeap-right s (b ∷ before) (p + b.size) c after xs right),
            )
      ]

free_back-past_free :
    (a p : ℕ) (before : List Block)
    → free_back a p before ≡ (
        prev_flag before == 0 && a == p - prev_size before
        || free_back a (joined_ptr before p) (past_free before))
free_back-past_free a p [] = ground arith
free_back-past_free a p (c ∷ before) = elim (Bool-cases c.used) [
  | inl used ↦ rw used (ground arith)
  | inr free ↦ rw free (ground arith)
]

free_at-past_free :
    (a e : ℕ) (after : List Block)
    → free_at a e after ≡ (
        next_flag after == 0 && a == e
        || free_at a (e + (if next_flag after == 0 then next_size after else 0)) (past_free after))
free_at-past_free a e [] = ground arith
free_at-past_free a e (c ∷ after) = elim (Bool-cases c.used) [
  | inl used ↦ ground arith
  | inr free ↦ ground arith
]

-- the list of the joined block, in the case of each address
joined_bool :
    (a p q e psize size nsize : ℕ) (free_prev free_next back front mx ml : Bool)
    → q ≡ (if free_prev then p - psize else p)
    → e ≡ p + size + (if free_next then nsize else 0)
    → psize + 8 ≤ p
    → 16 ≤ size
    → 8 ≤ psize
    → ((free_next ≡ true) → 16 ≤ nsize)
    → mx
      ≡ ((free_prev && a == p - psize || back) || (a == p || (free_next && a == p + size || front)))
    → ml ≡ (
        mx
        && (not (free_next && a == p + size)
            && (not (free_prev && a == p - psize) && not (a == p))))
    → ((back ≡ true) → a + 16 ≤ q)
    → ((front ≡ true) → e ≤ a)
    → (a == q || ml) ≡ (back || (a == q || front))
joined_bool a p q e psize size nsize true true back front mx ml h0 h1 h2 h3 h4 h5 h6 h7 h8 h9 =
    ground arith
joined_bool a p q e psize size nsize true false back front mx ml h0 h1 h2 h3 h4 h5 h6 h7 h8 h9 =
    ground arith
joined_bool a p q e psize size nsize false true back front mx ml h0 h1 h2 h3 h4 h5 h6 h7 h8 h9 =
    ground arith
joined_bool a p q e psize size nsize false false back front mx ml h0 h1 h2 h3 h4 h5 h6 h7 h8 h9 =
    ground arith

module _ (s : Machine) (before : List Block) (p : ℕ) (b : Block) (after : List Block) (xs : List ℕ)
    (h : IsHeap s before p (b ∷ after) xs) (free : b.used ≡ false) where
  abbrev pub left_list : List ℕ
  left_list = detached (prev_size before) (prev_flag before) p b.size (next_flag after) xs

  pub joined_listed :
      (a : ℕ)
      → mem a (joined_ptr before p ∷ left_list) ≡ (
          free_back a (joined_ptr before p) (past_free before)
          || free_at a (joined_ptr before p) (joined_block before b.size after ∷ past_free after))
  joined_listed a =
      let sp = heap-Spot s p b xs before after h in
      let q = joined_ptr before p in
      let e = joined_end s p b xs before after h in
      let (_, l) = joined_left s p b xs before after h in
      let (_, r) = joined_right s p b xs before after h in
      let (low, even, _, _) = IsHeap-bounds s (past_free before) q _ xs l in
      let k = h.start in
      let m : mem a xs ≡ (free_back a p before || (a == p || free_at a (p + b.size) after)) =
        ground (arith, h.listed a) in
      let d =
        mem-detached s.vm a (prev_size before) (prev_flag before) p b.size (next_flag after) xs
          h.list.nodes in
      let i = free_back-past_free a p before in
      let j : free_at a (p + b.size) after ≡ (
          next_flag after == 0 && a == p + b.size
          || free_at a (q + joined_size before b.size after) (past_free after)) =
        rw e (free_at-past_free a (p + b.size) after) in
      let u = free_back-range s.word a (first_ptr s.vm) q (past_free before) (omega arith) l.back in
      let v =
        free_at-range s.word a (q + joined_size before b.size after) s.vm.mem_brk (past_free after)
          r.front in
      let same : (a == q && true
            || free_at a (q + joined_size before b.size after) (past_free after))
          ≡ (a == q || free_at a (q + joined_size before b.size after) (past_free after)) =
        ground arith in
      rw same (
        joined_bool a p q (q + joined_size before b.size after) (prev_size before) b.size
          (next_size after) (prev_flag before == 0) (next_flag after == 0)
          (free_back a q (past_free before))
          (free_at a (q + joined_size before b.size after) (past_free after)) (mem a xs)
          (mem a left_list) refl e (omega (arith, sp.above)) sp.least sp.least_prev
          (λ z. sp.free_next (ground arith)) (rw (sym i, sym j) m) d (λ z. (u z).1) (λ z. (v z).0))
