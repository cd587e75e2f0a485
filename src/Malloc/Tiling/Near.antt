-- ===== src/Malloc/Tiling/Near.antt =====
-- The neighbours of a free block of the heap, as `coalesce` sees them.
use itu_operating_systems_an.Base.{
  ℕ, ◌+◌, ◌-◌, ◌%◌, ◌≤◌, ◌<◌, ◌≡◌, refl, ◌∙◌, true, false, List, [], ◌∷◌, arith, int_of,
}
use itu_operating_systems_an.Malloc.Machine.{Machine}
use itu_operating_systems_an.Malloc.Links.Chain.{mem}
use itu_operating_systems_an.Malloc.Heap.Around.{Spot, Tags, Ends}
use itu_operating_systems_an.Malloc.Heap.Detach.{Listed}
use itu_operating_systems_an.Malloc.Tiling.{Block, IsHeap}
use itu_operating_systems_an.Malloc.Tiling.Range.{free_at-range, IsHeap-bounds, edge}
use itu_operating_systems_an.Malloc.Tiling.Move.{IsHeap-left, IsHeap-right}

-- the size and the flag of the block before and of the block behind; the prologue and the epilogue
-- are allocated
abbrev pub prev_size : List Block → ℕ
prev_size [] = 8
prev_size (c ∷ cs) = c.size

abbrev pub prev_flag : List Block → ℕ
prev_flag [] = 1
prev_flag (c ∷ cs) = int_of c.used

abbrev pub next_size : List Block → ℕ
next_size [] = 0
next_size (c ∷ cs) = c.size

abbrev pub next_flag : List Block → ℕ
next_flag [] = 1
next_flag (c ∷ cs) = int_of c.used

abbrev pub HeapSpot : Machine → List Block → ℕ → Block → List Block → Type 0
HeapSpot s before p b after =
    Spot s.vm (prev_size before) (prev_flag before) p b.size (next_size after) (next_flag after)

module _ (s : Machine) (p : ℕ) (b : Block) (xs : List ℕ) where
  prev_fits :
      (before after : List Block)
      → IsHeap s before p (b ∷ after) xs
      → (prev_size before % 8 ≡ 0)
        × (8 ≤ prev_size before)
        × ((prev_flag before ≡ 0) → 16 ≤ prev_size before)
        × (s.vm.mem_start_brk + 8 + prev_size before ≤ p)
  prev_fits [] after h = (refl, omega arith, λ z. absurd (omega arith), omega (arith, h.back))
  prev_fits (c ∷ before) after h =
      let (l, k, t) = h.back in
      let (low, _, _, _) =
        IsHeap-bounds s before (p - c.size) (c ∷ b ∷ after) xs
          (IsHeap-left s before p c (b ∷ after) xs h) in
      (k.0, omega arith, λ z. k.1, omega arith)

  next_fits :
      (before after : List Block)
      → IsHeap s before p (b ∷ after) xs
      → (next_size after % 8 ≡ 0)
        × ((next_flag after ≡ 0) → 16 ≤ next_size after)
        × (p + b.size + next_size after ≤ s.vm.mem_brk)
  next_fits before [] h = (refl, λ z. absurd (omega arith), omega (arith, h.front.1))
  next_fits before (c ∷ after) h =
      let right = IsHeap-right s before p b (c ∷ after) xs h in
      let (_, _, high, _) =
        IsHeap-bounds s (c ∷ b ∷ before) (p + b.size + c.size) after xs
          (IsHeap-right s (b ∷ before) (p + b.size) c after xs right) in
      (right.front.0.0, λ z. right.front.0.1, high)

  prev_flag-lt : (before : List Block) → prev_flag before < 2
  prev_flag-lt [] = omega arith
  prev_flag-lt (c ∷ before) = ground arith

  next_flag-lt : (after : List Block) → next_flag after < 2
  next_flag-lt [] = omega arith
  next_flag-lt (c ∷ after) = ground arith

  pub heap-Spot :
      (before after : List Block) → IsHeap s before p (b ∷ after) xs → HeapSpot s before p b after
  heap-Spot before after h =
      let (pe, pl, pf, pb) = prev_fits before after h in
      let (ne, nf, nb) = next_fits before after h in
      let (_, al, _, _) = IsHeap-bounds s before p (b ∷ after) xs h in
      let v = h.vm in
      record {
        aligned = al;
        whole_prev = pe;
        whole = h.front.0.0;
        whole_next = ne;
        least_prev = pl;
        least = h.front.0.1;
        flag_prev = prev_flag-lt before;
        flag_next = next_flag-lt after;
        free_prev = pf;
        free_next = nf;
        above = pb;
        below = omega (arith, v.high);
        limit = v.room;
      }

  prev_words :
      (before after : List Block)
      → IsHeap s before p (b ∷ after) xs
      → (s.word (p - 8) ≡ prev_size before + prev_flag before)
        × (s.word (p - prev_size before - 4) ≡ prev_size before + prev_flag before)
  prev_words [] after h =
      let e = h.back in
      let e1 : p - 8 ≡ s.vm.mem_start_brk + 8 = omega arith in
      let e2 : p - 8 - 4 ≡ s.vm.mem_start_brk + 4 = omega arith in
      (rw e1 h.prologue_footer, rw e2 h.prologue_header)
  prev_words (c ∷ before) after h =
      let (l, (_, _, head, foot), _) = h.back in
      let e : p - c.size + c.size - 8 ≡ p - 8 = omega arith in (rw e at foot, head)

  pub next_words :
      (before after : List Block)
      → IsHeap s before p (b ∷ after) xs
      → (s.word (p + b.size - 4) ≡ next_size after + next_flag after)
        × ((next_flag after ≡ 0) → s.word (p + b.size + next_size after - 8) ≡ next_size after)
  next_words before [] h =
      let e : p + b.size ≡ s.vm.mem_brk = h.front.1 in (rw e h.epilogue, λ z. absurd (omega arith))
  next_words before (c ∷ after) h =
      let (_, ((_, _, head, foot), _)) = h.front in (head, λ z. foot ∙ omega arith)

  module _ (before after : List Block) (h : IsHeap s before p (b ∷ after) xs)
      (free : b.used ≡ false) where
    pub heap-Tags :
        Tags s.word
          (prev_size before)
          (prev_flag before)
          p
          b.size
          (next_size after)
          (next_flag after)
    heap-Tags =
        let (pf, _) = prev_words before after h in
        let (nh, nf) = next_words before after h in
        record {
          prev_footer = pf;
          header = h.front.0.2 ∙ ground arith;
          next_header = nh;
          next_footer = nf;
        }

    pub heap-Ends : Ends s.word (prev_size before) (prev_flag before) p b.size
    heap-Ends = record {
      prev_header = (prev_words before after h).1;
      footer = h.front.0.3 ∙ ground arith;
    }

  prev_listed :
      (before after : List Block)
      → IsHeap s before p (b ∷ after) xs
      → ((prev_flag before ≡ 0) → mem (p - prev_size before) xs ≡ true)
        × (mem (p - prev_size before - 8) xs ≡ false)
  prev_listed [] after h =
      let e : p - 8 - 8 ≡ s.vm.mem_start_brk = omega (arith, h.back) in
      (
        (λ z. absurd (omega arith)),
        rw e (
            ground (
              arith,
              h.listed s.vm.mem_start_brk,
              free_at-range s.word s.vm.mem_start_brk p s.vm.mem_brk (b ∷ after) h.front,
            )),
      )
  prev_listed (c ∷ before) after h = (
    (λ z. ground (arith, h.listed (p - c.size))),
    edge s before (p - c.size) (c ∷ b ∷ after) xs (IsHeap-left s before p c (b ∷ after) xs h),
  )

  next_listed :
      (before after : List Block)
      → IsHeap s before p (b ∷ after) xs
      → ((next_flag after ≡ 0) → mem (p + b.size) xs ≡ true)
        × ((next_flag after ≡ 0) → mem (p + b.size + next_size after - 8) xs ≡ false)
  next_listed before [] h = ((λ z. absurd (omega arith)), (λ z. absurd (omega arith)))
  next_listed before (c ∷ after) h =
      let right = IsHeap-right s before p b (c ∷ after) xs h in
      (
        (λ z. ground (arith, h.listed (p + b.size))),
        (λ z.
            edge s (c ∷ b ∷ before) (p + b.size + c.size) after xs
              (IsHeap-right s (b ∷ before) (p + b.size) c after xs right)),
      )

  pub heap-Listed :
      (before after : List Block)
      → IsHeap s before p (b ∷ after) xs
      → b.used ≡ false
      → Listed s xs
          (prev_size before)
          (prev_flag before)
          p
          b.size
          (next_size after)
          (next_flag after)
  heap-Listed before after h free =
      let (pin, pedge) = prev_listed before after h in
      let (nin, nedge) = next_listed before after h in
      record {
        list = h.list;
        here = ground (arith, h.listed p);
        prev_in = pin;
        next_in = nin;
        edge_prev = pedge;
        edge = edge s before p (b ∷ after) xs h;
        edge_next =
            edge s (b ∷ before) (p + b.size) after xs (IsHeap-right s before p b after xs h);
        edge_last = nedge;
      }
