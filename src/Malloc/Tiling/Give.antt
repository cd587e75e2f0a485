-- ===== src/Malloc/Tiling/Give.antt =====
-- `place` on a stretch of a heap that is off the free list.
use itu_operating_systems_an.Base.{
  ℕ, ◌+◌, ◌-◌, ◌%◌, ◌≤◌, ◌<◌, ◌≡◌, refl, ◌∙◌, ◌⊎◌, true, false, ◌||◌, List, [], ◌∷◌, ◌++◌, arith,
  Bool-cases, inl, inr, if◌then◌else◌, leb,
}
use itu_operating_systems_an.Malloc.Machine.{Machine, done}
use itu_operating_systems_an.Malloc.Block.{size_of}
use itu_operating_systems_an.Malloc.Links.Chain.{mem, is_link, IsFreeList}
use itu_operating_systems_an.Malloc.Heap.{place}
use itu_operating_systems_an.Malloc.Heap.Clear.{Clear, Outside}
use itu_operating_systems_an.Malloc.Heap.Headers.{IsBlock}
use itu_operating_systems_an.Malloc.Heap.Split.{place-IsSplit}
use itu_operating_systems_an.Malloc.Heap.Whole.{place_whole}
use itu_operating_systems_an.Malloc.Tiling.{Block, Tiled, free_at, free_back, first_ptr, IsHeap}
use itu_operating_systems_an.Malloc.Tiling.Range.{free_at-range, free_back-range, IsHeap-bounds}
use itu_operating_systems_an.Malloc.Tiling.Frame.{IsHeap-replace}

-- what `place` makes of `cur` bytes
abbrev pub placed : ℕ → ℕ → List Block
placed size cur =
    if leb (size + 16) cur
    then record { size = size; used = true } ∷ record { size = cur - size; used = false } ∷ []
    else record { size = cur; used = true } ∷ []

-- a link is one of the two words of a block of the list
pub is_link-mem :
    (a : ℕ) (xs : List ℕ)
    → is_link a xs ≡ true
    → (mem a xs ≡ true) ⊎ ((4 ≤ a) × (mem (a - 4) xs ≡ true))
is_link-mem a [] h = cc
is_link-mem a (x ∷ xs) h = ground (arith, is_link-mem a xs)

pub IsBlock-vm : (s t : Machine) (p n : ℕ) → t.vm ≡ s.vm → IsBlock s p n → IsBlock t p n
IsBlock-vm s t p n e b = record {
  aligned = b.aligned;
  above = rw e b.above;
  below = rw e b.below;
  limit = rw e b.limit;
  whole = b.whole;
  least = b.least;
}

-- `cur` bytes from `p` on that `place` is given: in `u` their header says so, the free list has the
-- blocks outside, and no word outside but a link differs from the heap of `s`.
pub record Offered (s u : Machine) (before : List Block) (p cur : ℕ) (after : List Block)
    (xs ys : List ℕ) : Type 0 where
  pub rest : List Block
  pub other : List Block
  pub start : IsHeap s before p rest xs
  pub end : IsHeap s other (p + cur) after xs
  pub block : IsBlock s p cur
  pub same_vm : u.vm ≡ s.vm
  pub header : size_of (u.word (p - 4)) ≡ cur
  pub list : IsFreeList u ys
  pub listed : (a : ℕ) → mem a ys ≡ (free_back a p before || free_at a (p + cur) after)
  pub fewer : (a : ℕ) → is_link a xs ≡ false → is_link a ys ≡ false
  pub beside : (a : ℕ) → is_link a xs ≡ false → Outside p cur a → u.word a ≡ s.word a

-- A run of `place` that leaves a heap, and changes no word outside but links.
pub record Given (s u : Machine) (before : List Block) (p cur : ℕ) (after : List Block)
    (xs : List ℕ) (size : ℕ) : Type 0 where
  pub last : Machine
  pub left : List ℕ
  pub places : place p size u ≡ done tt last
  pub same_vm : last.vm ≡ s.vm
  pub heap : IsHeap last before p (placed size cur ++ after) left
  pub beside : (a : ℕ) → is_link a xs ≡ false → Outside p cur a → last.word a ≡ s.word a
  pub inside : (a : ℕ) → p ≤ a → a + 8 < p + size → last.word a ≡ u.word a

module _ (s u : Machine) (before : List Block) (p cur : ℕ) (after : List Block) (xs ys : List ℕ)
    (o : Offered s u before p cur after xs ys) where
  offered-Clear : Clear p cur ys
  offered-Clear a i j =
      let (low, even, _, _) = IsHeap-bounds s before p o.rest xs o.start in
      let k = o.block.least in
      let back = λ (x : ℕ).
        free_back-range s.word x (first_ptr s.vm) p before (omega (arith, o.start.start))
          o.start.back in
      let front = λ (x : ℕ). free_at-range s.word x (p + cur) s.vm.mem_brk after o.end.front in
      elim (Bool-cases (is_link a ys)) [
        | inl m ↦ elim (is_link-mem a ys m) [
          | inl here ↦ ground (arith, o.listed a, back a, front a)
          | inr there ↦ ground (arith, o.listed (a - 4), back (a - 4), front (a - 4))
        ]
        | inr m ↦ m
      ]

  module _ (size : ℕ) (even : size % 8 ≡ 0) (low : 16 ≤ size) where
    give_split : size + 16 ≤ cur → Given s u before p cur after xs size
    give_split high =
        let k = o.block in
        let (t, run, list, (w1, w2, w3, w4), vm, out, keep) =
          place-IsSplit u p cur size ys (IsBlock-vm s u p cur o.same_vm k) o.header even low high
            o.list offered-Clear in
        let front : Block = record { size = size; used = true } in
        let rest : Block = record { size = cur - size; used = false } in
        let e : p + size + (cur - size) ≡ p + cur = omega arith in
        let is : placed size cur ≡ front ∷ rest ∷ [] = ground arith in
        let mid : Tiled t.word p (front ∷ rest ∷ []) (p + cur) = (
          (even, low, w1, w2),
          ((omega (arith, k.whole), omega arith, w3 ∙ omega arith, rw e (w4 ∙ omega arith)), e),
        ) in
        let same : (a : ℕ) → is_link a xs ≡ false → Outside p cur a → t.word a ≡ s.word a =
          λ a i j. out a j (o.fewer a i) ∙ o.beside a i j in
        record {
          last = t;
          left = (p + size) ∷ ys;
          places = run;
          same_vm = vm ∙ o.same_vm;
          heap = rw is (
              IsHeap-replace s t before p o.rest o.other cur (front ∷ rest ∷ []) after xs
                ((p + size) ∷ ys) o.start o.end (vm ∙ o.same_vm) mid same list
                (λ a. rw e (ground (arith, o.listed a))));
          beside = same;
          inside = keep;
        }

    give_whole : size ≤ cur → cur < size + 16 → Given s u before p cur after xs size
    give_whole fits tight =
        let k = o.block in
        let (t, run, list, w1, w2, vm, out, keep) =
          place_whole u p cur size ys (IsBlock-vm s u p cur o.same_vm k) o.header fits tight o.list
            offered-Clear in
        let all : Block = record { size = cur; used = true } in
        let is : placed size cur ≡ all ∷ [] = ground arith in
        let mid : Tiled t.word p (all ∷ []) (p + cur) = ((k.whole, k.least, w1, w2), refl) in
        let same : (a : ℕ) → is_link a xs ≡ false → Outside p cur a → t.word a ≡ s.word a =
          λ a i j. out a j ∙ o.beside a i j in
        record {
          last = t;
          left = ys;
          places = run;
          same_vm = vm ∙ o.same_vm;
          heap = rw is (
              IsHeap-replace s t before p o.rest o.other cur (all ∷ []) after xs ys o.start o.end
                (vm ∙ o.same_vm) mid same list (λ a. ground (arith, o.listed a)));
          beside = same;
          inside = λ a i j. keep a i (omega arith);
        }

    pub give_lem : size ≤ cur → Given s u before p cur after xs size
    give_lem fits = elim (Bool-cases (leb (size + 16) cur)) [
      | inl high ↦ give_split (ground arith)
      | inr tight ↦ give_whole fits (ground arith)
    ]
