-- ===== src/Malloc/View/Zipper.antt =====
-- Between the table of a heap and the heap seen from one of its blocks.
use itu_operating_systems_an.Base.{
  ℕ, ◌+◌, ◌-◌, ◌%◌, ◌≤◌, ◌<◌, ◌≡◌, refl, sym, ◌∙◌, subst, true, ◌&&◌, List, [], ◌∷◌, ◌++◌, arith,
  ◌==◌, Bool-cases, inl, inr, if◌then◌else◌, leb,
}
use itu_operating_systems_an.Malloc.Machine.{Machine}
use itu_operating_systems_an.Malloc.Tiling.{Block, TiledBack, first_ptr, IsHeap}
use itu_operating_systems_an.Malloc.Tiling.Move.{IsHeap-right}
use itu_operating_systems_an.Malloc.Tiling.Payload.{payload_at, payload}
use itu_operating_systems_an.Malloc.Tiling.Coalesce.{past_free, joined_ptr}
use itu_operating_systems_an.Malloc.Tiling.Give.{placed}
use itu_operating_systems_an.Malloc.Tiling.Near.{next_size, next_flag}
use itu_operating_systems_an.Malloc.Tiling.Settled.{
  Apart, Settled, whole_row, Settled-row, row-Settled, IsHeap-row, Tiled-unique,
}
use itu_operating_systems_an.Malloc.View.{
  owned_at, owned_back, owned, Holds, owned_at-range, owned_row, owned_at-payload, owned_at-apart,
}

module _ (s : Machine) (before : List Block) (p : ℕ) (after : List Block) (xs : List ℕ)
    (h : IsHeap s before p after xs) where
  even_first : first_ptr s.vm % 8 ≡ 0
  even_first = omega (arith, h.start)

  zipper_row :
      (a : ℕ) → owned_at a (first_ptr s.vm) (whole_row before after) ≡ owned a before p after
  zipper_row a =
      owned_row s.word a (first_ptr s.vm) p s.vm.mem_brk before after even_first h.back h.front

  -- The heap seen from a block holds the table of its blocks.
  pub zipper-Holds :
      (table : ℕ → ℕ)
      → Settled before after
      → ((a : ℕ) → table a ≡ owned a before p after)
      → Holds s table
  zipper-Holds table settled says = record {
    row = whole_row before after;
    list = xs;
    heap = IsHeap-row s before p after xs h;
    apart = Settled-row before after settled;
    says = λ a. says a ∙ sym (zipper_row a);
  }

  module _ (table : ℕ → ℕ) (v : Holds s table) where
    same_row : v.row ≡ whole_row before after
    same_row =
        Tiled-unique s.word (first_ptr s.vm) s.vm.mem_brk v.row (whole_row before after)
          v.heap.front (IsHeap-row s before p after xs h).front

    pub zipper_says : (a : ℕ) → table a ≡ owned a before p after
    zipper_says a =
        v.says a
        ∙ subst (λ row. owned_at a (first_ptr s.vm) row ≡ owned a before p after) (sym same_row)
            (zipper_row a)

    pub zipper-Settled : Settled before after
    zipper-Settled = row-Settled before after (subst Apart same_row v.apart)

payload_row :
    (w : ℕ → ℕ) (a f p : ℕ) (before after : List Block)
    → TiledBack w f before p
    → payload_at a f (whole_row before after) ≡ payload a before p after
payload_row w a f p [] after t = rw t refl
payload_row w a f p (b ∷ before) after (m, k, t) =
    let e : p - b.size + b.size ≡ p = omega arith in
    payload_row w a f (p - b.size) before (b ∷ after) t ∙ ground arith

-- A payload of the table is one of the heap, from wherever it is seen.
pub Holds-payload :
    (s : Machine) (table : ℕ → ℕ) (v : Holds s table) (before : List Block) (p : ℕ)
    (after : List Block) (xs : List ℕ)
    → IsHeap s before p after xs
    → (x a : ℕ) → x ≤ a
    → a + 8 < x + table x
    → payload a before p after ≡ true
Holds-payload s table v before p after xs h x a k l =
    let row = same_row s before p after xs h table v in
    let in_row : payload_at a (first_ptr s.vm) v.row ≡ true =
      owned_at-payload s.word x a (first_ptr s.vm) s.vm.mem_brk v.row v.heap.front k
        (rw (v.says x) at l) in
    sym (payload_row s.word a (first_ptr s.vm) p before after h.back)
    ∙ subst (λ r. payload_at a (first_ptr s.vm) r ≡ true) row in_row

-- the heap seen from a block in use
pub record Found (s : Machine) (a n : ℕ) (xs : List ℕ) : Type 0 where
  pub before : List Block
  pub block : Block
  pub after : List Block
  pub heap : IsHeap s before a (block ∷ after) xs
  pub used : block.used ≡ true
  pub size : block.size ≡ n

find_used :
    (s : Machine) (a : ℕ) (before : List Block) (p : ℕ) (after : List Block) (xs : List ℕ)
    → IsHeap s before p after xs
    → 0 < owned_at a p after
    → Found s a (owned_at a p after) xs
find_used s a before p [] xs h k = absurd (omega arith)
find_used s a before p (b ∷ after) xs h k = elim (Bool-cases (b.used && a == p)) [
  | inl here ↦
      let at : p ≡ a = ground arith in
      record {
        before = before;
        block = b;
        after = after;
        heap = subst (λ q. IsHeap s before q (b ∷ after) xs) at h;
        used = ground arith;
        size = rw here refl;
      }
  | inr there ↦ rw there (
      find_used s a (b ∷ before) (p + b.size) after xs (IsHeap-right s before p b after xs h)
        (rw there at k))
]

-- The heap of a table seen from one of its blocks.
pub Holds-Found :
    (s : Machine) (table : ℕ → ℕ) (v : Holds s table) (a : ℕ)
    → 0 < table a
    → Found s a (table a) v.list
Holds-Found s table v a k =
    rw (v.says a) (find_used s a [] (first_ptr s.vm) v.row v.list v.heap (rw (v.says a) at k))

-- A free neighbour is not in use.
pub owned_back-past_free :
    (a p : ℕ) (before : List Block)
    → owned_back a p before ≡ owned_back a (joined_ptr before p) (past_free before)
owned_back-past_free a p [] = ground arith
owned_back-past_free a p (c ∷ before) = elim (Bool-cases c.used) [
  | inl used ↦ rw used (ground arith)
  | inr free ↦ rw free (ground arith)
]

pub owned_at-past_free :
    (a e : ℕ) (after : List Block)
    → owned_at a e after
      ≡ owned_at a (e + (if next_flag after == 0 then next_size after else 0)) (past_free after)
owned_at-past_free a e [] = ground arith
owned_at-past_free a e (c ∷ after) = elim (Bool-cases c.used) [
  | inl used ↦ ground arith
  | inr free ↦ ground arith
]

-- the size of the block that `place` gives away
abbrev pub placed_size : ℕ → ℕ → ℕ
placed_size size cur = if leb (size + 16) cur then size else cur

pub owned_at-placed :
    (a p size cur : ℕ) (after : List Block)
    → size ≤ cur
    → owned_at a p (placed size cur ++ after)
      ≡ (if a == p then placed_size size cur else owned_at a (p + cur) after)
owned_at-placed a p size cur after h = elim (Bool-cases (leb (size + 16) cur)) [
  | inl split ↦
      let e : p + size + (cur - size) ≡ p + cur = ground arith in rw split (rw e (ground arith))
  | inr entire ↦ rw entire (ground arith)
]

pub le-placed_size : (size cur : ℕ) → size ≤ cur → size ≤ placed_size size cur
le-placed_size size cur h = ground arith

-- The blocks of a table do not overlap, and lie in the heap.
pub Holds-apart :
    (s : Machine) (table : ℕ → ℕ)
    → Holds s table
    → (x y : ℕ) → 0 < table x
    → 0 < table y
    → x < y
    → x + table x ≤ y
Holds-apart s table v x y h k l =
    let first : first_ptr s.vm % 8 ≡ 0 = omega (arith, v.heap.start) in
    rw (v.says x) (
      owned_at-apart s.word x y (first_ptr s.vm) s.vm.mem_brk v.row first v.heap.front
        (rw (v.says x) at h) (rw (v.says y) at k) l)

pub Holds-range :
    (s : Machine) (table : ℕ → ℕ)
    → Holds s table
    → (x : ℕ) → 0 < table x
    → (s.vm.mem_start_brk + 16 ≤ x) × (x + table x ≤ s.vm.mem_brk) × (16 ≤ table x) × (x % 8 ≡ 0)
Holds-range s table v x h =
    let first : first_ptr s.vm % 8 ≡ 0 = omega (arith, v.heap.start) in
    rw (v.says x) (
      owned_at-range s.word x (first_ptr s.vm) s.vm.mem_brk v.row first v.heap.front
        (rw (v.says x) at h))
