-- ===== src/Driver/Ranges/Disjoint.antt =====
-- What the range list guarantees, and what it does not.
use itu_operating_systems_an.Base.{
  ℕ, ◌+◌, ◌-◌, ◌%◌, ◌^◌, ◌≤◌, ◌<◌, ◌≡◌, ◌⊎◌, ◌≢◌, refl, sym, ap, subst, if◌then◌else◌, inl, inr,
  false, List, [], ◌∷◌, arith, ◌==◌, Bool-cases, ◌↔◌,
}
use itu_operating_systems_an.Memlib.{Vm, mem_heap_lo, mem_heap_hi}
use itu_operating_systems_an.Memlib.Brk.{IsVm}
use itu_operating_systems_an.Driver.Ranges.{
  Range, added, touches, touches_any, last_byte, add_range, remove_range,
}

-- The payload lies in the heap, and starts at a multiple of 8.
pub record IsPayload (v : Vm) (r : Range) : Type 0 where
  pub aligned : r.lo % 8 ≡ 0
  pub ordered : r.lo ≤ r.hi
  pub low : v.mem_start_brk ≤ r.lo
  pub high : r.hi < v.mem_brk

-- no byte in common
abbrev pub Apart : Range → Range → Type 0
Apart r p = (r.hi < p.lo) ⊎ (p.hi < r.lo)

-- `p` lies strictly inside `r`
abbrev pub Inside : Range → Range → Type 0
Inside p r = (r.lo < p.lo) × (p.hi < r.hi)

abbrev pub All : (Range → Type 0) → List Range → Type 0
All P [] = Unit {0}
All P (r ∷ rs) = P r × All P rs

-- What `add_range` lets through: each payload is apart from every older one, or strictly contains
-- it.
abbrev pub IsRanges : Vm → List Range → Type 0
IsRanges v [] = Unit {0}
IsRanges v (r ∷ rs) = IsPayload v r × All (λ p. Apart r p ⊎ Inside p r) rs × IsRanges v rs

-- The heap is not at address 0, and has at most 2 ^ 31 bytes.
pub record IsHeap (v : Vm) : Type 0 where
  pub vm : IsVm v
  pub not_null : 0 < v.mem_start_brk
  pub small : v.mem_brk ≤ v.mem_start_brk + 2 ^ 31

-- the record that `add_range` makes
abbrev pub payload : ℕ → ℕ → Range
payload lo size = record { lo = lo; hi = lo + size - 1 }

abbrev pub Fits : Vm → Range → List Range → Type 0
Fits v r rs = IsPayload v r × All (λ p. Apart r p ⊎ Inside p r) rs

touches_iff :
    (r p : Range)
    → r.lo ≤ r.hi
    → p.lo ≤ p.hi
    → (touches r.lo r.hi p ≡ false) ↔ (Apart r p ⊎ Inside p r)
touches_iff r p h k = ground arith

touches_any_iff :
    (v : Vm) (r : Range) (rs : List Range)
    → r.lo ≤ r.hi
    → IsRanges v rs
    → (touches_any r.lo r.hi rs ≡ false) ↔ All (λ p. Apart r p ⊎ Inside p r) rs
unfolding touches_any
touches_any_iff v r [] h i = ground arith
touches_any_iff v r (p ∷ rs) h (q, _, i) =
    let one = touches_iff r p h q.ordered in
    let more = touches_any_iff v r rs h i in ground (arith, one, more)

module _ (v : Vm) (heap : IsHeap v) (lo size : ℕ) where
  last_byte_lem :
      lo < 2 ^ 32
      → 0 < size
      → size < 2 ^ 31
      → lo + size ≤ 2 ^ 32
      → last_byte lo size ≡ lo + size - 1
  last_byte_lem h p q r = ground arith

  -- `add_range` takes a payload of `size` bytes, `size` a positive `int`, exactly when it is
  -- aligned, lies in the heap, and each payload of the list is apart from it or strictly inside it;
  -- the new list is the old one with the payload in front.
  pub add_range_iff :
      (rs : List Range)
      → IsRanges v rs
      → lo < 2 ^ 32
      → 0 < size
      → size < 2 ^ 31
      → (add_range v lo size rs ≡ added (payload lo size ∷ rs)) ↔ Fits v (payload lo size) rs
  unfolding add_range mem_heap_lo mem_heap_hi
  add_range_iff rs i l p q =
      let vm = heap.vm in
      let iff = touches_any_iff v (payload lo size) rs (omega arith) i in ground (arith, iff)

-- Whatever `add_range` returns with, `remove_range` at the same address undoes it.
pub remove_range-add_range :
    (v : Vm) (lo size : ℕ) (rs rs' : List Range)
    → add_range v lo size rs ≡ added rs'
    → remove_range lo rs' ≡ rs
unfolding add_range remove_range
remove_range-add_range v lo size rs rs' e = ground arith

All-remove_range :
    (P : Range → Type 0) (lo : ℕ) (rs : List Range) → All P rs → All P (remove_range lo rs)
unfolding remove_range
All-remove_range P lo [] a = tt
All-remove_range P lo (p ∷ rs) (a, rest) = elim (Bool-cases (p.lo == lo)) [
  | inl e ↦ rw e rest
  | inr e ↦ rw e (a, All-remove_range P lo rs rest)
]

others_start_elsewhere :
    (v : Vm) (r : Range) (rs : List Range)
    → r.lo ≤ r.hi
    → IsRanges v rs
    → All (λ p. Apart r p ⊎ Inside p r) rs
    → All (λ p. p.lo ≢ r.lo) rs
others_start_elsewhere v r [] h i a = tt
others_start_elsewhere v r (p ∷ rs) h (q, _, i) (a, rest) =
    let o = q.ordered in (ground arith, others_start_elsewhere v r rs h i rest)

-- the ranges that start elsewhere
abbrev pub elsewhere : ℕ → List Range → List Range
elsewhere lo [] = []
elsewhere lo (p ∷ rs) = let rest = elsewhere lo rs in if p.lo == lo then rest else p ∷ rest

elsewhere-All : (lo : ℕ) (rs : List Range) → All (λ p. p.lo ≢ lo) rs → elsewhere lo rs ≡ rs
elsewhere-All lo [] a = refl
elsewhere-All lo (p ∷ rs) (n, a) =
    let other : (p.lo == lo) ≡ false = ground arith in
    rw other (ap (λ qs. p ∷ qs) (elsewhere-All lo rs a))

-- On a list that `add_range` lets through, `remove_range` leaves exactly the payloads that start at
-- another address, all of them and in their order, and the list that is left is such a list again.
pub remove_range-IsRanges :
    (v : Vm) (lo : ℕ) (rs : List Range)
    → IsRanges v rs
    → (remove_range lo rs ≡ elsewhere lo rs) × IsRanges v (remove_range lo rs)
unfolding remove_range
remove_range-IsRanges v lo [] i = (refl, tt)
remove_range-IsRanges v lo (p ∷ rs) (q, rest, i) = elim (Bool-cases (p.lo == lo)) [
  | inl e ↦
      let at : p.lo ≡ lo = ground arith in
      let others = others_start_elsewhere v p rs q.ordered i rest in
      rw e (sym (elsewhere-All lo rs (subst (λ a. All (λ r. r.lo ≢ a) rs) at others)), i)
  | inr e ↦
      let (same, j) = remove_range-IsRanges v lo rs i in
      rw e
        (ap (λ qs. p ∷ qs) same, (q, All-remove_range (λ r. Apart p r ⊎ Inside r p) lo rs rest, j))
]
