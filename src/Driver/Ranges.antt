-- ===== src/Driver/Ranges.antt =====
-- The range list of mdriver.c: the extents of the payloads that are in use.
pub mod Disjoint
use itu_operating_systems_an.Base.{
  ℕ, ◌%◌, Bool, true, false, not, ◌&&◌, ◌||◌, List, [], ◌∷◌, if◌then◌else◌, ◌==◌, leb, ltb, add32,
  sub32, is_negative,
}
use itu_operating_systems_an.Memlib.{Vm, mem_heap_lo, mem_heap_hi}

-- `range_t`; the list is the one that `next` links
pub record Range : Type 0 where
  pub lo : ℕ
  pub hi : ℕ

-- `ALIGNMENT` of config.h
abbrev pub alignment : ℕ
alignment = 8

abbrev pub is_aligned : ℕ → Bool
is_aligned p = p % alignment == 0

-- the messages of `add_range`
pub data Refusal : Type 0 where
  not_aligned : Refusal
  outside_heap : Refusal
  overlaps_payload : Refusal

-- A failed `assert`, the result 0 with its message, or the result 1 with the new list.
pub data Added : Type 0 where
  assertion_failed : Added
  refused : Refusal → Added
  added : List Range → Added

-- one of the two ends of `lo`, `hi` lies in the range
abbrev pub touches : ℕ → ℕ → Range → Bool
touches lo hi p = leb p.lo lo && leb lo p.hi || leb p.lo hi && leb hi p.hi

unfoldable pub touches_any : ℕ → ℕ → List Range → Bool
touches_any lo hi [] = false
touches_any lo hi (p ∷ ranges) = touches lo hi p || touches_any lo hi ranges

abbrev pub outside : Vm → ℕ → Bool
outside v p = ltb p (mem_heap_lo v) || ltb (mem_heap_hi v) p

-- `lo + size - 1`
abbrev pub last_byte : ℕ → ℕ → ℕ
last_byte lo size = sub32 (add32 lo size) 1

-- `size` is an `int`, by its bit pattern. The `malloc` of the record succeeds.
unfoldable pub add_range : Vm → ℕ → ℕ → List Range → Added
add_range v lo size ranges =
    let hi = last_byte lo size in
    if is_negative size || size == 0
    then assertion_failed
    else if not (is_aligned lo)
    then refused not_aligned
    else if outside v lo || outside v hi
    then refused outside_heap
    else if touches_any lo hi ranges
    then refused overlaps_payload
    else added (record { lo = lo; hi = hi } ∷ ranges)

unfoldable pub remove_range : ℕ → List Range → List Range
remove_range lo [] = []
remove_range lo (p ∷ ranges) =
    let rest = remove_range lo ranges in if p.lo == lo then ranges else p ∷ rest

unfoldable pub clear_ranges : List Range → List Range
clear_ranges ranges = []
