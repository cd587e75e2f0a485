-- ===== src/Sort/Tests.antt =====
-- The run of lecture-6/README.md, and the theorems at its numbers.
use mathlib.Core.List.{Perm}
use itu_operating_systems_an.Base.{
  ◌≡◌, refl, true, false, none, some, List, [], ◌∷◌, map, ℤ, pos, ◌⊎◌,
}
use itu_operating_systems_an.Sort.{
  bubble_sort, inner, pass, outer, sorted_order, reverse_order, strange_order,
}
use itu_operating_systems_an.Sort.Laws.{IsSorted, bubble_sort-IsSorted, bubble_sort-perm}
use itu_operating_systems_an.Sort.Orders.{sorted_order-IsOrder}

abbrev numbers : List ℤ
numbers = map pos (4 ∷ 1 ∷ 7 ∷ 3 ∷ 2 ∷ 0 ∷ 8 ∷ [])

ascending : bubble_sort sorted_order true numbers ≡ some (map pos (0 ∷ 1 ∷ 2 ∷ 3 ∷ 4 ∷ 7 ∷ 8 ∷ []))
unfolding bubble_sort inner pass outer sorted_order
ascending = refl

descending :
    bubble_sort reverse_order true numbers ≡ some (map pos (8 ∷ 7 ∷ 4 ∷ 3 ∷ 2 ∷ 1 ∷ 0 ∷ []))
unfolding bubble_sort inner pass outer reverse_order
descending = refl

strange : bubble_sort strange_order true numbers ≡ some (map pos (3 ∷ 4 ∷ 2 ∷ 7 ∷ 1 ∷ 0 ∷ 8 ∷ []))
unfolding bubble_sort inner pass outer strange_order
strange = refl

bubble_sort-IsSorted_example :
    (ys : List ℤ) × (bubble_sort sorted_order true numbers ≡ some ys)
    × IsSorted sorted_order ys
    × Perm ys numbers
bubble_sort-IsSorted_example = bubble_sort-IsSorted sorted_order sorted_order-IsOrder numbers

bubble_sort-perm_example :
    ((true ≡ false) × (bubble_sort strange_order true numbers ≡ none))
    ⊎ ((true ≡ true)
        × ((ys : List ℤ) × (bubble_sort strange_order true numbers ≡ some ys) × Perm ys numbers))
bubble_sort-perm_example = bubble_sort-perm strange_order true numbers
