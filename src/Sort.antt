-- ===== src/Sort.antt =====
-- lecture-6/ex18.c: bubble sort with a comparison callback. An `int` is the integer it stands for;
-- the program computes with none but the results of the comparisons.
pub mod Laws
pub mod Orders
pub mod Tests
use itu_operating_systems_an.Base.{
  ℕ, zero, suc, ◌+◌, ◌-◌, ◌%◌, Bool, true, false, not, Option, none, some, List, [], ◌∷◌,
  if◌then◌else◌, ◌==◌, ◌||◌, ℤ, pos, negsuc, neg, leb_ℤ, length,
}

-- the sign of an `int`, as `> 0` reads it
abbrev pub positive : ℤ → Bool
positive (pos (suc n)) = true
positive _ = false

abbrev pub ltb_ℤ : ℤ → ℤ → Bool
ltb_ℤ a b = not (leb_ℤ b a)

-- `p - q` on the values of two tests
abbrev pub sub_tests : Bool → Bool → ℤ
sub_tests true false = pos 1
sub_tests false true = negsuc 0
sub_tests _ _ = pos 0

unfoldable pub sorted_order : ℤ → ℤ → ℤ
sorted_order a b = sub_tests (ltb_ℤ b a) (ltb_ℤ a b)

unfoldable pub reverse_order : ℤ → ℤ → ℤ
reverse_order a b = sub_tests (ltb_ℤ a b) (ltb_ℤ b a)

abbrev pub magnitude : ℤ → ℕ
magnitude (pos n) = n
magnitude (negsuc n) = suc n

abbrev pub is_zero : ℤ → Bool
is_zero a = magnitude a == 0

-- C's `%`, for a divisor that is not 0: the remainder has the sign of the dividend.
abbrev pub rem : ℤ → ℤ → ℤ
rem (pos n) b = pos (n % magnitude b)
rem (negsuc n) b = neg (pos (suc n % magnitude b))

unfoldable pub strange_order : ℤ → ℤ → ℤ
strange_order a b = if is_zero a || is_zero b then pos 0 else rem a b

module _ {ℓ} {A : Type ℓ} (cmp : A → A → ℤ) where
  -- The inner loop: `x` is `target[j]` and the list is `target[j + 1 ..]`, as an index that only
  -- moves forward is the part of the array that is left.
  unfoldable pub inner : A → List A → List A
  inner x [] = x ∷ []
  inner x (y ∷ rest) =
      let swapped = y ∷ inner x rest in
      let kept = x ∷ inner y rest in if positive (cmp x y) then swapped else kept

  unfoldable pub pass : List A → List A
  pass [] = []
  pass (x ∷ xs) = inner x xs

  -- the outer loop, with `count - i` rounds left
  unfoldable pub outer : ℕ → List A → List A
  outer zero target = target
  outer (suc left) target = outer left (pass target)

  -- `count` is the length of `numbers`. The first argument says whether `malloc` gave the array;
  -- `none` is the `die` where it did not.
  unfoldable pub bubble_sort : Bool → List A → Option (List A)
  bubble_sort allocated numbers = if allocated then some (outer (length numbers) numbers) else none
