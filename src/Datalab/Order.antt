-- ===== src/Datalab/Order.antt =====
-- `isLessOrEqual`.
use itu_operating_systems_an.Base.{
  ℕ, ◌^◌, ◌<◌, ◌≡◌, arith, not32, add32, sign_cases, int_of, signed32, leb_ℤ,
}
use itu_operating_systems_an.Datalab.{is_less_or_equal}

-- `isLessOrEqual` is `<=` on the integers that the words stand for, on every pair of words.
pub is_less_or_equal-leb_ℤ :
    (x y : ℕ)
    → x < 2 ^ 32
    → y < 2 ^ 32
    → is_less_or_equal x y ≡ int_of (leb_ℤ (signed32 x) (signed32 y))
unfolding is_less_or_equal
is_less_or_equal-leb_ℤ x y hx hy =
    let diff = add32 y (add32 (not32 x) 1) in
    ground (arith, sign_cases x hx, sign_cases y hy, sign_cases diff (omega arith))
