-- ===== src/Datalab/Xor.antt =====
-- `bitXor`.
use itu_operating_systems_an.Base.{
  ℕ, zero, suc, ◌+◌, ◌-◌, ◌*◌, ◌/◌, ◌%◌, ◌^◌, ◌<◌, ◌≡◌, arith, bit_and, bit_xor, bit_and_digit,
  bit_xor_digit, bit_and-le, refl,
}
use native.Mathlib.Nat.{pow-suc}
use Prim.Native.Nat.{min}
use itu_operating_systems_an.Datalab.{bit_xor_of}

-- the complement within `k` bits, digit by digit
abbrev flip : ℕ → ℕ → ℕ
flip k x = 2 ^ k - 1 - x

flip_digit :
    (k x : ℕ)
    → x < 2 ^ suc k
    → (flip (suc k) x / 2 ≡ flip k (x / 2)) × (flip (suc k) x % 2 ≡ 1 - x % 2)
flip_digit k x h = (omega (arith, pow-suc 2 k), omega (arith, pow-suc 2 k))

-- both not both and not neither: the digit equation of `xor_width`
nor_digit :
    (k x y : ℕ)
    → x < 2 ^ suc k
    → y < 2 ^ suc k
    → bit_and (flip (suc k) x) (flip (suc k) y)
      ≡ bit_and (flip k (x / 2)) (flip k (y / 2)) * 2 + min (1 - x % 2) (1 - y % 2)
nor_digit k x y hx hy =
    ground
      (arith, bit_and_digit (flip (suc k) x) (flip (suc k) y), flip_digit k x hx, flip_digit k y hy)

xor_width :
    (k x y : ℕ)
    → x < 2 ^ k
    → y < 2 ^ k
    → bit_and (flip k (bit_and x y)) (flip k (bit_and (flip k x) (flip k y))) ≡ bit_xor x y
xor_width zero zero zero hx hy = refl
xor_width zero zero (suc y) hx hy = absurd (omega arith)
xor_width zero (suc x) y hx hy = absurd (omega arith)
xor_width (suc k) x y hx hy =
    let a = bit_and x y in
    let c = bit_and (flip (suc k) x) (flip (suc k) y) in
    let ha : a < 2 ^ suc k = omega (arith, bit_and-le x y) in
    let hc : c < 2 ^ suc k = omega (arith, bit_and-le (flip (suc k) x) (flip (suc k) y)) in
    let ih =
      xor_width k (x / 2) (y / 2) (omega (arith, pow-suc 2 k)) (omega (arith, pow-suc 2 k)) in
    ground (
      arith,
      ih,
      nor_digit (k) a c ha hc,
      bit_and_digit x y,
      nor_digit k x y hx hy,
      bit_xor_digit x y,
    )

-- `bitXor` is `^` on every pair of words.
pub bit_xor_of-bit_xor : (x y : ℕ) → x < 2 ^ 32 → y < 2 ^ 32 → bit_xor_of x y ≡ bit_xor x y
unfolding bit_xor_of
bit_xor_of-bit_xor x y hx hy = xor_width 32 x y hx hy
