-- ===== src/Base/Bits.antt =====
-- The native bit operations by their lowest digit, at every width.
use Prim.Native.Nat.{
  ℕ, zero, suc, ◌+◌, ◌-◌, ◌*◌, ◌/◌, ◌%◌, ◌^◌, ◌≤◌, ◌<◌, min, max, bit_and, bit_or, bit_xor, digits,
  bitwise, differ, bit_and-bitwise, bit_or-bitwise, bit_xor-bitwise,
}
use native.Mathlib.Nat.{
  le_refl, pow-suc, one-le-pow, mod-lt, mod-eq_of_lt, div-add-mod, add-mul-mod_self_left,
}
use mathlib.Core.Path.{◌≡◌, refl, sym, ap, ◌∙◌}
use native.Mathlib.Omega.{arith}

-- `bitwise` runs `digits` on as much fuel as its first argument. Any fuel from there on will do,
-- so one digit can be split off.
module _ (z : ℕ → ℕ) (f : ℕ → ℕ → ℕ) where
  digits-zero : (n b : ℕ) → digits z f n 0 b ≡ z b
  digits-zero zero b = refl
  digits-zero (suc n) b = refl

  digits-enough : (b n m a : ℕ) → a ≤ n → a ≤ m → digits z f n a b ≡ digits z f m a b
  digits-enough b n m zero p q = digits-zero n b ∙ sym (digits-zero m b)
  digits-enough b (suc n) (suc m) (suc a) p q =
      ap (λ t. t * 2 + f (suc a % 2) (b % 2))
        (digits-enough (b / 2) n m (suc a / 2) (omega arith) (omega arith))
  digits-enough b zero m (suc a) p q = elim p [ ]
  digits-enough b (suc n) zero (suc a) p q = elim q [ ]

  lowest_digit :
      (a b : ℕ) → 0 < a → bitwise z f a b ≡ bitwise z f (a / 2) (b / 2) * 2 + f (a % 2) (b % 2)
  lowest_digit zero b h = elim h [ ]
  lowest_digit (suc a) b h =
      ap (λ t. t * 2 + f (suc a % 2) (b % 2))
        (digits-enough (b / 2) a (suc a / 2) (suc a / 2) (omega arith) (le_refl _))

pub bit_and_digit : (a b : ℕ) → bit_and a b ≡ bit_and (a / 2) (b / 2) * 2 + min (a % 2) (b % 2)
bit_and_digit zero b = simp bit_and-bitwise (omega arith)
bit_and_digit (suc a) b = simp bit_and-bitwise (lowest_digit (λ b. 0) min (suc a) b (omega arith))

pub bit_or_digit : (a b : ℕ) → bit_or a b ≡ bit_or (a / 2) (b / 2) * 2 + max (a % 2) (b % 2)
bit_or_digit zero b = simp bit_or-bitwise (omega arith)
bit_or_digit (suc a) b = simp bit_or-bitwise (lowest_digit (λ b. b) max (suc a) b (omega arith))

bit_xor_digit_diff : (a b : ℕ) → bit_xor a b ≡ bit_xor (a / 2) (b / 2) * 2 + differ (a % 2) (b % 2)
bit_xor_digit_diff zero b = simp bit_xor-bitwise (omega arith)
bit_xor_digit_diff (suc a) b =
    simp bit_xor-bitwise (lowest_digit (λ b. b) differ (suc a) b (omega arith))

differ_bit : (x y : ℕ) → x < 2 → y < 2 → differ x y ≡ (x + y) % 2
differ_bit zero y h k = omega arith
differ_bit (suc zero) zero h k = refl
differ_bit (suc zero) (suc zero) h k = refl
differ_bit (suc zero) (suc (suc y)) h k = absurd (omega arith)
differ_bit (suc (suc x)) y h k = absurd (omega arith)

pub bit_xor_digit : (a b : ℕ) → bit_xor a b ≡ bit_xor (a / 2) (b / 2) * 2 + (a % 2 + b % 2) % 2
bit_xor_digit a b =
    omega (arith, bit_xor_digit_diff a b, differ_bit (a % 2) (b % 2) (omega arith) (omega arith))

pub bit_and_zero_left : (b : ℕ) → bit_and 0 b ≡ 0
bit_and_zero_left b = simp bit_and-bitwise

bit_and_zero_fuel : (n a : ℕ) → a ≤ n → bit_and a 0 ≡ 0
bit_and_zero_fuel n zero h = refl
bit_and_zero_fuel zero (suc a) h = elim h [ ]
bit_and_zero_fuel (suc n) (suc a) h =
    omega (arith, bit_and_digit (suc a) 0, bit_and_zero_fuel n (suc a / 2) (omega arith))

pub bit_and_zero : (a : ℕ) → bit_and a 0 ≡ 0
bit_and_zero a = bit_and_zero_fuel a a (le_refl _)

bit_or_zero_fuel : (n a : ℕ) → a ≤ n → bit_or a 0 ≡ a
bit_or_zero_fuel n zero h = refl
bit_or_zero_fuel zero (suc a) h = elim h [ ]
bit_or_zero_fuel (suc n) (suc a) h =
    omega (arith, bit_or_digit (suc a) 0, bit_or_zero_fuel n (suc a / 2) (omega arith))

pub bit_or_zero : (a : ℕ) → bit_or a 0 ≡ a
bit_or_zero a = bit_or_zero_fuel a a (le_refl _)

pub bit_or_zero_left : (b : ℕ) → bit_or 0 b ≡ b
bit_or_zero_left b = simp bit_or-bitwise

pub mod_digit : (m a : ℕ) → 0 < m → a % (2 * m) ≡ a / 2 % m * 2 + a % 2
mod_digit m a h =
    let q = a / 2 / m in
    let r = a / 2 % m * 2 + a % 2 in
    let split : a ≡ r + 2 * m * q = grind (arith, div-add-mod (a / 2) m) in
    let small : r < 2 * m = omega (arith, mod-lt (a / 2) h) in
    ap (λ t. t % (2 * m)) split ∙ add-mul-mod_self_left r (2 * m) q ∙ mod-eq_of_lt small

-- `& (2 ^ k - 1)` keeps the remainder by `2 ^ k`.
pub bit_and_low : (k a : ℕ) → bit_and a (2 ^ k - 1) ≡ a % 2 ^ k
bit_and_low zero a = omega (arith, bit_and_zero a)
bit_and_low (suc k) a = ground (
  arith,
  bit_and_digit a (2 ^ suc k - 1),
  pow-suc 2 k,
  one-le-pow k 2,
  bit_and_low k (a / 2),
  mod_digit (2 ^ k) a,
)

pub bit_and_one : (a : ℕ) → bit_and a 1 ≡ a % 2
bit_and_one a = bit_and_low 1 a

-- `& ~0x7` clears the three lowest bits.
pub bit_and_align : (a : ℕ) → a < 2 ^ 32 → bit_and a 0xfffffff8 ≡ a / 8 * 8
bit_and_align a h = omega (
  arith,
  bit_and_digit a 0xfffffff8,
  bit_and_digit (a / 2) 0x7ffffffc,
  bit_and_digit (a / 2 / 2) 0x3ffffffe,
  bit_and_low 29 (a / 2 / 2 / 2),
)

-- A flag below an even number is added by `|`.
pub bit_or_flag : (a b : ℕ) → a % 2 ≡ 0 → b < 2 → bit_or a b ≡ a + b
bit_or_flag a b h k =
    ground (arith, bit_or_digit a b, bit_or_zero (a / 2), (let e : b / 2 ≡ 0 = omega arith in e))

bit_and_comm_fuel : (n a b : ℕ) → a ≤ n → bit_and a b ≡ bit_and b a
bit_and_comm_fuel n zero b h = bit_and_zero_left b ∙ sym (bit_and_zero b)
bit_and_comm_fuel zero (suc a) b h = elim h [ ]
bit_and_comm_fuel (suc n) (suc a) b h = omega (
  arith,
  bit_and_digit (suc a) b,
  bit_and_digit b (suc a),
  bit_and_comm_fuel n (suc a / 2) (b / 2) (omega arith),
)

pub bit_and_comm : (a b : ℕ) → bit_and a b ≡ bit_and b a
bit_and_comm a b = bit_and_comm_fuel a a b (le_refl _)

pub one-bit_and : (a : ℕ) → bit_and 1 a ≡ a % 2
one-bit_and a = bit_and_comm 1 a ∙ bit_and_one a

-- `-1 & a` is `a`.
pub ones-bit_and : (a : ℕ) → a < 2 ^ 32 → bit_and 0xffffffff a ≡ a
ones-bit_and a h = omega (arith, bit_and_comm 0xffffffff a, bit_and_low 32 a)

bit_and-le_fuel : (n a b : ℕ) → a ≤ n → bit_and a b ≤ a
bit_and-le_fuel n zero b h = omega (arith, bit_and_zero_left b)
bit_and-le_fuel zero (suc a) b h = elim h [ ]
bit_and-le_fuel (suc n) (suc a) b h =
    omega (arith, bit_and_digit (suc a) b, bit_and-le_fuel n (suc a / 2) (b / 2) (omega arith))

pub bit_and-le : (a b : ℕ) → bit_and a b ≤ a
bit_and-le a b = bit_and-le_fuel a a b (le_refl _)

bit_xor_eq_fuel : (n a b : ℕ) → a ≤ n → bit_xor a b ≡ 0 → a ≡ b
bit_xor_eq_fuel n zero b h e = sym e ∙ bit_xor-bitwise 0 b
bit_xor_eq_fuel zero (suc a) b h e = elim h [ ]
bit_xor_eq_fuel (suc n) (suc a) b h e = omega (
  arith,
  bit_xor_digit (suc a) b,
  bit_xor_eq_fuel n (suc a / 2) (b / 2) (omega arith) (omega (arith, bit_xor_digit (suc a) b)),
)

bit_xor_self_fuel : (n a : ℕ) → a ≤ n → bit_xor a a ≡ 0
bit_xor_self_fuel n zero h = refl
bit_xor_self_fuel zero (suc a) h = elim h [ ]
bit_xor_self_fuel (suc n) (suc a) h =
    omega (arith, bit_xor_digit (suc a) (suc a), bit_xor_self_fuel n (suc a / 2) (omega arith))

-- `^` gives 0 at equal numbers only.
pub bit_xor_eq : (a b : ℕ) → bit_xor a b ≡ 0 → a ≡ b
bit_xor_eq a b e = bit_xor_eq_fuel a a b (le_refl _) e

pub bit_xor_self : (a : ℕ) → bit_xor a a ≡ 0
bit_xor_self a = bit_xor_self_fuel a a (le_refl _)
