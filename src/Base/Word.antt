-- ===== src/Base/Word.antt =====
-- 32-bit words as native numbers below 2 ^ 32. A negative `int` is its two's complement pattern.
use Prim.Native.Nat.{ℕ, ◌+◌, ◌-◌, ◌*◌, ◌/◌, ◌%◌, ◌^◌, ◌≤◌, ◌<◌, compare, Ordering}
use mathlib.Core.Bool.{Bool, true, false}
use mathlib.Core.Path.{◌≡◌}
use mathlib.Core.Logic.{◌⊎◌, inl, inr}
use native.Mathlib.Decide.{dec_lt}
use native.Mathlib.Omega.{arith}

abbrev pub word_mod : ℕ
word_mod = 2 ^ 32

abbrev pub add32 : ℕ → ℕ → ℕ
add32 a b = (a + b) % 2 ^ 32

-- `-` on ℕ stops at 0, so the modulus is added first.
abbrev pub sub32 : ℕ → ℕ → ℕ
sub32 a b = (a + 2 ^ 32 - b) % 2 ^ 32

-- `~x`
abbrev pub not32 : ℕ → ℕ
not32 x = 2 ^ 32 - 1 - x

-- `x << k`
abbrev pub shl32 : ℕ → ℕ → ℕ
shl32 x k = x * 2 ^ k % 2 ^ 32

-- the sign bit of an `int`
abbrev pub is_negative : ℕ → Bool
is_negative x = elim (compare x (2 ^ 31)) [ Ordering.lt ↦ false | _ ↦ true ]

-- `x >> k` of an `int`: the sign bit is shifted in, `-(1 << (32 - k))` added to the logical shift
abbrev pub sar32 : ℕ → ℕ → ℕ
sar32 x k = elim (is_negative x) [ true ↦ x / 2 ^ k + (2 ^ 32 - 2 ^ (32 - k)) | false ↦ x / 2 ^ k ]

-- `x >> 31` spreads the sign bit over the word.
pub sar32_pos : (x : ℕ) → x < 2 ^ 31 → sar32 x 31 ≡ 0
sar32_pos x h = ground arith

pub sar32_neg : (x : ℕ) → 2 ^ 31 ≤ x → x < 2 ^ 32 → sar32 x 31 ≡ 0xffffffff
sar32_neg x h k = ground arith

pub sign_cases :
    (x : ℕ)
    → x < 2 ^ 32
    → ((x < 2 ^ 31) × (sar32 x 31 ≡ 0)) ⊎ ((2 ^ 31 ≤ x) × (sar32 x 31 ≡ 0xffffffff))
sign_cases x h = elim (dec_lt x (2 ^ 31)) [
  | yes p ↦ inl (p, sar32_pos x p)
  | no p ↦ inr (omega arith, sar32_neg x (omega arith) h)
]
