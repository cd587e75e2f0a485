-- ===== src/Datalab/Width.antt =====
-- `howManyBits`.
use itu_operating_systems_an.Base.{
  ℕ, zero, suc, ◌+◌, ◌-◌, ◌*◌, ◌/◌, ◌%◌, ◌^◌, ◌≤◌, ◌<◌, ◌≡◌, refl, arith, Bool, ◌&&◌, not32, shl32,
  sar32, sign_cases, ◌⊎◌, inl, inr, ap, ◌∙◌, sym, ones-bit_and, bit_or_zero, bit_or_zero_left,
  bit_and_zero_left, lnot, ◌==◌, if◌then◌else◌, ltb, leb, ltb-true, ltb-false, leb-true, leb-false,
  pos, negsuc, signed32, leb_ℤ, Bool-cases,
}
use native.Mathlib.Decide.{dec_lt}
use native.Mathlib.Nat.{
  pow-suc, one-le-pow, add-zero, add-suc, div-add-mod, mod-lt, mul-le-mul_left, pow-le-pow_right,
  le_trans,
}
use itu_operating_systems_an.Datalab.{abs_bits, round_bits, shift_out, how_many_bits}

-- `n` bits of two's complement, `n` at least 1, hold the integer of `x`.
unfoldable pub fits : ℕ → ℕ → Bool
fits n x =
    leb_ℤ (negsuc (2 ^ (n - 1) - 1)) (signed32 x) && leb_ℤ (signed32 x) (pos (2 ^ (n - 1) - 1))

abs_bits_lem : (x : ℕ) → x < 2 ^ 32 → abs_bits x ≡ (if ltb x (2 ^ 31) then x else 2 ^ 32 - 1 - x)
unfolding abs_bits
abs_bits_lem x h = elim (sign_cases x h) [
  | inl (p, e) ↦ rw e (ground (arith, ones-bit_and x h, bit_and_zero_left (not32 x), bit_or_zero x))
  | inr (p, e) ↦ rw e (
      ground (
        arith,
        ones-bit_and (not32 x) (omega arith),
        bit_and_zero_left x,
        bit_or_zero_left (not32 x),
      ))
]

fits_iff_abs : (n x : ℕ) → x < 2 ^ 32 → fits n x ≡ ltb (abs_bits x) (2 ^ (n - 1))
unfolding fits
fits_iff_abs n x h = rw (abs_bits_lem x h) (ground (arith, one-le-pow (n - 1) 2))

pow-add : (r b : ℕ) → 2 ^ (r + b) ≡ 2 ^ r * 2 ^ b
pow-add r zero = ap (λ t. 2 ^ t) (add-zero r) ∙ omega arith
pow-add r (suc b) =
    ap (λ t. 2 ^ t) (add-suc r b) ∙ grind (arith, pow-suc 2 (r + b), pow-suc 2 b, pow-add r b)

-- `b` is the number of binary digits of `a`.
record IsLength (a b : ℕ) : Type 0 where
  upper : a < 2 ^ b
  lower : (c : ℕ) → b ≡ suc c → 2 ^ c ≤ a

IsLength-bit : (a : ℕ) → a < 2 → IsLength a a
IsLength-bit zero h = record { upper = omega arith; lower = λ c e. absurd (omega arith) }
IsLength-bit (suc zero) h = record {
  upper = omega arith;
  lower = λ c e. let z : c ≡ 0 = omega arith in rw z (omega arith);
}
IsLength-bit (suc (suc a)) h = absurd (omega arith)

-- One round of the search: the part above `r` bits, where it is not empty or `r` is 0.
shift_upper : (a r b : ℕ) → a / 2 ^ r < 2 ^ b → a < 2 ^ (r + b)
shift_upper a r b h = rw (pow-add r b) (
    omega (
      arith,
      div-add-mod a (2 ^ r),
      mod-lt a (one-le-pow r 2 (omega arith)),
      mul-le-mul_left (2 ^ r) h,
    ))

shift_lower : (a r c : ℕ) → 2 ^ c ≤ a / 2 ^ r → 2 ^ (r + c) ≤ a
shift_lower a r c h =
    rw (pow-add r c) (omega (arith, div-add-mod a (2 ^ r), mul-le-mul_left (2 ^ r) h))

IsLength-shift :
    (a r b : ℕ) → IsLength (a / 2 ^ r) b → (r ≡ 0) ⊎ (0 < a / 2 ^ r) → IsLength a (r + b)
IsLength-shift a r zero l (inl z) =
    let none_left : a / 2 ^ 0 < 1 = rw z at (l.upper) in
    let e : r + 0 ≡ 0 = omega arith in
    rw e (record { upper = omega arith; lower = λ c i. absurd (omega arith) })
IsLength-shift a r zero l (inr p) = absurd (omega (arith, l.upper))
IsLength-shift a r (suc b) l c = record {
  upper = shift_upper a r (suc b) l.upper;
  lower = λ c e. let same : c ≡ r + b = omega arith in rw same (shift_lower a r b (l.lower b refl));
}

-- What a round leaves: `r` bits are counted, and the part above them has at most `k` digits.
record Round (k a r : ℕ) : Type 0 where
  shifted : sar32 a r ≡ a / 2 ^ r
  smaller : a / 2 ^ r < 2 ^ k
  counted : (r ≡ 0) ⊎ (0 < a / 2 ^ r)
  bound : r ≤ k

sar32_of_pos : (a k : ℕ) → a < 2 ^ 31 → sar32 a k ≡ a / 2 ^ k
sar32_of_pos a k h = ground arith

abbrev counted_bits : ℕ → ℕ → ℕ → ℕ
counted_bits a k j = shl32 (lnot (lnot (sar32 a k))) j

round_lem :
    (k j a : ℕ)
    → 2 ^ j % 2 ^ 32 ≡ k
    → a / 2 ^ k < 2 ^ k
    → a < 2 ^ 31
    → Round k a (counted_bits a k j)
round_lem k j a e big h = rw (sar32_of_pos a k h) (elim (Bool-cases (a / 2 ^ k == 0)) [
  | inl empty ↦
      let none : 0 * 2 ^ j % 2 ^ 32 ≡ 0 = omega arith in
      rw (empty, none)
        (record {
          shifted = sar32_of_pos a 0 h;
          smaller = ground (arith, div-add-mod a (2 ^ k), mod-lt a (one-le-pow k 2 (omega arith)));
          counted = inl refl;
          bound = omega arith;
        })
  | inr full ↦
      let all : 1 * 2 ^ j % 2 ^ 32 ≡ k = omega arith in
      rw (full, all)
        (record {
          shifted = sar32_of_pos a k h;
          smaller = big;
          counted = inr (ground arith);
          bound = omega arith;
        })
])

-- The rounds from one chunk on: the bits counted here, and those of the `rest` on what is left.
unfoldable count : ℕ → ℕ → (ℕ → ℕ) → ℕ → ℕ
count k j rest a = round_bits a k j + rest (shift_out a (round_bits a k j))

-- `f` gives the number of digits, at most `m`, of every number of at most `k` digits.
abbrev Counts : ℕ → ℕ → (ℕ → ℕ) → Type 0
Counts k m f = (a : ℕ) → a < 2 ^ k → a < 2 ^ 31 → IsLength a (f a) × (f a ≤ m)

count-Counts :
    (k j n m : ℕ) (rest : ℕ → ℕ)
    → 2 ^ j % 2 ^ 32 ≡ k
    → ((a : ℕ) → a < 2 ^ n → a / 2 ^ k < 2 ^ k)
    → 2 ^ k ≤ 2 ^ 31
    → Counts k m rest
    → Counts n (k + m) (count k j rest)
unfolding count round_bits shift_out
count-Counts k j n m rest e half room c a small h =
    let r = round_lem k j a e (half a small) h in
    let s = counted_bits a k j in
    let next : IsLength (a / 2 ^ s) (rest (a / 2 ^ s)) × (rest (a / 2 ^ s) ≤ m) =
      c (a / 2 ^ s) r.smaller (omega (arith, r.smaller)) in
    rw (r.shifted)
      (IsLength-shift a s (rest (a / 2 ^ s)) next.0 r.counted, omega (arith, next.1, r.bound))

count5 : ℕ → ℕ
count5 = count 16 4 (count 8 3 (count 4 2 (count 2 1 (count 1 0 (λ a. a)))))

count5-Counts : Counts 32 32 count5
unfolding count5
count5-Counts =
    count-Counts 16 4 32 16 _ refl (λ a h. omega arith) (omega arith)
      (count-Counts 8 3 16 8 _ refl (λ a h. omega arith) (omega arith)
        (count-Counts 4 2 8 4 _ refl (λ a h. omega arith) (omega arith)
          (count-Counts 2 1 4 2 _ refl (λ a h. omega arith) (omega arith)
            (count-Counts 1 0 2 1 _ refl (λ a h. omega arith) (omega arith)
              (λ a h k. (IsLength-bit a h, omega arith))))))

how_many_bits-count5 :
    (x : ℕ) → count5 (abs_bits x) ≤ 32 → how_many_bits x ≡ count5 (abs_bits x) + 1
unfolding how_many_bits count5 count
how_many_bits-count5 x h = omega arith

length-le : (a b m : ℕ) → IsLength a b → a < 2 ^ m → b ≤ m
length-le a zero m l h = omega arith
length-le a (suc c) m l h = elim (dec_lt c m) [
  | yes p ↦ p
  | no p ↦ absurd (
      omega (
        arith,
        l.lower c refl,
        pow-le-pow_right {n = 2} (omega arith) {i = m} {j = c} (omega arith),
      ))
]

least : (a n m : ℕ) → 1 ≤ m → IsLength a n → ltb a (2 ^ (m - 1)) ≡ leb (n + 1) m
least a n m p l = elim (dec_lt a (2 ^ (m - 1))) [
  | yes q ↦
      ltb-true a (2 ^ (m - 1)) q
      ∙ sym (leb-true (n + 1) m (omega (arith, length-le a n (m - 1) l q)))
  | no q ↦ elim (dec_lt m (n + 1)) [
    | yes r ↦ ltb-false a (2 ^ (m - 1)) (omega arith) ∙ sym (leb-false (n + 1) m r)
    | no r ↦ absurd (
        q (
          le_trans l.upper
            (pow-le-pow_right {n = 2} (omega arith) {i = n} {j = m - 1} (omega arith))))
  ]
]

-- `howManyBits x` is from 1 to 32, and `m` bits of two's complement, `m` at least 1, hold the
-- integer of `x` exactly when `howManyBits x` is at most `m`: it is the least such number.
pub how_many_bits-least :
    (x m : ℕ)
    → x < 2 ^ 32
    → 1 ≤ m
    → (fits m x ≡ leb (how_many_bits x) m) × (1 ≤ how_many_bits x) × (how_many_bits x ≤ 32)
how_many_bits-least x m h p =
    let a = abs_bits x in
    let n = count5 a in
    let small : a < 2 ^ 31 = ground (arith, abs_bits_lem x h) in
    let found = count5-Counts a (omega arith) small in
    let e = how_many_bits-count5 x found.1 in
    rw (e, fits_iff_abs m x h)
      (least a n m p found.0, omega arith, omega (arith, length-le a n 31 found.0 small))
