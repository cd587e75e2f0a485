-- ===== src/Clock.antt =====
-- 22-Lab3-malloclab/clock.c: the difference of two readings of the cycle counter. A reading is its
-- high and its low 32 bits; `rdtsc`, or the routine of the Alpha, gives it. The result is a `double`,
-- here the natural number that it stands for.
mod Tests
use itu_operating_systems_an.Base.{
  ℕ, zero, suc, ◌+◌, ◌-◌, ◌*◌, ◌/◌, ◌%◌, ◌^◌, ◌<◌, ◌≤◌, ◌≡◌, refl, ◌∙◌, true, false, Bool,
  Bool-cases, inl, inr, ◌&&◌, ◌||◌, ◌==◌, ltb, ap, leb, int_of, if◌then◌else◌, sub32, arith,
}

-- the private variables `cyc_hi` and `cyc_lo`
pub record Counter : Type 0 where
  pub cyc_hi : ℕ
  pub cyc_lo : ℕ

-- the distance of two neighbouring doubles of 53 bits at a natural number below 2 ^ 64; `limit` and
-- `unit` are doubled until the number is below `limit`
unfoldable pub unit_from : ℕ → ℕ → ℕ → ℕ → ℕ
unit_from zero limit unit n = unit
unit_from (suc left) limit unit n =
    let rest = unit_from left (limit * 2) (unit * 2) n in if ltb n limit then unit else rest

abbrev pub unit_at : ℕ → ℕ
unit_at n = unit_from 11 (2 ^ 53) 1 n

-- `n` as a multiple of `unit`, the nearest one, and of two such the even multiple
unfoldable pub round_to : ℕ → ℕ → ℕ
round_to unit n =
    let below = n / unit in
    let up = ltb unit (2 * (n % unit)) || (2 * (n % unit) == unit && below % 2 == 1) in
    (below + int_of up) * unit

-- The sum in `double`s: the two terms are exact, since 32 bits fit in 53, and so are the products
-- by powers of 2; the sum is rounded once, to nearest.
unfoldable pub to_double : ℕ → ℕ
to_double n = round_to (unit_at n) n

unfoldable pub start_counter : ℕ → ℕ → Counter
start_counter hi lo = record { cyc_hi = hi; cyc_lo = lo }

unfoldable pub get_counter : Counter → ℕ → ℕ → ℕ
get_counter c ncyc_hi ncyc_lo =
    let lo = sub32 ncyc_lo c.cyc_lo in
    let borrow = int_of (ltb ncyc_lo lo) in
    let hi = sub32 (sub32 ncyc_hi c.cyc_hi) borrow in to_double (hi * 2 ^ 30 * 4 + lo)

-- the two functions for the Alpha, the counter of which has 32 bits
unfoldable pub alpha_start_counter : ℕ → Counter
alpha_start_counter count = record { cyc_hi = 0; cyc_lo = count }

unfoldable pub alpha_get_counter : Counter → ℕ → ℕ
alpha_get_counter c count =
    let lo = sub32 count c.cyc_lo in
    let borrow = int_of (ltb count lo) in
    let hi = sub32 (sub32 0 c.cyc_hi) borrow in to_double (hi * 2 ^ 30 * 4 + lo)

-- Below 2 ^ 53 a natural number is a double.
to_double_exact : (n : ℕ) → n < 2 ^ 53 → to_double n ≡ n
unfolding to_double round_to unit_from
to_double_exact n h = ground arith

unit_small : (n : ℕ) → (0 < unit_at n) × (unit_at n ≤ 2048)
unfolding unit_from
unit_small n = ground arith

round_near :
    (unit n : ℕ)
    → 0 < unit
    → (2 * round_to unit n ≤ 2 * n + unit) × (2 * n ≤ 2 * round_to unit n + unit)
unfolding round_to
round_near unit n h = grind arith

-- The result of a rounding is at most half of the largest distance away.
to_double_near : (n : ℕ) → (to_double n ≤ n + 1024) × (n ≤ to_double n + 1024)
unfolding to_double
to_double_near n =
    let (low, high) = unit_small n in
    let (above, below) = round_near (unit_at n) n low in (omega arith, omega arith)

to_double_cases : (n : ℕ) → to_double n ≡ (if ltb n (2 ^ 53) then n else to_double n)
to_double_cases n = elim (Bool-cases (ltb n (2 ^ 53))) [
  | inl low ↦ rw low (to_double_exact n (ground arith))
  | inr high ↦ rw high refl
]

-- the difference of two 64-bit readings, modulo 2 ^ 64
abbrev pub elapsed : ℕ → ℕ → ℕ → ℕ → ℕ
elapsed hi lo ncyc_hi ncyc_lo = (ncyc_hi * 2 ^ 32 + ncyc_lo + 2 ^ 64 - (hi * 2 ^ 32 + lo)) % 2 ^ 64

exact_difference :
    (hi lo ncyc_hi ncyc_lo : ℕ)
    → hi < 2 ^ 32
    → lo < 2 ^ 32
    → ncyc_hi < 2 ^ 32
    → ncyc_lo < 2 ^ 32
    → get_counter (start_counter hi lo) ncyc_hi ncyc_lo ≡ to_double (elapsed hi lo ncyc_hi ncyc_lo)
unfolding get_counter start_counter
exact_difference hi lo ncyc_hi ncyc_lo h1 h2 h3 h4 = ap to_double (ground arith)

-- For readings of twice 32 bits, `get_counter` after `start_counter` is the difference of the two
-- 64-bit readings modulo 2 ^ 64, rounded to a double: exactly that difference if it is below 2 ^ 53,
-- and at most 1024 away from it otherwise.
pub get_counter-start_counter :
    (hi lo ncyc_hi ncyc_lo : ℕ)
    → hi < 2 ^ 32
    → lo < 2 ^ 32
    → ncyc_hi < 2 ^ 32
    → ncyc_lo < 2 ^ 32
    → (get_counter (start_counter hi lo) ncyc_hi ncyc_lo ≡ (
        if ltb (elapsed hi lo ncyc_hi ncyc_lo) (2 ^ 53)
        then elapsed hi lo ncyc_hi ncyc_lo
        else to_double (elapsed hi lo ncyc_hi ncyc_lo)))
      × (get_counter (start_counter hi lo) ncyc_hi ncyc_lo ≤ elapsed hi lo ncyc_hi ncyc_lo + 1024)
      × (elapsed hi lo ncyc_hi ncyc_lo ≤ get_counter (start_counter hi lo) ncyc_hi ncyc_lo + 1024)
get_counter-start_counter hi lo ncyc_hi ncyc_lo h1 h2 h3 h4 =
    let d = elapsed hi lo ncyc_hi ncyc_lo in
    let e = exact_difference hi lo ncyc_hi ncyc_lo h1 h2 h3 h4 in
    let (above, below) = to_double_near d in (e ∙ to_double_cases d, rw e above, rw e below)

-- the number of cycles when the counter has not wrapped round, and the number too large by
-- 2 ^ 64 - 2 ^ 32 when it has
abbrev pub alpha_cycles : ℕ → ℕ → ℕ
alpha_cycles first second =
    if leb first second then second - first else second + 2 ^ 32 - first + (2 ^ 64 - 2 ^ 32)

alpha_difference :
    (first second : ℕ)
    → first < 2 ^ 32
    → second < 2 ^ 32
    → alpha_get_counter (alpha_start_counter first) second ≡ to_double (alpha_cycles first second)
unfolding alpha_get_counter alpha_start_counter
alpha_difference first second h1 h2 = ap to_double (ground arith)

-- On the Alpha, for readings of 32 bits, the result is the difference of the readings if the counter
-- has not wrapped round. If it has, the result is the double nearest to the number of cycles plus
-- 2 ^ 64 - 2 ^ 32, at most 1024 away from that sum.
pub alpha_get_counter_lem :
    (first second : ℕ)
    → first < 2 ^ 32
    → second < 2 ^ 32
    → (alpha_get_counter (alpha_start_counter first) second ≡ (
        if leb first second
        then second - first
        else to_double (second + 2 ^ 32 - first + (2 ^ 64 - 2 ^ 32))))
      × (alpha_get_counter (alpha_start_counter first) second ≤ alpha_cycles first second + 1024)
      × (alpha_cycles first second ≤ alpha_get_counter (alpha_start_counter first) second + 1024)
alpha_get_counter_lem first second h1 h2 =
    let e = alpha_difference first second h1 h2 in
    let (above, below) = to_double_near (alpha_cycles first second) in
    (e ∙ cases, rw e above, rw e below)
  where
    cases : to_double (alpha_cycles first second) ≡ (
        if leb first second
        then second - first
        else to_double (second + 2 ^ 32 - first + (2 ^ 64 - 2 ^ 32)))
    cases = elim (Bool-cases (leb first second)) [
      | inl same ↦ rw same (to_double_exact (second - first) (omega arith))
      | inr wrapped ↦ rw wrapped refl
    ]
