-- ===== src/Clock/Tests.antt =====
-- The theorems at readings where the low halves borrow, and roundings.
use itu_operating_systems_an.Base.{◌+◌, ◌-◌, ◌≤◌, ◌^◌, ◌≡◌, refl, leb, ltb, if◌then◌else◌, arith}
use itu_operating_systems_an.Clock.{
  start_counter, get_counter, alpha_start_counter, alpha_get_counter, to_double, round_to,
  unit_from, elapsed, alpha_cycles, get_counter-start_counter, alpha_get_counter_lem,
}

-- A tie goes to the even multiple.
roundings :
    (to_double (2 ^ 53 + 1) ≡ 2 ^ 53)
    × (to_double (2 ^ 53 + 3) ≡ 2 ^ 53 + 4)
    × (to_double (2 ^ 64 - 1) ≡ 2 ^ 64)
unfolding to_double round_to unit_from
roundings = (refl, refl, refl)

get_counter-start_counter_example :
    (get_counter (start_counter 3 4000000000) 4 5 ≡ (
      if ltb (elapsed 3 4000000000 4 5) (2 ^ 53)
      then elapsed 3 4000000000 4 5
      else to_double (elapsed 3 4000000000 4 5)))
    × (get_counter (start_counter 3 4000000000) 4 5 ≤ elapsed 3 4000000000 4 5 + 1024)
    × (elapsed 3 4000000000 4 5 ≤ get_counter (start_counter 3 4000000000) 4 5 + 1024)
get_counter-start_counter_example =
    get_counter-start_counter 3 4000000000 4 5 (omega arith) (omega arith) (omega arith)
      (omega arith)

alpha_get_counter_lem_example :
    (alpha_get_counter (alpha_start_counter 4000000000) 5 ≡ (
      if leb 4000000000 5
      then 5 - 4000000000
      else to_double (5 + 2 ^ 32 - 4000000000 + (2 ^ 64 - 2 ^ 32))))
    × (alpha_get_counter (alpha_start_counter 4000000000) 5 ≤ alpha_cycles 4000000000 5 + 1024)
    × (alpha_cycles 4000000000 5 ≤ alpha_get_counter (alpha_start_counter 4000000000) 5 + 1024)
alpha_get_counter_lem_example = alpha_get_counter_lem 4000000000 5 (omega arith) (omega arith)
