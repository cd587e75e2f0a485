-- ===== src/Timing/Tests.antt =====
-- Five measurements, three of them kept.
use itu_operating_systems_an.Base.{
  ℕ, ◌≤◌, ◌<◌, ◌≡◌, ◌⊎◌, refl, true, false, ◌+◌, ◌-◌, some, [], ◌∷◌, leb, ltb, arith,
}
use itu_operating_systems_an.Timing.{
  Sampler, add_sample, sift, has_converged, fcyc_from, fcyc, init_sampler,
}
use itu_operating_systems_an.Timing.Insertion.{IsStrict, AtLeast}
use itu_operating_systems_an.Timing.Best.{best, add_sample-best}
use itu_operating_systems_an.Timing.Least.{measured, fcyc-least}

ltb-IsStrict : IsStrict ltb
ltb-IsStrict = record { asym = λ a b h. ground arith; trans = λ a b c h k. ground arith }

-- the time of the n-th run
abbrev times : ℕ → ℕ
times n = elim (ltb n 3) [ true ↦ 10 - n | false ↦ 8 + n ]

-- `kbest` is 3, and three values are close when the first and the last are equal.
fcyc_run : fcyc ltb 0 (λ v w. leb w v) 2 20 times ≡ some 8
unfolding fcyc fcyc_from add_sample sift has_converged init_sampler
fcyc_run = refl

add_sample-best_example :
    add_sample ltb 2 6 (best ltb ltb-IsStrict 2 0 (9 ∷ 5 ∷ 7 ∷ []))
    ≡ best ltb ltb-IsStrict 2 0 (6 ∷ 9 ∷ 5 ∷ 7 ∷ [])
add_sample-best_example = add_sample-best ltb ltb-IsStrict 2 0 6 (9 ∷ 5 ∷ 7 ∷ [])

fcyc-least_example :
    (s : Sampler ℕ) × (fcyc_from ltb 21 (λ v w. leb w v) 2 20 times (init_sampler 0 2) ≡ some s)
    × (1 ≤ s.samplecount)
    × ((s.samplecount ≤ 20) ⊎ (s.samplecount ≡ 1))
    × ((has_converged ltb (λ v w. leb w v) 2 s ≡ true) ⊎ (20 ≤ s.samplecount))
    × ((v : ℕ) × (fcyc ltb 0 (λ v w. leb w v) 2 20 times ≡ some v)
        × AtLeast ltb v (measured s.samplecount times)
        × ((i : ℕ) × (i < s.samplecount) × (v ≡ times i)))
fcyc-least_example = fcyc-least ltb ltb-IsStrict 0 (λ v w. leb w v) 2 20 times
