-- ===== src/Timing/Least.antt =====
-- `fcyc` ends, and returns the least of the times it measured.
use itu_operating_systems_an.Base.{
  ℕ, zero, suc, ◌+◌, ◌≤◌, ◌<◌, ◌≡◌, refl, sym, subst, Bool, true, false, not, ◌&&◌, some, List, [],
  ◌∷◌, ◌++◌, ◌⊎◌, if◌then◌else◌, ltb, get_elem?, length, take, replicate, ◌∙◌, arith, Bool-cases,
  inl, inr, ap,
}
use itu_operating_systems_an.Timing.{
  Sampler, init_sampler, add_sample, has_converged, fcyc_from, first_of, fcyc,
}
use itu_operating_systems_an.Timing.Insertion.{IsStrict, insert, sorted, AtLeast, AtLeast-trans}
use itu_operating_systems_an.Timing.Best.{take-pad, add_sample-best}

-- the first `n` times, the latest in front
abbrev pub measured : {A : Type 0} → ℕ → (ℕ → A) → List A
measured zero measure = []
measured (suc n) measure = measure n ∷ measured n measure

length-measured : {A : Type 0} (n : ℕ) (measure : ℕ → A) → length (measured n measure) ≡ n
length-measured zero measure = refl
length-measured (suc n) measure = ap suc (length-measured n measure)

module _ {A : Type 0} (lt : A → A → Bool) (strict : IsStrict lt) (z : A) (close : A → A → Bool)
    (k maxsamples : ℕ) (measure : ℕ → A) where
  -- the state after `n` samples
  sampled : ℕ → Sampler A
  sampled n = record {
    values = take (suc k) (sorted lt (measured n measure) ++ replicate (suc k) z);
    samplecount = n;
  }

  sample_next : (n : ℕ) → add_sample lt k (measure n) (sampled n) ≡ sampled (suc n)
  unfolding sampled
  sample_next n =
      subst
        (λ c.
          add_sample lt k (measure n) (record { values = (sampled n).values; samplecount = c })
          ≡ record { values = (sampled (suc n)).values; samplecount = suc c })
        (length-measured n measure) (add_sample-best lt strict k z (measure n) (measured n measure))

  goes_on : ℕ → Bool
  goes_on n = not (has_converged lt close k (sampled n)) && ltb n maxsamples

  goes_on-lt : (n : ℕ) → goes_on n ≡ true → n < maxsamples
  unfolding goes_on
  goes_on-lt n e = ground arith

  fcyc_from-suc :
      (fuel n : ℕ)
      → fcyc_from lt (suc fuel) close k maxsamples measure (sampled n) ≡ (
          if goes_on (suc n)
          then fcyc_from lt fuel close k maxsamples measure (sampled (suc n))
          else some (sampled (suc n)))
  unfolding fcyc_from goes_on sampled
  fcyc_from-suc fuel n = rw (sample_next n) refl

  fcyc_from-ends :
      (fuel n : ℕ)
      → maxsamples ≤ n + suc fuel
      → (m : ℕ) × (n ≤ m)
        × ((suc m ≤ maxsamples) ⊎ (m ≡ n))
        × (goes_on (suc m) ≡ false)
        × (fcyc_from lt (suc fuel) close k maxsamples measure (sampled n) ≡ some (sampled (suc m)))
  fcyc_from-ends zero n h = elim (Bool-cases (goes_on (suc n))) [
    | inl e ↦ absurd (omega (arith, goes_on-lt (suc n) e))
    | inr e ↦ (n, omega arith, inr refl, e, fcyc_from-suc zero n ∙ rw e refl)
  ]
  fcyc_from-ends (suc fuel) n h = elim (Bool-cases (goes_on (suc n))) [
    | inl e ↦
        let (m, p, q, stop, r) = fcyc_from-ends fuel (suc n) (omega arith) in
        (
          m,
          omega arith,
          omega (arith, goes_on-lt (suc n) e),
          stop,
          fcyc_from-suc (suc fuel) n ∙ rw e r,
        )
    | inr e ↦ (n, omega arith, inr refl, e, fcyc_from-suc (suc fuel) n ∙ rw e refl)
  ]

  sampled_zero : sampled 0 ≡ init_sampler z k
  unfolding sampled init_sampler
  sampled_zero =
      ap (λ vs. record { values = vs; samplecount = 0 })
        (take-pad (suc k) (suc k) (suc k) [] z (omega arith) (omega arith))

  -- the first value kept is the first in order
  first_value :
      (xs : List A) (v : A)
      → get_elem? xs 0 ≡ some v
      → get_elem? (take (suc k) (xs ++ replicate (suc k) z)) 0 ≡ some v
  first_value [] v e = cc
  first_value (x ∷ xs) v e = e

  insert-head :
      (x v : A) (xs : List A)
      → get_elem? xs 0 ≡ some v
      → get_elem? (insert lt x xs) 0 ≡ some (if lt x v then x else v)
  insert-head x v [] e = cc
  insert-head x v (y ∷ xs) e = ground arith

  irreflexive : (x : A) → lt x x ≡ false
  irreflexive x = ground (arith, strict.asym x x)

  least_of :
      (m : ℕ)
      → (v : A) × (get_elem? (sorted lt (measured (suc m) measure)) 0 ≡ some v)
        × AtLeast lt v (measured (suc m) measure)
        × ((i : ℕ) × (i < suc m) × (v ≡ measure i))
  least_of zero = (measure 0, refl, (irreflexive (measure 0), tt), (0, omega arith, refl))
  least_of (suc m) =
      let (v, e, a, (i, l, w)) = least_of m in
      let x = measure (suc m) in
      let head = insert-head x v (sorted lt (measured (suc m) measure)) e in
      elim (Bool-cases (lt x v)) [
        | inl f ↦ (
          x,
          head ∙ rw f refl,
          (
            irreflexive x,
            AtLeast-trans lt strict x v (measured (suc m) measure) (strict.asym x v f) a,
          ),
          (suc m, omega arith, refl),
        )
        | inr f ↦ (v, head ∙ rw f refl, (f, a), (i, omega arith, w))
      ]

  fcyc_value :
      (n : ℕ)
      → fcyc_from lt (suc maxsamples) close k maxsamples measure (sampled 0) ≡ some (sampled n)
      → fcyc lt z close k maxsamples measure
        ≡ get_elem? (take (suc k) (sorted lt (measured n measure) ++ replicate (suc k) z)) 0
  unfolding fcyc sampled
  fcyc_value n r =
      ap (λ s. first_of lt (fcyc_from lt (suc maxsamples) close k maxsamples measure s))
        (sym sampled_zero)
      ∙ ap (first_of lt) r

  from_start :
      (n : ℕ)
      → fcyc_from lt (suc maxsamples) close k maxsamples measure (sampled 0) ≡ some (sampled n)
      → fcyc_from lt (suc maxsamples) close k maxsamples measure (init_sampler z k)
        ≡ some (sampled n)
  from_start n r =
      ap (fcyc_from lt (suc maxsamples) close k maxsamples measure) (sym sampled_zero) ∙ r

  stopped :
      (n : ℕ) → goes_on n ≡ false → (has_converged lt close k (sampled n) ≡ true) ⊎ (maxsamples ≤ n)
  unfolding goes_on
  stopped n e = ground arith

  -- The loop of `fcyc` ends, with a state that counts the samples taken: at least one, and at most
  -- `maxsamples` if that is positive; it has converged, or the count is `maxsamples` or more. `fcyc`
  -- returns one of the times that were measured, as many as the count says, and none of them is
  -- below the result.
  pub fcyc-least :
      (s : Sampler A) × (fcyc_from lt (suc maxsamples) close k maxsamples measure (init_sampler z k)
        ≡ some s)
      × (1 ≤ s.samplecount)
      × ((s.samplecount ≤ maxsamples) ⊎ (s.samplecount ≡ 1))
      × ((has_converged lt close k s ≡ true) ⊎ (maxsamples ≤ s.samplecount))
      × ((v : A) × (fcyc lt z close k maxsamples measure ≡ some v)
          × AtLeast lt v (measured s.samplecount measure)
          × ((i : ℕ) × (i < s.samplecount) × (v ≡ measure i)))
  unfolding sampled
  fcyc-least =
      let (m, _, q, stop, r) = fcyc_from-ends maxsamples 0 (omega arith) in
      let (v, e, a, i) = least_of m in
      (
        sampled (suc m),
        from_start (suc m) r,
        omega arith,
        omega arith,
        stopped (suc m) stop,
        (v, fcyc_value (suc m) r ∙ first_value (sorted lt (measured (suc m) measure)) v e, a, i),
      )
