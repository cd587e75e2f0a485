-- ===== src/Timing.antt =====
-- 22-Lab3-malloclab/fcyc.c: the K-best scheme that estimates the running time of a function. The
-- measured times are of a type `A` with the test `<`; `values[0]` and `values[kbest-1]` are close
-- when the test of `has_converged` says so. `kbest` is `k + 1`: with no value to keep, the code
-- would read before its array.
pub mod Insertion
pub mod Best
pub mod Least
mod Tests
use itu_operating_systems_an.Base.{
  ℕ, zero, suc, ◌+◌, Bool, true, false, not, ◌&&◌, Option, none, some, List, [], ◌∷◌, if◌then◌else◌,
  leb, ltb, get_elem?, set, replicate,
}

-- the array and the count of the samples taken
pub record Sampler (A : Type 0) : Type 0 where
  pub values : List A
  pub samplecount : ℕ

-- `calloc` fills the array with `zero_value`.
unfoldable pub init_sampler : {A : Type 0} → A → ℕ → Sampler A
init_sampler zero_value k = record { values = replicate (suc k) zero_value; samplecount = 0 }

module _ {A : Type 0} (lt : A → A → Bool) where
  abbrev pub is_some_lt : A → Option A → Bool
  is_some_lt a none = false
  is_some_lt a (some b) = lt a b

  -- `values[pos-1] > values[pos]` at `pos = p + 1`, and the swap of the two
  abbrev pub out_of_order : List A → ℕ → Bool
  out_of_order [] p = false
  out_of_order (x ∷ []) p = false
  out_of_order (x ∷ y ∷ vs) zero = lt y x
  out_of_order (x ∷ y ∷ vs) (suc p) = out_of_order (y ∷ vs) p

  abbrev pub swap : List A → ℕ → List A
  swap [] p = []
  swap (x ∷ []) p = x ∷ []
  swap (x ∷ y ∷ vs) zero = y ∷ x ∷ vs
  swap (x ∷ y ∷ vs) (suc p) = x ∷ swap (y ∷ vs) p

  -- the insertion from `pos` down
  unfoldable pub sift : ℕ → List A → List A
  sift zero vs = vs
  sift (suc p) vs = let rest = sift p (swap vs p) in if out_of_order vs p then rest else vs

  unfoldable pub add_sample : ℕ → A → Sampler A → Sampler A
  add_sample k val s = record {
    values =
        if ltb s.samplecount (suc k)
        then sift s.samplecount (set s.values s.samplecount val)
        else if is_some_lt val (get_elem? s.values k)
        then sift k (set s.values k val)
        else s.values;
    samplecount = suc s.samplecount;
  }

  -- `close v w` is `(1 + epsilon) * v >= w`
  unfoldable pub has_converged : (A → A → Bool) → ℕ → Sampler A → Bool
  has_converged close k s = leb (suc k) s.samplecount && elim (get_elem? s.values 0) [
    | none ↦ false
    | some v ↦ elim (get_elem? s.values k) [ none ↦ false | some w ↦ close v w ]
  ]

  -- The loop of `fcyc`; `measure n` is the time of the n-th run, whichever counter takes it.
  unfoldable pub fcyc_from : ℕ → (A → A → Bool) → ℕ → ℕ → (ℕ → A) → Sampler A → Option (Sampler A)
  fcyc_from zero close k maxsamples measure s = none
  fcyc_from (suc fuel) close k maxsamples measure s =
      let s' = add_sample k (measure s.samplecount) s in
      let rest = fcyc_from fuel close k maxsamples measure s' in
      if not (has_converged close k s') && ltb s'.samplecount maxsamples then rest else some s'

  -- `values[0]` at the end
  abbrev pub first_of : Option (Sampler A) → Option A
  first_of none = none
  first_of (some s) = get_elem? s.values 0

  -- One round at least, and at most `maxsamples`.
  unfoldable pub fcyc : A → (A → A → Bool) → ℕ → ℕ → (ℕ → A) → Option A
  fcyc zero_value close k maxsamples measure =
      first_of (fcyc_from (suc maxsamples) close k maxsamples measure (init_sampler zero_value k))
