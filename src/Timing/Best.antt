-- ===== src/Timing/Best.antt =====
-- The array of fcyc.c holds the least samples.
use mathlib.Core.List.{append-nil}
use itu_operating_systems_an.Base.{
  ℕ, zero, suc, ◌+◌, ◌-◌, ◌≤◌, ◌<◌, ◌≡◌, refl, sym, subst, Bool, List, [], ◌∷◌, ◌++◌, if◌then◌else◌,
  ltb, length, take, replicate, set-append, get_elem?-append, length-append, ltb-true, ltb-false,
  arith, Bool-cases, inl, inr, ap,
}
use itu_operating_systems_an.Timing.{Sampler, add_sample}
use itu_operating_systems_an.Timing.Insertion.{
  IsStrict, insert, sorted, Ascending, AtLeast, sift-insert, sorted-Ascending, length-sorted,
  length-insert, take-insert,
}

module _ {A : Type 0} where
  pub take-pad :
      (n m d : ℕ) (xs : List A) (z : A)
      → length xs + d ≡ n
      → n ≤ m
      → take n (xs ++ replicate m z) ≡ xs ++ replicate d z
  take-pad zero m zero [] z h l = refl
  take-pad zero m (suc d) [] z h l = absurd (omega arith)
  take-pad (suc n) m zero [] z h l = absurd (omega arith)
  take-pad (suc n) zero (suc d) [] z h l = absurd (omega arith)
  take-pad (suc n) (suc m) (suc d) [] z h l =
      ap (λ l. z ∷ l) (take-pad n m d [] z (omega arith) (omega arith))
  take-pad zero m d (x ∷ xs) z h l = absurd (omega arith)
  take-pad (suc n) m d (x ∷ xs) z h l =
      ap (λ l. x ∷ l) (take-pad n m d xs z (omega arith) (omega arith))

  take-left : (n : ℕ) (xs ys : List A) → n ≤ length xs → take n (xs ++ ys) ≡ take n xs
  take-left zero xs ys h = refl
  take-left (suc n) [] ys h = absurd (omega arith)
  take-left (suc n) (x ∷ xs) ys h = ap (λ l. x ∷ l) (take-left n xs ys (omega arith))

  split_at :
      (k : ℕ) (xs : List A)
      → k < length xs
      → (front : List A) × (x : A) × (rest : List A) × (xs ≡ front ++ x ∷ rest) × (length front ≡ k)
  split_at k [] h = absurd (omega arith)
  split_at zero (x ∷ xs) h = ([], x, xs, refl, refl)
  split_at (suc k) (x ∷ xs) h =
      let (front, y, rest, e, l) = split_at k xs (omega arith) in
      (x ∷ front, y, rest, ap (λ l. x ∷ l) e, ap suc l)

  take-middle :
      (xs : List A) (x : A) (rest : List A) → take (suc (length xs)) (xs ++ x ∷ rest) ≡ xs ++ x ∷ []
  take-middle [] x rest = refl
  take-middle (y ∷ xs) x rest = ap (λ l. y ∷ l) (take-middle xs x rest)

module _ {A : Type 0} (lt : A → A → Bool) (strict : IsStrict lt) where
  -- `add_sample` on an array with room, and on a full one
  add_room :
      (k n : ℕ) (v p : A) (xs pad : List A)
      → Ascending lt xs
      → length xs ≡ n
      → n < suc k
      → add_sample lt k v (record { values = xs ++ p ∷ pad; samplecount = n })
        ≡ record { values = insert lt v xs ++ pad; samplecount = suc n }
  unfolding add_sample
  add_room k n v p xs pad a e h =
      rw (ltb-true n (suc k) h, sym e, set-append xs p pad v, sift-insert lt strict v xs pad a) refl

  add_full :
      (n : ℕ) (v last : A) (xs : List A)
      → Ascending lt xs
      → length xs < n
      → add_sample lt (length xs) v (record { values = xs ++ last ∷ []; samplecount = n })
        ≡ record {
          values = if lt v last then insert lt v xs else xs ++ last ∷ [];
          samplecount = suc n;
        }
  unfolding add_sample
  add_full n v last xs a h = elim (Bool-cases (lt v last)) [
    | inl e ↦
        rw (ltb-false n (suc (length xs)) (omega arith), get_elem?-append xs last [])
          (rw e
            (rw (set-append xs last [] v, sift-insert lt strict v xs [] a) (rw append-nil refl)))
    | inr e ↦
        rw (ltb-false n (suc (length xs)) (omega arith), get_elem?-append xs last []) (rw e refl)
  ]

  AtLeast-front : (x : A) (xs ys : List A) → AtLeast lt x (xs ++ ys) → AtLeast lt x xs
  AtLeast-front x [] ys a = tt
  AtLeast-front x (y ∷ xs) ys (h, a) = (h, AtLeast-front x xs ys a)

  Ascending-front : (xs ys : List A) → Ascending lt (xs ++ ys) → Ascending lt xs
  Ascending-front [] ys a = tt
  Ascending-front (x ∷ xs) ys (h, a) = (AtLeast-front x xs ys h, Ascending-front xs ys a)

  -- a full array keeps the first elements of the ordered list
  full_step :
      (k n : ℕ) (v last : A) (s xs rest pad : List A)
      → s ≡ xs ++ last ∷ rest
      → length xs ≡ k
      → Ascending lt s
      → k < n
      → add_sample lt k v (record { values = take (suc k) (s ++ pad); samplecount = n })
        ≡ record { values = take (suc k) (insert lt v s ++ pad); samplecount = suc n }
  full_step k n v last s xs rest pad e len a h =
      let asc : Ascending lt (xs ++ last ∷ rest) = subst (Ascending lt) e a in
      let l = length-append xs (last ∷ rest) in
      rw (e, sym len)
        (rw
          (
            take-left (suc (length xs)) (xs ++ last ∷ rest) pad (omega arith),
            take-left (suc (length xs)) (insert lt v (xs ++ last ∷ rest)) pad
                (omega (arith, length-insert lt strict v (xs ++ last ∷ rest))),
            take-middle xs last rest,
            take-insert lt strict v last xs rest asc,
          )
          (add_full n v last xs (Ascending-front xs (last ∷ rest) asc) (omega arith)))

  -- The `k + 1` least samples in order, and zeros for those that are not there yet.
  abbrev pub best : ℕ → A → List A → Sampler A
  best k z samples = record {
    values = take (suc k) (sorted lt samples ++ replicate (suc k) z);
    samplecount = length samples;
  }

  add_sample-best_room :
      (k : ℕ) (z v : A) (xs : List A)
      → length xs < suc k
      → add_sample lt k v (best k z xs) ≡ best k z (v ∷ xs)
  add_sample-best_room k z v xs h =
      let s = sorted lt xs in
      let e = length-sorted lt strict xs in
      let d = k - length s in
      let before = take-pad (suc k) (suc k) (suc d) s z (omega arith) (omega arith) in
      let after =
        take-pad (suc k) (suc k) d (insert lt v s) z (omega (arith, length-insert lt strict v s))
          (omega arith) in
      rw (before, after)
        (add_room k (length xs) v z s (replicate d z) (sorted-Ascending lt strict xs) e h)

  add_sample-best_full :
      (k : ℕ) (z v : A) (xs : List A)
      → suc k ≤ length xs
      → add_sample lt k v (best k z xs) ≡ best k z (v ∷ xs)
  add_sample-best_full k z v xs h =
      let s = sorted lt xs in
      let e = length-sorted lt strict xs in
      let (init, last, rest, at, len) = split_at k s (omega arith) in
      full_step k (length xs) v last s init rest (replicate (suc k) z) at len
        (sorted-Ascending lt strict xs) h

  -- One more sample keeps the array at the `k + 1` least of all, whether it has room or is full.
  pub add_sample-best :
      (k : ℕ) (z v : A) (xs : List A) → add_sample lt k v (best k z xs) ≡ best k z (v ∷ xs)
  add_sample-best k z v xs = elim (Bool-cases (ltb (length xs) (suc k))) [
    | inl e ↦ add_sample-best_room k z v xs (ground arith)
    | inr e ↦ add_sample-best_full k z v xs (ground arith)
  ]
