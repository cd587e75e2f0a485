-- ===== src/Timing/Insertion.antt =====
-- The insertion of fcyc.c puts its value where insertion into an ordered list puts it.
use itu_operating_systems_an.Base.{
  ℕ, zero, suc, ◌≡◌, refl, Bool, true, false, List, [], ◌∷◌, ◌++◌, if◌then◌else◌, length, take,
  take-append, ◌∙◌, arith, Bool-cases, inl, inr, ap,
}
use itu_operating_systems_an.Timing.{out_of_order, swap, sift}

-- What `<` on the measured times satisfies when none of them is NaN.
pub record IsStrict {A : Type 0} (lt : A → A → Bool) : Type 0 where
  pub asym : (a b : A) → lt a b ≡ true → lt b a ≡ false
  pub trans : (a b c : A) → lt b a ≡ false → lt c b ≡ false → lt c a ≡ false

module _ {A : Type 0} (lt : A → A → Bool) where
  abbrev pub insert : A → List A → List A
  insert v [] = v ∷ []
  insert v (x ∷ xs) = let rest = insert v xs in if lt v x then v ∷ x ∷ xs else x ∷ rest

  -- the reference: insertion sort
  abbrev pub sorted : List A → List A
  sorted [] = []
  sorted (x ∷ xs) = insert x (sorted xs)

  abbrev pub AtLeast : A → List A → Type 0
  AtLeast x [] = Unit {0}
  AtLeast x (y ∷ ys) = (lt y x ≡ false) × AtLeast x ys

  abbrev pub Ascending : List A → Type 0
  Ascending [] = Unit {0}
  Ascending (x ∷ xs) = AtLeast x xs × Ascending xs

  abbrev pub front : List A → List A
  front [] = []
  front (x ∷ []) = x ∷ []
  front (x ∷ y ∷ ys) = if lt y x then y ∷ x ∷ ys else x ∷ y ∷ ys

  -- `x` is not above the first element
  abbrev pub NotAboveHead : A → List A → Type 0
  NotAboveHead x [] = Unit {0}
  NotAboveHead x (y ∷ ys) = lt y x ≡ false

  sift-suc :
      (p : ℕ) (vs : List A)
      → sift lt (suc p) vs ≡ (if out_of_order lt vs p then sift lt p (swap lt vs p) else vs)
  unfolding sift
  sift-suc p vs = refl

  sift-zero : (vs : List A) → sift lt 0 vs ≡ vs
  unfolding sift
  sift-zero vs = refl

  -- The first element takes part only in the last step.
  sift-cons :
      (p : ℕ) (x : A) (vs : List A)
      → NotAboveHead x vs
      → sift lt (suc p) (x ∷ vs) ≡ front (x ∷ sift lt p vs)
  unfolding sift
  sift-cons zero x [] h = refl
  sift-cons zero x (y ∷ vs) h = refl
  sift-cons (suc p) x [] h = refl
  sift-cons (suc p) x (y ∷ []) h = rw h refl
  sift-cons (suc zero) x (y ∷ z ∷ vs) h = elim (Bool-cases (lt z y)) [
    | inl e ↦ rw e refl
    | inr e ↦ rw (e, h) refl
  ]
  sift-cons (suc (suc p)) x (y ∷ z ∷ vs) h =
      let e = sift-cons (suc p) x (y ∷ swap lt (z ∷ vs) p) h in
      elim (Bool-cases (out_of_order lt (z ∷ vs) p)) [
        | inl out ↦ rw out e
        | inr ok ↦ rw (ok, h) refl
      ]

  module _ (strict : IsStrict lt) where
    front-insert :
        (v x : A) (xs pad : List A)
        → AtLeast x xs
        → front (x ∷ insert v xs ++ pad) ≡ insert v (x ∷ xs) ++ pad
    front-insert v x [] pad h = elim (Bool-cases (lt v x)) [ inl e ↦ rw e refl | inr e ↦ rw e refl ]
    front-insert v x (y ∷ ys) pad (h, _) = elim (Bool-cases (lt v x)) [
      | inl e ↦
          let f : lt v y ≡ true = ground (arith, strict.trans x y v h) in rw (e, f) (rw e refl)
      | inr e ↦ elim (Bool-cases (lt v y)) [
        | inl f ↦ rw (e, f) (rw e refl)
        | inr f ↦ rw (e, f) (rw h refl)
      ]
    ]

    pub sift-insert :
        (v : A) (xs pad : List A)
        → Ascending xs
        → sift lt (length xs) (xs ++ v ∷ pad) ≡ insert v xs ++ pad
    unfolding sift
    sift-insert v [] pad a = refl
    sift-insert v (x ∷ []) pad a = front-insert v x [] pad tt
    sift-insert v (x ∷ y ∷ xs) pad ((h, hs), a) =
        sift-cons (suc (length xs)) x (y ∷ xs ++ v ∷ pad) h
        ∙ ap (λ r. front (x ∷ r)) (sift-insert v (y ∷ xs) pad a)
        ∙ front-insert v x (y ∷ xs) pad (h, hs)

    AtLeast-insert :
        (x v : A) (xs : List A) → lt v x ≡ false → AtLeast x xs → AtLeast x (insert v xs)
    AtLeast-insert x v [] h a = (h, tt)
    AtLeast-insert x v (y ∷ ys) h (b, a) = elim (Bool-cases (lt v y)) [
      | inl e ↦ rw e (h, (b, a))
      | inr e ↦ rw e (b, AtLeast-insert x v ys h a)
    ]

    pub AtLeast-trans : (x y : A) (xs : List A) → lt y x ≡ false → AtLeast y xs → AtLeast x xs
    AtLeast-trans x y [] h a = tt
    AtLeast-trans x y (z ∷ zs) h (b, a) = (strict.trans x y z h b, AtLeast-trans x y zs h a)

    insert-Ascending : (v : A) (xs : List A) → Ascending xs → Ascending (insert v xs)
    insert-Ascending v [] a = (tt, tt)
    insert-Ascending v (x ∷ xs) (h, a) = elim (Bool-cases (lt v x)) [
      | inl e ↦ let le = strict.asym v x e in rw e ((le, AtLeast-trans v x xs le h), (h, a))
      | inr e ↦ rw e (AtLeast-insert x v xs e h, insert-Ascending v xs a)
    ]

    pub sorted-Ascending : (xs : List A) → Ascending (sorted xs)
    sorted-Ascending [] = tt
    sorted-Ascending (x ∷ xs) = insert-Ascending x (sorted xs) (sorted-Ascending xs)

    pub length-insert : (v : A) (xs : List A) → length (insert v xs) ≡ suc (length xs)
    length-insert v [] = refl
    length-insert v (x ∷ xs) = elim (Bool-cases (lt v x)) [
      | inl e ↦ rw e refl
      | inr e ↦ rw e (ap suc (length-insert v xs))
    ]

    pub length-sorted : (xs : List A) → length (sorted xs) ≡ length xs
    length-sorted [] = refl
    length-sorted (x ∷ xs) = length-insert x (sorted xs) ∙ ap suc (length-sorted xs)

    below_last :
        (v x last : A) (xs rest : List A)
        → lt v x ≡ true
        → AtLeast x (xs ++ last ∷ rest)
        → lt v last ≡ true
    below_last v x last [] rest h (a, _) = ground (arith, strict.trans x last v a)
    below_last v x last (y ∷ xs) rest h (_, a) = below_last v x last xs rest h a

    -- the first elements after an insertion: the last of them, or the new one, falls out
    pub take-insert :
        (v last : A) (xs rest : List A)
        → Ascending (xs ++ last ∷ rest)
        → take (suc (length xs)) (insert v (xs ++ last ∷ rest))
          ≡ (if lt v last then insert v xs else xs ++ last ∷ [])
    take-insert v last [] rest a = elim (Bool-cases (lt v last)) [
      | inl e ↦ rw e refl
      | inr e ↦ rw e refl
    ]
    take-insert v last (x ∷ xs) rest (h, a) =
        let ih = take-insert v last xs rest a in
        elim (Bool-cases (lt v x)) [
          | inl e ↦
              rw (e, below_last v x last xs rest e h)
                (ap (λ l. v ∷ x ∷ l) (take-append xs (last ∷ rest)))
          | inr e ↦ elim (Bool-cases (lt v last)) [
            | inl f ↦ rw (e, f) (ap (λ l. x ∷ l) (rw f at ih))
            | inr f ↦ rw (e, f) (ap (λ l. x ∷ l) (rw f at ih))
          ]
        ]
