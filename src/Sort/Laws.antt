-- ===== src/Sort/Laws.antt =====
-- What `bubble_sort` does to an array, for any comparison, and for one that is a total order.
use mathlib.Core.List.{Perm, append_assoc, append-nil}
use mathlib.Core.List.Perm
use itu_operating_systems_an.Base.{
  ℕ, zero, suc, ◌≡◌, refl, ap, ◌∙◌, Bool, true, false, ◌⊎◌, inl, inr, Bool-cases, none, some, List,
  [], ◌∷◌, ◌++◌, ℤ, length, arith,
}
use itu_operating_systems_an.Sort.{positive, inner, pass, outer, bubble_sort}

abbrev pub All {ℓ κ} : {A : Type ℓ} → (A → Type κ) → List A → Type κ
All P [] = Unit
All P (x ∷ xs) = P x × All P xs

module _ {ℓ} {A : Type ℓ} (cmp : A → A → ℤ) where
  abbrev pub NotAbove : A → A → Type 0
  NotAbove a b = positive (cmp a b) ≡ false

  -- every element stands before those that the comparison puts above it, or equal
  abbrev pub IsSorted : List A → Type 0
  IsSorted [] = Unit
  IsSorted (x ∷ xs) = All (NotAbove x) xs × IsSorted xs

  inner-perm : (x : A) (xs : List A) → Perm (inner cmp x xs) (x ∷ xs)
  unfolding inner
  inner-perm x [] = Perm.refl _
  inner-perm x (y ∷ xs) = elim (Bool-cases (positive (cmp x y))) [
    | inl above ↦ rw above (Perm.trans (Perm.cons y (inner-perm x xs)) (Perm.swap _ _ _))
    | inr ordered ↦ rw ordered (Perm.cons x (inner-perm y xs))
  ]

  outer-perm : (n : ℕ) (xs : List A) → Perm (outer cmp n xs) xs
  unfolding outer pass
  outer-perm zero xs = Perm.refl _
  outer-perm (suc n) [] = outer-perm n []
  outer-perm (suc n) (x ∷ xs) = Perm.trans (outer-perm n (inner cmp x xs)) (inner-perm x xs)

  -- The array that comes back is a rearrangement of the one given, whatever the comparison; with
  -- no memory nothing comes back.
  pub bubble_sort-perm :
      (allocated : Bool) (xs : List A)
      → ((allocated ≡ false) × (bubble_sort cmp allocated xs ≡ none))
        ⊎ ((allocated ≡ true)
            × ((ys : List A) × (bubble_sort cmp allocated xs ≡ some ys) × Perm ys xs))
  unfolding bubble_sort
  bubble_sort-perm true xs = inr (refl, (outer cmp (length xs) xs, refl, outer-perm (length xs) xs))
  bubble_sort-perm false xs = inl (refl, refl)

  -- What a comparison needs for its array to come out in order: of two elements one at most is
  -- above the other, and "not above" is transitive.
  pub record IsOrder : Type ℓ where
    pub total : (a b : A) → positive (cmp a b) ≡ true → NotAbove b a
    pub trans : (a b c : A) → NotAbove a b → NotAbove b c → NotAbove a c

  All-append : (P : A → Type 0) (xs ys : List A) → All P (xs ++ ys) → All P xs × All P ys
  All-append P [] ys h = (tt, h)
  All-append P (x ∷ xs) ys (p, h) = let r = All-append P xs ys h in ((p, r.0), r.1)

  All-inner : (P : A → Type 0) (x : A) (xs : List A) → P x → All P xs → All P (inner cmp x xs)
  unfolding inner
  All-inner P x [] p h = (p, tt)
  All-inner P x (y ∷ xs) p (q, h) = elim (Bool-cases (positive (cmp x y))) [
    | inl above ↦ rw above (q, All-inner P x xs p h)
    | inr ordered ↦ rw ordered (p, All-inner P y xs q h)
  ]

  -- a pass leaves an ordered part alone
  inner-sorted : (x : A) (xs : List A) → All (NotAbove x) xs → IsSorted xs → inner cmp x xs ≡ x ∷ xs
  unfolding inner
  inner-sorted x [] h s = refl
  inner-sorted x (y ∷ xs) (q, h) (below, s) = rw q (ap (λ t. x ∷ t) (inner-sorted y xs below s))

  -- `front` stands before the ordered `back`, and nothing of it is above anything there
  abbrev Settled : List A → List A → Type 0
  Settled front back = All (λ f. All (NotAbove f) back) front × IsSorted back

  inner-append :
      (x : A) (xs back : List A)
      → Settled (x ∷ xs) back
      → inner cmp x (xs ++ back) ≡ inner cmp x xs ++ back
  unfolding inner
  inner-append x [] back ((h, t), s) = inner-sorted x back h s
  inner-append x (y ∷ xs) back ((h, (k, t)), s) = elim (Bool-cases (positive (cmp x y))) [
    | inl above ↦ rw above (ap (λ r. y ∷ r) (inner-append x xs back ((h, t), s)))
    | inr ordered ↦ rw ordered (ap (λ r. x ∷ r) (inner-append y xs back ((k, t), s)))
  ]

  -- A pass ends with an element that nothing else is above.
  record Bubbled (x : A) (xs : List A) (out : List A) : Type ℓ where
    front : List A
    top : A
    shape : out ≡ front ++ top ∷ []
    count : length front ≡ length xs
    first : NotAbove x top
    all : All (λ f. NotAbove f top) front

  module _ (o : IsOrder) where
    NotAbove-refl : (a : A) → NotAbove a a
    NotAbove-refl a = elim (Bool-cases (positive (cmp a a))) [ inl p ↦ o.total a a p | inr q ↦ q ]

    inner-Bubbled : (x : A) (xs : List A) → Bubbled x xs (inner cmp x xs)
    unfolding inner
    inner-Bubbled x [] = record {
      front = [];
      top = x;
      shape = refl;
      count = refl;
      first = NotAbove-refl x;
      all = tt;
    }
    inner-Bubbled x (y ∷ xs) = elim (Bool-cases (positive (cmp x y))) [
      | inl above ↦
          let r = inner-Bubbled x xs in
          rw above (record {
            front = y ∷ r.front;
            top = r.top;
            shape = ap (λ t. y ∷ t) r.shape;
            count = ap suc r.count;
            first = r.first;
            all = (o.trans y x r.top (o.total x y above) r.first, r.all);
          })
      | inr ordered ↦
          let r = inner-Bubbled y xs in
          let first = o.trans x y r.top ordered r.first in
          rw ordered (record {
            front = x ∷ r.front;
            top = r.top;
            shape = ap (λ t. x ∷ t) r.shape;
            count = ap suc r.count;
            first = first;
            all = (first, r.all);
          })
    ]

    All-zip : (P Q : A → Type 0) (xs : List A) → All P xs → All Q xs → All (λ a. P a × Q a) xs
    All-zip P Q [] p q = tt
    All-zip P Q (x ∷ xs) (p, ps) (q, qs) = ((p, q), All-zip P Q xs ps qs)

    Settled-nil : (xs : List A) → Settled xs []
    Settled-nil [] = (tt, tt)
    Settled-nil (x ∷ xs) = ((tt, (Settled-nil xs).0), tt)

    outer-IsSorted :
        (n : ℕ) (front back : List A)
        → length front ≡ n
        → Settled front back
        → IsSorted (outer cmp n (front ++ back))
    unfolding outer pass
    outer-IsSorted zero [] back e (h, s) = s
    outer-IsSorted zero (x ∷ xs) back e h = absurd (omega arith)
    outer-IsSorted (suc n) [] back e h = absurd (omega arith)
    outer-IsSorted (suc n) (x ∷ xs) back e (h, s) =
        let b = inner-Bubbled x xs in
        let kept = All-inner (λ f. All (NotAbove f) back) x xs h.0 h.1 in
        let (low, (top, _)) =
          All-append (λ f. All (NotAbove f) back) b.front (b.top ∷ []) (rw (b.shape) at kept) in
        let moved : inner cmp x (xs ++ back) ≡ b.front ++ b.top ∷ back =
          inner-append x xs back (h, s)
          ∙ ap (λ t. t ++ back) b.shape
          ∙ append_assoc b.front (b.top ∷ []) back in
        rw moved (
          outer-IsSorted n b.front (b.top ∷ back) (omega (arith, b.count)) (
            All-zip (λ f. NotAbove f b.top) (λ f. All (NotAbove f) back) b.front b.all low,
            (top, s),
          ))

    -- With such a comparison the array that comes back is in order, and a rearrangement of the
    -- one given.
    pub bubble_sort-IsSorted :
        (xs : List A)
        → (ys : List A) × (bubble_sort cmp true xs ≡ some ys) × IsSorted ys × Perm ys xs
    unfolding bubble_sort
    bubble_sort-IsSorted xs = (
      outer cmp (length xs) xs,
      refl,
      rw append-nil at (outer-IsSorted (length xs) xs [] refl (Settled-nil xs)),
      outer-perm (length xs) xs,
    )
