-- ===== src/Malloc/Links/Fit.antt =====
-- `find_fit` returns the first block of the free list that is large enough, and always ends.
use itu_operating_systems_an.Base.{
  ℕ, zero, suc, ◌+◌, ◌-◌, ◌≤◌, ◌<◌, ◌≡◌, refl, false, List, [], ◌∷◌, arith, leb, ◌==◌,
  if◌then◌else◌, Bool-cases, length, inl, inr,
}
use itu_operating_systems_an.Memlib.{Vm}
use itu_operating_systems_an.Malloc.Machine.{Machine, done}
use itu_operating_systems_an.Malloc.Block.{size_of, get_size, get_header_ptr}
use itu_operating_systems_an.Malloc.Links.{find_fit_from, find_fit, list_fuel}
use itu_operating_systems_an.Malloc.Links.Chain.{
  mem, IsNode, Nodes, Linked, IsFreeList, get_next-run,
}

-- the size in the header of the block at `x`
abbrev pub size_at : (ℕ → ℕ) → ℕ → ℕ
size_at w x = size_of (w (x - 4))

-- first fit over the abstract list; 0 is NULL
abbrev pub first_fit : (ℕ → ℕ) → ℕ → List ℕ → ℕ
first_fit w size [] = 0
first_fit w size (x ∷ xs) = if leb size (size_at w x) then x else first_fit w size xs

-- A list of distinct numbers from `lo` on, below `lo + n`, has at most `n` of them.
remove_all : ℕ → List ℕ → List ℕ
remove_all a [] = []
remove_all a (x ∷ xs) = if a == x then remove_all a xs else x ∷ remove_all a xs

abbrev Distinct : List ℕ → Type 0
Distinct [] = Unit {0}
Distinct (x ∷ xs) = (mem x xs ≡ false) × Distinct xs

abbrev Within : ℕ → ℕ → List ℕ → Type 0
Within lo hi [] = Unit {0}
Within lo hi (x ∷ xs) = (lo ≤ x) × (x < hi) × Within lo hi xs

mem-remove_all : (a b : ℕ) (xs : List ℕ) → mem b xs ≡ false → mem b (remove_all a xs) ≡ false
unfolding remove_all
mem-remove_all a b [] h = refl
mem-remove_all a b (x ∷ xs) h = ground (arith, mem-remove_all a b xs)

Distinct-remove_all : (a : ℕ) (xs : List ℕ) → Distinct xs → Distinct (remove_all a xs)
unfolding remove_all
Distinct-remove_all a [] d = tt
Distinct-remove_all a (x ∷ xs) (m, d) = elim (Bool-cases (a == x)) [
  | inl same ↦ rw same (Distinct-remove_all a xs d)
  | inr other ↦ rw other (mem-remove_all a x xs m, Distinct-remove_all a xs d)
]

remove_all_absent : (a : ℕ) (xs : List ℕ) → mem a xs ≡ false → remove_all a xs ≡ xs
unfolding remove_all
remove_all_absent a [] h = refl
remove_all_absent a (x ∷ xs) h = ground (arith, remove_all_absent a xs)

length-remove_all : (a : ℕ) (xs : List ℕ) → Distinct xs → length xs ≤ suc (length (remove_all a xs))
unfolding remove_all
length-remove_all a [] d = omega arith
length-remove_all a (x ∷ xs) (m, d) =
    ground (arith, length-remove_all a xs d, remove_all_absent a xs)

Within-remove_all :
    (lo n : ℕ) (xs : List ℕ)
    → Within lo (lo + suc n) xs
    → Within lo (lo + n) (remove_all (lo + n) xs)
unfolding remove_all
Within-remove_all lo n [] h = tt
Within-remove_all lo n (x ∷ xs) (p, q, h) = elim (Bool-cases (lo + n == x)) [
  | inl same ↦ rw same (Within-remove_all lo n xs h)
  | inr other ↦ rw other (p, ground arith, Within-remove_all lo n xs h)
]

length-le_Within : (lo n : ℕ) (xs : List ℕ) → Distinct xs → Within lo (lo + n) xs → length xs ≤ n
length-le_Within lo zero [] d h = omega arith
length-le_Within lo zero (x ∷ xs) d h = absurd (omega arith)
length-le_Within lo (suc n) xs d h = omega (
  arith,
  length-remove_all (lo + n) xs d,
  length-le_Within lo n (remove_all (lo + n) xs) (Distinct-remove_all (lo + n) xs d)
      (Within-remove_all lo n xs h),
)

Nodes-Distinct : (v : Vm) (xs : List ℕ) → Nodes v xs → Distinct xs
Nodes-Distinct v [] n = tt
Nodes-Distinct v (x ∷ xs) (nx, mx, n) = (mx, Nodes-Distinct v xs n)

Nodes-Within :
    (v : Vm) (xs : List ℕ)
    → Nodes v xs
    → Within v.mem_start_brk (v.mem_start_brk + (v.mem_max_addr - v.mem_start_brk)) xs
Nodes-Within v [] n = tt
Nodes-Within v (x ∷ xs) (nx, mx, n) = (omega arith, omega arith, Nodes-Within v xs n)

-- The free list is shorter than the fuel.
pub length-lt-list_fuel : (s : Machine) (xs : List ℕ) → Nodes s.vm xs → length xs < list_fuel s
length-lt-list_fuel s xs n =
    omega (arith, length-le_Within _ _ xs (Nodes-Distinct s.vm xs n) (Nodes-Within s.vm xs n))

get_size-run :
    (s : Machine) (x : ℕ)
    → IsNode s.vm x
    → get_size (get_header_ptr x) s ≡ done (size_at s.word x) s
unfolding get_size get_header_ptr
get_size-run s x n = ground arith

find_fit_from-first_fit :
    (s : Machine) (size fuel prev p : ℕ) (xs : List ℕ)
    → Nodes s.vm xs
    → Linked s.word prev p xs
    → length xs < fuel
    → find_fit_from fuel p size s ≡ done (first_fit s.word size xs) s
unfolding find_fit_from
find_fit_from-first_fit s size zero prev p xs n l h = elim h [ ]
find_fit_from-first_fit s size (suc fuel) prev p [] n l h = ground arith
find_fit_from-first_fit s size (suc fuel) prev p (x ∷ xs) (nx, mx, n) (e, back, l) h =
    let used : (x == 0) ≡ false = ground arith in
    let ih = find_fit_from-first_fit s size fuel x (s.word x) xs n l (omega arith) in
    rw (e, used)
      (rw (get_size-run s x nx) (elim (Bool-cases (leb size (size_at s.word x))) [
        | inl fits ↦ rw fits
        | inr small ↦ rw small (rw (get_next-run s x nx) ih)
      ]))

-- What first fit means: every block before the one returned is too small, and it is not; NULL
-- stands for the end of the list.
pub data FirstFit (w : ℕ → ℕ) (size : ℕ) : List ℕ → ℕ → Type 0 where
  nowhere : FirstFit w size [] 0
  here : {x : ℕ} {xs : List ℕ} → size ≤ size_at w x → FirstFit w size (x ∷ xs) x
  further :
      {x b : ℕ} {xs : List ℕ}
      → size_at w x < size
      → FirstFit w size xs b
      → FirstFit w size (x ∷ xs) b

first_fit-FirstFit : (w : ℕ → ℕ) (size : ℕ) (xs : List ℕ) → FirstFit w size xs (first_fit w size xs)
first_fit-FirstFit w size [] = nowhere
first_fit-FirstFit w size (x ∷ xs) = elim (Bool-cases (leb size (size_at w x))) [
  | inl fits ↦ rw fits (here (ground arith))
  | inr small ↦ rw small (further (ground arith) (first_fit-FirstFit w size xs))
]

-- On a free list of the blocks `xs` the loop of `find_fit` ends within its fuel, with no access
-- outside the storage and no change of state, and returns the first block of at least `size`
-- bytes, or NULL if there is none.
pub find_fit-FirstFit :
    (s : Machine) (size : ℕ) (xs : List ℕ)
    → IsFreeList s xs
    → (b : ℕ) × (find_fit size s ≡ done b s) × FirstFit s.word size xs b
unfolding find_fit
find_fit-FirstFit s size xs l = (
  first_fit s.word size xs,
  find_fit_from-first_fit s size (list_fuel s) 0 s.free_list xs l.nodes l.links
      (length-lt-list_fuel s xs l.nodes),
  first_fit-FirstFit s.word size xs,
)
