-- ===== src/Malloc/Links/Delete.antt =====
-- `remove_from_free_list` on a list given as a whole.
use itu_operating_systems_an.Base.{
  ℕ, ◌≡◌, refl, true, false, not, ◌&&◌, List, [], ◌∷◌, ◌++◌, arith, ◌==◌, if◌then◌else◌, Bool-cases,
  inl, inr, ap, subst, sym,
}
use itu_operating_systems_an.Memlib.{Vm}
use itu_operating_systems_an.Malloc.Machine.{Machine}
use itu_operating_systems_an.Malloc.Links.{remove_from_free_list}
use itu_operating_systems_an.Malloc.Links.Chain.{mem, is_link, Nodes, IsFreeList}
use itu_operating_systems_an.Malloc.Links.Add.{Relinked}
use itu_operating_systems_an.Malloc.Links.Remove.{remove_from_free_list-Relinked}

abbrev pub delete : ℕ → List ℕ → List ℕ
delete b [] = []
delete b (x ∷ xs) = let rest = delete b xs in if b == x then xs else x ∷ rest

pub is_link-delete :
    (a b : ℕ) (xs : List ℕ) → is_link a xs ≡ false → is_link a (delete b xs) ≡ false
is_link-delete a b [] h = refl
is_link-delete a b (x ∷ xs) h = ground (arith, is_link-delete a b xs)

-- On a list with no repetition the block deleted is gone, and the others stay.
pub mem-delete :
    (v : Vm) (a b : ℕ) (xs : List ℕ) → Nodes v xs → mem a (delete b xs) ≡ (mem a xs && not (a == b))
mem-delete v a b [] n = refl
mem-delete v a b (x ∷ xs) (nx, mx, n) = ground (arith, mem-delete v a b xs n)

-- the list around the block
delete-split :
    (b : ℕ) (xs : List ℕ)
    → mem b xs ≡ true
    → (pre : List ℕ) × (post : List ℕ) × (xs ≡ pre ++ b ∷ post) × (delete b xs ≡ pre ++ post)
delete-split b [] h = cc
delete-split b (x ∷ xs) h = elim (Bool-cases (b == x)) [
  | inl e ↦ let at : b ≡ x = ground arith in ([], xs, ap (λ y. y ∷ xs) (sym at), rw e refl)
  | inr e ↦
      let (pre, post, p, q) = delete-split b xs (ground arith) in
      (x ∷ pre, post, ap (λ l. x ∷ l) p, rw e (ap (λ l. x ∷ l) q))
]

remove_between :
    (s : Machine) (b : ℕ) (xs ys pre post : List ℕ)
    → xs ≡ pre ++ b ∷ post
    → ys ≡ pre ++ post
    → IsFreeList s xs
    → Relinked s xs ys (remove_from_free_list b s)
remove_between s b xs ys pre post p q l =
    let l' : IsFreeList s (pre ++ b ∷ post) = subst (IsFreeList s) p l in
    rw (p, q) (remove_from_free_list-Relinked s b pre post l')

pub remove-delete :
    (s : Machine) (b : ℕ) (xs : List ℕ)
    → IsFreeList s xs
    → mem b xs ≡ true
    → Relinked s xs (delete b xs) (remove_from_free_list b s)
remove-delete s b xs l h =
    let (pre, post, p, q) = delete-split b xs h in
    remove_between s b xs (delete b xs) pre post p q l
