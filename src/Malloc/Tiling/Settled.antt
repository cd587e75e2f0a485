-- ===== src/Malloc/Tiling/Settled.antt =====
-- Rows of blocks with no two free neighbours.
use itu_operating_systems_an.Base.{
  ℕ, ◌+◌, ◌-◌, ◌%◌, ◌≡◌, refl, sym, subst, ap, ◌∙◌, Bool, true, false, not, ◌&&◌, List, [], ◌∷◌,
  ◌++◌, arith, Bool-cases, inl, inr, int_of, leb,
}
use itu_operating_systems_an.Malloc.Machine.{Machine}
use itu_operating_systems_an.Malloc.Tiling.{Block, Tiled, first_ptr, IsHeap}
use itu_operating_systems_an.Malloc.Tiling.Range.{Tiled-le}
use itu_operating_systems_an.Malloc.Tiling.Move.{IsHeap-left}
use itu_operating_systems_an.Malloc.Tiling.Coalesce.{past_free, joined_block}
use itu_operating_systems_an.Malloc.Tiling.Give.{placed}

abbrev pub head_free : List Block → Bool
head_free [] = false
head_free (b ∷ bs) = not b.used

-- no two blocks side by side are free
abbrev pub Apart : List Block → Type 0
Apart [] = Unit {0}
Apart (b ∷ bs) = ((not b.used && head_free bs) ≡ false) × Apart bs

abbrev pub Settled : List Block → List Block → Type 0
Settled before after = Apart before × Apart after × ((head_free before && head_free after) ≡ false)

-- the row of the blocks before, the nearest first, and the blocks behind
abbrev pub whole_row : List Block → List Block → List Block
whole_row [] after = after
whole_row (b ∷ before) after = whole_row before (b ∷ after)

pub Settled-row :
    (before after : List Block) → Settled before after → Apart (whole_row before after)
Settled-row [] after s = s.1
Settled-row (b ∷ before) after ((n, l), r, m) =
    Settled-row before (b ∷ after) (l, (ground arith, r), ground arith)

pub row-Settled :
    (before after : List Block) → Apart (whole_row before after) → Settled before after
row-Settled [] after a = (tt, a, refl)
row-Settled (b ∷ before) after a =
    let (l, (n, r), m) = row-Settled before (b ∷ after) a in ((ground arith, l), r, ground arith)

pub IsHeap-row :
    (s : Machine) (before : List Block) (p : ℕ) (after : List Block) (xs : List ℕ)
    → IsHeap s before p after xs
    → IsHeap s [] (first_ptr s.vm) (whole_row before after) xs
IsHeap-row s [] p after xs h = subst (λ q. IsHeap s [] q after xs) h.back h
IsHeap-row s (b ∷ before) p after xs h =
    IsHeap-row s before (p - b.size) (b ∷ after) xs (IsHeap-left s before p b after xs h)

-- A header says one size and one flag.
tag_unique :
    (m n : ℕ) (f g : Bool) → m % 8 ≡ 0 → n % 8 ≡ 0 → m + int_of f ≡ n + int_of g → (m ≡ n) × (f ≡ g)
tag_unique m n true true h k e = (omega arith, refl)
tag_unique m n true false h k e = absurd (omega arith)
tag_unique m n false true h k e = absurd (omega arith)
tag_unique m n false false h k e = (omega arith, refl)

same_block : (b c : Block) → b.size ≡ c.size → b.used ≡ c.used → b ≡ c
same_block b c e f = λ i. record { size = e i; used = f i }

-- The words determine the row.
pub Tiled-unique :
    (w : ℕ → ℕ) (p e : ℕ) (bs cs : List Block) → Tiled w p bs e → Tiled w p cs e → bs ≡ cs
Tiled-unique w p e [] [] t u = refl
Tiled-unique w p e [] (c ∷ cs) t (k, u) = absurd (omega (arith, Tiled-le w (p + c.size) e cs u))
Tiled-unique w p e (b ∷ bs) [] (k, t) u = absurd (omega (arith, Tiled-le w (p + b.size) e bs t))
Tiled-unique w p e (b ∷ bs) (c ∷ cs) ((bm, _, bh, _), t) ((cm, _, ch, _), u) =
    let (size, used) = tag_unique b.size c.size b.used c.used bm cm (sym bh ∙ ch) in
    let u' : Tiled w (p + b.size) cs e = rw size u in
    ap (λ d. d ∷ bs) (same_block b c size used)
    ∙ ap (λ ds. c ∷ ds) (Tiled-unique w (p + b.size) e bs cs t u')

past_free-Apart :
    (bs : List Block) → Apart bs → Apart (past_free bs) × (head_free (past_free bs) ≡ false)
past_free-Apart [] a = (tt, refl)
past_free-Apart (c ∷ cs) (n, a) = elim (Bool-cases c.used) [
  | inl used ↦ rw used ((ground arith, a), ground arith)
  | inr free ↦ rw free (a, ground arith)
]

-- A free block that has taken in its free neighbours has none.
pub joined-Settled :
    (before after : List Block) (size : ℕ)
    → Apart before
    → Apart after
    → Settled (past_free before) (joined_block before size after ∷ past_free after)
joined-Settled before after size l r =
    let (l', p) = past_free-Apart before l in
    let (r', q) = past_free-Apart after r in (l', (ground arith, r'), ground arith)

-- What is left of a block that is given away has no free neighbour.
pub placed-Settled :
    (before after : List Block) (size cur : ℕ)
    → Apart before
    → Apart after
    → head_free after ≡ false
    → Settled before (placed size cur ++ after)
placed-Settled before after size cur l r n = elim (Bool-cases (leb (size + 16) cur)) [
  | inl split ↦ rw split (l, (refl, (ground arith, r)), ground arith)
  | inr entire ↦ rw entire (l, (refl, r), ground arith)
]
