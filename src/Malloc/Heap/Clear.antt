-- ===== src/Malloc/Heap/Clear.antt =====
-- The free list while the words of a block that is not on it change.
use itu_operating_systems_an.Base.{
  ℕ, ◌+◌, ◌≤◌, ◌<◌, ◌≡◌, ◌≢◌, ap, ◌⊎◌, inl, inr, true, false, List, [], ◌∷◌, arith, leb, Bool-cases,
}
use itu_operating_systems_an.Malloc.Machine.{Machine}
use itu_operating_systems_an.Malloc.Links.Chain.{mem, is_link, IsFreeList, Linked-frame}

pub mem-is_link :
    (a : ℕ) (xs : List ℕ) → mem a xs ≡ true → (is_link a xs ≡ true) × (is_link (a + 4) xs ≡ true)
mem-is_link a [] h = cc
mem-is_link a (x ∷ xs) h = ground (arith, mem-is_link a xs)

-- The words from the header of the block to its footer are no links of the free list.
abbrev pub Clear : ℕ → ℕ → List ℕ → Type 0
Clear ptr cur xs = (a : ℕ) → ptr ≤ a + 4 → a + 4 < ptr + cur → is_link a xs ≡ false

-- no word of the block
abbrev pub Outside : ℕ → ℕ → ℕ → Type 0
Outside ptr cur a = (a + 4 < ptr) ⊎ (ptr + cur ≤ a + 4)

module _ (ptr cur : ℕ) (xs : List ℕ) (clear : Clear ptr cur xs) where
  link-Outside : (a : ℕ) → is_link a xs ≡ true → Outside ptr cur a
  link-Outside a h = elim (Bool-cases (leb ptr (a + 4))) [
    | inl p ↦ elim (Bool-cases (leb (ptr + cur) (a + 4))) [
      | inl q ↦ inr (ground arith)
      | inr q ↦ ground (arith, clear a (ground arith) (ground arith))
    ]
    | inr p ↦ inl (ground arith)
  ]

  -- The list stays when only words of the block change.
  pub IsFreeList-frame :
      (s : Machine) (w : ℕ → ℕ)
      → IsFreeList s xs
      → ((a : ℕ) → Outside ptr cur a → w a ≡ s.word a)
      → IsFreeList (record s { word = w }) xs
  IsFreeList-frame s w l same = record {
    nodes = l.nodes;
    links = Linked-frame s.word w 0 s.free_list xs l.links λ a m.
        (let (p, q) = mem-is_link a xs m in
          (same a (link-Outside a p), same (a + 4) (link-Outside (a + 4) q)));
  }

pub link_ne : (a b : ℕ) (xs : List ℕ) → is_link a xs ≡ true → is_link b xs ≡ false → a ≢ b
link_ne a b xs h k e = cc (ap (λ c. is_link c xs) e)

-- The list stays when only two words that are no links change.
pub IsFreeList-beside :
    (s : Machine) (w : ℕ → ℕ) (xs : List ℕ) (b c : ℕ)
    → IsFreeList s xs
    → is_link b xs ≡ false
    → is_link c xs ≡ false
    → ((a : ℕ) → a ≢ b → a ≢ c → w a ≡ s.word a)
    → IsFreeList (record s { word = w }) xs
IsFreeList-beside s w xs b c l hb hc same = record {
  nodes = l.nodes;
  links = Linked-frame s.word w 0 s.free_list xs l.links λ a m.
      (let (p, q) = mem-is_link a xs m in
        (
          same a (link_ne a b xs p hb) (link_ne a c xs p hc),
          same (a + 4) (link_ne (a + 4) b xs q hb) (link_ne (a + 4) c xs q hc),
        ));
}

pub is_link-cons :
    (a x : ℕ) (xs : List ℕ) → a ≢ x → a ≢ x + 4 → is_link a xs ≡ false → is_link a (x ∷ xs) ≡ false
is_link-cons a x xs h k l = ground arith
