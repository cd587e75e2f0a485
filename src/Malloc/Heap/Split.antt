-- ===== src/Malloc/Heap/Split.antt =====
-- `place` on a block that is large enough to split.
use itu_operating_systems_an.Base.{
  ℕ, ◌+◌, ◌-◌, ◌%◌, ◌≤◌, ◌<◌, ◌≡◌, ◌≢◌, subst, ◌∙◌, ◌⊎◌, inl, inr, false, List, ◌∷◌, arith,
  Bool-cases,
}
use itu_operating_systems_an.Malloc.Machine.{Machine, done}
use itu_operating_systems_an.Malloc.Block.{size_of}
use itu_operating_systems_an.Malloc.Links.Chain.{mem, is_link, IsNode, IsFreeList}
use itu_operating_systems_an.Malloc.Links.Add.{Relinked, add_to_free_list-Relinked}
use itu_operating_systems_an.Malloc.Heap.{place}
use itu_operating_systems_an.Malloc.Heap.Clear.{mem-is_link, Clear, IsFreeList-frame}
use itu_operating_systems_an.Malloc.Heap.Headers.{IsBlock}
use itu_operating_systems_an.Malloc.Heap.Place.{
  words4, with_words, place-split-run, words4_lem, words4_beside, words4_front, next_lem,
}

-- The four words that stand for an allocated block of `size` bytes with a free block behind it.
abbrev pub IsSplit : (ℕ → ℕ) → ℕ → ℕ → ℕ → Type 0
IsSplit w ptr cur size =
    (w (ptr - 4) ≡ size + 1)
    × (w (ptr + size - 8) ≡ size + 1)
    × (w (ptr + size - 4) ≡ cur - size)
    × (w (ptr + cur - 8) ≡ cur - size)

module _ (s : Machine) (ptr cur size : ℕ) (xs : List ℕ) (b : IsBlock s ptr cur)
    (at : size_of (s.word (ptr - 4)) ≡ cur) (even : size % 8 ≡ 0) (low : 16 ≤ size)
    (high : size + 16 ≤ cur) (l : IsFreeList s xs) (clear : Clear ptr cur xs) where
  abbrev written : ℕ → ℕ
  written = words4 s ptr cur size b at even low high

  abbrev split : Machine
  split = with_words s ptr cur size b at even low high written

  still_linked : IsFreeList split xs
  still_linked =
      IsFreeList-frame ptr cur xs clear s written l
        (words4_beside s ptr cur size b at even low high)

  not_listed : mem (ptr + size) xs ≡ false
  not_listed = elim (Bool-cases (mem (ptr + size) xs)) [
    | inl h ↦
        let (p, _) = mem-is_link (ptr + size) xs h in
        let q = clear (ptr + size) (omega arith) (omega arith) in ground arith
    | inr h ↦ h
  ]

  split-Relinked : Relinked split ((ptr + size) ∷ xs) ((ptr + size) ∷ xs) (place ptr size s)
  split-Relinked =
      let (e, n) = next_lem s ptr cur size b at even low high in
      let node : IsNode s.vm (ptr + size) = subst (IsNode s.vm) e n in
      rw (place-split-run s ptr cur size b at even low high)
        (rw e (add_to_free_list-Relinked split (ptr + size) xs still_linked node not_listed))

  in_block :
      (a : ℕ)
      → ptr ≤ a + 4
      → a + 4 < ptr + cur
      → a ≢ ptr + size
      → a ≢ ptr + size + 4
      → split-Relinked.after.word a ≡ written a
  in_block a p q n m = split-Relinked.beside a (ground (arith, clear a p q))

  out_of_block :
      (a : ℕ)
      → (a + 4 < ptr) ⊎ (ptr + cur ≤ a + 4)
      → is_link a xs ≡ false
      → split-Relinked.after.word a ≡ s.word a
  out_of_block a h k =
      split-Relinked.beside a (ground arith) ∙ words4_beside s ptr cur size b at even low high a h

  -- On a block of the storage whose header says `cur` bytes, and a free list that has no link in
  -- it, `place` with a size of at least 16 that is a multiple of 8 and leaves at least 16 bytes
  -- returns; the block is split into an allocated one of that size and a free one of the rest, each
  -- with its header and its footer, the free one is at the front of the free list, the break stays,
  -- and no word outside the block has changed but links of the list, and no word of the payload of
  -- the allocated block.
  pub place-IsSplit :
      (t : Machine) × (place ptr size s ≡ done tt t)
      × IsFreeList t ((ptr + size) ∷ xs)
      × IsSplit t.word ptr cur size
      × (t.vm ≡ s.vm)
      × ((a : ℕ) → (a + 4 < ptr) ⊎ (ptr + cur ≤ a + 4) → is_link a xs ≡ false → t.word a ≡ s.word a)
      × ((a : ℕ) → ptr ≤ a → a + 8 < ptr + size → t.word a ≡ s.word a)
  place-IsSplit =
      let r = split-Relinked in
      let (w1, w2, w3, w4) = words4_lem s ptr cur size b at even low high in
      let least = b.above in
      let put : (a : ℕ)
          → ptr ≤ a + 4
          → a + 4 < ptr + cur
          → a ≢ ptr + size
          → a ≢ ptr + size + 4
          → r.after.word a ≡ written a =
        in_block in
      (
        r.after,
        r.returns,
        r.list,
        (
          put (ptr - 4) (omega arith) (omega arith) (ground arith) (ground arith) ∙ w1,
          put (ptr + size - 8) (omega arith) (omega arith) (ground arith) (ground arith) ∙ w2,
          put (ptr + size - 4) (omega arith) (omega arith) (ground arith) (ground arith) ∙ w3,
          put (ptr + cur - 8) (omega arith) (omega arith) (ground arith) (ground arith) ∙ w4,
        ),
        r.same_vm,
        out_of_block,
        λ a i j.
            (put a (omega arith) (omega arith) (omega arith) (omega arith)
              ∙ words4_front s ptr cur size b at even low high a i j),
      )
