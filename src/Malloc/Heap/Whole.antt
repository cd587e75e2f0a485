-- ===== src/Malloc/Heap/Whole.antt =====
-- `place` on a block that is too small to split.
use itu_operating_systems_an.Base.{
  ℕ, ◌+◌, ◌-◌, ◌%◌, ◌^◌, ◌≤◌, ◌<◌, ◌≡◌, refl, false, List, arith, leb,
}
use itu_operating_systems_an.Malloc.Machine.{Machine, write, done}
use itu_operating_systems_an.Malloc.Block.{size_of, min_block_size, get_size, get_header_ptr}
use itu_operating_systems_an.Malloc.Block.Size.{size_of_lem}
use itu_operating_systems_an.Malloc.Links.Chain.{IsFreeList}
use itu_operating_systems_an.Malloc.Heap.{set_header, set_footer, place}
use itu_operating_systems_an.Malloc.Heap.Clear.{Clear, Outside, IsFreeList-frame}
use itu_operating_systems_an.Malloc.Heap.Headers.{
  IsBlock, get_size-block, set_header-run, set_footer-run,
}

-- The branch that does not split, call by call.
whole_calls :
    (s s1 s2 : Machine) (ptr cur size rest : ℕ)
    → get_size (get_header_ptr ptr) s ≡ done cur s
    → (cur + 2 ^ 32 - size) % 2 ^ 32 ≡ rest
    → leb min_block_size rest ≡ false
    → set_header ptr cur 1 s ≡ done tt s1
    → set_footer ptr cur 1 s1 ≡ done tt s2
    → place ptr size s ≡ done tt s2
unfolding place
whole_calls s s1 s2 ptr cur size rest g r e h1 h2 = rw g (rw r (rw e (rw h1 (rw h2 refl))))

module _ (s : Machine) (ptr cur size : ℕ) (xs : List ℕ) (b : IsBlock s ptr cur)
    (at : size_of (s.word (ptr - 4)) ≡ cur) (fits : size ≤ cur) (tight : cur < size + 16)
    (l : IsFreeList s xs) (clear : Clear ptr cur xs) where
  header_word : ℕ → ℕ
  header_word = write s.word (ptr - 4) (cur + 1)

  both_words : ℕ → ℕ
  both_words = write header_word (ptr + cur - 8) (cur + 1)

  header_size : size_of (header_word (ptr - 4)) ≡ cur
  unfolding header_word
  header_size =
      let even = b.whole in
      let below : cur + 1 < 2 ^ 32 = ground arith in ground (arith, size_of_lem (cur + 1) below)

  place_whole_run : place ptr size s ≡ done tt (record s { word = both_words })
  unfolding header_word both_words
  place_whole_run =
      whole_calls s (record s { word = header_word }) (record s { word = both_words }) ptr cur size
        (cur - size) (rw at at (get_size-block s ptr cur b)) (ground arith) (ground arith)
        (set_header-run s ptr cur b cur 1 b.whole (omega arith))
        (set_footer-run (record s { word = header_word }) ptr cur
          (record {
            aligned = b.aligned;
            above = b.above;
            below = b.below;
            limit = b.limit;
            whole = b.whole;
            least = b.least;
          })
          cur 1 b.whole (omega arith) header_size)

  both_words-Outside : (a : ℕ) → Outside ptr cur a → both_words a ≡ s.word a
  unfolding header_word both_words
  both_words-Outside a h = ground arith

  both_words_payload : (a : ℕ) → ptr ≤ a → a + 8 < ptr + cur → both_words a ≡ s.word a
  unfolding header_word both_words
  both_words_payload a h k = ground arith

  both_words_lem : (both_words (ptr - 4) ≡ cur + 1) × (both_words (ptr + cur - 8) ≡ cur + 1)
  unfolding header_word both_words
  both_words_lem = (ground arith, ground arith)

  -- On a block of the storage whose header says `cur` bytes, and a free list that has no link in
  -- it, `place` with a size of at most `cur` that leaves less than 16 bytes returns; the whole block
  -- is marked allocated in its header and its footer, with its old size, the free list and the
  -- break are the same, and no word outside the block or of its payload has changed.
  pub place_whole :
      (t : Machine) × (place ptr size s ≡ done tt t)
      × IsFreeList t xs
      × (t.word (ptr - 4) ≡ cur + 1)
      × (t.word (ptr + cur - 8) ≡ cur + 1)
      × (t.vm ≡ s.vm)
      × ((a : ℕ) → Outside ptr cur a → t.word a ≡ s.word a)
      × ((a : ℕ) → ptr ≤ a → a + 8 < ptr + cur → t.word a ≡ s.word a)
  place_whole =
      let (h, f) = both_words_lem in
      (
        record s { word = both_words },
        place_whole_run,
        IsFreeList-frame ptr cur xs clear s both_words l both_words-Outside,
        h,
        f,
        refl,
        both_words-Outside,
        both_words_payload,
      )
