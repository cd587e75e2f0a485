-- ===== src/Malloc/Heap/Place.antt =====
-- The calls of `place` when it splits the block, and the words they leave.
use itu_operating_systems_an.Base.{
  ℕ, ◌+◌, ◌-◌, ◌%◌, ◌^◌, ◌≤◌, ◌<◌, ◌≡◌, ◌≢◌, refl, ◌⊎◌, true, arith, leb,
}
use itu_operating_systems_an.Malloc.Machine.{Machine, write, done}
use itu_operating_systems_an.Malloc.Block.{
  size_of, min_block_size, get_size, get_header_ptr, get_next_block_ptr,
}
use itu_operating_systems_an.Malloc.Block.Size.{size_of_lem}
use itu_operating_systems_an.Malloc.Links.{add_to_free_list}
use itu_operating_systems_an.Malloc.Links.Chain.{IsNode}
use itu_operating_systems_an.Malloc.Heap.{set_header, set_footer, place}
use itu_operating_systems_an.Malloc.Heap.Headers.{
  IsBlock, get_size-block, set_header-run, set_footer-run, get_next_block-run,
}

-- The branch that splits, call by call.
split_calls :
    (s s1 s2 s3 s4 : Machine) (ptr cur size rest next : ℕ)
    → get_size (get_header_ptr ptr) s ≡ done cur s
    → (cur + 2 ^ 32 - size) % 2 ^ 32 ≡ rest
    → leb min_block_size rest ≡ true
    → set_header ptr size 1 s ≡ done tt s1
    → set_footer ptr size 1 s1 ≡ done tt s2
    → get_next_block_ptr ptr s2 ≡ done next s2
    → set_header next rest 0 s2 ≡ done tt s3
    → set_footer next rest 0 s3 ≡ done tt s4
    → place ptr size s ≡ add_to_free_list next s4
unfolding place
split_calls s s1 s2 s3 s4 ptr cur size rest next g r e h1 h2 h3 h4 h5 =
    rw g (rw r (rw e (rw h1 (rw h2 (rw h3 (rw h4 (rw h5 refl)))))))

even_header : (n a : ℕ) → n % 8 ≡ 0 → a < 2 → n + a < 2 ^ 32 → size_of (n + a) ≡ n
even_header n a h k l = omega (arith, size_of_lem (n + a) l)

write_self : (w : ℕ → ℕ) (p v : ℕ) → write w p v p ≡ v
write_self w p v = ground arith

write_other : (w : ℕ → ℕ) (p q v : ℕ) → q ≢ p → write w p v q ≡ w q
write_other w p q v h = ground arith

module _ (s : Machine) (ptr cur size : ℕ) (b : IsBlock s ptr cur)
    (at : size_of (s.word (ptr - 4)) ≡ cur) (even : size % 8 ≡ 0) (low : 16 ≤ size)
    (high : size + 16 ≤ cur) where
  rest : ℕ
  rest = cur - size

  pub next : ℕ
  next = ptr + size

  -- the words after the four writes of the headers and footers
  words1 : ℕ → ℕ
  words1 = write s.word (ptr - 4) (size + 1)

  words2 : ℕ → ℕ
  words2 = write words1 (ptr + size - 8) (size + 1)

  words3 : ℕ → ℕ
  words3 = write words2 (next - 4) (rest + 0)

  pub words4 : ℕ → ℕ
  words4 = write words3 (next + rest - 8) (rest + 0)

  abbrev pub with_words : (ℕ → ℕ) → Machine
  with_words w = record s { word = w }

  front-IsBlock : (w : ℕ → ℕ) → IsBlock (with_words w) ptr size
  front-IsBlock w = record {
    aligned = b.aligned;
    above = b.above;
    below = ground arith;
    limit = b.limit;
    whole = even;
    least = low;
  }

  back-IsBlock : (w : ℕ → ℕ) → IsBlock (with_words w) next rest
  unfolding next rest
  back-IsBlock w = record {
    aligned = ground arith;
    above = ground arith;
    below = ground arith;
    limit = b.limit;
    whole = ground arith;
    least = ground arith;
  }

  rest_lt : rest + 0 < 2 ^ 32
  unfolding rest
  rest_lt = ground arith

  enough : leb min_block_size rest ≡ true
  unfolding rest
  enough = ground arith

  remaining : (cur + 2 ^ 32 - size) % 2 ^ 32 ≡ rest
  unfolding rest
  remaining = ground arith

  front_size1 : size_of (words1 (ptr - 4)) ≡ size
  unfolding words1
  front_size1 =
      rw (write_self s.word (ptr - 4) (size + 1))
        (even_header size 1 even (omega arith) (ground arith))

  front_size2 : size_of (words2 (ptr - 4)) ≡ size
  unfolding words2
  front_size2 =
      rw (write_other words1 (ptr + size - 8) (ptr - 4) (size + 1) (ground arith)) front_size1

  back_size3 : size_of (words3 (next - 4)) ≡ rest
  unfolding words3
  back_size3 =
      rw (write_self words2 (next - 4) (rest + 0))
        (even_header rest 0 (back-IsBlock words2).whole (omega arith) rest_lt)

  header1 : set_header ptr size 1 s ≡ done tt (with_words words1)
  unfolding words1
  header1 = set_header-run s ptr cur b size 1 even (omega arith)

  footer2 : set_footer ptr size 1 (with_words words1) ≡ done tt (with_words words2)
  unfolding words2
  footer2 =
      set_footer-run (with_words words1) ptr size (front-IsBlock words1) size 1 even (omega arith)
        front_size1

  next_found : get_next_block_ptr ptr (with_words words2) ≡ done next (with_words words2)
  unfolding next
  next_found = get_next_block-run (with_words words2) ptr size (front-IsBlock words2) front_size2

  header3 : set_header next rest 0 (with_words words2) ≡ done tt (with_words words3)
  unfolding words3
  header3 =
      let back = back-IsBlock words2 in
      set_header-run (with_words words2) next rest back rest 0 back.whole (omega arith)

  footer4 : set_footer next rest 0 (with_words words3) ≡ done tt (with_words words4)
  unfolding words4
  footer4 =
      let back = back-IsBlock words3 in
      set_footer-run (with_words words3) next rest back rest 0 back.whole (omega arith) back_size3

  pub place-split-run : place ptr size s ≡ add_to_free_list next (with_words words4)
  place-split-run =
      split_calls s (with_words words1) (with_words words2) (with_words words3) (with_words words4)
        ptr cur size rest next (rw at at (get_size-block s ptr cur b)) remaining enough header1
        footer2 next_found header3 footer4

  -- what the four writes leave
  pub words4_lem :
      (words4 (ptr - 4) ≡ size + 1)
      × (words4 (ptr + size - 8) ≡ size + 1)
      × (words4 (ptr + size - 4) ≡ cur - size)
      × (words4 (ptr + cur - 8) ≡ cur - size)
  unfolding words4 words3 words2 words1 next rest
  words4_lem = (ground arith, ground arith, ground arith, ground arith)

  pub words4_beside : (a : ℕ) → (a + 4 < ptr) ⊎ (ptr + cur ≤ a + 4) → words4 a ≡ s.word a
  unfolding words4 words3 words2 words1 next rest
  words4_beside a h = ground arith

  -- the payload of the allocated block stays
  pub words4_front : (a : ℕ) → ptr ≤ a → a + 8 < ptr + size → words4 a ≡ s.word a
  unfolding words4 words3 words2 words1 next rest
  words4_front a h k = ground arith

  pub next_lem : (next ≡ ptr + size) × IsNode s.vm next
  unfolding next
  next_lem = (
    refl,
    record { aligned = ground arith; above = ground arith; below = ground arith; limit = b.limit },
  )
