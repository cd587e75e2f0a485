-- ===== src/Malloc/View/Alloc.antt =====
-- `mm_malloc` as its callers see it.
use itu_operating_systems_an.Base.{
  ℕ, ◌+◌, ◌^◌, ◌%◌, ◌≤◌, ◌<◌, ◌≡◌, refl, sym, ap, ◌∙◌, subst, List, [], ◌∷◌, ◌++◌, arith, ◌==◌,
  if◌then◌else◌,
}
use itu_operating_systems_an.Malloc.Machine.{Machine, done}
use itu_operating_systems_an.Malloc.Block.{calc_block_size}
use itu_operating_systems_an.Malloc.Block.Size.{calc_block_size_bounds}
use itu_operating_systems_an.Malloc.Heap.{mm_malloc}
use itu_operating_systems_an.Malloc.Tiling.{Block, first_ptr}
use itu_operating_systems_an.Malloc.Tiling.Range.{IsHeap-bounds}
use itu_operating_systems_an.Malloc.Tiling.Coalesce.{past_free, joined_size}
use itu_operating_systems_an.Malloc.Tiling.Give.{placed}
use itu_operating_systems_an.Malloc.Tiling.Settled.{joined-Settled, placed-Settled}
use itu_operating_systems_an.Malloc.Tiling.Search.{extension}
use itu_operating_systems_an.Malloc.Tiling.Allot.{Allotted, fitted, extended, mm_malloc-IsHeap}
use itu_operating_systems_an.Malloc.View.{
  owned_back, Holds, SamePayloads, SameStorage, assign, owned_at-range, owned_back-range,
}
use itu_operating_systems_an.Malloc.View.Zipper.{
  zipper-Holds, zipper_says, zipper-Settled, Holds-payload, owned_back-past_free, placed_size,
  le-placed_size, owned_at-placed,
}

-- What a call of `mm_malloc` leaves: a new block of the table.
pub record Served (s : Machine) (table : ℕ → ℕ) (n q : ℕ) (last : Machine) : Type 0 where
  pub size : ℕ
  pub new : table q ≡ 0
  pub enough : n + 8 ≤ size
  pub holds : Holds last (assign table q size)
  pub storage : SameStorage s last (extension (calc_block_size n))
  pub contents : SamePayloads table s last

le-joined_size : (row : List Block) (size : ℕ) → size ≤ joined_size row (extension size) []
le-joined_size row size = ground arith

none_within : (f q m : ℕ) → ((0 < m) → (f ≤ q) × (q + m ≤ q)) → m ≡ 0
none_within f q m h = ground arith

-- one entry of the table after the block at `q` is given away
assigned :
    (a q m back here k rest : ℕ)
    → m ≡ back + rest
    → here ≡ (if a == q then k else rest)
    → (a ≡ q → back ≡ 0)
    → (if a == q then k else m) ≡ back + here
assigned a q m back here k rest h1 h2 h3 = ground arith

module _ (s : Machine) (table : ℕ → ℕ) (v : Holds s table) (n : ℕ) (positive : 0 < n)
    (small : n + 15 < 2 ^ 31) where
  pub Allotted-Served :
      (xs : List ℕ) (q : ℕ) (t : Machine)
      → Allotted s xs (calc_block_size n) q t
      → Served s table n q t
  Allotted-Served xs q t (fitted before b after ys f h free fits same g kept) =
      let (even, least, enough, _) = calc_block_size_bounds n positive (omega arith) in
      let (_, al, _, _) = IsHeap-bounds s before q (b ∷ after) xs h in
      let (left, (m, right), o) = zipper-Settled s before q (b ∷ after) xs h table v in
      let whole = h.front.0.0 in
      let first : first_ptr s.vm % 8 ≡ 0 = omega (arith, h.start) in
      let low = λ (a : ℕ). owned_back-range s.word a (first_ptr s.vm) q before first h.back in
      let high = λ (a : ℕ).
        owned_at-range s.word a (q + b.size) s.vm.mem_brk after (omega arith) h.front.1 in
      let says = zipper_says s before q (b ∷ after) xs h table v in
      let big = h.front.0.1 in
      let k = placed_size (calc_block_size n) b.size in
      record {
        size = k;
        new = ground (arith, says q, low q, high q);
        enough = omega (arith, le-placed_size (calc_block_size n) b.size fits);
        holds =
            zipper-Holds t before q (placed (calc_block_size n) b.size ++ after) ys g
              (assign table q k)
              (placed-Settled before after (calc_block_size n) b.size left right (ground arith))
              (λ a. ground (
                arith,
                says a,
                low a,
                high a,
                owned_at-placed a q (calc_block_size n) b.size after fits,
              ));
        storage = record {
          start = rw same refl;
          end = rw same refl;
          low = rw same (omega arith);
          high = rw same (omega arith);
        };
        contents = λ x a i j. kept a (Holds-payload s table v before q (b ∷ after) xs h x a i j);
      }
  Allotted-Served xs q t (extended row ys f h at same g kept) =
      let (even, least, enough, _) = calc_block_size_bounds n positive (omega arith) in
      let (left, right, o) = zipper-Settled s row s.vm.mem_brk [] xs h table v in
      let (left', _, _) = joined-Settled row [] (calc_block_size n) left tt in
      let first : first_ptr t.vm % 8 ≡ 0 = omega (arith, g.start) in
      let low =
        λ (a : ℕ). owned_back-range t.word a (first_ptr t.vm) q (past_free row) first g.back in
      let says = zipper_says s row s.vm.mem_brk [] xs h table v in
      let over = λ (a : ℕ).
        owned_back-past_free a s.vm.mem_brk row
        ∙ ap (λ p. owned_back a p (past_free row)) (sym at) in
      let none : owned_back q q (past_free row) ≡ 0 = none_within (first_ptr t.vm) q _ (low q) in
      let cur = joined_size row (extension (calc_block_size n)) [] in
      let fits = le-joined_size row (calc_block_size n) in
      let k = placed_size (calc_block_size n) cur in
      record {
        size = k;
        new = omega (arith, says q, over q, none);
        enough = omega (arith, le-placed_size (calc_block_size n) cur fits);
        holds =
            zipper-Holds t (past_free row) q (placed (calc_block_size n) cur ++ []) ys g
              (assign table q k)
              (placed-Settled (past_free row) [] (calc_block_size n) cur left' tt refl)
              (λ a.
                assigned a q (table a) (owned_back a q (past_free row)) _ k 0
                  (says a ∙ ap (λ m. m + 0) (over a))
                  (owned_at-placed a q (calc_block_size n) cur [] fits)
                  (λ e. subst (λ b. owned_back b q (past_free row) ≡ 0) (sym e) none));
        storage = record {
          start = rw same refl;
          end = rw same refl;
          low = rw same (omega arith);
          high = rw same (omega arith);
        };
        contents = λ x a i j. kept a (Holds-payload s table v row s.vm.mem_brk [] xs h x a i j);
      }

  -- On a heap with a table of the blocks in use, for a positive request with `n + 15` below 2 ^ 31,
  -- and room above the break for a new block, `mm_malloc` returns, with no access outside the
  -- storage, a pointer that the table did not have, and leaves a heap with a new block there, of at
  -- least `n` + 8 bytes; the break has gone up by at most what the heap is extended by, and no payload
  -- of a block in use has changed.
  pub mm_malloc-Served :
      s.vm.mem_brk + extension (calc_block_size n) ≤ s.vm.mem_max_addr
      → (q : ℕ) × (t : Machine) × (mm_malloc n s ≡ done q t) × Served s table n q t
  mm_malloc-Served room =
      let (q, t, run, made) =
        mm_malloc-IsHeap s n positive small [] (first_ptr s.vm) v.row v.list v.heap (λ f. room) in
      (q, t, run, Allotted-Served v.list q t made)
