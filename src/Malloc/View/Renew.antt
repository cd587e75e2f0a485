-- ===== src/Malloc/View/Renew.antt =====
-- `mm_realloc` as its callers see it, also when the block moves.
use itu_operating_systems_an.Base.{
  ℕ, ◌+◌, ◌-◌, ◌^◌, ◌%◌, ◌≤◌, ◌<◌, ◌≡◌, ◌≢◌, refl, ap, ◌∙◌, true, false, ◌&&◌, ◌⊎◌, [], arith, ◌==◌,
  Bool-cases, inl, inr, if◌then◌else◌, leb, ltb,
}
use itu_operating_systems_an.Malloc.Machine.{Machine, done, null, memcpy}
use itu_operating_systems_an.Malloc.Block.{calc_block_size}
use itu_operating_systems_an.Malloc.Heap.{mm_malloc, mm_free, move_block, mm_realloc}
use itu_operating_systems_an.Malloc.Tiling.{first_ptr}
use itu_operating_systems_an.Malloc.Tiling.Range.{IsHeap-bounds}
use itu_operating_systems_an.Malloc.Tiling.Search.{extension}
use itu_operating_systems_an.Malloc.Tiling.Resize.{reach}
use itu_operating_systems_an.Malloc.View.{Holds, SamePayloads, SameStorage, assign}
use itu_operating_systems_an.Malloc.View.Zipper.{Holds-apart, Holds-range}
use itu_operating_systems_an.Malloc.View.Alloc.{Served, mm_malloc-Served}
use itu_operating_systems_an.Malloc.View.Release.{mm_free-Holds}
use itu_operating_systems_an.Malloc.View.Full.{full_run}
use itu_operating_systems_an.Malloc.View.Fill.{WithinPayload, fill-Holds, fill-SamePayloads}
use itu_operating_systems_an.Malloc.View.Resize.{
  Renewed, Holds-same, payload_byte, found, stay_case,
}
use itu_operating_systems_an.Malloc.Bytes.{
  byte_at, Span, with_word, copied, memcpy-run, copied_beside, copied_bytes,
}

move_calls :
    (s s1 s2 t : Machine) (p cur n q : ℕ)
    → mm_malloc n s ≡ done q s1
    → (q == null) ≡ false
    → memcpy q p (if ltb cur n then cur else n) s1 ≡ done tt s2
    → mm_free p s2 ≡ done tt t
    → move_block p cur n s ≡ done q t
unfolding move_block
move_calls s s1 s2 t p cur n q e1 e2 e3 e4 = rw e1 (rw e2 (rw e3 (rw e4 refl)))

module _ (s : Machine) (table : ℕ → ℕ) (v : Holds s table) (p : ℕ) (in_use : 0 < table p) (n : ℕ)
    (positive : 0 < n) (small : n + 15 < 2 ^ 31) where
  small31 : n + 15 < 2 ^ 32
  small31 = omega arith

  abbrev count : ℕ
  count = if ltb (table p) n then table p else n

  module _ (q : ℕ) (s1 : Machine) (alloc : mm_malloc n s ≡ done q s1)
      (r : Served s table n q s1) where
    abbrev table1 : ℕ → ℕ
    table1 = assign table q r.size

    abbrev copy : Machine
    copy = with_word s1 (copied s1.word q p count)

    differ : p ≢ q
    differ e = omega (arith, in_use, r.new, ap table e)

    old_size : table1 p ≡ table p
    old_size = ground (arith, differ)

    new_size : table1 q ≡ r.size
    new_size = ground arith

    in_use1 : 0 < table1 p
    in_use1 = rw old_size in_use

    new_in_use : 0 < table1 q
    new_in_use = rw new_size (omega (arith, r.enough))

    old_range :
        (s1.vm.mem_start_brk + 16 ≤ p)
        × (p + table p ≤ s1.vm.mem_brk)
        × (16 ≤ table p)
        × (p % 8 ≡ 0)
    old_range = rw old_size at (Holds-range s1 table1 r.holds p in_use1)

    new_range :
        (s1.vm.mem_start_brk + 16 ≤ q) × (q + r.size ≤ s1.vm.mem_brk) × (16 ≤ r.size) × (q % 8 ≡ 0)
    new_range = rw new_size at (Holds-range s1 table1 r.holds q new_in_use)

    apart1 : (p + table p ≤ q) ⊎ (q + r.size ≤ p)
    apart1 =
        let first = Holds-apart s1 table1 r.holds p q in_use1 new_in_use in
        let last = Holds-apart s1 table1 r.holds q p new_in_use in_use1 in
        ground (arith, differ, first, last, old_size, new_size)

    count-le : (count ≤ table p) × (count ≤ n) × (count + 8 ≤ r.size)
    count-le = ground (arith, r.enough)

    span : (a size : ℕ) → s1.vm.mem_start_brk ≤ a → a + size ≤ s1.vm.mem_brk → Span s1 a size
    span a size low high =
        let h = r.holds.heap in
        record {
          limit = s1.vm.mem_brk;
          start_mod = omega (arith, h.start);
          limit_mod =
              omega (arith, (IsHeap-bounds s1 [] (first_ptr s1.vm) r.holds.row r.holds.list h).3);
          low = low;
          high = high;
          top = h.vm.high;
          small = h.vm.room;
        }

    copy_run : memcpy q p count s1 ≡ done tt copy
    copy_run =
        let (few, _, enough) = count-le in
        memcpy-run s1 q p count
          (span q count (omega (arith, new_range.0)) (omega (arith, new_range.1)))
          (span p count (omega (arith, old_range.0)) (omega (arith, old_range.1)))

    within : WithinPayload s1.word copy.word q (table1 q)
    within a h =
        let even = new_range.3 in
        let (_, _, enough) = count-le in
        copied_beside s1.word q p count a (ground (arith, new_size))

    copy-Holds : Holds copy table1
    copy-Holds = fill-Holds s1 table1 r.holds q new_in_use copy.word within

    copy_bytes :
        (k : ℕ) → k < n → k + 8 < table p → byte_at copy.word (q + k) ≡ byte_at s.word (p + k)
    copy_bytes k l m =
        let e : q + k - q ≡ k = omega arith in
        let few : k < count = ground arith in
        let inside : (leb q (q + k) && ltb (q + k) (q + count)) ≡ true = ground arith in
        let (few_old, _, enough) = count-le in
        copied_bytes s1.word q p count (q + k) (ground (arith, apart1))
        ∙ rw (inside, e) (payload_byte table s s1 p k (old_range.3) m r.contents)

    module _ (t : Machine) (storage : SameStorage copy t 0) (holds : Holds t (assign table1 p 0))
        (kept : SamePayloads (assign table1 p 0) copy t) where
      moved_contents : SamePayloads (assign table p 0) s t
      moved_contents x a h l =
          let other : x ≢ p = ground arith in
          let same : assign table p 0 x ≡ table x = ground arith in
          let m : a + 8 < x + table x = rw same at l in
          let new : x ≢ q = (λ e. omega (arith, ap table e, r.new)) in
          kept x a h (ground arith)
          ∙ fill-SamePayloads s1 table1 r.holds q new_in_use copy.word within x a h (ground arith)
          ∙ r.contents x a h m

      moved-Renewed : Renewed s table p n q t
      moved-Renewed = record {
        size = r.size;
        place = inr r.new;
        enough = r.enough;
        holds =
            Holds-same t (assign table1 p 0) (assign (assign table p 0) q r.size)
              (λ a. ground (arith, differ)) holds;
        storage = record {
          start = storage.start ∙ r.storage.start;
          end = storage.end ∙ r.storage.end;
          low = omega (arith, storage.low, r.storage.low);
          high = omega (arith, storage.high, r.storage.high);
        };
        contents = moved_contents;
        bytes = λ k l m.
            payload_byte (assign table1 p 0) copy t q k (new_range.3)
              (ground (arith, r.enough, differ)) kept
            ∙ copy_bytes k l m;
      }

    moved : (t : Machine) × (move_block p (table p) n s ≡ done q t) × Renewed s table p n q t
    moved =
        let (t, run, holds, storage, kept) = mm_free-Holds copy table1 copy-Holds p in_use1 in
        (
          t,
          move_calls s s1 copy t p (table p) n q alloc (ground (arith, new_range.0)) copy_run run,
          moved-Renewed t storage holds kept,
        )

  move_case :
      s.vm.mem_brk + extension (calc_block_size n) ≤ s.vm.mem_max_addr
      → reach
          (found s table v p in_use n positive small31).block
          (found s table v p in_use n positive small31).after
        < calc_block_size n
      → (q : ℕ) × (t : Machine) × (mm_realloc p n s ≡ done q t) × Renewed s table p n q t
  move_case room more =
      let f = found s table v p in_use n positive small31 in
      let (q, s1, alloc, r) = mm_malloc-Served s table v n positive small room in
      let (t, run, renewed) = moved q s1 alloc r in
      let call = full_run s f.before p f.block f.after v.list f.heap n positive more in
      (q, t, call ∙ rw (f.size) run, renewed)

  -- On a heap with a table of the blocks in use, for a block of the table, a positive request with
  -- `n + 15` below 2 ^ 31, and room above the break for a new block, `mm_realloc` returns a pointer,
  -- with no access outside the storage: that of the block, or one that the table did not have. It
  -- leaves a heap whose table has, in the place of the block, one of at least `n` + 8 bytes at the
  -- pointer; the break has gone up by at most what `mm_malloc` extends the heap by, no payload of
  -- another block in use has changed, and the new payload starts with the bytes of the old one, as
  -- many as both have.
  pub mm_realloc-Renewed :
      s.vm.mem_brk + extension (calc_block_size n) ≤ s.vm.mem_max_addr
      → (q : ℕ) × (t : Machine) × (mm_realloc p n s ≡ done q t) × Renewed s table p n q t
  mm_realloc-Renewed room =
      let f = found s table v p in_use n positive small31 in
      elim (Bool-cases (leb (calc_block_size n) (reach f.block f.after))) [
        | inl fits ↦
            let (t, run, r) = stay_case s table v p in_use n positive small31 (ground arith) in
            (p, t, run, r)
        | inr full ↦ move_case room (ground arith)
      ]
