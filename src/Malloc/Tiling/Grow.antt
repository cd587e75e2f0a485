-- ===== src/Malloc/Tiling/Grow.antt =====
-- `extend_heap` on a heap, up to the call of `coalesce`: a free block at the old break, behind it a
-- new epilogue.
use itu_operating_systems_an.Base.{
  ℕ, ◌+◌, ◌-◌, ◌*◌, ◌^◌, ◌%◌, ◌≤◌, ◌<◌, ◌≡◌, ◌≢◌, refl, ◌∙◌, true, false, List, [], ◌∷◌, arith,
  ◌==◌, Bool-cases, inl, inr, if◌then◌else◌,
}
use itu_operating_systems_an.Memlib.{Vm, minus_one}
use itu_operating_systems_an.Memlib.Brk.{mem_sbrk-ok}
use itu_operating_systems_an.Malloc.Machine.{Machine, done, write, sbrk}
use itu_operating_systems_an.Malloc.Block.{size_of, get_header_ptr, get_next_block_ptr}
use itu_operating_systems_an.Malloc.Block.Size.{make_header_lem}
use itu_operating_systems_an.Malloc.Links.{add_to_free_list}
use itu_operating_systems_an.Malloc.Links.Chain.{
  mem, is_link, IsNode, Nodes, IsFreeList, Linked-frame,
}
use itu_operating_systems_an.Malloc.Links.Add.{Relinked, add_to_free_list-Relinked}
use itu_operating_systems_an.Malloc.Heap.{set_header, set_footer, coalesce, extend_heap}
use itu_operating_systems_an.Malloc.Heap.Clear.{is_link-cons}
use itu_operating_systems_an.Malloc.Heap.Around.{tag_size}
use itu_operating_systems_an.Malloc.Heap.Headers.{
  IsBlock, set_header-run, set_footer-run, get_next_block-run,
}
use itu_operating_systems_an.Malloc.Tiling.{Block, first_ptr, IsHeap}
use itu_operating_systems_an.Malloc.Tiling.Range.{free_back-range, IsHeap-bounds}
use itu_operating_systems_an.Malloc.Tiling.Frame.{back_frame, sentinel_words}
use itu_operating_systems_an.Malloc.Tiling.Give.{is_link-mem}

pub extend_calls :
    (s s0 s1 s2 s3 s4 t : Machine) (words size bp next q : ℕ)
    → (if words % 2 == 0 then words * 4 % 2 ^ 32 else (words + 1) % 2 ^ 32 * 4 % 2 ^ 32) ≡ size
    → sbrk size s ≡ done bp s0
    → (bp == minus_one) ≡ false
    → set_header bp size 0 s0 ≡ done tt s1
    → set_footer bp size 0 s1 ≡ done tt s2
    → get_next_block_ptr bp s2 ≡ done next s2
    → set_header next 0 1 s2 ≡ done tt s3
    → add_to_free_list bp s3 ≡ done tt s4
    → coalesce bp s4 ≡ done q t
    → extend_heap words s ≡ done q t
unfolding extend_heap
extend_calls s s0 s1 s2 s3 s4 t words size bp next q e0 e1 e2 e3 e4 e5 e6 e7 e8 =
    rw e0 (rw e1 (rw e2 (rw e3 (rw e4 (rw e5 (rw e6 (rw e7 (rw e8 refl))))))))

set_epilogue-run :
    (s : Machine) (next : ℕ)
    → next % 8 ≡ 0
    → s.vm.mem_start_brk + 8 ≤ next
    → next ≤ s.vm.mem_max_addr
    → s.vm.mem_max_addr < 2 ^ 32
    → set_header next 0 1 s ≡ done tt (record s { word = write s.word (next - 4) 1 })
unfolding set_header get_header_ptr
set_epilogue-run s next h1 h2 h3 h4 =
    ground (arith, make_header_lem 0 1 (omega arith) (omega arith))

Nodes-brk : (v : Vm) (brk : ℕ) (xs : List ℕ) → Nodes v xs → Nodes (record v { mem_brk = brk }) xs
Nodes-brk v brk [] n = tt
Nodes-brk v brk (x ∷ xs) (nx, mx, n) = (
  record { aligned = nx.aligned; above = nx.above; below = nx.below; limit = nx.limit },
  mx,
  Nodes-brk v brk xs n,
)

module _ (s : Machine) (row : List Block) (xs : List ℕ) (h : IsHeap s row s.vm.mem_brk [] xs)
    (size : ℕ) (even : size % 8 ≡ 0) (least : 16 ≤ size) (small : size < 2 ^ 31)
    (room : s.vm.mem_brk + size ≤ s.vm.mem_max_addr) where
  abbrev pub brk : ℕ
  brk = s.vm.mem_brk

  abbrev pub grown : Block
  grown = record { size = size; used = false }

  abbrev pub moved : Machine
  moved = record s { vm = record s.vm { mem_brk = s.vm.mem_brk + size } }

  abbrev pub words1 : ℕ → ℕ
  words1 = write s.word (brk - 4) (size + 0)

  abbrev pub words2 : ℕ → ℕ
  words2 = write words1 (brk + size - 8) (size + 0)

  abbrev pub words3 : ℕ → ℕ
  words3 = write words2 (brk + size - 4) 1

  abbrev pub with_epilogue : Machine
  with_epilogue = record moved { word = words3 }

  free_below : (a : ℕ) → mem a xs ≡ true → (first_ptr s.vm ≤ a) × (a + 16 ≤ brk)
  free_below a m =
      free_back-range s.word a (first_ptr s.vm) brk row (omega (arith, h.start)) h.back
        (ground (arith, h.listed a))

  high_word : (a : ℕ) → brk ≤ a + 8 → is_link a xs ≡ false
  high_word a l = elim (Bool-cases (is_link a xs)) [
    | inl m ↦ elim (is_link-mem a xs m) [
      | inl i ↦ absurd (omega (arith, free_below a i))
      | inr i ↦ absurd (omega (arith, free_below (a - 4) i.1))
    ]
    | inr m ↦ m
  ]

  moved_list : IsFreeList with_epilogue xs
  moved_list = record {
    nodes = Nodes-brk s.vm (s.vm.mem_brk + size) xs h.list.nodes;
    links =
        Linked-frame s.word words3 0 s.free_list xs h.list.links
          λ a m. (let (l, k) = free_below a m in (ground arith, ground arith));
  }

  grown-IsBlock : (w : ℕ → ℕ) → IsBlock (record moved { word = w }) brk size
  grown-IsBlock w =
      let (low, al, _, _) = IsHeap-bounds s row brk [] xs h in
      record {
        aligned = al;
        above = omega arith;
        below = room;
        limit = h.vm.room;
        whole = even;
        least = least;
      }

  pub grown-Relinked :
      Relinked with_epilogue (brk ∷ xs) (brk ∷ xs) (add_to_free_list brk with_epilogue)
  grown-Relinked =
      let k = grown-IsBlock words3 in
      let node : IsNode moved.vm brk = record {
        aligned = k.aligned;
        above = k.above;
        below = omega (arith, k.below);
        limit = k.limit;
      } in
      let new : mem brk xs ≡ false = ground (arith, free_below brk) in
      add_to_free_list-Relinked with_epilogue brk xs moved_list node new

  pub grown_returns :
      (sbrk size s ≡ done brk moved)
      × ((brk == minus_one) ≡ false)
      × (set_header brk size 0 moved ≡ done tt (record moved { word = words1 }))
      × (set_footer brk size 0 (record moved { word = words1 })
          ≡ done tt (record moved { word = words2 }))
      × (get_next_block_ptr brk (record moved { word = words2 })
          ≡ done (brk + size) (record moved { word = words2 }))
      × (set_header (brk + size) 0 1 (record moved { word = words2 }) ≡ done tt with_epilogue)
  unfolding sbrk
  grown_returns =
      let (low, al, _, _) = IsHeap-bounds s row brk [] xs h in
      let top = h.vm.room in
      let kept : size_of (size + 0) ≡ size = tag_size size 0 even (omega arith) (ground arith) in
      (
        rw (mem_sbrk-ok size h.vm small room) refl,
        ground arith,
        set_header-run moved brk size (grown-IsBlock s.word) size 0 even (omega arith),
        set_footer-run (record moved { word = words1 }) brk size (grown-IsBlock words1) size 0 even
            (omega arith) (ground (arith, kept)),
        get_next_block-run (record moved { word = words2 }) brk size (grown-IsBlock words2)
            (ground (arith, kept)),
        set_epilogue-run (record moved { word = words2 }) (brk + size) (omega arith) (omega arith)
            room top,
      )

  pub grown_beside :
      (a : ℕ)
      → is_link a xs ≡ false
      → a ≢ brk
      → a ≢ brk + 4
      → grown-Relinked.after.word a ≡ words3 a
  grown_beside a i j l = grown-Relinked.beside a (is_link-cons a brk xs j l i)

  pub grown-IsHeap : IsHeap grown-Relinked.after row brk (grown ∷ []) (brk ∷ xs)
  grown-IsHeap =
      let r = grown-Relinked in
      let (low, al, _, _) = IsHeap-bounds s row brk [] xs h in
      let (l1, l2, l3) = sentinel_words s row brk [] xs h in
      let put : (a : ℕ) → is_link a xs ≡ false → a ≢ brk → a ≢ brk + 4 → r.after.word a ≡ words3 a =
        grown_beside in
      let v = h.vm in
      let e = r.same_vm in
      record {
        vm = rw e (record { low = omega (arith, v.low); high = room; room = v.room });
        start = rw e h.start;
        prologue_header = rw e (
            put (s.vm.mem_start_brk + 4) l1 (omega arith) (omega arith)
            ∙ ground (arith, h.prologue_header));
        prologue_footer = rw e (
            put (s.vm.mem_start_brk + 8) l2 (omega arith) (omega arith)
            ∙ ground (arith, h.prologue_footer));
        epilogue = rw e (
            put (brk + size - 4) (high_word (brk + size - 4) (omega arith)) (omega arith)
              (omega arith)
            ∙ ground arith);
        back = rw e (
            back_frame s xs r.after.word row brk [] h
              (λ a i j. put a i (omega arith) (omega arith) ∙ ground arith));
        front = rw e (
          (
            even,
            least,
            put (brk - 4) l3 (omega arith) (omega arith) ∙ ground arith,
            put (brk + size - 8) (high_word (brk + size - 8) (omega arith)) (omega arith)
                  (omega arith)
                ∙ ground arith,
          ),
          refl,
        );
        list = r.list;
        listed = λ a. ground (arith, h.listed a);
      }
