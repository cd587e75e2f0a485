-- ===== src/Malloc/Tiling/Init.antt =====
-- `mm_init` makes a heap.
use itu_operating_systems_an.Base.{
  ℕ, ◌+◌, ◌%◌, ◌≤◌, ◌≡◌, refl, ◌∙◌, true, false, List, [], ◌∷◌, arith, ◌==◌, inr, ap, add32,
}
use itu_operating_systems_an.Memlib.{minus_one}
use itu_operating_systems_an.Memlib.Brk.{IsVm, mem_sbrk-ok}
use itu_operating_systems_an.Malloc.Machine.{Machine, done, null, write, set_val, sbrk}
use itu_operating_systems_an.Malloc.Block.{make_header}
use itu_operating_systems_an.Malloc.Block.Size.{make_header_lem}
use itu_operating_systems_an.Malloc.Links.{set_next_free_block_ptr, set_prev_free_block_ptr}
use itu_operating_systems_an.Malloc.Links.Chain.{put_next, put_prev, set_next-run, set_prev-run}
use itu_operating_systems_an.Malloc.Heap.{extend_heap, mm_init}
use itu_operating_systems_an.Malloc.Tiling.{Block, Tiled, IsHeap}
use itu_operating_systems_an.Malloc.Tiling.Move.{IsHeap-right}
use itu_operating_systems_an.Malloc.Tiling.Frame.{IsHeap-replace}
use itu_operating_systems_an.Malloc.Tiling.Mark.{block-IsNode}
use itu_operating_systems_an.Malloc.Tiling.Extend.{extend_heap-IsHeap}

mm_init_calls :
    (s s0 s1 s2 s3 s4 t u v : Machine) (p q : ℕ)
    → sbrk 16 s ≡ done p s0
    → (p == minus_one) ≡ false
    → set_val p 0 (record s0 { heap_ptr = p }) ≡ done tt s1
    → set_val (add32 p 4) (make_header 8 1) s1 ≡ done tt s2
    → set_val (add32 p 8) (make_header 8 1) s2 ≡ done tt s3
    → set_val (add32 p 12) (make_header 0 1) s3 ≡ done tt s4
    → extend_heap 1024 (record s4 { heap_ptr = add32 p 8 }) ≡ done q t
    → (q == null) ≡ false
    → set_next_free_block_ptr q 0 (record t { free_list = q }) ≡ done tt u
    → set_prev_free_block_ptr q 0 u ≡ done tt v
    → mm_init s ≡ done true v
unfolding mm_init
mm_init_calls s s0 s1 s2 s3 s4 t u v p q e0 e1 e2 e3 e4 e5 e6 e7 e8 e9 =
    rw e0 (rw e1 (rw e2 (rw e3 (rw e4 (rw e5 (rw e6 (rw e7 (rw e8 (rw e9 refl)))))))))

set_val-run :
    (s : Machine) (p v : ℕ)
    → p % 4 ≡ 0
    → s.vm.mem_start_brk ≤ p
    → p + 4 ≤ s.vm.mem_max_addr
    → set_val p v s ≡ done tt (record s { word = write s.word p v })
unfolding set_val
set_val-run s p v h k l = ground arith

-- A heap of one free block, when `mm_init` sets the head and the links of its list again.
module _ (t : Machine) (q : ℕ) (b : Block) (ys : List ℕ) (g : IsHeap t [] q (b ∷ []) (q ∷ ys))
    (free : b.used ≡ false) where
  abbrev headed : Machine
  headed = record t { free_list = q }

  abbrev next_reset : Machine
  next_reset = record headed { word = put_next t.word q 0 }

  abbrev emptied : Machine
  emptied = record next_reset { word = put_prev next_reset.word q 0 }

  reset_returns :
      ((q == null) ≡ false)
      × (set_next_free_block_ptr q 0 headed ≡ done tt next_reset)
      × (set_prev_free_block_ptr q 0 next_reset ≡ done tt emptied)
  reset_returns =
      let n = block-IsNode t [] q b [] (q ∷ ys) g in
      (ground arith, set_next-run headed q 0 (inr n), set_prev-run next_reset q 0 (inr n))

  emptied-IsHeap : IsHeap emptied [] q (b ∷ []) (q ∷ [])
  emptied-IsHeap =
      let n = block-IsNode t [] q b [] (q ∷ ys) g in
      let ((whole, least, hd, ft), end) = g.front in
      let above = n.above in
      let aligned = n.aligned in
      let mid : Tiled emptied.word q (b ∷ []) (q + b.size) =
        ((whole, least, ground arith, ground arith), refl) in
      IsHeap-replace t emptied [] q (b ∷ []) (b ∷ []) b.size (b ∷ []) [] (q ∷ ys) (q ∷ []) g
        (IsHeap-right t [] q b [] (q ∷ ys) g) refl mid (λ a k o. ground arith)
        (record { nodes = (n, refl, tt); links = (refl, ground arith, ground arith) })
        (λ a. ground arith)

module _ (s : Machine) (i : IsVm s.vm) (fresh : s.vm.mem_brk ≡ s.vm.mem_start_brk)
    (even : s.vm.mem_start_brk % 8 ≡ 0) (empty : s.free_list ≡ 0)
    (room : s.vm.mem_start_brk + 4112 ≤ s.vm.mem_max_addr) where
  abbrev start : ℕ
  start = s.vm.mem_start_brk

  abbrev words : ℕ → ℕ
  words = write (write (write (write s.word start 0) (start + 4) 9) (start + 8) 9) (start + 12) 1

  abbrev prologue : Machine
  prologue = record s {
    vm = record s.vm { mem_brk = start + 16 };
    word = words;
    heap_ptr = start + 8;
  }

  -- the heap of no blocks
  prologue-IsHeap : IsHeap prologue [] (start + 16) [] []
  prologue-IsHeap = record {
    vm = record { low = omega arith; high = omega arith; room = i.room };
    start = even;
    prologue_header = ground arith;
    prologue_footer = ground arith;
    epilogue = ground arith;
    back = refl;
    front = refl;
    list = record { nodes = tt; links = empty };
    listed = λ a. refl;
  }

  prologue_returns :
      (sbrk 16 s ≡ done start (record s { vm = record s.vm { mem_brk = start + 16 } }))
      × ((start == minus_one) ≡ false)
  unfolding sbrk
  prologue_returns =
      let e = mem_sbrk-ok 16 i (omega arith) (omega arith) in
      let top = i.room in (rw e (rw fresh refl), ground arith)

  abbrev written : ℕ → (ℕ → ℕ) → Machine
  written h w = record prologue { heap_ptr = h; word = w }

  prologue_words :
      (set_val start 0 (written start s.word) ≡ done tt (written start (write s.word start 0)))
      × (set_val (add32 start 4) (make_header 8 1) (written start (write s.word start 0))
          ≡ done tt (written start (write (write s.word start 0) (start + 4) 9)))
      × (set_val
            (add32 start 8)
            (make_header 8 1)
            (written start (write (write s.word start 0) (start + 4) 9))
          ≡ done tt
              (written start (write (write (write s.word start 0) (start + 4) 9) (start + 8) 9)))
      × (set_val
            (add32 start 12)
            (make_header 0 1)
            (written start (write (write (write s.word start 0) (start + 4) 9) (start + 8) 9))
          ≡ done tt (written start words))
  prologue_words =
      let top = i.room in
      let e4 : add32 start 4 ≡ start + 4 = omega arith in
      let e8 : add32 start 8 ≡ start + 8 = omega arith in
      let e12 : add32 start 12 ≡ start + 12 = omega arith in
      let m8 : make_header 8 1 ≡ 9 = make_header_lem 8 1 refl (omega arith) in
      let m0 : make_header 0 1 ≡ 1 = make_header_lem 0 1 refl (omega arith) in
      (
        set_val-run (written start s.word) start 0 (omega arith) (omega arith) (omega arith),
        rw (e4, m8)
            (set_val-run (written start (write s.word start 0)) (start + 4) 9 (omega arith)
              (omega arith) (omega arith)),
        rw (e8, m8)
            (set_val-run (written start (write (write s.word start 0) (start + 4) 9)) (start + 8) 9
              (omega arith) (omega arith) (omega arith)),
        rw (e12, m0)
            (set_val-run
              (written start (write (write (write s.word start 0) (start + 4) 9) (start + 8) 9))
              (start + 12) 1 (omega arith) (omega arith) (omega arith)),
      )

  -- On a storage that starts at a multiple of 8 and has room for 4112 bytes, with the break at its
  -- start and an empty free list, `mm_init` returns 0. The break has moved up by 4112, and the state
  -- is a heap of one free block of 4096 bytes behind the prologue.
  pub mm_init-IsHeap :
      (t : Machine) × (mm_init s ≡ done true t)
      × (t.vm ≡ record s.vm { mem_brk = s.vm.mem_start_brk + 4112 })
      × IsHeap t []
          (s.vm.mem_start_brk + 16)
          (record { size = 4096; used = false } ∷ [])
          ((s.vm.mem_start_brk + 16) ∷ [])
  mm_init-IsHeap =
      let (t, ys, run, same, g, kept) =
        extend_heap-IsHeap prologue [] [] prologue-IsHeap 1024 refl (omega arith) (omega arith)
          (omega arith) in
      let b : Block = record { size = 4096; used = false } in
      let (e1, e2) = prologue_returns in
      let (f1, f2, f3) = reset_returns t (start + 16) b ys g refl in
      let (w1, w2, w3, w4) = prologue_words in
      let top = i.room in
      let e8 : add32 start 8 ≡ start + 8 = omega arith in
      let sum : start + 16 + 4096 ≡ start + 4112 = omega arith in
      let begun : extend_heap 1024 (written (add32 start 8) words) ≡ done (start + 16) t =
        rw e8 run in
      (
        emptied t (start + 16) b ys g refl,
        mm_init_calls s (record s { vm = record s.vm { mem_brk = start + 16 } })
            (written start (write s.word start 0))
            (written start (write (write s.word start 0) (start + 4) 9))
            (written start (write (write (write s.word start 0) (start + 4) 9) (start + 8) 9))
            (written start words) t (next_reset t (start + 16) b ys g refl)
            (emptied t (start + 16) b ys g refl) start (start + 16) e1 e2 w1 w2 w3 w4 begun f1 f2
            f3,
        same ∙ ap (λ n. record s.vm { mem_brk = n }) sum,
        emptied-IsHeap t (start + 16) b ys g refl,
      )
