-- ===== src/Malloc/Check/Sound.antt =====
-- What `mm_check` finds on a well-linked free list.
use itu_operating_systems_an.Base.{
  ℕ, zero, suc, ◌+◌, ◌-◌, ◌^◌, ◌≤◌, ◌<◌, ◌≡◌, refl, ◌⊎◌, Bool, true, false, ◌&&◌, Option, none,
  some, List, [], ◌∷◌, arith, ◌==◌, if◌then◌else◌, Bool-cases, length, inl, inr, int_of,
}
use itu_operating_systems_an.Memlib.Brk.{IsVm}
use itu_operating_systems_an.Malloc.Machine.{Machine, done, get_val}
use itu_operating_systems_an.Malloc.Block.{flag_of, is_allocated, is_free, get_header_ptr}
use itu_operating_systems_an.Malloc.Check.{
  Problem, allocated_block, beyond, check_from, head_linked_back, mm_check,
}
use itu_operating_systems_an.Malloc.Links.{list_fuel}
use itu_operating_systems_an.Malloc.Links.Chain.{
  IsNode, Nodes, Linked, IsFreeList, get_next-run, get_prev-run,
}
use itu_operating_systems_an.Malloc.Links.Fit.{length-lt-list_fuel}

-- every block of the list is marked free
abbrev pub all_free : (ℕ → ℕ) → List ℕ → Bool
all_free w [] = true
all_free w (x ∷ xs) = flag_of (w (x - 4)) == 0 && all_free w xs

-- every block of the list starts below the break
abbrev pub Below : ℕ → List ℕ → Type 0
Below brk [] = Unit {0}
Below brk (x ∷ xs) = (x < brk) × Below brk xs

abbrev pub verdict : Bool → Option Problem
verdict free = if free then none else some allocated_block

module _ (s : Machine) where
  is_allocated-run :
      (x : ℕ)
      → IsNode s.vm x
      → is_allocated (get_header_ptr x) s ≡ done (flag_of (s.word (x - 4))) s
  unfolding is_allocated get_header_ptr
  is_allocated-run x n = ground arith

  is_free-run :
      (x : ℕ)
      → IsNode s.vm x
      → is_free (get_header_ptr x) s ≡ done (flag_of (s.word (x - 4)) == 0) s
  unfolding is_free get_header_ptr is_allocated
  is_free-run x n = ground arith

  get_val-run : (x : ℕ) → IsNode s.vm x → get_val x s ≡ done (s.word x) s
  unfolding get_val
  get_val-run x n = ground arith

  beyond-run :
      (x : ℕ)
      → (x ≡ 0) ⊎ (s.vm.mem_start_brk ≤ x) × (x < s.vm.mem_brk)
      → s.vm.mem_brk ≤ s.vm.mem_max_addr
      → s.vm.mem_max_addr < 2 ^ 32
      → beyond x s ≡ done false s
  unfolding beyond
  beyond-run x h k l = ground arith

  -- the loop on a node whose links are good
  check_step :
      (fuel x a b : ℕ)
      → IsNode s.vm x
      → beyond (s.word x) s ≡ done false s
      → beyond (s.word (x + 4)) s ≡ done false s
      → check_from (suc fuel) x a b s ≡ (
          if flag_of (s.word (x - 4)) == 0
          then check_from fuel
              (s.word x)
              (a + int_of (s.word (x + 4) == 0))
              (b + int_of (s.word x == 0))
              s
          else done (some allocated_block) s)
  unfolding check_from
  check_step fuel x a b n hn hp =
      let used : (x == 0) ≡ false = ground arith in
      rw used (
        rw (is_allocated-run x n) (elim (Bool-cases (flag_of (s.word (x - 4)) == 0)) [
          | inl free ↦ rw free (
              rw (is_free-run x n) (
                rw free (
                  rw (get_next-run s x n)
                    (rw (get_prev-run s x n) (rw hn (rw hp (rw (get_val-run x n) refl)))))))
          | inr used ↦ rw used refl
        ]))

  -- NULL or a block pointer below the break
  abbrev InHeap : ℕ → Type 0
  InHeap p = (p ≡ 0) ⊎ (s.vm.mem_start_brk ≤ p) × (p < s.vm.mem_brk)

  abbrev some_left : List ℕ → ℕ
  some_left [] = 0
  some_left (x ∷ xs) = 1

  next_InHeap :
      (prev p : ℕ) (xs : List ℕ)
      → Nodes s.vm xs
      → Below s.vm.mem_brk xs
      → Linked s.word prev p xs
      → InHeap p × (int_of (p == 0) + some_left xs ≤ 1)
  next_InHeap prev p [] n h l = ground arith
  next_InHeap prev p (x ∷ xs) (nx, _, _) (h, _) (e, _, _) = ground arith

  check_end : (fuel p a b : ℕ) → p ≡ 0 → a ≤ 1 → b ≤ 1 → check_from (suc fuel) p a b s ≡ done none s
  unfolding check_from
  check_end fuel p a b e ha hb = ground arith

  check_loop :
      (fuel prev p a b : ℕ) (xs : List ℕ)
      → Nodes s.vm xs
      → Below s.vm.mem_brk xs
      → Linked s.word prev p xs
      → InHeap prev
      → s.vm.mem_brk ≤ s.vm.mem_max_addr
      → a + int_of (prev == 0) ≤ 1
      → b + some_left xs ≤ 1
      → length xs < fuel
      → check_from fuel p a b s ≡ done (verdict (all_free s.word xs)) s
  check_loop zero prev p a b xs n h l i k ha hb f = absurd (omega arith)
  check_loop (suc fuel) prev p a b [] n h l i k ha hb f =
      check_end fuel p a b l (omega arith) (omega arith)
  check_loop (suc fuel) prev p a b (x ∷ xs) (nx, mx, n) (hx, h) (e, back, l) i k ha hb f =
      let (next, count) = next_InHeap x (s.word x) xs n h l in
      let limit = nx.limit in
      let hn = beyond-run (s.word x) next k limit in
      let hp = beyond-run (s.word (x + 4)) (rw back i) k limit in
      let low = nx.above in
      rw (e) (
        rw (check_step fuel x a b nx hn hp) (elim (Bool-cases (flag_of (s.word (x - 4)) == 0)) [
          | inl free ↦ rw free (
              check_loop fuel x (s.word x) _ _ xs n h l (inr (omega arith, hx)) k (ground arith)
                (omega arith) (omega arith))
          | inr used ↦ rw used refl
        ]))

  head_linked_back-run : (xs : List ℕ) → IsFreeList s xs → head_linked_back s ≡ done false s
  unfolding head_linked_back
  head_linked_back-run [] l = let e = l.links in ground arith
  head_linked_back-run (x ∷ xs) l =
      let (n, _, _) = l.nodes in
      let (e, back, _) = l.links in
      let node : IsNode s.vm s.free_list = rw e n in
      let first : s.word (s.free_list + 4) ≡ 0 = rw e back in
      let used : (s.free_list == 0) ≡ false = ground arith in
      rw used (rw (get_prev-run s s.free_list node) (rw first refl))

  -- On a free list of blocks below the break, `mm_check` returns, and its result is 0 when every
  -- block of the list is marked free; otherwise it reports an allocated block on the list.
  pub mm_check-verdict :
      (xs : List ℕ)
      → IsFreeList s xs
      → IsVm s.vm
      → Below s.vm.mem_brk xs
      → mm_check s ≡ done (verdict (all_free s.word xs)) s
  unfolding mm_check
  mm_check-verdict xs l v h = rw (head_linked_back-run xs l) (
      check_loop (list_fuel s) 0 s.free_list 0 0 xs l.nodes h l.links (inl refl) v.high
        (omega arith) (ground arith) (length-lt-list_fuel s xs l.nodes))
