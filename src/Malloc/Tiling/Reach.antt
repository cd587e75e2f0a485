-- ===== src/Malloc/Tiling/Reach.antt =====
-- What holds after any sequence of calls of the allocator.
use itu_operating_systems_an.Base.{
  ℕ, ◌+◌, ◌^◌, ◌%◌, ◌≤◌, ◌<◌, ◌≡◌, refl, sym, subst, ap, ◌∙◌, true, List, [], ◌∷◌, arith,
}
use itu_operating_systems_an.Memlib.Brk.{IsVm}
use itu_operating_systems_an.Malloc.Machine.{Machine, Run, done, undefined, out_of_fuel}
use itu_operating_systems_an.Malloc.Block.{calc_block_size}
use itu_operating_systems_an.Malloc.Heap.{mm_init, mm_malloc, mm_free, mm_realloc}
use itu_operating_systems_an.Malloc.Tiling.{Block, first_ptr, IsHeap}
use itu_operating_systems_an.Malloc.Tiling.Coalesce.{past_free, joined_size}
use itu_operating_systems_an.Malloc.Tiling.Settled.{
  Apart, Settled, whole_row, Settled-row, row-Settled, IsHeap-row, Tiled-unique, joined-Settled,
  placed-Settled,
}
use itu_operating_systems_an.Malloc.Tiling.Free.{mm_free-IsHeap}
use itu_operating_systems_an.Malloc.Tiling.Search.{extension}
use itu_operating_systems_an.Malloc.Tiling.Allot.{Allotted, fitted, extended, mm_malloc-IsHeap}
use itu_operating_systems_an.Malloc.Tiling.Resize.{reach, Resized, kept, grown, mm_realloc-Resized}
use itu_operating_systems_an.Malloc.Tiling.Init.{mm_init-IsHeap}
use itu_operating_systems_an.Malloc.View.{owned_at, Holds}
use itu_operating_systems_an.Malloc.View.Zipper.{zipper_says}
use itu_operating_systems_an.Malloc.View.Renew.{mm_realloc-Renewed}

-- An allocated block stands at `p`, with `after` behind it.
pub record InUse (s : Machine) (p : ℕ) (b : Block) (after : List Block) : Type 0 where
  pub before : List Block
  pub list : List ℕ
  pub heap : IsHeap s before p (b ∷ after) list
  pub used : b.used ≡ true

-- a storage on which `mm_init` is called
pub record IsFresh (s : Machine) : Type 0 where
  pub vm : IsVm s.vm
  pub unused : s.vm.mem_brk ≡ s.vm.mem_start_brk
  pub aligned : s.vm.mem_start_brk % 8 ≡ 0
  pub empty : s.free_list ≡ 0
  pub room : s.vm.mem_start_brk + 4112 ≤ s.vm.mem_max_addr

-- The states that calls lead to: `mm_init` on a fresh storage, then requests that the storage has
-- room for, frees of blocks in use, and changes of their size, for which a block need not move or
-- the storage has room.
pub data Reachable : Machine → Type 0 where
  initialised : {s t : Machine} → IsFresh s → mm_init s ≡ done true t → Reachable t
  allocated :
      {s t : Machine} {n q : ℕ}
      → Reachable s
      → 0 < n
      → n + 15 < 2 ^ 31
      → s.vm.mem_brk + extension (calc_block_size n) ≤ s.vm.mem_max_addr
      → mm_malloc n s ≡ done q t
      → Reachable t
  freed :
      {s t : Machine} {p : ℕ} {b : Block} {after : List Block}
      → Reachable s
      → InUse s p b after
      → mm_free p s ≡ done tt t
      → Reachable t
  resized :
      {s t : Machine} {n p q : ℕ} {b : Block} {after : List Block}
      → Reachable s
      → InUse s p b after
      → 0 < n
      → n + 15 < 2 ^ 32
      → calc_block_size n ≤ reach b after
      → mm_realloc p n s ≡ done q t
      → Reachable t
  moved :
      {s t : Machine} {n p q : ℕ} {b : Block} {after : List Block}
      → Reachable s
      → InUse s p b after
      → 0 < n
      → n + 15 < 2 ^ 31
      → s.vm.mem_brk + extension (calc_block_size n) ≤ s.vm.mem_max_addr
      → mm_realloc p n s ≡ done q t
      → Reachable t

-- The whole heap, from its first block on, with no two free blocks side by side.
abbrev pub WholeHeap : Machine → Type 0
WholeHeap s = (row : List Block) × (xs : List ℕ) × IsHeap s [] (first_ptr s.vm) row xs × Apart row

whole :
    (s : Machine) (before : List Block) (p : ℕ) (after : List Block) (xs : List ℕ)
    → IsHeap s before p after xs
    → Settled before after
    → WholeHeap s
whole s before p after xs h l =
    (whole_row before after, xs, IsHeap-row s before p after xs h, Settled-row before after l)

-- The same from any block.
WholeHeap-Settled :
    (s : Machine) (before : List Block) (p : ℕ) (after : List Block) (xs : List ℕ)
    → IsHeap s before p after xs
    → WholeHeap s
    → Settled before after
WholeHeap-Settled s before p after xs h (row, ys, g, a) =
    let same =
      Tiled-unique s.word (first_ptr s.vm) s.vm.mem_brk row (whole_row before after) g.front
        (IsHeap-row s before p after xs h).front in
    row-Settled before after (subst Apart same a)

state_of : {A : Type 0} → Machine → Run A → Machine
state_of s (done a t) = t
state_of s undefined = s
state_of s out_of_fuel = s

-- a run has one final state
same_state :
    {A : Type 0} (r : Run A) (a b : A) (s t : Machine)
    → r ≡ done a s
    → r ≡ done b t
    → WholeHeap s
    → WholeHeap t
unfolding state_of
same_state r a b s t e f h = subst WholeHeap (ap (state_of s) (sym e ∙ f)) h

allotted-WholeHeap :
    (s t : Machine) (xs : List ℕ) (size p : ℕ) → WholeHeap s → Allotted s xs size p t → WholeHeap t
allotted-WholeHeap s t xs size p w (fitted before b after ys f h free fits same g k) =
    let (l, (n, r), m) = WholeHeap-Settled s before p (b ∷ after) xs h w in
    whole t before p _ ys g (placed-Settled before after size b.size l r (ground arith))
allotted-WholeHeap s t xs size p w (extended row ys f h e same g k) =
    let (l, r, m) = WholeHeap-Settled s row s.vm.mem_brk [] xs h w in
    let (l', _, _) = joined-Settled row [] size l tt in
    whole t (past_free row) p _ ys g
      (placed-Settled (past_free row) [] size (joined_size row (extension size) []) l' tt refl)

resized-WholeHeap :
    (s t : Machine) (before : List Block) (p : ℕ) (b : Block) (size : ℕ) (after : List Block)
    (xs : List ℕ)
    → IsHeap s before p (b ∷ after) xs
    → WholeHeap s
    → Resized s before p b size t after
    → WholeHeap t
resized-WholeHeap s t before p b size after xs h w (kept fits e) = subst WholeHeap (sym e) w
resized-WholeHeap s t before p b size l xs h w (grown {c} {after} {ys} more free same g k) =
    let (left, (n, (m, r)), o) = WholeHeap-Settled s before p (b ∷ c ∷ after) xs h w in
    whole t before p _ ys g
      (placed-Settled before after size (b.size + c.size) left r (ground arith))

whole-Holds : (s : Machine) (w : WholeHeap s) → Holds s (λ a. owned_at a (first_ptr s.vm) w.0)
whole-Holds s (row, xs, h, a) = record {
  row = row;
  list = xs;
  heap = h;
  apart = a;
  says = λ q. refl;
}

in_table :
    (s : Machine) (p : ℕ) (b : Block) (after : List Block) (u : InUse s p b after) (w : WholeHeap s)
    → 0 < owned_at p (first_ptr s.vm) w.0
in_table s p b after u w =
    let says =
      zipper_says s u.before p (b ∷ after) u.list u.heap (λ a. owned_at a (first_ptr s.vm) w.0)
        (whole-Holds s w) p in
    let used = u.used in let least = u.heap.front.0.1 in ground (arith, says)

-- Every reachable state, after `mm_init` on a fresh storage, requests that the storage has room for,
-- frees of blocks in use, and changes of size for which a block need not move or the storage has
-- room, is a heap: from the prologue to the epilogue a row of blocks, each with its header and its
-- footer, the free ones of which are the free list, and no two free blocks stand side by side.
pub Reachable-WholeHeap : (s : Machine) → Reachable s → WholeHeap s
Reachable-WholeHeap t (initialised {s} f run) =
    let (u, run', same, g) = mm_init-IsHeap s f.vm f.unused f.aligned f.empty f.room in
    same_state (mm_init s) true true u t run' run (whole u [] _ _ _ g (tt, (refl, tt), refl))
Reachable-WholeHeap t (allocated {s} {n} {q} r positive small room run) =
    let w = Reachable-WholeHeap s r in
    let (q', u, run', made) =
      mm_malloc-IsHeap s n positive small [] (first_ptr s.vm) w.0 w.1 w.2 (λ f. room) in
    same_state (mm_malloc n s) q' q u t run' run
      (allotted-WholeHeap s u w.1 (calc_block_size n) q' w made)
Reachable-WholeHeap t (freed {s} {p} {b} {after} r used run) =
    let (u, ys, run', same, g, k) =
      mm_free-IsHeap s used.before p b after used.list used.heap used.used in
    let (left, (n, right), m) =
      WholeHeap-Settled s used.before p (b ∷ after) used.list used.heap (Reachable-WholeHeap s r) in
    same_state (mm_free p s) tt tt u t run' run
      (whole u _ _ _ _ g (joined-Settled used.before after b.size left right))
Reachable-WholeHeap t (resized {s} {n} {p} {q} {b} {after} r used positive small fits run) =
    let (u, run', made) =
      mm_realloc-Resized s used.before p b used.list n positive small after used.heap used.used
        fits in
    same_state (mm_realloc p n s) p q u t run' run (
      resized-WholeHeap s u used.before p b (calc_block_size n) after used.list used.heap
        (Reachable-WholeHeap s r) made)
Reachable-WholeHeap t (moved {s} {n} {p} {q} {b} {after} r used positive small room run) =
    let w = Reachable-WholeHeap s r in
    let (q', u, run', made) =
      mm_realloc-Renewed s (λ a. owned_at a (first_ptr s.vm) w.0) (whole-Holds s w) p
        (in_table s p b after used w) n positive small room in
    let v = made.holds in
    same_state (mm_realloc p n s) q' q u t run' run (v.row, v.list, v.heap, v.apart)
