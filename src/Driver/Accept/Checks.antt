-- ===== src/Driver/Accept/Checks.antt =====
-- The checks and the stores of the driver on a new block, one at a time.
use itu_operating_systems_an.Base.{
  ℕ, zero, suc, ◌+◌, ◌^◌, ◌%◌, ◌≤◌, ◌<◌, ◌≡◌, refl, true, false, List, [], ◌∷◌, arith, some, length,
  get_elem?, set,
}
use itu_operating_systems_an.Memlib.{Vm, mem_heap_lo, mem_heap_hi}
use itu_operating_systems_an.Memlib.Brk.{IsVm}
use itu_operating_systems_an.Malloc.Machine
use itu_operating_systems_an.Malloc.Machine.{Machine}
use itu_operating_systems_an.Driver.Ranges.{Range, last_byte, touches_any, added, add_range}
use itu_operating_systems_an.Driver.Trace.{Allocator, Replay, done, check_range, memset}
use itu_operating_systems_an.Driver.Valid.{remember}

pub add_range-added :
    (v : Vm) (q n size : ℕ) (rs : List Range)
    → IsVm v
    → q % 8 ≡ 0
    → v.mem_start_brk < q
    → q + size ≤ v.mem_brk
    → 0 < n
    → n + 15 < 2 ^ 31
    → n + 8 ≤ size
    → touches_any q (last_byte q n) rs ≡ false
    → add_range v q n rs ≡ added (record { lo = q; hi = last_byte q n } ∷ rs)
unfolding add_range mem_heap_lo mem_heap_hi
add_range-added v q n size rs vm h1 h2 h3 h4 h5 h6 h7 =
    let low = vm.low in let high = vm.high in let room = vm.room in ground arith

pub check_range-calls :
    (d : Replay) (t : Machine) (q n : ℕ) (rs : List Range)
    → add_range t.vm q n d.ranges ≡ added rs
    → check_range q n d t ≡ done true (record d { ranges = rs }) t
check_range-calls d t q n rs e = rw e refl

pub remember-calls :
    (a : Allocator) (d : Replay) (t u : Machine) (i q n x y : ℕ)
    → memset q (i % 256) n t ≡ Machine.done tt u
    → get_elem? d.blocks i ≡ some x
    → get_elem? d.block_sizes i ≡ some y
    → remember a i q n d t
      ≡ done tt (record d { blocks = set d.blocks i q; block_sizes = set d.block_sizes i n }) u
unfolding remember
remember-calls a d t u i q n x y e1 e2 e3 = rw e1 (rw e2 (rw e3 refl))

pub in_bounds : (xs : List ℕ) (i : ℕ) → i < length xs → (x : ℕ) × (get_elem? xs i ≡ some x)
in_bounds [] i h = absurd (omega arith)
in_bounds (x ∷ xs) zero h = (x, refl)
in_bounds (x ∷ xs) (suc i) h = in_bounds xs i (omega arith)
