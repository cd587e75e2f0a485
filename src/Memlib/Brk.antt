-- ===== src/Memlib/Brk.antt =====
-- How memlib.c moves its break.
use itu_operating_systems_an.Base.{ℕ, ◌+◌, ◌^◌, ◌<◌, ◌≤◌, ◌≡◌, ◌⊎◌, arith}
use itu_operating_systems_an.Memlib.{Vm, minus_one, mem_sbrk}

-- The break lies in the storage, and the storage below 2 ^ 32.
pub record IsVm (v : Vm) : Type 0 where
  pub low : v.mem_start_brk ≤ v.mem_brk
  pub high : v.mem_brk ≤ v.mem_max_addr
  pub room : v.mem_max_addr < 2 ^ 32

-- The step does not wrap round the end of the address space: it is negative as an `int`, and is
-- refused, or `mem_brk + incr` is an address.
abbrev pub NoWrap : ℕ → Vm → Type 0
NoWrap incr v = (2 ^ 31 ≤ incr) ⊎ (v.mem_brk + incr < 2 ^ 32)

-- what `mem_sbrk` returns and does, when it refuses and when it does not
abbrev pub Extended : ℕ → Vm → ℕ → Vm → Type 0
Extended incr v p w =
    (((2 ^ 31 ≤ incr) ⊎ (v.mem_max_addr < v.mem_brk + incr)) × (p ≡ minus_one) × (w ≡ v))
    ⊎ ((incr < 2 ^ 31)
        × (p ≡ v.mem_brk)
        × (w.mem_brk ≡ v.mem_brk + incr)
        × (w.mem_start_brk ≡ v.mem_start_brk)
        × (w.mem_max_addr ≡ v.mem_max_addr)
        × (v.mem_brk + incr ≤ v.mem_max_addr))

-- On a well-formed storage, with a step that does not wrap round the address space, `mem_sbrk`
-- refuses a negative step and one past the end of the storage, with -1 and no change; any other
-- step returns the old break and moves the break up by exactly the bytes asked for. The ends of
-- the storage stay.
pub mem_sbrk-Extended :
    (incr : ℕ) {v : Vm}
    → IsVm v
    → incr < 2 ^ 32
    → NoWrap incr v
    → Extended incr v (mem_sbrk incr v).0 (mem_sbrk incr v).1
unfolding mem_sbrk
mem_sbrk-Extended incr {v} i h n = ground arith

pub mem_sbrk-ok :
    (incr : ℕ) {v : Vm}
    → IsVm v
    → incr < 2 ^ 31
    → v.mem_brk + incr ≤ v.mem_max_addr
    → mem_sbrk incr v ≡ (v.mem_brk, record v { mem_brk = v.mem_brk + incr })
unfolding mem_sbrk
mem_sbrk-ok incr {v} i s h = ground arith

pub mem_sbrk-IsVm : (incr : ℕ) {v : Vm} → IsVm v → NoWrap incr v → IsVm (mem_sbrk incr v).1
unfolding mem_sbrk
mem_sbrk-IsVm incr {v} i n = ground arith
