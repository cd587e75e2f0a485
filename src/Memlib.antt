-- ===== src/Memlib.antt =====
-- 22-Lab3-malloclab/memlib.c: the simulated `brk` of the allocator. Addresses are 32 bits wide, as
-- in the 32-bit build that the casts `(unsigned int)ptr` of mm.c ask for.
pub mod Brk
use itu_operating_systems_an.Base.{
  ℕ, ◌+◌, ◌-◌, ◌*◌, ◌^◌, ◌%◌, ◌<◌, ◌≤◌, Bool, ◌||◌, Option, none, some, ltb, add32, sub32,
  is_negative, if◌then◌else◌,
}

-- the private variables of memlib.c
pub record Vm : Type 0 where
  pub mem_start_brk : ℕ
  pub mem_brk : ℕ
  pub mem_max_addr : ℕ

-- `MAX_HEAP` of config.h
abbrev pub max_heap : ℕ
max_heap = 20 * 2 ^ 20

-- the address that `(void *)-1` stands for
abbrev pub minus_one : ℕ
minus_one = 2 ^ 32 - 1

-- `malloc(MAX_HEAP)` is the argument; `none` is its NULL, on which the program exits.
unfoldable pub mem_init : Option ℕ → Option Vm
mem_init none = none
mem_init (some start) =
    some (record { mem_start_brk = start; mem_brk = start; mem_max_addr = add32 start max_heap })

unfoldable pub mem_reset_brk : Vm → Vm
mem_reset_brk v = record v { mem_brk = v.mem_start_brk }

-- `incr` is an `int`, by its bit pattern. The first part of the result is what the call returns.
unfoldable pub mem_sbrk : ℕ → Vm → ℕ × Vm
mem_sbrk incr v =
    if is_negative incr || ltb v.mem_max_addr (add32 v.mem_brk incr)
    then (minus_one, v)
    else (v.mem_brk, record v { mem_brk = add32 v.mem_brk incr })

unfoldable pub mem_heap_lo : Vm → ℕ
mem_heap_lo v = v.mem_start_brk

unfoldable pub mem_heap_hi : Vm → ℕ
mem_heap_hi v = sub32 v.mem_brk 1

unfoldable pub mem_heapsize : Vm → ℕ
mem_heapsize v = sub32 v.mem_brk v.mem_start_brk
