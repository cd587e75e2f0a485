-- ===== src/Driver/Trace.antt =====
-- The traces of mdriver.c, the state of a replay, and commands over it.
use itu_operating_systems_an.Base.{
  ℕ, zero, suc, ◌+◌, Bool, true, false, Option, none, some, List, get_elem?, set, add32,
}
use itu_operating_systems_an.Malloc.Machine
use itu_operating_systems_an.Malloc.Machine.{Machine, store_byte}
use itu_operating_systems_an.Driver.Ranges.{
  Range, Added, assertion_failed, refused, added, add_range, remove_range, clear_ranges,
}

pub data RequestType : Type 0 where
  alloc : RequestType
  free : RequestType
  realloc : RequestType

-- `traceop_t`; both numbers are `int`s, by their bit patterns
pub record Request : Type 0 where
  pub type : RequestType
  pub index : ℕ
  pub size : ℕ

-- What a replay changes outside the heap: the range list, the two arrays of the trace, and the
-- global count of errors.
pub record Replay : Type 0 where
  pub ranges : List Range
  pub blocks : List ℕ
  pub block_sizes : List ℕ
  pub errors : ℕ

-- A replay ends the program with a message of `app_error`, or at a failed `assert`.
pub data Outcome (A : Type 0) : Type 0 where
  done : A → Replay → Machine → Outcome A
  exited : Outcome A
  undefined : Outcome A
  out_of_fuel : Outcome A

abbrev pub D : Type 0 → Type 0
D A = Replay → Machine → Outcome A

abbrev pub pure : {A : Type 0} → A → D A
pure a = λ d s. done a d s

abbrev pub continue : {A B : Type 0} → Outcome A → (A → D B) → Outcome B
continue (done a d s) k = k a d s
continue exited k = exited
continue undefined k = undefined
continue out_of_fuel k = out_of_fuel

infixl 5 ◌>>=◌ ◌>>◌
abbrev pub ◌>>=◌ : {A B : Type 0} → D A → (A → D B) → D B
m >>= k = λ d s. continue (m d s) k

abbrev pub ◌>>◌ : {A B : Type 0} → D A → D B → D B
m >> n = m >>= λ _. n

abbrev pub exit : {A : Type 0} → D A
exit = λ d s. exited

-- a call into the allocator
abbrev pub returned : {A : Type 0} → Machine.Run A → Replay → Outcome A
returned (Machine.done a s) d = done a d s
returned Machine.undefined d = undefined
returned Machine.out_of_fuel d = out_of_fuel

abbrev pub call : {A : Type 0} → Machine.M A → D A
call m = λ d s. returned (m s) d

-- The operations of an allocator, as the driver uses them.
pub record Allocator : Type 0 where
  pub mm_init : Machine.M Bool
  pub mm_malloc : ℕ → Machine.M ℕ
  pub mm_free : ℕ → Machine.M (Unit {0})
  pub mm_realloc : ℕ → ℕ → Machine.M ℕ

-- an element of an array, out of its bounds undefined
abbrev pub element : Option ℕ → D ℕ
element none = λ d s. undefined
element (some x) = pure x

abbrev pub block_at : ℕ → D ℕ
block_at index = λ d s. element (get_elem? d.blocks index) d s

abbrev pub size_at : ℕ → D ℕ
size_at index = λ d s. element (get_elem? d.block_sizes index) d s

-- `trace->blocks[index] = p`, and the same for the size
abbrev pub set_block : ℕ → ℕ → D (Unit {0})
set_block index p = do block_at index; λ d s. done tt (record d { blocks = set d.blocks index p }) s

abbrev pub set_size : ℕ → ℕ → D (Unit {0})
set_size index n = do
  size_at index
  λ d s. done tt (record d { block_sizes = set d.block_sizes index n }) s

-- `malloc_error`, and the result 0 of its caller
abbrev pub malloc_error : D Bool
malloc_error = λ d s. done false (record d { errors = d.errors + 1 }) s

abbrev pub put_ranges : Added → D Bool
put_ranges assertion_failed = exit
put_ranges (refused e) = malloc_error
put_ranges (added ranges) = λ d s. done true (record d { ranges = ranges }) s

abbrev pub check_range : ℕ → ℕ → D Bool
check_range lo size = λ d s. put_ranges (add_range s.vm lo size d.ranges) d s

abbrev pub drop_range : ℕ → D (Unit {0})
drop_range lo = λ d s. done tt (record d { ranges = remove_range lo d.ranges }) s

abbrev pub drop_ranges : D (Unit {0})
drop_ranges = λ d s. done tt (record d { ranges = clear_ranges d.ranges }) s

-- `memset(p, byte, n)`
unfoldable pub memset : ℕ → ℕ → ℕ → Machine.M (Unit {0})
unfolding store_byte
memset p byte zero = Machine.pure tt
memset p byte (suc n) = λ s. Machine.continue (store_byte p byte s) (λ _. memset (add32 p 1) byte n)
