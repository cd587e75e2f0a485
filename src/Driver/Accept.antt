-- ===== src/Driver/Accept.antt =====
-- What `eval_mm_valid` accepts: the contract between an allocator and the driver, the traces that
-- ask for what the contract gives, and the state of a replay as a table of the payloads in use.
pub mod Owned
pub mod Checks
pub mod New
pub mod Calls
pub mod Steps
pub mod Whole
pub mod Package
use itu_operating_systems_an.Base.{
  ℕ, ◌+◌, ◌-◌, ◌^◌, ◌%◌, ◌≤◌, ◌<◌, ◌≡◌, ◌≢◌, refl, Bool, true, false, not, ◌&&◌, ◌||◌, ◌⊎◌, List,
  [], ◌∷◌, arith, ◌==◌, if◌then◌else◌, some, length, get_elem?,
}
use itu_operating_systems_an.Memlib.Brk.{IsVm}
use itu_operating_systems_an.Malloc.Machine.{Machine, done}
use itu_operating_systems_an.Malloc.Bytes.{byte_at, with_word}
use itu_operating_systems_an.Malloc.View.{SamePayloads, SameStorage, assign}
use itu_operating_systems_an.Malloc.View.Fill.{WithinPayload}
use itu_operating_systems_an.Driver.Ranges.{Range, last_byte}
use itu_operating_systems_an.Driver.Trace.{
  Allocator, Replay, Request, RequestType, alloc, free, realloc,
}

-- What a request for `n` bytes gives: a new block at `q`, with the other payloads as they were.
pub record Gives (Heap : Machine → (ℕ → ℕ) → Type 0) (s : Machine) (table : ℕ → ℕ) (n more q : ℕ)
    (last : Machine) : Type 0 where
  pub size : ℕ
  pub new : table q ≡ 0
  pub enough : n + 8 ≤ size
  pub holds : Heap last (assign table q size)
  pub storage : SameStorage s last more
  pub contents : SamePayloads table s last

-- What the driver relies on. `Heap s table` says that `table` gives the size of each block in use,
-- at its payload pointer, header and footer included; `extra n` is the room that a request for `n`
-- bytes can take, `base` what `mm_init` takes, and `Ready` says what `mm_init` asks for.
pub record Contract (a : Allocator) : Type 1 where
  pub Heap : Machine → (ℕ → ℕ) → Type 0
  pub Ready : Machine → Type 0
  pub extra : ℕ → ℕ
  pub base : ℕ
  pub space :
      (s : Machine) (table : ℕ → ℕ)
      → Heap s table
      → IsVm s.vm × (s.vm.mem_start_brk % 4 ≡ 0) × (s.vm.mem_brk % 4 ≡ 0)
  pub within :
      (s : Machine) (table : ℕ → ℕ)
      → Heap s table
      → (x : ℕ) → 0 < table x
      → (s.vm.mem_start_brk < x) × (x + table x ≤ s.vm.mem_brk) × (x % 8 ≡ 0)
  pub apart :
      (s : Machine) (table : ℕ → ℕ)
      → Heap s table
      → (x y : ℕ) → 0 < table x
      → 0 < table y
      → x < y
      → x + table x ≤ y
  pub fill :
      (s : Machine) (table : ℕ → ℕ)
      → Heap s table
      → (p : ℕ) → 0 < table p
      → (u : ℕ → ℕ) → WithinPayload s.word u p (table p)
      → Heap (with_word s u) table
  pub init :
      (s : Machine)
      → Ready s
      → (t : Machine) × (a.mm_init s ≡ done true t) × Heap t (λ x. 0) × SameStorage s t base
  pub malloc :
      (s : Machine) (table : ℕ → ℕ)
      → Heap s table
      → (n : ℕ) → 0 < n
      → n + 15 < 2 ^ 31
      → s.vm.mem_brk + extra n ≤ s.vm.mem_max_addr
      → (q : ℕ) × (t : Machine) × (a.mm_malloc n s ≡ done q t) × Gives Heap s table n (extra n) q t
  pub release :
      (s : Machine) (table : ℕ → ℕ)
      → Heap s table
      → (p : ℕ) → 0 < table p
      → (t : Machine) × (a.mm_free p s ≡ done tt t)
        × Heap t (assign table p 0)
        × SameStorage s t 0
        × SamePayloads (assign table p 0) s t
  pub resize :
      (s : Machine) (table : ℕ → ℕ)
      → Heap s table
      → (p : ℕ) → 0 < table p
      → (n : ℕ) → 0 < n
      → n + 15 < 2 ^ 31
      → s.vm.mem_brk + extra n ≤ s.vm.mem_max_addr
      → (q : ℕ) × (t : Machine) × (a.mm_realloc p n s ≡ done q t)
        × Gives Heap s (assign table p 0) n (extra n) q t
        × ((k : ℕ) → k < n → k + 8 < table p → byte_at t.word (q + k) ≡ byte_at s.word (p + k))

-- The requests of a trace of `m` indices, on the indices that are live: an index is allocated when
-- it is not live, and freed or resized when it is; the sizes are positive, and an index whose low
-- byte is a negative `char` is not resized.
abbrev pub Allowed : ℕ → (ℕ → Bool) → Request → Type 0
Allowed m live r = elim r.type [
  | alloc ↦ (r.index < m) × (live r.index ≡ false) × (0 < r.size) × (r.size + 15 < 2 ^ 31)
  | free ↦ live r.index ≡ true
  | realloc ↦ (live r.index ≡ true) × (r.index % 256 < 128) × (0 < r.size) × (r.size + 15 < 2 ^ 31)
]

abbrev pub live_after : (ℕ → Bool) → Request → ℕ → Bool
live_after live r j =
    if j == r.index then (elim r.type [ alloc ↦ true | free ↦ false | realloc ↦ true ]) else live j

abbrev pub WellFormed : ℕ → (ℕ → Bool) → List Request → Type 0
WellFormed m live [] = Unit {0}
WellFormed m live (r ∷ ops) = Allowed m live r × WellFormed m (live_after live r) ops

-- the room that a trace can take
abbrev pub needed : (ℕ → ℕ) → List Request → ℕ
needed extra [] = 0
needed extra (r ∷ ops) =
    let rest = needed extra ops in
    elim r.type [ alloc ↦ extra r.size + rest | free ↦ rest | realloc ↦ extra r.size + rest ]

-- a payload that the driver has in use
pub record Entry : Type 0 where
  pub index : ℕ
  pub ptr : ℕ
  pub size : ℕ

abbrev pub extent : Entry → Range
extent e = record { lo = e.ptr; hi = last_byte e.ptr e.size }

abbrev pub extents : List Entry → List Range
extents [] = []
extents (e ∷ es) = extent e ∷ extents es

abbrev pub has : ℕ → List Entry → Bool
has i [] = false
has i (e ∷ es) = i == e.index || has i es

abbrev pub has_ptr : ℕ → List Entry → Bool
has_ptr p [] = false
has_ptr p (e ∷ es) = p == e.ptr || has_ptr p es

-- The arrays of the trace have the payload, the table has room for it, and its bytes are all the
-- low byte of the index.
pub record Owns (d : Replay) (s : Machine) (table : ℕ → ℕ) (e : Entry) : Type 0 where
  pub block : get_elem? d.blocks e.index ≡ some e.ptr
  pub block_size : get_elem? d.block_sizes e.index ≡ some e.size
  pub positive : 0 < e.size
  pub small : e.size < 2 ^ 31
  pub even : e.ptr % 8 ≡ 0
  pub room : e.size + 8 ≤ table e.ptr
  pub bytes : (k : ℕ) → k < e.size → byte_at s.word (e.ptr + k) ≡ e.index % 256

-- every entry of the list, each with another index and another pointer
abbrev pub OwnsAll : Replay → Machine → (ℕ → ℕ) → List Entry → Type 0
OwnsAll d s table [] = Unit {0}
OwnsAll d s table (e ∷ es) =
    Owns d s table e × (has e.index es ≡ false) × (has_ptr e.ptr es ≡ false) × OwnsAll d s table es

-- The state between two requests, for the indices that are live.
pub record Agrees (Heap : Machine → (ℕ → ℕ) → Type 0) (m : ℕ) (live : ℕ → Bool) (d : Replay)
    (s : Machine) : Type 0 where
  pub table : ℕ → ℕ
  pub entries : List Entry
  pub heap : Heap s table
  pub owns : OwnsAll d s table entries
  pub ranges : d.ranges ≡ extents entries
  pub indices : (i : ℕ) → live i ≡ has i entries
  pub blocks : length d.blocks ≡ m
  pub block_sizes : length d.block_sizes ≡ m
