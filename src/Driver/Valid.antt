-- ===== src/Driver/Valid.antt =====
-- `eval_mm_valid` of mdriver.c: replay a trace, and check every payload that comes back.
use itu_operating_systems_an.Base.{
  ℕ, zero, suc, ◌%◌, Bool, true, false, not, ◌&&◌, List, [], ◌∷◌, if◌then◌else◌, ◌==◌, ltb, add32,
  is_negative, signed32, leb_ℤ,
}
use itu_operating_systems_an.Memlib.{mem_reset_brk}
use itu_operating_systems_an.Malloc.Machine
use itu_operating_systems_an.Malloc.Machine.{null, load_byte}
use itu_operating_systems_an.Driver.Trace.{
  Request, alloc, free, realloc, Allocator, D, done, pure, ◌>>=◌, ◌>>◌, call, block_at, size_at,
  set_block, set_size, malloc_error, check_range, drop_range, drop_ranges, memset,
}

abbrev pub reset : D (Unit {0})
reset = λ d s. done tt d (record s { vm = mem_reset_brk s.vm })

-- `newp[j] == (index & 0xFF)`: a `char` is signed, so that one of 128 or more is never equal to a
-- value from 0 to 255
abbrev pub char_is : ℕ → ℕ → Bool
char_is byte value = ltb byte 128 && byte == value

-- the loop over `newp[j]`: whether all the `n` bytes from `p` are `value`
unfoldable pub preserved : ℕ → ℕ → ℕ → Machine.M Bool
unfolding load_byte
preserved p value zero = Machine.pure true
preserved p value (suc n) = λ s.
    Machine.continue (load_byte p s)
      (λ byte. if char_is byte value then preserved (add32 p 1) value n else Machine.pure false)

-- the bound of that loop: `int oldsize`, cut to `size`, and no round when it is negative
abbrev pub bytes_kept : ℕ → ℕ → ℕ
bytes_kept size oldsize =
    let kept = if not (leb_ℤ (signed32 oldsize) (signed32 size)) then size else oldsize in
    if is_negative kept then 0 else kept

module _ (a : Allocator) where
  -- fill the payload with the low byte of the index, and remember it
  unfoldable pub remember : ℕ → ℕ → ℕ → D (Unit {0})
  remember index p size = do
    call (memset p (index % 256) size)
    set_block index p
    set_size index size

  unfoldable pub valid_alloc : ℕ → ℕ → D Bool
  valid_alloc index size = do
    p ← call (a.mm_malloc size)
    if p == null then malloc_error else do
      ok ← check_range p size
      if not ok then pure false else do remember index p size; pure true

  unfoldable pub valid_realloc : ℕ → ℕ → D Bool
  valid_realloc index size = do
    oldp ← block_at index
    newp ← call (a.mm_realloc oldp size)
    if newp == null then malloc_error else do
      drop_range oldp
      ok ← check_range newp size
      if not ok then pure false else do
        oldsize ← size_at index
        same ← call (preserved newp (index % 256) (bytes_kept size oldsize))
        if not same then malloc_error else do remember index newp size; pure true

  unfoldable pub valid_free : ℕ → D Bool
  valid_free index = do p ← block_at index; drop_range p; call (a.mm_free p); pure true

  -- one round of the loop; `false` when the function returns 0
  unfoldable pub valid_request : Request → D Bool
  valid_request r = elim r.type [
    | alloc ↦ valid_alloc r.index r.size
    | realloc ↦ valid_realloc r.index r.size
    | free ↦ valid_free r.index
  ]

  unfoldable pub valid_requests : List Request → D Bool
  valid_requests [] = pure true
  valid_requests (r ∷ ops) = do ok ← valid_request r; if ok then valid_requests ops else pure false

  unfoldable pub eval_mm_valid : List Request → D Bool
  eval_mm_valid ops = do
    reset
    drop_ranges
    ok ← call a.mm_init
    if ok then valid_requests ops else malloc_error
