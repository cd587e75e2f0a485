-- ===== src/Driver/Replay.antt =====
-- `eval_mm_util` and `eval_mm_speed` of mdriver.c: replay a trace without the checks.
use itu_operating_systems_an.Base.{
  ℕ, List, [], ◌∷◌, if◌then◌else◌, ◌==◌, add32, sub32, signed32, leb_ℤ, not,
}
use itu_operating_systems_an.Memlib.{mem_heapsize}
use itu_operating_systems_an.Malloc.Machine.{null}
use itu_operating_systems_an.Driver.Trace.{
  Request, alloc, free, realloc, Allocator, D, done, pure, ◌>>=◌, ◌>>◌, exit, call, block_at,
  size_at, set_block, set_size,
}
use itu_operating_systems_an.Driver.Valid.{reset}

-- `int total_size` and `int max_total_size`, by their bit patterns
pub record Totals : Type 0 where
  pub total_size : ℕ
  pub max_total_size : ℕ

-- the new total, and the larger of it and the old maximum
abbrev pub update : Totals → ℕ → Totals
update t total = record {
  total_size = total;
  max_total_size =
      if not (leb_ℤ (signed32 total) (signed32 t.max_total_size)) then total else t.max_total_size;
}

module _ (a : Allocator) where
  unfoldable pub util_alloc : Totals → ℕ → ℕ → D Totals
  util_alloc t index size = do
    p ← call (a.mm_malloc size)
    if p == null
        then exit
        else do set_block index p; set_size index size; pure (update t (add32 t.total_size size))

  unfoldable pub util_realloc : Totals → ℕ → ℕ → D Totals
  util_realloc t index newsize = do
    oldsize ← size_at index
    oldp ← block_at index
    newp ← call (a.mm_realloc oldp newsize)
    if newp == null then exit else do
      set_block index newp
      set_size index newsize
      pure (update t (add32 t.total_size (sub32 newsize oldsize)))

  unfoldable pub util_free : Totals → ℕ → D Totals
  util_free t index = do
    size ← size_at index
    p ← block_at index
    call (a.mm_free p)
    pure (record t { total_size = sub32 t.total_size size })

  unfoldable pub util_request : Totals → Request → D Totals
  util_request t r = elim r.type [
    | alloc ↦ util_alloc t r.index r.size
    | realloc ↦ util_realloc t r.index r.size
    | free ↦ util_free t r.index
  ]

  unfoldable pub util_requests : Totals → List Request → D Totals
  util_requests t [] = pure t
  util_requests t (r ∷ ops) = do t' ← util_request t r; util_requests t' ops

  -- The two numbers that the result is the quotient of.
  unfoldable pub eval_mm_util : List Request → D (ℕ × ℕ)
  eval_mm_util ops = do
    reset
    ok ← call a.mm_init
    if not ok then exit else do
      t ← util_requests (record { total_size = 0; max_total_size = 0 }) ops
      λ d s. done (t.max_total_size, mem_heapsize s.vm) d s

  unfoldable pub speed_request : Request → D (Unit {0})
  speed_request r = elim r.type [
    | alloc ↦ do p ← call (a.mm_malloc r.size); if p == null then exit else set_block r.index p
    | realloc ↦ do
      oldp ← block_at r.index
      newp ← call (a.mm_realloc oldp r.size)
      if newp == null then exit else set_block r.index newp
    | free ↦ do block ← block_at r.index; call (a.mm_free block)
  ]

  unfoldable pub speed_requests : List Request → D (Unit {0})
  speed_requests [] = pure tt
  speed_requests (r ∷ ops) = do speed_request r; speed_requests ops

  unfoldable pub eval_mm_speed : List Request → D (Unit {0})
  eval_mm_speed ops = do reset; ok ← call a.mm_init; if not ok then exit else speed_requests ops
