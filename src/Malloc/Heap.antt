-- ===== src/Malloc/Heap.antt =====
-- The functions of mm.c that move the boundaries of blocks, and its four entry points.
pub mod Headers
pub mod Around
pub mod Detach
pub mod Merge
pub mod Marked
pub mod Coalesce
pub mod Clear
pub mod Place
pub mod Split
pub mod Whole
use itu_operating_systems_an.Base.{
  ℕ, ◌*◌, ◌/◌, ◌%◌, ◌^◌, Bool, true, false, ltb, leb, ◌==◌, if◌then◌else◌, add32, sub32,
}
use itu_operating_systems_an.Memlib.{minus_one}
use itu_operating_systems_an.Malloc.Machine.{
  M, pure, ◌>>=◌, ◌>>◌, when, null, set_val, sbrk, set_free_list, set_heap_ptr, memcpy,
}
use itu_operating_systems_an.Malloc.Block.{
  wsize, dsize, chunksize, min_block_size, calc_block_size, make_header, get_size, is_allocated,
  is_free, get_header_ptr, get_footer_ptr, get_next_block_ptr, get_prev_block_ptr,
}
use itu_operating_systems_an.Malloc.Links.{
  add_to_free_list, remove_from_free_list, find_fit, set_next_free_block_ptr,
  set_prev_free_block_ptr,
}

-- `set_val(get_header_ptr(bp), make_header(size, alloc))`, and the same for the footer, which is
-- found through the size in the header.
unfoldable pub set_header : ℕ → ℕ → ℕ → M (Unit {0})
unfolding set_val get_header_ptr make_header
set_header bp size alloc = set_val (get_header_ptr bp) (make_header size alloc)

unfoldable pub set_footer : ℕ → ℕ → ℕ → M (Unit {0})
unfolding set_val get_footer_ptr make_header
set_footer bp size alloc = do p ← get_footer_ptr bp; set_val p (make_header size alloc)

-- the block that takes in its free neighbours, one branch for each case of `coalesce`
unfoldable pub merge : ℕ → ℕ → ℕ → ℕ → M ℕ
merge bp prev_alloc next_alloc size =
    if prev_alloc == 0
    then (if next_alloc == 0
        then (do
          prev ← get_prev_block_ptr bp
          prev_size ← get_size (get_header_ptr prev)
          next ← get_next_block_ptr bp
          next_footer ← get_footer_ptr next
          next_size ← get_size next_footer
          let total = add32 size (add32 prev_size next_size)
          set_header prev total 0
          next ← get_next_block_ptr bp
          set_footer next total 0
          get_prev_block_ptr bp)
        else (do
          prev ← get_prev_block_ptr bp
          prev_size ← get_size (get_header_ptr prev)
          let total = add32 size prev_size
          set_footer bp total 0
          prev ← get_prev_block_ptr bp
          set_header prev total 0
          get_prev_block_ptr bp))
    else (if next_alloc == 0
        then (do
          next ← get_next_block_ptr bp
          next_size ← get_size (get_header_ptr next)
          let total = add32 size next_size
          set_header bp total 0
          set_footer bp total 0
          pure bp)
        else pure bp)

-- take the block and its free neighbours off the free list
unfoldable pub detach : ℕ → ℕ → ℕ → M (Unit {0})
detach bp prev_alloc next_alloc = do
  when (next_alloc == 0) (do next ← get_next_block_ptr bp; remove_from_free_list next)
  when (prev_alloc == 0) (do prev ← get_prev_block_ptr bp; remove_from_free_list prev)
  free ← is_free (get_header_ptr bp)
  when free (remove_from_free_list bp)

unfoldable pub coalesce : ℕ → M ℕ
coalesce bp = do
  prev ← get_prev_block_ptr bp
  prev_footer ← get_footer_ptr prev
  prev_alloc ← is_allocated prev_footer
  next ← get_next_block_ptr bp
  next_alloc ← is_allocated (get_header_ptr next)
  size ← get_size (get_header_ptr bp)
  detach bp prev_alloc next_alloc
  bp' ← merge bp prev_alloc next_alloc size
  add_to_free_list bp'
  pure bp'

unfoldable pub extend_heap : ℕ → M ℕ
extend_heap words = do
  let size = if words % 2 == 0 then words * wsize % 2 ^ 32 else add32 words 1 * wsize % 2 ^ 32
  bp ← sbrk size
  if bp == minus_one then pure null else do
    set_header bp size 0
    set_footer bp size 0
    next ← get_next_block_ptr bp
    set_header next 0 1
    add_to_free_list bp
    coalesce bp

unfoldable pub place : ℕ → ℕ → M (Unit {0})
place ptr size = do
  cur_size ← get_size (get_header_ptr ptr)
  let remaining_size = sub32 cur_size size
  if leb min_block_size remaining_size
      then (do
        set_header ptr size 1
        set_footer ptr size 1
        next ← get_next_block_ptr ptr
        set_header next remaining_size 0
        set_footer next remaining_size 0
        add_to_free_list next)
      else (do set_header ptr cur_size 1; set_footer ptr cur_size 1)

-- `true` is the result 0, `false` the result -1.
unfoldable pub mm_init : M Bool
mm_init = do
  p ← sbrk (4 * wsize)
  set_heap_ptr p
  if p == minus_one then pure false else do
    set_val p 0
    set_val (add32 p (1 * wsize)) (make_header dsize 1)
    set_val (add32 p (2 * wsize)) (make_header dsize 1)
    set_val (add32 p (3 * wsize)) (make_header 0 1)
    set_heap_ptr (add32 p (2 * wsize))
    first_real_block_ptr ← extend_heap (chunksize / wsize)
    if first_real_block_ptr == null then pure false else do
      set_free_list first_real_block_ptr
      set_next_free_block_ptr first_real_block_ptr 0
      set_prev_free_block_ptr first_real_block_ptr 0
      pure true

-- the block of `find_fit`, or a new one at the end of the heap
unfoldable pub fit_or_extend : ℕ → M ℕ
fit_or_extend block_size = do
  block_ptr ← find_fit block_size
  if block_ptr == null
      then extend_heap ((if ltb chunksize block_size then block_size else chunksize) / wsize)
      else pure block_ptr

unfoldable pub mm_malloc : ℕ → M ℕ
mm_malloc size = if size == 0 then pure null else do
  let block_size = calc_block_size size
  block_ptr ← fit_or_extend block_size
  remove_from_free_list block_ptr
  place block_ptr block_size
  pure block_ptr

unfoldable pub mm_free : ℕ → M (Unit {0})
mm_free ptr = do
  size ← get_size (get_header_ptr ptr)
  set_header ptr size 0
  set_footer ptr size 0
  add_to_free_list ptr
  coalesce ptr
  pure tt

-- the last way of `mm_realloc`: a new block, a copy, and the old block freed
unfoldable pub move_block : ℕ → ℕ → ℕ → M ℕ
move_block ptr cur_block_size size = do
  new_ptr ← mm_malloc size
  if new_ptr == null then pure null else do
    memcpy new_ptr ptr (if ltb cur_block_size size then cur_block_size else size)
    mm_free ptr
    pure new_ptr

-- the branch of `mm_realloc` on a free block behind the current one
unfoldable pub grow_or_move : ℕ → ℕ → ℕ → ℕ → M ℕ
grow_or_move ptr size cur_block_size required_block_size = do
  next ← get_next_block_ptr ptr
  free ← is_free (get_header_ptr next)
  if free
      then (do
        next_block_size ← get_size (get_header_ptr next)
        let combined_size = add32 cur_block_size next_block_size
        if leb required_block_size combined_size
            then (do
              remove_from_free_list next
              set_header ptr combined_size 1
              place ptr required_block_size
              pure ptr)
            else move_block ptr cur_block_size size)
      else move_block ptr cur_block_size size

unfoldable pub mm_realloc : ℕ → ℕ → M ℕ
mm_realloc ptr size =
    if size == 0 then (do mm_free ptr; pure null) else if ptr == null then mm_malloc size else do
      cur_block_size ← get_size (get_header_ptr ptr)
      let required_block_size = calc_block_size size
      if leb required_block_size cur_block_size
          then pure ptr
          else grow_or_move ptr size cur_block_size required_block_size
