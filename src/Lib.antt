-- ===== src/Lib.antt =====
-- A verification library for the C programs of the course repository: the allocator of the malloc
-- lab with its storage model, its trace driver and its timer, the bit puzzles of the data lab, a
-- bubble sort and a program that keeps records in a file.
--
-- How the parts interact: memlib.c holds the simulated storage and its break; mm.c asks it for
-- memory with `mem_sbrk` and keeps its blocks and its free list in the words of the storage;
-- mdriver.c replays traces of requests on mm.c, with a list of the payloads in use, and times the
-- replays with fcyc.c. The other programs stand alone.
--
-- Which file models which part:
--   Memlib, Memlib/Brk: 22-Lab3-malloclab/memlib.c. `Vm` is its three pointers; the functions keep
--     their names.
--   Malloc/Machine: what mm.c computes on, the break, the words of the storage and the globals
--     `heap_ptr` and `free_list`. A command is a function from this state to a run, which is done,
--     undefined (an access outside the storage or off a word) or out of fuel.
--   Malloc/Block, Malloc/Block/Size: the macros of 22-Lab3-malloclab/mm.c for headers and sizes.
--   Malloc/Links and below: the free list, `add_to_free_list`, `remove_from_free_list` and
--     `find_fit`; Chain says which list of blocks the words of the storage hold, Add, Remove and Fit
--     are about the three operations.
--   Malloc/Heap: `coalesce`, `extend_heap`, `place`, `mm_init`, `mm_malloc`, `mm_free` and
--     `mm_realloc`, which run on test sessions. Below it, Headers says
--     what its header operations read and write, Clear keeps the free list, Place and Split are about
--     `place` when it splits a block, and Whole when it does not. Around, Detach, Merge, Marked and
--     Coalesce are about `coalesce` on a block between two others: what it reads of them, the list
--     without them, the four ways to merge, and the whole.
--   Malloc/Tiling: the heap as a row of blocks, each with its header and its footer, between the
--     prologue and the epilogue, seen from a block pointer, and the free blocks as those of the free
--     list. Below it, Range, Move, Near, Mark and Payload are about the blocks of such a row, Frame
--     about what stays of it when a stretch changes; Coalesce, Join, Free, Give, Take, Grow, Extend,
--     Search, Allot, Spent, Resize and Init are about the operations of Malloc/Heap on it, Settled about rows
--     with no two free neighbours, and Reach about sequences of the operations.
--   Malloc/Bytes: the bytes of the words, and `memcpy`.
--   Malloc/View: the heap as a caller sees it, a table of the sizes of the blocks in use. Zipper goes
--     between the table and a row; Alloc, Release, Fill, Resize, Full and Renew are about
--     `mm_malloc`, `mm_free`, the writes of a caller, and `mm_realloc` in place and with a move; Reuse
--     is about `mm_free` and then `mm_malloc`.
--   Malloc/Check and below: `mm_check`, without its printing; Sound is about it on a free list, Clean on
--     the heaps that the allocator leaves.
--   Driver/Ranges: the range list of 22-Lab3-malloclab/mdriver.c. Driver/Trace, Driver/Valid,
--     Driver/Replay, Driver/Libc: its replays, `eval_mm_valid`, `eval_mm_util`, `eval_mm_speed`,
--     `eval_libc_valid` and `eval_libc_speed`, over an allocator that is an argument. Driver/Bytes:
--     the loops of `eval_mm_valid` over a payload. Driver/Accept: the contract between the driver and
--     an allocator, a record of laws, and the traces that stay within it. Below it, Owned, Checks, New,
--     Calls, Steps and Whole are about the replay of such a trace, and Package fills the contract with the
--     theorems on mm.c. Driver/Reading: `read_trace`; Printed and Overrun are about it on files that
--     announce the right number of requests, and too few.
--   Timing and below: the K-best scheme of 22-Lab3-malloclab/fcyc.c.
--   Clock: `start_counter` and `get_counter` of 22-Lab3-malloclab/clock.c, over readings that are
--     arguments; the `double` that they return is the natural number that it stands for, rounded as
--     the addition of C rounds.
--   Datalab and below: the eight functions of 22-Lab1-datalab-bits.c.
--   Sort and below: `bubble_sort` and the comparisons of lecture-6/ex18.c.
--   Database and below: lecture-5/ex17.c, its operations and its `main`; Database/Old and below: the
--     same of lecture-5/ex17-old.c, its first version.
--   Base and below: what these share, the tests of C, lists by native indices, 32-bit words.
--   Tests in each part: runs at concrete inputs.
--
-- Numbers: a word, a pointer, a `size_t` and an `int` are natural numbers below 2 ^ 32, the bit
-- pattern of the C value, with the wrap-around written out; pointers have 32 bits, as the casts of
-- mm.c ask for. In Sort and Database an `int` is an integer without overflow.
--
-- Fuel: the loops of `find_fit` and `mm_check` have one round for each address of the storage and
-- one more, enough for a list of blocks none of which stands twice. The loop of `fcyc` has
-- `maxsamples + 1` rounds, that of `read_trace` one for each word of the file. Every other loop is
-- structural.
--
-- Not modelled: the printing functions of mm.c; free_trace, printresults and main of
-- mdriver.c; the rest of clock.c, ftimer.c and fsecs.c, which are system timers; the attack lab,
-- whose functions are there for the bytes of their machine code; the smaller exercises. The
-- allocator of libc is a parameter, and so are how `fscanf` takes a number from a word and what
-- `malloc` gives `read_trace`.
pub mod Base
pub mod Memlib
pub mod Malloc
pub mod Driver
pub mod Timing
pub mod Clock
pub mod Datalab
pub mod Sort
pub mod Database
