-- ===== src/Driver/Libc.antt =====
-- `eval_libc_valid` and `eval_libc_speed` of mdriver.c: the same replays on the allocator of libc,
-- which is a parameter.
use itu_operating_systems_an.Base.{
  ℕ, none, some, List, [], ◌∷◌, if◌then◌else◌, ◌==◌, get_elem?, set,
}
use itu_operating_systems_an.Malloc.Machine.{null}
use itu_operating_systems_an.Driver.Trace.{Request, alloc, free, realloc}

-- The blocks of the trace, and the state of libc.
pub data Result (S : Type 0) : Type 0 where
  done : List ℕ → S → Result S
  exited : Result S
  undefined : Result S

-- `trace->blocks[index] = p`, which `unix_error` stops when `p` is NULL
abbrev pub store : {S : Type 0} → List ℕ → ℕ → ℕ → S → Result S
store blocks index p s =
    if p == null
    then exited
    else elim (get_elem? blocks index) [ none ↦ undefined | some _ ↦ done (set blocks index p) s ]

abbrev pub continue : {S : Type 0} → Result S → (List ℕ → S → Result S) → Result S
continue (done blocks s) k = k blocks s
continue exited k = exited
continue undefined k = undefined

module _ {S : Type 0} (libc_malloc : ℕ → S → ℕ × S) (libc_realloc : ℕ → ℕ → S → ℕ × S)
    (libc_free : ℕ → S → S) where
  abbrev do_alloc : ℕ → ℕ → List ℕ → S → Result S
  do_alloc index size blocks s = let (p, t) = libc_malloc size s in store blocks index p t

  abbrev do_realloc : ℕ → ℕ → List ℕ → S → Result S
  do_realloc index newsize blocks s = elim (get_elem? blocks index) [
    | none ↦ undefined
    | some oldp ↦ let (p, t) = libc_realloc oldp newsize s in store blocks index p t
  ]

  abbrev do_free : ℕ → List ℕ → S → Result S
  do_free index blocks s = elim (get_elem? blocks index) [
    | none ↦ undefined
    | some p ↦ done blocks (libc_free p s)
  ]

  unfoldable pub libc_request : Request → List ℕ → S → Result S
  libc_request r = elim r.type [
    | alloc ↦ do_alloc r.index r.size
    | realloc ↦ do_realloc r.index r.size
    | free ↦ do_free r.index
  ]

  unfoldable pub eval_libc_valid : List Request → List ℕ → S → Result S
  eval_libc_valid [] blocks s = done blocks s
  eval_libc_valid (r ∷ ops) blocks s = continue (libc_request r blocks s) (eval_libc_valid ops)

  unfoldable pub eval_libc_speed : List Request → List ℕ → S → Result S
  eval_libc_speed [] blocks s = done blocks s
  eval_libc_speed (r ∷ ops) blocks s = continue (libc_request r blocks s) (eval_libc_speed ops)
