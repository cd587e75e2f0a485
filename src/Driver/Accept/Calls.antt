-- ===== src/Driver/Accept/Calls.antt =====
-- The functions of a replay in steps, and bounds that the steps need.
use itu_operating_systems_an.Base.{
  ℕ, zero, suc, ◌^◌, ◌%◌, ◌≤◌, ◌<◌, ◌≡◌, refl, true, false, List, [], ◌∷◌, arith, ◌==◌, some,
  length, get_elem?,
}
use itu_operating_systems_an.Malloc.Machine
use itu_operating_systems_an.Malloc.Machine.{Machine, null}
use itu_operating_systems_an.Malloc.View.{SameStorage}
use itu_operating_systems_an.Driver.Ranges.{remove_range}
use itu_operating_systems_an.Driver.Trace.{Request, Allocator, Replay, done, check_range}
use itu_operating_systems_an.Driver.Ranges.{clear_ranges}
use itu_operating_systems_an.Memlib.{mem_reset_brk}
use itu_operating_systems_an.Driver.Valid.{
  bytes_kept, preserved, remember, valid_alloc, valid_realloc, valid_free, valid_request,
  valid_requests, eval_mm_valid,
}

module _ (a : Allocator) where
  pub alloc_calls :
      (d d1 d2 : Replay) (s t u : Machine) (i n q : ℕ)
      → a.mm_malloc n s ≡ Machine.done q t
      → (q == null) ≡ false
      → check_range q n d t ≡ done true d1 t
      → remember a i q n d1 t ≡ done tt d2 u
      → valid_alloc a i n d s ≡ done true d2 u
  unfolding valid_alloc
  alloc_calls d d1 d2 s t u i n q e1 e2 e3 e4 = rw e1 (rw e2 (rw e3 (rw e4 refl)))

  pub realloc_calls :
      (d d1 d2 : Replay) (s t u : Machine) (i n p q old : ℕ)
      → get_elem? d.blocks i ≡ some p
      → a.mm_realloc p n s ≡ Machine.done q t
      → (q == null) ≡ false
      → check_range q n (record d { ranges = remove_range p d.ranges }) t ≡ done true d1 t
      → get_elem? d1.block_sizes i ≡ some old
      → preserved q (i % 256) (bytes_kept n old) t ≡ Machine.done true t
      → remember a i q n d1 t ≡ done tt d2 u
      → valid_realloc a i n d s ≡ done true d2 u
  unfolding valid_realloc
  realloc_calls d d1 d2 s t u i n p q old e1 e2 e3 e4 e5 e6 e7 =
      rw e1 (rw e2 (rw e3 (rw e4 (rw e5 (rw e6 (rw e7 refl))))))

  pub free_calls :
      (d : Replay) (s t : Machine) (i p : ℕ)
      → get_elem? d.blocks i ≡ some p
      → a.mm_free p s ≡ Machine.done tt t
      → valid_free a i d s ≡ done true (record d { ranges = remove_range p d.ranges }) t
  unfolding valid_free
  free_calls d s t i p e1 e2 = rw e1 (rw e2 refl)

-- the loop of a resize looks at no more than both payloads have
pub kept_least :
    (n old : ℕ) → n < 2 ^ 31 → old < 2 ^ 31 → (bytes_kept n old ≤ n) × (bytes_kept n old ≤ old)
kept_least n old h k = ground arith

pub in_array : (xs : List ℕ) (i x : ℕ) → get_elem? xs i ≡ some x → i < length xs
in_array [] i x h = cc
in_array (y ∷ xs) zero x h = omega arith
in_array (y ∷ xs) (suc i) x h = omega (arith, in_array xs i x h)

pub storage_after :
    (s t u : Machine) (more : ℕ) → u.vm ≡ t.vm → SameStorage s t more → SameStorage s u more
storage_after s t u more e h = record {
  start = rw e h.start;
  end = rw e h.end;
  low = rw e h.low;
  high = rw e h.high;
}

module _ (a : Allocator) where
  pub requests_calls :
      (r : Request) (ops : List Request) (d f g : Replay) (s t u : Machine)
      → valid_request a r d s ≡ done true f t
      → valid_requests a ops f t ≡ done true g u
      → valid_requests a (r ∷ ops) d s ≡ done true g u
  unfolding valid_requests
  requests_calls r ops d f g s t u e1 e2 = rw e1 (rw e2 refl)

  pub eval_calls :
      (ops : List Request) (d f : Replay) (s t u : Machine)
      → a.mm_init (record s { vm = mem_reset_brk s.vm }) ≡ Machine.done true t
      → valid_requests a ops (record d { ranges = [] }) t ≡ done true f u
      → eval_mm_valid a ops d s ≡ done true f u
  unfolding eval_mm_valid clear_ranges
  eval_calls ops d f s t u e1 e2 = rw e1 (rw e2 refl)
