-- ===== src/Driver/Accept/Whole.antt =====
-- A whole replay, on an allocator that keeps the contract.
use itu_operating_systems_an.Base.{
  ℕ, ◌+◌, ◌≤◌, ◌≡◌, refl, ◌∙◌, Bool, true, false, List, [], ◌∷◌, arith, length,
}
use itu_operating_systems_an.Memlib.{mem_reset_brk}
use itu_operating_systems_an.Malloc.Machine.{Machine}
use itu_operating_systems_an.Driver.Trace.{
  Request, RequestType, alloc, free, realloc, Allocator, Replay, done,
}
use itu_operating_systems_an.Driver.Valid.{valid_request, valid_requests, eval_mm_valid}
use itu_operating_systems_an.Driver.Accept.{
  Contract, Allowed, live_after, WellFormed, needed, Agrees,
}
use itu_operating_systems_an.Driver.Accept.Calls.{requests_calls, eval_calls}
use itu_operating_systems_an.Driver.Accept.Steps.{
  room_of, Passed, alloc_step, free_step, realloc_step,
}

needed_type :
    (extra : ℕ → ℕ) (type : RequestType) (i n : ℕ) (ops : List Request)
    → needed extra (record { type = type; index = i; size = n } ∷ ops)
      ≡ room_of extra (record { type = type; index = i; size = n }) + needed extra ops
needed_type extra alloc i n ops = refl
needed_type extra free i n ops = omega arith
needed_type extra realloc i n ops = refl

needed_cons :
    (extra : ℕ → ℕ) (r : Request) (ops : List Request)
    → needed extra (r ∷ ops) ≡ room_of extra r + needed extra ops
needed_cons extra r ops = needed_type extra r.type r.index r.size ops

module _ (a : Allocator) (c : Contract a) (m : ℕ) where
  step_of :
      (type : RequestType) (i n : ℕ) (live : ℕ → Bool) (d : Replay) (s : Machine)
      → Agrees c.Heap m live d s
      → Allowed m live (record { type = type; index = i; size = n })
      → s.vm.mem_brk + room_of c.extra (record { type = type; index = i; size = n })
        ≤ s.vm.mem_max_addr
      → (f : Replay) × (u : Machine) × (valid_request a
            (record { type = type; index = i; size = n })
            d
            s
          ≡ done true f u)
        × Passed c.Heap m
            (live_after live (record { type = type; index = i; size = n }))
            (room_of c.extra (record { type = type; index = i; size = n }))
            s
            d
            f
            u
  unfolding valid_request
  step_of alloc i n live d s g ok room = alloc_step a c m live d s g i n ok room
  step_of free i n live d s g ok room = free_step a c m live d s g i ok
  step_of realloc i n live d s g (alive, low, positive, small) room =
      realloc_step a c m live d s g i alive n (low, positive, small) room

  request_step :
      (r : Request) (live : ℕ → Bool) (d : Replay) (s : Machine)
      → Agrees c.Heap m live d s
      → Allowed m live r
      → s.vm.mem_brk + room_of c.extra r ≤ s.vm.mem_max_addr
      → (f : Replay) × (u : Machine) × (valid_request a r d s ≡ done true f u)
        × Passed c.Heap m (live_after live r) (room_of c.extra r) s d f u
  request_step r live d s g ok room = step_of r.type r.index r.size live d s g ok room

  requests_pass :
      (ops : List Request) (live : ℕ → Bool) (d : Replay) (s : Machine)
      → Agrees c.Heap m live d s
      → WellFormed m live ops
      → s.vm.mem_brk + needed c.extra ops ≤ s.vm.mem_max_addr
      → (f : Replay) × (u : Machine) × (valid_requests a ops d s ≡ done true f u)
        × (f.errors ≡ d.errors)
  unfolding valid_requests
  requests_pass [] live d s g w room = (d, s, refl, refl)
  requests_pass (r ∷ ops) live d s g (ok, w) room =
      let sum = needed_cons c.extra r ops in
      let (f, t, run, p) = request_step r live d s g ok (omega (arith, sum, room)) in
      let st = p.storage in
      let (h, u, rest, e) =
        requests_pass ops (live_after live r) f t p.agrees w
          (omega (arith, sum, room, st.high, st.end)) in
      (h, u, requests_calls a r ops d f h s t u run rest, e ∙ p.errors)

  -- On an allocator that keeps the contract, on arrays of `m` elements, and on a storage with room
  -- for the trace and ready for `mm_init` once the break is reset, `eval_mm_valid` of a trace in
  -- which only indices that are not live are allocated and only live ones freed or resized, with
  -- positive sizes whose sum with 15 is below 2 ^ 31, and no resize of an index with a low byte of
  -- 128 or more, returns 1 with no error counted.
  pub eval_mm_valid-accepts :
      (ops : List Request) (d : Replay) (s : Machine)
      → length d.blocks ≡ m
      → length d.block_sizes ≡ m
      → WellFormed m (λ i. false) ops
      → c.Ready (record s { vm = mem_reset_brk s.vm })
      → s.vm.mem_start_brk + c.base + needed c.extra ops ≤ s.vm.mem_max_addr
      → (f : Replay) × (u : Machine) × (eval_mm_valid a ops d s ≡ done true f u)
        × (f.errors ≡ d.errors)
  unfolding mem_reset_brk
  eval_mm_valid-accepts ops d s blocks sizes w ready room =
      let (t, run, heap, storage) = c.init (record s { vm = mem_reset_brk s.vm }) ready in
      let begun : Agrees c.Heap m (λ i. false) (record d { ranges = [] }) t = record {
        table = λ x. 0;
        entries = [];
        heap = heap;
        owns = tt;
        ranges = refl;
        indices = λ i. refl;
        blocks = blocks;
        block_sizes = sizes;
      } in
      let (f, u, rest, e) =
        requests_pass ops (λ i. false) (record d { ranges = [] }) t begun w
          (omega (arith, storage.high, storage.end, room)) in
      (f, u, eval_calls a ops d f s t u run rest, e)
