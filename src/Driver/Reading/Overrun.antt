-- ===== src/Driver/Reading/Overrun.antt =====
-- `read_trace` on a file with more requests than it announces.
use itu_operating_systems_an.Base.{
  ℕ, zero, suc, ◌+◌, ◌^◌, ◌≤◌, ◌<◌, ◌≡◌, refl, sym, ap, ◌∙◌, none, some, List, [], ◌∷◌, ◌++◌,
  length, get_elem?, length-append, arith, add32,
}
use itu_operating_systems_an.Driver.Trace.{Request, RequestType, alloc, free, realloc}
use itu_operating_systems_an.Driver.Reading.{
  Word, Scanner, Memory, Loop, read_sized, read_free, read_request, past_array, read_requests,
  undefined, read_trace,
}
use itu_operating_systems_an.Driver.Reading.Printed.{
  text_of, stored, Small, text_grows, snoc, after, request-run,
}

nil_right : (xs : List Request) → xs ++ [] ≡ xs
nil_right [] = refl
nil_right (x ∷ xs) = ap (λ ys. x ∷ ys) (nil_right xs)

past_end : (xs : List Request) → get_elem? xs (length xs) ≡ none
past_end [] = refl
past_end (x ∷ xs) = past_end xs

module _ (s : Scanner) (shown : ℕ → Word)
    (unsigned : (n : ℕ) → n < 2 ^ 32 → s.unsigned (shown n) ≡ some (n, none)) where
  past-run :
      (type : RequestType) (i n : ℕ) (rs : List Request) (l : Loop) (ops : List Request) (fuel : ℕ)
      → l.ops ≡ ops
      → l.op_index ≡ length ops
      → i < 2 ^ 32
      → n < 2 ^ 32
      → read_requests s
          (suc fuel)
          (text_of shown (record { type = type; index = i; size = n } ∷ rs))
          l
        ≡ past_array
  unfolding read_requests read_request read_sized read_free
  past-run alloc i n rs l ops fuel e1 e2 h k =
      rw (unsigned i h, unsigned n k, e1, e2, past_end ops) refl
  past-run free i n rs l ops fuel e1 e2 h k = rw (unsigned i h, e1, e2, past_end ops) refl
  past-run realloc i n rs l ops fuel e1 e2 h k =
      rw (unsigned i h, unsigned n k, e1, e2, past_end ops) refl

  requests-overrun :
      (rs : List Request) (l : Loop) (past ms : List Request) (fuel : ℕ)
      → l.ops ≡ past ++ ms
      → l.op_index ≡ length past
      → length ms < length rs
      → Small rs
      → length past + length rs < 2 ^ 32
      → length (text_of shown rs) ≤ fuel
      → read_requests s fuel (text_of shown rs) l ≡ past_array
  requests-overrun [] l past ms fuel e1 e2 more small few f = absurd (omega arith)
  requests-overrun (r ∷ rs) l past ms zero e1 e2 more small few f =
      absurd (omega (arith, f, text_grows shown r.type r.index r.size rs))
  requests-overrun (r ∷ rs) l past [] (suc fuel) e1 e2 more (h, k, small) few f =
      past-run r.type r.index r.size rs l past fuel (e1 ∙ nil_right past) e2 h k
  requests-overrun (r ∷ rs) l past (m ∷ ms) (suc fuel) e1 e2 more (h, k, small) few f =
      let both : length (past ++ stored m r ∷ []) ≡ length past + 1 =
        length-append past (stored m r ∷ []) in
      let count : add32 (length past) 1 ≡ length (past ++ stored m r ∷ []) =
        omega (arith, both, few) in
      request-run s shown unsigned r.type r.index r.size rs l past m ms fuel e1 e2 h k
      ∙ requests-overrun rs (after s shown unsigned past m ms r l) (past ++ stored m r ∷ []) ms fuel
          (sym (snoc past (stored m r) ms)) count (omega arith) small (omega (arith, both))
          (omega (arith, f, text_grows shown r.type r.index r.size rs))

module _ (s : Scanner) (m : Memory) (shown : ℕ → Word)
    (signed : (n : ℕ) → n < 2 ^ 32 → s.signed (shown n) ≡ some (n, none))
    (unsigned : (n : ℕ) → n < 2 ^ 32 → s.unsigned (shown n) ≡ some (n, none)) where
  -- When the scanner reads back what is shown, and the arrays are allocated, that of the requests
  -- with as many elements as the file announces, and all numbers are below 2 ^ 32, `read_trace` of a
  -- file with more requests than it announces writes past that array: the assertion on their number
  -- comes behind the loop.
  pub read_trace-overruns :
      (heapsize ids count weight : ℕ) (rs ms : List Request) (blocks block_sizes : List ℕ)
      → heapsize < 2 ^ 32
      → ids < 2 ^ 32
      → count < 2 ^ 32
      → weight < 2 ^ 32
      → length rs < 2 ^ 32
      → Small rs
      → m.ops count ≡ some ms
      → length ms ≡ count
      → m.blocks ids ≡ some blocks
      → m.block_sizes ids ≡ some block_sizes
      → count < length rs
      → read_trace s m
          (some (shown heapsize ∷ shown ids ∷ shown count ∷ shown weight ∷ text_of shown rs))
        ≡ undefined
  unfolding read_trace
  read_trace-overruns heapsize ids count weight rs ms bs zs h1 h2 h3 h4 h5 small e1 e2 e3 e4 more =
      rw (signed heapsize h1, signed ids h2, signed count h3, signed weight h4, e1, e3, e4)
        (rw
          (requests-overrun s shown unsigned rs
            (record { ops = ms; index = 0; size = m.size; max_index = 0; op_index = 0 }) [] ms
            (length (text_of shown rs)) refl refl (omega arith) small (omega arith) (omega arith))
          refl)
