-- ===== src/Driver/Reading/Printed.antt =====
-- `read_trace` on the text of a trace.
use itu_operating_systems_an.Base.{
  ℕ, zero, suc, ◌+◌, ◌^◌, ◌≤◌, ◌<◌, ◌≡◌, refl, sym, ap, ◌∙◌, true, none, some, List, [], ◌∷◌, ◌++◌,
  length, set-append, get_elem?-append, length-append, ◌==◌, arith, add32, sub32,
}
use itu_operating_systems_an.Driver.Trace.{Request, RequestType, alloc, free, realloc}
use itu_operating_systems_an.Driver.Reading.{
  Word, Scanner, Memory, Text, Loop, next, larger, store, read_sized, read_free, read_request,
  Ended, ended, read_requests, read, read_trace,
}

abbrev pub letter : RequestType → Word
letter type = elim type [
  | alloc ↦ record { first = b'a'; others = [] }
  | free ↦ record { first = b'f'; others = [] }
  | realloc ↦ record { first = b'r'; others = [] }
]

-- one line for each request; a free has no size
abbrev pub text_of : (ℕ → Word) → List Request → Text
text_of shown [] = []
text_of shown (r ∷ rs) =
    let rest = text_of shown rs in
    elim r.type [
      | alloc ↦ letter alloc ∷ shown r.index ∷ shown r.size ∷ rest
      | free ↦ letter free ∷ shown r.index ∷ rest
      | realloc ↦ letter realloc ∷ shown r.index ∷ shown r.size ∷ rest
    ]

-- What the array has after the requests are read: a free keeps the size that was there.
abbrev pub stored : Request → Request → Request
stored old r = record {
  type = r.type;
  index = r.index;
  size = elim r.type [ alloc ↦ r.size | free ↦ old.size | realloc ↦ r.size ];
}

abbrev pub merged : List Request → List Request → List Request
merged [] rs = []
merged (m ∷ ms) [] = m ∷ ms
merged (m ∷ ms) (r ∷ rs) = stored m r ∷ merged ms rs

-- the largest index that is allocated or resized
abbrev pub peak : ℕ → List Request → ℕ
peak top [] = top
peak top (r ∷ rs) =
    peak (elim r.type [ alloc ↦ larger r.index top | free ↦ top | realloc ↦ larger r.index top ]) rs

abbrev pub Small : List Request → Type 0
Small [] = Unit {0}
Small (r ∷ rs) = (r.index < 2 ^ 32) × (r.size < 2 ^ 32) × Small rs

pub text_grows :
    (shown : ℕ → Word) (type : RequestType) (i n : ℕ) (rs : List Request)
    → length (text_of shown rs)
      < length (text_of shown (record { type = type; index = i; size = n } ∷ rs))
text_grows shown alloc i n rs = omega arith
text_grows shown free i n rs = omega arith
text_grows shown realloc i n rs = omega arith

pub snoc :
    (xs : List Request) (v : Request) (ys : List Request) → (xs ++ v ∷ []) ++ ys ≡ xs ++ v ∷ ys
snoc [] v ys = refl
snoc (x ∷ xs) v ys = ap (λ zs. x ∷ zs) (snoc xs v ys)

store-run :
    (f : Request → Request) (text : Text) (l : Loop) (past : List Request) (m : Request)
    (ms : List Request)
    → l.ops ≡ past ++ m ∷ ms
    → l.op_index ≡ length past
    → store f text l
      ≡ next text (record l { ops = past ++ f m ∷ ms; op_index = add32 (length past) 1 })
store-run f text l past m ms e1 e2 =
    rw (e1, e2, get_elem?-append past m ms, set-append past m ms (f m)) refl

module _ (s : Scanner) (shown : ℕ → Word)
    (reads : (n : ℕ) → n < 2 ^ 32 → s.unsigned (shown n) ≡ some (n, none)) where
  -- the loop after a request
  abbrev pub after : List Request → Request → List Request → Request → Loop → Loop
  after past m ms r l = record {
    ops = past ++ stored m r ∷ ms;
    index = r.index;
    size = elim r.type [ alloc ↦ r.size | free ↦ l.size | realloc ↦ r.size ];
    max_index = elim r.type [
      | alloc ↦ larger r.index l.max_index
      | free ↦ l.max_index
      | realloc ↦ larger r.index l.max_index
    ];
    op_index = add32 (length past) 1;
  }

  pub request-run :
      (type : RequestType) (i n : ℕ) (rs : List Request) (l : Loop) (past : List Request)
      (m : Request) (ms : List Request) (fuel : ℕ)
      → l.ops ≡ past ++ m ∷ ms
      → l.op_index ≡ length past
      → i < 2 ^ 32
      → n < 2 ^ 32
      → read_requests s
          (suc fuel)
          (text_of shown (record { type = type; index = i; size = n } ∷ rs))
          l
        ≡ read_requests s fuel
            (text_of shown rs)
            (after past m ms (record { type = type; index = i; size = n }) l)
  unfolding read_requests read_request read_sized read_free
  request-run alloc i n rs l past m ms fuel e1 e2 h k =
      rw (reads i h, reads n k, e1, e2, get_elem?-append past m ms, set-append past m ms) refl
  request-run free i n rs l past m ms fuel e1 e2 h k =
      rw (reads i h, e1, e2, get_elem?-append past m ms, set-append past m ms) refl
  request-run realloc i n rs l past m ms fuel e1 e2 h k =
      rw (reads i h, reads n k, e1, e2, get_elem?-append past m ms, set-append past m ms) refl

  -- what the loop leaves
  record Finished (ops : List Request) (top count : ℕ) (rs : List Request) (e : Ended)
      : Type 0 where
    last : Loop
    ends : e ≡ ended last
    written : last.ops ≡ ops
    highest : last.max_index ≡ peak top rs
    counted : last.op_index ≡ count

  requests-run :
      (rs : List Request) (l : Loop) (past ms : List Request) (fuel : ℕ)
      → l.ops ≡ past ++ ms
      → l.op_index ≡ length past
      → length ms ≡ length rs
      → Small rs
      → length past + length rs < 2 ^ 32
      → length (text_of shown rs) ≤ fuel
      → Finished
          (past ++ merged ms rs)
          l.max_index
          (length past + length rs)
          rs
          (read_requests s fuel (text_of shown rs) l)
  unfolding read_requests
  requests-run [] l past [] fuel e1 e2 e3 small few f = record {
    last = l;
    ends = refl;
    written = e1;
    highest = refl;
    counted = e2 ∙ omega arith;
  }
  requests-run [] l past (m ∷ ms) fuel e1 e2 e3 small few f = absurd (omega arith)
  requests-run (r ∷ rs) l past [] fuel e1 e2 e3 small few f = absurd (omega arith)
  requests-run (r ∷ rs) l past (m ∷ ms) zero e1 e2 e3 small few f =
      absurd (omega (arith, f, text_grows shown r.type r.index r.size rs))
  requests-run (r ∷ rs) l past (m ∷ ms) (suc fuel) e1 e2 e3 (h, k, small) few f =
      let step = request-run r.type r.index r.size rs l past m ms fuel e1 e2 h k in
      let both : length (past ++ stored m r ∷ []) ≡ length past + 1 =
        length-append past (stored m r ∷ []) in
      let count : add32 (length past) 1 ≡ length (past ++ stored m r ∷ []) =
        omega (arith, both, few) in
      let g =
        requests-run rs (after past m ms r l) (past ++ stored m r ∷ []) ms fuel
          (sym (snoc past (stored m r) ms)) count (omega arith) small (omega (arith, both))
          (omega (arith, f, text_grows shown r.type r.index r.size rs)) in
      record {
        last = g.last;
        ends = step ∙ g.ends;
        written = g.written ∙ snoc past (stored m r) (merged ms rs);
        highest = g.highest;
        counted = g.counted ∙ omega (arith, both);
      }

-- The file of a trace: four numbers, then a line for each request.
abbrev pub file_of : (ℕ → Word) → ℕ → ℕ → ℕ → List Request → Text
file_of shown heapsize ids weight rs =
    shown heapsize ∷ shown ids ∷ shown (length rs) ∷ shown weight ∷ text_of shown rs

module _ (s : Scanner) (m : Memory) (shown : ℕ → Word)
    (signed : (n : ℕ) → n < 2 ^ 32 → s.signed (shown n) ≡ some (n, none))
    (unsigned : (n : ℕ) → n < 2 ^ 32 → s.unsigned (shown n) ≡ some (n, none)) where
  -- When the scanner reads back what is shown, the arrays are allocated, that of the requests with as
  -- many elements as there are requests, all numbers are below 2 ^ 32, and the number of indices is
  -- one more than the largest index that is allocated or resized, `read_trace` reads from the file
  -- of a trace its numbers and its requests, each free with the size that the array had there.
  pub read_trace-file_of :
      (heapsize ids weight : ℕ) (rs ms : List Request) (blocks block_sizes : List ℕ)
      → heapsize < 2 ^ 32
      → ids < 2 ^ 32
      → weight < 2 ^ 32
      → length rs < 2 ^ 32
      → Small rs
      → m.ops (length rs) ≡ some ms
      → length ms ≡ length rs
      → m.blocks ids ≡ some blocks
      → m.block_sizes ids ≡ some block_sizes
      → ids ≡ peak 0 rs + 1
      → read_trace s m (some (file_of shown heapsize ids weight rs))
        ≡ read (record {
          sugg_heapsize = heapsize;
          num_ids = ids;
          num_ops = length rs;
          weight = weight;
          ops = merged ms rs;
          blocks = blocks;
          block_sizes = block_sizes;
        })
  unfolding read_trace
  read_trace-file_of heapsize ids weight rs ms blocks sizes h1 h2 h3 h4 small e1 e2 e3 e4 e5 =
      let f =
        requests-run s shown unsigned rs
          (record { ops = ms; index = 0; size = m.size; max_index = 0; op_index = 0 }) [] ms
          (length (text_of shown rs)) refl refl e2 small (omega arith) (omega arith) in
      let top : (f.last.max_index == sub32 ids 1) ≡ true = ground (arith, f.highest) in
      let count : (length rs == f.last.op_index) ≡ true = ground (arith, f.counted) in
      rw (signed heapsize h1, signed ids h2, signed (length rs) h4, signed weight h3, e1, e3, e4)
        (rw (f.ends) (
          rw (top, count)
            (ap
              (λ ops. read (record {
                sugg_heapsize = heapsize;
                num_ids = ids;
                num_ops = length rs;
                weight = weight;
                ops = ops;
                blocks = blocks;
                block_sizes = sizes;
              }))
              f.written)))
