-- ===== src/Driver/Reading.antt =====
-- `read_trace` of 22-Lab3-malloclab/mdriver.c, on a file as a list of words between white space. How
-- a number is read from a word is left to the C library, and a parameter here.
pub mod Printed
pub mod Overrun
mod Tests
use itu_operating_systems_an.Base.{
  ℕ, zero, suc, ◌+◌, ◌-◌, Bool, true, false, Option, none, some, List, [], ◌∷◌, length, get_elem?,
  set, ◌==◌, ltb, if◌then◌else◌, not, ◌&&◌, add32, sub32,
}
use itu_operating_systems_an.Driver.Trace.{Request, RequestType, alloc, free, realloc}

-- a word of the file; it has a character
pub record Word : Type 0 where
  pub first : ℕ
  pub others : List ℕ

-- What `%d` and `%u` take from the front of a word: nothing, or the bit pattern of a number and what
-- is left of the word.
pub record Scanner : Type 0 where
  pub signed : Word → Option (ℕ × Option Word)
  pub unsigned : Word → Option (ℕ × Option Word)

-- What `malloc` gives: NULL, or an array with whatever it contains; and the variables that are not
-- initialised.
pub record Memory : Type 0 where
  pub ops : ℕ → Option (List Request)
  pub blocks : ℕ → Option (List ℕ)
  pub block_sizes : ℕ → Option (List ℕ)
  pub sugg_heapsize : ℕ
  pub num_ids : ℕ
  pub num_ops : ℕ
  pub weight : ℕ
  pub size : ℕ

-- `trace_t`
pub record TraceFile : Type 0 where
  pub sugg_heapsize : ℕ
  pub num_ids : ℕ
  pub num_ops : ℕ
  pub weight : ℕ
  pub ops : List Request
  pub blocks : List ℕ
  pub block_sizes : List ℕ

abbrev pub Text : Type 0
Text = List Word

abbrev pub max_line : ℕ
max_line = 1024

abbrev pub put_back : Option Word → Text → Text
put_back none text = text
put_back (some w) text = w ∷ text

-- One conversion: whether it matched, the value of its variable, and the text behind it.
abbrev pub scanned : ℕ → Text → Text → Option (ℕ × Option Word) → Bool × ℕ × Text
scanned old all rest none = (false, old, all)
scanned old all rest (some (n, left)) = (true, n, put_back left rest)

abbrev pub scan : (Word → Option (ℕ × Option Word)) → ℕ → Text → Bool × ℕ × Text
scan number old [] = (false, old, [])
scan number old (w ∷ text) = scanned old (w ∷ text) text (number w)

-- the literal `d` behind the `%u` of `"%ud"`, taken from what is left of the word
abbrev pub word_of : List ℕ → Option Word
word_of [] = none
word_of (c ∷ cs) = some (record { first = c; others = cs })

abbrev pub without_d : Option Word → Option Word
without_d none = none
without_d (some w) = if w.first == b'd' then word_of w.others else some w

abbrev pub literal_d : Option (ℕ × Option Word) → Option (ℕ × Option Word)
literal_d none = none
literal_d (some (n, left)) = some (n, without_d left)

-- the variables of the loop
pub record Loop : Type 0 where
  pub ops : List Request
  pub index : ℕ
  pub size : ℕ
  pub max_index : ℕ
  pub op_index : ℕ

-- One round: on to the next, the message about a bogus character, or a write past an array.
pub data Round : Type 0 where
  next : Text → Loop → Round
  bogus : Round
  overrun : Round

abbrev pub larger : ℕ → ℕ → ℕ
larger index max_index = if ltb max_index index then index else max_index

-- `trace->ops[op_index]` takes the request, which is `f` of what was there
abbrev pub put_request : (Request → Request) → Text → Loop → Option Request → Round
put_request f text l none = overrun
put_request f text l (some old) =
    next text (record l { ops = set l.ops l.op_index (f old); op_index = add32 l.op_index 1 })

abbrev pub store : (Request → Request) → Text → Loop → Round
store f text l = put_request f text l (get_elem? l.ops l.op_index)

-- `fscanf(tracefile, "%u %u", &index, &size)`
abbrev pub scan_two : Scanner → Text → Loop → Text × Loop
scan_two s text l =
    let (ok, index, rest) = scan s.unsigned l.index text in
    let (_, size, end) = scan s.unsigned l.size rest in
    if ok
    then (end, record l { index = index; size = size })
    else (rest, record l { index = index })

unfoldable pub read_sized : RequestType → Scanner → Text → Loop → Round
read_sized type s text l =
    let (rest, m) = scan_two s text l in
    store (λ old. record { type = type; index = m.index; size = m.size }) rest
      (record m { max_index = larger m.index m.max_index })

unfoldable pub read_free : Scanner → Text → Loop → Round
read_free s text l =
    let (_, index, rest) = scan (λ w. literal_d (s.unsigned w)) l.index text in
    store (λ old. record { type = free; index = index; size = old.size }) rest
      (record l { index = index })

unfoldable pub read_request : Scanner → Word → Text → Loop → Round
read_request s w text l =
    if ltb (max_line - 2) (length w.others)
    then overrun
    else if w.first == b'a'
    then read_sized alloc s text l
    else if w.first == b'r'
    then read_sized realloc s text l
    else if w.first == b'f'
    then read_free s text l
    else bogus

pub data Ended : Type 0 where
  ended : Loop → Ended
  bogus_type : Ended
  past_array : Ended
  out_of_fuel : Ended

abbrev pub after_round : (Text → Loop → Ended) → Round → Ended
after_round k (next text l) = k text l
after_round k bogus = bogus_type
after_round k overrun = past_array

unfoldable pub read_requests : Scanner → ℕ → Text → Loop → Ended
read_requests s fuel [] l = ended l
read_requests s zero (w ∷ text) l = out_of_fuel
read_requests s (suc fuel) (w ∷ text) l =
    after_round (read_requests s fuel) (read_request s w text l)

-- A trace, an exit with a message, a failed `assert`, or a write past an array.
pub data Reading : Type 0 where
  read : TraceFile → Reading
  exited : Reading
  assertion_failed : Reading
  undefined : Reading
  no_fuel : Reading

-- the two assertions
abbrev pub closed : TraceFile → Ended → Reading
closed t (ended l) =
    if l.max_index == sub32 t.num_ids 1 && t.num_ops == l.op_index
    then read (record t { ops = l.ops })
    else assertion_failed
closed t bogus_type = exited
closed t past_array = undefined
closed t out_of_fuel = no_fuel

abbrev pub with_arrays :
    TraceFile → Option (List Request) → Option (List ℕ) → Option (List ℕ) → Option TraceFile
with_arrays t (some ops) (some blocks) (some sizes) =
    some (record t { ops = ops; blocks = blocks; block_sizes = sizes })
with_arrays t ops blocks sizes = none

abbrev pub read_body : Scanner → ℕ → Text → Option TraceFile → Reading
read_body s size text none = exited
read_body s size text (some t) = closed t (
    read_requests s (length text) text
      (record { ops = t.ops; index = 0; size = size; max_index = 0; op_index = 0 }))

-- `none` is a file that cannot be opened.
unfoldable pub read_trace : Scanner → Memory → Option Text → Reading
read_trace s m none = exited
read_trace s m (some text) =
    let (_, sugg_heapsize, text1) = scan s.signed m.sugg_heapsize text in
    let (_, num_ids, text2) = scan s.signed m.num_ids text1 in
    let (_, num_ops, text3) = scan s.signed m.num_ops text2 in
    let (_, weight, text4) = scan s.signed m.weight text3 in
    read_body s m.size text4 (
      with_arrays
        (record {
          sugg_heapsize = sugg_heapsize;
          num_ids = num_ids;
          num_ops = num_ops;
          weight = weight;
          ops = [];
          blocks = [];
          block_sizes = [];
        })
        (m.ops num_ops) (m.blocks num_ids) (m.block_sizes num_ids))
