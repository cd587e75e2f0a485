-- ===== src/Driver/Reading/Tests.antt =====
-- A trace file read, with numbers in unary.
use itu_operating_systems_an.Base.{
  ℕ, zero, suc, ◌^◌, ◌<◌, ◌≡◌, refl, ap, Option, none, some, List, [], ◌∷◌, length, arith, ◌==◌,
  if◌then◌else◌,
}
use itu_operating_systems_an.Driver.Trace.{Request, alloc, free, realloc}
use itu_operating_systems_an.Driver.Reading.{Word, Scanner, Memory, read, undefined, read_trace}
use itu_operating_systems_an.Driver.Reading.Printed.{file_of, text_of, read_trace-file_of}
use itu_operating_systems_an.Driver.Reading.Overrun.{read_trace-overruns}

abbrev strokes : ℕ → List ℕ
strokes zero = []
strokes (suc n) = b'1' ∷ strokes n

abbrev unary : ℕ → Word
unary n = record { first = b'+'; others = strokes n }

abbrev number : Word → Option (ℕ × Option Word)
number w = if w.first == b'+' then some (length w.others, none) else none

length-strokes : (n : ℕ) → length (strokes n) ≡ n
length-strokes zero = refl
length-strokes (suc n) = ap suc (length-strokes n)

number-unary : (n : ℕ) → n < 2 ^ 32 → number (unary n) ≡ some (n, none)
number-unary n h = ap (λ k. some (k, none)) (length-strokes n)

abbrev scanner : Scanner
scanner = record { signed = number; unsigned = number }

abbrev blank : ℕ → List Request
blank zero = []
blank (suc n) = record { type = alloc; index = 7; size = 9 } ∷ blank n

abbrev memory : Memory
memory = record {
  ops = λ n. some (blank n);
  blocks = λ n. some (strokes n);
  block_sizes = λ n. some (strokes n);
  sugg_heapsize = 0;
  num_ids = 0;
  num_ops = 0;
  weight = 0;
  size = 0;
}

abbrev requests : List Request
requests =
    record { type = alloc; index = 0; size = 20 }
    ∷ record { type = alloc; index = 1; size = 8 }
    ∷ record { type = realloc; index = 0; size = 28 }
    ∷ record { type = free; index = 1; size = 0 }
    ∷ []

read_trace-file_of_example :
    read_trace scanner memory (some (file_of unary 100 2 1 requests))
    ≡ read (record {
      sugg_heapsize = 100;
      num_ids = 2;
      num_ops = 4;
      weight = 1;
      ops =
          record { type = alloc; index = 0; size = 20 }
          ∷ record { type = alloc; index = 1; size = 8 }
          ∷ record { type = realloc; index = 0; size = 28 }
          ∷ record { type = free; index = 1; size = 9 }
          ∷ [];
      blocks = strokes 2;
      block_sizes = strokes 2;
    })
read_trace-file_of_example =
    read_trace-file_of scanner memory unary number-unary number-unary 100 2 1 requests (blank 4)
      (strokes 2) (strokes 2) (omega arith) (omega arith) (omega arith) (omega arith) (ground arith)
      refl refl refl refl refl

read_trace-overruns_example :
    read_trace scanner memory
      (some (unary 100 ∷ unary 2 ∷ unary 3 ∷ unary 1 ∷ text_of unary requests))
    ≡ undefined
read_trace-overruns_example =
    read_trace-overruns scanner memory unary number-unary number-unary 100 2 3 1 requests (blank 3)
      (strokes 2) (strokes 2) (omega arith) (omega arith) (omega arith) (omega arith) (omega arith)
      (ground arith) refl refl refl refl (omega arith)
