-- ===== src/Driver/Accept/New.antt =====
-- What the driver does with a block that the allocator gives it: the checks and the fill.
use itu_operating_systems_an.Base.{
  ℕ, ◌+◌, ◌^◌, ◌%◌, ◌≤◌, ◌<◌, ◌≡◌, ◌≢◌, refl, ap, ◌∙◌, Bool, true, false, ◌&&◌, ◌||◌, ◌⊎◌, List,
  ◌∷◌, arith, ◌==◌, Bool-cases, inl, inr, leb, ltb, length, set, length-set, get_elem?-set_self,
  get_elem?-set_ne,
}
use itu_operating_systems_an.Malloc.Machine.{Machine}
use itu_operating_systems_an.Malloc.Bytes.{Span, with_word}
use itu_operating_systems_an.Malloc.View.{SamePayloads, assign}
use itu_operating_systems_an.Malloc.View.Fill.{WithinPayload}
use itu_operating_systems_an.Driver.Trace.{Allocator, Replay, done, check_range}
use itu_operating_systems_an.Driver.Valid.{remember}
use itu_operating_systems_an.Driver.Bytes.{filled, memset-run, filled_beside, filled_bytes}
use itu_operating_systems_an.Driver.Accept.{
  Gives, Contract, Entry, extent, extents, has, has_ptr, Owns, OwnsAll, Agrees,
}
use itu_operating_systems_an.Driver.Accept.Checks.{
  add_range-added, check_range-calls, remember-calls, in_bounds,
}
use itu_operating_systems_an.Driver.Accept.Owned.{Owns-carry, OwnsAll-carry, owned_ptr, untouched}

-- The driver has checked, filled and stored a block: the states in between.
pub record Taken (a : Allocator) (Heap : Machine → (ℕ → ℕ) → Type 0) (m i : ℕ) (live : ℕ → Bool)
    (d : Replay) (t : Machine) (n q : ℕ) : Type 0 where
  pub checked : Replay
  pub stored : Replay
  pub painted : Machine
  pub not_null : 0 < q
  pub check : check_range q n d t ≡ done true checked t
  pub sizes : checked.block_sizes ≡ d.block_sizes
  pub remembers : remember a i q n checked t ≡ done tt stored painted
  pub agrees : Agrees Heap m live stored painted
  pub same_vm : painted.vm ≡ t.vm
  pub errors : stored.errors ≡ d.errors

module _ (a : Allocator) (c : Contract a) (s t : Machine) (table : ℕ → ℕ) (n more q : ℕ)
    (g : Gives c.Heap s table n more q t) where
  in_table : 0 < assign table q g.size q
  in_table = ground (arith, g.enough)

  place : (t.vm.mem_start_brk < q) × (q + g.size ≤ t.vm.mem_brk) × (q % 8 ≡ 0)
  place = ground (arith, c.within t (assign table q g.size) g.holds q in_table)

  -- a stretch of the new block
  pub span : (k : ℕ) → k ≤ n → Span t q k
  span k h =
      let (vm, start, end) = c.space t (assign table q g.size) g.holds in
      let (low, high, _) = place in
      record {
        limit = t.vm.mem_brk;
        start_mod = start;
        limit_mod = end;
        low = omega arith;
        high = omega (arith, g.enough);
        top = vm.high;
        small = vm.room;
      }

  module _ (m i : ℕ) (live : ℕ → Bool) (d : Replay) (es : List Entry) (owns : OwnsAll d t table es)
      (ranges : d.ranges ≡ extents es) (fresh : has i es ≡ false)
      (indices : (j : ℕ) → live j ≡ (j == i || has j es)) (positive : 0 < n)
      (small : n + 15 < 2 ^ 31) (index : i < m) (blocks : length d.blocks ≡ m)
      (block_sizes : length d.block_sizes ≡ m) where
    abbrev entry : Entry
    entry = record { index = i; ptr = q; size = n }

    abbrev checked : Replay
    checked = record d { ranges = extent entry ∷ d.ranges }

    abbrev stored : Replay
    stored = record checked { blocks = set d.blocks i q; block_sizes = set d.block_sizes i n }

    abbrev painted : Machine
    painted = with_word t (filled t.word q (i % 256) n)

    clear :
        (x : ℕ)
        → 0 < table x
        → ((x + table x ≤ q) ⊎ (q + g.size ≤ x)) × (x + table x ≤ t.vm.mem_brk)
    clear x h =
        let other : x ≢ q = (λ e. omega (arith, ap table e, g.new)) in
        let now = assign table q g.size in
        let old : now x ≡ table x = ground arith in
        let new : now q ≡ g.size = ground arith in
        let first = c.apart t now g.holds x q in
        let last = c.apart t now g.holds q x in
        let inside = c.within t now g.holds x in
        ground (arith, first, last, inside, old, new, g.enough)

    checked_run : check_range q n d t ≡ done true checked t
    checked_run =
        let (vm, _, _) = c.space t (assign table q g.size) g.holds in
        let (low, high, even) = place in
        let apart =
          untouched d t table es q n g.size t.vm.mem_brk owns clear positive g.enough high
            (omega (arith, vm.high, vm.room)) in
        check_range-calls d t q n (extent entry ∷ d.ranges) (
          add_range-added t.vm q n g.size d.ranges vm even low high positive small g.enough
            (rw ranges apart))

    remember_run : remember a i q n checked t ≡ done tt stored painted
    remember_run =
        let (x, e) = in_bounds d.blocks i (omega arith) in
        let (y, f) = in_bounds d.block_sizes i (omega arith) in
        remember-calls a checked t painted i q n x y
          (memset-run t q (i % 256) n (span n (omega arith))) e f

    beside : WithinPayload t.word painted.word q (assign table q g.size q)
    beside b h =
        let (_, _, even) = place in filled_beside t.word q (i % 256) n b (ground (arith, g.enough))

    painted_payloads : SamePayloads table t painted
    painted_payloads x b h k =
        let (_, _, even) = place in
        filled_beside t.word q (i % 256) n b (ground (arith, clear x (omega arith), g.enough))

    new_Owns : Owns stored painted (assign table q g.size) entry
    new_Owns = record {
      block = get_elem?-set_self d.blocks i q (omega arith);
      block_size = get_elem?-set_self d.block_sizes i n (omega arith);
      positive = positive;
      small = omega arith;
      even = place.2;
      room = ground (arith, g.enough);
      bytes = λ k h.
          (let inside : (leb q (q + k) && ltb (q + k) (q + n)) ≡ true = ground arith in
            filled_bytes t.word q (i % 256) n (q + k) (omega arith) ∙ rw inside refl);
    }

    old_Owns : OwnsAll stored painted (assign table q g.size) es
    old_Owns = OwnsAll-carry d stored t painted table (assign table q g.size) es owns (λ e h k o.
        (let other : i ≢ e.index = (λ z. cc (ap (λ j. has j es) z)) in
          let apart : e.ptr ≢ q = (λ z. omega (arith, ap table z, g.new, o.room)) in
          Owns-carry d stored t painted table (assign table q g.size) e
            (get_elem?-set_ne d.blocks i e.index q other)
            (get_elem?-set_ne d.block_sizes i e.index n other) (ground arith) painted_payloads o))

    new_ptr : has_ptr q es ≡ false
    new_ptr = elim (Bool-cases (has_ptr q es)) [
      | inl there ↦ absurd (omega (arith, owned_ptr d t table es q owns there, g.new))
      | inr gone ↦ gone
    ]

    stored-Agrees : Agrees c.Heap m live stored painted
    stored-Agrees = record {
      table = assign table q g.size;
      entries = entry ∷ es;
      heap = c.fill t (assign table q g.size) g.holds q in_table painted.word beside;
      owns = (new_Owns, fresh, new_ptr, old_Owns);
      ranges = ap (λ rs. extent entry ∷ rs) ranges;
      indices = indices;
      blocks = length-set d.blocks i q ∙ blocks;
      block_sizes = length-set d.block_sizes i n ∙ block_sizes;
    }

    pub taken : Taken a c.Heap m i live d t n q
    taken = record {
      checked = checked;
      stored = stored;
      painted = painted;
      not_null = omega (arith, place.0);
      check = checked_run;
      sizes = refl;
      remembers = remember_run;
      agrees = stored-Agrees;
      same_vm = refl;
      errors = refl;
    }
