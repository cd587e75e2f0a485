-- ===== src/Malloc/Heap/Marked.antt =====
-- The headers and footers of the block that takes in its free
-- neighbours.
use itu_operating_systems_an.Base.{
  ℕ, zero, suc, ◌+◌, ◌-◌, ◌%◌, ◌≤◌, ◌≡◌, ◌≢◌, refl, arith, ◌==◌, if◌then◌else◌,
}
use itu_operating_systems_an.Malloc.Machine.{Machine, Run, done, write}
use itu_operating_systems_an.Malloc.Block.{size_of, get_size, get_prev_block_ptr}
use itu_operating_systems_an.Malloc.Heap.{merge}
use itu_operating_systems_an.Malloc.Heap.Merge.{both_free, prev_free, next_free, none_free}
use itu_operating_systems_an.Malloc.Heap.Headers.{IsBlock, set_header-run, set_footer-run}
use itu_operating_systems_an.Malloc.Heap.Around.{
  Spot, Tags, Ends, tag_size, next-run, prev-run, prev_size-run, next_size-run, next_footer-run,
  next_footer_size-run,
}

-- the block after the merge: its pointer and its size
abbrev pub merged_ptr : ℕ → ℕ → ℕ → ℕ
merged_ptr psize pa p = if pa == 0 then p - psize else p

abbrev pub merged_size : ℕ → ℕ → ℕ → ℕ → ℕ → ℕ
merged_size psize pa size nsize na =
    (if pa == 0 then psize else 0) + size + (if na == 0 then nsize else 0)

-- A run that returns `q` and leaves a free block of `total` bytes there, with its header and its
-- footer, and no other word changed.
pub record Marked (s : Machine) (q total : ℕ) (r : Run ℕ) : Type 0 where
  pub words : ℕ → ℕ
  pub returns : r ≡ done q (record s { word = words })
  pub header : words (q - 4) ≡ total
  pub footer : words (q + total - 8) ≡ total
  pub beside : (a : ℕ) → a ≢ q - 4 → a ≢ q + total - 8 → words a ≡ s.word a

Tags-write :
    (w : ℕ → ℕ) (psize pa p size nsize na a v : ℕ)
    → Tags w psize pa p size nsize na
    → a ≢ p - 8
    → a ≢ p - 4
    → a ≢ p + size - 4
    → a ≢ p + size + nsize - 8
    → Tags (write w a v) psize pa p size nsize na
Tags-write w psize pa p size nsize na a v t h1 h2 h3 h4 = record {
  prev_footer = ground (arith, t.prev_footer);
  header = ground (arith, t.header);
  next_header = ground (arith, t.next_header);
  next_footer = λ z. ground (arith, t.next_footer z);
}

module _ (s : Machine) (psize pa p size nsize na : ℕ)
    (sp : Spot s.vm psize pa p size nsize na) where
  prev_by_footer : s.word (p - 8) ≡ psize + pa → get_prev_block_ptr p s ≡ done (p - psize) s
  unfolding get_prev_block_ptr get_size
  prev_by_footer h = ground (arith, tag_size psize pa sp.whole_prev sp.flag_prev (ground arith))

  before : 16 ≤ psize → IsBlock s (p - psize) psize
  before h = record {
    aligned = ground arith;
    above = ground arith;
    below = ground arith;
    limit = sp.limit;
    whole = sp.whole_prev;
    least = h;
  }

  behind : 16 ≤ nsize → IsBlock s (p + size) nsize
  behind h = record {
    aligned = ground arith;
    above = ground arith;
    below = sp.below;
    limit = sp.limit;
    whole = sp.whole_next;
    least = h;
  }

  itself : IsBlock s p size
  itself = record {
    aligned = sp.aligned;
    above = ground arith;
    below = ground arith;
    limit = sp.limit;
    whole = sp.whole;
    least = sp.least;
  }

module _ (s : Machine) (psize p size nsize : ℕ) where
  -- the two neighbours are free
  both-Marked :
      Spot s.vm psize 0 p size nsize 0
      → Tags s.word psize 0 p size nsize 0
      → Ends s.word psize 0 p size
      → Marked s (p - psize) (psize + size + nsize) (merge p 0 0 size s)
  both-Marked sp tags ends =
      let total = psize + size + nsize in
      let w1 = write s.word (p - psize - 4) (total + 0) in
      let w2 = write w1 (p + size + nsize - 8) (total + 0) in
      let s1 : Machine = record s { word = w1 } in
      let s2 : Machine = record s { word = w2 } in
      let fp = sp.free_prev refl in
      let fn = sp.free_next refl in
      let even : total % 8 ≡ 0 = ground arith in
      let prev : IsBlock s (p - psize) psize = before s psize 0 p size nsize 0 sp fp in
      let next : IsBlock s1 (p + size) nsize = behind s1 psize 0 p size nsize 0 sp fn in
      let t1 : Tags w1 psize 0 p size nsize 0 =
        Tags-write s.word psize 0 p size nsize 0 (p - psize - 4) (total + 0) tags (ground arith)
          (ground arith) (ground arith) (ground arith) in
      let found : size_of (w1 (p + size - 4)) ≡ nsize =
        rw (t1.next_header) (tag_size nsize 0 sp.whole_next (omega arith) (ground arith)) in
      record {
        words = w2;
        returns =
            both_free s s1 s2 p size (p - psize) psize (p + size) (p + size + nsize - 8) nsize total
              (p - psize) (prev-run s psize 0 p size nsize 0 sp tags)
              (prev_size-run s psize 0 p size nsize 0 sp tags ends)
              (next-run s psize 0 p size nsize 0 sp tags)
              (next_footer-run s psize 0 p size nsize 0 sp tags)
              (next_footer_size-run s psize 0 p size nsize 0 sp tags refl) (ground arith)
              (set_header-run s (p - psize) psize prev total 0 even (omega arith))
              (next-run s1 psize 0 p size nsize 0 sp t1)
              (set_footer-run s1 (p + size) nsize next total 0 even (omega arith) found)
              (prev_by_footer s2 psize 0 p size nsize 0 sp (ground arith));
        header = ground arith;
        footer = ground arith;
        beside = λ a h k. ground arith;
      }

  -- only the previous one is free
  prev-Marked :
      Spot s.vm psize 0 p size nsize 1
      → Tags s.word psize 0 p size nsize 1
      → Ends s.word psize 0 p size
      → Marked s (p - psize) (psize + size) (merge p 0 1 size s)
  prev-Marked sp tags ends =
      let total = psize + size in
      let w1 = write s.word (p + size - 8) (total + 0) in
      let w2 = write w1 (p - psize - 4) (total + 0) in
      let s1 : Machine = record s { word = w1 } in
      let s2 : Machine = record s { word = w2 } in
      let fp = sp.free_prev refl in
      let even : total % 8 ≡ 0 = ground arith in
      let self : IsBlock s p size = itself s psize 0 p size nsize 1 sp in
      let prev : IsBlock s1 (p - psize) psize = before s1 psize 0 p size nsize 1 sp fp in
      let found : size_of (s.word (p - 4)) ≡ size =
        ground (arith, tags.header, tag_size size 0 sp.whole (omega arith) (ground arith)) in
      record {
        words = w2;
        returns =
            prev_free s s1 s2 p size (p - psize) psize total (p - psize)
              (prev-run s psize 0 p size nsize 1 sp tags)
              (prev_size-run s psize 0 p size nsize 1 sp tags ends) (ground arith)
              (set_footer-run s p size self total 0 even (omega arith) found)
              (prev_by_footer s1 psize 0 p size nsize 1 sp (ground arith))
              (set_header-run s1 (p - psize) psize prev total 0 even (omega arith))
              (prev_by_footer s2 psize 0 p size nsize 1 sp (ground arith));
        header = ground arith;
        footer = ground arith;
        beside = λ a h k. ground arith;
      }

  -- only the next one is free
  next-Marked :
      Spot s.vm psize 1 p size nsize 0
      → Tags s.word psize 1 p size nsize 0
      → Marked s p (size + nsize) (merge p 1 0 size s)
  next-Marked sp tags =
      let total = size + nsize in
      let w1 = write s.word (p - 4) (total + 0) in
      let w2 = write w1 (p + total - 8) (total + 0) in
      let s1 : Machine = record s { word = w1 } in
      let s2 : Machine = record s { word = w2 } in
      let even : total % 8 ≡ 0 = ground arith in
      let self : IsBlock s p size = itself s psize 1 p size nsize 0 sp in
      let whole : IsBlock s1 p total = record {
        aligned = self.aligned;
        above = self.above;
        below = ground arith;
        limit = self.limit;
        whole = even;
        least = ground arith;
      } in
      let put : w1 (p - 4) ≡ total + 0 = ground arith in
      let found : size_of (w1 (p - 4)) ≡ total =
        rw put (tag_size total 0 even (omega arith) (ground arith)) in
      record {
        words = w2;
        returns =
            next_free s s1 s2 p size (p + size) nsize total
              (next-run s psize 1 p size nsize 0 sp tags)
              (next_size-run s psize 1 p size nsize 0 sp tags) (ground arith)
              (set_header-run s p size self total 0 even (omega arith))
              (set_footer-run s1 p total whole total 0 even (omega arith) found);
        header = ground arith;
        footer = ground arith;
        beside = λ a h k. ground arith;
      }

  none-Marked :
      Spot s.vm psize 1 p size nsize 1
      → Tags s.word psize 1 p size nsize 1
      → Ends s.word psize 1 p size
      → Marked s p size (merge p 1 1 size s)
  none-Marked sp tags ends = record {
    words = s.word;
    returns = none_free s p size;
    header = tags.header;
    footer = ends.footer;
    beside = λ a h k. refl;
  }

-- `merge` in all four cases.
pub merge-Marked :
    (s : Machine) (psize pa p size nsize na : ℕ)
    → Spot s.vm psize pa p size nsize na
    → Tags s.word psize pa p size nsize na
    → Ends s.word psize pa p size
    → Marked s (merged_ptr psize pa p) (merged_size psize pa size nsize na) (merge p pa na size s)
merge-Marked s psize zero p size nsize zero sp tags ends =
    both-Marked s psize p size nsize sp tags ends
merge-Marked s psize zero p size nsize (suc zero) sp tags ends =
    let e : psize + size + 0 ≡ psize + size = omega arith in
    rw e (prev-Marked s psize p size nsize sp tags ends)
merge-Marked s psize (suc zero) p size nsize zero sp tags ends =
    let e : 0 + size + nsize ≡ size + nsize = omega arith in
    rw e (next-Marked s psize p size nsize sp tags)
merge-Marked s psize (suc zero) p size nsize (suc zero) sp tags ends =
    let e : 0 + size + 0 ≡ size = omega arith in
    rw e (none-Marked s psize p size nsize sp tags ends)
merge-Marked s psize (suc (suc pa)) p size nsize na sp tags ends =
    absurd (omega (arith, sp.flag_prev))
merge-Marked s psize pa p size nsize (suc (suc na)) sp tags ends =
    absurd (omega (arith, sp.flag_next))
