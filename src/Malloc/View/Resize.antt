-- ===== src/Malloc/View/Resize.antt =====
-- `mm_realloc` as its callers see it, when the block stays where it is.
use itu_operating_systems_an.Base.{
  ℕ, ◌+◌, ◌-◌, ◌^◌, ◌%◌, ◌≤◌, ◌<◌, ◌≡◌, refl, sym, ◌∙◌, subst, Bool, true, false, ◌&&◌, ◌⊎◌, List,
  ◌∷◌, ◌++◌, arith, ◌==◌, inl, if◌then◌else◌,
}
use itu_operating_systems_an.Malloc.Machine.{Machine, done}
use itu_operating_systems_an.Malloc.Block.{calc_block_size}
use itu_operating_systems_an.Malloc.Block.Size.{calc_block_size_bounds}
use itu_operating_systems_an.Malloc.Heap.{mm_realloc}
use itu_operating_systems_an.Malloc.Tiling.{Block, first_ptr, IsHeap}
use itu_operating_systems_an.Malloc.Tiling.Payload.{payload}
use itu_operating_systems_an.Malloc.Tiling.Give.{placed}
use itu_operating_systems_an.Malloc.Tiling.Settled.{placed-Settled}
use itu_operating_systems_an.Malloc.Tiling.Search.{extension}
use itu_operating_systems_an.Malloc.Tiling.Resize.{reach, Resized, kept, grown, mm_realloc-Resized}
use itu_operating_systems_an.Malloc.View.{
  owned_at, owned_back, Holds, SamePayloads, SameStorage, assign, owned_back-range,
}
use itu_operating_systems_an.Malloc.View.Zipper.{
  Found, Holds-Found, zipper-Holds, zipper_says, zipper-Settled, Holds-payload, Holds-range,
  placed_size, le-placed_size, owned_at-placed,
}
use itu_operating_systems_an.Malloc.Bytes.{byte_at}

-- What a call of `mm_realloc` on the block at `p` leaves: the table has a block of at least
-- `n` + 8 bytes at `q` in its place, which has the bytes of the old payload, as far as they fit.
pub record Renewed (s : Machine) (table : ℕ → ℕ) (p n q : ℕ) (last : Machine) : Type 0 where
  pub size : ℕ
  pub place : (q ≡ p) ⊎ (table q ≡ 0)
  pub enough : n + 8 ≤ size
  pub holds : Holds last (assign (assign table p 0) q size)
  pub storage : SameStorage s last (extension (calc_block_size n))
  pub contents : SamePayloads (assign table p 0) s last
  pub bytes : (k : ℕ) → k < n → k + 8 < table p → byte_at last.word (q + k) ≡ byte_at s.word (p + k)

pub Holds-same :
    (s : Machine) (table other : ℕ → ℕ)
    → ((a : ℕ) → other a ≡ table a)
    → Holds s table
    → Holds s other
Holds-same s table other e v = record {
  row = v.row;
  list = v.list;
  heap = v.heap;
  apart = v.apart;
  says = λ a. e a ∙ v.says a;
}

-- A byte of a payload is in a word of it.
pub payload_byte :
    (table : ℕ → ℕ) (s t : Machine) (p k : ℕ)
    → p % 8 ≡ 0
    → k + 8 < table p
    → SamePayloads table s t
    → byte_at t.word (p + k) ≡ byte_at s.word (p + k)
payload_byte table s t p k even h same =
    let e = same p (p + k - (p + k) % 4) (omega arith) (omega arith) in rw e refl

pub fewer_payloads :
    (table : ℕ → ℕ) (s t : Machine) (p : ℕ)
    → SamePayloads table s t
    → SamePayloads (assign table p 0) s t
fewer_payloads table s t p same x a h k = same x a h (ground arith)

-- one entry of the table after the block at `p` has grown
grown_entry :
    (a p m back here k rest size : ℕ) (used : Bool)
    → used ≡ true
    → m ≡ back + (if used && a == p then size else rest)
    → here ≡ (if a == p then k else rest)
    → (a ≡ p → back ≡ 0)
    → (if a == p then k else (if a == p then 0 else m)) ≡ back + here
grown_entry a p m back here k rest size used h1 h2 h3 h4 = ground arith

module _ (s : Machine) (table : ℕ → ℕ) (v : Holds s table) (p : ℕ) (in_use : 0 < table p) (n : ℕ)
    (positive : 0 < n) (small : n + 15 < 2 ^ 32) where
  abbrev pub found : Found s p (table p) v.list
  found = Holds-Found s table v p in_use

  even_ptr : p % 8 ≡ 0
  even_ptr = (Holds-range s table v p in_use).3

  kept_Renewed : calc_block_size n ≤ table p → Renewed s table p n p s
  kept_Renewed fits = record {
    size = table p;
    place = inl refl;
    enough = omega (arith, (calc_block_size_bounds n positive small).2);
    holds = Holds-same s table (assign (assign table p 0) p (table p)) (λ a. ground arith) v;
    storage = record { start = refl; end = refl; low = omega arith; high = omega arith };
    contents = λ x a h k. refl;
    bytes = λ k h l. refl;
  }

  grown_Renewed :
      (t : Machine) (before : List Block) (b c : Block) (after : List Block) (ys : List ℕ)
      → IsHeap s before p (b ∷ c ∷ after) v.list
      → b.used ≡ true
      → calc_block_size n ≤ b.size + c.size
      → c.used ≡ false
      → t.vm ≡ s.vm
      → IsHeap t before p (placed (calc_block_size n) (b.size + c.size) ++ after) ys
      → ((a : ℕ) → payload a before p (b ∷ c ∷ after) ≡ true → t.word a ≡ s.word a)
      → Renewed s table p n p t
  grown_Renewed t before b c after ys h used fits free same g unchanged =
      let (left, (m, (o, right)), i) = zipper-Settled s before p (b ∷ c ∷ after) v.list h table v in
      let first : first_ptr s.vm % 8 ≡ 0 = omega (arith, h.start) in
      let says = zipper_says s before p (b ∷ c ∷ after) v.list h table v in
      let size = calc_block_size n in
      let k = placed_size size (b.size + c.size) in
      let same_payloads : SamePayloads table s t = λ x a j l.
        unchanged a (Holds-payload s table v before p (b ∷ c ∷ after) v.list h x a j l) in
      let end : p + (b.size + c.size) ≡ p + b.size + c.size = omega arith in
      let low = λ (a : ℕ). owned_back-range s.word a (first_ptr s.vm) p before first h.back in
      record {
        size = k;
        place = inl refl;
        enough = omega (
          arith,
          (calc_block_size_bounds n positive small).2,
          le-placed_size size (b.size + c.size) fits,
        );
        holds =
            zipper-Holds t before p (placed size (b.size + c.size) ++ after) ys g
              (assign (assign table p 0) p k)
              (placed-Settled before after size (b.size + c.size) left right (ground arith))
              (λ a.
                grown_entry a p (table a) (owned_back a p before)
                  (owned_at a p (placed size (b.size + c.size) ++ after)) k
                  (owned_at a (p + b.size + c.size) after) b.size b.used used
                  (says a ∙ rw free refl)
                  (rw (sym end) (owned_at-placed a p size (b.size + c.size) after fits))
                  (λ e. ground (arith, low a)));
        storage = record {
          start = rw same refl;
          end = rw same refl;
          low = rw same (omega arith);
          high = rw same (omega arith);
        };
        contents = fewer_payloads table s t p same_payloads;
        bytes = λ j l r. payload_byte table s t p j even_ptr r same_payloads;
      }

  resized_Renewed :
      (t : Machine) (before : List Block) (b : Block) (after : List Block)
      → IsHeap s before p (b ∷ after) v.list
      → b.used ≡ true
      → b.size ≡ table p
      → calc_block_size n ≤ reach b after
      → Resized s before p b (calc_block_size n) t after
      → Renewed s table p n p t
  resized_Renewed t before b after h used e fits (kept enough same) =
      subst (λ u. Renewed s table p n p u) (sym same) (kept_Renewed (rw (sym e) enough))
  resized_Renewed t before b (c ∷ after) h used e fits
        (grown {ys = ys} more free same g unchanged) =
      grown_Renewed t before b c after ys h used (ground arith) free same g unchanged

  -- when the block stays where it is
  pub stay_case :
      calc_block_size n ≤ reach (found.block) (found.after)
      → (t : Machine) × (mm_realloc p n s ≡ done p t) × Renewed s table p n p t
  stay_case fits =
      let (t, run, r) =
        mm_realloc-Resized s found.before p found.block v.list n positive small found.after
          found.heap found.used fits in
      (
        t,
        run,
        resized_Renewed t found.before found.block found.after found.heap found.used found.size fits
            r,
      )
