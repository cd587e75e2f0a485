-- ===== src/Driver/Accept/Owned.antt =====
-- How the entries of a replay are carried from one state to the next.
use itu_operating_systems_an.Base.{
  ℕ, ◌+◌, ◌^◌, ◌≤◌, ◌<◌, ◌≡◌, ◌≢◌, refl, ap, ◌∙◌, Bool, true, false, ◌&&◌, ◌||◌, ◌⊎◌, List, [], ◌∷◌,
  arith, ◌==◌, Bool-cases, inl, inr, if◌then◌else◌, leb, get_elem?,
}
use itu_operating_systems_an.Malloc.Machine.{Machine}
use itu_operating_systems_an.Malloc.View.{SamePayloads}
use itu_operating_systems_an.Malloc.View.Resize.{payload_byte}
use itu_operating_systems_an.Driver.Ranges.{last_byte, touches_any, remove_range}
use itu_operating_systems_an.Driver.Trace.{Replay}
use itu_operating_systems_an.Driver.Accept.{Entry, extents, has, has_ptr, Owns, OwnsAll}

pub Owns-carry :
    (d f : Replay) (s t : Machine) (table other : ℕ → ℕ) (e : Entry)
    → get_elem? f.blocks e.index ≡ get_elem? d.blocks e.index
    → get_elem? f.block_sizes e.index ≡ get_elem? d.block_sizes e.index
    → other e.ptr ≡ table e.ptr
    → SamePayloads table s t
    → Owns d s table e
    → Owns f t other e
Owns-carry d f s t table other e h1 h2 h3 same o = record {
  block = h1 ∙ o.block;
  block_size = h2 ∙ o.block_size;
  positive = o.positive;
  small = o.small;
  even = o.even;
  room = rw h3 o.room;
  bytes = λ k l. payload_byte table s t e.ptr k o.even (omega (arith, o.room)) same ∙ o.bytes k l;
}

pub OwnsAll-carry :
    (d f : Replay) (s t : Machine) (table other : ℕ → ℕ) (es : List Entry)
    → OwnsAll d s table es
    → ((e : Entry)
        → has e.index es ≡ true
        → has_ptr e.ptr es ≡ true
        → Owns d s table e
        → Owns f t other e)
    → OwnsAll f t other es
OwnsAll-carry d f s t table other [] o carry = tt
OwnsAll-carry d f s t table other (e ∷ es) (o, i, p, rest) carry = (
  carry e (ground arith) (ground arith) o,
  i,
  p,
  OwnsAll-carry d f s t table other es rest (λ x h k. carry x (ground arith) (ground arith)),
)

abbrev pub drop : ℕ → List Entry → List Entry
drop i [] = []
drop i (e ∷ es) = let rest = drop i es in if i == e.index then es else e ∷ rest

-- the entry of a live index, and the others
pub record Dropped (d : Replay) (s : Machine) (table : ℕ → ℕ) (i : ℕ) (es : List Entry)
    : Type 0 where
  pub entry : Entry
  pub index : entry.index ≡ i
  pub owned : Owns d s table entry
  pub others : OwnsAll d s table (drop i es)
  pub ptr : has_ptr entry.ptr es ≡ true
  pub ptr_gone : has_ptr entry.ptr (drop i es) ≡ false
  pub ranges : remove_range entry.ptr (extents es) ≡ extents (drop i es)
  pub indices : (j : ℕ) → has j (drop i es) ≡ (if j == i then false else has j es)

has_ptr-drop : (i p : ℕ) (es : List Entry) → has_ptr p es ≡ false → has_ptr p (drop i es) ≡ false
has_ptr-drop i p [] h = refl
has_ptr-drop i p (e ∷ es) h = ground (arith, has_ptr-drop i p es)

has-differ : (i j : ℕ) (es : List Entry) → has i es ≡ true → has j es ≡ false → i ≢ j
has-differ i j es h k e = cc (ap (λ x. has x es) e)

pub has_ptr-differ :
    (i j : ℕ) (es : List Entry) → has_ptr i es ≡ true → has_ptr j es ≡ false → i ≢ j
has_ptr-differ i j es h k e = cc (ap (λ x. has_ptr x es) e)

pub drop-Dropped :
    (d : Replay) (s : Machine) (table : ℕ → ℕ) (i : ℕ) (es : List Entry)
    → OwnsAll d s table es
    → has i es ≡ true
    → Dropped d s table i es
unfolding remove_range
drop-Dropped d s table i [] o h = cc
drop-Dropped d s table i (e ∷ es) (o, n, p, rest) h = elim (Bool-cases (i == e.index)) [
  | inl here ↦
      let same : e.index ≡ i = ground arith in
      let gone : has i es ≡ false = rw same at n in
      record {
        entry = e;
        index = same;
        owned = o;
        others = rw here rest;
        ptr = ground arith;
        ptr_gone = rw here p;
        ranges = rw here (ground arith);
        indices = λ j. rw here (elim (Bool-cases (j == i)) [
          | inl at ↦ (let eq : j ≡ i = ground arith in rw (eq) (ground (arith, gone)))
          | inr beside ↦ ground arith
        ]);
      }
  | inr there ↦
      let r = drop-Dropped d s table i es rest (rw there at h) in
      let other = has_ptr-differ r.entry.ptr e.ptr es r.ptr p in
      record {
        entry = r.entry;
        index = r.index;
        owned = r.owned;
        others =
            rw there ((o, (r.indices e.index ∙ ground arith), has_ptr-drop i e.ptr es p, r.others));
        ptr = ground (arith, r.ptr);
        ptr_gone = rw there (ground (arith, r.ptr_gone, other));
        ranges = rw there (ground (arith, r.ranges, other));
        indices = λ j. rw there (ground (arith, r.indices j));
      }
]

-- the pointers of the entries are in the table
pub owned_ptr :
    (d : Replay) (s : Machine) (table : ℕ → ℕ) (es : List Entry) (x : ℕ)
    → OwnsAll d s table es
    → has_ptr x es ≡ true
    → 0 < table x
owned_ptr d s table [] x o h = cc
owned_ptr d s table (e ∷ es) x (o, n, p, rest) h = elim (Bool-cases (x == e.ptr)) [
  | inl here ↦ (let at : x ≡ e.ptr = ground arith in rw at (omega (arith, o.room)))
  | inr there ↦ owned_ptr d s table es x rest (rw there at h)
]

-- No payload touches a new block.
pub untouched :
    (d : Replay) (s : Machine) (table : ℕ → ℕ) (es : List Entry) (q n size limit : ℕ)
    → OwnsAll d s table es
    → ((x : ℕ) → 0 < table x → ((x + table x ≤ q) ⊎ (q + size ≤ x)) × (x + table x ≤ limit))
    → 0 < n
    → n + 8 ≤ size
    → q + size ≤ limit
    → limit < 2 ^ 32
    → touches_any q (last_byte q n) (extents es) ≡ false
unfolding touches_any
untouched d s table [] q n size limit o clear h1 h2 h3 h4 = refl
untouched d s table (e ∷ es) q n size limit (o, _, _, rest) clear h1 h2 h3 h4 =
    let ih = untouched d s table es q n size limit rest clear h1 h2 h3 h4 in
    let (beside, below) = clear e.ptr (omega (arith, o.room)) in
    apart_touches e.ptr e.size (table e.ptr) q n size limit _ beside below o.positive o.room h1 h2
      h3 h4 ih
  where
    apart_touches :
        (p m whole q n size limit : ℕ) (rest : Bool)
        → (p + whole ≤ q) ⊎ (q + size ≤ p)
        → p + whole ≤ limit
        → 0 < m
        → m + 8 ≤ whole
        → 0 < n
        → n + 8 ≤ size
        → q + size ≤ limit
        → limit < 2 ^ 32
        → rest ≡ false
        → (leb p q && leb q (last_byte p m)
            || leb p (last_byte q n) && leb (last_byte q n) (last_byte p m)
            || rest)
          ≡ false
    apart_touches p m whole q n size limit rest h1 h2 h3 h4 h5 h6 h7 h8 h9 = ground arith
