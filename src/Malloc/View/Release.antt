-- ===== src/Malloc/View/Release.antt =====
-- `mm_free` as its callers see it.
use itu_operating_systems_an.Base.{
  ℕ, ◌+◌, ◌%◌, ◌≤◌, ◌<◌, ◌≡◌, ◌≢◌, refl, sym, ap, ◌∙◌, Bool, true, false, ◌&&◌, ◌||◌, ◌∷◌, arith,
  ◌==◌, if◌then◌else◌, leb, ltb,
}
use itu_operating_systems_an.Malloc.Machine.{Machine, done}
use itu_operating_systems_an.Malloc.Heap.{mm_free}
use itu_operating_systems_an.Malloc.Tiling.{first_ptr}
use itu_operating_systems_an.Malloc.Tiling.Range.{IsHeap-bounds}
use itu_operating_systems_an.Malloc.Tiling.Payload.{payload_at, payload_back}
use itu_operating_systems_an.Malloc.Tiling.Coalesce.{
  past_free, joined_ptr, joined_block, joined_end,
}
use itu_operating_systems_an.Malloc.Tiling.Settled.{joined-Settled}
use itu_operating_systems_an.Malloc.Tiling.Free.{mm_free-IsHeap}
use itu_operating_systems_an.Malloc.View.{
  owned_at, owned_back, Holds, SamePayloads, SameStorage, assign, owned_at-range, owned_back-range,
}
use itu_operating_systems_an.Malloc.View.Zipper.{
  Holds-Found, zipper-Holds, zipper_says, zipper-Settled, Holds-payload, Holds-apart,
  owned_back-past_free, owned_at-past_free,
}

-- one entry of the table after the block at `p` is freed
freed_entry :
    (a p m back rest size f e : ℕ) (used : Bool)
    → used ≡ true
    → m ≡ back + (if used && a == p then size else rest)
    → ((0 < back) → (f ≤ a) × (a + back ≤ p))
    → ((0 < rest) → (p + size ≤ a) × (a + rest ≤ e) × (16 ≤ rest) × (a % 8 ≡ 0))
    → 16 ≤ size
    → (if a == p then 0 else m) ≡ back + rest
freed_entry a p m back rest size f e used h1 h2 h3 h4 h5 = ground arith

freed_payload :
    (a p size : ℕ) (used back rest : Bool)
    → (back || ((used && (leb p a && ltb (a + 8) (p + size))) || rest)) ≡ true
    → (leb p a && ltb (a + 8) (p + size)) ≡ false
    → (back || rest) ≡ true
freed_payload a p size used back rest h k = ground arith

module _ (s : Machine) (table : ℕ → ℕ) (v : Holds s table) (p : ℕ) (in_use : 0 < table p) where
  -- no word of another payload is in the block
  other_payload :
      (x a : ℕ)
      → x ≤ a
      → a + 8 < x + assign table p 0 x
      → (x ≢ p) × (a + 8 < x + table x) × ((leb p a && ltb (a + 8) (p + table p)) ≡ false)
  other_payload x a h k =
      let other : x ≢ p = ground arith in
      let same : assign table p 0 x ≡ table x = ground arith in
      let l : a + 8 < x + table x = rw same at k in
      (
        other,
        l,
        ground (
          arith,
          Holds-apart s table v x p (omega arith) in_use,
          Holds-apart s table v p x in_use (omega arith),
        ),
      )

  -- On a heap with a table of the blocks in use, `mm_free` of the pointer of one of them returns,
  -- with no access outside the storage, and leaves a heap with that block off the table; the
  -- storage and its break are the same, and no payload of another block in use has changed.
  pub mm_free-Holds :
      (t : Machine) × (mm_free p s ≡ done tt t)
      × Holds t (assign table p 0)
      × SameStorage s t 0
      × SamePayloads (assign table p 0) s t
  mm_free-Holds =
      let f = Holds-Found s table v p in_use in
      let h = f.heap in
      let (t, ys, run, same, g, kept) =
        mm_free-IsHeap s f.before p f.block f.after v.list h f.used in
      let (_, al, _, _) = IsHeap-bounds s f.before p (f.block ∷ f.after) v.list h in
      let (left, (m, right), o) =
        zipper-Settled s f.before p (f.block ∷ f.after) v.list h table v in
      let first : first_ptr s.vm % 8 ≡ 0 = omega (arith, h.start) in
      let whole = h.front.0.0 in
      let low = λ (a : ℕ). owned_back-range s.word a (first_ptr s.vm) p f.before first h.back in
      let high = λ (a : ℕ).
        owned_at-range s.word a (p + f.block.size) s.vm.mem_brk f.after (omega arith) h.front.1 in
      let says = zipper_says s f.before p (f.block ∷ f.after) v.list h table v in
      let end = joined_end s p f.block v.list f.before f.after h in
      let q = joined_ptr f.before p in
      let over = λ (a : ℕ).
        owned_at-past_free a (p + f.block.size) f.after
        ∙ ap (λ n. owned_at a n (past_free f.after)) (sym end) in
      (
        t,
        run,
        zipper-Holds t (past_free f.before) q
            (joined_block f.before f.block.size f.after ∷ past_free f.after) (q ∷ ys) g
            (assign table p 0) (joined-Settled f.before f.after f.block.size left right)
            (λ a.
              freed_entry a p (table a) (owned_back a p f.before)
                (owned_at a (p + f.block.size) f.after) f.block.size (first_ptr s.vm) s.vm.mem_brk
                f.block.used f.used (says a) (low a) (high a) h.front.0.1
              ∙ omega (arith, owned_back-past_free a p f.before, over a)),
        record {
          start = rw same refl;
          end = rw same refl;
          low = rw same (omega arith);
          high = rw same (omega arith);
        },
        λ x a i j.
            (let (other, l, out) = other_payload x a i j in
              kept a (
                freed_payload a p f.block.size f.block.used (payload_back a p f.before)
                  (payload_at a (p + f.block.size) f.after)
                  (Holds-payload s table v f.before p (f.block ∷ f.after) v.list h x a i l)
                  (rw (f.size) out))),
      )
