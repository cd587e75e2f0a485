-- ===== src/Malloc/Heap/Detach.antt =====
-- How `coalesce` takes a block and its free neighbours off the free list.
use itu_operating_systems_an.Base.{
  ℕ, ◌+◌, ◌-◌, ◌%◌, ◌≤◌, ◌≡◌, refl, ◌∙◌, true, false, not, ◌&&◌, List, [], ◌∷◌, arith, ◌==◌,
  if◌then◌else◌, Bool-cases, inl, inr,
}
use itu_operating_systems_an.Memlib.{Vm}
use itu_operating_systems_an.Malloc.Machine.{Machine, M, done, when, ◌>>=◌, ◌>>◌}
use itu_operating_systems_an.Malloc.Block.{
  is_free, get_header_ptr, get_next_block_ptr, get_prev_block_ptr,
}
use itu_operating_systems_an.Malloc.Links.{remove_from_free_list}
use itu_operating_systems_an.Malloc.Links.Chain.{mem, is_link, Nodes, IsFreeList, SameBeside}
use itu_operating_systems_an.Malloc.Links.Add.{Relinked}
use itu_operating_systems_an.Malloc.Links.Delete.{delete, mem-delete, is_link-delete, remove-delete}
use itu_operating_systems_an.Malloc.Heap.{detach}
use itu_operating_systems_an.Malloc.Heap.Around.{Spot, Tags, Ends, next-run, prev-run, free-run}

-- `x` is off the list when the flag `a` is 0.
abbrev pub drop_if : ℕ → ℕ → List ℕ → List ℕ
drop_if a x xs = if a == 0 then delete x xs else xs

-- the list without the block at `p` and its free neighbours
abbrev pub detached : ℕ → ℕ → ℕ → ℕ → ℕ → List ℕ → List ℕ
detached psize pa p size na xs = delete p (drop_if pa (p - psize) (drop_if na (p + size) xs))

-- A header or footer that ends at `q` has no link in it.
pub is_link-edge :
    (v : Vm) (q : ℕ) (xs : List ℕ)
    → Nodes v xs
    → q % 8 ≡ 0
    → 8 ≤ q
    → mem (q - 8) xs ≡ false
    → (is_link (q - 8) xs ≡ false) × (is_link (q - 4) xs ≡ false)
is_link-edge v q [] n h k m = (refl, refl)
is_link-edge v q (x ∷ xs) (nx, mx, n) h k m = ground (arith, is_link-edge v q xs n h k)

-- The free list around the block: the block and its free neighbours stand on it, and no block of it
-- starts where a header or footer is.
pub record Listed (s : Machine) (xs : List ℕ) (psize pa p size nsize na : ℕ) : Type 0 where
  pub list : IsFreeList s xs
  pub here : mem p xs ≡ true
  pub prev_in : (pa ≡ 0) → mem (p - psize) xs ≡ true
  pub next_in : (na ≡ 0) → mem (p + size) xs ≡ true
  pub edge_prev : mem (p - psize - 8) xs ≡ false
  pub edge : mem (p - 8) xs ≡ false
  pub edge_next : mem (p + size - 8) xs ≡ false
  pub edge_last : (na ≡ 0) → mem (p + size + nsize - 8) xs ≡ false

-- what one removal leaves for the next
pub record Carried (s : Machine) (xs : List ℕ) (t : Machine) (ys : List ℕ) : Type 0 where
  pub same_vm : t.vm ≡ s.vm
  pub same_heap_ptr : t.heap_ptr ≡ s.heap_ptr
  pub list : IsFreeList t ys
  pub beside : SameBeside xs s.word t.word

Relinked-bind :
    (s : Machine) (xs ys zs : List ℕ) (m k : M (Unit {0}))
    → Relinked s xs ys (m s)
    → ((t : Machine) → Carried s xs t ys → Relinked t xs zs (k t))
    → Relinked s xs zs ((m >> k) s)
Relinked-bind s xs ys zs m k r f =
    let c : Carried s xs r.after ys = record {
      same_vm = r.same_vm;
      same_heap_ptr = r.same_heap_ptr;
      list = r.list;
      beside = r.beside;
    } in
    let q = f r.after c in
    record {
      after = q.after;
      returns = rw (r.returns) q.returns;
      same_vm = q.same_vm ∙ r.same_vm;
      same_heap_ptr = q.same_heap_ptr ∙ r.same_heap_ptr;
      list = q.list;
      beside = λ a h. q.beside a h ∙ r.beside a h;
    }

-- the first two steps of `detach`, and the last one
abbrev drop : ℕ → M ℕ → M (Unit {0})
drop a ptr = when (a == 0) (do y ← ptr; remove_from_free_list y)

abbrev drop_self : ℕ → M (Unit {0})
drop_self p = do free ← is_free (get_header_ptr p); when free (remove_from_free_list p)

drop_step :
    (s : Machine) (xs ys : List ℕ) (a x : ℕ) (ptr : M ℕ)
    → ptr s ≡ done x s
    → IsFreeList s ys
    → ((a ≡ 0) → mem x ys ≡ true)
    → ((b : ℕ) → is_link b xs ≡ false → is_link b ys ≡ false)
    → Relinked s xs (drop_if a x ys) (drop a ptr s)
drop_step s xs ys a x ptr e l m sub = elim (Bool-cases (a == 0)) [
  | inl z ↦
      let r = remove-delete s x ys l (m (ground arith)) in
      rw z (
        rw e (record {
          after = r.after;
          returns = r.returns;
          same_vm = r.same_vm;
          same_heap_ptr = r.same_heap_ptr;
          list = r.list;
          beside = λ b h. r.beside b (sub b h);
        }))
  | inr z ↦ rw z (record {
    after = s;
    returns = refl;
    same_vm = refl;
    same_heap_ptr = refl;
    list = l;
    beside = λ b h. refl;
  })
]

pub is_link-drop_if :
    (b a x : ℕ) (xs : List ℕ) → is_link b xs ≡ false → is_link b (drop_if a x xs) ≡ false
is_link-drop_if b a x xs h = ground (arith, is_link-delete b x xs)

pub mem-drop_if :
    (v : Vm) (y a x : ℕ) (xs : List ℕ)
    → Nodes v xs
    → mem y (drop_if a x xs) ≡ (mem y xs && not (a == 0 && y == x))
mem-drop_if v y a x xs n = ground (arith, mem-delete v y x xs n)

module _ (psize pa p size nsize na : ℕ) where
  -- The headers and footers survive a change of links of the list.
  pub Tags-carried :
      (s t : Machine) (xs : List ℕ)
      → Spot s.vm psize pa p size nsize na
      → Listed s xs psize pa p size nsize na
      → SameBeside xs s.word t.word
      → Tags s.word psize pa p size nsize na
      → Tags t.word psize pa p size nsize na
  Tags-carried s t xs sp l same tags =
      let n = l.list.nodes in
      let (pf, h) = is_link-edge s.vm p xs n sp.aligned (ground arith) l.edge in
      let (_, nh) = is_link-edge s.vm (p + size) xs n (ground arith) (ground arith) l.edge_next in
      record {
        prev_footer = same (p - 8) pf ∙ tags.prev_footer;
        header = same (p - 4) h ∙ tags.header;
        next_header = same (p + size - 4) nh ∙ tags.next_header;
        next_footer = λ z.
            (let (nf, _) =
                is_link-edge s.vm (p + size + nsize) xs n (ground arith) (ground arith)
                  (l.edge_last z) in
              same (p + size + nsize - 8) nf ∙ tags.next_footer z);
      }

  pub Ends-carried :
      (s t : Machine) (xs : List ℕ)
      → Spot s.vm psize pa p size nsize na
      → Listed s xs psize pa p size nsize na
      → SameBeside xs s.word t.word
      → Ends s.word psize pa p size
      → Ends t.word psize pa p size
  Ends-carried s t xs sp l same ends =
      let n = l.list.nodes in
      let (_, ph) = is_link-edge s.vm (p - psize) xs n (ground arith) (ground arith) l.edge_prev in
      let (nh, _) = is_link-edge s.vm (p + size) xs n (ground arith) (ground arith) l.edge_next in
      record {
        prev_header = same (p - psize - 4) ph ∙ ends.prev_header;
        footer = same (p + size - 8) nh ∙ ends.footer;
      }

  module _ (s : Machine) (xs : List ℕ) (sp : Spot s.vm psize pa p size nsize na)
      (tags : Tags s.word psize pa p size nsize na) (l : Listed s xs psize pa p size nsize na) where
    detach-last :
        (t : Machine) (ys : List ℕ)
        → t.vm ≡ s.vm
        → Tags t.word psize pa p size nsize na
        → IsFreeList t ys
        → mem p ys ≡ true
        → ((b : ℕ) → is_link b xs ≡ false → is_link b ys ≡ false)
        → Relinked t xs (delete p ys) (drop_self p t)
    detach-last t ys e tg f m sub =
        let spt : Spot t.vm psize pa p size nsize na = rw e sp in
        let r = remove-delete t p ys f m in
        rw (free-run t psize pa p size nsize na spt tg) (record {
          after = r.after;
          returns = r.returns;
          same_vm = r.same_vm;
          same_heap_ptr = r.same_heap_ptr;
          list = r.list;
          beside = λ b h. r.beside b (sub b h);
        })

    pub detach-Relinked : Relinked s xs (detached psize pa p size na xs) (detach p pa na s)
    unfolding detach
    detach-Relinked =
        let n = l.list.nodes in
        let ys1 = drop_if na (p + size) xs in
        let ys2 = drop_if pa (p - psize) ys1 in
        let next = next-run s psize pa p size nsize na sp tags in
        Relinked-bind s xs ys1 (delete p ys2) (drop na (get_next_block_ptr p))
          (drop pa (get_prev_block_ptr p) >> drop_self p)
          (drop_step s xs xs na (p + size) (get_next_block_ptr p) next l.list l.next_in (λ b h. h))
          λ t1 c1.
            (let sp1 : Spot t1.vm psize pa p size nsize na = rw (c1.same_vm) sp in
              let tg1 = Tags-carried s t1 xs sp l c1.beside tags in
              let prev = prev-run t1 psize pa p size nsize na sp1 tg1 in
              Relinked-bind t1 xs ys2 (delete p ys2) (drop pa (get_prev_block_ptr p)) (drop_self p)
                (drop_step t1 xs ys1 pa (p - psize) (get_prev_block_ptr p) prev c1.list
                  (λ z.
                    ground (arith, mem-drop_if s.vm (p - psize) na (p + size) xs n, l.prev_in z))
                  (λ b h. is_link-drop_if b na (p + size) xs h))
                λ t2 c2.
                  detach-last t2 ys2 (c2.same_vm ∙ c1.same_vm)
                    (Tags-carried s t2 xs sp l (λ a h. c2.beside a h ∙ c1.beside a h) tags) c2.list
                    (ground (
                      arith,
                      mem-drop_if s.vm p na (p + size) xs n,
                      l.here,
                      mem-drop_if t1.vm p pa (p - psize) ys1 c1.list.nodes,
                    ))
                    (λ b h.
                      is_link-drop_if b pa (p - psize) ys1 (is_link-drop_if b na (p + size) xs h)))
