-- ===== src/Malloc/Heap/Coalesce.antt =====
-- `coalesce` on a free block between its neighbours.
use itu_operating_systems_an.Base.{
  ℕ, ◌+◌, ◌-◌, ◌≡◌, ◌≢◌, refl, sym, ◌∙◌, true, false, not, ◌&&◌, List, [], ◌∷◌, arith, ◌==◌,
  Bool-cases, inl, inr,
}
use itu_operating_systems_an.Memlib.{Vm}
use itu_operating_systems_an.Malloc.Machine.{Machine, Run, done}
use itu_operating_systems_an.Malloc.Block.{
  get_size, is_allocated, get_header_ptr, get_footer_ptr, get_next_block_ptr, get_prev_block_ptr,
}
use itu_operating_systems_an.Malloc.Links.{add_to_free_list}
use itu_operating_systems_an.Malloc.Links.Chain.{mem, is_link, IsNode, Nodes, IsFreeList, Nodes-mem}
use itu_operating_systems_an.Malloc.Links.Add.{add_to_free_list-Relinked}
use itu_operating_systems_an.Malloc.Links.Delete.{delete, mem-delete, is_link-delete}
use itu_operating_systems_an.Malloc.Heap.{detach, merge, coalesce}
use itu_operating_systems_an.Malloc.Heap.Clear.{
  mem-is_link, link_ne, is_link-cons, IsFreeList-beside,
}
use itu_operating_systems_an.Malloc.Heap.Around.{
  Spot, Tags, Ends, next-run, prev-run, size-run, prev_footer-run, prev_flag-run, next_flag-run,
}
use itu_operating_systems_an.Malloc.Heap.Detach.{
  drop_if, detached, is_link-edge, Listed, is_link-drop_if, mem-drop_if, Tags-carried, Ends-carried,
  detach-Relinked,
}
use itu_operating_systems_an.Malloc.Heap.Marked.{merged_ptr, merged_size, merge-Marked}

coalesce_calls :
    (s s1 s2 s3 : Machine) (p prev pf pa next na size q : ℕ)
    → get_prev_block_ptr p s ≡ done prev s
    → get_footer_ptr prev s ≡ done pf s
    → is_allocated pf s ≡ done pa s
    → get_next_block_ptr p s ≡ done next s
    → is_allocated (get_header_ptr next) s ≡ done na s
    → get_size (get_header_ptr p) s ≡ done size s
    → detach p pa na s ≡ done tt s1
    → merge p pa na size s1 ≡ done q s2
    → add_to_free_list q s2 ≡ done tt s3
    → coalesce p s ≡ done q s3
unfolding coalesce
coalesce_calls s s1 s2 s3 p prev pf pa next na size q e1 e2 e3 e4 e5 e6 e7 e8 e9 =
    rw e1 (rw e2 (rw e3 (rw e4 (rw e5 (rw e6 (rw e7 (rw e8 (rw e9 refl))))))))

-- A run of `coalesce` that returns the free block of `total` bytes at `q`, with its header and its
-- footer, at the front of the list, and changes nothing else but links of the old list.
pub record Coalesced (s : Machine) (xs : List ℕ) (q total : ℕ) (ys : List ℕ) (r : Run ℕ)
    : Type 0 where
  pub after : Machine
  pub returns : r ≡ done q after
  pub same_vm : after.vm ≡ s.vm
  pub same_heap_ptr : after.heap_ptr ≡ s.heap_ptr
  pub list : IsFreeList after (q ∷ ys)
  pub header : after.word (q - 4) ≡ total
  pub footer : after.word (q + total - 8) ≡ total
  pub beside :
      (a : ℕ) → is_link a xs ≡ false → a ≢ q - 4 → a ≢ q + total - 8 → after.word a ≡ s.word a

pub Nodes-delete : (v : Vm) (b : ℕ) (xs : List ℕ) → Nodes v xs → Nodes v (delete b xs)
Nodes-delete v b [] n = tt
Nodes-delete v b (x ∷ xs) (nx, mx, n) = elim (Bool-cases (b == x)) [
  | inl e ↦ rw e n
  | inr e ↦ rw e (nx, ground (arith, mem-delete v x b xs n), Nodes-delete v b xs n)
]

pub Nodes-drop_if : (v : Vm) (a x : ℕ) (xs : List ℕ) → Nodes v xs → Nodes v (drop_if a x xs)
Nodes-drop_if v a x xs n = elim (Bool-cases (a == 0)) [
  | inl e ↦ rw e (Nodes-delete v x xs n)
  | inr e ↦ rw e n
]

-- which blocks are left on the list
pub mem-detached :
    (v : Vm) (y psize pa p size na : ℕ) (xs : List ℕ)
    → Nodes v xs
    → mem y (detached psize pa p size na xs) ≡ (
        mem y xs
        && (not (na == 0 && y == p + size) && (not (pa == 0 && y == p - psize) && not (y == p))))
mem-detached v y psize pa p size na xs n =
    let n1 = Nodes-drop_if v na (p + size) xs n in
    let n2 = Nodes-drop_if v pa (p - psize) (drop_if na (p + size) xs) n1 in
    ground (
      arith,
      mem-delete v y p (drop_if pa (p - psize) (drop_if na (p + size) xs)) n2,
      mem-drop_if v y pa (p - psize) (drop_if na (p + size) xs) n1,
      mem-drop_if v y na (p + size) xs n,
    )

module _ (s : Machine) (xs : List ℕ) (psize pa p size nsize na : ℕ)
    (sp : Spot s.vm psize pa p size nsize na) (tags : Tags s.word psize pa p size nsize na)
    (ends : Ends s.word psize pa p size) (l : Listed s xs psize pa p size nsize na) where
  -- neither the new header nor the new footer is a link
  ends_clear :
      (is_link (merged_ptr psize pa p - 4) xs ≡ false)
      × (is_link (merged_ptr psize pa p + merged_size psize pa size nsize na - 8) xs ≡ false)
  ends_clear =
      let n = l.list.nodes in
      let a = is_link-edge s.vm p xs n sp.aligned (ground arith) l.edge in
      let b = is_link-edge s.vm (p - psize) xs n (ground arith) (ground arith) l.edge_prev in
      let c = is_link-edge s.vm (p + size) xs n (ground arith) (ground arith) l.edge_next in
      elim (Bool-cases (na == 0)) [
        | inl z ↦
            let d =
              is_link-edge s.vm (p + size + nsize) xs n (ground arith) (ground arith)
                (l.edge_last (ground arith)) in
            ground (arith, a, b, d)
        | inr z ↦ ground (arith, a, b, c)
      ]

  is_link-detached :
      (a : ℕ) → is_link a xs ≡ false → is_link a (detached psize pa p size na xs) ≡ false
  is_link-detached a h =
      let ys = drop_if na (p + size) xs in
      is_link-delete a p (drop_if pa (p - psize) ys)
        (is_link-drop_if a pa (p - psize) ys (is_link-drop_if a na (p + size) xs h))

  merged-mem : mem (merged_ptr psize pa p) xs ≡ true
  merged-mem = elim (Bool-cases (pa == 0)) [
    | inl z ↦ rw z (l.prev_in (ground arith))
    | inr z ↦ rw z l.here
  ]

  -- a word that is no link of the old list is none of the new one
  not_link :
      (a : ℕ)
      → is_link a xs ≡ false
      → is_link a (merged_ptr psize pa p ∷ detached psize pa p size na xs) ≡ false
  not_link a h =
      let q = merged_ptr psize pa p in
      let (i, j) = mem-is_link q xs merged-mem in
      let n1 = link_ne q a xs i h in
      let n2 = link_ne (q + 4) a xs j h in
      is_link-cons a q (detached psize pa p size na xs) (λ e. n1 (sym e)) (λ e. n2 (sym e))
        (is_link-detached a h)

  not_left : mem (merged_ptr psize pa p) (detached psize pa p size na xs) ≡ false
  not_left =
      ground (arith, mem-detached s.vm (merged_ptr psize pa p) psize pa p size na xs l.list.nodes)

  pub coalesce-Coalesced :
      Coalesced s xs
        (merged_ptr psize pa p)
        (merged_size psize pa size nsize na)
        (detached psize pa p size na xs)
        (coalesce p s)
  coalesce-Coalesced =
      let n = l.list.nodes in
      let q = merged_ptr psize pa p in
      let total = merged_size psize pa size nsize na in
      let ys = detached psize pa p size na xs in
      let r1 = detach-Relinked psize pa p size nsize na s xs sp tags l in
      let t1 = r1.after in
      let sp1 : Spot t1.vm psize pa p size nsize na = rw (r1.same_vm) sp in
      let tg1 = Tags-carried psize pa p size nsize na s t1 xs sp l r1.beside tags in
      let en1 = Ends-carried psize pa p size nsize na s t1 xs sp l r1.beside ends in
      let m = merge-Marked t1 psize pa p size nsize na sp1 tg1 en1 in
      let (hc, fc) = ends_clear in
      let s2 : Machine = record t1 { word = m.words } in
      let sub = λ (a : ℕ) (h : is_link a xs ≡ false). is_link-detached a h in
      let l2 : IsFreeList s2 ys =
        IsFreeList-beside t1 m.words ys (q - 4) (q + total - 8) r1.list (sub (q - 4) hc)
          (sub (q + total - 8) fc) m.beside in
      let node : IsNode s2.vm q = rw (r1.same_vm) (Nodes-mem s.vm q xs n merged-mem) in
      let r3 = add_to_free_list-Relinked s2 q ys l2 node not_left in
      record {
        after = r3.after;
        returns =
            coalesce_calls s t1 s2 r3.after p (p - psize) (p - 8) pa (p + size) na size q
              (prev-run s psize pa p size nsize na sp tags)
              (prev_footer-run s psize pa p size nsize na sp tags ends)
              (prev_flag-run s psize pa p size nsize na sp tags)
              (next-run s psize pa p size nsize na sp tags)
              (next_flag-run s psize pa p size nsize na sp tags)
              (size-run s psize pa p size nsize na sp tags) r1.returns m.returns r3.returns;
        same_vm = r3.same_vm ∙ r1.same_vm;
        same_heap_ptr = r3.same_heap_ptr ∙ r1.same_heap_ptr;
        list = r3.list;
        header = r3.beside (q - 4) (not_link (q - 4) hc) ∙ m.header;
        footer = r3.beside (q + total - 8) (not_link (q + total - 8) fc) ∙ m.footer;
        beside = λ a h k j. r3.beside a (not_link a h) ∙ m.beside a k j ∙ r1.beside a h;
      }
