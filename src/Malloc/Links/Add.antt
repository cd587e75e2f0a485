-- ===== src/Malloc/Links/Add.antt =====
-- `add_to_free_list` puts a block in front.
use itu_operating_systems_an.Base.{ℕ, ◌≡◌, refl, false, List, [], ◌∷◌, arith, inl, inr}
use itu_operating_systems_an.Malloc.Machine.{Machine, Run, done}
use itu_operating_systems_an.Malloc.Links.{add_to_free_list}
use itu_operating_systems_an.Malloc.Links.Chain.{
  mem, IsNode, IsPtr, Linked, IsFreeList, SameBeside, put_next, put_prev, set_next-run,
  set_prev-run, Linked-frame, mem_ne, Nodes-mem,
}

-- A run of a free-list operation that returns with the list `ys`, and that changes no word but
-- links of `touched`, and no register but the head of the list.
pub record Relinked (s : Machine) (touched ys : List ℕ) (r : Run (Unit {0})) : Type 0 where
  pub after : Machine
  pub returns : r ≡ done tt after
  pub same_vm : after.vm ≡ s.vm
  pub same_heap_ptr : after.heap_ptr ≡ s.heap_ptr
  pub list : IsFreeList after ys
  pub beside : SameBeside touched s.word after.word

-- the words after the three writes
abbrev added : (ℕ → ℕ) → ℕ → ℕ → ℕ → ℕ
added w first b = put_prev (put_prev (put_next w b first) first b) b 0

module _ (s : Machine) (b : ℕ) where
  add_to_free_list-run :
      IsNode s.vm b
      → IsPtr s.vm s.free_list
      → add_to_free_list b s
        ≡ done tt (record s { word = added s.word s.free_list b; free_list = b })
  unfolding add_to_free_list
  add_to_free_list-run n f =
      let w1 = put_next s.word b s.free_list in
      let w2 = put_prev w1 s.free_list b in
      rw (set_next-run s b s.free_list (inr n)) (
        rw (set_prev-run (record s { word = w1 }) s.free_list b f)
          (rw (set_prev-run (record s { word = w2 }) b 0 (inr n))))

  head-IsPtr : (xs : List ℕ) → IsFreeList s xs → IsPtr s.vm s.free_list
  head-IsPtr [] l = inl l.links
  head-IsPtr (x ∷ xs) l = inr (rw l.links.0 l.nodes.0)

  added-Linked :
      (xs : List ℕ)
      → IsNode s.vm b
      → mem b xs ≡ false
      → IsFreeList s xs
      → Linked (added s.word s.free_list b) 0 b (b ∷ xs)
  added-Linked [] n m l = ground arith
  added-Linked (x ∷ xs) n m l =
      let (e, back, rest) = l.links in
      let (nx, mx, nodes) = l.nodes in
      let same : (added s.word s.free_list b x ≡ s.word x) = ground arith in
      let keep =
        Linked-frame s.word (added s.word s.free_list b) x (s.word x) xs rest
          λ a h. ground (arith, mem_ne a b xs h, mem_ne a x xs h, Nodes-mem s.vm a xs nodes h) in
      (refl, ground arith, (ground arith, ground arith, rw same keep))

  added_beside :
      (xs : List ℕ)
      → IsNode s.vm b
      → IsFreeList s xs
      → SameBeside (b ∷ xs) s.word (added s.word s.free_list b)
  added_beside [] n l a out = ground arith
  added_beside (x ∷ xs) n l a out = ground arith

  -- On a free list of the blocks `xs`, adding a block `b` that lies in the heap and is not on the
  -- list returns, with no access outside the storage; the list is `b` and then `xs`, linked in
  -- both directions, and no word but a link of these blocks has changed.
  pub add_to_free_list-Relinked :
      (xs : List ℕ)
      → IsFreeList s xs
      → IsNode s.vm b
      → mem b xs ≡ false
      → Relinked s (b ∷ xs) (b ∷ xs) (add_to_free_list b s)
  add_to_free_list-Relinked xs l n m = record {
    after = record s { word = added s.word s.free_list b; free_list = b };
    returns = add_to_free_list-run n (head-IsPtr xs l);
    same_vm = refl;
    same_heap_ptr = refl;
    list = record { nodes = (n, m, l.nodes); links = added-Linked xs n m l };
    beside = added_beside xs n l;
  }
