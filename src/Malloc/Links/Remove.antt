-- ===== src/Malloc/Links/Remove.antt =====
-- `remove_from_free_list` unlinks a block wherever it stands.
use itu_operating_systems_an.Base.{
  ℕ, ◌+◌, ◌%◌, ◌≡◌, refl, ◌≢◌, true, false, ◌||◌, List, [], ◌∷◌, ◌++◌, arith, ◌==◌, if◌then◌else◌,
  inl, inr, Bool-cases, ◌⊎◌,
}
use itu_operating_systems_an.Memlib.{Vm}
use itu_operating_systems_an.Malloc.Machine.{Machine, done}
use itu_operating_systems_an.Malloc.Links.{remove_from_free_list, unlink}
use itu_operating_systems_an.Malloc.Links.Add.{Relinked}
use itu_operating_systems_an.Malloc.Links.Chain.{
  mem, is_link, IsPtr, Nodes, Linked, IsFreeList, put_next, put_prev, set_next-run, set_prev-run,
  get_next-run, get_prev-run, Linked-frame, Nodes-mem, mem_ne,
}

-- the block before `xs ++ …`, where `prev` stands before all
abbrev pub last_or : ℕ → List ℕ → ℕ
last_or prev [] = prev
last_or prev (x ∷ xs) = last_or x xs

abbrev pub head_or : ℕ → List ℕ → ℕ
head_or d [] = d
head_or d (x ∷ xs) = x

-- the words after `q` and `n` are linked to one another
abbrev relinked : (ℕ → ℕ) → ℕ → ℕ → ℕ → ℕ
relinked w q n = put_prev (put_next w q n) n q

mem-append : (a : ℕ) (xs ys : List ℕ) → mem a (xs ++ ys) ≡ (mem a xs || mem a ys)
mem-append a [] ys = refl
mem-append a (x ∷ xs) ys = ground (arith, mem-append a xs ys)

is_link-append : (a : ℕ) (xs ys : List ℕ) → is_link a (xs ++ ys) ≡ (is_link a xs || is_link a ys)
is_link-append a [] ys = refl
is_link-append a (x ∷ xs) ys = ground (arith, is_link-append a xs ys)

-- the first block of what is left, where `b` stands behind `pre` and leads on to `next`
abbrev start_after : ℕ → ℕ → List ℕ → ℕ
start_after next p [] = next
start_after next p (x ∷ pre) = p

last_or-mem : (x : ℕ) (xs : List ℕ) → mem (last_or x xs) (x ∷ xs) ≡ true
last_or-mem x [] = ground arith
last_or-mem x (y ∷ xs) = ground (arith, last_or-mem y xs)

Nodes-drop : (v : Vm) (xs ys : List ℕ) → Nodes v (xs ++ ys) → Nodes v ys
Nodes-drop v [] ys n = n
Nodes-drop v (x ∷ xs) ys n = Nodes-drop v xs ys n.2

Nodes-remove :
    (v : Vm) (pre : List ℕ) (b : ℕ) (post : List ℕ)
    → Nodes v (pre ++ b ∷ post)
    → Nodes v (pre ++ post)
Nodes-remove v [] b post n = n.2
Nodes-remove v (x ∷ pre) b post (nx, mx, n) = (
  nx,
  ground (arith, mem-append x pre (b ∷ post), mem-append x pre post),
  Nodes-remove v pre b post n,
)

module _ (w : ℕ → ℕ) (b : ℕ) where
  -- the links that `remove_from_free_list` reads
  Linked-middle :
      (prev p : ℕ) (pre post : List ℕ)
      → Linked w prev p (pre ++ b ∷ post)
      → (w (b + 4) ≡ last_or prev pre) × (w b ≡ head_or 0 post)
  Linked-middle prev p [] [] (e, back, l) = (back, l)
  Linked-middle prev p [] (y ∷ post) (e, back, l) = (back, l.0)
  Linked-middle prev p (x ∷ pre) post l = Linked-middle x (w x) pre post l.2

  relinked-front :
      (v : Vm) (prev p : ℕ) (post : List ℕ)
      → Nodes v (b ∷ post)
      → mem prev (b ∷ post) ≡ false
      → prev % 8 ≡ 0
      → Linked w prev p (b ∷ post)
      → Linked (relinked w prev (w b)) prev (w b) post
  relinked-front v prev p [] n m h l = l.2
  relinked-front v prev p (y ∷ post) (nb, mb, (ny, my, n)) m h (e, back, (e', back', l)) =
      let same : relinked w prev (w b) y ≡ w y = ground arith in
      let keep =
        Linked-frame w (relinked w prev (w b)) y (w y) post l
          λ a i. ground (arith, mem_ne a prev post i, mem_ne a y post i, Nodes-mem v a post n i) in
      (e', ground arith, rw same keep)

  -- the next link of `b`, when the list is known
  next_of :
      (v : Vm) (x prev p : ℕ) (pre post : List ℕ)
      → Nodes v (pre ++ b ∷ post)
      → mem x (pre ++ b ∷ post) ≡ false
      → Linked w prev p (pre ++ b ∷ post)
      → (w b % 8 ≡ 0) × ((w b ≡ 0) ⊎ (x ≢ w b))
  next_of v x prev p pre [] n m l = ground (arith, Linked-middle prev p pre [] l)
  next_of v x prev p pre (y ∷ post) n m l = ground (
    arith,
    Linked-middle prev p pre (y ∷ post) l,
    Nodes-drop v pre (b ∷ y ∷ post) n,
    mem-append x pre (b ∷ y ∷ post),
  )

  relinked-Linked :
      (v : Vm) (prev p : ℕ) (pre post : List ℕ)
      → Nodes v (pre ++ b ∷ post)
      → mem prev (pre ++ b ∷ post) ≡ false
      → prev % 8 ≡ 0
      → Linked w prev p (pre ++ b ∷ post)
      → Linked (relinked w (last_or prev pre) (w b)) prev (start_after (w b) p pre) (pre ++ post)
  relinked-Linked v prev p [] post n m h l = relinked-front v prev p post n m h l
  relinked-Linked v prev p (x ∷ []) post (nx, mx, n) m h (e, back, l) =
      let next = next_of v x x (w x) [] post n mx l in
      let ih = relinked-Linked v x (w x) [] post n mx (nx.aligned) l in
      let here : relinked w x (w b) x ≡ w b = ground arith in (e, ground arith, rw here ih)
  relinked-Linked v prev p (x ∷ y ∷ pre) post (nx, mx, n) m h (e, back, l) =
      let next = next_of v x x (w x) (y ∷ pre) post n mx l in
      let ih = relinked-Linked v x (w x) (y ∷ pre) post n mx (nx.aligned) l in
      let q = last_or y pre in
      let inside : mem q (y ∷ pre ++ b ∷ post) ≡ true =
        ground (arith, last_or-mem y pre, mem-append q (y ∷ pre) (b ∷ post)) in
      let nq = Nodes-mem v q (y ∷ pre ++ b ∷ post) n inside in
      let far = mem_ne q x (y ∷ pre ++ b ∷ post) inside mx in
      let here : relinked w q (w b) x ≡ w x = ground arith in (e, ground arith, rw here ih)

mem_null : (v : Vm) (xs : List ℕ) → Nodes v xs → mem 0 xs ≡ false
mem_null v [] n = refl
mem_null v (x ∷ xs) n = ground (arith, mem_null v xs n.2)

last_or-IsPtr : (v : Vm) (xs ys : List ℕ) → Nodes v (xs ++ ys) → IsPtr v (last_or 0 xs)
last_or-IsPtr v [] ys n = inl refl
last_or-IsPtr v (x ∷ xs) ys n = inr (
    Nodes-mem v (last_or x xs) (x ∷ xs ++ ys) n
      (ground (arith, last_or-mem x xs, mem-append (last_or x xs) (x ∷ xs) ys)))

head_or-IsPtr : (v : Vm) (xs : List ℕ) → Nodes v xs → IsPtr v (head_or 0 xs)
head_or-IsPtr v [] n = inl refl
head_or-IsPtr v (x ∷ xs) n = inr n.0

is_link-mem :
    (a q : ℕ) (xs : List ℕ) → mem q xs ≡ true → is_link a xs ≡ false → (a ≢ q) × (a ≢ q + 4)
is_link-mem a q [] h out = cc
is_link-mem a q (x ∷ xs) h out = elim (Bool-cases (q == x)) [
  | inl same ↦ ground arith
  | inr other ↦ is_link-mem a q xs (rw other at h) (ground arith)
]

last_or-far :
    (a : ℕ) (xs ys : List ℕ)
    → is_link a (xs ++ ys) ≡ false
    → (last_or 0 xs ≡ 0) ⊎ (a ≢ last_or 0 xs)
last_or-far a [] ys out = inl refl
last_or-far a (x ∷ xs) ys out =
    inr
      (is_link-mem a (last_or x xs) (x ∷ xs) (last_or-mem x xs)
        (ground (arith, is_link-append a (x ∷ xs) ys))).0

head_or-far :
    (a : ℕ) (xs : List ℕ) → is_link a xs ≡ false → (head_or 0 xs ≡ 0) ⊎ (a ≢ head_or 0 xs + 4)
head_or-far a [] out = inl refl
head_or-far a (x ∷ xs) out = ground arith

unlink-run :
    (s : Machine) (q n : ℕ)
    → IsPtr s.vm q
    → IsPtr s.vm n
    → unlink q n s
      ≡ done tt
          (record s { word = relinked s.word q n; free_list = if q == 0 then n else s.free_list })
unfolding unlink
unlink-run s q n (inl e) hn =
    let free : (q == 0) ≡ true = ground arith in rw free (rw (set_prev-run s n 0 hn) (ground arith))
unlink-run s q n (inr nq) hn =
    let used : (q == 0) ≡ false = ground arith in
    rw used (
      rw (set_next-run s q n (inr nq))
        (rw (set_prev-run (record s { word = put_next s.word q n }) n q hn) (ground arith)))

start_after-test :
    (v : Vm) (next p : ℕ) (xs ys : List ℕ)
    → Nodes v (xs ++ ys)
    → (if last_or 0 xs == 0 then next else p) ≡ start_after next p xs
start_after-test v next p [] ys n = refl
start_after-test v next p (x ∷ xs) ys n =
    let inside : mem (last_or x xs) (x ∷ xs ++ ys) ≡ true =
      ground (arith, last_or-mem x xs, mem-append (last_or x xs) (x ∷ xs) ys) in
    let node = Nodes-mem v (last_or x xs) (x ∷ xs ++ ys) n inside in ground arith

module _ (s : Machine) (b : ℕ) (pre post : List ℕ) (l : IsFreeList s (pre ++ b ∷ post)) where
  abbrev after_remove : Machine
  after_remove = record s {
    word = relinked s.word (last_or 0 pre) (s.word b);
    free_list = start_after (s.word b) s.free_list pre;
  }

  remove_from_free_list-run : remove_from_free_list b s ≡ done tt after_remove
  unfolding remove_from_free_list unlink
  remove_from_free_list-run =
      let node = (Nodes-drop s.vm pre (b ∷ post) l.nodes).0 in
      let (prev, next) = Linked-middle s.word b 0 s.free_list pre post l.links in
      let hq = last_or-IsPtr s.vm pre (b ∷ post) l.nodes in
      let hn = head_or-IsPtr s.vm post (Nodes-drop s.vm pre (b ∷ post) l.nodes).2 in
      rw (get_prev-run s b node) (
        rw (get_next-run s b node) (
          rw (prev) (
            rw (unlink-run s (last_or 0 pre) (s.word b) hq (rw next hn))
              (rw (start_after-test s.vm (s.word b) s.free_list pre (b ∷ post) l.nodes)))))

  -- On a free list with the block `b` between the blocks `pre` and the blocks `post`, taking `b`
  -- off returns, with no access outside the storage; the list is `pre` and then `post`, linked
  -- in both directions, and no word but a link of a block of the old list has changed.
  pub remove_from_free_list-Relinked :
      Relinked s (pre ++ b ∷ post) (pre ++ post) (remove_from_free_list b s)
  remove_from_free_list-Relinked = record {
    after = after_remove;
    returns = remove_from_free_list-run;
    same_vm = refl;
    same_heap_ptr = refl;
    list = record {
      nodes = Nodes-remove s.vm pre b post l.nodes;
      links =
          relinked-Linked s.word b s.vm 0 s.free_list pre post l.nodes (mem_null s.vm _ l.nodes)
            refl l.links;
    };
    beside = λ a out. ground (
      arith,
      Linked-middle s.word b 0 s.free_list pre post l.links,
      last_or-far a pre (b ∷ post) out,
      head_or-far a post,
      is_link-append a pre (b ∷ post),
    );
  }
