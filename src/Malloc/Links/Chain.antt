-- ===== src/Malloc/Links/Chain.antt =====
-- What the words of the storage mean as a doubly linked list.
use itu_operating_systems_an.Base.{
  ℕ, ◌+◌, ◌%◌, ◌^◌, ◌≤◌, ◌<◌, ◌≡◌, refl, ◌≢◌, Bool, true, false, ◌||◌, List, [], ◌∷◌, arith, ◌==◌,
  if◌then◌else◌, ◌⊎◌, inl, inr, Bool-cases, eqb_iff, ap,
}
use itu_operating_systems_an.Memlib.{Vm}
use itu_operating_systems_an.Malloc.Machine.{Machine, write, done}
use itu_operating_systems_an.Malloc.Block.{get_next_free_block_ptr, get_prev_free_block_ptr}
use itu_operating_systems_an.Malloc.Links.{set_next_free_block_ptr, set_prev_free_block_ptr}

abbrev pub mem : ℕ → List ℕ → Bool
mem a [] = false
mem a (x ∷ xs) = a == x || mem a xs

-- `a` is one of the two link words of a block of `xs`
abbrev pub is_link : ℕ → List ℕ → Bool
is_link a [] = false
is_link a (x ∷ xs) = (a == x || a == x + 4) || is_link a xs

-- a block pointer at which the header and both links lie in the storage
pub record IsNode (v : Vm) (x : ℕ) : Type 0 where
  pub aligned : x % 8 ≡ 0
  pub above : v.mem_start_brk + 8 ≤ x
  pub below : x + 8 ≤ v.mem_max_addr
  pub limit : v.mem_max_addr < 2 ^ 32

-- The blocks `xs` are nodes, and no block stands twice.
abbrev pub Nodes : Vm → List ℕ → Type 0
Nodes v [] = Unit {0}
Nodes v (x ∷ xs) = IsNode v x × (mem x xs ≡ false) × Nodes v xs

-- From `p` the next links lead through `xs` to NULL, and each previous link leads back.
abbrev pub Linked : (ℕ → ℕ) → ℕ → ℕ → List ℕ → Type 0
Linked w prev p [] = p ≡ 0
Linked w prev p (x ∷ xs) = (p ≡ x) × (w (x + 4) ≡ prev) × Linked w x (w x) xs

-- The free list of the state is `xs`.
pub record IsFreeList (s : Machine) (xs : List ℕ) : Type 0 where
  pub nodes : Nodes s.vm xs
  pub links : Linked s.word 0 s.free_list xs

-- Two memories that differ at most at the link words of `xs`.
abbrev pub SameBeside : List ℕ → (ℕ → ℕ) → (ℕ → ℕ) → Type 0
SameBeside xs w u = (a : ℕ) → is_link a xs ≡ false → u a ≡ w a

-- a pointer that the list operations are given: NULL or a node
abbrev pub IsPtr : Vm → ℕ → Type 0
IsPtr v x = (x ≡ 0) ⊎ IsNode v x

-- the words after a link of `x` is set; NULL has no links
abbrev pub put_next : (ℕ → ℕ) → ℕ → ℕ → ℕ → ℕ
put_next w x q = if x == 0 then w else write w x q

abbrev pub put_prev : (ℕ → ℕ) → ℕ → ℕ → ℕ → ℕ
put_prev w x q = if x == 0 then w else write w (x + 4) q

module _ (s : Machine) (x : ℕ) where
  pub get_next-run : IsNode s.vm x → get_next_free_block_ptr x s ≡ done (s.word x) s
  unfolding get_next_free_block_ptr
  get_next-run n = ground arith

  pub get_prev-run : IsNode s.vm x → get_prev_free_block_ptr x s ≡ done (s.word (x + 4)) s
  unfolding get_prev_free_block_ptr
  get_prev-run n = ground arith

  pub set_next-run :
      (q : ℕ)
      → IsPtr s.vm x
      → set_next_free_block_ptr x q s ≡ done tt (record s { word = put_next s.word x q })
  unfolding set_next_free_block_ptr
  set_next-run q (inl e) = ground arith
  set_next-run q (inr n) = ground arith

  pub set_prev-run :
      (q : ℕ)
      → IsPtr s.vm x
      → set_prev_free_block_ptr x q s ≡ done tt (record s { word = put_prev s.word x q })
  unfolding set_prev_free_block_ptr
  set_prev-run q (inl e) = ground arith
  set_prev-run q (inr n) = ground arith

-- A segment survives a change that spares its link words.
pub Linked-frame :
    (w u : ℕ → ℕ) (prev p : ℕ) (xs : List ℕ)
    → Linked w prev p xs
    → ((a : ℕ) → mem a xs ≡ true → (u a ≡ w a) × (u (a + 4) ≡ w (a + 4)))
    → Linked u prev p xs
Linked-frame w u prev p [] l same = l
Linked-frame w u prev p (x ∷ xs) (e, b, l) same =
    let here = same x (ground arith) in
    (e, ground arith, rw here.0 (Linked-frame w u x (w x) xs l λ a m. same a (ground arith)))

pub Nodes-mem : (v : Vm) (a : ℕ) (xs : List ℕ) → Nodes v xs → mem a xs ≡ true → IsNode v a
Nodes-mem v a [] n h = cc
Nodes-mem v a (x ∷ xs) (nx, mx, n) h = elim (Bool-cases (a == x)) [
  | inl same ↦ rw ((eqb_iff a x).0 same) nx
  | inr other ↦ Nodes-mem v a xs n (rw other at h)
]

pub mem_ne : (a b : ℕ) (xs : List ℕ) → mem a xs ≡ true → mem b xs ≡ false → a ≢ b
mem_ne a b xs h k e = cc (ap (λ c. mem c xs) e)

-- Blocks are 8 bytes apart, so a link word of one is none of another.
pub is_link-node :
    (v : Vm) (x : ℕ) (xs : List ℕ)
    → x % 8 ≡ 0
    → mem x xs ≡ false
    → Nodes v xs
    → (is_link x xs ≡ false) × (is_link (x + 4) xs ≡ false)
is_link-node v x [] h m n = (refl, refl)
is_link-node v x (y ∷ xs) h m (ny, my, n) = ground (arith, is_link-node v x xs h (ground arith) n)
