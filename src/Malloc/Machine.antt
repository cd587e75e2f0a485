-- ===== src/Malloc/Machine.antt =====
-- The state that mm.c works on, and commands over it: the storage of memlib.c by 32-bit words, the
-- break, and the two globals of mm.c.
use itu_operating_systems_an.Base.{
  ℕ, zero, suc, ◌+◌, ◌-◌, ◌*◌, ◌/◌, ◌%◌, ◌^◌, Bool, ◌&&◌, leb, ◌==◌, if◌then◌else◌, add32,
}
use itu_operating_systems_an.Memlib.{Vm, mem_sbrk}

-- `word p` is the word at address `p`, for `p` a multiple of 4; other arguments mean nothing.
pub record Machine : Type 0 where
  pub vm : Vm
  pub word : ℕ → ℕ
  pub heap_ptr : ℕ
  pub free_list : ℕ

-- `undefined` is an access outside the storage, or off a word's boundary.
pub data Run (A : Type 0) : Type 0 where
  done : A → Machine → Run A
  undefined : Run A
  out_of_fuel : Run A

abbrev pub M : Type 0 → Type 0
M A = Machine → Run A

abbrev pub pure : {A : Type 0} → A → M A
pure a = λ s. done a s

abbrev pub continue : {A B : Type 0} → Run A → (A → M B) → Run B
continue (done a s) k = k a s
continue undefined k = undefined
continue out_of_fuel k = out_of_fuel

infixl 5 ◌>>=◌ ◌>>◌
abbrev pub ◌>>=◌ : {A B : Type 0} → M A → (A → M B) → M B
m >>= k = λ s. continue (m s) k

abbrev pub ◌>>◌ : {A B : Type 0} → M A → M B → M B
m >> n = m >>= λ _. n

abbrev pub when : Bool → M (Unit {0}) → M (Unit {0})
when b m = if b then m else pure tt

abbrev pub null : ℕ
null = 0

-- The storage runs up to `mem_max_addr`, also above the break.
abbrev pub accessible : Vm → ℕ → Bool
accessible v p = leb v.mem_start_brk p && leb (p + 4) v.mem_max_addr && p % 4 == 0

abbrev pub write : (ℕ → ℕ) → ℕ → ℕ → ℕ → ℕ
write f p v q = if q == p then v else f q

-- `*(unsigned int *)p` and `*(unsigned int *)p = v`
unfoldable pub get_val : ℕ → M ℕ
get_val p s = if accessible s.vm p then done (s.word p) s else undefined

unfoldable pub set_val : ℕ → ℕ → M (Unit {0})
set_val p v s =
    if accessible s.vm p then done tt (record s { word = write s.word p v }) else undefined

unfoldable pub sbrk : ℕ → M ℕ
sbrk incr s = let (p, v) = mem_sbrk incr s.vm in done p (record s { vm = v })

abbrev pub get_free_list : M ℕ
get_free_list s = done s.free_list s

abbrev pub set_free_list : ℕ → M (Unit {0})
set_free_list p s = done tt (record s { free_list = p })

abbrev pub get_heap_ptr : M ℕ
get_heap_ptr s = done s.heap_ptr s

abbrev pub set_heap_ptr : ℕ → M (Unit {0})
set_heap_ptr p s = done tt (record s { heap_ptr = p })

-- One byte, in the little-endian word that holds it.
unfoldable pub load_byte : ℕ → M ℕ
unfolding get_val
load_byte p = do w ← get_val (p - p % 4); pure (w / 256 ^ (p % 4) % 256)

unfoldable pub store_byte : ℕ → ℕ → M (Unit {0})
unfolding get_val set_val
store_byte p b = do
  w ← get_val (p - p % 4)
  let unit = 256 ^ (p % 4)
  set_val (p - p % 4) (w - w / unit % 256 * unit + b * unit)

-- `memcpy(dst, src, n)`, a byte at a time from the front
unfoldable pub memcpy : ℕ → ℕ → ℕ → M (Unit {0})
unfolding load_byte store_byte
memcpy dst src zero = pure tt
memcpy dst src (suc n) = do
  b ← load_byte src
  store_byte dst b
  memcpy (add32 dst 1) (add32 src 1) n
