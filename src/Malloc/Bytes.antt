-- ===== src/Malloc/Bytes.antt =====
-- The bytes of the words of the storage, and loops over them.
use itu_operating_systems_an.Base.{
  ℕ, zero, suc, ◌+◌, ◌-◌, ◌*◌, ◌/◌, ◌^◌, ◌%◌, ◌≤◌, ◌<◌, ◌≡◌, ◌≢◌, refl, ◌∙◌, true, false, ◌&&◌, ◌⊎◌,
  arith, ◌==◌, Bool-cases, inl, inr, if◌then◌else◌, leb, ltb, add32,
}
use itu_operating_systems_an.Malloc.Machine.{Machine, done, write, load_byte, store_byte, memcpy}

-- byte `k` of a word, the lowest first, and a word with another byte there
abbrev pub byte_of : ℕ → ℕ → ℕ
byte_of w k = w / 256 ^ k % 256

abbrev pub with_byte : ℕ → ℕ → ℕ → ℕ
with_byte w k b = w - w / 256 ^ k % 256 * 256 ^ k + b * 256 ^ k

with_byte_same : (w k b : ℕ) → k < 4 → b < 256 → byte_of (with_byte w k b) k ≡ b
with_byte_same w zero b h l = omega arith
with_byte_same w (suc zero) b h l = omega arith
with_byte_same w (suc (suc zero)) b h l = omega arith
with_byte_same w (suc (suc (suc zero))) b h l = omega arith
with_byte_same w (suc (suc (suc (suc k)))) b h l = absurd (omega arith)

with_byte_other :
    (w k j b : ℕ) → k < 4 → j < 4 → b < 256 → j ≢ k → byte_of (with_byte w k b) j ≡ byte_of w j
with_byte_other w zero zero b h i l n = absurd (n refl)
with_byte_other w zero (suc zero) b h i l n = omega arith
with_byte_other w zero (suc (suc zero)) b h i l n = omega arith
with_byte_other w zero (suc (suc (suc zero))) b h i l n = omega arith
with_byte_other w (suc zero) zero b h i l n = omega arith
with_byte_other w (suc zero) (suc zero) b h i l n = absurd (n refl)
with_byte_other w (suc zero) (suc (suc zero)) b h i l n = omega arith
with_byte_other w (suc zero) (suc (suc (suc zero))) b h i l n = omega arith
with_byte_other w (suc (suc zero)) zero b h i l n = omega arith
with_byte_other w (suc (suc zero)) (suc zero) b h i l n = omega arith
with_byte_other w (suc (suc zero)) (suc (suc zero)) b h i l n = absurd (n refl)
with_byte_other w (suc (suc zero)) (suc (suc (suc zero))) b h i l n = omega arith
with_byte_other w (suc (suc (suc zero))) zero b h i l n = omega arith
with_byte_other w (suc (suc (suc zero))) (suc zero) b h i l n = omega arith
with_byte_other w (suc (suc (suc zero))) (suc (suc zero)) b h i l n = omega arith
with_byte_other w (suc (suc (suc zero))) (suc (suc (suc zero))) b h i l n = absurd (n refl)
with_byte_other w (suc (suc (suc (suc k)))) j b h i l n = absurd (omega arith)
with_byte_other w k (suc (suc (suc (suc j)))) b h i l n = absurd (omega arith)

abbrev pub byte_at : (ℕ → ℕ) → ℕ → ℕ
byte_at w p = byte_of (w (p - p % 4)) (p % 4)

abbrev pub put_byte : (ℕ → ℕ) → ℕ → ℕ → ℕ → ℕ
put_byte w p b = write w (p - p % 4) (with_byte (w (p - p % 4)) (p % 4) b)

pub byte_at_lt : (w : ℕ → ℕ) (p : ℕ) → byte_at w p < 256
byte_at_lt w p = omega arith

pub byte_at-put_byte :
    (w : ℕ → ℕ) (p b q : ℕ)
    → b < 256
    → byte_at (put_byte w p b) q ≡ (if q == p then b else byte_at w q)
byte_at-put_byte w p b q h = elim (Bool-cases (q == p)) [
  | inl same ↦
      let e : q ≡ p = ground arith in
      rw (same, e) (ground (arith, with_byte_same (w (p - p % 4)) (p % 4) b))
  | inr other ↦ elim (Bool-cases (q - q % 4 == p - p % 4)) [
    | inl word ↦
        let e : q - q % 4 ≡ p - p % 4 = ground arith in
        let n : q % 4 ≢ p % 4 = ground arith in
        rw (other, e)
          (ground (
            arith,
            with_byte_other (w (p - p % 4)) (p % 4) (q % 4) b (omega arith) (omega arith) h n,
          ))
    | inr apart ↦ rw (other, apart) refl
  ]
]

-- the words that a byte does not stand in
pub put_byte_beside : (w : ℕ → ℕ) (p b a : ℕ) → (a < p - p % 4) ⊎ (p < a) → put_byte w p b a ≡ w a
put_byte_beside w p b a h = ground arith

-- `n` bytes from `p` on, in whole words of the storage
pub record Span (s : Machine) (p n : ℕ) : Type 0 where
  pub limit : ℕ
  pub start_mod : s.vm.mem_start_brk % 4 ≡ 0
  pub limit_mod : limit % 4 ≡ 0
  pub low : s.vm.mem_start_brk ≤ p
  pub high : p + n ≤ limit
  pub top : limit ≤ s.vm.mem_max_addr
  pub small : s.vm.mem_max_addr < 2 ^ 32

abbrev pub with_word : Machine → (ℕ → ℕ) → Machine
with_word s w = record s { word = w }

module _ (s : Machine) (p n : ℕ) (h : Span s p (suc n)) where
  pub load_byte-run : load_byte p s ≡ done (byte_at s.word p) s
  unfolding load_byte
  load_byte-run = ground (arith, h.start_mod, h.limit_mod, h.low, h.high, h.top, h.small)

  pub store_byte-run : (b : ℕ) → store_byte p b s ≡ done tt (with_word s (put_byte s.word p b))
  unfolding store_byte
  store_byte-run b = ground (arith, h.start_mod, h.limit_mod, h.low, h.high, h.top, h.small)

  pub Span-next : (w : ℕ → ℕ) → Span (with_word s w) (p + 1) n
  Span-next w = record {
    limit = h.limit;
    start_mod = h.start_mod;
    limit_mod = h.limit_mod;
    low = omega (arith, h.low);
    high = omega (arith, h.high);
    top = h.top;
    small = h.small;
  }

  pub next_address : add32 p 1 ≡ p + 1
  next_address = omega (arith, h.high, h.top, h.small)

pub Span-word : (s : Machine) (p n : ℕ) (w : ℕ → ℕ) → Span s p n → Span (with_word s w) p n
Span-word s p n w h = record {
  limit = h.limit;
  start_mod = h.start_mod;
  limit_mod = h.limit_mod;
  low = h.low;
  high = h.high;
  top = h.top;
  small = h.small;
}

-- the words after `memcpy`
abbrev pub copied : (ℕ → ℕ) → ℕ → ℕ → ℕ → ℕ → ℕ
copied w dst src zero = w
copied w dst src (suc n) = copied (put_byte w dst (byte_at w src)) (dst + 1) (src + 1) n

pub memcpy-run :
    (s : Machine) (dst src n : ℕ)
    → Span s dst n
    → Span s src n
    → memcpy dst src n s ≡ done tt (with_word s (copied s.word dst src n))
unfolding memcpy
memcpy-run s dst src zero h k = refl
memcpy-run s dst src (suc n) h k =
    let w = put_byte s.word dst (byte_at s.word src) in
    let k1 = Span-word s src (suc n) w k in
    rw (load_byte-run s src n k) (
      rw (store_byte-run s dst n h (byte_at s.word src)) (
        rw (next_address s dst n h, next_address s src n k)
          (memcpy-run (with_word s w) (dst + 1) (src + 1) n (Span-next s dst n h w)
            (Span-next s src n k w))))

pub copied_beside :
    (w : ℕ → ℕ) (dst src n a : ℕ) → (a < dst - dst % 4) ⊎ (dst + n ≤ a) → copied w dst src n a ≡ w a
copied_beside w dst src zero a h = refl
copied_beside w dst src (suc n) a h =
    copied_beside (put_byte w dst (byte_at w src)) (dst + 1) (src + 1) n a (ground arith)
    ∙ put_byte_beside w dst (byte_at w src) a (ground arith)

-- one byte more: `g` is `f` but for the byte at `dst`
copied_step :
    (f g : ℕ → ℕ) (dst src n q : ℕ)
    → (src + suc n ≤ dst) ⊎ (dst + suc n ≤ src)
    → ((x : ℕ) → g x ≡ (if x == dst then f src else f x))
    → (if leb (dst + 1) q && ltb q (dst + 1 + n) then g (src + 1 + (q - (dst + 1))) else g q)
      ≡ (if leb dst q && ltb q (dst + suc n) then f (src + (q - dst)) else f q)
copied_step f g dst src n q h at = elim (Bool-cases (leb (dst + 1) q && ltb q (dst + 1 + n))) [
  | inl in_rest ↦
      let e : src + 1 + (q - (dst + 1)) ≡ src + (q - dst) = ground arith in
      let new : (leb dst q && ltb q (dst + suc n)) ≡ true = ground arith in
      let beside : (src + (q - dst) == dst) ≡ false = ground arith in
      rw (in_rest, new, e, at (src + (q - dst)), beside) refl
  | inr past ↦ elim (Bool-cases (q == dst)) [
    | inl here ↦
        let e : q ≡ dst = ground arith in
        let new : (leb dst q && ltb q (dst + suc n)) ≡ true = ground arith in
        let first : src + (q - dst) ≡ src = ground arith in rw (past, new, first, at q, here) refl
    | inr there ↦
        let new : (leb dst q && ltb q (dst + suc n)) ≡ false = ground arith in
        rw (past, new, at q, there) refl
  ]
]

-- `memcpy` between stretches that do not overlap copies the bytes, and changes no other.
pub copied_bytes :
    (w : ℕ → ℕ) (dst src n q : ℕ)
    → (src + n ≤ dst) ⊎ (dst + n ≤ src)
    → byte_at (copied w dst src n) q
      ≡ (if leb dst q && ltb q (dst + n) then byte_at w (src + (q - dst)) else byte_at w q)
copied_bytes w dst src zero q h = ground arith
copied_bytes w dst src (suc n) q h =
    let b = byte_at w src in
    copied_bytes (put_byte w dst b) (dst + 1) (src + 1) n q (ground arith)
    ∙ copied_step (byte_at w) (byte_at (put_byte w dst b)) dst src n q h
        (λ x. byte_at-put_byte w dst b x (byte_at_lt w src))
