-- ===== src/Driver/Bytes.antt =====
-- The loops of mdriver.c over the bytes of a payload.
use itu_operating_systems_an.Base.{
  ℕ, zero, suc, ◌+◌, ◌-◌, ◌%◌, ◌≤◌, ◌<◌, ◌≡◌, refl, ap, ◌∙◌, true, ◌&&◌, ◌⊎◌, arith, ◌==◌,
  if◌then◌else◌, leb, ltb,
}
use itu_operating_systems_an.Malloc.Machine.{Machine, done}
use itu_operating_systems_an.Malloc.Bytes.{
  byte_at, put_byte, byte_at-put_byte, put_byte_beside, Span, with_word, load_byte-run,
  store_byte-run, Span-next, next_address,
}
use itu_operating_systems_an.Driver.Trace.{memset}
use itu_operating_systems_an.Driver.Valid.{char_is, preserved}

-- the words after `memset`
abbrev pub filled : (ℕ → ℕ) → ℕ → ℕ → ℕ → ℕ → ℕ
filled w p byte zero = w
filled w p byte (suc n) = filled (put_byte w p byte) (p + 1) byte n

pub memset-run :
    (s : Machine) (p byte n : ℕ)
    → Span s p n
    → memset p byte n s ≡ done tt (with_word s (filled s.word p byte n))
unfolding memset
memset-run s p byte zero h = refl
memset-run s p byte (suc n) h =
    let w = put_byte s.word p byte in
    rw (store_byte-run s p n h byte)
      (rw (next_address s p n h) (memset-run (with_word s w) (p + 1) byte n (Span-next s p n h w)))

pub filled_beside :
    (w : ℕ → ℕ) (p byte n a : ℕ) → (a < p - p % 4) ⊎ (p + n ≤ a) → filled w p byte n a ≡ w a
filled_beside w p byte zero a h = refl
filled_beside w p byte (suc n) a h =
    filled_beside (put_byte w p byte) (p + 1) byte n a (ground arith)
    ∙ put_byte_beside w p byte a (ground arith)

-- one byte more: `g` is `f` but for the byte at `p`
filled_step :
    (f g : ℕ → ℕ) (p byte n q : ℕ)
    → ((x : ℕ) → g x ≡ (if x == p then byte else f x))
    → (if leb (p + 1) q && ltb q (p + 1 + n) then byte else g q)
      ≡ (if leb p q && ltb q (p + suc n) then byte else f q)
filled_step f g p byte n q at = ground (arith, at q)

-- `memset` sets the bytes of its stretch, and changes no other.
pub filled_bytes :
    (w : ℕ → ℕ) (p byte n q : ℕ)
    → byte < 256
    → byte_at (filled w p byte n) q ≡ (if leb p q && ltb q (p + n) then byte else byte_at w q)
filled_bytes w p byte zero q h = ground arith
filled_bytes w p byte (suc n) q h =
    filled_bytes (put_byte w p byte) (p + 1) byte n q h
    ∙ filled_step (byte_at w) (byte_at (put_byte w p byte)) p byte n q
        (λ x. byte_at-put_byte w p byte x h)

-- The loop over the bytes of a payload finds them all as they were, when they are below 128.
pub preserved-run :
    (s : Machine) (p value n : ℕ)
    → Span s p n
    → value < 128
    → ((k : ℕ) → k < n → byte_at s.word (p + k) ≡ value)
    → preserved p value n s ≡ done true s
unfolding preserved
preserved-run s p value zero h small same = refl
preserved-run s p value (suc n) h small same =
    let start : p ≡ p + 0 = omega arith in
    let first : byte_at s.word p ≡ value = ap (byte_at s.word) start ∙ same 0 (omega arith) in
    let test : char_is (byte_at s.word p) value ≡ true = ground arith in
    rw (load_byte-run s p n h) (
      rw test (
        rw (next_address s p n h) (
          preserved-run s (p + 1) value n (Span-next s p n h s.word) small (λ k l.
            let next : p + 1 + k ≡ p + (k + 1) = omega arith in
            ap (byte_at s.word) next ∙ same (k + 1) (omega arith)))))
