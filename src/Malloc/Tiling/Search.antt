-- ===== src/Malloc/Tiling/Search.antt =====
-- The calls of `mm_malloc`, and what the search for a block gives it.
use itu_operating_systems_an.Base.{
  ℕ, ◌*◌, ◌/◌, ◌^◌, ◌%◌, ◌≤◌, ◌<◌, ◌≡◌, refl, ◌⊎◌, true, false, List, arith, ◌==◌, inl, inr,
  if◌then◌else◌, ltb,
}
use itu_operating_systems_an.Malloc.Machine.{Machine, done, null}
use itu_operating_systems_an.Malloc.Block.{chunksize, calc_block_size}
use itu_operating_systems_an.Malloc.Links.{find_fit, remove_from_free_list}
use itu_operating_systems_an.Malloc.Links.Chain.{mem}
use itu_operating_systems_an.Malloc.Links.Fit.{size_at, FirstFit, nowhere, here, further}
use itu_operating_systems_an.Malloc.Heap.{place, extend_heap, fit_or_extend, mm_malloc}

pub fit_calls :
    (s : Machine) (size p : ℕ)
    → find_fit size s ≡ done p s
    → (p == null) ≡ false
    → fit_or_extend size s ≡ done p s
unfolding fit_or_extend
fit_calls s size p e1 e2 = rw e1 (rw e2 refl)

-- the bytes asked for when no block fits
abbrev pub extension : ℕ → ℕ
extension size = if ltb chunksize size then size else chunksize

-- The extension is an even number of words.
pub extension_words :
    (size : ℕ)
    → size % 8 ≡ 0
    → size < 2 ^ 31
    → (extension size / 4 * 4 ≡ extension size)
      × (extension size / 4 % 2 ≡ 0)
      × (16 ≤ extension size / 4 * 4)
      × (extension size / 4 * 4 < 2 ^ 31)
extension_words size even small = ground arith

pub extend_instead :
    (s t : Machine) (size q : ℕ)
    → find_fit size s ≡ done 0 s
    → extend_heap (extension size / 4) s ≡ done q t
    → fit_or_extend size s ≡ done q t
unfolding fit_or_extend
extend_instead s t size q e1 e2 = rw e1 e2

pub mm_malloc_calls :
    (s s1 s2 t : Machine) (n size p : ℕ)
    → (n == 0) ≡ false
    → calc_block_size n ≡ size
    → fit_or_extend size s ≡ done p s1
    → remove_from_free_list p s1 ≡ done tt s2
    → place p size s2 ≡ done tt t
    → mm_malloc n s ≡ done p t
unfolding mm_malloc
mm_malloc_calls s s1 s2 t n size p e1 e2 e3 e4 e5 = rw e1 (rw e2 (rw e3 (rw e4 (rw e5 refl))))

-- The block that first fit returns is on the list and large enough.
pub FirstFit-found :
    (w : ℕ → ℕ) (size p : ℕ) (xs : List ℕ)
    → FirstFit w size xs p
    → (p ≡ 0) ⊎ ((mem p xs ≡ true) × (size ≤ size_at w p))
FirstFit-found w size p xs nowhere = inl refl
FirstFit-found w size p xs (here fits) = inr (ground arith, fits)
FirstFit-found w size p ys (further {x} {b} {xs} small f) = elim (FirstFit-found w size p xs f) [
  | inl none_fits ↦ inl none_fits
  | inr found ↦ inr (ground (arith, found.0), found.1)
]
