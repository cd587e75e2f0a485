-- ===== src/Malloc/Heap/Merge.antt =====
-- The four cases of `coalesce`, call by call.
use itu_operating_systems_an.Base.{ℕ, ◌+◌, ◌%◌, ◌^◌, ◌≡◌, refl}
use itu_operating_systems_an.Malloc.Machine.{Machine, done}
use itu_operating_systems_an.Malloc.Block.{
  get_size, get_header_ptr, get_footer_ptr, get_next_block_ptr, get_prev_block_ptr,
}
use itu_operating_systems_an.Malloc.Heap.{merge, set_header, set_footer}

pub both_free :
    (s s1 s2 : Machine) (p size prev psize next nf nsize total q : ℕ)
    → get_prev_block_ptr p s ≡ done prev s
    → get_size (get_header_ptr prev) s ≡ done psize s
    → get_next_block_ptr p s ≡ done next s
    → get_footer_ptr next s ≡ done nf s
    → get_size nf s ≡ done nsize s
    → (size + (psize + nsize) % 2 ^ 32) % 2 ^ 32 ≡ total
    → set_header prev total 0 s ≡ done tt s1
    → get_next_block_ptr p s1 ≡ done next s1
    → set_footer next total 0 s1 ≡ done tt s2
    → get_prev_block_ptr p s2 ≡ done q s2
    → merge p 0 0 size s ≡ done q s2
unfolding merge
both_free s s1 s2 p size prev psize next nf nsize total q e1 e2 e3 e4 e5 e6 e7 e8 e9 e10 =
    rw e1 (rw e2 (rw e3 (rw e4 (rw e5 (rw e6 (rw e7 (rw e8 (rw e9 (rw e10 refl)))))))))

pub prev_free :
    (s s1 s2 : Machine) (p size prev psize total q : ℕ)
    → get_prev_block_ptr p s ≡ done prev s
    → get_size (get_header_ptr prev) s ≡ done psize s
    → (size + psize) % 2 ^ 32 ≡ total
    → set_footer p total 0 s ≡ done tt s1
    → get_prev_block_ptr p s1 ≡ done prev s1
    → set_header prev total 0 s1 ≡ done tt s2
    → get_prev_block_ptr p s2 ≡ done q s2
    → merge p 0 1 size s ≡ done q s2
unfolding merge
prev_free s s1 s2 p size prev psize total q e1 e2 e3 e4 e5 e6 e7 =
    rw e1 (rw e2 (rw e3 (rw e4 (rw e5 (rw e6 (rw e7 refl))))))

pub next_free :
    (s s1 s2 : Machine) (p size next nsize total : ℕ)
    → get_next_block_ptr p s ≡ done next s
    → get_size (get_header_ptr next) s ≡ done nsize s
    → (size + nsize) % 2 ^ 32 ≡ total
    → set_header p total 0 s ≡ done tt s1
    → set_footer p total 0 s1 ≡ done tt s2
    → merge p 1 0 size s ≡ done p s2
unfolding merge
next_free s s1 s2 p size next nsize total e1 e2 e3 e4 e5 =
    rw e1 (rw e2 (rw e3 (rw e4 (rw e5 refl))))

pub none_free : (s : Machine) (p size : ℕ) → merge p 1 1 size s ≡ done p s
unfolding merge
none_free s p size = refl
