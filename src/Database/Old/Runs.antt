-- ===== src/Database/Old/Runs.antt =====
-- What a run of ex17-old.c that returns does, and what one that writes does.
use itu_operating_systems_an.Base.{
  ℕ, ◌≡◌, subst, ◌<◌, Bool-cases, inl, inr, true, false, some, List, [], ◌∷◌, ◌++◌, ltb, pos,
  length, get_elem?, set, arith,
}
use itu_operating_systems_an.Database.{Chars, Address, Rows, File, holds, max_rows}
use itu_operating_systems_an.Database.Commands.{atoi, arg, first_char}
use itu_operating_systems_an.Database.Old.{
  World, Run, Output, mode_line, done, died, database_load, database_open, database_write, row,
  database_set, act, main, flush_failed,
}
use itu_operating_systems_an.Database.Rows.{filled}
use itu_operating_systems_an.Database.Old.Kept.{
  Kept, Stops, writes, action_of, opened-Kept, opened-Stops, if-Kept, if-Stops,
}

main-Kept : (argv : List Chars) (w : World) → Kept w.file (main argv w)
unfolding main
main-Kept argv w =
    if-Kept w.file (ltb (length argv) 3) _ _ w tt (opened-Kept argv (first_char (arg argv 2)) w)

Kept-done :
    {A : Type 0} (f : File) (r : Run A) (a : A) (w : World) → Kept f r → r ≡ done a w → w.file ≡ f
Kept-done f r a w h e = subst (Kept f) e h

main-Stops : (argv : List Chars) (w : World) → writes (action_of argv) ≡ true → Stops (main argv w)
unfolding main
main-Stops argv w h =
    if-Stops (ltb (length argv) 3) _ _ w tt (opened-Stops argv (first_char (arg argv 2)) w h)

Stops-done : {A : Type 0} (r : Run A) (a : A) (w : World) → Stops r → r ≡ done a w → ⊥
Stops-done r a w h e = subst Stops e h

-- If a run returns, the file is as it was, and the action is none of c, s and d: a run with one of
-- these three, which write to the file, never returns.
pub main-keeps_file :
    (argv : List Chars) (w w' : World)
    → main argv w ≡ done tt w'
    → (w'.file ≡ w.file) × (writes (action_of argv) ≡ false)
main-keeps_file argv w w' e = (
  Kept-done w.file (main argv w) tt w' (main-Kept argv w) e,
  (elim (Bool-cases (writes (action_of argv))) [
    | inl h ↦ absurd (Stops-done (main argv w) tt w' (main-Stops argv w h) e)
    | inr h ↦ h
  ]),
)

-- `ex17-old db s id name email` on an index below 100 of a row that is not set prints the mode,
-- stores the row in the file, and then ends with the message that the flush failed.
pub main-set_dies :
    (prog db id name email : Chars) (i : ℕ) (rows : Rows) (a : Address) (p : List Output)
    → atoi id ≡ some (pos i)
    → i < max_rows
    → get_elem? rows i ≡ some a
    → a.is_set ≡ pos 0
    → main
        (prog ∷ db ∷ (b's' ∷ []) ∷ id ∷ name ∷ email ∷ [])
        (record { file = holds rows; printed = p })
      ≡ died flush_failed (record {
        file = holds (set rows i (filled a name email));
        printed = p ++ mode_line b's' ∷ [];
      })
unfolding main act database_open database_load database_write database_set row
main-set_dies prog db id name email i rows a p e lt at unset = ground arith
