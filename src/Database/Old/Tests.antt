-- ===== src/Database/Old/Tests.antt =====
-- Runs of ex17-old, and the theorems at its rows.
use itu_operating_systems_an.Base.{◌≡◌, refl, arith, false, [], ◌∷◌, ◌++◌, set, pos, some}
use itu_operating_systems_an.Database.{Chars, Rows, holds, missing, c_string}
use itu_operating_systems_an.Database.Commands.{atoi}
use itu_operating_systems_an.Database.Old.{
  World, done, died, mode_line, address_line, flush_failed, main, act, database_open, database_load,
  database_list, database_write, database_create, address_print, empty_address,
}
use itu_operating_systems_an.Database.Old.Kept.{writes, action_of}
use itu_operating_systems_an.Database.Rows.{filled}
use itu_operating_systems_an.Database.Old.Runs.{main-keeps_file, main-set_dies}

abbrev prog : Chars
prog = b'x' ∷ []

abbrev db : Chars
db = b'd' ∷ b'b' ∷ []

abbrev one : Chars
one = b'1' ∷ []

abbrev joe : Chars
joe = b'j' ∷ b'o' ∷ b'e' ∷ []

abbrev mail : Chars
mail = b'j' ∷ b'@' ∷ b'x' ∷ []

-- two rows, the first of which is set; its arrays are shorter than those of the program
abbrev rows : Rows
rows =
    record { id = pos 0; is_set = pos 1; name = b'j' ∷ 0 ∷ []; email = b'@' ∷ 0 ∷ [] }
    ∷ empty_address
    ∷ []

abbrev on : Rows → World
on rs = record { file = holds rs; printed = [] }

listed :
    main (prog ∷ db ∷ (b'l' ∷ []) ∷ []) (on rows)
    ≡ done tt (record {
      file = holds rows;
      printed = mode_line b'l' ∷ address_line (pos 0) (b'j' ∷ []) (b'@' ∷ []) ∷ [];
    })
unfolding main act database_open database_load database_list address_print c_string empty_address
listed = refl

-- The new file is written, and the run ends as if it were not.
created :
    main (prog ∷ db ∷ (b'c' ∷ []) ∷ []) (record { file = missing; printed = [] })
    ≡ died flush_failed (record { file = holds database_create; printed = mode_line b'c' ∷ [] })
unfolding main act database_open database_write
created = refl

main-keeps_file_example :
    (holds rows ≡ (on rows).file) × (writes (action_of (prog ∷ db ∷ (b'l' ∷ []) ∷ [])) ≡ false)
main-keeps_file_example =
    main-keeps_file (prog ∷ db ∷ (b'l' ∷ []) ∷ []) (on rows)
      (record {
        file = holds rows;
        printed = mode_line b'l' ∷ address_line (pos 0) (b'j' ∷ []) (b'@' ∷ []) ∷ [];
      })
      listed

one_is_1 : atoi one ≡ some (pos 1)
unfolding atoi
one_is_1 = refl

is_unset : empty_address.is_set ≡ pos 0
unfolding empty_address
is_unset = refl

main-set_dies_example :
    main (prog ∷ db ∷ (b's' ∷ []) ∷ one ∷ joe ∷ mail ∷ []) (on rows)
    ≡ died flush_failed (record {
      file = holds (set rows 1 (filled empty_address joe mail));
      printed = [] ++ mode_line b's' ∷ [];
    })
main-set_dies_example =
    main-set_dies prog db one joe mail 1 rows empty_address [] one_is_1 (omega arith) refl is_unset
