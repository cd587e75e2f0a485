-- ===== src/Database/Tests.antt =====
-- A session of ex17, and the theorems at its rows.
use itu_operating_systems_an.Base.{
  ◌≡◌, refl, arith, [], ◌∷◌, ◌++◌, set, pos, negsuc, some, none, ltb, length, if◌then◌else◌,
}
use itu_operating_systems_an.Database.{
  Chars, Rows, nonzero, ◌>>=◌, already_set, database_set, done, died, undefined, missing, short,
  holds, too_many_records, database_get, max_data, empty_address, database_open, database_write,
  database_create,
}
use itu_operating_systems_an.Database.Commands.{main, act, atoi}
use itu_operating_systems_an.Database.Rows.{filled, database_get-database_set}
use itu_operating_systems_an.Database.Commands.Files.{run_on, main-set_get, main-create_loses}

abbrev prog : Chars
prog = b'x' ∷ []

abbrev db : Chars
db = b'd' ∷ b'b' ∷ []

abbrev one : Chars
one = b'1' ∷ []

abbrev joe : Chars
joe = b'j' ∷ b'o' ∷ b'e' ∷ []

abbrev mail : Chars
mail = b'j' ∷ b'@' ∷ b'x' ∷ []

-- a file of two rows, enough for the runs below
abbrev rows : Rows
rows = empty_address (pos 0) ∷ empty_address (pos 1) ∷ []

one_is_1 : atoi one ≡ some (pos 1)
unfolding atoi
one_is_1 = refl

is_unset : (empty_address (pos 1)).is_set ≡ pos 0
unfolding empty_address
is_unset = refl

created :
    main (prog ∷ db ∷ (b'c' ∷ []) ∷ []) (record { file = missing; printed = [] })
    ≡ done tt (record { file = holds database_create; printed = [] })
unfolding main act database_open database_write
created = refl

database_get-database_set_example :
    (database_set rows (pos 1) joe mail >>= λ rows'. database_get rows' (pos 1))
      (record { file = short; printed = [] })
    ≡ (if nonzero (empty_address (pos 1)).is_set
        then died already_set (record { file = short; printed = [] })
        else (if ltb (length joe) max_data
            then (if ltb (length mail) max_data
                then done tt (record {
                  file = short;
                  printed =
                      []
                      ++ record { id = (empty_address (pos 1)).id; name = joe; email = mail } ∷ [];
                })
                else undefined)
            else undefined))
database_get-database_set_example =
    database_get-database_set rows 1 (empty_address (pos 1)) refl
      (record { file = short; printed = [] }) joe mail (omega arith) (omega arith)

-- A number that is not an `int` is left undefined.
too_large : atoi (b'4' ∷ b'2' ∷ b'9' ∷ b'4' ∷ b'9' ∷ b'6' ∷ b'7' ∷ b'2' ∷ b'9' ∷ b'6' ∷ []) ≡ none
unfolding atoi
too_large = refl

main-set_get_example :
    (run_on (prog ∷ db ∷ (b's' ∷ []) ∷ one ∷ joe ∷ mail ∷ []) rows []
      ≡ done tt (record {
        file = holds (set rows 1 (filled (empty_address (pos 1)) joe mail));
        printed = [];
      }))
    × (run_on
          (prog ∷ db ∷ (b'g' ∷ []) ∷ one ∷ [])
          (set rows 1 (filled (empty_address (pos 1)) joe mail))
          []
        ≡ done tt (record {
          file = holds (set rows 1 (filled (empty_address (pos 1)) joe mail));
          printed = [] ++ record { id = (empty_address (pos 1)).id; name = joe; email = mail } ∷ [];
        }))
main-set_get_example =
    main-set_get prog db one joe mail 1 rows (empty_address (pos 1)) [] one_is_1 (omega arith) refl
      is_unset (omega arith) (omega arith) (omega arith) (omega arith)

many : atoi (b'2' ∷ b'0' ∷ b'0' ∷ []) ≡ some (pos 200)
unfolding atoi
many = refl

main-create_loses_example :
    run_on (prog ∷ db ∷ (b'c' ∷ []) ∷ (b'2' ∷ b'0' ∷ b'0' ∷ []) ∷ []) rows []
    ≡ died too_many_records (record { file = short; printed = [] })
main-create_loses_example =
    main-create_loses prog db (b'2' ∷ b'0' ∷ b'0' ∷ []) 200 rows [] many (omega arith)

minus : atoi (b'-' ∷ b'3' ∷ []) ≡ some (negsuc 2)
unfolding atoi
minus = refl
