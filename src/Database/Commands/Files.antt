-- ===== src/Database/Commands/Files.antt =====
-- What a run of ex17 does to its file.
use itu_operating_systems_an.Base.{
  ℕ, ◌<◌, ◌≤◌, ◌≡◌, some, List, [], ◌∷◌, ◌++◌, arith, length, get_elem?, set, pos, negsuc,
}
use itu_operating_systems_an.Database.{
  Chars, Address, Rows, Line, World, Run, done, died, undefined, too_many_records, max_data,
  max_rows, row, database_open, database_write, database_get, holds, short,
}
use itu_operating_systems_an.Database.Commands.{main, act, atoi}
use itu_operating_systems_an.Database.Rows.{NulFree, filled, database_set_lem, database_get-filled}

abbrev pub run_on : List Chars → Rows → List Line → Run (Unit {0})
run_on argv rows p = main argv (record { file = holds rows; printed = p })

-- For an id that `atoi` reads as an index below 100, of a row of the file that is not set, and for a
-- name and an email without a NUL and of less than 512 characters each, `ex17 db s id name email`
-- returns and stores the row in the file, marked set, with both texts; `ex17 db g id` on that file
-- returns, prints the id of the row, the name and the email, and leaves the file.
pub main-set_get :
    (prog db id name email : Chars) (i : ℕ) (rows : Rows) (a : Address) (p : List Line)
    → atoi id ≡ some (pos i)
    → i < max_rows
    → get_elem? rows i ≡ some a
    → a.is_set ≡ pos 0
    → NulFree name
    → NulFree email
    → length name < max_data
    → length email < max_data
    → let rows' = set rows i (filled a name email) in
      (run_on (prog ∷ db ∷ (b's' ∷ []) ∷ id ∷ name ∷ email ∷ []) rows p
        ≡ done tt (record { file = holds rows'; printed = p }))
      × (run_on (prog ∷ db ∷ (b'g' ∷ []) ∷ id ∷ []) rows' p
          ≡ done tt (record {
            file = holds rows';
            printed = p ++ record { id = a.id; name = name; email = email } ∷ [];
          }))
unfolding main act database_open database_write
main-set_get prog db id name email i rows a p e lt at unset hn he ln le =
    let w : World = record { file = holds rows; printed = p } in
    let rows' = set rows i (filled a name email) in
    let w' : World = record { file = holds rows'; printed = p } in
    (
      ground (arith, database_set_lem rows i a at w name email),
      ground (arith, database_get-filled rows i a at w' name email hn he),
    )

-- The action 'c' empties the file before the id is read: with an id that `atoi` reads as an `int` of
-- 100 or more the run ends with a message, and the database that was there is gone.
pub main-create_loses :
    (prog db id : Chars) (i : ℕ) (rows : Rows) (p : List Line)
    → atoi id ≡ some (pos i)
    → max_rows ≤ i
    → run_on (prog ∷ db ∷ (b'c' ∷ []) ∷ id ∷ []) rows p
      ≡ died too_many_records (record { file = short; printed = p })
unfolding main database_open
main-create_loses prog db id i rows p e h = ground arith

-- A negative id passes the check, and `g` reads before the first row.
pub main-negative_id :
    (prog db id : Chars) (n : ℕ) (rows : Rows) (p : List Line)
    → atoi id ≡ some (negsuc n)
    → run_on (prog ∷ db ∷ (b'g' ∷ []) ∷ id ∷ []) rows p ≡ undefined
unfolding main act database_open database_get row
main-negative_id prog db id n rows p e = ground arith
