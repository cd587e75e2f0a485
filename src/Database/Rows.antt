-- ===== src/Database/Rows.antt =====
-- What the row operations of ex17.c do to the rows.
use itu_operating_systems_an.Base.{
  ℕ, zero, suc, ◌<◌, ◌≡◌, refl, none, some, [], ◌∷◌, ◌++◌, arith, length, get_elem?, set,
  get_elem?-set_self, ltb, if◌then◌else◌, pos, Bool-cases, inl, inr,
}
use itu_operating_systems_an.Database.{
  Chars, Address, Rows, World, nonzero, ◌>>=◌, done, died, undefined, already_set, not_set,
  max_data, strncpy, c_string, row, empty_address, address_print, database_set, database_get,
  database_delete,
}

-- no NUL before the end
abbrev pub NulFree : Chars → Type 0
NulFree [] = Unit {0}
NulFree (c ∷ s) = (0 < c) × NulFree s

-- A text comes back from an array of `n` bytes when it is shorter than the array; a longer one is
-- stored without a NUL, and cannot be read back.
pub c_string-strncpy :
    (n : ℕ) (s : Chars)
    → NulFree s
    → c_string (strncpy n s) ≡ (if ltb (length s) n then some s else none)
unfolding c_string strncpy
c_string-strncpy zero [] h = refl
c_string-strncpy zero (c ∷ s) h = ground arith
c_string-strncpy (suc n) [] h = ground arith
c_string-strncpy (suc n) (c ∷ s) (p, h) = ground (arith, c_string-strncpy n s h)

-- a row after `Database_set`
abbrev pub filled : Address → Chars → Chars → Address
filled a name email = record a {
  is_set = pos 1;
  name = strncpy max_data name;
  email = strncpy max_data email;
}

get_elem?-lt : (rows : Rows) (i : ℕ) (a : Address) → get_elem? rows i ≡ some a → i < length rows
get_elem?-lt [] i a e = cc
get_elem?-lt (x ∷ rows) zero a e = omega arith
get_elem?-lt (x ∷ rows) (suc i) a e = omega (arith, get_elem?-lt rows i a e)

module _ (rows : Rows) (i : ℕ) (a : Address) (at : get_elem? rows i ≡ some a) (w : World) where
  -- `Database_set` fills a row that is not set, with the two texts cut to their arrays, and leaves
  -- the others; a row that is set stops the program, and nothing changes.
  pub database_set_lem :
      (name email : Chars)
      → database_set rows (pos i) name email w ≡ (
          if nonzero a.is_set
          then died already_set w
          else done (set rows i (filled a name email)) w)
  unfolding database_set row
  database_set_lem name email = ground arith

  -- the row is read back
  pub database_get-filled :
      (name email : Chars)
      → NulFree name
      → NulFree email
      → database_get (set rows i (filled a name email)) (pos i) w ≡ (
          if ltb (length name) max_data
          then (if ltb (length email) max_data
              then done tt (record w {
                printed = w.printed ++ record { id = a.id; name = name; email = email } ∷ [];
              })
              else undefined)
          else undefined)
  unfolding database_get row address_print
  database_get-filled name email hn he = ground (
    arith,
    get_elem?-set_self rows i (filled a name email) (get_elem?-lt rows i a at),
    c_string-strncpy max_data name hn,
    c_string-strncpy max_data email he,
  )

  -- For a row of the array and two texts without a NUL, `Database_set` and then `Database_get` on the
  -- same index: if the row was set, the program ends with a message, and nothing changes; else, if
  -- both texts have less than 512 characters, the id of the row and the two texts are printed; and
  -- if one has 512 or more, it is read past the end of its array.
  pub database_get-database_set :
      (name email : Chars)
      → NulFree name
      → NulFree email
      → (database_set rows (pos i) name email >>= λ rows'. database_get rows' (pos i)) w ≡ (
          if nonzero a.is_set
          then died already_set w
          else (if ltb (length name) max_data
              then (if ltb (length email) max_data
                  then done tt (record w {
                    printed = w.printed ++ record { id = a.id; name = name; email = email } ∷ [];
                  })
                  else undefined)
              else undefined))
  database_get-database_set name email hn he =
      rw (database_set_lem name email) (elim (Bool-cases (nonzero a.is_set)) [
        | inl used ↦ rw used refl
        | inr unused ↦ rw unused (database_get-filled name email hn he)
      ])

  -- A deleted row can be set again, and cannot be read.
  pub database_delete_lem :
      database_delete rows (pos i) w ≡ done (set rows i (empty_address (pos i))) w
  unfolding database_delete row
  database_delete_lem = ground arith

  database_get-deleted :
      database_get (set rows i (empty_address (pos i))) (pos i) w ≡ died not_set w
  unfolding database_get row empty_address
  database_get-deleted =
      ground (arith, get_elem?-set_self rows i (empty_address (pos i)) (get_elem?-lt rows i a at))
