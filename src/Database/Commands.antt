-- ===== src/Database/Commands.antt =====
-- `main` of ex17.c: the arguments, and one action.
pub mod Files
use itu_operating_systems_an.Base.{
  ℕ, zero, suc, ◌+◌, ◌-◌, ◌*◌, ◌^◌, Bool, true, false, ◌&&◌, ◌||◌, Option, none, some, List, [],
  ◌∷◌, if◌then◌else◌, ◌==◌, leb, ltb, ℤ, pos, negsuc, neg, leb_ℤ, length, get_elem?,
}
use itu_operating_systems_an.Database.{
  Chars, Rows, max_rows, M, pure, die, undefined, ◌>>=◌, ◌>>◌, usage, too_many_records,
  need_id_to_get, need_set_arguments, need_id_to_delete, invalid_action, database_open,
  database_write, database_create, database_set, database_get, database_delete, database_list,
}

abbrev is_digit : ℕ → Bool
is_digit c = leb b'0' c && leb c b'9'

-- white space of `isspace`
abbrev is_space : ℕ → Bool
is_space c = c == b' ' || leb 9 c && leb c 13

digits_value : ℕ → Chars → ℕ
digits_value acc [] = acc
digits_value acc (c ∷ s) =
    let more = digits_value (acc * 10 + (c - b'0')) s in if is_digit c then more else acc

signed_value : Chars → ℤ
signed_value [] = pos 0
signed_value (c ∷ s) =
    if c == b'-'
    then neg (pos (digits_value 0 s))
    else if c == b'+'
    then pos (digits_value 0 s)
    else pos (digits_value 0 (c ∷ s))

-- the number that a text starts with, behind white space
text_value : Chars → ℤ
text_value [] = pos 0
text_value (c ∷ s) = let rest = text_value s in if is_space c then rest else signed_value (c ∷ s)

abbrev in_int : ℤ → Option ℤ
in_int (pos n) = if ltb n (2 ^ 31) then some (pos n) else none
in_int (negsuc n) = if ltb n (2 ^ 31) then some (negsuc n) else none

-- `atoi`; of a number that is not an `int` its behaviour is undefined: `none`
unfoldable pub atoi : Chars → Option ℤ
unfolding text_value signed_value digits_value
atoi s = in_int (text_value s)

abbrev pub arg : List Chars → ℕ → Chars
arg argv i = elim (get_elem? argv i) [ none ↦ [] | some s ↦ s ]

-- `argv[2][0]`, 0 for an empty text
abbrev pub first_char : Chars → ℕ
first_char [] = 0
first_char (c ∷ s) = c

-- `conn->db`, where a read of memory that is not initialised means nothing
abbrev pub loaded : Option Rows → M Rows
loaded none w = undefined
loaded (some rows) w = pure rows w

unfoldable pub act : List Chars → ℕ → ℤ → Option Rows → M (Unit {0})
act argv action id db =
    if action == b'c'
    then database_write database_create
    else if action == b'g'
    then (if length argv == 4
        then (do rows ← loaded db; database_get rows id)
        else die need_id_to_get)
    else if action == b's'
    then (if length argv == 6
        then (do
          rows ← loaded db
          rows' ← database_set rows id (arg argv 4) (arg argv 5)
          database_write rows')
        else die need_set_arguments)
    else if action == b'd'
    then (if length argv == 4
        then (do rows ← loaded db; rows' ← database_delete rows id; database_write rows')
        else die need_id_to_delete)
    else if action == b'l'
    then (do rows ← loaded db; database_list rows)
    else die invalid_action

abbrev pub id_argument : List Chars → Option ℤ
id_argument argv = if ltb 3 (length argv) then atoi (arg argv 3) else some (pos 0)

abbrev pub defined : Option ℤ → M ℤ
defined none w = undefined
defined (some id) w = pure id w

unfoldable pub main : List Chars → M (Unit {0})
main argv = if ltb (length argv) 3 then die usage else do
  let action = first_char (arg argv 2)
  db ← database_open (action == b'c')
  id ← defined (id_argument argv)
  if leb_ℤ (pos max_rows) id then die too_many_records else act argv action id db
