-- ===== src/Database/Old.antt =====
-- lecture-5/ex17-old.c: the first version of ex17.c, with the same rows and file.
pub mod Kept
pub mod Runs
mod Tests
use itu_operating_systems_an.Base.{
  ℕ, zero, suc, ◌<◌, Bool, true, false, Option, none, some, List, [], ◌∷◌, ◌++◌, if◌then◌else◌,
  ◌==◌, ltb, ℤ, pos, negsuc, leb_ℤ, length, get_elem?,
}
use itu_operating_systems_an.Database.{
  Chars, Address, nonzero, Rows, File, missing, short, holds, max_data, max_rows, strncpy, c_string,
  set_row,
}
use itu_operating_systems_an.Database.Commands.{arg, first_char, id_argument}

-- what one call of `printf` prints: the mode, or an address
pub data Output : Type 0 where
  mode_line : ℕ → Output
  address_line : ℤ → Chars → Chars → Output

pub record World : Type 0 where
  pub file : File
  pub printed : List Output

-- the messages of `die`
pub data Message : Type 0 where
  usage load_failed open_failed flush_failed too_many_records already_set not_set : Message
  need_id_to_get need_set_arguments need_id_to_delete invalid_action : Message

-- `died` is `exit(1)` after a message; `undefined` is an access outside an array.
pub data Run (A : Type 0) : Type 0 where
  done : A → World → Run A
  died : Message → World → Run A
  undefined : Run A

abbrev pub M : Type 0 → Type 0
M A = World → Run A

abbrev pub pure : {A : Type 0} → A → M A
pure a w = done a w

abbrev pub continue : {A B : Type 0} → Run A → (A → M B) → Run B
continue (done a w) k = k a w
continue (died m w) k = died m w
continue undefined k = undefined

infixl 5 ◌>>=◌ ◌>>◌
abbrev pub ◌>>=◌ : {A B : Type 0} → M A → (A → M B) → M B
m >>= k = λ w. continue (m w) k

abbrev pub ◌>>◌ : {A B : Type 0} → M A → M B → M B
m >> n = m >>= λ _. n

abbrev pub die : {A : Type 0} → Message → M A
die m w = died m w

abbrev pub print : Output → M (Unit {0})
print o w = done tt (record w { printed = w.printed ++ o ∷ [] })

-- the two texts, each of which must have its NUL in its array
abbrev pub print_fields : ℤ → Option Chars → Option Chars → M (Unit {0})
print_fields id (some name) (some email) w = print (address_line id name email) w
print_fields id none email w = undefined
print_fields id (some name) none w = undefined

unfoldable pub address_print : Address → M (Unit {0})
address_print a = print_fields a.id (c_string a.name) (c_string a.email)

abbrev pub read_file : File → M Rows
read_file missing w = died open_failed w
read_file short w = died load_failed w
read_file (holds rows) w = done rows w

unfoldable pub database_load : M Rows
database_load w = read_file w.file w

-- After mode 'c' the memory of `db` is not initialised: `none`.
unfoldable pub database_open : ℕ → M (Option Rows)
database_open mode = do
  print (mode_line mode)
  if mode == b'c'
      then (λ w. done none (record w { file = short }))
      else (do rows ← database_load; pure (some rows))

-- what `fflush` returns when it writes the data out
abbrev pub flushed : ℕ
flushed = 0

unfoldable pub database_write : Rows → M (Unit {0})
database_write rows w =
    let w' : World = record w { file = holds rows } in
    let rc = flushed in if rc == 1 then done tt w' else died flush_failed w'

-- `{ .id = 0, .set = 0 }`, the rest of which C fills with 0
unfoldable pub empty_address : Address
empty_address = record {
  id = pos 0;
  is_set = pos 0;
  name = strncpy max_data [];
  email = strncpy max_data [];
}

-- the loop, with `left` rounds left
unfoldable pub create_from : ℕ → Rows
create_from zero = []
create_from (suc left) = empty_address ∷ create_from left

unfoldable pub database_create : Rows
database_create = create_from max_rows

abbrev pub in_range : Option Address → M Address
in_range none w = undefined
in_range (some a) w = done a w

unfoldable pub row : Rows → ℤ → M Address
row rows (negsuc n) w = undefined
row rows (pos n) w = in_range (get_elem? rows n) w

unfoldable pub database_set : Rows → ℤ → Chars → Chars → M Rows
database_set rows id name email = do
  addr ← row rows id
  if nonzero addr.is_set
      then die already_set
      else pure (
          set_row rows id (record addr {
            is_set = pos 1;
            name = strncpy max_data name;
            email = strncpy max_data email;
          }))

unfoldable pub database_get : Rows → ℤ → M (Unit {0})
database_get rows id = do
  addr ← row rows id
  if nonzero addr.is_set then address_print addr else die not_set

unfoldable pub database_delete : Rows → ℤ → M Rows
database_delete rows id = do row rows id; pure (set_row rows id empty_address)

unfoldable pub database_list : Rows → M (Unit {0})
database_list [] = pure tt
database_list (a ∷ rows) =
    let rest = database_list rows in if nonzero a.is_set then address_print a >> rest else rest

abbrev pub loaded : Option Rows → M Rows
loaded none w = undefined
loaded (some rows) w = pure rows w

unfoldable pub act : List Chars → ℕ → ℤ → Option Rows → M (Unit {0})
act argv action id db =
    if action == b'c'
    then database_write database_create
    else if action == b'g'
    then (if length argv == 4
        then (do rows ← loaded db; database_get rows id)
        else die need_id_to_get)
    else if action == b's'
    then (if length argv == 6
        then (do
          rows ← loaded db
          rows' ← database_set rows id (arg argv 4) (arg argv 5)
          database_write rows')
        else die need_set_arguments)
    else if action == b'd'
    then (if length argv == 4
        then (do rows ← loaded db; rows' ← database_delete rows id; database_write rows')
        else die need_id_to_delete)
    else if action == b'l'
    then (do rows ← loaded db; database_list rows)
    else die invalid_action

abbrev pub defined : Option ℤ → M ℤ
defined none w = undefined
defined (some id) w = pure id w

unfoldable pub main : List Chars → M (Unit {0})
main argv = if ltb (length argv) 3 then die usage else do
  let action = first_char (arg argv 2)
  db ← database_open action
  id ← defined (id_argument argv)
  if leb_ℤ (pos max_rows) id then die too_many_records else act argv action id db
