-- ===== src/Database.antt =====
-- lecture-5/ex17.c: a database of addresses in one file, changed by one command each run.
-- Memory is there when asked for. A file holds a whole database, or fewer bytes than one.
pub mod Rows
pub mod Commands
pub mod Old
pub mod Tests
use itu_operating_systems_an.Base.{
  ℕ, zero, suc, ◌+◌, ◌-◌, ◌*◌, ◌<◌, Bool, true, false, not, ◌&&◌, ◌||◌, Option, none, some, List,
  [], ◌∷◌, ◌++◌, if◌then◌else◌, ◌==◌, leb, ltb, ℤ, pos, negsuc, neg, length, get_elem?, set,
}

abbrev pub max_data : ℕ
max_data = 512

abbrev pub max_rows : ℕ
max_rows = 100

-- a C string by its characters, without the NUL; also the bytes of a `char` array
abbrev pub Chars : Type 0
Chars = List ℕ

-- `is_set` is the field `set`, an `int`
pub record Address : Type 0 where
  pub id : ℤ
  pub is_set : ℤ
  pub name : Chars
  pub email : Chars

-- `rows`, of length `max_rows`
abbrev pub Rows : Type 0
Rows = List Address

pub data File : Type 0 where
  missing short : File
  holds : Rows → File

-- an `int` as a test
abbrev pub nonzero : ℤ → Bool
nonzero (pos n) = not (n == 0)
nonzero (negsuc n) = true

-- what `Address_print` prints
pub record Line : Type 0 where
  pub id : ℤ
  pub name : Chars
  pub email : Chars

pub record World : Type 0 where
  pub file : File
  pub printed : List Line

-- the messages of `die`
pub data Message : Type 0 where
  usage load_failed open_failed too_many_records already_set not_set : Message
  need_id_to_get need_set_arguments need_id_to_delete invalid_action : Message

-- `died` is `exit(1)` after a message; `undefined` is an access outside an array.
pub data Run (A : Type 0) : Type 0 where
  done : A → World → Run A
  died : Message → World → Run A
  undefined : Run A

abbrev pub M : Type 0 → Type 0
M A = World → Run A

abbrev pub pure : {A : Type 0} → A → M A
pure a w = done a w

abbrev pub continue : {A B : Type 0} → Run A → (A → M B) → Run B
continue (done a w) k = k a w
continue (died m w) k = died m w
continue undefined k = undefined

infixl 5 ◌>>=◌ ◌>>◌
abbrev pub ◌>>=◌ : {A B : Type 0} → M A → (A → M B) → M B
m >>= k = λ w. continue (m w) k

abbrev pub ◌>>◌ : {A B : Type 0} → M A → M B → M B
m >> n = m >>= λ _. n

abbrev pub die : {A : Type 0} → Message → M A
die m w = died m w

-- `strncpy(dst, src, n)`: `n` bytes, the source cut off or filled up with NULs
unfoldable pub strncpy : ℕ → Chars → Chars
strncpy zero src = []
strncpy (suc n) [] = 0 ∷ strncpy n []
strncpy (suc n) (c ∷ src) = c ∷ strncpy n src

abbrev pub prepend : ℕ → Option Chars → Option Chars
prepend c none = none
prepend c (some s) = some (c ∷ s)

-- what `%s` prints of an array: up to the NUL, which must be in the array
unfoldable pub c_string : Chars → Option Chars
c_string [] = none
c_string (c ∷ s) = if c == 0 then some [] else prepend c (c_string s)

unfoldable pub address_print : Address → M (Unit {0})
address_print a w = elim (c_string a.name) [
  | none ↦ undefined
  | some name ↦ elim (c_string a.email) [
    | none ↦ undefined
    | some email ↦
        done tt (record w {
          printed = w.printed ++ record { id = a.id; name = name; email = email } ∷ [];
        })
  ]
]

-- `{.id = i, .set = 0}`, the rest of which C fills with 0
unfoldable pub empty_address : ℤ → Address
empty_address i = record {
  id = i;
  is_set = pos 0;
  name = strncpy max_data [];
  email = strncpy max_data [];
}

-- The opened file's database. After mode 'c' the memory of `db` is not initialised: `none`.
unfoldable pub database_open : Bool → M (Option Rows)
database_open true w = done none (record w { file = short })
database_open false w = elim w.file [
  | missing ↦ died open_failed w
  | short ↦ died load_failed w
  | holds rows ↦ done (some rows) w
]

unfoldable pub database_write : Rows → M (Unit {0})
database_write rows w = done tt (record w { file = holds rows })

-- the loop from row `i` on, with `left` rounds left
unfoldable pub create_from : ℕ → ℕ → Rows
create_from i zero = []
create_from i (suc left) = empty_address (pos i) ∷ create_from (i + 1) left

unfoldable pub database_create : Rows
database_create = create_from 0 max_rows

unfoldable pub row : Rows → ℤ → M Address
row rows (negsuc n) w = undefined
row rows (pos n) w = elim (get_elem? rows n) [ none ↦ undefined | some a ↦ done a w ]

abbrev pub set_row : Rows → ℤ → Address → Rows
set_row rows (pos n) a = set rows n a
set_row rows (negsuc n) a = rows

unfoldable pub database_set : Rows → ℤ → Chars → Chars → M Rows
database_set rows id name email = do
  addr ← row rows id
  if nonzero addr.is_set
      then die already_set
      else pure (
          set_row rows id (record addr {
            is_set = pos 1;
            name = strncpy max_data name;
            email = strncpy max_data email;
          }))

unfoldable pub database_get : Rows → ℤ → M (Unit {0})
database_get rows id = do
  addr ← row rows id
  if nonzero addr.is_set then address_print addr else die not_set

unfoldable pub database_delete : Rows → ℤ → M Rows
database_delete rows id = do row rows id; pure (set_row rows id (empty_address id))

unfoldable pub database_list : Rows → M (Unit {0})
database_list [] = pure tt
database_list (a ∷ rows) =
    let rest = database_list rows in if nonzero a.is_set then address_print a >> rest else rest
