-- ===== src/Database/Old/Kept.antt =====
-- The runs of ex17-old.c: those that return, and those of an action that writes to the file.
use itu_operating_systems_an.Base.{
  ℕ, ◌≡◌, refl, Bool, Bool-cases, inl, inr, true, false, Option, none, some, List, [], ◌∷◌, ◌++◌,
  if◌then◌else◌, ◌==◌, ◌||◌, ℤ, pos, negsuc, leb_ℤ, length, get_elem?, arith,
}
use itu_operating_systems_an.Database.{
  Chars, Address, nonzero, Rows, File, missing, short, holds, max_rows, c_string,
}
use itu_operating_systems_an.Database.Commands.{arg, first_char, id_argument}
use itu_operating_systems_an.Database.Old.{
  World, Run, mode_line, done, died, undefined, M, continue, address_print, database_load,
  database_open, database_write, row, database_set, database_get, database_delete, database_list,
  loaded, ◌>>=◌, act, database_create, print_fields, defined, in_range, read_file, die,
  too_many_records, not_set, pure,
}

-- If the run returns, the file is the one before it.
abbrev pub Kept : {A : Type 0} → File → Run A → Type 0
Kept f (done a w) = w.file ≡ f
Kept f (died m w) = Unit {0}
Kept f undefined = Unit {0}

-- A run that never returns.
abbrev pub Stops : {A : Type 0} → Run A → Type 0
Stops (done a w) = ⊥
Stops (died m w) = Unit {0}
Stops undefined = Unit {0}

bind-Kept :
    {A B : Type 0} (f : File) (r : Run A) (k : A → M B)
    → Kept f r
    → ((a : A) (w : World) → w.file ≡ f → Kept f (k a w))
    → Kept f (continue r k)
bind-Kept f (done a w) k h g = g a w h
bind-Kept f (died m w) k h g = tt
bind-Kept f undefined k h g = tt

write-Kept : (f : File) (rows : Rows) (w : World) → Kept f (database_write rows w)
unfolding database_write
write-Kept f rows w = tt

fields-Kept :
    (f : File) (id : ℤ) (name email : Option Chars) (w : World)
    → w.file ≡ f
    → Kept f (print_fields id name email w)
fields-Kept f id (some name) (some email) w h = h
fields-Kept f id none email w h = tt
fields-Kept f id (some name) none w h = tt

address_print-Kept : (f : File) (a : Address) (w : World) → w.file ≡ f → Kept f (address_print a w)
unfolding address_print
address_print-Kept f a w h = fields-Kept f a.id (c_string a.name) (c_string a.email) w h

in_range-Kept : (f : File) (o : Option Address) (w : World) → w.file ≡ f → Kept f (in_range o w)
in_range-Kept f none w h = tt
in_range-Kept f (some a) w h = h

row-Kept : (f : File) (rows : Rows) (id : ℤ) (w : World) → w.file ≡ f → Kept f (row rows id w)
unfolding row
row-Kept f rows (negsuc n) w h = tt
row-Kept f rows (pos n) w h = in_range-Kept f (get_elem? rows n) w h

pub if-Kept :
    {A : Type 0} (f : File) (b : Bool) (m n : M A) (w : World)
    → Kept f (m w)
    → Kept f (n w)
    → Kept f ((if b then m else n) w)
if-Kept f true m n w h k = h
if-Kept f false m n w h k = k

database_list-Kept :
    (f : File) (rows : Rows) (w : World) → w.file ≡ f → Kept f (database_list rows w)
unfolding database_list
database_list-Kept f [] w h = h
database_list-Kept f (a ∷ rows) w h =
    if-Kept f (nonzero a.is_set) (λ v. continue (address_print a v) (λ _. database_list rows))
      (database_list rows) w
      (bind-Kept f (address_print a w) (λ _. database_list rows) (address_print-Kept f a w h)
        (λ u v e. database_list-Kept f rows v e))
      (database_list-Kept f rows w h)

database_get-Kept :
    (f : File) (rows : Rows) (id : ℤ) (w : World) → w.file ≡ f → Kept f (database_get rows id w)
unfolding database_get
database_get-Kept f rows id w h =
    bind-Kept f (row rows id w) (λ a. if nonzero a.is_set then address_print a else die not_set)
      (row-Kept f rows id w h)
      (λ a v e.
        if-Kept f (nonzero a.is_set) (address_print a) (die not_set) v (address_print-Kept f a v e)
          tt)

loaded-Kept : (f : File) (db : Option Rows) (w : World) → w.file ≡ f → Kept f (loaded db w)
loaded-Kept f none w h = tt
loaded-Kept f (some rows) w h = h

-- A run that ends with a write never returns.
Stops-Kept : {A : Type 0} (f : File) (r : Run A) → Stops r → Kept f r
Stops-Kept f (done a w) h = absurd h
Stops-Kept f (died m w) h = tt
Stops-Kept f undefined h = tt

write-Stops :
    {A : Type 0} (r : Run A) (k : A → Rows) → Stops (continue r (λ a. database_write (k a)))
unfolding database_write
write-Stops (done a w) k = tt
write-Stops (died m w) k = tt
write-Stops undefined k = tt

change-Stops :
    (db : Option Rows) (k : Rows → M Rows) (w : World)
    → Stops (continue (loaded db w) (λ rows. k rows >>= λ rows'. database_write rows'))
change-Stops none k w = tt
change-Stops (some rows) k w = write-Stops (k rows w) (λ a. a)

-- Every action keeps the file or does not return.
act-Kept :
    (f : File) (argv : List Chars) (action : ℕ) (id : ℤ) (db : Option Rows) (w : World)
    → w.file ≡ f
    → Kept f (act argv action id db w)
unfolding act
act-Kept f argv action id db w h =
    if-Kept f (action == b'c') _ _ w (write-Kept f database_create w) (
      if-Kept f (action == b'g') _ _ w
        (if-Kept f (length argv == 4) _ _ w
          (bind-Kept f (loaded db w) _ (loaded-Kept f db w h)
            (λ rows v e. database_get-Kept f rows id v e))
          tt)
        (if-Kept f (action == b's') _ _ w
          (if-Kept f (length argv == 6) _ _ w
            (Stops-Kept f _
              (change-Stops db (λ rows. database_set rows id (arg argv 4) (arg argv 5)) w))
            tt)
          (if-Kept f (action == b'd') _ _ w
            (if-Kept f (length argv == 4) _ _ w
              (Stops-Kept f _ (change-Stops db (λ rows. database_delete rows id) w)) tt)
            (if-Kept f (action == b'l') _ _ w
              (bind-Kept f (loaded db w) _ (loaded-Kept f db w h)
                (λ rows v e. database_list-Kept f rows v e))
              tt))))

read_file-Kept : (f g : File) (w : World) → w.file ≡ f → Kept f (read_file g w)
read_file-Kept f missing w h = tt
read_file-Kept f short w h = tt
read_file-Kept f (holds rows) w h = h

-- the actions that write to the file
abbrev pub writes : ℕ → Bool
writes action = action == b'c' || action == b's' || action == b'd'

write_only-Stops : (rows : Rows) (w : World) → Stops (database_write rows w)
unfolding database_write
write_only-Stops rows w = tt

pub if-Stops :
    {A : Type 0} (b : Bool) (m n : M A) (w : World)
    → Stops (m w)
    → Stops (n w)
    → Stops ((if b then m else n) w)
if-Stops true m n w h k = h
if-Stops false m n w h k = k

-- the first character of the action
abbrev pub action_of : List Chars → ℕ
action_of argv = first_char (arg argv 2)

-- A writing action never returns.
act-Stops :
    (argv : List Chars) (action : ℕ) (id : ℤ) (db : Option Rows) (w : World)
    → writes action ≡ true
    → Stops (act argv action id db w)
unfolding act
act-Stops argv action id db w h = elim (Bool-cases (action == b'c')) [
  | inl create ↦ rw create (write_only-Stops database_create w)
  | inr other ↦
      let not_get : (action == b'g') ≡ false = ground arith in
      rw (other, not_get)
        (elim (Bool-cases (action == b's')) [
          | inl store ↦ rw store (
              if-Stops (length argv == 6) _ _ w
                (change-Stops db (λ rows. database_set rows id (arg argv 4) (arg argv 5)) w) tt)
          | inr no_store ↦
              let delete : (action == b'd') ≡ true = ground arith in
              rw (no_store, delete)
                (if-Stops (length argv == 4) _ _ w
                  (change-Stops db (λ rows. database_delete rows id) w) tt)
        ])
]

load-Kept : (w : World) → Kept w.file (continue (database_load w) (λ rows. pure (some rows)))
unfolding database_load
load-Kept w =
    bind-Kept w.file (read_file w.file w) (λ rows. pure (some rows))
      (read_file-Kept w.file w.file w refl) (λ rows v e. e)

-- the part of `main` after the file is opened
abbrev chosen : List Chars → ℕ → Option Rows → M (Unit {0})
chosen argv action db = defined (id_argument argv) >>= λ id.
    if leb_ℤ (pos max_rows) id then die too_many_records else act argv action id db

chosen-Kept :
    (f : File) (argv : List Chars) (action : ℕ) (db : Option Rows) (w : World)
    → w.file ≡ f
    → Kept f (chosen argv action db w)
chosen-Kept f argv action db w h =
    bind-Kept f (defined (id_argument argv) w) _ (defined-Kept f (id_argument argv) w h)
      (λ id v e. if-Kept f (leb_ℤ (pos max_rows) id) _ _ v tt (act-Kept f argv action id db v e))
  where
    defined-Kept : (f : File) (o : Option ℤ) (w : World) → w.file ≡ f → Kept f (defined o w)
    defined-Kept f none w h = tt
    defined-Kept f (some id) w h = h

bind-Stops :
    {A B : Type 0} (r : Run A) (k : A → M B)
    → ((a : A) (w : World) → Stops (k a w))
    → Stops (continue r k)
bind-Stops (done a w) k g = g a w
bind-Stops (died m w) k g = tt
bind-Stops undefined k g = tt

chosen-Stops :
    (argv : List Chars) (action : ℕ) (db : Option Rows) (w : World)
    → writes action ≡ true
    → Stops (chosen argv action db w)
chosen-Stops argv action db w h =
    bind-Stops (defined (id_argument argv) w) _
      (λ id v. if-Stops (leb_ℤ (pos max_rows) id) _ _ v tt (act-Stops argv action id db v h))

abbrev pub opened : List Chars → ℕ → M (Unit {0})
opened argv action = database_open action >>= λ db. chosen argv action db

pub opened-Kept : (argv : List Chars) (action : ℕ) (w : World) → Kept w.file (opened argv action w)
unfolding database_open
opened-Kept argv action w = elim (Bool-cases (action == b'c')) [
  | inl create ↦
      let writing : writes action ≡ true = ground arith in
      rw create (Stops-Kept w.file _ (chosen-Stops argv action none _ writing))
  | inr other ↦
      let w1 : World = record w { printed = w.printed ++ mode_line action ∷ [] } in
      rw other (
        bind-Kept w.file (continue (database_load w1) (λ rows. pure (some rows))) _ (load-Kept w1)
          (λ db v e. chosen-Kept w.file argv action db v e))
]

pub opened-Stops :
    (argv : List Chars) (action : ℕ) (w : World)
    → writes action ≡ true
    → Stops (opened argv action w)
opened-Stops argv action w h =
    bind-Stops (database_open action w) _ (λ db v. chosen-Stops argv action db v h)
