-- ===== src/Contacts/Persons.antt =====
-- `Person` of test2/contacts.cpp: two arrays of 16 bytes that hold C strings.
use test_linux.Base.{
  ℕ, suc, ◌-◌, Bool, true, false, [], ◌∷◌, ◌++◌, ◌==◌, length, take, replicate, Run, ok, fault,
  ◌>>=◌, Bytes, until_zero,
}

abbrev pub length_name : ℕ
length_name = 16

abbrev pub length_phone : ℕ
length_phone = 16

pub record Person : Type 0 where
  pub name : Bytes
  pub phone : Bytes

-- An array of n + 1 bytes after `strncpy` of n and the write of the terminator.
abbrev pub array : ℕ → Bytes → Bytes
array n text = take n (until_zero text) ++ replicate (suc n - length (take n (until_zero text))) 0

unfoldable pub new_person : (name_tmp phone_tmp : Bytes) → Person
new_person name_tmp phone_tmp = record { name = array 15 name_tmp; phone = array 15 phone_tmp }

-- `strcmp(a, b) == 0`, a fault where it reads past an array.
unfoldable pub strcmp_eq : Bytes → Bytes → Run Bool
strcmp_eq [] b = fault
strcmp_eq (x ∷ a) [] = fault
strcmp_eq (x ∷ a) (y ∷ b) = elim (x == y) [
  | true ↦ elim (x == 0) [ true ↦ ok true | false ↦ strcmp_eq a b ]
  | false ↦ ok false
]

-- `operator==`.
unfoldable pub person_eq : Person → Person → Run Bool
unfolding strcmp_eq
person_eq p q = do
  same ← strcmp_eq p.name q.name
  elim same [ true ↦ strcmp_eq p.phone q.phone | false ↦ ok false ]
