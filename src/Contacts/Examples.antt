-- ===== src/Contacts/Examples.antt =====
-- A book of two persons, for test2/contacts.cpp.
use test_linux.Base.{
  ◌≡◌, refl, true, Option, none, some, List, [], ◌∷◌, ok, Bytes, pos, negsuc, arith,
}
use test_linux.Contacts.Persons.{Person, array, new_person}
use test_linux.Contacts.Texts.{IsPerson, new_person-IsPerson}
use test_linux.Contacts.Nodes.{put}
use test_linux.Contacts.Entries.{Contacts, insert_entry, delete_entry, save_entry, load_entry}
use test_linux.Contacts.Chain.{node, nil, cons}
use test_linux.Contacts.Book.{Book, Outcome, insert_entry-Book}
use test_linux.Contacts.Delete.{delete_entry-Book}
use test_linux.Contacts.Backup.{load_entry-save_entry}
use test_linux.Contacts.Menu.{
  Command, option_insert, option_print, option_delete, option_search, option_save, option_load,
  option_exit, World, menu_function, new_contacts,
}
use test_linux.Contacts.Catalogue.{Catalogue, Steps, Represents}
use test_linux.Contacts.Refinement.{menu_function-Steps}

abbrev ann : Bytes
ann = 97 ∷ 110 ∷ []

abbrev bob : Bytes
bob = 98 ∷ 111 ∷ 98 ∷ []

abbrev phone : Bytes
phone = 49 ∷ 50 ∷ []

abbrev person_ann : Person
person_ann = record { name = array 15 ann; phone = array 15 phone }

abbrev person_bob : Person
person_bob = record { name = array 15 bob; phone = array 15 phone }

-- Bob, at the address 2, stands in front of Ann.
abbrev two : Contacts
two = record {
  store = record {
    cells = put (put (λ a. none) 1 (some (node person_ann 2 0))) 2 (some (node person_bob 0 1));
    fresh = 3;
  };
  first = 2;
  count = 2;
}

two-Book : Book two (person_bob ∷ person_ann ∷ [])
unfolding new_person
two-Book = record {
  entries = (2, person_bob) ∷ (1, person_ann) ∷ [];
  shelf = record {
    chain = cons (omega arith) refl refl (cons (omega arith) refl refl nil);
    owned = λ a ne out. ground arith;
    below = λ a i. ground arith;
    bounded = omega arith;
    sane = (is bob, (is ann, tt));
  };
  data_of = refl;
  counted = refl;
}
  where
    is : (name : Bytes) → IsPerson (record { name = array 15 name; phone = array 15 phone })
    is name = new_person-IsPerson name phone

new_contacts-Book : Book new_contacts []
new_contacts-Book = record {
  entries = [];
  shelf = record {
    chain = nil;
    owned = λ a ne out. refl;
    below = λ a i. ground arith;
    bounded = omega arith;
    sane = tt;
  };
  data_of = refl;
  counted = refl;
}

insert_entry-Book_example :
    Outcome (negsuc 3, person_bob ∷ person_ann ∷ []) (insert_entry two ann phone)
unfolding new_person
insert_entry-Book_example = insert_entry-Book ann phone two-Book

delete_entry-Book_example : Outcome (pos 0, person_bob ∷ []) (delete_entry two ann)
delete_entry-Book_example = delete_entry-Book ann two-Book

load_entry-save_entry_example :
    (file : Option Bytes) × (save_entry two true (λ k. 2048) ≡ ok (pos 0, file))
    × Outcome (pos 0, person_ann ∷ person_bob ∷ []) (load_entry new_contacts file)
load_entry-save_entry_example =
    load_entry-save_entry (λ k. 2048) (λ k. omega arith) two-Book new_contacts-Book

abbrev started : World
started = record { cts = two; disk = λ name. none }

abbrev started_catalogue : Catalogue
started_catalogue = record { people = person_bob ∷ person_ann ∷ []; files = λ name. none }

started-Represents : Represents started started_catalogue
started-Represents = record { book = two-Book; filed = λ name. tt }

abbrev session : List Command
session =
    option_save (102 ∷ []) true (λ k. 2048)
    ∷ option_delete bob
    ∷ option_load (102 ∷ [])
    ∷ option_insert ann phone
    ∷ option_print
    ∷ option_search bob
    ∷ option_exit
    ∷ []

menu_function-Steps_example :
    (w' : World) × (b : Catalogue) × (menu_function session started ≡ ok w')
    × Steps started_catalogue session b
    × Represents w' b
menu_function-Steps_example = menu_function-Steps session started-Represents
