-- ===== src/Contacts/Catalogue.antt =====
-- The lists of persons that the book and the files of test2/contacts.cpp stand for.
use test_linux.Base.{
  ℕ, ◌≡◌, ◌⊎◌, refl, ap, subst, true, false, Option, none, some, List, [], ◌∷◌, ◌++◌, Bool-cases,
  inl, inr, All, Bytes, if◌then◌else◌, length, ◌<◌,
}
use test_linux.Contacts.Persons.{Person, array, new_person}
use test_linux.Contacts.Texts.{IsPerson, bytes_eq}
use test_linux.Contacts.Files.{size_person, images}
use test_linux.Contacts.Entries.{Contacts}
use test_linux.Contacts.Book.{Book, insert_spec}
use test_linux.Contacts.Delete.{delete_spec}
use test_linux.Contacts.Loading.{stacked}
use test_linux.Contacts.Menu.{
  Command, option_insert, option_print, option_delete, option_search, option_save, option_load,
  option_exit, other, Disk, write_disk, World, is_exit,
}

-- The persons of the book, and those of each file.
pub record Catalogue : Type 0 where
  pub people : List Person
  pub files : Bytes → Option (List Person)

abbrev pub replaced :
    (Bytes → Option (List Person)) → Bytes → List Person → Bytes → Option (List Person)
replaced files filename ps name = if bytes_eq name filename then some ps else files name

-- A save that is cut short keeps the persons of a front part of the book.
pub data Step (a : Catalogue) : Command → Catalogue → Type 0 where
  inserts :
      {name phone : Bytes}
      → Step a
          (option_insert name phone)
          (record a { people = (insert_spec (new_person name phone) a.people).1 })
  prints : Step a option_print a
  deletes :
      {name : Bytes}
      → Step a (option_delete name) (record a { people = (delete_spec (array 15 name) a.people).1 })
  searches : {name : Bytes} → Step a (option_search name) a
  not_opened : {filename : Bytes} {writes : ℕ → ℕ} → Step a (option_save filename false writes) a
  saves :
      {filename : Bytes} {writes : ℕ → ℕ} (written rest : List Person)
      → a.people ≡ written ++ rest
      → (rest ≡ []) ⊎ ((k : ℕ) × (writes k < length (images a.people)))
      → Step a
          (option_save filename true writes)
          (record a { files = replaced a.files filename written })
  not_found : {filename : Bytes} → a.files filename ≡ none → Step a (option_load filename) a
  loads :
      {filename : Bytes} {qs : List Person}
      → a.files filename ≡ some qs
      → Step a (option_load filename) (record a { people = stacked qs a.people })
  ignores : Step a other a
  exits : Step a option_exit (record a { people = [] })

-- The steps of a list of commands, up to the first exit.
pub data Steps : Catalogue → List Command → Catalogue → Type 0 where
  done : {a : Catalogue} → Steps a [] a
  last :
      {a b : Catalogue} {c : Command} {cs : List Command}
      → is_exit c ≡ true
      → Step a c b
      → Steps a (c ∷ cs) b
  more :
      {a b d : Catalogue} {c : Command} {cs : List Command}
      → is_exit c ≡ false
      → Step a c b
      → Steps b cs d
      → Steps a (c ∷ cs) d

-- A file is there where the catalogue has it, with the bytes of its persons, whose texts are all
-- terminated, and less than those of one more.
abbrev pub Filed : Option Bytes → Option (List Person) → Type 0
Filed none none = Unit
Filed none (some ps) = ⊥
Filed (some b) none = ⊥
Filed (some b) (some ps) =
    (tail : Bytes) × (b ≡ images ps ++ tail) × (length tail < size_person) × All IsPerson ps

pub record Represents (w : World) (a : Catalogue) : Type 0 where
  pub book : Book w.cts a.people
  pub filed : (name : Bytes) → Filed (w.disk name) (a.files name)

pub Filed-write :
    (disk : Disk) (files : Bytes → Option (List Person)) (filename : Bytes) (b : Bytes)
    (ps : List Person)
    → Filed (some b) (some ps)
    → ((name : Bytes) → Filed (disk name) (files name))
    → (name : Bytes)
    → Filed (write_disk disk filename (some b) name) (replaced files filename ps name)
Filed-write disk files filename b ps new filed name = elim (Bool-cases (bytes_eq name filename)) [
  | inl e ↦ rw e new
  | inr e ↦ rw e (filed name)
]

-- A file that can be loaded.
pub record Found (file : Option Bytes) (ps : Option (List Person)) : Type 0 where
  pub found : List Person
  pub tail : Bytes
  pub there : file ≡ some (images found ++ tail)
  pub listed : ps ≡ some found
  pub few : length tail < size_person
  pub sane : All IsPerson found

pub Filed-cases :
    (file : Option Bytes) (ps : Option (List Person))
    → Filed file ps
    → ((file ≡ none) × (ps ≡ none)) ⊎ Found file ps
Filed-cases none none f = inl (refl, refl)
Filed-cases none (some ps) f = absurd f
Filed-cases (some b) none f = absurd f
Filed-cases (some b) (some ps) (tail, e, few, sane) =
    inr
      (record { found = ps; tail = tail; there = ap some e; listed = refl; few = few; sane = sane })

pub All-front : (ps qs : List Person) → All IsPerson (ps ++ qs) → All IsPerson ps
All-front [] qs are = tt
All-front (p ∷ ps) qs are = (are.0, All-front ps qs are.1)

pub Book-All : {c : Contacts} {ps : List Person} → Book c ps → All IsPerson ps
Book-All book = subst (λ (l : List Person). All IsPerson l) book.data_of book.shelf.sane
