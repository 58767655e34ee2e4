-- ===== src/Contacts/Refinement.antt =====
-- `menu_function` of test2/contacts.cpp against steps on lists of persons.
use test_linux.Base.{
  ℕ, ◌≡◌, ◌⊎◌, refl, sym, subst, ◌∙◌, true, false, Option, none, some, List, [], ◌∷◌, ◌++◌,
  append-nil, Bool-cases, inl, inr, All, ok, ◌>>=◌, Bytes, ℤ, pos, negsuc, length, ◌<◌, arith,
}
use test_linux.Contacts.Persons.{Person, array, new_person}
use test_linux.Contacts.Texts.{IsPerson}
use test_linux.Contacts.Files.{size_person, images}
use test_linux.Contacts.Entries.{save_entry, load_entry}
use test_linux.Contacts.Book.{insert_spec, insert_entry-Book}
use test_linux.Contacts.Delete.{delete_spec, delete_entry-Book, search_entry-Book, print_entry-Book}
use test_linux.Contacts.Loading.{stacked}
use test_linux.Contacts.Storage.{
  take-images, Kept, save_entry-Kept, load_entry-Book, destroy_contacts-Book,
}
use test_linux.Contacts.Menu.{
  Command, option_insert, option_print, option_delete, option_search, option_save, option_load,
  option_exit, other, write_disk, World, choose, is_exit, menu_function,
}
use test_linux.Contacts.Catalogue.{
  Catalogue, replaced, Step, inserts, prints, deletes, searches, not_opened, saves, not_found,
  loads, ignores, exits, Steps, done, last, more, Represents, Filed-write, Filed-cases, Found,
  All-front, Book-All,
}

-- One command, from a world that a catalogue represents: it is carried out, and the catalogue makes
-- the step of that command.
pub record Carried (w : World) (a : Catalogue) (c : Command) : Type 0 where
  pub world : World
  pub next : Catalogue
  pub is : choose w c ≡ ok world
  pub step : Step a c next
  pub represents : Represents world next

module _ {w : World} {a : Catalogue} (r : Represents w a) where
  insert-Carried : (name phone : Bytes) → Carried w a (option_insert name phone)
  unfolding choose
  insert-Carried name phone =
      let (c, e, book) = insert_entry-Book name phone r.book in
      record {
        world = record w { cts = c };
        next = record a { people = (insert_spec (new_person name phone) a.people).1 };
        is = rw (e, ◌>>=◌);
        step = inserts;
        represents = record { book = book; filed = r.filed };
      }

  delete-Carried : (name : Bytes) → Carried w a (option_delete name)
  unfolding choose
  delete-Carried name =
      let (c, e, book) = delete_entry-Book name r.book in
      record {
        world = record w { cts = c };
        next = record a { people = (delete_spec (array 15 name) a.people).1 };
        is = rw (e, ◌>>=◌);
        step = deletes;
        represents = record { book = book; filed = r.filed };
      }

  look-Carried : (name : Bytes) → Carried w a (option_search name)
  unfolding choose
  look-Carried name = record {
    world = w;
    next = a;
    is = rw (search_entry-Book name r.book, ◌>>=◌);
    step = searches;
    represents = r;
  }

  print-Carried : Carried w a option_print
  unfolding choose
  print-Carried = record {
    world = w;
    next = a;
    is = rw (print_entry-Book r.book, ◌>>=◌);
    step = prints;
    represents = r;
  }

  exit-Carried : Carried w a option_exit
  unfolding choose
  exit-Carried =
      let (d, e, book, gone) = destroy_contacts-Book r.book in
      record {
        world = record w { cts = d };
        next = record a { people = [] };
        is = rw (e, ◌>>=◌);
        step = exits;
        represents = record { book = book; filed = r.filed };
      }

  load-Carried : (filename : Bytes) → Carried w a (option_load filename)
  unfolding choose load_entry
  load-Carried filename = go (Filed-cases (w.disk filename) (a.files filename) (r.filed filename))
    where
      go :
          ((w.disk filename ≡ none) × (a.files filename ≡ none))
            ⊎ Found (w.disk filename) (a.files filename)
          → Carried w a (option_load filename)
      go (inl (missing, e)) = record {
        world = w;
        next = a;
        is = rw (missing, ◌>>=◌);
        step = not_found e;
        represents = r;
      }
      go (inr f) =
          let (c, e, book) = load_entry-Book f.found f.tail r.book f.sane f.few in
          record {
            world = record w { cts = c };
            next = record a { people = stacked f.found a.people };
            is = rw (f.there, e, ◌>>=◌);
            step = loads f.listed;
            represents = record { book = book; filed = r.filed };
          }

  written-Carried :
      (filename : Bytes) (writes : ℕ → ℕ) (code : ℤ) (b tail : Bytes) (written rest : List Person)
      → save_entry w.cts true writes ≡ ok (code, some b)
      → b ≡ images written ++ tail
      → length tail < size_person
      → a.people ≡ written ++ rest
      → (rest ≡ []) ⊎ ((k : ℕ) × (writes k < length (images a.people)))
      → Carried w a (option_save filename true writes)
  unfolding choose
  written-Carried filename writes code b tail written rest e front few split why = record {
    world = record w { disk = write_disk w.disk filename (some b) };
    next = record a { files = replaced a.files filename written };
    is = rw (e, ◌>>=◌);
    step = saves written rest split why;
    represents = record {
      book = r.book;
      filed =
          Filed-write w.disk a.files filename b written
            (
              tail,
              front,
              few,
              All-front written rest
                  (subst (λ (l : List Person). All IsPerson l) split (Book-All r.book)),
            )
            r.filed;
    };
  }

  save-Carried :
      (filename : Bytes) (writes : ℕ → ℕ) → Carried w a (option_save filename true writes)
  save-Carried filename writes =
      let (code, file, e, kept) = save_entry-Kept writes r.book in go code file e kept
    where
      go :
          (code : ℤ) (file : Option Bytes)
          → save_entry w.cts true writes ≡ ok (code, file)
          → Kept writes a.people code file
          → Carried w a (option_save filename true writes)
      go code none e kept = absurd kept
      go (pos n) (some b) e (zero_code, whole) =
          written-Carried filename writes (pos n) b [] a.people [] e
            (whole ∙ sym (append-nil (images a.people))) (omega arith) (sym (append-nil a.people))
            (inl refl)
      go (negsuc n) (some b) e (code, short, (m, less, front)) =
          let (written, rest, tail, split, parts, few) = take-images m a.people (Book-All r.book) in
          written-Carried filename writes (negsuc n) b tail written rest e (front ∙ parts) few split
            (inr short)

  not_opened-Carried :
      (filename : Bytes) (writes : ℕ → ℕ) → Carried w a (option_save filename false writes)
  unfolding choose save_entry
  not_opened-Carried filename writes = record {
    world = w;
    next = a;
    is = refl;
    step = not_opened;
    represents = r;
  }

  other-Carried : Carried w a other
  unfolding choose
  other-Carried = record { world = w; next = a; is = refl; step = ignores; represents = r }

  pub choose-Carried : (c : Command) → Carried w a c
  choose-Carried (option_insert name phone) = insert-Carried name phone
  choose-Carried option_print = print-Carried
  choose-Carried (option_delete name) = delete-Carried name
  choose-Carried (option_search name) = look-Carried name
  choose-Carried (option_save filename true writes) = save-Carried filename writes
  choose-Carried (option_save filename false writes) = not_opened-Carried filename writes
  choose-Carried (option_load filename) = load-Carried filename
  choose-Carried option_exit = exit-Carried
  choose-Carried other = other-Carried

-- From a world that a catalogue represents, every list of commands is carried out: no null, freed or
-- unknown node is touched, no array is read past its end, and no loop runs out of passes. The
-- catalogue makes the steps of the commands up to the first exit, and represents the world there.
pub menu_function-Steps :
    (cs : List Command) {w : World} {a : Catalogue}
    → Represents w a
    → (w' : World) × (b : Catalogue) × (menu_function cs w ≡ ok w') × Steps a cs b × Represents w' b
unfolding menu_function
menu_function-Steps [] {w} {a} r = (w, a, refl, done, r)
menu_function-Steps (c ∷ cs) {w} {a} r =
    let one = choose-Carried r c in
    elim (Bool-cases (is_exit c)) [
      | inl exit ↦
          (one.world, one.next, rw (one.is, ◌>>=◌, exit), last exit one.step, one.represents)
      | inr onward ↦
          let (w', b, e, steps, r') = menu_function-Steps cs one.represents in
          (w', b, rw (one.is, ◌>>=◌, onward) e, more onward one.step steps, r')
    ]
