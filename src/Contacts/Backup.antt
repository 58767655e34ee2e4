-- ===== src/Contacts/Backup.antt =====
-- A book of test2/contacts.cpp that is saved and loaded again.
use test_linux.Base.{
  ℕ, ◌≡◌, refl, sym, ap, subst, ◌∙◌, true, Option, none, some, List, [], ◌∷◌, ◌++◌, append_assoc,
  ok, Bytes, ℤ, pos, negsuc, length, ◌≤◌, arith, append-nil,
}
use mathlib.Core.List.{reverse, reverse-cons}
use test_linux.Contacts.Persons.{Person}
use test_linux.Contacts.Files.{images}
use test_linux.Contacts.Entries.{Contacts, save_entry, load_entry}
use test_linux.Contacts.Book.{Book, Outcome}
use test_linux.Contacts.Catalogue.{Book-All}
use test_linux.Contacts.Loading.{stacked}
use test_linux.Contacts.Storage.{Kept, save_entry-Kept, load_entry-Book}

stacked-reverse : (ps qs : List Person) → stacked ps qs ≡ reverse ps ++ qs
stacked-reverse [] qs = refl
stacked-reverse (p ∷ ps) qs =
    stacked-reverse ps (p ∷ qs)
    ∙ (sym (append_assoc (reverse ps) (p ∷ []) qs)
        ∙ ap (λ (l : List Person). l ++ qs) (sym (reverse-cons p ps)))

-- Where every `fwrite` can write as many bytes as the persons of the book have, a book that is saved is loaded into another book without
-- loss: `save_entry` returns 0, and loading its file returns 0 and puts the persons, in reverse order
-- and with all bytes of their arrays, in front of those of the other book.
pub load_entry-save_entry :
    {c d : Contacts} {ps qs : List Person} (writes : ℕ → ℕ)
    → ((k : ℕ) → length (images ps) ≤ writes k)
    → Book c ps
    → Book d qs
    → (file : Option Bytes) × (save_entry c true writes ≡ ok (pos 0, file))
      × Outcome (pos 0, reverse ps ++ qs) (load_entry d file)
load_entry-save_entry {c} {d} {ps} {qs} writes all book other =
    let (code, file, e, kept) = save_entry-Kept writes book in go code file e kept
  where
    go :
        (code : ℤ) (file : Option Bytes)
        → save_entry c true writes ≡ ok (code, file)
        → Kept writes ps code file
        → (file' : Option Bytes) × (save_entry c true writes ≡ ok (pos 0, file'))
          × Outcome (pos 0, reverse ps ++ qs) (load_entry d file')
    go code none e kept = absurd kept
    go (pos n) (some b) e (zero_code, whole) = (
      some (images ps),
      rw (sym zero_code, sym whole) e,
      subst (λ (l : List Person). Outcome (pos 0, l) (load_entry d (some (images ps))))
          (stacked-reverse ps qs)
          (subst (λ (b : Bytes). Outcome (pos 0, stacked ps qs) (load_entry d (some b)))
            (append-nil (images ps)) (load_entry-Book ps [] other (Book-All book) (omega arith))),
    )
    go (negsuc n) (some b) e (code, (k, short), front) = absurd (omega (arith, all k, short))
