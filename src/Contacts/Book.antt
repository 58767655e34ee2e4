-- ===== src/Contacts/Book.antt =====
-- The address book that the list of test2/contacts.cpp stands for, and what insertion and deletion
-- make of it.
use test_linux.Base.{
  ℕ, suc, ◌+◌, ◌%◌, ◌^◌, ◌<◌, ◌≡◌, ◌≢◌, refl, ap, ◌∙◌, true, false, none, some, List, [], ◌∷◌,
  Bool-cases, inl, inr, length, All, arith, Run, ok, Bytes, ℤ, pos, negsuc, if◌then◌else◌,
}
use test_linux.Contacts.Persons.{Person, new_person}
use test_linux.Contacts.Texts.{IsPerson, new_person-IsPerson}
use test_linux.Contacts.Nodes.{Store, put, load, new_node, delete_node, insert, search_data}
use test_linux.Contacts.Entries.{Contacts, insert_entry}
use test_linux.Contacts.Chain.{Entries, has, node, Chain, frame}
use test_linux.Contacts.Unlink.{insert-Chain}
use test_linux.Contacts.Loops.{persons, known, search_from-known}

-- The list has the persons in order, `count` is their number, and there is no other node: none has
-- been lost, and none that is freed is reached.
pub record Shelf (s : Store) (first : ℕ) (xs : Entries) : Type 0 where
  pub chain : Chain s.cells 0 first xs
  pub owned : (a : ℕ) → a ≢ 0 → has a xs ≡ false → s.cells a ≡ none
  pub below : (a : ℕ) → has a xs ≡ true → a < s.fresh
  pub bounded : length xs < s.fresh
  pub sane : All IsPerson (persons xs)

pub record Book (c : Contacts) (ps : List Person) : Type 0 where
  pub entries : Entries
  pub shelf : Shelf c.store c.first entries
  pub data_of : persons entries ≡ ps
  pub counted : c.count ≡ length ps % 2 ^ 64

pub length-persons : (xs : Entries) → length (persons xs) ≡ length xs
length-persons [] = refl
length-persons ((p, d) ∷ xs) = ap suc (length-persons xs)

module _ {s : Store} {first : ℕ} {xs : Entries} (shelf : Shelf s first xs) where
  pub fresh_out : has s.fresh xs ≡ false
  fresh_out = elim (Bool-cases (has s.fresh xs)) [
    | inl i ↦ absurd (omega (arith, shelf.below s.fresh i))
    | inr out ↦ out
  ]

  -- A new node in front.
  pub Shelf-insert :
      (d : Person)
      → IsPerson d
      → (t : Store) × (insert ((new_node s d).1) s.fresh first ≡ ok (pos 0, s.fresh, t))
        × Shelf t s.fresh ((s.fresh, d) ∷ xs)
  unfolding new_node
  Shelf-insert d is =
      let ne : s.fresh ≢ 0 = omega (arith, shelf.bounded) in
      let c : Chain (put s.cells s.fresh (some (node d 0 0))) 0 first xs =
        frame shelf.chain (λ a i. ground (arith, fresh_out)) in
      let (t, e, c', same, rest) =
        insert-Chain {s = (new_node s d).1} s.fresh d (node d 0 0) c ne (ground arith) fresh_out in
      (
        t,
        e,
        record {
          chain = c';
          owned = λ a ne' out. ground (arith, rest a, shelf.owned a);
          below = λ a i. ground (arith, shelf.below a);
          bounded = omega (arith, shelf.bounded, same);
          sane = (is, shelf.sane);
        },
      )

  -- The new node is in no list when the search for a duplicate runs.
  pub search-new :
      (d : Person) → IsPerson d → search_data ((new_node s d).1) d first ≡ ok (known d (persons xs))
  unfolding new_node search_data
  search-new d is =
      search_from-known ((new_node s d).1) (suc (suc s.fresh)) d
        (frame shelf.chain (λ a i. ground (arith, fresh_out))) (omega (arith, shelf.bounded)) is
        shelf.sane

  -- A duplicate's node is freed at once.
  pub Shelf-drop :
      (d : Person)
      → (t : Store) × (delete_node ((new_node s d).1) s.fresh ≡ ok t) × Shelf t first xs
  unfolding new_node delete_node load
  Shelf-drop d =
      let ne : s.fresh ≢ 0 = omega (arith, shelf.bounded) in
      (
        record {
          cells = put (put s.cells s.fresh (some (node d 0 0))) s.fresh none;
          fresh = suc s.fresh;
        },
        ground arith,
        record {
          chain = frame shelf.chain (λ a i. ground (arith, fresh_out));
          owned = λ a ne' out. ground (arith, shelf.owned a);
          below = λ a i. ground (arith, shelf.below a);
          bounded = omega (arith, shelf.bounded);
          sane = shelf.sane;
        },
      )

-- What an insertion returns, and what it makes of the book: it refuses a person with the same texts
-- as one that is there.
abbrev pub insert_spec : Person → List Person → ℤ × List Person
insert_spec d ps = if known d ps then (negsuc 3, ps) else (pos 0, d ∷ ps)

abbrev pub Outcome : ℤ × List Person → Run (ℤ × Contacts) → Type 0
Outcome (code, ps) r = (c : Contacts) × (r ≡ ok (code, c)) × Book c ps

-- On a book, `insert_entry` returns without a fault. A person with the same texts as one that is
-- there gives -4 and leaves the persons as they were; any other gives 0, stands in front, and is
-- counted. The list is well linked afterwards, and no node is lost.
pub insert_entry-Book :
    {c : Contacts} {ps : List Person} (name phone : Bytes)
    → Book c ps
    → Outcome (insert_spec (new_person name phone) ps) (insert_entry c name phone)
unfolding insert_entry new_node
insert_entry-Book {c} {ps} name phone book = elim (Bool-cases (known d ps)) [
  | inl old ↦
      let (t, e, shelf') = Shelf-drop book.shelf d in
      rw old (
        record c { store = t },
        ground (arith, searched, e),
        record {
          entries = book.entries;
          shelf = shelf';
          data_of = book.data_of;
          counted = book.counted;
        },
      )
  | inr new ↦
      let (t, e, shelf') = Shelf-insert book.shelf d is in
      rw new (
        record { store = t; first = c.store.fresh; count = (c.count + 1) % 2 ^ 64 },
        ground (arith, searched, e),
        record {
          entries = (c.store.fresh, d) ∷ book.entries;
          shelf = shelf';
          data_of = ap (λ (l : List Person). d ∷ l) book.data_of;
          counted = omega (arith, book.counted);
        },
      )
]
  where
    d : Person
    d = new_person name phone

    is : IsPerson d
    is = new_person-IsPerson name phone

    searched : search_data ((new_node c.store d).1) d c.first ≡ ok (known d ps)
    searched = search-new book.shelf d is ∙ ap (λ (l : List Person). ok (known d l)) book.data_of
