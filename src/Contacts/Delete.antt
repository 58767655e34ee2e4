-- ===== src/Contacts/Delete.antt =====
-- `delete_entry`, `search_entry` and `print_entry` of test2/contacts.cpp on the address book.
use test_linux.Base.{
  ℕ, suc, ◌+◌, ◌-◌, ◌%◌, ◌^◌, ◌≡◌, refl, sym, ap, ◌∙◌, true, Option, none, some, List, inl, inr,
  ◌⊎◌, length, arith, ok, Bytes, ℤ, pos, negsuc,
}
use test_linux.Contacts.Persons.{Person, array}
use test_linux.Contacts.Texts.{array-IsText}
use test_linux.Contacts.Nodes.{Store, put, load, delete_node, remove, contains, person_name_search}
use test_linux.Contacts.Entries.{Contacts, delete_entry, search_entry, print_entry}
use test_linux.Contacts.Chain.{Entries, has, frame, place, null_out}
use test_linux.Contacts.Unlink.{without, has-without, unlink-Chain}
use test_linux.Contacts.Loops.{
  persons, address_of, load-held, contains_from-has, name_search_from-address_of,
  traverse_from-persons,
}
use test_linux.Contacts.Book.{Shelf, Book, Outcome, length-persons}
use test_linux.Contacts.Without.{
  has-without_ne, without_out, length-without, All-without, drop_named, first_named, Missing,
  Present, search-cases,
}

module _ {s : Store} {first : ℕ} {xs : Entries} (shelf : Shelf s first xs) where
  -- A node of the list is taken out and freed.
  pub Shelf-delete :
      (item : ℕ)
      → has item xs ≡ true
      → (t u : Store) × (q : ℕ) × (remove s item first ≡ ok (pos 0, q, t))
        × (delete_node t item ≡ ok u)
        × Shelf u q (without item xs)
  unfolding remove contains delete_node load
  Shelf-delete item i =
      let pl = place item shelf.chain (null_out shelf.chain) i in
      let (t, q, e, c, same, (n, held), rest) = unlink-Chain {s = s} item shelf.chain i in
      let found =
        contains_from-has s (suc s.fresh) item shelf.chain (omega (arith, shelf.bounded)) in
      (
        t,
        record t { cells = put t.cells item none },
        q,
        ground (arith, found, e, pl.ne_null),
        ground (arith, pl.ne_null),
        record {
          chain = frame c (λ a i'. ground (arith, without_out item shelf.chain));
          owned = λ a ne out. ground (arith, has-without_ne a item xs, rest a, shelf.owned a);
          below = λ a i'. ground (arith, has-without a item xs, shelf.below a);
          bounded = omega (arith, shelf.bounded, length-without item xs i, same);
          sane = All-without item xs shelf.sane;
        },
      )

  pub searched :
      (name : Bytes)
      → person_name_search s (array 15 name) first ≡ ok (address_of (array 15 name) xs)
  unfolding person_name_search
  searched name =
      name_search_from-address_of s (suc s.fresh) (array 15 name) shelf.chain
        (omega (arith, shelf.bounded)) (array-IsText 15 name) shelf.sane

-- What a deletion returns, and what it makes of the book.
abbrev pub delete_spec : Bytes → List Person → ℤ × List Person
delete_spec name ps = elim (drop_named name ps) [
  | none ↦ (negsuc 1, ps)
  | some rest ↦ (pos 0, rest)
]

-- On a book, `delete_entry` returns without a fault: -2 and the same persons where none has the name,
-- cut to 15 bytes; else 0, and the first person with the name is taken out, its node is freed, and the
-- list is well linked afterwards.
pub delete_entry-Book :
    {c : Contacts} {ps : List Person} (name : Bytes)
    → Book c ps
    → Outcome (delete_spec (array 15 name) ps) (delete_entry c name)
unfolding delete_entry
delete_entry-Book {c} {ps} name book = go (search-cases (array 15 name) book.shelf.chain)
  where
    xs : Entries
    xs = book.entries

    item : ℕ
    item = address_of (array 15 name) xs

    go :
        Missing (array 15 name) xs ⊎ Present c.store.cells (array 15 name) xs
        → Outcome (delete_spec (array 15 name) ps) (delete_entry c name)
    go (inl m) =
        let nothing : drop_named (array 15 name) ps ≡ none =
          ap (λ (l : List Person). drop_named (array 15 name) l) (sym book.data_of) ∙ m.nothing in
        rw (nothing, delete_spec) (c, ground (arith, searched book.shelf name, m.null), book)
    go (inr m) =
        let (t, u, q, e, e', shelf') = Shelf-delete book.shelf item m.inside in
        let pl = place item book.shelf.chain (null_out book.shelf.chain) m.inside in
        let dropped : drop_named (array 15 name) ps ≡ some (persons (without item xs)) =
          ap (λ (l : List Person). drop_named (array 15 name) l) (sym book.data_of) ∙ m.dropped in
        rw (dropped, delete_spec)
          (
            record { store = u; first = q; count = (c.count + 2 ^ 64 - 1) % 2 ^ 64 },
            ground (arith, searched book.shelf name, e, e', pl.ne_null),
            record {
              entries = without item xs;
              shelf = shelf';
              data_of = refl;
              counted = omega (
                arith,
                book.counted,
                length-persons xs,
                length-persons (without item xs),
                length-without item xs m.inside,
                ap length book.data_of,
              );
            },
          )

-- What a search returns and prints.
abbrev pub search_spec : Bytes → List Person → ℤ × Option Person
search_spec name ps = elim (first_named name ps) [
  | none ↦ (negsuc 1, none)
  | some p ↦ (pos 0, some p)
]

-- On a book, `search_entry` returns -2 where no person has the name, cut to 15 bytes; else 0, and it
-- prints the first person that has it.
pub search_entry-Book :
    {c : Contacts} {ps : List Person} (name : Bytes)
    → Book c ps
    → search_entry c name ≡ ok (search_spec (array 15 name) ps)
unfolding search_entry
search_entry-Book {c} {ps} name book = go (search-cases (array 15 name) book.shelf.chain)
  where
    xs : Entries
    xs = book.entries

    item : ℕ
    item = address_of (array 15 name) xs

    go :
        Missing (array 15 name) xs ⊎ Present c.store.cells (array 15 name) xs
        → search_entry c name ≡ ok (search_spec (array 15 name) ps)
    go (inl m) =
        let nobody : first_named (array 15 name) ps ≡ none =
          ap (λ (l : List Person). first_named (array 15 name) l) (sym book.data_of) ∙ m.nobody in
        rw (nobody, search_spec) (ground (arith, searched book.shelf name, m.null))
    go (inr m) =
        let pl = place item book.shelf.chain (null_out book.shelf.chain) m.inside in
        let is : first_named (array 15 name) ps ≡ some m.some_node.person =
          ap (λ (l : List Person). first_named (array 15 name) l) (sym book.data_of) ∙ m.is in
        rw (is, search_spec)
          (ground (
            arith,
            searched book.shelf name,
            load-held c.store item m.some_node pl.ne_null m.held,
            pl.ne_null,
          ))

pub print_entry-Book : {c : Contacts} {ps : List Person} → Book c ps → print_entry c ≡ ok ps
unfolding print_entry
print_entry-Book {c} book =
    traverse_from-persons c.store (suc c.store.fresh) book.shelf.chain
      (omega (arith, book.shelf.bounded))
    ∙ ap ok book.data_of
