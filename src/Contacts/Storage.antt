-- ===== src/Contacts/Storage.antt =====
-- Saving and loading an address book of test2/contacts.cpp, and what the end of the program leaves.
use test_linux.Base.{
  length-take-le, take-all, take-past, ℕ, zero, suc, ◌+◌, ◌%◌, ◌^◌, ◌≡◌, ◌≢◌, ◌<◌, refl, sym, ap,
  subst, ◌∙◌, true, Option, none, some, List, [], ◌++◌, length, All, arith, ok, ◌>>=◌, Bytes, ℤ,
  pos, negsuc, if◌then◌else◌, ◌-◌, ltb, take, length-append, ◌∷◌, append_assoc, inl, inr,
  Bool-cases,
}
use test_linux.Contacts.Persons.{Person}
use test_linux.Contacts.Texts.{IsPerson}
use test_linux.Contacts.Nodes.{Store, put, load, delete_node}
use test_linux.Contacts.Files.{size_person, image, images, save_file, load_file}
use test_linux.Contacts.Entries.{Contacts, save_entry, load_entry, destroy_from, destroy_contacts}
use test_linux.Contacts.Chain.{Entries, has, Chain, nil, cons, frame}
use test_linux.Contacts.Book.{Book, Outcome}
use test_linux.Contacts.Saving.{Saved, save_file-Saved}
use test_linux.Contacts.Loading.{stacked, length-image, load_from-Loaded}

-- What saving a book returns and leaves in the file.
abbrev pub Kept : (ℕ → ℕ) → List Person → ℤ → Option Bytes → Type 0
Kept writes ps code none = ⊥
Kept writes ps code (some b) = Saved writes ps (code, b)

-- Where the file can be opened, `save_entry` returns 0 with the persons of the book in the file, in
-- order, 32 bytes each, unless a `fwrite` is short. Then it returns -2, and the file has a front part
-- of those bytes.
pub save_entry-Kept :
    {c : Contacts} {ps : List Person} (writes : ℕ → ℕ)
    → Book c ps
    → (code : ℤ) × (file : Option Bytes) × (save_entry c true writes ≡ ok (code, file))
      × Kept writes ps code file
unfolding save_entry
save_entry-Kept {c} {ps} writes book =
    let (code, file, e, saved) =
      save_file-Saved {s = c.store} {first = c.first} writes book.shelf in
    go code file e (subst (λ (l : List Person). Saved writes l (code, file)) book.data_of saved)
  where
    go :
        (code : ℤ) (file : Bytes)
        → save_file true writes c.store c.first ≡ ok (code, some file)
        → Saved writes ps (code, file)
        → (code' : ℤ) × (file' : Option Bytes) × (save_entry c true writes ≡ ok (code', file'))
          × Kept writes ps code' file'
    go (pos n) file e saved = (pos 0, some file, ground (arith, e), (refl, saved.1))
    go (negsuc n) file e saved = (negsuc 1, some file, ground (arith, e), (refl, saved.1, saved.2))

-- A front part of the bytes of some persons: the first of the persons, and less than one more.
pub take-images :
    (m : ℕ) (ps : List Person)
    → All IsPerson ps
    → (written rest : List Person) × (tail : Bytes) × (ps ≡ written ++ rest)
      × (take m (images ps) ≡ images written ++ tail)
      × (length tail < size_person)
take-images m [] are = ([], [], [], refl, take-all m [] (omega arith), omega arith)
take-images m (p ∷ ps) are = elim (Bool-cases (ltb m size_person)) [
  | inl less ↦ (
    [],
    p ∷ ps,
    take m (images (p ∷ ps)),
    refl,
    refl,
    ground (arith, length-take-le m (images (p ∷ ps))),
  )
  | inr enough ↦
      let (written, rest, tail, split, front, few) = take-images (m - 32) ps are.1 in
      let e : m ≡ length (image p) + (m - 32) = ground (arith, length-image p are.0) in
      (
        p ∷ written,
        rest,
        tail,
        ap (λ (l : List Person). p ∷ l) split,
        ap (λ (k : ℕ). take k (image p ++ images ps)) e
            ∙ (take-past (m - 32) (image p) (images ps)
                ∙ (ap (λ (b : Bytes). image p ++ b) front
                    ∙ sym (append_assoc (image p) (images written) tail))),
        few,
      )
]

-- Loading a file of saved persons puts them in front, the last one first, and counts them; nothing is
-- refused, duplicates included. A rest of less than 32 bytes at the end is passed over.
pub load_entry-Book :
    {c : Contacts} {ps : List Person} (qs : List Person) (tail : Bytes)
    → Book c ps
    → All IsPerson qs
    → length tail < size_person
    → Outcome (pos 0, stacked qs ps) (load_entry c (some (images qs ++ tail)))
unfolding load_entry load_file
load_entry-Book {c} {ps} qs tail book are few =
    let loaded =
      load_from-Loaded (suc (length (images qs ++ tail))) qs tail c.count book.shelf are few
        (book.counted ∙ ap (λ (l : List Person). length l % 2 ^ 64) (sym book.data_of))
        (omega (arith, length-append (images qs) tail)) in
    (
      record { store = loaded.store; first = loaded.first; count = loaded.count },
      rw (loaded.is, ◌>>=◌),
      record {
        entries = loaded.entries;
        shelf = loaded.shelf;
        data_of = loaded.data_of ∙ ap (λ (l : List Person). stacked qs l) book.data_of;
        counted =
            loaded.counted ∙ ap (λ (l : List Person). length (stacked qs l) % 2 ^ 64) book.data_of;
      },
    )

destroy_from-none :
    (f : ℕ) (s : Store) {prev p : ℕ} {xs : Entries}
    → Chain s.cells prev p xs
    → length xs < f
    → (t : Store) × (destroy_from f s p ≡ ok t)
      × (t.fresh ≡ s.fresh)
      × ((a : ℕ) → t.cells a ≡ (if has a xs then none else s.cells a))
unfolding destroy_from delete_node load
destroy_from-none zero s c h = absurd (omega arith)
destroy_from-none (suc f) s nil h = (s, refl, refl, λ a. refl)
destroy_from-none (suc f) s (cons {p} {q} {d} {xs} ne e out c) h =
    let (t, e', same, gone) =
      destroy_from-none f (record s { cells = put s.cells p none }) (frame c (λ a i. ground arith))
        (omega arith) in
    (t, ground (arith, e'), same, λ a. ground (arith, gone a))

-- On a book, `destroy_contacts` returns without a fault, which a second delete of a node would be;
-- no node is left, and the book is empty.
pub destroy_contacts-Book :
    {c : Contacts} {ps : List Person}
    → Book c ps
    → (d : Contacts) × (destroy_contacts c ≡ ok d)
      × Book d []
      × ((a : ℕ) → a ≢ 0 → d.store.cells a ≡ none)
unfolding destroy_contacts
destroy_contacts-Book {c} book =
    let (t, e, same, gone) =
      destroy_from-none (suc c.store.fresh) c.store book.shelf.chain
        (omega (arith, book.shelf.bounded)) in
    (
      record { store = t; first = 0; count = 0 },
      rw (e, ◌>>=◌),
      record {
        entries = [];
        shelf = record {
          chain = nil;
          owned = λ a ne out. ground (arith, gone a, book.shelf.owned a);
          below = λ a i. cc;
          bounded = omega (arith, book.shelf.bounded, same);
          sane = tt;
        };
        data_of = refl;
        counted = refl;
      },
      λ a ne. ground (arith, gone a, book.shelf.owned a),
    )
