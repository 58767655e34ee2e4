-- ===== src/Contacts/Loading.antt =====
-- What `load_file` of test2/contacts.cpp makes of a file that was saved, in whole or in part.
use test_linux.Base.{
  ℕ, zero, suc, ◌+◌, ◌%◌, ◌^◌, ◌<◌, ◌≤◌, ◌≡◌, refl, sym, ap, ap₂, ◌∙◌, true, List, [], ◌∷◌, ◌++◌,
  length, take, drop, take-append, drop-append, length-append, All, arith, leb, le→leb, Run, ok,
  ◌>>=◌, Bytes, append_assoc, false,
}
use test_linux.Contacts.Persons.{Person}
use test_linux.Contacts.Texts.{IsPerson}
use test_linux.Contacts.Nodes.{Store, new_node}
use test_linux.Contacts.Files.{
  size_buffer_p, size_person, image, images, person_of, read_items, insert_items, load_from,
}
use test_linux.Contacts.Chain.{Entries}
use test_linux.Contacts.Loops.{persons}
use test_linux.Contacts.Book.{Shelf, Shelf-insert}

-- Persons are put in front one by one, so the last ends up first.
abbrev pub stacked : List Person → List Person → List Person
stacked [] qs = qs
stacked (p ∷ ps) qs = stacked ps (p ∷ qs)

pub length-image : (p : Person) → IsPerson p → length (image p) ≡ 32
length-image p is = omega (arith, length-append p.name p.phone, is.name_size, is.phone_size)

take-front : (n : ℕ) (xs ys : Bytes) → length xs ≡ n → take n (xs ++ ys) ≡ xs
take-front n xs ys e = ap (λ (k : ℕ). take k (xs ++ ys)) (sym e) ∙ take-append xs ys

drop-front : (n : ℕ) (xs ys : Bytes) → length xs ≡ n → drop n (xs ++ ys) ≡ ys
drop-front n xs ys e = ap (λ (k : ℕ). drop k (xs ++ ys)) (sym e) ∙ drop-append xs ys

-- A person's bytes are read back as the person.
person_of-image : (p : Person) → IsPerson p → person_of (image p) ≡ p
person_of-image p is =
    ap₂ (λ (n f : Bytes). record { name = n; phone = f })
      (take-front 16 p.name p.phone is.name_size) (drop-front 16 p.name p.phone is.name_size)

-- A rest of less than an item is used up, or left for the next `fread`.
read_items-images :
    (n : ℕ) (ps : List Person) (tail : Bytes)
    → All IsPerson ps
    → length tail < size_person
    → (left : Bytes) × (length left ≤ length tail)
      × (read_items n (images ps ++ tail) ≡ (take n ps, images (drop n ps) ++ left))
unfolding read_items
read_items-images zero ps tail are h = (tail, omega arith, refl)
read_items-images (suc n) [] tail are h =
    let few : leb 32 (length tail) ≡ false = ground arith in ([], omega arith, rw few refl)
read_items-images (suc n) (p ∷ ps) tail are h =
    let size = length-image p are.0 in
    let (left, le, e) = read_items-images n ps tail are.1 h in
    let fits : leb 32 (length (image p ++ (images ps ++ tail))) ≡ true =
      le→leb _ _ (omega (arith, length-append (image p) (images ps ++ tail))) in
    (
      left,
      le,
      rw (
        append_assoc (image p) (images ps) tail,
        fits,
        take-front 32 (image p) (images ps ++ tail) size,
        drop-front 32 (image p) (images ps ++ tail) size,
        person_of-image p are.0,
        e,
      ),
    )

All-take : (n : ℕ) (ps : List Person) → All IsPerson ps → All IsPerson (take n ps)
All-take zero ps are = tt
All-take (suc n) [] are = tt
All-take (suc n) (p ∷ ps) are = (are.0, All-take n ps are.1)

All-drop : (n : ℕ) (ps : List Person) → All IsPerson ps → All IsPerson (drop n ps)
All-drop zero ps are = are
All-drop (suc n) [] are = tt
All-drop (suc n) (p ∷ ps) are = All-drop n ps are.1

stacked-take-drop :
    (n : ℕ) (ps qs : List Person) → stacked (drop n ps) (stacked (take n ps) qs) ≡ stacked ps qs
stacked-take-drop zero ps qs = refl
stacked-take-drop (suc n) [] qs = refl
stacked-take-drop (suc n) (p ∷ ps) qs = stacked-take-drop n ps (p ∷ qs)

length-images-drop : (n : ℕ) (ps : List Person) → length (images (drop n ps)) ≤ length (images ps)
length-images-drop zero ps = omega arith
length-images-drop (suc n) [] = omega arith
length-images-drop (suc n) (p ∷ ps) =
    omega (arith, length-append (image p) (images ps), length-images-drop n ps)

-- Where a loading loop ends: the persons stand in front of those that were there.
pub record Loaded (qs : List Person) (r : Run (ℕ × ℕ × Store)) : Type 0 where
  pub first : ℕ
  pub count : ℕ
  pub store : Store
  pub entries : Entries
  pub is : r ≡ ok (first, count, store)
  pub shelf : Shelf store first entries
  pub data_of : persons entries ≡ qs
  pub counted : count ≡ length qs % 2 ^ 64

insert_items-Loaded :
    (ps : List Person) {s : Store} {first : ℕ} {xs : Entries} (count : ℕ)
    → Shelf s first xs
    → All IsPerson ps
    → count ≡ length (persons xs) % 2 ^ 64
    → Loaded (stacked ps (persons xs)) (insert_items ps s first count)
unfolding insert_items new_node
insert_items-Loaded [] {s} {first} {xs} count shelf are counted = record {
  first = first;
  count = count;
  store = s;
  entries = xs;
  is = refl;
  shelf = shelf;
  data_of = refl;
  counted = counted;
}
insert_items-Loaded (p ∷ ps) {s} {first} {xs} count shelf are counted =
    let (t, e, shelf') = Shelf-insert shelf p are.0 in
    let rest =
      insert_items-Loaded ps ((count + 1) % 2 ^ 64) shelf' are.1 (omega (arith, counted)) in
    record {
      first = rest.first;
      count = rest.count;
      store = rest.store;
      entries = rest.entries;
      is = ground (arith, e, rest.is);
      shelf = rest.shelf;
      data_of = rest.data_of;
      counted = rest.counted;
    }

load_from-step :
    (f : ℕ) (b : Bytes) (s : Store) (first count : ℕ) {rest : Bytes} {p : Person}
    {more : List Person} {t : Store} {first' count' : ℕ} {r : Run (ℕ × ℕ × Store)}
    → read_items size_buffer_p b ≡ (p ∷ more, rest)
    → insert_items (p ∷ more) s first count ≡ ok (first', count', t)
    → load_from f rest t first' count' ≡ r
    → load_from (suc f) b s first count ≡ r
unfolding load_from
load_from-step f b s first count read inserted loaded =
    rw (read, load_from, inserted, ◌>>=◌, ap (λ (r : List Person × Bytes). r.1) read) loaded

load_from-end :
    (f : ℕ) (b : Bytes) (s : Store) (first count : ℕ) {rest : Bytes}
    → read_items size_buffer_p b ≡ ([], rest)
    → load_from (suc f) b s first count ≡ ok (first, count, s)
unfolding load_from
load_from-end f b s first count read = rw (read, load_from)

pub load_from-Loaded :
    (f : ℕ) (ps : List Person) (tail : Bytes) {s : Store} {first : ℕ} {xs : Entries} (count : ℕ)
    → Shelf s first xs
    → All IsPerson ps
    → length tail < size_person
    → count ≡ length (persons xs) % 2 ^ 64
    → length (images ps) < f
    → Loaded (stacked ps (persons xs)) (load_from f (images ps ++ tail) s first count)
load_from-Loaded zero ps tail count shelf are few counted h = absurd (omega arith)
load_from-Loaded (suc f) [] tail {s} {first} {xs} count shelf are few counted h =
    let (left, le, read) = read_items-images size_buffer_p [] tail are few in
    record {
      first = first;
      count = count;
      store = s;
      entries = xs;
      is = load_from-end f tail s first count read;
      shelf = shelf;
      data_of = refl;
      counted = counted;
    }
load_from-Loaded (suc f) (p ∷ ps) tail {s} {first} {xs} count shelf are few counted h =
    let (left, le, read) = read_items-images size_buffer_p (p ∷ ps) tail are few in
    let some_of =
      insert_items-Loaded (p ∷ take 63 ps) count shelf (are.0, All-take 63 ps are.1) counted in
    let rest =
      load_from-Loaded f (drop 63 ps) left some_of.count some_of.shelf (All-drop 63 ps are.1)
        (omega arith)
        (some_of.counted ∙ ap (λ (l : List Person). length l % 2 ^ 64) (sym some_of.data_of))
        (omega (
          arith,
          length-image p are.0,
          length-append (image p) (images ps),
          length-images-drop 63 ps,
        )) in
    record {
      first = rest.first;
      count = rest.count;
      store = rest.store;
      entries = rest.entries;
      is = load_from-step f (images (p ∷ ps) ++ tail) s first count read some_of.is rest.is;
      shelf = rest.shelf;
      data_of =
          rest.data_of
          ∙ ap (λ (l : List Person). stacked (drop 63 ps) l) some_of.data_of
          ∙ stacked-take-drop 64 (p ∷ ps) (persons xs);
      counted =
          rest.counted
          ∙ ap (λ (l : List Person). length (stacked (drop 63 ps) l) % 2 ^ 64) some_of.data_of
          ∙ ap (λ (l : List Person). length l % 2 ^ 64)
              (stacked-take-drop 64 (p ∷ ps) (persons xs));
    }
