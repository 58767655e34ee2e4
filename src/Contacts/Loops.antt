-- ===== src/Contacts/Loops.antt =====
-- What the loops over the list of test2/contacts.cpp find.
use test_linux.Base.{
  ℕ, zero, suc, ◌<◌, ◌≡◌, ◌≢◌, refl, Bool, false, ◌||◌, List, [], ◌∷◌, length, All, arith, ok,
  Bytes, if◌then◌else◌, some,
}
use test_linux.Contacts.Persons.{Person}
use test_linux.Contacts.Texts.{
  IsText, IsPerson, same_texts, is_named, strcmp_eq-bytes_eq, person_eq-same_texts,
}
use test_linux.Contacts.Nodes.{Node, Store, load, contains_from, search_from, name_search_from}
use test_linux.Contacts.Entries.{traverse_from}
use test_linux.Contacts.Chain.{Entries, has, Chain, nil, cons}

abbrev pub persons : Entries → List Person
persons [] = []
persons ((p, d) ∷ xs) = d ∷ persons xs

-- Whether a person with the same texts is in the list.
abbrev pub known : Person → List Person → Bool
known d [] = false
known d (e ∷ ps) = same_texts d e || known d ps

-- The first node with the name, or the null pointer.
abbrev pub address_of : Bytes → Entries → ℕ
address_of name [] = 0
address_of name ((p, d) ∷ xs) = if is_named name d then p else address_of name xs

pub load-held : (s : Store) (p : ℕ) (n : Node) → p ≢ 0 → s.cells p ≡ some n → load s p ≡ ok n
unfolding load
load-held s p n ne e = ground arith

module _ (s : Store) where
  pub contains_from-has :
      {prev p : ℕ} {xs : Entries} (f item : ℕ)
      → Chain s.cells prev p xs
      → length xs < f
      → contains_from f s item p ≡ ok (has item xs)
  unfolding contains_from
  contains_from-has zero item c h = absurd (omega arith)
  contains_from-has (suc f) item nil h = refl
  contains_from-has (suc f) item (cons {p} {q} {d} {xs} ne e out c) h =
      ground (arith, load-held s p _ ne e, contains_from-has f item c)

  pub search_from-known :
      {prev p : ℕ} {xs : Entries} (f : ℕ) (target : Person)
      → Chain s.cells prev p xs
      → length xs < f
      → IsPerson target
      → All IsPerson (persons xs)
      → search_from f s target p ≡ ok (known target (persons xs))
  unfolding search_from
  search_from-known zero target c h t are = absurd (omega arith)
  search_from-known (suc f) target nil h t are = refl
  search_from-known (suc f) target (cons {p} {q} {d} {xs} ne e out c) h t are = ground (
    arith,
    load-held s p _ ne e,
    person_eq-same_texts target d t are.0,
    search_from-known f target c (omega arith) t are.1,
  )

  pub name_search_from-address_of :
      {prev p : ℕ} {xs : Entries} (f : ℕ) (name : Bytes)
      → Chain s.cells prev p xs
      → length xs < f
      → IsText name
      → All IsPerson (persons xs)
      → name_search_from f s name p ≡ ok (address_of name xs)
  unfolding name_search_from
  name_search_from-address_of zero name c h t are = absurd (omega arith)
  name_search_from-address_of (suc f) name nil h t are = refl
  name_search_from-address_of (suc f) name (cons {p} {q} {d} {xs} ne e out c) h t are = ground (
    arith,
    load-held s p _ ne e,
    strcmp_eq-bytes_eq d.name name are.0.name_text t,
    name_search_from-address_of f name c (omega arith) t are.1,
  )

  pub traverse_from-persons :
      {prev p : ℕ} {xs : Entries} (f : ℕ)
      → Chain s.cells prev p xs
      → length xs < f
      → traverse_from f s p ≡ ok (persons xs)
  unfolding traverse_from
  traverse_from-persons zero c h = absurd (omega arith)
  traverse_from-persons (suc f) nil h = refl
  traverse_from-persons (suc f) (cons {p} {q} {d} {xs} ne e out c) h =
      ground (arith, load-held s p _ ne e, traverse_from-persons f c)
