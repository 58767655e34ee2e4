-- ===== src/Contacts/Without.antt =====
-- Entries of the list of test2/contacts.cpp without a node, and the ends of a search by name.
use test_linux.Base.{
  ℕ, ◌+◌, ◌≡◌, ◌≢◌, refl, true, false, Option, none, some, List, [], ◌∷◌, ◌==◌, Bool-cases, inl,
  inr, ◌⊎◌, length, All, arith, Bytes, if◌then◌else◌,
}
use test_linux.Contacts.Persons.{Person}
use test_linux.Contacts.Texts.{IsPerson, is_named}
use test_linux.Contacts.Nodes.{Node, Cells}
use test_linux.Contacts.Chain.{Entries, has, node, Chain, nil, cons}
use test_linux.Contacts.Unlink.{without}
use test_linux.Contacts.Loops.{persons, address_of}

pub has-without_ne : (a b : ℕ) (xs : Entries) → a ≢ b → has a (without b xs) ≡ has a xs
has-without_ne a b [] ne = refl
has-without_ne a b ((p, d) ∷ xs) ne = elim (Bool-cases (b == p)) [
  | inl e ↦ rw (e, without) (ground arith)
  | inr e ↦ rw (e, without) (ground (arith, has-without_ne a b xs ne))
]

pub without_out :
    {h : Cells} {prev p : ℕ} {xs : Entries} (b : ℕ)
    → Chain h prev p xs
    → has b (without b xs) ≡ false
without_out b nil = refl
without_out b (cons {p} ne e out c) = elim (Bool-cases (b == p)) [
  | inl e' ↦ rw (e', without) (ground arith)
  | inr e' ↦ rw (e', without) (ground (arith, without_out b c))
]

pub length-without :
    (b : ℕ) (xs : Entries) → has b xs ≡ true → length (without b xs) + 1 ≡ length xs
length-without b [] i = cc
length-without b ((p, d) ∷ xs) i = elim (Bool-cases (b == p)) [
  | inl e ↦ rw (e, without) (omega arith)
  | inr e ↦ rw (e, without) (ground (arith, length-without b xs))
]

pub All-without :
    (b : ℕ) (xs : Entries) → All IsPerson (persons xs) → All IsPerson (persons (without b xs))
All-without b [] are = tt
All-without b ((p, d) ∷ xs) are = elim (Bool-cases (b == p)) [
  | inl e ↦ rw (e, without) are.1
  | inr e ↦ rw (e, without) (are.0, All-without b xs are.1)
]

-- The first person with the name is taken out; none if there is none.
abbrev pub drop_named : Bytes → List Person → Option (List Person)
drop_named name [] = none
drop_named name (p ∷ ps) =
    if is_named name p
    then some ps
    else elim (drop_named name ps) [ none ↦ none | some rest ↦ some (p ∷ rest) ]

abbrev pub first_named : Bytes → List Person → Option Person
first_named name [] = none
first_named name (p ∷ ps) = if is_named name p then some p else first_named name ps

-- The two ends of a search by name.
pub record Missing (name : Bytes) (xs : Entries) : Type 0 where
  pub null : address_of name xs ≡ 0
  pub nothing : drop_named name (persons xs) ≡ none
  pub nobody : first_named name (persons xs) ≡ none

pub record Present (h : Cells) (name : Bytes) (xs : Entries) : Type 0 where
  pub inside : has (address_of name xs) xs ≡ true
  pub some_node : Node
  pub held : h (address_of name xs) ≡ some some_node
  pub is : first_named name (persons xs) ≡ some some_node.person
  pub dropped : drop_named name (persons xs) ≡ some (persons (without (address_of name xs) xs))

pub search-cases :
    {h : Cells} {prev p : ℕ} {xs : Entries} (name : Bytes)
    → Chain h prev p xs
    → Missing name xs ⊎ Present h name xs
search-cases name nil = inl (record { null = refl; nothing = refl; nobody = refl })
search-cases {h} name (cons {prev} {p} {q} {d} {xs} ne e out c) =
    elim (Bool-cases (is_named name d)) [
      | inl here ↦ inr (record {
        inside = ground arith;
        some_node = node d prev q;
        held = rw here e;
        is = rw here refl;
        dropped = ground arith;
      })
      | inr other ↦ later other (search-cases name c)
    ]
  where
    later :
        is_named name d ≡ false
        → Missing name xs ⊎ Present h name xs
        → Missing name ((p, d) ∷ xs) ⊎ Present h name ((p, d) ∷ xs)
    later other (inl m) = inl (record {
      null = rw other m.null;
      nothing = ground (arith, m.nothing);
      nobody = rw other m.nobody;
    })
    later other (inr m) = inr (record {
      inside = ground (arith, m.inside);
      some_node = m.some_node;
      held = rw other m.held;
      is = rw other m.is;
      dropped = ground (arith, m.inside, m.dropped);
    })
