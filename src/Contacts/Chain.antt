-- ===== src/Contacts/Chain.antt =====
-- The list of test2/contacts.cpp as a chain of nodes, linked both ways.
use test_linux.Base.{
  ℕ, ◌≡◌, ◌≢◌, ◌⊎◌, inl, inr, refl, Bool, true, false, ◌||◌, some, List, [], ◌∷◌, ◌==◌, Bool-cases,
  arith,
}
use test_linux.Contacts.Persons.{Person}
use test_linux.Contacts.Nodes.{Node, Cells}

-- Address and data of each node, in order.
abbrev pub Entries : Type 0
Entries = List (ℕ × Person)

abbrev pub has : ℕ → Entries → Bool
has a [] = false
has a ((p, d) ∷ xs) = (a == p) || has a xs

abbrev pub node : Person → ℕ → ℕ → Node
node d prev next = record { person = d; prev = prev; next = next }

-- From `p`, whose `prev` is the given one, the `next` pointers lead through the distinct nodes `xs` to
-- the null pointer, and each `prev` leads back.
pub data Chain (h : Cells) : (prev p : ℕ) → Entries → Type 0 where
  nil : {prev : ℕ} → Chain h prev 0 []
  cons :
      {prev p q : ℕ} {d : Person} {xs : Entries}
      → p ≢ 0
      → h p ≡ some (node d prev q)
      → has p xs ≡ false
      → Chain h p q xs
      → Chain h prev p ((p, d) ∷ xs)

module _ {h g : Cells} where
  -- A chain survives a change that spares its nodes.
  pub frame :
      {prev p : ℕ} {xs : Entries}
      → Chain h prev p xs
      → ((a : ℕ) → has a xs ≡ true → g a ≡ h a)
      → Chain g prev p xs
  frame nil same = nil
  frame (cons {p} ne e out c) same =
      cons ne (ground (arith, same p)) out (frame c λ a i. same a (ground arith))

  -- A new `prev` of the first node.
  pub relink :
      {prev p : ℕ} {xs : Entries} (prev' : ℕ)
      → Chain h prev p xs
      → ((n : Node) → h p ≡ some n → p ≢ 0 → g p ≡ some (record n { prev = prev' }))
      → ((a : ℕ) → has a xs ≡ true → a ≢ p → g a ≡ h a)
      → Chain g prev' p xs
  relink prev' nil at same = nil
  relink prev' (cons {p} ne e out c) at same =
      cons ne (at _ e ne) out (frame c λ a i. same a (ground arith) (ground arith))

-- The place of a node of the chain: its neighbours are in the chain, or the ends.
pub record Place (h : Cells) (prev p : ℕ) (xs : Entries) (item : ℕ) : Type 0 where
  pub at : Node
  pub ne_null : item ≢ 0
  pub holds : h item ≡ some at
  pub first : item ≡ p → at.prev ≡ prev
  pub later : item ≢ p → has at.prev xs ≡ true
  pub behind : (at.next ≡ 0) ⊎ (has at.next xs ≡ true)
  pub apart : (at.next ≢ item) × (at.prev ≢ item) × (at.prev ≡ at.next → at.next ≡ 0)

pub null_out : {h : Cells} {prev p : ℕ} {xs : Entries} → Chain h prev p xs → has 0 xs ≡ false
null_out nil = refl
null_out (cons ne e out c) = ground (arith, null_out c)

pub head_in :
    {h : Cells} {prev p : ℕ} {xs : Entries} → Chain h prev p xs → (p ≡ 0) ⊎ (has p xs ≡ true)
head_in nil = inl refl
head_in (cons ne e out c) = inr (ground arith)

pub null_empty : {h : Cells} {prev p : ℕ} {xs : Entries} → Chain h prev p xs → p ≡ 0 → xs ≡ []
null_empty nil e = refl
null_empty (cons ne e out c) e' = absurd (ne e')

pub place :
    {h : Cells} {prev p : ℕ} {xs : Entries} (item : ℕ)
    → Chain h prev p xs
    → has prev xs ≡ false
    → has item xs ≡ true
    → Place h prev p xs item
place item nil outside i = cc
place {h} item (cons {prev} {p} {q} {d} {xs} ne e out c) outside i = elim (Bool-cases (item == p)) [
  | inl here ↦ at_head here (head_in c)
  | inr other ↦ deeper other (place item c out (ground arith))
]
  where
    at_head : (item == p) ≡ true → (q ≡ 0) ⊎ (has q xs ≡ true) → Place h prev p ((p, d) ∷ xs) item
    at_head here next = record {
      at = node d prev q;
      ne_null = ground arith;
      holds = ground arith;
      first = λ _. refl;
      later = λ no'. ground arith;
      behind = ground arith;
      apart = (ground arith, ground arith, λ same. ground arith);
    }

    deeper : (item == p) ≡ false → Place h p q xs item → Place h prev p ((p, d) ∷ xs) item
    deeper other rest = record {
      at = rest.at;
      ne_null = rest.ne_null;
      holds = rest.holds;
      first = λ same. ground arith;
      later = λ different. elim (Bool-cases (item == q)) [
        | inl next ↦ ground (arith, rest.first)
        | inr far ↦ ground (arith, rest.later)
      ];
      behind = ground arith;
      apart = rest.apart;
    }
