-- ===== src/Contacts/Nodes.antt =====
-- `Node` of test2/contacts.cpp: the doubly linked list, over a store of nodes. An address is a
-- number, and 0 is the null pointer. `new` hands out addresses in turn, and never one twice. A loop
-- over the list has a pass for each node that was ever made, and one more.
use test_linux.Base.{
  ℕ, zero, suc, Bool, true, false, Option, none, some, ◌==◌, ℤ, pos, negsuc, Run, ok, fault,
  out_of_fuel, ◌>>=◌, or_fault, if◌then◌else◌,
}
use test_linux.Contacts.Persons.{Person, strcmp_eq, person_eq}
use test_linux.Base.{Bytes}

pub record Node : Type 0 where
  pub person : Person
  pub prev : ℕ
  pub next : ℕ

abbrev pub Cells : Type 0
Cells = ℕ → Option Node

pub record Store : Type 0 where
  pub cells : Cells
  pub fresh : ℕ  -- the address that `new` returns next

abbrev pub put : Cells → ℕ → Option Node → Cells
put h p n a = if a == p then n else h a

unfoldable pub load : Store → ℕ → Run Node
load s p = if p == 0 then fault else or_fault (s.cells p)

-- `new PNode()` and the data that is written into the node.
unfoldable pub new_node : Store → Person → ℕ × Store
new_node s person = (
  s.fresh,
  record {
    cells = put s.cells s.fresh (some (record { person = person; prev = 0; next = 0 }));
    fresh = suc s.fresh;
  },
)

unfoldable pub delete_node : Store → ℕ → Run Store
unfolding load
delete_node s p = do _ ← load s p; ok (record s { cells = put s.cells p none })

unfoldable pub set_prev : Store → ℕ → ℕ → Run Store
unfolding load
set_prev s p x = do
  n ← load s p
  ok (record s { cells = put s.cells p (some (record n { prev = x })) })

unfoldable pub set_next : Store → ℕ → ℕ → Run Store
unfolding load
set_next s p x = do
  n ← load s p
  ok (record s { cells = put s.cells p (some (record n { next = x })) })

-- `Node::insert`: the result is the code, `first` and the store.
unfoldable pub insert : Store → (item first : ℕ) → Run (ℤ × ℕ × Store)
unfolding set_prev set_next
insert s item first =
    if item == 0
    then ok (negsuc 0, first, s)
    else if first == 0
    then (do s ← set_next s item 0; s ← set_prev s item 0; ok (pos 0, item, s))
    else (do
      s ← set_next s item first
      s ← set_prev s item 0
      s ← set_prev s first item
      ok (pos 0, item, s))

-- The loop of `Node::contains`.
unfoldable pub contains_from : ℕ → Store → (item ptr : ℕ) → Run Bool
unfolding load
contains_from zero s item ptr = out_of_fuel
contains_from (suc f) s item ptr = elim (ptr == 0) [
  | true ↦ ok false
  | false ↦ elim (ptr == item) [
    | true ↦ ok true
    | false ↦ do n ← load s ptr; contains_from f s item n.next
  ]
]

unfoldable pub contains : Store → (item first : ℕ) → Run Bool
unfolding contains_from
contains s item first = if item == 0 then ok false else contains_from (suc s.fresh) s item first

-- What `Node::remove` does to a node of the list, statement by statement.
unfoldable pub unlink : Store → (item first : ℕ) → Run (ℕ × Store)
unfolding set_prev set_next
unlink s item first = do
  n ← load s item
  s ← if n.prev == 0 then ok s else set_next s n.prev n.next
  n ← load s item
  s ← if n.next == 0 then ok s else set_prev s n.next n.prev
  n ← load s item
  let first' = if item == first then n.next else first
  s ← set_next s item 0
  s ← set_prev s item 0
  ok (first', s)

unfoldable pub remove : Store → (item first : ℕ) → Run (ℤ × ℕ × Store)
unfolding contains unlink
remove s item first = do
  found ← contains s item first
  elim found [
    | false ↦ ok (negsuc 0, first, s)
    | true ↦ do (first, s) ← unlink s item first; ok (pos 0, first, s)
  ]

-- The loop of `Node::search`.
unfoldable pub search_from : ℕ → Store → Person → ℕ → Run Bool
unfolding load person_eq
search_from zero s target ptr = out_of_fuel
search_from (suc f) s target ptr = elim (ptr == 0) [
  | true ↦ ok false
  | false ↦ do
    n ← load s ptr
    same ← person_eq target n.person
    elim same [ true ↦ ok true | false ↦ search_from f s target n.next ]
]

unfoldable pub search_data : Store → Person → ℕ → Run Bool
unfolding search_from
search_data s target first = search_from (suc s.fresh) s target first

-- The loop of `person_name_search`.
unfoldable pub name_search_from : ℕ → Store → Bytes → ℕ → Run ℕ
unfolding load strcmp_eq
name_search_from zero s name ptr = out_of_fuel
name_search_from (suc f) s name ptr = elim (ptr == 0) [
  | true ↦ ok 0
  | false ↦ do
    n ← load s ptr
    same ← strcmp_eq n.person.name name
    elim same [ true ↦ ok ptr | false ↦ name_search_from f s name n.next ]
]

unfoldable pub person_name_search : Store → Bytes → ℕ → Run ℕ
unfolding name_search_from
person_name_search s name first = name_search_from (suc s.fresh) s name first
