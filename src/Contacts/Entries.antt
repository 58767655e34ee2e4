-- ===== src/Contacts/Entries.antt =====
-- The entries of the menu of test2/contacts.cpp, on a book that is there. The lines that `getline`
-- reads are arguments.
use test_linux.Base.{
  ℕ, zero, suc, ◌+◌, ◌-◌, ◌%◌, ◌^◌, Bool, true, false, Option, none, some, List, [], ◌∷◌, ◌==◌, ℤ,
  pos, negsuc, Run, ok, out_of_fuel, ◌>>=◌, Bytes,
}
use test_linux.Contacts.Persons.{Person, array, new_person}
use test_linux.Contacts.Nodes.{
  Store, load, new_node, delete_node, insert, remove, search_data, person_name_search,
}
use test_linux.Contacts.Files.{save_file, load_file}

pub record Contacts : Type 0 where
  pub store : Store
  pub first : ℕ  -- `data`
  pub count : ℕ  -- a `size_t`, of 64 bits

unfoldable pub insert_entry : Contacts → (name_tmp phone_tmp : Bytes) → Run (ℤ × Contacts)
insert_entry c name_tmp phone_tmp = do
  let person = new_person name_tmp phone_tmp
  let (item, s) = new_node c.store person
  duplicate ← search_data s person c.first
  elim duplicate [
    | true ↦ do s ← delete_node s item; ok (negsuc 3, record c { store = s })
    | false ↦ do
      (flag, first, s) ← insert s item c.first
      elim flag [
        | pos _ ↦ ok (pos 0, record { store = s; first = first; count = (c.count + 1) % 2 ^ 64 })
        | negsuc _ ↦ do s ← delete_node s item; ok (negsuc 2, record c { store = s })
      ]
  ]

unfoldable pub delete_entry : Contacts → (name_tmp : Bytes) → Run (ℤ × Contacts)
delete_entry c name_tmp = do
  ptr ← person_name_search c.store (array 15 name_tmp) c.first
  elim (ptr == 0) [
    | true ↦ ok (negsuc 1, c)
    | false ↦ do
      (flag, first, s) ← remove c.store ptr c.first
      elim flag [
        | negsuc _ ↦ ok (negsuc 2, record { store = s; first = first; count = c.count })
        | pos _ ↦ do
          s ← delete_node s ptr
          ok (pos 0, record { store = s; first = first; count = (c.count + 2 ^ 64 - 1) % 2 ^ 64 })
      ]
  ]

-- The entry that is printed, if one is found.
unfoldable pub search_entry : Contacts → (name_tmp : Bytes) → Run (ℤ × Option Person)
search_entry c name_tmp = do
  ptr ← person_name_search c.store (array 15 name_tmp) c.first
  elim (ptr == 0) [
    | true ↦ ok (negsuc 1, none)
    | false ↦ do n ← load c.store ptr; ok (pos 0, some n.person)
  ]

-- `person_traversal`: what is printed, in order.
unfoldable pub traverse_from : ℕ → Store → (ptr : ℕ) → Run (List Person)
unfolding load
traverse_from zero s ptr = out_of_fuel
traverse_from (suc f) s ptr = elim (ptr == 0) [
  | true ↦ ok []
  | false ↦ do n ← load s ptr; rest ← traverse_from f s n.next; ok (n.person ∷ rest)
]

unfoldable pub print_entry : Contacts → Run (List Person)
unfolding traverse_from
print_entry c = traverse_from (suc c.store.fresh) c.store c.first

unfoldable pub save_entry : Contacts → Bool → (ℕ → ℕ) → Run (ℤ × Option Bytes)
unfolding save_file
save_entry c opens writes = do
  (flag, file) ← save_file opens writes c.store c.first
  elim flag [ pos _ ↦ ok (pos 0, file) | negsuc _ ↦ ok (negsuc 1, file) ]

unfoldable pub load_entry : Contacts → Option Bytes → Run (ℤ × Contacts)
unfolding load_file
load_entry c file = do
  (flag, first, count, s) ← load_file file c.store c.first c.count
  let c : Contacts = record { store = s; first = first; count = count }
  elim flag [ pos _ ↦ ok (pos 0, c) | negsuc _ ↦ ok (negsuc 1, c) ]

-- The loop of `destroy_contacts`.
unfoldable pub destroy_from : ℕ → Store → (ptr : ℕ) → Run Store
unfolding load delete_node
destroy_from zero s ptr = out_of_fuel
destroy_from (suc f) s ptr = elim (ptr == 0) [
  | true ↦ ok s
  | false ↦ do n ← load s ptr; s ← delete_node s ptr; destroy_from f s n.next
]

unfoldable pub destroy_contacts : Contacts → Run Contacts
unfolding destroy_from
destroy_contacts c = do
  s ← destroy_from (suc c.store.fresh) c.store c.first
  ok (record { store = s; first = 0; count = 0 })
