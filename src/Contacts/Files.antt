-- ===== src/Contacts/Files.antt =====
-- `save_file` and `load_file` of test2/contacts.cpp. A file is its bytes.
use test_linux.Base.{
  ℕ, zero, suc, ◌+◌, ◌%◌, ◌^◌, Bool, true, false, Option, none, some, List, [], ◌∷◌, ◌++◌, ◌==◌,
  leb, length, take, drop, ℤ, pos, negsuc, Run, ok, out_of_fuel, ◌>>=◌, Bytes, if◌then◌else◌,
}
use test_linux.Contacts.Persons.{Person}
use test_linux.Contacts.Nodes.{Store, load, new_node, insert, delete_node}

abbrev pub size_buffer_p : ℕ
size_buffer_p = 64

-- `sizeof(Person)`.
abbrev pub size_person : ℕ
size_person = 32

abbrev pub image : Person → Bytes
image p = p.name ++ p.phone

abbrev pub images : List Person → Bytes
images [] = []
images (p ∷ ps) = image p ++ images ps

-- A `fwrite` of bytes where the k-th can write `writes k` of them; the result says whether it wrote
-- them all, which is when it returns the number of its items.
abbrev pub fwrite : (ℕ → ℕ) → ℕ → Bytes → Bool × Bytes
fwrite writes k b = (leb (length b) (writes k), take (writes k) b)

-- What is left in the buffer is written at the end.
unfoldable pub flush : (ℕ → ℕ) → ℕ → List Person → Bytes → ℤ × Bytes
flush writes k [] file = (pos 0, file)
flush writes k (p ∷ ps) file =
    let (all, b) = fwrite writes k (images (p ∷ ps)) in
    ((if all then pos 0 else negsuc 1), file ++ b)

-- The loop of `save_file` over the list, with the buffer and the file so far; `k` is the number of the
-- next `fwrite`. The result is what is returned, and the file.
unfoldable pub save_from :
    (ℕ → ℕ) → ℕ → Store → (ptr : ℕ) → ℕ → List Person → Bytes → Run (ℤ × Bytes)
unfolding load flush
save_from writes zero s ptr k buffer file = out_of_fuel
save_from writes (suc f) s ptr k buffer file = elim (ptr == 0) [
  | true ↦ ok (flush writes k buffer file)
  | false ↦ do
    n ← load s ptr
    let buffer = buffer ++ n.person ∷ []
    let (all, b) = fwrite writes k (images buffer)
    elim (length buffer == size_buffer_p) [
      | true ↦ elim all [
        | true ↦ save_from writes f s n.next (k + 1) [] (file ++ b)
        | false ↦ ok (negsuc 1, file ++ b)
      ]
      | false ↦ save_from writes f s n.next k buffer file
    ]
]

-- The result has the file's new bytes, or none if it could not be opened.
unfoldable pub save_file : (opens : Bool) → (ℕ → ℕ) → Store → (first : ℕ) → Run (ℤ × Option Bytes)
unfolding save_from
save_file opens writes s first = elim opens [
  | false ↦ ok (negsuc 0, none)
  | true ↦ do (code, file) ← save_from writes (suc s.fresh) s first 0 [] []; ok (code, some file)
]

abbrev pub person_of : Bytes → Person
person_of b = record { name = take 16 b; phone = drop 16 b }

-- `fread` of n items: whole items are counted, and a rest that is no item is used up.
unfoldable pub read_items : ℕ → Bytes → List Person × Bytes
read_items zero b = ([], b)
read_items (suc n) b =
    let (ps, rest) = read_items n (drop size_person b) in
    if leb size_person (length b) then (person_of (take size_person b) ∷ ps, rest) else ([], [])

-- The inner loop of `load_file`; the result has `first` and `count`.
unfoldable pub insert_items : List Person → Store → (first count : ℕ) → Run (ℕ × ℕ × Store)
unfolding new_node insert delete_node
insert_items [] s first count = ok (first, count, s)
insert_items (p ∷ ps) s first count = do
  let (item, s) = new_node s p
  (code, first, s) ← insert s item first
  elim code [
    | pos _ ↦ insert_items ps s first ((count + 1) % 2 ^ 64)
    | negsuc _ ↦ do s ← delete_node s item; insert_items ps s first count
  ]

-- `do … while (read_num != 0)`.
unfoldable pub load_from : ℕ → Bytes → Store → (first count : ℕ) → Run (ℕ × ℕ × Store)
unfolding read_items insert_items
load_from zero b s first count = out_of_fuel
load_from (suc f) b s first count =
    let (ps, rest) = read_items size_buffer_p b in
    elim ps [
      | [] ↦ ok (first, count, s)
      | p ∷ more ↦ do
        (first, count, s) ← insert_items (p ∷ more) s first count
        load_from f rest s first count
    ]

-- A file that is not there cannot be opened.
unfoldable pub load_file : Option Bytes → Store → (first count : ℕ) → Run (ℤ × ℕ × ℕ × Store)
unfolding load_from
load_file none s first count = ok (negsuc 0, first, count, s)
load_file (some b) s first count = do
  (first, count, s) ← load_from (suc (length b)) b s first count
  ok (pos 0, first, count, s)
