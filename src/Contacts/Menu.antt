-- ===== src/Contacts/Menu.antt =====
-- `menu_function` of test2/contacts.cpp. What the user chooses and types, and how the system answers,
-- is a list of commands; the disk is the files in ./data/ by name.
use test_linux.Base.{
  ℕ, Bool, true, false, Option, none, some, List, [], ◌∷◌, Run, ok, ◌>>=◌, Bytes, if◌then◌else◌,
}
use test_linux.Contacts.Texts.{bytes_eq}
use test_linux.Contacts.Entries.{
  Contacts, insert_entry, delete_entry, search_entry, print_entry, save_entry, load_entry,
  destroy_contacts,
}

-- A choice that is no option is ignored. For a save, `opens` answers `fopen`, and `writes k` is the
-- number of bytes that the k-th `fwrite` can write.
pub data Command : Type 0 where
  option_insert : (name phone : Bytes) → Command
  option_print : Command
  option_delete : (name : Bytes) → Command
  option_search : (name : Bytes) → Command
  option_save : (filename : Bytes) (opens : Bool) (writes : ℕ → ℕ) → Command
  option_load : (filename : Bytes) → Command
  option_exit : Command
  other : Command

abbrev pub Disk : Type 0
Disk = Bytes → Option Bytes

-- A file that could not be opened leaves the disk as it is.
abbrev pub write_disk : Disk → Bytes → Option Bytes → Disk
write_disk disk filename none name = disk name
write_disk disk filename (some b) name = if bytes_eq name filename then some b else disk name

pub record World : Type 0 where
  pub cts : Contacts
  pub disk : Disk

unfoldable pub choose : World → Command → Run World
choose w (option_insert name phone) = do
  (_, c) ← insert_entry w.cts name phone
  ok (record w { cts = c })
choose w option_print = do _ ← print_entry w.cts; ok w
choose w (option_delete name) = do (_, c) ← delete_entry w.cts name; ok (record w { cts = c })
choose w (option_search name) = do _ ← search_entry w.cts name; ok w
choose w (option_save filename opens writes) = do
  (_, file) ← save_entry w.cts opens writes
  ok (record w { disk = write_disk w.disk filename file })
choose w (option_load filename) = do
  (_, c) ← load_entry w.cts (w.disk filename)
  ok (record w { cts = c })
choose w option_exit = do c ← destroy_contacts w.cts; ok (record w { cts = c })
choose w other = ok w

abbrev pub is_exit : Command → Bool
is_exit option_exit = true
is_exit _ = false

-- `while (true)`, up to the exit or to the last command of the list.
unfoldable pub menu_function : List Command → World → Run World
unfolding choose
menu_function [] w = ok w
menu_function (c ∷ cs) w = do
  w ← choose w c
  elim (is_exit c) [ true ↦ ok w | false ↦ menu_function cs w ]

-- `new Contacts()`, before anything has been allocated.
abbrev pub new_contacts : Contacts
new_contacts = record { store = record { cells = λ a. none; fresh = 1 }; first = 0; count = 0 }
