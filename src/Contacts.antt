-- ===== src/Contacts.antt =====
-- The address book of test2/contacts.cpp.
pub mod Persons
pub mod Nodes
pub mod Files
pub mod Entries
pub mod Chain
pub mod Unlink
pub mod Texts
pub mod Loops
pub mod Book
pub mod Without
pub mod Delete
pub mod Saving
pub mod Loading
pub mod Menu
pub mod Storage
pub mod Catalogue
pub mod Backup
pub mod Refinement
pub mod Examples
